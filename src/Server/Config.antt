-- ===== src/Server/Config.antt =====
-- What `parse_server_config` (src/server.cc) hands on, on success and on failure.
use rtb_engine.Base.{
  ℕ, codes, ◌++◌, ◌≡◌, ◌↔◌, refl, Bool, true, false, List, [], ◌∷◌, arith, is_empty,
}
use rtb_engine.Server.{
  ServerConfig, ParseServerConfigStatus, ParsedConfig, Argument, argument_of, finished, helped,
  failed, parse_last, Next, stop, skip_one, skip_two, next_value, next_of, parse_args,
  default_config, parse_server_config,
}
use rtb_engine.Server.Usable.{positive, IsUsable, benchmark-IsUsable, set_value-IsUsable}

-- A result with an error text exactly if it is a failure, and a usable configuration on success.
record IsSettled (r : ParsedConfig) : Type 0 where
  usable : r.status ≡ ParseServerConfigStatus.ok → IsUsable r.out
  told : (r.status ≡ ParseServerConfigStatus.invalid_argument) ↔ (is_empty r.error ≡ false)

data NextUsable : Next → Type 0 where
  stops : {r : ParsedConfig} → IsSettled r → NextUsable (stop r)
  skips_one : {c : ServerConfig} → IsUsable c → NextUsable (skip_one c)
  skips_two : {c : ServerConfig} → IsUsable c → NextUsable (skip_two c)

finished-IsSettled : (c : ServerConfig) → IsUsable c → IsSettled (finished c)
finished-IsSettled c v = record { usable = λ _. v; told = (λ e. cc, λ e. cc) }

helped-IsSettled : (c : ServerConfig) → IsSettled (helped c)
helped-IsSettled c = record { usable = λ e. cc; told = (λ e. cc, λ e. cc) }

failed-IsSettled :
    (what arg : List ℕ) (c : ServerConfig)
    → is_empty (what ++ arg) ≡ false
    → IsSettled (failed what arg c)
failed-IsSettled what arg c given = record { usable = λ e. cc; told = (λ e. given, λ e. refl) }

next_value-NextUsable :
    (arg : List ℕ) (p : Bool × ServerConfig)
    → (p.0 ≡ true → IsUsable p.1)
    → NextUsable (next_value arg p)
next_value-NextUsable arg (true, c) h = skips_two (h refl)
next_value-NextUsable arg (false, c) h =
    stops (failed-IsSettled (codes "invalid value for ") arg c refl)

next_of-NextUsable :
    (arg : List ℕ) (a : Argument) (value : List ℕ) (c : ServerConfig)
    → IsUsable c
    → NextUsable (next_of arg a value c)
unfolding next_of
next_of-NextUsable arg Argument.help value c v = stops (helped-IsSettled c)
next_of-NextUsable arg Argument.benchmark value c v =
    skips_one
      (benchmark-IsUsable c v c.benchmark_requests c.benchmark_duration_ms c.benchmark_json_path)
next_of-NextUsable arg Argument.unknown value c v =
    stops (failed-IsSettled (codes "unknown argument: ") arg c refl)
next_of-NextUsable arg Argument.port value c v =
    next_value-NextUsable arg _ (set_value-IsUsable c v Argument.port value)
next_of-NextUsable arg Argument.workers value c v =
    next_value-NextUsable arg _ (set_value-IsUsable c v Argument.workers value)
next_of-NextUsable arg Argument.campaign_data_path value c v =
    next_value-NextUsable arg _ (set_value-IsUsable c v Argument.campaign_data_path value)
next_of-NextUsable arg Argument.benchmark_json value c v =
    next_value-NextUsable arg _ (set_value-IsUsable c v Argument.benchmark_json value)
next_of-NextUsable arg Argument.benchmark_requests value c v =
    next_value-NextUsable arg _ (set_value-IsUsable c v Argument.benchmark_requests value)
next_of-NextUsable arg Argument.benchmark_duration_ms value c v =
    next_value-NextUsable arg _ (set_value-IsUsable c v Argument.benchmark_duration_ms value)

parse_last-IsSettled :
    (arg : List ℕ) (a : Argument) (c : ServerConfig) → IsUsable c → IsSettled (parse_last arg a c)
unfolding parse_last
parse_last-IsSettled arg Argument.help c v = helped-IsSettled c
parse_last-IsSettled arg Argument.benchmark c v =
    finished-IsSettled _
      (benchmark-IsUsable c v c.benchmark_requests c.benchmark_duration_ms c.benchmark_json_path)
parse_last-IsSettled arg Argument.unknown c v =
    failed-IsSettled (codes "unknown argument: ") arg c refl
parse_last-IsSettled arg Argument.port c v =
    failed-IsSettled (codes "missing value for ") arg c refl
parse_last-IsSettled arg Argument.workers c v =
    failed-IsSettled (codes "missing value for ") arg c refl
parse_last-IsSettled arg Argument.campaign_data_path c v =
    failed-IsSettled (codes "missing value for ") arg c refl
parse_last-IsSettled arg Argument.benchmark_json c v =
    failed-IsSettled (codes "missing value for ") arg c refl
parse_last-IsSettled arg Argument.benchmark_requests c v =
    failed-IsSettled (codes "missing value for ") arg c refl
parse_last-IsSettled arg Argument.benchmark_duration_ms c v =
    failed-IsSettled (codes "missing value for ") arg c refl

parse_args-IsSettled :
    (args : List (List ℕ)) (c : ServerConfig) → IsUsable c → IsSettled (parse_args args c)
unfolding parse_args
parse_args-IsSettled [] c v = finished-IsSettled c v
parse_args-IsSettled (arg ∷ []) c v = parse_last-IsSettled arg (argument_of arg) c v
parse_args-IsSettled (arg ∷ value ∷ rest) c v =
    onward (next_of arg (argument_of arg) value c)
      (next_of-NextUsable arg (argument_of arg) value c v)
      (λ c'. parse_args-IsSettled (value ∷ rest) c') (λ c'. parse_args-IsSettled rest c')
  where
    onward :
        (n : Next)
        → NextUsable n
        → ((c' : ServerConfig) → IsUsable c' → IsSettled (parse_args (value ∷ rest) c'))
        → ((c' : ServerConfig) → IsUsable c' → IsSettled (parse_args rest c'))
        → IsSettled (elim n [
          | stop result ↦ result
          | skip_one c' ↦ parse_args (value ∷ rest) c'
          | skip_two c' ↦ parse_args rest c'
        ])
    onward (stop r) (stops s) one two = s
    onward (skip_one c') (skips_one u) one two = one c' u
    onward (skip_two c') (skips_two u) one two = two c' u

default-IsUsable : (path : List ℕ) → IsUsable (default_config path)
default-IsUsable path = record {
  port_low = omega arith;
  port_high = omega arith;
  workers = positive (omega arith);
  requests = λ h. absurd (omega arith);
  duration = λ h. absurd (omega arith);
  json = λ h. absurd (h refl);
}

-- A configuration that `parse_server_config` accepts has a port from 1 to 65535 and a positive
-- number of workers, and with a benchmark setting other than the default the benchmark is on.
pub parse_server_config-IsUsable :
    (path : List ℕ) (args : List (List ℕ))
    → (parse_server_config path args).status ≡ ParseServerConfigStatus.ok
    → IsUsable (parse_server_config path args).out
unfolding parse_server_config
parse_server_config-IsUsable path args h =
    (parse_args-IsSettled args (default_config path) (default-IsUsable path)).usable h

-- There is an error text exactly when `parse_server_config` reports an invalid argument.
pub parse_server_config-error :
    (path : List ℕ) (args : List (List ℕ))
    → ((parse_server_config path args).status ≡ ParseServerConfigStatus.invalid_argument)
      ↔ (is_empty (parse_server_config path args).error ≡ false)
unfolding parse_server_config
parse_server_config-error path args =
    (parse_args-IsSettled args (default_config path) (default-IsUsable path)).told
