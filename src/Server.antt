-- ===== src/Server.antt =====
-- The command line of the server: `parse_server_config` of src/server.cc, with its helpers and the
-- types of include/rtb/server.h. The default campaign file is a path that the build fixes, a
-- parameter here. An `int` is an integer ℤ.
mod Examples
pub mod Usable
pub mod Config
pub mod Run
pub mod Launch
pub mod Cleanup
use rtb_engine.Base.{
  ℕ, ◌^◌, Bool, true, false, ◌&&◌, ◌||◌, List, [], ◌∷◌, ◌++◌, Option, none, some, if◌then◌else◌,
  ltb, leb, ◌==◌, codes, text_eq,
}
use rtb_engine.Numbers.{ℤ, pos, negsuc, parse_u64, parse_int_arg}

pub record ServerConfig : Type 0 where
  pub port : ℕ
  pub workers : ℤ
  pub benchmark : Bool
  pub benchmark_requests : ℕ
  pub benchmark_duration_ms : ℕ
  pub benchmark_json_path : List ℕ
  pub campaign_data_path : List ℕ

pub data ParseServerConfigStatus : Type 0 where
  ok help_requested invalid_argument : ParseServerConfigStatus

-- The status, and the out parameters as they stand at the end.
pub record ParsedConfig : Type 0 where
  pub status : ParseServerConfigStatus
  pub out : ServerConfig
  pub error : List ℕ

-- Ports from 1 to 65535.
abbrev pub port_of : Option ℤ → Option ℕ
port_of none = none
port_of (some (negsuc n)) = none
port_of (some (pos n)) = if n == 0 || ltb 65535 n then none else some n

unfoldable pub parse_port_arg : List ℕ → Option ℕ
unfolding parse_int_arg
parse_port_arg text = port_of (parse_int_arg text)

-- The branches of the loop: which of the known arguments `arg` is.
pub data Argument : Type 0 where
  help benchmark port workers campaign_data_path benchmark_json benchmark_requests
        benchmark_duration_ms unknown :
      Argument

unfoldable pub argument_of : List ℕ → Argument
unfolding text_eq
argument_of arg =
    if text_eq arg (codes "--help")
    then Argument.help
    else if text_eq arg (codes "--benchmark")
    then Argument.benchmark
    else if text_eq arg (codes "--port")
    then Argument.port
    else if text_eq arg (codes "--workers")
    then Argument.workers
    else if text_eq arg (codes "--campaign-data-path")
    then Argument.campaign_data_path
    else if text_eq arg (codes "--benchmark-json")
    then Argument.benchmark_json
    else if text_eq arg (codes "--benchmark-requests")
    then Argument.benchmark_requests
    else if text_eq arg (codes "--benchmark-duration-ms")
    then Argument.benchmark_duration_ms
    else Argument.unknown

-- A value is taken or refused; a refused one may have been written all the same.
abbrev pub set_port : Option ℕ → ServerConfig → Bool × ServerConfig
set_port none out = (false, out)
set_port (some n) out = (true, record out { port = n })

abbrev pub set_workers : Option ℤ → ServerConfig → Bool × ServerConfig
set_workers none out = (false, out)
set_workers (some (negsuc n)) out = (false, record out { workers = negsuc n })
set_workers (some (pos n)) out = (ltb 0 n, record out { workers = pos n })

abbrev pub set_requests : Option ℕ → ServerConfig → Bool × ServerConfig
set_requests none out = (false, out)
set_requests (some n) out =
    if n == 0
    then (false, record out { benchmark_requests = n })
    else (true, record out { benchmark_requests = n; benchmark = true })

abbrev pub set_duration : Option ℕ → ServerConfig → Bool × ServerConfig
set_duration none out = (false, out)
set_duration (some n) out =
    if n == 0
    then (false, record out { benchmark_duration_ms = n })
    else (true, record out { benchmark_duration_ms = n; benchmark = true })

-- The value of an argument that takes one.
unfoldable pub set_value : Argument → List ℕ → ServerConfig → Bool × ServerConfig
unfolding parse_port_arg
set_value Argument.port value out = set_port (parse_port_arg value) out
set_value Argument.workers value out = set_workers (parse_int_arg value) out
set_value Argument.campaign_data_path value out = (true, record out { campaign_data_path = value })
set_value Argument.benchmark_json value out =
    (true, record out { benchmark = true; benchmark_json_path = value })
set_value Argument.benchmark_requests value out = set_requests (parse_u64 value) out
set_value Argument.benchmark_duration_ms value out = set_duration (parse_u64 value) out
set_value Argument.help value out = (false, out)
set_value Argument.benchmark value out = (false, out)
set_value Argument.unknown value out = (false, out)

abbrev pub finished : ServerConfig → ParsedConfig
finished out = record { status = ParseServerConfigStatus.ok; out = out; error = [] }

abbrev pub helped : ServerConfig → ParsedConfig
helped out = record { status = ParseServerConfigStatus.help_requested; out = out; error = [] }

-- The error texts name the argument.
abbrev pub failed : List ℕ → List ℕ → ServerConfig → ParsedConfig
failed what arg out = record {
  status = ParseServerConfigStatus.invalid_argument;
  out = out;
  error = what ++ arg;
}

-- The last argument, with no value behind it.
unfoldable pub parse_last : List ℕ → Argument → ServerConfig → ParsedConfig
parse_last arg Argument.help out = helped out
parse_last arg Argument.benchmark out = finished (record out { benchmark = true })
parse_last arg Argument.unknown out = failed (codes "unknown argument: ") arg out
parse_last arg Argument.port out = failed (codes "missing value for ") arg out
parse_last arg Argument.workers out = failed (codes "missing value for ") arg out
parse_last arg Argument.campaign_data_path out = failed (codes "missing value for ") arg out
parse_last arg Argument.benchmark_json out = failed (codes "missing value for ") arg out
parse_last arg Argument.benchmark_requests out = failed (codes "missing value for ") arg out
parse_last arg Argument.benchmark_duration_ms out = failed (codes "missing value for ") arg out

-- What the loop does with an argument and the one behind it.
pub data Next : Type 0 where
  stop : ParsedConfig → Next
  skip_one : ServerConfig → Next
  skip_two : ServerConfig → Next

abbrev pub next_value : List ℕ → Bool × ServerConfig → Next
next_value arg (true, out) = skip_two out
next_value arg (false, out) = stop (failed (codes "invalid value for ") arg out)

unfoldable pub next_of : List ℕ → Argument → List ℕ → ServerConfig → Next
next_of arg Argument.help value out = stop (helped out)
next_of arg Argument.benchmark value out = skip_one (record out { benchmark = true })
next_of arg Argument.unknown value out = stop (failed (codes "unknown argument: ") arg out)
next_of arg Argument.port value out = next_value arg (set_value Argument.port value out)
next_of arg Argument.workers value out = next_value arg (set_value Argument.workers value out)
next_of arg Argument.campaign_data_path value out =
    next_value arg (set_value Argument.campaign_data_path value out)
next_of arg Argument.benchmark_json value out =
    next_value arg (set_value Argument.benchmark_json value out)
next_of arg Argument.benchmark_requests value out =
    next_value arg (set_value Argument.benchmark_requests value out)
next_of arg Argument.benchmark_duration_ms value out =
    next_value arg (set_value Argument.benchmark_duration_ms value out)

-- The loop over the arguments.
unfoldable pub parse_args : List (List ℕ) → ServerConfig → ParsedConfig
parse_args [] out = finished out
parse_args (arg ∷ []) out = parse_last arg (argument_of arg) out
parse_args (arg ∷ value ∷ rest) out =
    let one = λ (c : ServerConfig). parse_args (value ∷ rest) c in
    let two = λ (c : ServerConfig). parse_args rest c in
    elim (next_of arg (argument_of arg) value out) [
      | stop result ↦ result
      | skip_one c ↦ one c
      | skip_two c ↦ two c
    ]

-- The configuration before the first argument.
abbrev pub default_config : List ℕ → ServerConfig
default_config default_campaign_data_path = record {
  port = 8080;
  workers = pos 1;
  benchmark = false;
  benchmark_requests = 0;
  benchmark_duration_ms = 0;
  benchmark_json_path = [];
  campaign_data_path = default_campaign_data_path;
}

unfoldable pub parse_server_config : List ℕ → List (List ℕ) → ParsedConfig
unfolding parse_args
parse_server_config default_campaign_data_path args =
    parse_args args (default_config default_campaign_data_path)
