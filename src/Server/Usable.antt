-- ===== src/Server/Usable.antt =====
-- Configurations that the server (src/server.cc) can start with, and the settings that keep them so.
use rtb_engine.Base.{
  ℕ, ◌≤◌, ◌<◌, ◌≡◌, ◌≢◌, refl, sym, subst, true, List, [], Option, none, some, arith,
}
use rtb_engine.Numbers.{ℤ, pos, negsuc, parse_int_arg, parse_u64}
use rtb_engine.Server.{
  ServerConfig, port_of, parse_port_arg, Argument, set_value, set_port, set_workers, set_requests,
  set_duration,
}

-- The number of workers is positive.
pub data IsPositive : ℤ → Type 0 where
  positive : {n : ℕ} → 0 < n → IsPositive (pos n)

-- A port and a number of workers to start with, and no benchmark setting without the benchmark.
pub record IsUsable (c : ServerConfig) : Type 0 where
  pub port_low : 0 < c.port
  pub port_high : c.port ≤ 65535
  pub workers : IsPositive c.workers
  pub requests : 0 < c.benchmark_requests → c.benchmark ≡ true
  pub duration : 0 < c.benchmark_duration_ms → c.benchmark ≡ true
  pub json : c.benchmark_json_path ≢ [] → c.benchmark ≡ true

of_port-range : (z : Option ℤ) (n : ℕ) → port_of z ≡ some n → (0 < n) × (n ≤ 65535)
of_port-range none n e = cc
of_port-range (some (negsuc m)) n e = cc
of_port-range (some (pos m)) n e = ground arith

port_range : (text : List ℕ) (n : ℕ) → parse_port_arg text ≡ some n → (0 < n) × (n ≤ 65535)
unfolding parse_port_arg
port_range text n e = of_port-range (parse_int_arg text) n e

module _ (c : ServerConfig) (v : IsUsable c) where
  set_port-IsUsable :
      (z : Option ℕ)
      → ((n : ℕ) → z ≡ some n → (0 < n) × (n ≤ 65535))
      → (set_port z c).0 ≡ true
      → IsUsable (set_port z c).1
  set_port-IsUsable none h e = cc
  set_port-IsUsable (some n) h e = record {
    port_low = (h n refl).0;
    port_high = (h n refl).1;
    workers = v.workers;
    requests = v.requests;
    duration = v.duration;
    json = v.json;
  }

  set_workers-IsUsable : (z : Option ℤ) → (set_workers z c).0 ≡ true → IsUsable (set_workers z c).1
  set_workers-IsUsable none e = cc
  set_workers-IsUsable (some (negsuc n)) e = cc
  set_workers-IsUsable (some (pos n)) e = record {
    port_low = v.port_low;
    port_high = v.port_high;
    workers = positive (ground arith);
    requests = v.requests;
    duration = v.duration;
    json = v.json;
  }

  -- The benchmark is switched on, with other settings of it.
  pub benchmark-IsUsable :
      (requests duration : ℕ) (path : List ℕ)
      → IsUsable (record c {
        benchmark = true;
        benchmark_requests = requests;
        benchmark_duration_ms = duration;
        benchmark_json_path = path;
      })
  benchmark-IsUsable requests duration path = record {
    port_low = v.port_low;
    port_high = v.port_high;
    workers = v.workers;
    requests = λ _. refl;
    duration = λ _. refl;
    json = λ _. refl;
  }

  set_requests-some :
      (n : ℕ)
      → (set_requests (some n) c).0 ≡ true
      → (set_requests (some n) c).1 ≡ record c { benchmark_requests = n; benchmark = true }
  set_requests-some n e = ground arith

  set_requests-IsUsable :
      (z : Option ℕ) → (set_requests z c).0 ≡ true → IsUsable (set_requests z c).1
  set_requests-IsUsable none e = cc
  set_requests-IsUsable (some n) e =
      subst IsUsable (sym (set_requests-some n e))
        (benchmark-IsUsable n c.benchmark_duration_ms c.benchmark_json_path)

  set_duration-some :
      (n : ℕ)
      → (set_duration (some n) c).0 ≡ true
      → (set_duration (some n) c).1 ≡ record c { benchmark_duration_ms = n; benchmark = true }
  set_duration-some n e = ground arith

  set_duration-IsUsable :
      (z : Option ℕ) → (set_duration z c).0 ≡ true → IsUsable (set_duration z c).1
  set_duration-IsUsable none e = cc
  set_duration-IsUsable (some n) e =
      subst IsUsable (sym (set_duration-some n e))
        (benchmark-IsUsable c.benchmark_requests n c.benchmark_json_path)

  pub set_value-IsUsable :
      (a : Argument) (value : List ℕ)
      → (set_value a value c).0 ≡ true
      → IsUsable (set_value a value c).1
  unfolding set_value
  set_value-IsUsable Argument.port value e =
      set_port-IsUsable (parse_port_arg value) (port_range value) e
  set_value-IsUsable Argument.workers value e = set_workers-IsUsable (parse_int_arg value) e
  set_value-IsUsable Argument.campaign_data_path value e = record {
    port_low = v.port_low;
    port_high = v.port_high;
    workers = v.workers;
    requests = v.requests;
    duration = v.duration;
    json = v.json;
  }
  set_value-IsUsable Argument.benchmark_json value e =
      benchmark-IsUsable c.benchmark_requests c.benchmark_duration_ms value
  set_value-IsUsable Argument.benchmark_requests value e = set_requests-IsUsable (parse_u64 value) e
  set_value-IsUsable Argument.benchmark_duration_ms value e =
      set_duration-IsUsable (parse_u64 value) e
  set_value-IsUsable Argument.help value e = cc
  set_value-IsUsable Argument.benchmark value e = cc
  set_value-IsUsable Argument.unknown value e = cc
