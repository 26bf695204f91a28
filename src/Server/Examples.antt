-- ===== src/Server/Examples.antt =====
-- Command lines of the server (src/server.cc).
use rtb_engine.Base.{
  ℕ, ◌+◌, ◌≡◌, inr, ◌==◌, refl, true, false, none, some, List, [], ◌∷◌, codes, text_eq,
}
use rtb_engine.Numbers.{pos, negsuc}
use rtb_engine.Server.{
  ParseServerConfigStatus, argument_of, set_value, parse_last, next_of, parse_args,
  parse_server_config, failed, ServerConfig, default_config,
}
use rtb_engine.Double.Fixed.{Fixed, fixed_double, units}
use rtb_engine.Protobuf.Sample.{sample_proto}
use rtb_engine.Store.Sample.{sample_file, sample_store}
use rtb_engine.Benchmark.{Statistics}
use rtb_engine.Worker.Lifetime.{
  StartInput, abandon, register_shutdown, create_epoll, open_listener, initialize_worker_runtime,
}
use rtb_engine.Server.Run.{Globals, add_worker, start_workers}
use rtb_engine.Server.Launch.{
  ServerInput, ServerRun, print_server_usage, open_event_fd, dispatch, main,
}
use rtb_engine.Server.Cleanup.{EndsClean, open_event_fd-EndsClean}
use rtb_engine.Server.Usable.{IsUsable}
use rtb_engine.Server.Config.{parse_server_config-IsUsable}

abbrev good : List (List ℕ)
good = codes "--port" ∷ codes "9000" ∷ codes "--benchmark" ∷ codes "--workers" ∷ codes "4" ∷ []

accepts : (parse_server_config [] good).status ≡ ParseServerConfigStatus.ok
unfolding parse_server_config argument_of next_of set_value parse_last
accepts = refl

four_workers : (parse_server_config [] good).out.workers ≡ pos 4
unfolding parse_server_config argument_of next_of set_value parse_last
four_workers = refl

bad_port :
    parse_server_config [] (codes "--port" ∷ codes "65536" ∷ [])
    ≡ failed (codes "invalid value for ") (codes "--port") (default_config [])
unfolding parse_server_config argument_of next_of set_value
bad_port = refl

parse_server_config-IsUsable_example : IsUsable (parse_server_config [] good).out
parse_server_config-IsUsable_example = parse_server_config-IsUsable [] good accepts

-- A server whose second worker cannot bind.
abbrev started : ℕ → StartInput
started worker_id = record {
  now = 5;
  campaign_file = none;
  socket_fd = some (10 + worker_id);
  reuse_address = true;
  reuse_port = true;
  bound = worker_id == 0;
  listening = true;
  epoll_fd = some 20;
  listen_added = true;
  shutdown_added = true;
}

abbrev input : ServerInput
input = record {
  campaign_file = some sample_file;
  event_fd = some 9;
  sigint = true;
  sigterm = true;
  starts = started;
  schedule = [];
  timer_expired = false;
  json_open = true;
  timestamp_now_utc = [];
}

abbrev globals : Globals
globals = record { shutdown_requested = false; shutdown_event_fd = negsuc 0 }

abbrev two_workers : ServerConfig
two_workers = record (default_config []) { workers = pos 2 }

abbrev statistics : Statistics Fixed
statistics = record { average = λ values. units 0; truncate = λ x. 0; fixed_two = λ x. [] }

second_fails :
    (start_workers started two_workers (pos 9) none sample_store 2 0 []).all_initialized ≡ false
unfolding start_workers add_worker initialize_worker_runtime open_listener create_epoll
    register_shutdown abandon
second_fails = refl

open_event_fd-EndsClean_example :
    (run : ServerRun) × (open_event_fd sample_proto statistics input two_workers globals
        sample_store
      ≡ some run)
    × EndsClean run
open_event_fd-EndsClean_example =
    open_event_fd-EndsClean sample_proto statistics input two_workers globals sample_store 9 refl
      (inr second_fails)

usage :
    main sample_proto statistics input [] (codes "rtb") (codes "--help" ∷ [])
    ≡ some (record { exit_code = pos 0; output = print_server_usage (codes "rtb"); errors = [] })
unfolding main dispatch parse_server_config parse_args argument_of parse_last text_eq
usage = refl
