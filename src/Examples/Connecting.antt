-- ===== src/Examples/Connecting.antt =====
-- The theorems on the reconnect loop and on the configuration at concrete inputs.
use adsb_feed.Prelude.{
  ◌≡◌, ◌↔◌, false, none, some, Option, [], ◌∷◌, ◌++◌, Bytes, codes, is_empty, arith, if◌then◌else◌,
}
use adsb_feed.Prelude.Int.{pos}
use adsb_feed.Time.{from_secs}
use adsb_feed.Feed.Error.{timed_out, ok}
use adsb_feed.Feed.Client.{read_ok, read_err}
use adsb_feed.Feed.Client.Reconnecting.{
  Pauses, initial_retry_delay, max_retry_delay, accepted, refused, attempt_timed_out, answered,
  Session, connect_socket, run_client_mode,
}
use adsb_feed.Feed.Client.Reconnecting.Pausing.{
  delays_from, Steady, connect_socket_lem, run_client_mode-Steady,
}
use adsb_feed.Feed.Config.{Config, pulsar, mqtt, validate}
use adsb_feed.Feed.Config.Validation.{IsValid, validate-IsValid}
use adsb_feed.Examples.Data.{backend, two_lines, client}

abbrev pauses : Pauses
pauses = record { initial_retry_delay_secs = 1; max_retry_delay_secs = 60 }

-- A receiver that drops the connection after two lines.
abbrev flaky : Session
flaky = record {
  shutdown_before = false;
  began = 3;
  attempts = refused ∷ accepted ∷ [];
  events = read_ok two_lines 7 (pos 5) ∷ read_err timed_out ∷ [];
  shutdown_in_pause = false;
}

connect_socket_lem_example :
    connect_socket pauses ((refused ∷ attempt_timed_out ∷ refused ∷ []) ++ accepted ∷ [])
    ≡ (delays_from (from_secs 1) (from_secs 60) 0 3, answered (ok tt))
unfolding initial_retry_delay max_retry_delay
connect_socket_lem_example =
    connect_socket_lem pauses (refused ∷ attempt_timed_out ∷ refused ∷ []) [] (tt, (tt, (tt, tt)))
      (omega arith)

run_client_mode-Steady_example :
    Steady (initial_retry_delay pauses) (run_client_mode backend pauses (flaky ∷ flaky ∷ []) client)
run_client_mode-Steady_example = run_client_mode-Steady backend pauses (flaky ∷ flaky ∷ []) client

-- A parser that takes every address that is not empty.
abbrev parse_ip : Bytes → Option Bytes
parse_ip s = if is_empty s then none else some s

abbrev settings : Config
settings = record {
  source_id = codes "roof";
  metrics_port = 9090;
  metrics_bind = codes "127.0.0.1";
  pulsar_broker = codes "pulsar://localhost:6650";
  recv_buffer_size = 8192;
  max_line_buffer_size = 10000000;
  connection_mode = codes "client";
  forwarders = pulsar ∷ mqtt ∷ [];
  mqtt_broker = codes "localhost";
  mqtt_topic = codes "adsb/raw";
  mqtt_qos = 1;
}

validate-IsValid_example : (validate parse_ip settings ≡ ok tt) ↔ IsValid parse_ip settings
validate-IsValid_example = validate-IsValid parse_ip settings
