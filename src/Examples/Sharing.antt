-- ===== src/Examples/Sharing.antt =====
-- The theorems on sharing at concrete inputs.
use adsb_feed.Prelude.{◌≡◌, refl, true, some, none, ok, err, List, [], ◌∷◌, codes}
use adsb_feed.Storage.Sharing.{ShareConfig, off, Sharing, serve_args}
use adsb_feed.Storage.Sharing.Quoting.{read_args, read_args-serve_args}
use adsb_feed.Storage.Sharing.Servers.{
  Command, start_command, stop_command, run, Serves, run-Serves,
}

-- A token that tries to end its literal.
abbrev config : ShareConfig
config = record {
  uri = codes "quack:localhost";
  token = some (codes "a'); DROP");
  allow_other_hostname = true;
  auto_start = true;
}

read_args-serve_args_example :
    read_args (serve_args config) ≡ some (config.uri, config.token, config.allow_other_hostname)
read_args-serve_args_example = read_args-serve_args config

-- A start that fails, two that work, of which the second finds the first's server, and a stop.
abbrev commands : List Command
commands =
    start_command (λ sql. err (codes "offline"))
    ∷ start_command (λ sql. ok (codes "quack:localhost", codes "http://localhost:9494", codes "t"))
    ∷ start_command (λ sql. ok (codes "quack:other", codes "http://other:9494", codes "t"))
    ∷ stop_command (λ sql. ok tt)
    ∷ []

abbrev unshared : Sharing
unshared = record { share_config = none; share_status = off; servers = [] }

run-Serves_example : Serves (run commands unshared)
run-Serves_example = run-Serves commands unshared refl
