-- ===== src/Feed/Config.antt =====
-- rust/adsb-pulsar-client/src/config.rs: the settings that `Config::validate` reads, and the check. The
-- parse of an IP address is the standard library's and a parameter.
pub mod Validation
use adsb_feed.Prelude.{
  ℕ, Bool, true, false, ◌&&◌, ◌||◌, not, Option, none, some, List, [], ◌∷◌, ◌++◌, Bytes, codes, ltb,
  ◌==◌, if◌then◌else◌, is_empty, bytes_eq,
}
use adsb_feed.Ingest.Text.{trim}
use adsb_feed.Feed.Error.{ClientError, config, Result, ok, err}
use adsb_feed.Feed.Monitor.{starts_with}

pub data ForwarderKind : Type 0 where
  pulsar file mqtt noop : ForwarderKind

-- The derived `PartialEq`.
unfoldable pub kind_eq : ForwarderKind → ForwarderKind → Bool
kind_eq pulsar pulsar = true
kind_eq file file = true
kind_eq mqtt mqtt = true
kind_eq noop noop = true
kind_eq _ _ = false

-- `Vec::contains`.
unfoldable pub contains : ForwarderKind → List ForwarderKind → Bool
unfolding kind_eq
contains k [] = false
contains k (x ∷ xs) = kind_eq x k || contains k xs

pub record Config : Type 0 where
  pub source_id : Bytes
  pub metrics_port : ℕ
  pub metrics_bind : Bytes
  pub pulsar_broker : Bytes
  pub recv_buffer_size : ℕ
  pub max_line_buffer_size : ℕ
  pub connection_mode : Bytes
  pub forwarders : List ForwarderKind
  pub mqtt_broker : Bytes
  pub mqtt_topic : Bytes
  pub mqtt_qos : ℕ

-- `return Err(ClientError::Config(..))` under a condition.
abbrev pub refuse_if : Bool → Bytes → Result (Unit {0}) → Result (Unit {0})
refuse_if bad message rest = if bad then err (config message) else rest

-- `trim().is_empty()`.
abbrev pub is_blank : Bytes → Bool
is_blank s = is_empty (trim s)

abbrev pub pulsar_scheme : Bytes
pulsar_scheme = codes "pulsar://"

abbrev pub pulsar_ssl_scheme : Bytes
pulsar_ssl_scheme = codes "pulsar+ssl://"

abbrev pub client_mode : Bytes
client_mode = codes "client"

abbrev pub server_mode : Bytes
server_mode = codes "server"

module _ {A : Type 0} (parse_ip : Bytes → Option A) where
  -- `metrics_bind_addr`.
  unfoldable pub metrics_bind_addr : Config → Option A
  metrics_bind_addr c = parse_ip c.metrics_bind

  -- The tests of `validate`, each true when the setting is refused.
  unfoldable pub bad_metrics : Config → Bool
  unfolding metrics_bind_addr
  bad_metrics c =
      ltb 0 c.metrics_port && (elim (metrics_bind_addr c) [ none ↦ true | some a ↦ false ])

  unfoldable pub bad_pulsar : Config → Bool
  unfolding contains
  bad_pulsar c =
      contains pulsar c.forwarders
      && not (starts_with pulsar_scheme c.pulsar_broker)
      && not (starts_with pulsar_ssl_scheme c.pulsar_broker)

  unfoldable pub bad_mode : Config → Bool
  bad_mode c =
      not (bytes_eq c.connection_mode client_mode) && not (bytes_eq c.connection_mode server_mode)

  -- The settings of MQTT, only when it is one of the forwarders.
  unfoldable pub validate_mqtt : Config → Result (Unit {0}) → Result (Unit {0})
  unfolding contains
  validate_mqtt c rest =
      if contains mqtt c.forwarders
      then refuse_if (is_blank c.mqtt_broker) (codes "mqtt_broker cannot be empty") (
          refuse_if (is_blank c.mqtt_topic) (codes "mqtt_topic cannot be empty")
            (refuse_if (ltb 2 c.mqtt_qos) (codes "mqtt_qos must be 0, 1 or 2") rest))
      else rest

  unfoldable pub validate_sizes : Config → Result (Unit {0})
  validate_sizes c =
      refuse_if (c.recv_buffer_size == 0) (codes "recv_buffer_size must be greater than 0") (
        refuse_if (c.max_line_buffer_size == 0)
          (codes "max_line_buffer_size must be greater than 0") (ok tt))

  -- `Config::validate`.
  unfoldable pub validate : Config → Result (Unit {0})
  unfolding bad_metrics bad_pulsar bad_mode validate_mqtt validate_sizes
  validate c = refuse_if (is_blank c.source_id) (codes "source_id cannot be empty") (
      refuse_if (bad_metrics c)
        (codes "metrics_bind '"
          ++ c.metrics_bind
          ++ codes "' must be an IP address, e.g. 127.0.0.1 or 0.0.0.0")
        (refuse_if (bad_pulsar c)
          (codes "Pulsar broker URL must start with pulsar:// or pulsar+ssl://")
          (validate_mqtt c (
            refuse_if (bad_mode c) (codes "connection_mode must be 'client' or 'server'")
              (validate_sizes c)))))
