-- ===== src/Lib.antt =====
-- Verification library of the ADS-B feed: the feed client (rust/adsb-pulsar-client), the weather
-- service (rust/adsb-weather-server) and the data engine's ingest and storage (rust/adsb-data-
-- engine).
--
-- The feed client reads SBS-1 lines from a receiver and hands each to its forwarders; the MQTT
-- subscriber is the other end of one of them. The ingest pipeline parses and merges such lines into
-- batches. The weather service fetches snapshots on a schedule that its operator and the provider's
-- rate limits decide.
--
-- Backoff: rust/adsb-pulsar-client/src/backoff.rs. Used by the subscriber and by the refresh loop.
-- Feed.Error, Feed.Metrics, Feed.Monitor: error.rs, metrics.rs and connection_monitor.rs of the feed
-- client.
-- Feed.Lines: process_buffer of client.rs. Its loop runs on fuel, the length of the buffer, which is
-- enough since every round shortens the buffer.
-- Feed.Slot: one forwarder with its retry queue (forwarder/mod.rs, and enqueue_retry, the fan-out
-- and drain_retry_queue of client.rs). The backend is a parameter, the record Forwarder.
-- Feed.Client: one round of receive_and_forward of client.rs; what select! chose is an event with
-- the readings of the clocks. Feed.Client.Modes: one connection of run_client_mode and of
-- run_server_mode. Feed.Client.Reconnecting: run_client_mode and connect_socket over the rounds and
-- the attempts that a list says; doubling a delay past Duration::MAX panics. Feed.Config:
-- Config::validate of config.rs, with the parser of IP addresses as a parameter.
-- Feed.Source: source/mod.rs and source/mqtt_source.rs; the event loop is a fold over what the MQTT
-- library and the shutdown channel give.
-- Weather.StateFile, Weather.Control: state_file.rs and control.rs of the weather service; whether a
-- write works is an argument.
-- Weather.Schedule: next_delay and its helpers of refresh.rs. The arithmetic on f64 is the interface
-- Floats; its F64 stands for the finite doubles of the size that jitter has, so a jitter is never
-- NaN or infinite.
-- Weather.Refresh: Refresher::run of refresh.rs as a state machine; a phase is the select! that the
-- loop waits in, and between two waits nothing else happens. A shutdown that comes while the loop
-- does not wait is seen at its next wait.
-- Ingest.Text, Ingest.Sbs, Ingest.Table, Ingest.Pipeline: sbs_parser.rs and ingest.rs of the data
-- engine, with the parts of Rust's str that they use. A hash map is an association list of which
-- only lookups are compared; f64 parsing is a parameter.
-- Storage.FlightId, Storage.Flights: the flights of storage.rs of the data engine. The tables are
-- lists of rows, and an SQL statement is the list function that it means; an INSERT fails on a taken
-- key or a number that the column does not hold. Timestamps are whole numbers far from the ends of
-- i64, the counter of a row of flights is unbounded, and altitudes are floats without NaN, whose
-- minimum and maximum are the interface Extremes; parsing a timestamp is a parameter. Other failures
-- of the database are not modelled.
-- Storage.Scenarios: the scenarios and their tracks, of the same file. A failing operation leaves
-- the tables as they were; identifiers and clock are arguments.
-- Storage.Sharing: share.rs and the sharing of storage.rs; the database's answers to its statements
-- are parameters, and a start or a stop that it confirms is one that it did. The database is taken
-- to know a server by the URI with its port, which is what the source passes to quack_stop.
-- Weather.Grid, Weather.Snapshot, Weather.OpenMeteo, Weather.Provider: grid.rs, snapshot.rs,
-- open_meteo.rs and provider.rs of the weather service. Coordinates, JSON and the HTTP client are
-- parameters, a request's number standing for the time at which it is sent; the levels of a snapshot
-- are in the order of the request.
-- Time: durations in nanoseconds and machine words. Prelude: shared names and lemmas. Examples: the
-- theorems at concrete inputs.
--
-- Counters wrap at 64 bits and failures saturate at 32, as the source's do. Not modelled: sockets,
-- MQTT, Pulsar, HTTP, files and DuckDB themselves, logging, loading of configuration, the geometry
-- of the grid's coordinates, the desktop application and the data server.
pub mod Prelude
pub mod Time
pub mod Backoff
pub mod Feed
pub mod Weather
pub mod Ingest
pub mod Storage
pub mod Examples
