-- ===== src/Weather/Refresh/Steps.antt =====
-- The events of the refresh loop in rust/adsb-weather-server/src/refresh.rs.
use adsb_feed.Prelude.{Bool, true, false, Option, none, some, leb, if◌then◌else◌, List, [], ◌∷◌}
use adsb_feed.Prelude.Int.{ℤ, ltb_ℤ}
use adsb_feed.Time.{Duration, saturating_add}
use adsb_feed.Backoff.{Backoff}
use adsb_feed.Weather.Types.{
  RateLimitScope, ServiceState, rate_limited, ErrorClass, transient, limited, refused,
}
use adsb_feed.Weather.StateFile.{StateStore, PersistedState, update}
use adsb_feed.Weather.Schedule.{
  Floats, Outcome, fetched, failed, Pending, after, at_epoch_ms, next_delay,
}
use adsb_feed.Weather.Refresh.{
  default_report, Snapshot, Failure, FetchResult, fetch_ok, fetch_err, Now, Phase, off, sleeping,
  in_fetch, returned, Loop, head, start_fetch,
}

-- The loop's settings.
pub record Settings : Type 0 where
  pub refresh : Duration
  pub retry : Backoff
  pub has_cache : Bool

-- The outcome of the environment's writes during a round: the cache file and the state file.
pub record Writes : Type 0 where
  pub cache_ok : Bool
  pub state_ok : Bool

abbrev pub scope_of : ErrorClass → Option RateLimitScope
scope_of (limited scope retry_after) = some scope
scope_of transient = none
scope_of refused = none

-- `persist_not_before`: only a rate limit leaves a time behind, any other outcome clears it.
abbrev pub not_before : Outcome → ℤ → Option ℤ
not_before (failed n (limited scope retry_after)) due = some due
not_before (failed n transient) due = none
not_before (failed n refused) due = none
not_before fetched due = none

abbrev pub set_not_before : Option ℤ → PersistedState → PersistedState
set_not_before t p = record p { not_before_ms = t }

-- A good snapshot: counters reset, cached, published.
unfoldable pub take_snapshot : Settings → Writes → ℤ → Snapshot → Loop → Loop
take_snapshot cfg w fetched_ms snapshot s = record s {
  failures = 0;
  report = record s.report {
    consecutive_failures = 0;
    rate_limit = none;
    last_error = none;
    last_success_ms = some fetched_ms;
    snapshot_valid_time_ms = some snapshot.valid_time_ms;
  };
  cache = if cfg.has_cache then (if w.cache_ok then some snapshot else s.cache) else s.cache;
  snapshots = some snapshot;
}

-- A failure: counted and reported, the last good snapshot kept.
unfoldable pub note_failure : Failure → Loop → Loop
note_failure e s =
    let failures = saturating_add s.failures 1 in
    record s {
      failures = failures;
      report = record s.report {
        consecutive_failures = failures;
        last_error = some e.text;
        rate_limit = scope_of e.class;
      };
    }

unfoldable pub outcome_of : FetchResult → Loop → Outcome
outcome_of (fetch_ok snapshot) s = fetched
outcome_of (fetch_err e) s = failed s.failures e.class

unfoldable pub note_result : Settings → Writes → ℤ → FetchResult → Loop → Loop
unfolding take_snapshot note_failure
note_result cfg w fetched_ms (fetch_ok snapshot) s = take_snapshot cfg w fetched_ms snapshot s
note_result cfg w fetched_ms (fetch_err e) s = note_failure e s

-- What happens around the loop. `command` sets the channel's value, which the loop may see at its next
-- turn; the others wake it: `desired_changed` and `commands_closed` by the channel, `shutdown_changed`
-- (where `false` means "keep running"), `woken` by the timer, `done` by the fetch, with the jitter drawn.
pub data Event (J : Type 0) : Type 0 where
  command : Bool → Event J
  desired_changed : Event J
  commands_closed : Event J
  shutdown_changed : Bool → Event J
  woken : Event J
  done : FetchResult → J → Writes → Event J

-- What a time left by the previous run schedules.
abbrev pub resumed : Now → Option ℤ → Option Pending
resumed now none = none
resumed now (some t) = some (at_epoch_ms now.mono t now.epoch_ms)

module _ (fl : Floats) (cfg : Settings) where
  open fl use {F64}

  -- After a result: the next fetch is scheduled and, after a rate limit, its time is written down.
  unfoldable pub schedule : Now → F64 → Writes → Outcome → Loop → Loop
  schedule now jitter w outcome s =
      let wait = next_delay fl outcome cfg.refresh cfg.retry now.epoch_ms jitter in
      let due = after now.mono now.epoch_ms wait in
      record s {
        store = (update w.state_ok (set_not_before (not_before outcome due.epoch_ms)) s.store).0;
        last_outcome = some outcome;
        pending = some due;
      }

  unfoldable pub finish_fetch : Now → ℤ → FetchResult → F64 → Writes → Loop → Loop
  unfolding note_result outcome_of schedule
  finish_fetch now fetched_ms result jitter w s =
      let noted = note_result cfg w fetched_ms result s in
      head now (schedule now jitter w (outcome_of result noted) noted)

  -- A change of the setting in each of the three waits.
  unfoldable pub obey : Now → Bool → Phase → Loop → Loop
  obey now true off s = head now s
  obey now false off s = s
  obey now true (sleeping due) s = s
  obey now false (sleeping due) s = head now s
  obey now true (in_fetch t) s = s
  obey now false (in_fetch t) s = head now s
  obey now v returned s = s

  -- The timer fires only at its deadline.
  unfoldable pub wake : Now → Phase → Loop → Loop
  wake now (sleeping due) s =
      if leb due.due now.mono then start_fetch now (record s { pending = none }) else s
  wake now off s = s
  wake now (in_fetch t) s = s
  wake now returned s = s

  unfoldable pub complete : Now → FetchResult → F64 → Writes → Phase → Loop → Loop
  complete now result jitter w (in_fetch t) s = finish_fetch now t result jitter w s
  complete now result jitter w off s = s
  complete now result jitter w (sleeping due) s = s
  complete now result jitter w returned s = s

  -- One event. A loop that has returned does nothing more.
  unfoldable pub step : Now → Event F64 → Loop → Loop
  unfolding obey wake complete
  step now (shutdown_changed true) s = record s { phase = returned }
  step now (shutdown_changed false) s = s
  step now (command v) s = if s.commands_open then record s { desired = v } else s
  step now desired_changed s = if s.commands_open then obey now s.desired s.phase s else s
  step now commands_closed s = record s { commands_open = false }
  step now woken s = wake now s.phase s
  step now (done result jitter w) s = complete now result jitter w s.phase s

  -- The loop's variables at its start, from the store and a cached snapshot for this grid; a time left by
  -- the previous run still stands.
  unfoldable pub start : Now → Bool → StateStore → Option Snapshot → Loop
  start now desired store cached = head now (record {
    phase = off;
    desired = desired;
    commands_open = true;
    failures = 0;
    last_outcome = none;
    pending = resumed now store.state.not_before_ms;
    report = record default_report {
      state = limited_state store.state.not_before_ms;
      snapshot_valid_time_ms = valid_time cached;
    };
    reported = default_report;
    reports = 0;
    snapshots = cached;
    store = store;
    cache = cached;
  })
    where
      limited_state : Option ℤ → ServiceState
      limited_state none = default_report.state
      limited_state (some t) = if ltb_ℤ now.epoch_ms t then rate_limited else default_report.state

      valid_time : Option Snapshot → Option ℤ
      valid_time none = none
      valid_time (some c) = some c.valid_time_ms

  -- A run of events, each with the readings of the clocks.
  unfoldable pub run : List (Now × Event F64) → Loop → Loop
  run [] s = s
  run ((now, e) ∷ rest) s = run rest (step now e s)
