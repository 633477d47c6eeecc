-- ===== src/Weather/Refresh.antt =====
-- The refresh loop of rust/adsb-weather-server/src/refresh.rs (`Refresher::run`) as a state machine:
-- `Phase` is the `select!` that the loop waits in, and an event is what wakes it, with the readings of
-- the clocks.  Between two waits the loop runs without an await, so nothing else changes there.
pub mod Steps
pub mod Invariant
pub mod Schedule
pub mod Outcomes
use adsb_feed.Prelude.{
  ℕ, suc, ◌+◌, ◌≤◌, ◌≡◌, Bool, true, false, not, Option, none, some, Bytes, min, leb, if◌then◌else◌,
}
use mathlib.Core.Option
use native.Mathlib.Decide.{ℕ_discrete}
use adsb_feed.Prelude.Int.{ℤ, ltb_ℤ}
use adsb_feed.Time.{Duration, u32_max, saturating_add}
use adsb_feed.Backoff.{Backoff}
use adsb_feed.Weather.Types.{
  RateLimitScope, ServiceState, idle, fetching, retrying, rate_limited, rejected, disabled,
  ErrorClass, transient, limited, refused,
}
use adsb_feed.Weather.StateFile.{StateStore, PersistedState, update}
use adsb_feed.Weather.Schedule.{
  Floats, Outcome, fetched, failed, Pending, after, at_epoch_ms, next_delay, waiting_state,
}

-- What the loop reports about itself.
pub record ReportedState : Type 0 where
  pub state : ServiceState
  pub consecutive_failures : ℕ
  pub rate_limit : Option RateLimitScope
  pub last_success_ms : Option ℤ
  pub last_error : Option Bytes
  pub next_fetch_ms : Option ℤ
  pub snapshot_valid_time_ms : Option ℤ

-- `ReportedState::default`.
abbrev pub default_report : ReportedState
default_report = record {
  state = idle;
  consecutive_failures = 0;
  rate_limit = none;
  last_success_ms = none;
  last_error = none;
  next_fetch_ms = none;
  snapshot_valid_time_ms = none;
}

pub ReportedState-discrete : Discrete ReportedState
ReportedState-discrete = hlevel ℕ_discrete

-- What the loop reads of a snapshot: its valid time; `body` is the rest.
pub record Snapshot : Type 0 where
  pub valid_time_ms : ℤ
  pub body : Bytes

-- A provider's failure: its class and its text.
pub record Failure : Type 0 where
  pub class : ErrorClass
  pub text : Bytes

pub data FetchResult : Type 0 where
  fetch_ok : Snapshot → FetchResult
  fetch_err : Failure → FetchResult

-- The readings of the monotonic clock and of the wall clock.
pub record Now : Type 0 where
  pub mono : Duration
  pub epoch_ms : ℤ

-- Where the loop waits; `in_fetch` keeps the wall clock's reading at the start of the fetch.
pub data Phase : Type 0 where
  off : Phase
  sleeping : Pending → Phase
  in_fetch : ℤ → Phase
  returned : Phase

-- The variables of `run`, and the channels and files that it writes: `snapshots` and `reported` are the
-- values of the watch channels, `reports` counts what the receivers of `reported` were told.
pub record Loop : Type 0 where
  pub phase : Phase
  pub desired : Bool
  pub commands_open : Bool
  pub failures : ℕ
  pub last_outcome : Option Outcome
  pub pending : Option Pending
  pub report : ReportedState
  pub reported : ReportedState
  pub reports : ℕ
  pub snapshots : Option Snapshot
  pub store : StateStore
  pub cache : Option Snapshot

-- `publish`: only a report that differs from the channel's value is sent.
unfoldable pub publish : Loop → Loop
publish s = elim (ReportedState-discrete s.reported s.report) [
  | yes same ↦ s
  | no differs ↦ record s { reported = s.report; reports = suc s.reports }
]

-- The fetch begins: reported, and the wall clock read.
unfoldable pub start_fetch : Now → Loop → Loop
start_fetch now s =
    let r = record s.report { state = fetching; next_fetch_ms = none } in
    publish (record s { phase = in_fetch now.epoch_ms; report = r })

-- The state to report while a fetch is pending.
unfoldable pub pending_state : Option Outcome → ServiceState → ServiceState
pending_state (some outcome) state = waiting_state outcome
pending_state none disabled = rate_limited
pending_state none idle = idle
pending_state none fetching = fetching
pending_state none retrying = retrying
pending_state none rate_limited = rate_limited
pending_state none rejected = rejected

unfoldable pub go_to_sleep : Pending → Loop → Loop
unfolding pending_state
go_to_sleep due s =
    let r = record s.report {
      state = pending_state s.last_outcome s.report.state;
      next_fetch_ms = some due.epoch_ms;
    } in
    publish (record s { phase = sleeping due; report = r })

unfoldable pub switch_off : Loop → Loop
switch_off s =
    let r = record s.report { state = disabled; next_fetch_ms = none } in
    publish (record s { phase = off; report = r })

-- The top of the loop while no shutdown is asked for.
unfoldable pub head : Now → Loop → Loop
head now s =
    if not s.desired
    then switch_off s
    else elim s.pending [ none ↦ start_fetch now s | some due ↦ go_to_sleep due s ]
