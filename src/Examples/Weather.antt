-- ===== src/Examples/Weather.antt =====
-- The weather service's theorems at concrete inputs.
use adsb_feed.Prelude.{
  ℕ, ◌+◌, ◌*◌, ◌≤◌, ◌≡◌, ◌⊎◌, refl, max, true, false, none, some, List, [], ◌∷◌, arith,
}
use adsb_feed.Prelude.Int.{pos, saturate_i64, ◌-ℤ◌}
use adsb_feed.Time.{from_secs}
use adsb_feed.Weather.Types.{minutely, hourly, limited}
use adsb_feed.Weather.StateFile.{PersistedState, StateStore, update, open_store, holds}
use adsb_feed.Weather.StateFile.Restart.{InSync, Took, Refused, update-InSync}
use adsb_feed.Weather.Control.{
  new, set_enabled, IsValid, new-IsValid, Accepted, NotSaved, set_enabled-IsValid,
}
use adsb_feed.Weather.Schedule.{failed, next_delay, default_retry, window, Pending, at_epoch_ms}
use adsb_feed.Weather.Schedule.Waits.{LongEnough, next_delay-limited}
use adsb_feed.Weather.Refresh.{Loop, Now, Snapshot, fetch_err, in_fetch, default_report}
use adsb_feed.Weather.Refresh.Steps.{
  Settings, Event, command, desired_changed, woken, done, run, step, start,
}
use adsb_feed.Weather.Refresh.Invariant.{Inv, start-Inv, run-start-Inv}
use adsb_feed.Weather.Refresh.Schedule.{Waits, run-Waits}
use adsb_feed.Weather.Refresh.Outcomes.{limited_by, after_limit, limited-start, head-Kept}
use adsb_feed.Examples.Data.{tenths, store, hello}

abbrev settings : Settings
settings = record { refresh = from_secs 1800; retry = default_retry; has_cache = true }

abbrev morning : Now
morning = record { mono = 5; epoch_ms = pos 1000 }

abbrev snapshot : Snapshot
snapshot = record { valid_time_ms = pos 900; body = hello }

abbrev disable : PersistedState → PersistedState
disable p = record p { enabled = false }

update-InSync_example :
    let r = update false disable store in
    InSync r.0 × (Took disable store r ⊎ Refused false disable store r)
unfolding open_store
update-InSync_example = update-InSync false disable store refl

set_enabled-IsValid_example :
    let r = set_enabled true false (new store) in
    IsValid r.0 × (Accepted false (new store) r ⊎ NotSaved true (new store) r)
unfolding open_store
set_enabled-IsValid_example = set_enabled-IsValid true false (new store) (new-IsValid store refl)

abbrev jitter : ℕ
jitter = 4

next_delay-limited_example :
    let wait =
      next_delay tenths
        (failed 3 (limited minutely (some (from_secs 90))))
        (from_secs 1800)
        default_retry
        (pos 1000)
        jitter in
    LongEnough tenths minutely (from_secs 1800) default_retry (pos 1000) wait
    × (from_secs 90 ≤ wait)
    × (10 * wait
        ≤ 11 * max (window minutely (from_secs 1800) default_retry (pos 1000)) (from_secs 90) + 10)
unfolding window
next_delay-limited_example =
    next_delay-limited tenths 3 minutely (some (from_secs 90)) (from_secs 1800) default_retry
      (pos 1000) jitter (omega arith)

-- A rate limit of the previous run, four seconds ahead.
abbrev limited_store : StateStore
limited_store = record {
  persistent = true;
  state = record { enabled = true; not_before_ms = some (pos 5000) };
  file = holds (record { enabled = true; not_before_ms = some (pos 5000) });
}

abbrev due : Pending
due = at_epoch_ms 5 (pos 5000) (pos 1000)

abbrev toggles : List (Now × Event ℕ)
toggles =
    (morning, command false)
    ∷ (morning, desired_changed)
    ∷ (morning, command true)
    ∷ (morning, desired_changed)
    ∷ (record { mono = 6; epoch_ms = pos 1001 }, woken)
    ∷ []

run-start-Inv_example :
    Inv (
      run tenths settings toggles
        (start tenths settings morning true limited_store (some snapshot)))
run-start-Inv_example =
    run-start-Inv tenths settings toggles morning true limited_store (some snapshot)

run-Waits_example :
    Waits due (run tenths settings toggles (start tenths settings morning true limited_store none))
unfolding start at_epoch_ms saturate_i64 ◌-ℤ◌
run-Waits_example =
    run-Waits tenths settings toggles due (start tenths settings morning true limited_store none)
      (start-Inv tenths settings morning true limited_store none) (head-Kept morning _).pending
      (omega arith, (omega arith, (omega arith, (omega arith, (omega arith, tt)))))

abbrev fetching_loop : Loop
fetching_loop = record {
  phase = in_fetch (pos 1000);
  desired = true;
  commands_open = true;
  failures = 0;
  last_outcome = none;
  pending = none;
  report = default_report;
  reported = default_report;
  reports = 0;
  snapshots = some snapshot;
  store = store;
  cache = none;
}

limited-start_example :
    let s' =
      step tenths settings morning
        (done
          (fetch_err (limited_by hourly none hello))
          jitter
          (record { cache_ok = true; state_ok = true }))
        fetching_loop in
    let next = after_limit tenths settings morning hourly none jitter fetching_loop in
    (s'.pending ≡ some next)
    × ((start tenths settings morning true (open_store s'.store.file).0 none).pending
        ≡ some (at_epoch_ms 5 next.epoch_ms (pos 1000)))
unfolding open_store
limited-start_example =
    limited-start tenths settings morning hourly none hello jitter
      (record { cache_ok = true; state_ok = true }) (pos 1000) fetching_loop morning true none refl
      refl refl refl
