-- ===== src/Weather/Refresh/Outcomes.antt =====
-- What a fetch leaves behind in the refresh loop of rust/adsb-weather-server/src/refresh.rs.
use adsb_feed.Prelude.{
  ◌≡◌, refl, sym, ap, ◌∙◌, Bool, true, false, not, Option, none, some, if_intro, leb, Bytes, subst,
}
use adsb_feed.Prelude.Int.{ℤ}
use adsb_feed.Time.{Duration, saturating_add}
use adsb_feed.Weather.Types.{RateLimitScope, limited}
use adsb_feed.Weather.StateFile.{PersistedState, update, open_store}
use adsb_feed.Weather.StateFile.Restart.{InSync, restarted, restarted-update}
use adsb_feed.Weather.Schedule.{Floats, failed, Pending, after, at_epoch_ms, next_delay}
use adsb_feed.Weather.Refresh.{
  Snapshot, Failure, fetch_ok, fetch_err, Now, Phase, off, sleeping, in_fetch, returned, Loop, head,
  start_fetch, go_to_sleep, switch_off, publish,
}
use adsb_feed.Weather.Refresh.Steps.{
  Settings, Writes, Event, command, desired_changed, commands_closed, shutdown_changed, woken, done,
  step, start, obey, wake, complete, finish_fetch, schedule, note_result, take_snapshot,
  note_failure, outcome_of, set_not_before, resumed,
}
use adsb_feed.Weather.Refresh.Invariant.{publish_cases}

-- What neither reporting nor choosing the next wait changes.
pub record Kept (s s' : Loop) : Type 0 where
  pub snapshots : s'.snapshots ≡ s.snapshots
  pub cache : s'.cache ≡ s.cache
  pub store : s'.store ≡ s.store
  pub failures : s'.failures ≡ s.failures
  pub last_outcome : s'.last_outcome ≡ s.last_outcome
  pub pending : s'.pending ≡ s.pending

publish-Kept : (s0 s : Loop) → Kept s0 s → Kept s0 (publish s)
publish-Kept s0 s k =
    publish_cases (Kept s0) s (λ e. k)
      (record {
        snapshots = k.snapshots;
        cache = k.cache;
        store = k.store;
        failures = k.failures;
        last_outcome = k.last_outcome;
        pending = k.pending;
      })

same : (s : Loop) → Kept s s
same s = record {
  snapshots = refl;
  cache = refl;
  store = refl;
  failures = refl;
  last_outcome = refl;
  pending = refl;
}

pub head-Kept : (now : Now) (s : Loop) → Kept s (head now s)
unfolding head go_to_sleep switch_off start_fetch
head-Kept now s =
    if_intro (Kept s) (not s.desired) _ _
      (publish-Kept s _ (record {
        snapshots = refl;
        cache = refl;
        store = refl;
        failures = refl;
        last_outcome = refl;
        pending = refl;
      }))
      (by_pending s.pending)
  where
    by_pending :
        (p : Option Pending)
        → Kept s (elim p [ none ↦ start_fetch now s | some d ↦ go_to_sleep d s ])
    by_pending none = publish-Kept s _ (record {
      snapshots = refl;
      cache = refl;
      store = refl;
      failures = refl;
      last_outcome = refl;
      pending = refl;
    })
    by_pending (some d) = publish-Kept s _ (record {
      snapshots = refl;
      cache = refl;
      store = refl;
      failures = refl;
      last_outcome = refl;
      pending = refl;
    })

-- The snapshot on the channel after an event: a good one replaces it, and nothing else does.
abbrev pub snapshot_after : {J : Type 0} → Event J → Phase → Option Snapshot → Option Snapshot
snapshot_after (done (fetch_ok snapshot) jitter w) (in_fetch t) old = some snapshot
snapshot_after (done (fetch_ok snapshot) jitter w) off old = old
snapshot_after (done (fetch_ok snapshot) jitter w) (sleeping d) old = old
snapshot_after (done (fetch_ok snapshot) jitter w) returned old = old
snapshot_after (done (fetch_err e) jitter w) p old = old
snapshot_after (command v) p old = old
snapshot_after desired_changed p old = old
snapshot_after commands_closed p old = old
snapshot_after (shutdown_changed v) p old = old
snapshot_after woken p old = old

abbrev pub limited_by : RateLimitScope → Option Duration → Bytes → Failure
limited_by scope retry_after text = record { class = limited scope retry_after; text = text }

module _ (fl : Floats) (cfg : Settings) where
  open fl use {F64}

  -- Whatever the event, the snapshot on the channel is the last good one: only a fetch that ends well
  -- replaces it, and neither failures, nor disabling, nor a shutdown take it away.
  pub step-snapshots :
      (now : Now) (e : Event F64) (s : Loop)
      → (step fl cfg now e s).snapshots ≡ snapshot_after e s.phase s.snapshots
  unfolding step obey wake start_fetch complete finish_fetch schedule note_result take_snapshot
      note_failure
  step-snapshots now (shutdown_changed true) s = refl
  step-snapshots now (shutdown_changed false) s = refl
  step-snapshots now (command v) s =
      if_intro (λ (t : Loop). t.snapshots ≡ s.snapshots) s.commands_open _ _ refl refl
  step-snapshots now desired_changed s =
      if_intro (λ (t : Loop). t.snapshots ≡ s.snapshots) s.commands_open _ _
        (by_phase s.desired s.phase) refl
    where
      by_phase : (v : Bool) (p : Phase) → (obey fl cfg now v p s).snapshots ≡ s.snapshots
      by_phase true off = (head-Kept now s).snapshots
      by_phase false off = refl
      by_phase true (sleeping d) = refl
      by_phase false (sleeping d) = (head-Kept now s).snapshots
      by_phase true (in_fetch t) = refl
      by_phase false (in_fetch t) = (head-Kept now s).snapshots
      by_phase v returned = refl
  step-snapshots now commands_closed s = refl
  step-snapshots now woken s = by_phase s.phase
    where
      by_phase : (p : Phase) → (wake fl cfg now p s).snapshots ≡ s.snapshots
      by_phase off = refl
      by_phase (sleeping d) =
          if_intro (λ (t : Loop). t.snapshots ≡ s.snapshots) (leb d.due now.mono) _ _
            (publish_cases (λ (t : Loop). t.snapshots ≡ s.snapshots) _ (λ e. refl) refl) refl
      by_phase (in_fetch t) = refl
      by_phase returned = refl
  step-snapshots now (done (fetch_ok x) jitter w) s = by_phase s.phase
    where
      by_phase :
          (p : Phase)
          → (complete fl cfg now (fetch_ok x) jitter w p s).snapshots
            ≡ snapshot_after (done (fetch_ok x) jitter w) p s.snapshots
      by_phase off = refl
      by_phase (sleeping d) = refl
      by_phase (in_fetch t) = (head-Kept now _).snapshots
      by_phase returned = refl
  step-snapshots now (done (fetch_err x) jitter w) s = by_phase s.phase
    where
      by_phase :
          (p : Phase) → (complete fl cfg now (fetch_err x) jitter w p s).snapshots ≡ s.snapshots
      by_phase off = refl
      by_phase (sleeping d) = refl
      by_phase (in_fetch t) = (head-Kept now _).snapshots
      by_phase returned = refl

  -- The fetch that follows a rate limit.
  abbrev pub after_limit : Now → RateLimitScope → Option Duration → F64 → Loop → Pending
  after_limit now scope retry_after jitter s =
      let outcome = failed (saturating_add s.failures 1) (limited scope retry_after) in
      after now.mono now.epoch_ms (next_delay fl outcome cfg.refresh cfg.retry now.epoch_ms jitter)

  left_behind :
      (now : Now) (scope : RateLimitScope) (retry_after : Option Duration) (text : Bytes)
      (jitter : F64) (w : Writes) (s : Loop)
      → w.state_ok ≡ true
      → InSync s.store
      → s.store.persistent ≡ true
      → let e = limited_by scope retry_after text in
        let noted = note_failure e s in
        (restarted
          (schedule fl cfg now jitter w (outcome_of (fetch_err e) noted) noted).store).not_before_ms
        ≡ some (after_limit now scope retry_after jitter s).epoch_ms
  unfolding schedule note_failure outcome_of
  left_behind now scope retry_after text jitter w s ok h p =
      subst (λ b. (restarted (update b change s.store).0).not_before_ms ≡ some due.epoch_ms)
        (sym ok)
        (ap (λ (q : PersistedState). q.not_before_ms) (restarted-update change s.store h p))
    where
      due : Pending
      due = after_limit now scope retry_after jitter s

      change : PersistedState → PersistedState
      change = set_not_before (some due.epoch_ms)

  limited-Resumes :
      (now : Now) (scope : RateLimitScope) (retry_after : Option Duration) (text : Bytes)
      (jitter : F64) (w : Writes) (p : Phase) (t : ℤ) (s : Loop)
      → p ≡ in_fetch t
      → w.state_ok ≡ true
      → InSync s.store
      → s.store.persistent ≡ true
      → let s' = complete fl cfg now (fetch_err (limited_by scope retry_after text)) jitter w p s in
        let due = after_limit now scope retry_after jitter s in
        (s'.pending ≡ some due) × ((restarted s'.store).not_before_ms ≡ some due.epoch_ms)
  unfolding complete finish_fetch schedule note_result note_failure outcome_of
  limited-Resumes now scope retry_after text jitter w off t s q ok h p = cc
  limited-Resumes now scope retry_after text jitter w (sleeping d) t s q ok h p = cc
  limited-Resumes now scope retry_after text jitter w returned t s q ok h p = cc
  limited-Resumes now scope retry_after text jitter w (in_fetch u) t s q ok h p =
      let k = head-Kept now (
        schedule fl cfg now jitter w
          (outcome_of (fetch_err (limited_by scope retry_after text))
            (note_failure (limited_by scope retry_after text) s))
          (note_failure (limited_by scope retry_after text) s)) in
      (
        k.pending,
        ap (λ st. (restarted st).not_before_ms) k.store
            ∙ left_behind now scope retry_after text jitter w s ok h p,
      )

  -- A rate limit outlives the process: when a running fetch fails with it and the state file can be written,
  -- of a persistent store that was in step with its file, the next fetch is scheduled after the wait that
  -- the limit asks for, and a loop that is started from that file has the same fetch scheduled, at the same
  -- wall-clock time.
  pub limited-start :
      (now : Now) (scope : RateLimitScope) (retry_after : Option Duration) (text : Bytes)
      (jitter : F64) (w : Writes) (t : ℤ) (s : Loop) (again : Now) (desired : Bool)
      (cached : Option Snapshot)
      → s.phase ≡ in_fetch t
      → w.state_ok ≡ true
      → InSync s.store
      → s.store.persistent ≡ true
      → let e = limited_by scope retry_after text in
        let s' = step fl cfg now (done (fetch_err e) jitter w) s in
        let due = after_limit now scope retry_after jitter s in
        (s'.pending ≡ some due)
        × ((start fl cfg again desired (open_store s'.store.file).0 cached).pending
            ≡ some (at_epoch_ms again.mono due.epoch_ms again.epoch_ms))
  unfolding step start
  limited-start now scope retry_after text jitter w t s again desired cached ph ok h p =
      let r = limited-Resumes now scope retry_after text jitter w s.phase t s ph ok h p in
      (r.0, (head-Kept again _).pending ∙ ap (resumed again) r.1)
