-- ===== src/Weather/Refresh/Schedule.antt =====
-- When the refresh loop of rust/adsb-weather-server/src/refresh.rs fetches.
use adsb_feed.Prelude.{
  ◌≤◌, ◌<◌, ◌≡◌, refl, ap, Bool, true, false, not, Option, none, some, List, [], ◌∷◌, All, if_intro,
  if_cases, arith, leb, leb→le,
}
use adsb_feed.Weather.Schedule.{Floats, Pending}
use adsb_feed.Weather.Refresh.{
  FetchResult, Now, Phase, off, sleeping, in_fetch, returned, Loop, head, start_fetch, go_to_sleep,
  switch_off, publish,
}
use adsb_feed.Weather.Refresh.Steps.{
  Settings, Writes, Event, command, desired_changed, commands_closed, shutdown_changed, woken, done,
  step, run, obey, wake, complete,
}
use adsb_feed.Weather.Refresh.Invariant.{Inv, Agrees, publish_cases}

-- No fetch runs, and the loop sleeps until nothing else.
abbrev pub Quiet : Pending → Phase → Type 0
Quiet due off = Unit
Quiet due (sleeping d) = d ≡ due
Quiet due (in_fetch t) = ⊥
Quiet due returned = Unit

-- A fetch is scheduled, and none runs.
pub record Waits (due : Pending) (s : Loop) : Type 0 where
  pub scheduled : s.pending ≡ some due
  pub quiet : Quiet due s.phase

publish-Waits : (due : Pending) (s : Loop) → Waits due s → Waits due (publish s)
publish-Waits due s w =
    publish_cases (Waits due) s (λ e. w) (record { scheduled = w.scheduled; quiet = w.quiet })

head-Waits : (now : Now) (due : Pending) (s : Loop) → s.pending ≡ some due → Waits due (head now s)
unfolding head go_to_sleep switch_off
head-Waits now due s p =
    if_intro (Waits due) (not s.desired) _ _
      (publish-Waits due _ (record { scheduled = p; quiet = tt })) (by_pending s.pending refl)
  where
    by_pending :
        (q : Option Pending)
        → s.pending ≡ q
        → Waits due (elim q [ none ↦ start_fetch now s | some d ↦ go_to_sleep d s ])
    by_pending none e = cc
    by_pending (some d) e = publish-Waits due _ (record { scheduled = p; quiet = cc })

Inv-Waits : (due : Pending) (s : Loop) → Inv s → s.pending ≡ some due → Waits due s
Inv-Waits due s i p = record { scheduled = p; quiet = quiet s.phase i.agrees }
  where
    quiet : (q : Phase) → Agrees q s → Quiet due q
    quiet off h = tt
    quiet (sleeping d) h = let e = h.0 in cc
    quiet (in_fetch t) h = cc
    quiet returned h = tt

not_due {ℓ} :
    {A : Type ℓ} (d due : Pending) (now : Now) → d ≡ due → now.mono < due.due → d.due ≤ now.mono → A
not_due d due now q early late =
    let b : d.due ≡ due.due = ap (λ (p : Pending). p.due) q in absurd (omega arith)

module _ (fl : Floats) (cfg : Settings) where
  open fl use {F64}

  obey-Waits :
      (now : Now) (v : Bool) (p : Phase) (due : Pending) (s : Loop)
      → Waits due s
      → Waits due (obey fl cfg now v p s)
  unfolding obey
  obey-Waits now true off due s w = head-Waits now due s w.scheduled
  obey-Waits now false off due s w = w
  obey-Waits now true (sleeping d) due s w = w
  obey-Waits now false (sleeping d) due s w = head-Waits now due s w.scheduled
  obey-Waits now true (in_fetch t) due s w = w
  obey-Waits now false (in_fetch t) due s w = head-Waits now due s w.scheduled
  obey-Waits now v returned due s w = w

  wake-Waits :
      (now : Now) (p : Phase) (due : Pending) (s : Loop)
      → now.mono < due.due
      → Quiet due p
      → Waits due s
      → Waits due (wake fl cfg now p s)
  unfolding wake
  wake-Waits now (sleeping d) due s early q w =
      if_cases (Waits due) (leb d.due now.mono) _ _ too_early (λ h. w)
    where
      too_early :
          leb d.due now.mono ≡ true → Waits due (start_fetch now (record s { pending = none }))
      too_early h = not_due d due now q early (leb→le d.due now.mono h)
  wake-Waits now off due s early q w = w
  wake-Waits now (in_fetch t) due s early q w = elim q [ ]
  wake-Waits now returned due s early q w = w

  complete-Waits :
      (now : Now) (r : FetchResult) (jitter : F64) (wr : Writes) (p : Phase) (due : Pending)
      (s : Loop)
      → Quiet due p
      → Waits due s
      → Waits due (complete fl cfg now r jitter wr p s)
  unfolding complete
  complete-Waits now r jitter wr off due s q w = w
  complete-Waits now r jitter wr (in_fetch t) due s q w = elim q [ ]
  complete-Waits now r jitter wr (sleeping d) due s q w = w
  complete-Waits now r jitter wr returned due s q w = w

  step-Waits :
      (now : Now) (e : Event F64) (due : Pending) (s : Loop)
      → now.mono < due.due
      → Waits due s
      → Waits due (step fl cfg now e s)
  unfolding step
  step-Waits now (shutdown_changed true) due s early w = record {
    scheduled = w.scheduled;
    quiet = tt;
  }
  step-Waits now (shutdown_changed false) due s early w = w
  step-Waits now (command v) due s early w =
      if_intro (Waits due) s.commands_open _ _ (record { scheduled = w.scheduled; quiet = w.quiet })
        w
  step-Waits now desired_changed due s early w =
      if_intro (Waits due) s.commands_open _ _ (obey-Waits now s.desired s.phase due s w) w
  step-Waits now commands_closed due s early w = record { scheduled = w.scheduled; quiet = w.quiet }
  step-Waits now woken due s early w = wake-Waits now s.phase due s early w.quiet w
  step-Waits now (done result jitter wr) due s early w =
      complete-Waits now result jitter wr s.phase due s w.quiet w

  -- A scheduled fetch is not started before it is due, whatever happens meanwhile: disabling and enabling,
  -- closing the channel of the commands, a shutdown signal that means to keep running. In a loop that has
  -- the invariant, while every reading of the monotonic clock is below the deadline, the fetch stays
  -- scheduled, no fetch runs, and a loop that sleeps does so until that deadline.
  pub run-Waits :
      (events : List (Now × Event F64)) (due : Pending) (s : Loop)
      → Inv s
      → s.pending ≡ some due
      → All (λ e. e.0.mono < due.due) events
      → Waits due (run fl cfg events s)
  unfolding run
  run-Waits events due s i p early = go events s (Inv-Waits due s i p) early
    where
      go :
          (events : List (Now × Event F64)) (s : Loop)
          → Waits due s
          → All (λ e. e.0.mono < due.due) events
          → Waits due (run fl cfg events s)
      go [] s w early = w
      go ((now, e) ∷ rest) s w early =
          go rest (step fl cfg now e s) (step-Waits now e due s early.0 w) early.1
