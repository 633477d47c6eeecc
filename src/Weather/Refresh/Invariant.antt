-- ===== src/Weather/Refresh/Invariant.antt =====
-- What holds whenever the refresh loop of rust/adsb-weather-server/src/refresh.rs waits.
use adsb_feed.Prelude.{
  ℕ, suc, ◌≡◌, refl, Bool, true, false, not, Option, none, some, List, [], ◌∷◌, if_intro, leb,
}
use adsb_feed.Prelude.Int.{ℤ}
use adsb_feed.Weather.Types.{
  RateLimitScope, ServiceState, idle, fetching, retrying, rate_limited, rejected, disabled,
}
use adsb_feed.Weather.StateFile.{StateStore}
use adsb_feed.Weather.Schedule.{Floats, Outcome, fetched, failed, Pending}
use adsb_feed.Weather.Refresh.{
  ReportedState-discrete, Snapshot, FetchResult, fetch_ok, fetch_err, Now, Phase, off, sleeping,
  in_fetch, returned, Loop, head, start_fetch, go_to_sleep, switch_off, publish, pending_state,
}
use adsb_feed.Weather.Refresh.Steps.{
  Settings, Writes, Event, command, desired_changed, commands_closed, shutdown_changed, woken, done,
  step, start, run, obey, wake, complete, finish_fetch, schedule, note_result, take_snapshot,
  note_failure, outcome_of, scope_of,
}

-- The counters against the last outcome.
abbrev pub Counted : Option Outcome → ℕ → Option RateLimitScope → Type 0
Counted none n scope = (n ≡ 0) × (scope ≡ none)
Counted (some fetched) n scope = (n ≡ 0) × (scope ≡ none)
Counted (some (failed k class)) n scope = (n ≡ k) × (scope ≡ scope_of class)

-- The report against the phase and the schedule.
abbrev pub Agrees : Phase → Loop → Type 0
Agrees off s = (s.report.state ≡ disabled) × (s.report.next_fetch_ms ≡ none)
Agrees (sleeping due) s =
    (s.pending ≡ some due)
    × (s.report.next_fetch_ms ≡ some due.epoch_ms)
    × (s.report.state ≡ pending_state s.last_outcome s.report.state)
Agrees (in_fetch t) s =
    (s.pending ≡ none) × (s.report.state ≡ fetching) × (s.report.next_fetch_ms ≡ none)
Agrees returned s = Unit

abbrev valid_time : Option Snapshot → Option ℤ
valid_time none = none
valid_time (some c) = some c.valid_time_ms

-- What the counters and the snapshot say, at any point of the loop.
pub record Books (s : Loop) : Type 0 where
  pub failing : s.report.consecutive_failures ≡ s.failures
  pub counted : Counted s.last_outcome s.failures s.report.rate_limit
  pub valid : s.report.snapshot_valid_time_ms ≡ valid_time s.snapshots

pub record Inv (s : Loop) : Type 0 where
  pub books : Books s
  pub agrees : Agrees s.phase s
  pub published : s.reported ≡ s.report

-- Publishing brings the channel up to date and changes nothing else.
pub publish_cases {ℓ} :
    (P : Loop → Type ℓ) (s : Loop)
    → (s.reported ≡ s.report → P s)
    → P (record s { reported = s.report; reports = suc s.reports })
    → P (publish s)
unfolding publish
publish_cases P s same sent =
    elim (ReportedState-discrete s.reported s.report)
      as (λ d.
        P (elim d [
          | yes e ↦ s
          | no n ↦ record s { reported = s.report; reports = suc s.reports }
        ])) [ yes e ↦ same e | no n ↦ sent ]

publish-Inv : (s : Loop) → Books s → Agrees s.phase s → Inv (publish s)
publish-Inv s b a =
    publish_cases Inv s (λ e. record { books = b; agrees = a; published = e })
      (record {
        books = record { failing = b.failing; counted = b.counted; valid = b.valid };
        agrees = again s.phase a;
        published = refl;
      })
  where
    again :
        (p : Phase)
        → Agrees p s
        → Agrees p (record s { reported = s.report; reports = suc s.reports })
    again off h = h
    again (sleeping due) h = h
    again (in_fetch t) h = h
    again returned h = h

start_fetch-Inv : (now : Now) (s : Loop) → s.pending ≡ none → Books s → Inv (start_fetch now s)
unfolding start_fetch
start_fetch-Inv now s p b =
    publish-Inv _ (record { failing = b.failing; counted = b.counted; valid = b.valid })
      (p, refl, refl)

pending_state_idem :
    (o : Option Outcome) (st : ServiceState)
    → pending_state o st ≡ pending_state o (pending_state o st)
unfolding pending_state
pending_state_idem (some x) st = refl
pending_state_idem none disabled = refl
pending_state_idem none idle = refl
pending_state_idem none fetching = refl
pending_state_idem none retrying = refl
pending_state_idem none rate_limited = refl
pending_state_idem none rejected = refl

go_to_sleep-Inv :
    (due : Pending) (s : Loop) → s.pending ≡ some due → Books s → Inv (go_to_sleep due s)
unfolding go_to_sleep
go_to_sleep-Inv due s p b =
    publish-Inv _ (record { failing = b.failing; counted = b.counted; valid = b.valid })
      (p, refl, pending_state_idem s.last_outcome s.report.state)

switch_off-Inv : (s : Loop) → Books s → Inv (switch_off s)
unfolding switch_off
switch_off-Inv s b =
    publish-Inv _ (record { failing = b.failing; counted = b.counted; valid = b.valid })
      (refl, refl)

head-Inv : (now : Now) (s : Loop) → Books s → Inv (head now s)
unfolding head
head-Inv now s b = if_intro Inv (not s.desired) _ _ (switch_off-Inv s b) (by_pending s.pending refl)
  where
    by_pending :
        (p : Option Pending)
        → s.pending ≡ p
        → Inv (elim p [ none ↦ start_fetch now s | some due ↦ go_to_sleep due s ])
    by_pending none e = start_fetch-Inv now s e b
    by_pending (some due) e = go_to_sleep-Inv due s e b

module _ (fl : Floats) (cfg : Settings) where
  open fl use {F64}

  finish_fetch-Inv :
      (now : Now) (t : ℤ) (r : FetchResult) (jitter : F64) (w : Writes) (s : Loop)
      → Books s
      → Inv (finish_fetch fl cfg now t r jitter w s)
  unfolding finish_fetch note_result outcome_of schedule take_snapshot note_failure
  finish_fetch-Inv now t (fetch_ok snapshot) jitter w s b =
      head-Inv now _ (record { failing = refl; counted = (refl, refl); valid = refl })
  finish_fetch-Inv now t (fetch_err e) jitter w s b =
      head-Inv now _ (record { failing = refl; counted = (refl, refl); valid = b.valid })

  wake-Inv : (now : Now) (p : Phase) (s : Loop) → s.phase ≡ p → Inv s → Inv (wake fl cfg now p s)
  unfolding wake
  wake-Inv now (sleeping due) s e i =
      if_intro Inv (leb due.due now.mono) _ _
        (start_fetch-Inv now (record s { pending = none }) refl
          (record { failing = i.books.failing; counted = i.books.counted; valid = i.books.valid }))
        i
  wake-Inv now off s e i = i
  wake-Inv now (in_fetch t) s e i = i
  wake-Inv now returned s e i = i

  obey-Inv : (now : Now) (v : Bool) (p : Phase) (s : Loop) → Inv s → Inv (obey fl cfg now v p s)
  unfolding obey
  obey-Inv now true off s i = head-Inv now s i.books
  obey-Inv now false off s i = i
  obey-Inv now true (sleeping due) s i = i
  obey-Inv now false (sleeping due) s i = head-Inv now s i.books
  obey-Inv now true (in_fetch t) s i = i
  obey-Inv now false (in_fetch t) s i = head-Inv now s i.books
  obey-Inv now v returned s i = i

  complete-Inv :
      (now : Now) (r : FetchResult) (jitter : F64) (w : Writes) (p : Phase) (s : Loop)
      → Inv s
      → Inv (complete fl cfg now r jitter w p s)
  unfolding complete
  complete-Inv now r jitter w (in_fetch t) s i = finish_fetch-Inv now t r jitter w s i.books
  complete-Inv now r jitter w off s i = i
  complete-Inv now r jitter w (sleeping due) s i = i
  complete-Inv now r jitter w returned s i = i

  -- What no field of the invariant reads may change.
  same-Agrees :
      (s : Loop) (d o : Bool) (p : Phase)
      → Agrees p s
      → Agrees p (record s { desired = d; commands_open = o })
  same-Agrees s d o off h = h
  same-Agrees s d o (sleeping due) h = h
  same-Agrees s d o (in_fetch t) h = h
  same-Agrees s d o returned h = h

  commands-Inv : (s : Loop) (d o : Bool) → Inv s → Inv (record s { desired = d; commands_open = o })
  commands-Inv s d o i = record {
    books = record { failing = i.books.failing; counted = i.books.counted; valid = i.books.valid };
    agrees = same-Agrees s d o s.phase i.agrees;
    published = i.published;
  }

  -- Every event keeps the invariant.
  pub step-Inv : (now : Now) (e : Event F64) (s : Loop) → Inv s → Inv (step fl cfg now e s)
  unfolding step
  step-Inv now (shutdown_changed true) s i = record {
    books = record { failing = i.books.failing; counted = i.books.counted; valid = i.books.valid };
    agrees = tt;
    published = i.published;
  }
  step-Inv now (shutdown_changed false) s i = i
  step-Inv now (command v) s i =
      if_intro Inv s.commands_open _ _ (commands-Inv s v s.commands_open i) i
  step-Inv now desired_changed s i =
      if_intro Inv s.commands_open _ _ (obey-Inv now s.desired s.phase s i) i
  step-Inv now commands_closed s i = commands-Inv s s.desired false i
  step-Inv now woken s i = wake-Inv now s.phase s refl i
  step-Inv now (done result jitter w) s i = complete-Inv now result jitter w s.phase s i

  pub start-Inv :
      (now : Now) (desired : Bool) (store : StateStore) (cached : Option Snapshot)
      → Inv (start fl cfg now desired store cached)
  unfolding start
  start-Inv now desired store none =
      head-Inv now _ (record { failing = refl; counted = (refl, refl); valid = refl })
  start-Inv now desired store (some c) =
      head-Inv now _ (record { failing = refl; counted = (refl, refl); valid = refl })

  pub run-Inv : (events : List (Now × Event F64)) (s : Loop) → Inv s → Inv (run fl cfg events s)
  unfolding run
  run-Inv [] s i = i
  run-Inv ((now, e) ∷ rest) s i = run-Inv rest (step fl cfg now e s) (step-Inv now e s i)

  -- However the loop is started and whatever happens to it, whenever it waits: what is published is the
  -- loop's report; the report's failures are the loop's, none after a success and the count of the last
  -- failure after one; its rate limit is the scope of the last failure; its snapshot time is that of the
  -- snapshot on the channel; and its state and time of the next fetch are those of the phase: disabled with
  -- no time while off, the schedule's time while asleep until the scheduled fetch, and fetching with no
  -- time and nothing scheduled while a fetch runs.
  pub run-start-Inv :
      (events : List (Now × Event F64)) (now : Now) (desired : Bool) (store : StateStore)
      (cached : Option Snapshot)
      → Inv (run fl cfg events (start fl cfg now desired store cached))
  run-start-Inv events now desired store cached =
      run-Inv events (start fl cfg now desired store cached) (start-Inv now desired store cached)
