-- ===== src/Weather/Control.antt =====
-- rust/adsb-weather-server/src/control.rs: the operator's enabled setting.  The watch channel is its
-- value and the number of changes that its receivers were told of.
use adsb_feed.Prelude.{
  ℕ, suc, ◌≡◌, refl, ap, sym, ◌⊎◌, inl, inr, Bool, false, if◌then◌else◌, xor, ◌∙◌,
}
use adsb_feed.Weather.StateFile.{
  StateStore, StateFileError, PersistedState, update, Updated, updated, update_failed, io,
}
use adsb_feed.Weather.StateFile.Restart.{InSync, update-InSync, Took, Refused}

pub record Control : Type 0 where
  pub store : StateStore
  pub desired : Bool
  pub changes : ℕ

-- `Control::new`.
unfoldable pub new : StateStore → Control
new store = record { store = store; desired = store.state.enabled; changes = 0 }

-- `send_if_modified`: only a real change wakes the receivers.
unfoldable pub send_if_modified : Bool → Control → Control
send_if_modified enabled c = record c {
  desired = enabled;
  changes = if xor c.desired enabled then suc c.changes else c.changes;
}

pub data Answer : Type 0 where
  accepted : Answer
  not_saved : StateFileError → Answer

-- What `set_enabled` does with the result of the update: a failed write changes nothing.
unfoldable pub answer : Bool → Control → StateStore × Updated → Control × Answer
unfolding send_if_modified
answer enabled c (store, updated s) =
    (send_if_modified enabled (record c { store = store }), accepted)
answer enabled c (store, update_failed e) = (record c { store = store }, not_saved e)

abbrev set_to : Bool → PersistedState → PersistedState
set_to enabled s = record s { enabled = enabled }

-- `set_enabled`: persisted first.
unfoldable pub set_enabled : Bool → Bool → Control → Control × Answer
unfolding answer
set_enabled write_ok enabled c = answer enabled c (update write_ok (set_to enabled) c.store)

-- The channel shows the setting that the store holds, and the store is in step with its file.
pub record IsValid (c : Control) : Type 0 where
  pub agrees : c.desired ≡ c.store.state.enabled
  pub in_sync : InSync c.store

pub new-IsValid : (s : StateStore) → InSync s → IsValid (new s)
unfolding new
new-IsValid s h = record { agrees = refl; in_sync = h }

abbrev pub Accepted : Bool → Control → Control × Answer → Type 0
Accepted enabled c r =
    (r.1 ≡ accepted)
    × (r.0.desired ≡ enabled)
    × (r.0.changes ≡ (if xor c.desired enabled then suc c.changes else c.changes))

abbrev pub NotSaved : Bool → Control → Control × Answer → Type 0
NotSaved write_ok c r = (r.1 ≡ not_saved io) × (r.0 ≡ c) × (write_ok ≡ false)

answer-IsValid :
    (write_ok enabled : Bool) (c : Control) (r : StateStore × Updated)
    → IsValid c
    → InSync r.0
    → (Took (set_to enabled) c.store r ⊎ Refused write_ok (set_to enabled) c.store r)
    → let a = answer enabled c r in IsValid a.0 × (Accepted enabled c a ⊎ NotSaved write_ok c a)
unfolding answer
answer-IsValid write_ok enabled c (store, updated s) v k (inl t) =
    (record { agrees = ap (λ p. p.enabled) (sym t.1); in_sync = k }, inl (refl, refl, refl))
answer-IsValid write_ok enabled c (store, updated s) v k (inr f) = cc
answer-IsValid write_ok enabled c (store, update_failed e) v k (inl t) = cc
answer-IsValid write_ok enabled c (store, update_failed e) v k (inr f) = (
  record { agrees = v.agrees ∙ ap (λ p. p.state.enabled) (sym f.1); in_sync = k },
  inr (cc, ap (λ (t : StateStore). record c { store = t }) f.1, f.2),
)

-- A command keeps the channel, the store and the file in step. Accepted, it sets the channel, and the
-- receivers are woken once if the setting changed and not at all if it did not; refused, it leaves
-- everything as it was.
pub set_enabled-IsValid :
    (write_ok enabled : Bool) (c : Control)
    → IsValid c
    → let r = set_enabled write_ok enabled c in
      IsValid r.0 × (Accepted enabled c r ⊎ NotSaved write_ok c r)
unfolding set_enabled
set_enabled-IsValid write_ok enabled c v =
    let u = update-InSync write_ok (set_to enabled) c.store v.in_sync in
    answer-IsValid write_ok enabled c (update write_ok (set_to enabled) c.store) v u.0 u.1
