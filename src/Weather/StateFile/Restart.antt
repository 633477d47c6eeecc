-- ===== src/Weather/StateFile/Restart.antt =====
-- The store of rust/adsb-weather-server/src/state_file.rs and what a restart would find.
use adsb_feed.Prelude.{
  ◌≡◌, refl, sym, ◌∙◌, ◌≢◌, ◌↔◌, Bool, true, false, not, arith, if_cases, if_intro, inl, inr, ◌⊎◌,
}
use adsb_feed.Weather.StateFile.{
  PersistedState, PersistedState-discrete, io, File, missing, unreadable, holds, StateStore,
  open_store, update, Updated, updated, update_failed, same_state,
}

-- The state that a restart would come back with.
abbrev pub restarted : StateStore → PersistedState
restarted s = (open_store s.file).0.state

-- A statement that matters only where the test holds.
abbrev When : Bool → Type 0 → Type 0
When true A = A
When false A = Unit

when : {A : Type 0} (b : Bool) → (b ≡ true → A) → When b A
when true f = f refl
when false f = tt

use_when : {A : Type 0} (b : Bool) → When b A → b ≡ true → A
use_when true a e = a
use_when false a e = cc

-- A persistent store agrees with what a restart would find.
abbrev pub InSync : StateStore → Type 0
InSync s = When s.persistent (restarted s ≡ s.state)

abbrev Synced : StateStore → Type 0
Synced s = s.persistent ≡ true → restarted s ≡ s.state

pub open_store-InSync : (file : File) → InSync (open_store file).0
unfolding open_store
open_store-InSync missing = refl
open_store-InSync (unreadable e) = refl
open_store-InSync (holds s) = refl

pub same_state_iff : (a b : PersistedState) → (same_state a b ≡ true) ↔ (a ≡ b)
unfolding same_state
same_state_iff a b =
    elim (PersistedState-discrete a b)
      as (λ d. ((elim d [ yes e ↦ true | no n ↦ false ]) ≡ true) ↔ (a ≡ b)) [
        | yes e ↦ (λ _. e, λ _. refl)
        | no n ↦ (λ h. cc, λ e. absurd (n e))
      ]

-- An update that took effect, and one that was refused.
abbrev pub Took : (PersistedState → PersistedState) → StateStore → StateStore × Updated → Type 0
Took change s r = (r.1 ≡ updated (change s.state)) × (r.0.state ≡ change s.state)

abbrev pub Refused :
    Bool → (PersistedState → PersistedState) → StateStore → StateStore × Updated → Type 0
Refused write_ok change s r =
    (r.1 ≡ update_failed io)
    × (r.0 ≡ s)
    × (write_ok ≡ false)
    × (s.persistent ≡ true)
    × (change s.state ≢ s.state)

-- An update, with the condition as an assumption.
update-Synced :
    (write_ok : Bool) (change : PersistedState → PersistedState) (s : StateStore)
    → Synced s
    → let r = update write_ok change s in
      Synced r.0 × (Took change s r ⊎ Refused write_ok change s r)
unfolding update open_store
update-Synced write_ok change s h =
    if_cases P (same_state next s.state) _ _ (λ e. (h, inl (refl, sym ((same_state_iff _ _).0 e))))
      λ e.
        if_cases P (not s.persistent) _ _ (λ v. (λ p. ground arith, inl (refl, refl)))
          λ v.
            if_cases P write_ok (record s { state = next; file = holds next }, updated next)
              (s, update_failed io) (λ w. (λ p. refl, inl (refl, refl)))
              λ w.
                (h, inr (refl, refl, w, ground arith, λ q. cc ((same_state_iff next s.state).1 q)))
  where
    next : PersistedState
    next = change s.state

    P : StateStore × Updated → Type 0
    P r = Synced r.0 × (Took change s r ⊎ Refused write_ok change s r)

-- An update leaves the store in step with its file, whether the write works or not; it fails only
-- where a write was needed and did not work, and then the store is what it was.
pub update-InSync :
    (write_ok : Bool) (change : PersistedState → PersistedState) (s : StateStore)
    → InSync s
    → let r = update write_ok change s in
      InSync r.0 × (Took change s r ⊎ Refused write_ok change s r)
update-InSync write_ok change s h =
    let u = update-Synced write_ok change s (use_when s.persistent h) in (when _ u.0, u.1)

update-persistent :
    (write_ok : Bool) (change : PersistedState → PersistedState) (s : StateStore)
    → (update write_ok change s).0.persistent ≡ s.persistent
unfolding update
update-persistent write_ok change s =
    if_cases P (same_state (change s.state) s.state) _ _ (λ e. refl)
      λ e.
        if_cases P (not s.persistent) _ _ (λ v. refl)
          λ v.
            if_intro P write_ok
              (
                record s { state = change s.state; file = holds (change s.state) },
                updated (change s.state),
              )
              (s, update_failed io) refl refl
  where
    P : StateStore × Updated → Type 0
    P r = r.0.persistent ≡ s.persistent

-- A change that could be written is what a restart comes back with.
pub restarted-update :
    (change : PersistedState → PersistedState) (s : StateStore)
    → InSync s
    → s.persistent ≡ true
    → restarted (update true change s).0 ≡ change s.state
restarted-update change s h p =
    let u = update-InSync true change s h in
    use_when _ u.0 (update-persistent true change s ∙ p) ∙ elim u.1 [ inl t ↦ t.1 | inr r ↦ cc r.2 ]
