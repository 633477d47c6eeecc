-- ===== src/Weather/StateFile.antt =====
-- rust/adsb-weather-server/src/state_file.rs.  The bytes of the file are what serde makes of a state: a
-- file is missing, cannot be read, or holds a state.  A write may fail, as the caller's `io` says;
-- `write_atomic` then leaves the file as it was.
pub mod Restart
use adsb_feed.Prelude.{ℕ, Bool, true, false, not, Option, none, some, if◌then◌else◌}
use adsb_feed.Prelude.Int.{ℤ}
use native.Mathlib.Decide.{ℕ_discrete}
use mathlib.Core.Bool.{decide}

pub record PersistedState : Type 0 where
  pub enabled : Bool
  pub not_before_ms : Option ℤ

-- `PersistedState::default`.
abbrev pub default : PersistedState
default = record { enabled = true; not_before_ms = none }

pub data StateFileError : Type 0 where
  io json : StateFileError

pub data File : Type 0 where
  missing : File
  unreadable : StateFileError → File
  holds : PersistedState → File

pub data Loaded : Type 0 where
  found : Option PersistedState → Loaded
  load_failed : StateFileError → Loaded

-- `load`: a missing file is no error.
unfoldable pub load : File → Loaded
load missing = found none
load (unreadable e) = load_failed e
load (holds s) = found (some s)

-- The store, with the file it owns; `persistent` is `path.is_some()`.
pub record StateStore : Type 0 where
  pub persistent : Bool
  pub state : PersistedState
  pub file : File

abbrev pub in_memory : StateStore
in_memory = record { persistent = false; state = default; file = missing }

unfoldable pub state_of : Loaded → PersistedState × Option StateFileError
state_of (found none) = (default, none)
state_of (found (some s)) = (s, none)
state_of (load_failed e) = (default, some e)

-- `StateStore::open` at a path.
unfoldable pub open_store : File → StateStore × Option StateFileError
unfolding load state_of
open_store file =
    let (s, e) = state_of (load file) in (record { persistent = true; state = s; file = file }, e)

pub PersistedState-discrete : Discrete PersistedState
PersistedState-discrete = hlevel ℕ_discrete

-- `next == *state`.
unfoldable pub same_state : PersistedState → PersistedState → Bool
same_state a b = elim (PersistedState-discrete a b) [ yes e ↦ true | no n ↦ false ]

pub data Updated : Type 0 where
  updated : PersistedState → Updated
  update_failed : StateFileError → Updated

-- `StateStore::update`: written before it is applied, and not at all when nothing changes.
unfoldable pub update : Bool → (PersistedState → PersistedState) → StateStore → StateStore × Updated
unfolding same_state
update write_ok change s =
    let next = change s.state in
    if same_state next s.state
    then (s, updated next)
    else if not s.persistent
    then (record s { state = next }, updated next)
    else if write_ok
    then (record s { state = next; file = holds next }, updated next)
    else (s, update_failed io)
