-- ===== src/Feed/Source.antt =====
-- rust/adsb-pulsar-client/src/source/mod.rs.
pub mod Mqtt
pub mod Lines
use adsb_feed.Prelude.{
  ℕ, ◌+◌, ◌*◌, ◌/◌, Bool, true, false, Option, none, some, List, [], ◌∷◌, Bytes, leb, ◌==◌,
  if◌then◌else◌, is_empty,
}
use adsb_feed.Time.{Duration, from_secs}

pub data SourceStatus : Type 0 where
  disconnected connecting connected : SourceStatus

pub data Liveness : Type 0 where
  coming_up healthy degraded lost : Liveness

abbrev pub prefix : ℕ → List Bytes → List Bytes
prefix c [] = (c ∷ []) ∷ []
prefix c (l ∷ ls) = (c ∷ l) ∷ ls

-- `payload.split(|&b| b == b'\n')`: one piece more than there are newlines.
unfoldable pub pieces : Bytes → List Bytes
pieces [] = [] ∷ []
pieces (b ∷ bs) = let rest = pieces bs in if b == b'\n' then [] ∷ rest else prefix b rest

-- `line.strip_suffix(b"\r").unwrap_or(line)`.
unfoldable pub strip_cr : Bytes → Bytes
strip_cr [] = []
strip_cr (b ∷ bs) =
    let rest = strip_cr bs in
    if b == b'\r' then (if is_empty bs then [] else b ∷ rest) else b ∷ rest

-- The pieces without their carriage return, if anything is left of them.
unfoldable pub clean : List Bytes → List Bytes
unfolding strip_cr
clean [] = []
clean (l ∷ ls) =
    let rest = clean ls in let line = strip_cr l in if is_empty line then rest else line ∷ rest

unfoldable pub split_lines : Bytes → List Bytes
unfolding pieces clean
split_lines payload = clean (pieces payload)

pub record LivenessPolicy : Type 0 where
  pub degraded_after : Duration
  pub lost_after : Duration

unfoldable pub for_socket : ℕ → LivenessPolicy
for_socket secs = record {
  degraded_after = from_secs (secs + 10);
  lost_after = from_secs (secs + 30);
}

unfoldable pub for_mqtt : ℕ → LivenessPolicy
for_mqtt secs = record {
  degraded_after = from_secs (secs + secs / 2);
  lost_after = from_secs (secs * 3);
}

unfoldable pub resolve : LivenessPolicy → SourceStatus → Duration → Liveness
resolve policy disconnected quiet_for = lost
resolve policy connecting quiet_for = coming_up
resolve policy connected quiet_for =
    if leb policy.lost_after quiet_for
    then lost
    else if leb policy.degraded_after quiet_for
    then degraded
    else healthy
