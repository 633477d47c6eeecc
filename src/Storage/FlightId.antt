-- ===== src/Storage/FlightId.antt =====
-- The flight identifiers of rust/adsb-data-engine/src/storage.rs: `format!("{}_{}", hex, flight_num)`.
use adsb_feed.Prelude.{
  ℕ, suc, ◌≡◌, refl, sym, ap, ◌∙◌, arith, Option, none, some, [], ◌∷◌, ◌++◌, Bytes, All, ◌==◌,
  if◌then◌else◌,
}
use adsb_feed.Prelude.Decimal.{decimal, read, read-digits, IsDigit, digits-IsDigit}

abbrev underscore : ℕ
underscore = b'_'

unfoldable pub flight_id : Bytes → ℕ → Bytes
flight_id hex flight_num = hex ++ underscore ∷ decimal flight_num

-- A text cut at its last underscore.
abbrev cut : Bytes → Option (Bytes × Bytes)
cut [] = none
cut (c ∷ cs) = elim (cut cs) [
  | none ↦ if c == underscore then some ([], cs) else none
  | some p ↦ some (c ∷ p.0, p.1)
]

cut-digits : (cs : Bytes) → All IsDigit cs → cut cs ≡ none
cut-digits [] h = refl
cut-digits (c ∷ cs) h = rw (cut-digits cs h.1) (ground (arith, h.0))

cut-append : (a cs : Bytes) → All IsDigit cs → cut (a ++ underscore ∷ cs) ≡ some (a, cs)
cut-append [] cs h = rw (cut-digits cs h) refl
cut-append (x ∷ a) cs h = rw (cut-append a cs h) refl

abbrev parts : Option (Bytes × Bytes) → Bytes × ℕ
parts none = ([], 0)
parts (some p) = (p.0, read 0 p.1)

parts-flight_id : (hex : Bytes) (n : ℕ) → parts (cut (flight_id hex n)) ≡ (hex, n)
unfolding flight_id
parts-flight_id hex n =
    rw (cut-append hex (decimal n) (digits-IsDigit (suc n) n), read-digits (suc n) n (omega arith))
      refl

-- A flight's identifier determines the aircraft and the number.
pub flight_id-injective :
    (h j : Bytes) (n m : ℕ) → flight_id h n ≡ flight_id j m → (h ≡ j) × (n ≡ m)
flight_id-injective h j n m e =
    let both = sym (parts-flight_id h n) ∙ ap (λ s. parts (cut s)) e ∙ parts-flight_id j m in
    (ap (λ p. p.0) both, ap (λ p. p.1) both)
