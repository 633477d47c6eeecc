-- ===== src/Ingest/Sbs/Guards.antt =====
-- What the two parsers of rust/adsb-data-engine/src/sbs_parser.rs accept.
use adsb_feed.Prelude.{
  ℕ, ◌≡◌, refl, ap, ◌∙◌, Bool, true, false, Option, none, some, Bytes, length, ltb, if◌then◌else◌,
}
use mathlib.Core.Option
use adsb_feed.Ingest.Text.{split_on}
use adsb_feed.Ingest.Sbs.{AircraftPosition, comma, parse_sbs_raw_fields, parse_sbs_message}

-- Three tests in front of two results that agree.
guarded {ℓ κ μ} :
    {A : Type ℓ} {B : Type κ} {C : Type μ} (f : A → C) (g : B → C) (b1 b2 b3 : Bool) (x : A) (y : B)
    → f x ≡ g y
    → Option.map f (if b1 then none else if b2 then none else if b3 then none else some x)
      ≡ Option.map g (if b1 then none else if b2 then none else if b3 then none else some y)
guarded f g true b2 b3 x y e = refl
guarded f g false true b3 x y e = refl
guarded f g false false true x y e = refl
guarded f g false false false x y e = ap some e

module _ {F64 : Type 0} (from_str : Bytes → Option F64) where
  -- The two parsers accept the same lines, and read the same aircraft from them.
  pub raw_fields-eq-message :
      (line : Bytes)
      → Option.map (λ r. r.0) (parse_sbs_raw_fields line)
        ≡ Option.map (λ p. p.hex_ident) (parse_sbs_message from_str line)
  unfolding parse_sbs_raw_fields parse_sbs_message
  raw_fields-eq-message line =
      guarded (λ (r : Bytes × Bytes × Option ℕ). r.0) (λ (p : AircraftPosition F64). p.hex_ident)
        (ltb (length (split_on comma line)) 22) _ _ _ _ refl

  -- A line whose raw fields cannot be read is no position either, and the other way round.
  pub raw_fields-none :
      (line : Bytes) → parse_sbs_message from_str line ≡ none → parse_sbs_raw_fields line ≡ none
  raw_fields-none line h =
      map-none (parse_sbs_raw_fields line) (raw_fields-eq-message line ∙ ap (Option.map _) h)
    where
      map-none : (o : Option (Bytes × Bytes × Option ℕ)) → Option.map (λ r. r.0) o ≡ none → o ≡ none
      map-none none e = refl
      map-none (some r) e = cc
