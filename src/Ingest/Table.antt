-- ===== src/Ingest/Table.antt =====
-- The hash maps of rust/adsb-data-engine/src/ingest.rs as association lists.  Only the lookups of a table
-- are compared, since a hash map has no order.
use adsb_feed.Prelude.{
  ◌≡◌, refl, sym, ap, ◌∙◌, Bool, true, false, Option, none, some, List, [], ◌∷◌, Bytes, bytes_eq,
  bytes_eq_sound, bytes_eq_refl, if◌then◌else◌, Bool-cases, inl, inr,
}

abbrev pub Table {ℓ} : Type ℓ → Type ℓ
Table A = List (Bytes × A)

-- A key that equals another differs from what the other differs from.
differs : (k i j : Bytes) → bytes_eq j i ≡ false → bytes_eq k i ≡ true → bytes_eq k j ≡ false
differs k i j e h = elim (Bool-cases (bytes_eq k j)) [
  | inl q ↦
      let a = bytes_eq_sound k i h in
      let b = bytes_eq_sound k j q in
      let c : bytes_eq j i ≡ true = ap (λ x. bytes_eq x i) (sym b) ∙ h in cc
  | inr q ↦ q
]

differs_sym : (k j : Bytes) → bytes_eq k j ≡ false → bytes_eq j k ≡ false
differs_sym k j e = elim (Bool-cases (bytes_eq j k)) [
  | inl q ↦ let swap : bytes_eq k j ≡ true = rw (bytes_eq_sound j k q) (bytes_eq_refl k) in cc
  | inr q ↦ q
]

if_same {ℓ} : {A : Type ℓ} (b : Bool) (x : A) → x ≡ (if b then x else x)
if_same true x = refl
if_same false x = refl

absorbed {ℓ} :
    {A : Type ℓ} (b : Bool) (x y z : A)
    → (if b then x else z) ≡ (if b then x else if b then y else z)
absorbed true x y z = refl
absorbed false x y z = refl

swapped {ℓ} :
    {A : Type ℓ} (b c : Bool) (x y z : A)
    → (c ≡ true → b ≡ false)
    → (if c then y else if b then x else z) ≡ (if b then x else if c then y else z)
swapped true true x y z h = cc (h refl)
swapped true false x y z h = refl
swapped false c x y z h = refl

module _ {ℓ} {A : Type ℓ} where
  unfoldable pub find : Bytes → Table A → Option A
  find k [] = none
  find k ((j, v) ∷ t) = if bytes_eq k j then some v else find k t

  -- `entry(k)`: the value is set from the old one, if there is one.
  unfoldable pub upsert : Bytes → (Option A → A) → Table A → Table A
  upsert k f [] = (k, f none) ∷ []
  upsert k f ((j, v) ∷ t) = if bytes_eq k j then (j, f (some v)) ∷ t else (j, v) ∷ upsert k f t

  unfoldable pub remove : Bytes → Table A → Table A
  remove k [] = []
  remove k ((j, v) ∷ t) = let rest = remove k t in if bytes_eq k j then rest else (j, v) ∷ rest

  pub find-upsert :
      (k j : Bytes) (f : Option A → A) (t : Table A)
      → find k (upsert j f t) ≡ (if bytes_eq k j then some (f (find j t)) else find k t)
  unfolding find upsert
  find-upsert k j f [] = refl
  find-upsert k j f ((i, v) ∷ t) = elim (Bool-cases (bytes_eq j i)) [
    | inl e ↦ rw (e, ap (bytes_eq k) (bytes_eq_sound j i e)) (absorbed (bytes_eq k i) _ _ _)
    | inr e ↦
        rw (e, find-upsert k j f t) (swapped (bytes_eq k j) (bytes_eq k i) _ _ _ (differs k i j e))
  ]

  pub find-remove :
      (k j : Bytes) (t : Table A) → find k (remove j t) ≡ (if bytes_eq k j then none else find k t)
  unfolding find remove
  find-remove k j [] = if_same (bytes_eq k j) none
  find-remove k j ((i, v) ∷ t) = elim (Bool-cases (bytes_eq j i)) [
    | inl e ↦
        rw (e, find-remove k j t, ap (bytes_eq k) (bytes_eq_sound j i e))
          (absorbed (bytes_eq k i) _ _ _)
    | inr e ↦
        rw (e, find-remove k j t) (swapped (bytes_eq k j) (bytes_eq k i) _ _ _ (differs k i j e))
  ]

  -- No key twice.
  abbrev pub Distinct : Table A → Type ℓ
  Distinct [] = Unit
  Distinct ((k, v) ∷ t) = (find k t ≡ none) × Distinct t

  pub upsert-Distinct :
      (k : Bytes) (f : Option A → A) (t : Table A) → Distinct t → Distinct (upsert k f t)
  unfolding upsert find
  upsert-Distinct k f [] d = (refl, tt)
  upsert-Distinct k f ((j, v) ∷ t) d = elim (Bool-cases (bytes_eq k j)) [
    | inl e ↦ rw e d
    | inr e ↦
        let found = find-upsert j k f t in
        let other = differs_sym k j e in rw e (rw (found, other) d.0, upsert-Distinct k f t d.1)
  ]
