-- ===== src/Feed/Lines/Split.antt =====
-- The loop of `process_buffer` (rust/adsb-pulsar-client/src/client.rs) against a description by
-- recursion on the bytes.
use adsb_feed.Prelude.{
  ℕ, zero, suc, ◌≤◌, ◌<◌, ◌≡◌, refl, ap, ◌∙◌, inl, inr, none, some, List, [], ◌∷◌, ◌++◌, Bytes,
  length, take, drop, ◌==◌, if◌then◌else◌, arith, false, Bool-cases, ==_iff, Option-cases,
}
use adsb_feed.Feed.Lines.{newline, position, keep, split_loop}

-- A byte in front of the first line, or of the unfinished one when no line is complete.
abbrev pub push : ℕ → List Bytes × Bytes → List Bytes × Bytes
push c ([], rest) = ([], c ∷ rest)
push c (l ∷ ls, rest) = ((c ∷ l) ∷ ls, rest)

abbrev pub cut : List Bytes × Bytes → List Bytes × Bytes
cut (ls, rest) = ([] ∷ ls, rest)

-- The complete lines of a text, blank ones too, and what stands behind the last newline.
unfoldable pub split : Bytes → List Bytes × Bytes
split [] = ([], [])
split (c ∷ cs) = if c == newline then cut (split cs) else push c (split cs)

unfoldable pub keep_all : List Bytes → List Bytes
keep_all [] = []
keep_all (l ∷ ls) = keep l (keep_all ls)

-- Splitting at the first newline is one step of `split`.
split-position-none : (bs : Bytes) → position newline bs ≡ none → split bs ≡ ([], bs)
unfolding position split
split-position-none [] h = refl
split-position-none (b ∷ bs) h = ground (arith, split-position-none bs)

split-position-some :
    (bs : Bytes) (i : ℕ)
    → position newline bs ≡ some i
    → split bs ≡ (take i bs ∷ (split (drop (suc i) bs)).0, (split (drop (suc i) bs)).1)
unfolding position split
split-position-some [] i h = cc
split-position-some (b ∷ bs) zero h = ground arith
split-position-some (b ∷ bs) (suc i) h = ground (arith, split-position-some bs i)

length-drop-lt :
    (bs : Bytes) (i : ℕ) → position newline bs ≡ some i → length (drop (suc i) bs) < length bs
unfolding position
length-drop-lt [] i h = cc
length-drop-lt (b ∷ bs) zero h = omega arith
length-drop-lt (b ∷ bs) (suc i) h = ground (arith, length-drop-lt bs i)

-- The loop returns the lines that are not blank, in order, and the unfinished line, for any fuel
-- that is no less than the length of the buffer.
pub split_loop_lem :
    (fuel : ℕ) (bs : Bytes)
    → length bs ≤ fuel
    → split_loop fuel bs ≡ (keep_all (split bs).0, (split bs).1)
unfolding split_loop keep_all position
split_loop_lem zero [] h = rw (split-position-none [] refl)
split_loop_lem zero (b ∷ bs) h = absurd (omega arith)
split_loop_lem (suc fuel) bs h = elim (Option-cases (position newline bs)) [
  | inl e ↦ rw (e, split_loop) (rw (split-position-none bs e))
  | inr (i, e) ↦
      rw (e, split_loop)
        (rw (
          split-position-some bs i e,
          split_loop_lem fuel (drop (suc i) bs) (omega (arith, length-drop-lt bs i e)),
        ))
]

-- The lines of a text that goes on with `bs` behind what `p` holds of its beginning.
abbrev pub extend : List Bytes × Bytes → Bytes → List Bytes × Bytes
extend p bs = (p.0 ++ (split (p.1 ++ bs)).0, (split (p.1 ++ bs)).1)

extend-push :
    (c : ℕ) (p : List Bytes × Bytes) (bs : Bytes)
    → (c == newline) ≡ false
    → push c (extend p bs) ≡ extend (push c p) bs
unfolding split
extend-push c ([], rest) bs h = rw h refl
extend-push c (l ∷ ls, rest) bs h = refl

-- A text goes on where the unfinished line of its beginning stopped.
pub split-append : (xs ys : Bytes) → split (xs ++ ys) ≡ extend (split xs) ys
unfolding split
split-append [] ys = refl
split-append (c ∷ cs) ys = elim (Bool-cases (c == newline)) [
  | inl e ↦ rw (e, split) (rw (split-append cs ys))
  | inr e ↦ rw (e, split) (rw (split-append cs ys) (extend-push c (split cs) ys e))
]

-- The lines, each with its newline, and the unfinished line make up the text: no byte is lost.
pub join : List Bytes → Bytes → Bytes
join [] rest = rest
join (l ∷ ls) rest = l ++ newline ∷ join ls rest

join-push : (c : ℕ) (p : List Bytes × Bytes) → join (push c p).0 (push c p).1 ≡ c ∷ join p.0 p.1
unfolding join
join-push c ([], rest) = refl
join-push c (l ∷ ls, rest) = refl

pub join-split : (bs : Bytes) → join (split bs).0 (split bs).1 ≡ bs
unfolding join split
join-split [] = refl
join-split (b ∷ bs) = elim (Bool-cases (b == newline)) [
  | inl e ↦ rw (e, (==_iff b newline).0 e) (rw (join-split bs))
  | inr e ↦ rw e (join-push b (split bs) ∙ ap (◌∷◌ b) (join-split bs))
]

-- What stands behind the last newline holds no complete line.
pub split_rest : (bs : Bytes) → split (split bs).1 ≡ ([], (split bs).1)
unfolding split
split_rest [] = refl
split_rest (b ∷ bs) = elim (Bool-cases (b == newline)) [
  | inl e ↦ rw e (split_rest bs)
  | inr e ↦ rw e (pushed (split bs) (split_rest bs) e)
]
  where
    pushed :
        (p : List Bytes × Bytes)
        → split p.1 ≡ ([], p.1)
        → (b == newline) ≡ false
        → split (push b p).1 ≡ ([], (push b p).1)
    pushed ([], rest) h e = rw e (rw h)
    pushed (l ∷ ls, rest) h e = h

-- A text without a complete line is its own unfinished line.
pub split_clean : (bs : Bytes) → (split bs).0 ≡ [] → (split bs).1 ≡ bs
split_clean bs h = joined (split bs) h (join-split bs)
  where
    joined : (p : List Bytes × Bytes) → p.0 ≡ [] → join p.0 p.1 ≡ bs → p.1 ≡ bs
    joined ([], rest) e j = unfold join in j
    joined (l ∷ ls, rest) e j = cc

pub keep_all-append : (ls ms : List Bytes) → keep_all (ls ++ ms) ≡ keep_all ls ++ keep_all ms
unfolding keep_all keep
keep_all-append [] ms = refl
keep_all-append (l ∷ ls) ms = ground (arith, keep_all-append ls ms)
