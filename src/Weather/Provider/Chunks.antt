-- ===== src/Weather/Provider/Chunks.antt =====
-- The chunks of rust/adsb-weather-server/src/open_meteo.rs and the order of what is fetched by them.
use adsb_feed.Prelude.{
  ℕ, zero, suc, ◌≤◌, ◌≡◌, refl, ap, ◌∙◌, arith, List, [], ◌∷◌, ◌++◌, length, take, drop,
}
use adsb_feed.Weather.OpenMeteo.Urls.{chunks, chunks_on}

abbrev pub concat {ℓ} : {A : Type ℓ} → List (List A) → List A
concat [] = []
concat (xs ∷ xss) = xs ++ concat xss

module _ {ℓ} {A : Type ℓ} where
  take-drop : (n : ℕ) (xs : List A) → take n xs ++ drop n xs ≡ xs
  take-drop zero xs = refl
  take-drop (suc n) [] = refl
  take-drop (suc n) (x ∷ xs) = ap (λ ys. x ∷ ys) (take-drop n xs)

  length-drop : (n : ℕ) (xs : List A) → length (drop n xs) ≤ length xs
  length-drop zero xs = omega arith
  length-drop (suc n) [] = omega arith
  length-drop (suc n) (x ∷ xs) = omega (arith, length-drop n xs)

  concat-chunks_on :
      (fuel n : ℕ) (xs : List A) → length xs ≤ fuel → concat (chunks_on fuel (suc n) xs) ≡ xs
  unfolding chunks_on
  concat-chunks_on zero n [] h = refl
  concat-chunks_on zero n (x ∷ xs) h = absurd (omega (arith, h))
  concat-chunks_on (suc fuel) n [] h = refl
  concat-chunks_on (suc fuel) n (x ∷ xs) h =
      let rest = concat-chunks_on fuel n (drop n xs) (omega (arith, h, length-drop n xs)) in
      ap (λ ys. x ∷ ys) (ap (λ ys. take n xs ++ ys) rest ∙ take-drop n xs)

  -- Nothing is lost or moved between the chunks.
  pub concat-chunks : (n : ℕ) (xs : List A) → concat (chunks (suc n) xs) ≡ xs
  unfolding chunks
  concat-chunks n xs = concat-chunks_on (length xs) n xs (omega arith)
