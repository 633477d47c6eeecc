-- ===== src/Weather/Provider/Contents.antt =====
-- What a fetch of rust/adsb-weather-server/src/provider.rs returns: the answers to its URLs in order, whether
-- they were bought now or held from an earlier attempt.
use adsb_feed.Prelude.{
  ℕ, ◌≡◌, ◌⊎◌, refl, sym, ap, ◌∙◌, some, Result, Result-cases, ok, err, and_then, List, [], ◌∷◌,
  ◌++◌, map, Bytes, bytes_eq, bytes_eq_sound, length, Bool-cases, Option-cases, inl, inr,
}
use adsb_feed.Prelude.Int.{ℤ}
use adsb_feed.Weather.Provider.{
  ProviderError, get_held, insert_held, Provider, buy_chunk, take_chunk, fetch_chunks,
}
use adsb_feed.Weather.Provider.Chunks.{concat}
use adsb_feed.Weather.Provider.Retrying.{get_held-insert_held, fetch_chunks-rest}

module _ {A : Type 0} (get : ℕ → Bytes → Result (List A) ProviderError) (want : Bytes → List A)
    (hour : ℤ) where
  -- Whenever the server answers a URL, it is with what that URL asks for.
  abbrev pub Honest : Type 0
  Honest = (n : ℕ) (url : Bytes) (l : List A) → get n url ≡ ok l → l ≡ want url

  -- What is held for the hour was such an answer.
  abbrev pub Sourced : Provider (List A) → Type 0
  Sourced p = (url : Bytes) (l : List A) → get_held hour url p.partial ≡ some l → l ≡ want url

  -- An error that the server gave.
  abbrev pub Refused : ProviderError → Type 0
  Refused e = (n : ℕ) × (url : Bytes) × (get n url ≡ err e)

  -- One chunk: what its URL asks for, or the server's error; and what is held is still sourced.
  data Chunk (url : Bytes) (p : Provider (List A)) : Type 0 where
    came :
        (p' : Provider (List A))
        → take_chunk get hour url p ≡ (p', ok (want url))
        → Sourced p'
        → Chunk url p
    failed :
        (p' : Provider (List A)) (e : ProviderError)
        → take_chunk get hour url p ≡ (p', err e)
        → Refused e
        → Sourced p'
        → Chunk url p

  Sourced-insert :
      (url : Bytes) (l : List A) (p : Provider (List A))
      → Sourced p
      → l ≡ want url
      → Sourced (record { requests = url ∷ p.requests; partial = insert_held hour url l p.partial })
  Sourced-insert url l p sourced e u k h =
      let found = sym (get_held-insert_held hour u url l p.partial) ∙ h in
      elim (Bool-cases (bytes_eq u url)) [
        | inl q ↦
            let it : some l ≡ some k = sym (rw q refl) ∙ found in
            let same : l ≡ k = cc in sym same ∙ e ∙ ap want (sym (bytes_eq_sound u url q))
        | inr q ↦ sourced u k (sym (rw q refl) ∙ found)
      ]

  chunk : (url : Bytes) (p : Provider (List A)) → Honest → Sourced p → Chunk url p
  unfolding take_chunk buy_chunk
  chunk url p honest sourced = elim (Option-cases (get_held hour url p.partial)) [
    | inl missing ↦ elim (Result-cases (get (length p.requests) url)) [
      | inl (l, e) ↦
          let right = honest (length p.requests) url l e in
          came (record { requests = url ∷ p.requests; partial = insert_held hour url l p.partial })
            (rw (missing, take_chunk, buy_chunk, e)
              (ap
                (λ k. (
                  record {
                    requests = url ∷ p.requests;
                    partial = insert_held hour url l p.partial;
                  },
                  ok k,
                ))
                right))
            (Sourced-insert url l p sourced right)
      | inr (e, q) ↦
          failed (record p { requests = url ∷ p.requests }) e
            (rw (missing, take_chunk, buy_chunk, q) refl) (length p.requests, url, q) sourced
    ]
    | inr (l, e) ↦ came p (rw (e, take_chunk) (ap (λ k. (p, ok k)) (sourced url l e))) sourced
  ]

  -- From a server that answers a URL only with what it asks for, and from held chunks of such answers: a
  -- fetch returns the answers to all its URLs in their order, or else an error that the server gave.
  pub fetch_chunks_lem :
      (urls : List Bytes) (p : Provider (List A))
      → Honest
      → Sourced p
      → ((fetch_chunks get hour urls p).1 ≡ ok (concat (map want urls)))
        ⊎ ((e : ProviderError) × ((fetch_chunks get hour urls p).1 ≡ err e) × Refused e)
  unfolding fetch_chunks
  fetch_chunks_lem [] p honest sourced = inl refl
  fetch_chunks_lem (url ∷ urls) p honest sourced = elim (chunk url p honest sourced) [
    | came p' e sourced' ↦
        let step = ap (λ d. d.1) (fetch_chunks-rest get hour url urls p _ e) in
        elim (fetch_chunks_lem urls p' honest sourced') [
          | inl q ↦ inl (step ∙ ap (λ r. and_then r (λ l. ok (want url ++ l))) q)
          | inr (e', q, refused) ↦
              inr (e', step ∙ ap (λ r. and_then r (λ l. ok (want url ++ l))) q, refused)
        ]
    | failed p' e q refused sourced' ↦
        inr (e, ap (λ d. d.1) (fetch_chunks-rest get hour url urls p _ q), refused)
  ]
