-- ===== src/Weather/Provider/Retrying.antt =====
-- What a fetch of rust/adsb-weather-server/src/provider.rs buys when an earlier one failed part-way.
use mathlib.Core.List.{append_assoc}
use adsb_feed.Prelude.{
  subst, ℕ, ◌≡◌, ◌≢◌, refl, sym, ap, ◌∙◌, arith, true, none, some, Result, Result-cases, ok, err,
  and_then, List, [], ◌∷◌, ◌++◌, Bytes, bytes_eq, bytes_eq_refl, All, All-append, All-imp, length,
  drop, if◌then◌else◌, Bool-cases, Option-cases, inl, inr,
}
use adsb_feed.Prelude.Int.{ℤ, eqb_ℤ}
use adsb_feed.Ingest.Table.{find, find-upsert}
use adsb_feed.Weather.Provider.{
  ProviderError, PartialFetch, get_held, insert_held, clear_held, Provider, buy_chunk, take_chunk,
  fetch_chunks,
}

eqb_ℤ_refl : (a : ℤ) → eqb_ℤ a a ≡ true
eqb_ℤ_refl a = ground arith

module _ {L : Type 0} where
  pub get_held-insert_held :
      (hour : ℤ) (u v : Bytes) (l : L) (p : PartialFetch L)
      → get_held hour u (insert_held hour v l p)
        ≡ (if bytes_eq u v then some l else get_held hour u p)
  unfolding get_held insert_held find
  get_held-insert_held hour u v l p =
      let kept = if eqb_ℤ p.hour hour then p.chunks else [] in
      let found = find-upsert u v (λ _. l) kept in
      let same = eqb_ℤ_refl hour in
      elim (Bool-cases (eqb_ℤ p.hour hour)) [
        | inl e ↦ rw (same, found, e) refl
        | inr e ↦ rw (same, found, e) refl
      ]

module _ {A : Type 0} (get : ℕ → Bytes → Result (List A) ProviderError) (hour : ℤ) where
  abbrev pub Held : Provider (List A) → Bytes → Type 0
  Held p u = get_held hour u p.partial ≢ none

  abbrev pub Missing : Provider (List A) → Bytes → Type 0
  Missing p u = get_held hour u p.partial ≡ none

  -- A new chunk drops none that is held.
  insert-Held :
      (u v : Bytes) (l : List A) (p : PartialFetch (List A))
      → get_held hour u p ≢ none
      → get_held hour u (insert_held hour v l p) ≢ none
  insert-Held u v l p h none_left =
      let found = sym (get_held-insert_held hour u v l p) ∙ none_left in
      elim (Bool-cases (bytes_eq u v)) [
        | inl e ↦ let no : some l ≡ none = sym (rw e refl) ∙ found in cc
        | inr e ↦ h (sym (rw e refl) ∙ found)
      ]

  insert-held :
      (v : Bytes) (l : List A) (p : PartialFetch (List A))
      → get_held hour v (insert_held hour v l p) ≢ none
  insert-held v l p none_left =
      let found = sym (get_held-insert_held hour v v l p) ∙ none_left in
      let no : some l ≡ none = sym (rw (bytes_eq_refl v) refl) ∙ found in cc

  abbrev asked : Bytes → Provider (List A) → Provider (List A)
  asked url p = record p { requests = url ∷ p.requests }

  abbrev bought : Bytes → List A → Provider (List A) → Provider (List A)
  bought url l p = record p {
    requests = url ∷ p.requests;
    partial = insert_held hour url l p.partial;
  }

  -- What became of one chunk.
  data Taken (url : Bytes) (p : Provider (List A)) : Type 0 where
    was_held : (l : List A) → take_chunk get hour url p ≡ (p, ok l) → Taken url p
    was_bought :
        (l : List A)
        → Missing p url
        → take_chunk get hour url p ≡ (bought url l p, ok l)
        → Taken url p
    was_refused :
        (e : ProviderError)
        → Missing p url
        → take_chunk get hour url p ≡ (asked url p, err e)
        → Taken url p

  taken : (url : Bytes) (p : Provider (List A)) → Taken url p
  unfolding take_chunk buy_chunk
  taken url p = elim (Option-cases (get_held hour url p.partial)) [
    | inl missing ↦ elim (Result-cases (get (length p.requests) url)) [
      | inl (l, e) ↦ was_bought l missing (rw (missing, take_chunk, buy_chunk, e) refl)
      | inr (e, q) ↦ was_refused e missing (rw (missing, take_chunk, buy_chunk, q) refl)
    ]
    | inr (l, e) ↦ was_held l (rw (e, take_chunk) refl)
  ]

  -- From `p` to `p'`, with the result `r`: the requests that were added are of chunks that `p` lacked, and
  -- after a failure all but the last of them are held, with all that was held before.
  pub record Buys (p p' : Provider (List A)) (r : Result (List A) ProviderError) : Type 0 where
    pub added : List Bytes
    pub requests : p'.requests ≡ added ++ p.requests
    pub missing : All (Missing p) added
    pub held : (e : ProviderError) → r ≡ err e → All (Held p') (drop 1 added)
    pub kept : (e : ProviderError) → r ≡ err e → (u : Bytes) → Held p u → Held p' u

  -- The rest of the loop, after a chunk.
  abbrev pub rest :
      List Bytes
      → Provider (List A) × Result (List A) ProviderError
      → Provider (List A) × Result (List A) ProviderError
  rest urls t =
      let more = fetch_chunks get hour urls t.0 in
      elim t.1 [
        | err e ↦ (t.0, err e)
        | ok locations ↦ (more.0, and_then more.1 (λ l. ok (locations ++ l)))
      ]

  pub fetch_chunks-rest :
      (url : Bytes) (urls : List Bytes) (p : Provider (List A))
      (t : Provider (List A) × Result (List A) ProviderError)
      → take_chunk get hour url p ≡ t
      → fetch_chunks get hour (url ∷ urls) p ≡ rest urls t
  unfolding fetch_chunks
  fetch_chunks-rest url urls p t e = ap (rest urls) e

  err_of :
      (r : Result (List A) ProviderError) (l : List A) (e : ProviderError)
      → and_then r (λ more. ok (l ++ more)) ≡ err e
      → r ≡ err e
  err_of (ok a) l e h = cc
  err_of (err e') l e h = cc

  Held-drop :
      (p : Provider (List A)) (url : Bytes) (added : List Bytes)
      → All (Held p) (drop 1 added)
      → Held p url
      → All (Held p) (drop 1 (added ++ url ∷ []))
  Held-drop p url [] h u = tt
  Held-drop p url (x ∷ added) h u = All-append (Held p) added (url ∷ []) h (u, tt)

  still-Missing :
      (url : Bytes) (l : List A) (p : Provider (List A)) (u : Bytes)
      → Missing (bought url l p) u
      → Missing p u
  still-Missing url l p u h = elim (Option-cases (get_held hour u p.partial)) [
    | inl e ↦ e
    | inr (a, e) ↦
        let held : Held p u = λ n. let no : some a ≡ none = sym e ∙ n in cc in
        absurd (insert-Held u url l p.partial held h)
  ]

  -- Whatever the server answers, and whether the fetch succeeds or fails, it requests only chunks that
  -- were not held for its hour; and a fetch that fails holds, besides all that was held before, every
  -- chunk that it requested but the one whose request failed.
  pub fetch_chunks-Buys :
      (urls : List Bytes) (p : Provider (List A))
      → Buys p (fetch_chunks get hour urls p).0 (fetch_chunks get hour urls p).1
  unfolding fetch_chunks clear_held
  fetch_chunks-Buys [] p = record {
    added = [];
    requests = refl;
    missing = tt;
    held = λ e h. tt;
    kept = λ e h. cc;
  }
  fetch_chunks-Buys (url ∷ urls) p = elim (taken url p) [
    | was_held l e ↦
        let b = fetch_chunks-Buys urls p in
        subst (λ d. Buys p d.0 d.1) (sym (fetch_chunks-rest url urls p _ e))
          (record {
            added = b.added;
            requests = b.requests;
            missing = b.missing;
            held = λ e' h. b.held e' (err_of _ l e' h);
            kept = λ e' h. b.kept e' (err_of _ l e' h);
          })
    | was_bought l missing e ↦
        let b = fetch_chunks-Buys urls (bought url l p) in
        let mine = insert-held url l p.partial in
        subst (λ d. Buys p d.0 d.1) (sym (fetch_chunks-rest url urls p _ e))
          (record {
            added = b.added ++ url ∷ [];
            requests = b.requests ∙ sym (append_assoc b.added (url ∷ []) p.requests);
            missing =
                All-append (Missing p) b.added (url ∷ [])
                  (All-imp (still-Missing url l p) b.added b.missing) (missing, tt);
            held = λ e' h.
                Held-drop (fetch_chunks get hour urls (bought url l p)).0 url b.added
                  (b.held e' (err_of _ l e' h)) (b.kept e' (err_of _ l e' h) url mine);
            kept = λ e' h u k. b.kept e' (err_of _ l e' h) u (insert-Held u url l p.partial k);
          })
    | was_refused e missing q ↦
        subst (λ d. Buys p d.0 d.1) (sym (fetch_chunks-rest url urls p _ q))
          (record {
            added = url ∷ [];
            requests = refl;
            missing = (missing, tt);
            held = λ e' h. tt;
            kept = λ e' h u k. k;
          })
  ]
