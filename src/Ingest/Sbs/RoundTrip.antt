-- ===== src/Ingest/Sbs/RoundTrip.antt =====
-- Lines written as SBS-1 and read back by rust/adsb-data-engine/src/sbs_parser.rs.
use adsb_feed.Prelude.{
  ◌≤◌, ◌≡◌, refl, ap, ◌∙◌, true, false, some, List, [], ◌∷◌, ◌++◌, Bytes, length, All, bytes_eq,
  ltb, ◌==◌, is_empty, arith,
}
use adsb_feed.Ingest.Text.{trim, split_on, parse_u8}
use adsb_feed.Ingest.Sbs.{comma, msg, msg_comma, receiver, field, parse_sbs_raw_fields}

-- The fields as a line.
unfoldable pub join : Bytes → List Bytes → Bytes
join f [] = f
join f (g ∷ fs) = f ++ comma ∷ join g fs

abbrev pub NoComma : Bytes → Type 0
NoComma = All (λ c. (c == comma) ≡ false)

split_on-last : (f : Bytes) → NoComma f → split_on comma f ≡ f ∷ []
unfolding split_on
split_on-last [] h = refl
split_on-last (c ∷ cs) h = rw (h.0, split_on-last cs h.1) refl

split_on-append :
    (f rest : Bytes) → NoComma f → split_on comma (f ++ comma ∷ rest) ≡ f ∷ split_on comma rest
unfolding split_on
split_on-append [] rest h = refl
split_on-append (c ∷ cs) rest h = rw (h.0, split_on-append cs rest h.1) refl

split_on-join :
    (f : Bytes) (fs : List Bytes) → All NoComma (f ∷ fs) → split_on comma (join f fs) ≡ f ∷ fs
unfolding join
split_on-join f [] h = split_on-last f h.0
split_on-join f (g ∷ fs) h =
    split_on-append f (join g fs) h.0 ∙ ap (λ l. f ∷ l) (split_on-join g fs h.1)

msg-trimmed : bytes_eq (trim msg) msg ≡ true
unfolding trim bytes_eq
msg-trimmed = refl

-- A message written as a line of at least 22 fields without commas is read back: its aircraft, where that is
-- trimmed, not empty and not the receiver's own, its type, and its transmission type.
pub parse_sbs_raw_fields-join :
    (kind session aircraft hex : Bytes) (rest : List Bytes)
    → All NoComma (msg ∷ kind ∷ session ∷ aircraft ∷ hex ∷ rest)
    → 17 ≤ length rest
    → trim hex ≡ hex
    → is_empty hex ≡ false
    → bytes_eq hex receiver ≡ false
    → parse_sbs_raw_fields (join msg (kind ∷ session ∷ aircraft ∷ hex ∷ rest))
      ≡ some (hex, msg_comma ++ trim kind, parse_u8 (trim kind))
unfolding parse_sbs_raw_fields field
parse_sbs_raw_fields-join kind session aircraft hex rest h enough trimmed full own =
    rw
      (
        split_on-join msg (kind ∷ session ∷ aircraft ∷ hex ∷ rest) h,
        long,
        msg-trimmed,
        trimmed,
        full,
        own,
      )
      refl
  where
    long : ltb (length (msg ∷ kind ∷ session ∷ aircraft ∷ hex ∷ rest)) 22 ≡ false
    long = ground arith
