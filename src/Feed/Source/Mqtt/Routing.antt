-- ===== src/Feed/Source/Mqtt/Routing.antt =====
-- Where the subscriber of rust/adsb-pulsar-client/src/source/mqtt_source.rs delivers a publish.
use adsb_feed.Prelude.{
  ℕ, zero, suc, ◌≡◌, refl, sym, ap, ◌∙◌, Bool, true, false, not, ◌&&◌, Option, none, some, List, [],
  ◌∷◌, ◌++◌, Bytes, bytes_eq, bytes_eq_sound, if◌then◌else◌, Bool-cases, inl, inr, arith,
}
use mathlib.Core.Option
use adsb_feed.Feed.Source.{split_lines}
use adsb_feed.Feed.Source.Mqtt.{
  MqttSource, AuxTopic, publish, sbs, aux_at, ignore, position, route_publish, names, replace,
  on_publish, step,
}

-- The value that the channel of a topic holds, if the topic is registered.
unfoldable pub value_of : Bytes → List AuxTopic → Option (Option Bytes)
value_of t [] = none
value_of t (a ∷ aux) = if bytes_eq a.topic t then some a.value else value_of t aux

-- A publish as it should arrive: lines on the SBS topic, the whole payload on the topic it came by,
-- and every other field as it was.
pub record DeliveredAs (is_sbs : Bool) (topic payload : Bytes) (s s' : MqttSource) : Type 0 where
  pub sent : s'.sent ≡ (if is_sbs then s.sent ++ split_lines payload else s.sent)
  pub values :
      (u : Bytes)
      → value_of u s'.aux ≡ (
          if not is_sbs && bytes_eq topic u
          then Option.map (λ v. some payload) (value_of u s.aux)
          else value_of u s.aux)
  pub registered : names s'.aux ≡ names s.aux
  pub unstored : (if is_sbs then s'.aux else s.aux) ≡ s.aux
  pub frame : s' ≡ record s { sent = s'.sent; aux = s'.aux }

abbrev pub Delivered : Bytes → Bytes → MqttSource → MqttSource → Type 0
Delivered topic payload s s' = DeliveredAs (bytes_eq topic s.topic) topic payload s s'

position-zero :
    (topic t : Bytes) (ts : List Bytes) → position topic (t ∷ ts) ≡ some 0 → bytes_eq t topic ≡ true
unfolding position
position-zero topic t ts h = ground arith

position-suc :
    (topic t : Bytes) (ts : List Bytes) (i : ℕ)
    → position topic (t ∷ ts) ≡ some (suc i)
    → (bytes_eq t topic ≡ false) × (position topic ts ≡ some i)
unfolding position
position-suc topic t ts i h = ground arith

same_branch {ℓ} :
    {A : Type ℓ} (b : Bool) (f : A → A) (x : A) (y : Option A)
    → (if b then some (f x) else y)
      ≡ (if b then Option.map f (if b then some x else y) else if b then some x else y)
same_branch true f x y = refl
same_branch false f x y = refl

other_branch {ℓ} :
    {A : Type ℓ} (b c : Bool) (f : A → A) (x : A) (y : Option A)
    → (b ≡ true → c ≡ false)
    → (if b then some x else if c then Option.map f y else y)
      ≡ (if c then Option.map f (if b then some x else y) else if b then some x else y)
other_branch true true f x y h = cc (h refl)
other_branch true false f x y h = refl
other_branch false c f x y h = refl

-- A name that differs from the topic and is `u` makes the topic differ from `u`.
not_both :
    (t topic u : Bytes) → bytes_eq t topic ≡ false → bytes_eq t u ≡ true → bytes_eq topic u ≡ false
not_both t topic u h e = elim (Bool-cases (bytes_eq topic u)) [
  | inl q ↦
      let a = bytes_eq_sound t u e in
      let b = bytes_eq_sound topic u q in
      let c : bytes_eq t topic ≡ true = ap (bytes_eq t) b ∙ e in cc
  | inr q ↦ q
]

value_of-replace :
    (u topic payload : Bytes) (aux : List AuxTopic) (i : ℕ)
    → position topic (names aux) ≡ some i
    → value_of u (replace i payload aux) ≡ (
        if bytes_eq topic u
        then Option.map (λ v. some payload) (value_of u aux)
        else value_of u aux)
unfolding replace value_of position
value_of-replace u topic payload [] i h = cc
value_of-replace u topic payload (a ∷ aux) zero h =
    rw
      (sym (
        ap (λ t. bytes_eq t u)
          (bytes_eq_sound a.topic topic (position-zero topic a.topic (names aux) h))))
      (same_branch (bytes_eq a.topic u) (λ v. some payload) a.value (value_of u aux))
value_of-replace u topic payload (a ∷ aux) (suc i) h =
    let k = position-suc topic a.topic (names aux) i h in
    rw (value_of-replace u topic payload aux i k.1) (
      other_branch (bytes_eq a.topic u) (bytes_eq topic u) (λ v. some payload) a.value
        (value_of u aux) (not_both a.topic topic u k.0))

position-none :
    (topic t : Bytes) (ts : List Bytes)
    → position topic (t ∷ ts) ≡ none
    → (bytes_eq t topic ≡ false) × (position topic ts ≡ none)
unfolding position
position-none topic t ts h = ground arith

value_of-none :
    (u topic payload : Bytes) (aux : List AuxTopic)
    → position topic (names aux) ≡ none
    → value_of u aux ≡ (
        if bytes_eq topic u
        then Option.map (λ v. some payload) (value_of u aux)
        else value_of u aux)
unfolding position value_of
value_of-none u topic payload [] h = ground arith
value_of-none u topic payload (a ∷ aux) h =
    let k = position-none topic a.topic (names aux) h in
    ap (λ z. if bytes_eq a.topic u then some a.value else z) (value_of-none u topic payload aux k.1)
    ∙ other_branch (bytes_eq a.topic u) (bytes_eq topic u) (λ v. some payload) a.value
        (value_of u aux) (not_both a.topic topic u k.0)

names-replace :
    (i : ℕ) (payload : Bytes) (aux : List AuxTopic) → names (replace i payload aux) ≡ names aux
unfolding replace
names-replace i payload [] = refl
names-replace zero payload (a ∷ aux) = refl
names-replace (suc i) payload (a ∷ aux) = ap (λ l. a.topic ∷ l) (names-replace i payload aux)

-- A publish on the SBS topic is broadcast line by line; one on another topic is stored whole as the value
-- of that topic, if it is registered, and changes the value of no other topic and nothing of what is
-- broadcast. Nothing else of the source changes in either case: no auxiliary value when the topic is the
-- SBS one, and never the status, the attempts, the time of the connection or the pauses.
pub publish-Delivered :
    (topic payload : Bytes) (s : MqttSource)
    → Delivered topic payload s (step (publish topic payload) s)
unfolding step on_publish route_publish
publish-Delivered topic payload s =
    routed (bytes_eq topic s.topic) (position topic (names s.aux)) refl
  where
    routed :
        (b : Bool) (o : Option ℕ)
        → position topic (names s.aux) ≡ o
        → DeliveredAs b topic payload s (
            on_publish payload
              (if b then sbs else elim o [ none ↦ ignore | some index ↦ aux_at index ])
              s)
    routed true o e = record {
      sent = refl;
      values = λ u. refl;
      registered = refl;
      unstored = refl;
      frame = refl;
    }
    routed false none e = record {
      sent = refl;
      values = λ u. value_of-none u topic payload s.aux e;
      registered = refl;
      unstored = refl;
      frame = refl;
    }
    routed false (some i) e = record {
      sent = refl;
      values = λ u. value_of-replace u topic payload s.aux i e;
      registered = names-replace i payload s.aux;
      unstored = refl;
      frame = refl;
    }
