-- ===== src/Feed/Config/Validation.antt =====
-- What `Config::validate` of rust/adsb-pulsar-client/src/config.rs accepts.
use adsb_feed.Prelude.{
  ℕ, ◌≤◌, ◌≡◌, ◌≢◌, ◌↔◌, ◌⊎◌, inl, inr, refl, ap, ◌∙◌, Bool, true, false, ◌&&◌, ◌||◌, not, Option,
  none, some, List, [], ◌∷◌, ◌++◌, Bytes, ltb, ◌==◌, if◌then◌else◌, is_empty, bytes_eq,
  bytes_eq_iff, Bool-cases, arith, ==_iff, sym,
}
use mathlib.Core.List.{Memᴰ}
use adsb_feed.Ingest.Text.{trim}
use adsb_feed.Feed.Error.{Result, ok}
use adsb_feed.Feed.Monitor.{starts_with}
use adsb_feed.Feed.Config.{
  ForwarderKind, pulsar, file, mqtt, noop, kind_eq, contains, Config, refuse_if, is_blank,
  pulsar_scheme, pulsar_ssl_scheme, client_mode, server_mode, metrics_bind_addr, bad_metrics,
  bad_pulsar, bad_mode, validate_mqtt, validate_sizes, validate,
}

abbrev pub HasPrefix : Bytes → Bytes → Type 0
HasPrefix p s = (rest : Bytes) × (s ≡ p ++ rest)

abbrev pub MqttIsValid : Config → Type 0
MqttIsValid c = (trim c.mqtt_broker ≢ []) × (trim c.mqtt_topic ≢ []) × (c.mqtt_qos ≤ 2)

abbrev pub IsValid : {A : Type 0} → (Bytes → Option A) → Config → Type 0
IsValid {A = A} parse_ip c =
    (trim c.source_id ≢ [])
    × (((c.metrics_port ≡ 0) ⊎ ((a : A) × (parse_ip c.metrics_bind ≡ some a)))
        × ((Memᴰ pulsar c.forwarders
              → HasPrefix pulsar_scheme c.pulsar_broker
                ⊎ HasPrefix pulsar_ssl_scheme c.pulsar_broker)
            × ((Memᴰ mqtt c.forwarders → MqttIsValid c)
                × (((c.connection_mode ≡ client_mode) ⊎ (c.connection_mode ≡ server_mode))
                    × ((1 ≤ c.recv_buffer_size) × (1 ≤ c.max_line_buffer_size))))))

and_both : (a b : Bool) → (a && b) ≡ true → (a ≡ true) × (b ≡ true)
and_both true true h = (refl, refl)
and_both true false h = (refl, h)
and_both false b h = (h, cc)

starts_with_sound : (p s : Bytes) → starts_with p s ≡ true → HasPrefix p s
unfolding starts_with
starts_with_sound [] s h = (s, refl)
starts_with_sound (x ∷ p) [] h = cc
starts_with_sound (x ∷ p) (y ∷ s) h =
    let (e, q) = and_both (x == y) (starts_with p s) h in
    let (rest, r) = starts_with_sound p s q in
    (rest, ap (λ z. z ∷ s) (sym ((==_iff x y).0 e)) ∙ ap (λ t. x ∷ t) r)

starts_with_complete : (p rest : Bytes) → starts_with p (p ++ rest) ≡ true
unfolding starts_with
starts_with_complete [] rest = refl
starts_with_complete (x ∷ p) rest =
    ap (λ b. b && starts_with p (p ++ rest)) ((==_iff x x).1 refl) ∙ starts_with_complete p rest

starts_with_iff : (p s : Bytes) → (starts_with p s ≡ true) ↔ HasPrefix p s
starts_with_iff p s = (starts_with_sound p s, λ (rest, e). rw e (starts_with_complete p rest))

kind_eq_iff : (x k : ForwarderKind) → (kind_eq x k ≡ true) ↔ (k ≡ x)
unfolding kind_eq
kind_eq_iff pulsar pulsar = (λ h. refl, λ h. refl)
kind_eq_iff pulsar file = (λ h. cc, λ h. cc)
kind_eq_iff pulsar mqtt = (λ h. cc, λ h. cc)
kind_eq_iff pulsar noop = (λ h. cc, λ h. cc)
kind_eq_iff file pulsar = (λ h. cc, λ h. cc)
kind_eq_iff file file = (λ h. refl, λ h. refl)
kind_eq_iff file mqtt = (λ h. cc, λ h. cc)
kind_eq_iff file noop = (λ h. cc, λ h. cc)
kind_eq_iff mqtt pulsar = (λ h. cc, λ h. cc)
kind_eq_iff mqtt file = (λ h. cc, λ h. cc)
kind_eq_iff mqtt mqtt = (λ h. refl, λ h. refl)
kind_eq_iff mqtt noop = (λ h. cc, λ h. cc)
kind_eq_iff noop pulsar = (λ h. cc, λ h. cc)
kind_eq_iff noop file = (λ h. cc, λ h. cc)
kind_eq_iff noop mqtt = (λ h. cc, λ h. cc)
kind_eq_iff noop noop = (λ h. refl, λ h. refl)

or_true : (b : Bool) → (b || true) ≡ true
or_true true = refl
or_true false = refl

contains-Mem : (k : ForwarderKind) (xs : List ForwarderKind) → contains k xs ≡ true → Memᴰ k xs
unfolding contains
contains-Mem k [] h = cc
contains-Mem k (x ∷ xs) h = elim (Bool-cases (kind_eq x k)) [
  | inl e ↦ Memᴰ.head ((kind_eq_iff x k).0 e)
  | inr e ↦ Memᴰ.tail (contains-Mem k xs (ap (λ b. b || contains k xs) (sym e) ∙ h))
]

Mem-contains : (k : ForwarderKind) (xs : List ForwarderKind) → Memᴰ k xs → contains k xs ≡ true
unfolding contains
Mem-contains k [] m = elim m [ ]
Mem-contains k (x ∷ xs) (Memᴰ.head e) = ap (λ b. b || contains k xs) ((kind_eq_iff x k).1 e)
Mem-contains k (x ∷ xs) (Memᴰ.tail m) =
    ap (λ b. kind_eq x k || b) (Mem-contains k xs m) ∙ or_true (kind_eq x k)

contains_iff : (k : ForwarderKind) (xs : List ForwarderKind) → (contains k xs ≡ true) ↔ Memᴰ k xs
contains_iff k xs = (contains-Mem k xs, Mem-contains k xs)

is_blank_iff : (s : Bytes) → (is_blank s ≡ false) ↔ (trim s ≢ [])
is_blank_iff s = by_cases (trim s)
  where
    by_cases : (t : Bytes) → (is_empty t ≡ false) ↔ (t ≢ [])
    by_cases [] = (λ h. cc, λ h. elim (h refl) [ ])
    by_cases (x ∷ xs) = (λ h q. cc, λ h. refl)

-- A check passes when its test is false and the rest passes.
refuse_if_iff :
    {P Q : Type 0} (bad : Bool) (message : Bytes) (rest : Result (Unit {0}))
    → ((bad ≡ false) ↔ P)
    → ((rest ≡ ok tt) ↔ Q)
    → (refuse_if bad message rest ≡ ok tt) ↔ (P × Q)
refuse_if_iff true message rest p q = (λ h. cc, λ h. cc (p.1 h.0))
refuse_if_iff false message rest p q = (λ h. (p.0 refl, q.0 h), λ h. q.1 h.1)

-- The group of checks under a condition.
when_iff :
    {P Q : Type 0} (b : Bool) (checks rest : Result (Unit {0}))
    → ((checks ≡ ok tt) ↔ (P × Q))
    → ((rest ≡ ok tt) ↔ Q)
    → ((if b then checks else rest) ≡ ok tt) ↔ ((b ≡ true → P) × Q)
when_iff true checks rest p q = (λ h. (λ e. (p.0 h).0, (p.0 h).1), λ h. p.1 (h.0 refl, h.1))
when_iff false checks rest p q = (λ h. (λ e. cc, q.0 h), λ h. q.1 h.1)

either_iff : (a b : Bool) → ((not a && not b) ≡ false) ↔ ((a ≡ true) ⊎ (b ≡ true))
either_iff true b = (λ h. inl refl, λ h. refl)
either_iff false true = (λ h. inr refl, λ h. refl)
either_iff false false = (λ h. cc, λ h. elim h [ inl e ↦ cc | inr e ↦ cc ])

required_iff :
    (a b c : Bool) → ((a && not b && not c) ≡ false) ↔ (a ≡ true → (b ≡ true) ⊎ (c ≡ true))
required_iff true b c = (λ h e. (either_iff b c).0 h, λ h. (either_iff b c).1 (h refl))
required_iff false b c = (λ h e. cc, λ h. refl)

either_map : {P P' Q Q' : Type 0} → (P → P') → (Q → Q') → P ⊎ Q → P' ⊎ Q'
either_map f g (inl p) = inl (f p)
either_map f g (inr q) = inr (g q)

mode_iff :
    (mode : Bytes)
    → ((not (bytes_eq mode client_mode) && not (bytes_eq mode server_mode)) ≡ false)
      ↔ ((mode ≡ client_mode) ⊎ (mode ≡ server_mode))
mode_iff mode =
    let c = bytes_eq_iff mode client_mode in
    let s = bytes_eq_iff mode server_mode in
    let e = either_iff (bytes_eq mode client_mode) (bytes_eq mode server_mode) in
    (λ h. either_map c.0 s.0 (e.0 h), λ h. e.1 (either_map c.1 s.1 h))

broker_iff :
    (broker : Bytes) (forwarders : List ForwarderKind)
    → ((contains pulsar forwarders
          && not (starts_with pulsar_scheme broker)
          && not (starts_with pulsar_ssl_scheme broker))
        ≡ false)
      ↔ (Memᴰ pulsar forwarders
          → HasPrefix pulsar_scheme broker ⊎ HasPrefix pulsar_ssl_scheme broker)
broker_iff broker forwarders =
    let m = contains_iff pulsar forwarders in
    let p = starts_with_iff pulsar_scheme broker in
    let s = starts_with_iff pulsar_ssl_scheme broker in
    let r =
      required_iff (contains pulsar forwarders) (starts_with pulsar_scheme broker)
        (starts_with pulsar_ssl_scheme broker) in
    (λ h k. either_map p.0 s.0 (r.0 h (m.1 k)), λ h. r.1 (λ e. either_map p.1 s.1 (h (m.0 e))))

missing_iff :
    {A : Type 0} (b : Bool) (o : Option A)
    → ((b && (elim o [ none ↦ true | some a ↦ false ])) ≡ false)
      ↔ ((b ≡ false) ⊎ ((a : A) × (o ≡ some a)))
missing_iff false o = (λ h. inl refl, λ h. refl)
missing_iff true none = (λ h. inl h, λ h. elim h [ inl e ↦ e | inr (a, e) ↦ cc ])
missing_iff true (some a) = (λ h. inr (a, refl), λ h. refl)

off_iff : (n : ℕ) → (ltb 0 n ≡ false) ↔ (n ≡ 0)
off_iff n = (λ h. ground arith, λ h. ground arith)

port_iff :
    {A : Type 0} (port : ℕ) (o : Option A)
    → ((ltb 0 port && (elim o [ none ↦ true | some a ↦ false ])) ≡ false)
      ↔ ((port ≡ 0) ⊎ ((a : A) × (o ≡ some a)))
port_iff port o =
    let m = missing_iff (ltb 0 port) o in
    (
      λ h. either_map (off_iff port).0 (λ x. x) (m.0 h),
      λ h. m.1 (either_map (off_iff port).1 (λ x. x) h),
    )

size_iff : (n : ℕ) → ((n == 0) ≡ false) ↔ (1 ≤ n)
size_iff n = (λ h. ground arith, λ h. ground arith)

qos_iff : (n : ℕ) → (ltb 2 n ≡ false) ↔ (n ≤ 2)
qos_iff n = (λ h. ground arith, λ h. ground arith)

last_iff :
    {P : Type 0} (bad : Bool) (message : Bytes)
    → ((bad ≡ false) ↔ P)
    → (refuse_if bad message (ok tt) ≡ ok tt) ↔ P
last_iff true message p = (λ h. cc, λ h. cc (p.1 h))
last_iff false message p = (λ h. p.0 refl, λ h. refl)

validate_sizes_iff :
    {A : Type 0} (parse_ip : Bytes → Option A) (c : Config)
    → (validate_sizes parse_ip c ≡ ok tt)
      ↔ ((1 ≤ c.recv_buffer_size) × (1 ≤ c.max_line_buffer_size))
unfolding validate_sizes
validate_sizes_iff parse_ip c =
    refuse_if_iff _ _ _ (size_iff c.recv_buffer_size)
      (last_iff _ _ (size_iff c.max_line_buffer_size))

validate_mqtt_iff :
    {A Q : Type 0} (parse_ip : Bytes → Option A) (c : Config) (rest : Result (Unit {0}))
    → ((rest ≡ ok tt) ↔ Q)
    → (validate_mqtt parse_ip c rest ≡ ok tt) ↔ ((Memᴰ mqtt c.forwarders → MqttIsValid c) × Q)
unfolding validate_mqtt
validate_mqtt_iff {Q = Q} parse_ip c rest q =
    let m = contains_iff mqtt c.forwarders in
    let w =
      when_iff {P = MqttIsValid c} {Q = Q} (contains mqtt c.forwarders) _ rest
        (regroup (
          refuse_if_iff _ _ _ (is_blank_iff c.mqtt_broker) (
            refuse_if_iff _ _ _ (is_blank_iff c.mqtt_topic)
              (refuse_if_iff _ _ _ (qos_iff c.mqtt_qos) q))))
        q in
    (λ h. (λ k. (w.0 h).0 (m.1 k), (w.0 h).1), λ h. w.1 (λ e. h.0 (m.0 e), h.1))
  where
    regroup : {R P₁ P₂ P₃ Q : Type 0} → R ↔ (P₁ × (P₂ × (P₃ × Q))) → R ↔ ((P₁ × P₂ × P₃) × Q)
    regroup r = (
      λ h. let (a, (b, (d, q))) = r.0 h in ((a, b, d), q),
      λ h. let ((a, b, d), q) = h in r.1 (a, (b, (d, q))),
    )

-- `validate` accepts a configuration exactly when its source id is not blank, metrics are off or their
-- address is an IP address, the URL of the broker has one of Pulsar's schemes if Pulsar is a forwarder,
-- the broker and the topic are not blank and the QoS is at most 2 if MQTT is one, the mode is client or
-- server, and neither buffer size is zero.
pub validate-IsValid :
    {A : Type 0} (parse_ip : Bytes → Option A) (c : Config)
    → (validate parse_ip c ≡ ok tt) ↔ IsValid parse_ip c
unfolding validate bad_metrics bad_pulsar bad_mode metrics_bind_addr
validate-IsValid parse_ip c = refuse_if_iff _ _ _ (is_blank_iff c.source_id) (
    refuse_if_iff _ _ _ (port_iff c.metrics_port (parse_ip c.metrics_bind)) (
      refuse_if_iff _ _ _ (broker_iff c.pulsar_broker c.forwarders) (
        validate_mqtt_iff parse_ip c _
          (refuse_if_iff _ _ _ (mode_iff c.connection_mode) (validate_sizes_iff parse_ip c)))))
