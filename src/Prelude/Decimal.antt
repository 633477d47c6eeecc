-- ===== src/Prelude/Decimal.antt =====
-- Numbers as `Display` writes them in base ten, and read back.
use Prim.Native.Nat.{ℕ, zero, suc, ◌+◌, ◌-◌, ◌*◌, ◌/◌, ◌%◌, ◌≤◌, ◌<◌}
use mathlib.Core.Path.{◌≡◌, refl}
use mathlib.Core.List.{[], ◌∷◌, ◌++◌}
use native.Mathlib.Omega.{arith}
use adsb_feed.Prelude.Tests.{ltb, if◌then◌else◌, if_cases, tests}
use adsb_feed.Prelude.Lists.{Bytes, All, All-append}

-- The decimal digits of a number, as `Display` writes them; the fuel is above the number.
unfoldable pub digits : ℕ → ℕ → Bytes
digits zero n = []
digits (suc fuel) n =
    let front = digits fuel (n / 10) in
    if ltb n 10 then (b'0' + n) ∷ [] else front ++ (b'0' + n % 10) ∷ []

abbrev pub decimal : ℕ → Bytes
decimal n = digits (suc n) n

-- Reading digits behind a value.
abbrev pub read : ℕ → Bytes → ℕ
read n [] = n
read n (c ∷ cs) = read (n * 10 + (c - b'0')) cs

read-append : (n : ℕ) (xs ys : Bytes) → read n (xs ++ ys) ≡ read (read n xs) ys
read-append n [] ys = refl
read-append n (x ∷ xs) ys = read-append (n * 10 + (x - b'0')) xs ys

pub read-digits : (fuel n : ℕ) → n < fuel → read 0 (digits fuel n) ≡ n
unfolding digits
read-digits zero n h = absurd (omega arith)
read-digits (suc fuel) n h =
    let front = digits fuel (n / 10) in
    let last = read-append 0 front ((b'0' + n % 10) ∷ []) in
    ground (arith, last, read-digits fuel (n / 10))

abbrev pub IsDigit : ℕ → Type 0
IsDigit c = (b'0' ≤ c) × (c ≤ b'9')

pub digits-IsDigit : (fuel n : ℕ) → All IsDigit (digits fuel n)
unfolding digits
digits-IsDigit zero n = tt
digits-IsDigit (suc fuel) n =
    if_cases (All IsDigit) (ltb n 10) _ _ (λ e. ((omega arith, omega (tests, e)), tt))
      λ e. All-append IsDigit _ _ (digits-IsDigit fuel (n / 10)) ((omega arith, omega arith), tt)
