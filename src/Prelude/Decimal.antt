-- ===== src/Prelude/Decimal.antt =====
-- The decimal text of an unsigned number, as `std::format` and `std::to_chars` write it: no sign, no
-- leading zero. Fuel bounds the digits; a number has fewer than its value plus one.
use Prim.Native.Nat.{ℕ, zero, suc, ◌+◌, ◌*◌, ◌-◌, ◌/◌, ◌%◌, ◌^◌, ◌≤◌, ◌<◌}
use mathlib.Core.Path.{◌≡◌, refl}
use mathlib.Core.List.{[], ◌∷◌, ◌++◌}
use native.Mathlib.Omega.{arith}
use native.Mathlib.Nat.{pow-suc}
use mathlib.Core.Logic.{inl, inr}
use mathlib.Core.List.{List}
use micro_error_framework.Prelude.Tests.{Text, ltb, if◌then◌else◌, Bool-cases, ltb→lt}
use micro_error_framework.Prelude.Lists.{length, length-append, All}

-- The digits of `n`, most significant first.
unfoldable pub digits : ℕ → ℕ → Text
digits zero n = []
digits (suc f) n =
    let rest = digits f (n / 10) ++ ((b'0' + n % 10) ∷ []) in
    if ltb n 10 then (b'0' + n) ∷ [] else rest

unfoldable pub decimal : ℕ → Text
unfolding digits
decimal n = digits (n + 1) n

-- The number that a digit string stands for.
unfoldable pub value_from : ℕ → Text → ℕ
value_from acc [] = acc
value_from acc (c ∷ s) = value_from (acc * 10 + (c - b'0')) s

value_from-append :
    (acc : ℕ) (s : Text) (c : ℕ)
    → value_from acc (s ++ (c ∷ [])) ≡ value_from acc s * 10 + (c - b'0')
unfolding value_from
value_from-append acc [] c = refl
value_from-append acc (d ∷ s) c = value_from-append (acc * 10 + (d - b'0')) s c

value_from-digits : (f n : ℕ) → n < f → value_from 0 (digits f n) ≡ n
unfolding digits value_from
value_from-digits zero n h = elim h [ ]
value_from-digits (suc f) n h =
    ground
      (arith, value_from-append 0 (digits f (n / 10)) (b'0' + n % 10), value_from-digits f (n / 10))

-- Reading a printed number gives it back.
pub value_from-decimal : (n : ℕ) → value_from 0 (decimal n) ≡ n
unfolding decimal
value_from-decimal n = value_from-digits (n + 1) n (omega arith)

pow-suc_ten : (k : ℕ) → 10 ^ suc k ≡ 10 * 10 ^ k
pow-suc_ten k = omega (arith, pow-suc 10 k)

length-digits-le : (k f n : ℕ) → n < 10 ^ suc k → length (digits f n) ≤ suc k
unfolding digits
length-digits-le k zero n h = omega arith
length-digits-le zero (suc f) n h = ground arith
length-digits-le (suc k) (suc f) n h = ground (
  arith,
  pow-suc_ten (suc k),
  length-append (digits f (n / 10)) ((b'0' + n % 10) ∷ []),
  length-digits-le k f (n / 10),
)

-- A 32-bit number has at most ten digits.
pub length-decimal-le : (n : ℕ) → n < 2 ^ 32 → length (decimal n) ≤ 10
unfolding decimal
length-decimal-le n h = length-digits-le 9 (n + 1) n (omega arith)

abbrev pub IsDigit : ℕ → Type 0
IsDigit c = (b'0' ≤ c) × (c ≤ b'9')

All-append {ℓ κ} :
    {A : Type ℓ} (P : A → Type κ) (xs ys : List A) → All P xs → All P ys → All P (xs ++ ys)
All-append P [] ys hx hy = hy
All-append P (x ∷ xs) ys hx hy = (hx.0, All-append P xs ys hx.1 hy)

digits-IsDigit : (f n : ℕ) → All IsDigit (digits f n)
unfolding digits
digits-IsDigit zero n = tt
digits-IsDigit (suc f) n = elim (Bool-cases (ltb n 10)) [
  | inl small ↦ rw small (omega (arith, ltb→lt n 10 small))
  | inr large ↦
      rw large (All-append IsDigit (digits f (n / 10)) _ (digits-IsDigit f (n / 10)) (omega arith))
]

-- A printed number is made of digits.
pub decimal-IsDigit : (n : ℕ) → All IsDigit (decimal n)
unfolding decimal
decimal-IsDigit n = digits-IsDigit (n + 1) n
