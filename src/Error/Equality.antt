-- ===== src/Error/Equality.antt =====
-- Equality of error values (include/vosp/error.hpp, `Error::operator==` and `ErrorHash`).
use micro_error_framework.Prelude.{ℕ, ◌≡◌, ◌↔◌, true, Text, text_eq_iff, arith, ap, text_eq_refl}
use micro_error_framework.Error.{Category, Error, category_eq, error_eq, error_hash}

category_eq_sound : (a b : Category) → category_eq a b ≡ true → a ≡ b
unfolding category_eq
category_eq_sound a b h = ground arith

pub category_eq_refl : (a : Category) → category_eq a a ≡ true
unfolding category_eq
category_eq_refl a = ground arith

pub category_eq_iff : (a b : Category) → (category_eq a b ≡ true) ↔ (a ≡ b)
category_eq_iff a b = (category_eq_sound a b, λ e. subst_refl a b e)
  where
    subst_refl : (c d : Category) → c ≡ d → category_eq c d ≡ true
    subst_refl c d e = ground (arith, category_eq_refl d)

error_eq_sound : (a b : Error) → error_eq a b ≡ true → a ≡ b
unfolding error_eq
error_eq_sound a b h =
    ground (arith, (text_eq_iff a.message b.message).0, category_eq_sound a.category b.category)

pub error_eq_refl : (a : Error) → error_eq a a ≡ true
unfolding error_eq
error_eq_refl a = ground (arith, text_eq_refl a.message, category_eq_refl a.category)

-- The defaulted comparison holds of two errors exactly if all their members are equal.
pub error_eq_iff : (a b : Error) → (error_eq a b ≡ true) ↔ (a ≡ b)
error_eq_iff a b = (error_eq_sound a b, λ e. ground (arith, error_eq_refl b))

-- Whatever the standard hash functions are, errors that compare equal have the same hash.
pub error_hash-eq :
    (hash_code : ℕ → ℕ) (hash_message : Text → ℕ) (hash_category : ℕ → ℕ) (a b : Error)
    → error_eq a b ≡ true
    → error_hash hash_code hash_message hash_category a
      ≡ error_hash hash_code hash_message hash_category b
error_hash-eq hash_code hash_message hash_category a b h =
    ap (error_hash hash_code hash_message hash_category) (error_eq_sound a b h)
