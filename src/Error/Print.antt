-- ===== src/Error/Print.antt =====
-- What the text of an error tells of it (include/vosp/error.hpp, `to_string`).
use micro_error_framework.Prelude.{
  ℕ, ◌≡◌, refl, sym, ap, ◌∙◌, ◌≢◌, [], ◌∷◌, ◌++◌, arith, ◌==◌, if◌then◌else◌, ==_iff, ==_refl, Text,
  drop, All,
}
use micro_error_framework.Prelude.Decimal.{
  decimal, value_from, value_from-decimal, IsDigit, decimal-IsDigit,
}
use micro_error_framework.Error.{
  Category, network, database, filesystem, no_category, unnamed, Error, category_name, to_string,
}

-- The category has an enumerator.
abbrev pub IsNamed : Category → Type 0
IsNamed (unnamed n) = ⊥
IsNamed _ = Unit {0}

-- The text before the first `c` and the text after it.
break_at : ℕ → Text → Text × Text
break_at c [] = ([], [])
break_at c (d ∷ s) =
    let (before, after) = break_at c s in if d == c then ([], s) else (d ∷ before, after)

break_at-append : (c : ℕ) (s t : Text) → All (λ d. d ≢ c) s → break_at c (s ++ (c ∷ t)) ≡ (s, t)
unfolding break_at
break_at-append c [] t h = ground (arith, ==_refl c)
break_at-append c (d ∷ s) t h = ground (arith, break_at-append c s t h.1, (==_iff d c).0)

category_name-no_colon : (c : Category) → All (λ d. d ≢ b':') (category_name c)
unfolding category_name
category_name-no_colon network = omega arith
category_name-no_colon database = omega arith
category_name-no_colon filesystem = omega arith
category_name-no_colon no_category = omega arith
category_name-no_colon (unnamed n) = omega arith

category_name-injective :
    (c d : Category) → IsNamed c → IsNamed d → category_name c ≡ category_name d → c ≡ d
unfolding category_name
category_name-injective network network m n h = refl
category_name-injective database database m n h = refl
category_name-injective filesystem filesystem m n h = refl
category_name-injective no_category no_category m n h = refl
category_name-injective (unnamed k) d m n h = absurd m
category_name-injective c (unnamed k) m n h = absurd n
category_name-injective _ _ m n h = cc

no_bracket : (s : Text) → All IsDigit s → All (λ d. d ≢ b']') s
no_bracket [] h = tt
no_bracket (c ∷ s) h = (omega arith, no_bracket s h.1)

-- The three fields, read back from the text.
read_name : Text → Text
read_name s = (break_at b':' (drop 1 s)).0

read_code : Text → ℕ
read_code s = value_from 0 (break_at b']' (break_at b':' (drop 1 s)).1).0

read_message : Text → Text
read_message s = drop 1 (break_at b']' (break_at b':' (drop 1 s)).1).1

read_fields :
    (e : Error)
    → (read_name (to_string e) ≡ category_name e.category)
      × (read_code (to_string e) ≡ e.code)
      × (read_message (to_string e) ≡ e.message)
unfolding to_string read_name read_code read_message
read_fields e =
    let colon =
      break_at-append b':' (category_name e.category) (decimal e.code ++ (b']' ∷ b' ' ∷ e.message))
        (category_name-no_colon e.category) in
    let bracket =
      break_at-append b']' (decimal e.code) (b' ' ∷ e.message)
        (no_bracket (decimal e.code) (decimal-IsDigit e.code)) in
    (
      ap (λ p. p.0) colon,
      ap (λ p. value_from 0 (break_at b']' p.1).0) colon
          ∙ ap (λ p. value_from 0 p.0) bracket
          ∙ value_from-decimal e.code,
      ap (λ p. drop 1 (break_at b']' p.1).1) colon ∙ ap (λ p. drop 1 p.1) bracket,
    )

-- Two errors whose categories have enumerators and that print alike are equal.
pub to_string-injective :
    (a b : Error) → IsNamed a.category → IsNamed b.category → to_string a ≡ to_string b → a ≡ b
to_string-injective a b m n h =
    let ra = read_fields a in
    let rb = read_fields b in
    let names : category_name a.category ≡ category_name b.category =
      sym ra.0 ∙ ap read_name h ∙ rb.0 in
    let codes_eq : a.code ≡ b.code = sym ra.1 ∙ ap read_code h ∙ rb.1 in
    let messages : a.message ≡ b.message = sym ra.2 ∙ ap read_message h ∙ rb.2 in
    let categories = category_name-injective a.category b.category m n names in
    λ i. record { message = messages i; code = codes_eq i; category = categories i }
