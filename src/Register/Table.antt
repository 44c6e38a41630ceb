-- ===== src/Register/Table.antt =====
-- `std::unordered_map<std::uint32_t, Value>` as far as Register uses it (include/vosp/error.hpp):
-- an association list, whose order is the iteration order.
use micro_error_framework.Prelude.{
  ℕ, ◌+◌, ◌≡◌, refl, inl, inr, Bool, true, false, Option, none, some, List, [], ◌∷◌, arith, ◌==◌,
  if◌then◌else◌, ==_iff, Bool-cases, is_some, length, All,
}

module _ {ℓ} {V : Type ℓ} where
  -- `find(key)`; `none` is `end()`.
  unfoldable pub lookup : ℕ → List (ℕ × V) → Option V
  lookup k [] = none
  lookup k ((j, v) ∷ t) = if j == k then some v else lookup k t

  -- `contains(key)`
  unfoldable pub contains : ℕ → List (ℕ × V) → Bool
  unfolding lookup
  contains k t = is_some (lookup k t)

  -- `try_emplace(key, value)`: nothing happens if the key is there.
  unfoldable pub try_emplace : ℕ → V → List (ℕ × V) → List (ℕ × V) × Bool
  unfolding contains
  try_emplace k v t = if contains k t then (t, false) else ((k, v) ∷ t, true)

  -- `erase(key)`, and `erase(iterator)` at the key.
  unfoldable pub erase : ℕ → List (ℕ × V) → List (ℕ × V)
  erase k [] = []
  erase k ((j, v) ∷ t) = if j == k then t else (j, v) ∷ erase k t

  -- No key occurs twice.
  abbrev pub HasDistinctKeys : List (ℕ × V) → Type ℓ
  HasDistinctKeys [] = Unit
  HasDistinctKeys ((k, v) ∷ t) = (lookup k t ≡ none) × HasDistinctKeys t

  pub lookup-cons :
      (k j : ℕ) (v : V) (t : List (ℕ × V))
      → lookup j ((k, v) ∷ t) ≡ (if k == j then some v else lookup j t)
  unfolding lookup
  lookup-cons k j v t = refl

  -- An erased key is gone, and no other key is touched.
  pub lookup-erase :
      (k j : ℕ) (t : List (ℕ × V))
      → HasDistinctKeys t
      → lookup j (erase k t) ≡ (if k == j then none else lookup j t)
  unfolding lookup erase
  lookup-erase k j [] d = ground arith
  lookup-erase k j ((i, v) ∷ t) d = ground (arith, lookup-erase k j t d.1)

  pub erase-HasDistinctKeys :
      (k : ℕ) (t : List (ℕ × V)) → HasDistinctKeys t → HasDistinctKeys (erase k t)
  unfolding erase
  erase-HasDistinctKeys k [] d = tt
  erase-HasDistinctKeys k ((i, v) ∷ t) d =
      ground (arith, erase-HasDistinctKeys k t d.1, lookup-erase k i t d.1)

  -- An erasure removes one entry if the key is there, and none otherwise.
  pub length-erase :
      (k : ℕ) (t : List (ℕ × V)) → length t ≡ length (erase k t) + (if contains k t then 1 else 0)
  unfolding erase contains
  length-erase k [] = omega arith
  length-erase k ((i, v) ∷ t) = ground (arith, length-erase k t)

  pub erase-All {κ} : (P : ℕ × V → Type κ) (k : ℕ) (t : List (ℕ × V)) → All P t → All P (erase k t)
  unfolding erase
  erase-All P k [] h = tt
  erase-All P k ((i, v) ∷ t) h = elim (Bool-cases (i == k)) [
    | inl e ↦ rw e h.1
    | inr e ↦ rw e (h.0, erase-All P k t h.1)
  ]

  pub lookup-All {κ} :
      (P : ℕ × V → Type κ) (k : ℕ) (t : List (ℕ × V)) (v : V)
      → All P t
      → lookup k t ≡ some v
      → P (k, v)
  unfolding lookup
  lookup-All P k [] v h e = cc
  lookup-All P k ((i, w) ∷ t) v h e = elim (Bool-cases (i == k)) [
    | inl q ↦
        let here : w ≡ v = ground arith in
        let same : i ≡ k = (==_iff i k).0 q in rw (← here, ← same) h.0
    | inr q ↦ lookup-All P k t v h.1 (ground arith)
  ]
