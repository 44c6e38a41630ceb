-- ===== src/Pool/Slots/Refine.antt =====
-- The ring of include/vosp/worker_pool.hpp against the queue that it stands for.
use mathlib.Core.Option.{some-injective}
use micro_error_framework.Prelude.{
  ℕ, zero, suc, ◌+◌, ◌-◌, ◌≤◌, ◌<◌, ◌≡◌, refl, sym, ap, ap₂, ◌∙◌, ◌≢◌, Option, none, some, List, [],
  ◌∷◌, ◌++◌, arith, ltb, if◌then◌else◌, length, get_elem?, set, length-append, length-set,
  get_elem?-set_self, get_elem?-set_ne,
}
use micro_error_framework.Pool.Slots.{
  Ring, next_queue_index, replicate, create, emplace_tail, front, reset_head,
}

-- The index `n` slots further on.
abbrev advance : ℕ → ℕ → ℕ → ℕ
advance capacity index zero = index
advance capacity index (suc n) = advance capacity (next_queue_index capacity index) n

next_queue_index-lt :
    (capacity index : ℕ) → index < capacity → next_queue_index capacity index < capacity
unfolding next_queue_index
next_queue_index-lt capacity index h = ground arith

-- Round the ring at most once, the index is a sum, less the capacity if it passes the end.
advance_lem :
    (capacity index n : ℕ)
    → index < capacity
    → n < capacity
    → advance capacity index n
      ≡ (if ltb (index + n) capacity then index + n else index + n - capacity)
unfolding next_queue_index
advance_lem capacity index zero h k = ground arith
advance_lem capacity index (suc n) h k =
    ground (arith, advance_lem capacity (next_queue_index capacity index) n)

advance-suc :
    (capacity index n : ℕ)
    → advance capacity index (suc n) ≡ next_queue_index capacity (advance capacity index n)
advance-suc capacity index zero = refl
advance-suc capacity index (suc n) = advance-suc capacity (next_queue_index capacity index) n

-- Fewer than `capacity` slots apart, two indices differ.
advance-ne :
    (capacity index m n : ℕ)
    → index < capacity
    → m < n
    → n < capacity
    → advance capacity index m ≢ advance capacity index n
advance-ne capacity index m n h k l e =
    ground (arith, advance_lem capacity index m, advance_lem capacity index n)

advance-lt : (capacity index n : ℕ) → index < capacity → advance capacity index n < capacity
advance-lt capacity index zero h = h
advance-lt capacity index (suc n) h =
    advance-lt capacity (next_queue_index capacity index) n (next_queue_index-lt capacity index h)

module _ {ℓ} {A : Type ℓ} where
  -- The slots from `index` on hold the items of the list.
  abbrev Holds : List (Option A) → ℕ → ℕ → List A → Type ℓ
  Holds slots capacity index [] = Unit
  Holds slots capacity index (x ∷ xs) =
      (get_elem? slots index ≡ some (some x))
      × Holds slots capacity (next_queue_index capacity index) xs

  pub record Represents (r : Ring A) (queue : List A) : Type ℓ where
    pub sized : length r.slots ≡ r.capacity
    pub head_in : r.head < r.capacity
    pub bounded : length queue ≤ r.capacity
    pub ends : r.tail ≡ advance r.capacity r.head (length queue)
    pub holds : Holds r.slots r.capacity r.head queue

  -- A write outside the window leaves it alone.
  Holds-set :
      (slots : List (Option A)) (capacity index i : ℕ) (v : Option A) (xs : List A)
      → ((k : ℕ) → k < length xs → i ≢ advance capacity index k)
      → Holds slots capacity index xs
      → Holds (set slots i v) capacity index xs
  Holds-set slots capacity index i v [] far h = tt
  Holds-set slots capacity index i v (x ∷ xs) far h = (
    get_elem?-set_ne slots i index v (far 0 (omega arith)) ∙ h.0,
    Holds-set slots capacity (next_queue_index capacity index) i v xs
        (λ k lt. far (suc k) (omega arith)) h.1,
  )

  Holds-append :
      (slots : List (Option A)) (capacity index : ℕ) (xs : List A) (x : A)
      → Holds slots capacity index xs
      → get_elem? slots (advance capacity index (length xs)) ≡ some (some x)
      → Holds slots capacity index (xs ++ (x ∷ []))
  Holds-append slots capacity index [] x h e = (e, tt)
  Holds-append slots capacity index (y ∷ xs) x h e =
      (h.0, Holds-append slots capacity (next_queue_index capacity index) xs x h.1 e)

  length-replicate : (n : ℕ) (a : Option A) → length (replicate n a) ≡ n
  length-replicate zero a = refl
  length-replicate (suc n) a = ap suc (length-replicate n a)

  -- A fresh ring is empty.
  pub create-Represents : (capacity : ℕ) → 0 < capacity → Represents (create {A = A} capacity) []
  unfolding create
  create-Represents capacity h = record {
    sized = length-replicate capacity none;
    head_in = h;
    bounded = omega arith;
    ends = refl;
    holds = tt;
  }

  -- With a free slot, `emplace_tail` puts the item at the end of the queue.
  pub emplace_tail-Represents :
      (r : Ring A) (queue : List A) (x : A)
      → Represents r queue
      → length queue < r.capacity
      → Represents (emplace_tail r x) (queue ++ (x ∷ []))
  unfolding emplace_tail
  emplace_tail-Represents r queue x v h =
      let n = length queue in
      let c = r.capacity in
      let inside : r.tail < length r.slots =
        rw (v.ends, v.sized) (advance-lt c r.head n v.head_in) in
      let far : (k : ℕ) → k < n → r.tail ≢ advance c r.head k =
        λ k lt e. advance-ne c r.head k n v.head_in lt h (sym e ∙ v.ends) in
      let written : get_elem? (set r.slots r.tail (some x)) (advance c r.head n) ≡ some (some x) =
        rw (← v.ends) (get_elem?-set_self r.slots r.tail (some x) inside) in
      let longer = length-append queue (x ∷ []) in
      let grown : suc (length queue) ≡ length (queue ++ (x ∷ [])) = omega (arith, longer) in
      record {
        sized = length-set r.slots r.tail (some x) ∙ v.sized;
        head_in = v.head_in;
        bounded = omega (arith, longer);
        ends =
            ap (next_queue_index c) v.ends
            ∙ sym (advance-suc c r.head n)
            ∙ ap (advance c r.head) grown;
        holds =
            Holds-append (set r.slots r.tail (some x)) c r.head queue x
              (Holds-set r.slots c r.head r.tail (some x) queue far v.holds) written;
      }

  -- The front slot holds the oldest item, and resetting it leaves the rest.
  pub reset_head-Represents :
      (r : Ring A) (x : A) (queue : List A)
      → Represents r (x ∷ queue)
      → (front r ≡ some x) × Represents (reset_head r) queue
  unfolding front reset_head
  reset_head-Represents r x queue v =
      let c = r.capacity in
      let far : (k : ℕ) → k < length queue → r.head ≢ advance c (next_queue_index c r.head) k =
        λ k lt. advance-ne c r.head 0 (suc k) v.head_in (omega arith) (omega arith) in
      (
        rw (v.holds.0, front),
        record {
          sized = length-set r.slots r.head none ∙ v.sized;
          head_in = next_queue_index-lt c r.head v.head_in;
          bounded = omega arith;
          ends = v.ends;
          holds = Holds-set r.slots c (next_queue_index c r.head) r.head none queue far v.holds.1;
        },
      )

  Holds-unique :
      (slots : List (Option A)) (capacity index : ℕ) (xs ys : List A)
      → length xs ≡ length ys
      → Holds slots capacity index xs
      → Holds slots capacity index ys
      → xs ≡ ys
  Holds-unique slots capacity index [] [] e h k = refl
  Holds-unique slots capacity index [] (y ∷ ys) e h k = absurd (omega arith)
  Holds-unique slots capacity index (x ∷ xs) [] e h k = absurd (omega arith)
  Holds-unique slots capacity index (x ∷ xs) (y ∷ ys) e h k =
      let same : x ≡ y = some-injective _ _ (some-injective _ _ (sym h.0 ∙ k.0)) in
      let rest =
        Holds-unique slots capacity (next_queue_index capacity index) xs ys (omega arith) h.1 k.1 in
      ap₂ (λ z zs. z ∷ zs) same rest

  -- A ring stands for one queue of each length only.
  pub Represents-unique :
      (r : Ring A) (xs ys : List A)
      → Represents r xs
      → Represents r ys
      → length xs ≡ length ys
      → xs ≡ ys
  Represents-unique r xs ys v w e = Holds-unique r.slots r.capacity r.head xs ys e v.holds w.holds
