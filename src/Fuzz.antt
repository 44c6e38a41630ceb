-- ===== src/Fuzz.antt =====
-- fuzz/vosp_error_fuzzer.cpp: the fuzz target, over the registers and the system of
-- include/vosp/error.hpp.
pub mod Target
mod Tests
use micro_error_framework.Prelude.{
  ℕ, zero, suc, ◌+◌, ◌-◌, ◌*◌, ◌/◌, ◌%◌, ◌^◌, ◌≤◌, ◌<◌, min, compare, Ordering, bit_xor, String,
  ◌≡◌, refl, sym, ap, ap₂, subst, fun_ext, ◌∙◌, ◌≡⟨◌⟩◌, ◌∎, ◌≢◌, ◌↔◌, ◌⊎◌, inl, inr, Bool, true,
  false, not, ◌&&◌, ◌||◌, Option, none, some, List, [], ◌∷◌, ◌++◌, map, append-nil, append_assoc,
  arith, dec_lt, ℕ_discrete, ltb, leb, ◌==◌, if◌then◌else◌, ltb→lt, lt→ltb, leb→le, ==_iff, ==_refl,
  Bool-cases, Option-cases, is_some, Text, codes, text_eq, text_eq_refl, text_eq_iff, length,
  get_elem?, set, take, drop, length-append, length-set, get_elem?-set_self, get_elem?-set_ne,
  length-take, length-drop, take-append-drop, length-map, All, All-map, All-implies,
}
use micro_error_framework.Error.{
  Category, network, database, filesystem, no_category, unnamed, Error, error_eq, returned,
}
use micro_error_framework.Register
use micro_error_framework.Register.{Register, construct}
use micro_error_framework.Handler.Registers.{register_methods}
use micro_error_framework.Systems.{sync_add, sync_remove}

unfoldable pub decode_category : ℕ → Category
decode_category value =
    if value % 5 == 0
    then network
    else if value % 5 == 1
    then database
    else if value % 5 == 2
    then filesystem
    else if value % 5 == 3
    then no_category
    else unnamed 0x7ffe

-- The three registers, and the references of the system to them.
abbrev pub references : List ℕ
references = 0 ∷ 1 ∷ 2 ∷ []

-- The constructors of the registers; `none` is an exception.
unfoldable pub construct_registers : Option (List Register)
unfolding construct
construct_registers = elim (construct network 16 64) [
  | returned a ↦ elim (construct database 16 64) [
    | returned b ↦ elim (construct filesystem 16 64) [
      | returned c ↦ some (a ∷ b ∷ c ∷ [])
      | _ ↦ none
    ]
    | _ ↦ none
  ]
  | _ ↦ none
]

unfoldable pub system_add : List Register → Error → Option (List Register)
unfolding sync_add
system_add store error = elim (sync_add register_methods store references error) [
  | none ↦ none
  | some (store', result) ↦ some store'
]

unfoldable pub system_remove : List Register → Error → Option (List Register)
unfolding sync_remove
system_remove store error = elim (sync_remove register_methods store references error) [
  | none ↦ none
  | some (store', result) ↦ some store'
]

-- `network.add` and `network.remove`, past the system.
unfoldable pub add_and_remove : List Register → Error → Option (List Register)
unfolding Register.add Register.remove
add_and_remove store error = elim (get_elem? store 0) [
  | none ↦ none
  | some r ↦ some (set store 0 (Register.remove (Register.add r error).0 error).0)
]

-- The body of the loop: what the byte selects.
unfoldable pub transition : List Register → ℕ → Error → Option (List Register)
unfolding system_add system_remove add_and_remove
transition store byte error =
    if byte % 4 == 0
    then system_add store error
    else if byte % 4 == 1
    then system_remove store error
    else if byte % 4 == 2
    then elim (system_add store error) [ none ↦ none | some store' ↦ system_add store' error ]
    else add_and_remove store error

-- The loop, on the bytes from `index` on.
unfoldable pub transitions : ℕ → Text → ℕ → List ℕ → List Register → Option (List Register)
unfolding decode_category transition
transitions code message index [] store = some store
transitions code message index (byte ∷ bytes) store =
    let error : Error = record {
      message = message;
      code = (code + index) % 2 ^ 32;
      category = decode_category byte;
    } in
    elim (transition store byte error) [
      | none ↦ none
      | some store' ↦ transitions code message (index + 1) bytes store'
    ]

abbrev pub second_byte : List ℕ → ℕ
second_byte [] = 0
second_byte (byte ∷ bytes) = byte

-- How a run ends: with the value 0, by the trap, or in what C++ leaves undefined or by an exception.
pub data Ending : Type 0 where
  ended : List Register → Ending
  trapped broken : Ending

-- `LLVMFuzzerTestOneInput`
unfoldable pub test_one_input : List ℕ → Ending
unfolding decode_category error_eq construct_registers transitions
test_one_input [] = ended []
test_one_input (byte ∷ bytes) =
    let category = decode_category byte in
    let code = second_byte bytes in
    let message = take (16 * 1024) (drop 1 bytes) in
    let error : Error = record { message = message; code = code; category = category } in
    let copy : Error = record { message = message; code = code; category = category } in
    if not (error_eq error copy) || not (error_eq error copy)
    then trapped
    else elim construct_registers [
      | none ↦ broken
      | some store ↦ elim (transitions code (take 8 message) 2 (take 64 (drop 1 bytes)) store) [
        | none ↦ broken
        | some store' ↦ ended store'
      ]
    ]
