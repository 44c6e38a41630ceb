-- ===== src/Fuzz/Target.antt =====
-- What the fuzz target of fuzz/vosp_error_fuzzer.cpp finds.
use micro_error_framework.Prelude.{
  ℕ, ◌+◌, ◌*◌, ◌%◌, ◌^◌, ◌≡◌, refl, ◌∙◌, inl, inr, Option, some, List, [], ◌∷◌, arith, ◌==◌,
  Bool-cases, Option-cases, Text, length, get_elem?, take, drop, length-set, All,
}
use micro_error_framework.Error.{network, database, filesystem, category_eq, Error, OperationResult}
use micro_error_framework.Error.Equality.{error_eq_refl}
use micro_error_framework.Register
use micro_error_framework.Register.{Register}
use micro_error_framework.Register.Invariant.{IsValid, step-IsValid, construct-IsValid}
use micro_error_framework.Handler
use micro_error_framework.Handler.{adds, removes, Operation, dispatch, invoke}
use micro_error_framework.Handler.Routing.{IsBound}
use micro_error_framework.Handler.Registers.{register_methods, dispatch-answers}
use micro_error_framework.Systems.{sync_add, sync_remove}
use micro_error_framework.Fuzz.{
  decode_category, references, system_add, system_remove, add_and_remove, transition, transitions,
  ended, test_one_input, second_byte,
}

length-dispatch :
    (store : List Register) (places : List ℕ) (e : Error) (operation : Operation)
    (store' : List Register) (result : OperationResult)
    → dispatch register_methods store places e operation ≡ some (store', result)
    → length store' ≡ length store
unfolding dispatch
length-dispatch store [] e operation store' result h = ground (arith, h)
length-dispatch store (i ∷ places) e operation store' result h =
    elim (Option-cases (get_elem? store i)) [
      | inl missing ↦ ground (arith, h, missing)
      | inr (r, at) ↦
          let call = invoke register_methods operation r e in
          elim (Bool-cases (category_eq r.category e.category)) [
            | inl same ↦ ground (arith, h, at, same, length-set store i call.0)
            | inr other ↦
                let rest : dispatch register_methods store places e operation
                    ≡ some (store', result) =
                  ground (arith, h, at, other) in
                length-dispatch store places e operation store' result rest
          ]
    ]

-- Three valid registers, as a result.
pub record Held (result : Option (List Register)) : Type 0 where
  pub store : List Register
  pub done : result ≡ some store
  pub valid : All IsValid store
  pub three : length store ≡ 3

system-IsBound :
    (store : List Register) → length store ≡ 3 → IsBound register_methods store references
system-IsBound store h = (omega arith, (omega arith, (omega arith, tt)))

system_add-Held :
    (store : List Register) (e : Error)
    → All IsValid store
    → length store ≡ 3
    → Held (system_add store e)
unfolding system_add sync_add Handler.add
system_add-Held store e v three =
    let (store', result, done, valid, answer) =
      dispatch-answers store references e adds (system-IsBound store three) v in
    record {
      store = store';
      done = rw (done, system_add) refl;
      valid = valid;
      three = length-dispatch store references e adds store' result done ∙ three;
    }

system_remove-Held :
    (store : List Register) (e : Error)
    → All IsValid store
    → length store ≡ 3
    → Held (system_remove store e)
unfolding system_remove sync_remove Handler.remove
system_remove-Held store e v three =
    let (store', result, done, valid, answer) =
      dispatch-answers store references e removes (system-IsBound store three) v in
    record {
      store = store';
      done = rw (done, system_remove) refl;
      valid = valid;
      three = length-dispatch store references e removes store' result done ∙ three;
    }

add_and_remove-Held :
    (store : List Register) (e : Error)
    → All IsValid store
    → length store ≡ 3
    → Held (add_and_remove store e)
unfolding add_and_remove Register.step
add_and_remove-Held [] e v three = absurd (omega arith)
add_and_remove-Held (r ∷ store) e v three = record {
  store = (Register.remove (Register.add r e).0 e).0 ∷ store;
  done = refl;
  valid = (
    step-IsValid (Register.add r e).0 (Register.removes e) (step-IsValid r (Register.adds e) v.0),
    v.1,
  );
  three = three;
}

transition-Held :
    (store : List Register) (byte : ℕ) (e : Error)
    → All IsValid store
    → length store ≡ 3
    → Held (transition store byte e)
unfolding transition
transition-Held store byte e v three =
    let once = system_add-Held store e v three in
    let twice = system_add-Held once.store e once.valid once.three in
    elim (Bool-cases (byte % 4 == 0)) [
      | inl a ↦ rw (a) once
      | inr a ↦ elim (Bool-cases (byte % 4 == 1)) [
        | inl b ↦ rw (a, b) (system_remove-Held store e v three)
        | inr b ↦ elim (Bool-cases (byte % 4 == 2)) [
          | inl c ↦ rw (a, b, c, once.done) twice
          | inr c ↦ rw (a, b, c) (add_and_remove-Held store e v three)
        ]
      ]
    ]

transitions-Held :
    (code : ℕ) (message : Text) (index : ℕ) (bytes : List ℕ) (store : List Register)
    → All IsValid store
    → length store ≡ 3
    → Held (transitions code message index bytes store)
unfolding transitions
transitions-Held code message index [] store v three = record {
  store = store;
  done = refl;
  valid = v;
  three = three;
}
transitions-Held code message index (byte ∷ bytes) store v three =
    let e : Error = record {
      message = message;
      code = (code + index) % 2 ^ 32;
      category = decode_category byte;
    } in
    let once = transition-Held store byte e v three in
    rw (once.done, transitions)
      (transitions-Held code message (index + 1) bytes once.store once.valid once.three)

abbrev registers : List Register
registers =
    record { category = network; capacity_limit = 64; errors = [] }
    ∷ record { category = database; capacity_limit = 64; errors = [] }
    ∷ record { category = filesystem; capacity_limit = 64; errors = [] }
    ∷ []

registers-IsValid : All IsValid registers
unfolding Register.construct
registers-IsValid = (
  construct-IsValid network 16 64 _ refl,
  (construct-IsValid database 16 64 _ refl, (construct-IsValid filesystem 16 64 _ refl, tt)),
)

-- For every input the fuzz target comes to its end, without the trap, without an exception of a
-- constructor and without a dangling reference; and at the end every register is valid.
pub test_one_input_lem :
    (bytes : List ℕ)
    → (store : List Register) × (test_one_input bytes ≡ ended store) × All IsValid store
unfolding test_one_input
test_one_input_lem [] = ([], refl, tt)
test_one_input_lem (byte ∷ bytes) =
    let message = take (16 * 1024) (drop 1 bytes) in
    let error : Error = record {
      message = message;
      code = second_byte bytes;
      category = decode_category byte;
    } in
    let run =
      transitions-Held (second_byte bytes) (take 8 message) 2 (take 64 (drop 1 bytes)) registers
        registers-IsValid refl in
    (run.store, rw (error_eq_refl error, run.done) refl, run.valid)
