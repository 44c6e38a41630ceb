-- ===== src/Error/Attempt.antt =====
-- What `attempt` makes of an invocation (include/vosp/error.hpp).
use micro_error_framework.Prelude.{
  ◌≡◌, refl, sym, ◌↔◌, [], ◌∷◌, ◌++◌, Text, arith, append-nil, append_assoc,
}
use micro_error_framework.Error.{
  Error, ok, err, Outcome, returned, threw_exception, threw_unknown, detail_of, describe, attempt,
}

-- `attempt` succeeds with a value exactly if the invocation returned that value.
pub attempt-ok_iff {ℓ} :
    {A : Type ℓ} (failure : Error) (o : Outcome A) (a : A)
    → (attempt failure o ≡ ok a) ↔ (o ≡ returned a)
unfolding attempt
attempt-ok_iff failure (returned b) a = (λ h. ground arith, λ h. ground arith)
attempt-ok_iff failure (threw_exception what) a = (λ h. cc, λ h. cc)
attempt-ok_iff failure threw_unknown a = (λ h. cc, λ h. cc)

-- What an invocation that did not return says of itself.
abbrev pub detail_thrown {ℓ} : {A : Type ℓ} → Outcome A → Text
detail_thrown (returned a) = []
detail_thrown (threw_exception what) = detail_of what
detail_thrown threw_unknown = []

-- The message begins with the caller's context and ends with the exception's own text.
pub record Describes (context detail message : Text) : Type 0 where
  pub rest : Text
  pub begins : message ≡ context ++ rest
  pub lead : Text
  pub ends : message ≡ lead ++ detail

describe-Describes : (context detail : Text) → Describes context detail (describe context detail)
unfolding describe
describe-Describes context [] = record {
  rest = [];
  begins = sym (append-nil context);
  lead = context;
  ends = sym (append-nil context);
}
describe-Describes [] (c ∷ s) = record { rest = c ∷ s; begins = refl; lead = []; ends = refl }
describe-Describes (d ∷ t) (c ∷ s) = record {
  rest = b':' ∷ b' ' ∷ c ∷ s;
  begins = refl;
  lead = (d ∷ t) ++ (b':' ∷ b' ' ∷ []);
  ends = sym (append_assoc (d ∷ t) (b':' ∷ b' ' ∷ []) (c ∷ s));
}

-- The error of a failed `attempt` has the category and the code of the caller's error, and its
-- message begins with the caller's message and ends with the text of the exception.
pub attempt-err {ℓ} :
    {A : Type ℓ} (failure : Error) (o : Outcome A) (e : Error)
    → attempt failure o ≡ err e
    → (e.category ≡ failure.category)
      × (e.code ≡ failure.code)
      × Describes failure.message (detail_thrown o) e.message
unfolding attempt
attempt-err failure (returned a) e h = cc
attempt-err failure (threw_exception what) e h =
    let same : record failure { message = describe failure.message (detail_of what) } ≡ e =
      ground arith in
    rw (← same) (refl, refl, describe-Describes failure.message (detail_of what))
attempt-err failure threw_unknown e h =
    let same : failure ≡ e = ground arith in
    rw (← same) (
      refl,
      refl,
      record {
        rest = [];
        begins = sym (append-nil failure.message);
        lead = failure.message;
        ends = sym (append-nil failure.message);
      },
    )
