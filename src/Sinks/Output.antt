-- ===== src/Sinks/Output.antt =====
-- Writes to a stream, and the immediate sink (include/vosp/logger.hpp, `Sink<Immediate>`).
use micro_error_framework.Prelude.{
  ℕ, zero, suc, ◌-◌, ◌≤◌, ◌<◌, min, ◌≡◌, refl, sym, ap, ◌∙◌, inl, inr, true, false, List, [], ◌∷◌,
  ◌++◌, append-nil, append_assoc, arith, dec_lt, ltb, Bool-cases, Text, length, take, drop,
  length-append, length-drop, take-append-drop,
}
use micro_error_framework.Logger.{LogEntry}
use micro_error_framework.Logger.Lines.{line, header, prepare_text_record, prefix_capacity}
use micro_error_framework.Sinks.{
  Stream, write_chars, is_good, maximum_chunk, write_view, write_immediate,
}

take-all : {A : Type 0} (n : ℕ) (xs : List A) → length xs ≤ n → take n xs ≡ xs
take-all zero [] h = refl
take-all zero (x ∷ xs) h = absurd (omega arith)
take-all (suc n) [] h = refl
take-all (suc n) (x ∷ xs) h = ap (λ l. x ∷ l) (take-all n xs (omega arith))

take-append_fits :
    {A : Type 0} (n : ℕ) (xs ys : List A)
    → length xs ≤ n
    → take n (xs ++ ys) ≡ xs ++ take (n - length xs) ys
take-append_fits n [] ys h = let same : n ≡ n - 0 = omega arith in ap (λ k. take k ys) same
take-append_fits zero (x ∷ xs) ys h = absurd (omega arith)
take-append_fits (suc n) (x ∷ xs) ys h =
    let same : n - length xs ≡ suc n - suc (length xs) = omega arith in
    ap (λ l. x ∷ l) (take-append_fits n xs ys (omega arith) ∙ ap (λ k. xs ++ take k ys) same)

take-append_over :
    {A : Type 0} (n : ℕ) (xs ys : List A) → n < length xs → take n (xs ++ ys) ≡ take n xs
take-append_over n [] ys h = absurd (omega arith)
take-append_over zero (x ∷ xs) ys h = refl
take-append_over (suc n) (x ∷ xs) ys h = ap (λ l. x ∷ l) (take-append_over n xs ys (omega arith))

-- A stream after a write, by its state before.
write_chars-failed : (s : Stream) (a : Text) → s.failed ≡ true → write_chars s a ≡ s
unfolding write_chars
write_chars-failed s a h = rw (h) refl

write_chars-fits :
    (s : Stream) (a : Text)
    → s.failed ≡ false
    → length a ≤ s.room
    → write_chars s a ≡ record s { written = s.written ++ a; room = s.room - length a }
unfolding write_chars
write_chars-fits s a h l = ground (arith, h, l)

write_chars-over :
    (s : Stream) (a : Text)
    → s.failed ≡ false
    → s.room < length a
    → write_chars s a ≡ record s { written = s.written ++ take s.room a; room = 0; failed = true }
unfolding write_chars
write_chars-over s a h l = ground (arith, h, l)

same_stream : (s : Stream) → record s { written = s.written ++ []; room = s.room - 0 } ≡ s
same_stream s =
    let same : s.room - 0 ≡ s.room = omega arith in
    λ i. record s { written = append-nil s.written i; room = same i }

pub write_chars-nil : (s : Stream) → write_chars s [] ≡ s
write_chars-nil s = elim (Bool-cases s.failed) [
  | inl y ↦ write_chars-failed s [] y
  | inr n ↦ write_chars-fits s [] n (omega arith) ∙ same_stream s
]

-- Two writes in a row are one write of both texts, whatever the state of the stream.
pub write_chars-append :
    (s : Stream) (a b : Text) → write_chars (write_chars s a) b ≡ write_chars s (a ++ b)
write_chars-append s a b = elim (Bool-cases s.failed) [
  | inl y ↦
      ap (λ q. write_chars q b) (write_chars-failed s a y)
      ∙ write_chars-failed s b y
      ∙ sym (write_chars-failed s (a ++ b) y)
  | inr n ↦ elim (dec_lt s.room (length a)) [
    | yes over ↦
        let full = record s { written = s.written ++ take s.room a; room = 0; failed = true } in
        let both : s.room < length (a ++ b) = omega (arith, over, length-append a b) in
        ap (λ q. write_chars q b) (write_chars-over s a n over)
        ∙ write_chars-failed full b refl
        ∙ ap (λ t. record full { written = s.written ++ t })
            (sym (take-append_over s.room a b over))
        ∙ sym (write_chars-over s (a ++ b) n both)
    | no fits ↦
        let one = record s { written = s.written ++ a; room = s.room - length a } in
        ap (λ q. write_chars q b) (write_chars-fits s a n (omega (arith, fits)))
        ∙ (elim (dec_lt one.room (length b)) [
          | yes over ↦
              let both : s.room < length (a ++ b) = omega (arith, over, fits, length-append a b) in
              write_chars-over one b n over
              ∙ ap (λ t. record s { written = t; room = 0; failed = true })
                  (append_assoc s.written a (take (s.room - length a) b)
                    ∙ ap (λ t. s.written ++ t)
                        (sym (take-append_fits s.room a b (omega (arith, fits)))))
              ∙ sym (write_chars-over s (a ++ b) n both)
          | no both ↦
              let l : length (a ++ b) ≤ s.room = omega (arith, both, fits, length-append a b) in
              let left : s.room - length a - length b ≡ s.room - length (a ++ b) =
                omega (arith, length-append a b) in
              write_chars-fits one b n (omega (arith, both))
              ∙ (λ i. record s { written = append_assoc s.written a b i; room = left i })
              ∙ sym (write_chars-fits s (a ++ b) n l)
        ])
  ]
]

write_view-failed :
    (fuel : ℕ) (s : Stream) (text : Text) → s.failed ≡ true → write_view (suc fuel) s text ≡ s
unfolding write_view is_good
write_view-failed fuel s text h = ground (arith, h)

write_view-step :
    (fuel : ℕ) (s : Stream) (c : ℕ) (t : Text)
    → s.failed ≡ false
    → write_view (suc fuel) s (c ∷ t)
      ≡ write_view fuel
          (write_chars s (take (min (suc (length t)) maximum_chunk) (c ∷ t)))
          (drop (min (suc (length t)) maximum_chunk) (c ∷ t))
unfolding write_view is_good
write_view-step fuel s c t h = ground (arith, h)

-- The loop of `write_view` writes all of the text, if the fuel is at least its length.
pub write_view-enough :
    (fuel : ℕ) (s : Stream) (text : Text)
    → length text ≤ fuel
    → write_view fuel s text ≡ write_chars s text
unfolding write_view is_good
write_view-enough zero s [] h = sym (write_chars-nil s)
write_view-enough zero s (c ∷ t) h = absurd (omega arith)
write_view-enough (suc fuel) s [] h = sym (write_chars-nil s)
write_view-enough (suc fuel) s (c ∷ t) h = elim (Bool-cases s.failed) [
  | inl y ↦ write_view-failed fuel s (c ∷ t) y ∙ sym (write_chars-failed s (c ∷ t) y)
  | inr n ↦
      let text = c ∷ t in
      let k = min (length text) maximum_chunk in
      let left : length (drop k text) ≤ fuel = omega (arith, length-drop k text) in
      write_view-step fuel s c t n
      ∙ write_view-enough fuel (write_chars s (take k text)) (drop k text) left
      ∙ write_chars-append s (take k text) (drop k text)
      ∙ ap (write_chars s) (take-append-drop k text)
]

-- The immediate sink gives the stream the record's line, whether or not the message fits the
-- buffer, and answers whether the stream is good afterwards.
pub write_immediate_lem :
    (s : Stream) (entry : LogEntry)
    → write_immediate s entry ≡ (write_chars s (line entry), is_good (write_chars s (line entry)))
unfolding write_immediate prepare_text_record
write_immediate_lem s entry =
    let m = entry.error.message in
    elim (Bool-cases (ltb (length m) (prefix_capacity - length (header entry)))) [
      | inl y ↦ rw (y) refl
      | inr n ↦
          let same : write_chars (write_view (length m) (write_chars s (header entry)) m)
                (b'\n' ∷ [])
              ≡ write_chars s (line entry) =
            ap (λ q. write_chars q (b'\n' ∷ []))
              (write_view-enough (length m) (write_chars s (header entry)) m (omega arith))
            ∙ write_chars-append (write_chars s (header entry)) m (b'\n' ∷ [])
            ∙ write_chars-append s (header entry) (m ++ (b'\n' ∷ [])) in
          rw (n) (ap (λ q. (q, is_good q)) same)
    ]
