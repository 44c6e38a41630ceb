-- ===== src/Sinks/Steps/Invariant.antt =====
-- What holds of the buffered sink of include/vosp/logger.hpp between any two of its steps.
use micro_error_framework.Prelude.{
  ℕ, ◌-◌, ◌≡◌, refl, sym, ap, ap₂, ◌∙◌, inl, inr, some, List, [], ◌∷◌, ◌++◌, append-nil,
  append_assoc, arith, ltb, ◌==◌, if◌then◌else◌, ==_iff, Bool-cases, Text, length, get_elem?, set,
}
use micro_error_framework.Logger.{LogEntry}
use micro_error_framework.Logger.Lines.{line, header, prepare_text_record, prefix_capacity}
use micro_error_framework.Sinks.{
  Stream, write_chars, is_good, Shard, flush_shard, append_record, write_shard,
}
use micro_error_framework.Sinks.Output.{write_chars-nil, write_chars-append}
use micro_error_framework.Sinks.Shards.{
  IsDistinct, buffer_of, IsShardOf, buffer_of-get, buffer_of-set,
}
use micro_error_framework.Sinks.Steps.{System, chunk_of, start}

-- The text of one producer, and of all, in their order.
abbrev pub text_of : ℕ → List (ℕ × Text) → Text
text_of k [] = []
text_of k ((p, t) ∷ rest) = (if p == k then t else []) ++ text_of k rest

abbrev pub all_text : List (ℕ × Text) → Text
all_text [] = []
all_text ((p, t) ∷ rest) = t ++ all_text rest

pub record Inv (output : Stream) (s : System) : Type 0 where
  pub distinct : IsDistinct s.sink.shards
  pub known :
      (t : ℕ)
      → (s.caches t).instance_id ≡ s.sink.instance_id
      → IsShardOf t s.sink.shards (s.caches t).shard
  pub kept : (k : ℕ) → text_of k s.chunks ++ buffer_of k s.sink.shards ≡ text_of k s.lines
  pub given : s.sink.output ≡ write_chars output (all_text s.chunks)

pub text_of-append :
    (k : ℕ) (xs : List (ℕ × Text)) (p : ℕ) (t : Text)
    → text_of k (xs ++ ((p, t) ∷ [])) ≡ text_of k xs ++ (if p == k then t else [])
text_of-append k [] p t = append-nil (if p == k then t else [])
text_of-append k ((q, u) ∷ xs) p t =
    ap (λ l. (if q == k then u else []) ++ l) (text_of-append k xs p t)
    ∙ sym (append_assoc (if q == k then u else []) (text_of k xs) (if p == k then t else []))

all_text-append :
    (xs : List (ℕ × Text)) (p : ℕ) (t : Text) → all_text (xs ++ ((p, t) ∷ [])) ≡ all_text xs ++ t
all_text-append [] p t = append-nil t
all_text-append ((q, u) ∷ xs) p t =
    ap (λ l. u ++ l) (all_text-append xs p t) ∙ sym (append_assoc u (all_text xs) t)

append_record-buffer :
    (shard : Shard) (entry : LogEntry)
    → (append_record shard entry).buffer ≡ shard.buffer ++ line entry
unfolding append_record prepare_text_record
append_record-buffer shard entry =
    let m = entry.error.message in
    elim (Bool-cases (ltb (length m) (prefix_capacity - length (header entry)))) [
      | inl y ↦ rw (y) (append-nil (shard.buffer ++ line entry))
      | inr n ↦ rw (n) (append_assoc shard.buffer (header entry) (m ++ (b'\n' ∷ [])))
    ]

-- A piece of a shard's text that goes to the stream, `chunk`, while `added` is added to it.
pub record Passes (output output' : Stream) (shard shard' : Shard) (chunk added : Text)
    : Type 0 where
  pub producer : shard'.producer ≡ shard.producer
  pub balance : chunk ++ shard'.buffer ≡ shard.buffer ++ added
  pub out : output' ≡ write_chars output chunk

pub flush_shard-cons :
    (output : Stream) (shard : Shard) (c : ℕ) (t : Text)
    → flush_shard output (record shard { buffer = c ∷ t }) ≡ (
      write_chars output (c ∷ t),
      record shard { buffer = [] },
      is_good (write_chars output (c ∷ t)),
    )
unfolding flush_shard
flush_shard-cons output shard c t = ground arith

append_record-producer :
    (shard : Shard) (entry : LogEntry) → (append_record shard entry).producer ≡ shard.producer
unfolding append_record
append_record-producer shard entry = refl

pub flush_shard-Passes :
    (output : Stream) (shard : Shard)
    → Passes output (flush_shard output shard).0 shard (flush_shard output shard).1 shard.buffer []
unfolding flush_shard
flush_shard-Passes output shard = go shard.buffer
  where
    go :
        (t : Text)
        → Passes output
            (flush_shard output (record shard { buffer = t })).0
            (record shard { buffer = t })
            (flush_shard output (record shard { buffer = t })).1
            t
            []
    go [] = record { producer = refl; balance = refl; out = sym (write_chars-nil output) }
    go (c ∷ t) =
        let e = flush_shard-cons output shard c t in
        record {
          producer = ap (λ r. r.1.producer) e;
          balance = ap (λ r. (c ∷ t) ++ r.1.buffer) e;
          out = ap (λ r. r.0) e;
        }

pub write_shard-Passes :
    (threshold : ℕ) (output : Stream) (shard : Shard) (entry : LogEntry)
    → Passes output
        (write_shard threshold output shard entry).0
        shard
        (write_shard threshold output shard entry).1
        (chunk_of threshold (append_record shard entry))
        (line entry)
unfolding write_shard
write_shard-Passes threshold output shard entry =
    let a = append_record shard entry in
    elim (Bool-cases (ltb (length a.buffer) threshold)) [
      | inl y ↦ rw (y) (record {
        producer = append_record-producer shard entry;
        balance = append_record-buffer shard entry;
        out = sym (write_chars-nil output);
      })
      | inr n ↦
          let f = flush_shard-Passes output a in
          rw (n) (record {
            producer = f.producer ∙ append_record-producer shard entry;
            balance = f.balance ∙ append-nil a.buffer ∙ append_record-buffer shard entry;
            out = f.out;
          })
    ]

-- The text of each producer, where a shard passes a piece on.
pub kept_on :
    (k : ℕ) (chunks : List (ℕ × Text)) (shards : List Shard) (i : ℕ) (output output' : Stream)
    (shard shard' : Shard) (chunk added lines : Text)
    → IsDistinct shards
    → get_elem? shards i ≡ some shard
    → Passes output output' shard shard' chunk added
    → text_of k chunks ++ buffer_of k shards ≡ lines
    → text_of k (chunks ++ ((shard.producer, chunk) ∷ [])) ++ buffer_of k (set shards i shard')
      ≡ lines ++ (if shard.producer == k then added else [])
kept_on k chunks shards i output output' shard shard' chunk added lines d at p h =
    let t = text_of k chunks in
    let b = buffer_of-set k shards i shard shard' d at p.producer in
    let before = buffer_of-get shards i shard d at in
    let c = text_of-append k chunks shard.producer chunk in
    ap₂ (λ x y. x ++ y) c b ∙ elim (Bool-cases (shard.producer == k)) [
      | inl y ↦
          let same = (==_iff shard.producer k).0 y in
          let mine : shard.buffer ≡ buffer_of k shards =
            sym before ∙ ap (λ j. buffer_of j shards) same in
          rw (y) (
            append_assoc t chunk shard'.buffer
            ∙ ap (λ l. t ++ l) p.balance
            ∙ sym (append_assoc t shard.buffer added)
            ∙ ap (λ l. l ++ added) (ap (λ l. t ++ l) mine ∙ h))
      | inr n ↦
          rw (n) (ap (λ l. l ++ buffer_of k shards) (append-nil t) ∙ h ∙ sym (append-nil lines))
    ]

pub given_on :
    (start : Stream) (chunks : List (ℕ × Text)) (output output' : Stream) (shard shard' : Shard)
    (chunk added : Text)
    → Passes output output' shard shard' chunk added
    → output ≡ write_chars start (all_text chunks)
    → output' ≡ write_chars start (all_text (chunks ++ ((shard.producer, chunk) ∷ [])))
given_on start chunks output output' shard shard' chunk added p h =
    p.out
    ∙ ap (λ o. write_chars o chunk) h
    ∙ write_chars-append start (all_text chunks) chunk
    ∙ ap (write_chars start) (sym (all_text-append chunks shard.producer chunk))
