-- ===== src/Pep/Process/Capped.antt =====
-- What the reader of a pipe keeps, against the whole stream.
use mathlib.Core.List.{append_assoc, append-nil}
use confidential_agent.Common.{
  take, length-append, ℕ, zero, suc, ◌+◌, ◌-◌, ◌≤◌, Bool, true, false, List, [], ◌∷◌, ◌++◌, ◌≡◌,
  refl, sym, ap, ap₂, ◌∙◌, arith, length, ltb, Bool-cases, inl, inr,
}
use confidential_agent.Gateway.{Bytes}
use confidential_agent.Pep.Host.{Read, got, interrupted, closed, lost}
use confidential_agent.Pep.Process.{Captured, keep_chunk, capped_reader, nothing_kept}

-- The bytes of a stream up to its end.
unfoldable pub stream : List Read → Bytes
stream [] = []
stream (closed ∷ reads) = []
stream (lost ∷ reads) = []
stream (interrupted ∷ reads) = stream reads
stream (got [] ∷ reads) = []
stream (got (b ∷ bytes) ∷ reads) = (b ∷ bytes) ++ stream reads

-- The first bytes of a stream, and whether it has more.
abbrev cut : ℕ → Bytes → Captured
cut max_bytes bytes = record {
  buf = take max_bytes bytes;
  truncated = ltb max_bytes (length bytes);
}

take-nil : (n : ℕ) → take {A = ℕ} n [] ≡ []
take-nil zero = refl
take-nil (suc n) = refl

take_all : (n : ℕ) (xs : Bytes) → length xs ≤ n → take n xs ≡ xs
take_all zero [] h = refl
take_all zero (x ∷ xs) h = absurd (omega arith)
take_all (suc n) [] h = refl
take_all (suc n) (x ∷ xs) h = ap (x ∷◌) (take_all n xs (omega arith))

length-take : (n : ℕ) (xs : Bytes) → n ≤ length xs → length (take n xs) ≡ n
length-take zero xs h = refl
length-take (suc n) [] h = absurd (omega arith)
length-take (suc n) (x ∷ xs) h = ap suc (length-take n xs (omega arith))

take-append_left : (n : ℕ) (xs ys : Bytes) → n ≤ length xs → take n (xs ++ ys) ≡ take n xs
take-append_left zero xs ys h = refl
take-append_left (suc n) [] ys h = absurd (omega arith)
take-append_left (suc n) (x ∷ xs) ys h = ap (x ∷◌) (take-append_left n xs ys (omega arith))

take-append_right :
    (n k : ℕ) (xs ys : Bytes) → n ≡ length xs + k → take n (xs ++ ys) ≡ xs ++ take k ys
take-append_right n k [] ys h = ap (λ m. take m ys) (h ∙ omega arith)
take-append_right zero k (x ∷ xs) ys h = absurd (omega arith)
take-append_right (suc n) k (x ∷ xs) ys h = ap (x ∷◌) (take-append_right n k xs ys (omega arith))

keep_chunk-cut :
    (max_bytes : ℕ) (before : Bytes) (b : ℕ) (bytes : Bytes)
    → keep_chunk max_bytes (b ∷ bytes) (cut max_bytes before)
      ≡ cut max_bytes (before ++ (b ∷ bytes))
unfolding keep_chunk
keep_chunk-cut max_bytes before b bytes =
    let total = length-append before (b ∷ bytes) in
    elim (Bool-cases (ltb (length before) max_bytes)) [
      | inl room ↦
          let fits : length before ≤ max_bytes = ground arith in
          let left : ltb 0 (max_bytes - length before) ≡ true = ground arith in
          rw (take_all max_bytes before fits) (
            rw left (
              ap₂ (λ (buf : Bytes) (t : Bool). record { buf = buf; truncated = t })
                (sym (
                  take-append_right max_bytes (max_bytes - length before) before (b ∷ bytes)
                    (omega arith)))
                (ground (arith, total))))
      | inr full ↦
          let fits : max_bytes ≤ length before = ground arith in
          let left : ltb 0 (max_bytes - length (take max_bytes before)) ≡ false =
            ground (arith, length-take max_bytes before fits) in
          rw left (
            ap₂ (λ (buf : Bytes) (t : Bool). record { buf = buf; truncated = t })
              (sym (take-append_left max_bytes before (b ∷ bytes) fits)) (ground (arith, total)))
    ]

capped_reader-cut :
    (max_bytes : ℕ) (reads : List Read) (before : Bytes)
    → capped_reader max_bytes reads (cut max_bytes before) ≡ cut max_bytes (before ++ stream reads)
unfolding capped_reader stream
capped_reader-cut max_bytes [] before = ap (cut max_bytes) (sym (append-nil before))
capped_reader-cut max_bytes (closed ∷ reads) before = ap (cut max_bytes) (sym (append-nil before))
capped_reader-cut max_bytes (lost ∷ reads) before = ap (cut max_bytes) (sym (append-nil before))
capped_reader-cut max_bytes (interrupted ∷ reads) before = capped_reader-cut max_bytes reads before
capped_reader-cut max_bytes (got [] ∷ reads) before = ap (cut max_bytes) (sym (append-nil before))
capped_reader-cut max_bytes (got (b ∷ bytes) ∷ reads) before =
    ap (capped_reader max_bytes reads) (keep_chunk-cut max_bytes before b bytes)
    ∙ capped_reader-cut max_bytes reads (before ++ (b ∷ bytes))
    ∙ ap (cut max_bytes) (append_assoc before (b ∷ bytes) (stream reads))

-- What is kept of a process's output is its first bytes, as many as the limit allows, however the
-- stream was split into reads, and it is marked as truncated exactly if the stream has more bytes.
pub capped_reader_lem :
    (max_bytes : ℕ) (reads : List Read)
    → capped_reader max_bytes reads nothing_kept ≡ record {
      buf = take max_bytes (stream reads);
      truncated = ltb max_bytes (length (stream reads));
    }
capped_reader_lem max_bytes reads =
    let start : cut max_bytes [] ≡ nothing_kept =
      ap₂ (λ (buf : Bytes) (t : Bool). record { buf = buf; truncated = t }) (take-nil max_bytes)
        (ground arith) in
    ap (capped_reader max_bytes reads) (sym start) ∙ capped_reader-cut max_bytes reads []
