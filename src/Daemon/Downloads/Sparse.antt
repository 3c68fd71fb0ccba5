-- ===== src/Daemon/Downloads/Sparse.antt =====
-- writeSparseFile and a plain copy: the holes that it leaves read as zeros.
use mathlib.Core.List.{append_assoc, append-nil}
use computer_host.Base.{
  ℕ, zero, suc, ◌+◌, ◌≤◌, true, Option, none, some, List, [], ◌∷◌, ◌++◌, length, length-append,
  Error, ◌≡◌, refl, sym, ◌∙◌, ap, arith, Bool-cases, inl, inr,
}
use computer_host.Daemon.Workspace.Ranges.{take, copied, copied_at, expanded}
use computer_host.Daemon.Workspace.Ranges.Laws.{take-all, expanded_size, length-copied_at}
use computer_host.Daemon.Downloads.{
  OpenFile, Ending, more, eof, broken, Read, Copied, is_zero_chunk, write, seek, truncated,
  put_chunk, put_read, go_on, write_sparse_loop, write_sparse_file,
}

-- No Seek and no Write fails.
abbrev pub IsWritable : List Read → Type 0
IsWritable [] = Unit
IsWritable (r ∷ reads) = (r.fault ≡ none) × IsWritable reads

-- The chunks up to the first read that is not the last.
abbrev pub delivered_then : Ending → List ℕ → List ℕ
delivered_then more rest = rest
delivered_then eof rest = []
delivered_then (broken e) rest = []

abbrev pub delivered : List Read → List ℕ
delivered [] = []
delivered (r ∷ reads) = r.chunk ++ delivered_then r.ending (delivered reads)

-- The error of the read that ends the reads.
abbrev pub failure_then : Ending → Option Error → Option Error
failure_then more rest = rest
failure_then eof rest = none
failure_then (broken e) rest = some e

abbrev pub failure : List Read → Option Error
failure [] = none
failure (r ∷ reads) = failure_then r.ending (failure reads)

abbrev zeros : ℕ → List ℕ
zeros zero = []
zeros (suc n) = 0 ∷ zeros n

-- What the file holds up to its position, where its bytes end by then.
abbrev filled : OpenFile → List ℕ
filled file = expanded file.position file.bytes

IsShort : OpenFile → Type 0
IsShort file = length file.bytes ≤ file.position

expanded_more :
    (p n : ℕ) (xs : List ℕ) → length xs ≤ p → expanded (p + n) xs ≡ expanded p xs ++ zeros n
expanded_more zero zero [] h = refl
expanded_more zero (suc n) [] h =
    let k : 0 + suc n ≡ suc (0 + n) = omega arith in
    rw k (ap (λ ys. 0 ∷ ys) (expanded_more zero n [] h))
expanded_more zero n (x ∷ xs) h = ground arith
expanded_more (suc p) n [] h =
    let k : suc p + n ≡ suc (p + n) = omega arith in
    rw k (ap (λ ys. 0 ∷ ys) (expanded_more p n [] (omega arith)))
expanded_more (suc p) n (x ∷ xs) h =
    let k : suc p + n ≡ suc (p + n) = omega arith in
    rw k (ap (λ ys. x ∷ ys) (expanded_more p n xs (omega arith)))

zero_chunk : (chunk : List ℕ) → is_zero_chunk chunk ≡ true → zeros (length chunk) ≡ chunk
unfolding is_zero_chunk
zero_chunk [] h = refl
zero_chunk (zero ∷ chunk) h = ap (λ ys. 0 ∷ ys) (zero_chunk chunk (ground arith))
zero_chunk (suc b ∷ chunk) h = ground arith

copied_all : (xs chunk : List ℕ) → length xs ≡ 0 → copied (expanded (length chunk) xs) chunk ≡ chunk
copied_all [] [] h = refl
copied_all [] (c ∷ chunk) h = ap (λ ys. c ∷ ys) (copied_all [] chunk refl)
copied_all (x ∷ xs) chunk h = ground arith

copied_end :
    (p : ℕ) (xs chunk : List ℕ)
    → length xs ≤ p
    → copied_at p (expanded (p + length chunk) xs) chunk ≡ expanded p xs ++ chunk
copied_end zero [] chunk h =
    let k : 0 + length chunk ≡ length chunk = omega arith in rw k (copied_all [] chunk refl)
copied_end zero (x ∷ xs) chunk h = ground arith
copied_end (suc p) [] chunk h =
    let k : suc p + length chunk ≡ suc (p + length chunk) = omega arith in
    rw k (ap (λ ys. 0 ∷ ys) (copied_end p [] chunk (omega arith)))
copied_end (suc p) (x ∷ xs) chunk h =
    let k : suc p + length chunk ≡ suc (p + length chunk) = omega arith in
    rw k (ap (λ ys. x ∷ ys) (copied_end p xs chunk (omega arith)))

expanded_already : (r : ℕ) (xs : List ℕ) → r ≤ length xs → expanded r xs ≡ xs
expanded_already zero xs h = refl
expanded_already (suc r) [] h = ground arith
expanded_already (suc r) (x ∷ xs) h = ap (λ ys. x ∷ ys) (expanded_already r xs (omega arith))

-- A chunk is put at the end of what the file holds.
record IsPut (chunk : List ℕ) (file put : OpenFile) : Type 0 where
  holds : filled put ≡ filled file ++ chunk
  short : length put.bytes ≤ put.position
  moved : put.position ≡ file.position + length chunk

seek-IsPut :
    (chunk : List ℕ) (file : OpenFile)
    → length file.bytes ≤ file.position
    → is_zero_chunk chunk ≡ true
    → IsPut chunk file (seek (length chunk) file)
seek-IsPut chunk file h z = record {
  holds =
      rw (expanded_more file.position (length chunk) file.bytes h)
        (ap (λ ys. filled file ++ ys) (zero_chunk chunk z));
  short = omega arith;
  moved = refl;
}

write-IsPut :
    (chunk : List ℕ) (file : OpenFile)
    → length file.bytes ≤ file.position
    → IsPut chunk file (write chunk file)
write-IsPut chunk file h =
    let size : length (write chunk file).bytes ≡ file.position + length chunk = omega (
      arith,
      length-copied_at file.position (expanded (file.position + length chunk) file.bytes) chunk,
      expanded_size (file.position + length chunk) file.bytes,
    ) in
    record {
      holds =
          expanded_already (file.position + length chunk) (write chunk file).bytes (omega arith)
          ∙ copied_end file.position file.bytes chunk h;
      short = omega arith;
      moved = refl;
    }

put_chunk-IsPut :
    (chunk : List ℕ) (file : OpenFile)
    → length file.bytes ≤ file.position
    → IsPut chunk file (put_chunk chunk file)
unfolding put_chunk is_zero_chunk
put_chunk-IsPut [] file h = record {
  holds = sym (append-nil (filled file));
  short = h;
  moved = omega arith;
}
put_chunk-IsPut (b ∷ chunk) file h = elim (Bool-cases (is_zero_chunk (b ∷ chunk))) [
  | inl z ↦ ground (arith, seek-IsPut (b ∷ chunk) file h z)
  | inr z ↦ ground (arith, write-IsPut (b ∷ chunk) file h)
]

-- What writeSparseFile has copied to a file, once it returns.
record IsCopied (text : List ℕ) (error : Option Error) (size : ℕ) (file : OpenFile) (c : Copied)
    : Type 0 where
  counts : c.size ≡ size + length text
  fails : c.error ≡ error
  ends : c.file.position ≡ c.size
  within : length c.file.bytes ≤ c.file.position
  reads : filled c.file ≡ filled file ++ text

ended :
    (chunk : List ℕ) (error : Option Error) (size : ℕ) (file put : OpenFile)
    → file.position ≡ size
    → IsPut chunk file put
    → IsCopied
        (chunk ++ [])
        error
        size
        file
        (record { size = size + length chunk; error = error; file = put })
ended chunk error size file put p k = record {
  counts = ap (λ ys. size + length ys) (sym (append-nil chunk));
  fails = refl;
  ends = omega (arith, k.moved);
  within = k.short;
  reads = rw (append-nil chunk) k.holds;
}

went_on :
    (chunk text : List ℕ) (error : Option Error) (size : ℕ) (file put : OpenFile) (c : Copied)
    → IsPut chunk file put
    → IsCopied text error (size + length chunk) put c
    → IsCopied (chunk ++ text) error size file c
went_on chunk text error size file put c k h = record {
  counts = omega (arith, h.counts, length-append chunk text);
  fails = h.fails;
  ends = h.ends;
  within = h.within;
  reads = h.reads ∙ ap (λ ys. ys ++ text) k.holds ∙ append_assoc (filled file) chunk text;
}

go_on-IsCopied :
    (ending : Ending) (chunk text : List ℕ) (error : Option Error) (size : ℕ) (file put : OpenFile)
    (c : Copied)
    → file.position ≡ size
    → IsPut chunk file put
    → IsCopied text error (size + length chunk) put c
    → IsCopied
        (chunk ++ delivered_then ending text)
        (failure_then ending error)
        size
        file
        (go_on ending (size + length chunk) put c)
go_on-IsCopied more chunk text error size file put c p k h =
    went_on chunk text error size file put c k h
go_on-IsCopied eof chunk text error size file put c p k h = ended chunk none size file put p k
go_on-IsCopied (broken e) chunk text error size file put c p k h =
    ended chunk (some e) size file put p k

write_sparse_loop-IsCopied :
    (reads : List Read) (size : ℕ) (file : OpenFile)
    → IsWritable reads
    → length file.bytes ≤ file.position
    → file.position ≡ size
    → IsCopied (delivered reads) (failure reads) size file (write_sparse_loop reads size file)
unfolding write_sparse_loop put_read
write_sparse_loop-IsCopied [] size file w h p = record {
  counts = omega arith;
  fails = refl;
  ends = p;
  within = h;
  reads = sym (append-nil (filled file));
}
write_sparse_loop-IsCopied (r ∷ reads) size file (w, ws) h p =
    let put : OpenFile = put_chunk r.chunk file in
    let k = put_chunk-IsPut r.chunk file h in
    let rest =
      write_sparse_loop-IsCopied reads (size + length r.chunk) put ws k.short
        (omega (arith, k.moved)) in
    rw w (
      go_on-IsCopied r.ending r.chunk (delivered reads) (failure reads) size file put
        (write_sparse_loop reads (size + length r.chunk) put) p k rest)

-- Where no Seek and no Write fails, writeSparseFile to an empty file returns the number of the bytes that
-- the source delivers and the error with which it ends, and a Truncate to that number makes the file
-- hold these bytes: a copy without holes would hold the same.
pub write_sparse_file-IsPlain :
    (reads : List Read)
    → IsWritable reads
    → let c = write_sparse_file reads (record { bytes = []; position = 0 }) in
      (c.size ≡ length (delivered reads))
      × (c.error ≡ failure reads)
      × ((truncated c.size c.file).bytes ≡ delivered reads)
unfolding write_sparse_file
write_sparse_file-IsPlain reads w =
    let start : OpenFile = record { bytes = []; position = 0 } in
    let c : Copied = write_sparse_loop reads 0 start in
    let k = write_sparse_loop-IsCopied reads 0 start w (omega arith) refl in
    let whole : take c.size c.file.bytes ≡ c.file.bytes =
      take-all c.size c.file.bytes (omega (arith, k.ends, k.within)) in
    (
      omega (arith, k.counts),
      k.fails,
      ap (λ ys. expanded c.size ys) whole
          ∙ ap (λ n. expanded n c.file.bytes) (sym k.ends)
          ∙ k.reads,
    )
