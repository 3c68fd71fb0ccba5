-- ===== src/Daemon/Downloads/Whole.antt =====
-- A download is whole or leaves the target alone: the target gets its name once all bytes are in place.
use Prim.Native.String.{◌++◌}
use computer_host.Base.{
  ℕ, ◌+◌, ◌==◌, Option, none, some, List, [], ◌∷◌, length, Error, Outcome, ok, ◌≡◌, ◌≢◌, ◌⊎◌, refl,
  sym, ◌∙◌, ap, arith, Bool-cases, inl, inr, String,
}
use computer_host.Host.Exec.{◌>>=◌, pure, raise, gets, modify}
use computer_host.Daemon.Downloads.{
  OpenFile, Ending, more, eof, broken, Read, Fault, Copied, is_zero_chunk, put_chunk, put_read,
  go_on, unless_failed, write_sparse_loop, write_sparse_file, truncated, Place, Answers, succeed_or,
  returned, finish_download, download_absent, download_unless, download_file,
}
use computer_host.Daemon.Downloads.Sparse.{
  IsWritable, delivered, failure, write_sparse_file-IsPlain,
}

-- The reads, without the errors of Seek and Write.
abbrev healthy : List Read → List Read
healthy [] = []
healthy (r ∷ reads) = record r { fault = none } ∷ healthy reads

healthy-IsWritable : (reads : List Read) → IsWritable (healthy reads)
healthy-IsWritable [] = tt
healthy-IsWritable (r ∷ reads) = (refl, healthy-IsWritable reads)

delivered-healthy : (reads : List Read) → delivered (healthy reads) ≡ delivered reads
delivered-healthy [] = refl
delivered-healthy (r ∷ reads) = rw (delivered-healthy reads) refl

failure-healthy : (reads : List Read) → failure (healthy reads) ≡ failure reads
failure-healthy [] = refl
failure-healthy (r ∷ reads) = rw (failure-healthy reads) refl

go_on_same :
    (e : Ending) (n : ℕ) (put : OpenFile) (rest other : Copied)
    → (rest.error ≡ none → rest ≡ other)
    → (go_on e n put rest).error ≡ none
    → go_on e n put rest ≡ go_on e n put other
go_on_same more n put rest other same h = same h
go_on_same eof n put rest other same h = refl
go_on_same (broken e) n put rest other same h = refl

round_same :
    (f : Option Fault) (chunk : List ℕ) (e : Ending) (size n : ℕ) (file : OpenFile)
    (rest other : OpenFile → Copied)
    → ((put : OpenFile) → (rest put).error ≡ none → rest put ≡ other put)
    → (unless_failed (put_read f chunk file) size (λ put. go_on e n put (rest put))).error ≡ none
    → unless_failed (put_read f chunk file) size (λ put. go_on e n put (rest put))
      ≡ unless_failed (put_read none chunk file) size (λ put. go_on e n put (other put))
unfolding put_read put_chunk
round_same none chunk e size n file rest other same h =
    let put : OpenFile = put_chunk chunk file in
    go_on_same e n put (rest put) (other put) (same put) h
round_same (some f) [] e size n file rest other same h =
    go_on_same e n file (rest file) (other file) (same file) h
round_same (some f) (b ∷ chunk) e size n file rest other same h =
    elim (Bool-cases (is_zero_chunk (b ∷ chunk))) [ inl z ↦ ground arith | inr z ↦ ground arith ]

write_sparse_loop-healthy :
    (reads : List Read) (size : ℕ) (file : OpenFile)
    → (write_sparse_loop reads size file).error ≡ none
    → write_sparse_loop reads size file ≡ write_sparse_loop (healthy reads) size file
unfolding write_sparse_loop
write_sparse_loop-healthy [] size file h = refl
write_sparse_loop-healthy (r ∷ reads) size file h =
    round_same r.fault r.chunk r.ending size (size + length r.chunk) file
      (write_sparse_loop reads (size + length r.chunk))
      (write_sparse_loop (healthy reads) (size + length r.chunk))
      (write_sparse_loop-healthy reads (size + length r.chunk)) h

abbrev fresh : OpenFile
fresh = record { bytes = []; position = 0 }

copied_whole :
    (reads : List Read)
    → (write_sparse_file reads fresh).error ≡ none
    → (failure reads ≡ none)
      × ((truncated (write_sparse_file reads fresh).size (write_sparse_file reads fresh).file).bytes
          ≡ delivered reads)
unfolding write_sparse_file
copied_whole reads h =
    let c : Copied = write_sparse_loop reads 0 fresh in
    let other : Copied = write_sparse_loop (healthy reads) 0 fresh in
    let same : c ≡ other = write_sparse_loop-healthy reads 0 fresh h in
    let (size, fails, held) =
      write_sparse_file-IsPlain (healthy reads) (healthy-IsWritable reads) in
    (
      sym (failure-healthy reads) ∙ sym fails ∙ ap (λ k. k.error) (sym same) ∙ h,
      ap (λ k. (truncated k.size k.file).bytes) same ∙ held ∙ delivered-healthy reads,
    )

-- What a download leaves: the target as it was, and then it returns nil only where the target was there;
-- or a target that was not there, with all that the server sent.
abbrev pub IsWhole : Answers → Option (List ℕ) → Outcome (Unit {0}) × Place → Type 0
IsWhole a before (r, after) =
    ((after.target ≡ before) × (r ≡ ok tt → before ≢ none))
    ⊎ ((before ≡ none)
        × (a.status ≡ 200)
        × (failure a.body ≡ none)
        × (after.target ≡ some (delivered a.body)))

module _ (a : Answers) (before : Option (List ℕ)) where
  -- A call that fails ends the download, with the target as it is.
  step_or :
      (text name : String) (e : Option Error) (rest : Unit {0} → Place → Outcome (Unit {0}) × Place)
      (place : Place)
      → place.target ≡ before
      → (e ≡ none → IsWhole a before (rest tt place))
      → IsWhole a before ((succeed_or text name e >>= rest) place)
  unfolding ◌>>=◌ succeed_or pure raise
  step_or text name none rest place t h = h refl
  step_or text name (some e) rest place t h = inl (t, λ k. ground arith)

  returned_place : (e : Option Error) (place : Place) → (returned e place).1 ≡ place
  unfolding returned pure raise
  returned_place none place = refl
  returned_place (some e) place = refl

  finish_download-IsWhole :
      (path : String) (place : Place)
      → place.target ≡ before
      → before ≡ none
      → a.status ≡ 200
      → IsWhole a before (finish_download a path (write_sparse_file a.body fresh) place)
  unfolding ◌>>=◌ modify finish_download
  finish_download-IsWhole path place t n s =
      let c : Copied = write_sparse_file a.body fresh in
      let written : Place = record place { temporary = some c.file } in
      let cut : Place = record place { temporary = some (truncated c.size c.file) } in
      step_or "write download target" (path ++ ".tmp") c.error _ written t (λ e.
        step_or "truncate download target" (path ++ ".tmp") a.truncate _ written t (λ _.
          step_or "sync download target" (path ++ ".tmp") a.sync _ cut t (λ _.
            step_or "close download target" (path ++ ".tmp") a.close _ cut t (λ _.
              step_or "rename download target" (path ++ ".tmp") a.rename _ cut t (λ _.
                let (f, w) = copied_whole a.body e in
                let named : Place = record {
                  target = some (truncated c.size c.file).bytes;
                  temporary = none;
                } in
                inr (n, s, f, ap (λ p. p.target) (returned_place a.sync_dir named) ∙ ap some w))))))

  download_absent-IsWhole :
      (raw_url path : String) (place : Place)
      → place.target ≡ before
      → before ≡ none
      → IsWhole a before (download_absent a raw_url path place)
  unfolding ◌>>=◌ pure raise download_absent
  download_absent-IsWhole raw_url path place t n =
      step_or "create download dir" path a.mkdir _ place t (λ _.
        step_or "build download request" raw_url a.request _ place t (λ _.
          step_or "download" raw_url a.response _ place t (λ _.
            elim (Bool-cases (a.status == 200)) [
              | inl s ↦ rw s (
                  step_or "open download target" (path ++ ".tmp") a.opening _ place t
                    (λ _. finish_download-IsWhole path place t n (ground arith)))
              | inr s ↦ rw s (inl (t, λ k. ground arith))
            ])))

download_unless-IsWhole :
    (a : Answers) (before : Option (List ℕ)) (raw_url path : String) (held : Option (List ℕ))
    (place : Place)
    → place.target ≡ before
    → before ≡ held
    → IsWhole a before (download_unless held a raw_url path place)
unfolding download_unless pure
download_unless-IsWhole a before raw_url path none place t n =
    download_absent-IsWhole a before raw_url path place t n
download_unless-IsWhole a before raw_url path (some held) place t n =
    inl (t, λ k none_before. ground arith)

-- However the calls of downloadFile and its server answer, and however it returns: the target is left
-- alone, and nil is returned only where it was there; or it was not there, the status was 200, the
-- source ended without an error, and the target holds exactly what it delivered.
pub download_file-IsWhole :
    (a : Answers) (raw_url path : String) (place : Place)
    → IsWhole a place.target (download_file a raw_url path place)
unfolding ◌>>=◌ gets download_file download_unless pure
download_file-IsWhole a raw_url path place =
    step_or a place.target "stat download target" path a.stat _ place refl
      (λ _. download_unless-IsWhole a place.target raw_url path place.target place refl refl)
