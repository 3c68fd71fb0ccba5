-- ===== src/Daemon/Downloads.antt =====
-- internal/daemon/files.go: what an artifact is downloaded to. writeSparseFile, isZeroChunk and
-- downloadFile. Each system call has an error that the environment may give it.
pub mod Sparse
pub mod Whole
use Prim.Native.String.{◌++◌}
use computer_host.Base.{
  ℕ, zero, suc, ◌+◌, ◌==◌, Bool, true, false, String, Option, none, some, List, [], ◌∷◌, length,
  Error, message, Outcome, ok, err, if◌then◌else◌,
}
use computer_host.Host.Exec.{Exec, ◌>>=◌, ◌>>◌, pure, raise, gets, modify}
use computer_host.Daemon.Workspace.Ranges.{take, copied_at, expanded}

-- An open file: its bytes, and the position of its descriptor.
pub record OpenFile : Type 0 where
  pub bytes : List ℕ
  pub position : ℕ

-- How source.Read ends: with a nil error, with io.EOF, or with another error.
pub data Ending : Type 0 where
  more : Ending
  eof : Ending
  broken : Error → Ending

-- The call of Seek or Write for a chunk fails: a Write may have written bytes before.
pub record Fault : Type 0 where
  pub done : List ℕ
  pub error : Error

pub record Read : Type 0 where
  pub chunk : List ℕ
  pub ending : Ending
  pub fault : Option Fault

unfoldable pub is_zero_chunk : List ℕ → Bool
is_zero_chunk [] = true
is_zero_chunk (b ∷ chunk) = let rest = is_zero_chunk chunk in if b == 0 then rest else false

-- targetFile.Seek(count, io.SeekCurrent), which does not change the bytes.
abbrev pub seek : ℕ → OpenFile → OpenFile
seek count file = record file { position = file.position + count }

-- targetFile.Write(chunk): bytes between the end of the file and the position are zero.
abbrev pub write : List ℕ → OpenFile → OpenFile
write chunk file = record {
  bytes = copied_at file.position (expanded (file.position + length chunk) file.bytes) chunk;
  position = file.position + length chunk;
}

-- file.Truncate(size).
abbrev pub truncated : ℕ → OpenFile → OpenFile
truncated size file = record file { bytes = expanded size (take size file.bytes) }

-- One chunk of writeSparseFile, when no call fails.
unfoldable pub put_chunk : List ℕ → OpenFile → OpenFile
unfolding is_zero_chunk
put_chunk [] file = file
put_chunk (b ∷ chunk) file =
    if is_zero_chunk (b ∷ chunk) then seek (length (b ∷ chunk)) file else write (b ∷ chunk) file

-- The same, with the error of the call.
unfoldable pub put_read : Option Fault → List ℕ → OpenFile → Option Error × OpenFile
unfolding put_chunk is_zero_chunk
put_read none chunk file = (none, put_chunk chunk file)
put_read (some f) [] file = (none, file)
put_read (some f) (b ∷ chunk) file =
    if is_zero_chunk (b ∷ chunk) then (some f.error, file) else (some f.error, write f.done file)

-- What writeSparseFile returns, and the file: the size of the chunks that were put, and an error.
pub record Copied : Type 0 where
  pub size : ℕ
  pub error : Option Error
  pub file : OpenFile

abbrev pub go_on : Ending → ℕ → OpenFile → Copied → Copied
go_on more size file rest = rest
go_on eof size file rest = record { size = size; error = none; file = file }
go_on (broken e) size file rest = record { size = size; error = some e; file = file }

abbrev pub unless_failed : Option Error × OpenFile → ℕ → (OpenFile → Copied) → Copied
unless_failed (none, file) size next = next file
unless_failed (some e, file) size next = record { size = size; error = some e; file = file }

-- The loop of writeSparseFile, with the size so far, on the reads that the source gives; a source with
-- no more reads is at its end.
unfoldable pub write_sparse_loop : List Read → ℕ → OpenFile → Copied
unfolding put_read
write_sparse_loop [] size file = record { size = size; error = none; file = file }
write_sparse_loop (r ∷ reads) size file = unless_failed (put_read r.fault r.chunk file) size (λ put.
    go_on r.ending (size + length r.chunk) put
      (write_sparse_loop reads (size + length r.chunk) put))

unfoldable pub write_sparse_file : List Read → OpenFile → Copied
unfolding write_sparse_loop
write_sparse_file reads file = write_sparse_loop reads 0 file

-- The file that is downloaded and its temporary file, where they exist.
pub record Place : Type 0 where
  pub target : Option (List ℕ)
  pub temporary : Option OpenFile

-- What the system calls and the server answer; `none` where a call succeeds.
pub record Answers : Type 0 where
  pub stat : Option Error
  pub mkdir : Option Error
  pub request : Option Error
  pub response : Option Error
  pub status : ℕ
  pub body : List Read
  pub opening : Option Error
  pub truncate : Option Error
  pub sync : Option Error
  pub close : Option Error
  pub rename : Option Error
  pub sync_dir : Option Error

-- `if err != nil { return fmt.Errorf(text, name, err) }`
unfoldable pub succeed_or : String → String → Option Error → Exec Place (Unit {0})
unfolding pure raise
succeed_or text name none = pure tt
succeed_or text name (some e) = raise (message text name)

abbrev bytes_of : Option OpenFile → List ℕ
bytes_of none = []
bytes_of (some file) = file.bytes

abbrev with_temporary : OpenFile → Place → Place
with_temporary file place = record place { temporary = some file }

abbrev pub renamed : Place → Place
renamed place = record { target = some (bytes_of place.temporary); temporary = none }

-- `if err != nil { return err }` after syncDir, whose error is one of three calls.
unfoldable pub returned : Option Error → Exec Place (Unit {0})
unfolding pure raise
returned none = pure tt
returned (some e) = raise e

-- downloadFile, once the body has been written to the temporary file.
unfoldable pub finish_download : Answers → String → Copied → Exec Place (Unit {0})
unfolding ◌>>=◌ modify succeed_or returned
finish_download a path copied = do
  modify (with_temporary copied.file)
  succeed_or "write download target" (path ++ ".tmp") copied.error
  succeed_or "truncate download target" (path ++ ".tmp") a.truncate
  modify (with_temporary (truncated copied.size copied.file))
  succeed_or "sync download target" (path ++ ".tmp") a.sync
  succeed_or "close download target" (path ++ ".tmp") a.close
  succeed_or "rename download target" (path ++ ".tmp") a.rename
  modify renamed
  returned a.sync_dir

-- downloadFile, once the target is known not to exist.
unfoldable pub download_absent : Answers → String → String → Exec Place (Unit {0})
unfolding ◌>>=◌ modify raise succeed_or finish_download write_sparse_file
download_absent a raw_url path = do
  succeed_or "create download dir" path a.mkdir
  succeed_or "build download request" raw_url a.request
  succeed_or "download" raw_url a.response
  if a.status == 200 then pure tt else raise (message "download: status" raw_url)
  succeed_or "open download target" (path ++ ".tmp") a.opening
  finish_download a path (write_sparse_file a.body (record { bytes = []; position = 0 }))

-- os.Stat of the target gives an error other than that it does not exist, its state, or that.
unfoldable pub download_unless : Option (List ℕ) → Answers → String → String → Exec Place (Unit {0})
unfolding pure download_absent
download_unless (some held) a raw_url path = pure tt
download_unless none a raw_url path = download_absent a raw_url path

unfoldable pub download_file : Answers → String → String → Exec Place (Unit {0})
unfolding ◌>>=◌ gets succeed_or download_unless
download_file a raw_url path = do
  succeed_or "stat download target" path a.stat
  held ← gets (λ place. place.target)
  download_unless held a raw_url path
