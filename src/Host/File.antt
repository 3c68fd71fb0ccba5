-- ===== src/Host/File.antt =====
-- internal/store/file_store.go: how a file of the store is read, and replaced as a whole.
pub mod Atomic
use computer_host.Base.{ℕ, ◌+◌, String, Option, none, some, Outcome, external, halt, err, ok, died}
use computer_host.Host.Exec.{Exec, ◌>>=◌, ◌>>◌, pure, raise, gets, lift}

-- What an operating system call does: it succeeds, it returns an error (which may say that an address
-- is in use), or the process dies before it.
pub data Event : Type 0 where
  succeeds fails finds_in_use dies : Event

-- The bytes of a file: the JSON text of a value, or the beginning of one.
pub data Content (A : Type 0) : Type 0 where
  whole : A → Content A
  torn : Content A

-- The file at `path` and the one at `path + ".tmp"`, if they are there.
pub record FileState (A : Type 0) : Type 0 where
  pub current : Option (Content A)
  pub temp : Option (Content A)

-- A file, and the outcomes of the system calls on it, of which `clock` have been made.
pub record Disk (A : Type 0) : Type 0 where
  pub events : ℕ → Event
  pub clock : ℕ
  pub file : FileState A

module _ {A : Type 0} where
  abbrev step_on :
      (FileState A → FileState A)
      → (FileState A → FileState A)
      → String
      → Event
      → Exec (Disk A) (Unit {0})
  step_on good bad name Event.succeeds d =
      (ok tt, record d { clock = d.clock + 1; file = good d.file })
  step_on good bad name Event.dies d =
      (halt died, record d { clock = d.clock + 1; file = bad d.file })
  step_on good bad name _ d =
      (err (external name), record d { clock = d.clock + 1; file = bad d.file })

  -- One system call: what it leaves where it succeeds, and where it does not.
  unfoldable pub step :
      String → (FileState A → FileState A) → (FileState A → FileState A) → Exec (Disk A) (Unit {0})
  step name good bad d = step_on good bad name (d.events d.clock) d

  abbrev same_file : FileState A → FileState A
  same_file f = f

  abbrev set_temp : Content A → FileState A → FileState A
  set_temp c f = record f { temp = some c }

  abbrev rename_temp : FileState A → FileState A
  rename_temp f = record { current = f.temp; temp = none }

  -- writeJSONFileAtomically.
  unfoldable pub write_json_file_atomically : A → Exec (Disk A) (Unit {0})
  unfolding step ◌>>=◌
  write_json_file_atomically a = do
    step "marshal store file" same_file same_file
    step "create store dir" same_file same_file
    step "open temp store file" (set_temp torn) same_file
    step "write temp store file" (set_temp (whole a)) (set_temp torn)
    step "sync temp store file" same_file same_file
    step "close temp store file" same_file same_file
    step "rename temp store file" rename_temp same_file
    step "open store dir" same_file same_file
    step "sync store dir" same_file same_file
    step "close store dir" same_file same_file

  decoded : Option (Content A) → Exec (Disk A) A
  decoded none = raise (external "read store file")
  decoded (some torn) = raise (external "decode store file")
  decoded (some (whole a)) = pure a

  -- readJSONFile.
  unfoldable pub read_json_file : Exec (Disk A) A
  unfolding step ◌>>=◌ decoded pure raise gets
  read_json_file = do
    step "read store file" same_file same_file
    content ← gets (λ d. d.file.current)
    decoded content

  stat_result : A → Option (Content A) → Exec (Disk A) (Unit {0})
  stat_result a (some c) = pure tt
  stat_result a none = write_json_file_atomically a

  -- initializeJSONFile. A stat that fails on a file that is there is an error of another kind.
  unfoldable pub initialize_json_file : A → Exec (Disk A) (Unit {0})
  unfolding step ◌>>=◌ stat_result gets pure write_json_file_atomically
  initialize_json_file a = do
    step "create store dir" same_file same_file
    step "stat store file" same_file same_file
    content ← gets (λ d. d.file.current)
    stat_result a content

  -- The body of updateState and of updateOperations: read, change, and write.
  unfoldable pub update_file : (A → Outcome A) → Exec (Disk A) (Unit {0})
  unfolding ◌>>=◌ lift
  update_file update = do
    state ← read_json_file
    next ← lift (update state)
    write_json_file_atomically next
