-- ===== src/Firecracker/Runtime.antt =====
-- internal/firecracker/runtime.go and launch.go: the host as the runtime sees it, and how it waits for
-- what it started. The process of the daemon does not die in here: of its death the daemon's model says
-- what it leaves.
pub mod Boot
pub mod Stop
use computer_host.Base.{
  ℕ, zero, suc, ◌+◌, String, Bool, true, false, not, ◌||◌, Option, none, some, List, [], ◌∷◌, Error,
  message, external, Outcome, ok, err, ℤ, pos, ltb_ℤ, trim_space, ◌=?◌, string_key, atoi, select,
  lies_in, if◌then◌else◌,
}
use computer_host.Model.{Time}
use computer_host.Host.Exec.{
  Exec, Attempt, value, failed, ◌>>=◌, ◌>>◌, pure, raise, gets, try, ignore, wrapping,
}

-- What the calls of the runtime return, and what they do; the argument is the number of calls before.
pub record RuntimeEnv : Type 0 where
  -- whether a call succeeds, and whether one that fails has its effect all the same
  pub succeeds : ℕ → Bool
  pub happens : ℕ → Bool
  -- whether a removal takes what it is to remove
  pub removes : ℕ → Bool
  pub now : ℕ → Time
  pub answer : ℕ → Bool
  -- the text of a PID file, if it is there
  pub pid_text : ℕ → Option String
  -- whether a process is there, and no zombie
  pub is_alive : ℕ → Bool
  -- FIRECRACKER_DEBUG_PRESERVE_FAILURE
  pub preserves_failure : Bool

pub record RuntimeWorld : Type 0 where
  pub env : RuntimeEnv
  pub clock : ℕ
  -- the tap devices, and the directories of machines
  pub taps : List String
  pub dirs : List String
  -- the processes that were sent a signal
  pub signalled : List ℕ

abbrev pub Runs : Type 0 → Type 0
Runs A = Exec RuntimeWorld A

abbrev pub ticked : RuntimeWorld → RuntimeWorld
ticked w = record w { clock = w.clock + 1 }

abbrev pub ended_by : Bool → Outcome (Unit {0})
ended_by true = ok tt
ended_by false = err (external "")

abbrev pub changed_if : Bool → (RuntimeWorld → RuntimeWorld) → RuntimeWorld → RuntimeWorld
changed_if true f w = ticked (f w)
changed_if false f w = ticked w

-- A call with an effect.
unfoldable pub act : (RuntimeWorld → RuntimeWorld) → Runs (Unit {0})
act f w = (
  ended_by (w.env.succeeds w.clock),
  changed_if (w.env.succeeds w.clock || w.env.happens w.clock) f w,
)

-- A removal.
unfoldable pub take_away : (RuntimeWorld → RuntimeWorld) → Runs (Unit {0})
take_away f w = (ended_by (w.env.succeeds w.clock), changed_if (w.env.removes w.clock) f w)

-- A call that changes nothing that is kept here.
abbrev pub unchanged : RuntimeWorld → RuntimeWorld
unchanged w = w

abbrev pub with_tap : String → RuntimeWorld → RuntimeWorld
with_tap name w = record w { taps = name ∷ w.taps }

abbrev pub without : String → List String → List String
without name names = select (λ x. not (x =? name)) names

abbrev pub without_tap : String → RuntimeWorld → RuntimeWorld
without_tap name w = record w { taps = without name w.taps }

abbrev pub with_dir : String → RuntimeWorld → RuntimeWorld
with_dir path w = record w { dirs = path ∷ w.dirs }

-- os.RemoveAll takes a directory and all that lies below it.
abbrev pub without_tree : String → List String → List String
without_tree path paths = select (λ x. not (lies_in path x)) paths

abbrev pub without_dir : String → RuntimeWorld → RuntimeWorld
without_dir path w = record w { dirs = without_tree path w.dirs }

abbrev pub with_signal : ℕ → RuntimeWorld → RuntimeWorld
with_signal pid w = record w { signalled = pid ∷ w.signalled }

-- A question whose answer the environment gives.
unfoldable pub ask : {A : Type 0} → (RuntimeEnv → ℕ → A) → Runs A
ask answer w = (ok (answer w.env w.clock), ticked w)

abbrev timed_out : Error
timed_out = message "context deadline exceeded" ""

abbrev pid_of : Option ℤ → Attempt ℤ
pid_of none = failed (message "parse pid file" "")
pid_of (some pid) =
    if ltb_ℤ pid (pos 1)
    then failed (message "pid file must contain a positive pid" "")
    else value pid

-- readPIDFile; `none` where the file is missing.
abbrev pub read_pid : Option String → Option (Attempt ℤ)
read_pid none = none
read_pid (some text) = some (pid_of (atoi (trim_space text)))

abbrev positive : ℤ → ℕ
positive (ℤ.pos n) = n
positive (ℤ.negsuc n) = 0

-- One tick of waitForPIDFile, and then the rest of them.
unfoldable pub pid_or_rest : Runs ℕ → Option (Attempt ℤ) → Runs ℕ
unfolding pure raise
pid_or_rest rest none = rest
pid_or_rest rest (some (value pid)) = pure (positive pid)
pid_or_rest rest (some (failed e)) = raise e

unfoldable pub tick_for_pid : Runs ℕ → Runs ℕ
unfolding ◌>>=◌ raise ask pid_or_rest
tick_for_pid rest = do
  is_done ← ask (λ env n. env.answer n)
  text ← ask (λ env n. env.pid_text n)
  if is_done then raise timed_out else pid_or_rest rest (read_pid text)

-- waitForPIDFile, with the number of ticks that its time-out still has.
unfoldable pub wait_for_pid_file : ℕ → Runs ℕ
unfolding raise tick_for_pid
wait_for_pid_file zero = raise timed_out
wait_for_pid_file (suc ticks) = tick_for_pid (wait_for_pid_file ticks)

-- One tick of waitForSocket. A socket that is missing or does not answer yet is asked again.
unfoldable pub pinged : Runs (Unit {0}) → Attempt (Unit {0}) → Runs (Unit {0})
unfolding pure
pinged rest (value u) = pure tt
pinged rest (failed e) = rest

unfoldable pub socket_found : Runs (Unit {0}) → Bool → Attempt (Unit {0}) → Runs (Unit {0})
unfolding ◌>>=◌ raise try act pinged
socket_found rest missing (failed e) = if missing then rest else raise e
socket_found rest missing (value u) = do answered ← try (act unchanged); pinged rest answered

unfoldable pub tick_for_socket : Runs (Unit {0}) → Runs (Unit {0})
unfolding ◌>>=◌ raise try ask act socket_found
tick_for_socket rest = do
  is_done ← ask (λ env n. env.answer n)
  missing ← ask (λ env n. env.answer n)
  found ← try (act unchanged)
  if is_done then raise timed_out else socket_found rest missing found

-- waitForSocket.
unfoldable pub wait_for_socket : ℕ → Runs (Unit {0})
unfolding raise tick_for_socket
wait_for_socket zero = raise timed_out
wait_for_socket (suc ticks) = tick_for_socket (wait_for_socket ticks)

-- Ten seconds of ticks of ten milliseconds.
abbrev pub init_ticks : ℕ
init_ticks = 1000
