-- ===== src/Firecracker/Runtime/Stop/Ends.antt =====
-- The loop of Stop ends once the process is gone.
use mathlib.Core.Bool.{false≢true}
use computer_host.Base.{
  ℕ, zero, suc, ◌+◌, ◌-◌, ◌≤◌, ◌<◌, Bool, true, false, not, ◌&&◌, ◌≡◌, refl, Outcome, ok, err, halt,
  arith, Error, message, string_key, sym, ◌∙◌, Bool-cases, inl, inr, leb, ltb, if◌then◌else◌,
}
use computer_host.Host.Exec
use computer_host.Host.Exec.{Attempt, value, failed, ◌>>=◌, ◌>>◌, pure, raise, wrapping, when, try}
use computer_host.Host.Exec.Post.{After, Keeps, keeps_rules}
use computer_host.Host.World.{MachineState}
use computer_host.Firecracker.Runtime.{
  RuntimeEnv, RuntimeWorld, Runs, act, ask, with_signal, changed_if, ended_by,
}
use computer_host.Firecracker.Runtime.Stop
use computer_host.Firecracker.Runtime.Stop.{process_exists, stop_round, stop_loop, stop_process}

-- A process that is gone stays gone.
abbrev pub GoneFrom : ℕ → RuntimeEnv → Type 0
GoneFrom c env = (n : ℕ) → c ≤ n → env.is_alive n ≡ false

abbrev pub Never : RuntimeWorld → Type 0
Never w = ⊥

module _ (c k : ℕ) where
  -- The process is gone before so many further calls.
  abbrev Near : RuntimeWorld → Type 0
  Near w = (c - w.clock < k) × GoneFrom c w.env

  abbrev Stays : {A : Type 0} → Runs A → Type 0
  Stays m = Keeps Never Near m

  ask-Stays : {A : Type 0} (answer : RuntimeEnv → ℕ → A) → Stays (ask answer)
  unfolding ask
  ask-Stays answer = record { run = λ w h. (omega (arith, h.0), h.1) }

  ended_after : (b : Bool) (w : RuntimeWorld) → Near w → After Never Near (ended_by b, w)
  ended_after true w h = h
  ended_after false w h = h

  signalled-Near :
      (b : Bool) (pid : ℕ) (w : RuntimeWorld) → Near w → Near (changed_if b (with_signal pid) w)
  signalled-Near true pid w h = (omega (arith, h.0), h.1)
  signalled-Near false pid w h = (omega (arith, h.0), h.1)

  signal-Stays : (pid : ℕ) → Stays (act (with_signal pid))
  unfolding act
  signal-Stays pid = record { run = λ w h. ended_after _ _ (signalled-Near _ pid w h) }

  done_or_raise-Stays :
      (is_done : Bool) (a : Attempt (Unit {0})) → Stays (Stop.done_or_raise is_done a)
  unfolding Stop.done_or_raise
  done_or_raise-Stays is_done (value u) = search keeps_rules
  done_or_raise-Stays is_done (failed e) = search keeps_rules

  send_signal-Stays : (pid : ℕ) → Stays (Stop.send_signal pid)
  unfolding Stop.send_signal
  send_signal-Stays pid = search (keeps_rules, ask-Stays, signal-Stays, done_or_raise-Stays)

  -- A call that returns, with a value or an error.
  record Ends {A : Type 0} (m : Runs A) : Type 0 where
    pub run : (w : RuntimeWorld) → Near w → After Never (λ v. Unit) (m w)

  ends_next :
      {A B : Type 0} (f : A → Runs B) (r : Outcome A) (w : RuntimeWorld)
      → ((a : A) → Ends (f a))
      → After Never Near (r, w)
      → After Never (λ v. Unit) (Exec.with_outcome f r w)
  ends_next f (ok a) w k h = (k a).run w h
  ends_next f (err e) w k h = tt
  ends_next f (halt x) w k h = h

  Ends-bind :
      {A B : Type 0} (m : Runs A) (f : A → Runs B)
      → Stays m
      → ((a : A) → Ends (f a))
      → Ends (m >>= f)
  unfolding ◌>>=◌
  Ends-bind m f km kf = record { run = λ w h. ends_next f (m w).0 (m w).1 kf (km.run w h) }

  Ends-raise : {A : Type 0} (e : Error) → Ends (raise {A = A} e)
  unfolding raise
  Ends-raise e = record { run = λ w h. tt }

  Ends-pure : {A : Type 0} (a : A) → Ends (pure a)
  unfolding pure
  Ends-pure a = record { run = λ w h. tt }

  Ends-if : {A : Type 0} (b : Bool) (m n : Runs A) → Ends m → Ends n → Ends (if b then m else n)
  Ends-if true m n km kn = km
  Ends-if false m n km kn = kn

-- The rest of a round, once the process was seen.
abbrev seen : ℕ → Bool → (Bool → Runs (Unit {0})) → Runs (Unit {0})
seen pid sent rest = do
  late ← ask (λ env n. env.answer n)
  when (not sent && late) (Stop.send_signal pid)
  is_done ← ask (λ env n. env.answer n)
  let next = rest (if not sent && late then true else sent)
  if is_done then raise (message "context is done" "") else next

seen-Ends :
    (c k pid : ℕ) (sent : Bool) (rest : Bool → Runs (Unit {0}))
    → ((s : Bool) → Ends c k (rest s))
    → Ends c k (seen pid sent rest)
seen-Ends c k pid sent rest h = Ends-bind c k _ _ (ask-Stays c k _) (λ late.
    Ends-bind c k _ _ (search (keeps_rules, send_signal-Stays)) (λ u.
      Ends-bind c k _ _ (ask-Stays c k _)
        (λ is_done. Ends-if c k is_done _ _ (Ends-raise c k _) (h _))))

polled :
    (c k pid : ℕ) (sent alive : Bool) (rest : Bool → Runs (Unit {0})) (w : RuntimeWorld)
    → ((s : Bool) → Ends c k (rest s))
    → (alive ≡ true → Near c k w)
    → After Never (λ v. Unit) ((if not alive then pure tt else seen pid sent rest) w)
unfolding pure
polled c k pid sent true rest w h n = (seen-Ends c k pid sent rest h).run w (n refl)
polled c k pid sent false rest w h n = tt

stop_round-Ends :
    (c k pid : ℕ) (sent : Bool) (rest : Bool → Runs (Unit {0}))
    → ((s : Bool) → Ends c k (rest s))
    → Ends c (suc k) (stop_round pid sent rest)
unfolding stop_round process_exists ◌>>=◌ ask pure
stop_round-Ends c k pid sent rest h = record {
  run = λ w n. elim (Bool-cases (ltb 0 pid)) [
    | inl p ↦ rw p (
        polled c k pid sent (w.env.is_alive w.clock) rest (record w { clock = w.clock + 1 }) h
          (λ a. elim (Bool-cases (leb c w.clock)) [
            | inl l ↦ absurd (false≢true (sym (n.1 w.clock (ground arith)) ∙ a))
            | inr l ↦ (ground arith, n.1)
          ]))
    | inr p ↦ rw p (polled c k pid sent false rest w h (λ a. absurd (false≢true a)))
  ];
}

stop_loop-Ends : (c rounds pid : ℕ) (sent : Bool) → Ends c rounds (stop_loop rounds pid sent)
unfolding stop_loop
stop_loop-Ends c zero pid sent = record { run = λ w h. ground arith }
stop_loop-Ends c (suc rounds) pid sent =
    stop_round-Ends c rounds pid sent _ (λ s. stop_loop-Ends c rounds pid s)

process_exists-Stays : (c k pid : ℕ) → Stays c k (process_exists pid)
unfolding process_exists
process_exists-Stays c k pid = search (keeps_rules, ask-Stays)

stop_process-Ends :
    (c rounds : ℕ) (state : MachineState) → Ends c rounds (stop_process rounds state)
unfolding stop_process
stop_process-Ends c rounds state =
    Ends-bind c rounds _ _ (process_exists-Stays c rounds state.pid) (λ alive.
      Ends-if c rounds (not alive) _ _ (Ends-pure c rounds tt) (
        Ends-bind c rounds (wrapping "stop machine" (Stop.send_signal state.pid))
          (λ u. stop_loop rounds state.pid false) (search (keeps_rules, send_signal-Stays))
          (λ u. stop_loop-Ends c rounds state.pid false)))

-- If the process is gone from some call on (it may ignore SIGTERM till it gets SIGKILL), and signals and
-- questions may fail in any way: Stop returns, with a value or an error, within as many rounds as there
-- are calls till then and one more, so that its loop, which has no bound of its own, ends.
pub stop_process-IsEnding :
    (c rounds : ℕ) (state : MachineState) (w : RuntimeWorld)
    → GoneFrom c w.env
    → c - w.clock < rounds
    → After Never (λ v. Unit) (stop_process rounds state w)
stop_process-IsEnding c rounds state w g h = (stop_process-Ends c rounds state).run w (h, g)
