-- ===== src/Daemon/Awake.antt =====
-- Whether a machine is left paused, by the calls of a request, and rules for what leaves none.
use computer_host.Base.{
  ◌||◌, ℕ, ◌+◌, ◌-◌, String, arith, Bool, true, false, ◌≡◌, refl, List, [], ◌∷◌, Outcome, Error, ok,
  err, halt, ◌=?◌, string_key, =?-refl, if◌then◌else◌,
}
use computer_host.Model.{MachineId}
use computer_host.Host.Exec
use computer_host.Host.Exec.{
  Exec, Attempt, value, failed, ◌>>=◌, ◌>>◌, pure, ignore, on_error, wrapping, deferring,
}
use computer_host.Host.Exec.Post.{
  After, Keeps, keeps_rules, Keeps-pure, bind_outcome, cleaned_after, ignored_after, reworded_after,
}
use computer_host.Host.File.{Event}
use computer_host.Host.World.{World, Env, Call}
use computer_host.Host.Calls.{
  is_success, remove_tree, swept_if, Host, call, run, on_store, now, ended,
}
use computer_host.Store.FileStore.{FileStore}

abbrev succeeded : Event → Bool
succeeded Event.succeeds = true
succeeded Event.fails = false
succeeded Event.finds_in_use = false
succeeded Event.dies = false

-- What a call does to whether a machine is paused; `did` is whether it succeeded.
abbrev paused_by : MachineId → Call → Bool → Bool → Bool
paused_by id (Call.pause x) did before = if x =? id then did else before
paused_by id (Call.resume x) did before = if x =? id then false else before
paused_by id _ did before = before

-- Whether a machine was paused and not asked to resume since, by the calls so far and their number.
unfoldable pub is_left_paused : (ℕ → Event) → MachineId → List Call → ℕ → Bool
is_left_paused outcome id [] n = false
is_left_paused outcome id (c ∷ cs) n =
    paused_by id c (succeeded (outcome (n - 1))) (is_left_paused outcome id cs (n - 1))

-- No machine with the identifier was left paused.
abbrev pub IsAwake : MachineId → World → Type 0
IsAwake id w = is_left_paused w.env.outcome id w.trace w.clock ≡ false

abbrev pub Halted : World → Type 0
Halted w = Unit

-- A call that leaves the machine awake, or halts, from whatever state.
pub record Wakes {A : Type 0} (id : MachineId) (m : Host A) : Type 0 where
  pub run : (w : World) → After Halted (IsAwake id) (m w)

abbrev pub Rests : MachineId → {A : Type 0} → Host A → Type 0
Rests id m = Keeps Halted (IsAwake id) m

module _ (id : MachineId) where
  called_after :
      {A : Type 0} (a : A) (e : Event) (w : World)
      → (succeeded e ≡ false → IsAwake id w)
      → (succeeded e ≡ true → IsAwake id w)
      → After Halted (IsAwake id) (ended a e, w)
  called_after a Event.succeeds w h k = k refl
  called_after a Event.fails w h k = h refl
  called_after a Event.finds_in_use w h k = h refl
  called_after a Event.dies w h k = tt

  stored_after :
      {A : Type 0} (r : Outcome A) (w : World) → IsAwake id w → After Halted (IsAwake id) (r, w)
  stored_after (ok a) w h = h
  stored_after (err e) w h = h
  stored_after (halt x) w h = tt

  next_paused :
      (outcome : ℕ → Event) (c : Call) (cs : List Call) (n : ℕ)
      → is_left_paused outcome id (c ∷ cs) (n + 1)
        ≡ paused_by id c (succeeded (outcome n)) (is_left_paused outcome id cs n)
  unfolding is_left_paused
  next_paused outcome c cs n = let e : n + 1 - 1 ≡ n = omega arith in rw e refl

  -- Every call but a pause of the machine.
  pub call-Rests :
      {A : Type 0} (c : Call) (answer : Env → ℕ → A)
      → ((did before : Bool) → before ≡ false → paused_by id c did before ≡ false)
      → Rests id (call c answer)
  unfolding call
  call-Rests c answer k = record {
    run = λ w h.
        let e = w.env.outcome w.clock in
        let k' : IsAwake id (record w { trace = c ∷ w.trace; clock = w.clock + 1 }) =
          rw (next_paused w.env.outcome c w.trace w.clock)
            (k (succeeded e) (is_left_paused w.env.outcome id w.trace w.clock) h) in
        called_after (answer w.env w.clock) e
          (record w { trace = c ∷ w.trace; clock = w.clock + 1 }) (λ _. k') (λ _. k');
  }

  pub run-Rests :
      (c : Call)
      → ((did before : Bool) → before ≡ false → paused_by id c did before ≡ false)
      → Rests id (run c)
  unfolding run
  run-Rests c k = call-Rests c _ k

  swept_after :
      {A : Type 0} (takes : Bool) (path : String) (r : Outcome A) (w : World)
      → After Halted (IsAwake id) (r, w)
      → After Halted (IsAwake id) (r, swept_if takes path w)
  swept_after takes path (ok a) w h = h
  swept_after takes path (err e) w h = h
  swept_after takes path (halt x) w h = h

  pub remove_tree-Rests : (path : String) → Rests id (remove_tree path)
  unfolding remove_tree
  remove_tree-Rests path = record {
    run = λ w h.
        let c = Call.remove_all path in
        swept_after (is_success (w.env.outcome w.clock) || w.env.answer w.clock) path (run c w).0
          (run c w).1 ((run-Rests c (λ did before e. e)).run w h);
  }

  -- What is read of the world, and the store, have no part in it.
  pub on_store-Rests : {A : Type 0} (m : Exec FileStore A) → Rests id (on_store m)
  unfolding on_store
  on_store-Rests m = record {
    run = λ w h. let (r, s) = m w.store in stored_after r (record w { store = s }) h;
  }

  pub now-Rests : Rests id now
  unfolding now
  now-Rests = record { run = λ w h. h }

  pub ruleset resting = (keeps_rules, on_store-Rests, now-Rests)

  -- What is left to do where the machine is awake already.
  pub Wakes-bind :
      {A B : Type 0} (m : Host A) (f : A → Host B)
      → Wakes id m
      → ((a : A) → Rests id (f a))
      → Wakes id (m >>= f)
  unfolding ◌>>=◌
  Wakes-bind m f k l = record { run = λ w. let (r, v) = m w in bind_outcome f r v l (k.run w) }

  pub Wakes-on_error :
      {A : Type 0} (c : Host (Unit {0})) (m : Host A)
      → Rests id c
      → Wakes id m
      → Wakes id (on_error c m)
  unfolding on_error
  Wakes-on_error c m l k = record {
    run = λ w. let (r, v) = m w in cleaned_after Halted (IsAwake id) c r v l (k.run w);
  }

  errored_after :
      (A : Type 0) {B : Type 0} (f : A → Host B) (e : Error) (q : Outcome (Unit {0})) (w : World)
      → After Halted (IsAwake id) (q, w)
      → After Halted (IsAwake id) (Exec.with_outcome f (Exec.resumed {A = A} (err e) q) w)
  errored_after A f e (ok u) w h = h
  errored_after A f e (err x) w h = h
  errored_after A f e (halt x) w h = h

  caught_after :
      {A B : Type 0} (c : Host (Unit {0})) (f : A → Host B) (r : Outcome A) (w : World)
      → Wakes id c
      → ((a : A) → Wakes id (f a))
      → After Halted
          (IsAwake id)
          (Exec.with_outcome f (Exec.with_cleanup c r w).0 (Exec.with_cleanup c r w).1)
  caught_after c f (ok a) w k l = (l a).run w
  caught_after {A} c f (err e) w k l = let (q, v) = c w in errored_after A f e q v (k.run w)
  caught_after c f (halt x) w k l = tt

  -- Where `m` returns an error, the cleanup wakes the machine, where it returns a value, what follows.
  pub Wakes-caught :
      {A B : Type 0} (c : Host (Unit {0})) (m : Host A) (f : A → Host B)
      → Wakes id c
      → ((a : A) → Wakes id (f a))
      → Wakes id (on_error c m >>= f)
  unfolding ◌>>=◌ on_error
  Wakes-caught c m f k l = record { run = λ w. caught_after c f (m w).0 (m w).1 k l }

  pub resume-Wakes : Wakes id (run (Call.resume id))
  unfolding run call
  resume-Wakes = record {
    run = λ w.
        let k : IsAwake id (record w { trace = Call.resume id ∷ w.trace; clock = w.clock + 1 }) =
          rw (next_paused w.env.outcome (Call.resume id) w.trace w.clock, =?-refl id) refl in
        called_after tt (w.env.outcome w.clock)
          (record w { trace = Call.resume id ∷ w.trace; clock = w.clock + 1 }) (λ _. k) (λ _. k);
  }

  pub Wakes-ignore : {A : Type 0} (m : Host A) → Wakes id m → Wakes id (ignore m)
  unfolding ignore
  Wakes-ignore m k = record {
    run = λ w. let (r, v) = m w in ignored_after Halted (IsAwake id) r v (k.run w);
  }

  pub Wakes-wrapping :
      {A : Type 0} (text : String) (m : Host A) → Wakes id m → Wakes id (wrapping text m)
  unfolding wrapping
  Wakes-wrapping text m k = record {
    run = λ w. let (r, v) = m w in reworded_after Halted (IsAwake id) text r v (k.run w);
  }

  paused_after :
      {B : Type 0} (text : String) (f : Unit {0} → Host B) (e : Event) (w : World)
      → ((u : Unit {0}) → Wakes id (f u))
      → (succeeded e ≡ false → IsAwake id w)
      → After Halted (IsAwake id) (Exec.with_outcome f (Exec.reworded text (ended tt e)) w)
  paused_after text f Event.succeeds w k h = (k tt).run w
  paused_after text f Event.fails w k h = h refl
  paused_after text f Event.finds_in_use w k h = h refl
  paused_after text f Event.dies w k h = tt

  -- A pause that fails leaves the machine as it was.
  pub pause_then :
      {B : Type 0} (text : String) (f : Unit {0} → Host B)
      → ((u : Unit {0}) → Wakes id (f u))
      → Rests id (wrapping text (run (Call.pause id)) >>= f)
  unfolding ◌>>=◌ wrapping run call
  pause_then text f k = record {
    run = λ w h.
        let v : World = record w { trace = Call.pause id ∷ w.trace; clock = w.clock + 1 } in
        paused_after text f (w.env.outcome w.clock) v k
          (λ e. rw (next_paused w.env.outcome (Call.pause id) w.trace w.clock, =?-refl id) e);
  }
