-- ===== src/Daemon/Safe/Start.antt =====
-- StartMachine gives its mutex back, or dies of unlocking it twice.
use computer_host.Base.{
  false, ◌≡◌, refl, ap, List, ◌∷◌, ◌⊎◌, inl, inr, Outcome, ok, err, halt, unlock_of_unlocked, none,
  [], string_key, arith, subst, Bool-cases,
}
use computer_host.Model.{MachineId, Time, MachineRecord, MachinePhase, starting}
use computer_host.Host.Exec
use computer_host.Host.Exec.{Exec, ◌>>=◌, ◌>>◌, deferring}
use computer_host.Host.Exec.Post.{After, Keeps, after_all, keeps_rules, Keeps-bind}
use computer_host.Host.World.{World}
use computer_host.Host.Calls.{
  Host, on_store, now, with_machine_lock, lock_machine, unlock_machine, is_held,
}
use computer_host.Store.Table.{remove}
use computer_host.Store.Machines.{get_machine}
use computer_host.Store.Consistent.Rules.{get_machine-Sound}
use computer_host.Daemon.Lifecycle.{start_from, start_locked, start_machine, reconcile_machine}
use computer_host.Daemon.Safe.{
  IsTidy, IsTidyHolding, Safe, unlock_first, resounded, on_store-Safe, now-Safe,
}
use computer_host.Daemon.Safe.Requests.{journaled-Safe, boot_stopped-Safe, reconcile_machine-Safe}

-- The mutex of `id` is locked over those of `held`, or it is not.
abbrev IsLoose : MachineId → List MachineId → World → Type 0
IsLoose id held w = IsTidy w × ((w.held ≡ id ∷ held) ⊎ (w.held ≡ held))

remove_free :
    (id : MachineId) (held : List MachineId)
    → is_held id held ≡ false
    → remove (λ x. x) id held ≡ none
unfolding remove
remove_free id [] f = refl
remove_free id (x ∷ xs) f = ground (arith, remove_free id xs)

-- A mutex that is not locked is not unlocked.
unlock_free :
    (id : MachineId) (held : List MachineId) (w : World)
    → is_held id held ≡ false
    → w.held ≡ held
    → unlock_machine id w ≡ (halt unlock_of_unlocked, w)
unfolding unlock_machine
unlock_free id held w f e = rw (e, remove_free id held f) refl

module _ (id : MachineId) (held : List MachineId) where
  loosened :
      {A : Type 0} (r : Outcome A) (w : World)
      → After IsTidy (IsTidyHolding (id ∷ held)) (r, w) ⊎ After IsTidy (IsTidyHolding held) (r, w)
      → After IsTidy (IsLoose id held) (r, w)
  loosened (ok a) w (inl (t, e)) = (t, inl e)
  loosened (ok a) w (inr (t, e)) = (t, inr e)
  loosened (err x) w (inl (t, e)) = (t, inl e)
  loosened (err x) w (inr (t, e)) = (t, inr e)
  loosened (halt x) w (inl t) = t
  loosened (halt x) w (inr t) = t

  -- What is safe with whatever mutexes keeps either case.
  Safe-IsLoose :
      {A : Type 0} (m : Host A)
      → ((locks : List MachineId) → Safe locks m)
      → Keeps IsTidy (IsLoose id held) m
  Safe-IsLoose m k = record {
    run = λ w h. elim h.1 [
      | inl e ↦ loosened (m w).0 (m w).1 (inl ((k (id ∷ held)).run w (h.0, e)))
      | inr e ↦ loosened (m w).0 (m w).1 (inr ((k held).run w (h.0, e)))
    ];
  }

  unlock_machine-IsLoose :
      is_held id held ≡ false → Keeps IsTidy (IsLoose id held) (unlock_machine id)
  unlock_machine-IsLoose f = record {
    run = λ w h. elim h.1 [
      | inl e ↦ rw (unlock_first id held w e) (h.0, inr refl)
      | inr e ↦ rw (unlock_free id held w f e) h.0
    ];
  }

  start_from-IsLoose :
      (phase : MachinePhase) (r : MachineRecord) (t : Time)
      → is_held id held ≡ false
      → Keeps IsTidy (IsLoose id held) (start_from phase id r t)
  unfolding start_from
  start_from-IsLoose MachinePhase.running r t f = search keeps_rules
  start_from-IsLoose MachinePhase.failed r t f = search keeps_rules
  start_from-IsLoose MachinePhase.stopped r t f =
      Safe-IsLoose _ (λ locks. journaled-Safe locks id _ _ (boot_stopped-Safe locks r))
  start_from-IsLoose MachinePhase.starting r t f =
      Keeps-bind _ _ (unlock_machine-IsLoose f)
        (λ u. Safe-IsLoose _ (λ locks. reconcile_machine-Safe locks id))

  start_locked-IsLoose : is_held id held ≡ false → Keeps IsTidy (IsLoose id held) (start_locked id)
  unfolding start_locked
  start_locked-IsLoose f =
      Keeps-bind _ _ (Safe-IsLoose _ (λ locks. on_store-Safe locks _ (get_machine-Sound id)))
        (λ r. Keeps-bind _ _ (Safe-IsLoose _ now-Safe) (λ t. start_from-IsLoose r.phase r t f))

  -- The deferred unlock takes back what is locked, or finds that nothing is.
  unlocked_after :
      {A : Type 0} (r : Outcome A) (w : World)
      → is_held id held ≡ false
      → After IsTidy (IsLoose id held) (r, w)
      → After IsTidy (IsTidyHolding held) (Exec.with_deferred (unlock_machine id) r w)
  unlocked_after (ok a) w f (t, inl e) = rw (unlock_first id held w e) (t, refl)
  unlocked_after (ok a) w f (t, inr e) = rw (unlock_free id held w f e) t
  unlocked_after (err x) w f (t, inl e) = rw (unlock_first id held w e) (t, refl)
  unlocked_after (err x) w f (t, inr e) = rw (unlock_free id held w f e) t
  unlocked_after (halt x) w f t = t

  locked_after :
      (w : World)
      → IsTidyHolding held w
      → After IsTidy (IsTidyHolding held) (with_machine_lock id (start_locked id) w)
  unfolding with_machine_lock lock_machine ◌>>=◌ deferring
  locked_after w (t, e) = elim (Bool-cases (is_held id w.held)) [
    | inl l ↦ rw l t
    | inr l ↦
        let v : World = record w { held = id ∷ w.held } in
        let f : is_held id held ≡ false = subst (λ x. is_held id x ≡ false) e l in
        rw l (
          unlocked_after (start_locked id v).0 (start_locked id v).1 f
            ((start_locked-IsLoose f).run v (t, inl (ap (λ x. id ∷ x) e))))
  ]

module _ (held : List MachineId) where
  pub start_machine-Safe : (id : MachineId) → Safe held (start_machine id)
  unfolding start_machine
  start_machine-Safe id = record { run = λ w h. locked_after id held w h }

-- What a call ends with, after which the mutex is unlocked that it has unlocked before: where it returns,
-- with a value or an error, that ends the process; where it never returns, that is the end.
abbrev pub DiesOfUnlock : {A : Type 0} → Outcome A → Outcome A → Type 0
DiesOfUnlock (ok a) r = r ≡ halt unlock_of_unlocked
DiesOfUnlock (err e) r = r ≡ halt unlock_of_unlocked
DiesOfUnlock (halt x) r = r ≡ halt x

module _ (id : MachineId) (held : List MachineId) where
  -- Once its mutex was given back, the deferred unlock kills the process.
  unlocked_twice :
      {A : Type 0} (r : Outcome A) (w : World)
      → is_held id held ≡ false
      → After IsTidy (IsTidyHolding held) (r, w)
      → DiesOfUnlock r (Exec.with_deferred (unlock_machine id) r w).0
  unlocked_twice (ok a) w f (t, e) = rw (unlock_free id held w f e) refl
  unlocked_twice (err x) w f (t, e) = rw (unlock_free id held w f e) refl
  unlocked_twice (halt x) w f t = refl

-- A request to start a machine whose record says that it is starting, while its mutex is not locked:
-- the mutex is unlocked before the machine is reconciled, and where that returns, with a value or an
-- error, the process dies of unlocking an unlocked mutex. Where the reconciliation never returns, the
-- request ends as that does.
pub start_machine-IsKilled :
    (id : MachineId) (r : MachineRecord) (w : World)
    → IsTidy w
    → is_held id w.held ≡ false
    → (get_machine id w.store).0 ≡ ok r
    → r.phase ≡ starting
    → DiesOfUnlock
        (reconcile_machine id (record w { store = (get_machine id w.store).1 })).0
        (start_machine id w).0
unfolding start_machine with_machine_lock lock_machine ◌>>=◌ deferring start_locked start_from
    on_store now
start_machine-IsKilled id r w t l g p =
    let (o, s) = get_machine id w.store in
    let u : World = record w { store = s } in
    let v : World = record u { held = id ∷ w.held } in
    let k = after_all _ o s ((get_machine-Sound id _ _).run w.store t.is_sound) in
    rw (l, g, p, unlock_first id w.held v refl)
      (unlocked_twice id w.held (reconcile_machine id u).0 (reconcile_machine id u).1 l
        ((reconcile_machine-Safe w.held id).run u (resounded w s t k, refl)))
