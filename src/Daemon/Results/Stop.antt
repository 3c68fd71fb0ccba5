-- ===== src/Daemon/Results/Stop.antt =====
-- StopMachine and DeleteMachine do what they say where they succeed.
use computer_host.Base.{true, ◌≡◌, refl, string_key, subst, Error, not_found, if◌then◌else◌}
use computer_host.Model.{MachineId, Time, MachineRecord, MachinePhase, stopped, is_stopped}
use computer_host.Host.Exec.{Attempt, value, failed, ◌>>◌, pure}
use computer_host.Host.Exec.Yields.{Given, Yields, Yields-pure, Yields-if, Yields-bind}
use computer_host.Host.World.{World}
use computer_host.Daemon.Records.{stop_machine_record, stopped_record, delete_machine_record}
use computer_host.Daemon.Lifecycle
use computer_host.Daemon.Lifecycle.{journaled, stop_active, stop_machine, delete_machine}
use computer_host.Daemon.Results.{
  IsStoppedIn, IsGoneFrom, Shows, update_machine-Yields, delete_machine-Yields, Safe-Yields,
  find_key,
}
use computer_host.Daemon.Safe.{IsTidy}
use computer_host.Daemon.Safe.Records.{take_down-Safe, clean_up-Safe}
use computer_host.Daemon.Results.Steps.{
  with_machine_lock-Yields, journaled-Yields, get_machine-Yields, now-Yields,
  try-get_machine-Yields, Found,
}

is_stopped→≡ : (phase : MachinePhase) → is_stopped phase ≡ true → phase ≡ stopped
is_stopped→≡ MachinePhase.stopped h = refl
is_stopped→≡ MachinePhase.starting h = cc
is_stopped→≡ MachinePhase.running h = cc
is_stopped→≡ MachinePhase.failed h = cc

-- The last writes of stopMachineRecord and of deleteMachineRecord.
stop_machine_record-Yields :
    (r : MachineRecord)
    → Yields IsTidy (λ u w. IsStoppedIn r.id w.store) (stop_machine_record r >> pure tt)
unfolding stop_machine_record
stop_machine_record-Yields r =
    let Q : World → Type 0 = λ w. IsStoppedIn r.id w.store in
    Yields-bind IsTidy (λ u. Q) (λ u. Q) _ _
      (Yields-bind IsTidy (λ u. IsTidy) (λ u. Q) _ _ (Safe-Yields _ (λ held. take_down-Safe held r))
        (λ u.
          Yields-bind IsTidy (λ u w. Shows r.id (stopped_record r) w.store) (λ u. Q) _ _
            (update_machine-Yields (stopped_record r))
            (λ u.
              Yields-pure _ _ _ (λ w h. let (st, d, e) = h in (st, stopped_record r, d, e, refl)))))
      (λ u. Yields-pure _ _ tt (λ w h. h))

delete_machine_record-Yields :
    (r : MachineRecord) → Yields IsTidy (λ u w. IsGoneFrom r.id w.store) (delete_machine_record r)
unfolding delete_machine_record
delete_machine_record-Yields r =
    Yields-bind IsTidy (λ u. IsTidy) (λ u w. IsGoneFrom r.id w.store) _ _
      (Safe-Yields _ (λ held. clean_up-Safe held r)) (λ u. delete_machine-Yields r)

stop_active-Yields :
    (id : MachineId) (r : MachineRecord) (t : Time)
    → r.id ≡ id
    → Yields IsTidy (λ u w. IsStoppedIn id w.store) (stop_active id r t)
unfolding stop_active
stop_active-Yields id r t e =
    journaled-Yields (λ u. IsStoppedIn id) (λ a s d h. h) id _ _
      (subst (λ x. Yields IsTidy (λ u w. IsStoppedIn x w.store) (stop_machine_record r >> pure tt))
        e (stop_machine_record-Yields r))

stop_found-Yields :
    (id : MachineId) (r : MachineRecord) (t : Time)
    → Yields
        (λ w. IsTidy w × Shows id r w.store)
        (λ u w. IsStoppedIn id w.store)
        (if is_stopped r.phase then pure tt else stop_active id r t)
stop_found-Yields id r t =
    Yields-if _ _ (is_stopped r.phase) _ _
      (λ p.
        Yields-pure _ _ tt (λ w h. let (st, d, e) = h.1 in (st, r, d, e, is_stopped→≡ r.phase p)))
      (λ p. record {
        run = λ w h.
            let (st, d, e) = h.1 in
            (stop_active-Yields id r t (find_key id r st.machines e)).run w h.0;
      })

-- From a tidy host, with whatever mutexes locked: if StopMachine succeeds, the state file holds a
-- record of the machine, and its phase is stopped.
pub stop_machine-IsStoppedIn :
    (id : MachineId) (w : World)
    → IsTidy w
    → Given (λ u v. IsStoppedIn id v.store) (stop_machine id w)
unfolding stop_machine
stop_machine-IsStoppedIn id w t =
    (with_machine_lock-Yields (λ u. IsStoppedIn id) id _
        (Yields-bind IsTidy (λ r v. IsTidy v × Shows id r v.store) (λ u v. IsStoppedIn id v.store) _
          _ (get_machine-Yields id)
          (λ r.
            Yields-bind _ (λ x v. IsTidy v × Shows id r v.store) (λ u v. IsStoppedIn id v.store) _ _
              (now-Yields _) (λ x. stop_found-Yields id r x)))).run
      w t

delete_found-Yields :
    (id : MachineId) (a : Attempt MachineRecord)
    → Yields
        (λ w. IsTidy w × Found id a w.store)
        (λ u w. IsGoneFrom id w.store)
        (Lifecycle.delete_found id a)
unfolding Lifecycle.delete_found
delete_found-Yields id (value r) =
    Yields-bind _ (λ t w. IsTidy w × Shows id r w.store) (λ u w. IsGoneFrom id w.store) _ _
      (now-Yields _)
      (λ t. record {
        run = λ w h.
            let (st, d, e) = h.1 in
            let k =
              subst (λ x. Yields IsTidy (λ u w. IsGoneFrom x w.store) (delete_machine_record r))
                (find_key id r st.machines e) (delete_machine_record-Yields r) in
            (journaled-Yields (λ u. IsGoneFrom id) (λ a s d h. h) id _ _ k).run w h.0;
      })
delete_found-Yields id (failed not_found) = Yields-pure _ _ tt (λ w h. h.1 refl)
delete_found-Yields id (failed (Error.message t n)) = record { run = λ w h. tt }
delete_found-Yields id (failed (Error.external t)) = record { run = λ w h. tt }
delete_found-Yields id (failed Error.address_in_use) = record { run = λ w h. tt }

-- From a tidy host, with whatever mutexes locked: if DeleteMachine succeeds, the state file holds no
-- record of the machine.
pub delete_machine-IsGoneFrom :
    (id : MachineId) (w : World)
    → IsTidy w
    → Given (λ u v. IsGoneFrom id v.store) (delete_machine id w)
unfolding delete_machine
delete_machine-IsGoneFrom id w t =
    (with_machine_lock-Yields (λ u. IsGoneFrom id) id _
        (Yields-bind IsTidy (λ a v. IsTidy v × Found id a v.store) (λ u v. IsGoneFrom id v.store) _
          _ (try-get_machine-Yields id) (λ a. delete_found-Yields id a))).run
      w t
