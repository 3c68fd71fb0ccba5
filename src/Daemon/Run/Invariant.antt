-- ===== src/Daemon/Run/Invariant.antt =====
-- What holds of the host whatever requests are served.
use computer_host.Base.{
  refl, ◌≡◌, ◌⊎◌, inl, inr, true, arith, deadlock, died, unlock_of_unlocked, List, [], ◌∷◌, Outcome,
  ok, err, halt,
}
use computer_host.Model.{MachineId}
use computer_host.Host.Exec.Post.{After, after_all}
use computer_host.Host.World.{World}
use computer_host.Store.FileStore.{new_file_store}
use computer_host.Store.Consistent.Rules.{new_file_store-Sound}
use computer_host.Daemon.Run
use computer_host.Daemon.Run.{
  Request, get, start, stop, delete, relay_exec, create, snapshot, restore, delete_snapshot, resize,
  publish, unpublish, mount, unmount, reconcile_all, serve, continued, restarted, hangs, run_all,
}
use computer_host.Daemon.Safe.{IsStored, IsTidy, IsTidyHolding, Safe, host_rules}
use computer_host.Daemon.Safe.Relays.{ensure_exec_relay-Safe}
use computer_host.Daemon.Safe.Ports.{create_published_port-Safe, delete_published_port-Safe}
use computer_host.Daemon.Safe.Requests.{
  reconcile_machine-Safe, stop_machine-Safe, resize_machine-Safe, delete_machine-Safe,
  create_mount-Safe, delete_mount-Safe,
}
use computer_host.Daemon.Safe.Creation.{create_new_machine-Safe}
use computer_host.Daemon.Safe.Snapshots.{create_machine_snapshot-Safe, delete_snapshot_by_id-Safe}
use computer_host.Daemon.Safe.Restores.{restore_snapshot-Safe}
use computer_host.Daemon.Safe.Start.{start_machine-Safe}
use computer_host.Daemon.Safe.Reconciled.{reconcile-Safe}

serve_rule : (held : List MachineId) (q : Request) → Safe held (serve q)
unfolding serve
serve_rule held (get id) = search (host_rules, reconcile_machine-Safe)
serve_rule held (start id) = search (host_rules, start_machine-Safe)
serve_rule held (stop id) = stop_machine-Safe held id
serve_rule held (delete id) = delete_machine-Safe held id
serve_rule held (relay_exec id) = search (host_rules, ensure_exec_relay-Safe)
serve_rule held (create req) = search (host_rules, create_new_machine-Safe)
serve_rule held (snapshot id snapshot_id) = search (host_rules, create_machine_snapshot-Safe)
serve_rule held (restore id req) = search (host_rules, restore_snapshot-Safe)
serve_rule held (delete_snapshot id) = delete_snapshot_by_id-Safe held id
serve_rule held (resize id m n) = search (host_rules, resize_machine-Safe)
serve_rule held (publish id req) = search (host_rules, create_published_port-Safe)
serve_rule held (unpublish id port_id) = delete_published_port-Safe held id port_id
serve_rule held (mount id req) = search (host_rules, create_mount-Safe)
serve_rule held (unmount id mount_id) = delete_mount-Safe held id mount_id
serve_rule held reconcile_all = reconcile-Safe held

-- From a tidy host, with whatever mutexes locked by other requests, and whatever calls of the system,
-- of the runtime and of the guests fail: serving a request leaves a tidy host, even where the process
-- dies on the way, and where it returns, with a value or an error, exactly the same mutexes are locked.
-- A host is tidy where no two listeners of a kind have one key and each file of the store is whole
-- and consistent, or unreadable after os.RemoveAll took it or a download of a restore was written to it.
pub serve-Safe :
    (q : Request) (w : World) → IsTidy w → After IsTidy (IsTidyHolding w.held) (serve q w)
serve-Safe q w t = (serve_rule w.held q).run w (t, refl)

restarted-IsTidy : (w : World) → IsTidy w → IsTidyHolding [] (restarted w)
unfolding restarted
restarted-IsTidy w t =
    let (r, s) = new_file_store w.store in
    (
      record {
        is_sound = after_all (IsStored w) r s ((new_file_store-Sound _ _).run w.store t.is_sound);
        relay_keys = tt;
        published_keys = tt;
      },
      refl,
    )

continued-IsTidy :
    (held : List MachineId) (r : Outcome (Unit {0})) (w : World)
    → After IsTidy (IsTidyHolding held) (r, w)
    → IsTidy (continued (r, w))
unfolding continued
continued-IsTidy held (ok x) w h = h.0
continued-IsTidy held (err e) w h = h.0
continued-IsTidy held (halt deadlock) w t = t
continued-IsTidy held (halt died) w t = (restarted-IsTidy w t).0
continued-IsTidy held (halt unlock_of_unlocked) w t = (restarted-IsTidy w t).0

run-IsTidy : (qs : List Request) (w : World) → IsTidy w → IsTidy (run_all qs w)
unfolding run_all
run-IsTidy [] w t = t
run-IsTidy (q ∷ qs) w t =
    let (r, v) = serve q w in
    run-IsTidy qs (continued (r, v))
      (continued-IsTidy w.held r v ((serve_rule w.held q).run w (t, refl)))

continued_held :
    (r : Outcome (Unit {0})) (w : World)
    → After IsTidy (IsTidyHolding []) (r, w)
    → IsTidyHolding [] (continued (r, w)) ⊎ (Run.waits r ≡ true)
unfolding continued
continued_held (ok x) w h = inl h
continued_held (err e) w h = inl h
continued_held (halt deadlock) w t = inr refl
continued_held (halt died) w t = inl (restarted-IsTidy w t)
continued_held (halt unlock_of_unlocked) w t = inl (restarted-IsTidy w t)

run_unlocked :
    (qs : List Request) (w : World)
    → IsTidyHolding [] w
    → ((run_all qs w).held ≡ []) ⊎ (hangs qs w ≡ true)
unfolding run_all hangs
run_unlocked [] w h = inl h.1
run_unlocked (q ∷ qs) w h =
    let (r, v) = serve q w in
    elim (continued_held r v ((serve_rule [] q).run w h)) [
      | inl k ↦ elim (run_unlocked qs (continued (r, v)) k) [
        | inl e ↦ inl e
        | inr e ↦ inr (ground arith)
      ]
      | inr e ↦ inr (ground arith)
    ]

-- From a tidy host with no mutex locked, any sequence of requests, with restarts of a process that
-- died, ends in a tidy host; and no mutex is locked then, unless a request waits forever for one. A
-- host is tidy where no two listeners of a kind have one key and each file of the store is whole
-- and consistent, but for a file that is missing or does not decode and that os.RemoveAll was called
-- with, or with a directory that it lies in, or that was the target of a download of a restore: the
-- checks of identifiers and of the names of artifacts do not keep these from happening.
pub run_all-IsTidy :
    (qs : List Request) (w : World)
    → IsTidyHolding [] w
    → IsTidy (run_all qs w) × (((run_all qs w).held ≡ []) ⊎ (hangs qs w ≡ true))
run_all-IsTidy qs w h = (run-IsTidy qs w h.0, run_unlocked qs w h)
