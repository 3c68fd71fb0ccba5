-- ===== src/Firecracker/Runtime/Boot/Undone.antt =====
-- A machine that cannot be booted leaves no tap device and no directory.
use computer_host.Base.{
  ℕ, String, Bool, true, false, ◌≡◌, refl, ap, List, [], ◌∷◌, Error, Outcome, ok, err, halt, ◌=?◌,
  string_key, Bool-cases, inl, inr, arith, is_blank, trim_space, base, join_not_empty, ltb,
}
use computer_host.Host.Exec
use computer_host.Host.Exec.{
  Exec, Attempt, value, failed, ◌>>=◌, pure, gets, ignore, lift, on_error, wrapping, when,
}
use computer_host.Host.Exec.Post.{After, Keeps}
use computer_host.Host.Exec.Fails.{Failing, Fails}
use computer_host.Network.{NetworkAllocation, allocate}
use computer_host.Firecracker.Spec.{MachineSpec, validate}
use computer_host.Model.{MachineId}
use computer_host.Firecracker.Paths
use computer_host.Firecracker.Paths.{MachinePaths, build_machine_paths}
use computer_host.Firecracker.Runtime.{
  RuntimeWorld, Runs, take_away, ask, init_ticks, unchanged, with_signal, wait_for_pid_file,
}
use computer_host.Firecracker.Runtime.Boot
use computer_host.Firecracker.Runtime.Boot.{Runtime, boot_in, boot_machine, clean_up_boot}
use computer_host.Firecracker.Runtime.Boot.Added.{
  IsFresh, IsFreeOf, Removing, OnlyAdded, Adds, adding, wait_for_pid_file-Adds,
  stage_machine_files-Adds, send_mmds-Adds, ignored-Quiet, when-Quiet, removed_both, ignored_ended,
}

module _ (network : NetworkAllocation) (dir : String) (taps dirs : List String) where
  abbrev Added : RuntimeWorld → Type 0
  Added w = OnlyAdded network.tap_name dir taps dirs w

  abbrev AsBefore : RuntimeWorld → Type 0
  AsBefore w = (w.taps ≡ taps) × (w.dirs ≡ dirs)

  clean_up_unless-AsBefore :
      (preserves started : Bool) (pid : ℕ) (w : RuntimeWorld)
      → preserves ≡ false
      → (dir =? "") ≡ false
      → Added w
      → After (λ v. Unit) AsBefore (Boot.clean_up_unless preserves network dir started pid w)
  unfolding Boot.clean_up_unless Boot.cleanup_running_process ◌>>=◌
  clean_up_unless-AsBefore true started pid w p d h = cc
  clean_up_unless-AsBefore false started pid w p d h =
      let tap = network.tap_name in
      let kill = when-Quiet tap dir taps dirs (ltb 0 pid) _ (
        ignored-Quiet tap dir taps dirs (with_signal pid)
          (λ v k. record { taps_left = k.taps_left; dirs_left = k.dirs_left; env = k.env })) in
      let command =
        when-Quiet tap dir taps dirs started _
          (ignored-Quiet tap dir taps dirs unchanged (λ v k. k)) in
      let (v, e, k) = kill.run w h in
      let (v', e', k') = command.run v k in rw (e, e', d) (removed_both tap dir taps dirs v' k')

  clean_up_boot-AsBefore :
      (started : Bool) (pid : ℕ) (w : RuntimeWorld)
      → (dir =? "") ≡ false
      → Added w
      → After (λ v. Unit) AsBefore (clean_up_boot network dir started pid w)
  unfolding clean_up_boot ◌>>=◌ gets
  clean_up_boot-AsBefore started pid w d h =
      clean_up_unless-AsBefore w.env.preserves_failure started pid w h.env.preserves_not d h

  errored_after :
      (A : Type 0) {B : Type 0} (f : A → Runs B) (e : Error) (q : Outcome (Unit {0}))
      (w : RuntimeWorld)
      → After (λ v. Unit) AsBefore (q, w)
      → Failing AsBefore (Exec.with_outcome f (Exec.resumed {A = A} (err e) q) w)
  errored_after A f e (ok u) w h = h
  errored_after A f e (err x) w h = h
  errored_after A f e (halt x) w h = tt

  caught_after :
      {A B : Type 0} (started : Bool) (pid : ℕ) (f : A → Runs B) (r : Outcome A) (w : RuntimeWorld)
      → (dir =? "") ≡ false
      → After (λ v. Unit) Added (r, w)
      → ((a : A) → Fails Added AsBefore (f a))
      → Failing AsBefore (
          Exec.with_outcome f
            (Exec.with_cleanup (clean_up_boot network dir started pid) r w).0
            (Exec.with_cleanup (clean_up_boot network dir started pid) r w).1)
  caught_after started pid f (ok a) w d h k = (k a).run w h
  caught_after {A} started pid f (err e) w d h k =
      errored_after A f e (clean_up_boot network dir started pid w).0
        (clean_up_boot network dir started pid w).1 (clean_up_boot-AsBefore started pid w d h)
  caught_after started pid f (halt x) w d h k = tt

  Fails-caught :
      {A B : Type 0} (started : Bool) (pid : ℕ) (m : Runs A) (f : A → Runs B)
      → (dir =? "") ≡ false
      → Keeps (λ v. Unit) Added m
      → ((a : A) → Fails Added AsBefore (f a))
      → Fails Added AsBefore (on_error (clean_up_boot network dir started pid) m >>= f)
  unfolding ◌>>=◌ on_error
  Fails-caught started pid m f d km kf = record {
    run = λ w h. caught_after started pid f (m w).0 (m w).1 d (km.run w h) kf;
  }

module _ (r : Runtime) (spec : MachineSpec) (network : NetworkAllocation) (paths : MachinePaths)
    (taps dirs : List String) where
  prepare_jail-Adds :
      Adds network.tap_name paths.base_dir taps dirs (Boot.prepare_jail spec paths network)
  unfolding Boot.prepare_jail
  prepare_jail-Adds = search (adding, stage_machine_files-Adds) depth 9

  waited-Adds :
      Adds network.tap_name paths.base_dir taps dirs
        (wrapping "wait for firecracker pid" (wait_for_pid_file init_ticks))
  waited-Adds = search (adding, wait_for_pid_file-Adds)

  booted_quietly :
      (pid : ℕ)
      → Fails
          (Added network paths.base_dir taps dirs)
          (AsBefore network paths.base_dir taps dirs)
          (ask (λ env n. env.now n) >>= λ t. pure (Boot.running_state r spec network pid t))
  unfolding ask pure ◌>>=◌
  booted_quietly pid = record { run = λ w h. tt }

  boot_in-Fails :
      (paths.base_dir =? "") ≡ false
      → Fails
          (Added network paths.base_dir taps dirs)
          (AsBefore network paths.base_dir taps dirs)
          (boot_in r spec network paths)
  unfolding boot_in
  boot_in-Fails d =
      Fails-caught network paths.base_dir taps dirs false 0 _ _ d prepare_jail-Adds (λ u.
        Fails-caught network paths.base_dir taps dirs true 0 _ _ d waited-Adds (λ pid.
          Fails-caught network paths.base_dir taps dirs true pid _ _ d
            (send_mmds-Adds _ _ _ _ spec.mmds) (λ v. booted_quietly pid)))

base_dir_in : Outcome MachinePaths → String
base_dir_in (ok paths) = paths.base_dir
base_dir_in (err e) = ""
base_dir_in (halt x) = ""

base_dir_given :
    (root_dir : String) (id : MachineId) (binary : String) (paths : MachinePaths)
    → build_machine_paths root_dir id binary ≡ ok paths
    → (paths.base_dir =? "") ≡ false
unfolding build_machine_paths is_blank base_dir_in
base_dir_given root_dir id binary paths e = elim (Bool-cases (is_blank root_dir)) [
  | inl a ↦ ground arith
  | inr a ↦ elim (Bool-cases (is_blank id)) [
    | inl b ↦ ground arith
    | inr b ↦ elim (Bool-cases (Paths.is_no_name (base (trim_space binary)))) [
      | inl c ↦ ground arith
      | inr c ↦
          rw⁻¹ (ap base_dir_in e)
            (rw (a, b, c) (join_not_empty (trim_space root_dir) ("machines" ∷ id ∷ []) a))
    ]
  ]
]

-- The cleanup before there are paths.
early_clean_up :
    (network : NetworkAllocation) (preserves : Bool) (w : RuntimeWorld)
    → preserves ≡ false
    → Removing w.env
    → IsFresh network.tap_name w.taps
    → After
        (λ v. Unit)
        (λ v. (v.taps ≡ w.taps) × (v.dirs ≡ w.dirs))
        (Boot.clean_up_unless preserves network "" false 0 w)
unfolding Boot.clean_up_unless Boot.cleanup_running_process ◌>>=◌ pure ignore when take_away
early_clean_up network true w p k f = cc
early_clean_up network false w p k f =
    rw (ignored_ended network.tap_name "" w.taps w.dirs (w.env.succeeds w.clock), k.removes w.clock)
      (f, refl)

module _ {A B : Type 0} (E : RuntimeWorld → Type 0) where
  lifted :
      (r : Outcome A) (f : A → Runs B) (w : RuntimeWorld)
      → E w
      → ((a : A) → r ≡ ok a → Failing E (f a w))
      → Failing E ((lift r >>= f) w)
  unfolding lift ◌>>=◌
  lifted (ok a) f w h k = k a refl
  lifted (err e) f w h k = h
  lifted (halt x) f w h k = tt

  resumed_error :
      (f : A → Runs B) (e : Error) (q : Outcome (Unit {0})) (w : RuntimeWorld)
      → After (λ v. Unit) E (q, w)
      → Failing E (Exec.with_outcome f (Exec.resumed {A = A} (err e) q) w)
  resumed_error f e (ok u) w h = h
  resumed_error f e (err x) w h = h
  resumed_error f e (halt x) w h = tt

  caught_lift :
      (c : Runs (Unit {0})) (r : Outcome A) (f : A → Runs B) (w : RuntimeWorld)
      → After (λ v. Unit) E (c w)
      → ((a : A) → r ≡ ok a → Failing E (f a w))
      → Failing E ((on_error c (lift r) >>= f) w)
  unfolding lift on_error ◌>>=◌
  caught_lift c (ok a) f w h k = k a refl
  caught_lift c (err e) f w h k = resumed_error f e (c w).0 (c w).1 h
  caught_lift c (halt x) f w h k = tt

-- Where removals take what they are to remove and nothing is kept for a look at the failure, and where
-- the host had neither the tap device of the network that the machine gets nor a directory that is that
-- of the machine or lies below it (an id that is ".." or "/" makes the directories of the other machines
-- lie below): if Boot
-- returns an error, whatever step fails, and whether or not the step had its effect, the host has the tap
-- devices and the directories that it had before.
pub boot_machine-IsUndone :
    (r : Runtime) (spec : MachineSpec) (used : List NetworkAllocation) (w : RuntimeWorld)
    → Removing w.env
    → ((network : NetworkAllocation)
        → allocate r.network_allocator used ≡ ok network
        → IsFresh network.tap_name w.taps)
    → ((paths : MachinePaths)
        → build_machine_paths r.root_dir spec.id r.firecracker_binary_path ≡ ok paths
        → IsFreeOf paths.base_dir w.dirs)
    → Failing (λ v. (v.taps ≡ w.taps) × (v.dirs ≡ w.dirs)) (boot_machine r spec used w)
unfolding boot_machine clean_up_boot ◌>>=◌ gets
boot_machine-IsUndone r spec used w k ft fd =
    let E : RuntimeWorld → Type 0 = λ v. (v.taps ≡ w.taps) × (v.dirs ≡ w.dirs) in
    lifted E (validate spec) _ w (refl, refl)
      (λ u e.
        lifted E (allocate r.network_allocator used) _ w (refl, refl)
          (λ network n.
            caught_lift E (clean_up_boot network "" false 0) _ _ w
              (early_clean_up network w.env.preserves_failure w k.preserves_not k (ft network n))
              (λ paths p.
                (boot_in-Fails r spec network paths w.taps w.dirs
                    (base_dir_given r.root_dir spec.id r.firecracker_binary_path paths p)).run
                  w (record { taps_left = ft network n; dirs_left = fd paths p; env = k }))))
