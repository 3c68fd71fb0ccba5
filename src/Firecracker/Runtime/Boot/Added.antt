-- ===== src/Firecracker/Runtime/Boot/Added.antt =====
-- What the steps of Boot add to the host: nothing but the tap device and the directory of the machine.
use computer_host.Base.{
  ℕ, zero, suc, ℤ, ◌+◌, String, Bool, true, false, ◌||◌, ◌≡◌, refl, List, [], ◌∷◌, Option, none,
  some, Outcome, ok, err, halt, string_key, =?-refl, lies_in_itself,
}
use computer_host.Host.Exec
use computer_host.Host.Exec.{
  Exec, Attempt, value, failed, ◌>>=◌, pure, gets, ignore, lift, on_error, wrapping, when,
}
use computer_host.Host.Exec.Post.{After, Keeps, keeps_rules, Keeps-bind}
use computer_host.Firecracker.Spec.{MachineSpec, DriveSpec, MmdsSpec}
use computer_host.Firecracker.Paths.{MachinePaths}
use computer_host.Firecracker.Runtime
use computer_host.Firecracker.Runtime.{
  RuntimeEnv, RuntimeWorld, Runs, act, take_away, ask, unchanged, with_tap, without_tap, with_dir,
  without_dir, with_signal, wait_for_pid_file, wait_for_socket, without, without_tree, changed_if,
  ended_by,
}
use computer_host.Firecracker.Runtime.Boot
use computer_host.Firecracker.Runtime.Boot.{Runtime, boot_in, boot_machine, clean_up_boot}

-- Nothing with the name is there.
abbrev pub IsFresh : String → List String → Type 0
IsFresh name names = without name names ≡ names

-- No directory is the one of the path or lies below it.
abbrev pub IsFreeOf : String → List String → Type 0
IsFreeOf path dirs = without_tree path dirs ≡ dirs

-- Removals take what they are to remove, and nothing is kept for a look at a failure.
pub record Removing (env : RuntimeEnv) : Type 0 where
  pub removes : (n : ℕ) → env.removes n ≡ true
  pub preserves_not : env.preserves_failure ≡ false

module _ (tap dir : String) (taps dirs : List String) where
  -- Without the tap device and the directory, the host is as it was.
  pub record OnlyAdded (w : RuntimeWorld) : Type 0 where
    pub taps_left : without tap w.taps ≡ taps
    pub dirs_left : without_tree dir w.dirs ≡ dirs
    pub env : Removing w.env

  abbrev pub Halted : RuntimeWorld → Type 0
  Halted w = Unit

  abbrev pub Adds : {A : Type 0} → Runs A → Type 0
  Adds m = Keeps Halted OnlyAdded m

  ended_after : (b : Bool) (w : RuntimeWorld) → OnlyAdded w → After Halted OnlyAdded (ended_by b, w)
  ended_after true w h = h
  ended_after false w h = h

  changed_added :
      (b : Bool) (f : RuntimeWorld → RuntimeWorld) (w : RuntimeWorld)
      → (OnlyAdded w → OnlyAdded (f w))
      → OnlyAdded w
      → OnlyAdded (changed_if b f w)
  changed_added true f w k h =
      let a = k h in record { taps_left = a.taps_left; dirs_left = a.dirs_left; env = a.env }
  changed_added false f w k h = record {
    taps_left = h.taps_left;
    dirs_left = h.dirs_left;
    env = h.env;
  }

  pub act-Adds :
      (f : RuntimeWorld → RuntimeWorld)
      → ((w : RuntimeWorld) → OnlyAdded w → OnlyAdded (f w))
      → Adds (act f)
  unfolding act
  act-Adds f k = record { run = λ w h. ended_after _ _ (changed_added _ f w (k w) h) }

  pub same_added : (w : RuntimeWorld) → OnlyAdded w → OnlyAdded (unchanged w)
  same_added w h = h

  pub tap_added : (w : RuntimeWorld) → OnlyAdded w → OnlyAdded (with_tap tap w)
  tap_added w h = record {
    taps_left = rw (=?-refl tap) h.taps_left;
    dirs_left = h.dirs_left;
    env = h.env;
  }

  pub dir_added : (w : RuntimeWorld) → OnlyAdded w → OnlyAdded (with_dir dir w)
  dir_added w h = record {
    taps_left = h.taps_left;
    dirs_left = rw (lies_in_itself dir) h.dirs_left;
    env = h.env;
  }

  pub ask-Adds : {A : Type 0} (answer : RuntimeEnv → ℕ → A) → Adds (ask answer)
  unfolding ask
  ask-Adds answer = record {
    run = λ w h. record { taps_left = h.taps_left; dirs_left = h.dirs_left; env = h.env };
  }

  pub lift-Adds : {A : Type 0} (r : Outcome A) → Adds (lift r)
  unfolding lift
  lift-Adds (ok a) = record { run = λ w h. h }
  lift-Adds (err e) = record { run = λ w h. h }
  lift-Adds (halt x) = record { run = λ w h. tt }

  pub ruleset adding =
      (keeps_rules, act-Adds, same_added, tap_added, dir_added, ask-Adds, lift-Adds)

  pid_or_rest-Adds :
      (rest : Runs ℕ) (r : Option (Attempt ℤ)) → Adds rest → Adds (Runtime.pid_or_rest rest r)
  unfolding Runtime.pid_or_rest
  pid_or_rest-Adds rest none k = search adding
  pid_or_rest-Adds rest (some (value pid)) k = search adding
  pid_or_rest-Adds rest (some (failed e)) k = search adding

  tick_for_pid-Adds : (rest : Runs ℕ) → Adds rest → Adds (Runtime.tick_for_pid rest)
  unfolding Runtime.tick_for_pid
  tick_for_pid-Adds rest k = search (adding, pid_or_rest-Adds)

  pub wait_for_pid_file-Adds : (ticks : ℕ) → Adds (wait_for_pid_file ticks)
  unfolding wait_for_pid_file
  wait_for_pid_file-Adds zero = search adding
  wait_for_pid_file-Adds (suc ticks) = tick_for_pid-Adds _ (wait_for_pid_file-Adds ticks)

  pinged-Adds :
      (rest : Runs (Unit {0})) (r : Attempt (Unit {0})) → Adds rest → Adds (Runtime.pinged rest r)
  unfolding Runtime.pinged
  pinged-Adds rest (value u) k = search adding
  pinged-Adds rest (failed e) k = search adding

  socket_found-Adds :
      (rest : Runs (Unit {0})) (missing : Bool) (r : Attempt (Unit {0}))
      → Adds rest
      → Adds (Runtime.socket_found rest missing r)
  unfolding Runtime.socket_found
  socket_found-Adds rest missing (value u) k = search (adding, pinged-Adds)
  socket_found-Adds rest missing (failed e) k = search adding

  tick_for_socket-Adds : (rest : Runs (Unit {0})) → Adds rest → Adds (Runtime.tick_for_socket rest)
  unfolding Runtime.tick_for_socket
  tick_for_socket-Adds rest k = search (adding, socket_found-Adds) depth 9

  wait_for_socket-Adds : (ticks : ℕ) → Adds (wait_for_socket ticks)
  unfolding wait_for_socket
  wait_for_socket-Adds zero = search adding
  wait_for_socket-Adds (suc ticks) = tick_for_socket-Adds _ (wait_for_socket-Adds ticks)

  link_machine_file-Adds : (s t : String) → Adds (Boot.link_machine_file s t)
  unfolding Boot.link_machine_file
  link_machine_file-Adds s t = search adding

  stage_file-Adds : (root path : String) → Adds (Boot.stage_file root path)
  unfolding Boot.stage_file
  stage_file-Adds root path = search (adding, link_machine_file-Adds)

  stage_drive_then-Adds :
      (root : String) (d : DriveSpec) (rest : Runs (List DriveSpec))
      → Adds rest
      → Adds (Boot.stage_drive_then root d rest)
  unfolding Boot.stage_drive_then
  stage_drive_then-Adds root d rest k = search (adding, stage_file-Adds)

  stage_drives-Adds : (root : String) (ds : List DriveSpec) → Adds (Boot.stage_drives root ds)
  unfolding Boot.stage_drives
  stage_drives-Adds root [] = search adding
  stage_drives-Adds root (d ∷ ds) = stage_drive_then-Adds root d _ (stage_drives-Adds root ds)

  pub stage_machine_files-Adds :
      (spec : MachineSpec) (paths : MachinePaths) → Adds (Boot.stage_machine_files spec paths)
  unfolding Boot.stage_machine_files
  stage_machine_files-Adds spec paths = search (adding, stage_file-Adds, stage_drives-Adds) depth 9

  pub send_mmds-Adds : (mmds : Option MmdsSpec) → Adds (Boot.send_mmds mmds)
  unfolding Boot.send_mmds
  send_mmds-Adds none = search adding
  send_mmds-Adds (some m) = search (adding, wait_for_socket-Adds)

  abbrev pub Restored : RuntimeWorld → Type 0
  Restored w = (w.taps ≡ taps) × (w.dirs ≡ dirs)

  -- A call that returns no error.
  pub record Quiet (m : Runs (Unit {0})) : Type 0 where
    pub run :
        (w : RuntimeWorld) → OnlyAdded w → (v : RuntimeWorld) × (m w ≡ (ok tt, v)) × OnlyAdded v

  pub ignored_ended : (b : Bool) → Exec.ignored (ended_by b) ≡ ok tt
  ignored_ended true = refl
  ignored_ended false = refl

  pub ignored-Quiet :
      (f : RuntimeWorld → RuntimeWorld)
      → ((w : RuntimeWorld) → OnlyAdded w → OnlyAdded (f w))
      → Quiet (ignore (act f))
  unfolding ignore act
  ignored-Quiet f k = record {
    run = λ w h.
        let b = w.env.succeeds w.clock || w.env.happens w.clock in
        (
          changed_if b f w,
          rw (ignored_ended (w.env.succeeds w.clock)) refl,
          changed_added b f w (k w) h,
        );
  }

  pub when-Quiet : (b : Bool) (m : Runs (Unit {0})) → Quiet m → Quiet (when b m)
  unfolding when
  when-Quiet true m k = record { run = k.run }
  when-Quiet false m k = record { run = λ w h. (w, refl, h) }

  pub removed_both :
      (w : RuntimeWorld)
      → OnlyAdded w
      → After Halted Restored
          ((ignore (take_away (without_tap tap)) >>= λ u. ignore (take_away (without_dir dir))) w)
  unfolding ◌>>=◌ ignore take_away
  removed_both w h =
      rw
        (
          ignored_ended (w.env.succeeds w.clock),
          h.env.removes w.clock,
          ignored_ended (w.env.succeeds (w.clock + 1)),
          h.env.removes (w.clock + 1),
        )
        (h.taps_left, h.dirs_left)

  pub removed_tap :
      (w : RuntimeWorld)
      → OnlyAdded w
      → IsFreeOf dir dirs
      → w.dirs ≡ dirs
      → After Halted Restored ((ignore (take_away (without_tap tap)) >>= λ u. pure tt) w)
  unfolding ◌>>=◌ ignore take_away pure
  removed_tap w h f e =
      rw (ignored_ended (w.env.succeeds w.clock), h.env.removes w.clock) (h.taps_left, e)
