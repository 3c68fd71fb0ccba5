-- ===== src/Daemon/BuildSpec/Accepted.antt =====
-- The specifications that the daemon builds pass the checks of the runtime.
use Prim.Native.String.{◌++◌}
use text.Mathlib.TextLemmas.{cons-append}
use computer_host.Base.{
  subst, ℕ, ◌+◌, String, true, false, List, [], ◌∷◌, Option, none, some, ok, ◌≡◌, ◌≢◌, refl, sym,
  ap, ℤ, trim_space, is_blank, is_blank_cons, is_space, is_base_name, decimal, ◌=?◌, string_key,
  All, arith, Bool-cases, inl, inr,
}
use computer_host.Model.{MachineId, GuestConfig, VolumeRecord, ArtifactRecord}
use computer_host.Host.World.{Config}
use computer_host.Firecracker.Spec.{MmdsSpec, MachineSpec, is_known_engine}
use computer_host.Firecracker.Spec.Bootable.{
  HasText, IsUsableDrive, IsUsableMmds, IsBootable, validate-IsBootable,
}
use computer_host.Daemon.Files.{validate_machine_id}
use computer_host.Daemon.BuildSpec
use computer_host.Daemon.BuildSpec.{
  guest_hostname, guest_metadata_spec, mmds_of, user_drives, build_machine_spec,
}

-- The paths of volumes.
abbrev pub HavePaths : List VolumeRecord → Type 0
HavePaths volumes = All (λ v. HasText v.path) volumes

numbered : (i : ℕ) → HasText ("user-" ++ decimal i)
unfolding is_space
numbered i =
    subst HasText (sym (cons-append "u" "ser-" (decimal i)))
      (is_blank_cons "u" ("ser-" ++ decimal i) refl)

module _ (config : Config) (known : is_known_engine config.drive_io_engine ≡ true) where
  user_drives-IsUsable :
      (i : ℕ) (volumes : List VolumeRecord)
      → HavePaths volumes
      → All IsUsableDrive (user_drives config i volumes)
  unfolding user_drives is_space
  user_drives-IsUsable i [] h = tt
  user_drives-IsUsable i (v ∷ vs) h = (
    record { path = h.0; id = numbered i; cache = refl; engine = known },
    user_drives-IsUsable (i + 1) vs h.1,
  )

valid_id :
    (id : MachineId)
    → validate_machine_id id ≡ ok tt
    → HasText id × (is_base_name (trim_space id) ≡ true)
unfolding validate_machine_id
valid_id id h = ground arith

guest_hostname_lem :
    (id : MachineId) (c : Option GuestConfig) → HasText id → (guest_hostname id c =? "") ≡ false
unfolding is_blank
guest_hostname_lem id none h = h
guest_hostname_lem id (some c) h = elim (Bool-cases (trim_space c.hostname =? "")) [
  | inl e ↦ rw e h
  | inr e ↦ rw e e
]

no_list : {A : Type 0} (x : A) (xs : List A) → (x ∷ xs) ≢ []
no_list x xs e = cc

mmds_of-IsUsable :
    (name ready_nonce : String) (c : Option GuestConfig) → IsUsableMmds (mmds_of name ready_nonce c)
unfolding is_space
mmds_of-IsUsable name ready_nonce c = record {
  some_interface = no_list "net0" [];
  version = refl;
  interfaces = (is_blank_cons "n" "et0" refl, tt);
}

module _ (config : Config) (prefix : ℕ) (id : MachineId) (memory_mib : ℤ)
    (artifact : ArtifactRecord) (volumes : List VolumeRecord) (path : String) where
  spec-IsBootable :
      (mmds : MmdsSpec)
      → is_known_engine config.drive_io_engine ≡ true
      → HasText id
      → is_base_name (trim_space id) ≡ true
      → HasText artifact.kernel_image_path
      → HasText path
      → HavePaths volumes
      → IsUsableMmds mmds
      → IsBootable (BuildSpec.machine_spec config prefix id memory_mib artifact volumes path mmds)
  unfolding is_space
  spec-IsBootable mmds known h b k p v u = record {
    id = h;
    vcpus = omega arith;
    memory = ground arith;
    kernel = k;
    base_name = b;
    root =
        rw (is_blank_cons "r" "oot_drive" refl, p)
          (record {
            path = p;
            id = is_blank_cons "r" "oot_drive" refl;
            cache = refl;
            engine = known;
          });
    drives = user_drives-IsUsable config known 0 volumes v;
    mmds = u;
    vsock = record {
      id = is_blank_cons "m" "icroagent-personalizer" refl;
      cid = omega arith;
      path = is_blank_cons "m" "icroagent-personalizer.vsock" refl;
    };
  }

  -- For an id that passes validateMachineID, an artifact with a kernel, disks with paths and a setting of
  -- the drives' engine that the configuration allows, buildMachineSpec returns no error, whatever the
  -- guest configuration and the sizes are, and the specification is one that the runtime boots.
  pub build_machine_spec-IsBootable :
      (guest_config : Option GuestConfig) (ready_nonce : String)
      → is_known_engine config.drive_io_engine ≡ true
      → validate_machine_id id ≡ ok tt
      → HasText artifact.kernel_image_path
      → HasText path
      → HavePaths volumes
      → (spec : MachineSpec) × (build_machine_spec config prefix id memory_mib artifact volumes path
            guest_config ready_nonce
          ≡ ok spec)
        × IsBootable spec
  unfolding build_machine_spec guest_metadata_spec BuildSpec.checked_with BuildSpec.checked_spec
  build_machine_spec-IsBootable guest_config ready_nonce known valid k p v =
      let (h, b) = valid_id id valid in
      let mmds = mmds_of (guest_hostname id guest_config) ready_nonce guest_config in
      let spec = BuildSpec.machine_spec config prefix id memory_mib artifact volumes path mmds in
      let bootable = spec-IsBootable mmds known h b k p v (mmds_of-IsUsable _ _ _) in
      (
        spec,
        rw (guest_hostname_lem id guest_config h)
            (ap (BuildSpec.checked_spec spec) ((validate-IsBootable spec).1 bootable)),
        bootable,
      )
