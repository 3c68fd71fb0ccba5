-- ===== src/Daemon/Boot.antt =====
-- internal/daemon/lifecycle.go: how StartMachine boots a stopped machine, and
-- loadAttachableUserVolumes of create.go.
pub mod Networks
use computer_host.Base.{
  ℕ, String, Bool, false, not, ◌||◌, Option, none, some, List, [], ◌∷◌, Outcome, message, is_blank,
  ◌=?◌, string_key, if◌then◌else◌, Outcome, ok, err, ℤ,
}
use computer_host.Model.{
  GuestConfig, MachineId, VolumeId, MachineRecord, MachinePhase, VolumeRecord, ArtifactRecord,
  is_running, is_starting, is_user,
}
use computer_host.Network.{NetworkAllocation, allocation_from_guest_ip}
use computer_host.Host.Exec.{
  Attempt, value, failed, ◌>>=◌, ◌>>◌, pure, raise, gets, try, ignore, lift, refuse_if, for_each,
}
use computer_host.Host.World.{MachineState, boot, delete_vm, nonce, repair}
use computer_host.Host.Calls.{Host, on_store, call, run}
use computer_host.Store.Artifacts.{get_artifact}
use computer_host.Store.Machines.{list_machines, update_machine}
use computer_host.Store.Volumes.{get_volume}
use computer_host.Firecracker.Spec.{MachineSpec}
use computer_host.Daemon.BuildSpec.{build_machine_spec}
use computer_host.Daemon.MachinePorts.{default_machine_ports}
use computer_host.Daemon.Startup.{complete_machine_startup}

abbrev pub is_active : MachinePhase → Bool
is_active phase = is_running phase || is_starting phase

unfoldable pub with_network :
    Outcome NetworkAllocation → Outcome (List NetworkAllocation) → Outcome (List NetworkAllocation)
with_network (err e) rest = err e
with_network (Outcome.halt h) rest = Outcome.halt h
with_network (ok network) (ok networks) = ok (network ∷ networks)
with_network (ok network) (err e) = err e
with_network (ok network) (Outcome.halt h) = Outcome.halt h

-- listRunningNetworks: the networks of the other machines that run or start.
unfoldable pub networks_of :
    (String → Option (Option ℕ)) → MachineId → List MachineRecord → Outcome (List NetworkAllocation)
unfolding with_network
networks_of parsed_ip ignored [] = ok []
networks_of parsed_ip ignored (r ∷ records) =
    let rest = networks_of parsed_ip ignored records in
    if r.id =? ignored
      || not (is_active r.phase)
      || is_blank r.runtime_host
      || is_blank r.tap_device
    then rest
    else with_network (allocation_from_guest_ip (parsed_ip r.runtime_host) r.tap_device) rest

unfoldable pub list_running_networks : MachineId → Host (List NetworkAllocation)
unfolding ◌>>=◌ gets lift
list_running_networks ignored = do
  records ← on_store list_machines
  parsed_ip ← gets (λ w. w.env.parsed_ip)
  lift (networks_of parsed_ip ignored records)

abbrev is_attached_elsewhere : MachineId → Option MachineId → Bool
is_attached_elsewhere id none = false
is_attached_elsewhere id (some owner) = not (owner =? id)

-- The body of the loop of loadAttachableUserVolumes, before the rest of it.
unfoldable pub load_then :
    MachineId → VolumeId → Host (List VolumeRecord) → Host (List VolumeRecord)
unfolding ◌>>=◌ pure refuse_if
load_then id volume_id rest = do
  volume ← on_store (get_volume volume_id)
  refuse_if (not (is_user volume.kind)) (message "volume is not a user volume" volume_id)
  refuse_if (is_attached_elsewhere id volume.attached_machine_id)
      (message "volume is already attached to machine" volume_id)
  volumes ← rest
  pure (volume ∷ volumes)

-- loadAttachableUserVolumes.
unfoldable pub load_attachable_user_volumes : MachineId → List VolumeId → Host (List VolumeRecord)
unfolding pure
load_attachable_user_volumes id [] = pure []
load_attachable_user_volumes id (volume_id ∷ volume_ids) =
    load_then id volume_id (load_attachable_user_volumes id volume_ids)

-- What the four goroutines of StartMachine found, once all of them have ended.
pub record Prepared : Type 0 where
  pub system_volume : VolumeRecord
  pub artifact : ArtifactRecord
  pub user_volumes : List VolumeRecord
  pub ready_nonce : String

unfoldable pub all_prepared :
    Attempt VolumeRecord
    → Attempt ArtifactRecord
    → Attempt (List VolumeRecord)
    → Attempt String
    → Host Prepared
unfolding pure raise
all_prepared (failed e) a u n = raise e
all_prepared (value v) (failed e) u n = raise e
all_prepared (value v) (value a) (failed e) n = raise e
all_prepared (value v) (value a) (value u) (failed e) = raise e
all_prepared (value v) (value a) (value u) (value n) =
    pure (record { system_volume = v; artifact = a; user_volumes = u; ready_nonce = n })

-- The error group. Its goroutines read the store only, so that their order is of no account, but for
-- the error that is returned if several fail: here it is that of the first one in the code.
unfoldable pub prepare : MachineRecord → Host Prepared
unfolding ◌>>=◌ try all_prepared
prepare r = do
  system_volume ← try (on_store (get_volume r.system_volume_id))
  artifact ← try (on_store (get_artifact r.artifact))
  user_volumes ← try (load_attachable_user_volumes r.id r.user_volume_ids)
  ready_nonce ← try (call nonce (λ env n. env.text n))
  all_prepared system_volume artifact user_volumes ready_nonce

-- The record of a machine that was booted.
abbrev pub booted_record : MachineRecord → MachineState → String → MachineRecord
booted_record r state ready_nonce = record r {
  runtime_host = state.runtime_host;
  tap_device = state.tap_name;
  ports = default_machine_ports;
  guest_ready_nonce = ready_nonce;
  phase = MachinePhase.starting;
  error = "";
  pid = state.pid;
  socket_path = state.socket_path;
  started_at = state.started_at;
}

-- buildMachineSpec, with the settings of the daemon.
unfoldable pub spec_for :
    MachineId
    → ℤ
    → ArtifactRecord
    → List VolumeRecord
    → String
    → Option GuestConfig
    → String
    → Host MachineSpec
unfolding ◌>>=◌ gets lift
spec_for id memory_mib artifact volumes path guest_config ready_nonce = do
  config ← gets (λ w. w.config)
  prefix ← gets (λ w. w.env.sha256_prefix id)
  lift (
      build_machine_spec config prefix id memory_mib artifact volumes path guest_config ready_nonce)

-- A machine whose record cannot be written is taken down again.
unfoldable pub booted_or_deleted :
    MachineRecord → MachineState → Attempt (Unit {0}) → Host (Unit {0})
unfolding ◌>>=◌ pure raise ignore
booted_or_deleted previous state (value _) = pure tt
booted_or_deleted previous state (failed e) = do
  ignore (run (delete_vm state.id))
  ignore (on_store (update_machine previous))
  raise e

-- The part of StartMachine after the journal entry was written.
unfoldable pub boot_stopped : MachineRecord → Host MachineRecord
unfolding ◌>>=◌ try ignore for_each booted_or_deleted spec_for
boot_stopped r = do
  prepared ← prepare r
  ignore (run (repair prepared.system_volume.path))
  for_each prepared.user_volumes (λ volume. ignore (run (repair volume.path)))
  spec ←
      spec_for r.id r.memory_mib prepared.artifact prepared.user_volumes prepared.system_volume.path
        r.guest_config prepared.ready_nonce
  used_networks ← list_running_networks r.id
  state ← call (boot spec used_networks) (λ env n. env.booted n)
  let booted = booted_record r state prepared.ready_nonce
  saved ← try (on_store (update_machine booted))
  booted_or_deleted r state saved
  complete_machine_startup booted state
