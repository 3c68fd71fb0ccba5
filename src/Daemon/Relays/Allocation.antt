-- ===== src/Daemon/Relays/Allocation.antt =====
-- A relay port that is allocated is in its range and free.
use computer_host.Base.{ℕ, ◌≡◌, Bool, false, ◌⊎◌, ◌≢◌, List, string_key, not, ◌&&◌, ◌||◌, ◌==◌}
use computer_host.Model.{MachineId, MachinePortName, MachineRecord, is_running}
use computer_host.Host.Exec
use computer_host.Host.World.{World}
use computer_host.Host.Calls.{Host}
use computer_host.Daemon.Relays
use computer_host.Daemon.Relays.{is_used_relay_port}
use computer_host.Daemon.MachinePorts.{machine_relay_host_port}

-- A record of another machine that runs does not have the port under the name.
abbrev pub IsApart : MachineId → MachinePortName → ℕ → MachineRecord → Type 0
IsApart id name port r =
    (r.id ≡ id) ⊎ ((is_running r.phase ≡ false) ⊎ (machine_relay_host_port r.ports name ≢ port))

-- The ports that allocateMachineRelayProxy does not try: those in use, and the one that was given up.
abbrev pub is_passed_over : List MachineRecord → MachineId → MachinePortName → ℕ → ℕ → Bool
is_passed_over records id name existing port =
    is_used_relay_port id name records port || (not (existing == 0) && port == existing)
