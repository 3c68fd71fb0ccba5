-- ===== src/Daemon/MachinePorts/Laws.antt =====
-- Writing the relay ports of a record and reading them back.
use computer_host.Base.{ℕ, ◌≡◌, ◌≢◌, Bool, true, false, List, [], ◌∷◌, refl, arith}
use computer_host.Model.{MachinePort, MachinePortName, exec}
use computer_host.Daemon.MachinePorts.{
  set_exec, set_machine_exec_relay_port, machine_relay_host_port,
}

set_exec_self :
    (port : ℕ) (ports : List MachinePort)
    → machine_relay_host_port (set_exec port false ports) exec ≡ port
unfolding machine_relay_host_port set_exec
set_exec_self port [] = refl
set_exec_self port (p ∷ ports) = ground (arith, set_exec_self port ports)

set_exec_other :
    (port : ℕ) (replaced : Bool) (ports : List MachinePort) (name : MachinePortName)
    → name ≢ exec
    → machine_relay_host_port (set_exec port replaced ports) name
      ≡ machine_relay_host_port ports name
unfolding machine_relay_host_port set_exec
set_exec_other port true [] name h = refl
set_exec_other port false [] name h = ground arith
set_exec_other port true (p ∷ ports) name h = ground (arith, set_exec_other port true ports name h)
set_exec_other port false (p ∷ ports) name h =
    ground (arith, set_exec_other port true ports name h, set_exec_other port false ports name h)

-- After the exec relay port is set, the exec port reads as the new one, and the ports of every other
-- name as before, whether or not the record listed an exec port.
pub host_port-set_machine_exec_relay_port :
    (ports : List MachinePort) (port : ℕ)
    → (machine_relay_host_port (set_machine_exec_relay_port ports port) exec ≡ port)
      × ((name : MachinePortName)
          → name ≢ exec
          → machine_relay_host_port (set_machine_exec_relay_port ports port) name
            ≡ machine_relay_host_port ports name)
unfolding set_machine_exec_relay_port
host_port-set_machine_exec_relay_port ports port =
    (set_exec_self port ports, set_exec_other port false ports)
