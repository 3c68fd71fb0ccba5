-- ===== src/Daemon/MachinePorts.antt =====
-- internal/daemon/files.go and machine_relays.go: the ports that a machine record lists.
pub mod Laws
use Prim.Native.String.{◌++◌}
use computer_host.Base.{ℕ, String, Bool, true, false, List, [], ◌∷◌, ◌==◌, if◌then◌else◌}
use computer_host.Model.{
  MachineId, MachinePort, MachinePortName, ssh, vnc, exec, same_port_name, tcp,
}

abbrev pub default_ssh_port : ℕ
default_ssh_port = 2222

abbrev pub default_vnc_port : ℕ
default_vnc_port = 6080

abbrev pub default_guestd_port : ℕ
default_guestd_port = 49983

abbrev pub port_name_text : MachinePortName → String
port_name_text ssh = "ssh"
port_name_text vnc = "vnc"
port_name_text exec = "exec"

-- buildMachinePorts.
unfoldable pub build_machine_ports : ℕ → ℕ → ℕ → List MachinePort
build_machine_ports ssh_relay_port vnc_relay_port exec_relay_port =
    record { name = ssh; port = default_ssh_port; host_port = ssh_relay_port; protocol = tcp }
    ∷ record { name = vnc; port = default_vnc_port; host_port = vnc_relay_port; protocol = tcp }
    ∷ record {
      name = exec;
      port = default_guestd_port;
      host_port = exec_relay_port;
      protocol = tcp;
    }
    ∷ []

-- defaultMachinePorts.
unfoldable pub default_machine_ports : List MachinePort
unfolding build_machine_ports
default_machine_ports = build_machine_ports 0 0 0

-- The body of the loop of setMachineExecRelayPort.
abbrev relayed : ℕ → MachinePort → MachinePort
relayed relay_port p = record p {
  host_port = relay_port;
  port = if p.port == 0 then default_guestd_port else p.port;
  protocol = tcp;
}

-- That loop; `replaced` says whether an exec port was met before.
set_exec : ℕ → Bool → List MachinePort → List MachinePort
set_exec relay_port true [] = []
set_exec relay_port false [] =
    record { name = exec; port = default_guestd_port; host_port = relay_port; protocol = tcp } ∷ []
set_exec relay_port replaced (p ∷ ports) =
    if same_port_name p.name exec
    then relayed relay_port p ∷ set_exec relay_port true ports
    else p ∷ set_exec relay_port replaced ports

-- setMachineExecRelayPort.
unfoldable pub set_machine_exec_relay_port : List MachinePort → ℕ → List MachinePort
unfolding set_exec
set_machine_exec_relay_port ports relay_port = set_exec relay_port false ports

-- machineRelayHostPort; 0 if the record lists no port of the name.
unfoldable pub machine_relay_host_port : List MachinePort → MachinePortName → ℕ
machine_relay_host_port [] name = 0
machine_relay_host_port (p ∷ ports) name =
    if same_port_name p.name name then p.host_port else machine_relay_host_port ports name

default_guest_port : MachinePortName → ℕ
default_guest_port vnc = default_vnc_port
default_guest_port exec = default_guestd_port
default_guest_port ssh = default_ssh_port

-- machineRelayGuestPort.
unfoldable pub machine_relay_guest_port : List MachinePort → MachinePortName → ℕ
unfolding default_guest_port
machine_relay_guest_port [] name = default_guest_port name
machine_relay_guest_port (p ∷ ports) name =
    if same_port_name p.name name then p.port else machine_relay_guest_port ports name

-- machineRelayListenerKey.
unfoldable pub machine_relay_listener_key : MachineId → MachinePortName → String
machine_relay_listener_key id name = id ++ (":" ++ port_name_text name)
