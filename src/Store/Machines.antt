-- ===== src/Store/Machines.antt =====
-- internal/store/file_store.go: the machines.
use computer_host.Base.{refl, List, message, string_key}
use computer_host.Model.{MachineId, MachineRecord}
use computer_host.Host.Exec.{Exec, ◌>>=◌, pure}
use computer_host.Store.FileStore.{FileStore, read_state, update_state}
use computer_host.Store.Collection.{Collection, created, updated, deleted, get_from}

abbrev pub machines : Collection MachineRecord MachineId
machines = record {
  key = λ m. m.id;
  items = λ s. s.machines;
  with_items = λ s ms. record s { machines = ms };
  items-with_items = λ s ms. refl;
}

unfoldable pub create_machine : MachineRecord → Exec FileStore (Unit {0})
unfolding update_state
create_machine machine =
    update_state (created machines (message "store: machine already exists" machine.id) machine)

unfoldable pub get_machine : MachineId → Exec FileStore MachineRecord
unfolding get_from
get_machine id = get_from machines id

unfoldable pub list_machines : Exec FileStore (List MachineRecord)
unfolding ◌>>=◌ pure read_state
list_machines = do state ← read_state; pure state.machines

unfoldable pub update_machine : MachineRecord → Exec FileStore (Unit {0})
unfolding update_state
update_machine machine = update_state (updated machines machine)

unfoldable pub delete_machine : MachineId → Exec FileStore (Unit {0})
unfolding update_state
delete_machine id = update_state (deleted machines id)
