-- ===== src/Store/Ports.antt =====
-- internal/store/file_store.go: the published ports.
use computer_host.Base.{
  refl, List, [], ◌∷◌, ◌++◌, Outcome, ok, err, message, string_key, ◌=?◌, ◌==◌, ◌||◌, select,
  if◌then◌else◌,
}
use computer_host.Model.{MachineId, PublishedPortId, PublishedPortRecord}
use computer_host.Host.Exec.{Exec, ◌>>=◌, pure}
use computer_host.Store.Persisted.{PersistedState}
use computer_host.Store.FileStore.{FileStore, read_state, update_state}
use computer_host.Store.Collection.{Collection, deleted, get_from}

abbrev pub published_ports : Collection PublishedPortRecord PublishedPortId
published_ports = record {
  key = λ p. p.id;
  items = λ s. s.published_ports;
  with_items = λ s ps. record s { published_ports = ps };
  items-with_items = λ s ps. refl;
}

-- The loop that looks for a port with the same id or the same host port.
unfoldable pub check_conflict : PublishedPortRecord → List PublishedPortRecord → Outcome (Unit {0})
check_conflict new [] = ok tt
check_conflict new (port ∷ ports) =
    if port.id =? new.id
    then err (message "store: published port already exists" new.id)
    else if port.host_port == new.host_port
    then err (message "store: host port already exists" "")
    else check_conflict new ports

abbrev pub appended :
    PublishedPortRecord → PersistedState → Outcome (Unit {0}) → Outcome PersistedState
appended new s (ok _) = ok (record s { published_ports = s.published_ports ++ new ∷ [] })
appended new s (err e) = err e
appended new s (Outcome.halt h) = Outcome.halt h

unfoldable pub create_published_port : PublishedPortRecord → Exec FileStore (Unit {0})
unfolding update_state
create_published_port new =
    update_state (λ s. appended new s (check_conflict new s.published_ports))

unfoldable pub get_published_port : PublishedPortId → Exec FileStore PublishedPortRecord
unfolding get_from
get_published_port id = get_from published_ports id

-- The empty machine id asks for the ports of all machines.
unfoldable pub list_published_ports : MachineId → Exec FileStore (List PublishedPortRecord)
unfolding ◌>>=◌ pure read_state
list_published_ports machine_id = do
  state ← read_state
  pure (select (λ port. machine_id =? "" || port.machine_id =? machine_id) state.published_ports)

unfoldable pub delete_published_port : PublishedPortId → Exec FileStore (Unit {0})
unfolding update_state
delete_published_port id = update_state (deleted published_ports id)
