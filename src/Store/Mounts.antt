-- ===== src/Store/Mounts.antt =====
-- internal/store/file_store.go: the mounts.
use computer_host.Base.{refl, List, message, string_key, ◌=?◌, ◌||◌, select}
use computer_host.Model.{MachineId, MountId, MountRecord}
use computer_host.Host.Exec.{Exec, ◌>>=◌, pure}
use computer_host.Store.FileStore.{FileStore, read_state, update_state}
use computer_host.Store.Collection.{Collection, created, updated, deleted, get_from}

abbrev pub mounts : Collection MountRecord MountId
mounts = record {
  key = λ m. m.id;
  items = λ s. s.mounts;
  with_items = λ s ms. record s { mounts = ms };
  items-with_items = λ s ms. refl;
}

unfoldable pub create_mount : MountRecord → Exec FileStore (Unit {0})
unfolding update_state
create_mount mount =
    update_state (created mounts (message "store: mount already exists" mount.id) mount)

unfoldable pub get_mount : MountId → Exec FileStore MountRecord
unfolding get_from
get_mount id = get_from mounts id

-- The empty machine id asks for the mounts of all machines.
unfoldable pub list_mounts : MachineId → Exec FileStore (List MountRecord)
unfolding ◌>>=◌ pure read_state
list_mounts machine_id = do
  state ← read_state
  pure (select (λ mount. machine_id =? "" || mount.machine_id =? machine_id) state.mounts)

unfoldable pub update_mount : MountRecord → Exec FileStore (Unit {0})
unfolding update_state
update_mount mount = update_state (updated mounts mount)

unfoldable pub delete_mount : MountId → Exec FileStore (Unit {0})
unfolding update_state
delete_mount id = update_state (deleted mounts id)
