-- ===== src/Store/Volumes.antt =====
-- internal/store/file_store.go: the volumes.
use computer_host.Base.{refl, List, message, string_key}
use computer_host.Model.{VolumeId, VolumeRecord}
use computer_host.Host.Exec.{Exec, ◌>>=◌, pure}
use computer_host.Store.FileStore.{FileStore, read_state, update_state}
use computer_host.Store.Collection.{Collection, created, updated, deleted, get_from}

abbrev pub volumes : Collection VolumeRecord VolumeId
volumes = record {
  key = λ v. v.id;
  items = λ s. s.volumes;
  with_items = λ s vs. record s { volumes = vs };
  items-with_items = λ s vs. refl;
}

unfoldable pub create_volume : VolumeRecord → Exec FileStore (Unit {0})
unfolding update_state
create_volume volume =
    update_state (created volumes (message "store: volume already exists" volume.id) volume)

unfoldable pub get_volume : VolumeId → Exec FileStore VolumeRecord
unfolding get_from
get_volume id = get_from volumes id

unfoldable pub list_volumes : Exec FileStore (List VolumeRecord)
unfolding ◌>>=◌ pure read_state
list_volumes = do state ← read_state; pure state.volumes

unfoldable pub update_volume : VolumeRecord → Exec FileStore (Unit {0})
unfolding update_state
update_volume volume = update_state (updated volumes volume)

unfoldable pub delete_volume : VolumeId → Exec FileStore (Unit {0})
unfolding update_state
delete_volume id = update_state (deleted volumes id)
