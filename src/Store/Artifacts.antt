-- ===== src/Store/Artifacts.antt =====
-- internal/store/file_store.go: the artifacts.
use computer_host.Base.{refl, List, ok}
use computer_host.Model.{ArtifactRef, ArtifactRecord, ref_key}
use computer_host.Host.Exec.{Exec, ◌>>=◌, pure}
use computer_host.Store.Table.{upsert}
use computer_host.Store.FileStore.{FileStore, read_state, update_state}
use computer_host.Store.Collection.{Collection, get_from}

abbrev pub artifacts : Collection ArtifactRecord ArtifactRef
artifacts = record {
  key = λ a. a.ref;
  items = λ s. s.artifacts;
  with_items = λ s xs. record s { artifacts = xs };
  items-with_items = λ s xs. refl;
}

unfoldable pub put_artifact : ArtifactRecord → Exec FileStore (Unit {0})
unfolding update_state
put_artifact artifact =
    update_state (λ s. ok (record s { artifacts = upsert (λ a. a.ref) artifact s.artifacts }))

unfoldable pub get_artifact : ArtifactRef → Exec FileStore ArtifactRecord
unfolding get_from
get_artifact ref = get_from artifacts ref

unfoldable pub list_artifacts : Exec FileStore (List ArtifactRecord)
unfolding ◌>>=◌ pure read_state
list_artifacts = do state ← read_state; pure state.artifacts
