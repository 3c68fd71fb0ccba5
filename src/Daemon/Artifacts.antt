-- ===== src/Daemon/Artifacts.antt =====
-- internal/daemon/create.go: ensureArtifact, the files of an artifact on the host.
use computer_host.Base.{String, [], ◌∷◌, is_not_found, string_key, dir, join, if◌then◌else◌}
use Prim.Native.String.{◌++◌ as ◌+++◌}
use computer_host.Model.{ArtifactRef, ArtifactRecord, Time}
use computer_host.Host.Exec.{Attempt, value, failed, ◌>>=◌, ◌>>◌, pure, raise, gets, try, wrapping}
use computer_host.Host.World.{mkdir, download}
use computer_host.Host.Calls.{Host, on_store, run, now}
use computer_host.Store.Artifacts.{get_artifact, put_artifact}

-- The order of the downloads of the two goroutines, which write different files, is of no account.
unfoldable pub both_done : Attempt (Unit {0}) → Attempt (Unit {0}) → Host (Unit {0})
unfolding pure raise
both_done (failed e) b = raise e
both_done (value u) (failed e) = raise e
both_done (value u) (value v) = pure tt

abbrev artifact_at : ArtifactRef → String → String → Time → ArtifactRecord
artifact_at ref key dir created_at = record {
  ref = ref;
  local_key = key;
  local_dir = dir;
  kernel_image_path = join (dir ∷ "kernel" ∷ []);
  rootfs_path = join (dir ∷ "rootfs" ∷ []);
  created_at = created_at;
}

-- ensureArtifact, where the store has no record of the artifact.
unfoldable pub fetch_artifact : ArtifactRef → Host ArtifactRecord
unfolding ◌>>=◌ pure gets try wrapping both_done
fetch_artifact ref = do
  config ← gets (λ w. w.config)
  key ← gets (λ w. w.env.sha256_hex (ref.kernel_image_url +++ ("\n" +++ ref.rootfs_url)))
  let dir = join (config.artifacts_dir ∷ key ∷ [])
  wrapping "create artifact dir" (run (mkdir dir))
  kernel ← try (run (download ref.kernel_image_url (join (dir ∷ "kernel" ∷ []))))
  rootfs ← try (run (download ref.rootfs_url (join (dir ∷ "rootfs" ∷ []))))
  both_done kernel rootfs
  created_at ← now
  on_store (put_artifact (artifact_at ref key dir created_at))
  pure (artifact_at ref key dir created_at)

unfoldable pub known_or_fetched : ArtifactRef → Attempt ArtifactRecord → Host ArtifactRecord
unfolding pure raise fetch_artifact
known_or_fetched ref (value artifact) = pure artifact
known_or_fetched ref (failed e) = if is_not_found e then fetch_artifact ref else raise e

-- ensureArtifact. The mutex of the artifact is held in this function only.
unfoldable pub ensure_artifact : ArtifactRef → Host ArtifactRecord
unfolding ◌>>=◌ try known_or_fetched
ensure_artifact ref = do found ← try (on_store (get_artifact ref)); known_or_fetched ref found
