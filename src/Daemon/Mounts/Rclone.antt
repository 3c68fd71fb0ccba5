-- ===== src/Daemon/Mounts/Rclone.antt =====
-- internal/daemon/mounts.go: the command and the environment by which rclone mounts a bucket in a guest.
use computer_host.Base.{
  not, String, true, false, ◌≡◌, ◌≢◌, refl, sym, ◌∙◌, ap, List, [], ◌∷◌, Option, none, some,
  Outcome, ok, err, message, is_blank, trim_space, ◌=?◌, ◌&&◌, string_key, if◌then◌else◌, arith,
  Bool-cases, inl, inr,
}
use computer_host.Model.{MachineId, MountKind, MountConfig, MountRecord, Time}
use computer_host.Store.Table.{find}
use computer_host.Daemon.Mounts.{
  CreateMountRequest, check_mount_request, is_valid_mount_kind, is_webdav, is_r2, pending_mount,
}

-- An entry of the environment of a command.
pub record EnvVar : Type 0 where
  pub name : String
  pub value : String

-- env[name], where there is such an entry.
abbrev pub env_value : String → List EnvVar → Option String
env_value name env = elim (find (λ v. v.name) name env) [ none ↦ none | some v ↦ some v.value ]

-- rcloneS3Provider.
abbrev pub rclone_s3_provider : MountKind → String
rclone_s3_provider MountKind.r2 = "Cloudflare"
rclone_s3_provider MountKind.s3 = "AWS"
rclone_s3_provider _ = ""

-- The entries of a store that rclone reaches by the protocol of S3.
abbrev s3_env : String → String → MountConfig → String → List EnvVar
s3_env provider endpoint config secret =
    record { name = "RCLONE_CONFIG_REMOTE_TYPE"; value = "s3" }
    ∷ record { name = "RCLONE_CONFIG_REMOTE_PROVIDER"; value = provider }
    ∷ record { name = "RCLONE_CONFIG_REMOTE_ACCESS_KEY_ID"; value = config.access_key_id }
    ∷ record { name = "RCLONE_CONFIG_REMOTE_SECRET_ACCESS_KEY"; value = secret }
    ∷ record { name = "RCLONE_CONFIG_REMOTE_ENDPOINT"; value = endpoint }
    ∷ record { name = "RCLONE_CONFIG_REMOTE_REGION"; value = config.region }
    ∷ []

abbrev gcs_endpoint : MountConfig → String
gcs_endpoint config =
    if config.endpoint =? "" then "https://storage.googleapis.com" else config.endpoint

abbrev webdav_env : MountConfig → String → List EnvVar
webdav_env config secret =
    record { name = "RCLONE_CONFIG_REMOTE_TYPE"; value = "webdav" }
    ∷ record { name = "RCLONE_CONFIG_REMOTE_URL"; value = config.endpoint }
    ∷ record { name = "RCLONE_CONFIG_REMOTE_VENDOR"; value = "other" }
    ∷ record { name = "RCLONE_CONFIG_REMOTE_USER"; value = config.access_key_id }
    ∷ record { name = "RCLONE_CONFIG_REMOTE_PASS"; value = secret }
    ∷ []

-- The switch of buildRcloneConfigEnv, by the kind of the mount.
abbrev env_for : MountKind → MountConfig → String → Outcome (List EnvVar)
env_for MountKind.r2 config secret =
    if is_blank config.endpoint
    then err (message "config.endpoint is required for r2 mounts" "")
    else ok (s3_env (rclone_s3_provider MountKind.r2) config.endpoint config secret)
env_for MountKind.s3 config secret =
    ok (s3_env (rclone_s3_provider MountKind.s3) config.endpoint config secret)
env_for MountKind.gcs config secret = ok (s3_env "GCS" (gcs_endpoint config) config secret)
env_for MountKind.webdav config secret =
    if is_blank config.endpoint
    then err (message "config.endpoint is required for webdav mounts" "")
    else ok (webdav_env config secret)
env_for MountKind.unset config secret = err (message "unsupported mount kind" "")
env_for (MountKind.other kind) config secret = err (message "unsupported mount kind" kind)

-- buildRcloneConfigEnv.
unfoldable pub build_rclone_config_env : MountRecord → String → Outcome (List EnvVar)
build_rclone_config_env mount secret = env_for mount.kind mount.config secret

-- The entry for the secret, and that for the address of the store.
abbrev secret_key : MountKind → String
secret_key MountKind.webdav = "RCLONE_CONFIG_REMOTE_PASS"
secret_key _ = "RCLONE_CONFIG_REMOTE_SECRET_ACCESS_KEY"

abbrev address_key : MountKind → String
address_key MountKind.webdav = "RCLONE_CONFIG_REMOTE_URL"
address_key _ = "RCLONE_CONFIG_REMOTE_ENDPOINT"

-- The environment has the secret, and an address unless the mount is of S3.
abbrev pub IsUsable : MountKind → String → List EnvVar → Type 0
IsUsable kind secret env =
    (env_value (secret_key kind) env ≡ some secret)
    × (kind ≢ MountKind.s3
        → (address : String) × (env_value (address_key kind) env ≡ some address) × (address ≢ ""))

checked_endpoint :
    (req : CreateMountRequest)
    → check_mount_request req ≡ ok tt
    → (not (is_valid_mount_kind req.kind) ≡ false)
      × ((is_webdav req.kind && is_blank req.config.endpoint) ≡ false)
      × ((is_r2 req.kind && is_blank req.config.endpoint) ≡ false)
unfolding check_mount_request
checked_endpoint req h = ground arith

true_is_not_false : true ≢ false
true_is_not_false h = ground arith

not_blank : (s : String) → is_blank s ≡ false → s ≢ ""
unfolding is_blank trim_space
not_blank s h e = true_is_not_false (sym (ap is_blank e) ∙ h)

gcs_endpoint_lem : (c : MountConfig) → gcs_endpoint c ≢ ""
gcs_endpoint_lem c = elim (Bool-cases (c.endpoint =? "")) [
  | inl e ↦ rw e (λ p. true_is_not_false (sym (ap (λ s. s =? "") p)))
  | inr e ↦ rw e (λ p. true_is_not_false (sym (ap (λ s. s =? "") p) ∙ e))
]

env_for-IsUsable :
    (kind : MountKind) (config : MountConfig) (secret : String)
    → not (is_valid_mount_kind kind) ≡ false
    → (is_webdav kind && is_blank config.endpoint) ≡ false
    → (is_r2 kind && is_blank config.endpoint) ≡ false
    → (env : List EnvVar) × (env_for kind config secret ≡ ok env) × IsUsable kind secret env
unfolding find
env_for-IsUsable MountKind.r2 config secret v d r = (
  s3_env "Cloudflare" config.endpoint config secret,
  rw r refl,
  (refl, λ n. (config.endpoint, refl, not_blank _ r)),
)
env_for-IsUsable MountKind.s3 config secret v d r =
    (s3_env "AWS" config.endpoint config secret, refl, (refl, λ n. elim (n refl) [ ]))
env_for-IsUsable MountKind.gcs config secret v d r = (
  s3_env "GCS" (gcs_endpoint config) config secret,
  refl,
  (refl, λ n. (gcs_endpoint config, refl, gcs_endpoint_lem config)),
)
env_for-IsUsable MountKind.webdav config secret v d r =
    (webdav_env config secret, rw d refl, (refl, λ n. (config.endpoint, refl, not_blank _ d)))
env_for-IsUsable MountKind.unset config secret v d r = ground arith
env_for-IsUsable (MountKind.other k) config secret v d r = ground arith

-- For a request that passes the checks of CreateMount, buildRcloneConfigEnv returns no error on the
-- record of the mount: the environment has the secret under the key of the kind, and under the key of
-- the address a text that is not empty, unless the kind is S3.
pub build_rclone_config_env-IsUsable :
    (req : CreateMountRequest) (id : MachineId) (created_at : Time) (secret : String)
    → check_mount_request req ≡ ok tt
    → (env : List EnvVar) × (build_rclone_config_env (pending_mount id req created_at) secret
        ≡ ok env)
      × IsUsable req.kind secret env
unfolding build_rclone_config_env
build_rclone_config_env-IsUsable req id created_at secret h =
    let (v, d, r) = checked_endpoint req h in env_for-IsUsable req.kind req.config secret v d r
