-- ===== src/Daemon/GuestConfigs.antt =====
-- internal/daemon/files.go: the checks of a guest's configuration and of an artifact, and the
-- configuration that the host makes of them.
use Prim.Native.Char.{code}
use Prim.Native.String
use computer_host.Base.{
  ℕ, ltb, String, Bool, true, false, not, ◌&&◌, ◌||◌, List, [], ◌∷◌, ◌++◌, Option, none, some,
  message, Outcome, ok, err, trim_space, is_blank, ◌=?◌, ◌==◌, string_key, if◌then◌else◌,
}
use computer_host.Model.{ArtifactRef, GuestConfig}
use computer_host.Firecracker.Spec.{◌and_then◌, refuse, if_given}
use computer_host.Host.Exec.{◌>>=◌, pure, gets, wrapping}
use computer_host.Host.World.{ParsedUrl, read_file}
use computer_host.Host.Calls.{Host, call}
use computer_host.Daemon.Files.{backend_ssh_public_key_path}

-- Whether a character of the text is one of those that a test picks out.
unfoldable pub has_char : (ℕ → Bool) → String → Bool
has_char test String.[] = false
has_char test (String.◌∷◌ c s) = test (code c) || has_char test s

-- "/\\" and " \t\r\n".
abbrev pub is_separator : ℕ → Bool
is_separator c = c == b'/' || c == 92

abbrev pub is_white : ℕ → Bool
is_white c = c == 32 || c == 9 || c == 13 || c == 10

abbrev checked_url : Option ParsedUrl → Outcome (Unit {0})
checked_url none = err (message "url is invalid" "")
checked_url (some u) =
    refuse (not (u.scheme =? "http") && not (u.scheme =? "https")) "url must use http or https"
    and_then refuse (is_blank u.host) "url host is required"

-- validateDownloadURL, without the name of the field in its errors.
unfoldable pub validate_download_url : (String → Option ParsedUrl) → String → Outcome (Unit {0})
validate_download_url parsed_url raw =
    refuse (is_blank raw) "url is required" and_then checked_url (parsed_url (trim_space raw))

-- validateArtifactRef.
unfoldable pub validate_artifact_ref :
    (String → Option ParsedUrl) → ArtifactRef → Outcome (Unit {0})
unfolding validate_download_url
validate_artifact_ref parsed_url ref =
    validate_download_url parsed_url ref.kernel_image_url
    and_then validate_download_url parsed_url ref.rootfs_url

-- len of a text is that of its UTF-8 encoding.
abbrev byte_length : String → ℕ
byte_length s = String.len s

-- The checks of a host name that was given.
unfoldable pub validate_hostname : String → Outcome (Unit {0})
unfolding has_char
validate_hostname given =
    let hostname = trim_space given in
    if given =? ""
    then ok tt
    else refuse (hostname =? "") "guest_config.hostname is required"
      and_then refuse (ltb 63 (byte_length hostname))
          "guest_config.hostname must be 63 characters or fewer"
      and_then refuse (has_char is_separator hostname)
          "guest_config.hostname must not contain path separators"
      and_then refuse (has_char is_white hostname)
          "guest_config.hostname must not contain whitespace"

unfoldable pub validate_keys : String → List String → Outcome (Unit {0})
validate_keys text [] = ok tt
validate_keys text (key ∷ keys) = refuse (is_blank key) text and_then validate_keys text keys

abbrev validate_given : (String → Option ParsedUrl) → GuestConfig → Outcome (Unit {0})
validate_given parsed_url c =
    validate_hostname c.hostname
    and_then validate_keys "guest_config.authorized_keys is required" c.authorized_keys
    and_then validate_keys "guest_config.trusted_user_ca_keys is required" c.trusted_user_ca_keys
    and_then if_given (λ w. validate_download_url parsed_url w.url) c.login_webhook

-- validateGuestConfig.
unfoldable pub validate_guest_config :
    (String → Option ParsedUrl) → Option GuestConfig → Outcome (Unit {0})
unfolding validate_hostname validate_keys validate_download_url
validate_guest_config parsed_url c = if_given (validate_given parsed_url) c

-- The CA key of the host's configuration, if there is one.
abbrev host_ca_keys : String → List String
host_ca_keys key = if is_blank key then [] else key ∷ []

-- mergedGuestConfig, once the public key of the backend was read.
abbrev pub merged : String → String → Option GuestConfig → GuestConfig
merged host_key ca_key none = record {
  hostname = "";
  authorized_keys = trim_space host_key ∷ [];
  trusted_user_ca_keys = host_ca_keys ca_key;
  login_webhook = none;
}
merged host_key ca_key (some c) = record {
  hostname = trim_space c.hostname;
  authorized_keys = trim_space host_key ∷ c.authorized_keys;
  trusted_user_ca_keys = host_ca_keys ca_key ++ c.trusted_user_ca_keys;
  login_webhook = c.login_webhook;
}

-- mergedGuestConfig.
unfoldable pub merged_guest_config : Option GuestConfig → Host GuestConfig
unfolding ◌>>=◌ pure gets wrapping
merged_guest_config c = do
  config ← gets (λ w. w.config)
  host_key ←
      wrapping "read backend ssh public key"
        (call (read_file (backend_ssh_public_key_path config)) (λ env n. env.text n))
  pure (merged host_key config.guest_login_ca_public_key c)

abbrev has_some : {A : Type 0} → List A → Bool
has_some [] = false
has_some (x ∷ xs) = true

abbrev is_given : {A : Type 0} → Option A → Bool
is_given none = false
is_given (some a) = true

-- hasGuestConfig.
abbrev pub has_guest_config : Option GuestConfig → Bool
has_guest_config none = false
has_guest_config (some c) =
    has_some c.authorized_keys || has_some c.trusted_user_ca_keys || is_given c.login_webhook
