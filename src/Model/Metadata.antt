-- ===== src/Model/Metadata.antt =====
-- internal/daemon/guest_metadata.go: what a guest reads from the metadata service.
use computer_host.Base.{String, List, Option}
use computer_host.Model.Contract.{GuestLoginWebhook}

-- guestMetadataPayload, within its two envelopes.
pub record GuestMetadata : Type 0 where
  pub version : String
  pub machine_id : String
  pub hostname : String
  pub ready_nonce : String
  pub authorized_keys : List String
  pub trusted_user_ca_keys : List String
  pub login_webhook : Option GuestLoginWebhook
