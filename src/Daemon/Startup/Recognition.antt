-- ===== src/Daemon/Startup/Recognition.antt =====
-- A guest is recognised by its nonce and by its host key.
use computer_host.Base.{◌≡◌, ◌≢◌, ◌↔◌, ◌⊎◌, String, trim_space, string_key, arith}
use computer_host.Model.{MachineRecord}
use computer_host.Host.World.{GuestReadyResult}
use computer_host.Daemon.Startup.{accepted, recognise}

-- The nonce of the record is blank, or the guest answered it.
abbrev pub AnswersNonce : MachineRecord → GuestReadyResult → Type 0
AnswersNonce r ready =
    (trim_space r.guest_ready_nonce ≡ "")
    ⊎ (trim_space ready.ready_nonce ≡ trim_space r.guest_ready_nonce)

-- `key` is the host key of the record and that of the answer, if both have one, and that of the one that
-- has one otherwise.
abbrev pub IsKeyOf : MachineRecord → GuestReadyResult → String → Type 0
IsKeyOf r ready key =
    let expected = trim_space r.guest_ssh_public_key in
    let given = trim_space ready.guest_ssh_public_key in
    (key ≢ "")
    × ((expected ≡ "") ⊎ (expected ≡ key))
    × ((given ≡ "") ⊎ (given ≡ key))
    × ((expected ≡ key) ⊎ (given ≡ key))

-- The answer of a guest is accepted with a key exactly where it repeats the nonce of the record, if
-- that has one, and the key is not blank and is the host key of the record and of the answer, of the
-- one of them that has one at least.
pub recognise-accepted :
    (r : MachineRecord) (ready : GuestReadyResult) (key : String)
    → (recognise r ready ≡ accepted key) ↔ (AnswersNonce r ready × IsKeyOf r ready key)
recognise-accepted r ready key =
    let n = trim_space r.guest_ready_nonce in
    let m = trim_space ready.ready_nonce in
    let e = trim_space r.guest_ssh_public_key in
    let g = trim_space ready.guest_ssh_public_key in
    ground (
      arith,
      string_key.same_iff n "",
      string_key.same_iff m n,
      string_key.same_iff e "",
      string_key.same_iff g "",
      string_key.same_iff g e,
    )
