-- ===== src/Daemon/StorageReport/Sums.antt =====
-- What the report says of machines: sums of the sizes of their volumes.
use computer_host.Base.{
  ℕ, Bool, true, false, ◌&&◌, ◌||◌, String, Option, none, some, List, [], ◌∷◌, Outcome, ok, err,
  halt, ◌=?◌, =?-refl, =?→≡, string_key, ◌≡◌, refl, sym, ◌∙◌, ap, arith, Bool-cases, inl, inr,
  if◌then◌else◌,
}
use computer_host.Model.{MachineId, VolumeKind, system, user, VolumeRecord}
use computer_host.Daemon.StorageReport.{
  FileSystem, MachineStorageUsage, add_int64, with_ok, bytes_of_file, credited, no_usage, credit,
  for_owner, add_volumes,
}

-- The entry of a machine in a map of usages.
abbrev pub usage_of : MachineId → List MachineStorageUsage → Option MachineStorageUsage
usage_of id [] = none
usage_of id (u ∷ us) = if u.machine_id =? id then some u else usage_of id us

abbrev or_no_usage : MachineId → Option MachineStorageUsage → MachineStorageUsage
or_no_usage id none = no_usage id
or_no_usage id (some u) = u

credited_id :
    (kind : VolumeKind) (n : ℕ) (u : MachineStorageUsage)
    → (credited kind n u).machine_id ≡ u.machine_id
credited_id system n u = refl
credited_id user n u = refl

usage_of-credit :
    (id j : MachineId) (kind : VolumeKind) (n : ℕ) (us : List MachineStorageUsage)
    → usage_of j (credit id kind n us) ≡ (
        if id =? j then some (credited kind n (or_no_usage id (usage_of id us))) else usage_of j us)
unfolding credit
usage_of-credit id j kind n [] = rw (credited_id kind n (no_usage id)) refl
usage_of-credit id j kind n (u ∷ us) = elim (Bool-cases (u.machine_id =? id)) [
  | inl a ↦
      let p : u.machine_id ≡ id = =?→≡ u.machine_id id a in
      let k : (credited kind n u).machine_id ≡ id = credited_id kind n u ∙ p in
      elim (Bool-cases (id =? j)) [ inl b ↦ ground (arith, k, p) | inr b ↦ ground (arith, k, p) ]
  | inr a ↦ elim (Bool-cases (u.machine_id =? j)) [
    | inl b ↦
        let q : u.machine_id ≡ j = =?→≡ u.machine_id j b in
        let c : (id =? j) ≡ false = elim (Bool-cases (id =? j)) [
          | inl c ↦
              let same : (u.machine_id =? id) ≡ true =
                ap (λ x. u.machine_id =? x) (=?→≡ id j c ∙ sym q) ∙ =?-refl u.machine_id in
              ground arith
          | inr c ↦ c
        ] in
        ground arith
    | inr b ↦ let h = usage_of-credit id j kind n us in ground arith
  ]
]

-- What a machine has after volumes with sizes of each kind were credited to it.
abbrev pub sum_from : ℕ → List ℕ → ℕ
sum_from total [] = total
sum_from total (n ∷ ns) = sum_from (add_int64 total n) ns

abbrev owned_by : MachineId → Option MachineId → Bool
owned_by j none = false
owned_by j (some id) = id =? j

abbrev is_of : VolumeKind → VolumeKind → Bool
is_of system system = true
is_of user user = true
is_of _ _ = false

abbrev pub or_zero : Outcome ℕ → ℕ
or_zero (ok n) = n
or_zero (err e) = 0
or_zero (halt h) = 0

abbrev pub size_at : FileSystem → String → ℕ
size_at fs path = or_zero (bytes_of_file fs path)

abbrev kept : Bool → ℕ → List ℕ → List ℕ
kept true n ns = n ∷ ns
kept false n ns = ns

-- The sizes of the volumes of a kind that are attached to a machine.
abbrev pub sizes_of : FileSystem → MachineId → VolumeKind → List VolumeRecord → List ℕ
sizes_of fs j kind [] = []
sizes_of fs j kind (v ∷ volumes) =
    kept (owned_by j v.attached_machine_id && is_of kind v.kind) (size_at fs v.path)
      (sizes_of fs j kind volumes)

abbrev pub has_volume : MachineId → List VolumeRecord → Bool
has_volume j [] = false
has_volume j (v ∷ volumes) = owned_by j v.attached_machine_id || has_volume j volumes

abbrev raised : List ℕ → List ℕ → MachineStorageUsage → MachineStorageUsage
raised systems users u = record u {
  system_bytes = sum_from u.system_bytes systems;
  user_bytes = sum_from u.user_bytes users;
}

abbrev total_usage :
    MachineId → Bool → List ℕ → List ℕ → Option MachineStorageUsage → Option MachineStorageUsage
total_usage j any systems users (some u) = some (raised systems users u)
total_usage j true systems users none = some (raised systems users (no_usage j))
total_usage j false systems users none = none

credited_total :
    (j : MachineId) (any : Bool) (systems users : List ℕ) (kind : VolumeKind) (n : ℕ)
    (u : Option MachineStorageUsage)
    → total_usage j any systems users (some (credited kind n (or_no_usage j u)))
      ≡ total_usage j true (kept (is_of system kind) n systems) (kept (is_of user kind) n users) u
credited_total j any systems users system n none = refl
credited_total j any systems users system n (some u) = refl
credited_total j any systems users user n none = refl
credited_total j any systems users user n (some u) = refl

abbrev pub got : {A : Type 0} → A → Outcome A → A
got a (ok b) = b
got a (err e) = a
got a (halt h) = a

pub with_ok_parts :
    {A B : Type 0} (r : Outcome A) (f : A → Outcome B) (b : B)
    → with_ok r f ≡ ok b
    → (a : A) × (r ≡ ok a) × (f a ≡ ok b)
with_ok_parts (ok a) f b h = (a, refl, h)
with_ok_parts (err e) f b h = ground arith
with_ok_parts (halt x) f b h = ground arith

volume_total :
    (fs : FileSystem) (j : MachineId) (owner : Option MachineId) (kind : VolumeKind) (path : String)
    (volumes : List VolumeRecord) (us out : List MachineStorageUsage) (any : Bool)
    (systems users : List ℕ)
    → ((start : List MachineStorageUsage)
        → add_volumes fs volumes start ≡ ok out
        → usage_of j out ≡ total_usage j any systems users (usage_of j start))
    → for_owner owner
        (add_volumes fs volumes us)
        (λ id. with_ok (bytes_of_file fs path) (λ n. add_volumes fs volumes (credit id kind n us)))
      ≡ ok out
    → usage_of j out
      ≡ total_usage j
          (owned_by j owner || any)
          (kept (owned_by j owner && is_of system kind) (size_at fs path) systems)
          (kept (owned_by j owner && is_of user kind) (size_at fs path) users)
          (usage_of j us)
volume_total fs j none kind path volumes us out any systems users rest h = rest us h
volume_total fs j (some id) kind path volumes us out any systems users rest h =
    let (n, e, g) = with_ok_parts (bytes_of_file fs path) _ out h in
    let size : size_at fs path ≡ n = ap or_zero e in
    let after = rest (credit id kind n us) g in
    let one = usage_of-credit id j kind n us in
    rw size (elim (Bool-cases (id =? j)) [
      | inl a ↦
          let p : id ≡ j = =?→≡ id j a in
          let total = credited_total j any systems users kind n (usage_of j us) in
          let entry : usage_of j (credit id kind n us)
              ≡ some (credited kind n (or_no_usage j (usage_of j us))) =
            ground
              (arith, one, ap (λ i. some (credited kind n (or_no_usage i (usage_of i us)))) p) in
          rw a (after ∙ ap (total_usage j any systems users) entry ∙ total)
      | inr a ↦
          let entry : usage_of j (credit id kind n us) ≡ usage_of j us = ground (arith, one) in
          rw a (after ∙ ap (total_usage j any systems users) entry)
    ])

nothing_total : (j : MachineId) (u : Option MachineStorageUsage) → total_usage j false [] [] u ≡ u
nothing_total j none = refl
nothing_total j (some u) = refl

add_volumes_total :
    (fs : FileSystem) (j : MachineId) (volumes : List VolumeRecord)
    (us out : List MachineStorageUsage)
    → add_volumes fs volumes us ≡ ok out
    → usage_of j out
      ≡ total_usage j
          (has_volume j volumes)
          (sizes_of fs j system volumes)
          (sizes_of fs j user volumes)
          (usage_of j us)
unfolding add_volumes
add_volumes_total fs j [] us out h =
    let same : us ≡ out = ground arith in
    ap (usage_of j) (sym same) ∙ sym (nothing_total j (usage_of j us))
add_volumes_total fs j (v ∷ volumes) us out h =
    volume_total fs j v.attached_machine_id v.kind v.path volumes us out (has_volume j volumes)
      (sizes_of fs j system volumes) (sizes_of fs j user volumes)
      (λ start. add_volumes_total fs j volumes start out) h

-- The usage of a machine, by its volumes.
abbrev pub usage_as : FileSystem → List VolumeRecord → MachineId → Option MachineStorageUsage
usage_as fs volumes id =
    if has_volume id volumes
    then some (record {
      machine_id = id;
      system_bytes = sum_from 0 (sizes_of fs id system volumes);
      user_bytes = sum_from 0 (sizes_of fs id user volumes);
      runtime_bytes = 0;
    })
    else none

usage_total :
    (id : MachineId) (any : Bool) (systems users : List ℕ)
    → total_usage id any systems users none ≡ (
        if any
        then some (record {
          machine_id = id;
          system_bytes = sum_from 0 systems;
          user_bytes = sum_from 0 users;
          runtime_bytes = 0;
        })
        else none)
usage_total id true systems users = refl
usage_total id false systems users = refl

pub add_volumes-IsSummed :
    (fs : FileSystem) (volumes : List VolumeRecord) (out : List MachineStorageUsage)
    (id : MachineId)
    → add_volumes fs volumes [] ≡ ok out
    → usage_of id out ≡ usage_as fs volumes id
add_volumes-IsSummed fs volumes out id h =
    add_volumes_total fs id volumes [] out h
    ∙ usage_total id (has_volume id volumes) (sizes_of fs id system volumes)
        (sizes_of fs id user volumes)
