-- ===== src/Tests/OfCreation.antt =====
-- The theorems on the specifications of machines and on their snapshots.
use computer_host.Base.{
  refl, ◌≡◌, ◌↔◌, false, ok, [], ◌∷◌, none, pos, is_blank, trim_space, is_base_name,
}
use computer_host.Model.{running, ArtifactRecord}
use computer_host.Host.Exec.Post.{After}
use computer_host.Firecracker.Spec.{MachineSpec, DriveCacheType, DriveIoEngine, validate}
use computer_host.Firecracker.Spec.Bootable.{IsBootable, validate-IsBootable}
use computer_host.Daemon.Files.{validate_machine_id}
use computer_host.Daemon.BuildSpec.{build_machine_spec}
use computer_host.Daemon.BuildSpec.Accepted.{build_machine_spec-IsBootable}
use computer_host.Daemon.Awake.{IsAwake, is_left_paused}
use computer_host.Daemon.Snapshots.Take.{create_machine_snapshot}
use computer_host.Daemon.Snapshots.Take.Resumed.{create_machine_snapshot-IsAwake}
use computer_host.Tests.{settings, image, web_volume, host_in}

abbrev image_files : ArtifactRecord
image_files = record {
  ref = image;
  local_key = "e3b0";
  local_dir = "/artifacts/e3b0";
  kernel_image_path = "/artifacts/e3b0/kernel";
  rootfs_path = "/artifacts/e3b0/rootfs";
  created_at = 1;
}

web_is_valid : validate_machine_id "web" ≡ ok tt
unfolding validate_machine_id trim_space is_base_name is_blank
web_is_valid = refl

kernel_has_text : is_blank "/artifacts/e3b0/kernel" ≡ false
unfolding is_blank trim_space
kernel_has_text = refl

disk_has_text : is_blank "/disks/web/system.img" ≡ false
unfolding is_blank trim_space
disk_has_text = refl

build_machine_spec-IsBootable_example :
    (spec : MachineSpec) × (build_machine_spec settings 7 "web"
        (pos 0)
        image_files
        (web_volume ∷ [])
        "/disks/web/system.img"
        none
        "0a1b"
      ≡ ok spec)
    × IsBootable spec
build_machine_spec-IsBootable_example =
    build_machine_spec-IsBootable settings 7 "web" (pos 0) image_files (web_volume ∷ [])
      "/disks/web/system.img" none "0a1b" refl web_is_valid kernel_has_text disk_has_text
      (disk_has_text, tt)

abbrev pub small_spec : MachineSpec
small_spec = record {
  id = "web";
  vcpus = pos 2;
  memory_mib = pos 512;
  kernel_image_path = "/artifacts/e3b0/kernel";
  rootfs_path = "/disks/web/system.img";
  root_drive = record {
    id = "";
    path = "";
    read_only = false;
    cache_type = DriveCacheType.unsafe;
    io_engine = DriveIoEngine.sync_engine;
  };
  kernel_args = "";
  drives = [];
  mmds = none;
  vsock = none;
}

validate-IsBootable_example : (validate small_spec ≡ ok tt) ↔ IsBootable small_spec
validate-IsBootable_example = validate-IsBootable small_spec

none_paused : IsAwake "web" (host_in running)
unfolding is_left_paused
none_paused = refl

create_machine_snapshot-IsAwake_example :
    After (λ v. Unit) (IsAwake "web") (create_machine_snapshot "web" "second" (host_in running))
create_machine_snapshot-IsAwake_example =
    create_machine_snapshot-IsAwake "web" "second" (host_in running) none_paused
