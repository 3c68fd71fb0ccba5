-- ===== src/Tests/OfSettings.antt =====
-- The theorems on the settings, for an environment that names no root directory.
use computer_host.Base.{
  String, true, false, none, ok, ◌≡◌, ◌↔◌, refl, ◌=?◌, string_key, is_blank, trim_space, clean,
  join, if◌then◌else◌,
}
use computer_host.Host.World.{Config}
use computer_host.Host.Settings.{
  Environment, load, load_bool, duration_default, load_disk_clone_mode, load_drive_io_engine,
  gathered, validate_config, default_interval,
}
use computer_host.Host.Settings.Described.{IsLoaded}
use computer_host.Host.Settings.Loaded.{load-IsLoaded, rooted_here, load_blank_root}

abbrev variable : String → String
variable name =
    if name =? "FIRECRACKER_BINARY_PATH"
    then "/usr/bin/firecracker"
    else if name =? "JAILER_BINARY_PATH"
    then " /usr/bin/jailer "
    else if name =? "FIRECRACKER_HOST_EGRESS_INTERFACE"
    then "eth0"
    else if name =? "FIRECRACKER_HOST_DISK_CLONE_MODE"
    then "copy"
    else ""

abbrev environment : Environment
environment = record { getenv = variable; parsed_bool = λ s. none; parsed_duration = λ s. none }

abbrev rootless : Config
rootless = gathered environment false default_interval

loaded : load environment ≡ ok rootless
unfolding load load_bool duration_default load_disk_clone_mode load_drive_io_engine gathered
    validate_config is_blank trim_space clean join
loaded = refl

blank_root : is_blank (environment.getenv "FIRECRACKER_HOST_ROOT_DIR") ≡ true
unfolding is_blank trim_space
blank_root = refl

load-IsLoaded_example : (load environment ≡ ok rootless) ↔ IsLoaded environment rootless
load-IsLoaded_example = load-IsLoaded environment rootless

load_blank_root_example : load environment ≡ load (rooted_here environment)
load_blank_root_example = load_blank_root environment blank_root
