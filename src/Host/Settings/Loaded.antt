-- ===== src/Host/Settings/Loaded.antt =====
-- What Load returns, said without the order of its checks.
use computer_host.Base.{
  Bool, true, false, ℤ, Outcome, ok, err, halt, ◌≡◌, ◌↔◌, refl, sym, ap, subst, arith, trim_space,
  is_blank, clean, ◌∙◌, ◌=?◌, =?→≡, string_key, if◌then◌else◌,
}
use computer_host.Host.World.{Config}
use computer_host.Host.Settings.{
  Environment, load_bool, duration_default, validate_config, gathered, checked, with_interval,
  with_pci, default_interval, load,
}
use computer_host.Host.Settings.Described.{
  IsUsable, IsLoaded, validate_config-IsUsable, parsed_iff, gathered-IsDescribed,
  described_gathered,
}

abbrev got : Config → Outcome Config → Config
got c (ok d) = d
got c (err x) = c
got c (halt h) = c

checked_iff :
    (r : Outcome (Unit {0})) (c d : Config) → (checked r c ≡ ok d) ↔ ((r ≡ ok tt) × (c ≡ d))
checked_iff (ok u) c d = (λ h. (refl, ap (got c) h), λ h. ap ok h.1)
checked_iff (err x) c d = (λ h. ground arith, λ h. ground arith)
checked_iff (halt x) c d = (λ h. ground arith, λ h. ground arith)

clean_nothing : clean "" ≡ "."
unfolding clean
clean_nothing = refl

clean_here : clean (trim_space ".") ≡ "."
unfolding clean trim_space
clean_here = refl

interval_read :
    (e : Environment) (pci : Bool) (d : Outcome ℤ) (c : Config)
    → with_interval e pci d ≡ ok c
    → (n : ℤ) × (d ≡ ok n) × (gathered e pci n ≡ c) × IsUsable c
interval_read e pci (ok n) c h =
    let (v, g) = (checked_iff (validate_config (gathered e pci n)) (gathered e pci n) c).0 h in
    (n, refl, g, subst IsUsable g ((validate_config-IsUsable (gathered e pci n)).0 v))
interval_read e pci (err x) c h = ground arith
interval_read e pci (halt x) c h = ground arith

pci_read :
    (e : Environment) (b : Outcome Bool) (c : Config)
    → with_pci e b ≡ ok c
    → (pci : Bool) × (b ≡ ok pci)
      × (with_interval e pci
            (duration_default e "FIRECRACKER_HOST_RECONCILE_INTERVAL" default_interval)
          ≡ ok c)
pci_read e (ok pci) c h = (pci, refl, h)
pci_read e (err x) c h = ground arith
pci_read e (halt x) c h = ground arith

IsLoaded-described : (e : Environment) (c : Config) → load e ≡ ok c → IsLoaded e c
unfolding load load_bool duration_default
IsLoaded-described e c h =
    let (pci, b, g) = pci_read e (load_bool e "FIRECRACKER_HOST_ENABLE_PCI") c h in
    let (n, d, k, u) =
      interval_read e pci
        (duration_default e "FIRECRACKER_HOST_RECONCILE_INTERVAL" default_interval) c g in
    let bools = (parsed_iff _ _ _ false pci e.parsed_bool).0 b in
    let durations = (parsed_iff _ _ _ default_interval n e.parsed_duration).0 d in
    let usable = subst IsUsable (sym k) u in
    subst (IsLoaded e) k (gathered-IsDescribed e pci n bools durations usable, usable)

described_loaded : (e : Environment) (c : Config) → IsLoaded e c → load e ≡ ok c
unfolding load load_bool duration_default
described_loaded e c (d, u) =
    let pci = c.enable_pci in
    let n = c.reconcile_interval in
    let k = described_gathered e c d in
    let b : load_bool e "FIRECRACKER_HOST_ENABLE_PCI" ≡ ok pci =
      (parsed_iff _ "FIRECRACKER_HOST_ENABLE_PCI" "must be a boolean" false pci e.parsed_bool).1
        d.pci in
    let m : duration_default e "FIRECRACKER_HOST_RECONCILE_INTERVAL" default_interval ≡ ok n =
      (parsed_iff _ "FIRECRACKER_HOST_RECONCILE_INTERVAL" "must be a duration" default_interval n
          e.parsed_duration).1
        d.interval in
    let usable = (validate_config-IsUsable (gathered e pci n)).1 (subst IsUsable (sym k) u) in
    ap (with_pci e) b
    ∙ ap (with_interval e pci) m
    ∙ (checked_iff (validate_config (gathered e pci n)) (gathered e pci n) c).1 (usable, k)

-- Load returns settings exactly where they are what the environment describes and are usable: the
-- root directory is the cleaned text of its variable and all paths lie below it, the clone mode, the
-- engine, PCI and the interval of five seconds have their defaults where their variables are blank and
-- are what the trimmed text means where not, and the other settings are the trimmed texts.
pub load-IsLoaded : (e : Environment) (c : Config) → (load e ≡ ok c) ↔ IsLoaded e c
load-IsLoaded e c = (IsLoaded-described e c, described_loaded e c)

-- The environment, with "." for the root directory.
abbrev pub rooted_here : Environment → Environment
rooted_here e = record e {
  getenv = λ name. if name =? "FIRECRACKER_HOST_ROOT_DIR" then "." else e.getenv name;
}

module _ (e : Environment) (blank : trim_space (e.getenv "FIRECRACKER_HOST_ROOT_DIR") ≡ "") where
  gathered_here : (pci : Bool) (n : ℤ) → gathered e pci n ≡ gathered (rooted_here e) pci n
  unfolding gathered
  gathered_here pci n = rw (blank, clean_nothing, clean_here) refl

  with_interval_here :
      (pci : Bool) (d : Outcome ℤ) → with_interval e pci d ≡ with_interval (rooted_here e) pci d
  with_interval_here pci (ok n) = ap (λ c. checked (validate_config c) c) (gathered_here pci n)
  with_interval_here pci (err x) = refl
  with_interval_here pci (halt x) = refl

  with_pci_here : (b : Outcome Bool) → with_pci e b ≡ with_pci (rooted_here e) b
  unfolding duration_default
  with_pci_here (ok pci) = with_interval_here pci _
  with_pci_here (err x) = refl
  with_pci_here (halt x) = refl

-- Where the variable of the root directory is blank, Load does exactly what it does where it is ".":
-- it gives the same settings or the same error.
pub load_blank_root :
    (e : Environment)
    → is_blank (e.getenv "FIRECRACKER_HOST_ROOT_DIR") ≡ true
    → load e ≡ load (rooted_here e)
unfolding is_blank load load_bool
load_blank_root e b = with_pci_here e (=?→≡ _ "" b) (load_bool e "FIRECRACKER_HOST_ENABLE_PCI")
