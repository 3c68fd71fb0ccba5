-- ===== src/Daemon/Results/Grown.antt =====
-- internal/daemon/lifecycle.go: what the resizing of a machine asks of the system for its disk.
use computer_host.Base.{
  String, ℕ, ◌+◌, List, ◌∷◌, ◌⊎◌, inl, inr, Bool-cases, message, true, false, ◌≡◌, refl, ℤ, ◌≤ℤ◌,
  ltb_ℤ, string_key, arith,
}
use computer_host.Host.Exec
use computer_host.Host.Exec.{Exec, when, ◌>>=◌, ◌>>◌, refuse_if}
use computer_host.Host.Exec.Yields.{Given, Yields, Yields-both}
use computer_host.Host.World.{World, Call, stat_file, truncate_file}
use computer_host.Host.File.{Event}
use computer_host.Host.Calls.{ended, run, call}
use computer_host.Daemon.Records.{grow_disk}
use computer_host.Daemon.Results.{Safe-Yields}
use computer_host.Daemon.Safe.{IsTidy}
use computer_host.Daemon.Safe.Records.{grow_disk-Safe}

pub no_smaller : (a b : ℤ) → ltb_ℤ b a ≡ false → a ≤ℤ b
no_smaller a b h = ground arith

-- The last call of the system was to look up the size of the file, and it is at most `n`, or to truncate
-- it to `n`, right after its size was looked up, and it was less.
abbrev pub IsGrownTo : String → ℤ → World → Type 0
IsGrownTo path n w =
    (before : List Call) × (k : ℕ) × (((w.trace ≡ stat_file path ∷ before)
        × (w.clock ≡ k + 1)
        × (w.env.size k ≤ℤ n))
      ⊎ ((w.trace ≡ truncate_file path n ∷ stat_file path ∷ before)
          × (w.clock ≡ k + 1 + 1)
          × (ltb_ℤ (w.env.size k) n ≡ true)))

truncated_after :
    (path : String) (n : ℤ) (e : Event) (w : World)
    → ltb_ℤ (w.env.size w.clock) n ≡ true
    → Given
        (λ u v. IsGrownTo path n v)
        (
          ended tt e,
          record w {
            trace = truncate_file path n ∷ stat_file path ∷ w.trace;
            clock = w.clock + 1 + 1;
          },
        )
truncated_after path n Event.succeeds w l = (w.trace, w.clock, inr (refl, refl, l))
truncated_after path n Event.fails w l = tt
truncated_after path n Event.finds_in_use w l = tt
truncated_after path n Event.dies w l = tt

sized_after :
    (path : String) (n : ℤ) (e : Event) (w : World)
    → Given
        (λ u v. IsGrownTo path n v)
        (Exec.with_outcome
          (λ size.
            refuse_if
              (ltb_ℤ n size)
              (message "requested storage is smaller than current system volume" "")
            >> when (ltb_ℤ size n) (run (truncate_file path n)))
          (ended (w.env.size w.clock) e)
          (record w { trace = stat_file path ∷ w.trace; clock = w.clock + 1 }))
unfolding ◌>>=◌ refuse_if when run call
sized_after path n Event.succeeds w = elim (Bool-cases (ltb_ℤ n (w.env.size w.clock))) [
  | inl l ↦ rw l tt
  | inr l ↦ elim (Bool-cases (ltb_ℤ (w.env.size w.clock) n)) [
    | inl k ↦ rw (l, k) (truncated_after path n (w.env.outcome (w.clock + 1)) w k)
    | inr k ↦ rw (l, k) (w.trace, w.clock, inl (refl, refl, no_smaller (w.env.size w.clock) n l))
  ]
]
sized_after path n Event.fails w = tt
sized_after path n Event.finds_in_use w = tt
sized_after path n Event.dies w = tt

pub grow_disk-Yields :
    (path : String) (n : ℤ)
    → Yields IsTidy (λ u w. IsTidy w × IsGrownTo path n w) (grow_disk path n)
unfolding grow_disk call ◌>>=◌
grow_disk-Yields path n =
    Yields-both IsTidy (λ u. IsTidy) (λ u. IsGrownTo path n) _
      (Safe-Yields _ (λ held. grow_disk-Safe held path n))
      (record { run = λ w t. sized_after path n (w.env.outcome w.clock) w })
