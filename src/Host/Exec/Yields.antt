-- ===== src/Host/Exec/Yields.antt =====
-- Rules for what holds of the value and the state of a call that succeeds.
use computer_host.Base.{Bool, true, false, ◌≡◌, refl, Outcome, ok, err, halt, if◌then◌else◌}
use computer_host.Host.Exec
use computer_host.Host.Exec.{Exec, ◌>>=◌, pure}
use computer_host.Host.Exec.Post.{After, Keeps}

module _ {S A : Type 0} where
  abbrev pub Given : (A → S → Type 0) → Outcome A × S → Type 0
  Given Q (ok a, s) = Q a s
  Given Q (err e, s) = Unit
  Given Q (halt x, s) = Unit

  -- From a state with `P`, a call that succeeds gives a value and a state with `Q`.
  pub record Yields (P : S → Type 0) (Q : A → S → Type 0) (m : Exec S A) : Type 0 where
    pub run : (s : S) → P s → Given Q (m s)

  pub Yields-pure :
      (P : S → Type 0) (Q : A → S → Type 0) (a : A) → ((s : S) → P s → Q a s) → Yields P Q (pure a)
  unfolding pure
  Yields-pure P Q a h = record { run = h }

  kept : (H P : S → Type 0) (r : Outcome A) (s : S) → After H P (r, s) → Given (λ a. P) (r, s)
  kept H P (ok a) s h = h
  kept H P (err e) s h = tt
  kept H P (halt x) s h = tt

  pub Yields-Keeps : (H P : S → Type 0) (m : Exec S A) → Keeps H P m → Yields P (λ a. P) m
  Yields-Keeps H P m k = record { run = λ s h. kept H P (m s).0 (m s).1 (k.run s h) }

  weakened :
      (Q R : A → S → Type 0) (r : Outcome A) (s : S)
      → ((a : A) (s : S) → Q a s → R a s)
      → Given Q (r, s)
      → Given R (r, s)
  weakened Q R (ok a) s f h = f a s h
  weakened Q R (err e) s f h = tt
  weakened Q R (halt x) s f h = tt

  pub Yields-weaken :
      (P : S → Type 0) (Q R : A → S → Type 0) (m : Exec S A)
      → ((a : A) (s : S) → Q a s → R a s)
      → Yields P Q m
      → Yields P R m
  Yields-weaken P Q R m f k = record { run = λ s h. weakened Q R (m s).0 (m s).1 f (k.run s h) }

  -- What does not depend on the state is used once for all states.
  pub Yields-fact :
      (P : S → Type 0) (F : Type 0) (R : A → S → Type 0) (m : Exec S A)
      → (F → Yields P R m)
      → Yields (λ s. P s × F) R m
  Yields-fact P F R m k = record { run = λ s h. (k h.1).run s h.0 }

  both :
      (Q R : A → S → Type 0) (r : Outcome A) (s : S)
      → Given Q (r, s)
      → Given R (r, s)
      → Given (λ a s. Q a s × R a s) (r, s)
  both Q R (ok a) s g h = (g, h)
  both Q R (err e) s g h = tt
  both Q R (halt x) s g h = tt

  pub Yields-both :
      (P : S → Type 0) (Q R : A → S → Type 0) (m : Exec S A)
      → Yields P Q m
      → Yields P R m
      → Yields P (λ a s. Q a s × R a s) m
  Yields-both P Q R m k l = record { run = λ s h. both Q R (m s).0 (m s).1 (k.run s h) (l.run s h) }

  pub Yields-if :
      (P : S → Type 0) (Q : A → S → Type 0) (b : Bool) (m n : Exec S A)
      → (b ≡ true → Yields P Q m)
      → (b ≡ false → Yields P Q n)
      → Yields P Q (if b then m else n)
  Yields-if P Q true m n f g = f refl
  Yields-if P Q false m n f g = g refl

module _ {S A B : Type 0} (P : S → Type 0) (Q : A → S → Type 0) (R : B → S → Type 0) where
  next :
      (f : A → Exec S B) (r : Outcome A) (s : S)
      → ((a : A) → Yields (Q a) R (f a))
      → Given Q (r, s)
      → Given R (Exec.with_outcome f r s)
  next f (ok a) s k h = (k a).run s h
  next f (err e) s k h = tt
  next f (halt x) s k h = tt

  pub Yields-bind :
      (m : Exec S A) (f : A → Exec S B)
      → Yields P Q m
      → ((a : A) → Yields (Q a) R (f a))
      → Yields P R (m >>= f)
  unfolding ◌>>=◌
  Yields-bind m f km k = record { run = λ s h. next f (m s).0 (m s).1 k (km.run s h) }
