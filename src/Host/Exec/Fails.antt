-- ===== src/Host/Exec/Fails.antt =====
-- Rules for what holds of the state after a call that returns an error.
use computer_host.Base.{Error, Outcome, ok, err, halt}
use computer_host.Host.Exec
use computer_host.Host.Exec.{Exec, ◌>>=◌, pure, raise, try, deferring}
use computer_host.Host.Exec.Post.{After, Keeps}
use computer_host.Host.Exec.Yields.{Given, Yields, Yields-Keeps}

module _ {S A : Type 0} where
  abbrev pub Failing : (S → Type 0) → Outcome A × S → Type 0
  Failing E (ok a, s) = Unit
  Failing E (err e, s) = E s
  Failing E (halt x, s) = Unit

  -- From a state with `P`, a call that returns an error leaves a state with `E`.
  pub record Fails (P E : S → Type 0) (m : Exec S A) : Type 0 where
    pub run : (s : S) → P s → Failing E (m s)

  pub Fails-pure : (P E : S → Type 0) (a : A) → Fails P E (pure a)
  unfolding pure
  Fails-pure P E a = record { run = λ s h. tt }

  pub Fails-raise : (P : S → Type 0) (e : Error) → Fails P P (raise {A = A} e)
  unfolding raise
  Fails-raise P e = record { run = λ s h. h }

  failing_kept : (H P : S → Type 0) (r : Outcome A) (s : S) → After H P (r, s) → Failing P (r, s)
  failing_kept H P (ok a) s h = tt
  failing_kept H P (err e) s h = h
  failing_kept H P (halt x) s h = tt

  pub Fails-Keeps : (H P : S → Type 0) (m : Exec S A) → Keeps H P m → Fails P P m
  Fails-Keeps H P m k = record { run = λ s h. failing_kept H P (m s).0 (m s).1 (k.run s h) }

module _ {S A : Type 0} (P E : S → Type 0) where
  tried : (r : Outcome A) (s : S) → Failing E (Exec.attempted r, s)
  tried (ok a) s = tt
  tried (err e) s = tt
  tried (halt x) s = tt

  -- What is tried returns no error.
  pub Fails-try : (m : Exec S A) → Fails P E (try m)
  unfolding try
  Fails-try m = record { run = λ s h. tried (m s).0 (m s).1 }

module _ {S : Type 0} (H E : S → Type 0) where
  returned_error :
      (A : Type 0) (e : Error) (q : Outcome (Unit {0})) (s : S)
      → After H E (q, s)
      → Failing E (Exec.resumed {A = A} (err e) q, s)
  returned_error A e (ok u) s h = h
  returned_error A e (err d) s h = h
  returned_error A e (halt x) s h = tt

module _ {S A : Type 0} (H P E : S → Type 0) where
  returned_value : (a : A) (q : Outcome (Unit {0})) (s : S) → Failing E (Exec.resumed (ok a) q, s)
  returned_value a (ok u) s = tt
  returned_value a (err e) s = tt
  returned_value a (halt x) s = tt

  deferred :
      (d : Exec S (Unit {0})) (r : Outcome A) (s : S)
      → Keeps H E d
      → Failing E (r, s)
      → Failing E (Exec.with_deferred d r s)
  deferred d (ok a) s k h = returned_value a (d s).0 (d s).1
  deferred d (err e) s k h = returned_error H E A e (d s).0 (d s).1 (k.run s h)
  deferred d (halt x) s k h = tt

  pub Fails-deferring :
      (d : Exec S (Unit {0})) (m : Exec S A) → Keeps H E d → Fails P E m → Fails P E (deferring d m)
  unfolding deferring
  Fails-deferring d m k x = record { run = λ s h. deferred d (m s).0 (m s).1 k (x.run s h) }

module _ {S A B : Type 0} (P E : S → Type 0) (Q : A → S → Type 0) where
  failing_next :
      (f : A → Exec S B) (r : Outcome A) (s : S)
      → ((a : A) → Fails (Q a) E (f a))
      → Given Q (r, s)
      → Failing E (r, s)
      → Failing E (Exec.with_outcome f r s)
  failing_next f (ok a) s k g h = (k a).run s g
  failing_next f (err e) s k g h = h
  failing_next f (halt x) s k g h = tt

  pub Fails-bind :
      (m : Exec S A) (f : A → Exec S B)
      → Yields P Q m
      → Fails P E m
      → ((a : A) → Fails (Q a) E (f a))
      → Fails P E (m >>= f)
  unfolding ◌>>=◌
  Fails-bind m f y x k = record {
    run = λ s h. failing_next f (m s).0 (m s).1 k (y.run s h) (x.run s h);
  }

module _ {S A B : Type 0} (H P : S → Type 0) where
  -- A step that keeps `P`, errors included, before the rest.
  pub Fails-after :
      (m : Exec S A) (f : A → Exec S B)
      → Keeps H P m
      → ((a : A) → Fails P P (f a))
      → Fails P P (m >>= f)
  Fails-after m f k g = Fails-bind P P (λ a. P) m f (Yields-Keeps H P m k) (Fails-Keeps H P m k) g
