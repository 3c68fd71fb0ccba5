-- ===== src/Host/Exec.antt =====
-- Go functions that change state and return an error. What was changed before an error stays changed,
-- so the state is returned beside each outcome.
pub mod Fails
pub mod Post
pub mod Yields
use computer_host.Base.{
  Bool, true, false, Option, none, some, List, [], ◌∷◌, Error, Outcome, ok, err, halt, String,
  message,
}

abbrev pub Exec : Type 0 → Type 0 → Type 0
Exec S A = S → Outcome A × S

-- A result that the caller inspects: `value, err := f()`.
pub data Attempt (A : Type 0) : Type 0 where
  value : A → Attempt A
  failed : Error → Attempt A

abbrev pub with_outcome : {S A B : Type 0} → (A → Exec S B) → Outcome A → Exec S B
with_outcome f (ok a) s = f a s
with_outcome f (err e) s = (err e, s)
with_outcome f (halt h) s = (halt h, s)

infixl 10 ◌>>=◌ ◌>>◌
unfoldable pub ◌>>=◌ : {S A B : Type 0} → Exec S A → (A → Exec S B) → Exec S B
◌>>=◌ m f s = let (r, s') = m s in with_outcome f r s'

abbrev pub ◌>>◌ : {S A B : Type 0} → Exec S A → Exec S B → Exec S B
m >> n = m >>= λ _. n

module _ {A : Type 0} where
  abbrev pub attempted : Outcome A → Outcome (Attempt A)
  attempted (ok a) = ok (value a)
  attempted (err e) = ok (failed e)
  attempted (halt h) = halt h

  abbrev pub reworded : String → Outcome A → Outcome A
  reworded text (ok a) = ok a
  reworded text (err e) = err (message text "")
  reworded text (halt h) = halt h

  abbrev pub ignored : Outcome A → Outcome (Unit {0})
  ignored (ok a) = ok tt
  ignored (err e) = ok tt
  ignored (halt h) = halt h

  abbrev pub resumed : Outcome A → Outcome (Unit {0}) → Outcome A
  resumed r (ok _) = r
  resumed r (err e) = r
  resumed r (halt h) = halt h

  -- The value that an option holds, or an error.
  abbrev pub or_error {κ} : {B : Type κ} → Error → (A → B) → Option A → Outcome B
  or_error e f none = err e
  or_error e f (some a) = ok (f a)

module _ {S A : Type 0} where
  unfoldable pub pure : A → Exec S A
  pure a s = (ok a, s)

  unfoldable pub raise : Error → Exec S A
  raise e s = (err e, s)

  unfoldable pub gets : (S → A) → Exec S A
  gets f s = (ok (f s), s)

  -- Hands the error to the caller instead of returning it. A halt is no error.
  unfoldable pub try : Exec S A → Exec S (Attempt A)
  try m s = let (r, s') = m s in (attempted r, s')

  -- `_ = f()`.
  unfoldable pub ignore : Exec S A → Exec S (Unit {0})
  ignore m s = let (r, s') = m s in (ignored r, s')

  abbrev pub with_deferred : Exec S (Unit {0}) → Outcome A → Exec S A
  with_deferred d (ok a) s = let (q, s') = d s in (resumed (ok a) q, s')
  with_deferred d (err e) s = let (q, s') = d s in (resumed (err e) q, s')
  with_deferred d (halt h) s = (halt h, s)

  -- `defer d()` before the rest `m` of a function.
  unfoldable pub deferring : Exec S (Unit {0}) → Exec S A → Exec S A
  deferring d m s = let (r, s') = m s in with_deferred d r s'

  abbrev pub with_cleanup : Exec S (Unit {0}) → Outcome A → Exec S A
  with_cleanup c (ok a) s = (ok a, s)
  with_cleanup c (err e) s = let (q, s') = c s in (resumed (err e) q, s')
  with_cleanup c (halt h) s = (halt h, s)

  -- if err := m(); err != nil { cleanup(); return err }
  unfoldable pub on_error : Exec S (Unit {0}) → Exec S A → Exec S A
  on_error c m s = let (r, s') = m s in with_cleanup c r s'

  -- An error of `m` is returned as fmt.Errorf("text: %w", err).
  unfoldable pub wrapping : String → Exec S A → Exec S A
  wrapping text m s = let (r, s') = m s in (reworded text r, s')

  -- A pure step that may return an error.
  unfoldable pub lift : Outcome A → Exec S A
  lift r s = (r, s)

module _ {S : Type 0} where
  unfoldable pub modify : (S → S) → Exec S (Unit {0})
  modify f s = (ok tt, f s)

  -- if cond { return err }
  unfoldable pub refuse_if : Bool → Error → Exec S (Unit {0})
  refuse_if true e s = (err e, s)
  refuse_if false e s = (ok tt, s)

  unfoldable pub when : Bool → Exec S (Unit {0}) → Exec S (Unit {0})
  when true m s = m s
  when false m s = (ok tt, s)

  -- for _, x := range xs { if err := body(x); err != nil { return err } }
  unfoldable pub for_each : {A : Type 0} → List A → (A → Exec S (Unit {0})) → Exec S (Unit {0})
  unfolding ◌>>=◌
  for_each [] body s = (ok tt, s)
  for_each (x ∷ xs) body s = (body x >> for_each xs body) s
