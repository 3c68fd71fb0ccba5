-- ===== src/Host/Exec/Post.antt =====
-- Rules for what holds of the state after a call, however the call ends.
use computer_host.Base.{
  Bool, true, false, List, [], ◌∷◌, String, Error, Outcome, ok, err, halt, if◌then◌else◌,
}
use computer_host.Host.Exec
use computer_host.Host.Exec.{
  Exec, Attempt, value, failed, ◌>>=◌, pure, raise, gets, try, ignore, lift, modify, refuse_if,
  when, for_each, wrapping, on_error,
}

module _ {S : Type 0} (H P : S → Type 0) where
  -- `P` holds after a value or an error, `H` holds after a halt.
  abbrev pub After : {A : Type 0} → Outcome A × S → Type 0
  After (ok a, s) = P s
  After (err e, s) = P s
  After (halt x, s) = H s

  -- From a state with `P`, the call ends in one with `P`, unless it halts.
  pub record Keeps {A : Type 0} (m : Exec S A) : Type 0 where
    pub run : (s : S) → P s → After (m s)

-- What holds after every outcome.
pub after_all : {S A : Type 0} (P : S → Type 0) (r : Outcome A) (s : S) → After P P (r, s) → P s
after_all P (ok a) s h = h
after_all P (err e) s h = h
after_all P (halt x) s h = h

module _ {S A B : Type 0} {H P : S → Type 0} where
  pub bind_outcome :
      (f : A → Exec S B) (r : Outcome A) (s : S)
      → ((a : A) → Keeps H P (f a))
      → After H P (r, s)
      → After H P (Exec.with_outcome f r s)
  bind_outcome f (ok a) s pf h = (pf a).run s h
  bind_outcome f (err e) s pf h = h
  bind_outcome f (halt x) s pf h = h

  pub Keeps-bind :
      (m : Exec S A) (f : A → Exec S B)
      → Keeps H P m
      → ((a : A) → Keeps H P (f a))
      → Keeps H P (m >>= f)
  unfolding ◌>>=◌
  Keeps-bind m f pm pf = record {
    run = λ s h. let (r, s') = m s in bind_outcome f r s' pf (pm.run s h);
  }

module _ {S A : Type 0} (H P : S → Type 0) where
  attempted_after : (r : Outcome A) (s : S) → After H P (r, s) → After H P (Exec.attempted r, s)
  attempted_after (ok a) s h = h
  attempted_after (err e) s h = h
  attempted_after (halt x) s h = h

  pub ignored_after : (r : Outcome A) (s : S) → After H P (r, s) → After H P (Exec.ignored r, s)
  ignored_after (ok a) s h = h
  ignored_after (err e) s h = h
  ignored_after (halt x) s h = h

module _ {S : Type 0} (H P : S → Type 0) where
  resumed_after :
      (A : Type 0) (e : Error) (q : Outcome (Unit {0})) (s : S)
      → After H P (q, s)
      → After H P (Exec.resumed {A = A} (err e) q, s)
  resumed_after A e (ok a) s h = h
  resumed_after A e (err x) s h = h
  resumed_after A e (halt x) s h = h

module _ {S A : Type 0} (H P : S → Type 0) where
  pub reworded_after :
      (text : String) (r : Outcome A) (s : S)
      → After H P (r, s)
      → After H P (Exec.reworded text r, s)
  reworded_after text (ok a) s h = h
  reworded_after text (err e) s h = h
  reworded_after text (halt x) s h = h

  pub cleaned_after :
      (c : Exec S (Unit {0})) (r : Outcome A) (s : S)
      → Keeps H P c
      → After H P (r, s)
      → After H P (Exec.with_cleanup c r s)
  cleaned_after c (ok a) s k h = h
  cleaned_after c (err e) s k h = let (q, s') = c s in resumed_after H P A e q s' (k.run s h)
  cleaned_after c (halt x) s k h = h

module _ {S A : Type 0} {H P : S → Type 0} where
  pub Keeps-wrapping : (text : String) (m : Exec S A) → Keeps H P m → Keeps H P (wrapping text m)
  unfolding wrapping
  Keeps-wrapping text m pm = record {
    run = λ s h. let (r, s') = m s in reworded_after H P text r s' (pm.run s h);
  }

  pub Keeps-on_error :
      (c : Exec S (Unit {0})) (m : Exec S A) → Keeps H P c → Keeps H P m → Keeps H P (on_error c m)
  unfolding on_error
  Keeps-on_error c m pc pm = record {
    run = λ s h. let (r, s') = m s in cleaned_after H P c r s' pc (pm.run s h);
  }

  pub Keeps-pure : (a : A) → Keeps H P (pure a)
  unfolding pure
  Keeps-pure a = record { run = λ s h. h }

  pub Keeps-raise : (e : Error) → Keeps H P (raise {A = A} e)
  unfolding raise
  Keeps-raise e = record { run = λ s h. h }

  pub Keeps-gets : (f : S → A) → Keeps H P (gets f)
  unfolding gets
  Keeps-gets f = record { run = λ s h. h }

  pub Keeps-try : (m : Exec S A) → Keeps H P m → Keeps H P (try m)
  unfolding try
  Keeps-try m pm = record {
    run = λ s h. let (r, s') = m s in attempted_after H P r s' (pm.run s h);
  }

  pub Keeps-ignore : (m : Exec S A) → Keeps H P m → Keeps H P (ignore m)
  unfolding ignore
  Keeps-ignore m pm = record {
    run = λ s h. let (r, s') = m s in ignored_after H P r s' (pm.run s h);
  }

  pub Keeps-if :
      (b : Bool) (m n : Exec S A) → Keeps H P m → Keeps H P n → Keeps H P (if b then m else n)
  Keeps-if true m n pm pn = pm
  Keeps-if false m n pm pn = pn

module _ {S : Type 0} {H P : S → Type 0} where
  pub Keeps-refuse_if : (b : Bool) (e : Error) → Keeps H P (refuse_if b e)
  unfolding refuse_if
  Keeps-refuse_if true e = record { run = λ s h. h }
  Keeps-refuse_if false e = record { run = λ s h. h }

  pub Keeps-when : (b : Bool) (m : Exec S (Unit {0})) → Keeps H P m → Keeps H P (when b m)
  unfolding when
  Keeps-when true m pm = record { run = pm.run }
  Keeps-when false m pm = record { run = λ s h. h }

  pub Keeps-for_each :
      {A : Type 0} (xs : List A) (body : A → Exec S (Unit {0}))
      → ((a : A) → Keeps H P (body a))
      → Keeps H P (for_each xs body)
  unfolding for_each
  Keeps-for_each [] body p = record { run = λ s h. h }
  Keeps-for_each (x ∷ xs) body p = record {
    run = (Keeps-bind (body x) (λ _. for_each xs body) (p x) (λ _. Keeps-for_each xs body p)).run;
  }

pub ruleset keeps_rules = (
  Keeps-bind, Keeps-pure, Keeps-raise, Keeps-gets, Keeps-try, Keeps-ignore, Keeps-if,
  Keeps-refuse_if, Keeps-when, Keeps-for_each, Keeps-wrapping, Keeps-on_error,
)
