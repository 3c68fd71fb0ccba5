-- ===== src/Host/File/Atomic.antt =====
-- A store file is replaced as a whole or not at all, wherever a call fails or the process dies.
use computer_host.Base.{
  ◌+◌, ℕ, ◌≡◌, refl, sym, ap, ◌∙◌, ◌≢◌, ◌⊎◌, inl, inr, Outcome, ok, err, halt, some, none, Option,
  subst, arith,
}
use computer_host.Host.Exec.{with_outcome, lift, ◌>>=◌}
use computer_host.Host.File.{
  Event, succeeds, whole, torn, Content, Disk, read_json_file, write_json_file_atomically,
  update_file, initialize_json_file,
}

module _ {A : Type 0} where
  -- The file holds the JSON text of a value.
  abbrev pub Holds : Disk A → A → Type 0
  Holds d a = d.file.current ≡ some (whole a)

  -- The file is missing, or does not decode.
  abbrev pub IsUnreadable : Option (Content A) → Type 0
  IsUnreadable c = (c ≡ none) ⊎ (c ≡ some torn)

  -- The old file, without a report of success, or the new value.
  abbrev pub Wrote : Disk A → A → Outcome (Unit {0}) × Disk A → Type 0
  Wrote d a (r, d') = ((d'.file.current ≡ d.file.current) × (r ≢ ok tt)) ⊎ Holds d' a

  -- Wherever a write of the file fails, or the process dies in it, the file holds what it held before or
  -- the whole new value; after a write that reports success it holds the new value.
  pub write-Wrote : (a : A) (d : Disk A) → Wrote d a (write_json_file_atomically a d)
  unfolding write_json_file_atomically
  write-Wrote a d = ground arith

  pub read_current : (d : Disk A) → (read_json_file d).1.file ≡ d.file
  unfolding read_json_file
  read_current d = ground arith

  pub read_ok : (d : Disk A) (a b : A) → Holds d a → (read_json_file d).0 ≡ ok b → b ≡ a
  unfolding read_json_file
  read_ok d a b h e = ground arith

  -- A file that is unreadable is not read, and no update changes it.
  pub read_gone : (d : Disk A) (a : A) → IsUnreadable d.file.current → (read_json_file d).0 ≢ ok a
  unfolding read_json_file
  read_gone d a g e = ground arith

  -- What initializeJSONFile leaves of a file: the file, or, where it is missing, the new one.
  pub initialize_kept :
      (a : A) (d : Disk A)
      → ((initialize_json_file a d).1.file.current ≡ d.file.current)
        ⊎ ((d.file.current ≡ none) × Holds (initialize_json_file a d).1 a)
  unfolding initialize_json_file
  initialize_kept a d = elim (write-Wrote a (record d { clock = d.clock + 1 + 1 })) [
    | inl w ↦ ground arith
    | inr w ↦ ground arith
  ]

  abbrev pub StaysGone : Outcome (Unit {0}) × Disk A → Type 0
  StaysGone (r, d) = IsUnreadable d.file.current × (r ≢ ok tt)

  update_gone_from :
      (f : A → Outcome A) (d : Disk A) (r : Outcome A)
      → IsUnreadable d.file.current
      → ((a : A) → r ≢ ok a)
      → StaysGone (with_outcome (λ state. lift (f state) >>= write_json_file_atomically) r d)
  update_gone_from f d (ok a) g n = absurd (n a refl)
  update_gone_from f d (err e) g n = (g, λ q. cc)
  update_gone_from f d (halt x) g n = (g, λ q. cc)

  pub update_gone :
      (f : A → Outcome A) (d : Disk A) → IsUnreadable d.file.current → StaysGone (update_file f d)
  unfolding update_file ◌>>=◌
  update_gone f d g =
      update_gone_from f (read_json_file d).1 (read_json_file d).0
        (subst IsUnreadable (sym (ap (λ x. x.current) (read_current d))) g) (λ a. read_gone d a g)

  -- An update that did not report success changed nothing or everything; one that did, everything.
  abbrev pub Updated : (A → Outcome A) → Disk A → A → Outcome (Unit {0}) × Disk A → Type 0
  Updated f d a (r, d') =
      ((d'.file.current ≡ d.file.current) × (r ≢ ok tt)) ⊎ ((b : A) × (f a ≡ ok b) × Holds d' b)

  write_next :
      (f : A → Outcome A) (d d₁ : Disk A) (a : A) (q : Outcome A)
      → d₁.file ≡ d.file
      → f a ≡ q
      → Updated f d a (with_outcome write_json_file_atomically q d₁)
  write_next f d d₁ a (ok b) e p = elim (write-Wrote b d₁) [
    | inl w ↦ inl (w.0 ∙ ap (λ x. x.current) e, w.1)
    | inr w ↦ inr (b, p, w)
  ]
  write_next f d d₁ a (err x) e p = inl (ap (λ x. x.current) e, λ q. cc)
  write_next f d d₁ a (halt x) e p = inl (ap (λ x. x.current) e, λ q. cc)

  update_next :
      (f : A → Outcome A) (d d₁ : Disk A) (a : A) (r : Outcome A)
      → d₁.file ≡ d.file
      → ((b : A) → r ≡ ok b → b ≡ a)
      → Updated f d a (with_outcome (λ state. lift (f state) >>= write_json_file_atomically) r d₁)
  unfolding ◌>>=◌ lift
  update_next f d d₁ a (ok b) e p = write_next f d d₁ a (f b) e (ap f (sym (p b refl)))
  update_next f d d₁ a (err x) e p = inl (ap (λ x. x.current) e, λ q. cc)
  update_next f d d₁ a (halt x) e p = inl (ap (λ x. x.current) e, λ q. cc)

  pub update-Updated :
      (f : A → Outcome A) (d : Disk A) (a : A) → Holds d a → Updated f d a (update_file f d)
  unfolding update_file
  update-Updated f d a h =
      update_next f d (read_json_file d).1 a (read_json_file d).0 (read_current d)
        (λ b e. read_ok d a b h e)

  -- Every system call succeeds.
  abbrev pub NoFaults : Disk A → Type 0
  NoFaults d = (n : ℕ) → d.events n ≡ succeeds

  pub read_no_fault : (d : Disk A) (a : A) → NoFaults d → Holds d a → (read_json_file d).0 ≡ ok a
  unfolding read_json_file
  read_no_fault d a n h = ground (arith, n d.clock)

  pub write_no_fault :
      (d : Disk A) (a : A) → NoFaults d → (write_json_file_atomically a d).0 ≡ ok tt
  unfolding write_json_file_atomically
  write_no_fault d a n = simp n

  read_events : (d : Disk A) → (read_json_file d).1.events ≡ d.events
  unfolding read_json_file
  read_events d = ground arith

  -- What an update reports where no system call fails.
  abbrev pub reported : Outcome A → Outcome (Unit {0})
  reported (ok b) = ok tt
  reported (err e) = err e
  reported (halt h) = halt h

  write_reported :
      (q : Outcome A) (d : Disk A)
      → NoFaults d
      → (with_outcome write_json_file_atomically q d).0 ≡ reported q
  write_reported (ok b) d n = write_no_fault d b n
  write_reported (err e) d n = refl
  write_reported (halt h) d n = refl

  update_reported :
      (f : A → Outcome A) (d : Disk A) (a : A) (r : Outcome A)
      → NoFaults d
      → r ≡ ok a
      → (with_outcome (λ state. lift (f state) >>= write_json_file_atomically) r d).0
        ≡ reported (f a)
  unfolding ◌>>=◌ lift
  update_reported f d a r n e = rw (e, with_outcome) (write_reported (f a) d n)

  pub update_no_fault :
      (f : A → Outcome A) (d : Disk A) (a : A)
      → NoFaults d
      → Holds d a
      → (update_file f d).0 ≡ reported (f a)
  unfolding update_file
  update_no_fault f d a n h =
      update_reported f (read_json_file d).1 a (read_json_file d).0
        (λ i. ap (λ (e : ℕ → Event). e i) (read_events d) ∙ n i) (read_no_fault d a n h)
