-- ===== src/Daemon/Losses.antt =====
-- internal/daemon: when a request may lose a file of the store.
use computer_host.Base.{
  ◌⊎◌, lies_in, inl, inr, Bool, true, ◌≡◌, refl, Bool-cases, List, ◌∷◌, arith, String, some_of,
}
use computer_host.Host.File.{Disk}
use computer_host.Host.Calls.{gone_if, is_same, filled_if}
use computer_host.Store.Consistent.{KeepsFile}

-- Among the paths that os.RemoveAll was called with is a file, or a directory that it lies in.
abbrev pub IsRemoved : List String → String → Type 0
IsRemoved removed file = some_of (λ path. lies_in path file) removed ≡ true

-- A file may be lost where it was removed, or was the target of a download that a request named.
abbrev pub MayBeLost : List String → List String → String → Type 0
MayBeLost removed overwritten file =
    IsRemoved removed file ⊎ (some_of (λ path. is_same path file) overwritten ≡ true)

pub more_removed :
    (path file : String) (removed overwritten : List String)
    → MayBeLost removed overwritten file
    → MayBeLost (path ∷ removed) overwritten file
more_removed path file removed overwritten g = ground arith

pub more_overwritten :
    (path file : String) (removed overwritten : List String)
    → MayBeLost removed overwritten file
    → MayBeLost removed (path ∷ overwritten) file
more_overwritten path file removed overwritten g = ground arith

pub weakened :
    {A Lost Lost' : Type 0} (P : A → Type 0) (d : Disk A)
    → (Lost → Lost')
    → KeepsFile Lost P d
    → KeepsFile Lost' P d
weakened P d f (inl (g, e)) = inl (f g, e)
weakened P d f (inr k) = inr k

pub swept_part :
    {A : Type 0} (P : A → Type 0) (path file : String) (removed overwritten : List String)
    (temp : Bool) (d : Disk A)
    → KeepsFile (MayBeLost removed overwritten file) P d
    → KeepsFile (MayBeLost (path ∷ removed) overwritten file) P (gone_if (lies_in path file) temp d)
swept_part P path file removed overwritten temp d k = elim (Bool-cases (lies_in path file)) [
  | inl l ↦ inl (inl (rw l refl), inl (rw l refl))
  | inr l ↦ rw l k
]

pub filled_part :
    {A : Type 0} (P : A → Type 0) (path file : String) (removed overwritten : List String)
    (d : Disk A)
    → KeepsFile (MayBeLost removed overwritten file) P d
    → KeepsFile (MayBeLost removed (path ∷ overwritten) file) P (filled_if (is_same path file) d)
filled_part P path file removed overwritten d k = elim (Bool-cases (is_same path file)) [
  | inl s ↦ inl (inr (rw s refl), inr (rw s refl))
  | inr s ↦ rw s k
]
