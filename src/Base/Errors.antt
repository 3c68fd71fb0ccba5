-- ===== src/Base/Errors.antt =====
-- How a call of the program ends: with a value, with an error, or with the end of the process.
use Prim.Native.String.{String}
use mathlib.Core.Bool.{Bool, true, false}

-- The errors that the program tells apart, and the text of the others (without their arguments).
pub data Error : Type 0 where
  -- store.ErrNotFound
  not_found : Error
  -- an error made by fmt.Errorf: its message, and the name that it quotes
  message : String → String → Error
  -- an error that an operating system call or the runtime returned
  external : String → Error
  -- the same, where the text says "address already in use"
  address_in_use : Error

-- Why a process or a request never returns.
pub data Halt : Type 0 where
  -- the process died in the middle of a call
  died : Halt
  -- sync: unlock of unlocked mutex, which Go does not recover from
  unlock_of_unlocked : Halt
  -- a goroutine waits for a mutex that it holds itself
  deadlock : Halt

pub data Outcome {ℓ} (A : Type ℓ) : Type ℓ where
  ok : A → Outcome A
  err : Error → Outcome A
  halt : Halt → Outcome A

abbrev pub is_not_found : Error → Bool
is_not_found not_found = true
is_not_found _ = false
