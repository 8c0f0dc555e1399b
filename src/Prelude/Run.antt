-- ===== src/Prelude/Run.antt =====
-- How a call of the C code ends: it returns, it waits for a lock or for data that never comes, or it
-- touches memory outside of an object.
use mathlib.Core.Option.{Option, none, some}
use mathlib.Core.Bool.{Bool, true, false}

pub data Run (A : Type 0) : Type 0 where
  done : A → Run A
  blocked : Run A
  fault : Run A

infixl 5 ◌>>=◌ ◌>>◌
abbrev pub ◌>>=◌ : {A B : Type 0} → Run A → (A → Run B) → Run B
done a >>= f = f a
blocked >>= f = blocked
fault >>= f = fault

abbrev pub ◌>>◌ : {B : Type 0} → Run (Unit {0}) → Run B → Run B
m >> k = m >>= λ _. k

-- A read of memory: `none` is outside of the object.
abbrev pub read : {A : Type 0} → Option A → Run A
read none = fault
read (some a) = done a

-- A lock that is taken: the call waits for ever if its holder never releases it.
abbrev pub take_lock : Bool → Run (Unit {0})
take_lock true = blocked
take_lock false = done tt
