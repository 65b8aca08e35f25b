-- ===== src/Prelude/Outcome.antt =====
-- What a C function does: it returns, or its behaviour is undefined or an assertion stops it.
use Prim.Native.Nat.{ℕ, ◌<◌}
use mathlib.Core.Path.{◌≡◌}
use mathlib.Core.Bool.{Bool, true, false}
use mathlib.Core.List.{List}
use mathlib.Core.Option.{none, some}
use native.Mathlib.Omega.{arith}
use libocoms.Prelude.Tests.{ltb, if◌then◌else◌}
use libocoms.Prelude.Lists.{length, get_elem?, set, get_elem?-in}

pub data Fault : Type 0 where
  out_of_range assertion overflow division_by_zero null_pointer endless : Fault

pub data Exec {ℓ} (A : Type ℓ) : Type ℓ where
  done : A → Exec A
  fault : Fault → Exec A

-- What follows a step runs on its result, and not at all after a fault.
infixl 5 ◌>>=◌ ◌>>◌
abbrev pub ◌>>=◌ {ℓ κ} : {X : Type ℓ} {Y : Type κ} → Exec X → (X → Exec Y) → Exec Y
done x >>= rest = rest x
fault why >>= rest = fault why

abbrev pub ◌>>◌ {κ} : {Y : Type κ} → Exec (Unit {0}) → Exec Y → Exec Y
step >> rest = step >>= λ _. rest

-- `assert`
abbrev pub assert : Bool → Exec (Unit {0})
assert true = done tt
assert false = fault assertion

-- a value that an `int` holds
abbrev pub int : ℕ → Exec ℕ
int n = if ltb n 0x8000_0000 then done n else fault overflow

module _ {ℓ} {A : Type ℓ} where
  -- `a[i]`
  abbrev pub load : List A → ℕ → Exec A
  load xs i = elim (get_elem? xs i) [ none ↦ fault out_of_range | some x ↦ done x ]

  -- `a[i] = v`
  abbrev pub store : List A → ℕ → A → Exec (List A)
  store xs i v = elim (get_elem? xs i) [ none ↦ fault out_of_range | some _ ↦ done (set xs i v) ]

  pub store-in : (xs : List A) (i : ℕ) (v : A) → i < length xs → store xs i v ≡ done (set xs i v)
  store-in xs i v h = ground (arith, get_elem?-in xs i)

-- The call comes back without a fault, with a result of which `Post` holds.
abbrev pub Returns {ℓ κ} : {X : Type ℓ} → Exec X → (X → Type κ) → Type (ℓ ⊔ κ)
Returns {X} call Post = (x : X) × (call ≡ done x) × Post x
