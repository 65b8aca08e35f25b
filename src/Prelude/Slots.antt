-- ===== src/Prelude/Slots.antt =====
-- Arrays of slots that may be free: what they hold and how many are free.
use Prim.Native.Nat.{ℕ, zero, suc, ◌+◌, ◌≤◌, ◌<◌}
use mathlib.Core.Path.{◌≡◌, refl}
use mathlib.Core.Option.{Option, none, some}
use mathlib.Core.List.{List, [], ◌∷◌, ◌++◌}
use native.Mathlib.Omega.{arith}
use libocoms.Prelude.Tests.{◌==◌, if◌then◌else◌}
use libocoms.Prelude.Lists.{length, set, replicate}
use libocoms.Prelude.Outcome.{done, load}

abbrev pub free {ℓ} : {V : Type ℓ} → Option V → ℕ
free none = 1
free (some _) = 0

module _ {ℓ} {V : Type ℓ} where
  -- what a read of slot `i` gives, NULL past the end
  abbrev pub entry : List (Option V) → ℕ → Option V
  entry [] i = none
  entry (x ∷ xs) zero = x
  entry (x ∷ xs) (suc i) = entry xs i

  abbrev pub count_free : List (Option V) → ℕ
  count_free [] = 0
  count_free (x ∷ xs) = free x + count_free xs

pub count_free-replicate {ℓ} :
    (V : Type ℓ) (n : ℕ) → count_free (replicate {A = Option V} n none) ≡ n
count_free-replicate V zero = refl
count_free-replicate V (suc n) = omega (arith, count_free-replicate V n)

pub entry-replicate {ℓ} : (V : Type ℓ) (n i : ℕ) → entry (replicate {A = Option V} n none) i ≡ none
entry-replicate V zero i = refl
entry-replicate V (suc n) zero = refl
entry-replicate V (suc n) (suc i) = entry-replicate V n i

module _ {ℓ} {V : Type ℓ} where
  pub load-entry : (xs : List (Option V)) (i : ℕ) → i < length xs → load xs i ≡ done (entry xs i)
  load-entry [] i h = absurd (omega arith)
  load-entry (x ∷ xs) zero h = refl
  load-entry (x ∷ xs) (suc i) h = load-entry xs i (omega arith)

  pub entry-set :
      (xs : List (Option V)) (i j : ℕ) (v : Option V)
      → i < length xs
      → entry (set xs i v) j ≡ (if j == i then v else entry xs j)
  entry-set [] i j v h = absurd (omega arith)
  entry-set (x ∷ xs) zero zero v h = refl
  entry-set (x ∷ xs) zero (suc j) v h = ground arith
  entry-set (x ∷ xs) (suc i) zero v h = ground arith
  entry-set (x ∷ xs) (suc i) (suc j) v h = ground (arith, entry-set xs i j v)

  pub entry-out : (xs : List (Option V)) (i : ℕ) → length xs ≤ i → entry xs i ≡ none
  entry-out [] i h = refl
  entry-out (x ∷ xs) zero h = absurd (omega arith)
  entry-out (x ∷ xs) (suc i) h = entry-out xs i (omega arith)

  pub entry-append_replicate :
      (xs : List (Option V)) (n j : ℕ) → entry (xs ++ replicate n none) j ≡ entry xs j
  entry-append_replicate [] n j = entry-replicate V n j
  entry-append_replicate (x ∷ xs) n zero = refl
  entry-append_replicate (x ∷ xs) n (suc j) = entry-append_replicate xs n j

  pub count_free-set :
      (xs : List (Option V)) (i : ℕ) (v : Option V)
      → i < length xs
      → count_free (set xs i v) + free (entry xs i) ≡ count_free xs + free v
  count_free-set [] i v h = absurd (omega arith)
  count_free-set (x ∷ xs) zero v h = omega arith
  count_free-set (x ∷ xs) (suc i) v h = omega (arith, count_free-set xs i v (omega arith))

  pub count_free-le-length : (xs : List (Option V)) → count_free xs ≤ length xs
  count_free-le-length [] = omega arith
  count_free-le-length (none ∷ xs) = omega (arith, count_free-le-length xs)
  count_free-le-length (some x ∷ xs) = omega (arith, count_free-le-length xs)

  pub count_free-append :
      (xs ys : List (Option V)) → count_free (xs ++ ys) ≡ count_free xs + count_free ys
  count_free-append [] ys = omega arith
  count_free-append (x ∷ xs) ys = omega (arith, count_free-append xs ys)
