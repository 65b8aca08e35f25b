-- ===== src/PointerArray/Slots.antt =====
-- The slots of a pointer array: what they hold, how many are free, and the scan for a free one.
use libocoms.Prelude.{
  ℕ, zero, suc, ◌+◌, ◌-◌, ◌≤◌, ◌<◌, ◌≡◌, refl, true, false, Option, none, some, List, [], ◌∷◌, ◌++◌,
  length, replicate, take_all, inl, inr, Option-cases, Returns, arith, length-append,
  length-replicate,
}
use native.Mathlib.Decide.{ℕ_discrete}
pub use libocoms.Prelude.Slots.{
  free, entry, count_free, count_free-replicate, entry-replicate, load-entry, entry-set, entry-out,
  entry-append_replicate, count_free-set, count_free-le-length, count_free-append,
}
use libocoms.PointerArray.{is_null, find_null, resize}

module _ {ℓ} {V : Type ℓ} where
  -- With no free slot every slot is used.
  pub used_of_no_free :
      (xs : List (Option V)) (i : ℕ)
      → count_free xs ≡ 0
      → i < length xs
      → is_null (entry xs i) ≡ false
  used_of_no_free [] i e h = absurd (omega arith)
  used_of_no_free (none ∷ xs) i e h = absurd (omega arith)
  used_of_no_free (some x ∷ xs) zero e h = refl
  used_of_no_free (some x ∷ xs) (suc i) e h = used_of_no_free xs i (omega arith) (omega arith)

  -- With a free slot not every slot is used.
  pub no_free_of_used :
      (xs : List (Option V))
      → ((i : ℕ) → i < length xs → is_null (entry xs i) ≡ false)
      → count_free xs ≡ 0
  no_free_of_used [] h = refl
  no_free_of_used (x ∷ xs) h =
      ground (arith, h 0, no_free_of_used xs (λ i p. h (suc i) (omega arith)))

  -- A table that grows keeps its slots and gets free ones.
  pub record Extends (xs ys : List (Option V)) (n : ℕ) : Type ℓ where
    pub long : length ys ≡ n
    pub freed : count_free ys + length xs ≡ count_free xs + n
    pub kept : (j : ℕ) → entry ys j ≡ entry xs j

  append-Extends :
      (xs : List (Option V)) (n : ℕ)
      → length xs ≤ n
      → Extends xs (xs ++ replicate (n - length xs) none) n
  append-Extends xs n h = record {
    long = omega (
      arith,
      length-append xs (replicate (n - length xs) none),
      length-replicate {A = Option V} (n - length xs) none,
    );
    freed = omega (
      arith,
      count_free-append xs (replicate (n - length xs) none),
      count_free-replicate V (n - length xs),
    );
    kept = entry-append_replicate xs (n - length xs);
  }

  -- `r` is the first free slot at `i` or after it.
  abbrev pub First : List (Option V) → ℕ → Option ℕ → Type 0
  First xs i none = (j : ℕ) → i ≤ j → j < length xs → is_null (entry xs j) ≡ false
  First xs i (some k) =
      (i ≤ k)
      × (k < length xs)
      × (is_null (entry xs k) ≡ true)
      × ((j : ℕ) → i ≤ j → j < k → is_null (entry xs j) ≡ false)

  abbrev pub slots_of : Option (List (Option V)) → List (Option V)
  slots_of none = []
  slots_of (some xs) = xs

  pub resize-Extends :
      (addr : Option (List (Option V))) (size n : ℕ)
      → length (slots_of addr) ≡ size
      → size ≤ n
      → Extends (slots_of addr) (resize addr size n) n
  unfolding resize
  resize-Extends none size n e h =
      let z : n - 0 ≡ n = omega arith in rw z at (append-Extends [] n (omega arith))
  resize-Extends (some xs) size n e h =
      rw (take_all n xs (omega arith), ← e) (append-Extends xs n (omega arith))

  find_null-First_step :
      (xs : List (Option V)) (i : ℕ) (r : Option ℕ)
      → is_null (entry xs i) ≡ false
      → First xs (i + 1) r
      → First xs i r
  find_null-First_step xs i none u f =
      λ j p q. elim (ℕ_discrete i j) [ yes e ↦ rw (← e) u | no ne ↦ f j (omega arith) q ]
  find_null-First_step xs i (some k) u f = (
    omega arith,
    f.1,
    f.2,
    λ j p q. elim (ℕ_discrete i j) [ yes e ↦ rw (← e) u | no ne ↦ f.3 j (omega arith) q ],
  )

  -- The scan returns, with the first free slot that it could meet.
  pub find_null-First :
      (xs : List (Option V)) (left i : ℕ)
      → i + left ≡ length xs
      → Returns (find_null xs left i) (First xs i)
  unfolding find_null
  find_null-First xs zero i e = (none, refl, λ j p q. absurd (omega arith))
  find_null-First xs (suc left) i e = elim (Option-cases (entry xs i)) [
    | inl e' ↦ (
      some i,
      rw (load-entry xs i (omega arith), e', find_null),
      (omega arith, omega arith, rw e', λ j p q. absurd (omega arith)),
    )
    | inr (v, used) ↦
        let (r, run, f) = find_null-First xs left (i + 1) (omega arith) in
        (
          r,
          rw (load-entry xs i (omega arith), used, find_null) run,
          find_null-First_step xs i r (rw used) f,
        )
  ]
