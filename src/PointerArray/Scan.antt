-- ===== src/PointerArray/Scan.antt =====
-- The parts of the operations after any growth: the scan that restores `lowest_free`, and the
-- write of one slot.
use native.Mathlib.Decide.{dec_lt}
use libocoms.Prelude.{
  ℕ, ◌+◌, ◌-◌, ◌≤◌, ◌<◌, ◌≡◌, sym, true, false, Option, none, some, List, length, set, Returns,
  arith,
}
use libocoms.Prelude.Int.{ℤ, pos}
use libocoms.PointerArray.{PointerArray, is_null, int_max}
use libocoms.PointerArray.Calls.{lowest_from}
use libocoms.PointerArray.Slots.{entry, count_free, entry-set, First, find_null-First}
use libocoms.PointerArray.Valid.{IsValid}

module _ {ℓ} {V : Type ℓ} where
  -- `k` is where the first free slot is, or the end of the table.
  pub record Lowest (xs : List (Option V)) (k : ℕ) : Type 0 where
    pub bounded : k ≤ length xs
    pub used_below : (i : ℕ) → i < k → is_null (entry xs i) ≡ false
    pub free_at : k < length xs → is_null (entry xs k) ≡ true

  pub IsValid-of :
      (t : PointerArray V) (xs : List (Option V)) (n : ℤ) (k : ℕ)
      → length xs ≡ t.size
      → n ≡ pos (count_free xs)
      → t.size ≤ int_max
      → Lowest xs k
      → IsValid (record t { addr = some xs; number_free = n; lowest_free = k })
  IsValid-of t xs n k m c s l = record {
    measured = m;
    counted = c;
    small = s;
    bounded = omega arith;
    used_below = l.used_below;
    free_at = λ h. l.free_at (rw m h);
  }

  pub Lowest-of_First :
      (xs : List (Option V)) (start : ℕ) (r : Option ℕ) (end : ℕ)
      → end ≡ length xs
      → First xs start r
      → ((i : ℕ) → i < start → is_null (entry xs i) ≡ false)
      → Lowest xs (elim r [ none ↦ end | some k ↦ k ])
  Lowest-of_First xs start none end e f below = record {
    bounded = omega arith;
    used_below =
        λ i h. elim (dec_lt i start) [ yes p ↦ below i p | no p ↦ f i (omega arith) (omega arith) ];
    free_at = λ h. absurd (omega arith);
  }
  Lowest-of_First xs start (some k) end e f below = record {
    bounded = omega arith;
    used_below = λ i h. elim (dec_lt i start) [ yes p ↦ below i p | no p ↦ f.3 i (omega arith) h ];
    free_at = λ h. f.2;
  }

  -- The scan from `start`, with nothing free below, returns where the first free slot is.
  pub lowest_from-Lowest :
      (t : PointerArray V) (xs : List (Option V)) (start : ℕ)
      → length xs ≡ t.size
      → start ≤ t.size
      → ((i : ℕ) → i < start → is_null (entry xs i) ≡ false)
      → Returns (lowest_from t xs start) (Lowest xs)
  unfolding lowest_from
  lowest_from-Lowest t xs start m h below =
      let (r, run, f) = find_null-First xs (t.size - start) start (omega arith) in
      (
        elim r [ none ↦ t.size | some i ↦ i ],
        rw run,
        Lowest-of_First xs start r t.size (sym m) f below,
      )

  -- Slot `i` now holds a pointer, and everything below it did before.
  pub used_below-set :
      (xs : List (Option V)) (i : ℕ) (w : V)
      → i < length xs
      → ((j : ℕ) → j < i → is_null (entry xs j) ≡ false)
      → (j : ℕ) → j < i + 1
      → is_null (entry (set xs i (some w)) j) ≡ false
  used_below-set xs i w h below j p = ground (arith, entry-set xs i j (some w), below j)
