-- ===== src/PointerArray/Add.antt =====
-- `ocoms_pointer_array_add` on a valid table.
use native.Mathlib.Decide.{dec_lt}
use libocoms.Prelude.{
  ℕ, ◌+◌, ◌-◌, ◌≤◌, ◌<◌, ◌==◌, ◌≡◌, refl, ◌∙◌, if◌then◌else◌, true, false, Option, none, some, List,
  length, set, Returns, arith, length-set, store-in, ◌⊎◌, sym,
}
use libocoms.Prelude.Int.{ℤ, pos, ◌-ℤ◌}
use libocoms.PointerArray.{PointerArray, Added, at, failed, is_null}
use libocoms.PointerArray.Calls.{next_free, take_slot}
use libocoms.PointerArray.Growth.{Full}
use libocoms.PointerArray.Scan.{Lowest, IsValid-of, Lowest-of_First, used_below-set}
use libocoms.PointerArray.Slots.{
  entry, count_free, load-entry, entry-set, count_free-set, First, find_null-First, no_free_of_used,
  count_free-le-length, used_of_no_free,
}
use libocoms.PointerArray.Valid.{IsValid, contents, item, slots-contents, addr_stored}
use libocoms.Status.{out_of_resource}

module _ {ℓ} {V : Type ℓ} where
  -- `t'` is `t` with `v` at `index`: same size and limit, every other item as it was.
  pub record Updated (t : PointerArray V) (index : ℕ) (v : Option V) (t' : PointerArray V)
      : Type ℓ where
    pub valid : IsValid t'
    pub sized : t'.size ≡ t.size
    pub limit : t'.max_size ≡ t.max_size
    pub items : (j : ℕ) → item t' j ≡ (if j == index then v else item t j)

  some_of_free :
      (xs : List (Option V)) (start : ℕ) (r : Option ℕ)
      → 0 < count_free xs
      → First xs start r
      → ((i : ℕ) → i < start → is_null (entry xs i) ≡ false)
      → (k : ℕ) × (r ≡ some k)
  some_of_free xs start (some k) h f below = (k, refl)
  some_of_free xs start none h f below = absurd (omega (arith, no_free_of_used xs used))
    where
      used : (i : ℕ) → i < length xs → is_null (entry xs i) ≡ false
      used i p = elim (dec_lt i start) [ yes q ↦ below i q | no q ↦ f i (omega arith) p ]

  next_free-Lowest :
      (t : PointerArray V) (xs : List (Option V)) (n : ℤ)
      → length xs ≡ t.size
      → t.lowest_free < t.size
      → n ≡ pos (count_free xs)
      → ((i : ℕ) → i < t.lowest_free + 1 → is_null (entry xs i) ≡ false)
      → Returns (next_free t xs n) (Lowest xs)
  unfolding next_free
  next_free-Lowest t xs n m h c below = elim (dec_lt 0 (count_free xs)) [
    | yes p ↦
        let start = t.lowest_free + 1 in
        let (r, run, f) = find_null-First xs (t.size - start) start (omega arith) in
        let (k, e) = some_of_free xs start r p f below in
        let l = Lowest-of_First xs start r t.size (sym m) f below in
        (k, ground (arith, run), rw e at l)
    | no p ↦ (
      t.size,
      ground arith,
      record {
        bounded = omega arith;
        used_below = λ i q. used_of_no_free xs i (omega arith) (omega arith);
        free_at = λ q. absurd (omega arith);
      },
    )
  ]

  -- On a valid table with a free slot no assertion fails, and the least free slot is taken.
  pub take_slot-Updated :
      (t : PointerArray V) (w : V)
      → IsValid t
      → t.lowest_free < t.size
      → Returns
          (take_slot t (some w))
          λ r. (r.0 ≡ t.lowest_free) × Updated t t.lowest_free (some w) r.1
  unfolding take_slot
  take_slot-Updated t w v h =
      let xs = contents t in
      let i = t.lowest_free in
      let old_free = v.free_at h in
      let xs' = set xs i (some w) in
      let in_xs : i < length xs = omega (arith, v.measured) in
      let n = t.number_free -ℤ pos 1 in
      let counted : n ≡ pos (count_free xs') =
        ground (arith, v.counted, count_free-set xs i (some w) in_xs, old_free) in
      let (low, run, l) =
        next_free-Lowest t xs' n (length-set xs i (some w) ∙ v.measured) h counted
          (used_below-set xs i w in_xs v.used_below) in
      (
        (i, record t { addr = some xs'; number_free = n; lowest_free = low }),
        ground (
          arith,
          addr_stored t v.measured (omega arith),
          slots-contents t v.measured (omega arith),
          load-entry xs i in_xs,
          store-in xs i (some w) in_xs,
          count_free-le-length xs,
          count_free-set xs i (some w) in_xs,
          run,
        ),
        (
          refl,
          record {
            valid =
                IsValid-of t xs' n low (length-set xs i (some w) ∙ v.measured) counted v.small l;
            sized = refl;
            limit = refl;
            items = λ j. entry-set xs i j (some w) in_xs;
          },
        ),
      )

  -- `t'` is `t`, perhaps grown, with `w` in the slot `i`, which was the first free one.
  pub record AddedAt (t : PointerArray V) (w : V) (i : ℕ) (t' : PointerArray V) : Type ℓ where
    pub valid : IsValid t'
    pub was_free : is_null (item t i) ≡ true
    pub least : (j : ℕ) → j < i → is_null (item t j) ≡ false
    pub inside : i < t'.size
    pub wider : t.size ≤ t'.size
    pub limit : t'.max_size ≡ t.max_size
    pub items : (j : ℕ) → item t' j ≡ (if j == i then some w else item t j)

  -- What a call of `ocoms_pointer_array_add` with `w` does to `t`: it stores it, or refuses when
  -- every slot is in use.
  abbrev pub AddResult : PointerArray V → V → Added × PointerArray V → Type ℓ
  AddResult t w r =
      ((r.0 ≡ failed out_of_resource) × (r.1 ≡ t) × Full t)
      ⊎ ((i : ℕ) × (r.0 ≡ at i) × AddedAt t w i r.1)
