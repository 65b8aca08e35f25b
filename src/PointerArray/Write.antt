-- ===== src/PointerArray/Write.antt =====
-- The write of one slot of a valid table, in `ocoms_pointer_array_set_item` and
-- `ocoms_pointer_array_test_and_set_item`.
use native.Mathlib.Decide.{ℕ_discrete, dec_lt}
use libocoms.Prelude.{
  ℕ, ◌+◌, ◌-◌, ◌<◌, ◌≡◌, ◌≢◌, refl, sym, ◌∙◌, if◌then◌else◌, true, Option, none, some, List, length,
  set, done, Returns, arith, ltb, length-set, store-in, lt→ltb,
}
use libocoms.Prelude.Int.{ℤ, pos, ◌-ℤ◌}
use libocoms.PointerArray.{PointerArray, is_null}
use libocoms.PointerArray.Add.{Updated}
use libocoms.PointerArray.Calls.{lowest_from, account, write_slot, reserve_slot}
use libocoms.PointerArray.Scan.{
  Lowest, IsValid-of, Lowest-of_First, used_below-set, lowest_from-Lowest,
}
use libocoms.PointerArray.Slots.{
  count_free, load-entry, entry-set, count_free-set, First, find_null-First,
}
use libocoms.PointerArray.Valid.{IsValid, contents, item, slots-contents}

module _ {ℓ} {V : Type ℓ} where
  -- The slots past `i` are those before the write.
  First-set :
      (xs : List (Option V)) (i : ℕ) (v : Option V) (r : Option ℕ)
      → i < length xs
      → First xs (i + 1) r
      → First (set xs i v) (i + 1) r
  First-set xs i v none h f =
      λ j p q. ground (arith, entry-set xs i j v, f j p (rw (length-set xs i v) at q))
  First-set xs i v (some k) h f = (
    f.0,
    rw (length-set xs i v) f.1,
    ground (arith, entry-set xs i k v, f.0, f.2),
    λ j p q. ground (arith, entry-set xs i j v, f.3 j p q),
  )

  -- `number_free` and `lowest_free` as `account` leaves them fit the slots after the write.
  abbrev Accounted : List (Option V) → ℤ × ℕ → Type 0
  Accounted xs r = (r.0 ≡ pos (count_free xs)) × Lowest xs r.1

  Lowest-cleared :
      (xs : List (Option V)) (i k : ℕ)
      → i < length xs
      → Lowest xs k
      → Lowest (set xs i none) (if ltb i k then i else k)
  Lowest-cleared xs i k h l = elim (dec_lt i k) [
    | yes p ↦ rw (lt→ltb i k p) record {
      bounded = rw (length-set xs i none) (omega arith);
      used_below = λ j q. ground (arith, entry-set xs i j none, l.used_below j);
      free_at = λ q. ground (arith, entry-set xs i i none);
    }
    | no p ↦
        let e : (if ltb i k then i else k) ≡ k = ground arith in
        rw e record {
          bounded = rw (length-set xs i none) l.bounded;
          used_below = λ j q. ground (arith, entry-set xs i j none, l.used_below j);
          free_at = λ q.
              ground (arith, entry-set xs i k none, l.free_at (rw (length-set xs i none) at q));
        }
  ]

  Lowest-kept :
      (xs : List (Option V)) (i k : ℕ) (w : V)
      → i < length xs
      → i ≢ k
      → Lowest xs k
      → Lowest (set xs i (some w)) k
  Lowest-kept xs i k w h ne l = record {
    bounded = rw (length-set xs i (some w)) l.bounded;
    used_below = λ j q. ground (arith, entry-set xs i j (some w), l.used_below j);
    free_at = λ q.
        ground (arith, entry-set xs i k (some w), l.free_at (rw (length-set xs i (some w)) at q));
  }

  Lowest-of : (t : PointerArray V) → IsValid t → Lowest (contents t) t.lowest_free
  Lowest-of t v = record {
    bounded = omega (arith, v.bounded, v.measured);
    used_below = v.used_below;
    free_at = λ h. v.free_at (rw v.measured at h);
  }

  account-Accounted :
      (t : PointerArray V) (i : ℕ) (v : Option V)
      → IsValid t
      → i < t.size
      → Returns (account t (contents t) i (item t i) v) (Accounted (set (contents t) i v))
  unfolding account
  account-Accounted t i none v h =
      let xs = contents t in
      let in_xs : i < length xs = omega (arith, v.measured) in
      (
        _,
        refl,
        (
          ground (arith, v.counted, count_free-set xs i none in_xs),
          Lowest-cleared xs i t.lowest_free in_xs (Lowest-of t v),
        ),
      )
  account-Accounted t i (some w) v h =
      let xs = contents t in
      let in_xs : i < length xs = omega (arith, v.measured) in
      let free = if is_null (item t i) then t.number_free -ℤ pos 1 else t.number_free in
      let counted : free ≡ pos (count_free (set xs i (some w))) =
        ground (arith, v.counted, count_free-set xs i (some w) in_xs) in
      elim (ℕ_discrete i t.lowest_free) [
        | no ne ↦ (
          (free, t.lowest_free),
          ground arith,
          (counted, Lowest-kept xs i t.lowest_free w in_xs ne (Lowest-of t v)),
        )
        | yes e ↦
            let (r, run, f) = find_null-First xs (t.size - (i + 1)) (i + 1) (omega arith) in
            let low : ℕ = elim r [ none ↦ t.size | some k ↦ k ] in
            let scan : lowest_from t xs (i + 1) ≡ done low = unfold lowest_from in rw run in
            (
              (free, low),
              ground (arith, scan),
              (
                counted,
                Lowest-of_First (set xs i (some w)) (i + 1) r t.size
                    (sym (length-set xs i (some w) ∙ v.measured))
                    (First-set xs i (some w) r in_xs f)
                    (used_below-set xs i w in_xs (rw e v.used_below)),
              ),
            )
      ]

  -- Writing a slot of a valid table, NULL or not, updates it and nothing else.
  pub write_slot-Updated :
      (t : PointerArray V) (i : ℕ) (v : Option V)
      → IsValid t
      → i < t.size
      → Returns (write_slot t i v) (Updated t i v)
  unfolding write_slot
  write_slot-Updated t i v valid h =
      let xs = contents t in
      let in_xs : i < length xs = omega (arith, valid.measured) in
      let ((n, k), run, (c, l)) = account-Accounted t i v valid h in
      (
        record t { addr = some (set xs i v); number_free = n; lowest_free = k },
        rw (
          slots-contents t valid.measured (omega arith),
          load-entry xs i in_xs,
          run,
          store-in xs i v in_xs,
        ),
        record {
          valid =
              IsValid-of t (set xs i v) n k (length-set xs i v ∙ valid.measured) c valid.small l;
          sized = refl;
          limit = refl;
          items = λ j. entry-set xs i j v in_xs;
        },
      )

  -- `test_and_set_item` writes a free slot, and scans from the slot itself.
  pub reserve_slot-Updated :
      (t : PointerArray V) (i : ℕ) (w : V)
      → IsValid t
      → i < t.size
      → is_null (item t i) ≡ true
      → Returns (reserve_slot t i (some w)) (Updated t i (some w))
  unfolding reserve_slot
  reserve_slot-Updated t i w v h null =
      let xs = contents t in
      let xs' = set xs i (some w) in
      let in_xs : i < length xs = omega (arith, v.measured) in
      let n = t.number_free -ℤ pos 1 in
      let counted : n ≡ pos (count_free xs') =
        ground (arith, v.counted, count_free-set xs i (some w) in_xs) in
      let measured = length-set xs i (some w) ∙ v.measured in
      let reads = slots-contents t v.measured (omega arith) in
      let finish = λ (k : ℕ) (l : Lowest xs' k). IsValid-of t xs' n k measured counted v.small l in
      elim (ℕ_discrete i t.lowest_free) [
        | no ne ↦ (
          record t { addr = some xs'; number_free = n; lowest_free = t.lowest_free },
          ground (arith, reads, store-in xs i (some w) in_xs),
          record {
            valid =
                finish t.lowest_free (Lowest-kept xs i t.lowest_free w in_xs ne (Lowest-of t v));
            sized = refl;
            limit = refl;
            items = λ j. entry-set xs i j (some w) in_xs;
          },
        )
        | yes e ↦
            let below = used_below-set xs i w in_xs (rw e v.used_below) in
            let (k, run, l) =
              lowest_from-Lowest t xs' i measured (omega arith) (λ j p. below j (omega arith)) in
            (
              record t { addr = some xs'; number_free = n; lowest_free = k },
              ground (arith, reads, store-in xs i (some w) in_xs, run),
              record {
                valid = finish k l;
                sized = refl;
                limit = refl;
                items = λ j. entry-set xs i j (some w) in_xs;
              },
            )
      ]
