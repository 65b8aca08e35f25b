-- ===== src/PointerArray/Reserve.antt =====
-- `ocoms_pointer_array_test_and_set_item`, `_get_item`, `_remove_all` and `_set_size` on a valid
-- table.
use native.Mathlib.Decide.{ℕ_discrete, dec_lt}
use libocoms.Prelude.{
  ℕ, zero, suc, ◌+◌, ◌≤◌, ◌<◌, ◌≡◌, refl, sym, ap, ◌∙◌, true, false, Bool, Option, none, some, List,
  [], ◌∷◌, length, set, done, Returns, arith, Bool-cases, inl, inr, length-set, store-in, ◌⊎◌, not,
}
use libocoms.Prelude.Int.{pos}
use libocoms.PointerArray.{PointerArray, is_null, int_max}
use libocoms.PointerArray.Calls.{in_use, test_and_set_item, get_item, clear_slots, remove_all}
use libocoms.PointerArray.Items.{IsReachable, Refuses, Holds, grow_to-Reached, Reached-Holds}
use libocoms.PointerArray.Slots.{
  entry, count_free, load-entry, entry-set, entry-out, count_free-le-length,
}
use libocoms.PointerArray.Scan.{IsValid-of}
use libocoms.PointerArray.Valid.{IsValid, contents, item, slots-contents}
use libocoms.PointerArray.Write.{reserve_slot-Updated}

module _ {ℓ} {V : Type ℓ} where
  in_use-item :
      (t : PointerArray V) (i : ℕ) → IsValid t → in_use t i ≡ done (not (is_null (item t i)))
  unfolding in_use
  in_use-item t i v = elim (dec_lt i t.size) [
    | yes p ↦ ground (
      arith,
      slots-contents t v.measured (omega arith),
      load-entry (contents t) i (omega (arith, v.measured)),
    )
    | no p ↦ ground (arith, entry-out (contents t) i (omega (arith, v.measured)))
  ]

  -- On a valid table `ocoms_pointer_array_get_item` gives the item, and NULL past the end.
  pub get_item-item : (t : PointerArray V) (i : ℕ) → IsValid t → get_item t i ≡ done (item t i)
  unfolding get_item
  get_item-item t i v = elim (dec_lt i t.size) [
    | yes p ↦ ground (
      arith,
      slots-contents t v.measured (omega arith),
      load-entry (contents t) i (omega (arith, v.measured)),
    )
    | no p ↦ ground (arith, entry-out (contents t) i (omega (arith, v.measured)))
  ]

  -- On a valid table, `ocoms_pointer_array_test_and_set_item` of a pointer that is not NULL, at an
  -- index that growth can reach, returns. It answers false, the table unchanged, when the index is in
  -- use or the table refuses to grow to it; otherwise it answers true, the index was free and now
  -- holds the pointer, every other index holds what it held, and the table is valid.
  pub test_and_set_item-Holds :
      (mem : ℕ → Bool) (t : PointerArray V) (index : ℕ) (w : V)
      → IsValid t
      → t.max_size ≤ int_max
      → IsReachable t.max_size index
      → Returns (test_and_set_item mem t index (some w)) λ r.
        ((r.0 ≡ false) × (r.1 ≡ t) × ((is_null (item t index) ≡ false) ⊎ Refuses mem t index))
        ⊎ ((r.0 ≡ true) × (is_null (item t index) ≡ true) × Holds t index (some w) r.1)
  unfolding test_and_set_item
  test_and_set_item-Holds mem t index w v m reach = elim (Bool-cases (is_null (item t index))) [
    | inr used ↦ ((false, t), ground (arith, in_use-item t index v), inl (refl, refl, inl used))
    | inl unused ↦
        let ((room, t'), run, outcome) = grow_to-Reached mem t index v m reach in
        elim outcome [
          | inl (f, same, why) ↦
              ((false, t), ground (arith, in_use-item t index v, run), inl (refl, refl, inr why))
          | inr (ok, r) ↦
              let (t'', wrote, u) =
                reserve_slot-Updated t' index w r.valid r.inside (rw (r.kept index) unused) in
              (
                (true, t''),
                ground (arith, in_use-item t index v, run, wrote),
                inr (refl, unused, Reached-Holds t t' t'' index (some w) r u),
              )
        ]
  ]

  -- The slots below `i` are cleared already.
  clear_slots-cleared :
      (xs : List (Option V)) (left i : ℕ)
      → i + left ≡ length xs
      → ((j : ℕ) → j < i → entry xs j ≡ none)
      → Returns
          (clear_slots xs left i)
          λ ys. (length ys ≡ length xs) × ((j : ℕ) → entry ys j ≡ none)
  unfolding clear_slots
  clear_slots-cleared xs zero i e below = (
    xs,
    refl,
    (refl, λ j. elim (dec_lt j i) [ yes p ↦ below j p | no p ↦ entry-out xs j (omega arith) ]),
  )
  clear_slots-cleared xs (suc left) i e below =
      let xs' = set xs i none in
      let long = length-set xs i none in
      let (ys, run, (same, cleared)) =
        clear_slots-cleared xs' left (i + 1) (omega (arith, long))
          (λ j p. ground (arith, entry-set xs i j none (omega arith), below j)) in
      (ys, rw (store-in xs i none (omega arith), clear_slots) run, (same ∙ long, cleared))

  count_free_cleared :
      (xs : List (Option V)) → ((j : ℕ) → entry xs j ≡ none) → count_free xs ≡ length xs
  count_free_cleared [] h = refl
  count_free_cleared (x ∷ xs) h = ground (arith, h 0, count_free_cleared xs (λ j. h (suc j)))

  all_free : (xs : List (Option V)) → count_free xs ≡ length xs → (j : ℕ) → entry xs j ≡ none
  all_free [] e j = refl
  all_free (none ∷ xs) e zero = refl
  all_free (none ∷ xs) e (suc j) = all_free xs (omega arith) j
  all_free (some x ∷ xs) e j = absurd (omega (arith, count_free-le-length xs))

  -- `ocoms_pointer_array_remove_all` leaves a valid table of the same size, with NULL everywhere.
  pub remove_all-item :
      (t : PointerArray V)
      → IsValid t
      → Returns (remove_all t) λ r. IsValid r × (r.size ≡ t.size) × ((j : ℕ) → item r j ≡ none)
  unfolding remove_all
  remove_all-item t v = elim (ℕ_discrete (count_free (contents t)) t.size) [
    | yes e ↦ (t, ground (arith, v.counted), (v, refl, all_free (contents t) (e ∙ sym v.measured)))
    | no ne ↦
        let xs = contents t in
        let less = count_free-le-length xs in
        let (ys, run, (same, cleared)) =
          clear_slots-cleared xs t.size 0 (omega (arith, v.measured))
            (λ j p. absurd (omega arith)) in
        (
          record t { addr = some ys; number_free = pos t.size; lowest_free = 0 },
          ground
              (arith, v.counted, v.measured, less, slots-contents t v.measured (omega arith), run),
          (
            IsValid-of t ys (pos t.size) 0 (same ∙ v.measured)
                (ap pos (omega (arith, count_free_cleared ys cleared, v.measured))) v.small
                record {
                  bounded = omega arith;
                  used_below = λ j p. absurd (omega arith);
                  free_at = λ h. rw (cleared 0);
                },
            refl,
            cleared,
          ),
        )
  ]
