-- ===== src/PointerArray/Overruns.antt =====
-- The tables on which `grow_table` leaves too little room, since its hard limit is the index itself,
-- or a constant of 128 pointers.
use mathlib.Core.Bool.{false≢true}
use native.Mathlib.Decide.{dec_lt}
use libocoms.Prelude.{
  ℕ, Bool, ◌+◌, ◌*◌, ◌%◌, ◌≤◌, ◌<◌, ◌≡◌, refl, sym, ap, ◌∙◌, true, false, Option, some, fault, done,
  out_of_range, assertion, Returns, arith, get_elem?-out,
}
use libocoms.Prelude.Int.{pos}
use libocoms.PointerArray.{
  PointerArray, is_null, int_max, pointer_size, handle_max, new_size, grow_table,
}
use libocoms.PointerArray.Calls.{grow_to, write_slot, set_item, make_room, take_slot, add}
use libocoms.PointerArray.Items.{wanted}
use libocoms.PointerArray.Slots.{count_free, used_of_no_free}
use libocoms.PointerArray.Valid.{IsValid, contents, slots-contents, grow_table-Grown, addr_stored}

new_size_odd_limit :
    (max index : ℕ)
    → index % 2 ≡ 0
    → index + 1 ≡ max
    → new_size max (wanted index) index ≡ some index
unfolding new_size
new_size_odd_limit max index even last = ground arith

new_size_handle :
    (max size : ℕ)
    → handle_max < max
    → max < size * 2
    → new_size max (size * 2) handle_max ≡ some handle_max
unfolding new_size
new_size_handle max size lo hi = ground arith

module _ {ℓ} {V : Type ℓ} where
  -- Writing past the end: at the last index below an odd limit, a valid table that has to grow gets
  -- exactly `index` slots, and `ocoms_pointer_array_set_item` accesses the slot after them.
  pub set_item_overrun :
      (mem : ℕ → Bool) (t : PointerArray V) (index : ℕ) (v : Option V)
      → IsValid t
      → index % 2 ≡ 0
      → index + 1 ≡ t.max_size
      → t.max_size < int_max
      → 0 < index
      → t.size ≤ index
      → mem (index * pointer_size) ≡ true
      → set_item mem t index v ≡ fault out_of_range
  unfolding set_item grow_to write_slot
  set_item_overrun mem t index v valid even last small pos_index out ok =
      let e = new_size_odd_limit t.max_size index even last in
      let (grows, g) =
        grow_table-Grown mem t (wanted index) index index valid e out (omega arith) ok in
      ground (
        arith,
        grows,
        slots-contents (grow_table mem t (wanted index) index).1 g.valid.measured
            (omega (arith, g.sized)),
        get_elem?-out (contents (grow_table mem t (wanted index) index).1) index
            (omega (arith, g.valid.measured, g.sized)),
      )

  full_lowest :
      (t : PointerArray V) → IsValid t → count_free (contents t) ≡ 0 → t.lowest_free ≡ t.size
  full_lowest t v full = elim (dec_lt t.lowest_free t.size) [
    | yes p ↦ absurd (
        false≢true
          (sym (used_of_no_free (contents t) t.lowest_free full (rw v.measured p)) ∙ v.free_at p))
    | no p ↦ omega (arith, v.bounded)
  ]

  grow_table-fits :
      (mem : ℕ → Bool) (t : PointerArray V) (soft hard n : ℕ)
      → new_size t.max_size soft hard ≡ some n
      → mem (n * pointer_size) ≡ true
      → let r = grow_table mem t soft hard in
        (r.0 ≡ true)
        × (r.1.size ≡ n)
        × (is_null r.1.addr ≡ false)
        × (r.1.lowest_free ≡ t.lowest_free)
  unfolding grow_table
  grow_table-fits mem t soft hard n e ok = rw (e, ok, grow_table) (refl, refl, refl, refl)

  make_room_full :
      (mem : ℕ → Bool) (t : PointerArray V)
      → t.number_free ≡ pos 0
      → is_null t.addr ≡ false
      → t.size * 2 ≤ int_max
      → make_room mem t ≡ done (grow_table mem t (t.size * 2) handle_max)
  unfolding make_room
  make_room_full mem t none_free stored fits = ground arith

  take_slot_past :
      (t : PointerArray V) (v : Option V)
      → is_null t.addr ≡ false
      → 0 < t.size
      → t.size ≤ t.lowest_free
      → take_slot t v ≡ fault assertion
  unfolding take_slot
  take_slot_past t v stored pos_size past = ground arith

  -- On a full valid table of more than 128 slots whose limit lies strictly between 128 and twice its
  -- size, where memory is given, the growth in `ocoms_pointer_array_add` reports success and leaves fewer slots than there
  -- were, exactly 128, and then an assertion of `add` fails.
  pub add_shrinks :
      (mem : ℕ → Bool) (t : PointerArray V) (w : V)
      → IsValid t
      → count_free (contents t) ≡ 0
      → handle_max < t.size
      → handle_max < t.max_size
      → t.max_size < t.size * 2
      → t.size * 2 ≤ int_max
      → mem (handle_max * pointer_size) ≡ true
      → Returns
          (make_room mem t)
          (λ r. (r.0 ≡ true) × (r.1.size ≡ handle_max) × (r.1.size < t.size))
        × (add mem t (some w) ≡ fault assertion)
  unfolding add
  add_shrinks mem t w v full big lo hi fits ok =
      let cut = grow_table mem t (t.size * 2) handle_max in
      let room =
        make_room_full mem t (v.counted ∙ ap pos full) (addr_stored t v.measured (omega arith))
          fits in
      let (grows, sized, stored, lowest) =
        grow_table-fits mem t (t.size * 2) handle_max handle_max
          (new_size_handle t.max_size t.size lo hi) ok in
      (
        (cut, room, (grows, sized, omega (arith, sized))),
        ground (
          arith,
          room,
          grows,
          take_slot_past cut.1 (some w) stored (omega arith) (omega (arith, full_lowest t v full)),
        ),
      )
