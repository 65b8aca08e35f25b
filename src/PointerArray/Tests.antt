-- ===== src/PointerArray/Tests.antt =====
-- Runs of the pointer array, and its theorems at concrete tables.
use libocoms.Prelude.{
  ℕ, zero, suc, ◌<◌, ◌≡◌, ◌⊎◌, refl, Bool, true, false, Option, none, some, List, [], ◌∷◌,
  replicate, done, fault, out_of_range, assertion, Returns, ◌>>=◌, arith,
}
use libocoms.Prelude.Int.{pos}
use libocoms.PointerArray.{PointerArray, at, is_null, construct, init}
use libocoms.PointerArray.Calls.{
  add, set_item, make_room, take_slot, grow_to, write_slot, test_and_set_item,
}
use libocoms.PointerArray.Items.{Refuses, Holds, set_item-Holds}
use libocoms.PointerArray.Overruns.{set_item_overrun, add_shrinks}
use libocoms.PointerArray.Reserve.{test_and_set_item-Holds}
use libocoms.PointerArray.Slots.{entry}
use libocoms.PointerArray.Valid.{IsValid, item}
use libocoms.Status.{success, error}

abbrev plenty : ℕ → Bool
plenty _ = true

abbrev small : PointerArray ℕ
small = (init plenty construct 2 9 1).1

fill : add plenty small (some 7) >>= (λ r. done r.0) ≡ done (at 0)
unfolding add make_room take_slot init construct
fill = refl

-- the slot that is asked for is one past the table that was grown for it
odd_max : set_item plenty small 8 (some 7) ≡ fault out_of_range
unfolding set_item grow_to write_slot init construct
odd_max = refl

-- three slots, the middle one free
abbrev gap : PointerArray ℕ
gap = record {
  lowest_free = 1;
  number_free = pos 1;
  size = 3;
  max_size = 9;
  block_size = 1;
  addr = some (some 5 ∷ none ∷ some 6 ∷ []);
}

gap_used_below : (i : ℕ) → i < 1 → is_null (item gap i) ≡ false
gap_used_below zero h = refl
gap_used_below (suc i) h = absurd (omega arith)

gap-IsValid : IsValid gap
gap-IsValid = record {
  measured = refl;
  counted = refl;
  small = omega arith;
  bounded = omega arith;
  used_below = gap_used_below;
  free_at = λ h. refl;
}

set_item-Holds_example : Returns (set_item plenty gap 5 (some 7)) λ r.
    ((r.0 ≡ error) × (r.1 ≡ gap) × Refuses plenty gap 5)
    ⊎ ((r.0 ≡ success) × Holds gap 5 (some 7) r.1)
set_item-Holds_example =
    set_item-Holds plenty gap 5 (some 7) gap-IsValid (omega arith) (omega arith)

test_and_set_item-Holds_example : Returns (test_and_set_item plenty gap 1 (some 7)) λ r.
    ((r.0 ≡ false) × (r.1 ≡ gap) × ((is_null (item gap 1) ≡ false) ⊎ Refuses plenty gap 1))
    ⊎ ((r.0 ≡ true) × (is_null (item gap 1) ≡ true) × Holds gap 1 (some 7) r.1)
test_and_set_item-Holds_example =
    test_and_set_item-Holds plenty gap 1 7 gap-IsValid (omega arith) (omega arith)

-- a limit of 9, one above the even index 8
set_item_overrun_example : set_item plenty gap 8 (some 7) ≡ fault out_of_range
set_item_overrun_example =
    set_item_overrun plenty gap 8 (some 7) gap-IsValid refl refl (omega arith) (omega arith)
      (omega arith) refl

abbrev all_used : List (Option ℕ)
all_used = replicate 130 (some 1)

-- 130 slots, all used, with a limit of 200
abbrev full : PointerArray ℕ
full = record {
  lowest_free = 130;
  number_free = pos 0;
  size = 130;
  max_size = 200;
  block_size = 1;
  addr = some all_used;
}

used_entries : (n i : ℕ) → i < n → is_null (entry {V = ℕ} (replicate n (some 1)) i) ≡ false
used_entries zero i h = absurd (omega arith)
used_entries (suc n) zero h = refl
used_entries (suc n) (suc i) h = used_entries n i (omega arith)

full-IsValid : IsValid full
full-IsValid = record {
  measured = refl;
  counted = refl;
  small = omega arith;
  bounded = omega arith;
  used_below = used_entries 130;
  free_at = λ h. absurd (omega arith);
}

add_shrinks_example :
    Returns (make_room plenty full) (λ r. (r.0 ≡ true) × (r.1.size ≡ 128) × (r.1.size < 130))
    × (add plenty full (some 7) ≡ fault assertion)
add_shrinks_example =
    add_shrinks plenty full 7 full-IsValid refl (omega arith) (omega arith) (omega arith)
      (omega arith) refl
