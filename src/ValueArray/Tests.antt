-- ===== src/ValueArray/Tests.antt =====
-- Runs of the value arrays on items of 8 bytes, and their theorems at concrete sizes.
use libocoms.Prelude.{ℕ, ◌≡◌, refl, true, false, [], ◌∷◌, some, done, fault, endless, arith}
use libocoms.ValueArray.{
  ValueArray, Heap, construct, realloc, init, reserve, enlarge, set_size, write_item, set_item,
  append_item, get_item, remove_item, double_until,
}
use libocoms.ValueArray.Growth.{Grown, double_until_lem, set_size_endless}
use libocoms.Status.{success}

abbrev roomy : Heap ℕ
roomy = record { serves = λ n. true; junk = 0 }

-- An initialised array, and the item at index 2, for which 4 items are allocated.
set_item_two :
    set_item true roomy (init roomy construct 8).1 2 7
    ≡ done (
      success,
      record {
        array_items = some (0 ∷ 0 ∷ 7 ∷ 0 ∷ []);
        array_item_sizeof = 8;
        array_size = 3;
        array_alloc_size = 4;
      },
    )
unfolding set_item set_size enlarge write_item init realloc double_until
set_item_two = refl

append_one :
    append_item true roomy (reserve roomy (init roomy construct 8).1 2).1 5
    ≡ done (
      success,
      record {
        array_items = some (5 ∷ 0 ∷ []);
        array_item_sizeof = 8;
        array_size = 1;
        array_alloc_size = 2;
      },
    )
unfolding append_item set_item set_size enlarge write_item init reserve realloc double_until
append_one = refl

double_until_example : Grown (double_until 64 3 20) 3 20 × (double_until 100 0 20 ≡ fault endless)
double_until_example = double_until_lem 100 3 20 (omega arith) (omega arith) (omega arith)

set_size_endless_example :
    (set_size false roomy construct 20 ≡ fault endless)
    × (set_item false roomy construct 4 7 ≡ fault endless)
set_size_endless_example = set_size_endless roomy 20 4 7 (omega arith) (omega arith)

abbrev three_items : ValueArray ℕ
three_items = record {
  array_items = some (4 ∷ 5 ∷ 6 ∷ 0 ∷ []);
  array_item_sizeof = 8;
  array_size = 3;
  array_alloc_size = 4;
}

remove_first :
    remove_item true three_items 0
    ≡ done (success, record three_items { array_items = some (5 ∷ 6 ∷ 6 ∷ 0 ∷ []); array_size = 2 })
unfolding remove_item
remove_first = refl

get_last : get_item true roomy three_items 2 ≡ done (some 2, three_items)
unfolding get_item
get_last = refl
