-- ===== src/HashTable/Tests.antt =====
-- Runs of the hash tables, and their theorems at concrete tables.
use libocoms.Prelude.{
  ℕ, zero, suc, ◌+◌, ◌^◌, ◌<◌, ltb, ◌≡◌, refl, sym, ap, ◌∙◌, Bool, true, false, some-ne-none,
  none-ne-some, Option, none, some, List, [], ◌∷◌, replicate, done, fault, endless, Returns, arith,
}
use libocoms.Prelude.Slots.{entry}
use libocoms.HashTable.{
  HashTable, search_key, find_key, home, grow, add_element, remove_elt_at, close_gap, find_place,
  move_element, get_value, set_value, remove_value, other_kind, for_kind, same_kind, scaled,
  round_capacity_up, uint32,
}
use libocoms.HashTable.Full.{get_value-full}
use libocoms.HashTable.Growth.{Stores-empty}
use libocoms.HashTable.Keys.{methods_uint32, hash_key_ptr, hash_bytes}
use libocoms.HashTable.Laws.{methods_uint32-IsKey}
use libocoms.HashTable.Methods.{SetsValue, set_value-SetsValue}
use libocoms.HashTable.Refines.{
  Serves, set_call, get_call, remove_call, calls, spec_calls, Ready, calls-spec_calls,
}
use libocoms.HashTable.Probe.{around}
use libocoms.HashTable.Removal.{remove_value-IsTable}
use libocoms.HashTable.Valid.{IsCalloc, IsTable}
use libocoms.HashTable.View.{update, Stores}
use libocoms.HashTable.Write.{written-Stores}
use libocoms.Status.{success, out_of_resource}

abbrev memory : ℕ → Bool
memory n = ltb n (2 ^ 59)

memory-IsCalloc : IsCalloc memory
memory-IsCalloc n e = ground (arith, e)

abbrev always : ℕ → Bool
always _ = true

abbrev nothing : ℕ → Option ℕ
nothing _ = none

abbrev one_key : ℕ → Option ℕ
one_key = update methods_uint32 nothing 1 (some 10)

abbrev two_keys : ℕ → Option ℕ
two_keys = update methods_uint32 one_key 8 (some 80)

-- seven elements; the keys 1 and 8 have the same first index
abbrev seven : List (Option (ℕ × ℕ))
seven = none ∷ some (1, 10) ∷ some (8, 80) ∷ none ∷ none ∷ none ∷ none ∷ []

abbrev table : HashTable ℕ ℕ
table = record {
  ht_table = some seven;
  ht_capacity = 7;
  ht_size = 2;
  ht_growth_trigger = 3;
  ht_density_numer = 1;
  ht_density_denom = 2;
  ht_growth_numer = 2;
  ht_growth_denom = 1;
  ht_type_methods = none;
}

one-Stores :
    Stores methods_uint32 (none ∷ some (1, 10) ∷ none ∷ none ∷ none ∷ none ∷ none ∷ []) 7 one_key
one-Stores =
    written-Stores methods_uint32 methods_uint32-IsKey (replicate 7 none) 7 nothing
      (Stores-empty methods_uint32 7) 1 10 1 (omega arith)
      (record {
        steps = 0;
        steps_lt = omega arith;
        arrives = refl;
        filled = λ m lt. absurd (omega arith);
      })
      (λ e h. absurd (none-ne-some h))
      (λ q e h same. absurd (some-ne-none (sym ((Stores-empty methods_uint32 7).sound q e h))))

second_filled :
    (m : ℕ)
    → m < 1
    → (e : ℕ × ℕ) × (entry
          (none ∷ some (1, 10) ∷ none ∷ none ∷ none ∷ none ∷ none ∷ [])
          (around 7 1 m)
        ≡ some e)
second_filled zero lt = ((1, 10), refl)
second_filled (suc m) lt = absurd (omega arith)

seven-Stores : Stores methods_uint32 seven 7 two_keys
seven-Stores =
    written-Stores methods_uint32 methods_uint32-IsKey
      (none ∷ some (1, 10) ∷ none ∷ none ∷ none ∷ none ∷ none ∷ []) 7 one_key one-Stores 8 80 2
      (omega arith)
      (record { steps = 1; steps_lt = omega arith; arrives = refl; filled = second_filled })
      (λ e h. absurd (none-ne-some h))
      (λ q e h same. absurd (some-ne-none (sym (one-Stores.sound q e h) ∙ ap one_key same)))

table-IsTable : IsTable methods_uint32 table two_keys
table-IsTable = record {
  xs = seven;
  table = refl;
  stores = seven-Stores;
  counted = refl;
  positive = omega arith;
  small = omega arith;
  trigger = refl;
  density_numer = refl;
  density_denom = refl;
  growth_numer = refl;
  growth_denom = refl;
}

fits_table : other_kind methods_uint32 table ≡ false
unfolding other_kind same_kind
fits_table = refl

table-Ready : Ready methods_uint32 table two_keys
table-Ready = record { valid = table-IsTable; room = omega arith; fits = fits_table }

-- the key 8 moves to its first index when the key 1 is removed
removed_run :
    remove_value methods_uint32 true table 1
    ≡ done (
      success,
      record table {
        ht_table = some (none ∷ some (8, 80) ∷ none ∷ none ∷ none ∷ none ∷ none ∷ []);
        ht_size = 1;
        ht_type_methods = some uint32;
      },
    )
unfolding remove_value search_key find_key home remove_elt_at close_gap find_place move_element
    other_kind same_kind
removed_run = refl

-- the third element makes the table grow
set_value-SetsValue_example : Returns (set_value methods_uint32 true memory always table 15 150) (
    SetsValue methods_uint32 methods_uint32-IsKey memory
      (for_kind methods_uint32 table)
      two_keys
      15
      150)
set_value-SetsValue_example =
    set_value-SetsValue methods_uint32 methods_uint32-IsKey true memory always table two_keys 15 150
      memory-IsCalloc refl table-IsTable (omega arith) fits_table

remove_value-IsTable_example : Returns (remove_value methods_uint32 true table 1) (λ r.
    IsTable methods_uint32 r.1 (update methods_uint32 two_keys 1 none)
    × (r.0 ≡ success)
    × (r.1.ht_size + 1 ≡ 2 + 0)
    × (r.1.ht_growth_trigger ≡ 3)
    × (r.1.ht_type_methods ≡ some uint32))
remove_value-IsTable_example =
    remove_value-IsTable methods_uint32 methods_uint32-IsKey true table two_keys 1 table-IsTable
      (omega arith) fits_table

memory-Serves : Serves memory 5
memory-Serves n h = ground arith

calls-spec_calls_example :
    Returns
      (calls methods_uint32 true memory always table
        (set_call 15 150 ∷ remove_call 1 ∷ get_call 1 ∷ []))
      (λ r.
        (r.0
          ≡ (spec_calls methods_uint32 two_keys
              (set_call 15 150 ∷ remove_call 1 ∷ get_call 1 ∷ [])).0)
        × Ready methods_uint32 r.1
            (spec_calls methods_uint32 two_keys
              (set_call 15 150 ∷ remove_call 1 ∷ get_call 1 ∷ [])).1)
calls-spec_calls_example =
    calls-spec_calls methods_uint32 methods_uint32-IsKey true memory always memory-IsCalloc
      (λ k. refl) (set_call 15 150 ∷ remove_call 1 ∷ get_call 1 ∷ []) table two_keys 5 table-Ready
      (omega arith) memory-Serves

-- two elements, both valid
abbrev full : HashTable ℕ ℕ
full = record table {
  ht_table = some (some (0, 7) ∷ some (1, 8) ∷ []);
  ht_capacity = 2;
  ht_growth_trigger = 1;
}

abbrev zero_key : ℕ → Option ℕ
zero_key = update methods_uint32 nothing 0 (some 7)

zero-Stores : Stores methods_uint32 (some (0, 7) ∷ none ∷ []) 2 zero_key
zero-Stores =
    written-Stores methods_uint32 methods_uint32-IsKey (replicate 2 none) 2 nothing
      (Stores-empty methods_uint32 2) 0 7 0 (omega arith)
      (record {
        steps = 0;
        steps_lt = omega arith;
        arrives = refl;
        filled = λ m lt. absurd (omega arith);
      })
      (λ e h. absurd (none-ne-some h))
      (λ q e h same. absurd (some-ne-none (sym ((Stores-empty methods_uint32 2).sound q e h))))

full-IsTable : IsTable methods_uint32 full (update methods_uint32 zero_key 1 (some 8))
full-IsTable = record {
  xs = some (0, 7) ∷ some (1, 8) ∷ [];
  table = refl;
  stores =
      written-Stores methods_uint32 methods_uint32-IsKey (some (0, 7) ∷ none ∷ []) 2 zero_key
        zero-Stores 1 8 1 (omega arith)
        (record {
          steps = 0;
          steps_lt = omega arith;
          arrives = refl;
          filled = λ m lt. absurd (omega arith);
        })
        (λ e h. absurd (none-ne-some h))
        (λ q e h same. absurd (some-ne-none (sym (zero-Stores.sound q e h) ∙ ap zero_key same)));
  counted = refl;
  positive = omega arith;
  small = omega arith;
  trigger = refl;
  density_numer = refl;
  density_denom = refl;
  growth_numer = refl;
  growth_denom = refl;
}

fits_full : other_kind methods_uint32 full ≡ false
unfolding other_kind same_kind
fits_full = refl

get_value-full_example : get_value methods_uint32 true full 5 ≡ fault endless
get_value-full_example =
    get_value-full methods_uint32 methods_uint32-IsKey true full
      (update methods_uint32 zero_key 1 (some 8)) 5 full-IsTable refl fits_full refl

-- the last free element is filled although the growth is refused
filled_up :
    set_value methods_uint32 true
      (λ _. false)
      always
      (record full { ht_table = some (some (0, 7) ∷ none ∷ []); ht_size = 1 })
      1
      8
    ≡ done (out_of_resource, record full { ht_type_methods = some uint32 })
unfolding set_value search_key find_key home add_element grow scaled round_capacity_up other_kind
    same_kind
filled_up = refl

-- the bytes "ab"
hash_run : hash_key_ptr (97 ∷ 98 ∷ []) ≡ 3105
unfolding hash_key_ptr hash_bytes
hash_run = refl
