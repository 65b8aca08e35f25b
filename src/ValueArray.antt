-- ===== src/ValueArray.antt =====
-- Arrays of values, ocoms/util/ocoms_value_array.{c,h}. An item is one value, so a block is the list of
-- the items that fit; sizes are `size_t` and wrap at 2 ^ 64. `debug` is OCOMS_ENABLE_DEBUG.
pub mod Growth
pub mod Tests
use libocoms.Prelude.{
  ℕ, zero, suc, ◌+◌, ◌-◌, ◌*◌, ◌/◌, ◌%◌, ◌^◌, ◌==◌, ltb, leb, if◌then◌else◌, Bool, true, false,
  ◌&&◌, Option, none, some, List, [], ◌∷◌, ◌++◌, length, take, drop, replicate, Exec, done, fault,
  endless, null_pointer, out_of_range, ◌>>=◌, store,
}
use libocoms.Status.{Status, success, out_of_resource, bad_param}

pub record ValueArray {ℓ} (V : Type ℓ) : Type ℓ where
  pub array_items : Option (List V)
  pub array_item_sizeof : ℕ
  pub array_size : ℕ
  pub array_alloc_size : ℕ

-- What the allocator does: whether it serves so many bytes, and what a fresh item holds.
pub record Heap {ℓ} (V : Type ℓ) : Type ℓ where
  pub serves : ℕ → Bool
  pub junk : V

-- the number of values of a `size_t`
abbrev pub size_limit : ℕ
size_limit = 2 ^ 64

-- while (array_alloc_size < size) array_alloc_size <<= 1, on fuel
unfoldable pub double_until : (fuel alloc size : ℕ) → Exec ℕ
double_until zero alloc size = if ltb alloc size then fault endless else done alloc
double_until (suc fuel) alloc size =
    let rest = double_until fuel (alloc * 2 % size_limit) size in
    if ltb alloc size then rest else done alloc

module _ {ℓ} {V : Type ℓ} where
  abbrev pub construct : ValueArray V
  construct = record {
    array_items = none;
    array_item_sizeof = 0;
    array_size = 0;
    array_alloc_size = 0;
  }

  -- `realloc` to a number of bytes, and the items that fit
  unfoldable pub realloc : Heap V → Option (List V) → (bytes sizeof : ℕ) → Option (List V)
  realloc heap old bytes sizeof =
      let n = bytes / sizeof in
      let xs : List V = elim old [ none ↦ [] | some ys ↦ ys ] in
      if heap.serves bytes then some (take n xs ++ replicate (n - length xs) heap.junk) else none

  unfoldable pub init : Heap V → ValueArray V → ℕ → Status × ValueArray V
  init heap a item_sizeof =
      let items = realloc heap a.array_items (item_sizeof * 1 % size_limit) item_sizeof in
      (
        elim items [ none ↦ out_of_resource | some _ ↦ success ],
        record {
          array_items = items;
          array_item_sizeof = item_sizeof;
          array_size = 0;
          array_alloc_size = 1;
        },
      )

  unfoldable pub reserve : Heap V → ValueArray V → ℕ → Status × ValueArray V
  reserve heap a size =
      if ltb a.array_alloc_size size
      then (elim (realloc heap a.array_items (a.array_item_sizeof * size % size_limit)
          a.array_item_sizeof) [
            | none ↦ (
              out_of_resource,
              record a { array_items = none; array_size = 0; array_alloc_size = 0 },
            )
            | some xs ↦ (success, record a { array_items = some xs; array_alloc_size = size })
          ])
      else (success, a)

  -- the reallocation in `ocoms_value_array_set_size`, to `alloc` items
  unfoldable pub enlarge : Heap V → ValueArray V → (alloc size : ℕ) → Status × ValueArray V
  enlarge heap a alloc size =
      elim (realloc heap a.array_items (alloc * a.array_item_sizeof % size_limit)
        a.array_item_sizeof) [
          | none ↦ (out_of_resource, record a { array_items = none; array_alloc_size = alloc })
          | some xs ↦ (
            success,
            record a { array_items = some xs; array_alloc_size = alloc; array_size = size },
          )
        ]

  unfoldable pub set_size : Bool → Heap V → ValueArray V → ℕ → Exec (Status × ValueArray V)
  set_size debug heap a size =
      let enlarged : Exec (Status × ValueArray V) =
        double_until 64 a.array_alloc_size size >>= λ alloc. done (enlarge heap a alloc size) in
      if debug && (a.array_item_sizeof == 0)
      then done (bad_param, a)
      else if ltb a.array_alloc_size size
      then enlarged
      else done (success, record a { array_size = size })

  -- `memcpy` of one item
  unfoldable pub write_item : ValueArray V → ℕ → V → Exec (Status × ValueArray V)
  write_item a index v = elim a.array_items [
    | none ↦ fault null_pointer
    | some xs ↦ store xs index v >>= λ ys. done (success, record a { array_items = some ys })
  ]

  unfoldable pub set_item : Bool → Heap V → ValueArray V → ℕ → V → Exec (Status × ValueArray V)
  set_item debug heap a index v =
      let resized : Exec (Status × ValueArray V) =
        set_size debug heap a ((index + 1) % size_limit) >>= λ r. elim r.0 [
          | success ↦ write_item r.1 index v
          | _ ↦ done r
        ] in
      if leb a.array_size index then resized else write_item a index v

  unfoldable pub append_item : Bool → Heap V → ValueArray V → V → Exec (Status × ValueArray V)
  append_item debug heap a v = set_item debug heap a a.array_size v

  -- the index of the item that is pointed to, `none` for NULL
  unfoldable pub get_item : Bool → Heap V → ValueArray V → ℕ → Exec (Option ℕ × ValueArray V)
  get_item debug heap a index =
      let resized : Exec (Option ℕ × ValueArray V) =
        set_size debug heap a ((index + 1) % size_limit) >>= λ r.
        done (elim r.0 [ success ↦ (some index, r.1) | _ ↦ (none, r.1) ]) in
      if leb a.array_size index then resized else done (some index, a)

  -- Past the last item the length that `memmove` is given wraps round.
  unfoldable pub remove_item : Bool → ValueArray V → ℕ → Exec (Status × ValueArray V)
  remove_item debug a index =
      if debug && leb a.array_size index then done (bad_param, a) else (elim a.array_items [
        | none ↦ fault null_pointer
        | some xs ↦
            let moved = take (a.array_size - index - 1) (drop (index + 1) xs) in
            if ltb index a.array_size && leb a.array_size (length xs)
            then done (
              success,
              record a {
                array_items = some (take index xs ++ (moved ++ drop (a.array_size - 1) xs));
                array_size = a.array_size - 1;
              },
            )
            else fault out_of_range
      ])
