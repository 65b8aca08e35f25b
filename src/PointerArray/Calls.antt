-- ===== src/PointerArray/Calls.antt =====
-- The operations of ocoms/util/ocoms_pointer_array.{c,h} on a table.
use libocoms.Prelude.{
  ℕ, zero, suc, ◌+◌, ◌-◌, ◌*◌, ◌/◌, ◌==◌, ltb, leb, if◌then◌else◌, Bool, true, false, not, ◌&&◌,
  ◌||◌, Option, none, some, List, Exec, done, fault, ◌>>=◌, ◌>>◌, assert, int, load, store,
}
use libocoms.Prelude.Int.{ℤ, pos, ◌+ℤ◌, ◌-ℤ◌, ltb_ℤ}
use libocoms.PointerArray.{
  PointerArray, Added, at, failed, handle_max, table_init, table_grow, is_zero, is_null, slots,
  find_null, grow_table,
}
use libocoms.Status.{Status, success, error, out_of_resource}

module _ {ℓ} {V : Type ℓ} where
  -- the growth at the start of `ocoms_pointer_array_add`; false where that function gives up
  unfoldable pub make_room : (ℕ → Bool) → PointerArray V → Exec (Bool × PointerArray V)
  unfolding grow_table
  make_room mem t =
      let soft : Exec ℕ = if is_null t.addr then done table_init else int (t.size * table_grow) in
      if is_zero t.number_free
      then soft >>= (λ n. done (grow_table mem t n handle_max))
      else done (true, t)

  -- the new `lowest_free` after a slot was taken
  unfoldable pub next_free : PointerArray V → List (Option V) → ℤ → Exec ℕ
  unfolding find_null
  next_free t xs free =
      if ltb_ℤ (pos 0) free
      then find_null xs (t.size - (t.lowest_free + 1)) (t.lowest_free + 1)
        >>= (λ found. done (elim found [ none ↦ t.lowest_free | some i ↦ i ]))
      else done t.size

  -- the rest of `ocoms_pointer_array_add`, from its assertions on
  unfoldable pub take_slot : PointerArray V → Option V → Exec (ℕ × PointerArray V)
  unfolding next_free
  take_slot t v = do
    assert (not (is_null t.addr) && ltb 0 t.size)
    assert (ltb t.lowest_free t.size)
    assert (ltb_ℤ (pos 0) t.number_free && not (ltb_ℤ (pos t.size) t.number_free))
    xs ← slots t
    old ← load xs t.lowest_free
    assert (is_null old)
    xs' ← store xs t.lowest_free v
    let free = t.number_free -ℤ pos 1
    lowest ← next_free t xs' free
    done (t.lowest_free, record t { addr = some xs'; number_free = free; lowest_free = lowest })

  unfoldable pub add : (ℕ → Bool) → PointerArray V → Option V → Exec (Added × PointerArray V)
  add mem t v = do
    (room, t') ← make_room mem t
    elim room [
      | false ↦ done (failed out_of_resource, t')
      | true ↦ take_slot t' v >>= λ r. done (at r.0, r.1)
    ]

  -- the growth to an index; `((index / TABLE_GROW) + 1) * TABLE_GROW` with the index as hard limit
  unfoldable pub grow_to : (ℕ → Bool) → PointerArray V → ℕ → Exec (Bool × PointerArray V)
  unfolding grow_table
  grow_to mem t index =
      if leb t.size index
      then int ((index / table_grow + 1) * table_grow)
        >>= (λ soft. done (grow_table mem t soft index))
      else done (true, t)

  -- for (i = start; i < size; i++) if (NULL == addr[i]) …, with `size` where nothing is found
  unfoldable pub lowest_from : PointerArray V → List (Option V) → ℕ → Exec ℕ
  unfolding find_null
  lowest_from t xs start = find_null xs (t.size - start) start >>= λ found.
      done (elim found [ none ↦ t.size | some i ↦ i ])

  -- `number_free` and `lowest_free` after the slot `index`, which held `old`, is given `v`
  unfoldable pub account : PointerArray V → List (Option V) → ℕ → (old v : Option V) → Exec (ℤ × ℕ)
  unfolding lowest_from
  account t xs index old none = done (
    if is_null old then t.number_free else t.number_free +ℤ pos 1,
    if ltb index t.lowest_free then index else t.lowest_free,
  )
  account t xs index old (some _) =
      let free = if is_null old then t.number_free -ℤ pos 1 else t.number_free in
      let lowest =
        if index == t.lowest_free then lowest_from t xs (index + 1) else done t.lowest_free in
      lowest >>= λ low. done (free, low)

  unfoldable pub write_slot : PointerArray V → ℕ → Option V → Exec (PointerArray V)
  unfolding account
  write_slot t index v = do
    xs ← slots t
    old ← load xs index
    (free, low) ← account t xs index old v
    xs' ← store xs index v
    done (record t { addr = some xs'; number_free = free; lowest_free = low })

  unfoldable pub set_item :
      (ℕ → Bool) → PointerArray V → ℕ → Option V → Exec (Status × PointerArray V)
  set_item mem t index v = do
    (room, t') ← grow_to mem t index
    elim room [
      | false ↦ done (error, t')
      | true ↦ write_slot t' index v >>= λ t''. done (success, t'')
    ]

  -- `index < table->size && table->addr[index] != NULL`
  unfoldable pub in_use : PointerArray V → ℕ → Exec Bool
  in_use t index =
      if ltb index t.size
      then slots t >>= (λ xs. load xs index >>= λ old. done (not (is_null old)))
      else done false

  unfoldable pub reserve_slot : PointerArray V → ℕ → Option V → Exec (PointerArray V)
  unfolding lowest_from
  reserve_slot t index v = do
    xs ← slots t
    xs' ← store xs index v
    low ← if index == t.lowest_free then lowest_from t xs' index else done t.lowest_free
    done (record t { addr = some xs'; number_free = t.number_free -ℤ pos 1; lowest_free = low })

  unfoldable pub test_and_set_item :
      (ℕ → Bool) → PointerArray V → ℕ → Option V → Exec (Bool × PointerArray V)
  test_and_set_item mem t index v = do
    used ← in_use t index
    (room, t') ← if used then done (false, t) else grow_to mem t index
    elim room [
      | false ↦ done (false, t')
      | true ↦ reserve_slot t' index v >>= λ t''. done (true, t'')
    ]

  unfoldable pub set_size : (ℕ → Bool) → PointerArray V → ℕ → Status × PointerArray V
  unfolding grow_table
  set_size mem t n =
      if ltb t.size n
      then (let (ok, t') = grow_table mem t n n in if ok then (success, t') else (error, t'))
      else (success, t)

  unfoldable pub get_item : PointerArray V → ℕ → Exec (Option V)
  get_item t index = if leb t.size index then done none else slots t >>= λ xs. load xs index

  -- for (i = start; i < start + left; i++) addr[i] = NULL
  unfoldable pub clear_slots : List (Option V) → (left start : ℕ) → Exec (List (Option V))
  clear_slots xs zero i = done xs
  clear_slots xs (suc left) i = elim (store xs i none) [
    | fault e ↦ fault e
    | done xs' ↦ clear_slots xs' left (i + 1)
  ]

  unfoldable pub remove_all : PointerArray V → Exec (PointerArray V)
  unfolding clear_slots
  remove_all t =
      if ltb_ℤ t.number_free (pos t.size) || ltb_ℤ (pos t.size) t.number_free
      then slots t >>= (λ xs. clear_slots xs t.size 0 >>= λ xs'.
          done (record t { addr = some xs'; number_free = pos t.size; lowest_free = 0 }))
      else done t
