-- ===== src/HashTable/Methods.antt =====
-- `ocoms_hash_table_get_value_*` and `_set_value_*` on valid tables.
use libocoms.Prelude.{
  ℕ, zero, suc, ◌+◌, ◌%◌, ◌<◌, ◌==◌, leb, ◌≡◌, refl, sym, ap, ◌∙◌, ◌⊎◌, inl, inr, Bool, true, false,
  ◌&&◌, ◌||◌, Bool-cases, some-ne-none, Option, none, some, length, set, done, store, store-in,
  Returns, arith,
}
use libocoms.Prelude.Slots.{free, entry, count_free-set}
use libocoms.HashTable.{
  KeyMethods, HashTable, home, search_key, find_key, other_kind, for_kind, get_value, add_element,
  replace_value, set_value,
}
use libocoms.HashTable.Growth.{entry-of_free}
use libocoms.HashTable.Probe.{entry-some-lt}
use libocoms.HashTable.Valid.{IsCalloc, IsTable, grown, Roomy, Grows, grew, refused, grow-Grows}
use libocoms.HashTable.View.{IsKey, update, Reached, Finds, finds_it, finds_room, search-Finds}
use libocoms.HashTable.Write.{written-Stores}
use libocoms.Status.{Status, success, out_of_resource, not_found}

pub home-some : (c h : ℕ) → 0 < c → home c h ≡ done (h % c)
unfolding home
home-some zero h lt = absurd (omega arith)
home-some (suc c) h lt = refl

-- `OCOMS_SUCCESS` where there is a value
abbrev pub found_status {ℓ} : {V : Type ℓ} → Option V → Status
found_status none = not_found
found_status (some v) = success

module _ {ℓ} {K V : Type ℓ} (methods : KeyMethods K) (law : IsKey methods) where
  open methods use {hash_elt, copy_served}

  -- Which type of keys the table is for does not change what it stores.
  unfoldable pub IsTable-for_kind :
      (ht : HashTable K V) (f : K → Option V)
      → IsTable methods ht f
      → IsTable methods (for_kind methods ht) f
  IsTable-for_kind ht f valid = record {
    xs = valid.xs;
    table = valid.table;
    stores = valid.stores;
    counted = valid.counted;
    positive = valid.positive;
    small = valid.small;
    trigger = valid.trigger;
    density_numer = valid.density_numer;
    density_denom = valid.density_denom;
    growth_numer = valid.growth_numer;
    growth_denom = valid.growth_denom;
  }

  -- On a table that is not full a search finds its key or room for it.
  pub search_key-Finds :
      (ht : HashTable K V) (f : K → Option V) (k : K)
      → (valid : IsTable methods ht f) → ht.ht_size < ht.ht_capacity
      → (search_key methods ht k
          ≡ find_key methods valid.xs k ht.ht_capacity ht.ht_capacity (hash_elt k % ht.ht_capacity))
        × Finds methods valid.xs ht.ht_capacity f k
  unfolding search_key
  search_key-Finds ht f k valid room =
      let (q, q_lt, q_free) = entry-of_free valid.xs (omega arith) in
      (
        rw (home-some ht.ht_capacity (hash_elt k) (omega arith), valid.table) refl,
        search-Finds methods law valid.xs ht.ht_capacity f valid.stores k q
            (omega (arith, valid.stores.long)) q_free,
      )

  pub unguarded :
      (debug : Bool) (ht : HashTable K V) (f : K → Option V)
      → IsTable methods ht f
      → other_kind methods ht ≡ false
      → debug && (ht.ht_capacity == 0 || other_kind methods ht) ≡ false
  unguarded debug ht f valid fits = ground (arith, fits)

  -- `ocoms_hash_table_get_value_*` on a valid table that is not full, for keys of its type: the search
  -- ends, and the value and the status are those of the map.
  pub get_value-IsTable :
      (debug : Bool) (ht : HashTable K V) (f : K → Option V) (k : K)
      → IsTable methods ht f
      → ht.ht_size < ht.ht_capacity
      → other_kind methods ht ≡ false
      → get_value methods debug ht k ≡ done (found_status (f k), f k, for_kind methods ht)
  unfolding get_value
  get_value-IsTable debug ht f k valid room fits =
      let (searched, finds) = search_key-Finds ht f k valid room in looked searched finds
    where
      looked :
          search_key methods ht k
            ≡ find_key methods valid.xs k ht.ht_capacity ht.ht_capacity
                (hash_elt k % ht.ht_capacity)
          → Finds methods valid.xs ht.ht_capacity f k
          → get_value methods debug ht k ≡ done (found_status (f k), f k, for_kind methods ht)
      looked searched (finds_it p v there at ran) =
          rw (unguarded debug ht f valid fits, searched, ran, there) refl
      looked searched (finds_room p p_lt absent empty reached ran) =
          rw (unguarded debug ht f valid fits, searched, ran, absent) refl

  -- What storing a value does: the map has it, and either there is room for more, or the growth that
  -- was due was refused, with the value stored nevertheless.
  abbrev pub SetsValue :
      (ℕ → Bool) → HashTable K V → (f : K → Option V) → K → V → Status × HashTable K V → Type ℓ
  SetsValue calloc ht f k v r =
      IsTable methods r.1 (update methods f k (some v))
      × (r.1.ht_size ≡ ht.ht_size + free (f k))
      × (r.1.ht_type_methods ≡ ht.ht_type_methods)
      × (((r.0 ≡ success) × Roomy methods r.1)
          ⊎ ((r.0 ≡ out_of_resource)
              × (r.1.ht_size ≡ r.1.ht_growth_trigger)
              × (calloc (grown r.1.ht_capacity) ≡ false)))

  replace_value-SetsValue :
      (calloc : ℕ → Bool) (ht : HashTable K V) (f : K → Option V) (k : K) (v w : V) (p : ℕ)
      → (valid : IsTable methods ht f) → Roomy methods ht
      → f k ≡ some w
      → entry valid.xs p ≡ some (k, w)
      → Returns (replace_value methods ht p k v) (SetsValue calloc ht f k v)
  unfolding replace_value
  replace_value-SetsValue calloc ht f k v w p valid room there at =
      let p_lt = entry-some-lt valid.xs p at in
      let taken : free (entry valid.xs p) ≡ 0 = ap free at in
      let kept : free (f k) ≡ 0 = ap free there in
      let counted = count_free-set valid.xs p (some (k, v)) p_lt in
      let stores =
        written-Stores methods law valid.xs ht.ht_capacity f valid.stores k v p p_lt
          (valid.stores.placed p (k, w) at) (λ e h. same_entry at h)
          (λ q e h same. valid.stores.once q p e (k, w) h at same) in
      (
        (success, record ht { ht_table = some (set valid.xs p (some (k, v))) }),
        rw (valid.table, store-in valid.xs p (some (k, v)) p_lt) refl,
        (
          record {
            xs = set valid.xs p (some (k, v));
            table = refl;
            stores = stores;
            counted = omega arith;
            positive = valid.positive;
            small = valid.small;
            trigger = valid.trigger;
            density_numer = valid.density_numer;
            density_denom = valid.density_denom;
            growth_numer = valid.growth_numer;
            growth_denom = valid.growth_denom;
          },
          omega (arith, kept),
          refl,
          inl (refl, room),
        ),
      )
    where
      same_entry :
          {e : K × V} → entry valid.xs p ≡ some (k, w) → entry valid.xs p ≡ some e → e.0 ≡ k
      same_entry a b = cc

  add_element-SetsValue :
      (calloc malloc : ℕ → Bool) (ht : HashTable K V) (f : K → Option V) (k : K) (v : V) (p : ℕ)
      → IsCalloc calloc
      → copy_served malloc k ≡ true
      → (valid : IsTable methods ht f) → Roomy methods ht
      → p < ht.ht_capacity
      → f k ≡ none
      → entry valid.xs p ≡ none
      → Reached methods valid.xs ht.ht_capacity k p
      → Returns (add_element methods calloc malloc ht p k v) (SetsValue calloc ht f k v)
  unfolding add_element
  add_element-SetsValue calloc malloc ht f k v p memory copied valid room p_lt absent empty
        reached =
      elim (Bool-cases (leb ht.ht_growth_trigger (ht.ht_size + 1))) [
        | inr below ↦ (
          (success, stored),
          rw (copied, valid.table, wrote, below) refl,
          (stored-IsTable, one_more, refl, inl (refl, ground (arith, below))),
        )
        | inl full ↦
            let (r, ran, grows) =
              grow-Grows methods calloc stored (update methods f k (some v)) law memory
                stored-IsTable in
            (r, rw (copied, valid.table, wrote, full) ran, grown-well r full grows)
      ]
    where
      p_in : p < length valid.xs
      p_in = omega (arith, valid.stores.long)

      wrote : store valid.xs p (some (k, v)) ≡ done (set valid.xs p (some (k, v)))
      wrote = store-in valid.xs p (some (k, v)) p_in

      stored : HashTable K V
      stored = record ht {
        ht_table = some (set valid.xs p (some (k, v)));
        ht_size = ht.ht_size + 1;
      }

      taken : free (entry valid.xs p) ≡ 1
      taken = ap free empty

      one_more : ht.ht_size + 1 ≡ ht.ht_size + free (f k)
      one_more = ap (λ n. ht.ht_size + n) (sym (ap free absent))

      stored-IsTable : IsTable methods stored (update methods f k (some v))
      stored-IsTable = record {
        xs = set valid.xs p (some (k, v));
        table = refl;
        stores =
            written-Stores methods law valid.xs ht.ht_capacity f valid.stores k v p p_in reached
              (λ e h. absurd (some-ne-none (sym h ∙ empty)))
              (λ q e h same.
                absurd (some-ne-none (sym (valid.stores.sound q e h) ∙ ap f same ∙ absent)));
        counted = omega (arith, count_free-set valid.xs p (some (k, v)) p_in, taken);
        positive = valid.positive;
        small = valid.small;
        trigger = valid.trigger;
        density_numer = valid.density_numer;
        density_denom = valid.density_denom;
        growth_numer = valid.growth_numer;
        growth_denom = valid.growth_denom;
      }

      grown-well :
          (r : Status × HashTable K V)
          → leb ht.ht_growth_trigger (ht.ht_size + 1) ≡ true
          → Grows methods calloc stored (update methods f k (some v)) r
          → SetsValue calloc ht f k v r
      grown-well _ full (grew ht' valid' size type larger) =
          (valid', size ∙ one_more, type, inl (refl, omega (arith, valid'.trigger, valid.trigger)))
      grown-well _ full (refused no_memory) =
          (stored-IsTable, one_more, refl, inr (refl, ground (arith, full), no_memory))

  -- `ocoms_hash_table_set_value_*` of a key of the table's type on a valid table below its growth
  -- trigger, when a copy of the key is served: the search ends and the value is stored. Either the
  -- table, grown or not, is below its trigger again, or growth was due and refused for lack of memory,
  -- which the status says although the value is stored.
  pub set_value-SetsValue :
      (debug : Bool) (calloc malloc : ℕ → Bool) (ht : HashTable K V) (f : K → Option V) (k : K)
      (v : V)
      → IsCalloc calloc
      → copy_served malloc k ≡ true
      → IsTable methods ht f
      → Roomy methods ht
      → other_kind methods ht ≡ false
      → Returns
          (set_value methods debug calloc malloc ht k v)
          (SetsValue calloc (for_kind methods ht) f k v)
  unfolding set_value IsTable-for_kind
  set_value-SetsValue debug calloc malloc ht f k v memory copied valid room fits =
      let (searched, finds) = search_key-Finds ht f k valid (omega (arith, valid.trigger)) in
      stored searched finds
    where
      initialised : debug && ht.ht_capacity == 0 ≡ false
      initialised = ground arith

      right_kind : debug && other_kind methods ht ≡ false
      right_kind = ground (arith, fits)

      stored :
          search_key methods ht k
            ≡ find_key methods valid.xs k ht.ht_capacity ht.ht_capacity
                (hash_elt k % ht.ht_capacity)
          → Finds methods valid.xs ht.ht_capacity f k
          → Returns
              (set_value methods debug calloc malloc ht k v)
              (SetsValue calloc (for_kind methods ht) f k v)
      stored searched (finds_it p w there at ran) =
          let (r, replaced, post) =
            replace_value-SetsValue calloc (for_kind methods ht) f k v w p
              (IsTable-for_kind ht f valid) room there at in
          (r, rw (initialised, right_kind, searched, ran) replaced, post)
      stored searched (finds_room p p_lt absent empty reached ran) =
          let (r, added, post) =
            add_element-SetsValue calloc malloc (for_kind methods ht) f k v p memory copied
              (IsTable-for_kind ht f valid) room p_lt absent empty reached in
          (r, rw (initialised, right_kind, searched, ran) added, post)
