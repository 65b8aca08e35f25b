-- ===== src/HashTable/Valid.antt =====
-- Valid hash tables of the default density and growth, and `ocoms_hash_grow` on them.
use libocoms.Prelude.{
  ℕ, ◌+◌, ◌*◌, ◌/◌, ◌%◌, ◌^◌, ◌≤◌, ◌<◌, ◌≡◌, refl, ap, ap₂, ◌∙◌, inl, inr, Bool, true, false,
  Bool-cases, Option, some, List, done, Returns, arith,
}
use libocoms.Prelude.Slots.{count_free}
use libocoms.HashTable.{KeyMethods, HashTable, round_capacity_up, scaled, size_limit, grow}
use libocoms.HashTable.Growth.{reinsert-same}
use libocoms.HashTable.View.{IsKey, Stores}
use libocoms.Status.{Status, success, out_of_resource}

-- `calloc` serves no request that does not fit in memory.
abbrev pub IsCalloc : (ℕ → Bool) → Type 0
IsCalloc calloc = (n : ℕ) → calloc n ≡ true → n < 2 ^ 59

-- the capacity after a growth
abbrev pub grown : ℕ → ℕ
grown capacity = (capacity * 2 + 29) / 30 * 30 + 1

pub grown-round :
    (capacity : ℕ) → capacity < 2 ^ 59 → round_capacity_up (capacity * 2) ≡ grown capacity
unfolding round_capacity_up
grown-round capacity h = omega arith

pub doubled :
    (capacity numer denom : ℕ)
    → numer ≡ 2
    → denom ≡ 1
    → capacity < 2 ^ 59
    → scaled capacity numer denom ≡ done (capacity * 2)
unfolding scaled
doubled capacity numer denom two one h =
    let plain : capacity * 2 % size_limit / 1 ≡ capacity * 2 = omega arith in
    ap₂ (scaled capacity) two one ∙ ap done plain

pub halved :
    (capacity numer denom : ℕ)
    → numer ≡ 1
    → denom ≡ 2
    → capacity < 2 ^ 59
    → scaled capacity numer denom ≡ done (capacity / 2)
unfolding scaled
halved capacity numer denom one two h =
    let plain : capacity * 1 % size_limit / 2 ≡ capacity / 2 = omega arith in
    ap₂ (scaled capacity) one two ∙ ap done plain

module _ {ℓ} {K V : Type ℓ} (methods : KeyMethods K) where
  -- A table that stores the map `f`, with the default density 1/2 and growth 2/1.
  pub record IsTable (ht : HashTable K V) (f : K → Option V) : Type ℓ where
    pub xs : List (Option (K × V))
    pub table : ht.ht_table ≡ some xs
    pub stores : Stores methods xs ht.ht_capacity f
    pub counted : count_free xs + ht.ht_size ≡ ht.ht_capacity
    pub positive : 1 < ht.ht_capacity
    pub small : ht.ht_capacity < 2 ^ 59
    pub trigger : ht.ht_growth_trigger ≡ ht.ht_capacity / 2
    pub density_numer : ht.ht_density_numer ≡ 1
    pub density_denom : ht.ht_density_denom ≡ 2
    pub growth_numer : ht.ht_growth_numer ≡ 2
    pub growth_denom : ht.ht_growth_denom ≡ 1

  -- Fewer elements than start a growth.
  abbrev pub Roomy : HashTable K V → Type 0
  Roomy ht = ht.ht_size < ht.ht_growth_trigger

  -- What a growth does: it succeeds with twice the room at least, or it changes nothing.
  pub data Grows (calloc : ℕ → Bool) (ht : HashTable K V) (f : K → Option V)
      : Status × HashTable K V → Type ℓ where
    grew :
        (ht' : HashTable K V)
        → IsTable ht' f
        → ht'.ht_size ≡ ht.ht_size
        → ht'.ht_type_methods ≡ ht.ht_type_methods
        → ht.ht_capacity * 2 ≤ ht'.ht_capacity
        → Grows calloc ht f (success, ht')
    refused : calloc (grown ht.ht_capacity) ≡ false → Grows calloc ht f (out_of_resource, ht)

  -- `ocoms_hash_grow` on a valid table: the search for room for each element ends, and either the
  -- table has twice the room at least and stores the same map in as many elements, or there was no
  -- memory for the new array and nothing has changed.
  pub grow-Grows :
      (calloc : ℕ → Bool) (ht : HashTable K V) (f : K → Option V)
      → IsKey methods
      → IsCalloc calloc
      → IsTable ht f
      → Returns (grow methods calloc ht) (Grows calloc ht f)
  unfolding grow
  grow-Grows calloc ht f law memory valid = elim (Bool-cases (calloc (grown ht.ht_capacity))) [
    | inr no_memory ↦ ((out_of_resource, ht), rw (first, round, no_memory) refl, refused no_memory)
    | inl served ↦
        let n : ℕ = grown ht.ht_capacity in
        let larger : ht.ht_capacity * 2 ≤ n = omega arith in
        let in_memory : n < 2 ^ 59 = memory n served in
        let (new, ran, (stores, counted)) =
          reinsert-same methods law valid.xs ht.ht_capacity n f valid.stores
            (omega (arith, valid.stores.long)) in
        let ht' : HashTable K V = record ht {
          ht_table = some new;
          ht_capacity = n;
          ht_growth_trigger = n / 2;
        } in
        (
          (success, ht'),
          rw (first, round, served, valid.table, ran, trigger_of n in_memory) refl,
          grew ht'
              (record {
                xs = new;
                table = refl;
                stores = stores;
                counted = omega (arith, valid.stores.long);
                positive = omega arith;
                small = in_memory;
                trigger = refl;
                density_numer = valid.density_numer;
                density_denom = valid.density_denom;
                growth_numer = valid.growth_numer;
                growth_denom = valid.growth_denom;
              })
              refl refl larger,
        )
  ]
    where
      first :
          scaled ht.ht_capacity ht.ht_growth_numer ht.ht_growth_denom ≡ done (ht.ht_capacity * 2)
      first =
          doubled ht.ht_capacity ht.ht_growth_numer ht.ht_growth_denom valid.growth_numer
            valid.growth_denom valid.small

      round : round_capacity_up (ht.ht_capacity * 2) ≡ grown ht.ht_capacity
      round = grown-round ht.ht_capacity valid.small

      trigger_of :
          (n : ℕ) → n < 2 ^ 59 → scaled n ht.ht_density_numer ht.ht_density_denom ≡ done (n / 2)
      trigger_of n h =
          halved n ht.ht_density_numer ht.ht_density_denom valid.density_numer valid.density_denom h
