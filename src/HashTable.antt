-- ===== src/HashTable.antt =====
-- The hash tables of ocoms/util/ocoms_hash_table.{c,h}: open addressing in one array of elements, each
-- valid (`some` key and value) or not (`none`). The operations for the three types of keys differ in
-- the hash, the comparison and the storage of the key, which `KeyMethods` gives; the calls for one
-- type of keys stand in Keys. An endless search is the fault `endless`: a search that has met every
-- element once goes round for ever. `size_t` wraps at 2 ^ 64; `debug` is OCOMS_ENABLE_DEBUG.
pub mod Keys
pub mod Probe
pub mod Search
pub mod View
pub mod Write
pub mod Growth
pub mod Valid
pub mod Methods
pub mod Gap
pub mod Shift
pub mod Close
pub mod Removal
pub mod Refines
pub mod Laws
pub mod Full
pub mod Clear
pub mod Traversal
mod Tests
use libocoms.Prelude.{
  ℕ, zero, suc, ◌+◌, ◌-◌, ◌*◌, ◌/◌, ◌%◌, ◌^◌, ◌==◌, ltb, leb, if◌then◌else◌, Bool, true, false,
  ◌&&◌, ◌||◌, not, Option, none, some, List, [], ◌∷◌, replicate, Exec, done, fault, endless,
  null_pointer, division_by_zero, ◌>>=◌, load, store,
}
use libocoms.Status.{Status, success, error, out_of_resource, bad_param, not_found}

-- Which methods `ht_type_methods` points to.
pub data KeyKind : Type 0 where
  uint32 uint64 pointer : KeyKind

unfoldable pub same_kind : KeyKind → KeyKind → Bool
same_kind uint32 uint32 = true
same_kind uint64 uint64 = true
same_kind pointer pointer = true
same_kind _ _ = false

pub record KeyMethods {ℓ} (K : Type ℓ) : Type ℓ where
  pub kind : KeyKind
  pub hash_elt : K → ℕ
  pub equal : K → K → Bool
  pub copy_served : (ℕ → Bool) → K → Bool

pub record HashTable {ℓ} (K V : Type ℓ) : Type ℓ where
  pub ht_table : Option (List (Option (K × V)))
  pub ht_capacity : ℕ
  pub ht_size : ℕ
  pub ht_growth_trigger : ℕ
  pub ht_density_numer : ℕ
  pub ht_density_denom : ℕ
  pub ht_growth_numer : ℕ
  pub ht_growth_denom : ℕ
  pub ht_type_methods : Option KeyKind

abbrev pub size_limit : ℕ
size_limit = 2 ^ 64

-- round up to (1 mod 30)
unfoldable pub round_capacity_up : ℕ → ℕ
round_capacity_up capacity = ((capacity + 29) % size_limit / 30 * 30 + 1) % size_limit

-- `a * numer / denom`
unfoldable pub scaled : (a numer denom : ℕ) → Exec ℕ
scaled a numer zero = fault division_by_zero
scaled a numer (suc d) = done (a * numer % size_limit / suc d)

-- if (ii == capacity) { ii = 0; }
abbrev pub wrap : (capacity ii : ℕ) → ℕ
wrap capacity ii = if ii == capacity then 0 else ii

-- More rounds than the scan behind a removed element can take: each move takes an element nearer to its
-- first index, and within `capacity + 1` rounds without a move the scan meets the gap.
abbrev pub gap_rounds : (capacity : ℕ) → ℕ
gap_rounds capacity = capacity * capacity * (capacity + 1) + capacity + 1

-- `hash % capacity`
unfoldable pub home : (capacity hash : ℕ) → Exec ℕ
home zero hash = fault division_by_zero
home (suc c) hash = done (hash % suc c)

-- What a search by key meets first.
pub data Found {ℓ} (K V : Type ℓ) : Type ℓ where
  vacant : ℕ → Found K V
  present : ℕ → K × V → Found K V

module _ {ℓ} {K V : Type ℓ} where
  abbrev pub construct : HashTable K V
  construct = record {
    ht_table = none;
    ht_capacity = 0;
    ht_size = 0;
    ht_growth_trigger = 0;
    ht_density_numer = 0;
    ht_density_denom = 0;
    ht_growth_numer = 0;
    ht_growth_denom = 0;
    ht_type_methods = none;
  }

  -- `calloc` of so many elements is served or not.
  unfoldable pub init2 :
      (ℕ → Bool)
      → HashTable K V
      → (estimated_max_size density_numer density_denom growth_numer growth_denom : ℕ)
      → Exec (Status × HashTable K V)
  init2 calloc ht estimate density_numer density_denom growth_numer growth_denom = do
    est_capacity ← scaled estimate density_denom density_numer
    let capacity = round_capacity_up est_capacity
    if calloc capacity
        then (do
          trigger ← scaled capacity density_numer density_denom
          done (
            success,
            record ht {
              ht_table = some (replicate capacity none);
              ht_capacity = capacity;
              ht_density_numer = density_numer;
              ht_density_denom = density_denom;
              ht_growth_numer = growth_numer;
              ht_growth_denom = growth_denom;
              ht_growth_trigger = trigger;
              ht_type_methods = none;
            },
          ))
        else done (out_of_resource, record ht { ht_table = none })

  unfoldable pub init : (ℕ → Bool) → HashTable K V → ℕ → Exec (Status × HashTable K V)
  init calloc ht table_size = init2 calloc ht table_size 1 2 2 1

  -- for (ii = 0; ii < ht_capacity; ii += 1) elt->valid = 0, with `left` elements to go
  unfoldable pub clear_elements :
      List (Option (K × V)) → (left ii : ℕ) → Exec (List (Option (K × V)))
  clear_elements xs zero ii = done xs
  clear_elements xs (suc left) ii = store xs ii none >>= λ ys. clear_elements ys left (ii + 1)

  abbrev pub elements : HashTable K V → Exec (List (Option (K × V)))
  elements ht = elim ht.ht_table [ none ↦ fault null_pointer | some xs ↦ done xs ]

  unfoldable pub remove_all : HashTable K V → Exec (Status × HashTable K V)
  remove_all ht = elim ht.ht_capacity [
    | zero ↦ done (success, record ht { ht_size = 0; ht_type_methods = none })
    | suc c ↦ elements ht >>= λ xs. clear_elements xs (suc c) 0 >>= λ ys.
        done (success, record ht { ht_table = some ys; ht_size = 0; ht_type_methods = none })
  ]

  -- The search for an element that is not valid, with `left` elements not yet met.
  unfoldable pub find_free : List (Option (K × V)) → (capacity left ii : ℕ) → Exec ℕ
  find_free xs capacity zero ii = fault endless
  find_free xs capacity (suc left) ii =
      let jj = wrap capacity ii in
      load xs jj >>= λ elt. elim elt [
        | none ↦ done jj
        | some _ ↦ find_free xs capacity left (jj + 1)
      ]

  module _ (methods : KeyMethods K) where
    open methods use {kind, hash_elt, equal, copy_served}

    unfoldable pub find_key : List (Option (K × V)) → K → (capacity left ii : ℕ) → Exec (Found K V)
    find_key xs key capacity zero ii = fault endless
    find_key xs key capacity (suc left) ii =
        let jj = wrap capacity ii in
        load xs jj >>= λ elt. elim elt [
          | none ↦ done (vacant jj)
          | some e ↦ elim (equal e.0 key) [
            | true ↦ done (present jj e)
            | false ↦ find_key xs key capacity left (jj + 1)
          ]
        ]

    -- the whole search, from `hash % capacity`
    unfoldable pub search_key : HashTable K V → K → Exec (Found K V)
    search_key ht key = do
      ii ← home ht.ht_capacity (hash_elt key)
      xs ← elements ht
      find_key xs key ht.ht_capacity ht.ht_capacity ii

    -- the loop of `ocoms_hash_grow` over the old elements
    unfoldable pub reinsert :
        (old new : List (Option (K × V))) → (new_capacity : ℕ) → Exec (List (Option (K × V)))
    reinsert [] new new_capacity = done new
    reinsert (none ∷ old) new new_capacity = reinsert old new new_capacity
    reinsert (some e ∷ old) new new_capacity = do
      ii ← home new_capacity (hash_elt e.0)
      jj ← find_free new new_capacity new_capacity ii
      new' ← store new jj (some e)
      reinsert old new' new_capacity

    unfoldable pub grow : (ℕ → Bool) → HashTable K V → Exec (Status × HashTable K V)
    grow calloc ht = do
      scaled_capacity ← scaled ht.ht_capacity ht.ht_growth_numer ht.ht_growth_denom
      let new_capacity = round_capacity_up scaled_capacity
      if calloc new_capacity
          then (do
            old ← elements ht
            new ← reinsert old (replicate new_capacity none) new_capacity
            trigger ← scaled new_capacity ht.ht_density_numer ht.ht_density_denom
            done (
              success,
              record ht {
                ht_table = some new;
                ht_capacity = new_capacity;
                ht_growth_trigger = trigger;
              },
            ))
          else done (out_of_resource, ht)

    -- The search for the place of the element at `ii`: `ii` itself, or an earlier element that is not
    -- valid.
    unfoldable pub find_place : List (Option (K × V)) → (capacity ii left jj : ℕ) → Exec ℕ
    find_place xs capacity ii zero jj = fault endless
    find_place xs capacity ii (suc left) jj =
        let kk = wrap capacity jj in
        elim (kk == ii) [
          | true ↦ done ii
          | false ↦ load xs kk >>= λ elt. elim elt [
            | none ↦ done kk
            | some _ ↦ find_place xs capacity ii left (kk + 1)
          ]
        ]

    -- elts[jj] = elts[ii]; elts[ii].valid = 0, unless they are the same
    unfoldable pub move_element :
        List (Option (K × V)) → (ii jj : ℕ) → K × V → Exec (List (Option (K × V)))
    move_element xs ii jj e =
        if jj == ii then done xs else (store xs jj (some e) >>= λ ys. store ys ii none)

    -- the scan of the elements behind a removed one, with `left` rounds to go
    unfoldable pub close_gap :
        List (Option (K × V)) → (capacity left ii : ℕ) → Exec (List (Option (K × V)))
    close_gap xs capacity zero ii = fault endless
    close_gap xs capacity (suc left) ii =
        let kk = wrap capacity ii in
        load xs kk >>= λ elt. elim elt [
          | none ↦ done xs
          | some e ↦ home capacity (hash_elt e.0) >>= λ start.
              find_place xs capacity kk capacity start >>= λ jj.
              move_element xs kk jj e >>= λ ys. close_gap ys capacity left (kk + 1)
        ]

    unfoldable pub remove_elt_at : HashTable K V → ℕ → Exec (Status × HashTable K V)
    remove_elt_at ht ii = do
      xs ← elements ht
      elt ← load xs ii
      elim elt [
        | none ↦ done (error, ht)
        | some _ ↦ do
          ys ← store xs ii none
          zs ← close_gap ys ht.ht_capacity (gap_rounds ht.ht_capacity) (ii + 1)
          done (success, record ht { ht_table = some zs; ht_size = ht.ht_size - 1 })
      ]

    -- whether the table is for keys of another type
    unfoldable pub other_kind : HashTable K V → Bool
    other_kind ht = elim ht.ht_type_methods [ none ↦ false | some k ↦ not (same_kind kind k) ]

    abbrev pub for_kind : HashTable K V → HashTable K V
    for_kind ht = record ht { ht_type_methods = some kind }

    -- `none` where `*value` is not written
    unfoldable pub get_value :
        (debug : Bool) → HashTable K V → K → Exec (Status × Option V × HashTable K V)
    get_value debug ht key =
        if debug && (ht.ht_capacity == 0 || other_kind ht)
        then done (error, none, ht)
        else (search_key ht key >>= λ found. elim found [
          | vacant _ ↦ done (not_found, none, for_kind ht)
          | present _ e ↦ done (success, some e.1, for_kind ht)
        ])

    -- a new element at `ii`, and the growth after it; the copy of the key is written untested
    unfoldable pub add_element :
        (calloc malloc : ℕ → Bool) → HashTable K V → ℕ → K → V → Exec (Status × HashTable K V)
    add_element calloc malloc ht ii key v =
        if copy_served malloc key
        then (do
          xs ← elements ht
          ys ← store xs ii (some (key, v))
          let ht' = record ht { ht_table = some ys; ht_size = ht.ht_size + 1 }
          if leb ht.ht_growth_trigger (ht.ht_size + 1)
              then grow calloc ht'
              else done (success, ht'))
        else fault null_pointer

    unfoldable pub replace_value : HashTable K V → ℕ → K → V → Exec (Status × HashTable K V)
    replace_value ht ii key v = do
      xs ← elements ht
      ys ← store xs ii (some (key, v))
      done (success, record ht { ht_table = some ys })

    unfoldable pub set_value :
        (debug : Bool)
        → (calloc malloc : ℕ → Bool) → HashTable K V
        → K
        → V
        → Exec (Status × HashTable K V)
    set_value debug calloc malloc ht key v =
        if debug && ht.ht_capacity == 0
        then done (bad_param, ht)
        else if debug && other_kind ht
        then done (error, ht)
        else (search_key ht key >>= λ found. elim found [
          | vacant ii ↦ add_element calloc malloc (for_kind ht) ii key v
          | present ii e ↦ replace_value (for_kind ht) ii e.0 v
        ])

    unfoldable pub remove_value : (debug : Bool) → HashTable K V → K → Exec (Status × HashTable K V)
    remove_value debug ht key =
        if debug && (ht.ht_capacity == 0 || other_kind ht)
        then done (error, ht)
        else (search_key ht key >>= λ found. elim found [
          | vacant _ ↦ done (not_found, for_kind ht)
          | present ii _ ↦ remove_elt_at (for_kind ht) ii
        ])

  -- the first valid element from `ii` on, with `left` elements to go
  unfoldable pub next_valid : List (Option (K × V)) → (left ii : ℕ) → Exec (Option (ℕ × (K × V)))
  next_valid xs zero ii = done none
  next_valid xs (suc left) ii = load xs ii >>= λ elt. elim elt [
    | none ↦ next_valid xs left (ii + 1)
    | some e ↦ done (some (ii, e))
  ]

  -- `prev` is the index of the previous element; OCOMS_ERROR is `none`.
  unfoldable pub get_next_elt : HashTable K V → (prev : Option ℕ) → Exec (Option (ℕ × (K × V)))
  get_next_elt ht prev =
      let start : ℕ = elim prev [ none ↦ 0 | some ii ↦ ii + 1 ] in
      elim ht.ht_capacity [
        | zero ↦ done none
        | suc c ↦ elements ht >>= λ xs. next_valid xs (suc c - start) start
      ]
