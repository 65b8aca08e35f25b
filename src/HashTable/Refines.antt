-- ===== src/HashTable/Refines.antt =====
-- Hash tables and their specification, a function from keys to values: a table after
-- `ocoms_hash_table_init`, and sequences of calls.
use libocoms.Prelude.{
  ℕ, suc, ◌+◌, ◌*◌, ◌/◌, ◌^◌, ◌≤◌, ◌<◌, ◌≡◌, refl, sym, ap, ap₂, ◌∙◌, inl, inr, Bool, true, false,
  not, Option, none, some, List, [], ◌∷◌, length, replicate, Exec, done, Returns, ◌>>=◌, arith,
}
use libocoms.Prelude.Slots.{free, count_free-replicate}
use libocoms.HashTable.{
  KeyMethods, HashTable, init, init2, KeyKind, uint32, uint64, pointer, other_kind, for_kind,
  same_kind, get_value, set_value, remove_value,
}
use libocoms.HashTable.Growth.{Stores-empty}
use libocoms.HashTable.Methods.{
  IsTable-for_kind, found_status, get_value-IsTable, set_value-SetsValue,
}
use libocoms.HashTable.Removal.{remove_value-IsTable}
use libocoms.HashTable.Valid.{IsCalloc, IsTable, Roomy, grown, grown-round, doubled, halved}
use libocoms.HashTable.View.{IsKey, update}
use libocoms.Status.{Status, success}

module _ {ℓ} {K V : Type ℓ} (methods : KeyMethods K) where
  -- What `ocoms_hash_table_init` makes of a table.
  abbrev pub initialised : HashTable K V → ℕ → HashTable K V
  initialised ht estimate = record ht {
    ht_table = some (replicate (grown estimate) none);
    ht_capacity = grown estimate;
    ht_density_numer = 1;
    ht_density_denom = 2;
    ht_growth_numer = 2;
    ht_growth_denom = 1;
    ht_growth_trigger = grown estimate / 2;
    ht_type_methods = none;
  }

  pub initialised-IsTable :
      (ht : HashTable K V) (estimate : ℕ)
      → ht.ht_size ≡ 0
      → 0 < estimate
      → grown estimate < 2 ^ 59
      → IsTable methods (initialised ht estimate) (λ _. none)
  initialised-IsTable ht estimate no_elements pos in_memory = record {
    xs = replicate (grown estimate) none;
    table = refl;
    stores = Stores-empty methods (grown estimate);
    counted = omega (arith, count_free-replicate (K × V) (grown estimate));
    positive = omega arith;
    small = in_memory;
    trigger = refl;
    density_numer = refl;
    density_denom = refl;
    growth_numer = refl;
    growth_denom = refl;
  }

  -- `ocoms_hash_table_init` of a table without elements, when the array is served: it is a valid table
  -- of the empty map, below its growth trigger, with room for twice the estimated size.
  pub init-IsTable :
      (calloc : ℕ → Bool) (ht : HashTable K V) (estimate : ℕ)
      → IsCalloc calloc
      → ht.ht_size ≡ 0
      → 0 < estimate
      → estimate < 2 ^ 59
      → calloc (grown estimate) ≡ true
      → Returns (init calloc ht estimate) (λ r.
        (r.0 ≡ success)
        × IsTable methods r.1 (λ _. none)
        × Roomy methods r.1
        × (estimate * 2 < r.1.ht_capacity))
  unfolding init init2
  init-IsTable calloc ht estimate memory no_elements pos small served =
      let in_memory = memory (grown estimate) served in
      (
        (success, initialised ht estimate),
        rw
            (
              doubled estimate 2 1 refl refl small,
              grown-round estimate small,
              served,
              halved (grown estimate) 1 2 refl refl in_memory,
            )
            refl,
        (refl, initialised-IsTable ht estimate no_elements pos in_memory, omega arith, omega arith),
      )

-- `calloc` serves what a table of so many elements may ask for.
abbrev pub Serves : (ℕ → Bool) → ℕ → Type 0
Serves calloc size = (n : ℕ) → n ≤ 4 * size + 40 → calloc n ≡ true

-- A call with a key, and what it gives: a status, and the value that it writes through its argument.
pub data Call {ℓ} (K V : Type ℓ) : Type ℓ where
  set_call : K → V → Call K V
  get_call remove_call : K → Call K V

abbrev pub Outcome {ℓ} : Type ℓ → Type ℓ
Outcome V = Status × Option V

free-le {ℓ} : {V : Type ℓ} (o : Option V) → free o ≤ 1
free-le none = omega arith
free-le (some v) = omega arith

module _ {ℓ} {K V : Type ℓ} (methods : KeyMethods K) where
  open methods use {copy_served}

  unfoldable pub call :
      (debug : Bool) (calloc malloc : ℕ → Bool)
      → HashTable K V
      → Call K V
      → Exec (Outcome V × HashTable K V)
  call debug calloc malloc ht (set_call k v) =
      set_value methods debug calloc malloc ht k v >>= λ r. done ((r.0, none), r.1)
  call debug calloc malloc ht (get_call k) =
      get_value methods debug ht k >>= λ r. done ((r.0, r.1), r.2)
  call debug calloc malloc ht (remove_call k) =
      remove_value methods debug ht k >>= λ r. done ((r.0, none), r.1)

  unfoldable pub calls :
      (debug : Bool) (calloc malloc : ℕ → Bool)
      → HashTable K V
      → List (Call K V)
      → Exec (List (Outcome V) × HashTable K V)
  calls debug calloc malloc ht [] = done ([], ht)
  calls debug calloc malloc ht (c ∷ cs) = call debug calloc malloc ht c >>= λ r.
      calls debug calloc malloc r.1 cs >>= λ rs. done (r.0 ∷ rs.0, rs.1)

  -- The specification: a function from keys to values.
  unfoldable pub spec_call : (K → Option V) → Call K V → Outcome V × (K → Option V)
  spec_call f (set_call k v) = ((success, none), update methods f k (some v))
  spec_call f (get_call k) = ((found_status (f k), f k), f)
  spec_call f (remove_call k) = ((found_status (f k), none), update methods f k none)

  unfoldable pub spec_calls : (K → Option V) → List (Call K V) → List (Outcome V) × (K → Option V)
  spec_calls f [] = ([], f)
  spec_calls f (c ∷ cs) = let r = spec_call f c in let rs = spec_calls r.1 cs in (r.0 ∷ rs.0, rs.1)

  -- A table between calls: valid, below its growth trigger, and not for keys of another type.
  pub record Ready (ht : HashTable K V) (f : K → Option V) : Type ℓ where
    pub valid : IsTable methods ht f
    pub room : Roomy methods ht
    pub fits : other_kind methods ht ≡ false

  fits-of_kind :
      (ht : HashTable K V) → ht.ht_type_methods ≡ some methods.kind → other_kind methods ht ≡ false
  unfolding other_kind same_kind
  fits-of_kind ht type = rw (type) (self methods.kind)
    where
      self : (k : KeyKind) → not (same_kind k k) ≡ false
      self uint32 = refl
      self uint64 = refl
      self pointer = refl

  module _ (law : IsKey methods) (debug : Bool) (calloc malloc : ℕ → Bool)
      (memory : IsCalloc calloc) (copies : (k : K) → copy_served malloc k ≡ true) where
    -- One call does what the specification says.
    call-Ready :
        (ht : HashTable K V) (f : K → Option V) (c : Call K V) (n : ℕ)
        → Ready ht f
        → ht.ht_size < n
        → Serves calloc n
        → Returns (call debug calloc malloc ht c) (λ r.
          (r.0 ≡ (spec_call f c).0) × Ready r.1 (spec_call f c).1 × (r.1.ht_size ≤ suc ht.ht_size))
    unfolding call spec_call IsTable-for_kind
    call-Ready ht f (set_call k v) n ready below serves =
        let (r, ran, (valid, size, type, room)) =
          set_value-SetsValue methods law debug calloc malloc ht f k v memory (copies k) ready.valid
            ready.room ready.fits in
        let less : free (f k) ≤ 1 = free-le (f k) in
        let smaller : r.1.ht_size ≤ suc ht.ht_size = omega arith in
        elim room [
          | inl (ok, below') ↦ (
            ((r.0, none), r.1),
            rw (ran) refl,
            (
              ap (λ st. (st, none)) ok,
              record { valid = valid; room = below'; fits = fits-of_kind r.1 type },
              smaller,
            ),
          )
          | inr (_, full, no_memory) ↦
              let asked : grown r.1.ht_capacity ≤ 4 * n + 40 = omega (arith, valid.trigger) in
              absurd (clash (sym (serves (grown r.1.ht_capacity) asked) ∙ no_memory))
        ]
      where
        clash : true ≡ false → ⊥
        clash e = cc
    call-Ready ht f (get_call k) n ready below serves = (
      ((found_status (f k), f k), for_kind methods ht),
      rw
          (get_value-IsTable methods law debug ht f k ready.valid
            (omega (arith, ready.room, ready.valid.trigger)) ready.fits)
          refl,
      (
        refl,
        record {
          valid = IsTable-for_kind methods law ht f ready.valid;
          room = ready.room;
          fits = fits-of_kind (for_kind methods ht) refl;
        },
        omega arith,
      ),
    )
    call-Ready ht f (remove_call k) n ready below serves =
        let (r, ran, (valid, status, size, trigger, type)) =
          remove_value-IsTable methods law debug ht f k ready.valid
            (omega (arith, ready.room, ready.valid.trigger)) ready.fits in
        let less : free (f k) ≤ 1 = free-le (f k) in
        let room : Roomy methods r.1 = omega (arith, ready.room) in
        (
          ((r.0, none), r.1),
          rw (ran) refl,
          (
            ap (λ st. (st, none)) status,
            record { valid = valid; room = room; fits = fits-of_kind r.1 type },
            omega arith,
          ),
        )

    -- A sequence of calls on a table between calls, when memory is served for the elements that the
    -- table and the calls may bring together and for the copies of the keys: the calls end, their
    -- statuses and values are those of the specification, and the table stores its map.
    pub calls-spec_calls :
        (cs : List (Call K V)) (ht : HashTable K V) (f : K → Option V) (n : ℕ)
        → Ready ht f
        → ht.ht_size + length cs ≤ n
        → Serves calloc n
        → Returns
            (calls debug calloc malloc ht cs)
            (λ r. (r.0 ≡ (spec_calls f cs).0) × Ready r.1 (spec_calls f cs).1)
    unfolding calls spec_calls
    calls-spec_calls [] ht f n ready fits serves = (([], ht), refl, (refl, ready))
    calls-spec_calls (c ∷ cs) ht f n ready fits serves =
        let (r, ran, (same, ready', size)) = call-Ready ht f c n ready (omega arith) serves in
        let (rs, runs, (sames, ready'')) =
          calls-spec_calls cs r.1 (spec_call f c).1 n ready' (omega arith) serves in
        ((r.0 ∷ rs.0, rs.1), rw (ran, runs) refl, (ap₂ (λ a b. a ∷ b) same sames, ready''))
