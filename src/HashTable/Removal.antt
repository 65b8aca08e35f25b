-- ===== src/HashTable/Removal.antt =====
-- `ocoms_hash_table_remove_value_*` on valid tables.
use mathlib.Core.Path.{subst, fun_ext}
use native.Mathlib.Decide.{ℕ_discrete}
use libocoms.Prelude.{
  ℕ, suc, ◌+◌, ◌-◌, ◌%◌, ◌≤◌, ◌<◌, ◌≡◌, ◌≢◌, refl, sym, ap, ◌∙◌, inl, inr, if◌then◌else◌, Bool,
  false, Bool-cases, none-ne-some, Option, none, some, List, length, set, length-set, store-in,
  Returns, arith,
}
use libocoms.Prelude.Slots.{
  free, entry, entry-set, load-entry, count_free, count_free-set, count_free-le-length,
}
use libocoms.HashTable.{
  KeyMethods, HashTable, wrap, gap_rounds, close_gap, remove_elt_at, search_key, find_key,
  other_kind, for_kind, remove_value,
}
use libocoms.HashTable.Close.{close_gap-Closed}
use libocoms.HashTable.Gap.{distance, around-distance, NearlyReached, StoresGap}
use libocoms.HashTable.Growth.{entry-of_free}
use libocoms.HashTable.Methods.{IsTable-for_kind, search_key-Finds, found_status, unguarded}
use libocoms.HashTable.Probe.{around, entry-some-lt}
use libocoms.HashTable.Valid.{IsTable}
use libocoms.HashTable.View.{IsKey, update, Reached, Stores, Finds, finds_it, finds_room}
use libocoms.Status.{success, not_found}

module _ {ℓ} {K V : Type ℓ} (methods : KeyMethods K) (law : IsKey methods) where
  open methods use {equal, hash_elt}

  update-none : (f : K → Option V) (k : K) → f k ≡ none → f ≡ update methods f k none
  update-none f k absent = fun_ext same
    where
      same : (q : K) → f q ≡ update methods f k none q
      same q = elim (Bool-cases (equal q k)) [
        | inl e ↦ ap f ((law.equal_iff q k).0 e) ∙ absent ∙ rw e refl
        | inr e ↦ rw e refl
      ]

  module _ (xs : List (Option (K × V))) (capacity : ℕ) (f : K → Option V)
      (stores : Stores methods xs capacity f) (p : ℕ) (k : K) (v : V)
      (here : entry xs p ≡ some (k, v)) where
    abbrev erased : List (Option (K × V))
    erased = set xs p none

    p_in : p < length xs
    p_in = entry-some-lt xs p here

    erased-at : entry erased p ≡ none
    erased-at = ground (arith, entry-set xs p p none p_in)

    erased-other : (q : ℕ) → q ≢ p → entry erased q ≡ entry xs q
    erased-other q ne = ground (arith, entry-set xs p q none p_in)

    -- What is left in the array.
    left_in : (q : ℕ) (e : K × V) → entry erased q ≡ some e → (q ≢ p) × (entry xs q ≡ some e)
    left_in q e h = elim (ℕ_discrete q p) [
      | yes same ↦ absurd (none-ne-some (sym erased-at ∙ ap (entry erased) (sym same) ∙ h))
      | no ne ↦ (ne, sym (erased-other q ne) ∙ h)
    ]

    update_other : (k' : K) → (k' ≡ k → ⊥) → update methods f k none k' ≡ f k'
    update_other k' ne = elim (Bool-cases (equal k' k)) [
      | inl same ↦ absurd (ne ((law.equal_iff k' k).0 same))
      | inr e ↦ rw e refl
    ]

    erased-StoresGap : StoresGap methods erased capacity p 1 (update methods f k none)
    erased-StoresGap = record {
      long = length-set xs p none ∙ stores.long;
      gap_lt = omega (arith, p_in, stores.long);
      gap_free = erased-at;
      sound = λ q e h.
          let (ne, h') = left_in q e h in
          update_other e.0 (λ same. ne (stores.once q p e (k, v) h' here same))
          ∙ stores.sound q e h';
      complete = complete_of;
      placed = λ q e h. let (ne, h') = left_in q e h in nearly e q (stores.placed q e h');
      once = λ q q' a b h h' same. stores.once q q' a b (left_in q a h).1 (left_in q' b h').1 same;
    }
      where
        complete_of :
            (k' : K) (w : V)
            → update methods f k none k' ≡ some w
            → (q : ℕ) × (entry erased q ≡ some (k', w))
        complete_of k' w h = elim (Bool-cases (equal k' k)) [
          | inl e ↦ absurd (none-ne-some (ap (λ b. if b then none else f k') (sym e) ∙ h))
          | inr e ↦
              let there : f k' ≡ some w = ap (λ b. if b then none else f k') (sym e) ∙ h in
              let (q, at) = stores.complete k' w there in
              (
                q,
                erased-other q (λ same. differs k' e (key_of (sym at ∙ ap (entry xs) same ∙ here)))
                    ∙ at,
              )
        ]
          where
            differs : (k' : K) → equal k' k ≡ false → k' ≡ k → ⊥
            differs k' e same = let t = (law.equal_iff k' k).1 same in cc

            key_of :
                {k' : K} {w : V} → ◌≡◌ {A = Option (K × V)} (some (k', w)) (some (k, v)) → k' ≡ k
            key_of e = cc

        nearly :
            (e : K × V) (q : ℕ)
            → Reached methods xs capacity e.0 q
            → NearlyReached methods erased capacity p 1 e.0 q
        nearly e q r = record {
          steps = r.steps;
          steps_lt = r.steps_lt;
          arrives = r.arrives;
          filled = λ m lt.
              let (a, valid) = r.filled m lt in
              elim (ℕ_discrete (around capacity (hash_elt e.0 % capacity) m) p) [
                | yes same ↦ inr (same, omega arith)
                | no ne ↦
                    inl (a, erased-other (around capacity (hash_elt e.0 % capacity) m) ne ∙ valid)
              ];
        }

    -- The scan after the element at `p` is erased, when an element was free before.
    pub close_gap-erased :
        (left : ℕ)
        → capacity ≤ left
        → 0 < count_free xs
        → Returns (close_gap methods erased capacity left (p + 1)) (λ zs.
          Stores methods zs capacity (update methods f k none)
          × (count_free zs ≡ suc (count_free xs)))
    close_gap-erased left enough room =
        let (q, q_lt, q_free) = entry-of_free xs room in
        let p_lt : p < capacity = omega (arith, p_in, stores.long) in
        let q_lt' : q < capacity = omega (arith, stores.long) in
        let (d_lt, at_q) = around-distance capacity p q p_lt q_lt' in
        let ne : q ≢ p = λ same. none-ne-some (sym q_free ∙ ap (entry xs) same ∙ here) in
        let d_pos = distance_pos q p_lt q_lt' ne in
        let m : ℕ = distance capacity p q - 1 in
        let all : 1 + m ≡ distance capacity p q = omega arith in
        let (zs, ran, (stores', counted)) =
          close_gap-Closed methods capacity (update methods f k none) left m erased p 1 (p + 1)
            erased-StoresGap (omega arith) (omega arith) (omega arith)
            (ap (λ n. entry erased (around capacity p n)) all
              ∙ ap (entry erased) at_q
              ∙ erased-other q ne
              ∙ q_free)
            (first p_lt) in
        let taken : free (entry xs p) ≡ 0 = ap free here in
        (zs, ran, (stores', counted ∙ omega (arith, count_free-set xs p none p_in)))
      where
        distance_pos : (q : ℕ) → p < capacity → q < capacity → q ≢ p → 0 < distance capacity p q
        distance_pos q hp hq ne = ground arith

        first : p < capacity → wrap capacity (p + 1) ≡ around capacity p 1
        first h = ground arith

  remove_elt_at-IsTable :
      (ht : HashTable K V) (f : K → Option V)
      → (valid : IsTable methods ht f) → ht.ht_size < ht.ht_capacity
      → (p : ℕ) (k : K) (v : V) → entry valid.xs p ≡ some (k, v)
      → Returns (remove_elt_at methods ht p) (λ r.
        IsTable methods r.1 (update methods f k none)
        × (r.0 ≡ success)
        × (r.1.ht_size + 1 ≡ ht.ht_size)
        × (r.1.ht_growth_trigger ≡ ht.ht_growth_trigger)
        × (r.1.ht_type_methods ≡ ht.ht_type_methods))
  unfolding remove_elt_at
  remove_elt_at-IsTable ht f valid room p k v at =
      let p_lt = entry-some-lt valid.xs p at in
      let (zs, ran, (stores, counted)) =
        close_gap-erased valid.xs ht.ht_capacity f valid.stores p k v at (gap_rounds ht.ht_capacity)
          (omega arith) (omega (arith, valid.counted)) in
      let size_pos : 0 < ht.ht_size =
        omega (arith, valid.counted, counted, count_free-le-length zs, stores.long) in
      (
        (success, record ht { ht_table = some zs; ht_size = ht.ht_size - 1 }),
        rw (valid.table, load-entry valid.xs p p_lt, at, store-in valid.xs p none p_lt, ran) refl,
        (
          record {
            xs = zs;
            table = refl;
            stores = stores;
            counted = omega (arith, valid.counted);
            positive = valid.positive;
            small = valid.small;
            trigger = valid.trigger;
            density_numer = valid.density_numer;
            density_denom = valid.density_denom;
            growth_numer = valid.growth_numer;
            growth_denom = valid.growth_denom;
          },
          refl,
          omega arith,
          refl,
          refl,
        ),
      )

  -- `ocoms_hash_table_remove_value_*` of a key of the table's type on a valid table that is not full:
  -- the searches end, the status is `OCOMS_SUCCESS` where the key had a value and `OCOMS_ERR_NOT_FOUND`
  -- otherwise, and the table stores the map without the key, with one element less where it had a value.
  pub remove_value-IsTable :
      (debug : Bool) (ht : HashTable K V) (f : K → Option V) (k : K)
      → IsTable methods ht f
      → ht.ht_size < ht.ht_capacity
      → other_kind methods ht ≡ false
      → Returns (remove_value methods debug ht k) (λ r.
        IsTable methods r.1 (update methods f k none)
        × (r.0 ≡ found_status (f k))
        × (r.1.ht_size + 1 ≡ ht.ht_size + free (f k))
        × (r.1.ht_growth_trigger ≡ ht.ht_growth_trigger)
        × (r.1.ht_type_methods ≡ some methods.kind))
  unfolding remove_value IsTable-for_kind
  remove_value-IsTable debug ht f k valid room fits =
      let (searched, finds) = search_key-Finds methods law ht f k valid room in
      by_search searched finds
    where
      erase :
          (p : ℕ) (v : V)
          → entry valid.xs p ≡ some (k, v)
          → Returns (remove_elt_at methods (for_kind methods ht) p) (λ r.
            IsTable methods r.1 (update methods f k none)
            × (r.0 ≡ success)
            × (r.1.ht_size + 1 ≡ ht.ht_size)
            × (r.1.ht_growth_trigger ≡ ht.ht_growth_trigger)
            × (r.1.ht_type_methods ≡ some methods.kind))
      erase p v at =
          remove_elt_at-IsTable (for_kind methods ht) f (IsTable-for_kind methods law ht f valid)
            room p k v at

      by_search :
          search_key methods ht k
            ≡ find_key methods valid.xs k ht.ht_capacity ht.ht_capacity
                (hash_elt k % ht.ht_capacity)
          → Finds methods valid.xs ht.ht_capacity f k
          → Returns (remove_value methods debug ht k) (λ r.
            IsTable methods r.1 (update methods f k none)
            × (r.0 ≡ found_status (f k))
            × (r.1.ht_size + 1 ≡ ht.ht_size + free (f k))
            × (r.1.ht_growth_trigger ≡ ht.ht_growth_trigger)
            × (r.1.ht_type_methods ≡ some methods.kind))
      by_search searched (finds_it p v there at ran) =
          let (r, erased_it, (valid', status, size, trigger, type)) = erase p v at in
          let none_free : free (f k) ≡ 0 = ap free there in
          (
            r,
            rw (unguarded methods law debug ht f valid fits, searched, ran) erased_it,
            (valid', status ∙ sym (ap found_status there), omega arith, trigger, type),
          )
      by_search searched (finds_room p p_lt absent empty reached ran) =
          let one_free : free (f k) ≡ 1 = ap free absent in
          (
            (not_found, for_kind methods ht),
            rw (unguarded methods law debug ht f valid fits, searched, ran) refl,
            (
              subst (IsTable methods (for_kind methods ht)) (update-none f k absent)
                  (IsTable-for_kind methods law ht f valid),
              sym (ap found_status absent),
              omega arith,
              refl,
              refl,
            ),
          )
