-- ===== src/HashTable/Clear.antt =====
-- `ocoms_hash_table_remove_all` on valid tables.
use mathlib.Core.Path.{subst}
use native.Mathlib.Decide.{dec_lt}
use libocoms.Prelude.{
  ℕ, zero, suc, ◌+◌, ◌-◌, ◌<◌, ◌≡◌, refl, sym, ◌∙◌, none-ne-some, Option, none, some, List, [], ◌∷◌,
  length, set, length-set, done, store-in, Returns, arith,
}
use libocoms.Prelude.Slots.{entry, entry-set, entry-out, count_free}
use libocoms.HashTable.{KeyMethods, HashTable, clear_elements, remove_all}
use libocoms.HashTable.Valid.{IsTable}
use libocoms.HashTable.View.{Stores}
use libocoms.Status.{success}

count_free-all {ℓ} :
    {E : Type ℓ} (xs : List (Option E)) → ((p : ℕ) → entry xs p ≡ none) → count_free xs ≡ length xs
count_free-all [] free = refl
count_free-all (none ∷ xs) free = omega (arith, count_free-all xs (λ p. free (suc p)))
count_free-all (some e ∷ xs) free = absurd (none-ne-some (sym (free 0)))

module _ {ℓ} {K V : Type ℓ} where
  -- The loop leaves nothing valid from `ii` on.
  clear_elements_lem :
      (xs : List (Option (K × V))) (left ii : ℕ)
      → ii + left ≡ length xs
      → ((p : ℕ) → p < ii → entry xs p ≡ none)
      → Returns
          (clear_elements xs left ii)
          (λ ys. (length ys ≡ length xs) × ((p : ℕ) → entry ys p ≡ none))
  unfolding clear_elements
  clear_elements_lem xs zero ii all clear = (xs, refl, (refl, everywhere))
    where
      everywhere : (p : ℕ) → entry xs p ≡ none
      everywhere p = elim (dec_lt p ii) [
        | yes lt ↦ clear p lt
        | no ge ↦ entry-out xs p (omega arith)
      ]
  clear_elements_lem xs (suc left) ii all clear =
      let (ys, ran, (long, free)) =
        clear_elements_lem (set xs ii none) left (ii + 1) (omega (arith, length-set xs ii none))
          further in
      (ys, rw (store-in xs ii none (omega arith)) ran, (long ∙ length-set xs ii none, free))
    where
      further : (p : ℕ) → p < ii + 1 → entry (set xs ii none) p ≡ none
      further p lt = ground (arith, entry-set xs ii p none (omega arith), clear p)

  remove_all-of :
      (ht : HashTable K V) (xs ys : List (Option (K × V)))
      → 0 < ht.ht_capacity
      → ht.ht_table ≡ some xs
      → clear_elements xs ht.ht_capacity 0 ≡ done ys
      → remove_all ht
        ≡ done (success, record ht { ht_table = some ys; ht_size = 0; ht_type_methods = none })
  unfolding remove_all
  remove_all-of ht xs ys pos table ran =
      let capacity : (c : ℕ) × (ht.ht_capacity ≡ suc c) = (ht.ht_capacity - 1, omega arith) in
      rw (capacity.1, table, sym capacity.1, ran) refl

module _ {ℓ} {K V : Type ℓ} (methods : KeyMethods K) where
  Stores-free :
      (xs : List (Option (K × V)))
      → ((p : ℕ) → entry xs p ≡ none)
      → Stores methods xs (length xs) (λ _. none)
  Stores-free xs free = record {
    long = refl;
    sound = λ p e h. absurd (none-ne-some (sym (free p) ∙ h));
    complete = λ k v h. absurd (none-ne-some h);
    placed = λ p e h. absurd (none-ne-some (sym (free p) ∙ h));
    once = λ p q e e' h h' same. absurd (none-ne-some (sym (free p) ∙ h));
  }

  -- `ocoms_hash_table_remove_all` on a valid table: it becomes a valid table of the empty map, of the
  -- same capacity, that may be used for any type of keys.
  pub remove_all-IsTable :
      (ht : HashTable K V) (f : K → Option V)
      → IsTable methods ht f
      → Returns (remove_all ht) (λ r.
        (r.0 ≡ success)
        × IsTable methods r.1 (λ _. none)
        × (r.1.ht_size ≡ 0)
        × (r.1.ht_capacity ≡ ht.ht_capacity)
        × (r.1.ht_type_methods ≡ none))
  remove_all-IsTable ht f valid =
      let (ys, ran, (long, free)) =
        clear_elements_lem valid.xs ht.ht_capacity 0 (omega (arith, valid.stores.long))
          (λ p lt. absurd (omega arith)) in
      let same : length ys ≡ ht.ht_capacity = long ∙ valid.stores.long in
      let ht' : HashTable K V = record ht {
        ht_table = some ys;
        ht_size = 0;
        ht_type_methods = none;
      } in
      (
        (success, ht'),
        cleared ys ran,
        (
          refl,
          record {
            xs = ys;
            table = refl;
            stores = subst (λ n. Stores methods ys n (λ _. none)) same (Stores-free ys free);
            counted = omega (arith, count_free-all ys free);
            positive = valid.positive;
            small = valid.small;
            trigger = valid.trigger;
            density_numer = valid.density_numer;
            density_denom = valid.density_denom;
            growth_numer = valid.growth_numer;
            growth_denom = valid.growth_denom;
          },
          refl,
          refl,
          refl,
        ),
      )
    where
      cleared :
          (ys : List (Option (K × V)))
          → clear_elements valid.xs ht.ht_capacity 0 ≡ done ys
          → remove_all ht
            ≡ done (success, record ht { ht_table = some ys; ht_size = 0; ht_type_methods = none })
      cleared ys ran = remove_all-of ht valid.xs ys (omega (arith, valid.positive)) valid.table ran
