-- ===== src/HashTable/Full.antt =====
-- Hash tables without a free element, as a growth that is refused again and again leaves them.
use libocoms.Prelude.{
  ℕ, zero, suc, ◌+◌, ◌%◌, ◌≤◌, ◌<◌, ◌≡◌, refl, sym, ap, ◌∙◌, inl, inr, Bool, false, Bool-cases,
  some-ne-none, Option, none, some, List, [], ◌∷◌, length, fault, endless, arith,
}
use native.Mathlib.Nat.{mod-lt}
use libocoms.Prelude.Slots.{entry, load-entry, count_free}
use libocoms.HashTable.{KeyMethods, HashTable, wrap, find_key, search_key, other_kind, get_value}
use libocoms.HashTable.Methods.{home-some, unguarded}
use libocoms.HashTable.Valid.{IsTable}
use libocoms.HashTable.View.{IsKey}

-- Without a free element every index holds an element.
entry-no_free {ℓ} :
    {E : Type ℓ} (xs : List (Option E)) (p : ℕ)
    → count_free xs ≡ 0
    → p < length xs
    → (e : E) × (entry xs p ≡ some e)
entry-no_free [] p h lt = absurd (omega arith)
entry-no_free (none ∷ xs) p h lt = absurd (omega arith)
entry-no_free (some e ∷ xs) zero h lt = (e, refl)
entry-no_free (some e ∷ xs) (suc p) h lt = entry-no_free xs p (omega arith) (omega arith)

module _ {ℓ} {K V : Type ℓ} (methods : KeyMethods K) (law : IsKey methods) where
  open methods use {equal, hash_elt}

  find_key-full :
      (xs : List (Option (K × V))) (k : K) (capacity left ii : ℕ)
      → length xs ≡ capacity
      → ii ≤ capacity
      → 0 < capacity
      → ((p : ℕ) → p < capacity → (e : K × V) × (entry xs p ≡ some e) × (equal e.0 k ≡ false))
      → find_key methods xs k capacity left ii ≡ fault endless
  unfolding find_key
  find_key-full xs k capacity zero ii long at pos others = refl
  find_key-full xs k capacity (suc left) ii long at pos others =
      let kk : ℕ = wrap capacity ii in
      let kk_lt : kk < capacity = ground arith in
      let (e, here, differs) = others kk kk_lt in
      rw (load-entry xs kk (omega arith), here, differs)
        (find_key-full xs k capacity left (kk + 1) long (omega arith) pos others)

  -- `ocoms_hash_table_get_value_*` of a key that has no value, of the table's type, on a valid table
  -- without a free element: the search never ends.
  pub get_value-full :
      (debug : Bool) (ht : HashTable K V) (f : K → Option V) (k : K)
      → IsTable methods ht f
      → ht.ht_size ≡ ht.ht_capacity
      → other_kind methods ht ≡ false
      → f k ≡ none
      → get_value methods debug ht k ≡ fault endless
  unfolding get_value search_key
  get_value-full debug ht f k valid full fits absent =
      let ran =
        find_key-full valid.xs k ht.ht_capacity ht.ht_capacity (hash_elt k % ht.ht_capacity)
          valid.stores.long (omega (arith, mod-lt (hash_elt k) pos)) pos others in
      rw
        (
          unguarded methods law debug ht f valid fits,
          home-some ht.ht_capacity (hash_elt k) pos,
          valid.table,
          ran,
        )
        refl
    where
      pos : 0 < ht.ht_capacity
      pos = omega (arith, valid.positive)

      others :
          (p : ℕ)
          → p < ht.ht_capacity
          → (e : K × V) × (entry valid.xs p ≡ some e) × (equal e.0 k ≡ false)
      others p lt =
          let (e, here) =
            entry-no_free valid.xs p (omega (arith, valid.counted))
              (omega (arith, valid.stores.long)) in
          (e, here, unlike e (valid.stores.sound p e here))
        where
          unlike : (e : K × V) → f e.0 ≡ some e.1 → equal e.0 k ≡ false
          unlike e there = elim (Bool-cases (equal e.0 k)) [
            | inl same ↦
                absurd (some-ne-none (sym there ∙ ap f ((law.equal_iff e.0 k).0 same) ∙ absent))
            | inr h ↦ h
          ]
