-- ===== src/HashTable/Traversal.antt =====
-- `ocoms_hash_table_get_first_key_*` and `_get_next_key_*` on valid tables.
use native.Mathlib.Decide.{ℕ_discrete, dec_lt}
use libocoms.Prelude.{
  ℕ, zero, suc, ◌+◌, ◌-◌, ◌≤◌, ◌<◌, ◌≡◌, refl, ap, ◌∙◌, ◌⊎◌, inl, inr, Option-cases, Option, none,
  some, List, length, Returns, arith,
}
use libocoms.Prelude.Slots.{entry, load-entry, entry-out}
use libocoms.HashTable.{KeyMethods, HashTable, next_valid, get_next_elt}
use libocoms.HashTable.Valid.{IsTable}

-- the index after the previous element
abbrev pub after : Option ℕ → ℕ
after none = 0
after (some ii) = ii + 1

module _ {ℓ} {K V : Type ℓ} where
  -- The first element that is valid from an index on.
  pub data Next (xs : List (Option (K × V))) (start : ℕ) : Option (ℕ × (K × V)) → Type ℓ where
    next :
        (p : ℕ) (e : K × V)
        → start ≤ p
        → entry xs p ≡ some e
        → ((q : ℕ) → start ≤ q → q < p → entry xs q ≡ none)
        → Next xs start (some (p, e))
    last : ((q : ℕ) → start ≤ q → entry xs q ≡ none) → Next xs start none

  next_valid-Next :
      (xs : List (Option (K × V))) (left ii : ℕ)
      → length xs ≤ ii + left
      → ii + left ≤ length xs ⊎ (left ≡ 0)
      → Returns (next_valid xs left ii) (Next xs ii)
  unfolding next_valid
  next_valid-Next xs zero ii all bounded = (none, refl, last (λ q ge. entry-out xs q (omega arith)))
  next_valid-Next xs (suc left) ii all bounded = elim (Option-cases (entry xs ii)) [
    | inr (e, here) ↦ (
      some (ii, e),
      rw (load-entry xs ii inside, here) refl,
      next ii e (omega arith) here (λ q ge lt. absurd (omega arith)),
    )
    | inl free ↦
        let (r, ran, found) = next_valid-Next xs left (ii + 1) (omega arith) (inl within) in
        (r, rw (load-entry xs ii inside, free) ran, further r free found)
  ]
    where
      within : ii + 1 + left ≤ length xs
      within = elim bounded [ inl h ↦ omega arith | inr h ↦ absurd (omega arith) ]

      inside : ii < length xs
      inside = omega (arith, within)

      further : (r : Option (ℕ × (K × V))) → entry xs ii ≡ none → Next xs (ii + 1) r → Next xs ii r
      further _ free (next p e ge here before) = next p e (omega arith) here (λ q ge' lt.
          elim (ℕ_discrete q ii) [
            | yes same ↦ ap (entry xs) same ∙ free
            | no ne ↦ before q (omega arith) lt
          ])
      further _ free (last nothing) = last (λ q ge. elim (ℕ_discrete q ii) [
        | yes same ↦ ap (entry xs) same ∙ free
        | no ne ↦ nothing q (omega arith)
      ])

  enter :
      (ht : HashTable K V) (xs : List (Option (K × V))) (prev : Option ℕ)
      → 0 < ht.ht_capacity
      → ht.ht_table ≡ some xs
      → get_next_elt ht prev ≡ next_valid xs (ht.ht_capacity - after prev) (after prev)
  unfolding get_next_elt
  enter ht xs none pos table =
      let capacity : ht.ht_capacity ≡ suc (ht.ht_capacity - 1) = omega arith in
      rw (capacity, table) refl
  enter ht xs (some ii) pos table =
      let capacity : ht.ht_capacity ≡ suc (ht.ht_capacity - 1) = omega arith in
      rw (capacity, table) refl

  -- `ocoms_hash_table_get_next_elt` on a valid table, from the previous element or from the beginning:
  -- the first valid element behind it, with none valid between, or the failure when none is left.
  pub get_next_elt-Next :
      (methods : KeyMethods K) (ht : HashTable K V) (f : K → Option V) (prev : Option ℕ)
      → (valid : IsTable methods ht f) → Returns (get_next_elt ht prev) (Next valid.xs (after prev))
  get_next_elt-Next methods ht f prev valid =
      let (r, ran, found) =
        next_valid-Next valid.xs (ht.ht_capacity - after prev) (after prev)
          (omega (arith, valid.stores.long)) bounded in
      (r, enter ht valid.xs prev (omega (arith, valid.positive)) valid.table ∙ ran, found)
    where
      bounded :
          after prev + (ht.ht_capacity - after prev) ≤ length valid.xs
          ⊎ (ht.ht_capacity - after prev ≡ 0)
      bounded = elim (dec_lt (after prev) ht.ht_capacity) [
        | yes lt ↦ inl (omega (arith, valid.stores.long))
        | no ge ↦ inr (omega arith)
      ]
