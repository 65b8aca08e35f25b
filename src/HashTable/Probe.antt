-- ===== src/HashTable/Probe.antt =====
-- Going round the elements of a hash table.
use native.Mathlib.Decide.{dec_lt}
use libocoms.Prelude.{
  ℕ, zero, suc, ◌+◌, ◌-◌, ◌≤◌, ◌<◌, leb, ◌≡◌, sym, ap, ◌∙◌, if◌then◌else◌, Option-cases,
  none-ne-some, Option, none, some, List, inl, inr, length, arith,
}
use libocoms.Prelude.Slots.{entry, entry-out}

-- The index that lies `d` elements behind `h`, both below the capacity.
abbrev pub around : (capacity h d : ℕ) → ℕ
around capacity h d = if leb capacity (h + d) then h + d - capacity else h + d

module _ {ℓ} {E : Type ℓ} where
  pub entry-some-lt : (xs : List (Option E)) (i : ℕ) {e : E} → entry xs i ≡ some e → i < length xs
  entry-some-lt xs i {e} h = elim (dec_lt i (length xs)) [
    | yes p ↦ p
    | no p ↦ absurd (none-ne-some (sym (entry-out xs i (omega arith)) ∙ h))
  ]

  -- The `n` elements from the `d`-th behind `h` on are valid.
  abbrev pub Filled : List (Option E) → (capacity h n : ℕ) → Type ℓ
  Filled xs capacity h n = (m : ℕ) → m < n → (e : E) × (entry xs (around capacity h m) ≡ some e)

  -- The first element round from `h` that is not valid, if the `m`-th is not.
  first_free :
      (xs : List (Option E)) (capacity h k d : ℕ)
      → entry xs (around capacity h (d + k)) ≡ none
      → Filled xs capacity h d
      → (n : ℕ) × (n ≤ d + k) × (entry xs (around capacity h n) ≡ none) × Filled xs capacity h n
  first_free xs capacity h zero d free before =
      let same : d + 0 ≡ d = omega arith in
      (d, omega arith, ap (λ i. entry xs (around capacity h i)) (sym same) ∙ free, before)
  first_free xs capacity h (suc k) d free before =
      elim (Option-cases (entry xs (around capacity h d))) [
        | inl e ↦ (d, omega arith, e, before)
        | inr (x, e) ↦
            let same : d + suc k ≡ suc d + k = omega arith in
            let (n, le, found, filled) =
              first_free xs capacity h k (suc d)
                (ap (λ i. entry xs (around capacity h i)) (sym same) ∙ free) (longer x e) in
            (n, omega arith, found, filled)
      ]
    where
      longer : (x : E) → entry xs (around capacity h d) ≡ some x → Filled xs capacity h (suc d)
      longer x e m lt = elim (dec_lt m d) [
        | yes p ↦ before m p
        | no p ↦
            let same : m ≡ d = omega arith in (x, ap (λ i. entry xs (around capacity h i)) same ∙ e)
      ]

  -- From any start a free element is met.
  pub free-met :
      (xs : List (Option E)) (capacity h q : ℕ)
      → h < capacity
      → q < capacity
      → entry xs q ≡ none
      → (n : ℕ) × (n < capacity) × (entry xs (around capacity h n) ≡ none) × Filled xs capacity h n
  free-met xs capacity h q hh hq free =
      let m : ℕ = if leb h q then q - h else q + capacity - h in
      let there : around capacity h (0 + m) ≡ q = ground arith in
      let small : m < capacity = ground arith in
      let (n, le, found, filled) =
        first_free xs capacity h m 0 (ap (entry xs) there ∙ free) (λ i lt. absurd (omega arith)) in
      (n, omega arith, found, filled)
