-- ===== src/HashTable/Gap.antt =====
-- The array of a hash table while an element is being removed: one index, the gap, may break the way
-- to the elements behind it.
use native.Mathlib.Decide.{dec_lt}
use native.Mathlib.Nat.{mod-lt}
use libocoms.Prelude.{
  ℕ, ◌+◌, ◌-◌, ◌%◌, ◌≤◌, ◌<◌, leb, ◌≡◌, sym, ap, ◌∙◌, ◌⊎◌, inl, inr, if◌then◌else◌, none-ne-some,
  Option, none, some, List, length, arith,
}
use libocoms.Prelude.Slots.{free, entry}
use libocoms.HashTable.{KeyMethods}
use libocoms.HashTable.Probe.{around}
use libocoms.HashTable.View.{Reached, Stores}

-- Going on `j` elements from the `m`-th behind `h`, and going different ways round.
pub around-shift :
    (capacity h m j : ℕ)
    → h < capacity
    → m + j < capacity
    → around capacity (around capacity h m) j ≡ around capacity h (m + j)
around-shift capacity h m j hh hm = ground arith

pub around-inj :
    (capacity h m n : ℕ)
    → h < capacity
    → m < capacity
    → n < capacity
    → around capacity h m ≡ around capacity h n
    → m ≡ n
around-inj capacity h m n hh hm hn e = ground (arith, e)

-- How far `p` lies behind `h`.
abbrev pub distance : (capacity h p : ℕ) → ℕ
distance capacity h p = if leb h p then p - h else p + capacity - h

pub around-distance :
    (capacity h p : ℕ)
    → h < capacity
    → p < capacity
    → (distance capacity h p < capacity) × (around capacity h (distance capacity h p) ≡ p)
around-distance capacity h p hh hp = (ground arith, ground arith)

module _ {ℓ} {K V : Type ℓ} (methods : KeyMethods K) where
  open methods use {hash_elt}

  -- The way to the element at `p`, which may lead over the gap if that lies at least `j` before it.
  pub record NearlyReached (xs : List (Option (K × V))) (capacity gap j : ℕ) (k : K) (p : ℕ)
      : Type ℓ where
    pub steps : ℕ
    pub steps_lt : steps < capacity
    pub arrives : around capacity (hash_elt k % capacity) steps ≡ p
    pub filled :
        (m : ℕ)
        → m < steps
        → ((e : K × V) × (entry xs (around capacity (hash_elt k % capacity) m) ≡ some e))
          ⊎ ((around capacity (hash_elt k % capacity) m ≡ gap) × (j + m ≤ steps))

  -- As `Stores`, with a gap.
  pub record StoresGap (xs : List (Option (K × V))) (capacity gap j : ℕ) (f : K → Option V)
      : Type ℓ where
    pub long : length xs ≡ capacity
    pub gap_lt : gap < capacity
    pub gap_free : entry xs gap ≡ none
    pub sound : (p : ℕ) (e : K × V) → entry xs p ≡ some e → f e.0 ≡ some e.1
    pub complete : (k : K) (v : V) → f k ≡ some v → (p : ℕ) × (entry xs p ≡ some (k, v))
    pub placed : (p : ℕ) (e : K × V) → entry xs p ≡ some e → NearlyReached xs capacity gap j e.0 p
    pub once :
        (p q : ℕ) (e e' : K × V) → entry xs p ≡ some e → entry xs q ≡ some e' → e.0 ≡ e'.0 → p ≡ q

  -- A scan that meets an index that is free ends with nothing left over the gap.
  pub closed-Stores :
      (xs : List (Option (K × V))) (capacity gap j : ℕ) (f : K → Option V)
      → StoresGap xs capacity gap j f
      → 0 < j
      → j < capacity
      → entry xs (around capacity gap j) ≡ none
      → Stores methods xs capacity f
  closed-Stores xs capacity gap j f s j_pos j_lt free = record {
    long = s.long;
    sound = s.sound;
    complete = s.complete;
    placed = λ p e h. reached p e h (s.placed p e h);
    once = s.once;
  }
    where
      reached :
          (p : ℕ) (e : K × V)
          → entry xs p ≡ some e
          → NearlyReached xs capacity gap j e.0 p
          → Reached methods xs capacity e.0 p
      reached p e h r = record {
        steps = r.steps;
        steps_lt = r.steps_lt;
        arrives = r.arrives;
        filled = λ m lt. elim (r.filled m lt) [
          | inl valid ↦ valid
          | inr (at, far) ↦ absurd (lost m at far)
        ];
      }
        where
          start : ℕ
          start = hash_elt e.0 % capacity

          start_lt : start < capacity
          start_lt = mod-lt (hash_elt e.0) (omega arith)

          lost : (m : ℕ) → around capacity start m ≡ gap → j + m ≤ r.steps → ⊥
          lost m at far =
              let here : around capacity gap j ≡ around capacity start (m + j) =
                ap (λ g. around capacity g j) (sym at)
                ∙ around-shift capacity start m j start_lt (omega arith) in
              let empty : entry xs (around capacity start (m + j)) ≡ none =
                ap (entry xs) (sym here) ∙ free in
              elim (dec_lt (m + j) r.steps) [
                | yes inside ↦ elim (r.filled (m + j) inside) [
                  | inl (e', valid) ↦ none-ne-some (sym empty ∙ valid)
                  | inr (again, _) ↦ ahead m j_pos (
                      around-inj capacity start (m + j) m start_lt (omega arith) (omega arith)
                        (again ∙ sym at))
                ]
                | no outside ↦
                    let last : m + j ≡ r.steps = omega arith in
                    none-ne-some (
                      sym empty
                      ∙ ap (λ i. entry xs (around capacity start i)) last
                      ∙ ap (entry xs) r.arrives
                      ∙ h)
              ]
            where
              ahead : (m : ℕ) → 0 < j → m + j ≡ m → ⊥
              ahead m lt e = omega arith
