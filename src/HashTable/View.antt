-- ===== src/HashTable/View.antt =====
-- Arrays of elements that hold a map, and what a search by key finds in them.
use native.Mathlib.Nat.{mod-lt}
use libocoms.Prelude.{
  ℕ, ◌%◌, ◌<◌, ◌≡◌, refl, sym, ap, ◌∙◌, ◌↔◌, inl, inr, if◌then◌else◌, true, false, Bool-cases,
  Option-cases, some-ne-none, Option, none, some, List, length, done, arith,
}
use libocoms.Prelude.Slots.{entry}
use libocoms.HashTable.{KeyMethods, vacant, present, find_key}
use libocoms.HashTable.Probe.{around, Filled, free-met}
use libocoms.HashTable.Search.{OtherKeys, find_key-vacant, find_key-present}

-- The comparison of keys is equality.
pub record IsKey {ℓ} {K : Type ℓ} (methods : KeyMethods K) : Type ℓ where
  pub equal_iff : (a b : K) → (methods.equal a b ≡ true) ↔ (a ≡ b)

module _ {ℓ} {K V : Type ℓ} (methods : KeyMethods K) where
  open methods use {equal, hash_elt}

  -- the map with the value of a key changed
  abbrev pub update : (K → Option V) → K → Option V → K → Option V
  update f k v q = if equal q k then v else f q

  -- The element at `p` is met by the search for its key: the elements from the index of its hash on
  -- are valid up to it.
  pub record Reached (xs : List (Option (K × V))) (capacity : ℕ) (k : K) (p : ℕ) : Type ℓ where
    pub steps : ℕ
    pub steps_lt : steps < capacity
    pub arrives : around capacity (hash_elt k % capacity) steps ≡ p
    pub filled : Filled xs capacity (hash_elt k % capacity) steps

  -- The elements of the array are the entries of the map `f`, each in reach and no key twice.
  pub record Stores (xs : List (Option (K × V))) (capacity : ℕ) (f : K → Option V) : Type ℓ where
    pub long : length xs ≡ capacity
    pub sound : (p : ℕ) (e : K × V) → entry xs p ≡ some e → f e.0 ≡ some e.1
    pub complete : (k : K) (v : V) → f k ≡ some v → (p : ℕ) × (entry xs p ≡ some (k, v))
    pub placed : (p : ℕ) (e : K × V) → entry xs p ≡ some e → Reached xs capacity e.0 p
    pub once :
        (p q : ℕ) (e e' : K × V) → entry xs p ≡ some e → entry xs q ≡ some e' → e.0 ≡ e'.0 → p ≡ q

  -- What the search for a key finds: the element of the key, or the first free one.
  pub data Finds (xs : List (Option (K × V))) (capacity : ℕ) (f : K → Option V) (k : K)
      : Type ℓ where
    finds_it :
        (p : ℕ) (v : V)
        → f k ≡ some v
        → entry xs p ≡ some (k, v)
        → find_key methods xs k capacity capacity (hash_elt k % capacity) ≡ done (present p (k, v))
        → Finds xs capacity f k
    finds_room :
        (p : ℕ)
        → p < capacity
        → f k ≡ none
        → entry xs p ≡ none
        → Reached xs capacity k p
        → find_key methods xs k capacity capacity (hash_elt k % capacity) ≡ done (vacant p)
        → Finds xs capacity f k

  module _ (law : IsKey methods) (xs : List (Option (K × V))) (capacity : ℕ) (f : K → Option V)
      (stores : Stores xs capacity f) where
    equal_self : (k : K) → equal k k ≡ true
    equal_self k = (law.equal_iff k k).1 refl

    -- Another key than `k` is stored in an element that `k` is not stored in.
    other-key : (k : K) (e : K × V) → (e.0 ≡ k → ⊥) → equal e.0 k ≡ false
    other-key k e ne = elim (Bool-cases (equal e.0 k)) [
      | inl same ↦ absurd (ne ((law.equal_iff e.0 k).0 same))
      | inr e' ↦ e'
    ]

    pub search-Finds : (k : K) (q : ℕ) → q < capacity → entry xs q ≡ none → Finds xs capacity f k
    search-Finds k q hq free = elim (Option-cases (f k)) [
      | inl absent ↦
          let (n, lt, empty, filled) = free-met xs capacity h q h_lt hq free in
          let others = unlike absent n filled in
          finds_room (around capacity h n) (ground arith) absent empty
            (record { steps = n; steps_lt = lt; arrives = refl; filled = filled })
            (find_key-vacant methods xs k capacity h n stores.long h_lt lt others empty)
      | inr (v, there) ↦
          let (p, at) = stores.complete k v there in
          let r = stores.placed p (k, v) at in
          let at' : entry xs (around capacity h r.steps) ≡ some (k, v) =
            ap (entry xs) r.arrives ∙ at in
          let others = before p v at r in
          finds_it p v there at (
            find_key-present methods xs k capacity h r.steps (k, v) stores.long h_lt r.steps_lt
              others at' (equal_self k)
            ∙ ap (λ i. done (present i (k, v))) r.arrives)
    ]
      where
        h : ℕ
        h = hash_elt k % capacity

        h_lt : h < capacity
        h_lt = mod-lt (hash_elt k) (omega arith)

        apart : (m n : ℕ) → m < n → n < capacity → around capacity h m ≡ around capacity h n → ⊥
        apart m n lt lt' e = ground (arith, e, h_lt)

        unlike : f k ≡ none → (n : ℕ) → Filled xs capacity h n → OtherKeys methods xs k capacity h n
        unlike absent n filled m lt =
            let (e, there) = filled m lt in
            (
              e,
              there,
              other-key k e (λ same.
                  some-ne-none
                    (sym (stores.sound (around capacity h m) e there) ∙ ap f same ∙ absent)),
            )

        before :
            (p : ℕ) (v : V)
            → entry xs p ≡ some (k, v)
            → (r : Reached xs capacity k p) → OtherKeys methods xs k capacity h r.steps
        before p v at r m lt =
            let (e, there) = r.filled m lt in
            (
              e,
              there,
              other-key k e (λ same.
                  apart m r.steps lt r.steps_lt
                    (stores.once (around capacity h m) p e (k, v) there at same ∙ sym r.arrives)),
            )
