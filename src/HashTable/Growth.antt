-- ===== src/HashTable/Growth.antt =====
-- `ocoms_hash_grow` puts the elements of the old array into the new one.
use mathlib.Core.Path.{subst, fun_ext}
use native.Mathlib.Nat.{mod-lt}
use libocoms.Prelude.{
  ℕ, zero, suc, ◌+◌, ◌%◌, ◌<◌, ◌≡◌, refl, sym, ap, ◌∙◌, inl, inr, Bool-cases, Option-cases,
  none-ne-some, some-ne-none, Option, none, some, List, [], ◌∷◌, length, set, replicate,
  length-replicate, done, store, store-in, Returns, arith,
}
use libocoms.Prelude.Slots.{
  free, entry, entry-replicate, count_free, count_free-set, count_free-replicate,
  count_free-le-length,
}
use libocoms.HashTable.{KeyMethods, find_free, home, reinsert}
use libocoms.HashTable.Probe.{around, free-met}
use libocoms.HashTable.Search.{find_free-met}
use libocoms.HashTable.View.{IsKey, update, Stores}
use libocoms.HashTable.Write.{written-Stores}

pub entry-of_free {ℓ} :
    {E : Type ℓ} (xs : List (Option E))
    → 0 < count_free xs
    → (q : ℕ) × (q < length xs) × (entry xs q ≡ none)
entry-of_free [] h = absurd (omega arith)
entry-of_free (none ∷ xs) h = (0, omega arith, refl)
entry-of_free (some e ∷ xs) h =
    let (q, lt, at) = entry-of_free xs (omega arith) in (suc q, omega arith, at)

pub Stores-empty {ℓ} :
    {K V : Type ℓ} (methods : KeyMethods K) (n : ℕ)
    → Stores methods (replicate {A = Option (K × V)} n none) n (λ _. none)
Stores-empty {K} {V} methods n = record {
  long = length-replicate n none;
  sound = λ p e h. absurd (none-ne-some (sym (entry-replicate (K × V) n p) ∙ h));
  complete = λ k v h. absurd (none-ne-some h);
  placed = λ p e h. absurd (none-ne-some (sym (entry-replicate (K × V) n p) ∙ h));
  once = λ p q e e' h h' same. absurd (none-ne-some (sym (entry-replicate (K × V) n p) ∙ h));
}

module _ {ℓ} {K V : Type ℓ} (methods : KeyMethods K) (law : IsKey methods) where
  open methods use {equal, hash_elt}

  -- No two elements of the array have the same key.
  abbrev pub Distinct : List (Option (K × V)) → Type ℓ
  Distinct old =
      (p q : ℕ) (e e' : K × V) → entry old p ≡ some e → entry old q ≡ some e' → e.0 ≡ e'.0 → p ≡ q

  -- The map with the elements of an array added.
  overlay : List (Option (K × V)) → (K → Option V) → K → Option V
  overlay [] g = g
  overlay (none ∷ old) g = overlay old g
  overlay (some e ∷ old) g = overlay old (update methods g e.0 (some e.1))

  -- One round of the loop on a valid element.
  reinsert-one :
      (new : List (Option (K × V))) (capacity : ℕ) (g : K → Option V) (e : K × V)
      → Stores methods new capacity g
      → g e.0 ≡ none
      → 0 < count_free new
      → (p : ℕ) × (p < capacity)
        × (home capacity (hash_elt e.0) ≡ done (hash_elt e.0 % capacity))
        × (find_free new capacity capacity (hash_elt e.0 % capacity) ≡ done p)
        × (store new p (some e) ≡ done (set new p (some e)))
        × (entry new p ≡ none)
        × Stores methods (set new p (some e)) capacity (update methods g e.0 (some e.1))
  unfolding home
  reinsert-one new capacity g e stores fresh room =
      let (q, q_lt, q_free) = entry-of_free new room in
      let q_in : q < capacity = omega (arith, stores.long) in
      let h_lt : hash_elt e.0 % capacity < capacity = mod-lt (hash_elt e.0) (omega arith) in
      let (n, n_lt, empty, filled) =
        free-met new capacity (hash_elt e.0 % capacity) q h_lt q_in q_free in
      let p : ℕ = around capacity (hash_elt e.0 % capacity) n in
      let p_lt : p < capacity = ground arith in
      let p_in : p < length new = omega (arith, stores.long) in
      (
        p,
        p_lt,
        home-some capacity (hash_elt e.0) (omega arith),
        find_free-met new capacity (hash_elt e.0 % capacity) n stores.long h_lt n_lt empty filled,
        store-in new p (some e) p_in,
        empty,
        written-Stores methods law new capacity g stores e.0 e.1 p p_in
            (record { steps = n; steps_lt = n_lt; arrives = refl; filled = filled })
            (λ e' at. absurd (some-ne-none (sym at ∙ empty)))
            (λ i e' at same.
              absurd (some-ne-none (sym (stores.sound i e' at) ∙ ap g same ∙ fresh))),
      )
    where
      home-some : (c h : ℕ) → 0 < c → home c h ≡ done (h % c)
      home-some zero h lt = absurd (omega arith)
      home-some (suc c) h lt = refl

  reinsert-Stores :
      (old new : List (Option (K × V))) (capacity : ℕ) (g : K → Option V)
      → Stores methods new capacity g
      → Distinct old
      → ((p : ℕ) (e : K × V) → entry old p ≡ some e → g e.0 ≡ none)
      → length old < count_free old + count_free new
      → Returns (reinsert methods old new capacity) (λ new'.
        Stores methods new' capacity (overlay old g)
        × (count_free new' + length old ≡ count_free new + count_free old))
  unfolding reinsert overlay
  reinsert-Stores [] new capacity g stores distinct fresh room = (new, refl, (stores, omega arith))
  reinsert-Stores (none ∷ old) new capacity g stores distinct fresh room =
      let (new', ran, (stores', counted)) =
        reinsert-Stores old new capacity g stores
          (λ p q e e' h h' same. suc_inj (distinct (suc p) (suc q) e e' h h' same))
          (λ p e h. fresh (suc p) e h) (omega arith) in
      (new', ran, (stores', omega arith))
    where
      suc_inj : {m n : ℕ} → suc m ≡ suc n → m ≡ n
      suc_inj e = omega arith
  reinsert-Stores (some e ∷ old) new capacity g stores distinct fresh room =
      let (p, p_lt, at_home, found, wrote, empty, stores1) =
        reinsert-one new capacity g e stores (fresh 0 e refl)
          (omega (arith, count_free-le-length old)) in
      let counted1 = count_free-set new p (some e) (omega (arith, stores.long)) in
      let taken : free (entry new p) ≡ 1 = ap free empty in
      let (new', ran, (stores', counted)) =
        reinsert-Stores old (set new p (some e)) capacity (update methods g e.0 (some e.1)) stores1
          (λ i j a b h h' same. suc_inj (distinct (suc i) (suc j) a b h h' same))
          (λ i a h. still_fresh i a h) (omega arith) in
      (new', rw (at_home, found, wrote) ran, (stores', omega arith))
    where
      suc_inj : {m n : ℕ} → suc m ≡ suc n → m ≡ n
      suc_inj e = omega arith

      still_fresh :
          (i : ℕ) (a : K × V) → entry old i ≡ some a → update methods g e.0 (some e.1) a.0 ≡ none
      still_fresh i a h = elim (Bool-cases (equal a.0 e.0)) [
        | inl same ↦
            absurd (apart i (distinct (suc i) 0 a e h refl ((law.equal_iff a.0 e.0).0 same)))
        | inr other ↦ rw other (fresh (suc i) a h)
      ]
        where
          apart : (i : ℕ) → suc i ≡ 0 → ⊥
          apart i e = omega arith

  -- What the map with the elements of an array added gives for a key that is not in the array, and for
  -- one that is.
  overlay-out :
      (old : List (Option (K × V))) (g : K → Option V) (k : K)
      → ((p : ℕ) (e : K × V) → entry old p ≡ some e → e.0 ≡ k → ⊥)
      → overlay old g k ≡ g k
  unfolding overlay
  overlay-out [] g k absent = refl
  overlay-out (none ∷ old) g k absent = overlay-out old g k (λ p e h same. absent (suc p) e h same)
  overlay-out (some e ∷ old) g k absent =
      overlay-out old (update methods g e.0 (some e.1)) k (λ p a h same. absent (suc p) a h same)
      ∙ elim (Bool-cases (equal k e.0)) [
        | inl same ↦ absurd (absent 0 e refl (sym ((law.equal_iff k e.0).0 same)))
        | inr other ↦ rw other refl
      ]

  overlay-in :
      (old : List (Option (K × V))) (g : K → Option V) (p : ℕ) (k : K) (v : V)
      → Distinct old
      → entry old p ≡ some (k, v)
      → overlay old g k ≡ some v
  unfolding overlay
  overlay-in [] g p k v distinct h = absurd (none-ne-some h)
  overlay-in (none ∷ old) g zero k v distinct h = absurd (none-ne-some h)
  overlay-in (none ∷ old) g (suc p) k v distinct h =
      overlay-in old g p k v (λ i j a b x y same. suc_inj (distinct (suc i) (suc j) a b x y same)) h
    where
      suc_inj : {m n : ℕ} → suc m ≡ suc n → m ≡ n
      suc_inj e = omega arith
  overlay-in (some e ∷ old) g (suc p) k v distinct h =
      overlay-in old (update methods g e.0 (some e.1)) p k v
        (λ i j a b x y same. suc_inj (distinct (suc i) (suc j) a b x y same)) h
    where
      suc_inj : {m n : ℕ} → suc m ≡ suc n → m ≡ n
      suc_inj e = omega arith
  overlay-in (some e ∷ old) g zero k v distinct h =
      let key : k ≡ e.0 = cc in
      let value : e.1 ≡ v = cc in
      overlay-out old (update methods g e.0 (some e.1)) k
        (λ p a at same. apart p (distinct (suc p) 0 a e at refl (same ∙ key)))
      ∙ rw ((law.equal_iff k e.0).1 key) (ap some value)
    where
      apart : (p : ℕ) → suc p ≡ 0 → ⊥
      apart p e = omega arith

  pub Stores-ext :
      (xs : List (Option (K × V))) (capacity : ℕ) (f g : K → Option V)
      → ((k : K) → f k ≡ g k)
      → Stores methods xs capacity f
      → Stores methods xs capacity g
  Stores-ext xs capacity f g same stores = subst (Stores methods xs capacity) (fun_ext same) stores

  -- The loop of `ocoms_hash_grow` with more room than elements gives an array that stores the same map.
  pub reinsert-same :
      (old : List (Option (K × V))) (capacity new_capacity : ℕ) (f : K → Option V)
      → Stores methods old capacity f
      → length old < count_free old + new_capacity
      → Returns (reinsert methods old (replicate new_capacity none) new_capacity) (λ new.
        Stores methods new new_capacity f
        × (count_free new + length old ≡ new_capacity + count_free old))
  reinsert-same old capacity new_capacity f stores room =
      let all_free = count_free-replicate (K × V) new_capacity in
      let (new, ran, (stores', counted)) =
        reinsert-Stores old (replicate new_capacity none) new_capacity (λ _. none)
          (Stores-empty methods new_capacity) stores.once (λ p e h. refl)
          (omega (arith, all_free)) in
      (
        new,
        ran,
        (
          Stores-ext new new_capacity (overlay old (λ _. none)) f agrees stores',
          omega (arith, all_free),
        ),
      )
    where
      agrees : (k : K) → overlay old (λ _. none) k ≡ f k
      agrees k = elim (Option-cases (f k)) [
        | inl absent ↦
            overlay-out old (λ _. none) k
              (λ p e h same. some-ne-none (sym (stores.sound p e h) ∙ ap f same ∙ absent))
            ∙ sym absent
        | inr (v, there) ↦
            let (p, at) = stores.complete k v there in
            overlay-in old (λ _. none) p k v stores.once at ∙ sym there
      ]
