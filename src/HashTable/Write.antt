-- ===== src/HashTable/Write.antt =====
-- Storing a new element, and a new value in an old one.
use mathlib.Core.Path.{subst}
use native.Mathlib.Decide.{ℕ_discrete}
use libocoms.Prelude.{
  ℕ, ◌%◌, ◌<◌, ◌==◌, ◌≡◌, ◌≢◌, refl, sym, ap, ◌∙◌, inl, inr, if◌then◌else◌, false, Bool-cases,
  Option, some, List, length, set, arith, length-set,
}
use libocoms.Prelude.Slots.{entry, entry-set}
use libocoms.HashTable.{KeyMethods}
use libocoms.HashTable.Probe.{around}
use libocoms.HashTable.View.{IsKey, update, Reached, Stores}

module _ {ℓ} {K V : Type ℓ} (methods : KeyMethods K) (law : IsKey methods) where
  open methods use {equal, hash_elt}

  module _ (xs : List (Option (K × V))) (capacity : ℕ) (f : K → Option V)
      (stores : Stores methods xs capacity f) (k : K) (v : V) (p : ℕ) (p_lt : p < length xs) where
    written : List (Option (K × V))
    written = set xs p (some (k, v))

    entry-written : (q : ℕ) → entry written q ≡ (if q == p then some (k, v) else entry xs q)
    unfolding written
    entry-written q = entry-set xs p q (some (k, v)) p_lt

    at_p : entry written p ≡ some (k, v)
    at_p = ground (arith, entry-written p)

    elsewhere : (q : ℕ) → q ≢ p → entry written q ≡ entry xs q
    elsewhere q ne = ground (arith, entry-written q)

    still_valid :
        (q : ℕ) (e : K × V) → entry xs q ≡ some e → (e' : K × V) × (entry written q ≡ some e')
    still_valid q e h = elim (ℕ_discrete q p) [
      | yes same ↦ ((k, v), ap (entry written) same ∙ at_p)
      | no ne ↦ (e, elsewhere q ne ∙ h)
    ]

    Reached-written :
        (k' : K) (q : ℕ) → Reached methods xs capacity k' q → Reached methods written capacity k' q
    Reached-written k' q r = record {
      steps = r.steps;
      steps_lt = r.steps_lt;
      arrives = r.arrives;
      filled = λ m lt.
          let (e, h) = r.filled m lt in
          still_valid (around capacity (hash_elt k' % capacity) m) e h;
    }

    update_self : update methods f k (some v) k ≡ some v
    update_self = rw ((law.equal_iff k k).1 refl) refl

    update_other : (k' : K) → (k' ≡ k → ⊥) → update methods f k (some v) k' ≡ f k'
    update_other k' ne = elim (Bool-cases (equal k' k)) [
      | inl same ↦ absurd (ne ((law.equal_iff k' k).0 same))
      | inr e ↦ rw e refl
    ]

    -- What stands in the array after the write.
    data Entry : ℕ → K × V → Type ℓ where
      new : {q : ℕ} {e : K × V} → q ≡ p → e.0 ≡ k → e.1 ≡ v → Entry q e
      old : {q : ℕ} {e : K × V} → q ≢ p → entry xs q ≡ some e → Entry q e

    of_written : (q : ℕ) (e : K × V) → entry written q ≡ some e → Entry q e
    of_written q e h = elim (ℕ_discrete q p) [
      | yes same ↦
          let here : some (k, v) ≡ some e = sym at_p ∙ ap (entry written) (sym same) ∙ h in
          new same (cc) (cc)
      | no ne ↦ old ne (sym (elsewhere q ne) ∙ h)
    ]

    -- A write at `p` of an element that is in reach there, when no other element has the key.
    module _ (reached : Reached methods xs capacity k p)
        (same_key : (e : K × V) → entry xs p ≡ some e → e.0 ≡ k)
        (only : (q : ℕ) (e : K × V) → entry xs q ≡ some e → e.0 ≡ k → q ≡ p) where
      sound-written : (q : ℕ) (e : K × V) → Entry q e → update methods f k (some v) e.0 ≡ some e.1
      sound-written q e (new at key value) =
          ap (update methods f k (some v)) key ∙ update_self ∙ ap some (sym value)
      sound-written q e (old ne h) =
          update_other e.0 (λ key. ne (only q e h key)) ∙ stores.sound q e h

      complete-written :
          (k' : K) (w : V)
          → update methods f k (some v) k' ≡ some w
          → (q : ℕ) × (entry written q ≡ some (k', w))
      complete-written k' w h = elim (Bool-cases (equal k' k)) [
        | inl e ↦
            let value : some v ≡ some w = ap (λ b. if b then some v else f k') (sym e) ∙ h in
            let key : k' ≡ k = (law.equal_iff k' k).0 e in (p, at_p ∙ cc)
        | inr e ↦
            let there : f k' ≡ some w = ap (λ b. if b then some v else f k') (sym e) ∙ h in
            let (q, at) = stores.complete k' w there in
            (
              q,
              elsewhere q (λ same. differs k' e (same_key (k', w) (ap (entry xs) (sym same) ∙ at)))
                  ∙ at,
            )
      ]
        where
          differs : (k' : K) → equal k' k ≡ false → k' ≡ k → ⊥
          differs k' e same = let t = (law.equal_iff k' k).1 same in cc

      placed-written : (q : ℕ) (e : K × V) → Entry q e → Reached methods written capacity e.0 q
      placed-written q e (new at key value) =
          subst (λ i. Reached methods written capacity e.0 i) (sym at)
            (subst (λ k'. Reached methods written capacity k' p) (sym key)
              (Reached-written k p reached))
      placed-written q e (old ne h) = Reached-written e.0 q (stores.placed q e h)

      once-written : (q q' : ℕ) (e e' : K × V) → Entry q e → Entry q' e' → e.0 ≡ e'.0 → q ≡ q'
      once-written q q' e e' (new at key _) (new at' key' _) same = at ∙ sym at'
      once-written q q' e e' (new at key _) (old ne h) same =
          absurd (ne (only q' e' h (sym same ∙ key)))
      once-written q q' e e' (old ne h) (new at key _) same = absurd (ne (only q e h (same ∙ key)))
      once-written q q' e e' (old ne h) (old ne' h') same = stores.once q q' e e' h h' same

      pub written-Stores :
          Stores methods (set xs p (some (k, v))) capacity (update methods f k (some v))
      unfolding written
      written-Stores = record {
        long = length-set xs p (some (k, v)) ∙ stores.long;
        sound = λ q e h. sound-written q e (of_written q e h);
        complete = complete-written;
        placed = λ q e h. placed-written q e (of_written q e h);
        once = λ q q' e e' h h' same.
            once-written q q' e e' (of_written q e h) (of_written q' e' h') same;
      }
