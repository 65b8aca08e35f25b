-- ===== src/Lifo/Frame.antt =====
-- What a step of one thread leaves to the others.
use mathlib.Core.Path.{subst}
use libocoms.Prelude.{
  ℕ, ◌==◌, ◌≡◌, ◌≢◌, sym, ap, ◌∙◌, true, false, some, List, arith, inl, inr, Bool-cases, ==_iff,
}
use libocoms.Lifo.{Lifo, Pc, put}
use libocoms.Lifo.Held.{on, Chain, held, Knows, Inv, Agree, Knows-Agree, held-taken}

module _ (m : Lifo) (pc : ℕ → Pc) (l : List ℕ) (t : ℕ) (h : Inv m pc l) where
  open h use {chain, knows, free, once}

  -- A step of `t` that concerns the item `i`, which no other thread works on.
  pub concerning :
      (i : ℕ) (m' : Lifo) (l' : List ℕ) (p : Pc)
      → ((u : ℕ) → u ≢ t → held (pc u) ≡ some i → ⊥)
      → ((j : ℕ) → held p ≡ some j → j ≡ i)
      → Agree i m l m' l'
      → Chain m'.list_next m'.lifo_head l'
      → Knows m' l' p
      → (m'.item_free i ≡ 0 → on i l' ≡ true)
      → Inv m' (put pc t p) l'
  concerning i m' l' p alone new agree chain' knows' free' = record {
    chain = chain';
    knows = λ u. elim (Bool-cases (u == t)) [
      | inl e ↦ rw e knows'
      | inr e ↦ rw e (Knows-Agree agree (pc u) (alone u (apart u t e)) (knows u))
    ];
    free = λ j z. elim (Bool-cases (j == i)) [
      | inl e ↦
          let same = (==_iff j i).0 e in
          subst (λ k. on k l' ≡ true) (sym same) (free' (sym (ap m'.item_free same) ∙ z))
      | inr e ↦ agree.same_on j (apart j i e) ∙ free j (sym (agree.same_free j (apart j i e)) ∙ z)
    ];
    once = λ a b j x y. elim (Bool-cases (a == t)) [
      | inl e ↦ elim (Bool-cases (b == t)) [
        | inl e' ↦ (==_iff a t).0 e ∙ sym ((==_iff b t).0 e')
        | inr e' ↦ absurd (alone b (apart b t e') ((rw e' at y) ∙ ap some (new j (rw e at x))))
      ]
      | inr e ↦ elim (Bool-cases (b == t)) [
        | inl e' ↦ absurd (alone a (apart a t e) ((rw e at x) ∙ ap some (new j (rw e' at y))))
        | inr e' ↦ once a b j (rw e at x) (rw e' at y)
      ]
    ];
  }
    where
      apart : (j k : ℕ) → (j == k) ≡ false → j ≢ k
      apart j k e f = ground arith

  -- Nobody else works on an item that `t` works on, or that is free.
  pub alone_held : (i : ℕ) → held (pc t) ≡ some i → (u : ℕ) → u ≢ t → held (pc u) ≡ some i → ⊥
  alone_held i e u ne f = ne (once u t i f e)

  pub alone_free : (i : ℕ) → m.item_free i ≡ 0 → (u : ℕ) → u ≢ t → held (pc u) ≡ some i → ⊥
  alone_free i z u ne f = absurd (omega (arith, z, held-taken m l (pc u) i (knows u) f))

  -- A step that changes nothing but where the thread stands.
  pub waiting :
      (p : Pc)
      → ((j : ℕ) → held p ≡ some j → held (pc t) ≡ some j)
      → Knows m l p
      → Inv m (put pc t p) l
  waiting p new k = record {
    chain = chain;
    knows = λ u. elim (Bool-cases (u == t)) [ inl e ↦ rw e k | inr e ↦ rw e (knows u) ];
    free = free;
    once = λ a b j x y. once a b j (was a j x) (was b j y);
  }
    where
      was : (a j : ℕ) → held (put pc t p a) ≡ some j → held (pc a) ≡ some j
      was a j x = elim (Bool-cases (a == t)) [
        | inl e ↦ subst (λ b. held (pc b) ≡ some j) (sym ((==_iff a t).0 e)) (new j (rw e at x))
        | inr e ↦ rw e at x
      ]
