-- ===== src/Lifo/Commits.antt =====
-- Every step of a thread is one of a stack on which pushes and pops happen at once, or changes nothing.
use mathlib.Core.Path.{subst}
use libocoms.Prelude.{
  ℕ, ◌==◌, ◌≡◌, ◌≢◌, refl, sym, ap, ◌∙◌, if◌then◌else◌, true, none, some, List, [], ◌∷◌, arith, inl,
  inr, Bool-cases, none-ne-some, ==_iff,
}
use libocoms.Lifo.{
  Lifo, Pc, idle, holds, pushing, got_head, linked, won, returning, pushed, popping, seen, locked,
  has_next, failed, popped, null, ghost, put, cmpset_free, move,
}
use libocoms.Lifo.Held.{
  on, Chain, held, Out, Locked, Knows, Inv, Chain-put, Chain-head, Chain-ghost, on-item,
}
use libocoms.Lifo.Frame.{concerning, alone_held, alone_free, waiting}

-- What happens to the stack in a step.
pub data Effect : Type 0 where
  nothing found_empty : Effect
  pushes pops : (item : ℕ) → Effect

-- A push happens when the compare-and-swap of the head succeeds, a pop likewise, and a pop of an empty
-- stack when the head is read.
unfoldable pub effect : Lifo → Pc → Effect
effect m (linked item) = if m.lifo_head == m.list_next item then pushes item else nothing
effect m (has_next item next) = if m.lifo_head == item then pops item else nothing
effect m popping = if m.lifo_head == ghost then found_empty else nothing
effect m _ = nothing

abbrev pub Commits : Effect → List ℕ → List ℕ → Type 0
Commits nothing l l' = l' ≡ l
Commits found_empty l l' = (l ≡ []) × (l' ≡ [])
Commits (pushes item) l l' = l' ≡ item ∷ l
Commits (pops item) l l' = l ≡ item ∷ l'

module _ (m : Lifo) (pc : ℕ → Pc) (l : List ℕ) (t : ℕ) (h : Inv m pc l) where
  open h use {chain, knows, free, once}

  -- What the thread does next, where it stands at `p`.
  abbrev pub Steps : Pc → Type 0
  Steps p = (l' : List ℕ) × Inv (move m p).0 (put pc t (move m p).1) l' × Commits (effect m p) l l'

  module _ (p : Pc) (e : pc t ≡ p) where
    known : Knows m l p
    known = subst (Knows m l) e (knows t)

    waits :
        (q : Pc)
        → ((j : ℕ) → held q ≡ some j → held p ≡ some j)
        → Knows m l q
        → Inv m (put pc t q) l
    waits q new k = waiting m pc l t h q (λ j f. subst (λ b. held b ≡ some j) (sym e) (new j f)) k

    alone_at : (i : ℕ) → held p ≡ some i → (u : ℕ) → u ≢ t → held (pc u) ≡ some i → ⊥
    alone_at i f = alone_held m pc l t h i (subst (λ b. held b ≡ some i) (sym e) f)

  only : {i : ℕ} (j : ℕ) → some i ≡ some j → j ≡ i
  only j e = cc

  -- The link of an item in hand is written.
  relink :
      (i v : ℕ) (q : Pc)
      → Out m l i
      → ((u : ℕ) → u ≢ t → held (pc u) ≡ some i → ⊥)
      → ((j : ℕ) → held q ≡ some j → j ≡ i)
      → Knows (record m { list_next = put m.list_next i v }) l q
      → Inv (record m { list_next = put m.list_next i v }) (put pc t q) l
  relink i v q out alone new k =
      concerning m pc l t h i _ l q alone new
        (record {
          same_next = λ j ne. ground arith;
          same_free = λ j ne. refl;
          same_on = λ j ne. refl;
        })
        (Chain-put m.list_next m.lifo_head i v l out.0 chain) k (λ z. free i z)

  -- `item_free` of an item on the stack is written.
  refree :
      (i v : ℕ) (q : Pc)
      → on i l ≡ true
      → ((u : ℕ) → u ≢ t → held (pc u) ≡ some i → ⊥)
      → ((j : ℕ) → held q ≡ some j → j ≡ i)
      → Knows (record m { item_free = put m.item_free i v }) l q
      → Inv (record m { item_free = put m.item_free i v }) (put pc t q) l
  refree i v q here alone new k =
      concerning m pc l t h i _ l q alone new
        (record {
          same_next = λ j ne. refl;
          same_free = λ j ne. ground arith;
          same_on = λ j ne. refl;
        })
        chain k (λ z. here)

  push_win :
      (i : ℕ)
      → pc t ≡ linked i
      → m.lifo_head ≡ m.list_next i
      → Inv (record m { lifo_head = i }) (put pc t (won i)) (i ∷ l)
  unfolding on
  push_win i e f =
      let (off, one, item) = known (linked i) e in
      concerning m pc l t h i (record m { lifo_head = i }) (i ∷ l) (won i)
        (alone_at (linked i) e i refl) only
        (record {
          same_next = λ j ne. refl;
          same_free = λ j ne. refl;
          same_on = λ j ne. ground arith;
        })
        (refl, item, off, subst (λ p. Chain m.list_next p l) f chain) (ground arith, one)
        (λ z. ground arith)

  -- The item at the head is taken off.
  pop_win :
      (i n : ℕ)
      → pc t ≡ has_next i n
      → m.lifo_head ≡ i
      → (l' : List ℕ) × Inv (record m { lifo_head = n }) (put pc t (popped i)) l' × (l ≡ i ∷ l')
  unfolding on
  pop_win i n e f =
      let ((here, one), linked_to) = known (has_next i n) e in
      let item = on-item m.list_next m.lifo_head i l chain here in
      let (l', split, off, rest) =
        Chain-head m.list_next i l (subst (λ p. Chain m.list_next p l) f chain) item in
      (
        l',
        concerning m pc l t h i (record m { lifo_head = n }) l' (popped i)
            (alone_at (has_next i n) e i refl) only
            (record {
              same_next = λ j ne. refl;
              same_free = λ j ne. refl;
              same_on = λ j ne. sym (ap (on j) split ∙ other j i l' ne);
            })
            (subst (λ p. Chain m.list_next p l') linked_to rest) (off, one, item)
            (λ z. absurd (omega (arith, z, one))),
        split,
      )
    where
      other : (j k : ℕ) (xs : List ℕ) → j ≢ k → on j (k ∷ xs) ≡ on j xs
      other j k xs ne = ground arith

  -- A write of `item_free` by the thread that works on the item.
  release :
      (i : ℕ) (q : Pc)
      → Locked m l i
      → ((u : ℕ) → u ≢ t → held (pc u) ≡ some i → ⊥)
      → held q ≡ none
      → Knows (record m { item_free = put m.item_free i 0 }) l q
      → Inv (cmpset_free m i 1 0) (put pc t q) l
  release i q (here, one) alone new k =
      rw one (refree i 0 q here alone (λ j f. absurd (none-ne-some (sym new ∙ f))) k)

  pub step_at : (p : Pc) → pc t ≡ p → Steps p
  unfolding move effect
  step_at idle e = (l, waits idle e popping (λ j f. f) tt, refl)
  step_at (holds i) e = (l, waits (holds i) e (pushing i) (λ j f. f) (known (holds i) e), refl)
  step_at (pushing i) e =
      (l, waits (pushing i) e (got_head i m.lifo_head) (λ j f. f) (known (pushing i) e), refl)
  step_at (got_head i head) e =
      let out = known (got_head i head) e in
      (l, relink i head (linked i) out (alone_at (got_head i head) e i refl) only out, refl)
  step_at (linked i) e = elim (Bool-cases (m.lifo_head == m.list_next i)) [
    | inl f ↦ rw f (i ∷ l, push_win i e ((==_iff m.lifo_head (m.list_next i)).0 f), refl)
    | inr f ↦ rw f (l, waits (linked i) e (pushing i) (λ j g. g) (known (linked i) e), refl)
  ]
  step_at (won i) e =
      (l, release i (returning i) (known (won i) e) (alone_at (won i) e i refl) refl tt, refl)
  step_at (returning i) e = (l, waits (returning i) e (pushed (m.list_next i)) (λ j f. f) tt, refl)
  step_at (pushed r) e = (l, waits (pushed r) e idle (λ j f. f) tt, refl)
  step_at popping e = elim (Bool-cases (m.lifo_head == ghost)) [
    | inl f ↦
        let none_left =
          Chain-ghost m.list_next m.lifo_head l chain ((==_iff m.lifo_head ghost).0 f) in
        rw f (l, waits popping e idle (λ j g. g) tt, (none_left, none_left))
    | inr f ↦
        rw f (l, waits popping e (seen m.lifo_head) (λ j g. g) (λ g. ground (arith, f, g)), refl)
  ]
  step_at (seen i) e = elim (Bool-cases (m.item_free i == 0)) [
    | inl f ↦
        let z = (==_iff (m.item_free i) 0).0 f in
        let here = free i z in
        rw f (
          l,
          refree i 1 (locked i) here (alone_free m pc l t h i z) only (here, ground arith),
          refl,
        )
    | inr f ↦ rw f (l, waits (seen i) e popping (λ j g. absurd (none-ne-some g)) tt, refl)
  ]
  step_at (locked i) e =
      let here = known (locked i) e in
      (l, waits (locked i) e (has_next i (m.list_next i)) (λ j f. f) (here, refl), refl)
  step_at (has_next i n) e = elim (Bool-cases (m.lifo_head == i)) [
    | inl f ↦ rw f (pop_win i n e ((==_iff m.lifo_head i).0 f))
    | inr f ↦
        rw f (l, waits (has_next i n) e (failed i) (λ j g. g) (known (has_next i n) e).0, refl)
  ]
  step_at (failed i) e =
      (l, release i popping (known (failed i) e) (alone_at (failed i) e i refl) refl tt, refl)
  step_at (popped i) e =
      let out = known (popped i) e in
      (l, relink i null (holds i) out (alone_at (popped i) e i refl) only out, refl)
