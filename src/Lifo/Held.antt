-- ===== src/Lifo/Held.antt =====
-- What holds between two steps: the items on the stack form a chain, and the items that a thread works
-- on are its own.
use mathlib.Core.Path.{subst}
use libocoms.Prelude.{
  ℕ, ◌==◌, ◌≡◌, ◌≢◌, refl, sym, ap, ◌∙◌, Bool, true, false, Option, none, some, List, [], ◌∷◌, ◌||◌,
  arith, inl, inr, Bool-cases, none-ne-some, ==_iff,
}
use libocoms.Lifo.{
  construct, Lifo, Pc, idle, holds, pushing, got_head, linked, won, returning, pushed, popping,
  seen, locked, has_next, failed, popped, ghost, put,
}

unfoldable pub on : ℕ → List ℕ → Bool
on i [] = false
on i (x ∷ xs) = i == x || on i xs

-- The items behind a pointer, all different.
abbrev pub Chain : (ℕ → ℕ) → ℕ → List ℕ → Type 0
Chain next p [] = p ≡ ghost
Chain next p (x ∷ xs) = (p ≡ x) × (x ≢ ghost) × (on x xs ≡ false) × Chain next (next x) xs

-- The item that a thread works on.
abbrev pub held : Pc → Option ℕ
held (holds i) = some i
held (pushing i) = some i
held (got_head i h) = some i
held (linked i) = some i
held (won i) = some i
held (locked i) = some i
held (has_next i n) = some i
held (failed i) = some i
held (popped i) = some i
held _ = none

-- An item in hand, and one on the stack that no other thread may take.
abbrev pub Out : Lifo → List ℕ → ℕ → Type 0
Out m l i = (on i l ≡ false) × (m.item_free i ≡ 1) × (i ≢ ghost)

abbrev pub Locked : Lifo → List ℕ → ℕ → Type 0
Locked m l i = (on i l ≡ true) × (m.item_free i ≡ 1)

-- What a thread knows of the stack `l`.
abbrev pub Knows : Lifo → List ℕ → Pc → Type 0
Knows m l (holds i) = Out m l i
Knows m l (pushing i) = Out m l i
Knows m l (got_head i h) = Out m l i
Knows m l (linked i) = Out m l i
Knows m l (won i) = Locked m l i
Knows m l (seen i) = i ≢ ghost
Knows m l (locked i) = Locked m l i
Knows m l (has_next i n) = Locked m l i × (m.list_next i ≡ n)
Knows m l (failed i) = Locked m l i
Knows m l (popped i) = Out m l i
Knows m l _ = Unit

pub record Inv (m : Lifo) (pc : ℕ → Pc) (l : List ℕ) : Type 0 where
  pub chain : Chain m.list_next m.lifo_head l
  pub knows : (t : ℕ) → Knows m l (pc t)
  pub free : (i : ℕ) → m.item_free i ≡ 0 → on i l ≡ true
  pub once : (t u i : ℕ) → held (pc t) ≡ some i → held (pc u) ≡ some i → t ≡ u

-- The stacks are the same but for the item `i`.
pub record Agree (i : ℕ) (m : Lifo) (l : List ℕ) (m' : Lifo) (l' : List ℕ) : Type 0 where
  pub same_next : (j : ℕ) → j ≢ i → m'.list_next j ≡ m.list_next j
  pub same_free : (j : ℕ) → j ≢ i → m'.item_free j ≡ m.item_free j
  pub same_on : (j : ℕ) → j ≢ i → on j l' ≡ on j l

module _ {i : ℕ} {m : Lifo} {l : List ℕ} {m' : Lifo} {l' : List ℕ} (a : Agree i m l m' l') where
  Out-Agree : (j : ℕ) → j ≢ i → Out m l j → Out m' l' j
  Out-Agree j ne (off, f, g) = (a.same_on j ne ∙ off, a.same_free j ne ∙ f, g)

  Locked-Agree : (j : ℕ) → j ≢ i → Locked m l j → Locked m' l' j
  Locked-Agree j ne (off, f) = (a.same_on j ne ∙ off, a.same_free j ne ∙ f)

  -- A thread that works on another item knows the same of the new stack.
  pub Knows-Agree : (p : Pc) → (held p ≡ some i → ⊥) → Knows m l p → Knows m' l' p
  Knows-Agree (holds j) ne k = Out-Agree j (λ e. ne (ap some e)) k
  Knows-Agree (pushing j) ne k = Out-Agree j (λ e. ne (ap some e)) k
  Knows-Agree (got_head j h) ne k = Out-Agree j (λ e. ne (ap some e)) k
  Knows-Agree (linked j) ne k = Out-Agree j (λ e. ne (ap some e)) k
  Knows-Agree (won j) ne k = Locked-Agree j (λ e. ne (ap some e)) k
  Knows-Agree (seen j) ne k = k
  Knows-Agree (locked j) ne k = Locked-Agree j (λ e. ne (ap some e)) k
  Knows-Agree (has_next j n) ne (k, e) =
      (Locked-Agree j (λ e. ne (ap some e)) k, a.same_next j (λ e. ne (ap some e)) ∙ e)
  Knows-Agree (failed j) ne k = Locked-Agree j (λ e. ne (ap some e)) k
  Knows-Agree (popped j) ne k = Out-Agree j (λ e. ne (ap some e)) k
  Knows-Agree idle ne k = tt
  Knows-Agree (returning j) ne k = tt
  Knows-Agree (pushed r) ne k = tt
  Knows-Agree popping ne k = tt

-- A held item is marked as taken.
module _ (m : Lifo) (l : List ℕ) where
  taken : (j i : ℕ) → some j ≡ some i → m.item_free j ≡ 1 → m.item_free i ≡ 1
  taken j i e f = cc

  pub held-taken : (p : Pc) (i : ℕ) → Knows m l p → held p ≡ some i → m.item_free i ≡ 1
  held-taken (holds j) i (off, f, g) e = taken j i e f
  held-taken (pushing j) i (off, f, g) e = taken j i e f
  held-taken (got_head j h) i (off, f, g) e = taken j i e f
  held-taken (linked j) i (off, f, g) e = taken j i e f
  held-taken (won j) i (here, f) e = taken j i e f
  held-taken (locked j) i (here, f) e = taken j i e f
  held-taken (has_next j n) i ((here, f), next) e = taken j i e f
  held-taken (failed j) i (here, f) e = taken j i e f
  held-taken (popped j) i (off, f, g) e = taken j i e f
  held-taken idle i k e = absurd (none-ne-some e)
  held-taken (returning j) i k e = absurd (none-ne-some e)
  held-taken (pushed r) i k e = absurd (none-ne-some e)
  held-taken popping i k e = absurd (none-ne-some e)
  held-taken (seen j) i k e = absurd (none-ne-some e)

or-false : (a b : Bool) → a || b ≡ false → (a ≡ false) × (b ≡ false)
or-false a b e = ground arith

-- A write to the link of an item that is not on the stack leaves the chain.
pub Chain-put :
    (next : ℕ → ℕ) (p i v : ℕ) (l : List ℕ)
    → on i l ≡ false
    → Chain next p l
    → Chain (put next i v) p l
unfolding on
Chain-put next p i v [] off c = c
Chain-put next p i v (x ∷ xs) off (e, g, fresh, c) =
    let (apart, off') = or-false (i == x) (on i xs) off in
    let same : put next i v x ≡ next x = ground (arith, apart) in
    (e, g, fresh, rw same (Chain-put next (next x) i v xs off' c))

-- An item on the stack is not the ghost.
pub on-item : (next : ℕ → ℕ) (p i : ℕ) (l : List ℕ) → Chain next p l → on i l ≡ true → i ≢ ghost
unfolding on
on-item next p i [] c e = absurd (ground arith)
on-item next p i (x ∷ xs) (f, g, fresh, c) e = elim (Bool-cases (i == x)) [
  | inl same ↦ λ k. g (omega (arith, (==_iff i x).0 same))
  | inr other ↦ on-item next (next x) i xs c (rw other at e)
]

-- The stack whose first item is known.
pub Chain-head :
    (next : ℕ → ℕ) (i : ℕ) (l : List ℕ)
    → Chain next i l
    → i ≢ ghost
    → (l' : List ℕ) × (l ≡ i ∷ l') × (on i l' ≡ false) × Chain next (next i) l'
Chain-head next i [] c ne = absurd (ne c)
Chain-head next i (x ∷ xs) (e, g, fresh, c) ne = (
  xs,
  ap (λ y. y ∷ xs) (sym e),
  subst (λ y. on y xs ≡ false) (sym e) fresh,
  subst (λ y. Chain next (next y) xs) (sym e) c,
)

pub Chain-ghost : (next : ℕ → ℕ) (p : ℕ) (l : List ℕ) → Chain next p l → p ≡ ghost → l ≡ []
Chain-ghost next p [] c e = refl
Chain-ghost next p (x ∷ xs) (f, g, fresh, rest) e = absurd (g (sym f ∙ e))

-- A thread before its first call: without an item, or with one that is not in any list.
abbrev pub InHand : Lifo → Pc → Type 0
InHand m idle = Unit
InHand m (holds i) = (m.item_free i ≡ 1) × (i ≢ ghost)
InHand m _ = ⊥

-- After the constructor the stack is empty.
pub construct-Inv :
    (m : Lifo) (pc : ℕ → Pc)
    → ((t : ℕ) → InHand m (pc t))
    → ((i : ℕ) → m.item_free i ≢ 0)
    → ((t u i : ℕ) → held (pc t) ≡ some i → held (pc u) ≡ some i → t ≡ u)
    → Inv (construct m) pc []
unfolding construct on
construct-Inv m pc hands outside once = record {
  chain = refl;
  knows = λ t. knows (pc t) (hands t);
  free = λ i z. absurd (outside i (ground (arith, z)));
  once = once;
}
  where
    knows : (p : Pc) → InHand m p → Knows (construct m) [] p
    knows idle h = tt
    knows (holds i) (f, g) = (refl, ground (arith, f, g), g)
    knows p h = absurd h
