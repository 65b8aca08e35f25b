-- ===== src/LinkedList/Parts.antt =====
-- The parts of a chain before and behind a place.
use mathlib.Core.Path.{subst}
use libocoms.Prelude.{
  ℕ, ◌≡◌, ◌≢◌, refl, sym, true, false, Bool-cases, inl, inr, List, [], ◌∷◌, ◌++◌, arith,
}
use libocoms.LinkedList.{Items}
use libocoms.LinkedList.Segment.{Segment, elem, distinct, elem-append, Segment-join, Segment-frame}
use libocoms.LinkedList.Rings.{first, append_nil, not_same}

-- What follows the place, from its first item on.
unfoldable pub Rest : Items → List ℕ → ℕ → Type 0
Rest s [] b = b ≡ b
Rest s (z ∷ zs) b = Segment s z zs b

pub Segment-parts :
    (s : Items) (a : ℕ) (xs zs : List ℕ) (b : ℕ)
    → Segment s a (xs ++ zs) b
    → Segment s a xs (first zs b) × Rest s zs b
unfolding Segment Rest first
Segment-parts s a [] [] b h = (h, refl)
Segment-parts s a [] (z ∷ zs) b h = h
Segment-parts s a (x ∷ xs) zs b (link, h) =
    let (h1, h2) = Segment-parts s x xs zs b h in ((link, h1), h2)

pub Segment-append :
    (s : Items) (a : ℕ) (xs zs : List ℕ) (b : ℕ)
    → Segment s a xs (first zs b)
    → Rest s zs b
    → Segment s a (xs ++ zs) b
unfolding Rest first
Segment-append s a xs [] b h rest = subst (λ ys. Segment s a ys b) (sym (append_nil xs)) h
Segment-append s a xs (z ∷ zs) b h rest = Segment-join s a xs z zs b h rest

pub Rest-frame :
    (s t : Items) (zs : List ℕ) (b : ℕ)
    → Rest s zs b
    → distinct zs ≡ true
    → elem b zs ≡ false
    → ((j : ℕ) → elem j zs ≡ true → t.list_next j ≡ s.list_next j)
    → ((j : ℕ) → elem j (b ∷ zs) ≡ true → j ≢ first zs b → t.list_prev j ≡ s.list_prev j)
    → Rest t zs b
unfolding Rest first elem distinct
Rest-frame s t [] b rest d out same_next same_prev = refl
Rest-frame s t (z ∷ zs) b rest d out same_next same_prev =
    Segment-frame s t z zs b rest same_next
      (λ j e. same_prev j (ground (arith, e)) (not_same j z zs e (ground (arith, d))))
      (same_prev b (ground arith) (λ e. not_same z b (z ∷ zs) (ground arith) out (sym e)))

-- The place's next item is not among those before it.
pub first-out :
    (a : ℕ) (xs zs : List ℕ)
    → distinct xs ≡ true
    → elem a xs ≡ false
    → ((j : ℕ) → elem j xs ≡ true → elem j zs ≡ false)
    → elem (first zs a) xs ≡ false
unfolding first elem
first-out a xs [] d out disjoint = out
first-out a xs (z ∷ zs) d out disjoint = elim (Bool-cases (elem z xs)) [
  | inl e ↦ absurd (clash (disjoint z e))
  | inr e ↦ e
]
  where
    clash : elem z (z ∷ zs) ≡ false → ⊥
    clash h = ground (arith, h)

pub distinct-join :
    (xs ys : List ℕ)
    → distinct xs ≡ true
    → distinct ys ≡ true
    → ((j : ℕ) → elem j xs ≡ true → elem j ys ≡ false)
    → distinct (xs ++ ys) ≡ true
unfolding distinct elem
distinct-join [] ys dx dy disjoint = dy
distinct-join (x ∷ xs) ys dx dy disjoint =
    let rest : distinct (xs ++ ys) ≡ true =
      distinct-join xs ys (ground (arith, dx)) dy (λ j e. disjoint j (ground (arith, e))) in
    let out : elem x ys ≡ false = disjoint x (ground arith) in
    ground (arith, dx, rest, out, elem-append x xs ys)
