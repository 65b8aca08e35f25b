-- ===== src/LinkedList/Segment.antt =====
-- Chains of linked items.
use libocoms.Prelude.{
  ℕ, ◌==◌, ◌≡◌, ◌≢◌, refl, ap, ◌∙◌, Bool, true, false, ◌&&◌, ◌||◌, not, some, List, [], ◌∷◌, ◌++◌,
  arith,
}
use libocoms.LinkedList.{Items}

-- `b` follows `a`.
abbrev pub Linked : Items → (a b : ℕ) → Type 0
Linked s a b = (s.list_next a ≡ some b) × (s.list_prev b ≡ some a)

-- From `a` over `xs` to `b`.
unfoldable pub Segment : Items → ℕ → List ℕ → ℕ → Type 0
Segment s a [] b = Linked s a b
Segment s a (x ∷ xs) b = Linked s a x × Segment s x xs b

-- the last of `a` and `xs`
unfoldable pub end : ℕ → List ℕ → ℕ
end a [] = a
end a (x ∷ xs) = end x xs

unfoldable pub elem : ℕ → List ℕ → Bool
elem j [] = false
elem j (x ∷ xs) = j == x || elem j xs

unfoldable pub distinct : List ℕ → Bool
distinct [] = true
distinct (x ∷ xs) = not (elem x xs) && distinct xs

pub end-elem : (a : ℕ) (xs : List ℕ) → elem (end a xs) (a ∷ xs) ≡ true
unfolding end elem
end-elem a [] = ground arith
end-elem a (x ∷ xs) = ground (arith, end-elem x xs)

pub elem-append : (j : ℕ) (xs ys : List ℕ) → elem j (xs ++ ys) ≡ (elem j xs || elem j ys)
unfolding elem
elem-append j [] ys = refl
elem-append j (x ∷ xs) ys = ground (arith, elem-append j xs ys)

-- Distinct items of an append: each part has them, and none is in both.
pub distinct-append :
    (xs ys : List ℕ)
    → distinct (xs ++ ys) ≡ true
    → (distinct xs ≡ true) × (distinct ys ≡ true) × ((j : ℕ) → elem j xs ≡ true → elem j ys ≡ false)
unfolding distinct elem
distinct-append [] ys h = (refl, h, λ j e. absurd (cc))
distinct-append (x ∷ xs) ys h =
    let rest : distinct (xs ++ ys) ≡ true = ground (arith, h) in
    let (dx, dy, apart) = distinct-append xs ys rest in
    (
      ground (arith, h, dx, elem-append x xs ys),
      dy,
      λ j e. ground (arith, h, e, apart j, elem-append x xs ys),
    )

pub Segment-split :
    (s : Items) (a : ℕ) (xs : List ℕ) (y : ℕ) (ys : List ℕ) (b : ℕ)
    → Segment s a (xs ++ y ∷ ys) b
    → Segment s a xs y × Segment s y ys b
unfolding Segment
Segment-split s a [] y ys b h = h
Segment-split s a (x ∷ xs) y ys b (link, h) =
    let (h1, h2) = Segment-split s x xs y ys b h in ((link, h1), h2)

pub Segment-join :
    (s : Items) (a : ℕ) (xs : List ℕ) (y : ℕ) (ys : List ℕ) (b : ℕ)
    → Segment s a xs y
    → Segment s y ys b
    → Segment s a (xs ++ y ∷ ys) b
unfolding Segment
Segment-join s a [] y ys b h h' = (h, h')
Segment-join s a (x ∷ xs) y ys b (link, h) h' = (link, Segment-join s x xs y ys b h h')

-- A segment after writes that change at most what follows its last item.
pub Segment-redirect :
    (s t : Items) (a : ℕ) (xs : List ℕ) (b c : ℕ)
    → Segment s a xs b
    → distinct (a ∷ xs) ≡ true
    → ((j : ℕ) → elem j (a ∷ xs) ≡ true → j ≢ end a xs → t.list_next j ≡ s.list_next j)
    → ((j : ℕ) → elem j xs ≡ true → t.list_prev j ≡ s.list_prev j)
    → Linked t (end a xs) c
    → Segment t a xs c
unfolding Segment end elem distinct
Segment-redirect s t a [] b c h d same_next same_prev link = link
Segment-redirect s t a (x ∷ xs) b c ((next, prev), h) d same_next same_prev link = (
  (
    same_next a (ground arith) (λ e. not_end e (end-elem x xs)) ∙ next,
    same_prev x (ground arith) ∙ prev,
  ),
  Segment-redirect s t x xs b c h (ground (arith, d)) (λ j e ne. same_next j (ground (arith, e)) ne)
      (λ j e. same_prev j (ground (arith, e))) link,
)
  where
    not_end : a ≡ end x xs → elem (end x xs) (x ∷ xs) ≡ true → ⊥
    not_end e inside =
        let here : elem a (x ∷ xs) ≡ true = ap (λ j. elem j (x ∷ xs)) e ∙ inside in
        ground (arith, d, here)

-- A segment after writes elsewhere.
pub Segment-frame :
    (s t : Items) (a : ℕ) (xs : List ℕ) (b : ℕ)
    → Segment s a xs b
    → ((j : ℕ) → elem j (a ∷ xs) ≡ true → t.list_next j ≡ s.list_next j)
    → ((j : ℕ) → elem j xs ≡ true → t.list_prev j ≡ s.list_prev j)
    → t.list_prev b ≡ s.list_prev b
    → Segment t a xs b
unfolding Segment elem
Segment-frame s t a [] b (next, prev) same_next same_prev last =
    (same_next a (ground arith) ∙ next, last ∙ prev)
Segment-frame s t a (x ∷ xs) b ((next, prev), h) same_next same_prev last = (
  (same_next a (ground arith) ∙ next, same_prev x (ground arith) ∙ prev),
  Segment-frame s t x xs b h (λ j e. same_next j (ground (arith, e)))
      (λ j e. same_prev j (ground (arith, e))) last,
)
