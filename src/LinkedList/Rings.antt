-- ===== src/LinkedList/Rings.antt =====
-- The ring of a list: the chain from its sentinel over its items back to it, after an item is put in
-- or taken out.
use libocoms.Prelude.{
  ℕ, ◌+◌, ◌<◌, ◌^◌, ◌≡◌, ◌≢◌, refl, sym, ap, ◌∙◌, true, false, some, List, [], ◌∷◌, ◌++◌, length,
  arith,
}
use mathlib.Core.Path.{subst}
use libocoms.LinkedList.{Items}
use libocoms.LinkedList.Segment.{
  Linked, Segment, end, elem, distinct, end-elem, elem-append, distinct-append, Segment-split,
  Segment-join, Segment-redirect, Segment-frame,
}

-- the first of `xs`, or else `b`
unfoldable pub first : List ℕ → ℕ → ℕ
first [] b = b
first (x ∷ xs) b = x

-- The list `l` holds the items `xs`.
pub record IsList (s : Items) (l : ℕ) (xs : List ℕ) : Type 0 where
  pub ring : Segment s l xs l
  pub apart : distinct (l ∷ xs) ≡ true
  pub counted : s.list_length l ≡ length xs
  pub bounded : length xs < 2 ^ 64

-- `i` is put between `p` and `n`.
pub record Inserted (s t : Items) (p n i : ℕ) : Type 0 where
  pub next_p : t.list_next p ≡ some i
  pub next_i : t.list_next i ≡ some n
  pub next_other : (j : ℕ) → j ≢ p → j ≢ i → t.list_next j ≡ s.list_next j
  pub prev_n : t.list_prev n ≡ some i
  pub prev_i : t.list_prev i ≡ some p
  pub prev_other : (j : ℕ) → j ≢ n → j ≢ i → t.list_prev j ≡ s.list_prev j

-- What lies between `p` and `n` is taken out.
pub record Closed (s t : Items) (p n : ℕ) : Type 0 where
  pub next_p : t.list_next p ≡ some n
  pub next_other : (j : ℕ) → j ≢ p → t.list_next j ≡ s.list_next j
  pub prev_n : t.list_prev n ≡ some p
  pub prev_other : (j : ℕ) → j ≢ n → t.list_prev j ≡ s.list_prev j

pub not_same : (j k : ℕ) (xs : List ℕ) → elem j xs ≡ true → elem k xs ≡ false → j ≢ k
not_same j k xs h h' e = absurd (clash (sym h ∙ ap (λ i. elem i xs) e ∙ h'))
  where
    clash : true ≡ false → ⊥
    clash e = cc

pub append_nil : (xs : List ℕ) → xs ++ [] ≡ xs
append_nil [] = refl
append_nil (x ∷ xs) = ap (λ ys. x ∷ ys) (append_nil xs)

module _ (s t : Items) (l : ℕ) (ys : List ℕ) where
  -- The part before the place, when only its end gets another successor, for a list that ends there and
  -- for one that goes on.
  module _ (c : ℕ) (link : Linked t (end l ys) c) where
    redirect_last :
        Segment s l (ys ++ []) l
        → distinct (l ∷ (ys ++ [])) ≡ true
        → ((j : ℕ) → elem j (l ∷ ys) ≡ true → j ≢ end l ys → t.list_next j ≡ s.list_next j)
        → ((j : ℕ) → elem j (l ∷ ys) ≡ true → j ≢ l → t.list_prev j ≡ s.list_prev j)
        → Segment t l ys c
    unfolding elem distinct
    redirect_last ring apart same_next same_prev =
        let plain : distinct (l ∷ ys) ≡ true =
          subst (λ xs. distinct (l ∷ xs) ≡ true) (append_nil ys) apart in
        Segment-redirect s t l ys l c (subst (λ xs. Segment s l xs l) (append_nil ys) ring) plain
          same_next
          (λ j e. same_prev j (ground (arith, e)) (not_same j l ys e (ground (arith, plain)))) link

    redirect_front :
        (z : ℕ) (zs : List ℕ)
        → Segment s l ys z
        → distinct (l ∷ ys) ≡ true
        → ((j : ℕ) → elem j (l ∷ ys) ≡ true → elem j (z ∷ zs) ≡ false)
        → ((j : ℕ) → elem j (l ∷ ys) ≡ true → j ≢ end l ys → t.list_next j ≡ s.list_next j)
        → ((j : ℕ) → elem j (l ∷ ys) ≡ true → j ≢ z → t.list_prev j ≡ s.list_prev j)
        → Segment t l ys c
    unfolding elem
    redirect_front z zs before d disjoint same_next same_prev =
        Segment-redirect s t l ys z c before d same_next
          (λ j e.
            same_prev j (ground (arith, e)) (λ is. clash j is (disjoint j (ground (arith, e)))))
          link
      where
        clash : (j : ℕ) → j ≡ z → elem j (z ∷ zs) ≡ false → ⊥
        clash j is h = ground (arith, is, h)

  -- The part behind the place, untouched.
  frame_back :
      (z : ℕ) (zs : List ℕ)
      → Segment s z zs l
      → distinct (z ∷ zs) ≡ true
      → ((j : ℕ) → elem j (l ∷ ys) ≡ true → elem j (z ∷ zs) ≡ false)
      → ((j : ℕ) → elem j (z ∷ zs) ≡ true → j ≢ end l ys → t.list_next j ≡ s.list_next j)
      → ((j : ℕ) → elem j zs ≡ true → j ≢ z → t.list_prev j ≡ s.list_prev j)
      → (l ≢ z → t.list_prev l ≡ s.list_prev l)
      → Segment t z zs l
  unfolding elem distinct
  frame_back z zs behind d disjoint same_next same_prev last =
      Segment-frame s t z zs l behind
        (λ j e.
          same_next j e (not_same j (end l ys) (z ∷ zs) e (disjoint (end l ys) (end-elem l ys))))
        (λ j e. same_prev j e (not_same j z zs e (ground (arith, d))))
        (last (λ is. clash is (disjoint l (ground arith))))
    where
      clash : l ≡ z → elem l (z ∷ zs) ≡ false → ⊥
      clash is h = ground (arith, is, h)

pub ring-insert :
    (s t : Items) (l : ℕ) (ys zs : List ℕ) (i : ℕ)
    → Segment s l (ys ++ zs) l
    → distinct (l ∷ (ys ++ zs)) ≡ true
    → elem i (l ∷ (ys ++ zs)) ≡ false
    → Inserted s t (end l ys) (first zs l) i
    → Segment t l (ys ++ i ∷ zs) l
unfolding Segment first elem
ring-insert s t l ys [] i ring apart new ins =
    Segment-join t l ys i [] l
      (redirect_last s t l ys i (ins.next_p, ins.prev_i) ring apart
        (λ j e ne. ins.next_other j ne (not_same j i (l ∷ ys) e fresh))
        (λ j e ne. ins.prev_other j ne (not_same j i (l ∷ ys) e fresh)))
      (ins.next_i, ins.prev_n)
  where
    fresh : elem i (l ∷ ys) ≡ false
    fresh = subst (λ xs. elem i (l ∷ xs) ≡ false) (append_nil ys) new
ring-insert s t l ys (z ∷ zs) i ring apart new ins =
    let (before, behind) = Segment-split s l ys z zs l ring in
    let (d1, d2, disjoint) = distinct-append (l ∷ ys) (z ∷ zs) apart in
    Segment-join t l ys i (z ∷ zs) l
      (redirect_front s t l ys i (ins.next_p, ins.prev_i) z zs before d1 disjoint
        (λ j e ne. ins.next_other j ne (not_same j i (l ∷ ys) e fresh))
        (λ j e ne. ins.prev_other j ne (not_same j i (l ∷ ys) e fresh)))
      (
        (ins.next_i, ins.prev_n),
        frame_back s t l ys z zs behind d2 disjoint
            (λ j e ne. ins.next_other j ne (not_same j i (z ∷ zs) e fresh'))
            (λ j e ne. ins.prev_other j ne (not_same j i zs e (ground (arith, fresh'))))
            (λ ne. ins.prev_other l ne (not_same l i (l ∷ ys) (ground arith) fresh)),
      )
  where
    fresh : elem i (l ∷ ys) ≡ false
    fresh = ground (arith, new, elem-append i ys (z ∷ zs))

    fresh' : elem i (z ∷ zs) ≡ false
    fresh' = ground (arith, new, elem-append i ys (z ∷ zs))

pub ring-remove :
    (s t : Items) (l : ℕ) (ys zs : List ℕ) (i : ℕ)
    → Segment s l (ys ++ i ∷ zs) l
    → distinct (l ∷ (ys ++ i ∷ zs)) ≡ true
    → Closed s t (end l ys) (first zs l)
    → Segment t l (ys ++ zs) l
unfolding Segment first elem distinct
ring-remove s t l ys [] i ring apart out =
    let (before, behind) = Segment-split s l ys i [] l ring in
    let (d1, d2, disjoint) = distinct-append (l ∷ ys) (i ∷ []) apart in
    subst (λ xs. Segment t l xs l) (sym (append_nil ys))
      (Segment-redirect s t l ys i l before d1 (λ j e ne. out.next_other j ne)
        (λ j e. out.prev_other j (not_same j l ys e (ground (arith, d1)))) (out.next_p, out.prev_n))
ring-remove s t l ys (z ∷ zs) i ring apart out =
    let (before, (link, behind)) = Segment-split s l ys i (z ∷ zs) l ring in
    let (d1, d2, disjoint) = distinct-append (l ∷ ys) (i ∷ z ∷ zs) apart in
    Segment-join t l ys z zs l
      (Segment-redirect s t l ys i z before d1 (λ j e ne. out.next_other j ne)
        (λ j e. out.prev_other j (λ is. clash j is (disjoint j (ground (arith, e)))))
        (out.next_p, out.prev_n))
      (frame_back s t l ys z zs behind (ground (arith, d2)) (λ j e. ground (arith, disjoint j e))
        (λ j e ne. out.next_other j ne) (λ j e ne. out.prev_other j ne) (λ ne. out.prev_other l ne))
  where
    clash : (j : ℕ) → j ≡ z → elem j (i ∷ z ∷ zs) ≡ false → ⊥
    clash j is h = ground (arith, is, h)

-- The place between the items `ys` and `zs` of a ring.
pub Linked-place :
    (s : Items) (a : ℕ) (ys zs : List ℕ) (b : ℕ)
    → Segment s a (ys ++ zs) b
    → Linked s (end a ys) (first zs b)
unfolding Segment first end
Linked-place s a [] [] b h = h
Linked-place s a [] (z ∷ zs) b (link, _) = link
Linked-place s a (y ∷ ys) zs b (_, h) = Linked-place s y ys zs b h

pub distinct-insert :
    (xs zs : List ℕ) (i : ℕ)
    → distinct (xs ++ zs) ≡ true
    → elem i (xs ++ zs) ≡ false
    → distinct (xs ++ i ∷ zs) ≡ true
unfolding distinct elem
distinct-insert [] zs i d e = ground (arith, d, e)
distinct-insert (x ∷ xs) zs i d e =
    let rest : distinct (xs ++ i ∷ zs) ≡ true =
      distinct-insert xs zs i (ground (arith, d)) (ground (arith, e)) in
    ground (arith, d, e, rest, elem-append x xs zs, elem-append x xs (i ∷ zs))

pub distinct-remove :
    (xs zs : List ℕ) (i : ℕ) → distinct (xs ++ i ∷ zs) ≡ true → distinct (xs ++ zs) ≡ true
unfolding distinct elem
distinct-remove [] zs i d = ground (arith, d)
distinct-remove (x ∷ xs) zs i d =
    let rest : distinct (xs ++ zs) ≡ true = distinct-remove xs zs i (ground (arith, d)) in
    ground (arith, d, rest, elem-append x xs zs, elem-append x xs (i ∷ zs))

pub end-among : (l : ℕ) (ys zs : List ℕ) → elem (end l ys) (l ∷ (ys ++ zs)) ≡ true
unfolding elem
end-among l ys zs = ground (arith, end-elem l ys, elem-append (end l ys) ys zs)

pub first-among : (l : ℕ) (ys zs : List ℕ) → elem (first zs l) (l ∷ (ys ++ zs)) ≡ true
unfolding elem first
first-among l ys [] = ground arith
first-among l ys (z ∷ zs) = ground (arith, elem-append z ys (z ∷ zs))

pub length-insert : (ys zs : List ℕ) (i : ℕ) → length (ys ++ i ∷ zs) ≡ length (ys ++ zs) + 1
length-insert [] zs i = omega arith
length-insert (y ∷ ys) zs i = omega (arith, length-insert ys zs i)

-- Only the items `js` have other links, and only the list `l` another length.
pub record Touches (s t : Items) (l : ℕ) (js : List ℕ) : Type 0 where
  pub same_next : (j : ℕ) → elem j js ≡ false → t.list_next j ≡ s.list_next j
  pub same_prev : (j : ℕ) → elem j js ≡ false → t.list_prev j ≡ s.list_prev j
  pub same_length : (j : ℕ) → j ≢ l → t.list_length j ≡ s.list_length j
