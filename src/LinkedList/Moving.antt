-- ===== src/LinkedList/Moving.antt =====
-- `ocoms_list_join` and `_splice`, which move items of one list into another.
use libocoms.Prelude.{
  ℕ, ◌==◌, ◌≡◌, ◌≢◌, refl, sym, ap, ◌∙◌, true, false, Bool-cases, inl, inr, some, List, [], ◌∷◌,
  ◌++◌, done, arith,
}
use libocoms.LinkedList.{Items, set_next, set_prev, transfer}
use libocoms.LinkedList.Segment.{
  Linked, Segment, end, elem, distinct, end-elem, elem-append, distinct-append, Segment-redirect,
}
use libocoms.LinkedList.Rings.{first, IsList, Linked-place, not_same, first-among}
use libocoms.LinkedList.Parts.{
  Rest, Segment-parts, Segment-append, Rest-frame, first-out, distinct-join,
}

-- The links after the chain from `w` to `e` has left its place between `b` and `o` for that between `p`
-- and `n`.
pub record Moved (s t : Items) (p n w e b o : ℕ) : Type 0 where
  pub next_p : t.list_next p ≡ some w
  pub next_e : t.list_next e ≡ some n
  pub next_b : t.list_next b ≡ some o
  pub next_other : (j : ℕ) → j ≢ p → j ≢ e → j ≢ b → t.list_next j ≡ s.list_next j
  pub prev_w : t.list_prev w ≡ some p
  pub prev_n : t.list_prev n ≡ some e
  pub prev_o : t.list_prev o ≡ some b
  pub prev_other : (j : ℕ) → j ≢ w → j ≢ n → j ≢ o → t.list_prev j ≡ s.list_prev j

Linked-moved :
    (s : Items) (w : ℕ) (ws vs : List ℕ) (x : ℕ)
    → Rest s (w ∷ (ws ++ vs)) x
    → Linked s (end w ws) (first vs x)
unfolding Rest
Linked-moved s w ws vs x r = Linked-place s w ws vs x r

-- The items from `w` over `ws` between `us` and `vs` in the list `x`, and the place between `ys` and `zs`
-- in the list `l`.
module _ (s : Items) (l : ℕ) (ys zs : List ℕ) (x : ℕ) (us : List ℕ) (w : ℕ) (ws vs : List ℕ)
    (this : IsList s l (ys ++ zs)) (that : IsList s x (us ++ (w ∷ (ws ++ vs))))
    (apart : (j : ℕ)
      → elem j (l ∷ (ys ++ zs)) ≡ true
      → elem j (x ∷ (us ++ (w ∷ (ws ++ vs)))) ≡ false) where
  abbrev p : ℕ
  p = end l ys

  abbrev n : ℕ
  n = first zs l

  abbrev e : ℕ
  e = end w ws

  abbrev b : ℕ
  b = end x us

  abbrev o : ℕ
  o = first vs x

  pub cross :
      (j k : ℕ)
      → elem j (l ∷ (ys ++ zs)) ≡ true
      → elem k (x ∷ (us ++ (w ∷ (ws ++ vs)))) ≡ true
      → j ≢ k
  cross j k hj hk same = not_same k j (x ∷ (us ++ (w ∷ (ws ++ vs)))) hk (apart j hj) (sym same)

  pub this_left : (j : ℕ) → elem j (l ∷ ys) ≡ true → elem j (l ∷ (ys ++ zs)) ≡ true
  unfolding elem
  this_left j h = ground (arith, h, elem-append j ys zs)

  this_right : (j : ℕ) → elem j (l ∷ zs) ≡ true → elem j (l ∷ (ys ++ zs)) ≡ true
  unfolding elem
  this_right j h = ground (arith, h, elem-append j ys zs)

  pub that_left : (j : ℕ) → elem j (x ∷ us) ≡ true → elem j (x ∷ (us ++ (w ∷ (ws ++ vs)))) ≡ true
  unfolding elem
  that_left j h = ground (arith, h, elem-append j us (w ∷ (ws ++ vs)))

  pub that_middle : (j : ℕ) → elem j (w ∷ ws) ≡ true → elem j (x ∷ (us ++ (w ∷ (ws ++ vs)))) ≡ true
  unfolding elem
  that_middle j h = ground (arith, h, elem-append j us (w ∷ (ws ++ vs)), elem-append j ws vs)

  pub that_right : (j : ℕ) → elem j (x ∷ vs) ≡ true → elem j (x ∷ (us ++ (w ∷ (ws ++ vs)))) ≡ true
  unfolding elem
  that_right j h = ground (arith, h, elem-append j us (w ∷ (ws ++ vs)), elem-append j ws vs)

  pub o_right : elem o (x ∷ vs) ≡ true
  o_right = first-among x [] vs

  pub n_this : elem n (l ∷ (ys ++ zs)) ≡ true
  n_this = first-among l ys zs

  pub p_this : elem p (l ∷ (ys ++ zs)) ≡ true
  p_this = this_left p (end-elem l ys)

  -- the parts of the two lists
  this_parts :
      (distinct (l ∷ ys) ≡ true)
      × (distinct zs ≡ true)
      × ((j : ℕ) → elem j (l ∷ ys) ≡ true → elem j zs ≡ false)
  this_parts = distinct-append (l ∷ ys) zs this.apart

  that_parts :
      (distinct (x ∷ us) ≡ true)
      × (distinct (w ∷ (ws ++ vs)) ≡ true)
      × ((j : ℕ) → elem j (x ∷ us) ≡ true → elem j (w ∷ (ws ++ vs)) ≡ false)
  that_parts = distinct-append (x ∷ us) (w ∷ (ws ++ vs)) that.apart

  moved_parts :
      (distinct (w ∷ ws) ≡ true)
      × (distinct vs ≡ true)
      × ((j : ℕ) → elem j (w ∷ ws) ≡ true → elem j vs ≡ false)
  moved_parts = distinct-append (w ∷ ws) vs that_parts.1

  pub left_middle : (j : ℕ) → elem j (x ∷ us) ≡ true → elem j (w ∷ ws) ≡ false
  unfolding elem
  left_middle j h = ground (arith, that_parts.2 j h, elem-append j ws vs)

  left_right : (j : ℕ) → elem j (x ∷ us) ≡ true → elem j vs ≡ false
  unfolding elem
  left_right j h = ground (arith, that_parts.2 j h, elem-append j ws vs)

  -- `first vs x` is neither moved nor before the moved items.
  pub o_middle : elem o (w ∷ ws) ≡ false
  unfolding elem
  o_middle = first-out x (w ∷ ws) vs moved_parts.0 (left_middle x (ground arith)) moved_parts.2

  o_left : elem o us ≡ false
  unfolding elem distinct
  o_left =
      first-out x us vs (ground (arith, that_parts.0)) (ground (arith, that_parts.0))
        (λ j h. left_right j (ground (arith, h)))

  n_left : elem n ys ≡ false
  unfolding elem distinct
  n_left =
      first-out l ys zs (ground (arith, this_parts.0)) (ground (arith, this_parts.0))
        (λ j h. this_parts.2 j (ground (arith, h)))

  module _ (t : Items) (moved : Moved s t p n w e b o) where
    pub moved_this : Segment t l (ys ++ (w ∷ (ws ++ zs))) l
    unfolding Rest first elem distinct
    moved_this =
        let (front, back) = Segment-parts s l ys zs l this.ring in
        let (_, that_rest) = Segment-parts s x us (w ∷ (ws ++ vs)) x that.ring in
        let (middle, _) = Segment-parts s w ws vs x that_rest in
        Segment-append t l ys (w ∷ (ws ++ zs)) l
          (Segment-redirect s t l ys n w front this_parts.0
            (λ j h ne.
              moved.next_other j ne (cross j e (this_left j h) (that_middle e (end-elem w ws)))
                (cross j b (this_left j h) (that_left b (end-elem x us))))
            (λ j h.
              moved.prev_other j
                (cross j w (this_left j (ground (arith, h))) (that_middle w (ground arith)))
                (not_same j n ys h n_left)
                (cross j o (this_left j (ground (arith, h))) (that_right o o_right)))
            (moved.next_p, moved.prev_w))
          (Segment-append t w ws zs l
            (Segment-redirect s t w ws o n middle moved_parts.0
              (λ j h ne.
                moved.next_other j (λ same. cross p j p_this (that_middle j h) (sym same)) ne
                  (λ same. not_same j b (w ∷ ws) h (left_middle b (end-elem x us)) same))
              (λ j h.
                moved.prev_other j (not_same j w ws h (ground (arith, moved_parts.0)))
                  (λ same. cross n j n_this (that_middle j (ground (arith, h))) (sym same))
                  (not_same j o (w ∷ ws) (ground (arith, h)) o_middle))
              (moved.next_e, moved.prev_n))
            (Rest-frame s t zs l back this_parts.1 (this_parts.2 l (ground arith))
              (λ j h.
                moved.next_other j (not_same j p zs h (this_parts.2 p (end-elem l ys)))
                  (cross j e (this_right j (ground (arith, h))) (that_middle e (end-elem w ws)))
                  (cross j b (this_right j (ground (arith, h))) (that_left b (end-elem x us))))
              (λ j h ne.
                moved.prev_other j (cross j w (this_right j h) (that_middle w (ground arith))) ne
                  (cross j o (this_right j h) (that_right o o_right)))))

    pub moved_that : Segment t x (us ++ vs) x
    unfolding Rest first elem distinct
    moved_that =
        let (front, that_rest) = Segment-parts s x us (w ∷ (ws ++ vs)) x that.ring in
        let (_, back) = Segment-parts s w ws vs x that_rest in
        Segment-append t x us vs x
          (Segment-redirect s t x us w o front that_parts.0
            (λ j h ne.
              moved.next_other j (λ same. cross p j p_this (that_left j h) (sym same))
                (λ same. not_same e j (w ∷ ws) (end-elem w ws) (left_middle j h) (sym same)) ne)
            (λ j h.
              moved.prev_other j
                (λ same.
                  not_same w j (w ∷ ws) (ground arith) (left_middle j (ground (arith, h)))
                    (sym same))
                (λ same. cross n j n_this (that_left j (ground (arith, h))) (sym same))
                (not_same j o us h o_left))
            (moved.next_b, moved.prev_o))
          (Rest-frame s t vs x back moved_parts.1 (left_right x (ground arith))
            (λ j h.
              moved.next_other j
                (λ same. cross p j p_this (that_right j (ground (arith, h))) (sym same))
                (not_same j e vs h (moved_parts.2 e (end-elem w ws)))
                (not_same j b vs h (left_right b (end-elem x us))))
            (λ j h ne.
              moved.prev_other j (λ same. w_apart j h (sym same))
                (λ same. cross n j n_this (that_right j h) (sym same)) ne))
      where
        w_apart : (j : ℕ) → elem j (x ∷ vs) ≡ true → w ≢ j
        w_apart j h same =
            let w_x : elem x (w ∷ ws) ≡ false = left_middle x (ground arith) in
            let w_vs : elem w vs ≡ false = moved_parts.2 w (ground arith) in
            ground (arith, h, same, w_x, w_vs)

    pub moved_apart :
        (distinct (l ∷ (ys ++ (w ∷ (ws ++ zs)))) ≡ true) × (distinct (x ∷ (us ++ vs)) ≡ true)
    unfolding elem distinct
    moved_apart = (
      distinct-join (l ∷ ys) (w ∷ (ws ++ zs)) this_parts.0
          (distinct-join (w ∷ ws) zs moved_parts.0 this_parts.1 (λ j h. outside j h))
          (λ j h. between j h),
      distinct-join (x ∷ us) vs that_parts.0 moved_parts.1 left_right,
    )
      where
        outside : (j : ℕ) → elem j (w ∷ ws) ≡ true → elem j zs ≡ false
        outside j h = elim (Bool-cases (elem j zs)) [
          | inl here ↦
              absurd (cross j j (this_right j (ground (arith, here))) (that_middle j h) refl)
          | inr out ↦ out
        ]

        between : (j : ℕ) → elem j (l ∷ ys) ≡ true → elem j (w ∷ (ws ++ zs)) ≡ false
        between j h = elim (Bool-cases (elem j (w ∷ ws))) [
          | inl here ↦ absurd (cross j j (this_left j h) (that_middle j here) refl)
          | inr out ↦ ground (arith, out, this_parts.2 j h, elem-append j ws zs)
        ]

  -- The links after `ocoms_list_transfer`.
  abbrev pub transferred : Items
  transferred =
      set_prev
        (set_prev
          (set_prev (set_next (set_next (set_next s e (some n)) b (some o)) p (some w)) n (some e))
          o (some b))
        w (some p)

  pub n_o : n ≢ o
  n_o = cross n o n_this (that_right o o_right)

  w_n : w ≢ n
  unfolding elem
  w_n same = cross n w n_this (that_middle w (ground arith)) (sym same)

  w_o : w ≢ o
  unfolding elem
  w_o = not_same w o (w ∷ ws) (ground arith) o_middle

  pub transfer_lem : transfer s n w o ≡ done transferred
  unfolding transfer first
  transfer_lem =
      let links_this = Linked-place s l ys zs l this.ring in
      let links_that = Linked-place s x us (w ∷ (ws ++ vs)) x that.ring in
      let (_, that_rest) = Segment-parts s x us (w ∷ (ws ++ vs)) x that.ring in
      rw (different, (Linked-end that_rest).1, links_that.1, links_this.1, w_not_n) refl
    where
      different : (n == o) ≡ false
      different = ground (arith, n_o)

      w_not_n : (w == n) ≡ false
      w_not_n = ground (arith, w_n)

      Linked-end : Rest s (w ∷ (ws ++ vs)) x → Linked s e o
      Linked-end r = Linked-moved s w ws vs x r

  pub transferred-Moved :
      (t : Items)
      → t.list_next ≡ transferred.list_next
      → t.list_prev ≡ transferred.list_prev
      → Moved s t p n w e b o
  transferred-Moved t next prev = record {
    next_p = ap (λ f. f p) next ∙ ground arith;
    next_e = ap (λ f. f e) next ∙ ground (arith, e_p, e_b);
    next_b = ap (λ f. f b) next ∙ ground (arith, b_p);
    next_other = λ j ne ne' ne''. ap (λ f. f j) next ∙ ground arith;
    prev_w = ap (λ f. f w) prev ∙ ground arith;
    prev_n = ap (λ f. f n) prev ∙ ground (arith, w_n, n_o);
    prev_o = ap (λ f. f o) prev ∙ ground (arith, w_o);
    prev_other = λ j ne ne' ne''. ap (λ f. f j) prev ∙ ground arith;
  }
    where
      e_p : e ≢ p
      e_p same = cross p e p_this (that_middle e (end-elem w ws)) (sym same)

      e_b : e ≢ b
      e_b = not_same e b (w ∷ ws) (end-elem w ws) (left_middle b (end-elem x us))

      b_p : b ≢ p
      b_p same = cross p b p_this (that_left b (end-elem x us)) (sym same)
