-- ===== src/LinkedList/Joining.antt =====
-- `ocoms_list_join` and `_splice` on two lists.
use mathlib.Core.Path.{subst}
use libocoms.Prelude.{
  ℕ, zero, suc, ◌+◌, ◌-◌, ◌%◌, ◌<◌, ◌≤◌, ◌^◌, ◌==◌, ◌≡◌, ◌≢◌, refl, sym, ap, true, false, List, [],
  ◌∷◌, ◌++◌, length, length-append, done, Returns, arith,
}
use libocoms.LinkedList.{Items, set_length, transfer, join, splice, count_to}
use libocoms.LinkedList.Segment.{Segment, elem}
use libocoms.LinkedList.Rings.{first, IsList, append_nil, not_same}
use libocoms.LinkedList.Parts.{Rest, Segment-parts}
use libocoms.LinkedList.Moving.{
  cross, o_middle, moved_this, moved_that, moved_apart, transferred, transfer_lem,
  transferred-Moved,
}

count_to_self : (s : Items) (left o : ℕ) → count_to s left o o ≡ done 0
unfolding count_to
count_to_self s zero o = ground arith
count_to_self s (suc left) o = rw (count_to, itself) refl
  where
    itself : (o == o) ≡ true
    itself = ground arith

count_to-Segment :
    (s : Items) (left w : ℕ) (ws : List ℕ) (o : ℕ)
    → Segment s w ws o
    → elem o (w ∷ ws) ≡ false
    → length (w ∷ ws) ≤ left
    → count_to s left w o ≡ done (length (w ∷ ws))
unfolding count_to Segment elem
count_to-Segment s zero w ws o chain out enough = absurd (omega arith)
count_to-Segment s (suc left) w [] o (next, _) out enough =
    rw (count_to, other, next, count_to_self s left o) refl
  where
    other : (w == o) ≡ false
    other = ground (arith, out)
count_to-Segment s (suc left) w (v ∷ ws) o ((next, _), chain) out enough =
    rw
      (
        count_to,
        other,
        next,
        count_to-Segment s left v ws o chain (ground (arith, out)) (omega arith),
      )
      (ap done (omega arith))
  where
    other : (w == o) ≡ false
    other = ground (arith, out)

module _ (s : Items) (l : ℕ) (ys zs : List ℕ) (x : ℕ) (us : List ℕ) (w : ℕ) (ws vs : List ℕ)
    (this : IsList s l (ys ++ zs)) (that : IsList s x (us ++ (w ∷ (ws ++ vs))))
    (apart : (j : ℕ)
      → elem j (l ∷ (ys ++ zs)) ≡ true
      → elem j (x ∷ (us ++ (w ∷ (ws ++ vs)))) ≡ false)
    (small : length (ys ++ zs) + length (w ∷ ws) < 2 ^ 64) where
  l_x : l ≢ x
  unfolding elem
  l_x = cross s l ys zs x us w ws vs this that apart l x (ground arith) (ground arith)

  -- Both lists after a move with the lengths that follow.
  moved-IsList :
      (t : Items)
      → t.list_next ≡ (transferred s l ys zs x us w ws vs this that apart).list_next
      → t.list_prev ≡ (transferred s l ys zs x us w ws vs this that apart).list_prev
      → t.list_length l ≡ s.list_length l + length (w ∷ ws)
      → t.list_length x + length (w ∷ ws) ≡ s.list_length x
      → IsList t l (ys ++ (w ∷ (ws ++ zs))) × IsList t x (us ++ vs)
  moved-IsList t next prev longer shorter =
      let moved = transferred-Moved s l ys zs x us w ws vs this that apart t next prev in
      let (d1, d2) = moved_apart s l ys zs x us w ws vs this that apart t moved in
      (
        record {
          ring = moved_this s l ys zs x us w ws vs this that apart t moved;
          apart = d1;
          counted = omega (arith, this.counted, lengths_this);
          bounded = omega (arith, lengths_this);
        },
        record {
          ring = moved_that s l ys zs x us w ws vs this that apart t moved;
          apart = d2;
          counted = omega (arith, that.counted, lengths_that);
          bounded = omega (arith, that.bounded, lengths_that);
        },
      )
    where
      lengths_this : length (ys ++ (w ∷ (ws ++ zs))) ≡ length (ys ++ zs) + length (w ∷ ws)
      lengths_this =
          omega (arith, length-append ys (w ∷ (ws ++ zs)), length-append ws zs, length-append ys zs)

      lengths_that : length (us ++ (w ∷ (ws ++ vs))) ≡ length (us ++ vs) + length (w ∷ ws)
      lengths_that =
          omega (arith, length-append us (w ∷ (ws ++ vs)), length-append ws vs, length-append us vs)

  chain : Segment s w ws (first vs x)
  unfolding Rest
  chain = (Segment-parts s w ws vs x (Segment-parts s x us (w ∷ (ws ++ vs)) x that.ring).1).0

  w_o : w ≢ first vs x
  unfolding elem
  w_o =
      not_same w (first vs x) (w ∷ ws) (ground arith)
        (o_middle s l ys zs x us w ws vs this that apart)

  enough : length (w ∷ ws) ≤ s.list_length x
  enough = omega (arith, that.counted, length-append us (w ∷ (ws ++ vs)), length-append ws vs)

  change_of : count_to s (s.list_length x) w (first vs x) ≡ done (length (w ∷ ws))
  change_of =
      count_to-Segment s (s.list_length x) w ws (first vs x) chain
        (o_middle s l ys zs x us w ws vs this that apart) enough

  -- `ocoms_list_splice` of the items of another list from `w` up to the item or sentinel behind `ws`,
  -- when the two lists have no item in common: the counting ends, the items stand before the given item
  -- or sentinel in their order, the others keep theirs, and both lengths are right.
  pub splice-IsList :
      Returns
        (splice s l (first zs l) x w (first vs x))
        (λ t. IsList t l (ys ++ (w ∷ (ws ++ zs))) × IsList t x (us ++ vs))
  unfolding splice
  splice-IsList = (
    t,
    rw (differ, change_of, transfer_lem s l ys zs x us w ws vs this that apart) refl,
    moved-IsList t refl refl (ground (arith, l_x, this.counted))
        (ground (arith, l_x, that.counted, enough)),
  )
    where
      differ : (w == first vs x) ≡ false
      differ = ground (arith, w_o)

      t1 : Items
      t1 =
          set_length (transferred s l ys zs x us w ws vs this that apart) l
            (s.list_length l + length (w ∷ ws))

      t : Items
      t = set_length t1 x (t1.list_length x + (2 ^ 64 - length (w ∷ ws) % 2 ^ 64))

transfer_at :
    (s : Items) (l : ℕ) (ys zs : List ℕ) (x w : ℕ) (ws : List ℕ)
    → (this : IsList s l (ys ++ zs)) → (that : IsList s x (w ∷ (ws ++ [])))
    → (apart : (j : ℕ) → elem j (l ∷ (ys ++ zs)) ≡ true → elem j (x ∷ w ∷ (ws ++ [])) ≡ false)
    → transfer s (first zs l) w x ≡ done (transferred s l ys zs x [] w ws [] this that apart)
unfolding first
transfer_at s l ys zs x w ws this that apart = transfer_lem s l ys zs x [] w ws [] this that apart

join-some :
    (s : Items) (l : ℕ) (ys zs : List ℕ) (x w : ℕ) (ws : List ℕ)
    → (this : IsList s l (ys ++ zs)) → (that : IsList s x (w ∷ (ws ++ [])))
    → (apart : (j : ℕ) → elem j (l ∷ (ys ++ zs)) ≡ true → elem j (x ∷ w ∷ (ws ++ [])) ≡ false)
    → length (ys ++ zs) + length (w ∷ ws) < 2 ^ 64
    → Returns (join s l (first zs l) x) (λ t. IsList t l (ys ++ (w ∷ (ws ++ zs))) × IsList t x [])
unfolding join Segment
join-some s l ys zs x w ws this that apart small = (
  t,
  rw (nonempty, that.ring.0.0, moved_over) refl,
  moved-IsList s l ys zs x [] w ws [] this that apart small t refl refl
      (ground (arith, ne, this.counted, that.counted, length_same, small))
      (ground (arith, that.counted, length_same)),
)
  where
    ne : l ≢ x
    ne = l_x s l ys zs x [] w ws [] this that apart small

    length_same : length (ws ++ []) ≡ length ws
    length_same = ap length (append_nil ws)

    nonempty : (s.list_length x == 0) ≡ false
    nonempty = ground (arith, that.counted)

    moved_over :
        transfer s (first zs l) w x ≡ done (transferred s l ys zs x [] w ws [] this that apart)
    moved_over = transfer_at s l ys zs x w ws this that apart

    t1 : Items
    t1 = transferred s l ys zs x [] w ws [] this that apart

    t2 : Items
    t2 = set_length t1 l (t1.list_length l + t1.list_length x)

    t : Items
    t = set_length t2 x 0

-- `ocoms_list_join` of a list with which another has no item in common: all its items stand before the
-- given item or sentinel in their order, the others keep theirs, both lengths are right, and the joined
-- list is empty.
pub join-IsList :
    (s : Items) (l : ℕ) (ys zs : List ℕ) (x : ℕ) (ws : List ℕ)
    → IsList s l (ys ++ zs)
    → IsList s x ws
    → ((j : ℕ) → elem j (l ∷ (ys ++ zs)) ≡ true → elem j (x ∷ ws) ≡ false)
    → length (ys ++ zs) + length ws < 2 ^ 64
    → Returns (join s l (first zs l) x) (λ t. IsList t l (ys ++ (ws ++ zs)) × IsList t x [])
unfolding join
join-IsList s l ys zs x [] this that apart small = (s, rw (empty) refl, (this, that))
  where
    empty : (s.list_length x == 0) ≡ true
    empty = ground (arith, that.counted)
join-IsList s l ys zs x (w ∷ ws) this that apart small =
    join-some s l ys zs x w ws this (subst (IsList s x) same that)
      (subst (λ is. (j : ℕ) → elem j (l ∷ (ys ++ zs)) ≡ true → elem j (x ∷ is) ≡ false) same apart)
      small
  where
    same : w ∷ ws ≡ w ∷ (ws ++ [])
    same = ap (λ is. w ∷ is) (sym (append_nil ws))
