-- ===== src/LinkedList/Removing.antt =====
-- The operations that take an item out of a list.
use libocoms.Prelude.{
  ℕ, ◌+◌, ◌-◌, ◌%◌, ◌^◌, ◌==◌, ◌≡◌, ◌≢◌, refl, sym, true, false, some, List, [], ◌∷◌, ◌++◌, Returns,
  arith,
}
use libocoms.LinkedList.{
  Items, set_next, set_prev, one_less, remove_item, remove_first, remove_last,
}
use libocoms.LinkedList.Segment.{
  Linked, end, elem, distinct, distinct-append, end-elem, Segment-split,
}
use libocoms.LinkedList.Rings.{
  first, IsList, Closed, Touches, ring-remove, Linked-place, distinct-remove, not_same, end-among,
  first-among, length-insert,
}

-- What taking an item out from between others does.
abbrev pub TakesItem : Items → (l : ℕ) → (ys zs : List ℕ) → Items → Type 0
TakesItem s l ys zs t = IsList t l (ys ++ zs) × Touches s t l (l ∷ (ys ++ zs))

out_of : (l i : ℕ) (ys zs : List ℕ) → (elem l (l ∷ ys) ≡ true → elem l (i ∷ zs) ≡ false) → l ≢ i
unfolding elem
out_of l i ys zs h e = not_same i l (i ∷ zs) (ground arith) (h (ground arith)) (sym e)

first_ne : (l : ℕ) (zs : List ℕ) (i : ℕ) → l ≢ i → elem i zs ≡ false → first zs l ≢ i
unfolding first elem
first_ne l [] i ne h e = ne e
first_ne l (z ∷ zs) i ne h e = not_same z i (z ∷ zs) (ground arith) h e

module _ (s : Items) (l : ℕ) (ys zs : List ℕ) (i : ℕ) (valid : IsList s l (ys ++ i ∷ zs)) where
  -- the neighbours of the item
  before : Linked s (end l ys) i
  unfolding first
  before = Linked-place s l ys (i ∷ zs) l valid.ring

  behind : Linked s i (first zs l)
  unfolding end
  behind = Linked-place s i [] zs l (Segment-split s l ys i zs l valid.ring).1

  apart_parts : ((j : ℕ) → elem j (l ∷ ys) ≡ true → elem j (i ∷ zs) ≡ false) × (elem i zs ≡ false)
  unfolding distinct
  apart_parts =
      let (d1, d2, disjoint) = distinct-append (l ∷ ys) (i ∷ zs) valid.apart in
      (disjoint, ground (arith, d2))

  p_ne : end l ys ≢ i
  unfolding elem
  p_ne e =
      not_same i (end l ys) (i ∷ zs) (ground arith) (apart_parts.0 (end l ys) (end-elem l ys))
        (sym e)

  n_ne : first zs l ≢ i
  n_ne = first_ne l zs i (l_out (apart_parts.0 l)) apart_parts.1
    where
      l_out : (elem l (l ∷ ys) ≡ true → elem l (i ∷ zs) ≡ false) → l ≢ i
      l_out h e = out_of l i ys zs h e

  Closed-TakesItem :
      (t : Items)
      → Closed s t (end l ys) (first zs l)
      → t.list_length l ≡ (s.list_length l + (2 ^ 64 - 1)) % 2 ^ 64
      → ((j : ℕ) → j ≢ l → t.list_length j ≡ s.list_length j)
      → TakesItem s l ys zs t
  unfolding elem
  Closed-TakesItem t out shorter others = (
    record {
      ring = ring-remove s t l ys zs i valid.ring valid.apart out;
      apart = distinct-remove (l ∷ ys) zs i valid.apart;
      counted = omega (arith, valid.counted, valid.bounded, length-insert ys zs i);
      bounded = omega (arith, valid.bounded, length-insert ys zs i);
    },
    record {
      same_next = λ j h.
          out.next_other j
            (λ e. not_same (end l ys) j (l ∷ (ys ++ zs)) (end-among l ys zs) h (sym e));
      same_prev = λ j h.
          out.prev_other j
            (λ e. not_same (first zs l) j (l ∷ (ys ++ zs)) (first-among l ys zs) h (sym e));
      same_length = others;
    },
  )

  -- `ocoms_list_remove_item` of an item of the list: the others keep their order, nothing but its
  -- neighbours and the list is touched, and the item before it, or the sentinel, is returned.
  pub remove_item-TakesItem :
      Returns (remove_item s l i) (λ r. (r.0 ≡ some (end l ys)) × TakesItem s l ys zs r.1)
  unfolding remove_item
  remove_item-TakesItem = (
    (some p, t),
    rw (before.1, i_p, behind.0, i_n) refl,
    (
      refl,
      Closed-TakesItem t
          (record {
            next_p = ground arith;
            next_other = λ j ne. ground arith;
            prev_n = ground arith;
            prev_other = λ j ne. ground arith;
          })
          (ground arith) (λ j ne. ground arith),
    ),
  )
    where
      p : ℕ
      p = end l ys

      n : ℕ
      n = first zs l

      i_p : (i == p) ≡ false
      i_p = ground (arith, p_ne)

      i_n : (i == n) ≡ false
      i_n = ground (arith, n_ne)

      t : Items
      t = one_less (set_prev (set_next s p (some n)) n (some p)) l

-- `ocoms_list_remove_first` of a list with items: the first one is returned, the others keep their order,
-- and nothing but its neighbours and the list is touched.
pub remove_first-TakesItem :
    (s : Items) (l i : ℕ) (zs : List ℕ)
    → IsList s l (i ∷ zs)
    → Returns (remove_first s l) (λ r. (r.0 ≡ some i) × TakesItem s l [] zs r.1)
unfolding remove_first end
remove_first-TakesItem s l i zs valid = (
  (some i, t),
  rw
      (
        some_items,
        (before s l [] zs i valid).0,
        (behind s l [] zs i valid).0,
        (before s l [] zs i valid).1,
      )
      refl,
  (
    refl,
    Closed-TakesItem s l [] zs i valid t
        (record {
          next_p = ground arith;
          next_other = λ j ne. ground arith;
          prev_n = ground arith;
          prev_other = λ j ne. ground arith;
        })
        (ground arith) (λ j ne. ground arith),
  ),
)
  where
    n : ℕ
    n = first zs l

    some_items : (s.list_length l == 0) ≡ false
    some_items = ground (arith, valid.counted)

    t : Items
    t = set_next (set_prev (one_less s l) n (some l)) l (some n)

-- `ocoms_list_remove_last` of a list with items: the last one is returned, the others keep their order,
-- and nothing but its neighbours and the list is touched.
pub remove_last-TakesItem :
    (s : Items) (l : ℕ) (ys : List ℕ) (i : ℕ)
    → IsList s l (ys ++ i ∷ [])
    → Returns (remove_last s l) (λ r. (r.0 ≡ some i) × TakesItem s l ys [] r.1)
unfolding remove_last first
remove_last-TakesItem s l ys i valid = (
  (some i, t),
  rw
      (
        some_items,
        (behind s l ys [] i valid).1,
        (before s l ys [] i valid).1,
        (behind s l ys [] i valid).0,
      )
      refl,
  (
    refl,
    Closed-TakesItem s l ys [] i valid t
        (record {
          next_p = ground arith;
          next_other = λ j ne. ground arith;
          prev_n = ground arith;
          prev_other = λ j ne. ground arith;
        })
        (ground arith) (λ j ne. ground arith),
  ),
)
  where
    p : ℕ
    p = end l ys

    some_items : (s.list_length l == 0) ≡ false
    some_items = ground (arith, valid.counted, length-insert ys [] i)

    t : Items
    t = set_prev (set_next (one_less s l) p (some l)) l (some p)
