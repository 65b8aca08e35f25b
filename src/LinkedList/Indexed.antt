-- ===== src/LinkedList/Indexed.antt =====
-- `ocoms_list_insert`, which puts an item at an index.
use libocoms.Prelude.{
  ℕ, suc, ◌+◌, ◌<◌, ◌≤◌, ◌^◌, leb, ◌≡◌, ◌≢◌, refl, true, false, some, List, [], ◌∷◌, ◌++◌, length,
  done, Returns, arith,
}
use libocoms.Prelude.Int.{pos}
use libocoms.LinkedList.{Items, set_next, set_prev, one_more, advance, insert_behind, insert}
use libocoms.LinkedList.Segment.{Segment, end, elem, Segment-frame}
use libocoms.LinkedList.Rings.{first, IsList, length-insert}
use libocoms.LinkedList.Inserting.{Puts, Inserted-Puts, p_ne, n_ne, place, prepend-Puts}

advance-end :
    (s : Items) (a : ℕ) (ys zs : List ℕ) (b : ℕ)
    → Segment s a (ys ++ zs) b
    → advance s (length ys) a ≡ done (end a ys)
unfolding advance Segment end
advance-end s a [] zs b h = refl
advance-end s a (y ∷ ys) zs b ((next, _), h) = rw (next) (advance-end s y ys zs b h)

-- `ocoms_list_insert` at an index behind the first item and before the end, of an item that is in none
-- of the list's places: it stands at that index, and no other item or list is touched.
pub insert-Puts :
    (s : Items) (l y : ℕ) (ys : List ℕ) (z : ℕ) (zs : List ℕ) (i : ℕ)
    → IsList s l (y ∷ (ys ++ z ∷ zs))
    → elem i (l ∷ y ∷ (ys ++ z ∷ zs)) ≡ false
    → suc (suc (length (ys ++ z ∷ zs))) < 2 ^ 64
    → Returns
        (insert s l i (pos (suc (length ys))))
        (λ r. (r.0 ≡ true) × Puts s l (y ∷ ys) (z ∷ zs) i r.1)
unfolding insert insert_behind first end Segment
insert-Puts s l y ys z zs i valid new small = (
  (true, t),
  rw (inside, start, advance-end s y ys (z ∷ zs) l valid.ring.1, next) refl,
  (
    refl,
    Inserted-Puts s l (y ∷ ys) (z ∷ zs) i valid new small t
        (record {
          next_p = ground arith;
          next_i = ground (arith, p_ne');
          next_other = λ j ne ne'. ground arith;
          prev_n = ground arith;
          prev_i = ground (arith, n_ne');
          prev_other = λ j ne ne'. ground arith;
        })
        (ground arith) (λ j ne. ground arith),
  ),
)
  where
    p : ℕ
    p = end y ys

    p_ne' : p ≢ i
    p_ne' = p_ne s l (y ∷ ys) (z ∷ zs) i valid new small

    n_ne' : z ≢ i
    n_ne' = n_ne s l (y ∷ ys) (z ∷ zs) i valid new small

    start : s.list_next l ≡ some y
    start = valid.ring.0.0

    next : s.list_next p ≡ some z
    next = (place s l (y ∷ ys) (z ∷ zs) i valid new small).0

    inside : leb (s.list_length l) (suc (length ys)) ≡ false
    inside = ground (arith, valid.counted, length-insert ys zs z, longer ys zs)
      where
        longer : (ys zs : List ℕ) → length ys ≤ length (ys ++ zs)
        longer [] zs = omega arith
        longer (y ∷ ys) zs = omega (arith, longer ys zs)

    t : Items
    t =
        one_more
          (set_next (set_prev (set_prev (set_next s i (some z)) i (some p)) z (some i)) p (some i))
          l

-- `ocoms_list_insert` at index 0 of a list with items: the item stands before the others, but it is
-- counted twice, so the size of the list is one more than the number of its items.
pub insert_at_first :
    (s : Items) (l x : ℕ) (xs : List ℕ) (i : ℕ)
    → IsList s l (x ∷ xs)
    → elem i (l ∷ x ∷ xs) ≡ false
    → length (x ∷ xs) + 2 < 2 ^ 64
    → Returns (insert s l i (pos 0)) (λ r.
      (r.0 ≡ true) × Segment r.1 l (i ∷ x ∷ xs) l × (r.1.list_length l ≡ length (i ∷ x ∷ xs) + 1))
unfolding insert Segment
insert_at_first s l x xs i valid new small =
    let (s1, ran, (valid1, _)) = prepend-Puts s l (x ∷ xs) i valid new (omega arith) in
    (
      (true, one_more s1 l),
      rw (inside, ran) refl,
      (refl, unchanged s1 valid1.ring, ground (arith, valid1.counted)),
    )
  where
    inside : leb (s.list_length l) 0 ≡ false
    inside = ground (arith, valid.counted)

    unchanged :
        (s1 : Items) → Segment s1 l (i ∷ x ∷ xs) l → Segment (one_more s1 l) l (i ∷ x ∷ xs) l
    unchanged s1 h =
        Segment-frame s1 (one_more s1 l) l (i ∷ x ∷ xs) l h (λ j e. refl) (λ j e. refl) refl
