-- ===== src/LinkedList/Inserting.antt =====
-- The operations that put an item into a list.
use mathlib.Core.Path.{subst}
use libocoms.Prelude.{
  ℕ, suc, ◌+◌, ◌%◌, ◌<◌, ◌^◌, ◌==◌, ◌≡◌, ◌≢◌, refl, sym, true, false, some, List, [], ◌∷◌, ◌++◌,
  length, Returns, arith,
}
use libocoms.LinkedList.{Items, set_next, set_prev, one_more, append, prepend, insert_pos}
use libocoms.LinkedList.Segment.{Linked, end, elem}
use libocoms.LinkedList.Rings.{
  first, IsList, Inserted, Touches, ring-insert, Linked-place, distinct-insert, append_nil,
  not_same, end-among, first-among, length-insert,
}

-- What putting an item between others does.
abbrev pub Puts : Items → (l : ℕ) → (ys zs : List ℕ) → (i : ℕ) → Items → Type 0
Puts s l ys zs i t = IsList t l (ys ++ i ∷ zs) × Touches s t l (i ∷ l ∷ (ys ++ zs))

module _ (s : Items) (l : ℕ) (ys zs : List ℕ) (i : ℕ) (valid : IsList s l (ys ++ zs))
    (new : elem i (l ∷ (ys ++ zs)) ≡ false) (small : suc (length (ys ++ zs)) < 2 ^ 64) where
  pub p_ne : end l ys ≢ i
  p_ne = not_same (end l ys) i (l ∷ (ys ++ zs)) (end-among l ys zs) new

  pub n_ne : first zs l ≢ i
  n_ne = not_same (first zs l) i (l ∷ (ys ++ zs)) (first-among l ys zs) new

  pub place : Linked s (end l ys) (first zs l)
  place = Linked-place s l ys zs l valid.ring

  pub Inserted-Puts :
      (t : Items)
      → Inserted s t (end l ys) (first zs l) i
      → t.list_length l ≡ (s.list_length l + 1) % 2 ^ 64
      → ((j : ℕ) → j ≢ l → t.list_length j ≡ s.list_length j)
      → Puts s l ys zs i t
  unfolding elem
  Inserted-Puts t ins longer others = (
    record {
      ring = ring-insert s t l ys zs i valid.ring valid.apart new ins;
      apart = distinct-insert (l ∷ ys) zs i valid.apart new;
      counted = omega (arith, valid.counted, length-insert ys zs i);
      bounded = omega (arith, length-insert ys zs i);
    },
    record {
      same_next = λ j out.
          ins.next_other j
            (λ e.
              not_same (end l ys) j (l ∷ (ys ++ zs)) (end-among l ys zs) (ground (arith, out))
                (sym e))
            (ground (arith, out));
      same_prev = λ j out.
          ins.prev_other j
            (λ e.
              not_same (first zs l) j (l ∷ (ys ++ zs)) (first-among l ys zs) (ground (arith, out))
                (sym e))
            (ground (arith, out));
      same_length = others;
    },
  )

  -- `ocoms_list_insert_pos` of an item that is in none of the list's places, before any item or the
  -- sentinel: it stands there, the others keep their order, and no other item or list is touched.
  pub insert_pos-Puts : Returns (insert_pos s l (first zs l) i) (Puts s l ys zs i)
  unfolding insert_pos
  insert_pos-Puts = (
    t,
    rw (apart_n, place.1) refl,
    Inserted-Puts t
        (record {
          next_p = ground (arith, p_ne);
          next_i = ground (arith, p_ne);
          next_other = λ j ne ne'. ground arith;
          prev_n = ground arith;
          prev_i = ground (arith, n_ne);
          prev_other = λ j ne ne'. ground arith;
        })
        (ground arith) (λ j ne. ground arith),
  )
    where
      n : ℕ
      n = first zs l

      p : ℕ
      p = end l ys

      apart_n : (n == i) ≡ false
      apart_n = ground (arith, n_ne)

      t : Items
      t =
          one_more
            (set_prev (set_next (set_prev (set_next s i (some n)) i (some p)) p (some i)) n
              (some i))
            l

-- `ocoms_list_append` of an item that is in none of the list's places: it stands behind all others, and
-- no other item or list is touched.
pub append-Puts :
    (s : Items) (l : ℕ) (xs : List ℕ) (i : ℕ)
    → IsList s l xs
    → elem i (l ∷ xs) ≡ false
    → suc (length xs) < 2 ^ 64
    → Returns (append s l i) (Puts s l xs [] i)
unfolding append first elem
append-Puts s l xs i valid new small = (
  t,
  rw (apart_l, place'.1) refl,
  Inserted-Puts s l xs [] i valid' new' small' t
      (record {
        next_p = ground (arith, p_ne');
        next_i = ground arith;
        next_other = λ j ne ne'. ground arith;
        prev_n = ground arith;
        prev_i = ground (arith, l_ne);
        prev_other = λ j ne ne'. ground arith;
      })
      (ground arith) (λ j ne. ground arith),
)
  where
    same : xs ≡ xs ++ []
    same = sym (append_nil xs)

    valid' : IsList s l (xs ++ [])
    valid' = subst (IsList s l) same valid

    new' : elem i (l ∷ (xs ++ [])) ≡ false
    new' = subst (λ ys. elem i (l ∷ ys) ≡ false) same new

    small' : suc (length (xs ++ [])) < 2 ^ 64
    small' = subst (λ ys. suc (length ys) < 2 ^ 64) same small

    place' : Linked s (end l xs) l
    place' = place s l xs [] i valid' new' small'

    p : ℕ
    p = end l xs

    p_ne' : p ≢ i
    p_ne' = p_ne s l xs [] i valid' new' small'

    l_ne : l ≢ i
    l_ne e = clash (ground (arith, new, e))
      where
        clash : true ≡ false → ⊥
        clash e = cc

    apart_l : (l == i) ≡ false
    apart_l = ground (arith, l_ne)

    t : Items
    t =
        one_more
          (set_prev (set_next (set_next (set_prev s i (some p)) p (some i)) i (some l)) l (some i))
          l

-- `ocoms_list_prepend` of an item that is in none of the list's places: it stands before all others, and
-- no other item or list is touched.
pub prepend-Puts :
    (s : Items) (l : ℕ) (xs : List ℕ) (i : ℕ)
    → IsList s l xs
    → elem i (l ∷ xs) ≡ false
    → suc (length xs) < 2 ^ 64
    → Returns (prepend s l i) (Puts s l [] xs i)
unfolding prepend end elem
prepend-Puts s l xs i valid new small = (
  t,
  rw (apart_l, place'.0) refl,
  Inserted-Puts s l [] xs i valid new small t
      (record {
        next_p = ground arith;
        next_i = ground (arith, l_ne);
        next_other = λ j ne ne'. ground arith;
        prev_n = ground arith;
        prev_i = ground (arith, h_ne);
        prev_other = λ j ne ne'. ground arith;
      })
      (ground arith) (λ j ne. ground arith),
)
  where
    h : ℕ
    h = first xs l

    place' : Linked s l h
    place' = place s l [] xs i valid new small

    h_ne : h ≢ i
    h_ne = n_ne s l [] xs i valid new small

    l_ne : l ≢ i
    l_ne e = clash (ground (arith, new, e))
      where
        clash : true ≡ false → ⊥
        clash e = cc

    apart_l : (l == i) ≡ false
    apart_l = ground (arith, l_ne)

    t : Items
    t =
        one_more
          (set_next (set_prev (set_prev (set_next s i (some h)) i (some l)) h (some i)) l (some i))
          l
