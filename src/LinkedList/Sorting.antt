-- ===== src/LinkedList/Sorting.antt =====
-- `ocoms_list_sort`: the items are taken out, sorted by `qsort`, and put in again.
use mathlib.Core.Path.{subst}
use mathlib.Core.List.{Permᴰ}
use mathlib.Core.List.Permᴰ.{nil, cons, swap, trans}
use libocoms.Prelude.{
  ℕ, ◌<◌, ◌^◌, ◌==◌, ◌≡◌, ◌⊎◌, inl, inr, refl, sym, ap, ◌∙◌, Bool, true, false, Bool-cases, none,
  some, List, [], ◌∷◌, ◌++◌, length, length-append, done, Returns, arith,
}
use libocoms.LinkedList.{Items, remove_first, drain, append_all, sort}
use libocoms.LinkedList.Segment.{elem, distinct, distinct-append}
use libocoms.LinkedList.Rings.{IsList, append_nil}
use libocoms.LinkedList.Inserting.{append-Puts}
use libocoms.LinkedList.Removing.{remove_first-TakesItem}
use libocoms.Status.{success, out_of_resource}

elem-Perm : {xs ys : List ℕ} (j : ℕ) → Permᴰ xs ys → elem j xs ≡ elem j ys
unfolding elem
elem-Perm j nil = refl
elem-Perm j (cons {a} {b} e h) = ground (arith, e, elem-Perm j h)
elem-Perm j (swap e e') = ground (arith, e, e')
elem-Perm j (trans h h') = elem-Perm j h ∙ elem-Perm j h'

distinct-Perm : {xs ys : List ℕ} → Permᴰ xs ys → distinct xs ≡ distinct ys
unfolding elem distinct
distinct-Perm nil = refl
distinct-Perm (cons {a} {b} e h) = ground (arith, e, elem-Perm a h, distinct-Perm h)
distinct-Perm (swap e e') = ground (arith, e, e')
distinct-Perm (trans h h') = distinct-Perm h ∙ distinct-Perm h'

length-Perm : {xs ys : List ℕ} → Permᴰ xs ys → length xs ≡ length ys
length-Perm nil = refl
length-Perm (cons e h) = omega (arith, length-Perm h)
length-Perm (swap e e') = omega arith
length-Perm (trans h h') = length-Perm h ∙ length-Perm h'

pub remove_first-none :
    (s : Items) (l : ℕ) → s.list_length l ≡ 0 → remove_first s l ≡ done (none, s)
unfolding remove_first
remove_first-none s l empty = rw (yes_empty) refl
  where
    yes_empty : (s.list_length l == 0) ≡ true
    yes_empty = ground (arith, empty)

drain_lem :
    (s : Items) (l : ℕ) (xs : List ℕ)
    → IsList s l xs
    → Returns (drain s l (length xs)) (λ r. (r.0 ≡ xs) × IsList r.1 l [])
unfolding drain
drain_lem s l [] valid = (([], s), rw (remove_first-none s l valid.counted) refl, (refl, valid))
drain_lem s l (x ∷ xs) valid =
    let (r, ran, (first, (valid', _))) = remove_first-TakesItem s l x xs valid in
    let (rs, rest, (same, empty)) = drain_lem r.1 l xs valid' in
    let ran' : remove_first s l ≡ done (some x, r.1) = ran ∙ ap (λ o. done (o, r.1)) first in
    ((x ∷ rs.0, rs.1), rw (ran', rest) refl, (ap (λ is. x ∷ is) same, empty))

append_assoc : (xs : List ℕ) (i : ℕ) (is : List ℕ) → (xs ++ i ∷ []) ++ is ≡ xs ++ i ∷ is
append_assoc [] i is = refl
append_assoc (x ∷ xs) i is = ap (λ ys. x ∷ ys) (append_assoc xs i is)

fresh :
    (l : ℕ) (xs : List ℕ) (i : ℕ) (is : List ℕ)
    → distinct (l ∷ (xs ++ i ∷ is)) ≡ true
    → elem i (l ∷ xs) ≡ false
unfolding elem
fresh l xs i is apart =
    let (_, _, disjoint) = distinct-append (l ∷ xs) (i ∷ is) apart in
    elim (Bool-cases (elem i (l ∷ xs))) [
      | inl here ↦ absurd (clash (disjoint i here))
      | inr out ↦ out
    ]
  where
    clash : elem i (i ∷ is) ≡ false → ⊥
    clash h = ground (arith, h)

append_all_lem :
    (s : Items) (l : ℕ) (xs is : List ℕ)
    → IsList s l xs
    → distinct (l ∷ (xs ++ is)) ≡ true
    → length (xs ++ is) < 2 ^ 64
    → Returns (append_all s l is) (λ t. IsList t l (xs ++ is))
unfolding append_all
append_all_lem s l xs [] valid apart small =
    (s, refl, subst (IsList s l) (sym (append_nil xs)) valid)
append_all_lem s l xs (i ∷ is) valid apart small =
    let (t, ran, (valid', _)) =
      append-Puts s l xs i valid (fresh l xs i is apart)
        (omega (arith, length-append xs (i ∷ is))) in
    let (u, rest, valid'') =
      append_all_lem t l (xs ++ i ∷ []) is valid'
        (subst (λ ys. distinct (l ∷ ys) ≡ true) (sym (append_assoc xs i is)) apart)
        (subst (λ ys. length ys < 2 ^ 64) (sym (append_assoc xs i is)) small) in
    (u, rw (ran) rest, subst (IsList u l) (append_assoc xs i is) valid'')

-- `ocoms_list_sort`, when `qsort` permutes the items of an array: the loop that takes the items out ends,
-- and the list holds the items that `qsort` gives, in that order, unless there are items and `malloc`
-- refuses the array of them, when the call returns OCOMS_ERR_OUT_OF_RESOURCE and nothing has changed.
pub sort-IsList :
    (malloc : ℕ → Bool) (qsort : List ℕ → List ℕ) (s : Items) (l : ℕ) (xs : List ℕ)
    → ((is : List ℕ) → Permᴰ is (qsort is))
    → IsList s l xs
    → Returns (sort malloc qsort s l) (λ r.
      ((r.0 ≡ success) × IsList r.1 l (qsort xs) × ((xs ≡ []) ⊎ (malloc (length xs) ≡ true)))
      ⊎ ((r.0 ≡ out_of_resource) × (r.1 ≡ s) × (0 < length xs) × (malloc (length xs) ≡ false)))
unfolding sort elem distinct
sort-IsList malloc qsort s l [] permutes valid = (
  (success, s),
  rw (empty) refl,
  inl (refl, subst (IsList s l) (nothing (qsort []) (length-Perm (permutes []))) valid, inl refl),
)
  where
    empty : (s.list_length l == 0) ≡ true
    empty = ground (arith, valid.counted)

    nothing : (is : List ℕ) → 0 ≡ length is → [] ≡ is
    nothing [] h = refl
    nothing (i ∷ is) h = absurd (omega arith)
sort-IsList malloc qsort s l (x ∷ xs) permutes valid =
    elim (Bool-cases (malloc (s.list_length l))) [
      | inr refused ↦ (
        (out_of_resource, s),
        rw (some_items, refused) refl,
        inr (refl, refl, omega arith, of_all false refused),
      )
      | inl served ↦
          let (r, drained, (same, empty)) = drain_lem s l (x ∷ xs) valid in
          let (t, appended, sorted) =
            append_all_lem r.1 l [] (qsort (x ∷ xs)) empty still_apart
              (omega (arith, valid.bounded, length-Perm (permutes (x ∷ xs)))) in
          (
            (success, t),
            rw (some_items, served, valid.counted, drained, same, appended) refl,
            inl (refl, sorted, inr (of_all true served)),
          )
    ]
  where
    of_all : (b : Bool) → malloc (s.list_length l) ≡ b → malloc (length (x ∷ xs)) ≡ b
    of_all b h = subst (λ n. malloc n ≡ b) valid.counted h

    some_items : (s.list_length l == 0) ≡ false
    some_items = ground (arith, valid.counted)

    still_apart : distinct (l ∷ qsort (x ∷ xs)) ≡ true
    still_apart =
        ground
          (arith, valid.apart, elem-Perm l (permutes (x ∷ xs)), distinct-Perm (permutes (x ∷ xs)))
