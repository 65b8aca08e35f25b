-- ===== src/LinkedList/Deque.antt =====
-- Sequences of calls on one list, against a sequence of items.
use mathlib.Core.Path.{subst}
use libocoms.Prelude.{
  ℕ, suc, ◌+◌, ◌<◌, ◌≤◌, ◌^◌, ◌==◌, ◌≡◌, refl, sym, ap, ap₂, Bool, true, ◌&&◌, not, Option, none,
  some, List, [], ◌∷◌, ◌++◌, length, length-append, Exec, done, Returns, ◌>>=◌, arith,
}
use libocoms.LinkedList.{Items, construct, append, prepend, remove_first, remove_last}
use libocoms.LinkedList.Segment.{Segment, elem, distinct}
use libocoms.LinkedList.Rings.{IsList, append_nil}
use libocoms.LinkedList.Inserting.{append-Puts, prepend-Puts}
use libocoms.LinkedList.Removing.{remove_first-TakesItem, remove_last-TakesItem}
use libocoms.LinkedList.Sorting.{remove_first-none}

pub data Call : Type 0 where
  append_call prepend_call : ℕ → Call
  remove_first_call remove_last_call : Call

-- the items without the last one, and the last one
unfoldable pub front : ℕ → List ℕ → List ℕ
front x [] = []
front x (y ∷ ys) = x ∷ front y ys

unfoldable pub back : ℕ → List ℕ → ℕ
back x [] = x
back x (y ∷ ys) = back y ys

unfoldable pub spec_call : List ℕ → Call → Option ℕ × List ℕ
spec_call xs (append_call i) = (none, xs ++ i ∷ [])
spec_call xs (prepend_call i) = (none, i ∷ xs)
spec_call [] remove_first_call = (none, [])
spec_call (x ∷ xs) remove_first_call = (some x, xs)
spec_call [] remove_last_call = (none, [])
spec_call (x ∷ xs) remove_last_call = (some (back x xs), front x xs)

unfoldable pub spec_calls : List ℕ → List Call → List (Option ℕ) × List ℕ
spec_calls xs [] = ([], xs)
spec_calls xs (c ∷ cs) = let r = spec_call xs c in let rs = spec_calls r.1 cs in (r.0 ∷ rs.0, rs.1)

-- A call only puts in what is not in the list.
unfoldable pub allowed : (l : ℕ) → List ℕ → Call → Bool
allowed l xs (append_call i) = not (elem i (l ∷ xs))
allowed l xs (prepend_call i) = not (elem i (l ∷ xs))
allowed l xs remove_first_call = true
allowed l xs remove_last_call = true

unfoldable pub all_allowed : (l : ℕ) → List ℕ → List Call → Bool
all_allowed l xs [] = true
all_allowed l xs (c ∷ cs) = allowed l xs c && all_allowed l (spec_call xs c).1 cs

unfoldable pub call : Items → (l : ℕ) → Call → Exec (Option ℕ × Items)
call s l (append_call i) = append s l i >>= λ t. done (none, t)
call s l (prepend_call i) = prepend s l i >>= λ t. done (none, t)
call s l remove_first_call = remove_first s l
call s l remove_last_call = remove_last s l

unfoldable pub calls : Items → (l : ℕ) → List Call → Exec (List (Option ℕ) × Items)
calls s l [] = done ([], s)
calls s l (c ∷ cs) = call s l c >>= λ r. calls r.1 l cs >>= λ rs. done (r.0 ∷ rs.0, rs.1)

-- A constructed list holds no items.
pub construct-IsList : (s : Items) (l : ℕ) → IsList (construct s l) l []
unfolding Segment distinct elem
construct-IsList s l = record {
  ring = (ground arith, ground arith);
  apart = refl;
  counted = ground arith;
  bounded = omega arith;
}

front-back : (x : ℕ) (xs : List ℕ) → front x xs ++ back x xs ∷ [] ≡ x ∷ xs
unfolding front back
front-back x [] = refl
front-back x (y ∷ ys) = ap (λ zs. x ∷ zs) (front-back y ys)

remove_last-none : (s : Items) (l : ℕ) → s.list_length l ≡ 0 → remove_last s l ≡ done (none, s)
unfolding remove_last
remove_last-none s l empty = rw (no_items) refl
  where
    no_items : (s.list_length l == 0) ≡ true
    no_items = ground (arith, empty)

call-spec_call :
    (s : Items) (l : ℕ) (xs : List ℕ) (c : Call)
    → IsList s l xs
    → allowed l xs c ≡ true
    → suc (length xs) < 2 ^ 64
    → Returns (call s l c) (λ r.
      (r.0 ≡ (spec_call xs c).0)
      × IsList r.1 l (spec_call xs c).1
      × (length (spec_call xs c).1 ≤ suc (length xs)))
unfolding call spec_call allowed
call-spec_call s l xs (append_call i) valid may small =
    let (t, ran, (valid', _)) = append-Puts s l xs i valid (ground (arith, may)) small in
    ((none, t), rw (ran) refl, (refl, valid', omega (arith, length-append xs (i ∷ []))))
call-spec_call s l xs (prepend_call i) valid may small =
    let (t, ran, (valid', _)) = prepend-Puts s l xs i valid (ground (arith, may)) small in
    ((none, t), rw (ran) refl, (refl, valid', omega arith))
call-spec_call s l [] remove_first_call valid may small =
    ((none, s), remove_first-none s l valid.counted, (refl, valid, omega arith))
call-spec_call s l (x ∷ xs) remove_first_call valid may small =
    let (r, ran, (given, (valid', _))) = remove_first-TakesItem s l x xs valid in
    (r, ran, (given, valid', omega arith))
call-spec_call s l [] remove_last_call valid may small =
    ((none, s), remove_last-none s l valid.counted, (refl, valid, omega arith))
call-spec_call s l (x ∷ xs) remove_last_call valid may small =
    let (r, ran, (given, (valid', _))) =
      remove_last-TakesItem s l (front x xs) (back x xs)
        (subst (IsList s l) (sym (front-back x xs)) valid) in
    (
      r,
      ran,
      (
        given,
        subst (IsList r.1 l) (append_nil (front x xs)) valid',
        shorter (ap length (front-back x xs)),
      ),
    )
  where
    shorter :
        length (front x xs ++ back x xs ∷ []) ≡ length (x ∷ xs)
        → length (front x xs) ≤ suc (length (x ∷ xs))
    shorter e = omega (arith, e, length-append (front x xs) (back x xs ∷ []))

-- Any sequence of `ocoms_list_append`, `_prepend`, `_remove_first` and `_remove_last` on a list, each
-- putting in an item that is not in it: the calls end and give what they give on a sequence of items, and
-- the list holds the sequence.
pub calls_lem :
    (cs : List Call) (s : Items) (l : ℕ) (xs : List ℕ)
    → IsList s l xs
    → all_allowed l xs cs ≡ true
    → suc (length xs + length cs) < 2 ^ 64
    → Returns (calls s l cs) (λ r. (r.0 ≡ (spec_calls xs cs).0) × IsList r.1 l (spec_calls xs cs).1)
unfolding calls spec_calls all_allowed
calls_lem [] s l xs valid may small = (([], s), refl, (refl, valid))
calls_lem (c ∷ cs) s l xs valid may small =
    let (r, ran, (same, valid', longer)) =
      call-spec_call s l xs c valid (ground (arith, may)) (omega arith) in
    let (rs, runs, (sames, valid'')) =
      calls_lem cs r.1 l (spec_call xs c).1 valid' (ground (arith, may)) (omega arith) in
    ((r.0 ∷ rs.0, rs.1), rw (ran, runs) refl, (ap₂ (λ a b. a ∷ b) same sames, valid''))
