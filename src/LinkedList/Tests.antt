-- ===== src/LinkedList/Tests.antt =====
-- Runs of the linked lists, and their theorems at concrete lists.
use libocoms.Prelude.{
  ◌<◌, none, false, List, ℕ, ◌≡◌, ◌⊎◌, refl, true, ltb, if◌then◌else◌, Option, some, [], ◌∷◌, done,
  Returns, ◌>>=◌, arith,
}
use mathlib.Core.List.{Permᴰ}
use mathlib.Core.List.Permᴰ.{nil, cons, swap}
use libocoms.Status.{success, out_of_resource}
use libocoms.Prelude.Int.{pos, negsuc}
use libocoms.LinkedList.{
  construct, Items, written, remove_item, remove_first, insert, insert_behind, advance, join,
  transfer, splice, count_to, drain, sort,
}
use libocoms.LinkedList.Deque.{
  Call, append_call, prepend_call, remove_first_call, remove_last_call, calls, spec_calls,
  spec_call, all_allowed, allowed, front, back, construct-IsList, calls_lem,
}
use libocoms.LinkedList.Indexed.{insert_at_first}
use libocoms.LinkedList.Removing.{TakesItem, remove_item-TakesItem}
use libocoms.LinkedList.Joining.{splice-IsList}
use libocoms.LinkedList.Sorting.{sort-IsList}
use libocoms.LinkedList.Rings.{IsList, first}
use libocoms.LinkedList.Segment.{Segment, elem, distinct, end}

-- The list 9 holds 1, 2 and 3, and the list 19 holds 11.
abbrev links : (l a b c : ℕ) → ℕ → Option ℕ
links l a b c =
    written
      (written (written (written (written (λ _. some 19) 19 (some 11)) 9 (some l)) 1 (some a)) 2
        (some b))
      3 (some c)

abbrev two_lists : Items
two_lists = record {
  list_next = links 1 2 3 9;
  list_prev = links 3 9 1 2;
  list_length = λ j. if ltb j 10 then 3 else 1;
}

nine-IsList : IsList two_lists 9 (1 ∷ 2 ∷ 3 ∷ [])
unfolding Segment distinct elem
nine-IsList = record {
  ring = ((refl, refl), ((refl, refl), ((refl, refl), (refl, refl))));
  apart = refl;
  counted = refl;
  bounded = omega arith;
}

nineteen-IsList : IsList two_lists 19 (11 ∷ [])
unfolding Segment distinct elem
nineteen-IsList = record {
  ring = ((refl, refl), (refl, refl));
  apart = refl;
  counted = refl;
  bounded = omega arith;
}

nothing_in_common : (j : ℕ) → elem j (9 ∷ 1 ∷ 2 ∷ 3 ∷ []) ≡ true → elem j (19 ∷ 11 ∷ []) ≡ false
unfolding elem
nothing_in_common j h = ground (arith, h)

nothing_in_common' : (j : ℕ) → elem j (19 ∷ 11 ∷ []) ≡ true → elem j (9 ∷ 1 ∷ 2 ∷ 3 ∷ []) ≡ false
unfolding elem
nothing_in_common' j h = ground (arith, h)

-- the items 2 and 3 to the end of the second list
splice-IsList_example :
    Returns
      (splice two_lists 19 19 9 2 9)
      (λ t. IsList t 19 (11 ∷ 2 ∷ 3 ∷ []) × IsList t 9 (1 ∷ []))
unfolding first
splice-IsList_example =
    splice-IsList two_lists 19 (11 ∷ []) [] 9 (1 ∷ []) 2 (3 ∷ []) [] nineteen-IsList nine-IsList
      nothing_in_common' (omega arith)

-- what a sort by some comparison may do
abbrev swap_two : List ℕ → List ℕ
swap_two (a ∷ b ∷ is) = b ∷ a ∷ is
swap_two is = is

swap_two-Perm : (is : List ℕ) → Permᴰ is (swap_two is)
swap_two-Perm [] = nil
swap_two-Perm (a ∷ []) = cons refl nil
swap_two-Perm (a ∷ b ∷ is) = swap refl refl

sort-IsList_example : Returns (sort (λ _. true) swap_two two_lists 9) (λ r.
    ((r.0 ≡ success)
      × IsList r.1 9 (2 ∷ 1 ∷ 3 ∷ [])
      × ((◌≡◌ {A = List ℕ} (1 ∷ 2 ∷ 3 ∷ []) []) ⊎ (true ≡ true)))
    ⊎ ((r.0 ≡ out_of_resource) × (r.1 ≡ two_lists) × (0 < 3) × (true ≡ false)))
sort-IsList_example =
    sort-IsList (λ _. true) swap_two two_lists 9 (1 ∷ 2 ∷ 3 ∷ []) swap_two-Perm nine-IsList

insert_at_first_example :
    Returns
      (insert two_lists 9 7 (pos 0))
      (λ r. (r.0 ≡ true) × Segment r.1 9 (7 ∷ 1 ∷ 2 ∷ 3 ∷ []) 9 × (r.1.list_length 9 ≡ 5))
unfolding elem
insert_at_first_example =
    insert_at_first two_lists 9 1 (2 ∷ 3 ∷ []) 7 nine-IsList refl (omega arith)

remove_item-TakesItem_example :
    Returns
      (remove_item two_lists 9 2)
      (λ r. (r.0 ≡ some 1) × TakesItem two_lists 9 (1 ∷ []) (3 ∷ []) r.1)
unfolding end
remove_item-TakesItem_example = remove_item-TakesItem two_lists 9 (1 ∷ []) (3 ∷ []) 2 nine-IsList

-- the items of a run from the front
drain_run : (drain two_lists 9 3 >>= λ r. done r.0) ≡ done (1 ∷ 2 ∷ 3 ∷ [])
unfolding drain remove_first
drain_run = refl

-- all of the second list in front of the item 2
join_run :
    (join two_lists 9 2 19 >>= λ s. drain s 9 4 >>= λ r. done r.0) ≡ done (1 ∷ 11 ∷ 2 ∷ 3 ∷ [])
unfolding join transfer drain remove_first
join_run = refl

-- the items 2 and 3 into the second list
splice_run :
    (splice two_lists 19 19 9 2 9 >>= λ s. drain s 19 3 >>= λ r. done r.0) ≡ done (11 ∷ 2 ∷ 3 ∷ [])
unfolding splice count_to transfer drain remove_first
splice_run = refl

-- a negative index is taken for the place behind the first item
negative_run :
    (insert two_lists 9 7 (negsuc 4) >>= λ r. drain r.1 9 4 >>= λ q. done q.0)
    ≡ done (1 ∷ 7 ∷ 2 ∷ 3 ∷ [])
unfolding insert insert_behind advance drain remove_first
negative_run = refl

abbrev some_calls : List Call
some_calls =
    append_call 7 ∷ prepend_call 8 ∷ remove_last_call ∷ remove_first_call ∷ remove_first_call ∷ []

calls_example :
    Returns
      (calls (construct two_lists 5) 5 some_calls)
      (λ r. (r.0 ≡ none ∷ none ∷ some 7 ∷ some 8 ∷ none ∷ []) × IsList r.1 5 [])
unfolding spec_calls spec_call all_allowed allowed elem front back
calls_example =
    calls_lem some_calls (construct two_lists 5) 5 [] (construct-IsList two_lists 5) refl
      (omega arith)
