-- ===== src/Argv/Tests.antt =====
-- Runs of the string arrays, and their theorems on the array "a", "b", "c" and on the text "a::bc:".
use libocoms.Prelude.{
  ◌≡◌, inr, refl, true, false, List, [], ◌∷◌, none, some, done, fault, out_of_range, overflow, ◌⊎◌,
  ◌≤◌, ◌<◌, Returns, arith, ◌>>=◌,
}
use libocoms.Prelude.Int.{pos}
use libocoms.Argv.{
  Str, Memory, count_slots, realloc, prepend_nosize, shift_up, append_unique_nosize, find_arg,
  strcmp_eq, len, len_slots,
}
use libocoms.Argv.Blocks.{block, Holds, Plenty}
use libocoms.Argv.Delete.{Deleted, delete-Holds}
use libocoms.Argv.Edit.{delete_range, delete, insert}
use libocoms.Argv.Insert.{insert-Holds}
use libocoms.Argv.Join.{join_range_empty}
use libocoms.Argv.Split.{pieces, kept, chomp, split-Holds}
use libocoms.Argv.Rejoin.{join-split_with_empty}
use libocoms.Argv.Text.{split, split_with_empty, join, join_range}
use libocoms.Status.{success}

-- an allocator that serves every request
abbrev plenty : Memory
plenty = record { serves = λ n. true; junk = none }

plenty-Plenty : Plenty plenty
plenty-Plenty n = refl

abbrev a : Str
a = 97 ∷ []

abbrev b : Str
b = 98 ∷ []

abbrev c : Str
c = 99 ∷ []

abbrev three : List Str
three = a ∷ b ∷ c ∷ []

-- the text "a::bc:"
abbrev text : Str
text = 97 ∷ 58 ∷ 58 ∷ 98 ∷ 99 ∷ 58 ∷ []

len-three : len (some (block three [])) ≡ done 38
unfolding len len_slots
len-three = refl

append_unique_present :
    append_unique_nosize plenty (some (block three [])) b false
    ≡ done (success, some (block three []))
unfolding append_unique_nosize find_arg strcmp_eq
append_unique_present = refl

prepend_three :
    prepend_nosize plenty (some (block three [])) c ≡ done (success, some (block (c ∷ three) []))
unfolding prepend_nosize count_slots realloc shift_up
prepend_three = refl

-- Two strings are asked for behind the first of three.
delete-Holds_example :
    ((1 ≤ 3)
      × (0x8000_0000 ≤ 3)
      × (delete plenty (pos 3) (some (block three [])) (pos 1) (pos 2) ≡ fault overflow))
    ⊎ (((3 < 1) ⊎ (3 < 0x8000_0000))
        × Returns
            (delete plenty (pos 3) (some (block three [])) (pos 1) (pos 2))
            (Deleted (pos 3) three 1 2))
delete-Holds_example = delete-Holds plenty (pos 3) three [] 1 1 (omega arith) (omega arith)

-- Position and number do not add up to an `int`.
delete_overflow :
    delete plenty (pos 3) (some (block three [])) (pos 1) (pos 0x7fff_ffff) ≡ fault overflow
unfolding delete delete_range count_slots
delete_overflow = refl

insert-Holds_example :
    Returns
      (insert plenty (some (block three [])) (pos 1) (some (block (c ∷ c ∷ []) [])))
      (λ r. (r.0 ≡ success) × Holds r.1 (a ∷ c ∷ c ∷ b ∷ c ∷ []))
insert-Holds_example = insert-Holds plenty three (c ∷ c ∷ []) [] [] 1 plenty-Plenty

-- The range behind the last of three strings.
join_range_empty_example : join_range plenty (some (block three [])) 3 4 58 ≡ fault out_of_range
join_range_empty_example =
    join_range_empty plenty a (b ∷ c ∷ []) [] 3 4 58 plenty-Plenty (inr refl) (omega arith)

split-Holds_example :
    Returns (split plenty (some text) 58) (λ r. Holds r (a ∷ (98 ∷ 99 ∷ []) ∷ []))
    × Returns (split_with_empty plenty (some text) 58) (λ r. Holds r (a ∷ [] ∷ (98 ∷ 99 ∷ []) ∷ []))
    × (split plenty none 58 ≡ done none)
    × (split_with_empty plenty none 58 ≡ done none)
unfolding kept pieces
split-Holds_example = split-Holds plenty text 58 plenty-Plenty

join-split_with_empty_example :
    (split_with_empty plenty (some text) 58 >>= λ argv. join plenty argv 58)
    ≡ done (some (97 ∷ 58 ∷ 58 ∷ 98 ∷ 99 ∷ []))
unfolding chomp
join-split_with_empty_example = join-split_with_empty plenty text 58 plenty-Plenty
