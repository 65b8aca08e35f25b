-- ===== src/Argv/Append.antt =====
-- `ocoms_argv_append`, `_append_nosize`, `_prepend_nosize` and `_copy` on well-formed arrays, with an
-- allocator that serves every request.
use mathlib.Core.List.{map, append-nil, append_assoc}
use libocoms.Prelude.{
  ℕ, ◌+◌, ◌≡◌, sym, ap, ◌∙◌, Option, none, some, List, [], ◌∷◌, ◌++◌, length, done, arith,
  length-append,
}
use libocoms.Argv.{Str, Argv, Memory, realloc, extend, put_last, append_nosize, append, copy_slots}
use libocoms.Argv.Blocks.{
  block, Holds, null, points, Plenty, store-middle, length-strings, count_slots-block, count-Holds,
  realloc-block, block-append,
}
use libocoms.Status.{success}

put_last-block :
    (mem : Memory) (ss : List Str) (x : Option Str) (s : Str)
    → Plenty mem
    → put_last mem (length ss) (block ss (x ∷ [])) s
      ≡ done (success, some (block (ss ++ s ∷ []) []))
unfolding put_last
put_last-block mem ss x s ok =
    let pre : Argv = map some ss in
    let first = store-middle pre (x ∷ []) none (some s) (length ss) (sym (length-strings ss)) in
    let second =
      store-middle (pre ++ some s ∷ []) [] x none (length ss + 1)
        (omega (arith, length-append pre (some s ∷ []), length-strings ss)) in
    ground
      (arith, ok (length s + 1), first, simp append_assoc at second, block-append ss (s ∷ []) [])

-- Appending to a well-formed array, or to NULL, succeeds, and the array is that of the strings with
-- the new one behind them.
pub append_nosize-Holds :
    (mem : Memory) (argv : Option Argv) (ss : List Str) (s : Str)
    → Plenty mem
    → Holds argv ss
    → append_nosize mem argv s ≡ done (success, some (block (ss ++ s ∷ []) []))
unfolding append_nosize extend
append_nosize-Holds mem _ _ s ok null = ground (arith, ok 16, put_last-block mem [] none s ok)
append_nosize-Holds mem _ _ s ok (points ss rest) =
    let (tail, grown, one) = realloc-block mem ss rest (length ss + 2) 1 ok (omega arith) in
    go tail grown one
  where
    go :
        (tail : Argv)
        → realloc mem (block ss rest) (length ss + 2) ≡ some (block ss tail)
        → length tail ≡ 1
        → append_nosize mem (some (block ss rest)) s
          ≡ done (success, some (block (ss ++ s ∷ []) []))
    go [] grown one = absurd (omega arith)
    go (x ∷ []) grown one =
        ground (arith, count_slots-block ss rest, grown, put_last-block mem ss x s ok)
    go (x ∷ y ∷ tail) grown one = absurd (omega arith)

-- With memory, `ocoms_argv_append` to a well-formed array, or to NULL, succeeds, puts the string behind
-- the others and sets `*argc` to the new number of strings.
pub append-Holds :
    (mem : Memory) (argc : ℕ) (argv : Option Argv) (ss : List Str) (s : Str)
    → Plenty mem
    → Holds argv ss
    → append mem argc argv s ≡ done (success, length ss + 1, some (block (ss ++ s ∷ []) []))
unfolding append
append-Holds mem argc argv ss s ok h = ground (
  arith,
  append_nosize-Holds mem argv ss s ok h,
  count-Holds (some (block (ss ++ s ∷ []) [])) (ss ++ s ∷ []) (points (ss ++ s ∷ []) []),
  length-append ss (s ∷ []),
)

copy_slots-Holds :
    (mem : Memory) (ss ts : List Str) (rest : Argv) (n : ℕ)
    → Plenty mem
    → copy_slots mem (block ss rest) n (some (block ts [])) ≡ done (some (block (ts ++ ss) []))
unfolding copy_slots
copy_slots-Holds mem [] ts rest n ok = ap (λ us. done (some (block us []))) (sym (append-nil ts))
copy_slots-Holds mem (s ∷ ss) ts rest n ok =
    rw (append-Holds mem n (some (block ts [])) ts s ok (points ts [])) (
      copy_slots-Holds mem ss (ts ++ s ∷ []) rest (length ts + 1) ok
      ∙ ap (λ us. done (some (block us []))) (append_assoc ts (s ∷ []) ss))
