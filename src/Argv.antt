-- ===== src/Argv.antt =====
-- NULL-terminated arrays of strings, ocoms/util/argv.c. A string is the list of its characters
-- before the final '\0'; characters and delimiters are ASCII codes, on which `char` and `int` agree.
-- An array is the list of the slots of its memory block, with `none` for a NULL pointer, so that the
-- code's loops and the end of the block are visible; a `char **` is an `Option` of that.
-- Counting, measuring and freeing are here with the functions that add one string; deleting and
-- inserting are in Edit, splitting and joining in Text.
pub mod Edit
pub mod Text
pub mod Blocks
pub mod Append
pub mod Moves
pub mod Delete
pub mod Insert
pub mod Join
pub mod Split
pub mod Rejoin
pub mod Tests
use libocoms.Prelude.{
  ℕ, zero, suc, ◌+◌, ◌-◌, ◌*◌, ◌==◌, if◌then◌else◌, Bool, true, false, Option, none, some, List, [],
  ◌∷◌, ◌++◌, length, take, replicate, Exec, done, fault, out_of_range, null_pointer, ◌>>=◌, ◌>>◌,
  load, store,
}
use libocoms.Status.{Status, success, out_of_resource}

abbrev pub Str : Type 0
Str = List ℕ

abbrev pub Argv : Type 0
Argv = List (Option Str)

-- What the allocator does: whether it serves a request of so many bytes, and the content of a slot
-- that was never written.
pub record Memory : Type 0 where
  pub serves : ℕ → Bool
  pub junk : Option Str

-- `sizeof(char *)`
abbrev pub pointer_size : ℕ
pointer_size = 8

-- for (i = 0, p = argv; *p; i++, p++)
unfoldable pub count_slots : Argv → Exec ℕ
count_slots [] = fault out_of_range
count_slots (none ∷ xs) = done 0
count_slots (some s ∷ xs) = count_slots xs >>= λ n. done (suc n)

unfoldable pub count : Option Argv → Exec ℕ
unfolding count_slots
count none = done 0
count (some xs) = count_slots xs

-- the loop of `ocoms_argv_len`
unfoldable pub len_slots : Argv → ℕ → Exec ℕ
len_slots [] total = fault out_of_range
len_slots (none ∷ xs) total = done total
len_slots (some s ∷ xs) total = len_slots xs (total + (length s + 1 + pointer_size))

unfoldable pub len : Option Argv → Exec ℕ
unfolding len_slots
len none = done 0
len (some xs) = len_slots xs pointer_size

-- the comparison of `strcmp`
unfoldable pub strcmp_eq : Str → Str → Bool
strcmp_eq [] [] = true
strcmp_eq [] (d ∷ t) = false
strcmp_eq (c ∷ s) [] = false
strcmp_eq (c ∷ s) (d ∷ t) = if c == d then strcmp_eq s t else false

module _ (mem : Memory) where
  open mem use {serves, junk}

  -- `strdup`
  abbrev pub strdup : Str → Option Str
  strdup s = if serves (length s + 1) then some s else none

  -- `realloc` to a number of slots
  unfoldable pub realloc : Argv → ℕ → Option Argv
  realloc xs n =
      if serves (n * pointer_size) then some (take n xs ++ replicate (n - length xs) junk) else none

  -- the room for one more string, and the number of strings before it
  unfoldable pub extend : Option Argv → Exec (Option (ℕ × Argv))
  extend none = done (if serves (2 * pointer_size) then some (0, none ∷ none ∷ []) else none)
  extend (some xs) = do
    argc ← count_slots xs
    done (elim (realloc xs (argc + 2)) [ none ↦ none | some ys ↦ some (argc, ys) ])

  -- argv[argc] = strdup(arg); argv[argc + 1] = NULL
  unfoldable pub put_last : ℕ → Argv → Str → Exec (Status × Option Argv)
  put_last argc xs arg = do
    ys ← store xs argc (strdup arg)
    elim (strdup arg) [
      | none ↦ done (out_of_resource, some ys)
      | some _ ↦ store ys (argc + 1) none >>= λ zs. done (success, some zs)
    ]

  unfoldable pub append_nosize : Option Argv → Str → Exec (Status × Option Argv)
  append_nosize argv arg = extend argv >>= λ room. elim room [
    | none ↦ done (out_of_resource, none)
    | some (argc, xs) ↦ put_last argc xs arg
  ]

  -- `*argc` is left alone when the string is not added.
  unfoldable pub append : ℕ → Option Argv → Str → Exec (Status × ℕ × Option Argv)
  append argc argv arg = append_nosize argv arg >>= λ r. elim r.0 [
    | success ↦ count r.1 >>= λ n. done (success, n, r.1)
    | _ ↦ done (r.0, argc, r.1)
  ]

  -- for (i = argc; 0 < i; i--) argv[i] = argv[i - 1]
  unfoldable pub shift_up : Argv → ℕ → Exec Argv
  shift_up xs zero = done xs
  shift_up xs (suc i) = load xs i >>= λ s. store xs (suc i) s >>= λ ys. shift_up ys i

  -- The result of `strdup` is stored untested.
  unfoldable pub prepend_nosize : Option Argv → Str → Exec (Status × Option Argv)
  prepend_nosize none arg = done (
      if serves (2 * pointer_size)
      then (success, some (strdup arg ∷ none ∷ []))
      else (out_of_resource, none))
  prepend_nosize (some xs) arg = count_slots xs >>= λ argc. elim (realloc xs (argc + 2)) [
    | none ↦ done (out_of_resource, none)
    | some ys ↦ do
      ended ← store ys (argc + 1) none
      shifted ← shift_up ended argc
      zs ← store shifted 0 (strdup arg)
      done (success, some zs)
  ]

  -- The loop over the strings: the slots from the first that equals `arg`, replaced on request by a
  -- fresh copy; `none` if there is no such string.
  unfoldable pub find_arg : Argv → Str → Bool → Exec (Option Argv)
  find_arg [] arg overwrite = fault out_of_range
  find_arg (none ∷ xs) arg overwrite = done none
  find_arg (some s ∷ xs) arg overwrite =
      let later = find_arg xs arg overwrite >>= λ found.
      done (elim found [ none ↦ none | some ys ↦ some (some s ∷ ys) ]) in
      if strcmp_eq arg s
      then done (some ((if overwrite then strdup arg else some s) ∷ xs))
      else later

  unfoldable pub append_unique_nosize : Option Argv → Str → Bool → Exec (Status × Option Argv)
  append_unique_nosize none arg overwrite = append_nosize none arg
  append_unique_nosize (some xs) arg overwrite = find_arg xs arg overwrite >>= λ found. elim found [
    | some ys ↦ done (success, some ys)
    | none ↦ append_nosize (some xs) arg
  ]

  -- while (NULL != *argv) append the string to the copy; an array that cannot be copied is freed
  unfoldable pub copy_slots : Argv → ℕ → Option Argv → Exec (Option Argv)
  copy_slots [] dupc dup = fault out_of_range
  copy_slots (none ∷ xs) dupc dup = done dup
  copy_slots (some s ∷ xs) dupc dup = append dupc dup s >>= λ (status, argc, r). elim status [
    | success ↦ copy_slots xs argc r
    | _ ↦ done none
  ]

  -- The result of `malloc` is written untested.
  unfoldable pub copy : Option Argv → Exec (Option Argv)
  copy none = done none
  copy (some xs) =
      if serves pointer_size then copy_slots xs 0 (some (none ∷ [])) else fault null_pointer
