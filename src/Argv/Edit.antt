-- ===== src/Argv/Edit.antt =====
-- `ocoms_argv_delete`, `_insert` and `_insert_element` of ocoms/util/argv.c. The `int` arguments may
-- be negative; the pointers `argv` and `target` themselves are not NULL.
use libocoms.Prelude.{
  ℕ, zero, suc, ◌+◌, ◌-◌, ltb, if◌then◌else◌, Option, none, some, [], ◌∷◌, Exec, done, fault,
  out_of_range, null_pointer, ◌>>=◌, load, store, int,
}
use libocoms.Prelude.Int.{ℤ, pos, negsuc, ◌-ℤ◌}
use libocoms.Prelude.{overflow}
use libocoms.Argv.{Str, Argv, Memory, count_slots, strdup, realloc, append}
use libocoms.Status.{Status, success, bad_param}

-- for (i = start; i < start + left; ++i) argv[i] = argv[i + by]
unfoldable pub shift_down : Argv → (by left start : ℕ) → Exec Argv
shift_down xs by zero i = done xs
shift_down xs by (suc left) i =
    load xs (i + by) >>= λ s. store xs i s >>= λ ys. shift_down ys by left (i + 1)

-- for (i = left - 1; i >= 0; --i) argv[start + by + i] = argv[start + i]
unfoldable pub shift_up_by : Argv → (by left start : ℕ) → Exec Argv
shift_up_by xs by zero start = done xs
shift_up_by xs by (suc left) start = load xs (start + left) >>= λ s.
    store xs (start + by + left) s >>= λ ys. shift_up_by ys by left start

-- a difference that an `int` holds
abbrev pub int_ℤ : ℤ → Exec ℤ
int_ℤ (pos n) = if ltb n 0x8000_0000 then done (pos n) else fault overflow
int_ℤ (negsuc n) = if ltb n 0x8000_0000 then done (negsuc n) else fault overflow

module _ (mem : Memory) where
  -- the part of `ocoms_argv_delete` behind its checks, whose sum of two `int`s may overflow; a `realloc` that fails leaves the block
  unfoldable pub delete_range : Argv → (count start num : ℕ) → Exec Argv
  delete_range xs n start num = do
    stop ← int (start + num)
    let suffix = n - stop
    ys ← shift_down xs num suffix start
    zs ← store ys (start + suffix) none
    done (elim (realloc mem zs (start + suffix + 1)) [ none ↦ zs | some ws ↦ ws ])

  -- `*argc` and the array after the call
  unfoldable pub delete : ℤ → Option Argv → (start num : ℤ) → Exec (Status × ℤ × Option Argv)
  delete argc none start num = done (success, argc, none)
  delete argc (some xs) start (pos zero) = done (success, argc, some xs)
  delete argc (some xs) (negsuc s) num = count_slots xs >>= λ _. done (bad_param, argc, some xs)
  delete argc (some xs) (pos s) (negsuc k) =
      count_slots xs >>= λ n. done (if ltb n s then success else bad_param, argc, some xs)
  delete argc (some xs) (pos s) (pos (suc k)) = count_slots xs >>= λ n.
      if ltb n s
      then done (success, argc, some xs)
      else (delete_range xs n s (suc k) >>= λ ys.
          int_ℤ (argc -ℤ pos (suc k)) >>= λ left. done (success, left, some ys))

  -- for (i = 0; i < source_count; ++i) ocoms_argv_append(&target_count, target, source[i]), whose
  -- result is not looked at
  unfoldable pub append_all : Argv → ℕ → Option Argv → Exec (Option Argv)
  append_all [] n target = fault out_of_range
  append_all (none ∷ source) n target = done target
  append_all (some s ∷ source) n target =
      append mem n target s >>= λ (status, n', target'). append_all source n' target'

  -- for (i = start; i < start + source_count; ++i) target[i] = strdup(source[i - start])
  unfoldable pub copy_in : Argv → Argv → ℕ → Exec Argv
  copy_in xs [] i = fault out_of_range
  copy_in xs (none ∷ source) i = done xs
  copy_in xs (some s ∷ source) i = store xs i (strdup mem s) >>= λ ys. copy_in ys source (i + 1)

  -- The result of `realloc` is used untested.
  unfoldable pub insert_middle : Argv → (n start : ℕ) → Argv → ℕ → Exec Argv
  insert_middle xs n start source k = elim (realloc mem xs (n + k + 1)) [
    | none ↦ fault null_pointer
    | some ys ↦ do
      zs ← shift_up_by ys k (n - start) start
      ws ← store zs (start + (n - start) + k) none
      copy_in ws source start
  ]

  unfoldable pub insert : Option Argv → ℤ → Option Argv → Exec (Status × Option Argv)
  insert none start source = done (bad_param, none)
  insert (some xs) (negsuc s) source = done (bad_param, some xs)
  insert (some xs) (pos start) none = done (success, some xs)
  insert (some xs) (pos start) (some source) = do
    n ← count_slots xs
    k ← count_slots source
    if ltb n start
        then (append_all source n (some xs) >>= λ ys. done (success, ys))
        else (insert_middle xs n start source k >>= λ ys. done (success, some ys))

  unfoldable pub insert_element : Option Argv → ℤ → Option Str → Exec (Status × Option Argv)
  insert_element none location source = done (bad_param, none)
  insert_element (some xs) (negsuc l) source = done (bad_param, some xs)
  insert_element (some xs) (pos location) none = done (success, some xs)
  insert_element (some xs) (pos location) (some s) = count_slots xs >>= λ n.
      if ltb n location
      then (append mem n (some xs) s >>= λ (status, _, ys). done (success, ys))
      else (elim (realloc mem xs (n + 2)) [
        | none ↦ fault null_pointer
        | some ys ↦ do
          zs ← shift_up_by ys 1 (n - location) location
          ws ← store zs (location + (n - location) + 1) none
          vs ← store ws location (strdup mem s)
          done (success, some vs)
      ])
