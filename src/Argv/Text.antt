-- ===== src/Argv/Text.antt =====
-- `ocoms_argv_split`, `_split_with_empty`, `_join` and `_join_range` of ocoms/util/argv.c.
-- The bounds of a range are below 2 ^ 31, where the cast of `start` to `int` keeps it.
use libocoms.Prelude.{
  ℕ, zero, suc, ◌+◌, ◌-◌, ◌==◌, ltb, if◌then◌else◌, Bool, true, false, ◌&&◌, not, Option, none,
  some, [], ◌∷◌, length, drop, Exec, done, fault, out_of_range, null_pointer, endless, ◌>>=◌, load,
}
use libocoms.Argv.{Str, Argv, Memory, count, append}
use libocoms.Status.{success}

-- ARGSIZE
abbrev pub argsize : ℕ
argsize = 128

-- while (('\0' != *p) && (*p != delimiter)) ++p: what was passed, and the text at `p`
unfoldable pub scan : ℕ → Str → Str × Str
scan delim [] = ([], [])
scan delim (c ∷ s) = let (tok, p) = scan delim s in if c == delim then ([], c ∷ s) else (c ∷ tok, p)

module _ (mem : Memory) where
  open mem use {serves}

  -- `ocoms_argv_append` of one piece, and what goes on from there; the caller gets NULL on failure
  abbrev pub add_piece :
      ℕ → Option Argv → Str → (ℕ → Option Argv → Exec (Option Argv)) → Exec (Option Argv)
  add_piece argc argv tok next = append mem argc argv tok >>= λ (status, n, argv'). elim status [
    | success ↦ next n argv'
    | _ ↦ done none
  ]

  -- One round on a text that is not empty, from the end of the inner loop on: `tok` was passed, `p` is
  -- left, and `next` goes on with a text, a count and an array.
  unfoldable pub split_round :
      Str
      → Str × Str
      → Bool
      → ℕ
      → Option Argv
      → (Str → ℕ → Option Argv → Exec (Option Argv))
      → Exec (Option Argv)
  split_round src ([], p) include_empty argc argv next =
      if include_empty then add_piece argc argv [] (next (drop 1 p)) else next (drop 1 p) argc argv
  split_round src (t ∷ ts, []) include_empty argc argv next =
      add_piece argc argv src (λ _ argv'. done argv')
  split_round src (t ∷ ts, d ∷ p) include_empty argc argv next =
      if ltb (argsize - 1) (length (t ∷ ts)) && not (serves (length (t ∷ ts) + 1))
      then done none
      else add_piece argc argv (t ∷ ts) (next p)

  -- the outer loop; each round takes a character, so the length of the text is enough fuel
  unfoldable pub split_loop : (fuel : ℕ) → Str → ℕ → Bool → ℕ → Option Argv → Exec (Option Argv)
  split_loop fuel [] delim include_empty argc argv = done argv
  split_loop zero (c ∷ s) delim include_empty argc argv = fault endless
  split_loop (suc fuel) (c ∷ s) delim include_empty argc argv =
      split_round (c ∷ s) (scan delim (c ∷ s)) include_empty argc argv
        (λ text. split_loop fuel text delim include_empty)

  -- `src_string` may be NULL
  unfoldable pub split_inter : Option Str → ℕ → Bool → Exec (Option Argv)
  split_inter none delim include_empty = done none
  split_inter (some s) delim include_empty = split_loop (length s) s delim include_empty 0 none

  unfoldable pub split : Option Str → ℕ → Exec (Option Argv)
  split s delim = split_inter s delim false

  unfoldable pub split_with_empty : Option Str → ℕ → Exec (Option Argv)
  split_with_empty s delim = split_inter s delim true

-- for (p = …; *p && i < end; ++p, ++i) str_len += strlen(*p) + 1, with `left` strings to go
unfoldable pub total_len : Argv → (left : ℕ) → Exec ℕ
total_len xs zero = done 0
total_len [] (suc left) = fault out_of_range
total_len (none ∷ xs) (suc left) = done 0
total_len (some s ∷ xs) (suc left) = total_len xs left >>= λ n. done (length s + 1 + n)

-- The loop that fills in `left` characters: `pp` is at the text that is left of the current string,
-- and the other slots follow.
unfoldable pub fill : ℕ → (left : ℕ) → Option Str → Argv → Exec Str
fill delim zero pp xs = done []
fill delim (suc left) none xs = fault null_pointer
fill delim (suc left) (some []) [] = fault out_of_range
fill delim (suc left) (some []) (x ∷ xs) = fill delim left x xs >>= λ out. done (delim ∷ out)
fill delim (suc left) (some (c ∷ s)) xs = fill delim left (some s) xs >>= λ out. done (c ∷ out)

module _ (mem : Memory) where
  open mem use {serves}

  -- From the slots on: `str[--str_len] = '\0'` wraps round and leaves the block if there is no string.
  unfoldable pub join_slots : Argv → (left delim : ℕ) → Exec (Option Str)
  join_slots xs left delim = total_len xs left >>= λ n.
      if serves n
      then elim n [
        | zero ↦ fault out_of_range
        | suc m ↦ elim xs [
          | [] ↦ fault out_of_range
          | x ∷ rest ↦ fill delim m x rest >>= λ out. done (some out)
        ]
      ]
      else done none

  -- `strdup("")`
  abbrev pub empty_string : Exec (Option Str)
  empty_string = done (if serves 1 then some [] else none)

  -- The first loop of `ocoms_argv_join` stops only at NULL: no bound on the strings is the length of
  -- the block.
  unfoldable pub join : Option Argv → ℕ → Exec (Option Str)
  join none delim = empty_string
  join (some xs) delim = load xs 0 >>= λ first. elim first [
    | none ↦ empty_string
    | some _ ↦ join_slots xs (suc (length xs)) delim
  ]

  unfoldable pub join_range : Option Argv → (start end delim : ℕ) → Exec (Option Str)
  join_range none start end delim = empty_string
  join_range (some xs) start end delim = load xs 0 >>= λ first. elim first [
    | none ↦ empty_string
    | some _ ↦ count (some xs) >>= λ n.
        if ltb n start then empty_string else join_slots (drop start xs) (end - start) delim
  ]
