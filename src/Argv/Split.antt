-- ===== src/Argv/Split.antt =====
-- `ocoms_argv_split` and `ocoms_argv_split_with_empty` against a description by recursion on the text,
-- with an allocator that serves every request.
use mathlib.Core.List.{append-nil, append_assoc}
use mathlib.Core.Path.{subst}
use libocoms.Prelude.{
  ℕ, zero, suc, ◌+◌, ◌≤◌, ◌==◌, ◌≡◌, refl, sym, ap, ◌∙◌, inl, inr, Option, none, some, List, [],
  ◌∷◌, ◌++◌, length, Exec, done, arith, length-append, true, false, Bool, ltb, not, ◌&&◌,
  if◌then◌else◌, Bool-cases, Returns,
}
use libocoms.Argv.{Str, Argv, Memory}
use libocoms.Argv.Text.{scan, split_round, split_loop, split, split_with_empty, split_inter}
use libocoms.Argv.Blocks.{block, Holds, null, points, Plenty}
use libocoms.Argv.Append.{append-Holds}

-- A character in front of the first piece.
unfoldable pub add_char : ℕ → List Str → List Str
add_char c [] = (c ∷ []) ∷ []
add_char c (w ∷ ws) = (c ∷ w) ∷ ws

-- The pieces of a text, each ended by a delimiter or by the end of the text.
unfoldable pub pieces : ℕ → Str → List Str
unfolding add_char
pieces delim [] = []
pieces delim (c ∷ s) = if c == delim then [] ∷ pieces delim s else add_char c (pieces delim s)

-- All pieces, or those that are not empty.
unfoldable pub kept : Bool → List Str → List Str
kept true ws = ws
kept false [] = []
kept false ([] ∷ ws) = kept false ws
kept false ((c ∷ w) ∷ ws) = (c ∷ w) ∷ kept false ws

glue : ℕ → Str → Str → List Str
glue delim [] [] = []
glue delim (c ∷ tok) [] = (c ∷ tok) ∷ []
glue delim tok (d ∷ p) = tok ∷ pieces delim p

glue-add_char : (delim c : ℕ) (tok p : Str) → add_char c (glue delim tok p) ≡ glue delim (c ∷ tok) p
unfolding glue add_char
glue-add_char delim c [] [] = refl
glue-add_char delim c (t ∷ tok) [] = refl
glue-add_char delim c [] (d ∷ p) = refl
glue-add_char delim c (t ∷ tok) (d ∷ p) = refl

glue-pieces : (delim : ℕ) (s : Str) → pieces delim s ≡ glue delim (scan delim s).0 (scan delim s).1
unfolding pieces scan glue
glue-pieces delim [] = refl
glue-pieces delim (c ∷ s) = elim (Bool-cases (c == delim)) [
  | inl e ↦ rw e refl
  | inr e ↦ rw e (
      ap (add_char c) (glue-pieces delim s)
      ∙ glue-add_char delim c (scan delim s).0 (scan delim s).1)
]

-- What was passed and what is left make up the text.
scan-append : (delim : ℕ) (s : Str) → (scan delim s).0 ++ (scan delim s).1 ≡ s
unfolding scan
scan-append delim [] = refl
scan-append delim (c ∷ s) = elim (Bool-cases (c == delim)) [
  | inl e ↦ rw e refl
  | inr e ↦ rw e (ap (◌∷◌ c) (scan-append delim s))
]

-- What a run of the loop gives, started with the strings `acc`.
abbrev SplitsTo : Exec (Option Argv) → List Str → Type 0
SplitsTo run ws = Returns run (λ r. Holds r ws)

and-not-true : (b : Bool) → b && not true ≡ false
and-not-true true = refl
and-not-true false = refl

kept-pieces :
    (b : Bool) (t : ℕ) (tok : Str) (ws : List Str) → kept b ((t ∷ tok) ∷ ws) ≡ (t ∷ tok) ∷ kept b ws
unfolding kept
kept-pieces true t tok ws = refl
kept-pieces false t tok ws = refl

kept-none : (b : Bool) → kept b [] ≡ []
unfolding kept
kept-none true = refl
kept-none false = refl

module _ (mem : Memory) (ok : Plenty mem) (delim : ℕ) where
  -- What the loop does with less fuel, from a call with `argv` on.
  abbrev Splits : ℕ → Bool → Type 0
  Splits fuel empty =
      (s : Str) (n : ℕ) (argv : Option Argv) (acc : List Str)
      → length s ≤ fuel
      → Holds argv acc
      → SplitsTo (split_loop mem fuel s delim empty n argv) (acc ++ kept empty (pieces delim s))

  -- A piece that is not empty is added to the array.
  append-piece :
      (fuel : ℕ) (empty : Bool) (t : ℕ) (tok p : Str) (argv : Option Argv) (acc : List Str)
      → Splits fuel empty
      → length p ≤ fuel
      → SplitsTo
          (split_loop mem fuel p delim empty
            (length acc + 1)
            (some (block (acc ++ ((t ∷ tok) ∷ [])) [])))
          (acc ++ kept empty ((t ∷ tok) ∷ pieces delim p))
  append-piece fuel empty t tok p argv acc later size =
      let more = acc ++ ((t ∷ tok) ∷ []) in
      let (r, ran, held) =
        later p (length acc + 1) (some (block more [])) more size (points more []) in
      (
        r,
        ran,
        subst (Holds r)
            (append_assoc acc ((t ∷ tok) ∷ []) (kept empty (pieces delim p))
              ∙ ap (λ ws. acc ++ ws) (sym (kept-pieces empty t tok (pieces delim p))))
            held,
      )

  -- One round adds the first piece and goes on with the others.
  split_round-Holds :
      (fuel c : ℕ) (s tok p : Str) (empty : Bool) (n : ℕ) (argv : Option Argv) (acc : List Str)
      → Splits fuel empty
      → tok ++ p ≡ c ∷ s
      → length s ≤ fuel
      → Holds argv acc
      → SplitsTo
          (split_round mem
            (c ∷ s)
            (tok, p)
            empty
            n
            argv
            (λ text. split_loop mem fuel text delim empty))
          (acc ++ kept empty (glue delim tok p))
  unfolding split_round kept glue
  split_round-Holds fuel c s [] [] empty n argv acc later whole size h =
      absurd (omega (arith, ap length whole))
  split_round-Holds fuel c s [] (d ∷ p) true n argv acc later whole size h =
      let more = acc ++ ([] ∷ []) in
      let (r, ran, held) =
        later p (length acc + 1) (some (block more [])) more (omega (arith, ap length whole))
          (points more []) in
      (
        r,
        rw (append-Holds mem n argv acc [] ok h) ran,
        subst (Holds r) (append_assoc acc ([] ∷ []) (pieces delim p)) held,
      )
  split_round-Holds fuel c s [] (d ∷ p) false n argv acc later whole size h =
      let (r, ran, held) = later p n argv acc (omega (arith, ap length whole)) h in (r, ran, held)
  split_round-Holds fuel c s (t ∷ tok) [] empty n argv acc later whole size h =
      let text : c ∷ s ≡ t ∷ tok = sym whole ∙ append-nil (t ∷ tok) in
      (
        some (block (acc ++ ((c ∷ s) ∷ [])) []),
        rw (append-Holds mem n argv acc (c ∷ s) ok h) refl,
        subst (Holds (some (block (acc ++ ((c ∷ s) ∷ [])) [])))
            (ap (λ w. acc ++ (w ∷ [])) text
              ∙ ap (λ ws. acc ++ ((t ∷ tok) ∷ ws)) (sym (kept-none empty))
              ∙ ap (λ ws. acc ++ ws) (sym (kept-pieces empty t tok [])))
            (points (acc ++ ((c ∷ s) ∷ [])) []),
      )
  split_round-Holds fuel c s (t ∷ tok) (d ∷ p) empty n argv acc later whole size h =
      let (r, ran, held) =
        append-piece fuel empty t tok p argv acc later
          (omega (arith, ap length whole, length-append tok (d ∷ p))) in
      (
        r,
        rw
            (
              ok (length (t ∷ tok) + 1),
              and-not-true (ltb 127 (length (t ∷ tok))),
              append-Holds mem n argv acc (t ∷ tok) ok h,
            )
            ran,
        held,
      )

  -- With the length of the text as fuel the loop adds its pieces to the array.
  split_loop-Holds : (fuel : ℕ) (empty : Bool) → Splits fuel empty
  unfolding split_loop pieces
  split_loop-Holds fuel empty [] n argv acc size h = (
    argv,
    refl,
    subst (Holds argv) (sym (append-nil acc) ∙ ap (λ ws. acc ++ ws) (sym (kept-none empty))) h,
  )
  split_loop-Holds zero empty (c ∷ s) n argv acc size h = absurd (omega arith)
  split_loop-Holds (suc fuel) empty (c ∷ s) n argv acc size h =
      subst
        (λ ws.
          SplitsTo (split_loop mem (suc fuel) (c ∷ s) delim empty n argv) (acc ++ kept empty ws))
        (sym (glue-pieces delim (c ∷ s)))
        (split_round-Holds fuel c s (scan delim (c ∷ s)).0 (scan delim (c ∷ s)).1 empty n argv acc
          (split_loop-Holds fuel empty) (scan-append delim (c ∷ s)) (omega arith) h)

pub kept-all : (ws : List Str) → kept true ws ≡ ws
unfolding kept
kept-all ws = refl

-- With memory, `ocoms_argv_split` gives the pieces of the text that are not empty and
-- `ocoms_argv_split_with_empty` all of them, and both NULL for NULL; the loop ends within as many
-- rounds as the text has characters.
pub split-Holds :
    (mem : Memory) (s : Str) (delim : ℕ)
    → Plenty mem
    → Returns (split mem (some s) delim) (λ r. Holds r (kept false (pieces delim s)))
      × Returns (split_with_empty mem (some s) delim) (λ r. Holds r (pieces delim s))
      × (split mem none delim ≡ done none)
      × (split_with_empty mem none delim ≡ done none)
unfolding split split_with_empty split_inter
split-Holds mem s delim ok = (
  split_loop-Holds mem ok delim (length s) false s 0 none [] (omega arith) null,
  subst (λ ws. SplitsTo (split_loop mem (length s) s delim true 0 none) ws)
      (kept-all (pieces delim s))
      (split_loop-Holds mem ok delim (length s) true s 0 none [] (omega arith) null),
  refl,
  refl,
)

-- A text without the delimiter at its end.
unfoldable pub chomp : ℕ → Str → Str
chomp delim [] = []
chomp delim (c ∷ []) = if c == delim then [] else c ∷ []
chomp delim (c ∷ d ∷ s) = c ∷ chomp delim (d ∷ s)
