-- ===== src/Argv/Moves.antt =====
-- The loops of ocoms/util/argv.c that move strings within a block, on arrays cut into the pieces that
-- move.
use mathlib.Core.List.{map, append_assoc}
use mathlib.Core.Path.{subst}
use libocoms.Prelude.{
  ℕ, zero, suc, ◌+◌, ◌<◌, ◌≡◌, refl, sym, ap, ◌∙◌, Option, some, List, [], ◌∷◌, ◌++◌, length, done,
  arith, length-append,
}
use libocoms.Argv.{Str, Argv, Memory}
use libocoms.Argv.Edit.{shift_down, shift_up_by, copy_in}
use libocoms.Argv.Blocks.{block, Plenty, load-middle, store-middle}

-- A list that is not empty has a last element.
pub snoc-of :
    {A : Type 0}
    → (xs : List A) (n : ℕ) → length xs ≡ suc n
    → (ys : List A) × (y : A) × (xs ≡ ys ++ y ∷ []) × (length ys ≡ n)
snoc-of [] n e = absurd (omega arith)
snoc-of (x ∷ []) n e = ([], x, refl, omega arith)
snoc-of (x ∷ x' ∷ xs) n e =
    let (ys, y, same, size) = snoc-of (x' ∷ xs) (length xs) refl in
    (x ∷ ys, y, ap (◌∷◌ x) same, omega arith)

-- Moving `suf` down over the slots of `gap` leaves as many slots between it and what follows.
pub shift_down-pieces :
    (pre gap suf tail : Argv) (i by left : ℕ)
    → i ≡ length pre
    → by ≡ length gap
    → left ≡ length suf
    → 0 < by
    → (gap' : Argv) × (shift_down (pre ++ (gap ++ (suf ++ tail))) by left i
        ≡ done (pre ++ (suf ++ (gap' ++ tail))))
      × (length gap' ≡ by)
unfolding shift_down
shift_down-pieces pre gap [] tail i by left ei eb el b = (gap, rw el refl, sym eb)
shift_down-pieces pre [] (s ∷ suf) tail i by left ei eb el b = absurd (omega arith)
shift_down-pieces pre (g ∷ gap) (s ∷ suf) tail i by left ei eb el b =
    let size = length-append pre (g ∷ gap) in
    let read = load-middle (pre ++ (g ∷ gap)) (suf ++ tail) s (i + by) (omega (arith, size)) in
    let write = store-middle pre (gap ++ (s ∷ suf ++ tail)) g s i ei in
    let size' = length-append gap (s ∷ []) in
    let (gap', rest, same) =
      shift_down-pieces (pre ++ (s ∷ [])) (gap ++ (s ∷ [])) suf tail (i + 1) by (length suf)
        (omega (arith, length-append pre (s ∷ []))) (omega arith) refl b in
    (gap', rw (el, simp append_assoc at read, write) (simp append_assoc at rest), same)

-- The loop that moves `mid` up over the slots of `gap` leaves as many slots before it.
abbrev pub MovesUp : (pre mid gap tail : Argv) (left start : ℕ) → Type 0
MovesUp pre mid gap tail left start =
    (gap' : Argv) × (shift_up_by (pre ++ (mid ++ (gap ++ tail))) (length gap) left start
      ≡ done (pre ++ (gap' ++ (mid ++ tail))))
    × (length gap' ≡ length gap)

-- One round, which moves the last string of `mid`.
MovesUp-round :
    (pre init : Argv) (s : Option Str) (gap tail : Argv) (left start : ℕ)
    → start ≡ length pre
    → left ≡ length init
    → (gap' : Argv) × (length gap' ≡ length gap)
      × (shift_up_by (pre ++ ((init ++ (s ∷ [])) ++ (gap ++ tail))) (length gap) (suc left) start
          ≡ shift_up_by (pre ++ (init ++ (gap' ++ (s ∷ tail)))) (length gap) left start)
unfolding shift_up_by
MovesUp-round pre init s [] tail left start es el =
    let at_end : start + left ≡ length (pre ++ init) = omega (arith, length-append pre init) in
    let read = load-middle (pre ++ init) tail s (start + left) at_end in
    let write = store-middle (pre ++ init) tail s s (start + 0 + left) (omega arith) in
    ([], refl, simp append_assoc (rw (simp append_assoc at read, simp append_assoc at write) refl))
MovesUp-round pre init s (g ∷ gap) tail left start es el =
    let (gap0, g0, same, size) = snoc-of (g ∷ gap) (length gap) refl in round gap0 g0 same size
  where
    round :
        (gap0 : Argv) (g0 : Option Str)
        → g ∷ gap ≡ gap0 ++ (g0 ∷ [])
        → length gap0 ≡ length gap
        → (gap' : Argv) × (length gap' ≡ length (g ∷ gap))
          × (shift_up_by
                (pre ++ ((init ++ (s ∷ [])) ++ (g ∷ gap ++ tail)))
                (length (g ∷ gap))
                (suc left)
                start
              ≡ shift_up_by (pre ++ (init ++ (gap' ++ (s ∷ tail)))) (length (g ∷ gap)) left start)
    round gap0 g0 same size =
        let before = pre ++ (init ++ (s ∷ gap0)) in
        let size-before = length-append pre (init ++ (s ∷ gap0)) in
        let read =
          load-middle (pre ++ init) (gap0 ++ (g0 ∷ tail)) s (start + left)
            (omega (arith, length-append pre init)) in
        let write =
          store-middle before tail g0 s (start + suc (length gap) + left)
            (omega (arith, size-before, length-append init (s ∷ gap0))) in
        let slots : g ∷ (gap ++ tail) ≡ gap0 ++ (g0 ∷ tail) =
          ap (λ xs. xs ++ tail) same ∙ append_assoc gap0 (g0 ∷ []) tail in
        (
          s ∷ gap0,
          omega arith,
          rw slots
              (simp append_assoc (rw (simp append_assoc at read, simp append_assoc at write) refl)),
        )

pub shift_up_by-pieces :
    (pre mid gap tail : Argv) (left start : ℕ)
    → start ≡ length pre
    → left ≡ length mid
    → MovesUp pre mid gap tail left start
unfolding shift_up_by
shift_up_by-pieces pre mid gap tail zero start es el = none_left mid el
  where
    none_left : (m : Argv) → 0 ≡ length m → MovesUp pre m gap tail 0 start
    none_left [] e = (gap, refl, refl)
    none_left (x ∷ m) e = absurd (omega arith)
shift_up_by-pieces pre mid gap tail (suc left) start es el =
    let (init, s, same, size) = snoc-of mid left (sym el) in
    let (gap', size', moved) = MovesUp-round pre init s gap tail left start es (sym size) in
    let (gap'', rest, size'') =
      shift_up_by-pieces pre init gap' (s ∷ tail) left start es (sym size) in
    subst (λ m. MovesUp pre m gap tail (suc left) start) (sym same)
      (
        gap'',
        moved
            ∙ ap (λ k. shift_up_by (pre ++ (init ++ (gap' ++ (s ∷ tail)))) k left start) (sym size')
            ∙ rest
            ∙ ap (λ us. done (pre ++ (gap'' ++ us))) (sym (append_assoc init (s ∷ []) tail)),
        size'' ∙ size',
      )

-- Copies of the strings of `source` take the place of `gap`.
pub copy_in-pieces :
    (mem : Memory) (pre gap tail : Argv) (source : List Str) (rest : Argv) (i : ℕ)
    → Plenty mem
    → i ≡ length pre
    → length gap ≡ length source
    → copy_in mem (pre ++ (gap ++ tail)) (block source rest) i
      ≡ done (pre ++ (map some source ++ tail))
unfolding copy_in
copy_in-pieces mem pre [] tail [] rest i ok ei eg = refl
copy_in-pieces mem pre (g ∷ gap) tail [] rest i ok ei eg = absurd (omega arith)
copy_in-pieces mem pre [] tail (s ∷ source) rest i ok ei eg = absurd (omega arith)
copy_in-pieces mem pre (g ∷ gap) tail (s ∷ source) rest i ok ei eg =
    let later =
      copy_in-pieces mem (pre ++ (some s ∷ [])) gap tail source rest (i + 1) ok
        (omega (arith, length-append pre (some s ∷ []))) (omega arith) in
    rw (ok (length s + 1), store-middle pre (gap ++ tail) g (some s) i ei)
      (simp append_assoc at later)
