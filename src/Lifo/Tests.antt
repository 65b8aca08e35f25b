-- ===== src/Lifo/Tests.antt =====
-- Two threads with an item each on an empty stack, and the theorems on their runs.
use libocoms.Prelude.{
  ℕ, zero, suc, ◌≡◌, ◌≢◌, refl, sym, ◌∙◌, Option, some, List, [], ◌∷◌, ◌++◌, arith, false,
  none-ne-some,
}
use libocoms.Lifo.{Lifo, construct, Pc, System, idle, holds, pushed, null, move, step, run}
use libocoms.Lifo.Held.{InHand, construct-Inv, on, Chain, held}
use libocoms.Lifo.Commits.{nothing, pushes, effect}
use libocoms.Lifo.Runs.{effects, History, Stands, run-History, run-alone}

abbrev hands : ℕ → Pc
hands zero = holds 2
hands (suc zero) = holds 3
hands (suc (suc t)) = idle

abbrev outside : Lifo
outside = record { lifo_head = null; list_next = λ i. null; item_free = λ i. 1 }

abbrev empty : System
empty = record { mem = construct outside; pc = hands }

two_three : ◌≡◌ {A = Option ℕ} (some 2) (some 3) → ⊥
two_three e = cc

hands_once : (t u i : ℕ) → held (hands t) ≡ some i → held (hands u) ≡ some i → t ≡ u
hands_once zero zero i e f = refl
hands_once (suc zero) (suc zero) i e f = refl
hands_once zero (suc zero) i e f = absurd (two_three (e ∙ sym f))
hands_once (suc zero) zero i e f = absurd (two_three (f ∙ sym e))
hands_once (suc (suc t)) u i e f = absurd (none-ne-some e)
hands_once zero (suc (suc u)) i e f = absurd (none-ne-some f)
hands_once (suc zero) (suc (suc u)) i e f = absurd (none-ne-some f)

hands_free : (t : ℕ) → InHand outside (hands t)
hands_free zero = (refl, λ e. omega (arith, e))
hands_free (suc zero) = (refl, λ e. omega (arith, e))
hands_free (suc (suc t)) = tt

empty-Stands : Stands empty []
empty-Stands = construct-Inv outside hands hands_free (λ i z. omega (arith, z)) hands_once

-- Both push, item 3 first; the first thread reads the head before and fails once.
abbrev both : List ℕ
both = 0 ∷ 0 ∷ 0 ∷ 1 ∷ 1 ∷ 1 ∷ 1 ∷ 0 ∷ 0 ∷ 0 ∷ 0 ∷ []

both_history :
    effects both empty
    ≡ nothing
      ∷ nothing
      ∷ nothing
      ∷ nothing
      ∷ nothing
      ∷ nothing
      ∷ pushes 3
      ∷ nothing
      ∷ nothing
      ∷ nothing
      ∷ pushes 2
      ∷ []
unfolding effects effect step move construct
both_history = refl

run-History_example :
    (l : List ℕ) × Stands (run both empty) l
    × History
        (nothing
          ∷ nothing
          ∷ nothing
          ∷ nothing
          ∷ nothing
          ∷ nothing
          ∷ pushes 3
          ∷ nothing
          ∷ nothing
          ∷ nothing
          ∷ pushes 2
          ∷ [])
        []
        l
unfolding effects effect step move construct
run-History_example = run-History both empty [] empty-Stands

-- The first thread pushes its item, and another pops it before the first reads the result: it gets
-- NULL, not the ghost that was the head.
abbrev stolen : List ℕ
stolen = 0 ∷ 0 ∷ 0 ∷ 0 ∷ 0 ∷ 2 ∷ 2 ∷ 2 ∷ 2 ∷ 2 ∷ 2 ∷ []

stolen_result : (run (stolen ++ (0 ∷ [])) empty).pc 0 ≡ pushed null
unfolding run step move construct
stolen_result = refl

run-alone_example :
    (l : List ℕ) × Chain (run stolen empty).mem.list_next (run stolen empty).mem.lifo_head l
    × (on 2 l ≡ false)
    × ((u : ℕ) → u ≢ 2 → held ((run stolen empty).pc u) ≡ some 2 → ⊥)
unfolding run step move construct
run-alone_example = run-alone stolen empty [] 2 2 empty-Stands refl
