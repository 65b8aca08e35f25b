-- ===== src/Lifo/Runs.antt =====
-- Runs of all threads: the pushes and pops of a stack, in the order in which they take effect.
use mathlib.Core.Path.{subst}
use libocoms.Prelude.{ℕ, ◌≡◌, ◌≢◌, refl, sym, false, some, List, [], ◌∷◌}
use libocoms.Lifo.{System, holds, step, run}
use libocoms.Lifo.Held.{on, Chain, held, Knows, Inv}
use libocoms.Lifo.Commits.{Effect, effect, Commits, step_at}

unfoldable pub effects : List ℕ → System → List Effect
effects [] s = []
effects (t ∷ ts) s = effect s.mem (s.pc t) ∷ effects ts (step t s)

-- The effects of a run, one after the other, lead from one stack to another.
abbrev pub History : List Effect → List ℕ → List ℕ → Type 0
History [] l l' = l' ≡ l
History (x ∷ xs) l l' = (l₁ : List ℕ) × Commits x l l₁ × History xs l₁ l'

abbrev pub Stands : System → List ℕ → Type 0
Stands s l = Inv s.mem s.pc l

-- In every interleaving of any number of threads, the stack is at each moment what the pushes and pops
-- that have taken effect make of it, each at one step: a push puts its item on top, a pop takes the
-- item on top or finds the stack empty. The items on the stack stay different, and no two threads work
-- on one item.
pub run-History :
    (ts : List ℕ) (s : System) (l : List ℕ)
    → Stands s l
    → (l' : List ℕ) × Stands (run ts s) l' × History (effects ts s) l l'
unfolding run step effects
run-History [] s l h = (l, h, refl)
run-History (t ∷ ts) s l h =
    let (l₁, h₁, commits) = step_at s.mem s.pc l t h (s.pc t) refl in
    let (l', h', history) = run-History ts (step t s) l₁ h₁ in (l', h', (l₁, commits, history))

-- In every interleaving, an item in the hand of a thread that popped it, or has not pushed it yet, is
-- not on the stack, and no other thread has it.
pub run-alone :
    (ts : List ℕ) (s : System) (l : List ℕ) (t i : ℕ)
    → Stands s l
    → (run ts s).pc t ≡ holds i
    → (l' : List ℕ) × Chain (run ts s).mem.list_next (run ts s).mem.lifo_head l'
      × (on i l' ≡ false)
      × ((u : ℕ) → u ≢ t → held ((run ts s).pc u) ≡ some i → ⊥)
run-alone ts s l t i h e =
    let (l', h', history) = run-History ts s l h in
    (
      l',
      h'.chain,
      (subst (Knows (run ts s).mem l') e (h'.knows t)).0,
      λ u ne f. ne (h'.once u t i f (subst (λ p. held p ≡ some i) (sym e) refl)),
    )
