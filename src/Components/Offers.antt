-- ===== src/Components/Offers.antt =====
-- What components offer to a selection, and what the best offer is.
use libocoms.Prelude.{ℕ, ◌≡◌, Option, none, some, List, [], ◌∷◌, ◌++◌, arith, true, false}
use libocoms.Prelude.Int.{ℤ, ltb_ℤ}
use libocoms.Components.{Library, Answer}
use libocoms.Components.Select.{int32_min}

abbrev pub module_of : Option (ℕ × ℤ) → Option ℕ
module_of none = none
module_of (some (m, p)) = some m

-- What the components offer: a query writes the module, or NULL, and with a module its priority, in
-- every state of the world. A component without a query offers nothing.
pub record Offers {W : Type 0} (lib : Library W) (offers : ℕ → Option (ℕ × ℤ)) : Type 0 where
  pub silent : (c : ℕ) → (lib.component c).mca_query_component ≡ none → offers c ≡ none
  pub replies :
      (c : ℕ) (query : W → Answer × W) (w : W)
      → (lib.component c).mca_query_component ≡ some query
      → (query w).0.module_written ≡ some (module_of (offers c))
  pub rates :
      (c : ℕ) (query : W → Answer × W) (w : W) {m : ℕ} {p : ℤ}
      → (lib.component c).mca_query_component ≡ some query
      → offers c ≡ some (m, p)
      → (query w).0.priority_written ≡ some p

pub at_most_below : (a b p : ℤ) → ltb_ℤ a p ≡ false → ltb_ℤ a b ≡ true → ltb_ℤ p b ≡ true
at_most_below a b p h k = ground arith

pub below_trans : (a b p : ℤ) → ltb_ℤ p a ≡ true → ltb_ℤ a b ≡ true → ltb_ℤ p b ≡ true
below_trans a b p h k = ground arith

module _ (offers : ℕ → Option (ℕ × ℤ)) where
  -- No component of the list offers more than `b`, or as much as `b`.
  abbrev pub AtMost : ℤ → List ℕ → Type 0
  AtMost b [] = Unit
  AtMost b (c ∷ cs) = ((m : ℕ) (p : ℤ) → offers c ≡ some (m, p) → ltb_ℤ b p ≡ false) × AtMost b cs

  abbrev pub Below : ℤ → List ℕ → Type 0
  Below b [] = Unit
  Below b (c ∷ cs) = ((m : ℕ) (p : ℤ) → offers c ≡ some (m, p) → ltb_ℤ p b ≡ true) × Below b cs

  -- `c` offers `m` with a priority above INT32_MIN that none before it reaches and none behind exceeds.
  pub record IsBest (cs : List ℕ) (c m : ℕ) : Type 0 where
    pub priority : ℤ
    pub before : List ℕ
    pub after : List ℕ
    pub stands : cs ≡ before ++ (c ∷ after)
    pub offered : offers c ≡ some (m, priority)
    pub allowed : ltb_ℤ int32_min priority ≡ true
    pub ahead : Below priority before
    pub behind : AtMost priority after

  pub AtMost-append : (b : ℤ) (xs ys : List ℕ) → AtMost b xs → AtMost b ys → AtMost b (xs ++ ys)
  AtMost-append b [] ys h k = k
  AtMost-append b (x ∷ xs) ys h k = (h.0, AtMost-append b xs ys h.1 k)

  pub Below-append : (b : ℤ) (xs ys : List ℕ) → Below b xs → Below b ys → Below b (xs ++ ys)
  Below-append b [] ys h k = k
  Below-append b (x ∷ xs) ys h k = (h.0, Below-append b xs ys h.1 k)

  pub AtMost-Below : (a b : ℤ) (xs : List ℕ) → ltb_ℤ a b ≡ true → AtMost a xs → Below b xs
  AtMost-Below a b [] l h = tt
  AtMost-Below a b (x ∷ xs) l h =
      (λ m p e. at_most_below a b p (h.0 m p e) l, AtMost-Below a b xs l h.1)

  pub Below-mono : (a b : ℤ) (xs : List ℕ) → ltb_ℤ a b ≡ true → Below a xs → Below b xs
  Below-mono a b [] l h = tt
  Below-mono a b (x ∷ xs) l h = (λ m p e. below_trans a b p (h.0 m p e) l, Below-mono a b xs l h.1)
