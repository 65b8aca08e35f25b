-- ===== src/ComponentCompare/Laws.antt =====
-- The laws of a three-way comparison, and that comparing by one and then by another keeps them.
use libocoms.Prelude.{ℕ, zero, suc, ◌≤◌, length, ◌≡◌, refl, ap, ap₂, List, [], ◌∷◌, arith}
use libocoms.Prelude.Int.{ℤ, pos, negsuc}
use libocoms.ComponentCompare.{Sign, negative, level, opposite, strncmp, or_else, larger_first}

-- Exchanging the arguments exchanges the signs, equals compare alike with everything, and smaller
-- elements are transitive.
pub record IsOrder {ℓ} {A : Type ℓ} (f : A → A → Sign) : Type ℓ where
  pub flips : (a b : A) → f b a ≡ opposite (f a b)
  pub congruent : (a b c : A) → f a b ≡ level → f a c ≡ f b c
  pub chains : (a b c : A) → f a b ≡ negative → f b c ≡ negative → f a c ≡ negative

pub larger_first-IsOrder : IsOrder larger_first
unfolding larger_first opposite
larger_first-IsOrder = record {
  flips = λ a b. ground arith;
  congruent = λ a b c h. ground (arith, h);
  chains = λ a b c h k. ground (arith, h, k);
}

strncmp-flips : (n : ℕ) (s t : List ℕ) → strncmp n t s ≡ opposite (strncmp n s t)
unfolding strncmp opposite
strncmp-flips zero s t = refl
strncmp-flips (suc n) [] [] = refl
strncmp-flips (suc n) [] (d ∷ t) = refl
strncmp-flips (suc n) (c ∷ s) [] = refl
strncmp-flips (suc n) (c ∷ s) (d ∷ t) = ground (arith, strncmp-flips n s t)

strncmp-congruent : (n : ℕ) (s t u : List ℕ) → strncmp n s t ≡ level → strncmp n s u ≡ strncmp n t u
unfolding strncmp
strncmp-congruent zero s t u h = refl
strncmp-congruent (suc n) [] [] u h = refl
strncmp-congruent (suc n) [] (d ∷ t) u h = ground (arith, h)
strncmp-congruent (suc n) (c ∷ s) [] u h = ground (arith, h)
strncmp-congruent (suc n) (c ∷ s) (d ∷ t) [] h = refl
strncmp-congruent (suc n) (c ∷ s) (d ∷ t) (e ∷ u) h = ground (arith, h, strncmp-congruent n s t u)

strncmp-chains :
    (n : ℕ) (s t u : List ℕ)
    → strncmp n s t ≡ negative
    → strncmp n t u ≡ negative
    → strncmp n s u ≡ negative
unfolding strncmp
strncmp-chains zero s t u h k = h
strncmp-chains (suc n) [] [] u h k = k
strncmp-chains (suc n) [] (d ∷ t) [] h k = ground (arith, k)
strncmp-chains (suc n) [] (d ∷ t) (e ∷ u) h k = refl
strncmp-chains (suc n) (c ∷ s) [] u h k = ground (arith, h)
strncmp-chains (suc n) (c ∷ s) (d ∷ t) [] h k = ground (arith, k)
strncmp-chains (suc n) (c ∷ s) (d ∷ t) (e ∷ u) h k = ground (arith, h, k, strncmp-chains n s t u)

-- `-strncmp(s, t, n)`
pub reversed-IsOrder : (n : ℕ) → IsOrder (λ s t. opposite (strncmp n s t))
unfolding opposite
reversed-IsOrder n = record {
  flips = λ s t. ap opposite (strncmp-flips n s t);
  congruent = λ s t u h. ground (arith, h, strncmp-congruent n s t u);
  chains = λ s t u h k. ground (
    arith,
    h,
    k,
    strncmp-flips n s t,
    strncmp-flips n t u,
    strncmp-flips n s u,
    strncmp-chains n u t s,
  );
}

module _ {ℓ} {A : Type ℓ} {f g : A → A → Sign} where
  pub or_else-IsOrder : IsOrder f → IsOrder g → IsOrder (λ a b. or_else (f a b) (g a b))
  unfolding or_else opposite
  or_else-IsOrder F G = record {
    flips = λ a b. ground (arith, F.flips a b, G.flips a b);
    congruent = λ a b c h. ground (arith, h, F.congruent a b c, G.congruent a b c);
    chains = λ a b c h k. ground (
      arith,
      h,
      k,
      F.congruent a b c,
      F.congruent c b a,
      F.flips a b,
      F.flips b c,
      F.flips c a,
      F.chains a b c,
      G.chains a b c,
    );
  }

module _ {ℓ} {A B : Type ℓ} {f : A → A → Sign} where
  -- Comparing by what `p` gives.
  pub by_part-IsOrder : (p : B → A) → IsOrder f → IsOrder (λ a b. f (p a) (p b))
  by_part-IsOrder p F = record {
    flips = λ a b. F.flips (p a) (p b);
    congruent = λ a b c. F.congruent (p a) (p b) (p c);
    chains = λ a b c. F.chains (p a) (p b) (p c);
  }

-- Strings within the limit compare as equal only if they are equal.
pub strncmp-level :
    (n : ℕ) (s t : List ℕ) → length s ≤ n → length t ≤ n → strncmp n s t ≡ level → s ≡ t
unfolding strncmp
strncmp-level zero [] [] hs ht h = refl
strncmp-level zero (c ∷ s) t hs ht h = absurd (omega arith)
strncmp-level zero [] (d ∷ t) hs ht h = absurd (omega arith)
strncmp-level (suc n) [] [] hs ht h = refl
strncmp-level (suc n) [] (d ∷ t) hs ht h = ground (arith, h)
strncmp-level (suc n) (c ∷ s) [] hs ht h = ground (arith, h)
strncmp-level (suc n) (c ∷ s) (d ∷ t) hs ht h =
    let same : (c ≡ d) × (strncmp n s t ≡ level) = ground (arith, h) in
    ap₂ ◌∷◌ same.0 (strncmp-level n s t (omega arith) (omega arith) same.1)

pub larger_first-level : (a b : ℤ) → larger_first a b ≡ level → a ≡ b
unfolding larger_first
larger_first-level (pos a) (pos b) h = ap pos (ground (arith, h))
larger_first-level (pos a) (negsuc b) h = ground (arith, h)
larger_first-level (negsuc a) (pos b) h = ground (arith, h)
larger_first-level (negsuc a) (negsuc b) h = ap negsuc (ground (arith, h))
