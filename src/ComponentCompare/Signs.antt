-- ===== src/ComponentCompare/Signs.antt =====
-- What the sign of a comparison of components says: which of two comes first.
use mathlib.Core.Path.{subst}
use native.Mathlib.Decide.{dec_lt}
use libocoms.Prelude.{
  ℕ, zero, suc, ◌+◌, ◌<◌, ◌≡◌, refl, ap₂, sym, ◌⊎◌, inl, inr, List, [], ◌∷◌, take, arith,
}
use libocoms.Prelude.Int.{ℤ, pos_part, neg_part}
use libocoms.ComponentCompare.{
  Sign, negative, level, positive, opposite, strncmp, or_else, larger_first, Component,
  PriorityItem, max_type_name_len, max_component_name_len, compatible, compare, compare_priority,
}
use libocoms.ComponentCompare.Laws.{larger_first-level}

-- The first text is behind the second in the order of a dictionary.
pub data Exceeds : List ℕ → List ℕ → Type 0 where
  longer : {c : ℕ} {s : List ℕ} → Exceeds (c ∷ s) []
  here : {c d : ℕ} {s t : List ℕ} → d < c → Exceeds (c ∷ s) (d ∷ t)
  later : {c : ℕ} {s t : List ℕ} → Exceeds s t → Exceeds (c ∷ s) (c ∷ t)

-- The first number is the larger one.
abbrev pub Larger : ℤ → ℤ → Type 0
Larger a b = pos_part b + neg_part a < pos_part a + neg_part b

-- A sign tells which of three cases holds: the first comes first, they are level, the second does.
pub data Says (Before Level After : Type 0) : Sign → Type 0 where
  first : Before → Says Before Level After negative
  neither : Level → Says Before Level After level
  second : After → Says Before Level After positive

module _ {A K : Type 0} where
  -- `f` puts `a` first when `Before a b`, and takes those with the same key as level.
  abbrev pub Orders : (A → A → Sign) → (A → A → Type 0) → (A → K) → Type 0
  Orders f Before key = (a b : A) → Says (Before a b) (key a ≡ key b) (Before b a) (f a b)

  -- Before by the one, or with the same key before by the other.
  abbrev pub Then : (A → A → Type 0) → (A → K) → (A → A → Type 0) → A → A → Type 0
  Then Before key Next a b = Before a b ⊎ ((key a ≡ key b) × Next a b)

or_else-Says :
    {x y : Sign} {B L A B' L' A' : Type 0}
    → Says B L A x
    → Says B' L' A' y
    → Says (B ⊎ (L × B')) (L × L') (A ⊎ (L × A')) (or_else x y)
unfolding or_else
or_else-Says (first p) q = first (inl p)
or_else-Says (neither p) (first q) = first (inr (p, q))
or_else-Says (neither p) (neither q) = neither (p, q)
or_else-Says (neither p) (second q) = second (inr (p, q))
or_else-Says (second p) q = second (inl p)

Says-map :
    {x : Sign} {B L A B' L' A' : Type 0}
    → (B → B')
    → (L → L')
    → (A → A')
    → Says B L A x
    → Says B' L' A' x
Says-map f g h (first p) = first (f p)
Says-map f g h (neither p) = neither (g p)
Says-map f g h (second p) = second (h p)

opposite-Says : {x : Sign} {B L A : Type 0} → Says B L A x → Says A L B (opposite x)
unfolding opposite
opposite-Says (first p) = second p
opposite-Says (neither p) = neither p
opposite-Says (second p) = first p

module _ {A K H : Type 0} {f g : A → A → Sign} {B C : A → A → Type 0} {k : A → K} {h : A → H} where
  or_else-Orders :
      Orders f B k
      → Orders g C h
      → Orders {K = K × H} (λ a b. or_else (f a b) (g a b)) (Then B k C) (λ a. (k a, h a))
  or_else-Orders F G a b =
      Says-map (λ p. p) (λ (p, q). ap₂ (λ x y. (x, y)) p q) backwards (or_else-Says (F a b) (G a b))
    where
      backwards : B b a ⊎ ((k a ≡ k b) × C b a) → Then B k C b a
      backwards (inl q) = inl q
      backwards (inr (q, r)) = inr (sym q, r)

larger_first-negative : (a b : ℤ) → larger_first a b ≡ negative → Larger a b
unfolding larger_first
larger_first-negative a b e = ground (arith, e)

larger_first-positive : (a b : ℤ) → larger_first a b ≡ positive → Larger b a
unfolding larger_first
larger_first-positive a b e = ground (arith, e)

larger_first-Orders : Orders larger_first Larger (λ a. a)
larger_first-Orders a b = go (larger_first a b) refl
  where
    go : (x : Sign) → larger_first a b ≡ x → Says (Larger a b) (a ≡ b) (Larger b a) x
    go negative e = first (larger_first-negative a b e)
    go level e = neither (larger_first-level a b e)
    go positive e = second (larger_first-positive a b e)

later-cons : {c d : ℕ} {s t : List ℕ} → c ≡ d → Exceeds s t → Exceeds (c ∷ s) (d ∷ t)
later-cons {c} {d} {s} {t} p e = subst (λ i. Exceeds (c ∷ s) (i ∷ t)) p (later e)

strncmp-cons :
    (n c d : ℕ) (s t : List ℕ)
    → ((c < d) × (strncmp (suc n) (c ∷ s) (d ∷ t) ≡ negative))
      ⊎ ((d < c) × (strncmp (suc n) (c ∷ s) (d ∷ t) ≡ positive))
      ⊎ ((c ≡ d) × (strncmp (suc n) (c ∷ s) (d ∷ t) ≡ strncmp n s t))
unfolding strncmp
strncmp-cons n c d s t = elim (dec_lt c d) [
  | yes p ↦ inl (p, ground arith)
  | no p ↦
      inr (elim (dec_lt d c) [
        | yes q ↦ inl (q, ground arith)
        | no q ↦ inr (omega arith, ground arith)
      ])
]

-- `strncmp(s, t, n)`, by the texts cut to `n` characters
strncmp-Says :
    (n : ℕ) (s t : List ℕ)
    → Says
        (Exceeds (take n t) (take n s))
        (take n s ≡ take n t)
        (Exceeds (take n s) (take n t))
        (strncmp n s t)
unfolding strncmp
strncmp-Says zero s t = neither refl
strncmp-Says (suc n) [] [] = neither refl
strncmp-Says (suc n) [] (d ∷ t) = first longer
strncmp-Says (suc n) (c ∷ s) [] = second longer
strncmp-Says (suc n) (c ∷ s) (d ∷ t) = elim (strncmp-cons n c d s t) [
  | inl (p, e) ↦ subst (Says _ _ _) (sym e) (first (here p))
  | inr other ↦ elim other [
    | inl (p, e) ↦ subst (Says _ _ _) (sym e) (second (here p))
    | inr (p, e) ↦
        subst (Says _ _ _) (sym e)
          (Says-map (later-cons (sym p)) (ap₂ ◌∷◌ p) (later-cons p) (strncmp-Says n s t))
  ]
]

module _ {A : Type 0} where
  -- by the later text of a part, and by the larger number
  texts-Orders :
      (n : ℕ) (p : A → List ℕ)
      → Orders
          (λ a b. opposite (strncmp n (p a) (p b)))
          (λ a b. Exceeds (take n (p a)) (take n (p b)))
          (λ a. take n (p a))
  texts-Orders n p a b = opposite-Says (strncmp-Says n (p a) (p b))

  numbers-Orders :
      (p : A → ℤ) → Orders (λ a b. larger_first (p a) (p b)) (λ a b. Larger (p a) (p b)) p
  numbers-Orders p a b = larger_first-Orders (p a) (p b)

-- The type and the name, as far as they are compared.
abbrev pub type_name : Component → List ℕ
type_name a = take max_type_name_len a.mca_type_name

abbrev pub component_name : Component → List ℕ
component_name a = take max_component_name_len a.mca_component_name

-- The first version is the later one, up to the minor number and up to the release.
abbrev pub NewerMinor : Component → Component → Type 0
NewerMinor a b =
    Larger a.mca_component_major_version b.mca_component_major_version
    ⊎ ((a.mca_component_major_version ≡ b.mca_component_major_version)
        × Larger a.mca_component_minor_version b.mca_component_minor_version)

abbrev pub Newer : Component → Component → Type 0
Newer a b =
    Larger a.mca_component_major_version b.mca_component_major_version
    ⊎ ((a.mca_component_major_version ≡ b.mca_component_major_version)
        × (Larger a.mca_component_minor_version b.mca_component_minor_version
            ⊎ ((a.mca_component_minor_version ≡ b.mca_component_minor_version)
                × Larger a.mca_component_release_version b.mca_component_release_version)))

-- The first component is behind the second by type, then by name, or newer among those of one name.
abbrev pub Precedes : (Component → Component → Type 0) → Component → Component → Type 0
Precedes Version a b =
    Exceeds (type_name a) (type_name b)
    ⊎ ((type_name a ≡ type_name b)
        × (Exceeds (component_name a) (component_name b)
            ⊎ ((component_name a ≡ component_name b) × Version a b)))

abbrev pub minor_key : Component → List ℕ × (List ℕ × (ℤ × ℤ))
minor_key a = (
  type_name a,
  (component_name a, (a.mca_component_major_version, a.mca_component_minor_version)),
)

abbrev pub full_key : Component → List ℕ × (List ℕ × (ℤ × (ℤ × ℤ)))
full_key a = (
  type_name a,
  (
    component_name a,
    (
      a.mca_component_major_version,
      (a.mca_component_minor_version, a.mca_component_release_version),
    ),
  ),
)

abbrev pub priority_key : PriorityItem → ℤ × (List ℕ × (List ℕ × (ℤ × (ℤ × ℤ))))
priority_key a = (a.cpli_priority, full_key a.cli_component)

compare-Orders : Orders compare (Precedes Newer) full_key
unfolding compare
compare-Orders a b =
    or_else-Orders (texts-Orders max_type_name_len (λ a. a.mca_type_name))
      (or_else-Orders (texts-Orders max_component_name_len (λ a. a.mca_component_name)) (
        or_else-Orders (numbers-Orders (λ a. a.mca_component_major_version)) (
          or_else-Orders (numbers-Orders (λ a. a.mca_component_minor_version))
            (numbers-Orders (λ a. a.mca_component_release_version)))))
      a b

compatible-Orders : Orders compatible (Precedes NewerMinor) minor_key
unfolding compatible
compatible-Orders a b =
    or_else-Orders (texts-Orders max_type_name_len (λ a. a.mca_type_name))
      (or_else-Orders (texts-Orders max_component_name_len (λ a. a.mca_component_name)) (
        or_else-Orders (numbers-Orders (λ a. a.mca_component_major_version))
          (numbers-Orders (λ a. a.mca_component_minor_version))))
      a b

-- Which of two components comes first (a negative result), which are level, and which comes second: by
-- `ocoms_mca_base_component_compare` the later type name of at most 31 characters first, then the later
-- name of at most 63, then the larger major, minor and release version; by `_compatible` the same
-- without the release; by `_compare_priority` the higher priority first, and then as by `_compare`.
pub compare-Precedes :
    (a b : PriorityItem)
    → Says
        (Precedes Newer a.cli_component b.cli_component)
        (full_key a.cli_component ≡ full_key b.cli_component)
        (Precedes Newer b.cli_component a.cli_component)
        (compare a.cli_component b.cli_component)
      × Says
          (Precedes NewerMinor a.cli_component b.cli_component)
          (minor_key a.cli_component ≡ minor_key b.cli_component)
          (Precedes NewerMinor b.cli_component a.cli_component)
          (compatible a.cli_component b.cli_component)
      × Says
          (Larger a.cpli_priority b.cpli_priority
            ⊎ ((a.cpli_priority ≡ b.cpli_priority)
                × Precedes Newer a.cli_component b.cli_component))
          (priority_key a ≡ priority_key b)
          (Larger b.cpli_priority a.cpli_priority
            ⊎ ((b.cpli_priority ≡ a.cpli_priority)
                × Precedes Newer b.cli_component a.cli_component))
          (compare_priority a b)
unfolding compare_priority
compare-Precedes a b = (
  compare-Orders a.cli_component b.cli_component,
  compatible-Orders a.cli_component b.cli_component,
  or_else-Orders (numbers-Orders (λ a. a.cpli_priority))
      (λ a b. compare-Orders a.cli_component b.cli_component) a b,
)
