-- ===== src/Argv/Rejoin.antt =====
-- Joining what `ocoms_argv_split_with_empty` gave.
use libocoms.Prelude.{
  ℕ, ◌==◌, ◌≡◌, refl, sym, ap, ◌∙◌, inl, inr, Option, some, List, [], ◌∷◌, done, ◌>>=◌, false,
  if◌then◌else◌, Bool-cases, ==_iff,
}
use libocoms.Argv.{Str, Argv, Memory}
use libocoms.Argv.Text.{split_with_empty, join}
use libocoms.Argv.Blocks.{Holds, null, points, Plenty}
use libocoms.Argv.Join.{joined, join-joined}
use libocoms.Argv.Split.{add_char, pieces, chomp, split-Holds}

joined_all : ℕ → List Str → Str
joined_all delim [] = []
joined_all delim (w ∷ ws) = joined delim w ws

joined-cons :
    (delim c : ℕ) (w : Str) (ws : List Str) → joined delim (c ∷ w) ws ≡ c ∷ joined delim w ws
unfolding joined
joined-cons delim c w [] = refl
joined-cons delim c w (v ∷ ws) = refl

-- A text that is not empty has a piece.
pieces-cons :
    (delim c : ℕ) (s : Str) → (w : Str) × (ws : List Str) × (pieces delim (c ∷ s) ≡ w ∷ ws)
unfolding pieces add_char
pieces-cons delim c s = elim (Bool-cases (c == delim)) [
  | inl e ↦ ([], pieces delim s, rw e refl)
  | inr e ↦ first (pieces delim s) e
]
  where
    first :
        (vs : List Str)
        → (c == delim) ≡ false
        → (w : Str) × (ws : List Str) × ((if c == delim then [] ∷ vs else add_char c vs) ≡ w ∷ ws)
    first [] e = (c ∷ [], [], rw e refl)
    first (v ∷ vs) e = (c ∷ v, vs, rw e refl)

nothing : (delim : ℕ) → joined_all delim (pieces delim []) ≡ chomp delim []
unfolding joined_all pieces chomp
nothing delim = refl

one_char : (delim c : ℕ) → joined_all delim (pieces delim (c ∷ [])) ≡ chomp delim (c ∷ [])
unfolding joined_all pieces chomp add_char joined
one_char delim c = elim (Bool-cases (c == delim)) [ inl e ↦ rw e refl | inr e ↦ rw e refl ]

joined_all-first :
    (delim : ℕ) (w : Str) (ws : List Str) → joined_all delim (w ∷ ws) ≡ joined delim w ws
unfolding joined_all
joined_all-first delim w ws = refl

chomp-cons : (delim c d : ℕ) (s : Str) → chomp delim (c ∷ d ∷ s) ≡ c ∷ chomp delim (d ∷ s)
unfolding chomp
chomp-cons delim c d s = refl

pieces-step :
    (delim c : ℕ) (s : Str)
    → pieces delim (c ∷ s)
      ≡ (if c == delim then [] ∷ pieces delim s else add_char c (pieces delim s))
unfolding pieces
pieces-step delim c s = refl

-- A character in front of a text that is not empty comes in front of its joined pieces.
joined_all-cons :
    (delim c : ℕ) (s w : Str) (ws : List Str)
    → pieces delim s ≡ w ∷ ws
    → joined_all delim (pieces delim (c ∷ s)) ≡ c ∷ joined delim w ws
unfolding joined_all add_char joined
joined_all-cons delim c s w ws same =
    ap (joined_all delim)
      (pieces-step delim c s ∙ ap (λ vs. if c == delim then [] ∷ vs else add_char c vs) same)
    ∙ elim (Bool-cases (c == delim)) [
      | inl e ↦ rw e (ap (λ d. d ∷ joined delim w ws) (sym ((==_iff c delim).0 e)))
      | inr e ↦ rw e (joined-cons delim c w ws)
    ]

joined_all-pieces : (delim : ℕ) (s : Str) → joined_all delim (pieces delim s) ≡ chomp delim s
joined_all-pieces delim [] = nothing delim
joined_all-pieces delim (c ∷ []) = one_char delim c
joined_all-pieces delim (c ∷ d ∷ s) =
    let (w, ws, same) = pieces-cons delim d s in
    let later : joined delim w ws ≡ chomp delim (d ∷ s) =
      sym (ap (joined_all delim) same ∙ joined_all-first delim w ws)
      ∙ joined_all-pieces delim (d ∷ s) in
    joined_all-cons delim c (d ∷ s) w ws same ∙ ap (◌∷◌ c) later ∙ sym (chomp-cons delim c d s)

join-Holds :
    (mem : Memory) (argv : Option Argv) (ws : List Str) (delim : ℕ)
    → Plenty mem
    → Holds argv ws
    → join mem argv delim ≡ done (some (joined_all delim ws))
unfolding joined_all
join-Holds mem _ _ delim ok null = (join-joined mem [] [] [] delim ok).2
join-Holds mem _ _ delim ok (points [] rest) = (join-joined mem [] [] rest delim ok).1
join-Holds mem _ _ delim ok (points (w ∷ ws) rest) = (join-joined mem w ws rest delim ok).0

-- With memory, joining what `ocoms_argv_split_with_empty` makes of a text gives the text back, less one
-- delimiter at its end.
pub join-split_with_empty :
    (mem : Memory) (s : Str) (delim : ℕ)
    → Plenty mem
    → (split_with_empty mem (some s) delim >>= λ argv. join mem argv delim)
      ≡ done (some (chomp delim s))
join-split_with_empty mem s delim ok =
    let (argv, ran, held) = (split-Holds mem s delim ok).1 in
    rw (ran, join-Holds mem argv (pieces delim s) delim ok held)
      (ap (λ t. done (some t)) (joined_all-pieces delim s))
