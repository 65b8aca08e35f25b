-- ===== src/VarEnum/Values.antt =====
-- Texts and values of an enumerator, from one to the other.
use mathlib.Core.Path.{subst}
use libocoms.Prelude.{
  ℕ, zero, suc, ◌≡◌, refl, ap, Bool, true, false, Option, none, some, List, [], ◌∷◌, done, inl, inr,
  arith, Bool-cases,
}
use libocoms.Prelude.Int.{ℤ, pos, negsuc}
use libocoms.Argv.{Str, strcmp_eq}
use libocoms.VarEnum.{
  EnumValue, eq_ℤ, truth, true_text, false_text, truth_text, is_true, is_false, bool_sfv, bool_vfs,
  enum_string_from_value, find_value, enum_value_from_string,
}
use libocoms.Status.{Status, success}

eq_ℤ-same : (a b : ℤ) → eq_ℤ a b ≡ true → a ≡ b
eq_ℤ-same (pos a) (pos b) e = ap pos (ground (arith, e))
eq_ℤ-same (pos a) (negsuc b) e = absurd (ground (arith, e))
eq_ℤ-same (negsuc a) (pos b) e = absurd (ground (arith, e))
eq_ℤ-same (negsuc a) (negsuc b) e = ap negsuc (ground (arith, e))

-- What holds of the text of every value, none of which is NULL.
abbrev pub AllTexts : (Str → Type 0) → List EnumValue → Type 0
AllTexts P [] = Unit
AllTexts P ((v, none) ∷ xs) = ⊥
AllTexts P ((v, some s) ∷ xs) = P s × AllTexts P xs

-- The text found for a value is one of them.
found-AllTexts :
    (P : Str → Type 0) (xs : List EnumValue) (value : ℤ) {s : Str}
    → AllTexts P xs
    → enum_string_from_value xs value ≡ (success, some (some s))
    → P s
unfolding enum_string_from_value
found-AllTexts P [] value h e = absurd (ground arith)
found-AllTexts P ((v, none) ∷ xs) value h e = absurd h
found-AllTexts P ((v, some t) ∷ xs) value (p, h) e = elim (Bool-cases (eq_ℤ value v)) [
  | inl f ↦ subst P (text (rw f at e)) p
  | inr f ↦ found-AllTexts P xs value h (rw f at e)
]
  where
    text :
        {x y : Str}
        → ◌≡◌ {A = Status × Option (Option Str)} (success, some (some x)) (success, some (some y))
        → x ≡ y
    text e = cc

module _ (strtol : (base : ℕ) → Str → ℤ × Str) (strcasecmp : Str → Str → Bool) where
  -- The text is not a number.
  abbrev pub IsWord : Str → Type 0
  IsWord s = (c : ℕ) × (cs : Str) × ((strtol 0 s).1 ≡ c ∷ cs)

  -- No text is a number, and none is that of an earlier value.
  abbrev pub Readable : List EnumValue → Type 0
  Readable [] = Unit
  Readable ((v, none) ∷ xs) = ⊥
  Readable ((v, some t) ∷ xs) = IsWord t × AllTexts (λ s. strcasecmp s t ≡ false) xs × Readable xs

  words : (xs : List EnumValue) → Readable xs → AllTexts IsWord xs
  words [] h = tt
  words ((v, none) ∷ xs) h = absurd h
  words ((v, some t) ∷ xs) (w, later, h) = (w, words xs h)

  find_value-found :
      (xs : List EnumValue) (value n : ℤ) (s : Str)
      → ((t : Str) → strcasecmp t t ≡ true)
      → Readable xs
      → enum_string_from_value xs value ≡ (success, some (some s))
      → find_value strtol strcasecmp false n s xs ≡ done (success, some value)
  unfolding enum_string_from_value find_value
  find_value-found [] value n s law h e = absurd (ground arith)
  find_value-found ((v, none) ∷ xs) value n s law h e = absurd h
  find_value-found ((v, some t) ∷ xs) value n s law (w, later, h) e =
      elim (Bool-cases (eq_ℤ value v)) [
        | inl f ↦
            let same : strcasecmp s t ≡ true =
              subst (λ u. strcasecmp u t ≡ true) (text (rw f at e)) (law t) in
            rw (same, eq_ℤ-same value v f) refl
        | inr f ↦
            let other = found-AllTexts (λ u. strcasecmp u t ≡ false) xs value later (rw f at e) in
            rw other (find_value-found xs value n s law h (rw f at e))
      ]
    where
      text :
          {x y : Str}
          → ◌≡◌ {A = Status × Option (Option Str)} (success, some (some x)) (success, some (some y))
          → x ≡ y
      text e = cc

  -- Where no text of an enumerator is a number or, but for case, that of another value, the text of a
  -- value is read as this value.
  pub value_from_string-string_from_value :
      (xs : List EnumValue) (value : ℤ) (s : Str)
      → ((t : Str) → strcasecmp t t ≡ true)
      → Readable xs
      → enum_string_from_value xs value ≡ (success, some (some s))
      → enum_value_from_string strtol strcasecmp xs s ≡ done (success, some value)
  unfolding enum_value_from_string
  value_from_string-string_from_value xs value s law h e =
      let (c, cs, w) = found-AllTexts IsWord xs value (words xs h) e in
      rw w (find_value-found xs value (strtol 0 s).0 s law h e)

-- The text of a Boolean variable is read as its value, where neither word is a number.
pub bool_vfs-truth_text :
    (strtol : (base : ℕ) → Str → ℤ × Str) (v : ℤ)
    → ((c : ℕ) × (cs : Str) × ((strtol 10 true_text).1 ≡ c ∷ cs))
    → ((c : ℕ) × (cs : Str) × ((strtol 10 false_text).1 ≡ c ∷ cs))
    → bool_vfs strtol (bool_sfv v).1 ≡ (success, some (truth v))
unfolding bool_vfs bool_sfv truth truth_text is_true is_false strcmp_eq
bool_vfs-truth_text strtol (pos zero) (c, cs, t) (d, ds, f) = rw (bool_vfs, f) refl
bool_vfs-truth_text strtol (pos (suc n)) (c, cs, t) f = rw (bool_vfs, t) refl
bool_vfs-truth_text strtol (negsuc n) (c, cs, t) f = rw (bool_vfs, t) refl
