-- ===== src/Environ/Lookup.antt =====
-- Which value a list of environment variables gives a name.
use libocoms.Prelude.{
  ℕ, suc, ◌+◌, ◌==◌, ◌≡◌, ◌≢◌, refl, sym, ap, ap₂, ◌∙◌, inl, inr, if◌then◌else◌, true, false,
  Bool-cases, ==_iff, Option, none, some, List, [], ◌∷◌, ◌++◌, length, drop, arith,
}
use libocoms.Argv.{Str}
use libocoms.Environ.{equals, entry, starts_with}

-- The value behind the first string that starts with the name and '='.
unfoldable pub lookup : Str → List Str → Option Str
lookup name [] = none
lookup name (s ∷ ss) =
    if starts_with (entry name none) s then some (drop (length name + 1) s) else lookup name ss

-- No character of the name is '='.
pub data NoSign : Str → Type 0 where
  nothing : NoSign []
  character : (c : ℕ) (s : Str) → (c == equals) ≡ false → NoSign s → NoSign (c ∷ s)

==_self : (c : ℕ) → (c == c) ≡ true
==_self c = ground arith

-- The entry of a name and a value starts with the name and '='.
starts_with-entry :
    (name value : Str) → starts_with (entry name none) (entry name (some value)) ≡ true
unfolding starts_with entry
starts_with-entry [] value = refl
starts_with-entry (c ∷ name) value = rw (==_self c) (starts_with-entry name value)

-- No string is an entry of two names.
starts_with_other :
    (name other s : Str)
    → NoSign name
    → NoSign other
    → other ≢ name
    → starts_with (entry name none) s ≡ true
    → starts_with (entry other none) s ≡ false
unfolding starts_with entry
starts_with_other [] [] s hn ho ne e = absurd (ne refl)
starts_with_other [] (o ∷ os) [] hn ho ne e = refl
starts_with_other [] (o ∷ os) (d ∷ s) hn (character _ _ sign ho) ne e = ground (arith, e, sign)
starts_with_other (c ∷ name) [] [] hn ho ne e = refl
starts_with_other (c ∷ name) [] (d ∷ s) (character _ _ sign hn) ho ne e = ground (arith, e, sign)
starts_with_other (c ∷ name) (o ∷ os) [] hn ho ne e = refl
starts_with_other (c ∷ name) (o ∷ os) (d ∷ s) (character _ _ sign hn) (character _ _ sign' ho) ne
      e =
    elim (Bool-cases (o == d)) [
      | inr e' ↦ rw e' refl
      | inl e' ↦
          let both : (c ≡ d) × (starts_with (entry name none) s ≡ true) = ground (arith, e) in
          let same : o ≡ c = (==_iff o d).0 e' ∙ sym both.0 in
          rw e' (starts_with_other name os s hn ho (λ q. ne (ap₂ ◌∷◌ same q)) both.1)
    ]

drop-entry : (name value : Str) → drop (length name + 1) (entry name (some value)) ≡ value
unfolding entry
drop-entry [] value = refl
drop-entry (c ∷ name) value =
    let same : suc (length name) + 1 ≡ suc (length name + 1) = omega arith in
    ap (λ n. drop n (c ∷ (name ++ (equals ∷ value)))) same ∙ drop-entry name value

-- The strings after the first that starts with `prefix` was replaced.
unfoldable pub replaced : (prefix new : Str) → List Str → List Str
replaced prefix new [] = []
replaced prefix new (s ∷ ss) = if starts_with prefix s then new ∷ ss else s ∷ replaced prefix new ss

-- The replaced name has the new value.
pub lookup-replaced :
    (name value v : Str) (ss : List Str)
    → lookup name ss ≡ some v
    → lookup name (replaced (entry name none) (entry name (some value)) ss) ≡ some value
unfolding lookup replaced
lookup-replaced name value v [] h = absurd (none_some h)
  where
    none_some : {x : Str} → none ≡ some x → ⊥
    none_some e = cc
lookup-replaced name value v (s ∷ ss) h = elim (Bool-cases (starts_with (entry name none) s)) [
  | inl e ↦ rw (e, starts_with-entry name value) (ap some (drop-entry name value))
  | inr e ↦
      let later : lookup name ss ≡ some v = ground (arith, h, e) in
      rw (e, e) (lookup-replaced name value v ss later)
]

-- A name that was not there has the value of the entry behind the others.
pub lookup-append :
    (name value : Str) (ss : List Str)
    → lookup name ss ≡ none
    → lookup name (ss ++ (entry name (some value) ∷ [])) ≡ some value
unfolding lookup
lookup-append name value [] h = rw (starts_with-entry name value) (ap some (drop-entry name value))
lookup-append name value (s ∷ ss) h = elim (Bool-cases (starts_with (entry name none) s)) [
  | inl e ↦ absurd (some_none (ground (arith, h, e)))
  | inr e ↦ rw e (lookup-append name value ss (ground (arith, h, e)))
]
  where
    some_none : some (drop (length name + 1) s) ≡ none → ⊥
    some_none e = cc

pub lookup_other-append :
    (name value other : Str) (ss : List Str)
    → NoSign name
    → NoSign other
    → other ≢ name
    → lookup other (ss ++ (entry name (some value) ∷ [])) ≡ lookup other ss
unfolding lookup
lookup_other-append name value other [] hn ho ne =
    rw
      (starts_with_other name other (entry name (some value)) hn ho ne
        (starts_with-entry name value))
      refl
lookup_other-append name value other (s ∷ ss) hn ho ne =
    ap (λ r. if starts_with (entry other none) s then some (drop (length other + 1) s) else r)
      (lookup_other-append name value other ss hn ho ne)

pub lookup_other-replaced :
    (name value other : Str) (ss : List Str)
    → NoSign name
    → NoSign other
    → other ≢ name
    → lookup other (replaced (entry name none) (entry name (some value)) ss) ≡ lookup other ss
unfolding lookup replaced
lookup_other-replaced name value other [] hn ho ne = refl
lookup_other-replaced name value other (s ∷ ss) hn ho ne =
    elim (Bool-cases (starts_with (entry name none) s)) [
      | inl e ↦
          rw
            (
              e,
              starts_with_other name other (entry name (some value)) hn ho ne
                  (starts_with-entry name value),
              starts_with_other name other s hn ho ne e,
            )
            refl
      | inr e ↦ rw e (
          ap (λ r. if starts_with (entry other none) s then some (drop (length other + 1) s) else r)
            (lookup_other-replaced name value other ss hn ho ne))
    ]
