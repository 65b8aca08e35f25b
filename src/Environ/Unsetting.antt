-- ===== src/Environ/Unsetting.antt =====
-- `ocoms_unsetenv` on well-formed lists, with an allocator that serves every request.
use libocoms.Prelude.{
  ◌+◌, ◌≡◌, refl, sym, ap, ◌∙◌, ◌⊎◌, inl, inr, true, false, Bool-cases, Option-cases, none, some,
  List, [], ◌∷◌, ◌++◌, length, drop, done, arith,
}
use libocoms.Argv.{Str, Argv, Memory}
use libocoms.Argv.Blocks.{block, Plenty}
use libocoms.Environ.{entry, starts_with, shift_left, unset_slots, unsetenv}
use libocoms.Environ.Lookup.{lookup}
use libocoms.Status.{success, not_found}

shift_left-block :
    (s : Str) (ss : List Str) (rest : Argv)
    → shift_left (block (s ∷ ss) rest) ≡ done (block ss (none ∷ rest))
unfolding shift_left
shift_left-block s [] rest = refl
shift_left-block s (t ∷ ss) rest = rw (shift_left-block t ss rest) refl

unset_slots-missing :
    (name : Str) (ss : List Str) (rest : Argv)
    → lookup name ss ≡ none
    → unset_slots (block ss rest) (entry name none) ≡ done (false, block ss rest)
unfolding unset_slots lookup
unset_slots-missing name [] rest h = refl
unset_slots-missing name (s ∷ ss) rest h = elim (Bool-cases (starts_with (entry name none) s)) [
  | inl e ↦ absurd (some_none {v = drop (length name + 1) s} (ground (arith, h, e)))
  | inr e ↦
      let later : lookup name ss ≡ none = ground (arith, h, e) in
      rw (e, unset_slots-missing name ss rest later) refl
]
  where
    some_none : {v : Str} → some v ≡ none → ⊥
    some_none e = cc

-- The first string that starts with the name and '=', with those before and those behind it, and the
-- run of the loop that takes it out.
abbrev TakesOut : Str → List Str → Argv → Str → Type 0
TakesOut name ss rest v =
    (before : List Str) × (s : Str) × (after : List Str) × (ss ≡ before ++ (s ∷ after))
    × (lookup name before ≡ none)
    × (lookup name (s ∷ []) ≡ some v)
    × (unset_slots (block ss rest) (entry name none)
        ≡ done (true, block (before ++ after) (none ∷ rest)))

unset_slots-found :
    (name v : Str) (ss : List Str) (rest : Argv) → lookup name ss ≡ some v → TakesOut name ss rest v
unfolding unset_slots lookup
unset_slots-found name v [] rest h = absurd (none_some h)
  where
    none_some : {x : Str} → none ≡ some x → ⊥
    none_some e = cc
unset_slots-found name v (s ∷ ss) rest h = elim (Bool-cases (starts_with (entry name none) s)) [
  | inl e ↦ ([], s, ss, refl, refl, ground (arith, h, e), rw (e, shift_left-block s ss rest) refl)
  | inr e ↦
      let later : lookup name ss ≡ some v = ground (arith, h, e) in
      let (before, t, after, cut, fresh, found, ran) = unset_slots-found name v ss rest later in
      (s ∷ before, t, after, ap (◌∷◌ s) cut, rw e fresh, found, rw (e, ran) refl)
]

-- `ocoms_unsetenv` with memory: either no string is an entry of the name, and it says so and changes
-- nothing, or it takes out the first such string, leaves all others in their order, and succeeds.
pub unsetenv-TakesOut :
    (mem : Memory) (name : Str) (ss : List Str) (rest : Argv)
    → Plenty mem
    → ((lookup name ss ≡ none)
        × (unsetenv mem name (some (block ss rest)) ≡ done (not_found, some (block ss rest))))
      ⊎ ((before : List Str) × (s : Str) × (after : List Str) × (ss ≡ before ++ (s ∷ after))
          × (lookup name before ≡ none)
          × (lookup name (s ∷ []) ≡ lookup name ss)
          × (unsetenv mem name (some (block ss rest))
              ≡ done (success, some (block (before ++ after) (none ∷ rest)))))
unfolding unsetenv
unsetenv-TakesOut mem name ss rest ok = elim (Option-cases (lookup name ss)) [
  | inl missing ↦ inl (
    missing,
    rw (ok (length (entry name none) + 1), unset_slots-missing name ss rest missing) refl,
  )
  | inr (v, there) ↦
      let (before, s, after, cut, fresh, found, ran) = unset_slots-found name v ss rest there in
      inr (
        before,
        s,
        after,
        cut,
        fresh,
        found ∙ sym there,
        rw (ok (length (entry name none) + 1), ran) refl,
      )
]
