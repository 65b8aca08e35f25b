-- ===== src/Environ/Setting.antt =====
-- `ocoms_setenv` on well-formed lists other than the process's own, with an allocator that serves
-- every request.
use libocoms.Prelude.{
  ◌+◌, ◌≡◌, ◌≢◌, refl, ◌∙◌, inl, inr, if◌then◌else◌, Bool, true, false, not, Bool-cases,
  Option-cases, Option, none, some, List, [], ◌∷◌, ◌++◌, length, drop, done, arith, Returns,
}
use libocoms.Argv.{Str, Argv, Memory}
use libocoms.Argv.Append.{append-Holds}
use libocoms.Argv.Blocks.{block, Holds, null, points, Plenty, count-Holds}
use libocoms.Environ.{entry, starts_with, set_slots, set_in, setenv}
use libocoms.Environ.Lookup.{
  lookup, NoSign, replaced, lookup-replaced, lookup-append, lookup_other-append,
  lookup_other-replaced,
}
use libocoms.Status.{success, exists}

set_slots-missing :
    (name new : Str) (ow : Bool) (ss : List Str) (rest : Argv)
    → lookup name ss ≡ none
    → set_slots (block ss rest) (entry name none) new ow ≡ done none
unfolding set_slots lookup
set_slots-missing name new ow [] rest h = refl
set_slots-missing name new ow (s ∷ ss) rest h =
    elim (Bool-cases (starts_with (entry name none) s)) [
      | inl e ↦ absurd (some_none {v = drop (length name + 1) s} (ground (arith, h, e)))
      | inr e ↦
          let later : lookup name ss ≡ none = ground (arith, h, e) in
          rw (e, set_slots-missing name new ow ss rest later) refl
    ]
  where
    some_none : {v : Str} → some v ≡ none → ⊥
    some_none e = cc

set_slots-found :
    (name new v : Str) (ow : Bool) (ss : List Str) (rest : Argv)
    → lookup name ss ≡ some v
    → set_slots (block ss rest) (entry name none) new ow
      ≡ done (
          some (
            if ow
            then (success, block (replaced (entry name none) new ss) rest)
            else (exists, block ss rest)))
unfolding set_slots lookup replaced
set_slots-found name new v ow [] rest h = absurd (none_some h)
  where
    none_some : {x : Str} → none ≡ some x → ⊥
    none_some e = cc
set_slots-found name new v true (s ∷ ss) rest h =
    elim (Bool-cases (starts_with (entry name none) s)) [
      | inl e ↦ rw e refl
      | inr e ↦
          let later : lookup name ss ≡ some v = ground (arith, h, e) in
          rw (e, set_slots-found name new v true ss rest later) refl
    ]
set_slots-found name new v false (s ∷ ss) rest h =
    elim (Bool-cases (starts_with (entry name none) s)) [
      | inl e ↦ rw e refl
      | inr e ↦
          let later : lookup name ss ≡ some v = ground (arith, h, e) in
          rw (e, set_slots-found name new v false ss rest later) refl
    ]

-- Whether the call leaves the value that the name has.
pub stays : Option Str → Bool → Bool
stays none ow = false
stays (some v) ow = not ow

-- What a call of `ocoms_setenv` with a name and a value is to do to a list of variables.
pub Sets : (name value : Str) (ow : Bool) (ss ss' : List Str) → Type 0
Sets name value ow ss ss' =
    (lookup name ss' ≡ (if stays (lookup name ss) ow then lookup name ss else some value))
    × ((other : Str) → NoSign other → other ≢ name → lookup other ss' ≡ lookup other ss)

-- The call returns, says whether the old value stays, and leaves a well-formed list.
abbrev pub SetsTo :
    Memory → (Argv → Str → Argv) → (name value : Str) → Bool → Option Argv → List Str → Type 0
SetsTo mem putenv name value ow argv ss =
    Returns (setenv mem putenv false name (some value) ow (some argv)) (λ r.
      (r.0 ≡ (if stays (lookup name ss) ow then exists else success))
      × (argv' : Option Argv) × (ss' : List Str) × (r.1 ≡ some argv')
      × Holds argv' ss'
      × Sets name value ow ss ss')

module _ (mem : Memory) (putenv : Argv → Str → Argv) (ok : Plenty mem) where
  set_in-missing :
      (name new : Str) (ow : Bool) (argv : Option Argv) (ss : List Str)
      → Holds argv ss
      → lookup name ss ≡ none
      → set_in mem putenv false (entry name none) new ow argv
        ≡ done (success, some (block (ss ++ (new ∷ [])) []))
  unfolding set_in
  set_in-missing name new ow _ _ null h = rw (append-Holds mem 0 none [] new ok null) refl
  set_in-missing name new ow _ _ (points ss rest) h =
      rw
        (
          ok (length (entry name none) + 1),
          set_slots-missing name new ow ss rest h,
          count-Holds (some (block ss rest)) ss (points ss rest),
          append-Holds mem (length ss) (some (block ss rest)) ss new ok (points ss rest),
        )
        refl

  set_in-found :
      (name new v : Str) (ow : Bool) (argv : Option Argv) (ss : List Str)
      → Holds argv ss
      → lookup name ss ≡ some v
      → Returns (set_in mem putenv false (entry name none) new ow argv) (λ r.
        (r.0 ≡ (if not ow then exists else success))
        × Holds r.1 (if ow then replaced (entry name none) new ss else ss))
  unfolding set_in lookup
  set_in-found name new v ow _ _ null h = absurd (none_some h)
    where
      none_some : {x : Str} → none ≡ some x → ⊥
      none_some e = cc
  set_in-found name new v true _ _ (points ss rest) h = (
    (success, some (block (replaced (entry name none) new ss) rest)),
    rw (ok (length (entry name none) + 1), set_slots-found name new v true ss rest h) refl,
    (refl, points (replaced (entry name none) new ss) rest),
  )
  set_in-found name new v false _ _ (points ss rest) h = (
    (exists, some (block ss rest)),
    rw (ok (length (entry name none) + 1), set_slots-found name new v false ss rest h) refl,
    (refl, points ss rest),
  )

  setenv-found :
      (name value v : Str) (ow : Bool) (argv : Option Argv) (ss : List Str)
      → Holds argv ss
      → NoSign name
      → lookup name ss ≡ some v
      → SetsTo mem putenv name value ow argv ss
  unfolding setenv stays Sets
  setenv-found name value v true argv ss h sign old =
      let new = entry name (some value) in
      let ((status, argv'), ran, (said, held)) = set_in-found name new v true argv ss h old in
      (
        (status, some argv'),
        rw (ok (length new + 1), ran) refl,
        (
          said ∙ rw old refl,
          argv',
          replaced (entry name none) new ss,
          refl,
          held,
          (
            rw old (lookup-replaced name value v ss old),
            λ other sign' ne. lookup_other-replaced name value other ss sign sign' ne,
          ),
        ),
      )
  setenv-found name value v false argv ss h sign old =
      let new = entry name (some value) in
      let ((status, argv'), ran, (said, held)) = set_in-found name new v false argv ss h old in
      (
        (status, some argv'),
        rw (ok (length new + 1), ran) refl,
        (said ∙ rw old refl, argv', ss, refl, held, (rw old refl, λ other sign' ne. refl)),
      )

  -- `ocoms_setenv` of a name without '=' on a list other than the process's own, with memory: the name
  -- has the new value, or the old one if there was one and overwriting was not asked for, which the
  -- status says; the list stays well formed and other names without '=' keep their values.
  pub setenv-Sets :
      (name value : Str) (ow : Bool) (argv : Option Argv) (ss : List Str)
      → Holds argv ss
      → NoSign name
      → SetsTo mem putenv name value ow argv ss
  unfolding setenv stays Sets
  setenv-Sets name value ow argv ss h sign = elim (Option-cases (lookup name ss)) [
    | inl fresh ↦
        let new = entry name (some value) in
        (
          (success, some (some (block (ss ++ (new ∷ [])) []))),
          rw (ok (length new + 1), set_in-missing name new ow argv ss h fresh) refl,
          (
            rw fresh refl,
            some (block (ss ++ (new ∷ [])) []),
            ss ++ (new ∷ []),
            refl,
            points (ss ++ (new ∷ [])) [],
            (
              rw fresh (lookup-append name value ss fresh),
              λ other sign' ne. lookup_other-append name value other ss sign sign' ne,
            ),
          ),
        )
    | inr (v, old) ↦ setenv-found name value v ow argv ss h sign old
  ]
