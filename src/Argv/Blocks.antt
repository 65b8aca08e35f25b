-- ===== src/Argv/Blocks.antt =====
-- Well-formed arrays: the strings, a NULL, and whatever follows it in the block.
use mathlib.Core.List.{map, append_assoc}
use libocoms.Prelude.{
  ℕ, zero, suc, ◌+◌, ◌-◌, ◌*◌, ◌≡◌, refl, ap, Option, none, some, List, [], ◌∷◌, ◌++◌, length, set,
  take, replicate, get_elem?, done, load, store, arith, length-append, length-take,
  length-replicate, true,
}
use libocoms.Argv.{Str, Argv, Memory, count_slots, count, realloc}

-- The block of an array of the strings `ss`.
abbrev pub block : List Str → Argv → Argv
block ss rest = map some ss ++ (none ∷ rest)

-- a `char **` that is NULL, for no strings, or points to such a block
pub data Holds : Option Argv → List Str → Type 0 where
  null : Holds none []
  points : (ss : List Str) (rest : Argv) → Holds (some (block ss rest)) ss

module _ {ℓ} {A : Type ℓ} where
  pub get_elem?-middle : (xs ys : List A) (y : A) → get_elem? (xs ++ (y ∷ ys)) (length xs) ≡ some y
  get_elem?-middle [] ys y = refl
  get_elem?-middle (x ∷ xs) ys y = get_elem?-middle xs ys y

  pub set-middle : (xs ys : List A) (y v : A) → set (xs ++ (y ∷ ys)) (length xs) v ≡ xs ++ (v ∷ ys)
  set-middle [] ys y v = refl
  set-middle (x ∷ xs) ys y v = ap (◌∷◌ x) (set-middle xs ys y v)

  -- Reading and writing behind a known prefix.
  pub load-middle :
      (xs ys : List A) (y : A) (i : ℕ) → i ≡ length xs → load (xs ++ (y ∷ ys)) i ≡ done y
  load-middle xs ys y i e = rw e (ground (arith, get_elem?-middle xs ys y))

  pub store-middle :
      (xs ys : List A) (y v : A) (i : ℕ)
      → i ≡ length xs
      → store (xs ++ (y ∷ ys)) i v ≡ done (xs ++ (v ∷ ys))
  store-middle xs ys y v i e = rw e (ground (arith, get_elem?-middle xs ys y, set-middle xs ys y v))

  pub take-append_left :
      (xs ys : List A) (n k : ℕ) → n ≡ length xs + k → take n (xs ++ ys) ≡ xs ++ take k ys
  take-append_left [] ys n k e = ap (λ m. take m ys) (omega arith)
  take-append_left (x ∷ xs) ys zero k e = absurd (omega arith)
  take-append_left (x ∷ xs) ys (suc n) k e = ap (◌∷◌ x) (take-append_left xs ys n k (omega arith))

pub length-strings : (ss : List Str) → length (map {B = Option Str} some ss) ≡ length ss
length-strings [] = refl
length-strings (s ∷ ss) = ap suc (length-strings ss)

pub count_slots-block :
    (ss : List Str) (rest : Argv) → count_slots (block ss rest) ≡ done (length ss)
unfolding count_slots
count_slots-block [] rest = refl
count_slots-block (s ∷ ss) rest = rw (count_slots-block ss rest)

-- On a well-formed array `ocoms_argv_count` is the number of its strings.
pub count-Holds :
    (argv : Option Argv) (ss : List Str) → Holds argv ss → count argv ≡ done (length ss)
unfolding count
count-Holds _ _ null = refl
count-Holds _ _ (points ss rest) = count_slots-block ss rest

-- Every request is served.
abbrev pub Plenty : Memory → Type 0
Plenty mem = (n : ℕ) → mem.serves n ≡ true

-- The block after `realloc` to `k` slots more than the strings and their NULL.
pub realloc-block :
    (mem : Memory) (ss : List Str) (rest : Argv) (n k : ℕ)
    → Plenty mem
    → n ≡ length ss + 1 + k
    → (tail : Argv) × (realloc mem (block ss rest) n ≡ some (block ss tail)) × (length tail ≡ k)
unfolding realloc
realloc-block mem ss rest n k ok e =
    let pre : Argv = map some ss in
    let tail = take k rest ++ replicate (k - length rest) mem.junk in
    let size = length-append pre (none ∷ rest) in
    let kept = take-append_left pre (none ∷ rest) n (suc k) (omega (arith, length-strings ss)) in
    let missing : n - length (block ss rest) ≡ k - length rest =
      omega (arith, size, length-strings ss) in
    (
      tail,
      rw (ok (n * 8), kept, missing)
          (ap some (append_assoc pre (none ∷ take k rest) (replicate (k - length rest) mem.junk))),
      omega (
        arith,
        length-append (take k rest) (replicate (k - length rest) mem.junk),
        length-take k rest,
        length-replicate (k - length rest) mem.junk,
      ),
    )

pub block-append :
    (ss ts : List Str) (rest : Argv) → block (ss ++ ts) rest ≡ map some ss ++ block ts rest
block-append [] ts rest = refl
block-append (s ∷ ss) ts rest = ap (◌∷◌ (some s)) (block-append ss ts rest)
