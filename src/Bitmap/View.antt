-- ===== src/Bitmap/View.antt =====
-- What a bitmap means, a truth value at each position, and the invariant of its fields.
use mathlib.Core.List.{append-nil}
use native.Mathlib.Nat.{div-add-mod', mod-lt}
use libocoms.Prelude.{
  int, ℕ, zero, suc, ◌+◌, ◌-◌, ◌*◌, ◌/◌, ◌%◌, ◌≤◌, ◌<◌, ◌==◌, ◌≡◌, refl, ap, if◌then◌else◌, true,
  Bool, Option, none, some, List, [], ◌∷◌, ◌++◌, length, set, take, drop, replicate, take_all,
  length-append, length-drop, done, load, Returns, arith, leb,
}
use libocoms.Bitmap.{Bitmap, int_max, bytes, memset, larger, has_bit}

abbrev pub byte : List ℕ → ℕ → ℕ
byte [] i = 0
byte (b ∷ xs) zero = b
byte (b ∷ xs) (suc i) = byte xs i

abbrev pub contents : Bitmap → List ℕ
contents bm = elim bm.bitmap [ none ↦ [] | some xs ↦ xs ]

-- the bit at a position, false past the end
abbrev pub bit_at : Bitmap → ℕ → Bool
bit_at bm j = has_bit (j % 8) (byte (contents bm) (j / 8))

pub record IsValid (bm : Bitmap) : Type 0 where
  pub stored : bytes bm ≡ done (contents bm)
  pub measured : length (contents bm) ≡ bm.array_size
  pub in_byte : (i : ℕ) → byte (contents bm) i < 256
  pub nonempty : 0 < bm.array_size
  pub in_int : bm.array_size * 8 ≤ int_max

-- What `malloc` promises: a block of the size that was asked for.
abbrev pub IsAllocator : (ℕ → Option (List ℕ)) → Type 0
IsAllocator fresh = (n : ℕ) (xs : List ℕ) → fresh n ≡ some xs → length xs ≡ n

pub load-byte : (xs : List ℕ) (i : ℕ) → i < length xs → load xs i ≡ done (byte xs i)
load-byte [] i h = absurd (omega arith)
load-byte (x ∷ xs) zero h = refl
load-byte (x ∷ xs) (suc i) h = load-byte xs i (omega arith)

pub byte-set :
    (xs : List ℕ) (i j v : ℕ)
    → i < length xs
    → byte (set xs i v) j ≡ (if j == i then v else byte xs j)
byte-set [] i j v h = absurd (omega arith)
byte-set (x ∷ xs) zero zero v h = refl
byte-set (x ∷ xs) zero (suc j) v h = ground arith
byte-set (x ∷ xs) (suc i) zero v h = ground arith
byte-set (x ∷ xs) (suc i) (suc j) v h = ground (arith, byte-set xs i j v)

pub byte-out : (xs : List ℕ) (i : ℕ) → length xs ≤ i → byte xs i ≡ 0
byte-out [] i h = refl
byte-out (x ∷ xs) zero h = absurd (omega arith)
byte-out (x ∷ xs) (suc i) h = byte-out xs i (omega arith)

pub byte-replicate : (n i v : ℕ) → i < n → byte (replicate n v) i ≡ v
byte-replicate zero i v h = absurd (omega arith)
byte-replicate (suc n) zero v h = refl
byte-replicate (suc n) (suc i) v h = byte-replicate n i v (omega arith)

pub byte-replicate_zero : (n i : ℕ) → byte (replicate n 0) i ≡ 0
byte-replicate_zero zero i = refl
byte-replicate_zero (suc n) zero = refl
byte-replicate_zero (suc n) (suc i) = byte-replicate_zero n i

pub byte-append_zeros : (xs : List ℕ) (n i : ℕ) → byte (xs ++ replicate n 0) i ≡ byte xs i
byte-append_zeros [] n i = byte-replicate_zero n i
byte-append_zeros (x ∷ xs) n zero = refl
byte-append_zeros (x ∷ xs) n (suc i) = byte-append_zeros xs n i

module _ {ℓ} {A : Type ℓ} where
  take-append : (xs ys : List A) → take (length xs) (xs ++ ys) ≡ xs
  take-append [] ys = refl
  take-append (x ∷ xs) ys = ap (◌∷◌ x) (take-append xs ys)

  pub drop_all : (n : ℕ) (xs : List A) → length xs ≤ n → drop n xs ≡ []
  drop_all zero [] h = refl
  drop_all zero (x ∷ xs) h = absurd (omega arith)
  drop_all (suc n) [] h = refl
  drop_all (suc n) (x ∷ xs) h = drop_all n xs (omega arith)

-- A reallocated block whose new part is cleared is the old block with zeros behind it.
pub memset_grown :
    (xs junk : List ℕ) (n : ℕ)
    → length junk ≡ n
    → length xs ≤ n
    → memset (some (take n xs ++ drop (length xs) junk)) (length xs) 0 (n - length xs)
      ≡ done (xs ++ replicate (n - length xs) 0)
unfolding memset
memset_grown xs junk n e h =
    let zs = xs ++ drop (length xs) junk in
    let long : length zs ≡ n =
      omega (arith, length-append xs (drop (length xs) junk), length-drop (length xs) junk) in
    let whole : length xs + (n - length xs) ≡ n = omega arith in
    let fits : leb n (length zs) ≡ true = ground (arith, long) in
    rw
      (
        take_all n xs h,
        whole,
        fits,
        take-append xs (drop (length xs) junk),
        drop_all n zs (omega arith),
      )
      (ap done (append-nil (xs ++ replicate (n - length xs) 0)))

-- The multiple of the old size that makes room for an index.
pub larger_lem :
    (index a : ℕ)
    → 0 < a
    → a * 8 + index * 8 ≤ int_max
    → Returns (larger index a) λ n. (index < n) × (n * 8 ≤ a * 8 + index * 8)
unfolding larger
larger_lem index zero h k = absurd (omega arith)
larger_lem index (suc a) h k =
    go (index / suc a) (index % suc a) (div-add-mod' index (suc a)) (mod-lt index h)
  where
    go :
        (q r : ℕ)
        → q * suc a + r ≡ index
        → r < suc a
        → Returns (int ((q + 1) * suc a)) λ n. (index < n) × (n * 8 ≤ suc a * 8 + index * 8)
    go q r e l = ((q + 1) * suc a, ground arith, (omega arith, omega arith))
