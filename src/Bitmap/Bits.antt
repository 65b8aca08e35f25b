-- ===== src/Bitmap/Bits.antt =====
-- The bits of one byte, by evaluation over all bytes and offsets.
use native.Mathlib.Decide.{ℕ_discrete}
use libocoms.Prelude.{
  ℕ, zero, suc, ◌<◌, ◌≡◌, refl, Bool, true, false, not, ◌&&◌, ◌||◌, ◌==◌, ltb, ==_iff, ltb→lt, Exec,
  done, fault, arith,
}
use libocoms.Bitmap.{with_bit, without_bit, has_bit, count_ones, fill_lowest}

-- Whether a test passes at each number below a bound, from the bound downwards.
every_below : (ℕ → Bool) → ℕ → Bool
every_below test zero = true
every_below test (suc k) = every_below test k && test k

every_below-at :
    (test : ℕ → Bool) (bound : ℕ)
    → every_below test bound ≡ true
    → (k : ℕ) → k < bound
    → test k ≡ true
unfolding every_below
every_below-at test zero e k h = absurd (omega arith)
every_below-at test (suc bound) e k h = elim (ℕ_discrete k bound) [
  | yes last ↦ rw last (ground arith)
  | no earlier ↦ every_below-at test bound (ground arith) k (omega arith)
]

all_bits : (ℕ → ℕ → ℕ → Bool) → Bool
all_bits p = every_below (λ b. every_below (λ o. every_below (p b o) 8) 8) 256

all_bits_sound :
    (p : ℕ → ℕ → ℕ → Bool) (b o j : ℕ)
    → all_bits p ≡ true
    → b < 256
    → o < 8
    → j < 8
    → p b o j ≡ true
unfolding all_bits
all_bits_sound p b o j h hb ho hj =
    let per_byte = every_below-at (λ b. every_below (λ o. every_below (p b o) 8) 8) 256 h b hb in
    let per_offset = every_below-at (λ o. every_below (p b o) 8) 8 per_byte o ho in
    every_below-at (p b o) 8 per_offset j hj

same : Bool → Bool → Bool
same true b = b
same false b = not b

same_sound : (a b : Bool) → same a b ≡ true → a ≡ b
unfolding same
same_sound a b h = ground arith

with_bit_table :
    all_bits
      (λ b o j. same (has_bit j (with_bit o b)) (j == o || has_bit j b) && ltb (with_bit o b) 256)
    ≡ true
unfolding all_bits every_below same has_bit with_bit
with_bit_table = refl

without_bit_table :
    all_bits (λ b o j.
      same (has_bit j (without_bit o b)) (not (j == o) && has_bit j b) && ltb (without_bit o b) 256)
    ≡ true
unfolding all_bits every_below same has_bit without_bit
without_bit_table = refl

and_true : (a b : Bool) → (a && b) ≡ true → (a ≡ true) × (b ≡ true)
and_true a b h = ground arith

-- Setting a bit of a byte sets that bit and no other.
pub has_bit-with_bit :
    (b o j : ℕ)
    → b < 256
    → o < 8
    → j < 8
    → (has_bit j (with_bit o b) ≡ (j == o || has_bit j b)) × (with_bit o b < 256)
has_bit-with_bit b o j hb ho hj =
    let (e, l) = and_true _ _ (all_bits_sound _ b o j with_bit_table hb ho hj) in
    (same_sound _ _ e, ltb→lt _ _ l)

-- Clearing a bit of a byte clears that bit and no other.
pub has_bit-without_bit :
    (b o j : ℕ)
    → b < 256
    → o < 8
    → j < 8
    → (has_bit j (without_bit o b) ≡ (not (j == o) && has_bit j b)) × (without_bit o b < 256)
has_bit-without_bit b o j hb ho hj =
    let (e, l) = and_true _ _ (all_bits_sound _ b o j without_bit_table hb ho hj) in
    (same_sound _ _ e, ltb→lt _ _ l)

pub has_bit-zero : (j : ℕ) → j < 8 → has_bit j 0 ≡ false
has_bit-zero j h = same_sound _ _ (every_below-at (λ j. same (has_bit j 0) false) 8 table j h)
  where
    table : every_below (λ j. same (has_bit j 0) false) 8 ≡ true
    table = unfold every_below same has_bit in refl

pub has_bit-ones : (j : ℕ) → j < 8 → has_bit j 255 ≡ true
has_bit-ones j h = same_sound _ _ (every_below-at (λ j. same (has_bit j 255) true) 8 table j h)
  where
    table : every_below (λ j. same (has_bit j 255) true) 8 ≡ true
    table = unfold every_below same has_bit in refl

-- the position of the lowest clear bit
pub lowest_clear : ℕ → ℕ
lowest_clear b = elim (count_ones 9 b 0) [ done p ↦ p | fault _ ↦ 8 ]

is_done : Exec ℕ → ℕ → Bool
is_done (done p) q = p == q
is_done (fault e) q = false

is_done_sound : (r : Exec ℕ) (q : ℕ) → is_done r q ≡ true → r ≡ done q
unfolding is_done
is_done_sound (done p) q h = ground arith
is_done_sound (fault e) q h = ground arith

count_ones_table :
    every_below
      (λ b.
        is_done (count_ones 9 b 0) (lowest_clear b)
        && ltb (lowest_clear b) 8
        && not (has_bit (lowest_clear b) b)
        && fill_lowest b == with_bit (lowest_clear b) b
        && every_below (λ j. has_bit j b) (lowest_clear b))
      255
    ≡ true
unfolding every_below is_done lowest_clear count_ones has_bit fill_lowest with_bit
count_ones_table = refl

-- Of a byte with a clear bit the loop finds the lowest one, and `b |= b + 1` sets it.
pub count_ones-lowest_clear :
    (b : ℕ)
    → b < 255
    → (count_ones 9 b 0 ≡ done (lowest_clear b))
      × (lowest_clear b < 8)
      × (has_bit (lowest_clear b) b ≡ false)
      × (fill_lowest b ≡ with_bit (lowest_clear b) b)
      × ((j : ℕ) → j < lowest_clear b → has_bit j b ≡ true)
count_ones-lowest_clear b h =
    let (t, below) = and_true _ _ (every_below-at _ 255 count_ones_table b h) in
    let (t, filled) = and_true _ _ t in
    let (t, clear) = and_true _ _ t in
    let (stops, small) = and_true _ _ t in
    (
      is_done_sound _ _ stops,
      ltb→lt _ _ small,
      ground (arith, clear),
      (==_iff _ _).0 filled,
      λ j p. every_below-at (λ j. has_bit j b) _ below j p,
    )
