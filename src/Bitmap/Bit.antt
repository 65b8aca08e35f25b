-- ===== src/Bitmap/Bit.antt =====
-- `ocoms_bitmap_clear_bit` and `_is_set_bit` on a valid bitmap.
use native.Mathlib.Decide.{dec_lt}
use libocoms.Prelude.{
  ℕ, ◌*◌, ◌/◌, ◌%◌, ◌≤◌, ◌<◌, ◌==◌, ◌≡◌, refl, ◌∙◌, if◌then◌else◌, true, false, Bool, ◌⊎◌, inl, inr,
  some, length, set, length-set, done, store-in, Returns, arith, leb,
}
use libocoms.Prelude.Int.{pos, negsuc}
use libocoms.Bitmap.{Bitmap, update_byte, with_bit, without_bit, is_outside, is_set_bit, clear_bit}
use libocoms.Bitmap.Bits.{has_bit-zero, has_bit-with_bit, has_bit-without_bit}
use libocoms.Bitmap.View.{byte, contents, bit_at, IsValid, load-byte, byte-set, byte-out}
use libocoms.Status.{success, bad_param}

is_outside_lem :
    (bm : Bitmap) (j : ℕ) → IsValid bm → is_outside bm j ≡ done (leb (bm.array_size * 8) j)
unfolding is_outside
is_outside_lem bm j v = ground (arith, v.in_int)

-- On a valid bitmap `ocoms_bitmap_is_set_bit` reads nothing out of range; it gives the bit at a
-- position, and false for a negative one.
pub is_set_bit-bit_at :
    (bm : Bitmap) (j : ℕ)
    → IsValid bm
    → (is_set_bit bm (pos j) ≡ done (bit_at bm j)) × (is_set_bit bm (negsuc j) ≡ done false)
unfolding is_set_bit
is_set_bit-bit_at bm j v = (
  elim (dec_lt (j / 8) bm.array_size) [
    | yes p ↦ ground (
      arith,
      is_outside_lem bm j v,
      v.stored,
      load-byte (contents bm) (j / 8) (omega (arith, v.measured)),
    )
    | no p ↦ ground (
      arith,
      is_outside_lem bm j v,
      byte-out (contents bm) (j / 8) (omega (arith, v.measured)),
      has_bit-zero (j % 8) (omega arith),
    )
  ],
  refl,
)

-- the bitmap with one byte replaced
abbrev pub replaced : Bitmap → ℕ → ℕ → Bitmap
replaced bm i b = record bm { bitmap = some (set (contents bm) i b) }

pub update_byte_lem :
    (bm : Bitmap) (i : ℕ) (f : ℕ → ℕ)
    → IsValid bm
    → i < bm.array_size
    → update_byte bm i f ≡ done (success, replaced bm i (f (byte (contents bm) i)))
unfolding update_byte
update_byte_lem bm i f v h =
    let xs = contents bm in
    let in_xs : i < length xs = omega (arith, v.measured) in
    rw (v.stored, load-byte xs i in_xs, store-in xs i (f (byte xs i)) in_xs)

pub replaced-IsValid :
    (bm : Bitmap) (i b : ℕ) → IsValid bm → i < bm.array_size → b < 256 → IsValid (replaced bm i b)
replaced-IsValid bm i b v h small = record {
  stored = refl;
  measured = length-set (contents bm) i b ∙ v.measured;
  in_byte =
      λ j. ground (arith, byte-set (contents bm) i j b (omega (arith, v.measured)), v.in_byte j);
  nonempty = v.nonempty;
  in_int = v.in_int;
}

-- `bm'` is `bm` but for the bit at `j`, which is `b`.
abbrev pub Differs : Bitmap → ℕ → Bool → Bitmap → Type 0
Differs bm j b bm' = (k : ℕ) → bit_at bm' k ≡ (if k == j then b else bit_at bm k)

pub with_bit-Differs :
    (bm : Bitmap) (j : ℕ)
    → IsValid bm
    → j / 8 < bm.array_size
    → let bm' = replaced bm (j / 8) (with_bit (j % 8) (byte (contents bm) (j / 8))) in
      IsValid bm' × Differs bm j true bm'
with_bit-Differs bm j v h =
    let xs = contents bm in
    let b = byte xs (j / 8) in
    let sets = λ (k : ℕ).
      has_bit-with_bit b (j % 8) (k % 8) (v.in_byte (j / 8)) (omega arith) (omega arith) in
    (
      replaced-IsValid bm (j / 8) (with_bit (j % 8) b) v h (sets 0).1,
      λ k. ground (
        arith,
        byte-set xs (j / 8) (k / 8) (with_bit (j % 8) b) (omega (arith, v.measured)),
        sets k,
      ),
    )

without_bit-Differs :
    (bm : Bitmap) (j : ℕ)
    → IsValid bm
    → j / 8 < bm.array_size
    → let bm' = replaced bm (j / 8) (without_bit (j % 8) (byte (contents bm) (j / 8))) in
      IsValid bm' × Differs bm j false bm'
without_bit-Differs bm j v h =
    let xs = contents bm in
    let b = byte xs (j / 8) in
    let sets = λ (k : ℕ).
      has_bit-without_bit b (j % 8) (k % 8) (v.in_byte (j / 8)) (omega arith) (omega arith) in
    (
      replaced-IsValid bm (j / 8) (without_bit (j % 8) b) v h (sets 0).1,
      λ k. ground (
        arith,
        byte-set xs (j / 8) (k / 8) (without_bit (j % 8) b) (omega (arith, v.measured)),
        sets k,
      ),
    )

-- On a valid bitmap `ocoms_bitmap_clear_bit` refuses a position outside it, the bitmap unchanged, and
-- otherwise clears the bit at the position and no other, the bitmap being valid again.
pub clear_bit-Differs :
    (bm : Bitmap) (j : ℕ)
    → IsValid bm
    → Returns (clear_bit bm (pos j)) λ r.
      ((r.0 ≡ bad_param) × (r.1 ≡ bm) × (bm.array_size * 8 ≤ j))
      ⊎ ((r.0 ≡ success) × IsValid r.1 × Differs bm j false r.1)
unfolding clear_bit
clear_bit-Differs bm j v = elim (dec_lt j (bm.array_size * 8)) [
  | no p ↦ ((bad_param, bm), ground (arith, is_outside_lem bm j v), inl (refl, refl, omega arith))
  | yes p ↦
      let inside : j / 8 < bm.array_size = omega arith in
      (
        _,
        ground (
          arith,
          is_outside_lem bm j v,
          update_byte_lem bm (j / 8) (without_bit (j % 8)) v inside,
        ),
        (let d = without_bit-Differs bm j v inside in inr (refl, d.0, d.1)),
      )
]
