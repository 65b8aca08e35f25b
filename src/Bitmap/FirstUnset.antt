-- ===== src/Bitmap/FirstUnset.antt =====
-- `ocoms_bitmap_find_and_set_first_unset_bit` on a valid bitmap.
use native.Mathlib.Decide.{ℕ_discrete, dec_lt}
use libocoms.Prelude.{
  ℕ, zero, suc, ◌+◌, ◌*◌, ◌/◌, ◌%◌, ◌≤◌, ◌<◌, ◌≡◌, ◌≢◌, refl, ap, ◌∙◌, true, false, ◌⊎◌, inl, inr,
  Option, none, List, length, done, Returns, arith,
}
use libocoms.Prelude.Int.{pos}
use libocoms.Bitmap.{
  Bitmap, int_max, has_bit, with_bit, set_bit, skip_ones, fill_lowest, find_and_set_first_unset_bit,
}
use libocoms.Bitmap.Bit.{Differs, replaced, update_byte_lem, with_bit-Differs}
use libocoms.Bitmap.Bits.{has_bit-zero, has_bit-ones, lowest_clear, count_ones-lowest_clear}
use libocoms.Bitmap.SetBit.{set_bit-Differs}
use libocoms.Bitmap.View.{byte, contents, bit_at, byte-out, IsValid, IsAllocator, load-byte}
use libocoms.Status.{Status, success, out_of_resource, bad_param}

skip_ones_lem :
    (xs : List ℕ) (left i : ℕ)
    → i + left ≡ length xs
    → Returns (skip_ones xs left i) λ k.
      (i ≤ k)
      × (k ≤ length xs)
      × ((j : ℕ) → i ≤ j → j < k → byte xs j ≡ 255)
      × (k < length xs → byte xs k ≢ 255)
unfolding skip_ones
skip_ones_lem xs zero i e =
    (i, refl, (omega arith, omega arith, λ j p q. absurd (omega arith), λ p. absurd (omega arith)))
skip_ones_lem xs (suc left) i e = elim (ℕ_discrete (byte xs i) 255) [
  | no ne ↦ (
    i,
    ground (arith, load-byte xs i (omega arith)),
    (omega arith, omega arith, λ j p q. absurd (omega arith), λ p. ne),
  )
  | yes ones ↦
      let (k, run, (low, high, all, stop)) = skip_ones_lem xs left (i + 1) (omega arith) in
      (
        k,
        rw (load-byte xs i (omega arith), ones, skip_ones) run,
        (
          omega arith,
          high,
          λ j p q. elim (ℕ_discrete i j) [ yes e ↦ rw e at ones | no ne ↦ all j (omega arith) q ],
          stop,
        ),
      )
]

bit_at_end : (bm : Bitmap) → IsValid bm → bit_at bm (bm.array_size * 8) ≡ false
bit_at_end bm v =
    let n = bm.array_size * 8 in
    rw (byte-out (contents bm) (n / 8) (omega (arith, v.measured)))
      (has_bit-zero (n % 8) (omega arith))

-- every bit below `p` is set
abbrev pub SetBelow : Bitmap → ℕ → Type 0
SetBelow bm p = (k : ℕ) → k < p → bit_at bm k ≡ true

SetBelow-of_ones :
    (bm : Bitmap) (i : ℕ)
    → ((j : ℕ) → 0 ≤ j → j < i → byte (contents bm) j ≡ 255)
    → SetBelow bm (i * 8)
SetBelow-of_ones bm i ones k h =
    rw (ones (k / 8) (omega arith) (omega arith)) (has_bit-ones (k % 8) (omega arith))

find_full :
    (fresh : ℕ → Option (List ℕ)) (bm bm' : Bitmap) (status : Status)
    → IsValid bm
    → skip_ones (contents bm) bm.array_size 0 ≡ done bm.array_size
    → set_bit fresh bm (pos (bm.array_size * 8)) ≡ done (status, bm')
    → find_and_set_first_unset_bit fresh bm ≡ done (status, bm.array_size * 8, bm')
unfolding find_and_set_first_unset_bit
find_full fresh bm bm' status v run set = ground (arith, v.stored, v.nonempty, v.in_int, run, set)

find_part :
    (fresh : ℕ → Option (List ℕ)) (bm : Bitmap) (i : ℕ)
    → IsValid bm
    → skip_ones (contents bm) bm.array_size 0 ≡ done i
    → i < bm.array_size
    → byte (contents bm) i < 255
    → let b = byte (contents bm) i in
      find_and_set_first_unset_bit fresh bm
      ≡ done (success, lowest_clear b + i * 8, replaced bm i (with_bit (lowest_clear b) b))
unfolding find_and_set_first_unset_bit
find_part fresh bm i v run inside small =
    let b = byte (contents bm) i in
    let (ones, _, _, filled, _) = count_ones-lowest_clear b small in
    ground (
      arith,
      v.stored,
      v.nonempty,
      run,
      load-byte (contents bm) i (omega (arith, v.measured)),
      ones,
      filled,
      update_byte_lem bm i fill_lowest v inside,
    )

-- The first clear bit of the first byte that has one is the first clear bit.
SetBelow-part :
    (bm : Bitmap) (i p : ℕ)
    → ((j : ℕ) → 0 ≤ j → j < i → byte (contents bm) j ≡ 255)
    → p < 8
    → ((j : ℕ) → j < p → has_bit j (byte (contents bm) i) ≡ true)
    → SetBelow bm (p + i * 8)
SetBelow-part bm i p ones small below k h = elim (dec_lt k (i * 8)) [
  | yes q ↦ SetBelow-of_ones bm i ones k q
  | no q ↦ let e : k / 8 ≡ i = omega arith in rw e (below (k % 8) (omega arith))
]

-- On a valid bitmap that may double within an `int`, `ocoms_bitmap_find_and_set_first_unset_bit`
-- accesses nothing out of range. With success it stores the least position whose bit was not set,
-- sets that bit and no other, and the bitmap is valid again. Otherwise every bit was set and the
-- stored position is the one behind them; the bitmap is unchanged with OCOMS_ERR_BAD_PARAM if that
-- is past `max_size`, or has lost its bits with OCOMS_ERR_OUT_OF_RESOURCE for want of memory.
pub find_and_set_first_unset_bit_lem :
    (fresh : ℕ → Option (List ℕ)) (bm : Bitmap)
    → IsAllocator fresh
    → IsValid bm
    → bm.array_size * 16 ≤ int_max
    → Returns (find_and_set_first_unset_bit fresh bm) λ r.
      let p = r.1 in
      let bm' = r.2 in
      ((r.0 ≡ success)
        × SetBelow bm p
        × (bit_at bm p ≡ false)
        × IsValid bm'
        × Differs bm p true bm')
      ⊎ ((p ≡ bm.array_size * 8)
          × SetBelow bm p
          × (((r.0 ≡ bad_param) × (bm' ≡ bm) × (bm.max_size < p))
              ⊎ ((r.0 ≡ out_of_resource) × (bm'.bitmap ≡ none))))
find_and_set_first_unset_bit_lem fresh bm alloc v fits =
    let xs = contents bm in
    let (i, run, (low, high, ones, stop)) =
      skip_ones_lem xs bm.array_size 0 (omega (arith, v.measured)) in
    elim (ℕ_discrete i bm.array_size) [
      | yes full ↦
          let p = bm.array_size * 8 in
          let below : SetBelow bm p = rw full at (SetBelow-of_ones bm i ones) in
          let ((status, bm'), set, outcome) =
            (set_bit-Differs fresh bm p alloc v (omega arith)).0 in
          (
            (status, p, bm'),
            find_full fresh bm bm' status v (run ∙ ap done full) set,
            elim outcome [
              | inl refused ↦ inr (refl, below, inl refused)
              | inr (inl lost) ↦ inr (refl, below, inr (lost.0, lost.2))
              | inr (inr d) ↦ inl (d.0, below, bit_at_end bm v, d.1, d.2)
            ],
          )
      | no part ↦
          let inside : i < bm.array_size = omega (arith, v.measured) in
          let small : byte xs i < 255 =
            omega (arith, v.in_byte i, stop (omega (arith, v.measured))) in
          let (_, low8, clear, _, below) = count_ones-lowest_clear (byte xs i) small in
          let p = lowest_clear (byte xs i) in
          let q = p + i * 8 in
          let at_i : q / 8 ≡ i = omega arith in
          let at_p : q % 8 ≡ p = omega arith in
          let d = with_bit-Differs bm q v (rw at_i inside) in
          (
            (success, q, replaced bm i (with_bit p (byte xs i))),
            find_part fresh bm i v run inside small,
            inl (
              refl,
              SetBelow-part bm i p ones low8 below,
              rw (at_i, at_p) clear,
              rw (at_i, at_p) at d.0,
              rw (at_i, at_p) at d.1,
            ),
          )
    ]
