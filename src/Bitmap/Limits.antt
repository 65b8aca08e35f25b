-- ===== src/Bitmap/Limits.antt =====
-- `ocoms_bitmap_init`, `_clear_all_bits`, `_set_all_bits` and `_set_max_size`.
use native.Mathlib.Decide.{ℕ_discrete, dec_lt}
use mathlib.Core.List.{append-nil}
use libocoms.Prelude.{
  ℕ, ◌+◌, ◌*◌, ◌/◌, ◌%◌, ◌≤◌, ◌<◌, ◌≡◌, refl, sym, ap, ◌∙◌, true, false, ◌⊎◌, inl, inr, Option,
  none, some, List, length, replicate, length-replicate, done, Returns, arith, leb, ltb,
  Option-cases,
}
use libocoms.Prelude.Int.{pos}
use libocoms.Bitmap.{
  Bitmap, int_max, chars, bytes, memset, set_max_size, init, clear_all_bits, set_all_bits, set_bit,
}
use libocoms.Bitmap.Bits.{has_bit-zero, has_bit-ones}
use libocoms.Bitmap.View.{
  contents, bit_at, IsValid, IsAllocator, byte-replicate, byte-replicate_zero, drop_all, byte-out,
}
use libocoms.Status.{success, out_of_resource, bad_param}

memset_whole :
    (xs : List ℕ) (v n : ℕ) → length xs ≡ n → memset (some xs) 0 v n ≡ done (replicate n v)
unfolding memset
memset_whole xs v n e =
    let z : 0 + n ≡ n = omega arith in
    let fits : leb n (length xs) ≡ true = ground (arith, e) in
    rw (z, fits, drop_all n xs (omega arith)) (ap done (append-nil (replicate n v)))

memset_stored :
    (bm : Bitmap) (v : ℕ)
    → bytes bm ≡ done (contents bm)
    → length (contents bm) ≡ bm.array_size
    → memset bm.bitmap 0 v bm.array_size ≡ done (replicate bm.array_size v)
memset_stored bm v e m = go bm.bitmap refl
  where
    go :
        (b : Option (List ℕ))
        → bm.bitmap ≡ b
        → memset bm.bitmap 0 v bm.array_size ≡ done (replicate bm.array_size v)
    go none p = ground (arith, p, e)
    go (some xs) p = rw p (memset_whole xs v bm.array_size (rw p at m))

filled-IsValid :
    (bm : Bitmap) (v : ℕ)
    → v < 256
    → 0 < bm.array_size
    → bm.array_size * 8 ≤ int_max
    → IsValid (record bm { bitmap = some (replicate bm.array_size v) })
filled-IsValid bm v small some_bytes fits = record {
  stored = refl;
  measured = length-replicate bm.array_size v;
  in_byte = λ i. elim (dec_lt i bm.array_size) [
    | yes p ↦ rw (byte-replicate bm.array_size i v p) small
    | no p ↦ omega (
      arith,
      byte-out (replicate bm.array_size v) i
          (omega (arith, length-replicate {A = ℕ} bm.array_size v)),
    )
  ];
  nonempty = some_bytes;
  in_int = fits;
}

-- `ocoms_bitmap_clear_all_bits` and `_set_all_bits` keep a valid bitmap valid and of the same size;
-- after the first no bit is set, after the second exactly the positions inside the bitmap are.
pub all_bits_lem :
    (bm : Bitmap)
    → IsValid bm
    → Returns (clear_all_bits bm) (λ r.
      (r.0 ≡ success)
      × IsValid r.1
      × (r.1.array_size ≡ bm.array_size)
      × ((k : ℕ) → bit_at r.1 k ≡ false))
      × Returns (set_all_bits bm) (λ r.
        (r.0 ≡ success)
        × IsValid r.1
        × (r.1.array_size ≡ bm.array_size)
        × ((k : ℕ) → bit_at r.1 k ≡ ltb k (bm.array_size * 8)))
unfolding clear_all_bits set_all_bits
all_bits_lem bm v = (
  (
    _,
    rw (memset_stored bm 0 v.stored v.measured),
    (
      refl,
      filled-IsValid bm 0 (omega arith) v.nonempty v.in_int,
      refl,
      λ k. rw (byte-replicate_zero bm.array_size (k / 8)) (has_bit-zero (k % 8) (omega arith)),
    ),
  ),
  (
    _,
    rw (memset_stored bm 255 v.stored v.measured),
    (
      refl,
      filled-IsValid bm 255 (omega arith) v.nonempty v.in_int,
      refl,
      λ k. elim (dec_lt (k / 8) bm.array_size) [
        | yes p ↦
            ground (
              arith,
              byte-replicate bm.array_size (k / 8) 255 p,
              has_bit-ones (k % 8) (omega arith),
            )
        | no p ↦ ground (
          arith,
          byte-out (replicate bm.array_size 255) (k / 8)
              (omega (arith, length-replicate {A = ℕ} bm.array_size 255)),
          has_bit-zero (k % 8) (omega arith),
        )
      ],
    ),
  ),
)

-- `ocoms_bitmap_init` of a number of bits that is positive, at most `max_size` and rounds up to whole
-- bytes within an `int` returns: without memory with OCOMS_ERR_OUT_OF_RESOURCE, otherwise with
-- success and a valid bitmap of that many bits, rounded up, none of them set. Other sizes are refused.
pub init-IsValid :
    (fresh : ℕ → Option (List ℕ)) (bm : Bitmap) (n : ℕ)
    → IsAllocator fresh
    → n + 7 ≤ int_max
    → Returns (init fresh bm (pos n)) λ r.
      ((r.0 ≡ bad_param) × (r.1 ≡ bm) × ((n ≡ 0) ⊎ (bm.max_size < n)))
      ⊎ ((r.0 ≡ out_of_resource) × (fresh (chars n) ≡ none))
      ⊎ ((r.0 ≡ success)
          × IsValid r.1
          × (n ≤ r.1.array_size * 8)
          × (r.1.array_size * 8 < n + 8)
          × ((k : ℕ) → bit_at r.1 k ≡ false))
unfolding init clear_all_bits
init-IsValid fresh bm n alloc fits = elim (dec_lt bm.max_size n) [
  | yes p ↦ ((bad_param, bm), ground arith, inl (refl, refl, inr p))
  | no p ↦ elim (ℕ_discrete n 0) [
    | yes z ↦ ((bad_param, bm), ground arith, inl (refl, refl, inl z))
    | no nz ↦ elim (Option-cases (fresh (chars n))) [
      | inl refused ↦ (
        (out_of_resource, record bm { array_size = chars n; bitmap = fresh (chars n) }),
        ground (arith, refused),
        inr (inl (refl, refused)),
      )
      | inr (junk, got) ↦
          let whole = memset_whole junk 0 (chars n) (alloc (chars n) junk got) in
          let bm' = record bm { array_size = chars n; bitmap = some junk } in
          (
            (success, record bm' { bitmap = some (replicate (chars n) 0) }),
            ground (arith, got, whole),
            inr (
                inr (
                  refl,
                  filled-IsValid bm' 0 (omega arith) (ground arith) (ground arith),
                  ground arith,
                  ground arith,
                  λ k.
                      rw (byte-replicate_zero (chars n) (k / 8))
                        (has_bit-zero (k % 8) (omega arith)),
                )),
          )
    ]
  ]
]

-- `ocoms_bitmap_set_max_size` is told a number of bits and stores it in bytes, rounded up, against which
-- the other functions compare bits: after it, for a positive number `n` that rounds up to whole bytes
-- within an `int`, and where `malloc` gives blocks of the size asked for, `ocoms_bitmap_init` of `n` bits
-- and `ocoms_bitmap_set_bit` at `n` are refused if 8 * n > max + 7, and otherwise that `init` is
-- not refused for its size.
pub max_size_in_bytes :
    (fresh : ℕ → Option (List ℕ)) (bm : Bitmap) (max n : ℕ)
    → IsAllocator fresh
    → 0 < n
    → n + 7 ≤ int_max
    → let bm' = (set_max_size bm max).1 in
      ((max + 7 < n * 8)
        × (init fresh bm' (pos n) ≡ done (bad_param, bm'))
        × (set_bit fresh bm' (pos n) ≡ done (bad_param, bm')))
      ⊎ ((n * 8 ≤ max + 7) × Returns (init fresh bm' (pos n)) (λ r. ¬ (r.0 ≡ bad_param)))
unfolding set_max_size set_bit init
max_size_in_bytes fresh bm max n alloc positive fits = elim (dec_lt (max + 7) (n * 8)) [
  | yes p ↦ inl (p, ground arith, ground arith)
  | no p ↦
      let (r, ran, outcome) = init-IsValid fresh (set_max_size bm max).1 n alloc fits in
      inr (
        omega arith,
        (
          r,
          ran,
          λ refused. elim outcome [
            | inl (_, _, why) ↦ elim why [
              | inl z ↦ absurd (omega arith)
              | inr above ↦ absurd (ground arith)
            ]
            | inr other ↦ elim other [
              | inl (e, _) ↦ apart (sym e ∙ refused)
              | inr (e, _, _, _, _) ↦ other_apart (sym e ∙ refused)
            ]
          ],
        ),
      )
]
  where
    apart : out_of_resource ≡ bad_param → ⊥
    apart e = cc

    other_apart : success ≡ bad_param → ⊥
    other_apart e = cc
