-- ===== src/Bitmap/SetBit.antt =====
-- `ocoms_bitmap_set_bit` on a valid bitmap, with the growth that it makes room by.
use native.Mathlib.Decide.{dec_lt}
use libocoms.Prelude.{
  ℕ, ◌+◌, ◌-◌, ◌*◌, ◌/◌, ◌%◌, ◌≤◌, ◌<◌, ◌≡◌, refl, true, ◌⊎◌, inl, inr, Option, none, some, List,
  ◌++◌, length, take, drop, replicate, length-append, length-replicate, Exec, done, fault,
  null_pointer, Returns, arith, Option-cases,
}
use libocoms.Prelude.Int.{pos, negsuc}
use libocoms.Bitmap.{Bitmap, int_max, realloc, larger, expand, with_bit, set_bit}
use libocoms.Bitmap.View.{
  contents, bit_at, IsValid, IsAllocator, byte-append_zeros, memset_grown, larger_lem,
}
use libocoms.Status.{success, out_of_resource, bad_param}
use libocoms.Bitmap.Bit.{Differs, update_byte_lem, with_bit-Differs}

-- `bm'` is `bm`, grown so that it has the byte at `index`.
pub record Expanded (bm : Bitmap) (index : ℕ) (bm' : Bitmap) : Type 0 where
  pub valid : IsValid bm'
  pub inside : index < bm'.array_size
  pub same : (k : ℕ) → bit_at bm' k ≡ bit_at bm k

realloc-some :
    (fresh : ℕ → Option (List ℕ)) (old : Option (List ℕ)) (xs junk : List ℕ) (n : ℕ)
    → elim old as (λ _. Exec (List ℕ)) [ none ↦ fault null_pointer | some ys ↦ done ys ] ≡ done xs
    → fresh n ≡ some junk
    → realloc fresh old n ≡ some (take n xs ++ drop (length xs) junk)
unfolding realloc
realloc-some fresh none xs junk n e got = cc
realloc-some fresh (some ys) xs junk n e got = ground (arith, got, e)

grown : Bitmap → ℕ → Bitmap
grown bm n = record bm {
  bitmap = some (contents bm ++ replicate (n - bm.array_size) 0);
  array_size = n;
}

grown-Expanded :
    (bm : Bitmap) (index n : ℕ)
    → IsValid bm
    → bm.array_size ≤ index
    → index < n
    → n * 8 ≤ int_max
    → Expanded bm index (grown bm n)
unfolding grown
grown-Expanded bm index n v out big small =
    let xs = contents bm in
    record {
      valid = record {
        stored = refl;
        measured = omega (
          arith,
          v.measured,
          length-append xs (replicate (n - bm.array_size) 0),
          length-replicate {A = ℕ} (n - bm.array_size) 0,
        );
        in_byte = λ i. rw (byte-append_zeros xs (n - bm.array_size) i) (v.in_byte i);
        nonempty = omega arith;
        in_int = small;
      };
      inside = big;
      same = λ k. rw (byte-append_zeros xs (n - bm.array_size) (k / 8));
    }

expand_refused :
    (fresh : ℕ → Option (List ℕ)) (bm : Bitmap) (index n : ℕ)
    → larger index bm.array_size ≡ done n
    → fresh n ≡ none
    → expand fresh bm index ≡ done (out_of_resource, record bm { bitmap = none })
unfolding expand realloc
expand_refused fresh bm index n run refused = ground (arith, run, refused)

expand-grown :
    (fresh : ℕ → Option (List ℕ)) (bm : Bitmap) (index n : ℕ) (junk : List ℕ)
    → IsAllocator fresh
    → IsValid bm
    → larger index bm.array_size ≡ done n
    → fresh n ≡ some junk
    → bm.array_size ≤ n
    → expand fresh bm index ≡ done (success, grown bm n)
unfolding expand grown
expand-grown fresh bm index n junk alloc v run got h =
    let xs = contents bm in
    let block = realloc-some fresh bm.bitmap xs junk n v.stored got in
    let clear = memset_grown xs junk n (alloc n junk got) (rw v.measured h) in
    ground (arith, run, block, rw v.measured at clear)

expand-Expanded :
    (fresh : ℕ → Option (List ℕ)) (bm : Bitmap) (index : ℕ)
    → IsAllocator fresh
    → IsValid bm
    → bm.array_size ≤ index
    → bm.array_size * 8 + index * 8 ≤ int_max
    → Returns (expand fresh bm index) λ r.
      ((r.0 ≡ out_of_resource) × (r.1.bitmap ≡ none)) ⊎ ((r.0 ≡ success) × Expanded bm index r.1)
expand-Expanded fresh bm index alloc v out fits =
    let (n, run, (big, small)) = larger_lem index bm.array_size v.nonempty fits in
    elim (Option-cases (fresh n)) [
      | inl refused ↦ (
        (out_of_resource, record bm { bitmap = none }),
        expand_refused fresh bm index n run refused,
        inl (refl, refl),
      )
      | inr (junk, got) ↦ (
        (success, grown bm n),
        expand-grown fresh bm index n junk alloc v run got (omega arith),
        inr (refl, grown-Expanded bm index n v out big (omega arith)),
      )
    ]

-- On a valid bitmap `ocoms_bitmap_set_bit`, at a position that keeps the sizes within an `int`,
-- accesses nothing out of range. It refuses a position past `max_size`, the bitmap unchanged; or
-- memory runs out while it grows, and the old bits are lost; or it sets the bit at the position and
-- no other, the bitmap being valid again. A negative position is refused.
pub set_bit-Differs :
    (fresh : ℕ → Option (List ℕ)) (bm : Bitmap) (j : ℕ)
    → IsAllocator fresh
    → IsValid bm
    → bm.array_size * 8 + j ≤ int_max
    → Returns (set_bit fresh bm (pos j)) (λ r.
      ((r.0 ≡ bad_param) × (r.1 ≡ bm) × (bm.max_size < j))
      ⊎ ((r.0 ≡ out_of_resource) × (bm.array_size * 8 ≤ j) × (r.1.bitmap ≡ none))
      ⊎ ((r.0 ≡ success) × IsValid r.1 × Differs bm j true r.1))
      × (set_bit fresh bm (negsuc j) ≡ done (bad_param, bm))
unfolding set_bit
set_bit-Differs fresh bm j alloc v fits = (
  elim (dec_lt bm.max_size j) [
    | yes p ↦ ((bad_param, bm), ground arith, inl (refl, refl, p))
    | no p ↦ elim (dec_lt (j / 8) bm.array_size) [
      | yes inside ↦ (
        _,
        ground (arith, update_byte_lem bm (j / 8) (with_bit (j % 8)) v inside),
        (let d = with_bit-Differs bm j v inside in inr (inr (refl, d.0, d.1))),
      )
      | no out ↦
          let ((status, bm'), run, outcome) =
            expand-Expanded fresh bm (j / 8) alloc v (omega arith) (omega arith) in
          elim outcome [
            | inl (e, lost) ↦ ((status, bm'), ground (arith, run), inr (inl (e, omega arith, lost)))
            | inr (e, x) ↦
                let d = with_bit-Differs bm' j x.valid x.inside in
                (
                  _,
                  ground
                      (arith, run, update_byte_lem bm' (j / 8) (with_bit (j % 8)) x.valid x.inside),
                  inr (inr (refl, d.0, λ k. ground (arith, d.1 k, x.same k))),
                )
          ]
    ]
  ],
  refl,
)
