-- ===== src/Bitmap/Tests.antt =====
-- Runs of the bitmap, and its theorems at a bitmap of 16 bits, the first 12 of them set.
use libocoms.Prelude.{
  ℕ, zero, suc, ◌≤◌, ◌<◌, ◌≡◌, ◌⊎◌, refl, true, false, List, [], ◌∷◌, Option, none, some, replicate,
  length-replicate, done, Returns, arith, ◌>>=◌,
}
use libocoms.Prelude.Int.{pos, negsuc}
use libocoms.Bitmap.{
  Bitmap, set_max_size, init, set_bit, is_set_bit, find_and_set_first_unset_bit, expand, realloc,
  larger, update_byte, with_bit, has_bit, is_outside, memset, skip_ones, count_ones, fill_lowest,
}
use libocoms.Bitmap.Bit.{Differs}
use libocoms.Bitmap.FirstUnset.{SetBelow, find_and_set_first_unset_bit_lem}
use libocoms.Bitmap.Limits.{max_size_in_bytes}
use libocoms.Bitmap.SetBit.{set_bit-Differs}
use libocoms.Bitmap.View.{byte, contents, bit_at, IsValid, IsAllocator}
use libocoms.Status.{success, out_of_resource, bad_param}

-- a `malloc` that fills the block with 0xaa
abbrev fresh : ℕ → Option (List ℕ)
fresh n = some (replicate n 0xaa)

fresh-IsAllocator : IsAllocator fresh
fresh-IsAllocator n xs e = ground (arith, length-replicate {A = ℕ} n 0xaa, e)

abbrev twelve : Bitmap
twelve = record { bitmap = some (0xff ∷ 0x0f ∷ []); array_size = 2; max_size = 100 }

twelve_in_byte : (i : ℕ) → byte (contents twelve) i < 256
twelve_in_byte zero = omega arith
twelve_in_byte (suc zero) = omega arith
twelve_in_byte (suc (suc i)) = omega arith

twelve-IsValid : IsValid twelve
twelve-IsValid = record {
  stored = refl;
  measured = refl;
  in_byte = twelve_in_byte;
  nonempty = omega arith;
  in_int = omega arith;
}

grows : set_bit fresh twelve (pos 33) >>= (λ r. is_set_bit r.1 (pos 33)) ≡ done true
unfolding set_bit expand larger realloc memset update_byte with_bit is_set_bit is_outside has_bit
grows = refl

first_unset : find_and_set_first_unset_bit fresh twelve >>= (λ r. done r.1) ≡ done 12
unfolding find_and_set_first_unset_bit skip_ones count_ones update_byte fill_lowest
first_unset = refl

set_bit-Differs_example :
    Returns (set_bit fresh twelve (pos 33)) (λ r.
      ((r.0 ≡ bad_param) × (r.1 ≡ twelve) × (100 < 33))
      ⊎ ((r.0 ≡ out_of_resource) × (16 ≤ 33) × (r.1.bitmap ≡ none))
      ⊎ ((r.0 ≡ success) × IsValid r.1 × Differs twelve 33 true r.1))
    × (set_bit fresh twelve (negsuc 33) ≡ done (bad_param, twelve))
set_bit-Differs_example =
    set_bit-Differs fresh twelve 33 fresh-IsAllocator twelve-IsValid (omega arith)

find_and_set_first_unset_bit_example : Returns (find_and_set_first_unset_bit fresh twelve) λ r.
    let p = r.1 in
    let bm' = r.2 in
    ((r.0 ≡ success)
      × SetBelow twelve p
      × (bit_at twelve p ≡ false)
      × IsValid bm'
      × Differs twelve p true bm')
    ⊎ ((p ≡ 16)
        × SetBelow twelve p
        × (((r.0 ≡ bad_param) × (bm' ≡ twelve) × (100 < p))
            ⊎ ((r.0 ≡ out_of_resource) × (bm'.bitmap ≡ none))))
find_and_set_first_unset_bit_example =
    find_and_set_first_unset_bit_lem fresh twelve fresh-IsAllocator twelve-IsValid (omega arith)

max_size_in_bytes_example :
    let bm' = (set_max_size twelve 64).1 in
    ((71 < 72)
      × (init fresh bm' (pos 9) ≡ done (bad_param, bm'))
      × (set_bit fresh bm' (pos 9) ≡ done (bad_param, bm')))
    ⊎ ((72 ≤ 71) × Returns (init fresh bm' (pos 9)) (λ r. ¬ (r.0 ≡ bad_param)))
max_size_in_bytes_example =
    max_size_in_bytes fresh twelve 64 9 fresh-IsAllocator (omega arith) (omega arith)
