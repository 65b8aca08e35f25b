-- ===== src/Bitmap.antt =====
-- The growable bitmap, ocoms/util/ocoms_bitmap.c. A bitmap is a value here, so the functions' tests
-- for a NULL `bm` have no counterpart. A `bit` or `size` argument is an `int` that may be negative;
-- the fields are `int`s that no operation makes negative.
-- `fresh n` is what `malloc(n)` gives: no memory, or a block of bytes with any content.
pub mod Bits
pub mod View
pub mod Bit
pub mod SetBit
mod Tests
pub mod Limits
pub mod FirstUnset
use Prim.Native.Nat.{bit_and, bit_or}
use libocoms.Prelude.{
  ℕ, zero, suc, ◌+◌, ◌-◌, ◌*◌, ◌/◌, ◌%◌, ◌^◌, ◌==◌, ltb, leb, if◌then◌else◌, Bool, true, false, not,
  ◌||◌, ◌&&◌, Option, none, some, List, [], ◌∷◌, ◌++◌, length, take, drop, replicate, Exec, done,
  fault, null_pointer, division_by_zero, out_of_range, ◌>>=◌, ◌>>◌, int, load, store,
}
use libocoms.Prelude.Int.{ℤ, pos, negsuc}
use libocoms.Status.{Status, success, out_of_resource, bad_param}

-- `struct ocoms_bitmap_t`; `bitmap` is `none` for a NULL pointer
pub record Bitmap : Type 0 where
  pub bitmap : Option (List ℕ)
  pub array_size : ℕ
  pub max_size : ℕ

-- SIZE_OF_CHAR
abbrev pub size_of_char : ℕ
size_of_char = 8

abbrev pub int_max : ℕ
int_max = 0x7fff_ffff

-- `size / SIZE_OF_CHAR`, rounded up
abbrev pub chars : ℕ → ℕ
chars n = n / size_of_char + (if n % size_of_char == 0 then 0 else 1)

unfoldable pub construct : Bitmap
construct = record { bitmap = none; array_size = 0; max_size = int_max }

unfoldable pub set_max_size : Bitmap → ℕ → Status × Bitmap
set_max_size bm max = (success, record bm { max_size = chars max })

-- memset(&xs[at], v, n)
unfoldable pub memset : Option (List ℕ) → (start v n : ℕ) → Exec (List ℕ)
memset none start v n = fault null_pointer
memset (some xs) start v n =
    if leb (start + n) (length xs)
    then done (take start xs ++ replicate n v ++ drop (start + n) xs)
    else fault out_of_range

-- the block after `realloc(old, n)`
unfoldable pub realloc : (ℕ → Option (List ℕ)) → Option (List ℕ) → ℕ → Option (List ℕ)
realloc fresh old n = elim (fresh n) [
  | none ↦ none
  | some junk ↦ elim old [ none ↦ some junk | some xs ↦ some (take n xs ++ drop (length xs) junk) ]
]

unfoldable pub clear_all_bits : Bitmap → Exec (Status × Bitmap)
unfolding memset
clear_all_bits bm =
    memset bm.bitmap 0 0 bm.array_size >>= λ xs. done (success, record bm { bitmap = some xs })

unfoldable pub set_all_bits : Bitmap → Exec (Status × Bitmap)
unfolding memset
set_all_bits bm =
    memset bm.bitmap 0 0xff bm.array_size >>= λ xs. done (success, record bm { bitmap = some xs })

unfoldable pub init : (ℕ → Option (List ℕ)) → Bitmap → ℤ → Exec (Status × Bitmap)
unfolding clear_all_bits
init fresh bm (negsuc n) = done (bad_param, bm)
init fresh bm (pos n) =
    let bm' = record bm { array_size = chars n; bitmap = fresh (chars n) } in
    if n == 0 || ltb bm.max_size n
    then done (bad_param, bm)
    else elim (fresh (chars n)) [ none ↦ done (out_of_resource, bm') | some _ ↦ clear_all_bits bm' ]

-- the new size of the array, a multiple of the old one
pub larger : (index array_size : ℕ) → Exec ℕ
larger index zero = fault division_by_zero
larger index (suc n) = int ((index / suc n + 1) * suc n)

-- the reallocation in `ocoms_bitmap_set_bit`
unfoldable pub expand : (ℕ → Option (List ℕ)) → Bitmap → ℕ → Exec (Status × Bitmap)
expand fresh bm index = do
  new_size ← larger index bm.array_size
  elim (realloc fresh bm.bitmap new_size) [
    | none ↦ done (out_of_resource, record bm { bitmap = none })
    | some xs ↦ memset (some xs) bm.array_size 0 (new_size - bm.array_size) >>= λ ys.
        done (success, record bm { bitmap = some ys; array_size = new_size })
  ]

abbrev pub bytes : Bitmap → Exec (List ℕ)
bytes bm = elim bm.bitmap [ none ↦ fault null_pointer | some xs ↦ done xs ]

-- bitmap[index] = f(bitmap[index])
unfoldable pub update_byte : Bitmap → ℕ → (ℕ → ℕ) → Exec (Status × Bitmap)
update_byte bm index f = do
  xs ← bytes bm
  b ← load xs index
  ys ← store xs index (f b)
  done (success, record bm { bitmap = some ys })

-- b | (1 << offset), b & ~(1 << offset) and b & (1 << offset), of an `unsigned char`
unfoldable pub with_bit : ℕ → ℕ → ℕ
with_bit offset b = bit_or b (2 ^ offset)

unfoldable pub without_bit : ℕ → ℕ → ℕ
without_bit offset b = bit_and b (255 - 2 ^ offset)

unfoldable pub has_bit : ℕ → ℕ → Bool
has_bit offset b = not (bit_and b (2 ^ offset) == 0)

unfoldable pub set_bit : (ℕ → Option (List ℕ)) → Bitmap → ℤ → Exec (Status × Bitmap)
set_bit fresh bm (negsuc n) = done (bad_param, bm)
set_bit fresh bm (pos bit) =
    let index = bit / size_of_char in
    let room = if leb bm.array_size index then expand fresh bm index else done (success, bm) in
    if ltb bm.max_size bit
    then done (bad_param, bm)
    else room >>= (λ r. elim r.0 [
      | success ↦ update_byte r.1 index (with_bit (bit % size_of_char))
      | _ ↦ done r
    ])

-- `bit >= (bm->array_size * SIZE_OF_CHAR)`, then the test on the index
pub is_outside : Bitmap → ℕ → Exec Bool
is_outside bm bit = int (bm.array_size * size_of_char) >>= λ n.
    done (leb n bit || leb bm.array_size (bit / size_of_char))

unfoldable pub clear_bit : Bitmap → ℤ → Exec (Status × Bitmap)
clear_bit bm (negsuc n) = done (bad_param, bm)
clear_bit bm (pos bit) = is_outside bm bit >>= λ out.
    if out
    then done (bad_param, bm)
    else update_byte bm (bit / size_of_char) (without_bit (bit % size_of_char))

unfoldable pub is_set_bit : Bitmap → ℤ → Exec Bool
is_set_bit bm (negsuc n) = done false
is_set_bit bm (pos bit) = is_outside bm bit >>= λ out.
    if out
    then done false
    else bytes bm >>= λ xs.
        load xs (bit / size_of_char) >>= λ b. done (has_bit (bit % size_of_char) b)

-- while ((i < array_size) && (bitmap[i] == all_ones)) ++i, with `left` indices to go
pub skip_ones : List ℕ → (left i : ℕ) → Exec ℕ
skip_ones xs zero i = done i
skip_ones xs (suc left) i = elim (load xs i) [
  | fault e ↦ fault e
  | done b ↦ elim (b == 0xff) [ true ↦ skip_ones xs left (i + 1) | false ↦ done i ]
]

-- while (temp & 0x1) { ++position; temp >>= 1; }, on fuel: an `unsigned char` ends it in 9 rounds
pub count_ones : (fuel temp position : ℕ) → Exec ℕ
count_ones zero temp p = fault out_of_range
count_ones (suc fuel) temp p = elim (temp % 2 == 1) [
  | true ↦ count_ones fuel (temp / 2) (p + 1)
  | false ↦ done p
]

-- b |= b + 1, of an `unsigned char`
unfoldable pub fill_lowest : ℕ → ℕ
fill_lowest b = bit_or b (b + 1) % 256

-- the status, the position that is stored through the pointer, and the bitmap
unfoldable pub find_and_set_first_unset_bit :
    (ℕ → Option (List ℕ)) → Bitmap → Exec (Status × ℕ × Bitmap)
find_and_set_first_unset_bit fresh bm = do
  xs ← if bm.array_size == 0 then done [] else bytes bm
  i ← skip_ones xs bm.array_size 0
  if i == bm.array_size
      then (do
        position ← int (bm.array_size * size_of_char)
        (status, bm') ← set_bit fresh bm (pos position)
        done (status, position, bm'))
      else (do
        b ← load xs i
        ones ← count_ones 9 b 0
        (status, bm') ← update_byte bm i fill_lowest
        done (status, ones + i * size_of_char, bm'))

unfoldable pub size : Bitmap → Exec ℕ
size bm = int (bm.array_size * size_of_char)

-- The result of `malloc` is not tested: without memory `memcpy` writes through NULL.
unfoldable pub copy : (ℕ → Option (List ℕ)) → (dest src : Bitmap) → Exec Bitmap
copy fresh dest src = elim (fresh src.array_size) [
  | none ↦
      if src.array_size == 0
      then done (record dest { bitmap = none; array_size = 0 })
      else fault null_pointer
  | some junk ↦ bytes src >>= λ xs.
      if leb src.array_size (length xs)
      then done (record dest {
        bitmap = some (take src.array_size xs ++ drop src.array_size junk);
        array_size = src.array_size;
      })
      else fault out_of_range
]
