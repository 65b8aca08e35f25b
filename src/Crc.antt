-- ===== src/Crc.antt =====
-- The cyclic redundancy checks of ocoms/util/crc.{c,h}: the table, and the functions that read a buffer
-- as words where it is aligned and as bytes otherwise. A buffer is the list of its bytes, an
-- `unsigned int` has 32 bits, and the table, filled before its first use, is the function that fills it.
pub mod Buffers
pub mod Tests
use Prim.Native.Nat.{bit_xor}
use libocoms.Prelude.{
  ℕ, zero, suc, ◌+◌, ◌-◌, ◌*◌, ◌/◌, ◌%◌, ◌^◌, ltb, if◌then◌else◌, Bool, true, false, ◌&&◌, List, [],
  ◌∷◌, drop, Exec, done, fault, out_of_range, ◌>>=◌,
}

-- CRC_POLYNOMIAL, CRC_INITIAL_REGISTER
abbrev pub crc_polynomial : ℕ
crc_polynomial = 0x04c1_1db7

abbrev pub crc_initial_register : ℕ
crc_initial_register = 0xffff_ffff

-- the inner loop of `ocoms_initialize_crc_table`, with `left` rounds to go
unfoldable pub table_rounds : (left accum : ℕ) → ℕ
table_rounds zero accum = accum
table_rounds (suc left) accum =
    let shifted = accum * 2 % 2 ^ 32 in
    table_rounds left (if ltb accum 0x8000_0000 then shifted else bit_xor shifted crc_polynomial)

-- `_ocoms_crc_table[i]`
unfoldable pub crc_table : ℕ → ℕ
crc_table i = table_rounds 8 (i * 2 ^ 24 % 2 ^ 32)

-- i = ((crc >> 24) ^ byte) & 0xff; crc = (crc << 8) ^ table[i]
unfoldable pub step : (crc byte : ℕ) → ℕ
step crc byte = bit_xor (crc * 2 ^ 8 % 2 ^ 32) (crc_table (bit_xor (crc / 2 ^ 24) byte % 256))

-- while (crclen--) over single bytes
unfoldable pub bytes_loop : List ℕ → (crclen crc : ℕ) → Exec ℕ
bytes_loop xs zero crc = done crc
bytes_loop [] (suc n) crc = fault out_of_range
bytes_loop (b ∷ xs) (suc n) crc = bytes_loop xs n (step crc b)

-- tmp = *src++, from its four bytes in memory; `little` is the byte order of the machine
unfoldable pub load_word : (little : Bool) → (a b c d : ℕ) → ℕ
load_word little a b c d =
    if little then a + 256 * (b + 256 * (c + 256 * d)) else d + 256 * (c + 256 * (b + 256 * a))

-- the byte `j` of ((unsigned char *)&tmp)
unfoldable pub word_byte : (little : Bool) → (tmp j : ℕ) → ℕ
word_byte little tmp j = tmp / 256 ^ (if little then j else 3 - j) % 256

-- the loop over the bytes of `tmp`, with `left` of them to go
unfoldable pub word_step : (little : Bool) → (left tmp crc : ℕ) → ℕ
word_step little zero tmp crc = crc
word_step little (suc left) tmp crc =
    word_step little left tmp (step crc (word_byte little tmp (3 - left)))

-- while (crclen >= sizeof(unsigned int)) by words, then the bytes that are left
unfoldable pub words_loop : (little : Bool) → List ℕ → (crclen crc : ℕ) → Exec ℕ
words_loop little (a ∷ b ∷ c ∷ d ∷ xs) (suc (suc (suc (suc n)))) crc =
    words_loop little xs n (word_step little 4 (load_word little a b c d) crc)
words_loop little xs n crc = bytes_loop xs n crc

-- `aligned` is INTALIGNED(source).
unfoldable pub uicrc_partial : (little aligned : Bool) → List ℕ → (crclen partial_crc : ℕ) → Exec ℕ
uicrc_partial little aligned xs crclen crc =
    if aligned then words_loop little xs crclen crc else bytes_loop xs crclen crc

unfoldable pub uicrc : (little aligned : Bool) → List ℕ → ℕ → Exec ℕ
uicrc little aligned xs crclen = uicrc_partial little aligned xs crclen crc_initial_register

-- while (copylen--) over single bytes: the new check and the new destination
unfoldable pub copy_bytes : (src dst : List ℕ) → (copylen crc : ℕ) → Exec (ℕ × List ℕ)
copy_bytes src dst zero crc = done (crc, dst)
copy_bytes [] dst (suc n) crc = fault out_of_range
copy_bytes (b ∷ src) [] (suc n) crc = fault out_of_range
copy_bytes (b ∷ src) (d ∷ dst) (suc n) crc =
    copy_bytes src dst n (step crc b) >>= λ r. done (r.0, b ∷ r.1)

-- the same by whole words: *dst++ = tmp writes the bytes of the word
unfoldable pub copy_words :
    (little : Bool) → (src dst : List ℕ) → (copylen crc : ℕ) → Exec (ℕ × List ℕ)
copy_words little (a ∷ b ∷ c ∷ d ∷ src) (a' ∷ b' ∷ c' ∷ d' ∷ dst) (suc (suc (suc (suc n)))) crc =
    let tmp = load_word little a b c d in
    copy_words little src dst n (word_step little 4 tmp crc) >>= λ r. done (
      r.0,
      word_byte little tmp 0
          ∷ word_byte little tmp 1
          ∷ word_byte little tmp 2
          ∷ word_byte little tmp 3
          ∷ r.1,
    )
copy_words little src dst n crc = copy_bytes src dst n crc

unfoldable pub bcopy_uicrc_partial :
    (little aligned : Bool)
    → (src dst : List ℕ) → (copylen crclen partial_crc : ℕ) → Exec (ℕ × List ℕ)
bcopy_uicrc_partial little aligned src dst copylen crclen crc = do
  let residue = if ltb copylen crclen then crclen - copylen else 0
  copied ← if aligned then copy_words little src dst copylen crc else copy_bytes src dst copylen crc
  crc' ← bytes_loop (drop copylen src) residue copied.0
  done (crc', copied.1)

unfoldable pub bcopy_uicrc :
    (little aligned : Bool) → (src dst : List ℕ) → (copylen crclen : ℕ) → Exec (ℕ × List ℕ)
bcopy_uicrc little aligned src dst copylen crclen =
    bcopy_uicrc_partial little aligned src dst copylen crclen crc_initial_register
