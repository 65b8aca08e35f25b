-- ===== src/Crc/Tests.antt =====
-- Runs of the checks, and the theorem on copies with a check, on the text "123456789".
use libocoms.Prelude.{ℕ, ◌≡◌, refl, true, false, ◌>>=◌, List, [], ◌∷◌, done, arith}
use libocoms.Crc.{
  uicrc, uicrc_partial, words_loop, word_step, load_word, word_byte, bytes_loop, step,
  bcopy_uicrc_partial, crc_table, table_rounds, crc_initial_register,
}
use libocoms.Crc.Buffers.{AreBytes, no_bytes, one_byte, bcopy_uicrc_partial-uicrc_partial}

abbrev digits : List ℕ
digits = 49 ∷ 50 ∷ 51 ∷ 52 ∷ 53 ∷ 54 ∷ 55 ∷ 56 ∷ 57 ∷ []

-- the check value of this polynomial and initial register
uicrc-digits :
    (uicrc true true digits 9 ≡ done 0x0376_e6e7) × (uicrc false true digits 9 ≡ done 0x0376_e6e7)
unfolding uicrc uicrc_partial words_loop word_step load_word word_byte bytes_loop step crc_table
    table_rounds
uicrc-digits = (refl, refl)

digits-AreBytes : AreBytes digits
digits-AreBytes = one_byte (omega arith) (
    one_byte (omega arith) (
      one_byte (omega arith) (
        one_byte (omega arith) (
          one_byte (omega arith) (
            one_byte (omega arith) (
              one_byte (omega arith)
                (one_byte (omega arith) (one_byte (omega arith) no_bytes))))))))

-- Seven of the nine digits are copied onto others, and all are checked.
bcopy_uicrc_partial-uicrc_partial_example :
    bcopy_uicrc_partial true true digits digits 7 9 crc_initial_register
    ≡ (uicrc_partial true false digits 9 crc_initial_register >>= λ crc. done (crc, digits))
bcopy_uicrc_partial-uicrc_partial_example =
    bcopy_uicrc_partial-uicrc_partial true true false digits digits 7 9 crc_initial_register
      digits-AreBytes (omega arith) (omega arith) (omega arith)
