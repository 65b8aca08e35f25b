-- ===== src/Crc/Buffers.antt =====
-- The checks of whole buffers, with and without copying, by bytes and by words (ocoms/util/crc.c).
use Prim.Native.Nat.{max}
use libocoms.Prelude.{
  ℕ, zero, suc, ◌+◌, ◌-◌, ◌≤◌, ◌<◌, ◌≡◌, refl, sym, ap, ◌∙◌, if◌then◌else◌, ltb, Bool, true, false,
  List, [], ◌∷◌, ◌++◌, length, drop, take, done, ◌>>=◌, arith, length-drop,
}
use libocoms.Crc.{
  step, load_word, word_byte, word_step, bytes_loop, words_loop, uicrc_partial, copy_bytes,
  copy_words, bcopy_uicrc_partial,
}

-- The check of a list of bytes.
unfoldable pub check : ℕ → List ℕ → ℕ
check crc [] = crc
check crc (b ∷ xs) = check (step crc b) xs

bytes_loop-check :
    (xs : List ℕ) (n crc : ℕ) → n ≤ length xs → bytes_loop xs n crc ≡ done (check crc (take n xs))
unfolding bytes_loop check
bytes_loop-check xs zero crc h = refl
bytes_loop-check [] (suc n) crc h = absurd (omega arith)
bytes_loop-check (b ∷ xs) (suc n) crc h = bytes_loop-check xs n (step crc b) (omega arith)

-- The bytes of a buffer.
pub data AreBytes : List ℕ → Type 0 where
  no_bytes : AreBytes []
  one_byte : {b : ℕ} {xs : List ℕ} → b < 256 → AreBytes xs → AreBytes (b ∷ xs)

-- The bytes of a word are those it was loaded from.
load_word_lem :
    (little : Bool) (a b c d : ℕ)
    → a < 256
    → b < 256
    → c < 256
    → d < 256
    → let tmp = load_word little a b c d in
      (word_byte little tmp 0 ≡ a)
      × (word_byte little tmp 1 ≡ b)
      × (word_byte little tmp 2 ≡ c)
      × (word_byte little tmp 3 ≡ d)
unfolding load_word word_byte
load_word_lem true a b c d ha hb hc hd = (omega arith, omega arith, omega arith, omega arith)
load_word_lem false a b c d ha hb hc hd = (omega arith, omega arith, omega arith, omega arith)

word_step_lem :
    (little : Bool) (a b c d crc : ℕ)
    → a < 256
    → b < 256
    → c < 256
    → d < 256
    → word_step little 4 (load_word little a b c d) crc ≡ step (step (step (step crc a) b) c) d
unfolding word_step
word_step_lem little a b c d crc ha hb hc hd =
    let (ea, eb, ec, ed) = load_word_lem little a b c d ha hb hc hd in rw (ea, eb, ec, ed) refl

words_loop-check :
    (little : Bool) (xs : List ℕ) (n crc : ℕ)
    → AreBytes xs
    → n ≤ length xs
    → words_loop little xs n crc ≡ done (check crc (take n xs))
unfolding words_loop check
words_loop-check little (a ∷ b ∷ c ∷ d ∷ xs) (suc (suc (suc (suc n)))) crc
      (one_byte ha (one_byte hb (one_byte hc (one_byte hd bytes)))) h =
    rw (word_step_lem little a b c d crc ha hb hc hd)
      (words_loop-check little xs n (step (step (step (step crc a) b) c) d) bytes (omega arith))
words_loop-check little xs n crc bytes h = bytes_loop-check xs n crc h

-- The check of `crclen` bytes of a buffer that has them is that of its bytes one after the other,
-- whether the buffer is aligned, and read by words of either byte order, or not.
pub uicrc_partial-check :
    (little aligned : Bool) (xs : List ℕ) (n crc : ℕ)
    → AreBytes xs
    → n ≤ length xs
    → uicrc_partial little aligned xs n crc ≡ done (check crc (take n xs))
unfolding uicrc_partial
uicrc_partial-check little true xs n crc bytes h = words_loop-check little xs n crc bytes h
uicrc_partial-check little false xs n crc bytes h = bytes_loop-check xs n crc h

check-append : (crc : ℕ) (xs ys : List ℕ) → check crc (xs ++ ys) ≡ check (check crc xs) ys
unfolding check
check-append crc [] ys = refl
check-append crc (b ∷ xs) ys = check-append (step crc b) xs ys

take_add :
    (m n : ℕ) (xs : List ℕ) → m ≤ length xs → take (m + n) xs ≡ take m xs ++ take n (drop m xs)
take_add zero n xs h = let same : 0 + n ≡ n = omega arith in ap (λ k. take k xs) same
take_add (suc m) n [] h = absurd (omega arith)
take_add (suc m) n (x ∷ xs) h =
    let same : suc m + n ≡ suc (m + n) = omega arith in
    ap (λ k. take k (x ∷ xs)) same ∙ ap (◌∷◌ x) (take_add m n xs (omega arith))

copy_bytes-check :
    (src dst : List ℕ) (n crc : ℕ)
    → n ≤ length src
    → n ≤ length dst
    → copy_bytes src dst n crc ≡ done (check crc (take n src), take n src ++ drop n dst)
unfolding copy_bytes check
copy_bytes-check src dst zero crc h k = refl
copy_bytes-check [] dst (suc n) crc h k = absurd (omega arith)
copy_bytes-check (b ∷ src) [] (suc n) crc h k = absurd (omega arith)
copy_bytes-check (b ∷ src) (d ∷ dst) (suc n) crc h k =
    rw (copy_bytes-check src dst n (step crc b) (omega arith) (omega arith)) refl

copy_words-check :
    (little : Bool) (src dst : List ℕ) (n crc : ℕ)
    → AreBytes src
    → n ≤ length src
    → n ≤ length dst
    → copy_words little src dst n crc ≡ done (check crc (take n src), take n src ++ drop n dst)
unfolding copy_words check
copy_words-check little (a ∷ b ∷ c ∷ d ∷ src) (a' ∷ b' ∷ c' ∷ d' ∷ dst) (suc (suc (suc (suc n))))
      crc (one_byte ha (one_byte hb (one_byte hc (one_byte hd bytes)))) h k =
    let (ea, eb, ec, ed) = load_word_lem little a b c d ha hb hc hd in
    let rest =
      copy_words-check little src dst n (step (step (step (step crc a) b) c) d) bytes (omega arith)
        (omega arith) in
    rw (word_step_lem little a b c d crc ha hb hc hd, rest, ea, eb, ec, ed) refl
copy_words-check little src dst n crc bytes h k = copy_bytes-check src dst n crc h k

-- `ocoms_bcopy_uicrc_partial` of buffers that are long enough copies the bytes and leaves the rest of
-- the destination; the check is that of the copied bytes and of those behind them up to `crclen`,
-- whether the buffers are aligned or not.
pub bcopy_uicrc_partial-check :
    (little aligned : Bool) (src dst : List ℕ) (copylen crclen crc : ℕ)
    → AreBytes src
    → copylen ≤ length src
    → copylen ≤ length dst
    → crclen ≤ length src
    → bcopy_uicrc_partial little aligned src dst copylen crclen crc
      ≡ done (
        check crc (take (copylen + (crclen - copylen)) src),
        take copylen src ++ drop copylen dst,
      )
unfolding bcopy_uicrc_partial
bcopy_uicrc_partial-check little aligned src dst copylen crclen crc bytes h k l =
    let residue : (if ltb copylen crclen then crclen - copylen else 0) ≡ crclen - copylen =
      ground arith in
    let behind =
      bytes_loop-check (drop copylen src) (crclen - copylen) (check crc (take copylen src))
        (omega (arith, length-drop copylen src)) in
    let whole = check-append crc (take copylen src) (take (crclen - copylen) (drop copylen src)) in
    rw (residue, copied aligned, behind, take_add copylen (crclen - copylen) src h, whole) refl
  where
    copied :
        (aligned : Bool)
        → (if aligned
            then copy_words little src dst copylen crc
            else copy_bytes src dst copylen crc)
          ≡ done (check crc (take copylen src), take copylen src ++ drop copylen dst)
    copied true = copy_words-check little src dst copylen crc bytes h k
    copied false = copy_bytes-check src dst copylen crc h k

-- `ocoms_bcopy_uicrc_partial` of bytes in buffers that are long enough writes them to the destination,
-- of which it leaves the rest, and gives the check that `ocoms_uicrc_partial` gives of `copylen` or
-- `crclen` bytes of the source, whichever is more, whatever is aligned and whatever the byte order.
pub bcopy_uicrc_partial-uicrc_partial :
    (little aligned aligned' : Bool) (src dst : List ℕ) (copylen crclen crc : ℕ)
    → AreBytes src
    → copylen ≤ length src
    → copylen ≤ length dst
    → crclen ≤ length src
    → bcopy_uicrc_partial little aligned src dst copylen crclen crc ≡ (
        uicrc_partial little aligned' src (max copylen crclen) crc >>= λ crc'.
        done (crc', take copylen src ++ drop copylen dst))
bcopy_uicrc_partial-uicrc_partial little aligned aligned' src dst copylen crclen crc bytes h k l =
    let both : copylen + (crclen - copylen) ≡ max copylen crclen = omega arith in
    rw
      (
        bcopy_uicrc_partial-check little aligned src dst copylen crclen crc bytes h k l,
        uicrc_partial-check little aligned' src (max copylen crclen) crc bytes (omega arith),
        both,
      )
      refl

pub drop-AreBytes : (n : ℕ) {xs : List ℕ} → AreBytes xs → AreBytes (drop n xs)
drop-AreBytes zero bytes = bytes
drop-AreBytes (suc n) no_bytes = no_bytes
drop-AreBytes (suc n) (one_byte h bytes) = drop-AreBytes n bytes

-- A buffer checked in two parts, the second from where the first ended, has the check of the whole.
pub uicrc_partial-split :
    (little aligned first second : Bool) (xs : List ℕ) (m n crc : ℕ)
    → AreBytes xs
    → m + n ≤ length xs
    → (uicrc_partial little first xs m crc >>= λ partial.
        uicrc_partial little second (drop m xs) n partial)
      ≡ uicrc_partial little aligned xs (m + n) crc
uicrc_partial-split little aligned first second xs m n crc bytes h =
    rw
      (
        uicrc_partial-check little first xs m crc bytes (omega arith),
        uicrc_partial-check little second (drop m xs) n (check crc (take m xs))
            (drop-AreBytes m bytes) (omega (arith, length-drop m xs)),
        uicrc_partial-check little aligned xs (m + n) crc bytes h,
        take_add m n xs (omega arith),
      )
      (ap done (sym (check-append crc (take m xs) (take n (drop m xs)))))
