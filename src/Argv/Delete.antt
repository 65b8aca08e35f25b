-- ===== src/Argv/Delete.antt =====
-- `ocoms_argv_delete` on well-formed arrays.
use mathlib.Core.List.{map, append-nil, append_assoc}
use mathlib.Core.Path.{subst}
use Prim.Native.Nat.{min}
use native.Mathlib.Decide.{dec_lt}
use libocoms.Prelude.{
  int, fault, overflow, false, ℕ, zero, suc, ◌+◌, ◌-◌, ◌*◌, ◌≤◌, ◌<◌, ◌≡◌, refl, sym, ap, ◌∙◌,
  Option, none, some, List, [], ◌∷◌, ◌++◌, length, take, drop, done, store, arith, length-append,
  ◌>>=◌, Bool-cases, ◌⊎◌, inl, inr, ap₂, if◌then◌else◌, ltb, Returns, length-take, length-drop,
  take-append-drop, take_all,
}
use libocoms.Prelude.Int.{ℤ, pos, pos_part, neg_part, ◌-ℤ◌}
use libocoms.Argv.{Str, Argv, Memory, realloc}
use libocoms.Argv.Edit.{int_ℤ, shift_down, delete_range, delete}
use libocoms.Argv.Blocks.{
  block, Holds, points, store-middle, take-append_left, length-strings, count_slots-block,
  block-append,
}
use libocoms.Argv.Moves.{shift_down-pieces}
use libocoms.Status.{Status, success}

-- Giving back what follows a NULL keeps the NULL and the strings before it, whether `realloc` works
-- or not.
cut-block :
    (mem : Memory) (pre rest : Argv) (n : ℕ)
    → n ≡ length pre + 1
    → (tail : Argv) × (elim (realloc mem (pre ++ (none ∷ rest)) n) [
      | none ↦ pre ++ (none ∷ rest)
      | some ws ↦ ws
    ]
        ≡ pre ++ (none ∷ tail))
unfolding realloc
cut-block mem pre rest n e =
    let kept = take-append_left pre (none ∷ rest) n 1 e in
    let size = length-append pre (none ∷ rest) in
    let full : n - length (pre ++ (none ∷ rest)) ≡ 0 = omega (arith, size) in
    elim (Bool-cases (mem.serves (n * 8))) [
      | inl e' ↦ ([], rw (e', kept, full) (append-nil (pre ++ none ∷ [])))
      | inr e' ↦ (rest, rw e' refl)
    ]

-- Writing the NULL behind `pre` and giving back what follows it.
end-block :
    (mem : Memory) (pre : Argv) (y : Option Str) (ys : Argv) (i : ℕ)
    → i ≡ length pre
    → (tail : Argv) × ((store (pre ++ (y ∷ ys)) i none >>= λ zs.
          done (elim (realloc mem zs (i + 1)) [ none ↦ zs | some ws ↦ ws ]))
        ≡ done (pre ++ (none ∷ tail)))
end-block mem pre y ys i e =
    let (tail, same) = cut-block mem pre ys (i + 1) (omega arith) in
    (tail, rw (store-middle pre ys y none i e) (ap done same))

shift_down-none : (xs : Argv) (by left i : ℕ) → left ≡ 0 → shift_down xs by left i ≡ done xs
unfolding shift_down
shift_down-none xs by left i e = rw e refl

int_fits : (n : ℕ) → n < 0x8000_0000 → int n ≡ done n
int_fits n h = ground (arith, h)

-- Deleting the strings of `gap`, or all from its start on if there are fewer than asked for.
delete_range-pieces :
    (mem : Memory) (pre gap suf rest : Argv) (n start num : ℕ)
    → start ≡ length pre
    → 0 < num
    → n ≡ length pre + length gap + length suf
    → (num ≡ length gap) ⊎ ((suf ≡ []) × (length gap < num))
    → start + num < 0x8000_0000
    → (tail : Argv) × (delete_range mem (pre ++ (gap ++ (suf ++ (none ∷ rest)))) n start num
        ≡ done (pre ++ (suf ++ (none ∷ tail))))
unfolding delete_range
delete_range-pieces mem pre gap suf rest n start num es b en (inl eg) fits =
    go (shift_down-pieces pre gap suf (none ∷ rest) start num left es eg (omega arith) b)
  where
    left : ℕ
    left = n - (start + num)

    go :
        (gap' : Argv) × (shift_down (pre ++ (gap ++ (suf ++ (none ∷ rest)))) num left start
            ≡ done (pre ++ (suf ++ (gap' ++ (none ∷ rest)))))
          × (length gap' ≡ num)
        → (tail : Argv) × (delete_range mem (pre ++ (gap ++ (suf ++ (none ∷ rest)))) n start num
            ≡ done (pre ++ (suf ++ (none ∷ tail))))
    go ([], moved, size) = absurd (omega arith)
    go (y ∷ gap', moved, size) =
        let (tail, ended) =
          end-block mem (pre ++ suf) y (gap' ++ (none ∷ rest)) (start + left)
            (omega (arith, length-append pre suf)) in
        (tail, rw (int_fits (start + num) fits, moved) (simp append_assoc at ended))
delete_range-pieces mem pre gap [] rest n start num es b en (inr (none_left, few)) fits =
    cut (gap ++ (none ∷ rest)) (λ e. nonempty gap e)
  where
    left : ℕ
    left = n - (start + num)

    nonempty : (g : Argv) → g ++ (none ∷ rest) ≡ [] → ⊥
    nonempty [] e = cc
    nonempty (x ∷ g) e = cc

    cut :
        (ys : Argv)
        → (ys ≡ [] → ⊥)
        → (tail : Argv) × (delete_range mem (pre ++ ys) n start num ≡ done (pre ++ (none ∷ tail)))
    cut [] ne = absurd (ne refl)
    cut (y ∷ ys) ne =
        let (tail, ended) = end-block mem pre y ys (start + left) (omega arith) in
        (
          tail,
          rw
              (
                int_fits (start + num) fits,
                shift_down-none (pre ++ (y ∷ ys)) num left start (omega arith),
              )
              ended,
        )
delete_range-pieces mem pre gap (s ∷ suf) rest n start num es b en (inr (none_left, few)) fits =
    absurd (nonempty none_left)
  where
    nonempty : s ∷ suf ≡ [] → ⊥
    nonempty e = cc

drop-none : (n : ℕ) → drop {A = Str} n [] ≡ []
drop-none zero = refl
drop-none (suc n) = refl

pub drop-drop : (m n : ℕ) (ss : List Str) → drop n (drop m ss) ≡ drop (m + n) ss
drop-drop zero n ss = ap (λ k. drop k ss) (omega arith)
drop-drop (suc m) n [] = drop-none n ∙ sym (drop-none (suc m + n))
drop-drop (suc m) n (s ∷ ss) =
    let same : suc (m + n) ≡ suc m + n = omega arith in
    drop-drop m n ss ∙ ap (λ k. drop k (s ∷ ss)) same

pub drop_beyond : (n : ℕ) (ss : List Str) → length ss ≤ n → drop n ss ≡ []
drop_beyond n [] h = drop-none n
drop_beyond zero (s ∷ ss) h = absurd (omega arith)
drop_beyond (suc n) (s ∷ ss) h = drop_beyond n ss (omega arith)

-- The block of `ss`, cut before and behind the strings that go.
block-cut :
    (ss : List Str) (rest : Argv) (m n : ℕ)
    → block ss rest
      ≡ map some (take m ss)
        ++ (map some (take n (drop m ss)) ++ (map some (drop (m + n) ss) ++ (none ∷ rest)))
block-cut ss rest m n =
    let a = take m ss in
    let b = take n (drop m ss) in
    let c = drop n (drop m ss) in
    let whole = take-append-drop m ss in
    let inner = take-append-drop n (drop m ss) in
    (ap (λ us. block us rest) (sym whole ∙ ap (λ us. a ++ us) (sym inner))
      ∙ block-append a (b ++ c) rest
      ∙ ap (λ us. map some a ++ us) (block-append b c rest)
      ∙ ap (λ us. map some a ++ (map some b ++ block us rest)) (drop-drop m n ss))

delete_range-block :
    (mem : Memory) (ss : List Str) (rest : Argv) (start k : ℕ)
    → start ≤ length ss
    → start + suc k < 0x8000_0000
    → (tail : Argv) × (delete_range mem (block ss rest) (length ss) start (suc k)
        ≡ done (block (take start ss ++ drop (start + suc k) ss) tail))
delete_range-block mem ss rest start k within fits =
    let (tail, cut) =
      delete_range-pieces mem (map some a) (map some b) (map some c) rest (length ss) start (suc k)
        (omega (arith, sizes)) (omega arith) (omega (arith, sizes)) deleted fits in
    (tail, rw (block-cut ss rest start (suc k)) (cut ∙ ap done (sym (block-append a c tail))))
  where
    a : List Str
    a = take start ss

    b : List Str
    b = take (suc k) (drop start ss)

    c : List Str
    c = drop (start + suc k) ss

    sizes :
        (length (map {B = Option Str} some a) ≡ start)
        × (length (map {B = Option Str} some c) ≡ length ss - (start + suc k))
        × (length (map {B = Option Str} some b) ≡ min (suc k) (length ss - start))
    sizes = (
      omega (arith, length-strings a, length-take start ss),
      omega (arith, length-strings c, length-drop (start + suc k) ss),
      omega (arith, length-strings b, length-take (suc k) (drop start ss), length-drop start ss),
    )

    deleted :
        (suc k ≡ length (map {B = Option Str} some b))
        ⊎ ((map {B = Option Str} some c ≡ []) × (length (map {B = Option Str} some b) < suc k))
    deleted = elim (dec_lt (length ss) (start + suc k)) [
      | yes few ↦
          inr (ap (map some) (drop_beyond (start + suc k) ss (omega arith)), omega (arith, sizes.2))
      | no enough ↦ inl (omega (arith, sizes.2))
    ]

-- What a call of `ocoms_argv_delete` leaves, of `num` strings from `start` on.
abbrev pub Deleted : (argc : ℤ) (ss : List Str) (start num : ℕ) → Status × ℤ × Option Argv → Type 0
Deleted argc ss start num (status, argc', argv) =
    (status ≡ success)
    × (argc' ≡ (if ltb (length ss) start then argc else argc -ℤ pos num))
    × Holds argv (take start ss ++ drop (start + num) ss)

int_ℤ-sub :
    (argc : ℤ) (num : ℕ)
    → pos_part argc < 0x8000_0000
    → neg_part argc + num ≤ 0x8000_0000
    → int_ℤ (argc -ℤ pos num) ≡ done (argc -ℤ pos num)
int_ℤ-sub argc num h k = ground arith

-- `ocoms_argv_delete` at a position that is not negative, of a number of strings above 0, where
-- `*argc` less that number is an `int`. If the position is inside the array or at its end and the sum of
-- position and number is no `int`, that sum overflows. Otherwise the call succeeds and leaves the
-- strings before and those behind the range, whether `realloc` works or not, and subtracts the number
-- asked for from `*argc`, unless the position is past the end, where it changes nothing.
pub delete-Holds :
    (mem : Memory) (argc : ℤ) (ss : List Str) (rest : Argv) (start k : ℕ)
    → pos_part argc < 0x8000_0000
    → neg_part argc + suc k ≤ 0x8000_0000
    → ((start ≤ length ss)
        × (0x8000_0000 ≤ start + suc k)
        × (delete mem argc (some (block ss rest)) (pos start) (pos (suc k)) ≡ fault overflow))
      ⊎ (((length ss < start) ⊎ (start + suc k < 0x8000_0000))
          × Returns
              (delete mem argc (some (block ss rest)) (pos start) (pos (suc k)))
              (Deleted argc ss start (suc k)))
unfolding delete delete_range
delete-Holds mem argc ss rest start k upper lower = elim (dec_lt (length ss) start) [
  | yes beyond ↦
      let same : take start ss ++ drop (start + suc k) ss ≡ ss =
        ap₂ ◌++◌ (take_all start ss (omega arith)) (drop_beyond (start + suc k) ss (omega arith))
        ∙ append-nil ss in
      inr (
        inl beyond,
        (
          (success, argc, some (block ss rest)),
          ground (arith, count_slots-block ss rest),
          (refl, ground arith, subst (Holds (some (block ss rest))) (sym same) (points ss rest)),
        ),
      )
  | no within ↦ elim (dec_lt (start + suc k) 0x8000_0000) [
    | yes fits ↦
        let (tail, cut) = delete_range-block mem ss rest start k (omega arith) fits in
        let left_over = take start ss ++ drop (start + suc k) ss in
        inr (
          inr fits,
          (
            (success, argc -ℤ pos (suc k), some (block left_over tail)),
            rw
                (
                  count_slots-block ss rest,
                  not_before within,
                  cut,
                  int_ℤ-sub argc (suc k) upper lower,
                )
                refl,
            (refl, ground arith, points left_over tail),
          ),
        )
    | no large ↦ inl (
      omega arith,
      omega arith,
      rw (count_slots-block ss rest, not_before within) (ground (arith, large)),
    )
  ]
]
  where
    not_before : ¬ (length ss < start) → ltb (length ss) start ≡ false
    not_before h = ground arith
