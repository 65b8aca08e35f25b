-- ===== src/Argv/Join.antt =====
-- `ocoms_argv_join` and `ocoms_argv_join_range` on well-formed arrays, with an allocator that serves
-- every request.
use mathlib.Core.List.{map}
use libocoms.Prelude.{
  ℕ, zero, suc, ◌+◌, ◌-◌, ◌≤◌, ◌<◌, ◌≡◌, refl, sym, ap, ap₂, ◌∙◌, ◌⊎◌, inl, inr, none, some, List,
  [], ◌∷◌, ◌++◌, length, take, drop, done, fault, out_of_range, arith, length-append, length-drop,
  take_all, take-append-drop,
}
use libocoms.Argv.{Str, Argv, Memory, count}
use libocoms.Argv.Text.{total_len, fill, join_slots, join, join_range}
use libocoms.Argv.Delete.{drop_beyond}
use libocoms.Argv.Blocks.{block, Plenty, length-strings, count_slots-block, block-append}

-- The text of strings with a delimiter between each two.
unfoldable pub joined : ℕ → Str → List Str → Str
joined delim s [] = s
joined delim s (t ∷ ss) = s ++ (delim ∷ joined delim t ss)

-- The bytes that the strings take with one more for each.
measure : List Str → ℕ
measure [] = 0
measure (s ∷ ss) = length s + 1 + measure ss

measure-joined :
    (delim : ℕ) (s : Str) (ss : List Str) → suc (length (joined delim s ss)) ≡ measure (s ∷ ss)
unfolding joined measure
measure-joined delim s [] = omega arith
measure-joined delim s (t ∷ ss) =
    omega (arith, length-append s (delim ∷ joined delim t ss), measure-joined delim t ss)

total_len-block :
    (ss : List Str) (rest : Argv) (left : ℕ)
    → total_len (block ss rest) left ≡ done (measure (take left ss))
unfolding total_len measure
total_len-block ss rest zero = refl
total_len-block [] rest (suc left) = refl
total_len-block (s ∷ ss) rest (suc left) = rw (total_len-block ss rest left) refl

-- The loop that fills in the text stops with the last string, whatever follows it.
fill-joined :
    (delim left : ℕ) (s : Str) (ss : List Str) (more : Argv)
    → left ≡ length (joined delim s ss)
    → fill delim left (some s) (map some ss ++ more) ≡ done (joined delim s ss)
unfolding fill joined
fill-joined delim zero [] [] more e = refl
fill-joined delim (suc left) [] [] more e = absurd (omega arith)
fill-joined delim zero [] (t ∷ ss) more e = absurd (omega arith)
fill-joined delim (suc left) [] (t ∷ ss) more e =
    rw (fill-joined delim left t ss more (omega arith)) refl
fill-joined delim zero (c ∷ s) [] more e = absurd (omega arith)
fill-joined delim (suc left) (c ∷ s) [] more e =
    rw (fill-joined delim left s [] more (omega arith)) refl
fill-joined delim zero (c ∷ s) (t ∷ ss) more e = absurd (omega arith)
fill-joined delim (suc left) (c ∷ s) (t ∷ ss) more e =
    rw (fill-joined delim left s (t ∷ ss) more (omega arith)) refl

take-cut :
    (ss : List Str) (rest : Argv) (n : ℕ)
    → block ss rest ≡ map some (take n ss) ++ block (drop n ss) rest
take-cut ss rest n =
    ap (λ us. block us rest) (sym (take-append-drop n ss))
    ∙ block-append (take n ss) (drop n ss) rest

join_slots-block :
    (mem : Memory) (s : Str) (ss : List Str) (rest : Argv) (left delim : ℕ)
    → Plenty mem
    → join_slots mem (block (s ∷ ss) rest) (suc left) delim
      ≡ done (some (joined delim s (take left ss)))
unfolding join_slots
join_slots-block mem s ss rest left delim ok =
    let text = joined delim s (take left ss) in
    let size : measure (take (suc left) (s ∷ ss)) ≡ suc (length text) =
      sym (measure-joined delim s (take left ss)) in
    let filled =
      fill-joined delim (length text) s (take left ss) (block (drop left ss) rest) refl in
    rw
      (
        total_len-block (s ∷ ss) rest (suc left),
        size,
        ok (suc (length text)),
        take-cut ss rest left,
        filled,
      )
      refl

-- `ocoms_argv_join` with memory gives the strings with the delimiter between each two, the empty text
-- for an array of none and for NULL.
pub join-joined :
    (mem : Memory) (s : Str) (ss : List Str) (rest : Argv) (delim : ℕ)
    → Plenty mem
    → (join mem (some (block (s ∷ ss) rest)) delim ≡ done (some (joined delim s ss)))
      × (join mem (some (block [] rest)) delim ≡ done (some []))
      × (join mem none delim ≡ done (some []))
unfolding join
join-joined mem s ss rest delim ok = (
  join_slots-block mem s ss rest (length (block (s ∷ ss) rest)) delim ok
      ∙ ap (λ us. done (some (joined delim s us)))
          (take_all (length (block (s ∷ ss) rest)) ss
            (omega (arith, length-append (map some ss) (none ∷ rest), length-strings ss))),
  rw (ok 1) refl,
  rw (ok 1) refl,
)

drop-block :
    (ss : List Str) (rest : Argv) (n : ℕ)
    → n ≤ length ss
    → drop n (block ss rest) ≡ block (drop n ss) rest
drop-block ss rest zero h = refl
drop-block [] rest (suc n) h = absurd (omega arith)
drop-block (s ∷ ss) rest (suc n) h = drop-block ss rest n (omega arith)

counted-run :
    (mem : Memory) (s : Str) (ss : List Str) (rest : Argv) (start end delim : ℕ)
    → start ≤ suc (length ss)
    → join_range mem (some (block (s ∷ ss) rest)) start end delim
      ≡ join_slots mem (drop start (block (s ∷ ss) rest)) (end - start) delim
unfolding join_range count
counted-run mem s ss rest start end delim h = ground (arith, count_slots-block (s ∷ ss) rest)

take-none : (n : ℕ) → take {A = Str} n [] ≡ []
take-none zero = refl
take-none (suc n) = refl

-- From a position inside the array to an end behind it, `ocoms_argv_join_range` joins the strings of
-- that range, as far as there are any; from a position past the end of the array it gives the empty
-- text.
pub join_range-joined :
    (mem : Memory) (ss : List Str) (rest : Argv) (start end delim : ℕ) (s : Str) (later : List Str)
    → Plenty mem
    → (drop start ss ≡ s ∷ later)
    → start < end
    → join_range mem (some (block ss rest)) start end delim
      ≡ done (some (joined delim s (take (end - start - 1) later)))
join_range-joined mem [] rest start end delim s later ok e h =
    absurd (omega (arith, length-drop {A = Str} start [], ap length e))
join_range-joined mem (t ∷ ss) rest start end delim s later ok e h =
    let inside : start < length (t ∷ ss) = omega (arith, length-drop start (t ∷ ss), ap length e) in
    let at_start : drop start (block (t ∷ ss) rest) ≡ block (s ∷ later) rest =
      drop-block (t ∷ ss) rest start (omega arith) ∙ ap (λ us. block us rest) e in
    let size : end - start ≡ suc (end - start - 1) = omega arith in
    let text = join_slots-block mem s later rest (end - start - 1) delim ok in
    counted-run mem t ss rest start end delim (omega arith)
    ∙ ap₂ (λ us n. join_slots mem us n delim) at_start size
    ∙ text

-- With memory, on an array of at least one string, a range that starts at most at the number of
-- strings and is empty, or that starts just behind the last string, makes `ocoms_argv_join_range`
-- write out of bounds: the length of the text is 0, and 1 is subtracted from it.
pub join_range_empty :
    (mem : Memory) (s : Str) (ss : List Str) (rest : Argv) (start end delim : ℕ)
    → Plenty mem
    → (end ≤ start) ⊎ (start ≡ suc (length ss))
    → start ≤ suc (length ss)
    → join_range mem (some (block (s ∷ ss) rest)) start end delim ≡ fault out_of_range
unfolding join_slots measure
join_range_empty mem s ss rest start end delim ok empty h =
    let no_room : end ≤ start → end - start ≡ 0 = λ b. omega arith in
    let nothing : measure (take (end - start) (drop start (s ∷ ss))) ≡ 0 = elim empty [
      | inl backwards ↦ rw (no_room backwards) refl
      | inr at_end ↦
          ap (λ us. measure (take (end - start) us)) (drop_beyond start (s ∷ ss) (omega arith))
          ∙ ap measure (take-none (end - start))
    ] in
    let none_at_start = total_len-block (drop start (s ∷ ss)) rest (end - start) in
    counted-run mem s ss rest start end delim h
    ∙ ap (λ us. join_slots mem us (end - start) delim) (drop-block (s ∷ ss) rest start h)
    ∙ rw (join_slots, none_at_start, nothing, ok 0) refl
