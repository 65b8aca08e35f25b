-- ===== src/Argv/Insert.antt =====
-- `ocoms_argv_insert` and `ocoms_argv_insert_element` on well-formed arrays, with an allocator that
-- serves every request.
use mathlib.Core.List.{map, append-nil, append_assoc}
use mathlib.Core.Path.{subst}
use native.Mathlib.Decide.{dec_lt}
use libocoms.Prelude.{
  ℕ, suc, ◌+◌, ◌-◌, ◌≤◌, ◌≡◌, refl, sym, ap, ap₂, ◌∙◌, Option, none, some, List, [], ◌∷◌, ◌++◌,
  length, take, drop, done, store, arith, length-append, Returns, length-take, length-drop,
  take-append-drop, take_all,
}
use libocoms.Prelude.Int.{pos}
use libocoms.Argv.{Str, Argv, Memory}
use libocoms.Argv.Edit.{shift_up_by, append_all, insert_middle, insert, insert_element}
use libocoms.Argv.Blocks.{
  block, Holds, points, Plenty, store-middle, length-strings, count_slots-block, realloc-block,
  block-append,
}
use libocoms.Argv.Append.{append-Holds}
use libocoms.Argv.Delete.{drop_beyond}
use libocoms.Argv.Moves.{snoc-of, shift_up_by-pieces, copy_in-pieces}
use libocoms.Status.{success}

-- The block of `ss` with `k` slots behind its NULL, after its strings from `start` on were moved up by
-- `k` and ended with a NULL.
opened-block :
    (ss : List Str) (tail : Argv) (start k : ℕ)
    → start ≤ length ss
    → length tail ≡ k
    → (gap zs : Argv) × (shift_up_by (block ss tail) k (length ss - start) start ≡ done zs)
      × (store zs (start + (length ss - start) + k) none
          ≡ done (map some (take start ss) ++ (gap ++ (map some (drop start ss) ++ (none ∷ [])))))
      × (length gap ≡ k)
opened-block ss tail start k within size =
    let a : Argv = map some (take start ss) in
    let b : Argv = map some (drop start ss) in
    let size-a : length a ≡ start =
      omega (arith, length-strings (take start ss), length-take start ss) in
    let size-b : length b ≡ length ss - start =
      omega (arith, length-strings (drop start ss), length-drop start ss) in
    let (room, z, same, room_size) = snoc-of (none ∷ tail) k (ap suc size) in
    let (gap, moved, gap_size) =
      shift_up_by-pieces a b room (z ∷ []) (length ss - start) start (sym size-a) (sym size-b) in
    let cut : block ss tail ≡ a ++ (b ++ (room ++ (z ∷ []))) =
      ap (λ us. block us tail) (sym (take-append-drop start ss))
      ∙ block-append (take start ss) (drop start ss) tail
      ∙ ap (λ us. a ++ (b ++ us)) same in
    let ended =
      store-middle (a ++ (gap ++ b)) [] z none (start + (length ss - start) + k)
        (omega (arith, length-append a (gap ++ b), length-append gap b)) in
    (
      gap,
      a ++ (gap ++ (b ++ (z ∷ []))),
      ap₂ (λ us n. shift_up_by us n (length ss - start) start) cut (sym room_size) ∙ moved,
      simp append_assoc at ended,
      gap_size ∙ room_size,
    )

-- A list with another put into it at a position.
abbrev pub inserted : ℕ → List Str → List Str → List Str
inserted start ts ss = take start ss ++ (ts ++ drop start ss)

block-inserted :
    (ss ts : List Str) (start : ℕ)
    → map some (take start ss) ++ (map some ts ++ (map some (drop start ss) ++ (none ∷ [])))
      ≡ block (inserted start ts ss) []
block-inserted ss ts start = sym (
    block-append (take start ss) (ts ++ drop start ss) []
    ∙ ap (λ us. map some (take start ss) ++ us) (block-append ts (drop start ss) []))

inserted_beyond :
    (start : ℕ) (ts ss : List Str) → length ss ≤ start → inserted start ts ss ≡ ss ++ ts
inserted_beyond start ts ss h =
    ap₂ (λ us vs. us ++ (ts ++ vs)) (take_all start ss h) (drop_beyond start ss h)
    ∙ ap (λ us. ss ++ us) (append-nil ts)

insert_middle-block :
    (mem : Memory) (ss ts : List Str) (rest rest' : Argv) (start : ℕ)
    → Plenty mem
    → start ≤ length ss
    → insert_middle mem (block ss rest) (length ss) start (block ts rest') (length ts)
      ≡ done (block (inserted start ts ss) [])
unfolding insert_middle
insert_middle-block mem ss ts rest rest' start ok within =
    let k = length ts in
    let (tail, grown, size) = realloc-block mem ss rest (length ss + k + 1) k ok (omega arith) in
    let (gap, zs, moved, ended, gap_size) = opened-block ss tail start k within size in
    let filled =
      copy_in-pieces mem (map some (take start ss)) gap (map some (drop start ss) ++ (none ∷ [])) ts
        rest' start ok (omega (arith, length-strings (take start ss), length-take start ss))
        gap_size in
    rw (insert_middle, grown, moved, ended) (filled ∙ ap done (block-inserted ss ts start))

append_all-Holds :
    (mem : Memory) (ts ss : List Str) (rest : Argv) (n : ℕ) (argv : Option Argv)
    → Plenty mem
    → Holds argv ss
    → Returns (append_all mem (block ts rest) n argv) (λ r. Holds r (ss ++ ts))
unfolding append_all
append_all-Holds mem [] ss rest n argv ok h =
    (argv, refl, subst (Holds argv) (sym (append-nil ss)) h)
append_all-Holds mem (t ∷ ts) ss rest n argv ok h =
    let (r, ran, held) =
      append_all-Holds mem ts (ss ++ (t ∷ [])) rest (length ss + 1)
        (some (block (ss ++ (t ∷ [])) [])) ok (points (ss ++ (t ∷ [])) []) in
    (
      r,
      rw (append-Holds mem n argv ss t ok h) ran,
      subst (Holds r) (append_assoc ss (t ∷ []) ts) held,
    )

-- `ocoms_argv_insert` at a position that is not negative, with memory: it succeeds, and the strings of
-- the source stand before those from the position on, or behind all if the position is past the end.
pub insert-Holds :
    (mem : Memory) (ss ts : List Str) (rest rest' : Argv) (start : ℕ)
    → Plenty mem
    → Returns
        (insert mem (some (block ss rest)) (pos start) (some (block ts rest')))
        (λ r. (r.0 ≡ success) × Holds r.1 (inserted start ts ss))
unfolding insert
insert-Holds mem ss ts rest rest' start ok = elim (dec_lt (length ss) start) [
  | yes beyond ↦
      let (r, ran, held) =
        append_all-Holds mem ts ss rest' (length ss) (some (block ss rest)) ok (points ss rest) in
      (
        (success, r),
        ground (arith, count_slots-block ss rest, count_slots-block ts rest', ran),
        (refl, subst (Holds r) (sym (inserted_beyond start ts ss (omega arith))) held),
      )
  | no within ↦ (
    (success, some (block (inserted start ts ss) [])),
    ground (
      arith,
      count_slots-block ss rest,
      count_slots-block ts rest',
      insert_middle-block mem ss ts rest rest' start ok (omega arith),
    ),
    (refl, points (inserted start ts ss) []),
  )
]

insert_element-opened :
    (mem : Memory) (ss : List Str) (s : Str) (rest : Argv) (start : ℕ)
    → Plenty mem
    → start ≤ length ss
    → insert_element mem (some (block ss rest)) (pos start) (some s)
      ≡ done (success, some (block (inserted start (s ∷ []) ss) []))
unfolding insert_element
insert_element-opened mem ss s rest start ok within =
    let (tail, grown, size) = realloc-block mem ss rest (length ss + 2) 1 ok (omega arith) in
    let (gap, zs, moved, ended, gap_size) = opened-block ss tail start 1 within size in
    let filled = gap-filled gap gap_size in
    ground (
      arith,
      count_slots-block ss rest,
      grown,
      moved,
      ended,
      ok (length s + 1),
      filled,
      block-inserted ss (s ∷ []) start,
    )
  where
    gap-filled :
        (gap : Argv)
        → length gap ≡ 1
        → store
            (map some (take start ss) ++ (gap ++ (map some (drop start ss) ++ (none ∷ []))))
            start
            (some s)
          ≡ done (map some (take start ss) ++ (some s ∷ (map some (drop start ss) ++ (none ∷ []))))
    gap-filled [] e = absurd (omega arith)
    gap-filled (g ∷ h ∷ gap) e = absurd (omega arith)
    gap-filled (g ∷ []) e =
        store-middle (map some (take start ss)) (map some (drop start ss) ++ (none ∷ [])) g (some s)
          start (omega (arith, length-strings (take start ss), length-take start ss))

-- `ocoms_argv_insert_element` at a position that is not negative, with memory, does what inserting an
-- array of that one string does.
pub insert_element-Holds :
    (mem : Memory) (ss : List Str) (s : Str) (rest : Argv) (location : ℕ)
    → Plenty mem
    → Returns
        (insert_element mem (some (block ss rest)) (pos location) (some s))
        (λ r. (r.0 ≡ success) × Holds r.1 (inserted location (s ∷ []) ss))
unfolding insert_element
insert_element-Holds mem ss s rest location ok = elim (dec_lt (length ss) location) [
  | yes beyond ↦ (
    (success, some (block (ss ++ (s ∷ [])) [])),
    ground (
      arith,
      count_slots-block ss rest,
      append-Holds mem (length ss) (some (block ss rest)) ss s ok (points ss rest),
    ),
    (
      refl,
      subst (Holds (some (block (ss ++ (s ∷ [])) [])))
          (sym (inserted_beyond location (s ∷ []) ss (omega arith))) (points (ss ++ (s ∷ [])) []),
    ),
  )
  | no within ↦ (
    (success, some (block (inserted location (s ∷ []) ss) [])),
    insert_element-opened mem ss s rest location ok (omega arith),
    (refl, points (inserted location (s ∷ []) ss) []),
  )
]
