-- ===== src/HashTable/Shift.antt =====
-- One round of the scan behind a removed element: the element at the index stays, or moves to the gap.
use mathlib.Core.Path.{subst}
use native.Mathlib.Decide.{dec_lt, ℕ_discrete}
use native.Mathlib.Nat.{mod-lt}
use libocoms.Prelude.{
  ℕ, suc, ◌+◌, ◌%◌, ◌≤◌, ◌<◌, ◌==◌, ◌≡◌, ◌≢◌, refl, sym, ap, ◌∙◌, ◌⊎◌, inl, inr, if◌then◌else◌,
  true, false, none-ne-some, some-ne-none, Option, none, some, List, length, set, length-set, done,
  store-in, arith,
}
use libocoms.Prelude.Slots.{free, entry, entry-set, count_free, count_free-set}
use libocoms.HashTable.{KeyMethods, find_place, move_element}
use libocoms.HashTable.Gap.{
  around-shift, around-inj, distance, around-distance, NearlyReached, StoresGap,
}
use libocoms.HashTable.Probe.{around, Filled, entry-some-lt}
use libocoms.HashTable.Search.{find_place-met}

module _ {ℓ} {K V : Type ℓ} (methods : KeyMethods K) where
  open methods use {hash_elt}

  module _ (xs : List (Option (K × V))) (capacity gap j : ℕ) (f : K → Option V)
      (s : StoresGap methods xs capacity gap j f) (e : K × V) (j_pos : 0 < j) (j_lt : j < capacity)
      (here : entry xs (around capacity gap j) ≡ some e) where
    abbrev ii : ℕ
    ii = around capacity gap j

    abbrev start : ℕ
    start = hash_elt e.0 % capacity

    start_lt : start < capacity
    start_lt = mod-lt (hash_elt e.0) (omega arith)

    way : NearlyReached methods xs capacity gap j e.0 ii
    way = s.placed ii e here

    -- how far the gap lies behind the first index of the element's key
    abbrev to_gap : ℕ
    to_gap = distance capacity start gap

    to_gap_lt : to_gap < capacity
    to_gap_lt = (around-distance capacity start gap start_lt s.gap_lt).0

    at_gap : around capacity start to_gap ≡ gap
    at_gap = (around-distance capacity start gap start_lt s.gap_lt).1

    -- Before the gap the way is free of it.
    Filled-before : (n : ℕ) → n ≤ way.steps → n ≤ to_gap → Filled xs capacity start n
    unfolding way
    Filled-before n le below m lt = elim (way.filled m (omega arith)) [
      | inl valid ↦ valid
      | inr (at, _) ↦ absurd (
          apart (
            around-inj capacity start m to_gap start_lt (omega (arith, to_gap_lt)) to_gap_lt
              (at ∙ sym at_gap)))
    ]
      where
        apart : m ≡ to_gap → ⊥
        apart e = omega arith

    not_there : (n : ℕ) → n < way.steps → (around capacity start n == ii) ≡ false
    unfolding way
    not_there n lt = differ (λ same. apart (
        around-inj capacity start n way.steps start_lt (omega (arith, way.steps_lt)) way.steps_lt
          (same ∙ sym way.arrives)))
      where
        differ : {a b : ℕ} → (a ≡ b → ⊥) → (a == b) ≡ false
        differ {a} {b} ne = ground (arith, ne)

        apart : n ≡ way.steps → ⊥
        apart e = omega arith

    -- Where the way does not lead over the gap, the place of the element is its own.
    find_place-stays :
        way.steps ≤ to_gap → find_place methods xs capacity ii capacity start ≡ done ii
    find_place-stays short =
        find_place-met methods xs capacity start ii way.steps s.long start_lt way.steps_lt
          (λ m lt. not_there m lt) (Filled-before way.steps (omega arith) short) (inl way.arrives)
        ∙ ap done way.arrives

    find_place-moves :
        to_gap < way.steps → find_place methods xs capacity ii capacity start ≡ done gap
    find_place-moves long_way =
        find_place-met methods xs capacity start ii to_gap s.long start_lt to_gap_lt
          (λ m lt. not_there m (omega arith)) (Filled-before to_gap (omega arith) (omega arith))
          (inr (ap (entry xs) at_gap ∙ s.gap_free))
        ∙ ap done at_gap

    stays-StoresGap : way.steps ≤ to_gap → StoresGap methods xs capacity gap (suc j) f
    unfolding way
    stays-StoresGap short = record {
      long = s.long;
      gap_lt = s.gap_lt;
      gap_free = s.gap_free;
      sound = s.sound;
      complete = s.complete;
      placed = λ p e' h. farther p e' h (s.placed p e' h);
      once = s.once;
    }
      where
        farther :
            (p : ℕ) (e' : K × V)
            → entry xs p ≡ some e'
            → NearlyReached methods xs capacity gap j e'.0 p
            → NearlyReached methods xs capacity gap (suc j) e'.0 p
        farther p e' h r = record {
          steps = r.steps;
          steps_lt = r.steps_lt;
          arrives = r.arrives;
          filled = λ m lt. elim (r.filled m lt) [
            | inl valid ↦ inl valid
            | inr (at, far) ↦ elim (dec_lt (j + m) r.steps) [
              | yes more ↦ inr (at, omega arith)
              | no last ↦ absurd (clash m at (omega arith))
            ]
          ];
        }
          where
            h' : ℕ
            h' = hash_elt e'.0 % capacity

            h'_lt : h' < capacity
            h'_lt = mod-lt (hash_elt e'.0) (omega arith)

            clash : (m : ℕ) → around capacity h' m ≡ gap → m + j ≡ r.steps → ⊥
            clash m at last =
                let to_ii : around capacity h' r.steps ≡ ii =
                  ap (around capacity h') (sym last)
                  ∙ sym (around-shift capacity h' m j h'_lt (omega (arith, r.steps_lt)))
                  ∙ ap (λ g. around capacity g j) at in
                let at_ii : p ≡ ii = sym r.arrives ∙ to_ii in
                let this : some e' ≡ some e = sym h ∙ ap (entry xs) at_ii ∙ here in
                let key : e'.0 ≡ e.0 = cc in
                let begin : h' ≡ start = ap (λ k. hash_elt k % capacity) key in
                let m_gap : m ≡ to_gap =
                  around-inj capacity start m to_gap start_lt (omega (arith, r.steps_lt)) to_gap_lt
                    (ap (λ b. around capacity b m) (sym begin) ∙ at ∙ sym at_gap) in
                let whole : r.steps ≡ way.steps =
                  around-inj capacity start r.steps way.steps start_lt r.steps_lt way.steps_lt
                    (ap (λ b. around capacity b r.steps) (sym begin) ∙ to_ii ∙ sym way.arrives) in
                omega arith

    abbrev moved : List (Option (K × V))
    moved = set (set xs gap (some e)) ii none

    gap_ne : ii ≢ gap
    gap_ne same = some-ne-none (sym here ∙ ap (entry xs) same ∙ s.gap_free)

    gap_in : gap < length xs
    gap_in = omega (arith, s.long, s.gap_lt)

    ii_in : ii < length (set xs gap (some e))
    ii_in = omega (arith, length-set xs gap (some e), entry-some-lt xs ii here)

    entry-moved :
        (q : ℕ)
        → entry moved q ≡ (if q == ii then none else (if q == gap then some e else entry xs q))
    entry-moved q =
        entry-set (set xs gap (some e)) ii q none ii_in
        ∙ ap (λ b. if q == ii then none else b) (entry-set xs gap q (some e) gap_in)

    moved-gap : entry moved gap ≡ some e
    moved-gap = ground (arith, entry-moved gap, gap_ne)

    moved-ii : entry moved ii ≡ none
    moved-ii = ground (arith, entry-moved ii)

    moved-other : (q : ℕ) → q ≢ ii → q ≢ gap → entry moved q ≡ entry xs q
    moved-other q ne ne' = ground (arith, entry-moved q)

    -- What stands in the array after the move.
    data Entry : ℕ → K × V → Type ℓ where
      put : {q : ℕ} {e' : K × V} → q ≡ gap → e' ≡ e → Entry q e'
      kept : {q : ℕ} {e' : K × V} → q ≢ ii → q ≢ gap → entry xs q ≡ some e' → Entry q e'

    of_moved : (q : ℕ) (e' : K × V) → entry moved q ≡ some e' → Entry q e'
    of_moved q e' h = elim (ℕ_discrete q ii) [
      | yes same ↦ absurd (none-ne-some (sym moved-ii ∙ ap (entry moved) (sym same) ∙ h))
      | no ne ↦ elim (ℕ_discrete q gap) [
        | yes same ↦
            let this : some e' ≡ some e = sym h ∙ ap (entry moved) same ∙ moved-gap in put same cc
        | no ne' ↦ kept ne ne' (sym (moved-other q ne ne') ∙ h)
      ]
    ]

    moves-StoresGap : to_gap < way.steps → StoresGap methods moved capacity ii 1 f
    unfolding way
    moves-StoresGap long_way = record {
      long = length-set (set xs gap (some e)) ii none ∙ length-set xs gap (some e) ∙ s.long;
      gap_lt = omega (arith, entry-some-lt xs ii here, s.long);
      gap_free = moved-ii;
      sound = λ q e' h. sound_of q e' (of_moved q e' h);
      complete = λ k v h. complete_of k v (s.complete k v h);
      placed = λ q e' h. placed_of q e' (of_moved q e' h);
      once = λ q q' a b h h' same. once_of q q' a b (of_moved q a h) (of_moved q' b h') same;
    }
      where
        sound_of : (q : ℕ) (e' : K × V) → Entry q e' → f e'.0 ≡ some e'.1
        sound_of q e' (put at same) = subst (λ a. f a.0 ≡ some a.1) (sym same) (s.sound ii e here)
        sound_of q e' (kept ne ne' h) = s.sound q e' h

        complete_of :
            (k : K) (v : V)
            → (p : ℕ) × (entry xs p ≡ some (k, v))
            → (p : ℕ) × (entry moved p ≡ some (k, v))
        complete_of k v (p, at) = elim (ℕ_discrete p ii) [
          | yes same ↦ (gap, moved-gap ∙ sym here ∙ ap (entry xs) (sym same) ∙ at)
          | no ne ↦ (
            p,
            moved-other p ne (λ same. none-ne-some (sym s.gap_free ∙ ap (entry xs) (sym same) ∙ at))
                ∙ at,
          )
        ]

        still :
            (q m n : ℕ)
            → m < n
            → (a : K × V) → entry xs q ≡ some a
            → ((b : K × V) × (entry moved q ≡ some b)) ⊎ ((q ≡ ii) × (1 + m ≤ n))
        still q m n lt a h = elim (ℕ_discrete q ii) [
          | yes same ↦ inr (same, omega arith)
          | no ne ↦ inl (
            a,
            moved-other q ne (λ same. none-ne-some (sym s.gap_free ∙ ap (entry xs) (sym same) ∙ h))
                ∙ h,
          )
        ]

        placed_of :
            (q : ℕ) (e' : K × V) → Entry q e' → NearlyReached methods moved capacity ii 1 e'.0 q
        placed_of q e' (put at same) =
            subst (λ p. NearlyReached methods moved capacity ii 1 e'.0 p) (sym at)
              (subst (λ a. NearlyReached methods moved capacity ii 1 a.0 gap) (sym same)
                (record {
                  steps = to_gap;
                  steps_lt = to_gap_lt;
                  arrives = at_gap;
                  filled = λ m lt.
                      let (a, h) = Filled-before to_gap (omega arith) (omega arith) m lt in
                      still (around capacity start m) m to_gap lt a h;
                }))
        placed_of q e' (kept ne ne' h) =
            let r = s.placed q e' h in
            record {
              steps = r.steps;
              steps_lt = r.steps_lt;
              arrives = r.arrives;
              filled = λ m lt. elim (r.filled m lt) [
                | inl (a, valid) ↦
                    still (around capacity (hash_elt e'.0 % capacity) m) m r.steps lt a valid
                | inr (at, far) ↦ inl (e, ap (entry moved) at ∙ moved-gap)
              ];
            }

        once_of : (q q' : ℕ) (a b : K × V) → Entry q a → Entry q' b → a.0 ≡ b.0 → q ≡ q'
        once_of q q' a b (put at _) (put at' _) same = at ∙ sym at'
        once_of q q' a b (put at is) (kept ne ne' h) same =
            absurd (ne (sym (s.once ii q' e b here h (ap (λ c. c.0) (sym is) ∙ same))))
        once_of q q' a b (kept ne ne' h) (put at is) same =
            absurd (ne (s.once q ii a e h here (same ∙ ap (λ c. c.0) is)))
        once_of q q' a b (kept _ _ h) (kept _ _ h') same = s.once q q' a b h h' same

    count_free-moved : count_free moved ≡ count_free xs
    count_free-moved =
        let there : entry (set xs gap (some e)) ii ≡ some e =
          entry-set xs gap ii (some e) gap_in ∙ ground (arith, gap_ne, here) in
        let f1 : free (entry xs gap) ≡ 1 = ap free s.gap_free in
        let f2 : free (entry (set xs gap (some e)) ii) ≡ 0 = ap free there in
        omega (
          arith,
          count_free-set xs gap (some e) gap_in,
          count_free-set (set xs gap (some e)) ii none ii_in,
        )

    -- The round of the scan on this element.
    pub data Round : Type ℓ where
      stays :
          (jj : ℕ)
          → jj ≡ ii
          → find_place methods xs capacity ii capacity start ≡ done jj
          → move_element methods xs ii jj e ≡ done xs
          → StoresGap methods xs capacity gap (suc j) f
          → Round
      moves :
          (jj : ℕ) (ys : List (Option (K × V)))
          → find_place methods xs capacity ii capacity start ≡ done jj
          → move_element methods xs ii jj e ≡ done ys
          → StoresGap methods ys capacity ii 1 f
          → count_free ys ≡ count_free xs
          → ((q : ℕ) → entry xs q ≡ none → q ≢ gap → entry ys q ≡ none)
          → Round

    pub one-Round : Round
    unfolding move_element
    one-Round = elim (dec_lt to_gap way.steps) [
      | yes far ↦
          moves gap moved (find_place-moves far)
            (rw
              (
                differ,
                store-in xs gap (some e) gap_in,
                store-in (set xs gap (some e)) ii none ii_in,
              )
              refl)
            (moves-StoresGap far) count_free-moved
            (λ q empty ne.
              moved-other q (λ same. none-ne-some (sym empty ∙ ap (entry xs) same ∙ here)) ne
              ∙ empty)
      | no near ↦
          stays ii refl (find_place-stays (omega arith)) (rw itself refl)
            (stays-StoresGap (omega arith))
    ]
      where
        differ : (gap == ii) ≡ false
        differ = ground (arith, gap_ne)

        itself : (ii == ii) ≡ true
        itself = ground arith
