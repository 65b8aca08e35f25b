-- ===== src/HashTable/Search.antt =====
-- The loops of ocoms/util/ocoms_hash_table.c that go round the elements: what they find, and when.
use libocoms.Prelude.{
  ℕ, zero, suc, ◌+◌, ◌-◌, ◌<◌, ◌==◌, ◌≡◌, sym, ap, ◌∙◌, true, false, Bool-cases, Option, none, some,
  List, ◌⊎◌, ==_iff, inl, inr, length, done, load, arith,
}
use libocoms.Prelude.Slots.{entry, load-entry}
use libocoms.HashTable.Probe.{around, Filled}
use libocoms.HashTable.{KeyMethods, vacant, present, wrap, find_free, find_key, find_place}

module _ {ℓ} {K V : Type ℓ} where
  -- Valid elements are passed by.
  find_free-skip :
      (xs : List (Option (K × V))) (capacity h left n d ii : ℕ)
      → length xs ≡ capacity
      → h < capacity
      → d + n < capacity
      → wrap capacity ii ≡ around capacity h d
      → Filled xs capacity h (d + n)
      → (jj : ℕ) × (wrap capacity jj ≡ around capacity h (d + n))
        × (find_free xs capacity (n + left) ii ≡ find_free xs capacity left jj)
  unfolding find_free
  find_free-skip xs capacity h left zero d ii long hh hd at filled =
      let same : d + 0 ≡ d = omega arith in
      let none_passed : 0 + left ≡ left = omega arith in
      (ii, at ∙ ap (around capacity h) (sym same), ap (λ k. find_free xs capacity k ii) none_passed)
  find_free-skip xs capacity h left (suc n) d ii long hh hd at filled =
      let (e, here) = filled d (omega arith) in
      let same : suc d + n ≡ d + suc n = omega arith in
      let one_more : suc n + left ≡ suc (n + left) = omega arith in
      let next : wrap capacity (wrap capacity ii + 1) ≡ around capacity h (suc d) =
        ground (arith, at) in
      let read : load xs (wrap capacity ii) ≡ done (some e) =
        load-entry xs (wrap capacity ii) (ground (arith, at)) ∙ ap done (ap (entry xs) at ∙ here) in
      let (jj, there, ran) =
        find_free-skip xs capacity h left n (suc d) (wrap capacity ii + 1) long hh (omega arith)
          next (λ m lt. filled m (omega arith)) in
      (
        jj,
        there ∙ ap (around capacity h) same,
        ap (λ k. find_free xs capacity k ii) one_more ∙ rw (find_free, read) ran,
      )

  -- The search for a free element ends at the first one round from its start.
  pub find_free-met :
      (xs : List (Option (K × V))) (capacity h n : ℕ)
      → length xs ≡ capacity
      → h < capacity
      → n < capacity
      → entry xs (around capacity h n) ≡ none
      → Filled xs capacity h n
      → find_free xs capacity capacity h ≡ done (around capacity h n)
  unfolding find_free
  find_free-met xs capacity h n long hh hn free filled =
      let start : wrap capacity h ≡ around capacity h 0 = ground arith in
      let enough : n + suc (capacity - n - 1) ≡ capacity = omega arith in
      let none_passed : 0 + n ≡ n = omega arith in
      let (jj, there, ran) =
        find_free-skip xs capacity h (suc (capacity - n - 1)) n 0 h long hh (omega arith) start
          (λ m lt. filled m (omega arith)) in
      let there' : wrap capacity jj ≡ around capacity h n =
        there ∙ ap (around capacity h) none_passed in
      let read : load xs (wrap capacity jj) ≡ done none =
        load-entry xs (wrap capacity jj) (ground (arith, there'))
        ∙ ap done (ap (entry xs) there' ∙ free) in
      ap (λ k. find_free xs capacity k h) (sym enough) ∙ ran ∙ rw (find_free, read) (ap done there')

  module _ (methods : KeyMethods K) where
    open methods use {equal}

    -- The `n` elements from `h` on are valid and have other keys.
    abbrev pub OtherKeys : List (Option (K × V)) → K → (capacity h n : ℕ) → Type ℓ
    OtherKeys xs key capacity h n =
        (m : ℕ)
        → m < n
        → (e : K × V) × (entry xs (around capacity h m) ≡ some e) × (equal e.0 key ≡ false)

    find_key-skip :
        (xs : List (Option (K × V))) (key : K) (capacity h left n d ii : ℕ)
        → length xs ≡ capacity
        → h < capacity
        → d + n < capacity
        → wrap capacity ii ≡ around capacity h d
        → OtherKeys xs key capacity h (d + n)
        → (jj : ℕ) × (wrap capacity jj ≡ around capacity h (d + n))
          × (find_key methods xs key capacity (n + left) ii
              ≡ find_key methods xs key capacity left jj)
    unfolding find_key
    find_key-skip xs key capacity h left zero d ii long hh hd at filled =
        let same : d + 0 ≡ d = omega arith in
        let none_passed : 0 + left ≡ left = omega arith in
        (
          ii,
          at ∙ ap (around capacity h) (sym same),
          ap (λ k. find_key methods xs key capacity k ii) none_passed,
        )
    find_key-skip xs key capacity h left (suc n) d ii long hh hd at filled =
        let (e, here, other) = filled d (omega arith) in
        let same : suc d + n ≡ d + suc n = omega arith in
        let one_more : suc n + left ≡ suc (n + left) = omega arith in
        let next : wrap capacity (wrap capacity ii + 1) ≡ around capacity h (suc d) =
          ground (arith, at) in
        let read : load xs (wrap capacity ii) ≡ done (some e) =
          load-entry xs (wrap capacity ii) (ground (arith, at))
          ∙ ap done (ap (entry xs) at ∙ here) in
        let (jj, there, ran) =
          find_key-skip xs key capacity h left n (suc d) (wrap capacity ii + 1) long hh
            (omega arith) next (λ m lt. filled m (omega arith)) in
        (
          jj,
          there ∙ ap (around capacity h) same,
          ap (λ k. find_key methods xs key capacity k ii) one_more ∙ rw (find_key, read, other) ran,
        )

    -- The search by key comes to the first element that is free or has the key.
    find_key-come :
        (xs : List (Option (K × V))) (key : K) (capacity h n : ℕ)
        → length xs ≡ capacity
        → h < capacity
        → n < capacity
        → OtherKeys xs key capacity h n
        → (jj : ℕ) × (wrap capacity jj ≡ around capacity h n)
          × (load xs (wrap capacity jj) ≡ done (entry xs (around capacity h n)))
          × (find_key methods xs key capacity capacity h
              ≡ find_key methods xs key capacity (suc (capacity - n - 1)) jj)
    find_key-come xs key capacity h n long hh hn others =
        let start : wrap capacity h ≡ around capacity h 0 = ground arith in
        let enough : n + suc (capacity - n - 1) ≡ capacity = omega arith in
        let none_passed : 0 + n ≡ n = omega arith in
        let (jj, there, ran) =
          find_key-skip xs key capacity h (suc (capacity - n - 1)) n 0 h long hh (omega arith) start
            (λ m lt. others m (omega arith)) in
        let there' : wrap capacity jj ≡ around capacity h n =
          there ∙ ap (around capacity h) none_passed in
        (
          jj,
          there',
          load-entry xs (wrap capacity jj) (ground (arith, there'))
              ∙ ap done (ap (entry xs) there'),
          ap (λ k. find_key methods xs key capacity k h) (sym enough) ∙ ran,
        )

    pub find_key-vacant :
        (xs : List (Option (K × V))) (key : K) (capacity h n : ℕ)
        → length xs ≡ capacity
        → h < capacity
        → n < capacity
        → OtherKeys xs key capacity h n
        → entry xs (around capacity h n) ≡ none
        → find_key methods xs key capacity capacity h ≡ done (vacant (around capacity h n))
    unfolding find_key
    find_key-vacant xs key capacity h n long hh hn others free =
        let (jj, there, read, ran) = find_key-come xs key capacity h n long hh hn others in
        ran ∙ rw (find_key, read, free) (ap (λ i. done (vacant i)) there)

    pub find_key-present :
        (xs : List (Option (K × V))) (key : K) (capacity h n : ℕ) (e : K × V)
        → length xs ≡ capacity
        → h < capacity
        → n < capacity
        → OtherKeys xs key capacity h n
        → entry xs (around capacity h n) ≡ some e
        → equal e.0 key ≡ true
        → find_key methods xs key capacity capacity h ≡ done (present (around capacity h n) e)
    unfolding find_key
    find_key-present xs key capacity h n e long hh hn others there_e same =
        let (jj, there, read, ran) = find_key-come xs key capacity h n long hh hn others in
        ran ∙ rw (find_key, read, there_e, same) (ap (λ i. done (present i e)) there)

    find_place-skip :
        (xs : List (Option (K × V))) (capacity h stop left n d ii : ℕ)
        → length xs ≡ capacity
        → h < capacity
        → d + n < capacity
        → wrap capacity ii ≡ around capacity h d
        → ((m : ℕ) → m < d + n → (around capacity h m == stop) ≡ false)
        → Filled xs capacity h (d + n)
        → (jj : ℕ) × (wrap capacity jj ≡ around capacity h (d + n))
          × (find_place methods xs capacity stop (n + left) ii
              ≡ find_place methods xs capacity stop left jj)
    unfolding find_place
    find_place-skip xs capacity h stop left zero d ii long hh hd at before filled =
        let same : d + 0 ≡ d = omega arith in
        let none_passed : 0 + left ≡ left = omega arith in
        (
          ii,
          at ∙ ap (around capacity h) (sym same),
          ap (λ k. find_place methods xs capacity stop k ii) none_passed,
        )
    find_place-skip xs capacity h stop left (suc n) d ii long hh hd at before filled =
        let (e, here) = filled d (omega arith) in
        let same : suc d + n ≡ d + suc n = omega arith in
        let one_more : suc n + left ≡ suc (n + left) = omega arith in
        let apart : (wrap capacity ii == stop) ≡ false =
          ap (λ i. i == stop) at ∙ before d (omega arith) in
        let next : wrap capacity (wrap capacity ii + 1) ≡ around capacity h (suc d) =
          ground (arith, at) in
        let read : load xs (wrap capacity ii) ≡ done (some e) =
          load-entry xs (wrap capacity ii) (ground (arith, at))
          ∙ ap done (ap (entry xs) at ∙ here) in
        let (jj, there, ran) =
          find_place-skip xs capacity h stop left n (suc d) (wrap capacity ii + 1) long hh
            (omega arith) next (λ m lt. before m (omega arith)) (λ m lt. filled m (omega arith)) in
        (
          jj,
          there ∙ ap (around capacity h) same,
          ap (λ k. find_place methods xs capacity stop k ii) one_more
              ∙ rw (find_place, apart, read) ran,
        )

    -- The place of an element is the first index round from the start that is its own or is free.
    pub find_place-met :
        (xs : List (Option (K × V))) (capacity h stop n : ℕ)
        → length xs ≡ capacity
        → h < capacity
        → n < capacity
        → ((m : ℕ) → m < n → (around capacity h m == stop) ≡ false)
        → Filled xs capacity h n
        → (around capacity h n ≡ stop) ⊎ (entry xs (around capacity h n) ≡ none)
        → find_place methods xs capacity stop capacity h ≡ done (around capacity h n)
    unfolding find_place
    find_place-met xs capacity h stop n long hh hn before filled end =
        let start : wrap capacity h ≡ around capacity h 0 = ground arith in
        let enough : n + suc (capacity - n - 1) ≡ capacity = omega arith in
        let none_passed : 0 + n ≡ n = omega arith in
        let (jj, there, ran) =
          find_place-skip xs capacity h stop (suc (capacity - n - 1)) n 0 h long hh (omega arith)
            start (λ m lt. before m (omega arith)) (λ m lt. filled m (omega arith)) in
        let there' : wrap capacity jj ≡ around capacity h n =
          there ∙ ap (around capacity h) none_passed in
        let read : load xs (wrap capacity jj) ≡ done (entry xs (around capacity h n)) =
          load-entry xs (wrap capacity jj) (ground (arith, there'))
          ∙ ap done (ap (entry xs) there') in
        ap (λ k. find_place methods xs capacity stop k h) (sym enough)
        ∙ ran
        ∙ elim (Bool-cases (around capacity h n == stop)) [
          | inl e ↦
              rw (find_place, ap (λ i. i == stop) there' ∙ e)
                (ap done (sym ((==_iff (around capacity h n) stop).0 e)))
          | inr e ↦
              let free : entry xs (around capacity h n) ≡ none = elim end [
                | inl same ↦ absurd (differs same e)
                | inr f ↦ f
              ] in
              rw (find_place, ap (λ i. i == stop) there' ∙ e, read, free) (ap done there')
        ]
      where
        differs : {i j : ℕ} → i ≡ j → (i == j) ≡ false → ⊥
        differs {i} {j} p q = ground (arith, p, q)
