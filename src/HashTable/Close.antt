-- ===== src/HashTable/Close.antt =====
-- The scan behind a removed element, and `ocoms_hash_table_remove_value_*`.
use native.Mathlib.Decide.{dec_lt}
use libocoms.Prelude.{
  ℕ, zero, suc, ◌+◌, ◌-◌, ◌<◌, ◌≡◌, ◌≢◌, refl, sym, ap, ◌∙◌, inl, inr, Option-cases, none-ne-some,
  Option, none, some, List, length, Returns, arith,
}
use libocoms.Prelude.Slots.{entry, load-entry, count_free}
use libocoms.HashTable.{KeyMethods, wrap, close_gap}
use libocoms.HashTable.Gap.{around-shift, around-inj, StoresGap, closed-Stores}
use libocoms.HashTable.Methods.{home-some}
use libocoms.HashTable.Probe.{around}
use libocoms.HashTable.Shift.{stays, moves, one-Round}
use libocoms.HashTable.View.{Stores}

-- One step of the scan around the array.
wrap-step :
    (capacity gap j : ℕ)
    → gap < capacity
    → suc j < capacity
    → wrap capacity (around capacity gap j + 1) ≡ around capacity gap (suc j)
wrap-step capacity gap j hg hj = ground arith

module _ {ℓ} {K V : Type ℓ} (methods : KeyMethods K) (capacity : ℕ) (f : K → Option V) where
  open methods use {hash_elt}

  -- The gap is closed: nothing is lost.
  abbrev pub Closed : List (Option (K × V)) → List (Option (K × V)) → Type ℓ
  Closed xs zs = Stores methods zs capacity f × (count_free zs ≡ count_free xs)

  -- With an index that is free `m` elements on, the scan ends there at the latest.
  pub close_gap-Closed :
      (left m : ℕ) (xs : List (Option (K × V))) (gap j ii : ℕ)
      → StoresGap methods xs capacity gap j f
      → 0 < j
      → j + m < capacity
      → m < left
      → entry xs (around capacity gap (j + m)) ≡ none
      → wrap capacity ii ≡ around capacity gap j
      → Returns (close_gap methods xs capacity left ii) (Closed xs)
  unfolding close_gap
  close_gap-Closed zero m xs gap j ii s j_pos far enough empty at = absurd (omega arith)
  close_gap-Closed (suc left) m xs gap j ii s j_pos far enough empty at =
      elim (Option-cases (entry xs kk)) [
        | inl none_here ↦ (
          xs,
          rw (at, load-entry xs kk kk_in, none_here) refl,
          (closed-Stores methods xs capacity gap j f s j_pos (omega arith) none_here, refl),
        )
        | inr (e, here) ↦
            let m_pos : 0 < m = more e here in
            let at_home = home-some capacity (hash_elt e.0) (omega arith) in
            elim (one-Round methods xs capacity gap j f s e j_pos (omega arith) here) [
              | stays jj is found done_it s' ↦
                  let (zs, ran, closed) =
                    close_gap-Closed left (m - 1) xs gap (suc j) (kk + 1) s' (omega arith)
                      (omega arith) (omega arith)
                      (ap (λ n. entry xs (around capacity gap n)) (same_end m_pos) ∙ empty)
                      (wrap-step capacity gap j s.gap_lt (omega arith)) in
                  (
                    zs,
                    rw (at, load-entry xs kk kk_in, here, at, at_home, found, done_it) ran,
                    closed,
                  )
              | moves jj ys found done_it s' counted others ↦
                  let (zs, ran, (stores, counted')) =
                    close_gap-Closed left (m - 1) ys kk 1 (kk + 1) s' (omega arith) (omega arith)
                      (omega arith)
                      (ap (entry ys) (end_on m_pos)
                        ∙ others (around capacity gap (j + m)) empty end_ne)
                      (wrap-first m_pos) in
                  (
                    zs,
                    rw (at, load-entry xs kk kk_in, here, at, at_home, found, done_it) ran,
                    (stores, counted' ∙ counted),
                  )
            ]
      ]
    where
      kk : ℕ
      kk = around capacity gap j

      kk_in : kk < length xs
      kk_in = ground (arith, s.long, s.gap_lt)

      more : (e : K × V) → entry xs kk ≡ some e → 0 < m
      more e here = elim (dec_lt 0 m) [
        | yes p ↦ p
        | no p ↦
            let zero_m : j + m ≡ j = omega arith in
            absurd
              (none-ne-some (sym empty ∙ ap (λ n. entry xs (around capacity gap n)) zero_m ∙ here))
      ]

      same_end : 0 < m → suc j + (m - 1) ≡ j + m
      same_end p = omega arith

      end_on : 0 < m → around capacity kk (1 + (m - 1)) ≡ around capacity gap (j + m)
      end_on p =
          around-shift capacity gap j (1 + (m - 1)) s.gap_lt (omega arith)
          ∙ ap (around capacity gap) (same_total p)
        where
          same_total : 0 < m → j + (1 + (m - 1)) ≡ j + m
          same_total p = omega arith

      end_ne : around capacity gap (j + m) ≢ gap
      end_ne same =
          apart (around-inj capacity gap (j + m) 0 s.gap_lt far (omega arith) (same ∙ around-none))
        where
          apart : j + m ≡ 0 → ⊥
          apart e = omega arith

          around-none : gap ≡ around capacity gap 0
          around-none = ground (arith, s.gap_lt)

      wrap-first : 0 < m → wrap capacity (kk + 1) ≡ around capacity kk 1
      wrap-first p = ground (arith, s.gap_lt)
