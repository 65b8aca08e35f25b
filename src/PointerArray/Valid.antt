-- ===== src/PointerArray/Valid.antt =====
-- The invariant of a pointer array, that its constructor, `init` and growth keep.
use libocoms.Prelude.{
  ℕ, ◌*◌, ◌≤◌, ◌<◌, ◌≡◌, refl, sym, ap, length-replicate, if◌then◌else◌, true, false, Bool, Option,
  none, some, List, length, done, arith, ltb, Bool-cases, inl, inr,
}
use libocoms.Prelude.Int.{pos}
use native.Mathlib.Decide.{dec_lt}
use libocoms.PointerArray.{
  PointerArray, is_null, int_max, pointer_size, construct, init, slots, new_size, grow_table,
}
use libocoms.PointerArray.Slots.{
  entry, count_free, slots_of, count_free-replicate, entry-replicate, resize-Extends, entry-out,
}
use libocoms.Status.{success}

module _ {ℓ} {V : Type ℓ} where
  abbrev pub contents : PointerArray V → List (Option V)
  contents t = slots_of t.addr

  -- the pointer at an index, NULL past the end of the table
  abbrev pub item : PointerArray V → ℕ → Option V
  item t i = entry (contents t) i

  -- The fields agree with the slots: `number_free` counts the free ones, and `lowest_free` is the
  -- least of them (or the size, if there is none).
  pub record IsValid (t : PointerArray V) : Type ℓ where
    pub measured : length (contents t) ≡ t.size
    pub counted : t.number_free ≡ pos (count_free (contents t))
    pub small : t.size ≤ int_max
    pub bounded : t.lowest_free ≤ t.size
    pub used_below : (i : ℕ) → i < t.lowest_free → is_null (item t i) ≡ false
    pub free_at : t.lowest_free < t.size → is_null (item t t.lowest_free) ≡ true

  pub construct-IsValid : IsValid construct
  unfolding construct
  construct-IsValid = record {
    measured = refl;
    counted = refl;
    small = omega arith;
    bounded = omega arith;
    used_below = λ i h. absurd (omega arith);
    free_at = λ h. absurd (omega arith);
  }

  pub slots-contents :
      (t : PointerArray V) → length (contents t) ≡ t.size → 0 < t.size → slots t ≡ done (contents t)
  slots-contents t e h = go t.addr refl
    where
      go : (a : Option (List (Option V))) → t.addr ≡ a → slots t ≡ done (contents t)
      go none p = absurd (omega (arith, ap (λ b. length (slots_of b)) p))
      go (some xs) p = rw p

  pub addr_stored :
      (t : PointerArray V) → length (contents t) ≡ t.size → 0 < t.size → is_null t.addr ≡ false
  addr_stored t e h = go t.addr refl
    where
      go : (a : Option (List (Option V))) → t.addr ≡ a → is_null t.addr ≡ false
      go none p = absurd (omega (arith, ap (λ b. length (slots_of b)) p))
      go (some xs) p = rw p

  pub unstored_size :
      (t : PointerArray V) → length (contents t) ≡ t.size → is_null t.addr ≡ true → t.size ≡ 0
  unstored_size t e h = go t.addr refl
    where
      go : (a : Option (List (Option V))) → t.addr ≡ a → t.size ≡ 0
      go none p = omega (arith, ap (λ b. length (slots_of b)) p)
      go (some xs) p = ground (arith, p)

  -- `t'` is `t` after it grew to `n` slots.
  pub record Grown (t : PointerArray V) (n : ℕ) (t' : PointerArray V) : Type ℓ where
    pub valid : IsValid t'
    pub sized : t'.size ≡ n
    pub limit : t'.max_size ≡ t.max_size
    pub lowest : t'.lowest_free ≡ t.lowest_free
    pub kept : (j : ℕ) → item t' j ≡ item t j

  pub grow_table-Grown :
      (mem : ℕ → Bool) (t : PointerArray V) (soft hard n : ℕ)
      → IsValid t
      → new_size t.max_size soft hard ≡ some n
      → t.size ≤ n
      → n ≤ int_max
      → mem (n * pointer_size) ≡ true
      → ((grow_table mem t soft hard).0 ≡ true) × Grown t n (grow_table mem t soft hard).1
  unfolding grow_table
  grow_table-Grown mem t soft hard n v e le small ok =
      let x = resize-Extends t.addr t.size n v.measured le in
      rw (e, ok, grow_table)
        (
          refl,
          record {
            valid = record {
              measured = x.long;
              counted = ground (arith, x.freed, v.counted, v.measured);
              small = small;
              bounded = omega arith;
              used_below = λ i h. rw (x.kept i) (v.used_below i h);
              free_at = λ h. elim (dec_lt t.lowest_free t.size) [
                | yes p ↦ rw (x.kept t.lowest_free) (v.free_at p)
                | no p ↦
                    rw (x.kept t.lowest_free, entry-out (contents t) t.lowest_free (omega arith))
              ];
            };
            sized = refl;
            limit = refl;
            lowest = refl;
            kept = x.kept;
          },
        )

  pub grow_table-refuses :
      (mem : ℕ → Bool) (t : PointerArray V) (soft hard : ℕ)
      → new_size t.max_size soft hard ≡ none
      → grow_table mem t soft hard ≡ (false, t)
  unfolding grow_table
  grow_table-refuses mem t soft hard e = rw (e, grow_table)

  pub grow_table-out_of_memory :
      (mem : ℕ → Bool) (t : PointerArray V) (soft hard n : ℕ)
      → new_size t.max_size soft hard ≡ some n
      → mem (n * pointer_size) ≡ false
      → grow_table mem t soft hard ≡ (false, t)
  unfolding grow_table
  grow_table-out_of_memory mem t soft hard n e bad = rw (e, bad, grow_table)

  -- A constructed table that `ocoms_pointer_array_init` sets up with success is valid, holds NULL at
  -- every index, and has the limit and the number of slots that were asked for: the initial
  -- allocation, or the block size where that is 0.
  pub init-IsValid_empty :
      (mem : ℕ → Bool) (alloc max block : ℕ)
      → alloc ≤ int_max
      → block ≤ int_max
      → (init mem (construct {V = V}) alloc max block).0 ≡ success
      → let t = (init mem (construct {V = V}) alloc max block).1 in
        IsValid t
        × (t.max_size ≡ max)
        × (t.size ≡ (if ltb 0 alloc then alloc else block))
        × ((j : ℕ) → item t j ≡ none)
  unfolding init construct
  init-IsValid_empty mem alloc max block ha hb e = elim (Bool-cases (ltb max block)) [
    | inl bad ↦ ground (arith, bad)
    | inr fine ↦
        let n = if ltb 0 alloc then alloc else block in
        elim (Bool-cases (mem (n * pointer_size))) [
          | inr refused ↦ ground (arith, fine, refused)
          | inl ok ↦
              rw (fine, ok)
                (
                  record {
                    measured = length-replicate n none;
                    counted = ap pos (sym (count_free-replicate V n));
                    small = ground arith;
                    bounded = omega arith;
                    used_below = λ i h. absurd (omega arith);
                    free_at = λ h. rw (entry-replicate V n 0);
                  },
                  refl,
                  refl,
                  entry-replicate V n,
                )
        ]
  ]
