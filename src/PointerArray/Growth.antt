-- ===== src/PointerArray/Growth.antt =====
-- When `ocoms_pointer_array_add` finds or makes room.
use libocoms.Prelude.{
  ℕ, ◌*◌, ◌≤◌, ◌<◌, ◌≡◌, refl, if◌then◌else◌, true, false, Bool, some, done, Returns, arith,
  Bool-cases, inl, inr, ◌⊎◌, Option-cases, int,
}
use native.Mathlib.Decide.{ℕ_discrete, dec_lt}
use libocoms.PointerArray.{
  PointerArray, is_null, int_max, handle_max, table_init, table_grow, pointer_size, new_size,
  grow_table,
}
use libocoms.PointerArray.Calls.{make_room}
use libocoms.PointerArray.Slots.{count_free, used_of_no_free, no_free_of_used}
use libocoms.PointerArray.Valid.{
  IsValid, contents, item, grow_table-Grown, grow_table-refuses, grow_table-out_of_memory,
  unstored_size,
}

-- What `grow_table` settles on is below the limit, and is one of its two wishes.
pub new_size-eq-some :
    (max soft hard n : ℕ)
    → new_size max soft hard ≡ some n
    → (n < max) × ((n ≡ soft) ⊎ (n ≡ hard) × (max < soft))
unfolding new_size
new_size-eq-some max soft hard n e = ground arith

module _ {ℓ} {V : Type ℓ} where
  -- `t'` is `t`, perhaps grown, with a free slot where `lowest_free` says.
  pub record Room (t t' : PointerArray V) : Type ℓ where
    pub valid : IsValid t'
    pub fits : t'.lowest_free < t'.size
    pub same : t'.lowest_free ≡ t.lowest_free
    pub wider : t.size ≤ t'.size
    pub limit : t'.max_size ≡ t.max_size
    pub kept : (j : ℕ) → item t' j ≡ item t j

  -- Where growing on demand does what it should: there is memory or none was asked for yet, doubling
  -- stays within an `int`, and the hard limit of 128 does not lie between the size and its double.
  pub record CanGrow (t : PointerArray V) : Type ℓ where
    pub started : (is_null t.addr ≡ true) ⊎ (0 < t.size)
    pub in_int : t.size * 2 ≤ int_max
    pub no_shrink : (t.size < handle_max) ⊎ (t.size * 2 ≤ t.max_size) ⊎ (t.max_size ≤ handle_max)

  abbrev soft_limit : PointerArray V → ℕ
  soft_limit t = if is_null t.addr then table_init else t.size * table_grow

  soft_int :
      (t : PointerArray V)
      → CanGrow t
      → (if is_null t.addr then done table_init else int (t.size * table_grow))
        ≡ done (soft_limit t)
  soft_int t g = ground (arith, g.in_int)

  grown_lt :
      (t : PointerArray V) (n : ℕ)
      → IsValid t
      → t.max_size ≤ int_max
      → CanGrow t
      → new_size t.max_size (soft_limit t) handle_max ≡ some n
      → (t.size < n) × (n ≤ int_max)
  grown_lt t n v m g e = ground (
    arith,
    new_size-eq-some t.max_size (soft_limit t) handle_max n,
    g.started,
    g.no_shrink,
    unstored_size t v.measured,
  )

  pub free_of_count :
      (t : PointerArray V) → IsValid t → 0 < count_free (contents t) → t.lowest_free < t.size
  free_of_count t v h = elim (dec_lt t.lowest_free t.size) [
    | yes p ↦ p
    | no p ↦ absurd (
        omega (
          arith,
          no_free_of_used (contents t)
              (λ i q. v.used_below i (omega (arith, v.measured, v.bounded))),
        ))
  ]

  -- `ocoms_pointer_array_add` gives up on `t`, having found every slot in use.
  abbrev pub Full : PointerArray V → Type 0
  Full t = (i : ℕ) → i < t.size → is_null (item t i) ≡ false

  pub make_room-Room :
      (mem : ℕ → Bool) (t : PointerArray V)
      → IsValid t
      → t.max_size ≤ int_max
      → CanGrow t
      → Returns
          (make_room mem t)
          λ r. ((r.0 ≡ false) × (r.1 ≡ t) × Full t) ⊎ ((r.0 ≡ true) × Room t r.1)
  unfolding make_room
  make_room-Room mem t v m g = elim (ℕ_discrete (count_free (contents t)) 0) [
    | no ne ↦ (
      (true, t),
      ground (arith, v.counted),
      inr (
        refl,
        record {
          valid = v;
          fits = free_of_count t v (omega arith);
          same = refl;
          wider = omega arith;
          limit = refl;
          kept = λ j. refl;
        },
      ),
    )
    | yes e ↦
        let full : Full t = λ i p. used_of_no_free (contents t) i e (rw v.measured p) in
        let soft = soft_limit t in
        elim (Option-cases (new_size t.max_size soft handle_max)) [
          | inl stop ↦ (
            (false, t),
            ground (arith, v.counted, soft_int t g, grow_table-refuses mem t soft handle_max stop),
            inl (refl, refl, full),
          )
          | inr (n, go) ↦
              let wide = grown_lt t n v m g go in
              elim (Bool-cases (mem (n * pointer_size))) [
                | inl ok ↦
                    let r = grow_table-Grown mem t soft handle_max n v go (omega arith) wide.1 ok in
                    (
                      grow_table mem t soft handle_max,
                      ground (arith, v.counted, soft_int t g),
                      inr (
                        r.0,
                        record {
                          valid = r.1.valid;
                          fits = omega (arith, v.bounded, r.1.lowest, r.1.sized, wide);
                          same = r.1.lowest;
                          wider = omega (arith, r.1.sized, wide);
                          limit = r.1.limit;
                          kept = r.1.kept;
                        },
                      ),
                    )
                | inr bad ↦ (
                  (false, t),
                  ground (
                    arith,
                    v.counted,
                    soft_int t g,
                    grow_table-out_of_memory mem t soft handle_max n go bad,
                  ),
                  inl (refl, refl, full),
                )
              ]
        ]
  ]
