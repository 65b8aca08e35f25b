-- ===== src/HashTable/Laws.antt =====
-- The comparison of keys is equality, for each of the three types of keys.
use libocoms.Prelude.{
  ℕ, ◌==◌, ◌≡◌, refl, sym, ap, ap₂, ◌∙◌, inl, inr, true, false, Bool-cases, List, [], ◌∷◌, arith,
  if◌then◌else◌,
}
use libocoms.HashTable.Keys.{same_bytes, methods_uint32, methods_uint64, methods_ptr}
use libocoms.HashTable.View.{IsKey}

same_number : (a b : ℕ) → (a == b) ≡ true → a ≡ b
same_number a b e = ground (arith, e)

number_same : (a b : ℕ) → a ≡ b → (a == b) ≡ true
number_same a b e = ground (arith, e)

pub methods_uint32-IsKey : IsKey methods_uint32
methods_uint32-IsKey = record { equal_iff = λ a b. (same_number a b, number_same a b) }

pub methods_uint64-IsKey : IsKey methods_uint64
methods_uint64-IsKey = record { equal_iff = λ a b. (same_number a b, number_same a b) }

bytes_same : (a b : List ℕ) → same_bytes a b ≡ true → a ≡ b
unfolding same_bytes
bytes_same [] [] e = refl
bytes_same [] (c ∷ cs) e = absurd (cc)
bytes_same (b ∷ bs) [] e = absurd (cc)
bytes_same (b ∷ bs) (c ∷ cs) e = elim (Bool-cases (b == c)) [
  | inl h ↦
      let rest : same_bytes bs cs ≡ true =
        sym (ap (λ t. if t then same_bytes bs cs else false) h) ∙ e in
      ap₂ (λ x xs. x ∷ xs) (same_number b c h) (bytes_same bs cs rest)
  | inr h ↦
      let no : false ≡ true = sym (ap (λ t. if t then same_bytes bs cs else false) h) ∙ e in
      absurd (cc)
]

same_self : (a : List ℕ) → same_bytes a a ≡ true
unfolding same_bytes
same_self [] = refl
same_self (b ∷ bs) = rw (number_same b b refl) (same_self bs)

pub methods_ptr-IsKey : IsKey methods_ptr
methods_ptr-IsKey = record {
  equal_iff = λ a b. (bytes_same a b, λ e. ap (same_bytes a) (sym e) ∙ same_self a);
}
