-- ===== src/HashTable/Keys.antt =====
-- The three types of keys of a hash table.
use libocoms.Prelude.{
  ℕ, ◌+◌, ◌*◌, ◌%◌, ◌==◌, if◌then◌else◌, Bool, true, false, Option, none, Exec, List, [], ◌∷◌,
  length,
}
use libocoms.HashTable.{
  uint32, uint64, pointer, KeyMethods, size_limit, HashTable, get_value, set_value, remove_value,
  get_next_elt,
}
use libocoms.Status.{Status}

abbrev pub hash_multiplier : ℕ
hash_multiplier = 31

-- the loop of `ocoms_hash_hash_key_ptr`
unfoldable pub hash_bytes : (hash : ℕ) → List ℕ → ℕ
hash_bytes hash [] = hash
hash_bytes hash (b ∷ bs) = hash_bytes ((hash_multiplier * hash + b) % size_limit) bs

unfoldable pub hash_key_ptr : List ℕ → ℕ
hash_key_ptr key = hash_bytes 0 key

-- the same size, and `memcmp` 0
unfoldable pub same_bytes : List ℕ → List ℕ → Bool
same_bytes [] [] = true
same_bytes [] (c ∷ cs) = false
same_bytes (b ∷ bs) [] = false
same_bytes (b ∷ bs) (c ∷ cs) = if b == c then same_bytes bs cs else false

abbrev pub methods_uint32 : KeyMethods ℕ
methods_uint32 = record {
  kind = uint32;
  hash_elt = λ key. key;
  equal = λ a b. a == b;
  copy_served = λ malloc key. true;
}

abbrev pub methods_uint64 : KeyMethods ℕ
methods_uint64 = record {
  kind = uint64;
  hash_elt = λ key. key;
  equal = λ a b. a == b;
  copy_served = λ malloc key. true;
}

abbrev pub methods_ptr : KeyMethods (List ℕ)
methods_ptr = record {
  kind = pointer;
  hash_elt = hash_key_ptr;
  equal = same_bytes;
  copy_served = λ malloc key. malloc (length key);
}

module _ {V : Type 0} where
  abbrev pub get_value_uint32 :
      (debug : Bool) → HashTable ℕ V → ℕ → Exec (Status × Option V × HashTable ℕ V)
  get_value_uint32 = get_value methods_uint32

  abbrev pub set_value_uint32 :
      (debug : Bool)
      → (calloc malloc : ℕ → Bool) → HashTable ℕ V
      → ℕ
      → V
      → Exec (Status × HashTable ℕ V)
  set_value_uint32 = set_value methods_uint32

  abbrev pub remove_value_uint32 :
      (debug : Bool) → HashTable ℕ V → ℕ → Exec (Status × HashTable ℕ V)
  remove_value_uint32 = remove_value methods_uint32

  -- the node is the index of an element
  abbrev pub get_next_key_uint32 :
      HashTable ℕ V → (in_node : Option ℕ) → Exec (Option (ℕ × (ℕ × V)))
  get_next_key_uint32 = get_next_elt

  abbrev pub get_first_key_uint32 : HashTable ℕ V → Exec (Option (ℕ × (ℕ × V)))
  get_first_key_uint32 ht = get_next_key_uint32 ht none

  abbrev pub get_value_uint64 :
      (debug : Bool) → HashTable ℕ V → ℕ → Exec (Status × Option V × HashTable ℕ V)
  get_value_uint64 = get_value methods_uint64

  abbrev pub set_value_uint64 :
      (debug : Bool)
      → (calloc malloc : ℕ → Bool) → HashTable ℕ V
      → ℕ
      → V
      → Exec (Status × HashTable ℕ V)
  set_value_uint64 = set_value methods_uint64

  abbrev pub remove_value_uint64 :
      (debug : Bool) → HashTable ℕ V → ℕ → Exec (Status × HashTable ℕ V)
  remove_value_uint64 = remove_value methods_uint64

  -- the node is the index of an element
  abbrev pub get_next_key_uint64 :
      HashTable ℕ V → (in_node : Option ℕ) → Exec (Option (ℕ × (ℕ × V)))
  get_next_key_uint64 = get_next_elt

  abbrev pub get_first_key_uint64 : HashTable ℕ V → Exec (Option (ℕ × (ℕ × V)))
  get_first_key_uint64 ht = get_next_key_uint64 ht none

  abbrev pub get_value_ptr :
      (debug : Bool)
      → HashTable (List ℕ) V
      → List ℕ
      → Exec (Status × Option V × HashTable (List ℕ) V)
  get_value_ptr = get_value methods_ptr

  abbrev pub set_value_ptr :
      (debug : Bool)
      → (calloc malloc : ℕ → Bool) → HashTable (List ℕ) V
      → List ℕ
      → V
      → Exec (Status × HashTable (List ℕ) V)
  set_value_ptr = set_value methods_ptr

  abbrev pub remove_value_ptr :
      (debug : Bool) → HashTable (List ℕ) V → List ℕ → Exec (Status × HashTable (List ℕ) V)
  remove_value_ptr = remove_value methods_ptr

  -- the node is the index of an element
  abbrev pub get_next_key_ptr :
      HashTable (List ℕ) V → (in_node : Option ℕ) → Exec (Option (ℕ × (List ℕ × V)))
  get_next_key_ptr = get_next_elt

  abbrev pub get_first_key_ptr : HashTable (List ℕ) V → Exec (Option (ℕ × (List ℕ × V)))
  get_first_key_ptr ht = get_next_key_ptr ht none
