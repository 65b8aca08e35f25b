-- ===== src/LinkedList.antt =====
-- The doubly linked lists of ocoms/util/ocoms_list.{c,h}, as they are without OCOMS_ENABLE_DEBUG. An
-- item, and the sentinel within a list, is an address; a list is the address of its sentinel. `NULL`
-- is `none`. `size_t` wraps at 2 ^ 64.
pub mod Segment
pub mod Rings
pub mod Inserting
pub mod Indexed
pub mod Removing
pub mod Parts
pub mod Moving
pub mod Joining
pub mod Sorting
pub mod Deque
mod Tests
use libocoms.Prelude.{
  ℕ, zero, suc, ◌+◌, ◌-◌, ◌%◌, ◌^◌, ◌==◌, ltb, leb, if◌then◌else◌, Bool, true, false, Option, none,
  some, List, [], ◌∷◌, length, Exec, done, fault, endless, null_pointer, ◌>>=◌,
}
use libocoms.Prelude.Int.{ℤ, pos, negsuc}
use libocoms.Status.{Status, success, out_of_resource}

-- The links of all items and the lengths of all lists; `item_free` is not used here but set to 1 once.
pub record Items : Type 0 where
  pub list_next : ℕ → Option ℕ
  pub list_prev : ℕ → Option ℕ
  pub list_length : ℕ → ℕ

abbrev pub written {ℓ} : {A : Type ℓ} → (ℕ → A) → ℕ → A → ℕ → A
written f i v j = if j == i then v else f j

abbrev pub set_next : Items → ℕ → Option ℕ → Items
set_next s i v = record s { list_next = written s.list_next i v }

abbrev pub set_prev : Items → ℕ → Option ℕ → Items
set_prev s i v = record s { list_prev = written s.list_prev i v }

abbrev pub set_length : Items → ℕ → ℕ → Items
set_length s l n = record s { list_length = written s.list_length l (n % 2 ^ 64) }

-- ocoms_list_length++ and --
abbrev pub one_more : Items → ℕ → Items
one_more s l = set_length s l (s.list_length l + 1)

abbrev pub one_less : Items → ℕ → Items
one_less s l = set_length s l (s.list_length l + (2 ^ 64 - 1))

-- the item that a pointer points to
abbrev pub item_at : Option ℕ → Exec ℕ
item_at none = fault null_pointer
item_at (some i) = done i

abbrev pub item_construct : Items → ℕ → Items
item_construct s i = set_prev (set_next s i none) i none

abbrev pub construct : Items → ℕ → Items
construct s l = set_length (set_prev (set_next s l (some l)) l (some l)) l 0

abbrev pub is_empty : Items → ℕ → Bool
is_empty s l = elim (s.list_next l) [ none ↦ false | some i ↦ i == l ]

abbrev pub get_first : Items → ℕ → Option ℕ
get_first s l = s.list_next l

abbrev pub get_last : Items → ℕ → Option ℕ
get_last s l = s.list_prev l

abbrev pub get_size : Items → ℕ → ℕ
get_size s l = s.list_length l

-- The item before the removed one is returned.
unfoldable pub remove_item : Items → (l i : ℕ) → Exec (Option ℕ × Items)
remove_item s l i = do
  p ← item_at (s.list_prev i)
  let s1 = set_next s p (s.list_next i)
  n ← item_at (s1.list_next i)
  let s2 = set_prev s1 n (s1.list_prev i)
  done (s2.list_prev i, one_less s2 l)

unfoldable pub append : Items → (l i : ℕ) → Exec Items
append s l i = do
  let s1 = set_prev s i (s.list_prev l)
  t ← item_at (s1.list_prev l)
  let s2 = set_next s1 t (some i)
  let s3 = set_next s2 i (some l)
  let s4 = set_prev s3 l (some i)
  done (one_more s4 l)

unfoldable pub prepend : Items → (l i : ℕ) → Exec Items
prepend s l i = do
  let s1 = set_next s i (s.list_next l)
  let s2 = set_prev s1 i (some l)
  h ← item_at (s2.list_next l)
  let s3 = set_prev s2 h (some i)
  let s4 = set_next s3 l (some i)
  done (one_more s4 l)

unfoldable pub remove_first : Items → (l : ℕ) → Exec (Option ℕ × Items)
remove_first s l = if s.list_length l == 0 then done (none, s) else (do
  let s1 = one_less s l
  i ← item_at (s1.list_next l)
  n ← item_at (s1.list_next i)
  let s2 = set_prev s1 n (s1.list_prev i)
  let s3 = set_next s2 l (s2.list_next i)
  done (some i, s3))

unfoldable pub remove_last : Items → (l : ℕ) → Exec (Option ℕ × Items)
remove_last s l = if s.list_length l == 0 then done (none, s) else (do
  let s1 = one_less s l
  i ← item_at (s1.list_prev l)
  p ← item_at (s1.list_prev i)
  let s2 = set_next s1 p (s1.list_next i)
  let s3 = set_prev s2 l (s2.list_prev i)
  done (some i, s3))

unfoldable pub insert_pos : Items → (l position i : ℕ) → Exec Items
insert_pos s l position i = do
  let s1 = set_next s i (some position)
  let s2 = set_prev s1 i (s1.list_prev position)
  p ← item_at (s2.list_prev position)
  let s3 = set_next s2 p (some i)
  let s4 = set_prev s3 position (some i)
  done (one_more s4 l)

-- ptr = ptr->ocoms_list_next, so many times; the `int` that counts them is taken not to overflow
unfoldable pub advance : Items → (steps ptr : ℕ) → Exec ℕ
advance s zero ptr = done ptr
advance s (suc steps) ptr = item_at (s.list_next ptr) >>= λ next. advance s steps next

-- the insertion behind the item `steps` behind the first
unfoldable pub insert_behind : Items → (l i steps : ℕ) → Exec Items
insert_behind s l i steps = do
  first ← item_at (s.list_next l)
  ptr ← advance s steps first
  next ← item_at (s.list_next ptr)
  let s1 = set_next s i (some next)
  let s2 = set_prev s1 i (some ptr)
  let s3 = set_prev s2 next (some i)
  done (set_next s3 ptr (some i))

unfoldable pub insert : Items → (l i : ℕ) → (idx : ℤ) → Exec (Bool × Items)
insert s l i (pos n) = if leb (s.list_length l) n then done (false, s) else (elim n [
  | zero ↦ prepend s l i >>= λ s'. done (true, one_more s' l)
  | suc steps ↦ insert_behind s l i steps >>= λ s'. done (true, one_more s' l)
])
insert s l i (negsuc _) = insert_behind s l i 0 >>= λ s'. done (true, one_more s' l)

-- [first, last) moves in front of `position`.
unfoldable pub transfer : Items → (position first last : ℕ) → Exec Items
transfer s position first last = if position == last then done s else (do
  e ← item_at (s.list_prev last)
  let s1 = set_next s e (some position)
  b ← item_at (s1.list_prev first)
  let s2 = set_next s1 b (some last)
  p ← item_at (s2.list_prev position)
  let s3 = set_next s2 p (some first)
  let tmp = s3.list_prev position
  let s4 = set_prev s3 position (s3.list_prev last)
  let s5 = set_prev s4 last (s4.list_prev first)
  done (set_prev s5 first tmp))

unfoldable pub join : Items → (this position x : ℕ) → Exec Items
join s this position x = if s.list_length x == 0 then done s else (do
  first ← item_at (get_first s x)
  s1 ← transfer s position first x
  let s2 = set_length s1 this (s1.list_length this + s1.list_length x)
  done (set_length s2 x 0))

-- for (tmp = first; tmp != last; tmp = next) change++, with the length of the list as fuel
unfoldable pub count_to : Items → (left tmp last : ℕ) → Exec ℕ
count_to s zero tmp last = if tmp == last then done 0 else fault endless
count_to s (suc left) tmp last = elim (tmp == last) [
  | true ↦ done 0
  | false ↦ item_at (s.list_next tmp) >>= λ next. count_to s left next last >>= λ n. done (n + 1)
]

unfoldable pub splice : Items → (this position x first last : ℕ) → Exec Items
splice s this position x first last = if first == last then done s else (do
  change ← count_to s (s.list_length x) first last
  s1 ← transfer s position first last
  let s2 = set_length s1 this (s1.list_length this + change)
  done (set_length s2 x (s2.list_length x + (2 ^ 64 - change % 2 ^ 64))))

-- while (NULL != (item = remove_first(list))), with the length of the list as fuel
unfoldable pub drain : Items → (l left : ℕ) → Exec (List ℕ × Items)
drain s l zero =
    remove_first s l >>= λ r. elim r.0 [ none ↦ done ([], r.1) | some i ↦ fault endless ]
drain s l (suc left) = remove_first s l >>= λ r. elim r.0 [
  | none ↦ done ([], r.1)
  | some i ↦ drain r.1 l left >>= λ rs. done (i ∷ rs.0, rs.1)
]

unfoldable pub append_all : Items → (l : ℕ) → List ℕ → Exec Items
append_all s l [] = done s
append_all s l (i ∷ is) = append s l i >>= λ s'. append_all s' l is

-- `qsort` with the comparison is a parameter, and so is whether memory for the array is served.
unfoldable pub sort :
    (malloc : ℕ → Bool) → (qsort : List ℕ → List ℕ) → Items → (l : ℕ) → Exec (Status × Items)
sort malloc qsort s l =
    if s.list_length l == 0
    then done (success, s)
    else if malloc (s.list_length l)
    then (do
      (items, s1) ← drain s l (s.list_length l)
      s2 ← append_all s1 l (qsort items)
      done (success, s2))
    else done (out_of_resource, s)
