-- ===== src/PointerArray.antt =====
-- The growable table of pointers, ocoms/util/ocoms_pointer_array.{c,h}.
-- A stored `void *` is an `Option V`, with `none` for NULL. The `int` fields that the code keeps
-- nonnegative are numbers; `number_free`, which growing can take below zero, is an integer.
-- `mem` says which allocation requests, in bytes, `calloc` and `realloc` serve. Each call holds the
-- table's lock from its first access to its last, so a call is one step.
pub mod Calls
pub mod Slots
pub mod Valid
pub mod Scan
pub mod Add
pub mod Growth
pub mod Write
pub mod Items
pub mod Reserve
pub mod Overruns
mod Tests
use libocoms.Prelude.{
  ℕ, zero, suc, ◌+◌, ◌-◌, ◌*◌, ◌/◌, ◌==◌, ltb, leb, if◌then◌else◌, Bool, true, false, not, ◌&&◌,
  ◌||◌, Option, none, some, List, [], ◌++◌, take, drop, replicate, Exec, done, fault, overflow,
  null_pointer, ◌>>=◌, ◌>>◌, assert, int, load, store,
}
use libocoms.Prelude.Int.{ℤ, pos, negsuc, ◌+ℤ◌, ◌-ℤ◌, ltb_ℤ}
use libocoms.Status.{Status, success, error, out_of_resource, bad_param}

-- `struct ocoms_pointer_array_t`; `addr` is `none` for a NULL pointer
pub record PointerArray {ℓ} (V : Type ℓ) : Type ℓ where
  pub lowest_free : ℕ
  pub number_free : ℤ
  pub size : ℕ
  pub max_size : ℕ
  pub block_size : ℕ
  pub addr : Option (List (Option V))

abbrev pub int_max : ℕ
int_max = 0x7fff_ffff

-- OCOMS_FORTRAN_HANDLE_MAX, which configure.ac defines as 128
abbrev pub handle_max : ℕ
handle_max = 128

-- `sizeof(void *)`
abbrev pub pointer_size : ℕ
pointer_size = 8

abbrev pub table_init : ℕ
table_init = 1

abbrev pub table_grow : ℕ
table_grow = 2

abbrev pub is_zero : ℤ → Bool
is_zero (pos n) = n == 0
is_zero (negsuc n) = false

abbrev pub is_null {ℓ} : {V : Type ℓ} → Option V → Bool
is_null none = true
is_null (some _) = false

-- the size that `grow_table` settles on, or `none` where it gives up before allocating
pub new_size : (max soft hard : ℕ) → Option ℕ
new_size max soft hard =
    let chosen : Option ℕ =
      if ltb max soft then (if ltb max hard then none else some hard) else some soft in
    elim chosen [ none ↦ none | some n ↦ if leb max n then none else some n ]

-- the return value of `ocoms_pointer_array_add`: an index, or a (negative) error code
pub data Added : Type 0 where
  at : ℕ → Added
  failed : Status → Added

module _ {ℓ} {V : Type ℓ} where
  unfoldable pub construct : PointerArray V
  construct = record {
    lowest_free = 0;
    number_free = pos 0;
    size = 0;
    max_size = int_max;
    block_size = 0;
    addr = none;
  }

  -- `table->addr`, which an access dereferences
  abbrev pub slots : PointerArray V → Exec (List (Option V))
  slots t = elim t.addr [ none ↦ fault null_pointer | some xs ↦ done xs ]

  -- for (i = start; i < start + left; i++) if (NULL == addr[i]) { found i; break; }
  pub find_null : List (Option V) → (left start : ℕ) → Exec (Option ℕ)
  find_null xs zero i = done none
  find_null xs (suc left) i = elim (load xs i) [
    | fault e ↦ fault e
    | done none ↦ done (some i)
    | done (some _) ↦ find_null xs left (i + 1)
  ]

  -- the slots after `realloc` to `new` pointers, the new ones set to NULL
  pub resize : Option (List (Option V)) → (old new : ℕ) → List (Option V)
  resize none old new = replicate new none
  resize (some xs) old new = take new xs ++ replicate (new - old) none

  module _ (mem : ℕ → Bool) where
    -- The sum `lowest_free` is untouched: a constructed table has it at 0.
    unfoldable pub init :
        PointerArray V → (initial_allocation max_size block_size : ℕ) → Status × PointerArray V
    init t alloc max block =
        let n = if ltb 0 alloc then alloc else block in
        let t' : PointerArray V = record t {
          max_size = max;
          block_size = block;
          number_free = pos n;
          size = n;
          addr = none;
        } in
        if ltb max block
        then (bad_param, t)
        else if mem (n * pointer_size)
        then (success, record t' { addr = some (replicate n none) })
        else (out_of_resource, t')

    pub grow_table : PointerArray V → (soft hard : ℕ) → Bool × PointerArray V
    unfolding new_size resize
    grow_table t soft hard = elim (new_size t.max_size soft hard) [
      | none ↦ (false, t)
      | some n ↦
          if mem (n * pointer_size)
          then (
            true,
            record t {
              number_free = t.number_free +ℤ (pos n -ℤ pos t.size);
              addr = some (resize t.addr t.size n);
              size = n;
            },
          )
          else (false, t)
    ]
