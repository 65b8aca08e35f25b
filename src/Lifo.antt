-- ===== src/Lifo.antt =====
-- The lock-free stack, ocoms/util/ocoms_atomic_lifo.h, as compiled with OCOMS_ENABLE_MULTI_THREADS.
-- Threads push and pop items, one shared access at a time, in any order. Pointers are numbers. A
-- thread has at most one item in hand, and pushes it in its next call; without one its next call is a
-- pop. The barriers order the accesses as they are written here.
mod Held
mod Frame
mod Commits
mod Runs
mod Tests
use libocoms.Prelude.{
  ℕ, zero, suc, ◌==◌, if◌then◌else◌, Bool, true, false, Option, none, some, List, [], ◌∷◌, ◌||◌,
}

-- NULL, and `&lifo->ocoms_lifo_ghost`; items have other addresses
abbrev pub null : ℕ
null = 0

abbrev pub ghost : ℕ
ghost = 1

pub record Lifo : Type 0 where
  pub lifo_head : ℕ
  pub list_next : ℕ → ℕ
  pub item_free : ℕ → ℕ

abbrev pub put : {A : Type 0} → (ℕ → A) → ℕ → A → ℕ → A
put f i v j = if j == i then v else f j

-- the constructor, with that of the ghost item
unfoldable pub construct : Lifo → Lifo
construct m = record {
  lifo_head = ghost;
  list_next = put m.list_next ghost ghost;
  item_free = put m.item_free ghost 1;
}

-- the result of `ocoms_atomic_lifo_is_empty`
unfoldable pub is_empty : Lifo → Bool
is_empty m = m.lifo_head == ghost

-- Where a thread stands, with the local variables that are live there.
pub data Pc : Type 0 where
  idle : Pc  -- without an item
  holds : (item : ℕ) → Pc  -- with an item in hand
  pushing : (item : ℕ) → Pc  -- before the read of the head in `push`
  got_head : (item head : ℕ) → Pc
  linked : (item : ℕ) → Pc  -- before the compare-and-swap of the head
  won : (item : ℕ) → Pc  -- before that of `item_free`
  returning : (item : ℕ) → Pc  -- before the read of the result
  pushed : (result : ℕ) → Pc
  popping : Pc  -- before the read of the head in `pop`
  seen : (item : ℕ) → Pc  -- before the compare-and-swap of `item_free`
  locked : (item : ℕ) → Pc  -- before the read of the next item
  has_next : (item next : ℕ) → Pc  -- before the compare-and-swap of the head
  failed : (item : ℕ) → Pc  -- before `item_free` is set back
  popped : (item : ℕ) → Pc  -- before the link is cleared

-- ocoms_atomic_cmpset_32 (&item->item_free, old, new)
abbrev pub cmpset_free : Lifo → (item old new : ℕ) → Lifo
cmpset_free m item old new =
    if m.item_free item == old then record m { item_free = put m.item_free item new } else m

-- one access of `ocoms_atomic_lifo_push` or `ocoms_atomic_lifo_pop`
unfoldable pub move : Lifo → Pc → Lifo × Pc
move m idle = (m, popping)
move m (holds item) = (m, pushing item)
move m (pushing item) = (m, got_head item m.lifo_head)
move m (got_head item head) = (record m { list_next = put m.list_next item head }, linked item)
move m (linked item) =
    if m.lifo_head == m.list_next item
    then (record m { lifo_head = item }, won item)
    else (m, pushing item)
move m (won item) = (cmpset_free m item 1 0, returning item)
move m (returning item) = (m, pushed (m.list_next item))
move m (pushed result) = (m, idle)
move m popping = if m.lifo_head == ghost then (m, idle) else (m, seen m.lifo_head)
move m (seen item) =
    if m.item_free item == 0 then (cmpset_free m item 0 1, locked item) else (m, popping)
move m (locked item) = (m, has_next item (m.list_next item))
move m (has_next item next) =
    if m.lifo_head == item then (record m { lifo_head = next }, popped item) else (m, failed item)
move m (failed item) = (cmpset_free m item 1 0, popping)
move m (popped item) = (record m { list_next = put m.list_next item null }, holds item)

pub record System : Type 0 where
  pub mem : Lifo
  pub pc : ℕ → Pc

-- One step of a thread, and the steps of a schedule, which names a thread for each.
unfoldable pub step : ℕ → System → System
step t s = let (m, p) = move s.mem (s.pc t) in record { mem = m; pc = put s.pc t p }

unfoldable pub run : List ℕ → System → System
run [] s = s
run (t ∷ ts) s = run ts (step t s)
