-- ===== src/Lib.antt =====
-- A verification library for libocoms, the Open Component Module Service (C sources under ocoms/).
--
-- libocoms is the layer of portable utilities under a modular component architecture: containers
-- and text helpers (ocoms/util), and the component, variable and datatype frameworks that are built
-- on them (ocoms/mca, ocoms/dstore, ocoms/datatype). This development models the containers and
-- helpers of ocoms/util and the life of frameworks and lists of components (ocoms/mca/base) as
-- functions and proves what they promise.
--
-- How code is modelled. A structure is a record and a function that changes it returns the new
-- record beside its result. A function whose C behaviour can be undefined, or that an assertion can
-- stop, returns `Exec` (Prelude.Outcome): `done` with the result, or a `fault` that names the cause.
-- An `int` that the code keeps nonnegative is a number, and its overflow is a fault (`int`) wherever
-- the code multiplies or adds without a bound; other signed values are integers (Prelude.Int).
-- Return codes are the data type of Status.antt (ocoms/platform/ocoms_constants.h). Memory comes
-- from a parameter that says which requests are served, so that the branches for a failed `malloc`,
-- `calloc`, `realloc` or `strdup` are part of the model. Locks span whole calls, so a call is one
-- step.
--
-- The modules.
--   Prelude (Tests, Lists, Outcome, Slots, Int), Status: shared names, list lemmas, faults, integers.
--   PointerArray: ocoms/util/ocoms_pointer_array.{c,h}. The record is `struct
--     ocoms_pointer_array_t`; `construct`, `init` and `grow_table` stand in PointerArray, and `add`,
--     `set_item`, `test_and_set_item`, `set_size`, `get_item` and `remove_all` in Calls, under the
--     names of the C functions without their prefix. Slots, Valid, Growth, Scan, Write: lemmas on
--     the slots, the invariant, growth and the restoring of `lowest_free`. Add, Items, Reserve: the
--     operations. Overruns: tables on which growth goes wrong.
--   Bitmap: ocoms/util/ocoms_bitmap.{c,h}, all operations. Bits: the bits of one byte, by evaluation
--     over all bytes. View: the abstract bits and the invariant. Bit, SetBit, FirstUnset, Limits: the
--     operations.
--   Argv: ocoms/util/argv.c. A `char **` is an optional list of slots, with `none` for NULL; the
--     functions have the names of the C functions without `ocoms_argv_`, those that delete and insert
--     in Edit, those that split and join in Text. Blocks: well-formed arrays and `realloc`. Moves: the
--     loops that move strings. Append, Delete, Insert, Join, Split, Rejoin:
--     the operations.
--   Environ: ocoms/util/ocoms_environ.c, on the arrays of Argv. `setenv`, `unsetenv` and `merge` are the
--     C functions without `ocoms_`; `entry` is what `asprintf` makes. Lookup: the value of a name.
--     Setting, Unsetting: the operations.
--   ComponentCompare: ocoms/mca/base/mca_base_component_compare.c, without the text form of a component.
--     Laws: orders, and comparing by one and then another. Order: the comparisons are orders. Signs: what
--     the sign of a comparison says.
--   Components: lists of components, ocoms/mca/base/mca_base_components_close.c; the requests for
--     components, `component_find` and `components_filter` of mca_base_component_find.c in Find, the
--     function `open_components` of mca_base_components_open.c in Open, mca_base_components_select.c in
--     Select. The components' own functions change a world of which nothing is known. Requests: what a
--     request means, on the arrays of Argv. Negations: its '^' in front and behind. Offers: what components offer to a selection. Filtering,
--     Finding, Opening, Best: the operations.
--   Framework: ocoms/mca/base/mca_base_framework.c, on Components for the closing and unloading of
--     lists; `framework_open` and `framework_close` stand in Open and Close. Calls: single calls when what
--     they call succeeds. Phases: sequences of calls. Errors: calls
--     of which a part fails.
--   ValueArray: ocoms/util/ocoms_value_array.{c,h}: the constructor, `init`, `reserve`, `set_size`,
--     `get_item`, `set_item`, `append_item`, `remove_item`. Growth: the doubling of the allocated items.
--   Crc: ocoms/util/crc.{c,h}: `crc_table`, the checks with and without copying, by words whose bytes
--     are read in either byte order. Buffers: the checks of whole buffers.
--   HashTable: ocoms/util/ocoms_hash_table.{c,h}. The element array is a list of optional pairs; the
--     operations on the three types of keys are one function each, over a record of the hash, the
--     comparison and the copying of keys (Keys, Laws). View, Valid: the map that an array stores, and
--     the invariant. Probe, Search, Write, Growth, Gap, Shift, Close: searching, storing, growing, and the
--     closing of the gap behind a removed element. Methods, Removal, Clear, Traversal, Full: the
--     operations. Refines: sequences of calls against a function from keys to values.
--   LinkedList: ocoms/util/ocoms_list.{c,h}, as compiled without OCOMS_ENABLE_DEBUG. The links of all
--     items and the lengths of all lists are the state; a list is the address of its sentinel. Segment,
--     Rings, Parts: chains of items, and putting one in or taking one out. Inserting, Indexed, Removing,
--     Moving, Joining, Sorting: the operations; `qsort` is a parameter. Deque: sequences of calls.
--   Lifo: ocoms/util/ocoms_atomic_lifo.h, with threads. `move` is one shared access of a thread, `run` a
--     schedule that names a thread for each step. Held: what each thread knows of the stack. Frame: what a
--     step leaves to the other threads. Commits: the steps at which pushes and pops take effect. Runs:
--     schedules.
--   VarEnum: ocoms/mca/base/mca_base_var_enum.c, without the dumps; `strtol` and `strcasecmp` are
--     parameters. Values: texts and values, from one to the other.
--   Each component's Tests: runs on concrete values, and its theorems at concrete inputs.
--
-- Bounds and fuel. `int` holds numbers below 2 ^ 31. The loop over the bits of a byte in
-- `ocoms_bitmap_find_and_set_first_unset_bit` has fuel 9, one more than the bits of the byte. The
-- loop of `ocoms_argv_split` has the length of the text as fuel, of which each round takes at least
-- one character; the doubling of a value array has fuel 64, more than the doublings from 1 to
-- 2 ^ 63. The probes of a hash table have its capacity as fuel, after which they would go round for
-- ever, and the scan behind a removed element `gap_rounds`; the loops over the items of a linked list
-- have its recorded length. Other loops recur on the rounds or slots that are left.
--
-- Not modelled: the other containers and helpers of ocoms/util (trees, graphs, free lists, command
-- lines, paths, additive checksums); the debugging checks of the linked lists; the loading of shared
-- objects and the registry of variables (the rest of ocoms/mca), ocoms/dstore and ocoms/datatype,
-- which call the dynamic loader, the environment and the hardware; threads and assembly (ocoms/sys,
-- ocoms/asm, ocoms/threads), whose compare-and-swap is one step of a thread here; messages to the
-- user, output streams and network interfaces;
-- the build system.
mod Prelude
mod Status
pub mod PointerArray
pub mod Bitmap
pub mod Argv
pub mod Environ
pub mod ComponentCompare
pub mod Components
pub mod Framework
pub mod ValueArray
pub mod Crc
pub mod HashTable
pub mod LinkedList
pub mod Lifo
pub mod VarEnum
