-- ===== src/Components/Requests.antt =====
-- What a request for components means: a list of names, and whether they are included or excluded.
use libocoms.Prelude.{
  ℕ, zero, suc, ◌≤◌, ◌==◌, ◌≡◌, refl, sym, ap, ◌∙◌, inl, inr, Option, none, some, List, [], ◌∷◌,
  length, done, arith, true, false, Bool, not, ◌&&◌, ◌||◌, if◌then◌else◌, Bool-cases, Returns,
}
use libocoms.Argv.{Str, Argv, Memory, strcmp_eq}
use libocoms.Argv.Text.{scan, split_round, split_loop, split, split_inter}
use libocoms.Argv.Blocks.{block, Holds, null, points, Plenty}
use libocoms.Argv.Split.{pieces, kept, add_char, split-Holds}
use libocoms.Components.{Library}
use libocoms.Components.Find.{
  negate, comma, skip_negates, has_negate, parse_requested, find_name, use_component, is_found,
  find_check_slots, component_find_check,
}
use libocoms.Status.{success, error, not_found}

-- The names of a request, and whether it includes them.
abbrev pub names_of : Str → List Str
names_of s = kept false (pieces comma (skip_negates s))

unfoldable pub includes : Str → Bool
includes [] = true
includes (c ∷ s) = not (c == negate)

unfoldable pub member : Str → List Str → Bool
member name [] = false
member name (w ∷ ws) = strcmp_eq name w || member name ws

-- A request without names leaves every component; another one those it names, or all others.
unfoldable pub wanted : Bool → List Str → Str → Bool
wanted include [] name = true
wanted true (w ∷ ws) name = member name (w ∷ ws)
wanted false (w ∷ ws) name = not (member name (w ∷ ws))

-- A list of names as `parse_requested` gives it: NULL when there is none.
pub data Names : Option Argv → List Str → Type 0 where
  no_names : Names none []
  some_names : (w : Str) (ws : List Str) (rest : Argv) → Names (some (block (w ∷ ws) rest)) (w ∷ ws)

Holds-Names : {r : Option Argv} {ws : List Str} → Holds r ws → (ws ≡ [] → r ≡ none) → Names r ws
Holds-Names null h = no_names
Holds-Names (points [] rest) h = absurd (some-none (h refl))
  where
    some-none : some (block [] rest) ≡ none → ⊥
    some-none e = cc
Holds-Names (points (w ∷ ws) rest) h = some_names w ws rest

add_char-kept : (c : ℕ) (ws : List Str) → kept false (add_char c ws) ≡ [] → ⊥
unfolding kept add_char
add_char-kept c [] e = cc
add_char-kept c (w ∷ ws) e = cc

-- A text of nothing but delimiters leaves NULL.
split_loop-null :
    (mem : Memory) (delim fuel : ℕ) (s : Str) (n : ℕ)
    → length s ≤ fuel
    → kept false (pieces delim s) ≡ []
    → split_loop mem fuel s delim false n none ≡ done none
unfolding split_loop split_round scan pieces kept
split_loop-null mem delim zero [] n size e = refl
split_loop-null mem delim (suc fuel) [] n size e = refl
split_loop-null mem delim zero (c ∷ s) n size e = absurd (omega arith)
split_loop-null mem delim (suc fuel) (c ∷ s) n size e = elim (Bool-cases (c == delim)) [
  | inl t ↦ rw t (
      split_loop-null mem delim fuel s n (omega arith) (
        sym
          (ap (λ b. kept false (if b then [] ∷ pieces delim s else add_char c (pieces delim s))) t)
        ∙ e))
  | inr f ↦ absurd (
      add_char-kept c (pieces delim s) (
        sym
          (ap (λ b. kept false (if b then [] ∷ pieces delim s else add_char c (pieces delim s))) f)
        ∙ e))
]

split-Names :
    (mem : Memory) (s : Str)
    → Plenty mem
    → Returns (split mem (some s) comma) (λ r. Names r (kept false (pieces comma s)))
unfolding split split_inter
split-Names mem s ok =
    let (r, ran, held) = (split-Holds mem s comma ok).0 in
    (
      r,
      ran,
      Holds-Names held
          (λ e. done-inj (sym ran ∙ split_loop-null mem comma (length s) s 0 (omega arith) e)),
    )
  where
    done-inj : {x y : Option Argv} → done x ≡ done y → x ≡ y
    done-inj e = cc

-- With memory, a request with a negation behind its front is refused, and of every other the list of
-- names that are not empty and the mode are found; NULL and the empty text ask for every component.
pub parse_requested-Names :
    (mem : Memory) (s : Str)
    → Plenty mem
    → (has_negate (skip_negates s) ≡ true
        → parse_requested mem (some s) ≡ done (error, includes s, none))
      × (has_negate (skip_negates s) ≡ false
          → (names : Option Argv) × (parse_requested mem (some s)
              ≡ done (success, includes s, names))
            × Names names (names_of s))
      × (parse_requested mem none ≡ done (success, true, none))
unfolding parse_requested includes has_negate skip_negates kept pieces
parse_requested-Names mem [] ok =
    (λ e. absurd (none-negate e), λ _. (none, refl, no_names-empty), refl)
  where
    none-negate : has_negate (skip_negates []) ≡ true → ⊥
    none-negate e = cc

    no_names-empty : Names none (names_of [])
    no_names-empty = no_names
parse_requested-Names mem (c ∷ s) ok = (
  λ e. rw e refl,
  λ e.
      let (r, ran, held) = split-Names mem (skip_negates (c ∷ s)) ok in (r, rw (e, ran) refl, held),
  refl,
)

find_name-block :
    (name : Str) (ss : List Str) (rest : Argv)
    → find_name (block ss rest) name ≡ done (member name ss)
unfolding find_name member
find_name-block name [] rest = refl
find_name-block name (s ∷ ss) rest = rw (find_name-block name ss rest) (ground arith)

-- On a parsed request `use_component` is the description above.
pub use_component-wanted :
    (include : Bool) (name : Str) {names : Option Argv} {ws : List Str}
    → Names names ws
    → use_component include names name ≡ done (wanted include ws name)
unfolding use_component wanted
use_component-wanted include name no_names = refl
use_component-wanted true name (some_names w ws rest) =
    rw (find_name-block name (w ∷ ws) rest) (and-or (member name (w ∷ ws)))
  where
    and-or : (b : Bool) → done ((true && b) || not (true || b)) ≡ done b
    and-or true = refl
    and-or false = refl
use_component-wanted false name (some_names w ws rest) =
    rw (find_name-block name (w ∷ ws) rest) refl

-- Whether every name is that of a component of the list.
unfoldable pub all_found : {W : Type 0} → Library W → List Str → List ℕ → Bool
all_found lib [] cs = true
all_found lib (w ∷ ws) cs = is_found lib w cs && all_found lib ws cs

find_check_slots-block :
    {W : Type 0} (lib : Library W) (ss : List Str) (rest : Argv) (cs : List ℕ)
    → find_check_slots lib (block ss rest) cs
      ≡ done (if all_found lib ss cs then success else not_found)
unfolding find_check_slots all_found
find_check_slots-block lib [] rest cs = refl
find_check_slots-block lib (s ∷ ss) rest cs =
    rw (find_check_slots-block lib ss rest cs) (ground arith)

pub component_find_check-Names :
    {W : Type 0} (lib : Library W) (cs : List ℕ) {names : Option Argv} {ws : List Str}
    → Names names ws
    → component_find_check lib names cs ≡ done (if all_found lib ws cs then success else not_found)
unfolding component_find_check all_found
component_find_check-Names lib cs no_names = refl
component_find_check-Names lib cs (some_names w ws rest) =
    find_check_slots-block lib (w ∷ ws) rest cs
