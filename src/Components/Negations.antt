-- ===== src/Components/Negations.antt =====
-- `ocoms_mca_base_component_parse_requested` by the text of the request: the '^' in front and behind.
use libocoms.Prelude.{
  ℕ, zero, suc, ◌==◌, ◌≡◌, ◌≢◌, refl, ap, ◌∙◌, none, some, [], ◌∷◌, ◌++◌, replicate, done, arith,
  true, false, Returns,
}
use libocoms.Argv.{Str, Memory}
use libocoms.Argv.Blocks.{Plenty}
use libocoms.Argv.Split.{pieces, kept}
use libocoms.Components.Find.{negate, comma, skip_negates, has_negate, parse_requested}
use libocoms.Components.Requests.{includes, Names, parse_requested-Names}
use libocoms.Status.{success, error}

-- A text in which a character does not occur.
pub data Without (x : ℕ) : Str → Type 0 where
  nothing : Without x []
  other : {c : ℕ} {s : Str} → c ≢ x → Without x s → Without x (c ∷ s)

-- `k` times '^', and a text.
abbrev pub negated : ℕ → Str → Str
negated k s = replicate k negate ++ s

has_negate-Without : {s : Str} → Without negate s → has_negate s ≡ false
unfolding has_negate
has_negate-Without nothing = refl
has_negate-Without (other {c} ne h) = ground (arith, has_negate-Without h)

has_negate-inner : (a b : Str) → has_negate (a ++ negate ∷ b) ≡ true
unfolding has_negate
has_negate-inner [] b = refl
has_negate-inner (c ∷ a) b = ground (arith, has_negate-inner a b)

skip_negates-front : (k c : ℕ) (s : Str) → c ≢ negate → skip_negates (negated k (c ∷ s)) ≡ c ∷ s
unfolding skip_negates
skip_negates-front zero c s ne = ground arith
skip_negates-front (suc k) c s ne = skip_negates-front k c s ne

skip_negates-Without : (k : ℕ) {s : Str} → Without negate s → skip_negates (negated k s) ≡ s
unfolding skip_negates
skip_negates-Without zero nothing = refl
skip_negates-Without (suc k) nothing = skip_negates-Without k nothing
skip_negates-Without k (other {c} {s} ne h) = skip_negates-front k c s ne

includes-Without : (k : ℕ) {s : Str} → Without negate s → includes (negated k s) ≡ (k == 0)
unfolding includes
includes-Without zero nothing = refl
includes-Without zero (other {c} ne h) = ground arith
includes-Without (suc k) h = ground arith

includes-front : (k c : ℕ) (s : Str) → c ≢ negate → includes (negated k (c ∷ s)) ≡ (k == 0)
unfolding includes
includes-front zero c s ne = ground arith
includes-front (suc k) c s ne = ground arith

-- With memory, a request of `k` times '^' and then a text without '^' is read as the names of that text
-- that are not empty, taken in if `k` is 0 and left out otherwise. One with a '^' behind another
-- character is refused. NULL asks for every component.
pub parse_requested-negated :
    (mem : Memory) (k : ℕ) (s : Str) (c : ℕ) (a b : Str)
    → Plenty mem
    → Without negate s
    → c ≢ negate
    → Returns (parse_requested mem (some (negated k s))) (λ (ret, include_mode, names).
      (ret ≡ success) × (include_mode ≡ (k == 0)) × Names names (kept false (pieces comma s)))
      × (parse_requested mem (some (negated k (c ∷ (a ++ negate ∷ b))))
          ≡ done (error, k == 0, none))
      × (parse_requested mem none ≡ done (success, true, none))
parse_requested-negated mem k s c a b ok free ne =
    let inner = c ∷ (a ++ negate ∷ b) in
    let (_, read, _) = parse_requested-Names mem (negated k s) ok in
    let (refused, _, null) = parse_requested-Names mem (negated k inner) ok in
    let skipped = skip_negates-Without k free in
    let (names, ran, held) = read (ap has_negate skipped ∙ has_negate-Without free) in
    (
      (
        (success, includes (negated k s), names),
        ran,
        (refl, includes-Without k free, rw skipped at held),
      ),
      refused (
            ap has_negate (skip_negates-front k c (a ++ negate ∷ b) ne)
            ∙ has_negate-inner (c ∷ a) b)
          ∙ ap (λ m. done (error, m, none)) (includes-front k c (a ++ negate ∷ b) ne),
      null,
    )
