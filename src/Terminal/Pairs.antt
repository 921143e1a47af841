-- ===== src/Terminal/Pairs.antt =====
-- `mend` of internal/termstate/terminal.go: halves of wide characters.
use pomar.Prelude.{ℕ, ◌≡◌, refl, Bool, true, false, ◌&&◌, ◌||◌, not, [], ◌∷◌, ◌==◌, arith}
use mathlib.Core.Path.{subst}
use mathlib.Core.Logic.{◌↔◌}
use pomar.Terminal.{Row, blank}
use pomar.Terminal.Rows.{mend, mend_from, mend_cell}

-- Each first half stands before a second one, and each second half after a first one.
abbrev starts_half : Row → Bool
starts_half [] = false
starts_half (c ∷ r) = c.width == 0

unfoldable pub paired_from : ℕ → Row → Bool
paired_from before [] = true
paired_from before (c ∷ r) =
    (not (c.width == 2) || starts_half r)
    && (not (c.width == 0) || before == 2)
    && paired_from c.width r

unfoldable pub paired : Row → Bool
unfolding paired_from
paired r = paired_from 1 r

mend_from-paired : (before : ℕ) (r : Row) → paired_from before (mend_from before r) ≡ true
unfolding mend_from mend_cell paired_from blank
mend_from-paired before [] = refl
mend_from-paired before (c ∷ []) = ground arith
mend_from-paired before (c ∷ d ∷ r) =
    ground (arith, mend_from-paired (mend_cell before c (d ∷ r)).width (d ∷ r))

paired-mend_from : (before : ℕ) (r : Row) → paired_from before r ≡ true → mend_from before r ≡ r
unfolding mend_from mend_cell paired_from blank
paired-mend_from before [] h = refl
paired-mend_from before (c ∷ []) h = ground arith
paired-mend_from before (c ∷ d ∷ r) h = ground (arith, paired-mend_from c.width (d ∷ r))

-- `mend` leaves a row in which every first half of a wide character stands before a second half and
-- every second half after a first one, and it changes a row only where one of them does not.
pub mend-paired : (r : Row) → (paired (mend r) ≡ true) × (mend r ≡ r ↔ paired r ≡ true)
unfolding mend paired
mend-paired r = (
  mend_from-paired 1 r,
  ((λ e. subst (λ s. paired_from 1 s ≡ true) e (mend_from-paired 1 r)), paired-mend_from 1 r),
)
