-- ===== src/Terminal/Sized.antt =====
-- The screens keep their rows and columns: what internal/termstate does to a row or a grid.
pub mod Screens
pub mod Commands
pub mod Bytes
use pomar.Prelude.{
  ℕ, zero, suc, ◌+◌, ◌-◌, ◌<◌, ◌≤◌, ◌≡◌, refl, ap, ◌∙◌, Bool, true, false, ◌&&◌, List, [], ◌∷◌,
  ◌++◌, ◌==◌, ltb, if◌then◌else◌, arith, Bool-cases, inl, inr, length, take, drop, replicate, map,
  length-append, length-take, length-drop, length-set, length-replicate, length-map,
}
use pomar.Terminal.{Cell, Row, Grid, Attr, plain, blank}
use pomar.Terminal.Rows.{
  set_cell, reblank, blank_at, clear_wide, mend, mend_from, shift_right, shift_left, fill,
}
use pomar.Terminal.Screen.{map_row, rows_up, rows_down}
use pomar.Terminal.Print.{put_char}
use pomar.Terminal.Edit.{erase_row, wipe_rows}
use pomar.Terminal.Resize.{cut_half, fit_row}

-- A choice between two rows of the same length.
choose_row :
    (b : Bool) (r s : Row) {n : ℕ} → length r ≡ n → length s ≡ n → length (if b then r else s) ≡ n
choose_row true r s e f = e
choose_row false r s e f = f

pub length-set_cell : (x : ℕ) (f : Cell → Cell) (r : Row) → length (set_cell x f r) ≡ length r
unfolding set_cell
length-set_cell x f [] = refl
length-set_cell zero f (c ∷ r) = refl
length-set_cell (suc x) f (c ∷ r) = ap suc (length-set_cell x f r)

length-blank_at : (r : Row) (x : ℕ) → length (blank_at r x) ≡ length r
unfolding blank_at
length-blank_at r x = length-set_cell x reblank r

pub length-clear_wide : (r : Row) (x : ℕ) → length (clear_wide r x) ≡ length r
unfolding clear_wide
length-clear_wide r x = ground (arith, length-blank_at r (x + 1), length-blank_at r (x - 1))

length-mend_from : (r : Row) (b : ℕ) → length (mend_from b r) ≡ length r
unfolding mend_from
length-mend_from [] b = refl
length-mend_from (c ∷ r) b = ap suc (length-mend_from r _)

pub length-mend : (r : Row) → length (mend r) ≡ length r
unfolding mend
length-mend r = length-mend_from r 1

pub length-shift_right : (x n : ℕ) (r : Row) → length (shift_right x n r) ≡ length r
unfolding shift_right
length-shift_right x n r = omega (
  arith,
  length-append (take (x + n) r) (take (length r - (x + n)) (drop x r)),
  length-take (x + n) r,
  length-take (length r - (x + n)) (drop x r),
  length-drop x r,
)

pub length-shift_left :
    (x n : ℕ) (r : Row) → x + n ≤ length r → length (shift_left x n r) ≡ length r
unfolding shift_left
length-shift_left x n r h = omega (
  arith,
  length-append (take x r ++ drop (x + n) r) (drop (length r - n) r),
  length-append (take x r) (drop (x + n) r),
  length-take x r,
  length-drop (x + n) r,
  length-drop (length r - n) r,
)

pub length-fill : (x n : ℕ) (c : Cell) (r : Row) → length (fill x n c r) ≡ length r
unfolding fill
length-fill x n c [] = refl
length-fill zero zero c (d ∷ r) = refl
length-fill zero (suc n) c (d ∷ r) = ap suc (length-fill zero n c r)
length-fill (suc x) n c (d ∷ r) = ap suc (length-fill x n c r)

pub length-put_char :
    (ins : Bool) (x w : ℕ) (s : List ℕ) (a : Attr) (r : Row)
    → length (put_char ins x w s a r) ≡ length r
unfolding put_char
length-put_char ins x w s a r =
    let e1 : length (if ins then shift_right x w r else r) ≡ length r =
      choose_row ins _ _ (length-shift_right x w r) refl in
    let e2 = length-clear_wide (if ins then shift_right x w r else r) x ∙ e1 in
    let e3 = choose_row (w == 2) _ _ (length-clear_wide _ (x + 1) ∙ e2) e2 in
    let e4 = length-set _ x (record { text = s; width = w; attr = a }) ∙ e3 in
    let e5 =
      choose_row (w == 2) _ _
        (length-set _ (x + 1) (record { text = []; width = 0; attr = a }) ∙ e4) e4 in
    choose_row ins _ _ (length-mend _ ∙ e5) e5

pub length-erase_row :
    (from to : ℕ) (a : Attr) (cols : ℕ) (r : Row) → length (erase_row from to a cols r) ≡ length r
unfolding erase_row
length-erase_row from to a cols r =
    length-fill from _ (blank a) _ ∙ length-clear_wide _ (to - 1) ∙ length-clear_wide r from

pub length-fit_row : (cols : ℕ) (r : Row) → length (fit_row cols r) ≡ cols
unfolding fit_row
length-fit_row cols r = elim (Bool-cases (ltb cols (length r))) [
  | inl e ↦
      rw (e, length-set_cell (cols - 1) cut_half (take cols r), length-take cols r) (ground arith)
  | inr e ↦
      rw
        (
          e,
          length-append r (replicate (cols - length r) (blank plain)),
          length-replicate (cols - length r) (blank plain),
        )
        (ground arith)
]

-- A grid of rows of the given length.
unfoldable pub rows_wide : ℕ → Grid → Bool
rows_wide n [] = true
rows_wide n (r ∷ g) = length r == n && rows_wide n g

rows_wide-cons :
    (n : ℕ) (r : Row) (g : Grid) → length r ≡ n → rows_wide n g ≡ true → rows_wide n (r ∷ g) ≡ true
unfolding rows_wide
rows_wide-cons n r g h i = ground arith

pub rows_wide-append :
    (n : ℕ) (g k : Grid) → rows_wide n g ≡ true → rows_wide n k ≡ true → rows_wide n (g ++ k) ≡ true
unfolding rows_wide
rows_wide-append n [] k h i = i
rows_wide-append n (r ∷ g) k h i = ground (arith, rows_wide-append n g k)

pub rows_wide-take : (n i : ℕ) (g : Grid) → rows_wide n g ≡ true → rows_wide n (take i g) ≡ true
unfolding rows_wide
rows_wide-take n zero g h = refl
rows_wide-take n (suc i) [] h = refl
rows_wide-take n (suc i) (r ∷ g) h = ground (arith, rows_wide-take n i g)

pub rows_wide-drop : (n i : ℕ) (g : Grid) → rows_wide n g ≡ true → rows_wide n (drop i g) ≡ true
unfolding rows_wide
rows_wide-drop n zero g h = h
rows_wide-drop n (suc i) [] h = refl
rows_wide-drop n (suc i) (r ∷ g) h = rows_wide-drop n i g (ground arith)

pub rows_wide-map_row :
    (n y : ℕ) (f : Row → Row) (g : Grid)
    → ((r : Row) → length r ≡ n → length (f r) ≡ n)
    → rows_wide n g ≡ true
    → rows_wide n (map_row y f g) ≡ true
unfolding rows_wide map_row
rows_wide-map_row n y f [] k h = refl
rows_wide-map_row n zero f (r ∷ g) k h = ground (arith, k r)
rows_wide-map_row n (suc y) f (r ∷ g) k h = ground (arith, rows_wide-map_row n y f g k)

pub rows_wide-map :
    (n m : ℕ) (f : Row → Row) (g : Grid)
    → ((r : Row) → length r ≡ n → length (f r) ≡ m)
    → rows_wide n g ≡ true
    → rows_wide m (map f g) ≡ true
unfolding rows_wide
rows_wide-map n m f [] k h = refl
rows_wide-map n m f (r ∷ g) k h = ground (arith, k r, rows_wide-map n m f g k)

pub rows_wide-fit : (m : ℕ) (g : Grid) → rows_wide m (map (fit_row m) g) ≡ true
unfolding rows_wide
rows_wide-fit m [] = refl
rows_wide-fit m (r ∷ g) = ground (arith, length-fit_row m r, rows_wide-fit m g)

pub rows_wide-replicate : (n k : ℕ) (r : Row) → length r ≡ n → rows_wide n (replicate k r) ≡ true
unfolding rows_wide
rows_wide-replicate n zero r h = refl
rows_wide-replicate n (suc k) r h = ground (arith, rows_wide-replicate n k r h)

pub rows_wide-wipe_rows :
    (n y k : ℕ) (a : Attr) (g : Grid)
    → rows_wide n g ≡ true
    → rows_wide n (wipe_rows y k a g) ≡ true
unfolding rows_wide wipe_rows
rows_wide-wipe_rows n y k a [] h = refl
rows_wide-wipe_rows n zero zero a (r ∷ g) h = h
rows_wide-wipe_rows n zero (suc k) a (r ∷ g) h =
    ground (arith, rows_wide-wipe_rows n zero k a g, length-map r (λ c. blank a))
rows_wide-wipe_rows n (suc y) k a (r ∷ g) h = ground (arith, rows_wide-wipe_rows n y k a g)

pub length-map_row : (y : ℕ) (f : Row → Row) (g : Grid) → length (map_row y f g) ≡ length g
unfolding map_row
length-map_row y f [] = refl
length-map_row zero f (r ∷ g) = refl
length-map_row (suc y) f (r ∷ g) = ap suc (length-map_row y f g)

pub length-wipe_rows : (y n : ℕ) (a : Attr) (g : Grid) → length (wipe_rows y n a g) ≡ length g
unfolding wipe_rows
length-wipe_rows y n a [] = refl
length-wipe_rows zero zero a (r ∷ g) = refl
length-wipe_rows zero (suc n) a (r ∷ g) = ap suc (length-wipe_rows zero n a g)
length-wipe_rows (suc y) n a (r ∷ g) = ap suc (length-wipe_rows y n a g)

-- `cols` columns and `rows` rows.
pub record IsGrid (cols rows : ℕ) (g : Grid) : Type 0 where
  pub tall : length g ≡ rows
  pub wide : rows_wide cols g ≡ true

pub rows_up-IsGrid :
    (cols rows top bot : ℕ) (r : Row) (g : Grid)
    → top ≤ bot
    → bot < rows
    → length r ≡ cols
    → IsGrid cols rows g
    → IsGrid cols rows (rows_up top bot r g)
unfolding rows_up
rows_up-IsGrid cols rows top bot r g p q l h = record {
  tall = omega (
    arith,
    h.tall,
    length-append (take top g ++ take (bot - top) (drop (top + 1) g)) (r ∷ drop (bot + 1) g),
    length-append (take top g) (take (bot - top) (drop (top + 1) g)),
    length-take top g,
    length-take (bot - top) (drop (top + 1) g),
    length-drop (top + 1) g,
    length-drop (bot + 1) g,
  );
  wide =
      rows_wide-append cols (take top g ++ take (bot - top) (drop (top + 1) g))
        (r ∷ drop (bot + 1) g)
        (rows_wide-append cols (take top g) (take (bot - top) (drop (top + 1) g))
          (rows_wide-take cols top g h.wide)
          (rows_wide-take cols (bot - top) (drop (top + 1) g)
            (rows_wide-drop cols (top + 1) g h.wide)))
        (rows_wide-cons cols r (drop (bot + 1) g) l (rows_wide-drop cols (bot + 1) g h.wide));
}

pub rows_down-IsGrid :
    (cols rows top bot : ℕ) (r : Row) (g : Grid)
    → top ≤ bot
    → bot < rows
    → length r ≡ cols
    → IsGrid cols rows g
    → IsGrid cols rows (rows_down top bot r g)
unfolding rows_down
rows_down-IsGrid cols rows top bot r g p q l h = record {
  tall = omega (
    arith,
    h.tall,
    length-append (take top g) (r ∷ (take (bot - top) (drop top g) ++ drop (bot + 1) g)),
    length-append (take (bot - top) (drop top g)) (drop (bot + 1) g),
    length-take top g,
    length-take (bot - top) (drop top g),
    length-drop top g,
    length-drop (bot + 1) g,
  );
  wide =
      rows_wide-append cols (take top g) (r ∷ (take (bot - top) (drop top g) ++ drop (bot + 1) g))
        (rows_wide-take cols top g h.wide)
        (rows_wide-cons cols r (take (bot - top) (drop top g) ++ drop (bot + 1) g) l (
          rows_wide-append cols (take (bot - top) (drop top g)) (drop (bot + 1) g)
            (rows_wide-take cols (bot - top) (drop top g) (rows_wide-drop cols top g h.wide))
            (rows_wide-drop cols (bot + 1) g h.wide)));
}
