-- ===== src/Terminal/Sgr.antt =====
-- Select Graphic Rendition: internal/termstate/sgr.go.
use pomar.Prelude.{
  ℕ, zero, suc, ◌+◌, ◌-◌, Bool, true, false, ◌&&◌, ◌||◌, not, List, [], ◌∷◌, Option, none, some,
  leb, ltb, ◌==◌, if◌then◌else◌,
}
use pomar.Prelude.Int.{ℤ, pos, negsuc}
use pomar.Terminal.{Color, default, indexed, rgb, Flags, Attr, plain}
use pomar.Terminal.Text.{split_on, text_eq, has_byte, Number, atoi}

-- `atoiByte`
unfoldable pub atoi_byte : List ℕ → Option ℕ
atoi_byte s =
    if (atoi s).valid
    then elim (atoi s).value [ pos n ↦ if ltb 255 n then none else some n | negsuc n ↦ none ]
    else none

abbrev all_three : Option ℕ → Option ℕ → Option ℕ → Option Color
all_three (some r) (some g) (some b) = some (rgb r g b)
all_three _ _ _ = none

-- `semicolonColor`: the colour, the default one where a number is wrong, and the fields used.
unfoldable pub semicolon_color : List (List ℕ) → Color × ℕ
semicolon_color [] = (default, 0)
semicolon_color (k ∷ []) = (default, 0)
semicolon_color (k ∷ n ∷ []) =
    if text_eq k (b'5' ∷ [])
    then (elim (atoi_byte n) [ some c ↦ indexed c | none ↦ default ], 2)
    else (default, 0)
semicolon_color (k ∷ n ∷ g ∷ []) =
    if text_eq k (b'5' ∷ [])
    then (elim (atoi_byte n) [ some c ↦ indexed c | none ↦ default ], 2)
    else (default, 0)
semicolon_color (k ∷ n ∷ g ∷ b ∷ _) =
    if text_eq k (b'5' ∷ [])
    then (elim (atoi_byte n) [ some c ↦ indexed c | none ↦ default ], 2)
    else if text_eq k (b'2' ∷ [])
    then (
      elim (all_three (atoi_byte n) (atoi_byte g) (atoi_byte b)) [ some c ↦ c | none ↦ default ],
      4,
    )
    else (default, 0)

abbrev three_fields : List (List ℕ) → Option Color
three_fields (r ∷ g ∷ b ∷ _) = all_three (atoi_byte r) (atoi_byte g) (atoi_byte b)
three_fields _ = none

-- `colonColor`: a colour-space identity may stand before the three numbers.
unfoldable pub colon_color : List (List ℕ) → Option Color
colon_color [] = none
colon_color (k ∷ []) = none
colon_color (k ∷ n ∷ rest) =
    if text_eq k (b'5' ∷ [])
    then elim (atoi_byte n) [ some c ↦ some (indexed c) | none ↦ none ]
    else if text_eq k (b'2' ∷ [])
    then elim rest [
      | [] ↦ none
      | g ∷ [] ↦ none
      | g ∷ b ∷ [] ↦ three_fields (n ∷ g ∷ b ∷ [])
      | g ∷ b ∷ x ∷ more ↦ three_fields (g ∷ b ∷ x ∷ more)
    ]
    else none

abbrev flagged : Attr → Flags → Attr
flagged a f = record a { flags = f }

-- One code that stands for itself.
unfoldable pub apply_code : ℕ → Attr → Attr
apply_code n a =
    if n == 0
    then plain
    else if n == 1
    then flagged a (record a.flags { bold = true })
    else if n == 2
    then flagged a (record a.flags { dim = true })
    else if n == 3
    then flagged a (record a.flags { italic = true })
    else if n == 4
    then flagged a (record a.flags { underline = true })
    else if n == 5 || n == 6
    then flagged a (record a.flags { blink = true })
    else if n == 7
    then flagged a (record a.flags { reverse = true })
    else if n == 8
    then flagged a (record a.flags { hidden = true })
    else if n == 9
    then flagged a (record a.flags { strike = true })
    else if n == 21
    then flagged a (record a.flags { underline = true })
    else if n == 22
    then flagged a (record a.flags { bold = false; dim = false })
    else if n == 23
    then flagged a (record a.flags { italic = false })
    else if n == 24
    then flagged a (record a.flags { underline = false })
    else if n == 25
    then flagged a (record a.flags { blink = false })
    else if n == 27
    then flagged a (record a.flags { reverse = false })
    else if n == 28
    then flagged a (record a.flags { hidden = false })
    else if n == 29
    then flagged a (record a.flags { strike = false })
    else if leb 30 n && leb n 37
    then record a { fg = indexed (n - 30) }
    else if n == 39
    then record a { fg = default }
    else if leb 40 n && leb n 47
    then record a { bg = indexed (n - 40) }
    else if n == 49
    then record a { bg = default }
    else if leb 90 n && leb n 97
    then record a { fg = indexed (n - 90 + 8) }
    else if leb 100 n && leb n 107
    then record a { bg = indexed (n - 100 + 8) }
    else a

abbrev is_color_code : ℕ → Bool
is_color_code n = n == 38 || n == 48 || n == 58

abbrev put_color : ℕ → Color → Attr → Attr
put_color n c a =
    if n == 38 then record a { fg = c } else if n == 48 then record a { bg = c } else a

-- A field without sub-parameters, and the fields after it: the rendition, and how many it used.
unfoldable pub plain_field : ℤ → List (List ℕ) → Attr → Attr × ℕ
plain_field (negsuc n) rest a = (a, 0)
plain_field (pos n) rest a =
    if is_color_code n
    then (let used = (semicolon_color rest).1 in
        (if ltb 0 used then put_color n (semicolon_color rest).0 a else a, used))
    else (apply_code n a, 0)

abbrev first_field : List (List ℕ) → List ℕ
first_field [] = []
first_field (f ∷ fs) = f

abbrev rest_fields : List (List ℕ) → List (List ℕ)
rest_fields [] = []
rest_fields (f ∷ fs) = fs

abbrev is_zero_style : List (List ℕ) → Bool
is_zero_style [] = false
is_zero_style (f ∷ _) = text_eq f (b'0' ∷ [])

-- A field with sub-parameters.
unfoldable pub colon_field : ℤ → List (List ℕ) → List (List ℕ) → Attr → Attr × ℕ
unfolding plain_field
colon_field (negsuc n) sub rest a = (a, 0)
colon_field (pos n) sub rest a =
    if is_color_code n
    then (elim (colon_color (rest_fields sub)) [ some c ↦ put_color n c a | none ↦ a ], 0)
    else if n == 4
    then (flagged a (record a.flags { underline = not (is_zero_style (rest_fields sub)) }), 0)
    else plain_field (pos n) rest a

unfoldable pub code_of : Number → ℤ
code_of n = if n.valid then n.value else pos 0

unfoldable pub field : List ℕ → List (List ℕ) → Attr → Attr × ℕ
unfolding colon_field plain_field code_of
field f rest a =
    if has_byte b':' f
    then colon_field (code_of (atoi (first_field (split_on b':' f)))) (split_on b':' f) rest a
    else plain_field (code_of (atoi f)) rest a

-- The loop over the fields, which skips those that a colour has used.
unfoldable pub fields : ℕ → List (List ℕ) → Attr → Attr
unfolding field
fields skip [] a = a
fields (suc k) (f ∷ fs) a = fields k fs a
fields zero (f ∷ fs) a = fields (field f fs a).1 fs (field f fs a).0

-- `sgr`
unfoldable pub sgr : List ℕ → List ℕ → Attr → Attr
unfolding fields
sgr [] raw a = plain
sgr (p ∷ ps) raw a = fields 0 (split_on b';' raw) a
