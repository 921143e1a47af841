-- ===== src/Terminal/Utf8.antt =====
-- Decoding UTF-8: what internal/termstate uses of Go's package unicode/utf8, over bytes.
use pomar.Prelude.{
  ℕ, zero, suc, ◌+◌, ◌-◌, ◌*◌, ◌%◌, Bool, false, ◌&&◌, ◌||◌, not, List, [], ◌∷◌, leb, ltb, ◌==◌,
  if◌then◌else◌, length,
}

abbrev pub rune_error : ℕ
rune_error = 0xfffd

abbrev pub within : ℕ → ℕ → ℕ → Bool
within lo hi c = leb lo c && leb c hi

-- The bytes that a first byte calls for, 1 where it begins nothing valid.
unfoldable pub rune_size : ℕ → ℕ
rune_size c =
    if within 0xc2 0xdf c
    then 2
    else if within 0xe0 0xef c
    then 3
    else if within 0xf0 0xf4 c
    then 4
    else 1

-- The second bytes that a first byte accepts.
unfoldable pub accepts : ℕ → ℕ → Bool
accepts c d =
    within (if c == 0xe0 then 0xa0 else if c == 0xf0 then 0x90 else 0x80)
      (if c == 0xed then 0x9f else if c == 0xf4 then 0x8f else 0xbf) d

abbrev pub is_continuation : ℕ → Bool
is_continuation c = within 0x80 0xbf c

-- utf8.FullRune: a rune, valid or not, can be decoded.
unfoldable pub full_rune : List ℕ → Bool
full_rune [] = false
full_rune (c ∷ s) = leb (rune_size c) (length (c ∷ s)) || elim s [
  | [] ↦ false
  | d ∷ s' ↦ not (accepts c d) || elim s' [ [] ↦ false | e ∷ _ ↦ not (is_continuation e) ]
]

-- utf8.DecodeRune: the rune and its bytes; RuneError and 1 where the bytes are not valid.
unfoldable pub decode_rune : List ℕ → ℕ × ℕ
decode_rune [] = (rune_error, 0)
decode_rune (c ∷ []) = if ltb c 0x80 then (c, 1) else (rune_error, 1)
decode_rune (c ∷ d ∷ []) =
    if ltb c 0x80
    then (c, 1)
    else if rune_size c == 2 && accepts c d
    then ((c % 32) * 64 + d % 64, 2)
    else (rune_error, 1)
decode_rune (c ∷ d ∷ e ∷ []) =
    if ltb c 0x80
    then (c, 1)
    else if rune_size c == 2 && accepts c d
    then ((c % 32) * 64 + d % 64, 2)
    else if rune_size c == 3 && accepts c d && is_continuation e
    then ((c % 16) * 4096 + (d % 64) * 64 + e % 64, 3)
    else (rune_error, 1)
decode_rune (c ∷ d ∷ e ∷ f ∷ _) =
    if ltb c 0x80
    then (c, 1)
    else if rune_size c == 2 && accepts c d
    then ((c % 32) * 64 + d % 64, 2)
    else if rune_size c == 3 && accepts c d && is_continuation e
    then ((c % 16) * 4096 + (d % 64) * 64 + e % 64, 3)
    else if rune_size c == 4 && accepts c d && is_continuation e && is_continuation f
    then ((c % 8) * 262144 + (d % 64) * 4096 + (e % 64) * 64 + f % 64, 4)
    else (rune_error, 1)

-- A range over a string: the runes of the bytes after the next `skip` ones, which were decoded.
unfoldable pub runes_from : ℕ → List ℕ → List ℕ
unfolding decode_rune
runes_from skip [] = []
runes_from (suc k) (c ∷ s) = runes_from k s
runes_from zero (c ∷ s) = (decode_rune (c ∷ s)).0 ∷ runes_from ((decode_rune (c ∷ s)).1 - 1) s
