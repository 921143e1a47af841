-- ===== src/Terminal/Text.antt =====
-- Numbers and lists in the text of a sequence: what internal/termstate uses of Go's strings and
-- strconv, over bytes.
use Prim.Native.Char.{code}
use Prim.Native.String.{String}
use pomar.Prelude.{
  ℕ, zero, suc, ◌+◌, ◌-◌, ◌*◌, ◌/◌, ◌%◌, ◌^◌, Bool, true, false, ◌&&◌, ◌||◌, List, [], ◌∷◌, Option,
  none, some, leb, ltb, ◌==◌, if◌then◌else◌, map,
}
use pomar.Prelude.Int.{ℤ, pos, negsuc, sub_ℕ}

-- The code points of a literal.
abbrev pub codes : String → List ℕ
codes String.[] = []
codes (String.◌∷◌ c s) = code c ∷ codes s

-- strings.Split by one byte: never the empty list.
unfoldable pub split_on : ℕ → List ℕ → List (List ℕ)
split_on d [] = [] ∷ []
split_on d (c ∷ s) =
    let rest = split_on d s in
    if c == d then [] ∷ rest else elim rest [ [] ↦ (c ∷ []) ∷ [] | f ∷ fs ↦ (c ∷ f) ∷ fs ]

-- The text before the first such byte, and after it.
unfoldable pub before : ℕ → List ℕ → List ℕ
before d [] = []
before d (c ∷ s) = let rest = before d s in if c == d then [] else c ∷ rest

unfoldable pub after : ℕ → List ℕ → List ℕ
after d [] = []
after d (c ∷ s) = let rest = after d s in if c == d then s else rest

unfoldable pub text_eq : List ℕ → List ℕ → Bool
text_eq [] [] = true
text_eq [] (d ∷ t) = false
text_eq (c ∷ s) [] = false
text_eq (c ∷ s) (d ∷ t) = c == d && text_eq s t

unfoldable pub has_byte : ℕ → List ℕ → Bool
has_byte d [] = false
has_byte d (c ∷ s) = c == d || has_byte d s

unfoldable pub digits_value : ℕ → List ℕ → Option ℕ
digits_value n [] = some n
digits_value n (c ∷ s) =
    let rest = digits_value (n * 10 + (c - 48)) s in if leb 48 c && leb c 57 then rest else none

abbrev digits_of : List ℕ → Option ℕ
digits_of [] = none
digits_of (c ∷ s) = digits_value 0 (c ∷ s)

-- strconv.Atoi: the value, and whether there was no error. Out of range the value is the nearest
-- int64, and where the syntax is wrong it is 0.
pub record Number : Type 0 where
  pub value : ℤ
  pub valid : Bool

unfoldable pub signed : Bool → Option ℕ → Number
signed negative none = record { value = pos 0; valid = false }
signed false (some n) =
    if ltb n (2 ^ 63)
    then record { value = pos n; valid = true }
    else record { value = pos (2 ^ 63 - 1); valid = false }
signed true (some n) =
    if leb n (2 ^ 63)
    then record { value = sub_ℕ 0 n; valid = true }
    else record { value = sub_ℕ 0 (2 ^ 63); valid = false }

unfoldable pub atoi : List ℕ → Number
unfolding digits_value signed
atoi [] = record { value = pos 0; valid = false }
atoi (c ∷ s) =
    if c == b'-'
    then signed true (digits_of s)
    else if c == b'+'
    then signed false (digits_of s)
    else signed false (digits_of (c ∷ s))

-- `params`: sub-parameters are dropped, and values are cut to 65535.
abbrev param_of : Number → ℕ
param_of n =
    if n.valid then elim n.value [ pos k ↦ if ltb 65535 k then 65535 else k | negsuc k ↦ 0 ] else 0

unfoldable pub param : List ℕ → ℕ
unfolding atoi before
param f = param_of (atoi (before b':' f))

unfoldable pub params : List ℕ → List ℕ
unfolding param split_on
params [] = []
params (c ∷ s) = map param (split_on b';' (c ∷ s))

-- `arg` of csiDispatch: a parameter, or the default where it is missing or 0.
unfoldable pub arg : List ℕ → ℕ → ℕ → ℕ
arg [] i d = d
arg (p ∷ ps) zero d = if p == 0 then d else p
arg (p ∷ ps) (suc i) d = arg ps i d

-- The decimal digits of a number: `%d`.
unfoldable pub itoa_fuel : ℕ → ℕ → List ℕ → List ℕ
itoa_fuel zero n acc = acc
itoa_fuel (suc f) n acc =
    let rest = itoa_fuel f (n / 10) ((48 + n % 10) ∷ acc) in
    if ltb n 10 then (48 + n) ∷ acc else rest

unfoldable pub itoa : ℕ → List ℕ
unfolding itoa_fuel
itoa n = itoa_fuel (suc n) n []

unfoldable pub itoa_ℤ : ℤ → List ℕ
unfolding itoa
itoa_ℤ (pos n) = itoa n
itoa_ℤ (negsuc n) = b'-' ∷ itoa (suc n)
