-- ===== src/Prelude/Bytes.antt =====
-- Go strings as lists of bytes: the functions of package strings that the code uses.
use pomar.Prelude.{ℕ, Bool, true, false, Option, none, some, List, [], ◌∷◌, ◌==◌, if◌then◌else◌}

-- CutPrefix: what follows the prefix, where the string has it.
unfoldable pub cut_prefix : List ℕ → List ℕ → Option (List ℕ)
cut_prefix s [] = some s
cut_prefix [] (p ∷ ps) = none
cut_prefix (c ∷ s) (p ∷ ps) = let rest = cut_prefix s ps in if c == p then rest else none

unfoldable pub is_some {ℓ} : {A : Type ℓ} → Option A → Bool
is_some none = false
is_some (some a) = true

unfoldable pub has_prefix : List ℕ → List ℕ → Bool
has_prefix s prefix = is_some (cut_prefix s prefix)

-- TrimPrefix: the string itself where it has no such prefix.
unfoldable pub trim_prefix : List ℕ → List ℕ → List ℕ
trim_prefix s prefix = elim (cut_prefix s prefix) [ none ↦ s | some rest ↦ rest ]

-- HasSuffix with one byte.
unfoldable pub ends_with : List ℕ → ℕ → Bool
ends_with [] c = false
ends_with (b ∷ []) c = b == c
ends_with (b ∷ b' ∷ bs) c = ends_with (b' ∷ bs) c
