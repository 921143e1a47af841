-- ===== src/Frames/Bytes.antt =====
-- Two-byte numbers, and reading a part of a stream.
use pomar.Prelude.{
  drop-append_self, ℕ, ◌+◌, ◌*◌, ◌/◌, ◌%◌, ◌<◌, ◌≡◌, refl, ap, ◌∙◌, List, [], ◌∷◌, ◌++◌, arith,
  length, take, length-append, take-append-drop, length-take,
}
use pomar.Frames.{ok, put_uint16, uint16, read_full}

abbrev pub IsByte : ℕ → Type 0
IsByte b = b < 256

pub uint16-put : (n : ℕ) (rest : List ℕ) → n < 65536 → uint16 (put_uint16 n ++ rest) ≡ n
unfolding uint16 put_uint16
uint16-put n rest h = omega arith

pub uint16-put_only : (n : ℕ) → n < 65536 → uint16 (put_uint16 n) ≡ n
unfolding uint16 put_uint16
uint16-put_only n h = omega arith

pub put-uint16 :
    (hi lo : ℕ) → IsByte hi → IsByte lo → put_uint16 (uint16 (hi ∷ lo ∷ [])) ≡ hi ∷ lo ∷ []
unfolding uint16 put_uint16
put-uint16 hi lo h l =
    let a : (hi * 256 + lo) / 256 % 256 ≡ hi = omega arith in
    let b : (hi * 256 + lo) % 256 ≡ lo = omega arith in
    ap (λ x. x ∷ (hi * 256 + lo) % 256 ∷ []) a ∙ ap (λ y. hi ∷ y ∷ []) b

pub length-put : (n : ℕ) → length (put_uint16 n) ≡ 2
unfolding put_uint16
length-put n = refl

take-append {ℓ} : {A : Type ℓ} (p rest : List A) → take (length p) (p ++ rest) ≡ p
take-append [] rest = refl
take-append (b ∷ p) rest = ap (λ l. b ∷ l) (take-append p rest)

-- A part that is there is read, and the rest is left.
pub read_full-append : (p rest : List ℕ) → read_full (length p) (p ++ rest) ≡ (ok p, rest)
unfolding read_full
read_full-append [] [] = refl
read_full-append [] (b ∷ rest) = ground arith
read_full-append (b ∷ p) rest =
    let t = take-append (b ∷ p) rest in
    let d = drop-append_self (b ∷ p) rest in let l = length-append (b ∷ p) rest in ground arith

-- Only such a part is read.
pub read_full-inv :
    (n : ℕ) (bytes p rest : List ℕ)
    → read_full n bytes ≡ (ok p, rest)
    → (length p ≡ n) × (bytes ≡ p ++ rest)
unfolding read_full
read_full-inv n [] p rest h = ground arith
read_full-inv n (b ∷ bs) p rest h =
    let t = take-append-drop n (b ∷ bs) in let l = length-take n (b ∷ bs) in ground arith
