-- ===== src/Tests/Codec.antt =====
-- A plain encoding of the journal's records, to run it on: numbers from 11 up, and no newline.
use Prim.Native.Nat.{compare, Ordering}
use Prim.Native.Char.{Char, char, code, IsScalar, IsLt}
use text.Mathlib.TextEquality.{IsScalar-prop}
use pomar.Prelude.{
  ℕ, zero, suc, ◌+◌, ◌-◌, ◌≡◌, refl, ap, sym, ◌∙◌, false, Option, none, some, List, [], ◌∷◌, ◌++◌,
  String, arith, if◌then◌else◌, ◌==◌, append_nil,
}
use pomar.Terminal.Text.{has_byte}
use pomar.OpJournal.{newline, Disposition, pending, sent, acceptance_unknown, other, OpRecord}
use pomar.OpJournal.Known.{IsJson}

-- The clauses of `IsScalar`, for a decision by cases.
abbrev BothLess : Ordering → Ordering → Type 0
BothLess Ordering.lt o = IsLt o
BothLess Ordering.eq _ = ⊥
BothLess Ordering.gt _ = ⊥

abbrev Scalar : Ordering → Ordering → Ordering → Type 0
Scalar Ordering.lt _ _ = Unit
Scalar Ordering.eq o p = BothLess o p
Scalar Ordering.gt o p = BothLess o p

unfoldable pub both_of : (o p : Ordering) → Option (BothLess o p)
both_of Ordering.lt Ordering.lt = some tt
both_of _ _ = none

unfoldable pub scalar_of : (o p q : Ordering) → Option (Scalar o p q)
scalar_of Ordering.lt p q = some tt
scalar_of Ordering.eq p q = both_of p q
scalar_of Ordering.gt p q = both_of p q

unfoldable pub with_char : (n : ℕ) → Option (IsScalar n) → Option Char
with_char n none = none
with_char n (some p) = some (char n p)

unfoldable pub to_char : ℕ → Option Char
to_char n = with_char n (scalar_of (compare n 55296) (compare 57343 n) (compare n 1114112))

both_found : (o p : Ordering) → (h : BothLess o p) → (h' : BothLess o p) × (both_of o p ≡ some h')
unfolding both_of
both_found Ordering.lt Ordering.lt h = (tt, refl)
both_found Ordering.lt Ordering.eq h = elim h [ ]
both_found Ordering.lt Ordering.gt h = elim h [ ]
both_found Ordering.eq p h = elim h [ ]
both_found Ordering.gt p h = elim h [ ]

scalar_found :
    (o p q : Ordering) (h : Scalar o p q) → (h' : Scalar o p q) × (scalar_of o p q ≡ some h')
unfolding scalar_of
scalar_found Ordering.lt p q h = (tt, refl)
scalar_found Ordering.eq p q h = both_found p q h
scalar_found Ordering.gt p q h = both_found p q h

to_char-code : (c : Char) → to_char (code c) ≡ some c
unfolding to_char with_char
to_char-code (char n p) =
    let (p', e) = scalar_found (compare n 55296) (compare 57343 n) (compare n 1114112) p in
    ap (with_char n) e ∙ ap (λ q. some (char n q)) (IsScalar-prop n p' p)

unfoldable pub put_chars : String → List ℕ
put_chars String.[] = []
put_chars (String.◌∷◌ c s) = (code c + 11) ∷ put_chars s

unfoldable pub size : String → ℕ
size String.[] = 0
size (String.◌∷◌ c s) = suc (size s)

unfoldable pub put_text : String → List ℕ
put_text s = (size s + 11) ∷ put_chars s

unfoldable pub join_char : Option Char → Option (String × List ℕ) → Option (String × List ℕ)
join_char (some c) (some (s, l)) = some (String.◌∷◌ c s, l)
join_char _ _ = none

unfoldable pub take_chars : ℕ → List ℕ → Option (String × List ℕ)
take_chars zero l = some (String.[], l)
take_chars (suc n) [] = none
take_chars (suc n) (c ∷ l) = join_char (to_char (c - 11)) (take_chars n l)

unfoldable pub take_text : List ℕ → Option (String × List ℕ)
take_text [] = none
take_text (n ∷ l) = take_chars (n - 11) l

take_chars-put : (s : String) (l : List ℕ) → take_chars (size s) (put_chars s ++ l) ≡ some (s, l)
unfolding take_chars put_chars size join_char
take_chars-put String.[] l = refl
take_chars-put (String.◌∷◌ c s) l =
    let n : code c + 11 - 11 ≡ code c = omega arith in
    ap (λ k. join_char (to_char k) (take_chars (size s) (put_chars s ++ l))) n
    ∙ ap (λ o. join_char o (take_chars (size s) (put_chars s ++ l))) (to_char-code c)
    ∙ ap (join_char (some c)) (take_chars-put s l)

take_text-put : (s : String) (l : List ℕ) → take_text (put_text s ++ l) ≡ some (s, l)
unfolding take_text put_text
take_text-put s l =
    let n : size s + 11 - 11 ≡ size s = omega arith in
    ap (λ k. take_chars k (put_chars s ++ l)) n ∙ take_chars-put s l

no_newline :
    (s : String) (l : List ℕ)
    → has_byte newline l ≡ false
    → has_byte newline (put_chars s ++ l) ≡ false
unfolding has_byte put_chars
no_newline String.[] l h = h
no_newline (String.◌∷◌ c s) l h = let r = no_newline s l h in ground arith

unfoldable pub put_word : Disposition → List ℕ
put_word pending = 11 ∷ []
put_word sent = 12 ∷ []
put_word acceptance_unknown = 13 ∷ []
put_word (other s) = 14 ∷ put_text s

unfoldable pub encode : OpRecord → List ℕ
encode r = (r.written + 11) ∷ (put_text r.id ++ (put_text r.digest ++ put_word r.disposition))

unfoldable pub other_word : Option (String × List ℕ) → Option Disposition
other_word (some (s, l)) = some (other s)
other_word none = none

unfoldable pub take_word : List ℕ → Option Disposition
take_word [] = none
take_word (k ∷ l) =
    if k == 11
    then some pending
    else if k == 12
    then some sent
    else if k == 13
    then some acceptance_unknown
    else other_word (take_text l)

unfoldable pub made : ℕ → String → String → Option Disposition → Option OpRecord
made w id digest none = none
made w id digest (some d) = some (record { id = id; digest = digest; disposition = d; written = w })

unfoldable pub after_digest : ℕ → String → Option (String × List ℕ) → Option OpRecord
after_digest w id none = none
after_digest w id (some (digest, l)) = made w id digest (take_word l)

unfoldable pub after_id : ℕ → Option (String × List ℕ) → Option OpRecord
after_id w none = none
after_id w (some (id, l)) = after_digest w id (take_text l)

unfoldable pub decode : List ℕ → Option OpRecord
decode [] = none
decode (w ∷ l) = after_id (w - 11) (take_text l)

take_word-put : (d : Disposition) → take_word (put_word d) ≡ some d
unfolding take_word put_word other_word
take_word-put pending = refl
take_word-put sent = refl
take_word-put acceptance_unknown = refl
take_word-put (other s) =
    ap (λ l. other_word (take_text l)) (sym (append_nil (put_text s)))
    ∙ ap other_word (take_text-put s [])

decode-encode : (r : OpRecord) → decode (encode r) ≡ some r
unfolding decode encode after_id after_digest made
decode-encode r =
    let n : r.written + 11 - 11 ≡ r.written = omega arith in
    let tail = put_text r.digest ++ put_word r.disposition in
    ap (λ k. after_id k (take_text (put_text r.id ++ tail))) n
    ∙ ap (after_id r.written) (take_text-put r.id tail)
    ∙ ap (after_digest r.written r.id) (take_text-put r.digest (put_word r.disposition))
    ∙ ap (made r.written r.id r.digest) (take_word-put r.disposition)

one_word : (d : Disposition) → has_byte newline (put_word d) ≡ false
unfolding put_word has_byte put_text
one_word pending = refl
one_word sent = refl
one_word acceptance_unknown = refl
one_word (other s) =
    let r = ap (has_byte newline) (sym (append_nil (put_chars s))) ∙ no_newline s [] refl in
    ground arith

one_text :
    (s : String) (l : List ℕ)
    → has_byte newline l ≡ false
    → has_byte newline (put_text s ++ l) ≡ false
unfolding put_text has_byte
one_text s l h = let r = no_newline s l h in ground arith

one_record : (r : OpRecord) → has_byte newline (encode r) ≡ false
unfolding encode has_byte
one_record r =
    let t =
      one_text r.id (put_text r.digest ++ put_word r.disposition)
        (one_text r.digest (put_word r.disposition) (one_word r.disposition)) in
    ground arith

pub codec-IsJson : IsJson encode decode
codec-IsJson = record { reads = decode-encode; one_line = one_record }
