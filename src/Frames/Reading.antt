-- ===== src/Frames/Reading.antt =====
-- Which bytes ReadFrame takes for a frame, and that WriteFrame writes those.
use pomar.Prelude.{
  ℕ, ◌%◌, ◌≤◌, ◌≡◌, ◌≢◌, ◌↔◌, ◌⊎◌, inl, inr, refl, ap, sym, ◌∙◌, Option, none, List, [], ◌∷◌, ◌++◌,
  arith, length, drop, ltb, All, append_assoc, Option-cases, Bool-cases, ◌==◌,
}
use mathlib.Core.Path.{subst}
use pomar.Frames.{
  data_frame, close_frame, resize_frame, max_data, max_cols, max_rows, Error, Result, ok, err,
  put_uint16, uint16, whole, write, then_write, write_frame, read_full, check_window, check_payload,
  checked, read_body, read_frame, encode_resize,
}
use pomar.Frames.Bytes.{
  IsByte, uint16-put, uint16-put_only, put-uint16, read_full-append, read_full-inv,
}

-- The frames of v1: bytes of the terminal, a window in bounds, and the end.
unfoldable pub IsFrame : ℕ → List ℕ → Type 0
IsFrame kind payload =
    ((kind ≡ data_frame) × (length payload ≤ max_data))
    ⊎ ((kind ≡ close_frame) × (payload ≡ []))
    ⊎ ((kind ≡ resize_frame)
        × ((cols : ℕ) × (rows : ℕ) × (1 ≤ cols)
            × (cols ≤ max_cols)
            × (1 ≤ rows)
            × (rows ≤ max_rows)
            × (payload ≡ encode_resize cols rows)))

-- The bytes that WriteFrame hands to a stream that takes them all.
unfoldable pub frame_bytes : ℕ → List ℕ → List ℕ
frame_bytes kind payload = (write_frame whole whole kind payload).0

pub frame_bytes-eq :
    (kind : ℕ) (payload : List ℕ)
    → length payload ≤ max_data
    → frame_bytes kind payload ≡ (kind ∷ put_uint16 (length payload)) ++ payload
unfolding frame_bytes write_frame write then_write put_uint16
frame_bytes-eq kind [] h = refl
frame_bytes-eq kind (b ∷ bs) h =
    let e : length (b ∷ bs) % 65536 ≡ length (b ∷ bs) = omega arith in ground arith

-- The head is read from three bytes.
pub read_head-eq :
    (kind n : ℕ) (rest : List ℕ)
    → read_full 3 ((kind ∷ put_uint16 n) ++ rest) ≡ (ok (kind ∷ put_uint16 n), rest)
unfolding put_uint16
read_head-eq kind n rest = read_full-append (kind ∷ put_uint16 n) rest

pub checked-eq :
    (check : ℕ → List ℕ → Option Error) (kind : ℕ) (payload rest : List ℕ)
    → check kind payload ≡ none
    → checked check kind (read_full (length payload) (payload ++ rest)) ≡ (ok (kind, payload), rest)
unfolding checked
checked-eq check kind payload rest h = let e = read_full-append payload rest in ground arith

Read-cases :
    (r : Result (List ℕ) × List ℕ)
    → ((e : Error) × (left : List ℕ) × (r ≡ (err e, left)))
      ⊎ ((p : List ℕ) × (left : List ℕ) × (r ≡ (ok p, left)))
Read-cases (err e, left) = inl (e, left, refl)
Read-cases (ok p, left) = inr (p, left, refl)

pub body_of :
    (n : ℕ) (kind : ℕ) (rest : List ℕ)
    → n ≤ max_data
    → read_body (ok (kind ∷ put_uint16 n), rest) ≡ checked check_payload kind (read_full n rest)
unfolding read_body
body_of n kind rest h = let e = uint16-put_only n (omega arith) in ground arith

-- Reading gives back a frame that passes the switch, and what follows it.
pub read_frame-frame_bytes :
    (kind : ℕ) (payload rest : List ℕ)
    → length payload ≤ max_data
    → check_payload kind payload ≡ none
    → read_frame (frame_bytes kind payload ++ rest) ≡ (ok (kind, payload), rest)
unfolding read_frame
read_frame-frame_bytes kind payload rest h c =
    let a = frame_bytes-eq kind payload h in
    let b = append_assoc (kind ∷ put_uint16 (length payload)) payload rest in
    let d = read_head-eq kind (length payload) (payload ++ rest) in
    let e = body_of (length payload) kind (payload ++ rest) h in
    let g = checked-eq check_payload kind payload rest c in
    ap (λ l. read_body (read_full 3 (l ++ rest))) a
    ∙ ap (λ l. read_body (read_full 3 l)) b
    ∙ ap read_body d
    ∙ e
    ∙ g

pub read-cases :
    (n : ℕ) (bytes : List ℕ)
    → ((e : Error) × (left : List ℕ) × (read_full n bytes ≡ (err e, left)))
      ⊎ ((p : List ℕ) × (left : List ℕ) × (read_full n bytes ≡ (ok p, left)))
read-cases n bytes = Read-cases (read_full n bytes)

pub checked-inv :
    (check : ℕ → List ℕ → Option Error) (kind n k : ℕ) (bytes p rest : List ℕ)
    → checked check kind (read_full n bytes) ≡ (ok (k, p), rest)
    → (k ≡ kind) × (length p ≡ n) × (check kind p ≡ none) × (bytes ≡ p ++ rest)
unfolding checked
checked-inv check kind n k bytes p rest h = elim (read-cases n bytes) [
  | inl (e, left, bad) ↦ absurd (ground arith)
  | inr (p', rest', here) ↦
      let (len, split) = read_full-inv n bytes p' rest' here in
      elim (Option-cases (check kind p')) [
        | inl passes ↦ ground arith
        | inr (e, refused) ↦ absurd (ground arith)
      ]
]

-- A head and what follows it, as a frame and what follows that.
pub frame_of :
    (kind k hi lo : ℕ) (left p rest : List ℕ)
    → IsByte hi
    → IsByte lo
    → length p ≤ max_data
    → k ≡ kind
    → length p ≡ uint16 (hi ∷ lo ∷ [])
    → left ≡ p ++ rest
    → (kind ∷ hi ∷ lo ∷ []) ++ left ≡ frame_bytes k p ++ rest
frame_of kind k hi lo left p rest b b' small kinds size split =
    let head_is : kind ∷ hi ∷ lo ∷ [] ≡ k ∷ put_uint16 (length p) =
      let w = put-uint16 hi lo b b' in ground arith in
    let whole_is = ap (λ l. l ++ rest) (frame_bytes-eq k p small) in
    ap (λ l. (kind ∷ hi ∷ lo ∷ []) ++ l) split
    ∙ ap (λ l. l ++ (p ++ rest)) head_is
    ∙ sym (append_assoc (k ∷ put_uint16 (length p)) p rest)
    ∙ sym whole_is

body_fails :
    (e : Error) (left : List ℕ) (k : ℕ) (p rest : List ℕ)
    → read_body (err e, left) ≢ (ok (k, p), rest)
unfolding read_body
body_fails e left k p rest h = ground arith

body-inv :
    (head left : List ℕ) (k : ℕ) (p rest : List ℕ)
    → length head ≡ 3
    → All IsByte (head ++ left)
    → read_body (ok head, left) ≡ (ok (k, p), rest)
    → (length p ≤ max_data) × (check_payload k p ≡ none) × (head ++ left ≡ frame_bytes k p ++ rest)
unfolding read_body
body-inv (kind ∷ hi ∷ lo ∷ []) left k p rest len b h =
    elim (Bool-cases (ltb max_data (uint16 (hi ∷ lo ∷ [])))) [
      | inl over ↦ absurd (ground arith)
      | inr fits ↦
          let (kinds, size, passes, split) =
            checked-inv check_payload kind (uint16 (hi ∷ lo ∷ [])) k left p rest (ground arith) in
          let small : length p ≤ max_data = ground arith in
          let bytes_are = frame_of kind k hi lo left p rest b.1.0 b.1.1.0 small kinds size split in
          (small, ground arith, bytes_are)
    ]
body-inv _ left k p rest len b h = absurd (omega arith)

-- Every other reading fails.
pub read_frame-inv :
    (bytes : List ℕ) (k : ℕ) (p rest : List ℕ)
    → All IsByte bytes
    → read_frame bytes ≡ (ok (k, p), rest)
    → (length p ≤ max_data) × (check_payload k p ≡ none) × (bytes ≡ frame_bytes k p ++ rest)
unfolding read_frame
read_frame-inv bytes k p rest b h = elim (read-cases 3 bytes) [
  | inl (e, left, bad) ↦ absurd (body_fails e left k p rest (ap read_body (sym bad) ∙ h))
  | inr (head, left, here) ↦
      let (len, split) = read_full-inv 3 bytes head left here in
      let (small, passes, same) =
        body-inv head left k p rest len (subst (λ l. All IsByte l) split b)
          (ap read_body (sym here) ∙ h) in
      (small, passes, split ∙ same)
]

-- The switch passes the frames of v1 and no others.
check_window-none :
    (cols rows : ℕ)
    → (check_window cols rows ≡ none)
      ↔ ((1 ≤ cols) × (cols ≤ max_cols) × (1 ≤ rows) × (rows ≤ max_rows))
unfolding check_window
check_window-none cols rows = ground arith

encode_resize-parts :
    (cols rows : ℕ)
    → (length (encode_resize cols rows) ≡ 4)
      × (uint16 (encode_resize cols rows) ≡ uint16 (put_uint16 cols ++ put_uint16 rows))
      × (drop 2 (encode_resize cols rows) ≡ put_uint16 rows)
unfolding encode_resize put_uint16
encode_resize-parts cols rows = (refl, refl, refl)

pub IsFrame-check :
    (k : ℕ) (p : List ℕ) → IsFrame k p → (length p ≤ max_data) × (check_payload k p ≡ none)
unfolding IsFrame check_payload
IsFrame-check k p (inl d) = ground arith
IsFrame-check k p (inr (inl (c, e))) = (rw e (omega arith), ground arith)
IsFrame-check k p (inr (inr (r, (cols, rows, c, c', w, w', e)))) =
    let size = uint16-put cols (put_uint16 rows) (omega arith) in
    let size' = uint16-put_only rows (omega arith) in
    let window = check_window-none cols rows in
    let whole_size = encode_resize-parts cols rows in rw e (ground arith)

window_of :
    (p : List ℕ) → All IsByte p → length p ≡ 4 → p ≡ encode_resize (uint16 p) (uint16 (drop 2 p))
unfolding encode_resize uint16
window_of (a ∷ b ∷ c ∷ d ∷ []) h e =
    let l = put-uint16 a b h.0 h.1.0 in
    let r = put-uint16 c d h.1.1.0 h.1.1.1.0 in
    sym (ap (λ x. x ++ put_uint16 (uint16 (c ∷ d ∷ []))) l ∙ ap (λ y. a ∷ b ∷ y) r)
window_of p h e = absurd (omega arith)

nothing_of : (p : List ℕ) → length p ≡ 0 → p ≡ []
nothing_of [] e = refl
nothing_of (b ∷ p) e = absurd (omega arith)

pub check-IsFrame :
    (k : ℕ) (p : List ℕ)
    → All IsByte p
    → length p ≤ max_data
    → check_payload k p ≡ none
    → IsFrame k p
unfolding IsFrame check_payload
check-IsFrame k p b h c = elim (Bool-cases (k == data_frame)) [
  | inl d ↦ inl (ground arith)
  | inr nd ↦ elim (Bool-cases (k == close_frame)) [
    | inl x ↦ let e : length p ≡ 0 = ground arith in inr (inl (ground arith, nothing_of p e))
    | inr nx ↦
        let e : length p ≡ 4 = ground arith in
        let w = check_window-none (uint16 p) (uint16 (drop 2 p)) in
        let (c0, c1, r0, r1) = w.0 (ground arith) in
        inr (inr (ground arith, (uint16 p, uint16 (drop 2 p), c0, c1, r0, r1, window_of p b e)))
  ]
]

pub All-right {ℓ κ} : {A : Type ℓ} (P : A → Type κ) (xs ys : List A) → All P (xs ++ ys) → All P ys
All-right P [] ys h = h
All-right P (x ∷ xs) ys h = All-right P xs ys h.1

pub All-left {ℓ κ} : {A : Type ℓ} (P : A → Type κ) (xs ys : List A) → All P (xs ++ ys) → All P xs
All-left P [] ys h = tt
All-left P (x ∷ xs) ys h = (h.0, All-left P xs ys h.1)

-- ReadFrame accepts exactly the bytes that WriteFrame writes for a frame of v1 (terminal bytes of
-- at most 32 KiB, a window in bounds, or an empty close), gives back that frame, and leaves the bytes
-- after it: reading inverts writing, and nothing else is read as a frame.
pub read_frame_iff :
    (bytes : List ℕ)
    → All IsByte bytes
    → (kind : ℕ) (payload rest : List ℕ)
    → (read_frame bytes ≡ (ok (kind, payload), rest))
      ↔ (IsFrame kind payload × (bytes ≡ frame_bytes kind payload ++ rest))
read_frame_iff bytes b k p rest = (
  (λ h.
      let (small, passes, same) = read_frame-inv bytes k p rest b h in
      let all = All-left IsByte (frame_bytes k p) rest (subst (λ l. All IsByte l) same b) in
      let inside =
        All-right IsByte (k ∷ put_uint16 (length p)) p
          (subst (λ l. All IsByte l) (frame_bytes-eq k p small) all) in
      (check-IsFrame k p inside small passes, same)),
  (λ h.
      let (small, passes) = IsFrame-check k p h.0 in
      ap read_frame h.1 ∙ read_frame-frame_bytes k p rest small passes),
)
