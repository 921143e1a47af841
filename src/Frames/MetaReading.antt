-- ===== src/Frames/MetaReading.antt =====
-- Which bytes ReadFrameV2 takes for a frame.
use mathlib.Core.Path.{subst}
use pomar.Prelude.{
  ℕ, ◌/◌, ◌%◌, ◌≤◌, ◌≡◌, ◌≢◌, ◌↔◌, ◌⊎◌, inl, inr, ap, sym, ◌∙◌, none, List, [], ◌∷◌, ◌++◌, arith,
  length, ltb, All, if◌then◌else◌, append_assoc, Bool-cases, ◌==◌, Bool, true, false, ◌||◌,
}
use pomar.Frames.{
  notice_frame, max_data, max_notice, max_meta, Error, ok, err, put_uint16, uint16, read_full,
  checked, read_frame,
}
use pomar.Frames.Meta.{
  is_meta, starts_object, check_object, read_bounded, read_body_v2, read_frame_v2,
}
use pomar.Frames.Bytes.{IsByte, uint16-put_only, read_full-inv}
use pomar.Frames.Reading.{
  IsFrame, IsFrame-check, read_frame-frame_bytes, frame_bytes, frame_bytes-eq, read_frame_iff,
  read_head-eq, frame_of, read-cases, checked-eq, checked-inv,
}

module _ (is_json : List ℕ → Bool) where
  -- The frames that v2 adds: notices, and meta frames whose payload is one JSON object.
  unfoldable pub IsExtra : ℕ → List ℕ → Type 0
  IsExtra kind payload =
      ((kind ≡ notice_frame) × (length payload ≤ max_notice))
      ⊎ ((is_meta kind ≡ true)
          × ((length payload ≤ max_meta)
              × (starts_object payload ≡ true)
              × (is_json payload ≡ true)))

  abbrev bound_of : ℕ → ℕ
  bound_of kind = if kind == notice_frame then max_notice else max_meta

  abbrev is_extra : ℕ → Bool
  is_extra kind = kind == notice_frame || is_meta kind

  IsExtra-iff :
      (k : ℕ) (p : List ℕ)
      → IsExtra k p
        ↔ ((is_extra k ≡ true) × (length p ≤ bound_of k) × (check_object is_json k p ≡ none))
  unfolding IsExtra check_object is_meta
  IsExtra-iff k p = ground arith

  head_of :
      (kind hi lo : ℕ) (rest : List ℕ)
      → is_extra kind ≡ true
      → read_body_v2 is_json (ok (kind ∷ hi ∷ lo ∷ []), rest)
        ≡ read_bounded is_json (bound_of kind) kind (hi ∷ lo ∷ []) rest
  unfolding read_body_v2
  head_of kind hi lo rest x = ground arith

  read_three :
      (a b c : ℕ) (rest : List ℕ) → read_full 3 (a ∷ b ∷ c ∷ rest) ≡ (ok (a ∷ b ∷ c ∷ []), rest)
  unfolding read_full
  read_three a b c rest = ground arith

  v1_of :
      (kind hi lo : ℕ) (rest : List ℕ)
      → is_extra kind ≡ false
      → read_body_v2 is_json (ok (kind ∷ hi ∷ lo ∷ []), rest) ≡ read_frame (kind ∷ hi ∷ lo ∷ rest)
  unfolding read_body_v2 read_frame
  v1_of kind hi lo rest x = ground arith

  bounded-inv :
      (kind k hi lo : ℕ) (left p rest : List ℕ)
      → IsByte hi
      → IsByte lo
      → is_extra kind ≡ true
      → read_bounded is_json (bound_of kind) kind (hi ∷ lo ∷ []) left ≡ (ok (k, p), rest)
      → IsExtra k p × ((kind ∷ hi ∷ lo ∷ []) ++ left ≡ frame_bytes k p ++ rest)
  unfolding read_bounded
  bounded-inv kind k hi lo left p rest b b' x h =
      elim (Bool-cases (ltb (bound_of kind) (uint16 (hi ∷ lo ∷ [])))) [
        | inl over ↦ absurd (ground arith)
        | inr fits ↦
            let (kinds, size, passes, split) =
              checked-inv (check_object is_json) kind (uint16 (hi ∷ lo ∷ [])) k left p rest
                (ground arith) in
            let small : length p ≤ bound_of kind = ground arith in
            let extra = (IsExtra-iff k p).1 (ground arith) in
            (extra, frame_of kind k hi lo left p rest b b' (ground arith) kinds size split)
      ]

  extra_body :
      (k n : ℕ) (rest : List ℕ)
      → is_extra k ≡ true
      → read_body_v2 is_json (ok (k ∷ put_uint16 n), rest)
        ≡ read_bounded is_json (bound_of k) k (put_uint16 n) rest
  unfolding put_uint16
  extra_body k n rest x = head_of k (n / 256 % 256) (n % 256) rest x

  bounded :
      (k : ℕ) (p rest : List ℕ)
      → length p ≤ max_data
      → length p ≤ bound_of k
      → checked (check_object is_json) k (read_full (length p) (p ++ rest)) ≡ (ok (k, p), rest)
      → read_bounded is_json (bound_of k) k (put_uint16 (length p)) (p ++ rest) ≡ (ok (k, p), rest)
  unfolding read_bounded
  bounded k p rest fits small e =
      let size = uint16-put_only (length p) (omega arith) in ground arith

  bounded-eq :
      (k : ℕ) (p rest : List ℕ)
      → IsExtra k p
      → read_frame_v2 is_json (frame_bytes k p ++ rest) ≡ (ok (k, p), rest)
  unfolding read_frame_v2
  bounded-eq k p rest x =
      let (extra, small, passes) = (IsExtra-iff k p).0 x in
      let fits : length p ≤ max_data = ground arith in
      let e = checked-eq (check_object is_json) k p rest passes in
      let split =
        ap (λ l. l ++ rest) (frame_bytes-eq k p fits)
        ∙ append_assoc (k ∷ put_uint16 (length p)) p rest in
      ap (λ l. read_body_v2 is_json (read_full 3 l)) split
      ∙ ap (read_body_v2 is_json) (read_head-eq k (length p) (p ++ rest))
      ∙ extra_body k (length p) (p ++ rest) extra
      ∙ bounded k p rest fits small e

  -- What ReadFrameV2 does with three bytes and what follows them.
  three-inv :
      (kind hi lo k : ℕ) (left p rest : List ℕ)
      → All IsByte (kind ∷ hi ∷ lo ∷ left)
      → read_frame_v2 is_json (kind ∷ hi ∷ lo ∷ left) ≡ (ok (k, p), rest)
      → (IsFrame k p ⊎ IsExtra k p) × (kind ∷ hi ∷ lo ∷ left ≡ frame_bytes k p ++ rest)
  unfolding read_frame_v2
  three-inv kind hi lo k left p rest b h =
      let h' = ap (read_body_v2 is_json) (sym (read_three kind hi lo left)) ∙ h in
      elim (Bool-cases (is_extra kind)) [
        | inl x ↦
            let (extra, same) =
              bounded-inv kind k hi lo left p rest b.1.0 b.1.1.0 x
                (sym (head_of kind hi lo left x) ∙ h') in
            (inr extra, same)
        | inr x ↦
            let (frame, same) =
              (read_frame_iff (kind ∷ hi ∷ lo ∷ left) b k p rest).0
                (sym (v1_of kind hi lo left x) ∙ h') in
            (inl frame, same)
      ]

  v2_fails :
      (e : Error) (left : List ℕ) (k : ℕ) (p rest : List ℕ)
      → read_body_v2 is_json (err e, left) ≢ (ok (k, p), rest)
  unfolding read_body_v2
  v2_fails e left k p rest h = ground arith

  any-inv :
      (head left : List ℕ) (k : ℕ) (p rest : List ℕ)
      → length head ≡ 3
      → All IsByte (head ++ left)
      → read_frame_v2 is_json (head ++ left) ≡ (ok (k, p), rest)
      → (IsFrame k p ⊎ IsExtra k p) × (head ++ left ≡ frame_bytes k p ++ rest)
  any-inv (kind ∷ hi ∷ lo ∷ []) left k p rest len b h = three-inv kind hi lo k left p rest b h
  any-inv _ left k p rest len b h = absurd (omega arith)

  read_frame_v2-inv :
      (bytes : List ℕ) (k : ℕ) (p rest : List ℕ)
      → All IsByte bytes
      → read_frame_v2 is_json bytes ≡ (ok (k, p), rest)
      → (IsFrame k p ⊎ IsExtra k p) × (bytes ≡ frame_bytes k p ++ rest)
  unfolding read_frame_v2
  read_frame_v2-inv bytes k p rest b h = elim (read-cases 3 bytes) [
    | inl (e, left, bad) ↦
        absurd (v2_fails e left k p rest (ap (read_body_v2 is_json) (sym bad) ∙ h))
    | inr (head, left, here) ↦
        let (len, split) = read_full-inv 3 bytes head left here in
        let (valid, same) =
          any-inv head left k p rest len (subst (λ l. All IsByte l) split b)
            (ap (read_frame_v2 is_json) (sym split) ∙ h) in
        (valid, split ∙ same)
  ]

  v1-not_extra : (k : ℕ) (p : List ℕ) → IsFrame k p → is_extra k ≡ false
  unfolding IsFrame is_meta
  v1-not_extra k p (inl d) = ground arith
  v1-not_extra k p (inr (inl c)) = ground arith
  v1-not_extra k p (inr (inr r)) = ground arith

  v1-eq :
      (k n : ℕ) (rest : List ℕ)
      → is_extra k ≡ false
      → read_frame_v2 is_json ((k ∷ put_uint16 n) ++ rest) ≡ read_frame ((k ∷ put_uint16 n) ++ rest)
  unfolding put_uint16 read_frame_v2
  v1-eq k n rest x =
      ap (read_body_v2 is_json) (read_three k (n / 256 % 256) (n % 256) rest)
      ∙ v1_of k (n / 256 % 256) (n % 256) rest x

  v1_back :
      (k : ℕ) (p rest : List ℕ)
      → IsFrame k p
      → read_frame_v2 is_json (frame_bytes k p ++ rest) ≡ (ok (k, p), rest)
  v1_back k p rest f =
      let (small, passes) = IsFrame-check k p f in
      let split =
        ap (λ l. l ++ rest) (frame_bytes-eq k p small)
        ∙ append_assoc (k ∷ put_uint16 (length p)) p rest in
      ap (read_frame_v2 is_json) split
      ∙ v1-eq k (length p) (p ++ rest) (v1-not_extra k p f)
      ∙ ap read_frame (sym split)
      ∙ read_frame-frame_bytes k p rest small passes

  -- ReadFrameV2 accepts exactly the frames of v1 and those that v2 adds (a notice of at most 512
  -- bytes, and a control, presence or state frame whose payload is a JSON object of at most 4096),
  -- as WriteFrame writes them, and leaves what follows. Given are bytes, and the test that Go's
  -- encoding/json makes of a payload.
  pub read_frame_v2_iff :
      (bytes : List ℕ)
      → All IsByte bytes
      → (kind : ℕ) (payload rest : List ℕ)
      → (read_frame_v2 is_json bytes ≡ (ok (kind, payload), rest)) ↔ (
          (IsFrame kind payload ⊎ IsExtra kind payload)
          × (bytes ≡ frame_bytes kind payload ++ rest))
  read_frame_v2_iff bytes b k p rest = (
    read_frame_v2-inv bytes k p rest b,
    (λ (valid, same).
        ap (read_frame_v2 is_json) same
        ∙ elim valid [ inl f ↦ v1_back k p rest f | inr x ↦ bounded-eq k p rest x ]),
  )
