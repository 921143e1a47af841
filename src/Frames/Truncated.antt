-- ===== src/Frames/Truncated.antt =====
-- A stream that ends inside a frame.
use pomar.Prelude.{
  ℕ, zero, suc, ◌+◌, ◌/◌, ◌%◌, ◌<◌, ◌≤◌, ◌≡◌, refl, ap, ◌∙◌, List, [], ◌∷◌, ◌++◌, arith, length,
  take, length-append, length-take, if◌then◌else◌, ◌==◌, ◌||◌,
}
use pomar.Frames.{
  max_data, Error, eof, unexpected_eof, err, put_uint16, read_full, checked, check_payload,
  read_body, read_frame,
}
use pomar.Frames.Bytes.{length-put}
use pomar.Frames.Reading.{
  IsFrame, IsFrame-check, frame_bytes, frame_bytes-eq, read_head-eq, body_of,
}

abbrev cut_error : ℕ → Error
cut_error n = if n == 0 then eof else unexpected_eof

read_full-short :
    (n : ℕ) (bytes : List ℕ)
    → length bytes < n
    → read_full n bytes ≡ (err (cut_error (length bytes)), [])
unfolding read_full
read_full-short n [] h = ground arith
read_full-short n (b ∷ bs) h = ground arith

cut_head :
    (n : ℕ) (a b c : ℕ) (p : List ℕ)
    → n < 3
    → read_frame (take n (a ∷ b ∷ c ∷ p)) ≡ (err (cut_error n), [])
unfolding read_frame read_full read_body
cut_head zero a b c p h = refl
cut_head (suc zero) a b c p h = refl
cut_head (suc (suc zero)) a b c p h = refl
cut_head (suc (suc (suc n))) a b c p h = absurd (omega arith)

cut_payload :
    (n k : ℕ) (p : List ℕ)
    → length p ≤ max_data
    → n < length p
    → read_frame ((k ∷ put_uint16 (length p)) ++ take n p) ≡ (err (cut_error n), [])
unfolding read_frame checked
cut_payload n k p small h =
    let l : length (take n p) ≡ n = omega (arith, length-take n p) in
    let e : read_full (length p) (take n p) ≡ (err (cut_error n), []) =
      read_full-short (length p) (take n p) (omega arith) ∙ ap (λ m. (err (cut_error m), [])) l in
    ap read_body (read_head-eq k (length p) (take n p))
    ∙ body_of (length p) k (take n p) small
    ∙ ap (checked check_payload k) e

take_past_head :
    (n k m : ℕ) (p : List ℕ)
    → take (suc (suc (suc n))) ((k ∷ put_uint16 m) ++ p) ≡ (k ∷ put_uint16 m) ++ take n p
unfolding put_uint16
take_past_head n k m p = refl

cut_any :
    (n k : ℕ) (p : List ℕ)
    → length p ≤ max_data
    → n < 3 + length p
    → read_frame (take n ((k ∷ put_uint16 (length p)) ++ p))
      ≡ (err (if n == 0 || n == 3 then eof else unexpected_eof), [])
unfolding put_uint16
cut_any zero k p small h = cut_head 0 k (length p / 256 % 256) (length p % 256) p (omega arith)
cut_any (suc zero) k p small h =
    cut_head 1 k (length p / 256 % 256) (length p % 256) p (omega arith)
cut_any (suc (suc zero)) k p small h =
    cut_head 2 k (length p / 256 % 256) (length p % 256) p (omega arith)
cut_any (suc (suc (suc n))) k p small h =
    let e = cut_payload n k p small (omega arith) in
    let t = take_past_head n k (length p) p in ap read_frame t ∙ e ∙ ground arith

-- Where the stream ends inside a frame of v1, ReadFrame fails and leaves nothing. It reports a plain
-- end of the stream before the first byte and right after the head, and an unexpected end elsewhere.
pub read_frame-cut :
    (kind : ℕ) (payload : List ℕ) (n : ℕ)
    → IsFrame kind payload
    → n < length (frame_bytes kind payload)
    → read_frame (take n (frame_bytes kind payload))
      ≡ (err (if n == 0 || n == 3 then eof else unexpected_eof), [])
read_frame-cut k p n f h =
    let (small, passes) = IsFrame-check k p f in
    let e = frame_bytes-eq k p small in
    let l : length (frame_bytes k p) ≡ 3 + length p =
      ap length e
      ∙ omega (arith, length-append (k ∷ put_uint16 (length p)) p, length-put (length p)) in
    ap (λ b. read_frame (take n b)) e ∙ cut_any n k p small (omega arith)
