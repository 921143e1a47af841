-- ===== src/Tests/FrameRuns.antt =====
-- Runs of internal/seatterm/frame.go.
use pomar.Prelude.{
  ℕ, ◌≡◌, ◌≤◌, ◌<◌, ◌⊎◌, ◌↔◌, refl, inl, Bool, true, List, [], ◌∷◌, ◌++◌, some, length, arith, take,
  if◌then◌else◌, ◌==◌, ◌||◌,
}
use pomar.Frames.{
  max_data, data_frame, control_frame, eof, unexpected_eof, out_of_bounds, too_large, err, ok,
  read_frame, read_full, read_body, checked, check_payload, check_window, uint16, put_uint16,
  write_frame, write, then_write, whole, short,
}
use pomar.Frames.Meta.{read_frame_v2}
use pomar.Frames.Reading.{IsFrame, frame_bytes, read_frame_iff}
use pomar.Frames.MetaReading.{IsExtra, read_frame_v2_iff}
use pomar.Frames.Truncated.{read_frame-cut}
use pomar.Frames.Writing.{IsPart, write_frame-IsPart}

abbrev typed : List ℕ
typed = 0x64 ∷ 0 ∷ 2 ∷ 0x68 ∷ 0x69 ∷ 0x78 ∷ []

reads_data : read_frame typed ≡ (ok (data_frame, 0x68 ∷ 0x69 ∷ []), 0x78 ∷ [])
unfolding read_frame read_full read_body checked check_payload uint16
reads_data = refl

abbrev wide_window : List ℕ
wide_window = 0x72 ∷ 0 ∷ 4 ∷ 4 ∷ 0 ∷ 0 ∷ 24 ∷ []

refuses_window : read_frame wide_window ≡ (err (out_of_bounds 1024 24), [])
unfolding read_frame read_full read_body checked check_payload check_window uint16
refuses_window = refl

read_frame_iff_example : (read_frame typed ≡ (ok (data_frame, 0x68 ∷ 0x69 ∷ []), 0x78 ∷ [])) ↔ (
    IsFrame data_frame (0x68 ∷ 0x69 ∷ [])
    × (typed ≡ frame_bytes data_frame (0x68 ∷ 0x69 ∷ []) ++ 0x78 ∷ []))
read_frame_iff_example =
    read_frame_iff typed (omega arith) data_frame (0x68 ∷ 0x69 ∷ []) (0x78 ∷ [])

abbrev any_object : List ℕ → Bool
any_object text = true

abbrev asks : List ℕ
asks = 0x63 ∷ 0 ∷ 2 ∷ 0x7b ∷ 0x7d ∷ []

read_frame_v2_iff_example :
    (read_frame_v2 any_object asks ≡ (ok (control_frame, 0x7b ∷ 0x7d ∷ []), [])) ↔ (
      (IsFrame control_frame (0x7b ∷ 0x7d ∷ [])
        ⊎ IsExtra any_object control_frame (0x7b ∷ 0x7d ∷ []))
      × (asks ≡ frame_bytes control_frame (0x7b ∷ 0x7d ∷ []) ++ []))
read_frame_v2_iff_example =
    read_frame_v2_iff any_object asks (omega arith) control_frame (0x7b ∷ 0x7d ∷ []) []

is_typed : IsFrame data_frame (0x68 ∷ 0x69 ∷ [])
unfolding IsFrame
is_typed = inl (refl, omega arith)

typed_size : 3 < length (frame_bytes data_frame (0x68 ∷ 0x69 ∷ []))
unfolding frame_bytes write_frame write then_write put_uint16
typed_size = omega arith

read_frame-cut_example :
    read_frame (take 3 (frame_bytes data_frame (0x68 ∷ 0x69 ∷ [])))
    ≡ (err (if 3 == 0 || 3 == 3 then eof else unexpected_eof), [])
read_frame-cut_example = read_frame-cut data_frame (0x68 ∷ 0x69 ∷ []) 3 is_typed typed_size

write_frame-IsPart_example :
    ((max_data < 2)
      × (write_frame whole (short 1) data_frame (0x68 ∷ 0x69 ∷ []) ≡ ([], some too_large)))
    ⊎ ((2 ≤ max_data)
        × IsPart
            (write_frame whole (short 1) data_frame (0x68 ∷ 0x69 ∷ []))
            (frame_bytes data_frame (0x68 ∷ 0x69 ∷ [])))
write_frame-IsPart_example = write_frame-IsPart whole (short 1) data_frame (0x68 ∷ 0x69 ∷ [])
