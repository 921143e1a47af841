-- ===== src/Frames/Meta.antt =====
-- The frames that v2 adds: ReadFrameV2 and WriteMeta of internal/seatterm/frame.go. `is_json` is
-- json.Valid of Go's encoding/json.
use pomar.Prelude.{
  ℕ, Bool, false, ◌&&◌, ◌||◌, not, Option, none, some, List, [], ◌∷◌, ◌++◌, ltb, ◌==◌,
  if◌then◌else◌, length,
}
use pomar.Frames.{
  notice_frame, control_frame, presence_frame, state_frame, max_notice, max_meta, Error,
  unexpected_eof, too_long, not_object, Result, ok, err, uint16, Write, write_frame, read_full,
  Read, checked, read_body,
}

unfoldable pub is_meta : ℕ → Bool
is_meta kind = kind == control_frame || kind == presence_frame || kind == state_frame

unfoldable pub starts_object : List ℕ → Bool
starts_object [] = false
starts_object (b ∷ bs) = b == 0x7b

module _ (is_json : List ℕ → Bool) where
  unfoldable pub check_object : ℕ → List ℕ → Option Error
  check_object kind payload =
      if not (kind == notice_frame) && (not (starts_object payload) || not (is_json payload))
      then some (not_object kind)
      else none

  unfoldable pub read_bounded : ℕ → ℕ → List ℕ → List ℕ → Read
  read_bounded bound kind size rest =
      if ltb bound (uint16 size)
      then (err (too_long kind), rest)
      else checked check_object kind (read_full (uint16 size) rest)

  -- After the head is read. A frame of v1 is read from the head and the rest, joined.
  unfoldable pub read_body_v2 : Result (List ℕ) × List ℕ → Read
  read_body_v2 (err e, rest) = (err e, rest)
  read_body_v2 (ok [], rest) = (err unexpected_eof, rest)
  read_body_v2 (ok (kind ∷ size), rest) =
      if kind == notice_frame
      then read_bounded max_notice kind size rest
      else if is_meta kind
      then read_bounded max_meta kind size rest
      else read_body (read_full 3 ((kind ∷ size) ++ rest))

  unfoldable pub read_frame_v2 : List ℕ → Read
  read_frame_v2 bytes = read_body_v2 (read_full 3 bytes)

-- The text that json.Marshal gave for the message.
unfoldable pub write_meta : Write → Write → ℕ → List ℕ → List ℕ × Option Error
write_meta first second kind text =
    if ltb max_meta (length text)
    then ([], some (too_long kind))
    else write_frame first second kind text
