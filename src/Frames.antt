-- ===== src/Frames.antt =====
-- internal/seatterm/frame.go: the frames of a seat's terminal stream, written and read. A reader is
-- the bytes it has still to give, and then the end of the stream.
pub mod Bytes
pub mod Reading
pub mod Truncated
pub mod Writing
pub mod Meta
pub mod MetaReading
use pomar.Prelude.{
  ℕ, ◌/◌, ◌%◌, ◌*◌, ◌+◌, Bool, true, false, ◌&&◌, ◌||◌, not, Option, none, some, List, [], ◌∷◌,
  ◌++◌, ltb, leb, ◌==◌, if◌then◌else◌, length, take, drop,
}

-- The frame types of v1, and those that v2 adds.
abbrev pub data_frame : ℕ
data_frame = 0x64

abbrev pub resize_frame : ℕ
resize_frame = 0x72

abbrev pub close_frame : ℕ
close_frame = 0x78

abbrev pub notice_frame : ℕ
notice_frame = 0x6e

abbrev pub control_frame : ℕ
control_frame = 0x63

abbrev pub presence_frame : ℕ
presence_frame = 0x70

abbrev pub state_frame : ℕ
state_frame = 0x73

abbrev pub max_data : ℕ
max_data = 32 * 1024

abbrev pub max_cols : ℕ
max_cols = 1000

abbrev pub max_rows : ℕ
max_rows = 500

abbrev pub max_notice : ℕ
max_notice = 512

abbrev pub max_meta : ℕ
max_meta = 4096

pub data Error : Type 0 where
  eof unexpected_eof short_write broken : Error
  too_large close_payload resize_payload : Error
  out_of_bounds : ℕ → ℕ → Error
  unknown_type too_long not_object : ℕ → Error

pub data Result {ℓ} (A : Type ℓ) : Type ℓ where
  ok : A → Result A
  err : Error → Result A

-- PutUint16 and Uint16 of encoding/binary.BigEndian.
unfoldable pub put_uint16 : ℕ → List ℕ
put_uint16 n = n / 256 % 256 ∷ n % 256 ∷ []

unfoldable pub uint16 : List ℕ → ℕ
uint16 (hi ∷ lo ∷ rest) = hi * 256 + lo
uint16 (hi ∷ []) = 0
uint16 [] = 0

-- What a stream does with one write: it takes all of it, or some bytes with or without an error.
pub data Write : Type 0 where
  whole : Write
  short fails : ℕ → Write

-- The bytes that reach the stream, and the error that the caller returns.
unfoldable pub write : Write → List ℕ → List ℕ × Option Error
write whole bytes = (bytes, none)
write (short n) bytes = (take n bytes, if ltb n (length bytes) then some short_write else none)
write (fails n) bytes = (take n bytes, some broken)

-- The second write follows where the first has no error.
unfoldable pub then_write : List ℕ × Option Error → List ℕ × Option Error → List ℕ × Option Error
then_write (sent, none) (more, e) = (sent ++ more, e)
then_write (sent, some e) second = (sent, some e)

unfoldable pub write_frame : Write → Write → ℕ → List ℕ → List ℕ × Option Error
write_frame first second kind [] = write first (kind ∷ put_uint16 0)
write_frame first second kind (b ∷ bs) =
    if ltb max_data (length (b ∷ bs))
    then ([], some too_large)
    else then_write (write first (kind ∷ put_uint16 (length (b ∷ bs) % 65536)))
        (write second (b ∷ bs))

-- io.ReadFull: what it read, and what the reader has left.
unfoldable pub read_full : ℕ → List ℕ → Result (List ℕ) × List ℕ
read_full n [] = (if n == 0 then ok [] else err eof, [])
read_full n (b ∷ bs) =
    if ltb (length (b ∷ bs)) n
    then (err unexpected_eof, [])
    else (ok (take n (b ∷ bs)), drop n (b ∷ bs))

-- The bounds of a window.
unfoldable pub check_window : ℕ → ℕ → Option Error
check_window cols rows =
    if ltb cols 1 || ltb max_cols cols || ltb rows 1 || ltb max_rows rows
    then some (out_of_bounds cols rows)
    else none

-- The switch on the frame's type, over the payload and its length.
unfoldable pub check_payload : ℕ → List ℕ → Option Error
check_payload kind payload =
    if kind == data_frame
    then none
    else if kind == close_frame
    then (if length payload == 0 then none else some close_payload)
    else if kind == resize_frame
    then (if length payload == 4
        then check_window (uint16 payload) (uint16 (drop 2 payload))
        else some resize_payload)
    else some (unknown_type kind)

abbrev pub Frame : Type 0
Frame = ℕ × List ℕ

abbrev pub Read : Type 0
Read = Result Frame × List ℕ

-- After the payload is read.
unfoldable pub checked : (ℕ → List ℕ → Option Error) → ℕ → Result (List ℕ) × List ℕ → Read
checked check kind (err e, rest) = (err e, rest)
checked check kind (ok payload, rest) =
    (elim (check kind payload) [ none ↦ ok (kind, payload) | some e ↦ err e ], rest)

-- After the head is read.
unfoldable pub read_body : Result (List ℕ) × List ℕ → Read
read_body (err e, rest) = (err e, rest)
read_body (ok [], rest) = (err unexpected_eof, rest)
read_body (ok (kind ∷ size), rest) =
    if ltb max_data (uint16 size)
    then (err too_large, rest)
    else checked check_payload kind (read_full (uint16 size) rest)

unfoldable pub read_frame : List ℕ → Read
read_frame bytes = read_body (read_full 3 bytes)

unfoldable pub encode_resize : ℕ → ℕ → List ℕ
encode_resize cols rows = put_uint16 cols ++ put_uint16 rows
