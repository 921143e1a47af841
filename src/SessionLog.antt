-- ===== src/SessionLog.antt =====
-- internal/sessiond/logs.go: the durable log of a session's output, which ends at a bound, and the
-- viewer that writes it, which may fall behind and start again from a fresh cut of the stream. Sizes
-- are numbers: a log's is far below 2 ^ 63.
pub mod Appends
pub mod Captured
pub mod Pages
use pomar.Prelude.{
  ℕ, ◌+◌, ◌-◌, ◌*◌, Bool, true, false, ◌||◌, Option, none, some, List, [], ◌∷◌, ◌++◌, ltb, leb,
  ◌==◌, if◌then◌else◌, length, take, drop,
}

-- defaultSessionLogBytes
abbrev pub default_session_log_bytes : ℕ
default_session_log_bytes = 64 * 1024 * 1024

pub record SessionLog : Type 0 where
  pub file : List ℕ
  pub size : ℕ
  pub bound : ℕ
  pub full : Bool

-- A file that was there is continued.
unfoldable pub open_session_log : ℕ → List ℕ → SessionLog
open_session_log bound file = record {
  file = file;
  size = length file;
  bound = bound;
  full = leb bound (length file);
}

-- The bytes for which there is room.
unfoldable pub fitting : SessionLog → List ℕ → List ℕ
fitting l b = let room = l.bound - l.size in if ltb room (length b) then take room b else b

-- The log after a write of all the bytes, or of so many of them.
unfoldable pub written : Option ℕ → List ℕ → SessionLog → SessionLog
written none b l = record l { file = l.file ++ b; size = l.size + length b }
written (some n) b l = record l { file = l.file ++ take n b; size = l.size + length (take n b) }

unfoldable pub mark_full : SessionLog → SessionLog × Bool
mark_full l = if leb l.bound l.size then (record l { full = true }, true) else (l, false)

-- append: the log, and whether it was filled just now.
unfoldable pub append : Option ℕ → List ℕ → SessionLog → SessionLog × Bool
append outcome b l =
    if l.full || length b == 0 then (l, false) else mark_full (written outcome (fitting l b) l)

-- What a new viewer, or one that fell behind, gets: the retained bytes between two offsets.
pub record Snapshot : Type 0 where
  pub from : ℕ
  pub to : ℕ
  pub bytes : List ℕ

-- The viewer: the log, the offset in the stream that it accounts for, how often it reported that the
-- bound was reached, and the lost bytes that it reported.
pub record Viewer : Type 0 where
  pub log : SessionLog
  pub logged : ℕ
  pub bounds : ℕ
  pub lost : ℕ

unfoldable pub append_to : Option ℕ → List ℕ → Viewer → Viewer
append_to outcome b v =
    let (l, filled) = append outcome b v.log in
    record v { log = l; bounds = v.bounds + (if filled then 1 else 0) }

unfoldable pub append_at : Option ℕ → List ℕ → Viewer → Viewer
append_at outcome b v = let w = append_to outcome b v in record w { logged = w.logged + length b }

unfoldable pub attach : Option ℕ → ℕ → List ℕ → Snapshot → Viewer
attach outcome bound file snap =
    append_at outcome snap.bytes
      (record { log = open_session_log bound file; logged = snap.from; bounds = 0; lost = 0 })

-- What a fresh cut has that is not logged, and how much is gone.
unfoldable pub fresh_tail : ℕ → Snapshot → List ℕ × ℕ
fresh_tail logged snap =
    if ltb logged snap.from
    then (snap.bytes, snap.from - logged)
    else if ltb logged snap.to
    then (drop (logged - snap.from) snap.bytes, 0)
    else ([], 0)

unfoldable pub resume : Option ℕ → Snapshot → Viewer → Viewer
resume outcome snap v =
    let (tail, lost) = fresh_tail v.logged snap in
    append_to outcome tail (record v {
      logged = if ltb v.logged snap.to then snap.to else v.logged;
      lost = v.lost + lost;
    })

-- An event of the viewer's loop.
pub data Event : Type 0 where
  output : List ℕ → Event
  behind : Snapshot → Event

unfoldable pub view : Option ℕ → Event → Viewer → Viewer
view outcome (output b) v = append_at outcome b v
view outcome (behind snap) v = resume outcome snap v

unfoldable pub view_all : List (Option ℕ × Event) → Viewer → Viewer
view_all [] v = v
view_all ((outcome, e) ∷ events) v = view_all events (view outcome e v)

-- serveLog: one page of the log, its offset, and whether more follows.
abbrev pub max_log_chunk : ℕ
max_log_chunk = 1024 * 1024

-- The size of a page: what the client asks for, at most a chunk.
unfoldable pub chunk_of : Option ℕ → ℕ
chunk_of none = max_log_chunk
chunk_of (some n) = if ltb n max_log_chunk then n else max_log_chunk

unfoldable pub page_at : ℕ → ℕ → List ℕ → (List ℕ × ℕ) × Bool
page_at start chunk file =
    let left = length file - start in
    let n = if ltb chunk left then chunk else left in
    ((take n (drop start file), start), ltb (start + n) (length file))

unfoldable pub page : ℕ → Option ℕ → List ℕ → (List ℕ × ℕ) × Bool
page from limit file =
    page_at (if ltb (length file) from then length file else from) (chunk_of limit) file
