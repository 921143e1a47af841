-- ===== src/Tests/TerminalRuns.antt =====
-- Runs of internal/termstate.
use pomar.Prelude.{ℕ, ◌≡◌, ◌↔◌, refl, inr, Bool, true, false, List, [], ◌∷◌, ◌++◌, arith}
use pomar.Terminal.{Terminal, Row, plain, new, reset}
use pomar.Terminal.Text.{codes}
use pomar.Terminal.Screen.{history}
use pomar.Terminal.Parse.{feed, Event, fed, sized, replies_read, session}
use pomar.Terminal.Rows.{mend}
use pomar.Terminal.Pairs.{paired, mend-paired}
use pomar.Terminal.Placed.{IsPlaced}
use pomar.Terminal.Placed.Bytes.{new-IsPlaced, session-IsPlaced}
use pomar.Terminal.Sized.Screens.{HasSize}
use pomar.Terminal.Sized.Bytes.{new-HasSize, session-HasSize}
use pomar.Terminal.Ring.{IsRing, push_all, numbered, keep_last, history-push_all}
use pomar.Terminal.Wire.Reading.{reading}
use pomar.Terminal.Wire.Held.{held_in, withheld, SoundIn, IsSound}
use pomar.Terminal.Wire.Forwarded.{IsForwarded, has_escape, feed-IsForwarded, feed-plain}

abbrev pub no_marks : ℕ → Bool
no_marks r = false

abbrev pub small : Terminal
small = new 4 2 3

abbrev hello : List ℕ
hello = codes "hi" ++ 27 ∷ codes "[31mX"

-- A wide character over the second half of another one in the last column.
abbrev pub wide_twice : List ℕ
wide_twice =
    27 ∷ codes "[1;3H" ++ (0xe4 ∷ 0xb8 ∷ 0x96 ∷ 27 ∷ codes "[1;4H") ++ (0xe4 ∷ 0xb8 ∷ 0x96 ∷ [])

abbrev events : List Event
events = fed hello ∷ sized 3 5 ∷ fed wide_twice ∷ replies_read ∷ sized 9 1 ∷ []

session-IsPlaced_example : IsPlaced (session no_marks events small)
session-IsPlaced_example = session-IsPlaced no_marks events small (new-IsPlaced 4 2 3)

session-HasSize_example : HasSize (session no_marks events small)
session-HasSize_example =
    session-HasSize no_marks events small (new-IsPlaced 4 2 3) (new-HasSize 4 2 3)

small-IsSound : IsSound (reading small)
unfolding IsSound SoundIn new reset
small-IsSound = tt

feed-IsForwarded_example :
    IsForwarded
      (withheld (reading small) ++ hello)
      (feed no_marks hello small).1
      (withheld (reading (feed no_marks hello small).0))
feed-IsForwarded_example = feed-IsForwarded no_marks hello small small-IsSound

no_escape : has_escape (withheld (reading small) ++ codes "hi") ≡ false
unfolding has_escape withheld held_in new reset
no_escape = refl

feed-plain_example :
    (feed no_marks (codes "hi") small).1 ++ withheld (reading (feed no_marks (codes "hi") small).0)
    ≡ withheld (reading small) ++ codes "hi"
feed-plain_example = feed-plain no_marks (codes "hi") small small-IsSound no_escape

abbrev lone_half : Row
lone_half =
    record { text = 0x4e16 ∷ []; width = 2; attr = plain }
    ∷ record { text = b'a' ∷ []; width = 1; attr = plain }
    ∷ []

mend-paired_example :
    (paired (mend lone_half) ≡ true) × (mend lone_half ≡ lone_half ↔ paired lone_half ≡ true)
mend-paired_example = mend-paired lone_half

abbrev full_ring : Terminal
full_ring = record small {
  history =
      record { id = 3; cells = lone_half }
      ∷ record { id = 1; cells = [] }
      ∷ record { id = 2; cells = [] }
      ∷ [];
  hist_start = 1;
  next_line = 4;
}

small_limit : full_ring.max_history ≡ 3
unfolding new reset
small_limit = refl

full_ring-IsRing : IsRing full_ring
unfolding new reset
full_ring-IsRing = record { bounded = omega arith; start = inr (refl, omega arith) }

history-push_all_example :
    history (push_all (lone_half ∷ [] ∷ []) full_ring)
    ≡ keep_last full_ring.max_history (history full_ring ++ numbered 4 (lone_half ∷ [] ∷ []))
history-push_all_example =
    history-push_all (lone_half ∷ [] ∷ []) full_ring full_ring-IsRing (rw small_limit (omega arith))
