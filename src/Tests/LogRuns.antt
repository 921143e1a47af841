-- ===== src/Tests/LogRuns.antt =====
-- Runs of internal/sessiond/logs.go.
use pomar.Prelude.{ℕ, ◌≡◌, refl, true, false, none, some, List, [], ◌∷◌, arith, map}
use pomar.SessionLog.{
  Snapshot, Event, output, behind, attach, view, view_all, append_at, append_to, append, fitting,
  written, mark_full, open_session_log, resume, fresh_tail, page, page_at, chunk_of,
}
use pomar.SessionLog.Captured.{IsCut, IsDelivered, AllDelivered, IsFaithful, viewer-IsFaithful}
use pomar.SessionLog.Pages.{IsLimit, read_on, read_on-eq}

abbrev stream : List ℕ
stream = 1 ∷ 2 ∷ 3 ∷ 4 ∷ 5 ∷ 6 ∷ 7 ∷ 8 ∷ []

abbrev first_cut : Snapshot
first_cut = record { from = 1; to = 2; bytes = 2 ∷ [] }

abbrev late_cut : Snapshot
late_cut = record { from = 4; to = 6; bytes = 5 ∷ 6 ∷ [] }

-- A byte is output, one is lost, and the bound cuts off the rest.
abbrev events : List Event
events = output (3 ∷ []) ∷ behind late_cut ∷ output (7 ∷ 8 ∷ []) ∷ []

first-IsCut : IsCut stream first_cut
first-IsCut = record { ordered = omega arith; within = omega arith; part = refl }

late-IsCut : IsCut stream late_cut
late-IsCut = record { ordered = omega arith; within = omega arith; part = refl }

delivered : AllDelivered stream events (attach none 5 (9 ∷ []) first_cut)
unfolding AllDelivered IsDelivered attach view append_at append_to append fitting written mark_full
    open_session_log resume fresh_tail
delivered = (refl, (late-IsCut, (refl, tt)))

viewer-IsFaithful_example :
    IsFaithful stream
      (9 ∷ [])
      1
      5
      (view_all (map (λ e. (none, e)) events) (attach none 5 (9 ∷ []) first_cut))
viewer-IsFaithful_example =
    viewer-IsFaithful stream (9 ∷ []) 5 first_cut events first-IsCut delivered

-- The log of that run, with one lost byte and one report of the bound.
logs_the_run : view_all (map (λ e. (none, e)) events) (attach none 5 (9 ∷ []) first_cut) ≡ (record {
  log = record { file = 9 ∷ 2 ∷ 3 ∷ 5 ∷ 6 ∷ []; size = 5; bound = 5; full = true };
  logged = 8;
  bounds = 1;
  lost = 1;
})
unfolding view_all attach view append_at append_to append fitting written mark_full open_session_log
    resume fresh_tail
logs_the_run = refl

two_at_most : IsLimit (some 2)
unfolding IsLimit
two_at_most = omega arith

read_on-eq_example : read_on 6 3 (some 2) stream ≡ (4 ∷ 5 ∷ 6 ∷ 7 ∷ 8 ∷ [], true)
read_on-eq_example = read_on-eq 6 3 (some 2) stream two_at_most (omega arith) (omega arith)

-- The five bytes from that offset take three pages.
reads_in_three_pages : read_on 3 3 (some 2) stream ≡ (4 ∷ 5 ∷ 6 ∷ 7 ∷ 8 ∷ [], true)
unfolding read_on page page_at chunk_of
reads_in_three_pages = refl

two_pages_fall_short : read_on 2 3 (some 2) stream ≡ (4 ∷ 5 ∷ 6 ∷ 7 ∷ [], false)
unfolding read_on page page_at chunk_of
two_pages_fall_short = refl
