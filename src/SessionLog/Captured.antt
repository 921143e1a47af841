-- ===== src/SessionLog/Captured.antt =====
-- What of a session's stream the log holds, and what the viewer reports as lost.
use mathlib.Core.Path.{subst}
use pomar.Prelude.{
  ℕ, ◌+◌, ◌-◌, ◌≤◌, ◌<◌, ◌≡◌, ◌⊎◌, inl, inr, refl, ap, sym, ◌∙◌, none, List, [], ◌∷◌, ◌++◌, ltb,
  leb, if◌then◌else◌, length, take, drop, arith, take_all, take-append, length-append, drop-take,
  drop-drop, length-take, length-drop, append_nil, append_assoc, Bool-cases, map,
}
use pomar.SessionLog.{
  open_session_log, append, Snapshot, Viewer, append_to, append_at, attach, fresh_tail, resume,
  Event, output, behind, view, view_all,
}
use pomar.SessionLog.Appends.{IsLog, append-IsAppended, one_if}

-- Of a stream from one offset to another, some bytes were captured, in order and each once, and so
-- many between them were lost.
pub data Captured (stream : List ℕ) (start : ℕ) : ℕ → List ℕ → ℕ → Type 0 where
  nothing : Captured stream start start [] 0
  bytes :
      {end lost : ℕ} {kept : List ℕ} (n : ℕ)
      → Captured stream start end kept lost
      → Captured stream start (end + n) (kept ++ take n (drop end stream)) lost
  gap :
      {end lost : ℕ} {kept : List ℕ} (n : ℕ)
      → Captured stream start end kept lost
      → Captured stream start (end + n) kept (lost + n)

-- A snapshot is a part of the stream so far.
pub record IsCut (stream : List ℕ) (snap : Snapshot) : Type 0 where
  pub ordered : snap.from ≤ snap.to
  pub within : snap.to ≤ length stream
  pub part : snap.bytes ≡ take (snap.to - snap.from) (drop snap.from stream)

-- What the session delivers: each output is what follows in the stream, and each snapshot a cut.
unfoldable pub IsDelivered : List ℕ → ℕ → Event → Type 0
IsDelivered stream logged (output b) = b ≡ take (length b) (drop logged stream)
IsDelivered stream logged (behind snap) = IsCut stream snap

unfoldable pub AllDelivered : List ℕ → List Event → Viewer → Type 0
AllDelivered stream [] v = Unit
AllDelivered stream (e ∷ events) v =
    IsDelivered stream v.logged e × AllDelivered stream events (view none e v)

Captured-path :
    (stream : List ℕ) (start : ℕ) {end end' lost lost' : ℕ} {kept kept' : List ℕ}
    → end ≡ end'
    → kept ≡ kept'
    → lost ≡ lost'
    → Captured stream start end kept lost
    → Captured stream start end' kept' lost'
Captured-path stream start {end} {end'} {lost} {lost'} {kept} {kept'} p q r c =
    subst (λ n. Captured stream start n kept' lost') p
      (subst (λ k. Captured stream start end k lost') q
        (subst (Captured stream start end kept) r c))

-- The viewer's state against the stream, for a file that held some bytes before.
pub record IsFaithful (stream old : List ℕ) (start bound : ℕ) (v : Viewer) : Type 0 where
  pub kept : List ℕ
  pub captured : Captured stream start v.logged kept v.lost
  pub holds : v.log.file ≡ old ++ take (bound - length old) kept
  pub same_bound : v.log.bound ≡ bound
  pub is_log : IsLog v.log
  pub reported : v.bounds + one_if (leb bound (length old)) ≡ one_if (leb bound (length v.log.file))

-- What goes after the old bytes and those kept so far, as much as there is room for.
room-append :
    (bound : ℕ) (old kept b : List ℕ)
    → (old ++ take (bound - length old) kept)
        ++ take (bound - length (old ++ take (bound - length old) kept)) b
      ≡ old ++ take (bound - length old) (kept ++ b)
room-append bound old kept b =
    let m = bound - length old in
    let left : bound - length (old ++ take m kept) ≡ m - length kept =
      omega (arith, length-append old (take m kept), length-take m kept) in
    append_assoc old (take m kept) (take (bound - length (old ++ take m kept)) b)
    ∙ ap (λ n. old ++ (take m kept ++ take n b)) left
    ∙ ap (λ x. old ++ x) (sym (take-append m kept b))

module _ (stream old : List ℕ) (start bound : ℕ) where
  abbrev Faithful : Viewer → Type 0
  Faithful = IsFaithful stream old start bound

  -- An append of the bytes by which the capture grew.
  grown-Faithful :
      (v : Viewer) (b : List ℕ) (logged lost : ℕ)
      → (f : Faithful v) → Captured stream start logged (f.kept ++ b) lost
      → Faithful (append_to none b (record v { logged = logged; lost = lost }))
  unfolding append_to
  grown-Faithful v b logged lost f c =
      let a = append-IsAppended v.log b f.is_log in
      record {
        kept = f.kept ++ b;
        captured = c;
        holds =
            a.holds
            ∙ ap (λ n. v.log.file ++ take (n - length v.log.file) b) f.same_bound
            ∙ ap (λ x. x ++ take (bound - length x) b) f.holds
            ∙ room-append bound old f.kept b;
        same_bound = a.same_bound ∙ f.same_bound;
        is_log = a.is_log;
        reported =
            (let k = ap one_if f.is_log.knows_full in
              let k' = ap one_if a.is_log.knows_full in
              let s = ap (λ n. one_if (leb n (length v.log.file))) f.same_bound in
              let s' =
                ap (λ n. one_if (leb n (length (append none b v.log).0.file)))
                  (a.same_bound ∙ f.same_bound) in
              let r = a.reported in let q = f.reported in omega arith);
      }

  output-Faithful :
      (v : Viewer) (b : List ℕ)
      → b ≡ take (length b) (drop v.logged stream)
      → Faithful v
      → Faithful (append_at none b v)
  unfolding append_at append_to
  output-Faithful v b next f =
      let c =
        subst (λ x. Captured stream start (v.logged + length b) (f.kept ++ x) v.lost) (sym next)
          (bytes (length b) f.captured) in
      grown-Faithful v b (v.logged + length b) v.lost f c

  -- A snapshot that starts after what is logged: the bytes between are lost.
  late-Captured :
      (logged lost : ℕ) (kept : List ℕ) (snap : Snapshot)
      → IsCut stream snap
      → logged < snap.from
      → Captured stream start logged kept lost
      → Captured stream start snap.to (kept ++ snap.bytes) (lost + (snap.from - logged))
  late-Captured logged lost kept snap cut late c =
      let at : logged + (snap.from - logged) ≡ snap.from = omega arith in
      let end : snap.from + (snap.to - snap.from) ≡ snap.to =
        (let o = cut.ordered in omega arith) in
      let skipped =
        subst (λ n. Captured stream start n kept (lost + (snap.from - logged))) at
          (gap (snap.from - logged) c) in
      subst (λ x. Captured stream start snap.to (kept ++ x) (lost + (snap.from - logged)))
        (sym cut.part)
        (subst
          (λ n.
            Captured stream start n (kept ++ take (snap.to - snap.from) (drop snap.from stream))
              (lost + (snap.from - logged)))
          end (bytes (snap.to - snap.from) skipped))

  -- A snapshot that overlaps what is logged: only what is new is kept.
  overlap-Captured :
      (logged lost : ℕ) (kept : List ℕ) (snap : Snapshot)
      → IsCut stream snap
      → snap.from ≤ logged
      → logged < snap.to
      → Captured stream start logged kept lost
      → Captured stream start snap.to (kept ++ drop (logged - snap.from) snap.bytes) lost
  overlap-Captured logged lost kept snap cut early more c =
      let at : logged - snap.from + snap.from ≡ logged = omega arith in
      let left : snap.to - snap.from - (logged - snap.from) ≡ snap.to - logged = omega arith in
      let end : logged + (snap.to - logged) ≡ snap.to = omega arith in
      let new =
        ap (drop (logged - snap.from)) cut.part
        ∙ drop-take (logged - snap.from) (snap.to - snap.from) (drop snap.from stream)
        ∙ ap (take (snap.to - snap.from - (logged - snap.from)))
            (drop-drop (logged - snap.from) snap.from stream ∙ ap (λ n. drop n stream) at)
        ∙ ap (λ n. take n (drop logged stream)) left in
      subst (λ x. Captured stream start snap.to (kept ++ x) lost) (sym new)
        (subst
          (λ n. Captured stream start n (kept ++ take (snap.to - logged) (drop logged stream)) lost)
          end (bytes (snap.to - logged) c))

  -- The three cases of a viewer that fell behind.
  tail-cases :
      (logged : ℕ) (snap : Snapshot)
      → ((logged < snap.from) × (fresh_tail logged snap ≡ (snap.bytes, snap.from - logged)))
        ⊎ (((snap.from ≤ logged)
              × (logged < snap.to)
              × (fresh_tail logged snap ≡ (drop (logged - snap.from) snap.bytes, 0)))
            ⊎ ((snap.from ≤ logged) × (snap.to ≤ logged) × (fresh_tail logged snap ≡ ([], 0))))
  unfolding fresh_tail
  tail-cases logged snap = elim (Bool-cases (ltb logged snap.from)) [
    | inl late ↦ inl (ground arith, rw late refl)
    | inr early ↦ elim (Bool-cases (ltb logged snap.to)) [
      | inl more ↦ inr (inl (ground arith, ground arith, rw early (rw more refl)))
      | inr none_new ↦ inr (inr (ground arith, ground arith, rw early (rw none_new refl)))
    ]
  ]

  tail-Captured :
      (v : Viewer) (snap : Snapshot)
      → IsCut stream snap
      → (f : Faithful v)
      → Captured stream start
          (if ltb v.logged snap.to then snap.to else v.logged)
          (f.kept ++ (fresh_tail v.logged snap).0)
          (v.lost + (fresh_tail v.logged snap).1)
  tail-Captured v snap cut f =
      let end = if ltb v.logged snap.to then snap.to else v.logged in
      elim (tail-cases v.logged snap) [
        | inl (late, e) ↦
            let to : snap.to ≡ end = (let o = cut.ordered in ground arith) in
            Captured-path stream start to (ap (λ t. f.kept ++ t.0) (sym e))
              (ap (λ t. v.lost + t.1) (sym e))
              (late-Captured v.logged v.lost f.kept snap cut late f.captured)
        | inr (inl (early, more, e)) ↦
            let to : snap.to ≡ end = ground arith in
            let none_lost : v.lost ≡ v.lost + 0 = omega arith in
            Captured-path stream start to (ap (λ t. f.kept ++ t.0) (sym e))
              (none_lost ∙ ap (λ t. v.lost + t.1) (sym e))
              (overlap-Captured v.logged v.lost f.kept snap cut early more f.captured)
        | inr (inr (early, old_cut, e)) ↦
            let to : v.logged ≡ end = ground arith in
            let none_lost : v.lost ≡ v.lost + 0 = omega arith in
            Captured-path stream start to
              (sym (append_nil f.kept) ∙ ap (λ t. f.kept ++ t.0) (sym e))
              (none_lost ∙ ap (λ t. v.lost + t.1) (sym e)) f.captured
      ]

  view-Faithful :
      (v : Viewer) (e : Event)
      → IsDelivered stream v.logged e
      → Faithful v
      → Faithful (view none e v)
  unfolding view IsDelivered resume
  view-Faithful v (output b) d f = output-Faithful v b d f
  view-Faithful v (behind snap) d f =
      grown-Faithful v (fresh_tail v.logged snap).0 _ _ f (tail-Captured v snap d f)

  all-Faithful :
      (events : List Event) (v : Viewer)
      → AllDelivered stream events v
      → Faithful v
      → Faithful (view_all (map (λ e. (none, e)) events) v)
  unfolding view_all AllDelivered
  all-Faithful [] v d f = f
  all-Faithful (e ∷ events) v d f =
      all-Faithful events (view none e v) d.1 (view-Faithful v e d.0 f)

-- Where every write takes all its bytes and the session delivers its stream in order, the log of a
-- viewer holds what the file held before and after it, up to the bound, the bytes of the stream from
-- where the viewer was attached, in order and each once, but for the bytes between that the viewer
-- reported as lost. A file that was longer than the bound before is left as it was. That the bound was
-- reached is reported once, when it is, and not where the file had reached it before.
pub viewer-IsFaithful :
    (stream old : List ℕ) (bound : ℕ) (snap : Snapshot) (events : List Event)
    → IsCut stream snap
    → AllDelivered stream events (attach none bound old snap)
    → IsFaithful stream old snap.from bound
        (view_all (map (λ e. (none, e)) events) (attach none bound old snap))
unfolding attach open_session_log
viewer-IsFaithful stream old bound snap events cut d =
    let l = open_session_log bound old in
    let at_start : Viewer = record { log = l; logged = snap.from; bounds = 0; lost = 0 } in
    let f : IsFaithful stream old snap.from bound at_start = record {
      kept = [];
      captured = nothing;
      holds =
          sym
            (ap (λ x. old ++ x) (take_all (bound - length old) [] (omega arith)) ∙ append_nil old);
      same_bound = refl;
      is_log = record { counted = refl; knows_full = refl };
      reported = omega arith;
    } in
    let size : length snap.bytes ≡ snap.to - snap.from =
      (let p = ap length cut.part in
        let t = length-take (snap.to - snap.from) (drop snap.from stream) in
        let r = length-drop snap.from stream in let w = cut.within in omega arith) in
    let part = cut.part ∙ ap (λ n. take n (drop snap.from stream)) (sym size) in
    all-Faithful stream old snap.from bound events _ d
      (output-Faithful stream old snap.from bound at_start snap.bytes part f)
