-- ===== src/SessionLog/Appends.antt =====
-- What appends leave in the file.
use pomar.Prelude.{
  ℕ, zero, suc, ◌+◌, ◌-◌, ◌≡◌, ◌⊎◌, inl, inr, refl, ap, sym, ◌∙◌, Bool, true, false, ◌||◌, none,
  List, [], ◌∷◌, ◌++◌, ltb, leb, ◌==◌, if◌then◌else◌, length, take, arith, take_all, length-append,
  append_nil, Bool-cases,
}
use pomar.SessionLog.{SessionLog, fitting, written, mark_full, append}

-- The log counts its file, and knows when it is full.
pub record IsLog (l : SessionLog) : Type 0 where
  pub counted : l.size ≡ length l.file
  pub knows_full : l.full ≡ leb l.bound (length l.file)

abbrev pub one_if : Bool → ℕ
one_if b = if b then 1 else 0

-- The file goes on with as much of the bytes as the bound leaves room for; the bound stays; and the report comes
-- exactly when the log becomes full.
pub record IsAppended (l : SessionLog) (b : List ℕ) (r : SessionLog × Bool) : Type 0 where
  pub holds : r.0.file ≡ l.file ++ take (l.bound - length l.file) b
  pub same_bound : r.0.bound ≡ l.bound
  pub is_log : IsLog r.0
  pub reported : one_if r.1 + one_if l.full ≡ one_if r.0.full

nothing_of : (b : List ℕ) → (length b == 0) ≡ true → b ≡ []
nothing_of [] h = refl
nothing_of (x ∷ b) h = absurd (ground arith)

take_none : (n : ℕ) (b : List ℕ) → (n ≡ 0) ⊎ (b ≡ []) → take n b ≡ []
take_none n b (inl e) = ap (λ k. take k b) e
take_none zero b (inr e) = refl
take_none (suc n) b (inr e) = ap (take (suc n)) e

kept-IsAppended :
    (l : SessionLog) (b : List ℕ) → IsLog l → (l.full ≡ true) ⊎ (b ≡ []) → IsAppended l b (l, false)
kept-IsAppended l b g h =
    let none_left : (l.bound - length l.file ≡ 0) ⊎ (b ≡ []) = elim h [
      | inl full ↦ inl (let k = g.knows_full in ground arith)
      | inr empty ↦ inr empty
    ] in
    record {
      holds = sym (
          ap (λ x. l.file ++ x) (take_none (l.bound - length l.file) b none_left)
          ∙ append_nil l.file);
      same_bound = refl;
      is_log = g;
      reported = omega arith;
    }

fitting-eq :
    (l : SessionLog) (b : List ℕ) → IsLog l → fitting l b ≡ take (l.bound - length l.file) b
unfolding fitting
fitting-eq l b g =
    let c = g.counted in
    let all = take_all (l.bound - length l.file) b in
    elim (Bool-cases (ltb (l.bound - l.size) (length b))) [
      | inl over ↦ rw over (ap (λ n. take (l.bound - n) b) c)
      | inr fits ↦ rw fits (sym (all (ground arith)))
    ]

-- The log after the write, with its mark.
marked-IsAppended :
    (l m : SessionLog) (b : List ℕ)
    → IsLog l
    → l.full ≡ false
    → m.file ≡ l.file ++ take (l.bound - length l.file) b
    → m.size ≡ length m.file
    → m.bound ≡ l.bound
    → m.full ≡ l.full
    → IsAppended l b (mark_full m)
unfolding mark_full
marked-IsAppended l m b g open_log holds counted bound full =
    elim (Bool-cases (leb m.bound m.size)) [
      | inl reached ↦ rw reached (record {
        holds = holds;
        same_bound = bound;
        is_log = record { counted = counted; knows_full = ground arith };
        reported = ground arith;
      })
      | inr below ↦ rw below (record {
        holds = holds;
        same_bound = bound;
        is_log = record { counted = counted; knows_full = ground arith };
        reported = ground arith;
      })
    ]

pub append-IsAppended : (l : SessionLog) (b : List ℕ) → IsLog l → IsAppended l b (append none b l)
unfolding append written
append-IsAppended l b g = elim (Bool-cases (l.full || length b == 0)) [
  | inl skip ↦
      let h : (l.full ≡ true) ⊎ (b ≡ []) = elim (Bool-cases l.full) [
        | inl full ↦ inl full
        | inr room ↦ inr (nothing_of b (ground arith))
      ] in
      rw skip (kept-IsAppended l b g h)
  | inr goes ↦
      let file = ap (λ x. l.file ++ x) (fitting-eq l b g) in
      let size : l.size + length (fitting l b) ≡ length (l.file ++ fitting l b) =
        (let c = g.counted in omega (arith, length-append l.file (fitting l b))) in
      rw goes (marked-IsAppended l _ b g (ground arith) file size refl refl)
]
