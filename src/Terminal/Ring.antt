-- ===== src/Terminal/Ring.antt =====
-- The history is a ring that holds the last lines: `pushHistory` and `History` of
-- internal/termstate/terminal.go.
use pomar.Prelude.{
  ℕ, suc, ◌+◌, ◌-◌, ◌%◌, ◌^◌, ◌<◌, ◌≤◌, ◌≡◌, sym, ap, ◌∙◌, ◌⊎◌, inl, inr, List, [], ◌∷◌, ◌++◌,
  arith, length, take, drop, set, ltb, ◌==◌, Bool-cases, append_assoc, append_nil, drop-append,
  drop-drop, drop_all, take_all, drop-set, take-set, length-append, length-take, length-drop,
  length-set,
}
use native.Mathlib.Nat.{mod_self, mod-eq_of_lt}
use pomar.Terminal.{Terminal, Line, Row}
use pomar.Terminal.Screen.{push_history, history}

-- The last `n` of a list.
unfoldable pub keep_last {ℓ} : {A : Type ℓ} → ℕ → List A → List A
keep_last n xs = drop (length xs - n) xs

pub record IsRing (t : Terminal) : Type 0 where
  pub bounded : length t.history ≤ t.max_history
  pub start :
      (t.hist_start ≡ 0) ⊎ ((length t.history ≡ t.max_history) × (t.hist_start < t.max_history))

-- Rows scrolled off one after the other, and the lines that they become.
unfoldable pub push_all : List Row → Terminal → Terminal
push_all [] t = t
push_all (r ∷ rs) t = push_all rs (push_history r t)

unfoldable pub numbered : ℕ → List Row → List Line
numbered n [] = []
numbered n (r ∷ rs) = record { id = n; cells = r } ∷ numbered ((n + 1) % 2 ^ 64) rs

keep_last-keep_last {ℓ} :
    {A : Type ℓ} (n : ℕ) (xs ys : List A)
    → keep_last n (keep_last n xs ++ ys) ≡ keep_last n (xs ++ ys)
unfolding keep_last
keep_last-keep_last n xs ys =
    let k = length xs - n in
    let z : k - length xs ≡ 0 = omega arith in
    let e : drop k (xs ++ ys) ≡ drop k xs ++ ys =
      drop-append k xs ys ∙ ap (λ j. drop k xs ++ drop j ys) z in
    let m : length (drop k (xs ++ ys)) - n + k ≡ length (xs ++ ys) - n =
      omega (arith, length-drop k (xs ++ ys), length-append xs ys) in
    rw (sym e) (drop-drop _ k (xs ++ ys) ∙ ap (λ j. drop j (xs ++ ys)) m)

push_history-IsRing : (r : Row) (t : Terminal) → IsRing t → IsRing (push_history r t)
unfolding push_history
push_history-IsRing r t h =
    let line : Line = record { id = t.next_line; cells = r } in
    ground (arith, length-append t.history (line ∷ []), length-set t.history t.hist_start line)

-- The ring as a list: its lines from the oldest on, after a write over the oldest.
rotation_last {ℓ} :
    {A : Type ℓ} (s : ℕ) (xs : List A) (x : A)
    → length xs ≡ s + 1
    → set xs s x ≡ drop 1 ((drop s xs ++ take s xs) ++ x ∷ [])
rotation_last s xs x e =
    let short : length (drop s xs) ≡ 1 = omega (arith, length-drop s xs) in
    let k : s < length xs = omega arith in
    let l : length (set xs s x) ≤ suc s = omega (arith, length-set xs s x) in
    let one : 1 - length (drop s xs) ≡ 0 = omega arith in
    let gone : length (drop s xs) ≤ 1 = omega arith in
    sym (take_all (suc s) (set xs s x) l)
    ∙ take-set s xs x k
    ∙ sym (
        ap (λ l. drop 1 l) (append_assoc (drop s xs) (take s xs) (x ∷ []))
        ∙ drop-append 1 (drop s xs) (take s xs ++ x ∷ [])
        ∙ ap (λ j. drop 1 (drop s xs) ++ drop j (take s xs ++ x ∷ [])) one
        ∙ ap (λ l. l ++ (take s xs ++ x ∷ [])) (drop_all 1 (drop s xs) gone))

rotation_inner {ℓ} :
    {A : Type ℓ} (s : ℕ) (xs : List A) (x : A)
    → s + 1 < length xs
    → drop (suc s) (set xs s x) ++ take (suc s) (set xs s x)
      ≡ drop 1 ((drop s xs ++ take s xs) ++ x ∷ [])
rotation_inner s xs x h =
    let k : s < length xs = omega arith in
    let one : 1 - length (drop s xs) ≡ 0 = omega (arith, length-drop s xs) in
    let next : 1 + s ≡ suc s = omega arith in
    rw (drop-set s xs x, take-set s xs x k)
      (sym (
        ap (λ l. drop 1 l) (append_assoc (drop s xs) (take s xs) (x ∷ []))
        ∙ drop-append 1 (drop s xs) (take s xs ++ x ∷ [])
        ∙ ap (λ j. drop 1 (drop s xs) ++ drop j (take s xs ++ x ∷ [])) one
        ∙ ap (λ l. l ++ (take s xs ++ x ∷ [])) (drop-drop 1 s xs ∙ ap (λ j. drop j xs) next)))

abbrev line_of : Row → Terminal → Line
line_of r t = record { id = t.next_line; cells = r }

abbrev appended : Row → Terminal → Terminal
appended r t = record t {
  history = t.history ++ line_of r t ∷ [];
  next_line = (t.next_line + 1) % 2 ^ 64;
}

abbrev overwritten : ℕ → Row → Terminal → Terminal
overwritten start r t = record t {
  history = set t.history t.hist_start (line_of r t);
  hist_start = start;
  next_line = (t.next_line + 1) % 2 ^ 64;
}

history-partial : (t : Terminal) → length t.history < t.max_history → history t ≡ t.history
unfolding history
history-partial t h = ground arith

history-full :
    (t : Terminal)
    → length t.history ≡ t.max_history
    → history t ≡ drop t.hist_start t.history ++ take t.hist_start t.history
unfolding history
history-full t h = ground arith

push-none : (r : Row) (t : Terminal) → t.max_history ≡ 0 → push_history r t ≡ t
unfolding push_history
push-none r t h = ground arith

push-partial :
    (r : Row) (t : Terminal) → length t.history < t.max_history → push_history r t ≡ appended r t
unfolding push_history
push-partial r t h = ground arith

push-full :
    (r : Row) (t : Terminal)
    → IsRing t
    → length t.history ≡ t.max_history
    → 0 < t.max_history
    → push_history r t ≡ overwritten ((t.hist_start + 1) % t.max_history) r t
unfolding push_history
push-full r t h e p = ground arith

length-history : (t : Terminal) → IsRing t → length (history t) ≡ length t.history
length-history t h = elim (Bool-cases (ltb (length t.history) t.max_history)) [
  | inl e ↦ ap length (history-partial t (ground arith))
  | inr e ↦
      let f = history-full t (ground arith) in
      omega (
        arith,
        ap length f,
        length-append (drop t.hist_start t.history) (take t.hist_start t.history),
        length-drop t.hist_start t.history,
        length-take t.hist_start t.history,
        h.start,
      )
]

-- The cases of the theorem below: no history, a ring that fills, and one that is full.
kept_short {ℓ} : {A : Type ℓ} (n : ℕ) (xs : List A) → length xs ≤ n → keep_last n xs ≡ xs
unfolding keep_last
kept_short n xs h = let e : length xs - n ≡ 0 = omega arith in ap (λ k. drop k xs) e

kept_full {ℓ} :
    {A : Type ℓ} (n : ℕ) (xs : List A) (x : A)
    → length xs ≡ n
    → keep_last n (xs ++ x ∷ []) ≡ drop 1 (xs ++ x ∷ [])
unfolding keep_last
kept_full n xs x h =
    let e : length (xs ++ x ∷ []) - n ≡ 1 = omega (arith, length-append xs (x ∷ [])) in
    ap (λ k. drop k (xs ++ x ∷ [])) e

unkept :
    (r : Row) (t : Terminal)
    → IsRing t
    → t.max_history ≡ 0
    → history (push_history r t) ≡ keep_last t.max_history (history t ++ line_of r t ∷ [])
unfolding keep_last
unkept r t h e =
    let l : length (history t) ≡ 0 = omega (arith, length-history t h, h.bounded) in
    let k : length (history t ++ line_of r t ∷ [])
        ≤ length (history t ++ line_of r t ∷ []) - t.max_history =
      omega arith in
    let z : length (history t) ≤ 0 = omega arith in
    rw (push-none r t e)
      (drop_all 0 (history t) z ∙ sym (drop_all _ (history t ++ line_of r t ∷ []) k))

filled :
    (r : Row) (t : Terminal)
    → IsRing t
    → length t.history < t.max_history
    → history (push_history r t) ≡ keep_last t.max_history (history t ++ line_of r t ∷ [])
filled r t h p =
    let l : length (t.history ++ line_of r t ∷ []) ≡ length t.history + 1 =
      length-append t.history (line_of r t ∷ []) in
    let s : t.hist_start ≡ 0 = ground arith in
    rw
      (
        push-partial r t p,
        history-partial t p,
        kept_short t.max_history (t.history ++ line_of r t ∷ []) (omega arith),
      )
      (elim (Bool-cases (ltb (length t.history + 1) t.max_history)) [
        | inl e ↦ history-partial (appended r t) (ground arith)
        | inr e ↦
            history-full (appended r t) (ground arith)
            ∙ rw (s) (append_nil (t.history ++ line_of r t ∷ []))
      ])

turned :
    (r : Row) (t : Terminal)
    → IsRing t
    → length t.history ≡ t.max_history
    → 0 < t.max_history
    → history (push_history r t) ≡ keep_last t.max_history (history t ++ line_of r t ∷ [])
turned r t h e p =
    let l : length (set t.history t.hist_start (line_of r t)) ≡ t.max_history =
      length-set t.history t.hist_start (line_of r t) ∙ e in
    rw
      (
        push-full r t h e p,
        kept_full t.max_history (history t) (line_of r t) (length-history t h ∙ e),
        history-full t e,
        history-full (overwritten ((t.hist_start + 1) % t.max_history) r t) l,
      )
      (elim (Bool-cases (t.hist_start + 1 == t.max_history)) [
        | inl f ↦
            let n : t.hist_start + 1 ≡ t.max_history = ground arith in
            let m : (t.hist_start + 1) % t.max_history ≡ 0 =
              ap (λ k. k % t.max_history) n ∙ mod_self t.max_history in
            rw (m) (
              append_nil (set t.history t.hist_start (line_of r t))
              ∙ rotation_last t.hist_start t.history (line_of r t) (e ∙ sym n))
        | inr f ↦
            let n : t.hist_start + 1 < t.max_history = ground arith in
            let m : (t.hist_start + 1) % t.max_history ≡ suc t.hist_start =
              mod-eq_of_lt n ∙ omega arith in
            rw (m) (rotation_inner t.hist_start t.history (line_of r t) (ground arith))
      ])

push_history-history :
    (r : Row) (t : Terminal)
    → IsRing t
    → history (push_history r t) ≡ keep_last t.max_history (history t ++ line_of r t ∷ [])
push_history-history r t h = elim (Bool-cases (ltb (length t.history) t.max_history)) [
  | inl e ↦ filled r t h (ground arith)
  | inr e ↦ elim (Bool-cases (t.max_history == 0)) [
    | inl f ↦ unkept r t h (ground arith)
    | inr f ↦ turned r t h (ground arith) (ground arith)
  ]
]

push_history-kept :
    (r : Row) (t : Terminal)
    → IsRing t
    → (0 < t.max_history → (push_history r t).next_line ≡ (t.next_line + 1) % 2 ^ 64)
      × ((push_history r t).max_history ≡ t.max_history)
unfolding push_history
push_history-kept r t h = ground arith

-- Where rows scroll off one after the other, `History` is the last lines, as many as the limit
-- allows, of those it had and of a line for each row, in this order and with the numbers counted on
-- (modulo 2 ^ 64), however the ring is turned. The ring is sound: it holds no more than the limit,
-- and begins at its first place unless it is full.
pub history-push_all :
    (rs : List Row) (t : Terminal)
    → IsRing t
    → 0 < t.max_history
    → history (push_all rs t) ≡ keep_last t.max_history (history t ++ numbered t.next_line rs)
unfolding push_all numbered
history-push_all [] t h p =
    rw (append_nil (history t))
      (sym (kept_short t.max_history (history t) (omega (arith, length-history t h, h.bounded))))
history-push_all (r ∷ rs) t h p =
    let k = push_history-kept r t h in
    let u = push_history r t in
    let ih : history (push_all rs u)
        ≡ keep_last u.max_history (history u ++ numbered u.next_line rs) =
      history-push_all rs u (push_history-IsRing r t h) (ground arith) in
    ih
    ∙ rw
        (
          push_history-history r t h,
          k.1,
          k.0 p,
          keep_last-keep_last t.max_history (history t ++ line_of r t ∷ [])
              (numbered ((t.next_line + 1) % 2 ^ 64) rs),
        )
        (ap (keep_last t.max_history) (append_assoc (history t) (line_of r t ∷ []) _))
