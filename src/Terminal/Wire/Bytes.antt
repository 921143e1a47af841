-- ===== src/Terminal/Wire/Bytes.antt =====
-- Each byte that the parser of internal/termstate gets is forwarded, held, or dropped with its sequence.
use mathlib.Core.Path.{subst}
use pomar.Prelude.{
  ℕ, ◌≡◌, refl, Bool, true, false, ◌&&◌, ◌||◌, List, [], ◌∷◌, ◌++◌, ltb, leb, ◌==◌, arith, ◌∙◌,
  Bool-cases, inl, inr, if◌then◌else◌, sym, ap, append_nil, append_assoc, length,
}
use pomar.Terminal.{
  Terminal, ParserState, escape, esc_inter, csi_entry, osc_string, osc_esc, ctl_string,
  ctl_string_esc, pass_string, pass_string_esc,
}
use pomar.Terminal.Utf8.{rune_error, decode_rune, is_continuation, full_rune}
use pomar.Terminal.Parse.{
  with_seq, with_utf8, in_state, print_rune, print_ascii, control, is_cancel, max_csi, max_string,
  ground_byte, held_step, ground_step, escape_step, esc_inter_step, csi_step, string_step,
  fresh_escape, string_esc_step, pass_step, pass_esc_step, step,
}
use pomar.Terminal.Wire.Reading.{reading}
use pomar.Terminal.Wire.Sequences.{csi_dispatch-reading, csi_dispatch-query, is_query_final}
use pomar.Terminal.Wire.Held.{
  held_in, withheld, Escaped, Escaped-opens, Escaped-append, is_opener, is_last, opens,
  opens-append, only_controls, SoundIn, IsSound,
}
use pomar.Terminal.Wire.Steps.{
  drops, cuts, closes, Goes, control-reading, print_rune-reading, print_ascii-reading,
  esc_dispatch-reading, esc_inter_dispatch-reading, end_string-Goes, Passing, Passing-Goes,
  sent-Passing, sent_after-Passing, Holding, kept-Passing, stays-Passing,
}

if-Passing :
    {held : List ℕ} {c : ℕ} (b : Bool) (x y : Terminal × List ℕ)
    → Passing held c x
    → Passing held c y
    → Passing held c (if b then x else y)
if-Passing true x y p q = p
if-Passing false x y p q = q

test-Goes :
    {held : List ℕ} {c : ℕ} (b : Bool) (x y : Terminal × List ℕ)
    → (b ≡ true → Goes held c x)
    → Goes held c y
    → Goes held c (if b then x else y)
test-Goes true x y p q = p refl
test-Goes false x y p q = q

if-Goes :
    {held : List ℕ} {c : ℕ} (b : Bool) (x y : Terminal × List ℕ)
    → Goes held c x
    → Goes held c y
    → Goes held c (if b then x else y)
if-Goes true x y p q = p
if-Goes false x y p q = q

test-Passing :
    {held : List ℕ} {c : ℕ} (b : Bool) (x y : Terminal × List ℕ)
    → (b ≡ true → Passing held c x)
    → Passing held c y
    → Passing held c (if b then x else y)
test-Passing true x y p q = p refl
test-Passing false x y p q = q

module _ (c : ℕ) (t : Terminal) (empty : t.p.utf8 ≡ []) where
  abbrev longer : Terminal
  longer = with_seq (t.p.seq ++ c ∷ []) t

  holds :
      (s : ParserState) → Holding s (t.p.seq ++ c ∷ []) → Passing t.p.seq c (in_state s longer, [])
  holds s h = kept-Passing c t _ s h refl empty

  sends : Passing t.p.seq c (in_state ParserState.ground longer, t.p.seq ++ c ∷ [])
  sends = sent-Passing t.p.seq c longer empty

  sends_after :
      (u : Terminal)
      → reading u ≡ reading longer
      → Passing t.p.seq c (in_state ParserState.ground u, t.p.seq ++ c ∷ [])
  sends_after u e = sent_after-Passing t.p.seq c longer u e empty

  escape_step-Passing : t.p.state ≡ escape → Escaped t.p.seq → Passing t.p.seq c (escape_step c t)
  unfolding escape_step Holding held_in SoundIn is_opener
  escape_step-Passing at b =
      let opened : is_opener c ≡ true → opens (t.p.seq ++ c ∷ []) ≡ true =
        Escaped-opens t.p.seq c b in
      test-Passing (c == b'[') _ _ (λ k. holds csi_entry (refl, (refl, opened (ground arith))))
        (test-Passing (c == b']') _ _ (λ k. holds osc_string (refl, (refl, opened (ground arith))))
          (test-Passing (c == b'P' || c == b'X' || c == b'^' || c == b'_') _ _
            (λ k. holds ctl_string (refl, (refl, opened (ground arith))))
            (if-Passing (leb 0x20 c && leb c 0x2f) _ _ (holds esc_inter (refl, refl)) (
              if-Passing (is_cancel c) _ _ sends (
                test-Passing (ltb c 0x20) _ _
                  (λ k.
                    stays-Passing c t _ escape (refl, (refl, Escaped-append t.p.seq c b k))
                      (control-reading c longer) at empty)
                  (sends_after _ (esc_dispatch-reading c longer)))))))

  esc_inter_step-Passing : t.p.state ≡ esc_inter → Passing t.p.seq c (esc_inter_step c t)
  unfolding esc_inter_step Holding held_in SoundIn
  esc_inter_step-Passing at =
      if-Passing (leb 0x20 c && leb c 0x2f) _ _
        (stays-Passing c t _ esc_inter (refl, refl) refl at empty)
        (sends_after _ (esc_inter_dispatch-reading (t.p.seq ++ c ∷ []) longer))

  last_of_query : is_query_final c ≡ true → is_last c ≡ true
  unfolding is_last
  last_of_query h = ground arith

  -- A query is dropped, and any other control sequence is forwarded.
  query-Goes :
      (u : Terminal) (is_query : Bool)
      → opens (t.p.seq ++ c ∷ []) ≡ true
      → (is_query ≡ true → is_last c ≡ true)
      → reading u ≡ reading longer
      → Goes t.p.seq c (in_state ParserState.ground u, if is_query then [] else t.p.seq ++ c ∷ [])
  unfolding withheld held_in IsSound SoundIn
  query-Goes u true b last e = record {
    moves = drops b (last refl) refl (ap (λ r. r.utf8) e ∙ empty);
    sound = tt;
  }
  query-Goes u false b last e = Passing-Goes _ c _ (sends_after u e)

  csi_step-Goes :
      (is_mark : ℕ → Bool)
      → t.p.state ≡ csi_entry
      → opens t.p.seq ≡ true
      → Goes t.p.seq c (csi_step is_mark c t)
  unfolding csi_step Holding held_in SoundIn
  csi_step-Goes is_mark at b =
      let b' = opens-append t.p.seq (c ∷ []) b in
      if-Goes (leb 0x40 c && leb c 0x7e) _ _
        (query-Goes _ _ b' (λ q. last_of_query (csi_dispatch-query is_mark t.p.seq c longer q))
          (csi_dispatch-reading is_mark (t.p.seq ++ c ∷ []) longer))
        (Passing-Goes _ c _ (
          if-Passing (is_cancel c || ltb max_csi (length (t.p.seq ++ c ∷ []))) _ _ sends (
            if-Passing (ltb c 0x20) _ _
              (stays-Passing c t _ csi_entry (refl, (refl, b')) (control-reading c longer) at empty)
              (stays-Passing c t _ csi_entry (refl, (refl, b')) refl at empty))))

-- A step into the ground state, with a character in progress or none.
at_ground :
    {held : List ℕ} {c : ℕ} {out : List ℕ} (u : Terminal) (utf8 : List ℕ)
    → u.p.state ≡ ParserState.ground
    → u.p.utf8 ≡ utf8
    → out ++ utf8 ≡ held ++ c ∷ []
    → Passing held c (u, out)
unfolding withheld held_in IsSound SoundIn
at_ground {held} {c} {out} u utf8 at holds all =
    let e : reading u ≡ record { state = ParserState.ground; seq = u.p.seq; utf8 = utf8 } =
      ap (λ s. record { state = s; seq = u.p.seq; utf8 = u.p.utf8 }) at
      ∙ ap (λ x. record { state = ParserState.ground; seq = u.p.seq; utf8 = x }) holds in
    record { all = ap (λ r. out ++ withheld r) e ∙ all; sound = subst IsSound (sym e) tt }

only_none : only_controls [] ≡ true
unfolding only_controls
only_none = refl

ground_byte-Passing :
    (is_mark : ℕ → Bool) (c : ℕ) (t : Terminal)
    → t.p.state ≡ ParserState.ground
    → t.p.utf8 ≡ []
    → Passing [] c (ground_byte is_mark c t)
unfolding ground_byte withheld held_in IsSound SoundIn Escaped
ground_byte-Passing is_mark c t at empty =
    let printed : (u : Terminal) → reading u ≡ reading t → Passing [] c (u, c ∷ []) =
      λ u e. at_ground u [] (ap (λ r. r.state) e ∙ at) (ap (λ r. r.utf8) e ∙ empty) refl in
    elim (Bool-cases (c == 0x1b)) [
      | inl esc ↦
          let is_esc : c ≡ 27 = ground arith in
          rw esc
            (record { all = refl; sound = (empty, ([], (ap (λ x. x ∷ []) is_esc, only_none))) })
      | inr other ↦ rw other (
          if-Passing (ltb c 0x20 || c == 0x7f) _ _ (printed (control c t) (control-reading c t)) (
            if-Passing (ltb c 0x80) _ _ (printed (print_ascii c t) (print_ascii-reading c t)) (
              if-Passing (leb 0xc0 c && ltb c 0xf8) _ _ (at_ground _ (c ∷ []) at refl refl) (
                printed (print_rune is_mark rune_error t)
                  (print_rune-reading is_mark rune_error t)))))
    ]

held_step-Passing :
    (is_mark : ℕ → Bool) (held : List ℕ) (c : ℕ) (t : Terminal)
    → t.p.state ≡ ParserState.ground
    → t.p.utf8 ≡ held
    → Passing held c (held_step is_mark held c t)
unfolding held_step
held_step-Passing is_mark [] c t at e = ground_byte-Passing is_mark c t at e
held_step-Passing is_mark (l ∷ s) c t at e =
    let held = l ∷ s ++ c ∷ [] in
    let u = print_rune is_mark (decode_rune held).0 (with_utf8 held t) in
    let shown = print_rune-reading is_mark (decode_rune held).0 (with_utf8 held t) in
    let lost = print_rune-reading is_mark rune_error t in
    let rest =
      ground_byte-Passing is_mark c (with_utf8 [] (print_rune is_mark rune_error t))
        (ap (λ r. r.state) lost ∙ at) refl in
    if-Passing (is_continuation c) _ _
      (if-Passing (full_rune held) _ _
        (at_ground (with_utf8 [] u) [] (ap (λ r. r.state) shown ∙ at) refl (append_nil held))
        (at_ground (with_utf8 held t) held at refl refl))
      (record {
        all = append_assoc (l ∷ s) _ _ ∙ ap (λ x. (l ∷ s) ++ x) rest.all;
        sound = rest.sound;
      })

module _ (c : ℕ) (t : Terminal) (empty : t.p.utf8 ≡ []) where
  string_step-Goes :
      (osc : Bool)
      → t.p.state ≡ (if osc then osc_string else ctl_string)
      → opens t.p.seq ≡ true
      → Goes t.p.seq c (string_step osc c t)
  unfolding is_last string_step withheld held_in IsSound SoundIn Holding
  string_step-Goes osc at b =
      let seq = t.p.seq ++ c ∷ [] in
      let u = with_seq seq t in
      let to_pass : Passing t.p.seq c (in_state pass_string u, seq) = record {
        all = append_nil seq;
        sound = empty;
      } in
      test-Goes (c == 0x07 && osc) _ _
        (λ bel. end_string-Goes t.p.seq c u (opens-append t.p.seq (c ∷ []) b) (ground arith) empty)
        (Passing-Goes t.p.seq c _ (
          test-Passing (c == 0x1b) _ _ (λ esc. ending osc (ground arith) b)
            (if-Passing (is_cancel c) _ _ (sends c t empty)
              (if-Passing (ltb max_string (length seq)) _ _ to_pass (staying osc at b)))))
    where
      ending :
          (osc : Bool)
          → c ≡ 27
          → opens t.p.seq ≡ true
          → Passing t.p.seq c (
            in_state (if osc then osc_esc else ctl_string_esc) (with_seq (t.p.seq ++ c ∷ []) t),
            [],
          )
      ending true e b = record {
        all = refl;
        sound = (empty, (t.p.seq, (ap (λ x. t.p.seq ++ x ∷ []) e, b)));
      }
      ending false e b = record {
        all = refl;
        sound = (empty, (t.p.seq, (ap (λ x. t.p.seq ++ x ∷ []) e, b)));
      }

      staying :
          (osc : Bool)
          → t.p.state ≡ (if osc then osc_string else ctl_string)
          → opens t.p.seq ≡ true
          → Passing t.p.seq c (with_seq (t.p.seq ++ c ∷ []) t, [])
      staying true at b =
          stays-Passing c t _ osc_string (refl, (refl, opens-append t.p.seq (c ∷ []) b)) refl at
            empty
      staying false at b =
          stays-Passing c t _ ctl_string (refl, (refl, opens-append t.p.seq (c ∷ []) b)) refl at
            empty

  -- An ESC that does not end the string before it begins a sequence.
  fresh_escape-Passing : Passing (27 ∷ []) c (fresh_escape c t)
  unfolding fresh_escape Escaped
  fresh_escape-Passing =
      escape_step-Passing c (in_state escape (with_seq (27 ∷ []) t)) empty refl
        ([], (refl, only_none))

  string_esc_step-Goes :
      (s : List ℕ) → t.p.seq ≡ s ++ 27 ∷ [] → opens s ≡ true → Goes t.p.seq c (string_esc_step c t)
  unfolding string_esc_step is_last
  string_esc_step-Goes s e b =
      let opened : opens (t.p.seq ++ c ∷ []) ≡ true =
        ap (λ x. opens (x ++ c ∷ [])) e
        ∙ opens-append (s ++ 27 ∷ []) (c ∷ []) (opens-append s (27 ∷ []) b) in
      test-Goes (c == b'\\') _ _
        (λ st.
          end_string-Goes t.p.seq c (with_seq (t.p.seq ++ c ∷ []) t) opened (ground arith) empty)
        (record { moves = cuts s e b fresh_escape-Passing.all; sound = fresh_escape-Passing.sound })

  pass_step-Passing : t.p.state ≡ pass_string → Passing [] c (pass_step c t)
  unfolding pass_step withheld held_in IsSound SoundIn
  pass_step-Passing at =
      if-Passing (c == 0x07 || is_cancel c) _ _
        (at_ground (in_state ParserState.ground t) [] refl empty refl)
        (elim (Bool-cases (c == 0x1b)) [
          | inl esc ↦
              let is_esc : 27 ≡ c = ground arith in
              rw esc (record { all = ap (λ x. x ∷ []) is_esc; sound = empty })
          | inr other ↦ rw other (passed at)
        ])
    where
      passed : t.p.state ≡ pass_string → Passing [] c (t, c ∷ [])
      passed at =
          let e : reading t ≡ record { state = pass_string; seq = t.p.seq; utf8 = t.p.utf8 } =
            ap (λ s. record { state = s; seq = t.p.seq; utf8 = t.p.utf8 }) at in
          record { all = ap (λ r. (c ∷ []) ++ withheld r) e; sound = subst IsSound (sym e) empty }

  pass_esc_step-Goes : Goes (27 ∷ []) c (pass_esc_step c t)
  unfolding pass_esc_step
  pass_esc_step-Goes =
      if-Goes (c == b'\\') _ _
        (Passing-Goes (27 ∷ []) c _ (at_ground (in_state ParserState.ground t) [] refl empty refl))
        (record {
          moves = closes (fresh_escape c t).1 refl refl fresh_escape-Passing.all;
          sound = fresh_escape-Passing.sound;
        })

-- The cases of `step`.
abbrev step_at : (ℕ → Bool) → ℕ → Terminal → ParserState → Terminal × List ℕ
step_at is_mark c t s = elim s [
  | ParserState.ground ↦ ground_step is_mark c t
  | escape ↦ escape_step c t
  | esc_inter ↦ esc_inter_step c t
  | csi_entry ↦ csi_step is_mark c t
  | osc_string ↦ string_step true c t
  | osc_esc ↦ string_esc_step c t
  | ctl_string ↦ string_step false c t
  | ctl_string_esc ↦ string_esc_step c t
  | pass_string ↦ pass_step c t
  | pass_string_esc ↦ pass_esc_step c t
]

step_at-Goes :
    (is_mark : ℕ → Bool) (c : ℕ) (t : Terminal) (s : ParserState)
    → t.p.state ≡ s
    → SoundIn s t.p.seq t.p.utf8
    → Goes (held_in s t.p.seq t.p.utf8) c (step_at is_mark c t s)
unfolding held_in SoundIn ground_step
step_at-Goes is_mark c t ParserState.ground at h =
    Passing-Goes _ c _ (held_step-Passing is_mark t.p.utf8 c t at refl)
step_at-Goes is_mark c t escape at h = Passing-Goes _ c _ (escape_step-Passing c t h.0 at h.1)
step_at-Goes is_mark c t esc_inter at h = Passing-Goes _ c _ (esc_inter_step-Passing c t h at)
step_at-Goes is_mark c t csi_entry at h = csi_step-Goes c t h.0 is_mark at h.1
step_at-Goes is_mark c t osc_string at h = string_step-Goes c t h.0 true at h.1
step_at-Goes is_mark c t osc_esc at h = string_esc_step-Goes c t h.0 h.1.0 h.1.1.0 h.1.1.1
step_at-Goes is_mark c t ctl_string at h = string_step-Goes c t h.0 false at h.1
step_at-Goes is_mark c t ctl_string_esc at h = string_esc_step-Goes c t h.0 h.1.0 h.1.1.0 h.1.1.1
step_at-Goes is_mark c t pass_string at h = Passing-Goes _ c _ (pass_step-Passing c t h at)
step_at-Goes is_mark c t pass_string_esc at h = pass_esc_step-Goes c t h

pub step-Goes :
    (is_mark : ℕ → Bool) (c : ℕ) (t : Terminal)
    → IsSound (reading t)
    → Goes (withheld (reading t)) c (step is_mark c t)
unfolding step withheld IsSound
step-Goes is_mark c t h = step_at-Goes is_mark c t t.p.state refl h
