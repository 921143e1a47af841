-- ===== src/Terminal/Wire/Steps.antt =====
-- What each step of the parser of internal/termstate forwards, and what it holds back.
use mathlib.Core.Path.{subst}
use pomar.Prelude.{
  ℕ, ◌-◌, ◌≡◌, refl, Bool, true, List, [], ◌∷◌, ◌++◌, ◌==◌, arith, ◌∙◌, Bool-cases, inl, inr, ◌⊎◌,
  get_or, sym, ap, append_nil,
}
use pomar.Terminal.{Terminal, ParserState, reset}
use pomar.Terminal.Screen.{at_x}
use pomar.Terminal.Controls.{save_cursor}
use pomar.Terminal.Edit.{align}
use pomar.Terminal.Text.{before, after}
use pomar.Terminal.Parse.{
  with_seq, in_state, print_rune, print_ascii, control, esc_action, esc_dispatch,
  esc_inter_dispatch, dec_graphics, string_body, end_osc, end_dcs, end_string,
}
use pomar.Terminal.Wire.Reading.{
  Reading, reading, with_grid-reading, line_feed-reading, reverse_index-reading, print-reading,
}
use pomar.Terminal.Wire.Held.{held_in, withheld, opens, is_last, SoundIn, IsSound}

-- What a step that holds some bytes and gets another one forwards, and holds then: all of these; all
-- but a whole query or string; all but a string that an ESC cuts off; or these with a string ended before.
pub data Moves (held : List ℕ) (c : ℕ) (out held' : List ℕ) : Type 0 where
  passes : out ++ held' ≡ held ++ c ∷ [] → Moves held c out held'
  drops :
      opens (held ++ c ∷ []) ≡ true
      → is_last c ≡ true
      → out ≡ []
      → held' ≡ []
      → Moves held c out held'
  cuts :
      (s : List ℕ)
      → held ≡ s ++ 27 ∷ []
      → opens s ≡ true
      → out ++ held' ≡ 27 ∷ c ∷ []
      → Moves held c out held'
  closes :
      (o : List ℕ)
      → held ≡ 27 ∷ []
      → out ≡ 27 ∷ b'\\' ∷ o
      → o ++ held' ≡ 27 ∷ c ∷ []
      → Moves held c out held'

pub record Goes (held : List ℕ) (c : ℕ) (r : Terminal × List ℕ) : Type 0 where
  pub moves : Moves held c r.1 (withheld (reading r.0))
  pub sound : IsSound (reading r.0)

-- From what is read of the terminal after the step.
pub goes :
    {held : List ℕ} {c : ℕ} {out : List ℕ} {t : Terminal} (r : Reading)
    → reading t ≡ r
    → Moves held c out (withheld r)
    → IsSound r
    → Goes held c (t, out)
goes {held} {c} {out} r e m s = record {
  moves = subst (λ x. Moves held c out (withheld x)) (sym e) m;
  sound = subst IsSound (sym e) s;
}

abbrev at_state : ParserState → Reading → Reading
at_state s r = record r { state = s }

pub control-reading : (c : ℕ) (t : Terminal) → reading (control c t) ≡ reading t
unfolding control
control-reading c t = ground (arith, line_feed-reading t)

pub print_rune-reading :
    (is_mark : ℕ → Bool) (r : ℕ) (t : Terminal) → reading (print_rune is_mark r t) ≡ reading t
unfolding print_rune
print_rune-reading is_mark r t = print-reading _ _ t

pub print_ascii-reading : (c : ℕ) (t : Terminal) → reading (print_ascii c t) ≡ reading t
unfolding print_ascii
print_ascii-reading c t =
    let e1 = print-reading (get_or dec_graphics (c - 0x5f) 0 ∷ []) 1 t in
    let e2 = print-reading (c ∷ []) 1 t in ground arith

pub esc_dispatch-reading : (c : ℕ) (t : Terminal) → reading (esc_dispatch c t) ≡ reading t
unfolding esc_dispatch esc_action save_cursor reset
esc_dispatch-reading c t =
    ground (arith, line_feed-reading t, line_feed-reading (at_x t 0), reverse_index-reading t)

align-reading : (t : Terminal) → reading (align t) ≡ reading t
unfolding align
align-reading t = with_grid-reading t _

pub esc_inter_dispatch-reading :
    (s : List ℕ) (t : Terminal) → reading (esc_inter_dispatch s t) ≡ reading t
unfolding esc_inter_dispatch
esc_inter_dispatch-reading [] t = refl
esc_inter_dispatch-reading (e ∷ []) t = refl
esc_inter_dispatch-reading (e ∷ i ∷ []) t = refl
esc_inter_dispatch-reading (e ∷ i ∷ f ∷ []) t = ground (arith, align-reading t)
esc_inter_dispatch-reading (e ∷ i ∷ f ∷ g ∷ s) t = refl

-- A string that ends is forwarded whole, or not at all.
unfoldable IsEnd : List ℕ → Terminal → Terminal × List ℕ → Type 0
IsEnd seq t r = (reading r.0 ≡ reading t) × ((r.1 ≡ seq) ⊎ (r.1 ≡ []))

whole : (seq : List ℕ) (t : Terminal) → IsEnd seq t (t, seq)
unfolding IsEnd
whole seq t = (refl, inl refl)

end_osc-IsEnd : (seq num rest : List ℕ) (t : Terminal) → IsEnd seq t (end_osc seq num rest t)
unfolding end_osc IsEnd
end_osc-IsEnd seq num rest t = ground arith

end_dcs-IsEnd : (seq body : List ℕ) (t : Terminal) → IsEnd seq t (end_dcs seq body t)
unfolding end_dcs IsEnd
end_dcs-IsEnd seq body t = ground arith

end_string-IsEnd :
    (s : List ℕ) (t : Terminal) → IsEnd s (in_state ParserState.ground t) (end_string s t)
unfolding end_string
end_string-IsEnd [] t = whole [] _
end_string-IsEnd (e ∷ []) t = whole (e ∷ []) _
end_string-IsEnd (e ∷ k ∷ s) t =
    let u = in_state ParserState.ground t in
    let seq = e ∷ k ∷ s in
    elim (Bool-cases (k == b']')) [
      | inl osc ↦
          rw osc (end_osc-IsEnd seq (before b';' (string_body s)) (after b';' (string_body s)) u)
      | inr other ↦ elim (Bool-cases (k == b'P')) [
        | inl dcs ↦ rw other (rw dcs (end_dcs-IsEnd seq (string_body s) u))
        | inr none ↦ rw other (rw none (whole seq u))
      ]
    ]

pub end_string-Goes :
    (held : List ℕ) (c : ℕ) (t : Terminal)
    → opens (held ++ c ∷ []) ≡ true
    → is_last c ≡ true
    → t.p.utf8 ≡ []
    → Goes held c (end_string (held ++ c ∷ []) t)
unfolding IsEnd withheld held_in IsSound SoundIn
end_string-Goes held c t b last empty =
    let seq = held ++ c ∷ [] in
    let (e, out) = end_string-IsEnd seq t in
    goes (at_state ParserState.ground (reading t)) e
      (elim out [
        | inl all ↦
            passes
              (ap (λ x. (end_string seq t).1 ++ x) empty ∙ append_nil (end_string seq t).1 ∙ all)
        | inr none ↦ drops b last none empty
      ])
      tt

-- A step that passes each byte on, or holds it.
pub record Passing (held : List ℕ) (c : ℕ) (r : Terminal × List ℕ) : Type 0 where
  pub all : r.1 ++ withheld (reading r.0) ≡ held ++ c ∷ []
  pub sound : IsSound (reading r.0)

pub Passing-Goes :
    (held : List ℕ) (c : ℕ) (r : Terminal × List ℕ) → Passing held c r → Goes held c r
Passing-Goes held c r p = record { moves = passes p.all; sound = p.sound }

-- The bytes of the sequence are forwarded, and the parser is in the ground state.
pub sent-Passing :
    (held : List ℕ) (c : ℕ) (t : Terminal)
    → t.p.utf8 ≡ []
    → Passing held c (in_state ParserState.ground t, held ++ c ∷ [])
unfolding withheld held_in IsSound SoundIn
sent-Passing held c t empty = record {
  all = ap (λ x. (held ++ c ∷ []) ++ x) empty ∙ append_nil (held ++ c ∷ []);
  sound = tt;
}

pub sent_after-Passing :
    (held : List ℕ) (c : ℕ) (t u : Terminal)
    → reading u ≡ reading t
    → t.p.utf8 ≡ []
    → Passing held c (in_state ParserState.ground u, held ++ c ∷ [])
sent_after-Passing held c t u e empty = sent-Passing held c u (ap (λ r. r.utf8) e ∙ empty)

-- A state that holds a sequence.
unfoldable pub Holding : ParserState → List ℕ → Type 0
Holding s seq = (held_in s seq [] ≡ seq) × SoundIn s seq []

pub kept-Passing :
    (c : ℕ) (t u : Terminal) (s : ParserState)
    → Holding s (t.p.seq ++ c ∷ [])
    → reading u ≡ record { state = s; seq = t.p.seq ++ c ∷ []; utf8 = t.p.utf8 }
    → t.p.utf8 ≡ []
    → Passing t.p.seq c (u, [])
unfolding Holding withheld IsSound
kept-Passing c t u s holding e empty =
    let seq = t.p.seq ++ c ∷ [] in
    let e' : reading u ≡ record { state = s; seq = seq; utf8 = [] } =
      e ∙ ap (λ x. record { state = s; seq = seq; utf8 = x }) empty in
    let (held, sound) = holding in
    record { all = ap withheld e' ∙ held; sound = subst IsSound (sym e') sound }

-- The same, where the state stays.
pub stays-Passing :
    (c : ℕ) (t u : Terminal) (s : ParserState)
    → Holding s (t.p.seq ++ c ∷ [])
    → reading u ≡ reading (with_seq (t.p.seq ++ c ∷ []) t)
    → t.p.state ≡ s
    → t.p.utf8 ≡ []
    → Passing t.p.seq c (u, [])
stays-Passing c t u s holding e at empty =
    kept-Passing c t u s holding
      (e ∙ ap (λ x. record { state = x; seq = t.p.seq ++ c ∷ []; utf8 = t.p.utf8 }) at) empty
