-- ===== src/Terminal/Wire/Held.antt =====
-- What the parser of internal/termstate holds back in each state, and what a held sequence begins with.
use pomar.Prelude.{
  ℕ, ◌≡◌, Bool, true, false, ◌&&◌, ◌||◌, List, [], ◌∷◌, ◌++◌, ltb, ◌==◌, arith, ◌∙◌, ap,
  if◌then◌else◌,
}
use pomar.Terminal.{
  ParserState, escape, esc_inter, osc_esc, ctl_string_esc, pass_string, pass_string_esc,
}
use pomar.Terminal.Wire.Reading.{Reading}
use pomar.Terminal.Wire.Sequences.{is_query_final}

-- The bytes that are held back, by the state of the parser.
unfoldable pub held_in : ParserState → List ℕ → List ℕ → List ℕ
held_in ParserState.ground seq utf8 = utf8
held_in pass_string seq utf8 = []
held_in pass_string_esc seq utf8 = 27 ∷ []
held_in _ seq utf8 = seq

unfoldable pub withheld : Reading → List ℕ
withheld r = held_in r.state r.seq r.utf8

-- An ESC, perhaps controls, and a byte that makes it a control sequence or a string.
unfoldable pub is_opener : ℕ → Bool
is_opener c = c == b'[' || c == b']' || c == b'P' || c == b'X' || c == b'^' || c == b'_'

unfoldable pub opens_after : List ℕ → Bool
opens_after [] = false
opens_after (c ∷ s) = if ltb c 0x20 then opens_after s else is_opener c

unfoldable pub opens : List ℕ → Bool
opens [] = false
opens (c ∷ s) = c == 27 && opens_after s

unfoldable pub only_controls : List ℕ → Bool
only_controls [] = true
only_controls (c ∷ s) = ltb c 0x20 && only_controls s

opens_after-append : (s x : List ℕ) → opens_after s ≡ true → opens_after (s ++ x) ≡ true
unfolding opens_after
opens_after-append [] x h = absurd (cc)
opens_after-append (c ∷ s) x h = ground (arith, opens_after-append s x)

pub opens-append : (s x : List ℕ) → opens s ≡ true → opens (s ++ x) ≡ true
unfolding opens
opens-append [] x h = absurd (cc)
opens-append (c ∷ s) x h = ground (arith, opens_after-append s x)

opens_after-new :
    (s : List ℕ) (c : ℕ)
    → only_controls s ≡ true
    → is_opener c ≡ true
    → opens_after (s ++ c ∷ []) ≡ true
unfolding opens_after only_controls is_opener
opens_after-new [] c h o = ground arith
opens_after-new (d ∷ s) c h o = ground (arith, opens_after-new s c)

pub only_controls-append :
    (s : List ℕ) (c : ℕ)
    → only_controls s ≡ true
    → ltb c 0x20 ≡ true
    → only_controls (s ++ c ∷ []) ≡ true
unfolding only_controls
only_controls-append [] c h o = ground arith
only_controls-append (d ∷ s) c h o = ground (arith, only_controls-append s c)

-- The last byte of a query, or of a string.
unfoldable pub is_last : ℕ → Bool
is_last c = is_query_final c || c == 0x07 || c == b'\\'

-- An ESC and controls.
unfoldable pub Escaped : List ℕ → Type 0
Escaped seq = (s : List ℕ) × ((seq ≡ 27 ∷ s) × (only_controls s ≡ true))

pub Escaped-opens :
    (seq : List ℕ) (c : ℕ) → Escaped seq → is_opener c ≡ true → opens (seq ++ c ∷ []) ≡ true
unfolding Escaped opens
Escaped-opens seq c (s, (e, controls)) o =
    ap (λ x. opens (x ++ c ∷ [])) e ∙ opens_after-new s c controls o

pub Escaped-append :
    (seq : List ℕ) (c : ℕ) → Escaped seq → ltb c 0x20 ≡ true → Escaped (seq ++ c ∷ [])
unfolding Escaped
Escaped-append seq c (s, (e, controls)) o =
    (s ++ c ∷ [], (ap (λ x. x ++ c ∷ []) e, only_controls-append s c controls o))

-- What a sequence in progress begins with; where a string may be ending it ends with an ESC, and no
-- character is in progress then.
unfoldable pub SoundIn : ParserState → List ℕ → List ℕ → Type 0
SoundIn ParserState.ground seq utf8 = Unit
SoundIn pass_string seq utf8 = utf8 ≡ []
SoundIn pass_string_esc seq utf8 = utf8 ≡ []
SoundIn osc_esc seq utf8 = (utf8 ≡ []) × ((s : List ℕ) × ((seq ≡ s ++ 27 ∷ []) × (opens s ≡ true)))
SoundIn ctl_string_esc seq utf8 =
    (utf8 ≡ []) × ((s : List ℕ) × ((seq ≡ s ++ 27 ∷ []) × (opens s ≡ true)))
SoundIn escape seq utf8 = (utf8 ≡ []) × Escaped seq
SoundIn esc_inter seq utf8 = utf8 ≡ []
SoundIn _ seq utf8 = (utf8 ≡ []) × (opens seq ≡ true)

unfoldable pub IsSound : Reading → Type 0
IsSound r = SoundIn r.state r.seq r.utf8
