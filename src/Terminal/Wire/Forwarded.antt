-- ===== src/Terminal/Wire/Forwarded.antt =====
-- What `Feed` of internal/termstate/terminal.go forwards of the bytes it gets, and what it holds.
use mathlib.Core.Path.{subst}
use pomar.Prelude.{
  ℕ, ◌≡◌, refl, Bool, true, false, ◌||◌, List, [], ◌∷◌, ◌++◌, ◌==◌, arith, ◌∙◌, sym, ap, append_nil,
  append_assoc,
}
use pomar.Terminal.{Terminal}
use pomar.Terminal.Parse.{step, feed}
use pomar.Terminal.Wire.Reading.{reading}
use pomar.Terminal.Wire.Held.{withheld, opens, opens_after, IsSound, is_last}
use pomar.Terminal.Wire.Steps.{Moves, passes}
use pomar.Terminal.Wire.Bytes.{step-Goes}

-- Of some bytes, in their order, each is forwarded, or is held with all that follow it, or is dropped
-- with a query or a string, from its ESC to its last byte or before an ESC that cuts it off. Before an
-- ESC the end of a string, `ESC \`, may be added.
pub data IsForwarded : List ℕ → List ℕ → List ℕ → Type 0 where
  holds : (held : List ℕ) → IsForwarded held [] held
  sends :
      (c : ℕ) {bytes out held : List ℕ}
      → IsForwarded bytes out held
      → IsForwarded (c ∷ bytes) (c ∷ out) held
  drops :
      (s : List ℕ) (c : ℕ) {bytes out held : List ℕ}
      → opens (s ++ c ∷ []) ≡ true
      → is_last c ≡ true
      → IsForwarded bytes out held
      → IsForwarded (s ++ c ∷ bytes) out held
  cuts :
      (s : List ℕ) {bytes out held : List ℕ}
      → opens s ≡ true
      → IsForwarded (27 ∷ bytes) out held
      → IsForwarded (s ++ 27 ∷ bytes) out held
  closes :
      {bytes out held : List ℕ}
      → IsForwarded (27 ∷ bytes) out held
      → IsForwarded (27 ∷ bytes) (27 ∷ b'\\' ∷ out) held

sends_all :
    (o : List ℕ) {bytes out held : List ℕ}
    → IsForwarded bytes out held
    → IsForwarded (o ++ bytes) (o ++ out) held
sends_all [] f = f
sends_all (c ∷ o) f = sends c (sends_all o f)

-- Bytes that are sent, or held before the rest.
sends_part :
    (o held s : List ℕ) {bytes out rest : List ℕ}
    → o ++ held ≡ bytes
    → IsForwarded (held ++ s) out rest
    → IsForwarded (bytes ++ s) (o ++ out) rest
sends_part o held s {bytes} {out} {rest} e f =
    subst (λ x. IsForwarded x (o ++ out) rest) (sym (append_assoc o held s) ∙ ap (λ x. x ++ s) e)
      (sends_all o f)

moves-IsForwarded :
    (held : List ℕ) (c : ℕ) (o held' s : List ℕ) {out rest : List ℕ}
    → Moves held c o held'
    → IsForwarded (held' ++ s) out rest
    → IsForwarded (held ++ c ∷ s) (o ++ out) rest
moves-IsForwarded held c o held' s {out} {rest} m f =
    let at : (held ++ c ∷ []) ++ s ≡ held ++ c ∷ s = append_assoc held (c ∷ []) s in
    elim m [
      | passes all ↦ subst (λ x. IsForwarded x (o ++ out) rest) at (sends_part o held' s all f)
      | Moves.drops b last nothing none ↦
          let f' : IsForwarded s out rest = subst (λ x. IsForwarded (x ++ s) out rest) none f in
          subst (λ x. IsForwarded (held ++ c ∷ s) (x ++ out) rest) (sym nothing)
            (drops held c b last f')
      | Moves.cuts b e opened all ↦
          let e' : b ++ 27 ∷ c ∷ s ≡ held ++ c ∷ s =
            sym (append_assoc b (27 ∷ []) (c ∷ s)) ∙ ap (λ x. x ++ c ∷ s) (sym e) in
          subst (λ x. IsForwarded x (o ++ out) rest) e' (cuts b opened (sends_part o held' s all f))
      | Moves.closes o' e sent all ↦
          let f' : IsForwarded (27 ∷ c ∷ s) (o' ++ out) rest = sends_part o' held' s all f in
          subst (λ x. IsForwarded (held ++ c ∷ s) (x ++ out) rest) (sym sent)
            (subst (λ x. IsForwarded (x ++ c ∷ s) (27 ∷ b'\\' ∷ o' ++ out) rest) (sym e)
              (closes f'))
    ]

-- From a terminal whose parser holds a character or a sequence as its state says: the bytes that `Feed`
-- gets, after those that are held, are forwarded in their order, each once, but for those that are held
-- then, and for parts that open with an ESC as a control sequence or a string does, and go up to a byte
-- that ends a query or a string, or up to an ESC; and nothing else is forwarded but the end of a string
-- before an ESC.
pub feed-IsForwarded :
    (is_mark : ℕ → Bool) (s : List ℕ) (t : Terminal)
    → IsSound (reading t)
    → IsForwarded
        (withheld (reading t) ++ s)
        (feed is_mark s t).1
        (withheld (reading (feed is_mark s t).0))
unfolding feed
feed-IsForwarded is_mark [] t h =
    subst (λ x. IsForwarded x [] (withheld (reading t))) (sym (append_nil (withheld (reading t))))
      (holds (withheld (reading t)))
feed-IsForwarded is_mark (c ∷ s) t h =
    let r = step is_mark c t in
    let g = step-Goes is_mark c t h in
    moves-IsForwarded (withheld (reading t)) c r.1 (withheld (reading r.0)) s g.moves
      (feed-IsForwarded is_mark s r.0 g.sound)

-- No byte is an ESC.
unfoldable pub has_escape : List ℕ → Bool
has_escape [] = false
has_escape (c ∷ s) = c == 27 || has_escape s

IsForwarded-plain :
    {bytes out held : List ℕ}
    → IsForwarded bytes out held
    → has_escape bytes ≡ false
    → out ++ held ≡ bytes
unfolding has_escape opens opens_after
IsForwarded-plain (holds held) h = refl
IsForwarded-plain (sends c f) h = ap (λ x. c ∷ x) (IsForwarded-plain f (ground arith))
IsForwarded-plain (drops [] c o l f) h = absurd (ground arith)
IsForwarded-plain (drops (d ∷ s) c o l f) h = absurd (ground arith)
IsForwarded-plain (cuts [] o f) h = absurd cc
IsForwarded-plain (cuts (d ∷ s) o f) h = absurd (ground arith)
IsForwarded-plain (closes f) h = absurd (ground arith)

-- From a terminal whose parser holds a character or a sequence as its state says, where no byte that is
-- held or fed is an ESC, those forwarded and then those held are those that were held and then those
-- fed: nothing is lost or added.
pub feed-plain :
    (is_mark : ℕ → Bool) (s : List ℕ) (t : Terminal)
    → IsSound (reading t)
    → has_escape (withheld (reading t) ++ s) ≡ false
    → (feed is_mark s t).1 ++ withheld (reading (feed is_mark s t).0) ≡ withheld (reading t) ++ s
feed-plain is_mark s t h plain = IsForwarded-plain (feed-IsForwarded is_mark s t h) plain
