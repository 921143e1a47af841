-- ===== src/Frames/Writing.antt =====
-- What WriteFrame leaves on a stream that may take less than it is given.
use mathlib.Core.Path.{subst}
use pomar.Prelude.{
  ℕ, ◌%◌, ◌<◌, ◌≤◌, ◌≡◌, ◌⊎◌, inl, inr, refl, ap, sym, ◌∙◌, Option, none, some, List, [], ◌∷◌, ◌++◌,
  arith, length, drop, take-append-drop, take_all, append_assoc, append_nil, ltb, Bool-cases, false,
}
use pomar.Frames.{
  max_data, Error, short_write, broken, too_large, Write, whole, short, fails, write, then_write,
  write_frame, put_uint16,
}
use pomar.Frames.Reading.{frame_bytes}

-- The stream has a part of the bytes, and all of them or an error.
pub record IsPart (r : List ℕ × Option Error) (bytes : List ℕ) : Type 0 where
  pub missing : List ℕ
  pub part : r.0 ++ missing ≡ bytes
  pub complete : (r.0 ≡ bytes) ⊎ ((e : Error) × (r.1 ≡ some e))

write-IsPart : (w : Write) (bytes : List ℕ) → IsPart (write w bytes) bytes
unfolding write
write-IsPart whole bytes = record { missing = []; part = append_nil bytes; complete = inl refl }
write-IsPart (short n) bytes = record {
  missing = drop n bytes;
  part = take-append-drop n bytes;
  complete = elim (Bool-cases (ltb n (length bytes))) [
    | inl less ↦ inr (short_write, ground arith)
    | inr all ↦ inl (take_all n bytes (ground arith))
  ];
}
write-IsPart (fails n) bytes = record {
  missing = drop n bytes;
  part = take-append-drop n bytes;
  complete = inr (broken, refl);
}

then-IsPart :
    (a b : List ℕ × Option Error) {xs ys : List ℕ}
    → IsPart a xs
    → IsPart b ys
    → IsPart (then_write a b) (xs ++ ys)
unfolding then_write
then-IsPart (sent, none) (more, e) {xs} {ys} p q =
    let s : sent ≡ xs = elim p.complete [ inl s ↦ s | inr (x, bad) ↦ absurd (ground arith) ] in
    record {
      missing = q.missing;
      part = append_assoc sent more q.missing ∙ ap (λ l. sent ++ l) q.part ∙ ap (λ l. l ++ ys) s;
      complete = elim q.complete [
        | inl m ↦ inl (ap (λ l. sent ++ l) m ∙ ap (λ l. l ++ ys) s)
        | inr bad ↦ inr bad
      ];
    }
then-IsPart (sent, some e) (more, e') {xs} {ys} p q = record {
  missing = p.missing ++ ys;
  part = sym (append_assoc sent p.missing ys) ∙ ap (λ l. l ++ ys) p.part;
  complete = inr (e, refl);
}

abbrev wrap : List ℕ → ℕ
wrap payload = length payload % 65536

writes_of :
    (first second : Write) (kind b : ℕ) (bs : List ℕ)
    → ltb max_data (length (b ∷ bs)) ≡ false
    → then_write (write first (kind ∷ put_uint16 (wrap (b ∷ bs)))) (write second (b ∷ bs))
      ≡ write_frame first second kind (b ∷ bs)
unfolding write_frame
writes_of first second kind b bs fits = ground arith

bytes_of :
    (kind b : ℕ) (bs : List ℕ)
    → ltb max_data (length (b ∷ bs)) ≡ false
    → (kind ∷ put_uint16 (wrap (b ∷ bs))) ++ (b ∷ bs) ≡ frame_bytes kind (b ∷ bs)
unfolding frame_bytes write then_write
bytes_of kind b bs fits = ap (λ r. r.0) (writes_of whole whole kind b bs fits)

-- On any stream, WriteFrame refuses a payload of more than 32 KiB and writes nothing. Of any other
-- frame the stream gets a first part, and either the whole frame or the caller an error.
pub write_frame-IsPart :
    (first second : Write) (kind : ℕ) (payload : List ℕ)
    → ((max_data < length payload) × (write_frame first second kind payload ≡ ([], some too_large)))
      ⊎ ((length payload ≤ max_data)
          × IsPart (write_frame first second kind payload) (frame_bytes kind payload))
unfolding write_frame frame_bytes write
write_frame-IsPart first second kind [] =
    inr (omega arith, write-IsPart first (kind ∷ put_uint16 0))
write_frame-IsPart first second kind (b ∷ bs) = elim (Bool-cases (ltb max_data (length (b ∷ bs)))) [
  | inl over ↦ inl (ground arith, rw over)
  | inr fits ↦
      let part =
        then-IsPart _ _ (write-IsPart first (kind ∷ put_uint16 (wrap (b ∷ bs))))
          (write-IsPart second (b ∷ bs)) in
      inr (
        ground arith,
        subst (IsPart (write_frame first second kind (b ∷ bs))) (bytes_of kind b bs fits) (
            subst (λ r. IsPart r ((kind ∷ put_uint16 (wrap (b ∷ bs))) ++ (b ∷ bs)))
              (writes_of first second kind b bs fits) part),
      )
]
