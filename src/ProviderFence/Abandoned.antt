-- ===== src/ProviderFence/Abandoned.antt =====
-- An acknowledged `Abandon` is final.
use pomar.Prelude.{◌≡◌, inl, inr, true, false, ◌||◌, not, List, String, eq_iff, arith, Bool-cases}
use pomar.Prelude.Assoc.{insert, lookup-insert}
use pomar.ProviderFence.{abandoned, Record, State, Store, Dir, World, ok, is_identity, is_digest}
use pomar.ProviderFence.Calls.{abandon_in, abandon}
use pomar.ProviderFence.Moves.{is_fenced}
use pomar.ProviderFence.History.{Call, transaction-cases}
use pomar.ProviderFence.Once.{Holds, count_launches, save-answer, fenced_never}

abandon-ok :
    (s : Store) (id binding : String) (st : State) (r : Record)
    → (abandon_in s id binding st).1 ≡ ok r
    → ((abandon_in s id binding st).0.records ≡ insert id r st.records) × (r.phase ≡ abandoned)
unfolding abandon_in
abandon-ok s id binding st r e = ground arith

abandon-Holds :
    (s : Store) (w : World) (id binding : String) (dir : Dir) (r : Record)
    → (abandon s w id binding dir).answer ≡ ok r
    → Holds is_fenced id (abandon s w id binding dir).dir
unfolding abandon is_fenced
abandon-Holds s w id binding dir r e =
    elim (Bool-cases (not (is_identity id) || not (is_digest binding))) [
      | inl bad ↦ ground arith
      | inr good ↦ elim (transaction-cases s w false (abandon_in s id binding) dir) [
        | inl (_, never) ↦ absurd (never r (rw good at e))
        | inr (st, loaded, out) ↦
            let (a, b) =
              save-answer w.saved (record dir { lock = true }) (abandon_in s id binding st).0
                (abandon_in s id binding st).1 r (ground arith) in
            let (new, phase) = abandon-ok s id binding st r a in
            rw good (
              rw out (record {
                state = (abandon_in s id binding st).0;
                stored = b;
                entry = r;
                found = rw new (ground (arith, lookup-insert id id r st.records, eq_iff id id));
                is_kind = rw phase;
              }))
      ]
    ]

-- After an `Abandon` that was acknowledged, no later call of any handle starts the identity, whatever
-- is called and whatever fails.
pub abandoned_never :
    (s : Store) (w : World) (id binding : String) (dir : Dir) (r : Record)
    (cs : List (World × Call))
    → (abandon s w id binding dir).answer ≡ ok r
    → count_launches id cs (abandon s w id binding dir).dir ≡ 0
abandoned_never s w id binding dir r cs e =
    fenced_never id cs _ (abandon-Holds s w id binding dir r e)
