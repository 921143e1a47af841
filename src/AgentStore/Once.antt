-- ===== src/AgentStore/Once.antt =====
-- How often the store of internal/agentenv/state.go lets a task be dispatched.
use mathlib.Core.Path.{subst}
use pomar.Prelude.{
  ◌*◌, ltb, ◌≡◌, refl, sym, ◌∙◌, Bool, true, false, ◌||◌, not, Option, none, some, str_eq, eq_iff,
  if◌then◌else◌, List,
}
use pomar.Prelude.Assoc.{Assoc, lookup, insert, lookup-insert}
use pomar.ProviderFence.{is_identity}
use pomar.AgentStore.{
  Error, conflict, Control, is_busy, other_input, Operation, State, Store, World, Save, durable,
  lost, unsure, on_disk, is_durable, Result, ok, Outcome, refuse, answer, commit, commit_refused,
  ended, checked, Task, new_operation, begin, begin_free, begin_found, begin_new,
}
use pomar.AgentStore.Service.{begins, method, dispatches, Event, calls, called, after, run}
use pomar.AgentStore.Kept.{same-IsKept, Holds}
use pomar.AgentStore.Retained.{OnDisk, InMemory, IsRetained, run-IsRetained}

-- A request to begin.
abbrev pub requested : Save → Task → World → World × Option (Result Bool)
requested w t = after (calls w (begins t))

-- What is saved where the answer says to dispatch.
unfoldable Says {ℓ} : {A : Type ℓ} → (State → Type 0) → Outcome (A × Bool) → Type 0
Says P (refuse e) = Unit
Says P (answer a) = a.1 ≡ false
Says P (commit s a) = P s
Says P (commit_refused s e) = Unit

module _ (P : State → Type 0) where
  refuse-Says : (e : Error) → Says {A = Operation} P (refuse e)
  unfolding Says
  refuse-Says e = tt

  guard-Says :
      (b : Bool) (e : Error) (o : Outcome (Operation × Bool))
      → Says P o
      → Says P (if b then refuse e else o)
  guard-Says true e o h = refuse-Says e
  guard-Says false e o h = h

  allowed-Says :
      (b : Bool) (e : Error) (o : Outcome (Operation × Bool))
      → Says P o
      → Says P (if b then o else refuse e)
  allowed-Says true e o h = h
  allowed-Says false e o h = refuse-Says e

  begin_new-Says :
      (t : Task) (s : State)
      → P (record s { operations = insert t.id (new_operation t) s.operations })
      → Says P (begin_new t s)
  unfolding begin_new Says
  begin_new-Says t s h =
      guard-Says (is_busy t.id s s.operations) _ _
        (guard-Says (other_input t.id t.hash s.continuations) _ _ h)

  begin_found-Says :
      (t : Task) (o : Option Operation) (s : State)
      → (o ≡ none → P (record s { operations = insert t.id (new_operation t) s.operations }))
      → Says P (begin_found t o s)
  unfolding begin_found Says
  begin_found-Says t none s h = begin_new-Says t s (h refl)
  begin_found-Says t (some op) s h = allowed-Says (str_eq op.input_hash t.hash) _ _ refl

  begin_free-Says :
      (t : Task) (o : Option Control) (s : State)
      → (lookup t.id s.operations ≡ none
          → P (record s { operations = insert t.id (new_operation t) s.operations }))
      → Says P (begin_free t o s)
  unfolding begin_free
  begin_free-Says t none s h = begin_found-Says t (lookup t.id s.operations) s h
  begin_free-Says t (some c) s h = refuse-Says conflict

  begin-Says :
      (t : Task) (m : Store)
      → (lookup t.id m.s.operations ≡ none
          → P (record m.s { operations = insert t.id (new_operation t) m.s.operations }))
      → Says P (checked t.incarnation m (begin t m.s))
  unfolding begin checked
  begin-Says t m h = guard-Says m.fatal _ _ (
      allowed-Says (str_eq t.incarnation m.s.incarnation) _ _ (
        guard-Says (not (is_identity t.id) || ltb t.size 1 || ltb (64 * 1024) t.size) _ _
          (begin_free-Says t (lookup t.id m.s.controls) m.s h)))

  -- Where the request is answered with a dispatch, a state was saved, is on disk and in memory.
  said-saves :
      (w : Save) (m : Store) (disk : Option State) (o : Outcome (Operation × Bool))
      → Says P o
      → (ended w m disk (dispatches o)).1 ≡ ok true
      → (s : State) × P s
        × ((ended w m disk (dispatches o)).0.1 ≡ some s)
        × ((ended w m disk (dispatches o)).0.0.s ≡ s)
  unfolding Says ended dispatches is_durable on_disk
  said-saves w m disk (refuse e) h a = absurd cc
  said-saves w m disk (answer (op, b)) h a = absurd cc
  said-saves durable m disk (commit s (op, b)) h a = (s, h, refl, refl)
  said-saves lost m disk (commit s (op, b)) h a = absurd cc
  said-saves unsure m disk (commit s (op, b)) h a = absurd cc
  said-saves durable m disk (commit_refused s e) h a = absurd cc
  said-saves lost m disk (commit_refused s e) h a = absurd cc
  said-saves unsure m disk (commit_refused s e) h a = absurd cc

new-Holds :
    (t : Task) (ops : Assoc Operation)
    → Holds t.id (new_operation t) (insert t.id (new_operation t) ops)
new-Holds t ops = record {
  now = new_operation t;
  found = lookup-insert t.id t.id (new_operation t) ops ∙ rw ((eq_iff t.id t.id).1 refl) refl;
  kept = same-IsKept (new_operation t);
}

called-retains :
    (w : Save) (t : Task) (store : Option Store) (world : World)
    → (called w (begins t) store world).1 ≡ some (ok true)
    → IsRetained t.id (new_operation t) (called w (begins t) store world).0
unfolding called method OnDisk InMemory
called-retains w t none world a = absurd cc
called-retains w t (some m) world a =
    let id = t.id in
    let op = new_operation t in
    let (s, h, on_disk, in_memory) =
      said-saves (λ s. Holds id op s.operations) w m world.disk
        (checked t.incarnation m (begin t m.s))
        (begin-Says (λ s. Holds id op s.operations) t m (λ _. new-Holds t m.s.operations)) (cc) in
    record {
      on_disk = subst (OnDisk id op) (sym on_disk) h;
      in_memory = subst (λ s. Holds id op s.operations) (sym in_memory) h;
    }

called-refuses :
    (w : Save) (t : Task) (store : Option Store) (world : World) (a : Operation)
    → InMemory t.id a store
    → ¬ ((called w (begins t) store world).1 ≡ some (ok true))
unfolding called method InMemory
called-refuses w t none world a h e = cc
called-refuses w t (some m) world a h e =
    let (s, wrong, on_disk, in_memory) =
      said-saves (λ _. ⊥) w m world.disk (checked t.incarnation m (begin t m.s))
        (begin-Says (λ _. ⊥) t m (λ new. let f = h.found in cc)) (cc) in
    wrong

-- After a request to begin a task that was answered with a dispatch, no request to begin a task of
-- the same id is, whatever was requested in between, and whatever writes failed, and over exits and
-- restarts.
pub dispatched_once :
    (w w' : Save) (t t' : Task) (events : List Event) (world : World)
    → t'.id ≡ t.id
    → (requested w t world).1 ≡ some (ok true)
    → ¬ ((requested w' t' (run events (requested w t world).0)).1 ≡ some (ok true))
unfolding after
dispatched_once w w' t t' events world same a =
    let r =
      run-IsRetained t.id (new_operation t) events _ (called-retains w t world.store world a) in
    called-refuses w' t' _ _ (new_operation t) (
      subst (λ id. InMemory id (new_operation t) (run events (requested w t world).0).store)
        (sym same) r.in_memory)
