-- ===== src/AgentStore/Retained.antt =====
-- What the store of internal/agentenv/state.go retains of an operation over restarts.
use pomar.Prelude.{
  inl, inr, Bool, ◌&&◌, ◌||◌, not, Option, none, some, String, str_eq, Bool-cases, List, [], ◌∷◌,
}
use pomar.ProviderFence.{is_identity}
use pomar.AgentStore.{
  Operation, State, Store, World, Save, durable, lost, unsure, on_disk, is_durable, Result, ok, err,
  Outcome, refuse, answer, commit, commit_refused, ended,
}
use pomar.AgentStore.Service.{
  reopened, reopened_op, loaded, marking, opened, Opening, open_store, Method, method, Event, opens,
  closes, calls, open_free, called, after, run,
}
use pomar.AgentStore.Kept.{Holds, Holds-map, reopened_op-IsKept}
use pomar.AgentStore.Grows.{Grows}
use pomar.AgentStore.Grows.Methods.{method-Grows}

unfoldable pub OnDisk : String → Operation → Option State → Type 0
OnDisk id a none = ⊥
OnDisk id a (some s) = Holds id a s.operations

unfoldable pub InMemory : String → Operation → Option Store → Type 0
InMemory id a none = Unit
InMemory id a (some m) = Holds id a m.s.operations

-- The operation is on disk, and in the memory of the process that owns the store, as it was or
-- further on.
pub record IsRetained (id : String) (a : Operation) (w : World) : Type 0 where
  pub on_disk : OnDisk id a w.disk
  pub in_memory : InMemory id a w.store

module _ (id : String) (a : Operation) where
  saved-OnDisk :
      (w : Save) (s : State) (disk : Option State)
      → Holds id a s.operations
      → OnDisk id a disk
      → OnDisk id a (on_disk w s disk)
  unfolding on_disk OnDisk
  saved-OnDisk durable s disk h d = h
  saved-OnDisk lost s disk h d = d
  saved-OnDisk unsure s disk h d = h

  ended-IsRetained :
      (w : Save) (m : Store) (o : Outcome Bool) (world : World)
      → Grows m.s o
      → Holds id a m.s.operations
      → OnDisk id a world.disk
      → IsRetained id a (record world {
        disk = (ended w m world.disk o).0.1;
        store = some (ended w m world.disk o).0.0;
      })
  unfolding ended Grows InMemory
  ended-IsRetained w m (refuse e) world g h d = record { on_disk = d; in_memory = h }
  ended-IsRetained w m (answer b) world g h d = record { on_disk = d; in_memory = h }
  ended-IsRetained w m (commit s b) world g h d = record {
    on_disk = saved-OnDisk w s world.disk (g id a h) d;
    in_memory = g id a h;
  }
  ended-IsRetained w m (commit_refused s e) world g h d = record {
    on_disk = saved-OnDisk w s world.disk (g id a h) d;
    in_memory = g id a h;
  }

  -- The state that Open loads has the operation.
  unfoldable Loads : Result State → Type 0
  Loads (ok s) = Holds id a s.operations
  Loads (err e) = Unit

  loaded-Loads :
      (environment session incarnation : String) (disk : Option State) (marked : Bool)
      → OnDisk id a disk
      → Loads (loaded environment session incarnation disk marked)
  unfolding loaded reopened Loads OnDisk
  loaded-Loads environment session incarnation none marked d = absurd d
  loaded-Loads environment session incarnation (some s) marked d =
      elim (Bool-cases (not (str_eq s.environment environment) || not (str_eq s.session session))) [
        | inl other ↦ rw other tt
        | inr own ↦ elim (Bool-cases (str_eq s.incarnation incarnation)) [
          | inl same ↦ rw own (rw same tt)
          | inr next ↦
              rw own (rw next (Holds-map reopened_op id a s.operations reopened_op-IsKept d))
        ]
      ]

  marking-IsRetained :
      (writes : Bool) (w : World) → IsRetained id a w → IsRetained id a (marking writes w)
  unfolding marking InMemory
  marking-IsRetained writes w r = elim (Bool-cases (w.marked || writes)) [
    | inl there ↦ rw there (record { on_disk = r.on_disk; in_memory = r.in_memory })
    | inr fails ↦ rw fails (record { on_disk = r.on_disk; in_memory = tt })
  ]

  opened-IsRetained :
      (w : Save) (writes : Bool) (r : Result State) (world : World)
      → Loads r
      → IsRetained id a world
      → IsRetained id a (opened w writes r world)
  unfolding opened Loads InMemory
  opened-IsRetained w writes (err e) world h r = r
  opened-IsRetained w writes (ok s) world h r =
      let d = saved-OnDisk w s world.disk h r.on_disk in
      elim (Bool-cases (is_durable w)) [
        | inl done ↦ rw done (marking-IsRetained writes _ (record { on_disk = d; in_memory = h }))
        | inr fails ↦ rw fails (record { on_disk = d; in_memory = r.in_memory })
      ]

  open_store-IsRetained :
      (o : Opening) (w : World) → IsRetained id a w → IsRetained id a (open_store o w)
  unfolding open_store
  open_store-IsRetained o w r =
      elim (Bool-cases (
        is_identity o.environment
        && is_identity o.session
        && is_identity o.incarnation
        && o.readable)) [
          | inl goes ↦ rw goes (
              opened-IsRetained o.save o.writes_mark _ w
                (loaded-Loads o.environment o.session o.incarnation w.disk w.marked r.on_disk) r)
          | inr invalid ↦ rw invalid r
        ]

  open_free-IsRetained :
      (o : Opening) (store : Option Store) (w : World)
      → IsRetained id a w
      → IsRetained id a (open_free o store w)
  unfolding open_free
  open_free-IsRetained o none w r = open_store-IsRetained o w r
  open_free-IsRetained o (some m) w r = r

  called-IsRetained :
      (s : Save) (c : Method) (store : Option Store) (w : World)
      → InMemory id a store
      → IsRetained id a w
      → IsRetained id a (called s c store w).0
  unfolding called InMemory
  called-IsRetained s c none w h r = r
  called-IsRetained s c (some m) w h r =
      ended-IsRetained s m (method c m) w (method-Grows c m) h r.on_disk

  after-IsRetained : (e : Event) (w : World) → IsRetained id a w → IsRetained id a (after e w).0
  unfolding after InMemory
  after-IsRetained (opens o) w r = open_free-IsRetained o w.store w r
  after-IsRetained closes w r = record { on_disk = r.on_disk; in_memory = tt }
  after-IsRetained (calls s c) w r = called-IsRetained s c w.store w r.in_memory r

-- An operation that is on disk, and in memory where the store is open, stays in both through any
-- requests, failed writes, exits and restarts: with its incarnation and its input, and with its turn
-- and its completion once it has them.
pub run-IsRetained :
    (id : String) (a : Operation) (events : List Event) (w : World)
    → IsRetained id a w
    → IsRetained id a (run events w)
unfolding run
run-IsRetained id a [] w r = r
run-IsRetained id a (e ∷ events) w r =
    run-IsRetained id a events (after e w).0 (after-IsRetained id a e w r)
