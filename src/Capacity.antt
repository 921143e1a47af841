-- ===== src/Capacity.antt =====
-- internal/capacity (capacity.go, allocation.go) and the fill limit of internal/hostpolicy/disk.go:
-- may a host take one more attempt of a job class beside the live ones?
-- Every number of the code is an int64 or a 64-bit int: a `ℤ` whose sums, differences and products
-- go through `wrap64`. An error is `err`; the text that a refusal carries is left out.
pub mod Ranges
pub mod Accounting
pub mod Limits
pub mod Room
pub mod Decision
pub mod Admit
pub mod Fit
use Prim.Native.Nat.{ℕ}
use pomar.Prelude.{
  ◌^◌, ◌*◌, Bool, true, false, ◌&&◌, ◌||◌, List, [], ◌∷◌, ◌++◌, Option, none, some, String, str_eq,
  if◌then◌else◌,
}
use pomar.Prelude.Int.{ℤ, pos, ltb_ℤ, min_ℤ, ◌/ℤ◌, ◌%ℤ◌}
use pomar.Prelude.Int64.{max_int64, add64, sub64, mul64}

abbrev pub gib : ℕ
gib = 2 ^ 30

abbrev pub headroom_bytes : ℤ
headroom_bytes = pos (10 * gib)

-- `DiskLimit` of internal/hostpolicy/disk.go, and its `Validated`.
pub record DiskLimit : Type 0 where
  pub percent : ℤ
  pub source : String

abbrev pub default_max_fill_percent : ℤ
default_max_fill_percent = pos 85

unfoldable pub validated : DiskLimit → DiskLimit
validated p =
    if ltb_ℤ p.percent (pos 1) || ltb_ℤ (pos 99) p.percent
    then record { percent = default_max_fill_percent; source = "built-in default" }
    else if str_eq p.source ""
    then record p { source = "explicit host setting" }
    else p

pub record Class : Type 0 where
  pub name : String
  pub vcpu : ℤ
  pub memory_bytes : ℤ
  pub vm_overhead_bytes : ℤ
  pub disk_peak_bytes : ℤ
  pub concurrency : ℤ
  pub measured : Bool
  pub time_limit_seconds : ℤ
  pub log_cap_bytes : ℤ
  pub output_cap_bytes : ℤ

pub record Host : Type 0 where
  pub cpu_slots : ℤ
  pub memory_bytes : ℤ
  pub budget : Bool

pub record Disk : Type 0 where
  pub used : ℤ
  pub avail : ℤ
  pub shared : Bool
  pub fill_limit : DiskLimit

pub record Resources : Type 0 where
  pub cpu_millicores : ℤ
  pub memory_bytes : ℤ
  pub disk_bytes : ℤ

-- The constants that `Evaluate` gives to `fail`: the resource, and the reason of a refusal.
pub data Resource : Type 0 where
  class_limit cpu_budget memory_budget disk_budget disk_floor : Resource

pub data Reason : Type 0 where
  cpu_slots memory_slots disk_peak fill_floor class_concurrency host_budget : Reason

pub data Units : Type 0 where
  attempts millicores bytes : Units

pub record Failure : Type 0 where
  pub resource : Resource
  pub reason : Reason
  pub units : Units
  pub demand : ℤ
  pub available : ℤ
  pub deficit : ℤ

pub record Allocation : Type 0 where
  pub reserved : Resources
  pub free : Resources
  pub demand : Resources
  pub fits_current : ℤ
  pub failures : List Failure
  pub disk_allowance : ℤ
  pub disk_floor : ℤ
  pub fill_limit : DiskLimit

pub data Error : Type 0 where
  invalid_class sum_overflows invalid_counters free_underflows deficit_overflows : Error
  floor_underflows : Error

pub data Result {ℓ} (V : Type ℓ) : Type ℓ where
  err : Error → Result V
  ok : V → Result V

-- An early return of an error, for do blocks.
infixl 5 ◌>>=◌
abbrev pub ◌>>=◌ {κ ℓ} : {V : Type κ} {W : Type ℓ} → Result V → (V → Result W) → Result W
err e >>= next = err e
ok v >>= next = next v

-- `MemoryClaim` and `Claim`
unfoldable pub memory_claim : Class → ℤ
memory_claim c = add64 c.memory_bytes c.vm_overhead_bytes

unfoldable pub claim : Class → ℤ
claim c = add64 c.disk_peak_bytes headroom_bytes

-- `validate`: true where the code returns no error.
unfoldable pub validate : Class → Bool
validate c =
    if str_eq c.name ""
      || ltb_ℤ c.vcpu (pos 1)
      || ltb_ℤ (max_int64 /ℤ pos 1000) c.vcpu
      || ltb_ℤ c.memory_bytes (pos 1)
      || ltb_ℤ c.vm_overhead_bytes (pos 0)
      || ltb_ℤ (sub64 max_int64 c.vm_overhead_bytes) c.memory_bytes
      || ltb_ℤ c.disk_peak_bytes (pos 0)
      || ltb_ℤ (sub64 max_int64 headroom_bytes) c.disk_peak_bytes
      || ltb_ℤ c.concurrency (pos 0)
      || ltb_ℤ c.time_limit_seconds (pos 0)
      || ltb_ℤ c.log_cap_bytes (pos 0)
      || ltb_ℤ c.output_cap_bytes (pos 0)
      || ltb_ℤ (pos (64 * 2 ^ 20)) c.output_cap_bytes
    then false
    else true

unfoldable pub resources : Class → Result Resources
resources c =
    if validate c
    then ok (record {
      cpu_millicores = mul64 c.vcpu (pos 1000);
      memory_bytes = memory_claim c;
      disk_bytes = claim c;
    })
    else err invalid_class

unfoldable pub add : Resources → Resources → Result Resources
add a b =
    if ltb_ℤ (sub64 max_int64 b.cpu_millicores) a.cpu_millicores
      || ltb_ℤ (sub64 max_int64 b.memory_bytes) a.memory_bytes
      || ltb_ℤ (sub64 max_int64 b.disk_bytes) a.disk_bytes
    then err sum_overflows
    else ok (record {
      cpu_millicores = add64 a.cpu_millicores b.cpu_millicores;
      memory_bytes = add64 a.memory_bytes b.memory_bytes;
      disk_bytes = add64 a.disk_bytes b.disk_bytes;
    })

-- The loop of `Evaluate` over the live classes: the claims so far, and the attempts of the class.
pub record Claims : Type 0 where
  pub reserved : Resources
  pub same : ℤ

unfoldable pub reserve : Class → List Class → Claims → Result Claims
reserve c [] s = ok s
reserve c (other ∷ live) s = do
  r ← resources other
  sum ← add s.reserved r
  reserve c live (record {
    reserved = sum;
    same = if str_eq other.name c.name then add64 s.same (pos 1) else s.same;
  })

-- The fill floor of a shared disk: what it keeps free, and what it leaves to claims.
pub record Floor : Type 0 where
  pub kept : ℤ
  pub allowance : ℤ
  pub disk_allowance : ℤ

unfoldable pub max_used : Disk → ℤ
max_used d =
    let total = add64 d.used d.avail in
    let limit = (validated d.fill_limit).percent in
    add64 (mul64 (total /ℤ pos 100) limit) (mul64 (total %ℤ pos 100) limit /ℤ pos 100)

unfoldable pub floor_of : Disk → Floor
unfolding max_used
floor_of d =
    if d.shared
    then (let allowance = sub64 (max_used d) d.used in
        record {
          kept = sub64 (add64 d.used d.avail) (max_used d);
          allowance = allowance;
          disk_allowance = min_ℤ d.avail allowance;
        })
    else record { kept = pos 0; allowance = d.avail; disk_allowance = d.avail }

-- What the closure `fail` writes: the failures, and the error of a deficit.
pub record Checks : Type 0 where
  pub failures : List Failure
  pub deficit_error : Option Error

unfoldable pub fail : Resource → Reason → Units → ℤ → ℤ → Checks → Checks
fail resource reason units demand available s =
    if ltb_ℤ available demand
    then if ltb_ℤ available (pos 0) && ltb_ℤ (add64 max_int64 available) demand
      then record s { deficit_error = some deficit_overflows }
      else record s {
        failures =
            s.failures
            ++ record {
              resource = resource;
              reason = reason;
              units = units;
              demand = demand;
              available = available;
              deficit = sub64 demand available;
            }
              ∷ [];
      }
    else s

-- A negative allowance from which the claims cannot be taken within an int64.
unfoldable pub underflows : ℤ → ℤ → Bool
underflows allowance claims =
    ltb_ℤ allowance (pos 0) && ltb_ℤ (add64 (add64 max_int64 allowance) (pos 1)) claims

unfoldable pub free_of : Host → Floor → Resources → Resources
free_of h f r = record {
  cpu_millicores = sub64 (mul64 h.cpu_slots (pos 1000)) r.cpu_millicores;
  memory_bytes = sub64 h.memory_bytes r.memory_bytes;
  disk_bytes = sub64 f.disk_allowance r.disk_bytes;
}

-- The first call of `fail`, on no failures yet.
unfoldable pub class_check : Class → ℤ → Checks
class_check c same =
    if ltb_ℤ (pos 0) c.concurrency
    then fail class_limit class_concurrency attempts (pos 1) (sub64 c.concurrency same)
        (record { failures = []; deficit_error = none })
    else record { failures = []; deficit_error = none }

-- The calls of `fail` before the fill floor, and the one for it.
unfoldable pub slot_checks : Class → Host → Disk → Resources → Claims → Resources → Checks
slot_checks c h d demand s free =
    fail disk_budget disk_peak bytes demand.disk_bytes (sub64 d.avail s.reserved.disk_bytes) (
      fail memory_budget (if h.budget then host_budget else memory_slots) bytes demand.memory_bytes
        free.memory_bytes
        (fail cpu_budget (if h.budget then host_budget else cpu_slots) millicores
          demand.cpu_millicores free.cpu_millicores (class_check c s.same)))

unfoldable pub floor_check : Disk → Floor → Resources → Resources → Checks → Result Checks
floor_check d f demand reserved s =
    if d.shared
    then if underflows f.allowance reserved.disk_bytes
      then err floor_underflows
      else ok (
          fail disk_floor fill_floor bytes demand.disk_bytes (sub64 f.allowance reserved.disk_bytes)
            s)
    else ok s

-- The whole number of demands that fit.
unfoldable pub fits_in : Class → ℤ → Resources → Resources → ℤ
fits_in c same free demand =
    let n =
      min_ℤ
        (min_ℤ (free.cpu_millicores /ℤ demand.cpu_millicores)
          (free.memory_bytes /ℤ demand.memory_bytes))
        (free.disk_bytes /ℤ demand.disk_bytes) in
    if ltb_ℤ (pos 0) c.concurrency then min_ℤ n (sub64 c.concurrency same) else n

abbrev pub is_nil {ℓ} : {A : Type ℓ} → List A → Bool
is_nil [] = true
is_nil (x ∷ xs) = false

unfoldable pub valid_counters : Host → Disk → Bool
valid_counters h d =
    if ltb_ℤ h.cpu_slots (pos 0)
      || ltb_ℤ (max_int64 /ℤ pos 1000) h.cpu_slots
      || ltb_ℤ h.memory_bytes (pos 0)
      || ltb_ℤ d.used (pos 0)
      || ltb_ℤ d.avail (pos 0)
      || ltb_ℤ (sub64 max_int64 d.avail) d.used
    then false
    else true

abbrev no_resources : Resources
no_resources = record { cpu_millicores = pos 0; memory_bytes = pos 0; disk_bytes = pos 0 }

-- The part of `Evaluate` after its checks of the counters.
unfoldable pub settle : Class → Host → Disk → Resources → Claims → Result Allocation
settle c h d demand s =
    let f = floor_of d in
    let free = free_of h f s.reserved in
    if underflows f.disk_allowance s.reserved.disk_bytes then err free_underflows else do
      checks ← floor_check d f demand s.reserved (slot_checks c h d demand s free)
      elim checks.deficit_error [
        | some e ↦ err e
        | none ↦ ok (record {
          reserved = s.reserved;
          free = free;
          demand = demand;
          fits_current = if is_nil checks.failures then fits_in c s.same free demand else pos 0;
          failures = checks.failures;
          disk_allowance = f.disk_allowance;
          disk_floor = f.kept;
          fill_limit = validated d.fill_limit;
        })
      ]

-- `Evaluate`
unfoldable pub evaluate : Class → List Class → Host → Disk → Result Allocation
evaluate c live h d = do
  demand ← resources c
  s ←
      if valid_counters h d
      then reserve c live (record { reserved = no_resources; same = pos 0 })
      else err invalid_counters
  settle c h d demand s

-- `Admit`: admitted, refused for the first failure, or an error of the figures.
pub data Admission : Type 0 where
  admitted : Admission
  refused : Failure → List Failure → Admission
  invalid : Error → Admission

abbrev pub verdict : List Failure → Admission
verdict [] = admitted
verdict (f ∷ rest) = refused f (f ∷ rest)

abbrev pub answer : Result Allocation → Admission
answer (ok a) = verdict a.failures
answer (err e) = invalid e

unfoldable pub admit : Class → List Class → Host → Disk → Admission
admit c live h d = answer (evaluate c live h d)

-- `Fits`
unfoldable pub fits : Class → Host → Disk → ℤ
fits c h d = elim (evaluate c [] h d) [ err e ↦ pos 0 | ok a ↦ a.fits_current ]

abbrev reserved_cpus : ℤ
reserved_cpus = pos 2

abbrev reserved_memory : ℤ
reserved_memory = pos (8 * gib)

-- `HostFrom`
unfoldable pub host_from : ℤ → ℤ → Host
host_from ncpu mem =
    let cpus = sub64 ncpu reserved_cpus in
    let memory = sub64 mem reserved_memory in
    record {
      cpu_slots = if ltb_ℤ cpus (pos 0) then pos 0 else cpus;
      memory_bytes = if ltb_ℤ memory (pos 0) then pos 0 else memory;
      budget = false;
    }

-- `WithBudget`
unfoldable pub with_budget : Host → ℤ → ℤ → Option Host
with_budget h vcpu mem =
    if ltb_ℤ vcpu (pos 1) || ltb_ℤ mem (pos 1)
    then none
    else if ltb_ℤ h.cpu_slots vcpu || ltb_ℤ h.memory_bytes mem
    then none
    else some (record { cpu_slots = vcpu; memory_bytes = mem; budget = true })
