-- ===== src/Capacity/Ranges.antt =====
-- `validate`, `resources` and `add` of internal/capacity, without wrap-around.
use pomar.Prelude.{ℕ, ◌+◌, ◌-◌, ◌*◌, ◌≤◌, ◌<◌, ◌≡◌, refl, true, arith, ltb}
use pomar.Prelude.Int.{
  ℤ, pos, negsuc, pos_part, neg_part, ltb_ℤ, ◌+ℤ◌, ◌-ℤ◌, ◌*ℤ◌, ◌/ℤ◌, sub_ℕ, scale_parts,
}
use pomar.Prelude.Int64.{half_range, InInt64, wrap64, wrap64_id, add64, sub64, mul64, max_int64}
use pomar.Capacity.{
  Class, Resources, ok, headroom_bytes, gib, memory_claim, claim, validate, resources, add,
}

-- Each number of a class is an int64.
pub record IsWordClass (c : Class) : Type 0 where
  pub vcpu : InInt64 c.vcpu
  pub memory : InInt64 c.memory_bytes
  pub overhead : InInt64 c.vm_overhead_bytes
  pub disk : InInt64 c.disk_peak_bytes
  pub concurrency : InInt64 c.concurrency

-- What an attempt takes, as plain numbers.
pub record Need : Type 0 where
  pub cpu : ℕ
  pub memory : ℕ
  pub disk : ℕ

abbrev pub need : Class → Need
need c = record {
  cpu = pos_part c.vcpu * 1000;
  memory = pos_part c.memory_bytes + pos_part c.vm_overhead_bytes;
  disk = pos_part c.disk_peak_bytes + 10 * gib;
}

abbrev pub as_resources : Need → Resources
as_resources n = record {
  cpu_millicores = pos n.cpu;
  memory_bytes = pos n.memory;
  disk_bytes = pos n.disk;
}

pub record IsSound (c : Class) : Type 0 where
  pub cpu_pos : 0 < (need c).cpu
  pub cpu_fits : (need c).cpu < half_range
  pub memory_pos : 0 < (need c).memory
  pub memory_fits : (need c).memory < half_range
  pub disk_fits : (need c).disk < half_range
  pub vcpu_sign : neg_part c.vcpu ≡ 0
  pub memory_sign : neg_part c.memory_bytes ≡ 0
  pub overhead_sign : neg_part c.vm_overhead_bytes ≡ 0
  pub disk_sign : neg_part c.disk_peak_bytes ≡ 0
  pub concurrency_sign : neg_part c.concurrency ≡ 0

-- The parts of a wrapped sum or difference that needs no wrapping.
pub add64_pos : (a b : ℕ) → a + b < half_range → add64 (pos a) (pos b) ≡ pos (a + b)
unfolding wrap64 ◌+ℤ◌
add64_pos a b h = ground arith

pub sub64_pos : (a b : ℕ) → a < half_range → b ≤ half_range → sub64 (pos a) (pos b) ≡ sub_ℕ a b
unfolding wrap64 ◌-ℤ◌
sub64_pos a b h k = ground arith

pub mul64_pos : (a b : ℕ) → a * b < half_range → mul64 (pos a) (pos b) ≡ pos (a * b)
unfolding ◌*ℤ◌
mul64_pos a b h = ground (arith, scale_parts (pos a) b, wrap64_id (pos a *ℤ pos b))

-- The same for operands whose sign is known.
pub mul64-scale :
    (a : ℤ) (k : ℕ)
    → neg_part a ≡ 0
    → pos_part a * k < half_range
    → mul64 a (pos k) ≡ pos (pos_part a * k)
mul64-scale (pos a) k s h = mul64_pos a k h
mul64-scale (negsuc a) k s h = absurd (omega arith)

pub add64-sum :
    (a b : ℤ)
    → neg_part a ≡ 0
    → neg_part b ≡ 0
    → pos_part a + pos_part b < half_range
    → add64 a b ≡ pos (pos_part a + pos_part b)
add64-sum (pos a) (pos b) s t h = add64_pos a b h
add64-sum (pos a) (negsuc b) s t h = absurd (omega arith)
add64-sum (negsuc a) b s t h = absurd (omega arith)

-- The code's test for a sum that fits, `a > MaxInt64 - b`.
room_lem :
    (a b : ℕ)
    → b < half_range
    → ltb_ℤ (sub64 max_int64 (pos b)) (pos a) ≡ ltb (half_range - 1) (a + b)
unfolding wrap64 ◌-ℤ◌
room_lem a b h = ground arith

pub validate-IsSound : (c : Class) → IsWordClass c → validate c ≡ true → IsSound c
unfolding validate ◌/ℤ◌ ◌-ℤ◌ wrap64
validate-IsSound c w h = ground arith

pub resources-eq :
    (c : Class) → IsWordClass c → validate c ≡ true → resources c ≡ ok (as_resources (need c))
unfolding resources memory_claim claim
resources-eq c w h =
    let s = validate-IsSound c w h in
    rw h (
      ground (
        arith,
        mul64-scale c.vcpu 1000 s.vcpu_sign,
        add64-sum c.memory_bytes c.vm_overhead_bytes s.memory_sign s.overhead_sign,
        add64-sum c.disk_peak_bytes headroom_bytes s.disk_sign refl,
      ))

pub resources-ok : (c : Class) {r : Resources} → resources c ≡ ok r → validate c ≡ true
unfolding resources
resources-ok c h = ground arith

abbrev pub plus : Need → Need → Need
plus a b = record { cpu = a.cpu + b.cpu; memory = a.memory + b.memory; disk = a.disk + b.disk }

-- Each of the three sums fits in an int64.
pub record Fits (n : Need) : Type 0 where
  pub cpu : n.cpu < half_range
  pub memory : n.memory < half_range
  pub disk : n.disk < half_range

pub add-eq :
    (a b : Need)
    → Fits b
    → Fits (plus a b)
    → add (as_resources a) (as_resources b) ≡ ok (as_resources (plus a b))
unfolding add
add-eq a b f g = ground (
  arith,
  room_lem a.cpu b.cpu,
  room_lem a.memory b.memory,
  room_lem a.disk b.disk,
  add64_pos a.cpu b.cpu,
  add64_pos a.memory b.memory,
  add64_pos a.disk b.disk,
)

pub add-ok :
    (a b : Need) {r : Resources}
    → Fits b
    → add (as_resources a) (as_resources b) ≡ ok r
    → Fits (plus a b)
unfolding add
add-ok a b f h =
    ground (arith, room_lem a.cpu b.cpu, room_lem a.memory b.memory, room_lem a.disk b.disk)
