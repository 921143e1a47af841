-- ===== src/Capacity/Room.antt =====
-- `Evaluate` and `Admit` of internal/capacity decide whether the host has room for one more attempt.
use pomar.Prelude.{
  ℕ, ◌+◌, ◌-◌, ◌*◌, ◌≤◌, ◌<◌, ◌≡◌, ◌↔◌, true, false, arith, Bool-cases, inl, inr, ◌∙◌, leb,
}
use pomar.Prelude.Int.{ℤ, pos, negsuc, pos_part, neg_part, sub_ℕ, ◌≤ℤ◌, ◌<ℤ◌, ◌+ℤ◌, ◌-ℤ◌, ◌/ℤ◌}
use pomar.Prelude.Int64.{half_range, InInt64, wrap64, sub64}
use pomar.Capacity.Ranges.{Need, as_resources, plus, Fits, sub64_pos, mul64-scale}
use pomar.Capacity.Accounting.{claims}
use pomar.Capacity.Limits.{
  IsCounted, IsClean, fill_line, fill_line-le, pos_of_sign, max_used-eq, fail-IsClean, IsClean-fail,
}
use pomar.Capacity.{
  Class, Host, Disk, Resources, Claims, Floor, floor_of, free_of, underflows, class_check, fail,
  slot_checks, valid_counters,
}

-- The numbers of a host and a disk are int64s.
pub record IsWordHost (h : Host) (d : Disk) : Type 0 where
  pub cpu_slots : InInt64 h.cpu_slots
  pub memory : InInt64 h.memory_bytes
  pub used : InInt64 d.used
  pub avail : InInt64 d.avail

-- What the check of the counters gives.
pub record IsCountedHost (h : Host) (d : Disk) : Type 0 where
  pub disk : IsCounted d
  pub cpu : neg_part h.cpu_slots ≡ 0
  pub cpu_fits : pos_part h.cpu_slots * 1000 < half_range
  pub memory : neg_part h.memory_bytes ≡ 0
  pub memory_fits : pos_part h.memory_bytes < half_range

pub valid_counters-IsCountedHost :
    (h : Host) (d : Disk) → IsWordHost h d → valid_counters h d ≡ true → IsCountedHost h d
unfolding valid_counters ◌/ℤ◌ ◌-ℤ◌ wrap64
valid_counters-IsCountedHost h d w v = ground arith

-- The host has room for attempts with these claims, `k` of them of the class.
pub record HasRoom (c : Class) (h : Host) (d : Disk) (n : Need) (k : ℕ) : Type 0 where
  pub cpu : n.cpu ≤ pos_part h.cpu_slots * 1000
  pub memory : n.memory ≤ pos_part h.memory_bytes
  pub disk : n.disk ≤ pos_part d.avail
  pub floor : d.shared ≡ true → pos_part d.used + n.disk ≤ fill_line d
  pub class_limit : 0 < pos_part c.concurrency → k ≤ pos_part c.concurrency

-- A difference of numbers, part by part.
sub_ℕ_parts : (a b : ℕ) → (pos_part (sub_ℕ a b) ≡ a - b) × (neg_part (sub_ℕ a b) ≡ b - a)
sub_ℕ_parts a b = ground arith

pub fits_after : (m a b : ℕ) → (pos m ≤ℤ sub_ℕ a b) ↔ (m + b ≤ a)
fits_after m a b = (λ h. omega (arith, sub_ℕ_parts a b), λ h. omega (arith, sub_ℕ_parts a b))

pub sub64-nat :
    (a : ℤ) (b : ℕ)
    → neg_part a ≡ 0
    → pos_part a < half_range
    → b ≤ half_range
    → sub64 a (pos b) ≡ sub_ℕ (pos_part a) b
sub64-nat (pos a) b s h k = sub64_pos a b h k
sub64-nat (negsuc a) b s h k = absurd (omega arith)

below-half :
    (m n : ℕ)
    → m < half_range
    → n < half_range
    → underflows (negsuc m) (pos n) ≡ false
    → m + n < half_range
unfolding underflows ◌+ℤ◌ wrap64
below-half m n h k e = ground arith

sub64_negsuc : (m n : ℕ) → m + n < half_range → sub64 (negsuc m) (pos n) ≡ negsuc (m + n)
unfolding ◌-ℤ◌ wrap64
sub64_negsuc m n h = ground arith

-- Taking claims from an allowance that may be negative already.
pub sub64-allowance :
    (a u n : ℕ)
    → a < half_range
    → u < half_range
    → n < half_range
    → underflows (sub_ℕ a u) (pos n) ≡ false
    → sub64 (sub_ℕ a u) (pos n) ≡ sub_ℕ a (u + n)
sub64-allowance a u n h k l e = elim (Bool-cases (leb u a)) [
  | inl q ↦
      let same : sub_ℕ a u ≡ pos (a - u) = rw q in
      rw same (sub64_pos (a - u) n (omega arith) (omega arith) ∙ ground arith)
  | inr q ↦
      let same : sub_ℕ a u ≡ negsuc (u - a - 1) = rw q in
      let deep = below-half (u - a - 1) n (omega arith) l (rw same at e) in
      rw same (sub64_negsuc (u - a - 1) n deep ∙ ground arith)
]

pub no_underflow : (a u n : ℕ) → u + n ≤ a → underflows (sub_ℕ a u) (pos n) ≡ false
unfolding underflows
no_underflow a u n h = ground (arith, sub_ℕ_parts a u)

class-IsClean :
    (c : Class) (same : ℤ)
    → (pos 0 <ℤ c.concurrency → pos 1 ≤ℤ sub64 c.concurrency same)
    → IsClean (class_check c same)
unfolding class_check fail
class-IsClean c same h = ground arith

clean-class :
    (c : Class) (same : ℤ)
    → IsClean (class_check c same)
    → pos 0 <ℤ c.concurrency
    → pos 1 ≤ℤ sub64 c.concurrency same
unfolding class_check fail
clean-class c same x h = ground arith

module _ (c : Class) (h : Host) (d : Disk) (demand free : Resources) (s : Claims) where
  pub record SlotsFree : Type 0 where
    pub disk : demand.disk_bytes ≤ℤ sub64 d.avail s.reserved.disk_bytes
    pub memory : demand.memory_bytes ≤ℤ free.memory_bytes
    pub cpu : demand.cpu_millicores ≤ℤ free.cpu_millicores
    pub class_limit : pos 0 <ℤ c.concurrency → pos 1 ≤ℤ sub64 c.concurrency s.same

  pub slots-IsClean : SlotsFree → IsClean (slot_checks c h d demand s free)
  unfolding slot_checks
  slots-IsClean f =
      fail-IsClean _ _ _ _ _ _
        (fail-IsClean _ _ _ _ _ _
          (fail-IsClean _ _ _ _ _ _ (class-IsClean c s.same f.class_limit) f.cpu) f.memory)
        f.disk

  pub clean-slots : IsClean (slot_checks c h d demand s free) → SlotsFree
  unfolding slot_checks
  clean-slots x =
      let (y, disk) = IsClean-fail _ _ _ _ _ _ x in
      let (z, memory) = IsClean-fail _ _ _ _ _ _ y in
      let (w, cpu) = IsClean-fail _ _ _ _ _ _ z in
      record { disk = disk; memory = memory; cpu = cpu; class_limit = clean-class c s.same w }

-- The figures of a host and its claims, as `settle` has them.
module _ (c : Class) (h : Host) (d : Disk) (m n : Need) (k : ℕ) (v : IsCountedHost h d)
    (fm : Fits m) (fn : Fits n) (fk : k ≤ n.cpu) (sign : neg_part c.concurrency ≡ 0)
    (word : pos_part c.concurrency < half_range) where
  abbrev pub floor : Floor
  floor = floor_of d

  abbrev pub free : Resources
  free = free_of h floor (as_resources n)

  pub cpu-eq : free.cpu_millicores ≡ sub_ℕ (pos_part h.cpu_slots * 1000) n.cpu
  unfolding free_of
  cpu-eq =
      rw (mul64-scale h.cpu_slots 1000 v.cpu v.cpu_fits)
        (sub64_pos _ _ v.cpu_fits (omega (arith, fn.cpu)))

  pub memory-eq : free.memory_bytes ≡ sub_ℕ (pos_part h.memory_bytes) n.memory
  unfolding free_of
  memory-eq = sub64-nat h.memory_bytes n.memory v.memory v.memory_fits (omega (arith, fn.memory))

  disk-eq : sub64 d.avail (pos n.disk) ≡ sub_ℕ (pos_part d.avail) n.disk
  disk-eq =
      sub64-nat d.avail n.disk v.disk.avail (omega (arith, v.disk.fits)) (omega (arith, fn.disk))

  class-eq : sub64 c.concurrency (pos k) ≡ sub_ℕ (pos_part c.concurrency) k
  class-eq = sub64-nat c.concurrency k sign word (omega (arith, fn.cpu))

  pub allowance-eq : d.shared ≡ true → floor.allowance ≡ sub_ℕ (fill_line d) (pos_part d.used)
  unfolding floor_of
  allowance-eq e = rw e (
      rw (max_used-eq d v.disk) (
        rw (pos_of_sign d.used v.disk.used) (
          sub64_pos (fill_line d) (pos_part d.used) (omega (arith, fill_line-le d, v.disk.fits))
            (omega (arith, v.disk.fits)))))

  pub slots_of_room :
      HasRoom c h d (plus m n) (k + 1) → SlotsFree c h d (as_resources m) free (claims n k)
  slots_of_room r = record {
    disk = rw disk-eq ((fits_after m.disk (pos_part d.avail) n.disk).1 r.disk);
    memory = rw memory-eq ((fits_after m.memory (pos_part h.memory_bytes) n.memory).1 r.memory);
    cpu = rw cpu-eq ((fits_after m.cpu (pos_part h.cpu_slots * 1000) n.cpu).1 r.cpu);
    class_limit = λ p.
        rw class-eq ((fits_after 1 (pos_part c.concurrency) k).1 (omega (arith, r.class_limit)));
  }

  pub room_of_slots :
      SlotsFree c h d (as_resources m) free (claims n k)
      → (d.shared ≡ true → pos_part d.used + (m.disk + n.disk) ≤ fill_line d)
      → HasRoom c h d (plus m n) (k + 1)
  room_of_slots f line = record {
    cpu = (fits_after m.cpu (pos_part h.cpu_slots * 1000) n.cpu).0 (rw cpu-eq at f.cpu);
    memory = (fits_after m.memory (pos_part h.memory_bytes) n.memory).0 (rw memory-eq at f.memory);
    disk = (fits_after m.disk (pos_part d.avail) n.disk).0 (rw disk-eq at f.disk);
    floor = line;
    class_limit = λ p. omega (
      arith,
      (fits_after 1 (pos_part c.concurrency) k).0 (rw class-eq at (f.class_limit (omega arith))),
    );
  }
