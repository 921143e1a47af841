-- ===== src/Capacity/Fit.antt =====
-- `FitsCurrent` of internal/capacity is the greatest number of further attempts that fit together.
use Prim.Native.Nat.{min}
use native.Mathlib.Nat.{le-div_iff_mul-le}
use pomar.Prelude.{
  All, ℕ, ◌+◌, ◌-◌, ◌*◌, ◌/◌, ◌≤◌, ◌<◌, ◌≡◌, ◌↔◌, ◌∙◌, ap, true, List, [], arith, Bool-cases, inl,
  inr, ltb, if◌then◌else◌,
}
use pomar.Prelude.Int.{pos, pos_part, neg_part, ◌/ℤ◌}
use pomar.Prelude.Int64.{half_range, sub64}
use pomar.Capacity.Ranges.{
  IsWordClass, Need, need, as_resources, validate-IsSound, plus, Fits, sub64_pos,
}
use pomar.Capacity.Accounting.{total, same_class, claims, same-le-cpu, >>=-eq-ok, need-Fits}
use pomar.Capacity.Limits.{fill_line}
use pomar.Capacity.Room.{
  IsWordHost, IsCountedHost, HasRoom, sub64-nat, cpu-eq, memory-eq, allowance-eq,
}
use pomar.Capacity.Admit.{evaluate-parts, host_figures}
use pomar.Capacity.Decision.{settle_room, disk_allowance-shared, disk_allowance-own}
use pomar.Capacity.{
  Class, Host, Disk, Claims, Resources, Allocation, ok, fits_in, floor_of, free_of, underflows,
  floor_check, slot_checks, settle, evaluate,
}

-- How often a demand goes into what is free, and the class's limit allows it.
abbrev count_of : Class → ℕ → Need → Need → ℕ
count_of c k x m =
    let n = min (min (x.cpu / m.cpu) (x.memory / m.memory)) (x.disk / m.disk) in
    if ltb 0 (pos_part c.concurrency) then min n (pos_part c.concurrency - k) else n

fits_in-eq :
    (c : Class) (k : ℕ) (x m : Need)
    → neg_part c.concurrency ≡ 0
    → pos_part c.concurrency < half_range
    → k < half_range
    → (0 < pos_part c.concurrency → k ≤ pos_part c.concurrency)
    → fits_in c (pos k) (as_resources x) (as_resources m) ≡ pos (count_of c k x m)
unfolding fits_in ◌/ℤ◌
fits_in-eq c k x m s w fk h = ground (arith, sub64-nat c.concurrency k s w)

abbrev pub times : ℕ → Need → Need
times j m = record { cpu = j * m.cpu; memory = j * m.memory; disk = j * m.disk }

le-count :
    (c : Class) (k j : ℕ) (x m : Need)
    → 0 < m.cpu
    → 0 < m.memory
    → 0 < m.disk
    → (0 < pos_part c.concurrency → k ≤ pos_part c.concurrency)
    → (j ≤ count_of c k x m) ↔ (
        (j * m.cpu ≤ x.cpu)
        × (j * m.memory ≤ x.memory)
        × (j * m.disk ≤ x.disk)
        × (0 < pos_part c.concurrency → k + j ≤ pos_part c.concurrency))
le-count c k j x m p q r h =
    let cpu = le-div_iff_mul-le {x = j} {y = x.cpu} p in
    let memory = le-div_iff_mul-le {x = j} {y = x.memory} q in
    let disk = le-div_iff_mul-le {x = j} {y = x.disk} r in
    (
      λ l.
          (cpu.0 (ground arith), memory.0 (ground arith), disk.0 (ground arith), λ t. ground arith),
      λ b. let x1 = cpu.1 b.0 in let x2 = memory.1 b.1 in let x3 = disk.1 b.2 in ground arith,
    )

settle_fits :
    (c : Class) (h : Host) (d : Disk) (demand : Resources) (s : Claims) (a : Allocation)
    → settle c h d demand s ≡ ok a
    → a.failures ≡ []
    → a.fits_current ≡ fits_in c s.same (free_of h (floor_of d) s.reserved) demand
unfolding settle
settle_fits c h d demand s a e none_failed =
    let free = free_of h (floor_of d) s.reserved in
    elim (Bool-cases (underflows (floor_of d).disk_allowance s.reserved.disk_bytes)) [
      | inl u ↦ ground arith
      | inr u ↦
          let (checks, ec, e') =
            >>=-eq-ok
              (floor_check d (floor_of d) demand s.reserved (slot_checks c h d demand s free)) _
              (rw u at e) in
          ground arith
    ]

-- What is free beside claims that the host has room for.
abbrev open_disk : Disk → ℕ
open_disk d =
    if d.shared then min (pos_part d.avail) (fill_line d - pos_part d.used) else pos_part d.avail

abbrev free_need : Host → Disk → Need → Need
free_need h d n = record {
  cpu = pos_part h.cpu_slots * 1000 - n.cpu;
  memory = pos_part h.memory_bytes - n.memory;
  disk = open_disk d - n.disk;
}

module _ (c : Class) (h : Host) (d : Disk) (m n : Need) (k : ℕ) (v : IsCountedHost h d)
    (fm : Fits m) (fn : Fits n) (fk : k ≤ n.cpu) (sign : neg_part c.concurrency ≡ 0)
    (word : pos_part c.concurrency < half_range) where
  disk_allowance-eq :
      (d.shared ≡ true → pos_part d.used ≤ fill_line d)
      → (floor_of d).disk_allowance ≡ pos (open_disk d)
  disk_allowance-eq line = elim (Bool-cases d.shared) [
    | inl shared ↦ ground (
      arith,
      disk_allowance-shared d shared,
      allowance-eq c h d m n k v fm fn fk sign word shared,
      v.disk.avail,
      line shared,
    )
    | inr own ↦ ground (arith, disk_allowance-own d own, v.disk.avail)
  ]

  open_disk-lt : open_disk d < half_range
  open_disk-lt = ground (arith, v.disk.fits)

  disk-open :
      HasRoom c h d n k
      → sub64 (floor_of d).disk_allowance (pos n.disk) ≡ pos (open_disk d - n.disk)
  disk-open r = rw (disk_allowance-eq (λ e. omega (arith, r.floor e))) (
      sub64_pos (open_disk d) n.disk open_disk-lt (omega (arith, fn.disk))
      ∙ elim (Bool-cases d.shared) [
        | inl shared ↦ ground (arith, r.floor shared, r.disk)
        | inr own ↦ ground (arith, r.disk)
      ])

  free-eq :
      HasRoom c h d n k → free_of h (floor_of d) (as_resources n) ≡ as_resources (free_need h d n)
  unfolding free_of
  free-eq r = ground (
    arith,
    cpu-eq c h d m n k v fm fn fk sign word,
    memory-eq c h d m n k v fm fn fk sign word,
    disk-open r,
  )

  room_iff :
      HasRoom c h d n k
      → (j : ℕ)
      → HasRoom c h d (plus (times j m) n) (k + j) ↔ (
          (j * m.cpu ≤ (free_need h d n).cpu)
          × (j * m.memory ≤ (free_need h d n).memory)
          × (j * m.disk ≤ (free_need h d n).disk)
          × (0 < pos_part c.concurrency → k + j ≤ pos_part c.concurrency))
  room_iff r j = (λ q. ground arith, λ b. ground arith)

-- The claims that are reserved fit as well.
shrink :
    (c : Class) (h : Host) (d : Disk) (m n : Need) (k : ℕ)
    → HasRoom c h d (plus m n) (k + 1)
    → HasRoom c h d n k
shrink c h d m n k r = ground arith

-- When no check fails, `FitsCurrent` is the greatest number of attempts of the class that the host
-- has room for at once, beside all live attempts, and it is at least 1.
pub fits_current-greatest :
    (c : Class) (live : List Class) (h : Host) (d : Disk) (a : Allocation)
    → IsWordClass c
    → All IsWordClass live
    → IsWordHost h d
    → evaluate c live h d ≡ ok a
    → a.failures ≡ []
    → (q : ℕ) × (a.fits_current ≡ pos q)
      × (1 ≤ q)
      × ((j : ℕ)
          → (j ≤ q) ↔ HasRoom c h d (plus (times j (need c)) (total live)) (same_class c live + j))
fits_current-greatest c live h d a wc wl wh e none_failed =
    let m = need c in
    let n = total live in
    let k = same_class c live in
    let (ok_c, ok_live, counters, fn, settled) = evaluate-parts c live h d wc wl wh a e in
    let s = validate-IsSound c wc ok_c in
    let v = host_figures c live h d wc wl wh counters in
    let fm = need-Fits c wc ok_c in
    let fk = same-le-cpu c live wl ok_live in
    let sign = s.concurrency_sign in
    let word = wc.concurrency.0 in
    let room = settle_room c h d m n k v fm fn fk sign word a settled none_failed in
    let r = shrink c h d m n k room in
    let limit = λ (p : 0 < pos_part c.concurrency). r.class_limit p in
    let x = free_need h d n in
    let counted : a.fits_current ≡ pos (count_of c k x m) =
      settle_fits c h d (as_resources m) (claims n k) a settled none_failed
      ∙ ap (λ f. fits_in c (pos k) f (as_resources m)) (free-eq c h d m n k v fm fn fk sign word r)
      ∙ fits_in-eq c k x m sign word (omega (arith, fn.cpu)) limit in
    let both = λ (j : ℕ). le-count c k j x m s.cpu_pos s.memory_pos (omega arith) limit in
    let rooms = room_iff c h d m n k v fm fn fk sign word r in
    (
      count_of c k x m,
      counted,
      (both 1).1 ((rooms 1).0 (ground (arith, room))),
      λ j. (λ l. (rooms j).1 ((both j).0 l), λ q. (both j).1 ((rooms j).0 q)),
    )
