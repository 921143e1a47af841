-- ===== src/Capacity/Decision.antt =====
-- `Evaluate` and `Admit` of internal/capacity decide whether the host has room for one more attempt.
use pomar.Prelude.{ℕ, ◌+◌, ◌≤◌, ◌<◌, ◌≡◌, refl, true, false, [], arith, Bool-cases, inl, inr}
use pomar.Prelude.Int.{ℤ, pos, pos_part, neg_part, sub_ℕ, min_ℤ}
use pomar.Prelude.Int64.{half_range, sub64}
use pomar.Capacity.Ranges.{Need, as_resources, plus, Fits}
use pomar.Capacity.Accounting.{claims, >>=-eq-ok}
use pomar.Capacity.Limits.{IsClean, fill_line, fill_line-le, fail-IsClean, IsClean-fail}
use pomar.Capacity.{
  Class, Host, Disk, Checks, Allocation, ok, floor_of, free_of, underflows, fail, slot_checks,
  floor_check, settle, validated, fits_in, fill_floor, bytes, disk_floor,
}
use pomar.Capacity.Room.{
  IsCountedHost, HasRoom, free, sub64-allowance, no_underflow, slots-IsClean, clean-slots,
  allowance-eq, slots_of_room, room_of_slots, fits_after,
}

nonneg_no_underflow : (a z : ℤ) → neg_part a ≡ 0 → underflows a z ≡ false
unfolding underflows
nonneg_no_underflow a z h = ground arith

min_sign : (a b : ℤ) → neg_part a ≡ 0 → neg_part b ≡ 0 → neg_part (min_ℤ a b) ≡ 0
min_sign a b h k = ground arith

pub disk_allowance-shared :
    (d : Disk)
    → d.shared ≡ true
    → (floor_of d).disk_allowance ≡ min_ℤ d.avail (floor_of d).allowance
unfolding floor_of
disk_allowance-shared d e = rw e

pub disk_allowance-own : (d : Disk) → d.shared ≡ false → (floor_of d).disk_allowance ≡ d.avail
unfolding floor_of
disk_allowance-own d e = rw e

module _ (c : Class) (h : Host) (d : Disk) (m n : Need) (k : ℕ) (v : IsCountedHost h d)
    (fm : Fits m) (fn : Fits n) (fk : k ≤ n.cpu) (sign : neg_part c.concurrency ≡ 0)
    (word : pos_part c.concurrency < half_range) where
  the_allowance : d.shared ≡ true → (floor_of d).allowance ≡ sub_ℕ (fill_line d) (pos_part d.used)
  the_allowance = allowance-eq c h d m n k v fm fn fk sign word

  left-eq :
      d.shared ≡ true
      → underflows (floor_of d).allowance (pos n.disk) ≡ false
      → sub64 (floor_of d).allowance (pos n.disk) ≡ sub_ℕ (fill_line d) (pos_part d.used + n.disk)
  left-eq e u = rw (the_allowance e) (
      sub64-allowance (fill_line d) (pos_part d.used) n.disk
        (omega (arith, fill_line-le d, v.disk.fits)) (omega (arith, v.disk.fits)) fn.disk
        (rw (the_allowance e) at u))

  room_of_check :
      (s s' : Checks)
      → floor_check d (floor_of d) (as_resources m) (as_resources n) s ≡ ok s'
      → IsClean s'
      → IsClean s × (d.shared ≡ true → pos_part d.used + (m.disk + n.disk) ≤ fill_line d)
  unfolding floor_check
  room_of_check s s' e x = elim (Bool-cases d.shared) [
    | inl shared ↦ elim (Bool-cases (underflows (floor_of d).allowance (pos n.disk))) [
      | inl u ↦ ground arith
      | inr u ↦
          let left = left-eq shared u in
          let (y, fits) =
            IsClean-fail disk_floor fill_floor bytes (pos m.disk)
              (sub64 (floor_of d).allowance (pos n.disk)) s (ground arith) in
          (
            y,
            λ _. omega (
              arith,
              (fits_after m.disk (fill_line d) (pos_part d.used + n.disk)).0 (rw left at fits),
            ),
          )
    ]
    | inr own ↦ (ground (arith), λ p. cc)
  ]

  check_of_room :
      (s : Checks)
      → IsClean s
      → (d.shared ≡ true → pos_part d.used + (m.disk + n.disk) ≤ fill_line d)
      → (s' : Checks) × (floor_check d (floor_of d) (as_resources m) (as_resources n) s ≡ ok s')
        × IsClean s'
  unfolding floor_check
  check_of_room s x line = elim (Bool-cases d.shared) [
    | inl shared ↦
        let u : underflows (floor_of d).allowance (pos n.disk) ≡ false =
          rw (the_allowance shared)
            (no_underflow (fill_line d) (pos_part d.used) n.disk (omega (arith, line shared))) in
        (
          fail disk_floor fill_floor bytes (pos m.disk) (sub64 (floor_of d).allowance (pos n.disk))
              s,
          ground arith,
          fail-IsClean _ _ _ _ _ _ x (
              rw (left-eq shared u) (
                (fits_after m.disk (fill_line d) (pos_part d.used + n.disk)).1
                  (omega (arith, line shared)))),
        )
    | inr own ↦ (s, rw own, x)
  ]

  disk_fits :
      (d.shared ≡ true → pos_part d.used + (m.disk + n.disk) ≤ fill_line d)
      → underflows (floor_of d).disk_allowance (pos n.disk) ≡ false
  disk_fits line =
      nonneg_no_underflow (floor_of d).disk_allowance (pos n.disk)
        (elim (Bool-cases d.shared) [ inl shared ↦ shared_sign shared | inr own ↦ own_sign own ])
    where
      shared_sign : d.shared ≡ true → neg_part (floor_of d).disk_allowance ≡ 0
      shared_sign e = ground (
        arith,
        min_sign d.avail (floor_of d).allowance,
        disk_allowance-shared d e,
        the_allowance e,
        line e,
      )

      own_sign : d.shared ≡ false → neg_part (floor_of d).disk_allowance ≡ 0
      own_sign e = ground (arith, disk_allowance-own d e, v.disk.avail)

  -- If `settle` returns no failure, there is room.
  pub settle_room :
      (a : Allocation)
      → settle c h d (as_resources m) (claims n k) ≡ ok a
      → a.failures ≡ []
      → HasRoom c h d (plus m n) (k + 1)
  unfolding settle
  settle_room a e none_failed =
      elim (Bool-cases (underflows (floor_of d).disk_allowance (pos n.disk))) [
        | inl u ↦ ground arith
        | inr u ↦
            let (checks, ec, e') =
              >>=-eq-ok
                (floor_check d (floor_of d) (as_resources m) (as_resources n) (
                  slot_checks c h d (as_resources m) (claims n k)
                    (free c h d m n k v fm fn fk sign word)))
                _ (rw u at e) in
            let (x, line) = room_of_check _ checks ec (ground arith) in
            room_of_slots c h d m n k v fm fn fk sign word (clean-slots _ _ _ _ _ _ x) line
      ]

  -- If there is room, `settle` returns, with no failure.
  pub room_settles :
      HasRoom c h d (plus m n) (k + 1)
      → (a : Allocation) × (settle c h d (as_resources m) (claims n k) ≡ ok a) × (a.failures ≡ [])
  unfolding settle
  room_settles r =
      let free = free_of h (floor_of d) (as_resources n) in
      let (s', e, x) =
        check_of_room _
          (slots-IsClean _ _ _ _ _ _ (slots_of_room c h d m n k v fm fn fk sign word r)) r.floor in
      let u = disk_fits r.floor in
      (
        record {
          reserved = as_resources n;
          free = free;
          demand = as_resources m;
          fits_current = fits_in c (pos k) free (as_resources m);
          failures = [];
          disk_allowance = (floor_of d).disk_allowance;
          disk_floor = (floor_of d).kept;
          fill_limit = validated d.fill_limit;
        },
        ground arith,
        refl,
      )
