-- ===== src/Capacity/Limits.antt =====
-- The fill floor and the closure `fail` of `Evaluate`.
use pomar.Prelude.{ℕ, ◌+◌, ◌*◌, ◌/◌, ◌%◌, ◌≤◌, ◌<◌, ◌≡◌, ◌≢◌, ap, List, [], ◌∷◌, ◌++◌, none, arith}
use native.Mathlib.Nat.{div-add-mod}
use pomar.Prelude.Int.{ℤ, pos, pos_part, neg_part, ◌≤ℤ◌, ◌/ℤ◌, ◌%ℤ◌}
use pomar.Prelude.Int64.{half_range, add64, sub64, mul64}
use pomar.Capacity.Ranges.{add64_pos, add64-sum, mul64_pos}
use pomar.Capacity.{Disk, DiskLimit, Resource, Reason, Units, Checks, validated, max_used, fail}

-- The limit in force is a percentage from 1 to 99, whatever the setting.
pub validated_bounds :
    (p : DiskLimit)
    → (neg_part (validated p).percent ≡ 0)
      × (1 ≤ pos_part (validated p).percent)
      × (pos_part (validated p).percent ≤ 99)
unfolding validated
validated_bounds p = ground arith

abbrev pub percent : Disk → ℕ
percent d = pos_part (validated d.fill_limit).percent

abbrev pub fill_line : Disk → ℕ
fill_line d = (pos_part d.used + pos_part d.avail) * percent d / 100

-- The counters of a disk after the check of `Evaluate`.
pub record IsCounted (d : Disk) : Type 0 where
  pub used : neg_part d.used ≡ 0
  pub avail : neg_part d.avail ≡ 0
  pub fits : pos_part d.used + pos_part d.avail < half_range

split_percent : (t p : ℕ) → t / 100 * p + t % 100 * p / 100 ≡ t * p / 100
split_percent t p = omega (arith, ap (λ (k : ℕ). k * p) (div-add-mod t 100))

times-le : (t p : ℕ) → p ≤ 99 → t * p ≤ t * 100
times-le t p h = grind arith

part-le : (t p : ℕ) → p ≤ 99 → t * p / 100 ≤ t
part-le t p h = omega (arith, times-le t p h)

share_lem :
    (t p : ℕ)
    → t < half_range
    → p ≤ 99
    → add64 (mul64 (pos t /ℤ pos 100) (pos p)) (mul64 (pos t %ℤ pos 100) (pos p) /ℤ pos 100)
      ≡ pos (t * p / 100)
unfolding ◌/ℤ◌ ◌%ℤ◌
share_lem t p h k = rw (mul64_pos (t / 100) p (omega (arith, times-le (t / 100) p k))) (
    rw (mul64_pos (t % 100) p (omega (arith, times-le (t % 100) p k))) (
      rw
        (add64_pos (t / 100 * p) (t % 100 * p / 100)
          (omega (arith, split_percent t p, part-le t p k)))
        (ap pos (split_percent t p))))

pub pos_of_sign : (a : ℤ) → neg_part a ≡ 0 → a ≡ pos (pos_part a)
pos_of_sign a h = ground arith

-- The use that the fill limit allows is the exact quotient of the disk's total and the percentage,
-- rounded down: no product of the code wraps an int64, where the counters are those that `Evaluate`
-- accepts, whatever the limit that the host set.
pub max_used-eq : (d : Disk) → IsCounted d → max_used d ≡ pos (fill_line d)
unfolding max_used
max_used-eq d v =
    let bounds = validated_bounds d.fill_limit in
    let u = pos_part d.used in
    let a = pos_part d.avail in
    let total : add64 d.used d.avail ≡ pos (u + a) =
      add64-sum d.used d.avail v.used v.avail v.fits in
    let limit : (validated d.fill_limit).percent ≡ pos (percent d) =
      pos_of_sign (validated d.fill_limit).percent bounds.0 in
    rw total (rw limit (share_lem (u + a) (percent d) v.fits bounds.2))

pub fill_line-le : (d : Disk) → fill_line d ≤ pos_part d.used + pos_part d.avail
fill_line-le d =
    part-le (pos_part d.used + pos_part d.avail) (percent d) (validated_bounds d.fill_limit).2

-- Nothing has failed.
pub record IsClean (s : Checks) : Type 0 where
  pub failures : s.failures ≡ []
  pub deficit : s.deficit_error ≡ none

append-ne-nil {ℓ} : {A : Type ℓ} (xs : List A) (x : A) → xs ++ x ∷ [] ≢ []
append-ne-nil [] x h = cc
append-ne-nil (y ∷ xs) x h = cc

module _ (r : Resource) (q : Reason) (u : Units) (demand available : ℤ) (s : Checks) where
  pub fail-IsClean : IsClean s → demand ≤ℤ available → IsClean (fail r q u demand available s)
  unfolding fail
  fail-IsClean c h = ground arith

  pub IsClean-fail : IsClean (fail r q u demand available s) → IsClean s × (demand ≤ℤ available)
  unfolding fail
  IsClean-fail c = ground (
    arith,
    append-ne-nil s.failures (record {
      resource = r;
      reason = q;
      units = u;
      demand = demand;
      available = available;
      deficit = sub64 demand available;
    }),
  )
