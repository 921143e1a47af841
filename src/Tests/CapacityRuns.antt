-- ===== src/Tests/CapacityRuns.antt =====
-- Runs of internal/capacity.
use pomar.Prelude.{◌^◌, ◌*◌, ◌+◌, ◌≡◌, ◌↔◌, ◌≤◌, refl, true, false, [], ◌∷◌, ℕ, arith}
use pomar.Prelude.Int.{pos, ◌+ℤ◌, ◌-ℤ◌, ◌*ℤ◌, ◌/ℤ◌, ◌%ℤ◌}
use pomar.Prelude.Int64.{wrap64}
use pomar.Capacity.{
  Class, Host, Disk, Allocation, ok, gib, evaluate, admit, admitted, resources, add, reserve,
  validate, memory_claim, claim, valid_counters, settle, floor_of, free_of, underflows, floor_check,
  slot_checks, class_check, fail, fits_in, max_used, validated,
}
use pomar.Capacity.Ranges.{IsWordClass, plus, need}
use pomar.Capacity.Accounting.{total, same_class}
use pomar.Capacity.Limits.{IsCounted, fill_line, max_used-eq}
use pomar.Capacity.Room.{IsWordHost, HasRoom}
use pomar.Capacity.Admit.{Admits, admit_iff}
use pomar.Capacity.Fit.{times, fits_current-greatest}

-- `CI` of capacity.go
abbrev ci : Class
ci = record {
  name = "ci";
  vcpu = pos 2;
  memory_bytes = pos (2 * gib);
  vm_overhead_bytes = pos (300 * 2 ^ 20);
  disk_peak_bytes = pos (3 * gib);
  concurrency = pos 0;
  measured = true;
  time_limit_seconds = pos 1800;
  log_cap_bytes = pos (16 * 2 ^ 20);
  output_cap_bytes = pos 0;
}

abbrev host : Host
host = record { cpu_slots = pos 6; memory_bytes = pos (8 * gib); budget = false }

abbrev disk : Disk
disk = record {
  used = pos (100 * gib);
  avail = pos (100 * gib);
  shared = true;
  fill_limit = record { percent = pos 85; source = "" };
}

ci-IsWordClass : IsWordClass ci
ci-IsWordClass = omega arith

host-IsWordHost : IsWordHost host disk
host-IsWordHost = omega arith

admits_second : admit ci (ci ∷ []) host disk ≡ admitted
unfolding admit evaluate resources add reserve validate memory_claim claim valid_counters settle
    floor_of free_of underflows floor_check slot_checks class_check fail fits_in max_used validated
    wrap64 ◌+ℤ◌ ◌-ℤ◌ ◌*ℤ◌ ◌/ℤ◌ ◌%ℤ◌
admits_second = refl

admit_iff_example : (admit ci (ci ∷ []) host disk ≡ admitted) ↔ Admits ci (ci ∷ []) host disk
admit_iff_example =
    admit_iff ci (ci ∷ []) host disk ci-IsWordClass (ci-IsWordClass, tt) host-IsWordHost

abbrev figures : Allocation
figures = record {
  reserved = record {
    cpu_millicores = pos 2000;
    memory_bytes = pos 2462056448;
    disk_bytes = pos (13 * gib);
  };
  free = record {
    cpu_millicores = pos 4000;
    memory_bytes = pos 6127878144;
    disk_bytes = pos (57 * gib);
  };
  demand = record {
    cpu_millicores = pos 2000;
    memory_bytes = pos 2462056448;
    disk_bytes = pos (13 * gib);
  };
  fits_current = pos 2;
  failures = [];
  disk_allowance = pos (70 * gib);
  disk_floor = pos (30 * gib);
  fill_limit = record { percent = pos 85; source = "explicit host setting" };
}

evaluates : evaluate ci (ci ∷ []) host disk ≡ ok figures
unfolding evaluate resources add reserve validate memory_claim claim valid_counters settle floor_of
    free_of underflows floor_check slot_checks class_check fail fits_in max_used validated wrap64
    ◌+ℤ◌ ◌-ℤ◌ ◌*ℤ◌ ◌/ℤ◌ ◌%ℤ◌
evaluates = refl

fits_current-greatest_example :
    (q : ℕ) × (pos 2 ≡ pos q)
    × (1 ≤ q)
    × ((j : ℕ)
        → (j ≤ q)
          ↔ HasRoom ci host disk
              (plus (times j (need ci)) (total (ci ∷ [])))
              (same_class ci (ci ∷ []) + j))
fits_current-greatest_example =
    fits_current-greatest ci (ci ∷ []) host disk figures ci-IsWordClass (ci-IsWordClass, tt)
      host-IsWordHost evaluates refl

disk-IsCounted : IsCounted disk
disk-IsCounted = record { used = refl; avail = refl; fits = omega arith }

max_used-eq_example : max_used disk ≡ pos (fill_line disk)
max_used-eq_example = max_used-eq disk disk-IsCounted
