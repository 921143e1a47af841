-- ===== src/Capacity/Admit.antt =====
-- `Admit` of internal/capacity admits exactly when there is room.
use pomar.Prelude.{All, ◌+◌, ◌≡◌, ◌↔◌, refl, true, List, [], ◌∷◌, arith, Bool-cases, inl, inr}
use pomar.Capacity.Ranges.{
  IsWordClass, need, as_resources, validate-IsSound, resources-eq, resources-ok, Fits,
}
use pomar.Capacity.Accounting.{
  total, same_class, IsValid, claims, same-le-cpu, no_claims, start-eq, start-ok, >>=-eq-ok,
  need-Fits,
}
use pomar.Capacity.Room.{IsWordHost, IsCountedHost, valid_counters-IsCountedHost, HasRoom}
use pomar.Capacity.Decision.{settle_room, room_settles}
use pomar.Capacity.{
  Class, Host, Disk, Allocation, Result, ok, err, ◌>>=◌, resources, reserve, valid_counters, settle,
  evaluate, answer, admit, admitted,
}

-- What is asked of the figures, and the room that they leave.
pub record Admits (c : Class) (live : List Class) (h : Host) (d : Disk) : Type 0 where
  pub valid : IsValid c
  pub valid_live : All IsValid live
  pub counters : valid_counters h d ≡ true
  pub room : HasRoom c h d (total (c ∷ live)) (same_class c live + 1)

-- An admission is a result with no failure.
verdict_of :
    (r : Result Allocation)
    → answer r ≡ admitted
    → (a : Allocation) × (r ≡ ok a) × (a.failures ≡ [])
verdict_of (ok a) e = (a, refl, ground arith)
verdict_of (err x) e = cc

module _ (c : Class) (live : List Class) (h : Host) (d : Disk) (wc : IsWordClass c)
    (wl : All IsWordClass live) (wh : IsWordHost h d) where
  -- A result rests on valid figures and on the exact sums of the claims.
  pub evaluate-parts :
      (a : Allocation)
      → evaluate c live h d ≡ ok a
      → IsValid c
        × All IsValid live
        × (valid_counters h d ≡ true)
        × Fits (total live)
        × (settle c h d (as_resources (need c)) (claims (total live) (same_class c live)) ≡ ok a)
  unfolding evaluate
  evaluate-parts a e =
      let (r, er, e1) = >>=-eq-ok (resources c) _ e in
      let v = resources-ok c er in
      elim (Bool-cases (valid_counters h d)) [
        | inl counters ↦
            let started : (reserve c live no_claims >>= settle c h d r) ≡ ok a = ground arith in
            let (s, es, e2) = >>=-eq-ok (reserve c live no_claims) (settle c h d r) started in
            let (vl, fits) = start-ok c live wl s es in
            let demand : as_resources (need c) ≡ r = cc (resources-eq c wc v) in
            let sums : claims (total live) (same_class c live) ≡ s =
              cc (start-eq c live wl vl fits) in
            (v, vl, counters, fits, rw (demand, sums) e2)
        | inr bad ↦ ground arith
      ]

  -- The figures that the room is computed from.
  pub host_figures : valid_counters h d ≡ true → IsCountedHost h d
  host_figures = valid_counters-IsCountedHost h d wh

  pub admitted_room : admit c live h d ≡ admitted → Admits c live h d
  admitted_room e =
      let (a, ea, none_failed) = verdict_of (evaluate c live h d) (unfold admit in e) in
      let (v, vl, counters, fits, settled) = evaluate-parts a ea in
      let s = validate-IsSound c wc v in
      record {
        valid = v;
        valid_live = vl;
        counters = counters;
        room =
            settle_room c h d (need c) (total live) (same_class c live) (host_figures counters)
              (need-Fits c wc v) fits (same-le-cpu c live wl vl) s.concurrency_sign wc.concurrency.0
              a settled none_failed;
      }

  pub room_evaluates :
      Admits c live h d → (a : Allocation) × (evaluate c live h d ≡ ok a) × (a.failures ≡ [])
  unfolding evaluate
  room_evaluates r =
      let s = validate-IsSound c wc r.valid in
      let f = host_figures r.counters in
      let fits : Fits (total live) =
        omega
          (arith, r.room.cpu, r.room.memory, r.room.disk, f.cpu_fits, f.memory_fits, f.disk.fits) in
      let (a, settled, none_failed) =
        room_settles c h d (need c) (total live) (same_class c live) f (need-Fits c wc r.valid) fits
          (same-le-cpu c live wl r.valid_live) s.concurrency_sign wc.concurrency.0 r.room in
      (
        a,
        rw (resources-eq c wc r.valid)
            (rw r.counters (rw (start-eq c live wl r.valid_live fits) settled)),
        none_failed,
      )

  pub room_admitted : Admits c live h d → admit c live h d ≡ admitted
  unfolding admit
  room_admitted r = let (a, e, none_failed) = room_evaluates r in rw e (rw none_failed)

-- `Admit` admits an attempt exactly when the figures are valid and the host, its disk, its fill
-- floor and the class's limit have room for it beside all live attempts.
pub admit_iff :
    (c : Class) (live : List Class) (h : Host) (d : Disk)
    → IsWordClass c
    → All IsWordClass live
    → IsWordHost h d
    → (admit c live h d ≡ admitted) ↔ Admits c live h d
admit_iff c live h d wc wl wh =
    (admitted_room c live h d wc wl wh, room_admitted c live h d wc wl wh)
