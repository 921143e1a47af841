-- ===== src/Capacity/Accounting.antt =====
-- The loop of `Evaluate` adds up the claims of the live attempts, or fails.
use pomar.Prelude.{
  ℕ, ◌+◌, ◌≤◌, ◌<◌, ◌≡◌, refl, true, List, [], ◌∷◌, arith, str_eq, if◌then◌else◌, All,
}
use pomar.Prelude.Int.{ℤ, pos}
use pomar.Prelude.Int64.{half_range, add64}
use pomar.Capacity.Ranges.{
  IsWordClass, Need, need, as_resources, validate-IsSound, resources-eq, resources-ok, plus, Fits,
  add-eq, add-ok, add64_pos,
}
use pomar.Capacity.{
  Class, Claims, Result, ok, err, ◌>>=◌, validate, resources, add, reserve, no_resources,
}

-- The claims of a list of attempts, and how many of them have the class's name.
abbrev pub total : List Class → Need
total [] = record { cpu = 0; memory = 0; disk = 0 }
total (c ∷ cs) = plus (need c) (total cs)

abbrev pub same_class : Class → List Class → ℕ
same_class c [] = 0
same_class c (other ∷ live) = (if str_eq other.name c.name then 1 else 0) + same_class c live

abbrev pub IsValid : Class → Type 0
IsValid c = validate c ≡ true

abbrev pub claims : Need → ℕ → Claims
claims n k = record { reserved = as_resources n; same = pos k }

pub need-Fits : (c : Class) → IsWordClass c → IsValid c → Fits (need c)
need-Fits c w v =
    let s = validate-IsSound c w v in
    record { cpu = s.cpu_fits; memory = s.memory_fits; disk = s.disk_fits }

next_same :
    (c other : Class) (k : ℕ)
    → k + 1 < half_range
    → (if str_eq other.name c.name then add64 (pos k) (pos 1) else pos k)
      ≡ pos (k + (if str_eq other.name c.name then 1 else 0))
next_same c other k h = ground (arith, add64_pos k 1)

-- Inversion of a successful bind.
-- A block that succeeds has a first step that does, and goes on from its value.
pub >>=-eq-ok {κ ℓ} :
    {V : Type κ} {W : Type ℓ} (first : Result V) (next : V → Result W) {w : W}
    → (first >>= next) ≡ ok w
    → (v : V) × (first ≡ ok v) × (next v ≡ ok w)
>>=-eq-ok (err e) next eq = cc
>>=-eq-ok (ok v) next eq = (v, refl, eq)

pub same-le-cpu :
    (c : Class) (live : List Class)
    → All IsWordClass live
    → All IsValid live
    → same_class c live ≤ (total live).cpu
same-le-cpu c [] w v = omega arith
same-le-cpu c (other ∷ live) w v =
    ground (arith, same-le-cpu c live w.1 v.1, (validate-IsSound other w.0 v.0).cpu_pos)

-- Claims that are valid and fit in an int64 are added up exactly.
pub reserve-eq :
    (c : Class) (live : List Class) (n : Need) (k : ℕ)
    → k ≤ n.cpu
    → All IsWordClass live
    → All IsValid live
    → Fits (plus n (total live))
    → reserve c live (claims n k) ≡ ok (claims (plus n (total live)) (k + same_class c live))
unfolding reserve
reserve-eq c [] n k m w v f = ground arith
reserve-eq c (other ∷ live) n k m w v f =
    let small : k + 1 < half_range =
      omega (arith, (validate-IsSound other w.0 v.0).cpu_pos, f.cpu) in
    let here : Fits (plus n (need other)) = omega arith in
    let more : ℕ = if str_eq other.name c.name then 1 else 0 in
    rw (resources-eq other w.0 v.0) (
      rw (add-eq n (need other) (need-Fits other w.0 v.0) here) (
        rw (next_same c other k small) (
          ground (
            arith,
            (validate-IsSound other w.0 v.0).cpu_pos,
            reserve-eq c live (plus n (need other)) (k + more)
                (ground (arith, (validate-IsSound other w.0 v.0).cpu_pos)) w.1 v.1 (omega arith),
          ))))

-- The loop returns only if every claim is valid and the sums fit in an int64.
pub reserve-ok :
    (c : Class) (live : List Class) (n : Need) (z : ℤ) (s : Claims)
    → All IsWordClass live
    → Fits n
    → reserve c live (record { reserved = as_resources n; same = z }) ≡ ok s
    → All IsValid live × Fits (plus n (total live))
unfolding reserve
reserve-ok c [] n z s w f h = (tt, omega arith)
reserve-ok c (other ∷ live) n z s w f h =
    let (r, er, h') = >>=-eq-ok (resources other) _ h in
    let v = resources-ok other er in
    let (sum, es, h'') = >>=-eq-ok (add (as_resources n) r) _ h' in
    let same_r : r ≡ as_resources (need other) = ground (arith, resources-eq other w.0 v) in
    let es' : add (as_resources n) (as_resources (need other)) ≡ ok sum = rw (← same_r) es in
    let here = add-ok n (need other) (need-Fits other w.0 v) es' in
    let same_sum : sum ≡ as_resources (plus n (need other)) =
      ground (arith, add-eq n (need other) (need-Fits other w.0 v) here) in
    let rest =
      reserve-ok c live (plus n (need other))
        (if str_eq other.name c.name then add64 z (pos 1) else z) s w.1 here
        (rw (← same_sum) h'') in
    ((v, rest.0), omega (arith, rest.1))

-- The loop as `Evaluate` starts it.
abbrev pub no_claims : Claims
no_claims = record { reserved = no_resources; same = pos 0 }

module _ (c : Class) (live : List Class) (w : All IsWordClass live) where
  pub start-eq :
      All IsValid live
      → Fits (total live)
      → reserve c live no_claims ≡ ok (claims (total live) (same_class c live))
  start-eq v f = ground (
    arith,
    reserve-eq c live (record { cpu = 0; memory = 0; disk = 0 }) 0 (omega arith) w v
        (omega (arith, f)),
  )

  pub start-ok :
      (s : Claims) → reserve c live no_claims ≡ ok s → All IsValid live × Fits (total live)
  start-ok s e =
      let (v, f) =
        reserve-ok c live (record { cpu = 0; memory = 0; disk = 0 }) (pos 0) s w (omega arith) e in
      (v, omega (arith, f))
