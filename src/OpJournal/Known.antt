-- ===== src/OpJournal/Known.antt =====
-- An operation that the journal knows, in memory and on disk, and what keeps it known.
use mathlib.Core.Path.{subst}
use pomar.Prelude.{
  ℕ, ◌-◌, ◌≡◌, ◌⊎◌, inl, inr, ap, sym, ◌∙◌, Bool, true, false, Option, some, List, [], ◌∷◌, ◌++◌,
  arith, String, str_eq, eq_iff, Bool-cases, append_assoc,
}
use pomar.Prelude.Assoc.{Assoc, lookup, insert, remove, lookup-insert, lookup-remove}
use pomar.Terminal.Text.{has_byte}
use pomar.OpJournal.{
  newline, is_pending, is_sent, OpRecord, OpEntry, Append, durable, unsynced, torn, scan_lines,
  entry_of, Replayed, replay_record, replay, evict_sent, goes, append_record, Disposition,
}
use pomar.OpJournal.Lines.{IsClean, line-IsClean, scan_lines-line, replay-line}

-- What the code relies on of package encoding/json: what Marshal wrote Unmarshal reads, and it holds
-- no newline.
pub record IsJson (encode : OpRecord → List ℕ) (decode : List ℕ → Option OpRecord) : Type 0 where
  pub reads : (r : OpRecord) → decode (encode r) ≡ some r
  pub one_line : (r : OpRecord) → has_byte newline (encode r) ≡ false

-- The append left a whole line.
unfoldable pub is_whole : Append → Bool
is_whole (torn n) = false
is_whole _ = true

-- A test of an entry that stays true when a pending operation is settled.
abbrev pub IsLasting : (OpEntry → Bool) → Type 0
IsLasting test =
    (e : OpEntry)
    → test e ≡ true
    → is_pending e.disposition ≡ true
    → (d : Disposition) (t : ℕ)
    → test (record { digest = e.digest; disposition = d; written = t }) ≡ true

pub record Passes (test : OpEntry → Bool) (id : String) (ops : Assoc OpEntry) : Type 0 where
  pub entry : OpEntry
  pub found : lookup id ops ≡ some entry
  pub passes : test entry ≡ true

pub Passes-insert :
    (test : OpEntry → Bool) (id key : String) (e : OpEntry) (ops : Assoc OpEntry)
    → (str_eq key id ≡ false) ⊎ (test e ≡ true)
    → Passes test id ops
    → Passes test id (insert key e ops)
Passes-insert test id key e ops h p = elim (Bool-cases (str_eq key id)) [
  | inl is ↦ record {
    entry = e;
    found = (let l = lookup-insert key id e ops in ground arith);
    passes = elim h [ inl isnt ↦ absurd (ground arith) | inr t ↦ t ];
  }
  | inr isnt ↦ record {
    entry = p.entry;
    found = (let l = lookup-insert key id e ops in let f = p.found in ground arith);
    passes = p.passes;
  }
]

sent-other :
    (test : OpEntry → Bool) (id key : String)
    → ((e : OpEntry) → test e ≡ true → is_sent e.disposition ≡ false)
    → (n : ℕ) (ops : Assoc OpEntry) → Passes test id ops
    → goes n key ops ≡ true
    → str_eq key id ≡ false
unfolding goes
sent-other test id key unsent n ops p g =
    let f = p.found in let u = unsent p.entry p.passes in ground (arith, eq_iff key id)

-- An entry that is not sent outlives the evictions.
pub Passes-evict_sent :
    (test : OpEntry → Bool) (id : String)
    → ((e : OpEntry) → test e ≡ true → is_sent e.disposition ≡ false)
    → (n : ℕ) (order : List String) (ops : Assoc OpEntry) → Passes test id ops
    → Passes test id (evict_sent n order ops).1
unfolding evict_sent
Passes-evict_sent test id unsent n [] ops p = p
Passes-evict_sent test id unsent n (key ∷ order) ops p = elim (Bool-cases (goes n key ops)) [
  | inl g ↦
      rw (g, evict_sent)
        (Passes-evict_sent test id unsent (n - 1) order (remove key ops) (record {
          entry = p.entry;
          found = lookup-remove key id ops (sent-other test id key unsent n ops p g) ∙ p.found;
          passes = p.passes;
        }))
  | inr stays ↦ rw (stays, evict_sent) (Passes-evict_sent test id unsent n order ops p)
]

module _ (decode : List ℕ → Option OpRecord) where
  -- The operations that a file gives back.
  unfoldable pub logged : List ℕ → Replayed
  logged file = replay decode (scan_lines file) ([], [])

  -- A file that ends with a whole line, and gives back an entry that passes.
  pub record IsLogged (test : OpEntry → Bool) (id : String) (file : List ℕ) : Type 0 where
    pub clean : IsClean file
    pub on_disk : Passes test id (logged file).0

module _ (encode : OpRecord → List ℕ) (decode : List ℕ → Option OpRecord)
    (json : IsJson encode decode) where
  logged-line :
      (file : List ℕ) (r : OpRecord)
      → IsClean file
      → (logged decode (file ++ (encode r ++ newline ∷ [])) ≡ logged decode file)
        ⊎ (logged decode (file ++ (encode r ++ newline ∷ []))
            ≡ replay_record (some r) (logged decode file))
  unfolding logged
  logged-line file r c =
      let e = scan_lines-line file (encode r) c (json.one_line r) in
      let l = replay-line decode (scan_lines file) (encode r) ([], []) in
      let here = ap (λ ls. replay decode ls ([], [])) e in
      elim l [
        | inl same ↦ inl (here ∙ same)
        | inr more ↦
            inr (here ∙ more ∙ ap (λ o. replay_record o (logged decode file)) (json.reads r))
      ]

  Passes-record :
      (test : OpEntry → Bool) (id : String) (r : OpRecord) (m : Replayed)
      → (str_eq r.id id ≡ false) ⊎ (test (entry_of r) ≡ true)
      → Passes test id m.0
      → Passes test id (replay_record (some r) m).0
  unfolding replay_record
  Passes-record test id r (ops, order) h p = elim (Bool-cases (str_eq r.id "")) [
    | inl nameless ↦ rw nameless p
    | inr named ↦ rw named (Passes-insert test id r.id (entry_of r) ops h p)
  ]

  whole-IsLogged :
      (test : OpEntry → Bool) (id : String) (r : OpRecord) (file : List ℕ)
      → (str_eq r.id id ≡ false) ⊎ (test (entry_of r) ≡ true)
      → IsLogged decode test id file
      → IsLogged decode test id (file ++ (encode r ++ newline ∷ []))
  whole-IsLogged test id r file h l = record {
    clean =
        subst IsClean (append_assoc file (encode r) (newline ∷ []))
          (line-IsClean (file ++ encode r));
    on_disk = elim (logged-line file r l.clean) [
      | inl same ↦ subst (λ m. Passes test id m.0) (sym same) l.on_disk
      | inr more ↦
          subst (λ m. Passes test id m.0) (sym more)
            (Passes-record test id r (logged decode file) h l.on_disk)
    ];
  }

  -- A whole append keeps an operation known.
  pub append-IsLogged :
      (test : OpEntry → Bool) (id : String) (a : Append) (r : OpRecord) (file : List ℕ)
      → is_whole a ≡ true
      → (str_eq r.id id ≡ false) ⊎ (test (entry_of r) ≡ true)
      → IsLogged decode test id file
      → IsLogged decode test id (append_record encode a r file).0
  unfolding append_record is_whole
  append-IsLogged test id durable r file w h l = whole-IsLogged test id r file h l
  append-IsLogged test id unsynced r file w h l = whole-IsLogged test id r file h l
  append-IsLogged test id (torn n) r file w h l = cc
