-- ===== src/Jobs/Change.antt =====
-- The changes of a row that a statement of the worker `o` at the time `now` may make.
use foia_search_mcp.Prelude.{
  ℕ, ◌+◌, ◌≤◌, String, true, false, Option, some, [], ◌∷◌, ◌++◌, ◌≡◌, ◌⊎◌, inl, inr, arith, any,
  str_eq, Evolves, Alters, Distinct, Bool-cases, Option-cases,
}
use mathlib.Core.List.{Memᴰ}
use foia_search_mcp.Jobs.Table.{JobRow, IngestionJobLease, Jobs, held_by}
use foia_search_mcp.Jobs.Claim.{claimable, claimable_by, take_lease, precedes, next_claimable}
use foia_search_mcp.Jobs.Update.{
  set_stage, set_warnings, set_error, set_document, set_finished, FinishedJob, completed, failure,
  interruption,
}
use foia_search_mcp.Jobs.Create.{NewIngestionJob, queued_row}

-- A lease counts a new attempt, unless the owner renews its own.
pub data Change (o now : String) : JobRow → JobRow → Type 0 where
  leased :
      {r s : JobRow} (l : IngestionJobLease) (n : ℕ)
      → l.owner ≡ o
      → l.now ≡ now
      → claimable_by l r ≡ true
      → (n ≡ r.attempts + 1) ⊎ ((held_by o r ≡ true) × (n ≡ r.attempts))
      → s ≡ take_lease l n r
      → Change o now r s
  staged :
      {r s : JobRow} (stage : String) (p : ℕ) (next : Option String) (at : String)
      → held_by o r ≡ true
      → p ≤ 100
      → s ≡ set_stage stage p next at r
      → Change o now r s
  warned :
      {r s : JobRow} (w at : String)
      → held_by o r ≡ true
      → any (λ stored. str_eq stored w) r.warnings ≡ false
      → s ≡ set_warnings (r.warnings ++ w ∷ []) at r
      → Change o now r s
  faulted :
      {r s : JobRow} (e at : String) → held_by o r ≡ true → s ≡ set_error e at r → Change o now r s
  linked :
      {r s : JobRow} (d : Option ℕ) (at : String)
      → held_by o r ≡ true
      → s ≡ set_document d at r
      → Change o now r s
  finished :
      {r s : JobRow} (f : FinishedJob) (at : String)
      → held_by o r ≡ true
      → (f ≡ completed)
        ⊎ ((e : String) × (n : Option String) × (f ≡ failure e n))
        ⊎ ((e : Option String) × (n : Option String) × (f ≡ interruption e n))
      → s ≡ set_finished f at r
      → Change o now r s

-- A row that a transaction inserts.
abbrev pub IsNew : JobRow → Type 0
IsNew r = (job : NewIngestionJob) × (i : ℕ) × (now : String) × (r ≡ queued_row job i now)

abbrev pub UniqueIds : Jobs → Type 0
UniqueIds t = Distinct (λ r. r.id) t

abbrev pub UniqueKeys : Jobs → Type 0
UniqueKeys t = Distinct (λ r. r.job_key) t

-- No statement but the insertion adds a row.
abbrev pub JobsAlter : String → String → Jobs → Jobs → Type 0
JobsAlter o now t u = Alters (Change o now) t u

abbrev pub JobsEvolve : String → String → Jobs → Jobs → Type 0
JobsEvolve o now t u = Evolves IsNew (Change o now) t u

-- The pick is the first row or the pick of the rest.
pub next_claimable_step :
    (now : String) (x : JobRow) (t : Jobs) (r : JobRow)
    → next_claimable now (x ∷ t) ≡ some r
    → ((r ≡ x) × (claimable now x ≡ true)) ⊎ (next_claimable now t ≡ some r)
unfolding next_claimable
next_claimable_step now x t r h = elim (Bool-cases (claimable now x)) [
  | inl c ↦ elim (Option-cases (next_claimable now t)) [
    | inl e ↦ inl (ground arith, c)
    | inr (s, e) ↦ elim (Bool-cases (precedes s x)) [
      | inl lt ↦ inr (ground arith)
      | inr ge ↦ inl (ground arith, c)
    ]
  ]
  | inr c ↦ inr (ground arith)
]

-- The row that a claim picks is in the table, and may be claimed.
pub next_claimable-Memᴰ :
    (now : String) (t : Jobs) (r : JobRow)
    → next_claimable now t ≡ some r
    → Memᴰ r t × (claimable now r ≡ true)
next_claimable-Memᴰ now [] r h = unfold next_claimable in cc
next_claimable-Memᴰ now (x ∷ t) r h = elim (next_claimable_step now x t r h) [
  | inl (e, c) ↦ (Memᴰ.head e, rw e c)
  | inr k ↦ let (m, c) = next_claimable-Memᴰ now t r k in (Memᴰ.tail m, c)
]
