-- ===== src/Jobs/Order.antt =====
-- Which job a claim takes, and what becomes of it.
use foia_search_mcp.Prelude.{
  ◌+◌, String, true, false, none, some, ◌≡◌, ◌≢◌, refl, ◌↔◌, inl, inr, arith, [], ◌∷◌, str_eq,
  eq_iff, eq_refl, str_lt_irrefl, str_lt_trans, str_le_trans, ◌∙◌, ap, All, All-impl, All-Memᴰ,
  find-update_where, Bool-cases, Option-cases, ◌==◌, ok,
}
use mathlib.Core.List.{Memᴰ}
use foia_search_mcp.Jobs.Table.{
  JobRow, Jobs, IngestionJobLease, IngestionJobRecord, read_ingestion_job_record, select_job,
}
use foia_search_mcp.Jobs.Claim.{
  claimable, precedes, next_claimable, claim_next_ingestion_job, take_lease,
}
use foia_search_mcp.Jobs.Change.{UniqueIds, UniqueKeys, next_claimable-Memᴰ}

-- The order is a total preorder on rows.
precedes_asymm : (a b : JobRow) → precedes a b ≡ true → precedes b a ≡ false
unfolding precedes
precedes_asymm a b h = ground (
  arith,
  str_lt_trans a.updated_at b.updated_at a.updated_at,
  str_lt_irrefl a.updated_at,
  eq_iff a.updated_at b.updated_at,
  eq_iff b.updated_at a.updated_at,
  str_lt_irrefl b.updated_at,
)

-- If `b` is not before `a` and `c` not before `b`, then `c` is not before `a`.
not_precedes_trans :
    (a b c : JobRow) → precedes b a ≡ false → precedes c b ≡ false → precedes c a ≡ false
unfolding precedes
not_precedes_trans a b c h k = ground (arith, str_le_trans a.updated_at b.updated_at c.updated_at)

no_claimable :
    (now : String) (t : Jobs) → next_claimable now t ≡ none → All (λ r. claimable now r ≡ false) t
unfolding next_claimable
no_claimable now [] h = tt
no_claimable now (x ∷ t) h = elim (Bool-cases (claimable now x)) [
  | inl c ↦ elim (Option-cases (next_claimable now t)) [
    | inl e ↦ absurd (ground arith)
    | inr (s, e) ↦
        absurd (elim (Bool-cases (precedes s x)) [ inl lt ↦ ground arith | inr ge ↦ ground arith ])
  ]
  | inr c ↦ (c, no_claimable now t (ground arith))
]

-- Nothing that may be claimed comes before `r`.
abbrev pub IsFirst : String → Jobs → JobRow → Type 0
IsFirst now t r = All (λ s. claimable now s ≡ true → precedes s r ≡ false) t

precedes_irrefl : (a : JobRow) → precedes a a ≡ false
precedes_irrefl a = elim (Bool-cases (precedes a a)) [ inl h ↦ precedes_asymm a a h | inr h ↦ h ]

none-IsFirst :
    (now : String) (t : Jobs) (r : JobRow) → next_claimable now t ≡ none → IsFirst now t r
none-IsFirst now t r h = All-impl t (λ s idle c. cc) (no_claimable now t h)

next_claimable-IsFirst :
    (now : String) (t : Jobs) (r : JobRow) → next_claimable now t ≡ some r → IsFirst now t r
unfolding next_claimable
next_claimable-IsFirst now [] r h = tt
next_claimable-IsFirst now (x ∷ t) r h = elim (Bool-cases (claimable now x)) [
  | inr c ↦ ((λ c'. cc), next_claimable-IsFirst now t r (ground arith))
  | inl c ↦ elim (Option-cases (next_claimable now t)) [
    | inl e ↦
        let this : r ≡ x = ground arith in
        ((λ _. rw this (precedes_irrefl x)), none-IsFirst now t r e)
    | inr (s, e) ↦ elim (Bool-cases (precedes s x)) [
      | inl lt ↦
          let this : s ≡ r = ground arith in
          (
            (λ _. precedes_asymm r x (rw (← this) lt)),
            next_claimable-IsFirst now t r (e ∙ ap (λ y. some y) this),
          )
      | inr ge ↦
          let this : r ≡ x = ground arith in
          (
            (λ _. rw this (precedes_irrefl x)),
            All-impl t (λ y before c'. rw this (not_precedes_trans x s y ge (before c')))
                (next_claimable-IsFirst now t s e),
          )
    ]
  ]
]

-- With unique keys, the query for a row's key finds the row.
pub select_of_Memᴰ :
    (t : Jobs) (r : JobRow) → UniqueKeys t → Memᴰ r t → select_job r.job_key t ≡ some r
select_of_Memᴰ [] r keys m = elim m [ ]
select_of_Memᴰ (x ∷ t) r keys (Memᴰ.head e) = rw e (ground (arith, eq_refl x.job_key))
select_of_Memᴰ (x ∷ t) r keys (Memᴰ.tail m) =
    let other : r.job_key ≢ x.job_key = All-Memᴰ (λ s. s.job_key ≢ x.job_key) t r keys.0 m in
    ground (arith, eq_iff x.job_key r.job_key, select_of_Memᴰ t r keys.1 m)

claim_after :
    (l : IngestionJobLease) (t : Jobs) (r : JobRow)
    → next_claimable l.now t ≡ some r
    → select_job r.job_key t ≡ some r
    → select_job r.job_key (claim_next_ingestion_job l t).0 ≡ some (take_lease l (r.attempts + 1) r)
unfolding claim_next_ingestion_job
claim_after l t r e found =
    rw (e, claim_next_ingestion_job)
      (find-update_where (λ x. str_eq x.job_key r.job_key) (λ x. x.id == r.id)
          (λ x. take_lease l (x.attempts + 1) x) t (λ x. refl)
        ∙ rw found (ground arith))

-- A claim of the next job that returns one returns the row under its key, which could be claimed and
-- before which no claimable row comes; the row now runs under the lease with one more attempt, which
-- is what the claim returns.
pub claim_next-some :
    (l : IngestionJobLease) (t : Jobs) (job : IngestionJobRecord)
    → UniqueIds t
    → UniqueKeys t
    → (claim_next_ingestion_job l t).1 ≡ ok (some job)
    → (r : JobRow) × (select_job job.job_key t ≡ some r)
      × (claimable l.now r ≡ true)
      × IsFirst l.now t r
      × (select_job job.job_key (claim_next_ingestion_job l t).0
          ≡ some (take_lease l (r.attempts + 1) r))
      × (job ≡ read_ingestion_job_record (take_lease l (r.attempts + 1) r))
unfolding claim_next_ingestion_job
claim_next-some l t job ids keys h = elim (Option-cases (next_claimable l.now t)) [
  | inl e ↦ absurd (ground arith)
  | inr (r, e) ↦
      let (m, c) = next_claimable-Memᴰ l.now t r e in
      let is_job : job ≡ read_ingestion_job_record (take_lease l (r.attempts + 1) r) =
        ground arith in
      let found = select_of_Memᴰ t r keys m in
      rw is_job (r, found, c, next_claimable-IsFirst l.now t r e, claim_after l t r e found, refl)
]

-- A claim of the next job leaves the table alone and returns none exactly when no row may be claimed.
pub claim_next-none :
    (l : IngestionJobLease) (t : Jobs)
    → (claim_next_ingestion_job l t ≡ (t, ok none)) ↔ All (λ r. claimable l.now r ≡ false) t
unfolding claim_next_ingestion_job
claim_next-none l t = elim (Option-cases (next_claimable l.now t)) [
  | inl e ↦ ((λ _. no_claimable l.now t e), λ _. rw (e, claim_next_ingestion_job))
  | inr (r, e) ↦
      let (m, c) = next_claimable-Memᴰ l.now t r e in
      (
        (λ h. absurd (ground arith)),
        λ idle. absurd (ground (arith, All-Memᴰ (λ r. claimable l.now r ≡ false) t r idle m)),
      )
]
