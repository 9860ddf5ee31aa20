-- ===== src/Jobs/Claim.antt =====
-- Leasing a job: `claim_next_ingestion_job` and `claim_ingestion_job`.
use foia_search_mcp.Prelude.{
  ℕ, ◌+◌, String, Bool, false, ◌&&◌, ◌||◌, Option, none, some, [], ◌∷◌, ◌==◌, ltb, if◌then◌else◌,
  str_eq, str_lt, str_le, format, find, update_where, Result, ok, err, ◌>>=◌,
}
use foia_search_mcp.Store.{StoreError, invalid_ingestion_job_state}
use foia_search_mcp.Jobs.Table.{
  Status, queued, running, interrupted, status_eq, status_text, JobRow, IngestionJobLease,
  IngestionJobRecord, Jobs, read_ingestion_job_record, held_by, get_ingestion_job_record,
}

-- lease_expires_at IS NOT NULL AND lease_expires_at <= now
abbrev pub lease_expired : String → JobRow → Bool
lease_expired now r = elim r.lease_expires_at [ none ↦ false | some e ↦ str_le e now ]

-- status IN ('queued', 'interrupted')
abbrev pub is_waiting : JobRow → Bool
is_waiting r = status_eq r.status queued || status_eq r.status interrupted

abbrev pub claimable : String → JobRow → Bool
claimable now r = is_waiting r || status_eq r.status running && lease_expired now r

-- CASE status WHEN 'queued' THEN 0 WHEN 'interrupted' THEN 1 ELSE 2 END
abbrev pub claim_rank : Status → ℕ
claim_rank queued = 0
claim_rank interrupted = 1
claim_rank _ = 2

-- ORDER BY rank, updated_at, id
unfoldable pub precedes : JobRow → JobRow → Bool
precedes a b =
    ltb (claim_rank a.status) (claim_rank b.status)
    || claim_rank a.status == claim_rank b.status
      && (str_lt a.updated_at b.updated_at || str_eq a.updated_at b.updated_at && ltb a.id b.id)

-- The first of the claimable rows in that order: `LIMIT 1`.
unfoldable pub next_claimable : String → Jobs → Option JobRow
next_claimable now [] = none
next_claimable now (r ∷ t) =
    let rest = next_claimable now t in
    if claimable now r
    then elim rest [ none ↦ some r | some s ↦ if precedes s r then some s else some r ]
    else rest

abbrev pub claim_note : IngestionJobLease → String
claim_note lease = format (
    "Claimed by " ∷ lease.owner ∷ " until " ∷ lease.expires_at
    ∷ "; ingestion execution may resume from stage." ∷ [])

-- The SET list, with the new count of attempts.
abbrev pub take_lease : IngestionJobLease → ℕ → JobRow → JobRow
take_lease lease attempts r = record r {
  status = running;
  attempts = attempts;
  lease_owner = some lease.owner;
  lease_expires_at = some lease.expires_at;
  error = none;
  next_action = some (claim_note lease);
  updated_at = lease.now;
}

unfoldable pub claim_next_ingestion_job :
    IngestionJobLease → Jobs → Jobs × Result StoreError (Option IngestionJobRecord)
claim_next_ingestion_job lease t = elim (next_claimable lease.now t) [
  | none ↦ (t, ok none)
  | some r ↦ (
    update_where (λ x. x.id == r.id) (λ x. take_lease lease (x.attempts + 1) x) t,
    ok (some (read_ingestion_job_record (take_lease lease (r.attempts + 1) r))),
  )
]

-- The WHERE clause of a claim by key: an owner may also renew its own lease.
abbrev pub claimable_by : IngestionJobLease → JobRow → Bool
claimable_by lease r =
    is_waiting r || held_by lease.owner r || status_eq r.status running && lease_expired lease.now r

-- A renewal by the owner is no new attempt.
abbrev pub renew_lease : IngestionJobLease → JobRow → JobRow
renew_lease lease r =
    take_lease lease (if held_by lease.owner r then r.attempts else r.attempts + 1) r

unfoldable pub claim_ingestion_job :
    String → IngestionJobLease → Jobs → Jobs × Result StoreError IngestionJobRecord
unfolding get_ingestion_job_record
claim_ingestion_job k lease t =
    let hit = λ (r : JobRow). str_eq r.job_key k && claimable_by lease r in
    (
      update_where hit (renew_lease lease) t,
      elim (find hit t) [
        | some r ↦ ok (read_ingestion_job_record (renew_lease lease r))
        | none ↦ do
          job ← get_ingestion_job_record k t
          err (
              invalid_ingestion_job_state job.job_key (
                format ("job with status '" ∷ status_text job.status ∷ "' cannot be claimed" ∷ [])))
      ],
    )
