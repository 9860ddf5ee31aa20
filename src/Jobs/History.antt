-- ===== src/Jobs/History.antt =====
-- The life of a job through any sequence of commands.
use foia_search_mcp.Prelude.{
  ◌+◌, ◌≤◌, String, some, ◌≡◌, inl, inr, arith, List, [], ◌∷◌, length, find-Memᴰ, str_eq, All-Memᴰ,
}
use foia_search_mcp.Jobs.Table.{
  Status, queued, running, succeeded, failed, interrupted, JobRow, select_job,
}
use foia_search_mcp.Jobs.Change.{Change, leased, staged, warned, faulted, linked, finished}
use foia_search_mcp.Jobs.Create.{JobQueue}
use foia_search_mcp.Jobs.Ops.{Op, run_op, op_now}
use foia_search_mcp.Jobs.Evolve.{actor, run_op-Evolves}
use foia_search_mcp.Jobs.Lease.{select-Evolves}
use foia_search_mcp.Jobs.Invariant.{RowOk, QueueOk, run_op-QueueOk, run_ops}

-- The diagram: what a job's status may be after one step.
infix 40 ◌⟶◌
pub data ◌⟶◌ : Status → Status → Type 0 where
  take : queued ⟶ running
  resume : interrupted ⟶ running
  work : running ⟶ running
  succeed : running ⟶ succeeded
  give_up : running ⟶ failed
  stop : running ⟶ interrupted

infix 40 ◌⟶*◌
pub data ◌⟶*◌ : Status → Status → Type 0 where
  here : {s : Status} → s ⟶* s
  then : {s t u : Status} → s ⟶ t → t ⟶* u → s ⟶* u

ruleset edges = (take, resume, work, succeed, give_up, stop)

Change-⟶ : (o now : String) (r s : JobRow) → Change o now r s → r.status ⟶ s.status
Change-⟶ o now r s (leased l n mine at free way e) = rw e (grind (arith, edges))
Change-⟶ o now r s (staged a b c d h p e) = rw e (grind (arith, edges))
Change-⟶ o now r s (warned w at h p e) = rw e (grind (arith, edges))
Change-⟶ o now r s (faulted a b h e) = rw e (grind (arith, edges))
Change-⟶ o now r s (linked d at h e) = rw e (grind (arith, edges))
Change-⟶ o now r s (finished f at h (inl e') e) = rw (e, e') (grind (arith, edges))
Change-⟶ o now r s (finished f at h (inr (inl (a, b, e'))) e) = rw (e, e') (grind (arith, edges))
Change-⟶ o now r s (finished f at h (inr (inr (a, b, e'))) e) = rw (e, e') (grind (arith, edges))

-- Progress does not fall, and an attempt is counted at most once.
abbrev Grows : JobRow → JobRow → Type 0
Grows r s = (r.progress ≤ s.progress) × (r.attempts ≤ s.attempts) × (s.attempts ≤ r.attempts + 1)

Change-Grows : (o now : String) (r s : JobRow) → RowOk r → Change o now r s → Grows r s
Change-Grows o now r s ok (leased l n mine at free way e) = rw e (ground arith)
Change-Grows o now r s ok (staged a b c d h p e) = rw e (ground arith)
Change-Grows o now r s ok (warned w at h p e) = rw e (ground arith)
Change-Grows o now r s ok (faulted a b h e) = rw e (ground arith)
Change-Grows o now r s ok (linked d at h e) = rw e (ground arith)
Change-Grows o now r s ok (finished f at h (inl e') e) = rw (e, e') (ground arith)
Change-Grows o now r s ok (finished f at h (inr (inl (a, b, e'))) e) = rw (e, e') (ground arith)
Change-Grows o now r s ok (finished f at h (inr (inr (a, b, e'))) e) = rw (e, e') (ground arith)

edge : {s t : Status} → s ⟶ t → s ⟶* t
edge st = then st here

join : {s t u : Status} → s ⟶* t → t ⟶* u → s ⟶* u
join here q = q
join (then st p) q = then st (join p q)

run_op-history :
    (op : Op) (q : JobQueue) (k : String) (r : JobRow)
    → QueueOk q
    → select_job k q.jobs ≡ some r
    → (s : JobRow) × (select_job k (run_op op q).jobs ≡ some s) × (r.status ⟶* s.status) × Grows r s
run_op-history op q k r ok found =
    let (s, found', way) =
      select-Evolves (actor "" op) (op_now op) k q.jobs (run_op op q).jobs r
        (run_op-Evolves "" op q ok.ids ok.keys) found in
    let (m, hit) = find-Memᴰ (λ x. str_eq x.job_key k) q.jobs r found in
    elim way [
      | inl same ↦ (r, rw (← same) at found', here, omega arith)
      | inr st ↦ (
        s,
        found',
        edge (Change-⟶ _ _ r s st),
        Change-Grows _ _ r s (All-Memᴰ RowOk q.jobs r ok.rows m) st,
      )
    ]

-- A job that is queued is found for ever after, whatever commands the workers issue: its status
-- follows the diagram, its progress never falls, and it counts at most one attempt for a command.
pub run_ops-history :
    (ops : List Op) (q : JobQueue) (k : String) (r : JobRow)
    → QueueOk q
    → select_job k q.jobs ≡ some r
    → (s : JobRow) × (select_job k (run_ops ops q).jobs ≡ some s)
      × (r.status ⟶* s.status)
      × (r.progress ≤ s.progress)
      × (r.attempts ≤ s.attempts)
      × (s.attempts ≤ r.attempts + length ops)
run_ops-history [] q k r ok found = (r, found, here, omega arith, omega arith, omega arith)
run_ops-history (op ∷ ops) q k r ok found =
    let (s, found', path, grows) = run_op-history op q k r ok found in
    let (u, found'', path', more, tries, tried) =
      run_ops-history ops (run_op op q) k s (run_op-QueueOk op q ok) found' in
    (u, found'', join path path', omega arith, omega arith, omega arith)
