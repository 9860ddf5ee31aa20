-- ===== src/Worker/Stop.antt =====
-- What follows a call of `stop`, in every interleaving.
use foia_search_mcp.Prelude.{
  ℕ, ◌+◌, ◌-◌, ◌≤◌, ◌<◌, ltb, true, false, List, [], ◌∷◌, ◌++◌, Result-cases, inl, inr, ◌⊎◌, ◌≡◌,
  refl, sym, ap, ◌∙◌, arith,
}
use foia_search_mcp.Executor.Types.{SqliteStore}
use foia_search_mcp.Worker.Channel.{
  WorkerCommand, send, shutdown_requested, wait_for_next_iteration,
}
use foia_search_mcp.Worker.Loop.{
  QueuedIngestionWorker, WorkerWorld, Phase, starting, looking, executing, waiting, System,
  is_stopped, delivered, worker_step, run_once, Event, work, kicked, kick_handle, drop_kick, stop,
  enqueue, statement, stop_worker, happen, happen_all, spawn,
}
use foia_search_mcp.Worker.Shutdown.{
  has_shutdown, drain-shutdown, sent-shutdown, sent-kick, steps_left, receive-shutdown, after-run,
  is_stopped-eq, steps_left-le, no_steps, either,
}

-- After `stop` the token is set, and the shutdown is received or on its way.
abbrev pub Stopping : System → Type 0
Stopping s =
    (s.handle_open ≡ false)
    × (s.cancelled ≡ true)
    × ((s.phase ≡ Phase.stopped) ⊎ (has_shutdown s.channel.pending ≡ true))

kicked-shutdown :
    (s : System)
    → (s.phase ≡ Phase.stopped) ⊎ (has_shutdown s.channel.pending ≡ true)
    → (s.phase ≡ Phase.stopped)
      ⊎ (has_shutdown (s.channel.pending ++ WorkerCommand.kick ∷ []) ≡ true)
kicked-shutdown s (inl e) = inl e
kicked-shutdown s (inr h) = inr (sent-kick s.channel.pending h)

on_its_way :
    (s : System) (p : Phase)
    → s.phase ≡ p
    → 0 < steps_left p
    → (s.phase ≡ Phase.stopped) ⊎ (has_shutdown s.channel.pending ≡ true)
    → has_shutdown s.channel.pending ≡ true
on_its_way s p at busy (inl e) =
    let idle : steps_left p ≡ 0 = ap steps_left (sym at ∙ e) in absurd (omega arith)
on_its_way s p at busy (inr h) = h

-- A handle that is not open was closed before.
closed_before :
    (s : System)
    → (s.handle_open ≡ true) ⊎ Stopping s
    → s.handle_open ≡ false
    → Stopping (record s { cancelled = true })
closed_before s (inl h) shut = cc
closed_before s (inr (closed, set, coming)) shut = (closed, refl, coming)

-- Until `stop` is called the handle is open.
abbrev Orderly : System → Type 0
Orderly s = (s.handle_open ≡ true) ⊎ Stopping s

pub stop-Stopping : (s : System) → Orderly s → Stopping (stop_worker s)
unfolding stop_worker
stop-Stopping s h =
    either Stopping s.handle_open _ _
      (λ held.
        either
          (λ (t : System).
            (false ≡ false)
            × (t.cancelled ≡ true)
            × ((t.phase ≡ Phase.stopped) ⊎ (has_shutdown t.channel.pending ≡ true)))
          (is_stopped s.phase) _ _ (λ gone. (refl, refl, inl (is_stopped-eq s.phase gone)))
          (λ alive. (refl, refl, inr (sent-shutdown s.channel.pending))))
      (λ shut. closed_before s h shut)

abbrev Nearer : System → System → Type 0
Nearer s t = Stopping t × (steps_left t.phase ≤ steps_left s.phase - 0)

module _ {Url : Type 0} (w : QueuedIngestionWorker) where
  -- A step of the worker, on a state whose phase it is.
  step-Stopping :
      (world : WorkerWorld Url) (p : Phase) (s : System)
      → s.phase ≡ p
      → Stopping s
      → Stopping (worker_step w world p s)
        × (steps_left (worker_step w world p s).phase ≤ steps_left p - 1)
  unfolding worker_step shutdown_requested wait_for_next_iteration
  step-Stopping world starting s at (closed, set, coming) =
      let pending = on_its_way s starting at (omega arith) coming in
      elim (Result-cases world.runtime) [
        | inl (u, e) ↦ rw e ((closed, set, inr pending), omega arith)
        | inr (x, e) ↦ rw e ((closed, set, inl refl), omega arith)
      ]
  step-Stopping world looking s at (closed, set, coming) =
      let pending = on_its_way s looking at (omega arith) coming in
      rw (drain-shutdown s.channel.connected s.channel.pending pending)
        ((closed, set, inl refl), omega arith)
  step-Stopping world executing s at (closed, set, coming) = (
    (closed, set, inr (on_its_way s executing at (omega arith) coming)),
    after-run (run_once w s.cancelled world s.store).1,
  )
  step-Stopping world waiting s at (closed, set, coming) =
      let pending = on_its_way s waiting at (omega arith) coming in
      elim (receive-shutdown s.channel.connected s.channel.pending pending) [
        | inl last ↦ rw last ((closed, set, inl refl), omega arith)
        | inr (more, left) ↦ rw more ((closed, set, inr left), omega arith)
      ]
  step-Stopping world Phase.stopped s at h = (h, omega (arith, ap steps_left at))

  abbrev pub is_work : Event Url → ℕ
  is_work (work world) = 1
  is_work e = 0

  -- Any event keeps a stopping system so, and a step of the worker brings it nearer to its end.
  pub happen-Stopping :
      (e : Event Url) (s : System)
      → Stopping s
      → Stopping (happen w e s) × (steps_left (happen w e s).phase ≤ steps_left s.phase - is_work e)
  unfolding happen
  happen-Stopping (work world) s h = step-Stopping world s.phase s refl h
  happen-Stopping kicked s (closed, set, coming) =
      either (Nearer s) (ltb 0 s.kick_handles) (delivered WorkerCommand.kick s) s
        (λ some_left.
          either (Nearer s) (is_stopped s.phase) s
            (record s { channel = send WorkerCommand.kick s.channel })
            (λ lost. ((closed, set, coming), omega arith))
            (λ alive. ((closed, set, kicked-shutdown s coming), omega arith)))
        (λ none_left. ((closed, set, coming), omega arith))
  happen-Stopping kick_handle s (closed, set, coming) =
      either (Nearer s) s.handle_open _ s (λ held. ((closed, set, coming), omega arith))
        (λ shut. ((closed, set, coming), omega arith))
  happen-Stopping drop_kick s h = (h, omega arith)
  happen-Stopping stop s (closed, set, coming) =
      either (Nearer s) s.handle_open _ _ (λ held. cc)
        (λ shut. ((closed, refl, coming), omega arith))
  happen-Stopping (enqueue job now) s h = (h, omega arith)
  happen-Stopping (statement q) s h = (h, omega arith)

  abbrev pub works : List (Event Url) → ℕ
  works [] = 0
  works (e ∷ es) = is_work e + works es

  happen_all-Stopping :
      (es : List (Event Url)) (s : System)
      → Stopping s
      → steps_left (happen_all w es s).phase ≤ steps_left s.phase - works es
  happen_all-Stopping [] s h = omega arith
  happen_all-Stopping (e ∷ es) s h =
      let (still, nearer) = happen-Stopping e s h in
      omega (arith, happen_all-Stopping es (happen w e s) still)

  step-open :
      (world : WorkerWorld Url) (p : Phase) (s : System)
      → (worker_step w world p s).handle_open ≡ s.handle_open
  unfolding worker_step
  step-open world starting s = refl
  step-open world looking s = refl
  step-open world executing s = refl
  step-open world waiting s = refl
  step-open world Phase.stopped s = refl

  open_or : (e : Event Url) (s : System) → Orderly s → Orderly (happen w e s)
  unfolding happen
  open_or e s (inr stopping) = inr (happen-Stopping e s stopping).0
  open_or (work world) s (inl h) = inl (step-open world s.phase s ∙ h)
  open_or kicked s (inl h) =
      either Orderly (ltb 0 s.kick_handles) (delivered WorkerCommand.kick s) s
        (λ some_left.
          either Orderly (is_stopped s.phase) s
            (record s { channel = send WorkerCommand.kick s.channel }) (λ gone. inl h)
            (λ alive. inl h))
        (λ none_left. inl h)
  open_or kick_handle s (inl h) = either Orderly s.handle_open _ s (λ held. inl h) (λ shut. inl h)
  open_or drop_kick s (inl h) = inl h
  open_or stop s (inl h) = inr (stop-Stopping s (inl h))
  open_or (enqueue job now) s (inl h) = inl h
  open_or (statement q) s (inl h) = inl h

  pub reachable-Orderly :
      (es : List (Event Url)) (s : System) → Orderly s → Orderly (happen_all w es s)
  reachable-Orderly [] s h = h
  reachable-Orderly (e ∷ es) s h = reachable-Orderly es (happen w e s) (open_or e s h)

  -- However the worker's steps interleave with kicks, new and dropped handles, new jobs and other
  -- statements: once `stop` has been called, three more steps of the worker end its thread, so that
  -- the `join` returns.
  pub stop-ends :
      (tables : SqliteStore) (earlier later : List (Event Url))
      → 3 ≤ works later
      → (happen_all w later (stop_worker (happen_all w earlier (spawn tables)))).phase
        ≡ Phase.stopped
  stop-ends tables earlier later enough =
      let before = happen_all w earlier (spawn tables) in
      let stopping = stop-Stopping before (reachable-Orderly earlier (spawn tables) (inl refl)) in
      no_steps _ (
        omega (
          arith,
          happen_all-Stopping later (stop_worker before) stopping,
          steps_left-le (stop_worker before).phase,
        ))
