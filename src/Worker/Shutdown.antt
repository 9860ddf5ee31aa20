-- ===== src/Worker/Shutdown.antt =====
-- A shutdown in the channel, and the steps of the worker that it leaves.
use foia_search_mcp.Prelude.{
  ℕ, ◌≤◌, Bool, true, false, if◌then◌else◌, Option, none, some, List, [], ◌∷◌, ◌++◌, Result, ok,
  err, inl, inr, ◌⊎◌, ◌≡◌, refl, arith,
}
use foia_search_mcp.Executor.Types.{ExecutorJobOutcome}
use foia_search_mcp.Worker.Channel.{WorkerCommand, drain, receive}
use foia_search_mcp.Worker.Loop.{
  Phase, starting, looking, executing, waiting, is_shutdown, is_stopped, phase_after, WorkerError,
}

abbrev pub has_shutdown : List WorkerCommand → Bool
has_shutdown [] = false
has_shutdown (WorkerCommand.kick ∷ cs) = has_shutdown cs
has_shutdown (WorkerCommand.shutdown ∷ cs) = true

pub drain-shutdown :
    (b : Bool) (cs : List WorkerCommand) → has_shutdown cs ≡ true → (drain b cs).1 ≡ true
unfolding drain
drain-shutdown b [] h = absurd (ground arith)
drain-shutdown b (WorkerCommand.kick ∷ cs) h = drain-shutdown b cs h
drain-shutdown b (WorkerCommand.shutdown ∷ cs) h = refl

pub sent-shutdown :
    (cs : List WorkerCommand) → has_shutdown (cs ++ WorkerCommand.shutdown ∷ []) ≡ true
sent-shutdown [] = refl
sent-shutdown (WorkerCommand.kick ∷ cs) = sent-shutdown cs
sent-shutdown (WorkerCommand.shutdown ∷ cs) = refl

pub sent-kick :
    (cs : List WorkerCommand)
    → has_shutdown cs ≡ true
    → has_shutdown (cs ++ WorkerCommand.kick ∷ []) ≡ true
sent-kick [] h = absurd (ground arith)
sent-kick (WorkerCommand.kick ∷ cs) h = sent-kick cs h
sent-kick (WorkerCommand.shutdown ∷ cs) h = refl

-- How many steps of the worker are left, if a shutdown is on its way.
abbrev pub steps_left : Phase → ℕ
steps_left starting = 2
steps_left looking = 1
steps_left executing = 3
steps_left waiting = 2
steps_left Phase.stopped = 0

pub receive-shutdown :
    (b : Bool) (cs : List WorkerCommand)
    → has_shutdown cs ≡ true
    → (is_shutdown (receive b cs).1 ≡ true)
      ⊎ (is_shutdown (receive b cs).1 ≡ false) × (has_shutdown (receive b cs).0 ≡ true)
unfolding receive
receive-shutdown b [] h = absurd (ground arith)
receive-shutdown true (WorkerCommand.kick ∷ cs) h = inr (refl, h)
receive-shutdown false (WorkerCommand.kick ∷ cs) h = inr (refl, h)
receive-shutdown true (WorkerCommand.shutdown ∷ cs) h = inl refl
receive-shutdown false (WorkerCommand.shutdown ∷ cs) h = inl refl

pub after-run :
    (r : Result WorkerError (Option ExecutorJobOutcome)) → steps_left (phase_after r) ≤ 2
after-run (ok (some outcome)) = omega arith
after-run (ok none) = omega arith
after-run (err e) = omega arith

pub either :
    {A : Type 0} (P : A → Type 0) (b : Bool) (x y : A)
    → (b ≡ true → P x)
    → (b ≡ false → P y)
    → P (if b then x else y)
either P true x y h k = h refl
either P false x y h k = k refl

pub is_stopped-eq : (p : Phase) → is_stopped p ≡ true → p ≡ Phase.stopped
is_stopped-eq starting h = cc
is_stopped-eq looking h = cc
is_stopped-eq executing h = cc
is_stopped-eq waiting h = cc
is_stopped-eq Phase.stopped h = refl

pub steps_left-le : (p : Phase) → steps_left p ≤ 3
steps_left-le starting = omega arith
steps_left-le looking = omega arith
steps_left-le executing = omega arith
steps_left-le waiting = omega arith
steps_left-le Phase.stopped = omega arith

pub no_steps : (p : Phase) → steps_left p ≡ 0 → p ≡ Phase.stopped
no_steps starting h = absurd (omega arith)
no_steps looking h = absurd (omega arith)
no_steps executing h = absurd (omega arith)
no_steps waiting h = absurd (omega arith)
no_steps Phase.stopped h = refl
