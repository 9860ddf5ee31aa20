-- ===== src/Worker/Channel.antt =====
-- src/ingest/worker.rs: the channel of commands, as the worker reads it. Time is not counted: a wait
-- ends at once if there is something to receive, and else at its time-out.
use foia_search_mcp.Prelude.{Bool, true, false, not, List, [], ◌∷◌, ◌++◌}

pub data WorkerCommand : Type 0 where
  kick shutdown : WorkerCommand

pub data WorkerWait : Type 0 where
  kick shutdown timeout : WorkerWait

-- What was sent and not yet received. `connected`: a sender is left.
pub record Channel : Type 0 where
  pub pending : List WorkerCommand
  pub connected : Bool

abbrev pub send : WorkerCommand → Channel → Channel
send c ch = record ch { pending = ch.pending ++ c ∷ [] }

-- The loop drains kicks until a shutdown or the end of what was sent.
unfoldable pub drain : Bool → List WorkerCommand → List WorkerCommand × Bool
drain connected [] = ([], not connected)
drain connected (WorkerCommand.kick ∷ cs) = drain connected cs
drain connected (WorkerCommand.shutdown ∷ cs) = (cs, true)

unfoldable pub shutdown_requested : Channel → Channel × Bool
unfolding drain
shutdown_requested ch =
    let drained = drain ch.connected ch.pending in (record ch { pending = drained.0 }, drained.1)

unfoldable pub receive : Bool → List WorkerCommand → List WorkerCommand × WorkerWait
receive true [] = ([], WorkerWait.timeout)
receive false [] = ([], WorkerWait.shutdown)
receive connected (WorkerCommand.kick ∷ cs) = (cs, WorkerWait.kick)
receive connected (WorkerCommand.shutdown ∷ cs) = (cs, WorkerWait.shutdown)

unfoldable pub wait_for_next_iteration : Channel → Channel × WorkerWait
unfolding receive
wait_for_next_iteration ch =
    let received = receive ch.connected ch.pending in
    (record ch { pending = received.0 }, received.1)
