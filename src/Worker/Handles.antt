-- ===== src/Worker/Handles.antt =====
-- The handles leave the tables alone.
use foia_search_mcp.Prelude.{suc, ltb, Bool, true, false, if◌then◌else◌, ◌≡◌, refl}
use foia_search_mcp.Worker.Channel.{WorkerCommand, send}
use foia_search_mcp.Worker.Loop.{is_stopped, delivered, connect, kick_worker, System, stop_worker}
use foia_search_mcp.Worker.Shutdown.{either}

same_store : (b : Bool) (s t : System) → t.store ≡ s.store → (if b then t else s).store ≡ s.store
same_store true s t h = h
same_store false s t h = refl

pub kick-store : (s : System) → (kick_worker s).0.store ≡ s.store
unfolding kick_worker
kick-store s = same_store (ltb 0 s.kick_handles) s (delivered WorkerCommand.kick s) (
    either (λ (t : System). t.store ≡ s.store) (is_stopped s.phase) s
      (record s { channel = send WorkerCommand.kick s.channel }) (λ gone. refl) (λ alive. refl))

pub handle-store :
    (s : System)
    → (if s.handle_open then record s { kick_handles = suc s.kick_handles } else s).store ≡ s.store
handle-store s = same_store s.handle_open s (record s { kick_handles = suc s.kick_handles }) refl

pub stop-store : (s : System) → (stop_worker s).store ≡ s.store
unfolding stop_worker
stop-store s =
    either (λ (t : System). t.store ≡ s.store) s.handle_open
      (connect (record (delivered WorkerCommand.shutdown (record s { cancelled = true })) {
        handle_open = false;
      }))
      (record s { cancelled = true })
      (λ held.
        either (λ (t : System). t.store ≡ s.store) (is_stopped s.phase)
          (record s { cancelled = true })
          (record s { cancelled = true; channel = send WorkerCommand.shutdown s.channel })
          (λ gone. refl) (λ alive. refl))
      (λ shut. refl)
