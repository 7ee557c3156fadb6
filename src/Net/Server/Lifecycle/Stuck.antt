-- ===== src/Net/Server/Lifecycle/Stuck.antt =====
-- Worker threads of net/server.cpp that never end.
use sabot.Prelude.{ℕ, zero, suc, ◌≡◌, refl, Bool, false, inl, inr, ◌⊎◌, List, [], ◌∷◌}
use sabot.Outcome.{returned, threw, fault, spin}
use sabot.Net.Server.Lifecycle.{
  ZmqCall, Worker, Server, Turn, of_worker, of_proxy, work, work_at, all_finished, take_turn,
  take_turns,
}

-- A worker that never ends: it is lost, or at a message whose answer does not return.
abbrev pub IsStuck : Worker → Type 0
IsStuck Worker.lost = Unit {0}
IsStuck (Worker.working (returned u)) = ⊥
IsStuck (Worker.working _) = Unit {0}
IsStuck _ = ⊥

abbrev pub SomeStuck : List Worker → Type 0
SomeStuck [] = ⊥
SomeStuck (w ∷ ws) = IsStuck w ⊎ SomeStuck ws

work-IsStuck :
    (do_exit : Bool) (call : ZmqCall) (w : Worker) → IsStuck w → IsStuck (work do_exit call w)
unfolding work
work-IsStuck do_exit call Worker.starting h = absurd h
work-IsStuck do_exit call Worker.testing h = absurd h
work-IsStuck do_exit call Worker.receiving h = absurd h
work-IsStuck do_exit call (Worker.working (returned u)) h = absurd h
work-IsStuck do_exit call Worker.leaving h = absurd h
work-IsStuck do_exit call Worker.finished h = absurd h
work-IsStuck do_exit call Worker.lost h = tt
work-IsStuck do_exit call (Worker.working (threw e)) h = tt
work-IsStuck do_exit call (Worker.working fault) h = tt
work-IsStuck do_exit call (Worker.working spin) h = tt

work_at-SomeStuck :
    (do_exit : Bool) (call : ZmqCall) (i : ℕ) (ws : List Worker)
    → SomeStuck ws
    → SomeStuck (work_at do_exit call i ws)
unfolding work_at
work_at-SomeStuck do_exit call i [] h = absurd h
work_at-SomeStuck do_exit call zero (w ∷ ws) (inl h) = inl (work-IsStuck do_exit call w h)
work_at-SomeStuck do_exit call zero (w ∷ ws) (inr h) = inr h
work_at-SomeStuck do_exit call (suc i) (w ∷ ws) (inl h) = inl h
work_at-SomeStuck do_exit call (suc i) (w ∷ ws) (inr h) =
    inr (work_at-SomeStuck do_exit call i ws h)

pub take_turns-SomeStuck :
    {Z : Type 0} (schedule : List Turn) (s : Server Z)
    → SomeStuck s.workers
    → SomeStuck (take_turns schedule s).workers
unfolding take_turns take_turn
take_turns-SomeStuck [] s h = h
take_turns-SomeStuck (of_worker i call ∷ ts) s h =
    take_turns-SomeStuck ts _ (work_at-SomeStuck s.do_exit call i s.workers h)
take_turns-SomeStuck (of_proxy ∷ ts) s h = take_turns-SomeStuck ts _ h

pub SomeStuck-all_finished : (ws : List Worker) → SomeStuck ws → all_finished ws ≡ false
unfolding all_finished
SomeStuck-all_finished [] h = absurd h
SomeStuck-all_finished (Worker.finished ∷ ws) (inl h) = absurd h
SomeStuck-all_finished (Worker.finished ∷ ws) (inr h) = SomeStuck-all_finished ws h
SomeStuck-all_finished (Worker.starting ∷ ws) h = refl
SomeStuck-all_finished (Worker.testing ∷ ws) h = refl
SomeStuck-all_finished (Worker.receiving ∷ ws) h = refl
SomeStuck-all_finished (Worker.working o ∷ ws) h = refl
SomeStuck-all_finished (Worker.leaving ∷ ws) h = refl
SomeStuck-all_finished (Worker.lost ∷ ws) h = refl
