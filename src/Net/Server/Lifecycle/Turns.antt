-- ===== src/Net/Server/Lifecycle/Turns.antt =====
-- How many turns the worker threads of net/server.cpp need to end, once doExit is set.
use sabot.Prelude.{
  ℕ, zero, suc, ◌+◌, ◌-◌, ◌≤◌, ◌<◌, ◌≡◌, refl, arith, ◌==◌, true, if◌then◌else◌, some, none, List,
  [], ◌∷◌, length,
}
use sabot.Outcome.{returned, threw, fault, spin}
use sabot.Net.Server.Lifecycle.{
  ZmqCall, Worker, Server, Turn, of_worker, of_proxy, work, work_at, proxy_work, all_finished,
  take_turn, take_turns,
}

-- The turns that the worker has in a schedule.
unfoldable pub turns_of : ℕ → List Turn → ℕ
turns_of i [] = 0
turns_of i (of_worker j call ∷ ts) = (if i == j then 1 else 0) + turns_of i ts
turns_of i (of_proxy ∷ ts) = turns_of i ts

-- How many turns a worker needs at most to end, once doExit is set.
pub rank : Worker → ℕ
rank Worker.starting = 3
rank Worker.testing = 2
rank Worker.receiving = 4
rank (Worker.working o) = 3
rank Worker.leaving = 1
rank Worker.finished = 0
rank Worker.lost = 0

-- A call that returns, and a message that is answered.
abbrev pub IsCalmCall : ZmqCall → Type 0
IsCalmCall (returned none) = Unit {0}
IsCalmCall (returned (some o)) = o ≡ returned tt
IsCalmCall (threw e) = ⊥
IsCalmCall fault = ⊥
IsCalmCall spin = ⊥

abbrev pub AreCalm : List Turn → Type 0
AreCalm [] = Unit {0}
AreCalm (of_worker i call ∷ ts) = IsCalmCall call × AreCalm ts
AreCalm (of_proxy ∷ ts) = AreCalm ts

-- A worker that is not lost, nor at a message that is not answered.
abbrev pub IsCalm : Worker → Type 0
IsCalm (Worker.working o) = o ≡ returned tt
IsCalm Worker.lost = ⊥
IsCalm _ = Unit {0}

abbrev pub AllCalm : List Worker → Type 0
AllCalm [] = Unit {0}
AllCalm (w ∷ ws) = IsCalm w × AllCalm ws

-- Each worker is calm and needs as many turns as there are at most.
abbrev pub Within : (ℕ → ℕ) → List Worker → Type 0
Within turns [] = Unit {0}
Within turns (w ∷ ws) = IsCalm w × (rank w ≤ turns 0) × Within (λ i. turns (suc i)) ws

-- A turn keeps a worker calm, and takes one off what it needs.
work-rank :
    (call : ZmqCall) (w : Worker)
    → IsCalmCall call
    → IsCalm w
    → IsCalm (work true call w) × (rank (work true call w) ≤ rank w - 1)
unfolding rank work
work-rank call w c h = ground (arith, c, h)

Within-weaken : (f g : ℕ → ℕ) (ws : List Worker) → ((i : ℕ) → f i ≤ g i) → Within f ws → Within g ws
Within-weaken f g [] h w = tt
Within-weaken f g (v ∷ ws) h (calm, first, rest) = (
  calm,
  omega (arith, h 0),
  Within-weaken (λ i. f (suc i)) (λ i. g (suc i)) ws (λ i. h (suc i)) rest,
)

-- A turn of a worker takes one off what it needs.
work_at-Within :
    (call : ZmqCall) (i : ℕ) (f : ℕ → ℕ) (ws : List Worker)
    → IsCalmCall call
    → Within (λ k. (if k == i then 1 else 0) + f k) ws
    → Within f (work_at true call i ws)
unfolding work_at
work_at-Within call i f [] c h = tt
work_at-Within call zero f (w ∷ ws) c (calm, first, rest) =
    let (kept, fewer) = work-rank call w c calm in
    (kept, omega (arith, fewer), Within-weaken _ (λ k. f (suc k)) ws (λ k. ground arith) rest)
work_at-Within call (suc i) f (w ∷ ws) c (calm, first, rest) = (
  calm,
  ground arith,
  work_at-Within call i (λ k. f (suc k)) ws c (Within-weaken _ _ ws (λ k. ground arith) rest),
)

all_finished-Within : (ws : List Worker) → Within (λ i. 0) ws → all_finished ws ≡ true
unfolding all_finished rank
all_finished-Within [] h = refl
all_finished-Within (Worker.finished ∷ ws) (calm, first, rest) = all_finished-Within ws rest
all_finished-Within (Worker.starting ∷ ws) (calm, first, rest) = absurd (omega arith)
all_finished-Within (Worker.testing ∷ ws) (calm, first, rest) = absurd (omega arith)
all_finished-Within (Worker.receiving ∷ ws) (calm, first, rest) = absurd (omega arith)
all_finished-Within (Worker.working o ∷ ws) (calm, first, rest) = absurd (omega arith)
all_finished-Within (Worker.leaving ∷ ws) (calm, first, rest) = absurd (omega arith)
all_finished-Within (Worker.lost ∷ ws) (calm, first, rest) = absurd calm

-- What turns leave of a server that is told to stop.
pub record AfterTurns {Z : Type 0} (s s' : Server Z) : Type 0 where
  pub same_endpoint : s'.endpoint ≡ s.endpoint
  pub same_sockets : s'.sockets ≡ s.sockets
  pub same_running : s'.is_running ≡ s.is_running
  pub same_exit : s'.do_exit ≡ s.do_exit
  pub finished : all_finished s'.workers ≡ true

pub take_turns-AfterTurns :
    {Z : Type 0} (schedule : List Turn) (s : Server Z)
    → s.do_exit ≡ true
    → AreCalm schedule
    → Within (λ i. turns_of i schedule) s.workers
    → AfterTurns s (take_turns schedule s)
unfolding take_turns take_turn turns_of
take_turns-AfterTurns [] s told calm enough = record {
  same_endpoint = refl;
  same_sockets = refl;
  same_running = refl;
  same_exit = refl;
  finished = all_finished-Within s.workers enough;
}
take_turns-AfterTurns (of_worker i call ∷ ts) s told (c, calm) enough =
    let next = record s { workers = work_at s.do_exit call i s.workers } in
    let left : Within (λ k. turns_of k ts) (work_at s.do_exit call i s.workers) =
      rw told (work_at-Within call i (λ k. turns_of k ts) s.workers c enough) in
    let a = take_turns-AfterTurns ts next told calm left in
    record {
      same_endpoint = a.same_endpoint;
      same_sockets = a.same_sockets;
      same_running = a.same_running;
      same_exit = a.same_exit;
      finished = a.finished;
    }
take_turns-AfterTurns (of_proxy ∷ ts) s told calm enough =
    let a = take_turns-AfterTurns ts (record s { proxy = proxy_work s.proxy }) told calm enough in
    record {
      same_endpoint = a.same_endpoint;
      same_sockets = a.same_sockets;
      same_running = a.same_running;
      same_exit = a.same_exit;
      finished = a.finished;
    }

pub four_turns :
    (f : ℕ → ℕ) (ws : List Worker) → AllCalm ws → ((i : ℕ) → i < length ws → 4 ≤ f i) → Within f ws
unfolding rank
four_turns f [] calm h = tt
four_turns f (w ∷ ws) (c, calm) h = (
  c,
  ground (arith, h 0 (omega arith)),
  four_turns (λ i. f (suc i)) ws calm (λ i lt. h (suc i) (omega arith)),
)
