-- ===== src/Net/Server/Lifecycle/Stop.antt =====
-- When `stop` of net/server.cpp returns.
use sabot.Prelude.{
  ℕ, ◌≤◌, ◌<◌, ◌≡◌, refl, ap, ◌∙◌, Bool, true, false, Bool-cases, inl, inr, if◌then◌else◌, some,
  List, [], ◌∷◌, length,
}
use sabot.Outcome.{returned, spin}
use sabot.Net.Server.Lifecycle.{
  Zmq, Proxy, Server, Turn, of_worker, of_proxy, proxy_work, terminate, all_finished, take_turn,
  take_turns, bound, join_proxy, join_all, stop,
}
use sabot.Net.Server.Lifecycle.Turns.{turns_of, AreCalm, AllCalm, take_turns-AfterTurns, four_turns}
use sabot.Net.Server.Lifecycle.Stuck.{SomeStuck, take_turns-SomeStuck, SomeStuck-all_finished}

-- A proxy that has ended stays so, and one that has not been told to terminate never ends.
ended_stays :
    {Z : Type 0} (schedule : List Turn) (s : Server Z)
    → s.proxy ≡ Proxy.ended
    → (take_turns schedule s).proxy ≡ Proxy.ended
unfolding take_turns take_turn proxy_work
ended_stays [] s e = e
ended_stays (of_worker i call ∷ ts) s e = ended_stays ts _ e
ended_stays (of_proxy ∷ ts) s e = ended_stays ts _ (rw e refl)

pub sockets_kept :
    {Z : Type 0} (schedule : List Turn) (s : Server Z) → (take_turns schedule s).sockets ≡ s.sockets
unfolding take_turns take_turn
sockets_kept [] s = refl
sockets_kept (of_worker i call ∷ ts) s = sockets_kept ts _
sockets_kept (of_proxy ∷ ts) s = sockets_kept ts _

pub running_kept :
    {Z : Type 0} (schedule : List Turn) (s : Server Z)
    → (take_turns schedule s).is_running ≡ s.is_running
unfolding take_turns take_turn
running_kept [] s = refl
running_kept (of_worker i call ∷ ts) s = running_kept ts _
running_kept (of_proxy ∷ ts) s = running_kept ts _

-- The proxy's thread is there and goes on.
abbrev Goes : Proxy → Type 0
Goes Proxy.absent = ⊥
Goes Proxy.starting = Unit {0}
Goes Proxy.steering = Unit {0}
Goes Proxy.ended = ⊥

proxy_work-Goes : (p : Proxy) → Goes p → Goes (proxy_work p)
unfolding proxy_work
proxy_work-Goes Proxy.absent h = h
proxy_work-Goes Proxy.starting h = tt
proxy_work-Goes Proxy.steering h = tt
proxy_work-Goes Proxy.ended h = h

take_turns-Goes :
    {Z : Type 0} (schedule : List Turn) (s : Server Z)
    → Goes s.proxy
    → Goes (take_turns schedule s).proxy
unfolding take_turns take_turn
take_turns-Goes [] s g = g
take_turns-Goes (of_worker i call ∷ ts) s g = take_turns-Goes ts _ g
take_turns-Goes (of_proxy ∷ ts) s g = take_turns-Goes ts _ (proxy_work-Goes s.proxy g)

if_true : {A : Type 0} {b : Bool} (x y : A) → b ≡ true → (if b then x else y) ≡ x
if_true x y e = rw e refl

module _ {Z : Type 0} (zmq : Zmq Z) where
  -- The state in which the joins of a stop begin.
  abbrev pub told : List Turn → Server Z → Z → Server Z
  told schedule s z =
      take_turns schedule (record s { sockets = z; proxy = terminate s.proxy; do_exit = true })

  pub stop-join_all :
      (schedule : List Turn) (s : Server Z) (z : Z)
      → s.is_running ≡ true
      → zmq.send_control s.sockets ≡ some z
      → stop zmq schedule s ≡ join_all zmq (told schedule s z)
  unfolding stop
  stop-join_all schedule s z running sent =
      if_true _ _ running ∙ ap (λ o. bound zmq o s (λ y. join_all zmq (told schedule s y))) sent

  join_all_returns :
      (s : Server Z) (z : Z)
      → all_finished s.workers ≡ true
      → zmq.disconnect_control s.sockets ≡ some z
      → s.proxy ≡ Proxy.ended
      → join_all zmq s ≡ (
        record {
          endpoint = s.endpoint;
          sockets = z;
          is_running = false;
          do_exit = false;
          workers = [];
          proxy = Proxy.absent;
        },
        returned tt,
      )
  unfolding join_all
  join_all_returns s z finished gone over = rw (finished, gone, over) refl

  join_all_spins :
      (s : Server Z) (z : Z)
      → zmq.disconnect_control s.sockets ≡ some z
      → Goes s.proxy
      → (join_all zmq s).1 ≡ spin
  unfolding join_all
  join_all_spins s z gone goes = elim (Bool-cases (all_finished s.workers)) [
    | inr e ↦ rw e refl
    | inl e ↦ rw (e, gone) (joined s.proxy goes)
  ]
    where
      joined :
          (p : Proxy)
          → Goes p
          → (join_proxy zmq (record s { workers = []; sockets = z; proxy = p })).1 ≡ spin
      joined Proxy.absent h = absurd h
      joined Proxy.starting h = refl
      joined Proxy.steering h = refl
      joined Proxy.ended h = absurd h

-- A server that runs, whose proxy has subscribed, and of which no worker is lost or at a message that
-- is not answered: stop returns, if each of the worker's threads has four turns while it waits, in
-- whatever order, every message that still arrives is answered, and ZeroMQ's calls return. All threads
-- are joined, and the server does not run.
pub stop_returns :
    {Z : Type 0} (zmq : Zmq Z) (schedule : List Turn) (s : Server Z) (z z1 : Z)
    → s.is_running ≡ true
    → s.proxy ≡ Proxy.steering
    → zmq.send_control s.sockets ≡ some z
    → zmq.disconnect_control z ≡ some z1
    → AllCalm s.workers
    → AreCalm schedule
    → ((i : ℕ) → i < length s.workers → 4 ≤ turns_of i schedule)
    → stop zmq schedule s ≡ (
      record {
        endpoint = s.endpoint;
        sockets = z1;
        is_running = false;
        do_exit = false;
        workers = [];
        proxy = Proxy.absent;
      },
      returned tt,
    )
stop_returns zmq schedule s z z1 running steering sent gone calm answered fair =
    let before = record s { sockets = z; proxy = terminate s.proxy; do_exit = true } in
    let a =
      take_turns-AfterTurns schedule before refl answered (four_turns _ s.workers calm fair) in
    let over : (take_turns schedule before).proxy ≡ Proxy.ended =
      ended_stays schedule before (unfold terminate in rw steering refl) in
    stop-join_all zmq schedule s z running sent
    ∙ join_all_returns zmq (take_turns schedule before) z1 a.finished
        (ap zmq.disconnect_control a.same_sockets ∙ gone) over
    ∙ rw a.same_endpoint refl

-- If stop is called before the proxy has subscribed to the control socket, its message is dropped, and
-- stop never returns, whatever turns the threads have.
pub stop_spins :
    {Z : Type 0} (zmq : Zmq Z) (schedule : List Turn) (s : Server Z) (z z1 : Z)
    → s.is_running ≡ true
    → s.proxy ≡ Proxy.starting
    → zmq.send_control s.sockets ≡ some z
    → zmq.disconnect_control z ≡ some z1
    → (stop zmq schedule s).1 ≡ spin
stop_spins zmq schedule s z z1 running starting sent gone =
    let before = record s { sockets = z; proxy = terminate s.proxy; do_exit = true } in
    let goes : Goes before.proxy = unfold terminate in rw starting tt in
    ap (λ r. r.1) (stop-join_all zmq schedule s z running sent)
    ∙ join_all_spins zmq (take_turns schedule before) z1
        (ap zmq.disconnect_control (sockets_kept schedule before) ∙ gone)
        (take_turns-Goes schedule before goes)

-- If a worker of a server that runs is lost, or at a message whose answer leaves the thread by an
-- exception, goes outside what C++ defines or never returns, then stop never returns, whatever turns the
-- threads have.
pub stop_waits :
    {Z : Type 0} (zmq : Zmq Z) (schedule : List Turn) (s : Server Z) (z : Z)
    → s.is_running ≡ true
    → zmq.send_control s.sockets ≡ some z
    → SomeStuck s.workers
    → (stop zmq schedule s).1 ≡ spin
unfolding join_all
stop_waits zmq schedule s z running sent stuck =
    let before = record s { sockets = z; proxy = terminate s.proxy; do_exit = true } in
    let never = SomeStuck-all_finished _ (take_turns-SomeStuck schedule before stuck) in
    ap (λ r. r.1) (stop-join_all zmq schedule s z running sent) ∙ rw never refl
