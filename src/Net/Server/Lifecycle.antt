-- ===== src/Net/Server/Lifecycle.antt =====
-- The life of a server, net/server.cpp: listen and stop, and the threads that they start and join. What
-- ZeroMQ does is a parameter, `Z` being the states of the sockets; `none` is a zmq::error_t. The threads
-- run in turns, in an order that is given as a list. A thread that is joined and never ends makes the
-- call `spin`, and so does one that was lost: its exception has ended the process.
pub mod Turns
pub mod Stuck
pub mod Stop
pub mod Unanswered
pub mod Restart
use sabot.Prelude.{
  ℕ, zero, suc, ◌+◌, ltb, leb, ◌==◌, ◌&&◌, not, Bool, true, false, if◌then◌else◌, Option, none,
  some, List, [], ◌∷◌, length, replicate,
}
use sabot.Outcome.{Outcome, Exception, returned, threw, fault, spin}
use sabot.Actions.Process.{Reply, answered, failed, escaped, crashed, spins}

abbrev pub max_threads : ℕ
max_threads = 16

abbrev pub max_length_endpoint : ℕ
max_length_endpoint = 128

pub record Zmq (Z : Type 0) : Type 0 where
  pub bind_clients : List ℕ → Z → Option Z
  pub bind_workers : Z → Option Z
  pub bind_control : Z → Option Z
  pub send_control : Z → Option Z
  pub disconnect_control : Z → Option Z

-- How the ZeroMQ call ends at which a worker's thread stands: connect, disconnect or recv. recv gives
-- nothing before it times out, or a message, here with how answering it and sending the reply will end.
abbrev pub ZmqCall : Type 0
ZmqCall = Outcome (Option (Outcome (Unit {0})))

-- Where a worker's thread stands in `work`: before it has connected, at the test of doExit, in recv, at
-- a message, past the loop, or at its end. A thread is lost if it was left by an exception, which ends
-- the process, or went outside what C++ defines.
pub data Worker : Type 0 where
  starting testing receiving : Worker
  working : Outcome (Unit {0}) → Worker
  leaving finished lost : Worker

-- Where the proxy's thread stands: there is none, it has not subscribed to the control socket yet, it is
-- in proxy_steerable, or it is past that.
pub data Proxy : Type 0 where
  absent starting steering ended : Proxy

pub record Server (Z : Type 0) : Type 0 where
  pub endpoint : List ℕ
  pub sockets : Z
  pub is_running : Bool
  pub do_exit : Bool
  pub workers : List Worker
  pub proxy : Proxy

-- A turn of a worker, or of the proxy.
pub data Turn : Type 0 where
  of_worker : ℕ → ZmqCall → Turn
  of_proxy : Turn

-- How a message ends for the thread, by what the message is answered.
unfoldable pub answer_end : Reply → Outcome (Unit {0})
answer_end (answered r) = returned tt
answer_end (failed what) = threw Exception.runtime_error
answer_end (escaped e) = threw e
answer_end crashed = fault
answer_end spins = spin

-- Where the thread stands after connect or disconnect.
abbrev pub after_call : ZmqCall → Worker → Worker → Worker
after_call (returned _) here next = next
after_call (threw e) here next = Worker.lost
after_call fault here next = Worker.lost
after_call spin here next = here

abbrev pub after_recv : ZmqCall → Worker
after_recv (returned none) = Worker.testing
after_recv (returned (some o)) = Worker.working o
after_recv (threw e) = Worker.lost
after_recv fault = Worker.lost
after_recv spin = Worker.receiving

-- The message is answered. An exception that route_request does not catch leaves the thread.
abbrev pub after_answer : Outcome (Unit {0}) → Worker
after_answer (returned _) = Worker.testing
after_answer (threw e) = Worker.lost
after_answer fault = Worker.lost
after_answer spin = Worker.working spin

-- The next step of `work`.
unfoldable pub work : Bool → ZmqCall → Worker → Worker
work do_exit call Worker.starting = after_call call Worker.starting Worker.testing
work do_exit call Worker.testing = if do_exit then Worker.leaving else Worker.receiving
work do_exit call Worker.receiving = after_recv call
work do_exit call (Worker.working o) = after_answer o
work do_exit call Worker.leaving = after_call call Worker.leaving Worker.finished
work do_exit call Worker.finished = Worker.finished
work do_exit call Worker.lost = Worker.lost

-- A step of thread i.
unfoldable pub work_at : Bool → ZmqCall → ℕ → List Worker → List Worker
work_at do_exit call i [] = []
work_at do_exit call zero (w ∷ ws) = work do_exit call w ∷ ws
work_at do_exit call (suc i) (w ∷ ws) = w ∷ work_at do_exit call i ws

-- The proxy subscribes; it stays in proxy_steerable until it is told to terminate.
unfoldable pub proxy_work : Proxy → Proxy
proxy_work Proxy.starting = Proxy.steering
proxy_work Proxy.absent = Proxy.absent
proxy_work Proxy.steering = Proxy.steering
proxy_work Proxy.ended = Proxy.ended

-- "TERMINATE" reaches a subscriber; without one the publisher drops it.
unfoldable pub terminate : Proxy → Proxy
terminate Proxy.steering = Proxy.ended
terminate Proxy.starting = Proxy.starting
terminate Proxy.absent = Proxy.absent
terminate Proxy.ended = Proxy.ended

unfoldable pub all_finished : List Worker → Bool
all_finished [] = true
all_finished (Worker.finished ∷ ws) = all_finished ws
all_finished (Worker.starting ∷ ws) = false
all_finished (Worker.testing ∷ ws) = false
all_finished (Worker.receiving ∷ ws) = false
all_finished (Worker.working o ∷ ws) = false
all_finished (Worker.leaving ∷ ws) = false
all_finished (Worker.lost ∷ ws) = false

module _ {Z : Type 0} where
  -- The constructor. It copies the endpoint without its terminator, whatever its length.
  unfoldable pub make_server : Z → List ℕ → Outcome (Server Z)
  make_server sockets endpoint =
      if leb (length endpoint) max_length_endpoint
      then returned (record {
        endpoint = endpoint;
        sockets = sockets;
        is_running = false;
        do_exit = false;
        workers = [];
        proxy = Proxy.absent;
      })
      else fault

  unfoldable pub take_turn : Turn → Server Z → Server Z
  take_turn (of_worker i call) s = record s { workers = work_at s.do_exit call i s.workers }
  take_turn of_proxy s = record s { proxy = proxy_work s.proxy }

  unfoldable pub take_turns : List Turn → Server Z → Server Z
  take_turns [] s = s
  take_turns (t ∷ ts) s = take_turns ts (take_turn t s)

module _ {Z : Type 0} (zmq : Zmq Z) where
  abbrev pub bound :
      Option Z → Server Z → (Z → Server Z × Outcome (Unit {0})) → Server Z × Outcome (Unit {0})
  bound none s next = (s, threw Exception.plain_exception)
  bound (some z) s next = next z

  -- The three sockets are bound, one after the other, and the threads started.
  unfoldable pub listen : ℕ → Server Z → Server Z × Outcome (Unit {0})
  listen worker_count s =
      if ltb max_threads worker_count
      then (s, threw Exception.runtime_error)
      else if s.is_running
      then (s, returned tt)
      else bound (zmq.bind_clients s.endpoint s.sockets) (record s { is_running = true })
          λ z1.
            bound (zmq.bind_workers z1) (record s { is_running = true; sockets = z1 })
              λ z2.
                bound (zmq.bind_control z2) (record s { is_running = true; sockets = z2 })
                  λ z3. (
                    record s {
                      is_running = true;
                      sockets = z3;
                      workers = replicate worker_count Worker.starting;
                      proxy = Proxy.starting;
                    },
                    returned tt,
                  )

  -- proxyThread.join(), which throws a system_error if there is no thread.
  abbrev pub join_proxy : Server Z → Server Z × Outcome (Unit {0})
  join_proxy s = of_proxy_thread s.proxy
    where
      of_proxy_thread : Proxy → Server Z × Outcome (Unit {0})
      of_proxy_thread Proxy.absent = (s, threw Exception.runtime_error)
      of_proxy_thread Proxy.starting = (s, spin)
      of_proxy_thread Proxy.steering = (s, spin)
      of_proxy_thread Proxy.ended =
          (record s { proxy = Proxy.absent; do_exit = false; is_running = false }, returned tt)

  -- The joins of the worker threads, and what follows them.
  unfoldable pub join_all : Server Z → Server Z × Outcome (Unit {0})
  join_all s =
      let after =
        bound (zmq.disconnect_control s.sockets) (record s { workers = [] })
          (λ z. join_proxy (record s { workers = []; sockets = z })) in
      if all_finished s.workers then after else (s, spin)

  -- The threads have the turns `schedule` while stop waits to join them.
  unfoldable pub stop : List Turn → Server Z → Server Z × Outcome (Unit {0})
  stop schedule s =
      let stopped = bound (zmq.send_control s.sockets) s (λ z. join_all (
        take_turns schedule
          (record s { sockets = z; proxy = terminate s.proxy; do_exit = true }))) in
      if s.is_running then stopped else (s, returned tt)
