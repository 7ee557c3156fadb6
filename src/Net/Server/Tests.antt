-- ===== src/Net/Server/Tests.antt =====
-- The theorems on the server at concrete messages and schedules.
use sabot.Prelude.{
  ℕ, ◌≤◌, ◌<◌, ◌≡◌, ◌≢◌, refl, arith, Bool, true, false, if◌then◌else◌, none, some, List, [], ◌∷◌,
}
use sabot.Outcome.{Exception, returned, threw, spin}
use sabot.Net.Server.Lifecycle.{
  Zmq, ZmqCall, Worker, Proxy, Server, Turn, of_worker, of_proxy, work, work_at, proxy_work,
  terminate, take_turn, take_turns, all_finished, join_all, listen, stop,
}
use sabot.Net.Server.Lifecycle.Turns.{turns_of, AreCalm}
use sabot.Net.Server.Lifecycle.Stop.{stop_returns, stop_spins}
use sabot.Net.Server.Lifecycle.Restart.{HoldsName, restart_throws}

-- Sockets of which it is known whether the workers' is bound.
abbrev zmq : Zmq Bool
zmq = record {
  bind_clients = λ e z. some z;
  bind_workers = λ z. if z then none else some true;
  bind_control = λ z. some z;
  send_control = λ z. some z;
  disconnect_control = λ z. some z;
}

abbrev server : Server Bool
server = record {
  endpoint = b't' ∷ [];
  sockets = true;
  is_running = true;
  do_exit = false;
  workers = Worker.receiving ∷ Worker.testing ∷ [];
  proxy = Proxy.steering;
}

abbrev goes_on : ZmqCall
goes_on = returned none

-- A message still arrives.
abbrev turns : List Turn
turns =
    of_worker 1 goes_on
    ∷ of_worker 0 (returned (some (returned tt)))
    ∷ of_proxy
    ∷ of_worker 0 goes_on
    ∷ of_worker 1 goes_on
    ∷ of_worker 0 goes_on
    ∷ of_worker 1 goes_on
    ∷ of_worker 0 goes_on
    ∷ of_worker 1 goes_on
    ∷ []

turns-AreCalm : AreCalm turns
turns-AreCalm = (tt, (refl, (tt, (tt, (tt, (tt, (tt, (tt, tt))))))))

turns_enough : (i : ℕ) → i < 2 → 4 ≤ turns_of i turns
unfolding turns_of
turns_enough i h = ground arith

stop_returns_example : stop zmq turns server ≡ (
  record {
    endpoint = server.endpoint;
    sockets = true;
    is_running = false;
    do_exit = false;
    workers = [];
    proxy = Proxy.absent;
  },
  returned tt,
)
stop_returns_example =
    stop_returns zmq turns server true true refl refl refl refl (tt, (tt, tt)) turns-AreCalm
      turns_enough

stop_spins_example : (stop zmq turns (record server { proxy = Proxy.starting })).1 ≡ spin
stop_spins_example =
    stop_spins zmq turns (record server { proxy = Proxy.starting }) true true refl refl refl refl

zmq-HoldsName : HoldsName zmq (λ z. z ≡ true)
zmq-HoldsName = record {
  binds = λ z z' h. ground arith;
  kept_clients = λ e z z' b h. ground arith;
  kept_control = λ z z' b h. ground arith;
  kept_send = λ z z' b h. ground arith;
  kept_disconnect = λ z z' b h. ground arith;
  unique = λ z b. rw b refl;
}

abbrev fresh_server : Server Bool
fresh_server = record {
  endpoint = b't' ∷ [];
  sockets = false;
  is_running = false;
  do_exit = false;
  workers = [];
  proxy = Proxy.absent;
}

abbrev started : Server Bool
started = record {
  endpoint = b't' ∷ [];
  sockets = true;
  is_running = true;
  do_exit = false;
  workers = Worker.starting ∷ [];
  proxy = Proxy.starting;
}

abbrev stopped : Server Bool
stopped = record {
  endpoint = b't' ∷ [];
  sockets = true;
  is_running = false;
  do_exit = false;
  workers = [];
  proxy = Proxy.absent;
}

listened : listen zmq 1 fresh_server ≡ (started, returned tt)
unfolding listen
listened = refl

-- The thread connects, finds doExit set and disconnects.
abbrev last_turns : List Turn
last_turns = of_worker 0 goes_on ∷ of_worker 0 goes_on ∷ of_worker 0 goes_on ∷ []

ended : stop zmq last_turns (take_turns (of_proxy ∷ []) started) ≡ (stopped, returned tt)
unfolding stop join_all take_turns take_turn proxy_work terminate work_at work all_finished
ended = refl

restart_throws_example :
    (stopped.is_running ≡ false)
    × ((listen zmq 2 stopped).1 ≡ threw Exception.plain_exception)
    × ((listen zmq 2 stopped).0.is_running ≡ true)
    × ((stop zmq [] (listen zmq 2 stopped).0).1 ≢ returned tt)
restart_throws_example =
    restart_throws zmq (λ z. z ≡ true) zmq-HoldsName fresh_server started stopped 1 2
      (of_proxy ∷ []) last_turns [] refl listened ended (omega arith)
