-- ===== src/Net/Server/Lifecycle/Restart.antt =====
-- A server of net/server.cpp that has been stopped cannot listen again: the sockets stay bound.
use mathlib.Core.Path.{subst}
use sabot.Prelude.{
  ℕ, ◌≤◌, ◌≡◌, ◌≢◌, ◌⊎◌, refl, sym, ap, ◌∙◌, arith, ltb, Bool, true, false, Bool-cases, inl, inr,
  if◌then◌else◌, Option, none, some, List, [], ◌∷◌,
}
use sabot.Outcome.{Exception, returned, threw}
use sabot.Net.Server.Lifecycle.{
  Zmq, Proxy, Server, Turn, of_worker, of_proxy, max_threads, take_turn, take_turns, proxy_work,
  terminate, all_finished, join_proxy, join_all, listen, stop,
}
use sabot.Net.Server.Lifecycle.Stop.{told, sockets_kept, running_kept, stop-join_all}

-- What ZeroMQ documents of the workers' socket, whose endpoint is of the kind inproc: once it is bound it
-- stays so, whatever becomes of the other sockets, and the name of an inproc endpoint must be unique in
-- the context, so that one that is in use is not bound again. Nothing is asked of the clients' endpoint.
pub record HoldsName {Z : Type 0} (zmq : Zmq Z) (IsBound : Z → Type 0) : Type 0 where
  pub binds : (z z' : Z) → zmq.bind_workers z ≡ some z' → IsBound z'
  pub kept_clients :
      (e : List ℕ) (z z' : Z) → IsBound z → zmq.bind_clients e z ≡ some z' → IsBound z'
  pub kept_control : (z z' : Z) → IsBound z → zmq.bind_control z ≡ some z' → IsBound z'
  pub kept_send : (z z' : Z) → IsBound z → zmq.send_control z ≡ some z' → IsBound z'
  pub kept_disconnect : (z z' : Z) → IsBound z → zmq.disconnect_control z ≡ some z' → IsBound z'
  pub unique : (z : Z) → IsBound z → zmq.bind_workers z ≡ none

Option-cases : {A : Type 0} (o : Option A) → (o ≡ none) ⊎ ((a : A) × (o ≡ some a))
Option-cases none = inl refl
Option-cases (some a) = inr (a, refl)

if_false : {A : Type 0} {b : Bool} (x y : A) → b ≡ false → (if b then x else y) ≡ y
if_false x y e = rw e refl

module _ {Z : Type 0} (zmq : Zmq Z) (IsBound : Z → Type 0) (law : HoldsName zmq IsBound) where
  -- A server that listens.
  record Listens (s : Server Z) : Type 0 where
    running : s.is_running ≡ true
    is_bound : IsBound s.sockets

  listen-Listens :
      (count : ℕ) (s s' : Server Z)
      → s.is_running ≡ false
      → listen zmq count s ≡ (s', returned tt)
      → Listens s'
  unfolding listen
  listen-Listens count s s' idle e = elim (Bool-cases (ltb max_threads count)) [
    | inl many ↦ cc (rw many at e)
    | inr few ↦ elim (Option-cases (zmq.bind_clients s.endpoint s.sockets)) [
      | inl e1 ↦ cc (rw (few, idle, e1) at e)
      | inr (z1, e1) ↦ elim (Option-cases (zmq.bind_workers z1)) [
        | inl e2 ↦ cc (rw (few, idle, e1, e2) at e)
        | inr (z2, e2) ↦ elim (Option-cases (zmq.bind_control z2)) [
          | inl e3 ↦ cc (rw (few, idle, e1, e2, e3) at e)
          | inr (z3, e3) ↦
              let same = ap (λ r. r.0) (rw (few, idle, e1, e2, e3) at e) in
              let kept = law.kept_control z2 z3 (law.binds z1 z2 e2) e3 in
              record {
                running = sym (ap (λ (r : Server Z). r.is_running) same);
                is_bound = subst IsBound (ap (λ (r : Server Z). r.sockets) same) kept;
              }
        ]
      ]
    ]
  ]

  -- A server that was stopped: the endpoint is still held, and no thread is left.
  record Stopped (s : Server Z) : Type 0 where
    idle : s.is_running ≡ false
    still_bound : IsBound s.sockets
    no_proxy : s.proxy ≡ Proxy.absent
    no_workers : s.workers ≡ []

  joined-Stopped :
      (p : Proxy) (s s' : Server Z)
      → IsBound s.sockets
      → s.workers ≡ []
      → join_proxy zmq (record s { proxy = p }) ≡ (s', returned tt)
      → Stopped s'
  joined-Stopped Proxy.absent s s' held none_left e = cc
  joined-Stopped Proxy.starting s s' held none_left e = cc
  joined-Stopped Proxy.steering s s' held none_left e = cc
  joined-Stopped Proxy.ended s s' held none_left e =
      let same = ap (λ r. r.0) e in
      record {
        idle = sym (ap (λ (r : Server Z). r.is_running) same);
        still_bound = subst IsBound (ap (λ (r : Server Z). r.sockets) same) held;
        no_proxy = sym (ap (λ (r : Server Z). r.proxy) same);
        no_workers = sym (ap (λ (r : Server Z). r.workers) same) ∙ none_left;
      }

  join_all-Stopped :
      (s s' : Server Z) → IsBound s.sockets → join_all zmq s ≡ (s', returned tt) → Stopped s'
  unfolding join_all
  join_all-Stopped s s' held e = elim (Bool-cases (all_finished s.workers)) [
    | inr f ↦ cc (rw f at e)
    | inl f ↦ elim (Option-cases (zmq.disconnect_control s.sockets)) [
      | inl g ↦ cc (rw (f, g) at e)
      | inr (z, g) ↦
          joined-Stopped s.proxy (record s { workers = []; sockets = z }) s'
            (law.kept_disconnect s.sockets z held g) refl (rw (f, g) at e)
    ]
  ]

  stop-Stopped :
      (schedule : List Turn) (s s' : Server Z)
      → Listens s
      → stop zmq schedule s ≡ (s', returned tt)
      → Stopped s'
  unfolding stop
  stop-Stopped schedule s s' h e = elim (Option-cases (zmq.send_control s.sockets)) [
    | inl f ↦ cc (rw (h.running, f) at e)
    | inr (z, f) ↦
        join_all-Stopped (told zmq schedule s z) s'
          (subst IsBound (sym (sockets_kept schedule _)) (law.kept_send s.sockets z h.is_bound f))
          (sym (stop-join_all zmq schedule s z h.running f) ∙ e)
  ]

  listen_again :
      (count : ℕ) (s : Server Z)
      → count ≤ max_threads
      → Stopped s
      → (z : Z) × (listen zmq count s
          ≡ (record s { is_running = true; sockets = z }, threw Exception.plain_exception))
  unfolding listen
  listen_again count s few h =
      let allowed : ltb max_threads count ≡ false = ground arith in
      let starts = if_false _ _ allowed ∙ if_false _ _ h.idle in
      elim (Option-cases (zmq.bind_clients s.endpoint s.sockets)) [
        | inl e ↦ (s.sockets, starts ∙ rw e refl)
        | inr (z, e) ↦
            (z, starts ∙ rw (e, law.unique z (law.kept_clients _ _ _ h.still_bound e)) refl)
      ]

  absent_stays :
      (schedule : List Turn) (s : Server Z)
      → s.proxy ≡ Proxy.absent
      → (take_turns schedule s).proxy ≡ Proxy.absent
  unfolding take_turns take_turn proxy_work
  absent_stays [] s e = e
  absent_stays (of_worker i call ∷ ts) s e = absent_stays ts _ e
  absent_stays (of_proxy ∷ ts) s e = absent_stays ts _ (rw e refl)

  join_all-ne-returned : (s : Server Z) → s.proxy ≡ Proxy.absent → (join_all zmq s).1 ≢ returned tt
  unfolding join_all
  join_all-ne-returned s none_there e = elim (Bool-cases (all_finished s.workers)) [
    | inr f ↦ cc (rw f at e)
    | inl f ↦ elim (Option-cases (zmq.disconnect_control s.sockets)) [
      | inl g ↦ cc (rw (f, g) at e)
      | inr (z, g) ↦ cc (rw (f, g, none_there) at e)
    ]
  ]

  stop-ne-returned :
      (schedule : List Turn) (s : Server Z)
      → s.is_running ≡ true
      → s.proxy ≡ Proxy.absent
      → (stop zmq schedule s).1 ≢ returned tt
  unfolding stop
  stop-ne-returned schedule s running none_there e =
      elim (Option-cases (zmq.send_control s.sockets)) [
        | inl f ↦ cc (rw (running, f) at e)
        | inr (z, f) ↦
            join_all-ne-returned (told zmq schedule s z)
              (absent_stays schedule _ (unfold terminate in rw none_there refl))
              (sym (ap (λ r. r.1) (stop-join_all zmq schedule s z running f)) ∙ e)
      ]

  -- A server that listened and was stopped, whatever turns its threads had: it does not run, and a second
  -- listen, with as many workers as are allowed, throws what ZeroMQ throws for a name in use, be it of the
  -- clients' endpoint or of the workers', but leaves the flag of a server that runs. After that stop never
  -- returns normally.
  pub restart_throws :
      (s s1 s2 : Server Z) (count again : ℕ) (before during after : List Turn)
      → s.is_running ≡ false
      → listen zmq count s ≡ (s1, returned tt)
      → stop zmq during (take_turns before s1) ≡ (s2, returned tt)
      → again ≤ max_threads
      → (s2.is_running ≡ false)
        × ((listen zmq again s2).1 ≡ threw Exception.plain_exception)
        × ((listen zmq again s2).0.is_running ≡ true)
        × ((stop zmq after (listen zmq again s2).0).1 ≢ returned tt)
  restart_throws s s1 s2 count again before during after idle first ended few =
      let l = listen-Listens count s s1 idle first in
      let later : Listens (take_turns before s1) = record {
        running = running_kept before s1 ∙ l.running;
        is_bound = subst IsBound (sym (sockets_kept before s1)) l.is_bound;
      } in
      let h = stop-Stopped during (take_turns before s1) s2 later ended in
      let (z, thrown) = listen_again again s2 few h in
      (
        h.idle,
        ap (λ r. r.1) thrown,
        ap (λ r. r.0.is_running) thrown,
        rw thrown
            (stop-ne-returned after (record s2 { is_running = true; sockets = z }) refl h.no_proxy),
      )
