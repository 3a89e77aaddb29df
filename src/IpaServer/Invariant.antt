-- ===== src/IpaServer/Invariant.antt =====
-- The two tables of the server.
use gsup_map_proxy.Base.{
  ℕ, ◌+◌, ◌%◌, ◌^◌, ◌<◌, ◌≡◌, subst, List, [], ◌∷◌, some, ◌==◌, if◌then◌else◌, nat_eq, ok, arith,
  Option-cases, Result-cases, inl, inr, ==_iff,
}
use gsup_map_proxy.Assoc.{
  find, erase, assign, find-assign, find-erase, Distinct, assign-Distinct, erase-Distinct,
}
use gsup_map_proxy.IpaSession
use gsup_map_proxy.IpaSession.{
  IpaSession, Step, queued, write_started, read_started, socket_closed, completed, broken, on_ready,
  on_disconnect, on_gsup, new_session,
}
use gsup_map_proxy.IpaServer.{
  IpaServer, Output, new_server, on_session_ready, on_session_disconnect, dispatch, after, accept,
  Handler, run_handler, handle, stop,
}

-- The active sessions are among all sessions, with the same object; each object of the tables
-- stands under the ID that it was made for, no ID is 0, and all are below the next one. No key
-- stands twice.
pub record IsValid (s : IpaServer) : Type 0 where
  pub active_known : (k p : ℕ) → find k s.sessions ≡ some p → find k s.all_sessions ≡ some p
  pub own_id : (k p : ℕ) → find k s.all_sessions ≡ some p → p ≡ k
  pub below : (k p : ℕ) → find k s.all_sessions ≡ some p → k < s.next_client_id
  pub positive : (k p : ℕ) → find k s.all_sessions ≡ some p → 0 < k
  pub starts : 0 < s.next_client_id
  pub distinct : Distinct s.sessions
  pub all_distinct : Distinct s.all_sessions

new_server-IsValid : IsValid new_server
unfolding new_server find
new_server-IsValid = record {
  active_known = λ k p e. cc e;
  own_id = λ k p e. cc e;
  below = λ k p e. cc e;
  positive = λ k p e. cc e;
  starts = omega arith;
  distinct = tt;
  all_distinct = tt;
}

-- The heap is no part of it.
heap-IsValid :
    (s : IpaServer) (heap : List (ℕ × IpaSession)) → IsValid s → IsValid (record s { heap = heap })
heap-IsValid s heap v = record {
  active_known = v.active_known;
  own_id = v.own_id;
  below = v.below;
  positive = v.positive;
  starts = v.starts;
  distinct = v.distinct;
  all_distinct = v.all_distinct;
}

on_session_ready-IsValid : (id : ℕ) (s : IpaServer) → IsValid s → IsValid (on_session_ready id s)
unfolding on_session_ready
on_session_ready-IsValid id s v = elim (Option-cases (find id s.all_sessions)) [
  | inl none_there ↦ rw (none_there, on_session_ready) v
  | inr (session, there) ↦
      rw (there, on_session_ready)
        (record {
          active_known = λ k p e. ground (
            arith,
            find-assign k id session s.sessions,
            v.active_known k p,
            e,
            there,
            ==_iff id k,
          );
          own_id = v.own_id;
          below = v.below;
          positive = v.positive;
          starts = v.starts;
          distinct = assign-Distinct id session s.sessions v.distinct;
          all_distinct = v.all_distinct;
        })
]

on_session_disconnect-IsValid :
    (id : ℕ) (s : IpaServer) → IsValid s → IsValid (on_session_disconnect id s)
unfolding on_session_disconnect
on_session_disconnect-IsValid id s v = record {
  active_known = λ k p e.
      ground
        (arith, find-erase k id s.sessions, find-erase k id s.all_sessions, v.active_known k p, e);
  own_id = λ k p e. v.own_id k p (erased k p e);
  below = λ k p e. v.below k p (erased k p e);
  positive = λ k p e. v.positive k p (erased k p e);
  starts = v.starts;
  distinct = erase-Distinct id s.sessions v.distinct;
  all_distinct = erase-Distinct id s.all_sessions v.all_distinct;
}
  where
    erased : (k p : ℕ) → find k (erase id s.all_sessions) ≡ some p → find k s.all_sessions ≡ some p
    erased k p e = ground (arith, find-erase k id s.all_sessions, e)

dispatch-IsValid :
    (id : ℕ) (out : List IpaSession.Output) (s : IpaServer)
    → IsValid s
    → IsValid (dispatch id out s).1
unfolding dispatch
dispatch-IsValid id [] s v = v
dispatch-IsValid id (on_ready ∷ out) s v =
    dispatch-IsValid id out (on_session_ready id s) (on_session_ready-IsValid id s v)
dispatch-IsValid id (on_disconnect ∷ out) s v =
    dispatch-IsValid id out (on_session_disconnect id s) (on_session_disconnect-IsValid id s v)
dispatch-IsValid id (on_gsup payload ∷ out) s v = dispatch-IsValid id out s v
dispatch-IsValid id (queued f ∷ out) s v = dispatch-IsValid id out s v
dispatch-IsValid id (write_started f ∷ out) s v = dispatch-IsValid id out s v
dispatch-IsValid id (read_started ∷ out) s v = dispatch-IsValid id out s v
dispatch-IsValid id (socket_closed ∷ out) s v = dispatch-IsValid id out s v
dispatch-IsValid id (completed f ∷ out) s v = dispatch-IsValid id out s v
dispatch-IsValid id (broken f ∷ out) s v = dispatch-IsValid id out s v

after-IsValid : (id : ℕ) (step : Step) (s : IpaServer) → IsValid s → IsValid (after id step s).1
unfolding after
after-IsValid id step s v = dispatch-IsValid id step.0 _ (heap-IsValid s _ v)

run_handler-IsValid :
    (id : ℕ) (handler : Handler) (s : IpaServer) → IsValid s → IsValid (run_handler id handler s).1
unfolding run_handler
run_handler-IsValid id handler s v = elim (Option-cases (find id s.heap)) [
  | inl gone ↦ rw (gone, run_handler) v
  | inr (session, there) ↦ rw (there, run_handler) (after-IsValid id (handle handler session) s v)
]

-- The tables with a new session.
abbrev with_session : IpaServer → IpaServer
with_session s = record s {
  heap = assign s.next_client_id new_session s.heap;
  all_sessions = assign s.next_client_id s.next_client_id s.all_sessions;
  next_client_id = (s.next_client_id + 1) % 2 ^ 64;
}

with_session-IsValid :
    (s : IpaServer) → s.next_client_id + 1 < 2 ^ 64 → IsValid s → IsValid (with_session s)
with_session-IsValid s room v = record {
  active_known = λ k p e.
      ground (arith, new_entry k, v.active_known k p e, v.below k p, ==_iff s.next_client_id k);
  own_id = λ k p e. ground (arith, new_entry k, v.own_id k p, ==_iff s.next_client_id k, e);
  below = λ k p e. ground (arith, new_entry k, v.below k p, ==_iff s.next_client_id k, e, room);
  positive =
      λ k p e. ground (arith, new_entry k, v.positive k p, ==_iff s.next_client_id k, e, v.starts);
  starts = omega (arith, v.starts);
  distinct = v.distinct;
  all_distinct = assign-Distinct s.next_client_id s.next_client_id s.all_sessions v.all_distinct;
}
  where
    new_entry :
        (k : ℕ)
        → find k (assign s.next_client_id s.next_client_id s.all_sessions)
          ≡ (if s.next_client_id == k then some s.next_client_id else find k s.all_sessions)
    new_entry k = find-assign k s.next_client_id s.next_client_id s.all_sessions

accept-IsValid :
    (s : IpaServer) {out : List Output} {s' : IpaServer}
    → s.next_client_id + 1 < 2 ^ 64
    → IsValid s
    → accept s ≡ ok (out, s')
    → IsValid s'
unfolding accept
accept-IsValid s {s' = s'} room v e = elim (Result-cases (IpaSession.start new_session)) [
  | inl (step, begun) ↦
      let done =
        after-IsValid s.next_client_id step (with_session s) (with_session-IsValid s room v) in
      let same : (after s.next_client_id step (with_session s)).1 ≡ s' = cc (rw begun at e) in
      subst IsValid same done
  | inr (inl (x, failed)) ↦ cc (e, failed)
  | inr (inr failed) ↦ cc (e, failed)
]

stop-IsValid : (s : IpaServer) → IsValid s → IsValid (stop s)
unfolding stop find
stop-IsValid s v = record {
  active_known = λ k p e. cc e;
  own_id = λ k p e. cc e;
  below = λ k p e. cc e;
  positive = λ k p e. cc e;
  starts = v.starts;
  distinct = tt;
  all_distinct = tt;
}

-- The server after a history of accepted connections, handlers of its sessions, and stops, with
-- fewer than 2^64 connections in all.
pub data History : IpaServer → Type 0 where
  begun : History new_server
  accepted :
      {s s' : IpaServer} {out : List Output}
      → History s
      → s.next_client_id + 1 < 2 ^ 64
      → accept s ≡ ok (out, s')
      → History s'
  handled :
      {s : IpaServer} (id : ℕ) (handler : Handler)
      → History s
      → History (run_handler id handler s).1
  stopped : {s : IpaServer} → History s → History (stop s)

-- After every history of fewer than 2^64 - 1 connections, whatever the sessions receive and
-- whichever fail: an active session is among all sessions, with the same object; each object stands
-- under the ID that it was made for; the IDs are positive, so that none stands for a broadcast, and
-- below the next one, so that none is given twice; and no ID stands twice in a table.
pub History-IsValid : {s : IpaServer} → History s → IsValid s
History-IsValid begun = new_server-IsValid
History-IsValid (accepted {s} h room e) = accept-IsValid s room (History-IsValid h) e
History-IsValid (handled {s} id handler h) = run_handler-IsValid id handler s (History-IsValid h)
History-IsValid (stopped {s} h) = stop-IsValid s (History-IsValid h)
