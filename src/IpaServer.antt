-- ===== src/IpaServer.antt =====
-- transport/IpaServer.cpp: the sessions of the SGSNs. A `std::shared_ptr<IpaSession>` is a number
-- of `heap`, so that both tables share their sessions, and a session that the tables have dropped
-- lives on.
pub mod Invariant
pub mod Send
use gsup_map_proxy.Base.{
  ℕ, suc, ◌+◌, ◌%◌, ◌^◌, Bool, true, false, List, [], ◌∷◌, ◌++◌, Option, none, some, ◌==◌,
  if◌then◌else◌, nat_eq, Result, ok, err, stuck, ◌>>=◌, map_ok,
}
use gsup_map_proxy.Buffer.{Bytes}
use gsup_map_proxy.Assoc.{find, erase, assign}
use gsup_map_proxy.IpaSession.{
  IpaSession, Step, queued, write_started, read_started, socket_closed, on_ready, on_disconnect,
  on_gsup, is_ready, new_session, enqueue, write_done, write_failed, read_done, read_failed,
  send_gsup,
}
use gsup_map_proxy.IpaSession

pub record IpaServer : Type 0 where
  pub heap : List (ℕ × IpaSession)
  pub sessions : List (ℕ × ℕ)
  pub all_sessions : List (ℕ × ℕ)
  pub next_client_id : ℕ

-- What the server does to the outside: `to_proxy` is the message callback, with the client's ID,
-- and `posted` a task that puts a frame into the write queue of a session.
pub data Output : Type 0 where
  to_proxy : Bytes → ℕ → Output
  posted : ℕ → Bytes → Output

abbrev pub ServerStep : Type 0
ServerStep = List Output × IpaServer

unfoldable pub new_server : IpaServer
new_server = record { heap = []; sessions = []; all_sessions = []; next_client_id = 1 }

unfoldable pub on_session_ready : ℕ → IpaServer → IpaServer
on_session_ready id s = elim (find id s.all_sessions) [
  | none ↦ s
  | some session ↦ record s { sessions = assign id session s.sessions }
]

unfoldable pub on_session_disconnect : ℕ → IpaServer → IpaServer
on_session_disconnect id s = record s {
  sessions = erase id s.sessions;
  all_sessions = erase id s.all_sessions;
}

-- The callbacks that a session's handler called, in their order. The session does not look at the
-- tables, so that they may run after it.
unfoldable pub dispatch : ℕ → List IpaSession.Output → IpaServer → ServerStep
dispatch id [] s = ([], s)
dispatch id (on_ready ∷ out) s = dispatch id out (on_session_ready id s)
dispatch id (on_disconnect ∷ out) s = dispatch id out (on_session_disconnect id s)
dispatch id (on_gsup payload ∷ out) s =
    let rest = dispatch id out s in (to_proxy payload id ∷ rest.0, rest.1)
dispatch id (_ ∷ out) s = dispatch id out s

-- The state of a session after one of its handlers, and its callbacks.
unfoldable pub after : ℕ → Step → IpaServer → ServerStep
after id step s = dispatch id step.0 (record s { heap = assign id step.1 s.heap })

-- The handler of `async_accept` without an error. `nextClientId_` has 64 bits.
unfoldable pub accept : IpaServer → Result ServerStep
accept s =
    let id = s.next_client_id in
    let s' = record s {
      heap = assign id new_session s.heap;
      all_sessions = assign id id s.all_sessions;
      next_client_id = (id + 1) % 2 ^ 64;
    } in
    map_ok (λ step. after id step s') (IpaSession.start new_session)

-- The handlers of a session.
pub data Handler : Type 0 where
  enqueues received : Bytes → Handler
  wrote write_broke read_broke : Handler

unfoldable pub handle : Handler → IpaSession → Step
handle (enqueues frame) session = enqueue frame session
handle (received bytes) session = let h = read_done bytes session in (h.outputs, h.session)
handle wrote session = write_done session
handle write_broke session = write_failed session
handle read_broke session = read_failed session

unfoldable pub run_handler : ℕ → Handler → IpaServer → ServerStep
run_handler id handler s = elim (find id s.heap) [
  | none ↦ ([], s)
  | some session ↦ after id (handle handler session) s
]

-- `it->second->isReady()`.
unfoldable pub points_to_ready : IpaServer → ℕ → Bool
points_to_ready s pointer = elim (find pointer s.heap) [
  | none ↦ false
  | some session ↦ is_ready session
]

-- The loop over `sessions_`.
unfoldable pub broadcast : Bytes → IpaServer → List (ℕ × ℕ) → Result (List Output)
broadcast payload s [] = ok []
broadcast payload s ((id, pointer) ∷ table) =
    let rest = broadcast payload s table in
    if points_to_ready s pointer
    then (send_gsup payload >>= λ frame. map_ok (λ out. posted pointer frame ∷ out) rest)
    else rest

unfoldable pub send_to : Bytes → IpaServer → Option ℕ → Result (List Output)
send_to payload s none = ok []
send_to payload s (some pointer) =
    if points_to_ready s pointer
    then map_ok (λ frame. posted pointer frame ∷ []) (send_gsup payload)
    else ok []

-- The task that `send` posts.
unfoldable pub send : Bytes → ℕ → IpaServer → Result (List Output)
send payload client_id s =
    if client_id == 0
    then broadcast payload s s.sessions
    else send_to payload s (find client_id s.sessions)

unfoldable pub stop_all : List (ℕ × ℕ) → List (ℕ × IpaSession) → List (ℕ × IpaSession)
stop_all [] heap = heap
stop_all ((id, pointer) ∷ table) heap = elim (find pointer heap) [
  | none ↦ stop_all table heap
  | some session ↦ stop_all table (assign pointer (IpaSession.stop session).1 heap)
]

unfoldable pub stop : IpaServer → IpaServer
stop s = record s { heap = stop_all s.all_sessions s.heap; sessions = []; all_sessions = [] }
