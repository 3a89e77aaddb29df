-- ===== src/IpaSession.antt =====
-- transport/IpaSession.cpp: the connection to one SGSN. The socket is Boost.Asio's: what a call of
-- it starts is an output, and the handler it calls later is a function of its own.
pub mod Run
pub mod Queue
pub mod Loop
pub mod Readiness
pub mod Delivery
use gsup_map_proxy.Base.{
  ℕ, zero, suc, Bool, true, false, not, ◌&&◌, List, [], ◌∷◌, ◌++◌, length, ◌==◌, if◌then◌else◌,
  Error, Result, ok, err, stuck, ◌>>=◌, map_ok,
}
use gsup_map_proxy.Buffer.{Bytes}
use gsup_map_proxy.Framing.{need_more, frame, thrown}
use gsup_map_proxy.Ipa.{
  IpaFrame, encode, next, feed, stream_gsup, stream_ccm, ccm_ping, ccm_pong, ccm_id_req,
  ccm_id_resp, ccm_id_ack,
}

pub data State : Type 0 where
  handshaking ready stopped : State

pub record IpaSession : Type 0 where
  pub decoder : Bytes
  pub state : State
  pub write_queue : List Bytes
  pub writing : Bool

-- What the session does to the outside: `queued` notes a frame that enters the write queue,
-- `write_started` and `read_started` are asynchronous calls of the socket, `socket_closed` shuts
-- it, and `on_ready`, `on_disconnect` and `on_gsup` are the callbacks of the server. `completed` and
-- `broken` are no outputs: they note in a history that the handler of a started write runs.
pub data Output : Type 0 where
  queued write_started : Bytes → Output
  read_started socket_closed : Output
  on_ready on_disconnect : Output
  on_gsup : Bytes → Output
  completed broken : Bytes → Output

abbrev pub Step : Type 0
Step = List Output × IpaSession

unfoldable pub is_ready : IpaSession → Bool
is_ready s = elim (s.state) [ handshaking ↦ false | ready ↦ true | stopped ↦ false ]

abbrev pub is_stopped : IpaSession → Bool
is_stopped s = elim (s.state) [ handshaking ↦ false | ready ↦ false | stopped ↦ true ]

-- The write stays at the front of the queue until it is done.
unfoldable pub do_write : IpaSession → Step
do_write s = elim (s.write_queue) [
  | [] ↦ ([], record s { writing = false })
  | f ∷ fs ↦ (write_started f ∷ [], record s { writing = true })
]

unfoldable pub enqueue : Bytes → IpaSession → Step
enqueue f s =
    let pushed = record s { write_queue = s.write_queue ++ f ∷ [] } in
    let begun = do_write pushed in
    if s.writing then (queued f ∷ [], pushed) else (queued f ∷ begun.0, begun.1)

abbrev pub pop_front : List Bytes → List Bytes
pop_front [] = []
pop_front (f ∷ fs) = fs

-- The handler of `async_write`, without and with an error.
unfoldable pub write_done : IpaSession → Step
write_done s = do_write (record s { write_queue = pop_front s.write_queue })

unfoldable pub write_failed : IpaSession → Step
write_failed s =
    if is_stopped s then ([], s) else (on_disconnect ∷ [], record s { state = stopped })

-- The frame that `sendGsup` posts to `enqueue`.
unfoldable pub send_gsup : Bytes → Result Bytes
send_gsup payload = encode stream_gsup payload

unfoldable pub send_ccm : Bytes → IpaSession → Result Step
send_ccm payload s = map_ok (λ f. enqueue f s) (encode stream_ccm payload)

unfoldable pub send_ccm_id_get : IpaSession → Result Step
send_ccm_id_get s = send_ccm (ccm_id_req ∷ 0x01 ∷ 0x07 ∷ []) s

unfoldable pub send_ccm_id_ack : IpaSession → Result Step
send_ccm_id_ack s = send_ccm (ccm_id_ack ∷ []) s

unfoldable pub send_ccm_pong : IpaSession → Result Step
send_ccm_pong s = send_ccm (ccm_pong ∷ []) s

abbrev pub become_ready : Step → Step
become_ready (out, s) = (out ++ on_ready ∷ [], record s { state = ready })

unfoldable pub handle_ccm : Bytes → IpaSession → Result Step
handle_ccm [] s = ok ([], s)
handle_ccm (b ∷ payload) s =
    if b == ccm_id_resp
    then map_ok become_ready (send_ccm_id_ack s)
    else if b == ccm_ping
    then send_ccm_pong s
    else ok ([], s)

unfoldable pub process_frame : IpaFrame → IpaSession → Result Step
process_frame f s =
    if f.stream_id == stream_ccm
    then handle_ccm f.payload s
    else if (f.stream_id == stream_gsup) && is_ready s
    then ok (on_gsup f.payload ∷ [], s)
    else ok ([], s)

-- What a handler comes to: what it did, and whether an exception left it.
pub record Handled : Type 0 where
  pub outputs : List Output
  pub session : IpaSession
  pub raised : Result (Unit {0})

abbrev pub prepend : List Output → Handled → Handled
prepend out h = record h { outputs = out ++ h.outputs }

-- `processFrame(*frame)` and the rest of the loop.
abbrev pub go_on : Result Step → IpaSession → (IpaSession → Handled) → Handled
go_on (ok (out, s')) s more = prepend out (more s')
go_on (err e) s more = record { outputs = []; session = s; raised = err e }
go_on stuck s more = record { outputs = []; session = s; raised = stuck }

-- `while (auto frame = decoder_.next())`.
unfoldable pub process_frames : ℕ → IpaSession → Handled
process_frames zero s = record { outputs = []; session = s; raised = stuck }
process_frames (suc fuel) s =
    let rest = record s { decoder = (next s.decoder).1 } in
    elim ((next s.decoder).0) [
      | need_more ↦ record { outputs = []; session = rest; raised = ok tt }
      | frame f ↦ go_on (process_frame f rest) rest (λ s'. process_frames fuel s')
      | thrown e ↦ record { outputs = []; session = rest; raised = err e }
    ]

-- The handler of `async_read_some` reads on unless the session has stopped; after an exception it
-- does not come that far.
abbrev pub read_on : Handled → Handled
read_on h = elim (h.raised) [
  | ok done ↦
      if is_stopped h.session then h else record h { outputs = h.outputs ++ read_started ∷ [] }
  | err e ↦ h
  | stuck ↦ h
]

-- Each frame takes a byte at least, so this fuel is enough. The bytes are any number of bytes;
-- `readBuf_` has room for 4096.
unfoldable pub read_done : Bytes → IpaSession → Handled
read_done bytes s =
    let fed = record s { decoder = feed s.decoder bytes } in
    read_on (process_frames (suc (length fed.decoder)) fed)

unfoldable pub read_failed : IpaSession → Step
read_failed s = if is_stopped s then ([], s) else (on_disconnect ∷ [], record s { state = stopped })

unfoldable pub new_session : IpaSession
new_session = record { decoder = []; state = handshaking; write_queue = []; writing = false }

abbrev pub begin_reading : Step → Step
begin_reading (out, s) = (out ++ read_started ∷ [], s)

unfoldable pub start : IpaSession → Result Step
start s = map_ok begin_reading (send_ccm_id_get s)

unfoldable pub stop : IpaSession → Step
stop s = if is_stopped s then ([], s) else (socket_closed ∷ [], record s { state = stopped })
