-- ===== src/MapTransport.antt =====
-- transport/MapTransport.cpp: the connection to the signalling gateway of the HLR. Socket, timers
-- and resolver are Boost.Asio's: what a call of them starts is an output, and the handler they call
-- later is a function of its own, with the outcome as its argument.
pub mod Receive
pub mod Run
pub mod Delays
pub mod Reconnect
pub mod Frames
pub mod Delivery
pub mod Stale
use gsup_map_proxy.Base.{
  ℕ, Bool, true, false, not, ◌&&◌, ◌||◌, Option, List, [], ◌∷◌, ◌++◌, if◌then◌else◌,
}
use gsup_map_proxy.Buffer.{Bytes}
use gsup_map_proxy.Bcd.{Text}
use gsup_map_proxy.M3ua.{
  M3uaMessage, ProtocolData, make_asp_up, make_asp_ac, make_heartbeat, make_data, si_sccp,
  ni_international,
}
use gsup_map_proxy.M3ua.Encode.{encode}
use gsup_map_proxy.Sccp.{SccpUdt, make_gt_address, proto_class0}
use gsup_map_proxy.Sccp.Encode.{encode_udt}

pub record MapTransportConfig : Type 0 where
  pub sg_host : Text
  pub sg_port : ℕ
  pub opc : ℕ
  pub dpc : ℕ
  pub routing_context : Option ℕ
  pub hlr_gt : Text
  pub hlr_ssn : ℕ
  pub local_gt : Text
  pub local_ssn : ℕ
  pub reconnect_interval : ℕ
  pub beat_interval : ℕ
  pub use_sctp : Bool

pub data State : Type 0 where
  disconnected connecting asp_up active stopped : State

-- The decoder is its buffer; `socket_open` is `socket_.is_open()`.
pub record MapTransport : Type 0 where
  pub cfg : MapTransportConfig
  pub state : State
  pub decoder : Bytes
  pub write_queue : List Bytes
  pub writing : Bool
  pub socket_open : Bool

-- What the transport does to the outside. Timers are armed for a number of seconds;
-- `connect_failed` is the `onConnect` with an error that `connect` posts; `queued` notes a frame
-- that enters the write queue; `delivered` and `lost` are the callbacks of the proxy.
pub data Output : Type 0 where
  reconnect_armed beat_armed : ℕ → Output
  reconnect_cancelled beat_cancelled : Output
  connect_failed connect_started read_started : Output
  socket_opened : Bool → Output
  socket_closed : Output
  queued write_started delivered : Bytes → Output
  lost : Output

abbrev pub Step : Type 0
Step = List Output × MapTransport

-- One thing after another.
abbrev pub and_next : Step → (MapTransport → Step) → Step
and_next (out, t) next = (out ++ (next t).0, (next t).1)

abbrev pub emit : Output → MapTransport → Step
emit o t = (o ∷ [], t)

unfoldable pub is_disconnected : MapTransport → Bool
is_disconnected t = elim (t.state) [
  | disconnected ↦ true
  | connecting ↦ false
  | asp_up ↦ false
  | active ↦ false
  | stopped ↦ false
]

unfoldable pub is_active : MapTransport → Bool
is_active t = elim (t.state) [
  | disconnected ↦ false
  | connecting ↦ false
  | asp_up ↦ false
  | active ↦ true
  | stopped ↦ false
]

unfoldable pub is_stopped : MapTransport → Bool
is_stopped t = elim (t.state) [
  | disconnected ↦ false
  | connecting ↦ false
  | asp_up ↦ false
  | active ↦ false
  | stopped ↦ true
]

unfoldable pub new_transport : MapTransportConfig → MapTransport
new_transport cfg = record {
  cfg = cfg;
  state = disconnected;
  decoder = [];
  write_queue = [];
  writing = false;
  socket_open = false;
}

unfoldable pub schedule_connect : MapTransport → Step
schedule_connect t =
    let delay = if is_disconnected t then 0 else t.cfg.reconnect_interval in
    if is_stopped t then ([], t) else emit (reconnect_armed delay) t

unfoldable pub start : MapTransport → Step
start t = schedule_connect t

unfoldable pub stop : MapTransport → Step
stop t =
    let closed = record t { state = stopped; socket_open = false } in
    (reconnect_cancelled ∷ beat_cancelled ∷ socket_closed ∷ [], closed)

unfoldable pub do_write : MapTransport → Step
do_write t = elim (t.write_queue) [
  | [] ↦ ([], record t { writing = false })
  | f ∷ fs ↦ (write_started f ∷ [], record t { writing = true })
]

unfoldable pub enqueue : Bytes → MapTransport → Step
enqueue f t =
    let pushed = record t { write_queue = t.write_queue ++ f ∷ [] } in
    let begun = do_write pushed in
    if t.writing then (queued f ∷ [], pushed) else (queued f ∷ begun.0, begun.1)

unfoldable pub send_raw : M3uaMessage → MapTransport → Step
send_raw msg t = enqueue (encode msg) t

unfoldable pub send_asp_up : MapTransport → Step
send_asp_up t = send_raw make_asp_up (record t { state = asp_up })

unfoldable pub send_asp_ac : MapTransport → Step
send_asp_ac t = send_raw (make_asp_ac t.cfg.routing_context) t

unfoldable pub start_beat : MapTransport → Step
start_beat t = emit (beat_armed t.cfg.beat_interval) t

unfoldable pub on_beat : MapTransport → Step
on_beat t = if is_active t then and_next (send_raw (make_heartbeat []) t) start_beat else ([], t)

-- The handler of the beat timer; `cancelled` is its error.
unfoldable pub beat_fired : Bool → MapTransport → Step
beat_fired cancelled t = if not cancelled && not (is_stopped t) then on_beat t else ([], t)

unfoldable pub start_read : MapTransport → Step
start_read t = emit read_started t

-- `resolved` is the outcome of the resolver, `opened` that of opening the socket, and `sctp_built`
-- the build option ENABLE_SCTP_TRANSPORT.
unfoldable pub connect : (sctp_built resolved opened : Bool) → MapTransport → Step
connect sctp_built resolved opened t =
    let begun = record t { state = connecting } in
    let closing = if t.socket_open then socket_closed ∷ [] else [] in
    let opening = socket_opened (sctp_built && t.cfg.use_sctp) ∷ [] in
    if not resolved
    then emit connect_failed begun
    else if not opened
    then (closing ++ opening ++ connect_failed ∷ [], record begun { socket_open = false })
    else (closing ++ opening ++ connect_started ∷ [], record begun { socket_open = true })

-- The handler of the reconnect timer.
unfoldable pub reconnect_fired : (cancelled sctp_built resolved opened : Bool) → MapTransport → Step
reconnect_fired cancelled sctp_built resolved opened t =
    if not cancelled && not (is_stopped t) then connect sctp_built resolved opened t else ([], t)

unfoldable pub reset_connection : MapTransport → MapTransport
reset_connection t = record t { write_queue = []; writing = false; decoder = [] }

unfoldable pub on_connect : (failed : Bool) → MapTransport → Step
on_connect failed t =
    if failed
    then schedule_connect (record (reset_connection t) { state = disconnected })
    else and_next (start_read t) send_asp_up

-- The wrapping of a MAP payload in SCCP and M3UA.
unfoldable pub udt_of : MapTransportConfig → Bytes → SccpUdt
udt_of cfg payload = record {
  protocol_class = proto_class0;
  called_party = make_gt_address cfg.hlr_gt cfg.hlr_ssn true;
  calling_party = make_gt_address cfg.local_gt cfg.local_ssn true;
  pdu = payload;
}

unfoldable pub data_message : MapTransportConfig → Bytes → M3uaMessage
data_message cfg payload =
    let pd : ProtocolData = record {
      opc = cfg.opc;
      dpc = cfg.dpc;
      si = si_sccp;
      ni = ni_international;
      mp = 0;
      sls = 0;
      user_data = encode_udt (udt_of cfg payload);
    } in
    make_data pd cfg.routing_context

-- The task that `send` posts.
unfoldable pub send : Bytes → MapTransport → Step
send payload t = if is_active t then send_raw (data_message t.cfg payload) t else ([], t)

-- What both failure handlers do after `state_ = State::Disconnected`.
abbrev pub drop_connection : List Output → MapTransport → Step
drop_connection first t =
    let dropped = record (reset_connection (record t { state = disconnected })) {
      socket_open = false;
    } in
    and_next (first ++ socket_closed ∷ lost ∷ [], dropped) schedule_connect

-- The handler of `async_write` with an error.
unfoldable pub write_failed : MapTransport → Step
write_failed t = if is_stopped t then ([], t) else drop_connection [] t

-- The handler of `async_read_some` with an error.
unfoldable pub read_failed : MapTransport → Step
read_failed t = if is_stopped t then ([], t) else drop_connection (beat_cancelled ∷ []) t
