-- ===== src/MapTransport/Receive.antt =====
-- The handlers of transport/MapTransport.cpp that take messages, and that of a completed write.
use gsup_map_proxy.Base.{
  ℕ, zero, suc, Bool, not, ◌&&◌, Option, none, some, List, [], ◌∷◌, ◌++◌, length, ◌==◌,
  if◌then◌else◌, Error,
}
use gsup_map_proxy.Buffer.{Bytes}
use gsup_map_proxy.Framing.{need_more, frame, thrown}
use gsup_map_proxy.M3ua.{
  M3uaMessage, ProtocolData, class_aspsm, class_asptm, class_transf, type_asp_up_ack,
  type_asp_ac_ack, type_heartbeat, type_heartbeat_ack, type_data, si_sccp, make_heartbeat_ack,
}
use gsup_map_proxy.M3ua.Decode.{feed, next}
use gsup_map_proxy.Sccp.Decode.{Outcome, value, raised, undefined, decode_udt}
use gsup_map_proxy.MapTransport.{
  MapTransport, Output, Step, active, emit, delivered, read_started, do_write, send_raw,
  send_asp_ac, start_beat, is_stopped, is_disconnected,
}

-- An exception of the SCCP decoder is caught.
unfoldable pub receive_data : Bytes → MapTransport → Outcome Step
receive_data user_data t = elim (decode_udt user_data) [
  | value udt ↦ value (emit (delivered udt.pdu) t)
  | raised e ↦ value ([], t)
  | undefined ↦ undefined
]

abbrev pub is_message : ℕ → ℕ → M3uaMessage → Bool
is_message msg_class msg_type msg = (msg.msg_class == msg_class) && (msg.msg_type == msg_type)

unfoldable pub process_data : Option ProtocolData → MapTransport → Outcome Step
process_data none t = value ([], t)
process_data (some pd) t =
    if not (pd.si == si_sccp) then value ([], t) else receive_data pd.user_data t

unfoldable pub process_message : M3uaMessage → MapTransport → Outcome Step
process_message msg t =
    if is_message class_aspsm type_asp_up_ack msg
    then value (send_asp_ac t)
    else if is_message class_asptm type_asp_ac_ack msg
    then value (start_beat (record t { state = active }))
    else if is_message class_aspsm type_heartbeat msg
    then value (send_raw (make_heartbeat_ack msg.heartbeat_data) t)
    else if is_message class_aspsm type_heartbeat_ack msg
    then value ([], t)
    else if is_message class_transf type_data msg
    then process_data msg.protocol_data t
    else value ([], t)

-- How a handler ends; `out_of_fuel` is no outcome of the program.
pub data End : Type 0 where
  returned : End
  threw : Error → End
  undefined_behaviour out_of_fuel : End

pub record Handled : Type 0 where
  pub outputs : List Output
  pub transport : MapTransport
  pub ending : End

abbrev pub prepend : List Output → Handled → Handled
prepend out h = record h { outputs = out ++ h.outputs }

-- `processMessage(*msg)` under its `try`, and the rest of the loop.
abbrev pub go_on : Outcome Step → MapTransport → (MapTransport → Handled) → Handled
go_on (value (out, t')) t more = prepend out (more t')
go_on (raised e) t more = more t
go_on undefined t more = record { outputs = []; transport = t; ending = undefined_behaviour }

-- `while (auto msg = decoder_.next())`: an exception of `next` is not caught.
unfoldable pub process_messages : ℕ → MapTransport → Handled
process_messages zero t = record { outputs = []; transport = t; ending = out_of_fuel }
process_messages (suc fuel) t =
    let rest = record t { decoder = (next t.decoder).1 } in
    elim ((next t.decoder).0) [
      | need_more ↦ record { outputs = []; transport = rest; ending = returned }
      | frame msg ↦ go_on (process_message msg rest) rest (λ t'. process_messages fuel t')
      | thrown e ↦ record { outputs = []; transport = rest; ending = threw e }
    ]

abbrev pub read_on : Handled → Handled
read_on h = elim (h.ending) [
  | returned ↦
      if not (is_stopped h.transport) && not (is_disconnected h.transport)
      then record h { outputs = h.outputs ++ read_started ∷ [] }
      else h
  | threw e ↦ h
  | undefined_behaviour ↦ h
  | out_of_fuel ↦ h
]

-- The handler of `async_read_some` without an error. Each message takes a byte at least, so this
-- fuel is enough.
unfoldable pub read_done : Bytes → MapTransport → Handled
read_done bytes t =
    let fed = record t { decoder = feed t.decoder bytes } in
    read_on (process_messages (suc (length fed.decoder)) fed)

-- The handler of `async_write` without an error. `pop_front` of an empty deque is undefined.
unfoldable pub write_done : MapTransport → Outcome Step
write_done t = elim (t.write_queue) [
  | [] ↦ undefined
  | f ∷ fs ↦ value (do_write (record t { write_queue = fs }))
]
