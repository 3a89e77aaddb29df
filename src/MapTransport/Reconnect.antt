-- ===== src/MapTransport/Reconnect.antt =====
-- The delays before the transport connects again.
use gsup_map_proxy.Base.{
  ℕ, zero, suc, ◌≡◌, refl, Bool, true, false, not, ◌&&◌, ◌==◌, Option, none, some, List, [], ◌∷◌,
  All, length, if◌then◌else◌, inl, inr, Bool-cases,
}
use gsup_map_proxy.Buffer.{Bytes}
use gsup_map_proxy.M3ua.{
  M3uaMessage, ProtocolData, class_aspsm, class_asptm, class_transf, type_asp_up_ack,
  type_asp_ac_ack, type_heartbeat, type_heartbeat_ack, type_data, si_sccp,
}
use gsup_map_proxy.M3ua.Decode.{next, feed}
use gsup_map_proxy.Framing.Laws.{Next-cases}
use gsup_map_proxy.Sccp.Decode.{Outcome, value, raised, undefined, decode_udt}
use gsup_map_proxy.MapTransport.{
  MapTransport, MapTransportConfig, Output, Step, read_started, delivered, emit, new_transport,
  start, stop, send_asp_ac, is_disconnected, is_stopped,
}
use gsup_map_proxy.MapTransport.Receive.{
  is_message, receive_data, process_data, process_message, process_messages, read_on, go_on,
  Handled, read_done, write_done, End, returned, threw, undefined_behaviour, out_of_fuel,
}
use gsup_map_proxy.MapTransport.Run.{
  History, begun, sent, reconnected, connected, beat, received, read_broke, wrote, write_broke,
  stopped,
}
use gsup_map_proxy.MapTransport.Delays.{
  delays, AreZero, AreZero-append, schedule_connect-AreZero, do_write-AreZero, send_raw-AreZero,
  start_beat-AreZero, beat_fired-AreZero, send-AreZero, reconnect_fired-AreZero, on_connect-AreZero,
  write_failed-AreZero, read_failed-AreZero,
}

-- A property of the step that an outcome has, if it has one.
abbrev IsZeroStep : Outcome Step → Type 0
IsZeroStep (value step) = AreZero step.0
IsZeroStep (raised e) = Unit
IsZeroStep undefined = Unit

IsZeroStep-if :
    (b : Bool) (x y : Outcome Step) → IsZeroStep x → IsZeroStep y → IsZeroStep (if b then x else y)
IsZeroStep-if true x y hx hy = hx
IsZeroStep-if false x y hx hy = hy

receive_data-IsZeroStep :
    (user_data : Bytes) (t : MapTransport) → IsZeroStep (receive_data user_data t)
unfolding receive_data delays
receive_data-IsZeroStep user_data t =
    elim (decode_udt user_data)
      as (λ o. IsZeroStep (elim o [
        | value udt ↦ value (emit (delivered udt.pdu) t)
        | raised e ↦ value ([], t)
        | undefined ↦ undefined
      ])) [ value udt ↦ tt | raised e ↦ tt | undefined ↦ tt ]

process_data-IsZeroStep :
    (pd : Option ProtocolData) (t : MapTransport) → IsZeroStep (process_data pd t)
unfolding process_data delays
process_data-IsZeroStep none t = tt
process_data-IsZeroStep (some pd) t =
    IsZeroStep-if (not (pd.si == si_sccp)) (value ([], t)) _ tt
      (receive_data-IsZeroStep pd.user_data t)

process_message-IsZeroStep :
    (msg : M3uaMessage) (t : MapTransport) → IsZeroStep (process_message msg t)
unfolding process_message send_asp_ac delays
process_message-IsZeroStep msg t =
    IsZeroStep-if (is_message class_aspsm type_asp_up_ack msg) _ _ (send_raw-AreZero _ t) (
      IsZeroStep-if (is_message class_asptm type_asp_ac_ack msg) _ _ (start_beat-AreZero _) (
        IsZeroStep-if (is_message class_aspsm type_heartbeat msg) _ _ (send_raw-AreZero _ t) (
          IsZeroStep-if (is_message class_aspsm type_heartbeat_ack msg) (value ([], t)) _ tt (
            IsZeroStep-if (is_message class_transf type_data msg) _ (value ([], t))
              (process_data-IsZeroStep msg.protocol_data t) tt))))

go_on-AreZero :
    (o : Outcome Step) (t : MapTransport) (more : MapTransport → Handled)
    → IsZeroStep o
    → ((t' : MapTransport) → AreZero (more t').outputs)
    → AreZero (go_on o t more).outputs
unfolding delays
go_on-AreZero (value (out, t')) t more h k = AreZero-append out (more t').outputs h (k t')
go_on-AreZero (raised e) t more h k = k t
go_on-AreZero undefined t more h k = tt

process_messages-AreZero : (fuel : ℕ) (t : MapTransport) → AreZero (process_messages fuel t).outputs
unfolding process_messages delays
process_messages-AreZero zero t = tt
process_messages-AreZero (suc fuel) t = elim (Next-cases (next t.decoder)) [
  | inl e ↦ rw (e, process_messages) tt
  | inr (inl (msg, e)) ↦
      let rest = record t { decoder = (next t.decoder).1 } in
      rw (e, process_messages)
        (go_on-AreZero (process_message msg rest) rest (λ t'. process_messages fuel t')
          (process_message-IsZeroStep msg rest) (λ t'. process_messages-AreZero fuel t'))
  | inr (inr (x, e)) ↦ rw (e, process_messages) tt
]

read_on_fields :
    (out : List Output) (t : MapTransport) (ending : End)
    → AreZero out
    → AreZero (read_on (record { outputs = out; transport = t; ending = ending })).outputs
unfolding delays
read_on_fields out t returned z =
    elim (Bool-cases (not (is_stopped t) && not (is_disconnected t))) [
      | inl goes ↦ rw goes (AreZero-append out (read_started ∷ []) z tt)
      | inr stays ↦ rw stays z
    ]
read_on_fields out t (threw e) z = z
read_on_fields out t undefined_behaviour z = z
read_on_fields out t out_of_fuel z = z

read_done-AreZero : (bytes : Bytes) (t : MapTransport) → AreZero (read_done bytes t).outputs
unfolding read_done
read_done-AreZero bytes t =
    let fed = record t { decoder = feed t.decoder bytes } in
    let h = process_messages (suc (length fed.decoder)) fed in
    read_on_fields h.outputs h.transport h.ending
      (process_messages-AreZero (suc (length fed.decoder)) fed)

write_done_fields :
    (q : List Bytes) (t : MapTransport) → IsZeroStep (write_done (record t { write_queue = q }))
unfolding write_done
write_done_fields [] t = tt
write_done_fields (f ∷ q) t = do_write-AreZero _

write_done-AreZero :
    (t : MapTransport) {more : List Output} {t' : MapTransport}
    → write_done t ≡ value (more, t')
    → AreZero more
write_done-AreZero t e = rw e at (write_done_fields t.write_queue t)

-- In every history of the transport, whatever its handlers meet, and whatever `reconnectInterval`
-- the configuration has, each time the reconnect timer is armed it is armed for 0 seconds: after a
-- failed connect and after a lost connection the next attempt comes at once.
pub delays-History :
    {cfg : MapTransportConfig} {t : MapTransport} {out : List Output}
    → History cfg t out
    → All (λ d. d ≡ 0) (delays out)
unfolding start new_transport is_disconnected delays stop
delays-History begun = schedule_connect-AreZero _ refl
delays-History (sent {t} {out} payload h) =
    AreZero-append out _ (delays-History h) (send-AreZero payload t)
delays-History (reconnected {t} {out} cancelled sctp_built resolved opened h) =
    AreZero-append out _ (delays-History h)
      (reconnect_fired-AreZero cancelled sctp_built resolved opened t)
delays-History (connected {t} {out} failed h) =
    AreZero-append out _ (delays-History h) (on_connect-AreZero failed t)
delays-History (beat {t} {out} cancelled h) =
    AreZero-append out _ (delays-History h) (beat_fired-AreZero cancelled t)
delays-History (received {t} {out} bytes h) =
    AreZero-append out _ (delays-History h) (read_done-AreZero bytes t)
delays-History (read_broke {t} {out} h) =
    AreZero-append out _ (delays-History h) (read_failed-AreZero t)
delays-History (wrote {t} {out = out} h e) =
    AreZero-append out _ (delays-History h) (write_done-AreZero t e)
delays-History (write_broke {t} {out} h) =
    AreZero-append out _ (delays-History h) (write_failed-AreZero t)
delays-History (stopped {t} {out} h) = AreZero-append out _ (delays-History h) tt
