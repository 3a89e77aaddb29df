-- ===== src/MapTransport/Delays.antt =====
-- The delays that the handlers of the transport give to the reconnect timer.
use gsup_map_proxy.Base.{
  ℕ, ◌≡◌, refl, Bool, true, false, not, ◌&&◌, List, [], ◌∷◌, ◌++◌, All, if◌then◌else◌, inl, inr,
  Bool-cases,
}
use gsup_map_proxy.Buffer.{Bytes}
use gsup_map_proxy.M3ua.{M3uaMessage, make_heartbeat}
use gsup_map_proxy.M3ua.Encode.{encode}
use gsup_map_proxy.M3ua.Decode.{next}
use gsup_map_proxy.MapTransport.{
  MapTransport, Output, Step, reconnect_armed, beat_armed, reconnect_cancelled, beat_cancelled,
  connect_failed, connect_started, read_started, socket_opened, socket_closed, queued,
  write_started, delivered, lost, and_next, send, schedule_connect, do_write, enqueue, send_raw,
  send_asp_up, start_beat, on_beat, beat_fired, start_read, connect, reconnect_fired,
  reset_connection, on_connect, drop_connection, write_failed, read_failed, is_disconnected,
  is_active, is_stopped, data_message,
}

-- The delays that the reconnect timer was armed with.
unfoldable pub delays : List Output → List ℕ
delays [] = []
delays (reconnect_armed d ∷ out) = d ∷ delays out
delays (_ ∷ out) = delays out

abbrev pub AreZero : List Output → Type 0
AreZero out = All (λ d. d ≡ 0) (delays out)

pub AreZero-append : (a b : List Output) → AreZero a → AreZero b → AreZero (a ++ b)
unfolding delays
AreZero-append [] b ha hb = hb
AreZero-append (reconnect_armed d ∷ a) b ha hb = (ha.0, AreZero-append a b ha.1 hb)
AreZero-append (beat_armed d ∷ a) b ha hb = AreZero-append a b ha hb
AreZero-append (reconnect_cancelled ∷ a) b ha hb = AreZero-append a b ha hb
AreZero-append (beat_cancelled ∷ a) b ha hb = AreZero-append a b ha hb
AreZero-append (connect_failed ∷ a) b ha hb = AreZero-append a b ha hb
AreZero-append (connect_started ∷ a) b ha hb = AreZero-append a b ha hb
AreZero-append (read_started ∷ a) b ha hb = AreZero-append a b ha hb
AreZero-append (socket_opened sctp ∷ a) b ha hb = AreZero-append a b ha hb
AreZero-append (socket_closed ∷ a) b ha hb = AreZero-append a b ha hb
AreZero-append (queued f ∷ a) b ha hb = AreZero-append a b ha hb
AreZero-append (write_started f ∷ a) b ha hb = AreZero-append a b ha hb
AreZero-append (delivered p ∷ a) b ha hb = AreZero-append a b ha hb
AreZero-append (lost ∷ a) b ha hb = AreZero-append a b ha hb

AreZero-and_next :
    (step : Step) (next : MapTransport → Step)
    → AreZero step.0
    → AreZero (next step.1).0
    → AreZero (and_next step next).0
AreZero-and_next step next ha hb = AreZero-append step.0 (next step.1).0 ha hb

-- A disconnected transport connects at once.
pub schedule_connect-AreZero :
    (t : MapTransport) → is_disconnected t ≡ true → AreZero (schedule_connect t).0
unfolding schedule_connect delays
schedule_connect-AreZero t h = elim (Bool-cases (is_stopped t)) [
  | inl done ↦ rw done tt
  | inr going ↦ rw going (rw h (refl, tt))
]

do_write_fields :
    (q : List Bytes) (t : MapTransport) → AreZero (do_write (record t { write_queue = q })).0
unfolding do_write delays
do_write_fields [] t = tt
do_write_fields (f ∷ q) t = tt

pub do_write-AreZero : (t : MapTransport) → AreZero (do_write t).0
do_write-AreZero t = do_write_fields t.write_queue t

AreZero-if : (b : Bool) (x y : Step) → AreZero x.0 → AreZero y.0 → AreZero (if b then x else y).0
AreZero-if true x y hx hy = hx
AreZero-if false x y hx hy = hy

enqueue-AreZero : (f : Bytes) (t : MapTransport) → AreZero (enqueue f t).0
unfolding enqueue delays
enqueue-AreZero f t =
    let pushed = record t { write_queue = t.write_queue ++ f ∷ [] } in
    AreZero-if t.writing (queued f ∷ [], pushed)
      (queued f ∷ (do_write pushed).0, (do_write pushed).1) tt (do_write-AreZero pushed)

pub send_raw-AreZero : (msg : M3uaMessage) (t : MapTransport) → AreZero (send_raw msg t).0
unfolding send_raw
send_raw-AreZero msg t = enqueue-AreZero (encode msg) t

pub start_beat-AreZero : (t : MapTransport) → AreZero (start_beat t).0
unfolding start_beat delays
start_beat-AreZero t = tt

on_beat-AreZero : (t : MapTransport) → AreZero (on_beat t).0
unfolding on_beat delays
on_beat-AreZero t =
    AreZero-if (is_active t) _ ([], t)
      (AreZero-and_next (send_raw (make_heartbeat []) t) start_beat
        (send_raw-AreZero (make_heartbeat []) t) (start_beat-AreZero _))
      tt

pub beat_fired-AreZero : (cancelled : Bool) (t : MapTransport) → AreZero (beat_fired cancelled t).0
unfolding beat_fired delays
beat_fired-AreZero cancelled t =
    AreZero-if (not cancelled && not (is_stopped t)) (on_beat t) ([], t) (on_beat-AreZero t) tt

pub send-AreZero : (payload : Bytes) (t : MapTransport) → AreZero (send payload t).0
unfolding send delays
send-AreZero payload t =
    AreZero-if (is_active t) _ ([], t) (send_raw-AreZero (data_message t.cfg payload) t) tt

connect-AreZero :
    (sctp_built resolved opened : Bool) (t : MapTransport)
    → AreZero (connect sctp_built resolved opened t).0
unfolding connect delays
connect-AreZero sctp_built resolved opened t = AreZero-if (not resolved) _ _ tt (
    AreZero-if (not opened) _ _ (closing t.socket_open connect_failed tt)
      (closing t.socket_open connect_started tt))
  where
    closing :
        (is_open : Bool) (o : Output)
        → AreZero (o ∷ [])
        → AreZero (
            (if is_open then socket_closed ∷ [] else [])
            ++ socket_opened (sctp_built && t.cfg.use_sctp) ∷ []
            ++ o ∷ [])
    closing true o h = h
    closing false o h = h

pub reconnect_fired-AreZero :
    (cancelled sctp_built resolved opened : Bool) (t : MapTransport)
    → AreZero (reconnect_fired cancelled sctp_built resolved opened t).0
unfolding reconnect_fired delays
reconnect_fired-AreZero cancelled sctp_built resolved opened t =
    AreZero-if (not cancelled && not (is_stopped t)) _ ([], t)
      (connect-AreZero sctp_built resolved opened t) tt

pub on_connect-AreZero : (failed : Bool) (t : MapTransport) → AreZero (on_connect failed t).0
unfolding on_connect delays start_read send_asp_up is_disconnected
on_connect-AreZero failed t =
    AreZero-if failed _ _ (schedule_connect-AreZero _ refl) (send_raw-AreZero _ _)

drop_connection-AreZero :
    (first : List Output) (t : MapTransport) → AreZero first → AreZero (drop_connection first t).0
unfolding delays is_disconnected reset_connection
drop_connection-AreZero first t h =
    AreZero-append (first ++ socket_closed ∷ lost ∷ []) _
      (AreZero-append first (socket_closed ∷ lost ∷ []) h tt) (schedule_connect-AreZero _ refl)

pub write_failed-AreZero : (t : MapTransport) → AreZero (write_failed t).0
unfolding write_failed delays
write_failed-AreZero t =
    AreZero-if (is_stopped t) ([], t) (drop_connection [] t) tt (drop_connection-AreZero [] t tt)

pub read_failed-AreZero : (t : MapTransport) → AreZero (read_failed t).0
unfolding read_failed delays
read_failed-AreZero t =
    AreZero-if (is_stopped t) ([], t) (drop_connection (beat_cancelled ∷ []) t) tt
      (drop_connection-AreZero (beat_cancelled ∷ []) t tt)
