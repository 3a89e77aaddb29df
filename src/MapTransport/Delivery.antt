-- ===== src/MapTransport/Delivery.antt =====
-- MAP payloads from one transport to another, through SCCP, M3UA and the stream.
use gsup_map_proxy.Base.{
  ◌<◌, ◌≡◌, refl, sym, ap, ◌∙◌, Bool, true, false, List, [], ◌∷◌, ◌++◌, All, length, if◌then◌else◌,
  append-nil, append_assoc,
}
use gsup_map_proxy.Buffer.{Bytes}
use gsup_map_proxy.Framing.Delivery.{concat}
use gsup_map_proxy.M3ua.Encode.{encode}
use gsup_map_proxy.MapTransport.{
  MapTransport, Step, active, queued, do_write, enqueue, send, send_raw, is_active, disconnected,
  connecting, asp_up, stopped, read_started, data_message, is_stopped, is_disconnected,
}
use gsup_map_proxy.MapTransport.Receive.{returned, read_done}
use gsup_map_proxy.MapTransport.Frames.{
  IsUsable, frame_of, frames_of, deliveries, read_done-frames_of,
}

-- Sending payloads, one after another.
unfoldable pub send_all : List Bytes → MapTransport → MapTransport
send_all [] s = s
send_all (payload ∷ payloads) s = send_all payloads (send payload s).1

do_write_fields :
    (q : List Bytes) (s : MapTransport)
    → let s' = (do_write (record s { write_queue = q })).1 in
      (s'.write_queue ≡ q) × (s'.cfg ≡ s.cfg) × (s'.state ≡ s.state)
unfolding do_write
do_write_fields [] s = (refl, refl, refl)
do_write_fields (f ∷ q) s = (refl, refl, refl)

abbrev Queues : MapTransport → Bytes → MapTransport → Type 0
Queues s f s' = (s'.write_queue ≡ s.write_queue ++ f ∷ []) × (s'.cfg ≡ s.cfg) × (s'.state ≡ s.state)

Queues-if :
    (b : Bool) (s : MapTransport) (f : Bytes) (x y : Step)
    → Queues s f x.1
    → Queues s f y.1
    → Queues s f (if b then x else y).1
Queues-if true s f x y hx hy = hx
Queues-if false s f x y hx hy = hy

enqueue-Queues : (f : Bytes) (s : MapTransport) → Queues s f (enqueue f s).1
unfolding enqueue
enqueue-Queues f s =
    let pushed = record s { write_queue = s.write_queue ++ f ∷ [] } in
    Queues-if s.writing s f (queued f ∷ [], pushed)
      (queued f ∷ (do_write pushed).0, (do_write pushed).1) (refl, refl, refl)
      (do_write_fields (s.write_queue ++ f ∷ []) s)

send-Queues :
    (payload : Bytes) (s : MapTransport)
    → is_active s ≡ true
    → Queues s (frame_of s.cfg payload) (send payload s).1
unfolding send send_raw frame_of
send-Queues payload s h = rw h (enqueue-Queues (encode (data_message s.cfg payload)) s)

is_active-state : (s s' : MapTransport) → s'.state ≡ s.state → is_active s' ≡ is_active s
unfolding is_active
is_active-state s s' e =
    ap
      (λ st. elim st as (λ x. Bool) [
        | disconnected ↦ false
        | connecting ↦ false
        | asp_up ↦ false
        | active ↦ true
        | stopped ↦ false
      ])
      e

concat-append : (a : List Bytes) (f : Bytes) → concat (a ++ f ∷ []) ≡ concat a ++ f
unfolding concat
concat-append [] f = append-nil f
concat-append (g ∷ a) f = ap (λ b. g ++ b) (concat-append a f) ∙ sym (append_assoc g (concat a) f)

send_all-frames_of :
    (payloads : List Bytes) (s : MapTransport)
    → is_active s ≡ true
    → concat (send_all payloads s).write_queue ≡ concat s.write_queue ++ frames_of s.cfg payloads
unfolding send_all frames_of
send_all-frames_of [] s h = sym (append-nil (concat s.write_queue))
send_all-frames_of (payload ∷ payloads) s h =
    let s' = (send payload s).1 in
    let (same_queue, same_cfg, same_state) = send-Queues payload s h in
    send_all-frames_of payloads s' (is_active-state s s' same_state ∙ h)
    ∙ ap (λ c. concat s'.write_queue ++ frames_of c payloads) same_cfg
    ∙ ap (λ q. concat q ++ frames_of s.cfg payloads) same_queue
    ∙ ap (λ b. b ++ frames_of s.cfg payloads) (concat-append s.write_queue (frame_of s.cfg payload))
    ∙ append_assoc (concat s.write_queue) (frame_of s.cfg payload) (frames_of s.cfg payloads)

-- MAP payloads of at most 255 bytes that an active transport with an empty write queue is told to
-- send reach the peer: when the bytes of the sender's write queue come to a transport that is
-- neither stopped nor disconnected and has an empty decoder, its read handler hands exactly these
-- payloads to the proxy, in order, reads on, and returns with the rest of its state unchanged. The
-- sender's point codes and routing context have 32 bits, and its Global Titles are digits, 480 in
-- all at most.
pub read_done-send_all :
    (payloads : List Bytes) (s t : MapTransport)
    → is_active s ≡ true
    → IsUsable s.cfg
    → s.write_queue ≡ []
    → All (λ p. length p < 256) payloads
    → is_stopped t ≡ false
    → is_disconnected t ≡ false
    → t.decoder ≡ []
    → read_done (concat (send_all payloads s).write_queue) t ≡ record {
      outputs = deliveries payloads ++ read_started ∷ [];
      transport = t;
      ending = returned;
    }
unfolding concat
read_done-send_all payloads s t h usable none_waiting small going connected empty_decoder =
    ap (λ b. read_done b t)
      (send_all-frames_of payloads s h
        ∙ ap (λ q. concat q ++ frames_of s.cfg payloads) none_waiting)
    ∙ read_done-frames_of s.cfg payloads t usable small going connected empty_decoder
