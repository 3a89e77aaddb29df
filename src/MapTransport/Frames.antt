-- ===== src/MapTransport/Frames.antt =====
-- The M3UA messages that carry MAP payloads, and what the read handler of the peer makes of them.
use gsup_map_proxy.Base.{
  ℕ, zero, suc, ◌+◌, ◌^◌, ◌≤◌, ◌<◌, ◌≡◌, refl, sym, ap, ◌∙◌, true, false, List, [], ◌∷◌, ◌++◌, All,
  length, arith, length-append,
}
use gsup_map_proxy.Buffer.{Bytes}
use gsup_map_proxy.Bcd.RoundTrip.{IsDigit}
use gsup_map_proxy.Framing.{Next, frame, need_more, thrown}
use gsup_map_proxy.M3ua.{M3uaMessage, make_data, si_sccp, ni_international}
use gsup_map_proxy.M3ua.Encode.{encode}
use gsup_map_proxy.M3ua.Decode.{next, feed}
use gsup_map_proxy.M3ua.Body.{FitsContext, length-body_of_data}
use gsup_map_proxy.M3ua.RoundTrip.{length-encode}
use gsup_map_proxy.M3ua.Stream.{IsSendable, next-encode}
use gsup_map_proxy.Sccp.{SccpUdt, make_gt_address}
use gsup_map_proxy.Sccp.Encode.{encode_udt}
use gsup_map_proxy.Sccp.Decode.{value}
use gsup_map_proxy.Sccp.Address.{make_gt_address-IsGtAddress}
use gsup_map_proxy.Sccp.RoundTrip.{IsGtUdt, decode_udt-encode_udt, length-encode_udt}
use gsup_map_proxy.MapTransport.{
  MapTransport, MapTransportConfig, Output, delivered, read_started, udt_of, data_message,
  is_stopped, is_disconnected,
}
use gsup_map_proxy.MapTransport.Receive.{
  Handled, returned, threw, prepend, go_on, read_on, receive_data, process_data, process_message,
  process_messages, read_done,
}

-- A configuration whose messages reach the peer: point codes and routing context have 32 bits, and
-- the Global Titles are digits, 480 in all at most.
pub record IsUsable (cfg : MapTransportConfig) : Type 0 where
  pub opc_small : cfg.opc < 2 ^ 32
  pub dpc_small : cfg.dpc < 2 ^ 32
  pub context_small : FitsContext cfg.routing_context
  pub hlr_digits : All IsDigit cfg.hlr_gt
  pub local_digits : All IsDigit cfg.local_gt
  pub short : length cfg.hlr_gt + length cfg.local_gt ≤ 480

udt_of-IsGtUdt :
    (cfg : MapTransportConfig) (payload : Bytes) → IsUsable cfg → IsGtUdt (udt_of cfg payload)
unfolding udt_of make_gt_address
udt_of-IsGtUdt cfg payload h = record {
  called = make_gt_address-IsGtAddress cfg.hlr_gt cfg.hlr_ssn true h.hlr_digits;
  calling = make_gt_address-IsGtAddress cfg.local_gt cfg.local_ssn true h.local_digits;
  short = h.short;
}

data_message-IsSendable :
    (cfg : MapTransportConfig) (payload : Bytes)
    → IsUsable cfg
    → length payload < 256
    → IsSendable (data_message cfg payload)
unfolding data_message make_data udt_of
data_message-IsSendable cfg payload h small =
    let u = udt_of cfg payload in
    let bound = length-encode_udt u (udt_of-IsGtUdt cfg payload h) in
    let carried =
      length-body_of_data
        (record {
          opc = cfg.opc;
          dpc = cfg.dpc;
          si = si_sccp;
          ni = ni_international;
          mp = 0;
          sls = 0;
          user_data = encode_udt u;
        })
        cfg.routing_context in
    let same : length u.pdu ≡ length payload = refl in
    (
      record {
        context = h.context_small;
        heartbeat = omega arith;
        protocol = (h.opc_small, h.dpc_small, omega arith);
      },
      omega (arith, length-encode (data_message cfg payload)),
    )

-- The bytes that a payload is sent as.
unfoldable pub frame_of : MapTransportConfig → Bytes → Bytes
frame_of cfg payload = encode (data_message cfg payload)

receive_data-encode_udt :
    (u : SccpUdt) (t : MapTransport)
    → IsGtUdt u
    → length u.pdu < 256
    → receive_data (encode_udt u) t ≡ value (delivered u.pdu ∷ [], t)
unfolding receive_data
receive_data-encode_udt u t h small = rw (decode_udt-encode_udt u h small, receive_data) refl

pdu_of : (cfg : MapTransportConfig) (payload : Bytes) → (udt_of cfg payload).pdu ≡ payload
unfolding udt_of
pdu_of cfg payload = refl

small_pdu :
    (cfg : MapTransportConfig) (payload : Bytes)
    → length payload < 256
    → length (udt_of cfg payload).pdu < 256
unfolding udt_of
small_pdu cfg payload h = h

-- A message with a payload for the proxy.
process_message-data_message :
    (cfg : MapTransportConfig) (payload : Bytes) (t : MapTransport)
    → IsUsable cfg
    → length payload < 256
    → process_message (data_message cfg payload) t ≡ value (delivered payload ∷ [], t)
unfolding process_message process_data data_message make_data
process_message-data_message cfg payload t h small =
    receive_data-encode_udt (udt_of cfg payload) t (udt_of-IsGtUdt cfg payload h)
      (small_pdu cfg payload small)
    ∙ ap (λ p. value (delivered p ∷ [], t)) (pdu_of cfg payload)

process_messages_step :
    (fuel : ℕ) (t : MapTransport) {msg : M3uaMessage} {rest : Bytes}
    → next t.decoder ≡ (frame msg, rest)
    → process_messages (suc fuel) t
      ≡ go_on
          (process_message msg (record t { decoder = rest }))
          (record t { decoder = rest })
          (λ t'. process_messages fuel t')
unfolding process_messages
process_messages_step fuel t e =
    ap
      (λ (p : Next M3uaMessage × Bytes).
        let rest = record t { decoder = p.1 } in
        elim (p.0) as (λ n. Handled) [
          | need_more ↦ record { outputs = []; transport = rest; ending = returned }
          | frame msg ↦ go_on (process_message msg rest) rest (λ t'. process_messages fuel t')
          | thrown e ↦ record { outputs = []; transport = rest; ending = threw e }
        ])
      e

unfoldable pub frames_of : MapTransportConfig → List Bytes → Bytes
frames_of cfg [] = []
frames_of cfg (payload ∷ payloads) = frame_of cfg payload ++ frames_of cfg payloads

-- What the proxy is handed.
unfoldable pub deliveries : List Bytes → List Output
deliveries [] = []
deliveries (payload ∷ payloads) = delivered payload ∷ deliveries payloads

module _ (cfg : MapTransportConfig) (usable : IsUsable cfg) where
  process_messages-frames_of :
      (fuel : ℕ) (t : MapTransport) (payloads : List Bytes)
      → length payloads < fuel
      → All (λ p. length p < 256) payloads
      → process_messages fuel (record t { decoder = frames_of cfg payloads }) ≡ record {
        outputs = deliveries payloads;
        transport = record t { decoder = [] };
        ending = returned;
      }
  unfolding process_messages frames_of deliveries frame_of
  process_messages-frames_of zero t payloads h small = absurd (omega arith)
  process_messages-frames_of (suc fuel) t [] h small = unfold next in refl
  process_messages-frames_of (suc fuel) t (payload ∷ payloads) h small =
      let one =
        next-encode (data_message cfg payload) (frames_of cfg payloads)
          (data_message-IsSendable cfg payload usable small.0) in
      let rest = record t { decoder = frames_of cfg payloads } in
      process_messages_step fuel (record t { decoder = frames_of cfg (payload ∷ payloads) }) one
      ∙ ap (λ o. go_on o rest (λ t'. process_messages fuel t'))
          (process_message-data_message cfg payload rest usable small.0)
      ∙ ap (prepend (delivered payload ∷ []))
          (process_messages-frames_of fuel t payloads (omega arith) small.1)

length-frames_of :
    (cfg : MapTransportConfig) (payloads : List Bytes)
    → length payloads ≤ length (frames_of cfg payloads)
unfolding frames_of frame_of
length-frames_of cfg [] = omega arith
length-frames_of cfg (payload ∷ payloads) = omega (
  arith,
  length-frames_of cfg payloads,
  length-encode (data_message cfg payload),
  length-append (frame_of cfg payload) (frames_of cfg payloads),
)

pub read_done-frames_of :
    (cfg : MapTransportConfig) (payloads : List Bytes) (t : MapTransport)
    → IsUsable cfg
    → All (λ p. length p < 256) payloads
    → is_stopped t ≡ false
    → is_disconnected t ≡ false
    → t.decoder ≡ []
    → read_done (frames_of cfg payloads) t ≡ record {
      outputs = deliveries payloads ++ read_started ∷ [];
      transport = t;
      ending = returned;
    }
unfolding read_done feed
read_done-frames_of cfg payloads t usable small going connected empty_decoder =
    let b = frames_of cfg payloads in
    ap (λ d. read_on (process_messages (suc (length (d ++ b))) (record t { decoder = d ++ b })))
      empty_decoder
    ∙ ap read_on (
        process_messages-frames_of cfg usable (suc (length b)) t payloads
          (omega (arith, length-frames_of cfg payloads)) small)
    ∙ ap
        (λ d. read_on (record {
          outputs = deliveries payloads;
          transport = record t { decoder = d };
          ending = returned;
        }))
        (sym empty_decoder)
    ∙ rw (going, connected) refl
