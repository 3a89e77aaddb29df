-- ===== src/IpaSession/Delivery.antt =====
-- GSUP messages that come to a ready session.
use gsup_map_proxy.Base.{
  ℕ, zero, suc, ◌≤◌, ◌<◌, ◌≡◌, refl, sym, ap, ◌∙◌, Bool, true, List, [], ◌∷◌, ◌++◌, All, length, ok,
  err, arith, length-append,
}
use gsup_map_proxy.Buffer.{Bytes}
use gsup_map_proxy.Framing.{Next, need_more, frame, thrown}
use gsup_map_proxy.Ipa.{IpaFrame, stream_gsup, next, feed, max_ipa_wire_len}
use gsup_map_proxy.Ipa.Stream.{wire, next-wire, encode_all, encode-wire}
use gsup_map_proxy.IpaSession.{
  IpaSession, Output, Handled, on_gsup, read_started, is_ready, process_frame, process_frames,
  go_on, prepend, read_on, read_done, ready, handshaking, stopped, State,
}

abbrev pub gsup_frame : Bytes → IpaFrame
gsup_frame payload = record { stream_id = stream_gsup; payload = payload }

unfoldable pub gsup_frames : List Bytes → List IpaFrame
gsup_frames [] = []
gsup_frames (payload ∷ payloads) = gsup_frame payload ∷ gsup_frames payloads

-- What the server is handed.
unfoldable pub deliveries : List Bytes → List Output
deliveries [] = []
deliveries (payload ∷ payloads) = on_gsup payload ∷ deliveries payloads

bytes_of : List Bytes → Bytes
bytes_of [] = []
bytes_of (payload ∷ payloads) = wire (gsup_frame payload) ++ bytes_of payloads

process_frames_step :
    (fuel : ℕ) (s : IpaSession) {f : IpaFrame} {rest : Bytes}
    → next s.decoder ≡ (frame f, rest)
    → process_frames (suc fuel) s
      ≡ go_on
          (process_frame f (record s { decoder = rest }))
          (record s { decoder = rest })
          (λ s'. process_frames fuel s')
unfolding process_frames
process_frames_step fuel s e =
    ap
      (λ (p : Next IpaFrame × Bytes).
        let rest = record s { decoder = p.1 } in
        elim (p.0) as (λ n. Handled) [
          | need_more ↦ record { outputs = []; session = rest; raised = ok tt }
          | frame f ↦ go_on (process_frame f rest) rest (λ s'. process_frames fuel s')
          | thrown e ↦ record { outputs = []; session = rest; raised = err e }
        ])
      e

process_frame-gsup_frame :
    (payload : Bytes) (s : IpaSession)
    → is_ready s ≡ true
    → process_frame (gsup_frame payload) s ≡ ok (on_gsup payload ∷ [], s)
unfolding process_frame
process_frame-gsup_frame payload s h = rw h refl

is_ready-decoder : (s : IpaSession) (d : Bytes) → is_ready (record s { decoder = d }) ≡ is_ready s
unfolding is_ready
is_ready-decoder s d = refl

process_frames-bytes_of :
    (fuel : ℕ) (s : IpaSession) (payloads : List Bytes)
    → length payloads < fuel
    → is_ready s ≡ true
    → All (λ p. length p < max_ipa_wire_len) payloads
    → process_frames fuel (record s { decoder = bytes_of payloads }) ≡ record {
      outputs = deliveries payloads;
      session = record s { decoder = [] };
      raised = ok tt;
    }
unfolding process_frames bytes_of deliveries
process_frames-bytes_of zero s payloads room h small = absurd (omega arith)
process_frames-bytes_of (suc fuel) s [] room h small = unfold next in refl
process_frames-bytes_of (suc fuel) s (payload ∷ payloads) room h small =
    let rest = record s { decoder = bytes_of payloads } in
    process_frames_step fuel (record s { decoder = bytes_of (payload ∷ payloads) })
      (next-wire (gsup_frame payload) (bytes_of payloads) small.0)
    ∙ ap (λ o. go_on o rest (λ s'. process_frames fuel s'))
        (process_frame-gsup_frame payload rest (is_ready-decoder s (bytes_of payloads) ∙ h))
    ∙ ap (prepend (on_gsup payload ∷ []))
        (process_frames-bytes_of fuel s payloads (omega arith) h small.1)

length-bytes_of : (payloads : List Bytes) → length payloads ≤ length (bytes_of payloads)
unfolding bytes_of wire
length-bytes_of [] = omega arith
length-bytes_of (payload ∷ payloads) =
    omega (arith, length-bytes_of payloads, length-append payload (bytes_of payloads))

encode_all-gsup_frames :
    (payloads : List Bytes)
    → All (λ p. length p < max_ipa_wire_len) payloads
    → encode_all (gsup_frames payloads) ≡ ok (bytes_of payloads)
unfolding encode_all gsup_frames bytes_of
encode_all-gsup_frames [] h = refl
encode_all-gsup_frames (payload ∷ payloads) h =
    rw (encode-wire (gsup_frame payload) h.0) (rw (encode_all-gsup_frames payloads h.1))

read_on_fields :
    (out : List Output) (d : Bytes) (st : State) (q : List Bytes) (w : Bool)
    → let s : IpaSession = record { decoder = d; state = st; write_queue = q; writing = w } in
      is_ready s ≡ true
      → read_on (record { outputs = out; session = s; raised = ok tt })
        ≡ record { outputs = out ++ read_started ∷ []; session = s; raised = ok tt }
unfolding is_ready
read_on_fields out d handshaking q w h = cc h
read_on_fields out d ready q w h = refl
read_on_fields out d stopped q w h = cc h

-- A ready session with an empty decoder that receives the encoded frames of GSUP messages, each of
-- at most 4095 bytes, hands exactly these messages to the server, in order, reads on, and returns
-- without an exception and with its state unchanged.
pub read_done-encode_all :
    (payloads : List Bytes) (bytes : Bytes) (s : IpaSession)
    → encode_all (gsup_frames payloads) ≡ ok bytes
    → is_ready s ≡ true
    → s.decoder ≡ []
    → All (λ p. length p < max_ipa_wire_len) payloads
    → read_done bytes s
      ≡ record { outputs = deliveries payloads ++ read_started ∷ []; session = s; raised = ok tt }
unfolding read_done feed
read_done-encode_all payloads bytes s e h empty_decoder small =
    let b = bytes_of payloads in
    let same : bytes ≡ b = cc (e, encode_all-gsup_frames payloads small) in
    ap (λ c. read_done c s) same
    ∙ ap (λ d. read_on (process_frames (suc (length (d ++ b))) (record s { decoder = d ++ b })))
        empty_decoder
    ∙ ap read_on (
        process_frames-bytes_of (suc (length b)) s payloads
          (omega (arith, length-bytes_of payloads)) h small)
    ∙ ap
        (λ d. read_on (record {
          outputs = deliveries payloads;
          session = record s { decoder = d };
          raised = ok tt;
        }))
        (sym empty_decoder)
    ∙ read_on_fields (deliveries payloads) s.decoder s.state s.write_queue s.writing h
