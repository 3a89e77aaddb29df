-- ===== src/M3ua/Stream.antt =====
-- The stream decoder of transport/M3uaCodec.cpp: it ends, and it delivers encoded messages.
use gsup_map_proxy.Base.{
  ℕ, zero, suc, ◌+◌, ◌*◌, ◌^◌, ◌≤◌, ◌<◌, ◌≡◌, ◌≢◌, refl, sym, ap, ◌∙◌, some, List, [], ◌∷◌, ◌++◌,
  length, take, drop, ltb, if◌then◌else◌, append-nil, ok, stuck, arith, length-append, length-drop,
  take-append, drop-append, All, le→ltb_false, lt→ltb, runtime_error,
}
use gsup_map_proxy.Buffer.{Bytes}
use gsup_map_proxy.Framing.{Next, need_more, frame, thrown}
use gsup_map_proxy.Framing.Laws.{Takes, drain_all-ne-stuck_of}
use gsup_map_proxy.Framing.Delivery.{IsFramed, concat, wires, deliver-wires, deliver_blocked}
use gsup_map_proxy.M3ua.{M3uaMessage, max_m3ua_message_size}
use gsup_map_proxy.M3ua.Encode.{encode}
use gsup_map_proxy.M3ua.Decode.{decode, outcome, be32_at, next, drain_all, deliver}
use gsup_map_proxy.M3ua.Body.{Fits}
use gsup_map_proxy.M3ua.RoundTrip.{encoded, decode-encode_message}

decode_takes :
    (n : ℕ) (buf : Bytes) (f : M3uaMessage) → outcome (decode (take n buf)) ≡ frame f → 0 < n
unfolding decode
decode_takes zero buf f e = cc
decode_takes (suc n) buf f e = omega arith

-- A message takes bytes.
next-Takes : Takes next
unfolding next
next-Takes buf f e =
    ground (arith, decode_takes (be32_at buf 4) buf f, length-drop (be32_at buf 4) buf)

-- The loop `while (auto msg = decoder_.next())` ends on every buffer.
pub drain_all-ne-stuck : (buf : Bytes) → (drain_all buf).raised ≢ stuck
unfolding drain_all
drain_all-ne-stuck buf = drain_all-ne-stuck_of next next-Takes buf

-- A message that the encoder and the decoder both accept.
abbrev pub IsSendable : M3uaMessage → Type 0
IsSendable msg = Fits msg × (length (encode msg) ≤ max_m3ua_message_size)

-- What `next` does once a header has come, for the length `n` that it gives.
abbrev with_length : ℕ → Bytes → Next M3uaMessage × Bytes
with_length n buf =
    if ltb 65536 n
    then (thrown runtime_error, [])
    else if ltb (length buf) n
    then (need_more, buf)
    else (outcome (decode (take n buf)), drop n buf)

next-with_length :
    (v z k t a b c d n : ℕ) (r : Bytes)
    → a * 2 ^ 24 + b * 2 ^ 16 + c * 2 ^ 8 + d ≡ n
    → next (v ∷ z ∷ k ∷ t ∷ a ∷ b ∷ c ∷ d ∷ r) ≡ with_length n (v ∷ z ∷ k ∷ t ∷ a ∷ b ∷ c ∷ d ∷ r)
unfolding next
next-with_length v z k t a b c d n r e =
    rw e (rw (le→ltb_false (length (v ∷ z ∷ k ∷ t ∷ a ∷ b ∷ c ∷ d ∷ r)) 8 (omega arith)) refl)

with_length-encode :
    (msg : M3uaMessage) (rest : Bytes)
    → IsSendable msg
    → with_length (length (encode msg)) (encode msg ++ rest) ≡ (frame msg, rest)
with_length-encode msg rest h =
    let whole : decode (encode msg) ≡ ok (some msg) =
      ap decode (sym (append-nil (encode msg))) ∙ decode-encode_message msg [] h.0 in
    rw (le→ltb_false 65536 (length (encode msg)) h.1) (
      rw
        (le→ltb_false (length (encode msg ++ rest)) (length (encode msg))
          (omega (arith, length-append (encode msg) rest)))
        (rw (take-append (encode msg) rest, drop-append (encode msg) rest) (rw whole refl)))

pub next-encode :
    (msg : M3uaMessage) (rest : Bytes)
    → IsSendable msg
    → next (encode msg ++ rest) ≡ (frame msg, rest)
next-encode msg rest h =
    let e = encoded msg h.0 in
    ap (λ w. next (w ++ rest)) e.form
    ∙ next-with_length _ _ _ _ e.a e.b e.c e.d (length (encode msg)) (e.body ++ rest) e.total
    ∙ ap (λ w. with_length (length (encode msg)) (w ++ rest)) (sym e.form)
    ∙ with_length-encode msg rest h

-- The first bytes of a message are no message.
next_unfinished :
    (msg : M3uaMessage) (p q : Bytes)
    → IsSendable msg
    → p ++ q ≡ encode msg
    → length p < length (encode msg)
    → next p ≡ (need_more, p)
next_unfinished msg [] q h e shorter = unfold next in refl
next_unfinished msg (v ∷ []) q h e shorter = unfold next in refl
next_unfinished msg (v ∷ z ∷ []) q h e shorter = unfold next in refl
next_unfinished msg (v ∷ z ∷ k ∷ []) q h e shorter = unfold next in refl
next_unfinished msg (v ∷ z ∷ k ∷ t ∷ []) q h e shorter = unfold next in refl
next_unfinished msg (v ∷ z ∷ k ∷ t ∷ a ∷ []) q h e shorter = unfold next in refl
next_unfinished msg (v ∷ z ∷ k ∷ t ∷ a ∷ b ∷ []) q h e shorter = unfold next in refl
next_unfinished msg (v ∷ z ∷ k ∷ t ∷ a ∷ b ∷ c ∷ []) q h e shorter = unfold next in refl
next_unfinished msg (v ∷ z ∷ k ∷ t ∷ a ∷ b ∷ c ∷ d ∷ r) q h e shorter =
    let parts = encoded msg h.0 in
    let same = e ∙ parts.form in
    let ha : a ≡ parts.a = cc same in
    let hb : b ≡ parts.b = cc same in
    let hc : c ≡ parts.c = cc same in
    let hd : d ≡ parts.d = cc same in
    next-with_length v z k t a b c d (length (encode msg)) r (rw (ha, hb, hc, hd) parts.total)
    ∙ rw (le→ltb_false 65536 (length (encode msg)) h.1) (
        rw (lt→ltb (length (v ∷ z ∷ k ∷ t ∷ a ∷ b ∷ c ∷ d ∷ r)) (length (encode msg)) shorter) refl)

framed : IsFramed next IsSendable encode
framed = record {
  takes = next-Takes;
  whole = next-encode;
  unfinished = next_unfinished;
  waits_at_end = unfold next in refl;
}

-- The bytes of encoded messages, one behind another.
unfoldable pub encode_all : List M3uaMessage → Bytes
encode_all [] = []
encode_all (msg ∷ msgs) = encode msg ++ encode_all msgs

encode_all-wires : (msgs : List M3uaMessage) → encode_all msgs ≡ wires framed msgs
unfolding encode_all wires
encode_all-wires [] = refl
encode_all-wires (msg ∷ msgs) = ap (λ w. encode msg ++ w) (encode_all-wires msgs)

-- However an SCTP or TCP connection cuts the bytes of encoded messages into pieces, feeding the
-- pieces one by one and running the read loop after each gives all the messages in order, field by
-- field, without an exception, and leaves the buffer empty; the messages' numbers have the widths
-- of their fields, their values fit into their TLVs, and each message has at most 65536 bytes.
pub deliver-encode_messages :
    (msgs : List M3uaMessage) (pieces : List Bytes)
    → All IsSendable msgs
    → concat pieces ≡ encode_all msgs
    → deliver pieces ≡ record { frames = msgs; raised = ok tt; left = [] }
unfolding deliver
deliver-encode_messages msgs pieces h e =
    deliver-wires framed msgs pieces h (e ∙ encode_all-wires msgs)

zero_waits :
    (v z k t : ℕ) (r : Bytes)
    → let buf = v ∷ z ∷ k ∷ t ∷ 0 ∷ 0 ∷ 0 ∷ 0 ∷ r in next buf ≡ (need_more, buf)
unfolding decode
zero_waits v z k t r =
    let buf : Bytes = v ∷ z ∷ k ∷ t ∷ 0 ∷ 0 ∷ 0 ∷ 0 ∷ r in
    next-with_length v z k t 0 0 0 0 0 r refl ∙ rw (le→ltb_false (length buf) 0 (omega arith)) refl

-- A header whose length field is 0 blocks the decoder: when it stands at the front of the buffer,
-- the read loop delivers nothing and raises no exception, and no byte leaves the buffer, whatever
-- pieces come after it.
pub deliver_zero_length :
    (v z k t : ℕ) (r : Bytes) (pieces : List Bytes)
    → let first = v ∷ z ∷ k ∷ t ∷ 0 ∷ 0 ∷ 0 ∷ 0 ∷ r in
      deliver (first ∷ pieces)
      ≡ record { frames = []; raised = ok tt; left = concat (first ∷ pieces) }
unfolding deliver
deliver_zero_length v z k t r pieces =
    deliver_blocked next (v ∷ z ∷ k ∷ t ∷ 0 ∷ 0 ∷ 0 ∷ 0 ∷ r) pieces
      (λ more. zero_waits v z k t (r ++ more))
