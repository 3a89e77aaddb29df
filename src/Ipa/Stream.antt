-- ===== src/Ipa/Stream.antt =====
-- The decoder of ipa/IpaCodec.cpp on a byte stream: frames come out whole and in order, however TCP
-- cuts the stream up.
use gsup_map_proxy.Base.{
  ℕ, zero, suc, ◌+◌, ◌-◌, ◌*◌, ◌/◌, ◌%◌, ◌^◌, ◌<◌, ◌≡◌, ◌≢◌, refl, ap, ◌∙◌, inl, inr, List, [], ◌∷◌,
  ◌++◌, length, take, drop, get_or, ltb, ◌==◌, if◌then◌else◌, Error, Result, ok, err, stuck,
  runtime_error, ◌>>=◌, map_ok, arith, length-append, length-drop, take-append, drop-append,
  take_within, drop_within, All,
}
use gsup_map_proxy.Buffer.{Bytes}
use gsup_map_proxy.Framing.{Next, need_more, frame, thrown, Drained, cons_frame, append_frames}
use gsup_map_proxy.Framing.Laws
use gsup_map_proxy.Framing.Laws.{Next-cases, drain_all-ne-stuck_of}
use gsup_map_proxy.Framing.Delivery.{IsFramed, concat, wires, drain_all-wires, deliver-wires}
use gsup_map_proxy.Ipa.{IpaFrame, encode, next, feed, drain_all, deliver, max_ipa_wire_len}

-- The bytes of a frame, for a payload that the decoder accepts.
unfoldable pub wire : IpaFrame → Bytes
wire f = (length f.payload + 1) / 2 ^ 8 ∷ (length f.payload + 1) % 2 ^ 8 ∷ f.stream_id ∷ f.payload

abbrev pub IsShort : IpaFrame → Type 0
IsShort f = length f.payload < max_ipa_wire_len

pub encode-wire : (f : IpaFrame) → IsShort f → encode f.stream_id f.payload ≡ ok (wire f)
unfolding encode wire
encode-wire f h = ground arith

pub encode-ne-stuck : (stream_id : ℕ) (payload : Bytes) → encode stream_id payload ≢ stuck
unfolding encode
encode-ne-stuck stream_id payload = ground arith

-- What `next` does once the header `a b s` has come, for the wire length `wire_len`.
abbrev with_header : ℕ → Bytes → ℕ → Bytes → Next IpaFrame × Bytes
with_header wire_len buf s r =
    if wire_len == 0
    then (thrown runtime_error, buf)
    else if ltb max_ipa_wire_len wire_len
    then (thrown runtime_error, [])
    else if ltb (length r) (wire_len - 1)
    then (need_more, buf)
    else (frame (record { stream_id = s; payload = take (wire_len - 1) r }), drop (wire_len - 1) r)

size_of_frame : (k : ℕ) → 3 + suc k - 1 ≡ suc (suc (suc k))
size_of_frame k = omega arith

size_of_payload : (k : ℕ) → suc (suc (suc k)) - 3 ≡ k
size_of_payload k = omega arith

pred_suc : (k : ℕ) → suc k - 1 ≡ k
pred_suc k = omega arith

next-with_header :
    (wire_len a b s : ℕ) (r : Bytes)
    → a * 2 ^ 8 + b ≡ wire_len
    → next (a ∷ b ∷ s ∷ r) ≡ with_header wire_len (a ∷ b ∷ s ∷ r) s r
unfolding next
next-with_header zero a b s r e = ground arith
next-with_header (suc k) a b s r e =
    rw e (rw (size_of_frame k) (rw (size_of_payload k) (rw (pred_suc k) (ground arith))))

pub next-wire : (f : IpaFrame) (rest : Bytes) → IsShort f → next (wire f ++ rest) ≡ (frame f, rest)
unfolding wire
next-wire f rest h =
    next-with_header (suc (length f.payload)) _ _ f.stream_id (f.payload ++ rest) (omega arith)
    ∙ rw (pred_suc (length f.payload)) (
        ground (
          arith,
          take-append f.payload rest,
          drop-append f.payload rest,
          length-append f.payload rest,
        ))

-- A frame takes at least its header.
next_takes :
    (buf : Bytes) (f : IpaFrame) → (next buf).0 ≡ frame f → length (next buf).1 < length buf
unfolding next
next_takes buf f e =
    ground (arith, length-drop (3 + (get_or buf 0 0 * 2 ^ 8 + get_or buf 1 0) - 1) buf)

next_waits : (buf : Bytes) → (next buf).0 ≡ need_more → (next buf).1 ≡ buf
unfolding next
next_waits buf e = ground arith

-- A frame that has come whole is delivered whatever follows it, and what follows stays behind it.
next-append :
    (buf more : Bytes) (f : IpaFrame)
    → (next buf).0 ≡ frame f
    → ((next (buf ++ more)).0 ≡ frame f) × ((next (buf ++ more)).1 ≡ (next buf).1 ++ more)
next-append [] more f e = unfold next in cc
next-append (a ∷ []) more f e = unfold next in cc
next-append (a ∷ b ∷ []) more f e = unfold next in cc
next-append (a ∷ b ∷ s ∷ r) more f e =
    let n = a * 2 ^ 8 + b in
    ground (
      arith,
      next-with_header n a b s r refl,
      next-with_header n a b s (r ++ more) refl,
      take_within (n - 1) r more,
      drop_within (n - 1) r more,
      length-append r more,
    )

abbrev drained_with : List IpaFrame → Bytes → Drained IpaFrame
drained_with fs rest = record { frames = fs; raised = ok tt; left = rest }

drain_all_waits : (buf : Bytes) → (next buf).0 ≡ need_more → drain_all buf ≡ drained_with [] buf
unfolding drain_all
drain_all_waits buf e = Laws.drain_all_waits next buf e ∙ ap (drained_with []) (next_waits buf e)

drain_all_step :
    (buf : Bytes) (f : IpaFrame)
    → (next buf).0 ≡ frame f
    → drain_all buf ≡ cons_frame f (drain_all (next buf).1)
unfolding drain_all
drain_all_step buf f e = Laws.drain_all_step next next_takes buf f e

drain_all_throws :
    (buf : Bytes) (x : Error) → (next buf).0 ≡ thrown x → (drain_all buf).raised ≡ err x
unfolding drain_all
drain_all_throws buf x e = Laws.drain_all_throws next buf x e

-- By induction on a bound of the buffer's length.
drain_all-append_below :
    (n : ℕ) (buf more : Bytes)
    → length buf < n
    → (drain_all buf).raised ≡ ok tt
    → drain_all (buf ++ more)
      ≡ append_frames (drain_all buf).frames (drain_all ((drain_all buf).left ++ more))
drain_all-append_below zero buf more h good = absurd (omega arith)
drain_all-append_below (suc n) buf more h good = elim (Next-cases (next buf)) [
  | inl e ↦ rw (drain_all_waits buf e)
  | inr (inl (f, e)) ↦
      let (same, rest) = next-append buf more f e in
      let good' : (drain_all (next buf).1).raised ≡ ok tt = rw (drain_all_step buf f e) at good in
      rw (drain_all_step (buf ++ more) f same) (
        rw (drain_all_step buf f e) (
          rw rest (
            ap (cons_frame f) (
              drain_all-append_below n (next buf).1 more (omega (arith, next_takes buf f e))
                good'))))
  | inr (inr (x, e)) ↦ cc (drain_all_throws buf x e)
]

-- However a stream is cut in two, the frames are the same: when the loop has taken all the frames
-- of the bytes received so far, and none of them made the decoder throw, then feeding it more bytes
-- gives the frames, the exception and the buffer that all the bytes at once would have given.
drain_all-feed :
    (buf more : Bytes)
    → (drain_all buf).raised ≡ ok tt
    → drain_all (feed buf more)
      ≡ append_frames (drain_all buf).frames (drain_all (feed (drain_all buf).left more))
unfolding feed
drain_all-feed buf more good = drain_all-append_below (suc (length buf)) buf more (omega arith) good

-- The loop `while (auto frame = decoder_.next())` ends on every buffer.
drain_all-ne-stuck : (buf : Bytes) → (drain_all buf).raised ≢ stuck
unfolding drain_all
drain_all-ne-stuck buf = drain_all-ne-stuck_of next next_takes buf

-- The bytes that `encode` gives for a list of frames, one behind another.
unfoldable pub encode_all : List IpaFrame → Result Bytes
encode_all [] = ok []
encode_all (f ∷ fs) = do w ← encode f.stream_id f.payload; rest ← encode_all fs; ok (w ++ rest)

-- The first bytes of a frame are no frame.
next_unfinished :
    (f : IpaFrame) (p q : Bytes)
    → IsShort f
    → p ++ q ≡ wire f
    → length p < length (wire f)
    → next p ≡ (need_more, p)
unfolding wire
next_unfinished f [] q h e shorter = unfold next in refl
next_unfinished f (a ∷ []) q h e shorter = unfold next in refl
next_unfinished f (a ∷ b ∷ []) q h e shorter = unfold next in refl
next_unfinished f (a ∷ b ∷ s ∷ r) q h e shorter =
    let n = length f.payload + 1 in
    let high : a ≡ n / 2 ^ 8 = cc e in
    let low : b ≡ n % 2 ^ 8 = cc e in ground (arith, next-with_header n a b s r (omega arith))

framed : IsFramed next IsShort wire
framed = record {
  takes = next_takes;
  whole = next-wire;
  unfinished = next_unfinished;
  waits_at_end = unfold next in refl;
}

encode_all-wires : (fs : List IpaFrame) → All IsShort fs → encode_all fs ≡ ok (wires framed fs)
unfolding encode_all wires
encode_all-wires [] h = refl
encode_all-wires (f ∷ fs) h = rw (encode-wire f h.0) (rw (encode_all-wires fs h.1))

-- Frames with payloads of at most 4095 bytes, encoded one behind another and followed by the
-- beginning of a frame that has not come whole, are all encoded without an exception and delivered
-- in order, and the beginning stays in the buffer.
drain_all-encode_all :
    (fs : List IpaFrame) (rest : Bytes)
    → All IsShort fs
    → (next rest).0 ≡ need_more
    → map_ok (λ w. drain_all (w ++ rest)) (encode_all fs)
      ≡ ok (record { frames = fs; raised = ok tt; left = rest })
unfolding drain_all
drain_all-encode_all fs rest h e =
    rw (encode_all-wires fs h)
      (ap ok (drain_all-wires framed fs rest h e ∙ ap (drained_with fs) (next_waits rest e)))

-- However a TCP connection cuts the bytes of encoded frames with payloads of at most 4095 bytes
-- into pieces, feeding the pieces one by one and running the read loop after each gives all the
-- frames in order, without an exception, and leaves the buffer empty.
pub deliver-encode_all :
    (fs : List IpaFrame) (pieces : List Bytes)
    → All IsShort fs
    → encode_all fs ≡ ok (concat pieces)
    → deliver pieces ≡ record { frames = fs; raised = ok tt; left = [] }
unfolding deliver
deliver-encode_all fs pieces h e = deliver-wires framed fs pieces h (cc (e, encode_all-wires fs h))

encode_wraps :
    (stream_id : ℕ) (payload : Bytes)
    → length payload ≡ 0xffff
    → encode stream_id payload ≡ ok (0 ∷ 0 ∷ stream_id ∷ payload)
unfolding encode
encode_wraps stream_id payload h = rw h

-- A payload of 65535 bytes passes the size check of `encode`, and the length field of its frame
-- wraps to 0: both its bytes are 0. The decoder throws on the frame, whatever follows, and keeps it.
pub next-encode_wraps :
    (stream_id : ℕ) (payload rest : Bytes)
    → length payload ≡ 0xffff
    → (encode stream_id payload ≡ ok (0 ∷ 0 ∷ stream_id ∷ payload))
      × (map_ok (λ w. next (w ++ rest)) (encode stream_id payload)
          ≡ ok (thrown runtime_error, 0 ∷ 0 ∷ stream_id ∷ payload ++ rest))
next-encode_wraps stream_id payload rest h =
    let wrapped = encode_wraps stream_id payload h in
    (wrapped, rw wrapped (ap ok (next-with_header 0 0 0 stream_id (payload ++ rest) refl)))

-- A frame with a zero length field is never removed from the buffer: `next` throws and keeps the
-- buffer, so it throws again whatever bytes are fed later.
pub next_zero_length :
    (stream_id : ℕ) (r more : Bytes)
    → (next (0 ∷ 0 ∷ stream_id ∷ r) ≡ (thrown runtime_error, 0 ∷ 0 ∷ stream_id ∷ r))
      × ((next (feed (next (0 ∷ 0 ∷ stream_id ∷ r)).1 more)).0 ≡ thrown runtime_error)
unfolding feed
next_zero_length stream_id r more =
    let zero_header = λ (q : Bytes). next-with_header 0 0 0 stream_id q refl in
    (zero_header r, rw (zero_header r) (ap (λ p. p.0) (zero_header (r ++ more))))
