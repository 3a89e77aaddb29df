-- ===== src/M3ua/Decode.antt =====
-- The decoder of transport/M3uaCodec.cpp. The reader of the loop over the TLVs is cut to the
-- message's body, so that the code's `bodyEnd - r.pos()` is the number of bytes that it has left.
use gsup_map_proxy.Base.{
  ℕ, zero, suc, ◌+◌, ◌-◌, ◌*◌, ◌^◌, true, false, ◌&&◌, not, Option, none, some, List, [], ◌++◌,
  length, take, drop, get_or, ltb, leb, ◌==◌, if◌then◌else◌, Result, ok, err, stuck, runtime_error,
  ◌>>=◌, map_ok,
}
use gsup_map_proxy.Buffer.{Bytes, remaining, read8, read_be16, read_be32, read_bytes}
use gsup_map_proxy.Framing
use gsup_map_proxy.Framing.{Next, need_more, frame, thrown, Drained}
use gsup_map_proxy.M3ua.{
  M3uaMessage, ProtocolData, version, tag_routing_ctx, tag_heartbeat_data, tag_protocol_data,
  common_header_size, max_m3ua_message_size,
}
use gsup_map_proxy.M3ua.Encode.{padding}

-- `(uint32_t(value[i]) << 24) | ... | uint32_t(value[i + 3])`: the four bytes share no bit.
abbrev pub be32_at : Bytes → ℕ → ℕ
be32_at b i =
    get_or b i 0 * 2 ^ 24
    + get_or b (i + 1) 0 * 2 ^ 16
    + get_or b (i + 2) 0 * 2 ^ 8
    + get_or b (i + 3) 0

unfoldable pub decode_protocol_data : Bytes → Result ProtocolData
decode_protocol_data value = if ltb (length value) 12 then err runtime_error else do
  (opc, pr) ← read_be32 value
  (dpc, pr) ← read_be32 pr
  (si, pr) ← read8 pr
  (ni, pr) ← read8 pr
  (mp, pr) ← read8 pr
  (sls, pr) ← read8 pr
  (user_data, pr) ← read_bytes (remaining pr) pr
  ok (record { opc = opc; dpc = dpc; si = si; ni = ni; mp = mp; sls = sls; user_data = user_data })

-- The `switch` on the tag.
unfoldable pub apply_tlv : M3uaMessage → ℕ → Bytes → Result M3uaMessage
apply_tlv msg tag value =
    if tag == tag_routing_ctx
    then ok (
        if leb 4 (length value)
        then record msg { routing_context = some (be32_at value 0) }
        else msg)
    else if tag == tag_heartbeat_data
    then ok (record msg { heartbeat_data = value })
    else if tag == tag_protocol_data
    then map_ok (λ pd. record msg { protocol_data = some pd }) (decode_protocol_data value)
    else ok msg

unfoldable pub skip_padding : ℕ → Bytes → Result Bytes
skip_padding pad r =
    if ltb 0 pad && leb pad (length r) then map_ok (λ p. p.1) (read_bytes pad r) else ok r

-- The loop's body.
unfoldable pub read_one : M3uaMessage → Bytes → Result (M3uaMessage × Bytes)
read_one msg r = do
  (tag, r) ← read_be16 r
  (len, r) ← read_be16 r
  let value_len = len - 4
  if ltb len 4
      then err runtime_error
      else if ltb (length r) value_len
      then err runtime_error
      else do
        (value, r) ← read_bytes value_len r
        r ← skip_padding (padding value_len) r
        msg' ← apply_tlv msg tag value
        ok (msg', r)

-- `while (r.pos() + 4 <= bodyEnd)`.
unfoldable pub read_tlvs : ℕ → M3uaMessage → Bytes → Result M3uaMessage
read_tlvs zero msg r = if leb 4 (length r) then stuck else ok msg
read_tlvs (suc fuel) msg r = elim (leb 4 (length r)) [
  | true ↦ read_one msg r >>= λ (msg', r'). read_tlvs fuel msg' r'
  | false ↦ ok msg
]

abbrev pub blank : ℕ → ℕ → M3uaMessage
blank msg_class msg_type = record {
  msg_class = msg_class;
  msg_type = msg_type;
  routing_context = none;
  protocol_data = none;
  heartbeat_data = [];
}

-- Each round takes four bytes at least, so as many rounds as there are bytes are enough.
unfoldable pub decode : Bytes → Result (Option M3uaMessage)
decode bytes = if ltb (length bytes) common_header_size then ok none else do
  (version_read, r) ← read8 bytes
  (reserved, r) ← read8 r
  (msg_class, r) ← read8 r
  (msg_type, r) ← read8 r
  (total_len, r) ← read_be32 r
  if not (version_read == version)
      then err runtime_error
      else if ltb total_len common_header_size
      then err runtime_error
      else if ltb (length bytes) total_len
      then ok none
      else let body = take (total_len - common_header_size) r in
        map_ok some (read_tlvs (length body) (blank msg_class msg_type) body)

-- The decoder's state is its buffer `buf_`.
unfoldable pub feed : Bytes → Bytes → Bytes
feed buf received = buf ++ received

-- What `return decode(msg)` comes to.
abbrev pub outcome : Result (Option M3uaMessage) → Next M3uaMessage
outcome (ok none) = need_more
outcome (ok (some msg)) = frame msg
outcome (err e) = thrown e
outcome stuck = need_more

unfoldable pub next : Bytes → Next M3uaMessage × Bytes
next buf =
    let total_len = be32_at buf 4 in
    if ltb (length buf) common_header_size
    then (need_more, buf)
    else if ltb max_m3ua_message_size total_len
    then (thrown runtime_error, [])
    else if ltb (length buf) total_len
    then (need_more, buf)
    else (outcome (decode (take total_len buf)), drop total_len buf)

-- A read loop's `while (auto msg = decoder_.next())`.
unfoldable pub drain_all : Bytes → Drained M3uaMessage
drain_all buf = Framing.drain_all next buf

-- The loop, run after each piece of a stream that comes in pieces.
unfoldable pub deliver : List Bytes → Drained M3uaMessage
deliver pieces = Framing.deliver next [] pieces
