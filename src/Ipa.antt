-- ===== src/Ipa.antt =====
-- ipa/IpaFrame.hpp and ipa/IpaCodec.cpp: IPA frames and the decoder that cuts a TCP stream into
-- them.
pub mod Stream
use gsup_map_proxy.Base.{
  ℕ, zero, suc, ◌+◌, ◌-◌, ◌*◌, ◌/◌, ◌^◌, List, [], ◌∷◌, ◌++◌, length, take, drop, get_or, ltb, ◌==◌,
  if◌then◌else◌, Error, Result, ok, err, stuck, runtime_error, invalid_argument,
}
use gsup_map_proxy.Buffer.{Bytes, uint8, uint16}
use gsup_map_proxy.Framing
use gsup_map_proxy.Framing.{Next, need_more, frame, thrown, Drained}

abbrev pub stream_gsup : ℕ
stream_gsup = 0xee

abbrev pub stream_ccm : ℕ
stream_ccm = 0xfe

abbrev pub ccm_ping : ℕ
ccm_ping = 0x00

abbrev pub ccm_pong : ℕ
ccm_pong = 0x01

abbrev pub ccm_id_req : ℕ
ccm_id_req = 0x04

abbrev pub ccm_id_resp : ℕ
ccm_id_resp = 0x05

abbrev pub ccm_id_ack : ℕ
ccm_id_ack = 0x06

abbrev pub header_size : ℕ
header_size = 3

abbrev pub max_ipa_wire_len : ℕ
max_ipa_wire_len = 4096

pub record IpaFrame : Type 0 where
  pub stream_id : ℕ
  pub payload : Bytes

-- The length field covers the payload and the stream byte.
unfoldable pub encode : ℕ → Bytes → Result Bytes
encode stream_id payload =
    let wire_len = uint16 (length payload + 1) in
    if ltb 0xffff (length payload)
    then err invalid_argument
    else ok (uint8 (wire_len / 2 ^ 8) ∷ uint8 wire_len ∷ stream_id ∷ payload)

-- The decoder's state is its buffer `buf_`.
unfoldable pub feed : Bytes → Bytes → Bytes
feed buf received = buf ++ received

unfoldable pub next : Bytes → Next IpaFrame × Bytes
next buf =
    let wire_len = get_or buf 0 0 * 2 ^ 8 + get_or buf 1 0 in
    let total_size = header_size + wire_len - 1 in
    if ltb (length buf) header_size
    then (need_more, buf)
    else if wire_len == 0
    then (thrown runtime_error, buf)
    else if ltb max_ipa_wire_len wire_len
    then (thrown runtime_error, [])
    else if ltb (length buf) total_size
    then (need_more, buf)
    else (
      frame (record {
        stream_id = get_or buf 2 0;
        payload = take (total_size - header_size) (drop header_size buf);
      }),
      drop total_size buf,
    )

-- A read loop's `while (auto frame = decoder_.next())`.
unfoldable pub drain_all : Bytes → Drained IpaFrame
drain_all buf = Framing.drain_all next buf

-- The loop, run after each piece of a stream that comes in pieces.
unfoldable pub deliver : List Bytes → Drained IpaFrame
deliver pieces = Framing.deliver next [] pieces
