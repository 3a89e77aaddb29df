-- ===== src/Examples/Transport.antt =====
-- Examples for the M3UA and SCCP codecs.
use gsup_map_proxy.Base.{
  ◌≡◌, refl, true, false, none, some, List, [], ◌∷◌, ◌++◌, ◌+◌, ◌<◌, ok, arith, length, take, ◌%◌,
  replicate,
}
use gsup_map_proxy.Buffer.{Bytes, write8, write_be32, write_bytes, write_be16}
use gsup_map_proxy.Framing.Delivery.{concat}
use gsup_map_proxy.M3ua.{M3uaMessage}
use gsup_map_proxy.M3ua.Encode.{
  encode, write_routing_context, write_heartbeat_data, write_protocol_data, write_tlv,
}
use gsup_map_proxy.M3ua.Decode.{decode, deliver}
use gsup_map_proxy.M3ua.Body.{Fits}
use gsup_map_proxy.M3ua.RoundTrip.{decode-encode_message}
use gsup_map_proxy.M3ua.Stream.{
  IsSendable, encode_all, deliver-encode_messages, deliver_zero_length,
}
use gsup_map_proxy.Sccp.{SccpUdt, make_gt_address}
use gsup_map_proxy.Sccp.Encode.{
  encode_address, encode_gt_address, write_ssn, np_es, nai_raw, encode_udt,
}
use gsup_map_proxy.Bcd.{pack, pack_byte}
use gsup_map_proxy.Sccp.Decode.{decode_udt, value, undefined}
use gsup_map_proxy.Sccp.Address.{make_gt_address-IsGtAddress, encode_address_plus}
use gsup_map_proxy.Sccp.RoundTrip.{
  IsGtUdt, decode_udt-encode_udt, decode_udt-encode_udt_wraps, decode_udt-truncated,
}

abbrev data_message : M3uaMessage
data_message = record {
  msg_class = 1;
  msg_type = 1;
  routing_context = some 100;
  protocol_data = some (record {
    opc = 1;
    dpc = 2;
    si = 3;
    ni = 0;
    mp = 0;
    sls = 0;
    user_data = 9 ∷ 0 ∷ 3 ∷ 14 ∷ 20 ∷ [];
  });
  heartbeat_data = [];
}

data_message-Fits : Fits data_message
data_message-Fits = record {
  context = omega arith;
  heartbeat = omega arith;
  protocol = (omega arith, omega arith, omega arith);
}

decode-encode_message_example : decode (encode data_message ++ 7 ∷ []) ≡ ok (some data_message)
decode-encode_message_example = decode-encode_message data_message (7 ∷ []) data_message-Fits

abbrev beat : M3uaMessage
beat = record {
  msg_class = 3;
  msg_type = 5;
  routing_context = none;
  protocol_data = none;
  heartbeat_data = 5 ∷ [];
}

beat-IsSendable : IsSendable beat
unfolding encode write_routing_context write_heartbeat_data write_protocol_data write_tlv write8
    write_be16 write_be32 write_bytes replicate
beat-IsSendable = (record { context = tt; heartbeat = omega arith; protocol = tt }, omega arith)

-- A heartbeat of 16 bytes, cut into three pieces, and another.
abbrev pieces : List Bytes
pieces =
    (1 ∷ 0 ∷ 3 ∷ [])
    ∷ (5 ∷ 0 ∷ 0 ∷ 0 ∷ 16 ∷ 0 ∷ 9 ∷ 0 ∷ 5 ∷ 5 ∷ [])
    ∷ (0 ∷ 0 ∷ 0 ∷ 1 ∷ 0 ∷ 3 ∷ 5 ∷ 0 ∷ 0 ∷ 0 ∷ 16 ∷ 0 ∷ 9 ∷ 0 ∷ 5 ∷ 5 ∷ 0 ∷ 0 ∷ 0 ∷ [])
    ∷ []

pieces_of_beats : concat pieces ≡ encode_all (beat ∷ beat ∷ [])
unfolding concat encode_all encode write_routing_context write_heartbeat_data write_protocol_data
    write_tlv write8 write_be16 write_be32 write_bytes replicate
pieces_of_beats = refl

deliver-encode_messages_example :
    deliver pieces ≡ record { frames = beat ∷ beat ∷ []; raised = ok tt; left = [] }
deliver-encode_messages_example =
    deliver-encode_messages (beat ∷ beat ∷ []) pieces (beat-IsSendable, (beat-IsSendable, tt))
      pieces_of_beats

deliver_zero_length_example : deliver ((1 ∷ 0 ∷ 3 ∷ 5 ∷ 0 ∷ 0 ∷ 0 ∷ 0 ∷ []) ∷ pieces) ≡ record {
  frames = [];
  raised = ok tt;
  left = concat ((1 ∷ 0 ∷ 3 ∷ 5 ∷ 0 ∷ 0 ∷ 0 ∷ 0 ∷ []) ∷ pieces);
}
deliver_zero_length_example = deliver_zero_length 1 0 3 5 [] pieces

-- From the Global Title 491 with a subsystem number to 4916 without one.
abbrev udt : Bytes → SccpUdt
udt pdu = record {
  protocol_class = 0;
  called_party = make_gt_address (b'4' ∷ b'9' ∷ b'1' ∷ b'6' ∷ []) 0 false;
  calling_party = make_gt_address (b'4' ∷ b'9' ∷ b'1' ∷ []) 8 true;
  pdu = pdu;
}

udt-IsGtUdt : (pdu : Bytes) → IsGtUdt (udt pdu)
unfolding make_gt_address
udt-IsGtUdt pdu = record {
  called = make_gt_address-IsGtAddress (b'4' ∷ b'9' ∷ b'1' ∷ b'6' ∷ []) 0 false (omega arith);
  calling = make_gt_address-IsGtAddress (b'4' ∷ b'9' ∷ b'1' ∷ []) 8 true (omega arith);
  short = omega arith;
}

decode_udt-encode_udt_example :
    decode_udt (encode_udt (udt (0x62 ∷ 0x02 ∷ []))) ≡ value (udt (0x62 ∷ 0x02 ∷ []))
decode_udt-encode_udt_example =
    decode_udt-encode_udt (udt (0x62 ∷ 0x02 ∷ [])) (udt-IsGtUdt (0x62 ∷ 0x02 ∷ [])) (omega arith)

abbrev long_pdu : Bytes
long_pdu = replicate 256 1

-- 256 bytes of data are lost.
decode_udt-encode_udt_wraps_example :
    decode_udt (encode_udt (udt long_pdu))
    ≡ value (record (udt long_pdu) { pdu = take (length long_pdu % 256) long_pdu })
decode_udt-encode_udt_wraps_example =
    decode_udt-encode_udt_wraps (udt long_pdu) (udt-IsGtUdt long_pdu)

abbrev cut_udt : Bytes
cut_udt = 9 ∷ 0 ∷ 3 ∷ 9 ∷ 16 ∷ 6 ∷ 0x40 ∷ []

abbrev lost_udt : Bytes
lost_udt = 0 ∷ 0x12 ∷ 4 ∷ 0x94 ∷ 0x61 ∷ 7 ∷ 0x48 ∷ 8 ∷ 0 ∷ 0x11 ∷ 0x84 ∷ 0x94 ∷ 0xf1 ∷ 1 ∷ 7 ∷ []

cut_of_udt : cut_udt ++ lost_udt ≡ encode_udt (udt (7 ∷ []))
unfolding encode_udt encode_address encode_gt_address write_ssn make_gt_address np_es nai_raw pack
    pack_byte write8 write_bytes
cut_of_udt = refl

cut_inside : length cut_udt < 6 + length (encode_address (udt (7 ∷ [])).called_party)
unfolding encode_address encode_gt_address write_ssn make_gt_address np_es nai_raw pack pack_byte
    write8 write_bytes
cut_inside = omega arith

decode_udt-truncated_example : decode_udt cut_udt ≡ undefined
decode_udt-truncated_example =
    decode_udt-truncated (udt (7 ∷ [])) cut_udt lost_udt (udt-IsGtUdt (7 ∷ [])) cut_of_udt
      (omega arith) cut_inside

-- The Global Titles +49161 and +59161.
encode_address_plus_example :
    encode_address (make_gt_address (b'+' ∷ b'4' ∷ b'9' ∷ b'1' ∷ b'6' ∷ b'1' ∷ []) 6 true)
    ≡ encode_address (make_gt_address (b'+' ∷ b'5' ∷ b'9' ∷ b'1' ∷ b'6' ∷ b'1' ∷ []) 6 true)
encode_address_plus_example =
    encode_address_plus b'4' b'5' (b'9' ∷ b'1' ∷ b'6' ∷ b'1' ∷ []) 6 true (omega arith)
      (omega arith)
