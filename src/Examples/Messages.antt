-- ===== src/Examples/Messages.antt =====
-- Examples for GSUP and MAP messages and the conversions between them.
use gsup_map_proxy.Base.{
  ◌+◌, ◌≡◌, ◌≢◌, refl, true, [], ◌∷◌, ◌++◌, some, if◌then◌else◌, ok, err, stuck, ◌>>=◌, map_ok,
  out_of_range, conversion_error, arith,
}
use gsup_map_proxy.Buffer.Loop.{until_empty}
use gsup_map_proxy.Buffer.{Bytes, write8, write_bytes}
use gsup_map_proxy.Bcd.{pack, Text}
use gsup_map_proxy.Gsup
use gsup_map_proxy.Gsup.{AuthTuple, PdpInfo, GsupMessage}
use gsup_map_proxy.Gsup.IeTag
use gsup_map_proxy.Gsup.MessageType
use gsup_map_proxy.Gsup.Decode.{decode_round}
use gsup_map_proxy.Gsup.Total.{decode-ne-stuck}
use gsup_map_proxy.Gsup.Elements.{ie}
use gsup_map_proxy.Gsup.RoundTrip.{IsEncodable, decode-encode}
use gsup_map_proxy.Gsup.Tuple.{TupleFits, auth_fields}
use gsup_map_proxy.Gsup.Pdp.{PdpFits, pdp_fields}
use gsup_map_proxy.Gsup.Lenient.{loop_unknown, decode_cause_zero_length}
use gsup_map_proxy.Map
use gsup_map_proxy.Map.{MapMessage, return_result, return_error}
use gsup_map_proxy.Map.MapOperation
use gsup_map_proxy.Map.Total.{decode-ne_stuck}
use gsup_map_proxy.Converter.{
  map_invoke_to_gsup, gsup_to_map_result, is_hlr_initiated_gsup_type, expected_gsup_result,
  expected_gsup_error,
}
use gsup_map_proxy.Converter.Laws.{
  answered_type, answered_type-expected, reply_of, reply_of-map_invoke_to_gsup, header_of,
  gsup_to_map_result-is_hlr_initiated,
}

-- "26201".
abbrev pub some_imsi : Text
some_imsi = 50 ∷ 54 ∷ 50 ∷ 48 ∷ 49 ∷ []

abbrev triplet : AuthTuple
triplet = record Gsup.new_auth_tuple { rand = 1 ∷ 2 ∷ []; sres = 3 ∷ []; kc = 4 ∷ [] }

abbrev context : PdpInfo
context = record Gsup.new_pdp_info { context_id = 1; pdp_type = some 0xf121; apn = some (110 ∷ []) }

abbrev full_message : GsupMessage
full_message = record Gsup.new_message {
  type = MessageType.send_auth_info_result;
  imsi = some_imsi;
  auth_tuples = triplet ∷ triplet ∷ [];
  pdp_info_list = context ∷ [];
  cause = some 7;
  freeze_ptmsi = true;
}

triplet_fits : TupleFits triplet
unfolding auth_fields
triplet_fits = record {
  rand_fits = omega arith;
  sres_fits = omega arith;
  kc_fits = omega arith;
  ik_fits = tt;
  ck_fits = tt;
  autn_fits = tt;
  res_fits = tt;
  whole_fits = omega arith;
}

context_fits : PdpFits context
unfolding pdp_fields Gsup.Encode.pdp_type_bytes
context_fits = record {
  type_fits = omega arith;
  apn_fits = omega arith;
  address_fits = tt;
  qos_fits = tt;
  whole_fits = omega arith;
}

full_message-IsEncodable : IsEncodable full_message
full_message-IsEncodable = record {
  imsi_valid = omega arith;
  tuples_fit = (triplet_fits, (triplet_fits, tt));
  msisdn_fits = tt;
  hlr_number_fits = tt;
  pdps_fit = (context_fits, tt);
  no_result_flag = refl;
}

decode-encode_example : (Gsup.Encode.encode full_message >>= Gsup.Decode.decode) ≡ ok full_message
decode-encode_example = decode-encode full_message full_message-IsEncodable

decode-ne-stuck_example : Gsup.Decode.decode (0x08 ∷ 0x01 ∷ 0x02 ∷ 0x21 ∷ []) ≢ stuck
decode-ne-stuck_example = decode-ne-stuck (0x08 ∷ 0x01 ∷ 0x02 ∷ 0x21 ∷ [])

decode-ne_stuck_example : Map.Decode.decode (0x62 ∷ 0x03 ∷ 0x48 ∷ 0x01 ∷ 0x05 ∷ []) ≢ stuck
decode-ne_stuck_example = decode-ne_stuck (0x62 ∷ 0x03 ∷ 0x48 ∷ 0x01 ∷ 0x05 ∷ [])

loop_unknown_example :
    until_empty decode_round full_message (ie 0x7f (1 ∷ 2 ∷ []) ++ ie 0x02 (9 ∷ []))
    ≡ until_empty decode_round full_message (ie 0x02 (9 ∷ []))
loop_unknown_example = loop_unknown full_message 0x7f (1 ∷ 2 ∷ []) (ie 0x02 (9 ∷ [])) refl

-- A cancel result.
abbrev short_message : GsupMessage
short_message = record Gsup.new_message { type = 0x1e; imsi = some_imsi }

abbrev short_bytes : Bytes
short_bytes = 0x1e ∷ 0x01 ∷ 0x03 ∷ 0x62 ∷ 0x02 ∷ 0xf1 ∷ []

short_message-IsEncodable : IsEncodable short_message
short_message-IsEncodable = record {
  imsi_valid = omega arith;
  tuples_fit = tt;
  msisdn_fits = tt;
  hlr_number_fits = tt;
  pdps_fit = tt;
  no_result_flag = refl;
}

short_message_encodes : Gsup.Encode.encode short_message ≡ ok short_bytes
unfolding Gsup.Encode.encode Gsup.Encode.write_imsi Gsup.Encode.imsi_to_bcd Gsup.Encode.write_tlv
    pack Gsup.Encode.write_each Gsup.Encode.write_optional Gsup.Encode.write_optional1
    Gsup.Encode.write_flag Gsup.Encode.write_tlv1 write8 write_bytes
short_message_encodes = refl

-- The cause 0x28 is the tag of the next element.
decode_cause_zero_length_example :
    (Gsup.Decode.decode (short_bytes ++ IeTag.cause ∷ 0 ∷ 0x28 ∷ 1 ∷ 2 ∷ [])
      ≡ until_empty decode_round (record short_message { cause = some 0x28 }) (1 ∷ 2 ∷ []))
    × (Gsup.Decode.decode (short_bytes ++ IeTag.cause ∷ 0 ∷ []) ≡ err out_of_range)
decode_cause_zero_length_example =
    decode_cause_zero_length short_message short_bytes 0x28 (1 ∷ 2 ∷ []) short_message-IsEncodable
      short_message_encodes

abbrev pub auth_request : GsupMessage
auth_request = record Gsup.new_message {
  type = MessageType.send_auth_info_request;
  imsi = some_imsi;
}

answered_type-expected_example :
    (answered_type auth_request 5 1 return_result (some 34)
      ≡ expected_gsup_result auth_request.type)
    × (answered_type auth_request 5 1 return_error (some 34)
        ≡ expected_gsup_error auth_request.type)
answered_type-expected_example = answered_type-expected auth_request 5 1 (some 34)

abbrev pub cancel_invoke : MapMessage
cancel_invoke = record Map.new_message {
  transaction_id = 77;
  invoke_id = 3;
  operation = MapOperation.cancel_location;
  imsi = some_imsi;
  cancel_type = some 1;
}

abbrev pub cancel_request : GsupMessage
cancel_request = record Gsup.new_message {
  type = MessageType.location_cancel_request;
  imsi = some_imsi;
  cancel_type = some 1;
}

pub cancel_converts : map_invoke_to_gsup cancel_invoke ≡ ok cancel_request
unfolding map_invoke_to_gsup
cancel_converts = refl

reply_of-map_invoke_to_gsup_example :
    (reply_of cancel_request (cancel_request.type + 2) 77 3
      ≡ ok (cancel_invoke.operation, return_result, 77, 3))
    × (reply_of cancel_request (cancel_request.type + 1) 77 3
        ≡ ok (cancel_invoke.operation, return_error, 77, 3))
reply_of-map_invoke_to_gsup_example =
    reply_of-map_invoke_to_gsup cancel_invoke cancel_request 77 3 cancel_converts

gsup_to_map_result-is_hlr_initiated_example :
    map_ok header_of (gsup_to_map_result auth_request 5 1) ≡ (
      if is_hlr_initiated_gsup_type auth_request.type
      then ok (auth_request.imsi, 5, 1)
      else err conversion_error)
gsup_to_map_result-is_hlr_initiated_example = gsup_to_map_result-is_hlr_initiated auth_request 5 1
