-- ===== src/Examples/Pdus.antt =====
-- Examples for MAP PDUs.
use gsup_map_proxy.Base.{◌≡◌, refl, [], ◌∷◌, some, ok, ◌>>=◌, arith}
use gsup_map_proxy.Buffer.{Bytes, write8, write_bytes}
use gsup_map_proxy.Bcd.{pack}
use gsup_map_proxy.Ber.{write_tlv, write_length, write_tlv_int, encode_int, wrap_constructed}
use gsup_map_proxy.Map
use gsup_map_proxy.Map.{MapMessage, return_error}
use gsup_map_proxy.Map.MapOperation
use gsup_map_proxy.Map.InsertData.{insert_request, decode-encode-insert_request}
use gsup_map_proxy.Map.Requests.{auth_request, decode-encode-auth_request}
use gsup_map_proxy.Map.ReturnError.{bare_error, decode-encode-return_error}
use gsup_map_proxy.Examples.Messages.{some_imsi}

-- An error for a cancellation, with an IMSI that does not go on the wire.
abbrev cancel_error : MapMessage
cancel_error = record Map.new_message {
  transaction_id = 1;
  component = return_error;
  operation = MapOperation.cancel_location;
  imsi = some_imsi;
  error_code = some 34;
}

abbrev cancel_error_bytes : Bytes
cancel_error_bytes =
    100 ∷ 16 ∷ 73 ∷ 4 ∷ 0 ∷ 0 ∷ 0 ∷ 1 ∷ 108 ∷ 8 ∷ 163 ∷ 6 ∷ 2 ∷ 1 ∷ 1 ∷ 2 ∷ 1 ∷ 34 ∷ []

cancel_error_encodes : Map.Encode.encode cancel_error ≡ ok cancel_error_bytes
unfolding Map.Encode.encode Map.Encode.encode_args Map.Encode.encode_cancel_location_req
    Map.Encode.write_cancel_type Map.Encode.encode_return_error write_tlv write_length
    Map.Encode.imsi_to_bcd pack write_tlv_int encode_int wrap_constructed write_bytes write8
    Map.Encode.encode_component Map.Encode.tid_bytes
cancel_error_encodes = refl

decode-encode-return_error_example : Map.Decode.decode cancel_error_bytes ≡ ok (bare_error 1 1 34)
decode-encode-return_error_example =
    decode-encode-return_error cancel_error cancel_error_bytes refl (omega arith) (omega arith)
      (omega arith) cancel_error_encodes

decode-encode-auth_request_example :
    (Map.Encode.encode (auth_request 1 1 some_imsi 3) >>= Map.Decode.decode)
    ≡ ok (auth_request 1 1 some_imsi 3)
decode-encode-auth_request_example =
    decode-encode-auth_request 1 1 some_imsi 3 (omega arith) (omega arith) (omega arith)
      (omega arith)

decode-encode-insert_request_example :
    (Map.Encode.encode (insert_request 77 3 some_imsi (some (1 ∷ 2 ∷ []))) >>= Map.Decode.decode)
    ≡ ok (insert_request 77 3 some_imsi (some (1 ∷ 2 ∷ [])))
decode-encode-insert_request_example =
    decode-encode-insert_request 77 3 some_imsi (some (1 ∷ 2 ∷ [])) (omega arith) (omega arith)
      (omega arith) (omega arith)
