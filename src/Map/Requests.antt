-- ===== src/Map/Requests.antt =====
-- The Invokes that carry an IMSI and one field more, through the encoder and the decoder.
use gsup_map_proxy.Base.{
  ℕ, ◌≤◌, ◌<◌, ◌^◌, ◌≡◌, refl, ◌∙◌, [], ◌++◌, length, All, none, some, ok, ◌>>=◌, arith, append-nil,
  length-append,
}
use gsup_map_proxy.Buffer.{Bytes}
use gsup_map_proxy.Bcd.{Text, pack}
use gsup_map_proxy.Bcd.RoundTrip.{IsDigit, unpack-pack, length-pack}
use gsup_map_proxy.Ber.{encode_int, write_tlv_int}
use gsup_map_proxy.Ber.Tlv.{tlv, write_tlv-tlv, wrap_constructed-tlv, read_tlv-tlv}
use gsup_map_proxy.Ber.Integer.{length-encode_int}
use gsup_map_proxy.Map.{MapMessage, new_message, invoke}
use gsup_map_proxy.Map.Tag
use gsup_map_proxy.Map.MapOperation
use gsup_map_proxy.Map.Encode.{encode_args, encode_send_auth_info_req, imsi_to_bcd, encode}
use gsup_map_proxy.Map.Decode.{
  auth_info_req_tlv, decode_send_auth_info_req, decode_invoke_args, bcd_to_imsi, decode,
}
use gsup_map_proxy.Map.Envelope.{each_tlv_step, each_tlv_one, decode_uint8-encode_int, length-tlv}
use gsup_map_proxy.Map.Invoke.{decode-encode-invoke}
use gsup_map_proxy.Map.Total.{auth_info_req_tlv-Handles}

-- The request that an SGSN's authentication request becomes.
abbrev pub auth_request : ℕ → ℕ → Text → ℕ → MapMessage
auth_request tid id imsi vectors = record new_message {
  transaction_id = tid;
  invoke_id = id;
  operation = MapOperation.send_authentication_info;
  imsi = imsi;
  num_requested_vectors = some vectors;
}

auth_fields : Text → ℕ → Bytes
auth_fields imsi vectors = tlv Tag.ber_octet_str (pack imsi) ++ tlv Tag.ber_int (encode_int vectors)

-- An IMSI that leaves room for the layers around it.
abbrev pub IsImsi : Text → Type 0
IsImsi imsi = (length imsi ≤ 1000) × All IsDigit imsi

length-auth_fields :
    (imsi : Text) (vectors : ℕ) → length imsi ≤ 1000 → length (auth_fields imsi vectors) ≤ 600
unfolding auth_fields
length-auth_fields imsi vectors small = omega (
  arith,
  length-append (tlv Tag.ber_octet_str (pack imsi)) (tlv Tag.ber_int (encode_int vectors)),
  length-tlv Tag.ber_octet_str (pack imsi),
  length-tlv Tag.ber_int (encode_int vectors),
  length-pack imsi,
  length-encode_int vectors,
)

auth_args : Text → ℕ → Bytes
auth_args imsi vectors = tlv Tag.ber_sequence (auth_fields imsi vectors)

encode_args-auth_args :
    (tid id : ℕ) (imsi : Text) (vectors : ℕ)
    → length imsi ≤ 1000
    → encode_args (auth_request tid id imsi vectors) ≡ ok (auth_args imsi vectors)
unfolding encode_args encode_send_auth_info_req imsi_to_bcd write_tlv_int auth_args auth_fields
encode_args-auth_args tid id imsi vectors small =
    rw (write_tlv-tlv [] Tag.ber_octet_str (pack imsi) (omega (arith, length-pack imsi))) (
      rw
        (write_tlv-tlv (tlv Tag.ber_octet_str (pack imsi)) Tag.ber_int (encode_int vectors)
          (omega (arith, length-encode_int vectors)))
        (wrap_constructed-tlv [] Tag.ber_sequence _
          (unfold auth_fields in omega (arith, length-auth_fields imsi vectors small))))

imsi_first :
    (s : MapMessage) (imsi : Text)
    → s.imsi ≡ []
    → All IsDigit imsi
    → auth_info_req_tlv Tag.ber_octet_str (pack imsi) s ≡ ok (record s { imsi = imsi })
unfolding auth_info_req_tlv bcd_to_imsi
imsi_first s imsi none_yet digits = rw none_yet (rw (unpack-pack imsi digits) refl)

vectors_next :
    (s : MapMessage) (vectors : ℕ)
    → s.num_requested_vectors ≡ none
    → vectors < 2 ^ 8
    → auth_info_req_tlv Tag.ber_int (encode_int vectors) s
      ≡ ok (record s { num_requested_vectors = some vectors })
unfolding auth_info_req_tlv
vectors_next s vectors none_yet hv = rw none_yet (rw (decode_uint8-encode_int vectors hv) refl)

decode_invoke_args-auth_args :
    (tid id : ℕ) (imsi : Text) (vectors : ℕ)
    → IsImsi imsi
    → vectors < 2 ^ 8
    → decode_invoke_args (auth_args imsi vectors) (record new_message {
      transaction_id = tid;
      component = invoke;
      invoke_id = id;
      operation = MapOperation.send_authentication_info;
    })
      ≡ ok (auth_request tid id imsi vectors)
unfolding decode_invoke_args decode_send_auth_info_req auth_args tlv
decode_invoke_args-auth_args tid id imsi vectors (small, digits) hv =
    rw (← append-nil (tlv Tag.ber_sequence (auth_fields imsi vectors))) (
      rw
        (read_tlv-tlv Tag.ber_sequence (auth_fields imsi vectors) []
          (omega (arith, length-auth_fields imsi vectors small)))
        (unfold auth_fields in
          each_tlv_step auth_info_req_tlv auth_info_req_tlv-Handles _ _ Tag.ber_octet_str
            (pack imsi) _ (omega (arith, length-pack imsi)) (imsi_first _ imsi refl digits)
          ∙ each_tlv_one auth_info_req_tlv auth_info_req_tlv-Handles _ _ Tag.ber_int
              (encode_int vectors) (omega (arith, length-encode_int vectors))
              (vectors_next _ vectors refl hv)))

-- A SendAuthenticationInfo Invoke with an IMSI of at most 1000 digits is encoded without an
-- exception, and decoding the bytes gives the message back: TID, invoke ID, operation, IMSI and
-- number of vectors. The numbers are those of a `uint32_t` and of `uint8_t`s.
pub decode-encode-auth_request :
    (tid id : ℕ) (imsi : Text) (vectors : ℕ)
    → tid < 2 ^ 32
    → id < 2 ^ 8
    → IsImsi imsi
    → vectors < 2 ^ 8
    → (encode (auth_request tid id imsi vectors) >>= decode) ≡ ok (auth_request tid id imsi vectors)
decode-encode-auth_request tid id imsi vectors ht hi digits hv =
    decode-encode-invoke (auth_request tid id imsi vectors) (auth_args imsi vectors) refl ht hi
      (omega arith) (encode_args-auth_args tid id imsi vectors digits.0)
      (unfold auth_args in
        omega (
          arith,
          length-tlv Tag.ber_sequence (auth_fields imsi vectors),
          length-auth_fields imsi vectors digits.0,
        ))
      (decode_invoke_args-auth_args tid id imsi vectors digits hv)
