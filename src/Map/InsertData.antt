-- ===== src/Map/InsertData.antt =====
-- The InsertSubscriberData Invoke through the encoder and the decoder.
use gsup_map_proxy.Base.{
  ℕ, ◌≤◌, ◌<◌, ◌^◌, ◌≡◌, refl, ap, ◌∙◌, true, false, [], ◌++◌, length, All, Option, none, some, ok,
  ◌>>=◌, arith, append-nil, length-append,
}
use gsup_map_proxy.Buffer.{Bytes}
use gsup_map_proxy.Buffer.Loop.{until_empty_nil}
use gsup_map_proxy.Bcd.{Text, pack}
use gsup_map_proxy.Bcd.RoundTrip.{IsDigit, unpack-pack, length-pack}
use gsup_map_proxy.Ber.Tlv.{tlv, write_tlv-tlv, wrap_constructed-tlv, read_tlv-tlv}
use gsup_map_proxy.Map.{MapMessage, new_message, invoke}
use gsup_map_proxy.Map.Tag
use gsup_map_proxy.Map.MapOperation
use gsup_map_proxy.Map.Encode.{
  encode_args, encode_insert_subscriber_data_req, write_optional, imsi_to_bcd, encode,
}
use gsup_map_proxy.Map.Decode.{
  insert_data_tlv, decode_insert_subscriber_data_req, in_sequence, each_flagged, each_tlv,
  decode_invoke_args, bcd_to_imsi, decode,
}
use gsup_map_proxy.Map.Envelope.{each_tlv_step, each_tlv_one, length-tlv}
use gsup_map_proxy.Map.Invoke.{decode-encode-invoke}
use gsup_map_proxy.Map.Requests.{IsImsi}
use gsup_map_proxy.Map.Total.{insert_data_tlv-Handles}

-- The Invoke by which the HLR hands a subscriber's data to the SGSN.
abbrev pub insert_request : ℕ → ℕ → Text → Option Bytes → MapMessage
insert_request tid id imsi msisdn = record new_message {
  transaction_id = tid;
  invoke_id = id;
  operation = MapOperation.insert_subscriber_data;
  imsi = imsi;
  msisdn = msisdn;
}

-- An MSISDN that leaves room for the layers around it.
abbrev pub IsShortMsisdn : Option Bytes → Type 0
IsShortMsisdn none = Unit
IsShortMsisdn (some val) = length val ≤ 50000

msisdn_field : Option Bytes → Bytes
msisdn_field none = []
msisdn_field (some val) = tlv Tag.ber_octet_str val

insert_fields : Text → Option Bytes → Bytes
insert_fields imsi msisdn = tlv Tag.ber_octet_str (pack imsi) ++ msisdn_field msisdn

length-msisdn_field :
    (msisdn : Option Bytes) → IsShortMsisdn msisdn → length (msisdn_field msisdn) ≤ 50004
unfolding msisdn_field
length-msisdn_field none h = omega arith
length-msisdn_field (some val) h = omega (arith, length-tlv Tag.ber_octet_str val)

length-insert_fields :
    (imsi : Text) (msisdn : Option Bytes)
    → length imsi ≤ 1000
    → IsShortMsisdn msisdn
    → length (insert_fields imsi msisdn) ≤ 50600
unfolding insert_fields
length-insert_fields imsi msisdn small h = omega (
  arith,
  length-append (tlv Tag.ber_octet_str (pack imsi)) (msisdn_field msisdn),
  length-tlv Tag.ber_octet_str (pack imsi),
  length-pack imsi,
  length-msisdn_field msisdn h,
)

write_optional-msisdn_field :
    (w : Bytes) (msisdn : Option Bytes)
    → IsShortMsisdn msisdn
    → write_optional w msisdn ≡ ok (w ++ msisdn_field msisdn)
unfolding write_optional msisdn_field
write_optional-msisdn_field w none h = rw (append-nil w)
write_optional-msisdn_field w (some val) h = write_tlv-tlv w Tag.ber_octet_str val (omega arith)

insert_args : Text → Option Bytes → Bytes
insert_args imsi msisdn = tlv Tag.ber_sequence (insert_fields imsi msisdn)

encode_args-insert_args :
    (tid id : ℕ) (imsi : Text) (msisdn : Option Bytes)
    → length imsi ≤ 1000
    → IsShortMsisdn msisdn
    → encode_args (insert_request tid id imsi msisdn) ≡ ok (insert_args imsi msisdn)
unfolding encode_args encode_insert_subscriber_data_req imsi_to_bcd insert_args insert_fields
encode_args-insert_args tid id imsi msisdn small h =
    rw (write_tlv-tlv [] Tag.ber_octet_str (pack imsi) (omega (arith, length-pack imsi))) (
      rw (write_optional-msisdn_field (tlv Tag.ber_octet_str (pack imsi)) msisdn h) (
        wrap_constructed-tlv [] Tag.ber_sequence _
          (unfold insert_fields in omega (arith, length-insert_fields imsi msisdn small h))))

imsi_taken :
    (s : MapMessage) (imsi : Text)
    → All IsDigit imsi
    → insert_data_tlv Tag.ber_octet_str (pack imsi) (true, s) ≡ ok (false, record s { imsi = imsi })
unfolding insert_data_tlv bcd_to_imsi
imsi_taken s imsi digits = rw (unpack-pack imsi digits) refl

msisdn_taken :
    (s : MapMessage) (msisdn : Option Bytes)
    → s.msisdn ≡ none
    → IsShortMsisdn msisdn
    → each_tlv insert_data_tlv (false, s) (msisdn_field msisdn)
      ≡ ok (false, record s { msisdn = msisdn })
unfolding msisdn_field
msisdn_taken s none none_yet h =
    unfold each_tlv in until_empty_nil _ _ ∙ ap (λ n. ok (false, record s { msisdn = n })) none_yet
msisdn_taken s (some val) none_yet h =
    each_tlv_one insert_data_tlv insert_data_tlv-Handles (false, s)
      (false, record s { msisdn = some val }) Tag.ber_octet_str val (omega arith)
      (unfold insert_data_tlv in rw none_yet refl)

fields_taken :
    (s : MapMessage) (imsi : Text) (msisdn : Option Bytes)
    → s.msisdn ≡ none
    → IsImsi imsi
    → IsShortMsisdn msisdn
    → each_flagged insert_data_tlv s (insert_fields imsi msisdn)
      ≡ ok (record s { imsi = imsi; msisdn = msisdn })
unfolding each_flagged insert_fields
fields_taken s imsi msisdn none_yet (small, digits) h = rw loop refl
  where
    loop :
        each_tlv insert_data_tlv
          (true, s)
          (tlv Tag.ber_octet_str (pack imsi) ++ msisdn_field msisdn)
        ≡ ok (false, record s { imsi = imsi; msisdn = msisdn })
    loop =
        each_tlv_step insert_data_tlv insert_data_tlv-Handles (true, s)
          (false, record s { imsi = imsi }) Tag.ber_octet_str (pack imsi) (msisdn_field msisdn)
          (omega (arith, length-pack imsi)) (imsi_taken s imsi digits)
        ∙ msisdn_taken (record s { imsi = imsi }) msisdn none_yet h

decode_invoke_args-insert_args :
    (tid id : ℕ) (imsi : Text) (msisdn : Option Bytes)
    → IsImsi imsi
    → IsShortMsisdn msisdn
    → decode_invoke_args (insert_args imsi msisdn) (record new_message {
      transaction_id = tid;
      component = invoke;
      invoke_id = id;
      operation = MapOperation.insert_subscriber_data;
    })
      ≡ ok (insert_request tid id imsi msisdn)
unfolding decode_invoke_args decode_insert_subscriber_data_req in_sequence insert_args tlv
decode_invoke_args-insert_args tid id imsi msisdn (small, digits) h =
    rw (← append-nil (tlv Tag.ber_sequence (insert_fields imsi msisdn))) (
      rw
        (read_tlv-tlv Tag.ber_sequence (insert_fields imsi msisdn) []
          (omega (arith, length-insert_fields imsi msisdn small h)))
        (fields_taken _ imsi msisdn refl (small, digits) h))

-- An InsertSubscriberData Invoke with an IMSI of at most 1000 digits, with or without an MSISDN of
-- at most 50000 bytes, is encoded without an exception, and decoding the bytes gives the message
-- back. The numbers are those of a `uint32_t` and of a `uint8_t`.
pub decode-encode-insert_request :
    (tid id : ℕ) (imsi : Text) (msisdn : Option Bytes)
    → tid < 2 ^ 32
    → id < 2 ^ 8
    → IsImsi imsi
    → IsShortMsisdn msisdn
    → (encode (insert_request tid id imsi msisdn) >>= decode)
      ≡ ok (insert_request tid id imsi msisdn)
decode-encode-insert_request tid id imsi msisdn ht hi digits h =
    decode-encode-invoke (insert_request tid id imsi msisdn) (insert_args imsi msisdn) refl ht hi
      (omega arith) (encode_args-insert_args tid id imsi msisdn digits.0 h)
      (unfold insert_args in
        omega (
          arith,
          length-tlv Tag.ber_sequence (insert_fields imsi msisdn),
          length-insert_fields imsi msisdn digits.0 h,
        ))
      (decode_invoke_args-insert_args tid id imsi msisdn digits h)
