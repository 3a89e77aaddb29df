-- ===== src/Map/ReturnError.antt =====
-- ReturnErrors on the wire: what the decoder makes of the encoder's bytes.
use gsup_map_proxy.Base.{
  ℕ, ◌^◌, ◌≤◌, ◌<◌, ◌≡◌, refl, ◌∙◌, [], ◌++◌, length, some, ok, arith, append-nil, length-append,
  bind-eq-ok,
}
use gsup_map_proxy.Buffer.{Bytes, write_bytes}
use gsup_map_proxy.Ber.{write_tlv_int, encode_int}
use gsup_map_proxy.Ber.Tlv.{tlv, write_tlv-tlv, wrap_constructed-tlv, read_tlv-tlv}
use gsup_map_proxy.Ber.Integer.{length-encode_int}
use gsup_map_proxy.Map.{MapMessage, new_message, return_error}
use gsup_map_proxy.Map.Tag
use gsup_map_proxy.Map.Encode.{
  value_or, encode_args, encode_return_error, encode_component, tid_bytes, encode,
}
use gsup_map_proxy.Map.Decode.{decode_return_error, component_tlv, tcap_tlv, decode}
use gsup_map_proxy.Map.Envelope.{
  each_tlv_step, each_tlv_one, decode_tid-tid_bytes, decode_uint8-encode_int, length-tlv,
}
use gsup_map_proxy.Map.Total.{component_tlv-Handles, tcap_tlv-Handles}

-- The invoke ID and the cause of a ReturnError.
error_body : ℕ → ℕ → Bytes
error_body id code = tlv Tag.ber_int (encode_int id) ++ tlv Tag.ber_int (encode_int code)

decode_return_error-error_body :
    (id code : ℕ) (m : MapMessage)
    → id < 2 ^ 8
    → code < 2 ^ 8
    → decode_return_error (error_body id code) m
      ≡ ok (record m { component = return_error; invoke_id = id; error_code = some code })
unfolding decode_return_error error_body
decode_return_error-error_body id code m hi hc =
    let short = λ (v : ℕ). length-encode_int v in
    rw
      (read_tlv-tlv Tag.ber_int (encode_int id) (tlv Tag.ber_int (encode_int code))
        (omega (arith, short id)))
      (rw (decode_uint8-encode_int id hi) (
        rw (← append-nil (tlv Tag.ber_int (encode_int code))) (
          rw (read_tlv-tlv Tag.ber_int (encode_int code) [] (omega (arith, short code)))
            (rw (decode_uint8-encode_int code hc) refl))))

length-error_body : (id code : ℕ) → length (error_body id code) ≤ 26
unfolding error_body
length-error_body id code = omega (
  arith,
  length-append (tlv Tag.ber_int (encode_int id)) (tlv Tag.ber_int (encode_int code)),
  length-tlv Tag.ber_int (encode_int id),
  length-tlv Tag.ber_int (encode_int code),
  length-encode_int id,
  length-encode_int code,
)

-- The component and the two parts of the PDU.
error_component : ℕ → ℕ → Bytes
error_component id code = tlv Tag.return_error (error_body id code)

error_parts : ℕ → ℕ → ℕ → Bytes
error_parts tid id code =
    tlv Tag.tcap_dtid (tid_bytes tid) ++ tlv Tag.tcap_components (error_component id code)

length-error_component : (id code : ℕ) → length (error_component id code) ≤ 30
unfolding error_component
length-error_component id code =
    omega (arith, length-tlv Tag.return_error (error_body id code), length-error_body id code)

length-error_parts : (tid id code : ℕ) → length (error_parts tid id code) ≤ 42
unfolding error_parts tid_bytes
length-error_parts tid id code = omega (
  arith,
  length-append (tlv Tag.tcap_dtid (tid_bytes tid))
      (tlv Tag.tcap_components (error_component id code)),
  length-tlv Tag.tcap_dtid (tid_bytes tid),
  length-tlv Tag.tcap_components (error_component id code),
  length-error_component id code,
)

encode_return_error-tlv :
    (m : MapMessage)
    → encode_return_error m ≡ ok (error_component m.invoke_id (value_or m.error_code 34))
unfolding encode_return_error write_tlv_int error_component error_body
encode_return_error-tlv m =
    let code = value_or m.error_code 34 in
    rw
      (write_tlv-tlv [] Tag.ber_int (encode_int m.invoke_id)
        (omega (arith, length-encode_int m.invoke_id)))
      (rw
        (write_tlv-tlv (tlv Tag.ber_int (encode_int m.invoke_id)) Tag.ber_int (encode_int code)
          (omega (arith, length-encode_int code)))
        (wrap_constructed-tlv [] Tag.return_error _
          (unfold error_body in omega (arith, length-error_body m.invoke_id code))))

encode-error_parts :
    (m : MapMessage) (args : Bytes)
    → m.component ≡ return_error
    → encode_args m ≡ ok args
    → encode m
      ≡ ok (tlv Tag.tcap_end (error_parts m.transaction_id m.invoke_id (value_or m.error_code 34)))
unfolding encode encode_component error_parts write_bytes
encode-error_parts m args component e =
    let code = value_or m.error_code 34 in
    rw e (
      rw component (
        rw (encode_return_error-tlv (record m { component = return_error })) (
          rw
            (wrap_constructed-tlv [] Tag.tcap_components (error_component m.invoke_id code)
              (omega (arith, length-error_component m.invoke_id code)))
            (rw
              (write_tlv-tlv [] Tag.tcap_dtid (tid_bytes m.transaction_id)
                (unfold tid_bytes in omega arith))
              (wrap_constructed-tlv [] Tag.tcap_end _ (
                unfold error_parts in
                omega (arith, length-error_parts m.transaction_id m.invoke_id code)))))))

-- A ReturnError as the decoder hands it on: a TID, an invoke ID and a cause, and no operation.
abbrev pub bare_error : ℕ → ℕ → ℕ → MapMessage
bare_error tid id code = record new_message {
  transaction_id = tid;
  component = return_error;
  invoke_id = id;
  error_code = some code;
}

decode-error_parts :
    (tid id code : ℕ)
    → tid < 2 ^ 32
    → id < 2 ^ 8
    → code < 2 ^ 8
    → decode (tlv Tag.tcap_end (error_parts tid id code)) ≡ ok (bare_error tid id code)
unfolding decode error_parts
decode-error_parts tid id code ht hi hc =
    rw (← append-nil (tlv Tag.tcap_end (error_parts tid id code))) (
      rw
        (read_tlv-tlv Tag.tcap_end (error_parts tid id code) []
          (omega (arith, length-error_parts tid id code)))
        (each_tlv_step tcap_tlv tcap_tlv-Handles new_message
            (record new_message { transaction_id = tid }) Tag.tcap_dtid (tid_bytes tid) _
            (unfold tid_bytes in omega arith)
            (unfold tcap_tlv in rw (decode_tid-tid_bytes tid ht) refl)
          ∙ each_tlv_one tcap_tlv tcap_tlv-Handles _ (bare_error tid id code) Tag.tcap_components
              (error_component id code) (omega (arith, length-error_component id code))
              (unfold tcap_tlv error_component in
                each_tlv_one component_tlv component_tlv-Handles _ _ Tag.return_error
                  (error_body id code) (omega (arith, length-error_body id code))
                  (unfold component_tlv in decode_return_error-error_body id code _ hi hc))))

-- Whatever operation, IMSI and arguments a ReturnError has when it is encoded, what the decoder
-- makes of the bytes has only its TID, its invoke ID and its cause, or 34 if it has none: no
-- operation comes back. The numbers are those of a `uint32_t` and of `uint8_t`s.
pub decode-encode-return_error :
    (m : MapMessage) (bytes : Bytes)
    → m.component ≡ return_error
    → m.transaction_id < 2 ^ 32
    → m.invoke_id < 2 ^ 8
    → value_or m.error_code 34 < 2 ^ 8
    → encode m ≡ ok bytes
    → decode bytes ≡ ok (bare_error m.transaction_id m.invoke_id (value_or m.error_code 34))
unfolding encode
decode-encode-return_error m bytes component ht hi hc e =
    let (args, done, rest) = bind-eq-ok (encode_args m) _ e in
    let code = value_or m.error_code 34 in
    let same : bytes ≡ tlv Tag.tcap_end (error_parts m.transaction_id m.invoke_id code) =
      cc (e, encode-error_parts m args component done) in
    rw same (decode-error_parts m.transaction_id m.invoke_id code ht hi hc)
