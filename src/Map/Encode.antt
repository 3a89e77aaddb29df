-- ===== src/Map/Encode.antt =====
-- `encode` of map/MapCodec.cpp, with its helpers. A function's local `BufferWriter`s are the values
-- that its `do` block binds.
use gsup_map_proxy.Base.{
  ℕ, ◌/◌, ◌^◌, Bool, true, false, List, [], ◌∷◌, Option, none, some, ◌==◌, if◌then◌else◌, Result,
  ok, err, runtime_error, ◌>>=◌,
}
use gsup_map_proxy.Buffer.{Bytes, uint8, write8, write_bytes}
use gsup_map_proxy.Bcd.{Text, pack}
use gsup_map_proxy.Ber.{write_tlv, write_tlv_int, write_tlv_octet, wrap_constructed}
use gsup_map_proxy.Map.{
  MapAuthTriplet, MapAuthQuintuplet, ComponentType, invoke, return_result, return_error, reject,
  MapMessage,
}
use gsup_map_proxy.Map.MapOperation
use gsup_map_proxy.Map.Tag

-- With no check of the digits or of their number.
unfoldable pub imsi_to_bcd : Text → Bytes
imsi_to_bcd imsi = pack imsi

-- `value_or`.
abbrev pub value_or : Option ℕ → ℕ → ℕ
value_or none d = d
value_or (some v) d = v

-- `if (field) writeTlv(inner, kBerOctetStr, *field);`
unfoldable pub write_optional : Bytes → Option Bytes → Result Bytes
write_optional w none = ok w
write_optional w (some val) = write_tlv w Tag.ber_octet_str val

unfoldable pub encode_send_auth_info_req : MapMessage → Result Bytes
encode_send_auth_info_req m = do
  inner ← write_tlv [] Tag.ber_octet_str (imsi_to_bcd m.imsi)
  inner ← write_tlv_int inner Tag.ber_int (value_or m.num_requested_vectors 1)
  wrap_constructed [] Tag.ber_sequence inner

unfoldable pub write_triplets : Bytes → List MapAuthTriplet → Result Bytes
write_triplets set [] = ok set
write_triplets set (t ∷ ts) = do
  trip ← write_tlv [] Tag.ber_octet_str t.rand
  trip ← write_tlv trip Tag.ber_octet_str t.sres
  trip ← write_tlv trip Tag.ber_octet_str t.kc
  set ← wrap_constructed set Tag.ber_sequence trip
  write_triplets set ts

unfoldable pub write_quintuplets : Bytes → List MapAuthQuintuplet → Result Bytes
write_quintuplets set [] = ok set
write_quintuplets set (q ∷ qs) = do
  quint ← write_tlv [] Tag.ber_octet_str q.rand
  quint ← write_tlv quint Tag.ber_octet_str q.xres
  quint ← write_tlv quint Tag.ber_octet_str q.ck
  quint ← write_tlv quint Tag.ber_octet_str q.ik
  quint ← write_tlv quint Tag.ber_octet_str q.autn
  set ← wrap_constructed set Tag.ber_sequence quint
  write_quintuplets set qs

unfoldable pub encode_send_auth_info_res : MapMessage → Result Bytes
encode_send_auth_info_res m = do
  set ← write_triplets [] m.auth_triplets
  set ← write_quintuplets set m.auth_quintuplets
  wrap_constructed [] Tag.ber_sequence set

unfoldable pub encode_update_gprs_location_req : MapMessage → Result Bytes
encode_update_gprs_location_req m = do
  inner ← write_tlv [] Tag.ber_octet_str (imsi_to_bcd m.imsi)
  inner ← write_optional inner m.sgsn_number
  inner ← write_optional inner m.sgsn_address
  wrap_constructed [] Tag.ber_sequence inner

unfoldable pub encode_update_gprs_location_res : MapMessage → Result Bytes
encode_update_gprs_location_res m = do
  inner ← write_optional [] m.hlr_number
  wrap_constructed [] Tag.ber_sequence inner

-- `if (m.cancelType) writeTlvOctet(inner, kBerInt, *m.cancelType);`
unfoldable pub write_cancel_type : Bytes → Option ℕ → Bytes
write_cancel_type w none = w
write_cancel_type w (some v) = write_tlv_octet w Tag.ber_int v

unfoldable pub encode_cancel_location_req : MapMessage → Result Bytes
encode_cancel_location_req m = do
  inner ← write_tlv [] Tag.ber_octet_str (imsi_to_bcd m.imsi)
  wrap_constructed [] Tag.ber_sequence (write_cancel_type inner m.cancel_type)

unfoldable pub encode_insert_subscriber_data_req : MapMessage → Result Bytes
encode_insert_subscriber_data_req m = do
  inner ← write_tlv [] Tag.ber_octet_str (imsi_to_bcd m.imsi)
  inner ← write_optional inner m.msisdn
  wrap_constructed [] Tag.ber_sequence inner

unfoldable pub encode_delete_subscriber_data_req : MapMessage → Result Bytes
encode_delete_subscriber_data_req m = do
  inner ← write_tlv [] Tag.ber_octet_str (imsi_to_bcd m.imsi)
  wrap_constructed [] Tag.ber_sequence inner

unfoldable pub encode_purge_ms_req : MapMessage → Result Bytes
encode_purge_ms_req m = do
  inner ← write_tlv [] Tag.ber_octet_str (imsi_to_bcd m.imsi)
  inner ← write_optional inner m.sgsn_number
  wrap_constructed [] Tag.ber_sequence inner

unfoldable pub encode_purge_ms_res : MapMessage → Result Bytes
encode_purge_ms_res m =
    let inner = if m.freeze_ptmsi then write8 (write8 [] Tag.ber_null) 0 else [] in
    wrap_constructed [] Tag.ber_sequence inner

unfoldable pub encode_invoke : MapMessage → Bytes → Result Bytes
encode_invoke m args = do
  body ← write_tlv_int [] Tag.ber_int m.invoke_id
  body ← write_tlv_int body Tag.ber_int m.operation
  wrap_constructed [] Tag.invoke (write_bytes body args)

unfoldable pub encode_return_result : MapMessage → Bytes → Result Bytes
encode_return_result m result = do
  result_inner ← write_tlv_int [] Tag.ber_int m.operation
  result_seq ← wrap_constructed [] Tag.ber_sequence (write_bytes result_inner result)
  body ← write_tlv_int [] Tag.ber_int m.invoke_id
  wrap_constructed [] Tag.return_result (write_bytes body result_seq)

-- 34 is systemFailure.
unfoldable pub encode_return_error : MapMessage → Result Bytes
encode_return_error m = do
  body ← write_tlv_int [] Tag.ber_int m.invoke_id
  body ← write_tlv_int body Tag.ber_int (value_or m.error_code 34)
  wrap_constructed [] Tag.return_error body

abbrev pub is_invoke : ComponentType → Bool
is_invoke invoke = true
is_invoke _ = false

-- The first `switch` of `encode`.
unfoldable pub encode_args : MapMessage → Result Bytes
encode_args m =
    if m.operation == MapOperation.send_authentication_info
    then (if is_invoke m.component
        then encode_send_auth_info_req m
        else encode_send_auth_info_res m)
    else if m.operation == MapOperation.update_gprs_location
    then (if is_invoke m.component
        then encode_update_gprs_location_req m
        else encode_update_gprs_location_res m)
    else if m.operation == MapOperation.cancel_location
    then encode_cancel_location_req m
    else if m.operation == MapOperation.insert_subscriber_data
    then encode_insert_subscriber_data_req m
    else if m.operation == MapOperation.delete_subscriber_data
    then encode_delete_subscriber_data_req m
    else if m.operation == MapOperation.purge_ms
    then (if is_invoke m.component then encode_purge_ms_req m else encode_purge_ms_res m)
    else ok []

-- The second `switch`.
unfoldable pub encode_component : ComponentType → MapMessage → Bytes → Result Bytes
encode_component invoke m args = encode_invoke m args
encode_component return_result m args = encode_return_result m args
encode_component return_error m args = encode_return_error m
encode_component reject m args = err runtime_error

unfoldable pub tid_bytes : ℕ → Bytes
tid_bytes tid = uint8 (tid / 2 ^ 24) ∷ uint8 (tid / 2 ^ 16) ∷ uint8 (tid / 2 ^ 8) ∷ uint8 tid ∷ []

unfoldable pub encode : MapMessage → Result Bytes
encode m = do
  args ← encode_args m
  component ← encode_component m.component m args
  comp_portion ← wrap_constructed [] Tag.tcap_components component
  let is_request = is_invoke m.component
  let tid_tag = if is_request then Tag.tcap_otid else Tag.tcap_dtid
  tcap ← write_tlv [] tid_tag (tid_bytes m.transaction_id)
  let pdv_tag = if is_request then Tag.tcap_begin else Tag.tcap_end
  wrap_constructed [] pdv_tag (write_bytes tcap comp_portion)
