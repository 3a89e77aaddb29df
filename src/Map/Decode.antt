-- ===== src/Map/Decode.antt =====
-- `decode` of map/MapCodec.cpp, with its helpers. A `static` helper takes a message and returns it
-- changed; what its reader has left over is never read.
use gsup_map_proxy.Base.{
  ℕ, ◌+◌, ◌*◌, ◌^◌, Bool, true, false, not, ◌&&◌, List, [], ◌∷◌, ◌++◌, Option, none, some, ◌==◌,
  if◌then◌else◌, Result, ok, ◌>>=◌,
}
use gsup_map_proxy.Buffer.{Bytes, uint8, uint32, empty}
use gsup_map_proxy.Buffer.Loop.{until_empty}
use gsup_map_proxy.Bcd.{Text, unpack}
use gsup_map_proxy.Ber.{read_tlv, decode_int}
use gsup_map_proxy.Map.{
  MapAuthTriplet, MapAuthQuintuplet, MapMessage, new_message, invoke, return_result, return_error,
}
use gsup_map_proxy.Map.MapOperation
use gsup_map_proxy.Map.Tag

unfoldable pub bcd_to_imsi : Bytes → Result Text
bcd_to_imsi bcd = unpack bcd

-- `static_cast<uint8_t>(decodeInt(val))`.
unfoldable pub decode_uint8 : Bytes → Result ℕ
decode_uint8 val = do v ← decode_int val; ok (uint8 v)

abbrev pub is_none {ℓ} : {A : Type ℓ} → Option A → Bool
is_none none = true
is_none (some a) = false

abbrev pub set_imsi : Bytes → MapMessage → Result MapMessage
set_imsi val m = do imsi ← bcd_to_imsi val; ok (record m { imsi = imsi })

-- One TLV of a loop `while (!sr.empty()) { ... }`: it is read and handled.
unfoldable pub tlv_round {ℓ} :
    {S : Type ℓ} → (ℕ → Bytes → S → Result S) → S → Bytes → Result (S × Bytes)
tlv_round handle s r = do (tag, val, r) ← read_tlv r; s ← handle tag val s; ok (s, r)

unfoldable pub each_tlv {ℓ} : {S : Type ℓ} → (ℕ → Bytes → S → Result S) → S → Bytes → Result S
each_tlv handle s r = until_empty (tlv_round handle) s r

-- `if (r.empty()) return m;`, then the SEQUENCE whose value is read by the loop. Its tag is not looked at.
unfoldable pub in_sequence :
    (MapMessage → Bytes → Result MapMessage) → Bytes → MapMessage → Result MapMessage
in_sequence inside r m = if empty r then ok m else (do (tag, seq, r) ← read_tlv r; inside m seq)

unfoldable pub auth_info_req_tlv : ℕ → Bytes → MapMessage → Result MapMessage
auth_info_req_tlv t val m =
    if t == Tag.ber_octet_str && empty m.imsi
    then set_imsi val m
    else if t == Tag.ber_int && is_none m.num_requested_vectors
    then (do v ← decode_uint8 val; ok (record m { num_requested_vectors = some v }))
    else ok m

unfoldable pub decode_send_auth_info_req : Bytes → MapMessage → Result MapMessage
decode_send_auth_info_req r m = if empty r then ok m else (do
  (tag, seq, r) ← read_tlv r
  if not (tag == Tag.ber_sequence) then ok m else each_tlv auth_info_req_tlv m seq)

-- The octet strings of one authentication set.
unfoldable pub auth_field_tlv : ℕ → Bytes → List Bytes → Result (List Bytes)
auth_field_tlv ft v fields = ok (if ft == Tag.ber_octet_str then fields ++ v ∷ [] else fields)

-- Three or four fields make a triplet, five or more a quintuplet.
unfoldable pub add_auth_set : List Bytes → MapMessage → MapMessage
add_auth_set (rand ∷ xres ∷ ck ∷ ik ∷ autn ∷ more) m =
    let q : MapAuthQuintuplet = record {
      rand = rand;
      xres = xres;
      ck = ck;
      ik = ik;
      autn = autn;
    } in
    record m { auth_quintuplets = m.auth_quintuplets ++ q ∷ [] }
add_auth_set (rand ∷ sres ∷ kc ∷ more) m =
    let t : MapAuthTriplet = record { rand = rand; sres = sres; kc = kc } in
    record m { auth_triplets = m.auth_triplets ++ t ∷ [] }
add_auth_set _ m = m

unfoldable pub auth_set_tlv : ℕ → Bytes → MapMessage → Result MapMessage
auth_set_tlv t val m =
    if not (t == Tag.ber_sequence)
    then ok m
    else (do fields ← each_tlv auth_field_tlv [] val; ok (add_auth_set fields m))

unfoldable pub decode_send_auth_info_res : Bytes → MapMessage → Result MapMessage
decode_send_auth_info_res r m = in_sequence (each_tlv auth_set_tlv) r m

-- The loops that keep `firstOctet` beside the message.
abbrev pub Flagged : Type 0
Flagged = Bool × MapMessage

unfoldable pub each_flagged :
    (ℕ → Bytes → Flagged → Result Flagged) → MapMessage → Bytes → Result MapMessage
each_flagged handle m seq = do (first, m) ← each_tlv handle (true, m) seq; ok m

abbrev pub take_imsi : Bytes → MapMessage → Result Flagged
take_imsi val m = do m ← set_imsi val m; ok (false, m)

unfoldable pub update_gprs_req_tlv : ℕ → Bytes → Flagged → Result Flagged
update_gprs_req_tlv t val (first, m) =
    if not (t == Tag.ber_octet_str)
    then ok (first, m)
    else if first && empty m.imsi
    then take_imsi val m
    else if is_none m.sgsn_number
    then ok (first, record m { sgsn_number = some val })
    else if is_none m.sgsn_address
    then ok (first, record m { sgsn_address = some val })
    else ok (first, m)

unfoldable pub decode_update_gprs_location_req : Bytes → MapMessage → Result MapMessage
decode_update_gprs_location_req r m = in_sequence (each_flagged update_gprs_req_tlv) r m

unfoldable pub update_gprs_res_tlv : ℕ → Bytes → MapMessage → Result MapMessage
update_gprs_res_tlv t val m = ok (
    if t == Tag.ber_octet_str && is_none m.hlr_number
    then record m { hlr_number = some val }
    else m)

unfoldable pub decode_update_gprs_location_res : Bytes → MapMessage → Result MapMessage
decode_update_gprs_location_res r m = in_sequence (each_tlv update_gprs_res_tlv) r m

unfoldable pub cancel_location_tlv : ℕ → Bytes → Flagged → Result Flagged
cancel_location_tlv t val (first, m) =
    if t == Tag.ber_octet_str && first
    then take_imsi val m
    else if t == Tag.ber_int
    then (do v ← decode_uint8 val; ok (first, record m { cancel_type = some v }))
    else ok (first, m)

unfoldable pub decode_cancel_location_req : Bytes → MapMessage → Result MapMessage
decode_cancel_location_req r m = in_sequence (each_flagged cancel_location_tlv) r m

unfoldable pub insert_data_tlv : ℕ → Bytes → Flagged → Result Flagged
insert_data_tlv t val (first, m) =
    if not (t == Tag.ber_octet_str)
    then ok (first, m)
    else if first
    then take_imsi val m
    else if is_none m.msisdn
    then ok (first, record m { msisdn = some val })
    else ok (first, m)

unfoldable pub decode_insert_subscriber_data_req : Bytes → MapMessage → Result MapMessage
decode_insert_subscriber_data_req r m = in_sequence (each_flagged insert_data_tlv) r m

-- Only the first TLV is read.
unfoldable pub first_imsi : MapMessage → Bytes → Result MapMessage
first_imsi m seq = if empty seq then ok m else (do
  (t, val, r) ← read_tlv seq
  if t == Tag.ber_octet_str && empty m.imsi then set_imsi val m else ok m)

unfoldable pub decode_delete_subscriber_data_req : Bytes → MapMessage → Result MapMessage
decode_delete_subscriber_data_req r m = in_sequence first_imsi r m

unfoldable pub purge_ms_req_tlv : ℕ → Bytes → Flagged → Result Flagged
purge_ms_req_tlv t val (first, m) =
    if not (t == Tag.ber_octet_str)
    then ok (first, m)
    else if first
    then take_imsi val m
    else if is_none m.sgsn_number
    then ok (first, record m { sgsn_number = some val })
    else ok (first, m)

unfoldable pub decode_purge_ms_req : Bytes → MapMessage → Result MapMessage
decode_purge_ms_req r m = in_sequence (each_flagged purge_ms_req_tlv) r m

unfoldable pub purge_ms_res_tlv : ℕ → Bytes → MapMessage → Result MapMessage
purge_ms_res_tlv t val m = ok (if t == Tag.ber_null then record m { freeze_ptmsi = true } else m)

unfoldable pub decode_purge_ms_res : Bytes → MapMessage → Result MapMessage
decode_purge_ms_res r m = in_sequence (each_tlv purge_ms_res_tlv) r m

-- The `switch` on the operation of an Invoke.
unfoldable pub decode_invoke_args : Bytes → MapMessage → Result MapMessage
decode_invoke_args r m =
    if m.operation == MapOperation.send_authentication_info
    then decode_send_auth_info_req r m
    else if m.operation == MapOperation.update_gprs_location
    then decode_update_gprs_location_req r m
    else if m.operation == MapOperation.cancel_location
    then decode_cancel_location_req r m
    else if m.operation == MapOperation.insert_subscriber_data
    then decode_insert_subscriber_data_req r m
    else if m.operation == MapOperation.delete_subscriber_data
    then decode_delete_subscriber_data_req r m
    else if m.operation == MapOperation.purge_ms
    then decode_purge_ms_req r m
    else ok m

unfoldable pub decode_result_args : Bytes → MapMessage → Result MapMessage
decode_result_args r m =
    if m.operation == MapOperation.send_authentication_info
    then decode_send_auth_info_res r m
    else if m.operation == MapOperation.update_gprs_location
    then decode_update_gprs_location_res r m
    else if m.operation == MapOperation.purge_ms
    then decode_purge_ms_res r m
    else ok m

-- The branches of `decode` for the three components, on the component's value.
unfoldable pub decode_invoke : Bytes → MapMessage → Result MapMessage
decode_invoke r m = do
  (t, iv, r) ← read_tlv r
  id ← decode_uint8 iv
  (t, ov, r) ← read_tlv r
  op ← decode_uint8 ov
  decode_invoke_args r (record m { component = invoke; invoke_id = id; operation = op })

unfoldable pub decode_return_result : Bytes → MapMessage → Result MapMessage
decode_return_result r m = do
  (t, iv, r) ← read_tlv r
  id ← decode_uint8 iv
  (t, result, r) ← read_tlv r
  (t, ov, rr) ← read_tlv result
  op ← decode_uint8 ov
  decode_result_args rr (record m { component = return_result; invoke_id = id; operation = op })

unfoldable pub decode_return_error : Bytes → MapMessage → Result MapMessage
decode_return_error r m = do
  (t, iv, r) ← read_tlv r
  id ← decode_uint8 iv
  (t, ev, r) ← read_tlv r
  code ← decode_uint8 ev
  ok (record m { component = return_error; invoke_id = id; error_code = some code })

unfoldable pub component_tlv : ℕ → Bytes → MapMessage → Result MapMessage
component_tlv tag val m =
    if tag == Tag.invoke
    then decode_invoke val m
    else if tag == Tag.return_result
    then decode_return_result val m
    else if tag == Tag.return_error
    then decode_return_error val m
    else ok m

-- `for (b : val) tid = (tid << 8) | b;` in 32 bits.
unfoldable pub decode_tid : ℕ → Bytes → ℕ
decode_tid tid [] = tid
decode_tid tid (b ∷ val) = decode_tid (uint32 (tid * 2 ^ 8 + b)) val

unfoldable pub tcap_tlv : ℕ → Bytes → MapMessage → Result MapMessage
tcap_tlv t val m =
    if t == Tag.tcap_otid
    then ok (record m { transaction_id = decode_tid 0 val })
    else if t == Tag.tcap_dtid
    then ok (record m { transaction_id = decode_tid 0 val })
    else if t == Tag.tcap_components
    then each_tlv component_tlv m val
    else ok m

-- The tag of the PDU is read and not used.
unfoldable pub decode : Bytes → Result MapMessage
decode data_bytes = do
  (pdv_tag, tcap_body, r) ← read_tlv data_bytes
  each_tlv tcap_tlv new_message tcap_body
