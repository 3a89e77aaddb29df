-- ===== src/Map/Total.antt =====
-- The MAP decoder ends on every input: each round of its loops takes bytes.
use gsup_map_proxy.Base.{
  ℕ, ◌≢◌, true, [], ◌∷◌, ◌==◌, ◌&&◌, not, Result, ok, stuck, ◌>>=◌, Ensures, holds, throws,
  Ensures-if, Ensures-bind, Ensures-ne-stuck, Ensures-weaken, Ensures-of_ne_stuck, arith,
}
use gsup_map_proxy.Buffer.{Bytes, empty}
use gsup_map_proxy.Buffer.Loop.{Consumes, until_empty-ne-stuck}
use gsup_map_proxy.Bcd.RoundTrip.{unpack-ne-stuck}
use gsup_map_proxy.Ber.{read_tlv, decode_int}
use gsup_map_proxy.Ber.Tlv.{read_tlv-Ensures}
use gsup_map_proxy.Map.{MapMessage, new_message}
use gsup_map_proxy.Map.MapOperation
use gsup_map_proxy.Map.Tag
use gsup_map_proxy.Map.Decode.{
  bcd_to_imsi, decode_uint8, is_none, set_imsi, tlv_round, each_tlv, in_sequence, auth_info_req_tlv,
  decode_send_auth_info_req, auth_field_tlv, auth_set_tlv, decode_send_auth_info_res, Flagged,
  each_flagged, take_imsi, update_gprs_req_tlv, decode_update_gprs_location_req,
  update_gprs_res_tlv, decode_update_gprs_location_res, cancel_location_tlv,
  decode_cancel_location_req, insert_data_tlv, decode_insert_subscriber_data_req, first_imsi,
  decode_delete_subscriber_data_req, purge_ms_req_tlv, decode_purge_ms_req, purge_ms_res_tlv,
  decode_purge_ms_res, decode_invoke_args, decode_result_args, decode_invoke, decode_return_result,
  decode_return_error, component_tlv, tcap_tlv, decode,
}

-- There is a value or an exception.
abbrev pub Ends {ℓ} : {A : Type ℓ} → Result A → Type ℓ
Ends = Ensures (λ _. Unit {0})

done {ℓ} : {A : Type ℓ} {a : A} → Ends (ok a)
done = holds tt

then-Ends {ℓ κ} :
    {A : Type ℓ} {B : Type κ} {m : Result A} {f : A → Result B}
    → Ends m
    → ((a : A) → Ends (f a))
    → Ends (m >>= f)
then-Ends h k = Ensures-bind h (λ a _. k a)

read_tlv-Ends : (r : Bytes) → Ends (read_tlv r)
read_tlv-Ends r = Ensures-weaken (read_tlv-Ensures r) (λ _ _. tt)

decode_uint8-Ends : (val : Bytes) → Ends (decode_uint8 val)
unfolding decode_uint8 decode_int
decode_uint8-Ends [] = throws
decode_uint8-Ends (b ∷ val) = done

set_imsi-Ends : (val : Bytes) (m : MapMessage) → Ends (set_imsi val m)
unfolding bcd_to_imsi
set_imsi-Ends val m = then-Ends (Ensures-of_ne_stuck _ (unpack-ne-stuck val)) (λ _. done)

take_imsi-Ends : (val : Bytes) (m : MapMessage) → Ends (take_imsi val m)
take_imsi-Ends val m = then-Ends (set_imsi-Ends val m) (λ _. done)

-- A handler of TLVs that never gets stuck.
abbrev pub Handles {ℓ} : {S : Type ℓ} → (ℕ → Bytes → S → Result S) → Type ℓ
Handles {S} handle = (t : ℕ) (val : Bytes) (s : S) → Ends (handle t val s)

pub tlv_round-Consumes {ℓ} :
    {S : Type ℓ} (handle : ℕ → Bytes → S → Result S) → Handles handle → Consumes (tlv_round handle)
unfolding tlv_round
tlv_round-Consumes handle h s r =
    Ensures-bind (read_tlv-Ensures r)
      λ (tag, val, r') e. Ensures-bind (h tag val s) λ s' _. holds (omega arith)

each_tlv-Ends {ℓ} :
    {S : Type ℓ} (handle : ℕ → Bytes → S → Result S)
    → Handles handle
    → (s : S) (r : Bytes) → Ends (each_tlv handle s r)
unfolding each_tlv
each_tlv-Ends handle h s r =
    Ensures-of_ne_stuck _
      (until_empty-ne-stuck (tlv_round handle) (tlv_round-Consumes handle h) s r)

in_sequence-Ends :
    (inside : MapMessage → Bytes → Result MapMessage)
    → ((m : MapMessage) (seq : Bytes) → Ends (inside m seq))
    → (r : Bytes) (m : MapMessage) → Ends (in_sequence inside r m)
unfolding in_sequence
in_sequence-Ends inside h r m =
    Ensures-if (empty r) (λ _. done) λ _. then-Ends (read_tlv-Ends r) (λ (tag, seq, r'). h m seq)

each_flagged-Ends :
    (handle : ℕ → Bytes → Flagged → Result Flagged)
    → Handles handle
    → (m : MapMessage) (seq : Bytes) → Ends (each_flagged handle m seq)
unfolding each_flagged
each_flagged-Ends handle h m seq =
    then-Ends (each_tlv-Ends handle h (true, m) seq) (λ (first, m'). done)

pub auth_info_req_tlv-Handles : Handles auth_info_req_tlv
unfolding auth_info_req_tlv
auth_info_req_tlv-Handles t val m =
    Ensures-if (t == Tag.ber_octet_str && empty m.imsi) (λ _. set_imsi-Ends val m)
      λ _.
        Ensures-if (t == Tag.ber_int && is_none m.num_requested_vectors)
          (λ _. then-Ends (decode_uint8-Ends val) (λ _. done)) (λ _. done)

pub auth_field_tlv-Handles : Handles auth_field_tlv
unfolding auth_field_tlv
auth_field_tlv-Handles t val fields = done

pub auth_set_tlv-Handles : Handles auth_set_tlv
unfolding auth_set_tlv
auth_set_tlv-Handles t val m =
    Ensures-if (not (t == Tag.ber_sequence)) (λ _. done)
      λ _. then-Ends (each_tlv-Ends auth_field_tlv auth_field_tlv-Handles [] val) (λ _. done)

pub update_gprs_req_tlv-Handles : Handles update_gprs_req_tlv
unfolding update_gprs_req_tlv
update_gprs_req_tlv-Handles t val (first, m) =
    Ensures-if (not (t == Tag.ber_octet_str)) (λ _. done)
      λ _.
        Ensures-if (first && empty m.imsi) (λ _. take_imsi-Ends val m)
          λ _.
            Ensures-if (is_none m.sgsn_number) (λ _. done)
              λ _. Ensures-if (is_none m.sgsn_address) (λ _. done) (λ _. done)

pub update_gprs_res_tlv-Handles : Handles update_gprs_res_tlv
unfolding update_gprs_res_tlv
update_gprs_res_tlv-Handles t val m = done

pub cancel_location_tlv-Handles : Handles cancel_location_tlv
unfolding cancel_location_tlv
cancel_location_tlv-Handles t val (first, m) =
    Ensures-if (t == Tag.ber_octet_str && first) (λ _. take_imsi-Ends val m)
      λ _.
        Ensures-if (t == Tag.ber_int) (λ _. then-Ends (decode_uint8-Ends val) (λ _. done))
          (λ _. done)

pub insert_data_tlv-Handles : Handles insert_data_tlv
unfolding insert_data_tlv
insert_data_tlv-Handles t val (first, m) =
    Ensures-if (not (t == Tag.ber_octet_str)) (λ _. done)
      λ _.
        Ensures-if first (λ _. take_imsi-Ends val m)
          λ _. Ensures-if (is_none m.msisdn) (λ _. done) (λ _. done)

pub purge_ms_req_tlv-Handles : Handles purge_ms_req_tlv
unfolding purge_ms_req_tlv
purge_ms_req_tlv-Handles t val (first, m) =
    Ensures-if (not (t == Tag.ber_octet_str)) (λ _. done)
      λ _.
        Ensures-if first (λ _. take_imsi-Ends val m)
          λ _. Ensures-if (is_none m.sgsn_number) (λ _. done) (λ _. done)

pub purge_ms_res_tlv-Handles : Handles purge_ms_res_tlv
unfolding purge_ms_res_tlv
purge_ms_res_tlv-Handles t val m = done

first_imsi-Ends : (m : MapMessage) (seq : Bytes) → Ends (first_imsi m seq)
unfolding first_imsi
first_imsi-Ends m seq =
    Ensures-if (empty seq) (λ _. done)
      λ _. then-Ends (read_tlv-Ends seq) λ (t, val, r).
        Ensures-if (t == Tag.ber_octet_str && empty m.imsi) (λ _. set_imsi-Ends val m) (λ _. done)

decode_send_auth_info_req-Ends : (r : Bytes) (m : MapMessage) → Ends (decode_send_auth_info_req r m)
unfolding decode_send_auth_info_req
decode_send_auth_info_req-Ends r m =
    Ensures-if (empty r) (λ _. done)
      λ _. then-Ends (read_tlv-Ends r) λ (tag, seq, r').
        Ensures-if (not (tag == Tag.ber_sequence)) (λ _. done)
          (λ _. each_tlv-Ends auth_info_req_tlv auth_info_req_tlv-Handles m seq)

flagged_sequence-Ends :
    (handle : ℕ → Bytes → Flagged → Result Flagged)
    → Handles handle
    → (r : Bytes) (m : MapMessage) → Ends (in_sequence (each_flagged handle) r m)
flagged_sequence-Ends handle h = in_sequence-Ends (each_flagged handle) (each_flagged-Ends handle h)

tlv_sequence-Ends :
    (handle : ℕ → Bytes → MapMessage → Result MapMessage)
    → Handles handle
    → (r : Bytes) (m : MapMessage) → Ends (in_sequence (each_tlv handle) r m)
tlv_sequence-Ends handle h = in_sequence-Ends (each_tlv handle) (each_tlv-Ends handle h)

pub decode_invoke_args-Ends : (r : Bytes) (m : MapMessage) → Ends (decode_invoke_args r m)
unfolding decode_invoke_args decode_update_gprs_location_req decode_cancel_location_req
    decode_insert_subscriber_data_req decode_delete_subscriber_data_req decode_purge_ms_req
decode_invoke_args-Ends r m =
    Ensures-if (m.operation == MapOperation.send_authentication_info)
      (λ _. decode_send_auth_info_req-Ends r m)
      λ _.
        Ensures-if (m.operation == MapOperation.update_gprs_location)
          (λ _. flagged_sequence-Ends update_gprs_req_tlv update_gprs_req_tlv-Handles r m)
          λ _.
            Ensures-if (m.operation == MapOperation.cancel_location)
              (λ _. flagged_sequence-Ends cancel_location_tlv cancel_location_tlv-Handles r m)
              λ _.
                Ensures-if (m.operation == MapOperation.insert_subscriber_data)
                  (λ _. flagged_sequence-Ends insert_data_tlv insert_data_tlv-Handles r m)
                  λ _.
                    Ensures-if (m.operation == MapOperation.delete_subscriber_data)
                      (λ _. in_sequence-Ends first_imsi first_imsi-Ends r m)
                      λ _.
                        Ensures-if (m.operation == MapOperation.purge_ms)
                          (λ _. flagged_sequence-Ends purge_ms_req_tlv purge_ms_req_tlv-Handles r m)
                          (λ _. done)

pub decode_result_args-Ends : (r : Bytes) (m : MapMessage) → Ends (decode_result_args r m)
unfolding decode_result_args decode_send_auth_info_res decode_update_gprs_location_res
    decode_purge_ms_res
decode_result_args-Ends r m =
    Ensures-if (m.operation == MapOperation.send_authentication_info)
      (λ _. tlv_sequence-Ends auth_set_tlv auth_set_tlv-Handles r m)
      λ _.
        Ensures-if (m.operation == MapOperation.update_gprs_location)
          (λ _. tlv_sequence-Ends update_gprs_res_tlv update_gprs_res_tlv-Handles r m)
          λ _.
            Ensures-if (m.operation == MapOperation.purge_ms)
              (λ _. tlv_sequence-Ends purge_ms_res_tlv purge_ms_res_tlv-Handles r m) (λ _. done)

decode_invoke-Ends : (r : Bytes) (m : MapMessage) → Ends (decode_invoke r m)
unfolding decode_invoke
decode_invoke-Ends r m = then-Ends (read_tlv-Ends r) λ (t, iv, r₁).
    then-Ends (decode_uint8-Ends iv) λ id.
      then-Ends (read_tlv-Ends r₁)
        λ (t', ov, r₂). then-Ends (decode_uint8-Ends ov) λ op. decode_invoke_args-Ends r₂ _

decode_return_result-Ends : (r : Bytes) (m : MapMessage) → Ends (decode_return_result r m)
unfolding decode_return_result
decode_return_result-Ends r m = then-Ends (read_tlv-Ends r) λ (t, iv, r₁).
    then-Ends (decode_uint8-Ends iv) λ id. then-Ends (read_tlv-Ends r₁) λ (t', result, r₂).
      then-Ends (read_tlv-Ends result)
        λ (t'', ov, rr). then-Ends (decode_uint8-Ends ov) λ op. decode_result_args-Ends rr _

decode_return_error-Ends : (r : Bytes) (m : MapMessage) → Ends (decode_return_error r m)
unfolding decode_return_error
decode_return_error-Ends r m = then-Ends (read_tlv-Ends r) λ (t, iv, r₁).
    then-Ends (decode_uint8-Ends iv) λ id.
      then-Ends (read_tlv-Ends r₁) λ (t', ev, r₂). then-Ends (decode_uint8-Ends ev) λ code. done

pub component_tlv-Handles : Handles component_tlv
unfolding component_tlv
component_tlv-Handles t val m =
    Ensures-if (t == Tag.invoke) (λ _. decode_invoke-Ends val m)
      λ _.
        Ensures-if (t == Tag.return_result) (λ _. decode_return_result-Ends val m)
          λ _. Ensures-if (t == Tag.return_error) (λ _. decode_return_error-Ends val m) (λ _. done)

pub tcap_tlv-Handles : Handles tcap_tlv
unfolding tcap_tlv
tcap_tlv-Handles t val m =
    Ensures-if (t == Tag.tcap_otid) (λ _. done)
      λ _.
        Ensures-if (t == Tag.tcap_dtid) (λ _. done)
          λ _.
            Ensures-if (t == Tag.tcap_components)
              (λ _. each_tlv-Ends component_tlv component_tlv-Handles m val) (λ _. done)

-- The MAP decoder returns a message or throws on every input: no loop of it runs on.
pub decode-ne_stuck : (pdu : Bytes) → decode pdu ≢ stuck
unfolding decode
decode-ne_stuck pdu = Ensures-ne-stuck (
    then-Ends (read_tlv-Ends pdu)
      λ (tag, body, r). each_tlv-Ends tcap_tlv tcap_tlv-Handles new_message body)
