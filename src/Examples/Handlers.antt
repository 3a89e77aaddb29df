-- ===== src/Examples/Handlers.antt =====
-- Examples for the proxy's handlers.
use gsup_map_proxy.Base.{
  ℕ, ◌≡◌, refl, List, [], ◌∷◌, none, some, if◌then◌else◌, ok, nat_eq, text_eq, arith,
}
use gsup_map_proxy.Buffer.{Bytes}
use gsup_map_proxy.Buffer.{write8, write_bytes, read8, read_bytes}
use gsup_map_proxy.Buffer.Loop.{until_empty}
use gsup_map_proxy.Bcd.{pack}
use gsup_map_proxy.Ber.{
  write_tlv, write_length, write_tlv_int, encode_int, wrap_constructed, read_tlv, read_length,
  decode_int,
}
use gsup_map_proxy.Assoc
use gsup_map_proxy.Gsup
use gsup_map_proxy.Gsup.{GsupMessage}
use gsup_map_proxy.Gsup.MessageType
use gsup_map_proxy.Map
use gsup_map_proxy.Map.{MapMessage, return_result, return_error}
use gsup_map_proxy.Map.MapOperation
use gsup_map_proxy.Map.Encode.{is_invoke}
use gsup_map_proxy.Transactions
use gsup_map_proxy.Transactions.{PendingTransaction, is_stale}
use gsup_map_proxy.Transactions.Table.{allocated, stale_at}
use gsup_map_proxy.Converter.{gsup_to_map, expected_gsup_error}
use gsup_map_proxy.Proxy.{
  Proxy, new, to_sgsn, to_hlr, handle_gsup_hlr_response, handle_gsup_request, handle_hlr_initiated,
  forget, handle_map_response, handle_map_payload, nack_all_pending_transactions,
  expire_sgsn_transactions, Event, gsup_received, map_received, hlr_disconnected, timer, run,
}
use gsup_map_proxy.Proxy.Invariant.{IsValid, new-IsValid}
use gsup_map_proxy.Proxy.Run.{run-new-IsValid}
use gsup_map_proxy.Proxy.Routing.{AtMostOneTo, handle_map_payload-forget, handle_map_payload-twice}
use gsup_map_proxy.Proxy.Timeouts.{nacks, nack_all-nacks, find-expire_sgsn}
use gsup_map_proxy.Proxy.Answers.{
  IsBareError, handle_map_response-handle_gsup_request,
  handle_gsup_hlr_response-handle_hlr_initiated,
}
use gsup_map_proxy.Examples.Messages.{
  some_imsi, auth_request, cancel_invoke, cancel_request, cancel_converts,
}

abbrev auth_bytes : Bytes
auth_bytes = 0x08 ∷ 0x01 ∷ 0x03 ∷ 0x62 ∷ 0x02 ∷ 0xf1 ∷ []

abbrev auth_invoke : MapMessage
auth_invoke = record Map.new_message {
  transaction_id = 1;
  operation = MapOperation.send_authentication_info;
  imsi = some_imsi;
  num_requested_vectors = some 1;
}

abbrev auth_invoke_bytes : Bytes
auth_invoke_bytes =
    98 ∷ 26 ∷ 72 ∷ 4 ∷ 0 ∷ 0 ∷ 0 ∷ 1 ∷ 108 ∷ 18 ∷ 161 ∷ 16 ∷ 2 ∷ 1 ∷ 1 ∷ 2 ∷ 1 ∷ 56 ∷ 48 ∷ 8 ∷ 4 ∷ 3
    ∷ 98 ∷ 2 ∷ 241 ∷ 2 ∷ 1 ∷ 1 ∷ []

abbrev reply_bytes : Bytes
reply_bytes =
    100 ∷ 25 ∷ 73 ∷ 4 ∷ 0 ∷ 0 ∷ 0 ∷ 77 ∷ 108 ∷ 17 ∷ 162 ∷ 15 ∷ 2 ∷ 1 ∷ 3 ∷ 48 ∷ 10 ∷ 2 ∷ 1 ∷ 3 ∷ 48
    ∷ 5 ∷ 4 ∷ 3 ∷ 98 ∷ 2 ∷ 241 ∷ []

abbrev cancel_bytes : Bytes
cancel_bytes = 28 ∷ 1 ∷ 3 ∷ 98 ∷ 2 ∷ 241 ∷ 6 ∷ 1 ∷ 1 ∷ []

abbrev cancel_result : GsupMessage
cancel_result = record Gsup.new_message {
  type = MessageType.location_cancel_result;
  imsi = some_imsi;
}

-- "system failure" for the request with TID 1.
abbrev error_payload : Bytes
error_payload = 100 ∷ 16 ∷ 73 ∷ 4 ∷ 0 ∷ 0 ∷ 0 ∷ 1 ∷ 108 ∷ 8 ∷ 163 ∷ 6 ∷ 2 ∷ 1 ∷ 1 ∷ 2 ∷ 1 ∷ 34 ∷ []

abbrev error_response : MapMessage
error_response = record Map.new_message {
  transaction_id = 1;
  component = return_error;
  error_code = some 34;
}

abbrev waiting_record : PendingTransaction
waiting_record = record {
  map_transaction_id = 1;
  map_invoke_id = 1;
  imsi = some_imsi;
  client_context = 5;
  created_at = 0;
}

-- The state once client 5 has sent a request.
abbrev waiting : Proxy
waiting = record {
  tx_mgr = record {
    tid_counter = 2;
    invoke_id_counter = 2;
    timeout = 30;
    transactions = (1, waiting_record) ∷ [];
  };
  hlr_tx = [];
  pending_ops = (1, MapOperation.send_authentication_info) ∷ [];
}

waiting_pending : Transactions.find waiting.tx_mgr 1 ≡ some waiting_record
unfolding Transactions.find Assoc.find
waiting_pending = refl

error_decodes : Map.Decode.decode error_payload ≡ ok error_response
unfolding Map.Decode.decode read_tlv read8 read_length read_bytes Map.Decode.each_tlv until_empty
    Map.Decode.tlv_round Map.Decode.tcap_tlv Map.Decode.component_tlv Map.Decode.decode_return_error
    Map.Decode.decode_uint8 decode_int Map.Decode.decode_tid
error_decodes = refl

request_converts :
    gsup_to_map auth_request
      (new 30).tx_mgr.tid_counter
      (allocated 0 (new 30).tx_mgr auth_request.imsi 5).map_invoke_id
    ≡ ok auth_invoke
unfolding gsup_to_map new allocated
request_converts = refl

error_is_bare : IsBareError (new 30).tx_mgr.tid_counter error_response
unfolding new Transactions.new
error_is_bare = (refl, refl, refl, refl)

error_expected : expected_gsup_error auth_request.type ≡ ok MessageType.send_auth_info_error
unfolding expected_gsup_error
error_expected = refl

invoke_encodes : Map.Encode.encode auth_invoke ≡ ok auth_invoke_bytes
unfolding Map.Encode.encode Map.Encode.encode_args Map.Encode.encode_send_auth_info_req write_tlv
    write_length Map.Encode.imsi_to_bcd pack write_tlv_int encode_int wrap_constructed write_bytes
    write8 Map.Encode.encode_component Map.Encode.encode_invoke Map.Encode.tid_bytes
invoke_encodes = refl

cancel_encodes : Gsup.Encode.encode cancel_request ≡ ok cancel_bytes
unfolding Gsup.Encode.encode Gsup.Encode.write_imsi Gsup.Encode.imsi_to_bcd Gsup.Encode.write_tlv
    pack Gsup.Encode.write_each Gsup.Encode.write_optional Gsup.Encode.write_optional1
    Gsup.Encode.write_flag Gsup.Encode.write_tlv1 write8 write_bytes
cancel_encodes = refl

reply_encodes :
    Map.Encode.encode (record Map.new_message {
      transaction_id = 77;
      invoke_id = 3;
      operation = MapOperation.cancel_location;
      component = return_result;
      imsi = some_imsi;
    })
    ≡ ok reply_bytes
unfolding Map.Encode.encode Map.Encode.encode_args Map.Encode.encode_cancel_location_req
    Map.Encode.write_cancel_type Map.Encode.encode_return_result write_tlv write_length
    Map.Encode.imsi_to_bcd pack write_tlv_int encode_int wrap_constructed write_bytes write8
    Map.Encode.encode_component Map.Encode.tid_bytes
reply_encodes = refl

-- A request of client 5, garbage from the HLR, the timer, and the loss of the HLR.
abbrev history : List (ℕ × Event)
history =
    (0, gsup_received auth_bytes 5)
    ∷ (1, map_received (1 ∷ []))
    ∷ (2, timer)
    ∷ (3, hlr_disconnected)
    ∷ []

run-new-IsValid_example : IsValid (run 10 (new 30) history).0
run-new-IsValid_example = run-new-IsValid 30 10 history (omega arith)

-- The state with the request still pending.
abbrev pending_state : Proxy
pending_state = (run 10 (new 30) ((0, gsup_received auth_bytes 5) ∷ [])).0

pending_state-IsValid : IsValid pending_state
pending_state-IsValid = run-new-IsValid 30 10 ((0, gsup_received auth_bytes 5) ∷ []) (omega arith)

abbrev error_answer : Bytes
error_answer = 9 ∷ 1 ∷ 3 ∷ 98 ∷ 2 ∷ 241 ∷ 2 ∷ 1 ∷ 34 ∷ []

handle_map_response-handle_gsup_request_example :
    ((handle_gsup_request 0 (new 30) auth_request 5).1 ≡ to_hlr auth_invoke_bytes ∷ [])
    × ((handle_map_response (handle_gsup_request 0 (new 30) auth_request 5).0 error_response).1
        ≡ to_sgsn error_answer 5 ∷ [])
unfolding Gsup.Encode.encode Gsup.Encode.write_imsi Gsup.Encode.imsi_to_bcd Gsup.Encode.write_tlv
    pack Gsup.Encode.write_each Gsup.Encode.write_optional Gsup.Encode.write_optional1
    Gsup.Encode.write_flag Gsup.Encode.write_tlv1 write8 write_bytes
handle_map_response-handle_gsup_request_example =
    handle_map_response-handle_gsup_request 0 (new 30) auth_request 5 (new-IsValid 30) auth_invoke
      error_response auth_invoke_bytes MessageType.send_auth_info_error request_converts
      invoke_encodes error_is_bare error_expected

handle_gsup_hlr_response-handle_hlr_initiated_example :
    ((handle_hlr_initiated 4 waiting cancel_invoke).1 ≡ to_sgsn cancel_bytes 0 ∷ [])
    × ((handle_gsup_hlr_response (handle_hlr_initiated 4 waiting cancel_invoke).0 cancel_result).1
        ≡ to_hlr reply_bytes ∷ [])
    × (Assoc.find cancel_request.imsi
          (handle_gsup_hlr_response
            (handle_hlr_initiated 4 waiting cancel_invoke).0
            cancel_result).0.hlr_tx
        ≡ none)
handle_gsup_hlr_response-handle_hlr_initiated_example =
    handle_gsup_hlr_response-handle_hlr_initiated 4 waiting cancel_invoke cancel_request
      cancel_result cancel_bytes reply_bytes cancel_converts cancel_encodes refl refl reply_encodes

handle_map_payload-forget_example :
    ((handle_map_payload 4 waiting error_payload).0 ≡ forget waiting 1)
    × AtMostOneTo 5 (handle_map_payload 4 waiting error_payload).1
handle_map_payload-forget_example =
    handle_map_payload-forget 4 waiting error_payload error_response waiting_record error_decodes
      refl waiting_pending

handle_map_payload-twice_example :
    handle_map_payload 6 (handle_map_payload 4 waiting error_payload).0 error_payload
    ≡ ((handle_map_payload 4 waiting error_payload).0, [])
handle_map_payload-twice_example =
    handle_map_payload-twice 4 6 waiting error_payload error_payload error_response error_response
      error_decodes error_decodes refl refl refl

nack_all-nacks_example :
    ((nack_all_pending_transactions pending_state).1
      ≡ nacks pending_state.tx_mgr pending_state.pending_ops)
    × ((nack_all_pending_transactions pending_state).0.pending_ops ≡ [])
    × ((k : ℕ) → Transactions.find (nack_all_pending_transactions pending_state).0.tx_mgr k ≡ none)
nack_all-nacks_example = nack_all-nacks pending_state pending_state-IsValid

find-expire_sgsn_example :
    (Transactions.find (expire_sgsn_transactions 40 pending_state).0.tx_mgr 1
      ≡ Assoc.unless
          (λ t. is_stale 40 t.created_at pending_state.tx_mgr.timeout)
          (Transactions.find pending_state.tx_mgr 1))
    × (Assoc.find 1 (expire_sgsn_transactions 40 pending_state).0.pending_ops ≡ (
        if stale_at 40 pending_state.tx_mgr.timeout (Transactions.find pending_state.tx_mgr 1)
        then none
        else Assoc.find 1 pending_state.pending_ops))
find-expire_sgsn_example = find-expire_sgsn 40 pending_state pending_state-IsValid 1
