-- ===== src/Converter.antt =====
-- proxy/Converter.cpp: between GSUP and MAP messages. Log output is left out.
pub mod Laws
use gsup_map_proxy.Base.{
  ℕ, Bool, true, false, not, ◌||◌, List, [], ◌∷◌, ◌++◌, map, Option, none, some, ◌==◌,
  if◌then◌else◌, Result, ok, err, conversion_error, ◌>>=◌,
}
use gsup_map_proxy.Gsup.{AuthTuple, GsupMessage}
use gsup_map_proxy.Gsup
use gsup_map_proxy.Gsup.MessageType
use gsup_map_proxy.Map.{
  MapAuthTriplet, MapAuthQuintuplet, MapMessage, ComponentType, invoke, return_result, return_error,
  reject,
}
use gsup_map_proxy.Map
use gsup_map_proxy.Map.MapOperation
use gsup_map_proxy.Map.Encode.{value_or, is_invoke}

unfoldable pub gsup_to_map : GsupMessage → ℕ → ℕ → Result MapMessage
gsup_to_map gsup transaction_id invoke_id =
    let m : MapMessage = record Map.new_message {
      transaction_id = transaction_id;
      invoke_id = invoke_id;
      component = invoke;
      imsi = gsup.imsi;
    } in
    if gsup.type == MessageType.send_auth_info_request
    then ok (record m {
      operation = MapOperation.send_authentication_info;
      num_requested_vectors = some (value_or gsup.num_vectors_requested 1);
    })
    else if gsup.type == MessageType.update_location_request
    then ok (record m { operation = MapOperation.update_gprs_location })
    else if gsup.type == MessageType.location_cancel_request
    then ok (record m { operation = MapOperation.cancel_location; cancel_type = gsup.cancel_type })
    else if gsup.type == MessageType.insert_data_request
    then ok (record m { operation = MapOperation.insert_subscriber_data; msisdn = gsup.msisdn })
    else if gsup.type == MessageType.purge_ms_request
    then ok (record m { operation = MapOperation.purge_ms })
    else err conversion_error

abbrev pub is_return_error : ComponentType → Bool
is_return_error return_error = true
is_return_error _ = false

abbrev pub tuple_of_triplet : MapAuthTriplet → AuthTuple
tuple_of_triplet t = record Gsup.new_auth_tuple { rand = t.rand; sres = t.sres; kc = t.kc }

abbrev pub tuple_of_quintuplet : MapAuthQuintuplet → AuthTuple
tuple_of_quintuplet q = record {
  rand = q.rand;
  sres = [];
  kc = [];
  ik = some q.ik;
  ck = some q.ck;
  autn = some q.autn;
  res = some q.xres;
}

-- The two `switch`es of `mapToGsup`.
unfoldable pub error_type : ℕ → Result ℕ
error_type operation =
    if operation == MapOperation.send_authentication_info
    then ok MessageType.send_auth_info_error
    else if operation == MapOperation.update_gprs_location
    then ok MessageType.update_location_error
    else if operation == MapOperation.cancel_location
    then ok MessageType.location_cancel_error
    else if operation == MapOperation.insert_subscriber_data
    then ok MessageType.insert_data_error
    else if operation == MapOperation.purge_ms
    then ok MessageType.purge_ms_error
    else err conversion_error

unfoldable pub result_to_gsup : MapMessage → GsupMessage → Result GsupMessage
result_to_gsup m g =
    if m.operation == MapOperation.send_authentication_info
    then ok (record g {
      type = MessageType.send_auth_info_result;
      auth_tuples =
          (g.auth_tuples ++ map tuple_of_triplet m.auth_triplets)
          ++ map tuple_of_quintuplet m.auth_quintuplets;
    })
    else if m.operation == MapOperation.update_gprs_location
    then ok (record g { type = MessageType.update_location_result; hlr_number = m.hlr_number })
    else if m.operation == MapOperation.cancel_location
    then ok (record g { type = MessageType.location_cancel_result })
    else if m.operation == MapOperation.insert_subscriber_data
    then ok (record g { type = MessageType.insert_data_result })
    else if m.operation == MapOperation.purge_ms
    then ok (record g { type = MessageType.purge_ms_result; freeze_ptmsi = m.freeze_ptmsi })
    else err conversion_error

unfoldable pub map_to_gsup : MapMessage → Result GsupMessage
unfolding error_type result_to_gsup
map_to_gsup m =
    let g : GsupMessage = record Gsup.new_message { imsi = m.imsi } in
    if is_return_error m.component
    then (error_type m.operation >>= λ t. ok (record g { type = t; cause = m.error_code }))
    else result_to_gsup m g

unfoldable pub map_invoke_to_gsup : MapMessage → Result GsupMessage
map_invoke_to_gsup m =
    let g : GsupMessage = record Gsup.new_message { imsi = m.imsi } in
    if not (is_invoke m.component)
    then err conversion_error
    else if m.operation == MapOperation.insert_subscriber_data
    then ok (record g { type = MessageType.insert_data_request; msisdn = m.msisdn })
    else if m.operation == MapOperation.cancel_location
    then ok (record g { type = MessageType.location_cancel_request; cancel_type = m.cancel_type })
    else if m.operation == MapOperation.delete_subscriber_data
    then ok (record g { type = MessageType.delete_data_request })
    else if m.operation == MapOperation.purge_ms
    then ok (record g { type = MessageType.purge_ms_request })
    else err conversion_error

abbrev pub is_error : ℕ → Bool
is_error type =
    type == MessageType.insert_data_error
    || (type == MessageType.location_cancel_error
        || (type == MessageType.delete_data_error || type == MessageType.purge_ms_error))

-- The `switch` of `gsupToMapResult`.
unfoldable pub result_operation : ℕ → Result ℕ
result_operation type =
    if type == MessageType.insert_data_result || type == MessageType.insert_data_error
    then ok MapOperation.insert_subscriber_data
    else if type == MessageType.location_cancel_result || type == MessageType.location_cancel_error
    then ok MapOperation.cancel_location
    else if type == MessageType.delete_data_result || type == MessageType.delete_data_error
    then ok MapOperation.delete_subscriber_data
    else if type == MessageType.purge_ms_result || type == MessageType.purge_ms_error
    then ok MapOperation.purge_ms
    else err conversion_error

unfoldable pub gsup_to_map_result : GsupMessage → ℕ → ℕ → Result MapMessage
unfolding result_operation
gsup_to_map_result gsup transaction_id invoke_id =
    let m : MapMessage = record Map.new_message {
      transaction_id = transaction_id;
      invoke_id = invoke_id;
      imsi = gsup.imsi;
      is_last_component = true;
      component = (if is_error gsup.type then return_error else return_result);
      error_code = (if is_error gsup.type then gsup.cause else none);
    } in
    result_operation gsup.type >>= λ op. ok (record m { operation = op })

unfoldable pub is_hlr_initiated_gsup_type : ℕ → Bool
is_hlr_initiated_gsup_type type =
    type == MessageType.insert_data_result
    || (type == MessageType.insert_data_error
        || (type == MessageType.location_cancel_result
            || (type == MessageType.location_cancel_error
                || (type == MessageType.delete_data_result
                    || (type == MessageType.delete_data_error
                        || (type == MessageType.purge_ms_result
                            || type == MessageType.purge_ms_error))))))

unfoldable pub expected_gsup_result : ℕ → Result ℕ
expected_gsup_result req =
    if req == MessageType.send_auth_info_request
    then ok MessageType.send_auth_info_result
    else if req == MessageType.update_location_request
    then ok MessageType.update_location_result
    else if req == MessageType.location_cancel_request
    then ok MessageType.location_cancel_result
    else if req == MessageType.insert_data_request
    then ok MessageType.insert_data_result
    else if req == MessageType.purge_ms_request
    then ok MessageType.purge_ms_result
    else err conversion_error

unfoldable pub expected_gsup_error : ℕ → Result ℕ
expected_gsup_error req =
    if req == MessageType.send_auth_info_request
    then ok MessageType.send_auth_info_error
    else if req == MessageType.update_location_request
    then ok MessageType.update_location_error
    else if req == MessageType.location_cancel_request
    then ok MessageType.location_cancel_error
    else if req == MessageType.insert_data_request
    then ok MessageType.insert_data_error
    else if req == MessageType.purge_ms_request
    then ok MessageType.purge_ms_error
    else err conversion_error
