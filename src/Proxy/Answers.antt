-- ===== src/Proxy/Answers.antt =====
-- A request and its answer together, in both directions.
use gsup_map_proxy.Base.{
  ℕ, ◌+◌, ◌≡◌, refl, [], ◌∷◌, Option, none, some, ok, Result, err, stuck, nat_eq, text_eq, arith,
}
use gsup_map_proxy.Buffer.{Bytes}
use gsup_map_proxy.Assoc
use gsup_map_proxy.Assoc.{beq_self, find-erase, find-assign, find-assign_same}
use gsup_map_proxy.Gsup
use gsup_map_proxy.Gsup.{GsupMessage}
use gsup_map_proxy.Map
use gsup_map_proxy.Map.{MapMessage, return_result, return_error}
use gsup_map_proxy.Map.MapOperation
use gsup_map_proxy.Transactions.{PendingTransaction}
use gsup_map_proxy.Transactions
use gsup_map_proxy.Transactions.Table
use gsup_map_proxy.Transactions.Table.{allocated}
use gsup_map_proxy.Converter.{
  gsup_to_map, map_to_gsup, map_invoke_to_gsup, gsup_to_map_result, expected_gsup_error,
}
use gsup_map_proxy.Map.Encode.{is_invoke}
use gsup_map_proxy.Proxy.{
  HlrTxEntry, Proxy, Handled, forget, try_catch, to_sgsn, to_hlr, handle_gsup_hlr_response,
  handle_gsup_request, handle_hlr_initiated, complete_response, handle_map_response,
}
use gsup_map_proxy.Proxy.Timeouts.{delivered}
use gsup_map_proxy.Proxy.Invariant.{IsValid}

-- The error message of a type, for the request `g`.
abbrev pub error_for : GsupMessage → ℕ → Option ℕ → GsupMessage
error_for g type code = record Gsup.new_message { type = type; imsi = g.imsi; cause = code }

-- A ReturnError with nothing but a TID and a cause, as it comes from the wire.
abbrev pub IsBareError : ℕ → MapMessage → Type 0
IsBareError tid r =
    (r.transaction_id ≡ tid)
    × (r.component ≡ return_error)
    × (r.operation ≡ MapOperation.unknown)
    × (r.imsi ≡ [])

sends :
    (p : Proxy) (client : ℕ) (encoded : Result Bytes)
    → (try_catch {B = Handled} encoded (λ d. (p, to_sgsn d client ∷ [])) (p, [])).1
      ≡ try_catch encoded (λ d. to_sgsn d client ∷ []) []
sends p client (ok d) = refl
sends p client (err e) = refl
sends p client stuck = refl

module _ (now : ℕ) (p : Proxy) (g : GsupMessage) (client : ℕ) (v : IsValid p) where
  -- A request that converts and encodes.
  request_sent :
      (m : MapMessage) (bytes : Bytes)
      → gsup_to_map g p.tx_mgr.tid_counter (allocated now p.tx_mgr g.imsi client).map_invoke_id
        ≡ ok m
      → Map.Encode.encode m ≡ ok bytes
      → handle_gsup_request now p g client ≡ (
        record p {
          tx_mgr = (Transactions.allocate now p.tx_mgr g.imsi client).1;
          pending_ops = Assoc.assign p.tx_mgr.tid_counter m.operation p.pending_ops;
        },
        to_hlr bytes ∷ [],
      )
  unfolding handle_gsup_request
  request_sent m bytes converted encoded =
      rw (Table.allocate-tid now p.tx_mgr g.imsi client v.manager)
        (rw (found) (rw converted (rw encoded refl)))
    where
      found :
          Transactions.find
            (Transactions.allocate now p.tx_mgr g.imsi client).1
            p.tx_mgr.tid_counter
          ≡ some (allocated now p.tx_mgr g.imsi client)
      found =
          ground
            (arith, Table.find-allocate now p.tx_mgr g.imsi client v.manager p.tx_mgr.tid_counter)

  error_converts :
      (m r : MapMessage) (type id : ℕ)
      → gsup_to_map g p.tx_mgr.tid_counter id ≡ ok m
      → expected_gsup_error g.type ≡ ok type
      → map_to_gsup (record r { component = return_error; operation = m.operation; imsi = g.imsi })
        ≡ ok (error_for g type r.error_code)
  unfolding gsup_to_map map_to_gsup expected_gsup_error
  error_converts m r type id converted expected = ground arith

  -- The state that a sent request leaves.
  abbrev waiting : MapMessage → Proxy
  waiting m = record p {
    tx_mgr = (Transactions.allocate now p.tx_mgr g.imsi client).1;
    pending_ops = Assoc.assign p.tx_mgr.tid_counter m.operation p.pending_ops;
  }

  answer_sent :
      (m r : MapMessage) (a : GsupMessage)
      → r.transaction_id ≡ p.tx_mgr.tid_counter
      → map_to_gsup (complete_response (waiting m) (allocated now p.tx_mgr g.imsi client) r) ≡ ok a
      → (handle_map_response (waiting m) r).1 ≡ delivered a client
  unfolding handle_map_response allocated
  answer_sent m r a same converted =
      rw (found, handle_map_response)
        (rw converted (sends (forget (waiting m) r.transaction_id) client (Gsup.Encode.encode a)))
    where
      found :
          Transactions.find (waiting m).tx_mgr r.transaction_id
          ≡ some (allocated now p.tx_mgr g.imsi client)
      found =
          ground
            (arith, same, Table.find-allocate now p.tx_mgr g.imsi client v.manager r.transaction_id)

  bare_completed :
      (m r : MapMessage)
      → IsBareError p.tx_mgr.tid_counter r
      → complete_response (waiting m) (allocated now p.tx_mgr g.imsi client) r
        ≡ record r { component = return_error; operation = m.operation; imsi = g.imsi }
  unfolding complete_response allocated
  bare_completed m r (tid, component, unknown, no_imsi) =
      ground (arith, find-assign r.transaction_id p.tx_mgr.tid_counter m.operation p.pending_ops)

  -- In a valid state, a request that converts to MAP and encodes is sent to the HLR as one message.
  -- A ReturnError that then comes back with only the request's TID and a cause is answered to the
  -- client that made the request: one message, the error type that `expectedGsupError` names for
  -- the request's own, with the request's IMSI and that cause; or by nothing, if that error cannot
  -- be encoded.
  pub handle_map_response-handle_gsup_request :
      (m r : MapMessage) (bytes : Bytes) (type : ℕ)
      → gsup_to_map g p.tx_mgr.tid_counter (allocated now p.tx_mgr g.imsi client).map_invoke_id
        ≡ ok m
      → Map.Encode.encode m ≡ ok bytes
      → IsBareError p.tx_mgr.tid_counter r
      → expected_gsup_error g.type ≡ ok type
      → ((handle_gsup_request now p g client).1 ≡ to_hlr bytes ∷ [])
        × ((handle_map_response (handle_gsup_request now p g client).0 r).1
            ≡ delivered (error_for g type r.error_code) client)
  handle_map_response-handle_gsup_request m r bytes type converted encoded bare expected =
      rw (request_sent m bytes converted encoded) (
        refl,
        answer_sent m r (error_for g type r.error_code) bare.0 (
            rw (bare_completed m r bare) (
              error_converts m r type (allocated now p.tx_mgr g.imsi client).map_invoke_id converted
                expected)),
      )

module _ (now : ℕ) (p : Proxy) (m : MapMessage) (g : GsupMessage) where
  invoke_sent :
      (bytes : Bytes)
      → map_invoke_to_gsup m ≡ ok g
      → Gsup.Encode.encode g ≡ ok bytes
      → (handle_hlr_initiated now p m).1 ≡ to_sgsn bytes 0 ∷ []
  unfolding handle_hlr_initiated
  invoke_sent bytes converted encoded = rw converted (rw encoded refl)

  -- The entry that waits for the SGSN's reply.
  abbrev entry_of : HlrTxEntry
  entry_of = record {
    map_transaction_id = m.transaction_id;
    map_invoke_id = m.invoke_id;
    map_operation = m.operation;
    created_at = now;
  }

  invoke_filed :
      (bytes : Bytes)
      → map_invoke_to_gsup m ≡ ok g
      → Gsup.Encode.encode g ≡ ok bytes
      → Assoc.find g.imsi (handle_hlr_initiated now p m).0.hlr_tx ≡ some entry_of
  unfolding handle_hlr_initiated
  invoke_filed bytes converted encoded =
      rw converted (rw encoded (find-assign_same g.imsi entry_of p.hlr_tx))

  result_converts :
      (r : GsupMessage)
      → map_invoke_to_gsup m ≡ ok g
      → r.type ≡ g.type + 2
      → gsup_to_map_result r m.transaction_id m.invoke_id
        ≡ ok (record Map.new_message {
          transaction_id = m.transaction_id;
          invoke_id = m.invoke_id;
          operation = m.operation;
          component = return_result;
          imsi = r.imsi;
        })
  unfolding map_invoke_to_gsup gsup_to_map_result
  result_converts r converted type = ground arith

  -- An Invoke of the HLR that converts to GSUP and encodes goes to all SGSN sessions as one
  -- message. When an SGSN then sends the result of that request (its type plus 2) for the same
  -- IMSI, and the ReturnResult encodes, the HLR gets one ReturnResult, for the Invoke's operation
  -- under the Invoke's TID and invoke ID, and the entry is gone.
  pub handle_gsup_hlr_response-handle_hlr_initiated :
      (r : GsupMessage) (bytes reply : Bytes)
      → map_invoke_to_gsup m ≡ ok g
      → Gsup.Encode.encode g ≡ ok bytes
      → r.imsi ≡ g.imsi
      → r.type ≡ g.type + 2
      → Map.Encode.encode (record Map.new_message {
        transaction_id = m.transaction_id;
        invoke_id = m.invoke_id;
        operation = m.operation;
        component = return_result;
        imsi = r.imsi;
      })
        ≡ ok reply
      → ((handle_hlr_initiated now p m).1 ≡ to_sgsn bytes 0 ∷ [])
        × ((handle_gsup_hlr_response (handle_hlr_initiated now p m).0 r).1 ≡ to_hlr reply ∷ [])
        × (Assoc.find g.imsi (handle_gsup_hlr_response (handle_hlr_initiated now p m).0 r).0.hlr_tx
            ≡ none)
  unfolding handle_gsup_hlr_response
  handle_gsup_hlr_response-handle_hlr_initiated r bytes reply converted encoded imsi type replied =
      (
        invoke_sent bytes converted encoded,
        rw (filed, handle_gsup_hlr_response)
            (rw (result_converts r converted type) (rw replied refl)),
        rw (filed, handle_gsup_hlr_response)
            (rw (result_converts r converted type) (rw replied (ground (arith, gone)))),
      )
    where
      filed : Assoc.find r.imsi (handle_hlr_initiated now p m).0.hlr_tx ≡ some entry_of
      filed = rw imsi (invoke_filed bytes converted encoded)

      gone : Assoc.find g.imsi (Assoc.erase r.imsi (handle_hlr_initiated now p m).0.hlr_tx) ≡ none
      gone = rw imsi (
          rw (find-erase g.imsi g.imsi (handle_hlr_initiated now p m).0.hlr_tx)
            (rw (beq_self g.imsi) refl))
