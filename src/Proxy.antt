-- ===== src/Proxy.antt =====
-- proxy/Proxy.hpp and proxy/Proxy.cpp: the proxy's state and its handlers. Log output is left out; a
-- handler returns the new state and what it sends. The clock's value is an argument.
pub mod Invariant
pub mod Requests
pub mod Timeouts
pub mod Run
pub mod Routing
pub mod Answers
use gsup_map_proxy.Base.{
  ℕ, ◌-◌, Bool, true, false, List, [], ◌∷◌, ◌++◌, Option, none, some, ltb, ◌==◌, if◌then◌else◌,
  Result, ok, err, stuck, nat_eq, text_eq,
}
use gsup_map_proxy.Buffer.{Bytes, empty}
use gsup_map_proxy.Bcd.{Text}
use gsup_map_proxy.Assoc
use gsup_map_proxy.Gsup.{GsupMessage}
use gsup_map_proxy.Gsup
use gsup_map_proxy.Map.{MapMessage, return_error}
use gsup_map_proxy.Map
use gsup_map_proxy.Map.MapOperation
use gsup_map_proxy.Map.Encode.{is_invoke, value_or}
use gsup_map_proxy.Transactions.{PendingTransaction, TransactionManager, is_stale}
use gsup_map_proxy.Transactions
use gsup_map_proxy.Converter.{
  gsup_to_map, map_to_gsup, map_invoke_to_gsup, gsup_to_map_result, is_hlr_initiated_gsup_type,
}

pub record HlrTxEntry : Type 0 where
  pub map_transaction_id : ℕ
  pub map_invoke_id : ℕ
  pub map_operation : ℕ
  pub created_at : ℕ

pub record Proxy : Type 0 where
  pub tx_mgr : TransactionManager
  pub hlr_tx : List (Text × HlrTxEntry)
  pub pending_ops : List (ℕ × ℕ)

-- `sgsnTransport_->send(data, clientId)` and `hlrTransport_->send(data)`; client 0 means all sessions.
pub data Sent : Type 0 where
  to_sgsn : Bytes → ℕ → Sent
  to_hlr : Bytes → Sent

abbrev pub Handled : Type 0
Handled = Proxy × List Sent

unfoldable pub new : ℕ → Proxy
unfolding Transactions.new
new timeout = record { tx_mgr = Transactions.new timeout; hlr_tx = []; pending_ops = [] }

-- `try { a = r; } catch (...) { return handler; }`. The converters throw no exception but
-- `ConversionError`, so this serves their `catch` clauses too; `stuck` is no outcome of the code.
abbrev pub try_catch {ℓ κ} : {A : Type ℓ} {B : Type κ} → Result A → (A → B) → B → B
try_catch (ok a) continue handler = continue a
try_catch (err e) continue handler = handler
try_catch stuck continue handler = handler

-- `txMgr_.find(tid)->mapInvokeId`, for a transaction that is there.
abbrev pub invoke_id_of : Option PendingTransaction → ℕ
invoke_id_of none = 0
invoke_id_of (some t) = t.map_invoke_id

-- HLR-initiated response: a GSUP result from the SGSN goes back as a MAP result.
unfoldable pub handle_gsup_hlr_response : Proxy → GsupMessage → Handled
handle_gsup_hlr_response p gsup_msg = elim (Assoc.find gsup_msg.imsi p.hlr_tx) [
  | none ↦ (p, [])
  | some entry ↦
      let p' = record p { hlr_tx = Assoc.erase gsup_msg.imsi p.hlr_tx } in
      try_catch (gsup_to_map_result gsup_msg entry.map_transaction_id entry.map_invoke_id)
        (λ map_msg.
          try_catch (Map.Encode.encode map_msg) (λ map_data. (p', to_hlr map_data ∷ [])) (p', []))
        (p', [])
]

-- What `handleGsupPayload` does with an SGSN-initiated request.
unfoldable pub handle_gsup_request : ℕ → Proxy → GsupMessage → ℕ → Handled
handle_gsup_request now p gsup_msg client =
    let (tid, mgr) = Transactions.allocate now p.tx_mgr gsup_msg.imsi client in
    let invoke_id = invoke_id_of (Transactions.find mgr tid) in
    let completed = Transactions.complete mgr tid in
    try_catch (gsup_to_map gsup_msg tid invoke_id)
      (λ map_msg.
        try_catch (Map.Encode.encode map_msg)
          (λ map_data. (
            record p {
              tx_mgr = mgr;
              pending_ops = Assoc.assign tid map_msg.operation p.pending_ops;
            },
            to_hlr map_data ∷ [],
          ))
          (
            record p {
              tx_mgr = completed;
              pending_ops = Assoc.erase tid (Assoc.assign tid map_msg.operation p.pending_ops);
            },
            [],
          ))
      (record p { tx_mgr = completed }, [])

unfoldable pub handle_gsup_payload : ℕ → Proxy → Bytes → ℕ → Handled
unfolding handle_gsup_hlr_response handle_gsup_request
handle_gsup_payload now p payload client =
    try_catch (Gsup.Decode.decode payload)
      (λ gsup_msg.
        if is_hlr_initiated_gsup_type gsup_msg.type
        then handle_gsup_hlr_response p gsup_msg
        else handle_gsup_request now p gsup_msg client)
      (p, [])

-- HLR-initiated direction: a MAP Invoke goes to the SGSN as a GSUP request.
unfoldable pub handle_hlr_initiated : ℕ → Proxy → MapMessage → Handled
handle_hlr_initiated now p map_msg =
    try_catch (map_invoke_to_gsup map_msg)
      (λ gsup_msg.
        let entry : HlrTxEntry = record {
          map_transaction_id = map_msg.transaction_id;
          map_invoke_id = map_msg.invoke_id;
          map_operation = map_msg.operation;
          created_at = now;
        } in
        let tracked = Assoc.assign gsup_msg.imsi entry p.hlr_tx in
        try_catch (Gsup.Encode.encode gsup_msg)
          (λ gsup_data. (record p { hlr_tx = tracked }, to_sgsn gsup_data 0 ∷ []))
          (record p { hlr_tx = Assoc.erase gsup_msg.imsi tracked }, []))
      (p, [])

-- The IMSI and the operation that a response leaves out are taken from its transaction.
unfoldable pub complete_response : Proxy → PendingTransaction → MapMessage → MapMessage
complete_response p pending map_msg =
    let imsi = if empty map_msg.imsi then pending.imsi else map_msg.imsi in
    let op = value_or (Assoc.find map_msg.transaction_id p.pending_ops) map_msg.operation in
    record map_msg {
      imsi = imsi;
      operation = (if map_msg.operation == MapOperation.unknown then op else map_msg.operation);
    }

-- Both tables without a transaction.
abbrev pub forget : Proxy → ℕ → Proxy
forget p tid = record p {
  tx_mgr = Transactions.complete p.tx_mgr tid;
  pending_ops = Assoc.erase tid p.pending_ops;
}

-- What `handleMapPayload` does with a ReturnResult, ReturnError or Reject.
unfoldable pub handle_map_response : Proxy → MapMessage → Handled
unfolding complete_response
handle_map_response p map_msg = elim (Transactions.find p.tx_mgr map_msg.transaction_id) [
  | none ↦ (p, [])
  | some pending ↦
      let p' = forget p map_msg.transaction_id in
      try_catch (map_to_gsup (complete_response p pending map_msg))
        (λ gsup_msg.
          try_catch (Gsup.Encode.encode gsup_msg)
            (λ gsup_data. (p', to_sgsn gsup_data pending.client_context ∷ [])) (p', []))
        (p', [])
]

unfoldable pub handle_map_payload : ℕ → Proxy → Bytes → Handled
unfolding handle_hlr_initiated handle_map_response
handle_map_payload now p payload =
    try_catch (Map.Decode.decode payload)
      (λ map_msg.
        if is_invoke map_msg.component
        then handle_hlr_initiated now p map_msg
        else handle_map_response p map_msg)
      (p, [])

unfoldable pub expire_hlr_transactions : ℕ → ℕ → Proxy → Proxy
expire_hlr_transactions now timeout p = record p {
  hlr_tx = Assoc.reject (λ entry. is_stale now entry.created_at timeout) p.hlr_tx;
}

-- The ReturnError that the proxy makes up for a request that gets no answer.
abbrev pub error_message : ℕ → ℕ → Text → MapMessage
error_message tid op imsi = record Map.new_message {
  transaction_id = tid;
  operation = op;
  component = return_error;
  imsi = imsi;
}

-- `try { ... send(...); } catch (const std::exception&) {}`.
unfoldable pub send_error : ℕ → ℕ → Text → ℕ → List Sent
send_error tid op imsi client =
    try_catch (map_to_gsup (error_message tid op imsi))
      (λ gsup_msg.
        try_catch (Gsup.Encode.encode gsup_msg) (λ gsup_data. to_sgsn gsup_data client ∷ []) [])
      []

unfoldable pub nack_each : List (ℕ × ℕ) → TransactionManager → List Sent × TransactionManager
nack_each [] mgr = ([], mgr)
nack_each ((tid, op) ∷ ops) mgr = elim (Transactions.find mgr tid) [
  | none ↦ nack_each ops mgr
  | some pending ↦
      let (sent, mgr') = nack_each ops (Transactions.complete mgr tid) in
      (send_error tid op pending.imsi pending.client_context ++ sent, mgr')
]

unfoldable pub nack_all_pending_transactions : Proxy → Handled
unfolding nack_each
nack_all_pending_transactions p =
    let (sent, mgr) = nack_each p.pending_ops p.tx_mgr in
    (record p { tx_mgr = mgr; pending_ops = [] }, sent)

unfoldable pub expire_each : List PendingTransaction → List (ℕ × ℕ) → List Sent × List (ℕ × ℕ)
expire_each [] ops = ([], ops)
expire_each (tx ∷ txs) ops = elim (Assoc.find tx.map_transaction_id ops) [
  | none ↦ expire_each txs ops
  | some op ↦
      let (sent, ops') = expire_each txs (Assoc.erase tx.map_transaction_id ops) in
      (send_error tx.map_transaction_id op tx.imsi tx.client_context ++ sent, ops')
]

unfoldable pub expire_sgsn_transactions : ℕ → Proxy → Handled
unfolding expire_each
expire_sgsn_transactions now p =
    let (expired, mgr) = Transactions.expire_stale now p.tx_mgr in
    let (sent, ops) = expire_each expired p.pending_ops in
    (record p { tx_mgr = mgr; pending_ops = ops }, sent)

-- What the event loop calls the proxy for: the callbacks that `start` registers, and the expiry timer.
pub data Event : Type 0 where
  gsup_received : Bytes → ℕ → Event
  map_received : Bytes → Event
  hlr_disconnected : Event
  timer : Event

-- `expireSgsnTransactions(); expireHlrTransactions();`, for the timeout of the latter.
unfoldable pub on_timer : ℕ → ℕ → Proxy → Handled
on_timer now timeout p =
    let (p', sent) = expire_sgsn_transactions now p in
    (expire_hlr_transactions now timeout p', sent)

unfoldable pub step : ℕ → Proxy → ℕ × Event → Handled
step timeout p (now, gsup_received payload client) = handle_gsup_payload now p payload client
step timeout p (now, map_received payload) = handle_map_payload now p payload
step timeout p (now, hlr_disconnected) = nack_all_pending_transactions p
step timeout p (now, timer) = on_timer now timeout p

unfoldable pub run : ℕ → Proxy → List (ℕ × Event) → Handled
run timeout p [] = (p, [])
run timeout p (e ∷ es) =
    let (p', sent) = step timeout p e in let (p'', more) = run timeout p' es in (p'', sent ++ more)
