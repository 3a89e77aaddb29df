-- ===== src/Proxy/Run.antt =====
-- Any history of events keeps the proxy's tables in step.
use gsup_map_proxy.Base.{
  ℕ, ◌+◌, ◌<◌, ◌^◌, Bool, true, false, List, [], ◌∷◌, length, if◌then◌else◌, nat_eq, text_eq, arith,
}
use gsup_map_proxy.Gsup
use gsup_map_proxy.Gsup.{GsupMessage}
use gsup_map_proxy.Map
use gsup_map_proxy.Map.{MapMessage}
use gsup_map_proxy.Transactions.{PendingTransaction, TransactionManager, is_stale}
use gsup_map_proxy.Transactions
use gsup_map_proxy.Converter.{is_hlr_initiated_gsup_type}
use gsup_map_proxy.Map.Encode.{is_invoke}
use gsup_map_proxy.Proxy.{Handled, Proxy, new, handle_gsup_payload, handle_map_payload}
use gsup_map_proxy.Proxy.Invariant.{
  IsValid, Keeps, new-IsValid, try_catch_both, unchanged-Keeps, handle_map_response-Keeps,
  handle_hlr_initiated-Keeps, handle_gsup_hlr_response-Keeps,
}
use gsup_map_proxy.Proxy.Requests.{handle_gsup_request-Keeps}
use gsup_map_proxy.Proxy.Timeouts.{nack_all-Keeps, on_timer-Keeps}
use gsup_map_proxy.Proxy.{Event, gsup_received, map_received, hlr_disconnected, timer, step, run}

-- The two ways that a handler's `if` can go.
Keeps-if :
    (p : Proxy) (taken other : Handled) (test : Bool)
    → Keeps p taken
    → Keeps p other
    → Keeps p (if test then taken else other)
Keeps-if p taken other false k l = l
Keeps-if p taken other true k l = k

-- Every event keeps a valid state valid, as long as the next TID does not wrap, and hands out one TID at most.
pub step-Keeps :
    (timeout : ℕ) (p : Proxy) (now : ℕ) (e : Event)
    → IsValid p
    → p.tx_mgr.tid_counter + 1 < 2 ^ 32
    → Keeps p (step timeout p (now, e))
unfolding step
step-Keeps timeout p now (gsup_received payload client) v room =
    unfold handle_gsup_payload in
    try_catch_both (Keeps p) (Gsup.Decode.decode payload)
      (λ g _.
        Keeps-if p _ _ (is_hlr_initiated_gsup_type g.type) (handle_gsup_hlr_response-Keeps p g v)
          (handle_gsup_request-Keeps now p g client v room))
      (unchanged-Keeps p [] v)
step-Keeps timeout p now (map_received payload) v room =
    unfold handle_map_payload in
    try_catch_both (Keeps p) (Map.Decode.decode payload)
      (λ m _.
        Keeps-if p _ _ (is_invoke m.component) (handle_hlr_initiated-Keeps now p m v)
          (handle_map_response-Keeps p m v))
      (unchanged-Keeps p [] v)
step-Keeps timeout p now hlr_disconnected v room = nack_all-Keeps p v
step-Keeps timeout p now timer v room = on_timer-Keeps now p v timeout

run-IsValid :
    (timeout : ℕ) (p : Proxy) (es : List (ℕ × Event))
    → IsValid p
    → p.tx_mgr.tid_counter + length es < 2 ^ 32
    → IsValid (run timeout p es).0
unfolding run
run-IsValid timeout p [] v room = v
run-IsValid timeout p ((now, e) ∷ es) v room =
    let k = step-Keeps timeout p now e v (omega arith) in
    run-IsValid timeout (step timeout p (now, e)).0 es k.valid (omega (arith, k.counter))

-- After any history of fewer than 2^32 - 1 events of a new proxy, whatever the payloads: a TID is
-- in the transaction table exactly if it has a remembered operation, each record is filed once
-- under its own TID, all TIDs are below the next one, and every invoke ID is 1 to 127.
pub run-new-IsValid :
    (tx_timeout hlr_timeout : ℕ) (es : List (ℕ × Event))
    → length es + 1 < 2 ^ 32
    → IsValid (run hlr_timeout (new tx_timeout) es).0
run-new-IsValid tx_timeout hlr_timeout es room =
    run-IsValid hlr_timeout (new tx_timeout) es (new-IsValid tx_timeout)
      (unfold new Transactions.new in omega arith)
