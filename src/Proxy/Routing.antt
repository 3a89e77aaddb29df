-- ===== src/Proxy/Routing.antt =====
-- Answers to requests: who gets them, and that no answer is passed on twice.
use gsup_map_proxy.Base.{
  ℕ, ◌≡◌, refl, ◌∙◌, false, List, [], ◌∷◌, none, some, ok, nat_eq, text_eq, arith, inl, inr,
  Option-cases,
}
use gsup_map_proxy.Buffer.{Bytes}
use gsup_map_proxy.Gsup
use gsup_map_proxy.Gsup.{GsupMessage}
use gsup_map_proxy.Map
use gsup_map_proxy.Map.{MapMessage, return_result, return_error}
use gsup_map_proxy.Transactions.{PendingTransaction}
use gsup_map_proxy.Transactions
use gsup_map_proxy.Transactions.Table
use gsup_map_proxy.Transactions.Table.{allocated}
use gsup_map_proxy.Converter.{map_to_gsup}
use gsup_map_proxy.Map.Encode.{is_invoke}
use gsup_map_proxy.Proxy.{
  Proxy, Sent, Handled, to_sgsn, complete_response, forget, handle_map_response, handle_map_payload,
}
use gsup_map_proxy.Proxy.Invariant.{try_catch_both}

-- Nothing, or one message to one client.
abbrev pub AtMostOneTo : ℕ → List Sent → Type 0
AtMostOneTo client [] = Unit
AtMostOneTo client (to_sgsn bytes c ∷ []) = c ≡ client
AtMostOneTo client _ = ⊥

-- The same response, as the payload that it comes in.
payload_response :
    (now : ℕ) (p : Proxy) (payload : Bytes) (m : MapMessage)
    → Map.Decode.decode payload ≡ ok m
    → is_invoke m.component ≡ false
    → handle_map_payload now p payload ≡ handle_map_response p m
unfolding handle_map_payload
payload_response now p payload m decoded response = rw decoded (rw response refl)

response_found :
    (p : Proxy) (m : MapMessage) (t : PendingTransaction)
    → Transactions.find p.tx_mgr m.transaction_id ≡ some t
    → ((handle_map_response p m).0 ≡ forget p m.transaction_id)
      × AtMostOneTo t.client_context (handle_map_response p m).1
unfolding handle_map_response
response_found p m t e =
    rw (e, handle_map_response)
      (try_catch_both Good (map_to_gsup (complete_response p t m))
        (λ g _. try_catch_both Good (Gsup.Encode.encode g) (λ b _. (refl, refl)) (refl, tt))
        (refl, tt))
  where
    Good : Handled → Type 0
    Good h = (h.0 ≡ forget p m.transaction_id) × AtMostOneTo t.client_context h.1

response_unknown :
    (p : Proxy) (m : MapMessage)
    → Transactions.find p.tx_mgr m.transaction_id ≡ none
    → handle_map_response p m ≡ (p, [])
unfolding handle_map_response
response_unknown p m e = rw (e, handle_map_response) refl

-- A payload from the HLR that decodes to a response for a pending transaction closes that transaction, which is taken out
-- of both tables, whether or not the response can be converted. It sends at most one message, and only to the
-- client that made the request.
pub handle_map_payload-forget :
    (now : ℕ) (p : Proxy) (payload : Bytes) (m : MapMessage) (t : PendingTransaction)
    → Map.Decode.decode payload ≡ ok m
    → is_invoke m.component ≡ false
    → Transactions.find p.tx_mgr m.transaction_id ≡ some t
    → ((handle_map_payload now p payload).0 ≡ forget p m.transaction_id)
      × AtMostOneTo t.client_context (handle_map_payload now p payload).1
handle_map_payload-forget now p payload m t decoded response pending =
    rw (payload_response now p payload m decoded response) (response_found p m t pending)

closed :
    (p : Proxy) (m : MapMessage)
    → Transactions.find (handle_map_response p m).0.tx_mgr m.transaction_id ≡ none
closed p m = elim (Option-cases (Transactions.find p.tx_mgr m.transaction_id)) [
  | inl e ↦ rw (response_unknown p m e) e
  | inr (t, e) ↦
      rw ((response_found p m t e).0)
        (ground (arith, Table.find-complete p.tx_mgr m.transaction_id m.transaction_id))
]

-- A second payload that decodes to a response for the same TID, right after a first, changes
-- nothing and sends nothing.
pub handle_map_payload-twice :
    (now later : ℕ) (p : Proxy) (first second : Bytes) (m m' : MapMessage)
    → Map.Decode.decode first ≡ ok m
    → Map.Decode.decode second ≡ ok m'
    → is_invoke m.component ≡ false
    → is_invoke m'.component ≡ false
    → m'.transaction_id ≡ m.transaction_id
    → handle_map_payload later (handle_map_payload now p first).0 second
      ≡ ((handle_map_payload now p first).0, [])
handle_map_payload-twice now later p first second m m' d d' r r' same =
    rw (payload_response now p first m d r) (
      payload_response later (handle_map_response p m).0 second m' d' r'
      ∙ response_unknown (handle_map_response p m).0 m' (rw same (closed p m)))
