-- ===== src/Proxy/Invariant.antt =====
-- The proxy's two tables of SGSN-initiated requests stay in step.
use gsup_map_proxy.Base.{
  ℕ, ◌+◌, ◌≤◌, ◌≡◌, refl, Bool, true, false, List, [], Option, none, some, Result, ok, err, stuck,
  nat_eq, text_eq, arith, inl, inr, Option-cases,
}
use gsup_map_proxy.Bcd.{Text}
use gsup_map_proxy.Assoc
use gsup_map_proxy.Assoc.{
  Distinct, find-erase, find-assign, erase-Distinct, assign-Distinct, reject-Distinct,
}
use gsup_map_proxy.Gsup
use gsup_map_proxy.Gsup.{GsupMessage}
use gsup_map_proxy.Map
use gsup_map_proxy.Map.{MapMessage}
use gsup_map_proxy.Transactions.{PendingTransaction, TransactionManager, is_stale}
use gsup_map_proxy.Transactions
use gsup_map_proxy.Transactions.Table
use gsup_map_proxy.Converter.{map_to_gsup, map_invoke_to_gsup, gsup_to_map_result}
use gsup_map_proxy.Map.Encode.{is_invoke}
use gsup_map_proxy.Proxy.{
  HlrTxEntry, Proxy, Sent, Handled, new, try_catch, handle_gsup_hlr_response, handle_hlr_initiated,
  complete_response, forget, handle_map_response,
}

abbrev pub is_some {ℓ} : {A : Type ℓ} → Option A → Bool
is_some none = false
is_some (some a) = true

-- The transactions are in order, and exactly the pending ones have a remembered operation.
pub record IsValid (p : Proxy) : Type 0 where
  pub manager : Table.IsValid p.tx_mgr
  pub ops_distinct : Distinct p.pending_ops
  pub hlr_distinct : Distinct p.hlr_tx
  pub same_keys :
      (tid : ℕ) → is_some (Assoc.find tid p.pending_ops) ≡ is_some (Transactions.find p.tx_mgr tid)

pub new-IsValid : (timeout : ℕ) → IsValid (new timeout)
unfolding new Transactions.find Assoc.find Transactions.new
new-IsValid timeout = record {
  manager = Table.new-IsValid timeout;
  ops_distinct = tt;
  hlr_distinct = tt;
  same_keys = λ tid. refl;
}

-- A property of both ways out of a `try` block.
pub try_catch_both {ℓ κ λ'} :
    {A : Type ℓ} {B : Type κ} (P : B → Type λ') (r : Result A) {continue : A → B} {handler : B}
    → ((a : A) → r ≡ ok a → P (continue a))
    → P handler
    → P (try_catch r continue handler)
try_catch_both P (ok a) h k = h a refl
try_catch_both P (err e) h k = k
try_catch_both P stuck h k = k

-- A handler that leaves the SGSN side alone.
pub hlr_tx-IsValid :
    (p : Proxy) (hlr : List (Text × HlrTxEntry))
    → Distinct hlr
    → IsValid p
    → IsValid (record p { hlr_tx = hlr })
hlr_tx-IsValid p hlr d v = record {
  manager = v.manager;
  ops_distinct = v.ops_distinct;
  hlr_distinct = d;
  same_keys = v.same_keys;
}

pub forget-IsValid : (p : Proxy) (tid : ℕ) → IsValid p → IsValid (forget p tid)
forget-IsValid p tid v = record {
  manager = Table.complete-IsValid p.tx_mgr tid v.manager;
  ops_distinct = erase-Distinct tid p.pending_ops v.ops_distinct;
  hlr_distinct = v.hlr_distinct;
  same_keys = λ k.
      ground
        (arith, v.same_keys k, find-erase k tid p.pending_ops, Table.find-complete p.tx_mgr k tid);
}

-- The state is valid, and at most one TID has been handed out.
pub record Keeps (p : Proxy) (h : Handled) : Type 0 where
  pub valid : IsValid h.0
  pub counter : h.0.tx_mgr.tid_counter ≤ p.tx_mgr.tid_counter + 1

pub unchanged-Keeps : (p : Proxy) (sent : List Sent) → IsValid p → Keeps p (p, sent)
unchanged-Keeps p sent v = record { valid = v; counter = omega arith }

pub handle_map_response-Keeps :
    (p : Proxy) (m : MapMessage) → IsValid p → Keeps p (handle_map_response p m)
unfolding handle_map_response
handle_map_response-Keeps p m v =
    elim (Option-cases (Transactions.find p.tx_mgr m.transaction_id)) [
      | inl e ↦ rw (e, handle_map_response) (unchanged-Keeps p [] v)
      | inr (t, e) ↦
          rw (e, handle_map_response)
            (try_catch_both (Keeps p) (map_to_gsup (complete_response p t m))
              (λ g _.
                try_catch_both (Keeps p) (Gsup.Encode.encode g) (λ b _. forgotten _) (forgotten _))
              (forgotten _))
    ]
  where
    forgotten : (sent : List Sent) → Keeps p (forget p m.transaction_id, sent)
    forgotten sent = record {
      valid = forget-IsValid p m.transaction_id v;
      counter = unfold Transactions.complete in omega arith;
    }

pub handle_hlr_initiated-Keeps :
    (now : ℕ) (p : Proxy) (m : MapMessage) → IsValid p → Keeps p (handle_hlr_initiated now p m)
unfolding handle_hlr_initiated
handle_hlr_initiated-Keeps now p m v =
    try_catch_both (Keeps p) (map_invoke_to_gsup m)
      (λ g _.
        let tracked = assign-Distinct g.imsi _ p.hlr_tx v.hlr_distinct in
        try_catch_both (Keeps p) (Gsup.Encode.encode g)
          (λ b _. record { valid = hlr_tx-IsValid p _ tracked v; counter = omega arith })
          (record {
            valid = hlr_tx-IsValid p _ (erase-Distinct g.imsi _ tracked) v;
            counter = omega arith;
          }))
      (unchanged-Keeps p [] v)

pub handle_gsup_hlr_response-Keeps :
    (p : Proxy) (g : GsupMessage) → IsValid p → Keeps p (handle_gsup_hlr_response p g)
unfolding handle_gsup_hlr_response
handle_gsup_hlr_response-Keeps p g v = elim (Option-cases (Assoc.find g.imsi p.hlr_tx)) [
  | inl e ↦ rw (e, handle_gsup_hlr_response) (unchanged-Keeps p [] v)
  | inr (entry, e) ↦
      rw (e, handle_gsup_hlr_response)
        (try_catch_both (Keeps p)
          (gsup_to_map_result g entry.map_transaction_id entry.map_invoke_id)
          (λ m _. try_catch_both (Keeps p) (Map.Encode.encode m) (λ b _. answered _) (answered _))
          (answered _))
]
  where
    answered :
        (sent : List Sent) → Keeps p (record p { hlr_tx = Assoc.erase g.imsi p.hlr_tx }, sent)
    answered sent = record {
      valid = hlr_tx-IsValid p _ (erase-Distinct g.imsi p.hlr_tx v.hlr_distinct) v;
      counter = omega arith;
    }
