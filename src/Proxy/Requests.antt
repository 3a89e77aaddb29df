-- ===== src/Proxy/Requests.antt =====
-- A request of the SGSN: what is filed and what is sent.
use gsup_map_proxy.Base.{
  ℕ, ◌+◌, ◌≤◌, ◌<◌, ◌^◌, ◌≡◌, refl, List, none, nat_eq, text_eq, arith, inl, inr, Option-cases,
}
use gsup_map_proxy.Assoc
use gsup_map_proxy.Assoc.{
  Distinct, find-erase, find-assign, erase-Distinct, assign-Distinct, reject-Distinct,
}
use gsup_map_proxy.Gsup.{GsupMessage}
use gsup_map_proxy.Map
use gsup_map_proxy.Map.{MapMessage}
use gsup_map_proxy.Transactions.{PendingTransaction, TransactionManager, is_stale}
use gsup_map_proxy.Transactions
use gsup_map_proxy.Transactions.Table
use gsup_map_proxy.Converter.{gsup_to_map}
use gsup_map_proxy.Map.Encode.{is_invoke}
use gsup_map_proxy.Proxy.{Proxy, Sent, handle_gsup_request}
use gsup_map_proxy.Proxy.Invariant.{IsValid, Keeps, is_some, try_catch_both}
use gsup_map_proxy.Transactions.Table.{allocated}

module _ (now : ℕ) (p : Proxy) (g : GsupMessage) (client : ℕ) (v : IsValid p) where
  -- The manager once a TID is allocated, and its next TID.
  abbrev manager_after : TransactionManager
  manager_after = (Transactions.allocate now p.tx_mgr g.imsi client).1

  tid_free : Transactions.find p.tx_mgr p.tx_mgr.tid_counter ≡ none
  tid_free = elim (Option-cases (Transactions.find p.tx_mgr p.tx_mgr.tid_counter)) [
    | inl e ↦ e
    | inr (t, e) ↦ absurd (omega (arith, v.manager.filed p.tx_mgr.tid_counter t e))
  ]

  op_free : Assoc.find p.tx_mgr.tid_counter p.pending_ops ≡ none
  op_free = ground (arith, v.same_keys p.tx_mgr.tid_counter, tid_free)

  module _ (room : p.tx_mgr.tid_counter + 1 < 2 ^ 32) where
    after-IsValid : Table.IsValid manager_after
    after-IsValid = Table.allocate-IsValid now p.tx_mgr g.imsi client v.manager room

    counter_after : manager_after.tid_counter ≤ p.tx_mgr.tid_counter + 1
    counter_after = unfold Transactions.allocate in ground arith

    -- The request is filed.
    filed-Keeps :
        (op : ℕ) (sent : List Sent)
        → Keeps p (
          record p {
            tx_mgr = manager_after;
            pending_ops = Assoc.assign p.tx_mgr.tid_counter op p.pending_ops;
          },
          sent,
        )
    filed-Keeps op sent = record {
      valid = record {
        manager = after-IsValid;
        ops_distinct = assign-Distinct p.tx_mgr.tid_counter op p.pending_ops v.ops_distinct;
        hlr_distinct = v.hlr_distinct;
        same_keys = λ k. ground (
          arith,
          v.same_keys k,
          find-assign k p.tx_mgr.tid_counter op p.pending_ops,
          Table.find-allocate now p.tx_mgr g.imsi client v.manager k,
        );
      };
      counter = counter_after;
    }

    -- The request is taken back.
    dropped-Keeps :
        (ops : List (ℕ × ℕ)) (sent : List Sent)
        → Distinct ops
        → ((k : ℕ) → is_some (Assoc.find k ops) ≡ is_some (Assoc.find k p.pending_ops))
        → Keeps p (
          record p {
            tx_mgr = Transactions.complete manager_after p.tx_mgr.tid_counter;
            pending_ops = ops;
          },
          sent,
        )
    dropped-Keeps ops sent d same = record {
      valid = record {
        manager = Table.complete-IsValid manager_after p.tx_mgr.tid_counter after-IsValid;
        ops_distinct = d;
        hlr_distinct = v.hlr_distinct;
        same_keys = λ k. ground (
          arith,
          same k,
          v.same_keys k,
          tid_free,
          Table.find-complete manager_after k p.tx_mgr.tid_counter,
          Table.find-allocate now p.tx_mgr g.imsi client v.manager k,
        );
      };
      counter = unfold Transactions.complete in counter_after;
    }

    pub handle_gsup_request-Keeps : Keeps p (handle_gsup_request now p g client)
    unfolding handle_gsup_request
    handle_gsup_request-Keeps = rw (Table.allocate-tid now p.tx_mgr g.imsi client v.manager) (
        try_catch_both (Keeps p) (gsup_to_map g p.tx_mgr.tid_counter _)
          (λ m _.
            try_catch_both (Keeps p) (Map.Encode.encode m) (λ b _. filed-Keeps m.operation _)
              (dropped-Keeps _ _
                (erase-Distinct p.tx_mgr.tid_counter _
                  (assign-Distinct p.tx_mgr.tid_counter m.operation p.pending_ops v.ops_distinct))
                λ k. ground (
                  arith,
                  op_free,
                  find-erase k p.tx_mgr.tid_counter
                      (Assoc.assign p.tx_mgr.tid_counter m.operation p.pending_ops),
                  find-assign k p.tx_mgr.tid_counter m.operation p.pending_ops,
                )))
          (dropped-Keeps p.pending_ops _ v.ops_distinct (λ k. refl)))
