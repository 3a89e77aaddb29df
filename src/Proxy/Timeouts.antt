-- ===== src/Proxy/Timeouts.antt =====
-- Requests that get no answer: the HLR transport is lost, or the answer takes too long.
use gsup_map_proxy.Base.{
  ℕ, ◌≡◌, refl, ap, ap₂, ◌∙◌, false, List, [], ◌∷◌, ◌++◌, none, some, Result, ok, err,
  conversion_error, ◌==◌, if◌then◌else◌, nat_eq, text_eq, arith, inl, inr, Bool-cases, Option-cases,
}
use gsup_map_proxy.Bcd.{Text}
use gsup_map_proxy.Gsup
use gsup_map_proxy.Gsup.{GsupMessage}
use gsup_map_proxy.Gsup.MessageType
use gsup_map_proxy.Gsup.Encode
use gsup_map_proxy.Map.MapOperation
use gsup_map_proxy.Converter.{map_to_gsup}
use gsup_map_proxy.Assoc
use gsup_map_proxy.Assoc.{
  Distinct, find-erase, find-assign, erase-Distinct, assign-Distinct, reject-Distinct,
}
use gsup_map_proxy.Transactions.{PendingTransaction, TransactionManager, is_stale}
use gsup_map_proxy.Transactions
use gsup_map_proxy.Transactions.Table
use gsup_map_proxy.Proxy.{
  Proxy, Sent, expire_hlr_transactions, nack_each, nack_all_pending_transactions, expire_each,
  expire_sgsn_transactions,
}
use gsup_map_proxy.Proxy.Invariant.{IsValid, Keeps, is_some, hlr_tx-IsValid}
use gsup_map_proxy.Proxy.{send_error, on_timer, to_sgsn, error_message, try_catch}
use gsup_map_proxy.Transactions.Table.{has_tid, stale_at}

-- One operation's round, for what the manager has on its TID.
nack_round :
    (tid op : ℕ) (ops : List (ℕ × ℕ)) (mgr : TransactionManager) (t : PendingTransaction)
    → Transactions.find mgr tid ≡ some t
    → nack_each ((tid, op) ∷ ops) mgr ≡ (
      send_error tid op t.imsi t.client_context
          ++ (nack_each ops (Transactions.complete mgr tid)).0,
      (nack_each ops (Transactions.complete mgr tid)).1,
    )
unfolding nack_each
nack_round tid op ops mgr t e = rw (e, nack_each)

nack_skip :
    (tid op : ℕ) (ops : List (ℕ × ℕ)) (mgr : TransactionManager)
    → Transactions.find mgr tid ≡ none
    → nack_each ((tid, op) ∷ ops) mgr ≡ nack_each ops mgr
unfolding nack_each
nack_skip tid op ops mgr e = rw (e, nack_each)

nack_each-IsValid :
    (ops : List (ℕ × ℕ)) (mgr : TransactionManager)
    → Table.IsValid mgr
    → Table.IsValid (nack_each ops mgr).1 × ((nack_each ops mgr).1.tid_counter ≡ mgr.tid_counter)
unfolding Transactions.complete
nack_each-IsValid [] mgr v = unfold nack_each in (v, refl)
nack_each-IsValid ((tid, op) ∷ ops) mgr v = elim (Option-cases (Transactions.find mgr tid)) [
  | inl e ↦ rw (nack_skip tid op ops mgr e) (nack_each-IsValid ops mgr v)
  | inr (t, e) ↦
      let rest =
        nack_each-IsValid ops (Transactions.complete mgr tid) (Table.complete-IsValid mgr tid v) in
      rw (nack_round tid op ops mgr t e) rest
]

find-nack_each :
    (ops : List (ℕ × ℕ)) (mgr : TransactionManager) (k : ℕ)
    → Transactions.find (nack_each ops mgr).1 k
      ≡ (if is_some (Assoc.find k ops) then none else Transactions.find mgr k)
unfolding Assoc.find
find-nack_each [] mgr k = unfold nack_each in refl
find-nack_each ((tid, op) ∷ ops) mgr k = elim (Option-cases (Transactions.find mgr tid)) [
  | inl e ↦ rw (nack_skip tid op ops mgr e) (ground (arith, e, find-nack_each ops mgr k))
  | inr (t, e) ↦ rw (nack_round tid op ops mgr t e) (
      ground (
        arith,
        find-nack_each ops (Transactions.complete mgr tid) k,
        Table.find-complete mgr k tid,
      ))
]

-- The error types of the MAP operations that a request leads to.
abbrev pub nack_types : List (ℕ × ℕ)
nack_types =
    (MapOperation.send_authentication_info, MessageType.send_auth_info_error)
    ∷ (MapOperation.update_gprs_location, MessageType.update_location_error)
    ∷ (MapOperation.cancel_location, MessageType.location_cancel_error)
    ∷ (MapOperation.insert_subscriber_data, MessageType.insert_data_error)
    ∷ (MapOperation.purge_ms, MessageType.purge_ms_error)
    ∷ []

-- A GSUP message on its way to a client, or nothing where it cannot be encoded.
abbrev pub delivered : GsupMessage → ℕ → List Sent
delivered msg client =
    try_catch (Gsup.Encode.encode msg) (λ gsup_data. to_sgsn gsup_data client ∷ []) []

-- The error for an operation: its type from the table, the IMSI, and no cause.
unfoldable pub nack_message : ℕ → Text → Result GsupMessage
nack_message op imsi = elim (Assoc.find op nack_types) [
  | none ↦ err conversion_error
  | some type ↦ ok (record Gsup.new_message { type = type; imsi = imsi })
]

unfoldable pub nack : ℕ → PendingTransaction → List Sent
unfolding nack_message
nack op t = try_catch (nack_message op t.imsi) (λ msg. delivered msg t.client_context) []

error_message-converts :
    (tid op : ℕ) (imsi : Text) → map_to_gsup (error_message tid op imsi) ≡ nack_message op imsi
unfolding map_to_gsup nack_message Assoc.find
error_message-converts tid op imsi = ground arith

send_error-nack :
    (tid op : ℕ) (t : PendingTransaction) → send_error tid op t.imsi t.client_context ≡ nack op t
unfolding send_error nack
send_error-nack tid op t =
    ap (λ r. try_catch r (λ msg. delivered msg t.client_context) [])
      (error_message-converts tid op t.imsi)

-- The error for one pending operation, and those for all of them, from the table as it was.
unfoldable pub nack_of : TransactionManager → ℕ → ℕ → List Sent
unfolding nack
nack_of mgr tid op = elim (Transactions.find mgr tid) [ none ↦ [] | some t ↦ nack op t ]

unfoldable pub nacks : TransactionManager → List (ℕ × ℕ) → List Sent
unfolding nack_of
nacks mgr [] = []
nacks mgr ((tid, op) ∷ ops) = nack_of mgr tid op ++ nacks mgr ops

not_first :
    (k op tid : ℕ) (ops : List (ℕ × ℕ))
    → Assoc.find tid ((k, op) ∷ ops) ≡ none
    → ((k == tid) ≡ false) × (Assoc.find tid ops ≡ none)
unfolding Assoc.find
not_first k op tid ops h = elim (Bool-cases (k == tid)) [
  | inl same ↦ ground (arith, h, same)
  | inr other ↦ (other, ground (arith, h, other))
]

nack_of-complete :
    (mgr : TransactionManager) (tid k op : ℕ)
    → (k == tid) ≡ false
    → nack_of (Transactions.complete mgr tid) k op ≡ nack_of mgr k op
unfolding nack_of
nack_of-complete mgr tid k op other =
    let found : Transactions.find (Transactions.complete mgr tid) k ≡ Transactions.find mgr k =
      ground (arith, Table.find-complete mgr k tid) in
    rw (found, nack_of) refl

nacks-complete :
    (ops : List (ℕ × ℕ)) (mgr : TransactionManager) (tid : ℕ)
    → Assoc.find tid ops ≡ none
    → nacks (Transactions.complete mgr tid) ops ≡ nacks mgr ops
unfolding nacks
nacks-complete [] mgr tid h = refl
nacks-complete ((k, op) ∷ ops) mgr tid h =
    let rest = not_first k op tid ops h in
    ap₂ ◌++◌ (nack_of-complete mgr tid k op rest.0) (nacks-complete ops mgr tid rest.1)

nack_each-nacks :
    (ops : List (ℕ × ℕ)) (mgr : TransactionManager)
    → Distinct ops
    → (nack_each ops mgr).0 ≡ nacks mgr ops
unfolding nacks nack_of nack_each
nack_each-nacks [] mgr d = refl
nack_each-nacks ((tid, op) ∷ ops) mgr d = elim (Option-cases (Transactions.find mgr tid)) [
  | inl e ↦ rw (nack_skip tid op ops mgr e) (rw (e, nack_of) (nack_each-nacks ops mgr d.1))
  | inr (t, e) ↦ rw (nack_round tid op ops mgr t e) (
      rw (e, nack_of)
        (ap₂ ◌++◌ (send_error-nack tid op t) (
          nack_each-nacks ops (Transactions.complete mgr tid) d.1
          ∙ nacks-complete ops mgr tid d.0)))
]

module _ (p : Proxy) (v : IsValid p) where
  all_gone : (k : ℕ) → Transactions.find (nack_each p.pending_ops p.tx_mgr).1 k ≡ none
  all_gone k = ground (arith, v.same_keys k, find-nack_each p.pending_ops p.tx_mgr k)

  pub nack_all-Keeps : Keeps p (nack_all_pending_transactions p)
  nack_all-Keeps = record {
    valid = record {
      manager =
          unfold nack_all_pending_transactions in
          (nack_each-IsValid p.pending_ops p.tx_mgr v.manager).0;
      ops_distinct = unfold nack_all_pending_transactions in tt;
      hlr_distinct = unfold nack_all_pending_transactions in v.hlr_distinct;
      same_keys = λ k. unfold nack_all_pending_transactions Assoc.find in rw (all_gone k);
    };
    counter =
        unfold nack_all_pending_transactions in
        omega (arith, nack_each-IsValid p.pending_ops p.tx_mgr v.manager);
  }

  -- In a valid state, what is sent when the HLR transport is lost is, for each remembered operation of the table before,
  -- one GSUP message to its transaction's client: the error type of the operation's request with the IMSI of the
  -- transaction and no cause. Nothing is sent for an operation that no request leads to, or where the error cannot be
  -- encoded. Afterwards no transaction and no operation is left.
  pub nack_all-nacks :
      ((nack_all_pending_transactions p).1 ≡ nacks p.tx_mgr p.pending_ops)
      × ((nack_all_pending_transactions p).0.pending_ops ≡ [])
      × ((k : ℕ) → Transactions.find (nack_all_pending_transactions p).0.tx_mgr k ≡ none)
  unfolding nack_all_pending_transactions
  nack_all-nacks = (nack_each-nacks p.pending_ops p.tx_mgr v.ops_distinct, refl, all_gone)

find-expire_each :
    (txs : List PendingTransaction) (ops : List (ℕ × ℕ)) (k : ℕ)
    → Assoc.find k (expire_each txs ops).1 ≡ (if has_tid k txs then none else Assoc.find k ops)
unfolding has_tid expire_each
find-expire_each [] ops k = refl
find-expire_each (t ∷ txs) ops k = elim (Option-cases (Assoc.find t.map_transaction_id ops)) [
  | inl e ↦ rw (e, expire_each) (ground (arith, e, find-expire_each txs ops k))
  | inr (op, e) ↦
      rw (e, expire_each)
        (ground (
          arith,
          find-expire_each txs (Assoc.erase t.map_transaction_id ops) k,
          find-erase k t.map_transaction_id ops,
        ))
]

expire_each-Distinct :
    (txs : List PendingTransaction) (ops : List (ℕ × ℕ))
    → Distinct ops
    → Distinct (expire_each txs ops).1
unfolding expire_each
expire_each-Distinct [] ops d = d
expire_each-Distinct (t ∷ txs) ops d = elim (Option-cases (Assoc.find t.map_transaction_id ops)) [
  | inl e ↦ rw (e, expire_each) (expire_each-Distinct txs ops d)
  | inr (op, e) ↦
      rw (e, expire_each) (expire_each-Distinct txs _ (erase-Distinct t.map_transaction_id ops d))
]

module _ (now : ℕ) (p : Proxy) (v : IsValid p) where
  -- In a valid state, after `expireSgsnTransactions` a TID is pending, in both tables, exactly if it was and its record
  -- is not older than the timeout; its record and its operation are the same.
  pub find-expire_sgsn :
      (k : ℕ)
      → (Transactions.find (expire_sgsn_transactions now p).0.tx_mgr k
          ≡ Assoc.unless
              (λ t. is_stale now t.created_at p.tx_mgr.timeout)
              (Transactions.find p.tx_mgr k))
        × (Assoc.find k (expire_sgsn_transactions now p).0.pending_ops ≡ (
            if stale_at now p.tx_mgr.timeout (Transactions.find p.tx_mgr k)
            then none
            else Assoc.find k p.pending_ops))
  unfolding expire_sgsn_transactions
  find-expire_sgsn k = (
    Table.find-expire_stale p.tx_mgr now k v.manager.distinct,
    rw (← Table.has_tid-expire_stale now k p.tx_mgr v.manager)
        (find-expire_each (Transactions.expire_stale now p.tx_mgr).0 p.pending_ops k),
  )

  pub expire_sgsn-Keeps : Keeps p (expire_sgsn_transactions now p)
  expire_sgsn-Keeps = record {
    valid = record {
      manager =
          unfold expire_sgsn_transactions in Table.expire_stale-IsValid p.tx_mgr now v.manager;
      ops_distinct =
          unfold expire_sgsn_transactions in
          expire_each-Distinct (Transactions.expire_stale now p.tx_mgr).0 p.pending_ops
            v.ops_distinct;
      hlr_distinct = unfold expire_sgsn_transactions in v.hlr_distinct;
      same_keys =
          λ k. ground (arith, v.same_keys k, (find-expire_sgsn k).0, (find-expire_sgsn k).1);
    };
    counter = unfold expire_sgsn_transactions Transactions.expire_stale in omega arith;
  }

  pub on_timer-Keeps : (timeout : ℕ) → Keeps p (on_timer now timeout p)
  unfolding on_timer expire_hlr_transactions
  on_timer-Keeps timeout = record {
    valid =
        hlr_tx-IsValid (expire_sgsn_transactions now p).0 _
          (reject-Distinct _ _ expire_sgsn-Keeps.valid.hlr_distinct) expire_sgsn-Keeps.valid;
    counter = expire_sgsn-Keeps.counter;
  }
