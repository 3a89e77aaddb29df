-- ===== src/Transactions/Table.antt =====
-- The table of TransactionManager: what each operation does to a look-up.
use gsup_map_proxy.Base.{
  ℕ, ◌+◌, ◌^◌, ◌≤◌, ◌<◌, ◌≡◌, refl, Bool, false, ◌||◌, List, [], ◌∷◌, Option, none, some,
  Option-cases, ◌==◌, if◌then◌else◌, nat_eq, arith, inl, inr,
}
use gsup_map_proxy.Bcd.{Text}
use gsup_map_proxy.Assoc
use gsup_map_proxy.Assoc.{
  Distinct, beq_self, find-erase, find-emplace_new, erase-Distinct, emplace-Distinct,
}
use gsup_map_proxy.Transactions.{
  PendingTransaction, TransactionManager, new, next_invoke_id, allocate, find, complete, is_stale,
  stale, expire_stale,
}

-- What is known of the record filed under `tid` while the next TID is `next`.
abbrev pub Filed : ℕ → ℕ → PendingTransaction → Type 0
Filed next tid t =
    (tid < next) × (t.map_transaction_id ≡ tid) × (1 ≤ t.map_invoke_id) × (t.map_invoke_id ≤ 127)

-- Before the TIDs wrap: every TID in the table is below the next one, and each record is
-- filed once, under its own TID, with an invoke ID of 1 to 127.
pub record IsValid (m : TransactionManager) : Type 0 where
  pub counter_pos : 0 < m.tid_counter
  pub invoke_counter_pos : 1 ≤ m.invoke_id_counter
  pub invoke_counter_small : m.invoke_id_counter ≤ 128
  pub distinct : Distinct m.transactions
  pub filed : (tid : ℕ) (t : PendingTransaction) → find m tid ≡ some t → Filed m.tid_counter tid t

pub new-IsValid : (timeout : ℕ) → IsValid (new timeout)
unfolding new find Assoc.find
new-IsValid timeout = record {
  counter_pos = omega arith;
  invoke_counter_pos = omega arith;
  invoke_counter_small = omega arith;
  distinct = tt;
  filed = λ tid t e. cc;
}

-- The record that `allocate` files.
unfoldable pub allocated : ℕ → TransactionManager → Text → ℕ → PendingTransaction
unfolding next_invoke_id
allocated now m imsi client = record {
  map_transaction_id = m.tid_counter;
  map_invoke_id = (next_invoke_id m).0;
  imsi = imsi;
  client_context = client;
  created_at = now;
}

module _ (now : ℕ) (m : TransactionManager) (imsi : Text) (client : ℕ) (v : IsValid m) where
  -- The next TID is not in use.
  counter_free : find m m.tid_counter ≡ none
  counter_free = elim (Option-cases (find m m.tid_counter)) [
    | inl e ↦ e
    | inr (t, e) ↦ absurd (omega (arith, v.filed m.tid_counter t e))
  ]

  pub allocate-tid : (allocate now m imsi client).0 ≡ m.tid_counter
  unfolding allocate
  allocate-tid = ground (arith, v.counter_pos)

  -- In a valid manager `allocate` files one record under the next TID, with the IMSI and the client given; every other
  -- look-up is as before.
  pub find-allocate :
      (tid : ℕ)
      → find (allocate now m imsi client).1 tid
        ≡ (if m.tid_counter == tid then some (allocated now m imsi client) else find m tid)
  unfolding find allocate allocated
  find-allocate tid = ground (
    arith,
    v.counter_pos,
    find-emplace_new tid m.tid_counter (allocated now m imsi client) m.transactions counter_free,
  )

  -- Until the counter wraps, allocating keeps the table valid.
  pub allocate-IsValid : m.tid_counter + 1 < 2 ^ 32 → IsValid (allocate now m imsi client).1
  allocate-IsValid room = record {
    counter_pos = unfold allocate in ground (arith, v.counter_pos);
    invoke_counter_pos =
        unfold allocate in ground (arith, v.invoke_counter_pos, v.invoke_counter_small);
    invoke_counter_small = unfold allocate in ground (arith, v.invoke_counter_small);
    distinct = unfold allocate in emplace-Distinct _ _ m.transactions v.distinct;
    filed = λ tid t e.
        let found : (if m.tid_counter == tid
              then some (allocated now m imsi client)
              else find m tid)
            ≡ some t =
          rw (find-allocate tid) at e in
        rw next_counter (new_or_old tid t found);
  }
    where
      next_counter : (allocate now m imsi client).1.tid_counter ≡ m.tid_counter + 1
      next_counter = unfold allocate in ground (arith, v.counter_pos)

      new_or_old :
          (tid : ℕ) (t : PendingTransaction)
          → (if m.tid_counter == tid then some (allocated now m imsi client) else find m tid)
            ≡ some t
          → Filed (m.tid_counter + 1) tid t
      new_or_old tid t e =
          unfold allocated in
          ground (arith, v.filed tid t, v.invoke_counter_pos, v.invoke_counter_small)

module _ (m : TransactionManager) where
  pub find-complete :
      (tid j : ℕ) → find (complete m j) tid ≡ (if j == tid then none else find m tid)
  unfolding find complete
  find-complete tid j = find-erase tid j m.transactions

  pub complete-IsValid : (j : ℕ) → IsValid m → IsValid (complete m j)
  complete-IsValid j v = record {
    counter_pos = unfold complete in v.counter_pos;
    invoke_counter_pos = unfold complete in v.invoke_counter_pos;
    invoke_counter_small = unfold complete in v.invoke_counter_small;
    distinct = unfold complete in erase-Distinct j m.transactions v.distinct;
    filed = λ tid t e. unfold complete in v.filed tid t (ground (arith, find-complete tid j, e));
  }

  -- The table after `expireStale` has exactly the records that are not too old.
  pub find-expire_stale :
      (now tid : ℕ)
      → Distinct m.transactions
      → find (expire_stale now m).1 tid
        ≡ Assoc.unless (λ t. is_stale now t.created_at m.timeout) (find m tid)
  unfolding find expire_stale
  find-expire_stale now tid d =
      Assoc.find-reject (λ t. is_stale now t.created_at m.timeout) tid m.transactions d

  pub expire_stale-IsValid : (now : ℕ) → IsValid m → IsValid (expire_stale now m).1
  expire_stale-IsValid now v = record {
    counter_pos = unfold expire_stale in v.counter_pos;
    invoke_counter_pos = unfold expire_stale in v.invoke_counter_pos;
    invoke_counter_small = unfold expire_stale in v.invoke_counter_small;
    distinct = unfold expire_stale in Assoc.reject-Distinct _ m.transactions v.distinct;
    filed = λ tid t e.
        unfold expire_stale in
        v.filed tid t (ground (arith, find-expire_stale now tid v.distinct, e));
  }

-- A table's records under their own keys, for loops over the table.
pub filed_below :
    (k : ℕ) (t : PendingTransaction) (m : List (ℕ × PendingTransaction))
    → Distinct ((k, t) ∷ m)
    → ((j : ℕ) (u : PendingTransaction)
        → Assoc.find j ((k, t) ∷ m) ≡ some u
        → u.map_transaction_id ≡ j)
    → (j : ℕ) (u : PendingTransaction) → Assoc.find j m ≡ some u
    → u.map_transaction_id ≡ j
unfolding Assoc.find
filed_below k t m d h j u e = ground (arith, d.0, h j u)

-- The records that `expireStale` returns are those of the TIDs whose record is too old.
unfoldable pub has_tid : ℕ → List PendingTransaction → Bool
has_tid tid [] = false
has_tid tid (t ∷ ts) = (t.map_transaction_id == tid) || has_tid tid ts

abbrev pub stale_at : ℕ → ℕ → Option PendingTransaction → Bool
stale_at now timeout none = false
stale_at now timeout (some t) = is_stale now t.created_at timeout

has_tid-stale :
    (now timeout tid : ℕ) (m : List (ℕ × PendingTransaction))
    → Distinct m
    → ((j : ℕ) (u : PendingTransaction) → Assoc.find j m ≡ some u → u.map_transaction_id ≡ j)
    → has_tid tid (stale now timeout m) ≡ stale_at now timeout (Assoc.find tid m)
unfolding has_tid stale Assoc.find
has_tid-stale now timeout tid [] d h = refl
has_tid-stale now timeout tid ((k, t) ∷ m) d h = ground (
  arith,
  has_tid-stale now timeout tid m d.1 (filed_below k t m d h),
  d.0,
  h k t (rw (beq_self k)),
)

pub has_tid-expire_stale :
    (now tid : ℕ) (m : TransactionManager)
    → IsValid m
    → has_tid tid (expire_stale now m).0 ≡ stale_at now m.timeout (find m tid)
unfolding expire_stale find
has_tid-expire_stale now tid m v =
    has_tid-stale now m.timeout tid m.transactions v.distinct (λ j u e. (v.filed j u e).1)
