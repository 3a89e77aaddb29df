-- ===== src/Transactions.antt =====
-- proxy/TransactionManager.hpp and proxy/TransactionManager.cpp: MAP transactions in flight. A time is a
-- count of clock ticks; `std::chrono::steady_clock::now()` is an argument.
pub mod Table
use gsup_map_proxy.Base.{
  ℕ, ◌+◌, ◌-◌, ◌^◌, Bool, List, [], ◌∷◌, Option, ltb, ◌==◌, if◌then◌else◌, nat_eq,
}
use gsup_map_proxy.Buffer.{uint8, uint32}
use gsup_map_proxy.Bcd.{Text}
use gsup_map_proxy.Assoc

pub record PendingTransaction : Type 0 where
  pub map_transaction_id : ℕ
  pub map_invoke_id : ℕ
  pub imsi : Text
  pub client_context : ℕ
  pub created_at : ℕ

pub record TransactionManager : Type 0 where
  pub tid_counter : ℕ
  pub invoke_id_counter : ℕ
  pub timeout : ℕ
  pub transactions : List (ℕ × PendingTransaction)

unfoldable pub new : ℕ → TransactionManager
new timeout = record {
  tid_counter = 1;
  invoke_id_counter = 1;
  timeout = timeout;
  transactions = [];
}

unfoldable pub next_tid : TransactionManager → ℕ × TransactionManager
next_tid m =
    let tid = if m.tid_counter == 0 then 1 else m.tid_counter in
    (tid, record m { tid_counter = uint32 (tid + 1) })

unfoldable pub next_invoke_id : TransactionManager → ℕ × TransactionManager
next_invoke_id m =
    let id = if ltb 127 m.invoke_id_counter then 1 else m.invoke_id_counter in
    (id, record m { invoke_id_counter = uint8 (id + 1) })

unfoldable pub allocate : ℕ → TransactionManager → Text → ℕ → ℕ × TransactionManager
unfolding next_tid next_invoke_id
allocate now m imsi client =
    let (tid, m₁) = next_tid m in
    let (id, m₂) = next_invoke_id m₁ in
    let t : PendingTransaction = record {
      map_transaction_id = tid;
      map_invoke_id = id;
      imsi = imsi;
      client_context = client;
      created_at = now;
    } in
    (tid, record m₂ { transactions = Assoc.emplace tid t m₂.transactions })

unfoldable pub find : TransactionManager → ℕ → Option PendingTransaction
find m tid = Assoc.find tid m.transactions

unfoldable pub complete : TransactionManager → ℕ → TransactionManager
complete m tid = record m { transactions = Assoc.erase tid m.transactions }

-- `now - createdAt > timeout_`; the clock never runs back.
abbrev pub is_stale : ℕ → ℕ → ℕ → Bool
is_stale now created timeout = ltb timeout (now - created)

unfoldable pub stale : ℕ → ℕ → List (ℕ × PendingTransaction) → List PendingTransaction
stale now timeout [] = []
stale now timeout ((tid, t) ∷ m) =
    let rest = stale now timeout m in if is_stale now t.created_at timeout then t ∷ rest else rest

-- The records that are too old, and the manager without them.
unfoldable pub expire_stale : ℕ → TransactionManager → List PendingTransaction × TransactionManager
unfolding stale
expire_stale now m = (
  stale now m.timeout m.transactions,
  record m {
    transactions = Assoc.reject (λ t. is_stale now t.created_at m.timeout) m.transactions;
  },
)
