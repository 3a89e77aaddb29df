-- ===== src/Assoc.antt =====
-- `std::unordered_map` as a list of pairs with distinct keys. The order of the pairs is the order in
-- which a loop over the map meets them; the library leaves that order open.
use gsup_map_proxy.Base.{
  ◌≡◌, refl, Bool, true, List, [], ◌∷◌, Option, none, some, Eq, if◌then◌else◌, arith, Bool-cases,
  Option-cases, inl, inr,
}

module _ {ℓ κ} {K : Type ℓ} {V : Type κ} ⦃e : Eq K⦄ where
  unfoldable pub find : K → List (K × V) → Option V
  find k [] = none
  find k ((j, v) ∷ m) = if e.beq j k then some v else find k m

  unfoldable pub erase : K → List (K × V) → List (K × V)
  erase k [] = []
  erase k ((j, v) ∷ m) = let rest = erase k m in if e.beq j k then rest else (j, v) ∷ rest

  -- `emplace` leaves a key that is there as it is.
  unfoldable pub emplace : K → V → List (K × V) → List (K × V)
  emplace k v m = elim (find k m) [ none ↦ (k, v) ∷ m | some w ↦ m ]

  -- `m[k] = v`.
  unfoldable pub assign : K → V → List (K × V) → List (K × V)
  assign k v m = (k, v) ∷ erase k m

pub beq_self {ℓ} : {K : Type ℓ} ⦃e : Eq K⦄ (k : K) → e.beq k k ≡ true
beq_self ⦃e⦄ k = (e.beq_iff k k).1 refl

module _ {ℓ κ} {K : Type ℓ} {V : Type κ} ⦃e : Eq K⦄ where
  pub find-erase :
      (k j : K) (m : List (K × V)) → find k (erase j m) ≡ (if e.beq j k then none else find k m)
  unfolding find erase
  find-erase k j [] = ground arith
  find-erase k j ((i, v) ∷ m) =
      ground (arith, find-erase k j m, e.beq_iff i j, e.beq_iff j k, e.beq_iff i k)

  pub find-assign :
      (k j : K) (v : V) (m : List (K × V))
      → find k (assign j v m) ≡ (if e.beq j k then some v else find k m)
  unfolding find assign
  find-assign k j v m = ground (arith, find-erase k j m)

  pub find-assign_same : (k : K) (v : V) (m : List (K × V)) → find k (assign k v m) ≡ some v
  unfolding find assign
  find-assign_same k v m = rw (beq_self k) refl

  pub find-emplace_new :
      (k j : K) (v : V) (m : List (K × V))
      → find j m ≡ none
      → find k (emplace j v m) ≡ (if e.beq j k then some v else find k m)
  unfolding find emplace
  find-emplace_new k j v m h = ground arith

  pub emplace_old : (j : K) (v w : V) (m : List (K × V)) → find j m ≡ some w → emplace j v m ≡ m
  unfolding emplace
  emplace_old j v w m h = ground arith

-- Every key stands once, as in the library's table.
abbrev pub Distinct {ℓ κ} : {K : Type ℓ} {V : Type κ} ⦃e : Eq K⦄ → List (K × V) → Type κ
Distinct [] = Unit
Distinct ((k, v) ∷ m) = (find k m ≡ none) × Distinct m

module _ {ℓ κ} {K : Type ℓ} {V : Type κ} ⦃e : Eq K⦄ where
  pub erase-Distinct : (k : K) (m : List (K × V)) → Distinct m → Distinct (erase k m)
  unfolding erase
  erase-Distinct k [] d = tt
  erase-Distinct k ((j, v) ∷ m) d = elim (Bool-cases (e.beq j k)) [
    | inl same ↦ rw same (erase-Distinct k m d.1)
    | inr other ↦ rw other (gone, erase-Distinct k m d.1)
  ]
    where
      gone : find j (erase k m) ≡ none
      gone = ground (arith, find-erase j k m, d.0)

  pub assign-Distinct : (k : K) (v : V) (m : List (K × V)) → Distinct m → Distinct (assign k v m)
  unfolding assign
  assign-Distinct k v m d = (rw (find-erase k k m) (rw (beq_self k)), erase-Distinct k m d)

  pub emplace-Distinct : (k : K) (v : V) (m : List (K × V)) → Distinct m → Distinct (emplace k v m)
  unfolding emplace
  emplace-Distinct k v m d = elim (Option-cases (find k m)) [
    | inl new ↦ rw (new, emplace) (new, d)
    | inr (w, old) ↦ rw (old, emplace) d
  ]

-- The pairs whose value fails a test, in their order.
unfoldable pub reject {ℓ κ} : {K : Type ℓ} {V : Type κ} → (V → Bool) → List (K × V) → List (K × V)
reject test [] = []
reject test ((k, v) ∷ m) = let rest = reject test m in if test v then rest else (k, v) ∷ rest

abbrev pub unless {ℓ} : {V : Type ℓ} → (V → Bool) → Option V → Option V
unless test none = none
unless test (some v) = if test v then none else some v

module _ {ℓ κ} {K : Type ℓ} {V : Type κ} ⦃e : Eq K⦄ (test : V → Bool) where
  pub find-reject-none :
      (k : K) (m : List (K × V)) → find k m ≡ none → find k (reject test m) ≡ none
  unfolding find reject
  find-reject-none k [] h = refl
  find-reject-none k ((j, v) ∷ m) h = ground (arith, find-reject-none k m)

  pub find-reject :
      (k : K) (m : List (K × V)) → Distinct m → find k (reject test m) ≡ unless test (find k m)
  unfolding find reject
  find-reject k [] d = refl
  find-reject k ((j, v) ∷ m) d =
      ground (arith, find-reject k m d.1, find-reject-none j m d.0, e.beq_iff j k)

  pub reject-Distinct : (m : List (K × V)) → Distinct m → Distinct (reject test m)
  unfolding reject
  reject-Distinct [] d = tt
  reject-Distinct ((k, v) ∷ m) d = elim (Bool-cases (test v)) [
    | inl drop ↦ rw drop (reject-Distinct m d.1)
    | inr keep ↦ rw keep (find-reject-none k m d.0, reject-Distinct m d.1)
  ]
