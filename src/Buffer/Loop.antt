-- ===== src/Buffer/Loop.antt =====
-- `while (!r.empty()) { ... }` over a reader: one loop for every TLV decoder of the program.
use gsup_map_proxy.Base.{
  ℕ, zero, suc, ◌≤◌, ◌<◌, ◌≡◌, ◌≢◌, refl, [], ◌∷◌, length, Error, Result, ok, err, stuck, ◌>>=◌,
  arith, Result-cases, Ensures, Ensures-ok, Ensures-ne-stuck, inl, inr,
}
use gsup_map_proxy.Buffer.{Bytes}

module _ {ℓ} {S : Type ℓ} (body : S → Bytes → Result (S × Bytes)) where
  -- `body` runs while bytes are left; `fuel` bounds the rounds.
  unfoldable pub rounds : ℕ → S → Bytes → Result S
  rounds fuel s [] = ok s
  rounds zero s (b ∷ r) = stuck
  rounds (suc fuel) s (b ∷ r) = body s (b ∷ r) >>= λ (s', r'). rounds fuel s' r'

  -- A round takes a byte at least, so as many rounds as there are bytes are enough.
  unfoldable pub until_empty : S → Bytes → Result S
  unfolding rounds
  until_empty s r = rounds (length r) s r

-- A round takes bytes or throws.
abbrev pub Consumes {ℓ} : {S : Type ℓ} (body : S → Bytes → Result (S × Bytes)) → Type ℓ
Consumes {S} body = (s : S) (r : Bytes) → Ensures (λ p. length p.1 < length r) (body s r)

module _ {ℓ} {S : Type ℓ} (body : S → Bytes → Result (S × Bytes)) (c : Consumes body) where
  rounds-ne-stuck : (fuel : ℕ) (s : S) (r : Bytes) → length r ≤ fuel → rounds body fuel s r ≢ stuck
  unfolding rounds
  rounds-ne-stuck zero s [] h = λ e. cc
  rounds-ne-stuck (suc fuel) s [] h = λ e. cc
  rounds-ne-stuck zero s (b ∷ r) h = absurd (omega arith)
  rounds-ne-stuck (suc fuel) s (b ∷ r) h = elim (Result-cases (body s (b ∷ r))) [
    | inl ((s', r'), e) ↦
        rw e (rounds-ne-stuck fuel s' r' (omega (arith, Ensures-ok (c s (b ∷ r)) e)))
    | inr (inl (x, e)) ↦ rw e (λ p. cc)
    | inr (inr e) ↦ absurd (Ensures-ne-stuck (c s (b ∷ r)) e)
  ]

  pub until_empty-ne-stuck : (s : S) (r : Bytes) → until_empty body s r ≢ stuck
  unfolding until_empty
  until_empty-ne-stuck s r = rounds-ne-stuck (length r) s r (omega arith)

  -- Fuel beyond the number of bytes changes nothing.
  rounds_enough :
      (f g : ℕ) (s : S) (r : Bytes)
      → length r ≤ f
      → length r ≤ g
      → rounds body f s r ≡ rounds body g s r
  unfolding rounds
  rounds_enough zero zero s [] hf hg = refl
  rounds_enough zero (suc g) s [] hf hg = refl
  rounds_enough (suc f) zero s [] hf hg = refl
  rounds_enough (suc f) (suc g) s [] hf hg = refl
  rounds_enough zero g s (b ∷ r) hf hg = absurd (omega arith)
  rounds_enough (suc f) zero s (b ∷ r) hf hg = absurd (omega arith)
  rounds_enough (suc f) (suc g) s (b ∷ r) hf hg = elim (Result-cases (body s (b ∷ r))) [
    | inl ((s', r'), e) ↦
        let shorter = Ensures-ok (c s (b ∷ r)) e in
        rw e (rounds_enough f g s' r' (omega arith) (omega arith))
    | inr (inl (x, e)) ↦ rw e
    | inr (inr e) ↦ rw e
  ]

  -- One round.
  pub until_empty_step :
      (s s' : S) (r r' : Bytes)
      → body s r ≡ ok (s', r')
      → until_empty body s r ≡ until_empty body s' r'
  unfolding until_empty
  until_empty_step s s' [] r' e = absurd (omega (arith, Ensures-ok (c s []) e))
  until_empty_step s s' (b ∷ r) r' e = rw e (
      rounds_enough (length r) (length r') s' r' (omega (arith, Ensures-ok (c s (b ∷ r)) e))
        (omega arith))

pub until_empty_nil {ℓ} :
    {S : Type ℓ} (body : S → Bytes → Result (S × Bytes)) (s : S) → until_empty body s [] ≡ ok s
unfolding until_empty
until_empty_nil body s = refl

pub until_empty_err {ℓ} :
    {S : Type ℓ} (body : S → Bytes → Result (S × Bytes)) (s : S) (b : ℕ) (r : Bytes) {x : Error}
    → body s (b ∷ r) ≡ err x
    → until_empty body s (b ∷ r) ≡ err x
unfolding until_empty
until_empty_err body s b r e = rw e
