-- ===== src/Framing/Laws.antt =====
-- The read loop of a decoder whose frames take bytes.
use gsup_map_proxy.Base.{
  ℕ, zero, suc, ◌<◌, ◌≡◌, ◌≢◌, refl, ap, ◌∙◌, ◌⊎◌, inl, inr, [], length, Error, ok, err, stuck,
  arith,
}
use gsup_map_proxy.Buffer.{Bytes}
use gsup_map_proxy.Framing.{Next, need_more, frame, thrown, cons_frame, drain, drain_all}

pub Next-cases {ℓ} :
    {F : Type ℓ} (p : Next F × Bytes)
    → (p.0 ≡ need_more) ⊎ ((f : F) × (p.0 ≡ frame f)) ⊎ ((e : Error) × (p.0 ≡ thrown e))
Next-cases (need_more, b) = inl refl
Next-cases (frame f, b) = inr (inl (f, refl))
Next-cases (thrown e, b) = inr (inr (e, refl))

abbrev pub Takes {ℓ} : {F : Type ℓ} → (Bytes → Next F × Bytes) → Type ℓ
Takes {F} next = (buf : Bytes) (f : F) → (next buf).0 ≡ frame f → length (next buf).1 < length buf

module _ {ℓ} {F : Type ℓ} (next : Bytes → Next F × Bytes) where
  pub drain_all_waits :
      (buf : Bytes)
      → (next buf).0 ≡ need_more
      → drain_all next buf ≡ record { frames = []; raised = ok tt; left = (next buf).1 }
  unfolding drain_all drain
  drain_all_waits buf e = rw (e, drain) refl

  pub drain_all_keeps :
      (buf : Bytes)
      → next buf ≡ (need_more, buf)
      → drain_all next buf ≡ record { frames = []; raised = ok tt; left = buf }
  drain_all_keeps buf e =
      drain_all_waits buf (ap (λ r. r.0) e)
      ∙ ap (λ r. record { frames = []; raised = ok tt; left = r.1 }) e

  pub drain_all_throws :
      (buf : Bytes) (x : Error) → (next buf).0 ≡ thrown x → (drain_all next buf).raised ≡ err x
  unfolding drain_all drain
  drain_all_throws buf x e = rw (e, drain) refl

  module _ (takes : Takes next) where
    drain_enough :
        (f g : ℕ) (buf : Bytes)
        → length buf < f
        → length buf < g
        → drain next f buf ≡ drain next g buf
    unfolding drain
    drain_enough zero g buf hf hg = absurd (omega arith)
    drain_enough (suc f) zero buf hf hg = absurd (omega arith)
    drain_enough (suc f) (suc g) buf hf hg = elim (Next-cases (next buf)) [
      | inl e ↦ rw (e, drain)
      | inr (inl (x, e)) ↦
          let shorter = takes buf x e in
          rw (e, drain)
            (ap (cons_frame x) (drain_enough f g (next buf).1 (omega arith) (omega arith)))
      | inr (inr (x, e)) ↦ rw (e, drain)
    ]

    pub drain_all_step :
        (buf : Bytes) (f : F)
        → (next buf).0 ≡ frame f
        → drain_all next buf ≡ cons_frame f (drain_all next (next buf).1)
    unfolding drain_all drain
    drain_all_step buf f e =
        rw (e, drain)
          (ap (cons_frame f) (
            drain_enough (length buf) (suc (length (next buf).1)) (next buf).1
              (omega (arith, takes buf f e)) (omega arith)))

    drain-ne-stuck : (n : ℕ) (buf : Bytes) → length buf < n → (drain next n buf).raised ≢ stuck
    unfolding drain
    drain-ne-stuck zero buf h = absurd (omega arith)
    drain-ne-stuck (suc n) buf h = elim (Next-cases (next buf)) [
      | inl e ↦ rw (e, drain) (λ p. cc)
      | inr (inl (f, e)) ↦
          rw (e, drain) (drain-ne-stuck n (next buf).1 (omega (arith, takes buf f e)))
      | inr (inr (x, e)) ↦ rw (e, drain) (λ p. cc)
    ]

    -- The fuel of `drain_all` is enough for every buffer.
    pub drain_all-ne-stuck_of : (buf : Bytes) → (drain_all next buf).raised ≢ stuck
    unfolding drain_all
    drain_all-ne-stuck_of buf = drain-ne-stuck (suc (length buf)) buf (omega arith)
