-- ===== src/M3ua/Total.antt =====
-- The decoder of transport/M3uaCodec.cpp ends.
use gsup_map_proxy.Base.{
  ℕ, zero, suc, ◌+◌, ◌-◌, ◌≤◌, ◌<◌, ◌≡◌, ◌≢◌, refl, some, [], ◌∷◌, length, take, leb, ltb, Result,
  ok, err, stuck, map_ok, arith, length-drop, lt→leb_false, Ensures, true, false, not, ◌==◌, ◌&&◌,
  Ensures-if, Ensures-bind, Ensures-ok, Ensures-ne-stuck, holds, throws, Result-cases, Bool-cases,
  inl, inr, Ensures-of_ne_stuck,
}
use gsup_map_proxy.Buffer.{Bytes, read_be16, read_be32, read_bytes, remaining}
use gsup_map_proxy.Buffer.Laws.{read8-Ensures, read_bytes-Ensures}
use gsup_map_proxy.M3ua.{M3uaMessage}
use gsup_map_proxy.M3ua.Decode.{
  decode_protocol_data, apply_tlv, skip_padding, read_one, read_tlvs, blank, decode,
}

read_be16-Ensures : (r : Bytes) → Ensures (λ p. length r ≡ length p.1 + 2) (read_be16 r)
unfolding read_be16
read_be16-Ensures [] = throws
read_be16-Ensures (a ∷ []) = throws
read_be16-Ensures (a ∷ b ∷ r) = holds (omega arith)

read_be32-Ensures : (r : Bytes) → Ensures (λ p. length r ≡ length p.1 + 4) (read_be32 r)
unfolding read_be32
read_be32-Ensures [] = throws
read_be32-Ensures (a ∷ []) = throws
read_be32-Ensures (a ∷ b ∷ []) = throws
read_be32-Ensures (a ∷ b ∷ c ∷ []) = throws
read_be32-Ensures (a ∷ b ∷ c ∷ d ∷ r) = holds (omega arith)

decode_protocol_data-ne-stuck : (value : Bytes) → decode_protocol_data value ≢ stuck
unfolding decode_protocol_data
decode_protocol_data-ne-stuck value = Ensures-ne-stuck {P = λ _. Unit {0}} (
    Ensures-if (ltb (length value) 12) (λ h. throws)
      (λ h. Ensures-bind (read_be32-Ensures value) (λ p hp.
        Ensures-bind (read_be32-Ensures p.1) (λ p hp. Ensures-bind (read8-Ensures p.1) (λ p hp.
          Ensures-bind (read8-Ensures p.1) (λ p hp. Ensures-bind (read8-Ensures p.1) (λ p hp.
            Ensures-bind (read8-Ensures p.1) (λ p hp.
              Ensures-bind (read_bytes-Ensures (remaining p.1) p.1) (λ p hp. holds tt)))))))))

apply_tlv-ne-stuck : (msg : M3uaMessage) (tag : ℕ) (value : Bytes) → apply_tlv msg tag value ≢ stuck
unfolding apply_tlv
apply_tlv-ne-stuck msg tag value = elim (Result-cases (decode_protocol_data value)) [
  | inl (pd, e) ↦ ground arith
  | inr (inl (x, e)) ↦ ground arith
  | inr (inr e) ↦ absurd (decode_protocol_data-ne-stuck value e)
]

skip_padding-Ensures :
    (pad : ℕ) (r : Bytes) → Ensures (λ r'. length r' ≤ length r) (skip_padding pad r)
unfolding skip_padding read_bytes
skip_padding-Ensures pad r = elim (Bool-cases (leb pad (length r))) [
  | inl fits ↦ rw fits (
      Ensures-if (ltb 0 pad && true) (λ h. holds (omega (arith, length-drop pad r)))
        (λ h. holds (omega arith)))
  | inr short ↦ rw short (Ensures-if (ltb 0 pad && false) (λ h. throws) (λ h. holds (omega arith)))
]

-- A round takes the TLV's header at least.
read_one-Ensures :
    (msg : M3uaMessage) (r : Bytes) → Ensures (λ p. length p.1 < length r) (read_one msg r)
unfolding read_one
read_one-Ensures msg r = Ensures-bind (read_be16-Ensures r) (λ p hp.
    Ensures-bind (read_be16-Ensures p.1) (λ q hq.
      Ensures-if (ltb (q.0) 4) (λ h. throws)
        (λ h.
          Ensures-if (ltb (length q.1) (q.0 - 4)) (λ h. throws)
            (λ h. Ensures-bind (read_bytes-Ensures (q.0 - 4) q.1) (λ v hv.
              Ensures-bind (skip_padding-Ensures _ v.1) (λ r' hr.
                Ensures-bind (Ensures-of_ne_stuck _ (apply_tlv-ne-stuck msg p.0 v.0))
                  (λ m hm. holds (omega arith))))))))

read_tlvs-ne-stuck :
    (fuel : ℕ) (msg : M3uaMessage) (r : Bytes) → length r ≤ fuel → read_tlvs fuel msg r ≢ stuck
unfolding read_tlvs
read_tlvs-ne-stuck zero msg r h = rw (lt→leb_false 4 (length r) (omega arith)) (λ e. cc)
read_tlvs-ne-stuck (suc fuel) msg r h = elim (Bool-cases (leb 4 (length r))) [
  | inl more ↦
      rw (more, read_tlvs)
        (elim (Result-cases (read_one msg r)) [
          | inl (p, e) ↦ rw e (
              read_tlvs-ne-stuck fuel p.0 p.1
                (omega (arith, Ensures-ok (read_one-Ensures msg r) e)))
          | inr (inl (x, e)) ↦ rw e (λ q. cc)
          | inr (inr e) ↦ absurd (Ensures-ne-stuck (read_one-Ensures msg r) e)
        ])
  | inr done ↦ rw (done, read_tlvs) (λ e. cc)
]

map_ok-ne-stuck {ℓ κ} :
    {A : Type ℓ} {B : Type κ} (f : A → B) (x : Result A) → x ≢ stuck → map_ok f x ≢ stuck
map_ok-ne-stuck f (ok a) h = λ e. cc
map_ok-ne-stuck f (err x) h = λ e. cc
map_ok-ne-stuck f stuck h = absurd (h refl)

-- The decoder ends on every sequence of bytes, with a message, with the answer that bytes are
-- missing, or with an exception.
pub decode-ne-stuck : (bytes : Bytes) → decode bytes ≢ stuck
unfolding decode
decode-ne-stuck bytes = Ensures-ne-stuck {P = λ _. Unit {0}} (
    Ensures-if (ltb (length bytes) 8) (λ h. holds tt)
      (λ h. Ensures-bind (read8-Ensures bytes) (λ v hv. Ensures-bind (read8-Ensures v.1) (λ z hz.
        Ensures-bind (read8-Ensures z.1) (λ c hc. Ensures-bind (read8-Ensures c.1) (λ t ht.
          Ensures-bind (read_be32-Ensures t.1) (λ n hn.
            Ensures-if (not (v.0 == 1)) (λ h. throws)
              (λ h.
                Ensures-if (ltb n.0 8) (λ h. throws)
                  (λ h.
                    Ensures-if (ltb (length bytes) n.0) (λ h. holds tt)
                      (λ h.
                        let body = take (n.0 - 8) n.1 in
                        Ensures-of_ne_stuck _ (
                          map_ok-ne-stuck some _ (
                            read_tlvs-ne-stuck (length body) (blank c.0 t.0) body
                              (omega arith)))))))))))))
