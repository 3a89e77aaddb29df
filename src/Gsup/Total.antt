-- ===== src/Gsup/Total.antt =====
-- The GSUP decoder ends on every input: each round of its loops takes bytes.
use gsup_map_proxy.Base.{
  ℕ, ◌-◌, ◌≤◌, ◌<◌, ◌≢◌, Option, length, ltb, leb, ◌==◌, Result, stuck, Ensures, holds, throws,
  Ensures-if, Ensures-bind, Ensures-ne-stuck, Ensures-weaken, Ensures-of_ne_stuck, arith,
}
use gsup_map_proxy.Buffer.{Bytes, remaining}
use gsup_map_proxy.Buffer.Laws.{read8-Ensures, read_bytes-Ensures, slice-Ensures}
use gsup_map_proxy.Buffer.Loop.{Consumes, until_empty-ne-stuck}
use gsup_map_proxy.Bcd.RoundTrip.{unpack-ne-stuck}
use gsup_map_proxy.Gsup.{GsupMessage, new_auth_tuple, new_pdp_info}
use gsup_map_proxy.Gsup.IeTag
use gsup_map_proxy.Gsup.Decode.{
  bcd_to_imsi, read_sub_ie, auth_round, decode_auth_tuple, pdp_round, decode_pdp_info, skip_rest,
  read_optional8, decode_imsi, decode_cause, decode_auth, decode_complete, decode_pdp,
  decode_cancel_type, decode_freeze, decode_msisdn, decode_hlr_number, decode_num_vectors,
  decode_cn_domain, skip_ie, decode_ie, decode_round, decode,
}

read_sub_ie-Ensures : (r : Bytes) → Ensures (λ p. length p.2 < length r) (read_sub_ie r)
unfolding read_sub_ie
read_sub_ie-Ensures r = Ensures-bind (read8-Ensures r) λ (tag, r₁) e₁.
    Ensures-bind (read8-Ensures r₁)
      λ (len, r₂) e₂. Ensures-bind (read_bytes-Ensures len r₂) λ (val, r₃) e₃. holds (omega arith)

pub auth_round-Consumes : Consumes auth_round
unfolding auth_round
auth_round-Consumes t r = Ensures-bind (read_sub_ie-Ensures r) λ (tag, val, r') h. holds h

pub pdp_round-Consumes : Consumes pdp_round
unfolding pdp_round
pdp_round-Consumes p r = Ensures-bind (read_sub_ie-Ensures r) λ (tag, val, r') h. holds h

skip_rest-Ensures : (len : ℕ) (r : Bytes) → Ensures (λ r'. length r' ≤ length r) (skip_rest len r)
unfolding skip_rest
skip_rest-Ensures len r =
    Ensures-if (ltb 1 len)
      (λ h. Ensures-bind (read_bytes-Ensures (len - 1) r) λ (skipped, r') e. holds (omega arith))
      (λ h. holds (omega arith))

-- The rest is no longer than the reader was.
abbrev Shrinks {ℓ} : {A : Type ℓ} → Bytes → Result (A × Bytes) → Type ℓ
Shrinks r = Ensures (λ p. length p.1 ≤ length r)

read_optional8-Shrinks :
    (len : ℕ) (old : Option ℕ) (r : Bytes) → Shrinks r (read_optional8 len old r)
unfolding read_optional8
read_optional8-Shrinks len old r =
    Ensures-if (leb 1 len)
      (λ h.
        Ensures-bind (read8-Ensures r)
          λ (v, r₁) e₁. Ensures-bind (skip_rest-Ensures len r₁) λ r₂ e₂. holds (omega arith))
      (λ h. Ensures-bind (skip_rest-Ensures len r) λ r₁ e₁. holds e₁)

module _ (len : ℕ) (msg : GsupMessage) (r : Bytes) where
  decode_imsi-Shrinks : Shrinks r (decode_imsi len msg r)
  unfolding decode_imsi bcd_to_imsi
  decode_imsi-Shrinks = Ensures-bind (read_bytes-Ensures len r) λ (bcd, r₁) e₁.
      Ensures-bind (Ensures-of_ne_stuck _ (unpack-ne-stuck bcd)) λ imsi _. holds (omega arith)

  decode_cause-Shrinks : Shrinks r (decode_cause len msg r)
  unfolding decode_cause
  decode_cause-Shrinks =
      Ensures-bind (read8-Ensures r)
        λ (v, r₁) e₁. Ensures-bind (skip_rest-Ensures len r₁) λ r₂ e₂. holds (omega arith)

  decode_auth-Shrinks : Shrinks r (decode_auth len msg r)
  unfolding decode_auth decode_auth_tuple
  decode_auth-Shrinks = Ensures-bind (slice-Ensures len r) λ (sub, r₁) e₁.
      Ensures-bind
        (Ensures-of_ne_stuck _
          (until_empty-ne-stuck auth_round auth_round-Consumes new_auth_tuple sub))
        λ t _. holds (omega arith)

  decode_pdp-Shrinks : Shrinks r (decode_pdp len msg r)
  unfolding decode_pdp decode_pdp_info
  decode_pdp-Shrinks = Ensures-bind (slice-Ensures len r) λ (sub, r₁) e₁.
      Ensures-bind
        (Ensures-of_ne_stuck _ (until_empty-ne-stuck pdp_round pdp_round-Consumes new_pdp_info sub))
        λ p _. holds (omega arith)

  decode_complete-Shrinks : Shrinks r (decode_complete len msg r)
  unfolding decode_complete
  decode_complete-Shrinks =
      Ensures-bind (read_bytes-Ensures len r) λ (skipped, r₁) e₁. holds (omega arith)

  decode_freeze-Shrinks : Shrinks r (decode_freeze len msg r)
  unfolding decode_freeze
  decode_freeze-Shrinks =
      Ensures-bind (read_bytes-Ensures len r) λ (skipped, r₁) e₁. holds (omega arith)

  decode_msisdn-Shrinks : Shrinks r (decode_msisdn len msg r)
  unfolding decode_msisdn
  decode_msisdn-Shrinks = Ensures-bind (read_bytes-Ensures len r) λ (v, r₁) e₁. holds (omega arith)

  decode_hlr_number-Shrinks : Shrinks r (decode_hlr_number len msg r)
  unfolding decode_hlr_number
  decode_hlr_number-Shrinks =
      Ensures-bind (read_bytes-Ensures len r) λ (v, r₁) e₁. holds (omega arith)

  skip_ie-Shrinks : Shrinks r (skip_ie len msg r)
  unfolding skip_ie
  skip_ie-Shrinks = Ensures-bind (read_bytes-Ensures len r) λ (skipped, r₁) e₁. holds (omega arith)

  decode_cancel_type-Shrinks : Shrinks r (decode_cancel_type len msg r)
  unfolding decode_cancel_type
  decode_cancel_type-Shrinks =
      Ensures-bind (read_optional8-Shrinks len msg.cancel_type r) λ (v, r₁) e₁. holds e₁

  decode_num_vectors-Shrinks : Shrinks r (decode_num_vectors len msg r)
  unfolding decode_num_vectors
  decode_num_vectors-Shrinks =
      Ensures-bind (read_optional8-Shrinks len msg.num_vectors_requested r) λ (v, r₁) e₁. holds e₁

  decode_cn_domain-Shrinks : Shrinks r (decode_cn_domain len msg r)
  unfolding decode_cn_domain
  decode_cn_domain-Shrinks =
      Ensures-bind (read_optional8-Shrinks len msg.cn_domain r) λ (v, r₁) e₁. holds e₁

  decode_ie-Shrinks : (tag : ℕ) → Shrinks r (decode_ie tag len msg r)
  unfolding decode_ie
  decode_ie-Shrinks tag =
      Ensures-if (tag == IeTag.imsi) (λ _. decode_imsi-Shrinks)
        λ _.
          Ensures-if (tag == IeTag.cause) (λ _. decode_cause-Shrinks)
            λ _.
              Ensures-if (tag == IeTag.auth_tuple) (λ _. decode_auth-Shrinks)
                λ _.
                  Ensures-if (tag == IeTag.pdp_info_complete) (λ _. decode_complete-Shrinks)
                    λ _.
                      Ensures-if (tag == IeTag.pdp_info) (λ _. decode_pdp-Shrinks)
                        λ _.
                          Ensures-if (tag == IeTag.cancel_type) (λ _. decode_cancel_type-Shrinks)
                            λ _.
                              Ensures-if (tag == IeTag.freeze_ptmsi) (λ _. decode_freeze-Shrinks)
                                λ _.
                                  Ensures-if (tag == IeTag.msisdn) (λ _. decode_msisdn-Shrinks)
                                    λ _.
                                      Ensures-if (tag == IeTag.hlr_number)
                                        (λ _. decode_hlr_number-Shrinks)
                                        λ _.
                                          Ensures-if (tag == IeTag.num_vectors_req)
                                            (λ _. decode_num_vectors-Shrinks)
                                            λ _.
                                              Ensures-if (tag == IeTag.cn_domain)
                                                (λ _. decode_cn_domain-Shrinks) λ _. skip_ie-Shrinks

pub decode_round-Consumes : Consumes decode_round
unfolding decode_round
decode_round-Consumes msg r =
    Ensures-if (ltb (remaining r) 2) (λ _. throws)
      λ _. Ensures-bind (read8-Ensures r) λ (tag, r₁) e₁.
        Ensures-bind (read8-Ensures r₁) λ (len, r₂) e₂.
          Ensures-if (ltb (remaining r₂) len) (λ _. throws)
            λ _. Ensures-weaken (decode_ie-Shrinks len msg r₂ tag) λ p h. omega arith

-- The decoder returns a message or throws on every payload: no loop of it runs on.
pub decode-ne-stuck : (payload : Bytes) → decode payload ≢ stuck
unfolding decode
decode-ne-stuck payload = Ensures-ne-stuck (
    Ensures-if (ltb (length payload) 1) (λ _. throws)
      λ _. Ensures-bind (read8-Ensures payload) λ (type, r) e.
        Ensures-of_ne_stuck _ (until_empty-ne-stuck decode_round decode_round-Consumes _ r))
