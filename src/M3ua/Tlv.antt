-- ===== src/M3ua/Tlv.antt =====
-- Reading back the TLVs of an M3UA message's body.
use gsup_map_proxy.Base.{
  ℕ, zero, suc, ◌+◌, ◌-◌, ◌*◌, ◌/◌, ◌^◌, ◌≤◌, ◌<◌, ◌≡◌, refl, sym, ap, ◌∙◌, List, [], ◌∷◌, ◌++◌,
  length, replicate, Result, ok, ◌>>=◌, arith, length-append, Result-cases, inl, inr,
  length-replicate, append_assoc, All, le→leb, le→ltb_false, lt→ltb,
}
use gsup_map_proxy.Buffer.{Bytes, uint8, uint16, write_be16, read_be16, write_bytes}
use gsup_map_proxy.Buffer.Laws.{read_bytes-append}
use gsup_map_proxy.M3ua.{M3uaMessage}
use gsup_map_proxy.M3ua.Encode.{padding, write_tlv}
use gsup_map_proxy.M3ua.Decode.{apply_tlv, skip_padding, read_one, read_tlvs}

-- A TLV of tag `tag`: its header, its value and the padding.
unfoldable pub tlv : ℕ → Bytes → Bytes
tlv tag value =
    let len = uint16 (4 + length value) in
    uint8 (tag / 2 ^ 8)
    ∷ uint8 tag
    ∷ uint8 (len / 2 ^ 8)
    ∷ uint8 len
    ∷ (value ++ replicate (padding (length value)) 0)

pub write_tlv-tlv :
    (w : Bytes) (tag : ℕ) (value : Bytes) → write_tlv w tag value ≡ w ++ tlv tag value
unfolding write_tlv tlv write_be16 write_bytes
write_tlv-tlv w tag value = simp append_assoc

size_of_value : (n : ℕ) → 4 + n - 4 ≡ n
size_of_value n = omega arith

skip_padding-append : (v rest : Bytes) → skip_padding (length v) (v ++ rest) ≡ ok rest
unfolding skip_padding
skip_padding-append [] rest = refl
skip_padding-append (x ∷ v) rest =
    rw (le→leb (length (x ∷ v)) (length ((x ∷ v) ++ rest)) (omega (arith, length-append v rest)))
      (rw (read_bytes-append (x ∷ v) rest) (rw (lt→ltb 0 (length (x ∷ v)) (omega arith)) refl))

skip_padding-replicate : (n : ℕ) (rest : Bytes) → skip_padding n (replicate n 0 ++ rest) ≡ ok rest
skip_padding-replicate n rest =
    ap (λ k. skip_padding k (replicate n 0 ++ rest)) (sym (length-replicate n 0))
    ∙ skip_padding-append (replicate n 0) rest

-- The body of the loop once the header `a b c d` has been read.
read_one-header :
    (msg : M3uaMessage) (a b c d tag : ℕ) (value rest : Bytes)
    → a * 2 ^ 8 + b ≡ tag
    → c * 2 ^ 8 + d ≡ 4 + length value
    → read_one msg (a ∷ b ∷ c ∷ d ∷ (value ++ replicate (padding (length value)) 0) ++ rest)
      ≡ (apply_tlv msg tag value >>= λ m. ok (m, rest))
unfolding read_one read_be16
read_one-header msg a b c d tag value rest et el = rw et (
    rw el (
      rw (le→ltb_false (4 + length value) 4 (omega arith)) (
        rw (size_of_value (length value)) (
          rw (append_assoc value (replicate (padding (length value)) 0) rest) (
            rw
              (le→ltb_false (length (value ++ (replicate (padding (length value)) 0 ++ rest)))
                (length value)
                (omega (arith, length-append value (replicate (padding (length value)) 0 ++ rest))))
              (rw (read_bytes-append value (replicate (padding (length value)) 0 ++ rest))
                (rw (skip_padding-replicate (padding (length value)) rest) refl)))))))

read_one-tlv :
    (msg : M3uaMessage) (tag : ℕ) (value rest : Bytes)
    → tag < 2 ^ 16
    → 4 + length value < 2 ^ 16
    → read_one msg (tlv tag value ++ rest) ≡ (apply_tlv msg tag value >>= λ m. ok (m, rest))
unfolding tlv
read_one-tlv msg tag value rest ht hv =
    read_one-header msg _ _ _ _ tag value rest (omega arith) (omega arith)

pub length-tlv :
    (tag : ℕ) (value rest : Bytes) → 4 + length value + length rest ≤ length (tlv tag value ++ rest)
unfolding tlv
length-tlv tag value rest = omega (
  arith,
  length-append (value ++ replicate (padding (length value)) 0) rest,
  length-append value (replicate (padding (length value)) 0),
)

-- A body as the list of its TLVs.
abbrev pub tlvs : List (ℕ × Bytes) → Bytes
tlvs [] = []
tlvs ((tag, value) ∷ ts) = tlv tag value ++ tlvs ts

abbrev pub FitsTlv : ℕ × Bytes → Type 0
FitsTlv (tag, value) = (tag < 2 ^ 16) × (4 + length value < 2 ^ 16)

unfoldable pub apply_all : M3uaMessage → List (ℕ × Bytes) → Result M3uaMessage
apply_all msg [] = ok msg
apply_all msg ((tag, value) ∷ ts) = apply_tlv msg tag value >>= λ m. apply_all m ts

pub read_tlvs-tlvs :
    (fuel : ℕ) (msg : M3uaMessage) (ts : List (ℕ × Bytes))
    → length ts ≤ fuel
    → All FitsTlv ts
    → read_tlvs fuel msg (tlvs ts) ≡ apply_all msg ts
unfolding read_tlvs apply_all
read_tlvs-tlvs zero msg [] h fits = refl
read_tlvs-tlvs (suc fuel) msg [] h fits = refl
read_tlvs-tlvs zero msg (t ∷ ts) h fits = absurd (omega arith)
read_tlvs-tlvs (suc fuel) msg ((tag, value) ∷ ts) h fits =
    rw
      (
        le→leb 4 (length (tlv tag value ++ tlvs ts))
            (omega (arith, length-tlv tag value (tlvs ts))),
        read_tlvs,
      )
      (rw (read_one-tlv msg tag value (tlvs ts) fits.0.0 fits.0.1)
        (elim (Result-cases (apply_tlv msg tag value)) [
          | inl (m, e) ↦ rw e (read_tlvs-tlvs fuel m ts (omega arith) fits.1)
          | inr (inl (x, e)) ↦ rw e
          | inr (inr e) ↦ rw e
        ]))

pub length-tlvs : (ts : List (ℕ × Bytes)) → length ts ≤ length (tlvs ts)
length-tlvs [] = omega arith
length-tlvs ((tag, value) ∷ ts) =
    omega (
      arith,
      length-tlvs ts,
      length-tlv tag value (tlvs ts),
      length-append (tlv tag value) (tlvs ts),
    )

pub length-tlvs_below :
    (ts : List (ℕ × Bytes)) → All FitsTlv ts → length (tlvs ts) ≤ length ts * (2 ^ 16 + 3)
unfolding tlv
length-tlvs_below [] h = omega arith
length-tlvs_below ((tag, value) ∷ ts) h = omega (
  arith,
  length-tlvs_below ts h.1,
  h.0.1,
  length-append (tlv tag value) (tlvs ts),
  length-append value (replicate (padding (length value)) 0),
  length-replicate {A = ℕ} (padding (length value)) 0,
)

pub length-tlv_below : (tag : ℕ) (value : Bytes) → length (tlv tag value) ≤ 7 + length value
unfolding tlv
length-tlv_below tag value = omega (
  arith,
  length-append value (replicate (padding (length value)) 0),
  length-replicate {A = ℕ} (padding (length value)) 0,
)
