-- ===== src/Map/Envelope.antt =====
-- The TLV layers of a TCAP PDU: each is read back as it was written.
use gsup_map_proxy.Base.{
  ℕ, ◌+◌, ◌/◌, ◌%◌, ◌^◌, ◌≤◌, ◌<◌, ◌≡◌, refl, ap, sym, ◌∙◌, [], ◌∷◌, ◌++◌, length, Result, ok,
  arith, append-nil, length-append,
}
use gsup_map_proxy.Buffer.{Bytes}
use gsup_map_proxy.Buffer.Loop.{until_empty_step, until_empty_nil}
use gsup_map_proxy.Ber.{encode_int}
use gsup_map_proxy.Ber.Tlv.{length_bytes, tlv, read_tlv-tlv}
use gsup_map_proxy.Ber.Integer.{decode_int-encode_int}
use gsup_map_proxy.Map.Encode.{tid_bytes}
use gsup_map_proxy.Map.Decode.{tlv_round, each_tlv, decode_uint8, decode_tid}
use gsup_map_proxy.Map.Total.{tlv_round-Consumes, Handles}

-- A loop over TLVs takes the first one.
pub each_tlv_step {ℓ} :
    {S : Type ℓ} (handle : ℕ → Bytes → S → Result S) (h : Handles handle) (s s' : S) (tag : ℕ)
    (val rest : Bytes)
    → length val ≤ 0xffff
    → handle tag val s ≡ ok s'
    → each_tlv handle s (tlv tag val ++ rest) ≡ each_tlv handle s' rest
unfolding each_tlv
each_tlv_step handle h s s' tag val rest short e =
    until_empty_step (tlv_round handle) (tlv_round-Consumes handle h) s s' (tlv tag val ++ rest)
      rest (unfold tlv_round in rw (read_tlv-tlv tag val rest short) (rw e refl))

pub each_tlv_one {ℓ} :
    {S : Type ℓ} (handle : ℕ → Bytes → S → Result S) (h : Handles handle) (s s' : S) (tag : ℕ)
    (val : Bytes)
    → length val ≤ 0xffff
    → handle tag val s ≡ ok s'
    → each_tlv handle s (tlv tag val) ≡ ok s'
unfolding each_tlv
each_tlv_one handle h s s' tag val short e =
    ap (each_tlv handle s) (sym (append-nil (tlv tag val)))
    ∙ each_tlv_step handle h s s' tag val [] short e
    ∙ until_empty_nil (tlv_round handle) s'

pub decode_tid-tid_bytes : (tid : ℕ) → tid < 2 ^ 32 → decode_tid 0 (tid_bytes tid) ≡ tid
unfolding decode_tid tid_bytes
decode_tid-tid_bytes tid small = omega arith

pub decode_uint8-encode_int : (v : ℕ) → v < 2 ^ 8 → decode_uint8 (encode_int v) ≡ ok v
unfolding decode_uint8
decode_uint8-encode_int v small = rw (decode_int-encode_int v (omega arith)) (ap ok (omega arith))

pub length-tlv : (tag : ℕ) (val : Bytes) → length (tlv tag val) ≤ length val + 4
unfolding tlv length_bytes
length-tlv tag val = ground (
  arith,
  length-append (0x81 ∷ length val ∷ []) val,
  length-append (0x82 ∷ length val / 2 ^ 8 ∷ length val % 2 ^ 8 ∷ []) val,
)
