-- ===== src/Gsup/Pdp.antt =====
-- PDP contexts: what `encodePdpInfo` writes, `decodePdpInfo` reads back.
use gsup_map_proxy.Base.{
  ℕ, ◌^◌, ◌<◌, ◌≡◌, refl, sym, ap, ◌∙◌, [], ◌∷◌, ◌++◌, Option, none, some, ok, arith, append_assoc,
  append-nil,
}
use gsup_map_proxy.Buffer.{Bytes}
use gsup_map_proxy.Buffer.Loop.{until_empty, until_empty_step, until_empty_nil}
use gsup_map_proxy.Bcd.{Text}
use gsup_map_proxy.Gsup.{PdpInfo, new_pdp_info}
use gsup_map_proxy.Gsup.IeTag
use gsup_map_proxy.Gsup.Decode.{set_pdp_field, pdp_round, decode_pdp_info}
use gsup_map_proxy.Gsup.Encode.{pdp_type_bytes, write_pdp_fields, encode_pdp_info}
use gsup_map_proxy.Gsup.Total.{pdp_round-Consumes}
use gsup_map_proxy.Gsup.Elements.{
  ie, optional_ie, Fits, OptionalFits, write_optional-ie, write_tlv1-ie, read_sub_ie-ie, patch8-ie,
}

-- The bytes between the length slot and the end.
unfoldable pub pdp_fields : PdpInfo → Bytes
pdp_fields p =
    ie IeTag.pdp_context_id (p.context_id ∷ [])
    ++ (optional_ie IeTag.pdp_type (pdp_type_bytes p.pdp_type)
        ++ (optional_ie IeTag.access_point_name p.apn
            ++ (optional_ie IeTag.pdp_address p.pdp_address ++ optional_ie IeTag.pdp_qos p.qos)))

abbrev pub IsU16 : Option ℕ → Type 0
IsU16 none = Unit
IsU16 (some t) = t < 2 ^ 16

-- The PDP type is a `uint16_t`; every field and the whole fit their length bytes.
pub record PdpFits (p : PdpInfo) : Type 0 where
  pub type_fits : IsU16 p.pdp_type
  pub apn_fits : OptionalFits p.apn
  pub address_fits : OptionalFits p.pdp_address
  pub qos_fits : OptionalFits p.qos
  pub whole_fits : Fits (pdp_fields p)

pdp_type_bytes-fits : (o : Option ℕ) → OptionalFits (pdp_type_bytes o)
unfolding pdp_type_bytes
pdp_type_bytes-fits none = tt
pdp_type_bytes-fits (some t) = omega arith

write_pdp_fields-pdp_fields :
    (w : Bytes) (p : PdpInfo) → PdpFits p → write_pdp_fields w p ≡ ok (w ++ pdp_fields p)
unfolding write_pdp_fields pdp_fields
write_pdp_fields-pdp_fields w p f = rw (write_tlv1-ie w IeTag.pdp_context_id p.context_id) (
    rw
      (write_optional-ie _ IeTag.pdp_type (pdp_type_bytes p.pdp_type)
        (pdp_type_bytes-fits p.pdp_type))
      (rw (write_optional-ie _ IeTag.access_point_name p.apn f.apn_fits) (
        rw (write_optional-ie _ IeTag.pdp_address p.pdp_address f.address_fits)
          (write_optional-ie _ IeTag.pdp_qos p.qos f.qos_fits ∙ simp append_assoc))))

pub encode_pdp_info-ie :
    (w : Bytes) (p : PdpInfo)
    → PdpFits p
    → encode_pdp_info w p ≡ ok (w ++ ie IeTag.pdp_info (pdp_fields p))
unfolding encode_pdp_info
encode_pdp_info-ie w p f =
    rw (write_pdp_fields-pdp_fields _ p f)
      (ap ok (patch8-ie w IeTag.pdp_info (pdp_fields p) f.whole_fits))

pdp_step :
    (p : PdpInfo) (tag : ℕ) (val rest : Bytes)
    → until_empty pdp_round p (ie tag val ++ rest)
      ≡ until_empty pdp_round (set_pdp_field tag val p) rest
pdp_step p tag val rest =
    until_empty_step pdp_round pdp_round-Consumes p (set_pdp_field tag val p) _ rest
      (unfold pdp_round in rw (read_sub_ie-ie tag val rest))

set_optional : ℕ → Option Bytes → PdpInfo → PdpInfo
set_optional tag none p = p
set_optional tag (some val) p = set_pdp_field tag val p

pdp_optional_step :
    (p : PdpInfo) (tag : ℕ) (o : Option Bytes) (rest : Bytes)
    → until_empty pdp_round p (optional_ie tag o ++ rest)
      ≡ until_empty pdp_round (set_optional tag o p) rest
unfolding set_optional
pdp_optional_step p tag none rest = refl
pdp_optional_step p tag (some val) rest = pdp_step p tag val rest

with_fields : ℕ → Option ℕ → Option Text → Option Bytes → Option Bytes → PdpInfo
with_fields id type apn address qos =
    let p = record new_pdp_info { context_id = id } in
    set_optional IeTag.pdp_qos qos (
      set_optional IeTag.pdp_address address (
        set_optional IeTag.access_point_name apn
          (set_optional IeTag.pdp_type (pdp_type_bytes type) p)))

with_fields_lem :
    (p : PdpInfo)
    → IsU16 p.pdp_type
    → with_fields p.context_id p.pdp_type p.apn p.pdp_address p.qos ≡ p
unfolding with_fields set_optional set_pdp_field pdp_type_bytes
with_fields_lem p h = ground arith

-- `decodePdpInfo` gives back the PDP context whose fields were written.
pub decode_pdp_info-pdp_fields :
    (p : PdpInfo) → IsU16 p.pdp_type → decode_pdp_info (pdp_fields p) ≡ ok p
unfolding decode_pdp_info pdp_fields
decode_pdp_info-pdp_fields p h =
    pdp_step new_pdp_info IeTag.pdp_context_id (p.context_id ∷ []) _
    ∙ pdp_optional_step _ IeTag.pdp_type (pdp_type_bytes p.pdp_type) _
    ∙ pdp_optional_step _ IeTag.access_point_name p.apn _
    ∙ pdp_optional_step _ IeTag.pdp_address p.pdp_address _
    ∙ ap (until_empty pdp_round _) (sym (append-nil (optional_ie IeTag.pdp_qos p.qos)))
    ∙ pdp_optional_step _ IeTag.pdp_qos p.qos []
    ∙ until_empty_nil pdp_round _
    ∙ ap ok (unfold with_fields set_pdp_field in with_fields_lem p h)
