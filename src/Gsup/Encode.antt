-- ===== src/Gsup/Encode.antt =====
-- `encode` of gsup/GsupCodec.cpp, with its helpers.
use gsup_map_proxy.Base.{
  ℕ, ◌-◌, ◌/◌, ◌^◌, Bool, true, false, not, ◌&&◌, ◌||◌, List, [], ◌∷◌, length, Option, none, some,
  ltb, if◌then◌else◌, Result, ok, err, runtime_error, invalid_argument, ◌>>=◌,
}
use gsup_map_proxy.Buffer.{Bytes, uint8, write8, write_bytes, reserve_len8, patch8, empty}
use gsup_map_proxy.Bcd.{Text, pack}
use gsup_map_proxy.Gsup.{AuthTuple, PdpInfo, GsupMessage}
use gsup_map_proxy.Gsup.IeTag

unfoldable pub all_digits : Text → Bool
all_digits [] = true
all_digits (c ∷ cs) = not (ltb c b'0' || ltb b'9' c) && all_digits cs

unfoldable pub imsi_to_bcd : Text → Result Bytes
unfolding all_digits
imsi_to_bcd imsi =
    if empty imsi || ltb 15 (length imsi)
    then err invalid_argument
    else if not (all_digits imsi)
    then err invalid_argument
    else ok (pack imsi)

unfoldable pub isdn_to_bcd : Text → Bytes
isdn_to_bcd digits = 0x91 ∷ pack digits

unfoldable pub write_tlv : Bytes → ℕ → Bytes → Result Bytes
write_tlv w tag val =
    if ltb 255 (length val)
    then err runtime_error
    else ok (write_bytes (write8 (write8 w tag) (uint8 (length val))) val)

unfoldable pub write_tlv1 : Bytes → ℕ → ℕ → Bytes
write_tlv1 w tag val = write8 (write8 (write8 w tag) 1) val

-- `if (field) writeTlv(w, tag, *field);`
unfoldable pub write_optional : Bytes → ℕ → Option Bytes → Result Bytes
write_optional w tag none = ok w
write_optional w tag (some val) = write_tlv w tag val

unfoldable pub write_optional1 : Bytes → ℕ → Option ℕ → Bytes
write_optional1 w tag none = w
write_optional1 w tag (some val) = write_tlv1 w tag val

unfoldable pub write_flag : Bytes → ℕ → Bool → Bytes
write_flag w tag true = write8 (write8 w tag) 0
write_flag w tag false = w

unfoldable pub write_auth_fields : Bytes → AuthTuple → Result Bytes
write_auth_fields w t = do
  w ← write_tlv w IeTag.rand t.rand
  w ← write_tlv w IeTag.sres t.sres
  w ← write_tlv w IeTag.kc t.kc
  w ← write_optional w IeTag.ik t.ik
  w ← write_optional w IeTag.ck t.ck
  w ← write_optional w IeTag.autn t.autn
  write_optional w IeTag.res t.res

-- The length slot is filled when the fields have been written.
unfoldable pub encode_auth_tuple : Bytes → AuthTuple → Result Bytes
encode_auth_tuple w t =
    let (len_off, slot) = reserve_len8 (write8 w IeTag.auth_tuple) in
    let start = length slot in
    write_auth_fields slot t >>= λ w. ok (patch8 w len_off (uint8 (length w - start)))

-- The two bytes of `*p.pdpType`.
unfoldable pub pdp_type_bytes : Option ℕ → Option Bytes
pdp_type_bytes none = none
pdp_type_bytes (some t) = some (uint8 (t / 2 ^ 8) ∷ uint8 t ∷ [])

unfoldable pub write_pdp_fields : Bytes → PdpInfo → Result Bytes
write_pdp_fields w p = do
  w ←
      write_optional (write_tlv1 w IeTag.pdp_context_id p.context_id) IeTag.pdp_type
        (pdp_type_bytes p.pdp_type)
  w ← write_optional w IeTag.access_point_name p.apn
  w ← write_optional w IeTag.pdp_address p.pdp_address
  write_optional w IeTag.pdp_qos p.qos

unfoldable pub encode_pdp_info : Bytes → PdpInfo → Result Bytes
encode_pdp_info w p =
    let (len_off, slot) = reserve_len8 (write8 w IeTag.pdp_info) in
    let start = length slot in
    write_pdp_fields slot p >>= λ w. ok (patch8 w len_off (uint8 (length w - start)))

-- A `for` loop that writes each element.
unfoldable pub write_each {ℓ} :
    {A : Type ℓ} → (Bytes → A → Result Bytes) → Bytes → List A → Result Bytes
write_each write w [] = ok w
write_each write w (x ∷ xs) = write w x >>= λ w. write_each write w xs

unfoldable pub write_imsi : Bytes → Text → Result Bytes
write_imsi w imsi =
    if empty imsi then ok w else (do bcd ← imsi_to_bcd imsi; write_tlv w IeTag.imsi bcd)

unfoldable pub encode : GsupMessage → Result Bytes
encode msg = do
  w ← write_imsi (write8 [] msg.type) msg.imsi
  let w = write_optional1 w IeTag.cause msg.cause
  let w = write_optional1 w IeTag.num_vectors_req msg.num_vectors_requested
  w ← write_each encode_auth_tuple w msg.auth_tuples
  w ← write_optional w IeTag.msisdn msg.msisdn
  w ← write_optional w IeTag.hlr_number msg.hlr_number
  let w = write_flag w IeTag.pdp_info_complete msg.pdp_info_complete
  w ← write_each encode_pdp_info w msg.pdp_info_list
  let w = write_optional1 w IeTag.cancel_type msg.cancel_type
  let w = write_flag w IeTag.freeze_ptmsi msg.freeze_ptmsi
  ok (write_optional1 w IeTag.cn_domain msg.cn_domain)
