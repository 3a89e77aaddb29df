-- ===== src/M3ua/Body.antt =====
-- What the encoder of M3UA messages writes.
use gsup_map_proxy.Base.{
  ℕ, ◌+◌, ◌/◌, ◌^◌, ◌≤◌, ◌<◌, ◌≡◌, refl, sym, ap, ◌∙◌, Option, none, some, List, [], ◌∷◌, ◌++◌,
  length, arith, length-append, append_assoc, append-nil, All, All-append,
}
use gsup_map_proxy.Buffer.{Bytes, uint8, uint32, write8, write_be32, write_bytes}
use gsup_map_proxy.M3ua.{
  M3uaMessage, ProtocolData, make_data, version, tag_routing_ctx, tag_heartbeat_data,
  tag_protocol_data,
}
use gsup_map_proxy.M3ua.Encode.{
  write_tlv, write_tlv_u32, write_routing_context, write_heartbeat_data, protocol_data_bytes,
  write_protocol_data, encode,
}
use gsup_map_proxy.M3ua.Tlv.{tlv, write_tlv-tlv, tlvs, FitsTlv, length-tlvs_below, length-tlv_below}

unfoldable pub be32_bytes : ℕ → Bytes
be32_bytes v = uint8 (v / 2 ^ 24) ∷ uint8 (v / 2 ^ 16) ∷ uint8 (v / 2 ^ 8) ∷ uint8 v ∷ []

unfoldable pub context_tlv : Option ℕ → List (ℕ × Bytes)
context_tlv none = []
context_tlv (some rc) = (tag_routing_ctx, be32_bytes rc) ∷ []

unfoldable pub heartbeat_tlv : Bytes → List (ℕ × Bytes)
heartbeat_tlv [] = []
heartbeat_tlv (b ∷ beat) = (tag_heartbeat_data, b ∷ beat) ∷ []

unfoldable pub protocol_tlv : Option ProtocolData → List (ℕ × Bytes)
protocol_tlv none = []
protocol_tlv (some pd) = (tag_protocol_data, protocol_data_bytes pd) ∷ []

-- The TLVs that the encoder writes.
unfoldable pub tlvs_of : M3uaMessage → List (ℕ × Bytes)
tlvs_of msg =
    context_tlv msg.routing_context
    ++ (heartbeat_tlv msg.heartbeat_data ++ protocol_tlv msg.protocol_data)

abbrev pub FitsContext : Option ℕ → Type 0
FitsContext none = Unit
FitsContext (some rc) = rc < 2 ^ 32

abbrev pub FitsData : Option ProtocolData → Type 0
FitsData none = Unit
FitsData (some pd) = (pd.opc < 2 ^ 32) × (pd.dpc < 2 ^ 32) × (16 + length pd.user_data < 2 ^ 16)

-- The numbers are those of their fields' widths, and each value is short enough for the 16-bit
-- length of its TLV.
pub record Fits (msg : M3uaMessage) : Type 0 where
  pub context : FitsContext msg.routing_context
  pub heartbeat : 4 + length msg.heartbeat_data < 2 ^ 16
  pub protocol : FitsData msg.protocol_data

length-protocol_data_bytes :
    (pd : ProtocolData) → length (protocol_data_bytes pd) ≡ 12 + length pd.user_data
unfolding protocol_data_bytes write_be32 write8 write_bytes
length-protocol_data_bytes pd = omega arith

tlvs-append : (ts us : List (ℕ × Bytes)) → tlvs (ts ++ us) ≡ tlvs ts ++ tlvs us
tlvs-append [] us = refl
tlvs-append ((tag, value) ∷ ts) us =
    ap (λ b. tlv tag value ++ b) (tlvs-append ts us)
    ∙ sym (append_assoc (tlv tag value) (tlvs ts) (tlvs us))

write_one :
    (w : Bytes) (tag : ℕ) (value : Bytes) → write_tlv w tag value ≡ w ++ tlvs ((tag, value) ∷ [])
write_one w tag value =
    write_tlv-tlv w tag value ∙ ap (λ b. w ++ b) (sym (append-nil (tlv tag value)))

write_routing_context-tlvs :
    (w : Bytes) (rc : Option ℕ) → write_routing_context w rc ≡ w ++ tlvs (context_tlv rc)
unfolding write_routing_context write_tlv_u32 context_tlv be32_bytes
write_routing_context-tlvs w none = sym (append-nil w)
write_routing_context-tlvs w (some rc) = write_one w tag_routing_ctx _

write_heartbeat_data-tlvs :
    (w beat : Bytes) → write_heartbeat_data w beat ≡ w ++ tlvs (heartbeat_tlv beat)
unfolding write_heartbeat_data heartbeat_tlv
write_heartbeat_data-tlvs w [] = sym (append-nil w)
write_heartbeat_data-tlvs w (b ∷ beat) = write_one w tag_heartbeat_data (b ∷ beat)

write_protocol_data-tlvs :
    (w : Bytes) (pd : Option ProtocolData) → write_protocol_data w pd ≡ w ++ tlvs (protocol_tlv pd)
unfolding write_protocol_data protocol_tlv
write_protocol_data-tlvs w none = sym (append-nil w)
write_protocol_data-tlvs w (some pd) = write_one w tag_protocol_data (protocol_data_bytes pd)

-- What the encoder writes behind the header.
unfoldable pub body_of : M3uaMessage → Bytes
body_of msg = tlvs (tlvs_of msg)

unfoldable pub header_of : M3uaMessage → Bytes
header_of msg =
    version ∷ 0x00 ∷ msg.msg_class ∷ msg.msg_type ∷ be32_bytes (uint32 (8 + length (body_of msg)))

pub encode-body_of : (msg : M3uaMessage) → encode msg ≡ header_of msg ++ body_of msg
unfolding encode header_of body_of be32_bytes tlvs_of write_be32 write8 write_bytes
encode-body_of msg = rw written refl
  where
    beat : List (ℕ × Bytes)
    beat = heartbeat_tlv msg.heartbeat_data

    last : List (ℕ × Bytes)
    last = protocol_tlv msg.protocol_data

    written :
        write_protocol_data
          (write_heartbeat_data (write_routing_context [] msg.routing_context) msg.heartbeat_data)
          msg.protocol_data
        ≡ tlvs (tlvs_of msg)
    written =
        write_protocol_data-tlvs _ msg.protocol_data
        ∙ ap (λ w. w ++ tlvs last) (write_heartbeat_data-tlvs _ msg.heartbeat_data)
        ∙ ap (λ w. w ++ tlvs beat ++ tlvs last) (write_routing_context-tlvs [] msg.routing_context)
        ∙ append_assoc (tlvs (context_tlv msg.routing_context)) (tlvs beat) (tlvs last)
        ∙ ap (λ b. tlvs (context_tlv msg.routing_context) ++ b) (sym (tlvs-append beat last))
        ∙ sym (tlvs-append (context_tlv msg.routing_context) (beat ++ last))

context_tlv-fits : (rc : Option ℕ) → All FitsTlv (context_tlv rc)
unfolding context_tlv be32_bytes
context_tlv-fits none = tt
context_tlv-fits (some rc) = ((omega arith, omega arith), tt)

heartbeat_tlv-fits : (beat : Bytes) → 4 + length beat < 2 ^ 16 → All FitsTlv (heartbeat_tlv beat)
unfolding heartbeat_tlv
heartbeat_tlv-fits [] h = tt
heartbeat_tlv-fits (b ∷ beat) h = ((omega arith, h), tt)

protocol_tlv-fits : (pd : Option ProtocolData) → FitsData pd → All FitsTlv (protocol_tlv pd)
unfolding protocol_tlv
protocol_tlv-fits none h = tt
protocol_tlv-fits (some pd) h =
    ((omega arith, omega (arith, length-protocol_data_bytes pd, h.2)), tt)

length-context_tlv : (rc : Option ℕ) → length (context_tlv rc) ≤ 1
unfolding context_tlv
length-context_tlv none = omega arith
length-context_tlv (some rc) = omega arith

length-heartbeat_tlv : (beat : Bytes) → length (heartbeat_tlv beat) ≤ 1
unfolding heartbeat_tlv
length-heartbeat_tlv [] = omega arith
length-heartbeat_tlv (b ∷ beat) = omega arith

length-protocol_tlv : (pd : Option ProtocolData) → length (protocol_tlv pd) ≤ 1
unfolding protocol_tlv
length-protocol_tlv none = omega arith
length-protocol_tlv (some pd) = omega arith

length-tlvs_of : (msg : M3uaMessage) → length (tlvs_of msg) ≤ 3
unfolding tlvs_of
length-tlvs_of msg =
    let last = heartbeat_tlv msg.heartbeat_data ++ protocol_tlv msg.protocol_data in
    omega (
      arith,
      length-append (context_tlv msg.routing_context) last,
      length-append (heartbeat_tlv msg.heartbeat_data) (protocol_tlv msg.protocol_data),
      length-context_tlv msg.routing_context,
      length-heartbeat_tlv msg.heartbeat_data,
      length-protocol_tlv msg.protocol_data,
    )

pub FitsTlv-tlvs_of : (msg : M3uaMessage) → Fits msg → All FitsTlv (tlvs_of msg)
unfolding tlvs_of
FitsTlv-tlvs_of msg fits =
    All-append FitsTlv (context_tlv msg.routing_context) _ (context_tlv-fits msg.routing_context) (
      All-append FitsTlv (heartbeat_tlv msg.heartbeat_data) _
        (heartbeat_tlv-fits msg.heartbeat_data fits.heartbeat)
        (protocol_tlv-fits msg.protocol_data fits.protocol))

-- A body has three TLVs at most, of less than 2^16 + 4 bytes each.
pub length-body_of : (msg : M3uaMessage) → Fits msg → 8 + length (body_of msg) < 2 ^ 32
unfolding body_of
length-body_of msg fits =
    omega (arith, length-tlvs_below (tlvs_of msg) (FitsTlv-tlvs_of msg fits), length-tlvs_of msg)

-- A DATA message is little longer than what it carries.
pub length-body_of_data :
    (pd : ProtocolData) (rc : Option ℕ)
    → length (body_of (make_data pd rc)) ≤ 30 + length pd.user_data
unfolding body_of tlvs_of make_data context_tlv heartbeat_tlv protocol_tlv be32_bytes
length-body_of_data pd none = omega (
  arith,
  length-append (tlv tag_protocol_data (protocol_data_bytes pd)) [],
  length-tlv_below tag_protocol_data (protocol_data_bytes pd),
  length-protocol_data_bytes pd,
)
length-body_of_data pd (some rc) =
    let value = uint8 (rc / 2 ^ 24) ∷ uint8 (rc / 2 ^ 16) ∷ uint8 (rc / 2 ^ 8) ∷ uint8 rc ∷ [] in
    let last = tlvs ((tag_protocol_data, protocol_data_bytes pd) ∷ []) in
    omega (
      arith,
      length-append (tlv tag_routing_ctx value) last,
      length-append (tlv tag_protocol_data (protocol_data_bytes pd)) [],
      length-tlv_below tag_routing_ctx value,
      length-tlv_below tag_protocol_data (protocol_data_bytes pd),
      length-protocol_data_bytes pd,
    )
