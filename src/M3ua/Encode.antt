-- ===== src/M3ua/Encode.antt =====
-- The encoder of transport/M3uaCodec.cpp.
use gsup_map_proxy.Base.{
  ℕ, ◌+◌, ◌-◌, ◌/◌, ◌%◌, ◌^◌, Option, none, some, [], ◌∷◌, length, replicate, if◌then◌else◌,
}
use gsup_map_proxy.Buffer.{
  Bytes, empty, uint8, uint16, uint32, write8, write_be16, write_be32, write_bytes,
}
use gsup_map_proxy.M3ua.{
  M3uaMessage, ProtocolData, version, tag_routing_ctx, tag_heartbeat_data, tag_protocol_data,
  common_header_size,
}

-- The number of bytes up to the next multiple of four.
abbrev pub padding : ℕ → ℕ
padding n = (4 - n % 4) % 4

unfoldable pub write_tlv : Bytes → ℕ → Bytes → Bytes
write_tlv w tag value =
    let len = uint16 (4 + length value) in
    let w' = write_bytes (write_be16 (write_be16 w tag) len) value in
    write_bytes w' (replicate (padding (length value)) 0)

unfoldable pub write_tlv_u32 : Bytes → ℕ → ℕ → Bytes
write_tlv_u32 w tag v =
    write_tlv w tag (uint8 (v / 2 ^ 24) ∷ uint8 (v / 2 ^ 16) ∷ uint8 (v / 2 ^ 8) ∷ uint8 v ∷ [])

unfoldable pub write_routing_context : Bytes → Option ℕ → Bytes
write_routing_context w none = w
write_routing_context w (some rc) = write_tlv_u32 w tag_routing_ctx rc

unfoldable pub write_heartbeat_data : Bytes → Bytes → Bytes
write_heartbeat_data w beat = if empty beat then w else write_tlv w tag_heartbeat_data beat

unfoldable pub protocol_data_bytes : ProtocolData → Bytes
protocol_data_bytes pd =
    let points = write_be32 (write_be32 [] pd.opc) pd.dpc in
    write_bytes (write8 (write8 (write8 (write8 points pd.si) pd.ni) pd.mp) pd.sls) pd.user_data

unfoldable pub write_protocol_data : Bytes → Option ProtocolData → Bytes
write_protocol_data w none = w
write_protocol_data w (some pd) = write_tlv w tag_protocol_data (protocol_data_bytes pd)

unfoldable pub encode : M3uaMessage → Bytes
encode msg =
    let w =
      write_heartbeat_data (write_routing_context [] msg.routing_context) msg.heartbeat_data in
    let body = write_protocol_data w msg.protocol_data in
    let total_len = uint32 (common_header_size + length body) in
    let header = write8 (write8 (write8 (write8 [] version) 0x00) msg.msg_class) msg.msg_type in
    write_bytes (write_be32 header total_len) body
