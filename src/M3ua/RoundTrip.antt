-- ===== src/M3ua/RoundTrip.antt =====
-- Decoding an encoded M3UA message.
use gsup_map_proxy.Base.{
  ℕ, suc, ◌+◌, ◌-◌, ◌*◌, ◌/◌, ◌^◌, ◌<◌, ◌≡◌, refl, sym, ap, ◌∙◌, Option, none, some, List, [], ◌∷◌,
  ◌++◌, length, ok, map_ok, arith, length-append, le→ltb_false, take-append,
}
use gsup_map_proxy.Buffer.{Bytes, uint8, uint32, write8, write_be32, write_bytes, read8, read_be32}
use gsup_map_proxy.Buffer.Laws.{read_rest}
use gsup_map_proxy.M3ua.{M3uaMessage, ProtocolData, version, tag_routing_ctx}
use gsup_map_proxy.M3ua.Encode.{protocol_data_bytes, encode}
use gsup_map_proxy.M3ua.Decode.{decode_protocol_data, apply_tlv, read_tlvs, blank, decode}
use gsup_map_proxy.M3ua.Tlv.{tlvs, apply_all, read_tlvs-tlvs, length-tlvs}
use gsup_map_proxy.M3ua.Body.{
  be32_bytes, context_tlv, heartbeat_tlv, protocol_tlv, tlvs_of, Fits, body_of, header_of,
  encode-body_of, FitsTlv-tlvs_of, length-body_of, FitsContext, FitsData,
}

be32_of_bytes :
    (v : ℕ)
    → v < 2 ^ 32
    → uint8 (v / 2 ^ 24) * 2 ^ 24
        + uint8 (v / 2 ^ 16) * 2 ^ 16
        + uint8 (v / 2 ^ 8) * 2 ^ 8
        + uint8 v
      ≡ v
be32_of_bytes v h = omega arith

size_of_body : (n : ℕ) → 8 + n - 8 ≡ n
size_of_body n = omega arith

decode-protocol_data_bytes :
    (pd : ProtocolData)
    → pd.opc < 2 ^ 32
    → pd.dpc < 2 ^ 32
    → decode_protocol_data (protocol_data_bytes pd) ≡ ok pd
unfolding decode_protocol_data protocol_data_bytes write_be32 write8 write_bytes read_be32 read8
decode-protocol_data_bytes pd ho hd =
    rw (le→ltb_false (length (protocol_data_bytes pd)) 12 (omega arith)) (
      rw (be32_of_bytes pd.opc ho)
        (rw (be32_of_bytes pd.dpc hd) (rw (read_rest pd.user_data) refl)))

apply_tlv-be32_bytes :
    (msg : M3uaMessage) (rc : ℕ)
    → rc < 2 ^ 32
    → apply_tlv msg tag_routing_ctx (be32_bytes rc) ≡ ok (record msg { routing_context = some rc })
unfolding apply_tlv be32_bytes
apply_tlv-be32_bytes msg rc h =
    ap (λ v. ok (record msg { routing_context = some v })) (be32_of_bytes rc h)

module _ (msg_class msg_type : ℕ) where
  with_context : Option ℕ → M3uaMessage
  with_context rc = record (blank msg_class msg_type) { routing_context = rc }

  with_heartbeat : Option ℕ → Bytes → M3uaMessage
  with_heartbeat rc beat = record (blank msg_class msg_type) {
    routing_context = rc;
    heartbeat_data = beat;
  }

  with_data : Option ℕ → Bytes → Option ProtocolData → M3uaMessage
  with_data rc beat pd = record {
    msg_class = msg_class;
    msg_type = msg_type;
    routing_context = rc;
    protocol_data = pd;
    heartbeat_data = beat;
  }

  apply_all-context :
      (rc : Option ℕ) (ts : List (ℕ × Bytes))
      → FitsContext rc
      → apply_all (blank msg_class msg_type) (context_tlv rc ++ ts) ≡ apply_all (with_context rc) ts
  unfolding apply_all context_tlv with_context
  apply_all-context none ts h = refl
  apply_all-context (some rc) ts h = rw (apply_tlv-be32_bytes (blank msg_class msg_type) rc h) refl

  apply_all-heartbeat :
      (rc : Option ℕ) (beat : Bytes) (ts : List (ℕ × Bytes))
      → apply_all (with_context rc) (heartbeat_tlv beat ++ ts)
        ≡ apply_all (with_heartbeat rc beat) ts
  unfolding apply_all apply_tlv heartbeat_tlv with_context with_heartbeat
  apply_all-heartbeat rc [] ts = refl
  apply_all-heartbeat rc (b ∷ beat) ts = refl

  apply_all-protocol :
      (rc : Option ℕ) (beat : Bytes) (pd : Option ProtocolData)
      → FitsData pd
      → apply_all (with_heartbeat rc beat) (protocol_tlv pd) ≡ ok (with_data rc beat pd)
  unfolding apply_all apply_tlv protocol_tlv with_heartbeat with_data
  apply_all-protocol rc beat none h = refl
  apply_all-protocol rc beat (some pd) h = rw (decode-protocol_data_bytes pd h.0 h.1) refl

apply_all-tlvs_of :
    (msg : M3uaMessage)
    → Fits msg
    → apply_all (blank msg.msg_class msg.msg_type) (tlvs_of msg) ≡ ok msg
unfolding tlvs_of with_data
apply_all-tlvs_of msg fits =
    apply_all-context msg.msg_class msg.msg_type msg.routing_context _ fits.context
    ∙ apply_all-heartbeat msg.msg_class msg.msg_type msg.routing_context msg.heartbeat_data _
    ∙ apply_all-protocol msg.msg_class msg.msg_type msg.routing_context msg.heartbeat_data
        msg.protocol_data fits.protocol

-- What the decoder does once the header has come, and the whole body with it.
pub decode-header :
    (msg_class msg_type a b c d : ℕ) (body rest : Bytes)
    → a * 2 ^ 24 + b * 2 ^ 16 + c * 2 ^ 8 + d ≡ 8 + length body
    → decode (version ∷ 0x00 ∷ msg_class ∷ msg_type ∷ a ∷ b ∷ c ∷ d ∷ (body ++ rest))
      ≡ map_ok some (read_tlvs (length body) (blank msg_class msg_type) body)
unfolding decode read8 read_be32
decode-header msg_class msg_type a b c d body rest e =
    rw
      (le→ltb_false (suc (suc (suc (suc (suc (suc (suc (suc (length (body ++ rest)))))))))) 8
        (omega arith))
      (rw e (
        rw (le→ltb_false (8 + length body) 8 (omega arith)) (
          rw
            (le→ltb_false (suc (suc (suc (suc (suc (suc (suc (suc (length (body ++ rest))))))))))
              (8 + length body) (omega (arith, length-append body rest)))
            (rw (size_of_body (length body)) (rw (take-append body rest) refl)))))

written_length :
    (msg : M3uaMessage)
    → Fits msg
    → let n = uint32 (8 + length (body_of msg)) in
      uint8 (n / 2 ^ 24) * 2 ^ 24
        + uint8 (n / 2 ^ 16) * 2 ^ 16
        + uint8 (n / 2 ^ 8) * 2 ^ 8
        + uint8 n
      ≡ 8 + length (body_of msg)
written_length msg fits = omega (arith, length-body_of msg fits)

-- A message whose numbers have the widths of their fields and whose values fit into their TLVs is
-- encoded into bytes that decode to the same message, whatever follows them.
pub decode-encode_message :
    (msg : M3uaMessage) (rest : Bytes) → Fits msg → decode (encode msg ++ rest) ≡ ok (some msg)
unfolding header_of body_of be32_bytes
decode-encode_message msg rest fits =
    ap (λ w. decode (w ++ rest)) (encode-body_of msg)
    ∙ decode-header msg.msg_class msg.msg_type _ _ _ _ (tlvs (tlvs_of msg)) rest
        (written_length msg fits)
    ∙ ap (map_ok some) (
        read_tlvs-tlvs _ (blank msg.msg_class msg.msg_type) (tlvs_of msg)
          (length-tlvs (tlvs_of msg)) (FitsTlv-tlvs_of msg fits)
        ∙ apply_all-tlvs_of msg fits)

pub length-encode : (msg : M3uaMessage) → length (encode msg) ≡ 8 + length (body_of msg)
unfolding header_of be32_bytes
length-encode msg = ap length (encode-body_of msg) ∙ omega arith

-- The parts of an encoded message.
pub record Encoded (msg : M3uaMessage) : Type 0 where
  pub a : ℕ
  pub b : ℕ
  pub c : ℕ
  pub d : ℕ
  pub body : Bytes
  pub form : encode msg ≡ version ∷ 0x00 ∷ msg.msg_class ∷ msg.msg_type ∷ a ∷ b ∷ c ∷ d ∷ body
  pub total : a * 2 ^ 24 + b * 2 ^ 16 + c * 2 ^ 8 + d ≡ length (encode msg)

pub encoded : (msg : M3uaMessage) → Fits msg → Encoded msg
unfolding header_of be32_bytes
encoded msg fits = record {
  a = _;
  b = _;
  c = _;
  d = _;
  body = body_of msg;
  form = encode-body_of msg;
  total = written_length msg fits ∙ sym (length-encode msg);
}
