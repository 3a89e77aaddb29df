-- ===== src/Map/Invoke.antt =====
-- Invokes on the wire: what the decoder makes of the encoder's bytes.
use gsup_map_proxy.Base.{
  ℕ, ◌+◌, ◌^◌, ◌≤◌, ◌<◌, ◌≡◌, refl, ◌∙◌, [], ◌++◌, length, ok, ◌>>=◌, arith, append_assoc,
  append-nil, length-append,
}
use gsup_map_proxy.Buffer.{Bytes, write_bytes}
use gsup_map_proxy.Ber.{write_tlv_int, encode_int}
use gsup_map_proxy.Ber.Tlv.{tlv, write_tlv-tlv, wrap_constructed-tlv, read_tlv-tlv}
use gsup_map_proxy.Ber.Integer.{length-encode_int}
use gsup_map_proxy.Map.{MapMessage, new_message, invoke}
use gsup_map_proxy.Map.Tag
use gsup_map_proxy.Map.Encode.{encode_args, encode_invoke, encode_component, tid_bytes, encode}
use gsup_map_proxy.Map.Decode.{decode_invoke, decode_invoke_args, component_tlv, tcap_tlv, decode}
use gsup_map_proxy.Map.Envelope.{
  each_tlv_step, each_tlv_one, decode_tid-tid_bytes, decode_uint8-encode_int, length-tlv,
}
use gsup_map_proxy.Map.Total.{component_tlv-Handles, tcap_tlv-Handles}

-- The invoke ID and the operation, before the arguments.
invoke_body : ℕ → ℕ → Bytes → Bytes
invoke_body id op args =
    tlv Tag.ber_int (encode_int id) ++ (tlv Tag.ber_int (encode_int op) ++ args)

length-invoke_body : (id op : ℕ) (args : Bytes) → length (invoke_body id op args) ≤ length args + 26
unfolding invoke_body
length-invoke_body id op args = omega (
  arith,
  length-append (tlv Tag.ber_int (encode_int id)) (tlv Tag.ber_int (encode_int op) ++ args),
  length-append (tlv Tag.ber_int (encode_int op)) args,
  length-tlv Tag.ber_int (encode_int id),
  length-tlv Tag.ber_int (encode_int op),
  length-encode_int id,
  length-encode_int op,
)

decode_invoke-invoke_body :
    (id op : ℕ) (args : Bytes) (m : MapMessage)
    → id < 2 ^ 8
    → op < 2 ^ 8
    → decode_invoke (invoke_body id op args) m
      ≡ decode_invoke_args args (record m { component = invoke; invoke_id = id; operation = op })
unfolding decode_invoke invoke_body
decode_invoke-invoke_body id op args m hi ho =
    rw
      (read_tlv-tlv Tag.ber_int (encode_int id) (tlv Tag.ber_int (encode_int op) ++ args)
        (omega (arith, length-encode_int id)))
      (rw (decode_uint8-encode_int id hi) (
        rw (read_tlv-tlv Tag.ber_int (encode_int op) args (omega (arith, length-encode_int op)))
          (rw (decode_uint8-encode_int op ho) refl)))

-- The component and the two parts of the PDU.
invoke_component : ℕ → ℕ → Bytes → Bytes
invoke_component id op args = tlv Tag.invoke (invoke_body id op args)

invoke_parts : ℕ → ℕ → ℕ → Bytes → Bytes
invoke_parts tid id op args =
    tlv Tag.tcap_otid (tid_bytes tid) ++ tlv Tag.tcap_components (invoke_component id op args)

length-invoke_component :
    (id op : ℕ) (args : Bytes) → length (invoke_component id op args) ≤ length args + 30
unfolding invoke_component
length-invoke_component id op args =
    omega (arith, length-tlv Tag.invoke (invoke_body id op args), length-invoke_body id op args)

length-invoke_parts :
    (tid id op : ℕ) (args : Bytes) → length (invoke_parts tid id op args) ≤ length args + 42
unfolding invoke_parts tid_bytes
length-invoke_parts tid id op args = omega (
  arith,
  length-append (tlv Tag.tcap_otid (tid_bytes tid))
      (tlv Tag.tcap_components (invoke_component id op args)),
  length-tlv Tag.tcap_otid (tid_bytes tid),
  length-tlv Tag.tcap_components (invoke_component id op args),
  length-invoke_component id op args,
)

-- Arguments that leave room for the layers around them.
abbrev pub AreShort : Bytes → Type 0
AreShort args = length args ≤ 60000

encode_invoke-tlv :
    (m : MapMessage) (args : Bytes)
    → AreShort args
    → encode_invoke m args ≡ ok (invoke_component m.invoke_id m.operation args)
unfolding encode_invoke write_tlv_int invoke_component invoke_body write_bytes
encode_invoke-tlv m args short =
    rw
      (write_tlv-tlv [] Tag.ber_int (encode_int m.invoke_id)
        (omega (arith, length-encode_int m.invoke_id)))
      (rw
        (write_tlv-tlv (tlv Tag.ber_int (encode_int m.invoke_id)) Tag.ber_int
          (encode_int m.operation) (omega (arith, length-encode_int m.operation)))
        (rw
          (append_assoc (tlv Tag.ber_int (encode_int m.invoke_id))
            (tlv Tag.ber_int (encode_int m.operation)) args)
          (wrap_constructed-tlv [] Tag.invoke _ (
            unfold invoke_body in omega (arith, length-invoke_body m.invoke_id m.operation args)))))

encode-invoke_parts :
    (m : MapMessage) (args : Bytes)
    → m.component ≡ invoke
    → encode_args m ≡ ok args
    → AreShort args
    → encode m
      ≡ ok (tlv Tag.tcap_begin (invoke_parts m.transaction_id m.invoke_id m.operation args))
unfolding encode encode_component invoke_parts write_bytes
encode-invoke_parts m args component e short = rw e (
    rw component (
      rw (encode_invoke-tlv (record m { component = invoke }) args short) (
        rw
          (wrap_constructed-tlv [] Tag.tcap_components
            (invoke_component m.invoke_id m.operation args)
            (omega (arith, length-invoke_component m.invoke_id m.operation args)))
          (rw
            (write_tlv-tlv [] Tag.tcap_otid (tid_bytes m.transaction_id)
              (unfold tid_bytes in omega arith))
            (wrap_constructed-tlv [] Tag.tcap_begin _ (
              unfold invoke_parts in
              omega (arith, length-invoke_parts m.transaction_id m.invoke_id m.operation args)))))))

decode-invoke_parts :
    (tid id op : ℕ) (args : Bytes) (m : MapMessage)
    → tid < 2 ^ 32
    → id < 2 ^ 8
    → op < 2 ^ 8
    → AreShort args
    → decode_invoke_args args (record new_message {
      transaction_id = tid;
      component = invoke;
      invoke_id = id;
      operation = op;
    })
      ≡ ok m
    → decode (tlv Tag.tcap_begin (invoke_parts tid id op args)) ≡ ok m
unfolding decode invoke_parts
decode-invoke_parts tid id op args m ht hi ho short e =
    rw (← append-nil (tlv Tag.tcap_begin (invoke_parts tid id op args))) (
      rw
        (read_tlv-tlv Tag.tcap_begin (invoke_parts tid id op args) []
          (omega (arith, length-invoke_parts tid id op args)))
        (each_tlv_step tcap_tlv tcap_tlv-Handles new_message
            (record new_message { transaction_id = tid }) Tag.tcap_otid (tid_bytes tid) _
            (unfold tid_bytes in omega arith)
            (unfold tcap_tlv in rw (decode_tid-tid_bytes tid ht) refl)
          ∙ each_tlv_one tcap_tlv tcap_tlv-Handles _ m Tag.tcap_components
              (invoke_component id op args) (omega (arith, length-invoke_component id op args))
              (unfold tcap_tlv invoke_component in
                each_tlv_one component_tlv component_tlv-Handles _ _ Tag.invoke
                  (invoke_body id op args) (omega (arith, length-invoke_body id op args))
                  (unfold component_tlv in decode_invoke-invoke_body id op args _ hi ho ∙ e))))

-- An Invoke whose arguments are read back as they are written comes back as it was.
pub decode-encode-invoke :
    (m : MapMessage) (args : Bytes)
    → m.component ≡ invoke
    → m.transaction_id < 2 ^ 32
    → m.invoke_id < 2 ^ 8
    → m.operation < 2 ^ 8
    → encode_args m ≡ ok args
    → AreShort args
    → decode_invoke_args args (record new_message {
      transaction_id = m.transaction_id;
      component = invoke;
      invoke_id = m.invoke_id;
      operation = m.operation;
    })
      ≡ ok m
    → (encode m >>= decode) ≡ ok m
decode-encode-invoke m args component ht hi ho encoded short decoded =
    rw (encode-invoke_parts m args component encoded short)
      (decode-invoke_parts m.transaction_id m.invoke_id m.operation args m ht hi ho short decoded)
