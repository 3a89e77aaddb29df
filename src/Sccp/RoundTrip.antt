-- ===== src/Sccp/RoundTrip.antt =====
-- Decoding an encoded SCCP Unitdata message.
use gsup_map_proxy.Base.{
  ℕ, suc, ◌+◌, ◌%◌, ◌≤◌, ◌<◌, ◌≡◌, refl, sym, ap, ◌∙◌, [], ◌∷◌, ◌++◌, length, take, drop, get_or,
  ok, arith, le→ltb_false, lt→leb_false, lt→ltb, length-append, append_assoc, take-append,
  append-nil,
}
use gsup_map_proxy.Buffer.{Bytes, uint8, write8, write_bytes}
use gsup_map_proxy.Sccp.{SccpAddress, SccpUdt}
use gsup_map_proxy.Sccp.Encode.{encode_address, encode_udt}
use gsup_map_proxy.Sccp.Decode.{
  decode_address, value, undefined, of_result, read_party, read_pdu, decode_udt,
}
use gsup_map_proxy.Sccp.Address.{IsGtAddress, decode_address-encode_address, length-encode_address}

get_or-append : (pre : Bytes) (x : ℕ) (r : Bytes) → get_or (pre ++ x ∷ r) (length pre) 0 ≡ x
get_or-append [] x r = refl
get_or-append (y ∷ pre) x r = get_or-append pre x r

drop-append_one : (pre : Bytes) (x : ℕ) (r : Bytes) → drop (length pre + 1) (pre ++ x ∷ r) ≡ r
drop-append_one pre x r =
    ap (λ k. drop k (pre ++ x ∷ r)) {x = length pre + 1} {y = suc (length pre)} (omega arith)
    ∙ behind pre
  where
    behind : (pre : Bytes) → drop (suc (length pre)) (pre ++ x ∷ r) ≡ r
    behind [] = refl
    behind (y ∷ pre) = behind pre

-- The address behind a length byte that is right.
read_party-append :
    (pre v post : Bytes) (pos : ℕ)
    → length pre ≡ pos
    → length v < 256
    → read_party (pre ++ uint8 (length v) ∷ (v ++ post)) pos ≡ of_result (decode_address v)
unfolding read_party
read_party-append pre v post pos e h = rw (← e) (
    rw (small) (
      rw (get_or-append pre (length v) (v ++ post)) (
        rw
          (lt→leb_false (length (pre ++ length v ∷ (v ++ post))) (length pre)
            (omega (arith, total)))
          (rw
            (le→ltb_false (length (pre ++ length v ∷ (v ++ post))) (length pre + 1 + length v)
              (omega (arith, total)))
            (rw (drop-append_one pre (length v) (v ++ post)) (rw (take-append v post) refl))))))
  where
    small : uint8 (length v) ≡ length v
    small = omega arith

    total : length (pre ++ length v ∷ (v ++ post)) ≡ length pre + 1 + length v + length post
    total = omega (arith, length-append pre (length v ∷ (v ++ post)), length-append v post)

-- The data behind a length byte that may have wrapped around.
read_pdu-append :
    (pre v : Bytes) (pos : ℕ)
    → length pre ≡ pos
    → read_pdu (pre ++ uint8 (length v) ∷ v) pos ≡ value (take (uint8 (length v)) v)
unfolding read_pdu
read_pdu-append pre v pos e = rw (← e) (
    rw (get_or-append pre (uint8 (length v)) v) (
      rw (lt→leb_false (length (pre ++ uint8 (length v) ∷ v)) (length pre) (omega (arith, total))) (
        rw
          (le→ltb_false (length (pre ++ uint8 (length v) ∷ v)) (length pre + 1 + uint8 (length v))
            (omega (arith, total)))
          (rw (drop-append_one pre (uint8 (length v)) v) refl))))
  where
    total : length (pre ++ uint8 (length v) ∷ v) ≡ length pre + 1 + length v
    total = omega (arith, length-append pre (uint8 (length v) ∷ v))

-- A Unitdata message with the addresses' bytes `c` and `k` and the data `p`.
abbrev message : ℕ → (c k p : Bytes) → Bytes
message cls c k p =
    0x09
    ∷ cls
    ∷ 3
    ∷ uint8 (3 + length c)
    ∷ uint8 (3 + length c + length k)
    ∷ uint8 (length c)
    ∷ (c ++ uint8 (length k) ∷ (k ++ uint8 (length p) ∷ p))

encode_udt-message :
    (u : SccpUdt)
    → encode_udt u
      ≡ message u.protocol_class
          (encode_address u.called_party)
          (encode_address u.calling_party)
          u.pdu
unfolding encode_udt write8 write_bytes
encode_udt-message u = simp append_assoc

decode_udt-message :
    (cls : ℕ) (c k p : Bytes) (called calling : SccpAddress)
    → length c + length k ≤ 252
    → decode_address c ≡ ok called
    → decode_address k ≡ ok calling
    → decode_udt (message cls c k p)
      ≡ value (record {
        protocol_class = cls;
        called_party = called;
        calling_party = calling;
        pdu = take (uint8 (length p)) p;
      })
unfolding decode_udt
decode_udt-message cls c k p called calling room hc hk =
    let header : Bytes =
      0x09 ∷ cls ∷ 3 ∷ uint8 (3 + length c) ∷ uint8 (3 + length c + length k) ∷ [] in
    let to_calling : Bytes = header ++ uint8 (length c) ∷ c in
    rw
      (read_party-append header c (uint8 (length k) ∷ (k ++ uint8 (length p) ∷ p)) 5 refl
        (omega arith))
      (rw hc (
        rw
          (read_party-append to_calling k (uint8 (length p) ∷ p) (3 + uint8 (3 + length c))
            (omega arith) (omega arith))
          (rw hk (
            rw (← append_assoc c (uint8 (length k) ∷ k) (uint8 (length p) ∷ p)) (
              rw
                (read_pdu-append (to_calling ++ uint8 (length k) ∷ k) p
                  (4 + uint8 (3 + length c + length k)) ends_at)
                refl)))))
  where
    ends_at :
        length (
          (0x09
            ∷ cls
            ∷ 3
            ∷ uint8 (3 + length c)
            ∷ uint8 (3 + length c + length k)
            ∷ uint8 (length c)
            ∷ c)
          ++ uint8 (length k) ∷ k)
        ≡ 4 + uint8 (3 + length c + length k)
    ends_at = omega (arith, length-append c (uint8 (length k) ∷ k))

-- A message between Global Titles with short digits.
pub record IsGtUdt (u : SccpUdt) : Type 0 where
  pub called : IsGtAddress u.called_party
  pub calling : IsGtAddress u.calling_party
  pub short : length u.called_party.digits + length u.calling_party.digits ≤ 480

length-addresses :
    (u : SccpUdt)
    → IsGtUdt u
    → length (encode_address u.called_party) + length (encode_address u.calling_party) ≤ 252
length-addresses u h = omega (
  arith,
  h.short,
  length-encode_address u.called_party h.called.by_gt,
  length-encode_address u.calling_party h.calling.by_gt,
)

pub length-encode_udt : (u : SccpUdt) → IsGtUdt u → length (encode_udt u) ≤ 260 + length u.pdu
length-encode_udt u h =
    let c = encode_address u.called_party in
    let k = encode_address u.calling_party in
    omega (
      arith,
      ap length (encode_udt-message u),
      length-append c (uint8 (length k) ∷ (k ++ uint8 (length u.pdu) ∷ u.pdu)),
      length-append k (uint8 (length u.pdu) ∷ u.pdu),
      length-addresses u h,
    )

-- A message between Global Titles with at most 480 digits in all comes back with both addresses and
-- its protocol class, but its data is cut to the remainder of their length by 256.
pub decode_udt-encode_udt_wraps :
    (u : SccpUdt)
    → IsGtUdt u
    → decode_udt (encode_udt u) ≡ value (record u { pdu = take (length u.pdu % 256) u.pdu })
decode_udt-encode_udt_wraps u h =
    ap decode_udt (encode_udt-message u)
    ∙ decode_udt-message u.protocol_class _ _ u.pdu u.called_party u.calling_party
        (length-addresses u h) (decode_address-encode_address u.called_party h.called)
        (decode_address-encode_address u.calling_party h.calling)

take_all : (xs : Bytes) → take (length xs) xs ≡ xs
take_all xs = ap (take (length xs)) (sym (append-nil xs)) ∙ take-append xs []

-- A message between Global Titles with at most 480 digits in all and with at most 255 bytes of data
-- comes back from its encoding, field by field.
pub decode_udt-encode_udt :
    (u : SccpUdt) → IsGtUdt u → length u.pdu < 256 → decode_udt (encode_udt u) ≡ value u
decode_udt-encode_udt u h small =
    decode_udt-encode_udt_wraps u h
    ∙ ap (λ p. value (record u { pdu = p })) (ap (λ n. take n u.pdu) fits ∙ take_all u.pdu)
  where
    fits : length u.pdu % 256 ≡ length u.pdu
    fits = omega arith

-- When a message between Global Titles loses its end inside the called address, from the first byte
-- after that address's length byte on, decoding what is left reads past its end.
pub decode_udt-truncated :
    (u : SccpUdt) (p q : Bytes)
    → IsGtUdt u
    → p ++ q ≡ encode_udt u
    → 6 ≤ length p
    → length p < 6 + length (encode_address u.called_party)
    → decode_udt p ≡ undefined
unfolding decode_udt read_party
decode_udt-truncated u [] q h e low high = absurd (omega arith)
decode_udt-truncated u (m ∷ []) q h e low high = absurd (omega arith)
decode_udt-truncated u (m ∷ cls ∷ []) q h e low high = absurd (omega arith)
decode_udt-truncated u (m ∷ cls ∷ p1 ∷ []) q h e low high = absurd (omega arith)
decode_udt-truncated u (m ∷ cls ∷ p1 ∷ p2 ∷ []) q h e low high = absurd (omega arith)
decode_udt-truncated u (m ∷ cls ∷ p1 ∷ p2 ∷ p3 ∷ []) q h e low high = absurd (omega arith)
decode_udt-truncated u (m ∷ cls ∷ p1 ∷ p2 ∷ p3 ∷ l ∷ r) q h e low high =
    let same = e ∙ encode_udt-message u in
    let hm : m ≡ 0x09 = cc same in
    let h1 : p1 ≡ 3 = cc same in
    let hl : l ≡ uint8 (length (encode_address u.called_party)) = cc same in
    let size = length (m ∷ cls ∷ p1 ∷ p2 ∷ p3 ∷ l ∷ r) in
    rw (hm, h1)
      (rw (lt→leb_false size 5 (omega arith))
        (rw (lt→ltb size (6 + l) (omega (arith, length-addresses u h))) refl))
