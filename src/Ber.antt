-- ===== src/Ber.antt =====
-- map/BerCodec.cpp: lengths, TLVs and integers of the Basic Encoding Rules. An `int64_t` or a
-- `uint64_t` is its bit pattern, a number below 2 ^ 64.
pub mod Tlv
pub mod Integer
use gsup_map_proxy.Base.{
  ℕ, zero, suc, ◌+◌, ◌-◌, ◌*◌, ◌/◌, ◌%◌, ◌^◌, Bool, true, false, not, ◌&&◌, ◌||◌, List, [], ◌∷◌,
  ◌++◌, length, ltb, leb, ◌==◌, if◌then◌else◌, Result, ok, err, stuck, runtime_error, ◌>>=◌,
}
use gsup_map_proxy.Buffer.{Bytes, uint8, read8, read_bytes, write8, write_bytes}
use mathlib.Core.List.{reverse}

unfoldable pub write_length : Bytes → ℕ → Result Bytes
write_length w len =
    if leb len 0x7f
    then ok (write8 w (uint8 len))
    else if leb len 0xff
    then ok (write8 (write8 w 0x81) (uint8 len))
    else if leb len 0xffff
    then ok (write8 (write8 (write8 w 0x82) (uint8 (len / 2 ^ 8))) (uint8 len))
    else err runtime_error

-- `for (i = 0; i < numBytes; ++i) len = (len << 8) | r.read8();`. At most four rounds run, so the
-- length does not wrap.
unfoldable pub read_length_bytes : ℕ → ℕ → Bytes → Result (ℕ × Bytes)
read_length_bytes zero len r = ok (len, r)
read_length_bytes (suc n) len r = do (b, r) ← read8 r; read_length_bytes n (len * 2 ^ 8 + b) r

unfoldable pub read_length : Bytes → Result (ℕ × Bytes)
unfolding read_length_bytes
read_length r = do
  (first, r) ← read8 r
  let num_bytes = first % 2 ^ 7
  if leb first 0x7f
      then ok (first, r)
      else if first == 0x80
      then err runtime_error
      else if ltb 4 num_bytes
      then err runtime_error
      else read_length_bytes num_bytes 0 r

unfoldable pub write_tlv : Bytes → ℕ → Bytes → Result Bytes
write_tlv w tag value = do w ← write_length (write8 w tag) (length value); ok (write_bytes w value)

unfoldable pub write_tlv_octet : Bytes → ℕ → ℕ → Bytes
write_tlv_octet w tag value = write8 (write8 (write8 w tag) 1) value

-- The tag, the value and what follows the TLV.
unfoldable pub read_tlv : Bytes → Result (ℕ × Bytes × Bytes)
read_tlv r = do
  (tag, r) ← read8 r
  (len, r) ← read_length r
  (out, r) ← read_bytes len r
  ok (tag, out, r)

unfoldable pub wrap_constructed : Bytes → ℕ → Bytes → Result Bytes
wrap_constructed w tag inner = do
  w ← write_length (write8 w tag) (length inner)
  ok (write_bytes w inner)

-- `while (uv > 0) { be.push_back(uv & 0xFF); uv >>= 8; }`: eight rounds empty 64 bits.
unfoldable pub low_bytes : ℕ → ℕ → Bytes
low_bytes zero uv = []
low_bytes (suc rounds) uv =
    let rest = low_bytes rounds (uv / 2 ^ 8) in if ltb 0 uv then uint8 uv ∷ rest else []

-- `tmp >>= 8` on a negative `int64_t`: the sign comes in from the left.
abbrev pub shift_sign : ℕ → ℕ
shift_sign tmp = tmp / 2 ^ 8 + 0xff * 2 ^ 56

abbrev pub minus_one : ℕ
minus_one = 2 ^ 64 - 1

-- `do { be.push_back(tmp & 0xFF); tmp >>= 8; } while (tmp != -1 || (be.back() & 0x80) == 0);`
unfoldable pub sign_bytes : ℕ → ℕ → Bytes
sign_bytes zero tmp = []
sign_bytes (suc rounds) tmp =
    let rest = uint8 tmp ∷ sign_bytes rounds (shift_sign tmp) in
    if not (shift_sign tmp == minus_one) || ltb (uint8 tmp) 0x80 then rest else uint8 tmp ∷ []

abbrev pub is_negative : ℕ → Bool
is_negative value = leb (2 ^ 63) value

-- `if (be[0] & 0x80) be.insert(be.begin(), 0x00);`
abbrev pub pad_sign : Bytes → Bytes
pad_sign [] = []
pad_sign (b ∷ be) = if leb 0x80 b then 0 ∷ b ∷ be else b ∷ be

unfoldable pub encode_int : ℕ → Bytes
unfolding low_bytes sign_bytes
encode_int value =
    if value == 0
    then 0 ∷ []
    else if is_negative value
    then reverse (sign_bytes 9 value)
    else pad_sign (reverse (low_bytes 8 value))

unfoldable pub write_tlv_int : Bytes → ℕ → ℕ → Result Bytes
write_tlv_int w tag value = write_tlv w tag (encode_int value)

-- `for (b : value) result = (result << 8) | b;` in 64 bits.
unfoldable pub accumulate : ℕ → Bytes → ℕ
accumulate result [] = result
accumulate result (b ∷ value) = accumulate ((result * 2 ^ 8 + b) % 2 ^ 64) value

-- `result |= -(1 << bits)`: below 64 bits the two share no bit.
unfoldable pub sign_extend : ℕ → ℕ → ℕ
sign_extend size result = if ltb (size * 8) 64 then result + (2 ^ 64 - 2 ^ (size * 8)) else result

unfoldable pub decode_int : Bytes → Result ℕ
unfolding accumulate sign_extend
decode_int [] = err runtime_error
decode_int (b ∷ value) =
    let result = accumulate 0 (b ∷ value) in
    ok (if leb 0x80 b then sign_extend (length (b ∷ value)) result else result)
