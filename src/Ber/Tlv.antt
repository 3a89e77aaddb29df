-- ===== src/Ber/Tlv.antt =====
-- TLVs: what is written is read back, and a read always ends and takes two bytes at least.
use gsup_map_proxy.Base.{
  ℕ, zero, suc, ◌+◌, ◌*◌, ◌/◌, ◌%◌, ◌^◌, ◌≤◌, ◌<◌, ◌≡◌, ◌≢◌, [], ◌∷◌, ◌++◌, length, leb,
  if◌then◌else◌, ok, err, stuck, runtime_error, ◌>>=◌, Ensures, holds, throws, arith, append_assoc,
  Result-cases, inl, inr, bind-ne-stuck, bind-eq-ok,
}
use gsup_map_proxy.Buffer.{Bytes, uint8, read8, read_bytes, write8, write_bytes}
use gsup_map_proxy.Buffer.Laws.{
  read_bytes-append, read8-ne-stuck, read_bytes-ne-stuck, length-read_bytes,
}
use gsup_map_proxy.Ber.{
  write_length, read_length_bytes, read_length, write_tlv, read_tlv, wrap_constructed,
}

-- The bytes of a length.
unfoldable pub length_bytes : ℕ → Bytes
length_bytes len =
    if leb len 0x7f
    then len ∷ []
    else if leb len 0xff
    then 0x81 ∷ len ∷ []
    else 0x82 ∷ len / 2 ^ 8 ∷ len % 2 ^ 8 ∷ []

-- The bytes of a TLV.
unfoldable pub tlv : ℕ → Bytes → Bytes
tlv tag value = tag ∷ (length_bytes (length value) ++ value)

write_length-length_bytes :
    (w : Bytes) (len : ℕ) → len ≤ 0xffff → write_length w len ≡ ok (w ++ length_bytes len)
unfolding write_length length_bytes write8
write_length-length_bytes w len h = ground (
  arith,
  append_assoc w (0x81 ∷ []) (uint8 len ∷ []),
  append_assoc w (0x82 ∷ []) (uint8 (len / 2 ^ 8) ∷ []),
  append_assoc w (0x82 ∷ uint8 (len / 2 ^ 8) ∷ []) (uint8 len ∷ []),
)

pub write_tlv-tlv :
    (w : Bytes) (tag : ℕ) (value : Bytes)
    → length value ≤ 0xffff
    → write_tlv w tag value ≡ ok (w ++ tlv tag value)
unfolding write_tlv tlv write8 write_bytes
write_tlv-tlv w tag value h = rw (write_length-length_bytes (w ++ tag ∷ []) (length value) h) (
    rw (
      append_assoc (w ++ tag ∷ []) (length_bytes (length value)) value,
      append_assoc w (tag ∷ []) (length_bytes (length value) ++ value),
    ))

pub wrap_constructed-tlv :
    (w : Bytes) (tag : ℕ) (value : Bytes)
    → length value ≤ 0xffff
    → wrap_constructed w tag value ≡ ok (w ++ tlv tag value)
unfolding wrap_constructed tlv write8 write_bytes
wrap_constructed-tlv w tag value h =
    rw (write_length-length_bytes (w ++ tag ∷ []) (length value) h) (
      rw (
        append_assoc (w ++ tag ∷ []) (length_bytes (length value)) value,
        append_assoc w (tag ∷ []) (length_bytes (length value) ++ value),
      ))

read_length-length_bytes :
    (len : ℕ) (r : Bytes) → len ≤ 0xffff → read_length (length_bytes len ++ r) ≡ ok (len, r)
unfolding read_length length_bytes read8
read_length-length_bytes len r h = ground arith

pub read_tlv-tlv :
    (tag : ℕ) (value r : Bytes)
    → length value ≤ 0xffff
    → read_tlv (tlv tag value ++ r) ≡ ok (tag, value, r)
unfolding read_tlv tlv read8
read_tlv-tlv tag value r h =
    rw (append_assoc (length_bytes (length value)) value r)
      (rw (read_length-length_bytes (length value) (value ++ r) h) (rw (read_bytes-append value r)))

-- `readTlv` returns the tag and the value that `writeTlv` wrote, and leaves whatever follows it, for
-- every value of at most 65535 bytes.
pub read_tlv-write_tlv :
    (tag : ℕ) (value r : Bytes)
    → length value ≤ 0xffff
    → (write_tlv [] tag value >>= λ w. read_tlv (w ++ r)) ≡ ok (tag, value, r)
read_tlv-write_tlv tag value r h = rw (write_tlv-tlv [] tag value h) (read_tlv-tlv tag value r h)

-- `writeTlv` throws on every longer value.
pub write_tlv_too_large :
    (w : Bytes) (tag : ℕ) (value : Bytes)
    → 0xffff < length value
    → write_tlv w tag value ≡ err runtime_error
unfolding write_tlv write_length
write_tlv_too_large w tag value h = ground arith

read_length_bytes-ne-stuck : (n len : ℕ) (r : Bytes) → read_length_bytes n len r ≢ stuck
unfolding read_length_bytes read8
read_length_bytes-ne-stuck zero len r = λ e. cc
read_length_bytes-ne-stuck (suc n) len [] = λ e. cc
read_length_bytes-ne-stuck (suc n) len (b ∷ r) = read_length_bytes-ne-stuck n (len * 2 ^ 8 + b) r

length-read_length_bytes :
    (n len : ℕ) (r : Bytes) (l : ℕ) (r' : Bytes)
    → read_length_bytes n len r ≡ ok (l, r')
    → length r' ≤ length r
unfolding read_length_bytes read8
length-read_length_bytes zero len r l r' e = ground arith
length-read_length_bytes (suc n) len [] l r' e = cc
length-read_length_bytes (suc n) len (b ∷ r) l r' e =
    omega (arith, length-read_length_bytes n (len * 2 ^ 8 + b) r l r' e)

read_length-ne-stuck : (r : Bytes) → read_length r ≢ stuck
unfolding read_length read8
read_length-ne-stuck [] = λ e. cc
read_length-ne-stuck (b ∷ r) = ground (arith, read_length_bytes-ne-stuck (b % 2 ^ 7) 0 r)

length-read_length :
    (r : Bytes) (l : ℕ) (r' : Bytes) → read_length r ≡ ok (l, r') → length r' < length r
unfolding read_length read8
length-read_length [] l r' e = cc
length-read_length (b ∷ r) l r' e = ground (arith, length-read_length_bytes (b % 2 ^ 7) 0 r l r')

-- A `readTlv` that succeeds takes at least the tag and one byte of length.
pub length-read_tlv :
    (r : Bytes) (tag : ℕ) (value r' : Bytes)
    → read_tlv r ≡ ok (tag, value, r')
    → (length r' + 2 ≤ length r) × (length value + 2 ≤ length r)
unfolding read_tlv read8
length-read_tlv [] tag value r' e = cc
length-read_tlv (b ∷ r) tag value r' e =
    let (len₁, e₁, f₁) = bind-eq-ok (read_length r) _ e in
    let (out₂, e₂, f₂) = bind-eq-ok (read_bytes len₁.0 len₁.1) _ f₁ in
    let shorter = length-read_length r len₁.0 len₁.1 e₁ in
    let taken = length-read_bytes len₁.0 len₁.1 out₂.0 out₂.1 e₂ in
    ground (arith, f₂, taken, shorter)

pub read_tlv-ne-stuck : (r : Bytes) → read_tlv r ≢ stuck
unfolding read_tlv
read_tlv-ne-stuck r = bind-ne-stuck (read8 r) _ (read8-ne-stuck r) λ (tag, r₁) _.
    bind-ne-stuck (read_length r₁) _ (read_length-ne-stuck r₁) λ (len, r₂) _.
      bind-ne-stuck (read_bytes len r₂) _ (read_bytes-ne-stuck len r₂) λ (out, r₃) _ p. cc

pub read_tlv-Ensures : (r : Bytes) → Ensures (λ p. length p.2 < length r) (read_tlv r)
read_tlv-Ensures r = elim (Result-cases (read_tlv r)) [
  | inl ((tag, value, r'), e) ↦ rw e (holds (omega (arith, length-read_tlv r tag value r' e)))
  | inr (inl (x, e)) ↦ rw e throws
  | inr (inr e) ↦ absurd (read_tlv-ne-stuck r e)
]
