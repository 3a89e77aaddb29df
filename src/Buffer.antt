-- ===== src/Buffer.antt =====
-- common/Buffer.hpp. A `BufferReader` is the list of its unread bytes, a `BufferWriter` the list of
-- the bytes written so far; each call takes it and returns it. `Cursor` models the reader as it
-- is laid out, by bytes and a position, and shows that the two agree.
pub mod Cursor
pub mod Loop
pub mod Laws
use gsup_map_proxy.Base.{
  ℕ, zero, suc, ◌+◌, ◌*◌, ◌/◌, ◌%◌, ◌^◌, ◌≤◌, ◌<◌, Bool, true, false, List, [], ◌∷◌, ◌++◌, length,
  take, drop, set, All, leb, if◌then◌else◌, Error, Result, ok, err, stuck, out_of_range,
}

abbrev pub Bytes : Type 0
Bytes = List ℕ

abbrev pub IsByte : ℕ → Type 0
IsByte b = b < 256

-- The `uint8_t` that a wider value is cast to.
abbrev pub uint8 : ℕ → ℕ
uint8 v = v % 256

abbrev pub uint16 : ℕ → ℕ
uint16 v = v % 2 ^ 16

abbrev pub uint32 : ℕ → ℕ
uint32 v = v % 2 ^ 32

abbrev pub empty : Bytes → Bool
empty [] = true
empty (b ∷ r) = false

abbrev pub remaining : Bytes → ℕ
remaining r = length r

unfoldable pub peek : Bytes → Result ℕ
peek [] = err out_of_range
peek (b ∷ r) = ok b

unfoldable pub read8 : Bytes → Result (ℕ × Bytes)
read8 [] = err out_of_range
read8 (b ∷ r) = ok (b, r)

-- `(data_[pos_] << 8) | data_[pos_ + 1]`: the two bytes share no bit.
unfoldable pub read_be16 : Bytes → Result (ℕ × Bytes)
read_be16 (a ∷ b ∷ r) = ok (a * 2 ^ 8 + b, r)
read_be16 _ = err out_of_range

unfoldable pub read_be32 : Bytes → Result (ℕ × Bytes)
read_be32 (a ∷ b ∷ c ∷ d ∷ r) = ok (a * 2 ^ 24 + b * 2 ^ 16 + c * 2 ^ 8 + d, r)
read_be32 _ = err out_of_range

unfoldable pub read_bytes : ℕ → Bytes → Result (Bytes × Bytes)
read_bytes n r = if leb n (length r) then ok (take n r, drop n r) else err out_of_range

-- A reader over the next `n` bytes.
unfoldable pub slice : ℕ → Bytes → Result (Bytes × Bytes)
unfolding read_bytes
slice n r = read_bytes n r

unfoldable pub write8 : Bytes → ℕ → Bytes
write8 w v = w ++ v ∷ []

unfoldable pub write_be16 : Bytes → ℕ → Bytes
write_be16 w v = (w ++ uint8 (v / 2 ^ 8) ∷ []) ++ uint8 v ∷ []

unfoldable pub write_be32 : Bytes → ℕ → Bytes
write_be32 w v =
    (((w ++ uint8 (v / 2 ^ 24) ∷ []) ++ uint8 (v / 2 ^ 16) ∷ []) ++ uint8 (v / 2 ^ 8) ∷ [])
    ++ uint8 v ∷ []

unfoldable pub write_bytes : Bytes → Bytes → Bytes
write_bytes w b = w ++ b

-- The slot's offset, and the writer with a zero byte in the slot.
unfoldable pub reserve_len8 : Bytes → ℕ × Bytes
reserve_len8 w = (length w, w ++ 0 ∷ [])

unfoldable pub patch8 : Bytes → ℕ → ℕ → Bytes
patch8 w offset v = set w offset v
