-- ===== src/Bcd.antt =====
-- Packed BCD digits: the loops that gsup/GsupCodec.cpp, map/MapCodec.cpp and
-- transport/ScccpCodec.cpp share. A text is the list of its character codes.
pub mod RoundTrip
use gsup_map_proxy.Base.{
  ℕ, suc, ◌+◌, ◌-◌, ◌*◌, ◌/◌, ◌%◌, ◌≤◌, List, [], ◌∷◌, ltb, ◌==◌, if◌then◌else◌, bit_or, Result, ok,
  err, runtime_error, map_ok,
}
use gsup_map_proxy.Buffer.{Bytes, uint8}

abbrev pub Text : Type 0
Text = List ℕ

-- `static_cast<uint8_t>(c - '0')`.
abbrev pub digit : ℕ → ℕ
digit c = uint8 (c + 256 - b'0')

-- `static_cast<uint8_t>((hi << 4) | lo)`.
unfoldable pub pack_byte : ℕ → ℕ → ℕ
pack_byte hi lo = uint8 (bit_or (hi * 16) lo)

-- Two digits to a byte, the first in the low nibble; 0xF fills up an odd number.
unfoldable pub pack : Text → Bytes
unfolding pack_byte
pack [] = []
pack (c ∷ []) = pack_byte 0x0f (digit c) ∷ []
pack (c ∷ d ∷ cs) = pack_byte (digit d) (digit c) ∷ pack cs

abbrev pub low_nibble : ℕ → ℕ
low_nibble b = b % 16

abbrev pub high_nibble : ℕ → ℕ
high_nibble b = b / 16 % 16

-- `bcdToImsi`: a nibble above 9 is refused, but for a filler 0xF in the high nibble of any byte.
unfoldable pub unpack : Bytes → Result Text
unpack [] = ok []
unpack (b ∷ bs) =
    let lo = low_nibble b in
    let hi = high_nibble b in
    let rest = unpack bs in
    if ltb 9 lo
    then err runtime_error
    else if hi == 0x0f
    then map_ok (λ cs. (b'0' + lo) ∷ cs) rest
    else if ltb 9 hi
    then err runtime_error
    else map_ok (λ cs. (b'0' + lo) ∷ (b'0' + hi) ∷ cs) rest

-- The loop of `bcdToIsdn`, with no check.
unfoldable pub unpack_unchecked : Bytes → Text
unpack_unchecked [] = []
unpack_unchecked (b ∷ bs) =
    let rest = unpack_unchecked bs in
    if high_nibble b == 0x0f
    then (b'0' + low_nibble b) ∷ rest
    else (b'0' + low_nibble b) ∷ (b'0' + high_nibble b) ∷ rest
