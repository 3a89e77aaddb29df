-- ===== src/Gsup/Elements.antt =====
-- One information element of GSUP, written and read.
use gsup_map_proxy.Base.{
  ℕ, ◌-◌, ◌≤◌, ◌≡◌, ◌∙◌, Bool, true, false, [], ◌∷◌, ◌++◌, length, Option, none, some, ok, arith,
  append_assoc, append-nil, length-append,
}
use gsup_map_proxy.Buffer.{Bytes, uint8, read8, write8, write_bytes, reserve_len8, patch8}
use gsup_map_proxy.Buffer.Laws.{read_bytes-append, patch8-reserve_len8}
use gsup_map_proxy.Gsup.Decode.{read_sub_ie}
use gsup_map_proxy.Gsup.Encode.{write_tlv, write_optional, write_tlv1, write_optional1, write_flag}

-- The bytes of an element.
abbrev pub ie : ℕ → Bytes → Bytes
ie tag val = tag ∷ length val ∷ val

abbrev pub optional_ie : ℕ → Option Bytes → Bytes
optional_ie tag none = []
optional_ie tag (some val) = ie tag val

-- Its length fits the length byte.
abbrev pub Fits : Bytes → Type 0
Fits val = length val ≤ 255

abbrev pub OptionalFits : Option Bytes → Type 0
OptionalFits none = Unit
OptionalFits (some val) = Fits val

pub write_tlv-ie :
    (w : Bytes) (tag : ℕ) (val : Bytes) → Fits val → write_tlv w tag val ≡ ok (w ++ ie tag val)
unfolding write_tlv write8 write_bytes
write_tlv-ie w tag val h =
    ground (
      arith,
      append_assoc w (tag ∷ []) (length val ∷ []),
      append_assoc w (tag ∷ length val ∷ []) val,
    )

pub write_optional-ie :
    (w : Bytes) (tag : ℕ) (o : Option Bytes)
    → OptionalFits o
    → write_optional w tag o ≡ ok (w ++ optional_ie tag o)
unfolding write_optional
write_optional-ie w tag none h = rw (append-nil w)
write_optional-ie w tag (some val) h = write_tlv-ie w tag val h

pub read_sub_ie-ie :
    (tag : ℕ) (val rest : Bytes) → read_sub_ie (ie tag val ++ rest) ≡ ok (tag, val, rest)
unfolding read_sub_ie read8
read_sub_ie-ie tag val rest = rw (read_bytes-append val rest)

-- A constructed element: its tag, a reserved length slot, the fields, and the slot filled.
pub patch8-ie :
    (w : Bytes) (tag : ℕ) (inner : Bytes)
    → Fits inner
    → (let (len_off, slot) = reserve_len8 (write8 w tag) in
        patch8 (slot ++ inner) len_off (uint8 (length (slot ++ inner) - length slot)))
      ≡ w ++ ie tag inner
unfolding write8
patch8-ie w tag inner h =
    let slot = (reserve_len8 (w ++ tag ∷ [])).1 in
    let filled : uint8 (length (slot ++ inner) - length slot) ≡ length inner =
      rw (length-append slot inner) (omega arith) in
    rw filled (
      patch8-reserve_len8 (w ++ tag ∷ []) inner (length inner)
      ∙ append_assoc w (tag ∷ []) (length inner ∷ inner))

pub write_tlv1-ie : (w : Bytes) (tag val : ℕ) → write_tlv1 w tag val ≡ w ++ ie tag (val ∷ [])
unfolding write_tlv1 write8
write_tlv1-ie w tag val =
    rw (append_assoc w (tag ∷ []) (1 ∷ [])) (append_assoc w (tag ∷ 1 ∷ []) (val ∷ []))

abbrev pub optional_byte : Option ℕ → Option Bytes
optional_byte none = none
optional_byte (some v) = some (v ∷ [])

pub write_optional1-ie :
    (w : Bytes) (tag : ℕ) (o : Option ℕ)
    → write_optional1 w tag o ≡ w ++ optional_ie tag (optional_byte o)
unfolding write_optional1
write_optional1-ie w tag none = rw (append-nil w)
write_optional1-ie w tag (some v) = write_tlv1-ie w tag v

abbrev pub flag_ie : ℕ → Bool → Bytes
flag_ie tag true = ie tag []
flag_ie tag false = []

pub write_flag-ie : (w : Bytes) (tag : ℕ) (b : Bool) → write_flag w tag b ≡ w ++ flag_ie tag b
unfolding write_flag write8
write_flag-ie w tag true = append_assoc w (tag ∷ []) (0 ∷ [])
write_flag-ie w tag false = rw (append-nil w)
