-- ===== src/Buffer/Cursor.antt =====
-- `BufferReader` of common/Buffer.hpp as it is laid out: the bytes, their number and a position.
use gsup_map_proxy.Base.{
  ℕ, zero, suc, ◌+◌, ◌-◌, ◌*◌, ◌^◌, ◌≤◌, ◌<◌, ◌≡◌, refl, ap, ◌∙◌, Bool, [], ◌∷◌, length, take, drop,
  get_or, ltb, leb, if◌then◌else◌, Result, ok, err, stuck, out_of_range, map_ok, ◌>>=◌, arith,
  length-drop, drop-drop,
}
use gsup_map_proxy.Buffer.{Bytes}
use gsup_map_proxy.Buffer

pub record BufferReader : Type 0 where
  pub bytes : Bytes
  pub pos : ℕ

len : BufferReader → ℕ
len r = length r.bytes

-- `BufferReader(buf)`.
pub of_bytes : Bytes → BufferReader
of_bytes b = record { bytes = b; pos = 0 }

pub is_empty : BufferReader → Bool
unfolding len
is_empty r = leb (len r) r.pos

pub remaining : BufferReader → ℕ
unfolding len
remaining r = if ltb r.pos (len r) then len r - r.pos else 0

check : BufferReader → ℕ → Result (Unit {0})
unfolding len
check r n = if ltb (len r) (r.pos + n) then err out_of_range else ok tt

-- `pos()`.
pub position : BufferReader → ℕ
position r = r.pos

pub peek : BufferReader → Result ℕ
unfolding check
peek r = do _ ← check r 1; ok (get_or r.bytes r.pos 0)

pub read8 : BufferReader → Result (ℕ × BufferReader)
unfolding check
read8 r = do _ ← check r 1; ok (get_or r.bytes r.pos 0, record r { pos = r.pos + 1 })

pub read_be16 : BufferReader → Result (ℕ × BufferReader)
unfolding check
read_be16 r = do
  _ ← check r 2
  let v = get_or r.bytes r.pos 0 * 2 ^ 8 + get_or r.bytes (r.pos + 1) 0
  ok (v, record r { pos = r.pos + 2 })

pub read_be32 : BufferReader → Result (ℕ × BufferReader)
unfolding check
read_be32 r = do
  _ ← check r 4
  let a = get_or r.bytes r.pos 0 * 2 ^ 24
  let b = get_or r.bytes (r.pos + 1) 0 * 2 ^ 16
  let c = get_or r.bytes (r.pos + 2) 0 * 2 ^ 8
  ok (a + b + c + get_or r.bytes (r.pos + 3) 0, record r { pos = r.pos + 4 })

pub read_bytes : BufferReader → ℕ → Result (Bytes × BufferReader)
unfolding check
read_bytes r n = do _ ← check r n; ok (take n (drop r.pos r.bytes), record r { pos = r.pos + n })

pub slice : BufferReader → ℕ → Result (BufferReader × BufferReader)
unfolding check
slice r n = do
  _ ← check r n
  ok (record { bytes = take n (drop r.pos r.bytes); pos = 0 }, record r { pos = r.pos + n })

-- What is left to read.
abbrev pub unread : BufferReader → Bytes
unread r = drop r.pos r.bytes

abbrev pub view {ℓ} : {A : Type ℓ} → A × BufferReader → A × Bytes
view (a, r) = (a, unread r)

abbrev pub view_slice : BufferReader × BufferReader → Bytes × Bytes
view_slice (s, r) = (unread s, unread r)

-- The position never passes the end.
abbrev pub IsValid : BufferReader → Type 0
IsValid r = r.pos ≤ length r.bytes

abbrev pub IsValidAfter {ℓ} : {A : Type ℓ} → Result (A × BufferReader) → Type 0
IsValidAfter (ok (a, r)) = IsValid r
IsValidAfter (err e) = Unit
IsValidAfter stuck = ⊥

drop-get_or : (n : ℕ) (xs : Bytes) → n < length xs → drop n xs ≡ get_or xs n 0 ∷ drop (n + 1) xs
drop-get_or zero [] h = absurd (omega arith)
drop-get_or zero (x ∷ xs) h = refl
drop-get_or (suc n) [] h = absurd (omega arith)
drop-get_or (suc n) (x ∷ xs) h =
    drop-get_or n xs (omega arith)
    ∙ ap (λ k. get_or xs n 0 ∷ drop k (x ∷ xs)) {x = suc (n + 1)} (omega arith)

length-unread : (r : BufferReader) → length (unread r) ≡ length r.bytes - r.pos
length-unread r = length-drop r.pos r.bytes

empty-leb : (xs : Bytes) (n : ℕ) → leb (length xs) n ≡ Buffer.empty (drop n xs)
empty-leb [] zero = refl
empty-leb [] (suc n) = ground arith
empty-leb (x ∷ xs) zero = ground arith
empty-leb (x ∷ xs) (suc n) = ground (arith, empty-leb xs n)

is_empty-view : (r : BufferReader) → is_empty r ≡ Buffer.empty (unread r)
unfolding is_empty
is_empty-view r = empty-leb r.bytes r.pos

remaining-view : (r : BufferReader) → remaining r ≡ Buffer.remaining (unread r)
unfolding remaining
remaining-view r = ground (arith, length-unread r)

peek-view : (r : BufferReader) → peek r ≡ Buffer.peek (unread r)
unfolding peek Buffer.peek
peek-view r = ground (arith, length-unread r, drop-get_or r.pos r.bytes)

-- The position and the unread bytes make up the bytes.
position-view : (r : BufferReader) → IsValid r → position r + length (unread r) ≡ length r.bytes
unfolding position
position-view r v = omega (arith, length-unread r)

-- What a read does to the layout: the bytes stay, and the position moves by what was read.
abbrev pub Moves {ℓ} : {A : Type ℓ} → BufferReader → ℕ → Result (A × BufferReader) → Type 0
Moves r n (ok (a, r')) = (r'.bytes ≡ r.bytes) × (position r' ≡ position r + n)
Moves r n (err e) = Unit
Moves r n stuck = ⊥

read8-view : (r : BufferReader) → map_ok view (read8 r) ≡ Buffer.read8 (unread r)
unfolding read8 Buffer.read8
read8-view r = ground (arith, length-unread r, drop-get_or r.pos r.bytes)

read_be16-view : (r : BufferReader) → map_ok view (read_be16 r) ≡ Buffer.read_be16 (unread r)
unfolding read_be16 Buffer.read_be16
read_be16-view r =
    ground (arith, length-unread r, drop-get_or r.pos r.bytes, drop-get_or (r.pos + 1) r.bytes)

read_be32-view : (r : BufferReader) → map_ok view (read_be32 r) ≡ Buffer.read_be32 (unread r)
unfolding read_be32 Buffer.read_be32
read_be32-view r = ground (
  arith,
  length-unread r,
  drop-get_or r.pos r.bytes,
  drop-get_or (r.pos + 1) r.bytes,
  drop-get_or (r.pos + 2) r.bytes,
  drop-get_or (r.pos + 3) r.bytes,
)

read_bytes-view :
    (r : BufferReader) (n : ℕ)
    → IsValid r
    → map_ok view (read_bytes r n) ≡ Buffer.read_bytes n (unread r)
unfolding read_bytes Buffer.read_bytes
read_bytes-view r n v = ground (arith, length-unread r, drop-drop r.pos n r.bytes)

slice-view :
    (r : BufferReader) (n : ℕ)
    → IsValid r
    → map_ok view_slice (slice r n) ≡ Buffer.slice n (unread r)
unfolding slice Buffer.slice
slice-view r n v = ground (arith, length-unread r, drop-drop r.pos n r.bytes)

of_bytes-unread : (b : Bytes) → unread (of_bytes b) ≡ b
unfolding of_bytes
of_bytes-unread b = refl

reads-Moves :
    (r : BufferReader) (n : ℕ)
    → Moves r 1 (read8 r)
      × Moves r 2 (read_be16 r)
      × Moves r 4 (read_be32 r)
      × Moves r n (read_bytes r n)
      × Moves r n (slice r n)
unfolding read8 read_be16 read_be32 read_bytes slice position
reads-Moves r n = ground arith

-- Each operation of the reader at a position inside its bytes is the operation of `Buffer` on the
-- unread bytes, and a new reader has all bytes unread: the tests for the end, `peek`, the reads of
-- 1, 2 and 4 bytes, of `n` bytes and of a sub-reader of `n` bytes. They throw on the same inputs, give
-- the same values and leave the same bytes. `pos()` is the number of bytes before the unread ones,
-- and each read that does not throw moves it by the number of bytes read.
pub BufferReader-refines :
    (r : BufferReader) (n : ℕ)
    → IsValid r
    → (unread (of_bytes r.bytes) ≡ r.bytes)
      × (is_empty r ≡ Buffer.empty (unread r))
      × (remaining r ≡ Buffer.remaining (unread r))
      × (position r + length (unread r) ≡ length r.bytes)
      × (peek r ≡ Buffer.peek (unread r))
      × (map_ok view (read8 r) ≡ Buffer.read8 (unread r))
      × (map_ok view (read_be16 r) ≡ Buffer.read_be16 (unread r))
      × (map_ok view (read_be32 r) ≡ Buffer.read_be32 (unread r))
      × (map_ok view (read_bytes r n) ≡ Buffer.read_bytes n (unread r))
      × (map_ok view_slice (slice r n) ≡ Buffer.slice n (unread r))
      × Moves r 1 (read8 r)
      × Moves r 2 (read_be16 r)
      × Moves r 4 (read_be32 r)
      × Moves r n (read_bytes r n)
      × Moves r n (slice r n)
BufferReader-refines r n v =
    let (byte, two, four, many, sub) = reads-Moves r n in
    (
      of_bytes-unread r.bytes,
      is_empty-view r,
      remaining-view r,
      position-view r v,
      peek-view r,
      read8-view r,
      read_be16-view r,
      read_be32-view r,
      read_bytes-view r n v,
      slice-view r n v,
      byte,
      two,
      four,
      many,
      sub,
    )

-- A fresh reader is inside its bytes.
of_bytes-IsValid : (b : Bytes) → IsValid (of_bytes b)
unfolding of_bytes
of_bytes-IsValid b = omega arith

-- No read moves the position past the end, and a sub-reader starts inside its bytes.
read-IsValid :
    (r : BufferReader) (n : ℕ)
    → IsValid r
    → IsValidAfter (read8 r)
      × IsValidAfter (read_be16 r)
      × IsValidAfter (read_be32 r)
      × IsValidAfter (read_bytes r n)
      × IsValidAfter (slice r n)
unfolding read8 read_be16 read_be32 read_bytes slice
read-IsValid r n v = ground arith
