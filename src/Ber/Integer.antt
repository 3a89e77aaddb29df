-- ===== src/Ber/Integer.antt =====
-- `encodeInt` and `decodeInt` of map/BerCodec.cpp are inverse on every `int64_t`.
use gsup_map_proxy.Base.{
  ℕ, zero, suc, ◌+◌, ◌*◌, ◌/◌, ◌%◌, ◌^◌, ◌≤◌, ◌<◌, ◌≡◌, refl, ap, ◌∙◌, [], ◌∷◌, ◌++◌, length, ltb,
  ◌==◌, ok, arith, Bool-cases, inl, inr, length-append, le→leb, leb→le, Bool, not, ◌||◌, true,
  false,
}
use gsup_map_proxy.Buffer.{Bytes, uint8}
use gsup_map_proxy.Ber.{
  low_bytes, sign_bytes, shift_sign, minus_one, pad_sign, is_negative, encode_int, accumulate,
  sign_extend, decode_int,
}
use mathlib.Core.List.{reverse, reverse-append, reverse-cons}

-- 256 ^ k.
unfoldable pow256 : ℕ → ℕ
pow256 zero = 1
pow256 (suc k) = 256 * pow256 k

-- The number that the bytes stand for, the lowest byte first.
number : Bytes → ℕ
number [] = 0
number (b ∷ bs) = b + 256 * number bs

accumulate-append :
    (acc : ℕ) (xs ys : Bytes) → accumulate acc (xs ++ ys) ≡ accumulate (accumulate acc xs) ys
unfolding accumulate
accumulate-append acc [] ys = refl
accumulate-append acc (x ∷ xs) ys = accumulate-append ((acc * 2 ^ 8 + x) % 2 ^ 64) xs ys

accumulate-reverse : (bs : Bytes) → accumulate 0 (reverse bs) ≡ number bs % 2 ^ 64
unfolding number accumulate
accumulate-reverse [] = refl
accumulate-reverse (b ∷ bs) =
    rw (reverse-append (b ∷ []) bs)
      (rw (accumulate-append 0 (reverse bs) (b ∷ [])) (omega (arith, accumulate-reverse bs)))

number-low_bytes : (n v : ℕ) → v < pow256 n → number (low_bytes n v) ≡ v
unfolding number low_bytes pow256
number-low_bytes zero v h = omega arith
number-low_bytes (suc n) v h = ground (arith, number-low_bytes n (v / 2 ^ 8))

decode_int-pad_sign :
    (b : ℕ) (be : Bytes) → decode_int (pad_sign (b ∷ be)) ≡ ok (accumulate 0 (b ∷ be))
unfolding decode_int
decode_int-pad_sign b be = ground arith

append-ne-nil : (xs : Bytes) (b : ℕ) → (h : ℕ) × (t : Bytes) × (xs ++ b ∷ [] ≡ h ∷ t)
append-ne-nil [] b = (b, [], refl)
append-ne-nil (x ∷ xs) b = (x, xs ++ b ∷ [], refl)

decode_int-encode_positive :
    (v : ℕ) → 0 < v → v < 2 ^ 63 → decode_int (pad_sign (reverse (low_bytes 8 v))) ≡ ok v
decode_int-encode_positive v pos small = rw (whole.2) (
    decode_int-pad_sign whole.0 whole.1
    ∙ ap ok (rw (← whole.2) (accumulate-reverse (low_bytes 8 v) ∙ value)))
  where
    value : number (low_bytes 8 v) % 2 ^ 64 ≡ v
    value = rw (number-low_bytes 8 v (unfold pow256 in omega arith)) (omega arith)

    lt_true : ltb 0 v ≡ true
    lt_true = ground arith

    whole : (h : ℕ) × (t : Bytes) × (reverse (low_bytes 8 v) ≡ h ∷ t)
    whole =
        unfold low_bytes in
        rw (lt_true)
          (rw (reverse-cons (uint8 v) (low_bytes 7 (v / 2 ^ 8))) (append-ne-nil _ (uint8 v)))

abbrev more : ℕ → Bool
more v = not (shift_sign v == minus_one) || ltb (uint8 v) 0x80

-- A leading byte with the top bit set, and the value in `k` bytes.
SignBytes : ℕ → ℕ → Bytes → Type 0
SignBytes n v bs =
    (number bs + 2 ^ 64 ≡ v + pow256 (length bs))
    × (length bs ≤ n + 1)
    × ((h : ℕ) × (t : Bytes) × (reverse bs ≡ h ∷ t) × (0x80 ≤ h))

SignBytes-cons :
    (n v : ℕ) (bs : Bytes)
    → v < 2 ^ 64
    → SignBytes n (shift_sign v) bs
    → SignBytes (suc n) v (uint8 v ∷ bs)
unfolding SignBytes number pow256
SignBytes-cons n v bs small (value, short, (h, t, e, top)) =
    (omega arith, omega arith, (h, t ++ uint8 v ∷ [], reverse-cons (uint8 v) bs ∙ rw e, top))

SignBytes-last : (n v : ℕ) → v < 2 ^ 64 → more v ≡ false → SignBytes n v (uint8 v ∷ [])
unfolding SignBytes number pow256
SignBytes-last n v small stop = (ground arith, omega arith, (uint8 v, [], refl, ground arith))

-- With more rounds than bytes the loop ends by its test.
sign_bytes-SignBytes :
    (r n v : ℕ) → n < r → v < 2 ^ 64 → 2 ^ 64 ≤ v + 128 * pow256 n → SignBytes n v (sign_bytes r v)
unfolding sign_bytes
sign_bytes-SignBytes zero n v hr small fits = absurd (omega arith)
sign_bytes-SignBytes (suc r) zero v hr small fits = elim (Bool-cases (more v)) [
  | inr stop ↦ rw stop (SignBytes-last zero v small stop)
  | inl on ↦ absurd (unfold pow256 in ground arith)
]
sign_bytes-SignBytes (suc r) (suc n) v hr small fits = elim (Bool-cases (more v)) [
  | inr stop ↦ rw stop (SignBytes-last (suc n) v small stop)
  | inl on ↦
      let fits' : 2 ^ 64 ≤ shift_sign v + 128 * pow256 n = unfold pow256 in omega arith in
      rw on (
        SignBytes-cons n v _ small
          (sign_bytes-SignBytes r n (shift_sign v) (omega arith) (omega arith) fits'))
]

sign_extend-SignBytes :
    (k m v : ℕ) → k ≤ 8 → v < 2 ^ 64 → m + 2 ^ 64 ≡ v + pow256 k → sign_extend k (m % 2 ^ 64) ≡ v
unfolding sign_extend pow256
sign_extend-SignBytes zero m v hk small e = ground arith
sign_extend-SignBytes (suc zero) m v hk small e = ground arith
sign_extend-SignBytes (suc (suc zero)) m v hk small e = ground arith
sign_extend-SignBytes (suc (suc (suc zero))) m v hk small e = ground arith
sign_extend-SignBytes (suc (suc (suc (suc zero)))) m v hk small e = ground arith
sign_extend-SignBytes (suc (suc (suc (suc (suc zero))))) m v hk small e = ground arith
sign_extend-SignBytes (suc (suc (suc (suc (suc (suc zero)))))) m v hk small e = ground arith
sign_extend-SignBytes (suc (suc (suc (suc (suc (suc (suc zero))))))) m v hk small e = ground arith
sign_extend-SignBytes (suc (suc (suc (suc (suc (suc (suc (suc k)))))))) m v hk small e =
    let e' : m + 2 ^ 64 ≡ v + pow256 8 = rw (k_zero) at e in ground arith
  where
    k_zero : k ≡ zero
    k_zero = omega arith

decode_int_negative :
    (bs : Bytes) (h : ℕ) (t : Bytes)
    → reverse bs ≡ h ∷ t
    → 0x80 ≤ h
    → decode_int (reverse bs) ≡ ok (sign_extend (length (reverse bs)) (number bs % 2 ^ 64))
decode_int_negative bs h t e top =
    rw (← accumulate-reverse bs) (rw e (unfold decode_int in rw (le→leb 0x80 h top)))

length-reverse : (bs : Bytes) → length (reverse bs) ≡ length bs
length-reverse [] = refl
length-reverse (b ∷ bs) =
    rw (reverse-cons b bs) (omega (arith, length-append (reverse bs) (b ∷ []), length-reverse bs))

decode_int-encode_negative :
    (v : ℕ) → 2 ^ 63 ≤ v → v < 2 ^ 64 → decode_int (reverse (sign_bytes 9 v)) ≡ ok v
decode_int-encode_negative v neg small =
    decode_int_negative (sign_bytes 9 v) b.2.0 b.2.1 b.2.2 b.2.3
    ∙ ap ok (
        rw (length-reverse (sign_bytes 9 v)) (
          sign_extend-SignBytes (length (sign_bytes 9 v)) (number (sign_bytes 9 v)) v b.1 small
            b.0))
  where
    b :
        (number (sign_bytes 9 v) + 2 ^ 64 ≡ v + pow256 (length (sign_bytes 9 v)))
        × (length (sign_bytes 9 v) ≤ 8)
        × ((h : ℕ) × (t : Bytes) × (reverse (sign_bytes 9 v) ≡ h ∷ t) × (0x80 ≤ h))
    b =
        unfold SignBytes in
        sign_bytes-SignBytes 9 7 v (omega arith) small (unfold pow256 in omega arith)

-- `decodeInt` gives back every `int64_t` that `encodeInt` was given, negative ones included.
pub decode_int-encode_int : (v : ℕ) → v < 2 ^ 64 → decode_int (encode_int v) ≡ ok v
unfolding encode_int
decode_int-encode_int v small = elim (Bool-cases (v == 0)) [
  | inl e ↦ rw e (unfold decode_int in ground arith)
  | inr ne ↦ elim (Bool-cases (is_negative v)) [
    | inl neg ↦ rw (ne, neg) (decode_int-encode_negative v (leb→le _ _ neg) small)
    | inr pos ↦ rw (ne, pos) (decode_int-encode_positive v (ground arith) (ground arith))
  ]
]

length-low_bytes : (n v : ℕ) → length (low_bytes n v) ≤ n
unfolding low_bytes
length-low_bytes zero v = omega arith
length-low_bytes (suc n) v = ground (arith, length-low_bytes n (v / 2 ^ 8))

length-sign_bytes : (n v : ℕ) → length (sign_bytes n v) ≤ n
unfolding sign_bytes
length-sign_bytes zero v = omega arith
length-sign_bytes (suc n) v = ground (arith, length-sign_bytes n (shift_sign v))

length-pad_sign : (be : Bytes) → length (pad_sign be) ≤ length be + 1
length-pad_sign [] = omega arith
length-pad_sign (b ∷ be) = ground arith

-- At most nine bytes are written.
pub length-encode_int : (v : ℕ) → length (encode_int v) ≤ 9
unfolding encode_int
length-encode_int v = ground (
  arith,
  length-low_bytes 8 v,
  length-sign_bytes 9 v,
  length-reverse (low_bytes 8 v),
  length-reverse (sign_bytes 9 v),
  length-pad_sign (reverse (low_bytes 8 v)),
)
