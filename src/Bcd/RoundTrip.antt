-- ===== src/Bcd/RoundTrip.antt =====
-- Digits packed and unpacked.
use gsup_map_proxy.Base.{
  ℕ, zero, suc, ◌+◌, ◌*◌, ◌/◌, ◌%◌, ◌≤◌, ◌<◌, ◌≡◌, ◌≢◌, refl, sym, ap₂, ◌∙◌, Bool, true, false,
  subst, if◌then◌else◌, Bool-cases, inl, inr, [], ◌∷◌, length, ◌==◌, ok, stuck, All, arith, ==_iff,
}
use gsup_map_proxy.Buffer.{Bytes}
use gsup_map_proxy.Bcd.{Text, digit, pack_byte, pack, unpack, unpack_unchecked}

abbrev pub IsDigit : ℕ → Type 0
IsDigit c = (b'0' ≤ c) × (c ≤ b'9')

-- A test of the numbers from `top` down to 0.
unfoldable pub down_from : ℕ → (ℕ → Bool) → Bool
down_from zero test = test 0
down_from (suc top) test = let rest = down_from top test in if test (suc top) then rest else false

pub down_from_lem :
    (test : ℕ → Bool) (top : ℕ) → down_from top test ≡ true → (x : ℕ) → x ≤ top → test x ≡ true
unfolding down_from
down_from_lem test zero good x small = subst (λ k. test k ≡ true) {x = 0} (omega arith) good
down_from_lem test (suc top) good x small = elim (Bool-cases (x == suc top)) [
  | inl same ↦
      subst (λ k. test k ≡ true) {x = suc top} (sym ((==_iff x (suc top)).0 same))
        (ground (arith, good))
  | inr other ↦ down_from_lem test top (ground (arith, good)) x (ground (arith, other))
]

nibbles_table : down_from 255 (λ x. pack_byte (x / 16) (x % 16) == x) ≡ true
unfolding down_from pack_byte
nibbles_table = refl

-- The two nibbles share no bit.
pub pack_byte-add : (hi lo : ℕ) → hi < 16 → lo < 16 → pack_byte hi lo ≡ hi * 16 + lo
pack_byte-add hi lo hh hl =
    ap₂ pack_byte (omega arith) (omega arith)
    ∙ (==_iff _ _).0 (down_from_lem _ 255 nibbles_table (hi * 16 + lo) (omega arith))

-- A text of digits comes back from its packed form, whether their number is even or odd.
pub unpack-pack : (cs : Text) → All IsDigit cs → unpack (pack cs) ≡ ok cs
unfolding unpack pack
unpack-pack [] h = refl
unpack-pack (c ∷ []) h =
    rw (pack_byte-add 0x0f (digit c) (omega arith) (omega arith)) (ground arith)
unpack-pack (c ∷ d ∷ cs) h =
    rw (pack_byte-add (digit d) (digit c) (omega arith) (omega arith))
      (rw (unpack-pack cs h.1.1) (ground arith))

pub unpack_unchecked-pack : (cs : Text) → All IsDigit cs → unpack_unchecked (pack cs) ≡ cs
unfolding unpack_unchecked pack
unpack_unchecked-pack [] h = refl
unpack_unchecked-pack (c ∷ []) h =
    rw (pack_byte-add 0x0f (digit c) (omega arith) (omega arith)) (ground arith)
unpack_unchecked-pack (c ∷ d ∷ cs) h =
    rw (pack_byte-add (digit d) (digit c) (omega arith) (omega arith))
      (rw (unpack_unchecked-pack cs h.1.1) (ground arith))

pub length-pack : (cs : Text) → length (pack cs) * 2 ≤ length cs + 1
unfolding pack
length-pack [] = omega arith
length-pack (c ∷ []) = omega arith
length-pack (c ∷ d ∷ cs) = omega (arith, length-pack cs)

pub unpack-ne-stuck : (bs : Bytes) → unpack bs ≢ stuck
unfolding unpack
unpack-ne-stuck [] = λ e. cc
unpack-ne-stuck (b ∷ bs) = ground (arith, unpack-ne-stuck bs)
