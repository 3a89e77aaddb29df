-- ===== src/Sccp/Address.antt =====
-- Decoding an encoded SCCP address.
use gsup_map_proxy.Base.{
  ℕ, ◌+◌, ◌*◌, ◌/◌, ◌%◌, ◌≤◌, ◌<◌, ◌≡◌, refl, ap, ◌∙◌, Bool, true, false, not, [], ◌∷◌, length,
  ◌==◌, bit_or, if◌then◌else◌, ok, All, arith, Bool-cases, inl, inr, ==_iff,
}
use gsup_map_proxy.Buffer.{uint8, write8, write_bytes, read8}
use gsup_map_proxy.Buffer.Laws.{read_rest}
use gsup_map_proxy.Bcd.{Text, digit, pack, pack_byte, low_nibble, high_nibble}
use gsup_map_proxy.Bcd.RoundTrip.{IsDigit, pack_byte-add, length-pack, down_from, down_from_lem}
use gsup_map_proxy.Sccp.{SccpAddress, default_address, es_bcd_odd, es_bcd_even, make_gt_address}
use gsup_map_proxy.Sccp.Encode.{
  is_odd, np_es, nai_raw, write_ssn, encode_gt_address, encode_address,
}
use gsup_map_proxy.Sccp.Decode.{unpack_bcd, read_ssn, read_gt, decode_address}

is_odd_two : (c d : ℕ) (cs : Text) → is_odd (c ∷ d ∷ cs) ≡ is_odd cs
is_odd_two c d cs = ap (λ n. not (n == 0)) {x = length (c ∷ d ∷ cs) % 2} (omega arith)

unpack_bcd_two :
    (b e : ℕ) (cs : Text) (odd : Bool)
    → unpack_bcd (b ∷ pack (e ∷ cs)) odd
      ≡ (b'0' + low_nibble b) ∷ (b'0' + high_nibble b) ∷ unpack_bcd (pack (e ∷ cs)) odd
unfolding unpack_bcd pack
unpack_bcd_two b e [] odd = refl
unpack_bcd_two b e (f ∷ cs) odd = refl

-- A text of digits comes back from its packed form with the flag for an odd number of them.
unpack_bcd-pack : (cs : Text) → All IsDigit cs → unpack_bcd (pack cs) (is_odd cs) ≡ cs
unfolding unpack_bcd pack
unpack_bcd-pack [] h = refl
unpack_bcd-pack (c ∷ []) h =
    rw (pack_byte-add 0x0f (digit c) (omega arith) (omega arith)) (ground arith)
unpack_bcd-pack (c ∷ d ∷ []) h =
    rw (pack_byte-add (digit d) (digit c) (omega arith) (omega arith)) (ground arith)
unpack_bcd-pack (c ∷ d ∷ e ∷ cs) h =
    unpack_bcd_two (pack_byte (digit d) (digit c)) e cs (is_odd (c ∷ d ∷ e ∷ cs))
    ∙ rw (is_odd_two c d (e ∷ cs)) (
        rw (unpack_bcd-pack (e ∷ cs) h.1.1)
          (rw (pack_byte-add (digit d) (digit c) (omega arith) (omega arith)) (ground arith)))

np_es-add : (np : ℕ) (odd : Bool) → np < 256 → np % 16 ≡ 0 → np_es np odd / 16 % 16 * 16 ≡ np
unfolding np_es pack_byte
np_es-add np odd small high =
    let es = if odd then es_bcd_odd else es_bcd_even in
    let few : es < 16 = ground arith in
    let split : np ≡ np / 16 * 16 = omega arith in
    let sum : np_es np odd ≡ np / 16 * 16 + es =
      ap (λ x. uint8 (bit_or x es)) split ∙ pack_byte-add (np / 16) es (omega arith) few in
    rw sum (omega (arith, few))

nai_table : down_from 127 (λ x. uint8 (bit_or x 0x80) == x + 128) ≡ true
unfolding down_from
nai_table = refl

nai_raw-parts :
    (nai : ℕ) (odd : Bool)
    → nai < 128
    → (nai_raw nai odd % 128 ≡ nai) × (not (nai_raw nai odd / 128 % 2 == 0) ≡ odd)
unfolding nai_raw
nai_raw-parts nai true h =
    let flagged : uint8 (bit_or nai 0x80) ≡ nai + 128 =
      (==_iff _ _).0 (down_from_lem _ 127 nai_table nai (omega arith)) in
    rw flagged (ground arith)
nai_raw-parts nai false h = ground arith

-- An address that the decoder gives back: it is routed by its Global Title, its digits are digits,
-- the numbering plan is in the high half of its byte, the nature of address has seven bits, and
-- there is no point code and no subsystem number but the one that is present.
pub record IsGtAddress (a : SccpAddress) : Type 0 where
  pub by_gt : a.route_by_gt ≡ true
  pub digits_ok : All IsDigit a.digits
  pub np_small : a.np < 256
  pub np_high : a.np % 16 ≡ 0
  pub nai_small : a.nai < 128
  pub no_ssn : a.ssn_present ≡ false → a.ssn ≡ 0
  pub no_point_code : a.pc_present ≡ false
  pub pc_zero : a.pc ≡ 0

-- Reading the Global Title of an address that `read_ssn` has begun.
read_gt-pack :
    (by_gt has : Bool) (ssn tt_read np nai : ℕ) (digits : Text)
    → All IsDigit digits
    → np < 256
    → np % 16 ≡ 0
    → nai < 128
    → read_gt
        (record default_address { route_by_gt = by_gt; ssn_present = has; ssn = ssn })
        (tt_read ∷ np_es np (is_odd digits) ∷ nai_raw nai (is_odd digits) ∷ pack digits)
      ≡ ok (record {
        route_by_gt = by_gt;
        digits = digits;
        tt = tt_read;
        np = np;
        nai = nai;
        ssn_present = has;
        ssn = ssn;
        pc_present = false;
        pc = 0;
      })
unfolding read_gt read8
read_gt-pack by_gt has ssn tt_read np nai digits hd small high hn =
    let flags = nai_raw-parts nai (is_odd digits) hn in
    rw (read_rest (pack digits)) (
      rw (np_es-add np (is_odd digits) small high)
        (rw (flags.0, flags.1) (rw (unpack_bcd-pack digits hd) refl)))

-- An address with these properties comes back from its encoding, which has five bytes at most
-- beside its digits.
pub decode_address-encode_address :
    (a : SccpAddress) → IsGtAddress a → decode_address (encode_address a) ≡ ok a
unfolding decode_address encode_address encode_gt_address write_ssn write8 write_bytes read_ssn
    read8
decode_address-encode_address a h =
    let gt = λ (has : Bool) (ssn : ℕ).
      read_gt-pack true has ssn a.tt a.np a.nai a.digits h.digits_ok h.np_small h.np_high
        h.nai_small in
    rw (h.by_gt, h.no_point_code, h.pc_zero)
      (elim (Bool-cases a.ssn_present) [
        | inl present ↦ rw present (gt true a.ssn)
        | inr missing ↦ rw (missing, h.no_ssn missing) (gt false 0)
      ])

pub length-encode_address :
    (a : SccpAddress) → a.route_by_gt ≡ true → length (encode_address a) * 2 ≤ length a.digits + 11
unfolding encode_address encode_gt_address write_ssn write8 write_bytes
length-encode_address a h = rw h (elim (Bool-cases a.ssn_present) [
  | inl present ↦ rw present (omega (arith, length-pack a.digits))
  | inr missing ↦ rw missing (omega (arith, length-pack a.digits))
])

pub make_gt_address-IsGtAddress :
    (digits : Text) (ssn : ℕ) (has : Bool)
    → All IsDigit digits
    → IsGtAddress (make_gt_address digits ssn has)
unfolding make_gt_address
make_gt_address-IsGtAddress digits ssn true h = record {
  by_gt = refl;
  digits_ok = h;
  np_small = omega arith;
  np_high = refl;
  nai_small = omega arith;
  no_ssn = λ e. cc;
  no_point_code = refl;
  pc_zero = refl;
}
make_gt_address-IsGtAddress digits ssn false h = record {
  by_gt = refl;
  digits_ok = h;
  np_small = omega arith;
  np_high = refl;
  nai_small = omega arith;
  no_ssn = λ e. refl;
  no_point_code = refl;
  pc_zero = refl;
}

plus_table : down_from 9 (λ x. pack_byte x 0xfb == 0xfb) ≡ true
unfolding down_from pack_byte
plus_table = refl

-- The nibble of `+` fills the whole byte, so that the digit behind it is lost.
pack_plus : (d : ℕ) (cs : Text) → IsDigit d → pack (b'+' ∷ d ∷ cs) ≡ 0xfb ∷ pack cs
unfolding pack
pack_plus d cs h =
    ap (λ b. b ∷ pack cs)
      ((==_iff _ _).0
        (down_from_lem (λ x. pack_byte x 0xfb == 0xfb) 9 plus_table (digit d) (omega arith)))

-- The first digit behind a leading `+` does not reach the wire: two Global Titles that differ only
-- in that digit have the same encoding.
pub encode_address_plus :
    (d e : ℕ) (cs : Text) (ssn : ℕ) (has : Bool)
    → IsDigit d
    → IsDigit e
    → encode_address (make_gt_address (b'+' ∷ d ∷ cs) ssn has)
      ≡ encode_address (make_gt_address (b'+' ∷ e ∷ cs) ssn has)
unfolding encode_address encode_gt_address make_gt_address write_ssn
encode_address_plus d e cs ssn true hd he = rw (pack_plus d cs hd, pack_plus e cs he) refl
encode_address_plus d e cs ssn false hd he = rw (pack_plus d cs hd, pack_plus e cs he) refl
