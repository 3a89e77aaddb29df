-- ===== src/Buffer/Laws.antt =====
-- What a read does on bytes that begin with what was written.
use gsup_map_proxy.Base.{
  ℕ, suc, ◌+◌, ◌≡◌, ◌≢◌, refl, sym, ap, ◌∙◌, append-nil, [], ◌∷◌, ◌++◌, length, leb, Ensures, holds,
  throws, Ensures-if, ok, stuck, arith, length-append, take-append, drop-append, le→leb,
  length-drop, length-take, set-append, append_assoc,
}
use gsup_map_proxy.Buffer.{Bytes, read8, read_bytes, slice, reserve_len8, patch8}

pub read_bytes-append : (v r : Bytes) → read_bytes (length v) (v ++ r) ≡ ok (v, r)
unfolding read_bytes
read_bytes-append v r =
    rw (le→leb (length v) (length (v ++ r)) (omega (arith, length-append v r)))
      (rw (take-append v r, drop-append v r))

pub read_rest : (r : Bytes) → read_bytes (length r) r ≡ ok (r, [])
read_rest r = ap (λ s. read_bytes (length r) s) (sym (append-nil r)) ∙ read_bytes-append r []

pub read8-ne-stuck : (r : Bytes) → read8 r ≢ stuck
unfolding read8
read8-ne-stuck [] = λ e. cc
read8-ne-stuck (b ∷ r) = λ e. cc

pub read_bytes-ne-stuck : (n : ℕ) (r : Bytes) → read_bytes n r ≢ stuck
unfolding read_bytes
read_bytes-ne-stuck n r = ground arith

pub length-read8 :
    (r : Bytes) (b : ℕ) (r' : Bytes) → read8 r ≡ ok (b, r') → length r ≡ suc (length r')
unfolding read8
length-read8 [] b r' e = cc
length-read8 (a ∷ r) b r' e = ground arith

pub length-read_bytes :
    (n : ℕ) (r v r' : Bytes)
    → read_bytes n r ≡ ok (v, r')
    → (length r ≡ length r' + n) × (length v ≡ n)
unfolding read_bytes
length-read_bytes n r v r' e = ground (arith, length-drop n r, length-take n r)

-- Filling the reserved slot afterwards is writing the right byte at once.
pub patch8-reserve_len8 :
    (w inner : Bytes) (v : ℕ)
    → patch8 ((reserve_len8 w).1 ++ inner) (reserve_len8 w).0 v ≡ w ++ v ∷ inner
unfolding patch8 reserve_len8
patch8-reserve_len8 w inner v = rw (append_assoc w (0 ∷ []) inner) (set-append w inner 0 v)

pub read8-Ensures : (r : Bytes) → Ensures (λ p. length r ≡ suc (length p.1)) (read8 r)
unfolding read8
read8-Ensures [] = throws
read8-Ensures (b ∷ r) = holds refl

pub read_bytes-Ensures :
    (n : ℕ) (r : Bytes) → Ensures (λ p. length r ≡ length p.1 + n) (read_bytes n r)
unfolding read_bytes
read_bytes-Ensures n r =
    Ensures-if (leb n (length r)) (λ h. holds (ground (arith, length-drop n r))) (λ h. throws)

pub slice-Ensures : (n : ℕ) (r : Bytes) → Ensures (λ p. length r ≡ length p.1 + n) (slice n r)
unfolding slice
slice-Ensures n r = read_bytes-Ensures n r
