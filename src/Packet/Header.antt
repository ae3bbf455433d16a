-- ===== src/Packet/Header.antt =====
-- The header of a frame in plain arithmetic: `Marshal` writes it, and `Unmarshal` finds the type and
-- the length of the body in it.
use Prim.Native.Nat.{bit_and, bit_or}
use mathlib.Core.Path.{subst}
use cable.Prelude.{
  ℕ, zero, suc, ◌+◌, ◌<◌, ◌≤◌, ◌*◌, ◌/◌, ◌%◌, ◌^◌, refl, sym, ap, ◌≡◌, ◌∙◌, [], ◌∷◌, ◌++◌,
  if◌then◌else◌, leb, length, replicate, All, arith,
}
use cable.Prelude.Words.{IsByte}
use cable.Prelude.Bits.{bit_or_disjoint, bit_and_three}
use cable.Errors.{ok, err, packet, packet_size_too_large}
use cable.GoMap.{Bytes}
use cable.Coder.Decoder
use cable.Coder.Decoder.{and_then, return, from_big_endian}
use cable.Coder.RoundTrip.{Reads, Reads-then, Reads-map, read_bytes-at}
use cable.Packet.Frame.{
  mid_len_1, mid_len_2, mid_len_3, max_len, byte_of, type_bits, put_header, extend_length,
  extra_bytes, short_length, read_frame, read_header,
}

-- The first byte: type, count of extra bytes, highest bits of the length.
abbrev pub first_byte : ℕ → ℕ → ℕ → ℕ
first_byte t k hi = t * 16 + k * 4 + hi

-- The extra length bytes behind the second byte of the header.
unfoldable pub second_and_extra : ℕ → ℕ → ℕ × Bytes
second_and_extra zero n = (n % 256, [])
second_and_extra (suc zero) n = (n / 256 % 256, n % 256 ∷ [])
second_and_extra (suc (suc zero)) n = (n / 256 ^ 2 % 256, n / 256 % 256 ∷ n % 256 ∷ [])
second_and_extra (suc (suc (suc k))) n =
    (n / 256 ^ 3 % 256, n / 256 ^ 2 % 256 ∷ n / 256 % 256 ∷ n % 256 ∷ [])

-- The number of extra bytes for a body of `n` bytes.
unfoldable pub extra_count : ℕ → ℕ
extra_count n =
    if leb n mid_len_1 then 0 else if leb n mid_len_2 then 1 else if leb n mid_len_3 then 2 else 3

one_or : (t hi : ℕ) → t < 8 → hi < 4 → bit_or (type_bits t) hi ≡ first_byte t 0 hi
one_or t hi ht hh =
    let e : type_bits t ≡ t * 2 ^ 4 = omega arith in
    rw e (bit_or_disjoint 4 t hi (omega arith) ∙ omega arith)

two_or :
    (t k hi : ℕ)
    → t < 8
    → k < 4
    → hi < 4
    → bit_or (bit_or (type_bits t) (k * 4)) hi ≡ first_byte t k hi
two_or t k hi ht hk hh =
    let e : type_bits t ≡ t * 2 ^ 4 = omega arith in
    let f : t * 2 ^ 4 + k * 4 ≡ (t * 4 + k) * 2 ^ 2 = omega arith in
    rw e (
      ap (λ x. bit_or x hi) (bit_or_disjoint 4 t (k * 4) (omega arith) ∙ f)
      ∙ bit_or_disjoint 2 (t * 4 + k) hi hh
      ∙ omega arith)

-- The header of a body of `n` bytes.
unfoldable pub header : ℕ → ℕ → Bytes
header t n =
    first_byte t (extra_count n) (n / 256 ^ (extra_count n + 1))
    ∷ (second_and_extra (extra_count n) n).0
    ∷ (second_and_extra (extra_count n) n).1

pub put_header-header :
    (t n : ℕ) (body : Bytes)
    → t < 8
    → n ≤ max_len
    → put_header t n (replicate 5 0 ++ body) ≡ ok (header t n ++ body)
unfolding put_header extra_count second_and_extra header
put_header-header t n body ht hn = ground (
  arith,
  one_or t (byte_of n 1),
  two_or t 1 (byte_of n 2),
  two_or t 2 (byte_of n 3),
  two_or t 3 (byte_of n 4),
)

pub put_header_too_large :
    (t n : ℕ) (buf : Bytes) → max_len < n → put_header t n buf ≡ err (packet packet_size_too_large)
unfolding put_header
put_header_too_large t n buf h = ground arith

extra_bytes-first_byte : (t k hi : ℕ) → t < 8 → k < 4 → hi < 4 → extra_bytes (first_byte t k hi) ≡ k
extra_bytes-first_byte t k hi ht hk hh =
    omega (arith, bit_and_three (first_byte t k hi / 4) (omega arith))

short_length-first_byte :
    (t k hi second : ℕ)
    → t < 8
    → k < 4
    → hi < 4
    → second < 256
    → short_length (first_byte t k hi) second ≡ hi * 256 + second
short_length-first_byte t k hi second ht hk hh hs =
    let e : bit_and (first_byte t k hi) 0x03 ≡ hi =
      omega (arith, bit_and_three (first_byte t k hi) (omega arith)) in
    rw e (bit_or_disjoint 8 hi second hs)

pub extra_count-cases :
    (n : ℕ) → n ≤ max_len → (extra_count n < 4) × (n / 256 ^ (extra_count n + 1) < 4)
unfolding extra_count
extra_count-cases n h = ground arith

length-second_and_extra : (n : ℕ) → length ((second_and_extra (extra_count n) n).1) ≡ extra_count n
unfolding extra_count second_and_extra
length-second_and_extra n = ground arith

second-lt : (n : ℕ) → (second_and_extra (extra_count n) n).0 < 256
unfolding extra_count second_and_extra
second-lt n = ground arith

-- `|` of a length shifted by a byte and a byte adds.
extend_length-from_big_endian :
    (n : ℕ) (bs : Bytes) → All IsByte bs → extend_length n bs ≡ from_big_endian n bs
unfolding extend_length from_big_endian
extend_length-from_big_endian n [] h = refl
extend_length-from_big_endian n (b ∷ bs) (hb, h) =
    ap (λ m. extend_length m bs) (bit_or_disjoint 8 n b hb)
    ∙ extend_length-from_big_endian (n * 2 ^ 8 + b) bs h

extra_IsByte : (n : ℕ) → All IsByte ((second_and_extra (extra_count n) n).1)
unfolding extra_count second_and_extra
extra_IsByte n = ground arith

from_big_endian-extra :
    (n : ℕ)
    → n ≤ max_len
    → from_big_endian
        (n / 256 ^ (extra_count n + 1) * 256 + (second_and_extra (extra_count n) n).0)
        ((second_and_extra (extra_count n) n).1)
      ≡ n
unfolding extra_count second_and_extra from_big_endian
from_big_endian-extra n h = ground arith

read_frame-Reads :
    (first second : ℕ) (extra body : Bytes)
    → extra_bytes first ≡ length extra
    → extend_length (short_length first second) extra ≡ length body
    → Reads (read_frame first second) (extra ++ body) (first, body)
unfolding read_frame
read_frame-Reads first second extra body count size =
    Reads-then (Decoder.read_bytes (extra_bytes first)) _ extra (first, body) extra body
      (subst (λ n. Reads (Decoder.read_bytes n) extra extra) (sym count) (read_bytes-at extra))
      (Reads-map (Decoder.read_bytes _) (λ b. (first, b)) body body
        (subst (λ n. Reads (Decoder.read_bytes n) body body) (sym size) (read_bytes-at body)))

-- What the code computes from the header: the number of extra bytes, and the length of the body.
pub header_parts :
    (t n : ℕ)
    → t < 8
    → n ≤ max_len
    → (first : ℕ) × (second : ℕ) × (extra : Bytes) × (header t n ≡ first ∷ second ∷ extra)
      × (first ≡ first_byte t (extra_count n) (n / 256 ^ (extra_count n + 1)))
      × (extra_bytes first ≡ length extra)
      × (extend_length (short_length first second) extra ≡ n)
unfolding header
header_parts t n ht hn =
    let k = extra_count n in
    let (hk, hhi) = extra_count-cases n hn in
    let hi = n / 256 ^ (k + 1) in
    let second = (second_and_extra k n).0 in
    let extra = (second_and_extra k n).1 in
    (
      first_byte t k hi,
      second,
      extra,
      refl,
      refl,
      extra_bytes-first_byte t k hi ht hk hhi ∙ sym (length-second_and_extra n),
      ap (λ m. extend_length m extra)
            (short_length-first_byte t k hi second ht hk hhi (second-lt n))
          ∙ extend_length-from_big_endian _ extra (extra_IsByte n)
          ∙ from_big_endian-extra n hn,
    )

-- The reads of `Unmarshal` on a frame with a body of `n` bytes find its type and the body.
pub read_frame-header :
    (t : ℕ) (body : Bytes)
    → t < 8
    → length body ≤ max_len
    → Reads (and_then (Decoder.read_bytes 2) read_header) (header t (length body) ++ body) (
      first_byte t
          (extra_count (length body))
          (length body / 256 ^ (extra_count (length body) + 1)),
      body,
    )
unfolding read_header
read_frame-header t body ht hn =
    let (first, second, extra, whole, is_first, count, size) = header_parts t (length body) ht hn in
    let two : Bytes = first ∷ second ∷ [] in
    rw (whole, ← is_first)
      (Reads-then (Decoder.read_bytes 2) read_header two (first, body) two (extra ++ body)
        (read_bytes-at two) (read_frame-Reads first second extra body count size))

pub length-header : (t n : ℕ) → length (header t n) ≡ 2 + extra_count n
unfolding header
length-header t n = omega (arith, length-second_and_extra n)
