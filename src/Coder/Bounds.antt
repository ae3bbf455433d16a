-- ===== src/Coder/Bounds.antt =====
-- Where the decoder reads, fails and panics: the bounds of coder/coder.go's `decoder`.
use native.Mathlib.Nat.{mod-eq_of_lt}
use cable.Prelude.{
  ℕ, zero, suc, ◌+◌, ◌-◌, ◌%◌, ◌^◌, ◌≤◌, ◌<◌, ◌≡◌, ◌↔◌, arith, length, take, drop, if◌then◌else◌,
  Bool-cases, inl, inr, leb,
}
use cable.Prelude.Words.{IsU64}
use cable.Errors.{ok, err, panic, coder, buffer_too_short}
use cable.Coder.Decoder

-- A decoder whose position lies in its buffer, of a length that Go allows.
pub record IsValid (d : Decoder.Decoder) : Type 0 where
  pub within : d.pos ≤ length d.buf
  pub bounded : length d.buf < 2 ^ 63

pub read_bytes_within :
    (l : ℕ) (d : Decoder.Decoder)
    → length d.buf < 2 ^ 63
    → d.pos + l ≤ length d.buf
    → Decoder.read_bytes l d ≡ ok (take l (drop d.pos d.buf), record d { pos = d.pos + l })
unfolding Decoder.read_bytes
read_bytes_within zero d h k = ground arith
read_bytes_within (suc l) d h k =
    let wrap : (d.pos + suc l) % 2 ^ 64 ≡ d.pos + suc l = mod-eq_of_lt (omega arith) in
    let span : d.pos + suc l - d.pos ≡ suc l = omega arith in rw (wrap, span) (ground arith)

-- A read of `l` bytes at a valid position panics exactly where the 64-bit sum of the position and `l`
-- wraps around: the bounds test is made on the wrapped sum, and passes.
pub read_bytes_panic_iff :
    (l : ℕ) (d : Decoder.Decoder)
    → IsValid d
    → IsU64 l
    → (Decoder.read_bytes l d ≡ panic) ↔ (2 ^ 64 ≤ d.pos + l)
unfolding Decoder.read_bytes
read_bytes_panic_iff l d v u = ((λ e. ground arith), (λ h. ground arith))

-- At any other length the read succeeds or reports a short buffer, as the length demands.
pub read_bytes_no_wrap :
    (l : ℕ) (d : Decoder.Decoder)
    → IsValid d
    → d.pos + l < 2 ^ 64
    → Decoder.read_bytes l d ≡ (
        if leb (d.pos + l) (length d.buf)
        then ok (take l (drop d.pos d.buf), record d { pos = d.pos + l })
        else err (coder buffer_too_short))
unfolding Decoder.read_bytes
read_bytes_no_wrap l d v u = elim (Bool-cases (leb (d.pos + l) (length d.buf))) [
  | inl fits ↦ rw fits (unfold Decoder.read_bytes in read_bytes_within l d v.bounded (ground arith))
  | inr short ↦
      let wrap : (d.pos + l) % 2 ^ 64 ≡ d.pos + l = mod-eq_of_lt u in
      rw (short, wrap) (ground arith)
]
