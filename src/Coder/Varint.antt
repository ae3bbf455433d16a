-- ===== src/Coder/Varint.antt =====
-- `binary.AppendUvarint` and `binary.Uvarint` of Go's standard library, on which coder/coder.go
-- builds `WriteVarint` and `ReadVarint`: seven bits to a byte, lowest first, and the top bit set on
-- every byte but the last.
use native.Mathlib.Nat.{div-add-mod, pow-suc}
use native.Mathlib.Numerals.{towards_suc}
use cable.Prelude.{
  ℕ, zero, suc, ◌+◌, ◌<◌, ◌≤◌, ◌*◌, ◌/◌, ◌%◌, ◌^◌, [], ◌∷◌, ◌++◌, ◌≡◌, ◌≢◌, refl, ap, ◌∙◌, arith,
  ltb, ◌==◌, if◌then◌else◌, length, ◌&&◌,
}
use mathlib.Core.Path.{ap₂}
use cable.Prelude.Words.{IsU64}
use cable.GoMap.{Bytes}

-- The loop `for x >= 0x80 { … }` with the rounds left; ten bytes hold a uint64.
unfoldable pub groups : ℕ → ℕ → Bytes
groups zero x = []
groups (suc n) x =
    let rest = groups n (x / 128) in if ltb x 128 then x ∷ [] else (x % 128 + 128) ∷ rest

unfoldable pub append_uvarint : Bytes → ℕ → Bytes
append_uvarint buf x = buf ++ groups 10 x

-- `Uvarint` returns the value and the bytes read; a negative count is `overflow`, 0 is `short`.
pub data Uvarint : Type 0 where
  done : ℕ → ℕ → Uvarint
  overflow short : Uvarint

-- `i` bytes have been read, and `x`, below `2 ^ s`, has been put together from them: `|` adds.
unfoldable pub uvarint_loop : Bytes → ℕ → ℕ → ℕ → Uvarint
uvarint_loop [] i x s = short
uvarint_loop (b ∷ buf) i x s =
    let more = uvarint_loop buf (i + 1) (x + b % 128 * 2 ^ s) (s + 7) in
    if i == 10
    then overflow
    else if ltb b 128
    then (if i == 9 && ltb 1 b then overflow else done (x + b * 2 ^ s) (i + 1))
    else more

unfoldable pub uvarint : Bytes → Uvarint
uvarint buf = uvarint_loop buf 0 0 0

shift_seven : (s : ℕ) → 2 ^ (s + 7) ≡ 128 * 2 ^ s
shift_seven s = simp towards_suc (omega arith)

-- The lowest group of `w` and the rest, both counted from bit `s`.
regroup : (w s : ℕ) → w % 128 * 2 ^ s + w / 128 * 2 ^ (s + 7) ≡ w * 2 ^ s
regroup w s = omega (
  arith,
  ap (λ (t : ℕ). w / 128 * t) (shift_seven s),
  ap (λ (t : ℕ). t * 2 ^ s) (div-add-mod w 128),
)

-- `n` rounds are left of ten.
uvarint_loop-groups :
    (n i w x s : ℕ) (rest : Bytes)
    → i + suc n ≡ 10
    → w < 2 * 128 ^ n
    → uvarint_loop (groups (suc n) w ++ rest) i x s
      ≡ done (x + w * 2 ^ s) (i + length (groups (suc n) w))
unfolding uvarint_loop groups
uvarint_loop-groups zero i w x s rest hi hw = ground arith
uvarint_loop-groups (suc n) i w x s rest hi hw =
    ground (
      arith,
      regroup w s,
      uvarint_loop-groups n (i + 1) (w / 128) (x + w % 128 * 2 ^ s) (s + 7) rest,
    )

-- `Uvarint` reads back what `AppendUvarint` wrote, whatever follows it.
pub uvarint-append_uvarint :
    (v : ℕ) (rest : Bytes)
    → IsU64 v
    → uvarint (append_uvarint [] v ++ rest) ≡ done v (length (append_uvarint [] v))
unfolding uvarint append_uvarint
uvarint-append_uvarint v rest h =
    uvarint_loop-groups 9 0 v 0 0 rest refl (omega arith) ∙ ap₂ done (omega arith) (omega arith)

length-groups : (n x : ℕ) → length (groups n x) ≤ n
unfolding groups
length-groups zero x = omega arith
length-groups (suc n) x = ground (arith, length-groups n (x / 128))

-- A varint takes at most ten bytes.
pub length-append_uvarint : (v : ℕ) → length (append_uvarint [] v) ≤ 10
unfolding append_uvarint
length-append_uvarint v = length-groups 10 v

-- `AppendUvarint` keeps what the buffer holds.
pub append_uvarint-append :
    (buf : Bytes) (v : ℕ) → append_uvarint buf v ≡ buf ++ append_uvarint [] v
unfolding append_uvarint
append_uvarint-append buf v = refl

-- An eleventh byte is never part of a number.
uvarint_loop_ten : (buf : Bytes) (x s v n : ℕ) → uvarint_loop buf 10 x s ≢ done v n
unfolding uvarint_loop
uvarint_loop_ten [] x s v n e = cc
uvarint_loop_ten (b ∷ buf) x s v n e = cc

one-le-pow : (k : ℕ) → 1 ≤ 128 ^ k
one-le-pow zero = omega arith
one-le-pow (suc k) = omega (arith, one-le-pow k, pow-suc 128 k)

-- A group of seven bits at `p`, where `p * (q * 128)` is the room left.
group_fits :
    (p q x b : ℕ)
    → 1 ≤ q
    → p * (q * 128) ≡ 2 ^ 63
    → x < p
    → b < 128
    → (x + b * p < 128 * p) × (x + b * p < 2 ^ 64)
group_fits p q x b hq hp hx hb = (bound, omega (arith, bound, room))
  where
    bound : x + b * p < 128 * p
    bound = grind (arith)

    room : 128 * p ≤ 2 ^ 63
    room = omega (arith, hp, scale)
      where
        scale : p * 1 ≤ p * q
        scale = grind arith

next_room : (p q : ℕ) → p * (q * 128) ≡ 2 ^ 63 → 128 * p * q ≡ 2 ^ 63
next_room p q h = omega arith

-- `k` further bytes may be read before the tenth; `p` is `2 ^ s`.
uvarint_loop-IsU64 :
    (buf : Bytes) (k i x s v n : ℕ)
    → i + k ≡ 9
    → 2 ^ s * 128 ^ k ≡ 2 ^ 63
    → x < 2 ^ s
    → uvarint_loop buf i x s ≡ done v n
    → IsU64 v
unfolding uvarint_loop
uvarint_loop-IsU64 [] k i x s v n hi hs hx e = cc
uvarint_loop-IsU64 (b ∷ buf) zero i x s v n hi hs hx e =
    ground (arith, uvarint_loop_ten buf (x + b % 128 * 2 ^ s) (s + 7) v n)
uvarint_loop-IsU64 (b ∷ buf) (suc k) i x s v n hi hs hx e = ground (
  arith,
  group_fits (2 ^ s) (128 ^ k) x b,
  group_fits (2 ^ s) (128 ^ k) x (b % 128),
  one-le-pow k,
  pow-suc 128 k,
  shift_seven s,
  next_room (2 ^ s) (128 ^ k),
  uvarint_loop-IsU64 buf k (i + 1) (x + b % 128 * 2 ^ s) (s + 7) v n,
)

-- What `Uvarint` returns was read from the buffer: it took a byte at least, and no more than there are.
uvarint_loop_takes :
    (buf : Bytes) (i x s v n : ℕ)
    → uvarint_loop buf i x s ≡ done v n
    → (i < n) × (n ≤ i + length buf)
unfolding uvarint_loop
uvarint_loop_takes [] i x s v n e = cc
uvarint_loop_takes (b ∷ buf) i x s v n e =
    ground (arith, uvarint_loop_takes buf (i + 1) (x + b % 128 * 2 ^ s) (s + 7) v n)

pub uvarint_takes :
    (buf : Bytes) (v n : ℕ) → uvarint buf ≡ done v n → IsU64 v × (0 < n) × (n ≤ length buf)
unfolding uvarint
uvarint_takes buf v n e =
    let (lo, hi) = uvarint_loop_takes buf 0 0 0 v n e in
    (uvarint_loop-IsU64 buf 9 0 0 0 v n refl refl (omega arith) e, lo, omega arith)
