-- ===== src/Coder/Decoder.antt =====
-- `decoder` of coder/coder.go: a position in a buffer. A read returns a value and the decoder after
-- it, an error, or a panic where the Go code would index or slice out of range. The decoder that an
-- error leaves behind is dropped: every caller in the repository gives up on the first error.
use native.Mathlib.Decide.{ℕ_discrete}
use cable.Prelude.{
  ℕ, zero, suc, ◌+◌, ◌-◌, ◌*◌, ◌%◌, ◌^◌, Bool, List, [], ◌∷◌, ◌++◌, none, some, if◌then◌else◌, ltb,
  leb, ◌==◌, length, take, drop, get_elem?,
}
use cable.Prelude.Words.{ℤ, to_signed}
use cable.Errors.{Result, ok, err, panic, coder, varint_overflow, buffer_too_short}
use cable.GoMap.{Bytes, Bytes-discrete, insert}
use cable.Coder.Varint.{uvarint, done, overflow, short}

pub record Decoder : Type 0 where
  pub pos : ℕ
  pub buf : Bytes

-- `NewDecoder`
unfoldable pub new_decoder : Bytes → Decoder
new_decoder bytes = record { pos = 0; buf = bytes }

abbrev pub Read {ℓ} : Type ℓ → Type ℓ
Read A = Decoder → Result (A × Decoder)

-- One read after another.
abbrev pub and_then {ℓ κ} : {A : Type ℓ} {B : Type κ} → Read A → (A → Read B) → Read B
and_then r k d = elim (r d) [ ok (a, d') ↦ k a d' | err e ↦ err e | panic ↦ panic ]

abbrev pub return {ℓ} : {A : Type ℓ} → A → Read A
return a d = ok (a, d)

abbrev u64 : ℕ → ℕ
u64 n = n % 2 ^ 64

-- `d.buf[d.pos : d.pos+l]`; the sum is a uint64, and a slice that ends before it starts panics.
unfoldable pub read_bytes : ℕ → Read Bytes
read_bytes l d =
    if l == 0
    then ok ([], d)
    else if ltb (length d.buf) (u64 (d.pos + l))
    then err (coder buffer_too_short)
    else if ltb (u64 (d.pos + l)) d.pos
    then panic
    else ok (take (u64 (d.pos + l) - d.pos) (drop d.pos d.buf), record d { pos = u64 (d.pos + l) })

unfoldable pub read_uint8 : Read ℕ
read_uint8 d =
    if ltb (length d.buf) (u64 (d.pos + 1))
    then err (coder buffer_too_short)
    else elim (get_elem? d.buf d.pos) [
      | none ↦ panic
      | some i ↦ ok (i, record d { pos = u64 (d.pos + 1) })
    ]

-- `binary.BigEndian.Uint16` and the like, on as many bytes as it reads.
unfoldable pub from_big_endian : ℕ → Bytes → ℕ
from_big_endian acc [] = acc
from_big_endian acc (b ∷ bs) = from_big_endian (acc * 256 + b) bs

unfoldable pub read_uint16 : Read ℕ
read_uint16 = and_then (read_bytes 2) λ bytes. return (from_big_endian 0 bytes)

unfoldable pub read_uint32 : Read ℕ
read_uint32 = and_then (read_bytes 4) λ bytes. return (from_big_endian 0 bytes)

unfoldable pub read_uint64 : Read ℕ
read_uint64 = and_then (read_bytes 8) λ bytes. return (from_big_endian 0 bytes)

unfoldable pub read_bool : Read Bool
read_bool = and_then read_uint8 λ i. return (i == 1)

unfoldable pub read_int8 : Read ℤ
read_int8 = and_then read_uint8 λ u. return (to_signed (2 ^ 8) (2 ^ 7) u)

unfoldable pub read_int16 : Read ℤ
read_int16 = and_then read_uint16 λ u. return (to_signed (2 ^ 16) (2 ^ 15) u)

unfoldable pub read_int32 : Read ℤ
read_int32 = and_then read_uint32 λ u. return (to_signed (2 ^ 32) (2 ^ 31) u)

unfoldable pub read_int64 : Read ℤ
read_int64 = and_then read_uint64 λ u. return (to_signed (2 ^ 64) (2 ^ 63) u)

-- `d.buf[d.pos:]` panics where the position lies behind the buffer.
unfoldable pub read_varint : Read ℕ
read_varint d = if ltb (length d.buf) d.pos then panic else elim (uvarint (drop d.pos d.buf)) [
  | done v n ↦ ok (v, record d { pos = u64 (d.pos + n) })
  | overflow ↦ err (coder varint_overflow)
  | short ↦ err (coder buffer_too_short)
]

unfoldable pub read_data : Read Bytes
read_data = and_then read_varint read_bytes

unfoldable pub read_string : Read Bytes
read_string = read_data

-- The rounds of `for i := 0; i < int(l); i++`: `int(l)` is negative from `2 ^ 63` on.
unfoldable pub rounds : ℕ → ℕ
rounds l = if ltb l (2 ^ 63) then l else 0

-- The loop of `ReadStrMap`, with the rounds left.
unfoldable pub read_str_entries : ℕ → List (Bytes × Bytes) → Read (List (Bytes × Bytes))
read_str_entries zero m = return m
read_str_entries (suc n) m =
    and_then read_string
      λ k. and_then read_string λ v. read_str_entries n (insert Bytes-discrete k v m)

unfoldable pub read_str_map : Read (List (Bytes × Bytes))
read_str_map = and_then read_varint λ l. read_str_entries (rounds l) []

-- The loop of `ReadStrings`, with the rounds left and the strings stored so far.
unfoldable pub read_each_string : ℕ → List Bytes → Read (List Bytes)
read_each_string zero ss = return ss
read_each_string (suc n) ss = and_then read_string λ s. read_each_string n (ss ++ s ∷ [])

-- `make([]string, l)` panics for a length that is no int; memory is taken to be unlimited.
unfoldable pub read_strings : Read (List Bytes)
read_strings = and_then read_varint λ l d. if ltb l (2 ^ 63) then read_each_string l [] d else panic

unfoldable pub read_uint8_entries : ℕ → List (ℕ × Bytes) → Read (List (ℕ × Bytes))
read_uint8_entries zero m = return m
read_uint8_entries (suc n) m =
    and_then read_uint8
      λ k. and_then read_string λ v. read_uint8_entries n (insert ℕ_discrete k v m)

unfoldable pub read_uint8_map : Read (List (ℕ × Bytes))
read_uint8_map = and_then read_uint8 λ l. read_uint8_entries l []

unfoldable pub read_all : Read Bytes
read_all d =
    if leb (length d.buf) d.pos
    then ok ([], d)
    else ok (drop d.pos d.buf, record d { pos = length d.buf })
