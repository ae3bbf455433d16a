-- ===== src/Coder/Encoder.antt =====
-- `encoder` of coder/coder.go. The state is `buf`; each write appends to it. `NewEncoder` hands out
-- an encoder whose `buf` is empty (coder/poll.go makes it so, and `free` empties it before it goes
-- back to the pool), and `Pick` returns a copy of `buf`.
use cable.Prelude.{
  ℕ, zero, suc, ◌/◌, ◌%◌, ◌^◌, Bool, List, [], ◌∷◌, ◌++◌, if◌then◌else◌, ltb, length,
}
use cable.Prelude.Words.{ℤ, to_unsigned}
use cable.GoMap.{Bytes}
use cable.Coder.Varint.{append_uvarint}

pub record Encoder : Type 0 where
  pub buf : Bytes

-- `binary.BigEndian.AppendUint16` and the like: `n` bytes of `i`, the highest first.
unfoldable pub big_endian : ℕ → ℕ → Bytes
big_endian zero i = []
big_endian (suc n) i = i / 256 ^ n % 256 ∷ big_endian n i

-- `NewEncoder`
unfoldable pub new_encoder : Encoder
new_encoder = record { buf = [] }

unfoldable pub pick : Encoder → Bytes
pick e = e.buf

unfoldable pub write_bytes : Bytes → Encoder → Encoder
write_bytes p e = record { buf = e.buf ++ p }

unfoldable pub write_uint8 : ℕ → Encoder → Encoder
write_uint8 i e = record { buf = e.buf ++ i ∷ [] }

unfoldable pub write_uint16 : ℕ → Encoder → Encoder
write_uint16 i e = record { buf = e.buf ++ big_endian 2 i }

unfoldable pub write_uint32 : ℕ → Encoder → Encoder
write_uint32 i e = record { buf = e.buf ++ big_endian 4 i }

unfoldable pub write_uint64 : ℕ → Encoder → Encoder
write_uint64 i e = record { buf = e.buf ++ big_endian 8 i }

unfoldable pub write_bool : Bool → Encoder → Encoder
write_bool b e = if b then write_uint8 1 e else write_uint8 0 e

unfoldable pub write_int8 : ℤ → Encoder → Encoder
write_int8 i e = write_uint8 (to_unsigned (2 ^ 8) i) e

unfoldable pub write_int16 : ℤ → Encoder → Encoder
write_int16 i e = write_uint16 (to_unsigned (2 ^ 16) i) e

unfoldable pub write_int32 : ℤ → Encoder → Encoder
write_int32 i e = write_uint32 (to_unsigned (2 ^ 32) i) e

unfoldable pub write_int64 : ℤ → Encoder → Encoder
write_int64 i e = write_uint64 (to_unsigned (2 ^ 64) i) e

unfoldable pub write_varint : ℕ → Encoder → Encoder
write_varint i e = record { buf = append_uvarint e.buf i }

unfoldable pub write_data : Bytes → Encoder → Encoder
write_data p e =
    let e' = write_varint (length p) e in if ltb 0 (length p) then write_bytes p e' else e'

unfoldable pub write_string : Bytes → Encoder → Encoder
write_string s e = write_data s e

-- `for k, v := range m`, in the order of the list.
unfoldable pub write_str_entries : List (Bytes × Bytes) → Encoder → Encoder
write_str_entries [] e = e
write_str_entries ((k, v) ∷ m) e = write_str_entries m (write_string v (write_string k e))

unfoldable pub write_str_map : List (Bytes × Bytes) → Encoder → Encoder
write_str_map m e = write_str_entries m (write_varint (length m) e)

unfoldable pub write_each_string : List Bytes → Encoder → Encoder
write_each_string [] e = e
write_each_string (s ∷ ss) e = write_each_string ss (write_string s e)

unfoldable pub write_strings : List Bytes → Encoder → Encoder
write_strings ss e = write_each_string ss (write_varint (length ss) e)

unfoldable pub write_uint8_entries : List (ℕ × Bytes) → Encoder → Encoder
write_uint8_entries [] e = e
write_uint8_entries ((k, v) ∷ m) e = write_uint8_entries m (write_string v (write_uint8 k e))

-- `uint8(len(m))` keeps the lowest eight bits of the length.
unfoldable pub write_uint8_map : List (ℕ × Bytes) → Encoder → Encoder
write_uint8_map m e = write_uint8_entries m (write_uint8 (length m % 256) e)
