-- ===== src/Tests/Coder.antt =====
-- The codec at concrete inputs.
use native.Mathlib.Decide.{ℕ_discrete}
use cable.Prelude.{
  ℕ, zero, suc, ◌+◌, ◌-◌, ◌^◌, ◌≤◌, ◌↔◌, List, [], ◌∷◌, ◌++◌, ◌≡◌, refl, arith, replicate,
}
use cable.Prelude.Words.{negsuc, to_unsigned, to_signed}
use cable.Errors.{ok, err, panic, coder, varint_overflow}
use cable.GoMap.{Bytes, Bytes-discrete, insert}
use cable.Coder.Varint.{groups, append_uvarint, uvarint_loop, uvarint}
use cable.Coder.Encoder
use cable.Coder.Decoder
use cable.Coder.Decoder.{Decoder, new_decoder}
use cable.Coder.Bounds.{read_bytes_panic_iff}
use cable.Coder.Laws.{written, decoder_at}
use cable.Coder.Progress.{Method, call, Advances, call-Advances}

program : Unit {0}
unfolding groups append_uvarint uvarint_loop uvarint Encoder.new_encoder Encoder.pick
    Encoder.big_endian Encoder.write_uint8 Encoder.write_bytes Encoder.write_uint16
    Encoder.write_uint64 Encoder.write_varint Encoder.write_data Encoder.write_string
    Encoder.write_str_entries Encoder.write_str_map Encoder.write_each_string Encoder.write_strings
    Encoder.write_uint8_entries Encoder.write_uint8_map Encoder.write_int64 Decoder.new_decoder
    Decoder.read_bytes Decoder.read_uint8 Decoder.from_big_endian Decoder.read_uint16
    Decoder.read_uint64 Decoder.read_varint Decoder.read_data Decoder.read_string Decoder.rounds
    Decoder.read_str_entries Decoder.read_str_map Decoder.read_each_string Decoder.read_strings
    Decoder.read_uint8_entries Decoder.read_uint8_map Decoder.read_int64 to_unsigned to_signed
    insert Bytes-discrete ℕ_discrete call
program = tt

abbrev entries : List (Bytes × Bytes)
entries = (b'a' ∷ [], b'x' ∷ b'y' ∷ []) ∷ (b'b' ∷ [], []) ∷ []

str_map_bytes :
    written (Encoder.write_str_map entries) ≡ 2 ∷ 1 ∷ b'a' ∷ 2 ∷ b'x' ∷ b'y' ∷ 1 ∷ b'b' ∷ 0 ∷ []
unfolding program
str_map_bytes = refl

int64_bytes :
    written (Encoder.write_int64 (negsuc 1)) ≡ 255 ∷ 255 ∷ 255 ∷ 255 ∷ 255 ∷ 255 ∷ 255 ∷ 254 ∷ []
unfolding program
int64_bytes = refl

-- A length of 2 ^ 64 - 1 in ten bytes, at the start of a buffer.
abbrev wrapping : Bytes
wrapping = 255 ∷ 255 ∷ 255 ∷ 255 ∷ 255 ∷ 255 ∷ 255 ∷ 255 ∷ 255 ∷ 1 ∷ []

wrapping_panics : Decoder.read_data (new_decoder wrapping) ≡ panic
unfolding program
wrapping_panics = refl

eleven_bytes :
    Decoder.read_varint (new_decoder (replicate 10 128 ++ 1 ∷ [])) ≡ err (coder varint_overflow)
unfolding program
eleven_bytes = refl

-- A map of 2 ^ 63 entries reads as an empty one.
huge_map :
    Decoder.read_str_map (new_decoder (replicate 9 128 ++ 1 ∷ []))
    ≡ ok ([], decoder_at 10 (replicate 9 128 ++ 1 ∷ []))
unfolding program
huge_map = refl

-- 256 properties, under the keys from 0 on.
abbrev props_from : ℕ → List (ℕ × Bytes)
props_from zero = []
props_from (suc n) = (n, []) ∷ props_from n

-- Ten bytes have been read, and 2 ^ 64 - 1 are to follow.
read_bytes_panic_iff_example :
    (Decoder.read_bytes (2 ^ 64 - 1) (decoder_at 10 wrapping) ≡ panic)
    ↔ (2 ^ 64 ≤ 10 + (2 ^ 64 - 1))
read_bytes_panic_iff_example =
    read_bytes_panic_iff (2 ^ 64 - 1) (decoder_at 10 wrapping)
      (record { within = omega arith; bounded = omega arith }) (omega arith)

call-Advances_example :
    Advances (decoder_at 0 (2 ∷ b'h' ∷ b'i' ∷ 7 ∷ [])) (decoder_at 3 (2 ∷ b'h' ∷ b'i' ∷ 7 ∷ []))
unfolding program
call-Advances_example =
    call-Advances Method.string (decoder_at 0 (2 ∷ b'h' ∷ b'i' ∷ 7 ∷ []))
      (decoder_at 3 (2 ∷ b'h' ∷ b'i' ∷ 7 ∷ [])) (b'h' ∷ b'i' ∷ [])
      (record { within = omega arith; bounded = omega arith }) refl
