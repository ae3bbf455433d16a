-- ===== src/Tests/Packet.antt =====
-- Frames at concrete inputs.
use native.Mathlib.Decide.{ℕ_discrete}
use cable.Prelude.{
  ℕ, ◌+◌, replicate, length-append, zero, suc, ◌-◌, ◌^◌, [], ◌∷◌, ◌++◌, ◌≡◌, refl, ap, arith,
  length, take, drop, length-take, take-length-append, drop-length-append,
}
use cable.Errors.{Error, Result, ok, err, panic, packet, unknown_packet_type}
use cable.GoMap.{Bytes, insert}
use cable.Coder.Varint.{groups, append_uvarint, uvarint_loop, uvarint}
use cable.Coder.Encoder
use cable.Coder.Decoder
use cable.Packet.Types.{Packet, packet_type, type_code}
use cable.Packet.Body.{
  write_props, read_props, write_identity, read_identity, write_connect, read_connect,
  write_message, read_message, write_to,
}
use cable.Packet.BodyTrip.{IsSendable}
use cable.Packet.Frame.{
  put_header, marshal, decode, unpack, extend_length, read_frame, read_header, unmarshal,
}
use cable.Packet.Header.{header, extra_count, second_and_extra}
use cable.Packet.RoundTrip.{unmarshal-marshal}
use cable.Packet.Hostile.{connect_body, unmarshal_panics}
use cable.Packet.Stream.{Reader, read_from, read_into, read_length, read_body, read_behind}
use cable.Packet.StreamTrip.{FullReader, read_from-marshal, read_from_short}

program : Unit {0}
unfolding groups append_uvarint uvarint_loop uvarint Encoder.new_encoder Encoder.pick
    Encoder.big_endian Encoder.write_uint8 Encoder.write_bytes Encoder.write_varint
    Encoder.write_data Encoder.write_string Encoder.write_uint8_entries Encoder.write_uint8_map
    Decoder.new_decoder Decoder.read_bytes Decoder.read_uint8 Decoder.read_varint Decoder.read_data
    Decoder.read_string Decoder.read_uint8_entries Decoder.read_uint8_map Decoder.read_all insert
    ℕ_discrete write_props read_props write_identity read_identity write_connect read_connect
    write_message read_message write_to packet_type type_code put_header marshal decode unpack
    extend_length read_frame read_header unmarshal header extra_count second_and_extra read_from
    read_into read_length read_body read_behind
program = tt

-- A message "hi" of kind 7 to the channel "c" (property 2).
abbrev hello : Packet
hello =
    Packet.message (record { props = (2, b'c' ∷ []) ∷ []; kind = 7; payload = b'h' ∷ b'i' ∷ [] })

abbrev hello_frame : Bytes
hello_frame = 32 ∷ 7 ∷ 7 ∷ 1 ∷ 2 ∷ 1 ∷ b'c' ∷ b'h' ∷ b'i' ∷ []

marshal-hello : marshal hello ≡ ok hello_frame
unfolding program
marshal-hello = refl

unmarshal-hello : unmarshal (hello_frame ++ 1 ∷ 2 ∷ []) ≡ ok hello
unfolding program
unmarshal-hello = refl

-- Type 9 in the first byte.
unmarshal_unknown : unmarshal (144 ∷ 0 ∷ []) ≡ err (packet unknown_packet_type)
unfolding program
unmarshal_unknown = refl

hello-IsSendable : IsSendable hello
unfolding IsSendable
hello-IsSendable = record { few = omega arith; sized = omega arith; distinct = (tt, tt) }

unmarshal-marshal_example : unmarshal (hello_frame ++ 1 ∷ 2 ∷ []) ≡ ok hello
unmarshal-marshal_example =
    unmarshal-marshal hello hello_frame (1 ∷ 2 ∷ []) hello-IsSendable marshal-hello (omega arith)

wrap_is_ten : length (append_uvarint [] (2 ^ 64 - 1)) ≡ 10
unfolding program
wrap_is_ten = refl

unmarshal_panics_example :
    unmarshal (header 0 (length (connect_body 1 (2 ^ 64 - 1) [])) ++ connect_body 1 (2 ^ 64 - 1) [])
    ≡ panic
unmarshal_panics_example =
    unmarshal_panics 1 (2 ^ 64 - 1) [] (omega arith) (omega (arith, wrap_is_ten))
      (omega (arith, wrap_is_ten, append_nil_length))
  where
    append_nil_length : length (append_uvarint [] (2 ^ 64 - 1) ++ []) ≡ 10
    append_nil_length = unfold program in refl

length-replicate : (n : ℕ) → length {A = ℕ} (replicate n 0) ≡ n
length-replicate zero = refl
length-replicate (suc n) = ap suc (length-replicate n)

-- The stream that is a list of bytes, read as far as it goes.
list_read : ℕ → Bytes → Result ((Bytes × Bytes) × Bytes)
list_read n s = ok ((take n s, replicate (n - length s) 0), drop n s)

list_keeps_size :
    (n : ℕ) (s s' : Bytes) (bs scratch : Bytes)
    → list_read n s ≡ ok ((bs, scratch), s')
    → length bs + length scratch ≡ n
unfolding list_read
list_keeps_size n s s' bs scratch e =
    ground (arith, length-take n s, length-replicate (n - length s))

abbrev list_reader : Reader Bytes
list_reader = record { read = list_read; keeps_size = list_keeps_size }

list_fills :
    (bs rest : Bytes) (s : Bytes)
    → s ≡ bs ++ rest
    → (s' : Bytes) × (list_read (length bs) s ≡ ok ((bs, []), s')) × (s' ≡ rest)
unfolding list_read
list_fills bs rest s e =
    let none_left : length bs - length (bs ++ rest) ≡ 0 = omega (arith, length-append bs rest) in
    (rest, rw (e, take-length-append bs rest, drop-length-append bs rest, none_left), refl)

abbrev full : FullReader Bytes
full = record { reader = list_reader; contents = λ s. s; fills = list_fills }

read_from-marshal_example :
    (s' : Bytes) × (read_from list_reader (hello_frame ++ 1 ∷ 2 ∷ []) ≡ ok (hello, s'))
    × (s' ≡ 1 ∷ 2 ∷ [])
read_from-marshal_example =
    read_from-marshal full hello hello_frame (1 ∷ 2 ∷ []) (hello_frame ++ 1 ∷ 2 ∷ [])
      hello-IsSendable marshal-hello refl

-- A reader that returns one byte at a time, and leaves the rest of the slice as it was.
slow_read : ℕ → Bytes → Result ((Bytes × Bytes) × Bytes)
slow_read zero s = ok (([], []), s)
slow_read (suc n) [] = ok (([], replicate (suc n) 0), [])
slow_read (suc n) (b ∷ s) = ok ((b ∷ [], replicate n 0), s)

slow_keeps_size :
    (n : ℕ) (s s' : Bytes) (bs scratch : Bytes)
    → slow_read n s ≡ ok ((bs, scratch), s')
    → length bs + length scratch ≡ n
unfolding slow_read
slow_keeps_size zero s s' bs scratch e = ground arith
slow_keeps_size (suc n) [] s' bs scratch e = ground (arith, length-replicate (suc n))
slow_keeps_size (suc n) (b ∷ s) s' bs scratch e = ground (arith, length-replicate n)

abbrev slow_reader : Reader Bytes
slow_reader = record { read = slow_read; keeps_size = slow_keeps_size }

read_from_short_example : (e : Error) × (read_from slow_reader hello_frame ≡ err e)
unfolding slow_read
read_from_short_example =
    read_from_short slow_reader 32 hello_frame (7 ∷ 7 ∷ 1 ∷ 2 ∷ 1 ∷ b'c' ∷ b'h' ∷ b'i' ∷ []) refl
      (omega arith) refl
