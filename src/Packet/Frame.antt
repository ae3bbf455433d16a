-- ===== src/Packet/Frame.antt =====
-- `Marshal`, `Unmarshal` and `unpack` of packet/packet.go: the frame around a packet's body. A frame
-- starts with the packet's type (4 bits), the number of extra length bytes (2 bits) and the length
-- of the body (10 bits, or 18, 26 or 34 with the extra bytes), the highest byte first.
use Prim.Native.Nat.{bit_and, bit_or}
use cable.Prelude.{
  ℕ, ◌-◌, ◌*◌, ◌/◌, ◌%◌, ◌^◌, [], ◌∷◌, if◌then◌else◌, leb, ◌==◌, length, drop, set, replicate,
}
use cable.Errors.{Result, ok, err, panic, ◌>>=◌, packet, unknown_packet_type, packet_size_too_large}
use cable.GoMap.{Bytes}
use cable.Coder.Encoder
use cable.Coder.Decoder
use cable.Coder.Decoder.{Read, and_then, return}
use cable.Packet.Types.{Packet, type_code, packet_type}
use cable.Packet.Body.{
  read_props, read_connect, read_connack, read_message, read_request, read_response, read_close,
  write_to,
}

abbrev pub mid_len_1 : ℕ
mid_len_1 = 0x3ff

abbrev pub mid_len_2 : ℕ
mid_len_2 = 0x3_ffff

abbrev pub mid_len_3 : ℕ
mid_len_3 = 0x3_ffff_ff

abbrev pub max_len : ℕ
max_len = 0x3_ffff_ffff

-- `byte(n >> 8*k)`
abbrev pub byte_of : ℕ → ℕ → ℕ
byte_of n k = n / 256 ^ k % 256

-- `byte(p.Type()<<4)`
abbrev pub type_bits : ℕ → ℕ
type_bits t = t * 16 % 256

-- The header that `Marshal` writes over the five bytes in front of the body. `t` is the type.
unfoldable pub put_header : ℕ → ℕ → Bytes → Result Bytes
put_header t n buf =
    if leb n mid_len_1
    then ok (drop 3 (set (set buf 3 (bit_or (type_bits t) (byte_of n 1))) 4 (byte_of n 0)))
    else if leb n mid_len_2
    then ok (
        drop 2 (
          set
            (set (set buf 2 (bit_or (bit_or (type_bits t) (1 * 4)) (byte_of n 2))) 3 (byte_of n 1))
            4 (byte_of n 0)))
    else if leb n mid_len_3
    then ok (
        drop 1 (
          set
            (set
              (set (set buf 1 (bit_or (bit_or (type_bits t) (2 * 4)) (byte_of n 3))) 2
                (byte_of n 2))
              3 (byte_of n 1))
            4 (byte_of n 0)))
    else if leb n max_len
    then ok (
        set
          (set
            (set
              (set (set buf 0 (bit_or (bit_or (type_bits t) (3 * 4)) (byte_of n 4))) 1
                (byte_of n 3))
              2 (byte_of n 2))
            3 (byte_of n 1))
          4 (byte_of n 0))
    else err (packet packet_size_too_large)

unfoldable pub marshal : Packet → Result Bytes
marshal p =
    let ec = Encoder.write_bytes (replicate 5 0) Encoder.new_encoder in
    let bytes = Encoder.pick (write_to p ec) in
    put_header (type_code (packet_type p)) (length bytes - 5) bytes

-- `coder.Unmarshal(data, &T{})`, as the interface value.
unfoldable pub decode {ℓ} : {A : Type ℓ} → Read A → (A → Packet) → Bytes → Result Packet
decode r wrap bytes = do (a, d) ← r (Decoder.new_decoder bytes); ok (wrap a)

-- `unpack`, from the first byte of the header.
unfoldable pub unpack : ℕ → Bytes → Result Packet
unpack first bytes =
    let t = first / 16 in
    if t == 0
    then decode read_connect Packet.connect bytes
    else if t == 1
    then decode read_connack Packet.connack bytes
    else if t == 2
    then decode read_message Packet.message bytes
    else if t == 3
    then decode read_request Packet.request bytes
    else if t == 4
    then decode read_response Packet.response bytes
    else if t == 5
    then decode read_props (λ props. Packet.ping (record { props = props })) bytes
    else if t == 6
    then decode read_props (λ props. Packet.pong (record { props = props })) bytes
    else if t == 7
    then decode read_close Packet.close bytes
    else err (packet unknown_packet_type)

-- `length = length<<8 | uint64(b)` for each extra byte.
unfoldable pub extend_length : ℕ → Bytes → ℕ
extend_length n [] = n
extend_length n (b ∷ bs) = extend_length (bit_or (n * 2 ^ 8) b) bs

-- `(header[0] >> 2) & 0x03`
abbrev pub extra_bytes : ℕ → ℕ
extra_bytes first = bit_and (first / 4) 0x03

-- `uint64(header[0]&0x03)<<8 | uint64(header[1])`
abbrev pub short_length : ℕ → ℕ → ℕ
short_length first second = bit_or (bit_and first 0x03 * 2 ^ 8) second

-- The reads behind the two bytes of the header; a read of no bytes gives none.
unfoldable pub read_frame : ℕ → ℕ → Read (ℕ × Bytes)
read_frame first second = and_then (Decoder.read_bytes (extra_bytes first)) λ bs.
    and_then (Decoder.read_bytes (extend_length (short_length first second) bs))
      λ body. return (first, body)

-- `header[0]` and `header[1]` of a slice of two bytes.
unfoldable pub read_header : Bytes → Read (ℕ × Bytes)
read_header (first ∷ second ∷ _) = read_frame first second
read_header _ = λ d. panic

unfoldable pub unmarshal : Bytes → Result Packet
unmarshal bytes = do
  (frame, d) ← and_then (Decoder.read_bytes 2) read_header (Decoder.new_decoder bytes)
  unpack frame.0 frame.1
