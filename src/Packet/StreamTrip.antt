-- ===== src/Packet/StreamTrip.antt =====
-- Packets over a stream: in order and in step with a reader that fills its slices, out of step with
-- one that does not.
use Prim.Native.Nat.{bit_and}
use cable.Prelude.Bits.{bit_or_disjoint, bit_and_three}
use cable.Prelude.{
  ℕ, ◌==◌, if_elim, ◌/◌, ◌%◌, ◌<◌, ◌≡◌, refl, ap, ◌∙◌, [], ◌∷◌, ◌++◌, length, arith, append-nil,
  append_assoc, inl, inr,
}
use cable.Errors.{Error, Result, ok, err}
use cable.Coder.Decoder
use cable.Coder.Varint.{uvarint, uvarint_loop}
use cable.Packet.Body.{
  read_connect, read_connack, read_message, read_request, read_response, read_close, read_props,
  read_identity,
}
use cable.GoMap.{Bytes}
use cable.Packet.Types.{Packet, packet_type, type_code}
use cable.Packet.Frame.{extra_bytes, short_length, extend_length, marshal, unpack, decode}
use cable.Packet.Header.{header, header_parts, extra_count-cases}
use cable.Packet.BodyTrip.{IsSendable}
use cable.Packet.RoundTrip.{body_of, marshal-cases, unpack-body_of, type_code-lt}
use cable.Packet.Stream.{Reader, read_into, read_length, read_body, read_behind, read_from}

-- A reader over a stream of bytes, `contents`, that returns as many as it is asked for.
pub record FullReader (S : Type 0) : Type 0 where
  pub reader : Reader S
  pub contents : S → Bytes
  pub fills :
      (bs rest : Bytes) (s : S)
      → contents s ≡ bs ++ rest
      → (s' : S) × (reader.read (length bs) s ≡ ok ((bs, []), s')) × (contents s' ≡ rest)

module _ {S : Type 0} (f : FullReader S) where
  open f use {reader, contents, fills}

  read_into-fills :
      (bs rest : Bytes) (s : S)
      → contents s ≡ bs ++ rest
      → (s' : S) × (read_into reader (length bs) s ≡ ok (bs, s')) × (contents s' ≡ rest)
  unfolding read_into
  read_into-fills bs rest s e =
      let (s', got, left) = fills bs rest s e in (s', rw got (rw append-nil), left)

  read_length-fills :
      (first second : ℕ) (extra rest : Bytes) (s : S)
      → extra_bytes first ≡ length extra
      → contents s ≡ extra ++ rest
      → (s' : S) × (read_length reader first second s
          ≡ ok (extend_length (short_length first second) extra, s'))
        × (contents s' ≡ rest)
  unfolding read_length extend_length
  read_length-fills first second [] rest s count e = (s, rw count, e)
  read_length-fills first second (b ∷ extra) rest s count e =
      let (s', got, left) = read_into-fills (b ∷ extra) rest s e in
      (s', rw (count, got) (ground arith), left)

  read_body-fills :
      (body rest : Bytes) (s : S)
      → contents s ≡ body ++ rest
      → (s' : S) × (read_body reader (length body) s ≡ ok (body, s')) × (contents s' ≡ rest)
  unfolding read_body
  read_body-fills [] rest s e = (s, refl, e)
  read_body-fills (b ∷ body) rest s e =
      let (s', got, left) = read_into-fills (b ∷ body) rest s e in (s', rw got (ground arith), left)

  -- The reads of `ReadFrom` on a frame with these header bytes.
  read_from-fills :
      (first second : ℕ) (extra body rest : Bytes) (p : Packet) (s : S)
      → extra_bytes first ≡ length extra
      → extend_length (short_length first second) extra ≡ length body
      → unpack first body ≡ ok p
      → contents s ≡ first ∷ second ∷ (extra ++ (body ++ rest))
      → (s' : S) × (read_from reader s ≡ ok (p, s')) × (contents s' ≡ rest)
  unfolding read_from read_behind
  read_from-fills first second extra body rest p s count size whole e =
      let (s1, got1, left1) = read_into-fills (first ∷ second ∷ []) (extra ++ (body ++ rest)) s e in
      let (s2, got2, left2) = read_length-fills first second extra (body ++ rest) s1 count left1 in
      let (s3, got3, left3) = read_body-fills body rest s2 left2 in
      (s3, rw (got1, got2, size, got3, whole), left3)

  -- From a reader that fills its slices `ReadFrom` takes exactly the frame of the next packet, and
  -- returns that packet.
  pub read_from-marshal :
      (p : Packet) (frame rest : Bytes) (s : S)
      → IsSendable p
      → marshal p ≡ ok frame
      → contents s ≡ frame ++ rest
      → (s' : S) × (read_from reader s ≡ ok (p, s')) × (contents s' ≡ rest)
  read_from-marshal p frame rest s h e whole = elim (marshal-cases p h) [
    | inl (fits, m) ↦
        let t = type_code (packet_type p) in
        let n = length (body_of p) in
        let (first, second, extra, parts, is_first, count, size) =
          header_parts t n (type_code-lt p) fits in
        let (hk, hhi) = extra_count-cases n fits in
        let unpacked : unpack first (body_of p) ≡ ok p =
          rw is_first (unpack-body_of p _ _ h hk hhi fits) in
        let is_frame : frame ≡ header t n ++ body_of p = cc in
        read_from-fills first second extra (body_of p) rest p s count size unpacked (
          whole
          ∙ rw (is_frame, parts)
              (ap (λ x. first ∷ second ∷ x) (append_assoc extra (body_of p) rest)))
    | inr (large, m) ↦ cc
  ]

-- Whatever its type, a packet is not decoded from an empty body.
Fails : Result Packet → Type 0
Fails r = (e : Error) × (r ≡ err e)

unpack-empty : (first : ℕ) → Fails (unpack first [])
unfolding unpack decode Fails read_connect read_connack read_message read_request read_response
    read_close read_props read_identity Decoder.new_decoder Decoder.read_bytes Decoder.read_uint8
    Decoder.read_uint16 Decoder.read_varint Decoder.read_data Decoder.read_string
    Decoder.read_uint8_map Decoder.read_all uvarint uvarint_loop
unpack-empty first =
    if_elim Fails (first / 16 == 0) _ _ (λ _. (_, refl))
      (λ _.
        if_elim Fails (first / 16 == 1) _ _ (λ _. (_, refl))
          (λ _.
            if_elim Fails (first / 16 == 2) _ _ (λ _. (_, refl))
              (λ _.
                if_elim Fails (first / 16 == 3) _ _ (λ _. (_, refl))
                  (λ _.
                    if_elim Fails (first / 16 == 4) _ _ (λ _. (_, refl))
                      (λ _.
                        if_elim Fails (first / 16 == 5) _ _ (λ _. (_, refl))
                          (λ _.
                            if_elim Fails (first / 16 == 6) _ _ (λ _. (_, refl))
                              (λ _.
                                if_elim Fails (first / 16 == 7) _ _ (λ _. (_, refl))
                                  (λ _. (_, refl)))))))))

module _ {S : Type 0} (r : Reader S) where
  -- A reader may return one byte of the two that the header takes, without an error, and leave 0 in the
  -- slice's other byte. Where that byte shows no extra bytes and no high bits of a length, `ReadFrom` then
  -- returns an error, whatever the type of the packet and whatever follows in the stream.
  pub read_from_short :
      (first : ℕ) (s s' : S)
      → r.read 2 s ≡ ok ((first ∷ [], 0 ∷ []), s')
      → first < 256
      → first % 16 ≡ 0
      → (e : Error) × (read_from r s ≡ err e)
  unfolding read_from read_into read_behind read_length read_body Fails
  read_from_short first s s' got byte low =
      let none : extra_bytes first ≡ 0 = omega (arith, bit_and_three (first / 4) (omega arith)) in
      let high : bit_and first 0x03 ≡ 0 = omega (arith, bit_and_three first byte) in
      let size : short_length first 0 ≡ 0 = rw high (bit_or_disjoint 8 0 0 (omega arith)) in
      let (e, failed) = unpack-empty first in (e, rw (got, none, size, failed) refl)
