-- ===== src/Coder/Laws.antt =====
-- The round trips of coder/coder.go, from an empty encoder to a fresh decoder, and the two inputs on
-- which they break: a length that wraps around, and a map of 256 properties.
use cable.Prelude.{
  ℕ, ◌+◌, ◌%◌, ◌^◌, ◌≤◌, ◌<◌, ◌≡◌, ap, ◌∙◌, List, [], ◌∷◌, ◌++◌, length, All, arith, append_assoc,
  append-nil, length-append,
}
use cable.Prelude.Words.{IsU64, ℤ, Fits}
use cable.Errors.{ok, panic}
use cable.GoMap.{Bytes, Bytes-discrete, Distinct}
use cable.Coder.Varint.{append_uvarint}
use cable.Coder.Encoder
use cable.Coder.Encoder.{Encoder}
use cable.Coder.Decoder
use cable.Coder.Decoder.{Decoder, Read, and_then, return, new_decoder}
use cable.Coder.Bounds.{IsValid, read_bytes_panic_iff}
use cable.Coder.RoundTrip.{at, RoundTrips, IsSized, write_data-append, varint_trip, read_varint-at}
use cable.Coder.Collections.{str_map_trip, strings_trip, int64_trip, EntrySized}

-- The bytes that a write puts into a new encoder.
abbrev pub written : (Encoder → Encoder) → Bytes
written w = Encoder.pick (w Encoder.new_encoder)

-- The decoder behind the first `n` bytes of a buffer.
abbrev pub decoder_at : ℕ → Bytes → Decoder
decoder_at n buf = record { pos = n; buf = buf }

fresh_trip {ℓ} :
    {A : Type ℓ} {w : Encoder → Encoder} {r : Read A} {a : A}
    → RoundTrips w r a
    → (rest : Bytes) → length (written w ++ rest) < 2 ^ 63
    → r (new_decoder (written w ++ rest))
      ≡ ok (a, decoder_at (length (written w)) (written w ++ rest))
unfolding Encoder.pick Encoder.new_encoder new_decoder
fresh_trip {w} s rest room =
    let e = s.writes (record { buf = [] }) in rw e (s.reads [] rest (rw e at room))

-- A varint of 64 bits reads back, whatever follows it.
pub read_varint-write_varint :
    (v : ℕ) (rest : Bytes)
    → IsU64 v
    → length (written (Encoder.write_varint v) ++ rest) < 2 ^ 63
    → Decoder.read_varint (new_decoder (written (Encoder.write_varint v) ++ rest))
      ≡ ok (
        v,
        decoder_at
            (length (written (Encoder.write_varint v)))
            (written (Encoder.write_varint v) ++ rest),
      )
read_varint-write_varint v rest u room = fresh_trip (varint_trip v u) rest room

-- A signed integer of 64 bits, negative ones included, reads back.
pub read_int64-write_int64 :
    (i : ℤ) (rest : Bytes)
    → Fits (2 ^ 63) i
    → length (written (Encoder.write_int64 i) ++ rest) < 2 ^ 63
    → Decoder.read_int64 (new_decoder (written (Encoder.write_int64 i) ++ rest))
      ≡ ok (
        i,
        decoder_at
            (length (written (Encoder.write_int64 i)))
            (written (Encoder.write_int64 i) ++ rest),
      )
read_int64-write_int64 i rest h room = fresh_trip (int64_trip i h) rest room

-- A map of strings, under distinct keys, reads back with the same entries, in the order in which it was
-- written, and leaves what follows it. Map, strings and buffer are shorter than 2^63.
pub read_str_map-write_str_map :
    (m : List (Bytes × Bytes)) (rest : Bytes)
    → IsSized m
    → All EntrySized m
    → Distinct Bytes-discrete m
    → length (written (Encoder.write_str_map m) ++ rest) < 2 ^ 63
    → Decoder.read_str_map (new_decoder (written (Encoder.write_str_map m) ++ rest))
      ≡ ok (
        m,
        decoder_at
            (length (written (Encoder.write_str_map m)))
            (written (Encoder.write_str_map m) ++ rest),
      )
read_str_map-write_str_map m rest h hs d room = fresh_trip (str_map_trip m h hs d) rest room

-- A list of strings reads back, and leaves what follows it. List, strings and buffer are shorter than
-- 2^63.
pub read_strings-write_strings :
    (ss : List Bytes) (rest : Bytes)
    → IsSized ss
    → All IsSized ss
    → length (written (Encoder.write_strings ss) ++ rest) < 2 ^ 63
    → Decoder.read_strings (new_decoder (written (Encoder.write_strings ss) ++ rest))
      ≡ ok (
        ss,
        decoder_at
            (length (written (Encoder.write_strings ss)))
            (written (Encoder.write_strings ss) ++ rest),
      )
read_strings-write_strings ss rest h hs room = fresh_trip (strings_trip ss h hs) rest room

-- The reads of a length prefix `l` that wraps around behind `pre`.
pub read_data-at_panic :
    (pre : Bytes) (l : ℕ) (rest : Bytes)
    → IsU64 l
    → 2 ^ 64 ≤ length (pre ++ append_uvarint [] l) + l
    → length (pre ++ append_uvarint [] l ++ rest) < 2 ^ 63
    → Decoder.read_data (at pre (append_uvarint [] l ++ rest)) ≡ panic
unfolding Decoder.read_data
read_data-at_panic pre l rest u wraps room =
    let behind = at (pre ++ append_uvarint [] l) rest in
    let within = length-append (pre ++ append_uvarint [] l) rest in
    let valid : IsValid behind = record { within = omega arith; bounded = room } in
    rw (read_varint-at l u pre rest room, and_then)
      ((read_bytes_panic_iff l behind valid u).1 wraps)

entries_keep :
    (m : List (ℕ × Bytes)) (e : Encoder)
    → (bs : Bytes) × (Encoder.write_uint8_entries m e ≡ record { buf = e.buf ++ bs })
unfolding Encoder.write_uint8_entries Encoder.write_uint8 Encoder.write_string
entries_keep [] e = ([], rw append-nil)
entries_keep ((k, v) ∷ m) e =
    let e' = Encoder.write_string v (Encoder.write_uint8 k e) in
    let (bs, kept) = entries_keep m e' in
    let entry = k ∷ (append_uvarint [] (length v) ++ v) in
    (
      entry ++ bs,
      kept
          ∙ ap (λ b. record { buf = b })
              (ap (λ x. x.buf ++ bs) (write_data-append v (Encoder.write_uint8 k e))
                ∙ rw (append_assoc e.buf (k ∷ []) _) (append_assoc e.buf entry bs)),
    )

read_uint8_map-zero :
    (bs : Bytes) → Decoder.read_uint8_map (new_decoder (0 ∷ bs)) ≡ ok ([], decoder_at 1 (0 ∷ bs))
unfolding Decoder.read_uint8_map Decoder.read_uint8 Decoder.read_uint8_entries new_decoder
read_uint8_map-zero bs = ground arith

written-zero :
    (m : List (ℕ × Bytes))
    → length m % 256 ≡ 0
    → (bs : Bytes) × (written (Encoder.write_uint8_map m) ≡ 0 ∷ bs)
unfolding Encoder.write_uint8_map Encoder.write_uint8 Encoder.pick Encoder.new_encoder
written-zero m none =
    let (bs, kept) = entries_keep m (record { buf = 0 ∷ [] }) in
    (bs, rw none (ap (λ e. e.buf) kept))

-- A map with as many entries as make `uint8(len(m))` 0 (256, for one) reads back with none: all its
-- entries are left unread behind the count.
pub read_uint8_map_lossy :
    (m : List (ℕ × Bytes))
    → length m % 256 ≡ 0
    → Decoder.read_uint8_map (new_decoder (written (Encoder.write_uint8_map m)))
      ≡ ok ([], decoder_at 1 (written (Encoder.write_uint8_map m)))
read_uint8_map_lossy m none =
    let (bs, whole) = written-zero m none in rw whole (read_uint8_map-zero bs)
