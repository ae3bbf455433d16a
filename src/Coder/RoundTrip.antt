-- ===== src/Coder/RoundTrip.antt =====
-- What `encoder` writes, `decoder` reads back. `RoundTrips w r a` says so of a write and a read with
-- anything before and behind; it is closed under sequencing, so a packet's fields chain up.
use mathlib.Core.Path.{ap₂, subst, fun_ext}
use native.Mathlib.Nat.{mod-eq_of_lt}
use cable.Prelude.{
  ℕ, ◌+◌, ◌%◌, ◌^◌, ◌<◌, List, [], ◌∷◌, ◌++◌, ◌≡◌, refl, sym, ap, ◌∙◌, arith, length, get_elem?,
  take, drop, append-nil, append_assoc, length-append, drop-length-append, take-length-append,
  le→ltb,
}
use mathlib.Core.Option.{some}
use cable.Coder.Bounds.{read_bytes_within}
use cable.Prelude.Words.{IsU16, IsU32, IsU64}
use cable.Errors.{ok}
use cable.GoMap.{Bytes}
use cable.Coder.Varint.{append_uvarint, uvarint-append_uvarint, append_uvarint-append}
use cable.Coder.Encoder
use cable.Coder.Encoder.{Encoder, big_endian}
use cable.Coder.Decoder
use cable.Coder.Decoder.{Decoder, Read, and_then, return, from_big_endian}

-- A decoder that has read `pre` and has `rest` before it.
abbrev pub at : Bytes → Bytes → Decoder
at pre rest = record { pos = length pre; buf = pre ++ rest }

abbrev pub Writes : (Encoder → Encoder) → Bytes → Type 0
Writes w bs = (e : Encoder) → w e ≡ record { buf = e.buf ++ bs }

-- A Go slice is shorter than `2 ^ 63`.
abbrev pub Reads {ℓ} : {A : Type ℓ} → Read A → Bytes → A → Type ℓ
Reads r bs a =
    (pre rest : Bytes)
    → length (pre ++ bs ++ rest) < 2 ^ 63
    → r (at pre (bs ++ rest)) ≡ ok (a, at (pre ++ bs) rest)

pub record RoundTrips {ℓ} {A : Type ℓ} (w : Encoder → Encoder) (r : Read A) (a : A) : Type ℓ where
  pub bytes : Bytes
  pub writes : Writes w bytes
  pub reads : Reads r bytes a

pub return_trip {ℓ} : {A : Type ℓ} (a : A) → RoundTrips (λ e. e) (return a) a
return_trip a = record {
  bytes = [];
  writes = λ e. rw append-nil;
  reads = λ pre rest h. rw append-nil;
}

pub Reads-then {ℓ κ} :
    {A : Type ℓ} {B : Type κ} (r : Read A) (k : A → Read B) (a : A) (b : B) (bs cs : Bytes)
    → Reads r bs a
    → Reads (k a) cs b
    → Reads (and_then r k) (bs ++ cs) b
Reads-then r k a b bs cs first second pre rest h =
    let h' : length (pre ++ bs ++ cs ++ rest) < 2 ^ 63 = rw (append_assoc pre bs cs) h in
    rw (append_assoc bs cs rest) (
      rw (first pre (cs ++ rest) (rw (← append_assoc (pre ++ bs) cs rest) h'), and_then)
        (second (pre ++ bs) rest h' ∙ rw (append_assoc pre bs cs)))

pub Reads-map {ℓ κ} :
    {A : Type ℓ} {B : Type κ} (r : Read A) (f : A → B) (a : A) (bs : Bytes)
    → Reads r bs a
    → Reads (and_then r λ x. return (f x)) bs (f a)
Reads-map r f a bs h pre rest fits = rw (h pre rest fits, and_then)

pub then_trip {ℓ κ} :
    {A : Type ℓ} {B : Type κ} {r : Read A} (k : A → Read B) {a : A} {b : B}
    {w v : Encoder → Encoder}
    → RoundTrips w r a
    → RoundTrips v (k a) b
    → RoundTrips (λ e. v (w e)) (and_then r k) b
then_trip {r} k {a} {b} s t = record {
  bytes = s.bytes ++ t.bytes;
  writes = λ e. rw (s.writes e, t.writes _, append_assoc);
  reads = Reads-then r k a b s.bytes t.bytes s.reads t.reads;
}

-- The middle of a buffer.
slice_middle :
    (pre bs rest : Bytes) → take (length bs) (drop (length pre) (pre ++ (bs ++ rest))) ≡ bs
slice_middle pre bs rest = rw (drop-length-append pre (bs ++ rest)) (take-length-append bs rest)

pub read_bytes-at : (bs : Bytes) → Reads (Decoder.read_bytes (length bs)) bs bs
read_bytes-at bs pre rest h =
    let total : length (pre ++ (bs ++ rest)) ≡ length pre + length bs + length rest =
      omega (arith, length-append pre (bs ++ rest), length-append bs rest) in
    let whole = length-append (pre ++ bs) rest in
    let half = length-append pre bs in
    rw
      (
        read_bytes_within (length bs) (at pre (bs ++ rest)) (omega arith) (omega arith),
        slice_middle pre bs rest,
      )
      (ap₂ (λ n b. ok (bs, record { pos = n; buf = b })) (sym half)
        (sym (append_assoc pre bs rest)))

pub bytes_trip : (p : Bytes) → RoundTrips (Encoder.write_bytes p) (Decoder.read_bytes (length p)) p
unfolding Encoder.write_bytes
bytes_trip p = record { bytes = p; writes = λ e. refl; reads = read_bytes-at p }

get_elem?-length_append :
    (pre : Bytes) (i : ℕ) (rest : Bytes) → get_elem? (pre ++ (i ∷ rest)) (length pre) ≡ some i
get_elem?-length_append [] i rest = refl
get_elem?-length_append (x ∷ pre) i rest = get_elem?-length_append pre i rest

pub read_uint8-at : (i : ℕ) → Reads Decoder.read_uint8 (i ∷ []) i
unfolding Decoder.read_uint8
read_uint8-at i pre rest h = ground (
  arith,
  get_elem?-length_append pre i rest,
  length-append pre (i ∷ rest),
  length-append (pre ++ i ∷ []) rest,
  length-append pre (i ∷ []),
  append_assoc pre (i ∷ []) rest,
)

pub uint8_trip : (i : ℕ) → RoundTrips (Encoder.write_uint8 i) Decoder.read_uint8 i
unfolding Encoder.write_uint8
uint8_trip i = record { bytes = i ∷ []; writes = λ e. refl; reads = read_uint8-at i }

-- The three widths.
from_big_endian_two : (i : ℕ) → IsU16 i → from_big_endian 0 (big_endian 2 i) ≡ i
unfolding from_big_endian big_endian
from_big_endian_two i h = omega arith

from_big_endian_four : (i : ℕ) → IsU32 i → from_big_endian 0 (big_endian 4 i) ≡ i
unfolding from_big_endian big_endian
from_big_endian_four i h = omega arith

from_big_endian_eight : (i : ℕ) → IsU64 i → from_big_endian 0 (big_endian 8 i) ≡ i
unfolding from_big_endian big_endian
from_big_endian_eight i h = omega arith

-- A value computed from what was read.
pub map_trip {ℓ κ} :
    {A : Type ℓ} {B : Type κ} {r : Read A} (f : A → B) {a : A} {w : Encoder → Encoder}
    → RoundTrips w r a
    → RoundTrips w (and_then r λ x. return (f x)) (f a)
map_trip f s = record {
  bytes = s.bytes;
  writes = s.writes;
  reads = λ pre rest h. rw (s.reads pre rest h, and_then);
}

-- The same trip for a value that is equal.
pub trip-eq {ℓ} :
    {A : Type ℓ} {r : Read A} {a b : A} {w : Encoder → Encoder}
    → a ≡ b
    → RoundTrips w r a
    → RoundTrips w r b
trip-eq {r} {w} e s = subst (λ x. RoundTrips w r x) e s

big_endian_trip :
    (w : Encoder → Encoder) (n i : ℕ)
    → Writes w (big_endian n i)
    → length (big_endian n i) ≡ n
    → from_big_endian 0 (big_endian n i) ≡ i
    → RoundTrips w (and_then (Decoder.read_bytes n) λ bs. return (from_big_endian 0 bs)) i
big_endian_trip w n i writes len back = trip-eq back (
    map_trip (from_big_endian 0) (record {
      bytes = big_endian n i;
      writes = writes;
      reads = λ pre rest h. rw len at (read_bytes-at (big_endian n i) pre rest h);
    }))

pub uint16_trip : (i : ℕ) → IsU16 i → RoundTrips (Encoder.write_uint16 i) Decoder.read_uint16 i
unfolding Encoder.write_uint16 Decoder.read_uint16
uint16_trip i h =
    big_endian_trip _ 2 i (λ e. refl) (unfold big_endian in refl) (from_big_endian_two i h)

pub uint32_trip : (i : ℕ) → IsU32 i → RoundTrips (Encoder.write_uint32 i) Decoder.read_uint32 i
unfolding Encoder.write_uint32 Decoder.read_uint32
uint32_trip i h =
    big_endian_trip _ 4 i (λ e. refl) (unfold big_endian in refl) (from_big_endian_four i h)

pub uint64_trip : (i : ℕ) → IsU64 i → RoundTrips (Encoder.write_uint64 i) Decoder.read_uint64 i
unfolding Encoder.write_uint64 Decoder.read_uint64
uint64_trip i h =
    big_endian_trip _ 8 i (λ e. refl) (unfold big_endian in refl) (from_big_endian_eight i h)

pub read_varint-at : (v : ℕ) → IsU64 v → Reads Decoder.read_varint (append_uvarint [] v) v
unfolding Decoder.read_varint
read_varint-at v u pre rest h =
    let bs = append_uvarint [] v in
    let total : length (pre ++ (bs ++ rest)) ≡ length pre + length bs + length rest =
      omega (arith, length-append pre (bs ++ rest), length-append bs rest) in
    let whole = length-append (pre ++ bs) rest in
    let half = length-append pre bs in
    let wrap : (length pre + length bs) % 2 ^ 64 ≡ length pre + length bs =
      mod-eq_of_lt (omega arith) in
    rw
      (
        le→ltb (length (pre ++ (bs ++ rest))) (length pre) (omega arith),
        drop-length-append pre (bs ++ rest),
        uvarint-append_uvarint v rest u,
        wrap,
      )
      (ap₂ (λ n b. ok (v, record { pos = n; buf = b })) (sym half) (sym (append_assoc pre bs rest)))

pub varint_trip : (v : ℕ) → IsU64 v → RoundTrips (Encoder.write_varint v) Decoder.read_varint v
unfolding Encoder.write_varint
varint_trip v u = record {
  bytes = append_uvarint [] v;
  writes = λ e. ap (λ b. record { buf = b }) (append_uvarint-append e.buf v);
  reads = read_varint-at v u;
}

-- A length that fits a uint64.
abbrev pub IsSized {ℓ} : {A : Type ℓ} → List A → Type 0
IsSized xs = length xs < 2 ^ 63

write_data-eq :
    (p : Bytes) (e : Encoder)
    → Encoder.write_data p e ≡ Encoder.write_bytes p (Encoder.write_varint (length p) e)
unfolding Encoder.write_data Encoder.write_bytes
write_data-eq [] e = rw append-nil
write_data-eq (b ∷ p) e = ground arith

-- `WriteData` appends the length and the data.
pub write_data-append :
    (p : Bytes) (e : Encoder)
    → Encoder.write_data p e ≡ record { buf = e.buf ++ (append_uvarint [] (length p) ++ p) }
unfolding Encoder.write_bytes Encoder.write_varint
write_data-append p e =
    write_data-eq p e
    ∙ ap (λ b. record { buf = b })
        (ap (λ b. b ++ p) (append_uvarint-append e.buf (length p)) ∙ append_assoc e.buf _ p)

pub data_trip : (p : Bytes) → IsSized p → RoundTrips (Encoder.write_data p) Decoder.read_data p
unfolding Decoder.read_data
data_trip p h =
    rw (fun_ext (write_data-eq p))
      (then_trip Decoder.read_bytes (varint_trip (length p) (omega arith)) (bytes_trip p))

pub string_trip :
    (s : Bytes) → IsSized s → RoundTrips (Encoder.write_string s) Decoder.read_string s
unfolding Encoder.write_string Decoder.read_string
string_trip s h = data_trip s h
