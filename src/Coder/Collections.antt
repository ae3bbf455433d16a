-- ===== src/Coder/Collections.antt =====
-- Round trips of the remaining types of coder/coder.go: booleans, signed integers, lists and maps.
use native.Mathlib.Decide.{ℕ_discrete}
use mathlib.Core.Path.{subst}
use native.Mathlib.Nat.{mod-eq_of_lt}
use cable.Prelude.{
  ℕ, ◌+◌, ◌%◌, ◌^◌, ◌<◌, Bool, true, false, List, [], ◌∷◌, ◌++◌, ◌≡◌, sym, arith, length, All,
  append-nil, append_assoc, ◌==◌, lt→ltb,
}
use cable.Prelude.Words.{ℤ, Fits, to_unsigned, to_signed, to_signed-to_unsigned, to_unsigned-lt}
use cable.GoMap.{Bytes, Bytes-discrete, insert-Absent, Distinct, Distinct-Absent}
use cable.Coder.Encoder
use cable.Coder.Encoder.{Encoder}
use cable.Coder.Decoder
use cable.Coder.Decoder.{Read, and_then, return}
use cable.Coder.RoundTrip.{
  RoundTrips, IsSized, then_trip, return_trip, map_trip, trip-eq, uint8_trip, uint16_trip,
  uint32_trip, uint64_trip, varint_trip, string_trip,
}

pub bool_trip : (b : Bool) → RoundTrips (Encoder.write_bool b) Decoder.read_bool b
unfolding Encoder.write_bool Decoder.read_bool
bool_trip true = map_trip (λ i. i == 1) (uint8_trip 1)
bool_trip false = map_trip (λ i. i == 1) (uint8_trip 0)

signed_trip :
    (half : ℕ) {w : ℕ → Encoder → Encoder} {r : Read ℕ} (i : ℤ)
    → Fits half i
    → ((u : ℕ) → u < half + half → RoundTrips (w u) r u)
    → RoundTrips
        (w (to_unsigned (half + half) i))
        (and_then r λ u. return (to_signed (half + half) half u))
        i
signed_trip half i h trip =
    trip-eq (to_signed-to_unsigned half i h)
      (map_trip (to_signed (half + half) half) (trip _ (to_unsigned-lt half i h)))

pub int8_trip : (i : ℤ) → Fits (2 ^ 7) i → RoundTrips (Encoder.write_int8 i) Decoder.read_int8 i
unfolding Encoder.write_int8 Decoder.read_int8
int8_trip i h = signed_trip (2 ^ 7) {w = Encoder.write_uint8} i h (λ u _. uint8_trip u)

pub int16_trip : (i : ℤ) → Fits (2 ^ 15) i → RoundTrips (Encoder.write_int16 i) Decoder.read_int16 i
unfolding Encoder.write_int16 Decoder.read_int16
int16_trip i h = signed_trip (2 ^ 15) {w = Encoder.write_uint16} i h uint16_trip

pub int32_trip : (i : ℤ) → Fits (2 ^ 31) i → RoundTrips (Encoder.write_int32 i) Decoder.read_int32 i
unfolding Encoder.write_int32 Decoder.read_int32
int32_trip i h = signed_trip (2 ^ 31) {w = Encoder.write_uint32} i h uint32_trip

pub int64_trip : (i : ℤ) → Fits (2 ^ 63) i → RoundTrips (Encoder.write_int64 i) Decoder.read_int64 i
unfolding Encoder.write_int64 Decoder.read_int64
int64_trip i h = signed_trip (2 ^ 63) {w = Encoder.write_uint64} i h uint64_trip

each_string_trip :
    (ss acc : List Bytes)
    → All IsSized ss
    → RoundTrips
        (Encoder.write_each_string ss)
        (Decoder.read_each_string (length ss) acc)
        (acc ++ ss)
unfolding Encoder.write_each_string Decoder.read_each_string
each_string_trip [] acc h = trip-eq (sym (append-nil acc)) (return_trip acc)
each_string_trip (s ∷ ss) acc (h, hs) =
    then_trip _ (string_trip s h)
      (trip-eq (append_assoc acc (s ∷ []) ss) (each_string_trip ss (acc ++ s ∷ []) hs))

pub strings_trip :
    (ss : List Bytes)
    → IsSized ss
    → All IsSized ss
    → RoundTrips (Encoder.write_strings ss) Decoder.read_strings ss
unfolding Encoder.write_strings Decoder.read_strings
strings_trip ss h hs =
    then_trip _ {v = Encoder.write_each_string ss} (varint_trip (length ss) (omega arith))
      (rw (lt→ltb _ _ h) (each_string_trip ss [] hs))

-- Both strings of an entry have a length that Go allows.
abbrev pub EntrySized : Bytes × Bytes → Type 0
EntrySized e = IsSized e.0 × IsSized e.1

str_entries_trip :
    (m acc : List (Bytes × Bytes))
    → All EntrySized m
    → Distinct Bytes-discrete (acc ++ m)
    → RoundTrips (Encoder.write_str_entries m) (Decoder.read_str_entries (length m) acc) (acc ++ m)
unfolding Encoder.write_str_entries Decoder.read_str_entries
str_entries_trip [] acc h d = trip-eq (sym (append-nil acc)) (return_trip acc)
str_entries_trip ((k, v) ∷ m) acc ((hk, hv), hs) d =
    let d' = rw (← append_assoc acc ((k, v) ∷ []) m) at d in
    let fresh = insert-Absent Bytes-discrete k v acc (Distinct-Absent Bytes-discrete acc k v m d) in
    then_trip _ (string_trip k hk) (
      then_trip _ {v = Encoder.write_str_entries m} (string_trip v hv) (
        rw fresh (
          trip-eq (append_assoc acc ((k, v) ∷ []) m)
            (str_entries_trip m (acc ++ (k, v) ∷ []) hs d'))))

pub str_map_trip :
    (m : List (Bytes × Bytes))
    → IsSized m
    → All EntrySized m
    → Distinct Bytes-discrete m
    → RoundTrips (Encoder.write_str_map m) Decoder.read_str_map m
unfolding Encoder.write_str_map Decoder.read_str_map Decoder.rounds
str_map_trip m h hs d =
    then_trip _ {v = Encoder.write_str_entries m} (varint_trip (length m) (omega arith))
      (rw (lt→ltb _ _ h) (str_entries_trip m [] hs d))

uint8_entries_trip :
    (m acc : List (ℕ × Bytes))
    → All (λ e. IsSized (e.1)) m
    → Distinct ℕ_discrete (acc ++ m)
    → RoundTrips
        (Encoder.write_uint8_entries m)
        (Decoder.read_uint8_entries (length m) acc)
        (acc ++ m)
unfolding Encoder.write_uint8_entries Decoder.read_uint8_entries
uint8_entries_trip [] acc h d = trip-eq (sym (append-nil acc)) (return_trip acc)
uint8_entries_trip ((k, v) ∷ m) acc (hv, hs) d =
    let d' = rw (← append_assoc acc ((k, v) ∷ []) m) at d in
    let fresh = insert-Absent ℕ_discrete k v acc (Distinct-Absent ℕ_discrete acc k v m d) in
    then_trip _ (uint8_trip k) (
      then_trip _ {v = Encoder.write_uint8_entries m} (string_trip v hv) (
        rw fresh (
          trip-eq (append_assoc acc ((k, v) ∷ []) m)
            (uint8_entries_trip m (acc ++ (k, v) ∷ []) hs d'))))

-- The properties of a packet: at most 255 of them, under distinct keys.
pub record IsProps (m : List (ℕ × Bytes)) : Type 0 where
  pub few : length m < 256
  pub sized : All (λ e. IsSized (e.1)) m
  pub distinct : Distinct ℕ_discrete m

pub uint8_map_trip :
    (m : List (ℕ × Bytes))
    → IsProps m
    → RoundTrips (Encoder.write_uint8_map m) Decoder.read_uint8_map m
unfolding Encoder.write_uint8_map Decoder.read_uint8_map
uint8_map_trip m h =
    let e : length m % 256 ≡ length m = mod-eq_of_lt h.few in
    subst
      (λ n.
        RoundTrips (λ b. Encoder.write_uint8_entries m (Encoder.write_uint8 n b))
          Decoder.read_uint8_map m)
      (sym e)
      (then_trip (λ l. Decoder.read_uint8_entries l []) (uint8_trip (length m))
        (uint8_entries_trip m [] h.sized h.distinct))
