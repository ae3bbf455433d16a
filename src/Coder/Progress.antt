-- ===== src/Coder/Progress.antt =====
-- Every method of `decoder` leaves the buffer alone, moves the position forward and keeps it inside.
use cable.Prelude.{
  ℕ, zero, suc, ◌+◌, ◌%◌, ◌^◌, ◌≤◌, Bool, List, [], ◌∷◌, ◌++◌, ◌≡◌, refl, ap, ◌∙◌, arith, length,
  drop, ltb, if◌then◌else◌, length-drop, ◌⊎◌, inl, inr, le→ltb, Bool-cases,
}
use cable.Prelude.Words.{ℤ}
use cable.Errors.{Result, ok, err, panic, coder, varint_overflow, buffer_too_short}
use native.Mathlib.Nat.{mod-eq_of_lt}
use native.Mathlib.Decide.{ℕ_discrete}
use cable.GoMap.{Bytes, Bytes-discrete, insert}
use cable.Coder.Varint.{Uvarint, uvarint, done, overflow, short, uvarint_takes}
use cable.Coder.Decoder
use cable.Coder.Decoder.{Decoder, Read, and_then, return}
use cable.Coder.Bounds.{IsValid}

-- The decoder `d'` is `d` after some reads.
pub record Advances (d d' : Decoder) : Type 0 where
  pub same : d'.buf ≡ d.buf
  pub forward : d.pos ≤ d'.pos
  pub within : d'.pos ≤ length d'.buf

abbrev pub Steps {ℓ} : {A : Type ℓ} → Read A → Type ℓ
Steps {A = A} r = (d d' : Decoder) (a : A) → IsValid d → r d ≡ ok (a, d') → Advances d d'

Advances-IsValid : {d d' : Decoder} → IsValid d → Advances d d' → IsValid d'
Advances-IsValid v s = record { within = s.within; bounded = rw s.same v.bounded }

Advances-trans : {d d' d'' : Decoder} → Advances d d' → Advances d' d'' → Advances d d''
Advances-trans s t = record {
  same = t.same ∙ s.same;
  forward = omega (arith, s.forward, t.forward);
  within = t.within;
}

return-Steps {ℓ} : {A : Type ℓ} (a : A) → Steps (return a)
return-Steps a d d' b v e = record { same = cc; forward = ground arith; within = ground arith }

then-Steps {ℓ κ} :
    {A : Type ℓ} {B : Type κ} (r : Read A) (k : A → Read B)
    → Steps r
    → ((a : A) → Steps (k a))
    → Steps (and_then r k)
then-Steps {A = A} r k first second d d' b v e = go (r d) refl
  where
    go : (m : Result (A × Decoder)) → r d ≡ m → Advances d d'
    go (ok (a, d'')) m =
        let s = first d d'' a v m in
        Advances-trans s (second a d'' d' b (Advances-IsValid v s) (rw (m, and_then) at e))
    go (err x) m = absurd (ground (arith, rw (m, and_then) at e))
    go panic m = absurd (ground (arith, rw (m, and_then) at e))

pub read_bytes-Steps : (l : ℕ) → Steps (Decoder.read_bytes l)
unfolding Decoder.read_bytes
read_bytes-Steps l d d' a v e = record {
  same = ground arith;
  forward = ground arith;
  within = ground arith;
}

pub read_uint8-Steps : Steps Decoder.read_uint8
unfolding Decoder.read_uint8
read_uint8-Steps d d' a v e = record {
  same = ground arith;
  forward = ground arith;
  within = ground arith;
}

Uvarint-cases :
    (u : Uvarint) → ((v : ℕ) × (n : ℕ) × (u ≡ done v n)) ⊎ ((u ≡ overflow) ⊎ (u ≡ short))
Uvarint-cases (done v n) = inl (v, n, refl)
Uvarint-cases overflow = inr (inl refl)
Uvarint-cases short = inr (inr refl)

-- `ReadVarint` at a valid position: what `Uvarint` says of the rest of the buffer.
pub read_varint-uvarint :
    (d : Decoder)
    → IsValid d
    → Decoder.read_varint d ≡ elim (uvarint (drop d.pos d.buf)) [
      | done v n ↦ ok (v, record d { pos = d.pos + n })
      | overflow ↦ err (coder varint_overflow)
      | short ↦ err (coder buffer_too_short)
    ]
unfolding Decoder.read_varint
read_varint-uvarint d v = elim (Uvarint-cases (uvarint (drop d.pos d.buf))) [
  | inl (x, n, e) ↦
      let (_, _, fits) = uvarint_takes (drop d.pos d.buf) x n e in
      let span = length-drop d.pos d.buf in
      let wrap : (d.pos + n) % 2 ^ 64 ≡ d.pos + n = mod-eq_of_lt (omega arith) in
      rw (le→ltb (length d.buf) d.pos v.within, e) (ap (λ p. ok (x, record d { pos = p })) wrap)
  | inr (inl e) ↦ rw (le→ltb (length d.buf) d.pos v.within, e)
  | inr (inr e) ↦ rw (le→ltb (length d.buf) d.pos v.within, e)
]

pub read_varint-Steps : Steps Decoder.read_varint
read_varint-Steps d d' a v e = elim (Uvarint-cases (uvarint (drop d.pos d.buf))) [
  | inl (x, n, u) ↦
      let (_, _, fits) = uvarint_takes (drop d.pos d.buf) x n u in
      let span = length-drop d.pos d.buf in
      let e' = rw (read_varint-uvarint d v, u) at e in
      record { same = ground arith; forward = ground arith; within = ground arith }
  | inr (inl u) ↦ absurd (ground (arith, rw (read_varint-uvarint d v, u) at e))
  | inr (inr u) ↦ absurd (ground (arith, rw (read_varint-uvarint d v, u) at e))
]

pub read_all-Steps : Steps Decoder.read_all
unfolding Decoder.read_all
read_all-Steps d d' a v e = record {
  same = ground arith;
  forward = ground arith;
  within = ground arith;
}

pub read_data-Steps : Steps Decoder.read_data
unfolding Decoder.read_data
read_data-Steps = then-Steps _ _ read_varint-Steps read_bytes-Steps

pub read_string-Steps : Steps Decoder.read_string
unfolding Decoder.read_string
read_string-Steps = read_data-Steps

str_entries-Steps : (n : ℕ) (m : List (Bytes × Bytes)) → Steps (Decoder.read_str_entries n m)
unfolding Decoder.read_str_entries
str_entries-Steps zero m = return-Steps m
str_entries-Steps (suc n) m =
    then-Steps _ _ read_string-Steps
      λ k. then-Steps _ _ read_string-Steps λ v. str_entries-Steps n (insert Bytes-discrete k v m)

uint8_entries-Steps : (n : ℕ) (m : List (ℕ × Bytes)) → Steps (Decoder.read_uint8_entries n m)
unfolding Decoder.read_uint8_entries
uint8_entries-Steps zero m = return-Steps m
uint8_entries-Steps (suc n) m =
    then-Steps _ _ read_uint8-Steps
      λ k. then-Steps _ _ read_string-Steps λ v. uint8_entries-Steps n (insert ℕ_discrete k v m)

each_string-Steps : (n : ℕ) (ss : List Bytes) → Steps (Decoder.read_each_string n ss)
unfolding Decoder.read_each_string
each_string-Steps zero ss = return-Steps ss
each_string-Steps (suc n) ss =
    then-Steps _ _ read_string-Steps λ s. each_string-Steps n (ss ++ s ∷ [])

strings-Steps : Steps Decoder.read_strings
unfolding Decoder.read_strings
strings-Steps = then-Steps _ _ read_varint-Steps guarded
  where
    guarded :
        (l : ℕ) → Steps (λ d. if ltb l (2 ^ 63) then Decoder.read_each_string l [] d else panic)
    guarded l d d' a v e = elim (Bool-cases (ltb l (2 ^ 63))) [
      | inl b ↦ each_string-Steps l [] d d' a v (rw b at e)
      | inr b ↦ absurd (ground (arith, rw b at e))
    ]

map-Steps {ℓ κ} :
    {A : Type ℓ} {B : Type κ} (r : Read A) (f : A → B)
    → Steps r
    → Steps (and_then r λ x. return (f x))
map-Steps r f s = then-Steps r _ s (λ a. return-Steps (f a))

-- The methods of the interface `Decoder`, and what each returns.
pub data Method : Type 0 where
  bytes : ℕ → Method
  uint8 uint16 uint32 uint64 boolean int8 int16 int32 int64 varint : Method
  byte_slice string str_map strings uint8_map all : Method

abbrev pub Output : Method → Type 0
Output (bytes l) = Bytes
Output uint8 = ℕ
Output uint16 = ℕ
Output uint32 = ℕ
Output uint64 = ℕ
Output boolean = Bool
Output int8 = ℤ
Output int16 = ℤ
Output int32 = ℤ
Output int64 = ℤ
Output varint = ℕ
Output byte_slice = Bytes
Output string = Bytes
Output str_map = List (Bytes × Bytes)
Output strings = List Bytes
Output uint8_map = List (ℕ × Bytes)
Output all = Bytes

unfoldable pub call : (m : Method) → Read (Output m)
call (bytes l) = Decoder.read_bytes l
call uint8 = Decoder.read_uint8
call uint16 = Decoder.read_uint16
call uint32 = Decoder.read_uint32
call uint64 = Decoder.read_uint64
call boolean = Decoder.read_bool
call int8 = Decoder.read_int8
call int16 = Decoder.read_int16
call int32 = Decoder.read_int32
call int64 = Decoder.read_int64
call varint = Decoder.read_varint
call byte_slice = Decoder.read_data
call string = Decoder.read_string
call str_map = Decoder.read_str_map
call strings = Decoder.read_strings
call uint8_map = Decoder.read_uint8_map
call all = Decoder.read_all

call-Steps : (m : Method) → Steps (call m)
unfolding call Decoder.read_uint16 Decoder.read_uint32 Decoder.read_uint64 Decoder.read_bool
    Decoder.read_int8 Decoder.read_int16 Decoder.read_int32 Decoder.read_int64 Decoder.read_str_map
    Decoder.read_uint8_map
call-Steps (bytes l) = read_bytes-Steps l
call-Steps uint8 = read_uint8-Steps
call-Steps uint16 = map-Steps _ _ (read_bytes-Steps 2)
call-Steps uint32 = map-Steps _ _ (read_bytes-Steps 4)
call-Steps uint64 = map-Steps _ _ (read_bytes-Steps 8)
call-Steps boolean = map-Steps _ _ read_uint8-Steps
call-Steps int8 = map-Steps _ _ read_uint8-Steps
call-Steps int16 = map-Steps _ _ (map-Steps _ _ (read_bytes-Steps 2))
call-Steps int32 = map-Steps _ _ (map-Steps _ _ (read_bytes-Steps 4))
call-Steps int64 = map-Steps _ _ (map-Steps _ _ (read_bytes-Steps 8))
call-Steps varint = read_varint-Steps
call-Steps byte_slice = read_data-Steps
call-Steps string = read_string-Steps
call-Steps str_map = then-Steps _ _ read_varint-Steps (λ l. str_entries-Steps (Decoder.rounds l) [])
call-Steps strings = strings-Steps
call-Steps uint8_map = then-Steps _ _ read_uint8-Steps (λ l. uint8_entries-Steps l [])
call-Steps all = read_all-Steps

-- Whatever method a caller uses on a valid decoder, a call that succeeds leaves the buffer as it was,
-- never moves the position back, and leaves it inside the buffer.
pub call-Advances :
    (m : Method) (d d' : Decoder) (a : Output m) → IsValid d → call m d ≡ ok (a, d') → Advances d d'
call-Advances m d d' a v e = call-Steps m d d' a v e
