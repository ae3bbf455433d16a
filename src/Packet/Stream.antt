-- ===== src/Packet/Stream.antt =====
-- `WriteTo` and `ReadFrom` of packet/packet.go over an `io.Writer` and an `io.Reader`. The reader is a
-- parameter: `Read(p)` may return fewer bytes than `len(p)`, and may use the rest of `p` as scratch space.
use cable.Prelude.{ℕ, ◌+◌, ◌≡◌, [], ◌∷◌, ◌++◌, if◌then◌else◌, ltb, length}
use cable.Errors.{Result, ok, panic, ◌>>=◌}
use cable.GoMap.{Bytes}
use cable.Packet.Types.{Packet}
use cable.Packet.Frame.{extra_bytes, short_length, extend_length, marshal, unpack}

-- `io.Reader`: what `Read` of a slice of `n` bytes reads into it, and what is in the rest of the slice.
pub record Reader (S : Type 0) : Type 0 where
  pub read : ℕ → S → Result ((Bytes × Bytes) × S)
  pub keeps_size :
      (n : ℕ) (s s' : S) (bs scratch : Bytes)
      → read n s ≡ ok ((bs, scratch), s')
      → length bs + length scratch ≡ n

-- `io.Writer`: `Write` of the bytes.
pub record Writer (S : Type 0) : Type 0 where
  pub write : Bytes → S → Result S

-- The function `WriteTo` of the package.
unfoldable pub write_frame : {S : Type 0} → Writer S → Packet → S → Result S
write_frame w p s = do frame ← marshal p; w.write frame s

module _ {S : Type 0} (r : Reader S) where
  -- `buf := make([]byte, n); r.Read(buf)`
  unfoldable pub read_into : ℕ → S → Result (Bytes × S)
  read_into n s = do ((bs, scratch), s') ← r.read n s; ok (bs ++ scratch, s')

  -- The extra bytes of the length, read if there are any.
  unfoldable pub read_extra : ℕ → ℕ → S → Result (ℕ × S)
  read_extra first second s = do
    (bs, s') ← read_into (extra_bytes first) s
    ok (extend_length (short_length first second) bs, s')

  unfoldable pub read_length : ℕ → ℕ → S → Result (ℕ × S)
  unfolding read_extra
  read_length first second s =
      if ltb 0 (extra_bytes first)
      then read_extra first second s
      else ok (short_length first second, s)

  -- The body, read if there is one.
  unfoldable pub read_body : ℕ → S → Result (Bytes × S)
  read_body n s = if ltb 0 n then read_into n s else ok ([], s)

  unfoldable pub read_behind : Bytes → S → Result (Packet × S)
  read_behind (first ∷ second ∷ _) s = do
    (n, s') ← read_length first second s
    (body, s'') ← read_body n s'
    p ← unpack first body
    ok (p, s'')
  read_behind _ s = panic

  unfoldable pub read_from : S → Result (Packet × S)
  read_from s = do (header, s') ← read_into 2 s; read_behind header s'
