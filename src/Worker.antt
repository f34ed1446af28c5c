-- ===== src/Worker.antt =====
-- The messages between the driver and a worker process: `_read_exact`, `_read_frame`,
-- `_write_frame` and `_write_ctrl` of python/jude/execution/_worker.py. A stream is the list of the
-- bytes that are still to come. `got s n` is how many of them one `stream.read(n)` returns; it is an
-- argument. `none` stands for an exception: EOFError, the struct.error of a length that does not
-- fit, and for fuel, which is one round for each byte that is wanted.
pub mod Frames
pub mod Loop
pub mod Calls
pub mod Replies
use jude.Prelude.{
  ℕ, zero, suc, ◌+◌, ◌-◌, ◌*◌, ◌/◌, ◌%◌, Option, none, some, List, [], ◌∷◌, ◌++◌, length, take,
  drop, if◌then◌else◌, ltb, leb, ◌==◌, ◌>>=◌,
}

abbrev pub ctrl : ℕ
ctrl = 0xFFFFFFFF

-- struct.Struct("<I").pack
unfoldable pub pack : ℕ → Option (List ℕ)
pack n =
    if ltb n 0x100000000
    then some (n % 256 ∷ n / 256 % 256 ∷ n / 65536 % 256 ∷ n / 16777216 ∷ [])
    else none

-- struct.Struct("<I").unpack
unfoldable pub unpack : List ℕ → Option ℕ
unpack (a ∷ b ∷ c ∷ d ∷ []) = some (a + 256 * b + 65536 * c + 16777216 * d)
unpack bytes = none

module _ (got : List ℕ → ℕ → ℕ) where
  -- The loop of `_read_exact`, with the bytes in `buf` and the stream that is left.
  unfoldable pub read_more : ℕ → List ℕ → ℕ → List ℕ → Option (List ℕ × List ℕ)
  read_more zero stream n buf = if leb n (length buf) then some (buf, stream) else none
  read_more (suc fuel) stream n buf =
      let k = got stream (n - length buf) in
      let chunk = take k stream in
      let rest = read_more fuel (drop k stream) n (buf ++ chunk) in
      if leb n (length buf) then some (buf, stream) else if length chunk == 0 then none else rest

  unfoldable pub read_exact : List ℕ → ℕ → Option (List ℕ × List ℕ)
  unfolding read_more
  read_exact stream n = read_more n stream n []

  -- The payload of a frame of that kind, and the stream that is left.
  unfoldable pub read_payload : ℕ → ℕ → List ℕ → Option ((ℕ × List ℕ) × List ℕ)
  unfolding read_exact
  read_payload kind size stream = do
    (payload, left) ← read_exact stream size
    some ((kind, payload), left)

  -- A length field.
  unfoldable pub read_length : List ℕ → Option (ℕ × List ℕ)
  unfolding read_exact unpack
  read_length stream = do
    (header, left) ← read_exact stream 4
    len ← unpack header
    some (len, left)

  -- What follows the first length field.
  unfoldable pub read_body : ℕ → List ℕ → Option ((ℕ × List ℕ) × List ℕ)
  unfolding read_payload read_length
  read_body len left =
      if len == ctrl
      then (read_length left >>= λ (clen, left'). read_payload ctrl clen left')
      else read_payload len len left

  unfoldable pub read_frame : List ℕ → Option ((ℕ × List ℕ) × List ℕ)
  unfolding read_length read_body
  read_frame stream = do (len, left) ← read_length stream; read_body len left

-- The bytes that are written.
unfoldable pub write_frame : List ℕ → Option (List ℕ)
unfolding pack
write_frame payload = do header ← pack (length payload); some (header ++ payload)

-- The payload is the JSON text of the control message.
unfoldable pub write_ctrl : List ℕ → Option (List ℕ)
unfolding pack
write_ctrl payload = do
  header ← pack ctrl
  size ← pack (length payload)
  some (header ++ size ++ payload)
