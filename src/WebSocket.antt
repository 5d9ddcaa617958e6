-- ===== src/WebSocket.antt =====
-- scripts/lib/minws.py: a WebSocket client over a TLS socket. A byte is a number below 256. The
-- socket is the list of chunks that `recv` will return, and what has been sent.
pub mod Bytes
pub mod Masking
mod Tests
use Prim.Native.Nat.{bit_and, bit_or, bit_xor}
use crypto_cdc_pipeline.Base.{
  ℕ, zero, suc, ◌+◌, ◌*◌, ◌/◌, ◌%◌, ◌^◌, ◌&&◌, ◌||◌, ◌==◌, Bool, true, false, not, Option, none,
  some, is_some, List, [], ◌∷◌, ◌++◌, ltb, leb, length, take, drop, is_empty, if◌then◌else◌,
}

pub record Socket : Type 0 where
  pub buffer : List ℕ
  pub chunks : List (List ℕ)
  pub sent : List ℕ

-- `WSError`, by its message.
pub data WsError : Type 0 where
  disconnected masked_frame server_close : WsError

pub data Result {ℓ} (A : Type ℓ) : Type ℓ where
  ok : A → Result A
  err : WsError → Result A

-- `_read`: chunks are appended until `n` bytes are there; an empty chunk, or none, is the end.
unfoldable pub read_loop : ℕ → List ℕ → List (List ℕ) → Result (List ℕ × List ℕ × List (List ℕ))
read_loop n buffer [] =
    if ltb (length buffer) n then err disconnected else ok (take n buffer, drop n buffer, [])
read_loop n buffer (chunk ∷ chunks) =
    let rest = read_loop n (buffer ++ chunk) chunks in
    if not (ltb (length buffer) n)
    then ok (take n buffer, drop n buffer, chunk ∷ chunks)
    else if is_empty chunk
    then err disconnected
    else rest

abbrev pub Io {ℓ} : Type ℓ → Type ℓ
Io A = Socket → Result (A × Socket)

infixl 5 ◌>>=◌
abbrev pub ◌>>=◌ {ℓ κ} : {A : Type ℓ} {B : Type κ} → Io A → (A → Io B) → Io B
◌>>=◌ m f s = elim (m s) [ err e ↦ err e | ok (a, s') ↦ f a s' ]

infixl 5 ◌>>◌
abbrev pub ◌>>◌ {ℓ} : {B : Type ℓ} → Io (Unit {0}) → Io B → Io B
m >> k = m >>= λ _. k

abbrev pub pure {ℓ} : {A : Type ℓ} → A → Io A
pure a s = ok (a, s)

abbrev pub raise {ℓ} : {A : Type ℓ} → WsError → Io A
raise e s = err e

unfoldable pub read : ℕ → Io (List ℕ)
read n s = elim (read_loop n s.buffer s.chunks) [
  | err e ↦ err e
  | ok (out, buffer, chunks) ↦ ok (out, record s { buffer = buffer; chunks = chunks })
]

-- `struct.unpack` of a big-endian number.
unfoldable pub big_endian : ℕ → List ℕ → ℕ
big_endian acc [] = acc
big_endian acc (b ∷ bs) = big_endian (acc * 256 + b) bs

-- `struct.pack` of a number in `k` bytes, big-endian.
unfoldable pub to_bytes : ℕ → ℕ → List ℕ
to_bytes zero n = []
to_bytes (suc k) n = (n / 256 ^ k % 256) ∷ to_bytes k n

-- `bytes(b ^ mask[i % 4] ...)`, with the mask as four bytes that turn.
unfoldable pub mask_bytes : ℕ → ℕ → ℕ → ℕ → List ℕ → List ℕ
mask_bytes m₀ m₁ m₂ m₃ [] = []
mask_bytes m₀ m₁ m₂ m₃ (b ∷ bs) = bit_xor b m₀ ∷ mask_bytes m₁ m₂ m₃ m₀ bs

-- The header of `_send_frame`.
unfoldable pub header : ℕ → ℕ → List ℕ
unfolding to_bytes
header opcode n =
    bit_or 0x80 opcode
    ∷ (if ltb n 126
        then bit_or 0x80 n ∷ []
        else if ltb n 65536
        then bit_or 0x80 126 ∷ to_bytes 2 n
        else bit_or 0x80 127 ∷ to_bytes 8 n)

-- `os.urandom(4)`
pub record Mask : Type 0 where
  pub m₀ : ℕ
  pub m₁ : ℕ
  pub m₂ : ℕ
  pub m₃ : ℕ

unfoldable pub frame : Mask → ℕ → List ℕ → List ℕ
unfolding header mask_bytes
frame m opcode payload =
    header opcode (length payload)
    ++ (m.m₀ ∷ m.m₁ ∷ m.m₂ ∷ m.m₃ ∷ mask_bytes m.m₀ m.m₁ m.m₂ m.m₃ payload)

abbrev pub send_frame : Mask → ℕ → List ℕ → Io (Unit {0})
send_frame m opcode payload s = ok (tt, record s { sent = s.sent ++ frame m opcode payload })

-- A frame as `recv` reads it.
pub record Frame : Type 0 where
  pub fin : Bool
  pub opcode : ℕ
  pub payload : List ℕ

abbrev pub byte_at : List ℕ → ℕ → ℕ
byte_at [] i = 0
byte_at (b ∷ bs) zero = b
byte_at (b ∷ bs) (suc i) = byte_at bs i

-- The length of the payload, extended where the seven bits say so.
unfoldable pub read_length : ℕ → Io ℕ
unfolding read big_endian
read_length n =
    if n == 126
    then (do bs ← read 2; pure (big_endian 0 bs))
    else if n == 127
    then (do bs ← read 8; pure (big_endian 0 bs))
    else pure n

unfoldable pub read_frame : Io Frame
unfolding read read_length
read_frame = do
  head ← read 2
  n ← read_length (bit_and (byte_at head 1) 0x7f)
  if not (bit_and (byte_at head 1) 0x80 == 0) then raise masked_frame else do
    payload ← read n
    pure (record {
      fin = not (bit_and (byte_at head 0) 0x80 == 0);
      opcode = bit_and (byte_at head 0) 0x0f;
      payload = payload;
    })

-- The two variables of `recv`: the payload so far, and whether a data frame has started it.
pub record Partial : Type 0 where
  pub payload : List ℕ
  pub started : Bool

abbrev pub join : Frame → Partial → Partial
join f p =
    if f.opcode == 0x1 || f.opcode == 0x2
    then record { payload = f.payload; started = true }
    else if f.opcode == 0x0
    then record p { payload = p.payload ++ f.payload }
    else p

-- `recv` on fuel, one frame for each unit; `none` where the fuel is gone. `mask n` is the mask of
-- the pong that the frame at fuel n may cause.
unfoldable pub recv : (ℕ → Mask) → ℕ → Partial → Io (Option (List ℕ))
unfolding read_frame
recv mask zero p = pure none
recv mask (suc fuel) p = do
  f ← read_frame
  elim (f.opcode == 0x8) [
    | true ↦ raise server_close
    | false ↦ elim (f.opcode == 0x9) [
      | true ↦ do send_frame (mask fuel) 0xa f.payload; recv mask fuel p
      | false ↦ elim (f.opcode == 0xa) [
        | true ↦ recv mask fuel p
        | false ↦ elim (f.fin && (join f p).started) [
          | true ↦ pure (some (join f p).payload)
          | false ↦ recv mask fuel (join f p)
        ]
      ]
    ]
  ]
