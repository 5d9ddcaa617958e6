-- ===== src/WebSocket/Tests.antt =====
-- The client at concrete inputs: the theorems, and whole messages.
use crypto_cdc_pipeline.Base.{ℕ, ◌≡◌, refl, false, some, List, [], ◌∷◌, arith}
use crypto_cdc_pipeline.WebSocket.{
  Socket, ok, err, server_close, masked_frame, read_loop, read, to_bytes, Mask, header, frame,
  Partial, recv,
}
use crypto_cdc_pipeline.WebSocket.Bytes.{Given, read_enough}

abbrev key : Mask
key = record { m₀ = 0x37; m₁ = 0xfa; m₂ = 0x21; m₃ = 0x3d }

-- The bytes of the masked "Hello" of RFC 6455, 5.7.
frame_test :
    frame key 0x1 (0x48 ∷ 0x65 ∷ 0x6c ∷ 0x6c ∷ 0x6f ∷ [])
    ≡ 0x81 ∷ 0x85 ∷ 0x37 ∷ 0xfa ∷ 0x21 ∷ 0x3d ∷ 0x7f ∷ 0x9f ∷ 0x4d ∷ 0x51 ∷ 0x58 ∷ []
unfolding frame
frame_test = refl

header_test : header 0x2 65536 ≡ 0x82 ∷ 0xff ∷ 0 ∷ 0 ∷ 0 ∷ 0 ∷ 0 ∷ 1 ∷ 0 ∷ 0 ∷ []
unfolding header to_bytes
header_test = refl

abbrev socket : List (List ℕ) → Socket
socket chunks = record { buffer = []; chunks = chunks; sent = [] }

abbrev nothing : Partial
nothing = record { payload = []; started = false }

-- A text in two fragments with a ping between them, cut into chunks anywhere: the ping is
-- answered, and the message is whole.
recv_test :
    recv
      (λ n. key)
      4
      nothing
      (socket
        ((0x01 ∷ []) ∷ (0x02 ∷ 7 ∷ 8 ∷ 0x89 ∷ 0x01 ∷ []) ∷ (5 ∷ 0x80 ∷ 0x01 ∷ 9 ∷ 1 ∷ []) ∷ []))
    ≡ ok (
      some (7 ∷ 8 ∷ 9 ∷ []),
      record {
        buffer = 1 ∷ [];
        chunks = [];
        sent = 0x8a ∷ 0x81 ∷ 0x37 ∷ 0xfa ∷ 0x21 ∷ 0x3d ∷ 0x32 ∷ [];
      },
    )
unfolding recv frame read_loop
recv_test = refl

close_test : recv (λ n. key) 4 nothing (socket ((0x88 ∷ 0 ∷ []) ∷ [])) ≡ err server_close
unfolding recv read_loop
close_test = refl

masked_test : recv (λ n. key) 4 nothing (socket ((0x81 ∷ 0x80 ∷ []) ∷ [])) ≡ err masked_frame
unfolding recv read_loop
masked_test = refl

abbrev cut : Socket
cut = socket ((1 ∷ []) ∷ (2 ∷ 3 ∷ []) ∷ [])

read_enough_example : Given 2 (1 ∷ 2 ∷ 3 ∷ []) [] (read 2 cut)
read_enough_example = read_enough 2 cut (refl, (refl, tt)) (omega arith)
