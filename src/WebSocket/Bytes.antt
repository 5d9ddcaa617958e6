-- ===== src/WebSocket/Bytes.antt =====
-- Reading from the socket does not depend on how the bytes are cut into chunks.
use crypto_cdc_pipeline.Base.{
  ℕ, zero, suc, ◌≤◌, ◌<◌, ◌≡◌, refl, ap, sym, false, List, [], ◌∷◌, ◌++◌, arith, Bool-cases, inl,
  inr, ltb, ltb→lt, length, length-append, take, drop, is_empty, All, append_assoc, append-nil,
}
use crypto_cdc_pipeline.WebSocket.{Socket, Result, ok, err, disconnected, read_loop, read}

abbrev pub flat : List (List ℕ) → List ℕ
flat [] = []
flat (c ∷ cs) = c ++ flat cs

-- The bytes that the socket will still give.
abbrev pub stream : Socket → List ℕ
stream s = s.buffer ++ flat s.chunks

-- No chunk is empty: the peer has not closed.
abbrev pub IsOpen : Socket → Type 0
IsOpen s = All (λ (c : List ℕ). is_empty c ≡ false) s.chunks

take_append : (n : ℕ) (xs ys : List ℕ) → n ≤ length xs → take n (xs ++ ys) ≡ take n xs
take_append zero xs ys h = refl
take_append (suc n) [] ys h = absurd (omega arith)
take_append (suc n) (x ∷ xs) ys h = ap (λ l. x ∷ l) (take_append n xs ys (omega arith))

drop_append : (n : ℕ) (xs ys : List ℕ) → n ≤ length xs → drop n (xs ++ ys) ≡ drop n xs ++ ys
drop_append zero xs ys h = refl
drop_append (suc n) [] ys h = absurd (omega arith)
drop_append (suc n) (x ∷ xs) ys h = drop_append n xs ys (omega arith)

-- The outcome of a read of n bytes from `bytes`.
abbrev Reads : ℕ → List ℕ → Result (List ℕ × List ℕ × List (List ℕ)) → Type 0
Reads n bytes (ok (out, buffer, chunks)) =
    (n ≤ length bytes)
    × (out ≡ take n bytes)
    × (buffer ++ flat chunks ≡ drop n bytes)
    × All (λ (c : List ℕ). is_empty c ≡ false) chunks
Reads n bytes (err e) = (length bytes < n) × (e ≡ disconnected)

read_loop-Reads :
    (n : ℕ) (buffer : List ℕ) (chunks : List (List ℕ))
    → All (λ (c : List ℕ). is_empty c ≡ false) chunks
    → Reads n (buffer ++ flat chunks) (read_loop n buffer chunks)
unfolding read_loop
read_loop-Reads n buffer [] h = elim (Bool-cases (ltb (length buffer) n)) [
  | inl short ↦ rw (append-nil buffer, short) (ltb→lt _ _ short, refl)
  | inr enough ↦ rw (append-nil buffer, enough) (ground (arith, enough), refl, append-nil _, tt)
]
read_loop-Reads n buffer (c ∷ cs) h =
    let ih = read_loop-Reads n (buffer ++ c) cs h.1 in
    elim (Bool-cases (ltb (length buffer) n)) [
      | inl short ↦ rw (short, h.0) (rw (append_assoc buffer c (flat cs)) at ih)
      | inr enough ↦
          let fits : n ≤ length buffer = ground (arith, enough) in
          rw enough (
            omega (arith, fits, length-append buffer (c ++ flat cs)),
            sym (take_append n buffer (c ++ flat cs) fits),
            sym (drop_append n buffer (c ++ flat cs) fits),
            h,
          )
    ]

-- What a read of the first n of these bytes gives.
abbrev pub Given : ℕ → List ℕ → List ℕ → Result (List ℕ × Socket) → Type 0
Given n bytes sent r =
    (s : Socket) × (r ≡ ok (take n bytes, s))
    × (stream s ≡ drop n bytes)
    × IsOpen s
    × (s.sent ≡ sent)

-- If the stream has n bytes, `read` returns the first n and leaves the others, however the bytes
-- are cut into chunks; it sends nothing.
pub read_enough :
    (n : ℕ) (s : Socket) → IsOpen s → n ≤ length (stream s) → Given n (stream s) s.sent (read n s)
unfolding read
read_enough n s h enough =
    go (read_loop n s.buffer s.chunks) refl (read_loop-Reads n s.buffer s.chunks h)
  where
    go :
        (r : Result (List ℕ × List ℕ × List (List ℕ)))
        → read_loop n s.buffer s.chunks ≡ r
        → Reads n (stream s) r
        → Given n (stream s) s.sent (read n s)
    go (err e) p (short, d) = absurd (omega (arith, short, enough))
    go (ok (out, buffer, chunks)) p (fits, o, rest, unclosed) =
        (record s { buffer = buffer; chunks = chunks }, rw (p, read) (rw o), rest, unclosed, refl)

-- If the stream has fewer than n bytes, `read` reports that the connection is gone.
pub read_short :
    (n : ℕ) (s : Socket) → IsOpen s → length (stream s) < n → read n s ≡ err disconnected
unfolding read
read_short n s h short =
    go (read_loop n s.buffer s.chunks) refl (read_loop-Reads n s.buffer s.chunks h)
  where
    go :
        (r : Result (List ℕ × List ℕ × List (List ℕ)))
        → read_loop n s.buffer s.chunks ≡ r
        → Reads n (stream s) r
        → read n s ≡ err disconnected
    go (err e) p (less, d) = rw (p, read) (rw d)
    go (ok (out, buffer, chunks)) p (fits, o, rest, unclosed) = absurd (omega (arith, short, fits))
