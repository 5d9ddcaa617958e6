-- ===== src/Slack/Chunks.antt =====
-- The blocks that a long report is cut into.
use crypto_cdc_pipeline.Base.{
  ℕ, zero, suc, ◌+◌, ◌*◌, ◌≤◌, ◌≡◌, ◌⊎◌, inl, inr, refl, ap, ◌&&◌, false, List, [], ◌∷◌, ◌++◌, ltb,
  length, take, append_assoc, All, arith, Bool-cases,
}
use crypto_cdc_pipeline.Slack.{Text, header, has_lines, chunks, sections, text_blocks}

abbrev pub joined : List (List Text) → List Text
joined [] = []
joined (c ∷ cs) = c ++ joined cs

-- The code points of some lines, with the line break after each.
abbrev pub size_of : List Text → ℕ
size_of [] = 0
size_of (l ∷ ls) = length l + 1 + size_of ls

chunks-joined : (ls c : List Text) (s : ℕ) → joined (chunks ls c s) ≡ c ++ ls
chunks-joined [] [] s = refl
chunks-joined [] (x ∷ c) s = refl
chunks-joined (l ∷ ls) c s = elim (Bool-cases (ltb 2800 (s + length l + 1) && has_lines c)) [
  | inl t ↦ rw (t, chunks-joined ls (l ∷ []) (length l + 1)) refl
  | inr f ↦ rw (f, chunks-joined ls (c ++ (l ∷ [])) (s + length l + 1)) (append_assoc c (l ∷ []) ls)
]

-- A chunk whose text is not over 2800 code points with its line breaks, or a single line.
abbrev pub Fits : List Text → Type 0
Fits c = (size_of c ≤ 2800) ⊎ ((l : Text) × (c ≡ l ∷ []))

size_of-append : (c ls : List Text) → size_of (c ++ ls) ≡ size_of c + size_of ls
size_of-append [] ls = omega arith
size_of-append (l ∷ c) ls = omega (arith, size_of-append c ls)

chunks-Fits : (ls c : List Text) (s : ℕ) → s ≡ size_of c → Fits c → All Fits (chunks ls c s)
chunks-Fits [] [] s e fits = tt
chunks-Fits [] (x ∷ c) s e fits = (fits, tt)
chunks-Fits (l ∷ ls) [] s e fits =
    let small : (ltb 2800 (s + length l + 1) && false) ≡ false = ground arith in
    rw small (chunks-Fits ls (l ∷ []) (s + length l + 1) (omega (arith, e)) (inr (l, refl)))
chunks-Fits (l ∷ ls) (x ∷ c) s e fits = elim (Bool-cases (ltb 2800 (s + length l + 1))) [
  | inl t ↦ rw t (fits, chunks-Fits ls (l ∷ []) (length l + 1) (omega arith) (inr (l, refl)))
  | inr f ↦
      let more = size_of-append (x ∷ c) (l ∷ []) in
      rw f (
        chunks-Fits ls (x ∷ c ++ (l ∷ [])) (s + length l + 1) (omega (arith, e, more))
          (inl (ground (arith, f, e, more))))
]

-- Any two chunks after one another were too much for one.
chunks-few :
    (ls : List Text) (x : Text) (c : List Text) (s : ℕ)
    → 2801 * length (chunks ls (x ∷ c) s) ≤ 2801 + s + 2 * size_of ls
chunks-few [] x c s = omega arith
chunks-few (l ∷ ls) x c s = elim (Bool-cases (ltb 2800 (s + length l + 1))) [
  | inl t ↦ rw t (ground (arith, t, chunks-few ls l [] (length l + 1)))
  | inr f ↦ rw f (omega (arith, chunks-few ls x (c ++ (l ∷ [])) (s + length l + 1)))
]

sections-length : (cs : List (List Text)) → length (sections cs) ≡ length cs
sections-length [] = refl
sections-length (c ∷ cs) = ap suc (sections-length cs)

chunks-fifty : (ls : List Text) → size_of ls ≤ 68624 → length (chunks ls [] 0) ≤ 49
chunks-fifty [] h = omega arith
chunks-fifty (l ∷ ls) h =
    let small : (ltb 2800 (0 + length l + 1) && false) ≡ false = ground arith in
    rw small (omega (arith, h, chunks-few ls l [] (0 + length l + 1)))

take_all {ℓ} : {A : Type ℓ} → (n : ℕ) (xs : List A) → length xs ≤ n → take n xs ≡ xs
take_all zero [] h = refl
take_all zero (x ∷ xs) h = absurd (omega (arith, h))
take_all (suc n) [] h = refl
take_all (suc n) (x ∷ xs) h = ap (λ l. x ∷ l) (take_all n xs (omega (arith, h)))

-- A report whose lines, each with a line break, have at most 68624 code points is sent whole:
-- under the header stand the texts of some chunks that are the lines in their order, each of
-- at most 2800 code points with its line breaks or a single line.
pub text_blocks-whole :
    (title : Text) (lines : List Text)
    → size_of lines ≤ 68624
    → (cs : List (List Text)) × (text_blocks title lines ≡ header (take 150 title) ∷ sections cs)
      × (joined cs ≡ lines)
      × All Fits cs
unfolding text_blocks
text_blocks-whole title lines h =
    let cs = chunks lines [] 0 in
    let few : length (sections cs) ≤ 49 = omega (arith, sections-length cs, chunks-fifty lines h) in
    (
      cs,
      ap (λ l. header (take 150 title) ∷ l) (take_all 49 (sections cs) few),
      chunks-joined lines [] 0,
      chunks-Fits lines [] 0 refl (inl (omega arith)),
    )
