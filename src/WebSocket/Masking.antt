-- ===== src/WebSocket/Masking.antt =====
-- Masking: what `_send_frame` masks, the same mask unmasks.
use Prim.Native.Nat.{bit_xor}
use crypto_cdc_pipeline.Base.{
  ℕ, zero, suc, ◌<◌, ◌≡◌, ◌≢◌, inl, inr, refl, ap₂, ◌||◌, ||_split, ◌==◌, ==_iff, Bool, false,
  Bool-cases, Option, none, some, is_some, if◌then◌else◌, List, [], ◌∷◌, arith, All,
}
use crypto_cdc_pipeline.WebSocket.{Mask, mask_bytes}

-- The largest number below a limit that fails a mask, if any does.
spoiled : ℕ → ℕ → Option ℕ
spoiled m zero = none
spoiled m (suc x) = if bit_xor (bit_xor x m) m == x then spoiled m x else some x

spoiled-none : (m limit x : ℕ) → spoiled m limit ≡ none → x < limit → bit_xor (bit_xor x m) m ≡ x
unfolding spoiled
spoiled-none m zero x fine lt = absurd (omega arith)
spoiled-none m (suc limit) x fine lt = elim (Bool-cases (bit_xor (bit_xor limit m) m == limit)) [
  | inl kept ↦ elim (Bool-cases (x == limit)) [
    | inl same ↦ rw ((==_iff x limit).0 same) ((==_iff _ _).0 kept)
    | inr other ↦
        let below : x < limit = ground (arith, lt, other) in
        spoiled-none m limit x (ground (arith, fine, kept)) below
  ]
  | inr lost ↦ absurd (some_is_none (rw lost at fine))
]
  where
    some_is_none : some limit ≢ none
    some_is_none h = cc

-- No mask below a limit is failed by a byte.
spoilers : ℕ → Bool
spoilers zero = false
spoilers (suc m) = is_some (spoiled m 256) || spoilers m

byte_spoilers : spoilers 256 ≡ false
unfolding spoilers spoiled
byte_spoilers = refl

spoilers-spoiled : (limit m : ℕ) → spoilers limit ≡ false → m < limit → spoiled m 256 ≡ none
unfolding spoilers
spoilers-spoiled zero m h lt = absurd (omega arith)
spoilers-spoiled (suc limit) m h lt =
    let (here, before) = ||_split (is_some (spoiled limit 256)) (spoilers limit) h in
    elim (Bool-cases (m == limit)) [
      | inl same ↦ rw ((==_iff m limit).0 same) (is_some-none (spoiled limit 256) here)
      | inr other ↦ spoilers-spoiled limit m before (ground (arith, lt, other))
    ]
  where
    is_some-none : (o : Option ℕ) → is_some o ≡ false → o ≡ none
    is_some-none none e = refl
    is_some-none (some a) e = cc

xor_twice : (x m : ℕ) → x < 256 → m < 256 → bit_xor (bit_xor x m) m ≡ x
xor_twice x m hx hm = spoiled-none m 256 x (spoilers-spoiled 256 m byte_spoilers hm) hx

abbrev pub AreBytes : List ℕ → Type 0
AreBytes = All (λ (b : ℕ). b < 256)

mask_bytes_twice :
    (m₀ m₁ m₂ m₃ : ℕ) (payload : List ℕ)
    → m₀ < 256
    → m₁ < 256
    → m₂ < 256
    → m₃ < 256
    → AreBytes payload
    → mask_bytes m₀ m₁ m₂ m₃ (mask_bytes m₀ m₁ m₂ m₃ payload) ≡ payload
unfolding mask_bytes
mask_bytes_twice m₀ m₁ m₂ m₃ [] h₀ h₁ h₂ h₃ h = refl
mask_bytes_twice m₀ m₁ m₂ m₃ (b ∷ bs) h₀ h₁ h₂ h₃ h =
    ap₂ ◌∷◌ (xor_twice b m₀ h.0 h₀) (mask_bytes_twice m₁ m₂ m₃ m₀ bs h₁ h₂ h₃ h₀ h.1)

-- The four bytes of a mask.
abbrev pub IsMask : Mask → Type 0
IsMask m = (m.m₀ < 256) × (m.m₁ < 256) × (m.m₂ < 256) × (m.m₃ < 256)

-- A payload of bytes, masked by `_send_frame`, is given back by masking it again, as the server does.
pub mask_bytes-mask_bytes :
    (m : Mask) (payload : List ℕ)
    → IsMask m
    → AreBytes payload
    → mask_bytes m.m₀ m.m₁ m.m₂ m.m₃ (mask_bytes m.m₀ m.m₁ m.m₂ m.m₃ payload) ≡ payload
mask_bytes-mask_bytes m payload h = mask_bytes_twice m.m₀ m.m₁ m.m₂ m.m₃ payload h.0 h.1 h.2 h.3
