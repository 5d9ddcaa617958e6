-- ===== src/Binance/Refresh.antt =====
-- Which symbols the connections carry.
use crypto_cdc_pipeline.Base.{
  ℕ, zero, suc, ◌≤◌, ◌<◌, ◌≡◌, refl, sym, ap, ◌∙◌, ◌||◌, false, List, [], ◌∷◌, ◌++◌, String, arith,
  true, take, length, length-take, length-drop, drop, take-append-drop, append_assoc, is_empty, All,
}
use crypto_cdc_pipeline.Binance.{Config, Conn, chunks_loop, chunks, hand_out, refresh, same_symbols}

abbrev pub joined : List (List String) → List String
joined [] = []
joined (g ∷ gs) = g ++ joined gs

chunks_loop-joined :
    (fuel n : ℕ) (l : List String) → 0 < n → length l ≤ fuel → joined (chunks_loop fuel l n) ≡ l
unfolding chunks_loop
chunks_loop-joined zero n [] p h = refl
chunks_loop-joined zero n (x ∷ xs) p h = absurd (omega (arith, h))
chunks_loop-joined (suc fuel) n [] p h = refl
chunks_loop-joined (suc fuel) n (x ∷ xs) p h =
    let shorter : length (drop n (x ∷ xs)) ≤ fuel = omega (arith, p, h, length-drop n (x ∷ xs)) in
    rw (chunks_loop-joined fuel n (drop n (x ∷ xs)) p shorter) (take-append-drop n (x ∷ xs))

chunks_loop-small :
    (fuel n : ℕ) (l : List String) → All (λ (g : List String). length g ≤ n) (chunks_loop fuel l n)
unfolding chunks_loop
chunks_loop-small zero n l = tt
chunks_loop-small (suc fuel) n [] = tt
chunks_loop-small (suc fuel) n (x ∷ xs) =
    (omega (arith, length-take n (x ∷ xs)), chunks_loop-small fuel n (drop n (x ∷ xs)))

-- Cut by a positive size, the pieces join to the list, in order, and none is longer than the size.
pub chunks-joined :
    (l : List String) (n : ℕ)
    → 0 < n
    → (joined (chunks l n) ≡ l) × All (λ (g : List String). length g ≤ n) (chunks l n)
chunks-joined l n p =
    (chunks_loop-joined (length l) n l p (omega arith), chunks_loop-small (length l) n l)

-- All symbols of the connections, in order.
abbrev pub carried : List Conn → List String
carried [] = []
carried (c ∷ cs) = c.symbols ++ carried cs

carried-drop : (n : ℕ) → carried (drop n []) ≡ []
carried-drop zero = refl
carried-drop (suc n) = refl

hand_out-carried :
    (gs : List (List String)) (conns : List Conn)
    → carried (hand_out gs conns) ≡ joined gs ++ carried (drop (length gs) conns)
hand_out-carried [] conns = refl
hand_out-carried (g ∷ gs) [] =
    ap (λ l. g ++ l) (hand_out-carried gs [] ∙ ap (λ l. joined gs ++ l) (carried-drop (length gs)))
    ∙ sym (append_assoc g (joined gs) [])
hand_out-carried (g ∷ gs) (c ∷ cs) =
    ap (λ l. g ++ l) (hand_out-carried gs cs)
    ∙ sym (append_assoc g (joined gs) (carried (drop (length gs) cs)))

-- Of the new connections, those that there were before and that got a group.
abbrev pub regrouped : List (List String) → List Conn → List Conn → List Conn
regrouped groups conns conns' = take (length groups) (take (length conns) conns')

hand_out-resubscribe :
    (gs : List (List String)) (conns : List Conn)
    → All (λ (c : Conn). c.resubscribe ≡ true) (regrouped gs conns (hand_out gs conns))
hand_out-resubscribe [] conns = tt
hand_out-resubscribe (g ∷ gs) [] = tt
hand_out-resubscribe (g ∷ gs) (c ∷ cs) = (refl, hand_out-resubscribe gs cs)

-- A refresh with a list that is not empty and not the one in use: the connections then carry the new
-- list, in order, and after it what those connections carried before that got no group of it; and
-- every connection that there was before and that got a group is told to subscribe again.
pub refresh-carried :
    (cfg : Config) (latest symbols : List String) (conns : List Conn)
    → 0 < cfg.streams_per_conn
    → is_empty latest || same_symbols latest symbols ≡ false
    → let (symbols', conns') = refresh cfg latest (symbols, conns) in
      let groups = chunks latest cfg.streams_per_conn in
      (symbols' ≡ latest)
      × (carried conns' ≡ latest ++ carried (drop (length groups) conns))
      × All (λ (c : Conn). c.resubscribe ≡ true) (regrouped groups conns conns')
unfolding refresh
refresh-carried cfg latest symbols conns p changed =
    let groups = chunks latest cfg.streams_per_conn in
    let whole : joined groups ≡ latest = (chunks-joined latest cfg.streams_per_conn p).0 in
    (
      rw (changed, refresh) refl,
      rw (changed, refresh)
          (hand_out-carried groups conns
            ∙ ap (λ l. l ++ carried (drop (length groups) conns)) whole),
      rw (changed, refresh) (hand_out-resubscribe groups conns),
    )
