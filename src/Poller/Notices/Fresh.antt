-- ===== src/Poller/Notices/Fresh.antt =====
-- The notices that a run stores.
use crypto_cdc_pipeline.Base.{
  ℕ, zero, suc, ◌+◌, ◌≤◌, ◌<◌, ◌≡◌, refl, ap, ◌∙◌, subst, &&_split, inl, inr, Bool, true, false,
  not, ◌&&◌, ◌||◌, ◌==◌, ==_iff, Option, none, some, Option-cases, List, [], ◌∷◌, ◌++◌, is_empty,
  arith, Bool-cases, if◌then◌else◌,
}
use crypto_cdc_pipeline.Poller.Notices.{
  mem, all_known, refresh_of, max_pages, fetch_page, caught_up, fetch_pages, poll_notices,
}

mem-append : (n : ℕ) (xs ys : List ℕ) → mem n (xs ++ ys) ≡ mem n xs || mem n ys
mem-append n [] ys = refl
mem-append n (x ∷ xs) ys = ground (arith, mem-append n xs ys)

-- Whether the loop goes on after an answer.
abbrev pub goes_on : List ℕ → List ℕ → Option (List ℕ) → Bool
goes_on known refresh none = false
goes_on known refresh (some ns) = not (is_empty ns) && not (caught_up known refresh ns)

-- Whether the loop gets to a page.
abbrev pub reaches : (ℕ → Option (List ℕ)) → List ℕ → List ℕ → ℕ → ℕ → ℕ → Bool
reaches page known refresh q p zero = false
reaches page known refresh q p (suc left) =
    let later = reaches page known refresh q (suc p) left in
    if p == q then true else goes_on known refresh (page p) && later

mem-is_empty : (n : ℕ) (ns : List ℕ) → mem n ns ≡ true → is_empty ns ≡ false
mem-is_empty n [] h = cc
mem-is_empty n (m ∷ ns) h = refl

module _ (detail : ℕ → Bool) (known refresh : List ℕ) (n : ℕ) where
  fetch_page-mem :
      (ns : List ℕ)
      → mem n ns ≡ true
      → detail n ≡ true
      → (mem n (fetch_page detail known refresh ns) || mem n known) ≡ true
  fetch_page-mem [] h d = cc
  fetch_page-mem (m ∷ ns) h d = elim (Bool-cases (m == n)) [
    | inl e ↦
        let name = (==_iff m n).0 e in
        let body : detail m ≡ true = ap detail name ∙ d in
        elim (Bool-cases (mem m known && not (mem m refresh))) [
          | inl k ↦
              let old : mem n known ≡ true =
                subst (λ (x : ℕ). mem x known ≡ true) name (&&_split _ _ k).0 in
              ground (arith, old)
          | inr k ↦ rw (k, body, e) refl
        ]
    | inr e ↦
        let later = fetch_page-mem ns (ground (arith, e, h)) d in
        elim (Bool-cases (mem m known && not (mem m refresh))) [
          | inl k ↦ rw k later
          | inr k ↦ elim (Bool-cases (detail m)) [
            | inl b ↦ rw (k, b) (ground (arith, later))
            | inr b ↦ rw (k, b) later
          ]
        ]
  ]

  fetch_pages-mem :
      (page : ℕ → Option (List ℕ)) (q p left : ℕ) (ns : List ℕ)
      → reaches page known refresh q p left ≡ true
      → page q ≡ some ns
      → mem n ns ≡ true
      → detail n ≡ true
      → (mem n (fetch_pages page detail known refresh p left) || mem n known) ≡ true
  fetch_pages-mem page q p zero ns r e h d = cc
  fetch_pages-mem page q p (suc left) ns r e h d =
      let rest = fetch_pages page detail known refresh (suc p) left in
      let rows = λ (ms : List ℕ). fetch_page detail known refresh ms in
      elim (Bool-cases (p == q)) [
        | inl s ↦
            let this : page p ≡ some ns = ap page ((==_iff p q).0 s) ∙ e in
            let here = fetch_page-mem ns h d in
            rw (this, mem-is_empty n ns h)
              (elim (Bool-cases (caught_up known refresh ns)) [
                | inl c ↦ rw c here
                | inr c ↦ rw c (ground (arith, mem-append n (rows ns) rest, here))
              ])
        | inr s ↦
            let later = reaches page known refresh q (suc p) left in
            let on = &&_split (goes_on known refresh (page p)) later (
              subst
                (λ (b : Bool). (if b then true else goes_on known refresh (page p) && later) ≡ true)
                s r) in
            let after = fetch_pages-mem page q (suc p) left ns on.1 e h d in
            elim (Option-cases (page p)) [
              | inl o ↦ cc (subst (λ (x : Option (List ℕ)). goes_on known refresh x ≡ true) o on.0)
              | inr (ms, o) ↦
                  let sides =
                    &&_split (not (is_empty ms)) (not (caught_up known refresh ms))
                      (subst (λ (x : Option (List ℕ)). goes_on known refresh x ≡ true) o on.0) in
                  let some_left : is_empty ms ≡ false = ground (arith, sides.0) in
                  let not_yet : caught_up known refresh ms ≡ false = ground (arith, sides.1) in
                  rw (o, some_left, not_yet) (ground (arith, mem-append n (rows ms) rest, after))
            ]
      ]

-- A page that is answered and has an id that is not known.
abbrev pub BringsNew : (ℕ → Option (List ℕ)) → List ℕ → ℕ → Type 0
BringsNew page known p =
    (ms : List ℕ) × (page p ≡ some ms) × (m : ℕ) × (mem m ms ≡ true) × (mem m known ≡ false)

all_known-new :
    (known : List ℕ) (m : ℕ) (ms : List ℕ)
    → mem m ms ≡ true
    → mem m known ≡ false
    → all_known ms known ≡ false
all_known-new known m [] h new = cc
all_known-new known m (x ∷ ms) h new = elim (Bool-cases (x == m)) [
  | inl e ↦
      let absent : mem x known ≡ false = ap (λ (y : ℕ). mem y known) ((==_iff x m).0 e) ∙ new in
      rw absent refl
  | inr e ↦
      let there : mem m ms ≡ true = subst (λ (b : Bool). (b || mem m ms) ≡ true) e h in
      let rest = all_known-new known m ms there new in ground (arith, rest)
]

goes_on-BringsNew :
    (page : ℕ → Option (List ℕ)) (known refresh : List ℕ) (p : ℕ)
    → BringsNew page known p
    → goes_on known refresh (page p) ≡ true
goes_on-BringsNew page known refresh p (ms, e, m, there, new) =
    let filled = mem-is_empty m ms there in
    let unknown = all_known-new known m ms there new in rw (e, filled, unknown) (ground arith)

reaches-BringsNew :
    (page : ℕ → Option (List ℕ)) (known refresh : List ℕ) (q p left : ℕ)
    → p ≤ q
    → q < p + left
    → ((r : ℕ) → p ≤ r → r < q → BringsNew page known r)
    → reaches page known refresh q p left ≡ true
reaches-BringsNew page known refresh q p zero le lt new = absurd (omega (arith, le, lt))
reaches-BringsNew page known refresh q p (suc left) le lt new = elim (Bool-cases (p == q)) [
  | inl e ↦ rw e refl
  | inr e ↦
      let below : p < q = ground (arith, e, le) in
      let later =
        reaches-BringsNew page known refresh q (suc p) left (omega (arith, below))
          (omega (arith, lt)) (λ r above under. new r (omega (arith, above)) under) in
      rw (e, goes_on-BringsNew page known refresh p (new p (omega arith) below)) later
]

-- A notice on one of the first three pages, or of the first forty with --full or an empty table,
-- is in the table after a run whose INSERT succeeds: if each page before its own is answered and has an
-- id that is not in the table (with --full: is not empty), its own is answered, and the exchange
-- gives its body.
pub poll_notices-mem :
    (page : ℕ → Option (List ℕ)) (detail : ℕ → Bool) (full : Bool) (table : List ℕ) (q n : ℕ)
    (ns : List ℕ)
    → 1 ≤ q
    → q ≤ (if full || is_empty table then 40 else 3)
    → ((p : ℕ) → 1 ≤ p → p < q → BringsNew page (if full then [] else table) p)
    → page q ≡ some ns
    → mem n ns ≡ true
    → detail n ≡ true
    → mem n (poll_notices page detail full true table) ≡ true
unfolding poll_notices
poll_notices-mem page detail full table q n ns from limit new e h d =
    let known : List ℕ = if full then [] else table in
    let refresh = refresh_of known in
    let r =
      reaches-BringsNew page known refresh q 1 (max_pages full known) from (enough full table limit)
        new in
    let rows = fetch_pages page detail known refresh 1 (max_pages full known) in
    let stored =
      fetch_pages-mem detail known refresh n page q 1 (max_pages full known) ns r e h d in
    ground (arith, mem-append n rows table, stored, old)
  where
    old : mem n (if full then [] else table) ≡ true → mem n table ≡ true
    old k = ground (arith, k)

    enough :
        (full : Bool) (table : List ℕ)
        → q ≤ (if full || is_empty table then 40 else 3)
        → q < 1 + max_pages full (if full then [] else table)
    enough true table l = omega (arith, l)
    enough false [] l = omega (arith, l)
    enough false (x ∷ xs) l = omega (arith, l)
