-- ===== src/Trader/Api/Calls.antt =====
-- Every call waits or was answered.
use crypto_cdc_pipeline.Base.{
  ℕ, suc, ◌+◌, ◌≡◌, refl, ap, sym, subst, inl, inr, Bool, true, false, not, ◌&&◌, ◌==◌, Option,
  none, some, List, [], ◌∷◌, length, length-append, Bool-cases, Option-cases, if◌then◌else◌, arith,
}
use crypto_cdc_pipeline.Trader.Api.{
  Future, Api, Event, call, reply, pushed, timeout, closed_cleanly, broken, run_pass, pop,
  told_closed, reader_ended, set_result, put_front, give_up, make_call, connect_pass, step, run,
}

either : (P : Api → Type 0) (b : Bool) {v w : Api} → P v → P w → P (if b then v else w)
either P true p q = p
either P false p q = q

-- The callers that wait.
abbrev pub count_waiting : List Future → ℕ
count_waiting [] = 0
count_waiting (f ∷ fs) = if f.waiting then suc (count_waiting fs) else count_waiting fs

-- Calls are those that wait and those that were answered.
abbrev pub IsCounted : Api → Type 0
IsCounted w = w.calls ≡ count_waiting w.pending + length w.replies

told_closed-length : (fs : List Future) → length (told_closed fs) ≡ count_waiting fs
told_closed-length [] = refl
told_closed-length (f ∷ fs) = elim (Bool-cases f.waiting) [
  | inl e ↦ rw e (ap suc (told_closed-length fs))
  | inr e ↦ rw e (told_closed-length fs)
]

reader_ended-IsCounted : (w : Api) → IsCounted w → IsCounted (reader_ended w)
unfolding reader_ended
reader_ended-IsCounted w h =
    omega (arith, h, length-append (told_closed w.pending) w.replies, told_closed-length w.pending)

abbrev one : Bool → ℕ
one b = if b then 1 else 0

abbrev waits : Option Future → ℕ
waits none = 0
waits (some f) = one f.waiting

pop-count_waiting :
    (n : ℕ) (fs : List Future) → count_waiting fs ≡ waits (pop n fs).0 + count_waiting (pop n fs).1
pop-count_waiting n [] = refl
pop-count_waiting n (f ∷ fs) = elim (Bool-cases (f.rid == n)) [
  | inl e ↦ elim (Bool-cases f.waiting) [
    | inl k ↦ rw (e, k) (omega arith)
    | inr k ↦ rw (e, k) (omega arith)
  ]
  | inr e ↦ elim (Bool-cases f.waiting) [
    | inl k ↦ rw (e, k) (omega (arith, pop-count_waiting n fs))
    | inr k ↦ rw (e, k) (pop-count_waiting n fs)
  ]
]

set_result-IsCounted :
    (found : Option Future) (rest : List Future) (w : Api)
    → count_waiting w.pending ≡ waits found + count_waiting rest
    → IsCounted w
    → IsCounted (set_result found rest w)
set_result-IsCounted none rest w e h = h
set_result-IsCounted (some f) rest w e h = elim (Bool-cases f.waiting) [
  | inl k ↦
      let e2 : count_waiting w.pending ≡ 1 + count_waiting rest =
        subst (λ b. count_waiting w.pending ≡ one b + count_waiting rest) k e in
      rw k (omega (arith, h, e2))
  | inr k ↦
      let e2 : count_waiting w.pending ≡ 0 + count_waiting rest =
        subst (λ b. count_waiting w.pending ≡ one b + count_waiting rest) k e in
      rw k (reader_ended-IsCounted (record w { pending = rest }) (omega (arith, h, e2)))
]

give_up-count_waiting :
    (n : ℕ) (fs gs : List Future)
    → give_up n fs ≡ some gs
    → count_waiting fs ≡ suc (count_waiting gs)
give_up-count_waiting n [] gs h = cc
give_up-count_waiting n (f ∷ fs) gs h =
    let test = f.rid == n && f.waiting in
    let given = some (record f { waiting = false } ∷ fs) in
    elim (Bool-cases test) [
      | inl e ↦
          let same : given ≡ some gs =
            subst (λ b. (if b then given else put_front f (give_up n fs)) ≡ some gs) e h in
          let eq : record f { waiting = false } ∷ fs ≡ gs = cc in
          let waits_now : f.waiting ≡ true = ground (arith, e) in
          rw waits_now (ap suc (ap count_waiting eq))
      | inr e ↦
          later (give_up n fs)
            (subst (λ b. (if b then given else put_front f (give_up n fs)) ≡ some gs) e h)
            (give_up-count_waiting n fs)
    ]
  where
    later :
        (o : Option (List Future))
        → put_front f o ≡ some gs
        → ((hs : List Future) → o ≡ some hs → count_waiting fs ≡ suc (count_waiting hs))
        → count_waiting (f ∷ fs) ≡ suc (count_waiting gs)
    later none k ih = cc
    later (some hs) k ih =
        let eq : f ∷ hs ≡ gs = cc in
        let less = ih hs refl in
        elim (Bool-cases f.waiting) [
          | inl w ↦
              subst (λ x. count_waiting (f ∷ fs) ≡ suc (count_waiting x)) eq (rw w (ap suc less))
          | inr w ↦ subst (λ x. count_waiting (f ∷ fs) ≡ suc (count_waiting x)) eq (rw w less)
        ]

step-IsCounted : (e : Event) (w : Api) → IsCounted w → IsCounted (step e w)
unfolding step make_call connect_pass
step-IsCounted (call n) w h = elim (Bool-cases w.connected) [
  | inl c ↦ elim (Bool-cases w.reading) [
    | inl r ↦ rw (c, r) (omega (arith, h))
    | inr r ↦ rw (c, r) (omega (arith, h))
  ]
  | inr c ↦ rw c (omega (arith, h))
]
step-IsCounted (reply n) w h = elim (Bool-cases w.reading) [
  | inl r ↦
      subst
        (λ (b : Bool).
          IsCounted (if b then set_result (pop n w.pending).0 (pop n w.pending).1 w else w))
        (sym r)
        (set_result-IsCounted (pop n w.pending).0 (pop n w.pending).1 w
          (pop-count_waiting n w.pending) h)
  | inr r ↦
      subst
        (λ (b : Bool).
          IsCounted (if b then set_result (pop n w.pending).0 (pop n w.pending).1 w else w))
        (sym r) h
]
step-IsCounted (pushed handled) w h =
    either IsCounted (w.reading && not handled) (reader_ended-IsCounted w h) h
step-IsCounted (timeout n) w h = elim (Option-cases (give_up n w.pending)) [
  | inl e ↦ rw (e, step) h
  | inr (fs, e) ↦ rw (e, step) (omega (arith, h, give_up-count_waiting n w.pending fs e))
]
step-IsCounted closed_cleanly w h = h
step-IsCounted broken w h = either IsCounted w.reading (reader_ended-IsCounted w h) h
step-IsCounted (run_pass opens logs_on) w h =
    either IsCounted w.connected h (either IsCounted opens (either IsCounted logs_on h h) h)

-- Whatever the exchange, the clock and the callers do, and in whatever order: the calls that were
-- made are in number those that wait for their reply and those that were answered, with a result
-- or an error, if that was so at the start.
pub run-IsCounted : (es : List Event) (w : Api) → IsCounted w → IsCounted (run es w)
run-IsCounted [] w h = h
run-IsCounted (e ∷ es) w h = run-IsCounted es (step e w) (step-IsCounted e w h)
