-- ===== src/Logs/Left.antt =====
-- What the pruning leaves.
use crypto_cdc_pipeline.Base.{
  ℕ, ◌+◌, ◌≡◌, refl, sym, ap, ap₂, ◌∙◌, &&_split, ◌&&◌, ◌||◌, Bool, true, not, String, List, [],
  ◌∷◌, ◌++◌, keep_if, ltb, inl, inr, Bool-cases, arith, if◌then◌else◌,
}
use crypto_cdc_pipeline.Logs.{Log, Dir, nothing, file, sub, is_nothing, Pruned, prune_file, prune}

-- The logs below a directory, each with its path.
abbrev pub logs_of : List String → Dir → List (List String × Log)
logs_of p nothing = []
logs_of p (file f d) = (p, f) ∷ logs_of p d
logs_of p (sub n ok c d) = logs_of (n ∷ p) c ++ logs_of p d

-- A log that is not old, or that os.stat or os.remove does not work on.
abbrev pub stays : ℕ → List String × Log → Bool
stays cutoff e = not e.1.stats || not (ltb e.1.mtime cutoff) || not e.1.removes

-- No directory is empty that os.rmdir works on.
abbrev pub no_empty : Dir → Bool
no_empty nothing = true
no_empty (file f d) = no_empty d
no_empty (sub n ok c d) = not (is_nothing c && ok) && no_empty c && no_empty d

abbrev pub size : Dir → ℕ
size nothing = 0
size (file f d) = f.bytes + size d
size (sub n ok c d) = size c + size d

-- The bytes of the old logs that os.remove does not work on.
abbrev pub held : ℕ → Dir → ℕ
held cutoff nothing = 0
held cutoff (file f d) =
    (if f.stats && ltb f.mtime cutoff && not f.removes then f.bytes else 0) + held cutoff d
held cutoff (sub n ok c d) = held cutoff c + held cutoff d

keep_if-append :
    {A : Type 0} (p : A → Bool) (xs ys : List A)
    → keep_if p (xs ++ ys) ≡ keep_if p xs ++ keep_if p ys
keep_if-append p [] ys = refl
keep_if-append p (x ∷ xs) ys = elim (Bool-cases (p x)) [
  | inl e ↦ rw e (ap (λ zs. x ∷ zs) (keep_if-append p xs ys))
  | inr e ↦ rw e (keep_if-append p xs ys)
]

prune_file-left :
    (cutoff : ℕ) (f : Log) (rest : Pruned)
    → (prune_file cutoff f rest).left
      ≡ (if stays cutoff ([], f) then file f rest.left else rest.left)
prune_file-left cutoff f rest = ground arith

nothing-logs_of : (p : List String) (d : Dir) → is_nothing d ≡ true → logs_of p d ≡ []
nothing-logs_of p nothing h = refl
nothing-logs_of p (file f d) h = cc
nothing-logs_of p (sub n ok c d) h = cc

prune-logs_of :
    (cutoff : ℕ) (p : List String) (d : Dir)
    → logs_of p (prune cutoff d).left ≡ keep_if (stays cutoff) (logs_of p d)
unfolding prune
prune-logs_of cutoff p nothing = refl
prune-logs_of cutoff p (file f d) =
    rw (prune_file-left cutoff f (prune cutoff d)) (elim (Bool-cases (stays cutoff ([], f))) [
      | inl e ↦ rw e (ap (λ zs. (p, f) ∷ zs) (prune-logs_of cutoff p d))
      | inr e ↦ rw e (prune-logs_of cutoff p d)
    ])
prune-logs_of cutoff p (sub n ok c d) =
    let below = prune-logs_of cutoff (n ∷ p) c in
    let beside = prune-logs_of cutoff p d in
    let parts = keep_if-append (stays cutoff) (logs_of (n ∷ p) c) (logs_of p d) in
    elim (Bool-cases (is_nothing (prune cutoff c).left && ok)) [
      | inl e ↦
          let none_left = nothing-logs_of (n ∷ p) (prune cutoff c).left (&&_split _ ok e).0 in
          rw e (
            beside
            ∙ sym (
                parts
                ∙ ap (λ zs. zs ++ keep_if (stays cutoff) (logs_of p d)) (sym below ∙ none_left)))
      | inr e ↦ rw e (ap₂ (λ ys zs. ys ++ zs) below beside ∙ sym parts)
    ]

prune-no_empty : (cutoff : ℕ) (d : Dir) → no_empty (prune cutoff d).left ≡ true
unfolding prune
prune-no_empty cutoff nothing = refl
prune-no_empty cutoff (file f d) =
    rw (prune_file-left cutoff f (prune cutoff d)) (elim (Bool-cases (stays cutoff ([], f))) [
      | inl e ↦ rw e (prune-no_empty cutoff d)
      | inr e ↦ rw e (prune-no_empty cutoff d)
    ])
prune-no_empty cutoff (sub n ok c d) = elim (Bool-cases (is_nothing (prune cutoff c).left && ok)) [
  | inl e ↦ rw e (prune-no_empty cutoff d)
  | inr e ↦ rw e (ground (arith, e, prune-no_empty cutoff c, prune-no_empty cutoff d))
]

nothing_size : (d : Dir) → is_nothing d ≡ true → size d ≡ 0
nothing_size nothing h = refl
nothing_size (file f d) h = cc
nothing_size (sub n ok c d) h = cc

-- What is left and what counts as freed are together the bytes before, and those of the old logs
-- that os.remove fails on a second time: these count as freed but stay.
pub prune_accounts :
    (cutoff : ℕ) (d : Dir)
    → size d + held cutoff d ≡ size (prune cutoff d).left + (prune cutoff d).freed
unfolding prune
prune_accounts cutoff nothing = omega arith
prune_accounts cutoff (file f d) = ground (arith, prune_accounts cutoff d)
prune_accounts cutoff (sub n ok c d) = elim (Bool-cases (is_nothing (prune cutoff c).left && ok)) [
  | inl e ↦
      let zero = nothing_size (prune cutoff c).left (&&_split _ ok e).0 in
      rw e (omega (arith, zero, prune_accounts cutoff c, prune_accounts cutoff d))
  | inr e ↦ rw e (omega (arith, prune_accounts cutoff c, prune_accounts cutoff d))
]

-- The pruning leaves the logs that are not older than the cutoff, with their paths and in their
-- order, and the older ones that os.stat or os.remove fails on, and no others; and it leaves no
-- directory empty that os.rmdir works on.
pub prune_exact :
    (cutoff : ℕ) (d : Dir)
    → (logs_of [] (prune cutoff d).left ≡ keep_if (stays cutoff) (logs_of [] d))
      × (no_empty (prune cutoff d).left ≡ true)
prune_exact cutoff d = (prune-logs_of cutoff [] d, prune-no_empty cutoff d)
