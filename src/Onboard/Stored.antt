-- ===== src/Onboard/Stored.antt =====
-- What a table needs to be captured, and that the installation keeps it for every table.
use crypto_cdc_pipeline.Base.{
  String, str_eq, eq_iff, ◌≡◌, inl, inr, refl, subst, ◌∙◌, Bool, true, false, not, ◌&&◌, ◌||◌, List,
  [], ◌∷◌, ◌++◌, Bool-cases, All, arith, if◌then◌else◌,
}
use crypto_cdc_pipeline.Onboard.{
  Args, Source, World, Effect, create_topic, create_target, create_queue, create_view, put_include,
  send_signal, write_section, bare, apply, insert_topic_line, has, has_topic_line, has_anchor,
  has_section, installation,
}
use crypto_cdc_pipeline.Onboard.Names.{has-append, has-add_once, has-add_once_same}

abbrev stored : String → World → Bool
stored u w =
    has u w.topics && (has (bare u) w.targets && (has (bare u) w.queues && has (bare u) w.views))

abbrev pub backed : String → World → Bool
backed u w = not (has u w.include) || stored u w

-- The states from the first to the last.
abbrev pub states : List Effect → World → List World
states [] w = w ∷ []
states (e ∷ es) w = w ∷ states es (apply e w)

abbrev pub AllBacked : String → List Effect → World → Type 0
AllBacked u es w = All (λ v. backed u v ≡ true) (states es w)

-- The four parts of what is stored may only grow.
wider :
    (i a b c d : Bool) (a' b' c' d' : Bool)
    → (a ≡ true → a' ≡ true)
    → (b ≡ true → b' ≡ true)
    → (c ≡ true → c' ≡ true)
    → (d ≡ true → d' ≡ true)
    → (not i || (a && (b && (c && d)))) ≡ true
    → (not i || (a' && (b' && (c' && d')))) ≡ true
wider false a b c d a' b' c' d' f g k l h = refl
wider true true true true true a' b' c' d' f g k l h = rw (f refl, g refl, k refl, l refl) refl
wider true false b c d a' b' c' d' f g k l h = cc
wider true true false c d a' b' c' d' f g k l h = cc
wider true true true false d a' b' c' d' f g k l h = cc
wider true true true true false a' b' c' d' f g k l h = cc

-- What an effect may do to the lists without harm to a table.
abbrev Spares : String → World → World → Type 0
Spares u w v =
    (has u v.include ≡ has u w.include)
    × (has u w.topics ≡ true → has u v.topics ≡ true)
    × (has (bare u) w.targets ≡ true → has (bare u) v.targets ≡ true)
    × (has (bare u) w.queues ≡ true → has (bare u) v.queues ≡ true)
    × (has (bare u) w.views ≡ true → has (bare u) v.views ≡ true)

pub Spares-backed :
    (u : String) (w v : World) → Spares u w v → backed u w ≡ true → backed u v ≡ true
Spares-backed u w v (same, f, g, k, l) h = rw same (
    wider (has u w.include) (has u w.topics) (has (bare u) w.targets) (has (bare u) w.queues)
      (has (bare u) w.views) (has u v.topics) (has (bare u) v.targets) (has (bare u) v.queues)
      (has (bare u) v.views) f g k l h)

abbrev created : String → World → World
created t w =
    apply (create_view (bare t))
      (apply (create_queue (bare t)) (apply (create_target (bare t)) (apply (create_topic t) w)))

created-AllBacked :
    (t u : String) (w : World) (rest : List Effect)
    → backed u w ≡ true
    → AllBacked u rest (created t w)
    → AllBacked u
        (create_topic t
          ∷ create_target (bare t)
          ∷ create_queue (bare t)
          ∷ create_view (bare t)
          ∷ rest)
        w
unfolding apply
created-AllBacked t u w rest h then_rest =
    let topic = has-add_once t u w.topics in
    let target = has-add_once (bare t) (bare u) w.targets in
    let queue = has-add_once (bare t) (bare u) w.queues in
    (
      h,
      (
        Spares-backed u w (apply (create_topic t) w) (refl, topic, λ k. k, λ k. k, λ k. k) h,
        (
          Spares-backed u w (apply (create_target (bare t)) (apply (create_topic t) w))
              (refl, topic, target, λ k. k, λ k. k) h,
          (
            Spares-backed u w
                (apply (create_queue (bare t))
                  (apply (create_target (bare t)) (apply (create_topic t) w)))
                (refl, topic, target, queue, λ k. k) h,
            then_rest,
          ),
        ),
      ),
    )

created-backed : (t u : String) (w : World) → backed u w ≡ true → backed u (created t w) ≡ true
unfolding apply
created-backed t u w h =
    Spares-backed u w (created t w)
      (
        refl,
        has-add_once t u w.topics,
        has-add_once (bare t) (bare u) w.targets,
        has-add_once (bare t) (bare u) w.queues,
        has-add_once (bare t) (bare u) w.views,
      )
      h

-- The connector may be told of a table that has been created.
put_include-backed :
    (t u : String) (w : World)
    → backed u w ≡ true
    → backed u (apply (put_include (w.include ++ (t ∷ []))) (created t w)) ≡ true
unfolding apply
put_include-backed t u w h =
    let after = created-backed t u w h in
    elim (Bool-cases (str_eq t u)) [
      | inl e ↦
          subst (λ x. backed x (apply (put_include (w.include ++ (t ∷ []))) (created t w)) ≡ true)
            ((eq_iff t u).0 e)
            (rw
              (
                has-add_once_same t w.topics,
                has-add_once_same (bare t) w.targets,
                has-add_once_same (bare t) w.queues,
                has-add_once_same (bare t) w.views,
              )
              (ground arith))
      | inr e ↦
          let same : has u (w.include ++ (t ∷ [])) ≡ has u w.include =
            has-append u w.include (t ∷ []) ∙ rw e (ground arith) in
          rw same after
    ]

finish_AllBacked :
    (t u : String) (no_snapshot known : Bool) (w : World)
    → backed u w ≡ true
    → AllBacked u
        ((if no_snapshot then [] else send_signal t ∷ [])
          ++ (if known then [] else write_section (bare t) ∷ []))
        w
unfolding apply
finish_AllBacked t u true true w h = (h, tt)
finish_AllBacked t u true false w h = (h, (h, tt))
finish_AllBacked t u false true w h = (h, (h, tt))
finish_AllBacked t u false false w h = (h, (h, (h, tt)))

install_AllBacked :
    (t u : String) (w : World) (rest : List Effect)
    → backed u w ≡ true
    → ((v : World) → backed u v ≡ true → AllBacked u rest v)
    → AllBacked u
        (create_topic t
          ∷ create_target (bare t)
          ∷ create_queue (bare t)
          ∷ create_view (bare t)
          ∷ put_include (w.include ++ (t ∷ []))
          ∷ rest)
        w
install_AllBacked t u w rest h after =
    created-AllBacked t u w (put_include (w.include ++ (t ∷ [])) ∷ rest) h (
      created-backed t u w h,
      after (apply (put_include (w.include ++ (t ∷ []))) (created t w))
          (put_include-backed t u w h),
    )

pub installation-AllBacked :
    (a : Args) (s : Source) (w : World) (u : String)
    → backed u w ≡ true
    → AllBacked u (installation a s w).0 w
unfolding installation apply
installation-AllBacked a s w u h =
    let t = a.table in
    let lined = record w { topics_sh = insert_topic_line t w.topics_sh } in
    let rest =
      (if a.no_snapshot then [] else send_signal t ∷ [])
      ++ (if has_section (bare t) w.sources_yml then [] else write_section (bare t) ∷ []) in
    let after = λ (v : World) (k : backed u v ≡ true).
      finish_AllBacked t u a.no_snapshot (has_section (bare t) w.sources_yml) v k in
    let alone : (v : World) → backed u v ≡ true → AllBacked u [] v = λ v k. (k, tt) in
    elim (Bool-cases (has_topic_line t w.topics_sh)) [
      | inl known ↦ elim (Bool-cases s.running) [
        | inl r ↦ rw (known, r) (install_AllBacked t u w rest h after)
        | inr r ↦ rw (known, r) (install_AllBacked t u w [] h alone)
      ]
      | inr known ↦ elim (Bool-cases (has_anchor w.topics_sh)) [
        | inl found ↦ elim (Bool-cases s.running) [
          | inl r ↦ rw (known, found, r) (h, install_AllBacked t u lined rest h after)
          | inr r ↦ rw (known, found, r) (h, install_AllBacked t u lined [] h alone)
        ]
        | inr lost ↦ rw (known, lost) (h, tt)
      ]
    ]
