-- ===== src/Config/Sound.antt =====
-- src/config/validate.rs: what a configuration that passes is like.
use softnix_log_agent.Prelude.{
  ◌≤◌, ◌≡◌, ◌≢◌, ◌⊎◌, inl, inr, refl, ap, sym, ◌∙◌, subst, Bool, true, false, not, ◌&&◌, Option,
  none, some, List, [], ◌∷◌, map, arith, Bool-cases, Option-cases,
}
use Prim.Native.String.{String}
use text.Mathlib.Text.{◌==◌ as str_eq}
use text.Mathlib.TextEquality.{eq_iff}
use softnix_log_agent.State.{contains}
use softnix_log_agent.Pipeline.Syslog.{opt_then}
use softnix_log_agent.Config.{
  FileInputConfig, SyslogInputConfig, EventLogInputConfig, OutputConfig, WebConfig, Config,
}
use softnix_log_agent.Config.Entries.{
  Checks, blank, take_id, validate_each, file_tests, syslog_tests, eventlog_tests, output_tests,
  failover_tests,
}
use softnix_log_agent.Config.Validate.{Warning, buffer_tests, web_tests, validate_ids, validate}

-- No id is blank, and none stands twice.
abbrev pub Distinct : List String → Type 0
Distinct [] = Unit
Distinct (x ∷ xs) = (blank x ≡ false) × (contains x xs ≡ false) × Distinct xs

-- The ids in the order in which they are collected: the last comes first.
abbrev pub collect : {A : Type 0} → (A → String) → List String → List A → List String
collect id_of ids [] = ids
collect id_of ids (a ∷ rest) = collect id_of (id_of a ∷ ids) rest

abbrev pub All : {A : Type 0} → (A → Bool) → List A → Type 0
All f [] = Unit
All f (x ∷ xs) = (f x ≡ true) × All f xs

take_id-Distinct :
    (id : String) (ids more : List String)
    → take_id id ids ≡ some more
    → Distinct ids
    → (more ≡ id ∷ ids) × Distinct (id ∷ ids)
unfolding take_id
take_id-Distinct id ids more e d = (ground (arith, e), (ground (arith, e), ground (arith, e), d))

opt_then-some :
    {A B : Type 0} (o : Option A) (f : A → Option B) (b : B)
    → opt_then o f ≡ some b
    → (a : A) × (o ≡ some a) × (f a ≡ some b)
opt_then-some none f b e = absurd (ground (arith, e))
opt_then-some (some a) f b e = (a, refl, e)

elim-some :
    {B : Type 0} (t : Bool) (o : Option B) (b : B)
    → (elim t [ true ↦ o | false ↦ none ]) ≡ some b
    → (t ≡ true) × (o ≡ some b)
elim-some true o b e = (refl, e)
elim-some false o b e = absurd (ground (arith, e))

validate_each-All :
    {A : Type 0} (id_of : A → String) (test : A → Bool) (ids more : List String) (entries : List A)
    → validate_each id_of test ids entries ≡ some more
    → Distinct ids
    → (more ≡ collect id_of ids entries) × Distinct more × All test entries
unfolding validate_each
validate_each-All id_of test ids more [] e d =
    let q : ids ≡ more = ground (arith, e) in (sym q, subst Distinct q d, tt)
validate_each-All id_of test ids more (a ∷ rest) e d =
    let (next, t, f) =
      opt_then-some (take_id (id_of a) ids)
        (λ m. elim (test a) [ true ↦ validate_each id_of test m rest | false ↦ none ]) more e in
    let (n, d') = take_id-Distinct (id_of a) ids next t d in
    let (ok, g) = elim-some (test a) (validate_each id_of test next rest) more f in
    let (q, dm, h) = validate_each-All id_of test next more rest g (subst Distinct (sym n) d') in
    (q ∙ ap (λ m. collect id_of m rest) n, dm, (ok, h))

module _ (checks : Checks) where
  -- A web interface that is enabled listens on a loopback address or has a token.
  abbrev pub SoundWeb : WebConfig → Type 0
  SoundWeb w =
      (w.enabled ≡ false)
      ⊎ ((checks.parse_ip w.bind ≡ some true)
          ⊎ ((t : String) × (w.auth_token ≡ some t) × (blank t ≡ false)))

  web_tests-SoundWeb : (w : WebConfig) → web_tests checks w ≡ true → SoundWeb w
  unfolding web_tests
  web_tests-SoundWeb w e = elim (Bool-cases w.enabled) [
    | inr d ↦ inl d
    | inl d ↦ elim (Option-cases (checks.parse_ip w.bind)) [
      | inl n ↦ absurd (ground (arith, e, d, n))
      | inr (b, s) ↦ elim (Bool-cases b) [
        | inl l ↦ inr (inl (s ∙ ap some l))
        | inr l ↦ elim (Option-cases w.auth_token) [
          | inl n ↦ absurd (ground (arith, e, d, s, l, n))
          | inr (t, u) ↦ inr (inr (t, u, ground (arith, e, d, s, l, u)))
        ]
      ]
    ]
  ]

module _ {Num Tree : Type 0} where
  abbrev pub output_ids : Config Num Tree → List String
  output_ids cfg = map (λ (o : OutputConfig Num Tree). o.id) cfg.outputs

  -- The ids of all inputs and outputs.
  abbrev pub all_ids : Config Num Tree → List String
  all_ids cfg =
      collect (λ (o : OutputConfig Num Tree). o.id)
        (collect (λ (e : EventLogInputConfig). e.id)
          (collect (λ (s : SyslogInputConfig). s.id)
            (collect (λ (f : FileInputConfig). f.id) [] cfg.inputs.files) cfg.inputs.syslog)
          cfg.inputs.eventlog)
        cfg.outputs

  -- A standby output names another output that there is, and a batch has between 1 and 10000 events.
  abbrev pub SoundOutput : List String → OutputConfig Num Tree → Type 0
  SoundOutput ids o =
      ((o.failover_for ≡ none)
        ⊎ ((f : String) × (o.failover_for ≡ some f) × (contains f ids ≡ true) × (f ≢ o.id)))
      × (1 ≤ o.retry.batch_size)
      × (o.retry.batch_size ≤ 10000)

  abbrev pub SoundOutputs : List String → List (OutputConfig Num Tree) → Type 0
  SoundOutputs ids [] = Unit
  SoundOutputs ids (o ∷ os) = SoundOutput ids o × SoundOutputs ids os

module _ {Num Tree : Type 0} (checks : Checks) where
  pub record Sound (cfg : Config Num Tree) : Type 0 where
    pub ids : Distinct (all_ids cfg)
    pub outputs : SoundOutputs (output_ids cfg) cfg.outputs
    pub segment : 1 ≤ cfg.buffer.segment_size_mb
    pub cap : cfg.buffer.segment_size_mb ≤ cfg.buffer.max_size_mb
    pub web : SoundWeb checks cfg.web

  failover-Sound :
      (ids : List String) (o : OutputConfig Num Tree)
      → failover_tests checks ids o ≡ true
      → (o.failover_for ≡ none)
        ⊎ ((f : String) × (o.failover_for ≡ some f) × (contains f ids ≡ true) × (f ≢ o.id))
  unfolding failover_tests
  failover-Sound ids o e = elim (Option-cases o.failover_for) [
    | inl n ↦ inl n
    | inr (f, s) ↦
        let h =
          ap (λ z. elim z [ none ↦ true | some g ↦ contains g ids && not (str_eq g o.id) ]) (sym s)
          ∙ e in
        inr (f, s, ground (arith, h), (λ q. ground (arith, h, eq_iff f o.id, q)))
  ]

  output_tests-SoundOutput :
      (ids : List String) (o : OutputConfig Num Tree)
      → output_tests checks ids o ≡ true
      → SoundOutput ids o
  unfolding output_tests
  output_tests-SoundOutput ids o e =
      (failover-Sound ids o (ground (arith, e)), ground (arith, e), ground (arith, e))

  All-SoundOutputs :
      (ids : List String) (os : List (OutputConfig Num Tree))
      → All (output_tests checks ids) os
      → SoundOutputs ids os
  All-SoundOutputs ids [] h = tt
  All-SoundOutputs ids (o ∷ os) (e, h) =
      (output_tests-SoundOutput ids o e, All-SoundOutputs ids os h)

  validate_ids-done :
      (cfg : Config Num Tree) (ids : List String)
      → validate_ids checks cfg ≡ some ids
      → Distinct (all_ids cfg) × SoundOutputs (output_ids cfg) cfg.outputs
  unfolding validate_ids
  validate_ids-done cfg ids e =
      let (a, ea, ra) = opt_then-some _ _ ids e in
      let (b, eb, rb) = opt_then-some _ _ ids ra in
      let (c, ec, rc) = opt_then-some _ _ ids rb in
      let (qa, da, _) =
        validate_each-All (λ (f : FileInputConfig). f.id) (file_tests checks) [] a cfg.inputs.files
          ea tt in
      let (qb, db, _) =
        validate_each-All (λ (s : SyslogInputConfig). s.id) (syslog_tests checks) a b
          cfg.inputs.syslog eb da in
      let (qc, dc, _) =
        validate_each-All (λ (x : EventLogInputConfig). x.id) (eventlog_tests checks) b c
          cfg.inputs.eventlog ec db in
      let (qd, dd, h) =
        validate_each-All (λ (o : OutputConfig Num Tree). o.id)
          (output_tests checks (output_ids cfg)) c ids cfg.outputs rc dc in
      (
        subst Distinct
            (qd
              ∙ ap (λ z. collect (λ (o : OutputConfig Num Tree). o.id) z cfg.outputs)
                  (qc
                    ∙ ap (λ z. collect (λ (x : EventLogInputConfig). x.id) z cfg.inputs.eventlog)
                        (qb
                          ∙ ap (λ z. collect (λ (s : SyslogInputConfig). s.id) z cfg.inputs.syslog)
                              qa)))
            dd,
        All-SoundOutputs (output_ids cfg) cfg.outputs h,
      )

  -- A configuration that passes is sound: no id of an input or output is blank or stands twice; every
  -- standby output names another output that there is; every batch has between 1 and 10000 events;
  -- a segment is not larger than its queue; and a web interface that is enabled listens on a
  -- loopback address or has a token.
  pub validate-Sound :
      (cfg : Config Num Tree) (ws : List Warning) → validate checks cfg ≡ some ws → Sound cfg
  unfolding validate buffer_tests
  validate-Sound cfg ws e = elim (Option-cases (validate_ids checks cfg)) [
    | inl n ↦ absurd (ground (arith, e, n))
    | inr (ids, s) ↦
        let (d, o) = validate_ids-done cfg ids s in
        record {
          ids = d;
          outputs = o;
          segment = ground (arith, e, s);
          cap = ground (arith, e, s);
          web = web_tests-SoundWeb checks cfg.web (ground (arith, e, s));
        }
  ]
