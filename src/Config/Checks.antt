-- ===== src/Config/Checks.antt =====
-- Validate and Parse of config/validate.go and config/config.go.
use adaptive_caching.Base.{
  ◌%◌, ◌≤◌, ◌<◌, ◌≡◌, ◌≢◌, ◌⊎◌, ◌↔◌, refl, sym, ◌∙◌, inl, inr, Bool, true, false, not, ◌||◌, List,
  [], ◌∷◌, ◌++◌, arith, Key, key_dec, Int64, two63, two64, str_eq-false, ◌==◌,
}
use adaptive_caching.Floats.{literal, lt_float, le_float}
use adaptive_caching.Policy.Registry.{Registry, is_known, names}
use adaptive_caching.Config.{
  Config, Problem, policy_empty, policy_unknown, capacity_not_positive, bus_buffer_not_positive,
  metrics_buffer_not_positive, frame_buffer_not_positive, sample_rate_zero, frame_rate_out_of_range,
  log_level_unknown, valid_log_levels, valid_log_level, max_frame_rate, check, not_positive,
  check_policy, validate,
}

-- A number of 64 bits that is above 0.
abbrev pub IsPositive : Int64 → Type 0
IsPositive v = (1 ≤ v % two64) × (v % two64 < two63)

-- What a configuration has to satisfy.
pub record IsSane {P : Type 0} (r : Registry P) (c : Config) : Type 0 where
  pub capacity : IsPositive c.cache.capacity
  pub policy :
      (c.cache.policy ≡ "none") ⊎ ((c.cache.policy ≢ "") × (is_known c.cache.policy r ≡ true))
  pub bus_buffer : IsPositive c.events.bus_buffer
  pub metrics_buffer : IsPositive c.events.metrics_buffer
  pub frame_buffer : IsPositive c.events.frame_buffer
  pub sample_rate : c.events.request_sample_rate ≢ 0
  pub frame_rate :
      (le_float c.frame_rate_hz (literal 0 1) ≡ false)
      × (lt_float max_frame_rate c.frame_rate_hz ≡ false)
  pub log_level :
      (c.log_level ≡ "debug")
      ⊎ (c.log_level ≡ "info")
      ⊎ (c.log_level ≡ "warn")
      ⊎ (c.log_level ≡ "error")

append-ne_nil : (errs : List Problem) (e : Problem) → errs ++ e ∷ [] ≢ []
append-ne_nil [] e h = absurd (ground arith)
append-ne_nil (x ∷ errs) e h = absurd (ground arith)

pub Problems-cases :
    (l : List Problem) → (l ≡ []) ⊎ ((p : Problem) × (ps : List Problem) × (l ≡ p ∷ ps))
Problems-cases [] = inl refl
Problems-cases (p ∷ ps) = inr (p, ps, refl)

check-nil :
    (bad : Bool) (e : Problem) (errs : List Problem)
    → (check bad e errs ≡ []) ↔ ((bad ≡ false) × (errs ≡ []))
check-nil true e errs = (λ h. absurd (append-ne_nil errs e h), λ h. absurd (ground arith))
check-nil false e errs = (λ h. (refl, h), λ h. h.1)

not_positive-IsPositive : (v : Int64) → (not_positive v ≡ false) ↔ IsPositive v
not_positive-IsPositive v = (λ h. (ground arith, ground arith), λ h. ground arith)

check-IsPositive :
    (v : Int64) (e : Problem) (errs : List Problem)
    → (check (not_positive v) e errs ≡ []) ↔ (IsPositive v × (errs ≡ []))
check-IsPositive v e errs =
    let c = check-nil (not_positive v) e errs in
    (
      λ h. let (ok, rest) = c.0 h in ((not_positive-IsPositive v).0 ok, rest),
      λ s. c.1 ((not_positive-IsPositive v).1 s.0, s.1),
    )

level_known :
    (l : Key)
    → (not (valid_log_level valid_log_levels l) ≡ false)
      ↔ ((l ≡ "debug") ⊎ (l ≡ "info") ⊎ (l ≡ "warn") ⊎ (l ≡ "error"))
level_known l = (λ h. ground arith, λ h. ground arith)

none_text : (name : Key) → name ≡ "none" → name ≢ ""
none_text name h e = str_eq-false "none" "" refl (sym h ∙ e)

module _ {P : Type 0} where
  check_policy-nil :
      (r : Registry P) (name : Key) (errs : List Problem)
      → (check_policy r name errs ≡ [])
        ↔ (((name ≡ "none") ⊎ ((name ≢ "") × (is_known name r ≡ true))) × (errs ≡ []))
  unfolding check_policy
  check_policy-nil r name errs = elim (key_dec name "") [
    | yes e ↦ (
      λ h. absurd (append-ne_nil errs policy_empty (ground arith)),
      λ h. absurd (ground (arith, none_text name)),
    )
    | no e ↦ elim (key_dec name "none") [
      | yes n ↦ (λ h. (inl n, ground arith), λ h. ground arith)
      | no n ↦
          let c = check-nil (not (is_known name r)) (policy_unknown name (names r)) errs in
          (
            λ h. let (a, b) = c.0 (ground arith) in (inr (e, ground arith), b),
            λ h. let back = c.1 (ground arith, h.1) in ground arith,
          )
    ]
  ]

  -- The problems that were found after each of the checks of Validate, and what it means that there is
  -- none.
  module _ (r : Registry P) (c : Config) where
    abbrev after_policy : List Problem
    after_policy =
        check_policy r c.cache.policy
          (check (not_positive c.cache.capacity) (capacity_not_positive c.cache.capacity) [])

    policy_found : (after_policy ≡ []) ↔ (
        ((c.cache.policy ≡ "none") ⊎ ((c.cache.policy ≢ "") × (is_known c.cache.policy r ≡ true)))
        × IsPositive c.cache.capacity)
    policy_found =
        let a =
          check_policy-nil r c.cache.policy
            (check (not_positive c.cache.capacity) (capacity_not_positive c.cache.capacity) []) in
        let b = check-IsPositive c.cache.capacity (capacity_not_positive c.cache.capacity) [] in
        (λ h. let (known, h') = a.0 h in (known, (b.0 h').0), λ s. a.1 (s.0, b.1 (s.1, refl)))

    abbrev after_buffers : List Problem
    after_buffers =
        check (not_positive c.events.frame_buffer) (frame_buffer_not_positive c.events.frame_buffer)
          (check (not_positive c.events.metrics_buffer)
            (metrics_buffer_not_positive c.events.metrics_buffer)
            (check (not_positive c.events.bus_buffer) (bus_buffer_not_positive c.events.bus_buffer)
              after_policy))

    buffers_found : (after_buffers ≡ []) ↔ (
        IsPositive c.events.frame_buffer
        × IsPositive c.events.metrics_buffer
        × IsPositive c.events.bus_buffer
        × (after_policy ≡ []))
    buffers_found =
        let bus =
          check-IsPositive c.events.bus_buffer (bus_buffer_not_positive c.events.bus_buffer)
            after_policy in
        let after_bus =
          check (not_positive c.events.bus_buffer) (bus_buffer_not_positive c.events.bus_buffer)
            after_policy in
        let metrics =
          check-IsPositive c.events.metrics_buffer
            (metrics_buffer_not_positive c.events.metrics_buffer) after_bus in
        let after_metrics =
          check (not_positive c.events.metrics_buffer)
            (metrics_buffer_not_positive c.events.metrics_buffer) after_bus in
        let frame =
          check-IsPositive c.events.frame_buffer (frame_buffer_not_positive c.events.frame_buffer)
            after_metrics in
        (
          λ h.
              let (f, h₁) = frame.0 h in
              let (m, h₂) = metrics.0 h₁ in let (b, h₃) = bus.0 h₂ in (f, m, b, h₃),
          λ s. let (f, m, b, h) = s in frame.1 (f, metrics.1 (m, bus.1 (b, h))),
        )

    abbrev bad_rate : Bool
    bad_rate = le_float c.frame_rate_hz (literal 0 1) || lt_float max_frame_rate c.frame_rate_hz

    -- Validate finds no problem exactly if the configuration is sane: the capacity and the three buffers
    -- are above 0, the policy is "none" or registered, the sample rate is not 0, the frame rate is not at
    -- most 0 and not above 240 (a NaN is neither), and the level of the log is one of the four.
    pub validate-IsSane : (validate r c ≡ []) ↔ IsSane r c
    unfolding validate
    validate-IsSane =
        let after_sample =
          check (c.events.request_sample_rate == 0) sample_rate_zero after_buffers in
        let sample = check-nil (c.events.request_sample_rate == 0) sample_rate_zero after_buffers in
        let rate = check-nil bad_rate (frame_rate_out_of_range c.frame_rate_hz) after_sample in
        let level =
          check-nil (not (valid_log_level valid_log_levels c.log_level))
            (log_level_unknown c.log_level)
            (check bad_rate (frame_rate_out_of_range c.frame_rate_hz) after_sample) in
        (
          λ h.
              let (l, h₁) = level.0 h in
              let (fr, h₂) = rate.0 h₁ in
              let (s, h₃) = sample.0 h₂ in
              let (f, m, b, h₄) = buffers_found.0 h₃ in
              let (known, capacity) = policy_found.0 h₄ in
              record {
                capacity = capacity;
                policy = known;
                bus_buffer = b;
                metrics_buffer = m;
                frame_buffer = f;
                sample_rate = λ e. ground (arith, s);
                frame_rate = (ground arith, ground arith);
                log_level = (level_known c.log_level).0 l;
              },
          λ s.
              let h₁ = buffers_found.1 (
                s.frame_buffer,
                s.metrics_buffer,
                s.bus_buffer,
                policy_found.1 (s.policy, s.capacity),
              ) in
              let h₂ = sample.1 (ground (arith, s.sample_rate), h₁) in
              let h₃ = rate.1 (ground (arith, s.frame_rate), h₂) in
              level.1 ((level_known c.log_level).1 s.log_level, h₃),
        )
