-- ===== src/Config/Parsing.antt =====
-- Parse of config/config.go.
use adaptive_caching.Base.{
  ◌≡◌, ◌≢◌, ◌↔◌, refl, sym, ◌∙◌, ap, inl, inr, List, [], ◌∷◌, Option, none, some, arith,
  Option-cases,
}
use adaptive_caching.Policy.Registry.{Registry}
use adaptive_caching.Config.{
  Config, Problem, validate, ParseError, accepted, rejected, malformed, invalid, parse, default,
}
use adaptive_caching.Config.Checks.{validate-IsSane, IsSane, Problems-cases}

module _ {P : Type 0} where
  module _ {D : Type 0} (decode : D → Config → Option Config) (r : Registry P) (d : D) where
    parse_malformed : decode d default ≡ none → parse decode r d ≡ rejected malformed
    unfolding parse
    parse_malformed e = rw (e, parse) refl

    parse_invalid :
        (c : Config) (p : Problem) (ps : List Problem)
        → decode d default ≡ some c
        → validate r c ≡ p ∷ ps
        → parse decode r d ≡ rejected (invalid (p ∷ ps))
    unfolding parse
    parse_invalid c p ps e bad = rw (e, parse, bad) refl

    parse_valid :
        (c : Config) → decode d default ≡ some c → validate r c ≡ [] → parse decode r d ≡ accepted c
    unfolding parse
    parse_valid c e ok = rw (e, parse, ok) refl

    accepted_inj : {a b : Config} → accepted a ≡ accepted b → a ≡ b
    accepted_inj e = cc

    not_accepted : (e : ParseError) (c : Config) → rejected e ≢ accepted c
    not_accepted e c h = absurd (ground arith)

    -- Parse accepts a document exactly if the decoder does and gives a sane configuration, which is then
    -- the result.
    pub parse-IsSane :
        (c : Config) → (parse decode r d ≡ accepted c) ↔ ((decode d default ≡ some c) × IsSane r c)
    parse-IsSane c = (
      λ h. elim (Option-cases (decode d default)) [
        | inl miss ↦ absurd (not_accepted malformed c (sym (parse_malformed miss) ∙ h))
        | inr (c', hit) ↦ elim (Problems-cases (validate r c')) [
          | inl ok ↦
              let same : c' ≡ c = accepted_inj (sym (parse_valid c' hit ok) ∙ h) in
              (hit ∙ ap some same, (validate-IsSane r c).0 (sym (ap (validate r) same) ∙ ok))
          | inr (p, ps, bad) ↦
              absurd (not_accepted (invalid (p ∷ ps)) c (sym (parse_invalid c' p ps hit bad) ∙ h))
        ]
      ],
      λ s. parse_valid c s.0 ((validate-IsSane r c).1 s.1),
    )
