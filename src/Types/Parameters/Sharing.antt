-- ===== src/Types/Parameters/Sharing.antt =====
-- types/policy.go: Clamp, Set and Clone, and what is shared.
use adaptive_caching.Base.{
  ℕ, suc, ◌<◌, ◌≤◌, ◌≡◌, ◌≢◌, refl, sym, ◌∙◌, ap, inl, inr, true, ◌||◌, [], ◌∷◌, none, some, ite,
  if_pos, arith, Key, key_dec, ℕ_discrete, lookup, upsert, lookup-upsert, Option-cases, Bool-cases,
  Returns, is_some,
}
use adaptive_caching.Floats.{Float64, lt_float}
use adaptive_caching.Types.Parameters.{
  Parameter, out_of_range, Memory, cell, ParamSet, allocate, set, clone, values,
}

-- Every parameter of the set is at an address that was allocated before `n`.
abbrev pub AreBelow : ℕ → ParamSet → Type 0
AreBelow n [] = Unit
AreBelow n ((k, a) ∷ ps) = (a < n) × AreBelow n ps

-- The parameters of the set are all there, at addresses from `n` on.
abbrev pub AreNew : ℕ → Memory → ParamSet → Type 0
AreNew n mem [] = Unit
AreNew n mem ((k, a) ∷ ps) = (n ≤ a) × (is_some (cell mem a) ≡ true) × AreNew n mem ps

AreNew-le : (m n : ℕ) (mem : Memory) (ps : ParamSet) → m ≤ n → AreNew n mem ps → AreNew m mem ps
AreNew-le m n mem [] h a = tt
AreNew-le m n mem ((k, b) ∷ ps) h a = (omega (arith, h, a.0), a.1, AreNew-le m n mem ps h a.2)

-- The memory below an address is the same.
abbrev pub IsSameBelow : ℕ → Memory → Memory → Type 0
IsSameBelow n mem mem' = (a : ℕ) → a < n → cell mem' a ≡ cell mem a

-- Only the cells of a set decide its values.
values-cell :
    (ps : ParamSet) (n : ℕ) (mem mem' : Memory)
    → AreBelow n ps
    → IsSameBelow n mem mem'
    → values ps mem' ≡ values ps mem
unfolding values
values-cell [] n mem mem' b h = refl
values-cell ((k, a) ∷ ps) n mem mem' b h = ground (arith, h a b.0, values-cell ps n mem mem' b.1 h)

AreBelow-le : (m n : ℕ) (ps : ParamSet) → m ≤ n → AreBelow m ps → AreBelow n ps
AreBelow-le m n [] h a = tt
AreBelow-le m n ((k, b) ∷ ps) h a = (omega (arith, h, a.0), AreBelow-le m n ps h a.1)

-- What Clone gives for a set in a memory: the same values at new addresses, in a memory that is the
-- same elsewhere.
pub record IsClone (ps : ParamSet) (mem : Memory) (r : ParamSet × Memory) : Type 0 where
  pub equal : values r.0 r.1 ≡ values ps mem
  pub fresh : AreNew mem.next r.1 r.0
  pub kept : IsSameBelow mem.next mem r.1
  pub grown : mem.next ≤ r.1.next

module _ (p : Parameter) (mem : Memory) where
  abbrev after : Memory
  after = (allocate p mem).1

  cell-allocate : (a : ℕ) → cell after a ≡ ite (ℕ_discrete mem.next a) (some p) (cell mem a)
  cell-allocate a = lookup-upsert ℕ_discrete mem.next a p mem.cells

  kept-allocate : IsSameBelow mem.next mem after
  kept-allocate a h = ground (arith, cell-allocate a, h)

clone_present :
    (k : Key) (a : ℕ) (p : Parameter) (ps : ParamSet) (mem : Memory)
    → cell mem a ≡ some p
    → clone ((k, a) ∷ ps) mem
      ≡ ((k, mem.next) ∷ (clone ps (after p mem)).0, (clone ps (after p mem)).1)
unfolding clone
clone_present k a p ps mem hit = rw (hit, clone) refl

clone_absent :
    (k : Key) (a : ℕ) (ps : ParamSet) (mem : Memory)
    → cell mem a ≡ none
    → clone ((k, a) ∷ ps) mem ≡ clone ps mem
unfolding clone
clone_absent k a ps mem miss = rw (miss, clone) refl

values_present :
    (k : Key) (a : ℕ) (p : Parameter) (ps : ParamSet) (mem : Memory)
    → cell mem a ≡ some p
    → values ((k, a) ∷ ps) mem ≡ (k, p.current) ∷ values ps mem
unfolding values
values_present k a p ps mem hit = rw (hit, values) refl

values_absent :
    (k : Key) (a : ℕ) (ps : ParamSet) (mem : Memory)
    → cell mem a ≡ none
    → values ((k, a) ∷ ps) mem ≡ values ps mem
unfolding values
values_absent k a ps mem miss = rw (miss, values) refl

-- Clone of a set whose parameters were all allocated gives the same values at new addresses, all of
-- them there, and leaves every older cell as it was.
pub clone-IsClone :
    (ps : ParamSet) (mem : Memory) → AreBelow mem.next ps → IsClone ps mem (clone ps mem)
unfolding clone values
clone-IsClone [] mem b = record {
  equal = refl;
  fresh = tt;
  kept = λ a h. refl;
  grown = omega arith;
}
clone-IsClone ((k, a) ∷ ps) mem b = elim (Option-cases (cell mem a)) [
  | inl miss ↦
      let c = clone-IsClone ps mem b.1 in
      rw (clone_absent k a ps mem miss) (record {
        equal = c.equal ∙ sym (values_absent k a ps mem miss);
        fresh = c.fresh;
        kept = c.kept;
        grown = c.grown;
      })
  | inr (p, hit) ↦
      let c =
        clone-IsClone ps (after p mem) (AreBelow-le mem.next (suc mem.next) ps (omega arith) b.1) in
      let there : cell (clone ps (after p mem)).1 mem.next ≡ some p =
        c.kept mem.next (omega arith)
        ∙ cell-allocate p mem mem.next
        ∙ if_pos (ℕ_discrete mem.next mem.next) refl _ _ in
      rw (clone_present k a p ps mem hit) (record {
        equal =
            values_present k mem.next p (clone ps (after p mem)).0 (clone ps (after p mem)).1 there
            ∙ ap (◌∷◌ (k, p.current))
                (c.equal ∙ values-cell ps mem.next mem (after p mem) b.1 (kept-allocate p mem))
            ∙ sym (values_present k a p ps mem hit);
        fresh = (
          omega arith,
          ap is_some there,
          AreNew-le mem.next (suc mem.next) (clone ps (after p mem)).1 (clone ps (after p mem)).0
              (omega arith) c.fresh,
        );
        kept = λ i h. c.kept i (omega (arith, h)) ∙ kept-allocate p mem i h;
        grown = omega (arith, c.grown);
      })
]

-- Set at an address with a parameter, which writes that cell alone.
set_present :
    (a : ℕ) (v : Float64) (mem : Memory) (p : Parameter)
    → cell mem a ≡ some p
    → Returns (set a v mem) (λ r. (b : ℕ) → b ≢ a → cell r.0 b ≡ cell mem b)
unfolding set
set_present a v mem p hit = elim (Bool-cases (lt_float v p.min || lt_float p.max v)) [
  | inl out ↦
      ((mem, some (out_of_range p.name v p.min p.max)), rw (hit, set, out) refl, λ b n. refl)
  | inr within ↦ (
    (record mem { cells = upsert ℕ_discrete a (record p { current = v }) mem.cells }, none),
    rw (hit, set, within) refl,
    λ b n. ground (arith, lookup-upsert ℕ_discrete a b (record p { current = v }) mem.cells, n),
  )
]

lookup-AreNew :
    (n : ℕ) (mem : Memory) (k : Key) (a : ℕ) (ps : ParamSet)
    → AreNew n mem ps
    → lookup key_dec k ps ≡ some a
    → (n ≤ a) × (is_some (cell mem a) ≡ true)
unfolding lookup
lookup-AreNew n mem k a [] new h = absurd (ground arith)
lookup-AreNew n mem k a ((j, b) ∷ ps) new h = elim (key_dec j k) [
  | yes e ↦ ground (arith, new.0, new.1)
  | no e ↦ lookup-AreNew n mem k a ps new.2 (ground arith)
]

-- To set a parameter of a clone, to any value, returns, and leaves the values of the original set
-- as they were.
pub set-values-clone :
    (ps : ParamSet) (mem : Memory) (k : Key) (a : ℕ) (v : Float64)
    → AreBelow mem.next ps
    → lookup key_dec k (clone ps mem).0 ≡ some a
    → Returns (set a v (clone ps mem).1) (λ r. values ps r.0 ≡ values ps mem)
set-values-clone ps mem k a v b found =
    let c = clone-IsClone ps mem b in
    let (new, there) = lookup-AreNew mem.next (clone ps mem).1 k a (clone ps mem).0 c.fresh found in
    elim (Option-cases (cell (clone ps mem).1 a)) [
      | inl miss ↦ absurd (ground arith)
      | inr (p, hit) ↦
          let (r, ran, same) = set_present a v (clone ps mem).1 p hit in
          (
            r,
            ran,
            values-cell ps mem.next mem r.0 b
                (λ i h. same i (λ e. omega (arith, h, e, new)) ∙ c.kept i h),
          )
    ]
