-- ===== src/Buddy/Zones/Fallback.antt =====
-- buddy/buddy.c: the zone that an allocation starts with.
use mathlib.Core.Path.{subst, sym}
use xlinux.Common.{
  ℕ, zero, suc, ◌≤◌, ◌<◌, ◌≡◌, ◌≢◌, inl, inr, List, [], ◌∷◌, ltb, ◌==◌, arith, Bool-cases,
}
use xlinux.Buddy.Zones.{build_zonerefs_node, next_zones_zonelist}

-- The zones from an index on: none below `n` is managed, or the first is the highest that is.
pub data Chosen (managed : ℕ → ℕ) (n highest : ℕ) : List ℕ → Type 0 where
  nothing : ((z : ℕ) → z < n → z ≤ highest → managed z ≡ 0) → Chosen managed n highest []
  zone :
      (z : ℕ) (l : List ℕ)
      → z < n
      → z ≤ highest
      → managed z ≢ 0
      → ((z' : ℕ) → z < z' → z' < n → z' ≤ highest → managed z' ≡ 0)
      → Chosen managed n highest (z ∷ l)

module _ (managed : ℕ → ℕ) (highest : ℕ) where
  more :
      (n : ℕ) (l : List ℕ)
      → (n ≤ highest → managed n ≡ 0)
      → Chosen managed n highest l
      → Chosen managed (suc n) highest l
  more n _ not_here (Chosen.nothing none_below) = Chosen.nothing (λ z h le.
      elim (Bool-cases (z == n)) [
        | inl same ↦
            let e : z ≡ n = ground (arith, same) in
            subst (λ z. managed z ≡ 0) (sym e) (not_here (ground (arith, same, le)))
        | inr other ↦ none_below z (ground (arith, other)) le
      ])
  more n _ not_here (Chosen.zone z l below le is_managed none_above) =
      Chosen.zone z l (omega arith) le is_managed (λ z' up h le'. elim (Bool-cases (z' == n)) [
        | inl same ↦
            let e : z' ≡ n = ground (arith, same) in
            subst (λ z. managed z ≡ 0) (sym e) (not_here (ground (arith, same, le')))
        | inr other ↦ none_above z' up (ground (arith, other)) le'
      ])

  -- The zonelist of a node, from the highest allowed index on, starts with the highest managed zone
  -- that is allowed, and is empty only if there is none.
  pub zonelist-Chosen :
      (n : ℕ)
      → Chosen managed n highest (next_zones_zonelist (build_zonerefs_node managed n) highest)
  unfolding next_zones_zonelist build_zonerefs_node
  zonelist-Chosen zero = Chosen.nothing (λ z h le. absurd (omega arith))
  zonelist-Chosen (suc n) = elim (Bool-cases (managed n == 0)) [
    | inl unmanaged ↦ rw unmanaged (more n _ (λ le. ground (arith, unmanaged)) (zonelist-Chosen n))
    | inr is_managed ↦ elim (Bool-cases (ltb highest n)) [
      | inl too_high ↦
          rw (is_managed, too_high)
            (more n _ (λ le. absurd (ground (arith, too_high, le))) (zonelist-Chosen n))
      | inr allowed ↦
          rw (is_managed, allowed)
            (Chosen.zone n (build_zonerefs_node managed n) (omega arith) (ground (arith, allowed))
              (ground (arith, is_managed)) (λ z up h le. absurd (omega arith)))
    ]
  ]
