-- ===== src/Freshness/Residue.antt =====
-- The arithmetic of truncated counters: which number a residue stands for.
use native.Mathlib.Nat.{
  div-add-mod', mul-add-mod_self_right, mod-lt, mod-eq_of_lt, add-mod_right, mul-le-mul_right,
}
use native.Mathlib.Decide.{dec_lt}
use sec_oc.Base.{ℕ, ◌+◌, ◌*◌, ◌/◌, ◌%◌, ◌≤◌, ◌<◌, ◌≡◌, sym, ◌∙◌, arith}
use sec_oc.Freshness.{reconstruct}

-- Numbers less than `m` apart with one residue are one number.
pub residue_unique : (m a b : ℕ) → a % m ≡ b % m → a ≤ b → b < a + m → a ≡ b
residue_unique m a b e le lt = elim (dec_lt (a / m) (b / m)) [
  | yes p ↦ absurd (omega (arith, div-add-mod' a m, div-add-mod' b m, mul-le-mul_right m p))
  | no p ↦
      let q : b / m ≤ a / m = omega arith in
      omega (arith, div-add-mod' a m, div-add-mod' b m, mul-le-mul_right m q)
]

module _ (m last t : ℕ) (small : t < m) where
  pub reconstruct_bounds : (last < reconstruct m last t) × (reconstruct m last t ≤ last + m)
  unfolding reconstruct
  reconstruct_bounds = ground (arith, div-add-mod' last m, mod-lt last {m = m})

  pub reconstruct-mod : reconstruct m last t % m ≡ t
  unfolding reconstruct
  reconstruct-mod = ground (
    arith,
    mul-add-mod_self_right (last / m) m t,
    add-mod_right (last / m * m + t) m,
    mod-eq_of_lt small,
  )

-- The residue of the last value stands for the value one period later.
pub reconstruct_self : (m last : ℕ) → reconstruct m last (last % m) ≡ last + m
unfolding reconstruct
reconstruct_self m last = ground (arith, div-add-mod' last m)

pub reconstruct_above : (m last t : ℕ) → 0 < m → last < reconstruct m last t
unfolding reconstruct
reconstruct_above m last t pos = ground (arith, div-add-mod' last m, mod-lt last {m = m})

pub reconstruct-mod_any : (m last t : ℕ) → reconstruct m last t % m ≡ t % m
unfolding reconstruct
reconstruct-mod_any m last t =
    ground (arith, mul-add-mod_self_right (last / m) m t, add-mod_right (last / m * m + t) m)

-- A field that stood for one value stands, later, for that value or one at least a period away.
pub reconstruct_again :
    (m last later t : ℕ)
    → 0 < m
    → reconstruct m last t ≤ later
    → reconstruct m last t + m ≤ reconstruct m later t
reconstruct_again m last later t pos le =
    elim (dec_lt (reconstruct m later t) (reconstruct m last t + m)) [
      | yes near ↦
          let same : reconstruct m last t ≡ reconstruct m later t =
            residue_unique m (reconstruct m last t) (reconstruct m later t)
              (reconstruct-mod_any m last t ∙ sym (reconstruct-mod_any m later t))
              (omega (arith, reconstruct_above m later t pos)) near in
          absurd (omega (arith, reconstruct_above m later t pos))
      | no far ↦ omega arith
    ]

-- The value that a truncated counter stands for is the one in the period above the last value.
pub reconstruct_unique :
    (m last v w : ℕ)
    → 0 < m
    → last < w
    → w ≤ last + m
    → w % m ≡ v % m
    → w ≡ reconstruct m last (v % m)
reconstruct_unique m last v w pos lo hi e =
    let small : v % m < m = mod-lt v pos in
    let r = reconstruct m last (v % m) in
    let same : w % m ≡ r % m = e ∙ sym (reconstruct-mod m last (v % m) small) in
    let (above, below) = reconstruct_bounds m last (v % m) small in
    elim (dec_lt w r) [
      | yes lt ↦ residue_unique m w r same (omega arith) (omega arith)
      | no ge ↦ sym (residue_unique m r w (sym same) (omega arith) (omega arith))
    ]

-- A field of fewer bytes than the counter is taken to have: below the residue of the last value it
-- stands for a value of the next long period.
pub reconstruct_short :
    (m last t window : ℕ)
    → 0 < m
    → t ≤ last % m
    → last % m + window < m
    → last + window < reconstruct m last t
unfolding reconstruct
reconstruct_short m last t window pos small narrow = ground (arith, div-add-mod' last m)
