-- ===== src/Counter/Laws.antt =====
-- What the compare-and-swap loops achieve under any finite interference.
use memory_write_ahead_vfs.Base.{
  ℕ, ◌+◌, ◌≤◌, ◌≡◌, inl, inr, min, true, false, Option, none, some, List, [], ◌∷◌, ℤ, pos, eqb_ℤ,
  Bool-cases, Option-cases, eqb_ℤ-eq, arith,
}
use memory_write_ahead_vfs.Counter.{
  max_int32_atomic_counter, cas_loop, saturated, propose_saturated, add_saturating_atomic_counter,
  bump,
}

-- The value that a loop's last round found in the slot.
abbrev pub last_seen : (ℤ → Option ℤ) → ℤ → List ℤ → ℤ
last_seen propose current [] = current
last_seen propose current (seen ∷ others) = elim (propose current) [
  | none ↦ current
  | some next ↦ elim (eqb_ℤ seen current) [ true ↦ seen | false ↦ last_seen propose seen others ]
]

abbrev pub outcome : (ℤ → Option ℤ) → ℤ → ℤ
outcome propose v = elim (propose v) [ none ↦ v | some next ↦ next ]

-- Every loop ends as one uninterrupted update of the value it last found, however others interfere.
pub cas_loop_atomic :
    (propose : ℤ → Option ℤ) (current : ℤ) (others : List ℤ)
    → let v = last_seen propose current others in
      cas_loop propose current others
      ≡ record { returned = outcome propose v; slot = outcome propose v }
unfolding cas_loop
cas_loop_atomic propose current [] = elim (Option-cases (propose current)) [
  | inl e ↦ ground arith
  | inr (next, e) ↦ ground arith
]
cas_loop_atomic propose current (seen ∷ others) = elim (Option-cases (propose current)) [
  | inl e ↦ ground arith
  | inr (next, e) ↦ elim (Bool-cases (eqb_ℤ seen current)) [
    | inl same ↦ ground (arith, eqb_ℤ-eq seen current same)
    | inr differs ↦ ground (arith, cas_loop_atomic propose seen others)
  ]
]

-- Without interference, on a counter that is not negative.
pub bump-pos :
    (a d : ℕ)
    → a ≤ max_int32_atomic_counter
    → bump (pos a) d ≡ pos (min max_int32_atomic_counter (a + d))
unfolding bump add_saturating_atomic_counter cas_loop propose_saturated saturated
bump-pos a d h = ground arith
