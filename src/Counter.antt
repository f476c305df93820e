-- ===== src/Counter.antt =====
-- The compare-and-swap loops of src/memoryWriteAheadSharedRuntime.ts that update one `Int32Array`
-- slot: addSaturatingAtomicCounter, updateAtomicMaxCounter and the loop of reduceOpenHandleCount.
-- Other threads may store to the slot between the load and the compare-exchange of a round:
-- `others` lists the values that the compare-exchanges of the rounds find there, one a round; when
-- the list ends nobody interferes any more. A finite list is all the fairness the loops need.
pub mod Laws
use memory_write_ahead_vfs.Base.{
  ℕ, ◌-◌, ◌^◌, min, Bool, true, false, Option, none, some, List, [], ◌∷◌, ℤ, pos, negsuc, ltb,
  ltb_ℤ, leb_ℤ, eqb_ℤ, add_ℕ, sub_ℕ, if◌then◌else◌,
}

-- 0x7fffffff
abbrev pub max_int32_atomic_counter : ℕ
max_int32_atomic_counter = 2 ^ 31 - 1

-- What a loop returns, and what the slot then holds.
pub record Exchange : Type 0 where
  pub returned : ℤ
  pub slot : ℤ

-- `propose current` is what the round would store; `none` ends the loop by its test.
pub cas_loop : (ℤ → Option ℤ) → ℤ → List ℤ → Exchange
cas_loop propose current [] = elim (propose current) [
  | none ↦ record { returned = current; slot = current }
  | some next ↦ record { returned = next; slot = next }
]
cas_loop propose current (seen ∷ others) = elim (propose current) [
  | none ↦ record { returned = current; slot = current }
  | some next ↦ elim (eqb_ℤ seen current) [
    | true ↦ record { returned = next; slot = next }
    | false ↦ cas_loop propose seen others
  ]
]

abbrev pub min_ℤ : ℤ → ℤ → ℤ
min_ℤ a b = if ltb_ℤ b a then b else a

pub saturated : ℕ → ℤ → ℤ
saturated delta current =
    if ltb_ℤ current (pos 0)
    then pos max_int32_atomic_counter
    else min_ℤ (pos max_int32_atomic_counter) (add_ℕ current delta)

pub propose_saturated : ℕ → ℤ → Option ℤ
unfolding saturated
propose_saturated delta current =
    if ltb_ℤ current (pos max_int32_atomic_counter) then some (saturated delta current) else none

pub add_saturating_atomic_counter : ℤ → ℕ → List ℤ → Exchange
unfolding cas_loop propose_saturated
add_saturating_atomic_counter slot delta others = cas_loop (propose_saturated delta) slot others

pub propose_max : ℕ → ℤ → Option ℤ
propose_max value current =
    let next_value = pos (min max_int32_atomic_counter value) in
    if ltb_ℤ current next_value then some next_value else none

pub update_atomic_max_counter : ℤ → ℕ → List ℤ → Exchange
unfolding cas_loop propose_max
update_atomic_max_counter slot value others = cas_loop (propose_max value) slot others

-- The two updates as the holder of the file lock makes them: without interference.
unfoldable pub bump : ℤ → ℕ → ℤ
unfolding add_saturating_atomic_counter
bump slot delta = (add_saturating_atomic_counter slot delta []).slot

unfoldable pub raise_to : ℤ → ℕ → ℤ
unfolding update_atomic_max_counter
raise_to slot value = (update_atomic_max_counter slot value []).slot
