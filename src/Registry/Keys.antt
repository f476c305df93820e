-- ===== src/Registry/Keys.antt =====
-- A JavaScript `Map` or object with text keys (src/memoryWriteAheadSharedRuntime.ts), in the order in
-- which its keys came in.
use Prim.Native.String.{String}
use text.Mathlib.Text.{◌==◌}
use text.Mathlib.TextPositions.{eq_refl}
use text.Mathlib.TextEquality.{eq_iff}
use memory_write_ahead_vfs.Base.{
  Bool, true, Option, none, some, List, [], ◌∷◌, ◌≡◌, refl, ap, ◌∙◌, false, if◌then◌else◌,
  Bool-cases, inl, inr,
}

abbrev pub same_text : String → String → Bool
same_text s t = s == t

pub same_text_refl : (s : String) → same_text s s ≡ true
same_text_refl s = eq_refl s

abbrev pub Table : Type 0 → Type 0
Table Value = List (String × Value)

module _ {Value : Type 0} where
  abbrev pub find_key : String → Table Value → Option Value
  find_key wanted [] = none
  find_key wanted (entry ∷ table) =
      if same_text entry.0 wanted then some (entry.1) else find_key wanted table

  abbrev pub store_key : String → Value → Table Value → Table Value
  store_key wanted value [] = (wanted, value) ∷ []
  store_key wanted value (entry ∷ table) =
      if same_text entry.0 wanted
      then (entry.0, value) ∷ table
      else entry ∷ store_key wanted value table

  abbrev pub delete_key : String → Table Value → Table Value
  delete_key wanted [] = []
  delete_key wanted (entry ∷ table) =
      let rest = delete_key wanted table in if same_text entry.0 wanted then rest else entry ∷ rest

  pub find_key-delete_key :
      (key : String) (table : Table Value) → find_key key (delete_key key table) ≡ none
  find_key-delete_key key [] = refl
  find_key-delete_key key (entry ∷ table) = elim (Bool-cases (same_text entry.0 key)) [
    | inl e ↦ rw e (find_key-delete_key key table)
    | inr e ↦ rw (e, e) (find_key-delete_key key table)
  ]

  pub find_key-store_key :
      (key : String) (value : Value) (table : Table Value)
      → find_key key (store_key key value table) ≡ some value
  find_key-store_key key value [] = rw (same_text_refl key) refl
  find_key-store_key key value (entry ∷ table) = elim (Bool-cases (same_text entry.0 key)) [
    | inl e ↦ rw (e, e) refl
    | inr e ↦ rw (e, e) (find_key-store_key key value table)
  ]

  -- The entries under other keys stay.
  pub find_key-delete_other :
      (key other : String) (table : Table Value)
      → same_text key other ≡ false
      → find_key other (delete_key key table) ≡ find_key other table
  find_key-delete_other key other [] differ = refl
  find_key-delete_other key other (entry ∷ table) differ =
      elim (Bool-cases (same_text entry.0 key)) [
        | inl e ↦
            rw (e, ap (λ k. same_text k other) ((eq_iff entry.0 key).0 e) ∙ differ)
              (find_key-delete_other key other table differ)
        | inr e ↦ elim (Bool-cases (same_text entry.0 other)) [
          | inl f ↦ rw (e, f) refl
          | inr f ↦ rw (e, f) (find_key-delete_other key other table differ)
        ]
      ]

  pub find_key-store_other :
      (key other : String) (value : Value) (table : Table Value)
      → same_text key other ≡ false
      → find_key other (store_key key value table) ≡ find_key other table
  find_key-store_other key other value [] differ = rw differ refl
  find_key-store_other key other value (entry ∷ table) differ =
      elim (Bool-cases (same_text entry.0 key)) [
        | inl e ↦ rw (e, ap (λ k. same_text k other) ((eq_iff entry.0 key).0 e) ∙ differ) refl
        | inr e ↦ elim (Bool-cases (same_text entry.0 other)) [
          | inl f ↦ rw (e, f) refl
          | inr f ↦ rw (e, f) (find_key-store_other key other value table differ)
        ]
      ]
