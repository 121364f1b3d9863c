-- ===== src/Ledger/Table.antt =====
-- Tables of native/src/services/ledger/store.rs: lists of rows with a text as primary key, and what its
-- SQL statements do to them.
use txodds_agent_desk.Prelude.{
  Bool, false, Option, none, some, List, [], ◌∷◌, ◌++◌, ◌≡◌, if◌then◌else◌, any,
}
use txodds_agent_desk.Text.{Text, text_eq}

module _ {ℓ} {R : Type ℓ} (key : R → Text) where
  -- `INSERT ... ON CONFLICT(key) DO UPDATE SET ...`: `update old new` is the old row with its changes.
  unfoldable pub upsert : (R → R → R) → R → List R → List R
  upsert update new [] = new ∷ []
  upsert update new (r ∷ rs) =
      let rest = upsert update new rs in
      if text_eq (key r) (key new) then update r new ∷ rs else r ∷ rest

  -- `WHERE key = ?1`
  unfoldable pub row_at : Text → List R → Option R
  row_at k [] = none
  row_at k (r ∷ rs) = let rest = row_at k rs in if text_eq (key r) k then some r else rest

  abbrev pub has_key : Text → List R → Bool
  has_key k = any λ r. text_eq (key r) k

  -- `INSERT`; `none` is the violation of the primary key.
  unfoldable pub insert_row : R → List R → Option (List R)
  unfolding text_eq
  insert_row new rs = if has_key (key new) rs then none else some (rs ++ new ∷ [])

  -- No two rows have a key in common.
  abbrev pub IsKeyed : List R → Type 0
  IsKeyed [] = Unit
  IsKeyed (r ∷ rs) = (has_key (key r) rs ≡ false) × IsKeyed rs
