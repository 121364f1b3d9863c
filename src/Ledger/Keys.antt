-- ===== src/Ledger/Keys.antt =====
-- The primary keys of the tables of native/src/services/ledger/store.rs.
use txodds_agent_desk.Prelude.{
  ◌≡◌, refl, ap, ◌∙◌, true, false, ◌||◌, Option, none, some, List, [], ◌∷◌, ◌++◌, if◌then◌else◌,
  arith, Bool-cases, inl, inr,
}
use mathlib.Core.Path.{subst}
use txodds_agent_desk.Text.{Text, text_eq, text_eq→eq, text_eq_refl, text_eq_sym}
use txodds_agent_desk.Ledger.Table.{upsert, row_at, has_key, insert_row, IsKeyed}

-- Different texts are not both equal to a third.
apart : (s t k : Text) → text_eq s t ≡ false → text_eq t k ≡ true → text_eq s k ≡ false
apart s t k h e = elim (Bool-cases (text_eq s k)) [
  | inl f ↦ absurd (cc (text_eq→eq t k e))
  | inr f ↦ f
]

module _ {ℓ} {R : Type ℓ} (key : R → Text) where
  module _ (update : R → R → R) (keeps : (r new : R) → key (update r new) ≡ key r) (new : R) where
    -- Reading a row after an upsert: the new or the updated one under its key, the old ones elsewhere.
    abbrev pub updated : Option R → R
    updated none = new
    updated (some r) = update r new

    pub row_at-upsert :
        (k : Text) (rs : List R)
        → row_at key k (upsert key update new rs) ≡ (
            if text_eq (key new) k
            then some (updated (row_at key (key new) rs))
            else row_at key k rs)
    unfolding row_at upsert
    row_at-upsert k [] = refl
    row_at-upsert k (r ∷ rs) = elim (Bool-cases (text_eq (key r) (key new))) [
      | inl e ↦
          let p : key r ≡ key new = text_eq→eq (key r) (key new) e in
          let q : text_eq (key (update r new)) k ≡ text_eq (key new) k =
            ap (λ t. text_eq t k) (keeps r new ∙ p) in
          let q' : text_eq (key r) k ≡ text_eq (key new) k = ap (λ t. text_eq t k) p in ground arith
      | inr e ↦ ground (arith, row_at-upsert k rs, apart (key r) (key new) k e)
    ]

    pub row_at-upsert_existing :
        (rs : List R) (old : R)
        → row_at key (key new) rs ≡ some old
        → row_at key (key new) (upsert key update new rs) ≡ some (update old new)
    row_at-upsert_existing rs old e =
        row_at-upsert (key new) rs
        ∙ ap (λ b. if b then some (updated (row_at key (key new) rs)) else row_at key (key new) rs)
            (text_eq_refl (key new))
        ∙ ap (λ o. some (updated o)) e

  pub row_at-none : (k : Text) (rs : List R) → has_key key k rs ≡ false → row_at key k rs ≡ none
  unfolding row_at
  row_at-none k [] h = refl
  row_at-none k (r ∷ rs) h = ground (arith, row_at-none k rs)

  has_key-append :
      (k : Text) (rs ss : List R)
      → has_key key k (rs ++ ss) ≡ (has_key key k rs || has_key key k ss)
  has_key-append k [] ss = refl
  has_key-append k (r ∷ rs) ss = ground (arith, has_key-append k rs ss)

  IsKeyed-append :
      (new : R) (rs : List R)
      → IsKeyed key rs
      → has_key key (key new) rs ≡ false
      → IsKeyed key (rs ++ new ∷ [])
  IsKeyed-append new [] h e = (refl, tt)
  IsKeyed-append new (r ∷ rs) (h, hs) e =
      let off : text_eq (key r) (key new) ≡ false = ground arith in
      let q : text_eq (key new) (key r) ≡ false = text_eq_sym (key r) (key new) off in
      (has_key-append (key r) rs (new ∷ []) ∙ ground arith, IsKeyed-append new rs hs (ground arith))

  pub insert_row-IsKeyed :
      (new : R) (rs ss : List R) → IsKeyed key rs → insert_row key new rs ≡ some ss → IsKeyed key ss
  unfolding insert_row
  insert_row-IsKeyed new rs ss h e = elim (Bool-cases (has_key key (key new) rs)) [
    | inl f ↦ absurd (ground arith)
    | inr f ↦ subst (IsKeyed key) (ground arith) (IsKeyed-append new rs h f)
  ]
