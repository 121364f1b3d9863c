-- ===== src/Autonomous/Latest.antt =====
-- latest_per_outcome of native/src/services/autonomous.rs.
use txodds_agent_desk.Prelude.{
  ◌≡◌, refl, ◌∙◌, false, Option, none, some, List, [], ◌∷◌, arith, inl, inr, ◌⊎◌, Bool-cases,
  if◌then◌else◌,
}
use txodds_agent_desk.Prelude.Int.{ℤ, ltb_ℤ}
use txodds_agent_desk.Text.{Text, text_eq, text_eq_refl, text_eq→eq}
use txodds_agent_desk.Autonomous.{OddsTick, Quote, enter_tick, enter_ticks, latest_per_outcome}

not_less_trans : (a b c : ℤ) → ltb_ℤ a b ≡ false → ltb_ℤ b c ≡ false → ltb_ℤ a c ≡ false
not_less_trans a b c h k = ground arith

module _ {F : Type 0} where
  abbrev pub quote_for : Text → List (Quote F) → Option (ℤ × F)
  quote_for o [] = none
  quote_for o ((name, q) ∷ rest) = if text_eq name o then some q else quote_for o rest

  -- The first of the newest ticks of one outcome, after the quote so far.
  abbrev newer : Option (ℤ × F) → OddsTick F → ℤ × F
  newer none t = (t.ts, t.decimal)
  newer (some (ts, decimal)) t = if ltb_ℤ ts t.ts then (t.ts, t.decimal) else (ts, decimal)

  quote_for-enter_tick :
      (o : Text) (latest : List (Quote F)) (t : OddsTick F)
      → quote_for o (enter_tick latest t)
        ≡ (if text_eq t.outcome o then some (newer (quote_for o latest) t) else quote_for o latest)
  unfolding enter_tick
  quote_for-enter_tick o [] t = refl
  quote_for-enter_tick o ((name, (ts, decimal)) ∷ rest) t =
      elim (Bool-cases (text_eq name t.outcome)) [
        | inl same ↦
            let e : name ≡ t.outcome = text_eq→eq name t.outcome same in ground (arith, e, same)
        | inr other ↦ elim (Bool-cases (text_eq name o)) [
          | inl here ↦ elim (Bool-cases (text_eq t.outcome o)) [
            | inl both ↦
                let e : name ≡ o = text_eq→eq name o here in
                let g : t.outcome ≡ o = text_eq→eq t.outcome o both in
                absurd (ground (arith, e, g, other, text_eq_refl o))
            | inr not_it ↦ ground (arith, other, here, not_it)
          ]
          | inr there ↦ ground (arith, other, there, quote_for-enter_tick o rest t)
        ]
      ]

  abbrev pub AllTicks : (OddsTick F → Type 0) → List (OddsTick F) → Type 0
  AllTicks P [] = Unit
  AllTicks P (t ∷ ts) = P t × AllTicks P ts

  -- No tick of the outcome is later than the quote, and the quote is one of them.
  abbrev pub NotLater : Text → ℤ × F → OddsTick F → Type 0
  NotLater o q t = t.outcome ≡ o → ltb_ℤ q.0 t.ts ≡ false

  abbrev pub IsOneOf : Text → ℤ × F → List (OddsTick F) → Type 0
  IsOneOf o q [] = ⊥
  IsOneOf o q (t ∷ ts) = ((t.outcome ≡ o) × (q ≡ (t.ts, t.decimal))) ⊎ IsOneOf o q ts

  -- What the ticks entered so far leave of an outcome.
  record Summary (o : Text) (before : Option (ℤ × F)) (ticks : List (OddsTick F)) (q : ℤ × F)
      : Type 0 where
    newest : AllTicks (NotLater o q) ticks
    origin : IsOneOf o q ticks ⊎ (before ≡ some q)
    kept : (q0 : ℤ × F) → before ≡ some q0 → ltb_ℤ q.0 q0.0 ≡ false

  newer_lem :
      (before : Option (ℤ × F)) (t : OddsTick F)
      → (ltb_ℤ (newer before t).0 t.ts ≡ false)
        × ((q0 : ℤ × F) → before ≡ some q0 → ltb_ℤ (newer before t).0 q0.0 ≡ false)
        × ((newer before t ≡ (t.ts, t.decimal)) ⊎ (before ≡ some (newer before t)))
  newer_lem none t = (ground arith, (λ q0 e. absurd cc), inl refl)
  newer_lem (some (ts, decimal)) t = elim (Bool-cases (ltb_ℤ ts t.ts)) [
    | inl later ↦ rw later (ground arith, (λ q0 e. ground arith), inl refl)
    | inr not_later ↦ rw not_later (not_later, (λ q0 e. ground arith), inr refl)
  ]

  Summary-step :
      (o : Text) (before : Option (ℤ × F)) (t : OddsTick F) (ts : List (OddsTick F)) (q : ℤ × F)
      → t.outcome ≡ o
      → Summary o (some (newer before t)) ts q
      → Summary o before (t ∷ ts) q
  Summary-step o before t ts q e s =
      let (over_t, over_before, whence) = newer_lem before t in
      let over = s.kept (newer before t) refl in
      record {
        newest = (λ e'. not_less_trans q.0 (newer before t).0 t.ts over over_t, s.newest);
        origin = from_step whence s.origin;
        kept = λ q0 b. not_less_trans q.0 (newer before t).0 q0.0 over (over_before q0 b);
      }
    where
      from_step :
          (newer before t ≡ (t.ts, t.decimal)) ⊎ (before ≡ some (newer before t))
          → IsOneOf o q ts ⊎ (some (newer before t) ≡ some q)
          → IsOneOf o q (t ∷ ts) ⊎ (before ≡ some q)
      from_step w (inl k) = inl (inr k)
      from_step (inl w) (inr k) = inl (inl (e, ground arith))
      from_step (inr w) (inr k) = inr (w ∙ k)

  enter_ticks_lem :
      (o : Text) (latest : List (Quote F)) (ticks : List (OddsTick F)) (q : ℤ × F)
      → quote_for o (enter_ticks latest ticks) ≡ some q
      → Summary o (quote_for o latest) ticks q
  unfolding enter_ticks
  enter_ticks_lem o latest [] q h = record {
    newest = tt;
    origin = inr h;
    kept = λ q0 e. ground arith;
  }
  enter_ticks_lem o latest (t ∷ ts) q h =
      let ih = enter_ticks_lem o (enter_tick latest t) ts q h in
      elim (Bool-cases (text_eq t.outcome o)) [
        | inl same ↦
            let e : t.outcome ≡ o = text_eq→eq t.outcome o same in
            let now : quote_for o (enter_tick latest t) ≡ some (newer (quote_for o latest) t) =
              ground (arith, quote_for-enter_tick o latest t, same) in
            Summary-step o (quote_for o latest) t ts q e (rw now at ih)
        | inr other ↦
            let now : quote_for o (enter_tick latest t) ≡ quote_for o latest =
              ground (arith, quote_for-enter_tick o latest t, other) in
            let s = rw now at ih in
            record {
              newest = (λ e. absurd (ground (arith, text_eq_refl o)), s.newest);
              origin = skip s.origin;
              kept = s.kept;
            }
      ]
    where
      skip :
          {before : Option (ℤ × F)}
          → IsOneOf o q ts ⊎ (before ≡ some q)
          → IsOneOf o q (t ∷ ts) ⊎ (before ≡ some q)
      skip (inl k) = inl (inr k)
      skip (inr k) = inr k

  -- The quote kept for an outcome is the time and odds of one of its ticks, and no tick of that outcome
  -- is later.
  pub latest_per_outcome_lem :
      (ticks : List (OddsTick F)) (o : Text) (q : ℤ × F)
      → quote_for o (latest_per_outcome ticks) ≡ some q
      → IsOneOf o q ticks × AllTicks (NotLater o q) ticks
  unfolding latest_per_outcome
  latest_per_outcome_lem ticks o q h =
      let s = enter_ticks_lem o [] ticks q h in (from_start s.origin, s.newest)
    where
      from_start : IsOneOf o q ticks ⊎ (none ≡ some q) → IsOneOf o q ticks
      from_start (inl k) = k
      from_start (inr k) = absurd cc
