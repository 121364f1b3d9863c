-- ===== src/Autonomous/Moved.antt =====
-- What the walk over the latest quotes of native/src/services/autonomous.rs finds: the odds that moved.
use txodds_agent_desk.Prelude.{
  ℕ, ◌≡◌, refl, sym, ap, ◌∙◌, true, false, Option, none, some, List, [], ◌∷◌, arith, inl, inr, ◌⊎◌,
  Bool-cases,
}
use txodds_agent_desk.Text.{Text}
use txodds_agent_desk.Float.{Float}
use txodds_agent_desk.Autonomous.{Quote, Move, diff, is_move, pct_change, note_move, see}
use txodds_agent_desk.Autonomous.Distinct.{IsDistinct, IsQuoted, IsFresh-other}

module _ {F : Type 0} ⦃d : Float F⦄ where
  -- An outcome that the poll quotes was seen before at odds above zero, and its odds have changed by
  -- the given percentage of those or more, up or down.
  pub record IsMoved (trigger_pct : F) (seen_before : Text → Option F) (quotes : List (Quote F))
      (m : Move F) : Type 0 where
    pub quoted : IsQuoted m.outcome m.current quotes
    pub seen : seen_before m.outcome ≡ some m.previous
    pub positive : d.lt (d.dec 0 1) m.previous ≡ true
    pub measured :
        m.pct ≡ d.abs (d.mul (d.div (d.sub m.current m.previous) m.previous) (d.dec 100 1))
    pub enough : d.le trigger_pct m.pct ≡ true

  note_move_lem :
      (trigger_pct : F) (o : Text) (before : Option F) (c : F) (acc : Option (Move F)) (m : Move F)
      → note_move trigger_pct o before c acc ≡ some m
      → (acc ≡ some m)
        ⊎ ((before ≡ some m.previous)
            × (m.outcome ≡ o)
            × (m.current ≡ c)
            × (is_move trigger_pct m.previous m.current ≡ true)
            × (m.pct ≡ pct_change m.previous m.current))
  note_move_lem trigger_pct o before c (some n) m h = inl h
  note_move_lem trigger_pct o none c none m h = absurd cc
  note_move_lem trigger_pct o (some p) c none m h = elim (Bool-cases (is_move trigger_pct p c)) [
    | inl t ↦ inr (ground arith)
    | inr f ↦ absurd (ground (arith, f))
  ]

  -- Nothing is noted only where nothing was and the odds have not moved.
  note_move-none :
      (trigger_pct : F) (o : Text) (before : Option F) (c : F) (acc : Option (Move F))
      → note_move trigger_pct o before c acc ≡ none
      → (acc ≡ none) × ((p : F) → before ≡ some p → is_move trigger_pct p c ≡ false)
  note_move-none trigger_pct o before c (some n) h = absurd cc
  note_move-none trigger_pct o none c none h = (refl, λ p e. absurd cc)
  note_move-none trigger_pct o (some q) c none h = elim (Bool-cases (is_move trigger_pct q c)) [
    | inl t ↦ absurd (ground (arith, t))
    | inr f ↦ (refl, λ p e. let same : q ≡ p = cc in rw (← same) f)
  ]

module _ {F : Type 0} ⦃d : Float F⦄ (trigger_pct : F) (fixture_id : ℕ) where
  pub diff-IsMoved :
      (quotes : List (Quote F)) (last_seen : ℕ → Text → Option F) (acc : Option (Move F))
      (m : Move F)
      → IsDistinct quotes
      → (diff trigger_pct fixture_id quotes last_seen acc).1 ≡ some m
      → (acc ≡ some m) ⊎ IsMoved trigger_pct (last_seen fixture_id) quotes m
  unfolding diff
  diff-IsMoved [] last_seen acc m distinct h = inl h
  diff-IsMoved ((o, (ts, c)) ∷ rest) last_seen acc m distinct h = from_rest (
      diff-IsMoved rest (see fixture_id o c last_seen)
        (note_move trigger_pct o (last_seen fixture_id o) c acc) m distinct.1 h)
    where
      from_rest :
          (note_move trigger_pct o (last_seen fixture_id o) c acc ≡ some m)
            ⊎ IsMoved trigger_pct (see fixture_id o c last_seen fixture_id) rest m
          → (acc ≡ some m) ⊎ IsMoved trigger_pct (last_seen fixture_id) ((o, (ts, c)) ∷ rest) m
      from_rest (inl noted) =
          elim (note_move_lem trigger_pct o (last_seen fixture_id o) c acc m noted) [
            | inl e ↦ inl e
            | inr (seen, e, g, moved, measured) ↦ inr (record {
              quoted = inl (sym e, sym g);
              seen = rw e seen;
              positive = ground arith;
              measured = measured;
              enough = rw measured (ground arith);
            })
          ]
      from_rest (inr k) =
          let other = IsFresh-other o m.outcome m.current rest distinct.0 k.quoted in
          inr (record {
            quoted = inr k.quoted;
            seen = ground (arith, k.seen, other);
            positive = k.positive;
            measured = k.measured;
            enough = k.enough;
          })

  -- If the walk finds no move, there is none.
  pub diff-none :
      (quotes : List (Quote F)) (last_seen : ℕ → Text → Option F) (acc : Option (Move F))
      → IsDistinct quotes
      → (diff trigger_pct fixture_id quotes last_seen acc).1 ≡ none
      → (acc ≡ none) × ((m : Move F) → ¬ IsMoved trigger_pct (last_seen fixture_id) quotes m)
  unfolding diff
  diff-none [] last_seen acc distinct h = (h, λ m k. absurd k.quoted)
  diff-none ((o, (ts, c)) ∷ rest) last_seen acc distinct h =
      let (noted, later) =
        diff-none rest (see fixture_id o c last_seen)
          (note_move trigger_pct o (last_seen fixture_id o) c acc) distinct.1 h in
      let (before, still) = note_move-none trigger_pct o (last_seen fixture_id o) c acc noted in
      (
        before,
        λ m k. elim k.quoted [
          | inl (e, g) ↦
              let calm : is_move trigger_pct m.previous c ≡ false =
                still m.previous (ap (last_seen fixture_id) e ∙ k.seen) in
              let calm' : is_move trigger_pct m.previous m.current ≡ false = rw (← g) calm in
              let enough = k.enough in
              let measured = k.measured in absurd (ground (arith, k.positive))
          | inr q ↦
              let other = IsFresh-other o m.outcome m.current rest distinct.0 q in
              later m (record {
                quoted = q;
                seen = ground (arith, k.seen, other);
                positive = k.positive;
                measured = k.measured;
                enough = k.enough;
              })
        ],
      )
