-- ===== src/Autonomous/Distinct.antt =====
-- The maps of native/src/services/autonomous.rs: latest_per_outcome has each outcome once, and a walk of
-- a `HashMap` visits each of its entries once.
use txodds_agent_desk.Prelude.{◌≡◌, false, List, [], ◌∷◌, arith, inl, inr, ◌⊎◌, Bool-cases}
use txodds_agent_desk.Text.{Text, text_eq, text_eq_sym}
use txodds_agent_desk.Autonomous.{OddsTick, Quote, enter_tick, enter_ticks, latest_per_outcome}

module _ {F : Type 0} where
  abbrev pub IsFresh : Text → List (Quote F) → Type 0
  IsFresh o [] = Unit
  IsFresh o ((name, q) ∷ rest) = (text_eq name o ≡ false) × IsFresh o rest

  -- The keys of a map are distinct.
  abbrev pub IsDistinct : List (Quote F) → Type 0
  IsDistinct [] = Unit
  IsDistinct ((name, q) ∷ rest) = IsFresh name rest × IsDistinct rest

  abbrev pub IsQuoted : Text → F → List (Quote F) → Type 0
  IsQuoted o c [] = ⊥
  IsQuoted o c ((name, (ts, decimal)) ∷ rest) = ((name ≡ o) × (decimal ≡ c)) ⊎ IsQuoted o c rest

  -- What the standard library documents of the order in which a map is walked: it is any order of the
  -- entries, each of them once.
  pub record IsWalk (walk : List (Quote F) → List (Quote F)) : Type 0 where
    pub distinct : (qs : List (Quote F)) → IsDistinct qs → IsDistinct (walk qs)
    pub none_added :
        (qs : List (Quote F)) (o : Text) (c : F) → IsQuoted o c (walk qs) → IsQuoted o c qs
    pub none_lost :
        (qs : List (Quote F)) (o : Text) (c : F) → IsQuoted o c qs → IsQuoted o c (walk qs)

  pub IsFresh-other :
      (n o : Text) (c : F) (rest : List (Quote F))
      → IsFresh n rest
      → IsQuoted o c rest
      → text_eq o n ≡ false
  IsFresh-other n o c [] fresh q = absurd q
  IsFresh-other n o c ((name, (ts, decimal)) ∷ rest) fresh (inl (e, g)) = ground (arith, e, fresh)
  IsFresh-other n o c ((name, (ts, decimal)) ∷ rest) fresh (inr q) =
      IsFresh-other n o c rest fresh.1 q

  enter_tick-IsFresh :
      (o : Text) (latest : List (Quote F)) (t : OddsTick F)
      → IsFresh o latest
      → text_eq t.outcome o ≡ false
      → IsFresh o (enter_tick latest t)
  unfolding enter_tick
  enter_tick-IsFresh o [] t fresh off = (off, tt)
  enter_tick-IsFresh o ((name, (ts, decimal)) ∷ rest) t fresh off =
      elim (Bool-cases (text_eq name t.outcome)) [
        | inl same ↦ rw same fresh
        | inr other ↦ rw other (fresh.0, enter_tick-IsFresh o rest t fresh.1 off)
      ]

  enter_tick-IsDistinct :
      (latest : List (Quote F)) (t : OddsTick F)
      → IsDistinct latest
      → IsDistinct (enter_tick latest t)
  unfolding enter_tick
  enter_tick-IsDistinct [] t h = (tt, tt)
  enter_tick-IsDistinct ((name, (ts, decimal)) ∷ rest) t h =
      elim (Bool-cases (text_eq name t.outcome)) [
        | inl same ↦ rw same h
        | inr other ↦ rw other (
          enter_tick-IsFresh name rest t h.0 (text_eq_sym name t.outcome other),
          enter_tick-IsDistinct rest t h.1,
        )
      ]

  enter_ticks-IsDistinct :
      (latest : List (Quote F)) (ts : List (OddsTick F))
      → IsDistinct latest
      → IsDistinct (enter_ticks latest ts)
  unfolding enter_ticks
  enter_ticks-IsDistinct latest [] h = h
  enter_ticks-IsDistinct latest (t ∷ ts) h =
      enter_ticks-IsDistinct (enter_tick latest t) ts (enter_tick-IsDistinct latest t h)

  pub latest_per_outcome-IsDistinct :
      (ticks : List (OddsTick F)) → IsDistinct (latest_per_outcome ticks)
  unfolding latest_per_outcome
  latest_per_outcome-IsDistinct ticks = enter_ticks-IsDistinct [] ticks tt
