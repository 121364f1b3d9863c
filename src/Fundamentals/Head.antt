-- ===== src/Fundamentals/Head.antt =====
-- The head-to-head number that extract_stats of crates/agent-core/src/fundamentals.rs gives.
use txodds_agent_desk.Prelude.{
  ◌≡◌, true, false, Option, none, some, Returns, ◌>>=◌, inl, inr, Bool-cases, Option-cases,
}
use txodds_agent_desk.Float.{Float, nought, one, clamp}
use txodds_agent_desk.Float.Order.{IsOrdered, clamp_total}
use txodds_agent_desk.Json.{Value}
use txodds_agent_desk.Json.Access.{as_f64, as_i64}
use txodds_agent_desk.Fundamentals.{
  Functions, SideStats, with_h2h, root_of, h2h_of, minus_one, as_object, share_h2h, wins_h2h,
  parse_h2h, extract_stats,
}

module _ {F : Type 0} ⦃d : Float F⦄ (laws : IsOrdered F) (f : Functions F) where
  open laws use {not_lt_of_le, le_of_lt, le_trans, nought_lt_one}

  -- Not below -1 and not above 1; a NaN is neither.
  abbrev pub IsBounded : F → Type 0
  IsBounded x = (d.lt x minus_one ≡ false) × (d.lt one x ≡ false)

  clamp-IsBounded :
      (x : F) → d.le minus_one nought ≡ true → Returns (clamp x minus_one one) IsBounded
  clamp-IsBounded x h =
      clamp_total laws x minus_one one
        (le_trans minus_one nought one h (le_of_lt nought one nought_lt_one))

  nought-IsBounded : d.le minus_one nought ≡ true → IsBounded nought
  nought-IsBounded h =
      (not_lt_of_le minus_one nought h, not_lt_of_le nought one (le_of_lt nought one nought_lt_one))

  share_h2h-IsBounded :
      (home_w away_w : F)
      → d.le minus_one nought ≡ true
      → Returns (share_h2h home_w away_w) IsBounded
  unfolding share_h2h
  share_h2h-IsBounded home_w away_w h =
      let total = d.add home_w away_w in
      elim (Bool-cases (d.le total nought)) [
        | inl e ↦ rw e (nought-IsBounded h)
        | inr e ↦ rw e (clamp-IsBounded (d.div (d.sub home_w away_w) total) h)
      ]

  parse_h2h-IsBounded :
      (v : Option Value) → d.le minus_one nought ≡ true → Returns (parse_h2h f v) IsBounded
  unfolding parse_h2h wins_h2h
  parse_h2h-IsBounded none h = nought-IsBounded h
  parse_h2h-IsBounded (some v) h = elim (Option-cases (as_f64 f.json_f64 v)) [
    | inr (n, e) ↦ rw (parse_h2h, e) (clamp-IsBounded n h)
    | inl e ↦ elim (Option-cases (as_i64 v)) [
      | inr (n, g) ↦ rw (parse_h2h, e, g) (clamp-IsBounded (f.of_i64 n) h)
      | inl g ↦ elim (Option-cases (as_object v)) [
        | inr (obj, o) ↦ rw (parse_h2h, e, g, o) (share_h2h-IsBounded _ _ h)
        | inl o ↦ rw (parse_h2h, e, g, o) (nought-IsBounded h)
      ]
    ]
  ]

  kept :
      (o : Option F) (here there : SideStats F)
      → Returns o IsBounded
      → Returns (o >>= λ x. some (with_h2h here there x)) λ stats. IsBounded stats.h2h
  kept none here there r = r
  kept (some x) here there r = r

  -- Whatever the signal, its statistics are extracted without a panic, and the head-to-head number
  -- among them is not below -1 and not above 1, if -1 is at most 0.
  pub extract_stats-IsBounded :
      (signal : Value)
      → d.le minus_one nought ≡ true
      → Returns (extract_stats f signal) λ stats. IsBounded stats.h2h
  unfolding extract_stats
  extract_stats-IsBounded signal h =
      kept (parse_h2h f (h2h_of (root_of signal))) _ _
        (parse_h2h-IsBounded (h2h_of (root_of signal)) h)
