-- ===== src/Fundamentals.antt =====
-- crates/agent-core/src/fundamentals.rs: the statistics of a match and the model of its 1X2
-- probabilities. `exp`, `ln` and `tanh`, and the readings of numbers, are parameters.
pub mod Head
pub mod Best
use Prim.Native.String.{String}
use txodds_agent_desk.Prelude.{
  ℕ, Bool, true, false, ◌&&◌, Option, none, some, List, [], ◌∷◌, ◌++◌, if◌then◌else◌, unwrap_or,
  or_else, ◌>>=◌,
}
use txodds_agent_desk.Prelude.Int.{ℤ}
use txodds_agent_desk.Text.{Text, lit}
use txodds_agent_desk.Strings.{map_some}
use txodds_agent_desk.Wire.{to_ascii_uppercase}
use txodds_agent_desk.Float.{Float, nought, one, clamp}
use txodds_agent_desk.Json.{Value, object}
use txodds_agent_desk.Json.Access.{get, as_f64, as_i64, as_str}
use txodds_agent_desk.Wager.{Selection, home, draw, away}

pub record FundamentalsConfig (F : Type 0) : Type 0 where
  pub temperature : F
  pub draw_prior : F
  pub home_advantage : F
  pub form_weight : F
  pub xg_weight : F
  pub rank_weight : F
  pub injury_weight : F
  pub h2h_weight : F

pub record SideStats (F : Type 0) : Type 0 where
  pub form : F
  pub xg : F
  pub rank : Option F
  pub injuries : F

pub record MatchStats (F : Type 0) : Type 0 where
  pub home : SideStats F
  pub away : SideStats F
  pub h2h : F

pub record Distribution (F : Type 0) : Type 0 where
  pub home : F
  pub draw : F
  pub away : F

-- The functions of the standard library on an `f64`, and the numbers of JSON and of texts.
pub record Functions (F : Type 0) : Type 0 where
  pub exp : F → F
  pub ln : F → F
  pub tanh : F → F
  pub json_f64 : Text → Option F
  pub of_i64 : ℤ → F
  pub parse : Text → Option F

abbrev pub as_object : Value → Option Value
as_object (object fs) = some (object fs)
as_object v = none

-- The name of a field with its first character, an ASCII letter, in upper case.
abbrev capitalised : Text → Text
capitalised [] = []
capitalised (c ∷ s) = to_ascii_uppercase c ∷ s

-- Where the statistics stand in a signal, and the head-to-head record among them.
unfoldable pub root_of : Value → Value
unfolding get
root_of signal =
    unwrap_or (or_else (get (lit "stats") signal) (get (lit "intelligence") signal)) signal

unfoldable pub h2h_of : Value → Option Value
unfolding get
h2h_of root = or_else (get (lit "h2h") root) (get (lit "headToHead") root)

module _ {F : Type 0} ⦃d : Float F⦄ where
  open d use {le, lt, add, sub, mul, div, abs, max_f, dec}

  unfoldable pub default_config : FundamentalsConfig F
  default_config = record {
    temperature = one;
    draw_prior = dec 26 100;
    home_advantage = dec 35 100;
    form_weight = dec 30 100;
    xg_weight = dec 45 100;
    rank_weight = dec 20 100;
    injury_weight = dec 15 100;
    h2h_weight = dec 15 100;
  }

  unfoldable pub prob : Distribution F → Selection → F
  prob m home = m.home
  prob m draw = m.draw
  prob m away = m.away

  unfoldable pub best_selection : Distribution F → Selection
  best_selection m =
      if le m.draw m.home && le m.away m.home then home else if le m.draw m.away then away else draw

  abbrev neutral : SideStats F
  neutral = record { form = nought; xg = nought; rank = none; injuries = nought }

  abbrev pub with_h2h : SideStats F → SideStats F → F → MatchStats F
  with_h2h here there h2h = record { home = here; away = there; h2h = h2h }

  abbrev pub minus_one : F
  minus_one = sub nought one

  -- The share of one side's wins beyond the other's. `none` is a panic of `clamp`.
  unfoldable pub share_h2h : F → F → Option F
  unfolding clamp
  share_h2h home_w away_w =
      let total = add home_w away_w in
      if le total nought then some nought else clamp (div (sub home_w away_w) total) minus_one one

  module _ (f : Functions F) where
    abbrev rank_score : FundamentalsConfig F → F → Option F → Option F → F
    rank_score cfg score (some sr) (some or) =
        add score (mul cfg.rank_weight (f.tanh (div (sub or sr) (dec 5 1))))
    rank_score cfg score _ _ = score

    unfoldable pub side_score : SideStats F → SideStats F → FundamentalsConfig F → F
    side_score side opp cfg =
        let score = add nought (mul cfg.form_weight (sub side.form opp.form)) in
        let score = add score (mul cfg.xg_weight (sub side.xg opp.xg)) in
        let score = rank_score cfg score side.rank opp.rank in
        add score (mul cfg.injury_weight (sub opp.injuries side.injuries))

    unfoldable pub model_distribution : MatchStats F → FundamentalsConfig F → Distribution F
    unfolding side_score
    model_distribution stats cfg =
        let home_score =
          add (add (side_score stats.home stats.away cfg) cfg.home_advantage)
            (mul cfg.h2h_weight stats.h2h) in
        let away_score =
          sub (side_score stats.away stats.home cfg) (mul cfg.h2h_weight stats.h2h) in
        let smallest = dec 1 1_000_000 in
        let prior = max_f cfg.draw_prior smallest in
        let draw_logit =
          sub (f.ln (div prior (max_f (sub one prior) smallest)))
            (mul (dec 5 10) (abs (sub home_score away_score))) in
        let temp = if lt smallest cfg.temperature then cfg.temperature else one in
        let h = div home_score temp in
        let d' = div draw_logit temp in
        let a = div away_score temp in
        let max_logit = max_f (max_f h d') a in
        let exp_h = f.exp (sub h max_logit) in
        let exp_d = f.exp (sub d' max_logit) in
        let exp_a = f.exp (sub a max_logit) in
        let total = add (add exp_h exp_d) exp_a in
        if le total nought
        then record { home = div one (dec 3 1); draw = div one (dec 3 1); away = div one (dec 3 1) }
        else record { home = div exp_h total; draw = div exp_d total; away = div exp_a total }

    unfoldable pub to_f64 : Value → Option F
    unfolding as_f64 as_i64 as_str
    to_f64 v =
        or_else (as_f64 f.json_f64 v)
          (or_else (map_some f.of_i64 (as_i64 v)) (as_str v >>= f.parse))

    abbrev first_in : (Text → Option Value) → List String → Option F
    first_in look [] = none
    first_in look (n ∷ names) = or_else (look (lit n) >>= to_f64) (first_in look names)

    -- The field of a side, in its own object or with the side's name in front.
    unfoldable pub pick : Option Value → Value → Text → List String → Option F
    unfolding get to_f64
    pick obj root prefix names =
        or_else (first_in (λ n. obj >>= get n) names)
          (first_in (λ n. get (prefix ++ capitalised n) root) names)

    unfoldable pub fill_side : SideStats F → Option Value → Value → Text → SideStats F
    unfolding pick
    fill_side side obj root prefix = record {
      form = unwrap_or (pick obj root prefix ("form" ∷ "ppg" ∷ "rating" ∷ [])) side.form;
      xg = unwrap_or (pick obj root prefix ("xg" ∷ "xgDiff" ∷ "netXg" ∷ "xGDiff" ∷ [])) side.xg;
      rank = or_else (pick obj root prefix ("rank" ∷ "position" ∷ "standing" ∷ [])) side.rank;
      injuries =
          unwrap_or (pick obj root prefix ("injuries" ∷ "absentees" ∷ "keyOut" ∷ [])) side.injuries;
    }

    unfoldable pub wins_h2h : Value → Option F
    unfolding get to_f64 share_h2h
    wins_h2h obj =
        share_h2h
          (unwrap_or (or_else (get (lit "home") obj) (get (lit "homeWins") obj) >>= to_f64) nought)
          (unwrap_or (or_else (get (lit "away") obj) (get (lit "awayWins") obj) >>= to_f64) nought)

    unfoldable pub parse_h2h : Option Value → Option F
    unfolding as_f64 as_i64 wins_h2h clamp
    parse_h2h none = some nought
    parse_h2h (some v) = elim (as_f64 f.json_f64 v) [
      | some n ↦ clamp n minus_one one
      | none ↦ elim (as_i64 v) [
        | some n ↦ clamp (f.of_i64 n) minus_one one
        | none ↦ elim (as_object v) [ none ↦ some nought | some obj ↦ wins_h2h obj ]
      ]
    ]

    unfoldable pub extract_stats : Value → Option (MatchStats F)
    unfolding get root_of h2h_of fill_side parse_h2h
    extract_stats signal =
        let root = root_of signal in
        let home_obj = get (lit "home") root >>= as_object in
        let away_obj = get (lit "away") root >>= as_object in
        do
          h2h ← parse_h2h (h2h_of root)
          some (
              with_h2h (fill_side neutral home_obj root (lit "home"))
                (fill_side neutral away_obj root (lit "away")) h2h)
