-- ===== src/Event.antt =====
-- crates/txodds-types/src/txline.rs and cluster.rs: the normalised events of the feed and the proof
-- receipts.
use txodds_agent_desk.Prelude.{ℕ, Bool, Option, List}
use txodds_agent_desk.Prelude.Int.{ℤ}
use txodds_agent_desk.Text.{Text, lit}
use txodds_agent_desk.Json.{Value}

pub data TxLineEventKind : Type 0 where
  fixture score_update odds_update goal red_card final_whistle odds_move proof_received :
      TxLineEventKind

pub record OddsQuote (F : Type 0) : Type 0 where
  pub fixture_id : ℕ
  pub outcome : Text
  pub decimal : F
  pub implied_probability : F
  pub source : Option Text
  pub ts : Text

pub record Score : Type 0 where
  pub home : ℤ
  pub away : ℤ

pub data ValidationSimulationStatus : Type 0 where
  not_started passed failed unavailable : ValidationSimulationStatus

pub record TxLineProofReceipt : Type 0 where
  pub fixture_id : ℕ
  pub seq : Option ℕ
  pub stat_key : Option ℕ
  pub stat_keys : List Text
  pub txline_ts : Option Text
  pub epoch_day : Option ℕ
  pub merkle_root : Option Text
  pub stat_proof_hash : Option Text
  pub root_pda : Option Text
  pub txline_program : Option Text
  pub root_observed_slot : Option ℕ
  pub proof_present : Bool
  pub root_present : Bool
  pub simulation_status : ValidationSimulationStatus
  pub verified : Bool
  pub note : Text
  pub raw : Option Value

pub record TxLineEvent (F : Type 0) : Type 0 where
  pub id : Text
  pub kind : TxLineEventKind
  pub fixture_id : ℕ
  pub seq : Option ℕ
  pub txline_ts : Option Text
  pub action : Option Text
  pub confirmed : Option Bool
  pub participant : Option Text
  pub period : Option Text
  pub stat_keys : List Text
  pub schema_family : Option Text
  pub title : Text
  pub body : Text
  pub ts : Text
  pub raw : Option Value
  pub odds : Option (List (OddsQuote F))
  pub score : Option Score
  pub proof : Option TxLineProofReceipt

-- `matches!(status, Passed)`
abbrev pub is_passed : ValidationSimulationStatus → Bool
is_passed passed = Bool.true
is_passed _ = Bool.false

pub data Cluster : Type 0 where
  devnet mainnet : Cluster

pub data TrackMode : Type 0 where
  settlement trading fan : TrackMode

-- `Display`
unfoldable pub show_track : TrackMode → Text
show_track settlement = lit "settlement"
show_track trading = lit "trading"
show_track fan = lit "fan"

-- `{:?}` of a kind
unfoldable pub kind_debug : TxLineEventKind → Text
kind_debug fixture = lit "Fixture"
kind_debug score_update = lit "ScoreUpdate"
kind_debug odds_update = lit "OddsUpdate"
kind_debug goal = lit "Goal"
kind_debug red_card = lit "RedCard"
kind_debug final_whistle = lit "FinalWhistle"
kind_debug odds_move = lit "OddsMove"
kind_debug proof_received = lit "ProofReceived"
