-- ===== src/Run.antt =====
-- crates/txodds-types/src/agent.rs: the record of a market round.
use txodds_agent_desk.Prelude.{ℕ, Bool, Option, List}
use txodds_agent_desk.Text.{Text}
use txodds_agent_desk.Event.{TxLineEvent, TrackMode}

pub data AgentRole : Type 0 where
  sharp risk pundit settlement_role fan_role verifier : AgentRole

pub record AgentBid (F : Type 0) : Type 0 where
  pub agent_id : Text
  pub role : AgentRole
  pub price_sol : F
  pub confidence : F
  pub eta_ms : ℕ
  pub note : Text

pub record AgentDelivery : Type 0 where
  pub agent_id : Text
  pub title : Text
  pub payload : Text
  pub sha256 : Text
  pub citations : List Text
  pub strategy : Option Text
  pub risk : Option Text
  pub fan_copy : Option Text

pub data VerdictStatus : Type 0 where
  pass fail needs_review : VerdictStatus

pub data VerdictCheck : Type 0 where
  txline_input hash proof policy settlement_check : VerdictCheck

pub record VerificationVerdict : Type 0 where
  pub status : VerdictStatus
  pub reason : Text
  pub checked : List VerdictCheck

pub data SettlementStatus : Type 0 where
  not_started escrow_created deposited released refunded : SettlementStatus

pub record SettlementReceipt (F : Type 0) : Type 0 where
  pub rail : Option Text
  pub status : SettlementStatus
  pub reference : Option Text
  pub escrow_pda : Option Text
  pub deposit_tx : Option Text
  pub release_tx : Option Text
  pub explorer_url : Option Text
  pub chain_observed : Option Bool
  pub chain_slot : Option ℕ
  pub payment_url : Option Text
  pub payment_reference : Option Text
  pub payment_memo : Option Text
  pub payment_signature : Option Text
  pub payment_status : Option Text
  pub payment_recipient : Option Text
  pub payment_amount_sol : Option F

pub record TimelineEntry : Type 0 where
  pub at : Text
  pub label : Text
  pub detail : Text

pub record AgentRun (F : Type 0) : Type 0 where
  pub run_id : Text
  pub track : TrackMode
  pub trigger : TxLineEvent F
  pub bids : List (AgentBid F)
  pub winner : Option (AgentBid F)
  pub delivery : Option AgentDelivery
  pub verdict : Option VerificationVerdict
  pub settlement : Option (SettlementReceipt F)
  pub timeline : List TimelineEntry
