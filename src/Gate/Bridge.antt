-- ===== src/Gate/Bridge.antt =====
-- native/src/services/proof/validation.rs: where the proof of a run comes from. The request to TxLINE,
-- which crates the code only calls send, is a parameter.
pub mod Loaded
pub mod Passed
pub mod Receipt
pub mod Sidecar
use Prim.Native.String.{String}
use txodds_agent_desk.Prelude.{
  ℕ, suc, Bool, true, false, ◌&&◌, ◌||◌, Option, none, some, List, [], ◌∷◌, ◌++◌, if◌then◌else◌,
  is_some, unwrap_or, is_empty, ◌>>=◌,
}
use txodds_agent_desk.Prelude.Int.{ℤ, pos, negsuc}
use txodds_agent_desk.Text.{Text, lit}
use txodds_agent_desk.Strings.{join}
use txodds_agent_desk.Decimal.{show_ℕ, show_ℤ}
use txodds_agent_desk.Json.{
  Value, number, string, array, object, Items, nil, cons, Fields, end, field,
}
use txodds_agent_desk.Json.Access.{get}
use txodds_agent_desk.Event.{TxLineProofReceipt}
use txodds_agent_desk.Run.{AgentRun}
use txodds_agent_desk.Gate.StatKeys.{preferred_stat_keys, numeric_stat_keys}

-- native/src/error.rs: the error of a request; what a library reports is its message.
pub data RequestError : Type 0 where
  config invalid_input not_found : Text → RequestError
  rpc : ℤ → Text → RequestError
  http io sql json task : Text → RequestError
  lock_poisoned : RequestError

-- `Display`
unfoldable pub show_error : RequestError → Text
unfolding show_ℤ
show_error (config e) = lit "configuration error: " ++ e
show_error (invalid_input e) = lit "invalid input: " ++ e
show_error (not_found e) = lit "not found: " ++ e
show_error (rpc code message) = lit "rpc error " ++ (show_ℤ code ++ (lit ": " ++ message))
show_error (http e) = lit "http error: " ++ e
show_error (io e) = lit "io error: " ++ e
show_error (sql e) = lit "sqlite error: " ++ e
show_error (json e) = lit "json error: " ++ e
show_error (task e) = lit "task error: " ++ e
show_error lock_poisoned = lit "internal lock poisoned"

pub data Answer (A : Type 0) : Type 0 where
  ok : A → Answer A
  err : RequestError → Answer A

-- The request `authenticated_get` to a path with a query.
abbrev pub Fetch : Type 0
Fetch = Text → List (Text × Text) → Answer Value

unfoldable pub has_validation_shape : Value → Bool
unfolding get
has_validation_shape value =
    let inner = unwrap_or (get (lit "validation") value) value in
    is_some (get (lit "summary") inner)
    && (is_some (get (lit "statsToProve") inner) || is_some (get (lit "statToProve") inner))

pub record ProofSource : Type 0 where
  pub seq : ℕ
  pub stat_keys : List Text
  pub payload : Value

pub data ProofLoad : Type 0 where
  ready : ProofSource → ProofLoad
  not_started unavailable : Text → Value → ProofLoad

abbrev pub text_items : List Text → Items
text_items [] = nil
text_items (t ∷ ts) = cons (string t) (text_items ts)

-- The object that a failure leaves in the receipt, with the further fields given.
abbrev pub report : String → Text → Fields → Value
report status reason more = object (
    field (lit "source") (string (lit "txoracle-validation"))
      (field (lit "status") (string (lit status)) (field (lit "reason") (string reason) more)))

abbrev with_shape : Option Value → Option Value
with_shape none = none
with_shape (some raw) = if has_validation_shape raw then some raw else none

abbrev pub of_answer : ℕ → List Text → Answer Value → ProofLoad
of_answer seq stat_keys (ok payload) =
    ready (record { seq = seq; stat_keys = stat_keys; payload = payload })
of_answer seq stat_keys (err (config e)) =
    not_started (lit "txoracle validation not started; " ++ e)
      (report "not_started" (lit "missing_txline_credentials") end)
of_answer seq stat_keys (err e) =
    unavailable (lit "txoracle validation proof fetch unavailable: " ++ show_error e)
      (report "unavailable" (show_error e) end)

module _ {F : Type 0} where
  -- The raw proof that came with the event, if it has the shape of one.
  unfoldable pub attached_proof : AgentRun F → Option Value
  unfolding has_validation_shape
  attached_proof run = with_shape (run.trigger.proof >>= λ receipt. receipt.raw)

  abbrev use_attached : AgentRun F → Value → Option ℕ → ProofLoad
  use_attached run proof (some seq) =
      ready (record { seq = seq; stat_keys = preferred_stat_keys run; payload = proof })
  use_attached run proof none =
      not_started (lit "txoracle validation not started; attached proof lacks TxLINE sequence")
        (report "not_started" (lit "missing_seq") end)

  unfoldable pub fetch_source : Fetch → AgentRun F → Option ℕ → ProofLoad
  unfolding numeric_stat_keys join show_ℕ show_error
  fetch_source fetch run none =
      not_started (lit "txoracle validation not started; TxLINE event did not include seq") (
        report "not_started" (lit "missing_seq")
          (field (lit "triggerEventId") (string run.trigger.id) end))
  fetch_source fetch run (some seq) =
      let stat_keys = numeric_stat_keys run in
      if is_empty stat_keys
      then not_started (lit "txoracle validation not started; event has no numeric TxLINE statKeys")
          (report "not_started" (lit "missing_numeric_stat_keys") (
            field (lit "triggerEventId") (string run.trigger.id)
              (field (lit "statKeys") (array (text_items run.trigger.stat_keys)) end)))
      else of_answer seq stat_keys (
          fetch (lit "api/scores/stat-validation") (
            (lit "fixtureId", show_ℕ run.trigger.fixture_id)
            ∷ (lit "seq", show_ℕ seq)
            ∷ (lit "statKeys", join (lit ",") stat_keys)
            ∷ []))

  unfoldable pub load_proof_source : Fetch → AgentRun F → ProofLoad
  unfolding attached_proof preferred_stat_keys fetch_source
  load_proof_source fetch run = elim (attached_proof run) [
    | none ↦ fetch_source fetch run run.trigger.seq
    | some proof ↦ use_attached run proof run.trigger.seq
  ]
