-- ===== src/Lib.antt =====
-- The TxODDS agent desk: a desk of agents that watches live match events, proposes and sizes wagers,
-- checks proofs against an on-chain root, and decides what may be settled. This library models the
-- deterministic core of its Rust code; paths below are from the repository's root.
--
-- How the parts interact. An event of the feed (crates/txodds-types/src/txline.rs) starts a round
-- (native/src/services/agent/runtime/mod.rs). The round derives features, asks the validation bridge
-- for a proof receipt, gates the receipt, builds a signal, lets the policy choose an action and writes
-- the decision into the run. Beside it, a wager proposed by an agent is ruled by the Authority and
-- verified by the proof guard. Agents talk over one line of text per message, and a budget bounds what
-- they may do.
--
-- Which file models which part:
--   Wager          crates/txodds-types/src/wager.rs: Wager, push_debate, next_debate_round,
--                  kelly_fraction, implied_probability
--   Authority      native/src/services/agent/authority.rs: adjudicate (stake_wager is its steps 4 and 5,
--                  price_wager its steps 2 to 5), from_max_spend
--   ProofGuard     crates/agent-core/src/proof_guard.rs: run_checks, a function per check, verify
--   AgentError     crates/agent-core/src/error.rs
--   Safety         crates/agent-core/src/safety.rs: BudgetGuard, StepCounter, wrap_untrusted
--   Event, Run     crates/txodds-types/src/txline.rs, cluster.rs and agent.rs
--   Decision       crates/agent-core/src/domain.rs
--   Features       crates/agent-core/src/features.rs: derive_features
--   Signal         native/src/services/agent/runtime/signal.rs: build_signal
--   Gate           native/src/services/proof/mod.rs: receipt_for_run, gate_receipt, verdict_from_gate
--   Gate/Merge     native/src/services/proof/validation.rs: merge_sidecar_response
--   Gate/StatKeys  the same file: numeric_stat_keys, preferred_stat_keys, collect_numeric_keys_from_json
--   Gate/Bridge    the same file: load_proof_source, and in Bridge/Receipt receipt_for_run of the bridge,
--                  its request to the sidecar, and what it reads of native/src/config.rs
--   Fundamentals   crates/agent-core/src/fundamentals.rs: extract_stats, model_distribution,
--                  best_selection
--   Policy         crates/agent-core/src/policy.rs: choose_action
--   Apply          native/src/services/agent/runtime/decision.rs: apply_decision_to_run
--   Evaluation     crates/agent-core/src/evaluation.rs: evaluate_decision
--   Round          native/src/services/agent/runtime/mod.rs and events.rs: the path of a round from its
--                  trigger to the decision in the run
--   Wire           crates/coral-client/src/wire.rs: verb, tok, quoted, json_val
--   ToolLoop       crates/rig-venice/src/loop_runner.rs: run_tool_loop (run_turn is one round), tool_result
--   Arena          crates/agent-core/src/arena.rs: from_positions
--   Autonomous     native/src/services/autonomous.rs: latest_per_outcome, poll_fixture (diff is its
--                  comparison with the last poll, rate_limited the rest)
--   Backtest       native/src/services/backtest.rs: replay_fixture from its ticks on, settle_position,
--                  tally; crates/rig-venice/src/tools.rs: compute_sharp_movement
--   Settlement     crates/agents/settlement-agent/src/main.rs: handle (reply_to decides, show_reply
--                  prints), simulate_settlement, parse_wager
--   GuardAgent     crates/agents/proof-guard-agent/src/main.rs: handle (guard_reply_to decides,
--                  show_guard_reply prints)
--   Feed           native/src/services/txline/ingest.rs: find_sse_separator and sse_block_id; Feed/Fields
--                  its extract_* functions, Feed/Parse and Feed/Event parse_sse_block (sse_fields reads
--                  the lines, event_of builds the event), Feed/Stream connect_sse_once (drain is its
--                  inner loop, after_answer what it does with the answer) and live_stream_loop
--   Ledger         native/src/services/ledger/store.rs: the rows of its tables; Ledger/Table its statements
--                  (upsert is INSERT ... ON CONFLICT DO UPDATE), Ledger/Store the writes of a round and
--                  get_run, with persist_run of native/src/services/agent/runtime/persistence.rs,
--                  Ledger/Backtests replace_backtest_settlements, Ledger/Sessions list_arena_sessions
--   Strings and Utf8 hold what the code uses of `str`, `String::lines` and `String::from_utf8_lossy`.
--   Prelude, Text, Float, Json and Decimal are what these share, and Tests holds sample data and runs.
--
-- How the code is modelled:
--   - A `&str` or `String` is the list of its code points (Text), with its UTF-8 length in bytes; a
--     slice at a byte offset inside a character is a panic, as in Rust.
--   - A function that can panic returns an Option, and `none` is the panic.
--   - `f64` is an interface (Float): its operations are abstract, and the laws of Float/Order and
--     Round/Severity are the documented behaviour of its comparisons, `min`, `max` and literals that
--     proofs use, true of NaN and the infinities. Float/Micro is an executable instance that meets them.
--   - A `u64` is a natural number with `% 2 ^ 64` where the code adds, as in a release build.
--   - Mutation is a function from the old record to the new one. The atomic counters of the budget are
--     fields, and an interleaving of updates is a list of updates.
--   - Fresh identifiers, times, the serialised package, SHA-256, `{:?}` of a text and the day that
--     `chrono` computes are arguments; a round takes one time and one identifier for all its entries. The
--     receipt that the validation bridge returns is an argument of the round too, and Round/Bridged puts
--     the bridge's in. The bridge takes the file system, the HTTP request and the run of the sidecar
--     process as a record of functions.
--   - The tool loop takes the model and the tools as functions of what they are given and of the number of
--     steps so far, so that equal requests may be answered differently. Its rounds are counted down, as in
--     the code.
--   - The stream is read from the answers and chunks that the network gives, which are arguments, and
--     what the code sends, emits and writes is a list of actions. The inner loop has more fuel than the
--     buffer has characters, and each block takes at least two.
--   - A table of the ledger is the list of its rows in the order of insertion. What SQL leaves open, the
--     order of rows of one time and the row that LIMIT 1 picks, is an argument; so is the JSON of a value,
--     and that a value's JSON parses back to it is a hypothesis where a row is read. A NaN is NULL in
--     SQLite, so a row of backtest settlements with one is an error of its statement.
--   - Elsewhere recursion is structural. `json_val` scans the text once, with the number of characters left of an
--     occurrence it passes over; its depth is a natural number in place of an `i32`, which a text of less
--     than 2^31 brackets cannot overflow.
--
-- What is not modelled: network and process calls, the rest of the database, the user interface, messages and traces
-- for the console, timeline entries of delegations to other agents, and `num` of the wire grammar, which
-- parses an `f64`.
pub mod Prelude
pub mod Strings
pub mod Text
pub mod Float
pub mod Utf8
pub mod Wager
pub mod Authority
pub mod ProofGuard
pub mod AgentError
pub mod Safety
pub mod Json
pub mod Decimal
pub mod Event
pub mod Run
pub mod Features
pub mod Decision
pub mod Signal
pub mod Fundamentals
pub mod Gate
pub mod Policy
pub mod Apply
pub mod Evaluation
pub mod Round
pub mod Wire
pub mod GuardAgent
pub mod Settlement
pub mod Backtest
pub mod Autonomous
pub mod Arena
pub mod Feed
pub mod Ledger
pub mod ToolLoop
pub mod Tests
