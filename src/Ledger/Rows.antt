-- ===== src/Ledger/Rows.antt =====
-- The rows that the statements of native/src/services/ledger/store.rs bind, and what an upsert leaves of
-- a table.
use txodds_agent_desk.Prelude.{
  ℕ, ◌<◌, ◌^◌, ◌≡◌, refl, ap, ◌∙◌, true, Option, none, some, List, [], ◌∷◌, ◌++◌, arith, inl, inr,
  ◌⊎◌, Bool-cases, if◌then◌else◌, ltb,
}
use txodds_agent_desk.Text.{Text, lit, text_eq, text_eq_refl}
use txodds_agent_desk.Decimal.{show_ℕ}
use txodds_agent_desk.Event.{TxLineEvent, TxLineProofReceipt, show_track, kind_debug}
use txodds_agent_desk.Run.{AgentRun}
use txodds_agent_desk.Decision.{AgentDecision}
use txodds_agent_desk.Apply.{action_debug}
use txodds_agent_desk.Ledger.Table.{row_at, insert_row, upsert, has_key}
use txodds_agent_desk.Ledger.Keys.{row_at-upsert, row_at-none, updated}
use txodds_agent_desk.Ledger.{
  Result, ok, err, ◌>>=◌, AppError, or_error, LlmResponse, to_sql, to_sql_option, first_at,
  simulation_debug, RunRow, ObservationRow, ReceiptRow, DecisionRow, LlmCallRow, seq_text,
}

pub bind-ok :
    {A B : Type 0} (m : Result A) (f : A → Result B) (b : B)
    → (m >>= f) ≡ ok b
    → (a : A) × ((m ≡ ok a) × (f a ≡ ok b))
bind-ok (ok a) f b h = (a, (refl, h))
bind-ok (err e) f b h = absurd cc

pub or_error-ok :
    {A : Type 0} (e : AppError) (o : Option A) (a : A) → or_error e o ≡ ok a → o ≡ some a
or_error-ok e none a h = absurd cc
or_error-ok e (some x) a h = cc

pub to_sql-ok : (n k : ℕ) → to_sql n ≡ ok k → (n < 2 ^ 63) × (k ≡ n)
unfolding to_sql
to_sql-ok n k h = elim (Bool-cases (ltb n (2 ^ 63))) [
  | inl e ↦ (ground (arith, e), ground (arith, e))
  | inr e ↦ absurd (ground (arith, e))
]

-- A `u64` or none that SQLite's integers hold.
abbrev pub Fits : Option ℕ → Type 0
Fits none = Unit
Fits (some n) = n < 2 ^ 63

pub to_sql_option-ok : (o p : Option ℕ) → to_sql_option o ≡ ok p → Fits o × (p ≡ o)
to_sql_option-ok none p h = (tt, cc)
to_sql_option-ok (some n) p h =
    let (k, (e, g)) = bind-ok (to_sql n) (λ k. ok (some k)) p h in
    let (fits, same) = to_sql-ok n k e in (fits, cc)

-- A row that is written over the one under its key: all of it if there was none, and the changed
-- columns otherwise.
abbrev pub renewed : {R : Type 0} → R → (R → R) → Option R → R
renewed fresh change none = fresh
renewed fresh change (some r) = change r

-- The row of a key after a statement, and any other row as before.
pub record IsUpserted {R : Type 0} (key : R → Text) (id k : Text) (fresh : R) (change : R → R)
    (rows rows' : List R) : Type 0 where
  pub row : row_at key id rows' ≡ some (renewed fresh change (row_at key id rows))
  pub others : (text_eq id k ≡ true) ⊎ (row_at key k rows' ≡ row_at key k rows)

module _ {R : Type 0} (key : R → Text) (update : R → R → R)
    (keeps : (r new : R) → key (update r new) ≡ key r) where
  renewed-updated :
      (new : R) (o : Option R) → updated key update keeps new o ≡ renewed new (λ r. update r new) o
  renewed-updated new none = refl
  renewed-updated new (some r) = refl

  pub upsert-IsUpserted :
      (new : R) (k : Text) (rows : List R)
      → IsUpserted key (key new) k new (λ r. update r new) rows (upsert key update new rows)
  upsert-IsUpserted new k rows = record {
    row =
        row_at-upsert key update keeps new (key new) rows
        ∙ ap
            (λ b.
              if b
              then some (updated key update keeps new (row_at key (key new) rows))
              else row_at key (key new) rows)
            (text_eq_refl (key new))
        ∙ ap some (renewed-updated new (row_at key (key new) rows));
    others = elim (Bool-cases (text_eq (key new) k)) [
      | inl e ↦ inl e
      | inr e ↦ inr (
          row_at-upsert key update keeps new k rows
          ∙ ap
              (λ b.
                if b
                then some (updated key update keeps new (row_at key (key new) rows))
                else row_at key k rows)
              e)
    ];
  }

pub insert_row-ok :
    {R : Type 0} (key : R → Text) (new : R) (rows rows' : List R)
    → insert_row key new rows ≡ some rows'
    → (row_at key (key new) rows ≡ none) × (rows' ≡ rows ++ new ∷ [])
unfolding insert_row
insert_row-ok key new rows rows' h = elim (Bool-cases (has_key key (key new) rows)) [
  | inl e ↦ absurd (ground (arith, e))
  | inr e ↦ (row_at-none key (key new) rows e, ground (arith, e))
]

pub ok-same : {A : Type 0} (a b : A) → ok a ≡ ok b → b ≡ a
ok-same a b h = cc

module _ {F : Type 0} where
  -- The rows as the statements bind them.
  abbrev pub run_row : Text → AgentRun F → (trigger text : Text) → RunRow
  run_row now run trigger text = record {
    run_id = run.run_id;
    track = show_track run.track;
    trigger_json = trigger;
    run_json = text;
    created_at = first_at run.timeline now;
  }

  abbrev pub observation_row : Text → TxLineEvent F → (text : Text) → ObservationRow
  observation_row run_id event text = record {
    id = run_id ++ (lit ":" ++ event.id);
    run_id = run_id;
    fixture_id = event.fixture_id;
    event_id = event.id;
    event_kind = kind_debug event.kind;
    event_json = text;
    created_at = event.ts;
  }

  abbrev pub decision_row : Text → AgentDecision F → (text : Text) → DecisionRow
  decision_row run_id decision text = record {
    id = decision.id;
    run_id = run_id;
    signal_id = decision.signal_id;
    action = action_debug decision.action;
    decision_json = text;
    created_at = decision.created_at;
  }

abbrev pub receipt_row : (now run_id : Text) → TxLineProofReceipt → (text : Text) → ReceiptRow
receipt_row now run_id receipt text = record {
  id = run_id ++ (lit ":" ++ (show_ℕ receipt.fixture_id ++ (lit ":" ++ seq_text receipt.seq)));
  run_id = run_id;
  fixture_id = receipt.fixture_id;
  seq = receipt.seq;
  status = simulation_debug receipt.simulation_status;
  verified = receipt.verified;
  receipt_json = text;
  created_at = now;
}

abbrev pub llm_row : (now uuid run_id : Text) → LlmResponse → (text : Text) → LlmCallRow
llm_row now uuid run_id response text = record {
  id = run_id ++ (lit ":" ++ uuid);
  run_id = run_id;
  provider = response.provider;
  model = response.model;
  used = response.used;
  response_json = text;
  created_at = now;
}
