-- ===== src/Gate/Bridge/Loaded.antt =====
-- load_proof_source of native/src/services/proof/validation.rs: what is known of a source that it loads.
use mathlib.Core.Path.{subst}
use txodds_agent_desk.Prelude.{
  ◌≡◌, ◌≢◌, sym, ap, ◌∙◌, false, ◌⊎◌, inl, inr, ℕ, none, some, List, [], ◌∷◌, Bool-cases,
  Option-cases, is_empty, arith,
}
use txodds_agent_desk.Text.{Text}
use txodds_agent_desk.Json.{Value}
use txodds_agent_desk.Run.{AgentRun}
use txodds_agent_desk.Gate.StatKeys.{preferred_stat_keys, numeric_stat_keys}
use txodds_agent_desk.Gate.StatKeys.Kept.{IsKeySet, numeric_stat_keys-IsKeySet}
use txodds_agent_desk.Gate.Bridge.{
  RequestError, Answer, ok, err, config, of_answer, Fetch, ProofSource, ready, attached_proof,
  fetch_source, load_proof_source,
}

refused :
    (seq : ℕ) (keys : List Text) (e : RequestError) (source : ProofSource)
    → of_answer seq keys (err e) ≡ ready source
    → ⊥
refused seq keys (config e) source h = absurd cc
refused seq keys _ source h = absurd cc

of_answer-ready :
    (seq : ℕ) (keys : List Text) (answer : Answer Value) (source : ProofSource)
    → of_answer seq keys answer ≡ ready source
    → (source.seq ≡ seq) × (source.stat_keys ≡ keys)
of_answer-ready seq keys (ok payload) source h = (ground arith, ground arith)
of_answer-ready seq keys (err e) source h = elim (refused seq keys e source h) [ ]

not-empty : (keys : List Text) → is_empty keys ≡ false → keys ≢ []
not-empty [] e h = absurd cc
not-empty (k ∷ ks) e h = absurd cc

module _ {F : Type 0} where
  fetch_source-ready :
      (fetch : Fetch) (run : AgentRun F) (seq : ℕ) (source : ProofSource)
      → fetch_source fetch run (some seq) ≡ ready source
      → (source.seq ≡ seq)
        × ((source.stat_keys ≢ []) × IsKeySet (preferred_stat_keys run) source.stat_keys)
  unfolding fetch_source
  fetch_source-ready fetch run seq source h = elim (Bool-cases (is_empty (numeric_stat_keys run))) [
    | inl e ↦ absurd (ground arith)
    | inr e ↦
        let (same, keys) = of_answer-ready seq (numeric_stat_keys run) _ source (rw e at h) in
        (
          same,
          (
            λ z. not-empty (numeric_stat_keys run) e (sym keys ∙ z),
            subst (IsKeySet (preferred_stat_keys run)) (sym keys) (numeric_stat_keys-IsKeySet run),
          ),
        )
  ]

  -- The proof that came with the event, under the keys as they are; or a proof that was fetched, with
  -- keys that are numbers.
  abbrev pub CameAlong : AgentRun F → ProofSource → Type 0
  CameAlong run source =
      (attached_proof run ≡ some source.payload) × (source.stat_keys ≡ preferred_stat_keys run)

  abbrev pub WasFetched : AgentRun F → ProofSource → Type 0
  WasFetched run source =
      (attached_proof run ≡ none)
      × ((source.stat_keys ≢ []) × IsKeySet (preferred_stat_keys run) source.stat_keys)

  -- A source that is loaded, whatever TxLINE answers, has the sequence number of the event. It is the
  -- proof that came with the event, under the preferred keys; or there is none such, and the keys are
  -- at least one, ascending, numbers, and all the preferred keys that are numbers.
  pub load_proof_source-ready :
      (fetch : Fetch) (run : AgentRun F) (source : ProofSource)
      → load_proof_source fetch run ≡ ready source
      → (run.trigger.seq ≡ some source.seq) × (CameAlong run source ⊎ WasFetched run source)
  unfolding load_proof_source fetch_source
  load_proof_source-ready fetch run source h = elim (Option-cases run.trigger.seq) [
    | inl e ↦ absurd (ground arith)
    | inr (seq, e) ↦ elim (Option-cases (attached_proof run)) [
      | inr (proof, a) ↦ (ground arith, inl (ground arith, ground arith))
      | inl a ↦
          let (same, found) =
            fetch_source-ready fetch run seq source (rw (load_proof_source, a, e) at h) in
          (e ∙ ap some (sym same), inr (a, found))
    ]
  ]
