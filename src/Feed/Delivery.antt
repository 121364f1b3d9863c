-- ===== src/Feed/Delivery.antt =====
-- native/src/services/txline/ingest.rs: the blocks that a well-formed stream holds are handed over.
use mathlib.Core.Path.{subst}
use txodds_agent_desk.Prelude.{
  ℕ, suc, ◌+◌, ◌≡◌, ◌≢◌, refl, sym, ap, ◌∙◌, Bool, true, false, Option, none, some, List, [], ◌∷◌,
  ◌++◌, arith, append_assoc, append-nil, length,
}
use txodds_agent_desk.Text.{Text}
use txodds_agent_desk.Float.{Float}
use txodds_agent_desk.Wire.{strip_prefix}
use txodds_agent_desk.Feed.{lf_lf, crlf_crlf, sse_block_id}
use txodds_agent_desk.Feed.Blocks.{cut, in_front, cut-skip}
use txodds_agent_desk.Feed.Event.{Outside, parse_sse_block}
use txodds_agent_desk.Feed.Stream.{
  FeedState, Action, ended, on_block, read_stream, push_str, update_id, deliver, fuel_for,
}
use txodds_agent_desk.Feed.Chunks.{
  concat, AreAllScalars, chunks_of, Drains, stop, step, taken, read_stream-Drains, Drains-drain,
  buffer-on_block,
}

-- A block as a server writes it: not empty, no blank line in it or at its end, and a carriage return
-- only before a line feed.
abbrev pub IsBlock : Text → Type 0
IsBlock [] = ⊥
IsBlock (c ∷ []) = (c ≢ 10) × (c ≢ 13)
IsBlock (c ∷ b ∷ s) = (c ≡ 10 → (b ≢ 10) × (b ≢ 13)) × (c ≡ 13 → b ≡ 10) × IsBlock (b ∷ s)

-- The separator after a block.
abbrev pub separator : Bool → Text
separator false = lf_lf
separator true = crlf_crlf

abbrev pub written : List (Text × Bool) → Text
written [] = []
written ((block, crlf) ∷ rest) = block ++ (separator crlf ++ written rest)

abbrev pub AreBlocks : List (Text × Bool) → Type 0
AreBlocks [] = Unit
AreBlocks ((block, crlf) ∷ rest) = IsBlock block × AreBlocks rest

cut-separator : (crlf : Bool) (more : Text) → cut (separator crlf ++ more) ≡ some ([], more)
unfolding cut strip_prefix
cut-separator false more = refl
cut-separator true more = refl

no_separator :
    (c b : ℕ) (s more : Text) (crlf : Bool)
    → IsBlock (c ∷ b ∷ s)
    → let rest = (b ∷ s) ++ (separator crlf ++ more) in
      (strip_prefix lf_lf (c ∷ rest) ≡ none) × (strip_prefix crlf_crlf (c ∷ rest) ≡ none)
unfolding strip_prefix
no_separator c b [] more crlf (h, k, h') = ground (arith, h, k)
no_separator c b (a ∷ s) more crlf (h, k, (h', k', r)) = ground (arith, h, k, h', k')

no_separator_last :
    (c : ℕ) (more : Text) (crlf : Bool)
    → IsBlock (c ∷ [])
    → let rest = separator crlf ++ more in
      (strip_prefix lf_lf (c ∷ rest) ≡ none) × (strip_prefix crlf_crlf (c ∷ rest) ≡ none)
unfolding strip_prefix
no_separator_last c more crlf h = ground arith

-- A block and its separator are cut off as they were written.
cut-written :
    (block more : Text) (crlf : Bool)
    → IsBlock block
    → cut (block ++ (separator crlf ++ more)) ≡ some (block, more)
cut-written [] more crlf h = absurd h
cut-written (c ∷ []) more crlf h =
    let (p, q) = no_separator_last c more crlf h in
    cut-skip c (separator crlf ++ more) p q ∙ ap (in_front c) (cut-separator crlf more)
cut-written (c ∷ b ∷ s) more crlf h =
    let (p, q) = no_separator c b s more crlf h in
    cut-skip c ((b ∷ s) ++ (separator crlf ++ more)) p q
    ∙ ap (in_front c) (cut-written (b ∷ s) more crlf h.2)

cut_nil : cut [] ≡ none
unfolding cut
cut_nil = refl

-- The identifier of the last block that has one, or else the one before.
abbrev pub newest : Option Text → List (Text × Bool) → Option Text
newest last [] = last
newest last ((block, crlf) ∷ rest) = newest (update_id (sse_block_id block) last) rest

module _ {F : Type 0} ⦃d : Float F⦄ (o : Outside F) (stream : Text) where
  -- What is done for the blocks, `n` of them having come before.
  abbrev pub deliveries : ℕ → List (Text × Bool) → List (Action F)
  deliveries n [] = []
  deliveries n ((block, crlf) ∷ rest) =
      deliver (parse_sse_block o n stream block) ++ deliveries (n + 1) rest

  -- The state after the blocks.
  abbrev pub delivered : FeedState F → List (Text × Bool) → FeedState F
  delivered s bs = record {
    buffer = [];
    last_event_id = newest s.last_event_id bs;
    blocks = s.blocks + length bs;
    actions = s.actions ++ deliveries s.blocks bs;
  }

  delivered_nil : (s : FeedState F) → s.buffer ≡ [] → s ≡ delivered s []
  delivered_nil s e =
      let none_more : s.blocks ≡ s.blocks + 0 = omega arith in
      λ i. record {
        buffer = e i;
        last_event_id = s.last_event_id;
        blocks = none_more i;
        actions = sym (append-nil s.actions) i;
      }

  join_state :
      (id : Option Text) (n m : ℕ) (before now later : List (Action F))
      → ◌≡◌ {A = FeedState F}
          (record {
            buffer = [];
            last_event_id = id;
            blocks = n + 1 + m;
            actions = (before ++ now) ++ later;
          })
          (record {
            buffer = [];
            last_event_id = id;
            blocks = n + suc m;
            actions = before ++ (now ++ later);
          })
  join_state id n m before now later =
      let one_more : n + 1 + m ≡ n + suc m = omega arith in
      λ i. record {
        buffer = [];
        last_event_id = id;
        blocks = one_more i;
        actions = append_assoc before now later i;
      }

  delivered_cons :
      (s : FeedState F) (block : Text) (crlf : Bool) (rest : List (Text × Bool))
      → delivered (taken o stream s block (written rest)) rest ≡ delivered s ((block, crlf) ∷ rest)
  unfolding on_block
  delivered_cons s block crlf rest =
      join_state (newest (update_id (sse_block_id block) s.last_event_id) rest) s.blocks
        (length rest) s.actions (deliver (parse_sse_block o s.blocks stream block))
        (deliveries (s.blocks + 1) rest)

  Drains-written :
      (bs : List (Text × Bool)) (s : FeedState F)
      → AreBlocks bs
      → s.buffer ≡ written bs
      → Drains o stream s (delivered s bs)
  Drains-written [] s h e = stop (ap cut e ∙ cut_nil) (delivered_nil s e)
  Drains-written ((block, crlf) ∷ rest) s (h, hs) e =
      step block (written rest) (ap cut e ∙ cut-written block (written rest) crlf h) (
        subst (λ (x : FeedState F). Drains o stream (taken o stream s block (written rest)) x)
          (delivered_cons s block crlf rest)
          (Drains-written rest (taken o stream s block (written rest)) hs
            (buffer-on_block o stream (record s { buffer = written rest }) block)))

  -- The chunks of a written stream, from an empty buffer on.
  pub read_stream-written :
      (ts : List Text) (bs : List (Text × Bool)) (s : FeedState F)
      → AreAllScalars ts
      → AreBlocks bs
      → s.buffer ≡ []
      → concat ts ≡ written bs
      → read_stream o stream s (chunks_of ts) ≡ some (ended, delivered s bs)
  read_stream-written ts bs s ht hb e p =
      let (u, q, r) = read_stream-Drains o stream ts s ht (ap cut e ∙ cut_nil) in
      let t : FeedState F = push_str s (concat ts) in
      let same : some u ≡ some (delivered s bs) =
        sym (Drains-drain o stream (fuel_for t) (omega arith) r)
        ∙ Drains-drain o stream (fuel_for t) (omega arith)
            (Drains-written bs t hb (ap (λ b. b ++ concat ts) e ∙ p)) in
      q ∙ cc
