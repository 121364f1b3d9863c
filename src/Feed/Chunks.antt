-- ===== src/Feed/Chunks.antt =====
-- native/src/services/txline/ingest.rs: the inner loop of connect_sse_once, and how the body's chunks
-- divide the stream.
use txodds_agent_desk.Prelude.{
  ℕ, zero, suc, ◌<◌, ◌≡◌, refl, sym, ap, ◌∙◌, Option, none, some, List, [], ◌∷◌, ◌++◌, arith, map,
  length, Option-cases, inl, inr, append_assoc, append-nil, ◌>>=◌,
}
use mathlib.Core.Path.{subst}
use txodds_agent_desk.Text.{Text}
use txodds_agent_desk.Utf8.{Bytes, encode, AreScalars}
use txodds_agent_desk.Utf8.RoundTrip.{from_utf8_lossy-encode, AreScalars-append}
use txodds_agent_desk.Float.{Float}
use txodds_agent_desk.Feed.Blocks.{cut, take_block_lem}
use txodds_agent_desk.Feed.Cut.{cut-append, length-cut}
use txodds_agent_desk.Feed.Event.{Outside}
use txodds_agent_desk.Feed.Stream.{
  FeedState, ended, on_block, drain, receive, read_stream, push_str, fuel_for,
}

abbrev pub concat : List Text → Text
concat [] = []
concat (t ∷ ts) = t ++ concat ts

abbrev pub AreAllScalars : List Text → Type 0
AreAllScalars [] = Unit
AreAllScalars (t ∷ ts) = AreScalars t × AreAllScalars ts

abbrev pub chunks_of : List Text → List (Option Bytes)
chunks_of = map λ t. some (encode t)

pub AreScalars-concat : (ts : List Text) → AreAllScalars ts → AreScalars (concat ts)
AreScalars-concat [] h = tt
AreScalars-concat (t ∷ ts) h = AreScalars-append t (concat ts) h.0 (AreScalars-concat ts h.1)

module _ {F : Type 0} ⦃d : Float F⦄ (o : Outside F) (stream : Text) where
  -- One block taken from the buffer.
  abbrev pub taken : FeedState F → Text → Text → FeedState F
  taken s block rest = on_block o stream (record s { buffer = rest }) block

  -- The inner loop leads from one state to another.
  pub data Drains : FeedState F → FeedState F → Type 0 where
    stop : {s t : FeedState F} → cut s.buffer ≡ none → s ≡ t → Drains s t
    step :
        {s t : FeedState F} (block rest : Text)
        → cut s.buffer ≡ some (block, rest)
        → Drains (taken s block rest) t
        → Drains s t

  pub buffer-on_block :
      (s : FeedState F) (block : Text) → (on_block o stream s block).buffer ≡ s.buffer
  unfolding on_block
  buffer-on_block s block = refl

  shorter :
      (s : FeedState F) (block rest : Text) (fuel : ℕ)
      → cut s.buffer ≡ some (block, rest)
      → length s.buffer < suc fuel
      → length (taken s block rest).buffer < fuel
  shorter s block rest fuel e h =
      rw (buffer-on_block (record s { buffer = rest }) block)
        (omega (arith, length-cut s.buffer block rest e))

  drain-none :
      (fuel : ℕ) (s : FeedState F) → cut s.buffer ≡ none → drain o stream (suc fuel) s ≡ some s
  unfolding drain
  drain-none fuel s e = ground (arith, take_block_lem s.buffer)

  drain-some :
      (fuel : ℕ) (s : FeedState F) (block rest : Text)
      → cut s.buffer ≡ some (block, rest)
      → drain o stream (suc fuel) s ≡ drain o stream fuel (taken s block rest)
  unfolding drain
  drain-some fuel s block rest e = ground (arith, take_block_lem s.buffer)

  -- With more fuel than the buffer has characters the loop ends, and without a panic.
  pub drain-Drains :
      (fuel : ℕ) (s : FeedState F)
      → length s.buffer < fuel
      → (t : FeedState F) × (drain o stream fuel s ≡ some t) × Drains s t
  drain-Drains zero s h = elim h [ ]
  drain-Drains (suc fuel) s h = elim (Option-cases (cut s.buffer)) [
    | inl e ↦ (s, drain-none fuel s e, stop e refl)
    | inr ((block, rest), e) ↦
        let (t, p, q) = drain-Drains fuel (taken s block rest) (shorter s block rest fuel e h) in
        (t, drain-some fuel s block rest e ∙ p, step block rest e q)
  ]

  -- What the loop leads to is what it returns.
  pub Drains-drain :
      (fuel : ℕ) {s t : FeedState F}
      → length s.buffer < fuel
      → Drains s t
      → drain o stream fuel s ≡ some t
  Drains-drain zero h r = elim h [ ]
  Drains-drain (suc fuel) {s} h (stop e p) = drain-none fuel s e ∙ ap some p
  Drains-drain (suc fuel) {s} h (step block rest e r) =
      drain-some fuel s block rest e ∙ Drains-drain fuel (shorter s block rest fuel e h) r

  taken-push_str :
      (s : FeedState F) (block rest more : Text)
      → taken (push_str s more) block (rest ++ more) ≡ push_str (taken s block rest) more
  unfolding on_block
  taken-push_str s block rest more = refl

  nothing_more : (s : FeedState F) → push_str s [] ≡ s
  nothing_more s = ap (λ b. record s { buffer = b }) (append-nil s.buffer)

  -- Text that is read later changes nothing of what the loop did before.
  Drains-push_str :
      {s t u : FeedState F} (more : Text)
      → Drains s t
      → Drains (push_str t more) u
      → Drains (push_str s more) u
  Drains-push_str {s} {t} {u} more (stop e p) r =
      subst (λ (x : FeedState F). Drains (push_str x more) u) (sym p) r
  Drains-push_str {s} {t} {u} more (step block rest e q) r =
      step block (rest ++ more) (cut-append s.buffer more block rest e) (
        subst (λ (x : FeedState F). Drains x u) (sym (taken-push_str s block rest more))
          (Drains-push_str more q r))

  pub receive-Drains :
      (s : FeedState F) (a : Text)
      → AreScalars a
      → (t : FeedState F) × (receive o stream s (encode a) ≡ some t) × Drains (push_str s a) t
  unfolding receive
  receive-Drains s a h =
      rw (from_utf8_lossy-encode a h)
        (drain-Drains (fuel_for (push_str s a)) (push_str s a) (omega arith))

  pub Drains-receive :
      (s t : FeedState F) (a : Text)
      → AreScalars a
      → Drains (push_str s a) t
      → receive o stream s (encode a) ≡ some t
  unfolding receive
  Drains-receive s t a h r =
      rw (from_utf8_lossy-encode a h) (Drains-drain (fuel_for (push_str s a)) (omega arith) r)

  push_str-append : (s : FeedState F) (a b : Text) → push_str (push_str s a) b ≡ push_str s (a ++ b)
  push_str-append s a b = ap (λ t. record s { buffer = t }) (append_assoc s.buffer a b)

  pub Drains-end : {s t : FeedState F} → Drains s t → cut t.buffer ≡ none
  Drains-end {s} {t} (stop e p) = subst (λ (x : FeedState F). cut x.buffer ≡ none) p e
  Drains-end (step block rest e r) = Drains-end r

  -- Chunks that are texts lead, one after the other, where their whole text leads.
  pub read_stream-Drains :
      (ts : List Text) (s : FeedState F)
      → AreAllScalars ts
      → cut s.buffer ≡ none
      → (u : FeedState F) × (read_stream o stream s (chunks_of ts) ≡ some (ended, u))
        × Drains (push_str s (concat ts)) u
  unfolding read_stream
  read_stream-Drains [] s h e =
      (s, refl, subst (λ (x : FeedState F). Drains x s) (sym (nothing_more s)) (stop e refl))
  read_stream-Drains (t ∷ ts) s (ht, hts) e =
      let (v, p, r) = receive-Drains s t ht in
      let (u, p', r') = read_stream-Drains ts v hts (Drains-end r) in
      (
        u,
        ap (λ m. m >>= λ s'. read_stream o stream s' (chunks_of ts)) p ∙ p',
        subst (λ (x : FeedState F). Drains x u) (push_str-append s t (concat ts))
            (Drains-push_str (concat ts) r r'),
      )
