-- ===== src/Feed/Cut.antt =====
-- The first block of the stream in native/src/services/txline/ingest.rs, when more text is read.
use txodds_agent_desk.Prelude.{
  ℕ, ◌+◌, ◌≤◌, ◌≡◌, sym, ap, ◌∙◌, Option, none, some, [], ◌∷◌, ◌++◌, arith, Option-cases, inl, inr,
  length,
}
use txodds_agent_desk.Text.{Text}
use txodds_agent_desk.Strings.{map_some}
use txodds_agent_desk.Wire.{strip_prefix}
use txodds_agent_desk.Wire.Extract.{strip_prefix-some}
use txodds_agent_desk.Feed.{lf_lf, crlf_crlf}
use txodds_agent_desk.Feed.Blocks.{cut, in_front, cut-skip, cut-lf, cut-crlf}

in_front-some :
    (c : ℕ) (o : Option (Text × Text)) (block rest : Text)
    → in_front c o ≡ some (block, rest)
    → (b : Text) × (o ≡ some (b, rest)) × (block ≡ c ∷ b)
in_front-some c none block rest h = absurd cc
in_front-some c (some (b, r)) block rest h = (b, ground arith, ground arith)

strip_lf-append :
    (a b : ℕ) (s more : Text)
    → strip_prefix lf_lf (a ∷ b ∷ (s ++ more))
      ≡ map_some (λ r. r ++ more) (strip_prefix lf_lf (a ∷ b ∷ s))
unfolding strip_prefix
strip_lf-append a b s more = ground arith

strip_crlf-append :
    (a b c d : ℕ) (s more : Text)
    → strip_prefix crlf_crlf (a ∷ b ∷ c ∷ d ∷ (s ++ more))
      ≡ map_some (λ r. r ++ more) (strip_prefix crlf_crlf (a ∷ b ∷ c ∷ d ∷ s))
unfolding strip_prefix
strip_crlf-append a b c d s more = ground arith

-- The cases of a cut at a character.
data Cut (c : ℕ) (s block rest : Text) : Type 0 where
  at_lf : strip_prefix lf_lf (c ∷ s) ≡ some rest → block ≡ [] → Cut c s block rest
  at_crlf :
      strip_prefix lf_lf (c ∷ s) ≡ none
      → strip_prefix crlf_crlf (c ∷ s) ≡ some rest
      → block ≡ []
      → Cut c s block rest
  later :
      (b : Text)
      → strip_prefix lf_lf (c ∷ s) ≡ none
      → strip_prefix crlf_crlf (c ∷ s) ≡ none
      → cut s ≡ some (b, rest)
      → block ≡ c ∷ b
      → Cut c s block rest

cut-cases : (c : ℕ) (s block rest : Text) → cut (c ∷ s) ≡ some (block, rest) → Cut c s block rest
cut-cases c s block rest h = elim (Option-cases (strip_prefix lf_lf (c ∷ s))) [
  | inr (r, e) ↦
      let p : rest ≡ r = cc (cut-lf c s r e) in at_lf (e ∙ ap some (sym p)) (cc (cut-lf c s r e))
  | inl no_lf ↦ elim (Option-cases (strip_prefix crlf_crlf (c ∷ s))) [
    | inr (r, e) ↦
        let p : rest ≡ r = cc (cut-crlf c s r no_lf e) in
        at_crlf no_lf (e ∙ ap some (sym p)) (cc (cut-crlf c s r no_lf e))
    | inl no_crlf ↦
        let (b, e, p) = in_front-some c (cut s) block rest (sym (cut-skip c s no_lf no_crlf) ∙ h) in
        later b no_lf no_crlf e p
  ]
]

-- A block that the text already holds is the same whatever is read after it: one step, on a text that
-- is as long as a separator.
cut_step-append :
    (a b c d : ℕ) (s more block rest : Text)
    → ((block' : Text)
        → cut (b ∷ c ∷ d ∷ s) ≡ some (block', rest)
        → cut (b ∷ c ∷ d ∷ (s ++ more)) ≡ some (block', rest ++ more))
    → Cut a (b ∷ c ∷ d ∷ s) block rest
    → cut (a ∷ b ∷ c ∷ d ∷ (s ++ more)) ≡ some (block, rest ++ more)
cut_step-append a b c d s more block rest ih (at_lf e p) =
    cut-lf a (b ∷ c ∷ d ∷ (s ++ more)) (rest ++ more)
      (strip_lf-append a b (c ∷ d ∷ s) more ∙ ap (map_some (λ r. r ++ more)) e)
    ∙ cc
cut_step-append a b c d s more block rest ih (at_crlf e f p) =
    cut-crlf a (b ∷ c ∷ d ∷ (s ++ more)) (rest ++ more)
      (strip_lf-append a b (c ∷ d ∷ s) more ∙ ap (map_some (λ r. r ++ more)) e)
      (strip_crlf-append a b c d s more ∙ ap (map_some (λ r. r ++ more)) f)
    ∙ cc
cut_step-append a b c d s more block rest ih (later t e f g p) =
    cut-skip a (b ∷ c ∷ d ∷ (s ++ more))
      (strip_lf-append a b (c ∷ d ∷ s) more ∙ ap (map_some (λ r. r ++ more)) e)
      (strip_crlf-append a b c d s more ∙ ap (map_some (λ r. r ++ more)) f)
    ∙ ap (in_front a) (ih t g)
    ∙ cc

-- A block that the text already holds is the same whatever is read after it.
pub cut-append :
    (s more block rest : Text)
    → cut s ≡ some (block, rest)
    → cut (s ++ more) ≡ some (block, rest ++ more)
unfolding cut strip_prefix
cut-append [] more block rest h = cc
cut-append (a ∷ []) more block rest h = ground arith
cut-append (a ∷ b ∷ []) more block rest h = ground arith
cut-append (a ∷ b ∷ c ∷ []) more block rest h = ground arith
cut-append (a ∷ b ∷ c ∷ d ∷ s) more block rest h =
    cut_step-append a b c d s more block rest
      (λ block' e. cut-append (b ∷ c ∷ d ∷ s) more block' rest e)
      (cut-cases a (b ∷ c ∷ d ∷ s) block rest h)

-- Each block and its separator make the text shorter.
pub length-cut : (s block rest : Text) → cut s ≡ some (block, rest) → length rest + 2 ≤ length s
unfolding cut
length-cut [] block rest h = cc
length-cut (c ∷ s) block rest h = elim (cut-cases c s block rest h) [
  | at_lf e p ↦ omega (arith, ap length (strip_prefix-some lf_lf (c ∷ s) rest e))
  | at_crlf e f p ↦ omega (arith, ap length (strip_prefix-some crlf_crlf (c ∷ s) rest f))
  | later t e f g p ↦ omega (arith, length-cut s t rest g)
]
