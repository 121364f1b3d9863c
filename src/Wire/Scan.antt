-- ===== src/Wire/Scan.antt =====
-- The bracket scan in json_val of crates/coral-client/src/wire.rs, on JSON documents.
use native.Mathlib.Numerals.{add-one}
use txodds_agent_desk.Prelude.{
  ℕ, suc, ◌-◌, ◌≡◌, refl, sym, ap, ◌∙◌, Bool, true, false, not, ◌&&◌, ◌||◌, Option, some, [], ◌∷◌,
  ◌++◌, append_assoc, arith, all, if◌then◌else◌, ◌==◌,
}
use txodds_agent_desk.Text.{Text}
use txodds_agent_desk.Wire.{
  Mode, outside, inside, escaped, in_string, is_open, is_close, cons_some, scan,
}

-- JSON documents by their text: a scalar (a number, `true`, `false` or `null`), a string by the body
-- between its quotes, an array and an object. `blank` puts blanks before and after a document; a
-- member has blanks before and after its key, and the end of an array or object may have some.
mutual
  pub data Doc : Type 0 where
    scalar : Text → Doc
    str : Text → Doc
    arr : Docs → Doc
    obj : Members → Doc
    blank : Text → Doc → Text → Doc

  pub data Docs : Type 0 where
    no_docs : Text → Docs
    doc : Doc → Docs → Docs

  pub data Members : Type 0 where
    no_members : Text → Members
    member : Text → Text → Text → Doc → Members → Members

abbrev quote_text : Text → Text
quote_text body = b'"' ∷ (body ++ b'"' ∷ [])

-- A key with its colon.
abbrev render_key : Text → Text → Text → Text
render_key before k after = before ++ (quote_text k ++ (after ++ b':' ∷ []))

unfoldable mutual
  pub render : Doc → Text
  render (scalar t) = t
  render (str body) = quote_text body
  render (arr ds) = b'[' ∷ (render_docs ds ++ b']' ∷ [])
  render (obj ms) = b'{' ∷ (render_members ms ++ b'}' ∷ [])
  render (blank before d after) = before ++ (render d ++ after)

  pub render_docs : Docs → Text
  render_docs (no_docs w) = w
  render_docs (doc d ds) = render d ++ render_more ds

  pub render_more : Docs → Text
  render_more (no_docs w) = w
  render_more (doc d ds) = b',' ∷ (render d ++ render_more ds)

  pub render_members : Members → Text
  render_members (no_members w) = w
  render_members (member before k after d ms) =
      render_key before k after ++ (render d ++ render_other ms)

  pub render_other : Members → Text
  render_other (no_members w) = w
  render_other (member before k after d ms) =
      b',' ∷ (render_key before k after ++ (render d ++ render_other ms))

-- A character that the scan passes over outside strings.
abbrev is_plain : ℕ → Bool
is_plain c = not (c == b'"' || (is_open c || is_close c))

-- What JSON has between its tokens.
abbrev is_blank : ℕ → Bool
is_blank c = c == b' ' || (c == 9 || (c == 10 || c == 13))

-- A string body: no quote but after a backslash, and no backslash at the end.
abbrev is_body : Mode → Text → Bool
is_body outside _ = false
is_body inside [] = true
is_body escaped [] = false
is_body escaped (c ∷ s) = is_body inside s
is_body inside (c ∷ s) = not (c == b'"') && is_body (in_string c) s

-- A document as JSON has it: scalars of plain characters, bodies closed by their own quote only, and
-- blanks between the tokens.
abbrev pub IsKey : Text → Text → Text → Type 0
IsKey before k after =
    (all is_blank before ≡ true) × (is_body inside k ≡ true) × (all is_blank after ≡ true)

abbrev mutual
  pub IsJson : Doc → Type 0
  IsJson (scalar t) = all is_plain t ≡ true
  IsJson (str body) = is_body inside body ≡ true
  IsJson (arr ds) = AreJson ds
  IsJson (obj ms) = HaveJson ms
  IsJson (blank before d after) =
      (all is_blank before ≡ true) × (all is_blank after ≡ true) × IsJson d

  pub AreJson : Docs → Type 0
  AreJson (no_docs w) = all is_blank w ≡ true
  AreJson (doc d ds) = IsJson d × AreJson ds

  pub HaveJson : Members → Type 0
  HaveJson (no_members w) = all is_blank w ≡ true
  HaveJson (member before k after d ms) = IsKey before k after × IsJson d × HaveJson ms

-- The characters of `t` in front of what was found after them.
abbrev prefix_some : Text → Option Text → Option Text
prefix_some [] o = o
prefix_some (c ∷ t) o = cons_some c (prefix_some t o)

prefix_some-append :
    (t u : Text) (o : Option Text) → prefix_some (t ++ u) o ≡ prefix_some t (prefix_some u o)
prefix_some-append [] u o = refl
prefix_some-append (c ∷ t) u o = ap (cons_some c) (prefix_some-append t u o)

prefix_some-some : (t u : Text) → prefix_some t (some u) ≡ some (t ++ u)
prefix_some-some [] u = refl
prefix_some-some (c ∷ t) u = ground (arith, prefix_some-some t u)

-- `t` is passed over at depth `suc k`, whatever stands behind it.
abbrev Passes : ℕ → Text → Type 0
Passes k t = (s : Text) → scan (suc k) outside (t ++ s) ≡ prefix_some t (scan (suc k) outside s)

Passes-append : (k : ℕ) (t u : Text) → Passes k t → Passes k u → Passes k (t ++ u)
Passes-append k t u p q s =
    ap (scan (suc k) outside) (append_assoc t u s)
    ∙ p (u ++ s)
    ∙ ap (prefix_some t) (q s)
    ∙ sym (prefix_some-append t u (scan (suc k) outside s))

Passes-plain : (k : ℕ) (t : Text) → all is_plain t ≡ true → Passes k t
unfolding scan
Passes-plain k [] h s = refl
Passes-plain k (c ∷ t) h s = ground (arith, Passes-plain k t (ground arith) s)

scan-body :
    (k : ℕ) (m : Mode) (body s : Text)
    → is_body m body ≡ true
    → scan (suc k) m (body ++ b'"' ∷ s) ≡ prefix_some body (cons_some b'"' (scan (suc k) outside s))
unfolding scan
scan-body k outside body s h = cc
scan-body k inside [] s h = refl
scan-body k escaped [] s h = cc
scan-body k escaped (c ∷ body) s h = ap (cons_some c) (scan-body k inside body s h)
scan-body k inside (c ∷ body) s h = ground (arith, scan-body k (in_string c) body s (ground arith))

Passes-quote : (k : ℕ) (body : Text) → is_body inside body ≡ true → Passes k (quote_text body)
unfolding scan
Passes-quote k body h s = ap (cons_some b'"') (
    ap (scan (suc k) inside) (append_assoc body (b'"' ∷ []) s)
    ∙ scan-body k inside body s h
    ∙ sym (prefix_some-append body (b'"' ∷ []) (scan (suc k) outside s)))

scan-open :
    (k o : ℕ) (s : Text)
    → is_open o ≡ true
    → scan k outside (o ∷ s) ≡ cons_some o (scan (suc k) outside s)
unfolding scan
scan-open k o s h = rw add-one (ground arith)

scan-close :
    (k c : ℕ) (s : Text)
    → is_close c ≡ true
    → scan (suc k) outside (c ∷ s)
      ≡ (if k == 0 then some (c ∷ []) else cons_some c (scan k outside s))
unfolding scan
scan-close k c s h = let e : suc k - 1 ≡ k = omega arith in rw e (ground arith)

-- One bracket pair round a text that passes one level deeper.
scan-bracket :
    (k o c : ℕ) (t s : Text)
    → is_open o ≡ true
    → is_close c ≡ true
    → Passes k t
    → scan k outside (o ∷ (t ++ c ∷ s))
      ≡ prefix_some (o ∷ t) (if k == 0 then some (c ∷ []) else cons_some c (scan k outside s))
scan-bracket k o c t s ho hc p =
    scan-open k o (t ++ c ∷ s) ho
    ∙ ap (cons_some o) (p (c ∷ s) ∙ ap (prefix_some t) (scan-close k c s hc))

Passes-bracket :
    (k o c : ℕ) (t : Text)
    → is_open o ≡ true
    → is_close c ≡ true
    → Passes (suc k) t
    → Passes k (o ∷ (t ++ c ∷ []))
Passes-bracket k o c t ho hc p s =
    ap (λ u. scan (suc k) outside (o ∷ u)) (append_assoc t (c ∷ []) s)
    ∙ scan-bracket (suc k) o c t s ho hc p
    ∙ ap (cons_some o) (
        ap (prefix_some t) (ground arith)
        ∙ sym (prefix_some-append t (c ∷ []) (scan (suc k) outside s)))

Passes-one : (k c : ℕ) (t : Text) → is_plain c ≡ true → Passes k t → Passes k (c ∷ t)
Passes-one k c t h p = Passes-append k (c ∷ []) t (Passes-plain k (c ∷ []) (ground arith)) p

is_blank-is_plain : (t : Text) → all is_blank t ≡ true → all is_plain t ≡ true
is_blank-is_plain [] h = refl
is_blank-is_plain (c ∷ t) h = ground (arith, is_blank-is_plain t (ground arith))

Passes-blank : (k : ℕ) (t : Text) → all is_blank t ≡ true → Passes k t
Passes-blank k t h = Passes-plain k t (is_blank-is_plain t h)

Passes-key :
    (k : ℕ) (before n after : Text) → IsKey before n after → Passes k (render_key before n after)
Passes-key k before n after (b, q, a) =
    Passes-append k before (quote_text n ++ (after ++ b':' ∷ [])) (Passes-blank k before b) (
      Passes-append k (quote_text n) (after ++ b':' ∷ []) (Passes-quote k n q) (
        Passes-append k after (b':' ∷ []) (Passes-blank k after a)
          (Passes-plain k (b':' ∷ []) refl)))

mutual
  unfolding render render_docs render_more render_members render_other

  Passes-render : (d : Doc) (k : ℕ) → IsJson d → Passes k (render d)
  Passes-render (scalar t) k h = Passes-plain k t h
  Passes-render (str body) k h = Passes-quote k body h
  Passes-render (arr ds) k h =
      Passes-bracket k b'[' b']' (render_docs ds) refl refl (Passes-render_docs ds (suc k) h)
  Passes-render (obj ms) k h =
      Passes-bracket k b'{' b'}' (render_members ms) refl refl (Passes-render_members ms (suc k) h)
  Passes-render (blank before d after) k (b, a, h) =
      Passes-append k before (render d ++ after) (Passes-blank k before b)
        (Passes-append k (render d) after (Passes-render d k h) (Passes-blank k after a))

  Passes-render_docs : (ds : Docs) (k : ℕ) → AreJson ds → Passes k (render_docs ds)
  Passes-render_docs (no_docs w) k h = Passes-blank k w h
  Passes-render_docs (doc d ds) k h =
      Passes-append k (render d) (render_more ds) (Passes-render d k h.0)
        (Passes-render_more ds k h.1)

  Passes-render_more : (ds : Docs) (k : ℕ) → AreJson ds → Passes k (render_more ds)
  Passes-render_more (no_docs w) k h = Passes-blank k w h
  Passes-render_more (doc d ds) k h = Passes-one k b',' (render d ++ render_more ds) refl (
      Passes-append k (render d) (render_more ds) (Passes-render d k h.0)
        (Passes-render_more ds k h.1))

  Passes-render_members : (ms : Members) (k : ℕ) → HaveJson ms → Passes k (render_members ms)
  Passes-render_members (no_members w) k h = Passes-blank k w h
  Passes-render_members (member before n after d ms) k (key, h, hs) =
      Passes-append k (render_key before n after) (render d ++ render_other ms)
        (Passes-key k before n after key)
        (Passes-append k (render d) (render_other ms) (Passes-render d k h)
          (Passes-render_other ms k hs))

  Passes-render_other : (ms : Members) (k : ℕ) → HaveJson ms → Passes k (render_other ms)
  Passes-render_other (no_members w) k h = Passes-blank k w h
  Passes-render_other (member before n after d ms) k (key, h, hs) =
      Passes-one k b',' (render_key before n after ++ (render d ++ render_other ms)) refl (
        Passes-append k (render_key before n after) (render d ++ render_other ms)
          (Passes-key k before n after key)
          (Passes-append k (render d) (render_other ms) (Passes-render d k h)
            (Passes-render_other ms k hs)))

-- Arrays and objects, the values that the wire carries.
abbrev pub IsContainer : Doc → Type 0
IsContainer (arr _) = Unit
IsContainer (obj _) = Unit
IsContainer _ = ⊥

-- From its bracket on, the scan returns the text of a JSON array or object and nothing more, whatever
-- follows, and whatever brackets and quotes its strings hold.
pub scan-render :
    (d : Doc) (rest : Text)
    → IsContainer d
    → IsJson d
    → scan 0 outside (render d ++ rest) ≡ some (render d)
unfolding render
scan-render (scalar t) rest c h = absurd c
scan-render (str b) rest c h = absurd c
scan-render (blank before d after) rest c h = absurd c
scan-render (arr ds) rest c h =
    ap (λ u. scan 0 outside (b'[' ∷ u)) (append_assoc (render_docs ds) (b']' ∷ []) rest)
    ∙ scan-bracket 0 b'[' b']' (render_docs ds) rest refl refl (Passes-render_docs ds 0 h)
    ∙ prefix_some-some (b'[' ∷ render_docs ds) (b']' ∷ [])
scan-render (obj ms) rest c h =
    ap (λ u. scan 0 outside (b'{' ∷ u)) (append_assoc (render_members ms) (b'}' ∷ []) rest)
    ∙ scan-bracket 0 b'{' b'}' (render_members ms) rest refl refl (Passes-render_members ms 0 h)
    ∙ prefix_some-some (b'{' ∷ render_members ms) (b'}' ∷ [])
