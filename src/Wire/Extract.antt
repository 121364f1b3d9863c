-- ===== src/Wire/Extract.antt =====
-- json_val of crates/coral-client/src/wire.rs: the search for the key, and the value found.
use txodds_agent_desk.Prelude.{
  ℕ, zero, suc, ◌+◌, ◌-◌, ◌≡◌, refl, sym, ap, ◌∙◌, true, ◌&&◌, Option, none, some, [], ◌∷◌, ◌++◌,
  arith, length, ◌==◌, ◌>>=◌, Option-cases, Bool-cases, inl, inr,
}
use txodds_agent_desk.Text.{Text}
use txodds_agent_desk.Wire.{
  strip_prefix, outside, starts_open, at_word_start, scan, find_value, json_val, Mode, inside,
  escaped, in_string, cons_some, is_open, is_close,
}
use txodds_agent_desk.Wire.Scan.{
  Doc, scalar, str, arr, obj, blank, render, IsJson, IsContainer, scan-render,
}

pub strip_prefix-append : (p s : Text) → strip_prefix p (p ++ s) ≡ some s
unfolding strip_prefix
strip_prefix-append [] s = refl
strip_prefix-append (c ∷ p) s = ground (arith, strip_prefix-append p s)

pub strip_prefix-some : (p s t : Text) → strip_prefix p s ≡ some t → s ≡ p ++ t
unfolding strip_prefix
strip_prefix-some [] s t h = ground arith
strip_prefix-some (a ∷ p) [] t h = cc
strip_prefix-some (a ∷ p) (c ∷ s) t h = ground (arith, strip_prefix-some p s t)

-- No occurrence of the needle begins in the first text when the second follows it.
abbrev pub IsClear : Text → Text → Text → Type 0
IsClear needle [] tail = Unit
IsClear needle (c ∷ s) tail = (strip_prefix needle (c ∷ (s ++ tail)) ≡ none) × IsClear needle s tail

-- The character before the end of the text, if any, is a space.
abbrev pub EndsWord : Option ℕ → Text → Type 0
EndsWord prev [] = at_word_start prev ≡ true
EndsWord prev (c ∷ s) = EndsWord (some c) s

module _ (a : ℕ) (n : Text) (value : Text) where
  find_value-IsClear :
      (front : Text) (prev : Option ℕ)
      → IsClear (a ∷ n) front ((a ∷ n) ++ value)
      → EndsWord prev front
      → starts_open value ≡ true
      → find_value (a ∷ n) 0 prev (front ++ ((a ∷ n) ++ value)) ≡ some value
  unfolding find_value
  find_value-IsClear [] prev clear ends opens = ground (arith, strip_prefix-append (a ∷ n) value)
  find_value-IsClear (c ∷ front) prev (off, clear) ends opens =
      ground (arith, find_value-IsClear front (some c) clear ends opens)

needle_of : Text → Text
needle_of key = key ++ b'=' ∷ []

found :
    (key front value : Text)
    → IsClear (needle_of key) front (needle_of key ++ value)
    → EndsWord none front
    → starts_open value ≡ true
    → find_value (needle_of key) 0 none (front ++ (needle_of key ++ value)) ≡ some value
unfolding needle_of
found [] front value clear ends opens = find_value-IsClear b'=' [] value front none clear ends opens
found (k ∷ key) front value clear ends opens =
    find_value-IsClear k (key ++ b'=' ∷ []) value front none clear ends opens

starts_open-render : (d : Doc) (rest : Text) → IsContainer d → starts_open (render d ++ rest) ≡ true
unfolding render
starts_open-render (arr ds) rest c = refl
starts_open-render (obj ms) rest c = refl
starts_open-render (scalar t) rest c = absurd c
starts_open-render (str b) rest c = absurd c
starts_open-render (blank before d after) rest c = absurd c

-- Whatever JSON array or object stands after `key=` at the start of a word, `json_val` returns exactly
-- its text, whatever follows it, whatever its strings hold and whatever blanks stand between its
-- tokens, if `key=` does not begin anywhere before.
pub json_val-render :
    (key front : Text) (d : Doc) (rest : Text)
    → IsContainer d
    → IsJson d
    → EndsWord none front
    → IsClear (key ++ b'=' ∷ []) front ((key ++ b'=' ∷ []) ++ (render d ++ rest))
    → json_val (front ++ ((key ++ b'=' ∷ []) ++ (render d ++ rest))) key ≡ some (render d)
unfolding json_val needle_of
json_val-render key front d rest c j ends clear =
    ap (λ o. o >>= scan 0 outside)
      (found key front (render d ++ rest) clear ends (starts_open-render d rest c))
    ∙ scan-render d rest c j

cons_some-eq :
    (c : ℕ) (o : Option Text) (v : Text)
    → cons_some c o ≡ some v
    → (t : Text) × (o ≡ some t) × (v ≡ c ∷ t)
cons_some-eq c none v h = absurd cc
cons_some-eq c (some t) v h = (t, refl, ground arith)

abbrev Extends : Text → Text → Type 0
Extends s v = (rest : Text) × (s ≡ v ++ rest)

extend :
    (c : ℕ) (s : Text) (o : Option Text) (v : Text)
    → ((t : Text) → o ≡ some t → Extends s t)
    → cons_some c o ≡ some v
    → Extends (c ∷ s) v
extend c s o v ih h =
    let (t, e, f) = cons_some-eq c o v h in
    let (rest, p) = ih t e in (rest, ap (λ u. c ∷ u) p ∙ ap (λ u. u ++ rest) (sym f))

scan-Extends : (k : ℕ) (m : Mode) (s v : Text) → scan k m s ≡ some v → Extends s v
unfolding scan
scan-Extends k outside [] v h = absurd cc
scan-Extends k inside [] v h = absurd cc
scan-Extends k escaped [] v h = absurd cc
scan-Extends k escaped (c ∷ s) v h = extend c s (scan k inside s) v (scan-Extends k inside s) h
scan-Extends k inside (c ∷ s) v h =
    extend c s (scan k (in_string c) s) v (scan-Extends k (in_string c) s) h
scan-Extends k outside (c ∷ s) v h = elim (Bool-cases (c == b'"')) [
  | inl q ↦ extend c s _ v (scan-Extends k inside s) (ground arith)
  | inr q ↦ elim (Bool-cases (is_open c)) [
    | inl o ↦ extend c s _ v (scan-Extends (k + 1) outside s) (ground arith)
    | inr o ↦ elim (Bool-cases (is_close c)) [
      | inl cl ↦ elim (Bool-cases (k - 1 == 0)) [
        | inl z ↦ (s, ground arith)
        | inr z ↦ extend c s _ v (scan-Extends (k - 1) outside s) (ground arith)
      ]
      | inr cl ↦ extend c s _ v (scan-Extends k outside s) (ground arith)
    ]
  ]
]

-- A value text that was found stands after an occurrence of the needle and begins with a bracket.
abbrev StandsIn : Text → Text → Text → Type 0
StandsIn needle s value =
    (front : Text) × (s ≡ front ++ (needle ++ value)) × (starts_open value ≡ true)

find_value-StandsIn :
    (needle s : Text) (skip : ℕ) (prev : Option ℕ) (value : Text)
    → find_value needle skip prev s ≡ some value
    → StandsIn needle s value
unfolding find_value
find_value-StandsIn needle [] skip prev value h = absurd (ground arith)
find_value-StandsIn needle (c ∷ s) (suc k) prev value h =
    let (front, e, o) = find_value-StandsIn needle s k (some c) value h in
    (c ∷ front, ap (λ u. c ∷ u) e, o)
find_value-StandsIn needle (c ∷ s) zero prev value h =
    elim (Option-cases (strip_prefix needle (c ∷ s))) [
      | inl e ↦
          let (front, p, o) = find_value-StandsIn needle s 0 (some c) value (ground arith) in
          (c ∷ front, ap (λ u. c ∷ u) p, o)
      | inr (value', e) ↦ elim (Bool-cases (at_word_start prev && starts_open value')) [
        | inl t ↦ ([], ground (arith, strip_prefix-some needle (c ∷ s) value' e), ground arith)
        | inr f ↦
            let (front, p, o) =
              find_value-StandsIn needle s (length needle - 1) (some c) value (ground arith) in
            (c ∷ front, ap (λ u. c ∷ u) p, o)
      ]
    ]

-- What stands between some text and the rest is the key, an equals sign and the value.
abbrev pub IsField : Text → Text → Text → Type 0
IsField text key v =
    (front : Text) × (rest : Text) × (text ≡ front ++ ((key ++ b'=' ∷ []) ++ (v ++ rest)))

bind-some :
    (o : Option Text) (f : Text → Option Text) (v : Text)
    → o >>= f ≡ some v
    → (a : Text) × (o ≡ some a) × (f a ≡ some v)
bind-some none f v h = absurd cc
bind-some (some a) f v h = (a, refl, h)

-- Whatever `json_val` returns is a slice of the text it was given, and stands there directly behind
-- the key and its equals sign: nothing is invented, shifted or joined from two places.
pub json_val-IsField : (text key v : Text) → json_val text key ≡ some v → IsField text key v
unfolding json_val
json_val-IsField text key v h =
    let needle = key ++ b'=' ∷ [] in
    let (value, e, g) = bind-some (find_value needle 0 none text) (scan 0 outside) v h in
    let (front, p, o) = find_value-StandsIn needle text 0 none value e in
    let (rest, q) = scan-Extends 0 outside value v g in
    (front, rest, p ∙ ap (λ u. front ++ (needle ++ u)) q)
