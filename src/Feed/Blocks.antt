-- ===== src/Feed/Blocks.antt =====
-- The blocks of the stream in native/src/services/txline/ingest.rs: where the first separator lies.
use txodds_agent_desk.Prelude.{
  ℕ, ◌+◌, ◌≤◌, ◌≡◌, refl, sym, ap, ◌∙◌, Option, none, some, [], ◌∷◌, ◌++◌, arith, Option-cases, inl,
  inr, or_else, append_assoc,
}
use txodds_agent_desk.Text.{
  Text, byte_len, slice_to, slice_from, utf8_width, utf8_width_pos, byte_len-append,
}
use txodds_agent_desk.Strings.{map_some, find}
use txodds_agent_desk.Strings.Search.{slice_to-append, slice_from-append}
use txodds_agent_desk.Wire.{strip_prefix}
use txodds_agent_desk.Wire.Extract.{strip_prefix-some}
use txodds_agent_desk.Feed.{lf_lf, crlf_crlf, earlier, find_sse_separator, take_block}

-- What follows a separator at the start of a text.
abbrev pub after_separator : Text → Option Text
after_separator s = or_else (strip_prefix lf_lf s) (strip_prefix crlf_crlf s)

abbrev pub in_front : ℕ → Option (Text × Text) → Option (Text × Text)
in_front c none = none
in_front c (some (block, rest)) = some (c ∷ block, rest)

-- The first block of a text and what follows it, read from the left.
unfoldable pub cut : Text → Option (Text × Text)
cut [] = none
cut (c ∷ s) =
    let later = in_front c (cut s) in
    elim (after_separator (c ∷ s)) [ none ↦ later | some rest ↦ some ([], rest) ]

-- Where the code's search finds the end of that block.
abbrev IsFound : Text → Option (Text × Text) → Type 0
IsFound s none = (find lf_lf s ≡ none) × (find crlf_crlf s ≡ none)
IsFound s (some (block, rest)) =
    (sep : Text) × (s ≡ block ++ (sep ++ rest))
    × (find_sse_separator s ≡ some (byte_len block, byte_len sep))

-- Each search passes over a character by its width.
earlier-shift :
    (w : ℕ) (a b : Option ℕ)
    → earlier (map_some (λ n. w + n) a) (map_some (λ n. w + n) b)
      ≡ map_some (λ p. (w + p.0, p.1)) (earlier a b)
earlier-shift w none none = refl
earlier-shift w none (some b) = refl
earlier-shift w (some a) none = refl
earlier-shift w (some a) (some b) = ground arith

earlier-lf :
    (w : ℕ) (b : Option ℕ) → 1 ≤ w → earlier (some 0) (map_some (λ n. w + n) b) ≡ some (0, 2)
earlier-lf w none h = refl
earlier-lf w (some b) h = ground arith

earlier-crlf :
    (w : ℕ) (a : Option ℕ) → 1 ≤ w → earlier (map_some (λ n. w + n) a) (some 0) ≡ some (0, 4)
earlier-crlf w none h = refl
earlier-crlf w (some a) h = ground arith

-- Only one of the two separators starts a text.
one_separator : (s r : Text) → strip_prefix lf_lf s ≡ some r → strip_prefix crlf_crlf s ≡ none
unfolding strip_prefix
one_separator [] r h = refl
one_separator (c ∷ s) r h = ground arith

find-skip :
    (needle : Text) (c : ℕ) (s : Text)
    → strip_prefix needle (c ∷ s) ≡ none
    → find needle (c ∷ s) ≡ map_some (λ n. utf8_width c + n) (find needle s)
unfolding find
find-skip needle c s h = ground arith

find-here :
    (needle : Text) (c : ℕ) (s r : Text)
    → strip_prefix needle (c ∷ s) ≡ some r
    → find needle (c ∷ s) ≡ some 0
unfolding find
find-here needle c s r h = ground arith

pub cut-skip :
    (c : ℕ) (s : Text)
    → strip_prefix lf_lf (c ∷ s) ≡ none
    → strip_prefix crlf_crlf (c ∷ s) ≡ none
    → cut (c ∷ s) ≡ in_front c (cut s)
unfolding cut
cut-skip c s h k = ground arith

pub cut-lf : (c : ℕ) (s r : Text) → strip_prefix lf_lf (c ∷ s) ≡ some r → cut (c ∷ s) ≡ some ([], r)
unfolding cut
cut-lf c s r h = ground arith

pub cut-crlf :
    (c : ℕ) (s r : Text)
    → strip_prefix lf_lf (c ∷ s) ≡ none
    → strip_prefix crlf_crlf (c ∷ s) ≡ some r
    → cut (c ∷ s) ≡ some ([], r)
unfolding cut
cut-crlf c s r h k = ground arith

find_skip :
    (c : ℕ) (s : Text)
    → strip_prefix lf_lf (c ∷ s) ≡ none
    → strip_prefix crlf_crlf (c ∷ s) ≡ none
    → find_sse_separator (c ∷ s) ≡ map_some (λ p. (utf8_width c + p.0, p.1)) (find_sse_separator s)
unfolding find_sse_separator
find_skip c s h k =
    rw (find-skip lf_lf c s h, find-skip crlf_crlf c s k)
      (earlier-shift (utf8_width c) (find lf_lf s) (find crlf_crlf s))

find_lf :
    (c : ℕ) (s r : Text)
    → strip_prefix lf_lf (c ∷ s) ≡ some r
    → find_sse_separator (c ∷ s) ≡ some (0, 2)
unfolding find_sse_separator
find_lf c s r h =
    rw (find-here lf_lf c s r h, find-skip crlf_crlf c s (one_separator (c ∷ s) r h))
      (earlier-lf (utf8_width c) (find crlf_crlf s) (utf8_width_pos c))

find_crlf :
    (c : ℕ) (s r : Text)
    → strip_prefix lf_lf (c ∷ s) ≡ none
    → strip_prefix crlf_crlf (c ∷ s) ≡ some r
    → find_sse_separator (c ∷ s) ≡ some (0, 4)
unfolding find_sse_separator
find_crlf c s r h k =
    rw (find-skip lf_lf c s h, find-here crlf_crlf c s r k)
      (earlier-crlf (utf8_width c) (find lf_lf s) (utf8_width_pos c))

IsFound-skip :
    (c : ℕ) (s : Text) (o : Option (Text × Text))
    → IsFound s o
    → strip_prefix lf_lf (c ∷ s) ≡ none
    → strip_prefix crlf_crlf (c ∷ s) ≡ none
    → IsFound (c ∷ s) (in_front c o)
unfolding byte_len
IsFound-skip c s none (h, k) no_lf no_crlf = (
  find-skip lf_lf c s no_lf ∙ ap (map_some (λ n. utf8_width c + n)) h,
  find-skip crlf_crlf c s no_crlf ∙ ap (map_some (λ n. utf8_width c + n)) k,
)
IsFound-skip c s (some (block, rest)) (sep, e, found) no_lf no_crlf = (
  sep,
  ap (λ t. c ∷ t) e,
  find_skip c s no_lf no_crlf ∙ ap (map_some λ p. (utf8_width c + p.0, p.1)) found,
)

find-IsFound : (s : Text) → IsFound s (cut s)
unfolding find cut strip_prefix byte_len
find-IsFound [] = (refl, refl)
find-IsFound (c ∷ s) = elim (Option-cases (strip_prefix lf_lf (c ∷ s))) [
  | inr (r, e) ↦ rw (cut-lf c s r e) (lf_lf, strip_prefix-some lf_lf (c ∷ s) r e, find_lf c s r e)
  | inl no_lf ↦ elim (Option-cases (strip_prefix crlf_crlf (c ∷ s))) [
    | inr (r, e) ↦
        rw (cut-crlf c s r no_lf e)
          (crlf_crlf, strip_prefix-some crlf_crlf (c ∷ s) r e, find_crlf c s r no_lf e)
    | inl no_crlf ↦
        rw (cut-skip c s no_lf no_crlf) (IsFound-skip c s (cut s) (find-IsFound s) no_lf no_crlf)
  ]
]

take_block-none :
    (s : Text) → find lf_lf s ≡ none → find crlf_crlf s ≡ none → take_block s ≡ some none
unfolding take_block find_sse_separator
take_block-none s h k = ground arith

take_block-some :
    (s block rest sep : Text)
    → s ≡ block ++ (sep ++ rest)
    → find_sse_separator s ≡ some (byte_len block, byte_len sep)
    → take_block s ≡ some (some (block, rest))
unfolding take_block
take_block-some s block rest sep e found = ground (arith, to_block, from_rest)
  where
    to_block : slice_to s (byte_len block) ≡ some block
    to_block = ap (λ t. slice_to t (byte_len block)) e ∙ slice_to-append block (sep ++ rest)

    from_rest : slice_from s (byte_len block + byte_len sep) ≡ some rest
    from_rest =
        ap (λ t. slice_from t (byte_len block + byte_len sep))
          (e ∙ sym (append_assoc block sep rest))
        ∙ ap (slice_from ((block ++ sep) ++ rest)) (sym (byte_len-append block sep))
        ∙ slice_from-append (block ++ sep) rest

take_block-IsFound : (s : Text) (o : Option (Text × Text)) → IsFound s o → take_block s ≡ some o
take_block-IsFound s none (h, k) = take_block-none s h k
take_block-IsFound s (some (block, rest)) (sep, e, found) = take_block-some s block rest sep e found

-- The code takes exactly that block, without a panic.
pub take_block_lem : (s : Text) → take_block s ≡ some (cut s)
take_block_lem s = take_block-IsFound s (cut s) (find-IsFound s)

no_find : (a b : Option ℕ) → earlier a b ≡ none → (a ≡ none) × (b ≡ none)
no_find none none h = (refl, refl)
no_find none (some b) h = absurd cc
no_find (some a) none h = absurd cc
no_find (some a) (some b) h = absurd (ground arith)

found_none :
    (s : Text) (o : Option (Text × Text)) → IsFound s o → find_sse_separator s ≡ none → o ≡ none
found_none s none f h = refl
found_none s (some (block, rest)) (sep, e, found) h = absurd cc

found_end :
    (s : Text) (o : Option (Text × Text)) → IsFound s o → o ≡ none → find_sse_separator s ≡ none
unfolding find_sse_separator
found_end s none (h, k) e = rw (h, k)
found_end s (some p) f e = absurd cc

-- No block is left exactly if the code finds no separator.
pub cut-none : (s : Text) → find_sse_separator s ≡ none → cut s ≡ none
cut-none s = found_none s (cut s) (find-IsFound s)

pub find_sse_separator-none : (s : Text) → cut s ≡ none → find_sse_separator s ≡ none
find_sse_separator-none s = found_end s (cut s) (find-IsFound s)
