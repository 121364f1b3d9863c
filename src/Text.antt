-- ===== src/Text.antt =====
-- Rust strings as lists of code points, with the UTF-8 width of each, so that a byte index has the
-- meaning that it has in the code: `&s[..n]` panics where `n` is not a character boundary.
use Prim.Native.Char.{code}
use Prim.Native.String.{String}
use txodds_agent_desk.Prelude.{
  ℕ, zero, suc, ◌+◌, ◌-◌, ◌≤◌, ◌<◌, ◌≡◌, refl, sym, ap, Bool-cases, Bool, true, false, ◌&&◌, ◌||◌,
  Option, none, some, List, [], ◌∷◌, ◌++◌, arith, ltb, leb, ◌==◌, if◌then◌else◌, is_some,
  Option-cases, inl, inr,
}

abbrev pub Text : Type 0
Text = List ℕ

abbrev pub codes : String → Text
codes String.[] = []
codes (String.◌∷◌ c s) = code c ∷ codes s

-- A literal of the source. It is shut, so that a proof does not compute with its characters.
unfoldable pub lit : String → Text
lit s = codes s

-- Bytes of a code point in UTF-8.
abbrev pub utf8_width : ℕ → ℕ
utf8_width c =
    if ltb c 0x80 then 1 else (if ltb c 0x800 then 2 else (if ltb c 0x10000 then 3 else 4))

-- `str::len`, in bytes.
unfoldable pub byte_len : Text → ℕ
byte_len [] = 0
byte_len (c ∷ s) = utf8_width c + byte_len s

-- `&s[..n]` and `&s[n..]`; `none` is the panic.
unfoldable pub slice_to : Text → ℕ → Option Text
slice_to s zero = some []
slice_to [] (suc n) = none
slice_to (c ∷ s) (suc n) =
    let rest = slice_to s (suc n - utf8_width c) in
    if ltb (suc n) (utf8_width c) then none else elim rest [ none ↦ none | some t ↦ some (c ∷ t) ]

unfoldable pub slice_from : Text → ℕ → Option Text
slice_from s zero = some s
slice_from [] (suc n) = none
slice_from (c ∷ s) (suc n) =
    let rest = slice_from s (suc n - utf8_width c) in
    if ltb (suc n) (utf8_width c) then none else rest

unfoldable pub text_eq : Text → Text → Bool
text_eq [] [] = true
text_eq [] (_ ∷ _) = false
text_eq (_ ∷ _) [] = false
text_eq (a ∷ s) (b ∷ t) = a == b && text_eq s t

unfoldable pub is_ascii_alphanumeric : ℕ → Bool
is_ascii_alphanumeric c =
    leb b'0' c && leb c b'9' || leb b'A' c && leb c b'Z' || leb b'a' c && leb c b'z'

abbrev pub IsAscii : Text → Type 0
IsAscii [] = Unit
IsAscii (c ∷ s) = (c < 0x80) × IsAscii s

pub utf8_width_pos : (c : ℕ) → 1 ≤ utf8_width c
utf8_width_pos c = ground arith

pub byte_len-append : (s t : Text) → byte_len (s ++ t) ≡ byte_len s + byte_len t
unfolding byte_len
byte_len-append [] t = omega arith
byte_len-append (c ∷ s) t = omega (arith, byte_len-append s t)

pub text_eq_refl : (s : Text) → text_eq s s ≡ true
unfolding text_eq
text_eq_refl [] = refl
text_eq_refl (c ∷ s) = ground (arith, text_eq_refl s)

pub text_eq→eq : (s t : Text) → text_eq s t ≡ true → s ≡ t
unfolding text_eq
text_eq→eq [] [] h = refl
text_eq→eq [] (_ ∷ _) h = cc
text_eq→eq (_ ∷ _) [] h = cc
text_eq→eq (a ∷ s) (b ∷ t) h = ground (arith, text_eq→eq s t)

pub text_eq_sym : (s t : Text) → text_eq s t ≡ false → text_eq t s ≡ false
text_eq_sym s t h = elim (Bool-cases (text_eq t s)) [
  | inl e ↦ absurd (cc (ap (λ x. text_eq x t) (sym (text_eq→eq t s e)), text_eq_refl t))
  | inr e ↦ e
]

-- A slice of a text whose characters are all one byte never panics within its length.
pub slice_to-IsAscii :
    (s : Text) (n : ℕ) → IsAscii s → n ≤ byte_len s → is_some (slice_to s n) ≡ true
unfolding slice_to byte_len
slice_to-IsAscii s zero a h = refl
slice_to-IsAscii [] (suc n) a h = elim h [ ]
slice_to-IsAscii (c ∷ s) (suc n) (a, rest) h =
    ground (arith, slice_to-IsAscii s (suc n - utf8_width c) rest)

-- A slice has the length asked for, and is a prefix.
pub byte_len-slice_to : (s : Text) (n : ℕ) (t : Text) → slice_to s n ≡ some t → byte_len t ≡ n
unfolding slice_to byte_len
byte_len-slice_to s zero t h = ground arith
byte_len-slice_to [] (suc n) t h = cc
byte_len-slice_to (c ∷ s) (suc n) t h = elim (Option-cases (slice_to s (suc n - utf8_width c))) [
  | inl e ↦ ground arith
  | inr (r, e) ↦ ground (arith, byte_len-slice_to s (suc n - utf8_width c) r e)
]

pub slice_to-prefix :
    (s : Text) (n : ℕ) (t : Text) → slice_to s n ≡ some t → (u : Text) × (s ≡ t ++ u)
unfolding slice_to
slice_to-prefix s zero t h = (s, ground arith)
slice_to-prefix [] (suc n) t h = absurd cc
slice_to-prefix (c ∷ s) (suc n) t h = elim (Option-cases (slice_to s (suc n - utf8_width c))) [
  | inl e ↦ absurd (ground arith)
  | inr (r, e) ↦ let (u, p) = slice_to-prefix s (suc n - utf8_width c) r e in (u, ground arith)
]

pub slice_from-IsAscii :
    (s : Text) (n : ℕ) → IsAscii s → n ≤ byte_len s → is_some (slice_from s n) ≡ true
unfolding slice_from byte_len
slice_from-IsAscii s zero a h = refl
slice_from-IsAscii [] (suc n) a h = elim h [ ]
slice_from-IsAscii (c ∷ s) (suc n) (a, rest) h =
    ground (arith, slice_from-IsAscii s (suc n - utf8_width c) rest)

pub byte_len-slice_from :
    (s : Text) (n : ℕ) (t : Text) → slice_from s n ≡ some t → byte_len t + n ≡ byte_len s
unfolding slice_from byte_len
byte_len-slice_from s zero t h = ground arith
byte_len-slice_from [] (suc n) t h = cc
byte_len-slice_from (c ∷ s) (suc n) t h =
    ground (arith, byte_len-slice_from s (suc n - utf8_width c) t)

-- The byte after one-byte characters and inside a longer one is no boundary.
pub slice_to-inside :
    (front : Text) (c : ℕ) (rest : Text)
    → IsAscii front
    → 0x80 ≤ c
    → slice_to (front ++ c ∷ rest) (suc (byte_len front)) ≡ none
unfolding slice_to byte_len
slice_to-inside [] c rest a wide = ground arith
slice_to-inside (x ∷ front) c rest (a, as_rest) wide =
    let ih = slice_to-inside front c rest as_rest wide in
    let w : utf8_width x ≡ 1 = ground arith in
    let e : suc (utf8_width x + byte_len front) - utf8_width x ≡ suc (byte_len front) =
      omega arith in
    rw (e, ih) (ground arith)

pub replicate : ℕ → ℕ → Text
replicate zero c = []
replicate (suc n) c = c ∷ replicate n c

pub replicate-IsAscii :
    (n c : ℕ) → c < 0x80 → IsAscii (replicate n c) × (byte_len (replicate n c) ≡ n)
unfolding replicate byte_len
replicate-IsAscii zero c h = (tt, refl)
replicate-IsAscii (suc n) c h = let ih = replicate-IsAscii n c h in ((h, ih.0), ground arith)

pub byte_len-wide : (c : ℕ) (rest : Text) → 0x80 ≤ c → 2 ≤ byte_len (c ∷ rest)
unfolding byte_len
byte_len-wide c rest wide = ground arith
