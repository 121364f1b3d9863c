-- ===== src/Gate/StatKeys/Numeric.antt =====
-- That native/src/services/proof/validation.rs keeps numeric stat keys alone: every step of
-- numeric_stat_keys preserves it.
use txodds_agent_desk.Prelude.{
  ◌≡◌, true, false, inl, inr, Option, none, some, List, [], ◌∷◌, ◌++◌, arith, Bool-cases,
  Option-cases, is_some, is_empty,
}
use txodds_agent_desk.Text.{Text, text_eq, lit}
use txodds_agent_desk.Strings.{trim}
use txodds_agent_desk.Decimal.{show_ℕ}
use txodds_agent_desk.Decimal.Parse.{parse_u64}
use txodds_agent_desk.Json.{Value, number, string, array, Items, nil, cons}
use txodds_agent_desk.Json.Access.{get}
use txodds_agent_desk.Event.{TxLineProofReceipt}
use txodds_agent_desk.Gate.StatKeys.{
  split_at, place, sort, dedup_after, dedup, push_numeric_key, push_numeric_keys, array_key,
  array_keys, field_keys, collect_numeric_keys_from_json, key_of_proof, is_numeric,
}

-- A text that is not empty and that `parse::<u64>` reads.
abbrev pub IsNumeric : Text → Type 0
IsNumeric k = (is_empty k ≡ false) × (is_some (parse_u64 k) ≡ true)

abbrev pub AreNumeric : List Text → Type 0
AreNumeric [] = Unit
AreNumeric (k ∷ ks) = IsNumeric k × AreNumeric ks

append : (ks : List Text) (k : Text) → AreNumeric ks → IsNumeric k → AreNumeric (ks ++ k ∷ [])
append [] k n h = (h, tt)
append (x ∷ ks) k (m, n) h = (m, append ks k n h)

push : (ks : List Text) (v : Text) → AreNumeric ks → AreNumeric (push_numeric_key ks v)
unfolding push_numeric_key is_numeric
push ks v n = elim (Bool-cases (is_empty (trim v))) [
  | inl e ↦ rw e n
  | inr e ↦ elim (Bool-cases (is_some (parse_u64 (trim v)))) [
    | inl p ↦ rw (e, p) (append ks (trim v) n (e, p))
    | inr p ↦ rw (e, p) n
  ]
]

pub push_all : (ks vs : List Text) → AreNumeric ks → AreNumeric (push_numeric_keys ks vs)
unfolding push_numeric_keys
push_all ks [] n = n
push_all ks (v ∷ vs) n = push_all (push_numeric_key ks v) vs (push ks v n)

item : (ks : List Text) (v : Value) → AreNumeric ks → AreNumeric (array_key ks v)
item ks (number t) n = push ks t n
item ks (string t) n = push ks t n
item ks _ n = n

items : (ks : List Text) (vs : Items) → AreNumeric ks → AreNumeric (array_keys ks vs)
unfolding array_keys
items ks nil n = n
items ks (cons v vs) n = items (array_key ks v) vs (item ks v n)

of_field : (ks : List Text) (v : Option Value) → AreNumeric ks → AreNumeric (field_keys ks v)
of_field ks (some (number t)) n = push ks t n
of_field ks (some (string t)) n = push_all ks (split_at b',' t) n
of_field ks (some (array vs)) n = items ks vs n
of_field ks _ n = n

pub of_json :
    (ks : List Text) (raw : Option Value)
    → AreNumeric ks
    → AreNumeric (collect_numeric_keys_from_json ks raw)
unfolding collect_numeric_keys_from_json
of_json ks none n = n
of_json ks (some raw) n = of_field _ (get (lit "StatKeys") raw) (
    of_field _ (get (lit "stat_keys") raw) (
      of_field _ (get (lit "statKeys") raw) (
        of_field _ (get (lit "StatKey") raw)
          (of_field _ (get (lit "stat_key") raw) (of_field ks (get (lit "statKey") raw) n)))))

pub of_proof :
    (ks : List Text) (proof : Option TxLineProofReceipt)
    → AreNumeric ks
    → AreNumeric (key_of_proof ks proof)
of_proof ks none n = n
of_proof ks (some proof) n = elim (Option-cases proof.stat_key) [
  | inl e ↦ rw e n
  | inr (k, e) ↦ rw e (push ks (show_ℕ k) n)
]

placed : (k : Text) (ks : List Text) → IsNumeric k → AreNumeric ks → AreNumeric (place k ks)
unfolding place
placed k [] h n = (h, tt)
placed k (x ∷ xs) h (m, n) = let ih = placed k xs h n in ground (arith, ih)

pub sorted : (ks : List Text) → AreNumeric ks → AreNumeric (sort ks)
unfolding sort
sorted [] n = tt
sorted (k ∷ ks) (h, n) = placed k (sort ks) h (sorted ks n)

thinned : (k : Text) (ks : List Text) → AreNumeric ks → AreNumeric (dedup_after k ks)
unfolding dedup_after
thinned k [] n = tt
thinned k (x ∷ xs) (h, n) = elim (Bool-cases (text_eq k x)) [
  | inl e ↦ rw e (thinned k xs n)
  | inr e ↦ rw e (h, thinned x xs n)
]

pub distinct : (ks : List Text) → AreNumeric ks → AreNumeric (dedup ks)
unfolding dedup
distinct [] n = tt
distinct (k ∷ ks) (h, n) = (h, thinned k ks n)
