-- ===== src/Gate/StatKeys.antt =====
-- native/src/services/proof/validation.rs: the stat keys that a proof is asked for.
pub mod Kept
pub mod Numeric
pub mod Sorted
use txodds_agent_desk.Prelude.{
  ℕ, true, false, Bool, not, ◌&&◌, Option, none, some, List, [], ◌∷◌, ◌++◌, if◌then◌else◌, ltb,
  ◌==◌, is_some, unwrap_or, is_empty, ◌>>=◌,
}
use txodds_agent_desk.Text.{Text, lit, text_eq}
use txodds_agent_desk.Strings.{trim, map_some}
use txodds_agent_desk.Decimal.{show_ℕ}
use txodds_agent_desk.Decimal.Parse.{parse_u64}
use txodds_agent_desk.Json.{Value, number, string, array, Items, nil, cons}
use txodds_agent_desk.Json.Access.{get}
use txodds_agent_desk.Event.{TxLineProofReceipt}
use txodds_agent_desk.Run.{AgentRun}

-- `str::split` at a character; `item` is the item being read.
unfoldable split_from : Text → ℕ → Text → List Text
split_from item sep [] = item ∷ []
split_from item sep (c ∷ s) =
    let next = split_from [] sep s in
    let longer = split_from (item ++ c ∷ []) sep s in if c == sep then item ∷ next else longer

unfoldable pub split_at : ℕ → Text → List Text
unfolding split_from
split_at sep s = split_from [] sep s

-- `str::cmp`: UTF-8 orders texts as their code points do.
unfoldable pub text_lt : Text → Text → Bool
text_lt s [] = false
text_lt [] (d ∷ t) = true
text_lt (c ∷ s) (d ∷ t) = if ltb c d then true else c == d && text_lt s t

-- `sort` and `dedup`
unfoldable pub place : Text → List Text → List Text
unfolding text_lt
place k [] = k ∷ []
place k (x ∷ xs) = let rest = place k xs in if text_lt x k then x ∷ rest else k ∷ x ∷ xs

unfoldable pub sort : List Text → List Text
unfolding place
sort [] = []
sort (x ∷ xs) = place x (sort xs)

-- A key is dropped if it equals the one kept before it.
unfoldable pub dedup_after : Text → List Text → List Text
unfolding text_eq
dedup_after k [] = []
dedup_after k (x ∷ xs) =
    let same = dedup_after k xs in
    let next = dedup_after x xs in if text_eq k x then same else x ∷ next

unfoldable pub dedup : List Text → List Text
unfolding dedup_after
dedup [] = []
dedup (x ∷ xs) = x ∷ dedup_after x xs

unfoldable pub is_numeric : Text → Bool
unfolding parse_u64
is_numeric k = not (is_empty k) && is_some (parse_u64 k)

unfoldable pub push_numeric_key : List Text → Text → List Text
unfolding trim is_numeric
push_numeric_key keys value =
    let trimmed = trim value in if is_numeric trimmed then keys ++ trimmed ∷ [] else keys

pub push_numeric_keys : List Text → List Text → List Text
push_numeric_keys keys [] = keys
push_numeric_keys keys (value ∷ values) = push_numeric_keys (push_numeric_key keys value) values

abbrev pub array_key : List Text → Value → List Text
array_key keys (number n) = push_numeric_key keys n
array_key keys (string t) = push_numeric_key keys t
array_key keys _ = keys

pub array_keys : List Text → Items → List Text
array_keys keys nil = keys
array_keys keys (cons v vs) = array_keys (array_key keys v) vs

abbrev pub field_keys : List Text → Option Value → List Text
field_keys keys (some (number n)) = push_numeric_key keys n
field_keys keys (some (string t)) = push_numeric_keys keys (split_at b',' t)
field_keys keys (some (array vs)) = array_keys keys vs
field_keys keys _ = keys

unfoldable pub collect_numeric_keys_from_json : List Text → Option Value → List Text
unfolding push_numeric_key push_numeric_keys array_keys get split_at
collect_numeric_keys_from_json keys none = keys
collect_numeric_keys_from_json keys (some raw) =
    let keys = field_keys keys (get (lit "statKey") raw) in
    let keys = field_keys keys (get (lit "stat_key") raw) in
    let keys = field_keys keys (get (lit "StatKey") raw) in
    let keys = field_keys keys (get (lit "statKeys") raw) in
    let keys = field_keys keys (get (lit "stat_keys") raw) in
    field_keys keys (get (lit "StatKeys") raw)

abbrev key_of_proof : List Text → Option TxLineProofReceipt → List Text
key_of_proof keys none = keys
key_of_proof keys (some proof) = elim proof.stat_key [
  | none ↦ keys
  | some key ↦ push_numeric_key keys (show_ℕ key)
]

module _ {F : Type 0} where
  unfoldable pub preferred_stat_keys : AgentRun F → List Text
  preferred_stat_keys run =
      if not (is_empty run.trigger.stat_keys)
      then run.trigger.stat_keys
      else unwrap_or (map_some (λ p. p.stat_keys) run.trigger.proof) []

  -- The keys in the order in which they are pushed.
  unfoldable pub pushed_keys : AgentRun F → List Text
  unfolding preferred_stat_keys push_numeric_key push_numeric_keys collect_numeric_keys_from_json
      show_ℕ
  pushed_keys run =
      let keys = push_numeric_keys [] (run.trigger.stat_keys ++ preferred_stat_keys run) in
      collect_numeric_keys_from_json (key_of_proof keys run.trigger.proof) run.trigger.raw

  unfoldable pub numeric_stat_keys : AgentRun F → List Text
  unfolding pushed_keys sort dedup
  numeric_stat_keys run = dedup (sort (pushed_keys run))
