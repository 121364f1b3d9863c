-- ===== src/Gate/StatKeys/Kept.antt =====
-- Which stat keys native/src/services/proof/validation.rs collects: numeric_stat_keys.
use txodds_agent_desk.Prelude.{
  ◌≡◌, refl, false, ◌⊎◌, inl, inr, Option, none, some, List, [], ◌∷◌, ◌++◌, sym, arith, Bool-cases,
  Option-cases, is_some, is_empty,
}
use txodds_agent_desk.Text.{Text, text_eq, text_eq→eq, lit}
use txodds_agent_desk.Strings.{trim}
use txodds_agent_desk.Decimal.{show_ℕ}
use txodds_agent_desk.Decimal.Parse.{parse_u64}
use txodds_agent_desk.Json.{Value, number, string, array, Items, nil, cons}
use txodds_agent_desk.Json.Access.{get}
use txodds_agent_desk.Event.{TxLineProofReceipt}
use txodds_agent_desk.Run.{AgentRun}
use txodds_agent_desk.Gate.StatKeys.{
  text_lt, split_at, place, sort, dedup_after, dedup, push_numeric_key, push_numeric_keys,
  array_key, array_keys, field_keys, collect_numeric_keys_from_json, key_of_proof,
  preferred_stat_keys, pushed_keys, numeric_stat_keys, is_numeric,
}
use txodds_agent_desk.Gate.StatKeys.Sorted.{IsAscending, sorted-IsAscending}
use txodds_agent_desk.Gate.StatKeys.Numeric.{IsNumeric, AreNumeric}
use txodds_agent_desk.Gate.StatKeys.Numeric

abbrev pub Among : Text → List Text → Type 0
Among k [] = ⊥
Among k (x ∷ xs) = (k ≡ x) ⊎ Among k xs

Among-last : (k : Text) (ks : List Text) → Among k (ks ++ k ∷ [])
Among-last k [] = inl refl
Among-last k (x ∷ ks) = inr (Among-last k ks)

Among-append : (k : Text) (ks xs : List Text) → Among k ks → Among k (ks ++ xs)
Among-append k [] xs h = elim h [ ]
Among-append k (x ∷ ks) xs (inl e) = inl e
Among-append k (x ∷ ks) xs (inr h) = inr (Among-append k ks xs h)

push-keeps : (k : Text) (ks : List Text) (v : Text) → Among k ks → Among k (push_numeric_key ks v)
unfolding push_numeric_key is_numeric
push-keeps k ks v h = let appended = Among-append k ks (trim v ∷ []) h in ground (arith, appended)

push-adds :
    (ks : List Text) (v : Text) → IsNumeric (trim v) → Among (trim v) (push_numeric_key ks v)
unfolding push_numeric_key is_numeric
push-adds ks v (e, p) = rw (e, p) (Among-last (trim v) ks)

push_all-keeps : (k : Text) (ks vs : List Text) → Among k ks → Among k (push_numeric_keys ks vs)
unfolding push_numeric_keys
push_all-keeps k ks [] h = h
push_all-keeps k ks (v ∷ vs) h = push_all-keeps k (push_numeric_key ks v) vs (push-keeps k ks v h)

array_key-keeps : (k : Text) (ks : List Text) (v : Value) → Among k ks → Among k (array_key ks v)
array_key-keeps k ks (number t) h = push-keeps k ks t h
array_key-keeps k ks (string t) h = push-keeps k ks t h
array_key-keeps k ks _ h = h

array_keys-keeps :
    (k : Text) (ks : List Text) (vs : Items) → Among k ks → Among k (array_keys ks vs)
unfolding array_keys
array_keys-keeps k ks nil h = h
array_keys-keeps k ks (cons v vs) h =
    array_keys-keeps k (array_key ks v) vs (array_key-keeps k ks v h)

field_keys-keeps :
    (k : Text) (ks : List Text) (v : Option Value) → Among k ks → Among k (field_keys ks v)
field_keys-keeps k ks (some (number t)) h = push-keeps k ks t h
field_keys-keeps k ks (some (string t)) h = push_all-keeps k ks (split_at b',' t) h
field_keys-keeps k ks (some (array vs)) h = array_keys-keeps k ks vs h
field_keys-keeps k ks _ h = h

json-keeps :
    (k : Text) (ks : List Text) (raw : Option Value)
    → Among k ks
    → Among k (collect_numeric_keys_from_json ks raw)
unfolding collect_numeric_keys_from_json
json-keeps k ks none h = h
json-keeps k ks (some raw) h = field_keys-keeps k _ (get (lit "StatKeys") raw) (
    field_keys-keeps k _ (get (lit "stat_keys") raw) (
      field_keys-keeps k _ (get (lit "statKeys") raw) (
        field_keys-keeps k _ (get (lit "StatKey") raw) (
          field_keys-keeps k _ (get (lit "stat_key") raw)
            (field_keys-keeps k ks (get (lit "statKey") raw) h)))))

key_of_proof-keeps :
    (k : Text) (ks : List Text) (proof : Option TxLineProofReceipt)
    → Among k ks
    → Among k (key_of_proof ks proof)
key_of_proof-keeps k ks none h = h
key_of_proof-keeps k ks (some proof) h = elim (Option-cases proof.stat_key) [
  | inl e ↦ rw e h
  | inr (n, e) ↦ rw e (push-keeps k ks (show_ℕ n) h)
]

place_self : (k : Text) (ks : List Text) → Among k (place k ks)
unfolding place
place_self k [] = inl refl
place_self k (x ∷ xs) = let ih = place_self k xs in ground (arith, ih)

place-keeps : (k x : Text) (ks : List Text) → Among k ks → Among k (place x ks)
unfolding place
place-keeps k x [] h = elim h [ ]
place-keeps k x (y ∷ ys) h = elim (Bool-cases (text_lt y x)) [
  | inl e ↦ rw e (elim h [ inl a ↦ inl a | inr a ↦ inr (place-keeps k x ys a) ])
  | inr e ↦ rw e (inr h)
]

sort-keeps : (k : Text) (ks : List Text) → Among k ks → Among k (sort ks)
unfolding sort
sort-keeps k [] h = elim h [ ]
sort-keeps k (x ∷ ks) (inl e) = rw e (place_self x (sort ks))
sort-keeps k (x ∷ ks) (inr h) = place-keeps k x (sort ks) (sort-keeps k ks h)

dedup_after-keeps :
    (k x : Text) (ks : List Text) → Among k (x ∷ ks) → Among k (x ∷ dedup_after x ks)
unfolding dedup_after
dedup_after-keeps k x ks (inl e) = inl e
dedup_after-keeps k x [] (inr h) = elim h [ ]
dedup_after-keeps k x (y ∷ ys) (inr h) = elim (Bool-cases (text_eq x y)) [
  | inl e ↦
      let same : Among k (x ∷ ys) = rw (text_eq→eq x y e) h in rw e (dedup_after-keeps k x ys same)
  | inr e ↦ rw e (inr (dedup_after-keeps k y ys h))
]

dedup-keeps : (k : Text) (ks : List Text) → Among k ks → Among k (dedup ks)
unfolding dedup
dedup-keeps k [] h = elim h [ ]
dedup-keeps k (x ∷ ks) h = dedup_after-keeps k x ks h

push_all-adds :
    (v : Text) (ks vs : List Text)
    → IsNumeric (trim v)
    → Among v vs
    → Among (trim v) (push_numeric_keys ks vs)
unfolding push_numeric_keys
push_all-adds v ks [] n h = elim h [ ]
push_all-adds v ks (x ∷ vs) n (inl e) =
    push_all-keeps (trim v) (push_numeric_key ks x) vs (rw (sym e) (push-adds ks v n))
push_all-adds v ks (x ∷ vs) n (inr h) = push_all-adds v (push_numeric_key ks x) vs n h

Among-append_left : (k : Text) (xs ys : List Text) → Among k ys → Among k (xs ++ ys)
Among-append_left k [] ys h = h
Among-append_left k (x ∷ xs) ys h = inr (Among-append_left k xs ys h)

is_numeric-cases : (k : Text) → IsNumeric k ⊎ (is_numeric k ≡ false)
unfolding is_numeric
is_numeric-cases k = elim (Bool-cases (is_empty k)) [
  | inl e ↦ inr (rw e refl)
  | inr e ↦ elim (Bool-cases (is_some (parse_u64 k))) [
    | inl p ↦ inl (e, p)
    | inr p ↦ inr (rw (e, p) refl)
  ]
]

-- Each text, trimmed, is no number or among the keys.
abbrev pub Covers : List Text → List Text → Type 0
Covers keys [] = Unit
Covers keys (v ∷ vs) = (((is_numeric (trim v)) ≡ false) ⊎ Among (trim v) keys) × Covers keys vs

pub record IsKeySet (preferred keys : List Text) : Type 0 where
  pub ascending : IsAscending keys
  pub numeric : AreNumeric keys
  pub covering : Covers keys preferred

module _ {F : Type 0} where
  numeric_stat_keys-keeps :
      (run : AgentRun F) (v : Text)
      → IsNumeric (trim v)
      → Among v (preferred_stat_keys run)
      → Among (trim v) (numeric_stat_keys run)
  unfolding numeric_stat_keys pushed_keys
  numeric_stat_keys-keeps run v n h =
      let listed = run.trigger.stat_keys ++ preferred_stat_keys run in
      let pushed = push_all-adds v [] listed n (Among-append_left v run.trigger.stat_keys _ h) in
      let proved =
        key_of_proof-keeps (trim v) (push_numeric_keys [] listed) run.trigger.proof pushed in
      dedup-keeps (trim v) _ (sort-keeps (trim v) _ (json-keeps (trim v) _ run.trigger.raw proved))

  numeric_stat_keys-Covers :
      (run : AgentRun F) (vs : List Text)
      → ((v : Text) → Among v vs → Among v (preferred_stat_keys run))
      → Covers (numeric_stat_keys run) vs
  numeric_stat_keys-Covers run [] sub = tt
  numeric_stat_keys-Covers run (v ∷ vs) sub = (
    elim (is_numeric-cases (trim v)) [
      | inl n ↦ inr (numeric_stat_keys-keeps run v n (sub v (inl refl)))
      | inr e ↦ inl e
    ],
    numeric_stat_keys-Covers run vs (λ w h. sub w (inr h)),
  )

  numeric_stat_keys-IsAscending : (run : AgentRun F) → IsAscending (numeric_stat_keys run)
  unfolding numeric_stat_keys
  numeric_stat_keys-IsAscending run = sorted-IsAscending (pushed_keys run)

  numeric_stat_keys-AreNumeric : (run : AgentRun F) → AreNumeric (numeric_stat_keys run)
  unfolding numeric_stat_keys pushed_keys
  numeric_stat_keys-AreNumeric run =
      let listed = run.trigger.stat_keys ++ preferred_stat_keys run in
      Numeric.distinct _ (
        Numeric.sorted _ (
          Numeric.of_json _ run.trigger.raw
            (Numeric.of_proof _ run.trigger.proof (Numeric.push_all [] listed tt))))

  -- The keys that the proof of a run is asked for ascend, so that none occurs twice, each of them is
  -- a number of 64 bits, and each preferred key of the run that is such a number, blanks around it
  -- aside, is one of them.
  pub numeric_stat_keys-IsKeySet :
      (run : AgentRun F) → IsKeySet (preferred_stat_keys run) (numeric_stat_keys run)
  numeric_stat_keys-IsKeySet run = record {
    ascending = numeric_stat_keys-IsAscending run;
    numeric = numeric_stat_keys-AreNumeric run;
    covering = numeric_stat_keys-Covers run (preferred_stat_keys run) (λ v h. h);
  }
