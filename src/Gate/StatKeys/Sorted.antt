-- ===== src/Gate/StatKeys/Sorted.antt =====
-- The order of the stat keys of native/src/services/proof/validation.rs: `sort` and `dedup`.
use txodds_agent_desk.Prelude.{◌≡◌, true, false, inl, inr, List, [], ◌∷◌, arith, Bool-cases}
use txodds_agent_desk.Text.{Text, text_eq, text_eq→eq}
use txodds_agent_desk.Gate.StatKeys.{text_lt, place, sort, dedup_after, dedup}

-- No text is smaller than the one before it; and each is greater.
abbrev LeHead : Text → List Text → Type 0
LeHead x [] = Unit
LeHead x (y ∷ _) = text_lt y x ≡ false

abbrev IsSorted : List Text → Type 0
IsSorted [] = Unit
IsSorted (x ∷ xs) = LeHead x xs × IsSorted xs

abbrev pub LtHead : Text → List Text → Type 0
LtHead x [] = Unit
LtHead x (y ∷ _) = text_lt x y ≡ true

abbrev pub IsAscending : List Text → Type 0
IsAscending [] = Unit
IsAscending (x ∷ xs) = LtHead x xs × IsAscending xs

text_lt-asym : (s t : Text) → text_lt s t ≡ true → text_lt t s ≡ false
unfolding text_lt
text_lt-asym s [] h = ground arith
text_lt-asym [] (d ∷ t) h = ground arith
text_lt-asym (c ∷ s) (d ∷ t) h = let ih = text_lt-asym s t in ground arith

text_lt-total : (s t : Text) → text_eq s t ≡ false → text_lt t s ≡ false → text_lt s t ≡ true
unfolding text_lt text_eq
text_lt-total [] [] e h = ground arith
text_lt-total [] (d ∷ t) e h = ground arith
text_lt-total (c ∷ s) [] e h = ground arith
text_lt-total (c ∷ s) (d ∷ t) e h = let ih = text_lt-total s t in ground arith

place-LeHead :
    (y k : Text) (xs : List Text) → text_lt k y ≡ false → LeHead y xs → LeHead y (place k xs)
unfolding place
place-LeHead y k [] h l = h
place-LeHead y k (x ∷ xs) h l = elim (Bool-cases (text_lt x k)) [ inl e ↦ rw e l | inr e ↦ rw e h ]

place-IsSorted : (k : Text) (xs : List Text) → IsSorted xs → IsSorted (place k xs)
unfolding place
place-IsSorted k [] s = (tt, tt)
place-IsSorted k (x ∷ xs) (l, s) = elim (Bool-cases (text_lt x k)) [
  | inl e ↦ rw e (place-LeHead x k xs (text_lt-asym x k e) l, place-IsSorted k xs s)
  | inr e ↦ rw e (e, (l, s))
]

sort-IsSorted : (xs : List Text) → IsSorted (sort xs)
unfolding sort
sort-IsSorted [] = tt
sort-IsSorted (x ∷ xs) = place-IsSorted x (sort xs) (sort-IsSorted xs)

dedup_after-IsAscending :
    (k : Text) (xs : List Text) → LeHead k xs → IsSorted xs → IsAscending (k ∷ dedup_after k xs)
unfolding dedup_after
dedup_after-IsAscending k [] h s = (tt, tt)
dedup_after-IsAscending k (x ∷ xs) h (l, s) = elim (Bool-cases (text_eq k x)) [
  | inl e ↦
      let same : LeHead k xs = rw (text_eq→eq k x e) l in rw e (dedup_after-IsAscending k xs same s)
  | inr e ↦ rw e (text_lt-total k x e h, dedup_after-IsAscending x xs l s)
]

dedup-IsAscending : (xs : List Text) → IsSorted xs → IsAscending (dedup xs)
unfolding dedup
dedup-IsAscending [] s = tt
dedup-IsAscending (x ∷ xs) (l, s) = dedup_after-IsAscending x xs l s

-- Sorted texts without repetition ascend.
pub sorted-IsAscending : (xs : List Text) → IsAscending (dedup (sort xs))
sorted-IsAscending xs = dedup-IsAscending (sort xs) (sort-IsSorted xs)
