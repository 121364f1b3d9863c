-- ===== src/Ledger/Invariant.antt =====
-- Predicates of the tables of native/src/services/ledger/store.rs that each statement at the end of a
-- round, in native/src/services/agent/runtime/persistence.rs, keeps.
use txodds_agent_desk.Prelude.{Option, some, List, [], ◌∷◌}
use txodds_agent_desk.Ledger.{Db, AppError, Result, ok, err, ◌>>=◌}
use txodds_agent_desk.Ledger.Store.{run_all, Write}

-- A result that is not an error satisfies the predicate.
abbrev pub IfOk {ℓ} : {A : Type ℓ} → (A → Type 0) → Result A → Type 0
IfOk P (ok a) = P a
IfOk P (err e) = Unit

pub IfOk->>= {ℓ κ} :
    {A : Type ℓ} {B : Type κ} (P : B → Type 0) (m : Result A) (f : A → Result B)
    → ((a : A) → IfOk P (f a))
    → IfOk P (m >>= f)
IfOk->>= P (ok a) f h = h a
IfOk->>= P (err e) f h = tt

pub IfOk-after {ℓ κ} :
    {A : Type ℓ} {B : Type κ} (Q : A → Type 0) (P : B → Type 0) (m : Result A) (f : A → Result B)
    → IfOk Q m
    → ((a : A) → Q a → IfOk P (f a))
    → IfOk P (m >>= f)
IfOk-after Q P (ok a) f q h = h a q
IfOk-after Q P (err e) f q h = tt

-- A statement that keeps a predicate of the tables.
abbrev pub Keeps : (Db → Type 0) → Write → Type 0
Keeps P w = (db : Db) → P db → IfOk P (w db)

abbrev pub AllKeep : (Db → Type 0) → List Write → Type 0
AllKeep P [] = Unit
AllKeep P (w ∷ ws) = Keeps P w × AllKeep P ws

pub run_all-Keeps :
    (P : Db → Type 0) (ws : List Write) (db : Db) → AllKeep P ws → P db → P (run_all ws db).1
run_all-Keeps P [] db k h = h
run_all-Keeps P (w ∷ ws) db (k, ks) h = go (w db) (k db h) (λ db' p. run_all-Keeps P ws db' ks p)
  where
    go :
        (r : Result Db)
        → IfOk P r
        → ((db' : Db) → P db' → P (run_all ws db').1)
        → P
            (elim r as (λ _. Option AppError × Db) [
              | ok db' ↦ run_all ws db'
              | err e ↦ (some e, db)
            ]).1
    go (ok db') p ih = ih db' p
    go (err e) p ih = h
