-- ===== src/Daemon/Pipeline/Log.antt =====
-- The steps that are made on the registry, by the dispatch thread and by others, in their order.
use cm108_driver_rust.Base.{◌≡◌, refl, ap, Bool, true, false, List, [], ◌∷◌, ◌++◌}
use cm108_driver_rust.Registry.{ClientRegistry, Op, apply, apply_all}

-- True marks a step of the dispatch thread.
abbrev pub Log : Type 0
Log = List (Bool × Op)

abbrev pub all_ops : Log → List Op
all_ops [] = []
all_ops ((b, op) ∷ log) = op ∷ all_ops log

abbrev pub owned : Log → List Op
owned [] = []
owned ((true, op) ∷ log) = op ∷ owned log
owned ((false, op) ∷ log) = owned log

abbrev pub others : Log → List Op
others [] = []
others ((true, op) ∷ log) = others log
others ((false, op) ∷ log) = op ∷ others log

abbrev pub own_log : List Op → Log
own_log [] = []
own_log (op ∷ ops) = (true, op) ∷ own_log ops

pub owned-own_log : (log : Log) (ops : List Op) → owned (log ++ own_log ops) ≡ owned log ++ ops
owned-own_log [] [] = refl
owned-own_log [] (op ∷ ops) = ap (λ l. op ∷ l) (owned-own_log [] ops)
owned-own_log ((true, op) ∷ log) ops = ap (λ l. op ∷ l) (owned-own_log log ops)
owned-own_log ((false, op) ∷ log) ops = owned-own_log log ops

pub others-own_log : (log : Log) (ops : List Op) → others (log ++ own_log ops) ≡ others log
others-own_log [] [] = refl
others-own_log [] (op ∷ ops) = others-own_log [] ops
others-own_log ((true, op) ∷ log) ops = others-own_log log ops
others-own_log ((false, op) ∷ log) ops = ap (λ l. op ∷ l) (others-own_log log ops)

pub owned-other : (log : Log) (op : Op) → owned (log ++ (false, op) ∷ []) ≡ owned log
owned-other [] op = refl
owned-other ((true, x) ∷ log) op = ap (λ l. x ∷ l) (owned-other log op)
owned-other ((false, x) ∷ log) op = owned-other log op

pub others-other : (log : Log) (op : Op) → others (log ++ (false, op) ∷ []) ≡ others log ++ op ∷ []
others-other [] op = refl
others-other ((true, x) ∷ log) op = others-other log op
others-other ((false, x) ∷ log) op = ap (λ l. x ∷ l) (others-other log op)

pub apply_all-own_log :
    (log : Log) (ops : List Op) (r : ClientRegistry)
    → apply_all (all_ops (log ++ own_log ops)) r ≡ apply_all ops (apply_all (all_ops log) r)
unfolding apply_all
apply_all-own_log [] [] r = refl
apply_all-own_log [] (op ∷ ops) r = apply_all-own_log [] ops (apply op r)
apply_all-own_log ((b, op) ∷ log) ops r = apply_all-own_log log ops (apply op r)

pub apply_all-other :
    (log : Log) (op : Op) (r : ClientRegistry)
    → apply_all (all_ops (log ++ (false, op) ∷ [])) r ≡ apply op (apply_all (all_ops log) r)
unfolding apply_all
apply_all-other [] op r = refl
apply_all-other ((b, x) ∷ log) op r = apply_all-other log op (apply x r)
