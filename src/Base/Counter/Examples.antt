-- ===== src/Base/Counter/Examples.antt =====
-- A counter at concrete values.
use embb.Common.{◌+◌, ◌%◌, ◌≡◌, List, [], ◌∷◌, arith}
use embb.Base.Counter.{uint_mod}
use embb.Base.Counter.Laws.{Call, increments, decrements, run, ups, downs, run-eq-balance}

abbrev calls : List Call
calls = decrements ∷ decrements ∷ increments ∷ []

run-eq-balance_test : (run 1 calls + downs calls) % uint_mod ≡ (1 + ups calls) % uint_mod
run-eq-balance_test = run-eq-balance 1 calls (omega arith)
