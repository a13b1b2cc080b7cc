-- ===== src/Base/CoreSet/Examples.antt =====
-- Core sets at concrete values.
use embb.Common.{◌≡◌, List, [], ◌∷◌, ◌==◌, if◌then◌else◌, arith}
use embb.Base.CoreSet.{init, contains}
use embb.Base.CoreSet.Laws.{Op, adds, removes, run, member, contains-run-init}

abbrev calls : List Op
calls = removes 2 ∷ adds 1 ∷ []

contains-run-init_example :
    contains (run (init 4 1) calls) 2 ≡ member 2 (if ◌==◌ 1 0 then 0 else 1) calls
contains-run-init_example = contains-run-init 4 1 2 calls (omega arith) (omega arith) (omega arith)
