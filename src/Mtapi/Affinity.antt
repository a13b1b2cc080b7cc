-- ===== src/Mtapi/Affinity.antt =====
-- mtapi_c/src/mtapi_affinity_t.c. `num_cores` is the node's attribute, and `none` where there is no
-- node; a mask is `none` for a null pointer, and `affinity` a mtapi_boolean_t.
mod Laws
mod Examples
use embb.Common.{ℕ, Option, none, some, Bool, true, false, ltb, ◌==◌, if◌then◌else◌}
use embb.Base.Bitset
use embb.Mtapi.Status.{Status, success, err_parameter, err_node_notinit, err_core_num}

unfoldable pub init : Option ℕ → Option ℕ → Bool → Status × Option ℕ
init none mask affinity = (err_node_notinit, mask)
init (some num_cores) none affinity = (err_parameter, none)
init (some num_cores) (some mask) affinity =
    (success, some (if affinity then Bitset.set_n num_cores else Bitset.clear_all))

pub set : Option ℕ → Option ℕ → ℕ → Bool → Status × Option ℕ
set none mask core_num affinity = (err_node_notinit, mask)
set (some num_cores) none core_num affinity = (err_parameter, none)
set (some num_cores) (some mask) core_num affinity =
    if ltb core_num num_cores
    then (success, some (if affinity then Bitset.set mask core_num else Bitset.clear mask core_num))
    else (err_core_num, some mask)

unfoldable pub get : Option ℕ → Option ℕ → ℕ → Status × Bool
get none mask core_num = (err_node_notinit, false)
get (some num_cores) none core_num = (err_parameter, false)
get (some num_cores) (some mask) core_num =
    if ltb core_num num_cores
    then (success, if Bitset.is_set mask core_num == 0 then false else true)
    else (err_core_num, false)
