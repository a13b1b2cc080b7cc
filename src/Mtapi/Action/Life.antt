-- ===== src/Mtapi/Action/Life.antt =====
-- Actions are created and changed (mtapi_c/src/embb_mtapi_action_t.c).
use embb.Common.{ℕ, ◌+◌, ◌≡◌, true, none, arith, ◌==◌, if◌then◌else◌, length}
use embb.Mtapi.Status.{success, err_parameter}
use embb.Mtapi.IdPool
use embb.Mtapi.Pool
use embb.Mtapi.Pool.{Handle}
use embb.Mtapi.Pool.Valid
use embb.Mtapi.Pool.Modify.{
  is_handle_valid-modify, get_object-modify, length-modify, is_handle_valid-in_range,
}
use embb.Mtapi.Job
use embb.Mtapi.Attributes.{Attribute}
use embb.Mtapi.Attributes.Action as ActionAttr
use embb.Mtapi.Attributes.Action.{Num}
use embb.Mtapi.Objects.{Action}
use embb.Mtapi.Node.{Node}
use embb.Mtapi.Action.{action_at, no_action, set_attribute, get_attribute, enable}

-- On a valid handle of an initialised node, whose pool has an entry for each id and entry 0,
-- set_attribute changes the attributes as mtapi_actionattr_set does and get_attribute then reads
-- them, enable then enables the action and keeps its attributes, and both keep the validity of
-- every handle.
pub get_attribute-set_attribute :
    (node : Node) (action other : Handle) (num num' : Num) (v w : Attribute) (size size' : ℕ)
    → node.is_initialized ≡ true
    → length node.action_pool.storage ≡ node.action_pool.id_pool.capacity + 1
    → Pool.is_handle_valid node.action_pool action ≡ true
    → let (status, node') = set_attribute node action num v size in
      let (status', a) = ActionAttr.set_at (action_at node action.id).attributes num v size in
      let (enabled, node'') = enable node' action in
      (status ≡ status')
      × (get_attribute node' action num' w size'
          ≡ (if w.pointer == 0 then (err_parameter, none) else ActionAttr.get a num' size'))
      × (enabled ≡ success)
      × ((action_at node'' action.id).enabled ≡ true)
      × ((action_at node'' action.id).attributes ≡ a)
      × (Pool.is_handle_valid node''.action_pool other
          ≡ Pool.is_handle_valid node.action_pool other)
unfolding set_attribute get_attribute enable
get_attribute-set_attribute node action other num num' v w size size' init slots valid =
    let pool = node.action_pool in
    let change = λ (a : Action). record a {
      attributes = (ActionAttr.set_at (action_at node action.id).attributes num v size).1;
    } in
    let inside = is_handle_valid-in_range pool action valid in
    let changed = Pool.modify pool action.id change in
    let on = λ (a : Action). record a { enabled = true } in
    let shape = length-modify pool action.id change in
    ground (
      arith,
      is_handle_valid-modify pool action.id change action,
      is_handle_valid-modify pool action.id change other,
      is_handle_valid-modify changed action.id on other,
      get_object-modify pool action.id change no_action,
      get_object-modify changed action.id on no_action,
    )
