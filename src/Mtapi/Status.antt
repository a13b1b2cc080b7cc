-- ===== src/Mtapi/Status.antt =====
-- mtapi_c/include/embb/mtapi/c/mtapi.h: the codes that the interface returns, MTAPI_SUCCESS and on.
use embb.Common.{ℕ, ◌<◌, ◌≡◌, refl, List, [], ◌∷◌, Bool, true, false, get_or, arith}

pub data Status : Type 0 where
  success timeout err_parameter err_attr_readonly err_attr_num err_attr_size : Status
  err_node_initfailed err_node_initialized err_node_invalid err_domain_invalid : Status
  err_node_notinit err_action_invalid err_action_exists err_action_limit : Status
  err_action_num_invalid err_action_failed err_action_cancelled err_action_deleted : Status
  err_action_disabled err_context_invalid err_context_outofcontext err_task_invalid : Status
  err_task_limit err_job_invalid err_queue_invalid err_queue_deleted err_queue_disabled : Status
  err_queue_limit err_group_invalid err_group_limit group_completed err_unknown : Status
  err_buffer_size err_result_size err_arg_size err_wait_pending : Status
  err_func_not_implemented err_arg_not_implemented : Status
  err_runtime_remotetasks_notsupported err_runtime_loadbalancing_notsupported : Status
  err_core_num : Status

-- `MTAPI_SUCCESS == status`
abbrev pub is_success : Status → Bool
is_success success = true
is_success _ = false

-- The number of a code, and the code of a number. A number that no code has becomes err_unknown;
-- the source keeps it.
unfoldable pub code : Status → ℕ
code success = 0
code timeout = 1
code err_parameter = 2
code err_attr_readonly = 3
code err_attr_num = 4
code err_attr_size = 5
code err_node_initfailed = 6
code err_node_initialized = 7
code err_node_invalid = 8
code err_domain_invalid = 9
code err_node_notinit = 10
code err_action_invalid = 11
code err_action_exists = 12
code err_action_limit = 13
code err_action_num_invalid = 14
code err_action_failed = 15
code err_action_cancelled = 16
code err_action_deleted = 17
code err_action_disabled = 18
code err_context_invalid = 19
code err_context_outofcontext = 20
code err_task_invalid = 21
code err_task_limit = 22
code err_job_invalid = 23
code err_queue_invalid = 24
code err_queue_deleted = 25
code err_queue_disabled = 26
code err_queue_limit = 27
code err_group_invalid = 28
code err_group_limit = 29
code group_completed = 30
code err_unknown = 31
code err_buffer_size = 32
code err_result_size = 33
code err_arg_size = 34
code err_wait_pending = 35
code err_func_not_implemented = 36
code err_arg_not_implemented = 37
code err_runtime_remotetasks_notsupported = 38
code err_runtime_loadbalancing_notsupported = 39
code err_core_num = 40

all_codes : List Status
all_codes =
    success ∷ timeout ∷ err_parameter ∷ err_attr_readonly ∷ err_attr_num ∷ err_attr_size
    ∷ err_node_initfailed ∷ err_node_initialized ∷ err_node_invalid ∷ err_domain_invalid
    ∷ err_node_notinit ∷ err_action_invalid ∷ err_action_exists ∷ err_action_limit
    ∷ err_action_num_invalid ∷ err_action_failed ∷ err_action_cancelled ∷ err_action_deleted
    ∷ err_action_disabled ∷ err_context_invalid ∷ err_context_outofcontext ∷ err_task_invalid
    ∷ err_task_limit ∷ err_job_invalid ∷ err_queue_invalid ∷ err_queue_deleted ∷ err_queue_disabled
    ∷ err_queue_limit ∷ err_group_invalid ∷ err_group_limit ∷ group_completed ∷ err_unknown
    ∷ err_buffer_size ∷ err_result_size ∷ err_arg_size ∷ err_wait_pending ∷ err_func_not_implemented
    ∷ err_arg_not_implemented ∷ err_runtime_remotetasks_notsupported
    ∷ err_runtime_loadbalancing_notsupported ∷ err_core_num ∷ []

unfoldable pub from_code : ℕ → Status
unfolding all_codes
from_code number = get_or all_codes number err_unknown

pub from_code-code : (status : Status) → from_code (code status) ≡ status
unfolding from_code code
from_code-code success = refl
from_code-code _ = refl

pub code-lt : (status : Status) → code status < 256
unfolding code
code-lt success = omega arith
code-lt _ = omega arith
