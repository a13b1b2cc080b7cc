-- ===== src/Opencl/Create.antt =====
-- What the creation of an action acquires and gives back (mtapi_opencl_c/src/embb_mtapi_opencl.c).
use embb.Common.{
  ℕ, ap, sym, ◌∙◌, ◌<◌, ◌≡◌, ◌⊎◌, inl, inr, List, [], ◌∷◌, ◌++◌, Bool, true, false, arith, ◌==◌,
  if◌then◌else◌,
}
use mathlib.Core.List.{reverse}
use embb.Mtapi.Status.{Status, err_unknown}
use embb.Mtapi.Pool.{Handle}
use embb.Mtapi.Job.{no_handle}
use embb.Mtapi.Action.Plugin.{plugin_create}
use embb.Opencl.{
  Call, create_program, create_kernel, create_buffer, release_mem_object, release_kernel,
  release_program, Driver, OpenclAction, Opencl, put,
}
use embb.Opencl.Setup.{
  ActionRequest, Draft, attempt, draft_kernel, draft_data, draft_arguments, discard_draft, draft,
  plugin_request, action_create,
}

-- What OpenCL hands out for an action.
pub data Object : Type 0 where
  program kernel mem : (handle : ℕ) → Object

abbrev if_given : ℕ → Object → List Object → List Object
if_given err object objects = if err == 0 then object ∷ objects else objects

-- The objects that calls have created without an error, the newest first.
pub acquired : Driver → List Call → List Object
acquired d [] = []
acquired d (create_program context source length ∷ calls) =
    let c = create_program context source length in
    if_given (d.error calls c) (program (d.result calls c)) (acquired d calls)
acquired d (create_kernel of name ∷ calls) =
    let c = create_kernel of name in
    if_given (d.error calls c) (kernel (d.result calls c)) (acquired d calls)
acquired d (create_buffer context access size ∷ calls) =
    let c = create_buffer context access size in
    if_given (d.error calls c) (mem (d.result calls c)) (acquired d calls)
acquired d (_ ∷ calls) = acquired d calls

-- The objects that have been released, the newest release first.
pub freed : List Call → List Object
freed [] = []
freed (release_program handle ∷ calls) = program handle ∷ freed calls
freed (release_kernel handle ∷ calls) = kernel handle ∷ freed calls
freed (release_mem_object handle ∷ calls) = mem handle ∷ freed calls
freed (_ ∷ calls) = freed calls

abbrev when : Bool → Object → List Object
when true object = object ∷ []
when false object = []

-- The objects of a draft, the newest first.
abbrev pub objects_of : Draft → List Object
objects_of x =
    when x.free_node_local_data (mem x.action.node_local_data)
    ++ (when x.free_kernel (kernel x.action.kernel)
        ++ when x.free_program (program x.action.program))

draft_kernel-acquired :
    (d : Driver) (w : Opencl) (r : ActionRequest) (block : OpenclAction)
    → let x = draft_kernel d w r block in
      (acquired d x.calls ≡ objects_of x ++ acquired d w.calls)
      × (freed x.calls ≡ freed w.calls)
      × (x.free_node_local_data ≡ false)
unfolding draft_kernel attempt acquired freed
draft_kernel-acquired d w r block = ground arith

draft_data-acquired :
    (d : Driver) (w : Opencl) (r : ActionRequest) (x : Draft) (objects : List Object)
    → x.free_node_local_data ≡ false
    → acquired d x.calls ≡ objects_of x ++ objects
    → let x' = draft_data d w r x in
      (acquired d x'.calls ≡ objects_of x' ++ objects) × (freed x'.calls ≡ freed x.calls)
unfolding draft_data attempt acquired freed
draft_data-acquired d w r x objects none all = ground arith

draft_arguments-acquired :
    (d : Driver) (x : Draft)
    → let x' = draft_arguments d x in
      (acquired d x'.calls ≡ acquired d x.calls)
      × (freed x'.calls ≡ freed x.calls)
      × (objects_of x' ≡ objects_of x)
unfolding draft_arguments attempt acquired freed
draft_arguments-acquired d x = ground arith

discard_draft-freed :
    (x : Draft) → (freed (discard_draft x) ≡ reverse (objects_of x) ++ freed x.calls)
unfolding discard_draft freed
discard_draft-freed x = ground arith

discard_draft-acquired :
    (d : Driver) (x : Draft) → acquired d (discard_draft x) ≡ acquired d x.calls
unfolding discard_draft acquired
discard_draft-acquired d x = ground arith

draft-acquired :
    (d : Driver) (w : Opencl) (r : ActionRequest) (block : OpenclAction)
    → let x = draft d w r block in
      (acquired d x.calls ≡ objects_of x ++ acquired d w.calls) × (freed x.calls ≡ freed w.calls)
unfolding draft
draft-acquired d w r block =
    let x = draft_kernel d w r block in
    let (all, same, no_data) = draft_kernel-acquired d w r block in
    let (all', same') = draft_data-acquired d w r x (acquired d w.calls) no_data all in
    let (all'', same'', objects) = draft_arguments-acquired d (draft_data d w r x) in
    (all'' ∙ all' ∙ ap (λ os. os ++ acquired d w.calls) (sym objects), same'' ∙ same' ∙ same)

-- The two ends of a creation.
pub action_create-cases :
    (d : Driver) (functions : ℕ × ℕ × ℕ) (address : ℕ) (w : Opencl) (r : ActionRequest)
    → let x = draft d w r (w.actions address) in
      let (status, handle, node) =
        plugin_create w.system.node (plugin_request functions address r) in
      ((x.err ≡ 0)
        × (action_create d functions address w r ≡ (
          status,
          handle,
          record w {
            system = record w.system { node = node };
            actions = put w.actions address x.action;
            calls = x.calls;
          },
        )))
      ⊎ ((0 < x.err)
          × (action_create d functions address w r
              ≡ (err_unknown, no_handle, record w { calls = discard_draft x })))
unfolding action_create
action_create-cases d functions address w r = ground arith

-- Whatever calls of OpenCL fail, mtapi_opencl_action_create with the block that embb_alloc gave
-- either reports what mtapi_ext_plugin_action_create reports, with its handle and node, and releases
-- nothing, or it reports MTAPI_ERR_UNKNOWN with no handle, leaves the node as it was and gives
-- back all programs, kernels and buffers that it created, in the opposite order.
pub action_create-freed :
    (d : Driver) (functions : ℕ × ℕ × ℕ) (address : ℕ) (w : Opencl) (r : ActionRequest)
    → let (status, handle, w') = action_create d functions address w r in
      let (status', handle', node) =
        plugin_create w.system.node (plugin_request functions address r) in
      ((status ≡ status')
        × (handle ≡ handle')
        × (w'.system.node ≡ node)
        × (freed w'.calls ≡ freed w.calls))
      ⊎ ((status ≡ err_unknown)
          × (handle ≡ no_handle)
          × (w'.system ≡ w.system)
          × (objects : List Object) × (acquired d w'.calls ≡ objects ++ acquired d w.calls)
          × (freed w'.calls ≡ reverse objects ++ freed w.calls))
action_create-freed d functions address w r =
    let x = draft d w r (w.actions address) in
    let (all, same) = draft-acquired d w r (w.actions address) in
    let given_back = discard_draft-freed x ∙ ap (λ os. reverse (objects_of x) ++ os) same in
    let kept = discard_draft-acquired d x ∙ all in
    elim (action_create-cases d functions address w r) [
      | inl (ok, p) ↦ inl (
        ap (λ q. q.0) p,
        ap (λ (q : Status × Handle × Opencl). q.1) p,
        ap (λ (q : Status × Handle × Opencl). q.2.system.node) p,
        ap (λ (q : Status × Handle × Opencl). freed q.2.calls) p ∙ same,
      )
      | inr (bad, p) ↦ inr (
        ap (λ q. q.0) p,
        ap (λ (q : Status × Handle × Opencl). q.1) p,
        ap (λ (q : Status × Handle × Opencl). q.2.system) p,
        objects_of x,
        ap (λ (q : Status × Handle × Opencl). acquired d q.2.calls) p ∙ kept,
        ap (λ (q : Status × Handle × Opencl). freed q.2.calls) p ∙ given_back,
      )
    ]
