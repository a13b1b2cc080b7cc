-- ===== src/Opencl/Stale.antt =====
-- An action whose program does not build (mtapi_opencl_c/src/embb_mtapi_opencl.c).
use embb.Common.{ℕ, ap, ◌∙◌, ◌<◌, ◌≡◌, inl, inr, List, [], ◌∷◌, ◌++◌, ◌==◌, if◌then◌else◌, arith}
use embb.Mtapi.Status.{Status}
use embb.Mtapi.Pool.{Handle}
use embb.Opencl.{
  Call, create_program, build_program, set_kernel_arg, create_buffer, enqueue_write_buffer, Driver,
  OpenclAction, Opencl, read_only, to_int, to_size,
}
use embb.Opencl.Setup.{
  ActionRequest, Draft, attempt, draft_kernel, draft_data, draft_arguments, discard_draft, draft,
  action_create,
}
use embb.Opencl.Create.{action_create-cases}

-- The kernels whose arguments have been set, one for each call of clSetKernelArg, the newest first.
pub kernels : List Call → List ℕ
kernels [] = []
kernels (set_kernel_arg kernel index size value ∷ calls) = kernel ∷ kernels calls
kernels (_ ∷ calls) = kernels calls

-- A program does not build, and a buffer is created and written without an error. What OpenCL
-- answers to other calls is open.
pub record IsBroken (d : Driver) (w : Opencl) (r : ActionRequest) : Type 0 where
  pub program :
      d.error w.calls (create_program w.plugin.context r.kernel_source r.kernel_length) ≡ 0
  pub build : (calls : List Call) (of : ℕ) → 0 < d.error calls (build_program of w.plugin.device_id)
  pub buffer :
      (calls : List Call) (size : ℕ)
      → d.error calls (create_buffer w.plugin.context read_only size) ≡ 0
  pub writing :
      (calls : List Call) (mem size : ℕ)
      → d.error calls (enqueue_write_buffer w.plugin.command_queue mem size r.node_local_data) ≡ 0

draft_kernel-kernels :
    (d : Driver) (w : Opencl) (r : ActionRequest) (block : OpenclAction)
    → IsBroken d w r
    → let x = draft_kernel d w r block in
      (x.action.kernel ≡ block.kernel) × (kernels x.calls ≡ kernels w.calls)
unfolding draft_kernel attempt kernels
draft_kernel-kernels d w r block is =
    let creating = create_program w.plugin.context r.kernel_source r.kernel_length in
    let made = is.program in
    let broken = is.build (creating ∷ w.calls) (d.result w.calls creating) in
    ground (arith, made, broken)

draft_data-kernels :
    (d : Driver) (w : Opencl) (r : ActionRequest) (x : Draft)
    → IsBroken d w r
    → 0 < r.node_local_data_size
    → let x' = draft_data d w r x in
      (x'.err ≡ 0) × (x'.action.kernel ≡ x.action.kernel) × (kernels x'.calls ≡ kernels x.calls)
unfolding draft_data attempt kernels
draft_data-kernels d w r x is some_data =
    let creating = create_buffer w.plugin.context read_only r.node_local_data_size in
    let made = is.buffer x.calls r.node_local_data_size in
    let filled =
      is.writing (creating ∷ x.calls) (d.result x.calls creating)
        (to_size (to_int r.node_local_data_size)) in
    ground (arith, made, filled)

attempt-kernels :
    (d : Driver) (kernel index size value err : ℕ) (calls : List Call)
    → kernels (attempt d (set_kernel_arg kernel index size value) 0 err calls).2
      ≡ (if err == 0 then kernel ∷ [] else []) ++ kernels calls
unfolding attempt kernels
attempt-kernels d kernel index size value err calls = ground arith

-- The first of the two calls is made, and the second where that succeeds.
draft_arguments-kernels :
    (d : Driver) (x : Draft)
    → x.err ≡ 0
    → let x' = draft_arguments d x in
      (others : List ℕ) × (kernels x'.calls ≡ others ++ (x.action.kernel ∷ kernels x.calls))
unfolding draft_arguments
draft_arguments-kernels d x none =
    let a = x.action in
    let (set4, e, k) = attempt d (set_kernel_arg a.kernel 4 8 a.node_local_data) 0 x.err x.calls in
    let first = attempt-kernels d a.kernel 4 8 a.node_local_data x.err x.calls in
    let others : List ℕ = if e == 0 then a.kernel ∷ [] else [] in
    (
      others,
      attempt-kernels d a.kernel 5 4 a.node_local_data_size e k
          ∙ ap (λ ks. others ++ ks)
              (first
                ∙ ap (λ (n : ℕ). (if n == 0 then a.kernel ∷ [] else []) ++ kernels x.calls) none),
    )

discard_draft-kernels : (x : Draft) → kernels (discard_draft x) ≡ kernels x.calls
unfolding discard_draft kernels
discard_draft-kernels x = ground arith

-- Where the program is created but does not build, and the buffer for node-local data is created
-- and written, the creation of an action hands OpenCL in a call of clSetKernelArg, as a kernel,
-- what stood in the block that embb_alloc gave, whatever OpenCL answers to that.
pub action_create-stale :
    (d : Driver) (functions : ℕ × ℕ × ℕ) (address : ℕ) (w : Opencl) (r : ActionRequest)
    → IsBroken d w r
    → 0 < r.node_local_data_size
    → (others : List ℕ) × (kernels (action_create d functions address w r).2.calls
        ≡ others ++ ((w.actions address).kernel ∷ kernels w.calls))
unfolding draft
action_create-stale d functions address w r is some_data =
    let block = w.actions address in
    let x = draft_kernel d w r block in
    let (stale, same) = draft_kernel-kernels d w r block is in
    let (none, kept, same') = draft_data-kernels d w r x is some_data in
    let y = draft_data d w r x in
    let (others, set) = draft_arguments-kernels d y none in
    let used : kernels (draft d w r block).calls ≡ others ++ (block.kernel ∷ kernels w.calls) =
      set ∙ λ i. others ++ ((kept ∙ stale) i ∷ (same' ∙ same) i) in
    elim (action_create-cases d functions address w r) [
      | inl (ok, p) ↦ (others, ap (λ (q : Status × Handle × Opencl). kernels q.2.calls) p ∙ used)
      | inr (bad, p) ↦ (
        others,
        ap (λ (q : Status × Handle × Opencl). kernels q.2.calls) p
            ∙ discard_draft-kernels (draft d w r block)
            ∙ used,
      )
    ]
