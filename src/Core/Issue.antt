-- ===== src/Core/Issue.antt =====
-- `shader_core_ctx::issue_warp` of gpgpu-sim/shader.cc: what an issue does to the core.
use dae_proj.Base.{
  ℕ, zero, suc, ◌+◌, ◌^◌, ◌%◌, Bool, true, false, not, ◌&&◌, some, List, [], ◌∷◌, ◌++◌, set, length,
  ltb, ◌==◌, if◌then◌else◌, Result, ok, fault, Fault, ◌>>=◌, ◌>>◌, check, non_null, add32, sub32,
  inc64,
}
use dae_proj.Barrier.{warp_reaches_barrier}
use dae_proj.Port.{QueueInst, prepare_issue, after_func_exec, with_accesses}
use dae_proj.Port.Sides.{rfq_side, smemq_side}
use dae_proj.Scheduler.{Op, IssueUnit}
use dae_proj.Warp.{Warp, Copy, no_pc, ibuffer_free}
use dae_proj.Core.{
  Inst, Issued, Outside, Core, CoreConfig, same_unit, get_free, warp_at, put_warp, layout_of_core,
}

-- The last group of the buffer gets one more instruction.
unfoldable pub add_to_last : List (List Copy) → Copy → List (List Copy)
add_to_last [] copy = []
add_to_last (group ∷ []) copy = (group ++ (copy ∷ [])) ∷ []
add_to_last (group ∷ (next ∷ groups)) copy = group ∷ add_to_last (next ∷ groups) copy

-- An LDGSTS joins the group that is open, or opens it.
unfoldable pub note_ldgsts : Warp Inst → Inst → Result (Warp Inst)
note_ldgsts w inst =
    let copy : Copy = record {
      pc = if inst.no_threads then no_pc else inst.pc;
      addr = inst.addr;
    } in
    if not inst.m_is_ldgsts
    then ok w
    else if length w.ldgdepbar_buf == add32 w.ldgdepbar_id 1
    then ok (record w { ldgdepbar_buf = add_to_last w.ldgdepbar_buf copy })
    else check (ltb (length w.ldgdepbar_buf) (add32 w.ldgdepbar_id 1))
      >> ok (record w { ldgdepbar_buf = w.ldgdepbar_buf ++ ((copy ∷ []) ∷ []) })

-- An LDGDEPBAR closes the group, which exists from then on.
unfoldable pub note_ldgdepbar : Warp Inst → Result (Warp Inst)
note_ldgdepbar w =
    let next = record w { ldgdepbar_id = add32 w.ldgdepbar_id 1 } in
    if length w.ldgdepbar_buf == add32 w.ldgdepbar_id 1
    then ok next
    else check (ltb (length w.ldgdepbar_buf) (add32 w.ldgdepbar_id 1))
      >> ok (record next { ldgdepbar_buf = w.ldgdepbar_buf ++ ([] ∷ []) })

unfoldable pub all_finished : List Copy → Bool
all_finished [] = true
all_finished (copy ∷ copies) = (copy.pc == no_pc) && all_finished copies

-- The loop over the first `n` groups, which stops at one that has not finished.
unfoldable pub groups_done : List (List Copy) → ℕ → Result Bool
groups_done groups zero = ok true
groups_done [] (suc n) = fault Fault.bad_access
groups_done (group ∷ groups) (suc n) =
    let rest = groups_done groups n in if all_finished group then rest else ok false

-- A DEPBAR waits for all groups but the last few.
unfoldable pub note_depbar : Warp Inst → Inst → Result (Warp Inst)
note_depbar w inst = do
  done ← groups_done w.ldgdepbar_buf (sub32 w.ldgdepbar_id inst.m_depbar_group_no)
  ok (record w {
    waiting_ldgsts = not done;
    depbar_group = inst.m_depbar_group_no;
    depbar_start_id = sub32 w.ldgdepbar_id 1;
  })

abbrev pub is_barrier : Op → Bool
is_barrier Op.barrier_op = true
is_barrier _ = false

abbrev pub is_memory_barrier : Op → Bool
is_memory_barrier Op.memory_barrier_op = true
is_memory_barrier _ = false

module _ {E : Type 0} (out : Outside E) (g : CoreConfig) where
  -- A warp arrives at a barrier: `i` is what stands in the pipeline register.
  unfoldable pub note_barrier : Core E → Warp Inst → Issued → Result (Core E)
  note_barrier c w i = do
    reached ← warp_reaches_barrier c.barriers w.cta_id i.warp_id i.inst.bar
    let c1 = put_warp c i.warp_id (record w { inst_at_barrier = some i.inst })
    ok (record c1 {
      barriers = reached.0;
      outside = if reached.1 then out.broadcast_reduction c.outside w.cta_id i.inst else c.outside;
    })

  -- The chain of tests on the kind of instruction.
  unfoldable pub note_kind : Core E → Issued → Result (Core E)
  unfolding note_ldgdepbar note_depbar note_barrier
  note_kind c i = warp_at c i.warp_id >>= λ w.
      if is_barrier i.inst.op
      then note_barrier c w i
      else if is_memory_barrier i.inst.op
      then ok (put_warp c i.warp_id (record w { membar = true }))
      else if i.inst.m_is_ldgdepbar
      then (note_ldgdepbar w >>= λ w'. ok (put_warp c i.warp_id w'))
      else if i.inst.m_is_depbar
      then (note_depbar w i.inst >>= λ w'. ok (put_warp c i.warp_id w'))
      else ok c

  abbrev for_warp : QueueInst → ℕ → ℕ → QueueInst
  for_warp q warp_id mask = record q { warp_id = warp_id; active_mask = mask }

  abbrev put_register : Core E → IssueUnit → ℕ → Issued → Core E
  put_register c unit place i = record c {
    registers = λ u. if same_unit u unit then set (c.registers u) place (some i) else c.registers u;
  }

  -- The two halves of an issue that touch the queues, with the execution between them.
  unfoldable pub execute : Core E → Issued → Result (Issued × Core E)
  execute c i = do
    first ← prepare_issue (rfq_side g.shader) (layout_of_core g c) c.rfq (some i.inst.rfq)
    second ← prepare_issue (smemq_side g.shader) (layout_of_core g c) c.smemq (some i.inst.smemq)
    rfq_inst ← non_null first.0
    smemq_inst ← non_null second.0
    let i1 = record i { inst = record (i.inst) { rfq = rfq_inst; smemq = smemq_inst } }
    let done = out.func_exec c.outside first.1 second.1 i1
    rfq ← after_func_exec (rfq_side g.shader) done.rfq (with_accesses done.accesses first.0)
    smemq ← after_func_exec (smemq_side g.shader) done.smemq (with_accesses done.accesses second.0)
    ok (i1, record c { rfq = rfq; smemq = smemq; outside = done.outside })

  -- The warp gives the instruction up, and the issue is counted.
  abbrev pub begun : Core E → Warp Inst → ℕ → ℕ → Core E
  begun c w warp_id mask = record (put_warp c warp_id (ibuffer_free w)) {
    distro = λ k. if k == 2 + out.mask_count mask then inc64 (c.distro k) else c.distro k;
  }

  abbrev pub dynamic_inst : Inst → ℕ → ℕ → Issued
  dynamic_inst inst mask warp_id = record {
    inst = record inst {
      rfq = for_warp inst.rfq warp_id mask;
      smemq = for_warp inst.smemq warp_id mask;
    };
    warp_id = warp_id;
    active_mask = mask;
    schd_id = g.m_id;
  }

  -- What follows the execution; `i` then stands in the register `place`.
  unfoldable pub finish_issue : Core E → IssueUnit → ℕ → Inst → Issued → Result (Core E)
  unfolding note_ldgsts
  finish_issue c unit place inst i = do
    w ← warp_at c i.warp_id
    w1 ← note_ldgsts w inst
    c1 ← note_kind (put_warp c i.warp_id w1) i
    w2 ← warp_at c1 i.warp_id
    ok
        (record (put_register
          (put_warp c1 i.warp_id (record w2 { next_pc = (inst.pc + inst.isize) % 2 ^ 64 })) unit
          place i) { outside = out.reserve_registers (out.update_simt_stack c1.outside i) i })

  unfoldable pub issue_warp : Core E → IssueUnit → Inst → ℕ → ℕ → Result (Core E)
  unfolding finish_issue
  issue_warp c unit inst mask warp_id = do
    place ← get_free g.sub_core_model g.m_id (c.registers unit)
    w ← warp_at c warp_id
    check inst.valid
    run ← execute (begun c w warp_id mask) (dynamic_inst inst mask warp_id)
    finish_issue run.1 unit place inst run.0
