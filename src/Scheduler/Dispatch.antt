-- ===== src/Scheduler/Dispatch.antt =====
-- The turn of one warp in `scheduler_unit::cycle` of gpgpu-sim/shader.cc: on which unit its next
-- instruction is issued, and the loop that issues up to `gpgpu_max_insn_issue_per_warp` of them.
use dae_proj.Base.{
  ℕ, zero, suc, ◌+◌, ◌-◌, Bool, true, false, not, ◌&&◌, ◌||◌, Option, none, some, get_elem?, length,
  ltb, leb, ◌==◌, if◌then◌else◌, Result, ok, ◌>>=◌, ◌>>◌, check, access, add32, mul32,
}
use dae_proj.Core.{
  Inst, Outside, Core, has_free, exec_type, warp_at, put_warp, warp_waiting, passes_scoreboard,
}
use dae_proj.Core.Issue.{issue_warp}
use dae_proj.Scheduler.{
  Op, barrier_op, memory_barrier_op, load_op, store_op, tensor_core_load_op, tensor_core_store_op,
  tensor_core_op, sfu_op, alu_sfu_op, dp_op, sp_op, other_op, spec_op, IssueUnit, mem_unit, sp_unit,
  int_unit, dp_unit, sfu_unit, tensor_unit, specialized_unit,
}
use dae_proj.Scheduler.Coissue.{SchedConfig, do_on_warp_issued}
use dae_proj.Warp.{Warp, no_valid, ibuffer_next, ibuffer_flush}

-- The branches of `cycle` over `pI->op`. A barrier goes with the plain operations, and
-- `ALU_SFU_OP` too, since their test comes before that of the SFU.
pub data Route : Type 0 where
  to_mem to_dp to_sfu to_tensor : Route
  to_plain : Bool → Route
  to_specialized : ℕ → Route

unfoldable pub route_of : Op → Route
route_of load_op = to_mem
route_of store_op = to_mem
route_of memory_barrier_op = to_mem
route_of tensor_core_load_op = to_mem
route_of tensor_core_store_op = to_mem
route_of dp_op = to_dp
route_of sfu_op = to_sfu
route_of tensor_core_op = to_tensor
route_of (spec_op n) = to_specialized n
route_of sp_op = to_plain true
route_of barrier_op = to_plain false
route_of alu_sfu_op = to_plain false
route_of other_op = to_plain false

-- How far the turn of a warp has come. `previous` is the `exec_unit_type_t` of the instruction
-- issued before, 0 at first, and `stopped` that the loop was left by a `break`.
pub record Turn (E : Type 0) : Type 0 where
  pub core : Core E
  pub checked : ℕ
  pub issued : ℕ
  pub previous : ℕ
  pub valid_inst : Bool
  pub ready_inst : Bool
  pub issued_inst : Bool
  pub stopped : Bool

module _ {E : Type 0} (out : Outside E) (g : SchedConfig) where
  -- The units may have to differ.
  abbrev pub differs : ℕ → IssueUnit → Bool
  differs previous u = not (g.dual_issue_diff_exec_units && (previous == exec_type u))

  -- There are `n` units behind the register set, and it has room.
  unfoldable pub pipe_avail : Core E → ℕ → IssueUnit → Result Bool
  pipe_avail c n u =
      if n == 0 then ok false else has_free g.core.sub_core_model g.core.m_id (c.registers u)

  abbrev choose : Bool → IssueUnit → Option IssueUnit
  choose b u = if b then some u else none

  unfoldable pub plain_unit : Core E → ℕ → Bool → Result (Option IssueUnit)
  unfolding pipe_avail
  plain_unit c previous is_sp = do
    sp_avail ← pipe_avail c g.num_sp_units sp_unit
    int_avail ← pipe_avail c g.num_int_units int_unit
    ok (
        if ltb 0 g.num_int_units && int_avail && not is_sp && differs previous int_unit
        then some int_unit
        else choose (sp_avail && (g.num_int_units == 0 || is_sp) && differs previous sp_unit)
            sp_unit)

  -- One unit and no other comes into question.
  unfoldable pub only_unit : Core E → ℕ → ℕ → IssueUnit → Result (Option IssueUnit)
  unfolding pipe_avail
  only_unit c previous n u =
      if differs previous u then (pipe_avail c n u >>= λ b. ok (choose b u)) else ok none

  -- The unit on which an instruction is issued; `none` when it has to wait.
  unfoldable pub unit_for : Core E → ℕ → Route → Result (Option IssueUnit)
  unfolding plain_unit only_unit
  unit_for c previous to_mem = do
    room ← has_free g.core.sub_core_model g.core.m_id (c.registers mem_unit)
    ok (choose (room && differs previous mem_unit) mem_unit)
  unit_for c previous (to_plain is_sp) = plain_unit c previous is_sp
  unit_for c previous to_dp =
      if ltb 0 g.num_dp_units
      then only_unit c previous g.num_dp_units dp_unit
      else only_unit c previous g.num_sfu_units sfu_unit
  unit_for c previous to_sfu = only_unit c previous g.num_sfu_units sfu_unit
  unit_for c previous to_tensor = only_unit c previous g.num_tensor_core_units tensor_unit
  unit_for c previous (to_specialized n) =
      if differs previous (specialized_unit n)
      then (do
        check (ltb n (length g.specialized_units))
        num_units ← access (get_elem? g.specialized_units n)
        only_unit c previous num_units (specialized_unit n))
      else ok none

  -- The latency of a call of the CUDA dynamic parallelism API.
  abbrev cdp_cost : ℕ → ℕ → ℕ
  cdp_cost kind mask =
      if kind == 1
      then out.cdp_latency 0
      else add32 (out.cdp_latency (kind - 1)) (mul32 (out.cdp_latency kind) (out.mask_count mask))

  -- The instruction is issued, and the warp goes on to its next one.
  unfoldable pub issue_on : Turn E → ℕ → Inst → ℕ → IssueUnit → Result (Turn E)
  issue_on t warp_id inst mask u = do
    c ← issue_warp out g.core t.core u inst mask warp_id
    c' ← do_on_warp_issued out g c warp_id (t.issued + 1)
    ok (record t {
      core = c';
      checked = t.checked + 1;
      issued = t.issued + 1;
      previous = exec_type u;
      issued_inst = true;
    })

  abbrev is_plain : Route → Bool
  is_plain (to_plain is_sp) = true
  is_plain _ = false

  -- A plain instruction of the CDP API first waits for its latency, as a dummy.
  unfoldable pub issue_chosen : Turn E → ℕ → Inst → ℕ → Option IssueUnit → Result (Turn E)
  unfolding issue_on
  issue_chosen t warp_id inst mask none = ok (record t { checked = t.checked + 1 })
  issue_chosen t warp_id inst mask (some u) =
      if inst.m_is_cdp == 0 || not (is_plain (route_of inst.op))
      then issue_on t warp_id inst mask u
      else (do
        w ← warp_at t.core warp_id
        check (w.cdp_latency == 0)
        if w.cdp_dummy
            then issue_on
                (record t { core = put_warp t.core warp_id (record w { cdp_dummy = false }) })
                warp_id inst mask u
            else ok (record t {
              core =
                  put_warp t.core warp_id
                    (record w { cdp_latency = cdp_cost inst.m_is_cdp mask; cdp_dummy = true });
              stopped = true;
            }))

  -- The instruction stands where the SIMT stack says.
  unfoldable pub try_inst : Turn E → ℕ → Inst → Result (Turn E)
  unfolding unit_for issue_chosen
  try_inst t warp_id inst = do
    passed ← passes_scoreboard out g.core t.core warp_id inst true
    let t1 = record t { core = passed.1; valid_inst = true }
    if not passed.0 then ok (record t1 { checked = t.checked + 1 }) else (do
      w ← warp_at passed.1 warp_id
      check (ltb 0 w.inst_in_pipeline)
      u ← unit_for passed.1 t.previous (route_of inst.op)
      issue_chosen (record t1 { ready_inst = true }) warp_id inst
          (out.get_active_mask passed.1.outside warp_id inst) u)

  -- A control hazard, or the return of a diverged warp: the buffer is flushed.
  unfoldable pub flush_warp : Turn E → ℕ → Result (Turn E)
  flush_warp t warp_id = do
    w ← warp_at t.core warp_id
    w' ← ibuffer_flush (record w { next_pc = out.stack_pc t.core.outside warp_id })
    ok (record t { core = put_warp t.core warp_id w'; checked = t.checked + 1 })

  abbrev pub after_slot : Turn E → ℕ → Warp Inst → Option Inst → Bool → Result (Turn E)
  after_slot t warp_id w none valid =
      if valid then flush_warp t warp_id else ok (record t { checked = t.checked + 1 })
  after_slot t warp_id w (some inst) valid =
      if not (inst.m_is_cdp == 0) && ltb 0 w.cdp_latency
      then (check w.cdp_dummy
          >> ok (record t {
            core = put_warp t.core warp_id (record w { cdp_latency = w.cdp_latency - 1 });
            stopped = true;
          }))
      else check valid
        >> (if out.stack_pc t.core.outside warp_id == inst.pc
            then try_inst t warp_id inst
            else flush_warp t warp_id)

  -- One round of the `while` loop.
  unfoldable pub one_round : Turn E → ℕ → Result (Turn E)
  unfolding try_inst flush_warp
  one_round t warp_id = do
    w ← warp_at t.core warp_id
    e ← ibuffer_next w
    after_slot t warp_id w e.inst e.valid

  -- The condition of the loop: `waiting()`, which may change the core, comes first.
  unfoldable pub may_go_on : Turn E → ℕ → Result (Bool × Turn E)
  may_go_on t warp_id = do
    waits ← warp_waiting out g.core t.core warp_id
    w ← warp_at waits.1 warp_id
    ok (
      not waits.0
          && not (no_valid w.ibuffer)
          && ltb t.checked g.max_insn_issue_per_warp
          && leb t.checked t.issued
          && ltb t.issued g.max_insn_issue_per_warp
          && not t.stopped,
      record t { core = waits.1 },
    )

  -- At most `n` rounds.
  unfoldable pub warp_turn : ℕ → Turn E → ℕ → Result (Turn E)
  unfolding one_round may_go_on
  warp_turn zero t warp_id = may_go_on t warp_id >>= λ asked. ok asked.1
  warp_turn (suc n) t warp_id = may_go_on t warp_id >>= λ asked.
      if not asked.0
      then ok asked.1
      else (one_round asked.1 warp_id >>= λ t'.
          if t'.stopped then ok t' else warp_turn n t' warp_id)
