-- ===== src/Core.antt =====
-- The state of a core that its schedulers share: class `shader_core_ctx` of gpgpu-sim/shader.cc
-- with its warps, barriers, queues and pipeline registers, and `register_set` of
-- abstract_hardware_model.h. What is not in the repository (the scoreboard, the SIMT stacks, the
-- functional simulator, the caches) is a type `E` of states with the operations `Outside`.
pub mod Issue
pub mod Registers
pub mod Sample
mod Tests
use dae_proj.Base.{
  ℕ, zero, suc, ◌+◌, Bool, true, false, not, ◌&&◌, ◌||◌, Option, none, some, List, [], ◌∷◌, map,
  set, get_elem?, length, ltb, ◌==◌, if◌then◌else◌, Result, ok, fault, Fault, ◌>>=◌, ◌>>◌, check,
  access,
}
use dae_proj.Barrier.{BarrierSet, BarInst, warp_waiting_at_barrier}
use dae_proj.Config.{ShaderConfig}
use dae_proj.Port.{Layout, QueueState, QueueInst, can_issue}
use dae_proj.Port.Sides.{rfq_side, smemq_side}
use dae_proj.Scheduler.{
  Op, IssueUnit, mem_unit, sp_unit, int_unit, dp_unit, sfu_unit, tensor_unit, specialized_unit,
}
use dae_proj.Warp.{Warp, functional_done, waiting, waiting_at_mem_barrier}

-- The fields of `warp_inst_t` that an issue reads. `no_threads` says that the mask of the static
-- instruction is empty, and `addr` is the first address of its threads, when it has addresses.
pub record Inst : Type 0 where
  pub pc : ℕ
  pub addr : Option ℕ
  pub isize : ℕ
  pub valid : Bool
  pub op : Op
  pub m_is_cdp : ℕ
  pub rfq : QueueInst
  pub smemq : QueueInst
  pub bar : BarInst
  pub m_is_ldgsts : Bool
  pub no_threads : Bool
  pub m_is_ldgdepbar : Bool
  pub m_is_depbar : Bool
  pub m_depbar_group_no : ℕ

-- An instruction in a pipeline register.
pub record Issued : Type 0 where
  pub inst : Inst
  pub warp_id : ℕ
  pub active_mask : ℕ
  pub schd_id : ℕ

-- A `register_set`: an empty register is `none`.
abbrev pub RegisterSet : Type 0
RegisterSet = List (Option Issued)

-- What `func_exec_inst` leaves: the outside, the data of the queues, the size of the access queue.
pub record Executed (E : Type 0) : Type 0 where
  pub outside : E
  pub rfq : QueueState
  pub smemq : QueueState
  pub accesses : ℕ

pub record Outside (E : Type 0) : Type 0 where
  pub stack_pc : E → ℕ → ℕ
  pub check_collision : E → ℕ → Inst → Bool
  pub pending_writes : E → ℕ → Bool
  pub get_active_mask : E → ℕ → Inst → ℕ
  pub mask_count : ℕ → ℕ
  pub func_exec : E → QueueState → QueueState → Issued → Executed E
  pub invalidate_l1 : E → E
  pub broadcast_reduction : E → ℕ → Inst → E
  pub update_simt_stack : E → Issued → E
  pub reserve_registers : E → Issued → E
  pub event_warp_issued : E → ℕ → ℕ → E
  pub cdp_latency : ℕ → ℕ

-- The configuration of a core, and of the scheduler `m_id` on it.
pub record CoreConfig : Type 0 where
  pub shader : ShaderConfig
  pub sub_core_model : Bool
  pub flush_l1 : Bool
  pub padded_threads_per_cta : ℕ
  pub m_id : ℕ

pub record Core (E : Type 0) : Type 0 where
  pub warps : List (Warp Inst)
  pub barriers : BarrierSet
  pub rfq : QueueState
  pub smemq : QueueState
  pub registers : IssueUnit → RegisterSet
  pub distro : ℕ → ℕ
  pub outside : E

-- The numbers of `exec_unit_type_t`.
abbrev pub exec_type : IssueUnit → ℕ
exec_type sp_unit = 1
exec_type sfu_unit = 2
exec_type mem_unit = 3
exec_type dp_unit = 4
exec_type int_unit = 5
exec_type tensor_unit = 6
exec_type (specialized_unit n) = 7

abbrev spec_id : IssueUnit → ℕ
spec_id (specialized_unit n) = n
spec_id _ = 0

-- The same register set.
abbrev pub same_unit : IssueUnit → IssueUnit → Bool
same_unit u v = (exec_type u == exec_type v) && (spec_id u == spec_id v)

unfoldable pub some_empty : RegisterSet → Bool
some_empty [] = false
some_empty (none ∷ rs) = true
some_empty (some i ∷ rs) = some_empty rs

abbrev register_empty : Option Issued → Bool
register_empty none = true
register_empty (some i) = false

unfoldable pub has_free : Bool → ℕ → RegisterSet → Result Bool
has_free false id rs = ok (some_empty rs)
has_free true id rs = do
  check (ltb id (length rs))
  r ← access (get_elem? rs id)
  ok (register_empty r)

-- The place of the register that `get_free` returns.
unfoldable pub first_empty : RegisterSet → Result ℕ
first_empty [] = fault Fault.assertion
first_empty (none ∷ rs) = ok 0
first_empty (some i ∷ rs) = first_empty rs >>= λ n. ok (suc n)

unfoldable pub get_free : Bool → ℕ → RegisterSet → Result ℕ
get_free false id rs = first_empty rs
get_free true id rs = do
  check (ltb id (length rs))
  r ← access (get_elem? rs id)
  check (register_empty r)
  ok id

module _ {E : Type 0} where
  abbrev pub warp_at : Core E → ℕ → Result (Warp Inst)
  warp_at c i = access (get_elem? c.warps i)

  abbrev pub put_warp : Core E → ℕ → Warp Inst → Core E
  put_warp c i w = record c { warps = set c.warps i w }

  abbrev pub layout_of_core : CoreConfig → Core E → Layout
  layout_of_core g c = record {
    padded_threads_per_cta = g.padded_threads_per_cta;
    warp_ctas = map (λ (w : Warp Inst). w.cta_id) c.warps;
  }

  unfoldable pub rfq_can_issue : CoreConfig → Core E → ℕ → Inst → Bool → Result (Bool × Core E)
  rfq_can_issue g c warp_id inst count_stall = do
    asked ←
        can_issue (rfq_side g.shader) (layout_of_core g c) c.rfq warp_id (some inst.rfq) count_stall
    ok (asked.0, record c { rfq = asked.1 })

  unfoldable pub smemq_can_issue : CoreConfig → Core E → ℕ → Inst → Bool → Result (Bool × Core E)
  smemq_can_issue g c warp_id inst count_stall = do
    asked ←
        can_issue (smemq_side g.shader) (layout_of_core g c) c.smemq warp_id (some inst.smemq)
          count_stall
    ok (asked.0, record c { smemq = asked.1 })

  -- `!checkCollision && wasp_rfq_can_issue && smemq_can_issue`, in this order.
  unfoldable pub passes_scoreboard :
      Outside E → CoreConfig → Core E → ℕ → Inst → Bool → Result (Bool × Core E)
  unfolding rfq_can_issue smemq_can_issue
  passes_scoreboard out g c warp_id inst count_stall =
      if out.check_collision c.outside warp_id inst then ok (false, c) else (do
        first ← rfq_can_issue g c warp_id inst count_stall
        if first.0 then smemq_can_issue g first.1 warp_id inst count_stall else ok (false, first.1))

  -- `shd_warp_t::waiting`, which may end the wait at a memory barrier.
  unfoldable pub warp_waiting : Outside E → CoreConfig → Core E → ℕ → Result (Bool × Core E)
  unfolding waiting_at_mem_barrier
  warp_waiting out g c i = do
    w ← warp_at c i
    if functional_done w || warp_waiting_at_barrier c.barriers w.warp_id then ok (true, c) else (do
      held ← warp_at c w.warp_id
      let asked = waiting_at_mem_barrier (out.pending_writes c.outside w.warp_id) held
      let c1 = put_warp c w.warp_id asked.1
      let freed = held.membar && not asked.0
      let c2 =
          if freed && g.flush_l1 then record c1 { outside = out.invalidate_l1 c1.outside } else c1
      w' ← warp_at c2 i
      ok (waiting false asked.0 w', c2))
