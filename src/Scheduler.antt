-- ===== src/Scheduler.antt =====
-- Parts of `scheduler_unit` in gpgpu-sim/shader.cc: the loose round robin order, the classes of
-- warps, and the unit that an instruction issues to. An iterator is an index, `end()` the length;
-- whether a register set has room (`has_free`) is a parameter.
pub mod Order
pub mod Rotate
pub mod Coissue
pub mod Dispatch
pub mod Cycle
pub mod Pairs
pub mod Collected
pub mod Buffered
pub mod Coissued
pub mod Turns
pub mod Routes
mod Tests
use dae_proj.Base.{
  ℕ, zero, suc, ◌+◌, ◌/◌, ◌%◌, Bool, true, false, not, ◌&&◌, ◌||◌, Option, none, some, List, [],
  ◌∷◌, length, get_elem?, ltb, leb, ◌==◌, if◌then◌else◌, Result, ok, fault, Fault, ◌>>=◌, ◌>>◌,
  check, access, inc64,
}
use dae_proj.Config.{ShaderConfig}
use dae_proj.Port.{nonzero_or}
use dae_proj.Port.Sides.{wasp_rfq_enabled}

-- `n` rounds of the loop of `order_lrr`, from the iterator on.
unfoldable pub lrr_loop {ℓ} : {A : Type ℓ} → List A → ℕ → ℕ → Result (List A)
lrr_loop input iter zero = ok []
lrr_loop input iter (suc n) =
    let at = if iter == length input then 0 else iter in
    let rest = lrr_loop input (at + 1) n in
    access (get_elem? input at) >>= λ x. rest >>= λ xs. ok (x ∷ xs)

unfoldable pub order_lrr {ℓ} : {A : Type ℓ} → List A → ℕ → ℕ → Result (List A)
order_lrr input last num_warps_to_add = do
  check (leb num_warps_to_add (length input))
  lrr_loop input (if last == length input then 0 else last + 1) num_warps_to_add

abbrev scheduler_producers : ShaderConfig → ℕ → ℕ
scheduler_producers c warps_per_cta =
    if c.smemq_enable && not (c.smemq.metadata_producer_warps_per_cta == 0)
    then c.smemq.metadata_producer_warps_per_cta
    else if wasp_rfq_enabled c && not (c.rfq.metadata_producer_warps_per_cta == 0)
    then c.rfq.metadata_producer_warps_per_cta
    else warps_per_cta / 2

-- The second number is `kernel_padded_threads_per_cta`.
unfoldable pub is_wasp_producer_warp : ShaderConfig → ℕ → ℕ → Result Bool
is_wasp_producer_warp c padded warp_id = do
  let warps_per_cta = nonzero_or (padded / c.warp_size) 8
  let producer_warps = nonzero_or (scheduler_producers c warps_per_cta) 1
  check (ltb producer_warps warps_per_cta)
  ok (ltb (warp_id % warps_per_cta) producer_warps)

unfoldable pub is_wasp_consumer_warp : ShaderConfig → ℕ → ℕ → Result Bool
unfolding is_wasp_producer_warp
is_wasp_consumer_warp c padded warp_id = do
  producer ← is_wasp_producer_warp c padded warp_id
  ok (not producer)

pub data CoissueFail : Type 0 where
  fail_none fail_scoreboard fail_fu_conflict fail_lsu_lsu_conflict fail_structural : CoissueFail
  fail_dispatch_port fail_result_bus : CoissueFail

-- The counters `pc_coissue_fail_*` of the core's statistics.
pub record CoissueStats : Type 0 where
  pub scoreboard : ℕ
  pub fu_conflict : ℕ
  pub lsu_lsu_conflict : ℕ
  pub structural_conflict : ℕ
  pub dispatch_port : ℕ
  pub result_bus : ℕ

abbrev pub record_pc_coissue_fail : CoissueStats → CoissueFail → CoissueStats
record_pc_coissue_fail s fail_scoreboard = record s { scoreboard = inc64 s.scoreboard }
record_pc_coissue_fail s fail_fu_conflict = record s { fu_conflict = inc64 s.fu_conflict }
record_pc_coissue_fail s fail_lsu_lsu_conflict = record s {
  lsu_lsu_conflict = inc64 s.lsu_lsu_conflict;
  fu_conflict = inc64 s.fu_conflict;
}
record_pc_coissue_fail s fail_structural = record s {
  structural_conflict = inc64 s.structural_conflict;
}
record_pc_coissue_fail s fail_dispatch_port = record s { dispatch_port = inc64 s.dispatch_port }
record_pc_coissue_fail s fail_result_bus = record s { result_bus = inc64 s.result_bus }
record_pc_coissue_fail s fail_none = s

-- `op_type`: `spec_op n` is `SPEC_UNIT_START_ID + n`, and `other_op` an operation that
-- `classify_issue_target` does not name.
pub data Op : Type 0 where
  barrier_op memory_barrier_op load_op store_op tensor_core_load_op tensor_core_store_op : Op
  tensor_core_op sfu_op alu_sfu_op dp_op sp_op other_op : Op
  spec_op : ℕ → Op

pub data IssueUnit : Type 0 where
  mem_unit sp_unit int_unit dp_unit sfu_unit tensor_unit : IssueUnit
  specialized_unit : ℕ → IssueUnit

pub record Units : Type 0 where
  pub num_sp_units : ℕ
  pub num_int_units : ℕ
  pub num_dp_units : ℕ
  pub num_specialized : ℕ

-- A plain operation: to an integer unit when there are any, and otherwise to an SP unit.
abbrev plain_target : Units → Bool → Option IssueUnit
plain_target u is_sp =
    if ltb 0 u.num_int_units && not is_sp
    then some int_unit
    else if ltb 0 u.num_sp_units && (u.num_int_units == 0 || is_sp)
    then some sp_unit
    else none

unfoldable pub target_of : Units → Bool → Op → Result (Option IssueUnit)
target_of u true op = ok none
target_of u false barrier_op = ok none
target_of u false memory_barrier_op = ok none
target_of u false load_op = ok (some mem_unit)
target_of u false store_op = ok (some mem_unit)
target_of u false tensor_core_load_op = ok (some mem_unit)
target_of u false tensor_core_store_op = ok (some mem_unit)
target_of u false sp_op = ok (plain_target u true)
target_of u false alu_sfu_op = ok (plain_target u false)
target_of u false other_op = ok (plain_target u false)
target_of u false dp_op = ok (if ltb 0 u.num_dp_units then some dp_unit else some sfu_unit)
target_of u false sfu_op = ok (some sfu_unit)
target_of u false tensor_core_op = ok (some tensor_unit)
target_of u false (spec_op n) = check (ltb n u.num_specialized) >> ok (some (specialized_unit n))

abbrev has_room : (IssueUnit → Bool) → Option IssueUnit → Bool
has_room has_free none = false
has_room has_free (some k) = has_free k

-- `*out` and `*exec_type` are the unit, `NULL` is `none`; the Boolean is what is returned. The
-- first Boolean is `m_is_cdp`.
unfoldable pub classify_issue_target :
    Units → (IssueUnit → Bool) → Bool → Op → Result (Option IssueUnit × Bool)
unfolding target_of
classify_issue_target u has_free is_cdp op = do
  target ← target_of u is_cdp op
  ok (target, has_room has_free target)

-- The scan of `order_rrr`: the first of `n` warps, from the iterator on, that can run.
unfoldable pub rrr_scan : (ℕ → Bool) → List ℕ → ℕ → ℕ → Result (Option ℕ)
rrr_scan idle input iter zero = ok none
rrr_scan idle input iter (suc n) =
    let at = if iter == length input then 0 else iter in
    let rest = rrr_scan idle input (at + 1) n in
    access (get_elem? input at) >>= λ warp_id. if idle warp_id then rest else ok (some warp_id)

abbrev one_turn : ℕ → Option ℕ → List ℕ × ℕ
one_turn current none = ([], current)
one_turn current (some warp_id) = (warp_id ∷ [], warp_id)

-- Warps by their ids; `idle` says that a warp is done or waits. The number returned beside the
-- order is `m_current_turn_warp`.
unfoldable pub order_rrr : (ℕ → Bool) → ℕ → ℕ → List ℕ → ℕ → ℕ → Result (List ℕ × ℕ)
order_rrr idle num_issued_last_cycle current input last num_warps_to_add =
    if ltb 0 num_issued_last_cycle || idle current
    then (do
      found ← rrr_scan idle input (if last == length input then 0 else last + 1) num_warps_to_add
      ok (one_turn current found))
    else ok (current ∷ [], current)

pub data OrderingType : Type 0 where
  greedy_then_priority priority_only unknown_ordering : OrderingType

-- The loop over the first `n` of the sorted warps.
unfoldable pub first_of {ℓ} : {A : Type ℓ} → ℕ → List A → Result (List A)
first_of zero xs = ok []
first_of (suc n) [] = fault Fault.bad_access
first_of (suc n) (x ∷ xs) = first_of n xs >>= λ ys. ok (x ∷ ys)

unfoldable pub leave_out {ℓ} : {A : Type ℓ} → (A → Bool) → List A → List A
leave_out test [] = []
leave_out test (x ∷ xs) = if test x then leave_out test xs else x ∷ leave_out test xs

-- `same` compares two warps, and `sort` is `std::sort` by the priority function.
unfoldable pub order_by_priority {ℓ} :
    {A : Type ℓ}
    → (A → A → Bool)
    → (List A → List A)
    → List A
    → ℕ
    → ℕ
    → OrderingType
    → Result (List A)
order_by_priority same sort input last n greedy_then_priority = do
  check (leb n (length input))
  greedy ← access (get_elem? input last)
  rest ← first_of n (sort input)
  ok (greedy ∷ leave_out (same greedy) rest)
order_by_priority same sort input last n priority_only = do
  check (leb n (length input))
  first_of n (sort input)
order_by_priority same sort input last n unknown_ordering = do
  check (leb n (length input))
  fault Fault.aborted
