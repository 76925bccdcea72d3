-- ===== src/Scheduler/Routes.antt =====
-- The two places of gpgpu-sim/shader.cc that choose a unit for an instruction agree:
-- `classify_issue_target`, for a co-issue, and the branches of `cycle`.
use dae_proj.Base.{
  ℕ, ◌<◌, ◌≡◌, inl, inr, Bool, false, Option, Option-cases, none, some, get_elem?, length,
  get_elem?-eq-get_or, lt-length_of_get_elem?, ok, if◌then◌else◌, arith,
}
use dae_proj.Core.{Outside, Core, has_free}
use dae_proj.Core.Issue.{is_barrier, is_memory_barrier}
use dae_proj.Scheduler.{
  Op, barrier_op, memory_barrier_op, load_op, store_op, tensor_core_load_op, tensor_core_store_op,
  tensor_core_op, sfu_op, alu_sfu_op, dp_op, sp_op, other_op, spec_op, IssueUnit,
  classify_issue_target, target_of,
}
use dae_proj.Scheduler.Coissue.{SchedConfig, units_of}
use dae_proj.Scheduler.Dispatch.{route_of, unit_for, plain_unit, only_unit, pipe_avail}

module _ {E : Type 0} (out : Outside E) (g : SchedConfig) where
  -- Every kind of unit that `cycle` counts and `classify_issue_target` does not is there.
  pub record Equipped : Type 0 where
    pub sfu : 0 < g.num_sfu_units
    pub tensor : 0 < g.num_tensor_core_units
    pub special : (n k : ℕ) → get_elem? g.specialized_units n ≡ some k → 0 < k

  -- What `has_free` says of each register set.
  abbrev pub Room : Core E → (IssueUnit → Bool) → Type 0
  Room c room =
      (u : IssueUnit) → has_free g.core.sub_core_model g.core.m_id (c.registers u) ≡ ok (room u)

  -- When there is a special function unit, a tensor core and a unit behind each specialized
  -- kind, and room is what has_free says, an instruction that is no barrier, no memory
  -- barrier and no call of the CDP API, and that is the first of its warp in the cycle, is
  -- issued by cycle exactly when classify_issue_target accepts it, and on the unit that
  -- classify_issue_target names.
  pub unit_for-classify_issue_target :
      (c : Core E) (room : IssueUnit → Bool) (op : Op) (target : Option IssueUnit) (b : Bool)
      → Equipped
      → Room c room
      → is_barrier op ≡ false
      → is_memory_barrier op ≡ false
      → classify_issue_target (units_of g) room false op ≡ ok (target, b)
      → unit_for out g c 0 (route_of op) ≡ ok (if b then target else none)
  unfolding classify_issue_target target_of unit_for plain_unit only_unit pipe_avail route_of
  unit_for-classify_issue_target c room barrier_op target b q r nb nm h = ground (arith, nb)
  unit_for-classify_issue_target c room memory_barrier_op target b q r nb nm h = ground (arith, nm)
  unit_for-classify_issue_target c room load_op target b q r nb nm h =
      ground (arith, h, r IssueUnit.mem_unit)
  unit_for-classify_issue_target c room store_op target b q r nb nm h =
      ground (arith, h, r IssueUnit.mem_unit)
  unit_for-classify_issue_target c room tensor_core_load_op target b q r nb nm h =
      ground (arith, h, r IssueUnit.mem_unit)
  unit_for-classify_issue_target c room tensor_core_store_op target b q r nb nm h =
      ground (arith, h, r IssueUnit.mem_unit)
  unit_for-classify_issue_target c room tensor_core_op target b q r nb nm h =
      ground (arith, h, q.tensor, r IssueUnit.tensor_unit)
  unit_for-classify_issue_target c room sfu_op target b q r nb nm h =
      ground (arith, h, q.sfu, r IssueUnit.sfu_unit)
  unit_for-classify_issue_target c room alu_sfu_op target b q r nb nm h =
      ground (arith, h, r IssueUnit.sp_unit, r IssueUnit.int_unit)
  unit_for-classify_issue_target c room dp_op target b q r nb nm h =
      ground (arith, h, q.sfu, r IssueUnit.dp_unit, r IssueUnit.sfu_unit)
  unit_for-classify_issue_target c room sp_op target b q r nb nm h =
      ground (arith, h, r IssueUnit.sp_unit, r IssueUnit.int_unit)
  unit_for-classify_issue_target c room other_op target b q r nb nm h =
      ground (arith, h, r IssueUnit.sp_unit, r IssueUnit.int_unit)
  unit_for-classify_issue_target c room (spec_op n) target b q r nb nm h =
      elim (Option-cases (get_elem? g.specialized_units n)) [
        | inl e ↦
            let inside : n < length g.specialized_units = ground (arith, h) in
            absurd (ground (arith, e, get_elem?-eq-get_or g.specialized_units n 0 inside))
        | inr (k, e) ↦
            let p = q.special n k e in
            let inside = lt-length_of_get_elem? g.specialized_units n k e in
            ground (arith, h, p, inside, e, r (IssueUnit.specialized_unit n))
      ]
