-- ===== src/Core/Tests.antt =====
-- A core of gpgpu-sim/shader.cc at concrete inputs.
use dae_proj.Base.{◌≡◌, refl, none, some, [], ◌∷◌, get_elem?, ok}
use dae_proj.Core.{Core, Inst, Issued, RegisterSet, get_free, first_empty}
use dae_proj.Warp.{Warp}
use dae_proj.Core.Issue.{
  begun, dynamic_inst, issue_warp, execute, finish_issue, note_kind, note_ldgsts,
}
use dae_proj.Core.Registers.{PreparedAs, with_queues, PutBy, issue_warp-registers}
use dae_proj.Core.Sample.{small_core, small_config, nothing_outside, plain_inst, value_or}
use dae_proj.Port.{QueueInst, prepare_issue, after_func_exec}
use dae_proj.Scheduler.{Op, IssueUnit}

abbrev load_inst_of : Issued
load_inst_of = record { inst = plain_inst Op.load_op 64; warp_id = 0; active_mask = 1; schd_id = 0 }

abbrev second_free : RegisterSet
second_free = some load_inst_of ∷ (none ∷ [])

abbrev after_load : Core (Unit {0})
unfolding issue_warp execute finish_issue note_kind note_ldgsts get_free first_empty prepare_issue
    after_func_exec
after_load =
    value_or
      (issue_warp nothing_outside small_config small_core IssueUnit.mem_unit
        (plain_inst Op.load_op 64) 1 0)
      small_core

load_issues :
    issue_warp nothing_outside small_config small_core IssueUnit.mem_unit
      (plain_inst Op.load_op 64)
      1
      0
    ≡ ok after_load
unfolding issue_warp execute finish_issue note_kind note_ldgsts get_free first_empty prepare_issue
    after_func_exec after_load
load_issues = refl

issue_warp-registers_example :
    (w : Warp Inst) × (rfq : QueueInst) × (smemq : QueueInst) × (get_elem? small_core.warps 0
      ≡ some w)
    × PreparedAs nothing_outside small_config
        (begun nothing_outside small_config small_core w 0 1)
        (dynamic_inst nothing_outside small_config (plain_inst Op.load_op 64) 1 0)
        rfq
        smemq
    × PutBy nothing_outside small_config small_core.registers IssueUnit.mem_unit
        (with_queues nothing_outside small_config
          (dynamic_inst nothing_outside small_config (plain_inst Op.load_op 64) 1 0)
          rfq
          smemq)
        after_load.registers
issue_warp-registers_example =
    issue_warp-registers nothing_outside small_config small_core after_load IssueUnit.mem_unit
      (plain_inst Op.load_op 64) 1 0 load_issues
