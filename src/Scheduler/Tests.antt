-- ===== src/Scheduler/Tests.antt =====
-- The classes of warps of gpgpu-sim/shader.cc at concrete inputs.
use dae_proj.Base.{
  List, ◌≡◌, ◌≢◌, ◌⊎◌, ◌≤◌, ◌%◌, refl, true, false, [], ◌∷◌, ◌++◌, ℕ, ok, ◌>>=◌, ◌-◌, Bool, none,
  some, arith, if◌then◌else◌,
}
use dae_proj.Config.{ShaderConfig, QueueBudget}
use dae_proj.Core.{
  exec_type, has_free, some_empty, get_free, first_empty, warp_waiting, passes_scoreboard,
  rfq_can_issue, smemq_can_issue,
}
use dae_proj.Core.Issue.{issue_warp, execute, finish_issue, note_kind, note_ldgsts}
use dae_proj.Core.Sample.{small_core, small_config, nothing_outside, plain_inst, value_or}
use dae_proj.Port.{Layout, key_for_warp, can_issue, prepare_issue, after_func_exec}
use dae_proj.Port.Pairing.{warps_in_cta, producers_in_cta, queue_key}
use dae_proj.Port.Sides.{rfq_side}
use dae_proj.Scheduler.{
  is_wasp_producer_warp, is_wasp_consumer_warp, order_lrr, IssueUnit, Op, CoissueFail, CoissueStats,
  classify_issue_target, target_of,
}
use dae_proj.Scheduler.Coissue.{
  SchedConfig, SchedStats, Sched, Candidate, find_pair, obstacle, issue_pair, try_pc_coissue,
  pair_with, candidate_of, classified, coissue, collect_all, collect_issue_candidate,
  find_supervised, next_of_warp, room_at, sort_candidate, do_on_warp_issued,
}
use dae_proj.Scheduler.Buffered.{Buffers}
use dae_proj.Scheduler.Coissued.{PairPut, try_pc_coissue-pair}
use dae_proj.Scheduler.Dispatch.{
  Turn, unit_for, route_of, warp_turn, may_go_on, one_round, try_inst, plain_unit, only_unit,
  pipe_avail, issue_chosen, issue_on,
}
use dae_proj.Scheduler.Routes.{Equipped, Room, unit_for-classify_issue_target}
use dae_proj.Scheduler.Turns.{warp_turn-bounded}
use dae_proj.Warp.{functional_done, waiting, waiting_at_mem_barrier, no_valid}
use dae_proj.Scheduler.Rotate.{order_lrr-rotates}
use dae_proj.Scheduler.Order.{is_wasp_producer_warp-side}

abbrev first_ids : List ℕ
first_ids = 40 ∷ 30 ∷ []

abbrev halves : QueueBudget
halves = record {
  model_data = true;
  entries = 4;
  metadata_producer_warps_per_cta = 0;
  metadata_payload_words_per_lane = 3;
  metadata_queues_per_original_warp = 1;
}

abbrev rfq_core : ShaderConfig
rfq_core = record {
  warp_size = 32;
  n_thread_per_shader = 2048;
  shmem_size = 65536;
  shader_registers = 65536;
  max_cta_per_core = 32;
  num_shader = 1;
  adaptive_cache_config = false;
  shmem_opt_list = [];
  m_unified_cache_size = 0;
  ignore_resources_limitation = false;
  concurrent_kernel_sm = false;
  wasp_enable = true;
  rfq_enable = true;
  rfq_count_register_pressure = true;
  rfq = halves;
  smemq_enable = false;
  smemq = halves;
}

abbrev eight_warps : Layout
eight_warps = record { padded_threads_per_cta = 256; warp_ctas = 0 ∷ 0 ∷ 0 ∷ 1 ∷ 1 ∷ 1 ∷ [] }

is_wasp_producer_warp-side_example : key_for_warp (rfq_side rfq_core) eight_warps 5 2 ≡ (
    is_wasp_producer_warp rfq_core 256 5 >>= λ producer. ok (
      queue_key 1
        (5 % warps_in_cta (rfq_side rfq_core) eight_warps
          - (if producer then 0 else producers_in_cta (rfq_side rfq_core) eight_warps))
        2))
is_wasp_producer_warp-side_example =
    is_wasp_producer_warp-side rfq_core eight_warps 5 2 1 refl refl refl

order_lrr-rotates_example :
    order_lrr (first_ids ++ (20 ∷ (10 ∷ []))) 2 4 ≡ ok ((10 ∷ []) ++ (first_ids ++ (20 ∷ [])))
order_lrr-rotates_example = order_lrr-rotates first_ids (10 ∷ []) 20

abbrev small_sched_config : SchedConfig
small_sched_config = record {
  core = small_config;
  num_sp_units = 1;
  num_int_units = 1;
  num_dp_units = 1;
  num_sfu_units = 1;
  num_tensor_core_units = 1;
  specialized_units = [];
  wasp_pc_coissue_enable = true;
  max_insn_issue_per_warp = 1;
  dual_issue_diff_exec_units = true;
}

abbrev no_fails : CoissueStats
no_fails = record {
  scoreboard = 0;
  fu_conflict = 0;
  lsu_lsu_conflict = 0;
  structural_conflict = 0;
  dispatch_port = 0;
  result_bus = 0;
}

abbrev no_stats : SchedStats
no_stats = record {
  eligible_warp_count = 0;
  eligible_warp_slot_count = 0;
  eligible_warp_sample_count = 0;
  coissue_attempts = 0;
  coissue_fails = no_fails;
  coissue_success = 0;
  single_issue_nums = 0;
  dual_issue_nums = 0;
  total_issue_count = 0;
  single_issue_count = 0;
  dual_issue_count = 0;
  single_issue_fallback = 0;
  same_warp_dual_issue_fallback = 0;
}

abbrev small_sched : Sched (Unit {0})
small_sched = record {
  core = small_core;
  supervised = some 0 ∷ (some 1 ∷ []);
  prioritized = some 0 ∷ (some 1 ∷ []);
  last_supervised_issued = 2;
  num_issued_last_cycle = 0;
  stats = no_stats;
}

abbrev candidate : Bool → ℕ → IssueUnit → Candidate
candidate ready warp_id unit = record {
  ready = ready;
  warp_id = warp_id;
  inst = plain_inst Op.load_op 64;
  active_mask = 1;
  unit = some unit;
  fail_reason = CoissueFail.fail_none;
}

abbrev two_loads : List Candidate
two_loads = candidate true 0 IssueUnit.mem_unit ∷ []

abbrev load_and_add : List Candidate
load_and_add = candidate true 1 IssueUnit.mem_unit ∷ (candidate true 2 IssueUnit.int_unit ∷ [])

abbrev IsReady : Candidate → Type 0
IsReady k = k.ready ≡ true

small-Room : Room nothing_outside small_sched_config small_core (λ u. true)
unfolding has_free some_empty
small-Room = λ u. refl

small-Equipped : Equipped nothing_outside small_sched_config
small-Equipped = record {
  sfu = ground arith;
  tensor = ground arith;
  special = λ n k h. absurd (ground (arith, h));
}

unit_for-classify_issue_target_example :
    unit_for nothing_outside small_sched_config small_core 0 (route_of Op.load_op)
    ≡ ok (if true then some IssueUnit.mem_unit else none)
unfolding classify_issue_target target_of
unit_for-classify_issue_target_example =
    unit_for-classify_issue_target nothing_outside small_sched_config small_core (λ u. true)
      Op.load_op (some IssueUnit.mem_unit) true small-Equipped small-Room refl refl refl

abbrev start_of_turn : Turn (Unit {0})
start_of_turn = record {
  core = small_core;
  checked = 0;
  issued = 0;
  previous = 0;
  valid_inst = false;
  ready_inst = false;
  issued_inst = false;
  stopped = false;
}

abbrev end_of_turn : Turn (Unit {0})
unfolding warp_turn
end_of_turn =
    value_or (warp_turn nothing_outside small_sched_config 1 start_of_turn 0) start_of_turn

turn_runs : warp_turn nothing_outside small_sched_config 1 start_of_turn 0 ≡ ok end_of_turn
unfolding warp_turn end_of_turn one_round may_go_on try_inst unit_for plain_unit only_unit
    pipe_avail route_of issue_chosen issue_on warp_waiting waiting_at_mem_barrier waiting
    functional_done no_valid passes_scoreboard rfq_can_issue smemq_can_issue can_issue has_free
    some_empty get_free first_empty issue_warp execute prepare_issue after_func_exec finish_issue
    note_kind note_ldgsts do_on_warp_issued
turn_runs = refl

warp_turn-bounded_example :
    (end_of_turn.issued ≤ 1)
    × ((end_of_turn.stopped ≡ true)
        ⊎ ((s : Turn (Unit {0})) × (may_go_on nothing_outside small_sched_config s 0
              ≡ ok (false, end_of_turn))))
warp_turn-bounded_example =
    warp_turn-bounded nothing_outside small_sched_config 1 start_of_turn end_of_turn 0
      (ground arith) (ground arith) turn_runs

abbrev after_coissue : Bool × Bool × Bool × Sched (Unit {0})
unfolding try_pc_coissue
after_coissue =
    value_or (try_pc_coissue nothing_outside small_sched_config small_sched)
      (false, false, false, small_sched)

coissue_runs :
    try_pc_coissue nothing_outside small_sched_config small_sched
    ≡ ok (true, true, true, after_coissue.3)
unfolding try_pc_coissue after_coissue target_of classify_issue_target is_wasp_producer_warp
    is_wasp_consumer_warp find_pair pair_with obstacle candidate_of classified coissue collect_all
    collect_issue_candidate find_supervised issue_pair next_of_warp room_at sort_candidate
    warp_waiting waiting_at_mem_barrier waiting functional_done no_valid passes_scoreboard
    rfq_can_issue smemq_can_issue can_issue has_free some_empty get_free first_empty issue_warp
    execute prepare_issue after_func_exec finish_issue note_kind note_ldgsts do_on_warp_issued
coissue_runs = refl

try_pc_coissue-pair_example :
    (prod : Candidate) × (cons : Candidate) × (u : IssueUnit) × (v : IssueUnit)
    × (is_wasp_producer_warp small_config.shader 64 prod.warp_id ≡ ok true)
    × (is_wasp_consumer_warp small_config.shader 64 cons.warp_id ≡ ok true)
    × Buffers small_core.warps prod.warp_id prod.inst
    × Buffers small_core.warps cons.warp_id cons.inst
    × (exec_type u ≢ exec_type v)
    × (has_free false 0 (small_core.registers u) ≡ ok true)
    × (has_free false 0 (small_core.registers v) ≡ ok true)
    × PairPut nothing_outside small_sched_config small_core.registers prod cons u v
        (after_coissue.3).core.registers
try_pc_coissue-pair_example =
    try_pc_coissue-pair nothing_outside small_sched_config small_sched after_coissue.3 true true
      coissue_runs
