-- ===== src/Scheduler/Coissue.antt =====
-- The co-issue of a producer and a consumer warp in gpgpu-sim/shader.cc:
-- `collect_issue_candidate`, `try_pc_coissue` and `do_on_warp_issued` of `scheduler_unit`. A warp
-- is a place in the core's vector of warps, and `NULL` is `none`.
use dae_proj.Base.{
  ℕ, ◌+◌, Bool, true, false, not, ◌||◌, Option, none, some, List, [], ◌∷◌, ◌++◌, length, ltb, ◌==◌,
  if◌then◌else◌, Result, ok, ◌>>=◌, ◌>>◌, check, access, inc64,
}
use dae_proj.Core.{
  Inst, Outside, Core, CoreConfig, has_free, exec_type, warp_at, put_warp, warp_waiting,
  passes_scoreboard,
}
use dae_proj.Core.Issue.{issue_warp}
use dae_proj.Port.Sides.{wasp_rfq_enabled}
use dae_proj.Scheduler.{
  CoissueFail, CoissueStats, record_pc_coissue_fail, IssueUnit, Units, target_of,
  classify_issue_target, is_wasp_producer_warp, is_wasp_consumer_warp,
}
use dae_proj.Warp.{Warp, no_valid, ibuffer_next, ibuffer_step}

pub record SchedConfig : Type 0 where
  pub core : CoreConfig
  pub num_sp_units : ℕ
  pub num_int_units : ℕ
  pub num_dp_units : ℕ
  pub num_sfu_units : ℕ
  pub num_tensor_core_units : ℕ
  pub specialized_units : List ℕ
  pub wasp_pc_coissue_enable : Bool
  pub max_insn_issue_per_warp : ℕ
  pub dual_issue_diff_exec_units : Bool

abbrev pub units_of : SchedConfig → Units
units_of s = record {
  num_sp_units = s.num_sp_units;
  num_int_units = s.num_int_units;
  num_dp_units = s.num_dp_units;
  num_specialized = length s.specialized_units;
}

-- `issue_candidate`. Its `exec_type` is that of `unit`.
pub record Candidate : Type 0 where
  pub ready : Bool
  pub warp_id : ℕ
  pub inst : Inst
  pub active_mask : ℕ
  pub unit : Option IssueUnit
  pub fail_reason : CoissueFail

-- The counters of the scheduler `m_id`, and those of the core that it writes.
pub record SchedStats : Type 0 where
  pub eligible_warp_count : ℕ
  pub eligible_warp_slot_count : ℕ
  pub eligible_warp_sample_count : ℕ
  pub coissue_attempts : ℕ
  pub coissue_fails : CoissueStats
  pub coissue_success : ℕ
  pub single_issue_nums : ℕ
  pub dual_issue_nums : ℕ
  pub total_issue_count : ℕ
  pub single_issue_count : ℕ
  pub dual_issue_count : ℕ
  pub single_issue_fallback : ℕ
  pub same_warp_dual_issue_fallback : ℕ

pub record Sched (E : Type 0) : Type 0 where
  pub core : Core E
  pub supervised : List (Option ℕ)
  pub prioritized : List (Option ℕ)
  pub last_supervised_issued : ℕ
  pub num_issued_last_cycle : ℕ
  pub stats : SchedStats

-- The candidates in their order, and whether one was valid and one ready.
pub record Collected : Type 0 where
  pub producers : List Candidate
  pub consumers : List Candidate
  pub valid_inst : Bool
  pub ready_inst : Bool

abbrev pub no_candidates : Collected
no_candidates = record { producers = []; consumers = []; valid_inst = false; ready_inst = false }

abbrev reason_of : Option IssueUnit → CoissueFail
reason_of none = CoissueFail.fail_structural
reason_of (some u) = CoissueFail.fail_dispatch_port

-- `exec_type`; 0 is `NONE`.
abbrev pub exec_type_of : Option IssueUnit → ℕ
exec_type_of none = 0
exec_type_of (some u) = exec_type u

-- Why a pair cannot be issued together; `none` when it can.
unfoldable pub obstacle : Candidate → Candidate → Option CoissueFail
obstacle prod cons =
    if not prod.ready
    then some prod.fail_reason
    else if not cons.ready
    then some cons.fail_reason
    else if exec_type_of prod.unit == exec_type_of cons.unit
    then some (
        if exec_type_of prod.unit == 3
        then CoissueFail.fail_lsu_lsu_conflict
        else CoissueFail.fail_fu_conflict)
    else none

abbrev count_attempt : SchedStats → SchedStats
count_attempt s = record s { coissue_attempts = inc64 s.coissue_attempts }

abbrev pub count_fail : SchedStats → CoissueFail → SchedStats
count_fail s why = record (count_attempt s) {
  coissue_fails = record_pc_coissue_fail s.coissue_fails why;
}

-- The inner loop: the first consumer that goes with the producer.
unfoldable pub pair_with : SchedStats → Candidate → List Candidate → SchedStats × Option Candidate
pair_with s prod [] = (s, none)
pair_with s prod (cons ∷ rest) = elim (obstacle prod cons) [
  | none ↦ (count_attempt s, some cons)
  | some why ↦ pair_with (count_fail s why) prod rest
]

unfoldable pub find_pair :
    SchedStats → List Candidate → List Candidate → SchedStats × Option (Candidate × Candidate)
find_pair s [] consumers = (s, none)
find_pair s (prod ∷ rest) consumers =
    let tried = pair_with s prod consumers in
    elim tried.1 [
      | none ↦ find_pair tried.0 rest consumers
      | some cons ↦ (tried.0, some (prod, cons))
    ]

module _ {E : Type 0} (out : Outside E) (g : SchedConfig) where
  -- The next instruction of the buffer, when its slot is valid.
  abbrev pub valid_next : Warp Inst → Result (Option Inst)
  valid_next w = ibuffer_next w >>= λ e. ok (if e.valid then e.inst else none)

  abbrev unready : ℕ → Inst → CoissueFail → Candidate
  unready warp_id inst why = record {
    ready = false;
    warp_id = warp_id;
    inst = inst;
    active_mask = 0;
    unit = none;
    fail_reason = why;
  }

  unfoldable pub room_at : Core E → Option IssueUnit → Result Bool
  room_at c none = ok false
  room_at c (some u) = has_free g.core.sub_core_model g.core.m_id (c.registers u)

  -- A candidate that passes the scoreboard and the queues.
  unfoldable pub classified : Core E → ℕ → Inst → Result Candidate
  unfolding room_at
  classified c warp_id inst = do
    target ← target_of (units_of g) (not (inst.m_is_cdp == 0)) inst.op
    room ← room_at c target
    found ← classify_issue_target (units_of g) (λ u. room) (not (inst.m_is_cdp == 0)) inst.op
    if found.1
        then ok (record {
          ready = true;
          warp_id = warp_id;
          inst = inst;
          active_mask = out.get_active_mask c.outside warp_id inst;
          unit = found.0;
          fail_reason = CoissueFail.fail_none;
        })
        else ok (unready warp_id inst (reason_of found.0))

  unfoldable pub candidate_of : Core E → ℕ → Inst → Result (Option Candidate × Core E)
  unfolding classified
  candidate_of c warp_id inst =
      if not (out.stack_pc c.outside warp_id == inst.pc) then ok (none, c) else (do
        passed ← passes_scoreboard out g.core c warp_id inst false
        if passed.0
            then (classified passed.1 warp_id inst >>= λ k. ok (some k, passed.1))
            else ok (some (unready warp_id inst CoissueFail.fail_scoreboard), passed.1))

  -- The instruction that a warp could issue now: the warp neither waits nor has an empty buffer.
  unfoldable pub next_of_warp : Core E → ℕ → Result (Option Inst × Core E)
  next_of_warp c warp_id = do
    waits ← warp_waiting out g.core c warp_id
    if waits.0 then ok (none, waits.1) else (do
      w ← warp_at waits.1 warp_id
      if no_valid w.ibuffer
          then ok (none, waits.1)
          else (valid_next w >>= λ inst. ok (inst, waits.1)))

  unfoldable pub collect_issue_candidate : Core E → Option ℕ → Result (Option Candidate × Core E)
  unfolding next_of_warp candidate_of
  collect_issue_candidate c none = ok (none, c)
  collect_issue_candidate c (some place) = warp_at c place >>= λ w.
      if w.done_exit then ok (none, c) else (do
        next ← next_of_warp c w.warp_id
        elim next.0 [ none ↦ ok (none, next.1) | some inst ↦ candidate_of next.1 w.warp_id inst ])

  -- A candidate joins the producers or the consumers.
  unfoldable pub sort_candidate : Collected → Option Candidate → Result Collected
  sort_candidate acc none = ok acc
  sort_candidate acc (some k) = do
    let seen = record acc { valid_inst = true; ready_inst = acc.ready_inst || k.ready }
    producer ← is_wasp_producer_warp g.core.shader g.core.padded_threads_per_cta k.warp_id
    if producer then ok (record seen { producers = acc.producers ++ (k ∷ []) }) else (do
      consumer ← is_wasp_consumer_warp g.core.shader g.core.padded_threads_per_cta k.warp_id
      ok (if consumer then record seen { consumers = acc.consumers ++ (k ∷ []) } else seen))

  unfoldable pub collect_all : Core E → Collected → List (Option ℕ) → Result (Collected × Core E)
  unfolding collect_issue_candidate sort_candidate
  collect_all c acc [] = ok (acc, c)
  collect_all c acc (place ∷ places) = do
    one ← collect_issue_candidate c place
    acc' ← sort_candidate acc one.0
    collect_all one.1 acc' places

  unfoldable pub do_on_warp_issued : Core E → ℕ → ℕ → Result (Core E)
  do_on_warp_issued c warp_id num_issued = do
    w ← warp_at c warp_id
    ok (record (put_warp c warp_id (ibuffer_step w)) {
      outside = out.event_warp_issued c.outside warp_id num_issued;
    })

  -- The iterator of the first supervised warp with this id, from `at` on; `old` when there is none.
  unfoldable pub find_supervised : Core E → List (Option ℕ) → ℕ → ℕ → ℕ → Result ℕ
  find_supervised c [] warp_id at old = ok old
  find_supervised c (place ∷ places) warp_id at old =
      let rest = find_supervised c places warp_id (at + 1) old in
      access place >>= λ p. warp_at c p >>= λ w. if w.warp_id == warp_id then ok at else rest

  -- Both instructions of a pair are issued.
  unfoldable pub issue_pair : Core E → Candidate → Candidate → Result (Core E)
  unfolding do_on_warp_issued
  issue_pair c prod cons = do
    wp ← warp_at c prod.warp_id
    check (ltb 0 wp.inst_in_pipeline)
    wc ← warp_at c cons.warp_id
    check (ltb 0 wc.inst_in_pipeline)
    up ← access prod.unit
    c1 ← issue_warp out g.core c up prod.inst prod.active_mask prod.warp_id
    uc ← access cons.unit
    c2 ← issue_warp out g.core c1 uc cons.inst cons.active_mask cons.warp_id
    c3 ← do_on_warp_issued c2 prod.warp_id 1
    do_on_warp_issued c3 cons.warp_id 1

  abbrev count_coissue : SchedStats → SchedStats
  count_coissue s = record s {
    coissue_success = inc64 s.coissue_success;
    dual_issue_nums = inc64 s.dual_issue_nums;
    total_issue_count = inc64 s.total_issue_count;
    dual_issue_count = inc64 s.dual_issue_count;
  }

  unfoldable pub coissue :
      Sched E → SchedStats → Option (Candidate × Candidate) → Result (Bool × Sched E)
  unfolding issue_pair find_supervised
  coissue s stats none = ok (false, record s { stats = stats })
  coissue s stats (some (prod, cons)) = do
    c ← issue_pair s.core prod cons
    last ← find_supervised c s.supervised cons.warp_id 0 s.last_supervised_issued
    ok (
      true,
      record s {
        core = c;
        last_supervised_issued = last;
        num_issued_last_cycle = 2;
        stats = count_coissue stats;
      },
    )

  -- What comes back: whether a pair was issued, the flags `valid_inst` and `ready_inst`, and the
  -- scheduler.
  unfoldable pub try_pc_coissue : Sched E → Result (Bool × Bool × Bool × Sched E)
  unfolding collect_all coissue
  try_pc_coissue s =
      if not g.wasp_pc_coissue_enable
        || not (wasp_rfq_enabled g.core.shader || g.core.shader.smemq_enable)
      then ok (false, false, false, s)
      else (do
        found ← collect_all s.core no_candidates s.prioritized
        let pair = find_pair s.stats found.0.producers found.0.consumers
        issued ← coissue (record s { core = found.1 }) pair.0 pair.1
        ok (issued.0, found.0.valid_inst, found.0.ready_inst, issued.1))
