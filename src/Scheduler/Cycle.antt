-- ===== src/Scheduler/Cycle.antt =====
-- `scheduler_unit::cycle` of gpgpu-sim/shader.cc: the eligible warps are counted, a co-issue is
-- tried, and otherwise the first warp that can issue has its turn. The order of the warps is that
-- of `order_warps`, an argument here; the loose round robin and the priority orders are below.
use dae_proj.Base.{
  ℕ, ◌+◌, ◌^◌, ◌%◌, min, Bool, true, false, not, Option, none, some, List, [], ◌∷◌, length, ◌==◌,
  if◌then◌else◌, Result, ok, ◌>>=◌, inc64,
}
use dae_proj.Core.{Outside, Core, warp_at, passes_scoreboard}
use dae_proj.Scheduler.{order_lrr, order_by_priority, OrderingType}
use dae_proj.Scheduler.Coissue.{SchedConfig, SchedStats, Sched, next_of_warp, try_pc_coissue}
use dae_proj.Scheduler.Dispatch.{Turn, warp_turn}

abbrev same_place : Option ℕ → Option ℕ → Bool
same_place none none = true
same_place (some a) (some b) = a == b
same_place _ _ = false

-- The last place of the vector with this pointer, from `at` on; `old` when there is none.
unfoldable pub last_supervised : List (Option ℕ) → Option ℕ → ℕ → ℕ → ℕ
last_supervised [] place at old = old
last_supervised (p ∷ ps) place at old =
    last_supervised ps place (at + 1) (if same_place place p then at else old)

-- Which of the stall counters goes up, if any.
unfoldable pub stall_of : Bool → Bool → Bool → Option ℕ
stall_of valid_inst ready_inst issued_inst =
    if not valid_inst
    then some 0
    else if not ready_inst
    then some 1
    else if not issued_inst
    then some 2
    else none

abbrev count_issue : SchedStats → ℕ → SchedStats
count_issue s issued =
    if issued == 1
    then record s {
      total_issue_count = inc64 s.total_issue_count;
      single_issue_nums = inc64 s.single_issue_nums;
      single_issue_count = inc64 s.single_issue_count;
      single_issue_fallback = inc64 s.single_issue_fallback;
    }
    else record s {
      total_issue_count = inc64 s.total_issue_count;
      dual_issue_nums = inc64 s.dual_issue_nums;
      dual_issue_count = inc64 s.dual_issue_count;
      same_warp_dual_issue_fallback = inc64 s.same_warp_dual_issue_fallback;
    }

-- The scheduler beside the flags `valid_inst`, `ready_inst` and `issued_inst`.
pub record Flagged (E : Type 0) : Type 0 where
  pub sched : Sched E
  pub valid_inst : Bool
  pub ready_inst : Bool
  pub issued_inst : Bool

module _ {E : Type 0} where
  unfoldable pub lrr_order_warps : Sched E → Result (Sched E)
  lrr_order_warps s = do
    order ← order_lrr s.supervised s.last_supervised_issued (length s.supervised)
    ok (record s { prioritized = order })

  -- `gto_scheduler`, `oldest_scheduler` and, with a limit on the warps, `swl_scheduler`. `sort` is
  -- `std::sort` by the dynamic ids.
  unfoldable pub priority_order_warps :
      (List (Option ℕ) → List (Option ℕ)) → OrderingType → Option ℕ → Sched E → Result (Sched E)
  priority_order_warps sort kind limit s = do
    order ←
        order_by_priority same_place sort s.supervised s.last_supervised_issued
          (elim limit [ none ↦ length s.supervised | some n ↦ min n (length s.supervised) ]) kind
    ok (record s { prioritized = order })

module _ {E : Type 0} (out : Outside E) (g : SchedConfig)
    (order_warps : Sched E → Result (Sched E)) where
  -- Whether one warp is eligible.
  unfoldable pub eligible : Core E → Option ℕ → Result (Bool × Core E)
  eligible c none = ok (false, c)
  eligible c (some place) = warp_at c place >>= λ w. if w.done_exit then ok (false, c) else (do
    next ← next_of_warp out g c w.warp_id
    elim next.0 [
      | none ↦ ok (false, next.1)
      | some inst ↦
          if out.stack_pc next.1.outside w.warp_id == inst.pc
          then passes_scoreboard out g.core next.1 w.warp_id inst false
          else ok (false, next.1)
    ])

  unfoldable pub count_eligible : Core E → List (Option ℕ) → Result (ℕ × Core E)
  unfolding eligible
  count_eligible c [] = ok (0, c)
  count_eligible c (place ∷ places) = do
    one ← eligible c place
    rest ← count_eligible one.1 places
    ok ((if one.0 then 1 else 0) + rest.0, rest.1)

  abbrev first_turn : Flagged E → Turn E
  first_turn f = record {
    core = f.sched.core;
    checked = 0;
    issued = 0;
    previous = 0;
    valid_inst = f.valid_inst;
    ready_inst = f.ready_inst;
    issued_inst = f.issued_inst;
    stopped = false;
  }

  abbrev flagged : Flagged E → Turn E → Flagged E
  flagged f t = record {
    sched = record (f.sched) { core = t.core };
    valid_inst = t.valid_inst;
    ready_inst = t.ready_inst;
    issued_inst = t.issued_inst;
  }

  -- What the scheduler notes of a warp that has issued.
  abbrev note_issue : Sched E → Option ℕ → ℕ → Sched E
  note_issue s place issued = record s {
    last_supervised_issued = last_supervised s.supervised place 0 s.last_supervised_issued;
    num_issued_last_cycle = issued;
    stats = count_issue s.stats issued;
  }

  -- The turns of the warps, in order, up to the first that issues.
  unfoldable pub turns : Flagged E → List (Option ℕ) → Result (Flagged E)
  turns f [] = ok f
  turns f (none ∷ places) = turns f places
  turns f (some place ∷ places) = warp_at f.sched.core place >>= λ w.
      if w.done_exit then turns f places else (do
        t ← warp_turn out g g.max_insn_issue_per_warp (first_turn f) w.warp_id
        let f' = flagged f t
        if t.issued == 0
            then turns f' places
            else ok (record f' { sched = note_issue f'.sched (some place) t.issued }))

  abbrev add_eligible : SchedStats → ℕ → ℕ → SchedStats
  add_eligible s n slots = record s {
    eligible_warp_count = (s.eligible_warp_count + n) % 2 ^ 64;
    eligible_warp_slot_count = (s.eligible_warp_slot_count + slots) % 2 ^ 64;
    eligible_warp_sample_count = inc64 s.eligible_warp_sample_count;
  }

  abbrev add_stall : Core E → Option ℕ → Core E
  add_stall c none = c
  add_stall c (some k) = record c {
    distro = λ j. if j == k then inc64 (c.distro j) else c.distro j;
  }

  -- The turns that follow when no pair was issued, and the stall statistics.
  unfoldable pub fallback : Flagged E → Result (Sched E)
  unfolding turns
  fallback f = do
    f' ← turns f f.sched.prioritized
    ok (record (f'.sched) {
      core = add_stall f'.sched.core (stall_of f'.valid_inst f'.ready_inst f'.issued_inst);
    })

  unfoldable pub cycle : Sched E → Result (Sched E)
  unfolding count_eligible fallback
  cycle s = do
    s1 ← order_warps s
    counted ← count_eligible s1.core s1.prioritized
    let s2 = record s1 {
      core = counted.1;
      stats = add_eligible s1.stats counted.0 (length s1.supervised);
    }
    tried ← try_pc_coissue out g s2
    if tried.0
        then ok tried.3
        else fallback (record {
          sched = tried.3;
          valid_inst = tried.1;
          ready_inst = tried.2;
          issued_inst = false;
        })
