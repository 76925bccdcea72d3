-- ===== src/Scheduler/Turns.antt =====
-- The loop of `scheduler_unit::cycle` of gpgpu-sim/shader.cc over the instructions of one warp: it
-- ends, and it issues no more than the configured number.
use dae_proj.Base.{
  ℕ, zero, suc, ◌+◌, ◌<◌, ◌≤◌, ◌≡◌, ◌⊎◌, inl, inr, Bool, Bool-cases, true, false, not, ◌&&◌, Option,
  Option-cases, none, some, get_elem?, Result-cases, ok, arith, ◌==◌, ltb,
}
use dae_proj.Core.{Inst, Outside, passes_scoreboard}
use dae_proj.Scheduler.{IssueUnit}
use dae_proj.Scheduler.Coissue.{SchedConfig}
use dae_proj.Scheduler.Dispatch.{
  Turn, after_slot, issue_on, issue_chosen, try_inst, flush_warp, one_round, may_go_on, warp_turn,
  unit_for, route_of,
}
use dae_proj.Warp.{Warp}

-- One round issues at most one instruction, and leaves the loop or counts itself.
abbrev Round : {E : Type 0} → Turn E → Turn E → Type 0
Round t t' = (t'.issued ≤ t.issued + 1) × ((t'.stopped ≡ true) ⊎ (t'.checked ≡ t.checked + 1))

module _ {E : Type 0} (out : Outside E) (g : SchedConfig) where
  issue_on-Round :
      (t t' : Turn E) (warp_id : ℕ) (inst : Inst) (mask : ℕ) (u : IssueUnit)
      → issue_on out g t warp_id inst mask u ≡ ok t'
      → (t'.issued ≡ t.issued + 1) × (t'.checked ≡ t.checked + 1)
  unfolding issue_on
  issue_on-Round t t' warp_id inst mask u h = ground (arith, h)

  issue_chosen-Round :
      (t t' : Turn E) (warp_id : ℕ) (inst : Inst) (mask : ℕ) (u : Option IssueUnit)
      → issue_chosen out g t warp_id inst mask u ≡ ok t'
      → Round t t'
  unfolding issue_chosen issue_on
  issue_chosen-Round t t' warp_id inst mask none h = ground (arith, h)
  issue_chosen-Round t t' warp_id inst mask (some u) h = ground (arith, h)

  flush_warp-Round : (t t' : Turn E) (warp_id : ℕ) → flush_warp out g t warp_id ≡ ok t' → Round t t'
  unfolding flush_warp
  flush_warp-Round t t' warp_id h = ground (arith, h)

  try_inst-Round :
      (t t' : Turn E) (warp_id : ℕ) (inst : Inst)
      → try_inst out g t warp_id inst ≡ ok t'
      → Round t t'
  unfolding try_inst
  try_inst-Round t t' warp_id inst h =
      elim (Result-cases (passes_scoreboard out g.core t.core warp_id inst true)) [
        | inr (why, e) ↦ absurd (ground (arith, h, e))
        | inl ((false, c), e) ↦ ground (arith, h, e)
        | inl ((true, c), e) ↦
            elim (Result-cases (unit_for out g c t.previous (route_of inst.op))) [
              | inr (why, e1) ↦ absurd (ground (arith, h, e, e1))
              | inl (u, e1) ↦
                  issue_chosen-Round (record t { core = c; valid_inst = true; ready_inst = true })
                    t' warp_id inst (out.get_active_mask c.outside warp_id inst) u
                    (ground (arith, h, e, e1))
            ]
      ]

  after_slot-Round :
      (t t' : Turn E) (warp_id : ℕ) (w : Warp Inst) (inst : Option Inst) (valid : Bool)
      → after_slot out g t warp_id w inst valid ≡ ok t'
      → Round t t'
  after_slot-Round t t' warp_id w none true h = flush_warp-Round t t' warp_id h
  after_slot-Round t t' warp_id w none false h = ground (arith, h)
  after_slot-Round t t' warp_id w (some inst) valid h =
      elim (Bool-cases (not (inst.m_is_cdp == 0) && ltb 0 w.cdp_latency)) [
        | inl e ↦ ground (arith, h, e)
        | inr e ↦ elim (Bool-cases (out.stack_pc t.core.outside warp_id == inst.pc)) [
          | inl p ↦ try_inst-Round t t' warp_id inst (ground (arith, h, e, p))
          | inr p ↦ flush_warp-Round t t' warp_id (ground (arith, h, e, p))
        ]
      ]

  one_round-Round : (t t' : Turn E) (warp_id : ℕ) → one_round out g t warp_id ≡ ok t' → Round t t'
  unfolding one_round
  one_round-Round t t' warp_id h = elim (Option-cases (get_elem? t.core.warps warp_id)) [
    | inl e ↦ absurd (ground (arith, h, e))
    | inr (w, e) ↦ elim (Option-cases (get_elem? w.ibuffer w.next)) [
      | inl e1 ↦ absurd (ground (arith, h, e, e1))
      | inr (slot, e1) ↦
          after_slot-Round t t' warp_id w slot.inst slot.valid (ground (arith, h, e, e1))
    ]
  ]

  may_go_on-limits :
      (t : Turn E) (warp_id : ℕ) (r : Bool × Turn E)
      → may_go_on out g t warp_id ≡ ok r
      → (r.1.issued ≡ t.issued)
        × (r.1.checked ≡ t.checked)
        × ((r.0 ≡ false)
            ⊎ ((r.0 ≡ true)
                × (t.issued < g.max_insn_issue_per_warp)
                × (t.checked < g.max_insn_issue_per_warp)))
  unfolding may_go_on
  may_go_on-limits t warp_id r h = ground (arith, h)

  -- With a round for each instruction that the configuration allows, the loop over the
  -- instructions of a warp ends by a break or because its condition fails, never for want of
  -- rounds, and no more instructions are issued than gpgpu_max_insn_issue_per_warp.
  pub warp_turn-bounded :
      (n : ℕ) (t t' : Turn E) (warp_id : ℕ)
      → g.max_insn_issue_per_warp ≤ t.checked + n
      → t.issued ≤ g.max_insn_issue_per_warp
      → warp_turn out g n t warp_id ≡ ok t'
      → (t'.issued ≤ g.max_insn_issue_per_warp)
        × ((t'.stopped ≡ true) ⊎ ((s : Turn E) × (may_go_on out g s warp_id ≡ ok (false, t'))))
  unfolding warp_turn
  warp_turn-bounded zero t t' warp_id enough few h =
      elim (Result-cases (may_go_on out g t warp_id)) [
        | inr (why, e) ↦ absurd (ground (arith, h, e))
        | inl ((go, t1), e) ↦
            let (same, same', limits) = may_go_on-limits t warp_id (go, t1) e in
            let is : t1 ≡ t' = ground (arith, h, e) in
            elim limits [
              | inl no_more ↦
                  (ground (arith, same, is, few), inr (t, ground (arith, e, no_more, is)))
              | inr (yes_more, p, q) ↦ absurd (omega (arith, enough, q))
            ]
      ]
  warp_turn-bounded (suc n) t t' warp_id enough few h =
      elim (Result-cases (may_go_on out g t warp_id)) [
        | inr (why, e) ↦ absurd (ground (arith, h, e))
        | inl ((false, t1), e) ↦
            let (same, same', limits) = may_go_on-limits t warp_id (false, t1) e in
            let is : t1 ≡ t' = ground (arith, h, e) in
            (ground (arith, same, is, few), inr (t, ground (arith, e, is)))
        | inl ((true, t1), e) ↦
            let (same, same', limits) = may_go_on-limits t warp_id (true, t1) e in
            let below : t.issued < g.max_insn_issue_per_warp = ground (arith, limits) in
            elim (Result-cases (one_round out g t1 warp_id)) [
              | inr (why, e1) ↦ absurd (ground (arith, h, e, e1))
              | inl (t2, e1) ↦
                  let (issued, progress) = one_round-Round t1 t2 warp_id e1 in
                  elim (Bool-cases t2.stopped) [
                    | inl out_of_loop ↦
                        let is : t2 ≡ t' = ground (arith, h, e, e1, out_of_loop) in
                        (
                          ground (arith, is, issued, below, same),
                          inl (ground (arith, is, out_of_loop)),
                        )
                    | inr goes_on ↦
                        let counted : t2.checked ≡ t1.checked + 1 =
                          ground (arith, progress, goes_on) in
                        warp_turn-bounded n t2 t' warp_id (omega (arith, enough, counted, same'))
                          (omega (arith, issued, below, same)) (ground (arith, h, e, e1, goes_on))
                  ]
            ]
      ]
