-- ===== src/Scheduler/Collected.antt =====
-- The candidates of `collect_issue_candidate` of gpgpu-sim/shader.cc: a ready one fits into a
-- register set.
use dae_proj.Base.{
  ℕ, ◌≡◌, inl, inr, subst, ◌∙◌, Bool, Bool-cases, true, false, not, Option, Option-cases, none,
  some, get_elem?, Result-cases, ok, ◌==◌, arith,
}
use dae_proj.Core.{
  Inst, Outside, Core, RegisterSet, has_free, warp_waiting, passes_scoreboard, rfq_can_issue,
  smemq_can_issue,
}
use dae_proj.Scheduler.{IssueUnit, target_of, classify_issue_target}
use dae_proj.Scheduler.Coissue.{
  SchedConfig, Candidate, units_of, room_at, classified, candidate_of, next_of_warp,
  collect_issue_candidate,
}

module _ {E : Type 0} (out : Outside E) (g : SchedConfig) where
  warp_waiting-registers :
      (c : Core E) (i : ℕ) (r : Bool × Core E)
      → warp_waiting out g.core c i ≡ ok r
      → r.1.registers ≡ c.registers
  unfolding warp_waiting
  warp_waiting-registers c i r h = ground (arith, h)

  passes_scoreboard-registers :
      (c : Core E) (warp_id : ℕ) (inst : Inst) (count : Bool) (r : Bool × Core E)
      → passes_scoreboard out g.core c warp_id inst count ≡ ok r
      → r.1.registers ≡ c.registers
  unfolding passes_scoreboard rfq_can_issue smemq_can_issue
  passes_scoreboard-registers c warp_id inst count r h = ground (arith, h)

  next_of_warp-registers :
      (c : Core E) (warp_id : ℕ) (r : Option Inst × Core E)
      → next_of_warp out g c warp_id ≡ ok r
      → r.1.registers ≡ c.registers
  unfolding next_of_warp
  next_of_warp-registers c warp_id r h = elim (Result-cases (warp_waiting out g.core c warp_id)) [
    | inr (why, e) ↦ absurd (ground (arith, h, e))
    | inl (w, e) ↦ let same = warp_waiting-registers c warp_id w e in ground (arith, h, e, same)
  ]

  -- A ready candidate names a unit whose register set has room.
  unfoldable pub Fits : (IssueUnit → RegisterSet) → Candidate → Type 0
  Fits registers k =
      k.ready ≡ true
      → (u : IssueUnit) × (k.unit ≡ some u)
        × (has_free g.core.sub_core_model g.core.m_id (registers u) ≡ ok true)

  classified-Fits :
      (c : Core E) (warp_id : ℕ) (inst : Inst) (k : Candidate)
      → classified out g c warp_id inst ≡ ok k
      → Fits c.registers k
  unfolding classified Fits classify_issue_target room_at
  classified-Fits c warp_id inst k h ready =
      elim (Result-cases (target_of (units_of g) (not (inst.m_is_cdp == 0)) inst.op)) [
        | inr (why, e) ↦ absurd (ground (arith, h, e))
        | inl (none, e) ↦ absurd (ground (arith, h, e, ready))
        | inl (some u, e) ↦
            elim (Result-cases (has_free g.core.sub_core_model g.core.m_id (c.registers u))) [
              | inr (why, e1) ↦ absurd (ground (arith, h, e, e1))
              | inl (true, e1) ↦ (u, ground (arith, h, e, e1), e1)
              | inl (false, e1) ↦ absurd (ground (arith, h, e, e1, ready))
            ]
      ]

  abbrev pub FitsIf : (IssueUnit → RegisterSet) → Option Candidate → Type 0
  FitsIf registers found = (k : Candidate) → found ≡ some k → Fits registers k

  pub Fits-across :
      (old new : IssueUnit → RegisterSet) (k : Candidate) → new ≡ old → Fits new k → Fits old k
  Fits-across old new k same f = subst (λ (r : IssueUnit → RegisterSet). Fits r k) same f

  unready-Fits :
      (registers : IssueUnit → RegisterSet) (k : Candidate) → k.ready ≡ false → Fits registers k
  unfolding Fits
  unready-Fits registers k e ready = absurd (ground (arith, e, ready))

  candidate_of-Fits :
      (c : Core E) (warp_id : ℕ) (inst : Inst) (r : Option Candidate × Core E)
      → candidate_of out g c warp_id inst ≡ ok r
      → (r.1.registers ≡ c.registers) × FitsIf c.registers r.0
  unfolding candidate_of
  candidate_of-Fits c warp_id inst r h =
      elim (Bool-cases (out.stack_pc c.outside warp_id == inst.pc)) [
        | inr e ↦ (ground (arith, h, e), λ k is. absurd (ground (arith, h, e, is)))
        | inl e ↦ elim (Result-cases (passes_scoreboard out g.core c warp_id inst false)) [
          | inr (why, e1) ↦ absurd (ground (arith, h, e, e1))
          | inl (passed, e1) ↦
              let same = passes_scoreboard-registers c warp_id inst false passed e1 in
              elim (Bool-cases passed.0) [
                | inl b ↦ elim (Result-cases (classified out g passed.1 warp_id inst)) [
                  | inr (why, e2) ↦ absurd (ground (arith, h, e, e1, b, e2))
                  | inl (k', e2) ↦ (
                    ground (arith, h, e, e1, b, e2, same),
                    λ k is.
                        let this : k' ≡ k = ground (arith, h, e, e1, b, e2, is) in
                        Fits-across c.registers passed.1.registers k same (
                          subst (Fits passed.1.registers) this
                            (classified-Fits passed.1 warp_id inst k' e2)),
                  )
                ]
                | inr b ↦ (
                  ground (arith, h, e, e1, b, same),
                  λ k is. unready-Fits c.registers k (ground (arith, h, e, e1, b, is)),
                )
              ]
        ]
      ]

  pub collect_issue_candidate-Fits :
      (c : Core E) (place : Option ℕ) (r : Option Candidate × Core E)
      → collect_issue_candidate out g c place ≡ ok r
      → (r.1.registers ≡ c.registers) × FitsIf c.registers r.0
  unfolding collect_issue_candidate
  collect_issue_candidate-Fits c none r h =
      (ground (arith, h), λ k is. absurd (ground (arith, h, is)))
  collect_issue_candidate-Fits c (some place) r h = elim (Option-cases (get_elem? c.warps place)) [
    | inl e ↦ absurd (ground (arith, h, e))
    | inr (w, e) ↦ elim (Bool-cases w.done_exit) [
      | inl d ↦ (ground (arith, h, e, d), λ k is. absurd (ground (arith, h, e, d, is)))
      | inr d ↦ elim (Result-cases (next_of_warp out g c w.warp_id)) [
        | inr (why, e1) ↦ absurd (ground (arith, h, e, d, e1))
        | inl ((none, c1), e1) ↦
            let same = next_of_warp-registers c w.warp_id (none, c1) e1 in
            (ground (arith, h, e, d, e1, same), λ k is. absurd (ground (arith, h, e, d, e1, is)))
        | inl ((some inst, c1), e1) ↦
            let same = next_of_warp-registers c w.warp_id (some inst, c1) e1 in
            let (same2, fits) =
              candidate_of-Fits c1 w.warp_id inst r (ground (arith, h, e, d, e1)) in
            (same2 ∙ same, λ k is. Fits-across c.registers c1.registers k same (fits k is))
      ]
    ]
  ]
