-- ===== src/Core/Registers.antt =====
-- The pipeline registers of abstract_hardware_model.h: a register that `has_free` promises is there
-- and is empty, and `issue_warp` of gpgpu-sim/shader.cc writes no other register set.
use dae_proj.Base.{
  ℕ, suc, ◌≡◌, inl, inr, refl, ap, subst, ◌∙◌, Result-cases, Bool, true, false, Option-cases, none,
  some, [], ◌∷◌, set, if◌then◌else◌, get_elem?, ok, arith,
}
use dae_proj.Core.{
  Inst, Issued, Outside, Core, CoreConfig, RegisterSet, has_free, get_free, some_empty, first_empty,
  same_unit, put_warp, layout_of_core,
}
use dae_proj.Core.Issue.{
  issue_warp, execute, note_kind, note_barrier, note_ldgsts, finish_issue, begun, dynamic_inst,
}
use dae_proj.Port.{QueueInst, QueueState, prepare_issue}
use dae_proj.Port.Sides.{rfq_side, smemq_side}
use dae_proj.Scheduler.{IssueUnit}
use dae_proj.Warp.{Warp}

first_empty_lem :
    (rs : RegisterSet)
    → some_empty rs ≡ true
    → (place : ℕ) × (first_empty rs ≡ ok place) × (get_elem? rs place ≡ some none)
unfolding some_empty first_empty
first_empty_lem [] h = absurd (ground (arith, h))
first_empty_lem (none ∷ rs) h = (0, refl, refl)
first_empty_lem (some i ∷ rs) h =
    let (n, found, empty) = first_empty_lem rs h in (suc n, rw found refl, empty)

pub has_free-get_free :
    (sub_core : Bool) (id : ℕ) (rs : RegisterSet)
    → has_free sub_core id rs ≡ ok true
    → (place : ℕ) × (get_free sub_core id rs ≡ ok place) × (get_elem? rs place ≡ some none)
unfolding has_free get_free
has_free-get_free false id rs h = first_empty_lem rs (ground (arith, h))
has_free-get_free true id rs h = elim (Option-cases (get_elem? rs id)) [
  | inl e ↦ absurd (ground (arith, h, e))
  | inr (none, e) ↦ (id, ground (arith, h, e), e)
  | inr (some i, e) ↦ absurd (ground (arith, h, e))
]

module _ {E : Type 0} (out : Outside E) (g : CoreConfig) where
  execute-registers :
      (c c' : Core E) (i i' : Issued) → execute out g c i ≡ ok (i', c') → c'.registers ≡ c.registers
  unfolding execute
  execute-registers c c' i i' h = ground (arith, h)

  -- What `execute` puts into the pipeline: the instruction as its queues prepared it.
  abbrev pub PreparedAs : Core E → Issued → QueueInst → QueueInst → Type 0
  PreparedAs c i rfq smemq =
      ((state : QueueState) × (prepare_issue (rfq_side g.shader) (layout_of_core g c) c.rfq
            (some i.inst.rfq)
          ≡ ok (some rfq, state)))
      × ((state : QueueState) × (prepare_issue (smemq_side g.shader) (layout_of_core g c) c.smemq
              (some i.inst.smemq)
            ≡ ok (some smemq, state)))

  abbrev pub with_queues : Issued → QueueInst → QueueInst → Issued
  with_queues i rfq smemq = record i { inst = record (i.inst) { rfq = rfq; smemq = smemq } }

  execute-PreparedAs :
      (c c' : Core E) (i i' : Issued)
      → execute out g c i ≡ ok (i', c')
      → (rfq : QueueInst) × (smemq : QueueInst) × PreparedAs c i rfq smemq
        × (i' ≡ with_queues i rfq smemq)
  unfolding execute
  execute-PreparedAs c c' i i' h =
      elim (Result-cases
        (prepare_issue (rfq_side g.shader) (layout_of_core g c) c.rfq (some i.inst.rfq))) [
          | inr (why, e) ↦ absurd (ground (arith, h, e))
          | inl ((first, state), e) ↦
              elim (Result-cases (
                prepare_issue (smemq_side g.shader) (layout_of_core g c) c.smemq
                  (some i.inst.smemq))) [
                    | inr (why, e1) ↦ absurd (ground (arith, h, e, e1))
                    | inl ((second, state1), e1) ↦ elim (Option-cases first) [
                      | inl n ↦ absurd (ground (arith, h, e, e1, n))
                      | inr (rfq, n) ↦ elim (Option-cases second) [
                        | inl n1 ↦ absurd (ground (arith, h, e, e1, n, n1))
                        | inr (smemq, n1) ↦ (
                          rfq,
                          smemq,
                          ((state, rw (← n) e), (state1, rw (← n1) e1)),
                          ground (arith, h, e, e1, n, n1),
                        )
                      ]
                    ]
                  ]
        ]

  note_kind-registers :
      (c c' : Core E) (i : Issued) → note_kind out g c i ≡ ok c' → c'.registers ≡ c.registers
  unfolding note_kind note_barrier
  note_kind-registers c c' i h = ground (arith, h)

  abbrev with_register : Core E → IssueUnit → ℕ → Issued → IssueUnit → RegisterSet
  with_register c u place i v =
      if same_unit v u then set (c.registers v) place (some i) else c.registers v

  finish_issue-registers :
      (c c' : Core E) (u : IssueUnit) (place : ℕ) (inst : Inst) (i : Issued)
      → finish_issue out g c u place inst i ≡ ok c'
      → c'.registers ≡ with_register c u place i
  unfolding finish_issue
  finish_issue-registers c c' u place inst i h = elim (Option-cases (get_elem? c.warps i.warp_id)) [
    | inl e ↦ absurd (ground (arith, h, e))
    | inr (w, e) ↦ elim (Result-cases (note_ldgsts w inst)) [
      | inr (why, e1) ↦ absurd (ground (arith, h, e, e1))
      | inl (w1, e1) ↦ elim (Result-cases (note_kind out g (put_warp c i.warp_id w1) i)) [
        | inr (why, e2) ↦ absurd (ground (arith, h, e, e1, e2))
        | inl (c1, e2) ↦
            let same = note_kind-registers (put_warp c i.warp_id w1) c1 i e2 in
            let is : c'.registers ≡ with_register c1 u place i = ground (arith, h, e, e1, e2) in
            is
            ∙ ap
                (λ (r : IssueUnit → RegisterSet).
                  λ v. if same_unit v u then set (r v) place (some i) else r v)
                same
      ]
    ]
  ]

  -- What an issue to the register set of `u` leaves in the pipeline registers: `i` stands in the
  -- register that get_free chooses there.
  abbrev pub PutBy :
      (IssueUnit → RegisterSet) → IssueUnit → Issued → (IssueUnit → RegisterSet) → Type 0
  PutBy before u i after =
      (place : ℕ) × (get_free g.sub_core_model g.m_id (before u) ≡ ok place)
      × (after ≡ λ v. if same_unit v u then set (before v) place (some i) else before v)

  -- An issue that succeeds puts the instruction, for its warp, mask and scheduler and with what
  -- prepare_issue of the two mechanisms made of its queue fields, into the register that get_free
  -- chooses in the register set of its unit, and changes no other register of the core.
  pub issue_warp-registers :
      (c c' : Core E) (u : IssueUnit) (inst : Inst) (mask warp_id : ℕ)
      → issue_warp out g c u inst mask warp_id ≡ ok c'
      → (w : Warp Inst) × (rfq : QueueInst) × (smemq : QueueInst) × (get_elem? c.warps warp_id
          ≡ some w)
        × PreparedAs (begun out g c w warp_id mask) (dynamic_inst out g inst mask warp_id) rfq smemq
        × PutBy c.registers u
            (with_queues (dynamic_inst out g inst mask warp_id) rfq smemq)
            c'.registers
  unfolding issue_warp
  issue_warp-registers c c' u inst mask warp_id h =
      elim (Result-cases (get_free g.sub_core_model g.m_id (c.registers u))) [
        | inr (why, e) ↦ absurd (ground (arith, h, e))
        | inl (place, e) ↦ elim (Option-cases (get_elem? c.warps warp_id)) [
          | inl e1 ↦ absurd (ground (arith, h, e, e1))
          | inr (w, e1) ↦
              elim (Result-cases (
                execute out g (begun out g c w warp_id mask)
                  (dynamic_inst out g inst mask warp_id))) [
                    | inr (why, e2) ↦ absurd (ground (arith, h, e, e1, e2))
                    | inl ((i, c1), e2) ↦
                        let same = execute-registers _ _ _ _ e2 in
                        let (rfq, smemq, prepared, is) = execute-PreparedAs _ _ _ _ e2 in
                        let last : finish_issue out g c1 u place inst i ≡ ok c' =
                          ground (arith, h, e, e1, e2) in
                        let put = finish_issue-registers c1 c' u place inst i last in
                        let kept =
                          put
                          ∙ ap
                              (λ (r : IssueUnit → RegisterSet).
                                λ v. if same_unit v u then set (r v) place (some i) else r v)
                              same in
                        (
                          w,
                          rfq,
                          smemq,
                          e1,
                          prepared,
                          subst (λ (j : Issued). PutBy c.registers u j c'.registers) is
                              (place, e, kept),
                        )
                  ]
        ]
      ]
