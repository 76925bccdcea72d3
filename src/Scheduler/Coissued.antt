-- ===== src/Scheduler/Coissued.antt =====
-- The pair of instructions that `try_pc_coissue` of gpgpu-sim/shader.cc issues in one cycle.
use dae_proj.Base.{
  ℕ, ◌≡◌, ◌≢◌, inl, inr, refl, sym, ap, subst, ◌∙◌, Bool, true, false, Option, none, some, List, [],
  ◌∷◌, ◌++◌, Result-cases, ok, arith,
}
use dae_proj.Core.{Outside, Core, Issued, RegisterSet, same_unit, has_free, exec_type}
use dae_proj.Core.Issue.{issue_warp, dynamic_inst}
use dae_proj.Core.Registers.{with_queues, PutBy, issue_warp-registers}
use dae_proj.Port.{QueueInst}
use dae_proj.Scheduler.{IssueUnit, is_wasp_producer_warp, is_wasp_consumer_warp}
use dae_proj.Scheduler.Coissue.{
  SchedConfig, SchedStats, Sched, Candidate, Collected, no_candidates, find_pair, exec_type_of,
  collect_issue_candidate, sort_candidate, collect_all, issue_pair, coissue, try_pc_coissue,
  do_on_warp_issued,
}
use dae_proj.Scheduler.Buffered.{
  SameBuffers, SameBuffers-refl, SameBuffers-trans, Buffers, Buffers-before,
  collect_issue_candidate-Buffers,
}
use dae_proj.Scheduler.Collected.{Fits, Fits-across, collect_issue_candidate-Fits}
use dae_proj.Scheduler.Pairs.{Every, Every-append, obstacle-none, find_pair-result}

module _ {E : Type 0} (out : Outside E) (g : SchedConfig) where
  -- A candidate whose unit has room, if it is ready, and whose instruction is the next one in the
  -- instruction buffer of its warp.
  abbrev Fitting : Core E → Candidate → Type 0
  Fitting start k = Fits out g start.registers k × Buffers start.warps k.warp_id k.inst

  abbrev FittingIf : Core E → Option Candidate → Type 0
  FittingIf start found = (k : Candidate) → found ≡ some k → Fitting start k

  -- A candidate that fits, on the side of the producers or on that of the consumers.
  abbrev GoodProducer : Core E → Candidate → Type 0
  GoodProducer start k =
      Fitting start k
      × (is_wasp_producer_warp g.core.shader g.core.padded_threads_per_cta k.warp_id ≡ ok true)

  abbrev GoodConsumer : Core E → Candidate → Type 0
  GoodConsumer start k =
      Fitting start k
      × (is_wasp_consumer_warp g.core.shader g.core.padded_threads_per_cta k.warp_id ≡ ok true)

  abbrev Sorted : Core E → Collected → Type 0
  Sorted start acc =
      Every (GoodProducer start) acc.producers × Every (GoodConsumer start) acc.consumers

  sort_candidate-Sorted :
      (start : Core E) (acc acc' : Collected) (found : Option Candidate)
      → FittingIf start found
      → Sorted start acc
      → sort_candidate out g acc found ≡ ok acc'
      → Sorted start acc'
  unfolding sort_candidate
  sort_candidate-Sorted start acc acc' none fits so h =
      subst (Sorted start) {x = acc} {y = acc'} (ground (arith, h)) so
  sort_candidate-Sorted start acc acc' (some k) fits so h =
      elim (Result-cases
        (is_wasp_producer_warp g.core.shader g.core.padded_threads_per_cta k.warp_id)) [
          | inr (why, e) ↦ absurd (ground (arith, h, e))
          | inl (true, e) ↦
              let all = Every-append (GoodProducer start) acc.producers k so.0 (fits k refl, e) in
              let first : acc'.producers ≡ acc.producers ++ (k ∷ []) = ground (arith, h, e) in
              let second : acc'.consumers ≡ acc.consumers = ground (arith, h, e) in
              (
                subst (Every (GoodProducer start)) (sym first) all,
                subst (Every (GoodConsumer start)) (sym second) so.1,
              )
          | inl (false, e) ↦
              elim (Result-cases
                (is_wasp_consumer_warp g.core.shader g.core.padded_threads_per_cta k.warp_id)) [
                  | inr (why, e1) ↦ absurd (ground (arith, h, e, e1))
                  | inl (true, e1) ↦
                      let all =
                        Every-append (GoodConsumer start) acc.consumers k so.1 (fits k refl, e1) in
                      let first : acc'.producers ≡ acc.producers = ground (arith, h, e, e1) in
                      let second : acc'.consumers ≡ acc.consumers ++ (k ∷ []) =
                        ground (arith, h, e, e1) in
                      (
                        subst (Every (GoodProducer start)) (sym first) so.0,
                        subst (Every (GoodConsumer start)) (sym second) all,
                      )
                  | inl (false, e1) ↦
                      let first : acc'.producers ≡ acc.producers = ground (arith, h, e, e1) in
                      let second : acc'.consumers ≡ acc.consumers = ground (arith, h, e, e1) in
                      (
                        subst (Every (GoodProducer start)) (sym first) so.0,
                        subst (Every (GoodConsumer start)) (sym second) so.1,
                      )
                ]
        ]

  collect_all-Sorted :
      (start : Core E) (places : List (Option ℕ)) (c : Core E) (acc : Collected)
      (r : Collected × Core E)
      → c.registers ≡ start.registers
      → SameBuffers start.warps c.warps
      → Sorted start acc
      → collect_all out g c acc places ≡ ok r
      → (r.1.registers ≡ start.registers) × Sorted start r.0
  unfolding collect_all
  collect_all-Sorted start [] c acc r kept buffers so h =
      (ground (arith, h, kept), subst (Sorted start) {x = acc} {y = r.0} (ground (arith, h)) so)
  collect_all-Sorted start (place ∷ places) c acc r kept buffers so h =
      elim (Result-cases (collect_issue_candidate out g c place)) [
        | inr (why, e) ↦ absurd (ground (arith, h, e))
        | inl ((found, c1), e) ↦
            let (same, fits) = collect_issue_candidate-Fits out g c place (found, c1) e in
            let (moved, held) = collect_issue_candidate-Buffers out g c c1 place found e in
            let good : FittingIf start found = λ k is. (
              Fits-across out g start.registers c.registers k kept (fits k is),
              Buffers-before start.warps c.warps k.warp_id k.inst buffers (held k is),
            ) in
            elim (Result-cases (sort_candidate out g acc found)) [
              | inr (why, e1) ↦ absurd (ground (arith, h, e, e1))
              | inl (acc', e1) ↦
                  let rest : collect_all out g c1 acc' places ≡ ok r = ground (arith, h, e, e1) in
                  collect_all-Sorted start places c1 acc' r (same ∙ kept)
                    (SameBuffers-trans start.warps c.warps c1.warps buffers moved)
                    (sort_candidate-Sorted start acc acc' found good so e1) rest
            ]
      ]

  same_unit-exec_type :
      (u v : IssueUnit) → exec_type_of (some u) ≢ exec_type_of (some v) → same_unit v u ≡ false
  same_unit-exec_type u v h = ground (arith, h)

  coissue-inversion :
      (s s' : Sched E) (stats : SchedStats) (pair : Option (Candidate × Candidate))
      → coissue out g s stats pair ≡ ok (true, s')
      → (prod : Candidate) × (cons : Candidate) × (pair ≡ some (prod, cons))
        × (issue_pair out g s.core prod cons ≡ ok s'.core)
  unfolding coissue
  coissue-inversion s s' stats none h = absurd (ground (arith, h))
  coissue-inversion s s' stats (some (prod, cons)) h =
      elim (Result-cases (issue_pair out g s.core prod cons)) [
        | inr (why, e) ↦ absurd (ground (arith, h, e))
        | inl (c, e) ↦ (prod, cons, refl, e ∙ ground (arith, h, e))
      ]

  do_on_warp_issued-registers :
      (c c' : Core E) (warp_id n : ℕ)
      → do_on_warp_issued out g c warp_id n ≡ ok c'
      → c'.registers ≡ c.registers
  unfolding do_on_warp_issued
  do_on_warp_issued-registers c c' warp_id n h = ground (arith, h)

  -- What stands in the pipeline for a candidate: its instruction, with its mask and its warp.
  abbrev pub IssuedFor : Candidate → Issued → Type 0
  IssuedFor k i =
      (rfq : QueueInst) × (smemq : QueueInst) × (i
        ≡ with_queues out g.core (dynamic_inst out g.core k.inst k.active_mask k.warp_id) rfq smemq)

  -- The pipeline registers after the producer was issued to `u` and then the consumer to `v`.
  abbrev pub PairPut :
      (IssueUnit → RegisterSet)
      → Candidate
      → Candidate
      → IssueUnit
      → IssueUnit
      → (IssueUnit → RegisterSet)
      → Type 0
  PairPut before prod cons u v after =
      (i : Issued) × (j : Issued) × (between : IssueUnit → RegisterSet) × IssuedFor prod i
      × IssuedFor cons j
      × PutBy out g.core before u i between
      × PutBy out g.core between v j after

  issue_pair-PairPut :
      (c c' : Core E) (prod cons : Candidate) (u v : IssueUnit)
      → prod.unit ≡ some u
      → cons.unit ≡ some v
      → issue_pair out g c prod cons ≡ ok c'
      → PairPut c.registers prod cons u v c'.registers
  unfolding issue_pair
  issue_pair-PairPut c c' prod cons u v at at' h =
      elim (Result-cases (issue_warp out g.core c u prod.inst prod.active_mask prod.warp_id)) [
        | inr (why, e) ↦ absurd (ground (arith, h, at, e))
        | inl (c1, e) ↦
            elim (Result-cases
              (issue_warp out g.core c1 v cons.inst cons.active_mask cons.warp_id)) [
                | inr (why, e1) ↦ absurd (ground (arith, h, at, at', e, e1))
                | inl (c2, e1) ↦ elim (Result-cases (do_on_warp_issued out g c2 prod.warp_id 1)) [
                  | inr (why, e2) ↦ absurd (ground (arith, h, at, at', e, e1, e2))
                  | inl (c3, e2) ↦
                      let last : do_on_warp_issued out g c3 cons.warp_id 1 ≡ ok c' =
                        ground (arith, h, at, at', e, e1, e2) in
                      let same =
                        do_on_warp_issued-registers c3 c' cons.warp_id 1 last
                        ∙ do_on_warp_issued-registers c2 c3 prod.warp_id 1 e2 in
                      let (w, rfq, smemq, _, _, put) =
                        issue_warp-registers out g.core c c1 u prod.inst prod.active_mask
                          prod.warp_id e in
                      let (w', rfq', smemq', _, _, put') =
                        issue_warp-registers out g.core c1 c2 v cons.inst cons.active_mask
                          cons.warp_id e1 in
                      (
                        with_queues out g.core
                            (dynamic_inst out g.core prod.inst prod.active_mask prod.warp_id) rfq
                            smemq,
                        with_queues out g.core
                            (dynamic_inst out g.core cons.inst cons.active_mask cons.warp_id) rfq'
                            smemq',
                        c1.registers,
                        (rfq, smemq, refl),
                        (rfq', smemq', refl),
                        put,
                        (put'.0, put'.1, same ∙ put'.2),
                      )
                ]
              ]
      ]

  -- When try_pc_coissue issues, it issues an instruction of a producer warp to a unit u and then
  -- one of a consumer warp to a unit v of another kind. Each is the valid next one in the buffer of
  -- its warp, and then stands, with a mask and its warp, in the register that get_free chooses in
  -- the register set of its unit, while no other pipeline register of the core changes. The
  -- register sets of u and v both had room when the scheduler was asked.
  pub try_pc_coissue-pair :
      (s s' : Sched E) (valid_inst ready_inst : Bool)
      → try_pc_coissue out g s ≡ ok (true, valid_inst, ready_inst, s')
      → (prod : Candidate) × (cons : Candidate) × (u : IssueUnit) × (v : IssueUnit)
        × (is_wasp_producer_warp g.core.shader g.core.padded_threads_per_cta prod.warp_id ≡ ok true)
        × (is_wasp_consumer_warp g.core.shader g.core.padded_threads_per_cta cons.warp_id ≡ ok true)
        × Buffers s.core.warps prod.warp_id prod.inst
        × Buffers s.core.warps cons.warp_id cons.inst
        × (exec_type u ≢ exec_type v)
        × (has_free g.core.sub_core_model g.core.m_id (s.core.registers u) ≡ ok true)
        × (has_free g.core.sub_core_model g.core.m_id (s.core.registers v) ≡ ok true)
        × PairPut s.core.registers prod cons u v s'.core.registers
  unfolding try_pc_coissue Fits
  try_pc_coissue-pair s s' valid_inst ready_inst h =
      elim (Result-cases (collect_all out g s.core no_candidates s.prioritized)) [
        | inr (why, e) ↦ absurd (ground (arith, h, e))
        | inl ((acc, c), e) ↦
            let (same, so) =
              collect_all-Sorted s.core s.prioritized s.core no_candidates (acc, c) refl
                (SameBuffers-refl s.core.warps s.core.warps refl) (tt, tt) e in
            let run : coissue out g (record s { core = c })
                  (find_pair s.stats acc.producers acc.consumers).0
                  (find_pair s.stats acc.producers acc.consumers).1
                ≡ ok (true, s') =
              ground (arith, h, e) in
            let (p, k, is, issued) = coissue-inversion (record s { core = c }) s' _ _ run in
            elim (find_pair-result (GoodProducer s.core) (GoodConsumer s.core) s.stats acc.producers
              acc.consumers so.0 so.1) [
                | inl (nothing, all) ↦ absurd (ground (arith, nothing, is))
                | inr (prod, cons, found, good, good', free) ↦
                    let (ready, ready', apart) = obstacle-none prod cons free in
                    let (u, at, room) = good.0.0 ready in
                    let (v, at', room') = good'.0.0 ready' in
                    let issue : issue_pair out g c prod cons ≡ ok s'.core =
                      ground (arith, is, found, issued) in
                    (
                      prod,
                      cons,
                      u,
                      v,
                      good.1,
                      good'.1,
                      good.0.1,
                      good'.0.1,
                      λ e. apart (ap exec_type_of at ∙ e ∙ sym (ap exec_type_of at')),
                      room,
                      room',
                      subst
                          (λ (r : IssueUnit → RegisterSet).
                            PairPut r prod cons u v s'.core.registers)
                          same (issue_pair-PairPut c s'.core prod cons u v at at' issue),
                    )
              ]
      ]
