-- ===== src/Scheduler/Buffered.antt =====
-- The instruction of a candidate of `collect_issue_candidate` of gpgpu-sim/shader.cc is the next
-- one of its warp's instruction buffer.
use dae_proj.Base.{
  ℕ, zero, suc, ◌≡◌, ◌⊎◌, inl, inr, refl, sym, ap, ◌∙◌, Bool, Bool-cases, true, false, ◌||◌, Option,
  Option-cases, none, some, List, [], ◌∷◌, set, get_elem?, Result-cases, ok, ◌==◌, subst, arith,
}
use dae_proj.Core.{
  Inst, Outside, Core, warp_waiting, passes_scoreboard, rfq_can_issue, smemq_can_issue,
}
use dae_proj.Scheduler.Coissue.{
  SchedConfig, Candidate, classified, candidate_of, next_of_warp, collect_issue_candidate,
}
use dae_proj.Warp.{Warp, IbufferEntry, functional_done, waiting_at_mem_barrier}
use dae_proj.Barrier.{warp_waiting_at_barrier}

get_elem?-set-cases {ℓ} :
    {A : Type ℓ} (xs : List A) (i j : ℕ) (v y : A)
    → get_elem? (set xs i v) j ≡ some y
    → ((i ≡ j) × (v ≡ y)) ⊎ (get_elem? xs j ≡ some y)
get_elem?-set-cases [] i j v y h = inr h
get_elem?-set-cases (x ∷ xs) zero zero v y h = inl (refl, ground (arith, h))
get_elem?-set-cases (x ∷ xs) zero (suc j) v y h = inr h
get_elem?-set-cases (x ∷ xs) (suc i) zero v y h = inr h
get_elem?-set-cases (x ∷ xs) (suc i) (suc j) v y h = elim (get_elem?-set-cases xs i j v y h) [
  | inl (e, f) ↦ inl (ap suc e, f)
  | inr e ↦ inr e
]

-- The warp of a place had the same buffer before.
abbrev pub SameBuffers : List (Warp Inst) → List (Warp Inst) → Type 0
SameBuffers before after =
    (i : ℕ) (w' : Warp Inst)
    → get_elem? after i ≡ some w'
    → (w : Warp Inst) × (get_elem? before i ≡ some w)
      × (w.ibuffer ≡ w'.ibuffer)
      × (w.next ≡ w'.next)

pub SameBuffers-refl : (before after : List (Warp Inst)) → after ≡ before → SameBuffers before after
SameBuffers-refl before after e i w' h =
    (w', subst (λ (ws : List (Warp Inst)). get_elem? ws i ≡ some w') e h, refl, refl)

pub SameBuffers-trans :
    (a b c : List (Warp Inst)) → SameBuffers a b → SameBuffers b c → SameBuffers a c
SameBuffers-trans a b c f g i w' h =
    let (w1, h1, e1, n1) = g i w' h in let (w, h0, e0, n0) = f i w1 h1 in (w, h0, e0 ∙ e1, n0 ∙ n1)

SameBuffers-set :
    (ws : List (Warp Inst)) (i : ℕ) (old new : Warp Inst)
    → get_elem? ws i ≡ some old
    → old.ibuffer ≡ new.ibuffer
    → old.next ≡ new.next
    → SameBuffers ws (set ws i new)
SameBuffers-set ws i old new there e n j w' h = elim (get_elem?-set-cases ws i j new w' h) [
  | inl (at, is) ↦ (
    old,
    subst (λ (p : ℕ). get_elem? ws p ≡ some old) at there,
    e ∙ ap (λ (w : Warp Inst). w.ibuffer) is,
    n ∙ ap (λ (w : Warp Inst). w.next) is,
  )
  | inr same ↦ (w', same, refl, refl)
]

-- The next slot of the warp's buffer is valid and holds the instruction.
abbrev pub Buffers : List (Warp Inst) → ℕ → Inst → Type 0
Buffers ws warp_id inst =
    (w : Warp Inst) × (slot : IbufferEntry Inst) × (get_elem? ws warp_id ≡ some w)
    × (get_elem? w.ibuffer w.next ≡ some slot)
    × (slot.valid ≡ true)
    × (slot.inst ≡ some inst)

pub Buffers-before :
    (before after : List (Warp Inst)) (warp_id : ℕ) (inst : Inst)
    → SameBuffers before after
    → Buffers after warp_id inst
    → Buffers before warp_id inst
Buffers-before before after warp_id inst same (w', slot, at, next, valid, is) =
    let (w, there, e, n) = same warp_id w' at in
    (
      w,
      slot,
      there,
      ap (λ (p : ℕ). get_elem? w.ibuffer p) n
          ∙ ap (λ (b : List (IbufferEntry Inst)). get_elem? b w'.next) e
          ∙ next,
      valid,
      is,
    )

waiting_at_mem_barrier-buffer :
    (pending : Bool) (w : Warp Inst)
    → (w.ibuffer ≡ (waiting_at_mem_barrier pending w).1.ibuffer)
      × (w.next ≡ (waiting_at_mem_barrier pending w).1.next)
unfolding waiting_at_mem_barrier
waiting_at_mem_barrier-buffer pending w = ground arith

module _ {E : Type 0} (out : Outside E) (g : SchedConfig) where
  warp_waiting-SameBuffers :
      (c : Core E) (i : ℕ) (r : Bool × Core E)
      → warp_waiting out g.core c i ≡ ok r
      → SameBuffers c.warps r.1.warps
  unfolding warp_waiting
  warp_waiting-SameBuffers c i r h = elim (Option-cases (get_elem? c.warps i)) [
    | inl e ↦ absurd (ground (arith, h, e))
    | inr (w, e) ↦
        elim (Bool-cases (functional_done w || warp_waiting_at_barrier c.barriers w.warp_id)) [
          | inl held_up ↦ SameBuffers-refl c.warps r.1.warps (ground (arith, h, e, held_up))
          | inr free ↦ elim (Option-cases (get_elem? c.warps w.warp_id)) [
            | inl e1 ↦ absurd (ground (arith, h, e, free, e1))
            | inr (held, e1) ↦
                let pending = out.pending_writes c.outside w.warp_id in
                let new = (waiting_at_mem_barrier pending held).1 in
                let is : r.1.warps ≡ set c.warps w.warp_id new = ground (arith, h, e, free, e1) in
                let (buffer, next) = waiting_at_mem_barrier-buffer pending held in
                subst (SameBuffers c.warps) (sym is)
                  (SameBuffers-set c.warps w.warp_id held new e1 buffer next)
          ]
        ]
  ]

  passes_scoreboard-warps :
      (c : Core E) (warp_id : ℕ) (inst : Inst) (count : Bool) (r : Bool × Core E)
      → passes_scoreboard out g.core c warp_id inst count ≡ ok r
      → r.1.warps ≡ c.warps
  unfolding passes_scoreboard rfq_can_issue smemq_can_issue
  passes_scoreboard-warps c warp_id inst count r h = ground (arith, h)

  next_of-Buffers :
      (c c1 c2 : Core E) (warp_id : ℕ) (o : Option Inst) (waits : Bool) (inst : Inst)
      → next_of_warp out g c warp_id ≡ ok (o, c1)
      → warp_waiting out g.core c warp_id ≡ ok (waits, c2)
      → o ≡ some inst
      → Buffers c2.warps warp_id inst
  unfolding next_of_warp
  next_of-Buffers c c1 c2 warp_id o true inst h e is = absurd (ground (arith, h, e, is))
  next_of-Buffers c c1 c2 warp_id o false inst h e is =
      elim (Option-cases (get_elem? c2.warps warp_id)) [
        | inl e1 ↦ absurd (ground (arith, h, e, e1))
        | inr (w, e1) ↦ elim (Option-cases (get_elem? w.ibuffer w.next)) [
          | inl e2 ↦ absurd (ground (arith, h, e, e1, e2, is))
          | inr (slot, e2) ↦ elim (Bool-cases slot.valid) [
            | inl v ↦ (w, slot, e1, e2, v, ground (arith, h, e, e1, e2, v, is))
            | inr v ↦ absurd (ground (arith, h, e, e1, e2, v, is))
          ]
        ]
      ]

  next_of_warp-Buffers :
      (c c1 : Core E) (warp_id : ℕ) (o : Option Inst)
      → next_of_warp out g c warp_id ≡ ok (o, c1)
      → SameBuffers c.warps c1.warps
        × ((inst : Inst) → o ≡ some inst → Buffers c1.warps warp_id inst)
  unfolding next_of_warp
  next_of_warp-Buffers c c1 warp_id o h = elim (Result-cases (warp_waiting out g.core c warp_id)) [
    | inr (why, e) ↦ absurd (ground (arith, h, e))
    | inl ((waits, c2), e) ↦
        let same = warp_waiting-SameBuffers c warp_id (waits, c2) e in
        let at : c2 ≡ c1 = ground (arith, h, e) in
        (
          subst (λ (x : Core E). SameBuffers c.warps x.warps) at same,
          λ inst is.
              subst (λ (x : Core E). Buffers x.warps warp_id inst) at
                (next_of-Buffers c c1 c2 warp_id o waits inst h e is),
        )
  ]

  classified-inst :
      (c : Core E) (warp_id : ℕ) (inst : Inst) (k : Candidate)
      → classified out g c warp_id inst ≡ ok k
      → (k.warp_id ≡ warp_id) × (k.inst ≡ inst)
  unfolding classified
  classified-inst c warp_id inst k h = ground (arith, h)

  candidate_of-inst :
      (c c1 : Core E) (warp_id : ℕ) (inst : Inst) (o : Option Candidate)
      → candidate_of out g c warp_id inst ≡ ok (o, c1)
      → (c1.warps ≡ c.warps)
        × ((k : Candidate) → o ≡ some k → (k.warp_id ≡ warp_id) × (k.inst ≡ inst))
  unfolding candidate_of
  candidate_of-inst c c1 warp_id inst o h =
      elim (Bool-cases (out.stack_pc c.outside warp_id == inst.pc)) [
        | inr e ↦ (ground (arith, h, e), λ k is. absurd (ground (arith, h, e, is)))
        | inl e ↦ elim (Result-cases (passes_scoreboard out g.core c warp_id inst false)) [
          | inr (why, e1) ↦ absurd (ground (arith, h, e, e1))
          | inl ((true, c2), e1) ↦
              let same = passes_scoreboard-warps c warp_id inst false (true, c2) e1 in
              elim (Result-cases (classified out g c2 warp_id inst)) [
                | inr (why, e2) ↦ absurd (ground (arith, h, e, e1, e2))
                | inl (k', e2) ↦
                    let (named, holds) = classified-inst c2 warp_id inst k' e2 in
                    (
                      ground (arith, h, e, e1, e2, same),
                      λ k is.
                          let this : k' ≡ k = ground (arith, h, e, e1, e2, is) in
                          (
                            ap (λ (j : Candidate). j.warp_id) (sym this) ∙ named,
                            ap (λ (j : Candidate). j.inst) (sym this) ∙ holds,
                          ),
                    )
              ]
          | inl ((false, c2), e1) ↦
              let same = passes_scoreboard-warps c warp_id inst false (false, c2) e1 in
              (
                ground (arith, h, e, e1, same),
                λ k is. (ground (arith, h, e, e1, is), ground (arith, h, e, e1, is)),
              )
        ]
      ]

  pub collect_issue_candidate-Buffers :
      (c c' : Core E) (place : Option ℕ) (o : Option Candidate)
      → collect_issue_candidate out g c place ≡ ok (o, c')
      → SameBuffers c.warps c'.warps
        × ((k : Candidate) → o ≡ some k → Buffers c.warps k.warp_id k.inst)
  unfolding collect_issue_candidate
  collect_issue_candidate-Buffers c c' none o h = (
    SameBuffers-refl c.warps c'.warps (ground (arith, h)),
    λ k is. absurd (ground (arith, h, is)),
  )
  collect_issue_candidate-Buffers c c' (some place) o h =
      elim (Option-cases (get_elem? c.warps place)) [
        | inl e ↦ absurd (ground (arith, h, e))
        | inr (w, e) ↦ elim (Bool-cases w.done_exit) [
          | inl d ↦ (
            SameBuffers-refl c.warps c'.warps (ground (arith, h, e, d)),
            λ k is. absurd (ground (arith, h, e, d, is)),
          )
          | inr d ↦ elim (Result-cases (next_of_warp out g c w.warp_id)) [
            | inr (why, e1) ↦ absurd (ground (arith, h, e, d, e1))
            | inl ((none, c1), e1) ↦
                let this : c1 ≡ c' = ground (arith, h, e, d, e1) in
                (
                  subst (λ (x : Core E). SameBuffers c.warps x.warps) this
                      (next_of_warp-Buffers c c1 w.warp_id none e1).0,
                  λ k is. absurd (ground (arith, h, e, d, e1, is)),
                )
            | inl ((some inst, c1), e1) ↦
                let (same, held) = next_of_warp-Buffers c c1 w.warp_id (some inst) e1 in
                let (same2, named) =
                  candidate_of-inst c1 c' w.warp_id inst o (ground (arith, h, e, d, e1)) in
                (
                  SameBuffers-trans c.warps c1.warps c'.warps same
                      (SameBuffers-refl c1.warps c'.warps same2),
                  λ k is.
                      let (at, holds) = named k is in
                      subst (λ (n : ℕ). Buffers c.warps n k.inst) (sym at)
                        (subst (Buffers c.warps w.warp_id) (sym holds)
                          (Buffers-before c.warps c1.warps w.warp_id inst same (held inst refl))),
                )
          ]
        ]
      ]
