-- ===== src/Resources/Issue.antt =====
-- The guard of an issue, the claim and the release of a CTA together: gpgpu-sim/gpu-sim.cc.
use dae_proj.Base.{
  ℕ, ◌<◌, ◌≡◌, inl, inr, subst, Bool, Bool-cases, true, false, none, some, List, Result-cases, ok,
  Fault, fault, arith,
}
use dae_proj.Config.{ShaderConfig, Kernel, smemq_shared_bytes_per_cta, wasp_rfq_regs_per_cta}
use dae_proj.Resources.{
  Occupied, find_available_hwtid, padded_size, taken, occupy_shader_resource_1block,
  can_issue_1block, lookup, claim_block, release_shader_resource_1block,
}
use dae_proj.Resources.Marks.{Free}
use dae_proj.Resources.Threads.{find_available_hwtid-some}
use dae_proj.Resources.Claim.{
  Within, room, occupy-eq, taken-Within, claimed, Fits32, release-claimed, can_issue_1block-room,
  can_issue_1block-found, claim_block-eq,
}

module _ (c : ShaderConfig) (k : Kernel) (o : Occupied) (bytes queue_regs : ℕ)
    (of_bytes : smemq_shared_bytes_per_cta c k ≡ ok bytes)
    (of_regs : wasp_rfq_regs_per_cta c k ≡ ok queue_regs) where
  occupy-found :
      (b : Bool) (o' : Occupied) (why : Fault)
      → find_available_hwtid c o.hwtid (padded_size c k) false ≡ fault why
      → occupy_shader_resource_1block c k o true ≡ ok (b, o')
      → o ≡ o'
  unfolding occupy_shader_resource_1block
  occupy-found b o' why e h = ground (arith, h, e)

  -- When the budgets of the queues have a value and occupy_shader_resource_1block returns, whether
  -- it took the CTA in or refused it, occupied threads, shared memory, registers and CTAs that were
  -- within the core still are.
  pub occupy-Within :
      (b : Bool) (o' : Occupied)
      → Within c o
      → occupy_shader_resource_1block c k o true ≡ ok (b, o')
      → Within c o'
  occupy-Within b o' w h =
      elim (Result-cases (find_available_hwtid c o.hwtid (padded_size c k) false)) [
        | inr (why, e) ↦ subst (Within c) (occupy-found b o' why e h) w
        | inl ((found, hwtid), e) ↦
            let is = occupy-eq c k o bytes queue_regs of_bytes of_regs found hwtid true e in
            elim (Bool-cases (room c k o bytes queue_regs found)) [
              | inl r ↦
                  let eq : taken c k bytes queue_regs o ≡ o' = ground (arith, is, h, r) in
                  subst (Within c) eq (taken-Within c k o bytes queue_regs found r)
              | inr r ↦ let eq : o ≡ o' = ground (arith, is, h, r) in subst (Within c) eq w
            ]
      ]

  claim-release :
      (hw_ctaid start : ℕ) (hwtid : List Bool)
      → c.concurrent_kernel_sm ≡ true
      → Fits32 c k o bytes queue_regs
      → lookup o.cta_to_hwtid hw_ctaid ≡ none
      → find_available_hwtid c o.hwtid (padded_size c k) false ≡ ok (some start, hwtid)
      → room c k o bytes queue_regs (some start) ≡ true
      → (start : ℕ) × (o' : Occupied) × (claim_block c k o hw_ctaid ≡ ok (start, o'))
        × (start < c.n_thread_per_shader)
        × Free o.hwtid start (padded_size c k)
        × (release_shader_resource_1block c k o' hw_ctaid ≡ ok o)
  claim-release hw_ctaid start hwtid on sums absent seen r =
      let (low, free, marks) =
        find_available_hwtid-some c o.hwtid hwtid (padded_size c k) start seen in
      (
        start,
        claimed c k o bytes queue_regs hw_ctaid start,
        claim_block-eq c k o bytes queue_regs of_bytes of_regs hw_ctaid start hwtid seen marks r
            absent,
        low,
        free,
        release-claimed c k o bytes queue_regs of_bytes of_regs hw_ctaid start on sums absent free,
      )

  -- When kernels share the core, can_issue_1block says yes for a CTA, the hardware CTA is unused,
  -- the budgets of the queues have a value, and the amounts of the CTA, with these budgets, do not
  -- overflow when they are added to what is occupied, then claiming the CTA fails no assertion, it
  -- gets a range of free threads, and releasing it gives back exactly what was occupied before.
  pub can_issue_1block-claim_block :
      (n_active hw_ctaid : ℕ)
      → c.concurrent_kernel_sm ≡ true
      → Fits32 c k o bytes queue_regs
      → lookup o.cta_to_hwtid hw_ctaid ≡ none
      → can_issue_1block c k o n_active ≡ ok true
      → (start : ℕ) × (o' : Occupied) × (claim_block c k o hw_ctaid ≡ ok (start, o'))
        × (start < c.n_thread_per_shader)
        × Free o.hwtid start (padded_size c k)
        × (release_shader_resource_1block c k o' hw_ctaid ≡ ok o)
  can_issue_1block-claim_block n_active hw_ctaid on sums absent guard =
      elim (Result-cases (find_available_hwtid c o.hwtid (padded_size c k) false)) [
        | inr (why, e) ↦
            absurd (
              can_issue_1block-found c k o bytes queue_regs of_bytes of_regs n_active why on e
                guard)
        | inl ((none, hwtid), e) ↦ absurd (
            ground (
              arith,
              can_issue_1block-room c k o bytes queue_regs of_bytes of_regs n_active none hwtid on e
                  guard,
            ))
        | inl ((some start, hwtid), e) ↦ claim-release hw_ctaid start hwtid on sums absent e (
            can_issue_1block-room c k o bytes queue_regs of_bytes of_regs n_active (some start)
              hwtid on e guard)
      ]
