-- ===== src/Config/Limits.antt =====
-- What `max_cta` of gpgpu-sim/shader.cc promises about the resources of a core.
use dae_proj.Base.{
  ℕ, zero, suc, ◌+◌, ◌*◌, ◌/◌, ◌%◌, ◌≤◌, ◌<◌, ◌≡◌, ◌⊎◌, inl, inr, ◌∙◌, false, ◌==◌, if◌then◌else◌,
  ok, u32_max, u32_mod, Result-cases, arith,
}
use native.Mathlib.Nat.{mod-le, div-add-mod', lt-div-mul-add, le-div_iff_mul-le, div-lt_iff_lt-mul}
use dae_proj.Config.{
  ShaderConfig, Kernel, padded_cta_size, wasp_rfq_regs_per_cta, smemq_shared_bytes_per_cta, limit,
  total_smem_per_cta, total_regs_per_cta, resident_ctas, cut_to_grid, settle_ctas, max_cta,
  max_cta_per_shader, adapt_cache,
}

limit-pos : (amount each : ℕ) → 0 < each → limit amount each ≡ amount / each
limit-pos amount each p = ground arith

le_limit : (r amount each : ℕ) → r ≤ limit amount each → r * each ≤ amount
le_limit r amount zero h = omega arith
le_limit r amount (suc e) h =
    (le-div_iff_mul-le {k = suc e} {x = r} {y = amount} (omega arith)).0
      (omega (arith, limit-pos amount (suc e) (omega arith)))

-- One more than a quotient's share is too much.
lt_share : (r amount each : ℕ) → 0 < each → r ≡ amount / each → amount < (r + 1) * each
lt_share r amount each p h =
    (div-lt_iff_lt-mul {k = each} {x = amount} {y = r + 1} p).0 (omega (arith, h))

lt_limit : (r amount each : ℕ) → r < u32_max → r ≡ limit amount each → amount < (r + 1) * each
lt_limit r amount zero s h = ground arith
lt_limit r amount (suc e) s h =
    lt_share r amount (suc e) (omega arith) (h ∙ limit-pos amount (suc e) (omega arith))

cut_to_grid-le : (c : ShaderConfig) (k : Kernel) (r : ℕ) → 0 < c.num_shader → cut_to_grid c k r ≤ r
unfolding cut_to_grid
cut_to_grid-le c k r p = ground (
  arith,
  mod-le (r * c.num_shader) u32_mod,
  (div-lt_iff_lt-mul {k = c.num_shader} {x = k.num_blocks} {y = r} p).1,
)

share-cases : (a b : ℕ) → (a % b ≡ 0) ⊎ (0 < a % b)
share-cases a b = ground arith

add_one_mul : (a b : ℕ) → (a + 1) * b ≡ a * b + b
add_one_mul a b = omega arith

enough :
    (blocks cores : ℕ)
    → 0 < cores
    → blocks ≤ (blocks / cores + (if blocks % cores == 0 then 0 else 1)) * cores
enough blocks cores p = elim (share-cases blocks cores) [
  | inl e ↦ ground (arith, div-add-mod' blocks cores, e)
  | inr e ↦ ground (arith, add_one_mul (blocks / cores) cores, lt-div-mul-add {a = blocks} p, e)
]

-- A core that is given fewer CTAs than fit is given enough.
cut_to_grid-waiting :
    (c : ShaderConfig) (k : Kernel) (n r : ℕ)
    → 0 < c.num_shader
    → cut_to_grid c k n ≡ r
    → r * c.num_shader < k.num_blocks
    → n ≡ r
unfolding cut_to_grid
cut_to_grid-waiting c k n r p h w = ground (arith, enough k.num_blocks c.num_shader p)

settle_ctas-inversion :
    (c : ShaderConfig) (k : Kernel) (n r : ℕ)
    → c.ignore_resources_limitation ≡ false
    → settle_ctas c k n ≡ ok r
    → (n ≡ r) × (1 ≤ r) × (r ≤ max_cta_per_shader)
unfolding settle_ctas
settle_ctas-inversion c k n r i h = elim (Result-cases (adapt_cache c k n)) [
  | inl (done, e) ↦ ground (arith, h, i, e)
  | inr (why, e) ↦ absurd (ground (arith, h, i, e))
]

max_cta-inversion :
    (c : ShaderConfig) (k : Kernel) (r bytes regs : ℕ)
    → smemq_shared_bytes_per_cta c k ≡ ok bytes
    → wasp_rfq_regs_per_cta c k ≡ ok regs
    → max_cta c k ≡ ok r
    → settle_ctas c k (cut_to_grid c k (resident_ctas c k bytes regs)) ≡ ok r
unfolding max_cta
max_cta-inversion c k r bytes regs b g h = ground arith

resident-le :
    (c : ShaderConfig) (k : Kernel) (r bytes regs : ℕ)
    → 0 < padded_cta_size k.threads_per_cta c.warp_size
    → r ≤ resident_ctas c k bytes regs
    → (r * padded_cta_size k.threads_per_cta c.warp_size ≤ c.n_thread_per_shader)
      × (r * total_smem_per_cta k bytes ≤ c.shmem_size)
      × (r * total_regs_per_cta c k regs ≤ c.shader_registers)
      × (r ≤ c.max_cta_per_core)
unfolding resident_ctas
resident-le c k r bytes regs p h = (
  (le-div_iff_mul-le p).0 (omega (arith, h)),
  le_limit r c.shmem_size (total_smem_per_cta k bytes) (omega (arith, h)),
  le_limit r c.shader_registers (total_regs_per_cta c k regs) (omega (arith, h)),
  omega (arith, h),
)

resident-cases :
    (c : ShaderConfig) (k : Kernel) (r bytes regs : ℕ)
    → resident_ctas c k bytes regs ≡ r
    → (r ≡ c.n_thread_per_shader / padded_cta_size k.threads_per_cta c.warp_size)
      ⊎ (r ≡ limit c.shmem_size (total_smem_per_cta k bytes))
      ⊎ (r ≡ limit c.shader_registers (total_regs_per_cta c k regs))
      ⊎ (r ≡ c.max_cta_per_core)
unfolding resident_ctas
resident-cases c k r bytes regs h = ground arith

module _ (c : ShaderConfig) (k : Kernel) (bytes regs : ℕ) (cores : 0 < c.num_shader)
    (padded : 0 < padded_cta_size k.threads_per_cta c.warp_size)
    (of_smem : smemq_shared_bytes_per_cta c k ≡ ok bytes)
    (of_regs : wasp_rfq_regs_per_cta c k ≡ ok regs) where
  -- When resource limits are not ignored and max_cta returns r, r is from 1 to 32 and at most
  -- the configured limit of CTAs, and r CTAs use no more threads, shared memory and registers
  -- than a core has, their shares of the queues included. The padded size and the number of
  -- cores are positive, and a CTA needs what the budgets return.
  pub max_cta-fits :
      (r : ℕ)
      → c.ignore_resources_limitation ≡ false
      → max_cta c k ≡ ok r
      → (1 ≤ r)
        × (r ≤ max_cta_per_shader)
        × (r * padded_cta_size k.threads_per_cta c.warp_size ≤ c.n_thread_per_shader)
        × (r * total_smem_per_cta k bytes ≤ c.shmem_size)
        × (r * total_regs_per_cta c k regs ≤ c.shader_registers)
        × (r ≤ c.max_cta_per_core)
  max_cta-fits r strict h =
      let (cut, least, most) =
        settle_ctas-inversion c k _ r strict
          (max_cta-inversion c k r bytes regs of_smem of_regs h) in
      let limits =
        resident-le c k r bytes regs padded
          (omega (arith, cut, cut_to_grid-le c k (resident_ctas c k bytes regs) cores)) in
      (least, most, limits.0, limits.1, limits.2, limits.3)

  -- When resource limits are not ignored, max_cta returns r, and r CTAs on each core do not
  -- hold the whole grid, then r is the configured limit of CTAs or one CTA more would not fit
  -- into the threads, the shared memory or the registers of a core.
  pub max_cta-greatest :
      (r : ℕ)
      → c.ignore_resources_limitation ≡ false
      → max_cta c k ≡ ok r
      → r * c.num_shader < k.num_blocks
      → (c.n_thread_per_shader < (r + 1) * padded_cta_size k.threads_per_cta c.warp_size)
        ⊎ (c.shmem_size < (r + 1) * total_smem_per_cta k bytes)
        ⊎ (c.shader_registers < (r + 1) * total_regs_per_cta c k regs)
        ⊎ (r ≡ c.max_cta_per_core)
  max_cta-greatest r strict h waiting =
      let (cut, _, most) =
        settle_ctas-inversion c k _ r strict
          (max_cta-inversion c k r bytes regs of_smem of_regs h) in
      let is = resident-cases c k r bytes regs (cut_to_grid-waiting c k _ r cores cut waiting) in
      elim is [
        | inl e ↦ inl (lt_share r c.n_thread_per_shader _ padded e)
        | inr (inl e) ↦ inr (inl (lt_limit r c.shmem_size _ (omega arith) e))
        | inr (inr (inl e)) ↦ inr (inr (inl (lt_limit r c.shader_registers _ (omega arith) e)))
        | inr (inr (inr e)) ↦ inr (inr (inr e))
      ]
