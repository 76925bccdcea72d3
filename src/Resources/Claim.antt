-- ===== src/Resources/Claim.antt =====
-- What a core takes in when it claims a CTA, and gives back when it releases it: gpgpu-sim/gpu-sim.cc.
use dae_proj.Base.{
  ℕ, ◌+◌, ◌≤◌, ◌<◌, ◌≡◌, ◌≢◌, inl, inr, refl, ap, Bool, Bool-cases, true, false, ◌&&◌, List, [],
  ◌∷◌, Option, none, some, leb, ◌==◌, if◌then◌else◌, ok, fault, Fault, add32, u32_mod, arith,
}
use dae_proj.Config.{ShaderConfig, Kernel, smemq_shared_bytes_per_cta, wasp_rfq_regs_per_cta}
use dae_proj.Resources.{
  Occupied, find_available_hwtid, is_some, padded_size, used_regs, taken,
  occupy_shader_resource_1block, can_issue_1block, lookup, erase, claim_block, or_zero,
  release_shader_resource_1block,
}
use dae_proj.Resources.Marks.{Free, set_bits, set_range-undo}

-- What is occupied is within the core.
pub record Within (c : ShaderConfig) (o : Occupied) : Type 0 where
  pub n_threads : o.n_threads ≤ c.n_thread_per_shader
  pub shmem : o.shmem ≤ c.shmem_size
  pub regs : o.regs ≤ c.shader_registers
  pub ctas : o.ctas ≤ c.max_cta_per_core

-- All tests of `occupy_shader_resource_1block`.
abbrev pub room : ShaderConfig → Kernel → Occupied → ℕ → ℕ → Option ℕ → Bool
room c k o bytes queue_regs found =
    leb (add32 o.n_threads (padded_size c k)) c.n_thread_per_shader
    && is_some found
    && leb (add32 (add32 o.shmem k.smem) bytes) c.shmem_size
    && leb (add32 o.regs (used_regs c k queue_regs)) c.shader_registers
    && leb (add32 o.ctas 1) c.max_cta_per_core

module _ (c : ShaderConfig) (k : Kernel) (o : Occupied) (bytes queue_regs : ℕ)
    (of_bytes : smemq_shared_bytes_per_cta c k ≡ ok bytes)
    (of_regs : wasp_rfq_regs_per_cta c k ≡ ok queue_regs) where
  pub occupy-eq :
      (found : Option ℕ) (hwtid : List Bool) (occupy : Bool)
      → find_available_hwtid c o.hwtid (padded_size c k) false ≡ ok (found, hwtid)
      → occupy_shader_resource_1block c k o occupy
        ≡ ok (
          room c k o bytes queue_regs found,
          if room c k o bytes queue_regs found && occupy then taken c k bytes queue_regs o else o,
        )
  unfolding occupy_shader_resource_1block
  occupy-eq found hwtid occupy h = ground (arith, h, of_bytes, of_regs)

erase-absent : (m : List (ℕ × ℕ)) (cta : ℕ) → lookup m cta ≡ none → erase m cta ≡ m
unfolding lookup erase
erase-absent [] cta h = refl
erase-absent ((i, t) ∷ m) cta h = elim (Bool-cases (i == cta)) [
  | inl e ↦ absurd (ground (arith, e, h))
  | inr e ↦ rw e (ap (◌∷◌ (i, t)) (erase-absent m cta (ground (arith, e, h))))
]

add32_assoc : (a b d : ℕ) → add32 a (add32 b d) ≡ add32 (add32 a b) d
add32_assoc a b d = omega arith

pub taken-Within :
    (c : ShaderConfig) (k : Kernel) (o : Occupied) (bytes queue_regs : ℕ) (found : Option ℕ)
    → room c k o bytes queue_regs found ≡ true
    → Within c (taken c k bytes queue_regs o)
taken-Within c k o bytes queue_regs found h = record {
  n_threads = ground arith;
  shmem = ground (arith, add32_assoc o.shmem k.smem bytes);
  regs = ground arith;
  ctas = ground arith;
}

-- What `claim_block` leaves when it claims the threads from `start` on.
abbrev pub claimed : ShaderConfig → Kernel → Occupied → ℕ → ℕ → ℕ → ℕ → Occupied
claimed c k o bytes queue_regs hw_ctaid start = record (taken c k bytes queue_regs o) {
  hwtid = set_bits o.hwtid start (padded_size c k) true;
  cta_to_hwtid = (hw_ctaid, start) ∷ o.cta_to_hwtid;
}

-- The sums of the amounts do not wrap.
pub record Fits32 (c : ShaderConfig) (k : Kernel) (o : Occupied) (bytes queue_regs : ℕ)
    : Type 0 where
  pub n_threads : o.n_threads + padded_size c k < u32_mod
  pub smem : k.smem + bytes < u32_mod
  pub shmem : o.shmem + (k.smem + bytes) < u32_mod
  pub regs : o.regs + used_regs c k queue_regs < u32_mod
  pub ctas : o.ctas + 1 < u32_mod

release-lookup :
    (m : List (ℕ × ℕ)) (cta start : ℕ)
    → lookup m cta ≡ none
    → (or_zero (lookup ((cta, start) ∷ m) cta) ≡ start) × (erase ((cta, start) ∷ m) cta ≡ m)
unfolding lookup erase
release-lookup m cta start h =
    let same : cta == cta ≡ true = ground arith in (rw same refl, rw same (erase-absent m cta h))

module _ (c : ShaderConfig) (k : Kernel) (o : Occupied) (bytes queue_regs : ℕ)
    (of_bytes : smemq_shared_bytes_per_cta c k ≡ ok bytes)
    (of_regs : wasp_rfq_regs_per_cta c k ≡ ok queue_regs) where
  pub release-claimed :
      (hw_ctaid start : ℕ)
      → c.concurrent_kernel_sm ≡ true
      → Fits32 c k o bytes queue_regs
      → lookup o.cta_to_hwtid hw_ctaid ≡ none
      → Free o.hwtid start (padded_size c k)
      → release_shader_resource_1block c k (claimed c k o bytes queue_regs hw_ctaid start) hw_ctaid
        ≡ ok o
  unfolding release_shader_resource_1block
  release-claimed hw_ctaid start on sums absent free =
      let (at, gone) = release-lookup o.cta_to_hwtid hw_ctaid start absent in
      ground (
        arith,
        on,
        of_bytes,
        of_regs,
        at,
        gone,
        sums.n_threads,
        sums.smem,
        sums.shmem,
        sums.regs,
        sums.ctas,
        set_range-undo o.hwtid start (padded_size c k) free,
      )

  pub can_issue_1block-room :
      (n_active : ℕ) (found : Option ℕ) (hwtid : List Bool)
      → c.concurrent_kernel_sm ≡ true
      → find_available_hwtid c o.hwtid (padded_size c k) false ≡ ok (found, hwtid)
      → can_issue_1block c k o n_active ≡ ok true
      → room c k o bytes queue_regs found ≡ true
  unfolding can_issue_1block
  can_issue_1block-room n_active found hwtid on find yes' =
      ground
        (arith, on, yes', occupy-eq c k o bytes queue_regs of_bytes of_regs found hwtid false find)

  pub can_issue_1block-found :
      (n_active : ℕ) (why : Fault)
      → c.concurrent_kernel_sm ≡ true
      → find_available_hwtid c o.hwtid (padded_size c k) false ≡ fault why
      → can_issue_1block c k o n_active ≢ ok true
  unfolding can_issue_1block occupy_shader_resource_1block
  can_issue_1block-found n_active why on find yes' = ground (arith, on, yes', find)

  pub claim_block-eq :
      (hw_ctaid start : ℕ) (hwtid : List Bool)
      → find_available_hwtid c o.hwtid (padded_size c k) false ≡ ok (some start, hwtid)
      → find_available_hwtid c o.hwtid (padded_size c k) true
        ≡ ok (some start, set_bits o.hwtid start (padded_size c k) true)
      → room c k o bytes queue_regs (some start) ≡ true
      → lookup o.cta_to_hwtid hw_ctaid ≡ none
      → claim_block c k o hw_ctaid ≡ ok (start, claimed c k o bytes queue_regs hw_ctaid start)
  unfolding claim_block
  claim_block-eq hw_ctaid start hwtid seen found r absent =
      rw (occupy-eq c k o bytes queue_regs of_bytes of_regs (some start) hwtid true seen)
        (simp (r, found, absent) refl)
