-- ===== src/Resources.antt =====
-- What the resident CTAs of a core occupy: `can_issue_1block`, `find_available_hwtid`,
-- `occupy_shader_resource_1block`, `release_shader_resource_1block` and the part of
-- `issue_block2core` that claims resources, of `shader_core_ctx` in gpgpu-sim/gpu-sim.cc. The
-- bitset `m_occupied_hwtid` is a list of its bits; a test, a set or a reset of a bit outside it
-- throws, which ends in the fault of a bad access.
pub mod Marks
pub mod Threads
pub mod Claim
pub mod Issue
mod Tests
use dae_proj.Base.{
  ℕ, zero, suc, ◌+◌, ◌-◌, Bool, true, false, not, ◌&&◌, Option, none, some, List, [], ◌∷◌,
  get_elem?, set, ltb, leb, ◌==◌, if◌then◌else◌, Result, ok, fault, Fault, ◌>>=◌, ◌>>◌, check,
  access, non_null, add32, mul32,
}
use dae_proj.Config.{
  ShaderConfig, Kernel, padded_cta_size, round_up_4, smemq_shared_bytes_per_cta,
  wasp_rfq_regs_per_cta, max_cta,
}

pub record Occupied : Type 0 where
  pub n_threads : ℕ
  pub shmem : ℕ
  pub regs : ℕ
  pub ctas : ℕ
  pub hwtid : List Bool
  pub cta_to_hwtid : List (ℕ × ℕ)

-- The inner loop: no bit of the `count` bits from `start` on is set. It stops at the first.
unfoldable pub range_free : List Bool → ℕ → ℕ → Result Bool
range_free hw start zero = ok true
range_free hw start (suc count) = access (get_elem? hw start) >>= λ taken.
    let rest = range_free hw (suc start) count in if taken then ok false else rest

-- The outer loop from `step` on; `fuel` bounds its rounds, and without any left it is aborted.
unfoldable pub find_from : ℕ → List Bool → ℕ → ℕ → ℕ → Result (Option ℕ)
find_from zero hw n_threads step size = fault Fault.aborted
find_from (suc fuel) hw n_threads step size =
    let rest = find_from fuel hw n_threads (add32 step size) size in
    if not (ltb step n_threads)
    then ok none
    else (range_free hw step size >>= λ is_free. if is_free then ok (some step) else rest)

-- The loops that set and reset the bits of a CTA.
unfoldable pub set_range : List Bool → ℕ → ℕ → Bool → Result (List Bool)
set_range hw start zero v = ok hw
set_range hw start (suc count) v =
    access (get_elem? hw start) >>= λ _. set_range (set hw start v) (suc start) count v

abbrev pub occupy_found : List Bool → ℕ → Option ℕ → Result (List Bool)
occupy_found hw size none = ok hw
occupy_found hw size (some step) = set_range hw step size true

-- `-1` is `none`. No CTA is empty, so that each round of the search is at a later thread.
unfoldable pub find_available_hwtid :
    ShaderConfig → List Bool → ℕ → Bool → Result (Option ℕ × List Bool)
find_available_hwtid c hw size occupy = do
  found ← find_from (suc c.n_thread_per_shader) hw c.n_thread_per_shader 0 size
  after ← if occupy then occupy_found hw size found else ok hw
  ok (found, after)

abbrev pub is_some {ℓ} : {A : Type ℓ} → Option A → Bool
is_some none = false
is_some (some a) = true

abbrev pub padded_size : ShaderConfig → Kernel → ℕ
padded_size c k = padded_cta_size k.threads_per_cta c.warp_size

abbrev pub used_regs : ShaderConfig → Kernel → ℕ → ℕ
used_regs c k queue_regs = add32 (mul32 (padded_size c k) (round_up_4 k.regs)) queue_regs

-- The four `+=` of a CTA that is taken in.
abbrev pub taken : ShaderConfig → Kernel → ℕ → ℕ → Occupied → Occupied
taken c k bytes queue_regs o = record o {
  n_threads = add32 o.n_threads (padded_size c k);
  shmem = add32 o.shmem (add32 k.smem bytes);
  regs = add32 o.regs (used_regs c k queue_regs);
  ctas = add32 o.ctas 1;
}

unfoldable pub occupy_shader_resource_1block :
    ShaderConfig → Kernel → Occupied → Bool → Result (Bool × Occupied)
occupy_shader_resource_1block c k o occupy =
    if ltb c.n_thread_per_shader (add32 o.n_threads (padded_size c k)) then ok (false, o) else (do
      found ← find_available_hwtid c o.hwtid (padded_size c k) false
      if not (is_some found.0) then ok (false, o) else (do
        bytes ← smemq_shared_bytes_per_cta c k
        if ltb c.shmem_size (add32 (add32 o.shmem k.smem) bytes) then ok (false, o) else (do
          queue_regs ← wasp_rfq_regs_per_cta c k
          if ltb c.shader_registers (add32 o.regs (used_regs c k queue_regs))
              then ok (false, o)
              else if ltb c.max_cta_per_core (add32 o.ctas 1)
              then ok (false, o)
              else ok (true, if occupy then taken c k bytes queue_regs o else o))))

unfoldable pub can_issue_1block : ShaderConfig → Kernel → Occupied → ℕ → Result Bool
can_issue_1block c k o n_active_cta = do
  most ← max_cta c k
  if c.concurrent_kernel_sm
      then (if ltb most 1
          then ok false
          else (do tried ← occupy_shader_resource_1block c k o false; ok tried.0))
      else ok (ltb n_active_cta most)

-- `m_occupied_cta_to_hwtid`, a map in which a CTA stands once.
unfoldable pub lookup : List (ℕ × ℕ) → ℕ → Option ℕ
lookup [] cta = none
lookup ((i, t) ∷ m) cta = if i == cta then some t else lookup m cta

unfoldable pub erase : List (ℕ × ℕ) → ℕ → List (ℕ × ℕ)
erase [] cta = []
erase ((i, t) ∷ m) cta = if i == cta then erase m cta else (i, t) ∷ erase m cta

-- What `issue_block2core` claims when kernels share a core, given the hardware CTA that it found:
-- the first thread, and what is occupied then.
unfoldable pub claim_block : ShaderConfig → Kernel → Occupied → ℕ → Result (ℕ × Occupied)
claim_block c k o hw_ctaid = do
  tried ← occupy_shader_resource_1block c k o true
  check tried.0
  found ← find_available_hwtid c tried.1.hwtid (padded_size c k) true
  start ← non_null found.0
  check (not (is_some (lookup tried.1.cta_to_hwtid hw_ctaid)))
  ok (
    start,
    record (tried.1) { hwtid = found.1; cta_to_hwtid = (hw_ctaid, start) ∷ tried.1.cta_to_hwtid },
  )

-- `m_occupied_cta_to_hwtid[hw_ctaid]` is 0 for a CTA that is not there.
abbrev or_zero : Option ℕ → ℕ
or_zero none = 0
or_zero (some t) = t

unfoldable pub release_shader_resource_1block :
    ShaderConfig → Kernel → Occupied → ℕ → Result Occupied
release_shader_resource_1block c k o hw_ctaid = if not c.concurrent_kernel_sm then ok o else (do
  check (leb (padded_size c k) o.n_threads)
  hwtid ← set_range o.hwtid (or_zero (lookup o.cta_to_hwtid hw_ctaid)) (padded_size c k) false
  bytes ← smemq_shared_bytes_per_cta c k
  check (leb (add32 k.smem bytes) o.shmem)
  queue_regs ← wasp_rfq_regs_per_cta c k
  check (leb (used_regs c k queue_regs) o.regs)
  check (leb 1 o.ctas)
  ok (record {
    n_threads = o.n_threads - padded_size c k;
    shmem = o.shmem - add32 k.smem bytes;
    regs = o.regs - used_regs c k queue_regs;
    ctas = o.ctas - 1;
    hwtid = hwtid;
    cta_to_hwtid = erase o.cta_to_hwtid hw_ctaid;
  }))
