-- ===== src/Launch/Select.antt =====
-- What `select_kernel` of gpgpu-sim/gpu-sim.cc selects.
use dae_proj.Base.{
  ℕ, zero, suc, ◌+◌, ◌%◌, ◌≡◌, inl, inr, Bool-cases, true, false, Option, Option-cases, none, some,
  List, [], ◌∷◌, ◌++◌, length, get_elem?, ok, arith, add32,
}
use dae_proj.Launch.{KernelInfo, no_more_ctas_to_run}
use dae_proj.Launch.Kernels.{
  Gpu, executed, kernel_more_cta_left, select_from, select_kernel, selectable, goes_on,
  first_select, keep_kernel,
}

executed-append : (us : List ℕ) (uid : ℕ) → executed (us ++ (uid ∷ [])) uid ≡ true
unfolding executed
executed-append [] uid = ground arith
executed-append (u ∷ us) uid = let rest = executed-append us uid in ground (arith, rest)

-- The kernel can issue a CTA, and its selection is on record.
abbrev Selected : Gpu → KernelInfo → Type 0
Selected g k =
    (no_more_ctas_to_run k ≡ false)
    × (k.tb_latency ≡ 0)
    × (executed g.executed_kernel_uids k.uid ≡ true)

first_select-Selected :
    (g g' : Gpu) (n : ℕ) (slot : Option KernelInfo) (k : KernelInfo)
    → selectable g slot ≡ true
    → first_select g n slot ≡ ok (g', some k)
    → Selected g' k
unfolding kernel_more_cta_left no_more_ctas_to_run
first_select-Selected g g' n none k s h = absurd (ground (arith, h))
first_select-Selected g g' n (some j) k s h =
    let noted = executed-append g.executed_kernel_uids j.uid in
    (ground (arith, s, h), ground (arith, s, h), ground (arith, s, h, noted))

select_from-Selected :
    (fuel n : ℕ) (g g' : Gpu) (k : KernelInfo)
    → select_from g n fuel ≡ ok (g', some k)
    → Selected g' k
unfolding select_from
select_from-Selected zero n g g' k h = absurd (ground (arith, h))
select_from-Selected (suc fuel) n g g' k h =
    let at = add32 (add32 n g.last_issued_kernel) 1 % g.max_concurrent_kernel in
    elim (Option-cases (get_elem? g.running_kernels at)) [
      | inl e ↦ absurd (ground (arith, h, e))
      | inr (slot, e) ↦ elim (Bool-cases (selectable g slot)) [
        | inl s ↦ first_select-Selected g g' at slot k s (ground (arith, h, e, s))
        | inr s ↦ select_from-Selected fuel (n + 1) g g' k (ground (arith, h, e, s))
      ]
    ]

keep_kernel-Selected :
    (g g' : Gpu) (j k : KernelInfo)
    → goes_on (some j) ≡ true
    → keep_kernel g j ≡ (g', some k)
    → Selected g' k
unfolding no_more_ctas_to_run
keep_kernel-Selected g g' j k s h =
    let noted = executed-append g.executed_kernel_uids j.uid in
    elim (Bool-cases (executed g.executed_kernel_uids j.uid)) [
      | inl e ↦ (ground (arith, s, h, e), ground (arith, s, h, e), ground (arith, s, h, e))
      | inr e ↦ (ground (arith, s, h, e), ground (arith, s, h, e), ground (arith, s, h, e, noted))
    ]

-- A kernel that select_kernel returns has a CTA left and no launch latency, and it is on the
-- list of executed kernels.
pub select_kernel-ready :
    (g g' : Gpu) (k : KernelInfo)
    → select_kernel g ≡ ok (g', some k)
    → (no_more_ctas_to_run k ≡ false)
      × (k.tb_latency ≡ 0)
      × (executed g'.executed_kernel_uids k.uid ≡ true)
unfolding select_kernel
select_kernel-ready g g' k h =
    elim (Option-cases (get_elem? g.running_kernels g.last_issued_kernel)) [
      | inl e ↦ absurd (ground (arith, h, e))
      | inr (none, e) ↦
          select_from-Selected (length g.running_kernels) 0 g g' k (ground (arith, h, e))
      | inr (some j, e) ↦ elim (Bool-cases (goes_on (some j))) [
        | inl s ↦ keep_kernel-Selected g g' j k s (ground (arith, h, e, s))
        | inr s ↦ select_from-Selected (length g.running_kernels) 0 g g' k (ground (arith, h, e, s))
      ]
    ]
