-- ===== src/Config/Adaptive.antt =====
-- The adaptive L1 cache at the end of `max_cta` of gpgpu-sim/shader.cc: when its assertions hold.
use dae_proj.Base.{
  ℕ, ◌*◌, ◌≤◌, ◌<◌, ◌≡◌, inl, inr, refl, Bool-cases, true, List, [], ◌∷◌, some, leb, ok, u32_mod,
  mul32, arith,
}
use native.Mathlib.Nat.{mul_comm, mod-le}
use dae_proj.Config.{ShaderConfig, Kernel, back, first_option, total_unified, adapt_cache}

-- The options of an adaptive cache: the last of them holds all shared memory of the core, and none
-- is larger than the cache, which is not empty.
abbrev pub AllWithin : ℕ → List ℕ → Type 0
AllWithin size [] = Unit
AllWithin size (n ∷ ns) = (n ≤ size) × AllWithin size ns

pub record CacheOptions (c : ShaderConfig) : Type 0 where
  pub top : ℕ
  pub last : back c.shmem_opt_list ≡ some top
  pub holds : c.shmem_size ≤ top
  pub within : AllWithin (total_unified c) c.shmem_opt_list
  pub cache : 0 < total_unified c

first_option_total :
    (ns : List ℕ) (size n top : ℕ)
    → back ns ≡ some top
    → n ≤ top
    → AllWithin size ns
    → (chosen : ℕ) × (first_option ns n ≡ some chosen) × (chosen ≤ size)
unfolding back first_option
first_option_total [] size n top b h all = absurd (ground (arith, b))
first_option_total (m ∷ []) size n top b h all = (m, ground (arith, b, h), all.0)
first_option_total (m ∷ (next ∷ ns)) size n top b h all = elim (Bool-cases (leb n m)) [
  | inl e ↦ (m, rw e refl, all.0)
  | inr e ↦
      let (chosen, is, low) = first_option_total (next ∷ ns) size n top b h all.1 in
      (chosen, rw e is, low)
]

pub adapt_cache_total :
    (c : ShaderConfig) (k : Kernel) (n : ℕ)
    → (c.adaptive_cache_config ≡ true → CacheOptions c)
    → n * k.smem ≤ c.shmem_size
    → adapt_cache c k n ≡ ok tt
unfolding adapt_cache
adapt_cache_total c k n options room = elim (Bool-cases c.adaptive_cache_config) [
  | inr off ↦ rw off refl
  | inl on ↦
      let o = options on in
      let small : mul32 k.smem n ≤ o.top =
        omega (arith, mod-le (k.smem * n) u32_mod, mul_comm k.smem n, room, o.holds) in
      let (chosen, is, low) =
        first_option_total c.shmem_opt_list (total_unified c) (mul32 k.smem n) o.top o.last small
          o.within in
      ground (arith, on, o.last, small, is, low, o.cache)
]
