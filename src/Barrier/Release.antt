-- ===== src/Barrier/Release.antt =====
-- When `warp_reaches_barrier` of gpgpu-sim/shader.cc lets the warps of a CTA go on.
use dae_proj.Base.{
  ℕ, zero, suc, ◌<◌, ◌≡◌, ◌⊎◌, inl, inr, refl, ap, subst, ◌∙◌, Bool, Bool-cases, true, false, some,
  ◌==◌, if◌then◌else◌, ok, u32_max, arith,
}
use dae_proj.Barrier.{
  WarpSet, BarrierSet, BarInst, warp_per_cta_max, same_warps, find_cta, arrived, at_barrier_of,
  active_of, complete, released_from, warp_reaches_barrier, warp_waiting_at_barrier,
}

pub same_warps-at : (n : ℕ) (s t : WarpSet) (w : ℕ) → same_warps n s t ≡ true → w < n → s w ≡ t w
unfolding same_warps
same_warps-at zero s t w h p = absurd (omega arith)
same_warps-at (suc n) s t w h p = elim (Bool-cases (w == n)) [
  | inl e ↦ let is : n ≡ w = ground arith in subst (λ (v : ℕ). s v ≡ t v) is (ground (arith, h))
  | inr e ↦ same_warps-at n s t w (ground (arith, h)) (ground (arith, e, p))
]

reaches-inversion :
    (b : BarrierSet) (cta warp_id : ℕ) (inst : BarInst) (warps : WarpSet) (b' : BarrierSet)
    (reduced : Bool)
    → find_cta b.cta_to_warps cta ≡ some warps
    → warp_reaches_barrier b cta warp_id inst ≡ ok (b', reduced)
    → (warps warp_id ≡ true)
      × (b' ≡ (
          if complete (arrived b warp_id inst) warps inst
          then released_from (arrived b warp_id inst) warps inst.bar_id
          else arrived b warp_id inst))
unfolding warp_reaches_barrier
reaches-inversion b cta warp_id inst warps b' reduced there h = ground (arith, there, h)

pub same_warps-intro :
    (n : ℕ) (s t : WarpSet) → ((w : ℕ) → w < n → s w ≡ t w) → same_warps n s t ≡ true
unfolding same_warps
same_warps-intro zero s t h = refl
same_warps-intro (suc n) s t h =
    let rest = same_warps-intro n s t (λ w p. h w (omega (arith, p))) in
    ground (arith, rest, h n (omega arith))

complete-at :
    (b : BarrierSet) (warps : WarpSet) (inst : BarInst) (w : ℕ)
    → inst.bar_count ≡ u32_max
    → complete b warps inst ≡ true
    → w < warp_per_cta_max
    → at_barrier_of b warps inst.bar_id w ≡ active_of b warps w
unfolding complete
complete-at b warps inst w all h p =
    same_warps-at warp_per_cta_max (at_barrier_of b warps inst.bar_id) (active_of b warps) w
      (ground (arith, all, h)) p

complete-intro :
    (b : BarrierSet) (warps : WarpSet) (inst : BarInst)
    → inst.bar_count ≡ u32_max
    → ((w : ℕ) → w < warp_per_cta_max → at_barrier_of b warps inst.bar_id w ≡ active_of b warps w)
    → complete b warps inst ≡ true
unfolding complete
complete-intro b warps inst all h =
    let same =
      same_warps-intro warp_per_cta_max (at_barrier_of b warps inst.bar_id) (active_of b warps) h in
    ground (arith, all, same)

module _ (b : BarrierSet) (cta warp_id : ℕ) (inst : BarInst) (warps : WarpSet) (b' : BarrierSet)
    (reduced : Bool) (there : find_cta b.cta_to_warps cta ≡ some warps)
    (runs : warp_reaches_barrier b cta warp_id inst ≡ ok (b', reduced)) where
  -- When a warp reaches a barrier that is for all warps of its CTA, and some warp that waited
  -- does not wait any more afterwards, each active warp of the CTA is the one that arrives or
  -- had already arrived at that barrier.
  pub warp_reaches_barrier-released :
      (v w : ℕ)
      → inst.bar_count ≡ u32_max
      → warp_waiting_at_barrier b v ≡ true
      → warp_waiting_at_barrier b' v ≡ false
      → w < warp_per_cta_max
      → warps w ≡ true
      → b.warp_active w ≡ true
      → (w ≡ warp_id) ⊎ (b.bar_id_to_warps inst.bar_id w ≡ true)
  warp_reaches_barrier-released v w all before after p mine active =
      let (_, is) = reaches-inversion b cta warp_id inst warps b' reduced there runs in
      elim (Bool-cases (complete (arrived b warp_id inst) warps inst)) [
        | inl full ↦
            let at = complete-at (arrived b warp_id inst) warps inst w all full p in
            ground (arith, at, mine, active)
        | inr short ↦ absurd (ground (arith, is, short, before, after))
      ]

  -- When a warp reaches a barrier that is for all warps of its CTA, and with it exactly the
  -- active warps of the CTA have arrived there, no active warp of the CTA waits afterwards.
  pub warp_reaches_barrier-last :
      (v : ℕ)
      → inst.bar_count ≡ u32_max
      → ((w : ℕ)
          → w < warp_per_cta_max
          → at_barrier_of (arrived b warp_id inst) warps inst.bar_id w
            ≡ active_of (arrived b warp_id inst) warps w)
      → v < warp_per_cta_max
      → active_of b warps v ≡ true
      → warp_waiting_at_barrier b' v ≡ false
  warp_reaches_barrier-last v all everyone p mine =
      let (_, is) = reaches-inversion b cta warp_id inst warps b' reduced there runs in
      let full = complete-intro (arrived b warp_id inst) warps inst all everyone in
      let at = everyone v p in
      let gone : b' ≡ released_from (arrived b warp_id inst) warps inst.bar_id =
        ground (arith, is, full) in
      ap (λ (x : BarrierSet). x.warp_at_barrier v) gone ∙ ground (arith, at, mine)

  -- When a warp reaches a barrier, whatever the count of the barrier, the warps outside its
  -- CTA wait afterwards exactly when they waited before.
  pub warp_reaches_barrier-apart :
      (v : ℕ) → warps v ≡ false → warp_waiting_at_barrier b' v ≡ warp_waiting_at_barrier b v
  warp_reaches_barrier-apart v other =
      let (mine, is) = reaches-inversion b cta warp_id inst warps b' reduced there runs in
      let ne : v == warp_id ≡ false = ground (arith, mine, other) in
      ap (λ (x : BarrierSet). x.warp_at_barrier v) is
      ∙ elim (Bool-cases (complete (arrived b warp_id inst) warps inst)) [
        | inl full ↦ ground (arith, full, ne, other)
        | inr short ↦ ground (arith, short, ne, other)
      ]
