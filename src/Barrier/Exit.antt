-- ===== src/Barrier/Exit.antt =====
-- `warp_exit` of gpgpu-sim/shader.cc: a warp that exits may be the last that others wait for.
use dae_proj.Base.{
  ℕ, zero, suc, ◌≤◌, ◌<◌, ◌≡◌, inl, inr, refl, sym, ap, subst, ◌∙◌, Bool, Bool-cases, true, false,
  ◌&&◌, some, ◌==◌, if◌then◌else◌, ok, arith,
}
use dae_proj.Barrier.{
  WarpSet, BarrierSet, warp_per_cta_max, same_warps, at_barrier_of, active_of, released_from,
  find_warp, release_complete, exited, warp_exit, warp_waiting_at_barrier,
}
use dae_proj.Barrier.Release.{same_warps-intro}

-- The test of the loop of `warp_exit` at barrier `n`.
abbrev empties : BarrierSet → WarpSet → ℕ → Bool
empties b warps n = same_warps warp_per_cta_max (at_barrier_of b warps n) (active_of b warps)

-- One round of the loop.
abbrev after_step : BarrierSet → WarpSet → ℕ → BarrierSet
after_step b warps n = if empties b warps n then released_from b warps n else b

release_complete-suc :
    (b : BarrierSet) (warps : WarpSet) (n : ℕ)
    → release_complete b warps (suc n) ≡ after_step (release_complete b warps n) warps n
unfolding release_complete
release_complete-suc b warps n = refl

release_complete-zero : (b : BarrierSet) (warps : WarpSet) → release_complete b warps 0 ≡ b
unfolding release_complete
release_complete-zero b warps = refl

step-gone :
    (b : BarrierSet) (warps : WarpSet) (n v : ℕ)
    → empties b warps n ≡ true
    → b.bar_id_to_warps n v ≡ true
    → warps v ≡ true
    → (after_step b warps n).warp_at_barrier v ≡ false
step-gone b warps n v e at mine = rw e (ground (arith, at, mine))

step-active :
    (b : BarrierSet) (warps : WarpSet) (n v : ℕ)
    → (after_step b warps n).warp_active v ≡ b.warp_active v
step-active b warps n v = elim (Bool-cases (empties b warps n)) [
  | inl e ↦ rw e refl
  | inr e ↦ rw e refl
]

step-later :
    (b : BarrierSet) (warps : WarpSet) (n j v : ℕ)
    → n < j
    → (after_step b warps n).bar_id_to_warps j v ≡ b.bar_id_to_warps j v
step-later b warps n j v h = elim (Bool-cases (empties b warps n)) [
  | inl e ↦ rw e (ground (arith, h))
  | inr e ↦ rw e refl
]

step-waiting :
    (b : BarrierSet) (warps : WarpSet) (n v : ℕ)
    → b.warp_at_barrier v ≡ false
    → (after_step b warps n).warp_at_barrier v ≡ false
step-waiting b warps n v h = elim (Bool-cases (empties b warps n)) [
  | inl e ↦ rw e (ground (arith, h))
  | inr e ↦ rw e h
]

module _ (b : BarrierSet) (warps : WarpSet) where
  kept-active : (n v : ℕ) → (release_complete b warps n).warp_active v ≡ b.warp_active v
  kept-active zero v = ap (λ (x : BarrierSet). x.warp_active v) (release_complete-zero b warps)
  kept-active (suc n) v =
      ap (λ (x : BarrierSet). x.warp_active v) (release_complete-suc b warps n)
      ∙ step-active (release_complete b warps n) warps n v
      ∙ kept-active n v

  kept-later :
      (n j v : ℕ) → n ≤ j → (release_complete b warps n).bar_id_to_warps j v ≡ b.bar_id_to_warps j v
  kept-later zero j v h =
      ap (λ (x : BarrierSet). x.bar_id_to_warps j v) (release_complete-zero b warps)
  kept-later (suc n) j v h =
      ap (λ (x : BarrierSet). x.bar_id_to_warps j v) (release_complete-suc b warps n)
      ∙ step-later (release_complete b warps n) warps n j v (omega arith)
      ∙ kept-later n j v (omega arith)

  module _ (i : ℕ)
      (everyone : (w : ℕ) → w < warp_per_cta_max → at_barrier_of b warps i w ≡ active_of b warps w)
      (v : ℕ) (below : v < warp_per_cta_max) (mine : active_of b warps v ≡ true) where
    emptied : empties (release_complete b warps i) warps i ≡ true
    emptied = same_warps-intro warp_per_cta_max _ _ (λ w p.
        let k = kept-later i i w (omega arith) in
        let a = kept-active i w in
        ap (λ (x : Bool). warps w && x) k ∙ everyone w p ∙ sym (ap (λ (x : Bool). warps w && x) a))

    at-exit : (release_complete b warps i).bar_id_to_warps i v ≡ true
    at-exit = kept-later i i v (omega arith) ∙ ground (arith, everyone v below, mine)

    gone-after : (n : ℕ) → i < n → (release_complete b warps n).warp_at_barrier v ≡ false
    gone-after zero h = absurd (omega arith)
    gone-after (suc n) h =
        ap (λ (x : BarrierSet). x.warp_at_barrier v) (release_complete-suc b warps n)
        ∙ elim (Bool-cases (i == n)) [
          | inl e ↦
              let at : i ≡ n = ground arith in
              subst
                (λ (m : ℕ).
                  (after_step (release_complete b warps m) warps m).warp_at_barrier v ≡ false)
                at
                (step-gone (release_complete b warps i) warps i v emptied at-exit
                  (ground (arith, mine)))
          | inr e ↦
              step-waiting (release_complete b warps n) warps n v
                (gone-after n (ground (arith, e, h)))
        ]

-- When a warp exits, and exactly the other active warps of its CTA have arrived at one of the
-- configured barriers, none of them waits afterwards.
pub warp_exit-last :
    (b : BarrierSet) (warp_id : ℕ) (warps : WarpSet) (b' : BarrierSet) (i : ℕ)
    → find_warp b.cta_to_warps warp_id ≡ some warps
    → warp_exit b warp_id ≡ ok b'
    → i < b.max_barriers_per_cta
    → ((w : ℕ)
        → w < warp_per_cta_max
        → at_barrier_of b warps i w ≡ active_of (exited b warp_id) warps w)
    → (v : ℕ) → v < warp_per_cta_max
    → active_of (exited b warp_id) warps v ≡ true
    → warp_waiting_at_barrier b' v ≡ false
unfolding warp_exit
warp_exit-last b warp_id warps b' i there runs low everyone v below mine =
    let is : release_complete (exited b warp_id) warps b.max_barriers_per_cta ≡ b' =
      ground (arith, there, runs) in
    ap (λ (x : BarrierSet). x.warp_at_barrier v) (sym is)
    ∙ gone-after (exited b warp_id) warps i everyone v below mine b.max_barriers_per_cta low
