-- ===== src/Barrier/Tests.antt =====
-- The barriers of gpgpu-sim/shader.cc at concrete inputs.
use dae_proj.Base.{
  ℕ, ◌<◌, ◌≡◌, ◌⊎◌, refl, true, false, ◌&&◌, [], ◌∷◌, some, ok, ltb, ◌==◌, u32_max, arith,
}
use dae_proj.Barrier.{
  WarpSet, BarrierSet, BarInst, sync, warp_per_cta_max, same_warps, find_cta, arrived,
  released_from, at_barrier_of, active_of, complete, warp_reaches_barrier, warp_waiting_at_barrier,
  find_warp, warp_exit, release_complete, exited,
}
use dae_proj.Barrier.Exit.{warp_exit-last}
use dae_proj.Barrier.Release.{warp_reaches_barrier-released, warp_reaches_barrier-last}

-- The warps 0 and 1 are a CTA, and warp 0 waits at barrier 0.
abbrev two_warps : WarpSet
two_warps = λ w. ltb w 2

abbrev waiting_warp : ℕ
waiting_warp = 0

abbrev one_waits : BarrierSet
one_waits = record {
  max_cta_per_core = 4;
  max_barriers_per_cta = 2;
  warp_size = 32;
  cta_to_warps = (0, two_warps) ∷ [];
  bar_id_to_warps = λ i w. i == 0 && w == 0;
  warp_active = two_warps;
  warp_at_barrier = λ w. w == 0;
}

abbrev bar_sync : BarInst
bar_sync = record { bar_type = sync; bar_id = 0; bar_count = u32_max }

abbrev both_gone : BarrierSet
both_gone = released_from (arrived one_waits 1 bar_sync) two_warps 0

cta_found : find_cta one_waits.cta_to_warps 0 ≡ some two_warps
unfolding find_cta
cta_found = refl

second_arrives : warp_reaches_barrier one_waits 0 1 bar_sync ≡ ok (both_gone, false)
unfolding warp_reaches_barrier find_cta complete same_warps
second_arrives = refl

warp_reaches_barrier-released_example :
    (waiting_warp ≡ 1) ⊎ (one_waits.bar_id_to_warps bar_sync.bar_id waiting_warp ≡ true)
warp_reaches_barrier-released_example =
    warp_reaches_barrier-released one_waits 0 1 bar_sync two_warps both_gone false cta_found
      second_arrives 0 0 refl refl refl (omega arith) refl refl

all_arrived :
    (w : ℕ)
    → w < warp_per_cta_max
    → at_barrier_of (arrived one_waits 1 bar_sync) two_warps 0 w
      ≡ active_of (arrived one_waits 1 bar_sync) two_warps w
all_arrived w p = ground arith

warp_reaches_barrier-last_example : warp_waiting_at_barrier both_gone 1 ≡ false
warp_reaches_barrier-last_example =
    warp_reaches_barrier-last one_waits 0 1 bar_sync two_warps both_gone false cta_found
      second_arrives 1 refl all_arrived (omega arith) refl

-- Warp 1 exits instead, and warp 0 goes on.
abbrev one_left : BarrierSet
one_left = released_from (exited one_waits 1) two_warps 0

warp_found : find_warp one_waits.cta_to_warps 1 ≡ some two_warps
unfolding find_warp
warp_found = refl

others_wait :
    (w : ℕ)
    → w < warp_per_cta_max
    → at_barrier_of one_waits two_warps 0 w ≡ active_of (exited one_waits 1) two_warps w
others_wait w p = ground arith

second_exits : warp_exit one_waits 1 ≡ ok one_left
unfolding warp_exit release_complete find_warp same_warps
second_exits = refl

warp_exit-last_example : warp_waiting_at_barrier one_left 0 ≡ false
warp_exit-last_example =
    warp_exit-last one_waits 1 two_warps one_left 0 warp_found second_exits (omega arith)
      others_wait 0 (omega arith) refl
