-- ===== src/Barrier.antt =====
-- The barriers of a core: class `barrier_set_t` in gpgpu-sim/shader.cc. A `warp_set_t` is a bitset
-- of `WARP_PER_CTA_MAX` warps, here the test of its bits, of which only those below it count; the maps from CTAs and from barriers to
-- warps are an association list and a function. What `broadcast_barrier_reduction` does to the
-- threads is not here: a release says whether it is called.
pub mod Release
pub mod Exit
mod Tests
use dae_proj.Base.{
  ℕ, zero, suc, ◌+◌, ◌*◌, Bool, true, false, not, ◌&&◌, ◌||◌, Option, none, some, List, [], ◌∷◌,
  length, ltb, leb, ◌==◌, if◌then◌else◌, Result, ok, fault, Fault, ◌>>=◌, ◌>>◌, check, access,
  u32_max, mul32,
}

-- `WARP_PER_CTA_MAX`
abbrev pub warp_per_cta_max : ℕ
warp_per_cta_max = 64

abbrev pub WarpSet : Type 0
WarpSet = ℕ → Bool

abbrev pub no_warps : WarpSet
no_warps = λ w. false

abbrev pub add_warp : WarpSet → ℕ → WarpSet
add_warp s v = λ w. w == v || s w

abbrev pub remove_warp : WarpSet → ℕ → WarpSet
remove_warp s v = λ w. not (w == v) && s w

abbrev pub both : WarpSet → WarpSet → WarpSet
both s t = λ w. s w && t w

abbrev pub either : WarpSet → WarpSet → WarpSet
either s t = λ w. s w || t w

-- `s & ~t`
abbrev pub without : WarpSet → WarpSet → WarpSet
without s t = λ w. s w && not (t w)

-- `any()`, over the first `n` bits.
unfoldable pub any_of : ℕ → WarpSet → Bool
any_of zero s = false
any_of (suc n) s = s n || any_of n s

-- `count()`, over the first `n` bits.
unfoldable pub count_of : ℕ → WarpSet → ℕ
count_of zero s = 0
count_of (suc n) s = count_of n s + (if s n then 1 else 0)

abbrev same_bit : Bool → Bool → Bool
same_bit true b = b
same_bit false b = not b

-- `==`, over the first `n` bits.
unfoldable pub same_warps : ℕ → WarpSet → WarpSet → Bool
same_warps zero s t = true
same_warps (suc n) s t = same_bit (s n) (t n) && same_warps n s t

pub record BarrierSet : Type 0 where
  pub max_cta_per_core : ℕ
  pub max_barriers_per_cta : ℕ
  pub warp_size : ℕ
  pub cta_to_warps : List (ℕ × WarpSet)
  pub bar_id_to_warps : ℕ → WarpSet
  pub warp_active : WarpSet
  pub warp_at_barrier : WarpSet

unfoldable pub find_cta : List (ℕ × WarpSet) → ℕ → Option WarpSet
find_cta [] cta = none
find_cta ((i, s) ∷ m) cta = if i == cta then some s else find_cta m cta

unfoldable pub erase_cta_warps : List (ℕ × WarpSet) → ℕ → List (ℕ × WarpSet)
erase_cta_warps [] cta = []
erase_cta_warps ((i, s) ∷ m) cta =
    if i == cta then erase_cta_warps m cta else (i, s) ∷ erase_cta_warps m cta

abbrev is_absent : Option WarpSet → Bool
is_absent none = true
is_absent (some s) = false

-- The loops over the barriers: barrier `i` loses the warps `f i`, below the configured number.
abbrev pub lose : BarrierSet → (ℕ → WarpSet) → ℕ → WarpSet
lose b f i =
    if ltb i b.max_barriers_per_cta
    then without (b.bar_id_to_warps i) (f i)
    else b.bar_id_to_warps i

unfoldable pub allocate_barrier : BarrierSet → ℕ → WarpSet → Result BarrierSet
allocate_barrier b cta warps = do
  check (ltb cta b.max_cta_per_core)
  check (is_absent (find_cta b.cta_to_warps cta))
  check (leb (length ((cta, warps) ∷ b.cta_to_warps)) b.max_cta_per_core)
  ok (record b {
    cta_to_warps = (cta, warps) ∷ b.cta_to_warps;
    warp_active = either b.warp_active warps;
    warp_at_barrier = without b.warp_at_barrier warps;
    bar_id_to_warps = lose b (λ i. warps);
  })

-- No barrier below `n` has a warp of the CTA.
unfoldable pub none_stuck : BarrierSet → WarpSet → ℕ → Bool
none_stuck b warps zero = true
none_stuck b warps (suc n) =
    not (any_of warp_per_cta_max (both warps (b.bar_id_to_warps n))) && none_stuck b warps n

abbrev deallocated : BarrierSet → ℕ → WarpSet → BarrierSet
deallocated b cta warps = record b {
  cta_to_warps = erase_cta_warps b.cta_to_warps cta;
  warp_active = without b.warp_active warps;
  warp_at_barrier = without b.warp_at_barrier warps;
  bar_id_to_warps = lose b (λ i. warps);
}

abbrev deallocate_found : BarrierSet → ℕ → Option WarpSet → Result BarrierSet
deallocate_found b cta none = ok b
deallocate_found b cta (some warps) = do
  check (not (any_of warp_per_cta_max (both warps b.warp_at_barrier)))
  check (not (any_of warp_per_cta_max (both warps b.warp_active)))
  check (none_stuck b warps b.max_barriers_per_cta)
  ok (deallocated b cta warps)

unfoldable pub deallocate_barrier : BarrierSet → ℕ → Result BarrierSet
deallocate_barrier b cta = deallocate_found b cta (find_cta b.cta_to_warps cta)

pub data BarrierType : Type 0 where
  sync arrive red : BarrierType

abbrev pub waits : BarrierType → Bool
waits arrive = false
waits _ = true

abbrev pub is_red : BarrierType → Bool
is_red red = true
is_red _ = false

-- `bar_type`, `bar_id` and `bar_count` of the instruction.
pub record BarInst : Type 0 where
  pub bar_type : BarrierType
  pub bar_id : ℕ
  pub bar_count : ℕ

-- The barrier with the warp that has arrived, before the test for a release.
abbrev pub arrived : BarrierSet → ℕ → BarInst → BarrierSet
arrived b warp_id inst = record b {
  bar_id_to_warps =
      λ i. if i == inst.bar_id then add_warp (b.bar_id_to_warps i) warp_id else b.bar_id_to_warps i;
  warp_at_barrier =
      if waits inst.bar_type then add_warp b.warp_at_barrier warp_id else b.warp_at_barrier;
}

abbrev pub at_barrier_of : BarrierSet → WarpSet → ℕ → WarpSet
at_barrier_of b warps bar_id = both warps (b.bar_id_to_warps bar_id)

abbrev pub active_of : BarrierSet → WarpSet → WarpSet
active_of b warps = both warps b.warp_active

-- All active warps of the CTA have arrived, or as many threads as the instruction asks for.
unfoldable pub complete : BarrierSet → WarpSet → BarInst → Bool
complete b warps inst =
    if inst.bar_count == u32_max
    then same_warps warp_per_cta_max (at_barrier_of b warps inst.bar_id) (active_of b warps)
    else count_of warp_per_cta_max (at_barrier_of b warps inst.bar_id) * b.warp_size
      == inst.bar_count

abbrev pub released_from : BarrierSet → WarpSet → ℕ → BarrierSet
released_from b warps bar_id = record b {
  bar_id_to_warps = λ i.
      if i == bar_id
      then without (b.bar_id_to_warps i) (at_barrier_of b warps bar_id)
      else b.bar_id_to_warps i;
  warp_at_barrier = without b.warp_at_barrier (at_barrier_of b warps bar_id);
}

-- The Boolean says that the barrier's reduction is broadcast.
abbrev reach_found : BarrierSet → Option WarpSet → ℕ → BarInst → Result (BarrierSet × Bool)
reach_found b none warp_id inst = fault Fault.aborted
reach_found b (some warps) warp_id inst = do
  check (warps warp_id)
  let after = arrived b warp_id inst
  if complete after warps inst
      then ok (released_from after warps inst.bar_id, is_red inst.bar_type)
      else ok (after, false)

unfoldable pub warp_reaches_barrier : BarrierSet → ℕ → ℕ → BarInst → Result (BarrierSet × Bool)
warp_reaches_barrier b cta warp_id inst = do
  check (not (inst.bar_id == u32_max))
  reach_found b (find_cta b.cta_to_warps cta) warp_id inst

abbrev pub warp_waiting_at_barrier : BarrierSet → ℕ → Bool
warp_waiting_at_barrier b warp_id = b.warp_at_barrier warp_id

-- The iterator of `warp_exit`: the CTA of a warp. A warp is in one CTA, so that the order of the
-- map does not matter; a warp of no CTA makes the source read the end of the map.
unfoldable pub find_warp : List (ℕ × WarpSet) → ℕ → Option WarpSet
find_warp [] warp_id = none
find_warp ((i, s) ∷ m) warp_id = if s warp_id then some s else find_warp m warp_id

-- The loop of `warp_exit` over the first `n` barriers.
unfoldable pub release_complete : BarrierSet → WarpSet → ℕ → BarrierSet
release_complete b warps zero = b
release_complete b warps (suc n) =
    let before = release_complete b warps n in
    if same_warps warp_per_cta_max (at_barrier_of before warps n) (active_of before warps)
    then released_from before warps n
    else before

abbrev pub exited : BarrierSet → ℕ → BarrierSet
exited b warp_id = record b { warp_active = remove_warp b.warp_active warp_id }

unfoldable pub warp_exit : BarrierSet → ℕ → Result BarrierSet
warp_exit b warp_id = do
  warps ← access (find_warp b.cta_to_warps warp_id)
  ok (release_complete (exited b warp_id) warps b.max_barriers_per_cta)

-- `MAX_BARRIERS_PER_CTA`
abbrev pub max_barriers : ℕ
max_barriers = 16

-- The constructor; `exit(1)` is an abort.
unfoldable pub fresh_barriers : ℕ → ℕ → ℕ → ℕ → Result BarrierSet
fresh_barriers max_warps_per_core max_cta_per_core max_barriers_per_cta warp_size =
    if ltb warp_per_cta_max max_warps_per_core || ltb max_barriers max_barriers_per_cta
    then fault Fault.aborted
    else ok (record {
      max_cta_per_core = max_cta_per_core;
      max_barriers_per_cta = max_barriers_per_cta;
      warp_size = warp_size;
      cta_to_warps = [];
      bar_id_to_warps = λ i. no_warps;
      warp_active = no_warps;
      warp_at_barrier = no_warps;
    })
