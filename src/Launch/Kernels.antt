-- ===== src/Launch/Kernels.antt =====
-- The running kernels of `gpgpu_sim` in gpgpu-sim/gpu-sim.cc: their launch, the choice of the next
-- one, and their end. A kernel is named by its uid where the source compares pointers, and its name
-- is not kept.
use dae_proj.Base.{
  ℕ, zero, suc, ◌+◌, ◌-◌, ◌%◌, ◌^◌, Bool, true, false, not, ◌&&◌, ◌||◌, Option, none, some, List,
  [], ◌∷◌, ◌++◌, length, get_elem?, set, ltb, leb, ◌==◌, if◌then◌else◌, Result, ok, fault, Fault,
  ◌>>=◌, ◌>>◌, check, access, add32,
}
use dae_proj.Launch.{KernelInfo, threads_per_cta, no_more_ctas_to_run, done}

-- An entry of `gpu_kernel_time`.
pub record KernelTime : Type 0 where
  pub stream_id : ℕ
  pub uid : ℕ
  pub start : ℕ
  pub finish : ℕ

-- `cycle` is `gpu_sim_cycle + gpu_tot_sim_cycle`, `ctas_issued` all CTAs issued so far.
pub record Gpu : Type 0 where
  pub running_kernels : List (Option KernelInfo)
  pub last_issued_kernel : ℕ
  pub max_concurrent_kernel : ℕ
  pub executed_kernel_uids : List ℕ
  pub finished_kernels : List ℕ
  pub kernel_times : List KernelTime
  pub last_uid : ℕ
  pub last_stream_id : ℕ
  pub gpu_max_cta_opt : ℕ
  pub ctas_issued : ℕ
  pub n_thread_per_shader : ℕ
  pub cycle : ℕ

abbrev pub slot_free : Option KernelInfo → Bool
slot_free none = true
slot_free (some k) = done k

unfoldable pub can_start : List (Option KernelInfo) → Bool
can_start [] = false
can_start (s ∷ ss) = slot_free s || can_start ss

abbrev pub can_start_kernel : Gpu → Bool
can_start_kernel g = can_start g.running_kernels

-- The loop of `launch`; beyond the last slot its assertion fails.
unfoldable pub place_kernel :
    List (Option KernelInfo) → KernelInfo → Result (List (Option KernelInfo))
place_kernel [] k = fault Fault.assertion
place_kernel (s ∷ ss) k =
    let rest = place_kernel ss k in
    if slot_free s then ok (some k ∷ ss) else (rest >>= λ ts. ok (s ∷ ts))

abbrev is_time_of : ℕ → ℕ → KernelTime → Bool
is_time_of stream uid t = (t.stream_id == stream) && (t.uid == uid)

unfoldable pub has_time : List KernelTime → ℕ → ℕ → Bool
has_time [] stream uid = false
has_time (t ∷ ts) stream uid = is_time_of stream uid t || has_time ts stream uid

abbrev with_time : Gpu → KernelInfo → List KernelTime
with_time g k =
    if has_time g.kernel_times k.stream_id k.uid
    then g.kernel_times
    else record { stream_id = k.stream_id; uid = k.uid; start = g.cycle; finish = 0 }
      ∷ g.kernel_times

unfoldable pub launch : Gpu → KernelInfo → Result Gpu
unfolding place_kernel
launch g k = if ltb g.n_thread_per_shader (threads_per_cta k) then fault Fault.aborted else (do
  slots ← place_kernel g.running_kernels k
  ok (record g { kernel_times = with_time g k; running_kernels = slots }))

unfoldable pub hit_max_cta_count : Gpu → Bool
hit_max_cta_count g = not (g.gpu_max_cta_opt == 0) && leb g.gpu_max_cta_opt g.ctas_issued

unfoldable pub kernel_more_cta_left : Gpu → Option KernelInfo → Bool
kernel_more_cta_left g none = false
kernel_more_cta_left g (some k) = not (hit_max_cta_count g) && not (no_more_ctas_to_run k)

unfoldable pub any_left : List (Option KernelInfo) → Bool
any_left [] = false
any_left (none ∷ ss) = any_left ss
any_left (some k ∷ ss) = not (no_more_ctas_to_run k) || any_left ss

abbrev pub get_more_cta_left : Gpu → Bool
get_more_cta_left g = not (hit_max_cta_count g) && any_left g.running_kernels

-- The slot of a running kernel takes the kernel as it is now.
abbrev put_kernel : Gpu → ℕ → KernelInfo → Gpu
put_kernel g n k = record g { running_kernels = set g.running_kernels n (some k) }

unfoldable pub drop_latency : List (Option KernelInfo) → List (Option KernelInfo)
drop_latency [] = []
drop_latency (none ∷ ss) = none ∷ drop_latency ss
drop_latency (some k ∷ ss) = some (record k { tb_latency = k.tb_latency - 1 }) ∷ drop_latency ss

abbrev pub decrement_kernel_latency : Gpu → Gpu
decrement_kernel_latency g = record g { running_kernels = drop_latency g.running_kernels }

unfoldable pub executed : List ℕ → ℕ → Bool
executed [] uid = false
executed (u ∷ us) uid = (u == uid) || executed us uid

abbrev started : Gpu → KernelInfo → KernelInfo
started g k = record k { start_cycle = g.cycle }

-- The kernel that issued last has CTAs left and does not wait.
abbrev pub goes_on : Option KernelInfo → Bool
goes_on none = false
goes_on (some k) = not (no_more_ctas_to_run k) && (k.tb_latency == 0)

abbrev pub keep_kernel : Gpu → KernelInfo → Gpu × Option KernelInfo
keep_kernel g k = if executed g.executed_kernel_uids k.uid then (g, some k) else (
  record (put_kernel g g.last_issued_kernel (started g k)) {
    executed_kernel_uids = g.executed_kernel_uids ++ (k.uid ∷ []);
  },
  some (started g k),
)

abbrev pub selectable : Gpu → Option KernelInfo → Bool
selectable g none = false
selectable g (some k) = kernel_more_cta_left g (some k) && (k.tb_latency == 0)

-- The kernel in the slot `n` is selected for the first time.
abbrev pub first_select : Gpu → ℕ → Option KernelInfo → Result (Gpu × Option KernelInfo)
first_select g n none = fault Fault.bad_access
first_select g n (some k) = do
  check (not (executed g.executed_kernel_uids k.uid))
  ok (
    record (put_kernel g n (started g k)) {
      last_issued_kernel = n;
      executed_kernel_uids = g.executed_kernel_uids ++ (k.uid ∷ []);
    },
    some (started g k),
  )

-- The loop over the slots from `n` on, `fuel` of them.
unfoldable pub select_from : Gpu → ℕ → ℕ → Result (Gpu × Option KernelInfo)
select_from g n zero = ok (g, none)
select_from g n (suc fuel) =
    let rest = select_from g (n + 1) fuel in
    let at = add32 (add32 n g.last_issued_kernel) 1 % g.max_concurrent_kernel in
    access (get_elem? g.running_kernels at) >>= λ slot.
    if selectable g slot then first_select g at slot else rest

abbrev pub keep_or_select : Gpu → Option KernelInfo → Result (Gpu × Option KernelInfo)
keep_or_select g none = select_from g 0 (length g.running_kernels)
keep_or_select g (some k) =
    if goes_on (some k) then ok (keep_kernel g k) else select_from g 0 (length g.running_kernels)

-- The kernel is beside the state; `NULL` is `none`.
unfoldable pub select_kernel : Gpu → Result (Gpu × Option KernelInfo)
unfolding select_from
select_kernel g = do
  slot ← access (get_elem? g.running_kernels g.last_issued_kernel)
  keep_or_select g slot

unfoldable pub finished_kernel : Gpu → ℕ × Gpu
finished_kernel g = elim g.finished_kernels [
  | [] ↦ (0, record g { last_stream_id = 2 ^ 64 - 1 })
  | uid ∷ rest ↦ (uid, record g { finished_kernels = rest })
]

-- The first slot of the kernel is freed; without one the last assertion fails.
unfoldable pub free_slot : List (Option KernelInfo) → ℕ → Result (List (Option KernelInfo))
free_slot [] uid = fault Fault.assertion
free_slot (none ∷ ss) uid = free_slot ss uid >>= λ ts. ok (none ∷ ts)
free_slot (some k ∷ ss) uid =
    let rest = free_slot ss uid in
    if k.uid == uid then ok (none ∷ ss) else (rest >>= λ ts. ok (some k ∷ ts))

unfoldable pub end_time : List KernelTime → ℕ → ℕ → ℕ → Result (List KernelTime)
end_time [] stream uid now = fault Fault.bad_access
end_time (t ∷ ts) stream uid now =
    let rest = end_time ts stream uid now in
    if is_time_of stream uid t
    then ok (record t { finish = now } ∷ ts)
    else (rest >>= λ us. ok (t ∷ us))

unfoldable pub set_kernel_done : Gpu → KernelInfo → Result Gpu
unfolding free_slot end_time
set_kernel_done g k = do
  times ← end_time g.kernel_times k.stream_id k.uid g.cycle
  slots ← free_slot g.running_kernels k.uid
  ok (record g {
    last_uid = k.uid;
    last_stream_id = k.stream_id;
    kernel_times = times;
    finished_kernels = g.finished_kernels ++ (k.uid ∷ []);
    running_kernels = slots;
  })

-- The loop over the slots, of which `ss` are left. The kernels are distinct, so that the assertion
-- that the slot is free afterwards holds.
unfoldable pub stop_from : Gpu → List (Option KernelInfo) → Result Gpu
unfolding set_kernel_done
stop_from g [] = ok g
stop_from g (none ∷ ss) = stop_from g ss
stop_from g (some k ∷ ss) = set_kernel_done g k >>= λ g'. stop_from g' ss

abbrev pub stop_all_running_kernels : Gpu → Result Gpu
stop_all_running_kernels g = stop_from g g.running_kernels
