-- ===== src/Warp.antt =====
-- The state that a core keeps of one warp: class `shd_warp_t` in gpgpu-sim/shader.h and shader.cc,
-- its instruction buffer, its threads, its stores, atomics and barriers. Of the asynchronous copies
-- that a warp waits for only the `pc` and the first address are kept, which is all that is read.
pub mod Decode
pub mod Buffer
pub mod Threads
mod Tests
use dae_proj.Base.{
  ℕ, zero, suc, ◌+◌, ◌%◌, ◌-◌, ◌^◌, Bool, true, false, not, ◌&&◌, ◌||◌, Option, none, some, List,
  [], ◌∷◌, set, get_elem?, ltb, leb, ◌==◌, if◌then◌else◌, Result, ok, fault, Fault, ◌>>=◌, ◌>>◌,
  check, access, add32, sub32, u32_max,
}
use dae_proj.Barrier.{WarpSet, no_warps, remove_warp, count_of}

-- `MAX_WARP_SIZE`
abbrev pub max_warp_size : ℕ
max_warp_size = 32

-- `IBUFFER_SIZE`
abbrev pub ibuffer_size : ℕ
ibuffer_size = 2

-- A set of lanes, of which those below `max_warp_size` count.
abbrev pub LaneSet : Type 0
LaneSet = WarpSet

-- The warp is of instructions `I`.
pub record IbufferEntry {ℓ} (I : Type ℓ) : Type ℓ where
  pub inst : Option I
  pub valid : Bool

-- An LDGSTS in `m_ldgdepbar_buf`; without addresses of its threads `addr` is `none`.
pub record Copy : Type 0 where
  pub pc : ℕ
  pub addr : Option ℕ

-- `(address_type)-1`, the `pc` of a copy that has finished
abbrev pub no_pc : ℕ
no_pc = 2 ^ 64 - 1

pub record Warp {ℓ} (I : Type ℓ) : Type ℓ where
  pub warp_size : ℕ
  pub stream_id : ℕ
  pub cta_id : ℕ
  pub warp_id : ℕ
  pub dynamic_warp_id : ℕ
  pub next_pc : ℕ
  pub n_completed : ℕ
  pub active_threads : LaneSet
  pub imiss_pending : Bool
  pub inst_at_barrier : Option I
  pub ibuffer : List (IbufferEntry I)
  pub next : ℕ
  pub n_atomic : ℕ
  pub membar : Bool
  pub done_exit : Bool
  pub last_fetch : ℕ
  pub stores_outstanding : ℕ
  pub inst_in_pipeline : ℕ
  pub cdp_latency : ℕ
  pub cdp_dummy : Bool
  pub ldgdepbar_id : ℕ
  pub ldgdepbar_buf : List (List Copy)
  pub depbar_start_id : ℕ
  pub depbar_group : ℕ
  pub waiting_ldgsts : Bool

module _ {ℓ} {I : Type ℓ} where
  abbrev pub no_entry : IbufferEntry I
  no_entry = record { inst = none; valid = false }

  abbrev pub wiped : Warp I → Warp I
  wiped w = record w {
    imiss_pending = false;
    warp_id = u32_max;
    dynamic_warp_id = u32_max;
    n_completed = w.warp_size;
    n_atomic = 0;
    membar = false;
    done_exit = true;
    last_fetch = 0;
    next = 0;
    stream_id = 2 ^ 64 - 1;
    cdp_latency = 0;
    cdp_dummy = false;
    ldgdepbar_id = 0;
    depbar_start_id = 0;
    depbar_group = 0;
    waiting_ldgsts = false;
    ldgdepbar_buf = [];
  }

  unfoldable pub reset : Warp I → Result (Warp I)
  reset w = do check (w.stores_outstanding == 0); check (w.inst_in_pipeline == 0); ok (wiped w)

  -- The constructor. What it leaves uninitialised is 0 here.
  abbrev pub fresh_warp : ℕ → Warp I
  fresh_warp size = record {
    warp_size = size;
    stream_id = 2 ^ 64 - 1;
    cta_id = 0;
    warp_id = u32_max;
    dynamic_warp_id = u32_max;
    next_pc = 0;
    n_completed = size;
    active_threads = no_warps;
    imiss_pending = false;
    inst_at_barrier = none;
    ibuffer = no_entry ∷ no_entry ∷ [];
    next = 0;
    n_atomic = 0;
    membar = false;
    done_exit = true;
    last_fetch = 0;
    stores_outstanding = 0;
    inst_in_pipeline = 0;
    cdp_latency = 0;
    cdp_dummy = false;
    ldgdepbar_id = 0;
    ldgdepbar_buf = [];
    depbar_start_id = 0;
    depbar_group = 0;
    waiting_ldgsts = false;
  }

  abbrev pub launched : Warp I → ℕ → ℕ → ℕ → LaneSet → ℕ → ℕ → Warp I
  launched w start_pc cta wid active dynamic stream = record w {
    stream_id = stream;
    cta_id = cta;
    warp_id = wid;
    dynamic_warp_id = dynamic;
    next_pc = start_pc;
    n_completed = w.n_completed - count_of max_warp_size active;
    active_threads = active;
    done_exit = false;
    cdp_latency = 0;
    cdp_dummy = false;
    ldgdepbar_id = 0;
    depbar_start_id = 0;
    depbar_group = 0;
    waiting_ldgsts = false;
    ldgdepbar_buf = [];
  }

  unfoldable pub init : Warp I → ℕ → ℕ → ℕ → LaneSet → ℕ → ℕ → Result (Warp I)
  init w start_pc cta wid active dynamic stream = do
    check (leb (count_of max_warp_size active) w.n_completed)
    check (leb w.n_completed w.warp_size)
    ok (launched w start_pc cta wid active dynamic stream)

  -- `test` of a lane outside the bitset throws.
  unfoldable pub set_completed : Warp I → ℕ → Result (Warp I)
  set_completed w lane = do
    check (ltb lane max_warp_size && w.active_threads lane)
    ok (record w {
      active_threads = remove_warp w.active_threads lane;
      n_completed = add32 w.n_completed 1;
    })

  unfoldable pub functional_done : Warp I → Bool
  functional_done w = w.n_completed == w.warp_size

  abbrev pub stores_done : Warp I → Bool
  stores_done w = w.stores_outstanding == 0

  unfoldable pub hardware_done : Warp I → Bool
  unfolding functional_done
  hardware_done w = functional_done w && stores_done w && not (ltb 0 w.inst_in_pipeline)

  -- Whether the warp is held by a barrier or by a memory barrier is asked of the core.
  unfoldable pub waiting : Bool → Bool → Warp I → Bool
  waiting at_barrier at_mem_barrier w =
      if functional_done w
      then true
      else if at_barrier
      then true
      else if at_mem_barrier
      then true
      else if ltb 0 w.n_atomic
      then true
      else w.waiting_ldgsts

  -- `warp_waiting_at_mem_barrier` of the core, told whether the scoreboard has pending writes of
  -- the warp; the invalidation of the L1 cache that may come with it is outside.
  unfoldable pub waiting_at_mem_barrier : Bool → Warp I → Bool × Warp I
  waiting_at_mem_barrier pending_writes w =
      if not w.membar
      then (false, w)
      else if not pending_writes
      then (false, record w { membar = false })
      else (true, w)

  abbrev pub inc_n_atomic : Warp I → Warp I
  inc_n_atomic w = record w { n_atomic = add32 w.n_atomic 1 }

  abbrev pub dec_n_atomic : Warp I → ℕ → Warp I
  dec_n_atomic w n = record w { n_atomic = sub32 w.n_atomic n }

  abbrev pub inc_store_req : Warp I → Warp I
  inc_store_req w = record w { stores_outstanding = add32 w.stores_outstanding 1 }

  unfoldable pub dec_store_req : Warp I → Result (Warp I)
  dec_store_req w = do
    check (ltb 0 w.stores_outstanding)
    ok (record w { stores_outstanding = w.stores_outstanding - 1 })

  abbrev pub inc_inst_in_pipeline : Warp I → Warp I
  inc_inst_in_pipeline w = record w { inst_in_pipeline = add32 w.inst_in_pipeline 1 }

  unfoldable pub dec_inst_in_pipeline : Warp I → Result (Warp I)
  dec_inst_in_pipeline w = do
    check (ltb 0 w.inst_in_pipeline)
    ok (record w { inst_in_pipeline = w.inst_in_pipeline - 1 })

  abbrev pub filled : Warp I → ℕ → Option I → Warp I
  filled w slot inst = record w {
    ibuffer = set w.ibuffer slot (record { inst = inst; valid = true });
    next = 0;
  }

  unfoldable pub ibuffer_fill : Warp I → ℕ → Option I → Result (Warp I)
  ibuffer_fill w slot inst = do check (ltb slot ibuffer_size); ok (filled w slot inst)

  unfoldable pub no_valid : List (IbufferEntry I) → Bool
  no_valid [] = true
  no_valid (e ∷ es) = not e.valid && no_valid es

  abbrev pub ibuffer_empty : Warp I → Bool
  ibuffer_empty w = no_valid w.ibuffer

  unfoldable pub count_valid : List (IbufferEntry I) → ℕ
  count_valid [] = 0
  count_valid (e ∷ es) = (if e.valid then 1 else 0) + count_valid es

  abbrev pub num_inst_in_buffer : Warp I → ℕ
  num_inst_in_buffer w = count_valid w.ibuffer

  abbrev pub num_issued_inst_in_pipeline : Warp I → ℕ
  num_issued_inst_in_pipeline w = sub32 w.inst_in_pipeline (num_inst_in_buffer w)

  -- The loop of `ibuffer_flush`: what it leaves of the count and of the slots.
  unfoldable pub flush_slots : ℕ → List (IbufferEntry I) → Result (ℕ × List (IbufferEntry I))
  flush_slots n [] = ok (n, [])
  flush_slots n (e ∷ es) = do
    check (not e.valid || ltb 0 n)
    rest ← flush_slots (if e.valid then n - 1 else n) es
    ok (rest.0, no_entry ∷ rest.1)

  unfoldable pub ibuffer_flush : Warp I → Result (Warp I)
  ibuffer_flush w = do
    flushed ← flush_slots w.inst_in_pipeline w.ibuffer
    ok (record w { inst_in_pipeline = flushed.0; ibuffer = flushed.1 })

  abbrev pub ibuffer_next : Warp I → Result (IbufferEntry I)
  ibuffer_next w = access (get_elem? w.ibuffer w.next)

  abbrev pub ibuffer_free : Warp I → Warp I
  ibuffer_free w = record w { ibuffer = set w.ibuffer w.next no_entry }

  abbrev pub ibuffer_step : Warp I → Warp I
  ibuffer_step w = record w { next = add32 w.next 1 % ibuffer_size }
