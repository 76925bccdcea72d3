-- ===== src/Ldst/Tests.antt =====
-- The load and store unit of gpgpu-sim/shader.cc at concrete inputs. The outside counts the releases
-- of registers; every cache is ready and hits.
use dae_proj.Base.{
  ℕ, ◌+◌, ◌<◌, ◌≡◌, ◌⊎◌, refl, Bool, true, false, none, some, [], ◌∷◌, Result, ok, fault, arith,
}
use dae_proj.Port.{Side, QueueState, QueueInst, token_from_inst}
use dae_proj.Rfq.{Rfq, store, configure}
use dae_proj.Rfq.Inv.{IsValid, entry_at, configured_rfq, configure-fresh-IsValid}
use dae_proj.Rfq.Ops.{after_reserve, after_reserve-IsValid}
use dae_proj.Rfq.Progress.{
  waiting_for, settled_entry, set_pending_responses-suc, after_reserve-IsCurrent,
}
use dae_proj.Rfq.Table.{find}
use dae_proj.Rfq.Keys.{same_key, key_lt}
use dae_proj.Warp.{fresh_warp}
use dae_proj.Ldst.{
  Space, CacheOp, OpPipe, MemInst, FetchKind, Fetch, CacheStatus, Memory, MemConfig, Stall,
  MemStats, Ldst, issue, completed_stats,
}
use dae_proj.Ldst.Cycle.{ldst_cycle}
use dae_proj.Ldst.Latency.{l1_latency_queue_cycle}
use dae_proj.Ldst.Queued.{key_of, responses-settled}
use dae_proj.Ldst.Outputs.{AllPending}
use dae_proj.Ldst.Responses.{Plain, dispatched, responses, issue-responses}
use dae_proj.Ldst.Serve.{NoneBefore, ServedAt, supply-first}
use dae_proj.Ldst.Stages.{all_stages}
use dae_proj.Ldst.Writeback.{writeback, supply, serve_from, serve, num_clients}

abbrev queue_side : Side
queue_side = record {
  enabled = true;
  model_data = true;
  queue_entries = 2;
  metadata_producer_warps_per_cta = 1;
  warp_size = 2;
  staged = true;
}

abbrev no_queue : QueueInst
no_queue = record {
  warp_id = 0;
  active_mask = 3;
  accessq_count = 0;
  load = false;
  move = false;
  queue_id = 4;
  payload_words_per_lane = 3;
  token_valid = true;
  token_cta_hw_id = 0;
  token_original_warp_id = 0;
  token_slot_index = 0;
  token_sequence = 1;
}

abbrev queue_load : QueueInst
queue_load = record no_queue { load = true }

-- A load of two accesses into the registers 7 and 9.
abbrev plain_load : MemInst
plain_load = record {
  warp_id = 0;
  pc = 64;
  addr = 256;
  active_count = 2;
  is_load = true;
  is_store = false;
  atomic = false;
  space = Space.global_space;
  cache_op = CacheOp.other_op;
  op_pipe = OpPipe.other_pipe;
  out = 7 ∷ (9 ∷ (0 ∷ []));
  accesses = record { addr = 256; size = 32 } ∷ (record { addr = 512; size = 32 } ∷ []);
  cycles = 0;
  rfq = no_queue;
  smemq = no_queue;
  m_is_ldgsts = false;
}

abbrev fetch_of : MemInst → Fetch
fetch_of i = record {
  inst = i;
  data_size = 32;
  is_write = false;
  write_ack = false;
  kind = FetchKind.global_read;
  atomic = false;
  wid = 0;
  mask_count = 2;
}

abbrev small_memory : Memory ℕ
small_memory = record {
  alloc = λ e i a. (fetch_of i, e);
  cache_access = λ cache e mf. (
    record {
      status = CacheStatus.hit;
      write_sent = false;
      read_sent = false;
      writeallocate_sent = false;
    },
    e,
  );
  data_port_free = λ cache e. true;
  access_ready = λ cache e. true;
  next_access = λ cache e. (fetch_of plain_load, e);
  fill_port_free = λ cache e. true;
  fill = λ cache e mf. e;
  cache_cycle = λ cache e. e;
  icnt_full = λ e size write a. false;
  icnt_push = λ e mf. e;
  set_bank = λ mf. 0;
  set_reply = λ mf. record mf { write_ack = mf.is_write };
  collector_writeback = λ e i. (true, e);
  release_register = λ e w r. e + 1;
  release_registers = λ e i. e + 1;
  do_atomic = λ e i. e;
}

abbrev small_mem_config : MemConfig
small_mem_config = record {
  rfq = queue_side;
  smemq = queue_side;
  warp_size = 2;
  clock_gated_lanes = false;
  has_l1d = true;
  sector_assoc = false;
  sector_size = 32;
  l1_latency = 2;
  l1_banks = 1;
  gmem_skip_l1d = false;
  acks_writes = false;
  lazy_write = false;
  perfect_inst_const_cache = false;
  smem_latency = 2;
  response_queue_size = 2;
  mem_unit_ports = 1;
  mem_warp_parts = 1;
  write_packet_size = 8;
  read_packet_size = 8;
}

abbrev no_stats : MemStats
no_stats = record {
  sp_committed = 0;
  sfu_committed = 0;
  mem_committed = 0;
  sim_insn = 0;
  sim_winsn = 0;
  gpu_sim_insn = 0;
  shmem_bank_access = 0;
  shmem_bkconflict = 0;
  l1cache_bkconflict = 0;
  cmem_portconflict = 0;
  stall_shd_mem = 0;
  stall_breakdown = [];
}

abbrev empty_queues : QueueState
empty_queues = record {
  table = [];
  stats = record {
    reservations = 0;
    memory_fills = 0;
    consumes = 0;
    full_stalls = 0;
    empty_stalls = 0;
    head_not_ready_stalls = 0;
    max_occupancy = 0;
    producer_issues = 0;
    consumer_issues = 0;
  };
}

abbrev idle_unit : Ldst ℕ ℕ
idle_unit = record {
  warps = fresh_warp 32 ∷ [];
  rfq = empty_queues;
  smemq = empty_queues;
  dispatch = none;
  pipeline = none ∷ (none ∷ []);
  next_wb = none;
  next_global = none;
  response_fifo = [];
  writeback_arb = 3;
  pending_writes = λ w r. 0;
  pending_ldgsts = λ w pc a. 0;
  latency_queue = (none ∷ (none ∷ [])) ∷ [];
  mem_rc = Stall.no_rc_fail;
  stats = no_stats;
  outside = 0;
}

-- From client 3 on, the data cache is the first with a response.
abbrev after_supply : Ldst ℕ ℕ
after_supply = record idle_unit { next_wb = some plain_load; writeback_arb = 0 }

data_cache_served : supply small_memory small_mem_config idle_unit none ≡ ok after_supply
unfolding supply serve_from serve
data_cache_served = refl

supply-first_example :
    ((after_supply ≡ idle_unit) × NoneBefore small_memory small_mem_config idle_unit num_clients)
    ⊎ ((at : ℕ) × (at < num_clients)
        × ServedAt small_memory small_mem_config idle_unit after_supply at)
supply-first_example =
    supply-first small_memory small_mem_config idle_unit after_supply data_cache_served

plain_load-Plain : Plain small_memory (dispatched plain_load)
plain_load-Plain = record {
  no_rfq = refl;
  no_smemq = refl;
  no_copy = refl;
  not_shared = refl;
  apart = refl;
  writes = refl;
  collected = λ e. refl;
}

issue-responses_example :
    ((r : Ldst ℕ ℕ) × (responses small_memory small_mem_config 1
          (issue idle_unit plain_load)
          (dispatched plain_load)
        ≡ ok r)
      × AllPending r plain_load plain_load.out 1
      × (r.stats ≡ no_stats))
    × ((r : Ldst ℕ ℕ) × (responses small_memory small_mem_config 2
            (issue idle_unit plain_load)
            (dispatched plain_load)
          ≡ ok r)
        × AllPending r plain_load plain_load.out 0
        × (r.stats ≡ completed_stats small_mem_config (dispatched plain_load) no_stats))
issue-responses_example =
    issue-responses small_memory small_mem_config 1 1 idle_unit plain_load plain_load-Plain refl
      (λ q h. refl) refl (omega arith) (omega arith)

abbrev two_slots : Rfq
two_slots = configured_rfq 2 3 2

abbrev one_entry : Rfq
one_entry = after_reserve two_slots 3 0

two_slots-IsValid : IsValid two_slots
unfolding configure
two_slots-IsValid = (configure-fresh-IsValid 2 3 2 two_slots (omega arith) refl).0

abbrev queued_load : MemInst
queued_load = record plain_load { rfq = queue_load; out = [] }

abbrev waiting_entry : Rfq
waiting_entry = store one_entry (token_from_inst queue_load) (waiting_for (entry_at one_entry 0) 2)

abbrev waiting_unit : Ldst ℕ ℕ
waiting_unit = record idle_unit {
  rfq = record empty_queues { table = (key_of queued_load, waiting_entry) ∷ [] };
}

responses-settled_example :
    (r : Ldst ℕ ℕ) × (responses small_memory small_mem_config 2 waiting_unit queued_load ≡ ok r)
    × (find r.rfq.table (key_of queued_load)
        ≡ some
            (store one_entry (token_from_inst queue_load) (settled_entry (entry_at one_entry 0))))
    × (r.stats ≡ completed_stats small_mem_config queued_load no_stats)
    × (r.pending_writes ≡ (λ w r. 0))
unfolding find same_key key_lt
responses-settled_example =
    let current =
      after_reserve-IsCurrent two_slots (key_of queued_load) 3 0 two_slots-IsValid refl in
    let valid = after_reserve-IsValid two_slots 3 0 two_slots-IsValid refl in
    responses-settled small_memory small_mem_config 1 waiting_unit queued_load one_entry
      waiting_entry refl refl valid current
      (set_pending_responses-suc 1 one_entry (token_from_inst queue_load) valid current) refl

-- A cycle of a unit to which the load was issued: both accesses enter the bank in two cycles.
abbrev is_ok : Result (Ldst ℕ ℕ) → Bool
is_ok (ok s) = true
is_ok (fault why) = false

cycle_runs : is_ok (ldst_cycle small_memory small_mem_config (issue idle_unit plain_load)) ≡ true
unfolding ldst_cycle writeback issue l1_latency_queue_cycle all_stages
cycle_runs = refl
