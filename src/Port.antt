-- ===== src/Port.antt =====
-- How a core drives a queue between a producer and a consumer warp: the `wasp_rfq_*` methods of
-- `shader_core_ctx` in 01_gpgpusim_design/gpgpusim_overlay/src/gpgpu-sim/shader.cc. The
-- `smemq_*` methods are the same code over the other configuration fields (Smemq.antt), so what
-- the two read of the configuration is the record `Side`, and what they write of the core is the
-- record `QueueState`. `NULL` instructions are `none`.
pub mod Pairing
pub mod Steps
pub mod Moves
pub mod Issue
pub mod Sides
mod Tests
use dae_proj.Base.{
  ℕ, ◌-◌, ◌/◌, ◌%◌, Bool, true, false, not, ◌&&◌, ◌||◌, List, Option, none, some, get_elem?, length,
  ltb, ◌==◌, if◌then◌else◌, Result, ok, fault, Fault, ◌>>=◌, ◌>>◌, check, access, non_null, inc64,
}
use dae_proj.Rfq.Keys.{Key}
use dae_proj.Rfq.{
  Rfq, Token, fresh_token, full, empty, head_ready, reserve_tail, set_pending_responses,
  has_pending_responses, mark_response, consume_head, set_lane_value, head_lane_value,
}
use dae_proj.Rfq.Table.{Table, find, put, get_or_create}

-- The part of `shader_core_config` that one mechanism reads. `staged` says that it counts the
-- issues of each pipeline stage, which only the register-file queue does.
pub record Side : Type 0 where
  pub enabled : Bool
  pub model_data : Bool
  pub queue_entries : ℕ
  pub metadata_producer_warps_per_cta : ℕ
  pub warp_size : ℕ
  pub staged : Bool

-- `kernel_padded_threads_per_cta`, and the CTA of each hardware warp (`m_warp[i]->get_cta_id()`).
pub record Layout : Type 0 where
  pub padded_threads_per_cta : ℕ
  pub warp_ctas : List ℕ

-- The counters of `shader_core_stats` that one mechanism writes.
pub record Counters : Type 0 where
  pub reservations : ℕ
  pub memory_fills : ℕ
  pub consumes : ℕ
  pub full_stalls : ℕ
  pub empty_stalls : ℕ
  pub head_not_ready_stalls : ℕ
  pub max_occupancy : ℕ
  pub producer_issues : ℕ
  pub consumer_issues : ℕ

pub record QueueState : Type 0 where
  pub table : Table
  pub stats : Counters

-- The fields of `warp_inst_t` that one mechanism reads and writes.
pub record QueueInst : Type 0 where
  pub warp_id : ℕ
  pub active_mask : ℕ
  pub accessq_count : ℕ
  pub load : Bool
  pub move : Bool
  pub queue_id : ℕ
  pub payload_words_per_lane : ℕ
  pub token_valid : Bool
  pub token_cta_hw_id : ℕ
  pub token_original_warp_id : ℕ
  pub token_slot_index : ℕ
  pub token_sequence : ℕ

abbrev pub uses_queue : QueueInst → Bool
uses_queue inst = inst.load || inst.move

-- `n ? n : d`
abbrev pub nonzero_or : ℕ → ℕ → ℕ
nonzero_or n d = if n == 0 then d else n

abbrev pub warps_per_cta_of : ℕ → ℕ → ℕ
warps_per_cta_of padded warp_size = nonzero_or (padded / warp_size) 8

abbrev pub producer_warps_of : ℕ → ℕ → ℕ
producer_warps_of metadata warps_per_cta = nonzero_or (nonzero_or metadata (warps_per_cta / 2)) 1

abbrev pub original_warp : ℕ → ℕ → ℕ
original_warp local_warp producer_warps =
    if ltb local_warp producer_warps then local_warp else local_warp - producer_warps

-- `warp_size` is a divisor; a core is never configured with 0.
unfoldable pub key_for_warp : Side → Layout → ℕ → ℕ → Result Key
key_for_warp side layout warp_id queue_id = do
  check (ltb warp_id (length layout.warp_ctas))
  let warps_per_cta = warps_per_cta_of layout.padded_threads_per_cta side.warp_size
  let producer_warps = producer_warps_of side.metadata_producer_warps_per_cta warps_per_cta
  check (ltb producer_warps warps_per_cta)
  cta ← access (get_elem? layout.warp_ctas warp_id)
  ok (record {
    cta_hw_id = cta;
    original_warp_id = original_warp (warp_id % warps_per_cta) producer_warps;
    src_stage_id = 0;
    dst_stage_id = 1;
    queue_id = queue_id;
  })

abbrev pub token_from_inst : QueueInst → Token
token_from_inst inst = record {
  key = record {
    cta_hw_id = inst.token_cta_hw_id;
    original_warp_id = inst.token_original_warp_id;
    src_stage_id = 0;
    dst_stage_id = 1;
    queue_id = inst.queue_id;
  };
  slot_index = inst.token_slot_index;
  sequence = inst.token_sequence;
  payload_words_per_lane = inst.payload_words_per_lane;
  valid = inst.token_valid;
}

abbrev pub write_token_to_inst : QueueInst → Token → QueueInst
write_token_to_inst inst t = record inst {
  token_valid = t.valid;
  token_cta_hw_id = t.key.cta_hw_id;
  token_original_warp_id = t.key.original_warp_id;
  token_slot_index = t.slot_index;
  token_sequence = t.sequence;
}

-- The queue of an instruction: its key, and the queue beside the table that holds it.
unfoldable pub queue_of :
    Side
    → Layout
    → Table
    → ℕ
    → QueueInst
    → Result (record { key : Key; queue : Rfq; table : Table })
queue_of side layout t warp_id inst = do
  key ← key_for_warp side layout warp_id inst.queue_id
  found ←
      get_or_create t key side.queue_entries (nonzero_or inst.payload_words_per_lane 1)
        side.warp_size
  ok (record { key = key; queue = found.0; table = found.1 })

abbrev count_if : Bool → ℕ → ℕ
count_if b n = if b then inc64 n else n

-- Which return of `wasp_rfq_can_issue` is taken once the queue is at hand.
pub data Verdict : Type 0 where
  issuable queue_full queue_empty head_not_ready : Verdict

unfoldable pub verdict : Bool → Rfq → Verdict
verdict true q = if full q then queue_full else issuable
verdict false q =
    if empty q then queue_empty else if not (head_ready q) then head_not_ready else issuable

abbrev pub is_issuable : Verdict → Bool
is_issuable issuable = true
is_issuable _ = false

abbrev pub count_verdict : Bool → Verdict → Counters → Counters
count_verdict b issuable c = c
count_verdict b queue_full c = record c { full_stalls = count_if b c.full_stalls }
count_verdict b queue_empty c = record c { empty_stalls = count_if b c.empty_stalls }
count_verdict b head_not_ready c = record c {
  head_not_ready_stalls = count_if b c.head_not_ready_stalls;
}

unfoldable pub can_issue :
    Side → Layout → QueueState → ℕ → Option QueueInst → Bool → Result (Bool × QueueState)
can_issue side layout st warp_id none count_stall = ok (true, st)
can_issue side layout st warp_id (some inst) count_stall =
    if not (uses_queue inst)
    then ok (true, st)
    else if not side.enabled
    then fault Fault.aborted
    else (do
      found ← queue_of side layout st.table warp_id inst
      let v = verdict inst.load found.queue
      ok (
        is_issuable v,
        record { table = found.table; stats = count_verdict count_stall v st.stats },
      ))

-- The counters after a reservation that leaves `occupancy` entries in the queue.
abbrev pub count_reservation : Side → Counters → ℕ → Counters
count_reservation side c occupancy = record c {
  reservations = inc64 c.reservations;
  max_occupancy = if ltb c.max_occupancy occupancy then occupancy else c.max_occupancy;
  producer_issues = count_if side.staged c.producer_issues;
}

-- The token of a move names the queue; its slot and sequence stay 0.
abbrev pub move_token : Key → ℕ → Token
move_token key payload = record fresh_token {
  key = key;
  payload_words_per_lane = payload;
  valid = true;
}

unfoldable pub prepare_issue :
    Side → Layout → QueueState → Option QueueInst → Result (Option QueueInst × QueueState)
prepare_issue side layout st none = ok (none, st)
prepare_issue side layout st (some inst) =
    if not side.enabled || not (uses_queue inst) then ok (some inst, st) else (do
      found ← queue_of side layout st.table inst.warp_id inst
      if inst.load
          then (do
            check (not (full found.queue))
            made ← reserve_tail found.queue found.key inst.active_mask 0
            ok (
              some (write_token_to_inst inst made.0),
              record {
                table = put found.table found.key made.1;
                stats = count_reservation side st.stats made.1.occupancy;
              },
            ))
          else ok (
            some (
                write_token_to_inst inst
                  (move_token found.key (nonzero_or inst.payload_words_per_lane 1))),
            record {
              table = found.table;
              stats = record (st.stats) {
                consumer_issues = count_if side.staged st.stats.consumer_issues;
              };
            },
          ))

unfoldable pub after_func_exec : Side → QueueState → Option QueueInst → Result QueueState
after_func_exec side st none = ok st
after_func_exec side st (some inst) =
    if not side.enabled || not (uses_queue inst) then ok st else (do
      queue ← non_null (find st.table (token_from_inst inst).key)
      if inst.load
          then (do
            q ← set_pending_responses queue (token_from_inst inst) inst.accessq_count
            ok (record st { table = put st.table (token_from_inst inst).key q }))
          else (do
            check (head_ready queue)
            q ← consume_head queue (token_from_inst inst).key
            ok (record {
              table = put st.table (token_from_inst inst).key q;
              stats = record (st.stats) { consumes = inc64 st.stats.consumes };
            })))

unfoldable pub load_pending : Side → QueueState → QueueInst → Result Bool
load_pending side st inst = if not side.enabled || not inst.load then ok false else (do
  queue ← non_null (find st.table (token_from_inst inst).key)
  has_pending_responses queue (token_from_inst inst))

unfoldable pub mark_mem_response : Side → QueueState → QueueInst → Result (Bool × QueueState)
mark_mem_response side st inst = if not side.enabled || not inst.load then ok (true, st) else (do
  queue ← non_null (find st.table (token_from_inst inst).key)
  marked ← mark_response queue (token_from_inst inst)
  ok (
    marked.0,
    record {
      table = put st.table (token_from_inst inst).key marked.1;
      stats = record (st.stats) { memory_fills = inc64 st.stats.memory_fills };
    },
  ))

unfoldable pub functional_store_lane : Side → QueueState → QueueInst → ℕ → ℕ → ℕ → Result QueueState
functional_store_lane side st inst lane_id word value =
    if not side.enabled || not side.model_data then ok st else (do
      queue ← non_null (find st.table (token_from_inst inst).key)
      q ← set_lane_value queue (token_from_inst inst) lane_id word value
      ok (record st { table = put st.table (token_from_inst inst).key q }))

unfoldable pub functional_read_lane : Side → QueueState → QueueInst → ℕ → ℕ → Result ℕ
functional_read_lane side st inst lane_id word =
    if not side.enabled || not side.model_data then ok 0 else (do
      queue ← non_null (find st.table (token_from_inst inst).key)
      head_lane_value queue lane_id word)

-- What `func_exec_inst` leaves in the access queue is given from outside.
abbrev pub with_accesses : ℕ → Option QueueInst → Option QueueInst
with_accesses n none = none
with_accesses n (some inst) = some (record inst { accessq_count = n })

-- The steps of `issue_warp` that touch the queue: before and after the instruction is executed.
unfoldable pub issue_queue :
    Side → Layout → QueueState → ℕ → Option QueueInst → Result (Option QueueInst × QueueState)
issue_queue side layout st accesses inst = do
  prepared ← prepare_issue side layout st inst
  st' ← after_func_exec side prepared.1 (with_accesses accesses prepared.0)
  ok (with_accesses accesses prepared.0, st')
