-- ===== src/Lib.antt =====
-- Decoupled access/execute queues of the simulated core in 01_gpgpusim_design/gpgpusim_overlay.
--
-- The overlay changes GPGPU-Sim so that a producer warp can load data into a queue from which a
-- consumer warp of the same CTA takes it. A queue is a ring of entries, kept in the register file
-- (wasp-rfq) or in shared memory (wasp-smem-queue); the two are one text with two names. A core
-- (shader_core_ctx) keeps a table of queues by key, asks the queue before it issues an
-- instruction, reserves an entry when a load issues, fills it while the load executes, counts the
-- memory responses that come back, and frees the entry when a move issues.
--
-- All paths below are under 01_gpgpusim_design/gpgpusim_overlay/src/gpgpu-sim/.
--
-- - Base, Base/Tests, Base/Lists, Base/Faults, Base/Words: Boolean tests and lists over native
--   numbers, code that may stop (a failed assertion, a call of abort, an access outside a vector)
--   and unsigned arithmetic with its wrap-around written out.
-- - Rfq: class wasp_rfq of wasp-rfq.h and wasp-rfq.cc, one function per method. Rfq/Keys:
--   wasp_rfq_key and operator<. Rfq/Table: class wasp_rfq_table. Rfq/Inv, Rfq/Entries, Rfq/Ops:
--   the invariant of the ring and what each method does to it. Rfq/Fifo, Rfq/Trace: the ring as a
--   sequence of entries, and histories of calls. Rfq/Progress: when calls succeed. Rfq/Counts:
--   ready_count and pending_count. Rfq/Lanes: the words of the lanes.
-- - Port: the methods wasp_rfq_* of shader_core_ctx in shader.cc. Port/Steps, Port/Moves,
--   Port/Issue: what they do to the table of queues, and the guard of an issue. Port/Pairing:
--   which warps share a queue.
-- - Config: shader_core_config::max_cta and the budgets of the queues in shader.cc, and
--   set_max_cta. Config/Adaptive: the adaptive L1 cache. Config/Limits: what the number of CTAs
--   promises. Config/Padding: the padded size of a CTA.
-- - Metadata: wasp_metadata_trim, wasp_parse_metadata_value and the part of
--   shader_core_config::init that reads the metadata file, in shader.h; it is the same code for
--   both mechanisms. fgets, sscanf and isspace are arguments. Metadata/Trim: what is trimmed.
--   Metadata/Read: what is read.
-- - Port/Sides: what the two mechanisms read of the configuration.
-- - Smemq: wasp-smem-queue.h, wasp-smem-queue.cc and the methods smemq_* of shader.cc, as the
--   same definitions under their own names. Smemq/Issue: an issue on such a queue.
-- - Barrier: class barrier_set_t of shader.cc. Barrier/Release, Barrier/Exit: when an arrival and
--   an exit let warps go on.
-- - Warp: class shd_warp_t of shader.h. Warp/Decode: shader_core_ctx::decode. Warp/Buffer: the
--   instruction buffer beside the pipeline count. Warp/Threads: threads that exit, and warps that
--   are used again.
-- - Launch: kernel_info_t of ../abstract_hardware_model.h and increment_x_then_y_then_z of
--   gpu-sim.cc. Launch/Walk: the order of the CTAs. Launch/Kernels: the running kernels of
--   gpgpu_sim. Launch/Select: which kernel is selected.
-- - Exec: the queue instructions of ../cuda-sim/cuda-sim.cc. Exec/Lanes: a load and the move that
--   takes its words.
-- - Arbiter: opndcoll_rfu_t::arbiter_t of shader.h and shader.cc. Arbiter/Reads: which reads it
--   grants.
-- - Core: what the schedulers of a core share, and register_set of ../abstract_hardware_model.h.
--   Core/Issue: shader_core_ctx::issue_warp. Core/Registers: which pipeline register an issue
--   writes. Core/Sample: a core for the tests.
-- - Scheduler: of scheduler_unit in shader.cc the orders order_lrr, order_rrr and
--   order_by_priority (std::sort is an argument), the classes of warps, the counters of failed
--   co-issues and classify_issue_target. Scheduler/Coissue: collect_issue_candidate and
--   try_pc_coissue. Scheduler/Dispatch: the turn of one warp in cycle. Scheduler/Cycle: cycle.
--   Scheduler/Pairs, Scheduler/Collected, Scheduler/Buffered, Scheduler/Coissued: which pair is
--   issued.
--   Scheduler/Routes: the two choices of a unit. Scheduler/Turns: the loop of a turn.
--   Scheduler/Order, Scheduler/Rotate: the classes of warps and the round robin order.
-- - Exit: shader_core_ctx::register_cta_thread_exit of shader.cc, which ends a CTA with its
--   barriers, queues, resources and kernel; inc_completed_cta is an argument. Exit/Queues: which
--   queues are left.
-- - Ldst: ldst_unit of shader.cc; the caches, the interconnect, the scoreboard and the operand
--   collector are operations on an outside state. Ldst/Depbar: unset_depbar. Ldst/Access: the
--   requests for one access. Ldst/Stages: the four stages of a cycle. Ldst/Latency:
--   L1_latency_queue_cycle. Ldst/Writeback: writeback. Ldst/Cycle: cycle. Ldst/Serve: the round
--   robin of writeback. Ldst/Outputs, Ldst/Responses: the responses to a load into registers.
--   Ldst/Queued: those to a load into a queue.
-- - Resources: the threads, shared memory, registers and CTAs that a core has given out, in
--   gpu-sim.cc: can_issue_1block, find_available_hwtid, occupy_shader_resource_1block,
--   release_shader_resource_1block and what issue_block2core claims. Resources/Marks: the bits that
--   are set and reset. Resources/Threads: the search for free threads. Resources/Claim, Resources/Issue: claiming and releasing a CTA.
-- State is passed on explicitly: a method that changes an object returns the new object.
-- active_mask_t is a number; the pointers NULL are none; the std::map is an association list. The
-- loops are structural recursion, so no fuel is used but in the search for free threads: its fuel
-- is one more than n_thread_per_shader, which is enough since each round starts at a later
-- thread. Numbers are unbounded naturals, and each unsigned operation of the source that can wrap
-- is taken modulo 2 ^ 32 (counters modulo 2 ^ 64).
--
-- What func_exec_inst does between the two halves of an issue is an argument, except for what a
-- lane does of a queue instruction (Exec). The two-level scheduler is not modelled. The rest of
-- the simulator (caches, interconnect, memory partitions, the PTX parser and interpreter), the
-- CUDA runtime, the kernels, and the scripts that configure and measure the runs are not
-- modelled.
pub mod Base
pub mod Config
pub mod Metadata
pub mod Rfq
pub mod Port
pub mod Smemq
pub mod Resources
pub mod Barrier
pub mod Warp
pub mod Launch
pub mod Arbiter
pub mod Core
pub mod Exec
pub mod Scheduler
pub mod Exit
pub mod Ldst
