-- ===== src/Exec.antt =====
-- The queue instructions of cuda-sim/cuda-sim.cc: which queue an operand names, and what a load into
-- a queue and a move out of it do in one lane. The thread (its registers and the global memory) is
-- a record of functions. The functions `smemq_*` are those of `wasp_rfq_*` on the other queues.
pub mod Lanes
mod Tests
use dae_proj.Base.{
  ℕ, zero, suc, ◌+◌, ◌-◌, ◌*◌, Bool, true, false, not, ◌&&◌, ◌||◌, Option, none, some, List, [],
  ◌∷◌, ◌++◌, get_or, ltb, leb, ◌==◌, if◌then◌else◌, Result, ok, fault, Fault, ◌>>=◌, ◌>>◌, check,
}
use dae_proj.Config.{ShaderConfig}
use dae_proj.Port.{
  Side, QueueState, QueueInst, nonzero_or, functional_store_lane, functional_read_lane,
}
use dae_proj.Port.Sides.{rfq_side, smemq_side}

-- An operand: a literal, a register or label with the codes of its name, or something else.
pub data Operand : Type 0 where
  literal : ℕ → Operand
  named : List ℕ → Operand
  other_operand : Operand

abbrev is_digit : ℕ → Bool
is_digit c = leb 48 c && leb c 57

unfoldable pub all_digits : List ℕ → Bool
all_digits [] = true
all_digits (c ∷ cs) = is_digit c && all_digits cs

-- The digits at the end of a name.
unfoldable pub trailing_digits : List ℕ → List ℕ
unfolding all_digits
trailing_digits [] = []
trailing_digits (c ∷ cs) = if all_digits (c ∷ cs) then c ∷ cs else trailing_digits cs

-- `atoi` of digits, which has no behaviour on a number beyond `int`.
unfoldable pub digits_value : ℕ → List ℕ → ℕ
digits_value n [] = n
digits_value n (c ∷ cs) = digits_value (10 * n + (c - 48)) cs

abbrev queue_id_of_digits : List ℕ → Result ℕ
queue_id_of_digits [] = fault Fault.aborted
queue_id_of_digits (c ∷ cs) = ok (digits_value 0 (c ∷ cs))

unfoldable pub wasp_queue_id_from_operand : Operand → Result ℕ
wasp_queue_id_from_operand (literal n) = ok n
wasp_queue_id_from_operand (named name) = queue_id_of_digits (trailing_digits name)
wasp_queue_id_from_operand other_operand = fault Fault.aborted

pub data Space : Type 0 where
  generic_space global_space other_space : Space

abbrev is_global : Space → Bool
is_global global_space = true
is_global _ = false

-- What one lane of a load reads: `operand_value` of its source operands, and memory. `space` is the
-- space of the instruction, and `destination_is_vector` that of a move.
pub record Thread : Type 0 where
  pub num_operands : ℕ
  pub operand_value : ℕ → ℕ
  pub space : Space
  pub which_space : ℕ → Space
  pub generic_to_global : ℕ → ℕ
  pub read_global : ℕ → ℕ
  pub destination_is_vector : Bool

abbrev resolved : Thread → Space → ℕ → Space × ℕ
resolved th generic_space addr = (
  th.which_space addr,
  if is_global (th.which_space addr) then th.generic_to_global addr else addr,
)
resolved th space addr = (space, addr)

-- The address in the source operand number `n`.
unfoldable pub wasp_rfq_effective_address : Thread → ℕ → Result ℕ
wasp_rfq_effective_address th n = do
  let at = resolved th th.space (th.operand_value n)
  check (is_global at.0)
  ok at.1

-- `MAX_ACCESSES_PER_INSN_PER_THREAD`
abbrev pub max_accesses : ℕ
max_accesses = 8

-- The loop of a load over `n` words from `word` on; the addresses go to `set_addr`.
unfoldable pub ld_words :
    Side → Thread → QueueInst → ℕ → QueueState → ℕ → ℕ → Result (List ℕ × QueueState)
ld_words side th inst lane st word zero = ok ([], st)
ld_words side th inst lane st word (suc n) = do
  addr ← wasp_rfq_effective_address th (word + 1)
  st' ← functional_store_lane side st inst lane word (th.read_global addr)
  rest ← ld_words side th inst lane st' (word + 1) n
  ok (addr ∷ rest.0, rest.1)

unfoldable pub ld_exec : Side → Thread → QueueInst → ℕ → QueueState → Result (List ℕ × QueueState)
unfolding ld_words
ld_exec side th inst lane st = do
  let payload_words = nonzero_or inst.payload_words_per_lane 1
  check (leb payload_words max_accesses)
  check (leb (payload_words + 1) th.num_operands)
  ld_words side th inst lane st 0 payload_words

-- The loop of a move over `n` words from `word` on.
unfoldable pub mov_words : Side → QueueInst → ℕ → QueueState → ℕ → ℕ → Result (List ℕ)
mov_words side inst lane st word zero = ok []
mov_words side inst lane st word (suc n) = do
  value ← functional_read_lane side st inst lane word
  rest ← mov_words side inst lane st (word + 1) n
  ok (value ∷ rest)

-- The values that a move writes to its destination: four to a vector, and one to a register.
abbrev pub written : Thread → List ℕ → List ℕ
written th values =
    if th.destination_is_vector
    then get_or values 0 0 ∷ (get_or values 1 0 ∷ (get_or values 2 0 ∷ (get_or values 3 0 ∷ [])))
    else get_or values 0 0 ∷ []

unfoldable pub mov_exec : Side → Thread → QueueInst → ℕ → QueueState → Result (List ℕ)
unfolding mov_words
mov_exec side th inst lane st = do
  let payload_words = nonzero_or inst.payload_words_per_lane 1
  check (leb payload_words 4)
  values ← mov_words side inst lane st 0 payload_words
  ok (written th values)

abbrev pub wasp_rfq_ld_exec :
    ShaderConfig → Thread → QueueInst → ℕ → QueueState → Result (List ℕ × QueueState)
wasp_rfq_ld_exec c = ld_exec (rfq_side c)

abbrev pub wasp_rfq_mov_exec : ShaderConfig → Thread → QueueInst → ℕ → QueueState → Result (List ℕ)
wasp_rfq_mov_exec c = mov_exec (rfq_side c)

abbrev pub smemq_ld_exec :
    ShaderConfig → Thread → QueueInst → ℕ → QueueState → Result (List ℕ × QueueState)
smemq_ld_exec c = ld_exec (smemq_side c)

abbrev pub smemq_mov_exec : ShaderConfig → Thread → QueueInst → ℕ → QueueState → Result (List ℕ)
smemq_mov_exec c = mov_exec (smemq_side c)

-- The branch of `ptx_exec_inst` for queue instructions. What comes back is the lane's result, and
-- `none` for an instruction that uses no queue.
pub data LaneResult : Type 0 where
  loaded : List ℕ → LaneResult
  moved : List ℕ → LaneResult

unfoldable pub exec_queue_inst :
    ShaderConfig
    → Thread
    → QueueInst
    → QueueInst
    → ℕ
    → QueueState
    → QueueState
    → Result (Option LaneResult × QueueState × QueueState)
exec_queue_inst c th rfq smemq lane rs ss =
    if rfq.load
    then (wasp_rfq_ld_exec c th rfq lane rs >>= λ r. ok (some (loaded r.0), r.1, ss))
    else if rfq.move
    then (wasp_rfq_mov_exec c th rfq lane rs >>= λ vs. ok (some (moved vs), rs, ss))
    else if smemq.load
    then (smemq_ld_exec c th smemq lane ss >>= λ r. ok (some (loaded r.0), rs, r.1))
    else if smemq.move
    then (smemq_mov_exec c th smemq lane ss >>= λ vs. ok (some (moved vs), rs, ss))
    else ok (none, rs, ss)
