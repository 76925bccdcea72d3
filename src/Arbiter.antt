-- ===== src/Arbiter.antt =====
-- The arbiter of the register banks: class `opndcoll_rfu_t::arbiter_t` of gpgpu-sim/shader.h and
-- shader.cc. A bank is a record of its queue and its allocation; `m_allocator_rr_head` and
-- `_outmatch`, which nothing reads, are left out.
pub mod Reads
mod Tests
use dae_proj.Base.{
  ℕ, zero, suc, ◌+◌, ◌%◌, Bool, true, false, not, ◌&&◌, ◌||◌, Option, none, some, List, [], ◌∷◌,
  ◌++◌, length, map, set, get_elem?, ltb, ◌==◌, if◌then◌else◌, Result, ok, fault, Fault, ◌>>=◌,
  ◌>>◌, check, access,
}

-- `op_t`, of which the arbiter reads these fields.
pub record RegOp : Type 0 where
  pub valid : Bool
  pub bank : ℕ
  pub oc_id : ℕ

pub data Alloc : Type 0 where
  no_alloc : Alloc
  read_alloc write_alloc : RegOp → Alloc

pub record Bank : Type 0 where
  pub queue : List RegOp
  pub allocation : Alloc

pub record Arbiter : Type 0 where
  pub num_collectors : ℕ
  pub banks : List Bank
  pub last_cu : ℕ

abbrev pub is_write : Alloc → Bool
is_write (write_alloc op) = true
is_write _ = false

abbrev pub is_free : Alloc → Bool
is_free no_alloc = true
is_free _ = false

abbrev change_bank : Arbiter → ℕ → Bank → Arbiter
change_bank a i b = record a { banks = set a.banks i b }

abbrev bank_at : Arbiter → ℕ → Result Bank
bank_at a i = access (get_elem? a.banks i)

-- The operands of a collector, those that are valid, go to the queues of their banks.
unfoldable pub add_read_requests : Arbiter → List RegOp → Result Arbiter
add_read_requests a [] = ok a
add_read_requests a (op ∷ ops) = if not op.valid then add_read_requests a ops else (do
  b ← bank_at a op.bank
  add_read_requests (change_bank a op.bank (record b { queue = b.queue ++ (op ∷ []) })) ops)

unfoldable pub bank_idle : Arbiter → ℕ → Result Bool
bank_idle a i = bank_at a i >>= λ b. ok (is_free b.allocation)

unfoldable pub allocate_bank_for_write : Arbiter → ℕ → RegOp → Result Arbiter
allocate_bank_for_write a i op = do
  check (ltb i (length a.banks))
  b ← bank_at a i
  check (is_free b.allocation)
  ok (change_bank a i (record b { allocation = write_alloc op }))

unfoldable pub allocate_for_read : Arbiter → ℕ → RegOp → Result Arbiter
allocate_for_read a i op = do
  check (ltb i (length a.banks))
  b ← bank_at a i
  check (is_free b.allocation)
  ok (change_bank a i (record b { allocation = read_alloc op }))

abbrev freed : Bank → Bank
freed b = record b { allocation = no_alloc }

abbrev pub reset_alloction : Arbiter → Arbiter
reset_alloction a = record a { banks = map freed a.banks }

-- A bank with its `_inmatch`; -1 is `none`.
pub record Row : Type 0 where
  pub bank : Bank
  pub inmatch : Option ℕ

-- The collector that the head of the queue goes to is `output`: `_request[input][output]`.
abbrev pub requests : List RegOp → ℕ → Bool
requests [] output = false
requests (op ∷ ops) output = op.oc_id == output

abbrev pub unmatched : Option ℕ → Bool
unmatched none = true
unmatched (some j) = false

-- The body of the loop over the diagonal.
abbrev pub grant : Row → ℕ → Row
grant r output =
    if unmatched r.inmatch && requests r.bank.queue output
    then record r { inmatch = some output }
    else r

-- One diagonal: `output` is that of the first row.
unfoldable pub diagonal : ℕ → ℕ → List Row → List Row
diagonal outputs output [] = []
diagonal outputs output (r ∷ rs) = grant r output ∷ diagonal outputs ((output + 1) % outputs) rs

-- The diagonals from `p` on, `n` of them.
unfoldable pub diagonals : ℕ → ℕ → ℕ → ℕ → List Row → List Row
unfolding diagonal
diagonals outputs pri p zero rows = rows
diagonals outputs pri p (suc n) rows =
    diagonals outputs pri (p + 1) n (diagonal outputs ((pri + p) % outputs) rows)

-- A bank that is written counts as matched.
abbrev pub first_row : Bank → Row
first_row b = record { bank = b; inmatch = if is_write b.allocation then some 0 else none }

abbrev head_fits : ℕ → List RegOp → Bool
head_fits outputs [] = true
head_fits outputs (op ∷ ops) = ltb op.oc_id outputs

unfoldable pub check_heads : ℕ → List Bank → Result (Unit {0})
check_heads outputs [] = ok tt
check_heads outputs (b ∷ bs) = check (head_fits outputs b.queue) >> check_heads outputs bs

-- `front()` and `pop_front()`.
abbrev take_head : Bank → List RegOp → List RegOp × List Bank → Result (List RegOp × List Bank)
take_head b [] rest = fault Fault.bad_access
take_head b (op ∷ ops) rest = ok (op ∷ rest.0, record b { queue = ops } ∷ rest.1)

-- The matched banks that are not written give the heads of their queues.
unfoldable pub take_heads : List Row → Result (List RegOp × List Bank)
take_heads [] = ok ([], [])
take_heads (r ∷ rs) = take_heads rs >>= λ rest.
    if unmatched r.inmatch || is_write r.bank.allocation
    then ok (rest.0, r.bank ∷ rest.1)
    else take_head r.bank r.bank.queue rest

abbrev pub larger : ℕ → ℕ → ℕ
larger m n = if ltb n m then m else n

unfoldable pub allocate_reads : Arbiter → Result (List RegOp × Arbiter)
unfolding check_heads diagonals take_heads
allocate_reads a = do
  check (ltb 0 (larger (length a.banks) a.num_collectors))
  check_heads a.num_collectors a.banks
  taken ← take_heads (
      diagonals a.num_collectors a.last_cu 0 (larger (length a.banks) a.num_collectors)
        (map first_row a.banks))
  ok (taken.0, record a { banks = taken.1; last_cu = (a.last_cu + 1) % a.num_collectors })
