-- ===== src/Rfq/Tests.antt =====
-- The queue of wasp-rfq.cc at concrete inputs.
use dae_proj.Base.{
  ◌≡◌, ◌⊎◌, refl, true, false, [], ◌∷◌, ◌++◌, none, some, ok, fault, Fault, arith, ◌>>=◌,
  if◌then◌else◌,
}
use dae_proj.Rfq.Keys.{default_key}
use dae_proj.Rfq.{
  Rfq, Entry, Token, ready, fresh_rfq, full, head_ready, configure, reserve_tail, consume_head,
  set_pending_responses, mark_response, tail_token, store, released, with_pending,
}
use dae_proj.Rfq.Inv.{IsValid, configured_rfq, configure-fresh-IsValid, entry_at}
use dae_proj.Rfq.Ops.{
  after_reserve, after_consume, after_reserve-IsValid, IsCurrent, consume_head-eq,
}
use dae_proj.Rfq.Fifo.{contents}
use dae_proj.Rfq.Trace.{
  enter, leave, update, Run, reserves, sets, responds, consumes, done, step, Run-IsValid, Run-fifo,
  numbers,
}
use dae_proj.Rfq.Progress.{
  reserve_tail_total, reserve_tail_appends, consume_head_takes, set-mark_all, mark_all,
  settled_entry, waiting_for, stale_token, after_reserve-IsCurrent,
}
use dae_proj.Rfq.Counts.{Counted, Run-Counted, configure-fresh-Counted}
use dae_proj.Rfq.Table.{Table, find, put, get_or_create, get_or_create_lem, AllAgree, Agrees}

-- Two entries of three words for two lanes.
abbrev shallow : Rfq
shallow = configured_rfq 2 3 2

shallow-IsValid : IsValid shallow
unfolding configure
shallow-IsValid = (configure-fresh-IsValid 2 3 2 shallow (omega arith) refl).0

-- One load, whose data is there at once.
abbrev holding : Rfq
holding = after_reserve shallow 3 0

abbrev token : Token
token = tail_token shallow default_key

holding-IsValid : IsValid holding
holding-IsValid = after_reserve-IsValid shallow 3 0 shallow-IsValid refl

token-IsCurrent : IsCurrent holding token
token-IsCurrent = after_reserve-IsCurrent shallow default_key 3 0 shallow-IsValid refl

configured_shallow : configure fresh_rfq 2 3 2 ≡ ok shallow
unfolding configure
configured_shallow = refl

reserved_once : reserve_tail shallow default_key 3 0 ≡ ok (token, holding)
unfolding reserve_tail
reserved_once = refl

-- A load goes in, waits for one response, gets it, and is consumed.
abbrev waiting_rfq : Rfq
waiting_rfq = store holding token (with_pending (entry_at holding 0) 1)

abbrev answered_rfq : Rfq
answered_rfq = store waiting_rfq token (settled_entry (entry_at holding 0))

waiting-IsCurrent : IsCurrent waiting_rfq token
waiting-IsCurrent = record { valid = refl; inside = omega arith; live = omega arith; same = refl }

one_load : Run shallow (enter 1 ∷ update ∷ update ∷ leave 1 ∷ []) (after_consume answered_rfq)
unfolding reserve_tail set_pending_responses mark_response consume_head
one_load = step (reserves default_key 3 0 {t = token} {q' = holding} refl) (
    step (sets token 1 {q' = waiting_rfq} token-IsCurrent refl) (
      step (responds token true {q' = answered_rfq} waiting-IsCurrent refl)
        (step (consumes default_key {q' = after_consume answered_rfq} refl) done)))

Run-IsValid_example : IsValid (after_consume answered_rfq)
Run-IsValid_example = Run-IsValid shallow-IsValid one_load

Run-fifo_example : numbers shallow ++ (1 ∷ []) ≡ (1 ∷ []) ++ numbers (after_consume answered_rfq)
Run-fifo_example = Run-fifo shallow-IsValid one_load

Run-Counted_example : Counted (after_consume answered_rfq)
Run-Counted_example =
    Run-Counted shallow-IsValid one_load (configure-fresh-Counted 2 3 2 shallow configured_shallow)

reserve_tail_total_example :
    reserve_tail shallow default_key 3 0
    ≡ (if full shallow then fault Fault.assertion else ok (token, holding))
reserve_tail_total_example = reserve_tail_total shallow default_key 3 0 shallow-IsValid

reserve_tail_appends_example :
    (q' : Rfq) × (reserve_tail shallow default_key 3 0 ≡ ok (token, q'))
    × IsValid q'
    × IsCurrent q' token
    × (contents q' ≡ contents shallow ++ (entry_at holding 0 ∷ []))
reserve_tail_appends_example = reserve_tail_appends shallow default_key 3 0 shallow-IsValid refl

holding-ready : head_ready holding ≡ true
unfolding head_ready
holding-ready = refl

consume_head-eq_example :
    consume_head holding default_key
    ≡ (if head_ready holding then ok (after_consume holding) else fault Fault.assertion)
consume_head-eq_example = consume_head-eq holding default_key holding-IsValid

consume_head_takes_example :
    (e : Entry) × (q' : Rfq) × (consume_head holding default_key ≡ ok q')
    × IsValid q'
    × (contents holding ≡ e ∷ contents q')
    × (e.state ≡ ready)
    × (e.pending_responses ≡ 0)
consume_head_takes_example = consume_head_takes holding default_key holding-IsValid holding-ready

set-mark_all_example :
    ((set_pending_responses holding token 3 >>= λ r. mark_all 1 r token)
      ≡ ok (false ∷ [], store holding token (waiting_for (entry_at holding 0) 2)))
    × ((set_pending_responses holding token 3 >>= λ r. mark_all 3 r token)
        ≡ ok (false ∷ false ∷ true ∷ [], store holding token (settled_entry (entry_at holding 0))))
set-mark_all_example = set-mark_all 1 1 holding token holding-IsValid token-IsCurrent

stale_token_example :
    (q' : Rfq) × (consume_head holding default_key ≡ ok q')
    × (mark_response q' token ≡ fault Fault.assertion)
    × (set_pending_responses q' token 2
        ≡ ok (store q' token (with_pending (released (entry_at holding 0)) 2)))
stale_token_example =
    stale_token 2 holding token default_key holding-IsValid token-IsCurrent refl holding-ready

abbrev two_ctas : Table
two_ctas = (default_key, shallow) ∷ (record default_key { cta_hw_id = 1 }, holding) ∷ []

no_queues-AllAgree : AllAgree 2 3 2 []
unfolding find
no_queues-AllAgree k q h = ground arith

get_or_create_lem_example :
    (q : Rfq) × (get_or_create [] default_key 2 3 2 ≡ ok (q, put [] default_key q))
    × Agrees 2 3 2 q
    × ((find [] default_key ≡ some q) ⊎ ((find [] default_key ≡ none) × (q.occupancy ≡ 0)))
get_or_create_lem_example =
    get_or_create_lem [] default_key 2 3 2 (omega arith) (omega arith) (omega arith) (omega arith)
      no_queues-AllAgree
