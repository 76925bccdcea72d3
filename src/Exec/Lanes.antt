-- ===== src/Exec/Lanes.antt =====
-- What a load of cuda-sim/cuda-sim.cc stores in a lane of a queue is what the move takes out.
use dae_proj.Base.{
  ℕ, zero, suc, ◌+◌, ◌<◌, ◌≤◌, ◌≡◌, ◌≢◌, inr, refl, ap, sym, subst, ◌∙◌, true, List, [], ◌∷◌, some,
  ok, arith, get_or-set_self,
}
use dae_proj.Exec.{
  Thread, wasp_rfq_effective_address, ld_words, mov_words, ld_exec, mov_exec, written,
}
use dae_proj.Port.{
  Side, QueueState, QueueInst, nonzero_or, token_from_inst, functional_store_lane,
  functional_read_lane,
}
use dae_proj.Port.Steps.{find-put_self}
use dae_proj.Rfq.{
  Rfq, Entry, fresh_entry, Token, head_ready, head_lane_value, set_lane_value, store,
}
use dae_proj.Rfq.Inv.{IsValid, entry_at}
use dae_proj.Rfq.Lanes.{
  Fits, head_lane_value-set_lane_value, head_lane_value-set_other, set_lane_value-eq, here,
  ready_now,
}
use dae_proj.Rfq.Ops.{IsCurrent}
use dae_proj.Rfq.Table.{find, put}
use dae_proj.Rfq.Trace.{Step, Step-IsValid, filled}

-- The token is of the ready head of a valid queue, of the shape that the instruction has.
pub record IsOpen (q : Rfq) (t : Token) (payload : ℕ) : Type 0 where
  pub valid : IsValid q
  pub fits : Fits q
  pub current : IsCurrent q t
  pub at_head : t.slot_index ≡ q.head
  pub ready : head_ready q ≡ true
  pub words : q.payload_words_per_lane ≡ payload

module _ (q : Rfq) (t : Token) (payload lane word value : ℕ) (o : IsOpen q t payload)
    (h : lane < q.warp_size) (k : word < payload) where
  inside : word < q.payload_words_per_lane
  inside = omega (arith, k, o.words)

  abbrev next_queue : Rfq
  next_queue = store q t (filled (entry_at q t.slot_index) lane word value)

  stores : set_lane_value q t lane word value ≡ ok next_queue
  stores =
      set_lane_value-eq q t lane word value o.valid o.current h
        (here q t lane word value o.valid o.fits o.current o.at_head o.ready h inside)

  next-IsOpen : IsOpen next_queue t payload
  next-IsOpen = record {
    valid = Step-IsValid o.valid (Step.fills t lane word value o.current stores);
    fits = o.fits;
    current = record {
      valid = o.current.valid;
      inside = o.current.inside;
      live = o.current.live;
      same =
          ap (λ (e : Entry). e.sequence)
            (get_or-set_self q.storage t.slot_index
              (filled (entry_at q t.slot_index) lane word value) fresh_entry
              (omega (arith, o.valid.sized, o.current.inside)))
          ∙ o.current.same;
    };
    at_head = o.at_head;
    ready = ready_now q t lane word value o.valid o.fits o.current o.at_head o.ready h inside;
    words = o.words;
  }

  next-read : head_lane_value next_queue lane word ≡ ok value
  next-read =
      let (q', eq, read) =
        head_lane_value-set_lane_value q t lane word value o.valid o.fits o.current o.at_head
          o.ready h inside in
      let is : q' ≡ next_queue = ground (arith, eq, stores) in
      subst (λ (r : Rfq). head_lane_value r lane word ≡ ok value) is read

  next-others :
      (w : ℕ)
      → w < payload
      → w ≢ word
      → head_lane_value next_queue lane w ≡ head_lane_value q lane w
  next-others w p ne =
      head_lane_value-set_other q t lane word value o.valid o.fits o.current o.at_head o.ready h
        inside lane w next_queue h (omega (arith, p, o.words)) (inr ne) stores

-- The `n` words of memory that a load reads, from the operand of `word` on.
unfoldable pub loaded_words : Thread → (ℕ → ℕ) → ℕ → ℕ → List ℕ
loaded_words th addrs zero word = []
loaded_words th addrs (suc n) word =
    th.read_global (addrs word) ∷ loaded_words th addrs n (word + 1)

module _ (side : Side) (th : Thread) (inst : QueueInst) (lane payload : ℕ) (addrs : ℕ → ℕ)
    (enabled : side.enabled ≡ true) (modelled : side.model_data ≡ true)
    (resolves : (w : ℕ) → w < payload → wasp_rfq_effective_address th (w + 1) ≡ ok (addrs w)) where
  -- The queue of the instruction is open in the table.
  pub record Holds (st : QueueState) : Type 0 where
    pub queue : Rfq
    pub found : find st.table (token_from_inst inst).key ≡ some queue
    pub opened : IsOpen queue (token_from_inst inst) payload
    pub wide : lane < queue.warp_size

  -- The word is in the lane.
  unfoldable Stored : QueueState → ℕ → ℕ → Type 0
  Stored st w value = functional_read_lane side st inst lane w ≡ ok value

  read-queue :
      (st : QueueState) (q : Rfq) (w : ℕ)
      → find st.table (token_from_inst inst).key ≡ some q
      → functional_read_lane side st inst lane w ≡ head_lane_value q lane w
  unfolding functional_read_lane
  read-queue st q w e = ground (arith, enabled, modelled, e)

  -- One word goes into the lane, and the others stay.
  store-word :
      (st : QueueState) (word : ℕ) (value : ℕ)
      → Holds st
      → word < payload
      → (st' : QueueState) × (functional_store_lane side st inst lane word value ≡ ok st')
        × Holds st'
        × Stored st' word value
        × ((w : ℕ)
            → w < payload
            → w ≢ word
            → functional_read_lane side st' inst lane w ≡ functional_read_lane side st inst lane w)
  unfolding functional_store_lane Stored
  store-word st word value hs p =
      let t = token_from_inst inst in
      let q' = next_queue hs.queue t payload lane word value hs.opened hs.wide p in
      let st' : QueueState = record st { table = put st.table t.key q' } in
      let found' = find-put_self st.table t.key q' in
      let ran = stores hs.queue t payload lane word value hs.opened hs.wide p in
      (
        st',
        ground (arith, enabled, modelled, hs.found, ran),
        record {
          queue = q';
          found = found';
          opened = next-IsOpen hs.queue t payload lane word value hs.opened hs.wide p;
          wide = hs.wide;
        },
        read-queue st' q' word found'
            ∙ next-read hs.queue t payload lane word value hs.opened hs.wide p,
        λ w b ne.
            read-queue st' q' w found'
            ∙ next-others hs.queue t payload lane word value hs.opened hs.wide p w b ne
            ∙ sym (read-queue st hs.queue w hs.found),
      )

  ld_words-mov_words :
      (n word : ℕ) (st : QueueState)
      → Holds st
      → word + n ≤ payload
      → (read : List ℕ) × (st' : QueueState) × (ld_words side th inst lane st word n
          ≡ ok (read, st'))
        × (mov_words side inst lane st' word n ≡ ok (loaded_words th addrs n word))
        × ((w : ℕ)
            → w < word
            → functional_read_lane side st' inst lane w ≡ functional_read_lane side st inst lane w)
  unfolding ld_words mov_words loaded_words Stored
  ld_words-mov_words zero word st hs p = ([], st, refl, refl, λ w b. refl)
  ld_words-mov_words (suc n) word st hs p =
      let here_in : word < payload = omega (arith, p) in
      let (st1, ran, hs1, stored, others) =
        store-word st word (th.read_global (addrs word)) hs here_in in
      let (read, st', rest, taken, keep) =
        ld_words-mov_words n (word + 1) st1 hs1 (omega (arith, p)) in
      let kept = keep word (omega arith) ∙ stored in
      (
        addrs word ∷ read,
        st',
        ground (arith, resolves word here_in, ran, rest),
        ground (arith, kept, taken),
        λ w b.
            keep w (omega (arith, b))
            ∙ others w (omega (arith, b, here_in)) (λ e. omega (arith, e, b)),
      )

  -- A move that names the same queue reads the same words.
  mov_words-same :
      (n word : ℕ) (st : QueueState) (taker : QueueInst)
      → (token_from_inst taker).key ≡ (token_from_inst inst).key
      → mov_words side taker lane st word n ≡ mov_words side inst lane st word n
  unfolding mov_words functional_read_lane
  mov_words-same zero word st taker e = refl
  mov_words-same (suc n) word st taker e =
      let rest = mov_words-same n (word + 1) st taker e in ground (arith, e, rest)

  -- When the mechanism is on and models data, the queue of an instruction is in the table
  -- with the token of its ready head, the payload is that of the queue and at most four
  -- words, and the operands of the load exist and name global memory, a load in a lane
  -- succeeds and the move that names the same queue then writes the words of memory that the
  -- load read, in their order.
  pub mov_exec-ld_exec :
      (st : QueueState) (taker : QueueInst) (taking : Thread)
      → Holds st
      → nonzero_or inst.payload_words_per_lane 1 ≡ payload
      → nonzero_or taker.payload_words_per_lane 1 ≡ payload
      → (token_from_inst taker).key ≡ (token_from_inst inst).key
      → payload ≤ 4
      → payload < th.num_operands
      → (read : List ℕ) × (st' : QueueState) × (ld_exec side th inst lane st ≡ ok (read, st'))
        × (mov_exec side taking taker lane st'
            ≡ ok (written taking (loaded_words th addrs payload 0)))
  unfolding ld_exec mov_exec
  mov_exec-ld_exec st taker taking hs own other same few enough =
      let (read, st', run, taken, keep) = ld_words-mov_words payload 0 st hs (omega arith) in
      let moved = mov_words-same payload 0 st' taker same ∙ taken in
      (read, st', ground (arith, own, run, few, enough), ground (arith, other, moved, few))
