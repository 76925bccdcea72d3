-- ===== src/Exit/Queues.antt =====
-- The queues of a CTA that has ended.
use dae_proj.Base.{
  ℕ, ◌≡◌, refl, sym, ap, subst, ltb→lt, ◌∙◌, ◌-◌, Bool, true, false, not, ◌||◌, Option, none, some,
  set, get_elem?, ◌&&◌, ◌<◌, ltb, ◌==◌, if◌then◌else◌, Result, ok, fault, ◌>>=◌, ◌>>◌, check,
  access, inl, inr, Bool-cases, bind-ok, arith,
}
use dae_proj.Barrier.{deallocate_barrier}
use dae_proj.Config.{ShaderConfig}
use dae_proj.Exit.{
  ExitState, empty_core, end_kernel, counted, freed, free_cta, end_cta, exit_of,
  register_cta_thread_exit, find_kernel, resources_of,
}
use dae_proj.Launch.{KernelInfo, running, dec_running}
use dae_proj.Launch.Kernels.{kernel_more_cta_left, set_kernel_done}
use dae_proj.Resources.{release_shader_resource_1block}
use dae_proj.Rfq.Keys.{Key}
use dae_proj.Rfq.Table.{Table, find, erase_cta, find-erase_cta}

-- The two tables and the threads left are the same.
abbrev pub Keeps : ExitState → ExitState → Type 0
Keeps s r =
    (r.rfq_table ≡ s.rfq_table) × (r.smemq_table ≡ s.smemq_table) × (r.cta_status ≡ s.cta_status)

then-ok :
    (r : Result (Unit {0})) (rest : Result ExitState) (result : ExitState)
    → (r >> rest) ≡ ok result
    → rest ≡ ok result
then-ok (ok tt) rest result h = h
then-ok (fault why) rest result h = absurd (ground (arith, h))

check-ok :
    (b : Bool) (rest : Result ExitState) (result : ExitState)
    → (check b >> rest) ≡ ok result
    → (b ≡ true) × (rest ≡ ok result)
check-ok true rest result h = (refl, h)
check-ok false rest result h = absurd (ground (arith, h))

-- What goes on from a state that is kept keeps it.
same-Keeps : (s t r : ExitState) → Keeps s t → ok t ≡ ok r → Keeps s r
same-Keeps s t r (rfq, smemq, status) h =
    let e : t ≡ r = ground (arith, h) in
    (
      sym (ap (λ (x : ExitState). x.rfq_table) e) ∙ rfq,
      sym (ap (λ (x : ExitState). x.smemq_table) e) ∙ smemq,
      sym (ap (λ (x : ExitState). x.cta_status) e) ∙ status,
    )

-- A test that lets a state through, or else a computation that keeps it.
if-Keeps :
    (b : Bool) (s r : ExitState) (other : Result ExitState)
    → (if b then ok s else other) ≡ ok r
    → (other ≡ ok r → Keeps s r)
    → Keeps s r
if-Keeps true s r other h keeps = same-Keeps s s r (refl, refl, refl) h
if-Keeps false s r other h keeps = keeps h

empty_core-Keeps : (s r : ExitState) (uid : ℕ) → empty_core s uid ≡ ok r → Keeps s r
unfolding empty_core
empty_core-Keeps s r uid h =
    if-Keeps (not (s.n_active_cta == 0)) s r _ h
      (λ k. same-Keeps s (record s { kernel = none }) r (refl, refl, refl) (then-ok _ _ r k))

end_kernel-Keeps : (s r : ExitState) (k : KernelInfo) → end_kernel s k ≡ ok r → Keeps s r
unfolding end_kernel
end_kernel-Keeps s r k h = if-Keeps (kernel_more_cta_left s.gpu (some k) || running k) s r _ h (λ e.
    let (g, is, last) = bind-ok (set_kernel_done s.gpu k) _ r e in
    same-Keeps s _ r (refl, refl, refl) last)

-- The queues of a CTA are gone from both tables, and all others are as before.
abbrev pub Erased : ExitState → ExitState → ℕ → Type 0
Erased s r cta_num =
    (r.rfq_table ≡ erase_cta s.rfq_table cta_num)
    × (r.smemq_table ≡ erase_cta s.smemq_table cta_num)
    × (r.cta_status ≡ s.cta_status)

-- What the exit of a thread leaves of the queues, with `left` threads of the CTA before it.
abbrev pub QueuesLeft : ExitState → ExitState → ℕ → ℕ → Type 0
QueuesLeft s r cta_num left =
    (0 < left)
    × (r.cta_status ≡ set s.cta_status cta_num (left - 1))
    × ((k : Key)
        → let gone = left == 1 && k.cta_hw_id == cta_num in
          (find r.rfq_table k ≡ (if gone then none else find s.rfq_table k))
          × (find r.smemq_table k ≡ (if gone then none else find s.smemq_table k)))

module _ (c : ShaderConfig) (usage : ℕ → ℕ × ℕ) (inc_completed_cta : ℕ → ℕ) where
  free_cta-tables :
      (s r : ExitState) (cta_num uid : ℕ)
      → free_cta c usage inc_completed_cta s cta_num uid ≡ ok r
      → Erased s r cta_num
  unfolding free_cta
  free_cta-tables s r cta_num uid h =
      let release = λ (k : KernelInfo).
        release_shader_resource_1block c (resources_of c usage inc_completed_cta k) s.occupied
          cta_num in
      let (k, f, h1) =
        bind-ok (find_kernel s.gpu.running_kernels uid)
          (λ k. release k >>= λ occupied.
            dec_running k >>= λ k'. end_kernel (freed s cta_num occupied k') k')
          r h in
      let (occupied, o, h2) =
        bind-ok (release k)
          (λ occupied. dec_running k >>= λ k'. end_kernel (freed s cta_num occupied k') k') r h1 in
      let (k', d, h3) =
        bind-ok (dec_running k) (λ k'. end_kernel (freed s cta_num occupied k') k') r h2 in
      end_kernel-Keeps (freed s cta_num occupied k') r k' h3

  end_cta-tables :
      (s r : ExitState) (cta_num uid : ℕ)
      → end_cta c usage inc_completed_cta s cta_num uid ≡ ok r
      → Erased s r cta_num
  unfolding end_cta
  end_cta-tables s r cta_num uid h =
      let start = counted c usage inc_completed_cta s in
      let free = λ (t : ExitState). free_cta c usage inc_completed_cta t cta_num uid in
      let (barriers, b, h1) =
        bind-ok (deallocate_barrier s.barriers cta_num)
          (λ barriers. empty_core (start barriers) uid >>= free) r h in
      let (emptied, e, h2) = bind-ok (empty_core (start barriers) uid) free r h1 in
      let (rfq, smemq, status) = empty_core-Keeps (start barriers) emptied uid e in
      let (rfq', smemq', status') = free_cta-tables emptied r cta_num uid h2 in
      (
        rfq' ∙ ap (λ (t : Table). erase_cta t cta_num) rfq,
        smemq' ∙ ap (λ (t : Table). erase_cta t cta_num) smemq,
        status' ∙ status,
      )

  exit_of-find :
      (s r : ExitState) (cta_num uid left : ℕ)
      → exit_of c usage inc_completed_cta s cta_num uid left ≡ ok r
      → QueuesLeft s r cta_num left
  unfolding exit_of
  exit_of-find s r cta_num uid left h =
      let s' = record s { cta_status = set s.cta_status cta_num (left - 1) } in
      let (more, rest) = check-ok (ltb 0 left) _ r h in
      elim (Bool-cases (left == 1)) [
        | inl last ↦
            let ended = end_cta-tables s' r cta_num uid (
              subst
                (λ (b : Bool).
                  (if b then end_cta c usage inc_completed_cta s' cta_num uid else ok s') ≡ ok r)
                last rest) in
            (
              ltb→lt 0 left more,
              ended.2,
              λ k. rw last (
                ap (λ (t : Table). find t k) ended.0 ∙ find-erase_cta s.rfq_table cta_num k,
                ap (λ (t : Table). find t k) ended.1 ∙ find-erase_cta s.smemq_table cta_num k,
              ),
            )
        | inr on ↦
            let kept =
              same-Keeps s' s' r (refl, refl, refl)
                (subst
                  (λ (b : Bool).
                    (if b then end_cta c usage inc_completed_cta s' cta_num uid else ok s') ≡ ok r)
                  on rest) in
            (
              ltb→lt 0 left more,
              kept.2,
              λ k. rw on (ap (λ (t : Table). find t k) kept.0, ap (λ (t : Table). find t k) kept.1),
            )
      ]

  -- When the exit of a thread succeeds, its CTA had a thread left and has one fewer now. The
  -- last thread takes the queues of its CTA out of both tables and no other queue; before it,
  -- every queue stays as it is.
  pub register_cta_thread_exit-find :
      (s r : ExitState) (cta_num uid left : ℕ)
      → get_elem? s.cta_status cta_num ≡ some left
      → register_cta_thread_exit c usage inc_completed_cta s cta_num uid ≡ ok r
      → QueuesLeft s r cta_num left
  unfolding register_cta_thread_exit
  register_cta_thread_exit-find s r cta_num uid left held h = exit_of-find s r cta_num uid left (
      subst
        (λ (o : Option ℕ). (access o >>= exit_of c usage inc_completed_cta s cta_num uid) ≡ ok r)
        held h)
