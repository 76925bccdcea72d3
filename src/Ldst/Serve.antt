-- ===== src/Ldst/Serve.antt =====
-- Which client supplies the next instruction that is written back.
use dae_proj.Base.{
  ℕ, zero, suc, ◌+◌, ◌%◌, ◌≤◌, ◌<◌, ◌≡◌, refl, sym, ap, ap₂, ◌∙◌, subst, Bool, true, false, ◌&&◌,
  ◌⊎◌, inl, inr, Option, none, some, List, set, get_elem?, ltb, ◌==◌, if◌then◌else◌, Result, ok,
  ok-pair, ok-injective, ◌>>=◌, access, add32, bind-ok, Bool-cases, ltb→lt, ltb→le, arith,
}
use dae_proj.Ldst.{
  MemInst, Fetch, CacheId, Memory, MemConfig, Ldst, decrement_atomic_count,
  core_dec_inst_in_pipeline, change_warp,
}
use dae_proj.Ldst.Writeback.{
  num_clients, serve_shared, serve_cache, serve_global, serve, serve_from, arbitrated, supply,
}

abbrev pub is_some {ℓ} : {A : Type ℓ} → Option A → Bool
is_some none = false
is_some (some a) = true

abbrev pub holds : Option (Option MemInst) → Bool
holds none = false
holds (some o) = is_some o

access-holds :
    (o : Option (Option MemInst)) (i : Option MemInst) → access o ≡ ok i → holds o ≡ is_some i
access-holds none i h = absurd (ground (arith, h))
access-holds (some j) i h = ap is_some (ok-injective j i h)

access-there : (o : Option (Option MemInst)) (i : Option MemInst) → access o ≡ ok i → o ≡ some i
access-there none i h = absurd (ground (arith, h))
access-there (some j) i h = ap some (ok-injective j i h)

le-eq : (j k : ℕ) → j < suc k → k ≤ j → j ≡ k
le-eq j k p q = omega (arith, p, q)

pair-eq {ℓ κ} :
    {A : Type ℓ} {B : Type κ} (p : A × B) (b : A) (t : B)
    → p.0 ≡ b
    → p.1 ≡ t
    → ◌≡◌ {A = A × B} p (b, t)
pair-eq {A = A} {B = B} p b t e f = ap₂ (λ (x : A) (y : B). (x, y)) e f

client-lt : (k arb : ℕ) → add32 k arb % num_clients < num_clients
client-lt k arb = omega arith

module _ {I E : Type 0} (m : Memory E) (c : MemConfig) where
  -- Whether a client has an instruction to write back.
  abbrev pub ready : Ldst I E → ℕ → Bool
  ready s client =
      if client == 0
      then holds (get_elem? s.pipeline 0)
      else if client == 1
      then m.access_ready CacheId.l1_texture s.outside
      else if client == 2
      then m.access_ready CacheId.l1_constant s.outside
      else if client == 3
      then is_some s.next_global
      else c.has_l1d && m.access_ready CacheId.l1_data s.outside

  -- The answer of a cache that a client takes its instruction from.
  abbrev pub FromCache : CacheId → Ldst I E → Ldst I E → Type 0
  FromCache cache s r =
      (r.next_wb ≡ some (m.next_access cache s.outside).0.inst)
      × (r.outside ≡ (m.next_access cache s.outside).1)

  abbrev pub FromShared : Ldst I E → Ldst I E → Type 0
  FromShared s r =
      (i : MemInst) × (get_elem? s.pipeline 0 ≡ some (some i))
      × (r.next_wb ≡ some i)
      × (r.pipeline ≡ set s.pipeline 0 none)

  abbrev pub FromGlobal : Ldst I E → Ldst I E → Type 0
  FromGlobal s r =
      (mf : Fetch) × (s.next_global ≡ some mf) × (r.next_wb ≡ some mf.inst) × (r.next_global ≡ none)

  -- The client's own instruction is what is written back next, and the client has it no more.
  abbrev pub SuppliedBy : ℕ → Ldst I E → Ldst I E → Type 0
  SuppliedBy client s r =
      ((client ≡ 0) × FromShared s r)
      ⊎ ((client ≡ 1) × FromCache CacheId.l1_texture s r)
      ⊎ ((client ≡ 2) × FromCache CacheId.l1_constant s r)
      ⊎ ((client ≡ 3) × FromGlobal s r)
      ⊎ ((client ≡ 4) × FromCache CacheId.l1_data s r)

  -- What a client that is asked does.
  abbrev pub Served : Type 0 → Ldst I E → Bool → Bool → Ldst I E → Type 0
  Served Supplied s asked b r = (b ≡ asked) × ((b ≡ false) × (r ≡ s) ⊎ (b ≡ true) × Supplied)

  unserved :
      (Supplied : Type 0) (s r : Ldst I E) (b : Bool)
      → ◌≡◌ {A = Result (Bool × Ldst I E)} (ok (false, s)) (ok (b, r))
      → Served Supplied s false b r
  unserved Supplied s r b h = let (e, f) = ok-pair false b s r h in (sym e, inl (sym e, sym f))

  filled :
      (Supplied : Ldst I E → Type 0) (s t r : Ldst I E) (b : Bool)
      → ◌≡◌ {A = Result (Bool × Ldst I E)} (ok (true, t)) (ok (b, r))
      → Supplied t
      → Served (Supplied r) s true b r
  filled Supplied s t r b h next =
      let (e, f) = ok-pair true b t r h in (sym e, inr (sym e, subst Supplied f next))

  decrement-pipeline :
      (s r : Ldst I E) (w n : ℕ) → decrement_atomic_count s w n ≡ ok r → r.pipeline ≡ s.pipeline
  unfolding decrement_atomic_count change_warp
  decrement-pipeline s r w n h = ground (arith, h)

  dec_inst-pipeline :
      (s r : Ldst I E) (w : ℕ) → core_dec_inst_in_pipeline s w ≡ ok r → r.pipeline ≡ s.pipeline
  unfolding core_dec_inst_in_pipeline change_warp
  dec_inst-pipeline s r w h = ground (arith, h)

  serve_shared-Served :
      (s r : Ldst I E) (o : Option MemInst) (b : Bool)
      → get_elem? s.pipeline 0 ≡ some o
      → serve_shared m c s o ≡ ok (b, r)
      → Served (FromShared s r) s (is_some o) b r
  unfolding serve_shared
  serve_shared-Served s r none b at h = unserved (FromShared s r) s r b h
  serve_shared-Served s r (some i) b at h =
      let done : Ldst I E → Result (Bool × Ldst I E) =
        λ s2. ok (true, record s2 { next_wb = some i; pipeline = set s2.pipeline 0 none }) in
      let s0 : Ldst I E = record s { outside = m.do_atomic s.outside i } in
      let (s1, e1, h1) =
        bind-ok (if i.atomic then decrement_atomic_count s0 i.warp_id i.active_count else ok s)
          (λ t. core_dec_inst_in_pipeline t i.warp_id >>= done) (b, r) h in
      let (s2, e2, h2) = bind-ok (core_dec_inst_in_pipeline s1 i.warp_id) done (b, r) h1 in
      let first : s1.pipeline ≡ s.pipeline = elim (Bool-cases i.atomic) [
        | inl on ↦ decrement-pipeline s0 s1 i.warp_id i.active_count (
            subst
              (λ (t : Bool).
                (if t then decrement_atomic_count s0 i.warp_id i.active_count else ok s) ≡ ok s1)
              on e1)
        | inr off ↦ ground (arith, off, e1)
      ] in
      let kept = dec_inst-pipeline s1 s2 i.warp_id e2 ∙ first in
      filled (FromShared s) s _ r b h2
        (i, at, refl, ap (λ (p : List (Option MemInst)). set p 0 none) kept)

  serve_cache-Served :
      (cache : CacheId) (s r : Ldst I E) (b : Bool)
      → ok (serve_cache m c cache s) ≡ ok (b, r)
      → Served (FromCache cache s r) s (m.access_ready cache s.outside) b r
  serve_cache-Served cache s r b h = elim (Bool-cases (m.access_ready cache s.outside)) [
    | inl e ↦
        let taken = m.next_access cache s.outside in
        let t : Ldst I E = record s { next_wb = some taken.0.inst; outside = taken.1 } in
        rw e (filled (FromCache cache s) s t r b (ground (arith, h, e)) (refl, refl))
    | inr e ↦ rw e (unserved (FromCache cache s r) s r b (ground (arith, h, e)))
  ]

  serve_global-Served :
      (s r : Ldst I E) (o : Option Fetch) (b : Bool)
      → s.next_global ≡ o
      → serve_global m c s o ≡ ok (b, r)
      → Served (FromGlobal s r) s (is_some o) b r
  unfolding serve_global
  serve_global-Served s r none b at h = unserved (FromGlobal s r) s r b h
  serve_global-Served s r (some mf) b at h =
      let (s1, e1, h1) =
        bind-ok (if mf.atomic then decrement_atomic_count s mf.wid mf.mask_count else ok s)
          (λ s1. ok (true, record s1 { next_wb = some mf.inst; next_global = none })) (b, r) h in
      filled (FromGlobal s) s _ r b h1 (mf, at, refl, refl)

  relabel :
      (P Q : Type 0) (s r : Ldst I E) (asked b : Bool)
      → (P → Q)
      → Served P s asked b r
      → Served Q s asked b r
  relabel P Q s r asked b f (e, left) =
      (e, elim left [ inl none_taken ↦ inl none_taken | inr (on, p) ↦ inr (on, f p) ])

  -- A client that is asked is served exactly when it is ready, and is left alone otherwise.
  serve-Served :
      (s r : Ldst I E) (client : ℕ) (b : Bool)
      → client < num_clients
      → serve m c s client ≡ ok (b, r)
      → Served (SuppliedBy client s r) s (ready s client) b r
  unfolding serve
  serve-Served s r zero b p h =
      let (o, e, h1) = bind-ok (access (get_elem? s.pipeline 0)) (serve_shared m c s) (b, r) h in
      rw (access-holds (get_elem? s.pipeline 0) o e) (
        relabel _ _ s r (is_some o) b (λ f. inl (refl, f))
          (serve_shared-Served s r o b (access-there (get_elem? s.pipeline 0) o e) h1))
  serve-Served s r (suc zero) b p h =
      relabel _ _ s r _ b (λ f. inr (inl (refl, f))) (serve_cache-Served CacheId.l1_texture s r b h)
  serve-Served s r (suc (suc zero)) b p h =
      relabel _ _ s r _ b (λ f. inr (inr (inl (refl, f))))
        (serve_cache-Served CacheId.l1_constant s r b h)
  serve-Served s r (suc (suc (suc zero))) b p h =
      relabel _ _ s r _ b (λ f. inr (inr (inr (inl (refl, f)))))
        (serve_global-Served s r s.next_global b refl h)
  serve-Served s r (suc (suc (suc (suc zero)))) b p h = elim (Bool-cases c.has_l1d) [
    | inl e ↦ rw e (
        relabel _ _ s r _ b (λ f. inr (inr (inr (inr (refl, f)))))
          (serve_cache-Served CacheId.l1_data s r b (ground (arith, h, e))))
    | inr e ↦ rw e (unserved (SuppliedBy 4 s r) s r b (ground (arith, h, e)))
  ]
  serve-Served s r (suc (suc (suc (suc (suc n))))) b p h = absurd (omega (arith, p))

  -- The clients before the one at `k` of the round have nothing to write back.
  abbrev pub NoneBefore : Ldst I E → ℕ → Type 0
  NoneBefore s k = (j : ℕ) → j < k → ready s (add32 j s.writeback_arb % num_clients) ≡ false

  abbrev pub ServedAt : Ldst I E → Ldst I E → ℕ → Type 0
  ServedAt s r k =
      (ready s (add32 k s.writeback_arb % num_clients) ≡ true)
      × NoneBefore s k
      × SuppliedBy (add32 k s.writeback_arb % num_clients) s r
      × (r.writeback_arb ≡ add32 (add32 k s.writeback_arb % num_clients) 1 % num_clients)

  below-suc :
      (s : Ldst I E) (k : ℕ)
      → NoneBefore s k
      → ready s (add32 k s.writeback_arb % num_clients) ≡ false
      → NoneBefore s (suc k)
  below-suc s k before here j p = elim (Bool-cases (ltb j k)) [
    | inl e ↦ before j (ltb→lt j k e)
    | inr e ↦ rw (le-eq j k (omega (arith, p)) (ltb→le j k e)) here
  ]

  serve_from-ServedAt :
      (n k : ℕ) (s r : Ldst I E) (o : Option ℕ)
      → NoneBefore s k
      → serve_from m c n k s ≡ ok (o, r)
      → ((o ≡ none) × (r ≡ s) × NoneBefore s (k + n))
        ⊎ ((at : ℕ) × (at < k + n) × ServedAt s (arbitrated m c (o, r)) at)
  unfolding serve_from
  serve_from-ServedAt zero k s r o before h =
      let (e, f) = ok-pair none o s r h in inl (sym e, sym f, λ j p. before j (omega (arith, p)))
  serve_from-ServedAt (suc n) k s r o before h =
      let client = add32 k s.writeback_arb % num_clients in
      let next : Bool × Ldst I E → Result (Option ℕ × Ldst I E) =
        λ tried. if tried.0 then ok (some client, tried.1) else serve_from m c n (suc k) tried.1 in
      let (tried, e, h1) = bind-ok (serve m c s client) next (o, r) h in
      let (asked, left) = serve-Served s tried.1 client tried.0 (client-lt k s.writeback_arb) e in
      elim left [
        | inl (off, same) ↦
            let h2 =
              subst (λ (p : Bool × Ldst I E). next p ≡ ok (o, r)) (pair-eq tried false s off same)
                h1 in
            let before' = below-suc s k before (sym asked ∙ off) in
            elim (serve_from-ServedAt n (suc k) s r o before' h2) [
              | inl (none_served, unchanged, all) ↦
                  inl (none_served, unchanged, λ j p. all j (omega (arith, p)))
              | inr (at, p, served) ↦ inr (at, omega (arith, p), served)
            ]
        | inr (on, next_wb) ↦
            let h2 =
              subst (λ (p : Bool × Ldst I E). next p ≡ ok (o, r))
                (pair-eq tried true tried.1 on refl) h1 in
            let whole : ◌≡◌ {A = Option ℕ × Ldst I E} (some client, tried.1) (o, r) =
              ok-injective (some client, tried.1) (o, r) h2 in
            inr (
              k,
              omega arith,
              subst (λ (q : Option ℕ × Ldst I E). ServedAt s (arbitrated m c q) k) whole
                  (sym asked ∙ on, before, next_wb, refl),
            )
      ]

  -- When nothing is being written back and the choice of the next instruction succeeds,
  -- either no client has an instruction and the unit stays as it is, or the first client that
  -- has one, in the round that starts at the arbiter, supplies it: its instruction is the next
  -- to be written back, it leaves the client (the first stage of the pipeline, the answers of
  -- the client's own cache, or next_global), and the arbiter moves behind that client.
  pub supply-first :
      (s r : Ldst I E)
      → supply m c s none ≡ ok r
      → ((r ≡ s) × NoneBefore s num_clients) ⊎ ((at : ℕ) × (at < num_clients) × ServedAt s r at)
  unfolding supply
  supply-first s r h =
      let done : Option ℕ × Ldst I E → Result (Ldst I E) = λ served. ok (arbitrated m c served) in
      let (served, e, h1) = bind-ok (serve_from m c num_clients 0 s) done r h in
      let is = ok-injective (arbitrated m c served) r h1 in
      elim (serve_from-ServedAt num_clients 0 s served.1 served.0 (λ j p. absurd (omega (arith, p)))
        e) [
          | inl (nobody, same, all) ↦ inl (
            sym is
                ∙ ap (λ (q : Option ℕ × Ldst I E). arbitrated m c q)
                    (pair-eq served none s nobody same),
            all,
          )
          | inr (at, p, first) ↦ inr (at, p, subst (λ (t : Ldst I E). ServedAt s t at) is first)
        ]
