-- ===== src/Scheduler/Pairs.antt =====
-- What `try_pc_coissue` of gpgpu-sim/shader.cc issues together, and when it issues nothing.
use dae_proj.Base.{
  ◌≡◌, ◌≢◌, ◌⊎◌, inl, inr, refl, ap, ◌∙◌, true, Option, Option-cases, none, some, List, [], ◌∷◌,
  ◌++◌, arith,
}
use dae_proj.Scheduler.{CoissueFail}
use dae_proj.Scheduler.Coissue.{
  SchedStats, Candidate, count_fail, obstacle, pair_with, find_pair, exec_type_of,
}

-- The predicate holds of each element.
abbrev pub Every {ℓ κ} : {A : Type ℓ} → (A → Type κ) → List A → Type κ
Every P [] = Unit
Every P (x ∷ xs) = P x × Every P xs

pub Every-append {ℓ κ} :
    {A : Type ℓ} (P : A → Type κ) (xs : List A) (x : A)
    → Every P xs
    → P x
    → Every P (xs ++ (x ∷ []))
Every-append P [] x all p = (p, tt)
Every-append P (y ∷ xs) x all p = (all.0, Every-append P xs x all.1 p)

pair_with-nil : (s : SchedStats) (prod : Candidate) → (pair_with s prod []).1 ≡ none
unfolding pair_with
pair_with-nil s prod = refl

find_pair-nil : (s : SchedStats) (ks : List Candidate) → (find_pair s [] ks).1 ≡ none
unfolding find_pair
find_pair-nil s ks = refl

pub obstacle-none :
    (prod cons : Candidate)
    → obstacle prod cons ≡ none
    → (prod.ready ≡ true) × (cons.ready ≡ true) × (exec_type_of prod.unit ≢ exec_type_of cons.unit)
unfolding obstacle
obstacle-none prod cons h = ground (arith, h)

pair_with-blocked :
    (s : SchedStats) (prod k : Candidate) (ks : List Candidate) (why : CoissueFail)
    → obstacle prod k ≡ some why
    → pair_with s prod (k ∷ ks) ≡ pair_with (count_fail s why) prod ks
unfolding pair_with
pair_with-blocked s prod k ks why e = rw (e, pair_with) refl

pair_with-free :
    (s : SchedStats) (prod k : Candidate) (ks : List Candidate)
    → obstacle prod k ≡ none
    → (pair_with s prod (k ∷ ks)).1 ≡ some k
unfolding pair_with
pair_with-free s prod k ks e = rw (e, pair_with) refl

-- Each consumer of the list has an obstacle.
abbrev pub Blocked : Candidate → Candidate → Type 0
Blocked prod cons = (why : CoissueFail) × (obstacle prod cons ≡ some why)

pair_with-result :
    (Q : Candidate → Type 0) (s : SchedStats) (prod : Candidate) (ks : List Candidate)
    → Every Q ks
    → (((pair_with s prod ks).1 ≡ none) × Every (Blocked prod) ks)
      ⊎ ((cons : Candidate) × ((pair_with s prod ks).1 ≡ some cons)
          × Q cons
          × (obstacle prod cons ≡ none))
pair_with-result Q s prod [] all = inl (pair_with-nil s prod, tt)
pair_with-result Q s prod (k ∷ ks) all = elim (Option-cases (obstacle prod k)) [
  | inl e ↦ inr (k, pair_with-free s prod k ks e, all.0, e)
  | inr (why, e) ↦
      let step =
        ap (λ (r : SchedStats × Option Candidate). r.1) (pair_with-blocked s prod k ks why e) in
      elim (pair_with-result Q (count_fail s why) prod ks all.1) [
        | inl (same, rest) ↦ inl (step ∙ same, ((why, e), rest))
        | inr (cons, same, q, free) ↦ inr (cons, step ∙ same, q, free)
      ]
]

find_pair-blocked :
    (s : SchedStats) (prod : Candidate) (ps ks : List Candidate)
    → (pair_with s prod ks).1 ≡ none
    → find_pair s (prod ∷ ps) ks ≡ find_pair ((pair_with s prod ks).0) ps ks
unfolding find_pair
find_pair-blocked s prod ps ks e = rw (e, find_pair) refl

find_pair-free :
    (s : SchedStats) (prod cons : Candidate) (ps ks : List Candidate)
    → (pair_with s prod ks).1 ≡ some cons
    → (find_pair s (prod ∷ ps) ks).1 ≡ some (prod, cons)
unfolding find_pair
find_pair-free s prod cons ps ks e = rw (e, find_pair) refl

-- The search for a pair either finds nothing, and then each producer and each consumer have an
-- obstacle, or it returns a producer and a consumer of the lists without an obstacle; what
-- holds of all producers or of all consumers holds of them.
pub find_pair-result :
    (P Q : Candidate → Type 0) (s : SchedStats) (ps ks : List Candidate)
    → Every P ps
    → Every Q ks
    → (((find_pair s ps ks).1 ≡ none) × Every (λ p. Every (Blocked p) ks) ps)
      ⊎ ((prod : Candidate) × (cons : Candidate) × ((find_pair s ps ks).1 ≡ some (prod, cons))
          × P prod
          × Q cons
          × (obstacle prod cons ≡ none))
find_pair-result P Q s [] ks ps_all ks_all = inl (find_pair-nil s ks, tt)
find_pair-result P Q s (prod ∷ ps) ks ps_all ks_all = elim (pair_with-result Q s prod ks ks_all) [
  | inr (cons, is, q, free) ↦
      inr (prod, cons, find_pair-free s prod cons ps ks is, ps_all.0, q, free)
  | inl (is, none_free) ↦
      let step =
        ap (λ (r : SchedStats × Option (Candidate × Candidate)). r.1)
          (find_pair-blocked s prod ps ks is) in
      elim (find_pair-result P Q ((pair_with s prod ks).0) ps ks ps_all.1 ks_all) [
        | inl (same, rest) ↦ inl (step ∙ same, (none_free, rest))
        | inr (p, c, same, hp, hq, free) ↦ inr (p, c, step ∙ same, hp, hq, free)
      ]
]
