-- ===== src/Arbiter/Reads.antt =====
-- What `allocate_reads` of gpgpu-sim/shader.cc grants: the wavefront over the diagonals of the
-- request matrix comes to the head of the queue of every bank that is not written.
use dae_proj.Base.{
  ℕ, zero, suc, ◌+◌, ◌-◌, ◌%◌, ◌<◌, ◌≤◌, ◌≡◌, ◌⊎◌, inl, inr, refl, ap, sym, subst, ◌∙◌, Bool-cases,
  false, leb, ◌&&◌, Option-cases, none, List, [], ◌∷◌, length, map, ◌==◌, if◌then◌else◌, ok, arith,
}
use native.Mathlib.Nat.{mod-eq_of_lt, mod-lt, mod-add-mod, add-mod_right}
use dae_proj.Arbiter.{
  RegOp, Bank, Arbiter, Row, is_write, unmatched, requests, grant, diagonal, diagonals, first_row,
  check_heads, take_heads, allocate_reads, larger,
}

-- The head of the queue of each bank that is not written, in the order of the banks, and the banks
-- without them.
unfoldable pub read_heads : List Bank → List RegOp × List Bank
read_heads [] = ([], [])
read_heads (b ∷ bs) = elim b.queue [
  | [] ↦ ((read_heads bs).0, b ∷ (read_heads bs).1)
  | op ∷ ops ↦
      if is_write b.allocation
      then ((read_heads bs).0, b ∷ (read_heads bs).1)
      else (op ∷ (read_heads bs).0, record b { queue = ops } ∷ (read_heads bs).1)
]

queue-cases : (q : List RegOp) → (q ≡ []) ⊎ ((op : RegOp) × (ops : List RegOp) × (q ≡ op ∷ ops))
queue-cases [] = inl refl
queue-cases (op ∷ ops) = inr (op, ops, refl)

-- Round the `n` outputs, starting anywhere, each is met.
meets : (n c t : ℕ) → t < n → (p : ℕ) × (p < n) × ((c + p) % n ≡ t)
meets n c t h =
    let small = mod-lt c {m = n} (omega (arith, h)) in
    elim (Bool-cases (leb (c % n) t)) [
      | inl e ↦
          let there : c % n + (t - c % n) ≡ t = ground (arith, e) in
          (
            t - c % n,
            omega (arith, h),
            sym (mod-add-mod c n (t - c % n)) ∙ ap (λ (m : ℕ). m % n) there ∙ mod-eq_of_lt h,
          )
      | inr e ↦
          let there : c % n + (t + n - c % n) ≡ t + n = ground (arith, small) in
          (
            t + n - c % n,
            ground (arith, e, small),
            sym (mod-add-mod c n (t + n - c % n))
                ∙ ap (λ (m : ℕ). m % n) there
                ∙ add-mod_right t n
                ∙ mod-eq_of_lt h,
          )
    ]

next_output : (n c : ℕ) → (c % n + 1) % n ≡ (c + 1) % n
next_output n c = mod-add-mod c n 1

abbrev bank_of : Row → Bank
bank_of r = r.bank

module _ (n pri : ℕ) where
  -- After `k` diagonals, the row of the bank `i`.
  record IsSeen (k i : ℕ) (r : Row) : Type 0 where
    unwritten : r.inmatch ≡ none → is_write r.bank.allocation ≡ false
    unasked : (p : ℕ) → r.inmatch ≡ none → p < k → requests r.bank.queue ((pri + p + i) % n) ≡ false
    idle : r.bank.queue ≡ [] → is_write r.bank.allocation ≡ false → r.inmatch ≡ none

  abbrev AllSeen : ℕ → ℕ → List Row → Type 0
  AllSeen k i [] = Unit
  AllSeen k i (r ∷ rs) = IsSeen k i r × AllSeen k (i + 1) rs

  grant-IsSeen : (k i : ℕ) (r : Row) → IsSeen k i r → IsSeen (suc k) i (grant r ((pri + k + i) % n))
  grant-IsSeen k i r s =
      elim (Bool-cases (unmatched r.inmatch && requests r.bank.queue ((pri + k + i) % n))) [
        | inl e ↦ record {
          unwritten = ground (arith, e);
          unasked = λ p. ground (arith, e);
          idle = λ a. ground (arith, e, a);
        }
        | inr e ↦
            let same : r ≡ grant r ((pri + k + i) % n) = ground (arith, e) in
            subst (IsSeen (suc k) i) same (record {
              unwritten = s.unwritten;
              unasked = λ p none_yet below. elim (Bool-cases (p == k)) [
                | inl last ↦
                    let is : k ≡ p = ground (arith, last) in
                    subst (λ (j : ℕ). requests r.bank.queue ((pri + j + i) % n) ≡ false) is
                      (ground (arith, e, none_yet))
                | inr before ↦ s.unasked p none_yet (ground (arith, before, below))
              ];
              idle = s.idle;
            })
      ]

  diagonal-AllSeen :
      (k i : ℕ) (rows : List Row)
      → AllSeen k i rows
      → AllSeen (suc k) i (diagonal n ((pri + k + i) % n) rows)
  unfolding diagonal
  diagonal-AllSeen k i [] s = tt
  diagonal-AllSeen k i (r ∷ rs) s =
      let next : (pri + k + (i + 1)) % n ≡ ((pri + k + i) % n + 1) % n =
        ap (λ (m : ℕ). m % n) (omega arith) ∙ sym (next_output n (pri + k + i)) in
      (
        grant-IsSeen k i r s.0,
        subst (λ (o : ℕ). AllSeen (suc k) (i + 1) (diagonal n o rs)) next
            (diagonal-AllSeen k (i + 1) rs s.1),
      )

  diagonals-AllSeen :
      (m k : ℕ) (rows : List Row) → AllSeen k 0 rows → AllSeen (k + m) 0 (diagonals n pri k m rows)
  unfolding diagonals
  diagonals-AllSeen zero k rows s = subst (λ (j : ℕ). AllSeen j 0 rows) (omega arith) s
  diagonals-AllSeen (suc m) k rows s =
      let start : (pri + k + 0) % n ≡ (pri + k) % n = ap (λ (j : ℕ). j % n) (omega arith) in
      let one =
        subst (λ (o : ℕ). AllSeen (suc k) 0 (diagonal n o rows)) start
          (diagonal-AllSeen k 0 rows s) in
      let more =
        diagonals-AllSeen m (k + 1) (diagonal n ((pri + k) % n) rows)
          (subst (λ (j : ℕ). AllSeen j 0 (diagonal n ((pri + k) % n) rows)) (omega arith) one) in
      subst (λ (j : ℕ). AllSeen j 0 (diagonals n pri (k + 1) m (diagonal n ((pri + k) % n) rows)))
        (omega arith) more

  first-AllSeen : (i : ℕ) (bs : List Bank) → AllSeen 0 i (map first_row bs)
  first-AllSeen i [] = tt
  first-AllSeen i (b ∷ bs) = (
    record {
      unwritten = λ h. ground (arith, h);
      unasked = λ p h below. absurd (omega (arith, below));
      idle = λ a h. ground (arith, h);
    },
    first-AllSeen (i + 1) bs,
  )

  diagonal-banks :
      (output : ℕ) (rows : List Row) → map bank_of (diagonal n output rows) ≡ map bank_of rows
  unfolding diagonal
  diagonal-banks output [] = refl
  diagonal-banks output (r ∷ rs) =
      let rest = diagonal-banks ((output + 1) % n) rs in
      let same : (grant r output).bank ≡ r.bank = ground arith in
      ap (λ (b : Bank). b ∷ map bank_of (diagonal n ((output + 1) % n) rs)) same
      ∙ ap (λ (bs : List Bank). r.bank ∷ bs) rest

  diagonals-banks :
      (m k : ℕ) (rows : List Row) → map bank_of (diagonals n pri k m rows) ≡ map bank_of rows
  unfolding diagonals
  diagonals-banks zero k rows = refl
  diagonals-banks (suc m) k rows =
      diagonals-banks m (k + 1) (diagonal n ((pri + k) % n) rows)
      ∙ diagonal-banks ((pri + k) % n) rows

  first-banks : (bs : List Bank) → map bank_of (map first_row bs) ≡ bs
  first-banks [] = refl
  first-banks (b ∷ bs) = ap (λ (cs : List Bank). b ∷ cs) (first-banks bs)

  take_heads-read_heads :
      (k i : ℕ) (rows : List Row)
      → n ≤ k
      → AllSeen k i rows
      → check_heads n (map bank_of rows) ≡ ok tt
      → take_heads rows ≡ ok (read_heads (map bank_of rows))
  unfolding take_heads check_heads read_heads
  take_heads-read_heads k i [] enough s h = refl
  take_heads-read_heads k i (r ∷ rs) enough s h =
      let rest = take_heads-read_heads k (i + 1) rs enough s.1 (ground (arith, h)) in
      elim (queue-cases r.bank.queue) [
        | inl q ↦ elim (Option-cases r.inmatch) [
          | inl e ↦ ground (arith, rest, e, q)
          | inr (j, e) ↦ elim (Bool-cases (is_write r.bank.allocation)) [
            | inl w ↦ ground (arith, rest, e, w, q)
            | inr w ↦ absurd (ground (arith, e, s.0.idle q w))
          ]
        ]
        | inr (op, ops, q) ↦ elim (Option-cases r.inmatch) [
          | inl e ↦
              let fits : op.oc_id < n = ground (arith, h, q) in
              let (p, below, hit) = meets n (pri + i) op.oc_id fits in
              let unasked = s.0.unasked p e (omega (arith, below, enough)) in
              let place : (pri + p + i) % n ≡ op.oc_id =
                ap (λ (m : ℕ). m % n) (omega arith) ∙ hit in
              absurd (ground (arith, unasked, q, place))
          | inr (j, e) ↦ elim (Bool-cases (is_write r.bank.allocation)) [
            | inl w ↦ ground (arith, rest, e, w, q)
            | inr w ↦ ground (arith, rest, e, w, q)
          ]
        ]
      ]

-- When there is a collector and the heads of all queues name collectors, the wavefront
-- allocator of allocate_reads, from whatever diagonal it starts, grants exactly the head of the
-- queue of each bank that is not written, in the order of the banks, takes these heads out and
-- advances the diagonal by one.
pub allocate_reads-eq :
    (a : Arbiter)
    → 0 < a.num_collectors
    → check_heads a.num_collectors a.banks ≡ ok tt
    → allocate_reads a
      ≡ ok (
        (read_heads a.banks).0,
        record a { banks = (read_heads a.banks).1; last_cu = (a.last_cu + 1) % a.num_collectors },
      )
unfolding allocate_reads
allocate_reads-eq a some_collector fits =
    let n = a.num_collectors in
    let size = larger (length a.banks) n in
    let rows = diagonals n a.last_cu 0 size (map first_row a.banks) in
    let banks : map bank_of rows ≡ a.banks =
      diagonals-banks n a.last_cu size 0 (map first_row a.banks)
      ∙ first-banks n a.last_cu a.banks in
    let seen =
      diagonals-AllSeen n a.last_cu size 0 (map first_row a.banks)
        (first-AllSeen n a.last_cu 0 a.banks) in
    let enough : n ≤ 0 + size = ground arith in
    let taken =
      take_heads-read_heads n a.last_cu (0 + size) 0 rows enough seen
        (ap (check_heads n) banks ∙ fits) in
    let taken' : take_heads rows ≡ ok (read_heads a.banks) =
      taken ∙ ap (λ (bs : List Bank). ok (read_heads bs)) banks in
    ground (arith, some_collector, fits, taken')
