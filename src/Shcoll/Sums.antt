-- ===== src/Shcoll/Sums.antt =====
-- osss-ucx/src/shcoll/src: sums and least values over the members of an active set.
use paw.Prelude.{ℕ, zero, suc, ◌+◌, ◌*◌, ◌<◌, ◌≤◌, ◌≡◌, refl, ap, arith, dec_lt, ℕ_discrete}
use paw.Shcoll.{set_at}
use paw.Shcoll.Barrier.Ring.{set_at_other}
use paw.Shcoll.Barrier.Ring.{set_at_other}

-- Some member is farthest behind.
pub least : (f : ℕ → ℕ) (n : ℕ) → (a : ℕ) × (a < suc n) × ((b : ℕ) → b < suc n → f a ≤ f b)
least f zero = (0, omega arith, λ b lt. let e : b ≡ 0 = omega (arith, lt) in rw e (omega arith))
least f (suc n) =
    let (a, lt, le) = least f n in
    elim (dec_lt (f (suc n)) (f a)) [
      | yes below ↦ (
        suc n,
        omega arith,
        λ b lt_b. elim (ℕ_discrete b (suc n)) [
          | yes e ↦ rw e (omega arith)
          | no ne ↦ let k = le b (omega (arith, lt_b, ne)) in omega (arith, below, k)
        ],
      )
      | no above ↦ (
        a,
        omega (arith, lt),
        λ b lt_b. elim (ℕ_discrete b (suc n)) [
          | yes e ↦ rw e (omega (arith, above))
          | no ne ↦ le b (omega (arith, lt_b, ne))
        ],
      )
    ]

unfoldable pub total : (ℕ → ℕ) → ℕ → ℕ
total f zero = 0
total f (suc n) = f n + total f n

pub total-bound : (f : ℕ → ℕ) (n m : ℕ) → ((a : ℕ) → a < n → f a ≤ m) → total f n ≤ n * m
unfolding total
total-bound f zero m le = omega arith
total-bound f (suc n) m le =
    let ih = total-bound f n m (λ a lt. le a (omega (arith, lt))) in
    let last = le n (omega arith) in omega (arith, ih, last)

total-above : (f : ℕ → ℕ) (n a v : ℕ) → n ≤ a → total (set_at f a v) n ≡ total f n
unfolding total
total-above f zero a v le = refl
total-above f (suc n) a v le =
    let o = set_at_other f a n v (λ e. omega (arith, le, e)) in
    let ih = total-above f n a v (omega (arith, le)) in rw (o, ih) refl

pub total-bump : (f : ℕ → ℕ) (n a : ℕ) → a < n → total (set_at f a (suc (f a))) n ≡ suc (total f n)
unfolding total
total-bump f zero a lt = absurd (omega (arith, lt))
total-bump f (suc n) a lt = elim (ℕ_discrete a n) [
  | yes e ↦
      let o = total-above f n a (suc (f a)) (omega (arith, e)) in
      let top : set_at f a (suc (f a)) n ≡ suc (f n) = ground (arith, e, ap f e) in
      rw (o, top) (omega arith)
  | no ne ↦
      let ih = total-bump f n a (omega (arith, lt, ne)) in
      let o = set_at_other f a n (suc (f a)) ne in rw (o, ih) (omega arith)
]
