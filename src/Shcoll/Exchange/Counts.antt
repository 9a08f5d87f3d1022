-- ===== src/Shcoll/Exchange/Counts.antt =====
-- osss-ucx/src/shcoll/src: counts over the members of an active set.
use paw.Prelude.{ℕ, zero, suc, ◌+◌, ◌<◌, ◌≤◌, ◌≡◌, ◌≢◌, refl, sym, subst, arith, ℕ_discrete}
use paw.Shcoll.Sums.{total}

pub total_same : (f g : ℕ → ℕ) (n : ℕ) → ((c : ℕ) → c < n → f c ≡ g c) → total f n ≡ total g n
unfolding total
total_same f g zero same = refl
total_same f g (suc n) same =
    let ih = total_same f g n (λ c lt. same c (omega (arith, lt))) in
    let top = same n (omega arith) in omega (arith, ih, top)

pub total_more :
    (f g : ℕ → ℕ) (n a : ℕ)
    → a < n
    → ((c : ℕ) → c < n → c ≢ a → f c ≡ g c)
    → g a ≡ suc (f a)
    → total g n ≡ suc (total f n)
unfolding total
total_more f g zero a lt same more = absurd (omega (arith, lt))
total_more f g (suc n) a lt same more = elim (ℕ_discrete a n) [
  | yes e ↦
      let rest =
        total_same f g n
          (λ c lt_c. same c (omega (arith, lt_c)) (λ h. omega (arith, h, e, lt_c))) in
      let top : g n ≡ suc (f n) = subst (λ x. g x ≡ suc (f x)) e more in omega (arith, rest, top)
  | no ne ↦
      let rest =
        total_more f g n a (omega (arith, lt, ne)) (λ c lt_c. same c (omega (arith, lt_c))) more in
      let top = same n (omega arith) (λ h. ne (sym h)) in omega (arith, rest, top)
]

pub total_few : (f : ℕ → ℕ) (n : ℕ) → ((c : ℕ) → c < n → f c ≤ 1) → total f n ≤ n
unfolding total
total_few f zero few = omega arith
total_few f (suc n) few =
    let rest = total_few f n (λ c lt. few c (omega (arith, lt))) in
    let top = few n (omega arith) in omega (arith, rest, top)

pub total_missing :
    (f : ℕ → ℕ) (n b : ℕ) → ((c : ℕ) → c < n → f c ≤ 1) → b < n → f b ≡ 0 → total f n < n
unfolding total
total_missing f zero b few lt z = absurd (omega (arith, lt))
total_missing f (suc n) b few lt z = elim (ℕ_discrete b n) [
  | yes e ↦
      let rest = total_few f n (λ c lt_c. few c (omega (arith, lt_c))) in
      let top : f n ≡ 0 = subst (λ x. f x ≡ 0) e z in omega (arith, rest, top)
  | no ne ↦
      let rest =
        total_missing f n b (λ c lt_c. few c (omega (arith, lt_c))) (omega (arith, lt, ne)) z in
      let top = few n (omega arith) in omega (arith, rest, top)
]

pub total_missing_two :
    (f : ℕ → ℕ) (n b c : ℕ)
    → ((d : ℕ) → d < n → f d ≤ 1)
    → b < n
    → c < n
    → b ≢ c
    → f b ≡ 0
    → f c ≡ 0
    → total f n + 1 < n
unfolding total
total_missing_two f zero b c few lt lt_c ne z z' = absurd (omega (arith, lt))
total_missing_two f (suc n) b c few lt lt_c ne z z' =
    let below = λ (d : ℕ) (h : d < n). few d (omega (arith, h)) in
    elim (ℕ_discrete b n) [
      | yes e ↦
          let rest = total_missing f n c below (omega (arith, lt_c, e, ne)) z' in
          let top : f n ≡ 0 = subst (λ x. f x ≡ 0) e z in omega (arith, rest, top)
      | no nb ↦ elim (ℕ_discrete c n) [
        | yes e ↦
            let rest = total_missing f n b below (omega (arith, lt, nb)) z in
            let top : f n ≡ 0 = subst (λ x. f x ≡ 0) e z' in omega (arith, rest, top)
        | no nc ↦
            let rest =
              total_missing_two f n b c below (omega (arith, lt, nb)) (omega (arith, lt_c, nc)) ne z
                z' in
            let top = few n (omega arith) in omega (arith, rest, top)
      ]
    ]
