-- ===== src/Shcoll/Barrier/Ring.antt =====
-- osss-ucx/src/shcoll/src/barrier.c: the members of an active set as a ring, and updates at one place.
use paw.Prelude.{
  ℕ, zero, suc, ◌+◌, ◌-◌, ◌%◌, ◌^◌, ◌<◌, ◌≤◌, ◌≡◌, ◌≢◌, ap, arith, ltb, leb, if◌then◌else◌, dec_lt,
  ℕ_discrete,
}
use paw.Prelude.Words.{two_pow_suc}
use paw.Shcoll.{write, set_at}
use paw.Shcoll.Indices.{mod_wrap}

-- The member a distance of `2 ^ r` behind the member `a` of a ring of `n`.
pub behind : ℕ → ℕ → ℕ → ℕ
behind n r a = if leb (2 ^ r) a then a - 2 ^ r else a + n - 2 ^ r

-- Whether a PE that has done `p` of its actions has gone past action `q`.
abbrev pub past : ℕ → ℕ → ℕ
past p q = if ltb q p then 1 else 0

pub below_two_pow : (r : ℕ) → r < 2 ^ r
below_two_pow zero = omega arith
below_two_pow (suc r) = let ih = below_two_pow r in let e = two_pow_suc r in omega (arith, ih, e)

pub behind-ahead : (n r a : ℕ) → a < n → 2 ^ r < n → behind n r ((a + 2 ^ r) % n) ≡ a
unfolding behind
behind-ahead n r a lt lr = let e = mod_wrap (a + 2 ^ r) n (omega arith) in rw e (ground arith)

pub ahead-behind : (n r b : ℕ) → b < n → 2 ^ r < n → (behind n r b + 2 ^ r) % n ≡ b
unfolding behind
ahead-behind n r b lt lr =
    let e = mod_wrap (behind n r b + 2 ^ r) n (ground arith) in rw e (ground arith)

pub ahead-lt : (n r a : ℕ) → a < n → 2 ^ r < n → (a + 2 ^ r) % n < n
ahead-lt n r a lt lr = let e = mod_wrap (a + 2 ^ r) n (omega arith) in rw e (ground arith)

pub behind-lt : (n r a : ℕ) → a < n → 2 ^ r < n → behind n r a < n
unfolding behind
behind-lt n r a lt lr = ground arith

pub set_at_same {ℓ} : {A : Type ℓ} → (f : ℕ → A) (a : ℕ) (v : A) → set_at f a v a ≡ v
set_at_same f a v = ground arith

pub set_at_other {ℓ} : {A : Type ℓ} → (f : ℕ → A) (a b : ℕ) (v : A) → a ≢ b → set_at f a v b ≡ f b
set_at_other f a b v ne = ground (arith, ne)

pub bump_lt : (pos : ℕ → ℕ) (a b k : ℕ) → k < pos b → k < set_at pos a (suc (pos a)) b
bump_lt pos a b k lt = elim (ℕ_discrete a b) [
  | yes e ↦ ground (arith, ap pos e)
  | no ne ↦ ground arith
]

pub past_bump :
    (pos : ℕ → ℕ) (a b q : ℕ)
    → (a ≡ b → pos a ≢ q)
    → past (set_at pos a (suc (pos a)) b) q ≡ past (pos b) q
past_bump pos a b q ne = elim (ℕ_discrete a b) [
  | yes e ↦ let k = ne e in ground (arith, ap pos e, k)
  | no n ↦ ground arith
]

pub write_hit : (f : ℕ → ℕ → ℕ) (q i v : ℕ) → write f q i v q i ≡ v
write_hit f q i v = ground arith

pub write_miss : (f : ℕ → ℕ → ℕ) (q i v p j : ℕ) → (q ≡ p → i ≢ j) → write f q i v p j ≡ f p j
write_miss f q i v p j ne = elim (ℕ_discrete q p) [
  | yes e ↦ let k = ne e in ground (arith, k)
  | no n ↦ ground arith
]

-- The member `d` behind.
pub back : ℕ → ℕ → ℕ → ℕ
back n d a = if leb d a then a - d else a + n - d

pub back_lt : (n d a : ℕ) → a < n → d < n → back n d a < n
unfolding back
back_lt n d a lt ld = ground arith

pub back-behind :
    (n r d a : ℕ) → a < n → d < n → 2 ^ r ≤ d → back n (d - 2 ^ r) (behind n r a) ≡ back n d a
unfolding back behind
back-behind n r d a lt ld le = ground arith

pub back_zero : (n a : ℕ) → back n 0 a ≡ a
unfolding back
back_zero n a = ground arith

pub back-gap : (n a b : ℕ) → a < n → b < n → (d : ℕ) × (d < n) × (back n d a ≡ b)
unfolding back
back-gap n a b lt_a lt_b = elim (dec_lt a b) [
  | yes above ↦ (a + n - b, omega (arith, above, lt_a, lt_b), ground arith)
  | no below ↦ (a - b, omega (arith, below, lt_a), ground arith)
]
