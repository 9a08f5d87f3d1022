-- ===== src/Buddy/Round.antt =====
-- osss-ucx/src/api/allocator/memalloc.c: the rounding of `buddy_alloc`, which smears the top bit of the
-- request over all lower bits and adds one.
use native.Mathlib.Nat.{div-div-eq-div-mul, div-eq_of_lt-le, div-eq_of_lt, mul_comm}
use paw.Prelude.{
  ℕ, zero, suc, ◌+◌, ◌-◌, ◌*◌, ◌/◌, ◌%◌, ◌^◌, ◌≤◌, ◌<◌, ◌≡◌, ◌∙◌, sym, ap, arith, bit_or, max,
  dec_lt, subst,
}
use paw.Prelude.Words.{two_pow_suc, two_pow_pos, two_pow_mono}
use paw.Prelude.Bits.{bit_or_halves, bit_or-zero}
use paw.Buddy.{round_up}

two_pow_add : (a b : ℕ) → 2 ^ (a + b) ≡ 2 ^ a * 2 ^ b
two_pow_add zero b = let z : 0 + b ≡ b = omega arith in rw z (omega arith)
two_pow_add (suc a) b =
    let z : suc a + b ≡ suc (a + b) = omega arith in
    rw (z, two_pow_suc (a + b), two_pow_suc a, two_pow_add a b) (omega arith)

-- A mask of `k` ones sets the last `k` digits.
bit_or_mask : (k q r : ℕ) → r < 2 ^ k → bit_or (q * 2 ^ k + r) (2 ^ k - 1) ≡ q * 2 ^ k + (2 ^ k - 1)
bit_or_mask zero q r lt =
    let e : q * 1 + r ≡ q = omega arith in rw e (omega (arith, bit_or-zero q q (omega arith)))
bit_or_mask (suc k) q r lt =
    let p = two_pow_suc k in
    let u : (q * 2 ^ suc k + r) / 2 ≡ q * 2 ^ k + r / 2 =
      omega (arith, p, twice q (2 ^ k), ap (λ n. q * n) p) in
    let m : (2 ^ suc k - 1) / 2 ≡ 2 ^ k - 1 = omega (arith, p, two_pow_pos k) in
    let odd : (2 ^ suc k - 1) % 2 ≡ 1 = omega (arith, p, two_pow_pos k) in
    let half = bit_or_mask k q (r / 2) (omega (arith, p)) in
    bit_or_halves (q * 2 ^ suc k + r) (2 ^ suc k - 1)
    ∙ rw (u, m, odd, half) (omega (arith, p, twice q (2 ^ k), ap (λ n. q * n) p, two_pow_pos k))
  where
    twice : (a b : ℕ) → a * (2 * b) ≡ 2 * (a * b)
    twice a b = omega arith

-- All digits of `x` from digit `m` up to digit `d` are set, and no others above.
abbrev Ones : ℕ → ℕ → ℕ → Type 0
Ones m d x = (x < 2 ^ d) × (2 ^ d ≤ x + 2 ^ m)

less_one : (a b : ℕ) → 0 < a → (a - 1) * b + b ≡ a * b
less_one zero b h = absurd (omega arith)
less_one (suc a) b h = let e : suc a - 1 ≡ a = omega arith in rw e (omega arith)

-- At most as many digits are missing as are set: one round sets them all.
smear_rest : (m k x : ℕ) → m ≤ k → Ones m (m + k) x → bit_or x (x / 2 ^ k) ≡ 2 ^ (m + k) - 1
smear_rest m k x le (lt, ge) =
    let prod = two_pow_add m k in
    let swap = mul_comm (2 ^ m) (2 ^ k) in
    let low = less_one (2 ^ m) (2 ^ k) (two_pow_pos m) in
    let high = less_one (2 ^ k) (2 ^ m) (two_pow_pos k) in
    let wide = two_pow_mono m k le in
    let top : (2 ^ m - 1 + 1) * 2 ^ k ≡ (2 ^ m - 1) * 2 ^ k + 2 ^ k = omega arith in
    let below : x < (2 ^ m - 1 + 1) * 2 ^ k = omega arith in
    let y : x / 2 ^ k ≡ 2 ^ m - 1 = div-eq_of_lt-le (2 ^ k) (omega arith) below in
    let r : (2 ^ k - 1) * 2 ^ m + (x - (2 ^ k - 1) * 2 ^ m) ≡ x = omega arith in
    let masked =
      bit_or_mask m (2 ^ k - 1) (x - (2 ^ k - 1) * 2 ^ m) (omega (arith, two_pow_pos m)) in
    rw y (ap (λ n. bit_or n (2 ^ m - 1)) (sym r) ∙ masked ∙ omega (arith, two_pow_pos m))

-- More digits are missing: one round doubles the digits that are set.
smear_more :
    (s k x : ℕ) → Ones (k + s) (k + (k + s)) x → Ones s (k + (k + s)) (bit_or x (x / 2 ^ k))
smear_more zero k x o =
    let e : k + 0 ≡ k = omega arith in
    let all = smear_rest k k x (omega arith) (rw e at o) in
    rw (e, all) (omega (arith, two_pow_pos (k + k)), omega (arith, two_pow_pos (k + k)))
smear_more (suc s) k x (lt, ge) =
    let e : k + suc s ≡ suc (k + s) = omega arith in
    let f : k + (k + suc s) ≡ suc (k + (k + s)) = omega arith in
    let p = two_pow_suc (k + s) in
    let q = two_pow_suc (k + (k + s)) in
    let lt' : x < 2 ^ suc (k + (k + s)) = rw (← f) lt in
    let ge' : 2 ^ suc (k + (k + s)) ≤ x + 2 ^ suc (k + s) = rw (← e, ← f) ge in
    let swap : x / 2 ^ k / 2 ≡ x / 2 / 2 ^ k =
      div-div-eq-div-mul x (2 ^ k) 2
      ∙ ap (λ n. x / n) (mul_comm (2 ^ k) 2)
      ∙ sym (div-div-eq-div-mul x 2 (2 ^ k)) in
    let (l, g) = smear_more s k (x / 2) (omega arith, omega arith) in
    let halves =
      bit_or_halves x (x / 2 ^ k)
      ∙ ap (λ n. bit_or (x / 2) n * 2 + max (x % 2) (x / 2 ^ k % 2)) swap in
    rw f (omega arith, omega (arith, two_pow_suc s))

-- One round: `k` digits are set before, twice as many after.
smear : (k d x : ℕ) → Ones (d - k) d x → Ones (d - (k + k)) d (bit_or x (x / 2 ^ k))
smear k d x o = elim (dec_lt (k + k) d) [
  | yes more ↦
      let e : d - k ≡ k + (d - (k + k)) = omega arith in
      let f : d ≡ k + (k + (d - (k + k))) = omega arith in
      subst (λ n. Ones (d - (k + k)) n (bit_or x (x / 2 ^ k))) (sym f)
        (smear_more (d - (k + k)) k x (subst (λ n. Ones (k + (d - (k + k))) n x) f (rw (← e) o)))
  | no ge ↦
      let none_left : d - (k + k) ≡ 0 = omega arith in
      elim (dec_lt d k) [
        | yes all ↦
            let z : d - k ≡ 0 = omega arith in
            let y : x / 2 ^ k ≡ 0 =
              div-eq_of_lt (omega (arith, o.0, two_pow_mono d k (omega arith))) in
            rw (none_left, y, bit_or-zero x x (omega arith)) (rw z at o)
        | no rest ↦
            let f : d - k + k ≡ d = omega arith in
            let whole =
              smear_rest (d - k) k x (omega arith) (subst (λ n. Ones (d - k) n x) (sym f) o) in
            rw (none_left, whole, f) (omega (arith, two_pow_pos d), omega (arith, two_pow_pos d))
      ]
]

-- A request between two powers of two is rounded up to the larger.
pub round_up_lem : (d n : ℕ) → d < 31 → 2 ^ d ≤ n → n < 2 ^ suc d → round_up n ≡ 2 ^ suc d
unfolding round_up
round_up_lem d n lt lo hi =
    let m = two_pow_suc d in
    let k1 = smear 1 (suc d) n (hi, rw (one_less d) (omega arith)) in
    let k2 = smear 2 (suc d) _ k1 in
    let k4 = smear 4 (suc d) _ k2 in
    let k8 = smear 8 (suc d) _ k4 in
    let k16 = smear 16 (suc d) _ k8 in
    let z : suc d - 32 ≡ 0 = omega arith in
    let (l, g) = rw z at k16 in omega (arith, two_pow_mono (suc d) 31 (omega arith))
  where
    one_less : (d : ℕ) → suc d - 1 ≡ d
    one_less d = omega arith
