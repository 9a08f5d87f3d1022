-- ===== src/Shcoll/Reduction.antt =====
-- osss-ucx/src/shcoll/src/reduction.c: the set of members, as many as the greatest power of two allows,
-- that the recursive doubling and both Rabenseifner reductions exchange among; the others hand their
-- data to their left neighbour. The products are taken to fit an int.
pub mod Linear
mod Tests
use paw.Prelude.{
  ℕ, zero, suc, ◌+◌, ◌-◌, ◌*◌, ◌/◌, ◌%◌, ◌^◌, ◌<◌, ◌≤◌, ◌≡◌, ◌≢◌, refl, sym, ap, ◌∙◌, arith, subst,
  Bool, true, false, Option, none, some, ltb, leb, ◌==◌, if◌then◌else◌, Bool-cases, inl, inr,
  dec_lt, ==_iff, ◌↔◌,
}
use paw.Prelude.Words.{two_pow_suc, two_pow_pos}
use native.Mathlib.Nat
use native.Mathlib.Nat.{div-eq_of_lt-le, div-mul-le_self, lt-div-mul-add}

-- `for (p2s_size = 1; p2s_size * 2 <= PE_size; p2s_size *= 2)`; `PE_size` rounds are fuel enough.
pub p2s_loop : ℕ → ℕ → ℕ → ℕ
p2s_loop zero n size = size
p2s_loop (suc fuel) n size =
    let rest = p2s_loop fuel n (size * 2) in if leb (size * 2) n then rest else size

pub p2s_size : ℕ → ℕ
unfolding p2s_loop
p2s_size n = p2s_loop n n 1

-- `xchg_peer_as`: the member that has this place in the power 2 set.
pub member_of : ℕ → ℕ → ℕ → ℕ
member_of n m place = (place * n + m - 1) / m

-- `me_p2s`: the place of a member in the power 2 set; -1 is `none`.
pub place_of : ℕ → ℕ → ℕ → Option ℕ
unfolding member_of
place_of n m me_as =
    let place = me_as * m / n in if member_of n m place == me_as then some place else none

-- A member of the set has a neighbour to the right to take the data of.
pub has_extra : ℕ → ℕ → ℕ → ℕ → Bool
has_extra n m me_as place = (me_as + 1) * m / n == place

p2s_loop_lem :
    (fuel n k : ℕ)
    → 2 ^ k ≤ n
    → n < 2 ^ k + fuel
    → (e : ℕ) × (p2s_loop fuel n (2 ^ k) ≡ 2 ^ e) × (2 ^ e ≤ n) × (n < 2 ^ suc e)
unfolding p2s_loop
p2s_loop_lem zero n k le lt = absurd (omega arith)
p2s_loop_lem (suc fuel) n k le lt = elim (Bool-cases (leb (2 ^ k * 2) n)) [
  | inl more ↦
      let twice : 2 ^ k * 2 ≡ 2 ^ suc k = omega (arith, two_pow_suc k) in
      rw (more, twice)
        (p2s_loop_lem fuel n (suc k) (ground (arith, two_pow_suc k))
          (omega (arith, two_pow_suc k, two_pow_pos k)))
  | inr last ↦ (k, rw last refl, le, ground (arith, two_pow_suc k))
]

-- For at least one member, the size of the power 2 set is the greatest power of two that is not larger
-- than the number of members.
pub p2s_size_greatest :
    (n : ℕ) → 1 ≤ n → (e : ℕ) × (p2s_size n ≡ 2 ^ e) × (2 ^ e ≤ n) × (n < 2 ^ suc e)
unfolding p2s_size
p2s_size_greatest n pos = p2s_loop_lem n n 0 pos (omega arith)

module _ (n m : ℕ) (pos : 1 ≤ m) (le : m ≤ n) where
  -- The quotients of the definitions as bounds.
  member_of-eq : (p i : ℕ) → p * n ≤ i * m → i * m < p * n + m → member_of n m p ≡ i
  unfolding member_of
  member_of-eq p i lo hi =
      let up : (i + 1) * m ≡ i * m + m = omega arith in
      let below : p * n + m - 1 < (i + 1) * m = omega arith in div-eq_of_lt-le m (omega arith) below

  member_of_bounds : (p : ℕ) → (p * n ≤ member_of n m p * m) × (member_of n m p * m < p * n + m)
  unfolding member_of
  member_of_bounds p =
      let low = div-mul-le_self (p * n + m - 1) m in
      let high = lt-div-mul-add {a = p * n + m - 1} pos in (omega arith, omega arith)

  place_eq : (p i : ℕ) → p * n ≤ i * m → i * m < p * n + n → i * m / n ≡ p
  place_eq p i lo hi =
      let up : (p + 1) * n ≡ p * n + n = omega arith in
      let below : i * m < (p + 1) * n = omega arith in div-eq_of_lt-le n lo below

  place_bounds : (i : ℕ) → (i * m / n * n ≤ i * m) × (i * m < i * m / n * n + n)
  place_bounds i = (div-mul-le_self (i * m) n, lt-div-mul-add {a = i * m} {b = n} (omega arith))

  -- The places below the size of the power 2 set are those of its members.
  pub place_round_trip :
      (p : ℕ) → p < m → (member_of n m p < n) × (place_of n m (member_of n m p) ≡ some p)
  unfolding place_of
  place_round_trip p lt =
      let (lo, hi) = member_of_bounds p in
      let at = place_eq p (member_of n m p) lo (omega arith) in
      (small lo hi, rw (at, (==_iff (member_of n m p) (member_of n m p)).1 refl))
    where
      small : p * n ≤ member_of n m p * m → member_of n m p * m < p * n + m → member_of n m p < n
      small lo hi = elim (dec_lt (member_of n m p) n) [
        | yes lt_n ↦ lt_n
        | no ge ↦
            let wide : n * m ≤ member_of n m p * m = Nat.mul-le-mul_right m (omega arith) in
            let room : suc p * n ≤ m * n = Nat.mul-le-mul_right n lt in
            let swap = Nat.mul_comm n m in absurd (omega (arith, wide, room, swap))
      ]

  -- A member outside the power 2 set, where this is more than half of all, has a left neighbour in the
  -- set that takes its data; and only such members are taken from.
  pub outside_pairs :
      n < m * 2
      → (i : ℕ) → i < n
      → place_of n m i ≡ none
      → (1 ≤ i) × ((q : ℕ) × (place_of n m (i - 1) ≡ some q) × (has_extra n m (i - 1) q ≡ true))
  unfolding place_of has_extra
  outside_pairs half i lt out =
      let q = i * m / n in
      let (lo, hi) = place_bounds i in
      let (first, last) = member_of_bounds q in
      let before : member_of n m q < i = left_of i q (omega arith) (not_here i out) in
      let near : suc (member_of n m q) * m ≤ i * m = Nat.mul-le-mul_right m before in
      let down : (i - 1) * m + m ≡ i * m = one_less i (omega arith) in
      let at = place_eq q (i - 1) (omega arith) (omega arith) in
      let here = member_of-eq q (i - 1) (omega arith) (omega arith) in
      let back : i - 1 + 1 ≡ i = omega arith in
      (
        omega arith,
        (q, rw (at, here, (==_iff (i - 1) (i - 1)).1 refl), rw back ((==_iff q q).1 refl)),
      )
    where
      not_here : (i : ℕ) → place_of n m i ≡ none → member_of n m (i * m / n) ≢ i
      not_here i e h = let f = rw (h, (==_iff i i).1 refl) at e in cc

      one_less : (i : ℕ) → 1 ≤ i → (i - 1) * m + m ≡ i * m
      one_less zero h = absurd (omega arith)
      one_less (suc i) h = let e : suc i - 1 ≡ i = omega arith in rw e (omega arith)

      left_of : (i q : ℕ) → q * n ≤ i * m → member_of n m q ≢ i → member_of n m q < i
      left_of i q h ne = elim (dec_lt (member_of n m q) i) [
        | yes lt ↦ lt
        | no ge ↦
            let over : suc i * m ≤ member_of n m q * m = Nat.mul-le-mul_right m (omega arith) in
            absurd (omega (arith, over, (member_of_bounds q).1))
      ]

  pub extra-outside :
      (i q : ℕ)
      → i < n
      → place_of n m i ≡ some q
      → has_extra n m i q ≡ true
      → (i + 1 < n) × (place_of n m (i + 1) ≡ none)
  unfolding place_of has_extra
  extra-outside i q lt here extra =
      let (at, own) = taken i q here in
      let next : (i + 1) * m / n ≡ q = (==_iff ((i + 1) * m / n) q).0 extra in
      let hi = rw next at (place_bounds (i + 1)).1 in
      let lo = rw at at (place_bounds i).0 in
      let q_small = below_size q i lt lo in
      let room : suc q * n ≤ m * n = Nat.mul-le-mul_right n q_small in
      (fits i (omega (arith, hi, room)), rw (next, own) (other i))
    where
      taken : (i q : ℕ) → place_of n m i ≡ some q → (i * m / n ≡ q) × (member_of n m q ≡ i)
      taken i q e = elim (Bool-cases (member_of n m (i * m / n) == i)) [
        | inl h ↦
            let same : i * m / n ≡ q = some-inner (rw h at e) in
            (same, rw same at ((==_iff (member_of n m (i * m / n)) i).0 h))
        | inr h ↦ let f = rw h at e in cc
      ]
        where
          some-inner : {a b : ℕ} → some a ≡ some b → a ≡ b
          some-inner h = cc

      below_size : (q i : ℕ) → i < n → q * n ≤ i * m → q < m
      below_size q i lt h = elim (dec_lt q m) [
        | yes small ↦ small
        | no ge ↦
            let wide : m * n ≤ q * n = Nat.mul-le-mul_right n (omega arith) in
            let room : suc i * m ≤ n * m = Nat.mul-le-mul_right m lt in
            absurd (omega (arith, wide, room, Nat.mul_comm n m))
      ]

      fits : (i : ℕ) → (i + 1) * m < m * n → i + 1 < n
      fits i h = elim (dec_lt (i + 1) n) [
        | yes small ↦ small
        | no ge ↦
            let wide : n * m ≤ (i + 1) * m = Nat.mul-le-mul_right m (omega arith) in
            absurd (omega (arith, wide, Nat.mul_comm n m))
      ]

      other : (i : ℕ) → (if i == i + 1 then some q else none) ≡ none
      other i = let e : (i == i + 1) ≡ false = ground arith in rw e
