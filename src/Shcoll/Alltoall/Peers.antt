-- ===== src/Shcoll/Alltoall/Peers.antt =====
-- osss-ucx/src/shcoll/src/alltoall.c: the peers of the rounds.
use paw.Prelude.{
  ℕ, ◌+◌, ◌-◌, ◌/◌, ◌%◌, ◌<◌, ◌≤◌, ◌≡◌, ◌≢◌, sym, ap, subst, ◌∙◌, arith, none, some, ltb, leb, ◌==◌,
  if◌then◌else◌, dec_lt, ℕ_discrete, ◌⊎◌,
}
use paw.Shcoll.Indices.{mod_wrap, mod_wrap_twice}
use paw.Shcoll.Alltoall.{edge_color, shift_peer, color_peer}

-- In the rounds 1 to `n - 1` each member meets each other one exactly once, and nobody else.
unfoldable pub Exchange : (ℕ → ℕ → ℕ → ℕ) → ℕ → Type 0
Exchange peer n =
    ((me i : ℕ) → me < n → 1 ≤ i → i < n → (peer i me n < n) × (peer i me n ≢ me))
    × ((me q : ℕ)
        → me < n
        → q < n
        → me ≢ q
        → (i : ℕ) × (1 ≤ i)
          × (i < n)
          × (peer i me n ≡ q)
          × ((j : ℕ) → 1 ≤ j → j < n → peer j me n ≡ q → j ≡ i))

-- What `edge_color` computes for an even number of members, without a remainder of a variable.
color : ℕ → ℕ → ℕ → ℕ
color i me c =
    let v =
      if ltb me c
      then (if ltb i me then i + c - me else if ltb (i - me) c then i - me else 0)
      else if i % 2 == 1
      then (if ltb ((i + c) / 2) c then (i + c) / 2 else (i + c) / 2 - c)
      else i / 2 in
    if v == me then c else v

edge_color-color :
    (i me n : ℕ) → n % 2 ≡ 0 → me < n → i < n → edge_color i me n ≡ some (color i me (n - 1))
unfolding edge_color color
edge_color-color i me n even lt lt_i =
    let c = n - 1 in
    let e1 = mod_wrap_twice (i + c - me) c in
    let e2 = mod_wrap ((i + c) / 2) c in
    elim (dec_lt me c) [
      | yes low ↦ let h = e1 (omega (arith, low, lt_i)) in ground (arith, h)
      | no top ↦ elim (dec_lt ((i + c) / 2) (c + c)) [
        | yes below ↦ let h = e2 below in ground (arith, h)
        | no above ↦ ground arith
      ]
    ]

-- Shifting by the number of the round is such a schedule, for every number of members.
pub shift-Exchange : (n : ℕ) → Exchange shift_peer n
unfolding Exchange shift_peer
shift-Exchange n = (
  λ me i lt one lt_i.
      let e = mod_wrap (me + i) n (omega (arith, lt, lt_i)) in rw e (ground arith, ground arith),
  λ me q lt lt_q ne.
      let i = if ltb me q then q - me else q + n - me in
      let e = mod_wrap (me + i) n (ground arith) in
      (
        i,
        ground arith,
        ground arith,
        ground (arith, e),
        λ j one lt_j h.
            let k = mod_wrap (me + j) n (omega (arith, lt, lt_j)) in ground (arith, k, h),
      ),
)

color_peer_lem : (i me n : ℕ) → n % 2 ≡ 0 → me < n → i < n → color_peer i me n ≡ color i me (n - 1)
unfolding color_peer
color_peer_lem i me n even lt lt_i =
    ap (λ x. elim x [ none ↦ 0 | some peer ↦ peer ]) (edge_color-color i me n even lt lt_i)

-- Twice the index of the partner of the last member, or the sum of the two indices, is the round up to
-- a multiple of `c`.
meeting : ℕ → ℕ → ℕ → ℕ
meeting a b c = if a == c then b + b else if b == c then a + a else a + b

Meets : ℕ → ℕ → ℕ → ℕ → Type 0
Meets i a b c = (meeting a b c ≡ i) ⊎ (meeting a b c ≡ i + c) ⊎ ((i ≡ c) × (meeting a b c ≡ 0))

color-le : (i a c : ℕ) → c % 2 ≡ 1 → a ≤ c → i ≤ c → 1 ≤ i → color i a c ≤ c
unfolding color
color-le i a c odd le le_i one = ground arith

color-ne : (i a c : ℕ) → c % 2 ≡ 1 → a ≤ c → i ≤ c → 1 ≤ i → color i a c ≢ a
unfolding color
color-ne i a c odd le le_i one e = ground (arith, e)

color-Meets : (i a c : ℕ) → c % 2 ≡ 1 → a ≤ c → i ≤ c → 1 ≤ i → Meets i a (color i a c) c
unfolding color meeting Meets
color-Meets i a c odd le le_i one = elim (ℕ_discrete a c) [
  | yes e ↦ ground arith
  | no ne ↦ ground arith
]

Meets-color :
    (i a b c : ℕ)
    → c % 2 ≡ 1
    → a ≤ c
    → b ≤ c
    → i ≤ c
    → 1 ≤ i
    → a ≢ b
    → Meets i a b c
    → color i a c ≡ b
unfolding color meeting Meets
Meets-color i a b c odd le le_b le_i one ne h = ground (arith, h)

Meets-sym : (i a b c : ℕ) → a ≤ c → b ≤ c → a ≢ b → Meets i a b c → Meets i b a c
unfolding meeting Meets
Meets-sym i a b c le le_b ne h = ground (arith, h)

-- The round in which two members meet.
round_of : ℕ → ℕ → ℕ → ℕ
round_of a b c = let m = meeting a b c in if m == 0 then c else if leb m c then m else m - c

round_of_lem :
    (a b c : ℕ)
    → 1 ≤ c
    → a ≤ c
    → b ≤ c
    → a ≢ b
    → (1 ≤ round_of a b c) × (round_of a b c ≤ c) × Meets (round_of a b c) a b c
unfolding round_of meeting Meets
round_of_lem a b c one le le_b ne = (ground arith, ground arith, ground arith)

round_of_unique :
    (i a b c : ℕ) → a ≤ c → b ≤ c → a ≢ b → 1 ≤ i → i ≤ c → Meets i a b c → i ≡ round_of a b c
unfolding round_of meeting Meets
round_of_unique i a b c le le_b ne one le_i h = ground (arith, h)

-- For an even number of members, `edge_color` pairs them in every round: each has a partner, which is
-- another member of the set, and it is the partner of its partner.
pub edge_color_pairs :
    (i me n : ℕ)
    → n % 2 ≡ 0
    → me < n
    → 1 ≤ i
    → i < n
    → (p : ℕ) × (edge_color i me n ≡ some p) × (p < n) × (p ≢ me) × (edge_color i p n ≡ some me)
edge_color_pairs i me n even lt one lt_i =
    let c = n - 1 in
    let odd : c % 2 ≡ 1 = omega (arith, even, lt) in
    let p = color i me c in
    let le : me ≤ c = omega (arith, lt) in
    let le_i : i ≤ c = omega (arith, lt_i) in
    let le_p = color-le i me c odd le le_i one in
    let ne = color-ne i me c odd le le_i one in
    let small : p < n = omega (arith, le_p, lt) in
    let meets = Meets-sym i me p c le le_p (λ e. ne (sym e)) (color-Meets i me c odd le le_i one) in
    (
      p,
      edge_color-color i me n even lt lt_i,
      small,
      ne,
      edge_color-color i p n even small lt_i
          ∙ ap some (Meets-color i p me c odd le_p le le_i one ne meets),
    )

-- The edge colouring is a schedule of an exchange: for an even number of members, in the rounds 1 to
-- `n - 1` each one meets each other one in exactly one round, and never itself.
pub color-Exchange : (n : ℕ) → n % 2 ≡ 0 → Exchange color_peer n
unfolding Exchange
color-Exchange n even = (
  λ me i lt one lt_i.
      let c = n - 1 in
      let odd : c % 2 ≡ 1 = omega (arith, even, lt) in
      let e = color_peer_lem i me n even lt lt_i in
      let le = color-le i me c odd (omega (arith, lt)) (omega (arith, lt_i)) one in
      (
        omega (arith, e, le, lt),
        λ h. color-ne i me c odd (omega (arith, lt)) (omega (arith, lt_i)) one (sym e ∙ h),
      ),
  λ me q lt lt_q ne.
      let c = n - 1 in
      let odd : c % 2 ≡ 1 = omega (arith, even, lt) in
      let le : me ≤ c = omega (arith, lt) in
      let le_q : q ≤ c = omega (arith, lt_q) in
      let (one, le_i, meets) = round_of_lem me q c (omega (arith, lt, lt_q, ne)) le le_q ne in
      let i = round_of me q c in
      let lt_i : i < n = omega (arith, le_i, lt) in
      (
        i,
        one,
        lt_i,
        color_peer_lem i me n even lt lt_i ∙ Meets-color i me q c odd le le_q le_i one ne meets,
        λ j one_j lt_j h.
            let same : color j me c ≡ q = sym (color_peer_lem j me n even lt lt_j) ∙ h in
            let le_j : j ≤ c = omega (arith, lt_j) in
            round_of_unique j me q c le le_q ne one_j le_j
              (subst (λ x. Meets j me x c) same (color-Meets j me c odd le le_j one_j)),
      ),
)
