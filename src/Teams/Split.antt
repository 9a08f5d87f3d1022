-- ===== src/Teams/Split.antt =====
-- What `shmemc_team_split_strided` puts in the maps of the new team.
use paw.Prelude.{
  lt→ltb, subst, ℕ, zero, suc, ◌+◌, ◌-◌, ◌*◌, ◌<◌, ◌≤◌, ◌≡◌, ◌≢◌, refl, sym, ◌∙◌, ap, arith, Bool,
  true, false, Option, none, some, ltb, if◌then◌else◌, Bool-cases, Option-cases, inl, inr,
  ℕ_discrete, dec_lt,
}
use native.Mathlib.Nat.{suc-mul, mod-eq_of_lt}
use paw.Teams.{
  KhMap, IsMap, Team, initialize_team_world, initialize_common_team, is_member, split_round,
  split_loop, team_split_strided, SplitResult, out_of_table, created,
}
use paw.Teams.World.{within, world_maps}

-- The ranges of keys that the loop has before it, with the values left open.
no_key : (i k : ℕ) (o a : Option ℕ) → o ≡ (if within i 0 k then a else o)
no_key i k o a = ground arith

first_key :
    (i n k : ℕ) (o a b new old : Option ℕ)
    → i ≡ k
    → o ≡ (if within (suc i) n k then a else new)
    → new ≡ b
    → o ≡ (if within i (suc n) k then b else old)
first_key i n k o a b new old same e q = ground arith

later_key :
    (i n k : ℕ) (o a b new old : Option ℕ)
    → i ≢ k
    → o ≡ (if within (suc i) n k then a else new)
    → (i < k → a ≡ b)
    → new ≡ old
    → o ≡ (if within i (suc n) k then b else old)
later_key i n k o a b new old ne e ab q = elim (dec_lt i k) [
  | yes lt ↦ let eq : a ≡ b = ab lt in ground (arith, eq)
  | no ge ↦ ground arith
]

later_place :
    (walk stride i k : ℕ) → i < k → walk + stride + (k - suc i) * stride ≡ walk + (k - i) * stride
later_place walk stride i k lt =
    let one : suc (k - suc i) ≡ k - i = omega arith in
    omega (arith, suc-mul (k - suc i) stride, ap (λ x. x * stride) one)

first_place : (walk stride i k : ℕ) → i ≡ k → walk + (k - i) * stride ≡ walk
first_place walk stride i k same =
    let none_left : k - i ≡ 0 = omega arith in omega (arith, ap (λ x. x * stride) none_left)

module _ (kh : KhMap) (laws : IsMap kh) where
  open kh use {Map, init, get, put}

  -- The PE of the parent at place `walk`, if the test of membership keeps it.
  abbrev pub kept : Team kh → ℕ → ℕ → ℕ → Option ℕ
  kept parh start size walk = elim (get parh.fwd walk) [
    | none ↦ none
    | some up ↦ if is_member kh up start size then some up else none
  ]

  -- The new team after a round at the PE `up` of the parent.
  abbrev next_team : ℕ → ℕ → ℕ → ℕ → Team kh → Team kh
  next_team start size i up newt =
      if is_member kh up start size
      then record newt { fwd = put newt.fwd i up; rev = put newt.rev up i }
      else newt

  loop_out :
      (parh : Team kh) (start stride size n i walk : ℕ) (newt : Team kh)
      → get parh.fwd walk ≡ none
      → split_loop kh parh start stride size (suc n) i walk newt ≡ none
  unfolding split_loop split_round
  loop_out parh start stride size n i walk newt q = rw (q, split_loop, split_round) refl

  loop_in :
      (parh : Team kh) (start stride size n i walk up : ℕ) (newt : Team kh)
      → get parh.fwd walk ≡ some up
      → split_loop kh parh start stride size (suc n) i walk newt
        ≡ split_loop kh parh start stride size n
            (suc i)
            (walk + stride)
            (next_team start size i up newt)
  unfolding split_loop split_round
  loop_in parh start stride size n i walk up newt q = rw (q, split_loop, split_round) refl

  next_here :
      (parh : Team kh) (start size i walk up : ℕ) (newt : Team kh)
      → get parh.fwd walk ≡ some up
      → get newt.fwd i ≡ none
      → get (next_team start size i up newt).fwd i ≡ kept parh start size walk
  next_here parh start size i walk up newt q free = elim (Bool-cases (is_member kh up start size)) [
    | inl m ↦ rw (q, m, kept) (laws.get-put_self newt.fwd i up)
    | inr m ↦ rw (q, m, kept) free
  ]

  next_there :
      (start size i up : ℕ) (newt : Team kh) (k : ℕ)
      → i ≢ k
      → get (next_team start size i up newt).fwd k ≡ get newt.fwd k
  next_there start size i up newt k ne = elim (Bool-cases (is_member kh up start size)) [
    | inl m ↦ rw m (laws.get-put_ne newt.fwd i up k ne)
    | inr m ↦ rw m refl
  ]

  loop_end :
      (parh : Team kh) (start stride size i walk : ℕ) (newt th : Team kh)
      → split_loop kh parh start stride size zero i walk newt ≡ some th
      → newt ≡ th
  unfolding split_loop
  loop_end parh start stride size i walk newt th e = cc

  -- The loop puts at place `k` of the new team the PE of the parent that it walks to, where the test
  -- of membership keeps it.
  loop_fwd :
      (parh : Team kh) (start stride size n i walk : ℕ) (newt th : Team kh)
      → split_loop kh parh start stride size n i walk newt ≡ some th
      → ((j : ℕ) → i ≤ j → get newt.fwd j ≡ none)
      → (k : ℕ)
      → get th.fwd k
        ≡ (if within i n k then kept parh start size (walk + (k - i) * stride) else get newt.fwd k)
  loop_fwd parh start stride size zero i walk newt th e free k =
      rw (← loop_end parh start stride size i walk newt th e) (no_key i k _ _)
  loop_fwd parh start stride size (suc n) i walk newt th e free k =
      elim (Option-cases (get parh.fwd walk)) [
        | inl q ↦ cc (e, loop_out parh start stride size n i walk newt q)
        | inr (up, q) ↦
            let newt' = next_team start size i up newt in
            let ih =
              loop_fwd parh start stride size n (suc i) (walk + stride) newt' th
                (sym (loop_in parh start stride size n i walk up newt q) ∙ e)
                (λ j le.
                  next_there start size i up newt j (λ s. absurd (omega arith))
                  ∙ free j (omega arith)) in
            elim (ℕ_discrete i k) [
              | yes same ↦ first_key i n k _ _ _ _ _ same (ih k) (
                  rw (first_place walk stride i k same) (
                    subst (λ k. get newt'.fwd k ≡ kept parh start size walk) same
                      (next_here parh start size i walk up newt q (free i (omega arith)))))
              | no ne ↦
                  later_key i n k _ _ _ _ _ ne (ih k)
                    (λ lt. ap (kept parh start size) (later_place walk stride i k lt))
                    (next_there start size i up newt k ne)
            ]
      ]

  abbrev fresh : Option (Team kh) → Team kh → Team kh
  fresh none t = t
  fresh (some a) t = a

  split_result :
      (parh : Team kh) (start stride size nc : ℕ) (junk th : Team kh)
      → team_split_strided kh parh start stride size nc (some junk) ≡ created th
      → split_loop kh parh start stride size size 0 start (record junk {
        has_parent = true;
        nranks = size;
        num_contexts = nc;
        fwd = init;
        rev = init;
      })
        ≡ some th
  unfolding team_split_strided initialize_common_team
  split_result parh start stride size nc junk th e =
      go
        (split_loop kh parh start stride size size 0 start (record junk {
          has_parent = true;
          nranks = size;
          num_contexts = nc;
          fwd = init;
          rev = init;
        }))
        e
    where
      go :
          (o : Option (Team kh))
          → (elim o as (λ _. SplitResult kh) [ none ↦ out_of_table | some t ↦ created t ])
            ≡ created th
          → o ≡ some th
      go none q = cc
      go (some t) q = cc

  whole_range :
      (n k : ℕ) (o a a' b : Option ℕ)
      → b ≡ none
      → a ≡ a'
      → o ≡ (if within 0 n k then a else b)
      → o ≡ (if ltb k n then a' else none)
  whole_range n k o a a' b free same e = ground arith

  -- A split that succeeds maps place `k` of the new team, for `k` below its size, to the PE at
  -- `start + k * stride` of the parent where that PE passes the test of membership, and to none
  -- where it does not; every other place is unused.
  pub team_split_strided_fwd :
      (parh : Team kh) (start stride size nc : ℕ) (junk th : Team kh)
      → team_split_strided kh parh start stride size nc (some junk) ≡ created th
      → (k : ℕ)
      → get th.fwd k ≡ (if ltb k size then kept parh start size (start + k * stride) else none)
  team_split_strided_fwd parh start stride size nc junk th e k =
      let offset : k - 0 ≡ k = omega arith in
      whole_range size k _ _ _ _ (laws.get-init k)
        (ap (λ x. kept parh start size (start + x * stride)) offset)
        (loop_fwd parh start stride size size 0 start _ th
          (split_result parh start stride size nc junk th e) (λ j le. laws.get-init j) k)

  -- A PE of the parent that the test keeps out.
  kept_out :
      (parh : Team kh) (start size walk up : ℕ)
      → get parh.fwd walk ≡ some up
      → is_member kh up start size ≡ false
      → kept parh start size walk ≡ none
  kept_out parh start size walk up q m = rw (q, m, kept) refl

  either_none : (b : Bool) (o : Option ℕ) → o ≡ none → (if b then o else none) ≡ none
  either_none true o e = e
  either_none false o e = refl

  world_has :
      (rank nranks prealloc k : ℕ) (th : Team kh)
      → k < nranks
      → get (initialize_team_world kh rank nranks prealloc th).fwd k ≡ some k
  world_has rank nranks prealloc k th h =
      (world_maps kh laws rank nranks prealloc th k).0 ∙ rw (lt→ltb k nranks h) refl

  second_out : (start size : ℕ) → 2 ≤ size → is_member kh (start + 1) start size ≡ false
  unfolding is_member
  second_out start size h = ground (arith, mod-eq_of_lt h)

  -- Where two or more PEs of the world team in a row are split off, the second of them is not in the
  -- new team.
  pub split_second_lost :
      (rank nranks prealloc start size nc : ℕ) (th0 junk th : Team kh)
      → 2 ≤ size
      → start + size ≤ nranks
      → team_split_strided kh
          (initialize_team_world kh rank nranks prealloc th0)
          start
          1
          size
          nc
          (some junk)
        ≡ created th
      → get th.fwd 1 ≡ none
  split_second_lost rank nranks prealloc start size nc th0 junk th h room e =
      let world = initialize_team_world kh rank nranks prealloc th0 in
      let split = team_split_strided_fwd world start 1 size nc junk th e 1 in
      split
      ∙ either_none (ltb 1 size) _ (
          kept_out world start size (start + 1) (start + 1)
            (world_has rank nranks prealloc (start + 1) th0 (omega arith))
            (second_out start size h))
