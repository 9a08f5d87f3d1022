-- ===== src/Teams/Translate.antt =====
-- Translation of PE numbers between teams.
use paw.Prelude.{ℕ, ltb, if◌then◌else◌, arith, ◌≡◌, ◌↔◌, Option, none, some, Option-cases, inl, inr}
use paw.Teams.{KhMap, IsMap, Team, initialize_team_world, team_translate_pe}
use paw.Teams.World.{world_maps}

module _ (kh : KhMap) where
  open kh use {get}

  -- The two maps of a team are each other's inverse.
  abbrev pub IsTeam : Team kh → Type 0
  IsTeam th = (i wpe : ℕ) → (get th.fwd i ≡ some wpe) ↔ (get th.rev wpe ≡ some i)

  through :
      (sh dh : Team kh) (i j : ℕ)
      → team_translate_pe kh sh i dh ≡ some j
      → (wpe : ℕ) × (get sh.fwd i ≡ some wpe) × (get dh.rev wpe ≡ some j)
  unfolding team_translate_pe
  through sh dh i j e = elim (Option-cases (get sh.fwd i)) [
    | inl q ↦ let bad : none ≡ some j = rw (q, team_translate_pe) at e in cc
    | inr (wpe, q) ↦ (wpe, q, rw (q, team_translate_pe) at e)
  ]

  -- Where the maps of the team translated to are each other's inverse, the PE `i` of the one team is
  -- PE `j` of the other exactly if both numbers stand for one PE of the world.
  pub translate_pe_iff :
      (sh dh : Team kh) (i j : ℕ)
      → IsTeam dh
      → (team_translate_pe kh sh i dh ≡ some j)
        ↔ ((wpe : ℕ) × (get sh.fwd i ≡ some wpe) × (get dh.fwd j ≡ some wpe))
  unfolding team_translate_pe
  translate_pe_iff sh dh i j d = (
    λ e. let (wpe, f, r) = through sh dh i j e in (wpe, f, (d j wpe).1 r),
    λ (wpe, f, g). rw (f, team_translate_pe) ((d j wpe).0 g),
  )

  -- The world team's maps are each other's inverse.
  pub world_IsTeam :
      (laws : IsMap kh) (rank nranks prealloc : ℕ) (th : Team kh)
      → IsTeam (initialize_team_world kh rank nranks prealloc th)
  world_IsTeam laws rank nranks prealloc th i wpe =
      let fwd = (world_maps kh laws rank nranks prealloc th i).0 in
      let rev = (world_maps kh laws rank nranks prealloc th wpe).1 in
      (λ e. inverse i wpe nranks _ _ fwd rev e, λ e. inverse wpe i nranks _ _ rev fwd e)
    where
      inverse :
          (i j n : ℕ) (a b : Option ℕ)
          → a ≡ (if ltb i n then some i else none)
          → b ≡ (if ltb j n then some j else none)
          → a ≡ some j
          → b ≡ some i
      inverse i j n a b p q e = ground arith
