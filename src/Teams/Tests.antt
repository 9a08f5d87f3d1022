-- ===== src/Teams/Tests.antt =====
-- Teams over a map that is a function.
use paw.Prelude.{
  ℕ, ◌+◌, ◌*◌, ◌≡◌, ◌≢◌, refl, arith, true, false, Option, none, some, ltb, ◌==◌, if◌then◌else◌,
  ==_iff, ◌↔◌,
}
use paw.Prelude.Int.{minus_one}
use paw.Teams.{
  KhMap, IsMap, Team, initialize_common_team, world_loop, initialize_team_world, is_member,
  split_round, split_loop, team_split_strided, created, team_translate_pe,
}
use paw.Teams.Split.{kept, team_split_strided_fwd}
use paw.Teams.Translate.{IsTeam, translate_pe_iff}

abbrev kh : KhMap
kh = record {
  Map = ℕ → Option ℕ;
  init = λ k. none;
  get = λ m k. m k;
  put = λ m k v j. if k == j then some v else m j;
}

eq_ne : (k j : ℕ) → k ≢ j → (k == j) ≡ false
eq_ne k j ne = ground arith

kh-IsMap : IsMap kh
kh-IsMap = record {
  get-init = λ k. refl;
  get-put_self = λ m k v. rw ((==_iff k k).1 refl) refl;
  get-put_ne = λ m k v j ne. rw (eq_ne k j ne) refl;
}

abbrev blank : Team kh
blank = record {
  rank = minus_one;
  nranks = 0;
  fwd = kh.init;
  rev = kh.init;
  num_contexts = 0;
  has_parent = false;
}

abbrev world : Team kh
world = initialize_team_world kh 0 4 2 blank

-- A split of two PEs of four.
abbrev pair : Team kh
pair = record {
  rank = minus_one;
  nranks = 2;
  fwd = kh.put kh.init 0 0;
  rev = kh.put kh.init 0 0;
  num_contexts = 2;
  has_parent = true;
}

pair_made : team_split_strided kh world 0 1 2 2 (some blank) ≡ created pair
unfolding team_split_strided split_loop split_round initialize_team_world world_loop
    initialize_common_team is_member
pair_made = refl

pair-IsTeam : IsTeam kh pair
pair-IsTeam i wpe = (λ e. ground arith, λ e. ground arith)

team_split_strided_fwd_example :
    kh.get pair.fwd 1 ≡ (if ltb 1 2 then kept kh kh-IsMap world 0 2 (0 + 1 * 1) else none)
team_split_strided_fwd_example =
    team_split_strided_fwd kh kh-IsMap world 0 1 2 2 blank pair pair_made 1

-- PE 1 of the world is PE 2 of this team of three; PE 0 of it is PE 3 of the world.
abbrev rotated : Team kh
rotated = record {
  rank = minus_one;
  nranks = 3;
  fwd = λ i. if i == 0 then some 3 else if i == 1 then some 0 else if i == 2 then some 1 else none;
  rev = λ w. if w == 3 then some 0 else if w == 0 then some 1 else if w == 1 then some 2 else none;
  num_contexts = 2;
  has_parent = true;
}

rotated-IsTeam : IsTeam kh rotated
rotated-IsTeam i wpe = (λ e. ground arith, λ e. ground arith)

translate_pe_iff_example :
    (team_translate_pe kh world 1 rotated ≡ some 2)
    ↔ ((wpe : ℕ) × (kh.get world.fwd 1 ≡ some wpe) × (kh.get rotated.fwd 2 ≡ some wpe))
translate_pe_iff_example = translate_pe_iff kh world rotated 1 2 rotated-IsTeam

world_to_rotated : team_translate_pe kh world 1 rotated ≡ some 2
unfolding team_translate_pe initialize_team_world world_loop initialize_common_team
world_to_rotated = refl
