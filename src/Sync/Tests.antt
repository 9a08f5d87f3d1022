-- ===== src/Sync/Tests.antt =====
-- Waits and tests on a small memory: a counter that grows by one whenever the program waits, and four
-- words, of which word 1 and word 3 hold the value that is waited for.
use paw.Prelude.{
  ℕ, suc, ◌<◌, ◌≡◌, ◌↔◌, refl, arith, true, none, some, ◌&&◌, ltb, ◌==◌, if◌then◌else◌,
}
use paw.Sync.{
  Memory, Cmp, cmp_eq, ctx_test_all_vector, ctx_test_some_vector, ctx_wait_until_any_vector,
  ctx_wait_until_all_vector,
}
use paw.Sync.Any.{Holds, ctx_wait_until_any-Holds}
use paw.Sync.All.{ctx_test_all_iff}
use paw.Sync.Some.{member, satisfies, IsIncreasing, ctx_test_some_lists}

abbrev words : ℕ → ℕ
words i = if i == 1 then 7 else if i == 3 then 7 else 0

abbrev counter : Memory
counter = record { State = ℕ; read = λ w. words; progress = λ w. suc w; idle = λ w. w }

abbrev sevens : ℕ → ℕ
sevens i = 7

any_found : ctx_wait_until_any_vector counter 64 cmp_eq none sevens 3 4 0 ≡ some (1, 1)
unfolding ctx_wait_until_any_vector paw.Sync.wait_any_loop paw.Sync.wait_any_pass paw.Sync.skipped
    paw.Sync.compare_op
any_found = refl

ctx_wait_until_any-Holds_example : (1 < 4) × Holds counter 64 cmp_eq none sevens 1 1
ctx_wait_until_any-Holds_example =
    ctx_wait_until_any-Holds counter 64 cmp_eq none sevens 3 4 1 0 1 any_found

word_three : (w : ℕ) → Holds counter 64 cmp_eq none sevens w 3
unfolding paw.Sync.skipped paw.Sync.compare_op
word_three w = (refl, refl)

ctx_test_all_iff_example :
    ((ctx_test_all_vector counter 64 cmp_eq none sevens 4 0).0 ≡ true)
    ↔ ((j : ℕ) → j < 4 → Holds counter 64 cmp_eq none sevens 0 j)
ctx_test_all_iff_example =
    ctx_test_all_iff counter 64 cmp_eq none sevens (λ w i. refl) 4 0 (omega arith)

ctx_test_some_lists_example :
    (member 3 (ctx_test_some_vector counter 64 cmp_eq none sevens 4 0).0
      ≡ (ltb 3 4 && satisfies counter 64 cmp_eq none sevens 0 3))
    × IsIncreasing 0 (ctx_test_some_vector counter 64 cmp_eq none sevens 4 0).0
ctx_test_some_lists_example = ctx_test_some_lists counter 64 cmp_eq none sevens (λ w i. refl) 4 3 0
