-- ===== src/Comms/Ops/Wait.antt =====
-- osss-ucx/src/shmemc/ucx/comms.c: the wait of `check_wait_for_request`.
use paw.Prelude.{ℕ, zero, suc, ◌≡◌, refl, sym, ◌∙◌, ◌⊎◌, inl, inr}
use paw.Comms.Ucx.{
  Ucx, Status, ucs_ok, ucs_inprogress, ucs_err, Request, completed, failed, pending, Observed,
  Documented,
}
use paw.Comms.Ops.{returns, waiting, wait_loop, check_wait_for_request}

Status-cases : (s : Status) → (s ≡ ucs_ok) ⊎ ((s ≡ ucs_inprogress) ⊎ ((e : ℕ) × (s ≡ ucs_err e)))
Status-cases ucs_ok = inl refl
Status-cases ucs_inprogress = inr (inl refl)
Status-cases (ucs_err e) = inr (inr (e, refl))

module _ (u : Ucx) where
  open u use {World, Later, buffer, worker_progress, request_check_status, request_free}

  -- One round of the loop, by what the status is after it.
  wait_ok :
      (fuel : ℕ) (w : World) (h : ℕ)
      → request_check_status (worker_progress w) h ≡ ucs_ok
      → wait_loop u (suc fuel) w h ≡ returns (ucs_ok, request_free (worker_progress w) h)
  unfolding wait_loop
  wait_ok fuel w h e = rw (e, wait_loop)

  wait_err :
      (fuel : ℕ) (w : World) (h c : ℕ)
      → request_check_status (worker_progress w) h ≡ ucs_err c
      → wait_loop u (suc fuel) w h ≡ returns (ucs_err c, request_free (worker_progress w) h)
  unfolding wait_loop
  wait_err fuel w h c e = rw (e, wait_loop)

  wait_more :
      (fuel : ℕ) (w : World) (h : ℕ)
      → request_check_status (worker_progress w) h ≡ ucs_inprogress
      → wait_loop u (suc fuel) w h ≡ wait_loop u fuel (worker_progress w) h
  unfolding wait_loop
  wait_more fuel w h e = rw (e, wait_loop)

  wait_none : (w : World) (h : ℕ) → wait_loop u zero w h ≡ waiting
  unfolding wait_loop
  wait_none w h = refl

  -- What the loop returns with UCS_OK is a state in which the request was seen to have completed,
  -- with the request freed.
  wait_loop_ok :
      (fuel : ℕ) (w : World) (h : ℕ) (w' : World)
      → wait_loop u fuel w h ≡ returns (ucs_ok, w')
      → (w2 : World) × Observed u w (pending h) w2 × (w' ≡ request_free w2 h)
  wait_loop_ok zero w h w' e = cc (e, wait_none w h)
  wait_loop_ok (suc fuel) w h w' e =
      elim (Status-cases (request_check_status (worker_progress w) h)) [
        | inl o ↦ (worker_progress w, (1, refl, o), cc (e, wait_ok fuel w h o))
        | inr (inl o) ↦
            let (w2, (n, eq, seen), freed) =
              wait_loop_ok fuel (worker_progress w) h w' (sym (wait_more fuel w h o) ∙ e) in
            (w2, (suc n, eq, seen), freed)
        | inr (inr (c, o)) ↦ cc (e, wait_err fuel w h c o)
      ]

  module _ (doc : Documented u) where
    -- A wait that returns UCS_OK comes after the request was seen to have completed, and leaves every
    -- buffer as it was then.
    pub check_wait_for_request_ok :
        (fuel : ℕ) (w : World) (req : Request) (w' : World)
        → check_wait_for_request u fuel w req ≡ returns (ucs_ok, w')
        → (w2 : World) × Observed u w req w2
          × Later w2 w'
          × ((addr size : ℕ) → buffer w' addr size ≡ buffer w2 addr size)
    unfolding check_wait_for_request
    check_wait_for_request_ok fuel w completed w' e =
        let same : w' ≡ w = cc in (w, refl, rw same (doc.later_refl w), λ addr size. rw same)
    check_wait_for_request_ok fuel w (failed c) w' e = cc
    check_wait_for_request_ok fuel w (pending h) w' e =
        let (w2, seen, freed) = wait_loop_ok fuel w h w' e in
        (
          w2,
          seen,
          rw freed (doc.freed_later w2 h),
          λ addr size. rw freed (doc.freed_buffer w2 h addr size),
        )
