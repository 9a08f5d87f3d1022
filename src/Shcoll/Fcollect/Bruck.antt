-- ===== src/Shcoll/Fcollect/Bruck.antt =====
-- osss-ucx/src/shcoll/src/fcollect.c: how much the rounds of the Bruck algorithms send, and where to.
use paw.Prelude.{
  ℕ, zero, suc, ◌+◌, ◌-◌, ◌*◌, ◌^◌, ◌<◌, ◌≤◌, ◌≡◌, refl, arith, true, false, List, [], ◌∷◌, ltb,
  leb, if◌then◌else◌, dec_lt,
}
use native.Mathlib.Nat
use paw.Prelude.Words.{two_pow_suc}
use paw.Shcoll.{Act, putmem_nbi, ActiveSet, index_of}
use paw.Shcoll.Fcollect.Within.{Within, Within-append}
use paw.Shcoll.Fcollect.{
  bruck_to_send, bruck_rounds, bruck_put, bruck_put_no_rotate, bruck_signal_rounds,
  fcollect_helper_bruck, fcollect_helper_bruck_no_rotate, fcollect_helper_bruck_signal, me_as,
}

-- A put that wraps around at the end of the bytes is two puts.
wrapped-Within :
    (dest total off send pe : ℕ)
    → off ≤ total
    → send ≤ total
    → Within dest total (
        if leb (off + send) total
        then putmem_nbi (dest + off) (dest + off) send pe ∷ []
        else putmem_nbi (dest + off) (dest + off) (total - off) pe
          ∷ putmem_nbi dest dest (send - (total - off)) pe
          ∷ [])
wrapped-Within dest total off send pe le le_send = elim (dec_lt total (off + send)) [
  | yes over ↦
      let t : leb (off + send) total ≡ false = ground (arith, over) in
      rw t ((omega arith, omega (arith, le)), ((omega arith, omega (arith, le_send)), tt))
  | no fits ↦
      let t : leb (off + send) total ≡ true = ground (arith, fits) in
      rw t ((omega arith, omega (arith, fits)), tt)
]

module _ (dest source nbytes : ℕ) (active : ActiveSet) (me : ℕ) where
  sent : ℕ → ℕ
  sent round = 2 ^ round * nbytes

  round_bytes : (r : ℕ) → 2 ^ r < active.pe_size → sent r ≤ active.pe_size * nbytes
  unfolding sent
  round_bytes r lt = grind arith

  -- After a round a member has twice the blocks that it had, or all of them: what it had and what the
  -- round sends it make `min (2 ^ (round + 1), PE_size)` blocks.
  pub bruck_doubles :
      (r : ℕ)
      → 2 ^ r < active.pe_size
      → 2 ^ r * nbytes + bruck_to_send dest source nbytes active me (2 ^ r * nbytes)
        ≡ (if leb (2 ^ suc r) active.pe_size then 2 ^ suc r else active.pe_size) * nbytes
  unfolding bruck_to_send
  bruck_doubles r lt =
      let s = 2 ^ r * nbytes in
      let n = active.pe_size in
      let e = two_pow_suc r in
      let fits : 2 ^ r * nbytes ≤ n * nbytes = Nat.mul-le-mul_right nbytes (omega (arith, lt)) in
      elim (dec_lt n (2 ^ suc r)) [
        | yes above ↦
            let k : n * nbytes ≤ 2 * 2 ^ r * nbytes =
              Nat.mul-le-mul_right nbytes (omega (arith, above, e)) in
            let t : (leb (2 ^ suc r) n) ≡ false = ground (arith, above) in
            rw t (ground (arith, k, fits))
        | no below ↦
            let k : 2 * 2 ^ r * nbytes ≤ n * nbytes =
              Nat.mul-le-mul_right nbytes (omega (arith, below, e)) in
            let t : (leb (2 ^ suc r) n) ≡ true = ground (arith, below) in
            rw (t, e) (ground (arith, k, fits))
      ]

  to_send_fits :
      (r : ℕ)
      → 2 ^ r < active.pe_size
      → 2 ^ r * nbytes + bruck_to_send dest source nbytes active me (2 ^ r * nbytes)
        ≤ active.pe_size * nbytes
  unfolding bruck_to_send
  to_send_fits r lt =
      let fits : 2 ^ r * nbytes ≤ active.pe_size * nbytes =
        Nat.mul-le-mul_right nbytes (omega (arith, lt)) in
      ground (arith, fits)

  -- The rounds write within the bytes if the puts of each round do.
  bruck_rounds-Within :
      (puts : ℕ → ℕ → List Act)
      → ((r pe : ℕ)
          → 2 ^ r < active.pe_size
          → Within dest (active.pe_size * nbytes) (puts (2 ^ r * nbytes) pe))
      → (fuel r : ℕ)
      → Within dest
          (active.pe_size * nbytes)
          (bruck_rounds dest source nbytes active me puts fuel r (2 ^ r * nbytes))
  unfolding bruck_rounds
  bruck_rounds-Within puts ok zero r = tt
  bruck_rounds-Within puts ok (suc fuel) r = elim (dec_lt (2 ^ r) active.pe_size) [
    | no le ↦ let t : ltb (2 ^ r) active.pe_size ≡ false = ground (arith, le) in rw t tt
    | yes lt ↦
        let t : ltb (2 ^ r) active.pe_size ≡ true = ground (arith, lt) in
        let next_sent : 2 ^ r * nbytes + 2 ^ r * nbytes ≡ 2 ^ suc r * nbytes =
          let e = two_pow_suc r in rw e (omega arith) in
        rw t (
          Within-append dest (active.pe_size * nbytes) _ _ (ok r _ lt)
            (tt, (tt, (tt, (tt, rw next_sent (bruck_rounds-Within puts ok fuel (suc r)))))))
  ]

  signal_rounds_lem :
      (fuel r sent_bytes : ℕ)
      → bruck_signal_rounds dest source nbytes active me fuel r sent_bytes
        ≡ bruck_rounds dest source nbytes active me
            (bruck_put dest source nbytes active me)
            fuel
            r
            sent_bytes
  unfolding bruck_signal_rounds bruck_rounds bruck_put
  signal_rounds_lem zero r sent_bytes = refl
  signal_rounds_lem (suc fuel) r sent_bytes =
      rw (signal_rounds_lem fuel (suc r) (sent_bytes + 2 ^ r * nbytes)) refl

  -- With the put and signal of compat.h, the Bruck algorithm on signals does the same actions in the
  -- same order as the one that puts, fences and writes the word itself.
  pub bruck_signal_same :
      fcollect_helper_bruck_signal dest source nbytes active me
      ≡ fcollect_helper_bruck dest source nbytes active me
  unfolding fcollect_helper_bruck_signal fcollect_helper_bruck
  bruck_signal_same = rw (signal_rounds_lem active.pe_size 0 nbytes) refl

  first_block : 0 < active.pe_size → nbytes ≤ active.pe_size * nbytes
  first_block some_pe =
      let k : 1 * nbytes ≤ active.pe_size * nbytes = Nat.mul-le-mul_right nbytes some_pe in
      omega (arith, k)

  put-Within :
      (r pe : ℕ)
      → 2 ^ r < active.pe_size
      → Within dest
          (active.pe_size * nbytes)
          (bruck_put dest source nbytes active me (2 ^ r * nbytes) pe)
  unfolding bruck_put
  put-Within r pe lt = let k = to_send_fits r lt in ((omega arith, omega (arith, k)), tt)

  put_no_rotate-Within :
      index_of active me < active.pe_size
      → (r pe : ℕ) → 2 ^ r < active.pe_size
      → Within dest
          (active.pe_size * nbytes)
          (bruck_put_no_rotate dest source nbytes active me (2 ^ r * nbytes) pe)
  unfolding bruck_put_no_rotate me_as
  put_no_rotate-Within lt r pe lt_r =
      let k = to_send_fits r lt_r in
      let off : index_of active me * nbytes ≤ active.pe_size * nbytes =
        Nat.mul-le-mul_right nbytes (omega (arith, lt)) in
      let swap : nbytes * index_of active me ≡ index_of active me * nbytes = omega arith in
      wrapped-Within dest (active.pe_size * nbytes) (nbytes * index_of active me) _ pe
        (omega (arith, off, swap)) (omega (arith, k))

  bruck_rotated-Within :
      0 < active.pe_size
      → index_of active me < active.pe_size
      → Within dest (active.pe_size * nbytes) (fcollect_helper_bruck dest source nbytes active me)
  unfolding fcollect_helper_bruck me_as
  bruck_rotated-Within some_pe lt =
      let one : 2 ^ 0 * nbytes ≡ nbytes = omega arith in
      let all : Within dest (active.pe_size * nbytes) (
          bruck_rounds dest source nbytes active me (bruck_put dest source nbytes active me)
            active.pe_size 0 (2 ^ 0 * nbytes)) =
        bruck_rounds-Within (bruck_put dest source nbytes active me) put-Within active.pe_size 0 in
      let k = first_block some_pe in
      (
        (omega arith, omega (arith, k)),
        Within-append dest (active.pe_size * nbytes) _ _ (rw one at all)
            ((omega arith, omega arith, Nat.mul-le-mul_right nbytes (omega (arith, lt))), tt),
      )

  no_rotate-Within :
      0 < active.pe_size
      → index_of active me < active.pe_size
      → Within dest
          (active.pe_size * nbytes)
          (fcollect_helper_bruck_no_rotate dest source nbytes active me)
  unfolding fcollect_helper_bruck_no_rotate me_as
  no_rotate-Within some_pe lt =
      let one : 2 ^ 0 * nbytes ≡ nbytes = omega arith in
      let all : Within dest (active.pe_size * nbytes) (
          bruck_rounds dest source nbytes active me
            (bruck_put_no_rotate dest source nbytes active me) active.pe_size 0 (2 ^ 0 * nbytes)) =
        bruck_rounds-Within (bruck_put_no_rotate dest source nbytes active me)
          (put_no_rotate-Within lt) active.pe_size 0 in
      let k : suc (index_of active me) * nbytes ≤ active.pe_size * nbytes =
        Nat.mul-le-mul_right nbytes lt in
      ((omega arith, omega (arith, k)), rw one at all)

  -- The three Bruck algorithms never write outside the `PE_size * nbytes` bytes of `dest`, on this PE
  -- or on a peer: the puts of all rounds, the first copy and the rotation stay within.
  pub bruck_helpers-Within :
      0 < active.pe_size
      → index_of active me < active.pe_size
      → Within dest (active.pe_size * nbytes) (fcollect_helper_bruck dest source nbytes active me)
        × Within dest
            (active.pe_size * nbytes)
            (fcollect_helper_bruck_no_rotate dest source nbytes active me)
        × Within dest
            (active.pe_size * nbytes)
            (fcollect_helper_bruck_signal dest source nbytes active me)
  bruck_helpers-Within some_pe lt = (
    bruck_rotated-Within some_pe lt,
    no_rotate-Within some_pe lt,
    rw bruck_signal_same (bruck_rotated-Within some_pe lt),
  )
