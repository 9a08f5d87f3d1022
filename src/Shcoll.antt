-- ===== src/Shcoll.antt =====
-- osss-ucx/src/shcoll/src: the collectives. What a PE does in one call of a collective is a list of
-- actions on symmetric memory, computed from its number and the active set; a system runs the lists
-- of all PEs in any interleaving. A put without blocking is delivered at some time before the next
-- fence or quiet of its PE ends.
pub mod Indices
pub mod Sums
pub mod Barrier
pub mod Broadcast
pub mod Alltoall
pub mod Alltoalls
pub mod Scan
pub mod Collect
pub mod Reduction
pub mod Turns
pub mod Fcollect
pub mod Exchange
mod Tests
use paw.Prelude.{
  ℕ, zero, suc, ◌+◌, ◌-◌, ◌*◌, ◌/◌, ◌%◌, ◌^◌, Bool, true, false, ◌&&◌, List, [], ◌∷◌, ◌++◌, ltb,
  leb, ◌==◌, if◌then◌else◌,
}
use paw.Sync.{Cmp, compare_op}

-- One call of the OpenSHMEM layer. `slot` is an element of `pSync`; a data address is an offset in
-- symmetric memory, and the last argument of a remote call is the PE.
pub data Act : Type 0 where
  wait_until : ℕ → Cmp → ℕ → Act  -- shmem_long_wait_until(pSync + slot, cmp, value)
  long_p : ℕ → ℕ → ℕ → Act  -- shmem_long_p(pSync + slot, value, pe)
  atomic_inc : ℕ → ℕ → Act  -- shmem_long_atomic_inc(pSync + slot, pe)
  fetch_add : ℕ → ℕ → ℕ → Act  -- shmem_long_atomic_fetch_add(pSync + slot, value, pe)
  putmem_nbi : ℕ → ℕ → ℕ → ℕ → Act  -- shmem_putmem_nbi(dest, source, nbytes, pe)
  getmem : ℕ → ℕ → ℕ → ℕ → Act  -- shmem_getmem(dest, source, nbytes, pe)
  memcpy : ℕ → ℕ → ℕ → Act  -- memcpy(dest, source, nbytes)
  rotate : ℕ → ℕ → ℕ → Act  -- rotate(arr, size, dist)
  -- local_<name>_reduce(dest, src1, src2, nreduce); a cell of memory then holds an element
  reduce : (ℕ → ℕ → ℕ) → ℕ → ℕ → ℕ → ℕ → Act
  fence : Act
  quiet : Act

-- A put under way.
pub record Put : Type 0 where
  pub dest : ℕ
  pub source : ℕ
  pub nbytes : ℕ
  pub pe : ℕ

pub record System : Type 0 where
  pub sync : ℕ → ℕ → ℕ  -- pSync of each PE
  pub bytes : ℕ → ℕ → ℕ  -- symmetric memory of each PE
  pub pending : ℕ → List Put
  pub todo : ℕ → List Act

abbrev pub write {ℓ} : {A : Type ℓ} → (ℕ → ℕ → A) → ℕ → ℕ → A → ℕ → ℕ → A
write f pe i v q j = if pe == q && i == j then v else f q j

abbrev pub set_at {ℓ} : {A : Type ℓ} → (ℕ → A) → ℕ → A → ℕ → A
set_at f pe v q = if pe == q then v else f q

-- `nbytes` bytes from `source` of PE `from` to `dest` of PE `to`.
abbrev pub copy : (ℕ → ℕ → ℕ) → ℕ → ℕ → ℕ → ℕ → ℕ → ℕ → ℕ → ℕ
copy bytes from source to dest nbytes q j =
    if to == q && (leb dest j && ltb j (dest + nbytes))
    then bytes from (source + j - dest)
    else bytes q j

-- util/rotate.c, rotate: the last `dist` bytes of the array go to its front.
abbrev pub rotated : (ℕ → ℕ → ℕ) → ℕ → ℕ → ℕ → ℕ → ℕ → ℕ → ℕ
rotated bytes me arr size dist q j =
    if me == q && (leb arr j && ltb j (arr + size))
    then (if ltb j (arr + dist) then bytes me (j + (size - dist)) else bytes me (j - dist))
    else bytes q j

-- The elements from `dest` on are combined from those at `src1` and at `src2`.
abbrev pub combined : (ℕ → ℕ → ℕ) → ℕ → (ℕ → ℕ → ℕ) → ℕ → ℕ → ℕ → ℕ → ℕ → ℕ → ℕ
combined bytes me op dest src1 src2 nreduce q j =
    if me == q && (leb dest j && ltb j (dest + nreduce))
    then op (bytes me (src1 + j - dest)) (bytes me (src2 + j - dest))
    else bytes q j

-- A word of `pSync` is a `long`.
abbrev pub add_long : ℕ → ℕ → ℕ
add_long a b = (a + b) % 2 ^ 64

abbrev pub done : ℕ → List Act → System → System
done me rest s = record s { todo = set_at s.todo me rest }

-- The effect of an action of PE `me`, with what it has to do after it. A wait that does not hold, or
-- a fence with puts under way, leaves the system as it is.
pub perform : ℕ → Act → List Act → System → System
perform me (wait_until slot cmp value) rest s =
    if compare_op 64 cmp (s.sync me slot) value then done me rest s else s
perform me (long_p slot value pe) rest s = record (done me rest s) {
  sync = write s.sync pe slot value;
}
perform me (atomic_inc slot pe) rest s = record (done me rest s) {
  sync = write s.sync pe slot (add_long (s.sync pe slot) 1);
}
perform me (fetch_add slot value pe) rest s = record (done me rest s) {
  sync = write s.sync pe slot (add_long (s.sync pe slot) value);
}
perform me (putmem_nbi dest source nbytes pe) rest s = record (done me rest s) {
  pending =
      set_at s.pending me
        (s.pending me ++ (record { dest = dest; source = source; nbytes = nbytes; pe = pe } ∷ []));
}
perform me (getmem dest source nbytes pe) rest s = record (done me rest s) {
  bytes = copy s.bytes pe source me dest nbytes;
}
perform me (memcpy dest source nbytes) rest s = record (done me rest s) {
  bytes = copy s.bytes me source me dest nbytes;
}
perform me (rotate arr size dist) rest s = record (done me rest s) {
  bytes = rotated s.bytes me arr size dist;
}
perform me (reduce op dest src1 src2 nreduce) rest s = record (done me rest s) {
  bytes = combined s.bytes me op dest src1 src2 nreduce;
}
perform me fence rest s = elim (s.pending me) [ [] ↦ done me rest s | p ∷ ps ↦ s ]
perform me quiet rest s = elim (s.pending me) [ [] ↦ done me rest s | p ∷ ps ↦ s ]

-- The first put of the list arrives.
pub arrive : ℕ → List Put → System → System
arrive me [] s = s
arrive me (p ∷ ps) s = record s {
  bytes = copy s.bytes me p.source p.pe p.dest p.nbytes;
  pending = set_at s.pending me ps;
}

-- Put number `k` goes to the front: puts arrive in any order.
abbrev pub to_front : ℕ → List Put → List Put
to_front k [] = []
to_front zero (p ∷ ps) = p ∷ ps
to_front (suc k) (p ∷ ps) = elim (to_front k ps) [ [] ↦ p ∷ [] | q ∷ qs ↦ q ∷ p ∷ qs ]

pub act_next : ℕ → List Act → System → System
unfolding perform
act_next me [] s = s
act_next me (a ∷ rest) s = perform me a rest s

-- A PE acts, or one of its puts arrives.
pub data Turn : Type 0 where
  move : ℕ → Turn
  delivery : ℕ → ℕ → Turn

pub step : Turn → System → System
unfolding act_next arrive
step (move me) s = act_next me (s.todo me) s
step (delivery me k) s = arrive me (to_front k (s.pending me)) s

pub data Reach (s : System) : System → Type 0 where
  here : Reach s s
  next : {t : System} (turn : Turn) → Reach s t → Reach s (step turn t)

-- An active set: the PEs `pe_start + i * 2 ^ log_stride` for `i` below `pe_size`.
pub record ActiveSet : Type 0 where
  pub pe_start : ℕ
  pub log_stride : ℕ
  pub pe_size : ℕ

pub pe_of : ActiveSet → ℕ → ℕ
pe_of active i = active.pe_start + i * 2 ^ active.log_stride

-- `(me - PE_start) / stride`
pub index_of : ActiveSet → ℕ → ℕ
index_of active me = (me - active.pe_start) / 2 ^ active.log_stride

-- compat.h: a put, and a word written behind it.
pub putmem_signal_nb : ℕ → ℕ → ℕ → ℕ → ℕ → ℕ → List Act
putmem_signal_nb dest source nbytes slot value pe =
    putmem_nbi dest source nbytes pe ∷ fence ∷ long_p slot value pe ∷ []
