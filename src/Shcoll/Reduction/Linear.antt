-- ===== src/Shcoll/Reduction/Linear.antt =====
-- osss-ucx/src/shcoll/src/reduction.c: the linear reduction. Member 0 takes the source of each other
-- member in turn. A cell of memory holds an element, and `tmp_array` stands in the memory of this PE;
-- the words of the broadcast are those from `pSync + 1` on.
use paw.Prelude.{
  ℕ, zero, suc, ◌+◌, ◌-◌, ◌<◌, ◌≤◌, ◌≡◌, ◌≢◌, refl, sym, ap, ◌∙◌, arith, true, List, [], ◌∷◌, ◌++◌,
  ◌==◌, ltb, leb, ◌&&◌, if◌then◌else◌, ◌⊎◌, inl, inr, map,
}
use paw.Shcoll.{
  Act, wait_until, long_p, atomic_inc, fetch_add, getmem, memcpy, putmem_nbi, rotate, reduce, fence,
  quiet, System, ActiveSet, pe_of, index_of, Turn, move, step, act_next, perform, combined, copy,
  set_at,
}
use mathlib.Core.List.{append_assoc}
use paw.Shcoll.Indices.{pe_of-injective}
use paw.Shcoll.Turns.{run}
use paw.Shcoll.Barrier.{shcoll_barrier, helper_linear}
use paw.Shcoll.Barrier.Ring.{set_at_same}
use paw.Shcoll.Broadcast.{broadcast_helper_linear}
use paw.Shcoll.Exchange.Memory.{copy_hit, copy_other}

-- An action on the words from `pSync + by` on.
pub on_words : ℕ → Act → Act
on_words by (wait_until slot cmp value) = wait_until (by + slot) cmp value
on_words by (long_p slot value pe) = long_p (by + slot) value pe
on_words by (atomic_inc slot pe) = atomic_inc (by + slot) pe
on_words by (fetch_add slot value pe) = fetch_add (by + slot) value pe
on_words by (putmem_nbi dest source nbytes pe) = putmem_nbi dest source nbytes pe
on_words by (getmem dest source nbytes pe) = getmem dest source nbytes pe
on_words by (memcpy dest source nbytes) = memcpy dest source nbytes
on_words by (rotate arr size dist) = rotate arr size dist
on_words by (reduce op dest src1 src2 nreduce) = reduce op dest src1 src2 nreduce
on_words by fence = fence
on_words by quiet = quiet

module _ (op : ℕ → ℕ → ℕ) (dest source nreduce tmp_array : ℕ) (active : ActiveSet) (me : ℕ) where
  -- The rounds of member 0, `left` of them, from member `i` on.
  pub gather : ℕ → ℕ → List Act
  gather zero i = []
  gather (suc left) i =
      getmem dest source nreduce (pe_of active i)
      ∷ reduce op tmp_array tmp_array dest nreduce
      ∷ gather left (suc i)

  pub reduce_root : List Act
  unfolding gather
  reduce_root =
      memcpy tmp_array source nreduce
      ∷ (gather (active.pe_size - 1) 1 ++ (memcpy dest tmp_array nreduce ∷ []))

  -- The broadcast is given the PE number `PE_start` as the index of its root.
  pub to_all_linear : List Act
  unfolding reduce_root on_words
  to_all_linear =
      shcoll_barrier helper_linear active me
      ++ ((if index_of active me == 0 then reduce_root else [])
          ++ (shcoll_barrier helper_linear active me
              ++ map (on_words 1)
                  (broadcast_helper_linear dest dest nreduce active.pe_start active me)))

-- `n` turns of one PE.
abbrev pub turns_of : ℕ → ℕ → List Turn
turns_of me zero = []
turns_of me (suc n) = move me ∷ turns_of me n

abbrev pub length : List Act → ℕ
length [] = 0
length (a ∷ list) = suc (length list)

-- The elements of the members from `i` on, `left` of them, combined one after the other with `v`.
pub fold_members : (ℕ → ℕ → ℕ) → (ℕ → ℕ) → ℕ → ℕ → ℕ → ℕ
fold_members op element zero i v = v
fold_members op element (suc left) i v = fold_members op element left (suc i) (op v (element i))

fold_members-agree :
    (op : ℕ → ℕ → ℕ) (f g : ℕ → ℕ) (left i v : ℕ)
    → ((k : ℕ) → i ≤ k → f k ≡ g k)
    → fold_members op f left i v ≡ fold_members op g left i v
unfolding fold_members
fold_members-agree op f g zero i v same = refl
fold_members-agree op f g (suc left) i v same =
    rw (same i (omega arith))
      (fold_members-agree op f g left (suc i) _ (λ k le. same k (omega arith)))

combined_hit :
    (bytes : ℕ → ℕ → ℕ) (me : ℕ) (op : ℕ → ℕ → ℕ) (dest src1 src2 n j : ℕ)
    → j < n
    → combined bytes me op dest src1 src2 n me (dest + j)
      ≡ op (bytes me (src1 + j)) (bytes me (src2 + j))
combined_hit bytes me op dest src1 src2 n j lt =
    let e : src1 + (dest + j) - dest ≡ src1 + j = omega arith in
    let f : src2 + (dest + j) - dest ≡ src2 + j = omega arith in
    let t : (me == me && (leb dest (dest + j) && ltb (dest + j) (dest + n))) ≡ true =
      ground (arith, lt) in
    rw (t, e, f) refl

combined_elsewhere :
    (bytes : ℕ → ℕ → ℕ) (me : ℕ) (op : ℕ → ℕ → ℕ) (dest src1 src2 n q j : ℕ)
    → q ≢ me
    → combined bytes me op dest src1 src2 n q j ≡ bytes q j
combined_elsewhere bytes me op dest src1 src2 n q j ne = ground arith

module _ (op : ℕ → ℕ → ℕ) (dest source nreduce tmp_array : ℕ) (active : ActiveSet) (me : ℕ)
    (apart : (tmp_array + nreduce ≤ dest) ⊎ (dest + nreduce ≤ tmp_array)) where
  abbrev Listed : List Act → System → System
  Listed list s = run (turns_of me (length list)) s

  move_on :
      (a : Act) (rest : List Act) (s : System)
      → s.todo me ≡ a ∷ rest
      → step (move me) s ≡ perform me a rest s
  unfolding step act_next
  move_on a rest s e = ap (λ l. act_next me l s) e

  -- The state after the two actions of one round.
  abbrev got : ℕ → List Act → System → System
  got i rest s = perform me (reduce op tmp_array tmp_array dest nreduce) rest (
      perform me (getmem dest source nreduce (pe_of active i))
        (reduce op tmp_array tmp_array dest nreduce ∷ rest) s)

  abbrev fetched : ℕ → System → ℕ → ℕ → ℕ
  fetched i s = copy s.bytes (pe_of active i) source me dest nreduce

  one_round :
      (i : ℕ) (rest : List Act) (s : System)
      → s.todo me
        ≡ getmem dest source nreduce (pe_of active i)
          ∷ reduce op tmp_array tmp_array dest nreduce
          ∷ rest
      → step (move me) (step (move me) s) ≡ got i rest s
  unfolding perform
  one_round i rest s e =
      ap (step (move me)) (move_on _ _ s e)
      ∙ move_on (reduce op tmp_array tmp_array dest nreduce) rest _ (set_at_same s.todo me _)

  got_tmp :
      (i : ℕ) (rest : List Act) (s : System) (j : ℕ)
      → j < nreduce
      → (got i rest s).bytes me (tmp_array + j)
        ≡ op (s.bytes me (tmp_array + j)) (s.bytes (pe_of active i) (source + j))
  unfolding perform
  got_tmp i rest s j lt =
      combined_hit (fetched i s) me op tmp_array tmp_array dest nreduce j lt
      ∙ rw
          (
            copy_other s.bytes (pe_of active i) source me dest nreduce me (tmp_array + j) (
                inr (elim apart [
                  | inl h ↦ inl (omega (arith, h, lt))
                  | inr h ↦ inr (omega (arith, h))
                ])),
            copy_hit s.bytes (pe_of active i) source me dest nreduce j lt,
          )
          refl

  got_elsewhere :
      (i : ℕ) (rest : List Act) (s : System) (q x : ℕ)
      → q ≢ me
      → (got i rest s).bytes q x ≡ s.bytes q x
  unfolding perform
  got_elsewhere i rest s q x ne =
      combined_elsewhere (fetched i s) me op tmp_array tmp_array dest nreduce q x ne
      ∙ copy_other s.bytes (pe_of active i) source me dest nreduce q x (inl (λ e. ne (sym e)))

  got_todo : (i : ℕ) (rest : List Act) (s : System) → (got i rest s).todo me ≡ rest
  unfolding perform
  got_todo i rest s =
      set_at_same (set_at s.todo me (reduce op tmp_array tmp_array dest nreduce ∷ rest)) me rest

  -- What the rounds leave behind them.
  abbrev Gathers : ℕ → ℕ → List Act → List Act → System → Type 0
  Gathers left i tail rest s =
      (t : System) × (Listed (gather op dest source nreduce tmp_array active me left i ++ tail) s
        ≡ Listed tail t)
      × (t.todo me ≡ tail ++ rest)
      × ((j : ℕ)
          → j < nreduce
          → t.bytes me (tmp_array + j)
            ≡ fold_members op (λ k. s.bytes (pe_of active k) (source + j)) left i
                (s.bytes me (tmp_array + j)))

  gather-Gathers :
      (left i : ℕ) (tail rest : List Act) (s : System)
      → ((k : ℕ) → i ≤ k → pe_of active k ≢ me)
      → s.todo me ≡ gather op dest source nreduce tmp_array active me left i ++ (tail ++ rest)
      → Gathers left i tail rest s
  unfolding gather fold_members
  gather-Gathers zero i tail rest s far e = (s, refl, e, λ j lt. refl)
  gather-Gathers (suc left) i tail rest s far e =
      let after =
        gather op dest source nreduce tmp_array active me left (suc i) ++ (tail ++ rest) in
      let g = got i after s in
      let (t, runs, todo, cells) =
        gather-Gathers left (suc i) tail rest g (λ k le. far k (omega arith))
          (got_todo i after s) in
      (
        t,
        ap
              (run (
                turns_of me (
                  length (gather op dest source nreduce tmp_array active me left (suc i) ++ tail))))
              (one_round i after s e)
            ∙ runs,
        todo,
        λ j lt.
            cells j lt
            ∙ fold_members-agree op _ _ left (suc i) _ (λ k le.
              got_elsewhere i after s (pe_of active k) (source + j) (far k (omega arith)))
            ∙ ap (fold_members op (λ k. s.bytes (pe_of active k) (source + j)) left (suc i))
                (got_tmp i after s j lt),
      )

-- Member 0 alone does its part of the linear reduction, from a state in which it is about to: with
-- a `tmp_array` apart from `dest`, it goes on to what follows, and each element of its `dest` is that
-- of its own `source`, combined with those of the members 1 up to the last in this order.
pub reduce_root_folds :
    (op : ℕ → ℕ → ℕ) (dest source nreduce tmp_array : ℕ) (active : ActiveSet) (rest : List Act)
    (s : System)
    → (tmp_array + nreduce ≤ dest) ⊎ (dest + nreduce ≤ tmp_array)
    → s.todo (pe_of active 0)
      ≡ reduce_root op dest source nreduce tmp_array active (pe_of active 0) ++ rest
    → let me = pe_of active 0 in
      let t =
        run (turns_of me (length (reduce_root op dest source nreduce tmp_array active me))) s in
      (t.todo me ≡ rest)
      × ((j : ℕ)
          → j < nreduce
          → t.bytes me (dest + j)
            ≡ fold_members op
                (λ k. s.bytes (pe_of active k) (source + j))
                (active.pe_size - 1)
                1
                (s.bytes me (source + j)))
unfolding reduce_root perform
reduce_root_folds op dest source nreduce tmp_array active rest s apart e =
    let me = pe_of active 0 in
    let n = active.pe_size - 1 in
    let last = memcpy dest tmp_array nreduce in
    let rounds = gather op dest source nreduce tmp_array active me n 1 in
    let s1 = perform me (memcpy tmp_array source nreduce) (rounds ++ (last ∷ [] ++ rest)) s in
    let begun =
      move_on op dest source nreduce tmp_array active me apart (memcpy tmp_array source nreduce)
        (rounds ++ (last ∷ [] ++ rest)) s
        (e ∙ ap (◌∷◌ (memcpy tmp_array source nreduce)) (append_assoc rounds (last ∷ []) rest)) in
    let (t, runs, todo, cells) =
      gather-Gathers op dest source nreduce tmp_array active me apart n 1 (last ∷ []) rest s1
        (λ k le h. far k le (pe_of-injective active k 0 h))
        (set_at_same s.todo me (rounds ++ (last ∷ [] ++ rest))) in
    let ended = move_on op dest source nreduce tmp_array active me apart last rest t todo in
    let whole = ap (run (turns_of me (length (rounds ++ (last ∷ []))))) begun ∙ runs ∙ ended in
    (
      ap (λ u. u.todo me) whole ∙ set_at_same t.todo me rest,
      λ j lt.
          ap (λ u. u.bytes me (dest + j)) whole
          ∙ copy_hit t.bytes me tmp_array me dest nreduce j lt
          ∙ cells j lt
          ∙ fold_members-agree op _ _ n 1 _ (λ k le.
            copy_other s.bytes me source me tmp_array nreduce (pe_of active k) (source + j)
              (inl (λ h. far k le (pe_of-injective active k 0 (sym h)))))
          ∙ ap (fold_members op (λ k. s.bytes (pe_of active k) (source + j)) n 1)
              (copy_hit s.bytes me source me tmp_array nreduce j lt),
    )
  where
    far : (k : ℕ) → 1 ≤ k → k ≢ 0
    far k le h = omega arith
