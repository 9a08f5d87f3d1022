-- ===== src/Shcoll/Fcollect/Within.antt =====
-- osss-ucx/src/shcoll/src: lists of actions that write within a range of addresses.
use paw.Prelude.{ℕ, ◌+◌, ◌≤◌, List, [], ◌∷◌, ◌++◌}
use paw.Shcoll.{Act, putmem_nbi, memcpy, rotate, reduce}

-- Every put and every local copy of the list writes within the `size` bytes from `first` on.
abbrev pub WithinAct : ℕ → ℕ → Act → Type 0
WithinAct first size (putmem_nbi dest source nbytes pe) =
    (first ≤ dest) × (dest + nbytes ≤ first + size)
WithinAct first size (memcpy dest source nbytes) = (first ≤ dest) × (dest + nbytes ≤ first + size)
WithinAct first size (rotate arr length dist) =
    (first ≤ arr) × (arr + length ≤ first + size) × (dist ≤ length)
WithinAct first size (reduce op dest src1 src2 nreduce) =
    (first ≤ dest) × (dest + nreduce ≤ first + size)
WithinAct first size _ = Unit

abbrev pub Within : ℕ → ℕ → List Act → Type 0
Within first size [] = Unit
Within first size (a ∷ list) = WithinAct first size a × Within first size list

pub Within-append :
    (first size : ℕ) (xs ys : List Act)
    → Within first size xs
    → Within first size ys
    → Within first size (xs ++ ys)
Within-append first size [] ys h k = k
Within-append first size (x ∷ xs) ys h k = (h.0, Within-append first size xs ys h.1 k)
