-- ===== src/Comms/Ops/Tests.antt =====
-- An instance of the UCX parameter in which requests stay under way for two progress calls, the
-- promises of the manual proved of it, and the operations of a context run on it.
use paw.Prelude.{ℕ, suc, ◌+◌, ◌*◌, ◌%◌, ◌^◌, ◌≤◌, false, if◌then◌else◌, ◌&&◌, ◌==◌, leb}
use paw.Comms.Address.{translate_address}
use paw.Comms.Address.Tests.{two_pes}
use paw.Comms.Ucx.{
  Ucx, ucs_ok, ucs_inprogress, ucs_err, completed, pending, AtomicOp, op_cswap, apply,
}
use paw.Comms.Ops.{Context}
use paw.Comms.Ops.Effect.{Effect}

-- Words by PE and address, buffers by address, and a count of progress calls.
record Memory : Type 0 where
  words : ℕ → ℕ → ℕ
  buffers : ℕ → ℕ
  clock : ℕ

abbrev set_word : Memory → ℕ → ℕ → ℕ → Memory
set_word m pe addr v = record m {
  words = λ q a. if (q == pe) && (a == addr) then v else m.words q a;
}

abbrev set_buffer : Memory → ℕ → ℕ → Memory
set_buffer m addr v = record m { buffers = λ a. if a == addr then v else m.buffers a }

abbrev word_at : Memory → ℕ → ℕ → ℕ → ℕ
word_at m pe addr size = m.words pe addr % 2 ^ (8 * size)

abbrev fetch : Memory → ℕ → AtomicOp → ℕ → ℕ → ℕ → ℕ → Memory
fetch m pe op value retp size raddr =
    set_buffer
      (set_word m pe raddr
        (apply op size (word_at m pe raddr size) value (m.buffers retp % 2 ^ (8 * size))))
      retp (word_at m pe raddr size)

abbrev ucx : Ucx
ucx = record {
  World = Memory;
  Later = λ m m'. m.clock ≤ m'.clock;
  Ep = ℕ;
  Rkey = ℕ;
  word = word_at;
  buffer = λ m addr size. m.buffers addr % 2 ^ (8 * size);
  fill_buffer = λ m addr v size. set_buffer m addr (v % 2 ^ (8 * size));
  peer = λ ep. ep;
  atomic_post = λ m pe op value size raddr key.
      (ucs_ok, set_word m pe raddr (apply op size (word_at m pe raddr size) value 0));
  atomic_fetch_nb = λ m pe op value retp size raddr key.
      (pending (m.clock + 2), fetch m pe op value retp size raddr);
  put_nb = λ m pe src n raddr key. (completed, set_word m pe raddr (m.buffers src));
  get_nb = λ m pe dest n raddr key. (completed, set_buffer m dest (m.words pe raddr));
  put_nbi = λ m pe src n raddr key. (ucs_inprogress, set_word m pe raddr (m.buffers src));
  get_nbi = λ m pe dest n raddr key. (ucs_inprogress, set_buffer m dest (m.words pe raddr));
  worker_fence = λ m. (ucs_ok, m);
  worker_flush_nb = λ m. (pending (m.clock + 1), m);
  worker_progress = λ m. record m { clock = suc m.clock };
  request_check_status = λ m h. if leb h m.clock then ucs_ok else ucs_inprogress;
  request_cancel = λ m r. m;
  request_free = λ m h. m;
  rkey_ptr = λ key addr. (ucs_err 1, 0);
}

-- PE 1 keeps 7 at 5100, which PE 0 knows as 1100; the buffer at 8 is for results.
abbrev memory : Memory
memory = record {
  words = λ pe a. if (pe == 1) && (a == 5100) then 7 else 0;
  buffers = λ a. 0;
  clock = 0;
}

abbrev context : Context ucx
context = record { eps = λ pe. pe; racc = λ r pe. r; nostore = false }

abbrev later : Memory → Memory
later m = record m { clock = suc (suc m.clock) }

-- The word is 7, as expected: 9 goes in.
abbrev cswapped_memory : Memory
cswapped_memory = later (fetch (set_buffer memory 8 9) 1 op_cswap 7 8 8 5100)

abbrev target : ℕ
target = translate_address two_pes 1100 1
