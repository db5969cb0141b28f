-- ===== src/TmpFile/Allocator/Copied.antt =====
-- What fdpay sends of a buffer is the buffer.
use pulsevideo.Base.{
  ℕ, ◌+◌, ◌≤◌, ◌≡◌, refl, ap, sym, true, option_case, Option, none, some, List, [], ◌∷◌, ◌++◌,
  length, take, take_all, drop, append-nil, two_63, ◌<◌, arith,
}
use pulsevideo.TmpFile.{FdMemory, Write, Timing, Packet, pay, depay, pushed}
use pulsevideo.TmpFile.RoundTrip.{Agrees, depay-pay}
use pulsevideo.TmpFile.Copy.{taken, copy_loop_lem}
use pulsevideo.TmpFile.Allocator.{
  Memory, fd_memory, plain_memory, copy_alloc, copied, get_fd_memory,
}

-- The bytes of a memory: those of its part of the file.
abbrev pub memory_bytes : FdMemory → List ℕ → List ℕ
memory_bytes m file = take m.size (drop m.offset file)

abbrev pub bytes_of : Memory → List ℕ
bytes_of (fd_memory m file) = memory_bytes m file
bytes_of (plain_memory bytes) = bytes

copy_alloc-all :
    (fd : ℕ) (ws : List Write) (bytes : List ℕ)
    → length bytes ≤ taken ws
    → copy_alloc (some fd) ws bytes
      ≡ some (record { fd = fd; maxsize = length bytes; offset = 0; size = length bytes }, bytes)
unfolding copy_alloc
copy_alloc-all fd ws bytes h =
    ap
      (λ o. option_case o none (λ file.
        some (record { fd = fd; maxsize = length bytes; offset = 0; size = length bytes }, file)))
      (copy_loop_lem ws bytes [] h)

abbrev pub all_bytes : List Memory → List ℕ
all_bytes [] = []
all_bytes (m ∷ ms) = bytes_of m ++ all_bytes ms

-- Where the bytes to send end up: the memory's own file, or the new file `fd`.
abbrev pub Backed : (ℕ → Option ℕ) → ℕ → List Memory → Type 0
Backed st_size fd (fd_memory m file ∷ []) =
    (st_size m.fd ≡ some (length file)) × (m.offset + m.size ≤ length file) × (length file < two_63)
Backed st_size fd [] = st_size fd ≡ some 0
Backed st_size fd (plain_memory bytes ∷ ms) =
    (st_size fd ≡ some (length (bytes ++ all_bytes ms))) × (length (bytes ++ all_bytes ms) < two_63)
Backed st_size fd (fd_memory m file ∷ n ∷ ms) =
    (st_size fd ≡ some (length (memory_bytes m file ++ all_bytes (n ∷ ms))))
    × (length (memory_bytes m file ++ all_bytes (n ∷ ms)) < two_63)

-- The memory to send holds the bytes, in a file whose size is known.
record IsSent (st_size : ℕ → Option ℕ) (bytes : List ℕ) (o : Option (FdMemory × List ℕ))
    : Type 0 where
  memory : FdMemory
  file : List ℕ
  found : o ≡ some (memory, file)
  holds : memory_bytes memory file ≡ bytes
  known : st_size memory.fd ≡ some (length file)
  inside : memory.offset + memory.size ≤ length file
  small : length file < two_63

copied-IsSent :
    (st_size : ℕ → Option ℕ) (fd : ℕ) (ws : List Write) (bytes : List ℕ)
    → length bytes ≤ taken ws
    → st_size fd ≡ some (length bytes)
    → length bytes < two_63
    → IsSent st_size bytes (copied (some bytes) (some fd) ws)
copied-IsSent st_size fd ws bytes h k l = record {
  memory = record { fd = fd; maxsize = length bytes; offset = 0; size = length bytes };
  file = bytes;
  found = copy_alloc-all fd ws bytes h;
  holds = take_all (length bytes) bytes (omega arith);
  known = k;
  inside = omega arith;
  small = l;
}

get_fd_memory-IsSent :
    (st_size : ℕ → Option ℕ) (fd : ℕ) (ws : List Write) (ms : List Memory)
    → length (all_bytes ms) ≤ taken ws
    → Backed st_size fd ms
    → IsSent st_size (all_bytes ms) (get_fd_memory ms (some (all_bytes ms)) (some fd) ws)
unfolding get_fd_memory
get_fd_memory-IsSent st_size fd ws [] h b = copied-IsSent st_size fd ws [] h b (omega arith)
get_fd_memory-IsSent st_size fd ws (fd_memory m file ∷ []) h b = record {
  memory = m;
  file = file;
  found = refl;
  holds = sym (append-nil _);
  known = b.0;
  inside = b.1;
  small = b.2;
}
get_fd_memory-IsSent st_size fd ws (plain_memory bytes ∷ ms) h b =
    copied-IsSent st_size fd ws _ h b.0 b.1
get_fd_memory-IsSent st_size fd ws (fd_memory m file ∷ n ∷ ms) h b =
    copied-IsSent st_size fd ws _ h b.0 b.1

-- Whatever memories a buffer consists of, the message that fdpay sends for it leads fddepay to a
-- part of a file that holds the bytes of the buffer, in order, at the PTS of the buffer: where the
-- buffer can be mapped, the writes of a copy take its bytes, fstat tells the size of the file,
-- below 2 ^ 63, a memory lies in its file, and the clock and the segment agree on the PTS.
pub depay-pay-get_fd_memory :
    (t : Timing) (pts : ℕ) (agrees : Agrees t pts) (st_size : ℕ → Option ℕ) (fd : ℕ)
    (ws : List Write) (ms : List Memory)
    → length (all_bytes ms) ≤ taken ws
    → Backed st_size fd ms
    → (m : FdMemory) × (file : List ℕ) × (p : Packet) × (n : FdMemory) × (get_fd_memory ms
          (some (all_bytes ms))
          (some fd)
          ws
        ≡ some (m, file))
      × (pay t true true (some m) pts ≡ pushed p)
      × (depay t st_size p ≡ some (n, pts))
      × (n.fd ≡ m.fd)
      × (memory_bytes n file ≡ all_bytes ms)
depay-pay-get_fd_memory t pts agrees st_size fd ws ms h b =
    let sent = get_fd_memory-IsSent st_size fd ws ms h b in
    let inside = sent.inside in
    let small = sent.small in
    let sent_on =
      depay-pay t pts agrees st_size sent.memory (length sent.file) sent.known inside
        (omega (arith, inside, small)) (omega (arith, inside, small)) in
    (sent.memory, sent.file, sent_on.0, _, sent.found, sent_on.1, sent_on.2, refl, sent.holds)
