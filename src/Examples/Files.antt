-- ===== src/Examples/Files.antt =====
-- Examples of the messages between fdpay and fddepay, and of the copy into a file.
use pulsevideo.Base.{
  ℕ, ◌+◌, ◌-◌, ◌^◌, max, ◌≡◌, refl, true, Option, none, some, List, [], ◌∷◌, two_64, arith,
}
use pulsevideo.TmpFile.{
  FdMessage, FdMemory, Timing, Packet, pushed, encode, pay, received_pts, depay, interrupted, wrote,
}
use pulsevideo.TmpFile.Allocator.{Params, alloc, plain_memory, get_fd_memory}
use pulsevideo.TmpFile.Allocator.Bounds.{IsInFile, alloc-IsInFile}
use pulsevideo.TmpFile.Allocator.Copied.{memory_bytes, depay-pay-get_fd_memory}
use pulsevideo.TmpFile.Copy.{taken}
use pulsevideo.TmpFile.Negotiation.{ClockCalls, Monotonic, Calibration}
use pulsevideo.TmpFile.RoundTrip.{Agrees, depay-overflow}

-- A clock that is the monotonic clock, and a segment from 0 on.
abbrev plain : Timing
plain = record {
  format_is_time = true;
  base_time = 1000;
  to_running_time = λ x. x;
  to_position = λ x. x;
  unadjust = λ x. x;
  adjust = λ x. x;
}

abbrev message : FdMessage
message = record { capture_timestamp = 1500; offset = 4096; size = 300 }

abbrev memory : FdMemory
memory = record { fd = 7; maxsize = 8192; offset = 4096; size = 300 }

abbrev file_sizes : ℕ → Option ℕ
file_sizes fd = some 8192

plain-Agrees : Agrees plain 500
plain-Agrees = record {
  time = refl;
  valid = refl;
  inverse = refl;
  position = refl;
  small = omega arith;
  word = omega arith;
}

abbrev beyond : FdMessage
beyond = record { capture_timestamp = 0; offset = 2 ^ 62; size = two_64 - 2 ^ 62 + 1 }

depay-overflow_example :
    depay plain file_sizes (record { bytes = encode beyond; fds = some (7 ∷ []); pts = 0 })
    ≡ some (
      record {
        fd = 7;
        maxsize = 2 ^ 62 + (two_64 - 2 ^ 62 + 1) - two_64;
        offset = 2 ^ 62;
        size = two_64 - 2 ^ 62 + 1;
      },
      received_pts plain 0 0,
    )
depay-overflow_example =
    depay-overflow plain file_sizes beyond 7 8192 0 (omega arith) (omega arith) (omega arith)
      (omega arith) refl (omega arith) (omega arith) (omega arith)

-- A buffer of two memories, for which fstat tells the size of the file that the copy makes.
abbrev small_files : ℕ → Option ℕ
small_files fd = some 3

depay-pay-get_fd_memory_example :
    (m : FdMemory) × (file : List ℕ) × (p : Packet) × (n : FdMemory) × (get_fd_memory
        (plain_memory (1 ∷ 2 ∷ []) ∷ plain_memory (3 ∷ []) ∷ [])
        (some (1 ∷ 2 ∷ 3 ∷ []))
        (some 9)
        (wrote 1 ∷ interrupted ∷ wrote 2 ∷ [])
      ≡ some (m, file))
    × (pay plain true true (some m) 500 ≡ pushed p)
    × (depay plain small_files p ≡ some (n, 500))
    × (n.fd ≡ m.fd)
    × (memory_bytes n file ≡ 1 ∷ 2 ∷ 3 ∷ [])
unfolding taken
depay-pay-get_fd_memory_example =
    depay-pay-get_fd_memory plain 500 plain-Agrees small_files 9
      (wrote 1 ∷ interrupted ∷ wrote 2 ∷ [])
      (plain_memory (1 ∷ 2 ∷ []) ∷ plain_memory (3 ∷ []) ∷ []) (omega arith) (refl, omega arith)

abbrev page_params : Params
page_params = record { align = 15; prefix = 5; padding = 7 }

alloc-IsInFile_example :
    (m : FdMemory) × (alloc (some 9) true 300 page_params ≡ some m) × IsInFile 300 page_params m
alloc-IsInFile_example = alloc-IsInFile 9 300 page_params (omega arith)

-- An element whose own clock shows 50 when the clock of the pipeline shows 1000.
abbrev fifty : ClockCalls
fifty = record {
  set_master = λ c. true;
  internal_time = 50;
  get_time = λ c. 1000;
  parent_set_clock = λ c. true;
}

abbrev unset : Monotonic
unset = record {
  master = none;
  calibration = record { internal = 0; external = 0; num = 1; denom = 1 };
}

-- A clock that is followed at the rate 1.
abbrev shift : Calibration → ℕ → ℕ → ℕ
shift c last x = max last (c.external + (x - c.internal))

abbrev unshift : Calibration → ℕ → ℕ
unshift c x = c.internal + (x - c.external)
