-- ===== src/TmpFile.antt =====
-- gst/tmpfile: the message of wire-protocol.h, the transform_ip of gstfdpay.c and of gstfddepay.c,
-- and the copy of gsttmpfileallocator.c. File descriptors are numbers. The clock, the segment and
-- fstat are parameters.
pub mod Wire
pub mod RoundTrip
pub mod Copy
pub mod Allocator
pub mod Negotiation
use pulsevideo.Base.{
  ℕ, zero, suc, ◌+◌, ◌-◌, ◌*◌, ◌/◌, ◌%◌, Bool, true, false, not, ◌&&◌, if◌then◌else◌, option_case,
  ◌==◌, ltb, min, Option, none, some, List, [], ◌∷◌, ◌++◌, length, take, drop, add_u64, two_63,
}
use pulsevideo.MultiHandle.Types.{clock_time_none}

-- FDMessage
pub record FdMessage : Type 0 where
  pub capture_timestamp : ℕ
  pub offset : ℕ
  pub size : ℕ

-- memcpy of a guint64 on a little-endian machine, and back.
pub to_bytes : ℕ → ℕ → List ℕ
to_bytes zero x = []
to_bytes (suc n) x = (x % 256) ∷ to_bytes n (x / 256)

pub from_bytes : List ℕ → ℕ
from_bytes [] = 0
from_bytes (b ∷ bs) = b + 256 * from_bytes bs

pub encode : FdMessage → List ℕ
encode m = to_bytes 8 m.capture_timestamp ++ to_bytes 8 m.offset ++ to_bytes 8 m.size

-- gst_buffer_extract of sizeof (FDMessage) bytes.
pub decode : List ℕ → FdMessage
decode bytes = record {
  capture_timestamp = from_bytes (take 8 bytes);
  offset = from_bytes (take 8 (drop 8 bytes));
  size = from_bytes (take 8 (drop 16 bytes));
}

-- A GstMemory of the fd allocator.
pub record FdMemory : Type 0 where
  pub fd : ℕ
  pub maxsize : ℕ
  pub offset : ℕ
  pub size : ℕ

-- What the two elements ask of the clock, the segment and the base class.
pub record Timing : Type 0 where
  pub format_is_time : Bool
  pub base_time : ℕ
  pub to_running_time : ℕ → ℕ
  pub to_position : ℕ → ℕ
  pub unadjust : ℕ → ℕ
  pub adjust : ℕ → ℕ

-- A buffer between the two elements: its bytes, the descriptors of its control message if it has
-- one, and its PTS.
pub record Packet : Type 0 where
  pub bytes : List ℕ
  pub fds : Option (List ℕ)
  pub pts : ℕ

-- How transform_ip of fdpay ends: GST_FLOW_OK with the buffer, GST_FLOW_ERROR, or a read through the
-- null pointer that gst_fdpay_get_fd_memory returned.
pub data Paid : Type 0 where
  pushed : Packet → Paid
  failed : Paid
  null_pointer : Paid

-- gst_memory_resize of a memory that begins at 0: the offset is a gssize, and the memory stays as it is
-- where that is negative.
pub memory_resize : ℕ → ℕ → FdMemory → FdMemory
memory_resize offset size m =
    if ltb offset two_63 then record m { offset = offset; size = size } else m

module _ (t : Timing) where
  -- The capture timestamp of a buffer with this PTS.
  pub capture_timestamp_of : ℕ → ℕ
  capture_timestamp_of pts =
      if t.format_is_time && not (pts == clock_time_none)
      then t.unadjust (add_u64 t.base_time (t.to_running_time pts))
      else 0

  -- gst_fdpay_transform_ip, from the result of gst_fdpay_get_fd_memory on. `appends` is the result of
  -- g_unix_fd_message_append_fd, `faultless` that of inject_fault.
  pub pay : Bool → Bool → Option FdMemory → ℕ → Paid
  pay appends faultless none pts = null_pointer
  pay appends faultless (some m) pts =
      let message : FdMessage = record {
        capture_timestamp = capture_timestamp_of pts;
        offset = m.offset;
        size = m.size;
      } in
      if not appends
      then failed
      else if not faultless
      then failed
      else pushed (record { bytes = encode message; fds = some (m.fd ∷ []); pts = pts })

  -- The PTS of a received buffer.
  pub received_pts : ℕ → ℕ → ℕ
  received_pts timestamp pts =
      let clock_time = t.adjust timestamp in
      let running_time = if ltb t.base_time clock_time then clock_time - t.base_time else 0 in
      if t.format_is_time then t.to_position running_time else pts

  -- The memory of gst_fd_allocator_alloc and gst_memory_resize, unless the file is too small.
  pub depay_fd : (ℕ → Option ℕ) → FdMessage → ℕ → ℕ → Option (FdMemory × ℕ)
  depay_fd st_size m fd pts = option_case (st_size fd) none (λ file_size.
      if ltb file_size (add_u64 m.offset m.size)
      then none
      else some (
        memory_resize m.offset m.size (record {
          fd = fd;
          maxsize = add_u64 m.offset m.size;
          offset = 0;
          size = add_u64 m.offset m.size;
        }),
        received_pts m.capture_timestamp pts,
      ))

  pub depay_fds : (ℕ → Option ℕ) → FdMessage → List ℕ → ℕ → Option (FdMemory × ℕ)
  depay_fds st_size m (fd ∷ []) pts = depay_fd st_size m fd pts
  depay_fds st_size m fds pts = none

  -- gst_fddepay_transform_ip: the memory and the PTS of the buffer, or `none` for GST_FLOW_ERROR.
  -- `st_size` is what fstat says of a descriptor.
  pub depay : (ℕ → Option ℕ) → Packet → Option (FdMemory × ℕ)
  depay st_size p =
      if not (length p.bytes == 24)
      then none
      else option_case p.fds none (λ fds. depay_fds st_size (decode p.bytes) fds p.pts)

-- What write answers: EINTR, another error, or a number of bytes.
pub data Write : Type 0 where
  interrupted : Write
  write_failed : Write
  wrote : ℕ → Write

-- The while loop of gst_tmpfile_allocator_copy_alloc, with the bytes that are left and the file. A
-- device without a further answer is out of order.
pub copy_loop : List Write → List ℕ → List ℕ → Option (List ℕ)
copy_loop ws [] file = some file
copy_loop [] (b ∷ bs) file = none
copy_loop (interrupted ∷ ws) (b ∷ bs) file = copy_loop ws (b ∷ bs) file
copy_loop (write_failed ∷ ws) (b ∷ bs) file = none
copy_loop (wrote n ∷ ws) (b ∷ bs) file = copy_loop ws (drop n (b ∷ bs)) (file ++ take n (b ∷ bs))
