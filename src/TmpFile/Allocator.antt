-- ===== src/TmpFile/Allocator.antt =====
-- gst/tmpfile/gsttmpfileallocator.c: memory in temporary files, and gst_fdpay_get_fd_memory of
-- gstfdpay.c, which copies what is not in a file yet. What mkostemp, fallocate, write and the
-- mapping of a buffer answer are parameters.
pub mod Bounds
pub mod Copied
use pulsevideo.Base.{
  ℕ, zero, suc, ◌+◌, ◌*◌, ◌/◌, ◌%◌, Bool, true, false, not, if◌then◌else◌, option_case, Option,
  none, some, List, [], ◌∷◌, length, add_u64, two_64,
}
use pulsevideo.TmpFile.{FdMemory, Write, copy_loop}

-- PAGE_ALIGN
abbrev pub page_align : ℕ
page_align = 4095

-- pad, on gsize: the division by `align + 1` is on the word that the sum wraps to.
unfoldable pub pad : ℕ → ℕ → ℕ
pad off align = add_u64 off align / (align + 1) * (align + 1) % two_64

-- GstAllocationParams
pub record Params : Type 0 where
  pub align : ℕ
  pub prefix : ℕ
  pub padding : ℕ

-- The size of the file of an allocation.
unfoldable pub file_size : ℕ → Params → ℕ
file_size size params =
    pad (add_u64 (add_u64 size (pad params.prefix params.align)) params.padding) page_align

-- gst_tmpfile_allocator_alloc: the memory, after gst_memory_resize. `fd` is what tmpfile_create
-- returned, if it is no error.
pub alloc : Option ℕ → Bool → ℕ → Params → Option FdMemory
alloc none allocates size params = none
alloc (some fd) allocates size params =
    if not allocates
    then none
    else some (record {
      fd = fd;
      maxsize = file_size size params;
      offset = pad params.prefix params.align;
      size = size;
    })

-- gst_tmpfile_allocator_copy_alloc: the memory and what its file holds.
pub copy_alloc : Option ℕ → List Write → List ℕ → Option (FdMemory × List ℕ)
copy_alloc none writes bytes = none
copy_alloc (some fd) writes bytes = option_case (copy_loop writes bytes []) none (λ file.
    some (record { fd = fd; maxsize = length bytes; offset = 0; size = length bytes }, file))

-- A GstMemory of a buffer: of the fd allocator, with what its file holds, or of another one.
pub data Memory : Type 0 where
  fd_memory : FdMemory → List ℕ → Memory
  plain_memory : List ℕ → Memory

-- The copy of the buffer's bytes, where it can be mapped.
abbrev pub copied : Option (List ℕ) → Option ℕ → List Write → Option (FdMemory × List ℕ)
copied mapped fd writes = option_case mapped none (λ bytes. copy_alloc fd writes bytes)

-- gst_fdpay_get_fd_memory: the memory to send and what its file holds. `mapped` are the bytes that
-- gst_buffer_map gives.
pub get_fd_memory :
    List Memory → Option (List ℕ) → Option ℕ → List Write → Option (FdMemory × List ℕ)
get_fd_memory (fd_memory m file ∷ []) mapped fd writes = some (m, file)
get_fd_memory _ mapped fd writes = copied mapped fd writes
