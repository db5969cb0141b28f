-- ===== src/TmpFile/Allocator/Bounds.antt =====
-- The memory of an allocation lies in its file.
use pulsevideo.Base.{
  ℕ, ◌+◌, ◌*◌, ◌/◌, ◌%◌, ◌<◌, ◌≤◌, ◌≡◌, refl, ap, ◌∙◌, true, some, two_64, add_u64, arith,
}
use native.Mathlib.Nat.{mod-eq_of_lt, div-mul-le_self, lt-div-mul-add}
use pulsevideo.TmpFile.{FdMemory}
use pulsevideo.TmpFile.Allocator.{Params, page_align, pad, file_size, alloc}

-- Where nothing wraps around, a padded offset is a multiple of the alignment.
pad_value :
    (off align : ℕ)
    → off + align < two_64
    → pad off align ≡ (off + align) / (align + 1) * (align + 1)
unfolding pad add_u64
pad_value off align h =
    let fits = mod-eq_of_lt h in
    let below = div-mul-le_self (off + align) (align + 1) in
    ap (λ x. x / (align + 1) * (align + 1) % two_64) fits ∙ mod-eq_of_lt (omega (arith, h, below))

pad_range :
    (off align : ℕ) → off + align < two_64 → (off ≤ pad off align) × (pad off align ≤ off + align)
pad_range off align h =
    let value = pad_value off align h in
    let below = div-mul-le_self (off + align) (align + 1) in
    let above = lt-div-mul-add {a = off + align} {b = align + 1} (omega arith) in
    (omega (arith, value, above), omega (arith, value, below))

-- A memory with room in front of it for the prefix, at a multiple of the alignment, and room behind it
-- for the padding, in a file of whole pages.
pub record IsInFile (size : ℕ) (params : Params) (m : FdMemory) : Type 0 where
  pub sized : m.size ≡ size
  pub in_front : params.prefix ≤ m.offset
  pub behind : m.offset + size + params.padding ≤ m.maxsize
  pub aligned : (k : ℕ) × (m.offset ≡ k * (params.align + 1))
  pub whole_pages : (k : ℕ) × (m.maxsize ≡ k * 4096)

-- An allocation whose size, prefix, alignment and padding with a page leave room in a 64 bit word
-- lies in its file: aligned, behind its prefix and before its padding, in a file of whole pages.
pub alloc-IsInFile :
    (fd size : ℕ) (params : Params)
    → size + params.prefix + params.align + params.padding + page_align < two_64
    → (m : FdMemory) × (alloc (some fd) true size params ≡ some m) × IsInFile size params m
unfolding alloc file_size add_u64
alloc-IsInFile fd size params h =
    let front = pad_range params.prefix params.align (omega (arith, h)) in
    let low = front.0 in
    let high = front.1 in
    let one =
      mod-eq_of_lt {n = size + pad params.prefix params.align} {m = two_64}
        (omega (arith, h, high)) in
    let two =
      mod-eq_of_lt {n = size + pad params.prefix params.align + params.padding} {m = two_64}
        (omega (arith, h, high)) in
    let needed : ℕ = size + pad params.prefix params.align + params.padding in
    let whole : file_size size params ≡ pad needed page_align =
      ap (λ x. pad ((x + params.padding) % two_64) page_align) one
      ∙ ap (λ x. pad x page_align) two in
    let pages = pad_range needed page_align (omega (arith, h, high)) in
    let enough = pages.0 in
    (
      _,
      refl,
      record {
        sized = refl;
        in_front = low;
        behind = omega (arith, enough, whole);
        aligned = (_, pad_value params.prefix params.align (omega (arith, h)));
        whole_pages = (_, whole ∙ pad_value needed page_align (omega (arith, h, high)));
      },
    )
