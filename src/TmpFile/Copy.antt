-- ===== src/TmpFile/Copy.antt =====
-- copy_alloc writes all the bytes, whatever the writes are cut into.
use pulsevideo.Base.{
  ℕ, ◌+◌, ◌≤◌, ◌≡◌, sym, ap, ◌∙◌, some, List, [], ◌∷◌, ◌++◌, append-nil, append_assoc, length, take,
  drop, take-append-drop, length-drop, arith,
}
use pulsevideo.TmpFile.{Write, interrupted, write_failed, wrote, copy_loop}

-- The bytes that the writes take, if none of them fails.
unfoldable pub taken : List Write → ℕ
taken [] = 0
taken (interrupted ∷ ws) = taken ws
taken (write_failed ∷ ws) = 0
taken (wrote n ∷ ws) = n + taken ws

-- Where the writes take at least as many bytes as there are before one fails, the loop ends, and the
-- file holds what it held and all the bytes after it, in order.
pub copy_loop_lem :
    (ws : List Write) (bytes file : List ℕ)
    → length bytes ≤ taken ws
    → copy_loop ws bytes file ≡ some (file ++ bytes)
unfolding copy_loop taken
copy_loop_lem ws [] file h = ap some (sym (append-nil file))
copy_loop_lem [] (b ∷ bs) file h = absurd (omega arith)
copy_loop_lem (interrupted ∷ ws) (b ∷ bs) file h = copy_loop_lem ws (b ∷ bs) file h
copy_loop_lem (write_failed ∷ ws) (b ∷ bs) file h = absurd (omega arith)
copy_loop_lem (wrote n ∷ ws) (b ∷ bs) file h =
    copy_loop_lem ws (drop n (b ∷ bs)) (file ++ take n (b ∷ bs))
      (omega (arith, length-drop n (b ∷ bs)))
    ∙ ap some (
        append_assoc file (take n (b ∷ bs)) (drop n (b ∷ bs))
        ∙ ap (λ x. file ++ x) (take-append-drop n (b ∷ bs)))
