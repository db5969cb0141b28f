-- ===== src/MultiSocket/Stream.antt =====
-- The bytes that a client gets: what the socket takes, and what is left, is what was due.
pub mod Conserve
pub mod Queued
pub mod Fed
pub mod Follow
pub mod Flush
use pulsevideo.Base.{
  ℕ, zero, suc, ◌+◌, ◌-◌, ◌<◌, ◌≤◌, ◌≡◌, refl, sym, ap, ◌∙◌, subst, Bool, true, false, not, ◌&&◌,
  if◌then◌else◌, if_cases, inl, inr, Bool-cases, option_case, option_cases, ◌==◌, ltb, Option, none,
  some, List, [], ◌∷◌, ◌++◌, append-nil, append_assoc, length, take, drop, get_elem?,
  get_elem?-total, drop-drop, take-append-drop, take_all, length-drop, ℤ, pos, negsuc, minus_one,
  ◌-ℤ◌, ◌≤ℤ◌, ◌<ℤ◌, eqb_ℤ, min, arith,
}
use pulsevideo.MultiHandle.Types.{
  Client, Sink, Buffer, Caps, CapsOps, is_flushing, removed, closed, error,
}
use pulsevideo.MultiHandle.Queue.{client_queue_buffer, send_streamheader, streamheader_changed}
use pulsevideo.MultiSocket.{
  Answer, accepted, would_block, reset, broken, Pick, ready, idle, flushed, out_of_range, pick_case,
  at_index, without_source, take_buffer, grab, place, pick_by, pick, Written, ended, bytes_left,
  rest, to_send, after_write, before, write_loop,
}

unfoldable pub bytes_of : List Buffer → List ℕ
bytes_of [] = []
bytes_of (b ∷ bs) = b.contents ++ bytes_of bs

-- The bytes of the buffers that a client is working on.
unfoldable pub pending : ℕ → List Buffer → List ℕ
pending offset [] = []
pending offset (b ∷ bs) = drop offset b.contents ++ bytes_of bs

unfoldable pub contents_at : List Buffer → ℕ → List ℕ
contents_at q n = option_case (get_elem? q n) [] (λ b. b.contents)

-- The buffers of the queue from index `n` down to the newest.
unfoldable pub down_from : List Buffer → ℕ → List ℕ
down_from q zero = contents_at q 0
down_from q (suc n) = contents_at q (suc n) ++ down_from q n

module _ (ops : CapsOps) where
  -- The stream headers that go out with the next buffer.
  unfoldable pub headers_due : Sink → Client → List Buffer
  headers_due s c =
      if send_streamheader ops s.resend_streamheader s.caps c
      then option_case s.caps.streamheader [] (λ h. h)
      else []

  unfoldable pub from_queue : Sink → List Buffer → ℤ → List ℕ
  from_queue s headers (pos n) = bytes_of headers ++ down_from s.bufqueue n
  from_queue s headers (negsuc n) = []

  -- All that a client is still to get of what the sink holds: first the buffers it works on, then
  -- those of the queue from its position on, the stream headers before them if they are due.
  unfoldable pub owed : Sink → Client → List ℕ
  owed s c = pending c.bufoffset c.sending ++ from_queue s (headers_due s c) c.bufpos

-- A client that has found its place, at -1 or at an index of the queue.
pub record IsReader (s : Sink) (c : Client) : Type 0 where
  pub placed : c.new_connection ≡ false
  pub low : minus_one ≤ℤ c.bufpos
  pub high : c.bufpos <ℤ pos (length s.bufqueue)

bytes_of-append : (xs ys : List Buffer) → bytes_of (xs ++ ys) ≡ bytes_of xs ++ bytes_of ys
unfolding bytes_of
bytes_of-append [] ys = refl
bytes_of-append (b ∷ xs) ys =
    ap (◌++◌ b.contents) (bytes_of-append xs ys)
    ∙ sym (append_assoc b.contents (bytes_of xs) (bytes_of ys))

pending_zero : (bs : List Buffer) → pending 0 bs ≡ bytes_of bs
unfolding pending bytes_of
pending_zero [] = refl
pending_zero (b ∷ bs) = refl

-- What the socket takes of the buffer in front, and what is then pending.
after_part :
    (wrote offset : ℕ) (tail : List ℕ) (b : Buffer) (bs : List Buffer) (partial : Bool)
    → ltb wrote (length (drop offset b.contents)) ≡ partial
    → wrote ≤ length (drop offset b.contents)
    → take wrote (drop offset b.contents)
        ++ (pending (if partial then offset + wrote else 0) (if partial then b ∷ bs else bs)
            ++ tail)
      ≡ pending offset (b ∷ bs) ++ tail
unfolding pending
after_part wrote offset tail b bs true t h =
    let left = drop offset b.contents in
    ap (λ x. take wrote left ++ ((x ++ bytes_of bs) ++ tail))
      (sym (drop-drop offset wrote b.contents))
    ∙ sym (append_assoc (take wrote left) (drop wrote left ++ bytes_of bs) tail)
    ∙ ap (λ x. x ++ tail)
        (sym (append_assoc (take wrote left) (drop wrote left) (bytes_of bs))
          ∙ ap (λ x. x ++ bytes_of bs) (take-append-drop wrote left))
after_part wrote offset tail b bs false f h =
    let left = drop offset b.contents in
    ap (λ x. x ++ (pending 0 bs ++ tail)) (take_all wrote left (ground arith))
    ∙ ap (λ x. left ++ (x ++ tail)) (pending_zero bs)
    ∙ sym (append_assoc left (bytes_of bs) tail)

pub pending_after :
    (wrote offset : ℕ) (tail : List ℕ) (bs : List Buffer)
    → wrote ≤ length (bytes_left offset bs)
    → let partial = ltb wrote (length (bytes_left offset bs)) in
      take wrote (bytes_left offset bs)
        ++ (pending (if partial then offset + wrote else 0) (if partial then bs else rest bs)
            ++ tail)
      ≡ pending offset bs ++ tail
unfolding pending
pending_after zero offset tail [] h = refl
pending_after (suc n) offset tail [] h = absurd (omega arith)
pending_after wrote offset tail (b ∷ bs) h = after_part wrote offset tail b bs _ refl h

sub_one : (n : ℕ) → pos (suc n) -ℤ pos 1 ≡ pos n
unfolding ◌-ℤ◌
sub_one n = ground arith

below : List Buffer → ℕ → List ℕ
below q zero = []
below q (suc n) = down_from q n

down_from-split :
    (q : List Buffer) (n : ℕ) (b : Buffer)
    → get_elem? q n ≡ some b
    → down_from q n ≡ b.contents ++ below q n
unfolding down_from contents_at below
down_from-split q zero b e =
    ap (λ o. option_case o [] (λ x. x.contents)) e ∙ sym (append-nil b.contents)
down_from-split q (suc n) b e = ap (λ o. option_case o [] (λ x. x.contents) ++ down_from q n) e

module _ (ops : CapsOps) (reflexive : (c : Caps) → ops.caps_is_equal c c ≡ true) (s : Sink) where
  -- No stream headers are due to a client that has seen the caps of the sink.
  pub headers_due-nil : (c : Client) → c.caps ≡ some s.caps → headers_due ops s c ≡ []
  unfolding headers_due send_streamheader streamheader_changed
  headers_due-nil c e = simp (e, reflexive s.caps) refl

  from_queue_next :
      (c : Client) (n : ℕ)
      → c.caps ≡ some s.caps
      → from_queue ops s (headers_due ops s c) (pos n -ℤ pos 1) ≡ below s.bufqueue n
  unfolding from_queue below ◌-ℤ◌ bytes_of
  from_queue_next c zero e = refl
  from_queue_next c (suc n) e =
      ap (from_queue ops s (headers_due ops s c)) (sub_one n)
      ∙ ap (λ h. bytes_of h ++ down_from s.bufqueue n) (headers_due-nil c e)

  taken : Client → Buffer → Client
  taken = take_buffer ops s

  -- Where no buffer is left, the next one is added, with the stream headers that are due.
  pub take_buffer-owed :
      (c : Client) (n : ℕ) (b : Buffer)
      → c.sending ≡ []
      → c.bufpos ≡ pos n
      → get_elem? s.bufqueue n ≡ some b
      → owed ops s (take_buffer ops s c b) ≡ owed ops s c
  unfolding take_buffer owed client_queue_buffer headers_due bytes_of from_queue pending
      send_streamheader
  take_buffer-owed c n b e f g =
      let headers = headers_due ops s c in
      let q = s.bufqueue in
      let left : pending 0 (c.sending ++ headers ++ b ∷ [])
          ≡ bytes_of headers ++ (b.contents ++ []) =
        pending_zero (c.sending ++ headers ++ b ∷ [])
        ∙ ap (λ x. bytes_of (x ++ headers ++ b ∷ [])) e
        ∙ bytes_of-append headers (b ∷ []) in
      let next : from_queue ops s (headers_due ops s (take_buffer ops s c b)) (c.bufpos -ℤ pos 1)
          ≡ below q n =
        ap (λ x. from_queue ops s (headers_due ops s (take_buffer ops s c b)) (x -ℤ pos 1)) f
        ∙ from_queue_next (take_buffer ops s c b) n refl in
      let before_it : pending c.bufoffset c.sending
            ++ from_queue ops s (headers_due ops s c) c.bufpos
          ≡ bytes_of headers ++ down_from q n =
        ap (λ x. pending c.bufoffset x ++ from_queue ops s (headers_due ops s c) c.bufpos) e
        ∙ ap (λ x. from_queue ops s (headers_due ops s c) x) f in
      ap
        (λ x. x ++ from_queue ops s (headers_due ops s (take_buffer ops s c b)) (c.bufpos -ℤ pos 1))
        left
      ∙ ap (λ y. (bytes_of headers ++ (b.contents ++ [])) ++ y) next
      ∙ append_assoc (bytes_of headers) (b.contents ++ []) (below q n)
      ∙ ap (λ x. bytes_of headers ++ (x ++ below q n)) (append-nil b.contents)
      ∙ ap (λ x. bytes_of headers ++ x) (sym (down_from-split q n b g))
      ∙ sym before_it
