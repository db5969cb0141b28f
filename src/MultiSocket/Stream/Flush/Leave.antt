-- ===== src/MultiSocket/Stream/Flush/Leave.antt =====
-- remove_flush, and then handle_client_write: the client gets what it is owed, and leaves.
use pulsevideo.Base.{
  ℕ, ◌+◌, ◌≤◌, ◌≡◌, refl, sym, ap, ◌∙◌, subst, Bool, true, false, none, some, List, [], ◌∷◌, ◌++◌,
  All, length, pos, pos_part, ℤ, ◌+ℤ◌, ◌-ℤ◌, ◌≤ℤ◌, minus_one, add_u64, arith,
}
use pulsevideo.MultiHandle.Types.{Client, Sink, Caps, CapsOps, removed, flushing, client_removed}
use pulsevideo.MultiHandle.Store.{find_client, hash_lookup, hash_remove}
use pulsevideo.MultiHandle.Store.Laws.{find_client-update_self}
use pulsevideo.MultiHandle.Store.Put.{find_client-put_self}
use pulsevideo.MultiHandle.Store.Hash.{hash_lookup-remove_self}
use pulsevideo.MultiHandle.Clients.{update, lookup, remove_flush, flush_client}
use pulsevideo.MultiHandle.Clients.Linked.{IsLinked, update-IsLinked}
use pulsevideo.MultiHandle.Clients.Remove.{remove_client_link_lem}
use pulsevideo.MultiHandle.Position.Key.{SameKey}
use pulsevideo.MultiHandle.Queue.{send_streamheader}
use pulsevideo.MultiSocket.{Answer, Written}
use pulsevideo.MultiSocket.Class.{multi_socket}
use pulsevideo.MultiSocket.Condition.{store_written, socket_condition}
use pulsevideo.MultiSocket.Condition.Key.{WrittenKey, write_loop_key}
use pulsevideo.MultiSocket.Condition.Write.{can_write, socket_condition-write}
use pulsevideo.MultiSocket.Stream.{owed, from_queue, headers_due}
use pulsevideo.MultiSocket.Stream.Queued.{IsFed}
use pulsevideo.MultiSocket.Stream.Flush.{IsWilling, IsFlushing, IsFlushed, write_loop-IsFlushed}
use pulsevideo.MultiSocket.Stream.Follow.{sent_by}
use pulsevideo.MultiSocket.Stream.Follow.Others.{lookup-listed}

-- The number of buffers that are left to flush.
abbrev pub to_flush : Client → ℕ
to_flush c = pos_part (c.bufpos +ℤ pos 1)

abbrev flush : Client → Client
flush d = record d { flushcount = d.bufpos +ℤ pos 1; status = flushing }

counted :
    (p : ℤ)
    → minus_one ≤ℤ p
    → (p +ℤ pos 1 ≡ pos (pos_part (p +ℤ pos 1))) × (p ≡ pos (pos_part (p +ℤ pos 1)) -ℤ pos 1)
unfolding ◌+ℤ◌ ◌-ℤ◌
counted p h = ground arith

module _ (ops : CapsOps) (reflexive : (c : Caps) → ops.caps_is_equal c c ≡ true) where
  flush-IsFlushing :
      (s t : Sink) (c : Client)
      → t.bufqueue ≡ s.bufqueue
      → t.caps ≡ s.caps
      → IsFed s c
      → IsFlushing t (to_flush c) (flush c)
  flush-IsFlushing s t c q a f =
      let place = counted c.bufpos f.reader.low in
      record {
        reader = record {
          placed = f.reader.placed;
          low = f.reader.low;
          high = rw q (f.reader.high);
        };
        knows = f.knows ∙ ap some (sym a);
        count = place.0;
        place = place.1;
      }

  -- A client that handle_client_write has told to leave.
  store_written-gone :
      (now : ℕ) (w : Written) (s : Sink) (c : Client)
      → IsLinked s
      → find_client c.ptr s.clients ≡ some c
      → c.currently_removing ≡ false
      → SameKey c w.client
      → w.result ≡ false
      → (lookup c.handle (store_written now w s).1 ≡ none)
        × ((d : Client) × ((store_written now w s).1.signals
              ≡ multi_socket.client_free d ++ client_removed c.handle w.client.status ∷ s.signals))
  unfolding lookup
  store_written-gone now w s c v e quiet key result =
      let d = w.client in
      let t : Sink =
        update d.ptr (λ x. d)
          (record s { bytes_served = add_u64 s.bytes_served (length w.sent) }) in
      let found : find_client d.ptr t.clients ≡ some d =
        find_client-put_self d.ptr c d s.clients refl
          (subst (λ x. find_client x s.clients ≡ some c) (sym key.1) e) in
      let gone = remove_client_link_lem multi_socket now t d found (key.2 ∙ quiet) in
      let none_left : hash_lookup c.handle (hash_remove c.handle s.handle_hash) ≡ none =
        hash_lookup-remove_self c.handle s.handle_hash (rw v.indexed v.distinct) in
      rw (result, gone, key.0) (rw none_left refl, (_, refl))

  -- What the next call for a client's socket makes of it, once it is being flushed.
  pub HasLeft : ℕ → List Answer → Sink → Client → Type 0
  HasLeft now answers s c =
      let t = remove_flush c.handle s in
      (r : Bool × Sink) × (socket_condition ops now can_write [] answers c.handle t ≡ some r)
      × (r.0 ≡ false)
      × (lookup c.handle r.1 ≡ none)
      × (sent_by ops c.handle now answers t ≡ owed ops s c)
      × ((d : Client) × (r.1.signals
            ≡ multi_socket.client_free d ++ client_removed c.handle removed ∷ s.signals))

  -- Where the hash table and the list of clients agree, for a client that is not being removed, has
  -- found its place, whose caps are the current caps of the sink, whose status is OK and that is
  -- not being flushed yet, and where caps are equal to themselves: after remove_flush, the next
  -- call for its socket returns FALSE, if it finds the socket ready for writing and for nothing
  -- else, and the socket takes at least one byte as often as there are bytes and buffers to send;
  -- the client has got all that it was owed when it was flushed, and has been removed with the
  -- status REMOVED.
  pub remove_flush-HasLeft :
      (now : ℕ) (answers : List Answer) (s : Sink) (c : Client)
      → IsLinked s
      → find_client c.ptr s.clients ≡ some c
      → c.currently_removing ≡ false
      → IsFed s c
      → All IsWilling answers
      → length (owed ops s c) + length c.sending + to_flush c ≤ length answers
      → HasLeft now answers s c
  unfolding remove_flush flush_client sent_by HasLeft IsFlushed WrittenKey owed from_queue
      headers_due send_streamheader
  remove_flush-HasLeft now answers s c v e quiet fed a m =
      let t : Sink = update c.ptr flush s in
      let flushed : remove_flush c.handle s ≡ t =
        rw (lookup-listed c.ptr s c v e, fed.healthy) refl in
      let linked : IsLinked t = update-IsLinked c.ptr flush s (λ d. (refl, refl)) v in
      let listed : find_client c.ptr t.clients ≡ some (flush c) =
        find_client-update_self c.ptr flush s.clients c (λ d. (refl, refl)) e in
      let lookup_c = lookup-listed c.ptr t (flush c) linked listed in
      let (w, wrote, result, status, sent) =
        write_loop-IsFlushed ops reflexive t now (to_flush c) answers (flush c) a
          (flush-IsFlushing s t c refl refl fed) m in
      let key : SameKey (flush c) w.client =
        subst (WrittenKey (flush c)) wrote (write_loop_key ops t now answers (flush c)) in
      let called =
        socket_condition-write ops now answers c.handle t (flush c) w lookup_c refl wrote in
      let (absent, freed) = store_written-gone now w t (flush c) linked listed quiet key result in
      rw flushed (
        store_written now w t,
        called,
        result,
        absent,
        rw (lookup_c, wrote) sent,
        (
          freed.0,
          freed.1
              ∙ ap (λ x. multi_socket.client_free freed.0 ++ client_removed c.handle x ∷ s.signals)
                  status,
        ),
      )
