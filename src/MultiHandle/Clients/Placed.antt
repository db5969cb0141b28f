-- ===== src/MultiHandle/Clients/Placed.antt =====
-- No operation of the application moves a client out of the queue.
use pulsevideo.Base.{ℕ, ◌≡◌, refl, sym, ap, subst, not, if_cases, option_cases, All, length, arith}
use pulsevideo.MultiHandle.Types.{Client, Sink, Format, SyncMethod, is_ok, removed}
use pulsevideo.MultiHandle.Class.{SinkClass, client_init}
use pulsevideo.MultiHandle.Store.{update_client, delete_client, hash_lookup}
use pulsevideo.MultiHandle.Store.Laws.{All-update, All-delete-update}
use pulsevideo.MultiHandle.Clients.{
  update, lookup, mark_removed, remove_begin, remove_finish, remove_client_link, wrong_limits,
  insert_client, add_full, add, remove_client, remove, flush_client, remove_flush, clear,
}
use pulsevideo.MultiHandle.Clients.Linked.{mark_removed-KeepsKey}
use pulsevideo.MultiHandle.Clients.Balance.{remove_client_link-P}
use pulsevideo.MultiHandle.Clients.Clear.{clear_rounds-P}
use pulsevideo.MultiHandle.Queue.Advance.{Inside}

-- At -1 or at an index of a queue of `len` buffers.
abbrev pub IsAt : ℕ → Client → Type 0
IsAt len c = Inside len c.bufpos

-- Every client at -1 or at an index of the queue.
abbrev pub IsIndexed : Sink → Type 0
IsIndexed s = All (IsAt (length s.bufqueue)) s.clients

-- A client that is new, or that a change leaves where it was.
pub same-IsAt : (n : ℕ) (c d : Client) → d.bufpos ≡ c.bufpos → IsAt n c → IsAt n d
same-IsAt n c d e h = subst (Inside n) (sym e) h

-- A change of a client that does not move it.
abbrev KeepsPlace : (Client → Client) → Type 0
KeepsPlace f = (c : Client) → (f c).bufpos ≡ c.bufpos

pub update-IsIndexed :
    (p : ℕ) (f : Client → Client) (s : Sink) → KeepsPlace f → IsIndexed s → IsIndexed (update p f s)
update-IsIndexed p f s same v =
    All-update (IsAt (length s.bufqueue)) p f s.clients (λ c e h. same-IsAt _ c (f c) (same c) h) v

module _ (k : SinkClass) where
  pub remove_client_link-IsIndexed :
      (now p : ℕ) (s : Sink) → IsIndexed s → IsIndexed (remove_client_link k now p s)
  unfolding remove_begin remove_finish
  remove_client_link-IsIndexed now p s v = remove_client_link-P k IsIndexed now p s v (λ c.
      let at = IsAt (length s.bufqueue) in
      subst (λ q. All at (delete_client q (update_client c.ptr (mark_removed k now) s.clients)))
        (sym (mark_removed-KeepsKey k now c).1)
        (All-delete-update at c.ptr (mark_removed k now) s.clients (mark_removed-KeepsKey k now) v))

  -- A client that is removed for a reason.
  pub removing-IsIndexed :
      (now p : ℕ) (f : Client → Client) (s : Sink)
      → KeepsPlace f
      → IsIndexed s
      → IsIndexed (remove_client_link k now p (update p f s))
  removing-IsIndexed now p f s same v =
      remove_client_link-IsIndexed now p _ (update-IsIndexed p f s same v)

  pub add_full-IsIndexed :
      (now handle : ℕ) (m : SyncMethod) (f : Format) (x : ℕ) (g : Format) (y : ℕ) (s : Sink)
      → IsIndexed s
      → IsIndexed (add_full k now handle m f x g y s)
  unfolding add_full insert_client client_init Inside
  add_full-IsIndexed now handle m f x g y s v =
      if_cases IsIndexed (not s.running) (λ t. v)
        (λ r.
          if_cases IsIndexed (wrong_limits f x g y) (λ t. v)
            (λ l.
              option_cases IsIndexed (hash_lookup handle s.handle_hash)
                (λ n. (
                  subst (Inside (length s.bufqueue))
                      (sym (ap (λ (c : Client). c.bufpos) (k.new_client_lem s handle m now)))
                      (omega arith, omega arith),
                  v,
                ))
                (λ p e. v)))

  pub add-IsIndexed : (now handle : ℕ) (s : Sink) → IsIndexed s → IsIndexed (add k now handle s)
  unfolding add
  add-IsIndexed now handle s v = add_full-IsIndexed now handle _ _ _ _ _ s v

  pub remove-IsIndexed :
      (now handle : ℕ) (s : Sink) → IsIndexed s → IsIndexed (remove k now handle s)
  unfolding remove remove_client
  remove-IsIndexed now handle s v =
      option_cases IsIndexed (lookup handle s) (λ n. v)
        (λ c e.
          if_cases IsIndexed (not (is_ok c.status)) (λ t. v)
            (λ f.
              removing-IsIndexed now c.ptr (λ d. record d { status = removed }) s (λ d. refl) v))

  pub clear-IsIndexed : (now : ℕ) (s : Sink) → IsIndexed s → IsIndexed (clear k now s)
  unfolding clear
  clear-IsIndexed now s v =
      clear_rounds-P k now IsIndexed
        (λ p t w. removing-IsIndexed now p (λ d. record d { status = removed }) t (λ d. refl) w) _ s
        v

pub remove_flush-IsIndexed :
    (handle : ℕ) (s : Sink) → IsIndexed s → IsIndexed (remove_flush handle s)
unfolding remove_flush flush_client
remove_flush-IsIndexed handle s v =
    option_cases IsIndexed (lookup handle s) (λ n. v)
      (λ c e.
        if_cases IsIndexed (not (is_ok c.status)) (λ t. v)
          (λ f. update-IsIndexed c.ptr _ s (λ d. refl) v))
