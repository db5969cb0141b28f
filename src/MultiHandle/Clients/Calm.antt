-- ===== src/MultiHandle/Clients/Calm.antt =====
-- No operation of the application leaves a client that is being removed.
use pulsevideo.Base.{ℕ, ◌≡◌, refl, ap, sym, ◌∙◌, subst, false, not, if_cases, option_cases, All}
use pulsevideo.MultiHandle.Types.{Client, Sink, Format, SyncMethod, removed, is_ok}
use pulsevideo.MultiHandle.Class.{SinkClass, client_init}
use pulsevideo.MultiHandle.Store.{update_client, delete_client, hash_lookup}
use pulsevideo.MultiHandle.Store.Laws.{All-update, All-delete-update}
use pulsevideo.MultiHandle.Clients.{
  update, lookup, mark_removed, remove_begin, remove_finish, remove_client_link, wrong_limits,
  insert_client, add_full, add, remove_client, remove, flush_client, remove_flush, clear,
}
use pulsevideo.MultiHandle.Clients.Linked.{mark_removed-KeepsKey}
use pulsevideo.MultiHandle.Clients.Balance.{remove_client_link-P}
use pulsevideo.MultiHandle.Clients.Clear.{clear_rounds-P}

abbrev pub IsQuiet : Client → Type 0
IsQuiet c = c.currently_removing ≡ false

-- A sink without a client that is being removed.
abbrev pub IsCalm : Sink → Type 0
IsCalm s = All IsQuiet s.clients

-- A change of a client that leaves this alone.
abbrev pub KeepsQuiet : (Client → Client) → Type 0
KeepsQuiet f = (c : Client) → (f c).currently_removing ≡ c.currently_removing

pub update-IsCalm :
    (p : ℕ) (f : Client → Client) (s : Sink) → KeepsQuiet f → IsCalm s → IsCalm (update p f s)
update-IsCalm p f s k v = All-update IsQuiet p f s.clients (λ c e q. k c ∙ q) v

module _ (k : SinkClass) where
  pub remove_client_link-IsCalm :
      (now p : ℕ) (s : Sink) → IsCalm s → IsCalm (remove_client_link k now p s)
  unfolding remove_begin remove_finish
  remove_client_link-IsCalm now p s v = remove_client_link-P k IsCalm now p s v (λ c.
      subst
        (λ q. All IsQuiet (delete_client q (update_client c.ptr (mark_removed k now) s.clients)))
        (sym (mark_removed-KeepsKey k now c).1)
        (All-delete-update IsQuiet c.ptr (mark_removed k now) s.clients
          (mark_removed-KeepsKey k now) v))

  pub add_full-IsCalm :
      (now handle : ℕ) (m : SyncMethod) (f : Format) (x : ℕ) (g : Format) (y : ℕ) (s : Sink)
      → IsCalm s
      → IsCalm (add_full k now handle m f x g y s)
  unfolding add_full insert_client client_init
  add_full-IsCalm now handle m f x g y s v =
      if_cases IsCalm (not s.running) (λ t. v)
        (λ r.
          if_cases IsCalm (wrong_limits f x g y) (λ t. v)
            (λ l.
              option_cases IsCalm (hash_lookup handle s.handle_hash)
                (λ n.
                  (ap (λ (c : Client). c.currently_removing) (k.new_client_lem s handle m now), v))
                (λ p e. v)))

  pub add-IsCalm : (now handle : ℕ) (s : Sink) → IsCalm s → IsCalm (add k now handle s)
  unfolding add
  add-IsCalm now handle s v = add_full-IsCalm now handle _ _ _ _ _ s v

  pub remove-IsCalm : (now handle : ℕ) (s : Sink) → IsCalm s → IsCalm (remove k now handle s)
  unfolding remove remove_client
  remove-IsCalm now handle s v =
      option_cases IsCalm (lookup handle s) (λ n. v)
        (λ c e.
          if_cases IsCalm (not (is_ok c.status)) (λ t. v)
            (λ f.
              remove_client_link-IsCalm now c.ptr _
                (update-IsCalm c.ptr (λ d. record d { status = removed }) s (λ d. refl) v)))

  pub clear-IsCalm : (now : ℕ) (s : Sink) → IsCalm s → IsCalm (clear k now s)
  unfolding clear
  clear-IsCalm now s v =
      clear_rounds-P k now IsCalm
        (λ p t w.
          remove_client_link-IsCalm now p _
            (update-IsCalm p (λ d. record d { status = removed }) t (λ d. refl) w))
        _ s v

pub remove_flush-IsCalm : (handle : ℕ) (s : Sink) → IsCalm s → IsCalm (remove_flush handle s)
unfolding remove_flush flush_client
remove_flush-IsCalm handle s v =
    option_cases IsCalm (lookup handle s) (λ n. v)
      (λ c e.
        if_cases IsCalm (not (is_ok c.status)) (λ t. v)
          (λ f. update-IsCalm c.ptr _ s (λ d. refl) v))
