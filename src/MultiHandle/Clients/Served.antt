-- ===== src/MultiHandle/Clients/Served.antt =====
-- No operation of the application changes the settings of a sink, or its queue.
use pulsevideo.Base.{ℕ, ◌≡◌, ◌≤◌, not, if_cases, option_cases, length, pos, minus_one}
use pulsevideo.MultiHandle.Types.{Sink, Format, SyncMethod, is_ok, removed, buffers, latest}
use pulsevideo.MultiHandle.Class.{SinkClass}
use pulsevideo.MultiHandle.Store.{hash_lookup}
use pulsevideo.MultiHandle.Clients.{
  update, lookup, remove_begin, remove_finish, remove_client_link, wrong_limits, insert_client,
  add_full, add, remove_client, remove, flush_client, remove_flush, clear,
}
use pulsevideo.MultiHandle.Clients.Balance.{remove_client_link-P}
use pulsevideo.MultiHandle.Clients.Clear.{clear_rounds-P}

-- A hard limit of two buffers, no timeout, no minimum, and clients that start at the latest buffer.
abbrev pub HasLimits : Sink → Type 0
HasLimits s =
    (s.units_max ≡ pos 2)
    × (s.unit_format ≡ buffers)
    × (s.timeout ≡ 0)
    × (s.bytes_min ≡ minus_one)
    × (s.buffers_min ≡ minus_one)
    × (s.time_min ≡ minus_one)
    × (s.def_sync_method ≡ latest)

-- A sink with these settings and at most two buffers.
abbrev pub IsServing : Sink → Type 0
IsServing s = HasLimits s × (length s.bufqueue ≤ 2)

module _ (k : SinkClass) where
  pub remove_client_link-HasLimits :
      (now p : ℕ) (s : Sink) → HasLimits s → HasLimits (remove_client_link k now p s)
  unfolding remove_begin remove_finish
  remove_client_link-HasLimits now p s h = remove_client_link-P k HasLimits now p s h (λ c. h)

  pub remove_client_link-IsServing :
      (now p : ℕ) (s : Sink) → IsServing s → IsServing (remove_client_link k now p s)
  unfolding remove_begin remove_finish
  remove_client_link-IsServing now p s h = remove_client_link-P k IsServing now p s h (λ c. h)

  pub add_full-IsServing :
      (now handle : ℕ) (m : SyncMethod) (f : Format) (x : ℕ) (g : Format) (y : ℕ) (s : Sink)
      → IsServing s
      → IsServing (add_full k now handle m f x g y s)
  unfolding add_full insert_client
  add_full-IsServing now handle m f x g y s h =
      if_cases IsServing (not s.running) (λ t. h)
        (λ r.
          if_cases IsServing (wrong_limits f x g y) (λ t. h)
            (λ l. option_cases IsServing (hash_lookup handle s.handle_hash) (λ n. h) (λ p e. h)))

  pub add-IsServing : (now handle : ℕ) (s : Sink) → IsServing s → IsServing (add k now handle s)
  unfolding add
  add-IsServing now handle s h = add_full-IsServing now handle _ _ _ _ _ s h

  pub remove-IsServing :
      (now handle : ℕ) (s : Sink) → IsServing s → IsServing (remove k now handle s)
  unfolding remove remove_client
  remove-IsServing now handle s h =
      option_cases IsServing (lookup handle s) (λ n. h)
        (λ c e.
          if_cases IsServing (not (is_ok c.status)) (λ t. h)
            (λ f.
              remove_client_link-IsServing now c.ptr
                (update c.ptr (λ d. record d { status = removed }) s) h))

  pub clear-IsServing : (now : ℕ) (s : Sink) → IsServing s → IsServing (clear k now s)
  unfolding clear
  clear-IsServing now s h =
      clear_rounds-P k now IsServing
        (λ p t w.
          remove_client_link-IsServing now p (update p (λ d. record d { status = removed }) t) w)
        _ s h

pub remove_flush-IsServing :
    (handle : ℕ) (s : Sink) → IsServing s → IsServing (remove_flush handle s)
unfolding remove_flush flush_client
remove_flush-IsServing handle s h =
    option_cases IsServing (lookup handle s) (λ n. h)
      (λ c e. if_cases IsServing (not (is_ok c.status)) (λ t. h) (λ f. h))
