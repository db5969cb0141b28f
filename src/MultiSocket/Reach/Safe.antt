-- ===== src/MultiSocket/Reach/Safe.antt =====
-- What holds of every sink that is reached.
use pulsevideo.Base.{ℕ, refl, subst}
use pulsevideo.MultiHandle.Types.{Sink, Caps, CapsOps}
use pulsevideo.MultiHandle.Clients.Linked.{
  add_full-IsLinked, add-IsLinked, remove-IsLinked, remove_flush-IsLinked,
}
use pulsevideo.MultiHandle.Clients.Clear.{clear-IsLinked}
use pulsevideo.MultiHandle.Clients.Calm.{
  add_full-IsCalm, add-IsCalm, remove-IsCalm, clear-IsCalm, remove_flush-IsCalm,
}
use pulsevideo.MultiHandle.Properties.{init}
use pulsevideo.MultiSocket.Class.{multi_socket}
use pulsevideo.MultiSocket.Condition.{on_timeout}
use pulsevideo.MultiSocket.Condition.Kept.{After, socket_condition_kept}
use pulsevideo.MultiSocket.Condition.Linked.{Anything}
use pulsevideo.MultiSocket.Reach.{
  Step, setting, new_caps, changing, adding, adding_full, removing, flush, clearing, rendering,
  socket_ready, timing_out, Reach, here, next,
}
use pulsevideo.MultiSocket.Reach.Kept.{
  IsSafe, same-IsSafe, empty-IsSafe, set_property-IsSafe, change_state-IsSafe, IfReturned-some,
  render-IsSafe, timeout_walk-IsSafe, IsSafe-IsKept,
}

module _ (ops : CapsOps) where
  pub Step-IsSafe : {s t : Sink} → Step ops s t → IsSafe s → IsSafe t
  unfolding on_timeout
  Step-IsSafe {s} (setting p v) h = set_property-IsSafe p v s h
  Step-IsSafe {s} (new_caps c) h = same-IsSafe s _ refl refl refl h
  Step-IsSafe {s} (changing now t) h = change_state-IsSafe now t s h
  Step-IsSafe {s} (adding now handle) h = record {
    linked = add-IsLinked multi_socket now handle s h.linked;
    calm = add-IsCalm multi_socket now handle s h.calm;
  }
  Step-IsSafe {s} (adding_full now handle m f x g y) h = record {
    linked = add_full-IsLinked multi_socket now handle m f x g y s h.linked;
    calm = add_full-IsCalm multi_socket now handle m f x g y s h.calm;
  }
  Step-IsSafe {s} (removing now handle) h = record {
    linked = remove-IsLinked multi_socket now handle s h.linked;
    calm = remove-IsCalm multi_socket now handle s h.calm;
  }
  Step-IsSafe {s} (flush handle) h = record {
    linked = remove_flush-IsLinked handle s h.linked;
    calm = remove_flush-IsCalm handle s h.calm;
  }
  Step-IsSafe {s} (clearing now) h = record {
    linked = clear-IsLinked multi_socket now s h.linked;
    calm = clear-IsCalm multi_socket now s h.calm;
  }
  Step-IsSafe {s} (rendering now b t e) h = IfReturned-some IsSafe _ t (render-IsSafe now b s h) e
  Step-IsSafe {s} (socket_ready now condition reads answers handle keep t e) h =
      subst (After (Unit {0}) IsSafe) e (
        socket_condition_kept ops (Unit {0}) IsSafe Anything (IsSafe-IsKept ops) now condition reads
          answers handle s h.linked h)
  Step-IsSafe {s} (timing_out now t e) h =
      IfReturned-some IsSafe _ t (timeout_walk-IsSafe now s.clients s h) e

  Reach-IsSafe : {s t : Sink} → Reach ops s t → IsSafe s → IsSafe t
  Reach-IsSafe here h = h
  Reach-IsSafe (next r st) h = Step-IsSafe st (Reach-IsSafe r h)

  -- Whatever sequence of settings, changes of state, calls of the application, buffers, ready sockets
  -- and timeouts a new sink goes through, as long as every one of them returns, its hash table and
  -- its list of clients agree, and no client is being removed.
  pub init-IsSafe :
      (caps : Caps) (next_ptr : ℕ) (t : Sink) → Reach ops (init caps next_ptr) t → IsSafe t
  unfolding init
  init-IsSafe caps next_ptr t r = Reach-IsSafe r (empty-IsSafe (init caps next_ptr) refl refl)
