-- ===== src/MultiSocket/Reach.antt =====
-- Everything that can happen to a multisocketsink, as a step relation: the application's calls, the
-- streaming thread, the callbacks of the main loop and the changes of state, in any order.
pub mod Kept
pub mod Safe
pub mod Indexed
pub mod Patient
use pulsevideo.Base.{ℕ, ◌≡◌, Bool, some, List}
use pulsevideo.MultiHandle.Types.{Sink, Buffer, Caps, CapsOps, Format, SyncMethod}
use pulsevideo.MultiHandle.Clients.{add_full, add, remove, remove_flush, clear}
use pulsevideo.MultiHandle.Clients.Linked.{
  IsLinked, IsLinked-same, add_full-IsLinked, add-IsLinked, remove-IsLinked, remove_flush-IsLinked,
}
use pulsevideo.MultiHandle.Clients.Clear.{clear-IsLinked}
use pulsevideo.MultiHandle.Properties.{Property, ValueOf, set_property, init}
use pulsevideo.MultiHandle.Queue.{render}
use pulsevideo.MultiSocket.{Received, Answer}
use pulsevideo.MultiSocket.Class.{multi_socket}
use pulsevideo.MultiSocket.Condition.{Condition, socket_condition, on_timeout}
use pulsevideo.MultiSocket.Lifecycle.{Transition, change_state}

module _ (ops : CapsOps) where
  -- A call that returns: `render` where the sink is open, and a callback that does not read outside
  -- the queue or a freed node.
  pub data Step (s : Sink) : Sink → Type 0 where
    setting : (p : Property) (v : ValueOf p) → Step s (set_property p v s)
    new_caps : (c : Caps) → Step s (record s { caps = c })
    changing : (now : ℕ) (t : Transition) → Step s (change_state now t s)
    adding : (now handle : ℕ) → Step s (add multi_socket now handle s)
    adding_full :
        (now handle : ℕ) (m : SyncMethod) (f : Format) (x : ℕ) (g : Format) (y : ℕ)
        → Step s (add_full multi_socket now handle m f x g y s)
    removing : (now handle : ℕ) → Step s (remove multi_socket now handle s)
    flush : (handle : ℕ) → Step s (remove_flush handle s)
    clearing : (now : ℕ) → Step s (clear multi_socket now s)
    rendering : (now : ℕ) (b : Buffer) (t : Sink) → render multi_socket now b s ≡ some t → Step s t
    socket_ready :
        (now : ℕ) (condition : Condition) (reads : List Received) (answers : List Answer)
        (handle : ℕ) (keep : Bool) (t : Sink)
        → socket_condition ops now condition reads answers handle s ≡ some (keep, t)
        → Step s t
    timing_out : (now : ℕ) (t : Sink) → on_timeout now s ≡ some t → Step s t

  -- The sinks that some sequence of steps makes of `s`.
  pub data Reach (s : Sink) : Sink → Type 0 where
    here : Reach s s
    next : {t u : Sink} → Reach s t → Step t u → Reach s u
