-- ===== src/MultiSocket/Condition/Linked.antt =====
-- The hash table and the list of clients agree, through the callbacks of the main loop.
use pulsevideo.Base.{ℕ, ◌≡◌, refl, ap, ◌∙◌, Bool, Option, none, some, List}
use pulsevideo.MultiHandle.Types.{Client, Sink, CapsOps}
use pulsevideo.MultiHandle.Store.{find_client, update_client, index}
use pulsevideo.MultiHandle.Store.Laws.{index-update_at}
use pulsevideo.MultiHandle.Clients.{update}
use pulsevideo.MultiHandle.Clients.Linked.{IsLinked, IsLinked-same, remove_client_link-IsLinked}
use pulsevideo.MultiHandle.Position.Key.{SameKey}
use pulsevideo.MultiSocket.{Received, Answer, Written, write_loop}
use pulsevideo.MultiSocket.Class.{multi_socket}
use pulsevideo.MultiSocket.Condition.{Condition, socket_condition}
use pulsevideo.MultiSocket.Condition.Kept.{After, Wrote, IsKept, socket_condition_kept}

-- A client put back where it was found leaves the table and the list in agreement.
pub put-IsLinked :
    (s : Sink) (c d : Client)
    → IsLinked s
    → find_client c.ptr s.clients ≡ some c
    → SameKey c d
    → IsLinked (update d.ptr (λ x. d) s)
put-IsLinked s c d v e h =
    IsLinked-same
      (ap (λ p. index (update_client p (λ x. d) s.clients)) h.1
        ∙ index-update_at (λ x. d) s.clients c e (h.0, h.1))
      refl refl v

-- Nothing is asked of the client, and nothing said of a read outside the queue.
abbrev pub Anything : Sink → Client → Type 0
Anything s c = Unit {0}

pub Wrote-Anything : (s : Sink) (o : Option Written) → Wrote (Unit {0}) (Anything s) o
Wrote-Anything s none = tt
Wrote-Anything s (some w) = tt

pub IsLinked-IsKept : (ops : CapsOps) → IsKept ops (Unit {0}) IsLinked Anything
IsLinked-IsKept ops = record {
  put = λ s c d v e h q. put-IsLinked s c d v e h;
  gone = remove_client_link-IsLinked multi_socket;
  counted = λ n s v. IsLinked-same refl refl refl v;
  counted_for = λ n s d q. tt;
  marked = λ s c st v e. tt;
  was_read = λ s c reads v e. tt;
  was_written = λ now answers s c v e. Wrote-Anything s (write_loop ops now s answers c);
}

abbrev pub LinkedAfter : Option (Bool × Sink) → Type 0
LinkedAfter o = After (Unit {0}) IsLinked o

-- Where the hash table and the list of clients agree, they agree after the callback for a ready
-- socket, on every branch, whatever the socket answers, if it does not read outside the queue.
pub socket_condition-IsLinked :
    (ops : CapsOps) (now : ℕ) (condition : Condition) (reads : List Received)
    (answers : List Answer) (handle : ℕ) (s : Sink)
    → IsLinked s
    → LinkedAfter (socket_condition ops now condition reads answers handle s)
socket_condition-IsLinked ops now condition reads answers handle s v =
    socket_condition_kept ops (Unit {0}) IsLinked Anything (IsLinked-IsKept ops) now condition reads
      answers handle s v v
