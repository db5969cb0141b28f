-- ===== src/MultiSocket/Reach/Indexed.antt =====
-- What each operation of the multisocketsink keeps: every client stands at -1 or at an index of the
-- queue.
use pulsevideo.Base.{
  ℕ, zero, ◌≡◌, refl, sym, ap, subst, true, not, if◌then◌else◌, if_cases, Bool-cases, inl, inr,
  List, [], ◌∷◌, map, All, length, ◌&&◌, suc, ◌<◌, two_31,
}
use pulsevideo.MultiHandle.Types.{Client, Sink, Buffer, CapsOps, slow}
use pulsevideo.MultiHandle.Store.Laws.{All-update, find_client-All}
use pulsevideo.MultiHandle.Clients.Placed.{
  IsAt, IsIndexed, same-IsAt, remove_client_link-IsIndexed, removing-IsIndexed,
}
use pulsevideo.MultiHandle.Clients.Linked.{IsLinked-same}
use pulsevideo.MultiHandle.Properties.{Property, ValueOf, set_property}
use pulsevideo.MultiHandle.Queue.{render}
use pulsevideo.MultiHandle.Queue.Inside.{queue_buffer-Inside}
use pulsevideo.MultiSocket.Class.{multi_socket, hash_adding, hash_adding_lem}
use pulsevideo.MultiSocket.Condition.{timeout_walk}
use pulsevideo.MultiSocket.Condition.Kept.{IsKept}
use pulsevideo.MultiSocket.Condition.Inside.{read_loop-IsAt, write_loop-Wrote}
use pulsevideo.MultiSocket.Lifecycle.{Transition, change_state, start, start_pre, stop}
use pulsevideo.MultiSocket.Lifecycle.Stop.{stop-IsShut}
use pulsevideo.MultiSocket.Reach.Kept.{
  IsSafe, stop_closed, IfReturned, timeout_walk_kept, SameClients, set_property-SameClients,
}

pub start-IsIndexed : (s : Sink) → IsIndexed s → IsIndexed (start s)
unfolding start start_pre
start-IsIndexed s h = if_cases IsIndexed s.is_open (λ t. h) (λ f. mapped s.clients h)
  where
    mapped :
        (cs : List Client)
        → All (IsAt (length s.bufqueue)) cs
        → All (IsAt (length s.bufqueue)) (
            map
              (λ (c : Client).
                if c.source then c else hash_adding (record s { main_context = true }) c)
              cs)
    mapped [] a = tt
    mapped (c ∷ cs) a = (
      if_cases (IsAt (length s.bufqueue)) c.source (λ t. a.0)
          (λ f.
            same-IsAt _ c (hash_adding (record s { main_context = true }) c)
              (ap (λ (d : Client). d.bufpos) (hash_adding_lem (record s { main_context = true }) c))
              a.0),
      mapped cs a.1,
    )

pub change_state-IsIndexed :
    (now : ℕ) (t : Transition) (s : Sink)
    → IsSafe s
    → IsIndexed s
    → IsIndexed (change_state now t s)
unfolding change_state
change_state-IsIndexed now Transition.null_to_ready s v h = start-IsIndexed s h
change_state-IsIndexed now Transition.other_transition s v h = h
change_state-IsIndexed now Transition.ready_to_null s v h = elim (Bool-cases s.is_open) [
  | inl t ↦
      let shut = stop-IsShut now s v.linked t v.calm in
      subst (All (IsAt (length (stop now s).bufqueue))) (sym shut.no_clients) tt
  | inr f ↦ subst IsIndexed (sym (stop_closed now s f)) h
]

pub set_property-IsIndexed :
    (p : Property) (v : ValueOf p) (s : Sink) → IsIndexed s → IsIndexed (set_property p v s)
unfolding SameClients
set_property-IsIndexed p v s h =
    let same = set_property-SameClients p v s in
    let t = set_property p v s in
    subst (All (IsAt (length t.bufqueue))) (sym same.0)
      (subst (λ q. All (IsAt (length q)) s.clients) (sym same.3) h)

-- A sink without a timeout, with room for one more buffer in the 31 bits of a position.
pub record IsPatient (s : Sink) : Type 0 where
  pub no_timeout : s.timeout ≡ 0
  pub room : suc (length s.bufqueue) < two_31

pub render-IsIndexed :
    (now : ℕ) (b : Buffer) (s : Sink)
    → IsSafe s
    → IsPatient s
    → IsIndexed s
    → IfReturned IsIndexed (render multi_socket now b s)
unfolding render IfReturned
render-IsIndexed now b s v u h =
    if_cases (IfReturned IsIndexed) (not s.is_open) (λ t. tt)
      (λ f.
        if_cases (IfReturned IsIndexed) b.header (λ t. h)
          (λ g.
            let t : Sink = record s {
              streamheader =
                  if b.header && not s.previous_buffer_in_caps then [] else s.streamheader;
              previous_buffer_in_caps = b.header;
            } in
            queue_buffer-Inside multi_socket now b t (IsLinked-same refl refl refl v.linked)
              u.no_timeout u.room h))

pub timeout_walk-IsIndexed :
    (now : ℕ) (cs : List Client) (s : Sink)
    → IsIndexed s
    → IfReturned IsIndexed (timeout_walk now cs s)
timeout_walk-IsIndexed now cs s h =
    timeout_walk_kept IsIndexed
      (λ n p t w.
        removing-IsIndexed multi_socket n p (λ d. record d { status = slow }) t (λ d. refl) w)
      now cs s h

-- What is put back is at such a position, and nothing is read outside the queue.
pub IsIndexed-IsKept :
    (ops : CapsOps) → IsKept ops (zero ≡ 1) IsIndexed (λ s c. IsAt (length s.bufqueue) c)
IsIndexed-IsKept ops = record {
  put = λ s c d h e k q.
      All-update (IsAt (length s.bufqueue)) d.ptr (λ x. d) s.clients (λ x p a. q) h;
  gone = remove_client_link-IsIndexed multi_socket;
  counted = λ n s h. h;
  counted_for = λ n s d q. q;
  marked = λ s c st h e. find_client-All (IsAt (length s.bufqueue)) c.ptr s.clients c h e;
  was_read = λ s c reads h e.
      read_loop-IsAt (length s.bufqueue) true reads c
        (find_client-All (IsAt (length s.bufqueue)) c.ptr s.clients c h e);
  was_written = λ now answers s c h e.
      write_loop-Wrote ops s now answers c
        (find_client-All (IsAt (length s.bufqueue)) c.ptr s.clients c h e);
}
