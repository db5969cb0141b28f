-- ===== src/MultiSocket/Reach/Kept.antt =====
-- What each operation keeps: the hash table and the list of clients agree, and no client is being
-- removed.
use pulsevideo.Base.{
  option_cases, ℕ, ◌≡◌, refl, sym, ap, ◌∙◌, subst, true, false, not, ◌&&◌, ◌<◌, if◌then◌else◌,
  if_cases, Bool-cases, inl, inr, Option, none, some, List, [], ◌∷◌, map, All,
}
use pulsevideo.MultiHandle.Types.{CapsOps, Client, Sink, Buffer, slow}
use pulsevideo.MultiHandle.Store.{index, find_client}
use pulsevideo.MultiHandle.Position.Key.{SameKey}
use pulsevideo.MultiHandle.Store.Hash.{Distinct}
use pulsevideo.MultiHandle.Store.Laws.{All-update, find_client-All}
use pulsevideo.MultiHandle.Clients.{update, remove_client_link}
use pulsevideo.MultiHandle.Clients.Linked.{
  IsLinked, IsLinked-same, update-IsLinked, remove_client_link-IsLinked,
}
use pulsevideo.MultiHandle.Clients.Calm.{IsQuiet, IsCalm, update-IsCalm, remove_client_link-IsCalm}
use pulsevideo.MultiHandle.Properties.{Property, ValueOf, set_property}
use pulsevideo.MultiHandle.Queue.{render, queue_buffer}
use pulsevideo.MultiHandle.Queue.Calm.{queue_buffer-IsCalm}
use pulsevideo.MultiHandle.Queue.Within.{queue_buffer-IsSettled}
use pulsevideo.MultiSocket.Class.{multi_socket, hash_adding, hash_adding_lem}
use pulsevideo.MultiSocket.Condition.{is_overdue, timeout_visit, timeout_walk}
use pulsevideo.MultiSocket.Condition.Kept.{IsKept}
use pulsevideo.MultiSocket.Condition.Linked.{Anything, Wrote-Anything, put-IsLinked}
use pulsevideo.MultiSocket.{write_loop}
use pulsevideo.MultiSocket.Lifecycle.{Transition, change_state, start, start_pre, stop}
use pulsevideo.MultiSocket.Lifecycle.Stop.{start-IsLinked, stop-IsShut}

-- The hash table and the list of clients agree, and no client is being removed.
pub record IsSafe (s : Sink) : Type 0 where
  pub linked : IsLinked s
  pub calm : IsCalm s

-- The parts of a sink that this reads.
pub same-IsSafe :
    (s t : Sink)
    → t.clients ≡ s.clients
    → t.handle_hash ≡ s.handle_hash
    → t.next_ptr ≡ s.next_ptr
    → IsSafe s
    → IsSafe t
same-IsSafe s t c h p v = record {
  linked = IsLinked-same (ap index c) h p v.linked;
  calm = subst (All IsQuiet) (sym c) v.calm;
}

pub empty-IsSafe : (s : Sink) → s.clients ≡ [] → s.handle_hash ≡ [] → IsSafe s
empty-IsSafe s c h = record {
  linked = record {
    indexed = h ∙ sym (ap index c);
    distinct = subst (λ cs. Distinct (index cs)) (sym c) tt;
    fresh = subst (λ cs. All (λ e. e.1 < s.next_ptr) (index cs)) (sym c) tt;
  };
  calm = subst (All IsQuiet) (sym c) tt;
}

-- A property is no client, and no buffer.
unfoldable pub SameClients : Sink → Sink → Type 0
SameClients s t =
    (t.clients ≡ s.clients)
    × (t.handle_hash ≡ s.handle_hash)
    × (t.next_ptr ≡ s.next_ptr)
    × (t.bufqueue ≡ s.bufqueue)

pub set_property-SameClients :
    (p : Property) (v : ValueOf p) (s : Sink) → SameClients s (set_property p v s)
unfolding set_property SameClients
set_property-SameClients Property.prop_buffers_max v s = (refl, refl, refl, refl)
set_property-SameClients Property.prop_buffers_soft_max v s = (refl, refl, refl, refl)
set_property-SameClients Property.prop_time_min v s = (refl, refl, refl, refl)
set_property-SameClients Property.prop_bytes_min v s = (refl, refl, refl, refl)
set_property-SameClients Property.prop_buffers_min v s = (refl, refl, refl, refl)
set_property-SameClients Property.prop_unit_format v s = (refl, refl, refl, refl)
set_property-SameClients Property.prop_units_max v s = (refl, refl, refl, refl)
set_property-SameClients Property.prop_units_soft_max v s = (refl, refl, refl, refl)
set_property-SameClients Property.prop_recover_policy v s = (refl, refl, refl, refl)
set_property-SameClients Property.prop_timeout v s = (refl, refl, refl, refl)
set_property-SameClients Property.prop_sync_method v s = (refl, refl, refl, refl)
set_property-SameClients Property.prop_burst_format v s = (refl, refl, refl, refl)
set_property-SameClients Property.prop_burst_value v s = (refl, refl, refl, refl)
set_property-SameClients Property.prop_qos_dscp v s = (refl, refl, refl, refl)
set_property-SameClients Property.prop_resend_streamheader v s = (refl, refl, refl, refl)

pub set_property-IsSafe :
    (p : Property) (v : ValueOf p) (s : Sink) → IsSafe s → IsSafe (set_property p v s)
unfolding SameClients
set_property-IsSafe p v s h =
    let same = set_property-SameClients p v s in same-IsSafe s _ same.0 same.1 same.2 h

start-IsCalm : (s : Sink) → IsCalm s → IsCalm (start s)
unfolding start start_pre
start-IsCalm s h = if_cases IsCalm s.is_open (λ t. h) (λ f. mapped s.clients h)
  where
    mapped :
        (cs : List Client)
        → All IsQuiet cs
        → All IsQuiet (
            map
              (λ (c : Client).
                if c.source then c else hash_adding (record s { main_context = true }) c)
              cs)
    mapped [] a = tt
    mapped (c ∷ cs) a = (
      if_cases IsQuiet c.source (λ t. a.0)
          (λ f.
            ap (λ (d : Client). d.currently_removing)
              (hash_adding_lem (record s { main_context = true }) c)
            ∙ a.0),
      mapped cs a.1,
    )

pub stop_closed : (now : ℕ) (s : Sink) → s.is_open ≡ false → stop now s ≡ s
unfolding stop
stop_closed now s e = if_cases (λ t. t ≡ s) (not s.is_open) (λ t. refl) (λ f. cc (ap not e))

stop-IsSafe : (now : ℕ) (s : Sink) → IsSafe s → IsSafe (stop now s)
stop-IsSafe now s h = elim (Bool-cases s.is_open) [
  | inl t ↦
      let shut = stop-IsShut now s h.linked t h.calm in
      empty-IsSafe (stop now s) shut.no_clients shut.no_handles
  | inr f ↦ subst IsSafe (sym (stop_closed now s f)) h
]

pub change_state-IsSafe :
    (now : ℕ) (t : Transition) (s : Sink) → IsSafe s → IsSafe (change_state now t s)
unfolding change_state
change_state-IsSafe now Transition.null_to_ready s h = record {
  linked = start-IsLinked s h.linked;
  calm = start-IsCalm s h.calm;
}
change_state-IsSafe now Transition.ready_to_null s h = stop-IsSafe now s h
change_state-IsSafe now Transition.other_transition s h = h

-- A sink that an operation leaves, if it leaves one.
unfoldable pub IfReturned : (Sink → Type 0) → Option Sink → Type 0
IfReturned P none = Unit {0}
IfReturned P (some t) = P t

pub IfReturned-some :
    (P : Sink → Type 0) (o : Option Sink) (t : Sink) → IfReturned P o → o ≡ some t → P t
unfolding IfReturned
IfReturned-some P o t h e = subst (IfReturned P) e h

pub render-IsSafe :
    (now : ℕ) (b : Buffer) (s : Sink) → IsSafe s → IfReturned IsSafe (render multi_socket now b s)
unfolding render IfReturned
render-IsSafe now b s h =
    if_cases (IfReturned IsSafe) (not s.is_open) (λ t. tt)
      (λ f.
        if_cases (IfReturned IsSafe) b.header (λ t. same-IsSafe s _ refl refl refl h)
          (λ g.
            let t : Sink = record s {
              streamheader =
                  if b.header && not s.previous_buffer_in_caps then [] else s.streamheader;
              previous_buffer_in_caps = b.header;
            } in
            same-IsSafe (queue_buffer multi_socket now b t) _ refl refl refl (record {
              linked =
                  (queue_buffer-IsSettled multi_socket now b t
                    (IsLinked-same refl refl refl h.linked)).linked;
              calm = queue_buffer-IsCalm multi_socket now b t h.calm;
            })))

-- What the removal of a slow client keeps holds after the walk of the timeout, if it returns.
pub timeout_walk_kept :
    (P : Sink → Type 0)
    → ((now p : ℕ) (s : Sink)
        → P s
        → P (remove_client_link multi_socket now p (update p (λ d. record d { status = slow }) s)))
    → (now : ℕ) (cs : List Client) (s : Sink) → P s
    → IfReturned P (timeout_walk now cs s)
unfolding timeout_walk timeout_visit IfReturned
timeout_walk_kept P k now [] s h = h
timeout_walk_kept P k now (c ∷ cs) s h =
    let t = timeout_visit now c s in
    let after : P t = if_cases P (is_overdue now s.timeout c) (λ u. k now c.ptr s h) (λ u. h) in
    let rest = timeout_walk_kept P k now cs t after in
    option_cases (IfReturned P) (find_client c.ptr t.clients) (λ n. tt) (λ d e. rest)

pub timeout_walk-IsSafe :
    (now : ℕ) (cs : List Client) (s : Sink) → IsSafe s → IfReturned IsSafe (timeout_walk now cs s)
timeout_walk-IsSafe now cs s h =
    timeout_walk_kept IsSafe
      (λ n p t w. record {
        linked =
            remove_client_link-IsLinked multi_socket n p _
              (update-IsLinked p (λ d. record d { status = slow }) t (λ d. (refl, refl)) w.linked);
        calm =
            remove_client_link-IsCalm multi_socket n p _
              (update-IsCalm p (λ d. record d { status = slow }) t (λ d. refl) w.calm);
      })
      now cs s h

pub put-IsSafe :
    (s : Sink) (c d : Client)
    → IsSafe s
    → find_client c.ptr s.clients ≡ some c
    → SameKey c d
    → IsSafe (update d.ptr (λ x. d) s)
put-IsSafe s c d h e k = record {
  linked = put-IsLinked s c d h.linked e k;
  calm =
      All-update IsQuiet d.ptr (λ x. d) s.clients
        (λ x q a. k.2 ∙ find_client-All IsQuiet c.ptr s.clients c h.calm e) h.calm;
}

pub remove_client_link-IsSafe :
    (now p : ℕ) (s : Sink) → IsSafe s → IsSafe (remove_client_link multi_socket now p s)
remove_client_link-IsSafe now p s h = record {
  linked = remove_client_link-IsLinked multi_socket now p s h.linked;
  calm = remove_client_link-IsCalm multi_socket now p s h.calm;
}

pub IsSafe-IsKept : (ops : CapsOps) → IsKept ops (Unit {0}) IsSafe Anything
IsSafe-IsKept ops = record {
  put = λ s c d h e k q. put-IsSafe s c d h e k;
  gone = remove_client_link-IsSafe;
  counted = λ n s h. same-IsSafe s _ refl refl refl h;
  counted_for = λ n s d q. tt;
  marked = λ s c st h e. tt;
  was_read = λ s c reads h e. tt;
  was_written = λ now answers s c h e. Wrote-Anything s (write_loop ops now s answers c);
}
