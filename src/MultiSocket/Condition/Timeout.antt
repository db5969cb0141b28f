-- ===== src/MultiSocket/Condition/Timeout.antt =====
-- The timeout of the sink, and when its loop runs into a node that it has freed.
use pulsevideo.Base.{
  Bool-cases, ℕ, ◌≡◌, refl, true, false, none, some, List, [], ◌∷◌, All, ◌⊎◌, inl, inr,
}
use pulsevideo.MultiHandle.Types.{Client, Sink, slow}
use pulsevideo.MultiHandle.Store.{find_client, update_client}
use pulsevideo.MultiHandle.Store.Laws.{find_client-update_self}
use pulsevideo.MultiHandle.Store.Put.{find_client-delete_self, find_client-listed}
use pulsevideo.MultiHandle.Clients.{update, mark_removed}
use pulsevideo.MultiHandle.Clients.Linked.{IsLinked, update-IsLinked, mark_removed-KeepsKey}
use pulsevideo.MultiHandle.Clients.Remove.{remove_client_link_lem}
use pulsevideo.MultiSocket.Class.{multi_socket}
use pulsevideo.MultiSocket.Condition.{is_overdue, timeout_visit, timeout_walk, on_timeout}

-- Some client is overdue and not being removed.
unfoldable pub AnyOverdue : ℕ → ℕ → List Client → Type 0
AnyOverdue now limit [] = none ≡ some limit
AnyOverdue now limit (c ∷ cs) =
    ((is_overdue now limit c ≡ true) × (c.currently_removing ≡ false)) ⊎ AnyOverdue now limit cs

walk_quiet :
    (now : ℕ) (cs : List Client) (s : Sink)
    → All (λ c. find_client c.ptr s.clients ≡ some c) cs
    → All (λ c. is_overdue now s.timeout c ≡ false) cs
    → timeout_walk now cs s ≡ some s
unfolding timeout_walk timeout_visit
walk_quiet now [] s l h = refl
walk_quiet now (c ∷ cs) s l h = simp (h.0, l.0, walk_quiet now cs s l.1 h.1) refl

-- Where the table and the list agree and no client is overdue, the timeout changes nothing.
pub on_timeout_quiet :
    (now : ℕ) (s : Sink)
    → IsLinked s
    → All (λ c. is_overdue now s.timeout c ≡ false) s.clients
    → on_timeout now s ≡ some s
unfolding on_timeout
on_timeout_quiet now s v h = walk_quiet now s.clients s (find_client-listed s.clients v.distinct) h

-- The round of an overdue client takes its node out of the list.
visit-gone :
    (now : ℕ) (s : Sink) (c : Client)
    → IsLinked s
    → find_client c.ptr s.clients ≡ some c
    → c.currently_removing ≡ false
    → is_overdue now s.timeout c ≡ true
    → find_client c.ptr (timeout_visit now c s).clients ≡ none
unfolding timeout_visit
visit-gone now s c v e quiet late =
    let slowed : Client → Client = λ d. record d { status = slow } in
    let t : Sink = update c.ptr slowed s in
    let keeps = mark_removed-KeepsKey multi_socket now in
    let marked =
      update-IsLinked c.ptr (mark_removed multi_socket now) t keeps
        (update-IsLinked c.ptr slowed s (λ d. (refl, refl)) v) in
    let found = find_client-update_self c.ptr slowed s.clients c (λ d. (refl, refl)) e in
    let gone = remove_client_link_lem multi_socket now t (slowed c) found quiet in
    let absent =
      find_client-delete_self c.ptr (update_client c.ptr (mark_removed multi_socket now) t.clients)
        marked.distinct in
    simp (late, gone) absent

visit-same :
    (now : ℕ) (s : Sink) (c : Client)
    → is_overdue now s.timeout c ≡ false
    → timeout_visit now c s ≡ s
unfolding timeout_visit
visit-same now s c f = simp f refl

walk_freed :
    (now : ℕ) (cs : List Client) (s : Sink)
    → IsLinked s
    → All (λ c. find_client c.ptr s.clients ≡ some c) cs
    → All (λ (c : Client). c.currently_removing ≡ false) cs
    → AnyOverdue now s.timeout cs
    → timeout_walk now cs s ≡ none
unfolding timeout_walk AnyOverdue
walk_freed now [] s v l a o = cc
walk_freed now (c ∷ cs) s v l a o = elim (Bool-cases (is_overdue now s.timeout c)) [
  | inl t ↦ let gone = visit-gone now s c v l.0 a.0 t in rw gone refl
  | inr f ↦
      let same : timeout_visit now c s ≡ s = visit-same now s c f in
      rw same (rw (l.0) (later f (walk_freed now cs s v l.1 a.1) o))
]
  where
    later :
        is_overdue now s.timeout c ≡ false
        → (AnyOverdue now s.timeout cs → timeout_walk now cs s ≡ none)
        → AnyOverdue now s.timeout (c ∷ cs)
        → timeout_walk now cs s ≡ none
    later f further (inl (t, g)) = cc
    later f further (inr p) = further p

-- Where the hash table and the list of clients agree, no client is being removed, and a client is
-- overdue, the timeout reads the next pointer of a node that remove_client_link has taken out of
-- the list and freed.
pub on_timeout-freed :
    (now : ℕ) (s : Sink)
    → IsLinked s
    → All (λ (c : Client). c.currently_removing ≡ false) s.clients
    → AnyOverdue now s.timeout s.clients
    → on_timeout now s ≡ none
unfolding on_timeout
on_timeout-freed now s v a o =
    walk_freed now s.clients s v (find_client-listed s.clients v.distinct) a o
