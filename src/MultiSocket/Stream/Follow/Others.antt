-- ===== src/MultiSocket/Stream/Follow/Others.antt =====
-- What happens to one client leaves the others, and what they are owed.
use pulsevideo.Base.{ℕ, ◌≡◌, ◌≢◌, refl, sym, ap, ◌∙◌, subst, some, List}
use pulsevideo.MultiHandle.Types.{Client, Sink, CapsOps}
use pulsevideo.MultiHandle.Store.{find_client, hash_lookup}
use pulsevideo.MultiHandle.Store.Put.{find_client-put_ne, hash_lookup-listed}
use pulsevideo.MultiHandle.Clients.{update, lookup}
use pulsevideo.MultiHandle.Clients.Linked.{IsLinked}
use pulsevideo.MultiHandle.Clients.Remove.{lookup-some}
use pulsevideo.MultiHandle.Clients.Kept.{
  remove_client_link-find_ne, SameButClients, remove_client_link-SameButClients,
}
use pulsevideo.MultiSocket.{Received, Answer, write_loop}
use pulsevideo.MultiSocket.Class.{multi_socket}
use pulsevideo.MultiSocket.Condition.{Condition, socket_condition}
use pulsevideo.MultiSocket.Condition.Kept.{After, IsKeptAt, socket_condition_kept_at}
use pulsevideo.MultiSocket.Condition.Linked.{Anything, Wrote-Anything}

-- The client that is listed is the one that its handle leads to,
pub lookup-listed :
    (p : ℕ) (s : Sink) (c : Client)
    → IsLinked s
    → find_client p s.clients ≡ some c
    → lookup c.handle s ≡ some c
unfolding lookup
lookup-listed p s c v e =
    let found : hash_lookup c.handle s.handle_hash ≡ some p =
      ap (hash_lookup c.handle) v.indexed ∙ hash_lookup-listed p s.clients c v.distinct e in
    simp found e

-- and another handle leads to another address.
pub lookup-other :
    (p : ℕ) (s : Sink) (c d : Client) (other : ℕ)
    → IsLinked s
    → find_client p s.clients ≡ some c
    → other ≢ c.handle
    → lookup other s ≡ some d
    → d.ptr ≢ p
lookup-other p s c d other v e n f same =
    let at = lookup-some other s d v f in
    let here : find_client p s.clients ≡ some d =
      subst (λ x. find_client x s.clients ≡ some d) same at.1 in
    let equal : d ≡ c = cc (here, e) in n (sym at.2 ∙ ap (λ (x : Client). x.handle) equal)

module _ (ops : CapsOps) (p : ℕ) (c : Client) (s : Sink) where
  -- The client is as it was, and the sink has changed in nothing but its clients and its counters.
  abbrev pub Untouched : Sink → Type 0
  Untouched t = (find_client p t.clients ≡ some c) × SameButClients s t

  Untouched-IsKeptAt : IsKeptAt ops (λ q. q ≢ p) (Unit {0}) Untouched Anything
  Untouched-IsKeptAt = record {
    put = λ t x d h e k q g. (
      find_client-put_ne d.ptr p d t.clients refl (λ same. g (sym same)) ∙ h.0,
      ap (λ (y : Sink). record y { clients = (update d.ptr (λ z. d) t).clients }) h.1,
    );
    gone = λ now q t h g. (
      remove_client_link-find_ne multi_socket now q p t (λ same. g (sym same)) ∙ h.0,
      remove_client_link-SameButClients multi_socket now q s t h.1,
    );
    counted = λ n t h. (h.0, ap (λ (y : Sink). record y { bytes_served = n }) h.1);
    counted_for = λ n t d q. tt;
    marked = λ t x st h e. tt;
    was_read = λ t x reads h e. tt;
    was_written = λ now answers t x h e. Wrote-Anything t (write_loop ops now t answers x);
  }

  -- The callback for another socket.
  pub socket_condition-Untouched :
      (now : ℕ) (condition : Condition) (reads : List Received) (answers : List Answer) (other : ℕ)
      → IsLinked s
      → find_client p s.clients ≡ some c
      → other ≢ c.handle
      → After (Unit {0}) Untouched (socket_condition ops now condition reads answers other s)
  socket_condition-Untouched now condition reads answers other v e n =
      socket_condition_kept_at ops (λ q. q ≢ p) (Unit {0}) Untouched Anything Untouched-IsKeptAt now
        condition reads answers other s v (e, refl) (λ d f. lookup-other p s c d other v e n f)
