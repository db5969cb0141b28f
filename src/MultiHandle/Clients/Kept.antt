-- ===== src/MultiHandle/Clients/Kept.antt =====
-- What the removal of one client leaves of the others and of the sink.
use pulsevideo.Base.{ℕ, ◌≡◌, ◌≢◌, refl, ap, ◌∙◌, option_cases, if_cases}
use pulsevideo.MultiHandle.Types.{Sink}
use pulsevideo.MultiHandle.Class.{SinkClass}
use pulsevideo.MultiHandle.Store.{find_client, update_client}
use pulsevideo.MultiHandle.Store.Laws.{
  find_client-ptr, find_client-update_ne, find_client-delete_ne,
}
use pulsevideo.MultiHandle.Clients.{
  mark_removed, remove_begin, remove_finish, remove_found, remove_client_link,
}
use pulsevideo.MultiHandle.Clients.Linked.{mark_removed-KeepsKey}
use pulsevideo.MultiHandle.Clients.Balance.{remove_client_link-P}

-- `t` is `s` with other clients, another table, other signals and other counters.
abbrev pub SameButClients : Sink → Sink → Type 0
SameButClients s t = t ≡ record s {
  clients = t.clients;
  handle_hash = t.handle_hash;
  clients_cookie = t.clients_cookie;
  signals = t.signals;
  bytes_served = t.bytes_served;
}

module _ (k : SinkClass) where
  pub remove_client_link-find_ne :
      (now q p : ℕ) (s : Sink)
      → p ≢ q
      → find_client p (remove_client_link k now q s).clients ≡ find_client p s.clients
  unfolding remove_client_link remove_found remove_begin remove_finish
  remove_client_link-find_ne now q p s n =
      option_cases (λ (t : Sink). find_client p t.clients ≡ find_client p s.clients)
        (find_client q s.clients) (λ e. refl)
        (λ c e.
          if_cases (λ (t : Sink). find_client p t.clients ≡ find_client p s.clients)
            c.currently_removing (λ t. refl)
            (λ f.
              let same = find_client-ptr q s.clients c e in
              let other : p ≢ c.ptr = λ x. n (x ∙ same) in
              let keeps = mark_removed-KeepsKey k now in
              find_client-delete_ne (mark_removed k now c).ptr p
                (update_client c.ptr (mark_removed k now) s.clients) (λ x. other (x ∙ (keeps c).1))
              ∙ find_client-update_ne c.ptr p (mark_removed k now) s.clients keeps other))

  pub remove_client_link-SameButClients :
      (now q : ℕ) (s t : Sink)
      → SameButClients s t
      → SameButClients s (remove_client_link k now q t)
  unfolding remove_begin remove_finish
  remove_client_link-SameButClients now q s t h =
      remove_client_link-P k (SameButClients s) now q t h (λ c.
        let r = remove_finish k (mark_removed k now c) (remove_begin k now c t) in
        ap
          (λ (y : Sink). record y {
            clients = r.clients;
            handle_hash = r.handle_hash;
            clients_cookie = r.clients_cookie;
            signals = r.signals;
          })
          h)
