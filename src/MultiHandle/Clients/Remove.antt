-- ===== src/MultiHandle/Clients/Remove.antt =====
-- What removing one client does.
use pulsevideo.Base.{
  ℕ, ◌+◌, ◌≡◌, ◌≢◌, refl, sym, ap, ◌∙◌, false, inl, inr, Option-cases, option_case, Option, none,
  some, ◌∷◌, ◌++◌,
}
use pulsevideo.MultiHandle.Types.{Client, Sink, client_removed, ok, removed}
use pulsevideo.MultiHandle.Class.{SinkClass}
use pulsevideo.MultiHandle.Store.{
  find_client, update_client, delete_client, hash_lookup, hash_remove,
}
use pulsevideo.MultiHandle.Store.Laws.{
  find_client-update_self, find_client-ptr, hash_lookup-find, find_client-update_ne,
  find_client-delete_ne,
}
use pulsevideo.MultiHandle.Store.Hash.{
  hash_lookup-remove_self, hash_lookup-remove_ne, hash_lookup_injective,
}
use pulsevideo.MultiHandle.Clients.{
  update, lookup, mark_removed, remove_begin, remove_finish, remove_found, remove_client_link,
  remove_client, remove,
}
use pulsevideo.MultiHandle.Clients.Linked.{IsLinked, mark_removed-KeepsKey}

abbrev pub mark : Client → Client
mark d = record d { status = removed }

module _ (k : SinkClass) (now : ℕ) where
  -- What remove_client_link does to a sink that lists the client, if it is not being removed yet.
  pub remove_client_link_lem :
      (s : Sink) (c : Client)
      → find_client c.ptr s.clients ≡ some c
      → c.currently_removing ≡ false
      → remove_client_link k now c.ptr s ≡ record s {
        handle_hash = hash_remove c.handle s.handle_hash;
        clients = delete_client c.ptr (update_client c.ptr (mark_removed k now) s.clients);
        clients_cookie = s.clients_cookie + 1;
        signals =
            k.client_free (mark_removed k now c) ++ client_removed c.handle c.status ∷ s.signals;
      }
  unfolding remove_client_link remove_found remove_begin remove_finish
  remove_client_link_lem s c e f =
      simp (e, f, (mark_removed-KeepsKey k now c).0, (mark_removed-KeepsKey k now c).1)

-- What a handle that leads to a client says of the table and the list.
pub lookup-some :
    (handle : ℕ) (s : Sink) (c : Client)
    → IsLinked s
    → lookup handle s ≡ some c
    → (hash_lookup handle s.handle_hash ≡ some c.ptr)
      × (find_client c.ptr s.clients ≡ some c)
      × (c.handle ≡ handle)
unfolding lookup
lookup-some handle s c v e = elim (Option-cases (hash_lookup handle s.handle_hash)) [
  | inl n ↦ cc (ap (λ o. option_case o none (λ p. find_client p s.clients)) n)
  | inr (p, f) ↦
      let g : find_client p s.clients ≡ some c =
        sym (ap (λ o. option_case o none (λ q. find_client q s.clients)) f) ∙ e in
      let q = find_client-ptr p s.clients c g in
      let (d, h, i) = hash_lookup-find handle p s.clients v.distinct (rw (← v.indexed) f) in
      let same : d ≡ c = cc in (simp q f, simp q g, sym (ap (λ (x : Client). x.handle) same) ∙ i)
]

module _ (k : SinkClass) (now : ℕ) (handle : ℕ) (s : Sink) (c : Client) (v : IsLinked s)
    (e : lookup handle s ≡ some c) (ok_c : c.status ≡ ok)
    (free : c.currently_removing ≡ false) where
  at :
      (hash_lookup handle s.handle_hash ≡ some c.ptr)
      × (find_client c.ptr s.clients ≡ some c)
      × (c.handle ≡ handle)
  at = lookup-some handle s c v e

  change : Client → Client
  change d = mark_removed k now (mark d)

  remove_record : remove k now handle s ≡ record s {
    handle_hash = hash_remove handle s.handle_hash;
    clients =
        delete_client c.ptr
          (update_client c.ptr (mark_removed k now) (update_client c.ptr mark s.clients));
    clients_cookie = s.clients_cookie + 1;
    signals =
        k.client_free (mark_removed k now (mark c)) ++ client_removed handle removed ∷ s.signals;
  }
  unfolding remove remove_client
  remove_record =
      simp (e, ok_c)
        (remove_client_link_lem k now (update c.ptr mark s) (mark c)
            (find_client-update_self c.ptr mark s.clients c (λ d. (refl, refl)) at.1) free
          ∙ ap
              (λ h. record s {
                handle_hash = hash_remove h s.handle_hash;
                clients =
                    delete_client c.ptr (
                      update_client c.ptr (mark_removed k now)
                        (update_client c.ptr mark s.clients));
                clients_cookie = s.clients_cookie + 1;
                signals =
                    k.client_free (mark_removed k now (mark c))
                    ++ client_removed h removed ∷ s.signals;
              })
              at.2)

  others_kept :
      (q : ℕ)
      → q ≢ c.ptr
      → find_client q (
          delete_client c.ptr
            (update_client c.ptr (mark_removed k now) (update_client c.ptr mark s.clients)))
        ≡ find_client q s.clients
  others_kept q n =
      find_client-delete_ne c.ptr q _ n
      ∙ find_client-update_ne c.ptr q (mark_removed k now) _ (mark_removed-KeepsKey k now) n
      ∙ find_client-update_ne c.ptr q mark s.clients (λ d. (refl, refl)) n

  other_lookup :
      (other : ℕ) (o : Option ℕ)
      → other ≢ handle
      → hash_lookup other s.handle_hash ≡ o
      → option_case o none (λ q. find_client q (
          delete_client c.ptr
            (update_client c.ptr (mark_removed k now) (update_client c.ptr mark s.clients))))
        ≡ option_case o none (λ q. find_client q s.clients)
  other_lookup other none n f = refl
  other_lookup other (some q) n f = others_kept q (λ same.
      hash_lookup_injective handle other c.ptr q s.handle_hash (rw v.indexed v.distinct) at.0 f
        (λ z. n (sym z)) (sym same))

  -- Where the table and the list agree, remove takes the handle of a healthy client that is not
  -- being removed out of the table, leaves what every other handle leads to, and signals the removal
  -- before what the subclass signals when it frees the client.
  pub remove_lem :
      (other : ℕ)
      → other ≢ handle
      → let t = remove k now handle s in
        (lookup handle t ≡ none)
        × (lookup other t ≡ lookup other s)
        × (t.signals
            ≡ k.client_free (mark_removed k now (mark c))
              ++ client_removed handle removed ∷ s.signals)
  unfolding lookup
  remove_lem other n = rw remove_record (
    rw (hash_lookup-remove_self handle s.handle_hash (rw v.indexed v.distinct)) refl,
    rw (hash_lookup-remove_ne handle other s.handle_hash n)
        (other_lookup other (hash_lookup other s.handle_hash) n refl),
    refl,
  )
