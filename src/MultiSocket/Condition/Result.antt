-- ===== src/MultiSocket/Condition/Result.antt =====
-- What the result of the callback for a ready socket, by which the main loop keeps or drops its source,
-- says of the client.
use pulsevideo.Base.{
  ℕ, ◌≡◌, refl, sym, ap, ◌∙◌, subst, Bool, true, false, not, ◌&&◌, ◌||◌, if_cases, option_cases,
  option_case, Option, none, some, List, length, add_u64,
}
use pulsevideo.MultiHandle.Types.{Client, Sink, CapsOps, is_ok, is_flushing, error, closed}
use pulsevideo.MultiHandle.Store.{find_client, hash_lookup, hash_remove}
use pulsevideo.MultiHandle.Store.Put.{find_client-put_self, hash_lookup-listed}
use pulsevideo.MultiHandle.Store.Hash.{hash_lookup-remove_self}
use pulsevideo.MultiHandle.Store.Laws.{find_client-All}
use pulsevideo.MultiHandle.Clients.{update, lookup, remove_client_link}
use pulsevideo.MultiHandle.Clients.Linked.{IsLinked, IsLinked-same}
use pulsevideo.MultiHandle.Clients.Remove.{remove_client_link_lem, lookup-some}
use pulsevideo.MultiHandle.Clients.Calm.{IsCalm, IsQuiet}
use pulsevideo.MultiHandle.Position.Key.{SameKey}
use pulsevideo.MultiSocket.{Received, Answer, Written, handle_client_read, write_loop}
use pulsevideo.MultiSocket.Class.{multi_socket}
use pulsevideo.MultiSocket.Condition.{
  Condition, store, store_written, on_condition, socket_condition,
}
use pulsevideo.MultiSocket.Condition.Key.{read_loop_key, WrittenKey, write_loop_key}

-- Whether there is a client.
abbrev pub is_some : Option Client → Bool
is_some none = false
is_some (some c) = true

-- A call that returns TRUE has kept the client of the handle, and one that returns FALSE has left
-- none; `none` is a call that does not return.
abbrev pub IsTold : ℕ → Option (Bool × Sink) → Type 0
IsTold handle none = Unit {0}
IsTold handle (some r) = is_some (lookup handle r.1) ≡ r.0

gone-none :
    (now : ℕ) (s : Sink) (c : Client)
    → IsLinked s
    → find_client c.ptr s.clients ≡ some c
    → c.currently_removing ≡ false
    → lookup c.handle (remove_client_link multi_socket now c.ptr s) ≡ none
unfolding lookup
gone-none now s c v e quiet =
    let gone = remove_client_link_lem multi_socket now s c e quiet in
    let absent : hash_lookup c.handle (hash_remove c.handle s.handle_hash) ≡ none =
      hash_lookup-remove_self c.handle s.handle_hash (rw v.indexed v.distinct) in
    rw gone (rw absent refl)

module _ (now : ℕ) (s : Sink) (c d : Client) (v : IsLinked s)
    (e : find_client c.ptr s.clients ≡ some c) (quiet : c.currently_removing ≡ false)
    (key : SameKey c d) where
  found : find_client d.ptr (update d.ptr (λ x. d) s).clients ≡ some d
  found =
      find_client-put_self d.ptr c d s.clients refl
        (subst (λ x. find_client x s.clients ≡ some c) (sym key.1) e)

  store-IsTold : (keep : Bool) → IsTold c.handle (some (keep, store now keep d s))
  unfolding lookup
  store-IsTold true =
      let at : hash_lookup c.handle s.handle_hash ≡ some d.ptr =
        ap (hash_lookup c.handle) v.indexed
        ∙ hash_lookup-listed c.ptr s.clients c v.distinct e
        ∙ ap some (sym key.1) in
      rw (at, found) refl
  store-IsTold false =
      let gone =
        remove_client_link_lem multi_socket now (update d.ptr (λ x. d) s) d found (key.2 ∙ quiet) in
      let absent : hash_lookup c.handle (hash_remove c.handle s.handle_hash) ≡ none =
        hash_lookup-remove_self c.handle s.handle_hash (rw v.indexed v.distinct) in
      rw (gone, key.0) (rw absent refl)

module _ (ops : CapsOps) (now : ℕ) (condition : Condition) (reads : List Received)
    (answers : List Answer) where
  written-IsTold :
      (s : Sink) (c : Client) (o : Option Written)
      → IsLinked s
      → find_client c.ptr s.clients ≡ some c
      → c.currently_removing ≡ false
      → WrittenKey c o
      → IsTold c.handle (option_case o none (λ w. some (store_written now w s)))
  unfolding WrittenKey
  written-IsTold s c none v e quiet key = tt
  written-IsTold s c (some w) v e quiet key =
      store-IsTold now (record s { bytes_served = add_u64 s.bytes_served (length w.sent) }) c
        w.client (IsLinked-same refl refl refl v) e quiet key w.result

  on_condition-IsTold :
      (s : Sink) (c : Client)
      → IsLinked s
      → lookup c.handle s ≡ some c
      → find_client c.ptr s.clients ≡ some c
      → c.currently_removing ≡ false
      → IsTold c.handle (on_condition ops now condition reads answers c s)
  unfolding on_condition handle_client_read
  on_condition-IsTold s c v l e quiet =
      let told = IsTold c.handle in
      let stored = λ (d : Client) (key : SameKey c d) (keep : Bool).
        store-IsTold now s c d v e quiet key keep in
      if_cases told (not (is_flushing c.status) && not (is_ok c.status))
        (λ t. rw (gone-none now s c v e quiet) refl)
        (λ f.
          if_cases told condition.err
            (λ t. stored (record c { status = error }) (refl, refl, refl) false)
            (λ f.
              if_cases told condition.hup
                (λ t. stored (record c { status = closed }) (refl, refl, refl) false)
                (λ f.
                  if_cases told (condition.input || condition.pri)
                    (λ t. stored _ (read_loop_key true reads c) _)
                    (λ f.
                      if_cases told condition.output
                        (λ t.
                          written-IsTold s c (write_loop ops now s answers c) v e quiet
                            (write_loop_key ops s now answers c))
                        (λ f. rw l refl)))))

  -- Where the hash table and the list of clients agree and no client is being removed, the callback
  -- for a ready socket returns FALSE, which drops the source, exactly where it leaves no client with
  -- that handle, on every branch, as long as it returns.
  pub socket_condition-IsTold :
      (handle : ℕ) (s : Sink)
      → IsLinked s
      → IsCalm s
      → IsTold handle (socket_condition ops now condition reads answers handle s)
  unfolding socket_condition
  socket_condition-IsTold handle s v calm =
      option_cases (IsTold handle) (lookup handle s) (λ n. rw n refl)
        (λ c l.
          let at = lookup-some handle s c v l in
          subst (λ h. IsTold h (on_condition ops now condition reads answers c s)) at.2
            (on_condition-IsTold s c v (subst (λ h. lookup h s ≡ some c) (sym at.2) l) at.1
              (find_client-All IsQuiet c.ptr s.clients c calm at.1)))
