-- ===== src/MultiHandle/Clients/Linked.antt =====
-- The hash table and the list of clients agree, through every operation on clients.
use pulsevideo.Base.{
  ℕ, ◌<◌, ◌≡◌, refl, sym, ap, ◌∙◌, not, option_cases, if_cases, none, some, ◌∷◌, All, All-map,
  All-both, arith,
}
use pulsevideo.MultiHandle.Types.{
  Client, Sink, Format, SyncMethod, Signal, client_added, client_removed, duplicate, is_ok, removed,
}
use pulsevideo.MultiHandle.Class.{SinkClass, client_init}
use pulsevideo.MultiHandle.Store.{
  find_client, delete_client, hash_lookup, hash_remove, hash_insert, index,
}
use pulsevideo.MultiHandle.Store.Laws.{
  KeepsKey, index-update, index-delete, find_client-ptr, find_client-update_self,
}
use pulsevideo.MultiHandle.Store.Hash.{
  Distinct, All-hash_remove, hash_remove-Distinct, hash_remove_absent, hash_lookup-none,
}
use pulsevideo.MultiHandle.Clients.{
  emit, update, lookup, mark_removed, remove_begin, remove_finish, remove_found, remove_client_link,
  insert_client, wrong_limits, add_full, add, remove_client, remove, flush_client, remove_flush,
}

-- The hash table holds exactly the handles of the listed clients, each with its node; handles and
-- addresses are distinct; and the next address is fresh.
pub record IsLinked (s : Sink) : Type 0 where
  pub indexed : s.handle_hash ≡ index s.clients
  pub distinct : Distinct (index s.clients)
  pub fresh : All (λ e. e.1 < s.next_ptr) (index s.clients)

-- The parts of a sink that the invariant reads.
pub IsLinked-same :
    {s t : Sink}
    → index t.clients ≡ index s.clients
    → t.handle_hash ≡ s.handle_hash
    → t.next_ptr ≡ s.next_ptr
    → IsLinked s
    → IsLinked t
IsLinked-same {s} {t} a b c v = record {
  indexed = b ∙ v.indexed ∙ sym a;
  distinct = rw a v.distinct;
  fresh = rw (a, c) v.fresh;
}

pub emit-IsLinked : (x : Signal) (s : Sink) → IsLinked s → IsLinked (emit x s)
emit-IsLinked x s v = IsLinked-same refl refl refl v

pub update-IsLinked :
    (p : ℕ) (f : Client → Client) (s : Sink) → KeepsKey f → IsLinked s → IsLinked (update p f s)
update-IsLinked p f s k v = IsLinked-same (index-update p f s.clients k) refl refl v

module _ (k : SinkClass) where
  pub mark_removed-KeepsKey : (now : ℕ) → KeepsKey (mark_removed k now)
  unfolding mark_removed
  mark_removed-KeepsKey now c = (
    ap (λ (d : Client). d.handle) (k.hash_removing_lem _),
    ap (λ (d : Client). d.ptr) (k.hash_removing_lem _),
  )

  pub remove_found-IsLinked :
      (now : ℕ) (c : Client) (s : Sink)
      → find_client c.ptr s.clients ≡ some c
      → IsLinked s
      → IsLinked (remove_found k now c s)
  unfolding remove_found remove_begin remove_finish
  remove_found-IsLinked now c s e v = if_cases IsLinked c.currently_removing (λ t. v) (λ f. finish)
    where
      t : Sink
      t = remove_begin k now c s

      c' : Client
      c' = mark_removed k now c

      marked : IsLinked t
      marked =
          IsLinked-same
            (index-update c.ptr (mark_removed k now) s.clients (mark_removed-KeepsKey now)) refl
            refl v

      found : find_client c'.ptr t.clients ≡ some c'
      found = simp ((mark_removed-KeepsKey now c).1) (
          find_client-update_self c.ptr (mark_removed k now) s.clients c (mark_removed-KeepsKey now)
            e)

      gone : index (delete_client c'.ptr t.clients) ≡ hash_remove c'.handle (index t.clients)
      gone = index-delete c'.ptr t.clients c' found marked.distinct

      finish : IsLinked (remove_finish k c' t)
      finish = record {
        indexed = rw (gone, marked.indexed);
        distinct = rw gone (hash_remove-Distinct c'.handle (index t.clients) marked.distinct);
        fresh = rw gone (All-hash_remove _ c'.handle (index t.clients) marked.fresh);
      }

  pub remove_client_link-IsLinked :
      (now p : ℕ) (s : Sink) → IsLinked s → IsLinked (remove_client_link k now p s)
  unfolding remove_client_link
  remove_client_link-IsLinked now p s v =
      option_cases IsLinked (find_client p s.clients) (λ n. v)
        (λ c e. remove_found-IsLinked now c s (simp (find_client-ptr p s.clients c e) e) v)

-- The sink with a new client in front.
insert_client-IsLinked :
    (c : Client) (s : Sink)
    → c.ptr ≡ s.next_ptr
    → hash_lookup c.handle s.handle_hash ≡ none
    → IsLinked s
    → IsLinked (insert_client c s)
unfolding insert_client hash_insert
insert_client-IsLinked c s p h v = record {
  indexed = rw (hash_remove_absent c.handle s.handle_hash h) (ap (◌∷◌ (c.handle, c.ptr)) v.indexed);
  distinct = (
    All-both _ _ (index s.clients)
        (hash_lookup-none c.handle (index s.clients) (rw (← v.indexed) h)) (rw p v.fresh),
    v.distinct,
  );
  fresh = (omega (arith, p), All-map (index s.clients) (λ e q. omega arith) v.fresh);
}

module _ (k : SinkClass) where
  -- Where the hash table and the list of clients agree, they agree after add_full, also where it
  -- refuses the client.
  pub add_full-IsLinked :
      (now handle : ℕ) (m : SyncMethod) (f : Format) (x : ℕ) (g : Format) (y : ℕ) (s : Sink)
      → IsLinked s
      → IsLinked (add_full k now handle m f x g y s)
  unfolding add_full client_init
  add_full-IsLinked now handle m f x g y s v =
      if_cases IsLinked (not s.running) (λ t. v)
        (λ r.
          if_cases IsLinked (wrong_limits f x g y) (λ t. v)
            (λ l.
              option_cases IsLinked (hash_lookup handle s.handle_hash)
                (λ n. emit-IsLinked (client_added handle) _ (
                  insert_client-IsLinked _ s
                    (ap (λ (c : Client). c.ptr) (k.new_client_lem s handle m now))
                    (rw (ap (λ (c : Client). c.handle) (k.new_client_lem s handle m now)) n) v))
                (λ p e. emit-IsLinked (client_removed handle duplicate) s v)))

  -- So they do after add.
  pub add-IsLinked : (now handle : ℕ) (s : Sink) → IsLinked s → IsLinked (add k now handle s)
  unfolding add
  add-IsLinked now handle s v = add_full-IsLinked now handle _ _ _ _ _ s v

  -- Where the hash table and the list of clients agree, they agree after remove, on every branch.
  pub remove-IsLinked : (now handle : ℕ) (s : Sink) → IsLinked s → IsLinked (remove k now handle s)
  unfolding remove remove_client
  remove-IsLinked now handle s v =
      option_cases IsLinked (lookup handle s) (λ n. v)
        (λ c e.
          if_cases IsLinked (not (is_ok c.status)) (λ t. v)
            (λ f.
              remove_client_link-IsLinked k now c.ptr _ (
                update-IsLinked c.ptr (λ d. record d { status = removed }) s (λ d. (refl, refl))
                  v)))

-- Where the hash table and the list of clients agree, they agree after remove_flush.
pub remove_flush-IsLinked : (handle : ℕ) (s : Sink) → IsLinked s → IsLinked (remove_flush handle s)
unfolding remove_flush flush_client
remove_flush-IsLinked handle s v =
    option_cases IsLinked (lookup handle s) (λ n. v)
      (λ c e.
        if_cases IsLinked (not (is_ok c.status)) (λ t. v)
          (λ f. update-IsLinked c.ptr _ s (λ d. (refl, refl)) v))
