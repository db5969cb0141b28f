-- ===== src/MultiHandle/Queue/Restart.antt =====
-- What the restart of queue_buffer does to the clients that come before the one that is removed.
pub mod Twice
use pulsevideo.Base.{
  ℕ, zero, suc, ◌+◌, ◌<◌, ◌≡◌, ◌≢◌, refl, sym, ap, ◌∙◌, subst, Bool, true, false, ◌==◌, inl, inr,
  if◌then◌else◌, List, [], ◌∷◌, ◌++◌, All, length, some, pos, minus_one, ◌+ℤ◌, ltb_ℤ, arith,
}
use pulsevideo.MultiHandle.Types.{Client, Sink, Buffer}
use pulsevideo.MultiHandle.Class.{SinkClass}
use pulsevideo.MultiHandle.Store.{find_client, update_client, delete_client}
use pulsevideo.MultiHandle.Store.Laws.{
  find_client-update_self, find_client-update_ne, All-update, KeepsKey,
}
use pulsevideo.MultiHandle.Store.Put.{All-delete_at}
use pulsevideo.MultiHandle.Clients.{pointers, update, mark_removed, remove_client_link}
use pulsevideo.MultiHandle.Clients.Kept.{remove_client_link-find_ne}
use pulsevideo.MultiHandle.Clients.Remove.{remove_client_link_lem}
use pulsevideo.MultiHandle.Clients.Linked.{
  IsLinked, update-IsLinked, IsLinked-same, remove_client_link-IsLinked, mark_removed-KeepsKey,
}
use pulsevideo.MultiHandle.Queue.{
  Usage, recover, advance, is_too_slow, slow_client, visit, visit_node, visit_walk, visit_rounds,
  prepend, trim_queue, queue_buffer,
}
use pulsevideo.MultiHandle.Queue.Walk.{kept-KeepsKey, visit_node_cases, slow_client-KeepsKey}
use pulsevideo.MultiHandle.Queue.Within.{Among}
use pulsevideo.MultiHandle.Queue.Room.{Unique, Unique-pointers}
use pulsevideo.MultiHandle.Queue.Tracked.{
  is_late, Tracked, IsTracking, visit_node-IsTracking, visit_rounds-IsTracking,
}
use pulsevideo.MultiHandle.Queue.Tracked.Whole.{
  Anyone, begin-IsTracking, visit_clients-plain, at_end,
}

pub Unique-append :
    (q : ℕ) (xs ys : List ℕ) → Unique (xs ++ q ∷ ys) → Unique xs × (Among q xs → zero ≡ 1)
unfolding Unique Among
Unique-append q [] ys u = (tt, λ a. a)
Unique-append q (x ∷ xs) ys u =
    let (unique, absent) = Unique-append q xs ys u.1 in
    (
      (λ a. u.0 (front x xs a), unique),
      λ a. elim a [
        | inl same ↦ u.0 (subst (λ y. Among y (xs ++ q ∷ ys)) same (here xs))
        | inr b ↦ absent b
      ],
    )
  where
    front : (x : ℕ) (xs : List ℕ) → Among x xs → Among x (xs ++ q ∷ ys)
    front x [] a = absurd (omega (arith, a))
    front x (y ∷ xs) (inl e) = inl e
    front x (y ∷ xs) (inr a) = inr (front x xs a)

    here : (xs : List ℕ) → Among q (xs ++ q ∷ ys)
    here [] = inl refl
    here (y ∷ xs) = inr (here xs)

pub others : (q : ℕ) (xs : List ℕ) → (Among q xs → zero ≡ 1) → All (λ x. x ≢ q) xs
unfolding Among
others q [] n = tt
others q (x ∷ xs) n =
    (λ same. let no = n (inl (sym same)) in omega (arith, no), others q xs (λ a. n (inr a)))

module _ (k : SinkClass) (now : ℕ) where
  visit_node-find :
      (q x : ℕ) (u : Usage)
      → q ≢ x
      → find_client q (visit_node k now minus_one minus_one x u).sink.clients
        ≡ find_client q u.sink.clients
  visit_node-find q x u n =
      visit_node_cases k now minus_one minus_one
        (λ v. find_client q v.sink.clients ≡ find_client q u.sink.clients) x u (λ e. refl)
        (λ d e same t.
          remove_client_link-find_ne k now d.ptr q _ (λ z. n (z ∙ same))
          ∙ find_client-update_ne d.ptr q _ u.sink.clients (slow_client-KeepsKey k u.sink minus_one)
              (λ z. n (z ∙ same)))
        (λ d e same f.
          find_client-update_ne d.ptr q _ u.sink.clients (kept-KeepsKey k u.sink minus_one)
            (λ z. n (z ∙ same)))

  module _ (InTime : ℕ → Type 0) (p : ℕ) (c : Client) (s : Sink) where
    -- The walk through nodes that are in time.
    pub walk_through :
        (q : ℕ) (before after : List ℕ) (u : Usage)
        → IsTracking InTime now p c s before u
        → All (λ x. x ≢ q) before
        → (w : Usage) × (visit_walk k now minus_one minus_one s.clients_cookie (before ++ after) u
            ≡ visit_walk k now minus_one minus_one s.clients_cookie after w)
          × IsTracking InTime now p c s [] w
          × (find_client q w.sink.clients ≡ find_client q u.sink.clients)
    unfolding visit_walk
    walk_through q [] after u h n = (u, refl, h, refl)
    walk_through q (x ∷ before) after u h n =
        let cookie : (s.clients_cookie == u.sink.clients_cookie) ≡ true =
          let e = ap (λ (t : Sink). t.clients_cookie) h.same in ground (arith, e) in
        let (w, walked, tracks, same) =
          walk_through q before after (visit_node k now minus_one minus_one x u)
            (visit_node-IsTracking k p c s now InTime x before u h) n.1 in
        (w, rw cookie walked, tracks, same ∙ visit_node-find q x u (λ e. n.0 (sym e)))

  -- The overdue client.
  module _ (s : Sink) (d : Client) (quiet : d.currently_removing ≡ false)
      (late : is_late s.timeout now d ≡ true) where
    abbrev pub removed_from : Usage → Usage
    removed_from u = record u {
      sink = remove_client_link k now d.ptr (update d.ptr (slow_client k u.sink minus_one) u.sink);
    }

    pub visit_node-late :
        (u : Usage)
        → u.sink ≡ record s { clients = u.sink.clients }
        → find_client d.ptr u.sink.clients ≡ some d
        → visit_node k now minus_one minus_one d.ptr u ≡ removed_from u
    unfolding visit_node visit is_too_slow advance recover
    visit_node-late u same e =
        let slow : is_too_slow u.sink minus_one now (advance u.sink minus_one d) ≡ true =
          ap (λ (t : Sink). is_late t.timeout now d) same ∙ late in
        rw (e, slow) refl

    abbrev slowed : Usage → Sink
    slowed u = update d.ptr (slow_client k u.sink minus_one) u.sink

    removed-record :
        (u : Usage)
        → find_client d.ptr u.sink.clients ≡ some d
        → (removed_from u).sink ≡ record (slowed u) {
          handle_hash = (removed_from u).sink.handle_hash;
          clients =
              delete_client d.ptr (update_client d.ptr (mark_removed k now) (slowed u).clients);
          clients_cookie = u.sink.clients_cookie + 1;
          signals = (removed_from u).sink.signals;
        }
    unfolding slow_client advance recover
    removed-record u e =
        let gone =
          remove_client_link_lem k now (slowed u) (slow_client k u.sink minus_one d)
            (find_client-update_self d.ptr (slow_client k u.sink minus_one) u.sink.clients d
              (slow_client-KeepsKey k u.sink minus_one) e)
            quiet in
        gone
        ∙ ap
            (λ (t : Sink). record (slowed u) {
              handle_hash = t.handle_hash;
              clients =
                  delete_client d.ptr (update_client d.ptr (mark_removed k now) (slowed u).clients);
              clients_cookie = u.sink.clients_cookie + 1;
              signals = t.signals;
            })
            (sym gone)

    pub removed-cookie :
        (u : Usage)
        → find_client d.ptr u.sink.clients ≡ some d
        → (removed_from u).sink.clients_cookie ≡ u.sink.clients_cookie + 1
    removed-cookie u e = ap (λ (t : Sink). t.clients_cookie) (removed-record u e)

    pub removed-in_time :
        (u : Usage)
        → IsLinked u.sink
        → u.sink ≡ record s { clients = u.sink.clients }
        → find_client d.ptr u.sink.clients ≡ some d
        → All (λ x. x.ptr ≢ d.ptr → is_late s.timeout now x ≡ false) u.sink.clients
        → All
            (λ x. is_late (removed_from u).sink.timeout now x ≡ false)
            (removed_from u).sink.clients
    removed-in_time u v same e a =
        let slow = slow_client k u.sink minus_one in
        let slow_keeps = slow_client-KeepsKey k u.sink minus_one in
        let keeps = mark_removed-KeepsKey k now in
        let marked =
          update-IsLinked d.ptr (mark_removed k now) (slowed u) keeps
            (update-IsLinked d.ptr slow u.sink slow_keeps v) in
        let left =
          All-delete_at Late d.ptr (update_client d.ptr (mark_removed k now) (slowed u).clients)
            marked.distinct
            (changed (mark_removed k now) (slowed u).clients keeps
              (changed slow u.sink.clients slow_keeps a)) in
        subst (λ cs. All (λ x. is_late (removed_from u).sink.timeout now x ≡ false) cs)
          (sym (ap (λ (t : Sink). t.clients) (removed-record u e)))
          (subst
            (λ limit.
              All (λ x. is_late limit now x ≡ false)
                (delete_client d.ptr (update_client d.ptr (mark_removed k now) (slowed u).clients)))
            (sym (
              ap (λ (t : Sink). t.timeout) (removed-record u e)
              ∙ ap (λ (t : Sink). t.timeout) same))
            left)
      where
        Late : Client → Type 0
        Late x = is_late s.timeout now x ≡ false

        changed :
            (f : Client → Client) (cs : List Client)
            → KeepsKey f
            → All (λ x. x.ptr ≢ d.ptr → Late x) cs
            → All (λ x. x.ptr ≢ d.ptr → Late x) (update_client d.ptr f cs)
        changed f cs keeps h =
            All-update (λ x. x.ptr ≢ d.ptr → Late x) d.ptr f cs
              (λ x at g n. absurd (n ((keeps x).1 ∙ at))) h
