-- ===== src/MultiHandle/Queue/Within.antt =====
-- Where the clients are, and what the queue holds, after a buffer was queued.
use pulsevideo.Base.{
  ℕ, zero, suc, ◌+◌, ◌≤◌, ◌≡◌, ◌≢◌, All-both, refl, sym, ap, ◌∙◌, inl, inr, ◌⊎◌, if_cases, List, [],
  ◌∷◌, length, take, All, All-map, take_all, take-take, length-take, ℤ, pos, negsuc, ◌≤ℤ◌, pos_part,
  ltb_ℤ, arith,
}
use pulsevideo.MultiHandle.Types.{Client, Sink, Buffer}
use pulsevideo.MultiHandle.Class.{SinkClass}
use pulsevideo.MultiHandle.Keyframe.{is_sync_frame}
use pulsevideo.MultiHandle.Store.Laws.{All-update_at, find_client-none}
use pulsevideo.MultiHandle.Clients.{pointers}
use pulsevideo.MultiHandle.Clients.Linked.{
  IsLinked, IsLinked-same, mark_removed-KeepsKey, remove_client_link-IsLinked, update-IsLinked,
}
use pulsevideo.MultiHandle.Clients.Balance.{
  remove_client_link-All, remove_client_link-bufqueue, mark_removed-bufpos,
}
use pulsevideo.MultiHandle.Queue.{
  Usage, advance, keep_client, slow_client, visit_node, buffers_max, extend_to_minima, include_sync,
  wants_sync, extend_to_sync, trim, trim_queue, prepend, visit_clients, queue_buffer,
}
use pulsevideo.MultiHandle.Queue.Walk.{
  keep_client-bufpos, kept-KeepsKey, slow_client-KeepsKey, visit_node_cases, rounds_end,
}

-- A node that the loop has still to visit.
unfoldable pub Among : ℕ → List ℕ → Type 0
Among p [] = zero ≡ 1
Among p (r ∷ ps) = (p ≡ r) ⊎ Among p ps

-- A client is still to be visited, or within the usage counted so far.
abbrev Counted : List ℕ → ℤ → Client → Type 0
Counted ps usage c = Among c.ptr ps ⊎ (c.bufpos ≤ℤ usage)

-- The state of the loop of queue_buffer over the queue `q`, with the nodes `ps` to visit.
pub record IsCounting (q : List Buffer) (ps : List ℕ) (u : Usage) : Type 0 where
  pub linked : IsLinked u.sink
  pub queue : u.sink.bufqueue ≡ q
  pub non_negative : pos 0 ≤ℤ u.usage
  pub counted : All (Counted ps u.usage) u.sink.clients

pub Among-pointers : (cs : List Client) → All (λ (c : Client). Among c.ptr (pointers cs)) cs
unfolding Among pointers
Among-pointers [] = tt
Among-pointers (c ∷ cs) = (inl refl, All-map cs (λ d. inr) (Among-pointers cs))

-- A restart puts every client before the loop again.
start_again :
    (q : List Buffer) (ps : List ℕ) (u : Usage)
    → IsCounting q ps u
    → IsCounting q (pointers u.sink.clients) u
start_again q ps u h = record {
  linked = h.linked;
  queue = h.queue;
  non_negative = h.non_negative;
  counted = All-map u.sink.clients (λ d. inl) (Among-pointers u.sink.clients);
}

-- A client at another node than the one just visited.
Counted-other :
    (p : ℕ) (ps : List ℕ) (x y : ℤ) (d : Client)
    → x ≤ℤ y
    → d.ptr ≢ p
    → Counted (p ∷ ps) x d
    → Counted ps y d
unfolding Among
Counted-other p ps x y d h n (inl (inl e)) = absurd (n e)
Counted-other p ps x y d h n (inl (inr a)) = inl a
Counted-other p ps x y d h n (inr b) = inr (omega arith)

module _ (k : SinkClass) where
  slow_below :
      (u : Usage) (soft_max : ℤ) (c : Client)
      → pos 0 ≤ℤ u.usage
      → (slow_client k u.sink soft_max c).bufpos ≤ℤ u.usage
  unfolding slow_client
  slow_below u soft_max c h = omega (arith, h)

module _ (k : SinkClass) (now : ℕ) (max soft_max : ℤ) (q : List Buffer) where
  visit_node-IsCounting :
      (p : ℕ) (ps : List ℕ) (u : Usage)
      → IsCounting q (p ∷ ps) u
      → IsCounting q ps (visit_node k now max soft_max p u)
  visit_node-IsCounting p ps u h =
      visit_node_cases k now max soft_max (IsCounting q ps) p u
        (λ n. record {
          linked = h.linked;
          queue = h.queue;
          non_negative = h.non_negative;
          counted =
              All-map u.sink.clients
                (λ d both. Counted-other p ps u.usage u.usage d (omega arith) both.0 both.1)
                (All-both _ _ u.sink.clients (find_client-none p u.sink.clients n) h.counted);
        })
        (λ c e same t. record {
          linked = remove_client_link-IsLinked k now c.ptr _ (
              update-IsLinked c.ptr (slow_client k u.sink soft_max) u.sink
                (slow_client-KeepsKey k u.sink soft_max) h.linked);
          queue = remove_client_link-bufqueue k now c.ptr _ ∙ h.queue;
          non_negative = h.non_negative;
          counted =
              remove_client_link-All k (Counted ps u.usage) now c.ptr _
                (λ d a. rw ((mark_removed-KeepsKey k now d).1, mark_removed-bufpos k now d) a)
                (All-update_at (slow_client k u.sink soft_max) u.sink.clients c h.linked.distinct e
                  h.counted
                  (λ d n.
                    Counted-other p ps u.usage u.usage d (omega arith) (λ z. n (z ∙ sym same)))
                  (λ a. inr (slow_below k u soft_max c h.non_negative)));
        })
        (λ c e same f. record {
          linked = update-IsLinked c.ptr _ u.sink (kept-KeepsKey k u.sink soft_max) h.linked;
          queue = h.queue;
          non_negative = ground (arith, h.non_negative);
          counted =
              All-update_at (λ d. keep_client k u.sink (advance u.sink soft_max d)) u.sink.clients c
                h.linked.distinct e h.counted
                (λ d n. Counted-other p ps u.usage _ d (ground arith) (λ z. n (z ∙ sym same)))
                (λ a.
                  inr
                    (rw (keep_client-bufpos k u.sink (advance u.sink soft_max c)) (ground arith)));
        })

module _ (k : SinkClass) (now : ℕ) where
  -- The loop ends with every client counted, whatever it removes and however often it restarts.
  visit_clients-IsCounting :
      (s : Sink) → IsLinked s → IsCounting s.bufqueue [] (visit_clients k now s)
  unfolding visit_clients
  visit_clients-IsCounting s v =
      rounds_end k now _ _ (IsCounting s.bufqueue) (visit_node-IsCounting k now _ _ s.bufqueue)
        (start_again s.bufqueue) (length s.clients + 1) (record { usage = pos 0; sink = s })
        (omega arith)
        (record {
          linked = v;
          queue = refl;
          non_negative = omega arith;
          counted = All-map s.clients (λ d. inl) (Among-pointers s.clients);
        })

-- What the queue is extended to is never less than what the clients use.
include_sync-grows : (usage : ℤ) (i : ℕ) (q : List Buffer) → usage ≤ℤ include_sync usage i q
unfolding include_sync
include_sync-grows usage i [] = omega arith
include_sync-grows usage i (b ∷ q) =
    if_cases (λ r. usage ≤ℤ r) (is_sync_frame b) (λ t. ground arith)
      (λ f. include_sync-grows usage (i + 1) q)

extend_to_sync-grows : (s : Sink) (soft_max usage : ℤ) → usage ≤ℤ extend_to_sync s soft_max usage
unfolding extend_to_sync
extend_to_sync-grows s soft_max usage =
    if_cases (λ r. usage ≤ℤ r) (wants_sync s.def_sync_method) (λ t. include_sync-grows usage 0 _)
      (λ f. omega arith)

extend_to_minima-grows : (s : Sink) (usage : ℤ) → usage ≤ℤ extend_to_minima s usage
unfolding extend_to_minima
extend_to_minima-grows s usage = ground arith

trim-take : (n u : ℕ) (q : List Buffer) → length q ≤ n → trim n (pos u) q ≡ take (suc u) q
unfolding trim
trim-take zero u q h = sym (take_all (suc u) q (omega arith))
trim-take (suc i) u q h =
    if_cases (λ r. r ≡ take (suc u) q) (ltb_ℤ (pos u) (pos i))
      (λ t.
        trim-take i u (take i q) (omega (arith, length-take i q))
        ∙ take-take (suc u) i q (ground arith))
      (λ f. sym (take_all (suc u) q (ground arith)))

trim_lem : (u : ℤ) (q : List Buffer) → pos 0 ≤ℤ u → trim (length q) u q ≡ take (suc (pos_part u)) q
trim_lem (pos u) q h = trim-take (length q) u q (omega arith)
trim_lem (negsuc u) q h = absurd (omega arith)

-- The sink after a buffer was queued behind the buffers `q`.
pub record IsSettled (q : List Buffer) (r : Sink) : Type 0 where
  pub linked : IsLinked r
  pub queue : r.bufqueue ≡ take (suc (pos_part r.buffers_queued)) q
  pub non_negative : pos 0 ≤ℤ r.buffers_queued
  pub within : All (λ (c : Client). c.bufpos ≤ℤ r.buffers_queued) r.clients

trim_queue-IsSettled :
    (q : List Buffer) (u : Usage) (usage : ℤ)
    → u.usage ≤ℤ usage
    → IsCounting q [] u
    → IsSettled q (trim_queue usage u.sink)
unfolding trim_queue Among
trim_queue-IsSettled q u usage h c = record {
  linked = IsLinked-same refl refl refl c.linked;
  queue =
      ap (λ xs. trim (length xs) usage xs) c.queue
      ∙ trim_lem usage q (omega (arith, h, c.non_negative));
  non_negative = omega (arith, h, c.non_negative);
  within = All-map u.sink.clients (λ d a. settled d a) c.counted;
}
  where
    settled : (d : Client) → Counted [] u.usage d → d.bufpos ≤ℤ usage
    settled d (inl e) = absurd (omega (arith, e))
    settled d (inr b) = omega (arith, b, h)

-- Where the hash table and the list of clients agree, queue_buffer keeps of the queue, with the new
-- buffer in front, the first buffers_queued + 1 buffers, leaves every client at a position of at most
-- buffers_queued, and the table and the list in agreement, whatever clients it removes and however
-- often it restarts.
pub queue_buffer-IsSettled :
    (k : SinkClass) (now : ℕ) (b : Buffer) (s : Sink)
    → IsLinked s
    → IsSettled (b ∷ s.bufqueue) (queue_buffer k now b s)
unfolding queue_buffer
queue_buffer-IsSettled k now b s v =
    let u = visit_clients k now (prepend b s) in
    let grown = extend_to_minima u.sink u.usage in
    trim_queue-IsSettled (b ∷ s.bufqueue) u
      (extend_to_sync u.sink (buffers_max (prepend b s) s.units_soft_max) grown)
      (let a = extend_to_minima-grows u.sink u.usage in
        let c = extend_to_sync-grows u.sink (buffers_max (prepend b s) s.units_soft_max) grown in
        omega (arith, a, c))
      (visit_clients-IsCounting k now (prepend b s) (IsLinked-same refl refl refl v))
