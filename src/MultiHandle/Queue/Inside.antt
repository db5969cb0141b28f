-- ===== src/MultiHandle/Queue/Inside.antt =====
-- No position leaves the queue, as long as queue_buffer removes no client for its timeout.
use pulsevideo.Base.{
  ℕ, zero, suc, ◌+◌, ◌<◌, ◌≡◌, refl, ap, ◌∙◌, subst, true, false, inl, inr, if_cases, List, [], ◌∷◌,
  length, take, length-take, min, All, All-map, All-both, ℤ, pos, negsuc, ◌+ℤ◌, +ℤ_parts, ◌≤ℤ◌,
  ◌<ℤ◌, some, sym, pos_part, two_31, arith,
}
use pulsevideo.MultiHandle.Types.{Client, Sink, Buffer}
use pulsevideo.MultiHandle.Class.{SinkClass}
use pulsevideo.MultiHandle.Store.{find_client}
use pulsevideo.MultiHandle.Store.Laws.{All-update_at, find_client-All}
use pulsevideo.MultiHandle.Clients.{update, pointers}
use pulsevideo.MultiHandle.Clients.Balance.{
  remove_client_link-All, remove_client_link-settings, mark_removed-bufpos,
}
use pulsevideo.MultiHandle.Clients.Linked.{
  mark_removed-KeepsKey, remove_client_link-IsLinked, IsLinked, update-IsLinked, IsLinked-same,
}
use pulsevideo.MultiHandle.Queue.{
  Usage, buffers_max, advance, is_too_slow, keep_client, slow_client, visit_node, visit_walk,
  visit_rounds, visit_clients, prepend, trim_queue, queue_buffer,
}
use pulsevideo.MultiHandle.Queue.Walk.{
  keep_client-bufpos, kept-KeepsKey, slow_client-KeepsKey, without, with_moved, visit_node_cases,
  walk_end,
}
use pulsevideo.MultiHandle.Queue.Within.{Among, queue_buffer-IsSettled}
use pulsevideo.MultiHandle.Queue.Advance.{Inside, soft, advance-Inside}
use pulsevideo.MultiHandle.Queue.Room.{
  Unique, Unique-pointers, Bites, HasRoom, IsInside, slow-Bites, kept_room, room_below,
}

module _ (k : SinkClass) (now : ℕ) (s : Sink) (short : length s.bufqueue < two_31)
    (no_timeout : s.timeout ≡ 0) (max : ℤ) where
  -- After a removal,
  slow-IsInside :
      (ps : List ℕ) (v : Usage) (c : Client)
      → IsInside s max (c.ptr ∷ ps) v
      → find_client c.ptr v.sink.clients ≡ some c
      → is_too_slow v.sink max now (advance v.sink (soft s short) c) ≡ true
      → IsInside s max ps (record v { sink = without k now max (soft s short) c v })
  unfolding Unique Among slow_client Inside
  slow-IsInside ps v c h e t =
      let kept =
        remove_client_link-settings k now c.ptr
          (update c.ptr (slow_client k v.sink (soft s short)) v.sink) in
      record {
        linked = remove_client_link-IsLinked k now c.ptr _ (
            update-IsLinked c.ptr _ v.sink (slow_client-KeepsKey k v.sink (soft s short)) h.linked);
        settings = record {
          queue = kept.0 ∙ h.settings.queue;
          format = kept.5 ∙ h.settings.format;
          soft = kept.6 ∙ h.settings.soft;
          policy = kept.7 ∙ h.settings.policy;
          limit = kept.8 ∙ h.settings.limit;
        };
        unique = h.unique.1;
        bites = inr (slow-Bites v.sink max now _ _ (h.settings.limit ∙ no_timeout) stepped t);
        inside =
            remove_client_link-All k (HasRoom max (length s.bufqueue) ps) now c.ptr _
              (λ d r. rw (mark_removed-bufpos k now d, (mark_removed-KeepsKey k now d).1) r)
              (All-update_at (slow_client k v.sink (soft s short)) v.sink.clients c
                h.linked.distinct e h.inside (λ d n r. (r.0, λ a. r.1 (inr a), r.2))
                (λ r.
                  let room = room_below (length s.bufqueue) c.bufpos r.0 (r.1 (inl refl)) in
                  ((omega arith, omega arith), λ a. room, λ b. room)));
      }
    where
      room : HasRoom max (length s.bufqueue) (c.ptr ∷ ps) c
      room = find_client-All _ c.ptr v.sink.clients c h.inside e

      stepped : Inside (length s.bufqueue) (advance v.sink (soft s short) c).bufpos
      stepped = advance-Inside s short v.sink c h.settings room.0.0 (room.1 (inl refl))

  -- and after a client that stays.
  kept-IsInside :
      (ps : List ℕ) (v : Usage) (c : Client) (usage : ℤ)
      → IsInside s max (c.ptr ∷ ps) v
      → find_client c.ptr v.sink.clients ≡ some c
      → is_too_slow v.sink max now (advance v.sink (soft s short) c) ≡ false
      → IsInside s max ps (record { usage = usage; sink = with_moved k now max (soft s short) c v })
  unfolding Unique Among Inside
  kept-IsInside ps v c usage h e f = record {
    linked = update-IsLinked c.ptr _ v.sink (kept-KeepsKey k v.sink (soft s short)) h.linked;
    settings = record {
      queue = h.settings.queue;
      format = h.settings.format;
      soft = h.settings.soft;
      policy = h.settings.policy;
      limit = h.settings.limit;
    };
    unique = h.unique.1;
    bites = h.bites;
    inside =
        All-update_at (λ d. keep_client k v.sink (advance v.sink (soft s short) d)) v.sink.clients c
          h.linked.distinct e h.inside (λ d n r. (r.0, λ a. r.1 (inr a), r.2))
          (λ r. (
            rw (keep_client-bufpos k v.sink (advance v.sink (soft s short) c))
                (advance-Inside s short v.sink c h.settings r.0.0 (r.1 (inl refl))),
            λ a. absurd (
                omega (
                  arith,
                  h.unique.0
                      (subst (λ x. Among x ps) (kept-KeepsKey k v.sink (soft s short) c).1 a),
                )),
            λ b.
                rw (keep_client-bufpos k v.sink (advance v.sink (soft s short) c))
                  (kept_room v.sink max now (length s.bufqueue) _ f b),
          ));
  }

  visit_node-IsInside :
      (p : ℕ) (ps : List ℕ) (v : Usage)
      → IsInside s max (p ∷ ps) v
      → IsInside s max ps (visit_node k now max (soft s short) p v)
  unfolding Unique Among
  visit_node-IsInside p ps v h =
      visit_node_cases k now max (soft s short) (IsInside s max ps) p v
        (λ n. record {
          linked = h.linked;
          settings = h.settings;
          unique = h.unique.1;
          bites = h.bites;
          inside = All-map v.sink.clients (λ d r. (r.0, λ a. r.1 (inr a), r.2)) h.inside;
        })
        (λ c e same t. slow-IsInside ps v c (at c same) e t)
        (λ c e same f. kept-IsInside ps v c _ (at c same) e f)
    where
      at : (c : Client) → c.ptr ≡ p → IsInside s max (c.ptr ∷ ps) v
      at c same = subst (λ x. IsInside s max (x ∷ ps) v) (sym same) h

  -- Where the loop starts again, every client has room.
  again-IsInside :
      (ps : List ℕ) (v : Usage)
      → IsInside s max ps v
      → Bites max (length s.bufqueue)
      → IsInside s max (pointers v.sink.clients) v
  again-IsInside ps v h b = record {
    linked = h.linked;
    settings = h.settings;
    unique = Unique-pointers v.sink.clients h.linked.distinct;
    bites = inr b;
    inside = All-map v.sink.clients (λ d r. (r.0, λ a. r.2 b, r.2)) h.inside;
  }

  visit_rounds-IsInside :
      (fuel : ℕ) (u : Usage)
      → length u.sink.clients < fuel
      → IsInside s max (pointers u.sink.clients) u
      → IsInside s max [] (visit_rounds k fuel now max (soft s short) u)
  unfolding visit_rounds
  visit_rounds-IsInside zero u f i = absurd (omega arith)
  visit_rounds-IsInside (suc fuel) u f i =
      let walk =
        visit_walk k now max (soft s short) u.sink.clients_cookie (pointers u.sink.clients) u in
      let end =
        walk_end k now max (soft s short) (IsInside s max) visit_node-IsInside u
          (pointers u.sink.clients) u (record { total = refl; grows = omega arith }) i in
      if_cases (IsInside s max []) walk.0
        (λ t. subst (λ ps. IsInside s max ps walk.1) (end.through t) end.kept)
        (λ g.
          let fewer = end.again g in
          let total = end.balanced.total in
          let bites : Bites max (length s.bufqueue) = elim i.bites [
            | inr b ↦ b
            | inl before ↦ elim end.kept.bites [
              | inr b ↦ b
              | inl after ↦ absurd (omega (arith, fewer, total, before, after))
            ]
          ] in
          visit_rounds-IsInside fuel walk.1 (omega (arith, fewer))
            (again-IsInside end.left walk.1 end.kept bites))

pub below_part : (p u : ℤ) → pos 0 ≤ℤ u → p ≤ℤ u → p ≤ℤ pos (pos_part u)
below_part p (pos n) a b = b
below_part p (negsuc n) a b = absurd (omega (arith, a))

pub enters :
    (n : ℕ) (c : Client)
    → Inside n c.bufpos
    → Inside (suc n) c.bufpos × (c.bufpos +ℤ pos 1 <ℤ pos (suc n))
unfolding Inside
enters n c i =
    let parts = +ℤ_parts c.bufpos (pos 1) in
    let low = i.0 in let high = i.1 in ((low, omega (arith, high)), omega (arith, parts, high))

pub stays_in_queue :
    (q q' : List Buffer) (u : ℕ) (p : ℤ)
    → q' ≡ take (suc u) q
    → Inside (length q) p
    → p ≤ℤ pos u
    → Inside (length q') p
unfolding Inside
stays_in_queue q q' u p e i h =
    let len : length q' ≡ min (suc u) (length q) = ap length e ∙ length-take (suc u) q in
    let high = i.1 in (i.0, omega (arith, len, high, h))

-- Where the hash table and the list of clients agree, without a timeout, and with at most 2 ^ 31 - 2
-- buffers queued, queue_buffer leaves every client at -1 or at an index of the queue, if every client
-- was at such a position before, whatever the recovery policy does and whichever clients the hard
-- limit removes.
pub queue_buffer-Inside :
    (k : SinkClass) (now : ℕ) (b : Buffer) (s : Sink)
    → IsLinked s
    → s.timeout ≡ 0
    → suc (length s.bufqueue) < two_31
    → All (λ (c : Client). Inside (length s.bufqueue) c.bufpos) s.clients
    → let r = queue_buffer k now b s in
      All (λ (c : Client). Inside (length r.bufqueue) c.bufpos) r.clients
unfolding queue_buffer trim_queue visit_clients
queue_buffer-Inside k now b s v t short a =
    let p = prepend b s in
    let settled = queue_buffer-IsSettled k now b s v in
    let inside =
      visit_rounds-IsInside k now p short t (buffers_max p p.units_max) (length s.clients + 1)
        (record { usage = pos 0; sink = p }) (omega arith) begin in
    All-map _
      (λ d both.
        stays_in_queue (b ∷ s.bufqueue) _ _ d.bufpos settled.queue both.0.0
          (below_part d.bufpos _ settled.non_negative both.1))
      (All-both _ _ _ inside.inside settled.within)
  where
    begin :
        IsInside
          (prepend b s)
          (buffers_max (prepend b s) s.units_max)
          (pointers s.clients)
          (record { usage = pos 0; sink = prepend b s })
    begin = record {
      linked = IsLinked-same refl refl refl v;
      settings = record { queue = refl; format = refl; soft = refl; policy = refl; limit = refl };
      bites = inl refl;
      unique = Unique-pointers s.clients v.distinct;
      inside = All-map s.clients (λ d i. let e = enters _ d i in (e.0, λ x. e.1, λ y. e.1)) a;
    }
