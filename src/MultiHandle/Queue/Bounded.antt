-- ===== src/MultiHandle/Queue/Bounded.antt =====
-- How many buffers a sink with a hard limit holds.
use pulsevideo.Base.{
  ℕ, suc, ◌+◌, ◌<◌, ◌≤◌, ◌≡◌, refl, sym, ap, ◌∙◌, subst, Bool, true, false, ◌&&◌, ◌||◌,
  if◌then◌else◌, if_cases, List, ◌∷◌, length, length-take, min, max, ℤ, pos, pos_part, minus_one,
  ◌+ℤ◌, ◌≤ℤ◌, leb_ℤ, ltb_ℤ, max_ℤ, two_31, arith,
}
use pulsevideo.MultiHandle.Types.{Sink, Buffer, buffers}
use pulsevideo.MultiHandle.Class.{SinkClass}
use pulsevideo.MultiHandle.Limits.{Limits, find_limits, get_buffers_max}
use pulsevideo.MultiHandle.Limits.None.{unlimited, find_limits-unlimited, get_buffers_max_small}
use pulsevideo.MultiHandle.Clients.Linked.{IsLinked}
use pulsevideo.MultiHandle.Clients.Balance.{remove_client_link-settings}
use pulsevideo.MultiHandle.Queue.{
  Usage, buffers_max, advance, is_too_slow, visit_node, visit_rounds, visit_clients, prepend,
  minima, extend_to_minima, extend_to_sync, wants_sync, trim_queue, queue_buffer,
}
use pulsevideo.MultiHandle.Queue.Advance.{or_false}
use pulsevideo.MultiHandle.Queue.Walk.{visit_node_cases, rounds_end}
use pulsevideo.MultiHandle.Queue.Within.{queue_buffer-IsSettled}

-- A sink that keeps no more than its clients use: no minimum, and no key frame for new clients.
pub record IsLean (s : Sink) : Type 0 where
  pub no_bytes : s.bytes_min ≡ minus_one
  pub no_buffers : s.buffers_min ≡ minus_one
  pub no_time : s.time_min ≡ minus_one
  pub no_sync : wants_sync s.def_sync_method ≡ false

-- The state of the loop over the queue `q`: a lean sink, and a usage below the hard limit.
record IsBelow (q : List Buffer) (m : ℕ) (u : Usage) : Type 0 where
  lean : IsLean u.sink
  queue : u.sink.bufqueue ≡ q
  low : u.usage ≤ℤ pos m

not_slow :
    (m : ℕ) (p : ℤ) (b : Bool)
    → ((ltb_ℤ (pos 0) (pos (suc m)) && leb_ℤ (pos (suc m)) p) || b) ≡ false
    → p ≤ℤ pos m
not_slow m p b e =
    let low = or_false (ltb_ℤ (pos 0) (pos (suc m)) && leb_ℤ (pos (suc m)) p) b e in
    ground (arith, low)

module _ (k : SinkClass) (now m : ℕ) (soft_max : ℤ) (q : List Buffer) where
  visit_node-IsBelow :
      (p : ℕ) (u : Usage)
      → IsBelow q m u
      → IsBelow q m (visit_node k now (pos (suc m)) soft_max p u)
  unfolding is_too_slow
  visit_node-IsBelow p u h =
      visit_node_cases k now (pos (suc m)) soft_max (IsBelow q m) p u (λ n. h)
        (λ c e same t.
          let kept = remove_client_link-settings k now c.ptr _ in
          record {
            lean = record {
              no_bytes = kept.1 ∙ h.lean.no_bytes;
              no_buffers = kept.2 ∙ h.lean.no_buffers;
              no_time = kept.3 ∙ h.lean.no_time;
              no_sync = ap wants_sync kept.4 ∙ h.lean.no_sync;
            };
            queue = kept.0 ∙ h.queue;
            low = h.low;
          })
        (λ c e same f. record {
          lean = record {
            no_bytes = h.lean.no_bytes;
            no_buffers = h.lean.no_buffers;
            no_time = h.lean.no_time;
            no_sync = h.lean.no_sync;
          };
          queue = h.queue;
          low =
              let one = not_slow m (advance u.sink soft_max c).bufpos _ f in
              let two = h.low in ground (arith, one, two);
        })

minima-unlimited : (s : Sink) → IsLean s → minima s ≡ unlimited
minima-unlimited s l = rw (l.no_bytes, l.no_buffers, l.no_time) refl

-- What the usage is extended to.
extended :
    (s : Sink) (b : Buffer) (q : List Buffer) (soft_max usage : ℤ)
    → IsLean s
    → s.bufqueue ≡ b ∷ q
    → extend_to_sync s soft_max (extend_to_minima s usage) ≡ max_ℤ usage (pos 1)
unfolding extend_to_sync extend_to_minima ◌+ℤ◌
extended s b q soft_max usage l e =
    let least : (find_limits s.bufqueue (minima s)).min_idx ≡ pos 0 =
      ap (λ (o : Limits). o.min_idx)
        (ap (λ x. find_limits x (minima s)) e ∙ ap (find_limits (b ∷ q)) (minima-unlimited s l))
      ∙ find_limits-unlimited b q in
    if_cases (λ r. r ≡ max_ℤ usage (pos 1)) (wants_sync s.def_sync_method) (λ t. cc (l.no_sync))
      (λ f. ap (λ x. max_ℤ usage (x +ℤ pos 1)) least)

positive : (m : ℕ) → ltb_ℤ (pos 0) (pos (suc m)) ≡ true
positive m = ground arith

-- The hard limit, as the loop reads it.
hard_limit :
    (s : Sink) (m : ℕ)
    → s.unit_format ≡ buffers
    → s.units_max ≡ pos (suc m)
    → suc m < two_31
    → buffers_max s s.units_max ≡ pos (suc m)
unfolding buffers_max
hard_limit s m f e h =
    ap (λ x. if ltb_ℤ (pos 0) x then get_buffers_max s.unit_format s.bufqueue x else minus_one) e
    ∙ ap (λ b. if b then get_buffers_max s.unit_format s.bufqueue (pos (suc m)) else minus_one)
        (positive m)
    ∙ ap (λ x. get_buffers_max x s.bufqueue (pos (suc m))) f
    ∙ get_buffers_max_small s.bufqueue (suc m) h

short :
    (u x : ℤ) (n m len : ℕ)
    → u ≤ℤ pos m
    → x ≡ max_ℤ u (pos 1)
    → len ≡ min (suc (pos_part x)) n
    → len ≤ max 2 (suc m)
short u x n m len a e l =
    let y : pos_part x ≡ pos_part (max_ℤ u (pos 1)) = ap pos_part e in ground (arith, a, y, l)

-- With a hard limit of at least one and less than 2 ^ 31 buffers, no minimum, and a sync method that
-- needs no key frame in the queue, queue_buffer leaves at most as many buffers as the limit says, or
-- two, where the hash table and the list of clients agree.
pub queue_buffer-length :
    (k : SinkClass) (now : ℕ) (b : Buffer) (s : Sink) (m : ℕ)
    → IsLinked s
    → IsLean s
    → s.unit_format ≡ buffers
    → s.units_max ≡ pos (suc m)
    → suc m < two_31
    → length (queue_buffer k now b s).bufqueue ≤ max 2 (suc m)
unfolding queue_buffer visit_clients trim_queue
queue_buffer-length k now b s m v l f e h =
    let p = prepend b s in
    let u = visit_clients k now p in
    let begin : IsBelow (b ∷ s.bufqueue) m (record { usage = pos 0; sink = p }) = record {
      lean = record {
        no_bytes = l.no_bytes;
        no_buffers = l.no_buffers;
        no_time = l.no_time;
        no_sync = l.no_sync;
      };
      queue = refl;
      low = omega arith;
    } in
    let below : IsBelow (b ∷ s.bufqueue) m u =
      subst
        (λ x. IsBelow (b ∷ s.bufqueue) m (
          visit_rounds k (length p.clients + 1) now x (buffers_max p p.units_soft_max)
            (record { usage = pos 0; sink = p })))
        (sym (hard_limit p m f e h))
        (rounds_end k now (pos (suc m)) (buffers_max p p.units_soft_max)
          (λ ps. IsBelow (b ∷ s.bufqueue) m)
          (λ r ps. visit_node-IsBelow k now m (buffers_max p p.units_soft_max) (b ∷ s.bufqueue) r)
          (λ ps w i. i) (length s.clients + 1) (record { usage = pos 0; sink = p }) (omega arith)
          begin) in
    let settled = queue_buffer-IsSettled k now b s v in
    short u.usage (queue_buffer k now b s).buffers_queued (length (b ∷ s.bufqueue)) m _ below.low
      (extended u.sink b s.bufqueue (buffers_max p s.units_soft_max) u.usage below.lean below.queue)
      (ap length settled.queue ∙ length-take (suc _) (b ∷ s.bufqueue))
