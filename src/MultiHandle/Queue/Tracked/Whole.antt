-- ===== src/MultiHandle/Queue/Tracked/Whole.antt =====
-- The whole of queue_buffer, for a client of a sink where nobody is removed.
use pulsevideo.Base.{
  All, All-map, ℕ, ◌+◌, ◌≡◌, refl, sym, ap, subst, false, inl, inr, List, [], ◌∷◌, length, some,
  pos, minus_one, ltb_ℤ, arith,
}
use pulsevideo.MultiHandle.Types.{Client, Sink, Buffer}
use pulsevideo.MultiHandle.Class.{SinkClass}
use pulsevideo.MultiHandle.Store.{find_client}
use pulsevideo.MultiHandle.Clients.{pointers}
use pulsevideo.MultiHandle.Clients.Linked.{IsLinked, IsLinked-same}
use pulsevideo.MultiHandle.Queue.{
  Usage, visit_rounds, visit_clients, prepend, trim_queue, queue_buffer,
}
use pulsevideo.MultiHandle.Queue.Within.{Among}
use pulsevideo.MultiHandle.Queue.Room.{Unique-pointers}
use pulsevideo.MultiHandle.Queue.Tracked.{
  IsUnlimited, is_late, Stepped, Tracked, IsTracking, no_max, found-Among, visit_rounds-IsTracking,
}

-- Where every client is in time.
abbrev pub Anyone : ℕ → Type 0
Anyone p = Unit {0}

anyone : (ps : List ℕ) → All Anyone ps
anyone [] = tt
anyone (p ∷ ps) = (tt, anyone ps)

-- The start of the loop, if none of the clients is late.
pub begin-IsTracking :
    (now : ℕ) (u : Usage) (p : ℕ) (c : Client)
    → IsLinked u.sink
    → All (λ x. is_late u.sink.timeout now x ≡ false) u.sink.clients
    → find_client p u.sink.clients ≡ some c
    → IsTracking Anyone now p c u.sink (pointers u.sink.clients) u
unfolding Tracked
begin-IsTracking now u p c v l e = record {
  linked = v;
  same = refl;
  unique = Unique-pointers u.sink.clients v.distinct;
  tracked = inl (found-Among p u.sink.clients c e, e);
  allowed = anyone (pointers u.sink.clients);
  patient = All-map u.sink.clients (λ x h g. h) l;
}

never_late :
    (limit now : ℕ) (cs : List Client) → limit ≡ 0 → All (λ x. is_late limit now x ≡ false) cs
never_late limit now [] e = tt
never_late limit now (c ∷ cs) e = (rw e refl, never_late limit now cs e)

-- The loop of a sink without limits is one with the limits -1.
pub visit_clients-plain :
    (k : SinkClass) (now : ℕ) (s : Sink)
    → ltb_ℤ (pos 0) s.units_max ≡ false
    → ltb_ℤ (pos 0) s.units_soft_max ≡ false
    → visit_clients k now s
      ≡ visit_rounds k
          (length s.clients + 1)
          now
          minus_one
          minus_one
          (record { usage = pos 0; sink = s })
unfolding visit_clients
visit_clients-plain k now s h g = rw (no_max s s.units_max h, no_max s s.units_soft_max g) refl

tracking :
    (k : SinkClass) (now : ℕ) (s : Sink) (p : ℕ) (c : Client)
    → IsLinked s
    → IsUnlimited s
    → find_client p s.clients ≡ some c
    → IsTracking Anyone now p c s [] (visit_clients k now s)
tracking k now s p c v h e =
    let start : Usage = record { usage = pos 0; sink = s } in
    subst (IsTracking Anyone now p c s [])
      (sym (visit_clients-plain k now s h.no_max h.no_soft_max))
      (visit_rounds-IsTracking k p c s now Anyone (length s.clients + 1) start (omega arith)
        (begin-IsTracking now start p c v (never_late s.timeout now s.clients h.no_timeout) e))

pub at_end :
    (p : ℕ) (c : Client) (cs : List Client)
    → Tracked p c [] cs
    → (d : Client) × (find_client p cs ≡ some d) × Stepped c d
unfolding Tracked Among
at_end p c cs (inl (a, f)) = absurd (omega (arith, a))
at_end p c cs (inr (g, w)) = w

-- Without limits and a timeout, queue_buffer moves each client one position further, and changes
-- nothing else of it but its source; of the sink it changes only the clients and the queue.
pub queue_buffer-Stepped :
    (k : SinkClass) (now : ℕ) (b : Buffer) (s : Sink) (p : ℕ) (c : Client)
    → IsLinked s
    → IsUnlimited s
    → find_client p s.clients ≡ some c
    → let r = queue_buffer k now b s in
      ((d : Client) × (find_client p r.clients ≡ some d) × Stepped c d)
      × (r ≡ record s {
        clients = r.clients;
        bufqueue = r.bufqueue;
        buffers_queued = r.buffers_queued;
      })
unfolding queue_buffer trim_queue
queue_buffer-Stepped k now b s p c v h e =
    let r = queue_buffer k now b s in
    let end =
      tracking k now (prepend b s) p c (IsLinked-same refl refl refl v)
        (record { no_max = h.no_max; no_soft_max = h.no_soft_max; no_timeout = h.no_timeout }) e in
    (
      at_end p c r.clients end.tracked,
      ap (λ (t : Sink). record t { bufqueue = r.bufqueue; buffers_queued = r.buffers_queued })
          end.same,
    )
