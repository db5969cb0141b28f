-- ===== src/MultiHandle/Queue/Restart/Twice.antt =====
-- The two passes of queue_buffer where one client is removed in the first.
use pulsevideo.Base.{
  ℕ, zero, suc, ◌+◌, ◌<◌, ◌≡◌, ◌≢◌, refl, ap, ◌∙◌, subst, Bool, true, false, ◌==◌, inl,
  if◌then◌else◌, List, [], ◌∷◌, ◌++◌, All, length, some, pos, minus_one, ◌+ℤ◌, ltb_ℤ, arith,
}
use pulsevideo.MultiHandle.Types.{Client, Sink, Buffer}
use pulsevideo.MultiHandle.Class.{SinkClass}
use pulsevideo.MultiHandle.Store.{find_client}
use pulsevideo.MultiHandle.Store.Laws.{find_client-update_ne}
use pulsevideo.MultiHandle.Clients.{pointers}
use pulsevideo.MultiHandle.Clients.Kept.{remove_client_link-find_ne}
use pulsevideo.MultiHandle.Clients.Linked.{
  IsLinked, update-IsLinked, IsLinked-same, remove_client_link-IsLinked,
}
use pulsevideo.MultiHandle.Queue.{
  Usage, visit_walk, visit_rounds, prepend, trim_queue, queue_buffer,
}
use pulsevideo.MultiHandle.Queue.Walk.{slow_client-KeepsKey}
use pulsevideo.MultiHandle.Queue.Within.{Among}
use pulsevideo.MultiHandle.Queue.Room.{Unique, Unique-pointers}
use pulsevideo.MultiHandle.Queue.Tracked.{is_late, Tracked, IsTracking, visit_rounds-IsTracking}
use pulsevideo.MultiHandle.Queue.Tracked.Whole.{
  Anyone, begin-IsTracking, visit_clients-plain, at_end,
}
use pulsevideo.MultiHandle.Queue.Restart.{
  Unique-append, others, walk_through, removed_from, removed-cookie, removed-in_time,
  visit_node-late,
}

listed-some : (p : ℕ) (cs : List Client) (c : Client) → find_client p cs ≡ some c → 0 < length cs
unfolding find_client
listed-some p [] c e = cc
listed-some p (x ∷ cs) c e = omega arith

module _ (k : SinkClass) (now : ℕ) (s : Sink) (v : IsLinked s) (d : Client)
    (listed : find_client d.ptr s.clients ≡ some d) (quiet : d.currently_removing ≡ false)
    (late : is_late s.timeout now d ≡ true)
    (others_in_time : All (λ x. x.ptr ≢ d.ptr → is_late s.timeout now x ≡ false) s.clients)
    (before : List ℕ) (x : ℕ) (after : List ℕ)
    (order : pointers s.clients ≡ before ++ d.ptr ∷ x ∷ after) (p : ℕ) (c : Client)
    (among : Among p before) (found : find_client p s.clients ≡ some c) where
  abbrev start : Usage
  start = record { usage = pos 0; sink = s }

  apart : Unique before × (Among d.ptr before → zero ≡ 1)
  apart =
      Unique-append d.ptr before (x ∷ after)
        (subst Unique order (Unique-pointers s.clients v.distinct))

  -- The first pass ends at the node after the client that it removes.
  first_pass :
      (w : Usage) × (visit_walk k now minus_one minus_one s.clients_cookie
          (pointers s.clients)
          start
        ≡ (false, removed_from k now s d quiet late w))
      × IsTracking (λ y. y ≢ d.ptr) now p c s [] w
      × (find_client d.ptr w.sink.clients ≡ some d)
  unfolding visit_walk Tracked
  first_pass =
      let (w, walked, tracks, same) =
        walk_through k now (λ y. y ≢ d.ptr) p c s d.ptr before (d.ptr ∷ x ∷ after) start
          (record {
            linked = v;
            same = refl;
            unique = apart.0;
            tracked = inl (among, found);
            allowed = others d.ptr before apart.1;
            patient = others_in_time;
          })
          (others d.ptr before apart.1) in
      let here : find_client d.ptr w.sink.clients ≡ some d = same ∙ listed in
      let kept = ap (λ (t : Sink). t.clients_cookie) tracks.same in
      let grown = removed-cookie k now s d quiet late w here in
      let go : (s.clients_cookie == w.sink.clients_cookie) ≡ true = ground (arith, kept) in
      let again : (s.clients_cookie == (removed_from k now s d quiet late w).sink.clients_cookie)
          ≡ false =
        ground (arith, kept, grown) in
      (
        w,
        ap (λ ps. visit_walk k now minus_one minus_one s.clients_cookie ps start) order
            ∙ walked
            ∙ rw (go, visit_node-late k now s d quiet late w tracks.same here, again) refl,
        tracks,
        here,
      )

  restarted :
      (e : Client) × (find_client p
          (visit_rounds k (length s.clients + 1) now minus_one minus_one start).sink.clients
        ≡ some e)
      × (e.bufpos ≡ (c.bufpos +ℤ pos 1) +ℤ pos 1)
  unfolding visit_rounds
  restarted =
      let (w, walked, tracks, here) = first_pass in
      let u : Usage = removed_from k now s d quiet late w in
      let (c1, found_c1, step) = at_end p c w.sink.clients tracks.tracked in
      let other : p ≢ d.ptr =
        λ e. let no = apart.1 (subst (λ y. Among y before) e among) in omega (arith, no) in
      let found_u : find_client p u.sink.clients ≡ some c1 =
        remove_client_link-find_ne k now d.ptr p _ other
        ∙ find_client-update_ne d.ptr p _ w.sink.clients (slow_client-KeepsKey k w.sink minus_one)
            other
        ∙ found_c1 in
      let linked =
        remove_client_link-IsLinked k now d.ptr _ (
          update-IsLinked d.ptr _ w.sink (slow_client-KeepsKey k w.sink minus_one) tracks.linked) in
      let end =
        visit_rounds-IsTracking k p c1 u.sink now Anyone (length s.clients) u
          (listed-some p s.clients c found)
          (begin-IsTracking now u p c1 linked
            (removed-in_time k now s d quiet late w tracks.linked tracks.same here tracks.patient)
            found_u) in
      let (c2, found_c2, step2) = at_end p c1 _ end.tracked in
      let fuel : length s.clients + 1 ≡ suc (length s.clients) = omega arith in
      let rounds : visit_rounds k (length s.clients + 1) now minus_one minus_one start
          ≡ visit_rounds k (length s.clients) now minus_one minus_one u =
        ap (λ n. visit_rounds k n now minus_one minus_one start) fuel
        ∙ ap
            (λ (r : Bool × Usage).
              if r.0 then r.1 else visit_rounds k (length s.clients) now minus_one minus_one r.1)
            walked in
      (
        c2,
        ap (λ (r : Usage). find_client p r.sink.clients) rounds ∙ found_c2,
        ap (λ (y : Client). y.bufpos) step2 ∙ ap (λ (y : Client). y.bufpos +ℤ pos 1) step,
      )

-- Where the hash table and the list of clients agree, and no limit is set, but one client is overdue,
-- is not being removed yet, is not the last of the list, and is the only one that is overdue:
-- queue_buffer moves every client that comes before it in the list by two positions for one buffer.
pub queue_buffer-twice :
    (k : SinkClass) (now : ℕ) (b : Buffer) (s : Sink)
    → IsLinked s
    → ltb_ℤ (pos 0) s.units_max ≡ false
    → ltb_ℤ (pos 0) s.units_soft_max ≡ false
    → (d : Client) → find_client d.ptr s.clients ≡ some d
    → d.currently_removing ≡ false
    → is_late s.timeout now d ≡ true
    → All (λ x. x.ptr ≢ d.ptr → is_late s.timeout now x ≡ false) s.clients
    → (before : List ℕ) (x : ℕ) (after : List ℕ) → pointers s.clients ≡ before ++ d.ptr ∷ x ∷ after
    → (p : ℕ) (c : Client) → Among p before
    → find_client p s.clients ≡ some c
    → (e : Client) × (find_client p (queue_buffer k now b s).clients ≡ some e)
      × (e.bufpos ≡ (c.bufpos +ℤ pos 1) +ℤ pos 1)
unfolding queue_buffer trim_queue
queue_buffer-twice k now b s v h g d listed quiet late in_time before x after order p c among
      found =
    let t = prepend b s in
    let (e, found_e, place) =
      restarted k now t (IsLinked-same refl refl refl v) d listed quiet late in_time before x after
        order p c among found in
    (
      e,
      ap (λ (u : Usage). find_client p u.sink.clients) (visit_clients-plain k now t h g) ∙ found_e,
      place,
    )
