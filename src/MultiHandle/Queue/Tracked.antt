-- ===== src/MultiHandle/Queue/Tracked.antt =====
-- One client through queue_buffer, where nobody is removed.
pub mod Whole
use pulsevideo.Base.{
  Bool, ◌&&◌, ltb, sub_u64, All, All-map, ℕ, zero, suc, ◌+◌, ◌<◌, ◌≡◌, refl, sym, ap, ◌∙◌, subst,
  false, ◌⊎◌, inl, inr, if_cases, List, [], ◌∷◌, length, none, some, ℤ, pos, minus_one, ◌+ℤ◌, ltb_ℤ,
  Bool-cases, ◌==◌, arith,
}
use pulsevideo.MultiHandle.Types.{Client, Sink, Buffer}
use pulsevideo.MultiHandle.Class.{SinkClass}
use pulsevideo.MultiHandle.Store.{find_client, update_client}
use pulsevideo.MultiHandle.Store.Laws.{
  find_client-update_self, find_client-update_ne, All-update, find_client-All,
}
use pulsevideo.MultiHandle.Clients.{pointers}
use pulsevideo.MultiHandle.Clients.Linked.{IsLinked, update-IsLinked, IsLinked-same}
use pulsevideo.MultiHandle.Queue.{
  Usage, buffers_max, recover, advance, is_too_slow, keep_client, can_send, visit_node, visit_walk,
  visit_rounds, visit_clients, prepend, trim_queue, queue_buffer,
}
use pulsevideo.MultiHandle.Queue.Walk.{kept-KeepsKey, visit_node_cases, walk_end}
use pulsevideo.MultiHandle.Queue.Within.{Among}
use pulsevideo.MultiHandle.Queue.Room.{Unique, Unique-pointers}

-- No hard limit, no soft limit and no timeout.
pub record IsUnlimited (s : Sink) : Type 0 where
  pub no_max : ltb_ℤ (pos 0) s.units_max ≡ false
  pub no_soft_max : ltb_ℤ (pos 0) s.units_soft_max ≡ false
  pub no_timeout : s.timeout ≡ 0

-- A client that has not been active for longer than a timeout.
abbrev pub is_late : ℕ → ℕ → Client → Bool
is_late limit now c = ltb 0 limit && ltb limit (sub_u64 now c.last_activity_time)

-- `d` is `c` one position further; it may have a source.
abbrev pub Stepped : Client → Client → Type 0
Stepped c d = d ≡ record c { bufpos = c.bufpos +ℤ pos 1; source = d.source }

-- The client at `p`, which was `c`: it is still to be visited, or it is one position further.
unfoldable pub Tracked : ℕ → Client → List ℕ → List Client → Type 0
Tracked p c ps cs =
    (Among p ps × (find_client p cs ≡ some c))
    ⊎ ((Among p ps → zero ≡ 1) × ((d : Client) × (find_client p cs ≡ some d) × Stepped c d))

-- The state of the loop of queue_buffer on a sink `s`, on its way through nodes of which none is late.
pub record IsTracking (InTime : ℕ → Type 0) (now p : ℕ) (c : Client) (s : Sink) (ps : List ℕ)
    (v : Usage) : Type 0 where
  pub linked : IsLinked v.sink
  pub same : v.sink ≡ record s { clients = v.sink.clients }
  pub unique : Unique ps
  pub tracked : Tracked p c ps v.sink.clients
  pub allowed : All InTime ps
  pub patient : All (λ x. InTime x.ptr → is_late s.timeout now x ≡ false) v.sink.clients

pub no_max : (s : Sink) (x : ℤ) → ltb_ℤ (pos 0) x ≡ false → buffers_max s x ≡ minus_one
unfolding buffers_max
no_max s x h = simp h refl

advance_plain :
    (t : Sink) (c : Client) → advance t minus_one c ≡ record c { bufpos = c.bufpos +ℤ pos 1 }
unfolding advance recover
advance_plain t c = refl

module _ (k : SinkClass) where
  keep_client-Stepped :
      (t : Sink) (c : Client) → Stepped c (keep_client k t (advance t minus_one c))
  unfolding keep_client advance recover
  keep_client-Stepped t c =
      let moved : Client = record c { bufpos = c.bufpos +ℤ pos 1 } in
      if_cases (Stepped c) (can_send moved) (λ e. k.hash_adding_lem t moved) (λ f. refl)

  -- The change of a client that stays.
  abbrev moved_by : Sink → Client → Client
  moved_by t d = keep_client k t (advance t minus_one d)

  module _ (p : ℕ) (c : Client) (s : Sink) (now : ℕ) (InTime : ℕ → Type 0) where
    abbrev Tracks : List ℕ → Usage → Type 0
    Tracks = IsTracking InTime now p c s

    never_slow :
        (v : Sink) (d : Client)
        → v ≡ record s { clients = v.clients }
        → is_late s.timeout now d ≡ false
        → is_too_slow v minus_one now (advance v minus_one d) ≡ false
    unfolding is_too_slow advance recover
    never_slow v d e l = ap (λ (t : Sink). is_late t.timeout now d) e ∙ l

    moved_late :
        (v : Sink) (d : Client) → is_late s.timeout now (moved_by v d) ≡ is_late s.timeout now d
    moved_late v d = ap (λ (x : Client). is_late s.timeout now x) (keep_client-Stepped v d)

    not_found :
        (q : ℕ) (ps : List ℕ) (cs : List Client)
        → find_client q cs ≡ none
        → Tracked p c (q ∷ ps) cs
        → Tracked p c ps cs
    unfolding Tracked Among
    not_found q ps cs n (inl (inl e, f)) =
        let gone : find_client p cs ≡ none = subst (λ x. find_client x cs ≡ none) (sym e) n in cc
    not_found q ps cs n (inl (inr a, f)) = inl (a, f)
    not_found q ps cs n (inr (g, w)) = inr (λ a. g (inr a), w)

    stepped :
        (v : Sink) (d : Client) (ps : List ℕ)
        → find_client d.ptr v.clients ≡ some d
        → Unique (d.ptr ∷ ps)
        → Tracked p c (d.ptr ∷ ps) v.clients
        → Tracked p c ps (update_client d.ptr (moved_by v) v.clients)
    unfolding Tracked Among Unique
    stepped v d ps e u (inl (inl same, f)) =
        let here : find_client d.ptr v.clients ≡ some c =
          subst (λ x. find_client x v.clients ≡ some c) same f in
        inr (
          λ a. u.0 (subst (λ x. Among x ps) same a),
          (
            moved_by v c,
            subst
                (λ x.
                  find_client x (update_client d.ptr (moved_by v) v.clients) ≡ some (moved_by v c))
                (sym same)
                (find_client-update_self d.ptr (moved_by v) v.clients c
                  (kept-KeepsKey k v minus_one) here),
            keep_client-Stepped v c,
          ),
        )
    stepped v d ps e u (inl (inr a, f)) = inl (
      a,
      find_client-update_ne d.ptr p (moved_by v) v.clients (kept-KeepsKey k v minus_one)
            (λ same. let no = u.0 (subst (λ x. Among x ps) same a) in omega (arith, no))
          ∙ f,
    )
    stepped v d ps e u (inr (g, w)) = inr (
      λ a. g (inr a),
      (
        w.0,
        find_client-update_ne d.ptr p (moved_by v) v.clients (kept-KeepsKey k v minus_one)
              (λ same. let no = g (inl same) in omega (arith, no))
            ∙ w.1,
        w.2,
      ),
    )

    pub visit_node-IsTracking :
        (q : ℕ) (ps : List ℕ) (v : Usage)
        → Tracks (q ∷ ps) v
        → Tracks ps (visit_node k now minus_one minus_one q v)
    unfolding Unique
    visit_node-IsTracking q ps v h =
        visit_node_cases k now minus_one minus_one (Tracks ps) q v
          (λ n. record {
            linked = h.linked;
            same = h.same;
            unique = h.unique.1;
            tracked = not_found q ps v.sink.clients n h.tracked;
            allowed = h.allowed.1;
            patient = h.patient;
          })
          (λ d e same t. let never = stays q ps v h d e same in cc)
          (λ d e same f. record {
            linked = update-IsLinked d.ptr _ v.sink (kept-KeepsKey k v.sink minus_one) h.linked;
            same =
                ap
                  (λ (t : Sink). record t {
                    clients = update_client d.ptr (moved_by v.sink) v.sink.clients;
                  })
                  h.same;
            unique = h.unique.1;
            tracked =
                stepped v.sink d ps e (subst (λ x. Unique (x ∷ ps)) (sym same) h.unique)
                  (subst (λ x. Tracked p c (x ∷ ps) v.sink.clients) (sym same) h.tracked);
            allowed = h.allowed.1;
            patient =
                All-update (λ x. InTime x.ptr → is_late s.timeout now x ≡ false) d.ptr
                  (moved_by v.sink) v.sink.clients
                  (λ x at in_time g.
                    moved_late v.sink x
                    ∙ in_time (subst InTime (kept-KeepsKey k v.sink minus_one x).1 g))
                  h.patient;
          })
      where
        stays :
            (q : ℕ) (ps : List ℕ) (v : Usage)
            → Tracks (q ∷ ps) v
            → (d : Client) → find_client d.ptr v.sink.clients ≡ some d
            → d.ptr ≡ q
            → is_too_slow v.sink minus_one now (advance v.sink minus_one d) ≡ false
        stays q ps v h d e same = never_slow v.sink d h.same (
            find_client-All (λ x. InTime x.ptr → is_late s.timeout now x ≡ false) d.ptr
              v.sink.clients d h.patient e (subst InTime (sym same) h.allowed.0))

    pub visit_rounds-IsTracking :
        (fuel : ℕ) (u : Usage)
        → 0 < fuel
        → Tracks (pointers u.sink.clients) u
        → Tracks [] (visit_rounds k fuel now minus_one minus_one u)
    unfolding visit_rounds
    visit_rounds-IsTracking zero u f i = absurd (omega arith)
    visit_rounds-IsTracking (suc fuel) u f i =
        let walk =
          visit_walk k now minus_one minus_one u.sink.clients_cookie (pointers u.sink.clients) u in
        let end =
          walk_end k now minus_one minus_one Tracks visit_node-IsTracking u
            (pointers u.sink.clients) u (record { total = refl; grows = omega arith }) i in
        if_cases (Tracks []) walk.0 (λ t. subst (λ ps. Tracks ps walk.1) (end.through t) end.kept)
          (λ g.
            let fewer = end.again g in
            let total = end.balanced.total in
            let before = ap (λ (t : Sink). t.clients_cookie) i.same in
            let after = ap (λ (t : Sink). t.clients_cookie) end.kept.same in
            absurd (omega (arith, fewer, total, before, after)))

pub found-Among :
    (p : ℕ) (cs : List Client) (c : Client) → find_client p cs ≡ some c → Among p (pointers cs)
unfolding find_client Among pointers
found-Among p [] c e = cc
found-Among p (d ∷ cs) c e = elim (Bool-cases (d.ptr == p)) [
  | inl t ↦ inl (ground arith)
  | inr t ↦ inr (found-Among p cs c (ground arith))
]
