-- ===== src/MultiHandle/Queue/Walk.antt =====
-- The loop of queue_buffer: what one round does, and how the loop with its restarts ends.
use pulsevideo.Base.{
  ℕ, zero, suc, ◌<◌, ◌≡◌, refl, ap, ◌∙◌, subst, Bool, true, false, not, if_cases, option_cases,
  ◌==◌, none, some, List, [], ◌∷◌, length, ℤ, max_ℤ, arith,
}
use pulsevideo.MultiHandle.Types.{Client, Sink}
use pulsevideo.MultiHandle.Class.{SinkClass}
use pulsevideo.MultiHandle.Store.{find_client}
use pulsevideo.MultiHandle.Store.Laws.{KeepsKey, find_client-ptr}
use pulsevideo.MultiHandle.Clients.{update, remove_client_link, pointers}
use pulsevideo.MultiHandle.Clients.Balance.{
  IsBalanced, IsBalanced-trans, update-IsBalanced, remove_client_link-IsBalanced,
}
use pulsevideo.MultiHandle.Queue.{
  Usage, recover, advance, is_too_slow, keep_client, slow_client, visit, visit_node, visit_walk,
  visit_rounds,
}

pub advance-KeepsKey : (s : Sink) (soft_max : ℤ) → KeepsKey (advance s soft_max)
unfolding advance recover
advance-KeepsKey s soft_max c = (
  if_cases (λ (d : Client). d.handle ≡ c.handle) _ (λ t. refl) (λ f. refl),
  if_cases (λ (d : Client). d.ptr ≡ c.ptr) _ (λ t. refl) (λ f. refl),
)

no_end : (ps : List ℕ) → false ≡ true → ps ≡ []
no_end ps e = cc

module _ (k : SinkClass) where
  pub keep_client-key : (s : Sink) → KeepsKey (keep_client k s)
  unfolding keep_client
  keep_client-key s c = (
    if_cases (λ (d : Client). d.handle ≡ c.handle) _
        (λ t. ap (λ (d : Client). d.handle) (k.hash_adding_lem s c)) (λ f. refl),
    if_cases (λ (d : Client). d.ptr ≡ c.ptr) _
        (λ t. ap (λ (d : Client). d.ptr) (k.hash_adding_lem s c)) (λ f. refl),
  )

  pub keep_client-bufpos : (s : Sink) (c : Client) → (keep_client k s c).bufpos ≡ c.bufpos
  unfolding keep_client
  keep_client-bufpos s c =
      if_cases (λ (d : Client). d.bufpos ≡ c.bufpos) _
        (λ t. ap (λ (d : Client). d.bufpos) (k.hash_adding_lem s c)) (λ f. refl)

  pub kept-KeepsKey :
      (s : Sink) (soft_max : ℤ) → KeepsKey (λ d. keep_client k s (advance s soft_max d))
  kept-KeepsKey s soft_max d = (
    (keep_client-key s _).0 ∙ (advance-KeepsKey s soft_max d).0,
    (keep_client-key s _).1 ∙ (advance-KeepsKey s soft_max d).1,
  )

  pub slow_client-KeepsKey : (s : Sink) (soft_max : ℤ) → KeepsKey (slow_client k s soft_max)
  unfolding slow_client
  slow_client-KeepsKey s soft_max d = advance-KeepsKey s soft_max d

  module _ (now : ℕ) (max soft_max : ℤ) where
    -- The sink after a client was found too slow,
    abbrev pub without : Client → Usage → Sink
    without c u =
        remove_client_link k now c.ptr (update c.ptr (slow_client k u.sink soft_max) u.sink)

    -- and after a client was moved on.
    abbrev pub with_moved : Client → Usage → Sink
    with_moved c u = update c.ptr (λ d. keep_client k u.sink (advance u.sink soft_max d)) u.sink

    -- The three ends of a round.
    pub visit_node_cases {κ} :
        (P : Usage → Type κ) (p : ℕ) (u : Usage)
        → (find_client p u.sink.clients ≡ none → P u)
        → ((c : Client)
            → find_client c.ptr u.sink.clients ≡ some c
            → c.ptr ≡ p
            → is_too_slow u.sink max now (advance u.sink soft_max c) ≡ true
            → P (record u { sink = without c u }))
        → ((c : Client)
            → find_client c.ptr u.sink.clients ≡ some c
            → c.ptr ≡ p
            → is_too_slow u.sink max now (advance u.sink soft_max c) ≡ false
            → P (record {
              usage = max_ℤ (advance u.sink soft_max c).bufpos u.usage;
              sink = with_moved c u;
            }))
        → P (visit_node k now max soft_max p u)
    unfolding visit_node visit
    visit_node_cases P p u none_case slow_case kept_case =
        option_cases P (find_client p u.sink.clients) none_case (λ c e.
          let same = find_client-ptr p u.sink.clients c e in
          let here : find_client c.ptr u.sink.clients ≡ some c = simp same e in
          if_cases P (is_too_slow u.sink max now (advance u.sink soft_max c))
            (λ t. slow_case c here same t) (λ f. kept_case c here same f))

    visit_node-IsBalanced :
        (p : ℕ) (u : Usage) → IsBalanced u.sink (visit_node k now max soft_max p u).sink
    visit_node-IsBalanced p u =
        visit_node_cases (λ (v : Usage). IsBalanced u.sink v.sink) p u
          (λ n. record { total = refl; grows = omega arith })
          (λ c e same t.
            IsBalanced-trans (update-IsBalanced c.ptr (slow_client k u.sink soft_max) u.sink)
              (remove_client_link-IsBalanced k now c.ptr _))
          (λ c e same f. update-IsBalanced c.ptr _ u.sink)

    -- What every round keeps holds where the walk ends, with no node left unless it restarts, and
    -- a restart has removed a client.
    pub record WalkEnd (P : List ℕ → Usage → Type 0) (u : Usage) (b : Bool) (v : Usage)
        : Type 0 where
      pub left : List ℕ
      pub kept : P left v
      pub through : b ≡ true → left ≡ []
      pub balanced : IsBalanced u.sink v.sink
      pub again : b ≡ false → length v.sink.clients < length u.sink.clients

    pub walk_end :
        (P : List ℕ → Usage → Type 0)
        → ((p : ℕ) (ps : List ℕ) (u : Usage)
            → P (p ∷ ps) u
            → P ps (visit_node k now max soft_max p u))
        → (u : Usage) (ps : List ℕ) (v : Usage) → IsBalanced u.sink v.sink
        → P ps v
        → let r = visit_walk k now max soft_max u.sink.clients_cookie ps v in WalkEnd P u r.0 r.1
    unfolding visit_walk
    walk_end P step u [] v b h = record {
      left = [];
      kept = h;
      through = λ e. refl;
      balanced = b;
      again = λ e. cc;
    }
    walk_end P step u (p ∷ ps) v b h =
        if_cases (λ (r : Bool × Usage). WalkEnd P u r.0 r.1)
          (not (u.sink.clients_cookie == v.sink.clients_cookie))
          (λ t. record {
            left = p ∷ ps;
            kept = h;
            through = no_end (p ∷ ps);
            balanced = b;
            again = λ e. ground (arith, b.total, b.grows);
          })
          (λ f.
            walk_end P step u ps _ (IsBalanced-trans b (visit_node-IsBalanced p v)) (step p ps v h))

    -- The fuel is enough: the loop always ends with every client visited.
    pub rounds_end :
        (P : List ℕ → Usage → Type 0)
        → ((p : ℕ) (ps : List ℕ) (u : Usage)
            → P (p ∷ ps) u
            → P ps (visit_node k now max soft_max p u))
        → ((ps : List ℕ) (u : Usage) → P ps u → P (pointers u.sink.clients) u)
        → (fuel : ℕ) (u : Usage) → length u.sink.clients < fuel
        → P (pointers u.sink.clients) u
        → P [] (visit_rounds k fuel now max soft_max u)
    unfolding visit_rounds
    rounds_end P step begin zero u h i = absurd (omega arith)
    rounds_end P step begin (suc fuel) u h i =
        let walk =
          visit_walk k now max soft_max u.sink.clients_cookie (pointers u.sink.clients) u in
        let end =
          walk_end P step u (pointers u.sink.clients) u
            (record { total = refl; grows = omega arith }) i in
        if_cases (P []) walk.0 (λ t. subst (λ ps. P ps walk.1) (end.through t) end.kept)
          (λ f.
            let fewer = end.again f in
            rounds_end P step begin fuel walk.1 (omega (arith, fewer))
              (begin end.left walk.1 end.kept))
