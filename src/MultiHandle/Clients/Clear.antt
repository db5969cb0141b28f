-- ===== src/MultiHandle/Clients/Clear.antt =====
-- What removing all clients does: clear, with its restarts.
use pulsevideo.Base.{
  ℕ, zero, suc, ◌+◌, ◌<◌, ◌≡◌, refl, ap, ◌∙◌, false, not, if_cases, ◌==◌, List, [], ◌∷◌, length,
  All, arith,
}
use pulsevideo.MultiHandle.Types.{Client, Sink}
use pulsevideo.MultiHandle.Class.{SinkClass}
use pulsevideo.MultiHandle.Store.{delete_client, index}
use pulsevideo.MultiHandle.Store.Laws.{find_client_head, update_client_head, delete_client_head}
use pulsevideo.MultiHandle.Clients.{
  update, mark_removed, remove_client_link, Walk, finished, restart, pointers, clear_walk,
  clear_rounds, clear,
}
use pulsevideo.MultiHandle.Clients.Balance.{remove_client_link-running}
use pulsevideo.MultiHandle.Clients.Linked.{
  IsLinked, mark_removed-KeepsKey, remove_client_link-IsLinked, update-IsLinked,
}
use pulsevideo.MultiHandle.Clients.Remove.{mark, remove_client_link_lem}

-- The sink at the end of a walk.
abbrev pub reached : Walk → Sink
reached (finished t) = t
reached (restart t) = t

module _ (k : SinkClass) (now : ℕ) where
  head_removed :
      (s : Sink) (c : Client) (cs : List Client)
      → s.clients ≡ c ∷ cs
      → c.currently_removing ≡ false
      → let t = remove_client_link k now c.ptr (update c.ptr mark s) in
        (t.clients ≡ cs) × (t.clients_cookie ≡ s.clients_cookie + 1)
  head_removed s c cs e f =
      let marked : (update c.ptr mark s).clients ≡ mark c ∷ cs =
        rw e (update_client_head mark c cs) in
      let gone =
        remove_client_link_lem k now (update c.ptr mark s) (mark c)
          (rw marked (find_client_head (mark c) cs)) f in
      (
        ap (λ (t : Sink). t.clients) gone
            ∙ rw marked (
                ap (delete_client c.ptr) (update_client_head (mark_removed k now) (mark c) cs)
                ∙ delete_client_head c.ptr _ cs (mark_removed-KeepsKey k now (mark c)).1),
        ap (λ (t : Sink). t.clients_cookie) gone,
      )

  -- One walk of clear removes the first client; it ends there if that was the only one, and else
  -- starts again.
  clear_walk_one :
      (s : Sink) (c : Client)
      → s.clients ≡ c ∷ []
      → clear_walk k now s.clients_cookie (c.ptr ∷ []) s
        ≡ finished (remove_client_link k now c.ptr (update c.ptr mark s))
  unfolding clear_walk
  clear_walk_one s c e = ground arith

  clear_walk_more :
      (s : Sink) (c d : Client) (cs : List Client)
      → s.clients ≡ c ∷ d ∷ cs
      → c.currently_removing ≡ false
      → clear_walk k now s.clients_cookie (c.ptr ∷ d.ptr ∷ pointers cs) s
        ≡ restart (remove_client_link k now c.ptr (update c.ptr mark s))
  unfolding clear_walk
  clear_walk_more s c d cs e f = ground (arith, head_removed s c (d ∷ cs) e f)

  -- A round goes by the way its walk ends.
  round_by :
      (fuel : ℕ) (s : Sink) (cs : List Client) (w : Walk)
      → s.clients ≡ cs
      → clear_walk k now s.clients_cookie (pointers cs) s ≡ w
      → clear_rounds k (suc fuel) now s
        ≡ elim w [ finished t ↦ t | restart t ↦ clear_rounds k fuel now t ]
  unfolding clear_rounds
  round_by fuel s cs w e h =
      ap
        (λ (v : Walk). elim v as (λ x. Sink) [
          | finished t ↦ t
          | restart t ↦ clear_rounds k fuel now t
        ])
        (ap (λ xs. clear_walk k now s.clients_cookie (pointers xs) s) e ∙ h)

  clear_rounds-nil :
      (cs : List Client) (fuel : ℕ) (s : Sink)
      → length cs < fuel
      → s.clients ≡ cs
      → All (λ (c : Client). c.currently_removing ≡ false) cs
      → (clear_rounds k fuel now s).clients ≡ []
  unfolding pointers clear_walk
  clear_rounds-nil cs zero s h e a = absurd (omega arith)
  clear_rounds-nil [] (suc fuel) s h e a =
      ap (λ (t : Sink). t.clients) (round_by fuel s [] (finished s) e refl) ∙ e
  clear_rounds-nil (c ∷ []) (suc fuel) s h e a =
      ap (λ (t : Sink). t.clients) (round_by fuel s (c ∷ []) _ e (clear_walk_one s c e))
      ∙ (head_removed s c [] e a.0).0
  clear_rounds-nil (c ∷ d ∷ cs) (suc fuel) s h e a =
      ap (λ (t : Sink). t.clients)
        (round_by fuel s (c ∷ d ∷ cs) _ e (clear_walk_more s c d cs e a.0))
      ∙ clear_rounds-nil (d ∷ cs) fuel _ (omega arith) (head_removed s c (d ∷ cs) e a.0).0 a.1

  -- What every removal of clear keeps, clear keeps.
  module _ (P : Sink → Type 0)
      (step : (p : ℕ) (s : Sink) → P s → P (remove_client_link k now p (update p mark s))) where
    clear_walk-P :
        (cookie : ℕ) (ps : List ℕ) (s : Sink) → P s → P (reached (clear_walk k now cookie ps s))
    unfolding clear_walk
    clear_walk-P cookie [] s v = v
    clear_walk-P cookie (p ∷ ps) s v =
        if_cases (λ w. P (reached w)) (not (cookie == s.clients_cookie)) (λ t. v)
          (λ f. clear_walk-P cookie ps _ (step p s v))

    pub clear_rounds-P : (fuel : ℕ) (s : Sink) → P s → P (clear_rounds k fuel now s)
    unfolding clear_rounds
    clear_rounds-P zero s v = v
    clear_rounds-P (suc fuel) s v =
        by_end (clear_walk k now s.clients_cookie (pointers s.clients) s)
          (clear_walk-P s.clients_cookie (pointers s.clients) s v) (λ t. clear_rounds-P fuel t)
      where
        by_end :
            (w : Walk)
            → P (reached w)
            → ((t : Sink) → P t → P (clear_rounds k fuel now t))
            → P (elim w [ finished t ↦ t | restart t ↦ clear_rounds k fuel now t ])
        by_end (finished t) h r = h
        by_end (restart t) h r = r t h

  clear_rounds-IsLinked : (fuel : ℕ) (s : Sink) → IsLinked s → IsLinked (clear_rounds k fuel now s)
  clear_rounds-IsLinked = clear_rounds-P IsLinked (λ p s v.
      remove_client_link-IsLinked k now p _ (update-IsLinked p mark s (λ d. (refl, refl)) v))

  pub clear-running : (s : Sink) → (clear k now s).running ≡ s.running
  unfolding clear
  clear-running s =
      clear_rounds-P (λ (t : Sink). t.running ≡ s.running)
        (λ p t e. remove_client_link-running k now p (update p mark t) ∙ e) _ s refl

  -- Where the hash table and the list of clients agree, they agree after clear.
  pub clear-IsLinked : (s : Sink) → IsLinked s → IsLinked (clear k now s)
  unfolding clear
  clear-IsLinked s v = clear_rounds-IsLinked _ s v

  -- Where the hash table and the list of clients agree, and no client is already being removed, clear
  -- leaves no client and no handle, however often its own removals make it restart.
  pub clear-nil :
      (s : Sink)
      → IsLinked s
      → All (λ (c : Client). c.currently_removing ≡ false) s.clients
      → ((clear k now s).clients ≡ []) × ((clear k now s).handle_hash ≡ [])
  unfolding clear
  clear-nil s v a =
      let gone = clear_rounds-nil s.clients (length s.clients + 1) s (omega arith) refl a in
      (gone, (clear_rounds-IsLinked (length s.clients + 1) s v).indexed ∙ ap index gone)
