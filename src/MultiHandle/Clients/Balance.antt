-- ===== src/MultiHandle/Clients/Balance.antt =====
-- What remove_client_link leaves of the list, the cookie and the other clients.
use pulsevideo.Base.{
  ℕ, ◌+◌, ◌≤◌, ◌≡◌, refl, ap, ◌∙◌, if_cases, option_cases, some, length, All, arith,
}
use pulsevideo.MultiHandle.Types.{Client, Sink}
use pulsevideo.MultiHandle.Class.{SinkClass}
use pulsevideo.MultiHandle.Store.{find_client, update_client}
use pulsevideo.MultiHandle.Store.Laws.{
  find_client-ptr, find_client-update_self, length-update, length-delete, All-update, All-delete,
}
use pulsevideo.MultiHandle.Clients.{
  update, mark_removed, remove_begin, remove_finish, remove_found, remove_client_link,
}
use pulsevideo.MultiHandle.Clients.Linked.{mark_removed-KeepsKey}

-- The clients removed and the changes of the cookie are as many.
pub record IsBalanced (s t : Sink) : Type 0 where
  pub total : t.clients_cookie + length t.clients ≡ s.clients_cookie + length s.clients
  pub grows : s.clients_cookie ≤ t.clients_cookie

pub IsBalanced-trans : {r s t : Sink} → IsBalanced r s → IsBalanced s t → IsBalanced r t
IsBalanced-trans a b = record { total = b.total ∙ a.total; grows = omega (arith, a.grows, b.grows) }

pub update-IsBalanced : (p : ℕ) (f : Client → Client) (s : Sink) → IsBalanced s (update p f s)
update-IsBalanced p f s = record {
  total = omega (arith, length-update p f s.clients);
  grows = omega arith;
}

module _ (k : SinkClass) where
  pub remove_client_link-IsBalanced :
      (now p : ℕ) (s : Sink) → IsBalanced s (remove_client_link k now p s)
  unfolding remove_client_link remove_found remove_begin remove_finish
  remove_client_link-IsBalanced now p s =
      option_cases (IsBalanced s) (find_client p s.clients) (λ n. unchanged)
        (λ c e. if_cases (IsBalanced s) c.currently_removing (λ t. unchanged) (λ f. removal c e))
    where
      unchanged : IsBalanced s s
      unchanged = record { total = refl; grows = omega arith }

      removal :
          (c : Client)
          → find_client p s.clients ≡ some c
          → IsBalanced s (remove_finish k (mark_removed k now c) (remove_begin k now c s))
      removal c e =
          let keeps = mark_removed-KeepsKey k now in
          let f = mark_removed k now in
          let here : find_client c.ptr s.clients ≡ some c =
            simp (find_client-ptr p s.clients c e) e in
          let found = find_client-update_self c.ptr f s.clients c keeps here in
          let found' : find_client (f c).ptr (update_client c.ptr f s.clients) ≡ some (f c) =
            simp ((keeps c).1) found in
          let shorter = length-delete (f c).ptr (update_client c.ptr f s.clients) (f c) found' in
          let same = length-update c.ptr f s.clients in
          record { total = omega (arith, shorter, same); grows = omega arith }

  -- A change of the sink that marking, deleting and signalling respect is one of remove_client_link.
  pub remove_client_link-P {κ} :
      (P : Sink → Type κ) (now p : ℕ) (s : Sink)
      → P s
      → ((c : Client) → P (remove_finish k (mark_removed k now c) (remove_begin k now c s)))
      → P (remove_client_link k now p s)
  unfolding remove_client_link remove_found
  remove_client_link-P P now p s h g =
      option_cases P (find_client p s.clients) (λ n. h)
        (λ c e. if_cases P c.currently_removing (λ t. h) (λ f. g c))

  pub remove_client_link-All {κ} :
      (P : Client → Type κ) (now p : ℕ) (s : Sink)
      → ((c : Client) → P c → P (mark_removed k now c))
      → All P s.clients
      → All P (remove_client_link k now p s).clients
  unfolding remove_begin remove_finish
  remove_client_link-All P now p s m a =
      remove_client_link-P (λ (t : Sink). All P t.clients) now p s a
        (λ c. All-delete P _ _ (All-update P c.ptr (mark_removed k now) s.clients (λ d e. m d) a))

  pub remove_client_link-bufqueue :
      (now p : ℕ) (s : Sink) → (remove_client_link k now p s).bufqueue ≡ s.bufqueue
  unfolding remove_begin remove_finish
  remove_client_link-bufqueue now p s =
      remove_client_link-P (λ (t : Sink). t.bufqueue ≡ s.bufqueue) now p s refl (λ c. refl)

  pub mark_removed-bufpos : (now : ℕ) (c : Client) → (mark_removed k now c).bufpos ≡ c.bufpos
  unfolding mark_removed
  mark_removed-bufpos now c = ap (λ (d : Client). d.bufpos) (k.hash_removing_lem _)

  pub remove_client_link-running :
      (now p : ℕ) (s : Sink) → (remove_client_link k now p s).running ≡ s.running
  unfolding remove_begin remove_finish
  remove_client_link-running now p s =
      remove_client_link-P (λ (t : Sink). t.running ≡ s.running) now p s refl (λ c. refl)

  -- The queue and the settings that it is kept by.
  pub remove_client_link-settings :
      (now p : ℕ) (s : Sink)
      → let t = remove_client_link k now p s in
        (t.bufqueue ≡ s.bufqueue)
        × (t.bytes_min ≡ s.bytes_min)
        × (t.buffers_min ≡ s.buffers_min)
        × (t.time_min ≡ s.time_min)
        × (t.def_sync_method ≡ s.def_sync_method)
        × (t.unit_format ≡ s.unit_format)
        × (t.units_soft_max ≡ s.units_soft_max)
        × (t.recover_policy ≡ s.recover_policy)
        × (t.timeout ≡ s.timeout)
  unfolding remove_begin remove_finish
  remove_client_link-settings now p s =
      remove_client_link-P
        (λ (t : Sink).
          (t.bufqueue ≡ s.bufqueue)
          × (t.bytes_min ≡ s.bytes_min)
          × (t.buffers_min ≡ s.buffers_min)
          × (t.time_min ≡ s.time_min)
          × (t.def_sync_method ≡ s.def_sync_method)
          × (t.unit_format ≡ s.unit_format)
          × (t.units_soft_max ≡ s.units_soft_max)
          × (t.recover_policy ≡ s.recover_policy)
          × (t.timeout ≡ s.timeout))
        now p s (refl, refl, refl, refl, refl, refl, refl, refl, refl)
        (λ c. (refl, refl, refl, refl, refl, refl, refl, refl, refl))
