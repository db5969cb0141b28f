-- ===== src/MultiHandle/Clients/Added.antt =====
-- The client that add makes.
use pulsevideo.Base.{
  ℕ, ◌≡◌, refl, ap, Bool, true, false, not, ◌&&◌, if_cases, option_cases, ◌==◌, none, some, arith,
}
use pulsevideo.MultiHandle.Types.{Client, Sink, Format, clock_time_none}
use pulsevideo.MultiHandle.Class.{SinkClass, client_init}
use pulsevideo.MultiHandle.Store.{hash_lookup, hash_insert}
use pulsevideo.MultiHandle.Clients.{wrong_limits, insert_client, add_full, add}

-- A limit of -1 is never too low.
no_maximum : (a b c n : Bool) → n ≡ false → (a && n && b && c) ≡ false
no_maximum true b c n e = rw e refl
no_maximum false b c n e = refl

limits_fit : (f : Format) (x : ℕ) → wrong_limits f x f clock_time_none ≡ false
unfolding wrong_limits
limits_fit f x = no_maximum _ _ _ (not (clock_time_none == clock_time_none)) (ground arith)

inserted :
    (c : Client) (handle : ℕ) (s : Sink)
    → c.handle ≡ handle
    → c.ptr ≡ s.next_ptr
    → hash_lookup handle (insert_client c s).handle_hash ≡ some s.next_ptr
unfolding insert_client hash_lookup hash_insert
inserted c handle s h p = ground arith

-- A running sink that does not know the handle has a client for it after add.
pub add-lookup :
    (k : SinkClass) (now handle : ℕ) (s : Sink)
    → s.running ≡ true
    → hash_lookup handle s.handle_hash ≡ none
    → hash_lookup handle (add k now handle s).handle_hash ≡ some s.next_ptr
unfolding add add_full client_init
add-lookup k now handle s r n =
    if_cases Known (not s.running) (λ t. cc (ap not r))
      (λ f.
        if_cases Known
          (wrong_limits s.def_burst_format s.def_burst_value s.def_burst_format clock_time_none)
          (λ t. let fit = limits_fit s.def_burst_format s.def_burst_value in cc)
          (λ g.
            option_cases Known (hash_lookup handle s.handle_hash)
              (λ m.
                inserted _ handle s
                  (ap (λ (c : Client). c.handle) (k.new_client_lem s handle s.def_sync_method now))
                  (ap (λ (c : Client). c.ptr) (k.new_client_lem s handle s.def_sync_method now)))
              (λ p e. cc)))
  where
    Known : Sink → Type 0
    Known t = hash_lookup handle t.handle_hash ≡ some s.next_ptr
