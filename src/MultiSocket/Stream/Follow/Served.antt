-- ===== src/MultiSocket/Stream/Follow/Served.antt =====
-- A client that is being served, and what a buffer makes of it.
use pulsevideo.Base.{
  ℕ, suc, ◌<◌, ◌≤◌, ◌≡◌, refl, sym, ap, ◌∙◌, subst, true, false, not, ◌&&◌, if◌then◌else◌, some,
  List, [], ◌∷◌, ◌++◌, append-nil, length, take, length-take, pos, pos_part, ltb_ℤ, two_31, add_u64,
  arith,
}
use pulsevideo.MultiHandle.Types.{Client, Sink, Buffer, Caps, CapsOps, size}
use pulsevideo.MultiHandle.Store.{find_client}
use pulsevideo.MultiHandle.Store.Laws.{find_client-ptr}
use pulsevideo.MultiHandle.Clients.Linked.{IsLinked, IsLinked-same}
use pulsevideo.MultiHandle.Clients.Placed.{IsIndexed}
use pulsevideo.MultiHandle.Queue.{render, queue_buffer, send_streamheader}
use pulsevideo.MultiHandle.Queue.Calm.{queue_buffer-IsCalm}
use pulsevideo.MultiHandle.Queue.Within.{queue_buffer-IsSettled}
use pulsevideo.MultiHandle.Queue.Inside.{queue_buffer-Inside}
use pulsevideo.MultiHandle.Queue.Tracked.{IsUnlimited}
use pulsevideo.MultiHandle.Queue.Tracked.Whole.{queue_buffer-Stepped}
use pulsevideo.MultiSocket.Class.{multi_socket}
use pulsevideo.MultiSocket.Reach.Kept.{IsSafe, same-IsSafe}
use pulsevideo.MultiSocket.Stream.{owed, headers_due, from_queue}
use pulsevideo.MultiSocket.Stream.Queued.{IsFed, queue_buffer-owed}

-- An open sink without limits and a timeout, and a client of it that is being served.
pub record IsServed (s : Sink) (c : Client) : Type 0 where
  pub safe : IsSafe s
  pub indexed : IsIndexed s
  pub unlimited : IsUnlimited s
  pub opened : s.is_open ≡ true
  pub listed : find_client c.ptr s.clients ≡ some c
  pub fed : IsFed s c

pub same-IsFed :
    (s t : Sink) (c : Client) → t.bufqueue ≡ s.bufqueue → t.caps ≡ s.caps → IsFed s c → IsFed t c
same-IsFed s t c q a f = record {
  reader = record { placed = f.reader.placed; low = f.reader.low; high = rw q (f.reader.high) };
  knows = f.knows ∙ ap some (sym a);
  healthy = f.healthy;
  unflushed = f.unflushed;
}

grown : (q : List Buffer) (n : ℕ) (p : List Buffer) → q ≡ take n p → length q ≤ length p
grown q n p e = omega (arith, ap (λ (x : List Buffer). length x) e, length-take n p)

module _ (ops : CapsOps) (reflexive : (c : Caps) → ops.caps_is_equal c c ≡ true) where
  -- What one event makes of a served client: `sent` goes out to it, and `due` is added to what it is
  -- owed.
  pub record Step (sent due : List ℕ) (s : Sink) (c : Client) (t : Sink) : Type 0 where
    pub client : Client
    pub served : IsServed t client
    pub same_handle : client.handle ≡ c.handle
    pub grows : length t.bufqueue ≤ suc (length s.bufqueue)
    pub owes : sent ++ owed ops t client ≡ owed ops s c ++ due

  -- The parts of a sink that this reads.
  pub owed-same :
      (s t : Sink) (c : Client)
      → t.bufqueue ≡ s.bufqueue
      → t.caps ≡ s.caps
      → t.resend_streamheader ≡ s.resend_streamheader
      → owed ops t c ≡ owed ops s c
  unfolding owed from_queue headers_due send_streamheader
  owed-same s t c q a r = rw (q, a, r) refl

  pub render-header :
      (now : ℕ) (b : Buffer) (s : Sink) (c : Client)
      → IsServed s c
      → b.header ≡ true
      → (t : Sink) × (render multi_socket now b s ≡ some t) × Step [] [] s c t
  unfolding render
  render-header now b s c h e =
      let t : Sink = record s {
        streamheader =
            (if b.header && not s.previous_buffer_in_caps then [] else s.streamheader) ++ b ∷ [];
        previous_buffer_in_caps = b.header;
      } in
      (
        t,
        rw (h.opened, e) refl,
        record {
          client = c;
          served = record {
            safe = same-IsSafe s t refl refl refl h.safe;
            indexed = h.indexed;
            unlimited = record {
              no_max = h.unlimited.no_max;
              no_soft_max = h.unlimited.no_soft_max;
              no_timeout = h.unlimited.no_timeout;
            };
            opened = h.opened;
            listed = h.listed;
            fed = same-IsFed s t c refl refl h.fed;
          };
          same_handle = refl;
          grows = omega arith;
          owes = owed-same s t c refl refl refl ∙ sym (append-nil (owed ops s c));
        },
      )

  pub render-buffer :
      (now : ℕ) (b : Buffer) (s : Sink) (c : Client)
      → IsServed s c
      → suc (length s.bufqueue) < two_31
      → b.header ≡ false
      → (t : Sink) × (render multi_socket now b s ≡ some t) × Step [] b.contents s c t
  unfolding render
  render-buffer now b s c h short e =
      let p : Sink = record s {
        streamheader = if b.header && not s.previous_buffer_in_caps then [] else s.streamheader;
        previous_buffer_in_caps = b.header;
      } in
      let linked : IsLinked p = IsLinked-same refl refl refl h.safe.linked in
      let unlimited : IsUnlimited p = record {
        no_max = h.unlimited.no_max;
        no_soft_max = h.unlimited.no_soft_max;
        no_timeout = h.unlimited.no_timeout;
      } in
      let r = queue_buffer multi_socket now b p in
      let t : Sink = record r { bytes_to_serve = add_u64 r.bytes_to_serve (size b) } in
      let settled = queue_buffer-IsSettled multi_socket now b p linked in
      let step = queue_buffer-Stepped multi_socket now b p c.ptr c linked unlimited h.listed in
      let end =
        queue_buffer-owed ops reflexive multi_socket now b p c.ptr c linked unlimited h.listed
          (same-IsFed s p c refl refl h.fed) in
      let d = end.0 in
      let found : find_client d.ptr r.clients ≡ some d =
        subst (λ x. find_client x r.clients ≡ some d)
          (sym (find_client-ptr c.ptr r.clients d end.1)) end.1 in
      (
        t,
        rw (h.opened, e) refl,
        record {
          client = d;
          served = record {
            safe = same-IsSafe r t refl refl refl (record {
              linked = settled.linked;
              calm = queue_buffer-IsCalm multi_socket now b p h.safe.calm;
            });
            indexed =
                queue_buffer-Inside multi_socket now b p linked h.unlimited.no_timeout short
                  h.indexed;
            unlimited = record {
              no_max = ap (λ (x : Sink). ltb_ℤ (pos 0) x.units_max) step.1 ∙ h.unlimited.no_max;
              no_soft_max =
                  ap (λ (x : Sink). ltb_ℤ (pos 0) x.units_soft_max) step.1
                  ∙ h.unlimited.no_soft_max;
              no_timeout = ap (λ (x : Sink). x.timeout) step.1 ∙ h.unlimited.no_timeout;
            };
            opened = ap (λ (x : Sink). x.is_open) step.1 ∙ h.opened;
            listed = found;
            fed = same-IsFed r t d refl refl end.3;
          };
          same_handle = end.2;
          grows = grown r.bufqueue (suc (pos_part r.buffers_queued)) (b ∷ s.bufqueue) settled.queue;
          owes =
              owed-same r t d refl refl refl
              ∙ end.4
              ∙ ap (λ x. x ++ b.contents) (owed-same s p c refl refl refl);
        },
      )
