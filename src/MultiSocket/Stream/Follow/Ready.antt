-- ===== src/MultiSocket/Stream/Follow/Ready.antt =====
-- What a ready socket makes of a client that is being served, its own one and another's.
use pulsevideo.Base.{
  ℕ, zero, ◌≡◌, ◌≢◌, refl, sym, ap, ◌∙◌, subst, Bool, true, Option-cases, inl, inr, some, List, [],
  ◌++◌, append-nil, All, length, pos, ltb_ℤ, add_u64, arith,
}
use pulsevideo.MultiHandle.Types.{Client, Sink, Buffer, Caps, CapsOps}
use pulsevideo.MultiHandle.Store.{find_client}
use pulsevideo.MultiHandle.Store.Put.{find_client-put_self}
use pulsevideo.MultiHandle.Clients.{update}
use pulsevideo.MultiHandle.Clients.Placed.{IsIndexed}
use pulsevideo.MultiHandle.Position.Key.{SameKey}
use pulsevideo.MultiSocket.{Received, Answer}
use pulsevideo.MultiSocket.Condition.{Condition, store_written, socket_condition}
use pulsevideo.MultiSocket.Condition.Key.{WrittenKey, write_loop_key}
use pulsevideo.MultiSocket.Condition.Write.{can_write, socket_condition-write}
use pulsevideo.MultiSocket.Condition.Kept.{After, socket_condition_kept}
use pulsevideo.MultiSocket.Condition.Linked.{Anything}
use pulsevideo.MultiSocket.Reach.Kept.{IsSafe, IsSafe-IsKept}
use pulsevideo.MultiSocket.Reach.Patient.{condition-IsIndexed}
use pulsevideo.MultiSocket.Stream.{owed}
use pulsevideo.MultiSocket.Stream.Fed.{IsFair, write_loop-IsFed}
use pulsevideo.MultiSocket.Stream.Follow.{sent_by}
use pulsevideo.MultiSocket.Stream.Follow.Others.{
  lookup-listed, Untouched, socket_condition-Untouched,
}
use pulsevideo.MultiSocket.Stream.Follow.Served.{IsServed, same-IsFed, Step, owed-same}

module _ (ops : CapsOps) (reflexive : (c : Caps) → ops.caps_is_equal c c ≡ true) where
  -- The client's own socket.
  pub written :
      (now : ℕ) (answers : List Answer) (s : Sink) (c : Client)
      → IsServed s c
      → All IsFair answers
      → (r : Bool × Sink) × (socket_condition ops now can_write [] answers c.handle s ≡ some r)
        × Step ops reflexive (sent_by ops c.handle now answers s) [] s c r.1
  unfolding sent_by WrittenKey
  written now answers s c h a =
      let (w, wrote, result, conserved, fed) =
        write_loop-IsFed ops s reflexive now answers c a h.fed in
      let d = w.client in
      let r = store_written now w s in
      let t : Sink =
        update d.ptr (λ x. d)
          (record s { bytes_served = add_u64 s.bytes_served (length w.sent) }) in
      let stored : r.1 ≡ t = rw result refl in
      let lookup_c = lookup-listed c.ptr s c h.safe.linked h.listed in
      let called =
        socket_condition-write ops now answers c.handle s c w lookup_c (rw (h.fed.healthy) refl)
          wrote in
      let key : SameKey c d = subst (WrittenKey c) wrote (write_loop_key ops s now answers c) in
      let safe : IsSafe r.1 = subst (After (Unit {0}) IsSafe) called (
        socket_condition_kept ops (Unit {0}) IsSafe Anything (IsSafe-IsKept ops) now can_write []
          answers c.handle s h.safe.linked h.safe) in
      let indexed : IsIndexed r.1 =
        subst (After (zero ≡ 1) IsIndexed) called
          (condition-IsIndexed ops now can_write [] answers c.handle s h.safe h.indexed) in
      let sent : sent_by ops c.handle now answers s ≡ w.sent = rw (lookup_c, wrote) refl in
      let put : find_client d.ptr t.clients ≡ some d =
        find_client-put_self d.ptr c d s.clients refl
          (subst (λ x. find_client x s.clients ≡ some c) (sym key.1) h.listed) in
      (
        r,
        called,
        subst (Step ops reflexive (sent_by ops c.handle now answers s) [] s c) (sym stored)
            (record {
              client = d;
              served = record {
                safe = subst IsSafe stored safe;
                indexed = subst IsIndexed stored indexed;
                unlimited = record {
                  no_max = h.unlimited.no_max;
                  no_soft_max = h.unlimited.no_soft_max;
                  no_timeout = h.unlimited.no_timeout;
                };
                opened = h.opened;
                listed = put;
                fed = same-IsFed s t d refl refl fed;
              };
              same_handle = key.0;
              grows = omega arith;
              owes =
                  ap (λ x. x ++ owed ops t d) sent
                  ∙ ap (λ x. w.sent ++ x) (owed-same ops reflexive s t d refl refl refl)
                  ∙ conserved
                  ∙ sym (append-nil (owed ops s c));
            }),
      )

  -- Another socket.
  pub elsewhere :
      (now : ℕ) (condition : Condition) (reads : List Received) (answers : List Answer) (other : ℕ)
      (s : Sink) (c : Client)
      → IsServed s c
      → other ≢ c.handle
      → (r : Bool × Sink) × (socket_condition ops now condition reads answers other s ≡ some r)
        × Step ops reflexive [] [] s c r.1
  elsewhere now condition reads answers other s c h n =
      let o = socket_condition ops now condition reads answers other s in
      let safe =
        socket_condition_kept ops (Unit {0}) IsSafe Anything (IsSafe-IsKept ops) now condition reads
          answers other s h.safe.linked h.safe in
      let indexed = condition-IsIndexed ops now condition reads answers other s h.safe h.indexed in
      let untouched =
        socket_condition-Untouched ops c.ptr c s now condition reads answers other h.safe.linked
          h.listed n in
      elim (Option-cases o) [
        | inl e ↦
            let wrong : zero ≡ 1 = subst (After (zero ≡ 1) IsIndexed) e indexed in
            absurd (omega (arith, wrong))
        | inr (r, e) ↦
            let same : Untouched ops c.ptr c s r.1 =
              subst (After (Unit {0}) (Untouched ops c.ptr c s)) e untouched in
            let queue = ap (λ (t : Sink). t.bufqueue) same.1 in
            let caps = ap (λ (t : Sink). t.caps) same.1 in
            (
              r,
              e,
              record {
                client = c;
                served = record {
                  safe = subst (After (Unit {0}) IsSafe) e safe;
                  indexed = subst (After (zero ≡ 1) IsIndexed) e indexed;
                  unlimited = record {
                    no_max =
                        ap (λ (t : Sink). ltb_ℤ (pos 0) t.units_max) same.1 ∙ h.unlimited.no_max;
                    no_soft_max =
                        ap (λ (t : Sink). ltb_ℤ (pos 0) t.units_soft_max) same.1
                        ∙ h.unlimited.no_soft_max;
                    no_timeout = ap (λ (t : Sink). t.timeout) same.1 ∙ h.unlimited.no_timeout;
                  };
                  opened = ap (λ (t : Sink). t.is_open) same.1 ∙ h.opened;
                  listed = same.0;
                  fed = same-IsFed s r.1 c queue caps h.fed;
                };
                same_handle = refl;
                grows = omega (arith, ap (λ (q : List Buffer). length q) queue);
                owes =
                    owed-same ops reflexive s r.1 c queue caps
                      (ap (λ (t : Sink). t.resend_streamheader) same.1)
                    ∙ sym (append-nil (owed ops s c));
              },
            )
      ]
