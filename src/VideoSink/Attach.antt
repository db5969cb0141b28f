-- ===== src/VideoSink/Attach.antt =====
-- What Attach answers, and what it leaves open.
use pulsevideo.Base.{
  ℕ, ◌+◌, ◌<◌, ◌≡◌, refl, ap, sym, subst, true, false, not, if_cases, option_case, Option, none,
  some, [], ◌∷◌, arith,
}
use pulsevideo.Fault.{inject_fault}
use pulsevideo.MultiHandle.Types.{Sink}
use pulsevideo.MultiHandle.Store.{hash_lookup}
use pulsevideo.MultiHandle.Clients.{add}
use pulsevideo.MultiHandle.Clients.Linked.{IsLinked, add-IsLinked}
use pulsevideo.MultiHandle.Clients.Added.{add-lookup}
use pulsevideo.MultiSocket.Class.{multi_socket}
use pulsevideo.VideoSink.{
  VideoSink, Waited, got_caps, timed_out, still_waiting, attach_time, Reply, completed,
  returned_gerror, Attached, Calls, held, after_fault, after_wait, attach_pair, on_handle_attach,
}
use pulsevideo.VideoSink.Wait.{IsWaited, wait_get_caps-IsWaited}

-- The reply has the other end and caps that the pad has at some time, or it is an error and the pad
-- has no caps at a time after the end of the wait.
unfoldable pub IsAnswer : Calls → ℕ → ℕ → Reply → Type 0
IsAnswer calls end_time theirs (completed fd caps) =
    (fd ≡ theirs) × ((t : ℕ) × (calls.current_caps t ≡ some caps))
IsAnswer calls end_time theirs returned_gerror =
    (t : ℕ) × (calls.current_caps t ≡ none) × (end_time < t)

-- A reply, with our end of the pair among the clients of the multisocketsink, and open.
pub record IsAttached (calls : Calls) (now ours theirs : ℕ) (before : Sink) (o : Option Attached)
    : Type 0 where
  pub result : Attached
  pub returns : o ≡ some result
  pub answer : IsAnswer calls (now + attach_time) theirs result.reply
  pub client : hash_lookup ours result.sink.socketsink.handle_hash ≡ some before.next_ptr
  pub kept_open : result.open_fds ≡ ours ∷ []
  pub linked : IsLinked result.sink.socketsink

module _ (calls : Calls) (now ours theirs : ℕ) (sink : VideoSink) where
  -- The sink with our end added.
  abbrev with_client : ℕ → VideoSink
  with_client wall = record sink { socketsink = add multi_socket wall ours sink.socketsink }

  replied :
      (r : Reply) (v : VideoSink)
      → IsAnswer calls (now + attach_time) theirs r
      → hash_lookup ours v.socketsink.handle_hash ≡ some sink.socketsink.next_ptr
      → IsLinked v.socketsink
      → IsAttached calls now ours theirs sink.socketsink
          (some (record { reply = r; sink = v; open_fds = held ours v.socketsink }))
  replied r v a h l = record {
    result = record { reply = r; sink = v; open_fds = held ours v.socketsink };
    returns = refl;
    answer = a;
    client = h;
    kept_open = ap (λ o. option_case o [] (λ p. ours ∷ [])) h;
    linked = l;
  }

  after_wait-IsAttached :
      (w : Waited) (v : VideoSink)
      → calls.fault_injection ≡ false
      → IsWaited calls.current_caps calls.oversleep (now + attach_time) w
      → hash_lookup ours v.socketsink.handle_hash ≡ some sink.socketsink.next_ptr
      → IsLinked v.socketsink
      → IsAttached calls now ours theirs sink.socketsink (after_wait calls w ours theirs v)
  unfolding after_wait after_fault inject_fault IsWaited IsAnswer
  after_wait-IsAttached (got_caps caps t) v off w h l =
      subst (IsAttached calls now ours theirs sink.socketsink)
        (ap
          (λ b.
            after_fault (inject_fault calls.strtol b calls.getenv v.pre_attach) ours theirs caps v)
          (sym off))
        (replied (completed theirs caps) _ (refl, (t, w)) h l)
  after_wait-IsAttached (timed_out t) v off w h l = replied returned_gerror v (t, w.0, w.1) h l
  after_wait-IsAttached still_waiting v off w h l = absurd (omega (arith, w))

  -- Without fault injection, and where socketpair gives two ends of which the first becomes a GSocket
  -- that a running multisocketsink does not know yet, Attach always ends with a reply: the other end
  -- and caps that the pad has, or, more than 20 s later, an error while the pad has no caps. In
  -- either case our end is a client of the multisocketsink and stays open, and the hash table and the
  -- list of clients agree if they did before.
  pub on_handle_attach-IsAttached :
      (wall : ℕ)
      → calls.fault_injection ≡ false
      → calls.socketpair ≡ some (ours, theirs)
      → calls.is_socket ours ≡ true
      → sink.socketsink.running ≡ true
      → hash_lookup ours sink.socketsink.handle_hash ≡ none
      → IsLinked sink.socketsink
      → IsAttached calls now ours theirs sink.socketsink (on_handle_attach calls wall now sink)
  unfolding on_handle_attach attach_pair
  on_handle_attach-IsAttached wall off pair socket runs fresh l =
      subst
        (λ o. IsAttached calls now ours theirs sink.socketsink (
          option_case o (some (record { reply = returned_gerror; sink = sink; open_fds = [] }))
            (λ p. attach_pair calls wall now p.0 p.1 sink)))
        (sym pair)
        (if_cases (IsAttached calls now ours theirs sink.socketsink) (not (calls.is_socket ours))
          (λ t. cc (ap not socket))
          (λ f.
            after_wait-IsAttached _ (with_client wall) off
              (wait_get_caps-IsWaited calls.current_caps calls.oversleep 2002 now
                (now + attach_time) (omega arith))
              (add-lookup multi_socket wall ours sink.socketsink runs fresh)
              (add-IsLinked multi_socket wall ours sink.socketsink l)))
