-- ===== src/Examples/Streams.antt =====
-- Examples of what a client gets through everything that happens to a sink.
use pulsevideo.Base.{
  ℕ, ◌≡◌, ltb, length, refl, true, false, some, List, [], ◌∷◌, arith, ◌+ℤ◌, pos, sub_u64, inl,
}
use pulsevideo.MultiHandle.Types.{Client, Sink}
use pulsevideo.MultiHandle.Store.{find_client}
use pulsevideo.MultiHandle.Queue.Advance.{Inside}
use pulsevideo.MultiHandle.Queue.{queue_buffer, send_streamheader, streamheader_changed}
use pulsevideo.MultiHandle.Queue.Within.{Among}
use pulsevideo.MultiHandle.Queue.Restart.Twice.{queue_buffer-twice}
use pulsevideo.MultiHandle.Clients.{pointers}
use pulsevideo.MultiHandle.Clients.Linked.{IsLinked}
use pulsevideo.MultiSocket.Class.{multi_socket}
use pulsevideo.MultiSocket.Stream.{
  owed, pending, from_queue, headers_due, down_from, contents_at, bytes_of,
}
use pulsevideo.MultiSocket.{Answer, accepted, would_block}
use pulsevideo.MultiSocket.Condition.{Condition, socket_condition}
use pulsevideo.MultiSocket.Condition.Result.{IsTold, socket_condition-IsTold}
use pulsevideo.MultiSocket.Stream.Follow.{Event, rendered, writable, other_ready}
use pulsevideo.MultiSocket.Stream.Follow.Served.{IsServed}
use pulsevideo.MultiSocket.Stream.Follow.Log.{IsFollowed, follow-IsFollowed}
use pulsevideo.MultiSocket.Stream.Flush.Leave.{HasLeft, remove_flush-HasLeft}
use pulsevideo.MultiSocket.Messages.{
  Parcel, control_message, other_meta, send_head, IsDelivered, is_partial, send_head-IsDelivered,
}
use pulsevideo.Examples.{
  client, header, key, any_caps, video_caps, old_client, young_client, queue, sink,
}

-- A client that has got the stream headers, beside one that has not.
abbrev fed_client : Client
fed_client = record old_client { caps = some video_caps }

abbrev serving : Sink
serving = sink (young_client ∷ fed_client ∷ []) ((20, 2) ∷ (10, 1) ∷ []) queue

serving-IsServed : IsServed serving fed_client
unfolding Inside find_client
serving-IsServed = record {
  safe = record {
    linked = record {
      indexed = refl;
      distinct = (((λ e. omega (arith, e), omega arith), tt), (tt, tt));
      fresh = (omega arith, (omega arith, tt));
    };
    calm = (refl, (refl, tt));
  };
  indexed = ((omega arith, omega arith), ((omega arith, omega arith), tt));
  unlimited = record { no_max = refl; no_soft_max = refl; no_timeout = refl };
  opened = refl;
  listed = refl;
  fed = record {
    reader = record { placed = refl; low = omega arith; high = omega arith };
    knows = refl;
    healthy = refl;
    unflushed = refl;
  };
}

-- The socket of the other client is closed at the other end.
abbrev hung_up : Condition
hung_up = record { err = false; hup = true; input = false; pri = false; output = false }

abbrev events : List Event
events =
    rendered 8 key
    ∷ writable 9 (accepted 1 ∷ accepted 2 ∷ would_block ∷ [])
    ∷ other_ready 10 hung_up [] [] 20
    ∷ rendered 11 header
    ∷ rendered 12 key
    ∷ writable 13 (accepted 3 ∷ would_block ∷ [])
    ∷ []

follow-IsFollowed_example : IsFollowed any_caps (λ c. refl) 10 events serving fed_client
follow-IsFollowed_example =
    follow-IsFollowed any_caps (λ c. refl) events serving fed_client serving-IsServed
      (tt, ((tt, (tt, (tt, tt))), ((λ e. omega (arith, e)), (tt, (tt, ((tt, (tt, tt)), tt))))))
      (omega arith)

-- A message of nine memories of one byte each, with one control message.
abbrev scattered : Parcel
scattered = record {
  memories =
      (1 ∷ [])
      ∷ (2 ∷ [])
      ∷ (3 ∷ [])
      ∷ (4 ∷ [])
      ∷ (5 ∷ [])
      ∷ (6 ∷ [])
      ∷ (7 ∷ [])
      ∷ (8 ∷ [])
      ∷ (9 ∷ [])
      ∷ [];
  metas = other_meta ∷ control_message 7 ∷ [];
}

abbrev nines : List ℕ
nines = 9 ∷ 9 ∷ 9 ∷ 9 ∷ 9 ∷ 9 ∷ 9 ∷ 9 ∷ []

send_head-IsDelivered_example :
    IsDelivered scattered 0 (send_head scattered 0 (9 ∷ nines))
    × (ltb 1 (length (send_head scattered 0 (9 ∷ nines))) ≡ is_partial scattered 0 9)
send_head-IsDelivered_example =
    send_head-IsDelivered scattered 0 9 nines (omega arith)
      (
        omega arith,
        (
          omega arith,
          (
            omega arith,
            (
              omega arith,
              (omega arith, (omega arith, (omega arith, (omega arith, (omega arith, tt))))),
            ),
          ),
        ),
      )
      (omega arith)

abbrev willing : List Answer
willing =
    accepted 9 ∷ accepted 1 ∷ accepted 9 ∷ accepted 9 ∷ accepted 9 ∷ accepted 9 ∷ accepted 9 ∷ []

remove_flush-HasLeft_example : HasLeft any_caps (λ c. refl) 9 willing serving fed_client
unfolding owed pending from_queue headers_due send_streamheader down_from contents_at ◌+ℤ◌
    streamheader_changed bytes_of
remove_flush-HasLeft_example =
    remove_flush-HasLeft any_caps (λ c. refl) 9 willing serving fed_client
      serving-IsServed.safe.linked serving-IsServed.listed refl serving-IsServed.fed
      (
        omega arith,
        (
          omega arith,
          (omega arith, (omega arith, (omega arith, (omega arith, (omega arith, tt))))),
        ),
      )
      (omega arith)

socket_condition-IsTold_example : IsTold 20 (socket_condition any_caps 10 hung_up [] [] 20 serving)
socket_condition-IsTold_example =
    socket_condition-IsTold any_caps 10 hung_up [] [] 20 serving serving-IsServed.safe.linked
      serving-IsServed.safe.calm

-- Three clients, of which the second is overdue at 1000.
abbrev first_client : Client
first_client = record (client 3 30 (pos 0)) { last_activity_time = 950 }

abbrev overdue_client : Client
overdue_client = client 2 20 (pos 0)

abbrev last_client : Client
last_client = record (client 1 10 (pos 0)) { last_activity_time = 950 }

abbrev crowded : Sink
crowded =
    record (sink (first_client ∷ overdue_client ∷ last_client ∷ [])
      ((30, 3) ∷ (20, 2) ∷ (10, 1) ∷ []) queue) { timeout = 100 }

crowded-IsLinked : IsLinked crowded
crowded-IsLinked = record {
  indexed = refl;
  distinct = (
    ((λ e. omega (arith, e), omega arith), ((λ e. omega (arith, e), omega arith), tt)),
    (((λ e. omega (arith, e), omega arith), tt), (tt, tt)),
  );
  fresh = (omega arith, (omega arith, (omega arith, tt)));
}

queue_buffer-twice_example :
    (e : Client) × (find_client 3 (queue_buffer multi_socket 1000 key crowded).clients ≡ some e)
    × (e.bufpos ≡ (pos 0 +ℤ pos 1) +ℤ pos 1)
unfolding find_client sub_u64 pointers Among
queue_buffer-twice_example =
    queue_buffer-twice multi_socket 1000 key crowded crowded-IsLinked refl refl overdue_client refl
      refl refl (λ n. refl, (λ n. absurd (n refl), (λ n. refl, tt))) (3 ∷ []) 1 [] refl 3
      first_client (inl refl) refl
