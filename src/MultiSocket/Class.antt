-- ===== src/MultiSocket/Class.antt =====
-- gst/tcp/gstmultisocketsink.c: the virtual methods of GstMultiHandleSinkClass, and what they do
-- to the event source of a client.
use pulsevideo.Base.{ℕ, ◌≡◌, refl, true, false, not, if◌then◌else◌, if_cases, List, [], ◌∷◌}
use pulsevideo.MultiHandle.Types.{Client, Sink, Signal, SyncMethod, client_socket_removed}
use pulsevideo.MultiHandle.Class.{SinkClass, client_init}

-- gst_multi_socket_sink_hash_adding: a source is attached where there is a main context.
pub hash_adding : Sink → Client → Client
hash_adding s c =
    if not s.main_context then c else if not c.source then record c { source = true } else c

-- gst_multi_socket_sink_hash_removing
pub hash_removing : Client → Client
hash_removing c = if c.source then record c { source = false } else c

-- gst_multi_socket_sink_new_client
pub new_client : Sink → ℕ → SyncMethod → ℕ → Client
new_client s handle sync_method now = hash_adding s (client_init s.next_ptr handle sync_method now)

-- gst_multi_socket_sink_client_free
pub client_free : Client → List Signal
client_free c = client_socket_removed c.handle ∷ []

pub hash_adding_lem :
    (s : Sink) (c : Client) → hash_adding s c ≡ record c { source = (hash_adding s c).source }
unfolding hash_adding
hash_adding_lem s c =
    if_cases (λ d. d ≡ record c { source = d.source }) (not s.main_context) (λ t. refl)
      (λ f.
        if_cases (λ d. d ≡ record c { source = d.source }) (not c.source) (λ t. refl) (λ g. refl))

pub hash_removing_lem :
    (c : Client) → hash_removing c ≡ record c { source = (hash_removing c).source }
unfolding hash_removing
hash_removing_lem c =
    if_cases (λ d. d ≡ record c { source = d.source }) c.source (λ t. refl) (λ f. refl)

pub new_client_lem :
    (s : Sink) (handle : ℕ) (m : SyncMethod) (now : ℕ)
    → new_client s handle m now
      ≡ record (client_init s.next_ptr handle m now) { source = (new_client s handle m now).source }
unfolding new_client
new_client_lem s handle m now = hash_adding_lem s (client_init s.next_ptr handle m now)

-- The class of the multisocketsink element.
pub multi_socket : SinkClass
multi_socket = record {
  hash_adding = hash_adding;
  hash_removing = hash_removing;
  new_client = new_client;
  client_free = client_free;
  hash_adding_lem = hash_adding_lem;
  hash_removing_lem = hash_removing_lem;
  new_client_lem = new_client_lem;
}
