-- ===== src/MultiHandle/Queue/Render.antt =====
-- render: which buffers become stream headers, and which are queued.
use pulsevideo.Base.{
  ℕ, ◌≡◌, refl, sym, ap, ◌∙◌, true, false, not, ◌&&◌, if◌then◌else◌, if_cases, option_case, Option,
  none, some, List, [], ◌∷◌, ◌++◌, append-nil, append_assoc, All,
}
use pulsevideo.MultiHandle.Types.{Buffer, Sink}
use pulsevideo.MultiHandle.Class.{SinkClass}
use pulsevideo.MultiHandle.Queue.{render}

module _ (k : SinkClass) (now : ℕ) where
  -- render, for one buffer after the other.
  pub render_all : List Buffer → Sink → Option Sink
  render_all [] s = some s
  render_all (b ∷ bs) s = option_case (render k now b s) none (λ t. render_all bs t)

  abbrev pub with_headers : List Buffer → Sink → Sink
  with_headers hs s = record s { streamheader = hs; previous_buffer_in_caps = true }

  one_more :
      (s : Sink) (h : Buffer)
      → s.is_open ≡ true
      → h.header ≡ true
      → render k now h s
        ≡ some (
            with_headers
              ((if not s.previous_buffer_in_caps then [] else s.streamheader) ++ h ∷ [])
              s)
  unfolding render
  one_more s h o e =
      if_cases (λ r. r ≡ expected) (not s.is_open) (λ t. cc (ap not o))
        (λ f.
          if_cases (λ r. r ≡ expected) h.header
            (λ t.
              ap
                (λ x. some (record s {
                  streamheader =
                      (if x && not s.previous_buffer_in_caps then [] else s.streamheader) ++ h ∷ [];
                  previous_buffer_in_caps = x;
                }))
                e)
            (λ g. cc))
    where
      expected : Option Sink
      expected = some (
          with_headers ((if not s.previous_buffer_in_caps then [] else s.streamheader) ++ h ∷ []) s)

  more_headers :
      (hs : List Buffer) (s : Sink)
      → s.is_open ≡ true
      → s.previous_buffer_in_caps ≡ true
      → All (λ (b : Buffer). b.header ≡ true) hs
      → render_all hs s ≡ some (with_headers (s.streamheader ++ hs) s)
  unfolding render_all
  more_headers [] s o p a =
      ap
        (λ x.
          some (record s { streamheader = x; previous_buffer_in_caps = s.previous_buffer_in_caps }))
        (sym (append-nil s.streamheader))
      ∙ ap
          (λ y.
            some (record s { streamheader = s.streamheader ++ []; previous_buffer_in_caps = y }))
          p
  more_headers (h ∷ hs) s o p a =
      ap (λ r. option_case r none (λ t. render_all hs t)) (one_more s h o a.0)
      ∙ more_headers hs
          (with_headers ((if not s.previous_buffer_in_caps then [] else s.streamheader) ++ h ∷ [])
            s)
          o refl a.1
      ∙ ap (λ b. some (with_headers (((if not b then [] else s.streamheader) ++ h ∷ []) ++ hs) s)) p
      ∙ ap (λ x. some (with_headers x s)) (append_assoc s.streamheader (h ∷ []) hs)

  -- A run of header buffers that follows a buffer of another kind replaces the stream headers of an
  -- open sink, in order, and changes nothing else: no header enters the queue.
  pub render_all-header :
      (h : Buffer) (hs : List Buffer) (s : Sink)
      → s.is_open ≡ true
      → s.previous_buffer_in_caps ≡ false
      → All (λ (b : Buffer). b.header ≡ true) (h ∷ hs)
      → render_all (h ∷ hs) s ≡ some (with_headers (h ∷ hs) s)
  unfolding render_all
  render_all-header h hs s o p a =
      ap (λ r. option_case r none (λ t. render_all hs t)) (one_more s h o a.0)
      ∙ more_headers hs
          (with_headers ((if not s.previous_buffer_in_caps then [] else s.streamheader) ++ h ∷ [])
            s)
          o refl a.1
      ∙ ap (λ b. some (with_headers (((if not b then [] else s.streamheader) ++ h ∷ []) ++ hs) s)) p
