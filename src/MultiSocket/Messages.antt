-- ===== src/MultiSocket/Messages.antt =====
-- gst_multi_socket_sink_write: the bytes and the control messages that each call of
-- g_socket_send_message gets, for one buffer.
use pulsevideo.Base.{
  Bool, ℕ, zero, suc, ◌+◌, ◌-◌, ◌<◌, ◌≤◌, ◌≡◌, refl, sym, ap, ◌∙◌, Bool-cases, inl, inr, ltb,
  ltb→lt, if◌then◌else◌, min, List, [], ◌∷◌, ◌++◌, append-nil, All, length, take, drop, concat, map,
  drop-drop, take-append-drop, take_all, length-drop, arith,
}
use pulsevideo.MultiSocket.{map_n_memory_output_vector}
use pulsevideo.MultiSocket.Vectors.{map_n_memory_output_vector-drop}

-- What hangs on a buffer: a GstNetControlMessageMeta with its message, or a meta of another API.
pub data Meta : Type 0 where
  control_message : ℕ → Meta
  other_meta : Meta

-- gst_buffer_get_cmsg_list: the messages of the metas, as many as there is space for.
pub get_cmsg_list : List Meta → ℕ → List ℕ
get_cmsg_list [] msg_space = []
get_cmsg_list (meta ∷ metas) zero = []
get_cmsg_list (control_message m ∷ metas) (suc msg_space) = m ∷ get_cmsg_list metas msg_space
get_cmsg_list (other_meta ∷ metas) (suc msg_space) = get_cmsg_list metas (suc msg_space)

abbrev pub cmsg_max : ℕ
cmsg_max = 255

-- What one call of g_socket_send_message gets.
pub record Call : Type 0 where
  pub vec : List (List ℕ)
  pub cmsgs : List ℕ

-- A buffer: its memories and its metas.
pub record Parcel : Type 0 where
  pub memories : List (List ℕ)
  pub metas : List Meta

-- gst_multi_socket_sink_write
pub write : Parcel → ℕ → Call
write buffer bufoffset = record {
  vec = map_n_memory_output_vector 8 bufoffset buffer.memories;
  cmsgs = get_cmsg_list buffer.metas cmsg_max;
}

-- The bytes and the messages that one call has handed over.
pub record Delivery : Type 0 where
  pub bytes : List ℕ
  pub messages : List ℕ

-- The rounds of handle_client_write that send the buffer at the head, where the socket is willing to
-- take so many bytes each time.
pub send_head : Parcel → ℕ → List ℕ → List Delivery
send_head head bufoffset [] = []
send_head head bufoffset (n ∷ ns) =
    let call = write head bufoffset in
    let wrote = min n (length (concat call.vec)) in
    let again = send_head head (bufoffset + wrote) ns in
    record { bytes = take wrote (concat call.vec); messages = call.cmsgs }
    ∷ (if ltb wrote (length (concat head.memories) - bufoffset) then again else [])

take-append_front :
    {A : Type 0} (n : ℕ) (xs ys : List A) → n ≤ length xs → take n (xs ++ ys) ≡ take n xs
take-append_front zero xs ys h = refl
take-append_front (suc n) [] ys h = absurd (omega arith)
take-append_front (suc n) (x ∷ xs) ys h = ap (◌∷◌ x) (take-append_front n xs ys (omega arith))

-- What a run of calls hands over: the bytes from an offset on, with all the messages each time.
pub IsDelivered : Parcel → ℕ → List Delivery → Type 0
IsDelivered head bufoffset ds =
    (concat (map (λ (d : Delivery). d.bytes) ds) ≡ drop bufoffset (concat head.memories))
    × All (λ (d : Delivery). d.messages ≡ get_cmsg_list head.metas cmsg_max) ds
    × (length ds ≤ length (concat head.memories) - bufoffset)

module _ (head : Parcel) where
  abbrev contents : List ℕ
  contents = concat head.memories

  -- One call takes a byte at least, and the bytes from the offset on.
  taken :
      (bufoffset n : ℕ)
      → bufoffset < length contents
      → 0 < n
      → (take
            (min n (length (concat (write head bufoffset).vec)))
            (concat (write head bufoffset).vec)
          ≡ take (min n (length (concat (write head bufoffset).vec))) (drop bufoffset contents))
        × (0 < min n (length (concat (write head bufoffset).vec)))
  unfolding write
  taken bufoffset n h p =
      let (left, e, some_byte) =
        map_n_memory_output_vector-drop 8 bufoffset head.memories (omega arith) h in
      let offered = concat (map_n_memory_output_vector 8 bufoffset head.memories) in
      let wrote = min n (length offered) in
      (
        sym (take-append_front wrote offered left (omega arith)) ∙ ap (take wrote) e,
        omega (arith, some_byte, p),
      )

  delivered :
      (bufoffset : ℕ) (ns : List ℕ)
      → bufoffset < length contents
      → All (λ n. 0 < n) ns
      → length contents - bufoffset ≤ length ns
      → IsDelivered head bufoffset (send_head head bufoffset ns)
  unfolding send_head IsDelivered write
  delivered bufoffset [] h a l = absurd (omega arith)
  delivered bufoffset (n ∷ ns) h a l =
      let w = min n (length (concat (write head bufoffset).vec)) in
      let (front, some_byte) = taken bufoffset n h a.0 in
      let left = drop bufoffset contents in
      elim (Bool-cases (ltb w (length contents - bufoffset))) [
        | inl t ↦
            let less = ltb→lt w (length contents - bufoffset) t in
            let (bytes, messages, count) =
              delivered (bufoffset + w) ns (omega (arith, less)) a.1
                (omega (arith, l, some_byte)) in
            rw t (
              ap
                    (λ x.
                      x
                      ++ concat
                          (map (λ (d : Delivery). d.bytes) (send_head head (bufoffset + w) ns)))
                    front
                  ∙ ap (λ x. take w left ++ x) (bytes ∙ sym (drop-drop bufoffset w contents))
                  ∙ take-append-drop w left,
              (refl, messages),
              omega (arith, count, some_byte, less),
            )
        | inr f ↦ rw f (
          append-nil _
              ∙ front
              ∙ take_all w left (let e = length-drop bufoffset contents in ground (arith, e)),
          (refl, tt),
          omega (arith, h),
        )
      ]

  send_head_some :
      (bufoffset : ℕ) (ns : List ℕ) → 0 < length ns → 0 < length (send_head head bufoffset ns)
  unfolding send_head
  send_head_some bufoffset [] h = absurd (omega arith)
  send_head_some bufoffset (n ∷ ns) h = omega arith

  -- Whether the first call leaves bytes.
  abbrev pub is_partial : ℕ → ℕ → Bool
  is_partial bufoffset n =
      ltb (min n (length (concat (write head bufoffset).vec))) (length contents - bufoffset)

  repeats :
      (bufoffset n : ℕ) (ns : List ℕ)
      → bufoffset < length contents
      → All (λ m. 0 < m) (n ∷ ns)
      → length contents - bufoffset ≤ length (n ∷ ns)
      → ltb 1 (length (send_head head bufoffset (n ∷ ns))) ≡ is_partial bufoffset n
  unfolding send_head write
  repeats bufoffset n ns h a l =
      let w = min n (length (concat (write head bufoffset).vec)) in
      let some_byte = (taken bufoffset n h a.0).1 in
      elim (Bool-cases (is_partial bufoffset n)) [
        | inl t ↦
            let less = ltb→lt w (length contents - bufoffset) t in
            let again = send_head_some (bufoffset + w) ns (omega (arith, l, less, some_byte)) in
            rw t (ground (arith, again))
        | inr f ↦ rw f refl
      ]

  -- For a buffer with a byte from the offset on, and a socket that is willing to take at least one
  -- byte each time, and is asked often enough: the calls, of which there are at most as many as
  -- bytes, hand over the bytes from the offset on, in order, and each of them hands over all the
  -- control messages of the buffer, up to 255; there is more than one call exactly where the first
  -- one leaves bytes.
  pub send_head-IsDelivered :
      (bufoffset n : ℕ) (ns : List ℕ)
      → bufoffset < length contents
      → All (λ m. 0 < m) (n ∷ ns)
      → length contents - bufoffset ≤ length (n ∷ ns)
      → IsDelivered head bufoffset (send_head head bufoffset (n ∷ ns))
        × (ltb 1 (length (send_head head bufoffset (n ∷ ns))) ≡ is_partial bufoffset n)
  send_head-IsDelivered bufoffset n ns h a l =
      (delivered bufoffset (n ∷ ns) h a l, repeats bufoffset n ns h a l)
