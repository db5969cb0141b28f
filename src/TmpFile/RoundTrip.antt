-- ===== src/TmpFile/RoundTrip.antt =====
-- What fddepay gets of what fdpay sends.
use pulsevideo.Base.{
  ℕ, ◌+◌, ◌-◌, ◌≤◌, ◌<◌, ◌≡◌, refl, ap, ◌∙◌, true, false, not, ◌&&◌, if◌then◌else◌, if_cases,
  option_case, ◌==◌, ltb, Option, none, some, [], ◌∷◌, add_u64, two_63, two_64, ◌%◌, arith,
}
use pulsevideo.MultiHandle.Types.{clock_time_none}
use pulsevideo.TmpFile.{
  FdMessage, FdMemory, Timing, Packet, pushed, encode, decode, capture_timestamp_of, pay,
  received_pts, memory_resize, depay_fd, depay_fds, depay,
}
use pulsevideo.TmpFile.Wire.{decode-encode, length-encode}

-- Depaying a message of three 64 bit words from its bytes.
depay-encode :
    (t : Timing) (st_size : ℕ → Option ℕ) (m : FdMessage) (fd file_size pts : ℕ)
    → m.capture_timestamp < two_64
    → m.offset < two_64
    → m.size < two_64
    → m.offset < two_63
    → st_size fd ≡ some file_size
    → add_u64 m.offset m.size ≤ file_size
    → depay t st_size (record { bytes = encode m; fds = some (fd ∷ []); pts = pts })
      ≡ some (
        record { fd = fd; maxsize = add_u64 m.offset m.size; offset = m.offset; size = m.size },
        received_pts t m.capture_timestamp pts,
      )
unfolding depay depay_fds depay_fd memory_resize
depay-encode t st_size m fd file_size pts a b c g e h =
    ap (λ n. if not (n == 24) then none else depay_fds t st_size (decode (encode m)) (fd ∷ []) pts)
      (length-encode m)
    ∙ ap (λ d. depay_fds t st_size d (fd ∷ []) pts) (decode-encode m a b c)
    ∙ ap (λ o. option_case o none (λ n. if ltb n (add_u64 m.offset m.size) then none else resized))
        e
    ∙ if_cases (λ r. r ≡ result) (ltb file_size (add_u64 m.offset m.size))
        (λ u. absurd (ground (arith, h, u)))
        (λ u.
          ap (λ b. some (if b then resized_to else whole, received_pts t m.capture_timestamp pts))
            positive)
  where
    positive : ltb m.offset two_63 ≡ true
    positive = ground arith

    whole : FdMemory
    whole = record {
      fd = fd;
      maxsize = add_u64 m.offset m.size;
      offset = 0;
      size = add_u64 m.offset m.size;
    }

    resized_to : FdMemory
    resized_to = record {
      fd = fd;
      maxsize = add_u64 m.offset m.size;
      offset = m.offset;
      size = m.size;
    }

    resized : Option (FdMemory × ℕ)
    resized = some (memory_resize m.offset m.size whole, received_pts t m.capture_timestamp pts)

    result : Option (FdMemory × ℕ)
    result = some (
      record { fd = fd; maxsize = add_u64 m.offset m.size; offset = m.offset; size = m.size },
      received_pts t m.capture_timestamp pts,
    )

add_u64_small : (a b : ℕ) → a + b < two_64 → add_u64 a b ≡ a + b
unfolding add_u64
add_u64_small a b h = omega arith

-- The running time that is left of the clock time.
since : (base run : ℕ) → (if ltb base (base + run) then base + run - base else 0) ≡ run
since base run = ground arith

-- How the clock and the segment of the two elements work together on a buffer with this PTS.
pub record Agrees (t : Timing) (pts : ℕ) : Type 0 where
  pub time : t.format_is_time ≡ true
  pub valid : (pts == clock_time_none) ≡ false
  pub inverse :
      t.adjust (t.unadjust (t.base_time + t.to_running_time pts))
      ≡ t.base_time + t.to_running_time pts
  pub position : t.to_position (t.to_running_time pts) ≡ pts
  pub small : t.base_time + t.to_running_time pts < two_64
  pub word : t.unadjust (t.base_time + t.to_running_time pts) < two_64

module _ (t : Timing) (pts : ℕ) (h : Agrees t pts) where
  captured : capture_timestamp_of t pts ≡ t.unadjust (t.base_time + t.to_running_time pts)
  unfolding capture_timestamp_of add_u64
  captured =
      ap (λ b. if b then t.unadjust ((t.base_time + t.to_running_time pts) % two_64) else 0) test
      ∙ ap t.unadjust (omega (arith, h.small))
    where
      test : (t.format_is_time && not (pts == clock_time_none)) ≡ true
      test = cc (h.time, h.valid)

  -- A PTS comes back.
  received_pts-captured :
      received_pts t (t.unadjust (t.base_time + t.to_running_time pts)) pts ≡ pts
  unfolding received_pts
  received_pts-captured =
      ap
        (λ b.
          if b
          then t.to_position (running (t.adjust (t.unadjust (t.base_time + t.to_running_time pts))))
          else pts)
        h.time
      ∙ ap (λ x. t.to_position (running x)) h.inverse
      ∙ ap t.to_position (since t.base_time (t.to_running_time pts))
      ∙ h.position
    where
      running : ℕ → ℕ
      running x = if ltb t.base_time x then x - t.base_time else 0

  -- What fdpay pushes, fddepay turns into a memory on the same descriptor with the same offset and
  -- size, and the same PTS, where the clock and the segment agree on the PTS, the end of the memory
  -- is a 64 bit word, its offset a positive gssize, and the file has the bytes.
  pub depay-pay :
      (st_size : ℕ → Option ℕ) (m : FdMemory) (file_size : ℕ)
      → st_size m.fd ≡ some file_size
      → m.offset + m.size ≤ file_size
      → m.offset + m.size < two_64
      → m.offset < two_63
      → (p : Packet) × (pay t true true (some m) pts ≡ pushed p)
        × (depay t st_size p
            ≡ some (
              record { fd = m.fd; maxsize = m.offset + m.size; offset = m.offset; size = m.size },
              pts,
            ))
  unfolding pay
  depay-pay st_size m file_size e fits small positive =
      let message : FdMessage = record {
        capture_timestamp = capture_timestamp_of t pts;
        offset = m.offset;
        size = m.size;
      } in
      let region : ℕ → ℕ → Option (FdMemory × ℕ) = λ end stamp.
        some (record { fd = m.fd; maxsize = end; offset = m.offset; size = m.size }, stamp) in
      (
        record { bytes = encode message; fds = some (m.fd ∷ []); pts = pts },
        refl,
        depay-encode t st_size message m.fd file_size pts (rw captured h.word)
              (omega (arith, small)) (omega (arith, small)) positive e
              (rw (add_u64_small m.offset m.size small) fits)
            ∙ ap (λ x. region x (received_pts t (capture_timestamp_of t pts) pts))
                (add_u64_small m.offset m.size small)
            ∙ ap (region (m.offset + m.size))
                (ap (λ x. received_pts t x pts) captured ∙ received_pts-captured),
      )

-- fddepay takes a message of 64 bit words, with an offset below 2 ^ 63, for a file that ends before
-- its memory begins, where the end of that memory is at least 2 ^ 64, and modulo 2 ^ 64 not beyond
-- the end of the file; the memory that it makes has the offset and the size of the message.
pub depay-overflow :
    (t : Timing) (st_size : ℕ → Option ℕ) (m : FdMessage) (fd file_size pts : ℕ)
    → m.capture_timestamp < two_64
    → m.offset < two_64
    → m.size < two_64
    → m.offset < two_63
    → st_size fd ≡ some file_size
    → file_size < m.offset
    → m.offset + m.size ≤ two_64 + file_size
    → two_64 ≤ m.offset + m.size
    → depay t st_size (record { bytes = encode m; fds = some (fd ∷ []); pts = pts })
      ≡ some (
        record { fd = fd; maxsize = m.offset + m.size - two_64; offset = m.offset; size = m.size },
        received_pts t m.capture_timestamp pts,
      )
unfolding add_u64
depay-overflow t st_size m fd file_size pts a b c g e below wraps over =
    let end : add_u64 m.offset m.size ≡ m.offset + m.size - two_64 = omega (arith, b, c, over) in
    depay-encode t st_size m fd file_size pts a b c g e (omega (arith, end, wraps))
    ∙ ap
        (λ x. some (
          record { fd = fd; maxsize = x; offset = m.offset; size = m.size },
          received_pts t m.capture_timestamp pts,
        ))
        end
