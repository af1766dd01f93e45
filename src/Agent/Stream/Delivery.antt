-- ===== src/Agent/Stream/Delivery.antt =====
-- What the stream of data-plane/cmd/agent/output_stream.go delivers, against the record itself.
use native.Mathlib.Decide.{ℕ_discrete, dec_lt}
use session_platform.Prelude.{
  ℕ, zero, suc, ◌+◌, ◌-◌, ◌≤◌, ◌<◌, ◌≡◌, refl, subst, sym, ◌∙◌, ap, true, false, List, [], ◌∷◌,
  ◌++◌, arith, length,
}
use session_platform.Agent.Bytes.{
  Bytes, take, drop, take-append-drop, length-take, length-drop, drop-drop, drop_all,
  valid_utf8_prefix_at_most-le,
}
use session_platform.Agent.Scrollback.{Scrollback, watched, chunk_size, chunk_at, stream_chunk}
use session_platform.Agent.Stream.{
  Sent, StreamEvent, output, reset, serve_from, serve_output_stream, output_stream_chunk_bytes,
  send,
}

-- The bytes that a client holds after the events, if it held none and a reset discards them.
abbrev pub received : List StreamEvent → Bytes
received [] = []
received (output offset payload next ∷ sent) = payload ++ received sent
received (reset next ∷ sent) = received sent

-- Each event starts at the cursor that the one before it gave out, is not empty and is within the
-- size of a chunk; the last one leads to `end`.
abbrev pub Contiguous : ℕ → ℕ → List StreamEvent → ℕ → Type 0
Contiguous limit offset [] end = offset ≡ end
Contiguous limit offset (output start payload next ∷ sent) end =
    (start ≡ offset)
    × (next ≡ offset + length payload)
    × (0 < length payload)
    × (length payload ≤ limit)
    × Contiguous limit next sent end
Contiguous limit offset (reset next ∷ sent) end = ⊥

chunk_size-within :
    (rest : Bytes) (limit : ℕ)
    → 0 < limit
    → 0 < length rest
    → (0 < chunk_size rest limit)
      × (chunk_size rest limit ≤ limit)
      × (chunk_size rest limit ≤ length rest)
unfolding chunk_size
chunk_size-within rest limit hl hr = ground (arith, valid_utf8_prefix_at_most-le rest limit)

buf-watched : (b : Scrollback) → (watched b).1.buf ≡ b.buf
unfolding watched
buf-watched b = ground arith

chunk_at-inside :
    (buf : Bytes) (offset limit ch : ℕ)
    → offset < length buf
    → chunk_at buf offset limit ch ≡ (
        let size = chunk_size (drop offset buf) limit in
        record {
          payload = take size (drop offset buf);
          start = offset;
          next = offset + size;
          reset = false;
          changed = ch;
        })
unfolding chunk_at
chunk_at-inside buf offset limit ch h = ground arith

chunk_at-past :
    (buf : Bytes) (offset limit ch : ℕ)
    → length buf < offset
    → chunk_at buf offset limit ch
      ≡ record { payload = []; start = length buf; next = length buf; reset = true; changed = ch }
unfolding chunk_at
chunk_at-past buf offset limit ch h = ground arith

module _ (limit : ℕ) (hl : 0 < limit) where
  abbrev Delivered : Bytes → ℕ → List StreamEvent × ℕ × Scrollback → Type 0
  Delivered buf offset (sent, end, b') =
      (received sent ≡ drop offset buf)
      × Contiguous limit offset sent (length buf)
      × (end ≡ length buf)
      × (b'.buf ≡ buf)

  step-at_end :
      (fuel : ℕ) (b : Scrollback) (offset : ℕ)
      → offset ≡ length b.buf
      → serve_from (suc fuel) limit b offset ≡ ([], offset, (watched b).1)
  unfolding serve_from stream_chunk chunk_at send
  step-at_end fuel b offset h = ground (arith, ap length (buf-watched b))

  step-output :
      (fuel : ℕ) (b : Scrollback) (offset size : ℕ)
      → offset < length b.buf
      → size ≡ chunk_size (drop offset b.buf) limit
      → 0 < size
      → size ≤ length b.buf - offset
      → let (sent, end, b') = serve_from fuel limit (watched b).1 (offset + size) in
        serve_from (suc fuel) limit b offset
        ≡ (output offset (take size (drop offset b.buf)) (offset + size) ∷ sent, end, b')
  unfolding serve_from stream_chunk send
  step-output fuel b offset size h e h0 hs =
      rw (buf-watched, chunk_at-inside b.buf offset limit (watched b).0 h, ← e)
        (ground (arith, length-take size (drop offset b.buf), length-drop offset b.buf))

  step-reset :
      (fuel : ℕ) (b : Scrollback) (offset : ℕ)
      → length b.buf < offset
      → let (sent, end, b') = serve_from fuel limit (watched b).1 (length b.buf) in
        serve_from (suc fuel) limit b offset ≡ (reset (length b.buf) ∷ sent, end, b')
  unfolding serve_from stream_chunk send
  step-reset fuel b offset h =
      rw (buf-watched, chunk_at-past b.buf offset limit (watched b).0 h) refl

  Delivered-output :
      (buf : Bytes) (offset size : ℕ) (rest : Sent)
      → 0 < size
      → size ≤ limit
      → size ≤ length (drop offset buf)
      → Delivered buf (offset + size) rest
      → Delivered buf offset
          (output offset (take size (drop offset buf)) (offset + size) ∷ rest.0, rest.1, rest.2)
  Delivered-output buf offset size rest h0 hl hs (bytes, cursors, end, same) = (
    ap (◌++◌ (take size (drop offset buf))) (bytes ∙ sym (drop-drop size offset buf))
        ∙ take-append-drop size (drop offset buf),
    (refl, omega (arith, taken), omega (arith, taken), omega (arith, taken), cursors),
    end,
    same,
  )
    where
      taken : length (take size (drop offset buf)) ≡ size
      taken = length-take size (drop offset buf) hs

  abbrev DeliversWith : ℕ → Type 0
  DeliversWith fuel =
      (b : Scrollback) (offset : ℕ)
      → offset ≤ length b.buf
      → length b.buf < offset + fuel
      → Delivered b.buf offset (serve_from fuel limit b offset)

  more_to_send :
      (fuel : ℕ) (b : Scrollback) (offset : ℕ)
      → DeliversWith fuel
      → offset < length b.buf
      → length b.buf < offset + suc fuel
      → Delivered b.buf offset (serve_from (suc fuel) limit b offset)
  more_to_send fuel b offset rest inside hf =
      let (h0, hs, fits) =
        chunk_size-within (drop offset b.buf) limit hl (omega (arith, length-drop offset b.buf)) in
      subst (Delivered b.buf offset)
        (sym (step-output fuel b offset size inside refl h0 (omega (arith, fits, left))))
        (Delivered-output b.buf offset size (serve_from fuel limit (watched b).1 (offset + size)) h0
          hs fits
          (subst
            (λ buf.
              Delivered buf (offset + size) (serve_from fuel limit (watched b).1 (offset + size)))
            (buf-watched b)
            (rest (watched b).1 (offset + size) (omega (arith, fits, left, same))
              (omega (arith, h0, same)))))
    where
      size : ℕ
      size = chunk_size (drop offset b.buf) limit

      same : length (watched b).1.buf ≡ length b.buf
      same = ap length (buf-watched b)

      left : length (drop offset b.buf) ≡ length b.buf - offset
      left = length-drop offset b.buf

  serve_from-Delivered : (fuel : ℕ) → DeliversWith fuel
  serve_from-Delivered zero b offset h hf = absurd (omega arith)
  serve_from-Delivered (suc fuel) b offset h hf =
      elim (ℕ_discrete offset (length b.buf))
        as (λ _. Delivered b.buf offset (serve_from (suc fuel) limit b offset)) [
          | yes e ↦
              subst (Delivered b.buf offset) (sym (step-at_end fuel b offset e))
                (sym (drop_all offset b.buf (omega arith)), e, e, buf-watched b)
          | no more ↦ more_to_send fuel b offset (serve_from-Delivered fuel) (omega arith) hf
        ]

  two_rounds :
      (fuel : ℕ) (b : Scrollback) (offset : ℕ)
      → length b.buf < offset
      → serve_from (suc (suc fuel)) limit b offset
        ≡ (reset (length b.buf) ∷ [], length b.buf, (watched (watched b).1).1)
  two_rounds fuel b offset past =
      step-reset (suc fuel) b offset past
      ∙ ap (λ r. (reset (length b.buf) ∷ r.0, r.1, r.2))
          (step-at_end fuel (watched b).1 (length b.buf) (sym (ap length (buf-watched b))))

-- From a cursor within the record, the stream sends all that the record holds from there on, in
-- non-empty chunks of at most 64 KiB that each start where the one before ended, and waits at its
-- end. From a cursor past the record it resets the client to the end once. The record is unchanged.
pub serve_output_stream-Delivered :
    (b : Scrollback) (offset : ℕ)
    → let (sent, end, b') = serve_output_stream b offset in
      (end ≡ length b.buf)
      × (b'.buf ≡ b.buf)
      × (offset ≤ length b.buf
          → (received sent ≡ drop offset b.buf)
            × Contiguous output_stream_chunk_bytes offset sent (length b.buf))
      × (length b.buf < offset → sent ≡ reset (length b.buf) ∷ [])
unfolding serve_output_stream
serve_output_stream-Delivered b offset = elim (dec_lt (length b.buf) offset) as (λ _. Promised) [
  | yes past ↦
      subst Kept
        (sym (two_rounds output_stream_chunk_bytes (omega arith) (length b.buf) b offset past))
        (refl, buf-watched (watched b).1 ∙ buf-watched b, (λ h. absurd (omega arith)), λ h. refl)
  | no within ↦
      let (bytes, cursors, end, same) =
        serve_from-Delivered output_stream_chunk_bytes (omega arith) (suc (suc (length b.buf))) b
          offset (omega arith) (omega arith) in
      (end, same, (λ h. (bytes, cursors)), λ h. absurd (omega arith))
]
  where
    Kept : Sent → Type 0
    Kept (sent, end, b') =
        (end ≡ length b.buf)
        × (b'.buf ≡ b.buf)
        × (offset ≤ length b.buf
            → (received sent ≡ drop offset b.buf)
              × Contiguous output_stream_chunk_bytes offset sent (length b.buf))
        × (length b.buf < offset → sent ≡ reset (length b.buf) ∷ [])

    Promised : Type 0
    Promised = Kept (serve_from (suc (suc (length b.buf))) output_stream_chunk_bytes b offset)
