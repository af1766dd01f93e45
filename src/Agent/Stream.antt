-- ===== src/Agent/Stream.antt =====
-- data-plane/cmd/agent/output_stream.go: the server side of an output stream. What is sent is a
-- list of events; a failed write or an ended request cuts that list short.
pub mod Delivery
use session_platform.Prelude.{
  ℕ, zero, suc, ◌+◌, ◌*◌, Bool, true, false, not, List, [], ◌∷◌, length, ltb, ◌==◌, if◌then◌else◌,
}
use session_platform.Agent.Bytes.{Bytes}
use session_platform.Agent.Scrollback.{Scrollback, Chunk, stream_chunk}

pub data StreamEvent : Type 0 where
  output : (offset : ℕ) (payload : Bytes) (next_offset : ℕ) → StreamEvent
  reset : (next_offset : ℕ) → StreamEvent

abbrev pub output_stream_chunk_bytes : ℕ
output_stream_chunk_bytes = 65_536

abbrev pub Sent : Type 0
Sent = List StreamEvent × ℕ × Scrollback

-- One round of the loop: what it sends before it goes on to `rest`, or the wait for an append.
unfoldable pub send : Chunk → ℕ → Scrollback → Sent → Sent
send chunk offset b (sent, end, b') =
    if chunk.reset
    then (reset chunk.next ∷ sent, end, b')
    else if not (length chunk.payload == 0)
    then (output chunk.start chunk.payload chunk.next ∷ sent, end, b')
    else ([], offset, b)

-- The rounds up to the next wait, on a record that does not change.
unfoldable pub serve_from : ℕ → ℕ → Scrollback → ℕ → Sent
serve_from zero limit b offset = ([], offset, b)
serve_from (suc fuel) limit b offset =
    let (chunk, b') = stream_chunk b offset limit in
    send chunk offset b' (serve_from fuel limit b' chunk.next)

unfoldable pub serve_output_stream : Scrollback → ℕ → Sent
serve_output_stream b offset =
    serve_from (suc (suc (length b.buf))) output_stream_chunk_bytes b offset
