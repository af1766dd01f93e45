-- ===== src/Agent/Tests.antt =====
-- data-plane/cmd/agent: runs of the agent's parts on concrete inputs.
use session_platform.Prelude.{
  ℕ, ◌≤◌, ◌<◌, ◌≡◌, ◌↔◌, inl, refl, true, false, none, List, [], ◌∷◌, ◌++◌, arith, length, Text,
  codes,
}
use session_platform.Agent.Bytes.{Bytes, back_off, valid_utf8_prefix_at_most}
use session_platform.Agent.Scrollback as Scrollback
use session_platform.Agent.Scrollback.{
  Scrollback, Chunk, notify, append, claude_full_at, fitting, append_claude_bounded_at, watched,
  chunk_size, chunk_at, stream_chunk,
}
use session_platform.Agent.Scrollback.Bounded.{Extends, Cuttable, append_claude_bounded_at-Bounded}
use session_platform.Agent.Scrollback.Wakeups.{Woken, stream_chunk-Woken}
use session_platform.Agent.Stream.{
  reset, send, serve_from, serve_output_stream, output_stream_chunk_bytes,
}
use session_platform.Agent.Stream.Delivery.{received, Contiguous, serve_output_stream-Delivered}
use session_platform.Agent.Workload.Admission.{enqueue, queue_is_full}
use session_platform.Agent.Workload.Turns.{worker_waits, take_job, finish_turn}
use session_platform.Agent.Workload.Logins.{classify_input}
use session_platform.Agent.Workload.Checkpoints.{close_admission, is_drained, finish_drain}
use session_platform.Agent.Machine.{
  Machine, Event, write, output, turn_starts, turn_ends, checkpoint_starts, drain_ends, closes,
  step, run, turn_begins, checkpoint_begins, drain_returns, fresh_machine,
}
use session_platform.Agent.Machine.Invariant.{Inv, run-Inv}
use session_platform.Agent.Machine.Barrier.{Settled, Frozen, run-Frozen}
use session_platform.Agent.Machine.Drain.{ran, nothing_to_run, Round}

-- Six bytes, the last three of which are one rune.
abbrev record_of_six : Scrollback
record_of_six = record {
  buf = 65 ∷ 66 ∷ 10 ∷ 226 ∷ 130 ∷ 172 ∷ [];
  changed = none;
  made = 0;
  closed = [];
}

abbrev marker : Bytes
marker = codes "full"

abbrev euro : Bytes
euro = 226 ∷ 130 ∷ 172 ∷ []

euro-Cuttable : Cuttable euro
euro-Cuttable n h = omega arith

-- One byte of room: the rune does not fit.
bounded_run :
    (append_claude_bounded_at record_of_six euro 11 marker).1.buf ≡ record_of_six.buf ++ marker
unfolding append_claude_bounded_at claude_full_at fitting valid_utf8_prefix_at_most back_off notify
bounded_run = refl

append_claude_bounded_at-Bounded_example :
    let (full, b') = append_claude_bounded_at record_of_six euro 11 marker in
    Extends record_of_six.buf b'.buf
    × (length b'.buf ≤ 11)
    × ((full ≡ true)
        ↔ ((claude_full_at record_of_six 11 marker ≡ false) × (claude_full_at b' 11 marker ≡ true)))
append_claude_bounded_at-Bounded_example =
    append_claude_bounded_at-Bounded record_of_six euro 11 marker (omega arith) euro-Cuttable
      (omega arith) (omega arith)

stream_chunk-Woken_example :
    let (chunk, b) = stream_chunk record_of_six 6 4 in
    Woken chunk.changed (append b euro)
    × ((limit : ℕ) (marker : Bytes)
        → claude_full_at b limit marker ≡ false
        → Woken chunk.changed (append_claude_bounded_at b euro limit marker).1)
    × Woken chunk.changed (Scrollback.restore b euro)
stream_chunk-Woken_example = stream_chunk-Woken record_of_six 6 4 euro (omega arith)

-- The cut backs off to the start of the rune.
chunk_run : (stream_chunk record_of_six 1 4).0.payload ≡ 66 ∷ 10 ∷ []
unfolding stream_chunk watched chunk_at chunk_size valid_utf8_prefix_at_most back_off
chunk_run = refl

serve_run : (serve_output_stream record_of_six 9).0 ≡ reset 6 ∷ []
unfolding serve_output_stream serve_from send stream_chunk watched chunk_at
serve_run = refl

serve_output_stream-Delivered_example :
    let (sent, end, b') = serve_output_stream record_of_six 3 in
    (end ≡ 6)
    × (b'.buf ≡ record_of_six.buf)
    × (3 ≤ 6
        → (received sent ≡ 226 ∷ 130 ∷ 172 ∷ []) × Contiguous output_stream_chunk_bytes 3 sent 6)
    × (6 < 3 → sent ≡ reset 6 ∷ [])
serve_output_stream-Delivered_example = serve_output_stream-Delivered record_of_six 3

-- A workload with room for its marker, and a checkpoint that waits for a write.
abbrev id : Text
id = codes "00112233445566778899aabbccddeeff"

abbrev waiting_events : List Event
waiting_events = write (codes "hello") ∷ checkpoint_starts id ∷ []

abbrev waiting : Machine
waiting = run waiting_events (fresh_machine false false 1_000)

abbrev settled_events : List Event
settled_events = waiting_events ++ turn_starts 5 ∷ turn_ends true ∷ drain_ends false ∷ []

run-Inv_example : Inv (run settled_events (fresh_machine false false 1_000))
run-Inv_example = run-Inv settled_events false false 1_000

barrier_holds : Settled (run settled_events (fresh_machine false false 1_000))
unfolding run step enqueue claude_full_at queue_is_full checkpoint_begins close_admission
    turn_begins worker_waits take_job classify_input finish_turn drain_returns is_drained
    finish_drain
barrier_holds = inl refl

run-Frozen_example :
    let m = run settled_events (fresh_machine false false 1_000) in Frozen closes m (step closes m)
run-Frozen_example = run-Frozen settled_events false false 1_000 closes barrier_holds

-- The prompt has nothing to run, and a client keeps on writing.
abbrev rounds : List Round
rounds =
    record { before = write marker ∷ output marker ∷ []; ending = ran false; now = 5 }
    ∷ record { before = []; ending = nothing_to_run; now = 6 }
    ∷ record { before = []; ending = ran true; now = 7 }
    ∷ []
