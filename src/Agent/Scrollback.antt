-- ===== src/Agent/Scrollback.antt =====
-- data-plane/cmd/agent/main.go, `scrollback`: the append-only record of a session's output.
pub mod Bounded
pub mod Wakeups
use session_platform.Prelude.{
  ℕ, suc, ◌+◌, ◌-◌, Bool, true, false, not, ◌&&◌, ◌||◌, Option, none, some, List, [], ◌∷◌, ◌++◌,
  length, ltb, leb, ◌==◌, if◌then◌else◌,
}
use session_platform.Agent.Bytes.{Bytes, take, drop, byte_at, least, valid_utf8_prefix_at_most}

-- Channels are numbered in the order of their making: `made` counts them, `changed` is the one that
-- the next append closes, and `closed` holds those that an append has closed.
pub record Scrollback : Type 0 where
  pub buf : Bytes
  pub changed : Option ℕ
  pub made : ℕ
  pub closed : List ℕ

unfoldable pub notify : Scrollback → Scrollback
notify b = elim b.changed [
  | none ↦ b
  | some ch ↦ record b { changed = some b.made; made = suc b.made; closed = ch ∷ b.closed }
]

unfoldable pub append : Scrollback → Bytes → Scrollback
append b p = if length p == 0 then b else notify (record b { buf = b.buf ++ p })

-- `dataLimit := limit - len(marker)`, cut off at 0.
abbrev pub data_limit : ℕ → Bytes → ℕ
data_limit limit marker = limit - length marker

unfoldable pub claude_full_at : Scrollback → ℕ → Bytes → Bool
claude_full_at b limit marker = ltb (data_limit limit marker) (length b.buf)

-- What fits of `p` before the marker.
unfoldable pub fitting : Bytes → Bytes → ℕ → Bytes
fitting buf p room =
    if ltb 0 room then buf ++ take (valid_utf8_prefix_at_most p (least room (length p))) p else buf

unfoldable pub append_claude_bounded_at : Scrollback → Bytes → ℕ → Bytes → Bool × Scrollback
append_claude_bounded_at b p limit marker =
    if claude_full_at b limit marker || (length p == 0)
    then (false, b)
    else if leb (length b.buf + length p) (data_limit limit marker)
    then (false, notify (record b { buf = b.buf ++ p }))
    else (
      true,
      notify
          (record b { buf = fitting b.buf p (data_limit limit marker - length b.buf) ++ marker }),
    )

unfoldable pub ends_with_newline : Scrollback → Bool
ends_with_newline b = (length b.buf == 0) || (byte_at b.buf (length b.buf - 1) == 10)

-- The callers refuse a negative offset.
unfoldable pub since : Scrollback → ℕ → Bytes × ℕ
since b offset =
    if leb (length b.buf) offset then ([], length b.buf) else (drop offset b.buf, length b.buf)

unfoldable pub snapshot : Scrollback → Bytes
snapshot b = b.buf

unfoldable pub restore : Scrollback → Bytes → Scrollback
restore b p = notify (record b { buf = p })

pub record Chunk : Type 0 where
  pub payload : Bytes
  pub start : ℕ
  pub next : ℕ
  pub reset : Bool
  pub changed : ℕ

-- The channel that a reader waits on is made on the first read.
unfoldable pub watched : Scrollback → ℕ × Scrollback
watched b = elim b.changed [
  | none ↦ (b.made, record b { changed = some b.made; made = suc b.made })
  | some ch ↦ (ch, b)
]

-- `end - start`, backed off to the start of a rune where the chunk has one.
unfoldable pub chunk_size : Bytes → ℕ → ℕ
chunk_size rest limit =
    let safe = valid_utf8_prefix_at_most rest limit in
    if ltb 0 limit && ltb limit (length rest)
    then (if ltb 0 safe then safe else limit)
    else length rest

unfoldable pub chunk_at : Bytes → ℕ → ℕ → ℕ → Chunk
chunk_at buf offset limit ch =
    if ltb (length buf) offset
    then record { payload = []; start = length buf; next = length buf; reset = true; changed = ch }
    else if offset == length buf
    then record { payload = []; start = offset; next = offset; reset = false; changed = ch }
    else let size = chunk_size (drop offset buf) limit in
      record {
        payload = take size (drop offset buf);
        start = offset;
        next = offset + size;
        reset = false;
        changed = ch;
      }

unfoldable pub stream_chunk : Scrollback → ℕ → ℕ → Chunk × Scrollback
stream_chunk b offset limit = let (ch, b') = watched b in (chunk_at b'.buf offset limit ch, b')
