-- ===== src/Agent/Scrollback/Wakeups.antt =====
-- How appends to the `scrollback` of data-plane/cmd/agent/main.go wake the streams that wait.
use mathlib.Core.List.{Memᴰ}
use native.Mathlib.Decide.{dec_le}
use session_platform.Prelude.{
  ℕ, suc, subst, sym, ap, ◌∙◌, false, ◌+◌, ◌-◌, ◌<◌, ◌≡◌, refl, some, ◌∷◌, ◌++◌, arith, length,
}
use session_platform.Agent.Bytes.{Bytes}
use session_platform.Agent.Scrollback.{
  Scrollback, claude_full_at, notify, append, restore, data_limit, fitting, watched, chunk_at,
  stream_chunk, append_claude_bounded_at,
}

-- A reader that was given this channel is woken.
abbrev pub Woken : ℕ → Scrollback → Type 0
Woken ch b = Memᴰ ch b.closed

notify_eq :
    (b : Scrollback) (ch : ℕ)
    → b.changed ≡ some ch
    → notify b ≡ record b { changed = some b.made; made = suc b.made; closed = ch ∷ b.closed }
unfolding notify
notify_eq b ch e = ground arith

notify-Woken : (b : Scrollback) (ch : ℕ) → b.changed ≡ some ch → Woken ch (notify b)
notify-Woken b ch e = subst (λ c. Woken ch c) (sym (notify_eq b ch e)) (Memᴰ.head refl)

chunk_at-changed : (buf : Bytes) (offset limit ch : ℕ) → (chunk_at buf offset limit ch).changed ≡ ch
unfolding chunk_at
chunk_at-changed buf offset limit ch = ground arith

watched-changed : (b : Scrollback) → (watched b).1.changed ≡ some (watched b).0
unfolding watched
watched-changed b = ground arith

abbrev Notifies : Scrollback → Scrollback → Type 0
Notifies b b' = (buf : Bytes) × (b' ≡ notify (record b { buf = buf }))

append-Notifies : (b : Scrollback) (p : Bytes) → 0 < length p → Notifies b (append b p)
unfolding append
append-Notifies b p h = (b.buf ++ p, ground arith)

append_claude_bounded_at-Notifies :
    (b : Scrollback) (p : Bytes) (limit : ℕ) (marker : Bytes)
    → 0 < length p
    → claude_full_at b limit marker ≡ false
    → Notifies b (append_claude_bounded_at b p limit marker).1
unfolding append_claude_bounded_at
append_claude_bounded_at-Notifies b p limit marker h room =
    elim (dec_le (length b.buf + length p) (data_limit limit marker))
      as (λ _. Notifies b (append_claude_bounded_at b p limit marker).1) [
        | yes fits ↦ (b.buf ++ p, ground arith)
        | no over ↦
            (fitting b.buf p (data_limit limit marker - length b.buf) ++ marker, ground arith)
      ]

module _ (b : Scrollback) (offset limit : ℕ) (p : Bytes) where
  abbrev waiting : Scrollback
  waiting = (stream_chunk b offset limit).1

  abbrev awaited : ℕ
  awaited = (stream_chunk b offset limit).0.changed

  waits : waiting.changed ≡ some awaited
  unfolding stream_chunk
  waits =
      watched-changed b
      ∙ sym (ap some (chunk_at-changed (watched b).1.buf offset limit (watched b).0))

  -- No wakeup is lost: whatever a reader was given, it is woken by the next append that adds bytes,
  -- be it a shell's, an agent's within the limits of its session, or a restore.
  pub stream_chunk-Woken :
      0 < length p
      → Woken awaited (append waiting p)
        × ((limit : ℕ) (marker : Bytes)
            → claude_full_at waiting limit marker ≡ false
            → Woken awaited (append_claude_bounded_at waiting p limit marker).1)
        × Woken awaited (restore waiting p)
  unfolding restore
  stream_chunk-Woken h = (
    notified (append-Notifies waiting p h),
    λ limit marker room. notified (append_claude_bounded_at-Notifies waiting p limit marker h room),
    notify-Woken _ awaited waits,
  )
    where
      notified : {b' : Scrollback} → Notifies waiting b' → Woken awaited b'
      notified (buf, e) = subst (Woken awaited) (sym e) (notify-Woken _ awaited waits)
