-- ===== src/Agent/Scrollback/Bounded.antt =====
-- `scrollback.appendClaudeBoundedAt` of data-plane/cmd/agent/main.go against the session's limit.
use mathlib.Core.List.{append-nil, append_assoc}
use native.Mathlib.Decide.{ℕ_discrete, dec_lt, dec_le}
use session_platform.Prelude.{
  inl, inr, Bool-cases, ℕ, ◌+◌, ◌-◌, ◌≤◌, ◌<◌, ◌≡◌, ◌∙◌, ap, ◌↔◌, true, false, [], ◌++◌, arith,
  length, length-append, if◌then◌else◌, ltb, ◌||◌, ◌==◌, leb, not,
}
use session_platform.Agent.Bytes.{
  Bytes, back_off, back_off-le, take, length-take, least, valid_utf8_prefix_at_most,
  valid_utf8_prefix_at_most-le,
}
use session_platform.Agent.Scrollback.{
  Scrollback, notify, data_limit, claude_full_at, fitting, append_claude_bounded_at,
}

pub buf-notify : (b : Scrollback) → (notify b).buf ≡ b.buf
unfolding notify
buf-notify b = ground arith

-- What an append adds, as a list that follows the bytes that were there.
abbrev pub Extends : Bytes → Bytes → Type 0
Extends xs ys = (added : Bytes) × (ys ≡ xs ++ added)

-- Bytes in which a cut never has to back off by more than three, as in valid UTF-8.
abbrev pub Cuttable : Bytes → Type 0
Cuttable p = (n : ℕ) → n < length p → n < back_off p n + 4

-- What `fitting` puts behind `buf`.
abbrev fitted : Bytes → ℕ → Bytes
fitted p room =
    if ltb 0 room then take (valid_utf8_prefix_at_most p (least room (length p))) p else []

fitting-eq : (buf p : Bytes) (room : ℕ) → fitting buf p room ≡ buf ++ fitted p room
unfolding fitting
fitting-eq buf p room = ground (arith, append-nil buf)

length-fitted : (p : Bytes) (room : ℕ) → length (fitted p room) ≤ room
length-fitted p room = ground (
  arith,
  valid_utf8_prefix_at_most-le p (least room (length p)),
  length-take (valid_utf8_prefix_at_most p (least room (length p))) p,
)

length-fitted_le : (p : Bytes) (room : ℕ) → length (fitted p room) ≤ length p
length-fitted_le p room = ground (
  arith,
  valid_utf8_prefix_at_most-le p (least room (length p)),
  length-take (valid_utf8_prefix_at_most p (least room (length p))) p,
)

length-fitted_lower :
    (p : Bytes) (room : ℕ) → Cuttable p → room < length p → room < length (fitted p room) + 4
unfolding valid_utf8_prefix_at_most
length-fitted_lower p room cut h =
    ground (arith, cut room h, back_off-le p room, length-take (back_off p room) p)

module _ (b : Scrollback) (p : Bytes) (limit : ℕ) (marker : Bytes) where
  -- What a bounded append adds.
  abbrev added : Bytes
  added =
      if claude_full_at b limit marker || (length p == 0)
      then []
      else if leb (length b.buf + length p) (data_limit limit marker)
      then p
      else fitted p (data_limit limit marker - length b.buf) ++ marker

  after-added : (append_claude_bounded_at b p limit marker).1.buf ≡ b.buf ++ added
  unfolding append_claude_bounded_at
  after-added = ground (
    arith,
    append-nil b.buf,
    buf-notify (record b { buf = b.buf ++ p }),
    buf-notify
        (record b { buf = fitting b.buf p (data_limit limit marker - length b.buf) ++ marker }),
    fitting-eq b.buf p (data_limit limit marker - length b.buf),
    append_assoc b.buf (fitted p (data_limit limit marker - length b.buf)) marker,
  )

  length-added : length marker ≤ limit → length b.buf ≤ limit → length b.buf + length added ≤ limit
  unfolding claude_full_at
  length-added hm hb = ground (
    arith,
    length-fitted p (data_limit limit marker - length b.buf),
    length-append (fitted p (data_limit limit marker - length b.buf)) marker,
  )

  length-after :
      length (append_claude_bounded_at b p limit marker).1.buf ≡ length b.buf + length added
  length-after = ap length after-added ∙ length-append b.buf added

  added_over :
      (length b.buf ≤ data_limit limit marker)
        × (0 < length p)
        × (data_limit limit marker < length b.buf + length p)
      → added ≡ fitted p (data_limit limit marker - length b.buf) ++ marker
  unfolding claude_full_at
  added_over h = ground arith

  flag : (append_claude_bounded_at b p limit marker).0 ≡ (
      if claude_full_at b limit marker || (length p == 0)
      then false
      else not (leb (length b.buf + length p) (data_limit limit marker)))
  unfolding append_claude_bounded_at
  flag = ground arith

  length-added_le :
      (length added ≤ length p + length marker)
      × ((append_claude_bounded_at b p limit marker).0 ≡ false → length added ≤ length p)
  length-added_le = rw flag (elim (Bool-cases (claude_full_at b limit marker || (length p == 0))) [
    | inl e ↦ rw e (omega arith, λ _. omega arith)
    | inr e ↦ rw e (elim (Bool-cases (leb (length b.buf + length p) (data_limit limit marker))) [
      | inl f ↦ rw f (omega arith, λ _. omega arith)
      | inr f ↦ rw f (
        omega (
          arith,
          length-append (fitted p (data_limit limit marker - length b.buf)) marker,
          length-fitted_le p (data_limit limit marker - length b.buf),
        ),
        λ h. absurd (ground arith),
      )
    ])
  ])

  -- A bounded append adds at most the bytes that it is given, and the marker where it fills the record.
  pub append_claude_bounded_at-grows :
      let (full, b') = append_claude_bounded_at b p limit marker in
      (length b'.buf ≤ length b.buf + length p + length marker)
      × (full ≡ false → length b'.buf ≤ length b.buf + length p)
  append_claude_bounded_at-grows = (
    omega (arith, length-after, length-added_le),
    λ h. omega (arith, length-after, length-added_le.1 h),
  )

  reports :
      4 ≤ length marker
      → Cuttable p
      → ((append_claude_bounded_at b p limit marker).0 ≡ true) ↔ (
          (claude_full_at b limit marker ≡ false)
          × (claude_full_at (append_claude_bounded_at b p limit marker).1 limit marker ≡ true))
  unfolding claude_full_at
  reports h0 cut =
      rw (flag, length-after)
        (elim (dec_lt (data_limit limit marker) (length b.buf)) [
          | yes full ↦ ground arith
          | no room ↦ elim (ℕ_discrete (length p) 0) [
            | yes empty ↦ ground arith
            | no some_bytes ↦ elim (dec_le (length b.buf + length p) (data_limit limit marker)) [
              | yes fits ↦ ground arith
              | no over ↦ ground (
                arith,
                ap length (added_over (omega arith)),
                length-append (fitted p (data_limit limit marker - length b.buf)) marker,
                length-fitted_lower p (data_limit limit marker - length b.buf) cut (omega arith),
              )
            ]
          ]
        ])

  -- An append keeps the bytes that are there, and with them every cursor that was given out. It
  -- stays within a limit that has room for the marker. It reports the change to full: true exactly
  -- where the record was not full before and is full afterwards.
  pub append_claude_bounded_at-Bounded :
      4 ≤ length marker
      → Cuttable p
      → length marker ≤ limit
      → length b.buf ≤ limit
      → let (full, b') = append_claude_bounded_at b p limit marker in
        Extends b.buf b'.buf
        × (length b'.buf ≤ limit)
        × ((full ≡ true)
            ↔ ((claude_full_at b limit marker ≡ false) × (claude_full_at b' limit marker ≡ true)))
  append_claude_bounded_at-Bounded h0 cut hm hb =
      ((added, after-added), omega (arith, length-after, length-added hm hb), reports h0 cut)
