-- ===== src/Agent/Redactor/Tests.antt =====
-- data-plane/cmd/agent/claude_stream.go: runs of the redactor and of the output sink.
use mathlib.Core.List.{Memᴰ}
use session_platform.Prelude.{
  ◌+◌, ◌≤◌, ◌≡◌, refl, sym, ap, ◌∙◌, none, List, [], ◌∷◌, arith, length, codes, text_eq,
  if◌then◌else◌,
}
use session_platform.Agent.Bytes.{Bytes}
use session_platform.Agent.Scrollback.{Scrollback}
use session_platform.Agent.Workload.{claude_output_limit_marker}
use session_platform.Agent.Redactor.{
  is_prefix, index, is_better, consider, best_match, longest_kept, kept, settle_tail, drain_from,
  drain, keep_nonempty, new_streaming_redactor, push, finish,
}
use session_platform.Agent.Redactor.Scan.{Apart, replace_all}
use session_platform.Agent.Redactor.Exact.{concat, redacted, redacted-replaced}
use session_platform.Agent.Sink.{new_claude_output_sink, write_all}
use session_platform.Agent.Sink.Quota.{write_all-within}

abbrev token : Bytes
token = codes "tok"

abbrev pieces : List Bytes
pieces = codes "a to" ∷ codes "k to" ∷ codes "y" ∷ []

token_is_replaced : redacted (new_streaming_redactor (token ∷ [])) pieces ≡ codes "a [REDACTED] toy"
unfolding new_streaming_redactor keep_nonempty push finish drain drain_from best_match consider
    index is_prefix is_better settle_tail kept longest_kept text_eq
token_is_replaced = refl

only-token : (l : Bytes) → Memᴰ l (token ∷ []) → l ≡ token
only-token l (Memᴰ.head e) = e
only-token l (Memᴰ.tail member) = elim member [ ]

token-Apart : Apart (keep_nonempty (token ∷ []))
unfolding keep_nonempty
token-Apart = record {
  nonempty = λ l m. omega (arith, ap length (only-token l m));
  apart = λ l l' i m m' e. only-token l m ∙ sym (only-token l' m');
}

redacted-replaced_example :
    redacted (new_streaming_redactor (token ∷ [])) pieces
    ≡ replace_all (keep_nonempty (token ∷ [])) (concat pieces)
redacted-replaced_example = redacted-replaced (token ∷ []) pieces token-Apart

-- With a literal that starts another one, the cut decides how much of the longer one is replaced.
cut_before_longer :
    redacted
      (new_streaming_redactor (codes "tok" ∷ codes "token" ∷ []))
      (codes "tok" ∷ codes "en" ∷ [])
    ≡ codes "[REDACTED]en"
unfolding new_streaming_redactor keep_nonempty push finish drain drain_from best_match consider
    index is_prefix is_better settle_tail kept longest_kept text_eq
cut_before_longer = refl

uncut_longer :
    redacted (new_streaming_redactor (codes "tok" ∷ codes "token" ∷ [])) (codes "token" ∷ [])
    ≡ codes "[REDACTED]"
unfolding new_streaming_redactor keep_nonempty push finish drain drain_from best_match consider
    index is_prefix is_better settle_tail kept longest_kept text_eq
uncut_longer = refl

abbrev empty_record : Scrollback
empty_record = record { buf = []; changed = none; made = 0; closed = [] }

write_all-within_example :
    let s = write_all pieces (new_claude_output_sink empty_record (token ∷ []) 70 1_000) in
    length s.out.buf ≤ 0 + 70 + (if s.session_full then length claude_output_limit_marker else 0)
write_all-within_example = write_all-within empty_record (token ∷ []) 70 1_000 pieces (omega arith)
