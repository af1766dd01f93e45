-- ===== src/Agent/Workload/Checkpoints.antt =====
-- data-plane/cmd/agent/claude.go: the checkpoint barrier.
use session_platform.Prelude.{
  ℕ, Bool, true, false, not, ◌&&◌, ◌||◌, Option, [], Text, text_eq, is_empty, length, all, ◌==◌,
  leb, if◌then◌else◌, Action, pure, raise, Result, ok, err,
}
use session_platform.Agent.Workload.{
  ClaudeError, awaiting_restore, admission_closed, stopping, checkpoint_busy, bad_checkpoint_id,
  context_done, PendingLogin, Workload,
}

-- `hex.DecodeString` and back: 32 lower-case hexadecimal digits.
abbrev pub is_hex : ℕ → Bool
is_hex c = (leb 48 c && leb c 57) || (leb 97 c && leb c 102)

-- `generated` is what the random generator gives where no identifier was asked for.
unfoldable pub claude_checkpoint_id : Result ClaudeError Text → Text → Result ClaudeError Text
claude_checkpoint_id generated requested =
    if is_empty requested
    then generated
    else if not (length requested == 32)
    then err bad_checkpoint_id
    else if all is_hex requested
    then ok requested
    else err bad_checkpoint_id

-- `beginCheckpoint` up to its wait.
unfoldable pub close_admission : Text → Action Workload ClaudeError Unit
close_admission checkpoint_id c =
    if c.stopping
    then raise stopping c
    else if not c.ready
    then raise awaiting_restore c
    else if not c.accepting || c.checkpointing
    then raise admission_closed c
    else pure tt (record c {
      accepting = false;
      checkpointing = true;
      checkpoint_ready = false;
      checkpoint_id = checkpoint_id;
    })

-- The condition under which it waits, but for the end of the request's context.
unfoldable pub is_drained : Workload → Bool
is_drained c = not (c.active || (c.refreshing || not (length c.queue == 0)))

unfoldable pub reopen_checkpoint : Workload → Workload
reopen_checkpoint c = record c {
  checkpointing = false;
  checkpoint_ready = false;
  checkpoint_id = [];
  accepting = if c.ready && not c.stopping then true else c.accepting;
}

-- `beginCheckpoint` after its wait; `expired` is whether the request's context has ended.
unfoldable pub finish_drain :
    (expired : Bool) → Action Workload ClaudeError (Bool × Option PendingLogin)
finish_drain expired c =
    if c.stopping
    then raise stopping
        (record c { checkpointing = false; checkpoint_ready = false; checkpoint_id = [] })
    else if expired
    then raise context_done (reopen_checkpoint c)
    else pure (c.has_run, c.pending_login) c

unfoldable pub abort_checkpoint : Workload → Workload
abort_checkpoint c =
    if not c.checkpointing
    then c
    else reopen_checkpoint (record c { last_aborted_checkpoint_id = c.checkpoint_id })

unfoldable pub complete_checkpoint_stream : Workload → Workload
complete_checkpoint_stream c =
    if c.checkpointing then record c { checkpoint_ready = true; accepting = false } else c

unfoldable pub abort_completed_checkpoint : Text → Action Workload ClaudeError Unit
abort_completed_checkpoint checkpoint_id c =
    if c.stopping
    then raise stopping c
    else if not c.ready
    then raise awaiting_restore c
    else if is_empty checkpoint_id
    then raise bad_checkpoint_id c
    else if not c.checkpointing
    then pure tt (record c { last_aborted_checkpoint_id = checkpoint_id })
    else if not (text_eq checkpoint_id c.checkpoint_id)
    then raise bad_checkpoint_id c
    else if not c.checkpoint_ready
    then raise checkpoint_busy c
    else pure tt (reopen_checkpoint (record c { last_aborted_checkpoint_id = checkpoint_id }))
