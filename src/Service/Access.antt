-- ===== src/Service/Access.antt =====
-- control-plane/internal/service/manager.go: the operations that serve a session, bringing it active first.
use session_platform.Prelude.{
  ℕ, not, ◌&&◌, ◌||◌, List, [], ◌∷◌, Text, codes, is_empty, length, ltb, Result, ok, err, Action,
  pure, raise, lift, ◌>>=◌, ◌>>◌, if◌then◌else◌, ◌^◌,
}
use session_platform.Session.Errors.{Error, sentinel, invalid_state, prompt_too_large, wrapped}
use session_platform.Session.Types.{State, queues_prompts, is_codex}
use session_platform.Session.Record.{Session}
use session_platform.Service.Ports.{Ports, PluginChanges}
use session_platform.Service.Helpers.{
  Branch, active, idle_active, snapshot_restore, dispatch_path, get, touch, touch_get,
  normalize_stored_session,
}
use session_platform.Service.Transactions.{is_snapshot, has_transaction}
use session_platform.Service.Snapshot.{recover_snapshot}
use session_platform.Service.Restore.{restore}

abbrev pub max_claude_prompt_bytes : ℕ
max_claude_prompt_bytes = 2 ^ 20

pub record ReadResult : Type 0 where
  pub session : Session
  pub path : Text
  pub payload : List ℕ
  pub next_offset : ℕ

pub record WriteResult : Type 0 where
  pub session : Session
  pub path : Text

pub record PluginRefreshResult : Type 0 where
  pub session : Session
  pub path : Text
  pub changes : PluginChanges

module _ {W : Type 0} (ports : Ports W) where
  abbrev normalize_all : List Session → Result Error (List Session)
  normalize_all [] = ok []
  normalize_all (s ∷ ss) =
      let rest = normalize_all ss in
      elim (normalize_stored_session s) [
        | err e ↦ err e
        | ok t ↦ elim rest [ err e ↦ err e | ok ts ↦ ok (t ∷ ts) ]
      ]

  unfoldable pub list : Action W Error (List Session)
  list = do sessions ← ports.store.list; lift (normalize_all sessions)

  unfoldable pub stream : Text → ℕ → Action W Error ℕ
  stream id offset = do
    sess ← get ports id
    if is_snapshot sess || is_empty sess.pod
        then raise (sentinel invalid_state)
        else ports.agent.stream sess.pod offset

  module _ (rounds : ℕ) where
    abbrev pub activate_state : Text → Session → State → Action W Error (Session × Branch)
    activate_state id sess State.active = pure (sess, active)
    activate_state id sess State.idle = do
      ports.store.compare_and_swap_state id State.idle State.active
      s ← get ports id
      pure (s, idle_active)
    activate_state id sess State.snapshot = do
      s ← restore ports rounds id
      pure (s, snapshot_restore)
    activate_state id sess (State.other t) = raise (sentinel invalid_state)

    unfoldable pub activate : Text → Action W Error (Session × Branch)
    activate id = do
      found ← get ports id
      sess ← if has_transaction found then recover_snapshot ports rounds id else pure found
      activate_state id sess sess.state

    unfoldable pub read : Text → ℕ → Action W Error ReadResult
    read id offset = do
      served ← activate id
      answer ← ports.agent.read served.0.pod offset
      touch ports id
      pure (record {
        session = served.0;
        path = dispatch_path served.1 (codes "read");
        payload = answer.0;
        next_offset = answer.1;
      })

    unfoldable pub write : Text → List ℕ → Action W Error WriteResult
    write id payload = do
      current ← get ports id
      if queues_prompts current.workload_type && ltb max_claude_prompt_bytes (length payload)
          then raise (sentinel prompt_too_large)
          else do
            served ← activate id
            ports.agent.write served.0.pod payload
            touch ports id
            pure (record { session = served.0; path = dispatch_path served.1 (codes "write") })

    unfoldable pub refresh_plugins : Text → Action W Error PluginRefreshResult
    refresh_plugins id = do
      current ← get ports id
      if not (is_codex current.workload_type) then raise (wrapped (sentinel invalid_state)) else do
        served ← activate id
        changes ← ports.agent.refresh_plugins served.0.pod
        touch ports id
        pure (record {
          session = served.0;
          path = dispatch_path served.1 (codes "refresh-plugins");
          changes = changes;
        })

    abbrev switched : Text → Session → Branch → Action W Error Session
    switched id sess idle_active = touch_get ports id
    switched id sess _ = pure sess

    unfoldable pub switch : Text → Action W Error Session
    switch id = do served ← activate id; switched id served.0 served.1
