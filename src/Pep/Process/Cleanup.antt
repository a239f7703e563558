-- ===== src/Pep/Process/Cleanup.antt =====
-- What a run spawns, and the removal of its sandbox.
use confidential_agent.Common.{
  ℕ, String, true, false, Option, none, some, List, [], ◌∷◌, ◌++◌, ◌≡◌, ◌≢◌, ◌*◌, sym, subst, ap,
  ◌∙◌, WhenSome,
}
use confidential_agent.Common.Text.{to_ascii_lowercase}
use confidential_agent.Pep.{Outcome, fail, success, Command, World, ExecOutput}
use confidential_agent.Pep.Host.{Host, Process, ◌>>◌, lift}
use confidential_agent.Pep.Host.Added.{
  Adds, lift-Adds, bind-Adds, seq-Adds, wrap_err-Adds, unique_id-Adds, spawn-Adds, bind-success,
  seq-success, lift-success, lift-run, wrap_err-success, spawn-success, unique_id-success,
  outcome-eq, world-eq,
}
use confidential_agent.Pep.Process.{
  Awaited, finished, poll_failed, overdue, unfinished, Ended, await_exit, rounds, removal,
  remove_command, clean_up, settle, remove_sandbox, remove_sandbox_with_runtime,
  run_command_and_capture, run_command_and_capture_with_cleanup,
}

module _ (host : Host) (P : Command → Type 0) where
  remove_sandbox-Adds :
      (name : String) → P (remove_command "docker" name) → Adds P (remove_sandbox host name)
  unfolding remove_sandbox remove_sandbox_with_runtime
  remove_sandbox-Adds name p =
      bind-Adds P _ _ (unique_id-Adds String P host "cai-pep-cleanup") (λ scratch.
        seq-Adds P _ _ (lift-Adds P _) (
          bind-Adds P _ _ (wrap_err-Adds P _ _ (spawn-Adds P host (remove_command "docker" name) p))
            (λ child. lift-Adds P _)))

  clean_up-Adds :
      (container_name : Option String)
      → WhenSome (λ (name : String). P (remove_command "docker" name)) container_name
      → Adds P (clean_up host container_name)
  unfolding clean_up
  clean_up-Adds none p = lift-Adds P _
  clean_up-Adds (some name) p = remove_sandbox-Adds name p

  settle-Adds :
      (child : Process) (container_name : Option String) (awaited : Awaited)
      → WhenSome (λ (name : String). P (remove_command "docker" name)) container_name
      → Adds P (settle host child container_name awaited)
  unfolding settle
  settle-Adds child container_name (finished code) p =
      seq-Adds P _ _ (clean_up-Adds container_name p) (lift-Adds P _)
  settle-Adds child container_name (poll_failed message) p = lift-Adds P _
  settle-Adds child container_name overdue p =
      bind-Adds P _ _ (lift-Adds P _)
        (λ code. seq-Adds P _ _ (clean_up-Adds container_name p) (lift-Adds P _))
  settle-Adds child container_name unfinished p = lift-Adds P _

  pub capture_with_cleanup-Adds :
      (command : Command) (stdout_max stderr_max timeout_secs : ℕ) (container_name : Option String)
      → P command
      → WhenSome (λ (name : String). P (remove_command "docker" name)) container_name
      → Adds P (
          run_command_and_capture_with_cleanup host command stdout_max stderr_max timeout_secs
            container_name)
  unfolding run_command_and_capture_with_cleanup
  capture_with_cleanup-Adds command stdout_max stderr_max timeout_secs container_name p q =
      bind-Adds P _ _ (wrap_err-Adds P _ _ (spawn-Adds P host command p))
        (λ child. bind-Adds P _ _ (settle-Adds child container_name _ q) (λ ended. lift-Adds P _))

  pub capture-Adds :
      (command : Command) (stdout_max stderr_max timeout_secs : ℕ)
      → P command
      → Adds P (run_command_and_capture host command stdout_max stderr_max timeout_secs)
  unfolding run_command_and_capture
  capture-Adds command stdout_max stderr_max timeout_secs p =
      capture_with_cleanup-Adds command stdout_max stderr_max timeout_secs none p tt

-- The sandbox was removed between two worlds: a removal was spawned last, and it ended with the code
-- zero, or said that there is no such container.
pub record Removes (host : Host) (name : String) (w v : World) : Type 0 where
  pub last : v.spawned ≡ w.spawned ++ (remove_command "docker" name ∷ [])
  pub confirmed :
      removal name
        (to_ascii_lowercase (host.process v).diagnostic)
        (await_exit (rounds 3000 25) 3000 0 (host.process v).polls)
      ≡ success tt

module _ (host : Host) where
  remove_sandbox-Removes :
      (name : String) (w : World)
      → ((remove_sandbox host name).run w).0 ≡ success tt
      → Removes host name w ((remove_sandbox host name).run w).1
  unfolding remove_sandbox remove_sandbox_with_runtime
  remove_sandbox-Removes name w h =
      let (scratch, u, e, to_u, h₁) = bind-success _ _ w h in
      let (x, f, to_x, h₂) = seq-success _ _ u h₁ in
      let (child, v, g, to_v, h₃) = bind-success _ _ x h₂ in
      let (same, there) = lift-success _ u x tt f in
      let (at, here) =
        spawn-success host (remove_command "docker" name) x v child
          (wrap_err-success _ _ x v child g) in
      let end : ((remove_sandbox host name).run w).1 ≡ v =
        ap (λ (r : Outcome String (Unit {0}) × World). r.1) (to_u ∙ to_x ∙ to_v ∙ lift-run _ v) in
      rw end (record {
        last =
            ap (λ (y : World). y.spawned) at
            ∙ ap (λ (cs : List Command). cs ++ (remove_command "docker" name ∷ []))
                (ap (λ (y : World). y.spawned) there
                  ∙ unique_id-success host "cai-pep-cleanup" scratch w u e);
        confirmed =
            ap
              (λ (q : Process).
                removal name (to_ascii_lowercase q.diagnostic)
                  (await_exit (rounds 3000 25) 3000 0 q.polls))
              (sym here)
            ∙ outcome-eq (sym (lift-run _ v))
            ∙ h₃;
      })

  remove_then-Removes :
      (name : String) (end ended : Ended) (w : World)
      → ((remove_sandbox host name >> lift (success end)).run w).0 ≡ success ended
      → Removes host name w ((remove_sandbox host name >> lift (success end)).run w).1
  remove_then-Removes name end ended w h =
      let (v, e, to_v, h₁) = seq-success (remove_sandbox host name) (lift (success end)) w h in
      subst (Removes host name w) (world-eq e ∙ sym (world-eq (to_v ∙ lift-run (success end) v)))
        (remove_sandbox-Removes name w (outcome-eq e))

  lift-fail :
      (message : String) (w : World) (ended : Ended)
      → ((lift (fail message)).run w).0 ≢ success ended
  unfolding lift
  lift-fail message w ended h = cc

  settle-Removes :
      (child : Process) (name : String) (awaited : Awaited) (w : World) (ended : Ended)
      → ((settle host child (some name) awaited).run w).0 ≡ success ended
      → Removes host name w ((settle host child (some name) awaited).run w).1
  unfolding settle clean_up
  settle-Removes child name (finished code) w ended h =
      remove_then-Removes name (record { code = code; timed_out = false }) ended w h
  settle-Removes child name (poll_failed message) w ended h = absurd (lift-fail message w ended h)
  settle-Removes child name overdue w ended h =
      let (code, u, e, to_u, h₁) = bind-success _ _ w h in
      let (killed, there) = lift-success child.killed w u code e in
      subst (λ (x : World). Removes host name x ((settle host child (some name) overdue).run w).1)
        there
        (subst (Removes host name u) (sym (world-eq to_u))
          (remove_then-Removes name (record { code = code; timed_out = true }) ended u h₁))
  settle-Removes child name unfinished w ended h = absurd (lift-fail "unfinished" w ended h)

  -- A command that ran in a sandbox and gave an output has spawned itself and then the removal of its
  -- sandbox, and nothing else; the removal ended well, or said that there is no such container. This
  -- holds after a time-out too.
  pub capture_with_cleanup-Removes :
      (command : Command) (stdout_max stderr_max timeout_secs : ℕ) (name : String) (w : World)
      (output : ExecOutput)
      → ((run_command_and_capture_with_cleanup host command stdout_max stderr_max timeout_secs
            (some name)).run
          w).0
        ≡ success output
      → Removes host name
          (record w { spawned = w.spawned ++ (command ∷ []) })
          ((run_command_and_capture_with_cleanup host command stdout_max stderr_max timeout_secs
              (some name)).run
            w).1
  unfolding run_command_and_capture_with_cleanup
  capture_with_cleanup-Removes command stdout_max stderr_max timeout_secs name w output h =
      let (child, v, e, to_v, h₁) = bind-success _ _ w h in
      let (at, here) = spawn-success host command w v child (wrap_err-success _ _ w v child e) in
      let awaited =
        await_exit (rounds (timeout_secs * 1000) 100) (timeout_secs * 1000) 0 child.polls in
      let (ended, u, f, to_u, h₂) = bind-success (settle host child (some name) awaited) _ v h₁ in
      subst
        (λ (x : World).
          Removes host name x
            ((run_command_and_capture_with_cleanup host command stdout_max stderr_max timeout_secs
                (some name)).run
              w).1)
        at
        (subst (Removes host name v) (world-eq f ∙ sym (world-eq (to_v ∙ to_u ∙ lift-run _ u)))
          (settle-Removes child name awaited v ended (outcome-eq f)))
