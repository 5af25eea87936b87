-- ===== src/V2v/Stages.antt =====
-- The stages, one after the other, and the deferred calls behind them.
use kc_utils.Base.{
  ℕ, ◌+◌, Bool, true, false, not, ◌&&◌, [], ◌∷◌, ◌++◌, Option, none, some, if◌then◌else◌,
}
use kc_utils.Text.{Text, codes, text_eq, is_empty}
use kc_utils.V2v.{
  Stage, prepare, prepare_retry, conversion, finalize, Prepared, PipelineData, PrepareInput, Config,
  at_first, after, Host, start_listener, close_listener, write_input, run_stage, cleanup, State,
  emit, network_on, keeps_network,
}

-- What a stage answers, and the state that it leaves.
abbrev pub Result : Type 0
Result = Option PipelineData × State

abbrev pub and_then : Bool × State → (State → Result) → Result
and_then (false, s) k = (none, s)
and_then (true, s) k = k s

abbrev pub first_state : State
first_state = record { events = []; listener = none; stage_env = [] }

abbrev pub check_status : Prepared → PipelineData → State → Result
check_status p pl s = if text_eq p.status (codes "error") then (none, s) else (some pl, s)

abbrev pub with_prepared :
    Option Prepared → PipelineData → (Prepared → PipelineData → State → Result) → State → Result
with_prepared none pl k s = (none, s)
with_prepared (some p) pl k s = k p pl s

abbrev pub read_prepared :
    Option PipelineData → (Prepared → PipelineData → State → Result) → State → Result
read_prepared none k s = (none, s)
read_prepared (some pl) k s = with_prepared pl.prepared pl k s

abbrev pub converter_of : Option Prepared → Text
converter_of none = codes "kc-convert-linux"
converter_of (some p) =
    if not (is_empty p.converter)
    then p.converter
    else if text_eq p.os_type (codes "windows")
    then codes "kc-convert-windows"
    else codes "kc-convert-linux"

abbrev pub close_shared : Option ℕ → State → State
close_shared none s = s
close_shared (some l) s = emit (close_listener l) s

-- The deferred call that was made first, and runs last.
abbrev pub and_close : Result → Result
and_close (o, s) = (o, close_shared s.listener s)

module _ (cfg : Config) (host : Host) where
  abbrev pub listening : State
  listening = record {
    events = start_listener 0 ∷ [];
    listener = some 0;
    stage_env = host.listener_env 0 ++ (if cfg.nbde_clevis then network_on else []);
  }

  -- `setupSharedListener`
  unfoldable pub setup_shared_listener : Bool × State
  setup_shared_listener =
      if not host.supports_listener
      then (true, first_state)
      else if cfg.nbde_clevis && not host.setenv_ok
      then (false, first_state)
      else if host.start_ok at_first
      then (true, listening)
      else (false, first_state)

  -- A new listener is started before the dead one is closed.
  abbrev pub restarted : ℕ → State → State
  restarted l s = record {
    events = s.events ++ start_listener (l + 1) ∷ close_listener l ∷ [];
    listener = some (l + 1);
    stage_env = host.listener_env (l + 1) ++ (if keeps_network s.stage_env then network_on else []);
  }

  unfoldable pub ensure_alive : Stage → Option ℕ → State → Bool × State
  unfolding keeps_network
  ensure_alive stage none s = (true, s)
  ensure_alive stage (some l) s =
      if host.alive stage
      then (true, s)
      else if host.start_ok (after stage)
      then (true, restarted l s)
      else (false, s)

  -- `ensureSharedListener`
  unfoldable pub ensure_shared_listener : Stage → State → Bool × State
  unfolding ensure_alive
  ensure_shared_listener stage s = ensure_alive stage s.listener s

  abbrev pub and_ensure : Stage → Bool → State → Bool × State
  and_ensure stage true s = ensure_shared_listener stage s
  and_ensure stage false s = (false, s)

  -- A subprocess, and then the look at the listener. Only the conversion is given `--offline`.
  unfoldable pub run_tool : Stage → Text → Bool → State → Bool × State
  unfolding emit ensure_shared_listener
  run_tool stage bin offline s =
      and_ensure stage (host.stage_ok stage) (emit (run_stage stage bin offline s.stage_env) s)

  -- The second run of kc-prepare, with the root that is configured.
  unfoldable pub retry_prepare : PrepareInput → State → Result
  unfolding emit run_tool text_eq
  retry_prepare input s =
      let again =
        and_then
          (run_tool prepare_retry (codes "kc-prepare") false
            (emit (write_input (record input { root = cfg.root_disk })) s))
          (read_prepared host.read_retry check_status) in
      if host.write_ok then again else (none, s)

  abbrev pub should_retry : Prepared → Bool
  should_retry p =
      text_eq p.status (codes "error") && (p.has_candidates && not (is_empty cfg.root_disk))

  abbrev pub after_prepare : PrepareInput → Prepared → PipelineData → State → Result
  after_prepare input p pl s =
      let again = retry_prepare input s in if should_retry p then again else check_status p pl s

  -- `runPrepareStage`
  unfoldable pub run_prepare_stage : PrepareInput → State → Result
  unfolding run_tool retry_prepare text_eq
  run_prepare_stage input s =
      and_then (run_tool prepare (codes "kc-prepare") false s)
        (read_prepared host.read_prepare (after_prepare input))

  -- `runConvertStage`
  unfoldable pub run_convert_stage : PipelineData → State → Bool × State
  unfolding run_tool text_eq
  run_convert_stage pl s = run_tool conversion (converter_of pl.prepared) cfg.offline s

  -- `runFinalizeStage`, which does not look at the listener.
  unfoldable pub run_finalize_stage : State → Result
  unfolding emit
  run_finalize_stage s =
      let done = emit (run_stage finalize (codes "kc-finalize") false s.stage_env) s in
      if host.stage_ok finalize then (host.read_final, done) else (none, done)

  abbrev pub after_prepared : Result → Result
  after_prepared (none, s) = (none, s)
  after_prepared (some pl, s) = and_then (run_convert_stage pl s) run_finalize_stage

  unfoldable pub run_stages : PrepareInput → State → Result
  unfolding run_prepare_stage run_convert_stage run_finalize_stage
  run_stages input s = after_prepared (run_prepare_stage input s)

  -- The deferred call that reclaims the guest after a failure, `bestEffortGuestCleanup`: it is told
  -- the file of the pipeline if that exists.
  abbrev pub and_clean_up : Result → Result
  and_clean_up (none, s) = (none, emit (cleanup host.pipeline_exists s.stage_env) s)
  and_clean_up (some pl, s) = (some pl, s)

  abbrev pub body : PrepareInput → Bool × State → Result
  body input (false, s) = (none, s)
  body input (true, s) = and_close (and_clean_up (run_stages input s))

  -- `runPipelineOnceBody`
  unfoldable pub run_pipeline_once_body : PrepareInput → Result
  unfolding setup_shared_listener run_stages emit
  run_pipeline_once_body input = body input setup_shared_listener
