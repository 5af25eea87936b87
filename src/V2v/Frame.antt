-- ===== src/V2v/Frame.antt =====
-- What the stages keep: a property of the state that their steps keep.
use kc_utils.Base.{
  ℕ, ◌≡◌, refl, inl, inr, Bool, true, false, List, Option, none, some, Bool-cases, if-holds,
}
use kc_utils.Text.{Text, codes, text_eq}
use kc_utils.V2v.{
  Stage, prepare, prepare_retry, conversion, finalize, Prepared, PipelineData, PrepareInput, Config,
  after, Host, write_input, run_stage, State, emit,
}
use kc_utils.V2v.Stages.{
  Result, and_then, restarted, ensure_alive, ensure_shared_listener, run_tool, check_status,
  with_prepared, read_prepared, retry_prepare, should_retry, after_prepare, run_prepare_stage,
  converter_of, run_convert_stage, run_finalize_stage, after_prepared, run_stages,
}

-- What holds after a run of a tool, a write and a restart holds after the stages.
module _ (cfg : Config) (host : Host) (P : State → Type 0)
    (on_run : (stage : Stage) (bin : Text) (offline : Bool) (env : List Text) (s : State)
      → P s
      → P (emit (run_stage stage bin offline env) s))
    (on_write : (input : PrepareInput) (s : State) → P s → P (emit (write_input input) s))
    (on_restart : (l : ℕ) (s : State)
      → s.listener ≡ some l
      → P s
      → P (restarted cfg host l s)) where
  abbrev Kept : Bool × State → Type 0
  Kept r = P r.1

  abbrev Held : Result → Type 0
  Held r = P r.1

  ensure_alive-keeps :
      (stage : Stage) (o : Option ℕ) (s : State)
      → s.listener ≡ o
      → P s
      → P (ensure_alive cfg host stage o s).1
  unfolding ensure_alive
  ensure_alive-keeps stage none s e h = h
  ensure_alive-keeps stage (some l) s e h =
      if-holds Kept (host.alive stage) _ _ (λ f. h)
        (λ f. if-holds Kept (host.start_ok (after stage)) _ _ (λ g. on_restart l s e h) (λ g. h))

  run_tool-keeps :
      (stage : Stage) (bin : Text) (offline : Bool) (s : State)
      → P s
      → P (run_tool cfg host stage bin offline s).1
  unfolding run_tool ensure_shared_listener
  run_tool-keeps stage bin offline s h =
      let ran = on_run stage bin offline s.stage_env s h in
      elim (Bool-cases (host.stage_ok stage)) [
        | inl e ↦ rw e (ensure_alive-keeps stage _ _ refl ran)
        | inr e ↦ rw e ran
      ]

  and_then-keeps :
      (r : Bool × State) (k : State → Result)
      → P r.1
      → ((s : State) → P s → P (k s).1)
      → P (and_then r k).1
  and_then-keeps (true, s) k h f = f s h
  and_then-keeps (false, s) k h f = h

  with_prepared-keeps :
      (o : Option Prepared) (pl : PipelineData) (k : Prepared → PipelineData → State → Result)
      (s : State)
      → P s
      → ((p : Prepared) (d : PipelineData) → P (k p d s).1)
      → P (with_prepared o pl k s).1
  with_prepared-keeps none pl k s h f = h
  with_prepared-keeps (some p) pl k s h f = f p pl

  read_prepared-keeps :
      (o : Option PipelineData) (k : Prepared → PipelineData → State → Result) (s : State)
      → P s
      → ((p : Prepared) (pl : PipelineData) → P (k p pl s).1)
      → P (read_prepared o k s).1
  read_prepared-keeps none k s h f = h
  read_prepared-keeps (some pl) k s h f = with_prepared-keeps pl.prepared pl k s h f

  check_status-keeps :
      (p : Prepared) (pl : PipelineData) (s : State) → P s → P (check_status p pl s).1
  check_status-keeps p pl s h =
      if-holds Held (text_eq p.status (codes "error")) (none, s) (some pl, s) (λ e. h) (λ e. h)

  retry_prepare-keeps :
      (input : PrepareInput) (s : State) → P s → P (retry_prepare cfg host input s).1
  unfolding retry_prepare
  retry_prepare-keeps input s h =
      let retried : PrepareInput = record input { root = cfg.root_disk } in
      if-holds Held host.write_ok _ _
        (λ e.
          and_then-keeps
            (run_tool cfg host prepare_retry (codes "kc-prepare") false
              (emit (write_input retried) s))
            (read_prepared host.read_retry check_status)
            (run_tool-keeps prepare_retry (codes "kc-prepare") false _ (on_write retried s h))
            (λ t k.
              read_prepared-keeps host.read_retry check_status t k
                (λ p pl. check_status-keeps p pl t k)))
        (λ e. h)

  run_prepare_stage-keeps :
      (input : PrepareInput) (s : State) → P s → P (run_prepare_stage cfg host input s).1
  unfolding run_prepare_stage
  run_prepare_stage-keeps input s h =
      and_then-keeps (run_tool cfg host prepare (codes "kc-prepare") false s)
        (read_prepared host.read_prepare (after_prepare cfg host input))
        (run_tool-keeps prepare (codes "kc-prepare") false s h)
        (λ t k. read_prepared-keeps host.read_prepare (after_prepare cfg host input) t k (λ p pl.
          if-holds Held (should_retry cfg host p) _ _ (λ e. retry_prepare-keeps input t k)
            (λ e. check_status-keeps p pl t k)))

  run_finalize_stage-keeps : (s : State) → P s → P (run_finalize_stage cfg host s).1
  unfolding run_finalize_stage
  run_finalize_stage-keeps s h =
      let ran = on_run finalize (codes "kc-finalize") false s.stage_env s h in
      if-holds Held (host.stage_ok finalize) _ _ (λ e. ran) (λ e. ran)

  after_prepared-keeps : (r : Result) → P r.1 → P (after_prepared cfg host r).1
  unfolding run_convert_stage
  after_prepared-keeps (none, s) h = h
  after_prepared-keeps (some pl, s) h =
      and_then-keeps (run_convert_stage cfg host pl s) (run_finalize_stage cfg host)
        (run_tool-keeps conversion (converter_of pl.prepared) cfg.offline s h)
        run_finalize_stage-keeps

  pub run_stages-keeps :
      (input : PrepareInput) (s : State) → P s → P (run_stages cfg host input s).1
  unfolding run_stages
  run_stages-keeps input s h = after_prepared-keeps _ (run_prepare_stage-keeps input s h)
