-- ===== src/V2v/Cleanup.antt =====
-- The clean-up of the guest after a failure, with the listener in use.
use kc_utils.Base.{
  ℕ, ◌+◌, ◌≡◌, refl, Bool, true, false, List, [], ◌∷◌, ◌++◌, Option, none, some, arith,
  append_assoc, append-nil, sym, ◌∙◌, ap, not, ◌&&◌, ◌||◌, if-holds, if◌then◌else◌,
}
use kc_utils.Text.{Text, codes, has_prefix}
use kc_utils.V2v.{
  PrepareInput, Config, Host, at_first, Event, close_listener, start_listener, cleanup, run_stage,
  write_input, State, emit, network, network_on, keeps_network,
}
use kc_utils.V2v.Stages.{
  Result, setup_shared_listener, run_stages, and_clean_up, close_shared, and_close, body, restarted,
  run_pipeline_once_body,
}
use kc_utils.V2v.Frame.{run_stages-keeps}
use kc_utils.V2v.Listener.{number, number-append}

abbrev pub is_cleanup : Event → Bool
is_cleanup (cleanup file env) = true
is_cleanup _ = false

-- The listener's end, if there is one.
abbrev pub closing : Option ℕ → List Event
closing none = []
closing (some l) = close_listener l ∷ []

-- The environment of the stages is the one of the listener in use, with the network if the configuration
-- asks for it, and empty without a listener.
abbrev pub IsEnvOf : Config → Host → Option ℕ → List Text → Type 0
IsEnvOf cfg host none env = env ≡ []
IsEnvOf cfg host (some l) env =
    (net : Bool) × (env ≡ host.listener_env l ++ (if net then network_on else []))
    × (cfg.nbde_clevis ≡ true → net ≡ true)

-- Without a result, the clean-up is the last thing that is done, but for the end of the listener that is
-- in use, runs in that listener's environment, and is done once; with one there is none.
abbrev pub IsCleaned : Config → Host → Result → Type 0
IsCleaned cfg host (some pl, s) = number is_cleanup s.events ≡ 0
IsCleaned cfg host (none, s) =
    (es : List Event) × (env : List Text) × (s.events
      ≡ es ++ cleanup host.pipeline_exists env ∷ closing s.listener)
    × (number is_cleanup es ≡ 0)
    × IsEnvOf cfg host s.listener env

or_true : (a b : Bool) → b ≡ true → (a || b) ≡ true
or_true true b h = refl
or_true false b h = h

keeps_network-append : (es : List Text) → keeps_network (es ++ network_on) ≡ true
unfolding keeps_network has_prefix
keeps_network-append [] = refl
keeps_network-append (e ∷ es) =
    or_true (has_prefix e (network ++ codes "=")) (keeps_network (es ++ network_on))
      (keeps_network-append es)

abbrev IsUncleaned : State → Type 0
IsUncleaned s = number is_cleanup s.events ≡ 0

module _ (cfg : Config) (host : Host) where
  abbrev HasEnv : State → Type 0
  HasEnv s = IsEnvOf cfg host s.listener s.stage_env

  IsEnvOf-keeps :
      (o : Option ℕ) (l : ℕ) (env : List Text)
      → o ≡ some l
      → IsEnvOf cfg host o env
      → cfg.nbde_clevis ≡ true
      → keeps_network env ≡ true
  IsEnvOf-keeps none l env e h c = absurd (cc (e))
  IsEnvOf-keeps (some k) l env e (net, q, n) c =
      ap keeps_network q ∙ rw (n c) (keeps_network-append (host.listener_env k))

  restarted-HasEnv :
      (l : ℕ) (s : State) → s.listener ≡ some l → HasEnv s → HasEnv (restarted cfg host l s)
  restarted-HasEnv l s e h =
      (keeps_network s.stage_env, refl, IsEnvOf-keeps s.listener l s.stage_env e h)

  abbrev Ok : Bool × State → Type 0
  Ok r = HasEnv r.1

  setup-HasEnv : HasEnv (setup_shared_listener cfg host).1
  unfolding setup_shared_listener
  setup-HasEnv =
      if-holds Ok (not host.supports_listener) _ _ (λ e. refl)
        (λ e.
          if-holds Ok (cfg.nbde_clevis && not host.setenv_ok) _ _ (λ f. refl)
            (λ f.
              if-holds Ok (host.start_ok at_first) _ _ (λ g. (cfg.nbde_clevis, refl, λ c. c))
                (λ g. refl)))

  run_stages-IsUncleaned :
      (input : PrepareInput) (s : State)
      → IsUncleaned s
      → IsUncleaned (run_stages cfg host input s).1
  unfolding emit
  run_stages-IsUncleaned =
      run_stages-keeps cfg host IsUncleaned
        (λ stage bin offline env s h.
          omega
            (arith, number-append is_cleanup s.events (run_stage stage bin offline env ∷ []), h))
        (λ input s h. omega (arith, number-append is_cleanup s.events (write_input input ∷ []), h))
        (λ l s e h. omega (
          arith,
          number-append is_cleanup s.events (start_listener (l + 1) ∷ close_listener l ∷ []),
          h,
        ))

  run_stages-HasEnv :
      (input : PrepareInput) (s : State) → HasEnv s → HasEnv (run_stages cfg host input s).1
  unfolding emit
  run_stages-HasEnv =
      run_stages-keeps cfg host HasEnv (λ stage bin offline env s h. h) (λ input s h. h)
        restarted-HasEnv

  close_shared-keeps : (o : Option ℕ) (s : State) → (close_shared o s).listener ≡ s.listener
  unfolding emit
  close_shared-keeps none s = refl
  close_shared-keeps (some l) s = refl

  close_shared-events :
      (o : Option ℕ) (s : State) → (close_shared o s).events ≡ s.events ++ closing o
  unfolding emit
  close_shared-events none s = sym (append-nil s.events)
  close_shared-events (some l) s = refl

  number-closing : (o : Option ℕ) → number is_cleanup (closing o) ≡ 0
  number-closing none = refl
  number-closing (some l) = refl

  ended-IsCleaned :
      (r : Result)
      → IsUncleaned r.1
      → HasEnv r.1
      → IsCleaned cfg host (and_close (and_clean_up cfg host r))
  unfolding emit
  ended-IsCleaned (none, s) h k =
      rw (close_shared-keeps s.listener (emit (cleanup host.pipeline_exists s.stage_env) s)) (
        s.events,
        s.stage_env,
        close_shared-events s.listener (emit (cleanup host.pipeline_exists s.stage_env) s)
            ∙ append_assoc s.events (cleanup host.pipeline_exists s.stage_env ∷ [])
                (closing s.listener),
        h,
        k,
      )
  ended-IsCleaned (some pl, s) h k = rw (close_shared-events s.listener s) (
      omega (
        arith,
        number-append is_cleanup s.events (closing s.listener),
        number-closing s.listener,
        h,
      ))

  body-IsCleaned :
      (input : PrepareInput) (r : Bool × State)
      → r.0 ≡ true
      → IsUncleaned r.1
      → HasEnv r.1
      → IsCleaned cfg host (body cfg host input r)
  body-IsCleaned input (true, s) e h k =
      ended-IsCleaned (run_stages cfg host input s) (run_stages-IsUncleaned input s h)
        (run_stages-HasEnv input s k)
  body-IsCleaned input (false, s) e h k = absurd cc

  setup-IsUncleaned : IsUncleaned (setup_shared_listener cfg host).1
  unfolding setup_shared_listener
  setup-IsUncleaned = ground arith

-- When the set-up of the listener has succeeded, a run without a result reclaims the guest, once and as
-- the last thing but for the end of the listener in use, in that listener's environment: with the network
-- if NBDE asks for it, and empty if there is no listener. A run with a result never does.
pub run_pipeline_once_body-IsCleaned :
    (cfg : Config) (host : Host) (input : PrepareInput)
    → (setup_shared_listener cfg host).0 ≡ true
    → IsCleaned cfg host (run_pipeline_once_body cfg host input)
unfolding run_pipeline_once_body
run_pipeline_once_body-IsCleaned cfg host input e =
    body-IsCleaned cfg host input (setup_shared_listener cfg host) e (setup-IsUncleaned cfg host)
      (setup-HasEnv cfg host)
