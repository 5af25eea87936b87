-- ===== src/V2v/Listener.antt =====
-- The starts and the ends of the listeners.
use kc_utils.Base.{
  ℕ, ◌+◌, ◌≡◌, refl, Bool, true, false, not, ◌&&◌, List, [], ◌∷◌, ◌++◌, Option, none, some, arith,
  ◌==◌, if◌then◌else◌, if-holds,
}
use kc_utils.V2v.{
  PrepareInput, Config, at_first, Host, Event, start_listener, close_listener, write_input,
  run_stage, cleanup, State, emit,
}
use kc_utils.V2v.Stages.{
  Result, setup_shared_listener, restarted, run_stages, and_clean_up, close_shared, body,
  run_pipeline_once_body,
}
use kc_utils.V2v.Frame.{run_stages-keeps}

abbrev pub is_start : ℕ → Event → Bool
is_start l (start_listener k) = k == l
is_start l _ = false

abbrev pub is_close : ℕ → Event → Bool
is_close l (close_listener k) = k == l
is_close l _ = false

-- How many events pass a test.
abbrev pub number : (Event → Bool) → List Event → ℕ
number f [] = 0
number f (e ∷ es) = (if f e then 1 else 0) + number f es

pub number-append :
    (f : Event → Bool) (es gs : List Event) → number f (es ++ gs) ≡ number f es + number f gs
number-append f [] gs = omega arith
number-append f (e ∷ es) gs = omega (arith, number-append f es gs)

abbrev open_now : ℕ → Option ℕ → ℕ
open_now l none = 0
open_now l (some k) = if k == l then 1 else 0

-- A listener is closed as often as it is started, but for the one that is in use.
abbrev IsBalanced : State → Type 0
IsBalanced s =
    (l : ℕ) → number (is_start l) s.events ≡ number (is_close l) s.events + open_now l s.listener

-- An event that neither starts nor closes.
emit-IsBalanced :
    (e : Event) (s : State)
    → ((l : ℕ) → is_start l e ≡ false)
    → ((l : ℕ) → is_close l e ≡ false)
    → IsBalanced s
    → IsBalanced (emit e s)
unfolding emit
emit-IsBalanced e s a b h l = ground (
  arith,
  number-append (is_start l) s.events (e ∷ []),
  number-append (is_close l) s.events (e ∷ []),
  h l,
  a l,
  b l,
)

restarted-IsBalanced :
    (cfg : Config) (host : Host) (k : ℕ) (s : State)
    → s.listener ≡ some k
    → IsBalanced s
    → IsBalanced (restarted cfg host k s)
restarted-IsBalanced cfg host k s e h l =
    let before : number (is_start l) s.events ≡ number (is_close l) s.events + open_now l (some k) =
      rw e at (h l) in
    let new : List Event = start_listener (k + 1) ∷ close_listener k ∷ [] in
    ground (
      arith,
      number-append (is_start l) s.events new,
      number-append (is_close l) s.events new,
      before,
    )

module _ (cfg : Config) (host : Host) where
  run_stages-IsBalanced :
      (input : PrepareInput) (s : State) → IsBalanced s → IsBalanced (run_stages cfg host input s).1
  run_stages-IsBalanced =
      run_stages-keeps cfg host IsBalanced
        (λ stage bin offline env s.
          emit-IsBalanced (run_stage stage bin offline env) s (λ l. refl) (λ l. refl))
        (λ input s. emit-IsBalanced (write_input input) s (λ l. refl) (λ l. refl))
        (restarted-IsBalanced cfg host)

  and_clean_up-IsBalanced : (r : Result) → IsBalanced r.1 → IsBalanced (and_clean_up cfg host r).1
  and_clean_up-IsBalanced (none, s) h =
      emit-IsBalanced (cleanup host.pipeline_exists s.stage_env) s (λ l. refl) (λ l. refl) h
  and_clean_up-IsBalanced (some pl, s) h = h

  -- No listener is left open.
  abbrev AllClosed : Result → Type 0
  AllClosed r = (l : ℕ) → number (is_start l) r.1.events ≡ number (is_close l) r.1.events

  close_shared-closes :
      (o : Option ℕ) (s : State) (l : ℕ)
      → number (is_start l) s.events ≡ number (is_close l) s.events + open_now l o
      → number (is_start l) (close_shared o s).events
        ≡ number (is_close l) (close_shared o s).events
  unfolding emit
  close_shared-closes none s l h = omega (arith, h)
  close_shared-closes (some k) s l h = omega (
    arith,
    number-append (is_start l) s.events (close_listener k ∷ []),
    number-append (is_close l) s.events (close_listener k ∷ []),
    h,
  )

  body-AllClosed :
      (input : PrepareInput) (r : Bool × State)
      → IsBalanced r.1
      → (r.0 ≡ false → r.1.listener ≡ none)
      → AllClosed (body cfg host input r)
  body-AllClosed input (false, s) h e l =
      let before : number (is_start l) s.events ≡ number (is_close l) s.events + open_now l none =
        rw (e refl) at (h l) in
      omega (arith, before)
  body-AllClosed input (true, s) h e l =
      close_shared-closes _ _ l
        (and_clean_up-IsBalanced (run_stages cfg host input s) (run_stages-IsBalanced input s h) l)

  abbrev IsSetUp : Bool × State → Type 0
  IsSetUp r = IsBalanced r.1 × (r.0 ≡ false → r.1.listener ≡ none)

  setup-IsBalanced : IsSetUp (setup_shared_listener cfg host)
  unfolding setup_shared_listener
  setup-IsBalanced =
      if-holds IsSetUp (not host.supports_listener) _ _ (λ e. (λ l. refl, λ f. refl))
        (λ e.
          if-holds IsSetUp (cfg.nbde_clevis && not host.setenv_ok) _ _ (λ e. (λ l. refl, λ f. refl))
            (λ e.
              if-holds IsSetUp (host.start_ok at_first) _ _
                (λ e. (λ l. ground arith, λ f. absurd cc)) (λ e. (λ l. refl, λ f. refl))))

-- However the stages end, each listener that the run has started is closed, and as often as it was
-- started: those that died and were replaced, too.
pub run_pipeline_once_body-AllClosed :
    (cfg : Config) (host : Host) (input : PrepareInput) (l : ℕ)
    → number (is_start l) (run_pipeline_once_body cfg host input).1.events
      ≡ number (is_close l) (run_pipeline_once_body cfg host input).1.events
unfolding run_pipeline_once_body
run_pipeline_once_body-AllClosed cfg host input l =
    let ready = setup-IsBalanced cfg host in
    body-AllClosed cfg host input (setup_shared_listener cfg host) ready.0 ready.1 l
