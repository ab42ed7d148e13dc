-- ===== src/Crashme/Flags.antt =====
-- Who gets a flag.
use Prim.Native.String.{String}
use mathlib.Core.List.{List, [], ◌∷◌}
use notmanytuples.Prelude.{
  ◌≡◌, refl, sym, ap, ◌∙◌, inl, inr, true, false, Option, none, some, Bool-cases, Option-cases,
  arith,
}
use mathlib.Core.Path.{subst}
use notmanytuples.Prelude.Text.{◌<>◌}
use notmanytuples.Prelude.Lists.{In}
use notmanytuples.Result.{Result, ok, err, Result-cases}
use notmanytuples.Crashme.{
  Read, RunOutcome, finished, exited, not_run, FlagResponse, FetchError, transient, permanent,
  Write, text, flag_line, System, do_fetch_flag, retry, slow_read_first_line, fetch_flag,
  executable_path, give_flag, after_run, also_write, input_path, run_task, serve,
  do_handle_connection, with_error, handle_connection,
}

-- The API has answered an attempt with the flag.
abbrev pub IsAnswered : String → List (Result String FlagResponse) → Type 0
IsAnswered flag answers =
    (response : FlagResponse) × In (ok response) answers
    × (response.ok_status ≡ true)
    × (response.flag ≡ flag)

do_fetch_flag-ok :
    (answer : Result String FlagResponse) (flag : String)
    → do_fetch_flag answer ≡ ok flag
    → (response : FlagResponse) × (answer ≡ ok response)
      × (response.ok_status ≡ true)
      × (response.flag ≡ flag)
unfolding do_fetch_flag
do_fetch_flag-ok (err e) flag h = absurd (ground arith)
do_fetch_flag-ok (ok response) flag h = elim (Bool-cases response.ok_status) [
  | inl fine ↦ (response, refl, fine, ground arith)
  | inr bad ↦ absurd (ground arith)
]

retry-IsAnswered :
    (others : List (Result String FlagResponse)) (first : Result String FlagResponse)
    (flag : String) (attempt : Result FetchError String)
    → do_fetch_flag first ≡ attempt
    → retry attempt others ≡ ok flag
    → IsAnswered flag (first ∷ others)
unfolding retry
retry-IsAnswered others first flag (ok f) same h =
    let (response, answered, fine, given) = do_fetch_flag-ok first f same in
    (response, inl (sym answered), fine, given ∙ ap (λ x. elim x [ ok y ↦ y | err _ ↦ f ]) h)
retry-IsAnswered others first flag (err (permanent e)) same h = absurd (ground arith)
retry-IsAnswered [] first flag (err (transient e)) same h = absurd (ground arith)
retry-IsAnswered (answer ∷ others) first flag (err (transient e)) same h =
    let (response, there, fine, given) = retry-IsAnswered others answer flag _ refl h in
    (response, inr there, fine, given)

module _ (system : System) where
  -- A flag is earned on a task: its program exists, was run on the input of the connection and
  -- crashed without being interrupted, and the API has given the flag.
  pub record IsEarned (reads : List Read) (flag : String) : Type 0 where
    pub task : String
    pub state : String
    pub named : slow_read_first_line system reads ≡ ok task
    pub known : system.is_regular_file (executable_path system task) ≡ true
    pub crashed : system.run (executable_path system task) ≡ exited false state
    pub answered : IsAnswered flag (system.first_attempt task ∷ system.other_attempts task)

  give_flag-IsAnswered :
      (task state flag : String)
      → In (flag_line flag) (give_flag system task state).0
      → IsAnswered flag (system.first_attempt task ∷ system.other_attempts task)
  unfolding give_flag fetch_flag
  give_flag-IsAnswered task state flag m = elim (Option-cases (system.report_failure state)) [
    | inr (e, bad) ↦ absurd (ground (arith, bad))
    | inl good ↦ elim (Result-cases (fetch_flag system task)) [
      | inr (e, bad) ↦ absurd (ground (arith, good, bad))
      | inl (given, got) ↦
          let same : given ≡ flag = ground (arith, good, got) in
          retry-IsAnswered (system.other_attempts task) (system.first_attempt task) flag _ refl
            (got ∙ ap ok same)
    ]
  ]

  after_run-IsAnswered :
      (task flag : String) (outcome : RunOutcome)
      → In (flag_line flag) (after_run system task outcome).0
      → (state : String) × (outcome ≡ exited false state)
        × IsAnswered flag (system.first_attempt task ∷ system.other_attempts task)
  unfolding after_run
  after_run-IsAnswered task flag finished m = absurd (ground arith)
  after_run-IsAnswered task flag (exited true state) m = absurd m
  after_run-IsAnswered task flag (exited false state) m =
      (state, refl, give_flag-IsAnswered task state flag m)
  after_run-IsAnswered task flag (not_run e stderr) m = absurd m

  also_write-In :
      (flag before : String) (r : List Write × Option String)
      → In (flag_line flag) (also_write system (text before) r).0
      → In (flag_line flag) r.0
  unfolding also_write
  also_write-In flag before (ws, e) (inl h) = absurd (ground arith)
  also_write-In flag before (ws, e) (inr m) = m

  run_task-IsAnswered :
      (task flag : String)
      → In (flag_line flag) (run_task system task).0
      → (state : String) × (system.run (executable_path system task) ≡ exited false state)
        × IsAnswered flag (system.first_attempt task ∷ system.other_attempts task)
  unfolding run_task
  run_task-IsAnswered task flag m =
      elim (Option-cases (system.create_file (input_path system task))) [
        | inr (e, bad) ↦ absurd (ground (arith, bad))
        | inl a ↦ elim (Option-cases (system.create_file (input_path system task <> ".err"))) [
          | inr (e, bad) ↦ absurd (ground (arith, a, bad))
          | inl b ↦ elim (Option-cases (system.prepare_command (executable_path system task))) [
            | inr (e, bad) ↦ absurd (ground (arith, a, b, bad))
            | inl c ↦
                let ran : List Write × Option String =
                  after_run system task (system.run (executable_path system task)) in
                let before : Write = text ("Running task " <> task <> "\n") in
                let step : run_task system task ≡ also_write system before ran =
                  rw (run_task, a, b, c) refl in
                after_run-IsAnswered task flag (system.run (executable_path system task)) (
                  also_write-In flag _ ran
                    (subst (λ (r : List Write × Option String). In (flag_line flag) r.0) step m))
          ]
        ]
      ]

  serve-IsEarned :
      (reads : List Read) (flag : String)
      → In (flag_line flag) (serve system reads).0
      → IsEarned reads flag
  unfolding serve
  serve-IsEarned reads flag m = elim (Result-cases (slow_read_first_line system reads)) [
    | inr (e, bad) ↦ absurd (ground (arith, bad, also_write-In flag))
    | inl (task, named) ↦ elim (Bool-cases (system.is_regular_file (executable_path system task))) [
      | inr bad ↦ absurd (ground (arith, named, bad, also_write-In flag))
      | inl known ↦
          let step : serve system reads
              ≡ also_write system (text "Enter task name: ") (run_task system task) =
            rw (serve, named, known) refl in
          let (state, crashed, answered) = run_task-IsAnswered task flag (
            also_write-In flag "Enter task name: " (run_task system task)
              (subst (λ (r : List Write × Option String). In (flag_line flag) r.0) step m)) in
          record {
            task = task;
            state = state;
            named = named;
            known = known;
            crashed = crashed;
            answered = answered;
          }
    ]
  ]

  do_handle_connection-IsEarned :
      (reads : List Read) (flag : String)
      → In (flag_line flag) (do_handle_connection system reads).0
      → IsEarned reads flag
  unfolding do_handle_connection
  do_handle_connection-IsEarned reads flag m = elim (Bool-cases system.try_acquire) [
    | inl free ↦ serve-IsEarned reads flag (ground (arith, free))
    | inr busy ↦ elim (Option-cases system.acquire) [
      | inr (e, bad) ↦ absurd (ground (arith, busy, bad, also_write-In flag))
      | inl got ↦
          let step : do_handle_connection system reads
              ≡ also_write system (text "Waiting for an available runner...\n")
                  (serve system reads) =
            rw (do_handle_connection, busy, got) refl in
          serve-IsEarned reads flag (
            also_write-In flag _ (serve system reads)
              (subst (λ (r : List Write × Option String). In (flag_line flag) r.0) step m))
    ]
  ]

  with_error-In :
      (flag : String) (ws : List Write) (e : Option String)
      → In (flag_line flag) (with_error system (ws, e))
      → In (flag_line flag) ws
  unfolding with_error
  with_error-In flag ws none m = m
  with_error-In flag [] (some e) (inl h) = absurd (ground arith)
  with_error-In flag [] (some e) (inr m) = absurd m
  with_error-In flag (w ∷ ws) (some e) (inl h) = inl h
  with_error-In flag (w ∷ ws) (some e) (inr m) = inr (with_error-In flag ws (some e) m)

  -- A connection is given a flag only when it has earned it: its first line names a task whose
  -- program exists, the program crashed on it without being interrupted, and the API has answered an
  -- attempt for that task with this flag.
  pub handle_connection-IsEarned :
      (reads : List Read) (flag : String)
      → In (flag_line flag) (handle_connection system reads)
      → IsEarned reads flag
  unfolding handle_connection
  handle_connection-IsEarned reads flag m = do_handle_connection-IsEarned reads flag (
      with_error-In flag (do_handle_connection system reads).0 (do_handle_connection system reads).1
        m)
