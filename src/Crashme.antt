-- ===== src/Crashme.antt =====
-- cmd/crashme/main.go: a server that runs a task's program on the input of a connection, and gives a
-- flag to whoever crashes it.
pub mod Flags
use Prim.Native.Char.{Char, code}
use Prim.Native.String.{String, [], ◌∷◌}
use mathlib.Core.List.{List, [], ◌∷◌}
use notmanytuples.Prelude.{
  ℕ, zero, suc, Bool, true, false, not, ◌&&◌, Option, none, some, ◌++◌, if◌then◌else◌, ◌==◌,
  string_eq, eqb, ltb,
}
use notmanytuples.Prelude.Text.{◌<>◌, path_base}
use notmanytuples.Prelude.Paths.{path_join}
use notmanytuples.Result.{Result, ok, err}

abbrev pub max_first_line_size : ℕ
max_first_line_size = 100

abbrev pub accept_errors_budget : ℕ
accept_errors_budget = 10

-- A read of one byte, as it ends.
pub data Read : Type 0 where
  byte : Char → Read
  no_byte : Read
  eof : Read
  read_failed : String → Read

-- The end of the input, after so many bytes.
end_of_line : (left : ℕ) → Result String String
end_of_line left = if eqb left 0 then err "too long first line" else err "got EOF before new line"

-- The loop of `slowReadFirstLine` on a reader that is limited to `left` more bytes; the line is what
-- the loop adds to the builder. Reads that have run out are the end of the input.
read_line : (left : ℕ) → List Read → Result String String
unfolding end_of_line
read_line zero reads = end_of_line 0
read_line (suc left) [] = end_of_line (suc left)
read_line (suc left) (eof ∷ reads) = end_of_line (suc left)
read_line (suc left) (no_byte ∷ reads) = end_of_line (suc left)
read_line (suc left) (read_failed e ∷ reads) = err e
read_line (suc left) (byte c ∷ reads) =
    let rest = read_line left reads in
    if eqb (code c) 10 then ok (c ∷ []) else elim rest [ err e ↦ err e | ok line ↦ ok (c ∷ line) ]

-- `strings.ReplaceAll(s, "_", "-")`, and the other way round.
replace_char : (old : ℕ) → (new : String) → String → String
replace_char old new [] = []
replace_char old new (c ∷ s) =
    let rest = replace_char old new s in if eqb (code c) old then new <> rest else c ∷ rest

-- How the command ends: well, with an exit error, or with another error, of which the model has what
-- the command wrote to its stderr as well.
pub data RunOutcome : Type 0 where
  finished : RunOutcome
  exited : (interrupted : Bool) → (state : String) → RunOutcome
  not_run : (error stderr : String) → RunOutcome

pub record FlagResponse : Type 0 where
  pub ok_status : Bool
  pub error : String
  pub flag : String

-- The error of an attempt to fetch a flag, after which the package backoff tries again, or not.
pub data FetchError : Type 0 where
  transient : String → FetchError
  permanent : String → FetchError

-- What a connection writes back; a flag is kept apart from other text.
pub data Write : Type 0 where
  text : String → Write
  flag_line : String → Write

-- The system around the server: the semaphore, files, processes, the other end of the connection,
-- and the answers of the API to the attempts that the package backoff makes, at least one.
pub record System : Type 0 where
  pub binaries_directory : String
  pub submits_directory : String
  pub try_acquire : Bool
  pub acquire : Option String
  pub is_regular_file : String → Bool
  pub create_file : String → Option String
  pub prepare_command : String → Option String
  pub run : String → RunOutcome
  pub report_failure : String → Option String
  pub first_attempt : String → Result String FlagResponse
  pub other_attempts : String → List (Result String FlagResponse)
  pub trim_space : String → String
  pub now : String

-- An attempt, from the answer that could be read and parsed.
do_fetch_flag : Result String FlagResponse → Result FetchError String
do_fetch_flag (err e) = err (transient e)
do_fetch_flag (ok response) =
    if not response.ok_status
    then err (permanent ("server error: " <> response.error))
    else ok response.flag

retry : Result FetchError String → List (Result String FlagResponse) → Result String String
unfolding do_fetch_flag
retry (ok flag) others = ok flag
retry (err (permanent e)) others = err e
retry (err (transient e)) [] = err e
retry (err (transient e)) (answer ∷ others) = retry (do_fetch_flag answer) others

module _ (system : System) where
  unfoldable pub slow_read_first_line : List Read → Result String String
  unfolding read_line
  slow_read_first_line reads = elim (read_line max_first_line_size reads) [
    | err e ↦ err e
    | ok line ↦ ok (system.trim_space line)
  ]

  unfoldable pub fetch_flag : String → Result String String
  unfolding retry do_fetch_flag
  fetch_flag task = retry (do_fetch_flag (system.first_attempt task)) (system.other_attempts task)

  last_task_name : String → String
  unfolding path_base replace_char
  last_task_name task = path_base (replace_char b'_' "-" task)

  unfoldable pub executable_path : String → String
  unfolding path_join last_task_name replace_char
  executable_path task =
      path_join system.binaries_directory ("ctf_" <> replace_char b'-' "_" (last_task_name task))

  input_path : String → String
  unfolding path_join last_task_name
  input_path task = path_join system.submits_directory (last_task_name task <> "_" <> system.now)

  give_flag : String → String → List Write × Option String
  unfolding fetch_flag
  give_flag task state =
      let notice = text ("Command failed: " <> state <> "\nTrying to fetch flag...\n") in
      elim (system.report_failure state) [
        | some e ↦ ([], some ("failed to write to the connection: " <> e))
        | none ↦ elim (fetch_flag task) [
          | err e ↦ (notice ∷ [], some ("failed to fetch flag: " <> e))
          | ok flag ↦ (notice ∷ flag_line flag ∷ [], none)
        ]
      ]

  after_run : String → RunOutcome → List Write × Option String
  unfolding give_flag
  after_run task finished = (text "Command finished normally\n" ∷ [], none)
  after_run task (exited true state) = ([], some "got EOF before command exit")
  after_run task (exited false state) = give_flag task state
  after_run task (not_run e stderr) =
      ([], some ("failed to start command: " <> e <> ", stderr: " <> stderr))

  also_write : Write → List Write × Option String → List Write × Option String
  also_write w (ws, e) = (w ∷ ws, e)

  run_task : String → List Write × Option String
  unfolding input_path executable_path after_run also_write
  run_task task = elim (system.create_file (input_path task)) [
    | some e ↦ ([], some ("failed to create input file: " <> e))
    | none ↦ elim (system.create_file (input_path task <> ".err")) [
      | some e ↦ ([], some ("failed to create stderr file: " <> e))
      | none ↦ elim (system.prepare_command (executable_path task)) [
        | some e ↦ ([], some ("failed to prepare command: " <> e))
        | none ↦
            also_write (text ("Running task " <> task <> "\n"))
              (after_run task (system.run (executable_path task)))
      ]
    ]
  ]

  serve : List Read → List Write × Option String
  unfolding slow_read_first_line executable_path run_task also_write
  serve reads = also_write (text "Enter task name: ") (elim (slow_read_first_line reads) [
    | err e ↦ ([], some ("failed to read first line: " <> e))
    | ok task ↦
        if not (system.is_regular_file (executable_path task))
        then ([], some ("unknown task " <> task))
        else run_task task
  ])

  -- What is written, and the error.
  unfoldable pub do_handle_connection : List Read → List Write × Option String
  unfolding serve also_write
  do_handle_connection reads =
      if system.try_acquire
      then serve reads
      else also_write (text "Waiting for an available runner...\n") (elim system.acquire [
        | some e ↦ ([], some ("failed to acquire semaphore: " <> e))
        | none ↦ serve reads
      ])

  with_error : List Write × Option String → List Write
  with_error (ws, none) = ws
  with_error (ws, some e) = ws ++ text ("Error: " <> e <> "\n") ∷ []

  unfoldable pub handle_connection : List Read → List Write
  unfolding do_handle_connection with_error
  handle_connection reads = with_error (do_handle_connection reads)

-- The loop of `main`: the budget of errors, and the number of the next connection.
pub record AcceptLoop : Type 0 where
  pub budget : ℕ
  pub conn_id : ℕ

-- A round, on the accepted connection or none: `none` is the panic; otherwise the loop goes on, and
-- a handler is started on what was accepted, even if that is nothing.
unfoldable pub accept_round : {C : Type 0} → AcceptLoop → Option C → Option (AcceptLoop × Option C)
accept_round l none = elim l.budget [
  | zero ↦ none
  | suc left ↦ some (record { budget = left; conn_id = suc l.conn_id }, none)
]
accept_round l (some c) =
    if ltb l.budget accept_errors_budget
    then some (record { budget = suc l.budget; conn_id = suc l.conn_id }, some c)
    else some (record l { conn_id = suc l.conn_id }, some c)
