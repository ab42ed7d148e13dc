-- ===== src/Tests/Crashme.antt =====
-- A connection that crashes a task's program, and the loop that accepts connections.
use Prim.Native.String.{String, [], ◌∷◌}
use mathlib.Core.List.{List, [], ◌∷◌}
use notmanytuples.Prelude.{ℕ, ◌≡◌, refl, inl, inr, true, false, none, some, ◌++◌, ◌==◌, string_eq}
use notmanytuples.Prelude.Text.{has_prefix, strip_prefix}
use notmanytuples.Result.{ok, err}
use notmanytuples.Crashme.{
  Read, byte, eof, exited, FlagResponse, text, flag_line, System, slow_read_first_line,
  accept_round, handle_connection, accept_errors_budget, executable_path,
}
use notmanytuples.Crashme.Flags.{IsEarned, handle_connection-IsEarned}

abbrev typed : String → List Read
typed [] = []
typed (c ∷ s) = byte c ∷ typed s

abbrev newline : List Read
newline = typed "\n"

abbrev answer : FlagResponse
answer = record { ok_status = true; error = ""; flag = "{FLAG}" }

-- Every program crashes, and the API gives the flag at the second attempt.
abbrev crashing : System
crashing = record {
  binaries_directory = "/bin";
  submits_directory = "/submits";
  try_acquire = false;
  acquire = none;
  is_regular_file = λ path. path == "/bin/ctf_a_b";
  create_file = λ path. none;
  prepare_command = λ path. none;
  run = λ path. exited false "segmentation fault";
  report_failure = λ state. none;
  first_attempt = λ task. err "timeout";
  other_attempts = λ task. ok answer ∷ [];
  trim_space = λ line. "a_b";
  now = "2026";
}

given :
    handle_connection crashing (typed "a_b" ++ newline)
    ≡ text "Waiting for an available runner...\n"
      ∷ text "Enter task name: "
      ∷ text "Running task a_b\n"
      ∷ text "Command failed: segmentation fault\nTrying to fetch flag...\n"
      ∷ flag_line "{FLAG}"
      ∷ []
unfolding handle_connection slow_read_first_line executable_path has_prefix strip_prefix
given = refl

unfinished_line :
    slow_read_first_line crashing (typed "a_b" ++ eof ∷ []) ≡ err "got EOF before new line"
unfolding slow_read_first_line
unfinished_line = refl

-- Nothing was accepted, and a handler is started on it.
nothing_accepted :
    accept_round {C = ℕ} (record { budget = accept_errors_budget; conn_id = 0 }) none
    ≡ some (record { budget = 9; conn_id = 1 }, none)
unfolding accept_round
nothing_accepted = refl

handle_connection-IsEarned_example : IsEarned crashing (typed "a_b" ++ newline) "{FLAG}"
unfolding handle_connection slow_read_first_line executable_path has_prefix strip_prefix
handle_connection-IsEarned_example =
    handle_connection-IsEarned crashing (typed "a_b" ++ newline) "{FLAG}"
      (inr (inr (inr (inr (inl refl)))))
