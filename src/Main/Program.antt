-- ===== src/Main/Program.antt =====
-- main.go: `run` and `main`, from the arguments to the exit of the process. The package flag,
-- `godotenv.Load` and `ListenAndServe` are not part of the program: a `Machine` is what they answer.
use merge_bot.Base.{
  Bool, List, [], ◌++◌, Option, none, some, String, Text, codes, ℕ, if◌then◌else◌, ℤ, pos, negsuc,
}
use merge_bot.Merge.Errors.{Error, Result, ok, err, error_text}
use merge_bot.Merge.Runner.{Poll, Ending, run}
use merge_bot.Main.{Environment}
use merge_bot.Main.Commands.{
  OnceFlags, OnceRun, ServeFlags, Files, runner_of, run_once, run_serve, Command, show_version,
  serve_with, once_with, command_of,
}

pub record Machine : Type 0 where
  pub version : Text
  pub env : Environment  -- with the variables of the file .env
  pub bad_number : String → Error  -- the error of `strconv.Atoi`
  pub parse_once : List String → OnceFlags → Result (OnceFlags × List String)
  pub parse_serve : List String → ServeFlags → Result ServeFlags
  pub files : Files
  pub listened : Option Error  -- the error of `ListenAndServe`, if it ends
  pub is_closed : Error → Bool  -- `errors.Is(err, http.ErrServerClosed)`
  pub now : ℕ
  pub polls : ℕ → Poll

-- How `run` ends; `none` says that it still runs.
abbrev pub Ended : Type 0
Ended = Option (Option Error)

abbrev pub error_of : Option Ending → Ended
error_of none = none
error_of (some (e, calls)) = some e

-- The runner of one pull request. A negative number, which names none, is left out.
abbrev pub poll_number : ℕ → Machine → OnceRun → ℤ → Ended
poll_number fuel m o (pos n) = error_of (run fuel (runner_of o n) m.now m.polls)
poll_number fuel m o (negsuc n) = none

abbrev pub once_end : ℕ → Machine → OnceRun → Ended
once_end fuel m o = poll_number fuel m o o.number

-- A server that was shut down has ended well.
abbrev pub serve_end : Machine → Ended
serve_end m = elim m.listened [
  | none ↦ none
  | some e ↦ some (if m.is_closed e then none else some e)
]

abbrev pub started : {A : Type 0} → Result A → (A → Ended) → Ended
started (err e) end_ = some (some e)
started (ok a) end_ = end_ a

abbrev pub run_command : ℕ → Machine → Command → Ended
run_command fuel m show_version = some none
run_command fuel m (serve_with arguments) =
    started (run_serve m.env m.files (m.parse_serve arguments)) (λ served. serve_end m)
run_command fuel m (once_with arguments) =
    started (run_once m.env m.bad_number (m.parse_once arguments)) (once_end fuel m)

-- `run`, with the arguments behind the program's name.
unfoldable pub run_program : ℕ → Machine → List String → Ended
unfolding command_of
run_program fuel m arguments = run_command fuel m (command_of arguments)

-- The exit of the process, with what it prints besides the log.
pub record Exit : Type 0 where
  pub code : ℕ
  pub output : Text
  pub complaint : Text

abbrev pub output_of : Machine → Command → Text
output_of m show_version = codes "mergebot " ++ m.version
output_of m (serve_with arguments) = []
output_of m (once_with arguments) = []

abbrev pub exit_of : Text → Ended → Option Exit
exit_of output none = none
exit_of output (some none) = some (record { code = 0; output = output; complaint = [] })
exit_of output (some (some e)) =
    some (record { code = 1; output = output; complaint = codes "error: " ++ error_text e })

unfoldable pub main : ℕ → Machine → List String → Option Exit
unfolding run_program
main fuel m arguments = exit_of (output_of m (command_of arguments)) (run_program fuel m arguments)
