-- ===== src/Tests/Commands.antt =====
-- The theorems on paths and on the execution of commands.
use s3_mcp_relay.Base.{
  ◌≡◌, ◌≢◌, true, false, none, [], ◌∷◌, arith, codes, text_eq, length, take, ltb, ok, err, pos,
  ◌≤ℤ◌, saturating_add,
}
use s3_mcp_relay.Failure.{Error}
use s3_mcp_relay.Protocol.Types.{Command, CommandKind}
use s3_mcp_relay.Agent.Policy.{
  Files, nearest_existing, check_canonical, check_existing_path, check_write_path,
}
use s3_mcp_relay.Agent.Policy.Laws.Fuel.{nearest_existing-fuel}
use s3_mcp_relay.Agent.Executor.Answers.{execute-valid}
use s3_mcp_relay.Protocol.Checks.{validate_for, response_ok}
use s3_mcp_relay.Agent.Executor.{read_bounded, respond}
use s3_mcp_relay.Agent.Executor.Bounded.{succeed, stream_of, read_bounded_lem}
use s3_mcp_relay.Agent.Executor.Run.{run, execute}
use s3_mcp_relay.Agent.Executor.Handlers.{write_file}
use s3_mcp_relay.Tests.Machine.{
  below, toy_paths, toy_paths-IsPaths, Places, places, still_host, toy_machine, toy_policy,
  toy_transport, kind_command,
}

-- A file is written at 3, 1 inside the root 1.
abbrev write_command : Command
write_command = kind_command (CommandKind.write_file (3 ∷ 1 ∷ []) (8 ∷ []) true) none

finished :
    (execute still_host toy_machine toy_policy toy_transport 3
      (codes "jobs")
      write_command
      []
      []).0.0.finished_at
    ≤ℤ saturating_add (pos 50) (pos 60)
unfolding execute run write_file check_write_path check_existing_path check_canonical respond
    response_ok below text_eq saturating_add
finished = omega arith

execute-valid_example :
    validate_for
      (pos 50)
      (execute still_host toy_machine toy_policy toy_transport 3
        (codes "jobs")
        write_command
        []
        []).0.0
      write_command
    ≡ ok tt
execute-valid_example =
    execute-valid still_host toy_machine toy_policy toy_transport 3 (codes "jobs") write_command []
      [] (pos 50) finished

-- A machine on which nothing is there.
abbrev empty_places : Files Places
empty_places = record places { exists = λ p w. (false, w) }

nearest_existing-fuel_example :
    (nearest_existing toy_paths toy_policy empty_places 3 (3 ∷ 1 ∷ []) []).0 ≢ err Error.out_of_fuel
nearest_existing-fuel_example =
    nearest_existing-fuel toy_paths toy_policy empty_places (3 ∷ 1 ∷ []) [] toy_paths-IsPaths

read_bounded_lem_example :
    read_bounded (succeed ((1 ∷ 2 ∷ []) ∷ (3 ∷ []) ∷ [])) 2
    ≡ ok (
      take 2 (stream_of ((1 ∷ 2 ∷ []) ∷ (3 ∷ []) ∷ [])),
      ltb 2 (length (stream_of ((1 ∷ 2 ∷ []) ∷ (3 ∷ []) ∷ []))),
    )
read_bounded_lem_example = read_bounded_lem ((1 ∷ 2 ∷ []) ∷ (3 ∷ []) ∷ []) 2
