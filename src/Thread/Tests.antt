-- ===== src/Thread/Tests.antt =====
-- A thread that starts before its number is stored.
use nomad_tasks.Prelude.{◌≡◌, ◌≢◌, refl, Bool, true, false, some, List, ◌++◌, replicate, arith}
use nomad_tasks.Thread.{waits, no_id, run, start}
use nomad_tasks.Thread.Handshake.{calls-id, never_waits}

-- The new thread begins within `CreateThread`, and tries the lock before it is free.
abbrev early : List Bool
early = replicate 3 true ++ replicate 3 false ++ replicate 3 true ++ replicate 3 false

calls-id_example : (run true (some 12) early (start no_id)).id ≡ 12
unfolding run
calls-id_example = calls-id 12 no_id true early (omega arith) refl

never_waits_example : (run true (some 12) (replicate 3 true) (start no_id)).child ≢ waits
never_waits_example = never_waits 12 no_id true (replicate 3 true) (omega arith)
