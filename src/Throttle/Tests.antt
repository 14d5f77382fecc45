-- ===== src/Throttle/Tests.antt =====
-- throttle.py: one address over three attempts.
use django_mcp_sql.Caching.Memory.{memory, memory-IsReliable}
use django_mcp_sql.Executor.Sample.{empty_world}
use django_mcp_sql.Throttle.Counting.{Window, after_attempts, after_attempts-Window}

after_attempts-Window_example :
    Window memory memory-IsReliable "203.0.113.5" "bad_token" 3 3 empty_world
      (after_attempts memory memory-IsReliable "203.0.113.5" "bad_token" 60 3 3 empty_world)
after_attempts-Window_example =
    after_attempts-Window memory memory-IsReliable "203.0.113.5" "bad_token" 60 3 3 empty_world
