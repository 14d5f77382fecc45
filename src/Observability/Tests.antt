-- ===== src/Observability/Tests.antt =====
-- observability.py: one query of one user.
use django_mcp_sql.Caching.Memory.{memory, memory-IsReliable}
use django_mcp_sql.Executor.Sample.{empty_world}
use django_mcp_sql.Observability.{volume_key, tripwire, count_window}
use django_mcp_sql.Observability.Alerts.{Ticked, count_window-Ticked}

count_window-Ticked_example :
    Ticked memory
      (volume_key "allowed" 60 7)
      1
      (λ n. tripwire memory 7 "ada" "allowed" n 60 1)
      empty_world
      (count_window memory 7 "ada" "allowed" 60 1 empty_world).0
      (count_window memory 7 "ada" "allowed" 60 1 empty_world).1
count_window-Ticked_example =
    count_window-Ticked memory memory-IsReliable 7 "ada" "allowed" 60 1 empty_world
