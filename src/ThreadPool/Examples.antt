-- ===== src/ThreadPool/Examples.antt =====
-- A pool of one worker with two tasks, stopped before a third.
use snail_server.Common.{◌≡◌, List, [], ◌∷◌, ◌++◌}
use snail_server.ThreadPool.{new_pool, PoolEvent, pushes, spawns, takes, stops, pool_run}
use snail_server.ThreadPool.Laws.{accepted-pool_run}

abbrev events : List PoolEvent
events = pushes 7 ∷ spawns ∷ pushes 8 ∷ takes ∷ spawns ∷ stops ∷ pushes 9 ∷ []

accepted-pool_run_example :
    (pool_run events (new_pool 1)).started ++ (pool_run events (new_pool 1)).task_queue ≡ 7 ∷ 8 ∷ []
accepted-pool_run_example = accepted-pool_run events 1
