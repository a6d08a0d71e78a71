-- ===== src/Connections/Examples.antt =====
-- Examples for the connections (src/app/domains/copy_trading/metaapi_connections.py).
use signalsync_be.Base.{◌≡◌, ◌≤◌, ◌⊎◌, true, false, none, List, [], ◌∷◌, any, length, select, arith}
use signalsync_be.Connections.{
  Event, acquired, stored, failed, finished, evicted, start, is_connecting, run_all,
}
use signalsync_be.Connections.Single.{while_opening, closing_race, run_all-single, closing_race-two}

-- Two requests share a task, the connection is lost, and a request opens another.
abbrev events : List Event
events =
    acquired true 10
    ∷ acquired true 11
    ∷ stored 0 12
    ∷ finished 0
    ∷ acquired false 20
    ∷ failed 1
    ∷ acquired true 21
    ∷ finished 1
    ∷ evicted 15
    ∷ []

run_all-single_example :
    (length (run_all events start).tasks ≤ 1)
    × ((any is_connecting (run_all events start).tasks ≡ false)
        ⊎ ((run_all events start).entry ≡ none))
run_all-single_example =
    run_all-single events (tt, (tt, (tt, (tt, (tt, (tt, (tt, (tt, (tt, tt)))))))))

closing_race-two_example :
    length (select is_connecting (run_all (closing_race 4 100) (while_opening 4 5 [])).tasks) ≡ 2
closing_race-two_example = closing_race-two 4 100 5 [] (omega arith)
