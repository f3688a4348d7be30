-- ===== src/Server/Tests.antt =====
-- The server program at work.
use mavcam.Prelude.{◌≡◌, refl, Bool, true, false, String, [], ◌∷◌, if◌then◌else◌}
use mavcam.Prelude.Int.{pos}
use mavcam.Server.{
  MavServer, Process, Event, server_address, main, run, step, start_runloop, signal_handler,
  shut_down,
}
use mavcam.Server.Interrupts.{interrupted, open_after, started, after_shut_down, server_ends}

abbrev always : String → Bool
always address = true

abbrev stopped_server : MavServer
stopped_server = record { rpc_port = pos 50051; has_server = false }

address_of_server : server_address stopped_server ≡ "127.0.0.1:50051"
unfolding server_address
address_of_server = refl

served : main always 2 [] (Event.main_thread ∷ Event.interrupt ∷ []) ≡ Process.ended 2
unfolding main
served = refl

-- A client subscribes; the interrupt then waits until the subscription has ended.
server_ends_example :
    let serving =
      Process.waiting
        (record stopped_server { has_server = true })
        (open_after (Event.opens ∷ []) 0) in
    (run always 2 (Event.interrupt ∷ Event.opens ∷ []) (Process.starting stopped_server)
      ≡ Process.crashed)
    × (started always 2 (Event.opens ∷ []) stopped_server
        ≡ (if always (server_address stopped_server) then serving else Process.ended 0))
    × (started always 2 (Event.opens ∷ Event.interrupt ∷ Event.interrupt ∷ []) stopped_server ≡ (
        if always (server_address stopped_server)
        then after_shut_down always 2 (open_after (Event.opens ∷ []) 0) (Event.interrupt ∷ [])
        else Process.ended 0))
unfolding interrupted
server_ends_example =
    server_ends always 2 (pos 50051) (Event.opens ∷ []) (Event.interrupt ∷ []) refl

held_up : started always 2 (Event.opens ∷ Event.interrupt ∷ []) stopped_server ≡ Process.stopping 1
unfolding run step start_runloop signal_handler shut_down
held_up = refl
