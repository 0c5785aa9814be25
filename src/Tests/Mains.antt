-- ===== src/Tests/Mains.antt =====
-- The theorem on the program of a node, with a receiver that opens at every address.
use dag_rider.Prelude.{◌≡◌, ◌≢◌, refl, [], ◌∷◌, true, some}
use dag_rider.Model.Validator.{Platform, any_address}
use dag_rider.Network.Receiver.Listening.{accepted, failed, ended}
use dag_rider.Node.Client.{Ended, send, create}
use dag_rider.Node.Main.{main, main-waits}
use dag_rider.Tests.Samples.{plain}

abbrev platform : Platform
platform = record {
  public_key = λ secret. secret;
  make_address = λ text. some 0;
  show_address = λ address. any_address;
  iterate = λ m. m;
}

accepted≢failed : accepted ≢ failed
accepted≢failed e = absurd cc

ended≢failed : ended ≢ failed
ended≢failed e = absurd cc

abbrev connected : Ended
connected = record { ok = true; bytes = [] }

main-waits_example :
    main plain platform
      (λ e. true)
      2
      any_address
      (create 9 9)
      (accepted ∷ ended ∷ [])
      (connected ∷ connected ∷ [])
    ≡ some (send (create 9 9))
main-waits_example =
    main-waits plain platform (λ e. true) 2 any_address (create 9 9) 0 0 (accepted ∷ ended ∷ [])
      (connected ∷ connected ∷ []) refl refl refl (accepted≢failed, (ended≢failed, tt))
