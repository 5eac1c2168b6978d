-- ===== src/Callbacks/AddTwoInts/Tests.antt =====
-- The request of the client program, and one whose operands do not fit an int.
use micro_ros_demos.Prelude.{◌-◌, ◌^◌, ◌≡◌, ◌↔◌, refl, [], ◌∷◌, some}
use micro_ros_demos.Prelude.Int.{pos, negsuc, Fits}
use micro_ros_demos.Callbacks.AddTwoInts.{Request, Server, service_callback, client_callback}
use micro_ros_demos.Callbacks.AddTwoInts.Exchange.{service_callback_lem}

abbrev request : Request
request = record { a = pos 24; b = pos 42 }

abbrev large : Request
large = record { a = pos (2 ^ 31); b = negsuc 0 }

abbrev silent : Server
silent = record { lines = []; sums = [] }

answered :
    service_callback request silent
    ≡ some (record { lines = (pos 24, pos 42) ∷ []; sums = pos 66 ∷ [] })
unfolding service_callback
answered = refl

shown_negative :
    service_callback large silent
    ≡ some (record { lines = (negsuc (2 ^ 31 - 1), negsuc 0) ∷ []; sums = pos (2 ^ 31 - 1) ∷ [] })
unfolding service_callback
shown_negative = refl

printed : client_callback request (pos 66) ≡ (pos 24, pos 42, pos 66)
unfolding client_callback
printed = refl

both_fit :
    Fits (2 ^ 63) (pos 66)
    → (s' : Server) × (service_callback request silent ≡ some s')
      × (s'.sums ≡ pos 66 ∷ [])
      × ((s'.lines ≡ (pos 24, pos 42) ∷ []) ↔ (Fits (2 ^ 31) (pos 24) × Fits (2 ^ 31) (pos 42)))
both_fit = (service_callback_lem request silent).0
