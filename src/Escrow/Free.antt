-- ===== src/Escrow/Free.antt =====
-- pkg/escrow/escrow.go: the escrow that makes all reservations free.
use tfexplorer.Base.{List, []}
use tfexplorer.Base.Text.{Text}
use tfexplorer.Models.Workloads.{pay, deploy, Reservation, action_eq}
use tfexplorer.Escrow.Types.{CustomerEscrowInformation}
use tfexplorer.Escrow.Service.{EscrowError, other_error}
use tfexplorer.World.{env_store, set_next_action, Exec, pure, write, when, ◌>>◌}

abbrev no_details : CustomerEscrowInformation
no_details = record { address = []; asset = []; details = [] }

-- Free.RegisterReservation: a reservation that awaits payment is stored in the deploy state. Its
-- workloads are not handed to the nodes here.
unfoldable pub register_free : Reservation → List Text → Exec EscrowError CustomerEscrowInformation
register_free r currencies = do
  when (action_eq r.next_action pay) (write other_error (set_next_action r.id deploy))
  pure no_details
