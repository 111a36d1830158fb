-- ===== src/Base/Outcome.antt =====
-- How a call of the program can end. `panic` and `exit` stop the process (src/itmmorgue.c), and an
-- access outside an object or through a freed pointer has no defined result.
use mathlib.Core.Path.{◌≡◌, refl}
use mathlib.Core.Option.{Option, none, some}

-- The messages of the `panic` calls that the modelled code makes.
pub data Message : Type 0 where
  invalid_position mqueue_overflow : Message
  invalid_direction illegal_event invalid_move error_sending : Message
  recursion_depth invalid_file stat_failed invalid_size open_failed parse_error : Message
  value_error illegal_option unable_to_put invalid_conf : Message
  windows_inconsistency window_creation invalid_window : Message
  sending_in_worker server_disconnected menu_window : Message
  generator_not_run generator_not_read splash_window : Message
  server_running event_thread server_socket server_option server_bind server_backlog : Message
  server_chat server_process signal_mask server_done server_gone client_disconnected : Message

pub data Stop : Type 0 where
  panic : Message → Stop
  exit_success : Stop
  undefined : Stop
  -- The fuel of a loop over a linked list ran out.
  out_of_fuel : Stop

pub data Result {ℓ} (A : Type ℓ) : Type ℓ where
  ok : A → Result A
  stop : Stop → Result A

infixl 5 ◌>>=◌
abbrev pub ◌>>=◌ {ℓ κ} : {A : Type ℓ} {C : Type κ} → Result A → (A → Result C) → Result C
stop why >>= k = stop why
ok x >>= k = k x

-- A read that is out of range or through a dangling pointer.
abbrev pub or_undefined {ℓ} : {A : Type ℓ} → Option A → Result A
or_undefined none = stop undefined
or_undefined (some a) = ok a

-- A chain that succeeds succeeds at each of its links.
module _ {ℓ κ} {A : Type ℓ} {C : Type κ} where
  pub >>=-eq-ok :
      (r : Result A) (k : A → Result C) {y : C}
      → (r >>= k) ≡ ok y
      → (x : A) × (r ≡ ok x) × (k x ≡ ok y)
  >>=-eq-ok (stop why) k e = cc
  >>=-eq-ok (ok x) k e = (x, refl, e)

pub same_ok {ℓ} : {A : Type ℓ} {x y : A} → ok x ≡ ok y → x ≡ y
same_ok e = cc e
