-- ===== src/Server/Setup/Runs.antt =====
-- What holds in every run of the server of src/server.c from its start on.
use itmmorgue.Base.{ℕ, zero, suc, ◌≤◌, ◌≡◌, refl, arith, ok, get_elem?}
use itmmorgue.Player.{Roster, max_players}
use itmmorgue.Event.{apply_from}
use itmmorgue.Level.{Level}
use itmmorgue.World.{World}
use itmmorgue.Server.System.Sound.{SoundPlayer, SoundSlot, SoundRoster}
use itmmorgue.Server.System.Listed.{Listed, IsEmpty}
use itmmorgue.Server.System.Run.{Reach, Reach-Listed}
use itmmorgue.Server.System.Turns.{Reach-turn, Bounded}
use itmmorgue.Server.Setup.{no_player, first_world}

no_player-Sound : (j : ℕ) → SoundPlayer j no_player
no_player-Sound j = record {
  named = refl;
  in_range = record { y_in = omega arith; x_in = omega arith };
  can_apply = tt;
}

first_slots : (l : Level) (j : ℕ) → SoundSlot j (get_elem? (first_world l).players j)
first_slots l zero = no_player-Sound 0
first_slots l (suc zero) = no_player-Sound 1
first_slots l (suc (suc zero)) = no_player-Sound 2
first_slots l (suc (suc (suc zero))) = no_player-Sound 3
first_slots l (suc (suc (suc (suc zero)))) = no_player-Sound 4
first_slots l (suc (suc (suc (suc (suc j))))) = tt

first_world-IsEmpty : (l : Level) → IsEmpty (first_world l)
first_world-IsEmpty l = record { no_first = refl; no_last = refl; no_connection = λ a. refl }

first_world-SoundRoster : (l : Level) → SoundRoster (first_world l).roster
first_world-SoundRoster l = record { slots = refl; len_in = omega arith; each = first_slots l }

-- Behind whatever successful steps the threads of the server take from the start of its accept loop
-- on, of which no two overlap in time (no mutex of the code sees to that), and whatever its clients
-- send: the list of the connections is whole and holds every connection on the heap, at most five
-- players count, a turn can apply what is pending for each of them, and the queue of each
-- connection that has one holds a list of messages, at most 127.
pub first_world-Reach :
    {w : World} (l : Level)
    → Reach (first_world l) w
    → Listed w
      × (w.players_len ≤ max_players)
      × ((r : Roster) × (apply_from w.players_len 0 w.roster ≡ ok r))
      × ((a : ℕ) → Bounded (w.connections a))
first_world-Reach l r =
    let (few, turn, queues) = Reach-turn (first_world-IsEmpty l) (first_world-SoundRoster l) r in
    (Reach-Listed (first_world-IsEmpty l) r, few, turn, queues)
