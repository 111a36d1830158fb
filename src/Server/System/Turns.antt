-- ===== src/Server/System/Turns.antt =====
-- What src/event.c and the queues of src/protocol.c rely on holds in every state that the server reaches.
use itmmorgue.Base.{Option, none, ℕ, ◌≤◌, ◌≡◌, some, List, ok, length, arith}
use itmmorgue.Protocol.Types.{Mbuf}
use itmmorgue.Protocol.Fifo.{capacity}
use itmmorgue.Protocol.Mqueue.{Mqueue}
use itmmorgue.Protocol.Mqueue.Inv.{Holds}
use itmmorgue.Player.{Roster, max_players}
use itmmorgue.Event.{apply_from}
use itmmorgue.Event.Turn.{apply_from-Turned}
use itmmorgue.World.{World, Connection, Payload}
use itmmorgue.Server.System.Sound.{SoundRoster, SoundQueue, SoundCore, core}
use itmmorgue.Server.System.Rosters.{SoundRoster-Ready}
use itmmorgue.Server.System.Listed.{IsEmpty}
use itmmorgue.Server.System.Run.{Reach, Reach-Whole}

-- A queue that was initialised holds a list of messages, at most 127.
abbrev pub BoundedQueue : Option (Mqueue Payload) → Type 0
BoundedQueue none = Unit
BoundedQueue (some q) = (ms : List (Mbuf Payload)) × Holds q ms × (length ms ≤ capacity)

abbrev pub Bounded : Option Connection → Type 0
Bounded none = Unit
Bounded (some c) = BoundedQueue c.mqueueptr

bounded_queue : (q : Option (Mqueue Payload)) → SoundQueue q → BoundedQueue q
bounded_queue none h = tt
bounded_queue (some q) (ms, holds) = (ms, holds, holds.fits)

bounded : (o : Option Connection) → SoundCore (core o) → Bounded o
bounded none h = tt
bounded (some c) h = bounded_queue c.mqueueptr h

-- Where the server starts without connections and with the five slots of the players in order, then
-- behind whatever successful steps of its threads, of which no two overlap in time, and whatever
-- its clients sent: at most five players count, a turn can apply what is pending for each of them,
-- and the queue of each connection that has one holds a list of messages, at most 127.
pub Reach-turn :
    {w w' : World}
    → IsEmpty w
    → SoundRoster w.roster
    → Reach w w'
    → (w'.players_len ≤ max_players)
      × ((r : Roster) × (apply_from w'.players_len 0 w'.roster ≡ ok r))
      × ((a : ℕ) → Bounded (w'.connections a))
Reach-turn {w} {w'} e s r =
    let sound = (Reach-Whole e r).sound s in
    let (v, applies, t) =
      apply_from-Turned w'.players_len 0 w'.roster
        (λ j le lt. SoundRoster-Ready sound.roster j (omega arith)) in
    (sound.roster.len_in, (v, applies), λ a. bounded (w'.connections a) (sound.queues a))
