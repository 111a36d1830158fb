-- ===== src/Server/System/Run.antt =====
-- Runs of the server of src/server.c and src/event.c in which each step of a thread runs to its end before
-- another step begins. The code does not enforce this: no mutex guards the list of the connections and the
-- players (`close_connection` says so), and runs in which such steps overlap in time are not covered.
use mathlib.Core.Path.{subst}
use itmmorgue.Base.{
  same_ok, ℕ, ◌≡◌, true, false, Bool, Option, none, some, List, Result, ok, ◌>>=◌, >>=-eq-ok, leb,
  ◌+◌, Bool-cases, inl, inr,
}
use itmmorgue.Protocol.Types.{Mbuf, MsgType, report_nickname, get_chat, new_chat}
use itmmorgue.Player.{player_name_maxlen}
use itmmorgue.Event.Loop.{event_loop}
use itmmorgue.World.{World, Payload, enqueue}
use itmmorgue.Server.Connections.{accept_client, close_connection}
use itmmorgue.Server.Leave.{player_connected_off}
use itmmorgue.Protocol.Wire.{Written}
use itmmorgue.Server.Client.{Client, start_client, handle_start, drain}
use itmmorgue.Server.Handle.{
  Incoming, leave, refuse_nickname, handle_nickname, handle_get_chat, handle_new_chat,
}
use itmmorgue.Server.Round.{is_known, log_payload, dispatch, after_dispatch, handle}
use itmmorgue.Server.System.Sound.{SoundRoster}
use itmmorgue.Server.System.Kept.{Steady}
use itmmorgue.Server.System.Sending.{enqueue-Keeps}
use itmmorgue.Server.System.Steps.{
  player_connected_off-Keeps, start_client-Kept, handle_start-Keeps, drain-Kept, event_loop-Keeps,
}
use itmmorgue.Server.System.Messages.{
  join-Kept, handle_get_chat-Keeps, handle_new_chat-Keeps, after_dispatch-Keeps,
}
use itmmorgue.Server.System.Listed.{
  Listed, Whole, IsEmpty, IsEmpty-Listed, IsEmpty-Sound, Steady-Whole, close_connection-Whole,
  accept_client-Whole,
}

-- One step of a thread, if it succeeds: the accept loop's round, for an address that is not in use; the
-- lines of a client's thread before its loop; the parts of its round; its end when reading fails; and the
-- playing of a turn.
pub data Step : World → World → Type 0 where
  accepts :
      {w w' : World} (a socket : ℕ)
      → w.connections a ≡ none
      → accept_client w a socket ≡ ok w'
      → Step w w'
  begins : {w w' : World} {c : Client} (a : ℕ) → start_client w a ≡ ok (w', c) → Step w w'
  starts : {w w' : World} (c : Client) → handle_start w c ≡ ok w' → Step w w'
  writes :
      {w w' : World} {ms : List (Mbuf Payload)} (n : ℕ) (send : Mbuf Payload → Written) (a : ℕ)
      → drain n send w a ≡ ok (ms, w')
      → Step w w'
  receives :
      {w w' : World} {next : Option Client} (fuel : ℕ) (c : Client) (m : Incoming)
      → handle fuel w c m ≡ ok (w', next)
      → Step w w'
  ends : {w w' : World} {next : Option Client} (c : Client) → leave w c ≡ ok (w', next) → Step w w'
  plays : {w w' : World} → event_loop w ≡ ok w' → Step w w'

pub data Reach (w : World) : World → Type 0 where
  here : Reach w w
  next : {u v : World} → Reach w u → Step u v → Reach w v

module _ {A : Type 0} where
  leave-Whole :
      (w : World) (c : Client) (r : World × Option Client)
      → leave w c ≡ ok r
      → Whole A w
      → Whole A r.0
  unfolding leave
  leave-Whole w c r e l =
      let (w₁, e₁, rest) = >>=-eq-ok (player_connected_off w c.id) _ e in
      let (w₂, e₂, last) = >>=-eq-ok (close_connection w₁ (some c.connection)) _ rest in
      let closed =
        close_connection-Whole w₁ w₂ c.connection e₂
          (Steady-Whole (player_connected_off-Keeps w c.id w₁ e₁) l) in
      subst (λ (p : World × Option Client). Whole A p.0) (same_ok last) closed

  refuse_nickname-Whole :
      (w : World) (c : Client) (r : World × Option Client)
      → refuse_nickname w c ≡ ok r
      → Whole A w
      → Whole A r.0
  unfolding refuse_nickname
  refuse_nickname-Whole w c r e l =
      let (w₁, e₁, rest) = >>=-eq-ok (enqueue w c.connection _) _ e in
      leave-Whole w₁ c r rest (Steady-Whole (enqueue-Keeps w c.connection _ w₁ e₁) l)

  handle_nickname-Whole :
      (fuel : ℕ) (w : World) (c : Client) (m : Incoming) (r : World × Option Client)
      → handle_nickname fuel w c m ≡ ok r
      → Whole A w
      → Whole A r.0
  unfolding handle_nickname
  handle_nickname-Whole fuel w c m r e l = elim (Bool-cases (leb (player_name_maxlen + 1) m.size)) [
    | inl long ↦ refuse_nickname-Whole w c r (rw long at e) l
    | inr short ↦ Steady-Whole (join-Kept fuel w c m.payload m.size r (rw short at e)) l
  ]

  -- The world is what the client's message made of it, with the client as it was.
  Kept-Whole :
      {w : World} (c : Client) (x : Result World) (r : World × Option Client)
      → (x >>= λ w'. ok (w', some c)) ≡ ok r
      → ((w' : World) → x ≡ ok w' → Steady w w')
      → Whole A w
      → Whole A r.0
  Kept-Whole c x r e keeps l =
      let (w', e₁, last) = >>=-eq-ok x (λ w'. ok (w', some c)) e in
      subst (λ (p : World × Option Client). Whole A p.0) (same_ok last)
        (Steady-Whole (keeps w' e₁) l)

  dispatch-Whole :
      (fuel : ℕ) (w : World) (c : Client) (m : Incoming) (r : World × Option Client)
      → dispatch fuel w c m ≡ ok r
      → Whole A w
      → Whole A r.0
  unfolding dispatch
  dispatch-Whole fuel w c m r e l = go m.type e
    where
      go :
          (t : MsgType)
          → (elim t [
            | report_nickname ↦ handle_nickname fuel w c m
            | get_chat ↦ do w' ← handle_get_chat w c; ok (w', some c)
            | new_chat ↦ do w' ← handle_new_chat fuel w c m; ok (w', some c)
            | _ ↦ ok (w, some c)
          ])
            ≡ ok r
          → Whole A r.0
      go report_nickname e = handle_nickname-Whole fuel w c m r e l
      go get_chat e = Kept-Whole c (handle_get_chat w c) r e (handle_get_chat-Keeps w c) l
      go new_chat e =
          Kept-Whole c (handle_new_chat fuel w c m) r e (handle_new_chat-Keeps fuel w c m) l
      go _ e = subst (λ (p : World × Option Client). Whole A p.0) (same_ok e) l

  handle-Whole :
      (fuel : ℕ) (w : World) (c : Client) (m : Incoming) (r : World × Option Client)
      → handle fuel w c m ≡ ok r
      → Whole A w
      → Whole A r.0
  unfolding handle
  handle-Whole fuel w c m r e l = go (is_known m.type) e
    where
      answered :
          (w₁ : World) (left : Option Client)
          → Whole A w₁
          → (elim left [
            | none ↦ ok (w₁, none)
            | some c' ↦ do w₂ ← after_dispatch w₁ c' m; ok (w₂, some c')
          ])
            ≡ ok r
          → Whole A r.0
      answered w₁ none l₁ e₁ = subst (λ (p : World × Option Client). Whole A p.0) (same_ok e₁) l₁
      answered w₁ (some c') l₁ e₁ =
          Kept-Whole c' (after_dispatch w₁ c' m) r e₁ (after_dispatch-Keeps w₁ c' m) l₁

      go :
          (b : Bool)
          → (elim b [
            | false ↦ ok (w, some c)
            | true ↦ do
              logged ← log_payload m
              (w₁, left) ← dispatch fuel w c m
              elim left [
                | none ↦ ok (w₁, none)
                | some c' ↦ do w₂ ← after_dispatch w₁ c' m; ok (w₂, some c')
              ]
          ])
            ≡ ok r
          → Whole A r.0
      go false e₁ = subst (λ (p : World × Option Client). Whole A p.0) (same_ok e₁) l
      go true e₁ =
          let (u, e₂, r₂) = >>=-eq-ok (log_payload m) _ e₁ in
          let (d, e₃, r₃) = >>=-eq-ok (dispatch fuel w c m) _ r₂ in
          answered d.0 d.1 (dispatch-Whole fuel w c m d e₃ l) r₃

  Step-Whole : {w w' : World} → Step w w' → Whole A w → Whole A w'
  Step-Whole {w} {w'} (accepts a socket unused e) l = accept_client-Whole w w' a socket l unused e
  Step-Whole {w} {w'} (begins {c} a e) l = Steady-Whole (start_client-Kept w a (w', c) e) l
  Step-Whole {w} {w'} (starts c e) l = Steady-Whole (handle_start-Keeps w c w' e) l
  Step-Whole {w} {w'} (writes {ms} n send a e) l = Steady-Whole (drain-Kept n send w a (ms, w') e) l
  Step-Whole {w} {w'} (receives {next = r} fuel c m e) l = handle-Whole fuel w c m (w', r) e l
  Step-Whole {w} {w'} (ends {next = r} c e) l = leave-Whole w c (w', r) e l
  Step-Whole {w} {w'} (plays e) l = Steady-Whole (event_loop-Keeps w w' e) l

-- Where the server starts with sound players, the players and queues are sound behind any steps.
pub Reach-Whole : {w w' : World} → IsEmpty w → Reach w w' → Whole (SoundRoster w.roster) w'
Reach-Whole e here = record { listed = IsEmpty-Listed e; sound = IsEmpty-Sound e }
Reach-Whole e (next r step) = Step-Whole step (Reach-Whole e r)

-- Behind whatever successful steps of the threads of the server, of which no two overlap in time,
-- from its start without connections: the doubly linked list of the connections is whole, holds
-- each of its connections once, and holds every connection that is on the heap.
pub Reach-Listed : {w w' : World} → IsEmpty w → Reach w w' → Listed w'
Reach-Listed e r = (Reach-Whole e r).listed
