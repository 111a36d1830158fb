-- ===== src/Server/System/Sending.antt =====
-- What src/server.c queues leaves the list of the connections as it is, and the players and queues sound.
use Prim.Native.Nat.{bit_and}
use itmmorgue.Base.{
  ℕ, zero, suc, ◌+◌, Option, none, some, Bytes, ◌==◌, Result, ok, or_undefined, get_elem?, refl,
  ◌≡◌, Bool, true, false, leb, ◌*◌, length, take, stop, undefined, if◌then◌else◌,
}
use itmmorgue.Protocol.Types.{Mbuf, put_sysmsg}
use mathlib.Core.Path.{subst}
use itmmorgue.Protocol.Mqueue.{Mqueue, mqueue_put}
use itmmorgue.Player.{player_at}
use itmmorgue.World.{World, Payload, connection_at, enqueue, text_message}
use itmmorgue.Server.Send.{
  logged, send_sysmsg, s_send_players_full, s_area_send, s_level_send, active,
}
use itmmorgue.Server.Connections.{for_each}
use itmmorgue.Server.Handle.{send_all_full}
use itmmorgue.Server.System.Sound.{SoundQueue, mqueue_put-some}
use itmmorgue.Server.System.Kept.{
  Steady-refl, Kept, Kept-eq, Kept-connection, put_connection-Steady, or_undefined-some, Kept-ok,
  Kept-if, Kept-stop, Kept-value, Kept-bind,
}

-- A call that returns the new world alone.
abbrev pub Keeps : World → Result World → Type 0
Keeps = Kept (λ w. w)

put-SoundQueue :
    (o : Option (Mqueue Payload)) (q q' : Mqueue Payload) (m : Mbuf Payload)
    → o ≡ some q
    → mqueue_put q m ≡ ok q'
    → SoundQueue o
    → SoundQueue (some q')
put-SoundQueue o q q' m is put s =
    let (xs, h) = subst SoundQueue is s in mqueue_put-some q q' m xs h put

pub enqueue-Keeps : (w : World) (a : ℕ) (m : Mbuf Payload) → Keeps w (enqueue w a m)
unfolding enqueue
enqueue-Keeps w a m = Kept-connection {w = w} w a _ (λ c at.
    Kept-eq (or_undefined c.mqueueptr) _ (λ q is. Kept-eq (mqueue_put q m) _ (λ q' put.
      Kept-ok (λ w. w)
        (put_connection-Steady w a c (record c { mqueueptr = some q' }) at refl refl
          (put-SoundQueue c.mqueueptr q q' m (or_undefined-some c.mqueueptr is) put)))))

enqueue-logged-Keeps :
    (b : Bool) (w : World) (a : ℕ) (m : Mbuf Payload)
    → Keeps w (enqueue (if b then logged w else w) a m)
enqueue-logged-Keeps true w a m = enqueue-Keeps w a m
enqueue-logged-Keeps false w a m = enqueue-Keeps w a m

pub send_sysmsg-Keeps :
    (w : World) (a : Option ℕ) (type : ℕ) (msg : Bytes) → Keeps w (send_sysmsg w a type msg)
unfolding send_sysmsg
send_sysmsg-Keeps w none type msg = Kept-ok (λ w. w) (Steady-refl w)
send_sysmsg-Keeps w (some a) type msg =
    Kept-value (connection_at w a) _ (λ c.
      enqueue-logged-Keeps (bit_and type c.sysmsg_mask == 0) w a (text_message put_sysmsg msg))

pub s_send_players_full-Keeps : (w : World) (id : ℕ) → Keeps w (s_send_players_full w id)
unfolding s_send_players_full
s_send_players_full-Keeps w id = Kept-value (player_at w.roster id) _ (λ p.
    Kept-if (p.connected == 0) (Kept-ok (λ w. w) (Steady-refl w)) (
      Kept-value (active w) _
        (λ ps. Kept-value (or_undefined p.connection) _ (λ a. enqueue-Keeps w a _))))

pub s_level_send-Keeps : (w : World) (i id : ℕ) → Keeps w (s_level_send w i id)
unfolding s_level_send
s_level_send-Keeps w i id = Kept-value (or_undefined (get_elem? w.levels i)) _ (λ l.
    Kept-value (player_at w.roster id) _
      (λ p. Kept-value (or_undefined p.connection) _ (λ a. enqueue-Keeps w a _)))

pub s_area_send-Keeps : (w : World) (i id : ℕ) → Keeps w (s_area_send w i id)
unfolding s_area_send
s_area_send-Keeps w i id = Kept-value (or_undefined (get_elem? w.levels i)) _ (λ l.
    Kept-value (player_at w.roster id) _ (λ p.
      Kept-value
        (if leb (l.max_y * l.max_x) (length l.area)
          then ok (take (l.max_y * l.max_x) l.area)
          else stop undefined)
        _ (λ ts. Kept-value (or_undefined p.connection) _ (λ a. enqueue-Keeps w a _))))

pub send_all_full-Keeps : (n i : ℕ) (w : World) → Keeps w (send_all_full n i w)
unfolding send_all_full
send_all_full-Keeps zero i w = Kept-ok (λ w. w) (Steady-refl w)
send_all_full-Keeps (suc n) i w =
    Kept-bind (λ w. w) (s_send_players_full w i) _ (s_send_players_full-Keeps w i)
      (λ w'. send_all_full-Keeps n (i + 1) w')

pub for_each-Keeps :
    (fuel : ℕ) (body : World → ℕ → Result World)
    → ((w : World) (a : ℕ) → Keeps w (body w a))
    → (curr : Option ℕ) (w : World) → Keeps w (for_each fuel body curr w)
unfolding for_each
for_each-Keeps zero body h curr w = Kept-stop (λ w. w)
for_each-Keeps (suc n) body h none w = Kept-ok (λ w. w) (Steady-refl w)
for_each-Keeps (suc n) body h (some a) w =
    Kept-bind (λ w. w) (body w a) _ (h w a)
      (λ w'. Kept-value (connection_at w' a) _ (λ c. for_each-Keeps n body h c.next w'))
