-- ===== src/Server/Connections.antt =====
-- The list of the connections in src/server.c: what the accept loop of `server` does for one client,
-- and `close_connection`.
use itmmorgue.Base.{
  ℕ, suc, zero, Option, none, some, ◌==◌, ◌^◌, ◌-◌, if◌then◌else◌, Result, ok, stop, out_of_fuel,
  or_undefined, ◌>>=◌,
}
use itmmorgue.World.{World, connection_at, put_connection}

-- `last_connection->next = connection`, with the rest of the linking.
unfoldable pub link : World → ℕ → ℕ → Result World
link w a socket = elim w.first_connection [
  | none ↦
      ok
        (record (put_connection w a (record {
          socket = socket;
          sysmsg_mask = 2 ^ 32 - 1;
          mqueueptr = none;
          prev = none;
          next = none;
        })) { first_connection = some a; last_connection = some a })
  | some _ ↦ do
    l ← or_undefined w.last_connection
    last ← connection_at w l
    let w' = put_connection w l (record last { next = some a })
    ok
        (record (put_connection w' a (record {
          socket = socket;
          sysmsg_mask = 2 ^ 32 - 1;
          mqueueptr = none;
          prev = some l;
          next = none;
        })) { last_connection = some a })
]

-- One round of the accept loop. `a` is the address that malloc returns. After the start a client is
-- turned away while nobody is missing, and else the resurrection phase begins.
unfoldable pub accept_client : World → ℕ → ℕ → Result World
unfolding link
accept_client w a socket =
    if w.start == 0
    then link w a socket
    else if w.players_len == w.players_total
    then ok w
    else link (record w { start = 3 }) a socket

-- `p->next = n` and `p->prev = n`
abbrev pub set_next : World → Option ℕ → Option ℕ → Result World
set_next w none n = ok (record w { first_connection = n })
set_next w (some b) n = do c ← connection_at w b; ok (put_connection w b (record c { next = n }))

abbrev pub set_prev : World → Option ℕ → Option ℕ → Result World
set_prev w none p = ok (record w { last_connection = p })
set_prev w (some b) p = do c ← connection_at w b; ok (put_connection w b (record c { prev = p }))

-- Unlink on both sides (the ends of the list stand in the globals), then free.
unfoldable pub close_connection : World → Option ℕ → Result World
close_connection w none = ok w
close_connection w (some a) = do
  c ← connection_at w a
  w₁ ← set_next w c.prev c.next
  w₂ ← set_prev w₁ c.next c.prev
  ok (record w₂ { connections = λ b. if b == a then none else w₂.connections b })

-- `for (curr = first_connection; curr; curr = curr->next)`
unfoldable pub for_each : ℕ → (World → ℕ → Result World) → Option ℕ → World → Result World
for_each zero body curr w = stop out_of_fuel
for_each (suc n) body none w = ok w
for_each (suc n) body (some a) w = do
  w' ← body w a
  c ← connection_at w' a
  for_each n body c.next w'
