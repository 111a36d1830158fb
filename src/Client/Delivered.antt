-- ===== src/Client/Delivered.antt =====
-- What waits in the client's queue is what the server reads: `worker` of src/client.c, `send_mbuf` of
-- src/protocol.c, and `process_client` of src/server.c.
use itmmorgue.Base.{ℕ, ◌<◌, ◌≡◌, false, Bool, List, [], ◌++◌, ok, Bytes, length}
use itmmorgue.Protocol.Types.{Mbuf}
use itmmorgue.Protocol.Mqueue.{Mqueue}
use itmmorgue.Protocol.Mqueue.Inv.{Holds}
use itmmorgue.Util.{Chunk}
use itmmorgue.Server.Reading.{read_messages}
use itmmorgue.Server.Reading.Arrives.{AllSent, taken, read_messages-sent}
use itmmorgue.Client.{send_all}
use itmmorgue.Client.Arrive.{send_all-Holds}

-- Where the client's queue holds messages of types that the server knows, each with a payload of
-- its size, below 2^64, where no write fails or is cut short, and with fuel above the number of the
-- messages: the worker's loop sends them all, oldest first, and its queue is empty. However read(2)
-- cuts what `send_mbuf` wrote of them into answers, and whatever answers follow, the server then
-- reads these messages in this order, with their types, sizes and payloads, and leaves those
-- answers.
pub send_all-read_messages :
    (n : ℕ) (fails : Mbuf Bytes → Bool) (q : Mqueue Bytes) (ms : List (Mbuf Bytes))
    (answers rest : List Chunk)
    → ((m : Mbuf Bytes) → fails m ≡ false)
    → length ms < n
    → Holds q ms
    → AllSent ms answers
    → (q' : Mqueue Bytes) × (send_all n fails q ≡ ok (ms, q'))
      × Holds q' []
      × (read_messages (length ms) (answers ++ rest) ≡ ok (taken ms, rest))
send_all-read_messages n fails q ms answers rest sent enough holds all =
    let (q', e, empty) = send_all-Holds n fails q ms sent enough holds in
    (q', e, empty, read_messages-sent ms answers rest all)
