-- ===== src/Chat/Input.antt =====
-- The line that is typed in `c_chat_open` of src/chat.c: what one key does to it, and what is sent.
use itmmorgue.Base.{
  ℕ, zero, suc, ◌+◌, ◌-◌, ◌%◌, ◌^◌, Bool, true, false, ◌&&◌, ◌||◌, List, [], ◌∷◌, ◌++◌, ◌==◌, leb,
  ltb, if◌then◌else◌, Result, ok, stop, undefined, or_undefined, ◌>>=◌, Bytes, codes, c_string,
  length, take, drop, get_elem?, set, replicate,
}
use itmmorgue.Config.Values.{ℤ}
use itmmorgue.Windows.{same_int}
use itmmorgue.Keyboard.{k_window_exit, k_backspace, k_scroll_up, k_scroll_down, k_chat_send}
use itmmorgue.Util.{is_leader}
use itmmorgue.Protocol.Types.{new_chat, get_chat}
use itmmorgue.Protocol.Mqueue.{Mqueue, mqueue_put}

abbrev pub chat_msg_maxlen : ℕ
chat_msg_maxlen = 256

-- `sizeof(input)`
abbrev pub input_size : ℕ
input_size = chat_msg_maxlen + 2

-- The globals `input`, `inputpos` and `scrolloff` of src/chat.c.
pub record Input : Type 0 where
  pub input : Bytes
  pub inputpos : ℕ
  pub scrolloff : ℕ

-- A string with its NUL, written into an array from `pos` on.
unfoldable pub write_string : Bytes → ℕ → Bytes → Result Bytes
write_string a pos s =
    if leb (pos + length s + 1) (length a)
    then ok (take pos a ++ (s ++ (0 ∷ drop (pos + length s + 1) a)))
    else stop undefined

-- `while ((*(input + inputpos) & 0xC0) == 0x80) inputpos--`
unfoldable pub back_up : Bytes → ℕ → Result ℕ
back_up a zero = do c ← or_undefined (get_elem? a 0); if is_leader c then ok 0 else stop undefined
back_up a (suc pos) = do
  c ← or_undefined (get_elem? a (suc pos))
  elim (is_leader c) [ true ↦ ok (suc pos) | false ↦ back_up a pos ]

-- The key K_BACKSPACE: the last character goes, with all its bytes.
unfoldable pub erase : Input → Result Input
unfolding back_up
erase i = if i.inputpos == 0 then ok i else do
  pos ← back_up i.input (i.inputpos - 1)
  ok (record i { input = set i.input pos 0; inputpos = pos })

-- The key K_SCROLL_UP: the difference is a size_t, whatever the height.
unfoldable pub scroll_up : ℕ → ℕ → Input → Input
scroll_up chat_num_lines height i =
    if ltb i.scrolloff ((chat_num_lines + 2 ^ 64 - height) % 2 ^ 64)
    then record i { scrolloff = i.scrolloff + 1 }
    else i

unfoldable pub scroll_down : Input → Input
scroll_down i = if ltb 0 i.scrolloff then record i { scrolloff = i.scrolloff - 1 } else i

-- The key K_CHAT_SEND: a line that is not empty is ended and sent, and the input is cleared.
unfoldable pub send_line : Bytes → Mqueue Bytes → Input → Result (Mqueue Bytes × Input)
send_line nickname q i = if i.inputpos == 0 then ok (q, i) else do
  a ← write_string i.input i.inputpos (b'\n' ∷ [])
  line ← or_undefined (c_string a)
  let buf = codes "<" ++ (nickname ++ (codes "> " ++ line))
  q' ←
      mqueue_put q
        (record { type = new_chat; version = 0; size = length buf + 1; payload = buf ++ (0 ∷ []) })
  ok (q', record i { input = replicate input_size 0; inputpos = 0 })

-- The lines behind the keys. `typed` is the string that mvwgetnstr(3) puts into `buf`, whose size comes from
-- what is left of the input: a size that is not above 0, or too small for the string, is undefined.
unfoldable pub take_typed : Bytes → Input → Result Input
take_typed typed i =
    if leb (input_size - 2) i.inputpos
    then stop undefined
    else if leb (input_size - 2 - i.inputpos) (length typed)
    then stop undefined
    else if length typed == 0
    then ok i
    else do
      old ← or_undefined (c_string (drop i.inputpos i.input))
      a ← write_string i.input (i.inputpos + length old) typed
      text ← or_undefined (c_string a)
      ok (record i { input = a; inputpos = length text })

-- `c_chat_init`, as far as it is about the line and what is asked of the server; the chat is a block of
-- CHAT_MSG_MAXLEN + 1 bytes with an empty string.
unfoldable pub ask_chat : Mqueue Bytes → Result (Mqueue Bytes)
ask_chat q = mqueue_put q (record { type = get_chat; version = 0; size = 0; payload = [] })

-- `last_key == K[k]`
abbrev pub pressed : List ℤ → ℤ → ℕ → Result Bool
pressed keys last_key k = do key ← or_undefined (get_elem? keys k); ok (same_int key last_key)

-- What is left of a round behind a key that changed the line.
abbrev pub typed_behind : Bytes → Mqueue Bytes → Input → Result (Bool × Mqueue Bytes × Input)
typed_behind typed q i = do i' ← take_typed typed i; ok (true, q, i')

-- One round of the loop of `c_chat_open`, from the key on; the result tells whether it goes on. A key for a line
-- that is empty ends the round, and any other key goes to what mvwgetnstr(3) reads.
unfoldable pub chat_round :
    List ℤ → Bytes → ℕ → ℕ → ℤ → Bytes → Mqueue Bytes → Input → Result (Bool × Mqueue Bytes × Input)
chat_round keys nickname chat_num_lines height last_key typed q i = do
  exit ← pressed keys last_key k_window_exit
  up ← pressed keys last_key k_scroll_up
  down ← pressed keys last_key k_scroll_down
  back ← pressed keys last_key k_backspace
  send ← pressed keys last_key k_chat_send
  if exit
      then ok (false, q, i)
      else if up
      then typed_behind typed q (scroll_up chat_num_lines height i)
      else if down
      then typed_behind typed q (scroll_down i)
      else if (back || send) && (i.inputpos == 0)
      then ok (true, q, i)
      else if back
      then (do i' ← erase i; typed_behind typed q i')
      else if send
      then (do r ← send_line nickname q i; typed_behind typed r.0 r.1)
      else typed_behind typed q i
