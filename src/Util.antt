-- ===== src/Util.antt =====
-- The helpers of src/itmmorgue.c that compute: the lengths of UTF-8 texts, and `readall`.
pub mod Lengths
pub mod Reading
use Prim.Native.Nat.{bit_and}
use itmmorgue.Base.{
  ℕ, zero, suc, ◌+◌, ◌-◌, ◌^◌, Bool, true, false, Option, none, some, List, [], ◌∷◌, ◌++◌, ◌==◌,
  not, if◌then◌else◌, Result, ok, stop, undefined, out_of_fuel, ◌>>=◌, length, Bytes,
}

-- `(c & 0xC0) != 0x80`: the byte starts a character.
unfoldable pub is_leader : ℕ → Bool
is_leader c = not (bit_and c 192 == 128)

-- The test behind the loop: `*endp` is set where the text goes on at `pos`.
unfoldable pub set_end : Bytes → ℕ → ℕ → Result (ℕ × Option ℕ)
set_end [] len pos = stop undefined
set_end (c ∷ cs) len pos = ok (len, if c == 0 then none else some pos)

-- The loop of `anystrnplen` from index `pos` on: it takes `maxlen` bytes at most. The second result is
-- what `*endp` is set to, as an index, or `none` where it is left alone.
unfoldable pub nplen_from : Bytes → ℕ → ℕ → ℕ → Result (ℕ × Option ℕ)
unfolding set_end
nplen_from str zero len pos = set_end str len pos
nplen_from [] (suc maxlen) len pos = stop undefined
nplen_from (c ∷ cs) (suc maxlen) len pos = elim (c == 0) [
  | true ↦ ok (len, none)
  | false ↦ nplen_from cs maxlen (if is_leader c then len + 1 else len) (pos + 1)
]

unfoldable pub anystrnplen : Bytes → ℕ → Result (ℕ × Option ℕ)
anystrnplen str maxlen = nplen_from str maxlen 0 0

-- `anystrnlen` and `anystrlen`
abbrev pub anystrnlen : Bytes → ℕ → Result ℕ
anystrnlen str maxlen = do r ← anystrnplen str maxlen; ok r.0

abbrev pub anystrlen : Bytes → Result ℕ
anystrlen str = anystrnlen str (2 ^ 32 - 1)

-- The loop of `anystrunplen`: only the start of a character uses `maxlen` up.
unfoldable pub unplen_from : Bytes → ℕ → ℕ → ℕ → ℕ → Result (ℕ × Option ℕ)
unplen_from [] zero len pos last_sym = stop undefined
unplen_from (c ∷ cs) zero len pos last_sym = ok (len, if c == 0 then none else some last_sym)
unplen_from [] (suc maxlen) len pos last_sym = stop undefined
unplen_from (c ∷ cs) (suc maxlen) len pos last_sym = elim (c == 0) [
  | true ↦ ok (len, none)
  | false ↦ elim (is_leader c) [
    | true ↦ unplen_from cs maxlen (len + 1) (pos + 1) pos
    | false ↦ unplen_from cs (suc maxlen) len (pos + 1) last_sym
  ]
]

unfoldable pub anystrunplen : Bytes → ℕ → Result (ℕ × Option ℕ)
anystrunplen str maxlen = unplen_from str maxlen 0 0 0

-- What read(2) answers: an error or the end of the input, or some bytes, a first one and the rest.
pub data Chunk : Type 0 where
  no_more : Chunk
  got : ℕ → Bytes → Chunk

-- What `readall` returns: -1, or the size and the buffer.
pub data ReadAll : Type 0 where
  read_failed : ReadAll
  read_all : Bytes → ReadAll

-- The loop of `readall`, for the answers of read(2) to come: `left` bytes are missing, and `buf` has
-- what came. An answer is never longer than what was asked for. The result has the answers that are left.
unfoldable pub read_loop : List Chunk → ℕ → Bytes → Result (ReadAll × List Chunk)
read_loop answers zero buf = ok (read_all buf, answers)
read_loop [] (suc left) buf = stop out_of_fuel
read_loop (no_more ∷ answers) (suc left) buf = ok (read_failed, answers)
read_loop (got b bs ∷ answers) (suc left) buf = read_loop answers (left - length bs) (buf ++ b ∷ bs)

unfoldable pub readall : List Chunk → ℕ → Result (ReadAll × List Chunk)
readall answers size = read_loop answers size []
