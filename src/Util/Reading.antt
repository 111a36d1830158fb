-- ===== src/Util/Reading.antt =====
-- `readall` of src/itmmorgue.c against what arrives.
use itmmorgue.Base.{
  ℕ, zero, suc, ◌-◌, ◌≡◌, refl, sym, ◌∙◌, ap, List, [], ◌∷◌, ◌++◌, append_assoc, append-nil, arith,
  ok, length, length-append, Bytes,
}
use itmmorgue.Util.{Chunk, no_more, got, read_all, read_loop, readall}

-- The bytes of answers without a failure.
abbrev pub chunk : ℕ × Bytes → Chunk
chunk c = got c.0 c.1

abbrev pub chunks : List (ℕ × Bytes) → List Chunk
chunks [] = []
chunks (c ∷ cs) = chunk c ∷ chunks cs

abbrev pub joined : List (ℕ × Bytes) → Bytes
joined [] = []
joined (c ∷ cs) = c.0 ∷ (c.1 ++ joined cs)

read_loop_zero :
    (answers : List Chunk) (buf : Bytes) → read_loop answers 0 buf ≡ ok (read_all buf, answers)
unfolding read_loop
read_loop_zero [] buf = refl
read_loop_zero (no_more ∷ answers) buf = refl
read_loop_zero (got b bs ∷ answers) buf = refl

read_loop-joined :
    (cs : List (ℕ × Bytes)) (rest : List Chunk) (left : ℕ) (buf : Bytes)
    → left ≡ length (joined cs)
    → read_loop (chunks cs ++ rest) left buf ≡ ok (read_all (buf ++ joined cs), rest)
unfolding read_loop
read_loop-joined [] rest left buf e =
    ap (λ n. read_loop rest n buf) e
    ∙ read_loop_zero rest buf
    ∙ ap (λ b. ok (read_all b, rest)) (sym (append-nil buf))
read_loop-joined (c ∷ cs) rest zero buf e = absurd (omega arith)
read_loop-joined (c ∷ cs) rest (suc left) buf e =
    read_loop-joined cs rest (left - length c.1) (buf ++ c.0 ∷ c.1)
      (omega (arith, length-append c.1 (joined cs)))
    ∙ ap (λ b. ok (read_all b, rest)) (append_assoc buf (c.0 ∷ c.1) (joined cs))

-- However bytes are cut into answers of read(2), and whatever answers follow, `readall` of their
-- number is these bytes.
pub readall-joined :
    (cs : List (ℕ × Bytes)) (rest : List Chunk)
    → readall (chunks cs ++ rest) (length (joined cs)) ≡ ok (read_all (joined cs), rest)
unfolding readall
readall-joined cs rest = read_loop-joined cs rest (length (joined cs)) [] refl
