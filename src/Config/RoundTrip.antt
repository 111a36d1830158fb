-- ===== src/Config/RoundTrip.antt =====
-- An entry of a locale file, `{key}={value}`, as `locale_parse` of src/locale.c reads it.
use itmmorgue.Base.{
  ℕ, zero, suc, ◌+◌, ◌-◌, ◌*◌, ◌^◌, ◌<◌, ◌≤◌, ◌≡◌, refl, sym, ◌∙◌, ap, ◌≢◌, false, some, [], ◌∷◌,
  ◌++◌, arith, ok, Bytes, c_string, All, All-map, length, length-append, get_elem?,
  get_elem?-set_self, get_elem?-set_ne, set, is_space,
}
use mathlib.Core.Path.{subst}
use itmmorgue.Config.{cp_success, read, write, finish, trim}
use itmmorgue.Config.Locale.{
  l_waitkey, l_trimkey, l_inkey, l_waitval, l_trimval, l_inval, Parser, on_char, end_key, end_value,
  locale_parse,
}
use itmmorgue.Config.Reads.{
  Reads, Reads-append, last, Reads-last, c_string-Reads, fill, length-fill, Reads-fill, Reads-set,
}
use itmmorgue.Config.Passes.{parses, pass, pass_last, in_state, same_state, keys, values}

-- A text of an entry: it is not empty, none of its bytes is special, and it starts and ends with no
-- space.
pub record IsText (c : ℕ) (cs : Bytes) : Type 0 where
  pub plain : All (λ x. (x ≢ 0) × (x ≢ b'\\') × (x ≢ b'}')) (c ∷ cs)
  pub starts : is_space c ≡ false
  pub ends : is_space (last c cs) ≡ false
  pub short : length cs < 4094

finish-cut :
    (a : Bytes) (p c : ℕ)
    → suc p < length a
    → suc p < 2 ^ 64
    → get_elem? a p ≡ some c
    → is_space c ≡ false
    → finish a (suc p) ≡ ok (set a (suc p) 0, p)
unfolding finish write trim read
finish-cut a zero c lt small e s = ground arith
finish-cut a (suc p) c lt small e s = ground (arith, get_elem?-set_ne a (suc (suc p)) (suc p) 0, e)

module _ (buf : Bytes) (len : ℕ) where
  -- A buffer with a text in it and a NUL behind.
  abbrev holding : Bytes → ℕ → Bytes → Bytes
  holding memory c cs = set (fill memory 0 (c ∷ cs)) (suc (length cs)) 0

  cut-holding :
      (memory : Bytes) (c : ℕ) (cs : Bytes)
      → IsText c cs
      → 4096 ≤ length memory
      → finish (fill memory 0 (c ∷ cs)) (suc (length cs)) ≡ ok (holding memory c cs, length cs)
  cut-holding memory c cs t room =
      let size = length-fill memory 0 (c ∷ cs) in
      let r = Reads-fill memory 0 (c ∷ cs) (omega (arith, t.short)) in
      finish-cut (fill memory 0 (c ∷ cs)) (length cs) (last c cs) (omega (arith, size, t.short))
        (omega (arith, t.short))
        (ap (get_elem? (fill memory 0 (c ∷ cs))) (omega arith)
          ∙ Reads-last (fill memory 0 (c ∷ cs)) 0 c cs r)
        t.ends

  key_part :
      (c : ℕ) (cs : Bytes) (fuel : ℕ) (key value : Bytes)
      → IsText c cs
      → get_elem? buf 0 ≡ some b'{'
      → Reads buf 1 (c ∷ cs)
      → get_elem? buf (1 + length (c ∷ cs)) ≡ some b'}'
      → length cs + 3 ≤ len
      → 4096 ≤ length key
      → parses buf len
          (suc (suc (length (c ∷ cs) + suc fuel)))
          (in_state buf len l_waitkey 0 0 key value)
        ≡ parses buf len fuel
            (in_state buf len l_waitval (length cs + 3) 0 (holding key c cs) value)
  unfolding on_char end_key
  key_part c cs fuel key value t brace text close inside room =
      let f = length (c ∷ cs) + suc fuel in
      pass buf len (suc f) (in_state buf len l_waitkey 0 0 key value)
        (in_state buf len l_trimkey 1 0 key value) b'{' brace (omega arith) (omega arith)
        (ground arith)
      ∙ pass buf len f (in_state buf len l_trimkey 1 0 key value)
          (in_state buf len l_inkey 1 0 key value) c text.0 (omega arith) (omega arith)
          (ground (arith, t.starts))
      ∙ keys buf len (c ∷ cs) (suc fuel) 1 0 key value t.plain text (omega arith)
          (omega (arith, t.short)) room
      ∙ same_state buf len l_inkey (fill key 0 (c ∷ cs)) value refl refl (omega arith)
      ∙ pass buf len fuel
          (in_state buf len l_inkey (1 + length (c ∷ cs)) (length (c ∷ cs)) (fill key 0 (c ∷ cs))
            value)
          (in_state buf len l_waitval (1 + length (c ∷ cs) + 1) 0 (holding key c cs) value) b'}'
          close (omega arith) (omega (arith, t.short)) (ground (arith, cut-holding key c cs t room))
      ∙ same_state buf len l_waitval (holding key c cs) value refl (omega arith) refl

  value_part :
      (d : ℕ) (ds : Bytes) (fuel off : ℕ) (key value : Bytes)
      → IsText d ds
      → Reads buf off (b'=' ∷ b'{' ∷ ((d ∷ ds) ++ b'}' ∷ []))
      → off + length ds + 4 ≤ len
      → 4096 ≤ length value
      → parses buf len
          (suc (suc (suc (length (d ∷ ds) + suc fuel))))
          (in_state buf len l_waitval off 0 key value)
        ≡ ok (
          cp_success,
          some (off + length ds + 4),
          in_state buf len l_inval (off + length ds + 4) (length ds) key (holding value d ds),
        )
  unfolding on_char end_value
  value_part d ds fuel off key value t r inside room =
      let f = length (d ∷ ds) + suc fuel in
      let m = suc (length ds) in
      let at = off + 1 + 1 in
      let (text, brace) = Reads-append buf at (d ∷ ds) (b'}' ∷ []) r.1.1 in
      let cut = cut-holding value d ds t room in
      pass buf len (suc (suc f)) (in_state buf len l_waitval off 0 key value)
        (in_state buf len l_waitval (off + 1) 0 key value) b'=' r.0 (omega arith) (omega arith)
        (ground arith)
      ∙ pass buf len (suc f) (in_state buf len l_waitval (off + 1) 0 key value)
          (in_state buf len l_trimval at 0 key value) b'{' r.1.0 (omega arith) (omega arith)
          (ground arith)
      ∙ pass buf len f (in_state buf len l_trimval at 0 key value)
          (in_state buf len l_inval at 0 key value) d text.0 (omega arith) (omega arith)
          (ground (arith, t.starts))
      ∙ values buf len (d ∷ ds) (suc fuel) at 0 key value t.plain text (omega arith)
          (omega (arith, t.short)) room
      ∙ same_state buf len l_inval key (fill value 0 (d ∷ ds)) refl refl (omega arith)
      ∙ pass_last buf len fuel (in_state buf len l_inval (at + m) m key (fill value 0 (d ∷ ds)))
          (in_state buf len l_inval (at + m + 1) (length ds) key (holding value d ds)) b'}'
          cp_success (some (at + m + 1)) brace.0 (omega arith) (omega (arith, t.short))
          (ground (arith, cut))
      ∙ ap
          (λ n.
            ok
              (cp_success, some n, in_state buf len l_inval n (length ds) key (holding value d ds)))
          (omega arith)

c_string-holding :
    (memory : Bytes) (c : ℕ) (cs : Bytes)
    → IsText c cs
    → 4096 ≤ length memory
    → c_string (set (fill memory 0 (c ∷ cs)) (suc (length cs)) 0) ≡ some (c ∷ cs)
c_string-holding memory c cs t room =
    let size = length-fill memory 0 (c ∷ cs) in
    let r = Reads-fill memory 0 (c ∷ cs) (omega (arith, t.short)) in
    c_string-Reads (set (fill memory 0 (c ∷ cs)) (suc (length cs)) 0) (c ∷ cs)
      (Reads-set (fill memory 0 (c ∷ cs)) 0 (suc (length cs)) 0 (c ∷ cs) (omega arith) r)
      (get_elem?-set_self (fill memory 0 (c ∷ cs)) (suc (length cs)) 0
        (omega (arith, size, t.short)))
      (All-map _ _ (λ x h. h.0) (c ∷ cs) t.plain)

-- An entry, written out.
abbrev pub entry : Bytes → Bytes → Bytes
entry key value = b'{' ∷ (key ++ b'}' ∷ b'=' ∷ b'{' ∷ (value ++ b'}' ∷ []))

-- What is read of it.
pub record ReadBack (c : ℕ) (cs : Bytes) (d : ℕ) (ds : Bytes) (s : Parser) : Type 0 where
  pub key_is : c_string s.key ≡ some (c ∷ cs)
  pub value_is : c_string s.value ≡ some (d ∷ ds)

-- If the text starts with an entry `{key}={value}` of two texts that are not empty, have no NUL,
-- backslash or closing brace, neither start nor end with a space, and fit, and both buffers have
-- their 4096 bytes, then `locale_parse` succeeds, consumes exactly the entry, and leaves the two
-- texts in the buffers.
pub locale_parse-entry :
    (buf : Bytes) (len : ℕ) (key value : Bytes) (c : ℕ) (cs : Bytes) (d : ℕ) (ds : Bytes)
    → IsText c cs
    → IsText d ds
    → Reads buf 0 (entry (c ∷ cs) (d ∷ ds))
    → length (entry (c ∷ cs) (d ∷ ds)) ≤ len
    → 4096 ≤ length key
    → 4096 ≤ length value
    → (s : Parser) × (locale_parse buf len key value
        ≡ ok (cp_success, some (length (entry (c ∷ cs) (d ∷ ds))), s))
      × ReadBack c cs d ds s
unfolding locale_parse
locale_parse-entry buf len key value c cs d ds tc td r inside room_key room_value =
    let n = length cs in
    let m = length ds in
    let back = d ∷ (ds ++ b'}' ∷ []) in
    let size : length (entry (c ∷ cs) (d ∷ ds)) ≡ n + 3 + m + 4 =
      omega (arith, length-append cs (b'}' ∷ b'=' ∷ b'{' ∷ back), length-append ds (b'}' ∷ [])) in
    let (text, rest) = Reads-append buf 1 (c ∷ cs) (b'}' ∷ b'=' ∷ b'{' ∷ back) r.1 in
    let behind : Reads buf (n + 3) (b'=' ∷ b'{' ∷ back) =
      subst (λ k. Reads buf k (b'=' ∷ b'{' ∷ back)) (omega arith) rest.1 in
    let left = 2 * len + 1 - n - m - 9 in
    let f = suc (suc (suc (suc m + suc left))) in
    let start = in_state buf len l_waitkey 0 0 key value in
    let key' = holding buf len key c cs in
    (
      in_state buf len l_inval (n + 3 + m + 4) m key' (holding buf len value d ds),
      ap (λ k. parses buf len k start) (omega arith)
          ∙ key_part buf len c cs f key value tc r.0 text rest.0 (omega arith) room_key
          ∙ value_part buf len d ds left (n + 3) key' value td behind (omega arith) room_value
          ∙ ap
              (λ k. ok (
                cp_success,
                some k,
                in_state buf len l_inval (n + 3 + m + 4) m key' (holding buf len value d ds),
              ))
              (sym size),
      record {
        key_is = c_string-holding key c cs tc room_key;
        value_is = c_string-holding value d ds td room_value;
      },
    )
