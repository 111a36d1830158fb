-- ===== src/Server/Reading/Arrives.antt =====
-- What a client writes is what `process_client` of src/server.c reads.
use itmmorgue.Base.{
  same_ok, ℕ, ◌<◌, ◌^◌, ◌≡◌, refl, sym, ◌∙◌, ap, ap₂, arith, true, some, List, [], ◌∷◌, ◌++◌,
  append_assoc, append-nil, ◌==◌, leb, if◌then◌else◌, none, ok, Bytes, length, take, drop,
  get_elem?, Bool-cases, inl, inr,
}
use itmmorgue.Protocol.Types.{Mbuf, MsgType}
use itmmorgue.Protocol.Wire.{Written, number_of, msg_types, type_number, header, wrote, send_mbuf}
use itmmorgue.Protocol.Wire.Numbers.{
  number_of-bytes_of, msg_types-type_number, type_number_lt, length-header,
}
use itmmorgue.Util.{Chunk, readall}
use itmmorgue.Util.Reading.{chunks, joined, readall-joined}
use itmmorgue.Server.Round.{is_known}
use itmmorgue.Server.Reading.{
  Received, received, arrived, if_known, known_type, read_known, read_payload, read_message,
  read_messages,
}

-- A message that the server knows, with a payload of its size.
pub record IsSendable (m : Mbuf Bytes) : Type 0 where
  pub known : is_known m.type ≡ true
  pub sized : m.size ≡ length m.payload
  pub small : m.size < 2 ^ 64

take_front : (s t : Bytes) → take (length s) (s ++ t) ≡ s
take_front [] t = refl
take_front (x ∷ s) t = ap (◌∷◌ x) (take_front s t)

drop_front : (s t : Bytes) → drop (length s) (s ++ t) ≡ t
drop_front [] t = refl
drop_front (x ∷ s) t = drop_front s t

take_self : (s : Bytes) → take (length s) s ≡ s
take_self [] = refl
take_self (x ∷ s) = ap (◌∷◌ x) (take_self s)

abbrev header_of : Mbuf Bytes → Bytes
header_of m = header m.type m.version m.size

no_bytes : (s : Bytes) → length s ≡ 0 → s ≡ []
no_bytes [] e = refl
no_bytes (x ∷ s) e = absurd (omega arith)

no_cuts : (cs : List (ℕ × Bytes)) → joined cs ≡ [] → cs ≡ []
no_cuts [] e = refl
no_cuts (c ∷ cs) e = absurd (cc e)

-- What goes out when all of it is written.
send_mbuf-whole :
    (m : Mbuf Bytes) (b : Bytes) (k : ℕ)
    → m.size ≡ length m.payload
    → send_mbuf (λ b. wrote (length b)) m ≡ ok (b, wrote k)
    → b ≡ header_of m ++ m.payload
unfolding send_mbuf
send_mbuf-whole m b k e w =
    let h = header_of m in
    elim (Bool-cases (m.size == 0)) [
      | inl empty ↦
          let none_left : m.payload ≡ [] = no_bytes m.payload (ground (arith, e)) in
          ap (λ (r : Bytes × Written). r.0) (sym (same_ok (rw empty at w)))
          ∙ take_self h
          ∙ sym (append-nil h)
          ∙ ap (◌++◌ h) (sym none_left)
      | inr some_left ↦
          let fits : leb m.size (length m.payload) ≡ true = ground (arith, e) in
          let all : take m.size m.payload ≡ m.payload =
            ap (λ n. take n m.payload) e ∙ take_self m.payload in
          ap (λ (r : Bytes × Written). r.0) (sym (same_ok (rw (fits, all) at (rw some_left at w))))
          ∙ take_self (h ++ m.payload)
    ]

-- The answers of read(2) to what `send_mbuf` wrote in one piece: none goes beyond what is asked for, so one of
-- them ends with the header.
pub record Sent (m : Mbuf Bytes) (answers : List Chunk) : Type 0 where
  pub first : List (ℕ × Bytes)
  pub second : List (ℕ × Bytes)
  pub answers_are : answers ≡ chunks first ++ chunks second
  pub written :
      send_mbuf (λ b. wrote (length b)) m
      ≡ ok (joined first ++ joined second, wrote (length (joined first ++ joined second)))
  pub first_size : length (joined first) ≡ 16

known_type-header : (t : MsgType) (v n : ℕ) → is_known t ≡ true → known_type (header t v n) ≡ some t
unfolding header
known_type-header t v n k =
    let same = number_of-bytes_of 4 (type_number t) (type_number_lt t) in
    ap if_known (ap (get_elem? msg_types) same ∙ msg_types-type_number t)
    ∙ ap (λ b. if b then some t else none) k

size-header : (t : MsgType) (v n : ℕ) → n < 2 ^ 64 → number_of (drop 8 (header t v n)) ≡ n
unfolding header
size-header t v n h = number_of-bytes_of 8 n h

module _ (m : Mbuf Bytes) (answers : List Chunk) (sendable : IsSendable m)
    (s : Sent m answers) where
  whole : joined s.first ++ joined s.second ≡ header_of m ++ m.payload
  whole = send_mbuf-whole m _ _ sendable.sized s.written

  header_first : joined s.first ≡ header_of m
  header_first =
      sym (take_front (joined s.first) (joined s.second))
      ∙ ap₂ take (s.first_size ∙ sym (length-header m.type m.version m.size)) whole
      ∙ take_front (header_of m) m.payload

  payload_second : joined s.second ≡ m.payload
  payload_second =
      sym (drop_front (joined s.first) (joined s.second))
      ∙ ap₂ drop (s.first_size ∙ sym (length-header m.type m.version m.size)) whole
      ∙ drop_front (header_of m) m.payload

  read_payload-sent :
      (rest : List Chunk)
      → read_payload (chunks s.second ++ rest) m.type m.size ≡ ok (received (arrived m), rest)
  unfolding read_payload
  read_payload-sent rest = elim (Bool-cases (m.size == 0)) [
    | inl e ↦
        let zero_size : m.size ≡ 0 = ground arith in
        let empty : m.payload ≡ [] = no_bytes m.payload (omega (arith, sendable.sized)) in
        let no_more : s.second ≡ [] = no_cuts s.second (payload_second ∙ empty) in
        rw e (
          ap
            (λ cs.
              ok (received (record { type = m.type; size = 0; payload = [] }), chunks cs ++ rest))
            no_more
          ∙ ap₂ (λ n b. ok (received (record { type = m.type; size = n; payload = b }), rest))
              (sym zero_size) (sym empty))
    | inr e ↦
        let size = ap length payload_second ∙ sym sendable.sized in
        let got =
          ap (readall (chunks s.second ++ rest)) (sym size) ∙ readall-joined s.second rest in
        rw (e, got)
          (ap (λ b. ok (received (record { type = m.type; size = m.size; payload = b }), rest))
            payload_second)
  ]

  pub read_message-sent :
      (rest : List Chunk) → read_message (answers ++ rest) ≡ ok (received (arrived m), rest)
  unfolding read_message
  read_message-sent rest =
      let cut = append_assoc (chunks s.first) (chunks s.second) rest in
      let got = readall-joined s.first (chunks s.second ++ rest) in
      let all =
        ap (λ xs. readall (xs ++ rest) 16) s.answers_are
        ∙ ap (λ xs. readall xs 16) cut
        ∙ ap (readall (chunks s.first ++ (chunks s.second ++ rest))) (sym s.first_size)
        ∙ got in
      let behind = chunks s.second ++ rest in
      let known = known_type-header m.type m.version m.size sendable.known in
      let size = size-header m.type m.version m.size sendable.small in
      rw all (
        ap (λ h. read_known (known_type h) h behind) header_first
        ∙ ap (λ o. read_known o (header_of m) behind) known
        ∙ ap (read_payload behind m.type) size
        ∙ read_payload-sent rest)

-- The answers to a number of messages that were written one after the other.
abbrev pub AllSent : List (Mbuf Bytes) → List Chunk → Type 0
AllSent [] answers = answers ≡ []
AllSent (m ∷ ms) answers =
    (front : List Chunk) × (back : List Chunk) × (answers ≡ front ++ back)
    × IsSendable m
    × Sent m front
    × AllSent ms back

abbrev pub taken : List (Mbuf Bytes) → List Received
taken [] = []
taken (m ∷ ms) = received (arrived m) ∷ taken ms

pub read_messages-sent :
    (ms : List (Mbuf Bytes)) (answers rest : List Chunk)
    → AllSent ms answers
    → read_messages (length ms) (answers ++ rest) ≡ ok (taken ms, rest)
unfolding read_messages
read_messages-sent [] answers rest e = ap (λ xs. ok ([], xs ++ rest)) e
read_messages-sent (m ∷ ms) answers rest (front, back, e, sendable, s, more) =
    let here = read_message-sent m front sendable s (back ++ rest) in
    let cut = ap (λ xs. xs ++ rest) e ∙ append_assoc front back rest in
    rw (cut, here, read_messages-sent ms back rest more) refl
