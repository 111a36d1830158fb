-- ===== src/Server/Accepted.antt =====
-- The moves that `process_client` of src/server.c accepts are moves that a turn can apply.
use mathlib.Core.Path.{subst}
use itmmorgue.Base.{
  ℕ, ◌<◌, ◌≡◌, sym, ◌∙◌, ap, some, arith, ◌==◌, ok, get_elem?, get_elem?-set_self, get_elem?-set_ne,
  lt_of_get_elem?, Bool-cases, Option-cases, ==_iff, inl, inr,
}
use itmmorgue.Player.{Player, put_player, player_at, ev_move}
use itmmorgue.Player.Moves.{InRange, IsDirection}
use itmmorgue.Event.{event_player_add}
use itmmorgue.Event.Turn.{Ready}
use itmmorgue.World.{World}
use itmmorgue.Server.Client.{Client}
use itmmorgue.Server.Handle.{Incoming}
use itmmorgue.Server.Round.{handle_move}

-- Player `p` with the move pending.
abbrev pub with_move : Player → ℕ → ℕ → Player
with_move p key id = record p {
  ev_queue = record {
    event = ev_move;
    event_args = some (record { direction = key; player_id = id });
  };
}

-- What a successful call did.
pub record Registered (w w' : World) (id : ℕ) : Type 0 where
  pub key : ℕ
  pub direction : IsDirection key
  pub player : Player
  pub at : get_elem? w.players id ≡ some player
  pub players_are : w'.players ≡ (put_player w.roster id (with_move player key id)).players

handle_move-Registered :
    (w w' : World) (c : Client) (m : Incoming) → handle_move w c m ≡ ok w' → Registered w w' c.id
unfolding handle_move event_player_add player_at
handle_move-Registered w w' c m e = elim (Option-cases (get_elem? m.payload 0)) [
  | inl no_key ↦ absurd (ground (arith, no_key))
  | inr (key, at_key) ↦ elim (Option-cases (get_elem? w.players c.id)) [
    | inl nobody ↦ absurd (ground (arith, at_key, nobody))
    | inr (p, at) ↦ record {
      key = key;
      direction = (ground (arith, at_key), ground (arith, at_key));
      player = p;
      at = at;
      players_are = ground (arith, at_key, at);
    }
  ]
]

-- If a turn could apply what is pending for each player that counts, it still can after a move of
-- any client was accepted: the pending move is the client's own, and in one of the eight
-- directions.
pub handle_move-Ready :
    (w w' : World) (c : Client) (m : Incoming)
    → handle_move w c m ≡ ok w'
    → ((j : ℕ) → j < w.players_len → Ready j (get_elem? w.players j))
    → (j : ℕ) → j < w.players_len
    → Ready j (get_elem? w'.players j)
handle_move-Ready w w' c m e ready j lt =
    let r = handle_move-Registered w w' c m e in
    let mine = with_move r.player r.key c.id in
    elim (Bool-cases (j == c.id)) [
      | inl here ↦
          let same : j ≡ c.id = (==_iff j c.id).0 here in
          let in_range : InRange r.player =
            (subst (Ready j) (ap (get_elem? w.players) same ∙ r.at) (ready j lt)).1 in
          let stored : get_elem? w'.players j ≡ some mine =
            ap (λ ps. get_elem? ps j) r.players_are
            ∙ ap (get_elem? (put_player w.roster c.id mine).players) same
            ∙ get_elem?-set_self w.players c.id mine (lt_of_get_elem? w.players c.id r.at) in
          subst (Ready j) (sym stored)
            ((sym same, r.direction), record { y_in = in_range.y_in; x_in = in_range.x_in })
      | inr other ↦
          let stored : get_elem? w'.players j ≡ get_elem? w.players j =
            ap (λ ps. get_elem? ps j) r.players_are
            ∙ get_elem?-set_ne w.players c.id j mine (ground arith) in
          subst (Ready j) (sym stored) (ready j lt)
    ]
