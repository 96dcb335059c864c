-- ===== src/Game/Seats.antt =====
-- Who takes a seat of a game or leaves one (`game_add_player` of server/src/game.c, and the writes to
-- the seats in server/src/protocol.c), and that the game stays sound.
use awale_online.Prelude.{
  ℕ, update_self, update_ne, ◌+◌, ◌≤◌, ◌<◌, ◌≡◌, refl, ap, inl, inr, true, false, ℤ, arith,
  if◌then◌else◌, ◌==◌, leb, ltb, ◌&&◌, not, ==_iff, Bool-cases, update, Ensures, ltb→lt,
}
use awale_online.Game.{Game, Player, game_init, game_add_player, max_game_players}
use awale_online.Game.Sound.{IsSound}

-- Other players in the seats, with the same scores in the first two, and spectators who have a seat.
pub seats-IsSound :
    (g : Game) (players : ℕ → Player) (nb_spectators : ℕ)
    → ((j : ℕ) → j < 2 → (players j).captured ≡ (g.players j).captured)
    → 2 + nb_spectators ≤ max_game_players
    → IsSound g
    → IsSound (record g { players = players; nb_spectators = nb_spectators })
seats-IsSound g players nb_spectators same fits v = record {
  width = v.width;
  seeds = rw (same 0 (omega arith), same 1 (omega arith)) v.seeds;
  seats = v.seats;
  watched = fits;
  turns = v.turns;
  going = rw (same 0 (omega arith), same 1 (omega arith)) v.going;
}

-- A player with another socket in a seat.
pub id-IsSound :
    (g : Game) (j : ℕ) (id : ℤ)
    → IsSound g
    → IsSound (record g { players = update g.players j (record (g.players j) { id = id }) })
id-IsSound g j id v =
    seats-IsSound g (update g.players j (record (g.players j) { id = id })) g.nb_spectators
      (λ k h. elim (Bool-cases (k == j)) [
        | inl here ↦
            rw ((==_iff k j).0 here) (ap (λ (q : Player). q.captured) (update_self g.players j _))
        | inr there ↦ ap (λ (q : Player). q.captured) (update_ne g.players j k _ (ground arith))
      ])
      v.watched v

-- The first player of a game that is set up anew.
pub init-IsSound :
    (g : Game) (player : Player) → Ensures IsSound (game_add_player (game_init g) player 0)
unfolding game_init game_add_player
init-IsSound g player = record {
  width = refl;
  seeds = omega arith;
  seats = refl;
  watched = omega arith;
  turns = omega arith;
  going = (omega arith, omega arith, omega arith);
}

-- What a game is once the room has started it, if it has two players and was not started.
abbrev pub started : Game → Game
started g = if leb 2 g.nb_players && not g.is_started then record g { is_started = true } else g

module _ (g : Game) (player : Player) (v : IsSound g) where
  -- The second player comes with a score of 0.
  pub second-IsSound :
      g.nb_players < 2 → Ensures (λ g1. IsSound (started g1)) (game_add_player g player 0)
  unfolding game_add_player update
  second-IsSound free = elim (Bool-cases g.is_started) [
    | inl on ↦ let two : g.nb_players ≡ 2 = rw on at v.seats in absurd (omega (arith, free))
    | inr off ↦
        let one : g.nb_players ≡ 1 = rw off at v.seats in
        rw (one, off)
          (record {
            width = v.width;
            seeds = omega (arith, v.seeds);
            seats = refl;
            watched = v.watched;
            turns = v.turns;
            going = (v.going.0, omega arith, omega (arith, v.going.0));
          })
  ]

  -- A game with one player, or two and started, is not started now.
  not_started_now : (leb 2 g.nb_players && not g.is_started) ≡ false
  not_started_now = ground (arith, v.seats)

  pub spectator-IsSound :
      (spectate : ℕ)
      → (spectate == 0) ≡ false
      → Ensures (λ g1. IsSound (started g1)) (game_add_player g player spectate)
  unfolding game_add_player
  spectator-IsSound spectate watches =
      rw watches (elim (Bool-cases (ltb (2 + g.nb_spectators) max_game_players)) [
        | inl room ↦ rw room (watching (ltb→lt (2 + g.nb_spectators) max_game_players room))
        | inr full ↦ rw full tt
      ])
    where
      seated : Game
      seated = record g {
        nb_spectators = g.nb_spectators + 1;
        players = update g.players (2 + g.nb_spectators) (record player { captured = 0 });
      }

      watching : 2 + g.nb_spectators < max_game_players → IsSound (started seated)
      watching room = rw not_started_now (
          seats-IsSound g _ (g.nb_spectators + 1)
            (λ j h.
              ap (λ (q : Player). q.captured)
                (update_ne g.players (2 + g.nb_spectators) j _ (omega arith)))
            (omega (arith, room)) v)
