-- ===== src/Server/Tests/Process.antt =====
-- A run of the server's process: a client connects, and hangs up.
use mathlib.Core.List.{Perm, Mem, mem-cons_self, mem-cons_of_mem}
use awale_online.Prelude.{
  ◌≡◌, replicate, length, take, arith, ◌≤◌, ◌↔◌, refl, true, false, none, some, [], ◌∷◌, ◌++◌, pos,
  update,
}
use awale_online.Wire.{Bytes, buf_size, u16_bytes, load16, store}
use awale_online.Wire.Samples.{scratch, scratch-length}
use awale_online.Server.State.{first}
use awale_online.Server.Moves.{disconnect_user, disconnect_from}
use awale_online.Server.Loop.{
  accept_client, remove_client, step, serve, recv, read_client, farewell,
}
use awale_online.Server.Flood.{read_client_iff}
use awale_online.Server.Process.{
  App, Calls, goes_on, ready, init_connection, app_round, accept_round, talk_round, Runs, enters,
  turns, leave_app, watched_sockets, nfds, client_sockets,
}
use awale_online.Server.Process.Closed.{app-closes}
use awale_online.Server.Process.Served.{Serves, app_round-Serves}
use awale_online.Server.Process.Watched.{IsBelow, watched-IsBelow}
use awale_online.Server.Tests.{empty_server, one_client}

abbrev idle : App
idle = record { server = empty_server; buffer = scratch; max = 3 }

abbrev connection : Calls
connection = record {
  select = ready false true (λ z. false);
  accept = some 4;
  header = none;
  body = none;
  scratch = scratch;
  rand = 7;
}

abbrev served : App
served = record { server = one_client; buffer = scratch; max = 4 }

idle-Runs : Runs 3 idle (pos 3 ∷ []) []
unfolding init_connection
idle-Runs = enters idle (some 3) true true refl refl refl refl

served-Runs : Runs 3 served (pos 4 ∷ pos 3 ∷ []) []
unfolding app_round accept_round step accept_client
served-Runs = turns idle served connection [] (pos 3 ∷ []) [] (pos 4 ∷ []) [] idle-Runs refl

-- Both calls of `recv` give an error.
abbrev hang_up : Calls
hang_up = record connection { select = ready false false (λ z. true) }

abbrev left : App
left = record { server = remove_client one_client 0; buffer = farewell []; max = 4 }

left-round : app_round served hang_up ≡ some (goes_on left [] [] (pos 4 ∷ []))
unfolding app_round talk_round step serve read_client recv disconnect_user disconnect_from first
    load16 store update
left-round = refl

left-Runs : Runs 3 left (pos 4 ∷ pos 3 ∷ []) (pos 4 ∷ [])
left-Runs =
    turns served left hang_up [] (pos 4 ∷ pos 3 ∷ []) [] [] (pos 4 ∷ []) served-Runs left-round

app-closes_example : Perm (leave_app 3 left ++ pos 4 ∷ []) (pos 4 ∷ pos 3 ∷ [])
app-closes_example = app-closes 3 left (pos 4 ∷ pos 3 ∷ []) (pos 4 ∷ []) left-Runs

app_round-Serves_example : Serves served hang_up left [] [] (pos 4 ∷ [])
app_round-Serves_example = app_round-Serves served left hang_up [] [] (pos 4 ∷ []) left-round

client_watched : Mem (pos 4) (watched_sockets 3 one_client)
unfolding watched_sockets client_sockets update
client_watched = mem-cons_of_mem (pos 0) (mem-cons_of_mem (pos 3) mem-cons_self)

watched-IsBelow_example : IsBelow (nfds served) (pos 4)
watched-IsBelow_example =
    watched-IsBelow 3 served (pos 4 ∷ pos 3 ∷ []) [] (pos 4) served-Runs client_watched

-- A client announces 2000 bytes, and sends them.
abbrev flood : Bytes
flood = replicate 2000 7

read_client_iff_example :
    (read_client scratch (some (u16_bytes 2000)) (some flood) ≡ none)
    ↔ (buf_size ≤ length (take 2000 flood))
read_client_iff_example = read_client_iff scratch flood 2000 scratch-length (omega arith)
