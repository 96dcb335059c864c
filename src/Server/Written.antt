-- ===== src/Server/Written.antt =====
-- The list of a room and the start of a game, as server/src/protocol.c writes and sends them.
use awale_online.Prelude.{
  ℕ, zero, suc, ◌+◌, ◌%◌, ◌^◌, ◌≤◌, ◌≡◌, refl, subst, ◌∙◌, sym, Option, some, List, [], ◌∷◌, ◌++◌,
  length, take-length, arith, ◌>>=◌, ℤ, ltb, get_elem?, if◌then◌else◌, Ensures, Ensures-bind,
  Ensures-then, Ensures-if, Ensures-some,
}
use awale_online.Wire.{Bytes, buf_size, u16_bytes, store, write_header, terminated}
use awale_online.Wire.Laws.{Frames}
use awale_online.Wire.Lengths.{stored, write_header-length}
use awale_online.Protocol.{server_byte, game_start, join_room_successful}
use awale_online.Protocol.ToClient.Room.{encode, join_room_successful-Frames}
use awale_online.Server.Writers.{write_game_start, write_users, write_join_room_successful}
use awale_online.Server.State.{write_client}

write_users-length :
    (k i nb_users : ℕ) (users bios : List Bytes) (size n : ℕ) (buf : Bytes)
    → length buf ≡ n
    → Ensures (λ r. length r.1 ≡ n) (write_users k i nb_users users bios size buf)
unfolding write_users
write_users-length zero i nb_users users bios size n buf e = e
write_users-length (suc k) i nb_users users bios size n buf e =
    Ensures-bind kept (get_elem? users i) _ λ user.
      stored kept n buf (size + 2) (terminated user) _ e λ named e1.
        Ensures-then kept kept
          (if ltb i nb_users
            then (get_elem? bios i >>= λ bio.
                store named ((size + (length user + 1)) % 2 ^ 16 + 2) (terminated bio)
                >>= λ described.
                    some (
                      ((size + (length user + 1)) % 2 ^ 16 + (length bio + 1)) % 2 ^ 16,
                      described,
                    ))
            else some ((size + (length user + 1)) % 2 ^ 16, named))
          _
          (Ensures-if kept (ltb i nb_users) _ _
            (λ _. Ensures-bind kept (get_elem? bios i) _ λ bio.
              stored kept n named ((size + (length user + 1)) % 2 ^ 16 + 2) (terminated bio) _ e1
                λ described e2. e2)
            (λ _. e1))
          (λ (size'', written) e3.
            write_users-length k (i + 1) nb_users users bios size'' n written e3)
  where
    kept : ℕ × Bytes → Type 0
    kept r = length r.1 ≡ n

write_join_room_successful-length :
    (buf : Bytes) (users : List Bytes) (nb_users nb_spectators : ℕ) (bios : List Bytes) (n : ℕ)
    → length buf ≡ n
    → Ensures
        (λ r. length r.1 ≡ n)
        (write_join_room_successful buf users nb_users nb_spectators bios)
unfolding write_join_room_successful
write_join_room_successful-length buf users nb_users nb_spectators bios n e =
    stored kept n buf 2 (server_byte join_room_successful ∷ []) _ e λ kind_set e1.
      stored kept n kind_set 3 (nb_users ∷ []) _ e1 λ users_set e2.
        stored kept n users_set 4 (nb_spectators ∷ []) _ e2 λ spectators_set e3.
          Ensures-then kept kept
            (write_users (nb_users + nb_spectators) 0 nb_users users bios 3 spectators_set) _
            (write_users-length (nb_users + nb_spectators) 0 nb_users users bios 3 n spectators_set
              e3)
            (λ (size, named) e4. stored kept n named 0 (u16_bytes size) _ e4 λ written e5. e5)
  where
    kept : ℕ × Bytes → Type 0
    kept r = length r.1 ≡ n

pub write_game_start-length :
    (buf : Bytes) (side n : ℕ)
    → length buf ≡ n
    → Ensures (λ r. length r.1 ≡ n) (write_game_start buf side)
unfolding write_game_start
write_game_start-length buf side n e =
    Ensures-then kept (λ b. length b ≡ n) (write_header buf 2 (server_byte game_start)) _
      (write_header-length n buf 2 (server_byte game_start) e)
      (λ headed e1. stored kept n headed 3 (side ∷ []) _ e1 λ written e2. e2)
  where
    kept : ℕ × Bytes → Type 0
    kept r = length r.1 ≡ n

-- A message that is written: the buffer stays as long, and starts with the frame.
abbrev pub Told : Option (ℕ × Bytes) → Bytes → Type 0
Told out payload =
    (written : Bytes) × (length written ≡ buf_size)
    × (out ≡ some (length payload + 2, written))
    × ((sock : ℤ)
        → write_client sock (length payload + 2, written)
          ≡ write_client sock (length payload + 2, u16_bytes (length payload) ++ payload))

pub written-Told :
    (out : Option (ℕ × Bytes)) (payload : Bytes)
    → Ensures (λ r. length r.1 ≡ buf_size) out
    → Frames out payload
    → Told out payload
unfolding write_client
written-Told out payload kept (written, told, framed) =
    let two : length payload + 2 ≡ suc (suc (length payload)) = omega arith in
    (
      written,
      Ensures-some (λ r. length r.1 ≡ buf_size) out kept told,
      told,
      λ sock. rw (two, framed, take-length payload) refl,
    )

-- The list of two players and `n` others.
pub list-Told :
    (buffer : Bytes) (users bios spectators : List Bytes) (n : ℕ)
    → length buffer ≡ buf_size
    → length users ≡ 2
    → length bios ≡ 2
    → length spectators ≡ n
    → length (encode (users ++ spectators) bios) + 5 ≤ buf_size
    → Told
        (write_join_room_successful buffer (users ++ spectators) 2 n bios)
        (4 ∷ 2 ∷ n ∷ encode (users ++ spectators) bios)
list-Told buffer users bios spectators n room two two' count fits =
    subst
      (λ (k : ℕ).
        Told (write_join_room_successful buffer (users ++ spectators) 2 k bios)
          (4 ∷ 2 ∷ k ∷ encode (users ++ spectators) bios))
      count
      (subst
        (λ (k : ℕ).
          Told (write_join_room_successful buffer (users ++ spectators) k (length spectators) bios)
            (4 ∷ k ∷ length spectators ∷ encode (users ++ spectators) bios))
        two
        (written-Told
          (write_join_room_successful buffer (users ++ spectators) (length users)
            (length spectators) bios)
          (4 ∷ length users ∷ length spectators ∷ encode (users ++ spectators) bios)
          (write_join_room_successful-length buffer (users ++ spectators) (length users)
            (length spectators) bios buf_size room)
          (join_room_successful-Frames buffer users bios spectators room (two ∙ sym two') fits)))
