-- ===== src/Protocol/ToClient/Room.antt =====
-- The list of a room's users: `server_client_protocol_write_join_room_successful` of
-- server/src/protocol.c against the loops of `server_client_protocol_read` of client/src/protocol.c.
use mathlib.Core.Path.{ap₂}
use native.Mathlib.Nat.{zero-add, suc-add}
use awale_online.Prelude.{
  ℕ, zero, suc, ◌+◌, ◌-◌, ◌%◌, ◌^◌, ◌≤◌, ◌<◌, ◌≡◌, refl, sym, ◌∙◌, some, List, [], ◌∷◌, ◌++◌,
  length, drop, length-drop, true, false, arith, append_assoc, ap, get_elem?, length-append,
  take_append, ltb, lt→ltb,
}
use awale_online.Wire.{Bytes, buf_size, store, u16_bytes, terminated, IsString}
use awale_online.Wire.Laws.{Frames, store_lem, c_string-front, drop-front, length-terminated}
use awale_online.Server.Writers.{write_users, write_join_room_successful}
use awale_online.Client.Reader.{read_users, read_spectators}

-- The users in order, each with a biography as long as there is one.
abbrev pub encode : List Bytes → List Bytes → Bytes
encode [] bios = []
encode (user ∷ users) [] = terminated user ++ encode users []
encode (user ∷ users) (bio ∷ bios) = terminated user ++ (terminated bio ++ encode users bios)

drop-cons :
    {A : Type 0} (xs : List A) (i : ℕ) {x : A} {r : List A}
    → drop i xs ≡ x ∷ r
    → (get_elem? xs i ≡ some x) × (drop (suc i) xs ≡ r)
drop-cons [] zero h = cc
drop-cons [] (suc i) h = cc
drop-cons (y ∷ xs) zero h = (cc, cc)
drop-cons (y ∷ xs) (suc i) h = drop-cons xs i h

-- One string of the loop.
store_string :
    (size : ℕ) (before buf s : Bytes)
    → size + 2 ≡ length before
    → length s + 1 ≤ length buf
    → store (before ++ buf) (size + 2) (terminated s)
      ≡ some ((before ++ terminated s) ++ drop (length (terminated s)) buf)
store_string size before buf s h room =
    store_lem before buf (terminated s) (size + 2) h (omega (arith, length-terminated s))
    ∙ ap some (sym (append_assoc before (terminated s) _))

next_size :
    (size : ℕ) (before s : Bytes)
    → size + 2 ≡ length before
    → size + (length s + 1) < 2 ^ 16
    → (size + (length s + 1)) % 2 ^ 16 + 2 ≡ length (before ++ terminated s)
next_size size before s h fits =
    omega (arith, length-append before (terminated s), length-terminated s)

-- What is left of the buffer behind two strings.
drop-at : (m n : ℕ) (xs : List Bytes) → m ≡ n → drop m xs ≡ drop n xs
drop-at m n xs e = ap (λ (k : ℕ). drop k xs) e

drop-nil : (k : ℕ) → ◌≡◌ {A = Bytes} (drop k []) []
drop-nil zero = refl
drop-nil (suc k) = refl

drop-drop : (m n : ℕ) (xs : Bytes) → drop m (drop n xs) ≡ drop (n + m) xs
drop-drop m zero xs = rw zero-add
drop-drop m (suc n) [] = drop-nil m ∙ sym (drop-nil (suc n + m))
drop-drop m (suc n) (x ∷ xs) = rw suc-add (drop-drop m n xs)

-- Two writes, one behind the other, are one.
behind :
    (before x y buf : Bytes)
    → (before ++ x) ++ (y ++ drop (length y) (drop (length x) buf))
      ≡ before ++ ((x ++ y) ++ drop (length (x ++ y)) buf)
behind before x y buf =
    rw (append_assoc before x _, drop-drop (length y) (length x) buf, length-append x y)
      (ap (◌++◌ before) (sym (append_assoc x y _)))

drop-next :
    (xs : List Bytes) (i : ℕ) {x : Bytes} {r : List Bytes} → drop i xs ≡ x ∷ r → drop (i + 1) xs ≡ r
drop-next xs i h = drop-at (i + 1) (suc i) xs (omega arith) ∙ (drop-cons xs i h).1

drop-end : (xs : List Bytes) (i : ℕ) → drop i xs ≡ [] → drop (i + 1) xs ≡ []
drop-end [] zero h = drop-at (zero + 1) 1 [] (omega arith)
drop-end [] (suc i) h = drop-at (suc i + 1) (suc (i + 1)) [] (omega arith) ∙ refl
drop-end (x ∷ xs) zero h = cc
drop-end (x ∷ xs) (suc i) h =
    drop-at (suc i + 1) (suc (i + 1)) (x ∷ xs) (omega arith) ∙ drop-end xs i h

write_users_lem :
    (us bs : List Bytes) (i nb : ℕ) (users bios : List Bytes) (size : ℕ) (before buf : Bytes)
    → drop i users ≡ us
    → drop i bios ≡ bs
    → nb - i ≡ length bs
    → size + 2 ≡ length before
    → size + length (encode us bs) < 2 ^ 16
    → length (encode us bs) ≤ length buf
    → write_users (length us) i nb users bios size (before ++ buf)
      ≡ some (
        size + length (encode us bs),
        before ++ (encode us bs ++ drop (length (encode us bs)) buf),
      )
unfolding write_users
write_users_lem [] bs i nb users bios size before buf hu hb hn hs fits room =
    ap (λ (n : ℕ). some (n, before ++ buf)) (omega arith)
write_users_lem (u ∷ us) [] i nb users bios size before buf hu hb hn hs fits room =
    rw ((drop-cons users i hu).0, store_string size before buf u hs (omega (arith, len)), last)
      (write_users_lem us [] (i + 1) nb users bios ((size + (length u + 1)) % 2 ^ 16)
          (before ++ terminated u) (drop (length (terminated u)) buf) (drop-next users i hu)
          (drop-end bios i hb) (omega arith) (next_size size before u hs (omega (arith, len)))
          (omega (arith, len))
          (omega (arith, len, length-drop (length (terminated u)) buf, length-terminated u))
        ∙ ap₂ (λ (n : ℕ) (t : Bytes). some (n, t)) (omega (arith, len))
            (behind before (terminated u) (encode us []) buf))
  where
    len : length (encode (u ∷ us) []) ≡ length u + 1 + length (encode us [])
    len = omega (arith, length-append (terminated u) (encode us []), length-terminated u)

    last : ltb i nb ≡ false
    last = ground arith
write_users_lem (u ∷ us) (b ∷ bs) i nb users bios size before buf hu hb hn hs fits room =
    rw
      (
        (drop-cons users i hu).0,
        store_string size before buf u hs (omega (arith, len)),
        more,
        (drop-cons bios i hb).0,
        store_string ((size + (length u + 1)) % 2 ^ 16) (before ++ terminated u) rest b
            (next_size size before u hs (omega (arith, len))) (omega (arith, len, left)),
      )
      (write_users_lem us bs (i + 1) nb users bios
          (((size + (length u + 1)) % 2 ^ 16 + (length b + 1)) % 2 ^ 16)
          ((before ++ terminated u) ++ terminated b) (drop (length (terminated b)) rest)
          (drop-next users i hu) (drop-next bios i hb) (omega arith)
          (next_size ((size + (length u + 1)) % 2 ^ 16) (before ++ terminated u) b
            (next_size size before u hs (omega (arith, len))) (omega (arith, len)))
          (omega (arith, len))
          (omega (arith, len, left, length-drop (length (terminated b)) rest, length-terminated b))
        ∙ ap₂ (λ (n : ℕ) (t : Bytes). some (n, t)) (omega (arith, len))
            (behind (before ++ terminated u) (terminated b) (encode us bs) rest
              ∙ behind before (terminated u) (terminated b ++ encode us bs) buf))
  where
    rest : Bytes
    rest = drop (length (terminated u)) buf

    left : length rest ≡ length buf - (length u + 1)
    left = omega (arith, length-drop (length (terminated u)) buf, length-terminated u)

    len : length (encode (u ∷ us) (b ∷ bs)) ≡ length u + 1 + (length b + 1 + length (encode us bs))
    len = omega (
      arith,
      length-append (terminated u) (terminated b ++ encode us bs),
      length-append (terminated b) (encode us bs),
      length-terminated u,
      length-terminated b,
    )

    more : ltb i nb ≡ true
    more = ground arith

abbrev pub AreStrings : List Bytes → Type 0
AreStrings [] = Unit {0}
AreStrings (s ∷ ss) = IsString s × AreStrings ss

pub read_spectators-encode :
    (ss : List Bytes) (rest : Bytes)
    → AreStrings ss
    → read_spectators (length ss) (encode ss [] ++ rest) ≡ some ss
unfolding read_spectators
read_spectators-encode [] rest ok = refl
read_spectators-encode (s ∷ ss) rest ok = rw (
  append_assoc (terminated s) (encode ss []) rest,
  c_string-front s (encode ss [] ++ rest) ok.0,
  drop-front s (encode ss [] ++ rest),
  read_spectators-encode ss rest ok.1,
)

pub read_users-encode :
    (us bs ss : List Bytes) (i : ℕ) (rest : Bytes)
    → length us ≡ length bs
    → i + length us ≤ 2
    → AreStrings us
    → AreStrings bs
    → read_users (length us) i (encode (us ++ ss) bs ++ rest) ≡ some (us, bs, encode ss [] ++ rest)
unfolding read_users
read_users-encode [] [] ss i rest same two hu hb = refl
read_users-encode [] (b ∷ bs) ss i rest same two hu hb = absurd (omega arith)
read_users-encode (u ∷ us) [] ss i rest same two hu hb = absurd (omega arith)
read_users-encode (u ∷ us) (b ∷ bs) ss i rest same two hu hb =
    let tail = encode (us ++ ss) bs in
    rw (
      lt→ltb i 2 (omega arith),
      append_assoc (terminated u) (terminated b ++ tail) rest,
      append_assoc (terminated b) tail rest,
      c_string-front u (terminated b ++ (tail ++ rest)) hu.0,
      drop-front u (terminated b ++ (tail ++ rest)),
      c_string-front b (tail ++ rest) hb.0,
      drop-front b (tail ++ rest),
      read_users-encode us bs ss (i + 1) rest (omega arith) (omega arith) hu.1 hb.1,
    )

pub join_room_successful-Frames :
    (buf : Bytes) (us bs ss : List Bytes)
    → length buf ≡ buf_size
    → length us ≡ length bs
    → length (encode (us ++ ss) bs) + 5 ≤ buf_size
    → Frames
        (write_join_room_successful buf (us ++ ss) (length us) (length ss) bs)
        (4 ∷ length us ∷ length ss ∷ encode (us ++ ss) bs)
unfolding write_join_room_successful store
join_room_successful-Frames (a ∷ b ∷ c ∷ d ∷ e ∷ buf) us bs ss room same fits = (
  u16_bytes size ++ 4 ∷ length us ∷ length ss ∷ (text ++ drop (length text) buf),
  rw (sym (length-append us ss), written) (rw count),
  rw (count, take_append text (drop (length text) buf)),
)
  where
    text : Bytes
    text = encode (us ++ ss) bs

    size : ℕ
    size = 3 + length text

    count : 3 + length text ≡ suc (suc (suc (length text)))
    count = omega arith

    written :
        write_users
          (length (us ++ ss))
          0
          (length us)
          (us ++ ss)
          bs
          3
          ((a ∷ b ∷ 4 ∷ length us ∷ length ss ∷ []) ++ buf)
        ≡ some (size, (a ∷ b ∷ 4 ∷ length us ∷ length ss ∷ []) ++ (text ++ drop (length text) buf))
    written =
        write_users_lem (us ++ ss) bs 0 (length us) (us ++ ss) bs 3
          (a ∷ b ∷ 4 ∷ length us ∷ length ss ∷ []) buf refl refl (omega arith) refl (omega arith)
          (omega arith)
join_room_successful-Frames _ us bs ss room same fits = absurd (omega arith)
