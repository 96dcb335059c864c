-- ===== src/Game/Sow.antt =====
-- The sowing loop of `game_play` (server/src/game.c) against its closed form: which house gets how
-- many seeds, and where the last one falls.
use mathlib.Core.Path.{subst}
use awale_online.Prelude.{
  set, ℕ, zero, suc, ◌+◌, ◌-◌, ◌*◌, ◌/◌, ◌%◌, ◌≤◌, ◌<◌, ◌≡◌, ◌≢◌, refl, sym, ap, ◌∙◌, inl, inr,
  some, List, length, get_or, sum, leb, ◌==◌, if◌then◌else◌, arith, Bool-cases, length-set,
  get_or-set_self, get_or-set_ne, get_or-le-sum, sum-set,
}
use awale_online.Game.{bump, sow}

-- How many of `seeds` fall into the house `e` places after the emptied one, when the next place is
-- `r`: place 0, the emptied house itself, is skipped.
abbrev pub hits : ℕ → ℕ → ℕ → ℕ
hits r seeds e =
    if r == 0
    then (seeds + 11 - e) / 11
    else if leb r e
    then (seeds + 10 + r - e) / 11
    else (seeds + r - e - 1) / 11

-- How many rounds it takes to sow `seeds` from place `r` on.
abbrev pub rounds : ℕ → ℕ → ℕ
rounds r seeds =
    if seeds == 0
    then 0
    else if r == 0
    then seeds + 1 + (seeds - 1) / 11
    else seeds + (seeds + r - 2) / 11

-- The fuel that is enough from place `r` on.
abbrev need : ℕ → ℕ → ℕ
need r seeds = if r == 0 then 2 * seeds + 1 else 2 * seeds

pub record Sown (house t seeds : ℕ) (board : List ℕ) (i : ℕ) (after : List ℕ) : Type 0 where
  pub index : i ≡ house + t + rounds (t % 12) seeds
  pub width : length after ≡ 12
  pub total : sum after ≡ sum board + seeds
  pub emptied : get_or after house 0 ≡ get_or board house 0
  pub houses :
      (e : ℕ)
      → 1 ≤ e
      → e ≤ 11
      → get_or after ((house + e) % 12) 0
        ≡ get_or board ((house + e) % 12) 0 + hits (t % 12) seeds e

pub length-bump : (board : List ℕ) (i : ℕ) → length (bump board i) ≡ length board
unfolding bump
length-bump board i = length-set board i _

pub sum-bump :
    (board : List ℕ) (i : ℕ)
    → i < length board
    → sum board < 255
    → sum (bump board i) ≡ sum board + 1
unfolding bump
sum-bump board i h bound =
    omega (arith, sum-set board i ((get_or board i 0 + 1) % 256) h, get_or-le-sum board i)

get_or-bump :
    (board : List ℕ) (i j : ℕ)
    → i < length board
    → sum board < 255
    → get_or (bump board i) j 0 ≡ get_or board j 0 + (if i == j then 1 else 0)
unfolding bump
get_or-bump board i j h bound = elim (Bool-cases (i == j)) [
  | inl e ↦
      ground
        (arith, get_or-set_self board i ((get_or board i 0 + 1) % 256) 0 h, get_or-le-sum board i)
  | inr ne ↦ ground (arith, get_or-set_ne board i j ((get_or board i 0 + 1) % 256) 0)
]

hits_skip : (seeds e : ℕ) → 1 ≤ e → hits 0 seeds e ≡ hits 1 seeds e
hits_skip seeds e h = ground arith

hits_step :
    (r seeds e : ℕ)
    → 1 ≤ r
    → r ≤ 11
    → 1 ≤ e
    → e ≤ 11
    → hits r (suc seeds) e ≡ (if r == e then 1 else 0) + hits ((r + 1) % 12) seeds e
hits_step r seeds e r1 r11 e1 e11 = ground arith

rounds_skip : (seeds : ℕ) → rounds 0 (suc seeds) ≡ 1 + rounds 1 (suc seeds)
rounds_skip seeds = ground arith

rounds_step :
    (r seeds : ℕ) → 1 ≤ r → r ≤ 11 → rounds r (suc seeds) ≡ 1 + rounds ((r + 1) % 12) seeds
rounds_step r seeds r1 r11 = ground arith

-- One round over the emptied house.
Sown-skip :
    (house t seeds : ℕ) (board : List ℕ) (i : ℕ) (after : List ℕ)
    → t % 12 ≡ 0
    → Sown house (t + 1) (suc seeds) board i after
    → Sown house t (suc seeds) board i after
Sown-skip house t seeds board i after r s = record {
  index = omega (arith, s.index, lengthen);
  width = s.width;
  total = s.total;
  emptied = s.emptied;
  houses =
      λ e e1 e11. s.houses e e1 e11 ∙ ap (λ n. get_or board ((house + e) % 12) 0 + n) (same e e1);
}
  where
    r1 : (t + 1) % 12 ≡ 1
    r1 = omega arith

    lengthen : rounds (t % 12) (suc seeds) ≡ 1 + rounds ((t + 1) % 12) (suc seeds)
    lengthen = rw (r, r1) (rounds_skip seeds)

    same : (e : ℕ) → 1 ≤ e → hits ((t + 1) % 12) (suc seeds) e ≡ hits (t % 12) (suc seeds) e
    same e e1 = rw (r, r1) (sym (hits_skip (suc seeds) e e1))

-- One round that sows.
Sown-step :
    (house t seeds : ℕ) (board : List ℕ) (i : ℕ) (after : List ℕ)
    → house < 12
    → length board ≡ 12
    → sum board < 255
    → t % 12 ≢ 0
    → Sown house (t + 1) seeds (bump board ((house + t) % 12)) i after
    → Sown house t (suc seeds) board i after
Sown-step house t seeds board i after hh len bound r s = record {
  index = omega (arith, s.index, lengthen);
  width = s.width;
  total = omega (arith, s.total, sum-bump board ((house + t) % 12) (omega arith) bound);
  emptied =
      ground (arith, s.emptied, get_or-bump board ((house + t) % 12) house (omega arith) bound);
  houses = λ e e1 e11. ground (
    arith,
    s.houses e e1 e11,
    get_or-bump board ((house + t) % 12) ((house + e) % 12) (omega arith) bound,
    here e e1 e11,
    more e e1 e11,
  );
}
  where
    next : (t + 1) % 12 ≡ (t % 12 + 1) % 12
    next = omega arith

    lengthen : rounds (t % 12) (suc seeds) ≡ 1 + rounds ((t + 1) % 12) seeds
    lengthen = rw next (rounds_step (t % 12) seeds (omega arith) (omega arith))

    more :
        (e : ℕ)
        → 1 ≤ e
        → e ≤ 11
        → hits (t % 12) (suc seeds) e ≡ (if t % 12 == e then 1 else 0) + hits ((t + 1) % 12) seeds e
    more e e1 e11 = rw next (hits_step (t % 12) seeds e (omega arith) (omega arith) e1 e11)

    here : (e : ℕ) → 1 ≤ e → e ≤ 11 → ((house + t) % 12 == (house + e) % 12) ≡ (t % 12 == e)
    here e e1 e11 = ground arith

-- The loop from index `i`, `t` places after the emptied house, ends within its fuel, and sows as the
-- closed form says.
pub sow-Sown :
    (fuel house t i seeds : ℕ) (board : List ℕ)
    → house < 12
    → length board ≡ 12
    → sum board + seeds ≤ 255
    → i ≡ house + t
    → need (t % 12) seeds ≤ fuel
    → (j : ℕ) × (after : List ℕ) × (sow fuel house i seeds board ≡ some (j, after))
      × Sown house t seeds board j after
unfolding sow
sow-Sown fuel house t i zero board hh len bound e fit = (
  i,
  board,
  refl,
  record {
    index = ground arith;
    width = len;
    total = omega arith;
    emptied = refl;
    houses = λ d d1 d11. ground arith;
  },
)
sow-Sown zero house t i (suc seeds) board hh len bound e fit = absurd (ground arith)
sow-Sown (suc fuel) house t i (suc seeds) board hh len bound e fit =
    elim (Bool-cases (i % 12 == house)) [
      | inl skip ↦
          let (j, after, run, s) =
            sow-Sown fuel house (t + 1) (i + 1) (suc seeds) board hh len bound (omega arith)
              (ground arith) in
          (j, after, rw (skip, sow) run, Sown-skip house t seeds board j after (ground arith) s)
      | inr sows ↦
          let (j, after, run, s) =
            sow-Sown fuel house (t + 1) (i + 1) seeds (bump board (i % 12)) hh
              (length-bump board (i % 12) ∙ len) (omega (arith, sum-bump board (i % 12)))
              (omega arith) (ground arith) in
          (
            j,
            after,
            rw (sows, sow) run,
            Sown-step house t seeds board j after hh len (omega arith) (ground arith)
                (subst (λ k. Sown house (t + 1) seeds (bump board (k % 12)) j after) e s),
          )
    ]

-- What the board looks like once the seeds of one house are sown, and where the last one fell.
pub record Sowing (board : List ℕ) (house : ℕ) (after : List ℕ) (last : ℕ) : Type 0 where
  pub width : length after ≡ 12
  pub total : sum after ≡ sum board
  pub emptied : get_or after house 0 ≡ 0
  pub houses :
      (e : ℕ)
      → 1 ≤ e
      → e ≤ 11
      → get_or after ((house + e) % 12) 0
        ≡ get_or board ((house + e) % 12) 0 + (get_or board house 0 + 11 - e) / 11
  pub ends : last ≡ (house + get_or board house 0 + (get_or board house 0 - 1) / 11) % 12

-- Sowing a house of `s` seeds takes at most `2 * s` rounds. It empties the house, gives
-- `(s + 11 - e) / 11` seeds to the one `e` places further round the board, skips the emptied house on
-- every lap, and drops the last seed `s + (s - 1) / 11` places on.
pub sow_lem :
    (board : List ℕ) (house : ℕ)
    → length board ≡ 12
    → sum board ≤ 255
    → house < 12
    → 0 < get_or board house 0
    → (i : ℕ) × (after : List ℕ) × (sow
          (2 * get_or board house 0)
          house
          (house + 1)
          (get_or board house 0)
          (set board house 0)
        ≡ some (i, after))
      × Sowing board house after ((i - 1) % 12)
sow_lem board house len bound hh some_seeds =
    let (i, after, run, s) =
      sow-Sown (2 * get_or board house 0) house 1 (house + 1) (get_or board house 0)
        (set board house 0) hh (length-set board house 0 ∙ len)
        (omega (arith, sum-set board house 0)) refl (omega arith) in
    (
      i,
      after,
      run,
      record {
        width = s.width;
        total = omega (arith, s.total, sum-set board house 0);
        emptied = s.emptied ∙ get_or-set_self board house 0 0 (omega arith);
        houses = λ e e1 e11.
            s.houses e e1 e11
            ∙ rw (get_or-set_ne board house ((house + e) % 12) 0 0 (omega arith)) (ground arith);
        ends = ground (arith, s.index);
      },
    )
