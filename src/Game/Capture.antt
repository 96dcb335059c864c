-- ===== src/Game/Capture.antt =====
-- The capturing loop of `game_play` (server/src/game.c) against a description of what it takes: the
-- longest run of houses of two or three seeds that ends at the last house sown.
use awale_online.Prelude.{
  ℕ, zero, suc, ◌+◌, ◌%◌, ◌≤◌, ◌<◌, ◌≡◌, refl, ap, ◌∙◌, ◌⊎◌, inl, inr, false, ◌||◌, List, length,
  get_or, set, sum, ◌==◌, arith, Bool-cases, ==_iff, length-set, get_or-set_self, get_or-set_ne,
  get_or-le-sum, sum-set,
}
use awale_online.Game.{capture}

abbrev pub IsPrey : ℕ → Type 0
IsPrey seeds = (seeds ≡ 2) ⊎ (seeds ≡ 3)

-- `n` of the `k` houses from `offset` on are taken, those with the highest indices.
pub record Captured (offset k : ℕ) (board : List ℕ) (captured : ℕ) (n : ℕ) (after : List ℕ)
    (score : ℕ) : Type 0 where
  pub fits : n ≤ k
  pub width : length after ≡ length board
  pub total : sum after + score ≡ sum board + captured
  pub taken :
      (j : ℕ)
      → offset + k ≤ j + n
      → j < offset + k
      → (get_or after j 0 ≡ 0) × IsPrey (get_or board j 0)
  pub kept_below : (j : ℕ) → j + n < offset + k → get_or after j 0 ≡ get_or board j 0
  pub kept_above : (j : ℕ) → offset + k ≤ j → get_or after j 0 ≡ get_or board j 0
  pub maximal : (m : ℕ) → suc (n + m) ≡ k → ¬ IsPrey (get_or board (offset + m) 0)

-- A round that takes the house `offset + k`.
Captured-take :
    (offset k : ℕ) (board : List ℕ) (captured n : ℕ) (after : List ℕ) (score : ℕ)
    → offset + suc k ≤ length board
    → sum board + captured ≤ 255
    → IsPrey (get_or board (offset + k) 0)
    → Captured offset k
        (set board (offset + k) 0)
        ((captured + get_or board (offset + k) 0) % 256)
        n
        after
        score
    → Captured offset (suc k) board captured (suc n) after score
Captured-take offset k board captured n after score room bound prey c = record {
  fits = omega (arith, c.fits);
  width = c.width ∙ length-set board (offset + k) 0;
  total = omega (
    arith,
    c.total,
    sum-set board (offset + k) 0 (omega arith),
    get_or-le-sum board (offset + k),
  );
  taken = seized;
  kept_below = λ j h. c.kept_below j (omega arith) ∙ other j (omega arith);
  kept_above = λ j h. c.kept_above j (omega arith) ∙ other j (omega arith);
  maximal = λ m h p. c.maximal m (omega arith) (rw (other (offset + m) (omega arith)) p);
}
  where
    other : (j : ℕ) → ¬ (offset + k ≡ j) → get_or (set board (offset + k) 0) j 0 ≡ get_or board j 0
    other j ne = get_or-set_ne board (offset + k) j 0 0 ne

    last : (j : ℕ) → j ≡ offset + k → (get_or after j 0 ≡ 0) × IsPrey (get_or board j 0)
    last j e = rw e (
      c.kept_above (offset + k) (omega arith)
          ∙ get_or-set_self board (offset + k) 0 0 (omega arith),
      prey,
    )

    seized :
        (j : ℕ)
        → offset + suc k ≤ j + suc n
        → j < offset + suc k
        → (get_or after j 0 ≡ 0) × IsPrey (get_or board j 0)
    seized j a b = elim (Bool-cases (j == offset + k)) [
      | inl e ↦ last j ((==_iff j (offset + k)).0 e)
      | inr ne ↦
          let earlier = c.taken j (omega arith) (ground arith) in
          (earlier.0, rw (other j (ground arith)) at earlier.1)
    ]

-- Over a range of houses that lies on the board, the capturing loop takes the longest run of houses
-- of two or three seeds that ends at the top of the range: it empties these and no other, adds what
-- they held to the score, and loses no seed.
pub capture-Captured :
    (offset k : ℕ) (board : List ℕ) (captured : ℕ)
    → offset + k ≤ length board
    → sum board + captured ≤ 255
    → (n : ℕ) × Captured offset k board captured n
        (capture offset k board captured).0
        (capture offset k board captured).1
unfolding capture
capture-Captured offset zero board captured room bound = (
  0,
  record {
    fits = omega arith;
    width = refl;
    total = refl;
    taken = λ j a b. absurd (omega arith);
    kept_below = λ j h. refl;
    kept_above = λ j h. refl;
    maximal = λ m h. absurd (omega arith);
  },
)
capture-Captured offset (suc k) board captured room bound =
    elim (Bool-cases (get_or board (offset + k) 0 == 2 || get_or board (offset + k) 0 == 3)) [
      | inl prey ↦
          let (n, rest) =
            capture-Captured offset k (set board (offset + k) 0)
              ((captured + get_or board (offset + k) 0) % 256)
              (omega (arith, length-set board (offset + k) 0))
              (omega (arith, sum-set board (offset + k) 0, get_or-le-sum board (offset + k))) in
          rw prey
            (suc n, Captured-take offset k board captured n _ _ room bound (ground arith) rest)
      | inr stop ↦ rw stop (
        0,
        record {
          fits = omega arith;
          width = refl;
          total = refl;
          taken = λ j a b. absurd (omega arith);
          kept_below = λ j h. refl;
          kept_above = λ j h. refl;
          maximal = λ m h p. halted stop m (omega arith) p;
        },
      )
    ]
  where
    halted :
        (get_or board (offset + k) 0 == 2 || get_or board (offset + k) 0 == 3) ≡ false
        → (m : ℕ) → m ≡ k
        → ¬ IsPrey (get_or board (offset + m) 0)
    halted stop m e p = ground (arith, ap (λ (i : ℕ). get_or board (offset + i) 0) e)
