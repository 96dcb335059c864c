-- ===== src/Wire/Samples.antt =====
-- Memory and texts for the runs of the tests.
use awale_online.Prelude.{ℕ, ◌≡◌, [], ◌∷◌, length, replicate, length-replicate}
use awale_online.Wire.{Bytes, buf_size}

-- A buffer of `BUF_SIZE` bytes that holds anything.
abbrev pub scratch : Bytes
scratch = replicate buf_size 170

pub scratch-length : length scratch ≡ buf_size
scratch-length = length-replicate {A = ℕ} buf_size 170

-- "bob"
abbrev pub bob : Bytes
bob = b'b' ∷ b'o' ∷ b'b' ∷ []
