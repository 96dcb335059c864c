-- ===== src/Wire/Lengths.antt =====
-- A write into the message memory leaves its length.
use awale_online.Prelude.{
  ℕ, zero, suc, ◌+◌, ◌<◌, arith, ◌≡◌, refl, ap, ◌∙◌, Option, none, some, [], ◌∷◌, length, ◌>>=◌,
  Ensures, Ensures-then, Ensures-map,
}
use awale_online.Wire.{
  Bytes, store, store_front, prepend, u16_bytes, write_header, write_text, terminated,
}

-- A write leaves the length of the memory.
prepend-length :
    (n a : ℕ) (m : Option Bytes)
    → Ensures (λ b. length b ≡ n) m
    → Ensures (λ b. length b ≡ suc n) (prepend a m)
prepend-length n a none h = tt
prepend-length n a (some l) h = ap suc h

store_front-length : (buf bs : Bytes) → Ensures (λ b. length b ≡ length buf) (store_front buf bs)
unfolding store_front
store_front-length buf [] = refl
store_front-length [] (b ∷ bs) = tt
store_front-length (x ∷ buf) (b ∷ bs) =
    prepend-length (length buf) b (store_front buf bs) (store_front-length buf bs)

pub store-length :
    (buf : Bytes) (i : ℕ) (bs : Bytes) → Ensures (λ b. length b ≡ length buf) (store buf i bs)
unfolding store
store-length buf zero bs = store_front-length buf bs
store-length [] (suc i) bs = tt
store-length (x ∷ buf) (suc i) bs =
    prepend-length (length buf) x (store buf i bs) (store-length buf i bs)

-- The step behind a write, where it keeps the length.
pub stored :
    {B : Type 0} (P : B → Type 0) (n : ℕ) (buf : Bytes) (i : ℕ) (bs : Bytes) (f : Bytes → Option B)
    → length buf ≡ n
    → ((b : Bytes) → length b ≡ n → Ensures P (f b))
    → Ensures P (store buf i bs >>= f)
stored P n buf i bs f e h =
    Ensures-then P (λ b. length b ≡ length buf) (store buf i bs) f (store-length buf i bs)
      (λ b same. h b (same ∙ e))

pub store-kept :
    (n : ℕ) (buf : Bytes) (i : ℕ) (bs : Bytes)
    → length buf ≡ n
    → Ensures (λ b. length b ≡ n) (store buf i bs)
store-kept n buf i bs e =
    Ensures-map (λ b. length b ≡ length buf) (λ b. length b ≡ n) (store buf i bs)
      (store-length buf i bs) (λ b same. same ∙ e)

pub write_header-length :
    (n : ℕ) (buf : Bytes) (size kind : ℕ)
    → length buf ≡ n
    → Ensures (λ b. length b ≡ n) (write_header buf size kind)
unfolding write_header
write_header-length n buf size kind e =
    stored (λ b. length b ≡ n) n buf 0 (u16_bytes size) _ e
      (λ b same. store-kept n b 2 (kind ∷ []) same)

pub write_text-length :
    (kind : ℕ) (buf text : Bytes)
    → Ensures (λ r. length r.1 ≡ length buf) (write_text kind buf text)
unfolding write_text
write_text-length kind buf text =
    Ensures-then kept (λ b. length b ≡ length buf) (write_header buf _ kind) _
      (write_header-length (length buf) buf _ kind refl)
      (λ headed e. stored kept (length buf) headed 3 (terminated text) _ e (λ written e1. e1))
  where
    kept : ℕ × Bytes → Type 0
    kept r = length r.1 ≡ length buf

-- A write behind the end.
pub store_front-short : (buf bs : Bytes) → length buf < length bs → store_front buf bs ≡ none
unfolding store_front
store_front-short [] [] h = absurd (omega arith)
store_front-short (x ∷ buf) [] h = absurd (omega arith)
store_front-short [] (b ∷ bs) h = refl
store_front-short (x ∷ buf) (b ∷ bs) h = rw (store_front-short buf bs (omega arith)) refl

pub store-short :
    (buf : Bytes) (i : ℕ) (bs : Bytes) → length buf < i + length bs → store buf i bs ≡ none
unfolding store
store-short buf zero bs h = store_front-short buf bs (omega arith)
store-short [] (suc i) bs h = refl
store-short (x ∷ buf) (suc i) bs h = rw (store-short buf i bs (omega arith)) refl
