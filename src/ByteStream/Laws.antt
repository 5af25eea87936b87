-- ===== src/ByteStream/Laws.antt =====
-- Reading pieces of a stream whose bytes are known.
use native.Mathlib.Nat.{pow-suc}
use kc_utils.Base.{
  ℕ, zero, suc, ◌+◌, ◌/◌, ◌^◌, ◌≤◌, ◌<◌, ◌≡◌, refl, ap, List, [], ◌∷◌, ◌++◌, true, arith, length,
  length-append, length-drop, length-take, take, drop,
}
use kc_utils.ByteStream.{Bytes, Stream, full, read_full, copy_n, two63, le, put_le}

pub take_append {ℓ} : {A : Type ℓ} (n : ℕ) (xs ys : List A) → length xs ≡ n → take n (xs ++ ys) ≡ xs
take_append zero [] ys h = refl
take_append zero (x ∷ xs) ys h = absurd (omega arith)
take_append (suc n) [] ys h = absurd (omega arith)
take_append (suc n) (x ∷ xs) ys h = ap (◌∷◌ x) (take_append n xs ys (omega arith))

pub take_self {ℓ} : {A : Type ℓ} (n : ℕ) (xs : List A) → length xs ≡ n → take n xs ≡ xs
take_self zero [] h = refl
take_self zero (x ∷ xs) h = absurd (omega arith)
take_self (suc n) [] h = absurd (omega arith)
take_self (suc n) (x ∷ xs) h = ap (◌∷◌ x) (take_self n xs (omega arith))

pub drop_append {ℓ} : {A : Type ℓ} (n : ℕ) (xs ys : List A) → length xs ≡ n → drop n (xs ++ ys) ≡ ys
drop_append zero [] ys h = refl
drop_append zero (x ∷ xs) ys h = absurd (omega arith)
drop_append (suc n) [] ys h = absurd (omega arith)
drop_append (suc n) (x ∷ xs) ys h = drop_append n xs ys (omega arith)

-- A read of a piece that stands in front.
pub read_full-append :
    (n : ℕ) (a b : Bytes) (s : Stream)
    → s.rest ≡ a ++ b
    → length a ≡ n
    → read_full n s ≡ (full a, record s { rest = b })
unfolding read_full
read_full-append n a b s e h =
    rw e (ground (arith, take_append n a b h, drop_append n a b h, length-append {0} a b))

pub copy_n-append :
    (n : ℕ) (a b : Bytes) (s : Stream)
    → s.rest ≡ a ++ b
    → length a ≡ n
    → n < two63
    → copy_n n s ≡ (true, record s { rest = b })
unfolding copy_n
copy_n-append n a b s e h lt = rw e (ground (arith, drop_append n a b h, length-append {0} a b))

-- No read gives bytes back.
pub read_full-shrinks : (n : ℕ) (s : Stream) → length (read_full n s).1.rest ≤ length s.rest
unfolding read_full
read_full-shrinks n s = ground (arith, length-drop {0} n s.rest)

pub copy_n-shrinks : (n : ℕ) (s : Stream) → length (copy_n n s).1.rest ≤ length s.rest
unfolding copy_n
copy_n-shrinks n s = ground (arith, length-drop {0} n s.rest)

pub length-put_le : (k v : ℕ) → length (put_le k v) ≡ k
unfolding put_le
length-put_le zero v = refl
length-put_le (suc k) v = ap suc (length-put_le k (v / 256))

pub le-put_le : (k v : ℕ) → v < 256 ^ k → le (put_le k v) ≡ v
unfolding le put_le
le-put_le zero v h = omega arith
le-put_le (suc k) v h =
    let bound : v / 256 < 256 ^ k = omega (arith, pow-suc 256 k) in
    omega (arith, le-put_le k (v / 256) bound)

-- A full read takes what it asked for.
pub read_full-full :
    (n : ℕ) (s : Stream) (b : Bytes)
    → (read_full n s).0 ≡ full b
    → (length b ≡ n) × (length (read_full n s).1.rest + n ≡ length s.rest)
unfolding read_full
read_full-full n s b h = ground (arith, length-drop {0} n s.rest, length-take {0} n s.rest)
