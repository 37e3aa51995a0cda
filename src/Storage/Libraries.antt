-- ===== src/Storage/Libraries.antt =====
-- What pkg/storage takes from other packages: github.com/goburrow/cache, leveldb, and the ciphers
-- of the standard library. They are parameters, with the documented laws that the code relies on.
use interactsh.Prelude.{
  All, ℕ, ◌<◌, ◌≡◌, refl, ◌⊎◌, inl, inr, Bool, Option, none, some, if◌then◌else◌, Text, text_eq,
  is_empty, [], true, text_eq_refl, ◌∙◌,
}

-- A cache of pointers. `GetIfPresent(k)` returns `find s k` and leaves the cache in the state
-- `touch s k`, where only the recency and the statistics have changed. What expires, or is over
-- the size, is dropped by the cache's own goroutine, which is a step of its own here.
pub record CacheLib : Type 1 where
  pub State : Type 0
  pub find : State → Text → Option ℕ
  pub touch : State → Text → State
  pub put : State → Text → ℕ → State
  pub invalidate : State → Text → State
  pub find-touch : (s : State) (k j : Text) → find (touch s k) j ≡ find s j
  pub find-put :
      (s : State) (k j : Text) (p : ℕ)
      → find (put s k p) j ≡ (if text_eq k j then some p else find s j)
  pub find-invalidate :
      (s : State) (k j : Text) → find (invalidate s k) j ≡ (if text_eq k j then none else find s j)

-- What `db.Get` returns: a value, ErrNotFound, or another error.
pub data DbReply : Type 0 where
  found : Text → DbReply
  not_found : DbReply
  failed : DbReply

pub DbReply-cases :
    (r : DbReply) → ((raw : Text) × (r ≡ found raw)) ⊎ ((r ≡ not_found) ⊎ (r ≡ failed))
DbReply-cases (found raw) = inl (raw, refl)
DbReply-cases not_found = inr (inl refl)
DbReply-cases failed = inr (inr refl)

-- A leveldb database whose writes reach the disk. `delete_error` is what `db.Delete` returns.
pub record LevelDb : Type 1 where
  pub State : Type 0
  pub get : State → Text → DbReply
  pub put : State → Text → Text → State
  pub delete : State → Text → State
  pub delete_error : State → Text → Bool
  pub get-put :
      (s : State) (k j v : Text) → get (put s k v) j ≡ (if text_eq k j then found v else get s j)
  pub get-delete :
      (s : State) (k j : Text) → get (delete s k) j ≡ (if text_eq k j then not_found else get s j)

module _ (D : LevelDb) where
  pub get-put_self : (d : D.State) (k v : Text) → D.get (D.put d k v) k ≡ found v
  get-put_self d k v = D.get-put d k k v ∙ rw (text_eq_refl k) refl

  pub get-delete_self : (d : D.State) (k : Text) → D.get (D.delete d k) k ≡ not_found
  get-delete_self d k = D.get-delete d k k ∙ rw (text_eq_refl k) refl

-- What x509.ParsePKIXPublicKey returns.
pub data ParsedKey (K : Type 0) : Type 0 where
  rsa_key : K → ParsedKey K
  other_key : ParsedKey K

-- `keystream key iv i` is byte `i` of AES in counter mode; `encrypt_oaep` takes the seed that it
-- reads from the random source.
pub record CryptoLib : Type 1 where
  pub PublicKey : Type 0
  pub PrivateKey : Type 0
  pub public : PrivateKey → PublicKey
  pub pem_decode : Text → Option Text
  pub parse_pkix_public_key : Text → Option (ParsedKey PublicKey)
  pub encrypt_oaep : PublicKey → Text → Text → Option Text
  pub decrypt_oaep : PrivateKey → Text → Option Text
  pub keystream : Text → Text → ℕ → ℕ
  pub decrypt_oaep-encrypt_oaep :
      (k : PrivateKey) (seed m c : Text)
      → encrypt_oaep (public k) seed m ≡ some c
      → decrypt_oaep k c ≡ some m
  pub encrypt_oaep-lt :
      (k : PublicKey) (seed m c : Text) → encrypt_oaep k seed m ≡ some c → All (λ b. b < 256) c
  pub keystream-lt : (key iv : Text) (i : ℕ) → keystream key iv i < 256

-- strings.EqualFold, which folds by Unicode, is a parameter too, with the laws that are used of it.
pub record Libs : Type 1 where
  pub cache : CacheLib
  pub db : LevelDb
  pub crypto : CryptoLib
  pub equal_fold : Text → Text → Bool
  pub equal_fold_refl : (t : Text) → equal_fold t t ≡ true
  pub equal_fold_empty : (t : Text) → equal_fold [] t ≡ is_empty t
