-- ===== src/Tests/World.antt =====
-- Small libraries and a small state to evaluate the storage at: a cache and a database that are
-- functions, and ciphers that change nothing.
use interactsh.Prelude.{
  ltb, ◌&&◌, inl, inr, Bool, true, ◌<◌, ◌≡◌, All, Bool-cases, subst, ℕ, refl, false, [], ◌∷◌,
  Option, none, some, if◌then◌else◌, ◌==◌, Text, codes, text_eq, arith, is_empty, to_lower,
  text_eq_refl,
}
use interactsh.Storage.Libraries.{
  CacheLib, DbReply, found, not_found, LevelDb, rsa_key, CryptoLib, Libs,
}
use interactsh.Storage.Types.{CorrelationData, empty_data, StorageDb, default_options}

abbrev pub small_cache : CacheLib
small_cache = record {
  State = Text → Option ℕ;
  find = λ s k. s k;
  touch = λ s k. s;
  put = λ s k p j. if text_eq k j then some p else s j;
  invalidate = λ s k j. if text_eq k j then none else s j;
  find-touch = λ s k j. refl;
  find-put = λ s k j p. refl;
  find-invalidate = λ s k j. refl;
}

abbrev pub small_db : LevelDb
small_db = record {
  State = Text → DbReply;
  get = λ s k. s k;
  put = λ s k v j. if text_eq k j then found v else s j;
  delete = λ s k j. if text_eq k j then not_found else s j;
  delete_error = λ s k. false;
  get-put = λ s k j v. refl;
  get-delete = λ s k j. refl;
}

abbrev pub all_bytes : Text → Bool
all_bytes [] = true
all_bytes (b ∷ bs) = ltb b 256 && all_bytes bs

all_bytes_sound : (m : Text) → all_bytes m ≡ true → All (λ b. b < 256) m
all_bytes_sound [] h = tt
all_bytes_sound (b ∷ bs) h = (ground arith, all_bytes_sound bs (ground arith))

pub decrypts : (m c : Text) → (if all_bytes m then some m else none) ≡ some c → some c ≡ some m
decrypts m c h = ground (arith, h)

pub encrypts_bytes :
    (m c : Text) → (if all_bytes m then some m else none) ≡ some c → All (λ b. b < 256) c
encrypts_bytes m c h = elim (Bool-cases (all_bytes m)) [
  | inl e ↦
      let same : m ≡ c = ground (arith, e, h) in
      subst (All (λ b. b < 256)) same (all_bytes_sound m e)
  | inr e ↦ absurd (ground (arith, e, h))
]

abbrev pub small_crypto : CryptoLib
small_crypto = record {
  PublicKey = ℕ;
  PrivateKey = ℕ;
  public = λ k. k;
  pem_decode = λ t. some t;
  parse_pkix_public_key = λ t. some (rsa_key 0);
  encrypt_oaep = λ k seed m. if all_bytes m then some m else none;
  decrypt_oaep = λ k c. some c;
  decrypt_oaep-encrypt_oaep = λ k seed m c h. decrypts m c h;
  encrypt_oaep-lt = λ k seed m c h. encrypts_bytes m c h;
  keystream = λ key iv i. 0;
  keystream-lt = λ key iv i. omega arith;
}

abbrev pub ascii_fold : Text → Text → Bool
ascii_fold a b = text_eq (to_lower a) (to_lower b)

pub ascii_fold_refl : (t : Text) → ascii_fold t t ≡ true
ascii_fold_refl t = text_eq_refl (to_lower t)

pub ascii_fold_empty : (t : Text) → ascii_fold [] t ≡ is_empty t
unfolding to_lower text_eq
ascii_fold_empty [] = refl
ascii_fold_empty (c ∷ cs) = refl

abbrev pub small_world : Libs
small_world = record {
  cache = small_cache;
  db = small_db;
  crypto = small_crypto;
  equal_fold = ascii_fold;
  equal_fold_refl = ascii_fold_refl;
  equal_fold_empty = ascii_fold_empty;
}

-- "a" has two entries and a consumer "c" that has read the first; "t" has been set by the server.
abbrev pub a_data : CorrelationData
a_data = record empty_data {
  items = codes "x" ∷ codes "y" ∷ [];
  secret_key = codes "s";
  aes_key = codes "0123456789abcdef";
  read_offsets = (codes "c", 1) ∷ [];
}

abbrev pub small_state : StorageDb small_world
small_state = record {
  options = default_options;
  cache =
      λ k. if text_eq k (codes "a") then some 0 else if text_eq k (codes "t") then some 1 else none;
  db = λ k. not_found;
  heap = λ p. if p == 0 then a_data else empty_data;
  next = 2;
  entropy = λ i. 0;
}

-- The same, with disk storage.
abbrev pub disk_state : StorageDb small_world
disk_state = record small_state {
  options = record default_options { db_path = codes "/d" };
  db = λ k. found (codes "x\ny");
}
