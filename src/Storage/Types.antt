-- ===== src/Storage/Types.antt =====
-- pkg/storage/types.go, option.go, error.go, and the struct of storagedb.go with the objects that
-- it points to.
use interactsh.Prelude.{ℕ, Bool, not, List, [], ◌==◌, if◌then◌else◌, Text, is_empty, Assoc}
use interactsh.Storage.Libraries.{Libs}

pub data EvictionStrategy : Type 0 where
  sliding fixed : EvictionStrategy

-- A duration or a count that the source takes for unset when it is not positive is 0 here.
pub record Options : Type 0 where
  pub db_path : Text
  pub eviction_ttl : ℕ
  pub max_size : ℕ
  pub max_shared_interactions : ℕ
  pub eviction_strategy : EvictionStrategy

unfoldable pub use_disk : Options → Bool
use_disk options = not (is_empty options.db_path)

abbrev pub default_max_shared_interactions : ℕ
default_max_shared_interactions = 10000

abbrev pub default_options : Options
default_options = record {
  db_path = [];
  eviction_ttl = 0;
  max_size = 2500000;
  max_shared_interactions = default_max_shared_interactions;
  eviction_strategy = sliding;
}

-- `data` of the source is `items` here.
pub record CorrelationData : Type 0 where
  pub items : List Text
  pub secret_key : Text
  pub aes_key_encrypted : Text
  pub aes_key : Text
  pub read_offsets : Assoc ℕ
  pub last_seen : Assoc ℕ

-- &CorrelationData{}
abbrev pub empty_data : CorrelationData
empty_data = record {
  items = [];
  secret_key = [];
  aes_key_encrypted = [];
  aes_key = [];
  read_offsets = [];
  last_seen = [];
}

-- The errors that the operations return.
pub data Error : Type 0 where
  correlation_id_not_found id_exists bad_public_key encrypt_failed : Error
  invalid_secret id_not_in_cache cache_item_not_found db_error folder_missing : Error

-- The cache holds pointers: `heap` is what they point to, and the pointers from `next` on are
-- free. `entropy` is what crypto/rand.Reader has still to give.
pub record StorageDb (L : Libs) : Type 0 where
  pub options : Options
  pub cache : L.cache.State
  pub db : L.db.State
  pub heap : ℕ → CorrelationData
  pub next : ℕ
  pub entropy : ℕ → ℕ

-- The heap after a write through a pointer.
abbrev pub update : (ℕ → CorrelationData) → ℕ → CorrelationData → ℕ → CorrelationData
update heap p v q = if p == q then v else heap q
