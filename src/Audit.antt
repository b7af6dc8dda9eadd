-- ===== src/Audit.antt =====
-- backend/internal/core/audit/merkle_audit.go: the tree of privacy actions and its root hash. A byte is a
-- number, a hash is a list of bytes; SHA-256 and the bytes of a text are parameters.
pub mod Binding
mod Tests
use merope.Prelude.{ℕ, List, [], ◌∷◌, ◌++◌, String, take, map}
use merope.Prelude.Text.{str_append}

abbrev pub Bytes : Type 0
Bytes = List ℕ

abbrev pub zeros : Bytes
zeros =
    0 ∷ 0 ∷ 0 ∷ 0 ∷ 0 ∷ 0 ∷ 0 ∷ 0 ∷ 0 ∷ 0 ∷ 0 ∷ 0 ∷ 0 ∷ 0 ∷ 0 ∷ 0 ∷ 0 ∷ 0 ∷ 0 ∷ 0 ∷ 0 ∷ 0 ∷ 0 ∷ 0
    ∷ 0 ∷ 0 ∷ 0 ∷ 0 ∷ 0 ∷ 0 ∷ 0 ∷ 0 ∷ []

pub record Action : Type 0 where
  pub action : String
  pub user_id : String

module _ (sha256 : Bytes → Bytes) (bytes : String → Bytes) where
  -- What is hashed for an action.
  unfoldable pub entry : Action → Bytes
  entry a = bytes (str_append a.user_id (str_append ":" a.action))

  -- `AppendPrivacyAction`, on the leaves of the tree.
  unfoldable pub append_privacy_action : Action → List Bytes → List Bytes
  unfolding entry
  append_privacy_action a leaves = leaves ++ (sha256 (entry a) ∷ [])

  -- The loop of `GetRootHash` over the leaves after the first.
  unfoldable pub roll : Bytes → List Bytes → Bytes
  roll root [] = root
  roll root (leaf ∷ leaves) = roll (sha256 (root ++ leaf)) leaves

  -- `GetRootHash`; `copy` fills 32 bytes.
  unfoldable pub get_root_hash : List Bytes → Bytes
  unfolding roll
  get_root_hash [] = zeros
  get_root_hash (leaf ∷ leaves) = take 32 (roll leaf leaves ++ zeros)

  -- The leaves of a tree after actions, in their order, from the leaves that it had.
  unfoldable pub record_all : List Action → List Bytes → List Bytes
  unfolding append_privacy_action
  record_all [] leaves = leaves
  record_all (a ∷ rest) leaves = record_all rest (append_privacy_action a leaves)
