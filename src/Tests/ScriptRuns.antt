-- ===== src/Tests/ScriptRuns.antt =====
-- The scripts on a database with one user and one node.
use secure_file_system.Api.Users.{hash_api_key}
use secure_file_system.Base.{ℕ, ◌+◌, ◌≡◌, refl, ◌⊎◌, true, false, [], ◌∷◌, list_eq, nat_eq, ok, err}
use secure_file_system.Base.Text.{Text, codes}
use secure_file_system.Config.{non_empty}
use secure_file_system.Database.{User, StorageNode, Database}
use secure_file_system.Python.Decimal.{is_digits}
use secure_file_system.Python.Hashlib.{sample_hashlib}
use secure_file_system.Python.Hex.{hex_digit, hex}
use secure_file_system.Python.Strings.{split, lstrip, rstrip, strip, rpartition}
use secure_file_system.Python.Unicode.{ascii_only, ascii_only-IsUnicode}
use secure_file_system.Python.Utf8.{utf8}
use secure_file_system.Scripts.Issuing.{IsReady}
use secure_file_system.Scripts.Nodes.{
  split_addresses, is_host_port, not_host_port, new_node, insert_one, insert_new, register, seed,
}
use secure_file_system.Scripts.Rotation.{IsKeyOf, create_user-lets_in}
use secure_file_system.Scripts.Users.{ExitStatus, Arguments, issue_key, create_user}

abbrev alice : User
alice = record {
  id = 7;
  email = codes "a@b.c";
  api_key_hash = hash_api_key sample_hashlib (codes "sfs_old");
}

abbrev node_a : StorageNode
node_a = new_node 1 (codes "a:80") 5

abbrev one_user : Database
one_user = record {
  users = alice ∷ [];
  files = [];
  nodes = node_a ∷ [];
  shards = [];
  audit_events = [];
}

abbrev rotate_alice : Arguments
rotate_alice = record { email = codes " A@b.c"; rotate = true }

-- A user who exists gets no second key without `--rotate`.
exists_run :
    (create_user sample_hashlib ascii_only
      (record rotate_alice { rotate = false })
      (codes "new")
      8
      one_user).0
    ≡ err 1
unfolding create_user issue_key strip lstrip rstrip nat_eq list_eq
exists_run = refl

ready : IsReady (hash_api_key sample_hashlib (codes "sfs_new")) 8 one_user.users
unfolding hash_api_key hex hex_digit utf8 nat_eq list_eq
ready = record { apart = (tt, tt); unused = (refl, tt); free = (refl, tt) }

rotated :
    (create_user sample_hashlib ascii_only rotate_alice (codes "new") 8 one_user).0
    ≡ ok (7, codes "sfs_new")
unfolding create_user issue_key strip lstrip rstrip nat_eq list_eq
rotated = refl

create_user-lets_in_example :
    let (result, db') =
      create_user sample_hashlib ascii_only rotate_alice (codes "new") 8 one_user in
    ((status : ExitStatus) × (result ≡ err status) × (db' ≡ one_user))
    ⊎ ((user_id : ℕ) × (api_key : Text) × (result ≡ ok (user_id, api_key))
        × IsKeyOf sample_hashlib ascii_only user_id api_key db')
create_user-lets_in_example =
    create_user-lets_in sample_hashlib ascii_only rotate_alice (codes "new") 8 one_user
      ascii_only-IsUnicode (refl, (refl, (refl, tt))) ready

seed_run : (seed ascii_only (λ i. 10 + i) 9 (codes "a:80, b:80,,b:80") one_user).0 ≡ ok (1, 3)
unfolding seed register insert_new insert_one split_addresses is_host_port non_empty split
    rpartition is_digits strip lstrip rstrip nat_eq list_eq
seed_run = refl

bad_entry_run : (seed ascii_only (λ i. 10 + i) 9 (codes "a:80,b") one_user).0 ≡ err not_host_port
unfolding seed_run
bad_entry_run = refl
