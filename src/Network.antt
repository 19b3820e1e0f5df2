-- ===== src/Network.antt =====
-- The network between the API service and the storage nodes, a parameter of the model (httpx and
-- the nodes behind it), and the state of the API service: what it has committed, its open session,
-- and the requests it sent, the latest in front, each with what was committed at that time.
use secure_file_system.Base.{ℕ, Option, List, [], ◌∷◌}
use secure_file_system.Base.Lists.{All}
use secure_file_system.Base.Text.{Text, Bytes}
use secure_file_system.Database.{Database}
use secure_file_system.Http.{Request}

-- What the client reads of a response.
pub record Answer : Type 0 where
  pub status : ℕ
  -- X-Shard-Status
  pub shard_status : Option Text
  pub content : Bytes

-- An answer, an httpx.HTTPError, or another exception.
pub data Reply : Type 0 where
  response : Answer → Reply
  http_error network_exception : Reply

pub record Network : Type 1 where
  pub State : Type 0
  pub send : Text → Request → State → Reply × State

pub record Sent : Type 0 where
  pub committed : Database
  pub address : Text
  pub request : Request

pub record World (net : Network) : Type 0 where
  pub network : net.State
  pub committed : Database
  pub session : Database
  pub sent : List Sent

module _ {net : Network} where
  -- `await db.commit()`
  abbrev pub commit : World net → World net
  commit w = record w { committed = w.session }

  -- A change of the session.
  abbrev pub stage : (Database → Database) → World net → World net
  stage change w = record w { session = change w.session }

  -- `asyncio.gather(..., return_exceptions=True)`, in the order of the list.
  unfoldable pub gather {ℓ} :
      {X : Type 0} {A : Type ℓ}
      → (X → World net → A × World net)
      → List X
      → World net
      → List A × World net
  gather call [] w = ([], w)
  gather call (x ∷ xs) w =
      let (r, w') = call x w in let (rs, w'') = gather call xs w' in (r ∷ rs, w'')

pub gather-preserves :
    {net : Network} {X : Type 0} {A : Type 0} (P : World net → Type 0)
    (call : X → World net → A × World net) (xs : List X)
    → All (λ x. (w : World net) → P w → P (call x w).1) xs
    → (w : World net) → P w
    → P (gather call xs w).1
unfolding gather
gather-preserves P call [] hs w h = h
gather-preserves P call (x ∷ xs) hs w h = gather-preserves P call xs hs.1 (call x w).1 (hs.0 w h)
