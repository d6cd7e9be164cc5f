-- ===== src/Registration/Calls.antt =====
-- What the contributor controller asks of the API server about trackers. The server is left open:
-- `ApiServer` has the calls that the code makes, `Lawful` what they document.
use patch_operator.Base.{◌≡◌, ◌≢◌, ◌⊎◌, refl, inl, inr, Bool, Option, none, some, Text}
use patch_operator.Api.Status.{TrackerStatus}
use patch_operator.Scope.{TargetKey}

-- a tracker, as the API server has it
pub record Tracked : Type 0 where
  pub target : TargetKey
  pub has_finalizer : Bool
  pub deleting : Bool
  pub status : TrackerStatus

-- a kind and a `client.ObjectKey`
pub data ObjectKey : Type 0 where
  shared_resource : Text → Text → ObjectKey
  cluster_shared_resource : Text → ObjectKey

pub data Read : Type 0 where
  found : Tracked → Read
  nothing unread : Read

-- the error of a write: none, AlreadyExists, NotFound or another
pub data WriteReply : Type 0 where
  accepted existing vanished unsent : WriteReply

-- `read` is the uncached `Get`, `cached` the one of the manager's client, `create` is `Create` and
-- `write_status` is `Status().Update`.
pub record ApiServer (S : Type 0) : Type 0 where
  pub read : S → ObjectKey → Read
  pub cached : S → ObjectKey → Read
  pub create : S → ObjectKey → Tracked → S × WriteReply
  pub write_status : S → ObjectKey → Tracked → S × WriteReply

-- `live` is what the server has stored. An uncached read tells what is stored, or fails. A write
-- leaves the other objects alone and the named one as it was or as written: after an error, the
-- caller does not know which. Nothing is said of a cached read.
pub record Lawful {S : Type 0} (api : ApiServer S) (live : S → ObjectKey → Option Tracked)
    : Type 0 where
  pub read-found :
      {s : S} {k : ObjectKey} {t : Tracked} → api.read s k ≡ found t → live s k ≡ some t
  pub read-nothing : {s : S} {k : ObjectKey} → api.read s k ≡ nothing → live s k ≡ none
  pub create-elsewhere :
      (s : S) (k : ObjectKey) (t : Tracked) (j : ObjectKey)
      → j ≢ k
      → live (api.create s k t).0 j ≡ live s j
  pub create-there :
      (s : S) (k : ObjectKey) (t : Tracked)
      → (live (api.create s k t).0 k ≡ live s k)
        ⊎ ((live s k ≡ none) × (live (api.create s k t).0 k ≡ some t))
  pub write-elsewhere :
      (s : S) (k : ObjectKey) (t : Tracked) (j : ObjectKey)
      → j ≢ k
      → live (api.write_status s k t).0 j ≡ live s j
  pub write-there :
      (s : S) (k : ObjectKey) (t : Tracked)
      → (live (api.write_status s k t).0 k ≡ live s k)
        ⊎ (live (api.write_status s k t).0 k ≡ some t)
  pub write-accepted :
      (s : S) (k : ObjectKey) (t : Tracked)
      → (api.write_status s k t).1 ≡ accepted
      → live (api.write_status s k t).0 k ≡ some t
  pub write-vanished :
      (s : S) (k : ObjectKey) (t : Tracked)
      → (api.write_status s k t).1 ≡ vanished
      → live (api.write_status s k t).0 k ≡ none

pub Read-cases : (r : Read) → ((t : Tracked) × (r ≡ found t)) ⊎ ((r ≡ nothing) ⊎ (r ≡ unread))
Read-cases (found t) = inl (t, refl)
Read-cases nothing = inr (inl refl)
Read-cases unread = inr (inr refl)
