-- ===== src/Record/Server.antt =====
-- The Kubernetes API server that keeps the records, as its clients rely on it.
use k8s_deploy_monitor_opera.Prelude.{
  ℕ, ◌≤◌, ◌<◌, Bool, true, false, Option, none, some, List, GoString, ◌==◌, ◌≡◌, ◌≢◌, ◌⊎◌,
}
use k8s_deploy_monitor_opera.Record.{Item}

pub data CreateResult : Type 0 where
  created : CreateResult
  already_exists : CreateResult
  create_failed : GoString → CreateResult

-- The clients' calls, in the namespace of the records. A read that fails is `none`; a write reports
-- whether it succeeded.
pub record Client : Type 1 where
  pub Server : Type 0
  pub get : GoString → Server → Option Item
  pub list_records : Server → Option (List Item)
  pub create : Item → Server → Server × CreateResult
  pub update_status : Item → Server → Server × Bool
  pub delete : GoString → Server → Server × Bool

-- What the server keeps, and its revision.
pub record Contents (client : Client) : Type 0 where
  pub stored : GoString → client.Server → Option Item
  pub revision : client.Server → ℕ

module _ {client : Client} (c : Contents client) where
  -- One object after a write: it is as before, or gone, or has a version that is new.
  abbrev pub IsSucceeded : GoString → client.Server → client.Server → Type 0
  IsSucceeded n s s' =
      (c.stored n s' ≡ c.stored n s)
      ⊎ ((c.stored n s' ≡ none)
          ⊎ ((it : Item) × (c.stored n s' ≡ some it) × (c.revision s < it.version)))

  -- Versions only grow, and none is given twice.
  pub record IsVersioned : Type 0 where
    pub bounded :
        (n : GoString) (s : client.Server) (it : Item)
        → c.stored n s ≡ some it
        → it.version ≤ c.revision s
    pub update_grows :
        (it : Item) (s : client.Server) → c.revision s ≤ c.revision (client.update_status it s).0
    pub delete_grows :
        (n : GoString) (s : client.Server) → c.revision s ≤ c.revision (client.delete n s).0
    pub create_grows :
        (it : Item) (s : client.Server) → c.revision s ≤ c.revision (client.create it s).0
    pub updated :
        (n : GoString) (it : Item) (s : client.Server)
        → IsSucceeded n s (client.update_status it s).0
    pub deleted : (n m : GoString) (s : client.Server) → IsSucceeded n s (client.delete m s).0
    pub made :
        (n : GoString) (it : Item) (s : client.Server) → IsSucceeded n s (client.create it s).0

  -- An update of the status succeeds on the version that is stored, and only on it. One that
  -- changes the status gives a new version, and keeps all but the status. Other objects stay.
  pub record IsOptimistic : Type 0 where
    pub conflict :
        (it : Item) (s : client.Server)
        → (client.update_status it s).1 ≡ true
        → (old : Item) × (c.stored it.name s ≡ some old) × (old.version ≡ it.version)
    pub replaces :
        (it old : Item) (s : client.Server)
        → (client.update_status it s).1 ≡ true
        → c.stored it.name s ≡ some old
        → old.status ≢ it.status
        → (new : Item) × (c.stored it.name (client.update_status it s).0 ≡ some new)
          × (c.revision s < new.version)
          × (new ≡ record old { status = it.status; version = new.version })
    pub separate :
        (n : GoString) (it : Item) (s : client.Server)
        → it.name == n ≡ false
        → c.stored n (client.update_status it s).0 ≡ c.stored n s

  -- A read that succeeds returns what is stored, and an object has the name it is stored under.
  pub record IsConsistent : Type 0 where
    pub current :
        (n : GoString) (s : client.Server) (it : Item)
        → client.get n s ≡ some it
        → c.stored n s ≡ some it
    pub own_name :
        (n : GoString) (s : client.Server) (it : Item) → c.stored n s ≡ some it → it.name ≡ n

  -- No call fails for another reason than a conflict.
  pub record IsReliable : Type 0 where
    pub reads :
        (n : GoString) (s : client.Server) (it : Item)
        → c.stored n s ≡ some it
        → client.get n s ≡ some it
    pub writes :
        (it old : Item) (s : client.Server)
        → c.stored it.name s ≡ some old
        → old.version ≡ it.version
        → (client.update_status it s).1 ≡ true
    pub named :
        (n : GoString) (s : client.Server) (it : Item) → c.stored n s ≡ some it → it.name ≡ n
