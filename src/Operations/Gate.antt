-- ===== src/Operations/Gate.antt =====
-- The lock and the maintenance gate of one device in operations.py. The lock is an `asyncio.Lock`:
-- it goes to the first that waits when it is released, and no one overtakes those that wait.
use Prim.Native.String.{String}
use text.Mathlib.Text.{◌==◌}
use esp_iris.Common.{
  ◌≡◌, ◌≢◌, Bool, true, false, if◌then◌else◌, ◌||◌, List, [], ◌∷◌, ◌++◌, Option, none, some, Result,
  ok, err,
}
use esp_iris.Operations.Rows.{OperationError, device_maintenance}

pub data Owner : Type 0 where
  maintenance : Owner
  operation : String → Owner

-- `entering` are the operations that have passed the gate and not yet asked for the lock, and `running`
-- those with `_Pending.running` that hold the lock for their call. The operations that are executed
-- with `serialized=False` take no lock: `unserialized` have passed the gate, and `unlocked` run.
pub record Gate : Type 0 where
  pub lock : Option Owner
  pub waiters : List Owner
  pub entering : List String
  pub running : List String
  pub unserialized : List String
  pub unlocked : List String
  pub maintenance_pending : Bool
  pub maintenance_active : Bool

-- A gateway starts with the gate closed for a device whose lease is not finished.
abbrev pub initial : Bool → Gate
initial restored = record {
  lock = none;
  waiters = [];
  entering = [];
  running = [];
  unserialized = [];
  unlocked = [];
  maintenance_pending = false;
  maintenance_active = restored;
}

abbrev pub in_maintenance : Gate → Bool
in_maintenance g = g.maintenance_active || g.maintenance_pending

unfoldable pub take_lock : Owner → Option Owner → List Owner → Gate → Gate
take_lock owner none [] g = record g { lock = some owner }
take_lock owner none (w ∷ waiters) g = record g { waiters = (w ∷ waiters) ++ owner ∷ [] }
take_lock owner (some held) waiters g = record g { waiters = waiters ++ owner ∷ [] }

-- `lock.acquire()`
unfoldable pub acquire_lock : Owner → Gate → Gate
unfolding take_lock
acquire_lock owner g = take_lock owner g.lock g.waiters g

unfoldable pub pass_lock : List Owner → Gate → Gate
pass_lock [] g = record g { lock = none }
pass_lock (w ∷ waiters) g = record g { lock = some w; waiters = waiters }

-- `lock.release()`
unfoldable pub release_lock : Gate → Gate
unfolding pass_lock
release_lock g = pass_lock g.waiters g

-- The removal of one that waits.
abbrev pub same_owner : Owner → Owner → Bool
same_owner maintenance maintenance = true
same_owner (operation i) (operation j) = i == j
same_owner _ _ = false

unfoldable pub without : Owner → List Owner → List Owner
without owner [] = []
without owner (w ∷ waiters) =
    if same_owner w owner then without owner waiters else w ∷ without owner waiters

unfoldable pub remove_id : String → List String → List String
remove_id id [] = []
remove_id id (i ∷ ids) = if i == id then remove_id id ids else i ∷ remove_id id ids

abbrev pub contains : String → List String → Bool
contains id [] = false
contains id (i ∷ ids) = (i == id) || contains id ids

-- `acquire_maintenance` up to its wait for the lock.
unfoldable pub ask_maintenance : Gate → Result OperationError Gate
unfolding acquire_lock
ask_maintenance g =
    if in_maintenance g
    then err device_maintenance
    else ok (acquire_lock maintenance (record g { maintenance_pending = true }))

-- `acquire_maintenance` with the lock, and after a timeout.
unfoldable pub begin_maintenance : Gate → Gate
begin_maintenance g = record g { maintenance_pending = false; maintenance_active = true }

unfoldable pub abandon_maintenance : Gate → Gate
unfolding without
abandon_maintenance g = record g {
  maintenance_pending = false;
  waiters = without maintenance g.waiters;
}

-- `release_maintenance`
unfoldable pub release_if : Option Owner → Gate → Gate
unfolding release_lock
release_if none g = g
release_if (some owner) g = release_lock g

unfoldable pub release_maintenance : Gate → Gate
unfolding release_if
release_maintenance g =
    release_if g.lock (record g { maintenance_pending = false; maintenance_active = false })

-- `execute`: the test of the gate, `async with` of the lock, the call, and the end of the call.
abbrev pub admit : Bool → String → Gate → Gate
admit true id g = record g { entering = id ∷ g.entering }
admit false id g = record g { unserialized = id ∷ g.unserialized }

unfoldable pub enter_operation : Bool → String → Gate → Result OperationError Gate
enter_operation serialized id g =
    if in_maintenance g then err device_maintenance else ok (admit serialized id g)

unfoldable pub ask_lock : String → Gate → Gate
unfolding acquire_lock remove_id
ask_lock id g = acquire_lock (operation id) (record g { entering = remove_id id g.entering })

unfoldable pub start_call : String → Gate → Gate
start_call id g = record g { running = id ∷ g.running }

unfoldable pub leave_operation : String → Gate → Gate
unfolding release_lock remove_id
leave_operation id g = release_lock (record g { running = remove_id id g.running })

-- The call and its end without the lock.
unfoldable pub start_unlocked : String → Gate → Gate
unfolding remove_id
start_unlocked id g = record g {
  unserialized = remove_id id g.unserialized;
  unlocked = id ∷ g.unlocked;
}

unfoldable pub leave_unlocked : String → Gate → Gate
unfolding remove_id
leave_unlocked id g = record g { unlocked = remove_id id g.unlocked }

-- A task that is cancelled before it has the lock, or before its call without the lock.
unfoldable pub stop_waiting : String → Gate → Gate
unfolding without remove_id
stop_waiting id g = record g {
  waiters = without (operation id) g.waiters;
  entering = remove_id id g.entering;
  unserialized = remove_id id g.unserialized;
}

-- The steps between two waits of the tasks. A lease is released only while it is active. A call
-- without the lock starts once its operation has passed the gate, whatever has come since.
pub data Step : Gate → Gate → Type 0 where
  enter :
      {g h : Gate} (serialized : Bool) (id : String)
      → enter_operation serialized id g ≡ ok h
      → Step g h
  ask : {g : Gate} (id : String) → contains id g.entering ≡ true → Step g (ask_lock id g)
  start :
      {g : Gate} (id : String)
      → g.lock ≡ some (operation id)
      → contains id g.running ≡ false
      → Step g (start_call id g)
  leave : {g : Gate} (id : String) → g.lock ≡ some (operation id) → Step g (leave_operation id g)
  run_unlocked :
      {g : Gate} (id : String) → contains id g.unserialized ≡ true → Step g (start_unlocked id g)
  end_unlocked :
      {g : Gate} (id : String) → contains id g.unlocked ≡ true → Step g (leave_unlocked id g)
  cancel : {g : Gate} (id : String) → Step g (stop_waiting id g)
  ask_for_maintenance : {g h : Gate} → ask_maintenance g ≡ ok h → Step g h
  maintain :
      {g : Gate}
      → g.lock ≡ some maintenance
      → g.maintenance_pending ≡ true
      → Step g (begin_maintenance g)
  abandon :
      {g : Gate}
      → g.lock ≢ some maintenance
      → g.maintenance_pending ≡ true
      → Step g (abandon_maintenance g)
  release : {g : Gate} → g.maintenance_active ≡ true → Step g (release_maintenance g)

pub data Reach : Gate → Gate → Type 0 where
  here : {g : Gate} → Reach g g
  next : {g h k : Gate} → Step g h → Reach h k → Reach g k
