-- ===== src/Host.antt =====
-- Everything that the driver calls outside its own code, as calls with replies; the environment
-- that answers them; and the monad of pkg/csi, which logs each call and stops at an error.
pub mod Keeps
pub mod Calls
pub mod Succeeds
pub mod Files
pub mod Locking
pub mod Ends
pub mod Triple
pub mod Costs
pub mod Since
use zerofs_csi_driver.Base.{◌≡◌, refl, ℕ, Bool, Option, none, some, List, [], ◌∷◌, Str}
use zerofs_csi_driver.Base.Text.{Dict}
use zerofs_csi_driver.Base.Text.Decimal.{ℤ}
use zerofs_csi_driver.Kube.{Secret, Pod, PersistentVolume}
use zerofs_csi_driver.Process.{Registration, Driver, Flags}

-- What `CombinedOutput` gives: the text, and whether `err` is not nil.
pub record Output : Type 0 where
  pub text : Str
  pub failed : Bool

-- `os.Stat`: the age of the file in nanoseconds, `os.IsNotExist(err)`, or another error.
pub data Stat : Type 0 where
  found : ℕ → Stat
  not_exist : Stat
  stat_error : Stat

-- `os.ReadFile`
pub data Read : Type 0 where
  contents : Str → Read
  missing : Read
  read_error : Read

-- A client call: its value, or the text of its error.
pub data Answer (A : Type 0) : Type 0 where
  got : A → Answer A
  refused : Str → Answer A

-- `os.Remove`: done, `os.IsNotExist(err)`, or another error.
pub data Removal : Type 0 where
  removed absent not_removed : Removal

pub data Call : Type 0 where
  stat : Str → Call
  read_file : Str → Call
  write_file : Str → Str → Call
  create_excl : Str → Call
  write_string : Str → Str → Call
  remove : Str → Call
  mkdir_all : Str → Call
  glob : Str → Call
  exec : Str → List Str → Call
  sleep : ℕ → Call
  ctx_done : Call
  lock : Call
  unlock : Call
  observe : Str → Str → Call
  stage_error : Str → Str → Call
  start_timer : ℤ → Call
  get_config_map : Str → Str → Call
  get_secret : Str → Str → Call
  get_pod : Str → Str → Call
  get_daemon_set : Str → Str → Call
  create_secret : Secret → Call
  update_secret : Secret → Call
  delete_secret : Str → Str → Call
  create_pod : Pod → Call
  delete_pod : Str → Str → Call
  force_delete_pod : Str → Str → Call
  get_persistent_volume : Str → Call
  list_persistent_volumes : Call
  get_claim : Str → Str → Call
  get_storage_class : Str → Call
  load_aws_config : Str → Str → Str → Call
  list_objects : Str → Str → Call
  next_page : Call
  delete_objects : Str → List Str → Call
  get_env : Str → Call
  new_server : ℕ → Call
  register : Registration → Call
  go_reconcile : Call
  listen : Str → Str → Call
  go_serve : Str → Call
  await_done : Call
  graceful_stop : Call
  parse_flags : Flags → Call
  get_config : Call
  new_manager : Str → Str → Call
  add_driver : Driver → Call
  start_manager : Call

-- A Boolean reply says that the call succeeded. A timer's argument is in nanoseconds. The reply to `start_timer` is how often the loop
-- that it bounds takes its ticker before the deadline; that to `list_objects` how many pages the
-- paginator has; a key on a page may be nil.
abbrev pub Reply : Call → Type 0
Reply (Call.stat p) = Stat
Reply (Call.read_file p) = Read
Reply (Call.write_file p x) = Bool
Reply (Call.create_excl p) = Bool
Reply (Call.write_string p x) = Bool
Reply (Call.remove p) = Removal
Reply (Call.mkdir_all p) = Bool
Reply (Call.glob p) = Option (List Str)
Reply (Call.exec p args) = Output
Reply (Call.sleep n) = Unit
Reply Call.ctx_done = Bool
Reply Call.lock = Unit
Reply Call.unlock = Unit
Reply (Call.observe o t) = Unit
Reply (Call.stage_error o t) = Unit
Reply (Call.start_timer n) = ℕ
Reply (Call.get_config_map ns n) = Answer Dict
Reply (Call.get_secret ns n) = Answer Secret
Reply (Call.get_pod ns n) = Answer Pod
Reply (Call.get_daemon_set ns n) = Answer Str
Reply (Call.create_secret x) = Answer Unit
Reply (Call.update_secret x) = Answer Unit
Reply (Call.delete_secret ns n) = Answer Unit
Reply (Call.create_pod x) = Answer Unit
Reply (Call.delete_pod ns n) = Answer Unit
Reply (Call.force_delete_pod ns n) = Answer Unit
Reply (Call.get_persistent_volume n) = Answer PersistentVolume
Reply Call.list_persistent_volumes = Answer (List PersistentVolume)
Reply (Call.get_claim ns n) = Answer (Option Str)
Reply (Call.get_storage_class n) = Answer Dict
Reply (Call.load_aws_config r k x) = Bool
Reply (Call.list_objects b p) = ℕ
Reply Call.next_page = Answer (List (Option Str))
Reply (Call.delete_objects b ks) = Answer Unit
Reply (Call.get_env name) = Str
Reply (Call.new_server timeout) = Unit
Reply (Call.register r) = Unit
Reply Call.go_reconcile = Unit
Reply (Call.listen network p) = Bool
Reply (Call.go_serve p) = Unit
Reply Call.await_done = Str
Reply Call.graceful_stop = Unit
Reply (Call.parse_flags defaults) = Flags
Reply Call.get_config = Bool
Reply (Call.new_manager address namespace) = Bool
Reply (Call.add_driver d) = Bool
Reply Call.start_manager = Bool

pub data Event : Type 0 where
  did : (c : Call) → Reply c → Event

-- The rest of the node and of the cluster.
pub record Env : Type 1 where
  pub World : Type 0
  pub answer : (c : Call) → World → Reply c × World

-- The world, and the calls made so far, the latest first.
pub record Sys (E : Env) : Type 0 where
  pub world : E.World
  pub log : List Event

pub data Code : Type 0 where
  invalid_argument internal resource_exhausted unknown : Code

-- A returned `error`: its gRPC code (`unknown` if it has none) and the fixed part of its text.
pub record Err : Type 0 where
  pub code : Code
  pub message : Str

pub data Result (A : Type 0) : Type 0 where
  ok : A → Result A
  err : Err → Result A

abbrev pub Exec : Env → Type 0 → Type 0
Exec E A = Sys E → Result A × Sys E

module _ {E : Env} where
  unfoldable pub perform : (c : Call) → Exec E (Reply c)
  perform c s =
      let (r, w) = E.answer c s.world in (ok r, record { world = w; log = did c r ∷ s.log })

  unfoldable pub pure : {A : Type 0} → A → Exec E A
  pure a s = (ok a, s)

  unfoldable pub fail : {A : Type 0} → Code → Str → Exec E A
  fail c m s = (err (record { code = c; message = m }), s)

  -- A call whose `error` the caller looks at, and goes on.
  unfoldable pub attempt : {A : Type 0} → Exec E A → Exec E (Result A)
  attempt m s = let (r, t) = m s in (ok r, t)

  abbrev pub resume : {A B : Type 0} → Result A → (A → Exec E B) → Exec E B
  resume (ok a) f s = f a s
  resume (err e) f s = (err e, s)

  -- Branches on what a call replied.
  unfoldable pub on_option : {A B : Type 0} → Option A → (A → Exec E B) → Exec E B → Exec E B
  on_option (some a) f n = f a
  on_option none f n = n

  unfoldable pub on_answer :
      {A B : Type 0} → Answer A → (A → Exec E B) → (Str → Exec E B) → Exec E B
  on_answer (got a) f g = f a
  on_answer (refused text) f g = g text

  unfoldable pub on_stat : {B : Type 0} → Stat → (ℕ → Exec E B) → Exec E B → Exec E B → Exec E B
  on_stat (found age) f m n = f age
  on_stat not_exist f m n = m
  on_stat stat_error f m n = n

  infixl 5 ◌>>=◌ ◌>>◌
  -- Opening this opens the other ways to build an action.
  unfoldable pub ◌>>=◌ : {A B : Type 0} → Exec E A → (A → Exec E B) → Exec E B
  unfolding perform pure fail attempt on_option on_answer on_stat
  ◌>>=◌ m f s = let (r, t) = m s in resume r f t

  abbrev pub ◌>>◌ : {A B : Type 0} → Exec E A → Exec E B → Exec E B
  m >> k = m >>= λ _. k

  -- `mu.Lock()`, `m`, `mu.Unlock()`: the lock is given back also when `m` fails.
  unfoldable pub with_lock : {A : Type 0} → Exec E A → Exec E A
  with_lock m = do perform Call.lock; r ← attempt m; perform Call.unlock; resume r pure
