-- ===== src/Commands.antt =====
-- src/main.rs: the commands, and what the runtime does first when one worker is run.
pub mod Upload
pub mod One
use serverlessd.Prelude.{
  ℕ, Bool, ◌||◌, ◌==◌, if◌then◌else◌, [], ◌∷◌, Option, none, some, Outcome, returns, panics, ◌>>=◌,
  Result, ok, err, replicate,
}
use serverlessd.Prelude.Text.{Str, codes}
use serverlessd.Pod.{Allocator}
use serverlessd.CodeStore.{
  RegexCrate, FileSystem, FilePath, Bytes, join, workers_dir, CodeStoreError,
}
use serverlessd.Serverless.{
  Workers, create_worker_request, upload_worker_request, request_trigger, Serverless, serve,
}
use serverlessd.App.{created, uploaded}

-- What the upload command prints.
pub data Printed : Type 0 where
  failed_to_open : Printed
  successfully_written : Printed
  failed_to_write : Printed

pub record UploadArgs : Type 0 where
  pub file : FilePath
  pub name : Str

pub record OneArgs : Type 0 where
  pub file : FilePath
  pub port : Option ℕ
  pub host : Option Str

pub record RunArgs : Type 0 where
  pub port : Option ℕ
  pub host : Option Str
  pub n_pods : ℕ
  pub n_workers_per_pod : ℕ

pub record CleanArgs : Type 0 where
  pub y : Bool

pub data Command : Type 0 where
  one : OneArgs → Command
  run : RunArgs → Command
  clean : CleanArgs → Command
  upload : UploadArgs → Command

abbrev unwrap_or {ℓ} : {A : Type ℓ} → Option A → A → A
unwrap_or none a = a
unwrap_or (some b) a = b

abbrev pub default_secret : Str
default_secret = replicate 32 b'0'

-- `buf.to_lowercase().starts_with("y")`: no character but these two has a small form that begins
-- with a y.
unfoldable pub is_yes : Str → Bool
is_yes [] = Bool.false
is_yes (c ∷ s) = c == b'y' || c == b'Y'

module _ (fs : FileSystem) where
  open fs use {Disk, IoError, write, read_to_string}

  outcome_of : Result (Unit {0}) IoError × Disk → Printed × Disk
  outcome_of (ok _, d) = (successfully_written, d)
  outcome_of (err _, d) = (failed_to_write, d)

  -- `contents` is what `fs::read` gives of the file.
  pub upload_command : UploadArgs → Option Bytes → Disk → Printed × Disk
  unfolding outcome_of
  upload_command args none d = (failed_to_open, d)
  upload_command args (some contents) d = outcome_of (write (join workers_dir args.file) contents d)

-- What is not of this program: the environment, the standard input, two calls of the file system,
-- and the parser of addresses.
pub record System (fs : FileSystem) : Type 1 where
  pub IpAddr : Type 0
  pub ip_from_str : Str → Option IpAddr
  pub secret : Option Str
  pub stdin_line : Str
  pub read : FilePath → fs.Disk → Option Bytes
  pub remove_dir_all : FilePath → fs.Disk → fs.Disk

module _ (fs : FileSystem) (sys : System fs) where
  open sys use {IpAddr, ip_from_str, secret, stdin_line, read, remove_dir_all}

  -- What a command comes to: a message and the end, or a runtime that is started with these
  -- arguments.
  pub data Launch : Type 0 where
    no_source : Launch
    no_secret : Launch
    canceled : Launch
    cleaned : Launch
    uploaded_as : Printed → Launch
    start_one_at : Str → IpAddr × ℕ → Str → Launch
    start_at : ℕ → ℕ → IpAddr × ℕ → Str → Launch

  unfoldable pub socket_addr : Option Str → Option ℕ → Outcome (IpAddr × ℕ)
  socket_addr host port = elim (ip_from_str (unwrap_or host (codes "127.0.0.1"))) [
    | none ↦ panics
    | some ip ↦ returns (ip, unwrap_or port 3000)
  ]

  unfoldable pub one_command : OneArgs → Option Str → Outcome Launch
  unfolding socket_addr
  one_command args none = returns no_source
  one_command args (some source) = do
    addr ← socket_addr args.host args.port
    returns (start_one_at source addr (unwrap_or secret default_secret))

  unfoldable pub run_command : RunArgs → Option Str → Outcome Launch
  unfolding socket_addr
  run_command args none = returns no_secret
  run_command args (some key) = do
    addr ← socket_addr args.host args.port
    returns (start_at args.n_pods args.n_workers_per_pod addr key)

  unfoldable pub clean_command : CleanArgs → fs.Disk → Launch × fs.Disk
  unfolding is_yes
  clean_command args d =
      if args.y || is_yes stdin_line
      then (cleaned, remove_dir_all (codes ".serverlessd/") d)
      else (canceled, d)

  unfoldable pub printed : Printed × fs.Disk → Launch × fs.Disk
  printed (p, d) = (uploaded_as p, d)

  unfoldable pub main : Command → fs.Disk → Outcome (Launch × fs.Disk)
  unfolding one_command run_command printed
  main (one args) d = do
    launch ← one_command args (fs.read_to_string args.file d)
    returns (launch, d)
  main (run args) d = do launch ← run_command args secret; returns (launch, d)
  main (clean args) d = returns (clean_command args d)
  main (upload args) d = returns (printed (upload_command fs args (read args.file d) d))

-- How the start of one worker ends: an error message, or a worker of a pod, after which the server
-- is waited for.
pub data Started : Type 0 where
  failed_to_upload : Started
  failed_to_create : Started
  running : ℕ → ℕ → Started

abbrev pub index : Str
index = codes "index"

module _ (a : Allocator) (rx : RegexCrate) (fs : FileSystem) where
  placed : Option (ℕ × ℕ) → Started
  placed none = failed_to_create
  placed (some (pod_id, pod_worker_id)) = running pod_id pod_worker_id

  create_index :
      Workers
      → Option (CodeStoreError rx fs)
      → Serverless a rx fs
      → Outcome (Started × Serverless a rx fs)
  unfolding placed created
  create_index workers (some e) s = returns (failed_to_upload, s)
  create_index workers none s = do
    (reply, s') ← serve a rx fs workers (request_trigger (create_worker_request index)) s
    returns (placed (created a rx fs reply), s')

  -- The calls that `start_one` makes of a runtime that has been started.
  pub start_one : Workers → Bytes → Serverless a rx fs → Outcome (Started × Serverless a rx fs)
  unfolding create_index uploaded
  start_one workers source s = do
    (reply, s') ← serve a rx fs workers (request_trigger (upload_worker_request index source)) s
    create_index workers (uploaded a rx fs reply) s'
