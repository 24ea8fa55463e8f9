-- ===== src/Program.antt =====
-- src/main.cpp: the arguments of the program, its checks and its exit status.
pub mod Arguments
use rtsp_server.Prelude.{ℕ, Bool, true, false, ◌||◌, [], ◌∷◌, List, none, some, if◌then◌else◌}
use rtsp_server.Prelude.Bits.{Bytes}
use rtsp_server.Prelude.Text.{codes, bytes_eq, contains}
use rtsp_server.Utils.StringUtils.{parse_host_port}

-- The variables of `main`, and whether the logger was set to DEBUG.
pub record Config : Type 0 where
  pub media_dir : Bytes
  pub host : Bytes
  pub port : ℕ
  pub verbose : Bool

-- How the loop over the arguments goes on or returns.
pub data Reading : Type 0 where
  usage : Reading
  invalid : Bytes → Reading
  reads : Config → Reading

-- `media_dir`, `host` and `port` before the loop, in the directory `cwd`.
unfoldable pub defaults : Bytes → Config
defaults cwd = record { media_dir = cwd; host = codes "0.0.0.0"; port = 554; verbose = false }

unfoldable pub is_help : Bytes → Bool
is_help arg = bytes_eq arg (codes "-h") || bytes_eq arg (codes "--help")

unfoldable pub is_verbose : Bytes → Bool
is_verbose arg = bytes_eq arg (codes "-v") || bytes_eq arg (codes "--verbose")

unfoldable pub is_address : Bytes → Bool
is_address arg = contains (codes ":") arg

-- The argument that contains a colon.
unfoldable pub read_address : Bytes → Config → Reading
read_address arg c = elim (parse_host_port arg) [
  | none ↦ invalid arg
  | some (h, p) ↦ reads (record c { host = h; port = p })
]

-- One round of the loop.
unfoldable pub read_argument : Bytes → Config → Reading
read_argument arg c =
    if is_help arg
    then usage
    else if is_verbose arg
    then reads (record c { verbose = true })
    else if is_address arg
    then read_address arg c
    else reads (record c { media_dir = arg })

unfoldable pub read_arguments : List Bytes → Config → Reading
read_arguments [] c = reads c
read_arguments (arg ∷ args) c = elim (read_argument arg c) [
  | usage ↦ usage
  | invalid a ↦ invalid a
  | reads c' ↦ read_arguments args c'
]

-- What `main` does: it prints the usage, or an error, or runs a server on a configuration.
pub data Exit : Type 0 where
  shows_usage : Exit
  refuses : Bytes → Exit
  serves : Config → Exit

-- The file system's `is_directory` and `canonical` are parameters.
module _ (is_directory : Bytes → Bool) (canonical : Bytes → Bytes) where
  unfoldable pub check_directory : Config → Exit
  check_directory c =
      if is_directory c.media_dir
      then serves (record c { media_dir = canonical c.media_dir })
      else refuses c.media_dir

  unfoldable pub after_arguments : Reading → Exit
  after_arguments usage = shows_usage
  after_arguments (invalid arg) = refuses arg
  after_arguments (reads c) = check_directory c

  -- `main` up to the server, for the arguments after the program's name.
  unfoldable pub main : Bytes → List Bytes → Exit
  main cwd args = after_arguments (read_arguments args (defaults cwd))

-- The status that `main` returns, with what `RTSPServer::run` returns for a configuration.
unfoldable pub exit_status : (Config → Bool) → Exit → ℕ
exit_status run shows_usage = 0
exit_status run (refuses arg) = 1
exit_status run (serves c) = if run c then 0 else 1
