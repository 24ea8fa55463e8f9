-- ===== src/Program/Arguments.antt =====
-- What the arguments of src/main.cpp choose, told by the last argument of each kind.
use rtsp_server.Prelude.{
  ℕ, ◌≡◌, refl, inl, inr, Bool, true, false, ◌||◌, [], ◌∷◌, List, Option, none, some, if◌then◌else◌,
  Bool-cases, Option-cases,
}
use rtsp_server.Prelude.Bits.{Bytes}
use rtsp_server.Utils.StringUtils.{parse_host_port}
use rtsp_server.Program.{
  Config, Reading, usage, invalid, reads, is_help, is_verbose, is_address, read_address,
  read_argument, read_arguments,
}

-- An argument, by what it says.
pub data Kind : Type 0 where
  helps verboses : Kind
  addresses : Bytes → ℕ → Kind
  garbles : Kind
  names : Kind

-- The kind of an argument, its address read.
unfoldable pub kind : Bytes → Kind
kind arg =
    if is_help arg
    then helps
    else if is_verbose arg
    then verboses
    else if is_address arg
    then elim (parse_host_port arg) [ none ↦ garbles | some (h, p) ↦ addresses h p ]
    else names

-- The last directory of the arguments, and the last address.
unfoldable pub last_directory : Bytes → List Bytes → Bytes
last_directory dir [] = dir
last_directory dir (arg ∷ args) = elim (kind arg) [
  | names ↦ last_directory arg args
  | _ ↦ last_directory dir args
]

unfoldable pub last_address : Bytes × ℕ → List Bytes → Bytes × ℕ
last_address a [] = a
last_address a (arg ∷ args) = elim (kind arg) [
  | addresses h p ↦ last_address (h, p) args
  | _ ↦ last_address a args
]

-- Whether an argument ends the program.
unfoldable pub stops : Bytes → Bool
stops arg = elim (kind arg) [ helps ↦ true | garbles ↦ true | _ ↦ false ]

unfoldable pub any_stops : List Bytes → Bool
any_stops [] = false
any_stops (arg ∷ args) = stops arg || any_stops args

-- The loop's answer, without the logger's level.
abbrev pub choice : Reading → Option (Bytes × Bytes × ℕ)
choice usage = none
choice (invalid a) = none
choice (reads c) = some (c.media_dir, c.host, c.port)

-- `read_argument` by the kind.
unfoldable pub step : Bytes → Kind → Config → Reading
step arg helps c = usage
step arg verboses c = reads (record c { verbose = true })
step arg (addresses h p) c = reads (record c { host = h; port = p })
step arg garbles c = invalid arg
step arg names c = reads (record c { media_dir = arg })

read_argument_lem : (arg : Bytes) (c : Config) → read_argument arg c ≡ step arg (kind arg) c
unfolding read_argument kind step read_address
read_argument_lem arg c = elim (Bool-cases (is_help arg)) [
  | inl h ↦ rw (h, if◌then◌else◌) refl
  | inr h ↦ elim (Bool-cases (is_verbose arg)) [
    | inl v ↦ rw (h, v, if◌then◌else◌) refl
    | inr v ↦ elim (Bool-cases (is_address arg)) [
      | inl a ↦ elim (Option-cases (parse_host_port arg)) [
        | inl n ↦ rw (h, v, a, if◌then◌else◌) (rw (n, read_address) refl)
        | inr (x, n) ↦ rw (h, v, a, if◌then◌else◌) (rw (n, read_address) refl)
      ]
      | inr a ↦ rw (h, v, a, if◌then◌else◌) refl
    ]
  ]
]

-- What the loop chooses, by the kinds.
unfoldable pub expected : List Bytes → Bytes → Bytes × ℕ → Option (Bytes × Bytes × ℕ)
expected args dir a =
    if any_stops args
    then none
    else (let (h, p) = last_address a args in some (last_directory dir args, h, p))

by_kind :
    (arg : Bytes) (args : List Bytes) (c : Config) (k : Kind)
    → kind arg ≡ k
    → ((c' : Config)
        → choice (read_arguments args c') ≡ expected args c'.media_dir (c'.host, c'.port))
    → choice (read_arguments (arg ∷ args) c) ≡ expected (arg ∷ args) c.media_dir (c.host, c.port)
unfolding read_arguments expected any_stops stops last_directory last_address step
by_kind arg args c helps e ih =
    rw (read_argument_lem arg c, e, read_arguments, any_stops, stops, last_directory, last_address)
      refl
by_kind arg args c verboses e ih =
    rw (read_argument_lem arg c, e, read_arguments, any_stops, stops, last_directory, last_address)
      (ih (record c { verbose = true }))
by_kind arg args c (addresses h p) e ih =
    rw (read_argument_lem arg c, e, read_arguments, any_stops, stops, last_directory, last_address)
      (ih (record c { host = h; port = p }))
by_kind arg args c garbles e ih =
    rw (read_argument_lem arg c, e, read_arguments, any_stops, stops, last_directory, last_address)
      refl
by_kind arg args c names e ih =
    rw (read_argument_lem arg c, e, read_arguments, any_stops, stops, last_directory, last_address)
      (ih (record c { media_dir = arg }))

-- The program ends on its arguments exactly when one of them asks for help or has a colon and is
-- not an address; otherwise it has the last directory and the last address of the arguments, and
-- the values from before the loop where there is none.
pub read_arguments_lem :
    (args : List Bytes) (c : Config)
    → choice (read_arguments args c) ≡ expected args c.media_dir (c.host, c.port)
unfolding read_arguments expected any_stops last_directory last_address
read_arguments_lem [] c = refl
read_arguments_lem (arg ∷ args) c = by_kind arg args c (kind arg) refl (read_arguments_lem args)
