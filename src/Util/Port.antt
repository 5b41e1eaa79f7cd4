-- ===== src/Util/Port.antt =====
-- Ports in use and the search for a free one: `parseNetstatSocket`, `parseNetstatJSONOutput`,
-- `ContainsUint16` and `GetFreeTCPPort` of cirrinad/util/util.go.
-- The run of netstat is an argument: what it printed, already decoded, and how it ended.
pub mod Free
pub mod Listening
use mathlib.Core.List.{reverse}
use cirrina.Prelude.{
  ℕ, zero, suc, ◌+◌, ◌%◌, ◌^◌, String, ◌≡◌, refl, Bool, true, false, not, ◌&&◌, ◌||◌, Option, none,
  some, List, [], ◌∷◌, ◌++◌, leb, ◌==◌, str_eq, if◌then◌else◌, Result, ok, err, ◌>>=◌,
}
use cirrina.Strconv.{Text, codes, text_eq, parse_uint, ℤ, pos, negsuc}
use cirrina.Util.Json.{
  Json, text, object, array, Items, nil, cons, Fields, end, entry, field, as_text, as_array,
  as_object,
}

unfoldable pub contains_uint16 : List ℕ → ℕ → Bool
contains_uint16 [] v = false
contains_uint16 (s ∷ elems) v = let rest = contains_uint16 elems v in if v == s then true else rest

pub data PortError : Type 0 where
  no_tcp_socket missing_tcp_stat no_listen_port no_listen_socket port_not_found : PortError
  port_not_parsable invalid_port failed_parsing socket_not_found bad_json command_failed : PortError

-- `unicode.IsSpace`
unfoldable pub is_space : ℕ → Bool
is_space c =
    (leb 9 c && leb c 13)
    || c == 0x20
    || c == 0x85
    || c == 0xa0
    || c == 0x1680
    || (leb 0x2000 c && leb c 0x200a)
    || c == 0x2028
    || c == 0x2029
    || c == 0x202f
    || c == 0x205f
    || c == 0x3000

trim_left : Text → Text
trim_left [] = []
trim_left (c ∷ s) = let rest = trim_left s in if is_space c then rest else c ∷ s

-- `strings.TrimSpace`
unfoldable pub trim_space : Text → Text
unfolding trim_left is_space
trim_space s = reverse (trim_left (reverse (trim_left s)))

-- `v == "s"` at an interface value
abbrev is_text : Option Json → String → Bool
is_text (some (text s)) t = str_eq s t
is_text _ t = false

abbrev pub or_error : {A : Type 0} → PortError → Option A → Result PortError A
or_error e none = err e
or_error e (some a) = ok a

-- `port, valid := local["port"]`, then `port.(string)`
read_port : Option Json → Result PortError ℕ
read_port none = err port_not_found
read_port (some j) = do
  p ← or_error port_not_parsable (as_text (some j))
  or_error invalid_port (parse_uint 16 (codes p))

unfoldable pub parse_netstat_socket : Fields → Result PortError ℕ
unfolding field read_port trim_space text_eq
parse_netstat_socket socket =
    let protocol = field "protocol" socket in
    if not (is_text protocol "tcp4")
      && not (is_text protocol "tcp46")
      && not (is_text protocol "tcp6")
    then err no_tcp_socket
    else do
      state ← or_error missing_tcp_stat (as_text (field "tcp-state" socket))
      if not (text_eq (trim_space (codes state)) (codes "LISTEN")) then err no_listen_port else do
        local ← or_error no_listen_socket (as_object (field "local" socket))
        read_port (field "port" local)

pub add_port : List ℕ → Result PortError ℕ → List ℕ
unfolding contains_uint16
add_port ports (err e) = ports
add_port ports (ok port) = if not (contains_uint16 ports port) then ports ++ port ∷ [] else ports

-- The loop over `sockets`; a value that is no object, or does not parse, is passed over.
unfoldable pub collect_ports : List ℕ → Items → List ℕ
collect_ports ports nil = ports
collect_ports ports (cons (object socket) sockets) =
    collect_ports (add_port ports (parse_netstat_socket socket)) sockets
collect_ports ports (cons _ sockets) = collect_ports ports sockets

-- `none`: the output is no JSON object.
unfoldable pub parse_netstat_json_output : Option Fields → Result PortError (List ℕ)
unfolding field add_port collect_ports
parse_netstat_json_output output = do
  result ← or_error bad_json output
  statistics ← or_error failed_parsing (as_object (field "statistics" result))
  sockets ← or_error socket_not_found (as_array (field "socket" statistics))
  ok (collect_ports [] sockets)

insert_port : ℕ → List ℕ → List ℕ
insert_port p [] = p ∷ []
insert_port p (q ∷ ports) = if leb p q then p ∷ q ∷ ports else q ∷ insert_port p ports

-- `sort.Slice` by `<`
pub sort_ports : List ℕ → List ℕ
unfolding insert_port
sort_ports [] = []
sort_ports (p ∷ ports) = insert_port p (sort_ports ports)

-- The loop on a uint16, which wraps around; fuel counts the ports that it may still try.
pub search_port : ℕ → (ℕ → Bool) → ℕ → Option ℕ
search_port zero taken port = none
search_port (suc fuel) taken port = elim (taken port) [
  | true ↦ search_port fuel taken ((port + 1) % 2 ^ 16)
  | false ↦ some port
]

-- How a command ended: `RunCmd`'s results.
pub record CommandRun : Type 0 where
  pub output : Option Fields
  pub stderr : String
  pub return_code : ℤ
  pub failed : Bool

pub is_zero : ℤ → Bool
is_zero (pos n) = n == 0
is_zero (negsuc n) = false

-- After 2 ^ 16 tries every port was found taken and the loop goes round for ever: `ok none`.
unfoldable pub get_free_tcp_port : CommandRun → ℕ → List ℕ → Result PortError (Option ℕ)
unfolding sort_ports search_port is_zero contains_uint16
get_free_tcp_port run first_vnc_port used_vnc_ports =
    if not (str_eq run.stderr "") || not (is_zero run.return_code) || run.failed
    then err command_failed
    else do
      listening ← parse_netstat_json_output run.output
      let ports = sort_ports listening
      let taken = λ (p : ℕ). contains_uint16 ports p || contains_uint16 used_vnc_ports p
      ok (search_port (2 ^ 16) taken first_vnc_port)
