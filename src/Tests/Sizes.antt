-- ===== src/Tests/Sizes.antt =====
-- Runs of cirrinad/util/util.go and cirrinad/vmnic/vm_nics.go.
use cirrina.Prelude.{
  ℕ, ◌*◌, ◌%◌, ◌≤◌, String, ◌≡◌, refl, ◌↔◌, ◌≢◌, true, false, none, some, [], ◌∷◌, ◌++◌, arith,
  ◌==◌, ok, err, All, if◌then◌else◌,
}
use cirrina.Strconv.{Text, codes, append, format_uint, parse_uint}
use cirrina.Util.Json.{text, object, array, nil, cons, Items, Fields, end, entry}
use cirrina.Util.Size.{parse_disk_size, parse_disk_size_suffix, min_size, max_size, bad_number}
use cirrina.Util.Size.Exact.{
  parse_disk_size_iff, parse_disk_size-format_uint, SizeUnit, unit_text, unit_size,
}
use cirrina.Util.Name.{valid_disk_name}
use cirrina.Util.Name.Laws.{valid_disk_name_iff, valid_disk_name-stays, IsFileChar}
use cirrina.Util.Port.{
  parse_netstat_json_output, parse_netstat_socket, get_free_tcp_port, contains_uint16,
}
use cirrina.Util.Port.Free.{get_free_tcp_port_found, IsFirstFree, taken_in, finished}
use cirrina.Util.Mac.{mac_is_multicast, mac_string, all_ones}
use cirrina.Vmnic.{parse_nic_mac, invalid_mac_broadcast}
use cirrina.Vmnic.Mac.{parse_nic_mac_outcome}

parse_disk_size_iff_example :
    ((parse_disk_size (codes "2G") ≡ ok 2147483648) ↔ (
      (k : ℕ) × (parse_uint 64 (parse_disk_size_suffix (codes "2G")).0 ≡ some k)
      × (2147483648 ≡ k * (parse_disk_size_suffix (codes "2G")).1)
      × (min_size ≤ 2147483648)
      × (2147483648 ≤ max_size)))
    × ((parse_disk_size (codes "2G") ≡ err bad_number)
        ↔ (parse_uint 64 (parse_disk_size_suffix (codes "2G")).0 ≡ none))
parse_disk_size_iff_example = parse_disk_size_iff (codes "2G") 2147483648

parse_disk_size-format_uint_example :
    parse_disk_size (codes (append (format_uint 20) (unit_text SizeUnit.upper_g)))
    ≡ ok (20 * unit_size SizeUnit.upper_g)
parse_disk_size-format_uint_example =
    parse_disk_size-format_uint 20 SizeUnit.upper_g (omega arith) (omega arith)

abbrev disk_name : String
disk_name = "a..b"

valid_disk_name_iff_example : (valid_disk_name disk_name ≡ true) ↔ (
    (disk_name ≢ "")
    × All IsFileChar (codes disk_name)
    × ((pre post : Text) → codes disk_name ≢ pre ++ (b'.' ∷ b'.' ∷ post))
    × ((post : Text) → codes disk_name ≢ b'.' ∷ post))
valid_disk_name_iff_example = valid_disk_name_iff disk_name

disk0_is_valid : valid_disk_name "disk.0" ≡ true
unfolding valid_disk_name
disk0_is_valid = refl

valid_disk_name-stays_example :
    All (λ c. c ≢ b'/') (codes "disk.0")
    × (codes "disk.0" ≢ codes ".")
    × (codes "disk.0" ≢ codes "..")
valid_disk_name-stays_example = valid_disk_name-stays "disk.0" disk0_is_valid

abbrev ssh_socket : Fields
ssh_socket = entry "protocol" (text "tcp4") (
    entry "tcp-state" (text "LISTEN     ")
      (entry "local" (object (entry "port" (text "5900") end)) end))

abbrev sockets : Items
sockets = cons (object ssh_socket) nil

abbrev netstat_output : Fields
netstat_output = entry "statistics" (object (entry "socket" (array sockets) end)) end

ports_of_output : parse_netstat_json_output (some netstat_output) ≡ ok (5900 ∷ [])
unfolding parse_netstat_json_output parse_netstat_socket parse_uint
ports_of_output = refl

port_is_free : taken_in (5900 ∷ []) (5901 ∷ []) 5902 ≡ false
unfolding contains_uint16
port_is_free = refl

get_free_tcp_port_found_example :
    (p : ℕ) × (get_free_tcp_port (finished (some netstat_output)) 5900 (5901 ∷ []) ≡ ok (some p))
    × IsFirstFree (taken_in (5900 ∷ []) (5901 ∷ [])) 5900 p
get_free_tcp_port_found_example =
    get_free_tcp_port_found (some netstat_output) (5900 ∷ []) (5901 ∷ []) 5900 5902 ports_of_output
      (omega arith) (omega arith) port_is_free

parse_nic_mac_outcome_example :
    (mac_is_multicast (codes (mac_string (1 ∷ 2 ∷ 3 ∷ 4 ∷ 5 ∷ 6 ∷ []))) ≡ ok (1 % 2 == 1))
    × (parse_nic_mac (mac_string (1 ∷ 2 ∷ 3 ∷ 4 ∷ 5 ∷ 6 ∷ [])) ≡ (
        if all_ones (1 ∷ 2 ∷ 3 ∷ 4 ∷ 5 ∷ 6 ∷ [])
        then err invalid_mac_broadcast
        else ok (mac_string (1 ∷ 2 ∷ 3 ∷ 4 ∷ 5 ∷ 6 ∷ []))))
parse_nic_mac_outcome_example =
    parse_nic_mac_outcome 1 2 3 4 5 6
      (omega arith, (omega arith, (omega arith, (omega arith, (omega arith, (omega arith, tt))))))
