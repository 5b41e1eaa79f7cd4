-- ===== src/Util/Port/Free.antt =====
-- The search for a free port in cirrinad/util/util.go ends, and finds the first one.
use mathlib.Core.Bool.{false≢true}
use mathlib.Core.Path.{fun_ext}
use cirrina.Prelude.{
  ℕ, zero, suc, ◌+◌, ◌-◌, ◌%◌, ◌^◌, ◌<◌, ◌≡◌, refl, ◌∙◌, sym, ap, Bool, true, false, ◌||◌, Option,
  some, List, [], ◌∷◌, arith, Bool-cases, inl, inr, ok,
}
use cirrina.Strconv.{pos}
use cirrina.Util.Json.{Fields}
use cirrina.Util.Port.{
  contains_uint16, insert_port, sort_ports, search_port, CommandRun, get_free_tcp_port,
  parse_netstat_json_output,
}

contains-insert_port :
    (p : ℕ) (ports : List ℕ) (v : ℕ)
    → contains_uint16 (insert_port p ports) v ≡ contains_uint16 (p ∷ ports) v
unfolding contains_uint16 insert_port
contains-insert_port p [] v = refl
contains-insert_port p (q ∷ ports) v = ground (arith, contains-insert_port p ports v)

contains-sort_ports :
    (ports : List ℕ) (v : ℕ) → contains_uint16 (sort_ports ports) v ≡ contains_uint16 ports v
unfolding contains_uint16 sort_ports
contains-sort_ports [] v = refl
contains-sort_ports (p ∷ ports) v =
    ground (arith, contains-insert_port p (sort_ports ports) v, contains-sort_ports ports v)

-- `p` is the first port that is not taken, counting up from `first` and around.
pub record IsFirstFree (taken : ℕ → Bool) (first p : ℕ) : Type 0 where
  pub distance : ℕ
  pub at_distance : p ≡ (first + distance) % 2 ^ 16
  pub is_free : taken p ≡ false
  pub all_taken : (j : ℕ) → j < distance → taken ((first + j) % 2 ^ 16) ≡ true

around : (first j : ℕ) → ((first + 1) % 2 ^ 16 + j) % 2 ^ 16 ≡ (first + suc j) % 2 ^ 16
around first j = omega arith

here_lem : (first : ℕ) → first < 2 ^ 16 → (first + 0) % 2 ^ 16 ≡ first
here_lem first h = omega arith

module _ (taken : ℕ → Bool) where
  all_taken_from :
      (first d j : ℕ)
      → first < 2 ^ 16
      → taken first ≡ true
      → ((i : ℕ) → i < d → taken (((first + 1) % 2 ^ 16 + i) % 2 ^ 16) ≡ true)
      → j < suc d
      → taken ((first + j) % 2 ^ 16) ≡ true
  all_taken_from first d zero small t before lt = rw (here_lem first small) t
  all_taken_from first d (suc j) small t before lt = rw (← around first j) (before j (omega arith))

  shift_first :
      (first p : ℕ)
      → first < 2 ^ 16
      → taken first ≡ true
      → IsFirstFree taken ((first + 1) % 2 ^ 16) p
      → IsFirstFree taken first p
  shift_first first p small t found = record {
    distance = suc found.distance;
    at_distance = omega (arith, found.at_distance);
    is_free = found.is_free;
    all_taken = λ j lt. all_taken_from first found.distance j small t found.all_taken lt;
  }

  still_ahead :
      (first k : ℕ)
      → first < 2 ^ 16
      → taken first ≡ true
      → taken ((first + k) % 2 ^ 16) ≡ false
      → (j : ℕ) × (k ≡ suc j) × (taken (((first + 1) % 2 ^ 16 + j) % 2 ^ 16) ≡ false)
  still_ahead first zero small t free = absurd (false≢true (sym free ∙ rw (here_lem first small) t))
  still_ahead first (suc k) small t free = (k, refl, rw (around first k) free)

  search_port_lem :
      (fuel k first : ℕ)
      → first < 2 ^ 16
      → k < fuel
      → taken ((first + k) % 2 ^ 16) ≡ false
      → (p : ℕ) × (search_port fuel taken first ≡ some p) × IsFirstFree taken first p
  unfolding search_port
  search_port_lem zero k first small lt free = absurd (omega arith)
  search_port_lem (suc fuel) k first small lt free = elim (Bool-cases (taken first)) [
    | inr here ↦ (
      first,
      rw (here, search_port),
      record {
        distance = 0;
        at_distance = omega arith;
        is_free = here;
        all_taken = λ j none_before. absurd (omega arith);
      },
    )
    | inl other ↦
        let (j, same, ahead) = still_ahead first k small other free in
        let (p, found, is_first) =
          search_port_lem fuel j ((first + 1) % 2 ^ 16) (omega arith) (omega (arith, same)) ahead in
        (p, rw (other, search_port) found, shift_first first p small other is_first)
  ]

-- Neither in `ports` nor in `used`.
abbrev pub taken_in : List ℕ → List ℕ → ℕ → Bool
taken_in ports used p = contains_uint16 ports p || contains_uint16 used p

abbrev pub finished : Option Fields → CommandRun
finished output = record { output = output; stderr = ""; return_code = pos 0; failed = false }

taken-sort_ports :
    (ports used : List ℕ)
    → (λ (p : ℕ). contains_uint16 (sort_ports ports) p || contains_uint16 used p)
      ≡ taken_in ports used
taken-sort_ports ports used =
    fun_ext (λ p. ap (λ b. b || contains_uint16 used p) (contains-sort_ports ports p))

get_free_tcp_port_lem :
    (output : Option Fields) (ports used : List ℕ) (first : ℕ)
    → parse_netstat_json_output output ≡ ok ports
    → get_free_tcp_port (finished output) first used
      ≡ ok (search_port (2 ^ 16) (taken_in ports used) first)
unfolding get_free_tcp_port
get_free_tcp_port_lem output ports used first read =
    rw read (ap (λ t. ok (search_port (2 ^ 16) t first)) (taken-sort_ports ports used))

search_all :
    (taken : ℕ → Bool) (first free : ℕ)
    → first < 2 ^ 16
    → free < 2 ^ 16
    → taken free ≡ false
    → (p : ℕ) × (search_port (2 ^ 16) taken first ≡ some p) × IsFirstFree taken first p
search_all taken first free small small' is_free =
    let far : (first + (free + 2 ^ 16 - first) % 2 ^ 16) % 2 ^ 16 ≡ free = omega arith in
    search_port_lem taken (2 ^ 16) ((free + 2 ^ 16 - first) % 2 ^ 16) first small (omega arith)
      (rw far is_free)

-- If netstat ran and its output was read, and any port is neither listened on nor in use, the search
-- ends and returns the first such port from `first` on, going around after 65535.
pub get_free_tcp_port_found :
    (output : Option Fields) (ports used : List ℕ) (first free : ℕ)
    → parse_netstat_json_output output ≡ ok ports
    → first < 2 ^ 16
    → free < 2 ^ 16
    → taken_in ports used free ≡ false
    → (p : ℕ) × (get_free_tcp_port (finished output) first used ≡ ok (some p))
      × IsFirstFree (taken_in ports used) first p
get_free_tcp_port_found output ports used first free read small small' is_free =
    let (p, found, is_first) = search_all (taken_in ports used) first free small small' is_free in
    (p, get_free_tcp_port_lem output ports used first read ∙ ap ok found, is_first)
