-- ===== src/Vm/Args/NetDevs.antt =====
-- The search for a free network device ends: `getTapDev` and `getVmnetDev` of cirrinad/vm/args.go.
use native.Mathlib.Nat.{pow-suc}
use cirrina.Prelude.{
  ℕ, zero, suc, ◌+◌, ◌-◌, ◌^◌, ◌≤◌, ◌<◌, String, ◌≡◌, refl, sym, ap, ◌∙◌, ◌≢◌, true, false, Option,
  some, some-injective, List, [], ◌∷◌, ◌++◌, str_eq, eq_iff, if◌then◌else◌, length, arith,
  Bool-cases, inl, inr, if_split, if_both, false, ==_iff, ◌==◌, Member, Member-cons, here, there,
  Member-append_left, Member-append_right,
}
use mathlib.Core.Path.{subst}
use mathlib.Core.Bool.{false≢true}
use cirrina.Vm.Args.{is_stopped}
use cirrina.Vmnic.Table.{get_nics, select_nics}
use cirrina.Store.{Store}
use cirrina.Vmnic.{VmNic}
use cirrina.Vm.{Vm, Host}
use cirrina.Strconv.{Text, codes, append, format_uint, parse_uint}
use cirrina.Strconv.RoundTrip.{parse_uint-format_uint, codes-append}
use cirrina.Vm.Args.Net.{
  contains_str, search_dev, get_tap_dev, get_vmnet_dev, get_used_net_ports, net_devs, devs_of,
}

below_pow : (n : ℕ) → n < 2 ^ n
below_pow zero = omega arith
below_pow (suc n) = omega (arith, below_pow n, pow-suc 2 n)

behind : Text → Text → Text
behind [] t = t
behind (c ∷ s) [] = []
behind (c ∷ s) (d ∷ t) = behind s t

behind-append : (s t : Text) → behind s (s ++ t) ≡ t
unfolding behind
behind-append [] t = refl
behind-append (c ∷ s) t = behind-append s t

-- A number can be read off a device's name.
number_of :
    (prefix : String) (bits n : ℕ)
    → n ≤ 2 ^ bits - 1
    → parse_uint bits (behind (codes prefix) (codes (append prefix (format_uint n)))) ≡ some n
number_of prefix bits n h = rw (
  codes-append prefix (format_uint n),
  behind-append (codes prefix) (codes (format_uint n)),
  parse_uint-format_uint bits n h,
)

dev-injective :
    (prefix : String) (m n : ℕ)
    → append prefix (format_uint m) ≡ append prefix (format_uint n)
    → m ≡ n
dev-injective prefix m n e =
    let bits = m + n in
    let big = below_pow bits in
    let same = ap (λ (s : String). parse_uint bits (behind (codes prefix) (codes s))) e in
    some-injective (
      sym (number_of prefix bits m (omega (arith, big)))
      ∙ same
      ∙ number_of prefix bits n (omega (arith, big)))

without : String → List String → List String
without s [] = []
without s (x ∷ xs) = let rest = without s xs in if str_eq x s then rest else x ∷ rest

without-length_le : (s : String) (xs : List String) → length (without s xs) ≤ length xs
unfolding without
without-length_le s [] = omega arith
without-length_le s (x ∷ xs) =
    if_split (λ (r : List String). length r ≤ suc (length xs)) (str_eq x s)
      (λ e. omega (arith, without-length_le s xs)) (λ e. omega (arith, without-length_le s xs))

-- A name that is contained leaves a shorter list behind.
without-length :
    (s : String) (xs : List String) → contains_str xs s ≡ true → length (without s xs) < length xs
unfolding without contains_str
without-length s [] h = cc
without-length s (x ∷ xs) h = elim (Bool-cases (str_eq x s)) [
  | inl same ↦ rw (same, without) (omega (arith, without-length_le s xs))
  | inr other ↦
      let later = without-length s xs (ground (arith, eq_iff x s, eq_iff s x)) in
      rw (other, without) (omega (arith, later))
]

not_equal : (s t x : String) → s ≢ t → str_eq x s ≡ true → str_eq t x ≡ false
not_equal s t x h same = ground (arith, eq_iff x s, eq_iff t x)

contains_str-without :
    (s t : String) (xs : List String) → s ≢ t → contains_str (without s xs) t ≡ contains_str xs t
unfolding without contains_str
contains_str-without s t [] h = refl
contains_str-without s t (x ∷ xs) h = elim (Bool-cases (str_eq x s)) [
  | inl same ↦ rw (same, not_equal s t x h same) (contains_str-without s t xs h)
  | inr other ↦
      rw (other, without) (ap (λ b. if str_eq t x then true else b) (contains_str-without s t xs h))
]

abbrev pub Free : String → List String → Option String → Type 0
Free prefix taken o =
    (n : ℕ) × (o ≡ some (append prefix (format_uint n)))
    × (contains_str taken (append prefix (format_uint n)) ≡ false)

-- The names that are still to come are taken only if they stand in `left`, so a search with more
-- fuel than `left` is long ends.
search_dev-among :
    (prefix : String) (taken : List String) (fuel num : ℕ) (left : List String)
    → length left < fuel
    → ((k : ℕ)
        → num ≤ k
        → contains_str taken (append prefix (format_uint k)) ≡ true
        → contains_str left (append prefix (format_uint k)) ≡ true)
    → Free prefix taken (search_dev fuel prefix taken num)
unfolding search_dev
search_dev-among prefix taken zero num left h still = elim h [ ]
search_dev-among prefix taken (suc fuel) num left h still =
    let dev = append prefix (format_uint num) in
    if_split (Free prefix taken) (contains_str taken dev)
      (λ used.
        search_dev-among prefix taken fuel (num + 1) (without dev left)
          (omega (arith, without-length dev left (still num (omega arith) used)))
          (λ k later in_taken.
            contains_str-without dev (append prefix (format_uint k)) left
              (λ e. omega (arith, dev-injective prefix num k e))
            ∙ still k (omega arith) in_taken))
      (λ free. (num, refl, free))

pub search_dev-finds :
    (prefix : String) (taken : List String)
    → Free prefix taken (search_dev (suc (length taken)) prefix taken 0)
search_dev-finds prefix taken =
    search_dev-among prefix taken (suc (length taken)) 0 taken (omega arith) (λ k h e. e)

contains_str-Member : (x : String) (xs : List String) → Member x xs → contains_str xs x ≡ true
unfolding contains_str
contains_str-Member x [] m = elim m [ ]
contains_str-Member x (y ∷ ys) m = elim (Member-cons m) [
  | inl same ↦ ground (arith, eq_iff x y)
  | inr later ↦ ground (arith, contains_str-Member x ys later)
]

module _ (store : Store VmNic) (host : Host) (vms : List Vm) where
  open store use {Db, rows, query_fails}

  -- The table can be read, and a row of it gives the device to a NIC of a VM that is not stopped.
  pub record InUse (dev : String) (db : Db) : Type 0 where
    pub vm : Vm
    pub nic : VmNic
    pub listed : Member vm vms
    pub active : is_stopped vm.status ≡ false
    pub readable : query_fails db ≡ false
    pub row : Member nic (rows db)
    pub own : nic.config_id ≡ vm.config.id
    pub device : nic.net_dev ≡ dev

  -- A numbered device that is no interface of the host, and not in use.
  abbrev pub IsUnused : String → Db → Option String → Type 0
  IsUnused prefix db o =
      (n : ℕ) × (o ≡ some (append prefix (format_uint n)))
      × (¬ Member (append prefix (format_uint n)) host.interfaces)
      × (¬ InUse (append prefix (format_uint n)) db)

  dev_listed :
      (c : ℕ) (nic : VmNic) (rs : List VmNic)
      → Member nic rs
      → nic.config_id ≡ c
      → Member nic.net_dev (net_devs (select_nics store c rs))
  unfolding select_nics
  dev_listed c nic [] m own = elim m [ ]
  dev_listed c nic (r ∷ rs) m own = elim (Member-cons m) [
    | inl same ↦
        let chosen : (r.config_id == c) ≡ true =
          (==_iff r.config_id c).1 (ap (λ y. y.config_id) (sym same) ∙ own) in
        rw (chosen) (here (ap (λ y. y.net_dev) same))
    | inr later ↦
        if_both (λ (l : List VmNic). Member nic.net_dev (net_devs l)) (r.config_id == c)
          (there (dev_listed c nic rs later own)) (dev_listed c nic rs later own)
  ]

  used_listed :
      (dev : String) (v : Vm) (nic : VmNic) (others : List Vm) (db : Db)
      → query_fails db ≡ false
      → Member nic (rows db)
      → nic.config_id ≡ v.config.id
      → nic.net_dev ≡ dev
      → is_stopped v.status ≡ false
      → Member v others
      → Member dev (get_used_net_ports store others db)
  unfolding get_used_net_ports get_nics
  used_listed dev v nic [] db readable row own device active m = elim m [ ]
  used_listed dev v nic (u ∷ others) db readable row own device active m = elim (Member-cons m) [
    | inl same ↦
        let runs : is_stopped u.status ≡ false =
          ap (λ w. is_stopped w.status) (sym same) ∙ active in
        let mine : nic.config_id ≡ u.config.id = own ∙ ap (λ w. w.config.id) same in
        let here_now : Member dev (net_devs (select_nics store u.config.id (rows db))) =
          subst (λ (d : String). Member d (net_devs (select_nics store u.config.id (rows db))))
            device (dev_listed u.config.id nic (rows db) row mine) in
        rw (get_used_net_ports, runs, get_nics, readable)
          (Member-append_left dev (net_devs (select_nics store u.config.id (rows db)))
            (get_used_net_ports store others db) here_now)
    | inr later ↦
        let rest = used_listed dev v nic others db readable row own device active later in
        if_both (λ (l : List String). Member dev l) (is_stopped u.status) rest
          (Member-append_right dev (devs_of (get_nics store u.config.id db))
            (get_used_net_ports store others db) rest)
  ]

  unused :
      (prefix : String) (db : Db) (o : Option String)
      → Free prefix (host.interfaces ++ get_used_net_ports store vms db) o
      → IsUnused prefix db o
  unused prefix db o (n, found, free) =
      let dev = append prefix (format_uint n) in
      let taken = host.interfaces ++ get_used_net_ports store vms db in
      let absent : ¬ Member dev taken =
        λ m. false≢true (sym free ∙ contains_str-Member dev taken m) in
      (
        n,
        found,
        (λ m. absent (Member-append_left dev host.interfaces (get_used_net_ports store vms db) m)),
        λ u. absent (
            Member-append_right dev host.interfaces (get_used_net_ports store vms db) (
              used_listed dev u.vm u.nic vms db u.readable u.row u.own u.device u.active u.listed)),
      )

  -- On every host and every set of VMs both searches end, with a numbered device whose name is not
  -- that of an interface of the host and, where the table of NICs can be read, not that of the device
  -- in a row of any NIC of a VM that is not stopped.
  pub net_dev_search_ends :
      (db : Db)
      → IsUnused "tap" db (get_tap_dev store host vms db)
        × IsUnused "vmnet" db (get_vmnet_dev store host vms db)
  unfolding get_tap_dev get_vmnet_dev
  net_dev_search_ends db =
      let taken = host.interfaces ++ get_used_net_ports store vms db in
      (
        unused "tap" db (get_tap_dev store host vms db) (search_dev-finds "tap" taken),
        unused "vmnet" db (get_vmnet_dev store host vms db) (search_dev-finds "vmnet" taken),
      )
