-- ===== src/OsLevel/Counters.antt =====
-- The counters of /proc that cc_mqtt_monitor/oslevel.py reads: `read_udp_stats`,
-- `read_ip_reasm_fails`, `read_nic_stats`, `read_meminfo` and `read_psi_memory`.
-- A line is given as its words; `int` and `float` of a word are inputs.
use cc_rms_mqtt_monitor.Base.{
  ℕ, zero, suc, ◌+◌, ◌/◌, String, Bool, not, ◌&&◌, ◌||◌, Option, none, some, List, [], ◌∷◌, ltb,
  if◌then◌else◌, str_eq, contains, has_prefix, Dict, lookup, insert, or_else, length,
}

-- `dict(zip(header, cols))`
unfoldable pub zip_row : List String → List String → Dict String
zip_row [] cols = []
zip_row (h ∷ hs) [] = []
zip_row (h ∷ hs) (c ∷ cs) = insert h c (zip_row hs cs)

-- the row of values under the first row of names of a protocol
unfoldable pub snmp_row : String → Option (List String) → List (List String) → Option (Dict String)
snmp_row proto header [] = none
snmp_row proto header ([] ∷ lines) = snmp_row proto header lines
snmp_row proto none ((w ∷ cols) ∷ lines) =
    snmp_row proto (if has_prefix proto w then some cols else none) lines
snmp_row proto (some names) ((w ∷ cols) ∷ lines) =
    let rest = snmp_row proto (some names) lines in
    if has_prefix proto w then some (zip_row names cols) else rest

unfoldable pub number_at : (String → Option ℕ) → String → Dict String → Option ℕ
number_at to_int key row = elim (lookup key row) [ none ↦ none | some v ↦ to_int v ]

-- both or neither
unfoldable pub both : Option ℕ → Option ℕ → Option ℕ × Option ℕ
both none b = (none, none)
both (some a) none = (none, none)
both (some a) (some b) = (some a, some b)

unfoldable pub udp_of : (String → Option ℕ) → Option (Dict String) → Option ℕ × Option ℕ
udp_of to_int none = (none, none)
udp_of to_int (some row) =
    both (number_at to_int "RcvbufErrors" row) (number_at to_int "InDatagrams" row)

unfoldable pub read_udp_stats : (String → Option ℕ) → List (List String) → Option ℕ × Option ℕ
read_udp_stats to_int lines = udp_of to_int (snmp_row "Udp:" none lines)

unfoldable pub reasm_of : (String → Option ℕ) → Option (Dict String) → Option ℕ
reasm_of to_int none = none
reasm_of to_int (some row) = number_at to_int "ReasmFails" row

unfoldable pub read_ip_reasm_fails : (String → Option ℕ) → List (List String) → Option ℕ
read_ip_reasm_fails to_int lines = reasm_of to_int (snmp_row "Ip:" none lines)

-- an interface of /proc/net/dev with its numbers
pub record Device : Type 0 where
  pub name : String
  pub fields : List ℕ

pub record NicTotals : Type 0 where
  pub rx_err : ℕ
  pub rx_drop : ℕ
  pub tx_err : ℕ

-- `f[i]`, 0 where there are not as many
unfoldable pub field : ℕ → List ℕ → ℕ
field i [] = 0
field zero (v ∷ vs) = v
field (suc i) (v ∷ vs) = field i vs

-- the interfaces that the sum takes in
unfoldable pub is_counted : Option (List String) → String → Bool
is_counted none n =
    not (str_eq n "lo" || has_prefix "veth" n || has_prefix "docker" n || has_prefix "br-" n)
is_counted (some names) n = contains n names

unfoldable pub add_device : Device → NicTotals → NicTotals
add_device d t = record {
  rx_err = t.rx_err + (field 2 d.fields + field 4 d.fields + field 5 d.fields);
  rx_drop = t.rx_drop + field 3 d.fields;
  tx_err = t.tx_err + (field 10 d.fields + field 14 d.fields);
}

unfoldable pub sum_devices : Option (List String) → List Device → NicTotals → NicTotals
sum_devices interfaces [] t = t
sum_devices interfaces (d ∷ ds) t =
    sum_devices interfaces ds
      (if is_counted interfaces d.name && not (ltb (length d.fields) 12) then add_device d t else t)

unfoldable pub read_nic_stats : Option (List String) → List Device → NicTotals
read_nic_stats interfaces ds =
    sum_devices interfaces ds (record { rx_err = 0; rx_drop = 0; tx_err = 0 })

pub record Memory : Type 0 where
  pub mem_available_mb : Option ℕ
  pub mem_total_mb : Option ℕ
  pub swap_free_mb : Option ℕ

-- `round(kb / 1024.0)`
unfoldable pub to_mb : ℕ → ℕ
to_mb kb = (kb + 512) / 1024

-- the fields of /proc/meminfo in kilobytes, none where it cannot be read
unfoldable pub read_meminfo : Option (Dict ℕ) → Memory
read_meminfo none = record { mem_available_mb = none; mem_total_mb = none; swap_free_mb = none }
read_meminfo (some f) = record {
  mem_available_mb = some (to_mb (or_else (lookup "MemAvailable" f) 0));
  mem_total_mb = some (to_mb (or_else (lookup "MemTotal" f) 0));
  swap_free_mb = some (to_mb (or_else (lookup "SwapFree" f) 0));
}

pub record Psi : Type 0 where
  pub some_avg10 : Option ℕ
  pub full_avg10 : Option ℕ
  pub full_avg60 : Option ℕ

-- the fields of a line of /proc/pressure/memory that parse, by its first word
unfoldable pub psi_line : String → Dict ℕ → Psi → Psi
psi_line kind f r =
    if str_eq kind "some"
    then record r { some_avg10 = elim (lookup "avg10" f) [ none ↦ r.some_avg10 | some v ↦ some v ] }
    else if str_eq kind "full"
    then elim (lookup "avg10" f) [
      | none ↦ r
      | some v ↦ record r {
        full_avg10 = some v;
        full_avg60 = elim (lookup "avg60" f) [ none ↦ r.full_avg60 | some w ↦ some w ];
      }
    ]
    else r

unfoldable pub psi_lines : List (String × Dict ℕ) → Psi → Psi
psi_lines [] r = r
psi_lines ((kind, f) ∷ ls) r = psi_lines ls (psi_line kind f r)

-- `read_psi_memory`, of no line where the file cannot be read
unfoldable pub read_psi_memory : List (String × Dict ℕ) → Psi
read_psi_memory ls =
    psi_lines ls (record { some_avg10 = none; full_avg10 = none; full_avg60 = none })
