-- ===== src/Interfaces.antt =====
-- interface_kind.py: what an interface name denotes, and one spelling for it. Names are ASCII.
use ai_ops.Prelude.{
  String, Bool, true, false, not, ◌&&◌, Option, none, some, List, [], ◌∷◌, str_eq, str_append, any,
  keep, if◌then◌else◌, strip, without_prefix, has_code, starts_alpha,
}

pub data InterfaceKind : Type 0 where
  physical subinterface aggregate virtual management unknown : InterfaceKind

abbrev pub physical_prefixes : List String
physical_prefixes =
    "GigabitEthernet" ∷ "TenGigE" ∷ "TwentyFiveGigE" ∷ "FortyGigE" ∷ "HundredGigE"
    ∷ "FourHundredGigE" ∷ "Ethernet" ∷ "Gi" ∷ "Te" ∷ "Twe" ∷ "Fo" ∷ "Hu" ∷ "FH" ∷ []

abbrev pub aggregate_prefixes : List String
aggregate_prefixes = "Bundle-Ether" ∷ "BE" ∷ []

abbrev pub virtual_prefixes : List String
virtual_prefixes =
    "Loopback" ∷ "Null" ∷ "BVI" ∷ "tunnel-te" ∷ "tunnel-ip" ∷ "tunnel-mte" ∷ "srte_c_" ∷ "Lo" ∷ "Nu"
    ∷ "BV" ∷ []

abbrev pub management_prefixes : List String
management_prefixes = "MgmtEth" ∷ "Mg" ∷ []

abbrev is_found : Option String → Bool
is_found none = false
is_found (some s) = true

-- `any(name.startswith(prefix) for prefix in prefixes)`
unfoldable pub starts_with_any : List String → String → Bool
unfolding without_prefix
starts_with_any prefixes name = any (λ p. is_found (without_prefix p name)) prefixes

classify_stripped : String → InterfaceKind
unfolding starts_with_any has_code
classify_stripped name =
    if str_eq name ""
    then unknown
    else if has_code b'.' name
    then subinterface
    else if starts_with_any management_prefixes name
    then management
    else if starts_with_any aggregate_prefixes name
    then aggregate
    else if starts_with_any virtual_prefixes name
    then virtual
    else if starts_with_any physical_prefixes name
    then physical
    else unknown

unfoldable pub classify : String → InterfaceKind
unfolding classify_stripped strip
classify name = classify_stripped (strip name)

abbrev is_physical : InterfaceKind → Bool
is_physical physical = true
is_physical _ = false

abbrev is_unknown : InterfaceKind → Bool
is_unknown unknown = true
is_unknown _ = false

unfoldable pub physical_members : List String → List String × List String
unfolding classify
physical_members names =
    (keep (λ n. is_physical (classify n)) names, keep (λ n. is_unknown (classify n)) names)

abbrev pub expansions : List (String × String)
expansions =
    ("GigabitEthernet", "GigabitEthernet")
    ∷ ("TenGigE", "TenGigE")
    ∷ ("TwentyFiveGigE", "TwentyFiveGigE")
    ∷ ("FortyGigE", "FortyGigE")
    ∷ ("HundredGigE", "HundredGigE")
    ∷ ("FourHundredGigE", "FourHundredGigE")
    ∷ ("Gi", "GigabitEthernet")
    ∷ ("Te", "TenGigE")
    ∷ ("Twe", "TwentyFiveGigE")
    ∷ ("Fo", "FortyGigE")
    ∷ ("Hu", "HundredGigE")
    ∷ ("FH", "FourHundredGigE")
    ∷ ("BE", "Bundle-Ether")
    ∷ ("Bundle-Ether", "Bundle-Ether")
    ∷ ("Lo", "Loopback")
    ∷ ("Loopback", "Loopback")
    ∷ ("Mg", "MgmtEth")
    ∷ ("MgmtEth", "MgmtEth")
    ∷ ("Mgmt", "MgmtEth")
    ∷ ("Null", "Null")
    ∷ ("Nu", "Null")
    ∷ ("BVI", "BVI")
    ∷ ("BV", "BVI")
    ∷ ("tunnel-ip", "tunnel-ip")
    ∷ ("ti", "tunnel-ip")
    ∷ ("tunnel-te", "tunnel-te")
    ∷ ("tt", "tunnel-te")
    ∷ []

abbrev pick : Option String → String → String → String
pick none long otherwise = otherwise
pick (some rest) long otherwise = if starts_alpha rest then otherwise else str_append long rest

-- the loop of `canonical` over the table
unfoldable pub expand : List (String × String) → String → String
unfolding without_prefix starts_alpha
expand [] name = name
expand ((short, long) ∷ table) name = pick (without_prefix short name) long (expand table name)

unfoldable pub canonical : String → String
unfolding expand strip
canonical name = if str_eq (strip name) "" then "" else expand expansions (strip name)

unfoldable pub same_interface : String → String → Bool
unfolding canonical
same_interface left right = not (str_eq left "") && str_eq (canonical left) (canonical right)
