-- ===== src/Gateway/Ports.antt =====
-- ServedPorts of internal/gateway/status.go: the TCP ports of the listen addresses. It calls
-- net.SplitHostPort and strconv.ParseUint of Go's standard library and skips an address on any error
-- of these, so that an error here is `none`.
pub mod Served
pub mod Tests
use Prim.Native.Char.{Char, code}
use rsync_gateway.Prelude.{
  ℕ, zero, suc, ◌+◌, ◌*◌, ◌-◌, Bool, true, false, not, ◌&&◌, ◌||◌, List, [], ◌∷◌, Option, none,
  some, String, nat_eq, leb, if◌then◌else◌, any_of,
}

pub is_colon : Char → Bool
is_colon c = nat_eq (code c) 58

pub is_open : Char → Bool
is_open c = nat_eq (code c) 91

pub is_close : Char → Bool
is_close c = nat_eq (code c) 93

pub has : (Char → Bool) → String → Bool
has p String.[] = false
has p (String.◌∷◌ c s) = if p c then true else has p s

-- What stands behind the first character of a sort.
pub behind : (Char → Bool) → String → Option String
behind p String.[] = none
behind p (String.◌∷◌ c s) = let rest = behind p s in if p c then some s else rest

-- The last colon divides the host from the port; a host that is not in brackets has no colon of its own, and
-- no bracket is allowed but the two around the host.
plain_port : String → Option String
unfolding has behind is_colon is_open is_close
plain_port s = elim (behind is_colon s) [
  | none ↦ none
  | some port ↦ if has is_colon port || has is_open s || has is_close s then none else some port
]

-- `s` is what stands behind the opening bracket.
bracket_port : String → Option String
unfolding has behind is_colon is_open is_close
bracket_port s = elim (behind is_close s) [
  | none ↦ none
  | some rest ↦ after_bracket (has is_open s) rest
]
  where
    after_bracket : Bool → String → Option String
    after_bracket opened String.[] = none
    after_bracket opened (String.◌∷◌ c port) =
        if not (is_colon c) || has is_colon port || opened || has is_close port
        then none
        else some port

-- The port of net.SplitHostPort.
pub split_port : String → Option String
unfolding plain_port bracket_port is_open
split_port String.[] = none
split_port (String.◌∷◌ c s) = if is_open c then bracket_port s else plain_port (String.◌∷◌ c s)

digit : Char → Option ℕ
digit c = if leb 48 (code c) && leb (code c) 57 then some (code c - 48) else none

-- The digits of strconv.ParseUint at base 10, on top of the value read so far.
digits : ℕ → String → Option ℕ
unfolding digit
digits n String.[] = some n
digits n (String.◌∷◌ c s) = elim (digit c) [ none ↦ none | some d ↦ digits (n * 10 + d) s ]

-- strconv.ParseUint(s, 10, 16)
pub parse_uint16 : String → Option ℕ
unfolding digits
parse_uint16 String.[] = none
parse_uint16 (String.◌∷◌ c s) = elim (digits 0 (String.◌∷◌ c s)) [
  | none ↦ none
  | some n ↦ if leb n 65535 then some n else none
]

-- The body of ServedPorts's loop: the port of an address.
pub port_of : String → Option ℕ
unfolding split_port parse_uint16
port_of addr = elim (split_port addr) [ none ↦ none | some port ↦ parse_uint16 port ]

-- The loop of ServedPorts, with the ports that it has seen.
pub ports_from : List ℕ → List String → List ℕ
ports_from seen [] = []
ports_from seen (addr ∷ addrs) = elim (port_of addr) [
  | none ↦ ports_from seen addrs
  | some p ↦
      let rest = ports_from seen addrs in
      let added = p ∷ ports_from (p ∷ seen) addrs in
      if any_of (λ q. nat_eq q p) seen then rest else added
]

-- ServedPorts
pub served_ports : List String → List ℕ
unfolding ports_from
served_ports addrs = ports_from [] addrs
