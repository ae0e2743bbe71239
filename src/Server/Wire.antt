-- ===== src/Server/Wire.antt =====
-- pkg/server/utils.go: lines read from a connection, addresses, and the PROXY protocol header. A text
-- here is a sequence of bytes, one character for each.
pub mod Lines
use Prim.Native.String.{count}
use rsync_gateway.Prelude.{
  ℕ, ◌-◌, Bool, true, false, List, [], ◌∷◌, Option, none, some, String, Result, ok, err, ◌>>=◌,
  if◌then◌else◌, ltb, nat_eq, is_some,
}
use rsync_gateway.Prelude.Text.{◌^^◌, decimal}
use rsync_gateway.Prelude.Bytes.{take, drop, ends_line, has_prefix}
use rsync_gateway.Server.Balance.{to4}

-- What a connection has to read next: the bytes that arrive and, once they are read, the error that
-- comes with them. An expired deadline is such an error.
pub record Arrival : Type 0 where
  pub bytes : String
  pub failure : Option String

-- How a call of readLine ends: with the bytes read, with them and an error, or never; and what is left to
-- read.
pub data LineRead : Type 0 where
  line : String → List Arrival → LineRead
  failed : String → String → List Arrival → LineRead
  waits : String → LineRead

-- conn.Read(buf[n:]), with `room` bytes of the buffer left.
pub read_some : ℕ → Arrival → List Arrival → String × Option String × List Arrival
read_some room a rest =
    if ltb room (count a.bytes)
    then (take room a.bytes, none, record a { bytes = drop room a.bytes } ∷ rest)
    else (a.bytes, a.failure, rest)

-- readLine, with the length of the buffer and what has been read into it.
unfoldable pub read_line : ℕ → String → List Arrival → LineRead
unfolding read_some
read_line max got [] = waits got
read_line max got (a ∷ rest) =
    let more = read_some (max - count got) a rest in
    let got' = got ^^ more.0 in
    let again = read_line max got' rest in
    if ends_line got'
    then line got' more.2
    else if nat_eq (count got') max
    then line got' more.2
    else elim more.1 [ some why ↦ failed got' why more.2 | none ↦ again ]

-- net.Addr: a TCP address with the bytes of its IP, a Unix one, or one of another type.
pub data Address : Type 0 where
  tcp : List ℕ → ℕ → Address
  unix : String → Address
  other : String → String → Address

-- netAddrToString, with net.IP.String.
unfoldable pub net_addr_to_string : (List ℕ → String) → Address → String
net_addr_to_string ip_text (tcp ip port) = ip_text ip
net_addr_to_string ip_text (unix path) = path
net_addr_to_string ip_text (other type text) = text

-- A switch of generateProxyProtocolHeader.
pub endpoint : String → Address → Result String (List ℕ × ℕ)
endpoint role (tcp ip port) = ok (ip, port)
endpoint role (unix path) = ok (127 ∷ 0 ∷ 0 ∷ 1 ∷ [], 1)
endpoint role (other type text) = err ("invalid " ^^ role ^^ " address type " ^^ type)

-- generateProxyProtocolHeader
unfoldable pub proxy_header : (List ℕ → String) → Address → Address → Result String String
unfolding endpoint to4
proxy_header ip_text source dest = do
  (source_ip, source_port) ← endpoint "source" source
  (dest_ip, dest_port) ← endpoint "destination" dest
  ok (
      "PROXY "
      ^^ (if is_some (to4 source_ip) then "TCP4" else "TCP6")
      ^^ " "
      ^^ ip_text source_ip
      ^^ " "
      ^^ ip_text dest_ip
      ^^ " "
      ^^ decimal source_port
      ^^ " "
      ^^ decimal dest_port
      ^^ "\r\n")

-- dialContextTCPOrUnix: the network that is dialled.
unfoldable pub network : String → String
network addr = if has_prefix addr "/" then "unix" else "tcp"
