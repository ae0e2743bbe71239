-- ===== src/Server/Discovery.antt =====
-- discoverModulesFromUpstream of pkg/server/server.go: the modules that an upstream lists. What the upstream sends is a text,
-- after which reading fails.
pub mod Lists
mod Tests
use Prim.Native.Char.{Char, code}
use rsync_gateway.Prelude.{
  ℕ, Bool, true, false, not, ◌||◌, ◌&&◌, List, [], ◌∷◌, ◌++◌, Option, none, some, String, Result,
  ok, err, ◌>>=◌, ◌>>◌, if◌then◌else◌, nat_eq, leb,
}
use rsync_gateway.Prelude.Bytes.{has_prefix}
use rsync_gateway.Prelude.Keys.{◌==◌, String_eq}
use rsync_gateway.Prelude.Text.{◌^^◌, quote}
use rsync_gateway.Server.{UpstreamConfig}
use rsync_gateway.Server.Load.{wrap}
use rsync_gateway.Server.Listing.{sort_strings}

-- The outcomes of the calls on the connection, and what arrives on it.
pub record Peer : Type 0 where
  pub dial : String → Result String (Unit {0})
  pub send_header : Result String (Unit {0})
  pub send : String → Result String (Unit {0})
  pub stream : String
  pub read_error : String

-- A character in front of the first line; a line that does not end is none.
pub extend : Char → List String → List String
extend c [] = []
extend c (line ∷ lines) = String.◌∷◌ c line ∷ lines

-- The lines that ReadString gives one after the other, without their line feeds.
pub read_lines : String → List String
read_lines String.[] = []
read_lines (String.◌∷◌ c s) =
    let rest = read_lines s in if nat_eq (code c) 10 then "" ∷ rest else extend c rest

-- unicode.IsSpace
pub is_space : ℕ → Bool
is_space n =
    (leb 9 n && leb n 13)
    || nat_eq n 32
    || nat_eq n 133
    || nat_eq n 160
    || nat_eq n 5760
    || (leb 8192 n && leb n 8202)
    || nat_eq n 8232
    || nat_eq n 8233
    || nat_eq n 8239
    || nat_eq n 8287
    || nat_eq n 12288

pub word : String → String
word String.[] = ""
word (String.◌∷◌ c s) = let rest = word s in if is_space (code c) then "" else String.◌∷◌ c rest

-- The first of strings.Fields.
pub first_field : String → Option String
first_field String.[] = none
first_field (String.◌∷◌ c s) =
    let later = first_field s in if is_space (code c) then later else some (word (String.◌∷◌ c s))

abbrev pub version_prefix : String
version_prefix = "@RSYNCD:"

-- The loop over the lines of the list.
pub module_names : String → List String → List String → Result String (List String)
module_names read_error [] modules = err ("read module list: " ^^ read_error)
module_names read_error (line ∷ lines) modules =
    let emptied = module_names read_error lines [] in
    if has_prefix line version_prefix then ok (sort_strings modules) else elim (first_field line) [
      | none ↦ emptied
      | some name ↦ module_names read_error lines (modules ++ name ∷ [])
    ]

-- The upstream's version, and the lines behind it.
pub behind_version : String → List String → Result String (List String)
behind_version read_error [] = err ("read version: " ^^ read_error)
behind_version read_error (line ∷ lines) =
    if not (has_prefix line version_prefix)
    then err ("unexpected version response: " ^^ quote (line ^^ "\n"))
    else ok lines

-- discoverModulesFromUpstream
pub discover_modules_from_upstream : Peer → UpstreamConfig → Result String (List String)
discover_modules_from_upstream peer u = do
  wrap (λ e. "dial: " ^^ e) (peer.dial u.target.addr)
  if u.target.use_proxy_protocol
      then wrap (λ e. "send proxy protocol header: " ^^ e) peer.send_header
      else ok tt
  wrap (λ e. "send version: " ^^ e) (peer.send "@RSYNCD: 32.0 sha512 sha256 sha1 md5 md4\n")
  lines ← behind_version peer.read_error (read_lines peer.stream)
  wrap (λ e. "request module list: " ^^ e) (peer.send "\n")
  module_names peer.read_error lines []

-- ListUpstreamModules
pub list_upstream_modules :
    (UpstreamConfig → Result String (List String))
    → List UpstreamConfig
    → String
    → Bool
    → Result String (List String)
list_upstream_modules discover [] name force = err ("unknown upstream: " ^^ name)
list_upstream_modules discover (u ∷ us) name force =
    let rest = list_upstream_modules discover us name force in
    if not (u.name == name)
    then rest
    else if force
    then wrap
        (λ e. "discover modules from upstream " ^^ u.name ^^ " (" ^^ u.target.addr ^^ "): " ^^ e)
        (discover u)
    else ok (sort_strings u.modules)
