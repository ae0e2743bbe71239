-- ===== src/Server/Discovery/Lists.antt =====
-- What listAllModules writes, read by discoverModulesFromUpstream of another proxy.
use Prim.Native.Char.{code}
use text.Mathlib.TextLemmas.{nil-append, cons-append}
use rsync_gateway.Prelude.{
  ◌≡◌, refl, Bool, ap, ◌∙◌, sym, true, false, List, [], ◌∷◌, ◌++◌, some, String, ok, All, nat_eq, ℕ,
  arith, append_assoc, append-nil, if◌then◌else◌, Bool-cases, inl, inr,
}
use rsync_gateway.Prelude.Bytes.{has_prefix}
use rsync_gateway.Prelude.Text.{◌^^◌}
use rsync_gateway.Server.{UpstreamConfig}
use rsync_gateway.Server.Load.{wrap}
use rsync_gateway.Server.Listing.{lines, sort_strings}
use rsync_gateway.Server.Discovery.{
  extend, read_lines, is_space, word, first_field, version_prefix, module_names, Peer,
  behind_version, discover_modules_from_upstream,
}

abbrev pub NoSpace : String → Type 0
NoSpace String.[] = Unit
NoSpace (String.◌∷◌ c s) = (is_space (code c) ≡ false) × NoSpace s

-- A name without white space that does not look like the end of the list.
abbrev pub Plain : String → Type 0
Plain String.[] = ⊥
Plain (String.◌∷◌ c s) =
    NoSpace (String.◌∷◌ c s) × (has_prefix (String.◌∷◌ c s) version_prefix ≡ false)

Plain-NoSpace : (s : String) → Plain s → NoSpace s
Plain-NoSpace String.[] h = absurd h
Plain-NoSpace (String.◌∷◌ c s) h = h.0

Plain-prefix : (s : String) → Plain s → has_prefix s version_prefix ≡ false
Plain-prefix String.[] h = absurd h
Plain-prefix (String.◌∷◌ c s) h = h.1

not_line_feed : (n : ℕ) → is_space n ≡ false → nat_eq n 10 ≡ false
unfolding is_space
not_line_feed n e = ground arith

abbrev no_feed : String → Bool
no_feed String.[] = true
no_feed (String.◌∷◌ c s) = let rest = no_feed s in if nat_eq (code c) 10 then false else rest

no_feed-NoSpace : (s : String) → NoSpace s → no_feed s ≡ true
no_feed-NoSpace String.[] h = refl
no_feed-NoSpace (String.◌∷◌ c s) h = rw (not_line_feed (code c) h.0) (no_feed-NoSpace s h.1)

read_lines-line :
    (line rest : String)
    → no_feed line ≡ true
    → read_lines (line ^^ "\n" ^^ rest) ≡ line ∷ read_lines rest
unfolding read_lines extend
read_lines-line String.[] rest h = ap read_lines (
    nil-append ("\n" ^^ rest)
    ∙ cons-append "\n" "" rest
    ∙ ap (λ t. String.◌∷◌ "\n" t) (nil-append rest))
read_lines-line (String.◌∷◌ c s) rest h = elim (Bool-cases (nat_eq (code c) 10)) [
  | inl e ↦ cc (rw e at h)
  | inr e ↦
      ap read_lines (cons-append c s ("\n" ^^ rest))
      ∙ rw (e, read_lines) (ap (extend c) (read_lines-line s rest (rw e at h)))
]

word-NoSpace : (s : String) → NoSpace s → word s ≡ s
unfolding word
word-NoSpace String.[] h = refl
word-NoSpace (String.◌∷◌ c s) h = rw (h.0, word) (ap (λ t. String.◌∷◌ c t) (word-NoSpace s h.1))

first_field-Plain : (s : String) → Plain s → first_field s ≡ some s
unfolding first_field
first_field-Plain String.[] h = absurd h
first_field-Plain (String.◌∷◌ c s) h =
    rw (h.0.0, first_field) (ap some (word-NoSpace (String.◌∷◌ c s) h.0))

read_lines-lines :
    (names : List String)
    → All Plain names
    → read_lines (lines names) ≡ names ++ "@RSYNCD: EXIT" ∷ []
unfolding lines read_lines extend
read_lines-lines [] h = refl
read_lines-lines (name ∷ names) h =
    read_lines-line name (lines names) (no_feed-NoSpace name (Plain-NoSpace name h.0))
    ∙ ap (λ ls. name ∷ ls) (read_lines-lines names h.1)

module_names-Plain :
    (read_error : String) (names modules : List String)
    → All Plain names
    → module_names read_error (names ++ "@RSYNCD: EXIT" ∷ []) modules
      ≡ ok (sort_strings (modules ++ names))
unfolding module_names has_prefix
module_names-Plain read_error [] modules h =
    ap (λ ms. ok (sort_strings ms)) (sym (append-nil modules))
module_names-Plain read_error (name ∷ names) modules h =
    rw (Plain-prefix name h.0, first_field-Plain name h.0, module_names)
      (module_names-Plain read_error names (modules ++ name ∷ []) h.1
        ∙ ap (λ ms. ok (sort_strings ms)) (append_assoc modules (name ∷ []) names))

module_names-lines :
    (read_error : String) (names : List String)
    → All Plain names
    → module_names read_error (read_lines (lines names)) [] ≡ ok (sort_strings names)
module_names-lines read_error names h =
    ap (λ ls. module_names read_error ls []) (read_lines-lines names h)
    ∙ module_names-Plain read_error names [] h

abbrev version_line : String
version_line = "@RSYNCD: 32.0 sha512 sha256 sha1 md5 md4"

-- A proxy that answers with its version and a list of modules, without a message of the day.
abbrev pub proxy_peer : String → List String → Peer
proxy_peer read_error names = record {
  dial = λ addr. ok tt;
  send_header = ok tt;
  send = λ text. ok tt;
  stream = version_line ^^ "\n" ^^ lines names;
  read_error = read_error;
}

-- From a proxy without a message of the day discoverModulesFromUpstream gets the names that listAllModules writes there,
-- sorted, if none is empty, has white space in it or starts like the end of the list.
pub discover_modules-lines :
    (read_error : String) (u : UpstreamConfig) (names : List String)
    → All Plain names
    → discover_modules_from_upstream (proxy_peer read_error names) u ≡ ok (sort_strings names)
unfolding discover_modules_from_upstream behind_version has_prefix wrap
discover_modules-lines read_error u names h = elim (Bool-cases u.target.use_proxy_protocol) [
  | inl e ↦
      rw (e, read_lines-line version_line (lines names) refl)
        (module_names-lines read_error names h)
  | inr e ↦
      rw (e, read_lines-line version_line (lines names) refl)
        (module_names-lines read_error names h)
]
