-- ===== src/Server/Metrics/Labels.antt =====
-- The escapes of pkg/server/metrics.go against a reader of label values in the format of Prometheus.
use Prim.Native.Char.{Char, code}
use text.Mathlib.TextEquality.{Char-path}
use text.Mathlib.TextLemmas.{nil-append, cons-append}
use mathlib.Core.Option
use rsync_gateway.Prelude.{
  ℕ, ◌≡◌, refl, sym, ap, ◌∙◌, Bool, true, false, Option, none, some, String, if◌then◌else◌, nat_eq,
  nat_eq_iff, Bool-cases, inl, inr,
}
use rsync_gateway.Prelude.Text.{◌^^◌}
use rsync_gateway.Server.Metrics.{replace_all, escape_label_value}

-- What a backslash and a character stand for.
abbrev pub unescaped : Char → Option Char
unescaped c =
    if nat_eq (code c) 92
    then some "\\"
    else if nat_eq (code c) 110
    then some "\n"
    else if nat_eq (code c) 34
    then some "\""
    else none

abbrev pub prepend : Char → String × String → String × String
prepend c (value, rest) = (String.◌∷◌ c value, rest)

-- A label value up to its closing quote, and what follows; the flag tells that a backslash was read.
pub read_label : Bool → String → Option (String × String)
read_label escaped String.[] = none
read_label true (String.◌∷◌ c s) =
    let rest = read_label false s in
    elim (unescaped c) [ none ↦ none | some d ↦ Option.map (prepend d) rest ]
read_label false (String.◌∷◌ c s) =
    let escape = read_label true s in
    let rest = read_label false s in
    if nat_eq (code c) 34
    then some ("", s)
    else if nat_eq (code c) 92
    then escape
    else if nat_eq (code c) 10
    then none
    else Option.map (prepend c) rest

two_append :
    (c d : Char) (t : String) → String.◌∷◌ c (String.◌∷◌ d "") ^^ t ≡ String.◌∷◌ c (String.◌∷◌ d t)
two_append c d t =
    cons-append c (String.◌∷◌ d "") t
    ∙ ap (λ x. String.◌∷◌ c x) (cons-append d "" t ∙ ap (λ x. String.◌∷◌ d x) (nil-append t))

replace_hit :
    (old : ℕ) (by : String) (c : Char) (s : String)
    → nat_eq (code c) old ≡ true
    → replace_all old by (String.◌∷◌ c s) ≡ by ^^ replace_all old by s
unfolding replace_all
replace_hit old by c s e = rw (e, replace_all) refl

replace_miss :
    (old : ℕ) (by : String) (c : Char) (s : String)
    → nat_eq (code c) old ≡ false
    → replace_all old by (String.◌∷◌ c s) ≡ String.◌∷◌ c (replace_all old by s)
unfolding replace_all
replace_miss old by c s e = rw (e, replace_all) refl

-- The escape of a character that has one, and of one that has none.
escape_with : Char → String → String
escape_with d s = String.◌∷◌ "\\" (String.◌∷◌ d (escape_label_value s))

module _ (c : Char) (s : String) where
  abbrev first_pass : String → String
  first_pass t = replace_all 92 "\\\\" t

  abbrev second_pass : String → String
  second_pass t = replace_all 10 "\\n" t

  abbrev third_pass : String → String
  third_pass t = replace_all 34 "\\\"" t

  escape_plain :
      nat_eq (code c) 92 ≡ false
      → nat_eq (code c) 10 ≡ false
      → nat_eq (code c) 34 ≡ false
      → escape_label_value (String.◌∷◌ c s) ≡ String.◌∷◌ c (escape_label_value s)
  unfolding escape_label_value
  escape_plain e f g =
      ap (λ t. third_pass (second_pass t)) (replace_miss 92 _ c s e)
      ∙ ap third_pass (replace_miss 10 _ c (first_pass s) f)
      ∙ replace_miss 34 _ c (second_pass (first_pass s)) g

  escape_backslash :
      nat_eq (code c) 92 ≡ true → escape_label_value (String.◌∷◌ c s) ≡ escape_with "\\" s
  unfolding escape_label_value replace_all escape_with
  escape_backslash e =
      ap (λ t. third_pass (second_pass t))
        (replace_hit 92 "\\\\" c s e ∙ two_append "\\" "\\" (first_pass s))

  escape_line_feed :
      nat_eq (code c) 92 ≡ false
      → nat_eq (code c) 10 ≡ true
      → escape_label_value (String.◌∷◌ c s) ≡ escape_with "n" s
  unfolding escape_label_value replace_all escape_with
  escape_line_feed e f =
      ap (λ t. third_pass (second_pass t)) (replace_miss 92 _ c s e)
      ∙ ap third_pass (
          replace_hit 10 "\\n" c (first_pass s) f
          ∙ two_append "\\" "n" (second_pass (first_pass s)))

  escape_quote :
      nat_eq (code c) 92 ≡ false
      → nat_eq (code c) 10 ≡ false
      → nat_eq (code c) 34 ≡ true
      → escape_label_value (String.◌∷◌ c s) ≡ escape_with "\"" s
  unfolding escape_label_value escape_with
  escape_quote e f g =
      ap (λ t. third_pass (second_pass t)) (replace_miss 92 _ c s e)
      ∙ ap third_pass (replace_miss 10 _ c (first_pass s) f)
      ∙ replace_hit 34 "\\\"" c (second_pass (first_pass s)) g
      ∙ two_append "\\" "\"" (third_pass (second_pass (first_pass s)))

-- Reading behind an escaped character is reading that character.
read_escaped :
    (d c : Char) (s rest : String)
    → unescaped d ≡ some c
    → read_label false (escape_with d s ^^ rest)
      ≡ Option.map (prepend c) (read_label false (escape_label_value s ^^ rest))
unfolding read_label escape_with
read_escaped d c s rest e =
    ap (read_label false) (
      cons-append "\\" (String.◌∷◌ d (escape_label_value s)) rest
      ∙ ap (λ t. String.◌∷◌ "\\" t) (cons-append d (escape_label_value s) rest))
    ∙ ap
        (λ u. elim u as (λ _. Option (String × String)) [
          | none ↦ none
          | some d ↦ Option.map (prepend d) (read_label false (escape_label_value s ^^ rest))
        ])
        e

read_plain :
    (c : Char) (s : String)
    → nat_eq (code c) 92 ≡ false
    → nat_eq (code c) 10 ≡ false
    → nat_eq (code c) 34 ≡ false
    → read_label false (String.◌∷◌ c s) ≡ Option.map (prepend c) (read_label false s)
unfolding read_label
read_plain c s e f g = rw (g, e, f, read_label) refl

-- One escaped character of a value.
module _ (c : Char) (s rest : String)
    (known : read_label false (escape_label_value s ^^ String.◌∷◌ "\"" rest) ≡ some (s, rest)) where
  by_escape :
      (d : Char)
      → unescaped d ≡ some c
      → escape_label_value (String.◌∷◌ c s) ≡ escape_with d s
      → read_label false (escape_label_value (String.◌∷◌ c s) ^^ String.◌∷◌ "\"" rest)
        ≡ some (String.◌∷◌ c s, rest)
  by_escape d u e =
      ap (λ t. read_label false (t ^^ String.◌∷◌ "\"" rest)) e
      ∙ read_escaped d c s (String.◌∷◌ "\"" rest) u
      ∙ ap (Option.map (prepend c)) known

  by_itself :
      nat_eq (code c) 92 ≡ false
      → nat_eq (code c) 10 ≡ false
      → nat_eq (code c) 34 ≡ false
      → read_label false (escape_label_value (String.◌∷◌ c s) ^^ String.◌∷◌ "\"" rest)
        ≡ some (String.◌∷◌ c s, rest)
  by_itself e f g =
      ap (λ t. read_label false (t ^^ String.◌∷◌ "\"" rest)) (escape_plain c s e f g)
      ∙ ap (read_label false) (cons-append c (escape_label_value s) (String.◌∷◌ "\"" rest))
      ∙ read_plain c (escape_label_value s ^^ String.◌∷◌ "\"" rest) e f g
      ∙ ap (Option.map (prepend c)) known

  with_code : (d : Char) → nat_eq (code c) (code d) ≡ true → some d ≡ some c
  with_code d e = ap some (sym (Char-path c d ((nat_eq_iff (code c) (code d)).0 e)))

  read_char :
      read_label false (escape_label_value (String.◌∷◌ c s) ^^ String.◌∷◌ "\"" rest)
      ≡ some (String.◌∷◌ c s, rest)
  read_char = elim (Bool-cases (nat_eq (code c) 92)) [
    | inl e ↦ by_escape "\\" (with_code "\\" e) (escape_backslash c s e)
    | inr e ↦ elim (Bool-cases (nat_eq (code c) 10)) [
      | inl f ↦ by_escape "n" (with_code "\n" f) (escape_line_feed c s e f)
      | inr f ↦ elim (Bool-cases (nat_eq (code c) 34)) [
        | inl g ↦ by_escape "\"" (with_code "\"" g) (escape_quote c s e f g)
        | inr g ↦ by_itself e f g
      ]
    ]
  ]

-- A reader gets back a label value that was escaped, up to the quote that closes it, whatever follows.
pub read_label-escape_label_value :
    (value rest : String)
    → read_label false (escape_label_value value ^^ String.◌∷◌ "\"" rest) ≡ some (value, rest)
unfolding read_label escape_label_value replace_all
read_label-escape_label_value String.[] rest =
    ap (read_label false) (nil-append (String.◌∷◌ "\"" rest))
read_label-escape_label_value (String.◌∷◌ c s) rest =
    read_char c s rest (read_label-escape_label_value s rest)
