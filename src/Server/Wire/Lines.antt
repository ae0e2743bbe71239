-- ===== src/Server/Wire/Lines.antt =====
-- What readLine of pkg/server/utils.go reads.
use Prim.Native.String.{count}
use text.Mathlib.TextLemmas.{length-append, append-nil, append_assoc}
use rsync_gateway.Prelude.{
  ℕ, ◌≡◌, ◌≤◌, ◌<◌, ◌+◌, ◌-◌, refl, sym, ap, ◌∙◌, subst, true, false, List, [], ◌∷◌, Option, none,
  some, String, ◌⊎◌, inl, inr, arith, Bool-cases, nat_eq, nat_eq_iff, ltb, ltb→lt, if◌then◌else◌,
}
use rsync_gateway.Prelude.Text.{◌^^◌}
use rsync_gateway.Prelude.Bytes.{take, drop, ends_line, count-take_full, take-append-drop}
use rsync_gateway.Server.Wire.{Arrival, LineRead, line, failed, waits, read_some, read_line}

-- All bytes that are still to be read.
abbrev pub pending : List Arrival → String
pending [] = ""
pending (a ∷ rest) = a.bytes ^^ pending rest

-- The buffer is not overrun and no byte is lost. A line ends with a line feed or fills the buffer, and
-- nothing shorter would have done.
abbrev pub Reads : ℕ → String → LineRead → Type 0
Reads max input (line got rest) =
    (count got ≤ max) × (got ^^ pending rest ≡ input) × ((ends_line got ≡ true) ⊎ (count got ≡ max))
Reads max input (failed got why rest) =
    (count got < max) × (got ^^ pending rest ≡ input) × (ends_line got ≡ false)
Reads max input (waits got) = (count got < max) × (got ≡ input) × (ends_line got ≡ false)

abbrev pub one_if : Option String → ℕ
one_if none = 0
one_if (some why) = 1

-- The errors that are still to come.
abbrev pub failures : List Arrival → ℕ
failures [] = 0
failures (a ∷ rest) = one_if a.failure + failures rest

-- Of `n` errors to come at most one is used up, and the call waits only if there is none.
abbrev pub Spends : ℕ → LineRead → Type 0
Spends n (line got rest) = n ≤ failures rest + 1
Spends n (failed got why rest) = n ≤ failures rest + 1
Spends n (waits got) = n ≡ 0

record Taken (room : ℕ) (a : Arrival) (rest : List Arrival)
    (r : String × Option String × List Arrival) : Type 0 where
  within : count r.0 ≤ room
  kept : r.0 ^^ pending r.2 ≡ a.bytes ^^ pending rest
  whole : (count r.0 ≡ room) ⊎ (r.2 ≡ rest)
  spent : failures (a ∷ rest) ≡ one_if r.1 + failures r.2

read_some-Taken :
    (room : ℕ) (a : Arrival) (rest : List Arrival) → Taken room a rest (read_some room a rest)
unfolding read_some
read_some-Taken room a rest = elim (Bool-cases (ltb room (count a.bytes))) [
  | inl e ↦ rw e (record {
    within =
        omega (arith, count-take_full room a.bytes (omega (arith, ltb→lt room (count a.bytes) e)));
    kept =
        sym (append_assoc (take room a.bytes) (drop room a.bytes) (pending rest))
        ∙ ap (λ s. s ^^ pending rest) (take-append-drop room a.bytes);
    whole = inl (count-take_full room a.bytes (omega (arith, ltb→lt room (count a.bytes) e)));
    spent = omega arith;
  })
  | inr e ↦ rw e (record { within = ground arith; kept = refl; whole = inr refl; spent = refl })
]

module _ (max : ℕ) (got : String) (a : Arrival) (rest : List Arrival)
    (more : String × Option String × List Arrival) (short : count got < max)
    (taken : Taken (max - count got) a rest more) where
  abbrev got' : String
  got' = got ^^ more.0

  count-more : count got' ≤ max
  count-more = omega (arith, length-append got more.0, taken.within)

  whole_input : got' ^^ pending more.2 ≡ got ^^ pending (a ∷ rest)
  whole_input = append_assoc got more.0 (pending more.2) ∙ ap (λ s. got ^^ s) taken.kept

  -- The buffer has room left, so all of the arrival was taken.
  rest_kept : (nat_eq (count got') max ≡ false) → more.2 ≡ rest
  rest_kept e = elim taken.whole [
    | inl full ↦
        let filled : count got' ≡ max = omega (arith, length-append got more.0, full) in
        cc (e, (nat_eq_iff (count got') max).1 filled)
    | inr same ↦ same
  ]

  -- One round of the loop, with what the rounds after it do.
  round-Reads :
      (again : LineRead)
      → (count got' < max → ends_line got' ≡ false → Reads max (got' ^^ pending rest) again)
      → Reads max (got ^^ pending (a ∷ rest)) (
          if ends_line got'
          then line got' more.2
          else if nat_eq (count got') max
          then line got' more.2
          else elim more.1 [ some why ↦ failed got' why more.2 | none ↦ again ])
  round-Reads again ih = elim (Bool-cases (ends_line got')) [
    | inl e ↦ rw e (count-more, whole_input, inl e)
    | inr e ↦ elim (Bool-cases (nat_eq (count got') max)) [
      | inl f ↦ rw (e, f) (count-more, whole_input, inr ((nat_eq_iff (count got') max).0 f))
      | inr f ↦
          let room : count got' < max = ground (arith, count-more) in
          rw (e, f)
            (elim more.1
              as (λ o.
                Reads max (got ^^ pending (a ∷ rest))
                  (elim o [ some why ↦ failed got' why more.2 | none ↦ again ])) [
                    | some why ↦ (room, whole_input, e)
                    | none ↦
                        subst (λ x. Reads max x again)
                          (ap (λ r. got' ^^ pending r) (sym (rest_kept f)) ∙ whole_input)
                          (ih room e)
                  ])
    ]
  ]

  one_if-le : (o : Option String) → one_if o ≤ 1
  one_if-le none = omega arith
  one_if-le (some why) = omega arith

  round-Spends :
      (again : LineRead)
      → (count got' < max → Spends (failures rest) again)
      → Spends (failures (a ∷ rest)) (
          if ends_line got'
          then line got' more.2
          else if nat_eq (count got') max
          then line got' more.2
          else elim more.1 [ some why ↦ failed got' why more.2 | none ↦ again ])
  round-Spends again ih = elim (Bool-cases (ends_line got')) [
    | inl e ↦ rw e (omega (arith, taken.spent, one_if-le more.1))
    | inr e ↦ elim (Bool-cases (nat_eq (count got') max)) [
      | inl f ↦ rw (e, f) (omega (arith, taken.spent, one_if-le more.1))
      | inr f ↦ rw (e, f) (through more.1 taken.spent (ground (arith, count-more)) f)
    ]
  ]
    where
      through :
          (o : Option String)
          → failures (a ∷ rest) ≡ one_if o + failures more.2
          → count got' < max
          → nat_eq (count got') max ≡ false
          → Spends
              (failures (a ∷ rest))
              (elim o [ some why ↦ failed got' why more.2 | none ↦ again ])
      through none e room f =
          let same : failures (a ∷ rest) ≡ failures rest =
            omega (arith, e, ap failures (rest_kept f)) in
          subst (λ n. Spends n again) (sym same) (ih room)
      through (some why) e room f = omega (arith, e)

-- readLine never reads past its buffer and loses no byte. A line ends with a line feed or fills the
-- buffer; an error comes, or the call waits, only while neither holds.
pub read_line-Reads :
    (max : ℕ) (got : String) (arrivals : List Arrival)
    → count got < max
    → ends_line got ≡ false
    → Reads max (got ^^ pending arrivals) (read_line max got arrivals)
unfolding read_line
read_line-Reads max got [] short unended = (short, sym (append-nil got), unended)
read_line-Reads max got (a ∷ rest) short unended =
    round-Reads max got a rest (read_some (max - count got) a rest) short
      (read_some-Taken (max - count got) a rest)
      (read_line max (got ^^ (read_some (max - count got) a rest).0) rest)
      (read_line-Reads max (got ^^ (read_some (max - count got) a rest).0) rest)

pub read_line-Spends :
    (max : ℕ) (got : String) (arrivals : List Arrival)
    → count got < max
    → Spends (failures arrivals) (read_line max got arrivals)
unfolding read_line
read_line-Spends max got [] short = refl
read_line-Spends max got (a ∷ rest) short =
    round-Spends max got a rest (read_some (max - count got) a rest) short
      (read_some-Taken (max - count got) a rest)
      (read_line max (got ^^ (read_some (max - count got) a rest).0) rest)
      (read_line-Spends max (got ^^ (read_some (max - count got) a rest).0) rest)
