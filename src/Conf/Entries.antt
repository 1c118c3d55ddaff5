-- ===== src/Conf/Entries.antt =====
-- What `load_conf` of src/util/conf.c makes of the lines of a file.
use mathlib.Core.Path.{ap₂, subst}
use cserv.Prelude.{
  ℕ, ◌≡◌, refl, sym, arith, Bool, true, false, Bool-cases, inl, inr, Option, none, some, List, [],
  ◌∷◌, length, leb, ◌==◌, if◌then◌else◌,
}
use cserv.Conf.Parse.{parse_conf}
use cserv.Conf.Load.{
  str_equal, Conf, conf_kv_len, Result, returns, exits, get_conf_entry, add_entry, load_lines,
  load_conf,
}

-- the test compares the strings
pub str_equal_sound : (s t : List ℕ) → str_equal s t ≡ true → s ≡ t
unfolding str_equal
str_equal_sound [] [] e = refl
str_equal_sound [] (d ∷ t) e = absurd (ground (arith, e))
str_equal_sound (c ∷ s) [] e = absurd (ground (arith, e))
str_equal_sound (c ∷ s) (d ∷ t) e = elim (Bool-cases (c == d)) [
  | inl h ↦
      let same : c ≡ d = ground (arith, h) in
      let rest : str_equal s t ≡ true = ground (arith, h, e) in
      ap₂ ◌∷◌ same (str_equal_sound s t rest)
  | inr h ↦ absurd (ground (arith, h, e))
]

pub str_equal_refl : (s : List ℕ) → str_equal s s ≡ true
unfolding str_equal
str_equal_refl [] = refl
str_equal_refl (c ∷ s) = ground (arith, str_equal_refl s)

module _ (isspace isprint : ℕ → Bool) where
  -- what a line says of a key
  abbrev pub value_in : List ℕ → Option (List ℕ × List ℕ) → Option (List ℕ)
  value_in key none = none
  value_in key (some (k, value)) = if str_equal k key then some value else none

  -- The value of a key in a file: that of the last line that has the key.
  abbrev pub last_value : List ℕ → List (Bool × List ℕ) → Option (List ℕ)
  last_value key [] = none
  last_value key ((allocated, buff) ∷ lines) = elim (last_value key lines) [
    | some value ↦ some value
    | none ↦ value_in key (parse_conf isspace isprint buff)
  ]

  -- `found` or else what the entries that were there before say
  abbrev pub answer : List ℕ → Option (List ℕ) → List Conf → Result (List ℕ)
  answer key none head = get_conf_entry key head
  answer key (some value) head = returns value

  -- the entries that a function returns answer so
  abbrev Answers : List ℕ → Result (List ℕ) → Result (List Conf) → Type 0
  Answers key r (returns config) = get_conf_entry key config ≡ r
  Answers key r exits = Unit

  add_entry-Answers :
      (key : List ℕ) (allocated : Bool) (entry : Option (List ℕ × List ℕ)) (head : List Conf)
      → Answers key
          (answer key (value_in key entry) head)
          (add_entry isspace isprint allocated entry head)
  unfolding add_entry get_conf_entry
  add_entry-Answers key allocated none head = refl
  add_entry-Answers key allocated (some (k, value)) head =
      elim (Bool-cases (leb conf_kv_len (length k))) [
        | inl a ↦ rw a tt
        | inr a ↦ elim (Bool-cases (leb conf_kv_len (length value))) [
          | inl b ↦ rw (a, b) tt
          | inr b ↦
              elim allocated
                as (λ m.
                  Answers key (answer key (value_in key (some (k, value))) head)
                    (add_entry isspace isprint m (some (k, value)) head)) [
                      | false ↦ rw (add_entry, a, b) tt
                      | true ↦ elim (Bool-cases (str_equal k key)) [
                        | inl e ↦ rw (add_entry, a, b, get_conf_entry, e) refl
                        | inr e ↦ rw (add_entry, a, b, get_conf_entry, e) refl
                      ]
                    ]
        ]
      ]

  answer-later :
      (key : List ℕ) (later here : Option (List ℕ)) (next head : List Conf)
      → get_conf_entry key next ≡ answer key here head
      → answer key later next
        ≡ answer key (elim later [ some value ↦ some value | none ↦ here ]) head
  answer-later key none here next head e = e
  answer-later key (some value) here next head e = refl

  -- a round and the rounds behind it
  continued-Answers :
      (key : List ℕ) (lines : List (Bool × List ℕ)) (here : Option (List ℕ)) (head : List Conf)
      (r : Result (List Conf))
      → ((next : List Conf)
          → Answers key
              (answer key (last_value key lines) next)
              (load_lines isspace isprint lines next))
      → Answers key (answer key here head) r
      → Answers key
          (answer key (elim (last_value key lines) [ some value ↦ some value | none ↦ here ]) head)
          (elim r [ returns next ↦ load_lines isspace isprint lines next | exits ↦ exits ])
  continued-Answers key lines here head exits h a = tt
  continued-Answers key lines here head (returns next) h a =
      rw (sym (answer-later key (last_value key lines) here next head a)) (h next)

  load_lines-Answers :
      (key : List ℕ) (lines : List (Bool × List ℕ)) (head : List Conf)
      → Answers key (answer key (last_value key lines) head) (load_lines isspace isprint lines head)
  unfolding load_lines
  load_lines-Answers key [] head = refl
  load_lines-Answers key ((allocated, buff) ∷ lines) head =
      continued-Answers key lines (value_in key (parse_conf isspace isprint buff)) head
        (add_entry isspace isprint allocated (parse_conf isspace isprint buff) head)
        (load_lines-Answers key lines)
        (add_entry-Answers key allocated (parse_conf isspace isprint buff) head)

  -- When `load_conf` returns, `get_conf_entry` answers the value of the last line that has the key,
  -- and ends the program when no line has it.
  pub load_conf-last_value :
      (key : List ℕ) (lines : List (Bool × List ℕ)) (config : List Conf)
      → load_conf isspace isprint (some lines) ≡ returns config
      → get_conf_entry key config ≡ answer key (last_value key lines) []
  unfolding load_conf
  load_conf-last_value key lines config e =
      subst (Answers key (answer key (last_value key lines) [])) e (load_lines-Answers key lines [])
